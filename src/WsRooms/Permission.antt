-- ===== src/WsRooms/Permission.antt =====
-- packages/ws/src/room-manager.ts: what a wire action can change: a property that joining, with permission,
-- and leaving keep and that does not read counters or the log holds after each action.
use axiomify.WsRooms.{
  JoinError, Message, JoinPolicy, RoomManager, has, send, client_not_found, invalid_room,
  unauthorized, join_failed, joined, left, before_join, allowlist, closed_policy,
}
use axiomify.WsRooms.Clients.{join_room, leave_room}
use axiomify.WsRooms.Wire.{
  WireAction, answer_join, finish_join, decide_join, run_join, join_action, leave_action,
  dispatch_action, known_action, process_action,
}
use axiomify.WsRooms.Joining.{skeleton}
use axiomify.WsRooms.Sending.{quiet-send, quiet-message_action, quiet-presence_action}
use axiomify.Base.{
  ◌+◌, ℕ, String, Bool, true, false, Option, none, some, if◌then◌else◌, ◌===◌, ◌≡◌, inl, inr, refl,
  arith, Bool-cases,
}
use mathlib.Core.Option.{some-injective}

-- A property of the managers that the joins, the departures and all that is quiet keep.
module _ {ℓ} (P : RoomManager → Type ℓ) (takes : String → Bool) (id : String)
    (quiet : (s t : RoomManager) → skeleton t ≡ skeleton s → P s → P t) where
  sent-P : (message : Message) (s : RoomManager) → P s → P (send takes id message s)
  sent-P message s p = quiet s (send takes id message s) (quiet-send takes id message s) p

  answered-P :
      (name : String) (r : RoomManager × Option JoinError) → P r.0 → P (answer_join takes id name r)
  unfolding answer_join
  answered-P name (s', none) p' = sent-P (joined name) s' p'
  answered-P name (s', some e) p' = sent-P (join_failed e) s' p'

  pub finish_join-P :
      (now : ℕ) (name : String) (answer : Option Bool) (s : RoomManager)
      → P s
      → (answer ≡ some true → P (join_room takes now id name s).0)
      → P (finish_join takes now id name answer s)
  unfolding finish_join
  finish_join-P now name none s p joined_it = sent-P unauthorized s p
  finish_join-P now name (some false) s p joined_it = sent-P unauthorized s p
  finish_join-P now name (some true) s p joined_it =
      answered-P name (join_room takes now id name s) (joined_it refl)

  -- The joins of the wire: with permission only.
  module _ (now : ℕ) (s : RoomManager) (p : P s)
      (joins : (name : String) (pattern : String → Bool)
        → s.policy ≡ allowlist pattern
        → pattern name ≡ true
        → P (join_room takes now id name s).0)
      (leaves : (name : String) → P (leave_room takes id name s)) where
    decide_join-P :
        (name : String) (policy : JoinPolicy)
        → s.policy ≡ policy
        → P (decide_join takes now id name policy s)
    unfolding decide_join
    decide_join-P name before_join e = p
    decide_join-P name (allowlist pattern) e =
        finish_join-P now name (some (pattern name)) s p
          (λ yes. joins name pattern e (some-injective (pattern name) true yes))
    decide_join-P name closed_policy e =
        finish_join-P now name (some false) s p (λ no. absurd (ground arith))

    join_action-P : (name : Option String) → P (join_action takes now id name s)
    unfolding join_action run_join
    join_action-P none = sent-P invalid_room s p
    join_action-P (some name) = elim (Bool-cases (name === "")) [
      | inl empty ↦ rw (join_action, empty) (sent-P invalid_room s p)
      | inr named ↦ elim (Bool-cases (has id s.ws_clients)) [
        | inl there ↦ rw (join_action, named, there) (decide_join-P name s.policy refl)
        | inr away ↦ rw (join_action, named, away) (sent-P (join_failed client_not_found) s p)
      ]
    ]

    leave_action-P : (name : Option String) → P (leave_action takes id name s)
    unfolding leave_action
    leave_action-P none = sent-P invalid_room s p
    leave_action-P (some name) = sent-P (left name) (leave_room takes id name s) (leaves name)

    either-P : (b : Bool) (x y : RoomManager × Bool) → P x.0 → P y.0 → P (if b then x else y).0
    either-P true x y p q = p
    either-P false x y p q = q

    dispatch_action-P :
        (action : String) (a : WireAction) → P (dispatch_action takes now id action a s).0
    unfolding dispatch_action
    dispatch_action-P action a = either-P (action === "join") _ _ (join_action-P a.room) (
        either-P (action === "leave") _ _ (leave_action-P a.room) (
          either-P (action === "message") _ _
            (quiet s _ (quiet-message_action takes id a.room a.content s) p)
            (either-P (action === "presence") _ _
              (quiet s _ (quiet-presence_action takes id a.room s) p) p)))

    pub known_action-P :
        (action : Option String) (a : WireAction) → P (known_action takes now id action a s).0
    unfolding known_action
    known_action-P none a = p
    known_action-P (some action) a =
        either-P (has id s.clients) _ (s, false) (dispatch_action-P action a) p

-- An action counts as a message first.
abbrev pub received : RoomManager → RoomManager
received s = record s { messages_received = s.messages_received + 1 }

pub quiet-received : (s : RoomManager) → skeleton (received s) ≡ skeleton s
unfolding skeleton
quiet-received s = refl

pub process_action-P {ℓ} :
    (P : RoomManager → Type ℓ) (takes : String → Bool) (id : String)
    → ((s t : RoomManager) → skeleton t ≡ skeleton s → P s → P t)
    → (now : ℕ) (a : Option WireAction) (s : RoomManager) → P s
    → ((name : String) (pattern : String → Bool)
        → s.policy ≡ allowlist pattern
        → pattern name ≡ true
        → P (join_room takes now id name (received s)).0)
    → ((name : String) → P (leave_room takes id name (received s)))
    → P (process_action takes now id a s).0
unfolding process_action
process_action-P P takes id quiet now none s p joins leaves =
    quiet s (received s) (quiet-received s) p
process_action-P P takes id quiet now (some a) s p joins leaves =
    known_action-P P takes id quiet now (received s) (quiet s (received s) (quiet-received s) p)
      joins leaves a.action a
