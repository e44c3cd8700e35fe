-- ===== src/WsRooms/Refusing.antt =====
-- packages/ws/src/room-manager.ts: the actions of a client that is no member of a room do not reach it.
use axiomify.WsRooms.{
  JoinError, Message, JoinPolicy, RoomManager, has, room_members, is_member, send, client_not_found,
  invalid_room, unauthorized, join_failed, joined, left, presence, before_join, allowlist,
  closed_policy,
}
use axiomify.WsRooms.Clients.{join_room, leave_room}
use axiomify.WsRooms.Wire.{
  WireAction, answer_join, finish_join, decide_join, run_join, join_action, leave_action,
  message_action, presence_action, dispatch_action, known_action, process_action,
}
use axiomify.WsRooms.Relaying.{
  is_about, deliveries, traffic, traffic-send, choice, traffic-join_room, traffic-leave_room,
  traffic-relay, traffic-if_member,
}
use axiomify.WsRooms.Permission.{received}
use axiomify.Base.{
  ℕ, String, Bool, true, false, Option, none, some, if◌then◌else◌, ◌===◌, ◌≡◌, refl, ◌∙◌,
}

module _ (name : String) (takes : String → Bool) (id : String) where
  told :
      (message : Message) (t s : RoomManager)
      → is_about name message ≡ false
      → traffic name t ≡ traffic name s
      → traffic name (send takes id message t) ≡ traffic name s
  told message t s other same = traffic-send name takes id message t other ∙ same

  traffic-answer_join :
      (room : String) (s : RoomManager) (r : RoomManager × Option JoinError)
      → traffic name r.0 ≡ traffic name s
      → traffic name (answer_join takes id room r) ≡ traffic name s
  unfolding answer_join is_about
  traffic-answer_join room s (t, none) same = told (joined room) t s refl same
  traffic-answer_join room s (t, some e) same = told (join_failed e) t s refl same

  traffic-finish_join :
      (now : ℕ) (room : String) (answer : Option Bool) (s : RoomManager)
      → traffic name (finish_join takes now id room answer s) ≡ traffic name s
  unfolding finish_join is_about
  traffic-finish_join now room none s = told unauthorized s s refl refl
  traffic-finish_join now room (some false) s = told unauthorized s s refl refl
  traffic-finish_join now room (some true) s =
      traffic-answer_join room s (join_room takes now id room s)
        (traffic-join_room name takes now id room s)

  traffic-decide_join :
      (now : ℕ) (room : String) (policy : JoinPolicy) (s : RoomManager)
      → traffic name (decide_join takes now id room policy s) ≡ traffic name s
  unfolding decide_join
  traffic-decide_join now room before_join s = refl
  traffic-decide_join now room (allowlist pattern) s =
      traffic-finish_join now room (some (pattern room)) s
  traffic-decide_join now room closed_policy s = traffic-finish_join now room (some false) s

  traffic-join_action :
      (now : ℕ) (room : Option String) (s : RoomManager)
      → traffic name (join_action takes now id room s) ≡ traffic name s
  unfolding join_action run_join is_about
  traffic-join_action now none s = told invalid_room s s refl refl
  traffic-join_action now (some room) s =
      choice name (room === "") _ _ s (told invalid_room s s refl refl) (
        choice name (has id s.ws_clients) _ _ s (traffic-decide_join now room s.policy s)
          (told (join_failed client_not_found) s s refl refl))

  traffic-leave_action :
      (room : Option String) (s : RoomManager)
      → traffic name (leave_action takes id room s) ≡ traffic name s
  unfolding leave_action is_about
  traffic-leave_action none s = told invalid_room s s refl refl
  traffic-leave_action (some room) s =
      told (left room) (leave_room takes id room s) s refl (traffic-leave_room name takes id room s)

  module _ (s : RoomManager) (outside : is_member name id s ≡ false) where
    traffic-message_action :
        (room : Option String) (content : String)
        → traffic name (message_action takes id room content s) ≡ traffic name s
    unfolding message_action is_about
    traffic-message_action none content = told invalid_room s s refl refl
    traffic-message_action (some room) content =
        traffic-if_member name takes id room _ s outside
          (λ away. traffic-relay name takes id room content s away)

    traffic-presence_action :
        (room : Option String) → traffic name (presence_action takes id room s) ≡ traffic name s
    unfolding presence_action is_about
    traffic-presence_action none = told invalid_room s s refl refl
    traffic-presence_action (some room) =
        traffic-if_member name takes id room _ s outside
          (λ away. told (presence room (room_members room s)) s s away refl)

    either :
        (b : Bool) (x y : RoomManager × Bool)
        → traffic name x.0 ≡ traffic name s
        → traffic name y.0 ≡ traffic name s
        → traffic name (if b then x else y).0 ≡ traffic name s
    either true x y p q = p
    either false x y p q = q

    traffic-known_action :
        (now : ℕ) (action : Option String) (a : WireAction)
        → traffic name (known_action takes now id action a s).0 ≡ traffic name s
    unfolding known_action dispatch_action
    traffic-known_action now none a = refl
    traffic-known_action now (some action) a =
        either (has id s.clients) _ _
          (either (action === "join") _ _ (traffic-join_action now a.room s) (
            either (action === "leave") _ _ (traffic-leave_action a.room s) (
              either (action === "message") _ _ (traffic-message_action a.room a.content)
                (either (action === "presence") _ _ (traffic-presence_action a.room) refl))))
          refl

uncounted :
    (name id : String) (s : RoomManager)
    → is_member name id s ≡ false
    → is_member name id (received s) ≡ false
unfolding is_member room_members
uncounted name id s outside = outside

-- An action of a client that is no member of a room publishes nothing to the room, forwards nothing of it to
-- the broker and is answered with no message and no presence of it.
pub deliveries-process_action :
    (takes : String → Bool) (now : ℕ) (id : String) (a : Option WireAction) (s : RoomManager)
    (name : String)
    → is_member name id s ≡ false
    → deliveries name (process_action takes now id a s).0.log ≡ deliveries name s.log
unfolding process_action
deliveries-process_action takes now id none s name outside = refl
deliveries-process_action takes now id (some a) s name outside =
    traffic-known_action name takes id (received s) (uncounted name id s outside) now a.action a
