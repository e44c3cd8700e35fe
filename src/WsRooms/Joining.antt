-- ===== src/WsRooms/Joining.antt =====
-- packages/ws/src/room-manager.ts: the invariant of a manager, that the rooms and the sets of the clients
-- agree, and `_joinRoom`.
use axiomify.WsRooms.Membership.{
  rooms_of, rooms_of_found, rooms_of_away, has-set, length-set_absent, room_members-enter_room,
  rooms_of-enter_room, requested_channels-enter_room,
}
use axiomify.WsRooms.{
  Effect, JoinPolicy, RoomManager, has, new_manager, note, validate_room_name, create_room,
  room_members, is_member, subscribed,
}
use axiomify.WsRooms.Clients.{
  ws_room_channel, subscribe_topic, add_member, subscribe_channel, enter_room, join_new, join_room,
}
use axiomify.Base.{
  ◌≤◌, ◌<◌, ℕ, String, Bool, false, not, ◌&&◌, Option, none, some, List, [], leb, ◌==◌, length, ◌≡◌,
  ◌⊎◌, inl, inr, refl, sym, arith, eq_iff, ===_refl, Bool-cases, Option-cases, ap, ◌∙◌,
}
use axiomify.JsMap
use axiomify.JsMap.Laws.{get-set, length-set-le}

-- The client has the room in its set.
unfoldable pub lists : String → String → RoomManager → Bool
lists name id s = has name (rooms_of id s)

pub lists_found :
    (name id : String) (s : RoomManager) {names : List (String × Unit {0})}
    → JsMap.get id s.client_rooms ≡ some names
    → lists name id s ≡ has name names
unfolding lists
lists_found name id s e = ap (λ l. has name l) (rooms_of_found id s e)

pub lists_away :
    (name id : String) (s : RoomManager)
    → JsMap.get id s.client_rooms ≡ none
    → lists name id s ≡ false
unfolding lists has JsMap.get
lists_away name id s e = ap (λ l. has name l) (rooms_of_away id s e)

pub record Inv (s : RoomManager) : Type 0 where
  pub agrees : (name id : String) → is_member name id s ≡ lists name id s
  pub connected : (id : String) → has id s.clients ≡ has id s.client_rooms
  pub has_socket : (id : String) → has id s.ws_clients ≡ has id s.client_rooms
  pub limited : (id : String) → length (rooms_of id s) ≤ s.max_rooms_per_client
  pub bridged :
      (name : String)
      → has (ws_room_channel name) s.requested_channels
        ≡ (s.has_broker && not (length (room_members name s) == 0))

pub new_manager-Inv :
    (limit : Option ℕ) (policy : JoinPolicy) (broker : Option String)
    → Inv (new_manager limit policy broker)
unfolding new_manager is_member lists rooms_of room_members has JsMap.get
new_manager-Inv limit policy broker = record {
  agrees = λ name id. refl;
  connected = λ id. refl;
  has_socket = λ id. refl;
  limited = λ id. omega arith;
  bridged = λ name. ground arith;
}

-- The parts of a manager that the invariant reads.
unfoldable pub skeleton : RoomManager → RoomManager
skeleton s = record s {
  messages_received = 0;
  messages_sent = 0;
  broker_dropped = 0;
  presence_waiters = [];
  log = [];
}

Inv-skeleton : (s : RoomManager) → Inv s → Inv (skeleton s)
unfolding skeleton is_member lists rooms_of room_members
Inv-skeleton s h = record {
  agrees = h.agrees;
  connected = h.connected;
  has_socket = h.has_socket;
  limited = h.limited;
  bridged = h.bridged;
}

skeleton-Inv : (s : RoomManager) → Inv (skeleton s) → Inv s
unfolding skeleton is_member lists rooms_of room_members
skeleton-Inv s h = record {
  agrees = h.agrees;
  connected = h.connected;
  has_socket = h.has_socket;
  limited = h.limited;
  bridged = h.bridged;
}

-- What changes no more than counters and the log keeps the invariant.
pub quiet-Inv : (s t : RoomManager) → skeleton t ≡ skeleton s → Inv s → Inv t
quiet-Inv s t e h = skeleton-Inv t (rw e (Inv-skeleton s h))

module _ (s : RoomManager) (h : Inv s) where
  -- A client that is listed under no room is none of its members.
  module _ (now : ℕ) (id name : String) (names : List (String × Unit {0}))
      (e : JsMap.get id s.client_rooms ≡ some names) (absent : has name names ≡ false) where
    outside : has id (room_members name s) ≡ false
    unfolding is_member lists
    outside = h.agrees name id ∙ ap (λ l. has name l) (rooms_of_found id s e) ∙ absent

    entering-agrees :
        (n j : String)
        → is_member n j (enter_room now id name names s)
          ≡ lists n j (enter_room now id name names s)
    unfolding is_member lists
    entering-agrees n j =
        rw
          (room_members-enter_room n name id now names s, rooms_of-enter_room j name id now names s)
          (ground (
            arith,
            h.agrees n j,
            rooms_of_found id s e,
            has-set j id now (room_members name s),
            has-set n name tt names,
            eq_iff name n,
            eq_iff id j,
          ))

    entering-connected :
        (j : String) → has j (enter_room now id name names s).client_rooms ≡ has j s.client_rooms
    unfolding enter_room subscribe_channel add_member create_room has
    entering-connected j =
        ground (arith, get-set j id (JsMap.set name tt names) s.client_rooms, eq_iff id j)

    entering-limited :
        length names < s.max_rooms_per_client
        → (j : String)
        → length (rooms_of j (enter_room now id name names s)) ≤ s.max_rooms_per_client
    entering-limited free j =
        rw (rooms_of-enter_room j name id now names s)
          (ground (arith, h.limited j, length-set-le name tt names))

    entering-bridged :
        (n : String)
        → has (ws_room_channel n) (enter_room now id name names s).requested_channels
          ≡ (s.has_broker && not (length (room_members n (enter_room now id name names s)) == 0))
    entering-bridged n =
        rw
          (
            requested_channels-enter_room n name id now names s,
            room_members-enter_room n name id now names s,
            room_members-enter_room name name id now names s,
            ===_refl name,
          )
          (ground (
            arith,
            h.bridged n,
            length-set_absent id now (room_members name s) outside,
            eq_iff name n,
          ))

    entering-Inv : length names < s.max_rooms_per_client → Inv (enter_room now id name names s)
    unfolding enter_room subscribe_channel add_member create_room
    entering-Inv free = record {
      agrees = entering-agrees;
      connected = λ j. h.connected j ∙ sym (entering-connected j);
      has_socket = λ j. h.has_socket j ∙ sym (entering-connected j);
      limited = entering-limited free;
      bridged = entering-bridged;
    }

-- Joining leaves the manager as it is, or a client that is connected and not in the room, below its limit,
-- enters; its socket may have subscribed to the topic.
module _ {ℓ} (P : RoomManager → Type ℓ) (takes : String → Bool) (now : ℕ) (id name : String)
    (s : RoomManager) (same : P s)
    (entered : (names : List (String × Unit {0}))
      → JsMap.get id s.client_rooms ≡ some names
      → has name names ≡ false
      → length names < s.max_rooms_per_client
      → (t : RoomManager) → (t ≡ s) ⊎ (t ≡ note (subscribed id name) s)
      → P (enter_room now id name names t)) where
  join_new-cases :
      (names : List (String × Unit {0}))
      → JsMap.get id s.client_rooms ≡ some names
      → has name names ≡ false
      → P (join_new takes now id name names s).0
  unfolding join_new subscribe_topic
  join_new-cases names e absent = elim (Bool-cases (leb s.max_rooms_per_client (length names))) [
    | inl full ↦ rw full same
    | inr free ↦
        let enter = entered names e absent (ground arith) in
        elim (Option-cases (JsMap.get id s.ws_clients)) [
          | inl none_open ↦ rw (free, none_open) (enter s (inl refl))
          | inr (socket, open_one) ↦ elim (Bool-cases (takes id)) [
            | inl ok ↦ rw (free, open_one, ok) (enter (note (subscribed id name) s) (inr refl))
            | inr shut ↦ rw (free, open_one, shut) same
          ]
        ]
  ]

  pub join_room-cases : P (join_room takes now id name s).0
  unfolding join_room
  join_room-cases = elim (Option-cases (validate_room_name name)) [
    | inr (error, bad) ↦ rw (join_room, bad) same
    | inl ok ↦ elim (Option-cases (JsMap.get id s.client_rooms)) [
      | inl away ↦ rw (join_room, ok, away) same
      | inr (names, e) ↦ elim (Bool-cases (has name names)) [
        | inl there ↦ rw (join_room, ok, e, there) same
        | inr absent ↦ rw (join_room, ok, e, absent) (join_new-cases names e absent)
      ]
    ]
  ]

pub noted-Inv : (effect : Effect) (s : RoomManager) → Inv s → Inv (note effect s)
unfolding skeleton
noted-Inv effect s h = quiet-Inv s (note effect s) refl h

pub join_room-Inv :
    (takes : String → Bool) (now : ℕ) (id name : String) (s : RoomManager)
    → Inv s
    → Inv (join_room takes now id name s).0
join_room-Inv takes now id name s h =
    join_room-cases (λ t. Inv t) takes now id name s h
      (λ names e absent free t which. elim which [
        | inl eq ↦ rw eq (entering-Inv s h now id name names e absent free)
        | inr eq ↦ rw eq (
            entering-Inv (note (subscribed id name) s) (noted-Inv (subscribed id name) s h) now id
              name names e absent free)
      ])
