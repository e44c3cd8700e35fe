-- ===== src/WsRooms/Leaving.antt =====
-- packages/ws/src/room-manager.ts: `_leaveRoom`, `leaveAll` and `_onClose` keep the invariant.
use axiomify.WsRooms.Joining.{lists, lists_found, lists_away, Inv}
use axiomify.WsRooms.{Room, RoomManager, has, room_members, is_member}
use axiomify.WsRooms.Clients.{
  ws_room_channel, unsubscribe_topic, drop_channel, delete_room, remove_member, unlist,
  remove_listed, leave_room,
}
use axiomify.WsRooms.Membership.{
  rooms_of, rooms_of_found, has-delete, room_members-remove_member,
  requested_channels-remove_member,
}
use axiomify.Base.{
  ◌≤◌, String, Bool, true, false, not, ◌&&◌, some, List, if◌then◌else◌, ◌==◌, ◌===◌, length, ◌≡◌,
  inl, inr, sym, arith, eq_iff, Bool-cases, Option-cases, ap, ◌∙◌,
}
use axiomify.JsMap
use axiomify.JsMap.Laws.{get-set, length-delete-le}

module _ (takes : String → Bool) (id name : String) (names : List (String × Unit {0}))
    (s : RoomManager) (room : Room) (e : JsMap.get id s.client_rooms ≡ some names)
    (there : JsMap.get name s.rooms ≡ some room) where
  abbrev pub gone : RoomManager
  gone = remove_member id name room (unlist takes id name names s)

  pub room_members-gone :
      (n : String)
      → room_members n gone
        ≡ (if name === n then JsMap.delete id (room_members name s) else room_members n s)
  unfolding unlist unsubscribe_topic room_members
  room_members-gone n =
      room_members-remove_member n name id room (unlist takes id name names s) there

  pub rooms_of-gone :
      (j : String) → rooms_of j gone ≡ (if id === j then JsMap.delete name names else rooms_of j s)
  unfolding unlist unsubscribe_topic remove_member delete_room drop_channel rooms_of
  rooms_of-gone j = elim (Bool-cases (length (JsMap.delete id room.members) == 0)) [
    | inl empty ↦ ground (arith, get-set j id (JsMap.delete name names) s.client_rooms)
    | inr more ↦ ground (arith, get-set j id (JsMap.delete name names) s.client_rooms)
  ]

  requested_channels-gone :
      (n : String)
      → has (ws_room_channel n) gone.requested_channels ≡ (
          not (
            (name === n) && (s.has_broker && (length (JsMap.delete id (room_members name s)) == 0)))
          && has (ws_room_channel n) s.requested_channels)
  unfolding unlist unsubscribe_topic room_members
  requested_channels-gone n =
      requested_channels-remove_member n name id room (unlist takes id name names s) there

  gone_same :
      (gone.clients ≡ s.clients)
      × (gone.ws_clients ≡ s.ws_clients)
      × (gone.max_rooms_per_client ≡ s.max_rooms_per_client)
      × (gone.has_broker ≡ s.has_broker)
      × (gone.client_rooms ≡ JsMap.set id (JsMap.delete name names) s.client_rooms)
  unfolding unlist unsubscribe_topic remove_member delete_room drop_channel
  gone_same = ground arith

  module _ (h : Inv s) where
    gone-agrees : (n j : String) → is_member n j gone ≡ lists n j gone
    unfolding is_member lists
    gone-agrees n j =
        rw (room_members-gone n, rooms_of-gone j)
          (ground (
            arith,
            h.agrees n j,
            rooms_of_found id s e,
            has-delete j id (room_members name s),
            has-delete n name names,
            eq_iff name n,
            eq_iff id j,
          ))

    gone-bridged :
        (n : String)
        → has (ws_room_channel n) gone.requested_channels
          ≡ (s.has_broker && not (length (room_members n gone) == 0))
    gone-bridged n =
        rw (room_members-gone n, requested_channels-gone n)
          (ground (arith, h.bridged n, eq_iff name n, length-delete-le id (room_members name s)))

    gone-connected : (j : String) → has j gone.client_rooms ≡ has j s.client_rooms
    unfolding has
    gone-connected j =
        rw (gone_same.4)
          (ground (arith, get-set j id (JsMap.delete name names) s.client_rooms, eq_iff id j))

    gone-limited : (j : String) → length (rooms_of j gone) ≤ s.max_rooms_per_client
    gone-limited j = rw (rooms_of-gone j) (
        ground
          (arith, h.limited id, h.limited j, rooms_of_found id s e, length-delete-le name names))

    pub gone-Inv : Inv gone
    gone-Inv =
        let (same_clients, same_sockets, same_limit, same_broker, _) = gone_same in
        record {
          agrees = gone-agrees;
          connected = λ j. ap (λ m. has j m) same_clients ∙ h.connected j ∙ sym (gone-connected j);
          has_socket =
              λ j. ap (λ m. has j m) same_sockets ∙ h.has_socket j ∙ sym (gone-connected j);
          limited = λ j. ground (arith, gone-limited j);
          bridged = λ n. ground (arith, gone-bridged n);
        }

member_room :
    (name id : String) (s : RoomManager)
    → is_member name id s ≡ true
    → (room : Room) × (JsMap.get name s.rooms ≡ some room)
unfolding is_member room_members has JsMap.get
member_room name id s member = elim (Option-cases (JsMap.get name s.rooms)) [
  | inl absent ↦ absurd (ground arith)
  | inr found ↦ found
]

-- Leaving leaves the manager as it is, or takes the client out of its set and out of the room.
module _ {ℓ} (P : RoomManager → Type ℓ) (takes : String → Bool) (id name : String) (s : RoomManager)
    (h : Inv s) (same : lists name id s ≡ false → P s)
    (left_it : (names : List (String × Unit {0})) (room : Room)
        (e : JsMap.get id s.client_rooms ≡ some names) (there : JsMap.get name s.rooms ≡ some room)
      → P (gone takes id name names s room e there)) where
  listed_case :
      (names : List (String × Unit {0}))
      → JsMap.get id s.client_rooms ≡ some names
      → lists name id s ≡ true
      → P (remove_listed id name (unlist takes id name names s))
  unfolding unlist unsubscribe_topic remove_listed
  listed_case names e listed =
      let (room, there) = member_room name id s (h.agrees name id ∙ listed) in
      rw (remove_listed, there) (left_it names room e there)

  pub leave_room-cases : P (leave_room takes id name s)
  unfolding leave_room
  leave_room-cases = elim (Option-cases (JsMap.get id s.client_rooms)) [
    | inl away ↦ rw (leave_room, away) (same (lists_away name id s away))
    | inr (names, e) ↦ elim (Bool-cases (has name names)) [
      | inl there ↦
          rw (leave_room, e, there) (listed_case names e (lists_found name id s e ∙ there))
      | inr absent ↦ rw (leave_room, e, absent) (same (lists_found name id s e ∙ absent))
    ]
  ]
