-- ===== src/WsRooms/Departing.antt =====
-- packages/ws/src/room-manager.ts: what `_leaveRoom`, `leaveAll` and `_onClose` do to the sets of rooms, and
-- that they keep the invariant.
use axiomify.Base.{
  ◌≤◌, String, Bool, false, not, ◌&&◌, List, [], ◌∷◌, ◌===◌, length, ◌≡◌, inl, inr, refl, arith,
  eq_iff, ===_refl, Bool-cases, Option-cases, ◌∙◌,
}
use axiomify.WsRooms.Membership.{rooms_of, rooms_of_found, has-delete}
use axiomify.WsRooms.Joining.{lists, lists_found, lists_away, Inv}
use axiomify.WsRooms.{RoomManager, has, room_members, is_member}
use axiomify.WsRooms.Clients.{leave_room, forget_client, leave_each, leave_all, on_close}
use axiomify.WsRooms.Leaving.{gone-Inv, rooms_of-gone, leave_room-cases}
use axiomify.Base.{
  ◌≤◌, String, Bool, false, not, ◌&&◌, List, [], ◌∷◌, ◌===◌, length, ◌≡◌, inl, inr, refl, arith,
  eq_iff, ===_refl, Bool-cases, Option-cases, ◌∙◌,
}
use axiomify.JsMap
use axiomify.JsMap.Laws.{get-delete}

pub leave_room-Inv :
    (takes : String → Bool) (id name : String) (s : RoomManager)
    → Inv s
    → Inv (leave_room takes id name s)
leave_room-Inv takes id name s h =
    leave_room-cases (λ t. Inv t) takes id name s h (λ _. h)
      (λ names room e there. gone-Inv takes id name names s room e there h)

pub lists-leave_room :
    (takes : String → Bool) (id name : String) (s : RoomManager)
    → Inv s
    → (n j : String)
    → lists n j (leave_room takes id name s) ≡ (not ((name === n) && (id === j)) && lists n j s)
unfolding lists
lists-leave_room takes id name s h n j =
    leave_room-cases (λ t. lists n j t ≡ (not ((name === n) && (id === j)) && lists n j s)) takes id
      name s h (λ absent. ground (arith, eq_iff name n, eq_iff id j))
      (λ names room e there. rw (rooms_of-gone takes id name names s room e there j) (
        ground (arith, has-delete n name names, rooms_of_found id s e, eq_iff name n, eq_iff id j)))

-- The loop of `leaveAll` leaves the rooms that it goes through.
lists-leave_each :
    (takes : String → Bool) (id : String) (names : List (String × Unit {0})) (s : RoomManager)
    → Inv s
    → Inv (leave_each takes id names s)
      × ((n j : String)
          → lists n j (leave_each takes id names s)
            ≡ (not (has n names && (id === j)) && lists n j s))
unfolding leave_each has JsMap.get
lists-leave_each takes id [] s h = (h, λ n j. refl)
lists-leave_each takes id ((name, _) ∷ names) s h =
    let (after, rest) =
      lists-leave_each takes id names (leave_room takes id name s)
        (leave_room-Inv takes id name s h) in
    (after, λ n j. ground (arith, rest n j, lists-leave_room takes id name s h n j))

pub lists-leave_all :
    (takes : String → Bool) (id : String) (s : RoomManager)
    → Inv s
    → Inv (leave_all takes id s)
      × ((n j : String) → lists n j (leave_all takes id s) ≡ (not (id === j) && lists n j s))
unfolding leave_all
lists-leave_all takes id s h = elim (Option-cases (JsMap.get id s.client_rooms)) [
  | inl away ↦ rw (leave_all, away) (h, λ n j. ground (arith, lists_away n id s away, eq_iff id j))
  | inr (names, e) ↦
      let (after, rest) = lists-leave_each takes id names s h in
      rw (leave_all, e) (after, λ n j. ground (arith, rest n j, lists_found n id s e, eq_iff id j))
]

lists-forget_client :
    (n j id : String) (s : RoomManager)
    → lists n j (forget_client id s) ≡ (not (id === j) && lists n j s)
unfolding lists rooms_of forget_client has JsMap.get
lists-forget_client n j id s = ground (arith, get-delete j id s.client_rooms)

is_member-forget_client :
    (n j id : String) (s : RoomManager) → is_member n j (forget_client id s) ≡ is_member n j s
unfolding is_member room_members forget_client
is_member-forget_client n j id s = refl

length-forget_client :
    (j id : String) (s : RoomManager)
    → length (rooms_of j (forget_client id s)) ≤ length (rooms_of j s)
unfolding rooms_of forget_client
length-forget_client j id s = ground (arith, get-delete j id s.client_rooms)

forget_client-Inv :
    (id : String) (s : RoomManager)
    → Inv s
    → ((n : String) → lists n id s ≡ false)
    → Inv (forget_client id s)
unfolding forget_client room_members
forget_client-Inv id s h out = record {
  agrees = λ n j.
      is_member-forget_client n j id s
      ∙ ground (arith, h.agrees n j, out n, lists-forget_client n j id s, eq_iff id j);
  connected =
      λ j. ground (arith, h.connected j, has-delete j id s.clients, has-delete j id s.client_rooms);
  has_socket = λ j.
      ground (arith, h.has_socket j, has-delete j id s.ws_clients, has-delete j id s.client_rooms);
  limited = λ j. omega (arith, h.limited j, length-forget_client j id s);
  bridged = λ n. h.bridged n;
}

pub unlisted :
    (n id : String) (s : RoomManager) → Inv s → has id s.clients ≡ false → lists n id s ≡ false
unfolding has
unlisted n id s h away = elim (Option-cases (JsMap.get id s.client_rooms)) [
  | inl none_there ↦ lists_away n id s none_there
  | inr (names, e) ↦ absurd (ground (arith, h.connected id))
]

on_close-both :
    (takes : String → Bool) (id : String) (s : RoomManager)
    → Inv s
    → Inv (on_close takes id s)
      × ((n j : String) → lists n j (on_close takes id s) ≡ (not (id === j) && lists n j s))
unfolding on_close
on_close-both takes id s h = elim (Bool-cases (has id s.clients)) [
  | inr away ↦ rw (on_close, away) (h, λ n j. ground (arith, unlisted n id s h away, eq_iff id j))
  | inl there ↦
      let (after, gone_from) = lists-leave_all takes id s h in
      rw (on_close, there)
        (
          forget_client-Inv id (leave_all takes id s) after
              (λ n. ground (arith, gone_from n id, ===_refl id)),
          λ n j. ground (arith, gone_from n j, lists-forget_client n j id (leave_all takes id s)),
        )
]

pub on_close-Inv :
    (takes : String → Bool) (id : String) (s : RoomManager) → Inv s → Inv (on_close takes id s)
on_close-Inv takes id s h = (on_close-both takes id s h).0

-- When its socket closed, a client of a manager that keeps the invariant is a member of no room, and each
-- membership of another client is as it was.
pub is_member-on_close :
    (takes : String → Bool) (id : String) (s : RoomManager)
    → Inv s
    → (name other : String)
    → is_member name other (on_close takes id s) ≡ (not (id === other) && is_member name other s)
is_member-on_close takes id s h name other =
    let (after, left_all) = on_close-both takes id s h in
    rw (h.agrees name other) (after.agrees name other ∙ left_all name other)
