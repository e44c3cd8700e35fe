-- ===== src/WsRooms/Opening.antt =====
-- packages/ws/src/room-manager.ts: `_onOpen`, `getOrCreateRoom` and `close` keep the invariant.
use axiomify.WsRooms.Membership.{rooms_of, has-set, room_members-create_room}
use axiomify.WsRooms.Joining.{lists, Inv}
use axiomify.WsRooms.Departing.{unlisted}
use axiomify.WsRooms.{
  RoomManager, has, validate_room_name, create_room, get_or_create_room, room_members, is_member,
}
use axiomify.WsRooms.Clients.{on_open, disconnect_each, close}
use axiomify.Base.{
  ◌≤◌, ℕ, String, false, not, ◌&&◌, List, [], ◌==◌, ◌===◌, length, ◌≡◌, inl, inr, refl, sym, arith,
  eq_iff, Option-cases, ap, ◌∙◌,
}
use axiomify.JsMap
use axiomify.JsMap.Laws.{get-set}

abbrev no_rooms : List (String × Unit {0})
no_rooms = []

opening-lists :
    (n j id : String) (socket : ℕ) (s : RoomManager)
    → lists n j (on_open id socket s) ≡ (not (id === j) && lists n j s)
unfolding lists rooms_of on_open has JsMap.get
opening-lists n j id socket s = ground (arith, get-set j id no_rooms s.client_rooms)

opening-limited :
    (j id : String) (socket : ℕ) (s : RoomManager)
    → length (rooms_of j (on_open id socket s)) ≤ length (rooms_of j s)
unfolding rooms_of on_open
opening-limited j id socket s = ground (arith, get-set j id no_rooms s.client_rooms)

pub on_open-Inv :
    (id : String) (socket : ℕ) (s : RoomManager)
    → Inv s
    → has id s.clients ≡ false
    → Inv (on_open id socket s)
unfolding on_open is_member room_members
on_open-Inv id socket s h fresh =
    let nothing_listed : (n : String) → lists n id s ≡ false = λ n. unlisted n id s h fresh in
    record {
      agrees = λ n j.
          ground
            (arith, opening-lists n j id socket s, h.agrees n j, nothing_listed n, eq_iff id j);
      connected = λ j. ground (
        arith,
        has-set j id socket s.clients,
        has-set j id no_rooms s.client_rooms,
        h.connected j,
      );
      has_socket = λ j. ground (
        arith,
        has-set j id socket s.ws_clients,
        has-set j id no_rooms s.client_rooms,
        h.has_socket j,
      );
      limited = λ j. omega (arith, h.limited j, opening-limited j id socket s);
      bridged = λ n. h.bridged n;
    }

create_room-lists :
    (n j name : String) (now : ℕ) (s : RoomManager)
    → lists n j (create_room now name s) ≡ lists n j s
unfolding lists rooms_of create_room
create_room-lists n j name now s = refl

create_room-Inv : (now : ℕ) (name : String) (s : RoomManager) → Inv s → Inv (create_room now name s)
unfolding create_room is_member lists rooms_of
create_room-Inv now name s h = record {
  agrees = λ n j. ap (λ l. has j l) (room_members-create_room n name now s) ∙ h.agrees n j;
  connected = h.connected;
  has_socket = h.has_socket;
  limited = h.limited;
  bridged = λ n.
      h.bridged n
      ∙ ap (λ l. s.has_broker && not (length l == 0)) (sym (room_members-create_room n name now s));
}

pub get_or_create_room-Inv :
    (now : ℕ) (name : String) (s : RoomManager) → Inv s → Inv (get_or_create_room now name s).0
unfolding get_or_create_room
get_or_create_room-Inv now name s h = elim (Option-cases (validate_room_name name)) [
  | inr (error, bad) ↦ rw (get_or_create_room, bad) h
  | inl ok ↦ rw (get_or_create_room, ok) (create_room-Inv now name s h)
]

pub close-Inv : (s : RoomManager) → Inv (close s)
unfolding close disconnect_each is_member lists rooms_of room_members has JsMap.get
close-Inv s = record {
  agrees = λ n j. refl;
  connected = λ j. refl;
  has_socket = λ j. refl;
  limited = λ j. omega arith;
  bridged = λ n. ground arith;
}
