-- ===== src/WsRooms/Membership.antt =====
-- Lemmas on the observers of a manager: what joining and leaving do to the members of the rooms, the sets
-- of the clients and the channels of the broker.
use axiomify.WsRooms.{with_room, Room, RoomManager, has, create_room, room_members}
use axiomify.WsRooms.Clients.{
  delete_room, with_member, ws_room_channel, add_member, subscribe_channel, enter_room,
  drop_channel, remove_member,
}
use axiomify.Base.{
  ℕ, suc, String, true, false, not, ◌&&◌, ◌||◌, none, some, List, [], ◌∷◌, if◌then◌else◌, ◌==◌,
  ◌===◌, length, ◌≡◌, inl, inr, refl, arith, eq_iff, ===_refl, Bool-cases, Option-cases,
  length-append,
}
use axiomify.JsMap
use axiomify.JsMap.Laws.{get-set, get-delete, set_absent}
use text.Mathlib.TextLemmas.{append_cancel_left}

-- The set of rooms of a client.
unfoldable pub rooms_of : String → RoomManager → List (String × Unit {0})
rooms_of id s = elim (JsMap.get id s.client_rooms) [ none ↦ [] | some names ↦ names ]

pub rooms_of_found :
    (id : String) (s : RoomManager) {names : List (String × Unit {0})}
    → JsMap.get id s.client_rooms ≡ some names
    → rooms_of id s ≡ names
unfolding rooms_of
rooms_of_found id s e = rw (rooms_of, e) refl

pub rooms_of_away :
    (id : String) (s : RoomManager) → JsMap.get id s.client_rooms ≡ none → rooms_of id s ≡ []
unfolding rooms_of
rooms_of_away id s e = rw (rooms_of, e) refl

pub has-set {ℓ} :
    {V : Type ℓ} (j k : String) (v : V) (m : List (String × V))
    → has j (JsMap.set k v m) ≡ ((k === j) || has j m)
unfolding has
has-set j k v m = ground (arith, get-set j k v m)

pub has-delete {ℓ} :
    {V : Type ℓ} (j k : String) (m : List (String × V))
    → has j (JsMap.delete k m) ≡ (not (k === j) && has j m)
unfolding has
has-delete j k m = ground (arith, get-delete j k m)

pub length-set_absent {ℓ} :
    {V : Type ℓ} (k : String) (v : V) (m : List (String × V))
    → has k m ≡ false
    → length (JsMap.set k v m) ≡ suc (length m)
unfolding has
length-set_absent k v m h = ground (arith, set_absent k v m, length-append m ((k, v) ∷ []))

pub has_nothing {ℓ} :
    {V : Type ℓ} (k : String) (m : List (String × V)) → length m ≡ 0 → has k m ≡ false
unfolding has JsMap.get
has_nothing k [] h = refl
has_nothing k (e ∷ m) h = absurd (ground arith)

pub ws_room_channel-injective :
    (a b : String) → (ws_room_channel a === ws_room_channel b) ≡ (a === b)
unfolding ws_room_channel
ws_room_channel-injective a b = ground (
  arith,
  eq_iff (ws_room_channel a) (ws_room_channel b),
  eq_iff a b,
  append_cancel_left "axiomify:ws:room:" a b,
)

pub room_members-create_room :
    (n name : String) (now : ℕ) (s : RoomManager)
    → room_members n (create_room now name s) ≡ room_members n s
unfolding room_members create_room with_room has
room_members-create_room n name now s =
    ground
      (arith, get-set n name (record { created_at = now; members = [] }) s.rooms, eq_iff name n)

has-with_room :
    (name : String) (now : ℕ) (rooms : List (String × Room))
    → has name (with_room now name rooms) ≡ true
unfolding has with_room
has-with_room name now rooms =
    ground
      (arith, get-set name name (record { created_at = now; members = [] }) rooms, ===_refl name)

room_members-add_member :
    (n name id : String) (now : ℕ) (s : RoomManager)
    → has name s.rooms ≡ true
    → room_members n (add_member now id name s)
      ≡ (if name === n then JsMap.set id now (room_members name s) else room_members n s)
unfolding room_members add_member has with_member
room_members-add_member n name id now s h = elim (Option-cases (JsMap.get name s.rooms)) [
  | inl e ↦ absurd (ground arith)
  | inr (room, e) ↦
      ground
        (arith, get-set n name (record room { members = JsMap.set id now room.members }) s.rooms)
]

entering-rooms :
    (n id name : String) (now : ℕ) (names : List (String × Unit {0})) (s : RoomManager)
    → room_members n (enter_room now id name names s)
      ≡ room_members n (add_member now id name (create_room now name s))
unfolding enter_room subscribe_channel room_members
entering-rooms n id name now names s = refl

made-has :
    (name : String) (now : ℕ) (s : RoomManager) → has name (create_room now name s).rooms ≡ true
unfolding create_room
made-has name now s = has-with_room name now s.rooms

-- The members of the rooms when a client entered.
pub room_members-enter_room :
    (n name id : String) (now : ℕ) (names : List (String × Unit {0})) (s : RoomManager)
    → room_members n (enter_room now id name names s)
      ≡ (if name === n then JsMap.set id now (room_members name s) else room_members n s)
room_members-enter_room n name id now names s =
    rw
      (
        entering-rooms n id name now names s,
        room_members-add_member n name id now (create_room now name s) (made-has name now s),
        room_members-create_room name name now s,
        room_members-create_room n name now s,
      )
      refl

-- The sets of rooms when a client entered.
pub rooms_of-enter_room :
    (j name id : String) (now : ℕ) (names : List (String × Unit {0})) (s : RoomManager)
    → rooms_of j (enter_room now id name names s)
      ≡ (if id === j then JsMap.set name tt names else rooms_of j s)
unfolding rooms_of enter_room subscribe_channel create_room add_member
rooms_of-enter_room j name id now names s =
    ground (arith, get-set j id (JsMap.set name tt names) s.client_rooms)

entering-requested_channels :
    (name id : String) (now : ℕ) (names : List (String × Unit {0})) (s : RoomManager)
    → (enter_room now id name names s).requested_channels ≡ (
        if s.has_broker
          && (length (room_members name (add_member now id name (create_room now name s))) == 1)
        then JsMap.set (ws_room_channel name) tt s.requested_channels
        else s.requested_channels)
unfolding enter_room subscribe_channel room_members add_member create_room
entering-requested_channels name id now names s = refl

-- The channel of a room is asked for when its first member entered.
pub requested_channels-enter_room :
    (n name id : String) (now : ℕ) (names : List (String × Unit {0})) (s : RoomManager)
    → has (ws_room_channel n) (enter_room now id name names s).requested_channels ≡ (
        (name === n)
          && (s.has_broker && (length (room_members name (enter_room now id name names s)) == 1))
        || has (ws_room_channel n) s.requested_channels)
unfolding has room_members
requested_channels-enter_room n name id now names s =
    rw (entering-requested_channels name id now names s, entering-rooms name id name now names s)
      (ground (
        arith,
        has-set (ws_room_channel n) (ws_room_channel name) tt s.requested_channels,
        ws_room_channel-injective name n,
      ))

no_entry {ℓ} : {A : Type ℓ} (l : List A) → (length l == 0) ≡ true → l ≡ []
no_entry [] h = refl
no_entry (x ∷ l) h = absurd (ground arith)

-- The members of the rooms when a client was taken out of one.
pub room_members-remove_member :
    (n name id : String) (room : Room) (s : RoomManager)
    → JsMap.get name s.rooms ≡ some room
    → room_members n (remove_member id name room s)
      ≡ (if name === n then JsMap.delete id (room_members name s) else room_members n s)
unfolding remove_member room_members delete_room drop_channel
room_members-remove_member n name id room s h =
    let remaining = JsMap.delete id room.members in
    let after = JsMap.set name (record room { members = remaining }) s.rooms in
    elim (Bool-cases (length remaining == 0)) [
      | inl e ↦ ground (
        arith,
        no_entry remaining e,
        get-delete n name after,
        get-set n name (record room { members = remaining }) s.rooms,
        eq_iff name n,
      )
      | inr e ↦
          ground
            (arith, get-set n name (record room { members = remaining }) s.rooms, eq_iff name n)
    ]

pub requested_channels-remove_member :
    (n name id : String) (room : Room) (s : RoomManager)
    → JsMap.get name s.rooms ≡ some room
    → has (ws_room_channel n) (remove_member id name room s).requested_channels ≡ (
        not
          ((name === n) && (s.has_broker && (length (JsMap.delete id (room_members name s)) == 0)))
        && has (ws_room_channel n) s.requested_channels)
unfolding remove_member room_members delete_room drop_channel
requested_channels-remove_member n name id room s h =
    elim (Bool-cases (length (JsMap.delete id room.members) == 0)) [
      | inl e ↦ ground (
        arith,
        has-delete (ws_room_channel n) (ws_room_channel name) s.requested_channels,
        ws_room_channel-injective name n,
      )
      | inr e ↦ ground arith
    ]
