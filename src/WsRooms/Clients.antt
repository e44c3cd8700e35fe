-- ===== src/WsRooms/Clients.antt =====
-- packages/ws/src/room-manager.ts: `_onOpen`, `_onClose`, `_joinRoom`, `_leaveRoom` and `close`.
use axiomify.Base.{
  ℕ, String, Bool, not, ◌&&◌, Option, none, some, List, [], ◌∷◌, if◌then◌else◌, leb, ◌==◌, length,
}
use Prim.Native.String.{◌++◌}
use axiomify.JsMap
use axiomify.WsRooms.{
  JoinError, not_connected, room_limit_exceeded, subscribed, unsubscribed, broker_subscribed,
  broker_unsubscribed, room_deleted, client_joined, client_left, disconnected, Room, RoomManager,
  note, has, validate_room_name, create_room, room_members,
}

unfoldable pub ws_room_channel : String → String
ws_room_channel name = "axiomify:ws:room:" ++ name

-- The id is the one `_generateId` gives.
unfoldable pub on_open : String → ℕ → RoomManager → RoomManager
on_open id socket s = record s {
  client_rooms = JsMap.set id [] s.client_rooms;
  ws_clients = JsMap.set id socket s.ws_clients;
  ws_client_map = JsMap.set id socket s.ws_client_map;
  clients = JsMap.set id socket s.clients;
}

-- `wsClient.subscribe`: nothing when it throws.
unfoldable pub subscribe_topic :
    (String → Bool) → String → String → RoomManager → Option RoomManager
subscribe_topic takes id name s = elim (JsMap.get id s.ws_clients) [
  | none ↦ some s
  | some _ ↦ if takes id then some (note (subscribed id name) s) else none
]

-- `room._addMember`.
unfoldable pub with_member : ℕ → String → String → List (String × Room) → List (String × Room)
with_member now id name rooms = elim (JsMap.get name rooms) [
  | none ↦ rooms
  | some room ↦ JsMap.set name (record room { members = JsMap.set id now room.members }) rooms
]

unfoldable pub add_member : ℕ → String → String → RoomManager → RoomManager
add_member now id name s = record s { rooms = with_member now id name s.rooms }

-- The call of `broker.subscribe` for the channel of the room, which the first local member makes. What is
-- kept is the request; a rejection of it arrives later as `broker_failure`, and the member stays.
unfoldable pub subscribe_channel : String → RoomManager → RoomManager
subscribe_channel name s =
    let is_first = s.has_broker && (length (room_members name s) == 1) in
    record s {
      requested_channels =
          if is_first
          then JsMap.set (ws_room_channel name) tt s.requested_channels
          else s.requested_channels;
      log = if is_first then broker_subscribed (ws_room_channel name) ∷ s.log else s.log;
    }

-- The part of `_joinRoom` behind the subscription of the socket.
unfoldable pub enter_room :
    ℕ → String → String → List (String × Unit {0}) → RoomManager → RoomManager
enter_room now id name joined_rooms s =
    let entered = add_member now id name (create_room now name s) in
    let listed = record entered {
      client_rooms = JsMap.set id (JsMap.set name tt joined_rooms) entered.client_rooms;
    } in
    note (client_joined name id) (subscribe_channel name listed)

-- The part of `_joinRoom` from the limit on.
unfoldable pub join_new :
    (String → Bool)
    → ℕ
    → String
    → String
    → List (String × Unit {0})
    → RoomManager
    → RoomManager × Option JoinError
join_new takes now id name joined_rooms s =
    if leb s.max_rooms_per_client (length joined_rooms)
    then (s, some (room_limit_exceeded (length joined_rooms) s.max_rooms_per_client))
    else elim (subscribe_topic takes id name s) [
      | none ↦ (s, none)
      | some on_topic ↦ (enter_room now id name joined_rooms on_topic, none)
    ]

-- The state behind the call, and the error that was thrown.
unfoldable pub join_room :
    (String → Bool) → ℕ → String → String → RoomManager → RoomManager × Option JoinError
join_room takes now id name s = elim (validate_room_name name) [
  | some e ↦ (s, some e)
  | none ↦ elim (JsMap.get id s.client_rooms) [
    | none ↦ (s, some (not_connected id))
    | some joined_rooms ↦
        if has name joined_rooms then (s, none) else join_new takes now id name joined_rooms s
  ]
]

-- `wsClient.unsubscribe`; an error is ignored.
unfoldable pub unsubscribe_topic : (String → Bool) → String → String → RoomManager → RoomManager
unsubscribe_topic takes id name s = record s {
  log = if has id s.ws_clients && takes id then unsubscribed id name ∷ s.log else s.log;
}

-- The call of `broker.unsubscribe` behind the last local member.
unfoldable pub drop_channel : String → RoomManager → RoomManager
drop_channel name s = record s {
  requested_channels =
      if s.has_broker
      then JsMap.delete (ws_room_channel name) s.requested_channels
      else s.requested_channels;
  log = if s.has_broker then broker_unsubscribed (ws_room_channel name) ∷ s.log else s.log;
}

unfoldable pub delete_room : String → RoomManager → RoomManager
delete_room name s =
    note (room_deleted name) (drop_channel name (record s { rooms = JsMap.delete name s.rooms }))

-- `room._removeMember`, the event, and the end of a room that is empty.
unfoldable pub remove_member : String → String → Room → RoomManager → RoomManager
remove_member id name room s =
    let remaining = JsMap.delete id room.members in
    let removed =
      note (client_left name id)
        (record s { rooms = JsMap.set name (record room { members = remaining }) s.rooms }) in
    if length remaining == 0 then delete_room name removed else removed

-- The part of `_leaveRoom` before it reads the room.
unfoldable pub unlist :
    (String → Bool) → String → String → List (String × Unit {0}) → RoomManager → RoomManager
unlist takes id name joined_rooms s =
    let left_topic = unsubscribe_topic takes id name s in
    record left_topic {
      client_rooms = JsMap.set id (JsMap.delete name joined_rooms) left_topic.client_rooms;
    }

-- The part of `_leaveRoom` from there on.
unfoldable pub remove_listed : String → String → RoomManager → RoomManager
remove_listed id name s = elim (JsMap.get name s.rooms) [
  | none ↦ s
  | some room ↦ remove_member id name room s
]

unfoldable pub leave_room : (String → Bool) → String → String → RoomManager → RoomManager
leave_room takes id name s = elim (JsMap.get id s.client_rooms) [
  | none ↦ s
  | some joined_rooms ↦
      if not (has name joined_rooms)
      then s
      else remove_listed id name (unlist takes id name joined_rooms s)
]

-- The deletions behind `leaveAll`.
unfoldable pub forget_client : String → RoomManager → RoomManager
forget_client id s = record s {
  clients = JsMap.delete id s.clients;
  ws_clients = JsMap.delete id s.ws_clients;
  client_rooms = JsMap.delete id s.client_rooms;
}

-- The loop of `leaveAll` over a copy of the set.
unfoldable pub leave_each :
    (String → Bool) → String → List (String × Unit {0}) → RoomManager → RoomManager
leave_each takes id [] s = s
leave_each takes id ((name, _) ∷ names) s = leave_each takes id names (leave_room takes id name s)

unfoldable pub leave_all : (String → Bool) → String → RoomManager → RoomManager
leave_all takes id s = elim (JsMap.get id s.client_rooms) [
  | none ↦ s
  | some joined_rooms ↦ leave_each takes id joined_rooms s
]

unfoldable pub on_close : (String → Bool) → String → RoomManager → RoomManager
on_close takes id s = if has id s.clients then forget_client id (leave_all takes id s) else s

-- `client.disconnect`; the end of each socket is reported later.
unfoldable pub disconnect_each : List (String × ℕ) → RoomManager → RoomManager
disconnect_each [] s = s
disconnect_each ((id, _) ∷ clients) s = disconnect_each clients (note (disconnected id 1001) s)

-- The end of every room and client; `broker.close` gives up every channel.
unfoldable pub close : RoomManager → RoomManager
close s = record (disconnect_each s.clients s) {
  clients = [];
  ws_clients = [];
  client_rooms = [];
  rooms = [];
  requested_channels = [];
  presence_waiters = [];
}
