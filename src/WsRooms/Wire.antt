-- ===== src/WsRooms/Wire.antt =====
-- packages/ws/src/room-manager.ts: `_processAction`, and packages/ws/src/room.ts: what a room sends.
-- JSON is parsed by the caller. A join that `beforeJoin` decides goes on with its answer in `finish_join`.
use axiomify.WsRooms.{
  JoinError, Message, JoinPolicy, RoomManager, has, note, room_members, is_member, send, publish,
  forward, client_not_found, invalid_room, room_not_found, not_member, unauthorized, join_failed,
  joined, left, room_message, presence, kicked, disconnected, before_join, allowlist, closed_policy,
}
use axiomify.Base.{
  ◌+◌, ℕ, String, Bool, true, false, not, ◌&&◌, Option, none, some, List, [], ◌∷◌, if◌then◌else◌,
  ◌===◌,
}
use axiomify.Base.{false, ◌+◌, some, ℕ, List, Bool, String, Option}
use axiomify.WsRooms.Clients.{join_room, leave_room}
use axiomify.JsMap
use axiomify.JsMap.{first_key}

-- `sanitized` objects: a field is `none` when it is no text; the data is its JSON.
pub record WireAction : Type 0 where
  pub action : Option String
  pub room : Option String
  pub content : String

unfoldable pub send_each : (String → Bool) → List (String × ℕ) → Message → RoomManager → RoomManager
send_each takes [] message s = s
send_each takes ((id, _) ∷ members) message s =
    send_each takes members message (send takes id message s)

-- `room._localBroadcast` over the socket of the first member.
unfoldable pub local_broadcast : (String → Bool) → String → Message → RoomManager → RoomManager
local_broadcast takes name message s = elim (first_key (room_members name s)) [
  | none ↦ s
  | some first ↦
      if has first s.ws_client_map
      then send takes first message (publish first name message s)
      else send_each takes (room_members name s) message s
]

unfoldable pub broadcast : (String → Bool) → String → Message → RoomManager → RoomManager
broadcast takes name message s = forward name message (local_broadcast takes name message s)

unfoldable pub broadcast_except :
    (String → Bool) → String → String → Message → RoomManager → RoomManager
broadcast_except takes excluded name message s = forward name message (
    if is_member name excluded s && has excluded s.ws_client_map
    then publish excluded name message s
    else send_each takes (JsMap.delete excluded (room_members name s)) message s)

-- The part of `kick` for a client that is a member.
unfoldable pub kick_member :
    (String → Bool) → String → String → String → Bool → RoomManager → RoomManager
kick_member takes id name reason disconnect s =
    let out = leave_room takes id name (send takes id (kicked name reason) s) in
    if disconnect then note (disconnected id 4000) out else out

unfoldable pub kick :
    (String → Bool) → String → String → String → Bool → RoomManager → RoomManager × Bool
kick takes id name reason disconnect s =
    if is_member name id s
    then (kick_member takes id name reason disconnect s, true)
    else (s, false)

-- What the client is told of its join.
unfoldable pub answer_join :
    (String → Bool) → String → String → RoomManager × Option JoinError → RoomManager
answer_join takes id name (s, none) = send takes id (joined name) s
answer_join takes id name (s, some e) = send takes id (join_failed e) s

-- `runJoin` with the answer of `beforeJoin` or the pattern, `none` when it threw.
unfoldable pub finish_join :
    (String → Bool) → ℕ → String → String → Option Bool → RoomManager → RoomManager
finish_join takes now id name (some true) s =
    answer_join takes id name (join_room takes now id name s)
finish_join takes now id name (some false) s = send takes id unauthorized s
finish_join takes now id name none s = send takes id unauthorized s

-- `runJoin`; the question to `beforeJoin` leaves the manager as it is.
unfoldable pub decide_join :
    (String → Bool) → ℕ → String → String → JoinPolicy → RoomManager → RoomManager
decide_join takes now id name before_join s = s
decide_join takes now id name (allowlist pattern) s =
    finish_join takes now id name (some (pattern name)) s
decide_join takes now id name closed_policy s = finish_join takes now id name (some false) s

unfoldable pub run_join : (String → Bool) → ℕ → String → String → RoomManager → RoomManager
run_join takes now id name s =
    if has id s.ws_clients
    then decide_join takes now id name s.policy s
    else send takes id (join_failed client_not_found) s

unfoldable pub join_action :
    (String → Bool) → ℕ → String → Option String → RoomManager → RoomManager
join_action takes now id none s = send takes id invalid_room s
join_action takes now id (some name) s =
    if name === "" then send takes id invalid_room s else run_join takes now id name s

unfoldable pub leave_action : (String → Bool) → String → Option String → RoomManager → RoomManager
leave_action takes id none s = send takes id invalid_room s
leave_action takes id (some name) s = send takes id (left name) (leave_room takes id name s)

-- The room is there and has the client, or the client is told what is missing.
unfoldable pub if_member :
    (String → Bool) → String → String → RoomManager → RoomManager → RoomManager
if_member takes id name allowed s =
    if not (has name s.rooms)
    then send takes id room_not_found s
    else (if not (is_member name id s) then send takes id not_member s else allowed)

unfoldable pub relay : (String → Bool) → String → String → String → RoomManager → RoomManager
relay takes id name content s = forward name (room_message name id content) (
    if has id s.ws_clients
    then send takes id (room_message name id content)
        (publish id name (room_message name id content) s)
    else local_broadcast takes name (room_message name id content) s)

unfoldable pub message_action :
    (String → Bool) → String → Option String → String → RoomManager → RoomManager
message_action takes id none content s = send takes id invalid_room s
message_action takes id (some name) content s =
    if_member takes id name (relay takes id name content s) s

unfoldable pub presence_action :
    (String → Bool) → String → Option String → RoomManager → RoomManager
presence_action takes id none s = send takes id invalid_room s
presence_action takes id (some name) s =
    if_member takes id name (send takes id (presence name (room_members name s)) s) s

unfoldable pub dispatch_action :
    (String → Bool) → ℕ → String → String → WireAction → RoomManager → RoomManager × Bool
dispatch_action takes now id action a s =
    if action === "join"
    then (join_action takes now id a.room s, true)
    else (if action === "leave"
        then (leave_action takes id a.room s, true)
        else (if action === "message"
            then (message_action takes id a.room a.content s, true)
            else (if action === "presence"
                then (presence_action takes id a.room s, true)
                else (s, false))))

-- The switch for a client that is connected, with the text of the action.
unfoldable pub known_action :
    (String → Bool) → ℕ → String → Option String → WireAction → RoomManager → RoomManager × Bool
known_action takes now id none a s = (s, false)
known_action takes now id (some action) a s =
    if has id s.clients then dispatch_action takes now id action a s else (s, false)

-- The object that was parsed, `none` when there is none; whether it was an action.
unfoldable pub process_action :
    (String → Bool) → ℕ → String → Option WireAction → RoomManager → RoomManager × Bool
process_action takes now id none s =
    (record s { messages_received = s.messages_received + 1 }, false)
process_action takes now id (some a) s =
    known_action takes now id a.action a (record s { messages_received = s.messages_received + 1 })
