-- ===== src/WsRooms/Broker.antt =====
-- packages/ws/src/room-manager.ts: what goes to the broker and what comes from it, and the presence that
-- is counted over all nodes. JSON is parsed by the caller.
use axiomify.WsRooms.{
  Message, WsBrokerControlMessage, RoomManager, has, note, room_members, presence_query,
  presence_reply, broadcast_everyone, controlled,
}
use axiomify.Base.{
  ◌+◌, ℕ, suc, String, Bool, not, ◌||◌, none, some, List, [], ◌∷◌, if◌then◌else◌, ◌===◌, length,
}
use axiomify.Base.{[], Bool, List, length, String, ◌+◌, ℕ}
use axiomify.WsRooms.Wire.{local_broadcast, send_each}
use axiomify.JsMap

-- What `JSON.parse` and the checks of the fields make of a message on the channel of a room.
pub data WsBrokerEnvelope : Type 0 where
  unparsable foreign : WsBrokerEnvelope
  envelope : String → String → Message → WsBrokerEnvelope

unfoldable pub broker_failure : RoomManager → RoomManager
broker_failure s = record s { broker_dropped = s.broker_dropped + 1 }

-- The parsed envelope of another node goes to the local members.
unfoldable pub on_broker_room_message :
    (String → Bool) → WsBrokerEnvelope → RoomManager → RoomManager
on_broker_room_message takes unparsable s = if s.has_broker then broker_failure s else s
on_broker_room_message takes foreign s = s
on_broker_room_message takes (envelope node name message) s =
    if not s.has_broker || (node === s.node_id) || not (has name s.rooms)
    then s
    else local_broadcast takes name message s

-- `broadcastAll`.
unfoldable pub broadcast_all : (String → Bool) → Message → RoomManager → RoomManager
broadcast_all takes message s =
    let delivered = send_each takes s.clients message s in
    if delivered.has_broker
    then note (controlled (broadcast_everyone delivered.node_id message)) delivered
    else delivered

-- `room?.size ?? 0`.
abbrev pub local_count : String → RoomManager → ℕ
local_count name s = length (room_members name s)

-- `waiter.set`, for a request that waits.
unfoldable pub record_reply : String → String → ℕ → RoomManager → RoomManager
record_reply id node count s = elim (JsMap.get id s.presence_waiters) [
  | none ↦ s
  | some replies ↦ record s {
    presence_waiters = JsMap.set id (JsMap.set node count replies) s.presence_waiters;
  }
]

unfoldable pub take_control : (String → Bool) → WsBrokerControlMessage → RoomManager → RoomManager
take_control takes (presence_query node id name) s =
    note (controlled (presence_reply s.node_id id name (local_count name s))) s
take_control takes (presence_reply node id name count) s = record_reply id node count s
take_control takes (broadcast_everyone node message) s =
    if node === s.node_id then s else send_each takes s.clients message s

unfoldable pub on_ctl_message : (String → Bool) → WsBrokerControlMessage → RoomManager → RoomManager
on_ctl_message takes message s = if s.has_broker then take_control takes message s else s

-- `getGlobalPresence` up to its wait, for a broker that takes the query.
unfoldable pub ask_presence : String → String → RoomManager → RoomManager
ask_presence request name s =
    note (controlled (presence_query s.node_id request name))
      (record s { presence_waiters = JsMap.set request [] s.presence_waiters })

-- The numbers of nodes and members.
unfoldable pub sum_replies : ℕ → List (String × ℕ) → ℕ × ℕ
sum_replies local [] = (1, local)
sum_replies local ((node, count) ∷ replies) =
    (suc (length replies), count + JsMap.total (λ n. n) replies)

-- `getGlobalPresence` behind its wait, with the count of members from before it.
unfoldable pub collect_presence : ℕ → String → RoomManager → RoomManager × (ℕ × ℕ)
collect_presence local request s = (
  record s { presence_waiters = JsMap.delete request s.presence_waiters },
  elim (JsMap.get request s.presence_waiters) [
    | none ↦ sum_replies local []
    | some replies ↦ sum_replies local replies
  ],
)
