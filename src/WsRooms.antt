-- ===== src/WsRooms.antt =====
-- packages/ws/src/room.ts and room-manager.ts: the rooms of one process, their members and what is sent.
-- A client stands for its id; whether its socket takes a call at the moment is an argument of the
-- operations. `Date.now()`, the ids of `crypto.randomUUID()` and the parsed JSON are arguments too. What
-- is sent, published, given to the broker or emitted is kept in a log, its newest entry first; the
-- handlers of the events are taken not to call the manager back.
pub mod Clients
pub mod Wire
pub mod Broker
pub mod Membership
pub mod Joining
pub mod Leaving
pub mod Opening
pub mod Presence
pub mod Sending
pub mod Relaying
pub mod Refusing
pub mod Echoing
pub mod Reaching
pub mod Admitting
pub mod Permission
pub mod Departing
use axiomify.Base.{
  ◌+◌, ℕ, zero, suc, String, Bool, true, false, not, ◌&&◌, ◌||◌, Option, none, some, List, [], ◌∷◌,
  if◌then◌else◌, ltb, ◌==◌, length,
}
use Prim.Native.String.{◌++◌}
use axiomify.JsMap
use axiomify.CacheStore.{utf16_length}
use axiomify.Texts.{between, contains, every}

pub data JoinError : Type 0 where
  invalid_length illegal_characters : JoinError
  not_connected : String → JoinError
  room_limit_exceeded : ℕ → ℕ → JoinError
  client_not_found : JoinError

-- The JSON objects and texts that are sent; a presence stands here without the states, which are in Presence.
pub data Message : Type 0 where
  raw : String → Message
  invalid_room room_not_found not_member unauthorized : Message
  join_failed : JoinError → Message
  joined left : String → Message
  room_message : String → String → String → Message
  presence : String → List (String × ℕ) → Message
  kicked : String → String → Message

-- What goes over the control channel of the broker; a reply stands for the clients it lists by their number.
pub data WsBrokerControlMessage : Type 0 where
  presence_query : String → String → String → WsBrokerControlMessage
  presence_reply : String → String → String → ℕ → WsBrokerControlMessage
  broadcast_everyone : String → Message → WsBrokerControlMessage

pub data Effect : Type 0 where
  sent : String → Message → Effect
  published : String → String → Message → Effect
  forwarded : String → String → Message → Effect
  controlled : WsBrokerControlMessage → Effect
  subscribed unsubscribed : String → String → Effect
  broker_subscribed broker_unsubscribed : String → Effect
  room_created room_deleted : String → Effect
  client_joined client_left : String → String → Effect
  disconnected : String → ℕ → Effect

-- The members with the time each joined at.
pub record Room : Type 0 where
  pub created_at : ℕ
  pub members : List (String × ℕ)

-- `beforeJoin` is asked first, else the pattern `allowlist`, else no wire join is permitted.
pub data JoinPolicy : Type 0 where
  before_join : JoinPolicy
  allowlist : (String → Bool) → JoinPolicy
  closed_policy : JoinPolicy

-- `clients`, `_wsClients` and the map from clients to sockets hold the number of the socket, the sets of
-- rooms are maps to `tt`. `requested_channels` are the room channels for which `broker.subscribe` was called and
-- neither `broker.unsubscribe` nor `close` after it. Whether the broker grants a request is the broker's: where
-- it rejects, the member stays, and only `broker_failure` counts it. Its methods do not throw at once.
pub record RoomManager : Type 0 where
  pub rooms : List (String × Room)
  pub clients : List (String × ℕ)
  pub ws_clients : List (String × ℕ)
  pub ws_client_map : List (String × ℕ)
  pub client_rooms : List (String × List (String × Unit {0}))
  pub max_rooms_per_client : ℕ
  pub policy : JoinPolicy
  pub has_broker : Bool
  pub node_id : String
  pub requested_channels : List (String × Unit {0})
  pub messages_received : ℕ
  pub messages_sent : ℕ
  pub broker_dropped : ℕ
  pub presence_waiters : List (String × List (String × ℕ))
  pub log : List Effect

unfoldable pub has {ℓ} : {V : Type ℓ} → String → List (String × V) → Bool
has key entries = elim (JsMap.get key entries) [ none ↦ false | some _ ↦ true ]

unfoldable pub new_manager : Option ℕ → JoinPolicy → Option String → RoomManager
new_manager limit policy broker = record {
  rooms = [];
  clients = [];
  ws_clients = [];
  ws_client_map = [];
  client_rooms = [];
  max_rooms_per_client = elim limit [ none ↦ 50 | some n ↦ n ];
  policy = policy;
  has_broker = elim broker [ none ↦ false | some _ ↦ true ];
  node_id = elim broker [ none ↦ "" | some node ↦ node ];
  requested_channels = [];
  messages_received = 0;
  messages_sent = 0;
  broker_dropped = 0;
  presence_waiters = [];
  log = [];
}

abbrev pub note : Effect → RoomManager → RoomManager
note effect s = record s { log = effect ∷ s.log }

-- The code of a letter, a digit or one of `_-.:/@#`.
unfoldable pub is_room_character : ℕ → Bool
is_room_character c =
    between 97 122 c
    || between 65 90 c
    || between 48 57 c
    || c == 95
    || c == 45
    || c == 46
    || c == 58
    || c == 47
    || c == 64
    || c == 35

unfoldable pub validate_room_name : String → Option JoinError
validate_room_name name =
    if utf16_length name == 0 || ltb 256 (utf16_length name)
    then some invalid_length
    else (if every is_room_character name then none else some illegal_characters)

unfoldable pub with_room : ℕ → String → List (String × Room) → List (String × Room)
with_room now name rooms =
    if has name rooms
    then rooms
    else JsMap.set name (record { created_at = now; members = [] }) rooms

-- The room of the name, made when there is none.
unfoldable pub create_room : ℕ → String → RoomManager → RoomManager
create_room now name s = record s {
  rooms = with_room now name s.rooms;
  log = if has name s.rooms then s.log else room_created name ∷ s.log;
}

unfoldable pub get_or_create_room : ℕ → String → RoomManager → RoomManager × Option JoinError
get_or_create_room now name s = elim (validate_room_name name) [
  | some e ↦ (s, some e)
  | none ↦ (create_room now name s, none)
]

unfoldable pub room_members : String → RoomManager → List (String × ℕ)
room_members name s = elim (JsMap.get name s.rooms) [ none ↦ [] | some room ↦ room.members ]

-- `room.has(clientId)` of the room of the name.
unfoldable pub is_member : String → String → RoomManager → Bool
is_member name id s = has id (room_members name s)

-- `RoomClient.send`, which a socket that is closed makes fail.
unfoldable pub send : (String → Bool) → String → Message → RoomManager → RoomManager
send takes id message s = record s {
  messages_sent = if takes id then s.messages_sent + 1 else s.messages_sent;
  log = if takes id then sent id message ∷ s.log else s.log;
}

-- `room ? room.size : 1`.
abbrev pub topic_count : Option Room → ℕ
topic_count none = 1
topic_count (some room) = length room.members

-- `publish` of a socket as `_onOpen` wraps it; the transport delivers to the other sockets of the topic.
unfoldable pub publish : String → String → Message → RoomManager → RoomManager
publish id topic message s = record s {
  messages_sent = s.messages_sent + topic_count (JsMap.get topic s.rooms);
  log = published id topic message ∷ s.log;
}

-- `room._forward`, which a room has when there is a broker.
unfoldable pub forward : String → Message → RoomManager → RoomManager
forward name message s = record s {
  log = if s.has_broker then forwarded s.node_id name message ∷ s.log else s.log;
}
