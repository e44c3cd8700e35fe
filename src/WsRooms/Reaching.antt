-- ===== src/WsRooms/Reaching.antt =====
-- packages/ws/src/room-manager.ts: the calls that a manager gets, one after the other, and what holds after
-- any of them.
use axiomify.WsRooms.Permission.{finish_join-P, received, quiet-received, process_action-P}
use axiomify.WsRooms.Joining.{Inv, new_manager-Inv, quiet-Inv, noted-Inv, join_room-Inv}
use axiomify.WsRooms.Opening.{on_open-Inv, get_or_create_room-Inv, close-Inv}
use axiomify.WsRooms.Departing.{leave_room-Inv, lists-leave_all, on_close-Inv}
use axiomify.WsRooms.Sending.{
  quiet-send, quiet-broadcast, quiet-broadcast_except, quiet-broadcast_all,
  quiet-on_broker_room_message, quiet-broker_failure, quiet-on_ctl_message, quiet-ask_presence,
  quiet-collect_presence,
}
use axiomify.WsRooms.{
  Message, WsBrokerControlMessage, JoinPolicy, RoomManager, has, new_manager, get_or_create_room,
  is_member, send, kicked, disconnected,
}
use axiomify.WsRooms.Clients.{on_open, join_room, leave_room, leave_all, on_close, close}
use axiomify.WsRooms.Wire.{
  WireAction, broadcast, broadcast_except, kick_member, kick, finish_join, process_action,
}
use axiomify.WsRooms.Broker.{
  WsBrokerEnvelope, on_broker_room_message, broker_failure, broadcast_all, on_ctl_message,
  ask_presence, collect_presence,
}
use axiomify.Base.{ℕ, String, Bool, false, Option, ◌≡◌, inl, inr, Bool-cases}

-- The calls of the adapter, of the broker and of the application. An id is fresh when it is given out.
pub data Step : RoomManager → RoomManager → Type 0 where
  opened :
      (id : String) (socket : ℕ) (s : RoomManager)
      → has id s.clients ≡ false
      → Step s (on_open id socket s)
  closed : (takes : String → Bool) (id : String) (s : RoomManager) → Step s (on_close takes id s)
  got_room : (now : ℕ) (name : String) (s : RoomManager) → Step s (get_or_create_room now name s).0
  joining :
      (takes : String → Bool) (now : ℕ) (id name : String) (s : RoomManager)
      → Step s (join_room takes now id name s).0
  leaving :
      (takes : String → Bool) (id name : String) (s : RoomManager)
      → Step s (leave_room takes id name s)
  leaving_all :
      (takes : String → Bool) (id : String) (s : RoomManager) → Step s (leave_all takes id s)
  kicking :
      (takes : String → Bool) (id name reason : String) (disconnect : Bool) (s : RoomManager)
      → Step s (kick takes id name reason disconnect s).0
  sending :
      (takes : String → Bool) (id : String) (message : Message) (s : RoomManager)
      → Step s (send takes id message s)
  to_room :
      (takes : String → Bool) (name : String) (message : Message) (s : RoomManager)
      → Step s (broadcast takes name message s)
  to_others :
      (takes : String → Bool) (id name : String) (message : Message) (s : RoomManager)
      → Step s (broadcast_except takes id name message s)
  to_all :
      (takes : String → Bool) (message : Message) (s : RoomManager)
      → Step s (broadcast_all takes message s)
  acting :
      (takes : String → Bool) (now : ℕ) (id : String) (a : Option WireAction) (s : RoomManager)
      → Step s (process_action takes now id a s).0
  decided :
      (takes : String → Bool) (now : ℕ) (id name : String) (answer : Option Bool) (s : RoomManager)
      → Step s (finish_join takes now id name answer s)
  from_room :
      (takes : String → Bool) (e : WsBrokerEnvelope) (s : RoomManager)
      → Step s (on_broker_room_message takes e s)
  from_control :
      (takes : String → Bool) (m : WsBrokerControlMessage) (s : RoomManager)
      → Step s (on_ctl_message takes m s)
  asked : (request name : String) (s : RoomManager) → Step s (ask_presence request name s)
  collected :
      (local : ℕ) (request : String) (s : RoomManager) → Step s (collect_presence local request s).0
  broker_failed : (s : RoomManager) → Step s (broker_failure s)
  shut_down : (s : RoomManager) → Step s (close s)

pub data Reachable : RoomManager → Type 0 where
  made :
      (limit : Option ℕ) (policy : JoinPolicy) (broker : Option String)
      → Reachable (new_manager limit policy broker)
  next : {s t : RoomManager} → Reachable s → Step s t → Reachable t

kick-Inv :
    (takes : String → Bool) (id name reason : String) (disconnect : Bool) (s : RoomManager)
    → Inv s
    → Inv (kick takes id name reason disconnect s).0
unfolding kick kick_member
kick-Inv takes id name reason disconnect s h =
    let told = send takes id (kicked name reason) s in
    let out = leave_room takes id name told in
    let left_out : Inv out =
      leave_room-Inv takes id name told
        (quiet-Inv s told (quiet-send takes id (kicked name reason) s) h) in
    elim (Bool-cases (is_member name id s)) [
      | inr absent ↦ rw (kick, absent) h
      | inl there ↦ elim (Bool-cases disconnect) [
        | inl cut ↦
            rw (kick, there, kick_member, cut) (noted-Inv (disconnected id 4000) out left_out)
        | inr stay ↦ rw (kick, there, kick_member, stay) left_out
      ]
    ]

process_action-Inv :
    (takes : String → Bool) (now : ℕ) (id : String) (a : Option WireAction) (s : RoomManager)
    → Inv s
    → Inv (process_action takes now id a s).0
process_action-Inv takes now id a s h =
    let counted : Inv (received s) = quiet-Inv s (received s) (quiet-received s) h in
    process_action-P (λ t. Inv t) takes id quiet-Inv now a s h
      (λ name _ _ _. join_room-Inv takes now id name (received s) counted)
      (λ name. leave_room-Inv takes id name (received s) counted)

Step-Inv : {s t : RoomManager} → Step s t → Inv s → Inv t
Step-Inv (opened id socket s fresh) h = on_open-Inv id socket s h fresh
Step-Inv (closed takes id s) h = on_close-Inv takes id s h
Step-Inv (got_room now name s) h = get_or_create_room-Inv now name s h
Step-Inv (joining takes now id name s) h = join_room-Inv takes now id name s h
Step-Inv (leaving takes id name s) h = leave_room-Inv takes id name s h
Step-Inv (leaving_all takes id s) h = (lists-leave_all takes id s h).0
Step-Inv (kicking takes id name reason disconnect s) h =
    kick-Inv takes id name reason disconnect s h
Step-Inv (sending takes id message s) h = quiet-Inv s _ (quiet-send takes id message s) h
Step-Inv (to_room takes name message s) h = quiet-Inv s _ (quiet-broadcast takes name message s) h
Step-Inv (to_others takes id name message s) h =
    quiet-Inv s _ (quiet-broadcast_except takes id name message s) h
Step-Inv (to_all takes message s) h = quiet-Inv s _ (quiet-broadcast_all takes message s) h
Step-Inv (acting takes now id a s) h = process_action-Inv takes now id a s h
Step-Inv (decided takes now id name answer s) h =
    finish_join-P (λ t. Inv t) takes id quiet-Inv now name answer s h
      (λ _. join_room-Inv takes now id name s h)
Step-Inv (from_room takes e s) h = quiet-Inv s _ (quiet-on_broker_room_message takes e s) h
Step-Inv (from_control takes m s) h = quiet-Inv s _ (quiet-on_ctl_message takes m s) h
Step-Inv (asked request name s) h = quiet-Inv s _ (quiet-ask_presence request name s) h
Step-Inv (collected local request s) h = quiet-Inv s _ (quiet-collect_presence local request s) h
Step-Inv (broker_failed s) h = quiet-Inv s (broker_failure s) (quiet-broker_failure s) h
Step-Inv (shut_down s) h = close-Inv s

-- After any calls of a new manager, of which each gives out fresh ids: a client is a member of a room just
-- when the room is in its set; the maps of clients, sockets and sets have the same ids; no set has more
-- rooms than the limit; and, with a broker, the manager has asked it for the channel of a room, and not
-- given the channel up since, just when the room has members here. Whether the broker grants the request
-- is not said.
pub Reachable-Inv : {s : RoomManager} → Reachable s → Inv s
Reachable-Inv (made limit policy broker) = new_manager-Inv limit policy broker
Reachable-Inv (next before step) = Step-Inv step (Reachable-Inv before)
