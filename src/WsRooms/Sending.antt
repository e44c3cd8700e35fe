-- ===== src/WsRooms/Sending.antt =====
-- What sends, publishes or tells the broker changes no room, no set and no subscription.
use axiomify.WsRooms.{
  Message, WsBrokerControlMessage, Effect, RoomManager, has, note, room_members, is_member, send,
  publish, forward, invalid_room, room_not_found, not_member, room_message, presence,
  presence_query, presence_reply, broadcast_everyone, controlled,
}
use axiomify.WsRooms.Wire.{
  send_each, local_broadcast, broadcast, broadcast_except, if_member, relay, message_action,
  presence_action,
}
use axiomify.WsRooms.Broker.{
  WsBrokerEnvelope, broker_failure, on_broker_room_message, broadcast_all, record_reply,
  take_control, on_ctl_message, ask_presence, collect_presence, unparsable, foreign, envelope,
}
use axiomify.WsRooms.Joining.{skeleton}
use axiomify.Base.{
  ℕ, String, Bool, true, false, not, ◌&&◌, ◌||◌, Option, none, some, List, [], ◌∷◌, if◌then◌else◌,
  ◌===◌, ◌≡◌, inl, inr, refl, arith, Bool-cases, Option-cases, ◌∙◌,
}
use axiomify.JsMap
use axiomify.JsMap.{first_key}

pub quiet-send :
    (takes : String → Bool) (id : String) (message : Message) (s : RoomManager)
    → skeleton (send takes id message s) ≡ skeleton s
unfolding skeleton send
quiet-send takes id message s = refl

quiet-note : (effect : Effect) (s : RoomManager) → skeleton (note effect s) ≡ skeleton s
unfolding skeleton
quiet-note effect s = refl

quiet-publish :
    (id name : String) (message : Message) (s : RoomManager)
    → skeleton (publish id name message s) ≡ skeleton s
unfolding skeleton publish
quiet-publish id name message s = refl

quiet-forward :
    (name : String) (message : Message) (s : RoomManager)
    → skeleton (forward name message s) ≡ skeleton s
unfolding skeleton forward
quiet-forward name message s = refl

pub quiet-send_each :
    (takes : String → Bool) (ids : List (String × ℕ)) (message : Message) (s : RoomManager)
    → skeleton (send_each takes ids message s) ≡ skeleton s
unfolding send_each
quiet-send_each takes [] message s = refl
quiet-send_each takes ((id, _) ∷ ids) message s =
    quiet-send_each takes ids message (send takes id message s) ∙ quiet-send takes id message s

-- What the socket of a client publishes and then sends to the client.
quiet-publish_send :
    (takes : String → Bool) (id name : String) (message : Message) (s : RoomManager)
    → skeleton (send takes id message (publish id name message s)) ≡ skeleton s
quiet-publish_send takes id name message s =
    quiet-send takes id message (publish id name message s) ∙ quiet-publish id name message s

pub quiet-local_broadcast :
    (takes : String → Bool) (name : String) (message : Message) (s : RoomManager)
    → skeleton (local_broadcast takes name message s) ≡ skeleton s
unfolding local_broadcast
quiet-local_broadcast takes name message s = elim (Option-cases (first_key (room_members name s))) [
  | inl empty ↦ rw (local_broadcast, empty) refl
  | inr (first, some_one) ↦ elim (Bool-cases (has first s.ws_client_map)) [
    | inl native ↦
        rw (local_broadcast, some_one, native) (quiet-publish_send takes first name message s)
    | inr none_there ↦
        rw (local_broadcast, some_one, none_there)
          (quiet-send_each takes (room_members name s) message s)
  ]
]

pub quiet-broadcast :
    (takes : String → Bool) (name : String) (message : Message) (s : RoomManager)
    → skeleton (broadcast takes name message s) ≡ skeleton s
unfolding broadcast
quiet-broadcast takes name message s =
    quiet-forward name message (local_broadcast takes name message s)
    ∙ quiet-local_broadcast takes name message s

-- The branches of a test are quiet, so the choice is.
either :
    (b : Bool) (x y s : RoomManager)
    → skeleton x ≡ skeleton s
    → skeleton y ≡ skeleton s
    → skeleton (if b then x else y) ≡ skeleton s
either true x y s p q = p
either false x y s p q = q

pub quiet-broadcast_except :
    (takes : String → Bool) (excluded name : String) (message : Message) (s : RoomManager)
    → skeleton (broadcast_except takes excluded name message s) ≡ skeleton s
unfolding broadcast_except
quiet-broadcast_except takes excluded name message s =
    quiet-forward name message _
    ∙ either (is_member name excluded s && has excluded s.ws_client_map)
        (publish excluded name message s)
        (send_each takes (JsMap.delete excluded (room_members name s)) message s) s
        (quiet-publish excluded name message s)
        (quiet-send_each takes (JsMap.delete excluded (room_members name s)) message s)

quiet-relay :
    (takes : String → Bool) (id name content : String) (s : RoomManager)
    → skeleton (relay takes id name content s) ≡ skeleton s
unfolding relay
quiet-relay takes id name content s =
    let message = room_message name id content in
    quiet-forward name message _
    ∙ either (has id s.ws_clients) (send takes id message (publish id name message s))
        (local_broadcast takes name message s) s (quiet-publish_send takes id name message s)
        (quiet-local_broadcast takes name message s)

quiet-if_member :
    (takes : String → Bool) (id name : String) (t s : RoomManager)
    → skeleton t ≡ skeleton s
    → skeleton (if_member takes id name t s) ≡ skeleton s
unfolding if_member
quiet-if_member takes id name t s e =
    either (not (has name s.rooms)) (send takes id room_not_found s) _ s
      (quiet-send takes id room_not_found s)
      (either (not (is_member name id s)) (send takes id not_member s) t s
        (quiet-send takes id not_member s) e)

pub quiet-message_action :
    (takes : String → Bool) (id : String) (name : Option String) (content : String)
    (s : RoomManager)
    → skeleton (message_action takes id name content s) ≡ skeleton s
unfolding message_action
quiet-message_action takes id none content s = quiet-send takes id invalid_room s
quiet-message_action takes id (some name) content s =
    quiet-if_member takes id name (relay takes id name content s) s
      (quiet-relay takes id name content s)

pub quiet-presence_action :
    (takes : String → Bool) (id : String) (name : Option String) (s : RoomManager)
    → skeleton (presence_action takes id name s) ≡ skeleton s
unfolding presence_action
quiet-presence_action takes id none s = quiet-send takes id invalid_room s
quiet-presence_action takes id (some name) s =
    quiet-if_member takes id name (send takes id (presence name (room_members name s)) s) s
      (quiet-send takes id (presence name (room_members name s)) s)

pub quiet-broadcast_all :
    (takes : String → Bool) (message : Message) (s : RoomManager)
    → skeleton (broadcast_all takes message s) ≡ skeleton s
unfolding broadcast_all
quiet-broadcast_all takes message s =
    let delivered = send_each takes s.clients message s in
    let everyone = broadcast_everyone delivered.node_id message in
    either delivered.has_broker (note (controlled everyone) delivered) delivered s
      (quiet-note (controlled everyone) delivered ∙ quiet-send_each takes s.clients message s)
      (quiet-send_each takes s.clients message s)

pub quiet-broker_failure : (s : RoomManager) → skeleton (broker_failure s) ≡ skeleton s
unfolding broker_failure skeleton
quiet-broker_failure s = refl

quiet-record_reply :
    (id node : String) (count : ℕ) (s : RoomManager)
    → skeleton (record_reply id node count s) ≡ skeleton s
unfolding record_reply skeleton
quiet-record_reply id node count s = ground arith

quiet-take_control :
    (takes : String → Bool) (m : WsBrokerControlMessage) (s : RoomManager)
    → skeleton (take_control takes m s) ≡ skeleton s
unfolding take_control
quiet-take_control takes (presence_query node id name) s = quiet-note _ s
quiet-take_control takes (presence_reply node id name count) s = quiet-record_reply id node count s
quiet-take_control takes (broadcast_everyone node message) s =
    either (node === s.node_id) s (send_each takes s.clients message s) s refl
      (quiet-send_each takes s.clients message s)

pub quiet-on_broker_room_message :
    (takes : String → Bool) (e : WsBrokerEnvelope) (s : RoomManager)
    → skeleton (on_broker_room_message takes e s) ≡ skeleton s
unfolding on_broker_room_message
quiet-on_broker_room_message takes unparsable s =
    either s.has_broker (broker_failure s) s s (quiet-broker_failure s) refl
quiet-on_broker_room_message takes foreign s = refl
quiet-on_broker_room_message takes (envelope node name message) s =
    either (not s.has_broker || (node === s.node_id) || not (has name s.rooms)) s
      (local_broadcast takes name message s) s refl (quiet-local_broadcast takes name message s)

pub quiet-on_ctl_message :
    (takes : String → Bool) (m : WsBrokerControlMessage) (s : RoomManager)
    → skeleton (on_ctl_message takes m s) ≡ skeleton s
unfolding on_ctl_message
quiet-on_ctl_message takes m s =
    either s.has_broker (take_control takes m s) s s (quiet-take_control takes m s) refl

pub quiet-ask_presence :
    (request name : String) (s : RoomManager) → skeleton (ask_presence request name s) ≡ skeleton s
unfolding ask_presence skeleton
quiet-ask_presence request name s = refl

pub quiet-collect_presence :
    (local : ℕ) (request : String) (s : RoomManager)
    → skeleton (collect_presence local request s).0 ≡ skeleton s
unfolding collect_presence skeleton
quiet-collect_presence local request s = refl
