-- ===== src/WsRooms/Echoing.antt =====
-- packages/ws/src/room.ts and room-manager.ts: a broadcast goes to the broker once and does not come back.
use axiomify.WsRooms.{
  Message, Effect, RoomManager, has, room_members, send, publish, forward, forwarded, controlled,
  broker_subscribed, broker_unsubscribed,
}
use axiomify.WsRooms.Wire.{send_each, local_broadcast, broadcast}
use axiomify.WsRooms.Broker.{
  WsBrokerEnvelope, broker_failure, on_broker_room_message, unparsable, foreign, envelope,
}
use axiomify.WsRooms.Joining.{skeleton}
use axiomify.WsRooms.Sending.{quiet-local_broadcast}
use axiomify.Base.{
  ℕ, suc, String, Bool, true, false, not, ◌||◌, List, [], ◌∷◌, if◌then◌else◌, ◌===◌, ◌≡◌, inl, inr,
  refl, arith, ===_refl, Option-cases, ap, ◌∙◌,
}
use axiomify.JsMap.{first_key}

-- What is given to the broker: a message of a room, a control message or a call for a channel.
abbrev pub is_brokered : Effect → Bool
is_brokered (forwarded _ _ _) = true
is_brokered (controlled _) = true
is_brokered (broker_subscribed _) = true
is_brokered (broker_unsubscribed _) = true
is_brokered _ = false

-- How much was given to the broker.
unfoldable pub forwards : List Effect → ℕ
forwards [] = 0
forwards (e ∷ log) = let rest = forwards log in if is_brokered e then suc rest else rest

abbrev after_effect : Effect → WsBrokerEnvelope → WsBrokerEnvelope
after_effect (forwarded node name message) rest = envelope node name message
after_effect (controlled _) rest = foreign
after_effect (broker_subscribed _) rest = foreign
after_effect (broker_unsubscribed _) rest = foreign
after_effect _ rest = rest

-- What the other nodes get of the last thing that was given to the broker, where it is a message.
unfoldable pub last_envelope : List Effect → WsBrokerEnvelope
last_envelope [] = foreign
last_envelope (e ∷ log) = after_effect e (last_envelope log)

forwards-send :
    (takes : String → Bool) (id : String) (message : Message) (s : RoomManager)
    → forwards (send takes id message s).log ≡ forwards s.log
unfolding send forwards
forwards-send takes id message s = ground arith

forwards-send_each :
    (takes : String → Bool) (ids : List (String × ℕ)) (message : Message) (s : RoomManager)
    → forwards (send_each takes ids message s).log ≡ forwards s.log
unfolding send_each
forwards-send_each takes [] message s = refl
forwards-send_each takes ((id, _) ∷ ids) message s =
    forwards-send_each takes ids message (send takes id message s)
    ∙ forwards-send takes id message s

choose_forwards :
    (b : Bool) (x y s : RoomManager)
    → forwards x.log ≡ forwards s.log
    → forwards y.log ≡ forwards s.log
    → forwards (if b then x else y).log ≡ forwards s.log
choose_forwards true x y s p q = p
choose_forwards false x y s p q = q

forwards-publish :
    (id name : String) (message : Message) (s : RoomManager)
    → forwards (publish id name message s).log ≡ forwards s.log
unfolding publish forwards
forwards-publish id name message s = refl

forwards-local_broadcast :
    (takes : String → Bool) (name : String) (message : Message) (s : RoomManager)
    → forwards (local_broadcast takes name message s).log ≡ forwards s.log
unfolding local_broadcast
forwards-local_broadcast takes name message s =
    elim (Option-cases (first_key (room_members name s))) [
      | inl empty ↦ rw (local_broadcast, empty) refl
      | inr (first, e) ↦
          rw (local_broadcast, e)
            (choose_forwards (has first s.ws_client_map) _ _ s
              (forwards-send takes first message (publish first name message s)
                ∙ forwards-publish first name message s)
              (forwards-send_each takes (room_members name s) message s))
    ]

forwards-on_broker_room_message :
    (takes : String → Bool) (e : WsBrokerEnvelope) (s : RoomManager)
    → forwards (on_broker_room_message takes e s).log ≡ forwards s.log
unfolding on_broker_room_message broker_failure
forwards-on_broker_room_message takes unparsable s = choose_forwards s.has_broker _ s s refl refl
forwards-on_broker_room_message takes foreign s = refl
forwards-on_broker_room_message takes (envelope node name message) s =
    choose_forwards (not s.has_broker || (node === s.node_id) || not (has name s.rooms)) s _ s refl
      (forwards-local_broadcast takes name message s)

brokered-local_broadcast :
    (takes : String → Bool) (name : String) (message : Message) (s : RoomManager)
    → (local_broadcast takes name message s).has_broker ≡ s.has_broker
unfolding skeleton
brokered-local_broadcast takes name message s =
    ap (λ t. t.has_broker) (quiet-local_broadcast takes name message s)

node_id-local_broadcast :
    (takes : String → Bool) (name : String) (message : Message) (s : RoomManager)
    → (local_broadcast takes name message s).node_id ≡ s.node_id
unfolding skeleton
node_id-local_broadcast takes name message s =
    ap (λ t. t.node_id) (quiet-local_broadcast takes name message s)

returned :
    (takes : String → Bool) (name : String) (message : Message) (a : RoomManager)
    → a.has_broker ≡ true
    → on_broker_room_message takes (envelope a.node_id name message) a ≡ a
unfolding on_broker_room_message
returned takes name message a brokered = rw (brokered, ===_refl a.node_id) refl

last_envelope-forward :
    (name : String) (message : Message) (s : RoomManager)
    → s.has_broker ≡ true
    → last_envelope (forward name message s).log ≡ envelope s.node_id name message
unfolding forward last_envelope
last_envelope-forward name message s brokered = rw brokered refl

last_envelope-broadcast :
    (takes : String → Bool) (name : String) (message : Message) (a : RoomManager)
    → a.has_broker ≡ true
    → last_envelope (broadcast takes name message a).log ≡ envelope a.node_id name message
unfolding broadcast
last_envelope-broadcast takes name message a brokered =
    last_envelope-forward name message (local_broadcast takes name message a)
      (brokered-local_broadcast takes name message a ∙ brokered)
    ∙ ap (λ n. envelope n name message) (node_id-local_broadcast takes name message a)

-- At a node with a broker, a broadcast gives the broker exactly one thing: the envelope of the room with
-- the node's own id and the message. That envelope changes nothing at the node that sent it, and it makes
-- no node that gets it give anything to the broker, be it a message, a control message or a call for a
-- channel.
pub on_broker_room_message-broadcast :
    (takes : String → Bool) (name : String) (message : Message) (a b : RoomManager)
    → a.has_broker ≡ true
    → (forwards (broadcast takes name message a).log ≡ suc (forwards a.log))
      × (last_envelope (broadcast takes name message a).log ≡ envelope a.node_id name message)
      × (on_broker_room_message takes (last_envelope (broadcast takes name message a).log) a ≡ a)
      × (forwards
            (on_broker_room_message takes
              (last_envelope (broadcast takes name message a).log)
              b).log
          ≡ forwards b.log)
unfolding broadcast forward forwards on_broker_room_message
on_broker_room_message-broadcast takes name message a b brokered =
    let once = forwards-local_broadcast takes name message a in
    let still = brokered-local_broadcast takes name message a in
    let last = last_envelope-broadcast takes name message a brokered in
    (
      ground (arith, once, still),
      last,
      rw (last) (returned takes name message a brokered),
      forwards-on_broker_room_message takes (last_envelope (broadcast takes name message a).log) b,
    )
