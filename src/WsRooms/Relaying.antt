-- ===== src/WsRooms/Relaying.antt =====
-- packages/ws/src/room-manager.ts: which actions of the wire protocol reach a room.
use axiomify.WsRooms.{
  Message, Effect, Room, RoomManager, has, create_room, room_members, is_member, send, publish,
  forward, raw, invalid_room, room_not_found, not_member, unauthorized, join_failed, joined, left,
  room_message, presence, kicked, sent, published, forwarded, controlled, subscribed, unsubscribed,
  broker_subscribed, broker_unsubscribed, room_created, room_deleted, client_joined, client_left,
  disconnected,
}
use axiomify.WsRooms.Clients.{
  add_member, subscribe_channel, enter_room, join_room, unsubscribe_topic, drop_channel,
  delete_room, remove_member, unlist, remove_listed, leave_room,
}
use axiomify.WsRooms.Wire.{send_each, local_broadcast, if_member, relay}
use axiomify.WsRooms.Joining.{join_room-cases}
use axiomify.Base.{
  ℕ, suc, String, Bool, true, false, not, ◌||◌, List, [], ◌∷◌, if◌then◌else◌, ◌==◌, ◌===◌, length,
  ◌≡◌, inl, inr, refl, arith, eq_iff, Bool-cases, Option-cases, ap, ◌∙◌,
}
use axiomify.JsMap
use axiomify.JsMap.{first_key}

-- The message carries something of the room.
unfoldable pub is_about : String → Message → Bool
is_about name (raw _) = false
is_about name invalid_room = false
is_about name room_not_found = false
is_about name not_member = false
is_about name unauthorized = false
is_about name (join_failed _) = false
is_about name (joined _) = false
is_about name (left _) = false
is_about name (room_message n _ _) = n === name
is_about name (presence n _) = n === name
is_about name (kicked _ _) = false

-- The entry of the log is a message to the room or of it.
unfoldable pub reaches : String → Effect → Bool
reaches name (sent _ m) = is_about name m
reaches name (published _ topic m) = (topic === name) || is_about name m
reaches name (forwarded _ n m) = (n === name) || is_about name m
reaches name (controlled _) = false
reaches name (subscribed _ _) = false
reaches name (unsubscribed _ _) = false
reaches name (broker_subscribed _) = false
reaches name (broker_unsubscribed _) = false
reaches name (room_created _) = false
reaches name (room_deleted _) = false
reaches name (client_joined _ _) = false
reaches name (client_left _ _) = false
reaches name (disconnected _ _) = false

unfoldable pub deliveries : String → List Effect → ℕ
deliveries name [] = 0
deliveries name (e ∷ log) =
    let rest = deliveries name log in if reaches name e then suc rest else rest

module _ (name : String) where
  abbrev pub traffic : RoomManager → ℕ
  traffic s = deliveries name s.log

  pub traffic-send :
      (takes : String → Bool) (id : String) (message : Message) (s : RoomManager)
      → is_about name message ≡ false
      → traffic (send takes id message s) ≡ traffic s
  unfolding send deliveries reaches
  traffic-send takes id message s other = ground arith

  traffic-publish :
      (id topic : String) (message : Message) (s : RoomManager)
      → (topic === name) ≡ false
      → is_about name message ≡ false
      → traffic (publish id topic message s) ≡ traffic s
  unfolding publish deliveries reaches
  traffic-publish id topic message s away other = ground arith

  traffic-forward :
      (topic : String) (message : Message) (s : RoomManager)
      → (topic === name) ≡ false
      → is_about name message ≡ false
      → traffic (forward topic message s) ≡ traffic s
  unfolding forward deliveries reaches
  traffic-forward topic message s away other = ground arith

  traffic-send_each :
      (takes : String → Bool) (ids : List (String × ℕ)) (message : Message) (s : RoomManager)
      → is_about name message ≡ false
      → traffic (send_each takes ids message s) ≡ traffic s
  unfolding send_each
  traffic-send_each takes [] message s other = refl
  traffic-send_each takes ((id, _) ∷ ids) message s other =
      traffic-send_each takes ids message (send takes id message s) other
      ∙ traffic-send takes id message s other

  traffic-enter_room :
      (now : ℕ) (id room : String) (names : List (String × Unit {0})) (s : RoomManager)
      → traffic (enter_room now id room names s) ≡ traffic s
  unfolding enter_room subscribe_channel add_member create_room deliveries reaches
  traffic-enter_room now id room names s = ground arith

  pub traffic-join_room :
      (takes : String → Bool) (now : ℕ) (id room : String) (s : RoomManager)
      → traffic (join_room takes now id room s).0 ≡ traffic s
  unfolding deliveries reaches
  traffic-join_room takes now id room s =
      join_room-cases (λ t. traffic t ≡ traffic s) takes now id room s refl
        (λ names _ _ _ t which. traffic-enter_room now id room names t ∙ elim which [
          | inl same ↦ ap (λ u. traffic u) same
          | inr told ↦ ap (λ u. traffic u) told
        ])

  pub choice :
      (b : Bool) (x y s : RoomManager)
      → traffic x ≡ traffic s
      → traffic y ≡ traffic s
      → traffic (if b then x else y) ≡ traffic s
  choice true x y s p q = p
  choice false x y s p q = q

  traffic-remove_member :
      (id room : String) (r : Room) (s : RoomManager)
      → traffic (remove_member id room r s) ≡ traffic s
  unfolding remove_member delete_room drop_channel deliveries reaches
  traffic-remove_member id room r s = elim (Bool-cases (length (JsMap.delete id r.members) == 0)) [
    | inl empty ↦ ground arith
    | inr more ↦ ground arith
  ]

  traffic-unlist :
      (takes : String → Bool) (id room : String) (names : List (String × Unit {0}))
      (s : RoomManager)
      → traffic (unlist takes id room names s) ≡ traffic s
  unfolding unlist unsubscribe_topic deliveries reaches
  traffic-unlist takes id room names s = ground arith

  traffic-remove_listed :
      (id room : String) (s : RoomManager) → traffic (remove_listed id room s) ≡ traffic s
  unfolding remove_listed
  traffic-remove_listed id room s = elim (Option-cases (JsMap.get room s.rooms)) [
    | inl away ↦ rw (remove_listed, away) refl
    | inr (r, there) ↦ rw (remove_listed, there) (traffic-remove_member id room r s)
  ]

  pub traffic-leave_room :
      (takes : String → Bool) (id room : String) (s : RoomManager)
      → traffic (leave_room takes id room s) ≡ traffic s
  unfolding leave_room
  traffic-leave_room takes id room s = elim (Option-cases (JsMap.get id s.client_rooms)) [
    | inl away ↦ rw (leave_room, away) refl
    | inr (names, e) ↦
        rw (leave_room, e)
          (choice (not (has room names)) s _ s refl (
            traffic-remove_listed id room (unlist takes id room names s)
            ∙ traffic-unlist takes id room names s))
  ]

  -- What is of another room.
  module _ (room : String) (message : Message) (away : (room === name) ≡ false)
      (other : is_about name message ≡ false) where
    traffic-publish_send :
        (takes : String → Bool) (id : String) (s : RoomManager)
        → traffic (send takes id message (publish id room message s)) ≡ traffic s
    traffic-publish_send takes id s =
        traffic-send takes id message (publish id room message s) other
        ∙ traffic-publish id room message s away other

    traffic-local_broadcast :
        (takes : String → Bool) (s : RoomManager)
        → traffic (local_broadcast takes room message s) ≡ traffic s
    unfolding local_broadcast
    traffic-local_broadcast takes s = elim (Option-cases (first_key (room_members room s))) [
      | inl empty ↦ rw (local_broadcast, empty) refl
      | inr (first, e) ↦
          rw (local_broadcast, e)
            (choice (has first s.ws_client_map) _ _ s (traffic-publish_send takes first s)
              (traffic-send_each takes (room_members room s) message s other))
    ]

  pub traffic-relay :
      (takes : String → Bool) (id room content : String) (s : RoomManager)
      → (room === name) ≡ false
      → traffic (relay takes id room content s) ≡ traffic s
  unfolding relay is_about
  traffic-relay takes id room content s away =
      let message = room_message room id content in
      traffic-forward room message _ away away
      ∙ choice (has id s.ws_clients) _ _ s (traffic-publish_send room message away away takes id s)
          (traffic-local_broadcast room message away away takes s)

  -- What the sender may ask of the room is not of the room, or it is no member.
  pub traffic-if_member :
      (takes : String → Bool) (id room : String) (t s : RoomManager)
      → is_member name id s ≡ false
      → ((room === name) ≡ false → traffic t ≡ traffic s)
      → traffic (if_member takes id room t s) ≡ traffic s
  unfolding if_member is_about
  traffic-if_member takes id room t s outside allowed =
      choice (not (has room s.rooms)) (send takes id room_not_found s) _ s
        (traffic-send takes id room_not_found s refl)
        (elim (Bool-cases (room === name)) [
          | inl same ↦
              rw ((eq_iff room name).0 same, outside) (traffic-send takes id not_member s refl)
          | inr away ↦
              choice (not (is_member room id s)) _ t s (traffic-send takes id not_member s refl)
                (allowed away)
        ])
