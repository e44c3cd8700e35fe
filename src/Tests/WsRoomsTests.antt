-- ===== src/Tests/WsRoomsTests.antt =====
-- A manager with two clients, one of which is in the lobby, and what it does with their calls.
use axiomify.WsRooms.{
  JoinPolicy, RoomManager, has, new_manager, is_room_character, validate_room_name, with_room,
  create_room, get_or_create_room, room_members, is_member, send, publish, forward,
  illegal_characters, raw, not_member, sent, subscribed, broker_subscribed, room_created,
  client_joined, allowlist,
}
use axiomify.WsRooms.Clients.{
  ws_room_channel, on_open, subscribe_topic, with_member, add_member, subscribe_channel, enter_room,
  join_new, join_room, unsubscribe_topic, drop_channel, delete_room, remove_member, unlist,
  remove_listed, leave_room, forget_client, leave_each, leave_all, on_close,
}
use axiomify.WsRooms.Wire.{
  WireAction, local_broadcast, broadcast, answer_join, finish_join, decide_join, run_join,
  join_action, leave_action, if_member, relay, message_action, presence_action, dispatch_action,
  known_action, process_action,
}
use axiomify.WsRooms.Broker.{WsBrokerEnvelope, on_broker_room_message, envelope}
use axiomify.WsRooms.Relaying.{is_about, reaches, deliveries}
use axiomify.WsRooms.Refusing.{deliveries-process_action}
use axiomify.WsRooms.Echoing.{last_envelope, forwards, on_broker_room_message-broadcast}
use axiomify.WsRooms.Reaching.{Reachable, Reachable-Inv, opened, joining, made, next}
use axiomify.WsRooms.Admitting.{AdmitsOnly, IsPermitted, process_action-IsPermitted}
use axiomify.WsRooms.Departing.{is_member-on_close}
use axiomify.WsRooms.Joining.{Inv, skeleton}
use axiomify.Base.{
  Option, if◌then◌else◌, suc, String, Bool, true, false, some, [], ◌∷◌, ◌===◌, ◌≡◌, refl,
}
use axiomify.JsMap
use axiomify.WsRooms.Presence.{
  StateValue, plain, object, field, no_fields, sanitize_state, is_secret_key, has_part,
  get_presence, AllShown, get_presence-AllShown,
}
use axiomify.CacheStore.{utf16_length}
use axiomify.Texts.{every}

program : Unit {0}
unfolding new_manager on_open join_room validate_room_name utf16_length every is_room_character
    subscribe_topic join_new enter_room create_room with_room add_member with_member
    subscribe_channel ws_room_channel has room_members is_member JsMap.get JsMap.set JsMap.delete
    process_action known_action dispatch_action message_action if_member relay send publish forward
    local_broadcast broadcast leave_room unlist unsubscribe_topic remove_listed remove_member
    delete_room drop_channel on_close leave_all leave_each forget_client deliveries reaches is_about
    skeleton on_broker_room_message get_or_create_room join_action run_join decide_join finish_join
    answer_join presence_action leave_action
program = tt

abbrev takes_all : String → Bool
takes_all _ = true

abbrev lobby_only : JoinPolicy
lobby_only = allowlist (λ name. name === "lobby")

abbrev empty : RoomManager
empty = new_manager (some 2) lobby_only (some "node-1")

abbrev two_clients : RoomManager
two_clients = on_open "bob" 8 (on_open "ann" 7 empty)

abbrev ann_in : RoomManager
ann_in = (join_room takes_all 5 "ann" "lobby" two_clients).0

abbrev say : String → WireAction
say room = record { action = some "message"; room = some room; content = "hi" }

abbrev want : String → WireAction
want room = record { action = some "join"; room = some room; content = "null" }

ann_joined : is_member "lobby" "ann" ann_in ≡ true
unfolding program
ann_joined = refl

ann_in_log :
    ann_in.log
    ≡ client_joined "lobby" "ann"
      ∷ broker_subscribed "axiomify:ws:room:lobby"
      ∷ room_created "lobby"
      ∷ subscribed "ann" "lobby"
      ∷ []
unfolding program
ann_in_log = refl

-- A message to a room of one counts as two that are sent, one of them the publication that reaches nobody.
ann_speaks : (process_action takes_all 6 "ann" (some (say "lobby")) ann_in).0.messages_sent ≡ 2
unfolding program
ann_speaks = refl

bob_refused :
    (process_action takes_all 6 "bob" (some (say "lobby")) ann_in).0.log
    ≡ sent "bob" not_member ∷ ann_in.log
unfolding program
bob_refused = refl

bob_enters :
    is_member "lobby" "bob" (process_action takes_all 6 "bob" (some (want "lobby")) ann_in).0 ≡ true
unfolding program
bob_enters = refl

bob_stays_out :
    is_member "attic" "bob" (process_action takes_all 6 "bob" (some (want "attic")) ann_in).0
    ≡ false
unfolding program
bob_stays_out = refl

bad_name : (join_room takes_all 5 "ann" "a b" two_clients).1 ≡ some illegal_characters
unfolding program
bad_name = refl

bob_fresh : has "bob" (on_open "ann" 7 empty).clients ≡ false
unfolding program
bob_fresh = refl

ann_fresh : has "ann" empty.clients ≡ false
unfolding program
ann_fresh = refl

ann_in-Reachable : Reachable ann_in
ann_in-Reachable =
    next
      (next (next (made (some 2) lobby_only (some "node-1")) (opened "ann" 7 empty ann_fresh))
        (opened "bob" 8 (on_open "ann" 7 empty) bob_fresh))
      (joining takes_all 5 "ann" "lobby" two_clients)

Reachable-Inv_example : Inv ann_in
Reachable-Inv_example = Reachable-Inv ann_in-Reachable

is_member-on_close_example :
    is_member "lobby" "bob" (on_close takes_all "ann" ann_in) ≡ is_member "lobby" "bob" ann_in
is_member-on_close_example =
    is_member-on_close takes_all "ann" ann_in (Reachable-Inv ann_in-Reachable) "lobby" "bob"

bob_outside : is_member "lobby" "bob" ann_in ≡ false
unfolding program
bob_outside = refl

deliveries-process_action_example :
    deliveries "lobby" (process_action takes_all 6 "bob" (some (say "lobby")) ann_in).0.log
    ≡ deliveries "lobby" ann_in.log
deliveries-process_action_example =
    deliveries-process_action takes_all 6 "bob" (some (say "lobby")) ann_in "lobby" bob_outside

process_action-IsPermitted_example :
    AdmitsOnly
      (IsPermitted ann_in "lobby")
      "bob"
      "lobby"
      "bob"
      ann_in
      (process_action takes_all 6 "bob" (some (want "lobby")) ann_in).0
    × AdmitsOnly
        ((◌≡◌ {A = String} "lobby" "lobby") × (◌≡◌ {A = Option Bool} (some true) (some true)))
        "bob"
        "lobby"
        "bob"
        ann_in
        (finish_join takes_all 9 "bob" "lobby" (some true) ann_in)
process_action-IsPermitted_example =
    process_action-IsPermitted takes_all 6 9 "bob" (some (want "lobby")) "lobby" (some true) ann_in
      ann_in ann_in-Reachable "lobby" "bob"

ann_brokered : ann_in.has_broker ≡ true
unfolding program
ann_brokered = refl

-- What the other nodes get of a broadcast to the lobby.
abbrev hi_envelope : WsBrokerEnvelope
hi_envelope = last_envelope (broadcast takes_all "lobby" (raw "hi") ann_in).log

on_broker_room_message-broadcast_example :
    (forwards (broadcast takes_all "lobby" (raw "hi") ann_in).log ≡ suc (forwards ann_in.log))
    × (hi_envelope ≡ envelope ann_in.node_id "lobby" (raw "hi"))
    × (on_broker_room_message takes_all hi_envelope ann_in ≡ ann_in)
    × (forwards (on_broker_room_message takes_all hi_envelope two_clients).log
        ≡ forwards two_clients.log)
on_broker_room_message-broadcast_example =
    on_broker_room_message-broadcast takes_all "lobby" (raw "hi") ann_in two_clients ann_brokered

-- A state with a name and, inside an object, a token.
abbrev state_with_token : String → StateValue
state_with_token id = object (
    field "name" (plain id) (
      field "user" (object (field "accessToken" (plain "t") (field "age" (plain "7") no_fields)))
        no_fields))

-- `toLowerCase` of the keys that occur.
abbrev lower_case : String → String
lower_case key = if key === "accessToken" then "accesstoken" else key

token_hidden :
    get_presence lower_case state_with_token (("ann", 5) ∷ [])
    ≡ (
      "ann",
      (
        object (
            field "name"
              (plain "ann")
              (field "user" (object (field "age" (plain "7") no_fields)) no_fields)),
        5,
      ),
    )
      ∷ []
unfolding get_presence sanitize_state is_secret_key has_part
token_hidden = refl

get_presence-AllShown_example :
    AllShown lower_case state_with_token
      (("ann", 5) ∷ [])
      (get_presence lower_case state_with_token (("ann", 5) ∷ []))
get_presence-AllShown_example = get_presence-AllShown lower_case state_with_token (("ann", 5) ∷ [])
