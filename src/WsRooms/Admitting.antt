-- ===== src/WsRooms/Admitting.antt =====
-- packages/ws/src/room-manager.ts: whom an action of the wire protocol lets into a room.
use axiomify.WsRooms.{RoomManager, note, room_members, is_member, subscribed, allowlist}
use axiomify.WsRooms.Clients.{enter_room, join_room, leave_room}
use axiomify.WsRooms.Wire.{finish_join, WireAction, process_action}
use axiomify.WsRooms.Permission.{finish_join-P, received, quiet-received, process_action-P}
use axiomify.WsRooms.Membership.{has-set, room_members-enter_room}
use axiomify.WsRooms.Joining.{join_room-cases, Inv, skeleton, quiet-Inv}
use axiomify.WsRooms.Departing.{leave_room-Inv, lists-leave_room}
use axiomify.WsRooms.Reaching.{Reachable, Reachable-Inv}
use axiomify.Base.{
  some, false, Bool-cases, ℕ, String, Bool, true, ◌&&◌, ◌||◌, Option, List, ◌===◌, ◌≡◌, ◌⊎◌, inl,
  inr, refl, sym, arith, eq_iff, ap, ◌∙◌,
}

is_member-skeleton :
    (name id : String) (s : RoomManager) → is_member name id (skeleton s) ≡ is_member name id s
unfolding skeleton is_member room_members
is_member-skeleton name id s = refl

is_member-quiet :
    (name id : String) (s t : RoomManager)
    → skeleton t ≡ skeleton s
    → is_member name id t ≡ is_member name id s
is_member-quiet name id s t e =
    sym (is_member-skeleton name id t)
    ∙ ap (λ u. is_member name id u) e
    ∙ is_member-skeleton name id s

noted-is_member :
    (n j id name : String) (s : RoomManager)
    → is_member n j (note (subscribed id name) s) ≡ is_member n j s
unfolding is_member room_members
noted-is_member n j id name s = refl

is_member-enter_room :
    (n j id name : String) (now : ℕ) (names : List (String × Unit {0})) (s : RoomManager)
    → is_member n j (enter_room now id name names s)
      ≡ ((name === n) && (id === j) || is_member n j s)
unfolding is_member
is_member-enter_room n j id name now names s =
    rw (room_members-enter_room n name id now names s)
      (ground (arith, has-set j id now (room_members name s), eq_iff name n))

-- Whoever is a member behind a join was one before it, or is who joined.
is_member-join_room :
    (takes : String → Bool) (now : ℕ) (id name : String) (s : RoomManager) (n j : String)
    → is_member n j (join_room takes now id name s).0 ≡ true
    → (is_member n j s ≡ true) ⊎ ((j ≡ id) × (n ≡ name))
is_member-join_room takes now id name s n j =
    join_room-cases
      (λ t. is_member n j t ≡ true → (is_member n j s ≡ true) ⊎ ((j ≡ id) × (n ≡ name))) takes now
      id name s (λ m. inl m)
      (λ names e absent free t which m.
        let subscribing : is_member n j t ≡ is_member n j s = elim which [
          | inl same ↦ ap (λ u. is_member n j u) same
          | inr told ↦ ap (λ u. is_member n j u) told ∙ noted-is_member n j id name s
        ] in
        let entered = is_member-enter_room n j id name now names t in
        ground (arith, entered, subscribing, eq_iff id j, eq_iff name n))

is_member-leave_room :
    (takes : String → Bool) (id name : String) (s : RoomManager)
    → Inv s
    → (n j : String) → is_member n j (leave_room takes id name s) ≡ true
    → is_member n j s ≡ true
is_member-leave_room takes id name s h n j m = ground (
  arith,
  h.agrees n j,
  (leave_room-Inv takes id name s h).agrees n j,
  lists-leave_room takes id name s h n j,
)

-- The second state has no member of the room that the first does not have, but for the client that acts,
-- where there is the reason.
abbrev pub AdmitsOnly : Type 0 → String → String → String → RoomManager → RoomManager → Type 0
AdmitsOnly reason id name other s t =
    (is_member name other t ≡ false) ⊎ (is_member name other s ≡ true) ⊎ ((other ≡ id) × reason)

-- The manager has a pattern, and it permits the name.
abbrev pub IsPermitted : RoomManager → String → Type 0
IsPermitted s name =
    (pattern : String → Bool) × (s.policy ≡ allowlist pattern) × (pattern name ≡ true)

process_action_admits :
    (takes : String → Bool) (now : ℕ) (id : String) (a : Option WireAction) (s : RoomManager)
    → Reachable s
    → (name other : String) → is_member name other (process_action takes now id a s).0 ≡ true
    → (is_member name other s ≡ true)
      ⊎ ((other ≡ id)
          × ((pattern : String → Bool) × (s.policy ≡ allowlist pattern) × (pattern name ≡ true)))
process_action_admits takes now id a s r name other =
    let h = Reachable-Inv r in
    let counted : Inv (received s) = quiet-Inv s (received s) (quiet-received s) h in
    let uncounted = is_member-quiet name other s (received s) (quiet-received s) in
    process_action-P
      (λ t.
        is_member name other t ≡ true
        → (is_member name other s ≡ true)
          ⊎ ((other ≡ id)
              × ((pattern : String → Bool) × (s.policy ≡ allowlist pattern)
                  × (pattern name ≡ true))))
      takes id (λ u v e kept m. kept (sym (is_member-quiet name other u v e) ∙ m)) now a s
      (λ m. inl m)
      (λ room pattern e yes m.
        elim (is_member-join_room takes now id room (received s) name other m) [
          | inl before ↦ inl (sym uncounted ∙ before)
          | inr (own, same_room) ↦ inr (own, (pattern, e, ap (λ n. pattern n) same_room ∙ yes))
        ])
      (λ room m.
        inl (sym uncounted ∙ is_member-leave_room takes id room (received s) counted name other m))

finish_join_admits :
    (takes : String → Bool) (now : ℕ) (id room : String) (answer : Option Bool) (s : RoomManager)
    (name other : String)
    → is_member name other (finish_join takes now id room answer s) ≡ true
    → (is_member name other s ≡ true) ⊎ ((other ≡ id) × ((name ≡ room) × (answer ≡ some true)))
finish_join_admits takes now id room answer s name other =
    finish_join-P
      (λ t.
        is_member name other t ≡ true
        → (is_member name other s ≡ true) ⊎ ((other ≡ id) × ((name ≡ room) × (answer ≡ some true))))
      takes id (λ u v e kept m. kept (sym (is_member-quiet name other u v e) ∙ m)) now room answer s
      (λ m. inl m)
      (λ granted m. elim (is_member-join_room takes now id room s name other m) [
        | inl before ↦ inl before
        | inr (own, same_room) ↦ inr (own, (same_room, granted))
      ])

-- After any calls of a new manager, a wire action adds no member at once but its sender, to a room whose
-- name the pattern of the manager permits; so with `beforeJoin`, which is asked first, it adds nobody
-- before the answer. When the answer to a join has come, for any later state, the join adds no member but
-- the client to the room it wanted, and only where the answer is yes: an answer no, or a `beforeJoin` that
-- throws, adds nobody.
pub process_action-IsPermitted :
    (takes : String → Bool) (now later : ℕ) (id : String) (a : Option WireAction) (room : String)
    (answer : Option Bool) (s t : RoomManager)
    → Reachable s
    → (name other : String)
    → AdmitsOnly (IsPermitted s name) id name other s (process_action takes now id a s).0
      × AdmitsOnly
          ((name ≡ room) × (answer ≡ some true))
          id
          name
          other
          t
          (finish_join takes later id room answer t)
process_action-IsPermitted takes now later id a room answer s t r name other = (
  elim (Bool-cases (is_member name other (process_action takes now id a s).0)) [
    | inl e ↦ inr (process_action_admits takes now id a s r name other e)
    | inr e ↦ inl e
  ],
  elim (Bool-cases (is_member name other (finish_join takes later id room answer t))) [
    | inl e ↦ inr (finish_join_admits takes later id room answer t name other e)
    | inr e ↦ inl e
  ],
)
