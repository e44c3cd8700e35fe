-- ===== src/WsRooms/Presence.antt =====
-- packages/ws/src/room.ts: `getPresence`, which shows the state of the members without what may be secret.
-- `toLowerCase` is a parameter; a state is a JSON value, its numbers and the like standing for their text.
use axiomify.Base.{
  ℕ, String, Bool, false, ◌||◌, List, [], ◌∷◌, if◌then◌else◌, ◌===◌, ◌≡◌, inl, inr, refl,
  Bool-cases, ap,
}
use text.Mathlib.Text.{starts_with}

mutual
  pub data StateValue : Type 0 where
    plain : String → StateValue
    array : StateItems → StateValue
    object : StateFields → StateValue

  pub data StateItems : Type 0 where
    no_items : StateItems
    item : StateValue → StateItems → StateItems

  pub data StateFields : Type 0 where
    no_fields : StateFields
    field : String → StateValue → StateFields → StateFields

-- `text.includes(part)`.
unfoldable pub has_part : String → String → Bool
has_part part String.[] = starts_with String.[] part
has_part part (String.◌∷◌ c s) = starts_with (String.◌∷◌ c s) part || has_part part s

-- The tests of the key in lower case.
unfoldable pub is_secret_key : String → Bool
is_secret_key key =
    has_part "token" key
    || has_part "secret" key
    || has_part "password" key
    || has_part "cookie" key
    || has_part "session" key
    || has_part "auth" key
    || has_part "jti" key
    || (key === "iat")
    || (key === "exp")
    || (key === "nbf")

module _ (to_lower_case : String → String) where
  unfoldable mutual
    pub sanitize_state : StateValue → StateValue
    sanitize_state (plain text) = plain text
    sanitize_state (array items) = array (sanitize_items items)
    sanitize_state (object fields) = object (sanitize_fields fields)

    pub sanitize_items : StateItems → StateItems
    sanitize_items no_items = no_items
    sanitize_items (item v items) = item (sanitize_state v) (sanitize_items items)

    pub sanitize_fields : StateFields → StateFields
    sanitize_fields no_fields = no_fields
    sanitize_fields (field key v fields) =
        let rest = sanitize_fields fields in
        let clean = sanitize_state v in
        if is_secret_key (to_lower_case key) then rest else field key clean rest

  -- The id, the state and the time of joining of each member.
  unfoldable pub get_presence :
      (String → StateValue) → List (String × ℕ) → List (String × (StateValue × ℕ))
  get_presence state_of [] = []
  get_presence state_of ((id, joined_at) ∷ members) =
      (id, (sanitize_state (state_of id), joined_at)) ∷ get_presence state_of members

  -- No key of an object, at any depth, is one of a secret.
  unfoldable mutual
    pub IsOpen : StateValue → Type 0
    IsOpen (plain text) = Unit
    IsOpen (array items) = AreOpen items
    IsOpen (object fields) = AreOpenFields fields

    pub AreOpen : StateItems → Type 0
    AreOpen no_items = Unit
    AreOpen (item v items) = IsOpen v × AreOpen items

    pub AreOpenFields : StateFields → Type 0
    AreOpenFields no_fields = Unit
    AreOpenFields (field key v fields) =
        (is_secret_key (to_lower_case key) ≡ false) × IsOpen v × AreOpenFields fields

  kept :
      (key : String) (v : StateValue) (more : StateFields)
      → IsOpen v
      → AreOpenFields more
      → AreOpenFields (if is_secret_key (to_lower_case key) then more else field key v more)
  unfolding AreOpenFields
  kept key v more h r = elim (Bool-cases (is_secret_key (to_lower_case key))) [
    | inl hidden ↦ rw hidden r
    | inr shown ↦ rw shown (shown, h, r)
  ]

  mutual
    unfolding sanitize_state sanitize_items sanitize_fields IsOpen AreOpen AreOpenFields

    sanitize_state-IsOpen : (v : StateValue) → IsOpen (sanitize_state v)
    sanitize_state-IsOpen (plain text) = tt
    sanitize_state-IsOpen (array items) = sanitize_items-AreOpen items
    sanitize_state-IsOpen (object fields) = sanitize_fields-AreOpenFields fields

    sanitize_items-AreOpen : (items : StateItems) → AreOpen (sanitize_items items)
    sanitize_items-AreOpen no_items = tt
    sanitize_items-AreOpen (item v items) = (sanitize_state-IsOpen v, sanitize_items-AreOpen items)

    sanitize_fields-AreOpenFields : (fields : StateFields) → AreOpenFields (sanitize_fields fields)
    sanitize_fields-AreOpenFields no_fields = tt
    sanitize_fields-AreOpenFields (field key v fields) =
        kept key (sanitize_state v) (sanitize_fields fields) (sanitize_state-IsOpen v)
          (sanitize_fields-AreOpenFields fields)

  mutual
    unfolding sanitize_state sanitize_items sanitize_fields IsOpen AreOpen AreOpenFields

    sanitize_state_same : (v : StateValue) → IsOpen v → sanitize_state v ≡ v
    sanitize_state_same (plain text) h = refl
    sanitize_state_same (array items) h = ap (λ x. array x) (sanitize_items_same items h)
    sanitize_state_same (object fields) h = ap (λ x. object x) (sanitize_fields_same fields h)

    sanitize_items_same : (items : StateItems) → AreOpen items → sanitize_items items ≡ items
    sanitize_items_same no_items h = refl
    sanitize_items_same (item v items) (h, r) =
        rw (sanitize_state_same v h, sanitize_items_same items r) refl

    sanitize_fields_same :
        (fields : StateFields) → AreOpenFields fields → sanitize_fields fields ≡ fields
    sanitize_fields_same no_fields h = refl
    sanitize_fields_same (field key v fields) (o, h, r) =
        rw (o, sanitize_state_same v h, sanitize_fields_same fields r) refl

  -- An entry shows a member of the room, with the time it joined at, and a state without secret keys, which
  -- is the member's own when that has none.
  unfoldable pub Shows : (String → StateValue) → String × ℕ → String × (StateValue × ℕ) → Type 0
  Shows state_of (id, joined_at) (shown, (state, at)) =
      (shown ≡ id) × (at ≡ joined_at) × IsOpen state × (IsOpen (state_of id) → state ≡ state_of id)

  unfoldable pub AllShown :
      (String → StateValue) → List (String × ℕ) → List (String × (StateValue × ℕ)) → Type 0
  AllShown state_of [] [] = Unit
  AllShown state_of [] (e ∷ entries) = ⊥
  AllShown state_of (m ∷ members) [] = ⊥
  AllShown state_of (m ∷ members) (e ∷ entries) =
      Shows state_of m e × AllShown state_of members entries

  -- The presence of a room has one entry for each member, in their order. It shows the id and the time of
  -- joining, and a state in which no key at any depth is one of a secret; a state without such keys is
  -- shown as it is.
  pub get_presence-AllShown :
      (state_of : String → StateValue) (members : List (String × ℕ))
      → AllShown state_of members (get_presence state_of members)
  unfolding get_presence AllShown Shows
  get_presence-AllShown state_of [] = tt
  get_presence-AllShown state_of ((id, joined_at) ∷ members) = (
    (refl, refl, sanitize_state-IsOpen (state_of id), sanitize_state_same (state_of id)),
    get_presence-AllShown state_of members,
  )
