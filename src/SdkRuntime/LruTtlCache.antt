-- ===== src/SdkRuntime/LruTtlCache.antt =====
-- packages/sdk-runtime/src/cache.ts. The map of the entries keeps the least recently used key first.
use axiomify.Base.{
  ℕ, ◌+◌, ◌≤◌, String, Bool, true, false, not, ◌&&◌, Option, none, some, List, [], ◌∷◌,
  if◌then◌else◌, ltb, leb, ◌===◌, length, ◌≡◌, refl, arith, Bool-cases, Option-cases, inl, inr,
  ===_refl, leb→le, ◌∙◌, ap, sym,
}
use mathlib.Core.Option
use axiomify.JsMap
use axiomify.JsMap.{IsDistinct, first_key}
use axiomify.JsMap.Laws.{get-set, get-delete, length-set-le, length-delete}

pub record CacheEntry (T : Type 0) : Type 0 where
  pub value : T
  pub expires_at : ℕ

pub record LruTtlCache (T : Type 0) : Type 0 where
  pub entries : List (String × CacheEntry T)
  pub max_keys : ℕ
  pub default_ttl_ms : ℕ

abbrev pub is_some : {A : Type 0} → Option A → Bool
is_some none = false
is_some (some a) = true

abbrev pub is_first : String → Option String → Bool
is_first j none = false
is_first j (some k) = k === j

module _ {T : Type 0} where
  unfoldable pub get : ℕ → String → LruTtlCache T → LruTtlCache T × Option T
  get now key c = elim (JsMap.get key c.entries) [
    | none ↦ (c, none)
    | some entry ↦
        if ltb entry.expires_at now
        then (record c { entries = JsMap.delete key c.entries }, none)
        else (
          record c { entries = JsMap.set key entry (JsMap.delete key c.entries) },
          some entry.value,
        )
  ]

  abbrev drop_first : Option String → List (String × CacheEntry T) → List (String × CacheEntry T)
  drop_first none entries = entries
  drop_first (some key) entries = JsMap.delete key entries

  -- The entries before the write.
  unfoldable pub make_room : String → LruTtlCache T → List (String × CacheEntry T)
  make_room key c =
      if is_some (JsMap.get key c.entries)
      then JsMap.delete key c.entries
      else if leb c.max_keys (length c.entries)
      then drop_first (first_key c.entries) c.entries
      else c.entries

  unfoldable pub set : ℕ → String → T → Option ℕ → LruTtlCache T → LruTtlCache T
  set now key value ttl_ms c =
      let entry : CacheEntry T = record {
        value = value;
        expires_at = now + Option.get_or ttl_ms c.default_ttl_ms;
      } in
      record c { entries = JsMap.set key entry (make_room key c) }

  unfoldable pub delete : String → LruTtlCache T → LruTtlCache T
  delete key c = record c { entries = JsMap.delete key c.entries }

  unfoldable pub clear : LruTtlCache T → LruTtlCache T
  clear c = record c { entries = [] }

  -- Whether writing the key drops the other one.
  abbrev pub is_evicted : String → String → LruTtlCache T → Bool
  is_evicted key j c =
      not (is_some (JsMap.get key c.entries))
      && leb c.max_keys (length c.entries)
      && is_first j (first_key c.entries)

  get-drop_first :
      (j : String) (o : Option String) (m : List (String × CacheEntry T))
      → JsMap.get j (drop_first o m) ≡ (if is_first j o then none else JsMap.get j m)
  get-drop_first j none m = refl
  get-drop_first j (some k) m = get-delete j k m

  get-make_room :
      (key j : String) (c : LruTtlCache T)
      → (key === j) ≡ false
      → JsMap.get j (make_room key c) ≡ (if is_evicted key j c then none else JsMap.get j c.entries)
  unfolding make_room
  get-make_room key j c e = elim (Option-cases (JsMap.get key c.entries)) [
    | inr (v, f) ↦ rw f (rw (get-delete j key c.entries, e) refl)
    | inl f ↦ elim (Bool-cases (leb c.max_keys (length c.entries))) [
      | inl l ↦ rw (f, l) (get-drop_first j (first_key c.entries) c.entries)
      | inr l ↦ rw (f, l) refl
    ]
  ]

  length-drop_first :
      (m : List (String × CacheEntry T))
      → IsDistinct m
      → 1 ≤ length m
      → length (drop_first (first_key m) m) + 1 ≡ length m
  unfolding JsMap.get
  length-drop_first [] d l = absurd (omega arith)
  length-drop_first ((k, v) ∷ m) d l = length-delete k v ((k, v) ∷ m) d (ground (arith, ===_refl k))

  length-make_room :
      (key : String) (c : LruTtlCache T)
      → IsDistinct c.entries
      → 1 ≤ c.max_keys
      → length c.entries ≤ c.max_keys
      → length (make_room key c) + 1 ≤ c.max_keys
  unfolding make_room
  length-make_room key c d p l = elim (Option-cases (JsMap.get key c.entries)) [
    | inr (v, f) ↦ rw f (omega (arith, length-delete key v c.entries d f))
    | inl f ↦ elim (Bool-cases (leb c.max_keys (length c.entries))) [
      | inl g ↦
          rw (f, g)
            (let full = leb→le c.max_keys (length c.entries) g in
              omega (arith, length-drop_first c.entries d (omega arith)))
      | inr g ↦ rw (f, g) (ground arith)
    ]
  ]

  -- What is read of a key at a time.
  abbrev pub read : ℕ → Option (CacheEntry T) → Option T
  read now none = none
  read now (some entry) = if ltb entry.expires_at now then none else some entry.value

  get-read :
      (now : ℕ) (key : String) (c : LruTtlCache T)
      → (get now key c).1 ≡ read now (JsMap.get key c.entries)
  unfolding get
  get-read now key c = elim (Option-cases (JsMap.get key c.entries)) [
    | inl e ↦ ground arith
    | inr (entry, e) ↦ ground arith
  ]

  entries-set :
      (now : ℕ) (key j : String) (value : T) (ttl_ms : Option ℕ) (c : LruTtlCache T)
      → JsMap.get j (set now key value ttl_ms c).entries ≡ (
          if key === j
          then some
              (record { value = value; expires_at = now + Option.get_or ttl_ms c.default_ttl_ms })
          else if is_evicted key j c
          then none
          else JsMap.get j c.entries)
  unfolding set
  entries-set now key j value ttl_ms c =
      let entry : CacheEntry T = record {
        value = value;
        expires_at = now + Option.get_or ttl_ms c.default_ttl_ms;
      } in
      let g = get-set j key entry (make_room key c) in
      elim (Bool-cases (key === j)) [
        | inl e ↦ g ∙ rw e refl
        | inr e ↦ g ∙ rw e (get-make_room key j c e)
      ]

-- After a write within the cap, the cap still holds; the written key reads its value until its time to live
-- is over; and every other key reads what it read before, but for the least recently used one where the
-- key is new and the cache was full.
pub set-get :
    {T : Type 0} (now later : ℕ) (key j : String) (value : T) (ttl_ms : Option ℕ)
    (c : LruTtlCache T)
    → IsDistinct c.entries
    → 1 ≤ c.max_keys
    → length c.entries ≤ c.max_keys
    → (length (set now key value ttl_ms c).entries ≤ c.max_keys)
      × ((get later j (set now key value ttl_ms c)).1 ≡ (
          if key === j
          then (if ltb (now + Option.get_or ttl_ms c.default_ttl_ms) later
              then none
              else some value)
          else if is_evicted key j c
          then none
          else (get later j c).1))
unfolding set
set-get {T} now later key j value ttl_ms c d p l =
    let entry : CacheEntry T = record {
      value = value;
      expires_at = now + Option.get_or ttl_ms c.default_ttl_ms;
    } in
    let room = length-make_room key c d p l in
    let grown = length-set-le key entry (make_room key c) in
    let r = get-read later j (set now key value ttl_ms c) in
    let s = entries-set now key j value ttl_ms c in
    let before = get-read later j c in
    (
      omega arith,
      r ∙ ap (read later) s ∙ (elim (Bool-cases (key === j)) [
        | inl e ↦ rw e refl
        | inr e ↦ rw e (elim (Bool-cases (is_evicted key j c)) [
          | inl g ↦ rw g refl
          | inr g ↦ rw g (sym before)
        ])
      ]),
    )
