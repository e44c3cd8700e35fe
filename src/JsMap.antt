-- ===== src/JsMap.antt =====
-- A JavaScript `Map` with text keys: an association list in insertion order. `set` keeps the place of
-- a key that is there and puts a new key last; `delete` drops a key; `keys().next()` is the first key.
pub mod Laws
use axiomify.Base.{
  ℕ, zero, suc, ◌+◌, String, Bool, true, false, Option, none, some, List, [], ◌∷◌, ◌===◌,
  if◌then◌else◌, ◌≡◌,
}

module _ {ℓ} {V : Type ℓ} where
  unfoldable pub get : String → List (String × V) → Option V
  get k [] = none
  get k ((j, v) ∷ m) = if j === k then some v else get k m

  unfoldable pub set : String → V → List (String × V) → List (String × V)
  set k v [] = (k, v) ∷ []
  set k v ((j, w) ∷ m) = if j === k then (j, v) ∷ m else (j, w) ∷ set k v m

  unfoldable pub delete : String → List (String × V) → List (String × V)
  delete k [] = []
  delete k ((j, w) ∷ m) = let rest = delete k m in if j === k then rest else (j, w) ∷ rest

  abbrev pub first_key : List (String × V) → Option String
  first_key [] = none
  first_key ((k, _) ∷ m) = some k

  -- The entries whose key and value pass the test stay: a `for … of` loop that deletes the others.
  unfoldable pub keep : (String → V → Bool) → List (String × V) → List (String × V)
  keep p [] = []
  keep p ((k, v) ∷ m) = let rest = keep p m in if p k v then (k, v) ∷ rest else rest

  -- No key twice.
  abbrev pub IsDistinct : List (String × V) → Type ℓ
  IsDistinct [] = Unit
  IsDistinct ((k, _) ∷ m) = (get k m ≡ none) × IsDistinct m

  -- The sum of a measure of the values.
  abbrev pub total : (V → ℕ) → List (String × V) → ℕ
  total w [] = 0
  total w ((_, v) ∷ m) = w v + total w m
