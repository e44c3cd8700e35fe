-- ===== src/JsMap/Laws.antt =====
-- The laws of the map: what `get` reads after each operation, distinct keys, sizes and sums.
use axiomify.Base.{
  suc, ◌≤◌, Bool, ℕ, ◌+◌, String, none, some, List, [], ◌∷◌, ◌++◌, ◌===◌, if◌then◌else◌, ◌≡◌, refl,
  arith, eq_iff, length, ===_refl,
}
use axiomify.JsMap.{keep, get, set, delete, IsDistinct, total}

module _ {ℓ} {V : Type ℓ} where
  pub get-set :
      (j k : String) (v : V) (m : List (String × V))
      → get j (set k v m) ≡ (if k === j then some v else get j m)
  unfolding get set
  get-set j k v [] = refl
  get-set j k v ((i, w) ∷ m) = ground (arith, eq_iff k j, eq_iff i k, eq_iff i j, get-set j k v m)

  pub get-set_self : (k : String) (v : V) (m : List (String × V)) → get k (set k v m) ≡ some v
  get-set_self k v m = rw (get-set k k v m, ===_refl k)

  pub get-delete :
      (j k : String) (m : List (String × V))
      → get j (delete k m) ≡ (if k === j then none else get j m)
  unfolding get delete
  get-delete j k [] = ground arith
  get-delete j k ((i, w) ∷ m) = ground (arith, eq_iff k j, eq_iff i k, eq_iff i j, get-delete j k m)

  pub delete_absent : (k : String) (m : List (String × V)) → get k m ≡ none → delete k m ≡ m
  unfolding get delete
  delete_absent k [] h = refl
  delete_absent k ((i, w) ∷ m) h = ground (arith, delete_absent k m)

  pub delete-IsDistinct :
      (k : String) (m : List (String × V)) → IsDistinct m → IsDistinct (delete k m)
  unfolding delete
  delete-IsDistinct k [] d = tt
  delete-IsDistinct k ((i, w) ∷ m) d = ground (arith, delete-IsDistinct k m d.1, get-delete i k m)

  pub set-IsDistinct :
      (k : String) (v : V) (m : List (String × V)) → IsDistinct m → IsDistinct (set k v m)
  unfolding set get
  set-IsDistinct k v [] d = (refl, tt)
  set-IsDistinct k v ((i, w) ∷ m) d =
      ground (arith, set-IsDistinct k v m d.1, get-set i k v m, eq_iff k i, eq_iff i k)

  pub total-delete :
      (w : V → ℕ) (k : String) (v : V) (m : List (String × V))
      → IsDistinct m
      → get k m ≡ some v
      → total w (delete k m) + w v ≡ total w m
  unfolding get delete
  total-delete w k v [] d h = absurd (ground arith)
  total-delete w k v ((i, u) ∷ m) d h =
      ground (arith, eq_iff i k, total-delete w k v m d.1, delete_absent k m)

  pub length-delete :
      (k : String) (v : V) (m : List (String × V))
      → IsDistinct m
      → get k m ≡ some v
      → length (delete k m) + 1 ≡ length m
  unfolding get delete
  length-delete k v [] d h = absurd (ground arith)
  length-delete k v ((i, u) ∷ m) d h =
      ground (arith, eq_iff i k, length-delete k v m d.1, delete_absent k m)

  pub set_absent :
      (k : String) (v : V) (m : List (String × V)) → get k m ≡ none → set k v m ≡ m ++ (k, v) ∷ []
  unfolding get set
  set_absent k v [] h = refl
  set_absent k v ((i, w) ∷ m) h = ground (arith, set_absent k v m)

  pub total-set_absent :
      (w : V → ℕ) (k : String) (v : V) (m : List (String × V))
      → get k m ≡ none
      → total w (set k v m) ≡ total w m + w v
  unfolding get set
  total-set_absent w k v [] h = ground arith
  total-set_absent w k v ((i, u) ∷ m) h = ground (arith, total-set_absent w k v m)

  pub get-keep :
      (p : String → V → Bool) (j : String) (m : List (String × V))
      → IsDistinct m
      → get j (keep p m) ≡ elim (get j m) [ none ↦ none | some v ↦ if p j v then some v else none ]
  unfolding get keep
  get-keep p j [] d = refl
  get-keep p j ((i, w) ∷ m) d = ground (arith, eq_iff i j, get-keep p j m d.1)

  pub keep-IsDistinct :
      (p : String → V → Bool) (m : List (String × V)) → IsDistinct m → IsDistinct (keep p m)
  unfolding keep
  keep-IsDistinct p [] d = tt
  keep-IsDistinct p ((i, w) ∷ m) d = ground (arith, keep-IsDistinct p m d.1, get-keep p i m d.1)

  pub length-keep-le :
      (p : String → V → Bool) (m : List (String × V)) → length (keep p m) ≤ length m
  unfolding keep
  length-keep-le p [] = omega arith
  length-keep-le p ((i, w) ∷ m) = ground (arith, length-keep-le p m)

  pub total-keep-le :
      (p : String → V → Bool) (w : V → ℕ) (m : List (String × V)) → total w (keep p m) ≤ total w m
  unfolding keep
  total-keep-le p w [] = omega arith
  total-keep-le p w ((i, v) ∷ m) = ground (arith, total-keep-le p w m)

  pub get-append :
      (j : String) (m n : List (String × V))
      → get j (m ++ n) ≡ elim (get j m) [ none ↦ get j n | some v ↦ some v ]
  unfolding get
  get-append j [] n = refl
  get-append j ((i, w) ∷ m) n = ground (arith, get-append j m n)

  -- Deleting from the middle: the first entry of the second part.
  pub delete-append :
      (k : String) (v : V) (m n : List (String × V))
      → IsDistinct (m ++ (k, v) ∷ n)
      → delete k (m ++ (k, v) ∷ n) ≡ m ++ n
  unfolding get delete
  delete-append k v [] n d = ground (arith, ===_refl k, delete_absent k n d.0)
  delete-append k v ((i, w) ∷ m) n d =
      ground (arith, eq_iff i k, delete-append k v m n d.1, get-append i m ((k, v) ∷ n))

  pub length-set-le :
      (k : String) (v : V) (m : List (String × V)) → length (set k v m) ≤ suc (length m)
  unfolding set
  length-set-le k v [] = omega arith
  length-set-le k v ((i, w) ∷ m) = ground (arith, length-set-le k v m)

  pub length-delete-le : (k : String) (m : List (String × V)) → length (delete k m) ≤ length m
  unfolding delete
  length-delete-le k [] = omega arith
  length-delete-le k ((i, w) ∷ m) = ground (arith, length-delete-le k m)

  -- Writing in the middle: the value of the first entry of the second part.
  pub set-append :
      (k : String) (u v : V) (m n : List (String × V))
      → IsDistinct (m ++ (k, v) ∷ n)
      → set k u (m ++ (k, v) ∷ n) ≡ m ++ (k, u) ∷ n
  unfolding get set
  set-append k u v [] n d = ground (arith, ===_refl k)
  set-append k u v ((i, w) ∷ m) n d =
      ground (arith, eq_iff i k, set-append k u v m n d.1, get-append i m ((k, v) ∷ n))
