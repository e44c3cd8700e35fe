-- ===== src/Scheduler/Cron/Fields.antt =====
-- packages/jobs/src/scheduler.ts: the recursion of `matchesCronField` and what a list of items matches.
use Prim.Native.String.{◌++◌}
use Prim.Native.Char.{code}
use axiomify.Base.{
  ◌==◌, ℕ, suc, String, Bool, true, false, List, [], ◌∷◌, ◌===◌, ◌≡◌, ◌≢◌, refl, ap, ◌∙◌, arith,
  All, Bool-cases, inl, inr, eq_iff,
}
use axiomify.Texts.{contains, split, push_front, trim, trim_start, trim_end}
use axiomify.Texts.Cutting.{contains-append, split-append, split_none}
use axiomify.Scheduler.Cron.{field_with, field_loop, some_item, matches_cron_field}

-- No text of the list has the character.
abbrev pub IsWithout : ℕ → List String → Type 0
IsWithout b ps = All (λ p. contains b p ≡ false) ps

push_front-IsWithout :
    (b : ℕ) (c : Prim.Native.Char.Char) (ps : List String)
    → (code c == b) ≡ false
    → IsWithout b ps
    → IsWithout b (push_front c ps)
unfolding contains
push_front-IsWithout b c [] e a = (rw e refl, tt)
push_front-IsWithout b c (p ∷ ps) e (h, a) = (rw (e, h) refl, a)

split-IsWithout : (b : ℕ) (s : String) → IsWithout b (split b s)
unfolding split contains
split-IsWithout b String.[] = (refl, tt)
split-IsWithout b (String.◌∷◌ c s) = elim (Bool-cases (code c == b)) [
  | inl e ↦ rw e (refl, split-IsWithout b s)
  | inr e ↦ rw e (push_front-IsWithout b c (split b s) e (split-IsWithout b s))
]

contains-trim_end : (b : ℕ) (s : String) → contains b s ≡ false → contains b (trim_end s) ≡ false
unfolding contains trim_end
contains-trim_end b String.[] h = refl
contains-trim_end b (String.◌∷◌ c s) h = ground (arith, contains-trim_end b s)

contains-trim_start :
    (b : ℕ) (s : String) → contains b s ≡ false → contains b (trim_start s) ≡ false
unfolding contains trim_start
contains-trim_start b String.[] h = refl
contains-trim_start b (String.◌∷◌ c s) h = ground (arith, contains-trim_start b s)

contains-trim : (b : ℕ) (s : String) → contains b s ≡ false → contains b (trim s) ≡ false
unfolding trim
contains-trim b s h = contains-trim_end b (trim_start s) (contains-trim_start b s h)

field_with_item :
    (g h : String → Bool) (field : String) (value : ℕ)
    → contains b',' field ≡ false
    → field_with g field value ≡ field_with h field value
unfolding field_with
field_with_item g h field value n = rw n refl

some_item_same :
    (g h : String → Bool) (items : List String) (value : ℕ)
    → IsWithout b',' items
    → some_item (λ i. field_with g i value) items ≡ some_item (λ i. field_with h i value) items
unfolding some_item
some_item_same g h [] value a = refl
some_item_same g h (item ∷ items) value (n, a) =
    rw
      (
        field_with_item g h (trim item) value (contains-trim b',' item n),
        some_item_same g h items value a,
      )
      refl

field_with_list :
    (g h : String → Bool) (field : String) (value : ℕ)
    → field_with (λ i. field_with g i value) field value
      ≡ field_with (λ i. field_with h i value) field value
unfolding field_with
field_with_list g h field value =
    rw (some_item_same g h (split b',' field) value (split-IsWithout b',' field)) refl

-- A list with at least two items, as it is written.
abbrev pub comma_list : String → String → List String → String
comma_list first second [] = first ++ String.◌∷◌ "," second
comma_list first second (third ∷ items) = first ++ String.◌∷◌ "," (comma_list second third items)

-- No item holds a comma or a slash.
abbrev pub IsPlain : String → Type 0
IsPlain s = (contains b',' s ≡ false) × (contains b'/' s ≡ false)

split-comma_list :
    (first second : String) (items : List String)
    → All IsPlain (first ∷ second ∷ items)
    → split b',' (comma_list first second items) ≡ first ∷ second ∷ items
split-comma_list first second [] ((n, _), ((m, _), a)) =
    split-append b',' first second "," n refl ∙ ap (λ ps. first ∷ ps) (split_none b',' second m)
split-comma_list first second (third ∷ items) ((n, _), a) =
    split-append b',' first (comma_list second third items) "," n refl
    ∙ ap (λ ps. first ∷ ps) (split-comma_list second third items a)

no_slash :
    (first second : String) (items : List String)
    → All IsPlain (first ∷ second ∷ items)
    → contains b'/' (comma_list first second items) ≡ false
unfolding contains
no_slash first second [] ((_, n), ((_, m), a)) =
    rw (contains-append b'/' first (String.◌∷◌ "," second), n, m) refl
no_slash first second (third ∷ items) ((_, n), a) =
    rw
      (
        contains-append b'/' first (String.◌∷◌ "," (comma_list second third items)),
        n,
        no_slash second third items a,
      )
      refl

a_comma :
    (first second : String) (items : List String)
    → contains b',' (comma_list first second items) ≡ true
unfolding contains
a_comma first second [] = rw (contains-append b',' first (String.◌∷◌ "," second)) (ground arith)
a_comma first second (third ∷ items) =
    rw (contains-append b',' first (String.◌∷◌ "," (comma_list second third items))) (ground arith)

comma-ne-star : (s : String) → contains b',' s ≡ true → s ≢ "*"
unfolding contains
comma-ne-star s h e = let k : contains b',' s ≡ false = ap (contains b',') e in ground arith

not_wildcard : (s : String) → contains b',' s ≡ true → (s === "*") ≡ false
not_wildcard s h = elim (Bool-cases (s === "*")) [
  | inr e ↦ e
  | inl e ↦ absurd (comma-ne-star s h ((eq_iff s "*").0 e))
]

field_with_items :
    (g : String → Bool) (s : String) (value : ℕ)
    → contains b',' s ≡ true
    → contains b'/' s ≡ false
    → field_with g s value ≡ some_item g (split b',' s)
unfolding field_with
field_with_items g s value c n = rw (not_wildcard s c, n, c) refl

some_item_fields :
    (items : List String) (value : ℕ)
    → All IsPlain items
    → some_item (λ i. field_loop 1 i value) items
      ≡ some_item (λ i. matches_cron_field i value) items
unfolding some_item field_loop matches_cron_field
some_item_fields [] value a = refl
some_item_fields (item ∷ items) value ((n, _), a) =
    rw
      (
        field_with_item (λ i. field_loop 0 i value)
            (λ i. field_with (λ j. field_loop 0 j value) i value) (trim item) value
            (contains-trim b',' item n),
        some_item_fields items value a,
      )
      refl

-- However deep the recursion of `matchesCronField` is allowed to go, from two calls on its result is the same;
-- and a list of at least two items, none with a slash, matches a value exactly if one of its items does.
pub field_loop-list :
    (extra : ℕ) (field first second : String) (items : List String) (value : ℕ)
    → All IsPlain (first ∷ second ∷ items)
    → (field_loop (suc (suc extra)) field value ≡ matches_cron_field field value)
      × (matches_cron_field (comma_list first second items) value
          ≡ some_item (λ i. matches_cron_field i value) (first ∷ second ∷ items))
unfolding matches_cron_field field_loop
field_loop-list extra field first second items value a =
    let s = comma_list first second items in
    (
      field_with_list (λ i. field_loop extra i value) (λ i. field_loop 0 i value) field value,
      field_with_items (λ i. field_loop 1 i value) s value (a_comma first second items)
            (no_slash first second items a)
          ∙ ap (some_item (λ i. field_loop 1 i value)) (split-comma_list first second items a)
          ∙ some_item_fields (first ∷ second ∷ items) value a,
    )
