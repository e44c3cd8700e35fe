-- ===== src/Texts/Cutting.antt =====
-- The laws of cutting, splitting and trimming texts.
use Prim.Native.String
use Prim.Native.Char.{code}
use axiomify.Base.{
  ◌||◌, ℕ, String, Bool, true, false, not, none, some, [], ◌∷◌, ◌==◌, ◌≡◌, refl, ap, arith,
  Bool-cases, inl, inr,
}
use text.Mathlib.TextLemmas.{nil-append, cons-append}
use axiomify.Texts.{contains, every, cut, cut_last, split, trim_start, trim_end, trim, is_space}

pub every-contains :
    (p : ℕ → Bool) (b : ℕ) (s : String) → p b ≡ false → every p s ≡ true → contains b s ≡ false
unfolding every contains
every-contains p b String.[] n h = refl
every-contains p b (String.◌∷◌ c s) n h = elim (Bool-cases (code c == b)) [
  | inl e ↦
      let q : code c ≡ b = ground arith in
      let r : p (code c) ≡ true = ground arith in absurd (ground (arith, ap p q))
  | inr e ↦ ground (arith, every-contains p b s n)
]

pub cut-append :
    (b : ℕ) (s rest : String) (c : Prim.Native.Char.Char)
    → contains b s ≡ false
    → code c ≡ b
    → cut b (String.◌++◌ s (String.◌∷◌ c rest)) ≡ some (s, rest)
unfolding contains cut
cut-append b String.[] rest c n e = rw (nil-append (String.◌∷◌ c rest)) (ground arith)
cut-append b (String.◌∷◌ d s) rest c n e =
    rw (cons-append d s (String.◌∷◌ c rest)) (ground (arith, cut-append b s rest c))

pub split-append :
    (b : ℕ) (s rest : String) (c : Prim.Native.Char.Char)
    → contains b s ≡ false
    → code c ≡ b
    → split b (String.◌++◌ s (String.◌∷◌ c rest)) ≡ s ∷ split b rest
unfolding contains split
split-append b String.[] rest c n e = rw (nil-append (String.◌∷◌ c rest)) (ground arith)
split-append b (String.◌∷◌ d s) rest c n e =
    rw (cons-append d s (String.◌∷◌ c rest)) (ground (arith, split-append b s rest c))

pub split_none : (b : ℕ) (s : String) → contains b s ≡ false → split b s ≡ s ∷ []
unfolding contains split
split_none b String.[] n = refl
split_none b (String.◌∷◌ d s) n = ground (arith, split_none b s)

-- No white space in the text.
abbrev pub is_solid : String → Bool
is_solid s = every (λ n. not (is_space n)) s

trim_end_solid : (s : String) → is_solid s ≡ true → trim_end s ≡ s
unfolding every trim_end
trim_end_solid String.[] h = refl
trim_end_solid (String.◌∷◌ c s) h = ground (arith, trim_end_solid s)

trim_start_solid : (s : String) → is_solid s ≡ true → trim_start s ≡ s
unfolding every trim_start
trim_start_solid String.[] h = refl
trim_start_solid (String.◌∷◌ c s) h = ground arith

pub trim_solid : (s : String) → is_solid s ≡ true → trim s ≡ s
unfolding trim
trim_solid s h = rw (trim_start_solid s h) (trim_end_solid s h)

pub trim_space :
    (c : Prim.Native.Char.Char) (s : String)
    → is_space (code c) ≡ true
    → trim (String.◌∷◌ c s) ≡ trim s
unfolding trim trim_start
trim_space c s e = rw e refl

cut_last-none : (b : ℕ) (s : String) → contains b s ≡ false → cut_last b s ≡ none
unfolding contains cut_last
cut_last-none b String.[] n = refl
cut_last-none b (String.◌∷◌ d s) n = ground (arith, cut_last-none b s)

pub cut_last-append :
    (b : ℕ) (s rest : String) (c : Prim.Native.Char.Char)
    → contains b rest ≡ false
    → code c ≡ b
    → cut_last b (String.◌++◌ s (String.◌∷◌ c rest)) ≡ some (s, rest)
unfolding contains cut_last
cut_last-append b String.[] rest c n e =
    rw (nil-append (String.◌∷◌ c rest)) (ground (arith, cut_last-none b rest))
cut_last-append b (String.◌∷◌ d s) rest c n e =
    rw (cons-append d s (String.◌∷◌ c rest)) (ground (arith, cut_last-append b s rest c))

pub contains-append :
    (b : ℕ) (s t : String) → contains b (String.◌++◌ s t) ≡ (contains b s || contains b t)
unfolding contains
contains-append b String.[] t = rw (nil-append t) refl
contains-append b (String.◌∷◌ c s) t =
    rw (cons-append c s t) (ground (arith, contains-append b s t))
