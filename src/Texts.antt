-- ===== src/Texts.antt =====
-- The operations on texts that packages/core/src/cookies.ts and packages/cache/src/etag.ts use.
pub mod Cutting
use Prim.Native.String.{◌++◌}
use Prim.Native.Char.{code}
use axiomify.Base.{
  suc, ℕ, String, Bool, true, false, ◌&&◌, ◌||◌, Option, none, some, List, [], ◌∷◌, if◌then◌else◌,
  leb, ◌==◌,
}
use mathlib.Core.Option

abbrev pub between : ℕ → ℕ → ℕ → Bool
between lo hi n = leb lo n && leb n hi

-- White space and line ends, which `trim` takes off.
unfoldable pub is_space : ℕ → Bool
is_space n =
    between 9 13 n
    || n == 32
    || n == 160
    || n == 5760
    || between 8192 8202 n
    || between 8232 8233 n
    || n == 8239
    || n == 8287
    || n == 12288
    || n == 65279

unfoldable pub contains : ℕ → String → Bool
contains b String.[] = false
contains b (String.◌∷◌ c s) = (code c == b) || contains b s

unfoldable pub every : (ℕ → Bool) → String → Bool
every p String.[] = true
every p (String.◌∷◌ c s) = p (code c) && every p s

-- The parts before and after the first character of the code.
unfoldable pub cut : ℕ → String → Option (String × String)
cut b String.[] = none
cut b (String.◌∷◌ c s) =
    let rest = Option.map (λ r. (String.◌∷◌ c r.0, r.1)) (cut b s) in
    if code c == b then some (String.[], s) else rest

-- The parts before and after the last character of the code.
unfoldable pub cut_last : ℕ → String → Option (String × String)
cut_last b String.[] = none
cut_last b (String.◌∷◌ c s) = elim (cut_last b s) [
  | some (x, y) ↦ some (String.◌∷◌ c x, y)
  | none ↦ if code c == b then some (String.[], s) else none
]

abbrev pub push_front : Prim.Native.Char.Char → List String → List String
push_front c [] = String.◌∷◌ c String.[] ∷ []
push_front c (s ∷ ss) = String.◌∷◌ c s ∷ ss

unfoldable pub split : ℕ → String → List String
split b String.[] = String.[] ∷ []
split b (String.◌∷◌ c s) =
    let rest = split b s in if code c == b then String.[] ∷ rest else push_front c rest

unfoldable pub trim_start : String → String
trim_start String.[] = String.[]
trim_start (String.◌∷◌ c s) =
    let rest = trim_start s in if is_space (code c) then rest else String.◌∷◌ c s

abbrev pub is_empty : String → Bool
is_empty String.[] = true
is_empty (String.◌∷◌ c s) = false

unfoldable pub trim_end : String → String
trim_end String.[] = String.[]
trim_end (String.◌∷◌ c s) =
    let rest = trim_end s in
    if is_space (code c) && is_empty rest then String.[] else String.◌∷◌ c rest

unfoldable pub trim : String → String
trim s = trim_end (trim_start s)

unfoldable pub char_count : String → ℕ
char_count String.[] = 0
char_count (String.◌∷◌ c s) = suc (char_count s)

-- What `join(', ')` puts behind the first text.
unfoldable pub join_rest : List String → String
join_rest [] = ""
join_rest (m ∷ ms) = String.◌∷◌ "," (String.◌∷◌ " " (m ++ join_rest ms))

-- `join(', ')`.
unfoldable pub join_comma : List String → String
join_comma [] = ""
join_comma (m ∷ ms) = m ++ join_rest ms
