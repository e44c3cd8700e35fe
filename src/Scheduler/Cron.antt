-- ===== src/Scheduler/Cron.antt =====
-- Cron expressions of packages/jobs/src/scheduler.ts: `matchesCronField` and `matchesCronExpression`.
pub mod Fields
use Prim.Native.String
use Prim.Native.Char.{code}
use mathlib.Core.Option
use axiomify.Base.{
  ℕ, zero, suc, ◌+◌, ◌-◌, ◌*◌, ◌%◌, String, Bool, true, false, not, ◌&&◌, ◌||◌, Option, none, some,
  List, [], ◌∷◌, if◌then◌else◌, leb, ◌==◌, ◌===◌,
}
use axiomify.Texts.{between, contains, is_space, push_front, split, trim, trim_start}

abbrev pub is_digit : ℕ → Bool
is_digit n = between 48 57 n

-- The number that the digits at the start of the text add to the one read so far.
unfoldable pub take_number : ℕ → String → ℕ
take_number read String.[] = read
take_number read (String.◌∷◌ c s) =
    let rest = take_number (read * 10 + (code c - 48)) s in if is_digit (code c) then rest else read

unfoldable pub parse_digits : String → Option ℕ
parse_digits String.[] = none
parse_digits (String.◌∷◌ c s) =
    if is_digit (code c) then some (take_number 0 (String.◌∷◌ c s)) else none

-- The sign in front of the digits, true for a minus.
unfoldable pub signed_digits : String → Option (Bool × ℕ)
signed_digits String.[] = none
signed_digits (String.◌∷◌ c s) =
    if code c == b'-'
    then Option.map (λ n. (true, n)) (parse_digits s)
    else if code c == b'+'
    then Option.map (λ n. (false, n)) (parse_digits s)
    else Option.map (λ n. (false, n)) (parse_digits (String.◌∷◌ c s))

-- `parseInt(text, 10)`: whether it is negative and its magnitude, or nothing for `NaN`.
unfoldable pub parse_int : String → Option (Bool × ℕ)
parse_int s = signed_digits (trim_start s)

-- Comparisons of a number that is at least 0 with what was parsed.
abbrev pub is_at_least : ℕ → Bool × ℕ → Bool
is_at_least value (true, n) = true
is_at_least value (false, n) = leb n value

abbrev pub is_at_most : ℕ → Bool × ℕ → Bool
is_at_most value (true, n) = (value == 0) && (n == 0)
is_at_most value (false, n) = leb value n

-- Whether the difference to the start is a multiple of the step; by a step of 0 there is none.
abbrev pub is_step_from : ℕ → ℕ → Bool × ℕ → Bool
is_step_from step value (true, n) = (value + n) % step == 0
is_step_from step value (false, n) = leb n value && ((value - n) % step == 0)

abbrev pub piece : ℕ → List String → String
piece n [] = ""
piece zero (p ∷ ps) = p
piece (suc n) (p ∷ ps) = piece n ps

unfoldable pub matches_from : ℕ → String → ℕ → Bool
matches_from step range value =
    if range === "*"
    then value % step == 0
    else elim (parse_int range) [ none ↦ false | some start ↦ is_step_from step value start ]

unfoldable pub matches_step : String → String → ℕ → Bool
matches_step range step value = elim (parse_int step) [
  | none ↦ false
  | some (negative, n) ↦ if negative || (n == 0) then false else matches_from n range value
]

unfoldable pub matches_range : Option (Bool × ℕ) → Option (Bool × ℕ) → ℕ → Bool
matches_range none end value = false
matches_range (some start) none value = false
matches_range (some start) (some end) value = is_at_least value start && is_at_most value end

unfoldable pub matches_exact : Option (Bool × ℕ) → ℕ → Bool
matches_exact none value = false
matches_exact (some n) value = is_at_least value n && is_at_most value n

unfoldable pub some_item : (String → Bool) → List String → Bool
some_item again [] = false
some_item again (item ∷ items) = again (trim item) || some_item again items

-- One call, with the calls on the items of a list.
unfoldable pub field_with : (String → Bool) → String → ℕ → Bool
field_with again field value =
    if field === "*"
    then true
    else if contains b'/' field
    then matches_step (piece 0 (split b'/' field)) (piece 1 (split b'/' field)) value
    else if contains b',' field
    then some_item again (split b',' field)
    else if contains b'-' field
    then matches_range (parse_int (piece 0 (split b'-' field)))
        (parse_int (piece 1 (split b'-' field))) value
    else matches_exact (parse_int field) value

-- The recursion, with fuel for the nesting of the calls.
unfoldable pub field_loop : ℕ → String → ℕ → Bool
field_loop zero field value = false
field_loop (suc fuel) field value = field_with (λ item. field_loop fuel item value) field value

-- An item of a list has no comma, so that two calls are deep enough.
unfoldable pub matches_cron_field : String → ℕ → Bool
matches_cron_field field value = field_loop 2 field value

-- The parts between runs of white space, of a text without white space at its ends.
unfoldable pub words : String → List String
words String.[] = String.[] ∷ []
words (String.◌∷◌ c String.[]) = String.◌∷◌ c String.[] ∷ []
words (String.◌∷◌ c (String.◌∷◌ d s)) =
    let rest = words (String.◌∷◌ d s) in
    if is_space (code c)
    then (if is_space (code d) then rest else String.[] ∷ rest)
    else push_front c rest

-- What is read of a date.
pub record Date : Type 0 where
  pub minute : ℕ
  pub hour : ℕ
  pub day : ℕ
  pub month : ℕ
  pub weekday : ℕ

abbrev pub matches_fields : List String → Date → Bool
matches_fields (minute ∷ hour ∷ day ∷ month ∷ weekday ∷ []) date =
    matches_cron_field minute date.minute
    && matches_cron_field hour date.hour
    && (matches_cron_field day date.day
        && (matches_cron_field month date.month && matches_cron_field weekday date.weekday))
matches_fields fields date = false

unfoldable pub matches_cron_expression : String → Date → Bool
matches_cron_expression pattern date = matches_fields (words (trim pattern)) date
