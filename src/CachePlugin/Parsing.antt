-- ===== src/CachePlugin/Parsing.antt =====
-- packages/cache/src/etag.ts: the tags that `parseIfNoneMatch` reads.
use Prim.Native.String.{◌++◌}
use Prim.Native.Char.{code}
use axiomify.Base.{
  ℕ, zero, suc, ◌+◌, ◌≤◌, String, Bool, true, false, ◌||◌, none, some, List, [], ◌∷◌, ◌==◌, ◌===◌,
  ◌≡◌, refl, ap, ◌∙◌, arith, All,
}
use text.Mathlib.TextLemmas.{nil-append, cons-append}
use axiomify.Texts.{contains, char_count, join_comma, join_rest}
use axiomify.Texts.Cutting.{cut-append}
use axiomify.CachePlugin.ETag.{
  weakness, is_separator, take_tag, next_tag, prefixed, parse_loop, parse_if_none_match,
}

-- A tag, weak or not, with its text between the quotes.
abbrev pub entity_tag : Bool → String → String
entity_tag true o = String.◌∷◌ "W" (String.◌∷◌ "/" (String.◌∷◌ "\"" (o ++ "\"")))
entity_tag false o = String.◌∷◌ "\"" (o ++ "\"")

abbrev pub tag_texts : List (Bool × String) → List String
tag_texts [] = []
tag_texts ((w, o) ∷ tags) = entity_tag w o ∷ tag_texts tags

-- No quote between the quotes.
abbrev pub IsOpaque : Bool × String → Type 0
IsOpaque (w, o) = contains b'"' o ≡ false

abbrev pub has_opaque : List (Bool × String) → String → Bool
has_opaque [] o = false
has_opaque ((w, o) ∷ tags) current = (o === current) || has_opaque tags current

char_count-append : (s t : String) → char_count (s ++ t) ≡ char_count s + char_count t
unfolding char_count
char_count-append String.[] t = rw (nil-append t) (omega arith)
char_count-append (String.◌∷◌ c s) t = rw (cons-append c s t) (omega (arith, char_count-append s t))

pub weakness_quote : (s : String) → weakness (String.◌∷◌ "\"" s) ≡ none
unfolding weakness
weakness_quote String.[] = refl
weakness_quote (String.◌∷◌ d s) = refl

pub weakness_slash :
    (s : String)
    → weakness (String.◌∷◌ "W" (String.◌∷◌ "/" (String.◌∷◌ "\"" s)))
      ≡ some ("W/", String.◌∷◌ "\"" s)
unfolding weakness
weakness_slash s = refl

closed_append : (o rest : String) → (o ++ "\"") ++ rest ≡ o ++ String.◌∷◌ "\"" rest
closed_append String.[] rest =
    rw (nil-append "\"", nil-append (String.◌∷◌ "\"" rest))
      (cons-append "\"" "" rest ∙ ap (String.◌∷◌ "\"") (nil-append rest))
closed_append (String.◌∷◌ c o) rest =
    rw
      (cons-append c o "\"", cons-append c (o ++ "\"") rest, cons-append c o (String.◌∷◌ "\"" rest))
      (ap (String.◌∷◌ c) (closed_append o rest))

take_tag-closed :
    (o rest : String)
    → contains b'"' o ≡ false
    → take_tag (String.◌∷◌ "\"" ((o ++ "\"") ++ rest)) ≡ some (String.◌∷◌ "\"" (o ++ "\""), rest)
unfolding take_tag
take_tag-closed o rest h = rw (closed_append o rest, cut-append b'"' o rest "\"" h refl) refl

-- A tag with more behind it.
abbrev tag_then : Bool → String → String → String
tag_then true o rest = String.◌∷◌ "W" (String.◌∷◌ "/" (String.◌∷◌ "\"" ((o ++ "\"") ++ rest)))
tag_then false o rest = String.◌∷◌ "\"" ((o ++ "\"") ++ rest)

pub entity_tag-append : (w : Bool) (o rest : String) → entity_tag w o ++ rest ≡ tag_then w o rest
entity_tag-append true o rest =
    cons-append "W" (String.◌∷◌ "/" (String.◌∷◌ "\"" (o ++ "\""))) rest
    ∙ ap (String.◌∷◌ "W") (
        cons-append "/" (String.◌∷◌ "\"" (o ++ "\"")) rest
        ∙ ap (String.◌∷◌ "/") (cons-append "\"" (o ++ "\"") rest))
entity_tag-append false o rest = cons-append "\"" (o ++ "\"") rest

next_tag_weak :
    (o rest : String)
    → contains b'"' o ≡ false
    → next_tag (tag_then true o rest) ≡ some (entity_tag true o, rest)
unfolding next_tag prefixed
next_tag_weak o rest h =
    let tag = String.◌∷◌ "\"" (o ++ "\"") in
    let joined =
      cons-append "W" "/" tag
      ∙ ap (String.◌∷◌ "W") (cons-append "/" "" tag ∙ ap (String.◌∷◌ "/") (nil-append tag)) in
    rw (weakness_slash ((o ++ "\"") ++ rest), take_tag-closed o rest h)
      (ap (λ t. some (t, rest)) joined)

next_tag_strong :
    (o rest : String)
    → contains b'"' o ≡ false
    → next_tag (tag_then false o rest) ≡ some (entity_tag false o, rest)
unfolding next_tag prefixed
next_tag_strong o rest h = rw (weakness_quote ((o ++ "\"") ++ rest), take_tag-closed o rest h) refl

next_tag-tag_then :
    (w : Bool) (o rest : String)
    → contains b'"' o ≡ false
    → next_tag (tag_then w o rest) ≡ some (entity_tag w o, rest)
next_tag-tag_then true o rest h = next_tag_weak o rest h
next_tag-tag_then false o rest h = next_tag_strong o rest h

parse_loop-next_tag :
    (fuel : ℕ) (c : Prim.Native.Char.Char) (s tag rest : String)
    → is_separator (code c) ≡ false
    → (code c == b'*') ≡ false
    → next_tag (String.◌∷◌ c s) ≡ some (tag, rest)
    → parse_loop (suc fuel) (String.◌∷◌ c s) ≡ tag ∷ parse_loop fuel rest
unfolding parse_loop
parse_loop-next_tag fuel c s tag rest p q e = rw (p, q, e) refl

parse_loop-tag_then :
    (fuel : ℕ) (w : Bool) (o rest : String)
    → contains b'"' o ≡ false
    → parse_loop (suc fuel) (tag_then w o rest) ≡ entity_tag w o ∷ parse_loop fuel rest
parse_loop-tag_then fuel true o rest h =
    parse_loop-next_tag fuel "W" (String.◌∷◌ "/" (String.◌∷◌ "\"" ((o ++ "\"") ++ rest)))
      (entity_tag true o) rest refl refl (next_tag-tag_then true o rest h)
parse_loop-tag_then fuel false o rest h =
    parse_loop-next_tag fuel "\"" ((o ++ "\"") ++ rest) (entity_tag false o) rest refl refl
      (next_tag-tag_then false o rest h)

parse_loop-entity_tag :
    (fuel : ℕ) (w : Bool) (o rest : String)
    → contains b'"' o ≡ false
    → parse_loop (suc fuel) (entity_tag w o ++ rest) ≡ entity_tag w o ∷ parse_loop fuel rest
parse_loop-entity_tag fuel w o rest h =
    rw (entity_tag-append w o rest) (parse_loop-tag_then fuel w o rest h)

parse_separators :
    (fuel : ℕ) (s : String)
    → parse_loop (suc (suc fuel)) (String.◌∷◌ "," (String.◌∷◌ " " s)) ≡ parse_loop fuel s
unfolding parse_loop
parse_separators fuel s = refl

char_count-entity_tag :
    (w : Bool) (o rest : String) → char_count rest + 1 ≤ char_count (entity_tag w o ++ rest)
unfolding char_count
char_count-entity_tag true o rest =
    rw (entity_tag-append true o rest) (omega (arith, char_count-append (o ++ "\"") rest))
char_count-entity_tag false o rest =
    rw (entity_tag-append false o rest) (omega (arith, char_count-append (o ++ "\"") rest))

parse_loop_nothing : (fuel : ℕ) → parse_loop fuel "" ≡ []
unfolding parse_loop
parse_loop_nothing zero = refl
parse_loop_nothing (suc fuel) = refl

parse_loop-join_rest :
    (tags : List (Bool × String)) (fuel : ℕ)
    → All IsOpaque tags
    → char_count (join_rest (tag_texts tags)) ≤ fuel
    → parse_loop fuel (join_rest (tag_texts tags)) ≡ tag_texts tags
unfolding join_rest char_count
parse_loop-join_rest [] fuel a l = parse_loop_nothing fuel
parse_loop-join_rest ((w, o) ∷ tags) zero a l = absurd (omega arith)
parse_loop-join_rest ((w, o) ∷ tags) (suc zero) a l = absurd (omega arith)
parse_loop-join_rest ((w, o) ∷ tags) (suc (suc zero)) a l =
    absurd (omega (arith, char_count-entity_tag w o (join_rest (tag_texts tags))))
parse_loop-join_rest ((w, o) ∷ tags) (suc (suc (suc fuel))) (h, a) l =
    let b = char_count-entity_tag w o (join_rest (tag_texts tags)) in
    rw
      (
        parse_separators (suc fuel) (entity_tag w o ++ join_rest (tag_texts tags)),
        parse_loop-entity_tag fuel w o (join_rest (tag_texts tags)) h,
        parse_loop-join_rest tags fuel a (omega arith),
      )
      refl

above : (m n : ℕ) → m + 1 ≤ n → (k : (k : ℕ) × (m ≤ k)) × (n ≡ suc k.0)
above m zero l = absurd (omega arith)
above m (suc n) l = ((n, omega arith), refl)

pub parse_if_none_match-join_comma :
    (tags : List (Bool × String))
    → All IsOpaque tags
    → parse_if_none_match (join_comma (tag_texts tags)) ≡ tag_texts tags
unfolding parse_if_none_match join_comma
parse_if_none_match-join_comma [] a = parse_loop_nothing (char_count "")
parse_if_none_match-join_comma ((w, o) ∷ tags) (h, a) =
    let b = char_count-entity_tag w o (join_rest (tag_texts tags)) in
    let (fuel, e) =
      above (char_count (join_rest (tag_texts tags)))
        (char_count (entity_tag w o ++ join_rest (tag_texts tags))) b in
    rw e (
      rw
        (
          parse_loop-entity_tag fuel.0 w o (join_rest (tag_texts tags)) h,
          parse_loop-join_rest tags fuel.0 a fuel.1,
        )
        refl)
