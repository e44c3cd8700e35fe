-- ===== src/CachePlugin/Revalidating.antt =====
-- packages/cache/src/etag.ts: which entity tags match.
use Prim.Native.String.{◌++◌}
use Prim.Native.Char.{code}
use axiomify.Base.{
  ◌≢◌, ℕ, String, Bool, true, false, not, ◌&&◌, some, List, [], ◌∷◌, ◌==◌, ◌===◌, ◌≡◌, refl, sym,
  ap, ◌∙◌, arith, All, eq_iff, Bool-cases, inl, inr,
}
use mathlib.Core.Option
use text.Mathlib.TextLemmas.{nil-append, cons-append}
use axiomify.Cookies.{unquote, drop_last_quote}
use axiomify.Texts.{trim, trim_start, trim_end, is_space, is_empty, join_comma, join_rest}
use axiomify.CachePlugin.ETag.{
  EtagMode, strong, weak, compute_etag, opaque_tag, parse_if_none_match, has_star, some_matches,
  candidates_match, if_none_match_matches,
}
use axiomify.CachePlugin.Parsing.{
  entity_tag, tag_texts, IsOpaque, has_opaque, weakness_quote, weakness_slash, entity_tag-append,
  parse_if_none_match-join_comma,
}

is_empty-quote : (s : String) → is_empty (s ++ "\"") ≡ false
is_empty-quote String.[] = refl
is_empty-quote (String.◌∷◌ c s) = rw (cons-append c s "\"") refl

trim_end-quote : (s : String) → trim_end (s ++ "\"") ≡ s ++ "\""
unfolding trim_end is_space
trim_end-quote String.[] = rw (nil-append "\"") refl
trim_end-quote (String.◌∷◌ c s) =
    rw (cons-append c s "\"") (rw (trim_end-quote s) (ground (arith, is_empty-quote s)))

drop_last_quote-quote : (s : String) → drop_last_quote (s ++ "\"") ≡ some s
unfolding drop_last_quote
drop_last_quote-quote String.[] = refl
drop_last_quote-quote (String.◌∷◌ c String.[]) = rw (cons-append c "" "\"") refl
drop_last_quote-quote (String.◌∷◌ c (String.◌∷◌ d s)) =
    rw (cons-append c (String.◌∷◌ d s) "\"", cons-append d s "\"")
      (ap (Option.map (λ t. String.◌∷◌ c t))
        (ap drop_last_quote (sym (cons-append d s "\"")) ∙ drop_last_quote-quote (String.◌∷◌ d s)))

unquote-quote : (o : String) → unquote (String.◌∷◌ "\"" (o ++ "\"")) ≡ o
unfolding unquote
unquote-quote o = rw (drop_last_quote-quote o) refl

trim-entity_tag : (w : Bool) (o : String) → trim (entity_tag w o) ≡ entity_tag w o
unfolding trim trim_start trim_end is_space
trim-entity_tag true o = rw (trim_end-quote o) refl
trim-entity_tag false o = rw (trim_end-quote o) refl

opaque_tag-entity_tag : (w : Bool) (o : String) → opaque_tag (entity_tag w o) ≡ o
unfolding opaque_tag
opaque_tag-entity_tag true o =
    rw (trim-entity_tag true o, weakness_slash (o ++ "\"")) (unquote-quote o)
opaque_tag-entity_tag false o =
    rw (trim-entity_tag false o, weakness_quote (o ++ "\"")) (unquote-quote o)

abbrev first_code : String → ℕ
first_code String.[] = 0
first_code (String.◌∷◌ c s) = code c

apart : (m n : ℕ) → (m == n) ≡ false → m ≢ n
apart m n h e = ground arith

entity_tag-ne-star : (w : Bool) (o : String) → entity_tag w o ≢ "*"
entity_tag-ne-star true o e = absurd (apart 87 42 refl (ap first_code e))
entity_tag-ne-star false o e = absurd (apart 34 42 refl (ap first_code e))

not_star : (w : Bool) (o : String) → (entity_tag w o === "*") ≡ false
not_star w o = elim (Bool-cases (entity_tag w o === "*")) [
  | inr e ↦ e
  | inl e ↦ absurd (entity_tag-ne-star w o ((eq_iff (entity_tag w o) "*").0 e))
]

has_star-tag_texts : (tags : List (Bool × String)) → has_star (tag_texts tags) ≡ false
unfolding has_star
has_star-tag_texts [] = refl
has_star-tag_texts ((w, o) ∷ tags) = rw (not_star w o, has_star-tag_texts tags) refl

some_matches-tag_texts :
    (tags : List (Bool × String)) (o : String) → some_matches (tag_texts tags) o ≡ has_opaque tags o
unfolding some_matches
some_matches-tag_texts [] o = refl
some_matches-tag_texts ((w, p) ∷ tags) o =
    rw (opaque_tag-entity_tag w p, some_matches-tag_texts tags o) refl

is_empty-trim-first :
    (c : Prim.Native.Char.Char) (s : String)
    → is_space (code c) ≡ false
    → is_empty (trim (String.◌∷◌ c s)) ≡ false
unfolding trim trim_start trim_end
is_empty-trim-first c s e = rw e (ground arith)

is_empty-trim-tag : (w : Bool) (o rest : String) → is_empty (trim (entity_tag w o ++ rest)) ≡ false
unfolding is_space
is_empty-trim-tag true o rest =
    rw (entity_tag-append true o rest)
      (is_empty-trim-first "W" (String.◌∷◌ "/" (String.◌∷◌ "\"" ((o ++ "\"") ++ rest))) refl)
is_empty-trim-tag false o rest =
    rw (entity_tag-append false o rest) (is_empty-trim-first "\"" ((o ++ "\"") ++ rest) refl)

abbrev is_weak : EtagMode → Bool
is_weak weak = true
is_weak strong = false

compute_etag-entity_tag :
    (digest : String → String) (body : String) (mode : EtagMode)
    → compute_etag digest body mode ≡ entity_tag (is_weak mode) (digest body)
unfolding compute_etag
compute_etag-entity_tag digest body weak = refl
compute_etag-entity_tag digest body strong = refl

nonempty : (w : Bool) (o : String) → is_empty (entity_tag w o) ≡ false
nonempty true o = refl
nonempty false o = refl

matches_nothing :
    (digest : String → String) (body : String) (mode : EtagMode)
    → if_none_match_matches (some []) (some (compute_etag digest body mode)) ≡ false
unfolding if_none_match_matches join_comma trim trim_start trim_end
matches_nothing digest body mode = refl

matches_parsed :
    (tags : List (Bool × String)) (digest : String → String) (body : String) (mode : EtagMode)
    → candidates_match (tag_texts tags) (some (compute_etag digest body mode))
      ≡ has_opaque tags (digest body)
unfolding candidates_match
matches_parsed tags digest body mode =
    rw
      (
        compute_etag-entity_tag digest body mode,
        has_star-tag_texts tags,
        opaque_tag-entity_tag (is_weak mode) (digest body),
        some_matches-tag_texts tags (digest body),
      )
      (ap (λ b. not b && has_opaque tags (digest body)) (nonempty (is_weak mode) (digest body)))

-- `If-None-Match` with the values of a list of entity tags, each without a quote between its quotes, is read
-- as these tags, and it matches the tag computed of a body exactly where one of them has the digest of the
-- body between its quotes, whether the tags are weak or strong.
pub if_none_match_matches-compute_etag :
    (tags : List (Bool × String)) (digest : String → String) (body : String) (mode : EtagMode)
    → All IsOpaque tags
    → (parse_if_none_match (join_comma (tag_texts tags)) ≡ tag_texts tags)
      × (if_none_match_matches (some (tag_texts tags)) (some (compute_etag digest body mode))
          ≡ has_opaque tags (digest body))
unfolding if_none_match_matches join_comma
if_none_match_matches-compute_etag [] digest body mode a =
    (parse_if_none_match-join_comma [] a, matches_nothing digest body mode)
if_none_match_matches-compute_etag ((w, o) ∷ tags) digest body mode a =
    let p = parse_if_none_match-join_comma ((w, o) ∷ tags) a in
    (
      p,
      rw (is_empty-trim-tag w o (join_rest (tag_texts tags))) (
          ap (λ ts. candidates_match ts (some (compute_etag digest body mode))) p
          ∙ matches_parsed ((w, o) ∷ tags) digest body mode),
    )
