-- ===== src/CachePlugin/ETag.antt =====
-- packages/cache/src/etag.ts. The digest of a body is a parameter.
use Prim.Native.String.{◌++◌}
use Prim.Native.Char.{code}
use axiomify.Base.{
  ℕ, zero, suc, String, Bool, false, not, ◌&&◌, ◌||◌, Option, none, some, List, [], ◌∷◌,
  if◌then◌else◌, ◌==◌, ◌===◌,
}
use mathlib.Core.Option
use axiomify.Cookies.{unquote}
use axiomify.Texts.{cut, trim, is_empty, char_count, join_comma}

pub data EtagMode : Type 0 where
  strong weak : EtagMode

-- The digest is the SHA-1 of the body in base64url, cut to 27 characters.
unfoldable pub compute_etag : (String → String) → String → EtagMode → String
compute_etag digest body weak =
    String.◌∷◌ "W" (String.◌∷◌ "/" (String.◌∷◌ "\"" (digest body ++ "\"")))
compute_etag digest body strong = String.◌∷◌ "\"" (digest body ++ "\"")

-- `W/` or `w/` at the start, and what is behind it.
unfoldable pub weakness : String → Option (String × String)
weakness String.[] = none
weakness (String.◌∷◌ c String.[]) = none
weakness (String.◌∷◌ c (String.◌∷◌ d s)) =
    if (code c == b'W' || code c == b'w') && (code d == b'/')
    then some (String.◌∷◌ c (String.◌∷◌ d String.[]), s)
    else none

abbrev pub behind_weakness : Option (String × String) → String → String
behind_weakness none t = t
behind_weakness (some (prefix, rest)) t = rest

unfoldable pub opaque_tag : String → String
opaque_tag tag = let t = trim tag in unquote (behind_weakness (weakness t) t)

abbrev pub is_separator : ℕ → Bool
is_separator n = n == b',' || (n == b' ' || n == 9)

-- The characters up to the next separator, and the rest.
unfoldable pub take_token : String → String × String
take_token String.[] = (String.[], String.[])
take_token (String.◌∷◌ c s) =
    let (token, rest) = take_token s in
    if is_separator (code c) then (String.[], String.◌∷◌ c s) else (String.◌∷◌ c token, rest)

-- The tag that starts the text behind its weakness prefix, and the rest; nothing where a quote is not
-- closed.
unfoldable pub take_tag : String → Option (String × String)
take_tag String.[] = some (take_token String.[])
take_tag (String.◌∷◌ c s) =
    if code c == b'"'
    then elim (cut b'"' s) [
      | none ↦ none
      | some (inside, rest) ↦ some (String.◌∷◌ c (inside ++ "\""), rest)
    ]
    else some (take_token (String.◌∷◌ c s))

unfoldable pub prefixed : Option (String × String) → String → Option (String × String)
prefixed none s = take_tag s
prefixed (some (prefix, behind)) s = Option.map (λ t. (prefix ++ t.0, t.1)) (take_tag behind)

-- The tag with its prefix.
unfoldable pub next_tag : String → Option (String × String)
next_tag s = prefixed (weakness s) s

-- The loop, with the number of characters as fuel.
unfoldable pub parse_loop : ℕ → String → List String
parse_loop zero s = []
parse_loop (suc fuel) String.[] = []
parse_loop (suc fuel) (String.◌∷◌ c s) =
    let skipped = parse_loop fuel s in
    if is_separator (code c)
    then skipped
    else if code c == b'*'
    then "*" ∷ skipped
    else elim (next_tag (String.◌∷◌ c s)) [
      | none ↦ trim (String.◌∷◌ c s) ∷ []
      | some (tag, rest) ↦ tag ∷ parse_loop fuel rest
    ]

unfoldable pub parse_if_none_match : String → List String
parse_if_none_match value = parse_loop (char_count value) value

unfoldable pub has_star : List String → Bool
has_star [] = false
has_star (t ∷ ts) = (t === "*") || has_star ts

unfoldable pub some_matches : List String → String → Bool
some_matches [] current = false
some_matches (t ∷ ts) current = (opaque_tag t === current) || some_matches ts current

unfoldable pub candidates_match : List String → Option String → Bool
candidates_match candidates none = has_star candidates
candidates_match candidates (some etag) =
    has_star candidates || (not (is_empty etag) && some_matches candidates (opaque_tag etag))

-- The header's values, if there are any, against the current tag.
unfoldable pub if_none_match_matches : Option (List String) → Option String → Bool
if_none_match_matches none etag = false
if_none_match_matches (some values) etag =
    let raw = join_comma values in
    if is_empty (trim raw) then false else candidates_match (parse_if_none_match raw) etag
