-- ===== src/Cookies.antt =====
-- packages/core/src/cookies.ts: parsing, printing and signing of cookies. A text is a list of characters;
-- `encodeURIComponent`, `decodeURIComponent` and the HMAC are parameters.
pub mod Injecting
pub mod Reading
pub mod Printing
pub mod Signing
pub mod RoundTrip
use Prim.Native.String
use Prim.Native.Char.{code}
use mathlib.Core.Option
use axiomify.Base.{
  ℕ, ◌+◌, String, Bool, true, false, not, ◌&&◌, ◌||◌, Option, none, some, List, [], ◌∷◌,
  if◌then◌else◌, ltb, leb, ◌==◌, ◌===◌,
}
use axiomify.JsMap
use axiomify.Texts.{split, cut, trim, contains}

-- `value.slice(1, -1)` without the first character, where the last one is a quote.
unfoldable pub drop_last_quote : String → Option String
drop_last_quote String.[] = none
drop_last_quote (String.◌∷◌ c String.[]) = if code c == b'"' then some String.[] else none
drop_last_quote (String.◌∷◌ c (String.◌∷◌ d s)) =
    Option.map (λ t. String.◌∷◌ c t) (drop_last_quote (String.◌∷◌ d s))

-- The quotes around a value of at least two characters are taken off.
unfoldable pub unquote : String → String
unquote String.[] = String.[]
unquote (String.◌∷◌ c s) =
    if code c == b'"' then Option.get_or (drop_last_quote s) (String.◌∷◌ c s) else String.◌∷◌ c s

module _ (decode : String → Option String) where
  -- A value with a percent sign is decoded, or kept where that throws.
  unfoldable pub decoded : String → String
  decoded value = if contains b'%' value then Option.get_or (decode value) value else value

  unfoldable pub add_cookie : String → String → List (String × String) → List (String × String)
  add_cookie name value out =
      let more = JsMap.set name (decoded (unquote (trim value))) out in
      if name === "" then out else elim (JsMap.get name out) [ none ↦ more | some first ↦ out ]

  unfoldable pub add_piece : String → List (String × String) → List (String × String)
  add_piece piece out = elim (cut b'=' piece) [
    | none ↦ out
    | some (name, value) ↦ add_cookie (trim name) value out
  ]

  unfoldable pub add_pieces : List String → List (String × String) → List (String × String)
  add_pieces [] out = out
  add_pieces (piece ∷ pieces) out = add_pieces pieces (add_piece piece out)

  -- The pieces between the semicolons, one after the other.
  unfoldable pub parse_cookie_header : String → List (String × String)
  parse_cookie_header header = add_pieces (split b';' header) []
