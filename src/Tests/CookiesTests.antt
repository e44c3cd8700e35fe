-- ===== src/Tests/CookiesTests.antt =====
-- Cookies of packages/core/src/cookies.ts on small inputs, with an encoder for one value.
use Prim.Native.String
use axiomify.Base.{
  String, Option, none, some, List, [], ◌∷◌, if◌then◌else◌, ◌===◌, ◌≡◌, inl, inr, refl,
}
use axiomify.JsMap
use axiomify.Cookies.{
  parse_cookie_header, add_pieces, add_piece, add_cookie, decoded, unquote, drop_last_quote,
}
use axiomify.Cookies.Injecting.{line_feed, IsClean, serialize_cookie-IsClean}
use axiomify.Cookies.Printing.{
  CookieOptions, serialize_cookie, is_token, is_cookie_value, is_cookie_name, encoded, pair,
}
use axiomify.Cookies.Reading.{cookie_header, more_cookies, IsCodec}
use axiomify.Cookies.RoundTrip.{parse_cookie_header-cookie_header}
use axiomify.Cookies.Signing.{sign_cookie_value, unsign_cookie_value, has_secret}
use axiomify.Texts.{contains, every, cut, split, trim, trim_start, trim_end, is_space}

program : Unit {0}
unfolding parse_cookie_header add_pieces add_piece add_cookie decoded unquote drop_last_quote
    contains every cut split trim trim_start trim_end is_space is_token is_cookie_value
    is_cookie_name encoded pair cookie_header more_cookies sign_cookie_value unsign_cookie_value
    has_secret JsMap.get JsMap.set
program = tt

-- Of "a b" and "a%20b" the encoder and the decoder do what those of the language do.
abbrev encode_space : String → String
encode_space v = if v === "a b" then "a%20b" else v

abbrev decode_space : String → Option String
decode_space v = if v === "a%20b" then some "a b" else some v

abbrev two_cookies : List (String × String)
two_cookies = ("id", "7") ∷ ("note", "a b") ∷ []

header_text : cookie_header encode_space two_cookies ≡ "id=7; note=a%20b"
unfolding cookie_header more_cookies pair encoded every is_cookie_value
header_text = refl

number-IsCodec : IsCodec encode_space decode_space "7"
unfolding every contains is_cookie_value
number-IsCodec = record { safe = refl; decodes = refl; plain = λ h. refl }

note-IsCodec : IsCodec encode_space decode_space "a b"
unfolding every contains is_cookie_value
note-IsCodec = record { safe = refl; decodes = refl; plain = λ h. cc h }

parse_cookie_header-cookie_header_example :
    parse_cookie_header decode_space (cookie_header encode_space two_cookies) ≡ two_cookies
unfolding is_cookie_name is_token every is_cookie_value contains JsMap.get
parse_cookie_header-cookie_header_example =
    parse_cookie_header-cookie_header encode_space decode_space two_cookies
      ((refl, (inl refl, number-IsCodec)), ((refl, (inr refl, note-IsCodec)), tt))
      (refl, (refl, tt))

-- In place of the HMAC, the secret behind the value.
abbrev join_secret : String → String → String
join_secret value secret = String.◌++◌ value secret

abbrev decode_letter : String → Option String
decode_letter v = if v === "%41" then some "A" else some v

-- A value that looks like an escape is printed as it is and read back as another one.
escape_lost : parse_cookie_header decode_letter (pair (λ v. v) "n" "%41") ≡ ("n", "A") ∷ []
unfolding program
escape_lost = refl

abbrev plain_options : CookieOptions
plain_options = record {
  domain = none;
  path = some "/app";
  expires = none;
  max_age = some (some "60");
  http_only = none;
  secure = none;
  same_site = none;
  partitioned = none;
  priority = none;
}

serialize_cookie-IsClean_example :
    IsClean line_feed (serialize_cookie encode_space "note" "a b" plain_options)
unfolding every is_cookie_value contains
serialize_cookie-IsClean_example =
    serialize_cookie-IsClean line_feed encode_space "note" "a b" plain_options refl tt refl tt
