-- ===== src/Cookies/Printing.antt =====
-- `serializeCookie`, `setCookie` and `clearCookie` of packages/core/src/cookies.ts. A date is its text by
-- `toUTCString`, or nothing where it is invalid; a maximum age is the decimal text of its floor, or nothing
-- where it is not finite.
use Prim.Native.String.{◌++◌}
use mathlib.Core.Option
use axiomify.Base.{
  ℕ, String, Bool, true, false, not, ◌&&◌, ◌||◌, Option, none, some, if◌then◌else◌, ◌==◌,
}
use axiomify.Texts.{between, contains, every, is_empty}

pub data SameSite : Type 0 where
  strict lax none_site : SameSite

pub record CookieOptions : Type 0 where
  pub domain : Option String
  pub path : Option String
  pub expires : Option (Option String)
  pub max_age : Option (Option String)
  pub http_only : Option Bool
  pub secure : Option Bool
  pub same_site : Option SameSite
  pub partitioned : Option Bool
  -- The value of the attribute, its first letter in upper case.
  pub priority : Option String

-- `COOKIE_NAME_PATTERN` and `COOKIE_VALUE_PATTERN`, on one character.
unfoldable pub is_token : ℕ → Bool
is_token n =
    n == 33
    || between 35 39 n
    || between 42 43 n
    || between 45 46 n
    || between 48 57 n
    || between 65 90 n
    || between 94 122 n
    || n == 124
    || n == 126

unfoldable pub is_cookie_value : ℕ → Bool
is_cookie_value n =
    n == 33 || between 35 43 n || between 45 58 n || between 60 91 n || between 93 126 n

unfoldable pub is_cookie_name : String → Bool
is_cookie_name name = not (is_empty name) && every is_token name

unfoldable pub encoded : (String → String) → String → String
encoded encode value = if every is_cookie_value value then value else encode value

unfoldable pub pair : (String → String) → String → String → String
pair encode name value = name ++ String.◌∷◌ "=" (encoded encode value)

-- What `assertCookieAttr` lets through: no semicolon, carriage return, line feed or NUL.
unfoldable pub is_attribute : String → Bool
is_attribute value =
    not (contains b';' value || contains 13 value || contains 10 value || contains 0 value)

-- The next part of the header behind what there is, or the error before.
unfoldable pub adding : Option String → Option String → Option String
adding none more = none
adding (some out) none = none
adding (some out) (some more) = some (out ++ more)

unfoldable pub domain_part : Option String → Option String
domain_part none = some ""
domain_part (some domain) =
    if is_empty domain
    then some ""
    else if is_attribute domain
    then some ("; Domain=" ++ domain)
    else none

unfoldable pub path_part : String → Option String
path_part path = if is_attribute path then some ("; Path=" ++ path) else none

-- An optional text that may be invalid.
unfoldable pub checked_part : String → Option (Option String) → Option String
checked_part title none = some ""
checked_part title (some none) = none
checked_part title (some (some text)) = some (title ++ text)

unfoldable pub flag_part : String → Bool → String
flag_part title on = if on then title else ""

unfoldable pub site_text : SameSite → String
site_text strict = "Strict"
site_text lax = "Lax"
site_text none_site = "None"

-- Whether the cookie is secure, and nothing where `SameSite=None` meets `secure: false`.
unfoldable pub security : SameSite → Option Bool → Option Bool
security strict secure = some (Option.get_or secure false)
security lax secure = some (Option.get_or secure false)
security none_site secure = if Option.get_or secure true then some true else none

unfoldable pub partitioned_part : Bool → Bool → Option String
partitioned_part secure on = if on then (if secure then some "; Partitioned" else none) else some ""

unfoldable pub priority_part : Option String → String
priority_part none = ""
priority_part (some text) = "; Priority=" ++ text

unfoldable pub attributes : CookieOptions → Bool → String → Option String
attributes o secure out =
    let site = Option.get_or o.same_site lax in
    let flags =
      flag_part "; HttpOnly" (Option.get_or o.http_only true)
      ++ (flag_part "; Secure" secure ++ ("; SameSite=" ++ site_text site)) in
    let dated =
      adding
        (adding
          (adding (adding (some out) (domain_part o.domain)) (path_part (Option.get_or o.path "/")))
          (checked_part "; Expires=" o.expires))
        (checked_part "; Max-Age=" o.max_age) in
    adding
      (adding (adding dated (some flags))
        (partitioned_part secure (Option.get_or o.partitioned false)))
      (some (priority_part o.priority))

-- The header, or nothing where the call throws.
unfoldable pub serialize_cookie :
    (String → String) → String → String → CookieOptions → Option String
serialize_cookie encode name value o =
    if is_cookie_name name
    then elim (security (Option.get_or o.same_site lax) o.secure) [
      | none ↦ none
      | some secure ↦ attributes o secure (pair encode name value)
    ]
    else none
