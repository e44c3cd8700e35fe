-- ===== src/Cookies/Injecting.antt =====
-- `serializeCookie` of packages/core/src/cookies.ts: nothing that it prints breaks the line of the header.
use Prim.Native.String.{◌++◌}
use mathlib.Core.Option
use axiomify.Base.{
  ℕ, String, Bool, true, false, Option, none, some, ◌≡◌, refl, arith, Bool-cases, inl, inr, ◌==◌,
  Option-cases,
}
use axiomify.Texts.{between, contains, every, is_empty}
use axiomify.Texts.Cutting.{every-contains, contains-append}
use axiomify.Cookies.Reading.{name_facts}
use axiomify.Cookies.Printing.{
  SameSite, strict, lax, none_site, CookieOptions, is_token, is_cookie_value, is_cookie_name,
  encoded, pair, is_attribute, adding, domain_part, path_part, checked_part, flag_part, site_text,
  security, partitioned_part, priority_part, attributes, serialize_cookie,
}

pub data Control : Type 0 where
  carriage_return line_feed nul : Control

abbrev pub control_code : Control → ℕ
control_code carriage_return = 13
control_code line_feed = 10
control_code nul = 0

-- The text, where there is one, is without the character.
abbrev pub IsClean : Control → Option String → Type 0
IsClean k none = Unit
IsClean k (some s) = contains (control_code k) s ≡ false

-- The same of a text that may be invalid.
abbrev pub IsCleanDate : Control → Option (Option String) → Type 0
IsCleanDate k none = Unit
IsCleanDate k (some text) = IsClean k text

abbrev is_printable : ℕ → Bool
is_printable n = between 32 126 n

literal-clean :
    (k : Control) (s : String) → every is_printable s ≡ true → contains (control_code k) s ≡ false
literal-clean carriage_return s h = every-contains is_printable 13 s refl h
literal-clean line_feed s h = every-contains is_printable 10 s refl h
literal-clean nul s h = every-contains is_printable 0 s refl h

append-clean :
    (k : Control) (s t : String)
    → contains (control_code k) s ≡ false
    → contains (control_code k) t ≡ false
    → contains (control_code k) (s ++ t) ≡ false
append-clean k s t a b = rw (contains-append (control_code k) s t, a, b) refl

attribute-clean :
    (k : Control) (s : String) → is_attribute s ≡ true → contains (control_code k) s ≡ false
unfolding is_attribute
attribute-clean carriage_return s h = ground arith
attribute-clean line_feed s h = ground arith
attribute-clean nul s h = ground arith

adding-IsClean :
    (k : Control) (out more : Option String)
    → IsClean k out
    → IsClean k more
    → IsClean k (adding out more)
unfolding adding
adding-IsClean k none more a b = tt
adding-IsClean k (some s) none a b = tt
adding-IsClean k (some s) (some t) a b = append-clean k s t a b

titled-IsClean :
    (k : Control) (title s : String)
    → every is_printable title ≡ true
    → is_attribute s ≡ true
    → contains (control_code k) (title ++ s) ≡ false
titled-IsClean k title s t h =
    append-clean k title s (literal-clean k title t) (attribute-clean k s h)

domain_part-IsClean : (k : Control) (domain : Option String) → IsClean k (domain_part domain)
unfolding domain_part every
domain_part-IsClean k none = literal-clean k "" refl
domain_part-IsClean k (some d) = elim (Bool-cases (is_empty d)) [
  | inl e ↦ rw e (literal-clean k "" refl)
  | inr e ↦ elim (Bool-cases (is_attribute d)) [
    | inl h ↦ rw (e, h) (titled-IsClean k "; Domain=" d refl h)
    | inr h ↦ rw (e, h) tt
  ]
]

path_part-IsClean : (k : Control) (path : String) → IsClean k (path_part path)
unfolding path_part every
path_part-IsClean k path = elim (Bool-cases (is_attribute path)) [
  | inl h ↦ rw h (titled-IsClean k "; Path=" path refl h)
  | inr h ↦ rw h tt
]

checked_part-IsClean :
    (k : Control) (title : String) (text : Option (Option String))
    → every is_printable title ≡ true
    → IsCleanDate k text
    → IsClean k (checked_part title text)
unfolding checked_part every
checked_part-IsClean k title none t d = literal-clean k "" refl
checked_part-IsClean k title (some none) t d = tt
checked_part-IsClean k title (some (some s)) t d =
    append-clean k title s (literal-clean k title t) d

flag_part-clean :
    (k : Control) (title : String) (on : Bool)
    → every is_printable title ≡ true
    → contains (control_code k) (flag_part title on) ≡ false
unfolding flag_part every
flag_part-clean k title true t = literal-clean k title t
flag_part-clean k title false t = literal-clean k "" refl

site_text-clean :
    (k : Control) (site : SameSite) → contains (control_code k) (site_text site) ≡ false
unfolding site_text every
site_text-clean k strict = literal-clean k "Strict" refl
site_text-clean k lax = literal-clean k "Lax" refl
site_text-clean k none_site = literal-clean k "None" refl

partitioned_part-IsClean : (k : Control) (secure on : Bool) → IsClean k (partitioned_part secure on)
unfolding partitioned_part every
partitioned_part-IsClean k true true = literal-clean k "; Partitioned" refl
partitioned_part-IsClean k false true = tt
partitioned_part-IsClean k secure false = literal-clean k "" refl

priority_part-clean :
    (k : Control) (text : Option String)
    → IsClean k text
    → contains (control_code k) (priority_part text) ≡ false
unfolding priority_part every
priority_part-clean k none c = literal-clean k "" refl
priority_part-clean k (some s) c =
    append-clean k "; Priority=" s (literal-clean k "; Priority=" refl) c

token_control : (k : Control) → is_token (control_code k) ≡ false
unfolding is_token
token_control carriage_return = refl
token_control line_feed = refl
token_control nul = refl

value_control : (k : Control) → is_cookie_value (control_code k) ≡ false
unfolding is_cookie_value
value_control carriage_return = refl
value_control line_feed = refl
value_control nul = refl

not_equals : (k : Control) → (61 == control_code k) ≡ false
not_equals carriage_return = refl
not_equals line_feed = refl
not_equals nul = refl

every-encoded :
    (encode : String → String) (value : String)
    → every is_cookie_value (encode value) ≡ true
    → every is_cookie_value (encoded encode value) ≡ true
unfolding encoded
every-encoded encode value e = ground arith

pair-clean :
    (k : Control) (encode : String → String) (name value : String)
    → is_cookie_name name ≡ true
    → every is_cookie_value (encode value) ≡ true
    → contains (control_code k) (pair encode name value) ≡ false
unfolding pair contains
pair-clean k encode name value n e =
    let first =
      every-contains is_token (control_code k) name (token_control k) (name_facts name n).1 in
    let second =
      every-contains is_cookie_value (control_code k) (encoded encode value) (value_control k)
        (every-encoded encode value e) in
    rw
      (
        contains-append (control_code k) name (String.◌∷◌ "=" (encoded encode value)),
        first,
        not_equals k,
      )
      second

attributes-IsClean :
    (k : Control) (o : CookieOptions) (secure : Bool) (out : String)
    → contains (control_code k) out ≡ false
    → IsCleanDate k o.expires
    → IsCleanDate k o.max_age
    → IsClean k o.priority
    → IsClean k (attributes o secure out)
unfolding attributes every
attributes-IsClean k o secure out c e m p =
    let site = Option.get_or o.same_site lax in
    let flags =
      append-clean k (flag_part "; HttpOnly" (Option.get_or o.http_only true))
        (flag_part "; Secure" secure ++ ("; SameSite=" ++ site_text site))
        (flag_part-clean k "; HttpOnly" (Option.get_or o.http_only true) refl)
        (append-clean k (flag_part "; Secure" secure) ("; SameSite=" ++ site_text site)
          (flag_part-clean k "; Secure" secure refl)
          (append-clean k "; SameSite=" (site_text site) (literal-clean k "; SameSite=" refl)
            (site_text-clean k site))) in
    let d = adding-IsClean k (some out) (domain_part o.domain) c (domain_part-IsClean k o.domain) in
    let path = path_part (Option.get_or o.path "/") in
    let d2 = adding-IsClean k _ path d (path_part-IsClean k (Option.get_or o.path "/")) in
    let d3 =
      adding-IsClean k _ (checked_part "; Expires=" o.expires) d2
        (checked_part-IsClean k "; Expires=" o.expires refl e) in
    let d4 =
      adding-IsClean k _ (checked_part "; Max-Age=" o.max_age) d3
        (checked_part-IsClean k "; Max-Age=" o.max_age refl m) in
    let d5 = adding-IsClean k _ (some _) d4 flags in
    let on = Option.get_or o.partitioned false in
    let d6 =
      adding-IsClean k _ (partitioned_part secure on) d5 (partitioned_part-IsClean k secure on) in
    adding-IsClean k _ (some (priority_part o.priority)) d6 (priority_part-clean k o.priority p)

-- A header that `serializeCookie` prints holds no carriage return, line feed or NUL, whatever the name, the
-- value, the domain and the path are, where the encoder gives characters of a cookie value and the
-- texts of the dates, the maximum age and the priority hold none.
pub serialize_cookie-IsClean :
    (k : Control) (encode : String → String) (name value : String) (o : CookieOptions)
    → every is_cookie_value (encode value) ≡ true
    → IsCleanDate k o.expires
    → IsCleanDate k o.max_age
    → IsClean k o.priority
    → IsClean k (serialize_cookie encode name value o)
unfolding serialize_cookie
serialize_cookie-IsClean k encode name value o v e m p = elim (Bool-cases (is_cookie_name name)) [
  | inr n ↦ rw n tt
  | inl n ↦ rw n (elim (Option-cases (security (Option.get_or o.same_site lax) o.secure)) [
    | inl s ↦ rw s tt
    | inr (secure, s) ↦ rw s (
        attributes-IsClean k o secure (pair encode name value) (pair-clean k encode name value n v)
          e m p)
  ])
]
