-- ===== src/Cookies/Reading.antt =====
-- Names, values and headers of cookies, for the parser of packages/core/src/cookies.ts.
use Prim.Native.String.{◌++◌}
use Prim.Native.Char.{code}
use axiomify.Base.{
  ℕ, String, Bool, true, false, not, Option, none, some, List, [], ◌∷◌, ◌≡◌, ◌≢◌, refl, arith, ◌⊎◌,
  eq_iff,
}
use mathlib.Core.List
use mathlib.Core.List.{append_assoc, append-nil}
use axiomify.JsMap
use axiomify.JsMap.{IsDistinct}
use axiomify.JsMap.Laws.{get-append}
use axiomify.Cookies.{unquote}
use axiomify.Texts.Cutting.{every-contains, trim_solid}
use axiomify.Cookies.Printing.{is_token, is_cookie_value, is_cookie_name, pair}
use axiomify.Texts.{contains, every, trim, is_space}

pub every-weaken :
    (p q : ℕ → Bool) (s : String)
    → ((n : ℕ) → p n ≡ true → q n ≡ true)
    → every p s ≡ true
    → every q s ≡ true
unfolding every
every-weaken p q String.[] w h = refl
every-weaken p q (String.◌∷◌ c s) w h =
    let e : p (code c) ≡ true = ground arith in
    let k = w (code c) e in ground (arith, every-weaken p q s w)

token_solid : (n : ℕ) → is_token n ≡ true → not (is_space n) ≡ true
unfolding is_token is_space
token_solid n h = ground arith

pub value_solid : (n : ℕ) → is_cookie_value n ≡ true → not (is_space n) ≡ true
unfolding is_cookie_value is_space
value_solid n h = ground arith

pub unquote_plain : (s : String) → contains b'"' s ≡ false → unquote s ≡ s
unfolding unquote contains
unquote_plain String.[] h = refl
unquote_plain (String.◌∷◌ c s) h = ground arith

pub name_facts :
    (name : String) → is_cookie_name name ≡ true → (name ≢ "") × (every is_token name ≡ true)
unfolding is_cookie_name
name_facts String.[] h = cc h
name_facts (String.◌∷◌ c s) h = (λ e. cc e, ground arith)

pub name_without :
    (b : ℕ) (name : String)
    → is_token b ≡ false
    → is_cookie_name name ≡ true
    → contains b name ≡ false
name_without b name t h = every-contains is_token b name t (name_facts name h).1

pub trim_name : (name : String) → is_cookie_name name ≡ true → trim name ≡ name
trim_name name h = trim_solid name (every-weaken _ _ name token_solid (name_facts name h).1)

-- On the value the encoder gives characters of a cookie value, the decoder undoes it, and without a
-- percent sign nothing was encoded.
pub record IsCodec (encode : String → String) (decode : String → Option String) (value : String)
    : Type 0 where
  pub safe : every is_cookie_value (encode value) ≡ true
  pub decodes : decode (encode value) ≡ some value
  pub plain : contains b'%' (encode value) ≡ false → encode value ≡ value

-- The value is printed as it is without a percent sign, or it is encoded.
abbrev pub IsReadable : String → Type 0
IsReadable value = (contains b'%' value ≡ false) ⊎ (every is_cookie_value value ≡ false)

-- The further cookies of a header.
unfoldable pub more_cookies : (String → String) → List (String × String) → String
more_cookies encode [] = ""
more_cookies encode ((name, value) ∷ cookies) =
    String.◌∷◌ ";" (String.◌∷◌ " " (pair encode name value ++ more_cookies encode cookies))

-- The `Cookie` header that holds the cookies.
unfoldable pub cookie_header : (String → String) → List (String × String) → String
cookie_header encode [] = ""
cookie_header encode ((name, value) ∷ cookies) =
    pair encode name value ++ more_cookies encode cookies

-- The name is a token, the value comes back from the encoder.
abbrev pub IsCookie : (String → String) → (String → Option String) → String × String → Type 0
IsCookie encode decode (name, value) =
    (is_cookie_name name ≡ true) × (IsReadable value × IsCodec encode decode value)

-- None of the names is set yet.
abbrev pub Fresh : List (String × String) → List (String × String) → Type 0
Fresh [] out = Unit
Fresh ((name, value) ∷ cookies) out = (JsMap.get name out ≡ none) × Fresh cookies out

pub Fresh-later :
    (name value : String) (cookies out : List (String × String))
    → JsMap.get name cookies ≡ none
    → Fresh cookies out
    → Fresh cookies (List.◌++◌ out ((name, value) ∷ []))
unfolding JsMap.get
Fresh-later name value [] out n f = tt
Fresh-later name value ((k, v) ∷ cookies) out n (g, f) =
    let a = get-append k out ((name, value) ∷ []) in
    (
      ground (arith, eq_iff k name, eq_iff name k),
      Fresh-later name value cookies out (ground arith) f,
    )

pub Fresh-nil : (cookies : List (String × String)) → Fresh cookies []
unfolding JsMap.get
Fresh-nil [] = tt
Fresh-nil ((name, value) ∷ cookies) = (refl, Fresh-nil cookies)

pub get_nil : (name : String) → JsMap.get {V = String} name [] ≡ none
unfolding JsMap.get
get_nil name = refl
