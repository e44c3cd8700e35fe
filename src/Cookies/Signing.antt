-- ===== src/Cookies/Signing.antt =====
-- `signCookieValue` and `unsignCookieValue` of packages/core/src/cookies.ts. The HMAC of a value with a secret,
-- in base64url, is a parameter; its text has no dot.
use Prim.Native.String.{◌∷◌, ◌++◌}
use Prim.Native.Char.{code}
use axiomify.Base.{
  String, Bool, true, false, not, ◌&&◌, ◌||◌, Option, none, some, List, [], ◌∷◌, if◌then◌else◌,
  ◌==◌, ◌===◌, ===_refl, ◌≡◌, refl, arith,
}
use mathlib.Core.List
use mathlib.Core.Option
use axiomify.Texts.{contains, cut_last, is_empty}
use axiomify.Texts.Cutting.{cut_last-append}

-- The text behind the `s:` at its start.
unfoldable pub signed_part : String → Option String
signed_part String.[] = none
signed_part (String.◌∷◌ c String.[]) = none
signed_part (String.◌∷◌ c (String.◌∷◌ d s)) =
    if (code c == b's') && (code d == b':') then some s else none

module _ (hmac : String → String → String) where
  -- The signed value, or nothing where the secret is empty.
  unfoldable pub sign_cookie_value : String → String → Option String
  sign_cookie_value value secret =
      if is_empty secret
      then none
      else some (String.◌∷◌ "s" (String.◌∷◌ ":" (value ++ String.◌∷◌ "." (hmac value secret))))

  -- Whether one of the secrets gives the HMAC; an empty one is left out.
  unfoldable pub has_secret : List String → String → String → Bool
  has_secret [] value mac = false
  has_secret (secret ∷ secrets) value mac =
      (not (is_empty secret) && (mac === hmac value secret)) || has_secret secrets value mac

  unfoldable pub verified : List String → String × String → Option String
  verified secrets (value, mac) = if has_secret secrets value mac then some value else none

  -- The value of a signed text, or nothing where it is not valid.
  unfoldable pub unsign_cookie_value : String → List String → Option String
  unsign_cookie_value signed secrets =
      Option.bind (signed_part signed) (λ rest. Option.bind (cut_last b'.' rest) (verified secrets))

  has_secret_there :
      (before after : List String) (value secret : String)
      → is_empty secret ≡ false
      → has_secret (List.◌++◌ before (secret ∷ after)) value (hmac value secret) ≡ true
  unfolding has_secret
  has_secret_there [] after value secret n = rw (n, ===_refl (hmac value secret)) refl
  has_secret_there (s ∷ before) after value secret n =
      ground (arith, has_secret_there before after value secret n)

  unsign_parts :
      (value mac : String) (secrets : List String)
      → contains b'.' mac ≡ false
      → unsign_cookie_value (String.◌∷◌ "s" (String.◌∷◌ ":" (value ++ String.◌∷◌ "." mac))) secrets
        ≡ (if has_secret secrets value mac then some value else none)
  unfolding unsign_cookie_value signed_part Option.bind verified
  unsign_parts value mac secrets n = let k = cut_last-append b'.' value mac "." n refl in rw k refl

  -- A value signed with a secret that is not empty is read back wherever the secret stands in the list, and
  -- with any other list it is read back where a secret that is not empty gives the same HMAC, and is refused
  -- else, when the text of the HMAC has no dot.
  pub unsign_cookie_value-sign_cookie_value :
      (value secret : String) (before after others : List String)
      → is_empty secret ≡ false
      → contains b'.' (hmac value secret) ≡ false
      → (Option.bind
            (sign_cookie_value value secret)
            (λ signed. unsign_cookie_value signed (List.◌++◌ before (secret ∷ after)))
          ≡ some value)
        × (Option.bind
              (sign_cookie_value value secret)
              (λ signed. unsign_cookie_value signed others)
            ≡ (if has_secret others value (hmac value secret) then some value else none))
  unfolding sign_cookie_value Option.bind
  unsign_cookie_value-sign_cookie_value value secret before after others e n =
      rw
        (
          e,
          unsign_parts value (hmac value secret) (List.◌++◌ before (secret ∷ after)) n,
          unsign_parts value (hmac value secret) others n,
          has_secret_there before after value secret e,
        )
        (refl, refl)
