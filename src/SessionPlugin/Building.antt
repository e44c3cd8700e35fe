-- ===== src/SessionPlugin/Building.antt =====
-- packages/session/src/session.ts: `validateSecrets` and `buildPluginContext`. A single secret is a list of
-- one; numbers are finite and natural.
use axiomify.SessionPlugin.{SessionStore, SessionPluginContext}
use axiomify.Base.{
  ℕ, String, Bool, false, not, Option, none, some, List, [], ◌∷◌, if◌then◌else◌, ltb, ◌==◌, ◌≡◌,
  ◌⊎◌, inl, inr, refl, arith, Bool-cases, Option-cases,
}
use axiomify.Cookies.Printing.{is_cookie_name}
use axiomify.Texts.{is_empty}
use Prim.Native.String
use mathlib.Core.Option
use mathlib.Core.Path.{subst}

pub data OptionError : Type 0 where
  no_secret invalid_cookie_name invalid_idle_timeout invalid_absolute_timeout : OptionError
  short_secret : ℕ → OptionError

pub record SessionOptions (St : Type 0) (V : Type 0) : Type 0 where
  pub secrets : List String
  pub cookie_name : Option String
  pub max_age : Option ℕ
  pub store : Option (SessionStore St (List (String × V)))
  pub rolling : Option Bool
  pub save_uninitialized : Option Bool
  pub idle_timeout : Option ℕ
  pub absolute_timeout : Option ℕ

-- The loop over the secrets: the first error.
unfoldable pub check_secrets : List String → Option OptionError
check_secrets [] = none
check_secrets (s ∷ secrets) =
    let rest = check_secrets secrets in
    if ltb (String.len s) 32 then some (short_secret (String.len s)) else rest

-- The first secret and the others.
unfoldable pub validate_secrets : List String → OptionError ⊎ (String × List String)
validate_secrets [] = inl no_secret
validate_secrets (s ∷ secrets) = elim (check_secrets (s ∷ secrets)) [
  | some e ↦ inl e
  | none ↦ inr (s, secrets)
]

Secured : OptionError ⊎ (String × List String) → Type 0
Secured (inl _) = Unit
Secured (inr (s, secrets)) = is_empty s ≡ false

long_secret : (s : String) → ltb (String.len s) 32 ≡ false → is_empty s ≡ false
long_secret String.[] h = absurd (ground arith)
long_secret (String.◌∷◌ c s) h = refl

validate_secrets-Secured : (secrets : List String) → Secured (validate_secrets secrets)
unfolding validate_secrets check_secrets Secured
validate_secrets-Secured [] = tt
validate_secrets-Secured (s ∷ secrets) = elim (Bool-cases (ltb (String.len s) 32)) [
  | inl short ↦ rw (Secured, validate_secrets, short) tt
  | inr long ↦ elim (Option-cases (check_secrets secrets)) [
    | inl fine ↦ rw (Secured, validate_secrets, long, fine) (long_secret s long)
    | inr (e, bad) ↦ rw (Secured, validate_secrets, long, bad) tt
  ]
]

abbrev is_zero : Option ℕ → Bool
is_zero none = false
is_zero (some n) = n == 0

module _ {St V : Type 0} where
  -- `idleTimeout`, else `cookie.maxAge`, else a day.
  unfoldable pub idle_ttl_of : SessionOptions St V → ℕ
  idle_ttl_of options = Option.get_or options.idle_timeout (Option.get_or options.max_age 86400)

  -- The checks behind those of the secrets.
  unfoldable pub check_options : SessionOptions St V → Option OptionError
  check_options options =
      if not (is_cookie_name (Option.get_or options.cookie_name "axiomify.sid"))
      then some invalid_cookie_name
      else (if idle_ttl_of options == 0
          then some invalid_idle_timeout
          else (if is_zero options.absolute_timeout then some invalid_absolute_timeout else none))

  -- The context with the checked options; `memory` is the store when none is given.
  unfoldable pub context_of :
      SessionStore St (List (String × V))
      → SessionOptions St V
      → String × List String
      → SessionPluginContext St V
  context_of memory options (secret, older) = record {
    cookie_name = Option.get_or options.cookie_name "axiomify.sid";
    secret = secret;
    older_secrets = older;
    store = Option.get_or options.store memory;
    rolling = Option.get_or options.rolling false;
    save_uninitialized = Option.get_or options.save_uninitialized false;
    idle_ttl = idle_ttl_of options;
    absolute_timeout = options.absolute_timeout;
  }

  -- The context, or the error that is thrown.
  unfoldable pub build_plugin_context :
      SessionStore St (List (String × V))
      → SessionOptions St V
      → OptionError ⊎ SessionPluginContext St V
  build_plugin_context memory options = elim (validate_secrets options.secrets) [
    | inl e ↦ inl e
    | inr secrets ↦ elim (check_options options) [
      | some e ↦ inl e
      | none ↦ inr (context_of memory options secrets)
    ]
  ]

  -- The first secret, when there is no error, is not empty.
  HasSecret : OptionError ⊎ SessionPluginContext St V → Type 0
  HasSecret (inl _) = Unit
  HasSecret (inr ctx) = is_empty ctx.secret ≡ false

  built-HasSecret :
      (memory : SessionStore St (List (String × V))) (options : SessionOptions St V)
      (v : OptionError ⊎ (String × List String))
      → Secured v
      → HasSecret (elim v [
        | inl e ↦ inl e
        | inr secrets ↦ elim (check_options options) [
          | some e ↦ inl e
          | none ↦ inr (context_of memory options secrets)
        ]
      ])
  unfolding HasSecret Secured context_of
  built-HasSecret memory options (inl e) h = tt
  built-HasSecret memory options (inr secrets) h = elim (Option-cases (check_options options)) [
    | inl fine ↦ rw fine h
    | inr (e, bad) ↦ rw bad tt
  ]

  -- A context that was built has a first secret of at least 32 bytes.
  pub built-secret :
      (memory : SessionStore St (List (String × V))) (options : SessionOptions St V)
      (ctx : SessionPluginContext St V)
      → build_plugin_context memory options ≡ inr ctx
      → is_empty ctx.secret ≡ false
  unfolding build_plugin_context HasSecret
  built-secret memory options ctx built =
      subst (λ r. HasSecret r) built
        (built-HasSecret memory options (validate_secrets options.secrets)
          (validate_secrets-Secured options.secrets))
