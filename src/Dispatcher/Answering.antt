-- ===== src/Dispatcher/Answering.antt =====
-- `handleError` of packages/core/src/dispatcher.ts.
use mathlib.Core.Option
use axiomify.Base.{ℕ, String, Option, none, some, List, [], ◌∷◌, if◌then◌else◌, ltb, ◌==◌}
use axiomify.Hooks.{Hook, run_safe}
use axiomify.Dispatcher.Parts.{App}
use axiomify.Dispatcher.Responses.{Thrown, plain_error, null_body, data_body, generic_body}

-- The list of hooks, each applied to what the hooks of its kind are called with.
unfoldable pub apply_all :
    {S D A : Type 0} → (A → Hook S (Thrown D)) → List A → List (Hook S (Thrown D))
apply_all f [] = []
apply_all f (h ∷ hs) = f h ∷ apply_all f hs

abbrev pub first_of : {D : Type 0} → Option D → Option D → Option D
first_of none y = y
first_of (some x) y = some x

-- `err.statusCode || 400`.
abbrev pub validation_status : Option ℕ → ℕ
validation_status none = 400
validation_status (some n) = if n == 0 then 400 else n

unfoldable pub status_of : {D : Type 0} → Thrown D → ℕ
status_of err = Option.get_or err.status_code (Option.get_or err.status 500)

abbrev pub no_property : String
no_property = "Cannot read properties of null"

module _ {S D O : Type 0} where
  abbrev log_stack_of : App S D O → Option String → S → S
  log_stack_of app none s = s
  log_stack_of app (some stack) s = app.log_stack stack s

  -- The answer to an error; the hooks on errors have run. Reading a property of `null` throws.
  unfoldable pub answer_error : App S D O → Thrown D → Hook S (Thrown D)
  answer_error app err s =
      let code = status_of err in
      let message = Option.get_or err.message "Internal Server Error" in
      if err.is_nullish
      then (s, some (plain_error no_property))
      else if err.is_validation
      then app.res.send (data_body (first_of err.errors err.issues)) err.message
          (app.res.status (validation_status err.status_code) s)
      else if app.is_production
      then (if ltb code 500
          then app.res.send null_body (some message) (app.res.status code s)
          else app.res.send generic_body (some "Internal Server Error") (app.res.status code s))
      else app.res.send (data_body (first_of err.issues err.errors)) (some message)
          (app.res.status code (log_stack_of app err.stack s))

  abbrev pub after_error_hooks : App S D O → Thrown D → S → S
  after_error_hooks app err s = run_safe app.log_hook (apply_all (λ h. h err) (app.on_error s)) s

  unfoldable pub handle_error : App S D O → Thrown D → Hook S (Thrown D)
  handle_error app err s =
      let s1 = after_error_hooks app err s in
      if app.res.headers_sent s1 then (s1, none) else answer_error app err s1
