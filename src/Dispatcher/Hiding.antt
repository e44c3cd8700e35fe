-- ===== src/Dispatcher/Hiding.antt =====
-- What `handleError` of packages/core/src/dispatcher.ts shows of an internal error in production.
use axiomify.Base.{◌≤◌, true, false, [], ◌≡◌, arith}
use axiomify.Dispatcher.Answering.{answer_error, handle_error, apply_all, status_of}
use axiomify.Dispatcher.Parts.{App}
use axiomify.Dispatcher.Responses.{Thrown}
use axiomify.Hooks.{run_safe}

answer_error-same :
    {S D O : Type 0} (app : App S D O) (err other : Thrown D) (s : S)
    → app.is_production ≡ true
    → err.is_nullish ≡ false
    → other.is_nullish ≡ false
    → err.is_validation ≡ false
    → other.is_validation ≡ false
    → status_of err ≡ status_of other
    → 500 ≤ status_of err
    → answer_error app err s ≡ answer_error app other s
unfolding answer_error
answer_error-same app err other s p x y v w e l = ground arith

-- In production, two errors that are no validation errors, null or undefined and have the same status of at least 500 lead to
-- the same state of the response, whatever their messages, stacks and data are, where no hooks on errors
-- are registered.
pub internal_errors_alike :
    {S D O : Type 0} (app : App S D O) (err other : Thrown D) (s : S)
    → app.is_production ≡ true
    → app.on_error s ≡ []
    → err.is_nullish ≡ false
    → other.is_nullish ≡ false
    → err.is_validation ≡ false
    → other.is_validation ≡ false
    → status_of err ≡ status_of other
    → 500 ≤ status_of err
    → handle_error app err s ≡ handle_error app other s
unfolding handle_error apply_all run_safe
internal_errors_alike app err other s p n x y v w e l =
    rw n (ground (arith, answer_error-same app err other s p x y v w e l))
