-- ===== src/Dispatcher/Resolving.antt =====
-- `handle` and `handleMatchedRoute` of packages/core/src/dispatcher.ts catch what user code throws.
use axiomify.Base.{
  true, false, not, ◌&&◌, if◌then◌else◌, Bool-cases, inl, inr, ◌∙◌, String, Option, none, some, ◌≡◌,
  refl, arith,
}
use axiomify.Hooks.{and_then, run}
use axiomify.Dispatcher.{
  catching, closing, handle, handle_matched_route, route_request, execute_matched_route,
}
use axiomify.Dispatcher.Answering.{answer_error, handle_error, after_error_hooks, no_property}
use axiomify.Dispatcher.Parts.{App}
use axiomify.Dispatcher.Responses.{Thrown, Body, plain_error}
use axiomify.Router.{RouteDefinition, Params}

-- What the promise of an entry point is rejected with: reading a property of `null` throws, where no answer
-- was sent.
abbrev pub rejection : {S D O : Type 0} → App S D O → S × Option (Thrown D) → Option (Thrown D)
rejection app (s, none) = none
rejection app (s, some err) =
    if err.is_nullish && not (app.res.headers_sent (after_error_hooks app err s))
    then some (plain_error no_property)
    else none

module _ {S D O : Type 0} (app : App S D O)
    (quiet : (b : Body D) (m : Option String) (s : S) → (app.res.send b m s).1 ≡ none) where
  answer_error-none :
      (err : Thrown D) (s : S) → err.is_nullish ≡ false → (answer_error app err s).1 ≡ none
  unfolding answer_error
  answer_error-none err s n = grind (arith, quiet)

  answer_error_nullish :
      (err : Thrown D) (s : S)
      → err.is_nullish ≡ true
      → (answer_error app err s).1 ≡ some (plain_error no_property)
  unfolding answer_error
  answer_error_nullish err s n = rw n refl

  handle_error-rejection :
      (err : Thrown D) (s : S) → (handle_error app err s).1 ≡ rejection app (s, some err)
  unfolding handle_error
  handle_error-rejection err s =
      let s1 = after_error_hooks app err s in
      elim (Bool-cases err.is_nullish) [
        | inl e ↦ ground (arith, answer_error_nullish err s1 e)
        | inr e ↦ ground (arith, answer_error-none err s1 e)
      ]

  catching-rejection : (r : S × Option (Thrown D)) → (catching app r).1 ≡ rejection app r
  unfolding catching
  catching-rejection (s, none) = refl
  catching-rejection (s, some err) = handle_error-rejection err s

  closing-same : (r : S × Option (Thrown D)) → (closing app r).1 ≡ r.1
  unfolding closing
  closing-same (s, e) = refl

-- With an adapter whose `send` does not throw, both entry points settle without an error, whatever hooks,
-- plugins, handlers and validators throw, but where that is null or undefined and no answer was sent
-- by the hooks on errors: then they are rejected with a TypeError.
pub handle_resolves :
    {S D O : Type 0} (app : App S D O)
    (quiet : (b : Body D) (m : Option String) (s : S) → (app.res.send b m s).1 ≡ none)
    (route : RouteDefinition) (ps : Params) (s : S)
    → ((handle app s).1 ≡ rejection app (and_then (run (app.on_request s) s) (route_request app)))
      × ((handle_matched_route app route ps s).1
          ≡ rejection app (
              and_then (run (app.on_request s) s) (λ s1.
                if app.res.headers_sent s1
                then (s1, none)
                else execute_matched_route app route (some ps) s1)))
unfolding handle handle_matched_route
handle_resolves app quiet route ps s = (
  closing-same app quiet _ ∙ catching-rejection app quiet _,
  closing-same app quiet _ ∙ catching-rejection app quiet _,
)
