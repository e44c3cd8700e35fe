-- ===== src/Dispatcher.antt =====
-- packages/core/src/dispatcher.ts: `RequestDispatcher` and `ValidatingResponse`. The request, the adapter's
-- response and whatever user code changes are one state S; D is the data of a body, O what a cookie or
-- a stream is called with. Code that the dispatcher awaits is run to its end.
pub mod Responses
pub mod Parts
pub mod Resolving
pub mod Hiding
pub mod Answering
use axiomify.Base.{
  ℕ, String, Bool, true, false, not, ◌&&◌, ◌||◌, Option, none, some, List, [], ◌∷◌, ◌++◌,
  if◌then◌else◌, ltb, ◌===◌, ◌==◌,
}
use Prim.Native.String
use axiomify.Texts.{join_comma}
use axiomify.Hooks.{Hook, and_then, run, run_safe}
use axiomify.Router.{
  RouteDefinition, Router, Params, lookup, LookupResult, matched, method_not_allowed, not_found,
  write_params, includes,
}
use Parts.{CompiledState, App}
use Answering.{apply_all, handle_error}
use Responses.{Thrown, Body, null_body, data_body, generic_body, Response, validating, plain_error}

unfoldable pub with_options : List String → List String
with_options allowed =
    if not (includes allowed "OPTIONS") then allowed ++ "OPTIONS" ∷ [] else allowed

abbrev pub is_nil : {A : Type 0} → List A → Bool
is_nil [] = true
is_nil (h ∷ hs) = false

abbrev route_id : RouteDefinition → String
route_id route = String.◌++◌ route.method (String.◌∷◌ ":" route.path)

-- `method path` of a route whose compiled state is missing.
abbrev no_state : RouteDefinition → String
no_state route = String.◌++◌ "[Axiomify] No compiled state found for route " (
    String.◌++◌ route.method
      (String.◌∷◌ " " (String.◌++◌ route.path ". This is a framework bug — please open an issue.")))

module _ {S D O : Type 0} where
  unfoldable pub pipeline_loop :
      App S D O → Response S D O → List (Response S D O → Hook S (Thrown D)) → Hook S (Thrown D)
  pipeline_loop app res [] s = (s, none)
  pipeline_loop app res (step ∷ steps) s =
      if res.headers_sent s || app.is_aborted s
      then (s, none)
      else and_then (step res s) (pipeline_loop app res steps)

  -- A pipeline of one step goes without the loop.
  unfoldable pub run_pipeline :
      App S D O → Response S D O → List (Response S D O → Hook S (Thrown D)) → Hook S (Thrown D)
  run_pipeline app res [] s = pipeline_loop app res [] s
  run_pipeline app res (step ∷ []) s = if not (app.is_aborted s) then step res s else (s, none)
  run_pipeline app res (step ∷ next ∷ steps) s = pipeline_loop app res (step ∷ next ∷ steps) s

  -- From the compiled state on. The hooks are called with the request's own parameters, or with others.
  unfoldable pub run_compiled :
      App S D O → RouteDefinition → Option Params → CompiledState S D O → Hook S (Thrown D)
  run_compiled app route own state s =
      let needs_wrapper = state.has_response_schema || (app.method s === "HEAD") in
      let wrapper =
        validating app.is_sent app.mark_sent app.validate_response (route_id route) app.res in
      let dispatch_res = if needs_wrapper then wrapper else app.res in
      let start = if needs_wrapper then app.new_wrapper s else s in
      and_then (run_pipeline app dispatch_res state.pipeline start)
        (λ s1. run (apply_all (λ h. h route own dispatch_res) (app.on_post_handler s1)) s1)

  unfoldable pub run_route : App S D O → RouteDefinition → Option Params → Hook S (Thrown D)
  run_route app route own s = elim (app.compiled route) [
    | none ↦ (s, some (plain_error (no_state route)))
    | some state ↦ run_compiled app route own state s
  ]

  unfoldable pub run_pre_handlers : App S D O → RouteDefinition → Option Params → Hook S (Thrown D)
  run_pre_handlers app route own s =
      let hooks = apply_all (λ h. h route) (app.on_pre_handler s) in
      if is_nil (app.on_pre_handler s)
      then run_route app route own s
      else and_then (run hooks s)
          (λ s1. if app.res.headers_sent s1 then (s1, none) else run_route app route own s1)

  -- The parameters are those of the request itself, or others that are copied over them.
  unfoldable pub execute_matched_route :
      App S D O → RouteDefinition → Option Params → Hook S (Thrown D)
  execute_matched_route app route none s = run_pre_handlers app route none s
  execute_matched_route app route (some ps) s =
      run_pre_handlers app route (some ps) (app.set_params (write_params ps (app.params s)) s)

  -- `catch` and `finally`.
  unfoldable pub catching : App S D O → S × Option (Thrown D) → S × Option (Thrown D)
  catching app (s, none) = (s, none)
  catching app (s, some err) = handle_error app err s

  unfoldable pub closing : App S D O → S × Option (Thrown D) → S × Option (Thrown D)
  closing app (s, e) = (
    if app.is_streaming s
        then app.set_on_stream_close s
        else run_safe app.log_hook (app.on_close s) s,
    e,
  )

  unfoldable pub answer_lookup : App S D O → LookupResult → Hook S (Thrown D)
  answer_lookup app not_found s = app.not_found_handler s
  answer_lookup app (method_not_allowed allowed) s =
      app.method_not_allowed_handler (app.res.header "Allow" (join_comma (with_options allowed)) s)
  answer_lookup app (matched route ps) s =
      execute_matched_route app route none (app.set_params ps s)

  unfoldable pub route_request : App S D O → Hook S (Thrown D)
  route_request app s =
      if app.res.headers_sent s
      then (s, none)
      else answer_lookup app (lookup (app.method s) (app.path s) (app.params s) (app.router s)) s

  unfoldable pub handle : App S D O → Hook S (Thrown D)
  handle app s =
      closing app (catching app (and_then (run (app.on_request s) s) (route_request app)))

  unfoldable pub handle_matched_route : App S D O → RouteDefinition → Params → Hook S (Thrown D)
  handle_matched_route app route ps s = closing app (
      catching app (
        and_then (run (app.on_request s) s) (λ s1.
          if app.res.headers_sent s1
          then (s1, none)
          else execute_matched_route app route (some ps) s1)))
