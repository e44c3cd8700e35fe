-- ===== src/Dispatcher/Parts.antt =====
-- What `RequestDispatcher` of packages/core/src/dispatcher.ts is given: `CompiledState` of
-- packages/core/src/compiled.ts, and the hooks, the router, the request, the validator and the adapter.
use axiomify.Base.{ℕ, String, Bool, Option, List}
use axiomify.Hooks.{Hook}
use axiomify.Router.{RouteDefinition, Router, Params}
use axiomify.Dispatcher.Responses.{Thrown, Body, Response}

pub record CompiledState (S D O : Type 0) : Type 0 where
  pub pipeline : List (Response S D O → Hook S (Thrown D))
  pub has_response_schema : Bool

-- What the dispatcher is given: the hooks as they are in a state, the router, the request, the compiled
-- routes, the validator, the two handlers that an app may replace, and the adapter's response.
pub record App (S D O : Type 0) : Type 0 where
  pub on_request : S → List (Hook S (Thrown D))
  pub on_pre_handler : S → List (RouteDefinition → Hook S (Thrown D))
  pub on_post_handler :
      S → List (RouteDefinition → Option Params → Response S D O → Hook S (Thrown D))
  pub on_error : S → List (Thrown D → Hook S (Thrown D))
  pub on_close : S → List (Hook S (Thrown D))
  pub log_hook : Thrown D → S → S
  pub router : S → Router
  pub method : S → String
  pub path : S → String
  pub params : S → Params
  pub set_params : Params → S → S
  pub is_aborted : S → Bool
  pub compiled : RouteDefinition → Option (CompiledState S D O)
  pub validate_response : String → Body D → ℕ → Hook S (Thrown D)
  pub new_wrapper : S → S
  pub is_sent : S → Bool
  pub mark_sent : S → S
  pub not_found_handler : Hook S (Thrown D)
  pub method_not_allowed_handler : Hook S (Thrown D)
  pub res : Response S D O
  pub is_streaming : S → Bool
  pub set_on_stream_close : S → S
  pub is_production : Bool
  pub log_stack : String → S → S
