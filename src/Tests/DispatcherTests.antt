-- ===== src/Tests/DispatcherTests.antt =====
-- The dispatcher of packages/core/src/dispatcher.ts over a response that writes down what is sent.
use axiomify.Base.{
  if◌then◌else◌, ℕ, String, Bool, true, false, Option, none, some, List, [], ◌∷◌, ◌++◌, ◌≡◌, refl,
  arith,
}
use axiomify.JsMap
use axiomify.Hooks
use axiomify.Hooks.{and_then, Hook, run, execute_sequential}
use axiomify.Router
use axiomify.Router.{RouteDefinition, Router, Params, new_router, segments, write_params}
use axiomify.Router.Patterns.{match}
use axiomify.Router.Serving.{register_all, pattern_of}
use axiomify.Dispatcher
use axiomify.Texts
use axiomify.Dispatcher.{
  route_request, handle, handle_matched_route, pipeline_loop, run_pipeline, closing, catching,
  execute_matched_route,
}
use axiomify.Dispatcher.Answering.{handle_error}
use axiomify.Dispatcher.Hiding.{internal_errors_alike}
use axiomify.Dispatcher.Parts.{App}
use axiomify.Dispatcher.Resolving.{rejection, handle_resolves}
use axiomify.Dispatcher.Responses.{Thrown, Body, null_body, data_body, generic_body, Response}

program : Unit {0}
unfolding Hooks.and_then Hooks.execute_sequential Hooks.run Hooks.absorb
    Hooks.execute_safe_sequential Hooks.run_safe Dispatcher.pipeline_loop Dispatcher.run_pipeline
    Dispatcher.run_compiled Dispatcher.run_route Dispatcher.run_pre_handlers
    Dispatcher.execute_matched_route Dispatcher.catching Dispatcher.closing Dispatcher.answer_lookup
    Dispatcher.route_request Dispatcher.handle Texts.join_comma Texts.join_rest
    Dispatcher.with_options Dispatcher.Answering.apply_all Dispatcher.Answering.status_of
    Dispatcher.Answering.answer_error Dispatcher.Answering.handle_error
    Dispatcher.Responses.validating Dispatcher.Responses.send_validated Router.split Router.rest_of
    Router.kind_of segments Router.join Router.update_child Router.update_wildcard Router.add_route
    Router.in_static Router.in_param Router.in_wildcard Router.insert_route new_router
    Router.star_params Router.normalize Router.register Router.payload Router.lookup_node
    Router.lookup_static Router.lookup_param Router.lookup_wildcard Router.includes Router.add_all
    Router.collect_allowed Router.collect_static Router.collect_param Router.collect_wildcard
    write_params Router.with_head Router.lookup register_all match JsMap.get JsMap.set
program = tt

record Wire : Type 0 where
  code : ℕ
  sent : Bool
  params : Params
  bodies : List (ℕ × Body ℕ × Option String)

abbrev put : Body ℕ → Option String → Hook Wire (Thrown ℕ)
put body message w =
    (record w { sent = true; bodies = w.bodies ++ (w.code, body, message) ∷ [] }, none)

abbrev wire : Response Wire ℕ (Unit {0})
wire = record {
  status = λ code w. record w { code = code };
  status_code = λ w. w.code;
  header = λ key value w. w;
  get_header = λ key w. none;
  remove_header = λ key w. w;
  headers_sent = λ w. w.sent;
  send = put;
  send_raw = λ payload content_type w. (w, none);
  stream = λ readable content_type w. (w, none);
  set_streaming = λ w. w;
  cookie = none;
  clear_cookie = none;
  has_sse = λ w. false;
  sse_init = none;
  sse_send = none;
}

abbrev crash : Thrown ℕ
crash = record {
  is_nullish = false;
  status_code = none;
  status = none;
  message = some "password is hunter2";
  is_validation = false;
  errors = none;
  issues = some 7;
  stack = some "at handler";
}

abbrev timeout : Thrown ℕ
timeout = record {
  is_nullish = false;
  status_code = some 500;
  status = none;
  message = some "timeout";
  is_validation = false;
  errors = none;
  issues = none;
  stack = none;
}

abbrev user : RouteDefinition
user = record { method = "GET"; path = "/users/:id"; handler = 1 }

routes : Router
unfolding program
routes = elim (register_all (user ∷ []) (new_router none)) [ some r ↦ r | none ↦ new_router none ]

abbrev app : App Wire ℕ (Unit {0})
app = record {
  on_request = λ w. [];
  on_pre_handler = λ w. [];
  on_post_handler = λ w. [];
  on_error = λ w. [];
  on_close = λ w. (λ v. (record v { code = 1 }, none)) ∷ [];
  log_hook = λ e w. w;
  router = λ w. routes;
  method = λ w. "GET";
  path = λ w. "/users/7";
  params = λ w. w.params;
  set_params = λ ps w. record w { params = ps };
  is_aborted = λ w. false;
  compiled = λ route.
      some (record { pipeline = (λ res w. (w, some crash)) ∷ []; has_response_schema = false });
  validate_response = λ route body code w. (w, none);
  new_wrapper = λ w. w;
  is_sent = λ w. true;
  mark_sent = λ w. w;
  not_found_handler = λ w. put null_body (some "Route not found") (record w { code = 404 });
  method_not_allowed_handler =
      λ w. put null_body (some "Method Not Allowed") (record w { code = 405 });
  res = wire;
  is_streaming = λ w. false;
  set_on_stream_close = λ w. w;
  is_production = true;
  log_stack = λ stack w. w;
}

abbrev request : Wire
request = record { code = 200; sent = false; params = []; bodies = [] }

-- The handler throws; the client sees none of it.
answers : handle app request ≡ (
  record {
    code = 1;
    sent = true;
    params = ("id", "7") ∷ [];
    bodies = (500, generic_body, some "Internal Server Error") ∷ [];
  },
  none,
)
unfolding routes program
answers = refl

handle_resolves_example :
    ((handle app request).1
      ≡ rejection app (and_then (run (app.on_request request) request) (route_request app)))
    × ((handle_matched_route app user [] request).1
        ≡ rejection app (
            and_then (run (app.on_request request) request) (λ s1.
              if app.res.headers_sent s1
              then (s1, none)
              else execute_matched_route app user (some []) s1)))
handle_resolves_example = handle_resolves app (λ b m w. refl) user [] request

internal_errors_alike_example : handle_error app crash request ≡ handle_error app timeout request
unfolding program
internal_errors_alike_example =
    internal_errors_alike app crash timeout request refl refl refl refl refl refl refl (omega arith)

abbrev steps : List (Response Wire ℕ (Unit {0}) → Hook Wire (Thrown ℕ))
steps = (λ res w. res.send null_body none w) ∷ []

routes_filled : register_all (user ∷ []) (new_router none) ≡ some routes
unfolding routes program
routes_filled = refl

user_matches : match (pattern_of user) (segments "/users/7") ≡ some (("id", "7") ∷ [])
unfolding program
user_matches = refl
