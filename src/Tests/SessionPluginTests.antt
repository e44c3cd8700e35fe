-- ===== src/Tests/SessionPluginTests.antt =====
-- Requests with a session over the memory store, and what the plugin does with them.
use axiomify.Texts.{contains}
use axiomify.SessionPlugin.Attaching.{IsFresh, IsStored, attach_session_origin}
use axiomify.SessionPlugin.MemoryStore.{memory_store, memory_store-erased, memory_store-kept}
use axiomify.SessionPlugin.Persisting.{LeadsTo, attach_session-persist}
use axiomify.SessionPlugin.Destroying.{
  putting, touching, persisting, apply_call, run_calls, run_calls-destroy_session,
}
use axiomify.SessionPlugin.Requests.{
  new_session, issue, set_cookie_now, set_cookie_once, mark_dirty, write_record, refresh_record,
  persist, destroy_session, renew, regenerate_session, touch_session, save_now, set_property,
  has_property, delete_property, is_expired, judge_record, read_session, find_session,
  begin_request, eager_cookie, attach_session, is_reserved,
}
use axiomify.SessionPlugin.{SessionPluginContext, Request}
use axiomify.Base.{
  ℕ, String, true, false, none, some, List, [], ◌∷◌, ◌===◌, length, ◌≡◌, ◌⊎◌, refl, arith,
}
use axiomify.JsMap
use axiomify.Sessions
use axiomify.Sessions.{SessionRecord, Entry}
use axiomify.Cookies.Signing.{sign_cookie_value}
use axiomify.Cookies.Printing.{is_cookie_name, is_token}
use axiomify.Texts.{every}
use axiomify.SessionPlugin.Building.{
  short_secret, SessionOptions, build_plugin_context, context_of, check_options, idle_ttl_of,
  validate_secrets, check_secrets,
}
use axiomify.Base.{inl, inr, some, none}

program : Unit {0}
unfolding attach_session begin_request find_session read_session judge_record new_session
    eager_cookie set_cookie_now set_cookie_once issue mark_dirty persist write_record refresh_record
    destroy_session renew regenerate_session touch_session save_now set_property has_property
    delete_property is_expired is_reserved apply_call run_calls memory_store Sessions.get
    Sessions.set Sessions.destroy Sessions.touch Sessions.sweep Sessions.evict_loop JsMap.get
    JsMap.set JsMap.delete JsMap.keep sign_cookie_value build_plugin_context context_of
    check_options idle_ttl_of validate_secrets check_secrets is_cookie_name is_token every
program = tt

abbrev Store : Type 0
Store = List (String × Entry (List (String × ℕ)))

-- A code that is the secret itself.
abbrev code_of : String → String → String
code_of value secret = secret

abbrev options : SessionOptions Store ℕ
options = record {
  secrets = "0123456789abcdef0123456789abcdef" ∷ [];
  cookie_name = some "sid";
  max_age = none;
  store = none;
  rolling = none;
  save_uninitialized = none;
  idle_timeout = some 60;
  absolute_timeout = some 3600;
}

abbrev ctx : SessionPluginContext Store ℕ
ctx = context_of (memory_store 9) options ("0123456789abcdef0123456789abcdef", [])

built : build_plugin_context (memory_store 9) options ≡ inr ctx
unfolding program
built = refl

short_refused : validate_secrets ("key" ∷ []) ≡ inl (short_secret 3)
unfolding program
short_refused = refl

abbrev no_sessions : Store
no_sessions = []

-- The first request of a client, at time 100.
abbrev first : Request Store ℕ
first = attach_session code_of ctx 100 "id-1" false none no_sessions

-- It counts its visits and ends.
abbrev counted : Request Store ℕ
counted = run_calls code_of ctx (putting "visits" 1 ∷ persisting 110 ∷ []) first

counted_store : length counted.stored_state ≡ 1
unfolding program
counted_store = refl

counted_cookies : length counted.cookies ≡ 1
unfolding program
counted_cookies = refl

-- A new session that is touched sends a cookie, and the store gets nothing.
abbrev touched_only : Request Store ℕ
touched_only = run_calls code_of ctx (touching ∷ persisting 110 ∷ []) first

touched_cookies : length touched_only.cookies ≡ 1
unfolding program
touched_cookies = refl

touched_store : touched_only.stored_state ≡ []
unfolding program
touched_store = refl

attach_session_origin_example :
    IsFresh code_of ctx 100 "id-1" first.session
    ⊎ IsStored code_of ctx 100 none no_sessions first.session
attach_session_origin_example = attach_session_origin code_of ctx 100 "id-1" false none no_sessions

run_calls-destroy_session_example :
    let after =
      run_calls code_of ctx
        (putting "visits" 2 ∷ persisting 130 ∷ [])
        (destroy_session code_of ctx counted) in
    (after.session.destroyed ≡ true)
    × (after.session.content ≡ [])
    × ((ctx.store.read 140 counted.session.id after.stored_state).1 ≡ none)
unfolding context_of memory_store
run_calls-destroy_session_example =
    run_calls-destroy_session code_of ctx (memory_store-erased 9)
      (putting "visits" 2 ∷ persisting 130 ∷ []) counted 140

dotless : (v : String) → contains b'.' (code_of v "0123456789abcdef0123456789abcdef") ≡ false
unfolding contains
dotless v = refl

alive : first.session.destroyed ≡ false
unfolding program
alive = refl

open_one : first.headers_sent ≡ false
unfolding program
open_one = refl

named : (first.session.id === "") ≡ false
unfolding program
named = refl

free : is_reserved "visits" ≡ false
unfolding program
free = refl

live : is_expired 5000 (some 3600) first.session.created_at ≡ false
unfolding program
live = refl

reached :
    first ≡ run_calls code_of ctx [] (attach_session code_of ctx 100 "id-1" false none no_sessions)
unfolding program
reached = refl

attach_session-persist_example :
    LeadsTo code_of ctx 5000 "id-2" first.session.id
      (record {
        session_data = JsMap.set "visits" 1 first.session.content;
        created_at = first.session.created_at;
      })
      (apply_call code_of ctx (persisting 110) (apply_call code_of ctx (putting "visits" 1) first))
unfolding context_of memory_store idle_ttl_of
attach_session-persist_example =
    attach_session-persist code_of ctx (memory_store-kept 9) dotless 100 "id-1" none no_sessions []
      first "visits" 1 110 5000 "id-2" (memory_store 9) options built reached alive open_one named
      free (omega arith) (omega arith) live
