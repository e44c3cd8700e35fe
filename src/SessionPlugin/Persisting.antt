-- ===== src/SessionPlugin/Persisting.antt =====
-- packages/session/src/session.ts and packages/core/src/cookies.ts: what is written to a session in one
-- request is there in the next.
use axiomify.SessionPlugin.Attaching.{core}
use axiomify.SessionPlugin.Issuing.{
  apply_call-IsIssued, IsIssued, run_calls-IsIssued, attach_session-IsIssued,
}
use axiomify.SessionPlugin.Destroying.{Call, putting, persisting, apply_call, run_calls}
use axiomify.SessionPlugin.Requests.{
  new_session, set_cookie_once, mark_dirty, write_record, persist, set_property, is_expired,
  attach_session, is_reserved,
}
use axiomify.SessionPlugin.{SessionStore, SessionPluginContext, CookieHeader, Request, set_header}
use axiomify.Base.{
  ◌*◌, ◌+◌, ◌≤◌, ◌<◌, ℕ, String, true, false, Option, some, List, ◌∷◌, ◌===◌, ◌≡◌, inr, refl, sym,
  ap, ◌∙◌,
}
use axiomify.Cookies.Signing.{sign_cookie_value}
use axiomify.Texts.{contains, is_empty}
use axiomify.Sessions.{SessionRecord}
use axiomify.JsMap
use mathlib.Core.Path.{subst}
use axiomify.SessionPlugin.Returning.{
  core-set_cookie_once, given_once, reattached, given_cookie, unsigned, stored-set_cookie_once,
  persist_dirty,
}
use axiomify.SessionPlugin.Building.{SessionOptions, build_plugin_context, built-secret}
use axiomify.Base.{inr}

module _ {St V : Type 0} (hmac : String → String → String) (ctx : SessionPluginContext St V) where
  module _ (key : String) (value : V) (w : Request St V) (alive : w.session.destroyed ≡ false)
      (free : is_reserved key ≡ false) where
    -- The request behind the write.
    abbrev changed : Request St V
    changed = record w {
      session = record w.session {
        content = JsMap.set key value w.session.content;
        dirty = true;
        persisted = false;
      };
    }

    put : apply_call hmac ctx (putting key value) w ≡ set_cookie_once hmac ctx changed
    unfolding apply_call set_property mark_dirty
    put = rw (set_property, free, alive) refl

    same : core (set_cookie_once hmac ctx changed).session ≡ core changed.session
    same = core-set_cookie_once hmac ctx changed

    abbrev found : SessionRecord (List (String × V))
    found = record {
      session_data = JsMap.set key value w.session.content;
      created_at = w.session.created_at;
    }

    abbrev ended : ℕ → Request St V
    ended now = apply_call hmac ctx (persisting now) (apply_call hmac ctx (putting key value) w)

    ended_written :
        (now : ℕ) → ended now ≡ write_record hmac ctx now (set_cookie_once hmac ctx changed)
    unfolding apply_call core
    ended_written now =
        ap (λ u. persist hmac ctx now u) put
        ∙ persist_dirty hmac ctx now (set_cookie_once hmac ctx changed)
            (ap (λ z. z.destroyed) same ∙ alive) (ap (λ z. z.persisted) same)
            (ap (λ z. z.dirty) same)

    ended_store :
        (now : ℕ)
        → (ended now).stored_state
          ≡ ctx.store.write now w.session.id found ctx.idle_ttl w.stored_state
    unfolding write_record core
    ended_store now =
        ap (λ u. u.stored_state) (ended_written now)
        ∙ rw
            (
              ap (λ z. z.id) same,
              ap (λ z. z.content) same,
              ap (λ z. z.created_at) same,
              stored-set_cookie_once hmac ctx changed,
            )
            refl

    ended_flags :
        (now : ℕ)
        → w.headers_sent ≡ false
        → is_empty ctx.secret ≡ false
        → ((ended now).session.destroyed ≡ false)
          × ((ended now).session.cookie_set ≡ true)
          × ((ended now).session.id ≡ w.session.id)
    unfolding write_record core
    ended_flags now open_one e = (
      ap (λ u. u.session.destroyed) (ended_written now) ∙ ap (λ z. z.destroyed) same ∙ alive,
      ap (λ u. u.session.cookie_set) (ended_written now) ∙ given_once hmac ctx changed open_one e,
      ap (λ u. u.session.id) (ended_written now) ∙ ap (λ z. z.id) same,
    )

  -- The last cookie of a response leads to a session with the id, the data and the time of creation, which is
  -- not new.
  unfoldable pub LeadsTo :
      ℕ → String → String → SessionRecord (List (String × V)) → Request St V → Type 0
  LeadsTo later fresh id found w =
      (cookie : String) × (rest : List CookieHeader) × (w.cookies
        ≡ set_header ctx.cookie_name cookie ∷ rest)
      × (core (attach_session hmac ctx later fresh false (some cookie) w.stored_state).session
          ≡ core (new_session id false found.session_data found.created_at))

  -- In an application whose options are accepted, a request whose response is still open makes any calls on
  -- its session, writes a value under a key that is not reserved, unless the session is destroyed, and
  -- ends. Then the last cookie of its response leads the next request, within the idle and the absolute
  -- timeout, to a session with the same id, the same time of creation and the data with the value. This
  -- takes a store that keeps what is written for its time to live, an HMAC without dots and an id that is not empty.
  pub attach_session-persist :
      (keeps : (now later : ℕ) (id : String) (r : SessionRecord (List (String × V))) (ttl : ℕ)
          (s : St)
        → now ≤ later
        → later < now + ttl * 1000
        → (ctx.store.read later id (ctx.store.write now id r ttl s)).1 ≡ some r)
      (dotless : (v : String) → contains b'.' (hmac v ctx.secret) ≡ false) (start : ℕ)
      (new_id : String) (raw : Option String) (s : St) (calls : List (Call V)) (w : Request St V)
      (key : String) (value : V) (now later : ℕ) (fresh : String)
      (memory : SessionStore St (List (String × V))) (options : SessionOptions St V)
      → build_plugin_context memory options ≡ inr ctx
      → w ≡ run_calls hmac ctx calls (attach_session hmac ctx start new_id false raw s)
      → w.session.destroyed ≡ false
      → w.headers_sent ≡ false
      → (w.session.id === "") ≡ false
      → is_reserved key ≡ false
      → now ≤ later
      → later < now + ctx.idle_ttl * 1000
      → is_expired later ctx.absolute_timeout w.session.created_at ≡ false
      → LeadsTo later fresh w.session.id
          (record {
            session_data = JsMap.set key value w.session.content;
            created_at = w.session.created_at;
          })
          (apply_call hmac ctx (persisting now) (apply_call hmac ctx (putting key value) w))
  unfolding LeadsTo IsIssued
  attach_session-persist keeps dotless start new_id raw s calls w key value now later fresh memory
        options built reached alive open_one named free order within live =
      let e = built-secret memory options ctx built in
      let issued_before : IsIssued hmac ctx w =
        subst (λ u. IsIssued hmac ctx u) (sym reached)
          (run_calls-IsIssued hmac ctx calls (attach_session hmac ctx start new_id false raw s)
            (attach_session-IsIssued hmac ctx start new_id false raw s)) in
      let (still, given, same_id) = ended_flags key value w alive free now open_one e in
      let issued_now =
        apply_call-IsIssued hmac ctx (persisting now) _
          (apply_call-IsIssued hmac ctx (putting key value) w issued_before) in
      let (cookie, rest, signed_id, last) = issued_now still given in
      let valid =
        unsigned hmac ctx w.session.id cookie e (dotless w.session.id)
          (ap (λ i. sign_cookie_value hmac i ctx.secret) (sym same_id) ∙ signed_id) in
      let stored = ended_store key value w alive free now in
      (
        cookie,
        rest,
        last,
        reattached hmac ctx later fresh w.session.id cookie _ (found key value w alive free)
            (given_cookie hmac ctx cookie w.session.id valid) named valid
            (ap (λ t. (ctx.store.read later w.session.id t).1) stored
              ∙ keeps now later w.session.id (found key value w alive free) ctx.idle_ttl
                  w.stored_state order within)
            live,
      )
