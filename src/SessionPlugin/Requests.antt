-- ===== src/SessionPlugin/Requests.antt =====
-- packages/session/src/session.ts: `SessionInternal`, the traps of the session's proxy, and `attachSession`.
-- A method of the store does not fail, and a record that it has is of the right form.
use axiomify.SessionPlugin.{
  SessionPluginContext, SessionInternal, Request, set_header, clear_header,
}
use axiomify.Base.{
  ◌-◌, ℕ, ◌*◌, String, Bool, true, false, not, ◌&&◌, ◌||◌, Option, none, some, List, [], ◌∷◌,
  if◌then◌else◌, leb, ◌===◌,
}
use axiomify.Cookies.Signing.{sign_cookie_value, unsign_cookie_value}
use axiomify.JsMap
use axiomify.Sessions.{SessionRecord}

-- `RESERVED_KEYS`.
unfoldable pub is_reserved : String → Bool
is_reserved key =
    key === "id"
    || key === "isNew"
    || key === "destroy"
    || key === "regenerate"
    || key === "touch"
    || key === "save"

unfoldable pub new_session :
    {V : Type 0} → String → Bool → List (String × V) → ℕ → SessionInternal V
new_session id is_new content created_at = record {
  dirty = false;
  touched = false;
  destroyed = false;
  persisted = false;
  cookie_set = false;
  warned_headers_sent = false;
  id = id;
  is_new = is_new;
  content = content;
  created_at = created_at;
}

-- `Date.now() - createdAt >= absoluteTimeout * 1000`, for a timeout above 0.
unfoldable pub is_expired : ℕ → Option ℕ → ℕ → Bool
is_expired now none created_at = false
is_expired now (some seconds) created_at = leb (seconds * 1000) (now - created_at)

unfoldable pub has_property : {V : Type 0} → String → List (String × V) → Bool
has_property key content = elim (JsMap.get key content) [ none ↦ false | some _ ↦ true ]

module _ {St V : Type 0} (hmac : String → String → String) (ctx : SessionPluginContext St V) where
  -- `setCookie` with the signed id; signing with an empty secret throws, and no context has one.
  unfoldable pub issue : Option String → Request St V → Request St V
  issue none w = w
  issue (some value) w = record w {
    cookies = set_header ctx.cookie_name value ∷ w.cookies;
    session = record w.session { cookie_set = true };
  }

  unfoldable pub set_cookie_now : Request St V → Request St V
  set_cookie_now w =
      if w.headers_sent
      then record w { session = record w.session { warned_headers_sent = true } }
      else issue (sign_cookie_value hmac w.session.id ctx.secret) w

  unfoldable pub set_cookie_once : Request St V → Request St V
  set_cookie_once w = if w.session.cookie_set then w else set_cookie_now w

  unfoldable pub mark_dirty : Request St V → Request St V
  mark_dirty w =
      set_cookie_once (record w { session = record w.session { dirty = true; persisted = false } })

  -- The write of the session to the store.
  unfoldable pub write_record : ℕ → Request St V → Request St V
  write_record now w = record w {
    stored_state =
        ctx.store.write now w.session.id
          (record { session_data = w.session.content; created_at = w.session.created_at })
          ctx.idle_ttl w.stored_state;
    session = record w.session { dirty = false; persisted = true; is_new = false };
  }

  -- The branch of `persist` for a session with nothing to write.
  unfoldable pub refresh_record : ℕ → Request St V → Request St V
  refresh_record now w =
      if not w.session.is_new && (w.session.touched || ctx.rolling)
      then record w {
        stored_state = ctx.store.refresh now w.session.id ctx.idle_ttl w.stored_state;
        session = record w.session { persisted = true; touched = false };
      }
      else record w { session = record w.session { persisted = true } }

  unfoldable pub persist : ℕ → Request St V → Request St V
  persist now w =
      if w.session.destroyed || w.session.persisted
      then w
      else (if w.session.dirty || (w.session.is_new && ctx.save_uninitialized)
          then write_record now w
          else refresh_record now w)

  unfoldable pub destroy_session : Request St V → Request St V
  destroy_session w = record w {
    session = record w.session { destroyed = true; content = [] };
    stored_state = ctx.store.erase w.session.id w.stored_state;
    cookies = if w.headers_sent then w.cookies else clear_header ctx.cookie_name ∷ w.cookies;
  }

  -- The part of `regenerateSession` before it erases the record of the old id.
  unfoldable pub renew : ℕ → String → Request St V → Request St V
  renew now new_id w = set_cookie_now (record w {
    session = record w.session {
      id = new_id;
      created_at = now;
      dirty = true;
      persisted = false;
      cookie_set = false;
    };
  })

  -- Nothing where it throws.
  unfoldable pub regenerate_session : ℕ → String → Request St V → Option (Request St V)
  regenerate_session now new_id w =
      if w.session.destroyed
      then none
      else some (record (renew now new_id w) {
        stored_state =
            if w.session.is_new
            then w.stored_state
            else ctx.store.erase w.session.id w.stored_state;
      })

  unfoldable pub touch_session : Request St V → Request St V
  touch_session w =
      if w.session.destroyed
      then w
      else set_cookie_once
          (record w { session = record w.session { touched = true; persisted = false } })

  unfoldable pub save_now : ℕ → Request St V → Option (Request St V)
  save_now now w =
      if w.session.destroyed
      then none
      else let saved = write_record now (set_cookie_once w) in
        some (record saved { session = record saved.session { touched = false } })

  -- The `set` trap of the proxy.
  unfoldable pub set_property : String → V → Request St V → Option (Request St V)
  set_property key value w =
      if is_reserved key || w.session.destroyed
      then none
      else some (
          mark_dirty (record w {
            session = record w.session { content = JsMap.set key value w.session.content };
          }))

  -- The `deleteProperty` trap.
  unfoldable pub delete_property : String → Request St V → Request St V
  delete_property key w =
      if is_reserved key || w.session.destroyed || not (has_property key w.session.content)
      then w
      else mark_dirty
          (record w { session = record w.session { content = JsMap.delete key w.session.content } })

  -- What the cookie leads to: the state of the store, and the session when there is one.
  unfoldable pub judge_record :
      ℕ → String → St × Option (SessionRecord (List (String × V))) → St × Option (SessionInternal V)
  judge_record now id (s, none) = (s, none)
  judge_record now id (s, some found) =
      if is_expired now ctx.absolute_timeout found.created_at
      then (ctx.store.erase id s, none)
      else (s, some (new_session id false found.session_data found.created_at))

  unfoldable pub read_session : ℕ → Option String → St → St × Option (SessionInternal V)
  read_session now none s = (s, none)
  read_session now (some id) s =
      if id === "" then (s, none) else judge_record now id (ctx.store.read now id s)

  unfoldable pub find_session : ℕ → Option String → St → St × Option (SessionInternal V)
  find_session now none s = (s, none)
  find_session now (some raw) s =
      if raw === ""
      then (s, none)
      else read_session now (unsign_cookie_value hmac raw (ctx.secret ∷ ctx.older_secrets)) s

  unfoldable pub begin_request : ℕ → String → Bool → St × Option (SessionInternal V) → Request St V
  begin_request now new_id headers_sent (s, found) = record {
    session = elim found [ some session ↦ session | none ↦ new_session new_id true [] now ];
    headers_sent = headers_sent;
    cookies = [];
    stored_state = s;
  }

  -- The cookie that is sent before the handler runs.
  unfoldable pub eager_cookie : Request St V → Request St V
  eager_cookie w =
      if w.session.is_new
      then (if ctx.save_uninitialized then set_cookie_now w else w)
      else (if ctx.rolling then set_cookie_now w else w)

  -- The value of the session's cookie in the request, when there is one.
  unfoldable pub attach_session : ℕ → String → Bool → Option String → St → Request St V
  attach_session now new_id headers_sent raw s =
      eager_cookie (begin_request now new_id headers_sent (find_session now raw s))
