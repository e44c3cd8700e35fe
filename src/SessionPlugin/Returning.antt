-- ===== src/SessionPlugin/Returning.antt =====
-- packages/session/src/session.ts: where the cookie of a session leads in the next request.
use axiomify.SessionPlugin.Attaching.{core, core-set_cookie_now, core-eager_cookie}
use axiomify.SessionPlugin.Requests.{
  new_session, issue, set_cookie_now, set_cookie_once, write_record, persist, is_expired,
  judge_record, read_session, find_session, begin_request, attach_session,
}
use axiomify.SessionPlugin.{SessionPluginContext, Request}
use axiomify.Base.{
  ℕ, String, true, false, Option, none, some, List, [], ◌∷◌, ◌===◌, ◌≡◌, inl, inr, refl, sym, arith,
  eq_iff, Bool-cases, Option-cases, ap, ◌∙◌,
}
use axiomify.Cookies.Signing.{
  sign_cookie_value, unsign_cookie_value, unsign_cookie_value-sign_cookie_value, signed_part,
}
use axiomify.Texts.{contains, is_empty}
use axiomify.Sessions.{SessionRecord}
use mathlib.Core.Option
use mathlib.Core.Option.{some-injective}

module _ {St V : Type 0} (hmac : String → String → String) (ctx : SessionPluginContext St V) where
  signed :
      (value : String)
      → is_empty ctx.secret ≡ false
      → (cookie : String) × (sign_cookie_value hmac value ctx.secret ≡ some cookie)
  unfolding sign_cookie_value
  signed value e = elim (Option-cases (sign_cookie_value hmac value ctx.secret)) [
    | inl bad ↦ absurd (ground arith)
    | inr cookie ↦ cookie
  ]

  pub given_once :
      (w : Request St V)
      → w.headers_sent ≡ false
      → is_empty ctx.secret ≡ false
      → (set_cookie_once hmac ctx w).session.cookie_set ≡ true
  unfolding set_cookie_once set_cookie_now issue
  given_once w open_one e =
      let (cookie, known) = signed w.session.id e in
      elim (Bool-cases w.session.cookie_set) [
        | inl given ↦ ground arith
        | inr missing ↦ rw (missing, open_one, known) refl
      ]

  pub core-set_cookie_once :
      (w : Request St V) → core (set_cookie_once hmac ctx w).session ≡ core w.session
  unfolding set_cookie_once
  core-set_cookie_once w = ground (arith, core-set_cookie_now hmac ctx w)

  judged :
      (later : ℕ) (id : String) (r : St × Option (SessionRecord (List (String × V))))
      (found : SessionRecord (List (String × V)))
      → r.1 ≡ some found
      → is_expired later ctx.absolute_timeout found.created_at ≡ false
      → (judge_record hmac ctx later id r).1
        ≡ some (new_session id false found.session_data found.created_at)
  unfolding judge_record
  judged later id (t, none) found e live = absurd (ground arith)
  judged later id (t, some f) found e live = rw (some-injective f found e, live) refl

  -- The session of the record that the cookie of its id leads to.
  pub reattached :
      (later : ℕ) (fresh id cookie : String) (s : St) (found : SessionRecord (List (String × V)))
      → (cookie === "") ≡ false
      → (id === "") ≡ false
      → unsign_cookie_value hmac cookie (ctx.secret ∷ ctx.older_secrets) ≡ some id
      → (ctx.store.read later id s).1 ≡ some found
      → is_expired later ctx.absolute_timeout found.created_at ≡ false
      → core (attach_session hmac ctx later fresh false (some cookie) s).session
        ≡ core (new_session id false found.session_data found.created_at)
  unfolding attach_session begin_request find_session read_session
  reattached later fresh id cookie s found given named valid there live =
      core-eager_cookie hmac ctx
        (begin_request hmac ctx later fresh false (find_session hmac ctx later (some cookie) s))
      ∙ rw (begin_request, find_session, given, valid, named)
          (rw (judged later id (ctx.store.read later id s) found there live) refl)

  nothing_signed : unsign_cookie_value hmac "" (ctx.secret ∷ ctx.older_secrets) ≡ none
  unfolding unsign_cookie_value signed_part Option.bind
  nothing_signed = refl

  pub given_cookie :
      (cookie id : String)
      → unsign_cookie_value hmac cookie (ctx.secret ∷ ctx.older_secrets) ≡ some id
      → (cookie === "") ≡ false
  given_cookie cookie id valid = elim (Bool-cases (cookie === "")) [
    | inl empty ↦
        let same : cookie ≡ "" = (eq_iff cookie "").0 empty in
        let both =
          sym valid
          ∙ ap (λ c. unsign_cookie_value hmac c (ctx.secret ∷ ctx.older_secrets)) same
          ∙ nothing_signed in
        absurd (ground arith)
    | inr given ↦ given
  ]

  pub unsigned :
      (id cookie : String)
      → is_empty ctx.secret ≡ false
      → contains b'.' (hmac id ctx.secret) ≡ false
      → sign_cookie_value hmac id ctx.secret ≡ some cookie
      → unsign_cookie_value hmac cookie (ctx.secret ∷ ctx.older_secrets) ≡ some id
  unfolding Option.bind
  unsigned id cookie e dotless known =
      let back =
        (unsign_cookie_value-sign_cookie_value hmac id ctx.secret [] ctx.older_secrets [] e
          dotless).0 in
      ap
        (λ o.
          Option.bind o
            (λ signed. unsign_cookie_value hmac signed (ctx.secret ∷ ctx.older_secrets)))
        (sym known)
      ∙ back

  pub stored-set_cookie_once :
      (w : Request St V) → (set_cookie_once hmac ctx w).stored_state ≡ w.stored_state
  unfolding set_cookie_once set_cookie_now issue
  stored-set_cookie_once w = elim (Option-cases (sign_cookie_value hmac w.session.id ctx.secret)) [
    | inl bad ↦ ground arith
    | inr (cookie, e) ↦ ground arith
  ]

  pub persist_dirty :
      (now : ℕ) (m : Request St V)
      → m.session.destroyed ≡ false
      → m.session.persisted ≡ false
      → m.session.dirty ≡ true
      → persist hmac ctx now m ≡ write_record hmac ctx now m
  unfolding persist
  persist_dirty now m d p q = rw (persist, d, p, q) refl
