-- ===== src/SessionPlugin/Attaching.antt =====
-- packages/session/src/session.ts: which session a request gets.
use axiomify.SessionPlugin.{SessionPluginContext, SessionInternal, Request}
use axiomify.SessionPlugin.Requests.{
  new_session, issue, set_cookie_now, is_expired, judge_record, read_session, find_session,
  begin_request, eager_cookie, attach_session,
}
use axiomify.Base.{
  ◌*◌, ◌+◌, ◌<◌, ℕ, String, Bool, true, false, Option, none, some, List, [], ◌∷◌, ◌===◌, ◌≡◌, ◌⊎◌,
  inl, inr, refl, sym, arith, Bool-cases, Option-cases, ap, ◌∙◌,
}
use axiomify.Cookies.Signing.{sign_cookie_value, unsign_cookie_value}
use axiomify.Sessions.{SessionRecord}

-- The parts of a session that cookies do not change.
unfoldable pub core : {V : Type 0} → SessionInternal V → SessionInternal V
core session = record session { cookie_set = false; warned_headers_sent = false }

-- The time is before the end of the absolute timeout, when there is one.
abbrev pub IsWithin : ℕ → Option ℕ → ℕ → Type 0
IsWithin now none created_at = Unit
IsWithin now (some seconds) created_at = now < created_at + seconds * 1000

is_expired-IsWithin :
    (now : ℕ) (timeout : Option ℕ) (created_at : ℕ)
    → is_expired now timeout created_at ≡ false
    → IsWithin now timeout created_at
unfolding is_expired
is_expired-IsWithin now none created_at e = tt
is_expired-IsWithin now (some seconds) created_at e = ground arith

module _ {St V : Type 0} (hmac : String → String → String) (ctx : SessionPluginContext St V) where
  pub core-set_cookie_now :
      (w : Request St V) → core (set_cookie_now hmac ctx w).session ≡ core w.session
  unfolding set_cookie_now issue core
  core-set_cookie_now w = elim (Option-cases (sign_cookie_value hmac w.session.id ctx.secret)) [
    | inl unsigned ↦ ground arith
    | inr (value, e) ↦ ground arith
  ]

  pub core-eager_cookie :
      (w : Request St V) → core (eager_cookie hmac ctx w).session ≡ core w.session
  unfolding eager_cookie
  core-eager_cookie w = ground (arith, core-set_cookie_now w)

  -- The session is new, with an id that was drawn for it and no data.
  unfoldable pub IsFresh : ℕ → String → SessionInternal V → Type 0
  IsFresh now new_id session =
      (session.id ≡ new_id)
      × (session.is_new ≡ true)
      × (session.content ≡ [])
      × (session.created_at ≡ now)

  -- The session is the record that the store has for an id which the cookie carries under a valid signature,
  -- within the absolute timeout.
  unfoldable pub IsStored : ℕ → Option String → St → SessionInternal V → Type 0
  IsStored now raw s session =
      (cookie : String) × (found : SessionRecord (List (String × V))) × (raw ≡ some cookie)
      × (unsign_cookie_value hmac cookie (ctx.secret ∷ ctx.older_secrets) ≡ some session.id)
      × ((ctx.store.read now session.id s).1 ≡ some found)
      × IsWithin now ctx.absolute_timeout found.created_at
      × (session.is_new ≡ false)
      × (session.content ≡ found.session_data)
      × (session.created_at ≡ found.created_at)

  IsFresh-core :
      (now : ℕ) (new_id : String) (x y : SessionInternal V)
      → core x ≡ core y
      → IsFresh now new_id y
      → IsFresh now new_id x
  unfolding IsFresh core
  IsFresh-core now new_id x y e (a, b, c, d) = (
    ap (λ z. z.id) e ∙ a,
    ap (λ z. z.is_new) e ∙ b,
    ap (λ z. z.content) e ∙ c,
    ap (λ z. z.created_at) e ∙ d,
  )

  IsStored-core :
      (now : ℕ) (raw : Option String) (s : St) (x y : SessionInternal V)
      → core x ≡ core y
      → IsStored now raw s y
      → IsStored now raw s x
  unfolding IsStored core
  IsStored-core now raw s x y e (cookie, found, a, b, c, d, f, g, h) =
      let same_id : x.id ≡ y.id = ap (λ z. z.id) e in
      (
        cookie,
        found,
        a,
        rw same_id b,
        rw same_id c,
        d,
        ap (λ z. z.is_new) e ∙ f,
        ap (λ z. z.content) e ∙ g,
        ap (λ z. z.created_at) e ∙ h,
      )

  started_IsFresh :
      (now : ℕ) (new_id : String) (sent : Bool) (s : St)
      → IsFresh now new_id (begin_request hmac ctx now new_id sent (s, none)).session
  unfolding IsFresh begin_request new_session
  started_IsFresh now new_id sent s = (refl, refl, refl, refl)

  judged :
      (now : ℕ) (new_id cookie id : String) (sent : Bool) (s : St)
      (r : St × Option (SessionRecord (List (String × V))))
      → unsign_cookie_value hmac cookie (ctx.secret ∷ ctx.older_secrets) ≡ some id
      → r ≡ ctx.store.read now id s
      → let w = begin_request hmac ctx now new_id sent (judge_record hmac ctx now id r) in
        IsFresh now new_id w.session ⊎ IsStored now (some cookie) s w.session
  unfolding begin_request judge_record IsFresh IsStored new_session
  judged now new_id cookie id sent s (t, none) e same = inl (refl, refl, refl, refl)
  judged now new_id cookie id sent s (t, some found) e same =
      elim (Bool-cases (is_expired now ctx.absolute_timeout found.created_at)) [
        | inl late ↦ rw late (inl (refl, refl, refl, refl))
        | inr live ↦ rw live (
            inr (
              cookie,
              found,
              refl,
              e,
              ap (λ r. r.1) (sym same),
              is_expired-IsWithin now ctx.absolute_timeout found.created_at live,
              refl,
              refl,
              refl,
            ))
      ]

  begun :
      (now : ℕ) (new_id : String) (sent : Bool) (raw : Option String) (s : St)
      → let w = begin_request hmac ctx now new_id sent (find_session hmac ctx now raw s) in
        IsFresh now new_id w.session ⊎ IsStored now raw s w.session
  unfolding find_session read_session
  begun now new_id sent none s = inl (started_IsFresh now new_id sent s)
  begun now new_id sent (some cookie) s = elim (Bool-cases (cookie === "")) [
    | inl empty ↦ rw (find_session, empty) (inl (started_IsFresh now new_id sent s))
    | inr given ↦
        elim (Option-cases (unsign_cookie_value hmac cookie (ctx.secret ∷ ctx.older_secrets))) [
          | inl bad ↦ rw (find_session, given, bad) (inl (started_IsFresh now new_id sent s))
          | inr (id, valid) ↦ elim (Bool-cases (id === "")) [
            | inl nameless ↦
                rw (find_session, given, valid, nameless) (inl (started_IsFresh now new_id sent s))
            | inr named ↦
                rw (find_session, given, valid, named)
                  (judged now new_id cookie id sent s (ctx.store.read now id s) valid refl)
          ]
        ]
  ]

  -- Whatever a request brings, its session is new, with the id that was drawn for it, no data and the present
  -- as its time of creation; or it is the one that the store has for an id which the request's cookie
  -- carries under the HMAC of one of the secrets, with its data and its time of creation, within the
  -- absolute timeout. An id that the client made up is never taken.
  pub attach_session_origin :
      (now : ℕ) (new_id : String) (sent : Bool) (raw : Option String) (s : St)
      → IsFresh now new_id (attach_session hmac ctx now new_id sent raw s).session
        ⊎ IsStored now raw s (attach_session hmac ctx now new_id sent raw s).session
  unfolding attach_session
  attach_session_origin now new_id sent raw s =
      let w = begin_request hmac ctx now new_id sent (find_session hmac ctx now raw s) in
      elim (begun now new_id sent raw s) [
        | inl fresh ↦ inl (IsFresh-core now new_id _ w.session (core-eager_cookie w) fresh)
        | inr stored ↦ inr (IsStored-core now raw s _ w.session (core-eager_cookie w) stored)
      ]
