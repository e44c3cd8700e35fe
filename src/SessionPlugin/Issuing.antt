-- ===== src/SessionPlugin/Issuing.antt =====
-- packages/session/src/session.ts: the cookie that a response carries for its session.
use axiomify.SessionPlugin.Destroying.{
  Call, putting, removing, touching, destroying, saving, persisting, regenerating, apply_call,
  run_calls,
}
use axiomify.SessionPlugin.Requests.{
  new_session, issue, set_cookie_now, set_cookie_once, mark_dirty, write_record, refresh_record,
  persist, destroy_session, renew, regenerate_session, touch_session, save_now, set_property,
  has_property, delete_property, is_expired, judge_record, read_session, find_session,
  begin_request, eager_cookie, attach_session, is_reserved,
}
use axiomify.SessionPlugin.{SessionPluginContext, CookieHeader, Request, set_header}
use axiomify.Base.{
  ℕ, String, Bool, true, false, not, ◌&&◌, ◌||◌, Option, none, some, List, [], ◌∷◌, if◌then◌else◌,
  ◌===◌, ◌≡◌, inl, inr, refl, sym, arith, Bool-cases, Option-cases, ap, ◌∙◌,
}
use axiomify.Cookies.Signing.{sign_cookie_value, unsign_cookie_value}
use axiomify.Sessions.{SessionRecord}
use mathlib.Core.Option

module _ {St V : Type 0} (hmac : String → String → String) (ctx : SessionPluginContext St V) where
  -- Once the cookie of a session that is not destroyed was set, the last cookie is the signed id.
  unfoldable pub IsIssued : Request St V → Type 0
  IsIssued w =
      w.session.destroyed ≡ false
      → w.session.cookie_set ≡ true
      → (value : String) × (rest : List CookieHeader) × (sign_cookie_value hmac w.session.id
            ctx.secret
          ≡ some value)
        × (w.cookies ≡ set_header ctx.cookie_name value ∷ rest)

  issued :
      (w : Request St V) (o : Option String)
      → sign_cookie_value hmac w.session.id ctx.secret ≡ o
      → IsIssued w
      → IsIssued (issue hmac ctx o w)
  unfolding IsIssued issue
  issued w none e h = h
  issued w (some value) e h = λ d c. (value, w.cookies, e, refl)

  either : (b : Bool) (x y : Request St V) → IsIssued x → IsIssued y → IsIssued (if b then x else y)
  either true x y p q = p
  either false x y p q = q

  -- What has the same cookies, id and flags of the cookie and the end.
  same :
      (w v : Request St V)
      → v.cookies ≡ w.cookies
      → v.session.id ≡ w.session.id
      → v.session.destroyed ≡ w.session.destroyed
      → v.session.cookie_set ≡ w.session.cookie_set
      → IsIssued w
      → IsIssued v
  unfolding IsIssued
  same w v a b c d h = λ alive given.
      let (value, rest, signed, last) = h (sym c ∙ alive) (sym d ∙ given) in
      (value, rest, ap (λ i. sign_cookie_value hmac i ctx.secret) b ∙ signed, a ∙ last)

  unset : (w : Request St V) → w.session.cookie_set ≡ false → IsIssued w
  unfolding IsIssued
  unset w e = λ alive given. absurd (ground arith)

  ended : (w : Request St V) → w.session.destroyed ≡ true → IsIssued w
  unfolding IsIssued
  ended w e = λ alive given. absurd (ground arith)

  set_cookie_now-IsIssued : (w : Request St V) → IsIssued w → IsIssued (set_cookie_now hmac ctx w)
  unfolding set_cookie_now
  set_cookie_now-IsIssued w h =
      either w.headers_sent _ _ (same w _ refl refl refl refl h)
        (issued w (sign_cookie_value hmac w.session.id ctx.secret) refl h)

  pub set_cookie_once-IsIssued :
      (w : Request St V) → IsIssued w → IsIssued (set_cookie_once hmac ctx w)
  unfolding set_cookie_once
  set_cookie_once-IsIssued w h = either w.session.cookie_set w _ h (set_cookie_now-IsIssued w h)

  mark_dirty-IsIssued : (w : Request St V) → IsIssued w → IsIssued (mark_dirty hmac ctx w)
  unfolding mark_dirty
  mark_dirty-IsIssued w h = set_cookie_once-IsIssued _ (same w _ refl refl refl refl h)

  renew-IsIssued :
      (now : ℕ) (new_id : String) (w : Request St V) → IsIssued (renew hmac ctx now new_id w)
  unfolding renew
  renew-IsIssued now new_id w = set_cookie_now-IsIssued _ (unset _ refl)

  -- A call that throws under a test and goes on otherwise.
  thrown :
      (b : Bool) (v w : Request St V)
      → IsIssued w
      → IsIssued v
      → IsIssued (Option.get_or (if b then none else some v) w)
  thrown true v w p q = p
  thrown false v w p q = q

  pub apply_call-IsIssued :
      (call : Call V) (w : Request St V) → IsIssued w → IsIssued (apply_call hmac ctx call w)
  unfolding apply_call set_property delete_property touch_session save_now persist
      regenerate_session refresh_record write_record destroy_session
  apply_call-IsIssued (putting key value) w h =
      thrown (is_reserved key || w.session.destroyed) _ w h
        (mark_dirty-IsIssued _ (same w _ refl refl refl refl h))
  apply_call-IsIssued (removing key) w h =
      either (is_reserved key || w.session.destroyed || not (has_property key w.session.content)) w
        _ h (mark_dirty-IsIssued _ (same w _ refl refl refl refl h))
  apply_call-IsIssued touching w h =
      either w.session.destroyed w _ h (set_cookie_once-IsIssued _ (same w _ refl refl refl refl h))
  apply_call-IsIssued destroying w h = ended (destroy_session hmac ctx w) refl
  apply_call-IsIssued (saving now) w h =
      thrown w.session.destroyed _ w h
        (same (set_cookie_once hmac ctx w) _ refl refl refl refl (set_cookie_once-IsIssued w h))
  apply_call-IsIssued (persisting now) w h =
      either (w.session.destroyed || w.session.persisted) w _ h (
        either (w.session.dirty || (w.session.is_new && ctx.save_uninitialized)) _ _
          (same w _ refl refl refl refl h)
          (either (not w.session.is_new && (w.session.touched || ctx.rolling)) _ _
            (same w _ refl refl refl refl h) (same w _ refl refl refl refl h)))
  apply_call-IsIssued (regenerating now new_id) w h =
      thrown w.session.destroyed _ w h
        (same (renew hmac ctx now new_id w) _ refl refl refl refl (renew-IsIssued now new_id w))

  pub run_calls-IsIssued :
      (calls : List (Call V)) (w : Request St V)
      → IsIssued w
      → IsIssued (run_calls hmac ctx calls w)
  unfolding run_calls
  run_calls-IsIssued [] w h = h
  run_calls-IsIssued (call ∷ calls) w h =
      run_calls-IsIssued calls (apply_call hmac ctx call w) (apply_call-IsIssued call w h)

  judged :
      (now : ℕ) (new_id id : String) (sent : Bool)
      (r : St × Option (SessionRecord (List (String × V))))
      → IsIssued (begin_request hmac ctx now new_id sent (judge_record hmac ctx now id r))
  unfolding judge_record begin_request new_session
  judged now new_id id sent (t, none) = unset _ refl
  judged now new_id id sent (t, some found) =
      elim (Bool-cases (is_expired now ctx.absolute_timeout found.created_at)) [
        | inl late ↦ rw late (unset _ refl)
        | inr live ↦ rw live (unset _ refl)
      ]

  begin_request-IsIssued :
      (now : ℕ) (new_id : String) (sent : Bool) (raw : Option String) (s : St)
      → IsIssued (begin_request hmac ctx now new_id sent (find_session hmac ctx now raw s))
  unfolding find_session read_session begin_request new_session
  begin_request-IsIssued now new_id sent none s = unset _ refl
  begin_request-IsIssued now new_id sent (some cookie) s = elim (Bool-cases (cookie === "")) [
    | inl empty ↦ rw (find_session, empty) (unset _ refl)
    | inr given ↦
        elim (Option-cases (unsign_cookie_value hmac cookie (ctx.secret ∷ ctx.older_secrets))) [
          | inl bad ↦ rw (find_session, given, bad) (unset _ refl)
          | inr (id, valid) ↦ elim (Bool-cases (id === "")) [
            | inl nameless ↦ rw (find_session, given, valid, nameless) (unset _ refl)
            | inr named ↦
                rw (find_session, given, valid, named)
                  (judged now new_id id sent (ctx.store.read now id s))
          ]
        ]
  ]

  pub attach_session-IsIssued :
      (now : ℕ) (new_id : String) (sent : Bool) (raw : Option String) (s : St)
      → IsIssued (attach_session hmac ctx now new_id sent raw s)
  unfolding attach_session eager_cookie
  attach_session-IsIssued now new_id sent raw s =
      let w = begin_request hmac ctx now new_id sent (find_session hmac ctx now raw s) in
      let h : IsIssued w = begin_request-IsIssued now new_id sent raw s in
      either w.session.is_new _ _
        (either ctx.save_uninitialized _ w (set_cookie_now-IsIssued w h) h)
        (either ctx.rolling _ w (set_cookie_now-IsIssued w h) h)
