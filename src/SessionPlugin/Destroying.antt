-- ===== src/SessionPlugin/Destroying.antt =====
-- packages/session/src/session.ts: the calls that a handler makes on its session, and what is left of a
-- session that was destroyed.
use axiomify.SessionPlugin.Requests.{
  persist, destroy_session, regenerate_session, touch_session, save_now, set_property,
  delete_property, is_reserved,
}
use axiomify.SessionPlugin.{SessionPluginContext, Request}
use axiomify.Base.{
  ℕ, String, true, none, List, [], ◌∷◌, ◌≡◌, ◌⊎◌, inl, inr, refl, sym, Bool-cases, ap, ◌∙◌,
}
use mathlib.Core.Option
use mathlib.Core.Path.{subst}

-- A call with the time and the random id it would use. What throws leaves the request as it was.
pub data Call (V : Type 0) : Type 0 where
  putting : String → V → Call V
  removing : String → Call V
  touching destroying : Call V
  saving persisting : ℕ → Call V
  regenerating : ℕ → String → Call V

module _ {St V : Type 0} (hmac : String → String → String) (ctx : SessionPluginContext St V) where
  unfoldable pub apply_call : Call V → Request St V → Request St V
  apply_call (putting key value) w = Option.get_or (set_property hmac ctx key value w) w
  apply_call (removing key) w = delete_property hmac ctx key w
  apply_call touching w = touch_session hmac ctx w
  apply_call destroying w = destroy_session hmac ctx w
  apply_call (saving now) w = Option.get_or (save_now hmac ctx now w) w
  apply_call (persisting now) w = persist hmac ctx now w
  apply_call (regenerating now new_id) w =
      Option.get_or (regenerate_session hmac ctx now new_id w) w

  unfoldable pub run_calls : List (Call V) → Request St V → Request St V
  run_calls [] w = w
  run_calls (call ∷ calls) w = run_calls calls (apply_call call w)

  -- The session is destroyed, has no data, and the last that befell the store is its erasure.
  IsErased : String → Request St V → Type 0
  IsErased id w =
      (w.session.destroyed ≡ true)
      × (w.session.content ≡ [])
      × (w.session.id ≡ id)
      × ((s : St) × (w.stored_state ≡ ctx.store.erase id s))

  destroyed_again :
      (id : String) (w : Request St V)
      → w.session.id ≡ id
      → IsErased id (destroy_session hmac ctx w)
  unfolding IsErased destroy_session
  destroyed_again id w e =
      (refl, refl, e, (w.stored_state, ap (λ i. ctx.store.erase i w.stored_state) e))

  -- A destroyed session takes no call but to be destroyed again.
  refused :
      (call : Call V) (w : Request St V)
      → w.session.destroyed ≡ true
      → (apply_call call w ≡ w) ⊎ (apply_call call w ≡ destroy_session hmac ctx w)
  unfolding apply_call set_property delete_property touch_session save_now persist
      regenerate_session
  refused (putting key value) w d = elim (Bool-cases (is_reserved key)) [
    | inl own ↦ inl (rw own refl)
    | inr free ↦ inl (rw (free, d) refl)
  ]
  refused (removing key) w d = elim (Bool-cases (is_reserved key)) [
    | inl own ↦ inl (rw own refl)
    | inr free ↦ inl (rw (free, d) refl)
  ]
  refused touching w d = inl (rw d refl)
  refused destroying w d = inr refl
  refused (saving now) w d = inl (rw d refl)
  refused (persisting now) w d = inl (rw d refl)
  refused (regenerating now new_id) w d = inl (rw d refl)

  apply_call-IsErased :
      (call : Call V) (id : String) (w : Request St V)
      → IsErased id w
      → IsErased id (apply_call call w)
  unfolding IsErased
  apply_call-IsErased call id w h = elim (refused call w h.0) [
    | inl same ↦ subst (λ u. IsErased id u) (sym same) h
    | inr again ↦ subst (λ u. IsErased id u) (sym again) (destroyed_again id w h.2)
  ]

  run_calls-IsErased :
      (calls : List (Call V)) (id : String) (w : Request St V)
      → IsErased id w
      → IsErased id (run_calls calls w)
  unfolding run_calls
  run_calls-IsErased [] id w h = h
  run_calls-IsErased (call ∷ calls) id w h =
      run_calls-IsErased calls id (apply_call call w) (apply_call-IsErased call id w h)

  -- Over a store that has nothing for an id which it just erased: a session that was destroyed stays so
  -- through any further calls of the request, its data is empty, and whenever its id is read the store has
  -- nothing for it.
  pub run_calls-destroy_session :
      ((now : ℕ) (id : String) (s : St) → (ctx.store.read now id (ctx.store.erase id s)).1 ≡ none)
      → (calls : List (Call V)) (w : Request St V) (now : ℕ)
      → let after = run_calls calls (destroy_session hmac ctx w) in
        (after.session.destroyed ≡ true)
        × (after.session.content ≡ [])
        × ((ctx.store.read now w.session.id after.stored_state).1 ≡ none)
  unfolding IsErased
  run_calls-destroy_session erased calls w now =
      let (d, c, _, (s, e)) =
        run_calls-IsErased calls w.session.id (destroy_session hmac ctx w)
          (destroyed_again w.session.id w refl) in
      (d, c, ap (λ t. (ctx.store.read now w.session.id t).1) e ∙ erased now w.session.id s)
