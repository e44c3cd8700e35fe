-- ===== src/Sessions/Evicting.antt =====
-- `set` of packages/session/src/stores.ts: what it keeps.
use axiomify.Base.{
  ℕ, zero, suc, ◌+◌, ◌-◌, ◌*◌, ◌≤◌, String, List, [], ◌∷◌, ◌++◌, if◌then◌else◌, ltb, length, drop,
  ◌≡◌, ◌∙◌, refl, sym, ap, arith, inl, inr, Bool-cases, ===_refl, length-drop,
}
use axiomify.JsMap
use axiomify.JsMap.{IsDistinct, keep, first_key}
use axiomify.JsMap.Laws.{
  get-delete, delete-IsDistinct, set-IsDistinct, delete_absent, keep-IsDistinct, set_absent,
}
use axiomify.Sessions
use axiomify.Sessions.{SessionRecord, Entry, MemorySessionStore, sweep, evict_loop, is_live}

module _ {D : Type 0} where
  delete_first :
      (k : String) (v : Entry D) (m : List (String × Entry D))
      → IsDistinct ((k, v) ∷ m)
      → JsMap.delete k ((k, v) ∷ m) ≡ m
  unfolding JsMap.delete
  delete_first k v m d = ground (arith, ===_refl k, delete_absent k m d.0)

  drop_nil : (n : ℕ) → drop {A = String × Entry D} n [] ≡ []
  drop_nil zero = refl
  drop_nil (suc n) = refl

  evict_loop-drop :
      (fuel max : ℕ) (m : List (String × Entry D))
      → IsDistinct m
      → length m ≤ fuel
      → evict_loop fuel max m ≡ drop (length m - max) m
  unfolding evict_loop
  evict_loop-drop zero max [] d l = sym (drop_nil (0 - max))
  evict_loop-drop zero max (x ∷ m) d l = absurd (omega arith)
  evict_loop-drop (suc fuel) max [] d l = sym (drop_nil (0 - max))
  evict_loop-drop (suc fuel) max ((k, v) ∷ m) d l = elim (Bool-cases (ltb max (suc (length m)))) [
    | inl e ↦
        let n : suc (length m) - max ≡ suc (length m - max) = ground arith in
        rw (e, n, delete_first k v m d) (evict_loop-drop fuel max m d.1 (omega arith))
    | inr e ↦ let n : suc (length m) - max ≡ 0 = ground arith in rw (e, n) refl
  ]

  -- The sessions with the written one last.
  abbrev pub rewritten :
      ℕ → String → SessionRecord D → ℕ → MemorySessionStore D → List (String × Entry D)
  rewritten now id stored ttl_seconds s =
      JsMap.delete id s.sessions
      ++ (id, record { stored = stored; expires_at = now + ttl_seconds * 1000 }) ∷ []

  -- Those of them that are kept: all that fit, or else the live ones less the oldest that are too many.
  abbrev pub kept : ℕ → ℕ → List (String × Entry D) → List (String × Entry D)
  kept now max sessions =
      let live = keep (is_live now) sessions in
      if ltb max (length sessions) then drop (length live - max) live else sessions

  set-rewritten :
      (id : String) (entry : Entry D) (m : List (String × Entry D))
      → JsMap.set id entry (JsMap.delete id m) ≡ JsMap.delete id m ++ (id, entry) ∷ []
  set-rewritten id entry m =
      set_absent id entry (JsMap.delete id m) (rw (get-delete id id m, ===_refl id) refl)

  length-kept-le : (now max : ℕ) (m : List (String × Entry D)) → length (kept now max m) ≤ max
  length-kept-le now max m = elim (Bool-cases (ltb max (length m))) [
    | inl e ↦
        rw e
          (omega (arith, length-drop (length (keep (is_live now) m) - max) (keep (is_live now) m)))
    | inr e ↦ rw e (ground arith)
  ]

  written-IsDistinct :
      (id : String) (entry : Entry D) (m : List (String × Entry D))
      → IsDistinct m
      → IsDistinct (JsMap.set id entry (JsMap.delete id m))
  written-IsDistinct id entry m d =
      set-IsDistinct id entry (JsMap.delete id m) (delete-IsDistinct id m d)

  limited :
      (now max : ℕ) (m : List (String × Entry D))
      → IsDistinct m
      → (if ltb max (length m) then evict_loop (length (sweep now m)) max (sweep now m) else m)
        ≡ kept now max m
  unfolding sweep
  limited now max m d = elim (Bool-cases (ltb max (length m))) [
    | inl e ↦ rw e (
        evict_loop-drop (length (keep (is_live now) m)) max (keep (is_live now) m)
          (keep-IsDistinct (is_live now) m d) (omega arith))
    | inr e ↦ rw e refl
  ]

  set_sessions :
      (now : ℕ) (id : String) (stored : SessionRecord D) (ttl_seconds : ℕ)
      (s : MemorySessionStore D)
      → IsDistinct s.sessions
      → (Sessions.set now id stored ttl_seconds s).sessions
        ≡ kept now s.max_sessions (rewritten now id stored ttl_seconds s)
  unfolding Sessions.set
  set_sessions now id stored ttl_seconds s d =
      let entry : Entry D = record { stored = stored; expires_at = now + ttl_seconds * 1000 } in
      limited now s.max_sessions (JsMap.set id entry (JsMap.delete id s.sessions))
        (written-IsDistinct id entry s.sessions d)
      ∙ ap (kept now s.max_sessions) (set-rewritten id entry s.sessions)

-- A write puts the session last; if there are then more sessions than the maximum, those that have expired
-- go first, and after them the ones written longest ago, until the maximum is met.
pub set-kept :
    {D : Type 0} (now : ℕ) (id : String) (stored : SessionRecord D) (ttl_seconds : ℕ)
    (s : MemorySessionStore D)
    → IsDistinct s.sessions
    → ((Sessions.set now id stored ttl_seconds s).sessions
        ≡ kept now s.max_sessions (rewritten now id stored ttl_seconds s))
      × (length (Sessions.set now id stored ttl_seconds s).sessions ≤ s.max_sessions)
set-kept now id stored ttl_seconds s d =
    let e = set_sessions now id stored ttl_seconds s d in
    (e, rw e (length-kept-le now s.max_sessions (rewritten now id stored ttl_seconds s)))
