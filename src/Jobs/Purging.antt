-- ===== src/Jobs/Purging.antt =====
-- `purge` of packages/jobs/src/storage.ts: which jobs stay, and the number it returns.
use axiomify.Base.{
  ℕ, suc, ◌+◌, String, Bool, true, false, not, Option, none, List, [], ◌∷◌, ◌++◌, if◌then◌else◌,
  ◌≡◌, inl, inr, refl, sym, arith, length, Bool-cases, append_assoc,
}
use axiomify.JsMap
use axiomify.JsMap.{IsDistinct, keep}
use axiomify.JsMap.Laws.{delete-append, get-append}
use axiomify.Jobs.{Job, is_purged, purge_one, purge_loop, purge}

module _ {P : Type 0} (now : ℕ) (older : Option ℕ) where
  abbrev pub stays : String → Job P → Bool
  stays id j = not (is_purged now older j)

  keep_cons :
      (id : String) (j : Job P) (more : List (String × Job P))
      → keep stays ((id, j) ∷ more)
        ≡ (if is_purged now older j then keep stays more else (id, j) ∷ keep stays more)
  unfolding keep
  keep_cons id j more = ground arith

  get_tail :
      (k id : String) (j : Job P) (more : List (String × Job P))
      → JsMap.get k ((id, j) ∷ more) ≡ none
      → JsMap.get k more ≡ none
  unfolding JsMap.get
  get_tail k id j more h = ground arith

  IsDistinct-middle :
      (before : List (String × Job P)) (id : String) (j : Job P) (more : List (String × Job P))
      → IsDistinct (before ++ (id, j) ∷ more)
      → IsDistinct (before ++ more)
  IsDistinct-middle [] id j more d = d.1
  IsDistinct-middle ((k, v) ∷ before) id j more d = (
    ground (
      arith,
      get-append k before ((id, j) ∷ more),
      get-append k before more,
      get_tail k id j more,
    ),
    IsDistinct-middle before id j more d.1,
  )

  purge_one_drop :
      (before more : List (String × Job P)) (id : String) (j : Job P) (removed : ℕ)
      → IsDistinct (before ++ (id, j) ∷ more)
      → is_purged now older j ≡ true
      → purge_one now older id j (before ++ (id, j) ∷ more, removed) ≡ (before ++ more, suc removed)
  unfolding purge_one
  purge_one_drop before more id j removed d e =
      let a = delete-append id j before more d in ground arith

  purge_one_stay :
      (id : String) (j : Job P) (state : List (String × Job P) × ℕ)
      → is_purged now older j ≡ false
      → purge_one now older id j state ≡ state
  unfolding purge_one
  purge_one_stay id j (jobs, removed) e = ground arith

  -- The loop has dealt with the first part and is to deal with the second.
  record Purged (before more : List (String × Job P)) (removed : ℕ) : Type 0 where
    pub dropped : ℕ
    pub result :
        purge_loop now older more (before ++ more, removed)
        ≡ (before ++ keep stays more, removed + dropped)
    pub counted : dropped + length (keep stays more) ≡ length more

  Purged-drop :
      (before more : List (String × Job P)) (id : String) (j : Job P) (removed : ℕ)
      → IsDistinct (before ++ (id, j) ∷ more)
      → is_purged now older j ≡ true
      → Purged before more (suc removed)
      → Purged before ((id, j) ∷ more) removed
  unfolding purge_loop
  Purged-drop before more id j removed d e p =
      let a = purge_one_drop before more id j removed d e in
      let k = keep_cons id j more in
      let kept : keep stays ((id, j) ∷ more) ≡ keep stays more = ground arith in
      record {
        dropped = suc p.dropped;
        result =
            let n : suc removed + p.dropped ≡ removed + suc p.dropped = omega arith in
            rw (a, kept, sym n) p.result;
        counted = rw kept (omega (arith, p.counted));
      }

  Purged-stay :
      (before more : List (String × Job P)) (id : String) (j : Job P) (removed : ℕ)
      → is_purged now older j ≡ false
      → Purged (before ++ (id, j) ∷ []) more removed
      → Purged before ((id, j) ∷ more) removed
  unfolding purge_loop
  Purged-stay before more id j removed e p =
      let a = purge_one_stay id j (before ++ (id, j) ∷ more, removed) e in
      let k = keep_cons id j more in
      let kept : keep stays ((id, j) ∷ more) ≡ (id, j) ∷ keep stays more = ground arith in
      let left = append_assoc before ((id, j) ∷ []) more in
      let right = append_assoc before ((id, j) ∷ []) (keep stays more) in
      record {
        dropped = p.dropped;
        result = rw (a, kept, sym left, sym right) p.result;
        counted = rw kept (omega (arith, p.counted));
      }

  purge_loop-Purged :
      (before more : List (String × Job P)) (removed : ℕ)
      → IsDistinct (before ++ more)
      → Purged before more removed
  unfolding purge_loop keep
  purge_loop-Purged before [] removed d = record {
    dropped = 0;
    result = ground arith;
    counted = refl;
  }
  purge_loop-Purged before ((id, j) ∷ more) removed d = elim (Bool-cases (is_purged now older j)) [
    | inl e ↦
        Purged-drop before more id j removed d e
          (purge_loop-Purged before more (suc removed) (IsDistinct-middle before id j more d))
    | inr e ↦ Purged-stay before more id j removed e (
        purge_loop-Purged (before ++ (id, j) ∷ []) more removed
          (rw (append_assoc before ((id, j) ∷ []) more) d))
  ]

  purge_lem :
      (jobs : List (String × Job P))
      → Purged [] jobs 0
      → (kept : List (String × Job P)) (removed : ℕ) → purge now older jobs ≡ (kept, removed)
      → (kept ≡ keep stays jobs) × (removed + length kept ≡ length jobs)
  unfolding purge
  purge_lem jobs p kept removed h =
      let r = p.result in
      let k : kept ≡ keep stays jobs = cc (r, h) in
      let n : removed ≡ p.dropped = ground (arith, r, h) in (k, rw (k, n) p.counted)

-- The jobs that stay are those that are not finished, or finished and not old enough, in their order, and
-- the number is how many went.
pub purge-kept :
    {P : Type 0} (now : ℕ) (older : Option ℕ) (jobs kept : List (String × Job P)) (removed : ℕ)
    → IsDistinct jobs
    → purge now older jobs ≡ (kept, removed)
    → (kept ≡ keep (λ id j. not (is_purged now older j)) jobs)
      × (removed + length kept ≡ length jobs)
purge-kept now older jobs kept removed d h =
    purge_lem now older jobs (purge_loop-Purged now older [] jobs 0 d) kept removed h
