-- ===== src/Scheduler/Compensating.antt =====
-- `SagaCoordinator.execute` of packages/jobs/src/scheduler.ts: which steps run, and which compensations are
-- enqueued when one throws.
use axiomify.Base.{
  none, some, some, ap, String, Option, List, [], ◌∷◌, ◌++◌, ◌≡◌, ◌⊎◌, inl, inr, refl,
}
use Prim.Native.String
use mathlib.Core.List.{reverse_aux, reverse}
use axiomify.JsMap
use axiomify.Scheduler.{
  SagaStep, Compensation, SagaResult, success, failure, rejected, Outcome, returned, threw,
  compensate, execute_loop, execute,
}

module _ {V : Type 0} where
  -- The steps run one after the other from the first context, return the results and leave the second
  -- context, in which each result is stored under its step's name.
  pub data Ran
      : List (SagaStep V) → List (String × V) → List (String × V) → List (String × V) → Type 0 where
    ran_none : {c : List (String × V)} → Ran [] c [] c
    ran_one :
        {step : SagaStep V} {steps : List (SagaStep V)} {c after results last : List (String × V)}
        {v : V}
        → step.run c ≡ (after, returned v)
        → Ran steps (JsMap.set step.name v after) results last
        → Ran (step ∷ steps) c ((step.name, v) ∷ results) last

  -- A step throws the message, or null or undefined, after the ones before it have run.
  pub record Failed (steps : List (SagaStep V)) (c : List (String × V)) : Type 0 where
    pub done : List (SagaStep V)
    pub step : SagaStep V
    pub more : List (SagaStep V)
    pub results : List (String × V)
    pub before : List (String × V)
    pub after : List (String × V)
    pub error : Option String
    pub split : steps ≡ done ++ step ∷ more
    pub ran : Ran done c results before
    pub throws : step.run before ≡ (after, threw error)

module _ {V S : Type 0} (enqueue : String → Compensation V → S → S × Option String) where
  -- From the first state, one call of `enqueue` for each result, in the order of the list and each from the
  -- state that the call before it left, leads to the second state.
  pub data Enqueued (context : List (String × V)) : List (String × V) → S → S → Type 0 where
    enqueued_none : {s : S} → Enqueued context [] s s
    enqueued_one :
        {name : String} {v : V} {results : List (String × V)} {s after : S} {answer : Option String}
        {last : S}
        → enqueue (String.◌++◌ "compensate:" name) (record { context = context; result = v }) s
          ≡ (after, answer)
        → Enqueued context results after last
        → Enqueued context ((name, v) ∷ results) s last

  compensate-Enqueued :
      (context results : List (String × V)) (s : S)
      → Enqueued context results s (compensate enqueue context results s)
  unfolding compensate
  compensate-Enqueued context [] s = enqueued_none
  compensate-Enqueued context ((name, v) ∷ results) s = enqueued_one refl (
      compensate-Enqueued context results
        (enqueue (String.◌++◌ "compensate:" name) (record { context = context; result = v }) s).0)

  -- What a throwing step ends in: the results are compensated, or nothing is enqueued and the promise
  -- is rejected.
  abbrev pub Rolled :
      Option String → List (String × V) → List (String × V) → S → S × SagaResult V → Type 0
  Rolled none context results s r = r ≡ (s, rejected)
  Rolled (some e) context results s r = Enqueued context results s r.0 × (r.1 ≡ failure context e)

  -- All steps have run, or one has thrown.
  abbrev pub Ended :
      List (SagaStep V) → List (String × V) → List (String × V) → S → S × SagaResult V → Type 0
  Ended steps c executed s r =
      ((results : List (String × V)) × (last : List (String × V)) × Ran steps c results last
        × (r ≡ (s, success last)))
      ⊎ ((f : Failed steps c) × Rolled f.error f.after (reverse_aux f.results executed) s r)

  Ended-later :
      (step : SagaStep V) (steps : List (SagaStep V)) (c after executed : List (String × V)) (v : V)
      (s : S) (r : S × SagaResult V)
      → step.run c ≡ (after, returned v)
      → Ended steps (JsMap.set step.name v after) ((step.name, v) ∷ executed) s r
      → Ended (step ∷ steps) c executed s r
  Ended-later step steps c after executed v s r e (inl (results, last, ran, q)) =
      inl ((step.name, v) ∷ results, last, ran_one e ran, q)
  Ended-later step steps c after executed v s r e (inr (f, q)) = inr (
    record {
      done = step ∷ f.done;
      step = f.step;
      more = f.more;
      results = (step.name, v) ∷ f.results;
      before = f.before;
      after = f.after;
      error = f.error;
      split = ap (λ l. step ∷ l) f.split;
      ran = ran_one e f.ran;
      throws = f.throws;
    },
    q,
  )

  Ended-here :
      (step : SagaStep V) (steps : List (SagaStep V)) (c after executed : List (String × V))
      (error : Option String) (s : S) (r : S × SagaResult V)
      → step.run c ≡ (after, threw error)
      → Rolled error after executed s r
      → Ended (step ∷ steps) c executed s r
  Ended-here step steps c after executed error s r e rolled = inr (
    record {
      done = [];
      step = step;
      more = steps;
      results = [];
      before = c;
      after = after;
      error = error;
      split = refl;
      ran = ran_none;
      throws = e;
    },
    rolled,
  )

  Ended-outcome :
      (step : SagaStep V) (steps : List (SagaStep V)) (c executed : List (String × V)) (s : S)
      (after : List (String × V)) (outcome : Outcome V)
      → step.run c ≡ (after, outcome)
      → ((d : List (String × V)) (x : List (String × V))
          → Ended steps d x s (execute_loop enqueue steps d x s))
      → Ended (step ∷ steps) c executed s (elim outcome [
        | returned v ↦
            execute_loop enqueue steps (JsMap.set step.name v after) ((step.name, v) ∷ executed) s
        | threw message ↦ elim message [
          | none ↦ (s, rejected)
          | some e ↦ (compensate enqueue after executed s, failure after e)
        ]
      ])
  Ended-outcome step steps c executed s after (returned v) e rest =
      let d = JsMap.set step.name v after in
      let x : List (String × V) = (step.name, v) ∷ executed in
      Ended-later step steps c after executed v s (execute_loop enqueue steps d x s) e (rest d x)
  Ended-outcome step steps c executed s after (threw none) e rest =
      Ended-here step steps c after executed none s (s, rejected) e refl
  Ended-outcome step steps c executed s after (threw (some error)) e rest =
      Ended-here step steps c after executed (some error) s
        (compensate enqueue after executed s, failure after error) e
        (compensate-Enqueued after executed s, refl)

  execute_loop-Ended :
      (steps : List (SagaStep V)) (c executed : List (String × V)) (s : S)
      → Ended steps c executed s (execute_loop enqueue steps c executed s)
  unfolding execute_loop
  execute_loop-Ended [] c executed s = inl ([], c, ran_none, refl)
  execute_loop-Ended (step ∷ steps) c executed s =
      Ended-outcome step steps c executed s (step.run c).0 (step.run c).1 refl
        (λ d x. execute_loop-Ended steps d x s)

-- Either all steps run in order, each on the context that holds the results before it, and nothing is
-- enqueued; or a step throws and no later step runs. Then `enqueue` is called once for each step before
-- it, the last one first, with that step's result and the context as the throwing step left it, whether or
-- not a call succeeds, and the saga ends in failure with the error; where null or undefined was thrown,
-- nothing is enqueued and the promise is rejected.
pub execute-Ended :
    {V S : Type 0} (enqueue : String → Compensation V → S → S × Option String)
    (steps : List (SagaStep V)) (c : List (String × V)) (s : S)
    → ((results : List (String × V)) × (last : List (String × V)) × Ran steps c results last
        × (execute enqueue steps c s ≡ (s, success last)))
      ⊎ ((f : Failed steps c) × Rolled enqueue f.error f.after
            (reverse f.results)
            s
            (execute enqueue steps c s))
unfolding execute
execute-Ended enqueue steps c s = execute_loop-Ended enqueue steps c [] s
