-- ===== src/Tests/JobsTests.antt =====
-- The in-memory job storage of packages/jobs/src/storage.ts at small inputs.
use axiomify.Base.{ℕ, ◌+◌, ◌≤◌, String, false, none, some, List, [], ◌∷◌, ◌≡◌, refl, arith, All}
use axiomify.JsMap
use axiomify.JsMap.{keep}
use axiomify.Jobs
use axiomify.Jobs.{
  Job, Status, pending, completed, running, failed, save, acquire_next, purge, is_purged, get_jobs,
}
use axiomify.Jobs.Storing.{Acquired, IsDue, acquire_next-Acquired, acquire_next-nothing}
use axiomify.Jobs.Calls.{
  Call, acquire_call, complete_call, fail_call, apply, acquisitions, IsFiled, saves,
}
use axiomify.Jobs.Attempts.{acquired_once, acquisitions_bounded}

program : Unit {0}
unfolding apply acquisitions Jobs.save Jobs.acquire_next Jobs.candidates Jobs.sort Jobs.insert
    Jobs.filter Jobs.values Jobs.is_candidate Jobs.lock Jobs.complete Jobs.fail Jobs.failed_job
    Jobs.purge Jobs.purge_loop Jobs.purge_one Jobs.is_purged Jobs.clear JsMap.get JsMap.set
    JsMap.delete JsMap.keep
program = tt

abbrev mail : String → ℕ → ℕ → Job ℕ
mail id priority run_at = record {
  id = id;
  queue = "mail";
  name = "send";
  payload = 7;
  status = pending;
  priority = priority;
  run_at = run_at;
  attempts = 0;
  max_attempts = 2;
  error = none;
  locked_at = none;
  lock_expires_at = none;
  trace_context = none;
}

abbrev waiting : List (String × Job ℕ)
waiting =
    ("a", mail "a" 1 100)
    ∷ ("b", mail "b" 5 100)
    ∷ ("c", mail "c" 5 100)
    ∷ ("d", mail "d" 9 900)
    ∷ []

waiting-IsFiled : IsFiled waiting
unfolding JsMap.get
waiting-IsFiled = ((refl, (refl, (refl, (refl, tt)))), (refl, (refl, (refl, (refl, tt)))))

takes_b : (acquire_next 200 "mail" 30 waiting).1 ≡ some (Jobs.lock 230 (mail "b" 5 100))
unfolding program
takes_b = refl

-- The first try fails and is retried, the second fails for good.
abbrev calls : List (Call ℕ)
calls =
    acquire_call 200 "mail" 30
    ∷ fail_call 210 "b" "timeout" (some 10)
    ∷ complete_call "c"
    ∷ acquire_call 300 "mail" 30
    ∷ fail_call 310 "b" "timeout" (some 10)
    ∷ acquire_call 400 "mail" 30
    ∷ []

twice : acquisitions "b" calls waiting ≡ 2
unfolding program
twice = refl

fails_for_good : All (λ c. saves "b" c ≡ false) calls
fails_for_good = (refl, (refl, (refl, (refl, (refl, (refl, tt))))))

acquire_next-Acquired_example :
    Acquired 200 "mail" 30 waiting
      (acquire_next 200 "mail" 30 waiting).0
      (Jobs.lock 230 (mail "b" 5 100))
unfolding program
acquire_next-Acquired_example =
    acquire_next-Acquired 200 "mail" 30 waiting (acquire_next 200 "mail" 30 waiting).0
      (Jobs.lock 230 (mail "b" 5 100)) waiting-IsFiled.0 waiting-IsFiled.1 refl

-- At the time 50 no job of the list is due.
acquire_next-nothing_example : (waiting ≡ waiting) × All (λ e. ¬ IsDue 50 "mail" e.1) waiting
unfolding program
acquire_next-nothing_example = acquire_next-nothing 50 "mail" 30 waiting waiting refl

abbrev done_jobs : List (String × Job ℕ)
done_jobs = ("a", mail "a" 1 100) ∷ ("z", record (mail "z" 1 100) { status = completed }) ∷ []

abbrev left : List (String × Job ℕ)
left = ("a", mail "a" 1 100) ∷ []

done_jobs-IsDistinct : JsMap.IsDistinct done_jobs
unfolding JsMap.get
done_jobs-IsDistinct = (refl, (refl, tt))

-- Long after its lock has run out, a job whose worker never reports is not handed out again.
abbrev silent : List (Call ℕ)
silent = acquire_call 200 "mail" 30 ∷ acquire_call 999999 "mail" 30 ∷ complete_call "c" ∷ []

acquired_once_example : acquisitions "b" silent waiting ≤ 1
acquired_once_example =
    acquired_once "b" silent waiting waiting-IsFiled
      ((refl, refl), ((refl, refl), ((refl, refl), tt)))

acquisitions_bounded_example : acquisitions "b" calls (save (mail "b" 5 100) waiting) + 0 ≤ 2
acquisitions_bounded_example =
    acquisitions_bounded (mail "b" 5 100) calls waiting waiting-IsFiled refl (omega arith)
      fails_for_good
