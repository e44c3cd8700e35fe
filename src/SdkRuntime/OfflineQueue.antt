-- ===== src/SdkRuntime/OfflineQueue.antt =====
-- packages/sdk-runtime/src/offline.ts. The processor works on a state; it tells whether it threw, and which
-- requests were queued while it ran. The id of a request is random, a parameter of `enqueue_request`.
use axiomify.Base.{
  ℕ, ◌+◌, String, Bool, true, false, Option, none, some, List, [], ◌∷◌, ◌++◌, if◌then◌else◌, length,
  ◌≡◌, refl, arith, length-append, append_assoc, append-nil, Bool-cases, inl, inr, sym, ap, ◌∙◌,
}

pub record QueuedRequest : Type 0 where
  pub id : String
  pub path : String
  pub method : String
  pub timestamp : ℕ

unfoldable pub enqueue_request :
    String → ℕ → String → String → List QueuedRequest → List QueuedRequest
enqueue_request id now path method queue =
    queue ++ record { id = id; path = path; method = method; timestamp = now } ∷ []

-- What a call of the processor did.
pub record Processed (S : Type 0) : Type 0 where
  pub after : S
  pub threw : Bool
  pub queued : List QueuedRequest

module _ {S : Type 0} where
  unfoldable pub process :
      Option (QueuedRequest → S → Processed S) → QueuedRequest → S → Processed S
  process none req s = record { after = s; threw = false; queued = [] }
  process (some processor) req s = processor req s

  -- The queue and the state after the requests were processed.
  unfoldable pub flush_loop :
      Option (QueuedRequest → S → Processed S)
      → List QueuedRequest
      → List QueuedRequest
      → S
      → List QueuedRequest × S
  flush_loop processor [] queue s = (queue, s)
  flush_loop processor (req ∷ reqs) queue s =
      let p = process processor req s in
      let failed = if p.threw then req ∷ [] else [] in
      flush_loop processor reqs ((queue ++ p.queued) ++ failed) p.after

  unfoldable pub flush :
      Bool
      → Option (QueuedRequest → S → Processed S)
      → List QueuedRequest
      → S
      → List QueuedRequest × S
  flush online processor queue s = if online then flush_loop processor queue [] s else (queue, s)

  -- What the calls for the requests leave in the queue, in order, and how many of them returned.
  abbrev pub left_over :
      Option (QueuedRequest → S → Processed S) → List QueuedRequest → S → List QueuedRequest
  left_over processor [] s = []
  left_over processor (req ∷ reqs) s =
      let p = process processor req s in
      (p.queued ++ (if p.threw then req ∷ [] else [])) ++ left_over processor reqs p.after

  abbrev pub returned_count : Option (QueuedRequest → S → Processed S) → List QueuedRequest → S → ℕ
  returned_count processor [] s = 0
  returned_count processor (req ∷ reqs) s =
      let p = process processor req s in
      (if p.threw then 0 else 1) + returned_count processor reqs p.after

  abbrev pub queued_count : Option (QueuedRequest → S → Processed S) → List QueuedRequest → S → ℕ
  queued_count processor [] s = 0
  queued_count processor (req ∷ reqs) s =
      let p = process processor req s in length p.queued + queued_count processor reqs p.after

  flush_loop-left_over :
      (processor : Option (QueuedRequest → S → Processed S)) (reqs queue : List QueuedRequest)
      (s : S)
      → (flush_loop processor reqs queue s).0 ≡ queue ++ left_over processor reqs s
  unfolding flush_loop
  flush_loop-left_over processor [] queue s = sym (append-nil queue)
  flush_loop-left_over processor (req ∷ reqs) queue s =
      let p = process processor req s in
      let failed = if p.threw then req ∷ [] else [] in
      flush_loop-left_over processor reqs ((queue ++ p.queued) ++ failed) p.after
      ∙ ap (λ q. q ++ left_over processor reqs p.after) (append_assoc queue p.queued failed)
      ∙ append_assoc queue (p.queued ++ failed) (left_over processor reqs p.after)

  length-left_over :
      (processor : Option (QueuedRequest → S → Processed S)) (reqs : List QueuedRequest) (s : S)
      → length (left_over processor reqs s) + returned_count processor reqs s
        ≡ length reqs + queued_count processor reqs s
  length-left_over processor [] s = refl
  length-left_over processor (req ∷ reqs) s =
      let p = process processor req s in
      let rest = left_over processor reqs p.after in
      let more = length-left_over processor reqs p.after in
      elim (Bool-cases p.threw) [
        | inl e ↦ rw e (
            omega (
              arith,
              more,
              length-append (p.queued ++ req ∷ []) rest,
              length-append p.queued (req ∷ []),
            ))
        | inr e ↦
            rw e
              (omega (arith, more, length-append (p.queued ++ []) rest, length-append p.queued []))
      ]

  left_over-none : (reqs : List QueuedRequest) (s : S) → left_over none reqs s ≡ []
  unfolding process
  left_over-none [] s = refl
  left_over-none (req ∷ reqs) s = left_over-none reqs s

-- While the device is offline a flush changes nothing. Online, each queued request is processed once, in order:
-- afterwards the queue holds those that failed and those that were queued meanwhile, in the order in
-- which that happened, and with those that returned their number is right. Without a processor, as
-- when the device comes online, the queue is empty afterwards.
pub flush-left_over :
    {S : Type 0} (processor : Option (QueuedRequest → S → Processed S)) (queue : List QueuedRequest)
    (s : S)
    → (flush false processor queue s ≡ (queue, s))
      × ((flush true processor queue s).0 ≡ left_over processor queue s)
      × (length (flush true processor queue s).0 + returned_count processor queue s
          ≡ length queue + queued_count processor queue s)
      × ((flush true none queue s).0 ≡ [])
unfolding flush
flush-left_over processor queue s =
    let e = flush_loop-left_over processor queue [] s in
    (
      refl,
      e,
      rw e (length-left_over processor queue s),
      flush_loop-left_over none queue [] s ∙ left_over-none queue s,
    )
