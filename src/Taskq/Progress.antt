-- ===== src/Taskq/Progress.antt =====
-- The workers get through the queue by themselves, whatever their order is.
use libjeffpc.Base.{
  ℕ, zero, suc, ◌+◌, ◌*◌, ◌%◌, ◌^◌, Bool, true, false, some, List, [], ◌∷◌, ◌++◌, ◌≡◌, ◌⊎◌, ap,
  arith, length, if◌then◌else◌,
}
use libjeffpc.Taskq.{
  Worker, ready, waiting, running, ran, returned, State, loop_top, dequeue, dequeue_from, take_item,
  taskq_worker,
}
use libjeffpc.Taskq.Weigh.{weigh, weigh-middle, count, is_waiting, is_returned}

module _ {ℓ} {A : Type ℓ} where
  abbrev pub cost : Worker A → ℕ
  cost ready = 1
  cost waiting = 0
  cost (running x) = 2
  cost ran = 1
  cost returned = 0

  -- How many turns the workers take from here; they take no item of a queue that shuts down.
  abbrev pub turns_left : State A → ℕ
  turns_left s = (if s.tq.shutdown then 0 else 2 * length s.tq.queue) + weigh cost s.workers

  -- `n` turns of workers, in any order.
  pub data Turns (s : State A) : ℕ → State A → Type ℓ where
    no_turn : Turns s zero s
    turn :
        {n : ℕ} (s' s'' : State A) (pre : List (Worker A)) (w : Worker A) (post : List (Worker A))
        → Turns s n s'
        → s'.workers ≡ pre ++ w ∷ post
        → taskq_worker s' pre w post ≡ some s''
        → Turns s (suc n) s''

  -- All but the items that were dispatched while the queue shut down have been called once and
  -- noted, and those still are in the queue.
  pub record Drained (s : State A) : Type ℓ where
    pub all_started : s.dispatched ≡ s.started ++ s.late
    pub left_over : s.tq.queue ≡ s.late
    pub all_called : (p : A → Bool) → count p s.called ≡ count p s.started
    pub all_noted : s.tq.processed ≡ length s.started % 2 ^ 64
    pub all_rest :
        ((s.tq.shutdown ≡ true) × (weigh is_returned s.workers ≡ length s.workers))
        ⊎ ((s.tq.shutdown ≡ false)
            × (s.late ≡ [])
            × (s.asleep ≡ 0)
            × (weigh is_waiting s.workers ≡ length s.workers))

  top_cost_parts :
      (pre post : List (Worker A)) (queue : List A) (queue_len : ℕ) (shutdown : Bool)
      (processed asleep : ℕ) (dispatched started called late : List A) (ws : List (Worker A))
      → let s : State A = record {
        tq = record {
          queue = queue;
          queue_len = queue_len;
          shutdown = shutdown;
          processed = processed;
        };
        workers = ws;
        asleep = asleep;
        dispatched = dispatched;
        started = started;
        called = called;
        late = late;
      } in
        turns_left (loop_top s pre post) + 1
        ≡ (if shutdown then 0 else 2 * length queue) + weigh cost (pre ++ ready ∷ post)
  unfolding loop_top dequeue dequeue_from take_item
  top_cost_parts pre post queue queue_len true processed asleep dispatched started called late ws =
      omega (arith, weigh-middle cost pre ready post, weigh-middle cost pre returned post)
  top_cost_parts pre post [] queue_len false processed asleep dispatched started called late ws =
      omega (arith, weigh-middle cost pre ready post, weigh-middle cost pre waiting post)
  top_cost_parts pre post (x ∷ rest) queue_len false processed asleep dispatched started called late
        ws =
      omega (arith, weigh-middle cost pre ready post, weigh-middle cost pre (running x) post)

  top_cost :
      (s : State A) (pre post : List (Worker A))
      → turns_left (loop_top s pre post) + 1
        ≡ (if s.tq.shutdown then 0 else 2 * length s.tq.queue) + weigh cost (pre ++ ready ∷ post)
  top_cost s pre post =
      top_cost_parts pre post s.tq.queue s.tq.queue_len s.tq.shutdown s.tq.processed s.asleep
        s.dispatched s.started s.called s.late s.workers

  pub turn_cost :
      (s s' : State A) (pre : List (Worker A)) (w : Worker A) (post : List (Worker A))
      → s.workers ≡ pre ++ w ∷ post
      → taskq_worker s pre w post ≡ some s'
      → turns_left s' + 1 ≡ turns_left s
  unfolding taskq_worker
  turn_cost s s' pre ready post e t =
      let same : loop_top s pre post ≡ s' = cc in
      omega (arith, ap turns_left same, top_cost s pre post, ap (weigh cost) e)
  turn_cost s s' pre waiting post e t = absurd (ground arith)
  turn_cost s s' pre returned post e t = absurd (ground arith)
  turn_cost s s' pre (running x) post e t =
      let same : record s { workers = pre ++ ran ∷ post; called = s.called ++ x ∷ [] } ≡ s' = cc in
      omega (
        arith,
        ap turns_left same,
        ap (weigh cost) e,
        weigh-middle cost pre ran post,
        weigh-middle cost pre (running x) post,
      )
  turn_cost s s' pre ran post e t =
      let noting : State A = record s {
        tq = record s.tq { processed = (s.tq.processed + 1) % 2 ^ 64 };
      } in
      let same : loop_top noting pre post ≡ s' = cc in
      omega (
        arith,
        ap turns_left same,
        top_cost noting pre post,
        ap (weigh cost) e,
        weigh-middle cost pre ran post,
        weigh-middle cost pre ready post,
      )
