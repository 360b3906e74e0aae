-- ===== src/Taskq/Invariant.antt =====
-- What holds of a task queue at all times: each step keeps it.
use libjeffpc.Base.{
  ℕ, suc, ◌+◌, ◌%◌, ◌^◌, ◌≤◌, Bool, true, false, some, List, [], ◌∷◌, ◌++◌, ◌≡◌, inl, inr, refl,
  sym, arith, length, ok, panic, Bool-cases, if◌then◌else◌,
}
use mathlib.Core.Path.{subst}
use libjeffpc.Taskq.{
  Worker, ready, waiting, running, ran, returned, State, created, loop_top, enqueue, taskq_worker,
  taskq_dispatch, taskq_wait, taskq_destroy, wake_all, list_is_empty,
}
use libjeffpc.Taskq.Weigh.{sums, holds, is_returned, is_ran, weigh-start_threads}
use libjeffpc.Taskq.Steps.{
  Signals, Step, worker, spurious, dispatch, wait, destroy, Reachable, start, after,
}
use libjeffpc.Taskq.Valid.{
  IsValid, loop_top-IsValid, noted-IsValid, woken-IsValid, called-IsValid, enqueued-IsValid,
  destroyed-IsValid,
}

module _ {ℓ} {A : Type ℓ} where
  empty_list : (xs : List A) → list_is_empty xs ≡ true → xs ≡ []
  empty_list [] e = refl
  empty_list (x ∷ xs) e = absurd (ground arith)

  full_length : (xs : List A) → list_is_empty xs ≡ false → 1 ≤ length xs
  full_length [] e = absurd (ground arith)
  full_length (x ∷ xs) e = omega arith

  pub taskq_worker-IsValid :
      (s s' : State A) (pre : List (Worker A)) (w : Worker A) (post : List (Worker A))
      → IsValid s
      → s.workers ≡ pre ++ w ∷ post
      → taskq_worker s pre w post ≡ some s'
      → IsValid s'
  unfolding taskq_worker
  taskq_worker-IsValid s s' pre ready post v e t =
      let same : loop_top s pre post ≡ s' = cc in
      subst IsValid same
        (loop_top-IsValid s pre post (subst (λ ws. IsValid (record s { workers = ws })) e v))
  taskq_worker-IsValid s s' pre waiting post v e t = absurd (ground arith)
  taskq_worker-IsValid s s' pre returned post v e t = absurd (ground arith)
  taskq_worker-IsValid s s' pre (running x) post v e t =
      let same : record s { workers = pre ++ ran ∷ post; called = s.called ++ x ∷ [] } ≡ s' = cc in
      subst IsValid same (called-IsValid s pre x post v e)
  taskq_worker-IsValid s s' pre ran post v e t =
      let noting : State A = record s {
        tq = record s.tq { processed = (s.tq.processed + 1) % 2 ^ 64 };
      } in
      let same : loop_top noting pre post ≡ s' = cc in
      subst IsValid same (loop_top-IsValid noting pre post (noted-IsValid s pre post v e))

  taskq_dispatch-IsValid :
      (s s' : State A) (memory : Bool) (woken : List (Worker A)) (x : A)
      → IsValid s
      → Signals s.workers woken
      → taskq_dispatch s memory woken x ≡ ok s'
      → IsValid s'
  unfolding taskq_dispatch
  taskq_dispatch-IsValid s s' false woken x v signals t = absurd (ground arith)
  taskq_dispatch-IsValid s s' true woken x v signals t =
      let put : List (Worker A) → State A = λ ws. record s {
        tq = enqueue s.tq x;
        workers = ws;
        dispatched = s.dispatched ++ x ∷ [];
        late = if s.tq.shutdown then s.late ++ x ∷ [] else s.late;
      } in
      let same : put woken ≡ s' = cc in
      subst IsValid same (elim signals [
        | inl (pre, post, e, w) ↦
            subst (λ ws. IsValid (put ws)) (sym w)
              (enqueued-IsValid (record s { workers = pre ++ ready ∷ post }) x
                (woken-IsValid s pre post v e)
                (inl (omega (arith, (sums {A = A} pre ready post).3))))
        | inr (none_waits, w) ↦
            subst (λ ws. IsValid (put ws)) (sym w)
              (enqueued-IsValid s x v (ground (arith, none_waits, v.stops, v.staffed)))
      ])

  taskq_wait-IsValid : (s : State A) → IsValid s → IsValid (taskq_wait s).1
  unfolding taskq_wait
  taskq_wait-IsValid s v = elim (Bool-cases (list_is_empty s.tq.queue)) [
    | inl e ↦ rw (taskq_wait, e) v
    | inr e ↦
        rw (taskq_wait, e)
          (record {
            done = v.done;
            fifo = v.fifo;
            counted = v.counted;
            called_once = v.called_once;
            noted = v.noted;
            awake = v.awake;
            sleepers = inr (full_length s.tq.queue e);
            staffed = v.staffed;
            stops = v.stops;
            left = v.left;
          })
  ]

  taskq_destroy-IsValid : (s s' : State A) → IsValid s → taskq_destroy s ≡ ok s' → IsValid s'
  unfolding taskq_destroy
  taskq_destroy-IsValid s s' v t = elim (Bool-cases (list_is_empty s.tq.queue)) [
    | inl e ↦
        let t' : ok
              (record s { tq = record s.tq { shutdown = true }; workers = wake_all s.workers })
            ≡ ok s' =
          rw (taskq_destroy, e) at t in
        let same : record s { tq = record s.tq { shutdown = true }; workers = wake_all s.workers }
            ≡ s' =
          cc in
        subst IsValid same (destroyed-IsValid s v (empty_list s.tq.queue e))
    | inr e ↦ let t' : panic ≡ ok s' = rw (taskq_destroy, e) at t in absurd (ground arith)
  ]

  created-IsValid : (n : ℕ) → IsValid (created {A = A} (suc n))
  created-IsValid n = record {
    done = 0;
    fifo = refl;
    counted = refl;
    called_once = λ p. omega (arith, weigh-start_threads (holds p) refl n);
    noted = (refl, omega (arith, weigh-start_threads {A = A} is_ran refl n));
    awake = inl refl;
    sleepers = inl refl;
    staffed = omega arith;
    stops = inr (refl, omega (arith, weigh-start_threads {A = A} is_returned refl n));
    left = refl;
  }

  Step-IsValid : {s s' : State A} → Step s s' → IsValid s → IsValid s'
  Step-IsValid (worker s s' pre w post e t) v = taskq_worker-IsValid s s' pre w post v e t
  Step-IsValid (spurious s pre post e) v = woken-IsValid s pre post v e
  Step-IsValid (dispatch s s' memory woken x signals t) v =
      taskq_dispatch-IsValid s s' memory woken x v signals t
  Step-IsValid (wait s) v = taskq_wait-IsValid s v
  Step-IsValid (destroy s s' t) v = taskq_destroy-IsValid s s' v t

  -- In every state of a task queue with at least one thread, where items may be dispatched at any
  -- time, also while it shuts down: the items are started in the order in which they were
  -- dispatched, each that was started has been called exactly once or is with exactly one worker,
  -- `queue_len` and `processed` are the numbers they stand for modulo 2 ^ 64, some worker can go
  -- on if the queue holds an item and does not shut down, a caller sleeps in `taskq_wait` only
  -- while the queue holds an item, and when the queue shuts down no worker waits and the queue
  -- holds exactly the items that were dispatched behind the start of the shutdown.
  pub Reachable-IsValid : (n : ℕ) (s : State A) → Reachable (suc n) s → IsValid s
  Reachable-IsValid n _ start = created-IsValid n
  Reachable-IsValid n _ (after {s} r step) = Step-IsValid step (Reachable-IsValid n s r)
