-- ===== src/Taskq.antt =====
-- taskq.c: a queue of work items and the threads that take them. The state of a queue changes only while
-- its lock is held, so each piece of code under the lock is one function here, and the threads interleave
-- between these. An item is what it calls, of any type. `dispatched`, `started`, `called` and
-- `late`, the items dispatched while the queue shuts down, are histories, which no code reads. What a signal of a condition variable wakes is given by the steps.
pub mod Weigh
pub mod Steps
pub mod Valid
pub mod Invariant
pub mod Progress
pub mod Drain
mod Tests
use libjeffpc.Base.{
  ℕ, zero, suc, ◌+◌, ◌-◌, ◌%◌, ◌^◌, Bool, true, false, Option, none, some, List, [], ◌∷◌, ◌++◌, map,
  if◌then◌else◌, Result, ok, err, panic, enomem,
}

-- Where a worker is: before the test of the loop, in CONDWAIT, in the function of its item, behind that
-- function and before the lock, and past the loop.
pub data Worker {ℓ} (A : Type ℓ) : Type ℓ where
  ready waiting ran returned : Worker A
  running : A → Worker A

pub record Taskq {ℓ} (A : Type ℓ) : Type ℓ where
  pub queue : List A
  pub queue_len : ℕ
  pub shutdown : Bool
  pub processed : ℕ

-- `asleep` is the number of threads in the CONDWAIT of `taskq_wait`.
pub record State {ℓ} (A : Type ℓ) : Type ℓ where
  pub tq : Taskq A
  pub workers : List (Worker A)
  pub asleep : ℕ
  pub dispatched : List A
  pub started : List A
  pub called : List A
  pub late : List A

module _ {ℓ} {A : Type ℓ} where
  abbrev pub start_threads : ℕ → List (Worker A)
  start_threads zero = []
  start_threads (suc n) = ready ∷ start_threads n

  -- The queue as `taskq_create_fixed` sets it up, with the threads that it has started.
  abbrev pub created : ℕ → State A
  created nthreads = record {
    tq = record { queue = []; queue_len = 0; shutdown = false; processed = 0 };
    workers = start_threads nthreads;
    asleep = 0;
    dispatched = [];
    started = [];
    called = [];
    late = [];
  }

  unfoldable pub enqueue : Taskq A → A → Taskq A
  enqueue tq item = record tq {
    queue = tq.queue ++ item ∷ [];
    queue_len = (tq.queue_len + 1) % 2 ^ 64;
  }

  -- list_remove_head
  unfoldable pub dequeue_from : Taskq A → List A → Option A × Taskq A
  dequeue_from tq [] = (none, tq)
  dequeue_from tq (item ∷ rest) =
      (some item, record tq { queue = rest; queue_len = (tq.queue_len + (2 ^ 64 - 1)) % 2 ^ 64 })

  unfoldable pub dequeue : Taskq A → Option A × Taskq A
  unfolding dequeue_from
  dequeue tq = dequeue_from tq tq.queue

  -- What a worker does with what it took: it goes to wait, or wakes those that wait for the queue to
  -- drain and goes to call the function. `pre` and `post` are the other workers.
  unfoldable pub take_item :
      State A → List (Worker A) → List (Worker A) → Option A × Taskq A → State A
  take_item s pre post (none, tq) = record s { tq = tq; workers = pre ++ waiting ∷ post }
  take_item s pre post (some item, tq) = record s {
    tq = tq;
    workers = pre ++ running item ∷ post;
    asleep = 0;
    started = s.started ++ item ∷ [];
  }

  -- From the test of the loop to the next place where the lock is given up.
  unfoldable pub loop_top : State A → List (Worker A) → List (Worker A) → State A
  unfolding dequeue take_item
  loop_top s pre post =
      if s.tq.shutdown
      then record s { workers = pre ++ returned ∷ post }
      else take_item s pre post (dequeue s.tq)

  -- One turn of a worker that can go on by itself.
  unfoldable pub taskq_worker :
      State A → List (Worker A) → Worker A → List (Worker A) → Option (State A)
  unfolding loop_top
  taskq_worker s pre ready post = some (loop_top s pre post)
  taskq_worker s pre waiting post = none
  taskq_worker s pre (running item) post =
      some (record s { workers = pre ++ ran ∷ post; called = s.called ++ item ∷ [] })
  taskq_worker s pre ran post = some (
      loop_top (record s { tq = record s.tq { processed = (s.tq.processed + 1) % 2 ^ 64 } }) pre
        post)
  taskq_worker s pre returned post = none

  -- An item may dispatch another one at any time, and nothing tests `shutdown`. `memory` is whether
  -- there is any for the item, and `woken` are the workers behind CONDSIG.
  unfoldable pub taskq_dispatch : State A → Bool → List (Worker A) → A → Result (State A)
  unfolding enqueue
  taskq_dispatch s false woken item = err enomem
  taskq_dispatch s true woken item = ok (record s {
    tq = enqueue s.tq item;
    workers = woken;
    dispatched = s.dispatched ++ item ∷ [];
    late = if s.tq.shutdown then s.late ++ item ∷ [] else s.late;
  })

  abbrev pub list_is_empty : List A → Bool
  list_is_empty [] = true
  list_is_empty (x ∷ xs) = false

  -- The test of the loop of `taskq_wait`: whether it returns, or sleeps.
  unfoldable pub taskq_wait : State A → Bool × State A
  taskq_wait s =
      if list_is_empty s.tq.queue then (true, s) else (false, record s { asleep = suc s.asleep })

  -- CONDBCAST
  abbrev pub wake_all : List (Worker A) → List (Worker A)
  wake_all [] = []
  wake_all (waiting ∷ ws) = ready ∷ wake_all ws
  wake_all (w ∷ ws) = w ∷ wake_all ws

  -- Up to the joins.
  unfoldable pub taskq_destroy : State A → Result (State A)
  taskq_destroy s =
      if list_is_empty s.tq.queue
      then ok (record s { tq = record s.tq { shutdown = true }; workers = wake_all s.workers })
      else panic
