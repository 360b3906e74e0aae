-- ===== src/Taskq/Tests.antt =====
-- Runs of a task queue with one thread.
use libjeffpc.Base.{ℕ, ◌<◌, true, false, [], ◌∷◌, ◌≡◌, ◌⊎◌, inr, refl, panic, err, enomem, some}
use libjeffpc.Taskq.{
  ready, running, ran, returned, State, created, dequeue, dequeue_from, enqueue, take_item,
  loop_top, taskq_worker, taskq_dispatch, taskq_wait, taskq_destroy,
}
use libjeffpc.Taskq.Steps.{worker, dispatch, wait, destroy, Reachable, start, after}
use libjeffpc.Taskq.Invariant.{Reachable-IsValid}
use libjeffpc.Taskq.Valid.{IsValid}
use libjeffpc.Taskq.Progress.{turns_left, Turns, no_turn, turn, Drained}
use libjeffpc.Taskq.Drain.{taskq_worker-Drained}

-- Behind the dispatch of the item 7.
abbrev one_queued : State ℕ
one_queued = record {
  tq = record { queue = 7 ∷ []; queue_len = 1; shutdown = false; processed = 0 };
  workers = ready ∷ [];
  asleep = 0;
  dispatched = 7 ∷ [];
  started = [];
  called = [];
  late = [];
}

-- With the caller in `taskq_wait`.
abbrev one_sleeps : State ℕ
one_sleeps = record one_queued { asleep = 1 }

no_memory : taskq_dispatch {A = ℕ} (created 1) false (ready ∷ []) 7 ≡ err enomem
unfolding taskq_dispatch
no_memory = refl

not_empty : taskq_destroy one_queued ≡ panic
unfolding taskq_destroy
not_empty = refl

sleeps-Reachable : Reachable 1 one_sleeps
unfolding taskq_dispatch enqueue taskq_wait
sleeps-Reachable =
    after
      (after start (dispatch (created 1) one_queued true (ready ∷ []) 7 (inr (refl, refl)) refl))
      (wait one_queued)

-- The worker has taken the item, and the caller is awake.
taken :
    taskq_worker one_sleeps [] ready []
    ≡ some (record one_queued {
      tq = record { queue = []; queue_len = 0; shutdown = false; processed = 0 };
      workers = running 7 ∷ [];
      started = 7 ∷ [];
    })
unfolding taskq_worker loop_top take_item dequeue dequeue_from
taken = refl

Reachable-IsValid_example : IsValid one_sleeps
Reachable-IsValid_example = Reachable-IsValid 0 one_sleeps sleeps-Reachable

-- The worker calls 7, and the queue shuts down.
abbrev closing : State ℕ
closing = record {
  tq = record { queue = []; queue_len = 0; shutdown = true; processed = 0 };
  workers = running 7 ∷ [];
  asleep = 0;
  dispatched = 7 ∷ [];
  started = 7 ∷ [];
  called = [];
  late = [];
}

-- The call of 7 dispatches 8.
abbrev closing_late : State ℕ
closing_late = record closing {
  tq = record { queue = 8 ∷ []; queue_len = 1; shutdown = true; processed = 0 };
  dispatched = 7 ∷ 8 ∷ [];
  late = 8 ∷ [];
}

closing-Reachable : Reachable 1 closing_late
unfolding taskq_dispatch enqueue taskq_worker loop_top take_item dequeue dequeue_from taskq_destroy
closing-Reachable =
    let taken : State ℕ = record closing {
      tq = record { queue = []; queue_len = 0; shutdown = false; processed = 0 };
    } in
    after
      (after
        (after
          (after start
            (dispatch (created 1) one_queued true (ready ∷ []) 7 (inr (refl, refl)) refl))
          (worker one_queued taken [] ready [] refl refl))
        (destroy taken closing refl))
      (dispatch closing closing_late true (running 7 ∷ []) 8 (inr (refl, refl)) refl)

-- Two turns later the worker has returned, and 8 is left.
abbrev ended : State ℕ
ended = record closing_late {
  tq = record { queue = 8 ∷ []; queue_len = 1; shutdown = true; processed = 1 };
  workers = returned ∷ [];
  called = 7 ∷ [];
}

ended-Turns : Turns closing_late 2 ended
unfolding taskq_worker loop_top take_item dequeue dequeue_from
ended-Turns =
    let called : State ℕ = record closing_late { workers = ran ∷ []; called = 7 ∷ [] } in
    turn called ended [] ran [] (turn closing_late called [] (running 7) [] no_turn refl refl) refl
      refl

taskq_worker-Drained_example :
    ((2 ≡ turns_left closing_late) × Drained ended)
    ⊎ ((2 < turns_left closing_late) × ((s : State ℕ) × Turns closing_late 3 s))
taskq_worker-Drained_example =
    taskq_worker-Drained 0 closing_late 2 ended closing-Reachable ended-Turns
