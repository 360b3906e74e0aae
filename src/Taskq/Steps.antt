-- ===== src/Taskq/Steps.antt =====
-- What the threads that use a queue may do, one step under the lock at a time.
use libjeffpc.Base.{ℕ, Bool, some, List, ◌∷◌, ◌++◌, ◌≡◌, ◌⊎◌, ok}
use libjeffpc.Taskq.{
  Worker, ready, waiting, State, created, taskq_worker, taskq_dispatch, taskq_wait, taskq_destroy,
}
use libjeffpc.Taskq.Weigh.{weigh, is_waiting}

module _ {ℓ} {A : Type ℓ} where
  -- CONDSIG wakes one of those that wait, whichever, or none if none waits.
  abbrev pub Signals : List (Worker A) → List (Worker A) → Type ℓ
  Signals ws woken =
      ((pre : List (Worker A)) × (post : List (Worker A)) × (ws ≡ pre ++ waiting ∷ post)
        × (woken ≡ pre ++ ready ∷ post))
      ⊎ ((weigh is_waiting ws ≡ 0) × (woken ≡ ws))

  -- A thread may also wake up without a signal.
  pub data Step : State A → State A → Type ℓ where
    worker :
        (s s' : State A) (pre : List (Worker A)) (w : Worker A) (post : List (Worker A))
        → s.workers ≡ pre ++ w ∷ post
        → taskq_worker s pre w post ≡ some s'
        → Step s s'
    spurious :
        (s : State A) (pre post : List (Worker A))
        → s.workers ≡ pre ++ waiting ∷ post
        → Step s (record s { workers = pre ++ ready ∷ post })
    dispatch :
        (s s' : State A) (memory : Bool) (woken : List (Worker A)) (item : A)
        → Signals s.workers woken
        → taskq_dispatch s memory woken item ≡ ok s'
        → Step s s'
    wait : (s : State A) → Step s (taskq_wait s).1
    destroy : (s s' : State A) → taskq_destroy s ≡ ok s' → Step s s'

  -- From a queue of `nthreads` threads.
  pub data Reachable (nthreads : ℕ) : State A → Type ℓ where
    start : Reachable nthreads (created nthreads)
    after : {s s' : State A} → Reachable nthreads s → Step s s' → Reachable nthreads s'
