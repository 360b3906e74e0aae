-- ===== src/Taskq/Drain.antt =====
-- A task queue drains: no wakeup is lost, and its threads end.
use libjeffpc.Base.{
  ℕ, zero, suc, ◌+◌, ◌*◌, ◌%◌, ◌^◌, ◌≤◌, ◌<◌, Bool, true, false, some, List, [], ◌∷◌, ◌++◌, ◌≡◌,
  ◌⊎◌, inl, inr, refl, ap, ◌∙◌, arith, length, sym, if◌then◌else◌, Bool-cases,
}
use libjeffpc.Taskq.{Worker, ready, waiting, running, ran, returned, State, taskq_worker}
use libjeffpc.Taskq.Weigh.{weigh, one_if, count, holds, is_waiting, is_returned, is_ran, is_busy}
use libjeffpc.Taskq.Steps.{Reachable}
use libjeffpc.Taskq.Invariant.{Reachable-IsValid, taskq_worker-IsValid}
use libjeffpc.Taskq.Valid.{IsValid}
use libjeffpc.Taskq.Progress.{cost, turns_left, turn_cost, Turns, no_turn, turn, Drained}

one_if_bound : (b : Bool) → one_if b ≤ 1
one_if_bound true = omega arith
one_if_bound false = omega arith

zero_or_more : (n : ℕ) → (n ≡ 0) ⊎ (1 ≤ n)
zero_or_more zero = inl refl
zero_or_more (suc n) = inr (omega arith)

module _ {ℓ} {A : Type ℓ} where
  Turns-IsValid : (n : ℕ) (s s' : State A) → Turns s n s' → IsValid s → IsValid s'
  Turns-IsValid zero s _ no_turn v = v
  Turns-IsValid (suc n) s _ (turn s' s'' pre w post ts e t) v =
      taskq_worker-IsValid s' s'' pre w post (Turns-IsValid n s s' ts v) e t

  spent_lem : (n : ℕ) (s s' : State A) → Turns s n s' → n + turns_left s' ≡ turns_left s
  spent_lem zero s _ no_turn = omega arith
  spent_lem (suc n) s _ (turn s' s'' pre w post ts e t) =
      omega (arith, spent_lem n s s' ts, turn_cost s' s'' pre w post e t)

  cost_bounds :
      (ws : List (Worker A))
      → (weigh is_busy ws ≤ weigh cost ws)
        × (weigh cost ws ≤ 2 * weigh is_busy ws)
        × (weigh is_ran ws ≤ weigh is_busy ws)
        × (length ws ≡ weigh is_waiting ws + weigh is_returned ws + weigh is_busy ws)
  cost_bounds [] = ground arith
  cost_bounds (ready ∷ ws) = let rest = cost_bounds ws in ground (arith, rest)
  cost_bounds (waiting ∷ ws) = let rest = cost_bounds ws in ground (arith, rest)
  cost_bounds (running x ∷ ws) = let rest = cost_bounds ws in ground (arith, rest)
  cost_bounds (ran ∷ ws) = let rest = cost_bounds ws in ground (arith, rest)
  cost_bounds (returned ∷ ws) = let rest = cost_bounds ws in ground (arith, rest)

  holds_bound : (p : A → Bool) (ws : List (Worker A)) → weigh (holds p) ws ≤ weigh is_busy ws
  holds_bound p [] = omega arith
  holds_bound p (ready ∷ ws) = omega (arith, holds_bound p ws)
  holds_bound p (waiting ∷ ws) = omega (arith, holds_bound p ws)
  holds_bound p (running x ∷ ws) = omega (arith, one_if_bound (p x), holds_bound p ws)
  holds_bound p (ran ∷ ws) = omega (arith, holds_bound p ws)
  holds_bound p (returned ∷ ws) = omega (arith, holds_bound p ws)

  count_all : (xs : List A) → count (λ x. true) xs ≡ length xs
  count_all [] = refl
  count_all (x ∷ xs) = omega (arith, count_all xs)

  length_zero : (xs : List A) → length xs ≡ 0 → xs ≡ []
  length_zero [] e = refl
  length_zero (x ∷ xs) e = absurd (omega (arith, e))

  -- Without a worker that can go on, an item is left only where the queue shuts down.
  left_lem : (s : State A) → IsValid s → weigh is_busy s.workers ≡ 0 → s.tq.queue ≡ s.late
  left_lem s v idle = elim (Bool-cases s.tq.shutdown) [
    | inl e ↦ let left : s.late ≡ s.tq.queue = rw e at v.left in sym left
    | inr e ↦
        let left : s.late ≡ [] = rw e at v.left in
        let awake : (length s.tq.queue ≡ 0) ⊎ (1 ≤ weigh is_busy s.workers) ⊎ (false ≡ true) =
          rw e at v.awake in
        length_zero s.tq.queue (ground (arith, awake, idle)) ∙ sym left
  ]

  no_turn_left :
      (s : State A)
      → IsValid s
      → weigh is_busy s.workers ≡ 0
      → (if s.tq.shutdown then 0 else 2 * length s.tq.queue) ≡ 0
  no_turn_left s v idle = elim (Bool-cases s.tq.shutdown) [
    | inl e ↦ rw e refl
    | inr e ↦
        let awake : (length s.tq.queue ≡ 0) ⊎ (1 ≤ weigh is_busy s.workers) ⊎ (false ≡ true) =
          rw e at v.awake in
        let none : length s.tq.queue ≡ 0 = ground (arith, awake, idle) in rw e (omega (arith, none))
  ]

  all_rest_lem :
      (s : State A)
      → IsValid s
      → weigh is_busy s.workers ≡ 0
      → ((s.tq.shutdown ≡ true) × (weigh is_returned s.workers ≡ length s.workers))
        ⊎ ((s.tq.shutdown ≡ false)
            × (s.late ≡ [])
            × (s.asleep ≡ 0)
            × (weigh is_waiting s.workers ≡ length s.workers))
  all_rest_lem s v idle =
      let bounds = cost_bounds s.workers in
      elim v.stops [
        | inl (e, none) ↦ inl (e, omega (arith, bounds.3, none, idle))
        | inr (e, none) ↦
            let left : s.late ≡ [] = rw e at v.left in
            let empty = ap length (left_lem s v idle ∙ left) in
            inr (e, left, ground (arith, v.sleepers, empty), omega (arith, bounds.3, none, idle))
      ]

  -- Where no worker can go on, the queue is drained.
  rest-Drained : (s : State A) → IsValid s → weigh is_busy s.workers ≡ 0 → Drained s
  rest-Drained s v idle =
      let bounds = cost_bounds s.workers in
      let left = left_lem s v idle in
      let called : (p : A → Bool) → count p s.called ≡ count p s.started =
        λ p. omega (arith, v.called_once p, holds_bound p s.workers, idle) in
      let lengths : v.done ≡ length s.started = omega (
        arith,
        called (λ x. true),
        count_all s.called,
        count_all s.started,
        v.noted.1,
        bounds.2,
        idle,
      ) in
      record {
        all_started = v.fifo ∙ ap (λ xs. s.started ++ xs) left;
        left_over = left;
        all_called = called;
        all_noted = v.noted.0 ∙ ap (λ (n : ℕ). n % 2 ^ 64) lengths;
        all_rest = all_rest_lem s v idle;
      }

  -- A worker that can go on does.
  busy_split :
      (ws : List (Worker A))
      → 1 ≤ weigh is_busy ws
      → (pre : List (Worker A)) × (w : Worker A) × (post : List (Worker A)) × (ws ≡ pre ++ w ∷ post)
        × (is_busy w ≡ 1)
  busy_split [] h = absurd (omega (arith, h))
  busy_split (ready ∷ ws) h = ([], ready, ws, refl, refl)
  busy_split (running x ∷ ws) h = ([], running x, ws, refl, refl)
  busy_split (ran ∷ ws) h = ([], ran, ws, refl, refl)
  busy_split (waiting ∷ ws) h =
      let (pre, w, post, e, b) = busy_split ws (omega (arith, h)) in
      (waiting ∷ pre, w, post, ap (λ xs. waiting ∷ xs) e, b)
  busy_split (returned ∷ ws) h =
      let (pre, w, post, e, b) = busy_split ws (omega (arith, h)) in
      (returned ∷ pre, w, post, ap (λ xs. returned ∷ xs) e, b)

  goes_on :
      (s : State A) (pre : List (Worker A)) (w : Worker A) (post : List (Worker A))
      → is_busy w ≡ 1
      → (s' : State A) × (taskq_worker s pre w post ≡ some s')
  unfolding taskq_worker
  goes_on s pre ready post b = (_, refl)
  goes_on s pre (running x) post b = (_, refl)
  goes_on s pre ran post b = (_, refl)
  goes_on s pre waiting post b = absurd (omega (arith, b))
  goes_on s pre returned post b = absurd (omega (arith, b))

  -- In a task queue with at least one thread, in whatever way it was reached, the workers take
  -- exactly `turns_left` turns, in any order, if nothing else happens: before that one of them
  -- can go on, and behind that the items that were started are all that were dispatched but those
  -- dispatched while the queue shut down, each of them has been called exactly once and is noted
  -- in `processed`, and those dispatched while it shut down are left in the queue; all workers
  -- have returned if the queue shuts down, and otherwise nothing is left, nobody sleeps in
  -- `taskq_wait` and all workers wait.
  pub taskq_worker-Drained :
      (k : ℕ) (s : State A) (n : ℕ) (s' : State A)
      → Reachable (suc k) s
      → Turns s n s'
      → ((n ≡ turns_left s) × Drained s')
        ⊎ ((n < turns_left s) × ((s'' : State A) × Turns s (suc n) s''))
  taskq_worker-Drained k s n s' r ts =
      let v = Turns-IsValid n s s' ts (Reachable-IsValid k s r) in
      let spent = spent_lem n s s' ts in
      let bounds = cost_bounds s'.workers in
      elim (zero_or_more (weigh is_busy s'.workers)) [
        | inl idle ↦
            let d = rest-Drained s' v idle in
            inl (omega (arith, spent, bounds.1, idle, no_turn_left s' v idle), d)
        | inr busy ↦
            let (pre, w, post, e, b) = busy_split s'.workers busy in
            let (s'', t) = goes_on s' pre w post b in
            inr (omega (arith, spent, bounds.0, busy), (s'', turn s' s'' pre w post ts e t))
      ]
