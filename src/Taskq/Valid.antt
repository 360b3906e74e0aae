-- ===== src/Taskq/Valid.antt =====
-- What a task queue is like at all times, and that each change keeps it.
use libjeffpc.Base.{
  ℕ, suc, ◌+◌, ◌-◌, ◌%◌, ◌^◌, ◌≤◌, Bool, true, false, List, [], ◌∷◌, ◌++◌, ◌≡◌, ◌⊎◌, inl, inr, refl,
  sym, ap, ◌∙◌, arith, length, length-append, append_assoc, if◌then◌else◌, Bool-cases,
}
use libjeffpc.Taskq.{
  Worker, ready, waiting, running, ran, returned, State, loop_top, dequeue, dequeue_from, enqueue,
  take_item, wake_all,
}
use libjeffpc.Taskq.Weigh.{
  sums, weigh, weigh-middle, weigh-wake_all, count, count-append, holds, is_waiting, is_returned,
  is_ran, is_busy, all_idle, busy_woken,
}

-- `done` is the number of items whose call has returned and been noted.
pub record IsValid {ℓ} {A : Type ℓ} (s : State A) : Type ℓ where
  pub done : ℕ
  pub fifo : s.dispatched ≡ s.started ++ s.tq.queue
  pub counted : s.tq.queue_len ≡ length s.tq.queue % 2 ^ 64
  pub called_once :
      (p : A → Bool) → count p s.started ≡ count p s.called + weigh (holds p) s.workers
  pub noted : (s.tq.processed ≡ done % 2 ^ 64) × (length s.called ≡ done + weigh is_ran s.workers)
  pub awake : (length s.tq.queue ≡ 0) ⊎ (1 ≤ weigh is_busy s.workers) ⊎ (s.tq.shutdown ≡ true)
  pub sleepers : (s.asleep ≡ 0) ⊎ (1 ≤ length s.tq.queue)
  pub staffed :
      1 ≤ weigh is_waiting s.workers + weigh is_returned s.workers + weigh is_busy s.workers
  pub stops :
      ((s.tq.shutdown ≡ true) × (weigh is_waiting s.workers ≡ 0))
      ⊎ ((s.tq.shutdown ≡ false) × (weigh is_returned s.workers ≡ 0))
  pub left : s.late ≡ (if s.tq.shutdown then s.tq.queue else [])

wrap_up : (a b : ℕ) → a ≡ b % 2 ^ 64 → (a + 1) % 2 ^ 64 ≡ suc b % 2 ^ 64
wrap_up a b e = omega (arith, e)

wrap_down : (a b : ℕ) → a ≡ suc b % 2 ^ 64 → (a + (2 ^ 64 - 1)) % 2 ^ 64 ≡ b % 2 ^ 64
wrap_down a b e = omega (arith, e)

module _ {ℓ} {A : Type ℓ} where
  -- A worker put for another one that counts as much wherever it matters.
  top_parts :
      (pre post : List (Worker A)) (queue : List A) (queue_len : ℕ) (shutdown : Bool)
      (processed asleep : ℕ) (dispatched started called late : List A)
      → let s : List (Worker A) → State A = λ workers. record {
        tq = record {
          queue = queue;
          queue_len = queue_len;
          shutdown = shutdown;
          processed = processed;
        };
        workers = workers;
        asleep = asleep;
        dispatched = dispatched;
        started = started;
        called = called;
        late = late;
      } in
        (ws : List (Worker A))
        → IsValid (s (pre ++ ready ∷ post))
        → IsValid (loop_top (s ws) pre post)
  unfolding loop_top dequeue dequeue_from take_item
  top_parts pre post queue queue_len true processed asleep dispatched started called late ws v =
      let old = sums {A = A} pre ready post in
      let new = sums {A = A} pre returned post in
      record {
        done = v.done;
        fifo = v.fifo;
        counted = v.counted;
        called_once = λ p. omega (
          arith,
          v.called_once p,
          weigh-middle (holds p) pre ready post,
          weigh-middle (holds p) pre returned post,
        );
        noted = (v.noted.0, omega (arith, v.noted.1, old.2, new.2));
        awake = inr (inr refl);
        sleepers = v.sleepers;
        staffed = omega (arith, v.staffed, old, new);
        stops = ground (arith, v.stops, old.0, new.0);
        left = v.left;
      }
  top_parts pre post [] queue_len false processed asleep dispatched started called late ws v =
      let old = sums {A = A} pre ready post in
      let new = sums {A = A} pre waiting post in
      record {
        done = v.done;
        fifo = v.fifo;
        counted = v.counted;
        called_once = λ p. omega (
          arith,
          v.called_once p,
          weigh-middle (holds p) pre ready post,
          weigh-middle (holds p) pre waiting post,
        );
        noted = (v.noted.0, omega (arith, v.noted.1, old.2, new.2));
        awake = inl refl;
        sleepers = v.sleepers;
        staffed = omega (arith, v.staffed, old, new);
        stops = ground (arith, v.stops, old.1, new.1);
        left = v.left;
      }
  top_parts pre post (x ∷ rest) queue_len false processed asleep dispatched started called late ws
        v =
      let old = sums {A = A} pre ready post in
      let new = sums {A = A} pre (running x) post in
      record {
        done = v.done;
        fifo = v.fifo ∙ sym (append_assoc started (x ∷ []) rest);
        counted = wrap_down queue_len (length rest) v.counted;
        called_once = λ p. omega (
          arith,
          v.called_once p,
          count-append p started (x ∷ []),
          weigh-middle (holds p) pre ready post,
          weigh-middle (holds p) pre (running x) post,
        );
        noted = (v.noted.0, omega (arith, v.noted.1, old.2, new.2));
        awake = inr (inl (omega (arith, new.3)));
        sleepers = inl refl;
        staffed = omega (arith, v.staffed, old, new);
        stops = ground (arith, v.stops, old.1, new.1);
        left = v.left;
      }

  pub loop_top-IsValid :
      (s : State A) (pre post : List (Worker A))
      → IsValid (record s { workers = pre ++ ready ∷ post })
      → IsValid (loop_top s pre post)
  loop_top-IsValid s pre post =
      top_parts pre post s.tq.queue s.tq.queue_len s.tq.shutdown s.tq.processed s.asleep
        s.dispatched s.started s.called s.late s.workers

  -- A worker behind a call notes it.
  pub noted-IsValid :
      (s : State A) (pre post : List (Worker A))
      → IsValid s
      → s.workers ≡ pre ++ ran ∷ post
      → IsValid (record s {
        tq = record s.tq { processed = (s.tq.processed + 1) % 2 ^ 64 };
        workers = pre ++ ready ∷ post;
      })
  noted-IsValid s pre post v e =
      let old = sums {A = A} pre ran post in
      let new = sums {A = A} pre ready post in
      record {
        done = suc v.done;
        fifo = v.fifo;
        counted = v.counted;
        called_once = λ p. omega (
          arith,
          v.called_once p,
          ap (weigh (holds p)) e,
          weigh-middle (holds p) pre ran post,
          weigh-middle (holds p) pre ready post,
        );
        noted = (
          wrap_up s.tq.processed v.done v.noted.0,
          omega (arith, v.noted.1, ap (weigh is_ran) e, old.2, new.2),
        );
        awake = inr (inl (omega (arith, new.3)));
        sleepers = v.sleepers;
        staffed = omega (arith, new.3);
        stops =
            ground (arith, v.stops, ap (weigh is_waiting) e, ap (weigh is_returned) e, old, new);
        left = v.left;
      }

  -- A worker that waits goes on.
  pub woken-IsValid :
      (s : State A) (pre post : List (Worker A))
      → IsValid s
      → s.workers ≡ pre ++ waiting ∷ post
      → IsValid (record s { workers = pre ++ ready ∷ post })
  woken-IsValid s pre post v e =
      let old = sums {A = A} pre waiting post in
      let new = sums {A = A} pre ready post in
      record {
        done = v.done;
        fifo = v.fifo;
        counted = v.counted;
        called_once = λ p. omega (
          arith,
          v.called_once p,
          ap (weigh (holds p)) e,
          weigh-middle (holds p) pre waiting post,
          weigh-middle (holds p) pre ready post,
        );
        noted = (v.noted.0, omega (arith, v.noted.1, ap (weigh is_ran) e, old.2, new.2));
        awake = inr (inl (omega (arith, new.3)));
        sleepers = v.sleepers;
        staffed = omega (arith, new.3);
        stops =
            ground (arith, v.stops, ap (weigh is_waiting) e, ap (weigh is_returned) e, old, new);
        left = v.left;
      }

  pub called-IsValid :
      (s : State A) (pre : List (Worker A)) (x : A) (post : List (Worker A))
      → IsValid s
      → s.workers ≡ pre ++ running x ∷ post
      → IsValid (record s { workers = pre ++ ran ∷ post; called = s.called ++ x ∷ [] })
  called-IsValid s pre x post v e =
      let old = sums {A = A} pre (running x) post in
      let new = sums {A = A} pre ran post in
      record {
        done = v.done;
        fifo = v.fifo;
        counted = v.counted;
        called_once = λ p. omega (
          arith,
          v.called_once p,
          ap (weigh (holds p)) e,
          count-append p s.called (x ∷ []),
          weigh-middle (holds p) pre (running x) post,
          weigh-middle (holds p) pre ran post,
        );
        noted = (
          v.noted.0,
          omega (
            arith,
            v.noted.1,
            length-append s.called (x ∷ []),
            ap (weigh is_ran) e,
            old.2,
            new.2,
          ),
        );
        awake = inr (inl (omega (arith, new.3)));
        sleepers = v.sleepers;
        staffed = omega (arith, new.3);
        stops =
            ground (arith, v.stops, ap (weigh is_waiting) e, ap (weigh is_returned) e, old, new);
        left = v.left;
      }

  -- Some worker can go on, or the queue shuts down.
  pub enqueued-IsValid :
      (s : State A) (x : A)
      → IsValid s
      → (1 ≤ weigh is_busy s.workers) ⊎ (s.tq.shutdown ≡ true)
      → IsValid (record s {
        tq = enqueue s.tq x;
        dispatched = s.dispatched ++ x ∷ [];
        late = if s.tq.shutdown then s.late ++ x ∷ [] else s.late;
      })
  unfolding enqueue
  enqueued-IsValid s x v busy =
      let growth = length-append s.tq.queue (x ∷ []) in
      record {
        done = v.done;
        fifo = ap (λ xs. xs ++ x ∷ []) v.fifo ∙ append_assoc s.started s.tq.queue (x ∷ []);
        counted =
            wrap_up s.tq.queue_len (length s.tq.queue) v.counted
            ∙ ap (λ (n : ℕ). n % 2 ^ 64) (omega (arith, growth));
        called_once = v.called_once;
        noted = v.noted;
        awake = inr busy;
        sleepers = inr (omega (arith, growth));
        staffed = v.staffed;
        stops = v.stops;
        left = elim (Bool-cases s.tq.shutdown) [
          | inl e ↦
              let old : s.late ≡ s.tq.queue = rw e at v.left in rw e (ap (λ xs. xs ++ x ∷ []) old)
          | inr e ↦ let old : s.late ≡ [] = rw e at v.left in rw e old
        ];
      }

  pub destroyed-IsValid :
      (s : State A)
      → IsValid s
      → s.tq.queue ≡ []
      → IsValid (record s { tq = record s.tq { shutdown = true }; workers = wake_all s.workers })
  destroyed-IsValid s v empty = record {
    done = v.done;
    fifo = v.fifo;
    counted = v.counted;
    called_once = λ p.
        v.called_once p
        ∙ ap (λ (n : ℕ). count p s.called + n) (sym (weigh-wake_all (holds p) refl s.workers));
    noted = (
      v.noted.0,
      v.noted.1 ∙ ap (λ (n : ℕ). v.done + n) (sym (weigh-wake_all is_ran refl s.workers)),
    );
    awake = inr (inr refl);
    sleepers = v.sleepers;
    staffed =
        omega (arith, v.staffed, busy_woken s.workers, weigh-wake_all is_returned refl s.workers);
    stops = inl (refl, all_idle s.workers);
    left = elim (Bool-cases s.tq.shutdown) [
      | inl e ↦ let old : s.late ≡ s.tq.queue = rw e at v.left in old
      | inr e ↦ let old : s.late ≡ [] = rw e at v.left in old ∙ sym empty
    ];
  }
