-- ===== src/Synch/Threads.antt =====
-- Threads that take and release locks. The thread's own stack holds the lock that it waits for too,
-- since the checks come before the calls of pthreads.
use libjeffpc.Base.{
  ℕ, ◌==◌, Bool, true, false, List, [], ◌∷◌, ◌≡◌, ◌⊎◌, inl, inr, refl, sym, arith, if◌then◌else◌,
  ok, Bool-cases, Option-cases,
}
use mathlib.Core.Path.{subst}
use libjeffpc.Synch.{
  LockInfo, HeldLock, Lockdep, type_mutex, type_rw, type_cond, check_magic, find_held,
  held_stack_remove, check_unheld_for_lock, check_held_for_unlock, verify_lock_lock,
  verify_lock_unlock, verify_rw_lock, verify_rw_unlock, verify_cond_wait, check_held_for_wait,
}
use libjeffpc.Synch.Ways.{Descends}
use libjeffpc.Synch.Order.{
  Ensures, Ensures-imp, Ensures-behind, Ensures-ok, Chained, Chained-kept,
  held_stack_remove-Chained, Ordered,
}
use libjeffpc.Synch.Lock.{lock-Ordered}

pub record System : Type 0 where
  pub g : Lockdep
  pub stacks : ℕ → List HeldLock

abbrev pub set_stack : (ℕ → List HeldLock) → ℕ → List HeldLock → ℕ → List HeldLock
set_stack stacks t held u = if u == t then held else stacks u

-- No class has dependencies, and no thread has locks.
abbrev pub at_start : System
at_start = record { g = record { lockdep_on = true; deps = λ x. [] }; stacks = λ t. [] }

pub data Step (dep_count stack_depth stack : ℕ) (s : System) : System → Type 0 where
  mxlock :
      (t : ℕ) (info : LockInfo) (g : Lockdep) (held : List HeldLock)
      → verify_lock_lock dep_count stack_depth stack s.g (s.stacks t) info ≡ ok (g, held)
      → Step dep_count stack_depth stack s (record { g = g; stacks = set_stack s.stacks t held })
  rwlock :
      (t : ℕ) (info : LockInfo) (wr : Bool) (g : Lockdep) (held : List HeldLock)
      → verify_rw_lock dep_count stack_depth stack s.g (s.stacks t) info wr ≡ ok (g, held)
      → Step dep_count stack_depth stack s (record { g = g; stacks = set_stack s.stacks t held })
  mxunlock :
      (t : ℕ) (info : LockInfo) (held : List HeldLock)
      → verify_lock_unlock s.g (s.stacks t) info ≡ ok held
      → Step dep_count stack_depth stack s (record { g = s.g; stacks = set_stack s.stacks t held })
  rwunlock :
      (t : ℕ) (info : LockInfo) (held : List HeldLock)
      → verify_rw_unlock s.g (s.stacks t) info ≡ ok held
      → Step dep_count stack_depth stack s (record { g = s.g; stacks = set_stack s.stacks t held })
  condwait :
      (t : ℕ) (cond_info lock_info : LockInfo) (g : Lockdep)
      → verify_cond_wait s.g (s.stacks t) cond_info lock_info ≡ ok g
      → Step dep_count stack_depth stack s (record { g = g; stacks = s.stacks })

pub data Reachable (dep_count stack_depth stack : ℕ) : System → Type 0 where
  start : Reachable dep_count stack_depth stack at_start
  after :
      {s s' : System}
      → Reachable dep_count stack_depth stack s
      → Step dep_count stack_depth stack s s'
      → Reachable dep_count stack_depth stack s'

abbrev pub IsOrdered : System → Type 0
IsOrdered s =
    (s.g.lockdep_on ≡ false)
    ⊎ (((rank : ℕ → ℕ) × Descends s.g.deps rank) × ((t : ℕ) → Chained s.g.deps (s.stacks t)))

-- The next state, where one thread has other locks and the graph has grown.
put-IsOrdered :
    (deps : ℕ → List ℕ) (stacks : ℕ → List HeldLock) (t : ℕ) (g : Lockdep) (held : List HeldLock)
    → ((u : ℕ) → Chained deps (stacks u))
    → Ordered deps g held
    → IsOrdered (record { g = g; stacks = set_stack stacks t held })
put-IsOrdered deps stacks t g held c (inl off) = inl off
put-IsOrdered deps stacks t g held c (inr (d, c', k)) = inr (
  d,
  λ u. elim (Bool-cases (u == t)) [
    | inl e ↦ rw e c'
    | inr e ↦ rw e (Chained-kept deps g.deps (stacks u) k (c u))
  ],
)

module _ (dep_count stack_depth stack : ℕ) where
  lock_parts :
      (on : Bool) (deps : ℕ → List ℕ) (stacks : ℕ → List HeldLock) (t : ℕ) (info : LockInfo)
      (wr : Bool)
      → let g : Lockdep = record { lockdep_on = on; deps = deps } in
        IsOrdered (record { g = g; stacks = stacks })
        → Ensures
            (check_unheld_for_lock dep_count stack_depth stack g (stacks t) info wr)
            (λ r. IsOrdered (record { g = r.0; stacks = set_stack stacks t r.1 }))
  unfolding check_unheld_for_lock
  lock_parts false deps stacks t info wr v = inl refl
  lock_parts true deps stacks t info wr (inl off) = absurd (ground arith)
  lock_parts true deps stacks t info wr (inr ((rank, d), c)) =
      let g : Lockdep = record { lockdep_on = true; deps = deps } in
      Ensures-imp (check_unheld_for_lock dep_count stack_depth stack g (stacks t) info wr)
        (λ r. Ordered deps r.0 r.1)
        (λ r. IsOrdered (record { g = r.0; stacks = set_stack stacks t r.1 }))
        (λ r o. put-IsOrdered deps stacks t r.0 r.1 c o)
        (lock-Ordered dep_count stack_depth stack deps rank d (stacks t) info wr (c t))

unlock_parts :
    (on : Bool) (deps : ℕ → List ℕ) (stacks : ℕ → List HeldLock) (t : ℕ) (info : LockInfo)
    → let g : Lockdep = record { lockdep_on = on; deps = deps } in
      IsOrdered (record { g = g; stacks = stacks })
      → Ensures
          (check_held_for_unlock g (stacks t) info)
          (λ held. IsOrdered (record { g = g; stacks = set_stack stacks t held }))
unfolding check_held_for_unlock
unlock_parts false deps stacks t info v = inl refl
unlock_parts true deps stacks t info (inl off) = absurd (ground arith)
unlock_parts true deps stacks t info (inr (d, c)) =
    elim (Option-cases (held_stack_remove info.address (stacks t))) [
      | inl n ↦ rw (check_held_for_unlock, n) tt
      | inr (rest, n) ↦
          rw (check_held_for_unlock, n)
            (put-IsOrdered deps stacks t (record { lockdep_on = true; deps = deps }) rest c
              (inr (
                d,
                (held_stack_remove-Chained deps info.address (stacks t) rest n (c t)).0,
                λ a b w. w,
              )))
    ]

wait_parts :
    (on : Bool) (deps : ℕ → List ℕ) (held : List HeldLock) (info : LockInfo)
    → let g : Lockdep = record { lockdep_on = on; deps = deps } in
      Ensures (check_held_for_wait g held info) (λ g'. (g' ≡ g) ⊎ (g'.lockdep_on ≡ false))
unfolding check_held_for_wait
wait_parts false deps held info = inl refl
wait_parts true deps [] info = tt
wait_parts true deps (last ∷ older) info = elim (Bool-cases (last.info.address == info.address)) [
  | inl e ↦ rw (check_held_for_wait, e) (inl refl)
  | inr e ↦ elim (Option-cases (find_held (λ h. h.info.address == info.address) (last ∷ older))) [
    | inl n ↦ rw (check_held_for_wait, e, n) tt
    | inr (h, n) ↦ rw (check_held_for_wait, e, n) (inr refl)
  ]
]

module _ (dep_count stack_depth stack : ℕ) where
  Step-IsOrdered :
      {s s' : System} → Step dep_count stack_depth stack s s' → IsOrdered s → IsOrdered s'
  unfolding verify_lock_lock verify_lock_unlock verify_rw_lock verify_rw_unlock verify_cond_wait
  Step-IsOrdered {s} (mxlock t info g held e) v =
      Ensures-ok (verify_lock_lock dep_count stack_depth stack s.g (s.stacks t) info)
        (λ r. IsOrdered (record { g = r.0; stacks = set_stack s.stacks t r.1 })) (g, held)
        (Ensures-behind (check_magic info type_mutex) _ _
          (lock_parts dep_count stack_depth stack s.g.lockdep_on s.g.deps s.stacks t info false v))
        e
  Step-IsOrdered {s} (rwlock t info wr g held e) v =
      Ensures-ok (verify_rw_lock dep_count stack_depth stack s.g (s.stacks t) info wr)
        (λ r. IsOrdered (record { g = r.0; stacks = set_stack s.stacks t r.1 })) (g, held)
        (Ensures-behind (check_magic info type_rw) _ _
          (lock_parts dep_count stack_depth stack s.g.lockdep_on s.g.deps s.stacks t info wr v))
        e
  Step-IsOrdered {s} (mxunlock t info held e) v =
      Ensures-ok (verify_lock_unlock s.g (s.stacks t) info)
        (λ r. IsOrdered (record { g = s.g; stacks = set_stack s.stacks t r })) held
        (Ensures-behind (check_magic info type_mutex) _ _
          (unlock_parts s.g.lockdep_on s.g.deps s.stacks t info v))
        e
  Step-IsOrdered {s} (rwunlock t info held e) v =
      Ensures-ok (verify_rw_unlock s.g (s.stacks t) info)
        (λ r. IsOrdered (record { g = s.g; stacks = set_stack s.stacks t r })) held
        (Ensures-behind (check_magic info type_rw) _ _
          (unlock_parts s.g.lockdep_on s.g.deps s.stacks t info v))
        e
  Step-IsOrdered {s} (condwait t cond_info lock_info g e) v =
      elim (Ensures-ok (verify_cond_wait s.g (s.stacks t) cond_info lock_info)
        (λ g'. (g' ≡ s.g) ⊎ (g'.lockdep_on ≡ false)) g
        (Ensures-behind (check_magic cond_info type_cond) _ _
          (wait_parts s.g.lockdep_on s.g.deps (s.stacks t) lock_info))
        e) [
          | inl same ↦ subst (λ g'. IsOrdered (record { g = g'; stacks = s.stacks })) (sym same) v
          | inr off ↦ inl off
        ]

  pub Reachable-IsOrdered : (s : System) → Reachable dep_count stack_depth stack s → IsOrdered s
  Reachable-IsOrdered _ start = inr (((λ x. 0), λ a b e. absurd (ground arith)), λ t. tt)
  Reachable-IsOrdered _ (after {s} r step) = Step-IsOrdered step (Reachable-IsOrdered s r)
