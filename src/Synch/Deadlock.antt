-- ===== src/Synch/Deadlock.antt =====
-- Why threads do not wait for each other in a ring.
use libjeffpc.Base.{ℕ, true, List, [], ◌∷◌, ◌++◌, ◌≡◌, inl, inr, sym, ap, ◌∙◌, arith}
use mathlib.Core.Path.{subst}
use libjeffpc.Synch.{HeldLock}
use libjeffpc.Synch.Ways.{Way, Way-append, Way-Descends}
use libjeffpc.Synch.Order.{Chained}
use libjeffpc.Synch.Threads.{System, Reachable, Reachable-IsOrdered}

-- `t` waits for its newest lock, which is of a class of which `u` has a lock that is not its newest.
pub data Waits (s : System) (t u : ℕ) : Type 0 where
  waits :
      (wanted top held : HeldLock) (older pre post : List HeldLock)
      → s.stacks t ≡ wanted ∷ older
      → s.stacks u ≡ top ∷ (pre ++ held ∷ post)
      → held.info.lc ≡ wanted.info.lc
      → Waits s t u

-- A chain of threads each of which waits for the next.
pub data Blocked (s : System) : ℕ → ℕ → Type 0 where
  by_one : {t u : ℕ} → Waits s t u → Blocked s t u
  by_more : {t u v : ℕ} → Waits s t u → Blocked s u v → Blocked s t v

abbrev top_class : List HeldLock → ℕ
top_class [] = 0
top_class (h ∷ older) = h.info.lc

Way-down :
    (deps : ℕ → List ℕ) (top : HeldLock) (pre : List HeldLock) (held : HeldLock)
    (post : List HeldLock)
    → Chained deps (top ∷ (pre ++ held ∷ post))
    → Way deps top.info.lc held.info.lc
Way-down deps top [] held post c = c.0
Way-down deps top (h ∷ pre) held post c =
    Way-append deps top.info.lc h.info.lc held.info.lc c.0 (Way-down deps h pre held post c.1)

module _ (s : System) (c : (t : ℕ) → Chained s.g.deps (s.stacks t)) where
  Waits-Way :
      (t u : ℕ) → Waits s t u → Way s.g.deps (top_class (s.stacks u)) (top_class (s.stacks t))
  Waits-Way t u (waits wanted top held older pre post e f same) =
      let w = Way-down s.g.deps top pre held post (subst (Chained s.g.deps) f (c u)) in
      let w' = subst (Way s.g.deps top.info.lc) (same ∙ sym (ap top_class e)) w in
      subst (λ a. Way s.g.deps a (top_class (s.stacks t))) (sym (ap top_class f)) w'

  Blocked-Way :
      (t u : ℕ) → Blocked s t u → Way s.g.deps (top_class (s.stacks u)) (top_class (s.stacks t))
  Blocked-Way t u (by_one w) = Waits-Way t u w
  Blocked-Way t v (by_more {u = u} w b) =
      Way-append s.g.deps (top_class (s.stacks v)) (top_class (s.stacks u)) (top_class (s.stacks t))
        (Blocked-Way u v b) (Waits-Way t u w)

-- While the checks are on, no chain of waiting threads comes back to its start: there are no
-- threads each of which waits for its newest lock while the next one holds a lock of that class
-- below its own newest lock. This holds in every state that threads reach from empty stacks and a
-- graph without dependencies by taking and releasing mutexes and rwlocks and waiting on
-- conditions, whatever the bounds of the build are.
pub no_deadlock :
    (dep_count stack_depth stack : ℕ) (s : System) (t : ℕ)
    → Reachable dep_count stack_depth stack s
    → s.g.lockdep_on ≡ true
    → ¬ Blocked s t t
no_deadlock dep_count stack_depth stack s t r on b =
    elim (Reachable-IsOrdered dep_count stack_depth stack s r) [
      | inl off ↦ absurd (ground (arith, off, on))
      | inr ((rank, d), c) ↦
          let a = top_class (s.stacks t) in
          let less = Way-Descends s.g.deps rank a a d (Blocked-Way s c t t b) in omega (arith, less)
    ]
