-- ===== src/Synch/Tests.antt =====
-- Runs of two threads with two locks.
use libjeffpc.Base.{
  ℕ, ◌==◌, true, false, List, [], ◌∷◌, ◌++◌, ◌≡◌, ◌⊎◌, refl, arith, All, ok, panic, if◌then◌else◌,
}
use libjeffpc.Synch.{
  type_mutex, LockInfo, HeldLock, Lockdep, check_magic, find_held, find_in, find_path,
  add_dependency, judge, check_circular_deps, error_lock, push_held, check_unheld_for_lock,
  check_held_for_unlock, verify_lock_lock, set_deps,
}
use libjeffpc.Synch.Graph.{Answers, Reaches, find_path-Answers}
use libjeffpc.Synch.Ways.{Descends, with_edge}
use libjeffpc.Synch.Deadlock.{Blocked, no_deadlock}
use libjeffpc.Synch.Threads.{System, at_start, set_stack, mxlock, Reachable, start, after}
use libjeffpc.Synch.Unlock.{IsOther, check_held_for_unlock_lem}

abbrev lock_a : LockInfo
lock_a = record { address = 100; magic = 100; synch_type = type_mutex; lc = 1 }

abbrev lock_b : LockInfo
lock_b = record { address = 200; magic = 200; synch_type = type_mutex; lc = 2 }

abbrev held_a : HeldLock
held_a = record { info = lock_a; rwlock_wr = false }

abbrev held_b : HeldLock
held_b = record { info = lock_b; rwlock_wr = false }

abbrev g_b_on_a : Lockdep
g_b_on_a = record { lockdep_on = true; deps = set_deps (λ x. []) 2 (1 ∷ []) }

-- The other order turns the checks off.
reversed :
    verify_lock_lock 8 4 5 g_b_on_a (held_b ∷ []) lock_a
    ≡ ok (
      record { lockdep_on = false; deps = set_deps (set_deps (λ x. []) 2 (1 ∷ [])) 1 (2 ∷ []) },
      held_b ∷ [],
    )
unfolding verify_lock_lock check_magic check_unheld_for_lock find_held check_circular_deps
    add_dependency judge find_path find_in push_held
reversed = refl

again : verify_lock_lock 8 4 5 g_b_on_a (held_a ∷ []) lock_a ≡ panic
unfolding verify_lock_lock check_magic check_unheld_for_lock find_held error_lock
again = refl

abbrev a_locked : System
a_locked = record {
  g = record { lockdep_on = true; deps = λ x. [] };
  stacks = set_stack (λ t. []) 0 (held_a ∷ []);
}

abbrev b_locked : System
b_locked = record { g = g_b_on_a; stacks = set_stack a_locked.stacks 0 (held_b ∷ held_a ∷ []) }

b_locked-Reachable : Reachable 8 4 5 b_locked
unfolding verify_lock_lock check_magic check_unheld_for_lock find_held check_circular_deps
    add_dependency judge find_path find_in push_held
b_locked-Reachable =
    after (after start (mxlock 0 lock_a at_start.g (held_a ∷ []) refl))
      (mxlock 0 lock_b g_b_on_a (held_b ∷ held_a ∷ []) refl)

no_deadlock_example : ¬ Blocked b_locked 0 0
no_deadlock_example = no_deadlock 8 4 5 b_locked 0 b_locked-Reachable refl

abbrev a_dep : ℕ → List ℕ
a_dep = λ x. if x == 2 then 1 ∷ [] else []

a_dep-Descends : Descends a_dep (λ x. x)
a_dep-Descends a b e = ground arith

find_path-Answers_example : Answers (find_path 3 (with_edge a_dep 1 2) 2 1) (Reaches a_dep 2 1)
find_path-Answers_example = find_path-Answers a_dep (λ x. x) a_dep-Descends 1 2 3 2 (omega arith)

check_held_for_unlock_lem_example :
    (All (IsOther 100) (held_b ∷ held_a ∷ [])
      × (check_held_for_unlock g_b_on_a (held_b ∷ held_a ∷ []) lock_a ≡ panic))
    ⊎ ((pre : List HeldLock) × (h : HeldLock) × (post : List HeldLock) × (held_b ∷ held_a ∷ []
          ≡ pre ++ h ∷ post)
        × (h.info.address ≡ 100)
        × All (IsOther 100) post
        × (check_held_for_unlock g_b_on_a (held_b ∷ held_a ∷ []) lock_a ≡ ok (pre ++ post)))
check_held_for_unlock_lem_example =
    check_held_for_unlock_lem g_b_on_a (held_b ∷ held_a ∷ []) lock_a refl
