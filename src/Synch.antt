-- ===== src/Synch.antt =====
-- synch.c: the checks that locks go through before the calls of pthreads, where lock tracking is built
-- in. A lock class is its number, a pointer to a lock is the number of its address. The graph of the
-- classes is shared, and each thread has its stack of held locks, the last acquired first. The two
-- bounds come from the build's configuration. A `fault` is a call stack that is used up. Each check is
-- one step; one that another thread turns off in the middle leaves nothing on the stack.
pub mod Ways
pub mod Graph
pub mod Order
pub mod Lock
pub mod Threads
pub mod Deadlock
pub mod Unlock
mod Tests
use libjeffpc.Base.{
  ℕ, zero, suc, ◌+◌, ◌-◌, ◌==◌, leb, Bool, true, false, not, ◌&&◌, ◌||◌, Option, none, some, List,
  [], ◌∷◌, ◌++◌, length, if◌then◌else◌, Result, ok, panic, fault, ◌>>=◌, ◌>>◌,
}

pub data SynchType : Type 0 where
  type_mutex type_rw type_cond : SynchType

pub record LockInfo : Type 0 where
  pub address : ℕ
  pub magic : ℕ
  pub synch_type : SynchType
  pub lc : ℕ

pub record HeldLock : Type 0 where
  pub info : LockInfo
  pub rwlock_wr : Bool

-- What all threads share: whether the checks are on, and for each class what it depends on, in order.
pub record Lockdep : Type 0 where
  pub lockdep_on : Bool
  pub deps : ℕ → List ℕ

abbrev pub same_type : SynchType → SynchType → Bool
same_type type_mutex type_mutex = true
same_type type_rw type_rw = true
same_type type_cond type_cond = true
same_type s t = false

unfoldable pub check_magic : LockInfo → SynchType → Result (Unit {0})
check_magic info expected_type =
    if not (info.magic == info.address)
    then panic
    else if not (same_type info.synch_type expected_type)
    then panic
    else ok tt

abbrev pub last_acquired_lock : List HeldLock → Option HeldLock
last_acquired_lock [] = none
last_acquired_lock (h ∷ older) = some h

-- The first lock that passes a test, from the oldest on.
unfoldable pub find_held : (HeldLock → Bool) → List HeldLock → Option HeldLock
find_held test [] = none
find_held test (h ∷ older) = elim (find_held test older) [
  | some first ↦ some first
  | none ↦ if test h then some h else none
]

-- The stack without the first lock at an address, from the oldest on.
unfoldable pub held_stack_remove : ℕ → List HeldLock → Option (List HeldLock)
held_stack_remove address [] = none
held_stack_remove address (h ∷ older) = elim (held_stack_remove address older) [
  | some rest ↦ some (h ∷ rest)
  | none ↦ if h.info.address == address then some older else none
]

abbrev pub is_dep : ℕ → List ℕ → Bool
is_dep to [] = false
is_dep to (d ∷ ds) = (d == to) || is_dep to ds

abbrev pub set_deps : (ℕ → List ℕ) → ℕ → List ℕ → ℕ → List ℕ
set_deps deps from ds x = if x == from then ds else deps x

-- What `add_dependency` returns: a negative number, zero, or a positive one.
pub data Added : Type 0 where
  slots_full already_present added : Added

-- The search below the dependencies of one class.
unfoldable pub find_in : (ℕ → Result Bool) → List ℕ → Result Bool
find_in search [] = ok false
find_in search (d ∷ ds) =
    let rest = find_in search ds in search d >>= λ b. if b then ok true else rest

-- `stack` is how many calls deep the search may go.
unfoldable pub find_path : ℕ → (ℕ → List ℕ) → ℕ → ℕ → Result Bool
find_path zero deps from to = fault
find_path (suc stack) deps from to =
    let below = find_in (λ d. find_path stack deps d to) (deps from) in
    if from == to then ok true else below

unfoldable pub add_dependency : ℕ → Lockdep → ℕ → ℕ → Result (Added × Lockdep)
add_dependency dep_count g from to =
    if from == to
    then panic
    else if not g.lockdep_on
    then ok (already_present, g)
    else if is_dep to (g.deps from)
    then ok (already_present, g)
    else if leb (dep_count - 1) (length (g.deps from))
    then ok (slots_full, g)
    else ok (added, record g { deps = set_deps g.deps from (g.deps from ++ to ∷ []) })

-- atomic_set(&lockdep_on, 0)
abbrev pub turn_off : Lockdep → Lockdep
turn_off g = record g { lockdep_on = false }

-- What follows the call of `add_dependency`: `find_path` turns the checks off where it finds a way.
unfoldable pub judge : ℕ → ℕ → ℕ → Added × Lockdep → Result Lockdep
judge stack last new (slots_full, g) = ok (turn_off g)
judge stack last new (already_present, g) = ok g
judge stack last new (added, g) =
    find_path stack g.deps last new >>= λ found. ok (if found then turn_off g else g)

-- What it returns is whether the checks are off then.
unfoldable pub check_circular_deps : ℕ → ℕ → Lockdep → List HeldLock → LockInfo → Result Lockdep
check_circular_deps dep_count stack g held info = elim (last_acquired_lock held) [
  | none ↦ ok g
  | some last ↦ add_dependency dep_count g info.lc last.info.lc >>= judge stack last.info.lc info.lc
]

-- A deadlock, or a lock of a class that is held already.
unfoldable pub error_lock : Lockdep → HeldLock → LockInfo → Result Lockdep
error_lock g held new = if new.address == held.info.address then panic else ok (turn_off g)

-- From the check for circular dependencies on.
unfoldable pub push_held : ℕ → Lockdep → List HeldLock → LockInfo → Bool → Lockdep × List HeldLock
push_held stack_depth g held info rwlock_wr =
    if not g.lockdep_on
    then (g, held)
    else if length held == stack_depth
    then (turn_off g, held)
    else (g, record { info = info; rwlock_wr = rwlock_wr } ∷ held)

abbrev pub conflicts : LockInfo → HeldLock → Bool
conflicts info h = (h.info.address == info.address) || (h.info.lc == info.lc)

-- `dep_count` and `stack_depth` are the bounds of the build.
unfoldable pub check_unheld_for_lock :
    ℕ → ℕ → ℕ → Lockdep → List HeldLock → LockInfo → Bool → Result (Lockdep × List HeldLock)
check_unheld_for_lock dep_count stack_depth stack g held info rwlock_wr =
    if not g.lockdep_on then ok (g, held) else elim (find_held (conflicts info) held) [
      | some h ↦ error_lock g h info >>= λ g'. ok (g', held)
      | none ↦ check_circular_deps dep_count stack g held info >>= λ g'.
          ok (push_held stack_depth g' held info rwlock_wr)
    ]

unfoldable pub check_held_for_unlock : Lockdep → List HeldLock → LockInfo → Result (List HeldLock)
check_held_for_unlock g held info =
    if not g.lockdep_on
    then ok held
    else elim (held_stack_remove info.address held) [ some rest ↦ ok rest | none ↦ panic ]

unfoldable pub verify_lock_lock :
    ℕ → ℕ → ℕ → Lockdep → List HeldLock → LockInfo → Result (Lockdep × List HeldLock)
verify_lock_lock dep_count stack_depth stack g held info =
    check_magic info type_mutex
    >> check_unheld_for_lock dep_count stack_depth stack g held info false

unfoldable pub verify_lock_unlock : Lockdep → List HeldLock → LockInfo → Result (List HeldLock)
verify_lock_unlock g held info = check_magic info type_mutex >> check_held_for_unlock g held info

unfoldable pub verify_rw_lock :
    ℕ → ℕ → ℕ → Lockdep → List HeldLock → LockInfo → Bool → Result (Lockdep × List HeldLock)
verify_rw_lock dep_count stack_depth stack g held info wr =
    check_magic info type_rw >> check_unheld_for_lock dep_count stack_depth stack g held info wr

unfoldable pub verify_rw_unlock : Lockdep → List HeldLock → LockInfo → Result (List HeldLock)
verify_rw_unlock g held info = check_magic info type_rw >> check_held_for_unlock g held info

-- The lock of a wait stays on the stack. Where another lock was taken after it, the checks go off.
unfoldable pub check_held_for_wait : Lockdep → List HeldLock → LockInfo → Result Lockdep
check_held_for_wait g held info =
    if not g.lockdep_on then ok g else elim (last_acquired_lock held) [
      | none ↦ panic
      | some last ↦
          if last.info.address == info.address
          then ok g
          else elim (find_held (λ h. h.info.address == info.address) held) [
            | some h ↦ ok (turn_off g)
            | none ↦ panic
          ]
    ]

unfoldable pub verify_cond_wait : Lockdep → List HeldLock → LockInfo → LockInfo → Result Lockdep
verify_cond_wait g held cond_info lock_info =
    check_magic cond_info type_cond >> check_held_for_wait g held lock_info
