-- ===== src/Synch/Unlock.antt =====
-- Releasing a lock.
use libjeffpc.Base.{
  ℕ, ◌==◌, ==_iff, Bool, true, false, Option, none, some, List, [], ◌∷◌, ◌++◌, ◌≡◌, ◌⊎◌, inl, inr,
  refl, arith, All, ok, panic, Bool-cases,
}
use libjeffpc.Synch.{LockInfo, HeldLock, Lockdep, held_stack_remove, check_held_for_unlock}

abbrev pub IsOther : ℕ → HeldLock → Type 0
IsOther address h = ¬ (h.info.address ≡ address)

-- What is left of a stack without the oldest lock at an address.
abbrev pub Removed : ℕ → List HeldLock → Option (List HeldLock) → Type 0
Removed address held r =
    (All (IsOther address) held × (r ≡ none))
    ⊎ ((pre : List HeldLock) × (h : HeldLock) × (post : List HeldLock) × (held ≡ pre ++ h ∷ post)
        × (h.info.address ≡ address)
        × All (IsOther address) post
        × (r ≡ some (pre ++ post)))

differs : (b : Bool) (P : Type 0) → b ≡ false → (P → b ≡ true) → ¬ P
differs true P e f p = absurd (ground arith)
differs false P e f p = let g = f p in absurd (ground arith)

held_stack_remove-Removed :
    (address : ℕ) (held : List HeldLock) → Removed address held (held_stack_remove address held)
unfolding held_stack_remove
held_stack_remove-Removed address [] = inl (tt, refl)
held_stack_remove-Removed address (h ∷ older) = elim (held_stack_remove-Removed address older) [
  | inl (others, n) ↦ elim (Bool-cases (h.info.address == address)) [
    | inl e ↦
        rw (held_stack_remove, n, e)
          (inr ([], h, older, refl, (==_iff h.info.address address).0 e, others, refl))
    | inr e ↦
        rw (held_stack_remove, n, e)
          (inl (
            (differs (h.info.address == address) _ e (==_iff h.info.address address).1, others),
            refl,
          ))
  ]
  | inr (pre, k, post, e, a, others, n) ↦
      rw (held_stack_remove, n) (inr (h ∷ pre, k, post, rw e refl, a, others, refl))
]

-- While the checks are on, releasing a lock panics where no held lock has its address, and else
-- takes the one that was acquired first among those with that address off the stack and leaves
-- the others as they are.
pub check_held_for_unlock_lem :
    (g : Lockdep) (held : List HeldLock) (info : LockInfo)
    → g.lockdep_on ≡ true
    → (All (IsOther info.address) held × (check_held_for_unlock g held info ≡ panic))
      ⊎ ((pre : List HeldLock) × (h : HeldLock) × (post : List HeldLock) × (held ≡ pre ++ h ∷ post)
          × (h.info.address ≡ info.address)
          × All (IsOther info.address) post
          × (check_held_for_unlock g held info ≡ ok (pre ++ post)))
unfolding check_held_for_unlock
check_held_for_unlock_lem g held info on = elim (held_stack_remove-Removed info.address held) [
  | inl (others, n) ↦ inl (others, rw (check_held_for_unlock, on, n) refl)
  | inr (pre, h, post, e, a, others, n) ↦
      inr (pre, h, post, e, a, others, rw (check_held_for_unlock, on, n) refl)
]
