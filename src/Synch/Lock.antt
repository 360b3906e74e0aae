-- ===== src/Synch/Lock.antt =====
-- Taking and releasing a lock keeps the classes in order, or turns the checks off.
use libjeffpc.Base.{
  ℕ, ◌-◌, ◌==◌, leb, Bool, true, false, List, [], ◌∷◌, length, ◌≡◌, ◌⊎◌, inl, inr, refl,
  if◌then◌else◌, Result, ok, err, fault, panic, ◌>>=◌, Bool-cases, Option-cases,
}
use libjeffpc.Synch.{
  LockInfo, HeldLock, Lockdep, is_dep, find_path, add_dependency, judge, check_circular_deps,
  error_lock, push_held, conflicts, find_held, check_unheld_for_lock, turn_off,
}
use libjeffpc.Synch.Graph.{find_path-clear, new_rank, new_rank-Descends}
use libjeffpc.Synch.Ways.{one, Descends, with_edge, new-Edge}
use libjeffpc.Synch.Order.{
  Ensures, Ensures-bind, Below, Chained, Keeps, Way-kept, Chained-kept, Ordered,
}

-- What the check for circular dependencies leaves for a class.
abbrev Judged : (ℕ → List ℕ) → ℕ → List HeldLock → Lockdep → Type 0
Judged deps lc held g =
    (g.lockdep_on ≡ false)
    ⊎ (((rank : ℕ → ℕ) × Descends g.deps rank) × Below g.deps lc held × Keeps deps g.deps)

module _ (dep_count stack_depth stack : ℕ) (deps : ℕ → List ℕ) (rank : ℕ → ℕ)
    (descends : Descends deps rank) where
  search-Judged :
      (from : ℕ) (last : HeldLock) (older : List HeldLock) (r : Result Bool)
      → find_path stack (with_edge deps from last.info.lc) last.info.lc from ≡ r
      → let g' : Lockdep = record { lockdep_on = true; deps = with_edge deps from last.info.lc } in
        Ensures
          (r >>= λ found. ok (if found then turn_off g' else g'))
          (Judged deps from (last ∷ older))
  search-Judged from last older (ok true) e = inl refl
  search-Judged from last older (ok false) e = inr (
    (
      new_rank deps rank descends from last.info.lc,
      new_rank-Descends deps rank descends from last.info.lc
          (find_path-clear deps from last.info.lc stack last.info.lc e),
    ),
    one (new-Edge deps from last.info.lc),
    λ a b w. Way-kept deps from last.info.lc a b w,
  )
  search-Judged from last older (err k) e = tt
  search-Judged from last older panic e = tt
  search-Judged from last older fault e = tt

  circular-Judged :
      (held : List HeldLock) (info : LockInfo)
      → Ensures
          (check_circular_deps dep_count stack
            (record { lockdep_on = true; deps = deps })
            held
            info)
          (Judged deps info.lc held)
  unfolding check_circular_deps add_dependency judge
  circular-Judged [] info = inr ((rank, descends), tt, λ a b w. w)
  circular-Judged (last ∷ older) info =
      let from = info.lc in
      let to = last.info.lc in
      elim (Bool-cases (from == to)) [
        | inl e ↦ rw (check_circular_deps, add_dependency, e) tt
        | inr e ↦ elim (Bool-cases (is_dep to (deps from))) [
          | inl m ↦
              rw (check_circular_deps, add_dependency, e, m)
                (inr ((rank, descends), one m, λ a b w. w))
          | inr m ↦ elim (Bool-cases (leb (dep_count - 1) (length (deps from)))) [
            | inl l ↦ rw (check_circular_deps, add_dependency, e, m, l) (inl refl)
            | inr l ↦
                rw (check_circular_deps, add_dependency, e, m, l)
                  (search-Judged from last older
                    (find_path stack (with_edge deps from last.info.lc) last.info.lc from) refl)
          ]
        ]
      ]

  push-Ordered :
      (held : List HeldLock) (info : LockInfo) (wr : Bool) (g' : Lockdep)
      → Chained deps held
      → Judged deps info.lc held g'
      → let r = push_held stack_depth g' held info wr in Ordered deps r.0 r.1
  unfolding push_held
  push-Ordered held info wr g' c (inl off) = rw (push_held, off) (inl refl)
  push-Ordered held info wr g' c (inr (d, b, k)) = elim (Bool-cases g'.lockdep_on) [
    | inr off ↦ rw (push_held, off) (inl refl)
    | inl on' ↦ elim (Bool-cases (length held == stack_depth)) [
      | inl full ↦ rw (push_held, on', full) (inl refl)
      | inr free ↦ rw (push_held, on', free) (inr (d, (b, Chained-kept deps g'.deps held k c), k))
    ]
  ]

  conflict-Ordered :
      (held : List HeldLock) (h : HeldLock) (info : LockInfo)
      → Ensures
          (error_lock (record { lockdep_on = true; deps = deps }) h info >>= λ g'. ok (g', held))
          (λ (r : Lockdep × List HeldLock). Ordered deps r.0 r.1)
  unfolding error_lock
  conflict-Ordered held h info = elim (Bool-cases (info.address == h.info.address)) [
    | inl e ↦ rw (error_lock, e) tt
    | inr e ↦ rw (error_lock, e) (inl refl)
  ]

  pub lock-Ordered :
      (held : List HeldLock) (info : LockInfo) (wr : Bool)
      → Chained deps held
      → Ensures
          (check_unheld_for_lock dep_count stack_depth stack
            (record { lockdep_on = true; deps = deps })
            held
            info
            wr)
          (λ r. Ordered deps r.0 r.1)
  unfolding check_unheld_for_lock
  lock-Ordered held info wr c = elim (Option-cases (find_held (conflicts info) held)) [
    | inl n ↦
        rw (check_unheld_for_lock, n)
          (Ensures-bind
            (check_circular_deps dep_count stack (record { lockdep_on = true; deps = deps }) held
              info)
            (λ g'. ok (push_held stack_depth g' held info wr)) (Judged deps info.lc held)
            (λ r. Ordered deps r.0 r.1) (circular-Judged held info)
            (λ g' j. push-Ordered held info wr g' c j))
    | inr (h, n) ↦ rw (check_unheld_for_lock, n) (conflict-Ordered held h info)
  ]
