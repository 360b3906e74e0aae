-- ===== src/Synch/Order.antt =====
-- While the checks are on, all threads take their locks in one order of the classes.
use libjeffpc.Base.{
  ℕ, ◌==◌, false, none, some, List, [], ◌∷◌, ◌≡◌, ◌⊎◌, inl, inr, arith, Result, ok, err, fault,
  panic, ◌>>=◌, ◌>>◌, Bool-cases, Option-cases,
}
use mathlib.Core.Path.{subst}
use libjeffpc.Synch.{HeldLock, Lockdep, held_stack_remove}
use libjeffpc.Synch.Ways.{Way, one, more, Way-append, Descends, with_edge, Edge-kept}

-- What is true of a value, if there is one.
abbrev pub Ensures {ℓ κ} : {X : Type ℓ} → Result X → (X → Type κ) → Type κ
Ensures (ok x) P = P x
Ensures (err e) P = Unit
Ensures panic P = Unit
Ensures fault P = Unit

pub Ensures-bind {ℓ κ μ ν} :
    {X : Type ℓ} {Y : Type κ} (m : Result X) (f : X → Result Y) (Q : X → Type μ) (P : Y → Type ν)
    → Ensures m Q
    → ((x : X) → Q x → Ensures (f x) P)
    → Ensures (m >>= f) P
Ensures-bind (ok x) f Q P q h = h x q
Ensures-bind (err e) f Q P q h = tt
Ensures-bind panic f Q P q h = tt
Ensures-bind fault f Q P q h = tt

pub Ensures-ok {ℓ κ} :
    {X : Type ℓ} (r : Result X) (P : X → Type κ) (x : X) → Ensures r P → r ≡ ok x → P x
Ensures-ok r P x h e = subst (λ m. Ensures m P) e h

-- A class from which there is a way to that of the newest of these locks.
abbrev pub Below : (ℕ → List ℕ) → ℕ → List HeldLock → Type 0
Below deps c [] = Unit
Below deps c (h ∷ older) = Way deps c h.info.lc

-- Each lock depends on those that were held when it was taken.
abbrev pub Chained : (ℕ → List ℕ) → List HeldLock → Type 0
Chained deps [] = Unit
Chained deps (h ∷ older) = Below deps h.info.lc older × Chained deps older

Below-append :
    (deps : ℕ → List ℕ) (c d : ℕ) (held : List HeldLock)
    → Way deps c d
    → Below deps d held
    → Below deps c held
Below-append deps c d [] w b = tt
Below-append deps c d (h ∷ older) w b = Way-append deps c d h.info.lc w b

-- The locks of other threads keep their order when the graph grows.
abbrev pub Keeps : (ℕ → List ℕ) → (ℕ → List ℕ) → Type 0
Keeps deps deps' = (a b : ℕ) → Way deps a b → Way deps' a b

pub Chained-kept :
    (deps deps' : ℕ → List ℕ) (held : List HeldLock)
    → Keeps deps deps'
    → Chained deps held
    → Chained deps' held
Chained-kept deps deps' [] k c = tt
Chained-kept deps deps' (h ∷ []) k c = (tt, tt)
Chained-kept deps deps' (h ∷ g ∷ older) k c =
    (k h.info.lc g.info.lc c.0, Chained-kept deps deps' (g ∷ older) k c.1)

pub Way-kept :
    (deps : ℕ → List ℕ) (from to a b : ℕ) → Way deps a b → Way (with_edge deps from to) a b
Way-kept deps from to a b (one e) = one (Edge-kept deps from to a b e)
Way-kept deps from to a b (more {b = c} e w) =
    more (Edge-kept deps from to a c e) (Way-kept deps from to c b w)

-- Taking a lock off the stack, wherever it is.
pub held_stack_remove-Chained :
    (deps : ℕ → List ℕ) (address : ℕ) (held rest : List HeldLock)
    → held_stack_remove address held ≡ some rest
    → Chained deps held
    → Chained deps rest × ((c : ℕ) → Below deps c held → Below deps c rest)
unfolding held_stack_remove
held_stack_remove-Chained deps address [] rest e c = absurd (ground arith)
held_stack_remove-Chained deps address (h ∷ older) rest e c =
    elim (Option-cases (held_stack_remove address older)) [
      | inl n ↦ elim (Bool-cases (h.info.address == address)) [
        | inl t ↦
            let e' : some older ≡ some rest = rw (held_stack_remove, n, t) at e in
            let same : older ≡ rest = cc in
            subst (λ xs. Chained deps xs × ((d : ℕ) → Below deps d (h ∷ older) → Below deps d xs))
              same (c.1, λ d b. Below-append deps d h.info.lc older b c.0)
        | inr t ↦
            let e' : none ≡ some rest = rw (held_stack_remove, n, t) at e in absurd (ground arith)
      ]
      | inr (xs, n) ↦
          let e' : some (h ∷ xs) ≡ some rest = rw (held_stack_remove, n) at e in
          let same : h ∷ xs ≡ rest = cc in
          let (c', b') = held_stack_remove-Chained deps address older xs n c.1 in
          subst (λ ys. Chained deps ys × ((d : ℕ) → Below deps d (h ∷ older) → Below deps d ys))
            same ((b' h.info.lc c.0, c'), λ d b. b)
    ]

-- What a check leaves: the checks are off, or the classes are in order.
abbrev pub Ordered : (ℕ → List ℕ) → Lockdep → List HeldLock → Type 0
Ordered deps g held =
    (g.lockdep_on ≡ false)
    ⊎ (((rank : ℕ → ℕ) × Descends g.deps rank) × Chained g.deps held × Keeps deps g.deps)

pub Ensures-imp {ℓ κ μ} :
    {X : Type ℓ} (r : Result X) (P : X → Type κ) (Q : X → Type μ)
    → ((x : X) → P x → Q x)
    → Ensures r P
    → Ensures r Q
Ensures-imp (ok x) P Q f h = f x h
Ensures-imp (err e) P Q f h = tt
Ensures-imp panic P Q f h = tt
Ensures-imp fault P Q f h = tt

-- A check in front, whatever it is.
pub Ensures-behind {ℓ κ} :
    {X : Type ℓ} (c : Result (Unit {0})) (m : Result X) (P : X → Type κ)
    → Ensures m P
    → Ensures (c >> m) P
Ensures-behind (ok x) m P h = h
Ensures-behind (err e) m P h = tt
Ensures-behind panic m P h = tt
Ensures-behind fault m P h = tt
