-- ===== src/Synch/Graph.antt =====
-- What `find_path` finds in the graph of lock classes, and how their ranks change with it.
use libjeffpc.Base.{
  ℕ, zero, suc, ◌+◌, ◌==◌, ==_iff, ◌<◌, Bool, true, false, List, [], ◌∷◌, ◌≡◌, ◌⊎◌, inl, inr, refl,
  sym, ap, arith, Result, ok, err, Errno, fault, panic, Bool-cases,
}
use mathlib.Core.Path.{subst}
use libjeffpc.Synch.{is_dep, find_in, find_path}
use libjeffpc.Synch.Ways.{
  Edge, Way, one, more, Descends, with_edge, Edge-cases, or_cases, or_left, or_right, not_both,
}

-- The search of one class answers, and is right.
abbrev pub Answers : Result Bool → Type 0 → Type 0
Answers r P = ((r ≡ ok true) × P) ⊎ ((r ≡ ok false) × (¬ P))

nowhere :
    (P : ℕ → Type 0) (d : ℕ) (ds : List ℕ)
    → ¬ P d
    → ¬ ((x : ℕ) × (is_dep x ds ≡ true) × P x)
    → ¬ ((x : ℕ) × (is_dep x (d ∷ ds) ≡ true) × P x)
nowhere P d ds np others (x, m, p) = elim (or_cases (d == x) (is_dep x ds) m) [
  | inl e ↦ np (subst P (sym ((==_iff d x).0 e)) p)
  | inr m' ↦ others (x, m', p)
]

find_in-Answers :
    (search : ℕ → Result Bool) (P : ℕ → Type 0) (ds : List ℕ)
    → ((d : ℕ) → is_dep d ds ≡ true → Answers (search d) (P d))
    → Answers (find_in search ds) ((d : ℕ) × (is_dep d ds ≡ true) × P d)
unfolding find_in
find_in-Answers search P [] h = inr (refl, λ p. ground arith)
find_in-Answers search P (d ∷ ds) h =
    elim (h d (or_left (d == d) (is_dep d ds) ((==_iff d d).1 refl))) [
      | inl (e, p) ↦
          rw (find_in, e) (inl (refl, (d, or_left (d == d) (is_dep d ds) ((==_iff d d).1 refl), p)))
      | inr (e, np) ↦
          elim (find_in-Answers search P ds (λ x m. h x (or_right (d == x) (is_dep x ds) m))) [
            | inl (e', (x, m, p)) ↦
                rw (find_in, e, e') (inl (refl, (x, or_right (d == x) (is_dep x ds) m, p)))
            | inr (e', others) ↦ rw (find_in, e, e') (inr (refl, nowhere P d ds np others))
          ]
    ]

-- What `find_path` looks for.
abbrev pub Reaches : (ℕ → List ℕ) → ℕ → ℕ → Type 0
Reaches deps from to = (from ≡ to) ⊎ Way deps from to

Reaches-on :
    (deps : ℕ → List ℕ) (a d to : ℕ) → Edge deps a d → Reaches deps d to → Reaches deps a to
Reaches-on deps a d to e (inl same) = inr (one (subst (λ c. Edge deps a c) same e))
Reaches-on deps a d to e (inr w) = inr (more e w)

-- From another class the way to `to` goes on through a dependency.
Reaches-by :
    (deps : ℕ → List ℕ) (a to : ℕ)
    → ¬ (a ≡ to)
    → Reaches deps a to
    → (d : ℕ) × Edge deps a d × Reaches deps d to
Reaches-by deps a to other (inl same) = absurd (other same)
Reaches-by deps a to other (inr (one e)) = (to, e, inl refl)
Reaches-by deps a to other (inr (more {b = d} e w)) = (d, e, inr w)

module _ (deps : ℕ → List ℕ) (rank : ℕ → ℕ) (d : Descends deps rank) (new held : ℕ) where
  -- In a graph whose classes are ranked above all that they depend on, with one edge from `new`
  -- added: a search for `new`, with a call stack deeper than the rank of the class where it
  -- begins, returns, and it finds `new` exactly where that class is `new` or has a way to it
  -- without the added edge.
  pub find_path-Answers :
      (stack from : ℕ)
      → rank from < stack
      → Answers (find_path stack (with_edge deps new held) from new) (Reaches deps from new)
  unfolding find_path
  find_path-Answers zero from h = absurd (omega (arith, h))
  find_path-Answers (suc stack) from h = elim (Bool-cases (from == new)) [
    | inl e ↦ rw (find_path, e) (inl (refl, inl ((==_iff from new).0 e)))
    | inr e ↦
        let other : ¬ (from ≡ new) = λ same. not_both (from == new) ((==_iff from new).1 same) e in
        elim (find_in-Answers (λ b. find_path stack (with_edge deps new held) b new)
          (λ b. Reaches deps b new) (deps from)
          (λ b m. find_path-Answers stack b (omega (arith, h, d from b m)))) [
            | inl (e', (b, m, r)) ↦
                rw (find_path, e, e') (inl (refl, Reaches-on deps from b new m r))
            | inr (e', others) ↦
                rw (find_path, e, e') (inr (refl, λ r. others (Reaches-by deps from new other r)))
          ]
  ]

  -- The order of the classes with the new edge: `new` and all that reach it are put above `held`.
  abbrev pub raised :
      (x : ℕ)
      → Answers (find_path (suc (rank x)) (with_edge deps new held) x new) (Reaches deps x new)
      → ℕ
  raised x (inl p) = rank x + rank held + 1
  raised x (inr p) = rank x

  abbrev pub new_rank : ℕ → ℕ
  new_rank x = raised x (find_path-Answers (suc (rank x)) x (omega arith))

  raised_below :
      (a b : ℕ)
      (p : Answers (find_path (suc (rank a)) (with_edge deps new held) a new) (Reaches deps a new))
      (q : Answers (find_path (suc (rank b)) (with_edge deps new held) b new) (Reaches deps b new))
      → rank b < rank a
      → (Reaches deps b new → Reaches deps a new)
      → raised b q < raised a p
  raised_below a b (inl p) (inl q) h up = omega (arith, h)
  raised_below a b (inl p) (inr q) h up = omega (arith, h)
  raised_below a b (inr p) (inl q) h up = absurd (p.1 (up q.1))
  raised_below a b (inr p) (inr q) h up = h

  raised_edge :
      ¬ Reaches deps held new
      → (a b : ℕ)
        (p : Answers
          (find_path (suc (rank a)) (with_edge deps new held) a new)
          (Reaches deps a new))
        (q : Answers
          (find_path (suc (rank b)) (with_edge deps new held) b new)
          (Reaches deps b new))
      → a ≡ new
      → b ≡ held
      → raised b q < raised a p
  raised_edge clear a b (inl p) (inl q) e f = absurd (clear (subst (λ c. Reaches deps c new) f q.1))
  raised_edge clear a b (inl p) (inr q) e f = omega (arith, ap rank f)
  raised_edge clear a b (inr p) q e f = absurd (p.1 (inl e))

  pub new_rank-Descends : ¬ Reaches deps held new → Descends (with_edge deps new held) new_rank
  new_rank-Descends clear a b e = elim (Edge-cases deps new held a b e) [
    | inl old ↦
        raised_below a b (find_path-Answers (suc (rank a)) a (omega arith))
          (find_path-Answers (suc (rank b)) b (omega arith)) (d a b old)
          (λ r. Reaches-on deps a b new old r)
    | inr (same, same') ↦
        raised_edge clear a b (find_path-Answers (suc (rank a)) a (omega arith))
          (find_path-Answers (suc (rank b)) b (omega arith)) same same'
  ]

Result-cases :
    (r : Result Bool)
    → (r ≡ ok true) ⊎ (r ≡ ok false) ⊎ ((e : Errno) × (r ≡ err e)) ⊎ ((r ≡ panic) ⊎ (r ≡ fault))
Result-cases (ok true) = inl refl
Result-cases (ok false) = inr (inl refl)
Result-cases (err e) = inr (inr (inl (e, refl)))
Result-cases panic = inr (inr (inr (inl refl)))
Result-cases fault = inr (inr (inr (inr refl)))

find_in-clear :
    (search : ℕ → Result Bool) (ds : List ℕ) (d : ℕ)
    → find_in search ds ≡ ok false
    → is_dep d ds ≡ true
    → search d ≡ ok false
unfolding find_in
find_in-clear search [] d e m = absurd (ground arith)
find_in-clear search (x ∷ ds) d e m = elim (Result-cases (search x)) [
  | inl h ↦ let e' : ok true ≡ ok false = rw (find_in, h) at e in absurd (ground arith)
  | inr (inl h) ↦
      let rest : find_in search ds ≡ ok false = rw (find_in, h) at e in
      elim (or_cases (x == d) (is_dep d ds) m) [
        | inl same ↦ subst (λ c. search c ≡ ok false) ((==_iff x d).0 same) h
        | inr m' ↦ find_in-clear search ds d rest m'
      ]
  | inr (inr (inl (k, h))) ↦
      let e' : err k ≡ ok false = rw (find_in, h) at e in absurd (ground arith)
  | inr (inr (inr (inl h))) ↦
      let e' : panic ≡ ok false = rw (find_in, h) at e in absurd (ground arith)
  | inr (inr (inr (inr h))) ↦
      let e' : fault ≡ ok false = rw (find_in, h) at e in absurd (ground arith)
]

-- Where the search has found nothing, there is no way.
pub find_path-clear :
    (deps : ℕ → List ℕ) (new held stack from : ℕ)
    → find_path stack (with_edge deps new held) from new ≡ ok false
    → ¬ Reaches deps from new
unfolding find_path
find_path-clear deps new held zero from e r = absurd (ground arith)
find_path-clear deps new held (suc stack) from e r = elim (Bool-cases (from == new)) [
  | inl h ↦ let e' : ok true ≡ ok false = rw (find_path, h) at e in absurd (ground arith)
  | inr h ↦
      let other : ¬ (from ≡ new) = λ same. not_both (from == new) ((==_iff from new).1 same) h in
      let (d, m, r') = Reaches-by deps from new other r in
      find_path-clear deps new held stack d
        (find_in-clear (λ b. find_path stack (with_edge deps new held) b new) (deps from) d
          (rw (find_path, h) at e) m)
        r'
]
