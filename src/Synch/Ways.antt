-- ===== src/Synch/Ways.antt =====
-- Ways through the graph of lock classes.
use libjeffpc.Base.{
  ℕ, ◌==◌, ==_iff, ◌<◌, Bool, true, false, ◌||◌, List, [], ◌∷◌, ◌++◌, ◌≡◌, ◌⊎◌, inl, inr, refl, sym,
  ◌∙◌, arith, Bool-cases,
}
use mathlib.Core.Path.{subst}
use libjeffpc.Synch.{is_dep, set_deps}

-- `b` is a dependency of `a`.
abbrev pub Edge : (ℕ → List ℕ) → ℕ → ℕ → Type 0
Edge deps a b = is_dep b (deps a) ≡ true

-- A way of one edge or more.
pub data Way (deps : ℕ → List ℕ) : ℕ → ℕ → Type 0 where
  one : {a b : ℕ} → Edge deps a b → Way deps a b
  more : {a b c : ℕ} → Edge deps a b → Way deps b c → Way deps a c

pub Way-append : (deps : ℕ → List ℕ) (a b c : ℕ) → Way deps a b → Way deps b c → Way deps a c
Way-append deps a b c (one e) w = more e w
Way-append deps a b c (more {b = d} e v) w = more e (Way-append deps d b c v w)

-- An order of the classes in which each stands above all that it depends on.
abbrev pub Descends : (ℕ → List ℕ) → (ℕ → ℕ) → Type 0
Descends deps rank = (a b : ℕ) → Edge deps a b → rank b < rank a

pub Way-Descends :
    (deps : ℕ → List ℕ) (rank : ℕ → ℕ) (a b : ℕ)
    → Descends deps rank
    → Way deps a b
    → rank b < rank a
Way-Descends deps rank a b d (one e) = d a b e
Way-Descends deps rank a b d (more {b = c} e w) =
    omega (arith, d a c e, Way-Descends deps rank c b d w)

-- The graph with an edge more.
abbrev pub with_edge : (ℕ → List ℕ) → ℕ → ℕ → ℕ → List ℕ
with_edge deps from to = set_deps deps from (deps from ++ to ∷ [])

pub not_both : (b : Bool) → b ≡ true → b ≡ false → ⊥
not_both true e f = absurd (ground arith)
not_both false e f = absurd (ground arith)

or_step : (p q r t : Bool) → q ≡ (r || t) → (p || q) ≡ ((p || r) || t)
or_step true q r t e = refl
or_step false q r t e = e

pub or_cases : (p q : Bool) → (p || q) ≡ true → (p ≡ true) ⊎ (q ≡ true)
or_cases true q e = inl refl
or_cases false q e = inr e

pub or_left : (p q : Bool) → p ≡ true → (p || q) ≡ true
or_left true q e = refl
or_left false q e = absurd (ground arith)

pub or_right : (p q : Bool) → q ≡ true → (p || q) ≡ true
or_right true q e = refl
or_right false q e = e

pub is_dep-append :
    (b : ℕ) (xs : List ℕ) (to : ℕ) → is_dep b (xs ++ to ∷ []) ≡ (is_dep b xs || (to == b))
is_dep-append b [] to = ground arith
is_dep-append b (x ∷ xs) to =
    or_step (x == b) (is_dep b (xs ++ to ∷ [])) (is_dep b xs) (to == b) (is_dep-append b xs to)

pub Edge-kept :
    (deps : ℕ → List ℕ) (from to a b : ℕ) → Edge deps a b → Edge (with_edge deps from to) a b
Edge-kept deps from to a b e = elim (Bool-cases (a == from)) [
  | inl h ↦
      let same = (==_iff a from).0 h in
      rw (h, is_dep-append b (deps from) to)
        (or_left (is_dep b (deps from)) (to == b) (subst (λ c. is_dep b (deps c) ≡ true) same e))
  | inr h ↦ rw h e
]

pub new-Edge : (deps : ℕ → List ℕ) (from to : ℕ) → Edge (with_edge deps from to) from to
new-Edge deps from to =
    rw ((==_iff from from).1 refl, is_dep-append to (deps from) to)
      (or_right (is_dep to (deps from)) (to == to) ((==_iff to to).1 refl))

pub Edge-cases :
    (deps : ℕ → List ℕ) (from to a b : ℕ)
    → Edge (with_edge deps from to) a b
    → Edge deps a b ⊎ ((a ≡ from) × (b ≡ to))
Edge-cases deps from to a b e = elim (Bool-cases (a == from)) [
  | inl h ↦
      let same = (==_iff a from).0 h in
      let either : (is_dep b (deps from) || (to == b)) ≡ true =
        sym (is_dep-append b (deps from) to) ∙ (rw h at e) in
      elim (or_cases (is_dep b (deps from)) (to == b) either) [
        | inl old ↦ inl (subst (λ c. is_dep b (deps c) ≡ true) (sym same) old)
        | inr new ↦ inr (same, sym ((==_iff to b).0 new))
      ]
  | inr h ↦ inl (rw h at e)
]
