-- ===== src/Sexpr/Eval/Reduce.antt =====
-- Sums of numbers and the truth of all or of one of some truth values, as they are evaluated.
use libjeffpc.Base.{
  ℕ, zero, suc, ◌+◌, ◌%◌, ◌^◌, ◌≤◌, ◌<◌, ◌≡◌, refl, ap, ◌∙◌, arith, Bool, true, false, ◌&&◌, ◌||◌,
  none, some, List, [], ◌∷◌, map, length, codes, ok,
}
use libjeffpc.Val.{int, bool, sym as sym_val, cons, val_alloc_cons, strcmp}
use libjeffpc.Sexpr.{list_of, sexpr_car, sexpr_cdr}
use libjeffpc.Sexpr.Eval.{
  Env, lookup_fxn, fxnlookup_builtin, check_arglen, sexpr_eval, eval_cons, int_reduce, bool_reduce,
}

abbrev pub sum : List ℕ → ℕ
sum [] = 0
sum (i ∷ is) = i + sum is

abbrev pub all : List Bool → Bool
all [] = true
all (b ∷ bs) = b && all bs

abbrev pub any : List Bool → Bool
any [] = false
any (b ∷ bs) = b || any bs

module _ (env : Env) where
  int_reduce-sum :
      (fuel ret : ℕ) (is : List ℕ)
      → ret < 2 ^ 64
      → length is + 2 ≤ fuel
      → int_reduce env fuel (λ a b. (a + b) % 2 ^ 64) ret (list_of (map int is))
        ≡ some (ok (int ((ret + sum is) % 2 ^ 64)))
  unfolding sexpr_eval list_of val_alloc_cons sexpr_car sexpr_cdr
  int_reduce-sum zero ret is small h = absurd (omega (arith, h))
  int_reduce-sum (suc fuel) ret [] small h =
      let whole : (ret + 0) % 2 ^ 64 ≡ ret = omega arith in rw whole refl
  int_reduce-sum (suc zero) ret (i ∷ is) small h = absurd (omega (arith, h))
  int_reduce-sum (suc (suc fuel)) ret (i ∷ is) small h =
      let next : ((ret + i) % 2 ^ 64 + sum is) % 2 ^ 64 ≡ (ret + (i + sum is)) % 2 ^ 64 =
        omega arith in
      int_reduce-sum (suc fuel) ((ret + i) % 2 ^ 64) is (omega arith) (omega (arith, h))
      ∙ ap (λ (k : ℕ). some (ok (int k))) next

  bool_reduce-all :
      (fuel : ℕ) (ret : Bool) (bs : List Bool)
      → length bs + 2 ≤ fuel
      → (bool_reduce env fuel (λ a b. a && b) ret (list_of (map bool bs))
          ≡ some (ok (bool (ret && all bs))))
        × (bool_reduce env fuel (λ a b. a || b) ret (list_of (map bool bs))
            ≡ some (ok (bool (ret || any bs))))
  unfolding sexpr_eval list_of val_alloc_cons sexpr_car sexpr_cdr
  bool_reduce-all zero ret bs h = absurd (omega (arith, h))
  bool_reduce-all (suc fuel) true [] h = (refl, refl)
  bool_reduce-all (suc fuel) false [] h = (refl, refl)
  bool_reduce-all (suc zero) ret (b ∷ bs) h = absurd (omega (arith, h))
  bool_reduce-all (suc (suc fuel)) true (b ∷ bs) h = (
    (bool_reduce-all (suc fuel) b bs (omega (arith, h))).0,
    (bool_reduce-all (suc fuel) true bs (omega (arith, h))).1,
  )
  bool_reduce-all (suc (suc fuel)) false (b ∷ bs) h = (
    (bool_reduce-all (suc fuel) false bs (omega (arith, h))).0,
    (bool_reduce-all (suc fuel) b bs (omega (arith, h))).1,
  )

  plain : (is : List ℕ) → 0 + sum is ≡ sum is
  plain is = omega arith

  -- In an environment that has no functions `+`, `and` and `or` of its own, with at least five
  -- units of fuel more than there are arguments: `+` of numbers evaluates to their sum modulo 2 ^
  -- 64, `and` of truth values to whether all of them are true, and `or` to whether one of them
  -- is.
  pub sexpr_eval_lem :
      (fuel : ℕ) (is : List ℕ) (bs : List Bool)
      → lookup_fxn env.fxnlookup (codes "+") ≡ none
      → lookup_fxn env.fxnlookup (codes "and") ≡ none
      → lookup_fxn env.fxnlookup (codes "or") ≡ none
      → length is + 5 ≤ fuel
      → length bs + 5 ≤ fuel
      → (sexpr_eval env fuel (cons (sym_val (codes "+")) (list_of (map int is)))
          ≡ some (ok (int (sum is % 2 ^ 64))))
        × (sexpr_eval env fuel (cons (sym_val (codes "and")) (list_of (map bool bs)))
            ≡ some (ok (bool (all bs))))
        × (sexpr_eval env fuel (cons (sym_val (codes "or")) (list_of (map bool bs)))
            ≡ some (ok (bool (any bs))))
  unfolding sexpr_eval fxnlookup_builtin check_arglen strcmp
  sexpr_eval_lem zero is bs e f g h k = absurd (omega (arith, h))
  sexpr_eval_lem (suc zero) is bs e f g h k = absurd (omega (arith, h))
  sexpr_eval_lem (suc (suc zero)) is bs e f g h k = absurd (omega (arith, h))
  sexpr_eval_lem (suc (suc (suc fuel))) is bs e f g h k = (
    rw (sexpr_eval, eval_cons, e)
        (int_reduce-sum fuel 0 is (omega arith) (omega (arith, h))
          ∙ ap (λ (k : ℕ). some (ok (int (k % 2 ^ 64)))) (plain is)),
    rw (sexpr_eval, eval_cons, f) (bool_reduce-all fuel true bs (omega (arith, k))).0,
    rw (sexpr_eval, eval_cons, g) (bool_reduce-all fuel false bs (omega (arith, k))).1,
  )
