-- ===== src/Sexpr/Eval/Tests.antt =====
-- Expressions that are evaluated without an environment.
use libjeffpc.Base.{
  arith, ℕ, Bool, List, [], ◌∷◌, map, ◌%◌, ◌-◌, ◌^◌, ◌≡◌, refl, true, false, none, some, ok, panic,
  codes,
}
use libjeffpc.Val.{Val, null_pointer, int, bool, sym, cons, strcmp, val_empty_cons}
use libjeffpc.Sexpr.{list_of, sexpr_car, sexpr_cdr, sexpr_length, sexpr_nth}
use libjeffpc.Sexpr.Eval.Reduce
use libjeffpc.Sexpr.Eval.Reduce.{all, any, sexpr_eval_lem}
use libjeffpc.Sexpr.Eval.{Env, sexpr_eval, fxnlookup_builtin, check_arglen}

abbrev bare : Env
bare = record { symlookup = none; fxnlookup = none }

abbrev quoted : Val → Val
quoted v = cons (sym (codes "quote")) (cons v null_pointer)

abbrev sum : Val
sum = cons (sym (codes "+")) (cons (int 1) (cons (int 2) null_pointer))

added : sexpr_eval bare 20 sum ≡ some (ok (int 3))
unfolding sexpr_eval fxnlookup_builtin check_arglen strcmp sexpr_car sexpr_cdr sexpr_length
added = refl

-- Sums wrap.
wrapped :
    sexpr_eval bare 20
      (cons (sym (codes "+")) (cons (int (2 ^ 64 - 1)) (cons (int 2) null_pointer)))
    ≡ some (ok (int 1))
unfolding sexpr_eval fxnlookup_builtin check_arglen strcmp sexpr_car sexpr_cdr sexpr_length
wrapped = refl

-- `quote` keeps an expression, but as an argument of a sum it is evaluated all the same.
quote_twice :
    (sexpr_eval bare 20 (quoted sum) ≡ some (ok sum))
    × (sexpr_eval bare 40 (cons (sym (codes "+")) (cons (quoted sum) (cons (int 4) null_pointer)))
        ≡ some (ok (int 7)))
unfolding sexpr_eval fxnlookup_builtin check_arglen strcmp sexpr_car sexpr_cdr sexpr_length
quote_twice = (refl, refl)

-- Only the branch that is chosen is evaluated, and the empty list has no function.
branches :
    (sexpr_eval bare 20 (
        cons
          (sym (codes "if"))
          (cons (bool true) (cons (int 1) (cons val_empty_cons null_pointer))))
      ≡ some (ok (int 1)))
    × (sexpr_eval bare 20 val_empty_cons ≡ some panic)
unfolding sexpr_eval fxnlookup_builtin check_arglen strcmp sexpr_nth sexpr_length
branches = (refl, refl)

abbrev numbers : List ℕ
numbers = 1 ∷ 2 ∷ (2 ^ 64 - 1) ∷ []

abbrev truths : List Bool
truths = true ∷ false ∷ []

sexpr_eval_lem_example :
    (sexpr_eval bare 9 (cons (sym (codes "+")) (list_of (map int numbers)))
      ≡ some (ok (int (Reduce.sum numbers % 2 ^ 64))))
    × (sexpr_eval bare 9 (cons (sym (codes "and")) (list_of (map bool truths)))
        ≡ some (ok (bool (all truths))))
    × (sexpr_eval bare 9 (cons (sym (codes "or")) (list_of (map bool truths)))
        ≡ some (ok (bool (any truths))))
sexpr_eval_lem_example =
    sexpr_eval_lem bare 9 numbers truths refl refl refl (omega arith) (omega arith)
