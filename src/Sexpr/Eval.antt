-- ===== src/Sexpr/Eval.antt =====
-- sexpr_eval.c: evaluation of expressions. Each call and each round of a loop takes one unit of fuel. The
-- lookups of the environment are the caller's functions.
mod Reduce
mod Tests
use libjeffpc.Base.{
  ℕ, zero, suc, ◌+◌, ◌*◌, ◌%◌, ◌^◌, ◌==◌, Bool, true, false, ◌&&◌, ◌||◌, Option, none, some, List,
  if◌then◌else◌, codes, Result, ok, panic, fault, Run, ◌>>?◌,
}
use libjeffpc.Val.{
  Val, null_pointer, null, int, char, str, sym, blob, bool, cons, array, nvl, strcmp, is_eq,
  val_alloc_bool, val_alloc_int,
}
use libjeffpc.Sexpr.{sexpr_car, sexpr_cdr, sexpr_length, sexpr_nth, sexpr_equal}

-- A function of the environment: its number of arguments, if that is fixed, and what it does.
pub record Function : Type 0 where
  pub arglen : Option ℕ
  pub f : Val → Run Val

pub record Env : Type 0 where
  pub symlookup : Option (List ℕ → Val)
  pub fxnlookup : Option (List ℕ → Option Function)

abbrev pub lookup_fxn : Option (List ℕ → Option Function) → List ℕ → Option Function
lookup_fxn none name = none
lookup_fxn (some lookup) name = lookup name

pub data Builtin : Type 0 where
  fxn_and fxn_or fxn_add fxn_mult fxn_quote fxn_car fxn_cdr fxn_equal fxn_if : Builtin

unfoldable pub fxnlookup_builtin : List ℕ → Option Builtin
unfolding strcmp
fxnlookup_builtin name =
    let is = λ (s : List ℕ). is_eq (strcmp s name) in
    if is (codes "and")
    then some fxn_and
    else if is (codes "or")
    then some fxn_or
    else if is (codes "+")
    then some fxn_add
    else if is (codes "*")
    then some fxn_mult
    else if is (codes "quote")
    then some fxn_quote
    else if is (codes "car")
    then some fxn_car
    else if is (codes "cdr")
    then some fxn_cdr
    else if is (codes "=")
    then some fxn_equal
    else if is (codes "==")
    then some fxn_equal
    else if is (codes "if")
    then some fxn_if
    else none

abbrev pub arglen_of : Builtin → Option ℕ
arglen_of fxn_quote = some 1
arglen_of fxn_car = some 1
arglen_of fxn_cdr = some 1
arglen_of fxn_equal = some 2
arglen_of fxn_if = some 3
arglen_of fn = none

-- Whether a list has the number of arguments that is expected.
unfoldable pub check_arglen : Option ℕ → Val → Bool
check_arglen none args = true
check_arglen (some n) args = elim (sexpr_length args) [ none ↦ false | some got ↦ got == n ]

module _ (env : Env) where
  unfoldable mutual
    pub sexpr_eval : ℕ → Val → Run Val
    sexpr_eval zero expr = none
    sexpr_eval (suc fuel) null_pointer = some (ok null_pointer)
    sexpr_eval (suc fuel) (sym s) = elim env.symlookup [
      | none ↦ some panic
      | some lookup ↦ some (ok (lookup s))
    ]
    sexpr_eval (suc fuel) (cons op args) = eval_cons fuel op args
    sexpr_eval (suc fuel) expr = some (ok expr)

    pub eval_cons : ℕ → Val → Val → Run Val
    eval_cons zero op args = none
    eval_cons (suc fuel) (sym s) args = elim (lookup_fxn env.fxnlookup s) [
      | some fn ↦ if check_arglen fn.arglen args then fn.f args else some panic
      | none ↦ elim (fxnlookup_builtin s) [
        | none ↦ some panic
        | some fn ↦
            let result = apply fuel fn args in
            if check_arglen (arglen_of fn) args then result else some panic
      ]
    ]
    eval_cons (suc fuel) op args = some panic

    pub apply : ℕ → Builtin → Val → Run Val
    apply zero fn args = none
    apply (suc fuel) fxn_and args = bool_reduce fuel (λ a b. a && b) true args
    apply (suc fuel) fxn_or args = bool_reduce fuel (λ a b. a || b) false args
    apply (suc fuel) fxn_add args = int_reduce fuel (λ a b. (a + b) % 2 ^ 64) 0 args
    apply (suc fuel) fxn_mult args = int_reduce fuel (λ a b. (a * b) % 2 ^ 64) 1 args
    apply (suc fuel) fxn_quote args = some (ok (sexpr_car args))
    apply (suc fuel) fxn_car args =
        sexpr_eval fuel (sexpr_car args) >>? λ v. some (ok (sexpr_car v))
    apply (suc fuel) fxn_cdr args =
        sexpr_eval fuel (sexpr_car args) >>? λ v. some (ok (sexpr_cdr v))
    apply (suc fuel) fxn_equal args = sexpr_eval fuel (sexpr_nth args 1) >>? λ a.
        sexpr_eval fuel (sexpr_nth args 2) >>? λ b. some (ok (val_alloc_bool (sexpr_equal a b)))
    apply (suc fuel) fxn_if args = sexpr_eval fuel (sexpr_nth args 1) >>? λ c. elim c [
      | bool b ↦ sexpr_eval fuel (if b then sexpr_nth args 2 else sexpr_nth args 3)
      | null_pointer ↦ some fault
      | v ↦ some panic
    ]

    -- The inner loop of the reductions: an element that is a cell or a symbol is evaluated, as long as
    -- it is one.
    pub eval_element : ℕ → Val → Run Val
    eval_element zero el = none
    eval_element (suc fuel) (cons h t) = sexpr_eval fuel (cons h t) >>? λ v. eval_element fuel v
    eval_element (suc fuel) (sym s) = sexpr_eval fuel (sym s) >>? λ v. eval_element fuel v
    eval_element (suc fuel) el = some (ok el)

    pub int_reduce : ℕ → (ℕ → ℕ → ℕ) → ℕ → Val → Run Val
    int_reduce zero op ret args = none
    int_reduce (suc fuel) op ret null_pointer = some (ok (val_alloc_int ret))
    int_reduce (suc fuel) op ret args = eval_element fuel (sexpr_car args) >>? λ el. elim el [
      | int i ↦ int_reduce fuel op (op ret i) (sexpr_cdr args)
      | v ↦ some panic
    ]

    pub bool_reduce : ℕ → (Bool → Bool → Bool) → Bool → Val → Run Val
    bool_reduce zero op ret args = none
    bool_reduce (suc fuel) op ret null_pointer = some (ok (val_alloc_bool ret))
    bool_reduce (suc fuel) op ret args = eval_element fuel (sexpr_car args) >>? λ el. elim el [
      | bool b ↦ bool_reduce fuel op (op ret b) (sexpr_cdr args)
      | v ↦ some panic
    ]
