-- ===== src/Sexpr.antt =====
-- sexpr.c and include/jeffpc/sexpr.h: lists of cons cells. NULL is an empty list too. A loop over a list is
-- recursion on it. Two pointers to one value are equal values here, so `sexpr_equal` has no test for them.
pub mod Equal
pub mod Lists
pub mod Compact
pub mod Eval
mod Tests
use libjeffpc.Base.{
  ℕ, zero, suc, ◌+◌, ◌==◌, Bool, true, false, not, ◌&&◌, ◌||◌, Option, none, some, List, [], ◌∷◌,
  length, ltb, if◌then◌else◌, Result, ok, err, fault, einval, enomem, ◌>>=◌,
}
use Prim.Native.Nat.{compare}
use libjeffpc.Buffer.Memory.{Allocator, array_memory}
use libjeffpc.Val.{
  Val, null_pointer, null, int, char, str, sym, blob, bool, cons, array, nvl, Vals, no_vals, elem,
  Pairs, no_pairs, pair, is_pointer_null, val_empty_cons, val_alloc_cons, val_alloc_array, strcmp,
  is_eq,
}

abbrev pub sexpr_is_null : Val → Bool
sexpr_is_null null_pointer = true
sexpr_is_null (cons h t) = is_pointer_null h && is_pointer_null t
sexpr_is_null v = false

-- The loop of `sexpr_array_to_list`, which goes through the array from its end.
unfoldable pub list_of : List Val → Val
list_of [] = null_pointer
list_of (v ∷ vs) = val_alloc_cons v (list_of vs)

unfoldable pub sexpr_array_to_list : List Val → Val
unfolding list_of
sexpr_array_to_list [] = val_empty_cons
sexpr_array_to_list (v ∷ vs) = list_of (v ∷ vs)

-- `alen` is the room that is left.
unfoldable pub sexpr_list_to_array : Val → ℕ → Result (List Val)
sexpr_list_to_array null_pointer alen = ok []
sexpr_list_to_array (cons h t) zero = if sexpr_is_null (cons h t) then ok [] else err enomem
sexpr_list_to_array (cons h t) (suc alen) =
    let rest = sexpr_list_to_array t alen in
    if sexpr_is_null (cons h t) then ok [] else (rest >>= λ vs. ok (h ∷ vs))
sexpr_list_to_array v zero = err enomem
sexpr_list_to_array v (suc alen) = err einval

unfoldable pub sexpr_car : Val → Val
sexpr_car (cons h t) = h
sexpr_car v = null_pointer

unfoldable pub sexpr_cdr : Val → Val
sexpr_cdr (cons h t) = t
sexpr_cdr v = null_pointer

-- Nothing stands for -1: this is not a list.
unfoldable pub sexpr_length : Val → Option ℕ
sexpr_length null_pointer = some 0
sexpr_length (cons h t) =
    let rest = sexpr_length t in
    if sexpr_is_null (cons h t) then some 0 else elim rest [ none ↦ none | some n ↦ some (suc n) ]
sexpr_length v = none

-- `has_cell` is whether there is memory for the array's own value.
unfoldable pub sexpr_list_to_val_array : Allocator → Bool → Val → Result Val
unfolding array_memory
sexpr_list_to_val_array alloc has_cell list = elim (sexpr_length list) [
  | none ↦ err einval
  | some len ↦ elim (array_memory alloc len) [
    | none ↦ err enomem
    | some room ↦ elim (sexpr_list_to_array list len) [
      | ok vs ↦
          if ltb room (length vs)
          then fault
          else if not (length vs == len)
          then err einval
          else if has_cell
          then ok (val_alloc_array vs)
          else err enomem
      | e ↦ err einval
    ]
  ]
]

unfoldable pub sexpr_nth : Val → ℕ → Val
sexpr_nth lv zero = lv
sexpr_nth (cons h t) (suc n) = let rest = sexpr_nth t n in if (n == 0) then h else rest
sexpr_nth lv (suc n) = null_pointer

-- Whether the head of a pair is this name.
abbrev pub is_named : List ℕ → Val → Bool
is_named name (cons (str s) v) = is_eq (strcmp s name)
is_named name (cons (sym s) v) = is_eq (strcmp s name)
is_named name v = false

unfoldable pub sexpr_assoc : Val → List ℕ → Val
sexpr_assoc (cons head tail) name =
    let rest = sexpr_assoc tail name in if is_named name head then head else rest
sexpr_assoc lv name = null_pointer

-- memcmp of blocks of one size
abbrev pub same_bytes : List ℕ → List ℕ → Bool
same_bytes [] [] = true
same_bytes (a ∷ xs) (b ∷ ys) = (a == b) && same_bytes xs ys
same_bytes xs ys = false

unfoldable mutual
  pub sexpr_equal : Val → Val → Bool
  sexpr_equal null_pointer r = sexpr_is_null r
  sexpr_equal (cons h t) null_pointer = sexpr_is_null (cons h t)
  sexpr_equal (cons h t) (cons h' t') = sexpr_equal h h' && sexpr_equal t t'
  sexpr_equal null null = true
  sexpr_equal (int i) (int j) = i == j
  sexpr_equal (char i) (char j) = i == j
  sexpr_equal (str s) (str s') = is_eq (strcmp s s')
  sexpr_equal (sym s) (sym s') = is_eq (strcmp s s')
  sexpr_equal (bool true) (bool true) = true
  sexpr_equal (bool false) (bool false) = true
  sexpr_equal (blob s) (blob s') = (length s == length s') && same_bytes s s'
  sexpr_equal (array vs) (array ws) = equal_vals vs ws
  sexpr_equal (nvl ps) (nvl qs) = equal_pairs ps qs
  sexpr_equal l r = false

  -- The lengths are compared first, which comes to the same.
  pub equal_vals : Vals → Vals → Bool
  equal_vals no_vals no_vals = true
  equal_vals (elem v vs) (elem w ws) = sexpr_equal v w && equal_vals vs ws
  equal_vals vs ws = false

  pub equal_pairs : Pairs → Pairs → Bool
  equal_pairs no_pairs no_pairs = true
  equal_pairs (pair n v ps) (pair m w qs) =
      is_eq (strcmp n m) && (sexpr_equal v w && equal_pairs ps qs)
  equal_pairs ps qs = false

-- The value of the pair with a name.
unfoldable pub sexpr_alist_lookup_val : Val → List ℕ → Val
unfolding sexpr_cdr sexpr_assoc
sexpr_alist_lookup_val lv name = sexpr_cdr (sexpr_assoc lv name)

unfoldable pub sexpr_alist_lookup_str : Val → List ℕ → Option (List ℕ)
unfolding sexpr_cdr sexpr_assoc
sexpr_alist_lookup_str lv name = elim (sexpr_cdr (sexpr_assoc lv name)) [
  | str s ↦ some s
  | v ↦ none
]

-- The number, and whether it was found.
unfoldable pub sexpr_alist_lookup_int : Val → List ℕ → ℕ × Bool
unfolding sexpr_cdr sexpr_assoc
sexpr_alist_lookup_int lv name = elim (sexpr_cdr (sexpr_assoc lv name)) [
  | int i ↦ (i, true)
  | v ↦ (0, false)
]

unfoldable pub sexpr_alist_lookup_bool : Val → List ℕ → Bool → Bool × Bool
unfolding sexpr_cdr sexpr_assoc
sexpr_alist_lookup_bool lv name def = elim (sexpr_cdr (sexpr_assoc lv name)) [
  | bool b ↦ (b, true)
  | v ↦ (def, false)
]

unfoldable pub sexpr_alist_lookup_list : Val → List ℕ → Val
unfolding sexpr_cdr sexpr_assoc
sexpr_alist_lookup_list lv name = elim (sexpr_cdr (sexpr_assoc lv name)) [
  | cons h t ↦ cons h t
  | v ↦ null_pointer
]
