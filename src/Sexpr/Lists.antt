-- ===== src/Sexpr/Lists.antt =====
-- An array as a list of cells and back.
use libjeffpc.Base.{
  ℕ, zero, suc, Bool, Option, none, true, false, some, List, [], ◌∷◌, ◌≡◌, Result, ok, err, enomem,
}
use libjeffpc.Val.{Val, null_pointer, array, is_pointer_null, make_vals}

abbrev pub IsThere : Val → Type 0
IsThere v = is_pointer_null v ≡ false

-- The element at an index, and NULL behind the end.
abbrev pub at : List Val → ℕ → Val
at [] i = null_pointer
at (v ∷ vs) zero = v
at (v ∷ vs) (suc i) = at vs i

-- An array, where its block and its value get memory.
abbrev pub array_made : Option (List ℕ) → Bool → List Val → Result Val
array_made none has_cell vs = err enomem
array_made (some block) false vs = err enomem
array_made (some block) true vs = ok (array (make_vals vs))
