-- ===== src/Sexpr/Tests.antt =====
-- Runs on lists of numbers.
use libjeffpc.Base.{
  ℕ, take, true, false, none, some, List, [], ◌∷◌, ◌≡◌, ◌↔◌, refl, length, err, enomem,
}
use libjeffpc.Buffer.Memory.{Allocator, array_memory}
use libjeffpc.Val.{Val, null_pointer, int, str, cons, val_empty_cons, val_alloc_cons, strcmp}
use libjeffpc.Sexpr.{
  sexpr_equal, sexpr_array_to_list, list_of, sexpr_length, sexpr_list_to_val_array, sexpr_assoc,
}
use libjeffpc.Sexpr.Equal.{IsPlain, Same, sexpr_equal_lem}

-- The list of one empty list is taken for an empty list, but not for NULL.
nested_empty :
    (sexpr_equal (cons val_empty_cons null_pointer) val_empty_cons ≡ true)
    × (sexpr_equal val_empty_cons null_pointer ≡ true)
    × (sexpr_equal (cons val_empty_cons null_pointer) null_pointer ≡ false)
unfolding sexpr_equal
nested_empty = (refl, refl, refl)

-- A NULL at the end of an array is lost in its list.
last_null : sexpr_length (sexpr_array_to_list (int 1 ∷ null_pointer ∷ [])) ≡ some 1
unfolding sexpr_length sexpr_array_to_list list_of val_alloc_cons
last_null = refl

-- The first pair counts.
assoc_first :
    sexpr_assoc
      (cons (cons (str (97 ∷ [])) (int 1)) (cons (cons (str (97 ∷ [])) (int 2)) null_pointer))
      (97 ∷ [])
    ≡ cons (str (97 ∷ [])) (int 1)
unfolding sexpr_assoc strcmp
assoc_first = refl

abbrev one_two : List Val
one_two = int 1 ∷ int 2 ∷ []

sexpr_equal_lem_example :
    (sexpr_equal (cons val_empty_cons null_pointer) (cons val_empty_cons null_pointer) ≡ true)
    × ((sexpr_equal (cons (int 1) null_pointer) (cons (int 2) null_pointer) ≡ true)
        ↔ Same (cons (int 1) null_pointer) (cons (int 2) null_pointer))
unfolding IsPlain
sexpr_equal_lem_example =
    sexpr_equal_lem (cons val_empty_cons null_pointer) (cons (int 1) null_pointer)
      (cons (int 2) null_pointer) (refl, refl, tt, tt) (refl, refl, tt, tt)

no_block : (n : ℕ) (block : List ℕ) → none ≡ some block → length block ≡ n
no_block n block e = cc

no_bytes : (old new : List ℕ) (k : ℕ) → none ≡ some new → take k new ≡ take k old
no_bytes old new k e = cc

-- An allocator that has nothing to give.
abbrev exhausted : Allocator
exhausted = record {
  malloc = λ n. none;
  realloc = λ old n. none;
  malloc_size = no_block;
  realloc_size = λ old new n e. no_block n new e;
  realloc_keeps = λ old new n k e h h'. no_bytes old new k e;
}

-- Not even an array of no values is made then.
no_memory : sexpr_list_to_val_array exhausted true null_pointer ≡ err enomem
unfolding sexpr_list_to_val_array sexpr_length array_memory
no_memory = refl
