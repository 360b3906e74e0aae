-- ===== src/Val.antt =====
-- include/jeffpc/val.h, val.c, val_array.c and str.c: values. Values but name-value lists are never changed, so
-- a pointer to one is the value, and a name-value list in a value stands for its pairs at the time. How a value
-- is shared and counted is left out, as is where its bytes are stored. A C string is its bytes before the NUL.
-- The slab allocator is taken to have memory.
pub mod Compare
use libjeffpc.Base.{
  ℕ, zero, suc, ◌+◌, ◌^◌, ◌%◌, ◌==◌, Bool, true, false, not, ◌&&◌, ◌||◌, Option, none, some, List,
  [], ◌∷◌, ◌++◌, if◌then◌else◌, take, length,
}
use Prim.Native.Nat.{Ordering, compare}
use Prim.Native.Nat.Ordering.{lt, eq, gt}

-- enum val_type
pub data ValType : Type 0 where
  vt_null vt_int vt_str vt_sym vt_bool vt_cons vt_char vt_blob vt_array vt_nvl : ValType

-- A pointer to a struct val. The pairs of a name-value list stand in the order of its tree.
mutual
  pub data Val : Type 0 where
    null_pointer null : Val
    int char : ℕ → Val
    str sym blob : List ℕ → Val
    bool : Bool → Val
    cons : Val → Val → Val
    array : Vals → Val
    nvl : Pairs → Val

  pub data Vals : Type 0 where
    no_vals : Vals
    elem : Val → Vals → Vals

  pub data Pairs : Type 0 where
    no_pairs : Pairs
    pair : List ℕ → Val → Pairs → Pairs

-- The type of a value, and nothing for NULL.
abbrev pub type : Val → Option ValType
type null_pointer = none
type null = some vt_null
type (int i) = some vt_int
type (char i) = some vt_char
type (str s) = some vt_str
type (sym s) = some vt_sym
type (blob s) = some vt_blob
type (bool b) = some vt_bool
type (cons h t) = some vt_cons
type (array vs) = some vt_array
type (nvl ps) = some vt_nvl

abbrev pub vals : Vals → List Val
vals no_vals = []
vals (elem v vs) = v ∷ vals vs

abbrev pub make_vals : List Val → Vals
make_vals [] = no_vals
make_vals (v ∷ vs) = elem v (make_vals vs)

abbrev pub pairs : Pairs → List (List ℕ × Val)
pairs no_pairs = []
pairs (pair n v ps) = (n, v) ∷ pairs ps

abbrev pub make_pairs : List (List ℕ × Val) → Pairs
make_pairs [] = no_pairs
make_pairs ((n, v) ∷ ps) = pair n v (make_pairs ps)

abbrev pub val_alloc_int : ℕ → Val
val_alloc_int i = int i

abbrev pub val_alloc_bool : Bool → Val
val_alloc_bool b = bool b

abbrev pub val_alloc_null : Val
val_alloc_null = null

abbrev pub val_empty_cons : Val
val_empty_cons = cons null_pointer null_pointer

abbrev pub is_pointer_null : Val → Bool
is_pointer_null null_pointer = true
is_pointer_null v = false

unfoldable pub val_alloc_cons : Val → Val → Val
val_alloc_cons head tail =
    if is_pointer_null head && is_pointer_null tail then val_empty_cons else cons head tail

abbrev pub val_alloc_array : List Val → Val
val_alloc_array vs = array (make_vals vs)

-- The bytes of a block before its first NUL, of `len` at most.
unfoldable pub strnlen_bytes : List ℕ → ℕ → List ℕ
strnlen_bytes [] len = []
strnlen_bytes (c ∷ cs) zero = []
strnlen_bytes (c ∷ cs) (suc len) =
    let rest = strnlen_bytes cs len in if (c == 0) then [] else c ∷ rest

-- __alloc in str.c, for VT_STR, from a block that holds a string.
unfoldable pub str_alloc : List ℕ → Val
unfolding strnlen_bytes
str_alloc block = str (strnlen_bytes block (length block))

-- strcmp of two strings without their NULs
unfoldable pub strcmp : List ℕ → List ℕ → Ordering
strcmp [] [] = eq
strcmp [] (b ∷ ys) = lt
strcmp (a ∷ xs) [] = gt
strcmp (a ∷ xs) (b ∷ ys) =
    let rest = strcmp xs ys in elim (compare a b) [ lt ↦ lt | eq ↦ rest | gt ↦ gt ]

abbrev pub is_eq : Ordering → Bool
is_eq eq = true
is_eq o = false
