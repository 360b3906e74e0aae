-- ===== src/Nvl.antt =====
-- nvl.c, val_nvl.c and include/jeffpc/nvl.h: name-value lists, which are red-black trees of pairs. A pair in
-- a tree is its name and its value; NULL for a pair is nothing. References are not counted.
pub mod Names
pub mod Lookup
pub mod Change
mod Merge
pub mod Last
mod Tests
use libjeffpc.Base.{
  ℕ, ◌+◌, Bool, true, false, not, ◌&&◌, ◌||◌, Option, none, some, List, [], ◌∷◌, if◌then◌else◌,
  Result, ok, err, panic, fault, ◌>>=◌, enoent, erange, enomem,
}
use Prim.Native.Nat.{Ordering}
use libjeffpc.Val.{
  ValType, vt_null, vt_int, vt_str, vt_bool, vt_blob, vt_array, vt_nvl, Val, null_pointer, null,
  int, str, bool, blob, array, nvl, Vals, Pairs, type, strcmp, val_alloc_null, val_alloc_int,
  val_alloc_bool, val_alloc_array, str_alloc,
}
use libjeffpc.Tree.{Tree, leaf, node, Parents, Location, TreeTree, plug, find_node}
use libjeffpc.Tree.Walk.{items}
use libjeffpc.Rbtree.{rb_add, rb_remove}

-- struct nvpair without its node
abbrev pub NvPair : Type 0
NvPair = List ℕ × Val

abbrev pub Nvlist : Type 0
Nvlist = TreeTree NvPair

-- Pairs are compared by their names.
abbrev pub val_nvl_cmp : NvPair → NvPair → Ordering
val_nvl_cmp a b = strcmp a.0 b.0

-- val_alloc_nvl, with rb_create
abbrev pub val_alloc_nvl : Nvlist
val_alloc_nvl = record { root = leaf; num_nodes = 0 }

-- The node of a name, by a key whose value is not read.
unfoldable pub find : Nvlist → List ℕ → Option (Location NvPair)
find t name = find_node val_nvl_cmp (name, null_pointer) [] t.root

abbrev pub pair_at : Option (Location NvPair) → Option NvPair
pair_at (some (fs, node c l x r)) = some x
pair_at at = none

unfoldable pub nvl_lookup : Nvlist → List ℕ → Result NvPair
unfolding find
nvl_lookup t name = elim (pair_at (find t name)) [ none ↦ err enoent | some pair ↦ ok pair ]

-- VALUE_INT and VALUE_PTR: what `get` reads from a value of the right type, where a value without a type
-- is NULL.
abbrev pub value_of_type {ℓ} : {A : Type ℓ} → (Val → Option A) → Option NvPair → Result A
value_of_type get none = err enoent
value_of_type get (some (name, v)) = elim (type v) [
  | none ↦ fault
  | some t ↦ elim (get v) [ none ↦ err erange | some a ↦ ok a ]
]

abbrev pub nvpair_value_int : Option NvPair → Result ℕ
nvpair_value_int p = value_of_type (λ v. elim v [ int i ↦ some i | w ↦ none ]) p

abbrev pub nvpair_value_bool : Option NvPair → Result Bool
nvpair_value_bool p = value_of_type (λ v. elim v [ bool b ↦ some b | w ↦ none ]) p

abbrev pub nvpair_value_null : Option NvPair → Result (Unit {0})
nvpair_value_null p = value_of_type (λ v. elim v [ null ↦ some tt | w ↦ none ]) p

abbrev pub nvpair_value_str : Option NvPair → Result (List ℕ)
nvpair_value_str p = value_of_type (λ v. elim v [ str s ↦ some s | w ↦ none ]) p

abbrev pub nvpair_value_blob : Option NvPair → Result (List ℕ)
nvpair_value_blob p = value_of_type (λ v. elim v [ blob s ↦ some s | w ↦ none ]) p

abbrev pub nvpair_value_array : Option NvPair → Result Vals
nvpair_value_array p = value_of_type (λ v. elim v [ array vs ↦ some vs | w ↦ none ]) p

abbrev pub nvpair_value_nvl : Option NvPair → Result Pairs
nvpair_value_nvl p = value_of_type (λ v. elim v [ nvl ps ↦ some ps | w ↦ none ]) p

unfoldable pub nvl_lookup_int : Nvlist → List ℕ → Result ℕ
unfolding find
nvl_lookup_int t name = nvpair_value_int (pair_at (find t name))

unfoldable pub nvl_lookup_bool : Nvlist → List ℕ → Result Bool
unfolding find
nvl_lookup_bool t name = nvpair_value_bool (pair_at (find t name))

unfoldable pub nvl_lookup_null : Nvlist → List ℕ → Result (Unit {0})
unfolding find
nvl_lookup_null t name = nvpair_value_null (pair_at (find t name))

unfoldable pub nvl_lookup_str : Nvlist → List ℕ → Result (List ℕ)
unfolding find
nvl_lookup_str t name = nvpair_value_str (pair_at (find t name))

unfoldable pub nvl_lookup_blob : Nvlist → List ℕ → Result (List ℕ)
unfolding find
nvl_lookup_blob t name = nvpair_value_blob (pair_at (find t name))

unfoldable pub nvl_lookup_array : Nvlist → List ℕ → Result Vals
unfolding find
nvl_lookup_array t name = nvpair_value_array (pair_at (find t name))

unfoldable pub nvl_lookup_nvl : Nvlist → List ℕ → Result Pairs
unfolding find
nvl_lookup_nvl t name = nvpair_value_nvl (pair_at (find t name))

unfoldable pub nvl_exists : Nvlist → List ℕ → Bool
unfolding find
nvl_exists t name = elim (find t name) [ none ↦ false | some at ↦ true ]

abbrev pub same_type : ValType → ValType → Bool
same_type vt_null vt_null = true
same_type vt_int vt_int = true
same_type vt_str vt_str = true
same_type ValType.vt_sym ValType.vt_sym = true
same_type vt_bool vt_bool = true
same_type ValType.vt_cons ValType.vt_cons = true
same_type ValType.vt_char ValType.vt_char = true
same_type vt_blob vt_blob = true
same_type vt_array vt_array = true
same_type vt_nvl vt_nvl = true
same_type a b = false

-- pair->value->type compared with a type
abbrev pub check_type : Val → ValType → Result (Unit {0})
check_type v t = elim (type v) [
  | none ↦ fault
  | some t' ↦ if not (same_type t' t) then err erange else ok tt
]

unfoldable pub nvl_exists_type : Nvlist → List ℕ → ValType → Result (Unit {0})
unfolding find
nvl_exists_type t name ty = elim (pair_at (find t name)) [
  | none ↦ err enoent
  | some pair ↦ check_type pair.1 ty
]

-- What the allocator has for a new pair: the node's memory, none if there is none, and else with what it
-- holds at first, and whether there is memory for a copy of the name.
pub record Memory : Type 0 where
  pub node_room : Option Bool
  pub name_room : Bool

abbrev pub enough : Bool → Memory
enough extra = record { node_room = some extra; name_room = true }

-- __nvpair_alloc with its argument, a name that is there or a copy. An error pointer for the copy is not
-- tested but taken for a name, which is read through when a pair is compared or freed: a fault.
abbrev pub nvpair_alloc : Memory → Bool → Result Bool
nvpair_alloc memory has_name =
    if not (has_name || memory.name_room)
    then fault
    else elim memory.node_room [ none ↦ err enomem | some extra ↦ ok extra ]

module _ (memory : Memory) where
  unfoldable pub do_nvl_set : Nvlist → Bool → List ℕ → Val → Result Nvlist
  unfolding find
  do_nvl_set t has_name name val = elim (find t name) [
    | some (fs, node c l (name', old) r) ↦
        ok (record t { root = plug fs (node c l (name', val) r) })
    | some (fs, leaf) ↦ fault
    | none ↦ nvpair_alloc memory has_name >>= λ extra. rb_add val_nvl_cmp t extra (name, val)
  ]

  unfoldable pub nvl_set : Nvlist → List ℕ → Val → Result Nvlist
  unfolding do_nvl_set
  nvl_set t name val = do_nvl_set t false name val

  unfoldable pub nvl_set_pair : Nvlist → NvPair → Result Nvlist
  unfolding do_nvl_set
  nvl_set_pair t (name, val) = do_nvl_set t true name val

  unfoldable pub nvl_set_int : Nvlist → List ℕ → ℕ → Result Nvlist
  unfolding nvl_set
  nvl_set_int t name v = nvl_set t name (val_alloc_int v)

  unfoldable pub nvl_set_bool : Nvlist → List ℕ → Bool → Result Nvlist
  unfolding nvl_set
  nvl_set_bool t name v = nvl_set t name (val_alloc_bool v)

  unfoldable pub nvl_set_null : Nvlist → List ℕ → Result Nvlist
  unfolding nvl_set
  nvl_set_null t name = nvl_set t name val_alloc_null

  unfoldable pub nvl_set_array : Nvlist → List ℕ → List Val → Result Nvlist
  unfolding nvl_set
  nvl_set_array t name vs = nvl_set t name (val_alloc_array vs)

  unfoldable pub nvl_set_cstr_dup : Nvlist → List ℕ → List ℕ → Result Nvlist
  unfolding nvl_set str_alloc
  nvl_set_cstr_dup t name v = nvl_set t name (str_alloc v)

-- The loop of `nvl_merge`, over the pairs in the order of the other tree; `memory` is told for each. The
-- list is returned with the result, since it is changed before an error is found.
unfoldable pub merge_pairs : (ℕ → Memory) → ℕ → Nvlist → List NvPair → Result (Unit {0}) × Nvlist
unfolding nvl_set
merge_pairs memory i dest [] = (ok tt, dest)
merge_pairs memory i dest ((name, val) ∷ ps) = elim (nvl_set (memory i) dest name val) [
  | ok dest' ↦ merge_pairs memory (i + 1) dest' ps
  | err e ↦ (err e, dest)
  | panic ↦ (panic, dest)
  | fault ↦ (fault, dest)
]

unfoldable pub nvl_merge : (ℕ → Memory) → Nvlist → Nvlist → Result (Unit {0}) × Nvlist
unfolding merge_pairs
nvl_merge memory dest src = merge_pairs memory 0 dest (items src.root)

unfoldable pub unset : Nvlist → List ℕ → ValType → Bool → Result Nvlist
unfolding find
unset t name ty matchtype = elim (find t name) [
  | none ↦ err enoent
  | some (fs, leaf) ↦ fault
  | some (fs, node c l (name', v) r) ↦ (if matchtype then check_type v ty else ok tt) >>= λ _.
      rb_remove t (fs, node c l (name', v) r)
]

unfoldable pub nvl_unset : Nvlist → List ℕ → Result Nvlist
unfolding unset
nvl_unset t name = unset t name vt_null false

unfoldable pub nvl_unset_type : Nvlist → List ℕ → ValType → Result Nvlist
unfolding unset
nvl_unset_type t name ty = unset t name ty true
