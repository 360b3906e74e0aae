-- ===== src/Nvl/Lookup.antt =====
-- What a lookup finds: the pair of the name among the items.
use libjeffpc.Base.{
  ℕ, Option, none, some, List, [], ◌∷◌, ◌++◌, ◌≡◌, inl, inr, refl, sym, ap, ◌∙◌, All, Result, ok,
  err, enoent,
}
use Prim.Native.Nat.Ordering.{eq}
use mathlib.Core.Path.{subst}
use libjeffpc.Val.{Val, null_pointer, strcmp}
use libjeffpc.Val.Compare.{strcmp_same, strcmp_refl}
use libjeffpc.Tree.{tree_right, plug}
use libjeffpc.Tree.Walk.{items, walk, passed, beyond}
use libjeffpc.Tree.Search.{Sorted, Sorted-split}
use libjeffpc.Tree.Node.{NodeFound, find_node-Found}
use libjeffpc.Rbtree.Insert.{IsRbTree}
use libjeffpc.Rbtree.Replace.{items-plug}
use libjeffpc.Nvl.{NvPair, Nvlist, val_nvl_cmp, find, nvl_lookup}
use libjeffpc.Nvl.Names.{val_nvl_cmp-IsLawful, pair_of, pair_of-skip, pair_of-none, pair_of-here}

pub find-Found :
    (t : Nvlist) (m : List ℕ)
    → IsRbTree val_nvl_cmp t
    → NodeFound val_nvl_cmp (m, null_pointer) t.root (find t m)
unfolding find plug
find-Found t m w =
    find_node-Found val_nvl_cmp val_nvl_cmp-IsLawful (m, null_pointer) [] t.root w.sorted (tt, tt)

-- The pair of a name in the middle of the items.
pub pair_of-middle :
    (pre : List NvPair) (n : List ℕ) (v : Val) (post : List NvPair)
    → Sorted val_nvl_cmp (pre ++ (n, v) ∷ post)
    → pair_of n (pre ++ (n, v) ∷ post) ≡ some (n, v)
pair_of-middle pre n v post s =
    let (low, high) = Sorted-split val_nvl_cmp pre (n, v) post s in
    pair_of-skip n v pre ((n, v) ∷ post) low ∙ pair_of-here n (n, v) post (strcmp_refl n)

-- And without it.
pub pair_of-between :
    (n : List ℕ) (v : Val) (pre post : List NvPair)
    → All (λ y. strcmp y.0 n ≡ Prim.Native.Nat.Ordering.lt) pre
    → All (λ y. strcmp n y.0 ≡ Prim.Native.Nat.Ordering.lt) post
    → pair_of n (pre ++ post) ≡ none
pair_of-between n v pre post low high = pair_of-skip n v pre post low ∙ pair_of-none n v post high

abbrev pub answer : Option NvPair → Result NvPair
answer none = err enoent
answer (some p) = ok p

-- In a list that is red-black, ordered and counted, a lookup returns the pair of the name.
pub nvl_lookup-pair_of :
    (t : Nvlist) (m : List ℕ)
    → IsRbTree val_nvl_cmp t
    → nvl_lookup t m ≡ answer (pair_of m (items t.root))
unfolding nvl_lookup
nvl_lookup-pair_of t m w = elim (find-Found t m w) [
  | inl (fs, c, l, (n, v), r, e, same, at) ↦
      let pre = passed tree_right fs ++ walk tree_right l in
      let post = walk tree_right r ++ beyond tree_right fs in
      let old = ap items (sym at) ∙ items-plug fs c l (n, v) r in
      let is : m ≡ n = strcmp_same m n same in
      let there : pair_of n (items t.root) ≡ some (n, v) =
        ap (pair_of n) old
        ∙ pair_of-middle pre n v post (subst (Sorted val_nvl_cmp) old w.sorted) in
      rw (nvl_lookup, e, is, there) refl
  | inr (pre, post, e, old, low, high) ↦
      rw (nvl_lookup, e, ap (pair_of m) old, pair_of-between m null_pointer pre post low high) refl
]
