-- ===== src/Rbtree/Insert.antt =====
-- Insertion keeps the tree red-black and puts the item in its place.
use libjeffpc.Base.{
  ◌+◌, Bool, true, false, none, some, List, [], ◌∷◌, ◌++◌, ◌≡◌, refl, sym, ap, ◌∙◌, ◌⊎◌, inl, inr,
  arith, length, length-append, ok,
}
use Prim.Native.Nat.{Ordering}
use Prim.Native.Nat.Ordering.{eq}
use mathlib.Core.Path.{subst}
use libjeffpc.Tree.{
  tree_right, Tree, leaf, node, Parents, TreeTree, tree_insert_here, insert_at, tree_find, found,
  missing,
}
use libjeffpc.Tree.Walk.{items, walk-plug}
use libjeffpc.Tree.Search.{IsLawful, Sorted, Inserted, at_cookie-Inserted, tree_find-Searched}
use libjeffpc.Rbtree.{set_red, fix_insert, recolour, rb_insert_here}
use libjeffpc.Rbtree.Shape.{plug-Fits, IsRedBlack, set_red-IsBalanced, set_red-items, set_red-black}
use libjeffpc.Rbtree.FixInsert.{fix_insert-Fixed}

-- What `rb_tree` promises: it is red-black, its items are in order, and they are counted.
pub record IsRbTree {ℓ} {A : Type ℓ} (cmp : A → A → Ordering) (tree : TreeTree A) : Type ℓ where
  pub red_black : IsRedBlack tree.root
  pub sorted : Sorted cmp (items tree.root)
  pub counted : tree.num_nodes ≡ length (items tree.root)

module _ {ℓ} {A : Type ℓ} (cmp : A → A → Ordering) (tree : TreeTree A) (extra : Bool)
    (newitem : A) where
  insert_found :
      (x : A)
      → tree_find cmp tree newitem ≡ found x
      → tree_insert_here cmp tree extra newitem none ≡ (some x, tree, [])
  unfolding tree_insert_here
  insert_found x e = rw (tree_insert_here, e) refl

  insert_missing :
      (path : Parents A)
      → tree_find cmp tree newitem ≡ missing path
      → tree_insert_here cmp tree extra newitem none
        ≡ (none, insert_at tree extra newitem path, path)
  unfolding tree_insert_here
  insert_missing path e = rw (tree_insert_here, e) refl

  rb_found :
      (x : A)
      → tree_find cmp tree newitem ≡ found x
      → rb_insert_here cmp tree extra newitem none ≡ ok (some x, tree)
  unfolding rb_insert_here recolour
  rb_found x e = ap (recolour newitem) (insert_found x e)

  rb_missing :
      (path : Parents A) (whole : Tree A)
      → tree_find cmp tree newitem ≡ missing path
      → fix_insert path (node true leaf newitem leaf) ≡ ok whole
      → rb_insert_here cmp tree extra newitem none
        ≡ ok (none, record { root = set_red whole false; num_nodes = tree.num_nodes + 1 })
  unfolding rb_insert_here recolour insert_at
  rb_missing path whole e f = ap (recolour newitem) (insert_missing path e) ∙ rw f refl

module _ {ℓ} {A : Type ℓ} (cmp : A → A → Ordering) (lawful : IsLawful cmp) where
  -- For an antisymmetric and transitive comparison: inserting an item into a red-black tree that
  -- is ordered and counted ends with the tree as it was and an item of it that compares equal, or
  -- with a tree that is red-black, ordered and counted again and whose items are the old ones
  -- with the new item in its place. No NULL pointer is read through.
  pub rb_insert_here-Inserted :
      (tree : TreeTree A) (extra : Bool) (newitem : A)
      → IsRbTree cmp tree
      → ((x : A) × (pre : List A) × (post : List A) × (rb_insert_here cmp tree extra newitem none
            ≡ ok (some x, tree))
          × (cmp newitem x ≡ eq)
          × (items tree.root ≡ pre ++ x ∷ post))
        ⊎ ((tree' : TreeTree A) × (rb_insert_here cmp tree extra newitem none ≡ ok (none, tree'))
            × IsRbTree cmp tree'
            × Inserted cmp (items tree.root) newitem (items tree'.root))
  unfolding tree_find
  rb_insert_here-Inserted tree extra newitem w =
      elim (tree_find-Searched cmp lawful newitem tree w.sorted) [
        | inl (x, pre, post, e, same, whole) ↦
            inl (x, pre, post, rb_found cmp tree extra newitem x e, same, whole)
        | inr (path, e, hole, low, high) ↦
            let around = (plug-Fits path leaf (subst IsRedBlack (sym hole) w.red_black)).0 in
            let (whole, f, balanced, same) =
              fix_insert-Fixed path (node true leaf newitem leaf) 0 around
                (refl, refl, refl, tt, tt) refl refl in
            let inserted =
              at_cookie-Inserted cmp tree.root path newitem (items (set_red whole false)) w.sorted
                hole low high
                (set_red-items whole false
                  ∙ same
                  ∙ walk-plug tree_right path (node true leaf newitem leaf)) in
            inr (
              record { root = set_red whole false; num_nodes = tree.num_nodes + 1 },
              rb_missing cmp tree extra newitem path whole e f,
              record {
                red_black = (set_red-black whole, set_red-IsBalanced whole balanced);
                sorted = inserted.sorted;
                counted = omega (
                  arith,
                  w.counted,
                  ap length inserted.old_is,
                  ap length inserted.new_is,
                  length-append inserted.pre inserted.post,
                  length-append inserted.pre (newitem ∷ inserted.post),
                );
              },
              inserted,
            )
      ]
