-- ===== src/Rbtree/Replace.antt =====
-- A node whose item is changed in its place.
use libjeffpc.Base.{
  ◌+◌, Bool, [], ◌∷◌, ◌++◌, ◌≡◌, refl, sym, ap, ◌∙◌, append_assoc, arith, length, length-append,
}
use Prim.Native.Nat.{Ordering}
use mathlib.Core.Path.{subst}
use libjeffpc.Tree.{tree_right, Tree, node, Parents, TreeTree, plug}
use libjeffpc.Tree.Walk.{items, walk, passed, beyond, walk-plug}
use libjeffpc.Tree.Search.{Sorted}
use libjeffpc.Rbtree.Shape.{weight, black_height, plug-Fits, IsRedBlack, plug-IsBalanced, quiet}
use libjeffpc.Rbtree.Insert.{IsRbTree}
use libjeffpc.Rbtree.FixRemove.{root-black}

module _ {ℓ} {A : Type ℓ} where
  replace-IsRedBlack :
      (fs : Parents A) (c : Bool) (l : Tree A) (x y : A) (r : Tree A)
      → IsRedBlack (plug fs (node c l x r))
      → IsRedBlack (plug fs (node c l y r))
  unfolding plug
  replace-IsRedBlack [] c l x y r rb = rb
  replace-IsRedBlack (f ∷ fs) c l x y r rb =
      let (a, b, top) = plug-Fits (f ∷ fs) (node c l x r) rb in
      let h = black_height l + weight c in
      (
        root-black f fs (node c l y r) h a,
        plug-IsBalanced (f ∷ fs) (node c l y r) h a b refl (quiet (f ∷ fs) c top),
      )

  -- The items around a node.
  pub items-plug :
      (fs : Parents A) (c : Bool) (l : Tree A) (x : A) (r : Tree A)
      → items (plug fs (node c l x r))
        ≡ (passed tree_right fs ++ walk tree_right l)
          ++ x ∷ (walk tree_right r ++ beyond tree_right fs)
  items-plug fs c l x r = walk-plug tree_right fs (node c l x r) ∙ simp append_assoc

  -- An item that leaves the order as it is.
  pub replace-IsRbTree :
      (cmp : A → A → Ordering) (t : TreeTree A) (fs : Parents A) (c : Bool) (l : Tree A) (x y : A)
      (r : Tree A)
      → IsRbTree cmp t
      → plug fs (node c l x r) ≡ t.root
      → Sorted cmp (items (plug fs (node c l y r)))
      → IsRbTree cmp (record t { root = plug fs (node c l y r) })
  replace-IsRbTree cmp t fs c l x y r w at s =
      let pre = passed tree_right fs ++ walk tree_right l in
      let post = walk tree_right r ++ beyond tree_right fs in
      let before = ap (λ root. length (items root)) at in
      record {
        red_black = replace-IsRedBlack fs c l x y r (subst IsRedBlack (sym at) w.red_black);
        sorted = s;
        counted = omega (
          arith,
          w.counted,
          before,
          ap length (items-plug fs c l x r),
          ap length (items-plug fs c l y r),
          length-append pre (x ∷ post),
          length-append pre (y ∷ post),
        );
      }
