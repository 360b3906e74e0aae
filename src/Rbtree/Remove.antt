-- ===== src/Rbtree/Remove.antt =====
-- `rb_remove` keeps the tree red-black and takes out the item.
use libjeffpc.Base.{
  ℕ, ◌+◌, ◌-◌, Bool, true, false, not, ◌&&◌, List, [], ◌∷◌, ◌++◌, ◌≡◌, refl, sym, ap, ◌∙◌, ◌⊎◌, inl,
  inr, arith, length, length-append, ok, append_assoc,
}
use Prim.Native.Nat.{Ordering}
use mathlib.Core.Path.{subst}
use libjeffpc.Tree.{tree_right, Tree, leaf, node, Parents, Location, plug, TreeTree}
use libjeffpc.Tree.Walk.{items, walk, passed, beyond, walk-plug}
use libjeffpc.Tree.Search.{Sorted, Sorted-remove}
use libjeffpc.Tree.Remove.{SameShape, tree_remove-Taken}
use libjeffpc.Rbtree.{is_red, rebalance, rb_remove}
use libjeffpc.Rbtree.Shape.{
  weight, black_height, IsBalanced, Fits, plug-Fits, IsRedBlack, parent_black, Around,
  plug-IsBalanced, set_red-IsBalanced, and_false,
}
use libjeffpc.Rbtree.Insert.{IsRbTree}
use libjeffpc.Rbtree.FixRemove.{fix_remove-Fixed, root-black}

module _ {ℓ} {A : Type ℓ} where
  shape-parent_black : (fs gs : Parents A) → SameShape fs gs → parent_black fs ≡ parent_black gs
  shape-parent_black [] [] s = refl
  shape-parent_black [] (g ∷ gs) s = absurd (cc)
  shape-parent_black (f ∷ fs) [] s = absurd (cc)
  shape-parent_black (f ∷ fs) (g ∷ gs) s = ap not s.0

  shape-Around : (fs gs : Parents A) (h : ℕ) → SameShape fs gs → Around fs h → Around gs h
  shape-Around [] [] h s a = tt
  shape-Around [] (g ∷ gs) h s a = absurd (cc)
  shape-Around (f ∷ fs) [] h s a = absurd (cc)
  shape-Around (f ∷ fs) (g ∷ gs) h (c, t, s) (e, m, b, n, a) =
      let P = λ (extra : Bool) (sibling : Tree A).
        (black_height sibling ≡ h)
        × ((extra && is_red sibling) ≡ false)
        × IsBalanced sibling
        × ((extra && not (parent_black gs)) ≡ false)
        × Around gs (h + weight extra) in
      subst (λ extra. P extra g.sibling) c
        (subst (P f.extra) t (
          e,
          m,
          b,
          subst (λ (black : Bool). (f.extra && not black) ≡ false) (shape-parent_black fs gs s) n,
          shape-Around fs gs (h + weight f.extra) s a,
        ))

  -- A place that a node of the colour `d` has left, with the child that it had.
  abbrev Gap : Parents A → Tree A → Bool → Type 0
  Gap fs child d =
      Around fs (weight d)
      × (black_height child ≡ 0)
      × IsBalanced child
      × ((d && is_red child) ≡ false)
      × ((d && not (parent_black fs)) ≡ false)

  left-Gap :
      (fs : Parents A) (place child : Tree A) (d : Bool) (y : A)
      → (place ≡ node d leaf y child) ⊎ (place ≡ node d child y leaf)
      → Fits fs place
      → Gap fs child d
  left-Gap fs place child d y (inl e) fits =
      let (a, (h, m, n, b, b'), top) = subst (Fits fs) e fits in
      (subst (λ (k : ℕ). Around fs k) (omega arith) a, sym h, b', n, top)
  left-Gap fs place child d y (inr e) fits =
      let (a, (h, m, n, b, b'), top) = subst (Fits fs) e fits in
      (subst (λ (k : ℕ). Around fs k) (omega (arith, h)) a, h, b, m, top)

  shape-Gap :
      (fs gs : Parents A) (child : Tree A) (d : Bool)
      → SameShape fs gs
      → Gap fs child d
      → Gap gs child d
  shape-Gap fs gs child d s (a, h, b, m, top) = (
    shape-Around fs gs (weight d) s a,
    h,
    b,
    m,
    subst (λ (black : Bool). (d && not black) ≡ false) (shape-parent_black fs gs s) top,
  )

  -- What `rebalance` leads to.
  abbrev Rebalanced : TreeTree A × Location A × Tree A → Type ℓ
  Rebalanced removed =
      (whole : Tree A) × (rebalance removed
        ≡ ok (record { root = whole; num_nodes = removed.0.num_nodes }))
      × IsRedBlack whole
      × (items whole ≡ items removed.0.root)

  rebalance_red : (fs : Parents A) (child : Tree A) → Gap fs child true → IsRedBlack (plug fs child)
  rebalance_red [] child (a, h, b, m, top) = absurd (ground arith)
  rebalance_red (f ∷ fs) child (a, h, b, m, top) = (
    root-black f fs child 0 a,
    plug-IsBalanced (f ∷ fs) child 0 a b h (and_false f.extra (is_red child) m),
  )

  rebalance-Rebalanced :
      (root : Tree A) (n : ℕ) (fs : Parents A) (child taken : Tree A) (d : Bool)
      → root ≡ plug fs child
      → is_red taken ≡ d
      → Gap fs child d
      → Rebalanced (record { root = root; num_nodes = n }, (fs, child), taken)
  unfolding rebalance
  rebalance-Rebalanced leaf n fs child taken d e c gap = (leaf, refl, (refl, tt), refl)
  rebalance-Rebalanced (node k l x r) n fs child taken true e c gap =
      (node k l x r, rw c refl, subst IsRedBlack (sym e) (rebalance_red fs child gap), refl)
  rebalance-Rebalanced (node k l x r) n fs child taken false e c (a, h, b, m, top) =
      let (whole, f, rb, same) = fix_remove-Fixed fs child 0 a (set_red-IsBalanced child b) h in
      (whole, rw (c, f) refl, rb, same ∙ ap items (sym e))

  taken_red :
      (taken child : Tree A) (d : Bool) (x : A)
      → (taken ≡ node d leaf x child) ⊎ (taken ≡ node d child x leaf)
      → is_red taken ≡ d
  taken_red taken child d x (inl e) = ap is_red e
  taken_red taken child d x (inr e) = ap is_red e

  -- Removing a node of a red-black tree that is ordered and counted ends with a tree that is
  -- red-black, ordered and counted again and has all its items but that of the node, in the same
  -- order. No NULL pointer is read through.
  pub rb_remove-Removed :
      (cmp : A → A → Ordering) (tree : TreeTree A) (fs : Parents A) (c : Bool) (l : Tree A) (x : A)
      (r : Tree A)
      → IsRbTree cmp tree
      → plug fs (node c l x r) ≡ tree.root
      → (tree' : TreeTree A) × (pre : List A) × (post : List A) × (rb_remove tree (fs, node c l x r)
          ≡ ok tree')
        × IsRbTree cmp tree'
        × (items tree.root ≡ pre ++ x ∷ post)
        × (items tree'.root ≡ pre ++ post)
  unfolding rb_remove
  rb_remove-Removed cmp tree fs c l x r w at =
      let k = tree_remove-Taken tree fs c l x r in
      let pre = passed tree_right fs ++ walk tree_right l in
      let post = walk tree_right r ++ beyond tree_right fs in
      let old : items tree.root ≡ pre ++ x ∷ post =
        ap items (sym at) ∙ walk-plug tree_right fs (node c l x r) ∙ simp append_assoc in
      let fits =
        plug-Fits k.origin k.place (subst IsRedBlack (sym (k.at_origin ∙ at)) w.red_black) in
      let gap =
        shape-Gap k.origin k.parent k.child k.d k.shape
          (left-Gap k.origin k.place k.child k.d k.y k.place_is fits) in
      let (whole, e, rb, same) =
        rebalance-Rebalanced (plug k.parent k.child) (tree.num_nodes - 1) k.parent k.child k.taken
          k.d refl (taken_red k.taken k.child k.d x k.taken_is) gap in
      let new : items whole ≡ pre ++ post = same ∙ k.left_items ∙ simp append_assoc in
      (
        record { root = whole; num_nodes = tree.num_nodes - 1 },
        pre,
        post,
        ap rebalance k.removes ∙ e,
        record {
          red_black = rb;
          sorted =
              subst (Sorted cmp) (sym new)
                (Sorted-remove cmp pre x post (subst (Sorted cmp) old w.sorted));
          counted = omega (
            arith,
            w.counted,
            ap length old,
            ap length new,
            length-append pre post,
            length-append pre (x ∷ post),
          );
        },
        old,
        new,
      )
