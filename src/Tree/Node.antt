-- ===== src/Tree/Node.antt =====
-- The node that `tree_find` returns, on a tree whose items are in order.
use libjeffpc.Base.{Bool, Option, none, some, List, ◌∷◌, ◌++◌, ◌≡◌, ◌⊎◌, inl, inr, refl, All}
use Prim.Native.Nat.{Ordering}
use Prim.Native.Nat.Ordering.{eq}
use libjeffpc.Tree.{tree_left, tree_right, Tree, leaf, node, Frame, Parents, plug, find_node}
use libjeffpc.Tree.Walk.{items, passed, beyond, walk-plug}
use libjeffpc.Tree.Search.{
  IsLawful, Ordering-cases, Less, Sorted, Bounded, left-Bounded, right-Bounded,
}

module _ {ℓ} {A : Type ℓ} (cmp : A → A → Ordering) where
  -- The node whose item compares equal, or that there is none: what is less and what is greater.
  abbrev pub NodeFound : A → Tree A → Option (Parents A × Tree A) → Type ℓ
  NodeFound key root r =
      ((fs : Parents A) × (c : Bool) × (l : Tree A) × (x : A) × (t : Tree A) × (r
          ≡ some (fs, node c l x t))
        × (cmp key x ≡ eq)
        × (plug fs (node c l x t) ≡ root))
      ⊎ ((pre : List A) × (post : List A) × (r ≡ none)
          × (items root ≡ pre ++ post)
          × All (λ y. Less cmp y key) pre
          × All (λ y. Less cmp key y) post)

  module _ (lawful : IsLawful cmp) (key : A) where
    pub find_node-Found :
        (fs : Parents A) (t : Tree A)
        → Sorted cmp (items (plug fs t))
        → Bounded cmp lawful key fs
        → NodeFound key (plug fs t) (find_node cmp key fs t)
    unfolding find_node plug
    find_node-Found fs leaf s bounds = inr (
      passed tree_right fs,
      beyond tree_right fs,
      refl,
      walk-plug tree_right fs leaf,
      bounds.0,
      bounds.1,
    )
    find_node-Found fs (node c l x r) s bounds =
        let left : Frame A = record { dir = tree_left; extra = c; item = x; sibling = r } in
        let right : Frame A = record { dir = tree_right; extra = c; item = x; sibling = l } in
        elim (Ordering-cases (cmp key x)) [
          | inl e ↦
              rw (find_node, e)
                (find_node-Found (left ∷ fs) l s
                  (left-Bounded cmp lawful key fs c l x r s bounds e))
          | inr (inl e) ↦ rw (find_node, e) (inl (fs, c, l, x, r, refl, e, refl))
          | inr (inr e) ↦
              rw (find_node, e)
                (find_node-Found (right ∷ fs) r s
                  (right-Bounded cmp lawful key fs c l x r s bounds e))
        ]
