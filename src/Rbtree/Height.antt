-- ===== src/Rbtree/Height.antt =====
-- How deep a red-black tree is: a search goes through few of the nodes.
use libjeffpc.Base.{
  ℕ, zero, suc, ◌+◌, ◌*◌, ◌^◌, ◌≤◌, Bool, true, false, not, ◌&&◌, [], ◌∷◌, ◌≡◌, refl, sym, ap, ◌∙◌,
  inl, inr, arith, length, length-append,
}
use Prim.Native.Nat.{Ordering}
use native.Mathlib.Nat.{pow-suc, pow-le-pow_right, mul-le-mul}
use mathlib.Core.Path.{subst}
use libjeffpc.Tree.{
  Dir, tree_left, tree_right, Tree, leaf, node, Frame, Parents, TreeTree, fill, plug, found,
  missing, tree_find,
}
use libjeffpc.Tree.Walk.{items}
use libjeffpc.Rbtree.{is_red}
use libjeffpc.Rbtree.Shape.{weight, black_height, IsBalanced, IsRedBlack, plug-Fits}
use libjeffpc.Rbtree.Insert.{IsRbTree}
use libjeffpc.Tree.Search.{IsLawful, tree_find-Searched}

abbrev red_weight : Bool → ℕ
red_weight true = 1
red_weight false = 0

colours_bound :
    (c d : Bool) → (d && not (not c)) ≡ false → suc (red_weight d) ≤ 2 * weight c + red_weight c
colours_bound c d h = ground arith

pow_weight : (c : Bool) (h : ℕ) → 2 ^ (h + weight c) ≤ 2 ^ h + 2 ^ h
pow_weight true h = let e : h + weight true ≡ h = omega arith in rw e (omega arith)
pow_weight false h =
    let e : h + weight false ≡ suc h = omega arith in rw (e, pow-suc 2 h) (omega arith)

pow_double : (h : ℕ) → 2 ^ (h + h) ≡ 2 ^ h * 2 ^ h
pow_double zero = refl
pow_double (suc h) =
    let e : suc h + suc h ≡ suc (suc (h + h)) = omega arith in
    rw (e, pow-suc 2 (suc (h + h)), pow-suc 2 (h + h), pow-suc 2 h, pow_double h) (grind arith)

module _ {ℓ} {A : Type ℓ} where
  items_bound : (t : Tree A) → IsBalanced t → 2 ^ black_height t ≤ length (items t) + 1
  items_bound leaf b = omega arith
  items_bound (node c l x r) (e, m, n, b, b') = omega (
    arith,
    pow_weight c (black_height l),
    items_bound l b,
    ap (λ (k : ℕ). 2 ^ k) e,
    items_bound r b',
    length-append (items l) (x ∷ items r),
  )

  fill_height :
      (d : Dir) (c : Bool) (x : A) (s t : Tree A)
      → black_height s ≡ black_height t
      → let f : Frame A = record { dir = d; extra = c; item = x; sibling = s } in
        (black_height (fill f t) ≡ black_height t + weight c) × (is_red (fill f t) ≡ c)
  fill_height tree_left c x s t e = (refl, refl)
  fill_height tree_right c x s t e = (ap (λ (k : ℕ). k + weight c) e, refl)

  depth_bound :
      (fs : Parents A) (t : Tree A)
      → IsRedBlack (plug fs t)
      → length fs + 2 * black_height t + red_weight (is_red t) ≤ 2 * black_height (plug fs t)
  unfolding plug
  depth_bound [] t (black, b) = rw black (omega arith)
  depth_bound (f ∷ fs) t rb =
      let fits = plug-Fits (f ∷ fs) t rb in
      let (h, c) = fill_height f.dir f.extra f.item f.sibling t fits.0.0 in
      let up = depth_bound fs (fill f t) rb in
      omega (arith, h, ap red_weight c, up, colours_bound f.extra (is_red t) fits.2)

  place_depth :
      (fs : Parents A) (t : Tree A)
      → IsRedBlack (plug fs t)
      → let n = length (items (plug fs t)) + 1 in 2 ^ length fs ≤ n * n
  place_depth fs t rb =
      let root = plug fs t in
      let h = black_height root in
      let less = items_bound root rb.1 in
      let below =
        pow-le-pow_right {n = 2} (omega arith) {i = length fs} {j = h + h}
          (omega (arith, depth_bound fs t rb)) in
      omega (arith, below, pow_double h, mul-le-mul less less)

  -- In a red-black tree of n nodes that is ordered by an antisymmetric and transitive comparison,
  -- a search that finds nothing passes k nodes with 2 ^ k at most (n + 1) * (n + 1).
  pub tree_find-depth :
      (cmp : A → A → Ordering) (lawful : IsLawful cmp) (tree : TreeTree A) (key : A)
      (path : Parents A)
      → IsRbTree cmp tree
      → tree_find cmp tree key ≡ missing path
      → 2 ^ length path ≤ (tree.num_nodes + 1) * (tree.num_nodes + 1)
  tree_find-depth cmp lawful tree key path w e =
      elim (tree_find-Searched cmp lawful key tree w.sorted) [
        | inl (x, pre, post, e', same, whole) ↦
            let other : found x ≡ missing path = sym e' ∙ e in absurd (ground arith)
        | inr (path', e', hole, low, high) ↦
            let other : missing path' ≡ missing path = sym e' ∙ e in
            let same : path' ≡ path = cc in
            let at : plug path leaf ≡ tree.root = ap (λ fs. plug fs leaf) (sym same) ∙ hole in
            let deep = place_depth path leaf (subst IsRedBlack (sym at) w.red_black) in
            let count : length (items (plug path leaf)) ≡ tree.num_nodes =
              ap (λ t. length (items t)) at ∙ sym w.counted in
            subst (λ (n : ℕ). 2 ^ length path ≤ (n + 1) * (n + 1)) count deep
      ]
