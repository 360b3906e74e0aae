-- ===== src/Tree/Steps.antt =====
-- `tree_first`, `tree_next` and their mirror images step through the items in order.
use libjeffpc.Base.{
  Bool, true, false, Option, none, some, List, [], ◌∷◌, ◌++◌, ◌≡◌, ◌⊎◌, inl, inr, refl, append-nil,
  append_assoc,
}
use libjeffpc.Tree.{
  Dir, tree_left, tree_right, opposite, Tree, leaf, node, Frame, Parents, Location, fill, plug,
  firstlast, firstlast_obj, climb, tree_next_dir, tree_first, tree_last, tree_next, tree_prev,
  tree_nearest,
}
use mathlib.Core.Path.{subst}
use libjeffpc.Tree.Walk.{walk, back, beyond}

module _ {ℓ} {A : Type ℓ} where
  -- The child of a node that lies in the direction `d`.
  abbrev pub far : Dir → Tree A → Tree A → Tree A
  far tree_left l r = l
  far tree_right l r = r

  -- The items behind a node.
  abbrev pub ahead : Dir → Parents A → Tree A → Tree A → List A
  ahead d fs l r = walk d (far d l r) ++ beyond d fs

  -- `r` is the place of the first of `bs` in the tree `whole`, with the others behind it, or NULL if
  -- there are none.
  abbrev pub StepsTo : Dir → Tree A → List A → Option (Location A) → Type ℓ
  StepsTo d whole bs r =
      ((r ≡ none) × (bs ≡ []))
      ⊎ ((fs : Parents A) × (c : Bool) × (l : Tree A) × (x : A) × (r' : Tree A) × (r
            ≡ some (fs, node c l x r'))
          × (plug fs (node c l x r') ≡ whole)
          × (bs ≡ x ∷ ahead d fs l r'))

  firstlast-StepsTo :
      (d : Dir) (fs : Parents A) (c : Bool) (l : Tree A) (x : A) (r : Tree A)
      → StepsTo d
          (plug fs (node c l x r))
          (walk d (node c l x r) ++ beyond d fs)
          (some (firstlast (opposite d) fs (node c l x r)))
  unfolding firstlast plug
  firstlast-StepsTo tree_right fs c leaf x r = inr (fs, c, leaf, x, r, refl, refl, refl)
  firstlast-StepsTo tree_right fs c (node d a y b) x r =
      let f : Frame A = record { dir = tree_left; extra = c; item = x; sibling = r } in
      rw (append_assoc (walk tree_right (node d a y b)) (back tree_right f) (beyond tree_right fs))
        (firstlast-StepsTo tree_right (f ∷ fs) d a y b)
  firstlast-StepsTo tree_left fs c l x leaf = inr (fs, c, l, x, leaf, refl, refl, refl)
  firstlast-StepsTo tree_left fs c l x (node d a y b) =
      let f : Frame A = record { dir = tree_right; extra = c; item = x; sibling = l } in
      rw (append_assoc (walk tree_left (node d a y b)) (back tree_left f) (beyond tree_left fs))
        (firstlast-StepsTo tree_left (f ∷ fs) d a y b)

  climb_one :
      (d dir : Dir) (c : Bool) (x : A) (s : Tree A) (fs : Parents A) (t : Tree A)
      → let f : Frame A = record { dir = dir; extra = c; item = x; sibling = s } in
        StepsTo d (plug fs (fill f t)) (beyond d fs) (climb (opposite d) fs (fill f t))
        → StepsTo d (plug fs (fill f t)) (beyond d (f ∷ fs)) (climb (opposite d) (f ∷ fs) t)
  unfolding climb
  climb_one tree_right tree_left c x s fs t up = inr (fs, c, t, x, s, refl, refl, refl)
  climb_one tree_right tree_right c x s fs t up = up
  climb_one tree_left tree_right c x s fs t up = inr (fs, c, s, x, t, refl, refl, refl)
  climb_one tree_left tree_left c x s fs t up = up

  climb-StepsTo :
      (d : Dir) (fs : Parents A) (t : Tree A)
      → StepsTo d (plug fs t) (beyond d fs) (climb (opposite d) fs t)
  unfolding climb plug
  climb-StepsTo d [] t = inl (refl, refl)
  climb-StepsTo d (f ∷ fs) t =
      climb_one d f.dir f.extra f.item f.sibling fs t (climb-StepsTo d fs (fill f t))

  step_right :
      (fs : Parents A) (c : Bool) (l : Tree A) (x : A) (r : Tree A)
      → StepsTo tree_right
          (plug fs (node c l x r))
          (ahead tree_right fs l r)
          (tree_next_dir tree_right (fs, node c l x r))
  unfolding tree_next_dir plug
  step_right fs c l x leaf = climb-StepsTo tree_right fs (node c l x leaf)
  step_right fs c l x (node d a y b) =
      firstlast-StepsTo tree_right
        (record { dir = tree_right; extra = c; item = x; sibling = l } ∷ fs) d a y b

  step_left :
      (fs : Parents A) (c : Bool) (l : Tree A) (x : A) (r : Tree A)
      → StepsTo tree_left
          (plug fs (node c l x r))
          (ahead tree_left fs l r)
          (tree_next_dir tree_left (fs, node c l x r))
  unfolding tree_next_dir plug
  step_left fs c leaf x r = climb-StepsTo tree_left fs (node c leaf x r)
  step_left fs c (node d a y b) x r =
      firstlast-StepsTo tree_left
        (record { dir = tree_left; extra = c; item = x; sibling = r } ∷ fs) d a y b

  first_step :
      (d : Dir) (root : Tree A) → StepsTo d root (walk d root) (firstlast_obj (opposite d) root)
  unfolding firstlast_obj plug
  first_step d leaf = inl (refl, refl)
  first_step d (node c l x r) =
      subst (λ bs. StepsTo d (node c l x r) bs (some (firstlast (opposite d) [] (node c l x r))))
        (append-nil (walk d (node c l x r))) (firstlast-StepsTo d [] c l x r)

  -- `tree_first` and `tree_last` go to the first item of the tree in order, read from the left and from
  -- the right, or give NULL where there is none. From any node, `tree_next` and `tree_prev` go to the
  -- next item in that direction, and give NULL where no item is left. From the place of a cookie,
  -- `tree_nearest` goes to the next item above it or below it. The tree stays the same.
  pub tree_next_lem :
      (root : Tree A) (fs : Parents A) (c : Bool) (l : Tree A) (x : A) (r : Tree A)
      → StepsTo tree_right root (walk tree_right root) (tree_first root)
        × StepsTo tree_left root (walk tree_left root) (tree_last root)
        × StepsTo tree_right
            (plug fs (node c l x r))
            (ahead tree_right fs l r)
            (tree_next (fs, node c l x r))
        × StepsTo tree_left
            (plug fs (node c l x r))
            (ahead tree_left fs l r)
            (tree_prev (fs, node c l x r))
        × StepsTo tree_right (plug fs leaf) (beyond tree_right fs) (tree_nearest fs true)
        × StepsTo tree_left (plug fs leaf) (beyond tree_left fs) (tree_nearest fs false)
  unfolding tree_first tree_last tree_next tree_prev tree_nearest
  tree_next_lem root fs c l x r = (
    first_step tree_right root,
    first_step tree_left root,
    step_right fs c l x r,
    step_left fs c l x r,
    climb-StepsTo tree_right fs leaf,
    climb-StepsTo tree_left fs leaf,
  )
