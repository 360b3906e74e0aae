-- ===== src/Tree/Walk.antt =====
-- The items of a tree in order, in either direction, and what lies on both sides of a path.
use libjeffpc.Base.{
  Bool, List, [], ◌∷◌, ◌++◌, ◌≡◌, refl, sym, ◌∙◌, if◌then◌else◌, append-nil, append_assoc,
}
use libjeffpc.Tree.{
  Dir, tree_left, tree_right, same_dir, Tree, leaf, node, Frame, Parents, fill, plug,
}

module _ {ℓ} {A : Type ℓ} where
  -- The items in the direction `d`.
  abbrev pub walk : Dir → Tree A → List A
  walk d leaf = []
  walk tree_right (node c l x r) = walk tree_right l ++ x ∷ walk tree_right r
  walk tree_left (node c l x r) = walk tree_left r ++ x ∷ walk tree_left l

  abbrev pub items : Tree A → List A
  items t = walk tree_right t

  -- What a parent adds in front of its child and behind it.
  abbrev pub front : Dir → Frame A → List A
  front d f = if same_dir f.dir d then walk d f.sibling ++ f.item ∷ [] else []

  abbrev pub back : Dir → Frame A → List A
  back d f = if same_dir f.dir d then [] else f.item ∷ walk d f.sibling

  abbrev pub passed : Dir → Parents A → List A
  passed d [] = []
  passed d (f ∷ fs) = passed d fs ++ front d f

  abbrev pub beyond : Dir → Parents A → List A
  beyond d [] = []
  beyond d (f ∷ fs) = back d f ++ beyond d fs

  fill_parts :
      (d dir : Dir) (c : Bool) (x : A) (s t : Tree A)
      → let f : Frame A = record { dir = dir; extra = c; item = x; sibling = s } in
        walk d (fill f t) ≡ front d f ++ (walk d t ++ back d f)
  fill_parts tree_left tree_left c x s t = simp (append_assoc, append-nil)
  fill_parts tree_left tree_right c x s t = refl
  fill_parts tree_right tree_left c x s t = refl
  fill_parts tree_right tree_right c x s t = simp (append_assoc, append-nil)

  pub walk-fill :
      (d : Dir) (f : Frame A) (t : Tree A) → walk d (fill f t) ≡ front d f ++ (walk d t ++ back d f)
  walk-fill d f t = fill_parts d f.dir f.extra f.item f.sibling t

  pub walk-plug :
      (d : Dir) (fs : Parents A) (t : Tree A)
      → walk d (plug fs t) ≡ passed d fs ++ (walk d t ++ beyond d fs)
  unfolding plug
  walk-plug d [] t = sym (append-nil (walk d t))
  walk-plug d (f ∷ fs) t = walk-plug d fs (fill f t) ∙ rw (walk-fill d f t) (simp append_assoc)
