-- ===== src/Rbtree/Shape.antt =====
-- The invariant of a red-black tree, for a tree and for the surroundings of a place in one.
use libjeffpc.Base.{
  ℕ, suc, ◌+◌, Bool, true, false, not, ◌&&◌, [], ◌∷◌, ◌++◌, ◌≡◌, refl, sym, ap, ◌∙◌, arith,
}
use mathlib.Core.Path.{subst}
use libjeffpc.Tree.{Dir, tree_left, tree_right, Tree, leaf, node, Frame, Parents, fill, plug}
use libjeffpc.Tree.Walk.{items, passed, beyond, walk-plug}
use libjeffpc.Rbtree.{is_red, set_red}

abbrev pub weight : Bool → ℕ
weight true = 0
weight false = 1

turned : (a b : Bool) → (a && b) ≡ false → (b && not (not a)) ≡ false
turned true true h = h
turned true false h = refl
turned false true h = refl
turned false false h = refl

module _ {ℓ} {A : Type ℓ} where
  -- The number of black nodes on the way down.
  abbrev pub black_height : Tree A → ℕ
  black_height leaf = 0
  black_height (node c l x r) = black_height l + weight c

  -- No red node has a red child, and all ways down have as many black nodes.
  abbrev pub IsBalanced : Tree A → Type 0
  IsBalanced leaf = Unit
  IsBalanced (node c l x r) =
      (black_height l ≡ black_height r)
      × ((c && is_red l) ≡ false)
      × ((c && is_red r) ≡ false)
      × IsBalanced l
      × IsBalanced r

  abbrev pub IsRedBlack : Tree A → Type 0
  IsRedBlack t = (is_red t ≡ false) × IsBalanced t

  abbrev pub parent_red : Parents A → Bool
  parent_red [] = false
  parent_red (f ∷ fs) = f.extra

  abbrev pub parent_black : Parents A → Bool
  parent_black [] = false
  parent_black (f ∷ fs) = not f.extra

  -- A balanced tree of black height `h` fits the place at the end of the path.
  abbrev pub Around : Parents A → ℕ → Type 0
  Around [] h = Unit
  Around (f ∷ fs) h =
      (black_height f.sibling ≡ h)
      × ((f.extra && is_red f.sibling) ≡ false)
      × IsBalanced f.sibling
      × ((f.extra && not (parent_black fs)) ≡ false)
      × Around fs (h + weight f.extra)

  fill_parts :
      (dir : Dir) (c : Bool) (x : A) (s t : Tree A)
      → black_height s ≡ black_height t
      → (c && is_red s) ≡ false
      → IsBalanced s
      → IsBalanced t
      → (c && is_red t) ≡ false
      → let f : Frame A = record { dir = dir; extra = c; item = x; sibling = s } in
        IsBalanced (fill f t)
        × (black_height (fill f t) ≡ black_height t + weight c)
        × (is_red (fill f t) ≡ c)
  fill_parts tree_left c x s t e m bs bt n = (ground arith, refl, refl)
  fill_parts tree_right c x s t e m bs bt n = (ground arith, ap (λ (k : ℕ). k + weight c) e, refl)

  pub fill-IsBalanced :
      (f : Frame A) (t : Tree A)
      → black_height f.sibling ≡ black_height t
      → (f.extra && is_red f.sibling) ≡ false
      → IsBalanced f.sibling
      → IsBalanced t
      → (f.extra && is_red t) ≡ false
      → IsBalanced (fill f t)
        × (black_height (fill f t) ≡ black_height t + weight f.extra)
        × (is_red (fill f t) ≡ f.extra)
  fill-IsBalanced f t = fill_parts f.dir f.extra f.item f.sibling t

  -- A colour that may stand below these parents.
  pub quiet :
      (fs : Parents A) (c : Bool)
      → (c && not (parent_black fs)) ≡ false
      → (parent_red fs && c) ≡ false
  quiet [] c top = refl
  quiet (g ∷ gs) c top = ground arith

  pub plug-IsBalanced :
      (fs : Parents A) (t : Tree A) (h : ℕ)
      → Around fs h
      → IsBalanced t
      → black_height t ≡ h
      → (parent_red fs && is_red t) ≡ false
      → IsBalanced (plug fs t)
  unfolding plug
  plug-IsBalanced [] t h a b e n = b
  plug-IsBalanced (f ∷ fs) t h (same, m, bs, top, a) b e n =
      let (b', e', red) = fill-IsBalanced f t (same ∙ sym e) m bs b n in
      plug-IsBalanced fs (fill f t) (h + weight f.extra) a b'
        (e' ∙ ap (λ (k : ℕ). k + weight f.extra) e) (rw red (quiet fs f.extra top))

  -- Trees with the same items in the same place.
  pub same-items :
      (fs : Parents A) (t u : Tree A) → items t ≡ items u → items (plug fs t) ≡ items (plug fs u)
  same-items fs t u e =
      walk-plug tree_right fs t
      ∙ ap (λ xs. passed tree_right fs ++ (xs ++ beyond tree_right fs)) e
      ∙ sym (walk-plug tree_right fs u)

  pub set_red-IsBalanced : (t : Tree A) → IsBalanced t → IsBalanced (set_red t false)
  set_red-IsBalanced leaf b = tt
  set_red-IsBalanced (node c l x r) b = ground arith

  pub set_red-items : (t : Tree A) (c : Bool) → items (set_red t c) ≡ items t
  set_red-items leaf c = refl
  set_red-items (node d l x r) c = refl

  pub set_red-black_height :
      (t : Tree A) → is_red t ≡ true → black_height (set_red t false) ≡ suc (black_height t)
  set_red-black_height leaf red = absurd (ground arith)
  set_red-black_height (node true l x r) red = omega arith
  set_red-black_height (node false l x r) red = absurd (ground arith)

  pub set_red-black : (t : Tree A) → is_red (set_red t false) ≡ false
  set_red-black leaf = refl
  set_red-black (node c l x r) = refl

  -- What a place in a red-black tree is like.
  abbrev pub Fits : Parents A → Tree A → Type 0
  Fits fs t =
      Around fs (black_height t) × IsBalanced t × ((is_red t && not (parent_black fs)) ≡ false)

  opened :
      (d : Dir) (c : Bool) (x : A) (s : Tree A) (fs : Parents A) (t : Tree A)
      → let f : Frame A = record { dir = d; extra = c; item = x; sibling = s } in
        Fits fs (fill f t) → Fits (f ∷ fs) t
  opened tree_left c x s fs t (a, (e, m, n, b, b'), top) =
      ((sym e, n, b', top, a), b, turned c (is_red t) m)
  opened tree_right c x s fs t (a, (e, m, n, b, b'), top) =
      ((e, m, b, top, subst (λ (k : ℕ). Around fs (k + weight c)) e a), b', turned c (is_red t) n)

  pub plug-Fits : (fs : Parents A) (t : Tree A) → IsRedBlack (plug fs t) → Fits fs t
  unfolding plug
  plug-Fits [] t (black, b) = (tt, b, ground arith)
  plug-Fits (f ∷ fs) t rb = opened f.dir f.extra f.item f.sibling fs t (plug-Fits fs (fill f t) rb)

pub and_false : (a b : Bool) → b ≡ false → (a && b) ≡ false
and_false true b e = e
and_false false b e = refl
