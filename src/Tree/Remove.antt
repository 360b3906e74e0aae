-- ===== src/Tree/Remove.antt =====
-- `tree_remove` takes one item out: of the node itself, or, if it has two children, of the place of the
-- first item that is greater, which moves into the node's place.
use libjeffpc.Base.{◌-◌, Bool, [], ◌∷◌, ◌++◌, ◌≡◌, refl, sym, ap, ◌∙◌, ◌⊎◌, inl, inr, append-nil}
use libjeffpc.Tree.{
  tree_left, tree_right, Tree, leaf, node, Frame, Parents, TreeTree, fill, plug, firstlast,
  swap_with, swap_nodes, leafish, take_out, tree_remove,
}
use libjeffpc.Tree.Walk.{walk, items, passed, beyond, walk-plug}

module _ {ℓ} {A : Type ℓ} where
  plug-append : (gs fs : Parents A) (t : Tree A) → plug (gs ++ fs) t ≡ plug fs (plug gs t)
  unfolding plug
  plug-append [] fs t = refl
  plug-append (g ∷ gs) fs t = plug-append gs fs (fill g t)

  -- The way down to the first item leaves everything else behind it.
  record First (gs : Parents A) (t : Tree A) : Type ℓ where
    path : Parents A
    d : Bool
    y : A
    e : Tree A
    goes : firstlast tree_left gs t ≡ (path, node d leaf y e)
    whole : plug path (node d leaf y e) ≡ plug gs t
    left_only : passed tree_right path ≡ passed tree_right gs

  left-First :
      (gs : Parents A) (c : Bool) (l : Tree A) (x : A) (r : Tree A) → First gs (node c l x r)
  unfolding firstlast plug
  left-First gs c leaf x r = record {
    path = gs;
    d = c;
    y = x;
    e = r;
    goes = refl;
    whole = refl;
    left_only = refl;
  }
  left-First gs c (node d a y b) x r =
      let f : Frame A = record { dir = tree_left; extra = c; item = x; sibling = r } in
      let rest = left-First (f ∷ gs) d a y b in
      record {
        path = rest.path;
        d = rest.d;
        y = rest.y;
        e = rest.e;
        goes = rest.goes;
        whole = rest.whole;
        left_only = rest.left_only ∙ append-nil (passed tree_right gs);
      }

  First-rest : (t : Tree A) (f : First [] t) → f.y ∷ items (plug f.path f.e) ≡ items t
  unfolding plug
  First-rest t f =
      ap (λ xs. f.y ∷ xs) (walk-plug tree_right f.path f.e)
      ∙ ap (λ xs. f.y ∷ (xs ++ (walk tree_right f.e ++ beyond tree_right f.path))) f.left_only
      ∙ sym (
          ap (walk tree_right) (sym f.whole)
          ∙ walk-plug tree_right f.path (node f.d leaf f.y f.e)
          ∙ ap (λ xs. xs ++ ((f.y ∷ walk tree_right f.e) ++ beyond tree_right f.path)) f.left_only)

  -- Paths that differ in their items alone.
  abbrev pub SameShape : Parents A → Parents A → Type ℓ
  SameShape [] [] = Unit {ℓ}
  SameShape [] (g ∷ gs) = ◌≡◌ {A = Parents A} [] (g ∷ gs)
  SameShape (f ∷ fs) [] = ◌≡◌ {A = Parents A} (f ∷ fs) []
  SameShape (f ∷ fs) (g ∷ gs) = (f.extra ≡ g.extra) × (f.sibling ≡ g.sibling) × SameShape fs gs

  same_shape : (fs : Parents A) → SameShape fs fs
  same_shape [] = tt
  same_shape (f ∷ fs) = (refl, refl, same_shape fs)

  shape_append :
      (gs fs : Parents A) (f g : Frame A)
      → f.extra ≡ g.extra
      → f.sibling ≡ g.sibling
      → SameShape (gs ++ f ∷ fs) (gs ++ g ∷ fs)
  shape_append [] fs f g e s = (e, s, same_shape fs)
  shape_append (h ∷ gs) fs f g e s = (refl, refl, shape_append gs fs f g e s)

  -- The node that is taken out, and the place that it leaves, where it had one child at most.
  pub record Taken (tree : TreeTree A) (fs : Parents A) (c : Bool) (l : Tree A) (x : A) (r : Tree A)
      : Type ℓ where
    pub parent : Parents A
    pub origin : Parents A
    pub place : Tree A
    pub taken : Tree A
    pub child : Tree A
    pub d : Bool
    pub y : A
    pub removes : tree_remove tree (fs, node c l x r) ≡ (
      record { root = plug parent child; num_nodes = tree.num_nodes - 1 },
      (parent, child),
      taken,
    )
    pub taken_is : (taken ≡ node d leaf x child) ⊎ (taken ≡ node d child x leaf)
    pub place_is : (place ≡ node d leaf y child) ⊎ (place ≡ node d child y leaf)
    pub at_origin : plug origin place ≡ plug fs (node c l x r)
    pub shape : SameShape origin parent
    pub left_items :
        items (plug parent child)
        ≡ passed tree_right fs ++ ((walk tree_right l ++ walk tree_right r) ++ beyond tree_right fs)

  pub tree_remove-Taken :
      (tree : TreeTree A) (fs : Parents A) (c : Bool) (l : Tree A) (x : A) (r : Tree A)
      → Taken tree fs c l x r
  unfolding tree_remove leafish swap_nodes plug
  tree_remove-Taken tree fs c leaf x r = record {
    parent = fs;
    origin = fs;
    place = node c leaf x r;
    taken = node c leaf x r;
    child = r;
    d = c;
    y = x;
    removes = refl;
    taken_is = inl refl;
    place_is = inl refl;
    at_origin = refl;
    shape = same_shape fs;
    left_items = walk-plug tree_right fs r;
  }
  tree_remove-Taken tree fs c (node b1 l1 x1 r1) x leaf = record {
    parent = fs;
    origin = fs;
    place = node c (node b1 l1 x1 r1) x leaf;
    taken = node c (node b1 l1 x1 r1) x leaf;
    child = node b1 l1 x1 r1;
    d = c;
    y = x;
    removes = refl;
    taken_is = inr refl;
    place_is = inr refl;
    at_origin = refl;
    shape = same_shape fs;
    left_items = walk-plug tree_right fs (node b1 l1 x1 r1) ∙ simp append-nil;
  }
  tree_remove-Taken tree fs c (node b1 l1 x1 r1) x (node b2 l2 x2 r2) =
      let l = node b1 l1 x1 r1 in
      let r = node b2 l2 x2 r2 in
      let f = left-First [] b2 l2 x2 r2 in
      let old : Frame A = record { dir = tree_right; extra = c; item = x; sibling = l } in
      let new : Frame A = record { dir = tree_right; extra = c; item = f.y; sibling = l } in
      record {
        parent = f.path ++ new ∷ fs;
        origin = f.path ++ old ∷ fs;
        place = node f.d leaf f.y f.e;
        taken = node f.d leaf x f.e;
        child = f.e;
        d = f.d;
        y = f.y;
        removes = ap (λ at. take_out tree (swap_with fs c l x r at)) f.goes;
        taken_is = inl refl;
        place_is = inl refl;
        at_origin =
            plug-append f.path (old ∷ fs) (node f.d leaf f.y f.e) ∙ ap (plug (old ∷ fs)) f.whole;
        shape = shape_append f.path fs old new refl refl;
        left_items =
            ap (walk tree_right) (plug-append f.path (new ∷ fs) f.e)
            ∙ walk-plug tree_right fs (fill new (plug f.path f.e))
            ∙ ap (λ xs. passed tree_right fs ++ ((walk tree_right l ++ xs) ++ beyond tree_right fs))
                (First-rest r f);
      }
