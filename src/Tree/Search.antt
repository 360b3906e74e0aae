-- ===== src/Tree/Search.antt =====
-- `tree_find` and `tree_insert_here` on a tree whose items are in order.
use libjeffpc.Base.{
  Bool, List, [], ◌∷◌, ◌++◌, ◌≡◌, ◌⊎◌, inl, inr, refl, sym, ap, ◌∙◌, append_assoc, All, All-append,
}
use Prim.Native.Nat.{Ordering}
use Prim.Native.Nat.Ordering.{lt, eq, gt}
use mathlib.Core.Path.{subst}
use libjeffpc.Tree.{
  tree_left, tree_right, Tree, leaf, node, Frame, Parents, plug, Found, found, missing, find_loop,
  tree_find, TreeTree,
}
use libjeffpc.Tree.Walk.{walk, items, passed, beyond, walk-plug}

-- What is asked of a comparison: it is antisymmetric and transitive.
pub record IsLawful {ℓ} {A : Type ℓ} (cmp : A → A → Ordering) : Type ℓ where
  pub lt_of_gt : (a b : A) → cmp a b ≡ gt → cmp b a ≡ lt
  pub gt_of_lt : (a b : A) → cmp a b ≡ lt → cmp b a ≡ gt
  pub lt_trans : (a b c : A) → cmp a b ≡ lt → cmp b c ≡ lt → cmp a c ≡ lt

pub Ordering-cases : (o : Ordering) → (o ≡ lt) ⊎ (o ≡ eq) ⊎ (o ≡ gt)
Ordering-cases lt = inl refl
Ordering-cases eq = inr (inl refl)
Ordering-cases gt = inr (inr refl)

pub All-imp {ℓ κ μ} :
    {A : Type ℓ} (P : A → Type κ) (Q : A → Type μ) (f : (x : A) → P x → Q x) (xs : List A)
    → All P xs
    → All Q xs
All-imp P Q f [] h = tt
All-imp P Q f (x ∷ xs) h = (f x h.0, All-imp P Q f xs h.1)

pub All-split {ℓ κ} :
    {A : Type ℓ} (P : A → Type κ) (xs ys : List A) → All P (xs ++ ys) → All P xs × All P ys
All-split P [] ys h = (tt, h)
All-split P (x ∷ xs) ys h = let (a, b) = All-split P xs ys h.1 in ((h.0, a), b)

module _ {ℓ} {A : Type ℓ} (cmp : A → A → Ordering) where
  abbrev pub Less : A → A → Type 0
  Less a b = cmp a b ≡ lt

  abbrev pub Sorted : List A → Type 0
  Sorted [] = Unit
  Sorted (x ∷ xs) = All (λ y. Less x y) xs × Sorted xs

  -- An item of a sorted list lies between those before it and those behind it.
  pub Sorted-split :
      (pre : List A) (x : A) (post : List A)
      → Sorted (pre ++ x ∷ post)
      → All (λ y. Less y x) pre × All (λ y. Less x y) post
  Sorted-split [] x post s = (tt, s.0)
  Sorted-split (a ∷ pre) x post s =
      let (low, high) = Sorted-split pre x post s.1 in
      let rest = All-split (λ y. Less a y) pre (x ∷ post) s.0 in ((rest.1.0, low), high)

  pub Sorted-insert :
      (pre : List A) (x : A) (post : List A)
      → Sorted (pre ++ post)
      → All (λ y. Less y x) pre
      → All (λ y. Less x y) post
      → Sorted (pre ++ x ∷ post)
  Sorted-insert [] x post s low high = (high, s)
  Sorted-insert (a ∷ pre) x post s low high =
      let rest = All-split (λ y. Less a y) pre post s.0 in
      (
        All-append (λ y. Less a y) pre (x ∷ post) rest.0 (low.0, rest.1),
        Sorted-insert pre x post s.1 low.1 high,
      )

  pub Sorted-remove :
      (pre : List A) (x : A) (post : List A) → Sorted (pre ++ x ∷ post) → Sorted (pre ++ post)
  Sorted-remove [] x post s = s.1
  Sorted-remove (a ∷ pre) x post s =
      let rest = All-split (λ y. Less a y) pre (x ∷ post) s.0 in
      (All-append (λ y. Less a y) pre post rest.0 rest.1.1, Sorted-remove pre x post s.1)

  -- A search for `key` in `root` found an item that compares equal, or the place between the items
  -- that are less and those that are greater.
  abbrev pub Searched : A → Tree A → Found A → Type ℓ
  Searched key root r =
      ((x : A) × (pre : List A) × (post : List A) × (r ≡ found x)
        × (cmp key x ≡ eq)
        × (items root ≡ pre ++ x ∷ post))
      ⊎ ((path : Parents A) × (r ≡ missing path)
          × (plug path leaf ≡ root)
          × All (λ y. Less y key) (passed tree_right path)
          × All (λ y. Less key y) (beyond tree_right path))

  module _ (lawful : IsLawful cmp) (key : A) where
    -- The items on both sides of a key, seen from a place in the tree.
    abbrev pub Bounded : Parents A → Type 0
    Bounded fs =
        All (λ y. Less y key) (passed tree_right fs) × All (λ y. Less key y) (beyond tree_right fs)

    module _ (fs : Parents A) (c : Bool) (l : Tree A) (x : A) (r : Tree A)
        (s : Sorted (items (plug fs (node c l x r)))) (bounds : Bounded fs) where
      pub here_whole :
          items (plug fs (node c l x r))
          ≡ (passed tree_right fs ++ walk tree_right l)
            ++ x ∷ (walk tree_right r ++ beyond tree_right fs)
      here_whole = walk-plug tree_right fs (node c l x r) ∙ simp append_assoc

      pub left-Bounded :
          Less key x → Bounded (record { dir = tree_left; extra = c; item = x; sibling = r } ∷ fs)
      left-Bounded e =
          let pre = passed tree_right fs ++ walk tree_right l in
          let post = walk tree_right r ++ beyond tree_right fs in
          let (less, more) = Sorted-split pre x post (subst Sorted here_whole s) in
          (
            All-append (λ y. Less y key) (passed tree_right fs) [] bounds.0 tt,
            (
              e,
              All-imp (λ y. Less x y) (λ y. Less key y) (λ y h. lawful.lt_trans key x y e h) post
                  more,
            ),
          )

      pub right-Bounded :
          cmp key x ≡ gt
          → Bounded (record { dir = tree_right; extra = c; item = x; sibling = l } ∷ fs)
      right-Bounded e =
          let pre = passed tree_right fs ++ walk tree_right l in
          let post = walk tree_right r ++ beyond tree_right fs in
          let (less, more) = Sorted-split pre x post (subst Sorted here_whole s) in
          let under : Less x key = lawful.lt_of_gt key x e in
          (
            All-append (λ y. Less y key) (passed tree_right fs) (walk tree_right l ++ x ∷ [])
                bounds.0
                (All-append (λ y. Less y key) (walk tree_right l) (x ∷ [])
                  (All-imp (λ y. Less y x) (λ y. Less y key)
                    (λ y h. lawful.lt_trans y x key h under) (walk tree_right l)
                    (All-split (λ y. Less y x) (passed tree_right fs) (walk tree_right l) less).1)
                  (under, tt)),
            bounds.1,
          )

    find_loop-Searched :
        (fs : Parents A) (t : Tree A)
        → Sorted (items (plug fs t))
        → Bounded fs
        → Searched key (plug fs t) (find_loop cmp key fs t)
    unfolding find_loop plug
    find_loop-Searched fs leaf s bounds = inr (fs, refl, refl, bounds.0, bounds.1)
    find_loop-Searched fs (node c l x r) s bounds =
        let left : Frame A = record { dir = tree_left; extra = c; item = x; sibling = r } in
        let right : Frame A = record { dir = tree_right; extra = c; item = x; sibling = l } in
        elim (Ordering-cases (cmp key x)) [
          | inl e ↦
              rw (find_loop, e)
                (find_loop-Searched (left ∷ fs) l s (left-Bounded fs c l x r s bounds e))
          | inr (inl e) ↦ rw (find_loop, e) (inl (x, _, _, refl, e, here_whole fs c l x r s bounds))
          | inr (inr e) ↦
              rw (find_loop, e)
                (find_loop-Searched (right ∷ fs) r s (right-Bounded fs c l x r s bounds e))
        ]

    -- For an antisymmetric and transitive comparison: on a tree whose items are in order,
    -- `tree_find` returns an item that compares equal to the key, or NULL and a cookie for the
    -- place in the tree between the items that are less than the key and those that are greater.
    pub tree_find-Searched :
        (tree : TreeTree A)
        → Sorted (items tree.root)
        → Searched key tree.root (tree_find cmp tree key)
    unfolding tree_find plug
    tree_find-Searched tree s = find_loop-Searched [] tree.root s (tt, tt)

  -- The item put in its place between those that are less and those that are greater.
  pub record Inserted (old : List A) (newitem : A) (new : List A) : Type ℓ where
    pub pre : List A
    pub post : List A
    pub old_is : old ≡ pre ++ post
    pub new_is : new ≡ pre ++ newitem ∷ post
    pub sorted : Sorted new

  pub at_cookie-Inserted :
      (root : Tree A) (path : Parents A) (key : A) (new : List A)
      → Sorted (items root)
      → plug path leaf ≡ root
      → All (λ y. Less y key) (passed tree_right path)
      → All (λ y. Less key y) (beyond tree_right path)
      → new ≡ passed tree_right path ++ key ∷ beyond tree_right path
      → Inserted (items root) key new
  at_cookie-Inserted root path key new s e low high is =
      let pre = passed tree_right path in
      let post = beyond tree_right path in
      let old : items root ≡ pre ++ post =
        ap (walk tree_right) (sym e) ∙ walk-plug tree_right path leaf in
      record {
        pre = pre;
        post = post;
        old_is = old;
        new_is = is;
        sorted = subst Sorted (sym is) (Sorted-insert pre key post (subst Sorted old s) low high);
      }
