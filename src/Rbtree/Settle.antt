-- ===== src/Rbtree/Settle.antt =====
-- The body of the loop of `rb_remove`: what it leads to, below a parent whose other child is black.
use libjeffpc.Base.{
  ℕ, suc, ◌+◌, Bool, true, false, not, ◌≡◌, refl, sym, ap, ◌⊎◌, inl, inr, arith, Result, ok,
  append_assoc, Bool-cases,
}
use mathlib.Core.Path.{subst}
use libjeffpc.Tree.{Dir, tree_left, tree_right, Tree, leaf, node, Frame, Parents, fill, plug}
use libjeffpc.Tree.Walk.{items}
use libjeffpc.Rbtree.{is_red, set_red, Settled, done, next, settle}
use libjeffpc.Rbtree.Shape.{weight, black_height, IsBalanced, and_false}

module _ {ℓ} {A : Type ℓ} where
  red_node :
      (t : Tree A) → is_red t ≡ true → (a : Tree A) × (x : A) × (b : Tree A) × (t ≡ node true a x b)
  red_node leaf e = absurd (ground arith)
  red_node (node true a x b) e = (a, x, b, refl)
  red_node (node false a x b) e = absurd (ground arith)

  -- The parent as the next node, one black node short below.
  pub record IsNext (p : Frame A) (t : Tree A) (h : ℕ) (u : Tree A) : Type ℓ where
    pub balanced : IsBalanced (set_red u false)
    pub height : black_height u ≡ h + weight p.extra
    pub red : is_red u ≡ p.extra
    pub next_items : items u ≡ items (fill p t)

  -- The tree at the parent's place, with all its black nodes.
  pub record IsTop (p : Frame A) (t : Tree A) (h : ℕ) (top : Tree A) : Type ℓ where
    pub balanced : IsBalanced top
    pub height : black_height top ≡ suc (h + weight p.extra)
    pub red : is_red top ≡ p.extra
    pub top_items : items top ≡ items (fill p t)

  abbrev pub Ends : Frame A → Parents A → Tree A → ℕ → Result (Settled A) → Type ℓ
  Ends p fs t h r =
      ((u : Tree A) × (r ≡ ok (next u)) × IsNext p t h u)
      ⊎ ((top : Tree A) × (r ≡ ok (done (plug fs top))) × IsTop p t h top)

  module _ (c : Bool) (px : A) (fs : Parents A) (t : Tree A) (h : ℕ) (black : is_red t ≡ false)
      (bt : IsBalanced t) (ht : black_height t ≡ h) where
    abbrev left_of : Tree A → Frame A
    left_of s = record { dir = tree_left; extra = c; item = px; sibling = s }

    left_outer :
        (l : Tree A) (x : A) (a : Tree A) (y : A) (b : Tree A)
        → black_height l ≡ h
        → black_height a ≡ h
        → IsBalanced l
        → IsBalanced (node true a y b)
        → let s : Tree A = node false l x (node true a y b) in
          Ends (left_of s) fs t h (settle (left_of s) fs t)
    unfolding settle
    left_outer l x a y b hn ha bn bo = inr (
      node c (node false t px l) x (node false a y b),
      rw (and_false (not (is_red l)) false refl) refl,
      record {
        balanced = ground arith;
        height = ground arith;
        red = refl;
        top_items = simp append_assoc;
      },
    )

    left_inner :
        (a : Tree A) (y : A) (b : Tree A) (x : A) (r : Tree A)
        → is_red r ≡ false
        → black_height a ≡ h
        → black_height r ≡ h
        → IsBalanced (node true a y b)
        → IsBalanced r
        → let s : Tree A = node false (node true a y b) x r in
          Ends (left_of s) fs t h (settle (left_of s) fs t)
    unfolding settle
    left_inner a y b x r quiet_outer ha ho bi bo = inr (
      node c (node false t px a) y (node false b x r),
      rw quiet_outer refl,
      record {
        balanced = ground arith;
        height = ground arith;
        red = refl;
        top_items = simp append_assoc;
      },
    )

    settle_left :
        (l : Tree A) (x : A) (r : Tree A)
        → black_height l ≡ h
        → black_height r ≡ h
        → IsBalanced l
        → IsBalanced r
        → let s : Tree A = node false l x r in Ends (left_of s) fs t h (settle (left_of s) fs t)
    unfolding settle
    settle_left l x r hl hr bl br = elim (Bool-cases (is_red r)) [
      | inl outer ↦
          let (a, y, b, e) = red_node r outer in
          let ha : black_height a ≡ h = omega (arith, ap black_height e, hr) in
          subst
            (λ u.
              let s : Tree A = node false l x u in
              Ends (left_of s) fs t h (settle (left_of s) fs t))
            (sym e) (left_outer l x a y b hl ha bl (subst IsBalanced e br))
      | inr quiet_outer ↦ elim (Bool-cases (is_red l)) [
        | inl inner ↦
            let (a, y, b, e) = red_node l inner in
            let ha : black_height a ≡ h = omega (arith, ap black_height e, hl) in
            subst
              (λ u.
                let s : Tree A = node false u x r in
                Ends (left_of s) fs t h (settle (left_of s) fs t))
              (sym e) (left_inner a y b x r quiet_outer ha hr (subst IsBalanced e bl) br)
        | inr quiet_inner ↦ inl (
          node c t px (node true l x r),
          rw (quiet_inner, quiet_outer) refl,
          record {
            balanced = ground arith;
            height = ground (arith, ap (λ (k : ℕ). k + weight c) ht);
            red = refl;
            next_items = refl;
          },
        )
      ]
    ]

    abbrev right_of : Tree A → Frame A
    right_of s = record { dir = tree_right; extra = c; item = px; sibling = s }

    right_outer :
        (r : Tree A) (x : A) (a : Tree A) (y : A) (b : Tree A)
        → black_height r ≡ h
        → black_height a ≡ h
        → IsBalanced r
        → IsBalanced (node true a y b)
        → let s : Tree A = node false (node true a y b) x r in
          Ends (right_of s) fs t h (settle (right_of s) fs t)
    unfolding settle
    right_outer r x a y b hn ha bn bo = inr (
      node c (node false a y b) x (node false r px t),
      rw (and_false (not (is_red r)) false refl) refl,
      record {
        balanced = ground arith;
        height = ground arith;
        red = refl;
        top_items = simp append_assoc;
      },
    )

    right_inner :
        (a : Tree A) (y : A) (b : Tree A) (x : A) (l : Tree A)
        → is_red l ≡ false
        → black_height a ≡ h
        → black_height l ≡ h
        → IsBalanced (node true a y b)
        → IsBalanced l
        → let s : Tree A = node false l x (node true a y b) in
          Ends (right_of s) fs t h (settle (right_of s) fs t)
    unfolding settle
    right_inner a y b x l quiet_outer ha ho bi bo = inr (
      node c (node false l x a) y (node false b px t),
      rw (quiet_outer) refl,
      record {
        balanced = ground arith;
        height = ground arith;
        red = refl;
        top_items = simp append_assoc;
      },
    )

    settle_right :
        (l : Tree A) (x : A) (r : Tree A)
        → black_height l ≡ h
        → black_height r ≡ h
        → IsBalanced l
        → IsBalanced r
        → let s : Tree A = node false l x r in Ends (right_of s) fs t h (settle (right_of s) fs t)
    unfolding settle
    settle_right l x r hl hr bl br = elim (Bool-cases (is_red l)) [
      | inl outer ↦
          let (a, y, b, e) = red_node l outer in
          let ha : black_height a ≡ h = omega (arith, ap black_height e, hl) in
          subst
            (λ u.
              let s : Tree A = node false u x r in
              Ends (right_of s) fs t h (settle (right_of s) fs t))
            (sym e) (right_outer r x a y b hr ha br (subst IsBalanced e bl))
      | inr quiet_outer ↦ elim (Bool-cases (is_red r)) [
        | inl inner ↦
            let (a, y, b, e) = red_node r inner in
            let ha : black_height a ≡ h = omega (arith, ap black_height e, hr) in
            subst
              (λ u.
                let s : Tree A = node false l x u in
                Ends (right_of s) fs t h (settle (right_of s) fs t))
              (sym e) (right_inner a y b x l quiet_outer ha hl (subst IsBalanced e br) bl)
        | inr quiet_inner ↦ inl (
          node c (node true l x r) px t,
          rw (quiet_inner, quiet_outer) refl,
          record {
            balanced = ground arith;
            height = ground (arith, ap (λ (k : ℕ). k + weight c) ht);
            red = refl;
            next_items = refl;
          },
        )
      ]
    ]

  settle_parts :
      (d : Dir) (c : Bool) (px : A) (s : Tree A) (fs : Parents A) (t : Tree A) (h : ℕ)
      → is_red t ≡ false
      → IsBalanced t
      → black_height t ≡ h
      → is_red s ≡ false
      → black_height s ≡ suc h
      → IsBalanced s
      → let p : Frame A = record { dir = d; extra = c; item = px; sibling = s } in
        Ends p fs t h (settle p fs t)
  settle_parts d c px leaf fs t h black bt ht ns hs bs = absurd (omega arith)
  settle_parts d c px (node true l x r) fs t h black bt ht ns hs bs = absurd (ground arith)
  settle_parts tree_left c px (node false l x r) fs t h black bt ht ns hs (e, i, j, bl, br) =
      settle_left c px fs t h black bt ht l x r (omega arith) (omega arith) bl br
  settle_parts tree_right c px (node false l x r) fs t h black bt ht ns hs (e, i, j, bl, br) =
      settle_right c px fs t h black bt ht l x r (omega arith) (omega arith) bl br

  pub settle-Ends :
      (p : Frame A) (fs : Parents A) (t : Tree A) (h : ℕ)
      → is_red t ≡ false
      → IsBalanced t
      → black_height t ≡ h
      → is_red p.sibling ≡ false
      → black_height p.sibling ≡ suc h
      → IsBalanced p.sibling
      → Ends p fs t h (settle p fs t)
  settle-Ends p fs t h black bt ht ns hs bs =
      settle_parts p.dir p.extra p.item p.sibling fs t h black bt ht ns hs bs
