-- ===== src/Rbtree/FixInsert.antt =====
-- The loop of `rb_insert_here`: it makes up for a red node below a red parent.
use libjeffpc.Base.{
  ℕ, suc, ◌+◌, Bool, true, false, not, ◌&&◌, [], ◌∷◌, ◌≡◌, refl, sym, ap, ◌∙◌, inl, inr, arith,
  Result, ok, append_assoc, Bool-cases,
}
use mathlib.Core.Path.{subst}
use libjeffpc.Tree.{Dir, tree_left, tree_right, Tree, leaf, node, Frame, Parents, fill, plug}
use libjeffpc.Tree.Walk.{items}
use libjeffpc.Rbtree.{is_red, set_red, rotate_up, fix_insert}
use libjeffpc.Rbtree.Shape.{
  weight, black_height, IsBalanced, parent_red, Around, fill-IsBalanced, plug-IsBalanced,
  set_red-IsBalanced, set_red-items, set_red-black_height, set_red-black, and_false, same-items,
}

weights : (c d : Bool) (h : ℕ) → c ≡ true → d ≡ false → h + weight c + weight d ≡ suc h
weights true false h p q = omega arith
weights false d h p q = absurd (ground arith)
weights true true h p q = absurd (ground arith)

black_of : (c d : Bool) → c ≡ true → (c && not (not d)) ≡ false → d ≡ false
black_of true false p q = refl
black_of true true p q = q
black_of false d p q = absurd (ground arith)

root_top : (c : Bool) → c ≡ false → (c && not false) ≡ false
root_top false h = refl
root_top true h = h

child_top : (c d : Bool) → (c && d) ≡ false → (d && not (not c)) ≡ false
child_top true true h = h
child_top true false h = refl
child_top false true h = refl
child_top false false h = refl

weight-red : (c : Bool) (h : ℕ) → c ≡ true → h + weight c ≡ h
weight-red true h p = omega arith
weight-red false h p = absurd (ground arith)

module _ {ℓ} {A : Type ℓ} where
  -- What the rotations put at the place of the grandparent.
  record Turned (g p : Frame A) (t : Tree A) (top : Tree A) : Type ℓ where
    balanced : IsBalanced top
    height : black_height top ≡ suc (black_height t)
    black : is_red top ≡ false
    same_items : items top ≡ items (fill g (fill p t))

  rotate_up_parts :
      (pd gd : Dir) (px gx : A) (ps gs : Tree A) (a : Tree A) (x : A) (b : Tree A)
      → let p : Frame A = record { dir = pd; extra = true; item = px; sibling = ps } in
        let g : Frame A = record { dir = gd; extra = false; item = gx; sibling = gs } in
        let t : Tree A = node true a x b in
        black_height ps ≡ black_height t
        → is_red ps ≡ false
        → IsBalanced ps
        → black_height gs ≡ black_height t
        → is_red gs ≡ false
        → IsBalanced gs
        → IsBalanced t
        → (top : Tree A) × (rotate_up p g t ≡ ok top) × Turned g p t top
  unfolding rotate_up
  rotate_up_parts tree_left tree_left px gx ps gs a x b ep np bp eg ng bg bt = (
    node false (node true a x b) px (node true ps gx gs),
    refl,
    record {
      balanced = ground arith;
      height = omega arith;
      black = refl;
      same_items = simp append_assoc;
    },
  )
  rotate_up_parts tree_right tree_right px gx ps gs a x b ep np bp eg ng bg bt = (
    node false (node true gs gx ps) px (node true a x b),
    refl,
    record {
      balanced = ground arith;
      height = ground arith;
      black = refl;
      same_items = simp append_assoc;
    },
  )
  rotate_up_parts tree_right tree_left px gx ps gs a x b ep np bp eg ng bg bt = (
    node false (node true ps px a) x (node true b gx gs),
    refl,
    record {
      balanced = ground arith;
      height = ground arith;
      black = refl;
      same_items = simp append_assoc;
    },
  )
  rotate_up_parts tree_left tree_right px gx ps gs a x b ep np bp eg ng bg bt = (
    node false (node true gs gx a) x (node true b px ps),
    refl,
    record {
      balanced = ground arith;
      height = ground arith;
      black = refl;
      same_items = simp append_assoc;
    },
  )

  rotate_up_colours :
      (pd gd : Dir) (pc gc tc : Bool) (px gx : A) (ps gs : Tree A) (a : Tree A) (x : A) (b : Tree A)
      → let p : Frame A = record { dir = pd; extra = pc; item = px; sibling = ps } in
        let g : Frame A = record { dir = gd; extra = gc; item = gx; sibling = gs } in
        let t : Tree A = node tc a x b in
        pc ≡ true
        → gc ≡ false
        → tc ≡ true
        → black_height ps ≡ black_height t
        → is_red ps ≡ false
        → IsBalanced ps
        → black_height gs ≡ black_height t
        → is_red gs ≡ false
        → IsBalanced gs
        → IsBalanced t
        → (top : Tree A) × (rotate_up p g t ≡ ok top) × Turned g p t top
  rotate_up_colours pd gd true false true px gx ps gs a x b i j k =
      rotate_up_parts pd gd px gx ps gs a x b
  rotate_up_colours pd gd false gc tc px gx ps gs a x b i j k = absurd (ground arith)
  rotate_up_colours pd gd true true tc px gx ps gs a x b i j k = absurd (ground arith)
  rotate_up_colours pd gd true false false px gx ps gs a x b i j k = absurd (ground arith)

  rotate_up-Turned :
      (p g : Frame A) (t : Tree A)
      → p.extra ≡ true
      → g.extra ≡ false
      → is_red t ≡ true
      → black_height p.sibling ≡ black_height t
      → is_red p.sibling ≡ false
      → IsBalanced p.sibling
      → black_height g.sibling ≡ black_height t
      → is_red g.sibling ≡ false
      → IsBalanced g.sibling
      → IsBalanced t
      → (top : Tree A) × (rotate_up p g t ≡ ok top) × Turned g p t top
  rotate_up-Turned p g leaf pr gb red = absurd (ground arith)
  rotate_up-Turned p g (node c a x b) pr gb red =
      rotate_up_colours p.dir g.dir p.extra g.extra c p.item g.item p.sibling g.sibling a x b pr gb
        red

  pub recolour-items :
      (dir : Dir) (c d : Bool) (x : A) (s s' t u : Tree A)
      → items s ≡ items s'
      → items t ≡ items u
      → let f : Frame A = record { dir = dir; extra = c; item = x; sibling = s } in
        let g : Frame A = record { dir = dir; extra = d; item = x; sibling = s' } in
        items (fill f t) ≡ items (fill g u)
  recolour-items tree_left c d x s s' t u i j = rw (i, j)
  recolour-items tree_right c d x s s' t u i j = rw (i, j)

  -- What the loop leads to: a balanced tree, whose root may be red.
  abbrev Fixed : Parents A → Tree A → Result (Tree A) → Type ℓ
  Fixed fs t r =
      (whole : Tree A) × (r ≡ ok whole) × IsBalanced whole × (items whole ≡ items (plug fs t))

  pub fix_insert-Fixed :
      (fs : Parents A) (t : Tree A) (h : ℕ)
      → Around fs h
      → IsBalanced t
      → black_height t ≡ h
      → is_red t ≡ true
      → Fixed fs t (fix_insert fs t)
  unfolding fix_insert plug
  fix_insert-Fixed [] t h a b e red = (t, refl, b, refl)
  fix_insert-Fixed (p ∷ []) t h a b e red =
      let quiet : (is_red t && p.extra) ≡ false = ground (arith, a.3) in
      (fill p t, rw quiet refl, plug-IsBalanced (p ∷ []) t h a b e (ground (arith, a.3)), refl)
  fix_insert-Fixed (p ∷ g ∷ up) t h a b e red = elim (Bool-cases p.extra) [
    | inr pe ↦
        let quiet : not (is_red t && p.extra) ≡ true = ground arith in
        (
          plug up (fill g (fill p t)),
          rw quiet refl,
          plug-IsBalanced (p ∷ g ∷ up) t h a b e (ground arith),
          refl,
        )
    | inl pe ↦
        let (ep, np, bp, topp, (eg, ng, bg, topg, above)) = a in
        let loud : not (is_red t && p.extra) ≡ false = ground arith in
        let ge = black_of p.extra g.extra pe topp in
        let level = weight-red p.extra h pe in
        let grown = weights p.extra g.extra h pe ge in
        let above' = subst (λ (k : ℕ). Around up k) grown above in
        elim (Bool-cases (is_red g.sibling)) [
          | inl uncle ↦
              let black : Frame A = record p { extra = false } in
              let red : Frame A = record g { extra = true; sibling = set_red g.sibling false } in
              let (b1, e1, n1) = fill-IsBalanced black t (ep ∙ sym e) refl bp b refl in
              let (b2, e2, n2) =
                fill-IsBalanced red (fill black t)
                  (omega (arith, set_red-black_height g.sibling uncle, e1, eg, e, level))
                  (set_red-black g.sibling) (set_red-IsBalanced g.sibling bg) b1 n1 in
              let (whole, r, balanced, same) =
                fix_insert-Fixed up (fill red (fill black t)) (suc h) above' b2
                  (omega (arith, e2, e1, e)) n2 in
              (
                whole,
                rw (loud, uncle) r,
                balanced,
                same
                    ∙ same-items up _ _ (
                        recolour-items g.dir true g.extra g.item (set_red g.sibling false) g.sibling
                          _ _ (set_red-items g.sibling false)
                          (recolour-items p.dir false p.extra p.item p.sibling p.sibling t t refl
                            refl)),
              )
          | inr uncle ↦
              let (top, r, turned) =
                rotate_up-Turned p g t pe ge red (ep ∙ sym e) (rw pe at np) bp
                  (omega (arith, eg, e, level)) uncle bg b in
              (
                plug up top,
                rw (loud, uncle, r) refl,
                plug-IsBalanced up top (suc h) above' turned.balanced (turned.height ∙ ap suc e)
                    (and_false (parent_red up) (is_red top) turned.black),
                same-items up top (fill g (fill p t)) turned.same_items,
              )
        ]
  ]
