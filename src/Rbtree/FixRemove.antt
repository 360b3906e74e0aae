-- ===== src/Rbtree/FixRemove.antt =====
-- The loop of `rb_remove`: it makes up for a black node that is missing.
use libjeffpc.Base.{
  ℕ, suc, ◌+◌, Bool, true, false, not, ◌&&◌, some, [], ◌∷◌, ◌≡◌, refl, ap, ◌∙◌, inl, inr, arith,
  Result, ok, append_assoc, Bool-cases,
}
use mathlib.Core.Path.{subst}
use libjeffpc.Tree.{Dir, tree_left, tree_right, Tree, leaf, node, Frame, Parents, fill, plug}
use libjeffpc.Tree.Walk.{items}
use libjeffpc.Rbtree.{is_red, set_red, above_red, fix_remove}
use libjeffpc.Rbtree.Shape.{
  weight, black_height, IsBalanced, IsRedBlack, Around, plug-IsBalanced, same-items, quiet,
  set_red-IsBalanced, set_red-items, set_red-black_height, set_red-black, and_false,
}
use libjeffpc.Rbtree.Settle.{settle-Ends}

no_parent : (c : Bool) → (c && not false) ≡ false → c ≡ false
no_parent true h = h
no_parent false h = refl

module _ {ℓ} {A : Type ℓ} where
  -- What the loop leads to: a red-black tree with the items that there were.
  abbrev pub Fixed : Parents A → Tree A → Result (Tree A) → Type ℓ
  Fixed fs t r =
      (whole : Tree A) × (r ≡ ok whole) × IsRedBlack whole × (items whole ≡ items (plug fs t))

  whole-Fixed :
      (fs : Parents A) (t whole : Tree A)
      → IsBalanced whole
      → items whole ≡ items (plug fs t)
      → Fixed fs t (ok (set_red whole false))
  whole-Fixed fs t whole b same = (
    set_red whole false,
    refl,
    (set_red-black whole, set_red-IsBalanced whole b),
    set_red-items whole false ∙ same,
  )

  fill_red_parts :
      (d : Dir) (c : Bool) (x : A) (s t : Tree A)
      → let f : Frame A = record { dir = d; extra = c; item = x; sibling = s } in
        is_red (fill f t) ≡ c
  fill_red_parts tree_left c x s t = refl
  fill_red_parts tree_right c x s t = refl

  fill-red : (f : Frame A) (t : Tree A) → is_red (fill f t) ≡ f.extra
  fill-red f t = fill_red_parts f.dir f.extra f.item f.sibling t

  -- The root is black, as it has no black parent.
  pub root-black :
      (f : Frame A) (fs : Parents A) (t : Tree A) (h : ℕ)
      → Around (f ∷ fs) h
      → is_red (plug (f ∷ fs) t) ≡ false
  unfolding plug
  root-black f [] t h a = fill-red f t ∙ no_parent f.extra a.3
  root-black f (g ∷ fs) t h a = root-black g fs (fill f t) (h + weight f.extra) a.4

  -- A black node put at the place.
  placed-Fixed :
      (f : Frame A) (fs : Parents A) (t u : Tree A) (h : ℕ)
      → Around (f ∷ fs) h
      → IsBalanced u
      → is_red u ≡ false
      → black_height u ≡ h
      → items u ≡ items t
      → Fixed (f ∷ fs) t (ok (plug (f ∷ fs) u))
  placed-Fixed f fs t u h a b black e same = (
    plug (f ∷ fs) u,
    refl,
    (
      root-black f fs u h a,
      plug-IsBalanced (f ∷ fs) u h a b e (and_false f.extra (is_red u) black),
    ),
    same-items (f ∷ fs) u t same,
  )

  set_red-same : (t : Tree A) → is_red t ≡ false → set_red t false ≡ t
  set_red-same leaf e = refl
  set_red-same (node true l x r) e = absurd (ground arith)
  set_red-same (node false l x r) e = refl

  Fixed-from :
      (fs gs : Parents A) (t u : Tree A) (r : Result (Tree A))
      → items (plug fs t) ≡ items (plug gs u)
      → Fixed fs t r
      → Fixed gs u r
  Fixed-from fs gs t u r e (whole, ends, shape, same) = (whole, ends, shape, same ∙ e)

  -- A red sibling is rotated up.
  record Lifted (p : Frame A) (fs : Parents A) (t : Tree A) (h : ℕ) : Type ℓ where
    p' : Frame A
    s : Frame A
    lifts : above_red p ≡ some (p', s)
    around : Around (p' ∷ s ∷ fs) h
    red : p'.extra ≡ true
    black : is_red p'.sibling ≡ false
    same : items (fill s (fill p' t)) ≡ items (fill p t)

  parts-Lifted :
      (d : Dir) (c : Bool) (px : A) (s : Tree A) (fs : Parents A) (t : Tree A) (h : ℕ)
      → is_red s ≡ true
      → let p : Frame A = record { dir = d; extra = c; item = px; sibling = s } in
        Around (p ∷ fs) h → Lifted p fs t h
  unfolding above_red
  parts-Lifted d c px leaf fs t h red a = absurd (ground arith)
  parts-Lifted d c px (node false l x r) fs t h red a = absurd (ground arith)
  parts-Lifted d true px (node true l x r) fs t h red a = absurd (ground (arith, a.1))
  parts-Lifted tree_left false px (node true l x r) fs t h red
        (e, n, (hs, nl, nr, bl, br), top, a) =
      record {
        p' = record { dir = tree_left; extra = true; item = px; sibling = l };
        s = record { dir = tree_left; extra = false; item = x; sibling = r };
        lifts = refl;
        around = (
          omega arith,
          nl,
          bl,
          refl,
          (omega arith, refl, br, refl, subst (λ (k : ℕ). Around fs k) (omega arith) a),
        );
        red = refl;
        black = nl;
        same = simp append_assoc;
      }
  parts-Lifted tree_right false px (node true l x r) fs t h red
        (e, n, (hs, nl, nr, bl, br), top, a) =
      record {
        p' = record { dir = tree_right; extra = true; item = px; sibling = r };
        s = record { dir = tree_right; extra = false; item = x; sibling = l };
        lifts = refl;
        around = (
          omega arith,
          nr,
          br,
          refl,
          (omega arith, refl, bl, refl, subst (λ (k : ℕ). Around fs k) (omega arith) a),
        );
        red = refl;
        black = nr;
        same = simp append_assoc;
      }

  lifted :
      (p : Frame A) (fs : Parents A) (t : Tree A) (h : ℕ)
      → is_red p.sibling ≡ true
      → Around (p ∷ fs) h
      → Lifted p fs t h
  lifted p fs t h = parts-Lifted p.dir p.extra p.item p.sibling fs t h

  pub fix_remove-Fixed :
      (fs : Parents A) (t : Tree A) (h : ℕ)
      → Around fs (suc h)
      → IsBalanced (set_red t false)
      → black_height t ≡ h
      → Fixed fs t (fix_remove fs t)
  unfolding fix_remove plug
  fix_remove-Fixed [] t h a b e =
      (set_red t false, refl, (set_red-black t, b), set_red-items t false)
  fix_remove-Fixed (p ∷ fs) t h a b e = elim (Bool-cases (is_red t)) [
    | inl red ↦
        rw (fix_remove, red)
          (placed-Fixed p fs t (set_red t false) (suc h) a b (set_red-black t)
            (set_red-black_height t red ∙ ap suc e) (set_red-items t false))
    | inr black ↦
        let bt = subst IsBalanced (set_red-same t black) b in
        elim (Bool-cases (is_red p.sibling)) [
          | inl red ↦
              let l = lifted p fs t (suc h) red a in
              let below = l.p' in
              let turned = same-items fs (fill l.s (fill below t)) (fill p t) l.same in
              let above : Around (l.s ∷ fs) (suc (h + weight below.extra)) =
                subst (λ (k : ℕ). Around (l.s ∷ fs) k) (omega arith) l.around.4 in
              elim (settle-Ends below (l.s ∷ fs) t h black bt e l.black l.around.0 l.around.2) [
                | inl (u, ends, n) ↦
                    rw (fix_remove, black, red, l.lifts, ends)
                      (Fixed-from (l.s ∷ fs) (p ∷ fs) (fill below t) t _ turned (
                        placed-Fixed l.s fs (fill below t) (set_red u false)
                          (suc (h + weight below.extra)) above n.balanced (set_red-black u)
                          (set_red-black_height u (n.red ∙ l.red) ∙ ap suc n.height)
                          (set_red-items u false ∙ n.next_items)))
                | inr (top, ends, n) ↦
                    rw (fix_remove, black, red, l.lifts, ends)
                      (whole-Fixed (p ∷ fs) t (plug (l.s ∷ fs) top)
                        (plug-IsBalanced (l.s ∷ fs) top (suc (h + weight below.extra)) above
                          n.balanced n.height (rw n.red (quiet (l.s ∷ fs) below.extra l.around.3)))
                        (same-items (l.s ∷ fs) top (fill below t) n.top_items ∙ turned))
              ]
          | inr quiet_sibling ↦
              let above : Around fs (suc (h + weight p.extra)) =
                subst (λ (k : ℕ). Around fs k) (omega arith) a.4 in
              elim (settle-Ends p fs t h black bt e quiet_sibling a.0 a.2) [
                | inl (u, ends, n) ↦
                    rw (fix_remove, black, quiet_sibling, ends)
                      (Fixed-from fs (p ∷ fs) u t (fix_remove fs u)
                        (same-items fs u (fill p t) n.next_items)
                        (fix_remove-Fixed fs u (h + weight p.extra) above n.balanced n.height))
                | inr (top, ends, n) ↦
                    rw (fix_remove, black, quiet_sibling, ends)
                      (whole-Fixed (p ∷ fs) t (plug fs top)
                        (plug-IsBalanced fs top (suc (h + weight p.extra)) above n.balanced n.height
                          (rw n.red (quiet fs p.extra a.3)))
                        (same-items fs top (fill p t) n.top_items))
              ]
        ]
  ]
