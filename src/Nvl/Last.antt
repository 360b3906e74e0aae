-- ===== src/Nvl/Last.antt =====
-- A pair that is put behind all others.
use libjeffpc.Base.{
  ℕ, Bool, List, [], ◌∷◌, ◌++◌, ◌≡◌, ◌≢◌, inl, inr, refl, sym, ap, ◌∙◌, All, append-nil, ok,
}
use Prim.Native.Nat.Ordering.{lt, eq, gt}
use mathlib.Core.Path.{subst}
use libjeffpc.Val.{Val, strcmp}
use libjeffpc.Val.Compare.{strcmp_same, strcmp_refl, strcmp-IsLawful}
use libjeffpc.Tree.{tree_right}
use libjeffpc.Tree.Walk.{items, walk, passed, beyond}
use libjeffpc.Tree.Search.{Less, Sorted, Sorted-split, All-split}
use libjeffpc.Rbtree.{rb_add}
use libjeffpc.Rbtree.Insert.{IsRbTree, rb_insert_here-Inserted}
use libjeffpc.Rbtree.Replace.{items-plug}
use libjeffpc.Nvl.{NvPair, Nvlist, val_nvl_cmp, enough, do_nvl_set, nvl_set_pair}
use libjeffpc.Nvl.Names.{val_nvl_cmp-IsLawful}
use libjeffpc.Nvl.Lookup.{find-Found}

module _ (name : List ℕ) (v : Val) where
  abbrev Before : List NvPair → Type 0
  Before ps = All (λ p. Less val_nvl_cmp p (name, v)) ps

  -- None of them has the name.
  not_there :
      (pre : List NvPair) (x : NvPair) (post : List NvPair)
      → Before (pre ++ x ∷ post)
      → strcmp name x.0 ≢ eq
  not_there pre x post low e =
      let less = (All-split (λ p. Less val_nvl_cmp p (name, v)) pre (x ∷ post) low).1.0 in
      let same = strcmp_same name x.0 e in
      let clash : lt ≡ eq = sym less ∙ ap (λ k. strcmp x.0 k) same ∙ strcmp_refl x.0 in cc

  nothing_behind :
      (pre post : List NvPair)
      → Before (pre ++ post)
      → Sorted val_nvl_cmp (pre ++ (name, v) ∷ post)
      → post ≡ []
  nothing_behind pre [] low s = refl
  nothing_behind pre (x ∷ post) low s =
      let less = (All-split (λ p. Less val_nvl_cmp p (name, v)) pre (x ∷ post) low).1.0 in
      let more = (Sorted-split val_nvl_cmp pre (name, v) (x ∷ post) s).1.0 in
      let clash : lt ≡ gt = sym more ∙ strcmp-IsLawful.gt_of_lt x.0 name less in absurd (cc)

  pub nvl_set_pair-last :
      (extra : Bool) (t : Nvlist)
      → IsRbTree val_nvl_cmp t
      → Before (items t.root)
      → (t' : Nvlist) × (nvl_set_pair (enough extra) t (name, v) ≡ ok t')
        × IsRbTree val_nvl_cmp t'
        × (items t'.root ≡ items t.root ++ (name, v) ∷ [])
  unfolding nvl_set_pair rb_add
  nvl_set_pair-last extra t w low = elim (find-Found t name w) [
    | inl (fs, c, l, x, r, e, same, at) ↦
        let pre = passed tree_right fs ++ walk tree_right l in
        let post = walk tree_right r ++ beyond tree_right fs in
        let old : items t.root ≡ pre ++ x ∷ post = ap items (sym at) ∙ items-plug fs c l x r in
        absurd (not_there pre x post (subst Before old low) same)
    | inr (pre, post, e, old, less, more) ↦
        elim (rb_insert_here-Inserted val_nvl_cmp val_nvl_cmp-IsLawful t extra (name, v) w) [
          | inl (x, before, after, f, same, whole) ↦
              absurd (not_there before x after (subst Before whole low) same)
          | inr (t', f, w', put) ↦
              let last =
                nothing_behind put.pre put.post (subst Before put.old_is low)
                  (subst (Sorted val_nvl_cmp) put.new_is put.sorted) in
              let front : items t.root ≡ put.pre =
                put.old_is ∙ ap (λ xs. put.pre ++ xs) last ∙ append-nil put.pre in
              (
                t',
                rw (nvl_set_pair, do_nvl_set, e, rb_add, f) refl,
                w',
                put.new_is
                    ∙ ap (λ xs. put.pre ++ (name, v) ∷ xs) last
                    ∙ ap (λ xs. xs ++ (name, v) ∷ []) (sym front),
              )
        ]
  ]
