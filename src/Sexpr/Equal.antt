-- ===== src/Sexpr/Equal.antt =====
-- What `sexpr_equal` decides.
use libjeffpc.Base.{
  ℕ, ◌==◌, ==_iff, Bool, true, false, ◌&&◌, List, [], ◌∷◌, ◌≡◌, ◌↔◌, ◌⊎◌, inl, inr, refl, sym, ap,
  ◌∙◌, arith, length,
}
use mathlib.Core.Path.{subst}
use libjeffpc.Val.{
  Val, null_pointer, null, int, char, str, sym as sym_val, blob, bool, cons, array, nvl, Vals,
  no_vals, elem, Pairs, no_pairs, pair, is_pointer_null, strcmp, is_eq,
}
use libjeffpc.Val.Compare.{strcmp_same, strcmp_refl}
use libjeffpc.Sexpr.{sexpr_is_null, sexpr_equal, equal_vals, equal_pairs, same_bytes}

and_parts : (a b : Bool) → (a && b) ≡ true → (a ≡ true) × (b ≡ true)
and_parts true b h = (refl, h)
and_parts false b h = absurd (ground arith)

same_text : (a b : List ℕ) → is_eq (strcmp a b) ≡ true → a ≡ b
same_text a b h = strcmp_same a b (ground (arith, h))

same_block : (a b : List ℕ) → same_bytes a b ≡ true → a ≡ b
same_block [] [] h = refl
same_block [] (b ∷ ys) h = absurd (ground arith)
same_block (a ∷ xs) [] h = absurd (ground arith)
same_block (a ∷ xs) (b ∷ ys) h =
    let (e, r) = and_parts (a == b) (same_bytes xs ys) h in
    let first = (==_iff a b).0 e in let rest = same_block xs ys r in cc

same_bytes_refl : (a : List ℕ) → same_bytes a a ≡ true
same_bytes_refl [] = refl
same_bytes_refl (a ∷ xs) = rw ((==_iff a a).1 refl, same_bytes_refl xs) refl

mutual
  unfolding sexpr_equal

  equal_refl : (v : Val) → sexpr_equal v v ≡ true
  equal_refl null_pointer = refl
  equal_refl null = refl
  equal_refl (int i) = (==_iff i i).1 refl
  equal_refl (char i) = (==_iff i i).1 refl
  equal_refl (str s) = rw (strcmp_refl s) refl
  equal_refl (sym_val s) = rw (strcmp_refl s) refl
  equal_refl (blob s) = rw ((==_iff (length s) (length s)).1 refl) (same_bytes_refl s)
  equal_refl (bool true) = refl
  equal_refl (bool false) = refl
  equal_refl (cons h t) = rw (equal_refl h) (equal_refl t)
  equal_refl (array vs) = vals_refl vs
  equal_refl (nvl ps) = pairs_refl ps

  vals_refl : (vs : Vals) → equal_vals vs vs ≡ true
  vals_refl no_vals = refl
  vals_refl (elem v vs) = rw (equal_refl v) (vals_refl vs)

  pairs_refl : (ps : Pairs) → equal_pairs ps ps ≡ true
  pairs_refl no_pairs = refl
  pairs_refl (pair n v ps) = rw (strcmp_refl n, equal_refl v) (pairs_refl ps)

-- No empty list is written as a cell of its own inside of the value.
unfoldable mutual
  pub IsPlain : Val → Type 0
  IsPlain (cons h t) =
      (sexpr_is_null h ≡ is_pointer_null h)
      × (sexpr_is_null t ≡ is_pointer_null t)
      × IsPlain h
      × IsPlain t
  IsPlain (array vs) = PlainVals vs
  IsPlain (nvl ps) = PlainPairs ps
  IsPlain v = Unit

  pub PlainVals : Vals → Type 0
  PlainVals no_vals = Unit
  PlainVals (elem v vs) = (sexpr_is_null v ≡ is_pointer_null v) × IsPlain v × PlainVals vs

  pub PlainPairs : Pairs → Type 0
  PlainPairs no_pairs = Unit
  PlainPairs (pair n v ps) = (sexpr_is_null v ≡ is_pointer_null v) × IsPlain v × PlainPairs ps

only_null :
    (v : Val) → sexpr_is_null v ≡ is_pointer_null v → sexpr_is_null v ≡ true → v ≡ null_pointer
only_null null_pointer p h = refl
only_null (cons a b) p h = absurd (ground (arith, p, h))
only_null v p h = absurd (ground arith)

-- The same value, or two empty lists.
abbrev pub Same : Val → Val → Type 0
Same v w = (v ≡ w) ⊎ ((sexpr_is_null v ≡ true) × (sexpr_is_null w ≡ true))

-- Inside of a plain value, an empty list is NULL.
inner :
    (v w : Val)
    → sexpr_is_null v ≡ is_pointer_null v
    → sexpr_is_null w ≡ is_pointer_null w
    → Same v w
    → v ≡ w
inner v w p q (inl e) = e
inner v w p q (inr (a, b)) = only_null v p a ∙ sym (only_null w q b)

mutual
  unfolding sexpr_equal IsPlain

  equal_means : (v w : Val) → IsPlain v → IsPlain w → sexpr_equal v w ≡ true → Same v w
  equal_means null_pointer w p q h = inr (refl, h)
  equal_means (cons a b) null_pointer p q h = inr (h, refl)
  equal_means (cons a b) (cons c d) (na, nb, pa, pb) (nc, nd, pc, pd) h =
      let (e, f) = and_parts (sexpr_equal a c) (sexpr_equal b d) h in
      let left = inner a c na nc (equal_means a c pa pc e) in
      let right = inner b d nb nd (equal_means b d pb pd f) in inl cc
  equal_means null null p q h = inl refl
  equal_means (int i) (int j) p q h = inl (ap int ((==_iff i j).0 h))
  equal_means (char i) (char j) p q h = inl (ap char ((==_iff i j).0 h))
  equal_means (str s) (str t) p q h = inl (ap str (same_text s t h))
  equal_means (sym_val s) (sym_val t) p q h = inl (ap sym_val (same_text s t h))
  equal_means (bool true) (bool true) p q h = inl refl
  equal_means (bool false) (bool false) p q h = inl refl
  equal_means (blob s) (blob t) p q h =
      inl (ap blob (same_block s t (and_parts (length s == length t) (same_bytes s t) h).1))
  equal_means (array vs) (array ws) p q h = inl (ap array (vals_same vs ws p q h))
  equal_means (nvl ps) (nvl qs) p q h = inl (ap nvl (pairs_same ps qs p q h))
  equal_means v w p q h = absurd (ground arith)

  vals_same : (vs ws : Vals) → PlainVals vs → PlainVals ws → equal_vals vs ws ≡ true → vs ≡ ws
  vals_same no_vals no_vals p q h = refl
  vals_same (elem v vs) (elem w ws) (n, p, ps) (m, q, qs) h =
      let (e, f) = and_parts (sexpr_equal v w) (equal_vals vs ws) h in
      let first = inner v w n m (equal_means v w p q e) in let rest = vals_same vs ws ps qs f in cc
  vals_same vs ws p q h = absurd (ground arith)

  pairs_same : (ps qs : Pairs) → PlainPairs ps → PlainPairs qs → equal_pairs ps qs ≡ true → ps ≡ qs
  pairs_same no_pairs no_pairs p q h = refl
  pairs_same (pair a v ps) (pair b w qs) (n, p, r) (m, q, t) h =
      let (d, more) = and_parts (is_eq (strcmp a b)) (sexpr_equal v w && equal_pairs ps qs) h in
      let (e, f) = and_parts (sexpr_equal v w) (equal_pairs ps qs) more in
      let name = same_text a b d in
      let first = inner v w n m (equal_means v w p q e) in let rest = pairs_same ps qs r t f in cc
  pairs_same ps qs p q h = absurd (ground arith)

empty_equal :
    (v w : Val)
    → IsPlain v
    → IsPlain w
    → sexpr_is_null v ≡ true
    → sexpr_is_null w ≡ true
    → sexpr_equal v w ≡ true
unfolding sexpr_equal IsPlain
empty_equal null_pointer w p q a b = b
empty_equal (cons h t) null_pointer p q a b = a
empty_equal (cons null_pointer null_pointer) (cons null_pointer null_pointer) p q a b = refl
empty_equal v w p q a b = absurd (ground arith)

-- A value is equal to itself. Where no empty list is written as a cell inside of two values,
-- `sexpr_equal` returns true exactly if the values are the same or are both empty lists.
pub sexpr_equal_lem :
    (u v w : Val)
    → IsPlain v
    → IsPlain w
    → (sexpr_equal u u ≡ true) × ((sexpr_equal v w ≡ true) ↔ Same v w)
sexpr_equal_lem u v w p q = (
  equal_refl u,
  (
    equal_means v w p q,
    λ same. elim same [
      | inl e ↦ subst (λ x. sexpr_equal v x ≡ true) e (equal_refl v)
      | inr (a, b) ↦ empty_equal v w p q a b
    ],
  ),
)
