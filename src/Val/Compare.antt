-- ===== src/Val/Compare.antt =====
-- `strcmp` is an order, and tells texts apart.
use libjeffpc.Base.{ℕ, List, [], ◌∷◌, ◌≡◌, refl, arith}
use Prim.Native.Nat.Ordering.{lt, eq, gt}
use libjeffpc.Val.{strcmp}
use libjeffpc.Tree.Search.{IsLawful}

pub strcmp_same : (a b : List ℕ) → strcmp a b ≡ eq → a ≡ b
unfolding strcmp
strcmp_same [] [] h = refl
strcmp_same [] (b ∷ ys) h = absurd (ground arith)
strcmp_same (a ∷ xs) [] h = absurd (ground arith)
strcmp_same (a ∷ xs) (b ∷ ys) h =
    let first : a ≡ b = ground (arith, h) in
    let rest : strcmp xs ys ≡ eq = ground (arith, h) in let others = strcmp_same xs ys rest in cc

pub strcmp_refl : (a : List ℕ) → strcmp a a ≡ eq
unfolding strcmp
strcmp_refl [] = refl
strcmp_refl (a ∷ xs) = ground (arith, strcmp_refl xs)

swap_gt : (a b : List ℕ) → strcmp a b ≡ gt → strcmp b a ≡ lt
unfolding strcmp
swap_gt [] [] h = absurd (ground arith)
swap_gt [] (b ∷ ys) h = absurd (ground arith)
swap_gt (a ∷ xs) [] h = refl
swap_gt (a ∷ xs) (b ∷ ys) h = ground (arith, h, swap_gt xs ys)

swap_lt : (a b : List ℕ) → strcmp a b ≡ lt → strcmp b a ≡ gt
unfolding strcmp
swap_lt [] [] h = absurd (ground arith)
swap_lt [] (b ∷ ys) h = refl
swap_lt (a ∷ xs) [] h = absurd (ground arith)
swap_lt (a ∷ xs) (b ∷ ys) h = ground (arith, h, swap_lt xs ys)

lt_trans : (a b c : List ℕ) → strcmp a b ≡ lt → strcmp b c ≡ lt → strcmp a c ≡ lt
unfolding strcmp
lt_trans [] [] [] h k = absurd (ground arith)
lt_trans [] (b ∷ ys) [] h k = absurd (ground arith)
lt_trans [] b (c ∷ zs) h k = refl
lt_trans (a ∷ xs) [] c h k = absurd (ground arith)
lt_trans (a ∷ xs) (b ∷ ys) [] h k = absurd (ground arith)
lt_trans (a ∷ xs) (b ∷ ys) (c ∷ zs) h k = ground (arith, h, k, lt_trans xs ys zs)

pub strcmp-IsLawful : IsLawful strcmp
strcmp-IsLawful = record { lt_of_gt = swap_gt; gt_of_lt = swap_lt; lt_trans = lt_trans }
