-- ===== src/Nvl/Names.antt =====
-- Lists of pairs in the order of their names.
use libjeffpc.Base.{
  ℕ, true, false, Option, none, some, List, [], ◌∷◌, ◌++◌, if◌then◌else◌, ◌≡◌, refl, arith, All,
}
use Prim.Native.Nat.Ordering.{eq}
use libjeffpc.Val.{Val, strcmp, is_eq}
use libjeffpc.Val.Compare.{strcmp_same, strcmp-IsLawful}
use libjeffpc.Tree.Search.{IsLawful, Less}
use libjeffpc.Nvl.{NvPair, val_nvl_cmp}

pub val_nvl_cmp-IsLawful : IsLawful val_nvl_cmp
val_nvl_cmp-IsLawful = record {
  lt_of_gt = λ a b h. strcmp-IsLawful.lt_of_gt a.0 b.0 h;
  gt_of_lt = λ a b h. strcmp-IsLawful.gt_of_lt a.0 b.0 h;
  lt_trans = λ a b c h k. strcmp-IsLawful.lt_trans a.0 b.0 c.0 h k;
}

-- The pair of a name.
abbrev pub pair_of : List ℕ → List NvPair → Option NvPair
pair_of m [] = none
pair_of m (p ∷ ps) = if is_eq (strcmp m p.0) then some p else pair_of m ps

pub pair_of-skip :
    (m : List ℕ) (v : Val) (pre ps : List NvPair)
    → All (λ y. Less val_nvl_cmp y (m, v)) pre
    → pair_of m (pre ++ ps) ≡ pair_of m ps
pair_of-skip m v [] ps h = refl
pair_of-skip m v (p ∷ pre) ps h =
    rw (strcmp-IsLawful.gt_of_lt p.0 m h.0) (pair_of-skip m v pre ps h.1)

pub pair_of-none :
    (m : List ℕ) (v : Val) (ps : List NvPair)
    → All (λ y. Less val_nvl_cmp (m, v) y) ps
    → pair_of m ps ≡ none
pair_of-none m v [] h = refl
pair_of-none m v (p ∷ ps) h = rw (h.0) (pair_of-none m v ps h.1)

pub pair_of-here :
    (m : List ℕ) (p : NvPair) (ps : List NvPair) → strcmp m p.0 ≡ eq → pair_of m (p ∷ ps) ≡ some p
pair_of-here m p ps h = rw h refl

pub pair_of-other :
    (m : List ℕ) (p : NvPair) (pre ps : List NvPair)
    → is_eq (strcmp m p.0) ≡ false
    → pair_of m (pre ++ p ∷ ps) ≡ pair_of m (pre ++ ps)
pair_of-other m p [] ps h = rw h refl
pair_of-other m p (q ∷ pre) ps h = rw (pair_of-other m p pre ps h) refl

pub is_eq_same : (a b : List ℕ) → is_eq (strcmp a b) ≡ true → a ≡ b
is_eq_same a b h = strcmp_same a b (ground (arith, h))
