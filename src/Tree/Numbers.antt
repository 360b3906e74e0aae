-- ===== src/Tree/Numbers.antt =====
-- Numbers as the items of a tree, for the runs of the tests.
use libjeffpc.Base.{ℕ, false, true, arith}
use Prim.Native.Nat.{compare}
use libjeffpc.Tree.{Tree, leaf, node}
use libjeffpc.Tree.Search.{IsLawful}

pub compare-IsLawful : IsLawful compare
compare-IsLawful = record {
  lt_of_gt = λ a b h. ground arith;
  gt_of_lt = λ a b h. ground arith;
  lt_trans = λ a b c h k. ground arith;
}

abbrev pub three : Tree ℕ
three = node false (node true leaf 10 leaf) 20 (node true leaf 30 leaf)
