-- ===== src/Tree/Tests.antt =====
-- The theorems on trees at a tree of three numbers.
use libjeffpc.Base.{ℕ, false, true, [], ◌∷◌, ◌≡◌, refl}
use Prim.Native.Nat.{compare}
use libjeffpc.Tree.{
  tree_left, tree_right, leaf, node, Parents, plug, tree_first, tree_last, tree_next, tree_prev,
  tree_nearest, tree_find, find_loop, missing,
}
use libjeffpc.Tree.Walk.{walk, beyond}
use libjeffpc.Tree.Steps.{StepsTo, ahead, tree_next_lem}
use libjeffpc.Tree.Numbers.{compare-IsLawful, three}
use libjeffpc.Tree.Search.{Searched, tree_find-Searched}

-- The parents of 10.
abbrev under_twenty : Parents ℕ
under_twenty =
    record { dir = tree_left; extra = false; item = 20; sibling = node true leaf 30 leaf } ∷ []

-- A cookie between 10 and 20.
cookie_found :
    tree_find compare (record { root = three; num_nodes = 3 }) 15
    ≡ missing (record { dir = tree_right; extra = true; item = 10; sibling = leaf } ∷ under_twenty)
unfolding tree_find find_loop
cookie_found = refl

tree_next_lem_example :
    StepsTo tree_right three (walk tree_right three) (tree_first three)
    × StepsTo tree_left three (walk tree_left three) (tree_last three)
    × StepsTo tree_right
        (plug under_twenty (node true leaf 10 leaf))
        (ahead tree_right under_twenty leaf leaf)
        (tree_next (under_twenty, node true leaf 10 leaf))
    × StepsTo tree_left
        (plug under_twenty (node true leaf 10 leaf))
        (ahead tree_left under_twenty leaf leaf)
        (tree_prev (under_twenty, node true leaf 10 leaf))
    × StepsTo tree_right
        (plug under_twenty leaf)
        (beyond tree_right under_twenty)
        (tree_nearest under_twenty true)
    × StepsTo tree_left
        (plug under_twenty leaf)
        (beyond tree_left under_twenty)
        (tree_nearest under_twenty false)
tree_next_lem_example = tree_next_lem three under_twenty true leaf 10 leaf

tree_find-Searched_example :
    Searched compare 15 three (tree_find compare (record { root = three; num_nodes = 3 }) 15)
tree_find-Searched_example =
    tree_find-Searched compare compare-IsLawful 15 (record { root = three; num_nodes = 3 })
      ((refl, (refl, tt)), ((refl, tt), (tt, tt)))
