-- ===== src/Rbtree/Tests.antt =====
-- Runs of insertion and removal on numbers.
use libjeffpc.Base.{
  ℕ, ◌+◌, ◌*◌, ◌^◌, ◌≤◌, ◌++◌, ◌⊎◌, length, true, false, ◌≡◌, refl, none, some, List, [], ◌∷◌,
  Result, ok, ◌>>=◌,
}
use Prim.Native.Nat.{compare}
use Prim.Native.Nat.Ordering.{eq}
use libjeffpc.Tree.{
  leaf, node, TreeTree, Parents, tree_find, find_loop, insert_at, plug, tree_insert_here, tree_left,
  tree_right, tree_remove, firstlast,
}
use libjeffpc.Rbtree.{
  rb_add, rb_insert_here, recolour, fix_insert, rb_remove, rebalance, fix_remove, settle,
}
use libjeffpc.Tree.Walk.{items}
use libjeffpc.Tree.Search.{Inserted}
use libjeffpc.Tree.Numbers.{three, compare-IsLawful}
use libjeffpc.Rbtree.Insert.{IsRbTree, rb_insert_here-Inserted}
use libjeffpc.Rbtree.Remove.{rb_remove-Removed}
use libjeffpc.Rbtree.Height.{tree_find-depth}

add_all : List ℕ → TreeTree ℕ → Result (TreeTree ℕ)
add_all [] t = ok t
add_all (x ∷ xs) t = rb_add compare t false x >>= add_all xs

-- One to seven, in order.
seven :
    add_all (1 ∷ 2 ∷ 3 ∷ 4 ∷ 5 ∷ 6 ∷ 7 ∷ []) (record { root = leaf; num_nodes = 0 })
    ≡ ok (record {
      root = node false (node false leaf 1 leaf) 2 (
          node true
            (node false leaf 3 leaf)
            4
            (node false (node true leaf 5 leaf) 6 (node true leaf 7 leaf)));
      num_nodes = 7;
    })
unfolding add_all rb_add rb_insert_here fix_insert tree_insert_here tree_find find_loop insert_at
    plug recolour
seven = refl

-- The black root of three: the first of those that are greater takes its place.
root_removed :
    rb_remove {A = ℕ}
      (record {
        root = node false (node false leaf 1 leaf) 2 (node false leaf 3 leaf);
        num_nodes = 3;
      })
      ([], node false (node false leaf 1 leaf) 2 (node false leaf 3 leaf))
    ≡ ok (record { root = node false (node true leaf 1 leaf) 3 leaf; num_nodes = 2 })
unfolding rb_remove rebalance fix_remove tree_remove firstlast plug settle
root_removed = refl

abbrev sample : TreeTree ℕ
sample = record { root = three; num_nodes = 3 }

sample-IsRbTree : IsRbTree compare sample
sample-IsRbTree = record {
  red_black = (refl, (refl, refl, refl, (refl, refl, refl, tt, tt), (refl, refl, refl, tt, tt)));
  sorted = ((refl, (refl, tt)), ((refl, tt), (tt, tt)));
  counted = refl;
}

-- 25 goes below 30, and both red nodes below the root turn black.
rb_insert_here-Inserted_example :
    ((x : ℕ) × (pre : List ℕ) × (post : List ℕ) × (rb_insert_here compare sample true 25 none
        ≡ ok (some x, sample))
      × (compare 25 x ≡ eq)
      × (items three ≡ pre ++ x ∷ post))
    ⊎ ((tree' : TreeTree ℕ) × (rb_insert_here compare sample true 25 none ≡ ok (none, tree'))
        × IsRbTree compare tree'
        × Inserted compare (items three) 25 (items tree'.root))
rb_insert_here-Inserted_example =
    rb_insert_here-Inserted compare compare-IsLawful sample true 25 sample-IsRbTree

rb_remove-Removed_example :
    (tree' : TreeTree ℕ) × (pre : List ℕ) × (post : List ℕ) × (rb_remove sample ([], three)
      ≡ ok tree')
    × IsRbTree compare tree'
    × (items three ≡ pre ++ 20 ∷ post)
    × (items tree'.root ≡ pre ++ post)
unfolding plug
rb_remove-Removed_example =
    rb_remove-Removed compare sample [] false (node true leaf 10 leaf) 20 (node true leaf 30 leaf)
      sample-IsRbTree refl

abbrev cookie : Parents ℕ
cookie =
    record { dir = tree_right; extra = true; item = 10; sibling = leaf }
    ∷ record { dir = tree_left; extra = false; item = 20; sibling = node true leaf 30 leaf }
    ∷ []

tree_find-depth_example : 2 ^ length cookie ≤ (sample.num_nodes + 1) * (sample.num_nodes + 1)
unfolding tree_find find_loop
tree_find-depth_example =
    tree_find-depth compare compare-IsLawful sample 15 cookie sample-IsRbTree refl
