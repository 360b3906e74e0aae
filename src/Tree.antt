-- ===== src/Tree.antt =====
-- tree.c, tree_impl.h, include/jeffpc/tree_private.h and bst.c: binary search trees. A pointer to a
-- node is the subtree below it with the path above it, from its parent to the root, so `get_parent`
-- is the head of the path and a change through a pointer is a change of the tree that both make. The
-- comparison that a tree holds is a parameter; that of addresses with offsets is left out.
pub mod Walk
pub mod Steps
pub mod Search
pub mod Node
pub mod Remove
pub mod Numbers
mod Tests
use libjeffpc.Base.{
  ℕ, ◌+◌, ◌-◌, Bool, true, false, Option, none, some, List, [], ◌∷◌, ◌++◌, if◌then◌else◌, Result,
  ok, panic,
}
use Prim.Native.Nat.{Ordering}
use Prim.Native.Nat.Ordering.{lt, eq, gt}

pub data Dir : Type 0 where
  tree_left tree_right : Dir

-- 1 - dir
abbrev pub opposite : Dir → Dir
opposite tree_left = tree_right
opposite tree_right = tree_left

abbrev pub same_dir : Dir → Dir → Bool
same_dir tree_left tree_left = true
same_dir tree_right tree_right = true
same_dir d e = false

-- `leaf` is NULL. The extra data of a node is one bit here: whether it is red.
pub data Tree {ℓ} (A : Type ℓ) : Type ℓ where
  leaf : Tree A
  node : Bool → Tree A → A → Tree A → Tree A

-- A parent: which of its children was taken, and the rest of it.
pub record Frame {ℓ} (A : Type ℓ) : Type ℓ where
  pub dir : Dir
  pub extra : Bool
  pub item : A
  pub sibling : Tree A

-- The parents of a node, the nearest first. As a cookie it is where a node is missing: the cookie's
-- node is the first parent, and its direction the one that was taken there.
abbrev pub Parents {ℓ} : Type ℓ → Type ℓ
Parents A = List (Frame A)

abbrev pub Location {ℓ} : Type ℓ → Type ℓ
Location A = Parents A × Tree A

pub record TreeTree {ℓ} (A : Type ℓ) : Type ℓ where
  pub root : Tree A
  pub num_nodes : ℕ

module _ {ℓ} {A : Type ℓ} where
  abbrev pub child : Dir → Bool → Tree A → A → Tree A → Frame A × Tree A
  child tree_left c l x r = (record { dir = tree_left; extra = c; item = x; sibling = r }, l)
  child tree_right c l x r = (record { dir = tree_right; extra = c; item = x; sibling = l }, r)

  -- The parent with a child put back.
  abbrev pub fill : Frame A → Tree A → Tree A
  fill f t = elim f.dir [
    | tree_left ↦ node f.extra t f.item f.sibling
    | tree_right ↦ node f.extra f.sibling f.item t
  ]

  -- The whole tree.
  unfoldable pub plug : Parents A → Tree A → Tree A
  plug [] t = t
  plug (f ∷ fs) t = plug fs (fill f t)

  unfoldable pub firstlast : Dir → Parents A → Tree A → Location A
  firstlast dir fs leaf = (fs, leaf)
  firstlast tree_left fs (node c leaf x r) = (fs, node c leaf x r)
  firstlast tree_left fs (node c (node d a y b) x r) =
      firstlast tree_left (record { dir = tree_left; extra = c; item = x; sibling = r } ∷ fs)
        (node d a y b)
  firstlast tree_right fs (node c l x leaf) = (fs, node c l x leaf)
  firstlast tree_right fs (node c l x (node d a y b)) =
      firstlast tree_right (record { dir = tree_right; extra = c; item = x; sibling = l } ∷ fs)
        (node d a y b)

  unfoldable pub firstlast_obj : Dir → Tree A → Option (Location A)
  unfolding firstlast
  firstlast_obj dir leaf = none
  firstlast_obj dir (node c l x r) = some (firstlast dir [] (node c l x r))

  -- Up to the first parent of which the child at `left` was taken.
  unfoldable pub climb : Dir → Parents A → Tree A → Option (Location A)
  climb left [] t = none
  climb left (f ∷ fs) t =
      let up = climb left fs (fill f t) in if same_dir f.dir left then some (fs, fill f t) else up

  -- `right` is the direction of the step.
  unfoldable pub tree_next_dir : Dir → Location A → Option (Location A)
  tree_next_dir right (fs, leaf) = none
  tree_next_dir right (fs, node c l x r) =
      let (f, below) = child right c l x r in
      elim below [
        | leaf ↦ climb (opposite right) fs (node c l x r)
        | node d a y b ↦ some (firstlast (opposite right) (f ∷ fs) (node d a y b))
      ]

  unfoldable pub tree_first : Tree A → Option (Location A)
  tree_first root = firstlast_obj tree_left root

  unfoldable pub tree_last : Tree A → Option (Location A)
  tree_last root = firstlast_obj tree_right root

  unfoldable pub tree_next : Location A → Option (Location A)
  tree_next at = tree_next_dir tree_right at

  unfoldable pub tree_prev : Location A → Option (Location A)
  tree_prev at = tree_next_dir tree_left at

  -- Next to the place of a cookie, at which nothing stands.
  unfoldable pub tree_nearest : Parents A → Bool → Option (Location A)
  unfolding climb
  tree_nearest cookie greater = climb (if greater then tree_left else tree_right) cookie leaf

-- What a search ends with: an item, or a cookie.
pub data Found {ℓ} (A : Type ℓ) : Type ℓ where
  found : A → Found A
  missing : Parents A → Found A

module _ {ℓ κ} {K : Type κ} {A : Type ℓ} (cmp : K → A → Ordering) where
  unfoldable pub find_loop : K → Parents A → Tree A → Found A
  find_loop key where_ leaf = missing where_
  find_loop key where_ (node c l x r) = elim (cmp key x) [
    | eq ↦ found x
    | lt ↦ find_loop key (record { dir = tree_left; extra = c; item = x; sibling = r } ∷ where_) l
    | gt ↦ find_loop key (record { dir = tree_right; extra = c; item = x; sibling = l } ∷ where_) r
  ]

  unfoldable pub tree_find : TreeTree A → K → Found A
  unfolding find_loop
  tree_find tree key = find_loop key [] tree.root

  -- The same search, with the node that it returns.
  unfoldable pub find_node : K → Parents A → Tree A → Option (Location A)
  find_node key where_ leaf = none
  find_node key where_ (node c l x r) = elim (cmp key x) [
    | eq ↦ some (where_, node c l x r)
    | lt ↦ find_node key (record { dir = tree_left; extra = c; item = x; sibling = r } ∷ where_) l
    | gt ↦ find_node key (record { dir = tree_right; extra = c; item = x; sibling = l } ∷ where_) r
  ]

module _ {ℓ} {A : Type ℓ} where
  -- At a cookie. The new node's extra data is what its memory holds.
  unfoldable pub insert_at : TreeTree A → Bool → A → Parents A → TreeTree A
  insert_at tree extra newitem cookie = record {
    root = plug cookie (node extra leaf newitem leaf);
    num_nodes = tree.num_nodes + 1;
  }

  -- The two children are there: the node changes places with the first of those greater than it, and
  -- keeps the extra data of its new place. `y` is the other node, `gs` the path to it from the right
  -- child, and `e` its right child.
  unfoldable pub swap_with : Parents A → Bool → Tree A → A → Tree A → Location A → Location A
  swap_with fs c l x r (gs, leaf) = (fs, node c l x r)
  swap_with fs c l x r (gs, node d b y e) =
      (gs ++ record { dir = tree_right; extra = c; item = y; sibling = l } ∷ fs, node d b x e)

  unfoldable pub swap_nodes : Parents A → Bool → Tree A → A → Tree A → Location A
  unfolding swap_with
  swap_nodes fs c l x r = swap_with fs c l x r (firstlast tree_left [] r)

  -- The node ready to be taken out, with one child at most.
  unfoldable pub leafish : Location A → Location A
  unfolding swap_nodes
  leafish (fs, node c (node d a y b) x (node d' a' y' b')) =
      swap_nodes fs c (node d a y b) x (node d' a' y' b')
  leafish at = at

  -- The only child.
  unfoldable pub only_child : Tree A → Tree A
  only_child leaf = leaf
  only_child (node c leaf x r) = r
  only_child (node c (node d a y b) x r) = node d a y b

  -- The tree without the node, the parent and the child that took its place, and the node as it was
  -- when it was taken out.
  unfoldable pub take_out : TreeTree A → Location A → TreeTree A × Location A × Tree A
  unfolding only_child
  take_out tree (parent, taken) =
      let child = only_child taken in
      (record { root = plug parent child; num_nodes = tree.num_nodes - 1 }, (parent, child), taken)

  unfoldable pub tree_remove : TreeTree A → Location A → TreeTree A × Location A × Tree A
  unfolding leafish take_out
  tree_remove tree at = take_out tree (leafish at)

-- `tree_insert_here` with no cookie, or with one that `tree_find` has set.
module _ {ℓ} {A : Type ℓ} (cmp : A → A → Ordering) where
  unfoldable pub tree_insert_here :
      TreeTree A → Bool → A → Option (Parents A) → Option A × TreeTree A × Parents A
  tree_insert_here tree extra newitem none = elim (tree_find cmp tree newitem) [
    | found x ↦ (some x, tree, [])
    | missing cookie ↦ (none, insert_at tree extra newitem cookie, cookie)
  ]
  tree_insert_here tree extra newitem (some cookie) =
      (none, insert_at tree extra newitem cookie, cookie)

  -- bst_add
  unfoldable pub bst_add : TreeTree A → Bool → A → Result (TreeTree A)
  bst_add tree extra item =
      let (orig, tree', cookie) = tree_insert_here tree extra item none in
      elim orig [ none ↦ ok tree' | some x ↦ panic ]

  unfoldable pub bst_remove : TreeTree A → Location A → TreeTree A
  bst_remove tree at = (tree_remove tree at).0
