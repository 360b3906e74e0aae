-- ===== src/Rbtree.antt =====
-- rbtree.c: red-black trees over the trees of tree.c. The extra data of a node is whether it is red. A
-- `fault` is a read through a NULL pointer. Each loop goes up a path, which is its argument.
pub mod Shape
mod FixInsert
pub mod Insert
mod Settle
mod FixRemove
pub mod Remove
pub mod Replace
mod Height
mod Tests
use libjeffpc.Base.{
  ℕ, Bool, true, false, not, ◌&&◌, Option, none, some, List, [], ◌∷◌, if◌then◌else◌, Result, ok,
  panic, fault, ◌>>=◌,
}
use Prim.Native.Nat.{Ordering}
use libjeffpc.Tree.{
  Dir, tree_left, tree_right, opposite, same_dir, Tree, leaf, node, Frame, Parents, Location,
  TreeTree, fill, plug, tree_insert_here, tree_remove,
}

-- What the body of the loop of `rb_remove` leads to: the whole tree, where the loop is left with
-- `node = tree->root`, or the parent as the next node.
pub data Settled {ℓ} (A : Type ℓ) : Type ℓ where
  done : Tree A → Settled A
  next : Tree A → Settled A

module _ {ℓ} {A : Type ℓ} where
  abbrev pub is_red : Tree A → Bool
  is_red leaf = false
  is_red (node c l x r) = c

  abbrev pub set_red : Tree A → Bool → Tree A
  set_red leaf red = leaf
  set_red (node c l x r) red = node red l x r

  unfoldable pub rb_rotate : Dir → Tree A → Result (Tree A)
  rb_rotate dir leaf = fault
  rb_rotate tree_left (node c a x leaf) = fault
  rb_rotate tree_left (node c a x (node d b y e)) = ok (node d (node c a x b) y e)
  rb_rotate tree_right (node c leaf x e) = fault
  rb_rotate tree_right (node c (node d a y b) x e) = ok (node d a y (node c b x e))

  -- The colours set behind the rotations: the parent's and the grandparent's, which is on the side of
  -- `dir` below the parent now.
  unfoldable pub repaint : Dir → Tree A → Tree A
  repaint dir leaf = leaf
  repaint tree_left (node c l x r) = node false (set_red l true) x r
  repaint tree_right (node c l x r) = node false l x (set_red r true)

  -- The inner rotation, if the node and its parent lie on different sides, and then the outer one,
  -- with the colours. What comes back stands at the place of the grandparent.
  unfoldable pub rotate_up : Frame A → Frame A → Tree A → Result (Tree A)
  unfolding rb_rotate repaint
  rotate_up p g t = do
    below ← if same_dir p.dir g.dir then ok (fill p t) else rb_rotate (opposite p.dir) (fill p t)
    top ← rb_rotate (opposite g.dir) (fill g below)
    ok (repaint (opposite g.dir) top)

  -- The loop of `rb_insert_here`. Behind the rotations the parent is black, so the loop ends.
  unfoldable pub fix_insert : Parents A → Tree A → Result (Tree A)
  unfolding rotate_up
  fix_insert [] t = ok t
  fix_insert (p ∷ []) t = if is_red t && p.extra then fault else ok (plug (p ∷ []) t)
  fix_insert (p ∷ g ∷ up) t =
      let black = record p { extra = false } in
      let red = record g { extra = true; sibling = set_red g.sibling false } in
      let recoloured = fix_insert up (fill red (fill black t)) in
      if not (is_red t && p.extra)
      then ok (plug (p ∷ g ∷ up) t)
      else if is_red g.sibling
      then recoloured
      else (rotate_up p g t >>= λ top. ok (plug up top))

  -- set_red(sibling->children[dir], false)
  abbrev pub blacken : Dir → Tree A → Tree A
  blacken dir leaf = leaf
  blacken tree_left (node c l x r) = node c (set_red l false) x r
  blacken tree_right (node c l x r) = node c l x (set_red r false)

  abbrev pub child_red : Dir → Tree A → Bool
  child_red dir leaf = false
  child_red tree_left (node c l x r) = is_red l
  child_red tree_right (node c l x r) = is_red r

  -- The body of the loop, from the test of the sibling's children on.
  unfoldable pub settle : Frame A → Parents A → Tree A → Result (Settled A)
  unfolding rb_rotate
  settle p fs t = elim p.sibling [
    | leaf ↦ fault
    | node c l x r ↦
        let left = p.dir in
        let right = opposite p.dir in
        let sibling = node c l x r in
        if not (child_red left sibling) && not (child_red right sibling)
        then ok (next (fill (record p { sibling = node true l x r }) t))
        else (do
          turned ←
              if child_red right sibling
              then ok sibling
              else rb_rotate right (set_red (blacken left sibling) true)
          let coloured = blacken right (set_red turned p.extra)
          top ← rb_rotate left (fill (record p { extra = false; sibling = coloured }) t)
          ok (done (plug fs top)))
  ]

  -- The frames of the parent and of the sibling above it, once a red sibling is rotated up.
  unfoldable pub above_red : Frame A → Option (Frame A × Frame A)
  above_red p = elim p.sibling [
    | leaf ↦ none
    | node c l x r ↦ elim p.dir [
      | tree_left ↦ some (
        record { dir = tree_left; extra = true; item = p.item; sibling = l },
        record { dir = tree_left; extra = false; item = x; sibling = r },
      )
      | tree_right ↦ some (
        record { dir = tree_right; extra = true; item = p.item; sibling = r },
        record { dir = tree_right; extra = false; item = x; sibling = l },
      )
    ]
  ]

  -- The loop of `rb_remove`, and `set_red(node, false)` behind it. A parent that is the next node
  -- below a sibling that was red is red itself, so the loop ends there.
  unfoldable pub fix_remove : Parents A → Tree A → Result (Tree A)
  fix_remove [] t = ok (set_red t false)
  fix_remove (p ∷ fs) t =
      let rest = λ (b : Tree A). fix_remove fs b in
      if is_red t
      then ok (plug (p ∷ fs) (set_red t false))
      else if is_red p.sibling
      then elim (above_red p) [
        | none ↦ fault
        | some (p', s) ↦ settle p' (s ∷ fs) t >>= λ r. elim r [
          | done whole ↦ ok (set_red whole false)
          | next parent ↦ ok (plug (s ∷ fs) (set_red parent false))
        ]
      ]
      else (settle p fs t >>= λ r. elim r [
        | done whole ↦ ok (set_red whole false)
        | next parent ↦ rest parent
      ])

  -- From the call of `tree_remove` on. The root is `tree->root`.
  unfoldable pub rebalance : TreeTree A × Location A × Tree A → Result (TreeTree A)
  rebalance (tree, (parent, child), taken) = elim tree.root [
    | leaf ↦ ok tree
    | node c l x r ↦
        if is_red taken
        then ok tree
        else (fix_remove parent child >>= λ root. ok (record tree { root = root }))
  ]

  unfoldable pub rb_remove : TreeTree A → Location A → Result (TreeTree A)
  unfolding rebalance
  rb_remove tree at = rebalance (tree_remove tree at)

-- From the call of `tree_insert_here` on.
module _ {ℓ} {A : Type ℓ} where
  unfoldable pub recolour : A → Option A × TreeTree A × Parents A → Result (Option A × TreeTree A)
  recolour newitem (some x, tree, parents) = ok (some x, tree)
  recolour newitem (none, tree, parents) =
      fix_insert parents (node true leaf newitem leaf) >>= λ root.
      ok (none, record tree { root = set_red root false })

module _ {ℓ} {A : Type ℓ} (cmp : A → A → Ordering) where
  -- The item that is there already, if there is one, and the tree.
  unfoldable pub rb_insert_here :
      TreeTree A → Bool → A → Option (Parents A) → Result (Option A × TreeTree A)
  rb_insert_here tree extra newitem cookie =
      recolour newitem (tree_insert_here cmp tree extra newitem cookie)

  unfoldable pub rb_add : TreeTree A → Bool → A → Result (TreeTree A)
  rb_add tree extra item =
      rb_insert_here tree extra item none >>= λ r. elim r.0 [ none ↦ ok r.1 | some x ↦ panic ]
