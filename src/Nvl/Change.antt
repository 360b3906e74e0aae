-- ===== src/Nvl/Change.antt =====
-- What `nvl_set` and `nvl_unset` do to a list, told by lookups.
use libjeffpc.Base.{
  ℕ, Bool, true, false, Option, none, some, List, ◌∷◌, ◌++◌, if◌then◌else◌, ◌≡◌, inl, inr, refl,
  sym, ap, ◌∙◌, Result, ok, err, fault, enoent, enomem, Bool-cases, ◌>>=◌,
}
use mathlib.Core.Path.{subst}
use libjeffpc.Val.{ValType, Val, null_pointer, strcmp, is_eq}
use libjeffpc.Val.Compare.{strcmp_same}
use libjeffpc.Tree.{tree_right, Tree, node, Parents, plug}
use libjeffpc.Tree.Walk.{items, walk, passed, beyond}
use libjeffpc.Tree.Search.{Sorted, Sorted-split, Sorted-insert, Sorted-remove}
use libjeffpc.Rbtree.{rb_add}
use libjeffpc.Rbtree.Insert.{IsRbTree, rb_insert_here-Inserted}
use libjeffpc.Rbtree.Remove.{rb_remove-Removed}
use libjeffpc.Rbtree.Replace.{items-plug, replace-IsRbTree}
use libjeffpc.Nvl.{
  NvPair, Nvlist, val_nvl_cmp, find, nvl_lookup, nvl_exists, Memory, nvpair_alloc, do_nvl_set,
  nvl_set, check_type, unset,
}
use libjeffpc.Nvl.Names.{val_nvl_cmp-IsLawful, pair_of, pair_of-other, is_eq_same}
use libjeffpc.Nvl.Lookup.{find-Found, pair_of-middle, pair_of-between, answer, nvl_lookup-pair_of}

-- The items with a pair put in.
with_pair :
    (m name : List ℕ) (val : Val) (pre post ps : List NvPair)
    → Sorted val_nvl_cmp (pre ++ (name, val) ∷ post)
    → (is_eq (strcmp m name) ≡ false → pair_of m ps ≡ pair_of m (pre ++ post))
    → answer (pair_of m (pre ++ (name, val) ∷ post))
      ≡ (if is_eq (strcmp m name) then ok (name, val) else answer (pair_of m ps))
with_pair m name val pre post ps s old = elim (Bool-cases (is_eq (strcmp m name))) [
  | inl e ↦ let is = is_eq_same m name e in rw (e, is, pair_of-middle pre name val post s) refl
  | inr e ↦ rw (e, pair_of-other m (name, val) pre post e, old e) refl
]

-- The items with a pair taken out.
without_pair :
    (m name : List ℕ) (val : Val) (pre post : List NvPair)
    → Sorted val_nvl_cmp (pre ++ (name, val) ∷ post)
    → answer (pair_of m (pre ++ post)) ≡ (
        if is_eq (strcmp m name)
        then err enoent
        else answer (pair_of m (pre ++ (name, val) ∷ post)))
without_pair m name val pre post s = elim (Bool-cases (is_eq (strcmp m name))) [
  | inl e ↦
      let is = is_eq_same m name e in
      let (low, high) = Sorted-split val_nvl_cmp pre (name, val) post s in
      rw (e, is, pair_of-between name val pre post low high) refl
  | inr e ↦ rw (e, pair_of-other m (name, val) pre post e) refl
]

new_value :
    (pre : List NvPair) (name : List ℕ) (old new : Val) (post : List NvPair)
    → Sorted val_nvl_cmp (pre ++ (name, old) ∷ post)
    → Sorted val_nvl_cmp (pre ++ (name, new) ∷ post)
new_value pre name old new post s =
    let (low, high) = Sorted-split val_nvl_cmp pre (name, old) post s in
    Sorted-insert val_nvl_cmp pre (name, new) post
      (Sorted-remove val_nvl_cmp pre (name, old) post s) low high

-- What comes of the wish for a new pair with a copy of its name.
abbrev pub room : Memory → Result (Unit {0})
room memory = elim memory.name_room [
  | false ↦ fault
  | true ↦ elim memory.node_room [ none ↦ err enomem | some extra ↦ ok tt ]
]

-- What is promised of `nvl_set` and of what a lookup of `m` returns in the list `t'` with the name.
abbrev Set : Memory → Nvlist → List ℕ → Val → List ℕ → Type 0
Set memory t name val m =
    (t' : Nvlist) × (nvl_set memory t name val
      ≡ ((if nvl_exists t name then ok tt else room memory) >>= λ _. ok t'))
    × IsRbTree val_nvl_cmp t'
    × (nvl_lookup t' m ≡ (if is_eq (strcmp m name) then ok (name, val) else nvl_lookup t m))

held : Option Bool → Bool
held none = true
held (some extra) = extra

nvpair_alloc_lem :
    (node_room : Option Bool) (name_room : Bool) (put : Bool → Result Nvlist) (t' : Nvlist)
    → put (held node_room) ≡ ok t'
    → let memory : Memory = record { node_room = node_room; name_room = name_room } in
      (nvpair_alloc memory false >>= put) ≡ (room memory >>= λ _. ok t')
unfolding held
nvpair_alloc_lem node_room false put t' e = refl
nvpair_alloc_lem none true put t' e = refl
nvpair_alloc_lem (some extra) true put t' e = e

set_there :
    (memory : Memory) (t : Nvlist) (val : Val) (m : List ℕ) (fs : Parents NvPair) (c : Bool)
    (l : Tree NvPair) (n : List ℕ) (v : Val) (r : Tree NvPair)
    → IsRbTree val_nvl_cmp t
    → find t n ≡ some (fs, node c l (n, v) r)
    → plug fs (node c l (n, v) r) ≡ t.root
    → Set memory t n val m
unfolding nvl_set nvl_exists
set_there memory t val m fs c l n v r w e at =
    let pre = passed tree_right fs ++ walk tree_right l in
    let post = walk tree_right r ++ beyond tree_right fs in
    let old : items t.root ≡ pre ++ (n, v) ∷ post =
      ap items (sym at) ∙ items-plug fs c l (n, v) r in
    let s' = new_value pre n v val post (subst (Sorted val_nvl_cmp) old w.sorted) in
    let new = items-plug fs c l (n, val) r in
    let t' : Nvlist = record t { root = plug fs (node c l (n, val) r) } in
    let w' =
      replace-IsRbTree val_nvl_cmp t fs c l (n, v) (n, val) r w at
        (subst (Sorted val_nvl_cmp) (sym new) s') in
    (
      t',
      rw (nvl_set, do_nvl_set, nvl_exists, e) refl,
      w',
      nvl_lookup-pair_of t' m w'
          ∙ ap (λ ps. answer (pair_of m ps)) new
          ∙ with_pair m n val pre post (items t.root) s'
              (λ no. ap (pair_of m) old ∙ pair_of-other m (n, v) pre post no)
          ∙ rw (nvl_lookup-pair_of t m w) refl,
    )

set_new :
    (memory : Memory) (t : Nvlist) (name : List ℕ) (val : Val) (m : List ℕ)
    → IsRbTree val_nvl_cmp t
    → find t name ≡ none
    → pair_of name (items t.root) ≡ none
    → Set memory t name val m
unfolding nvl_set rb_add nvl_exists
set_new memory t name val m w e nothing =
    let extra = held memory.node_room in
    elim (rb_insert_here-Inserted val_nvl_cmp val_nvl_cmp-IsLawful t extra (name, val) w) [
      | inl (x, pre, post, f, same, old) ↦
          let is : name ≡ x.0 = strcmp_same name x.0 same in
          let there = pair_of-middle pre x.0 x.1 post (subst (Sorted val_nvl_cmp) old w.sorted) in
          let clash : none ≡ some x =
            sym nothing
            ∙ ap (pair_of name) old
            ∙ subst (λ k. pair_of k (pre ++ x ∷ post) ≡ some x) (sym is) there in
          absurd (cc)
      | inr (t', f, w', put) ↦ (
        t',
        rw (nvl_set, do_nvl_set, nvl_exists, e)
            (nvpair_alloc_lem memory.node_room memory.name_room
              (λ x. rb_add val_nvl_cmp t x (name, val)) t' (rw (rb_add, f) refl)),
        w',
        nvl_lookup-pair_of t' m w'
            ∙ ap (λ ps. answer (pair_of m ps)) put.new_is
            ∙ with_pair m name val put.pre put.post (items t.root)
                (subst (Sorted val_nvl_cmp) put.new_is put.sorted) (λ no. ap (pair_of m) put.old_is)
            ∙ rw (nvl_lookup-pair_of t m w) refl,
      )
    ]

-- On a name-value list that is red-black, ordered by name and counted: there is such a list in
-- which a lookup of the name returns the new value and a lookup of any other name returns what it
-- did, and `nvl_set` returns that list if the name is there already, or if the allocator has
-- memory for a pair and for the copy of its name. Otherwise it returns ENOMEM if there is memory
-- for the copy but none for the pair, and if there is none for the copy, where the code goes on
-- with an error pointer for a name, the model ends with a fault.
pub nvl_set_lem :
    (memory : Memory) (t : Nvlist) (name : List ℕ) (val : Val) (m : List ℕ)
    → IsRbTree val_nvl_cmp t
    → (t' : Nvlist) × (nvl_set memory t name val
        ≡ ((if nvl_exists t name then ok tt else room memory) >>= λ _. ok t'))
      × IsRbTree val_nvl_cmp t'
      × (nvl_lookup t' m ≡ (if is_eq (strcmp m name) then ok (name, val) else nvl_lookup t m))
nvl_set_lem memory t name val m w = elim (find-Found t name w) [
  | inl (fs, c, l, (n, v), r, e, same, at) ↦
      let is : n ≡ name = sym (strcmp_same name n same) in
      subst (λ k. find t k ≡ some (fs, node c l (n, v) r) → Set memory t k val m) is
        (λ f. set_there memory t val m fs c l n v r w f at) e
  | inr (pre, post, e, old, low, high) ↦
      set_new memory t name val m w e
        (ap (pair_of name) old ∙ pair_of-between name null_pointer pre post low high)
]

-- What is promised of `unset` and of what a lookup of `m` returns in the list `t'` without the name.
abbrev Unset : Nvlist → List ℕ → ValType → Bool → List ℕ → Type 0
Unset t name ty matchtype m =
    (t' : Nvlist) × (unset t name ty matchtype ≡ (
      nvl_lookup t name >>= λ pair.
      (if matchtype then check_type pair.1 ty else ok tt) >>= λ _. ok t'))
    × IsRbTree val_nvl_cmp t'
    × (nvl_lookup t' m ≡ (if is_eq (strcmp m name) then err enoent else nvl_lookup t m))

removal_there :
    (t : Nvlist) (ty : ValType) (matchtype : Bool) (m : List ℕ) (fs : Parents NvPair) (c : Bool)
    (l : Tree NvPair) (n : List ℕ) (v : Val) (r : Tree NvPair)
    → IsRbTree val_nvl_cmp t
    → find t n ≡ some (fs, node c l (n, v) r)
    → plug fs (node c l (n, v) r) ≡ t.root
    → Unset t n ty matchtype m
unfolding unset
removal_there t ty matchtype m fs c l n v r w e at =
    let (t', pre, post, f, w', old, new) = rb_remove-Removed val_nvl_cmp t fs c l (n, v) r w at in
    let s = subst (Sorted val_nvl_cmp) old w.sorted in
    let there =
      nvl_lookup-pair_of t n w ∙ ap answer (ap (pair_of n) old ∙ pair_of-middle pre n v post s) in
    (
      t',
      rw (unset, e, there, f) refl,
      w',
      nvl_lookup-pair_of t' m w'
          ∙ ap (λ ps. answer (pair_of m ps)) new
          ∙ without_pair m n v pre post s
          ∙ rw (nvl_lookup-pair_of t m w, ap (pair_of m) old) refl,
    )

-- On a name-value list that is red-black, ordered by name and counted: there is such a list in
-- which a lookup of the name says ENOENT and any other lookup returns what it did, and `unset`
-- returns that list, or ENOENT where the name is missing, or, if types are to match, ERANGE where
-- the value has another type and a fault where the value is NULL.
pub unset_lem :
    (t : Nvlist) (name : List ℕ) (ty : ValType) (matchtype : Bool) (m : List ℕ)
    → IsRbTree val_nvl_cmp t
    → (t' : Nvlist) × (unset t name ty matchtype ≡ (
        nvl_lookup t name >>= λ pair.
        (if matchtype then check_type pair.1 ty else ok tt) >>= λ _. ok t'))
      × IsRbTree val_nvl_cmp t'
      × (nvl_lookup t' m ≡ (if is_eq (strcmp m name) then err enoent else nvl_lookup t m))
unfolding unset
unset_lem t name ty matchtype m w = elim (find-Found t name w) [
  | inl (fs, c, l, (n, v), r, e, same, at) ↦
      let is : n ≡ name = sym (strcmp_same name n same) in
      subst (λ k. find t k ≡ some (fs, node c l (n, v) r) → Unset t k ty matchtype m) is
        (λ f. removal_there t ty matchtype m fs c l n v r w f at) e
  | inr (pre, post, e, old, low, high) ↦
      let nothing =
        nvl_lookup-pair_of t name w
        ∙ ap answer (ap (pair_of name) old ∙ pair_of-between name null_pointer pre post low high) in
      (
        t,
        rw (unset, e, nothing) refl,
        w,
        elim (Bool-cases (is_eq (strcmp m name))) [
          | inl f ↦
              rw f (subst (λ k. nvl_lookup t k ≡ err enoent) (sym (is_eq_same m name f)) nothing)
          | inr f ↦ rw f refl
        ],
      )
]
