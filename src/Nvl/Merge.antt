-- ===== src/Nvl/Merge.antt =====
-- What `nvl_merge` does to a list, told by lookups.
use libjeffpc.Base.{
  ℕ, ◌+◌, Bool, true, false, Option, none, some, List, [], ◌∷◌, ◌++◌, length, if◌then◌else◌, ◌≡◌,
  ◌⊎◌, inl, inr, refl, sym, ap, ◌∙◌, arith, Result, ok, err, fault, enomem, ◌>>=◌, Bool-cases, All,
}
use mathlib.Core.Path.{subst}
use libjeffpc.Val.{Val, strcmp, is_eq}
use libjeffpc.Tree.Walk.{items}
use libjeffpc.Tree.Search.{All-split, Less, Sorted}
use libjeffpc.Rbtree.Insert.{IsRbTree}
use libjeffpc.Nvl.{
  NvPair, Nvlist, val_nvl_cmp, nvl_lookup, nvl_exists, Memory, nvl_set, merge_pairs, nvl_merge,
}
use libjeffpc.Nvl.Names.{pair_of, pair_of-none, is_eq_same}
use libjeffpc.Nvl.Lookup.{answer, nvl_lookup-pair_of}
use libjeffpc.Nvl.Change.{room, nvl_set_lem}

-- The first of two lookups that finds a pair.
abbrev pub or_else : Result NvPair → Result NvPair → Result NvPair
or_else (ok p) r = ok p
or_else q r = r

step :
    (m name : List ℕ) (val : Val) (ps : List NvPair) (r : Result NvPair)
    → All (λ y. Less val_nvl_cmp (name, val) y) ps
    → or_else (answer (pair_of m ps)) (if is_eq (strcmp m name) then ok (name, val) else r)
      ≡ or_else (answer (pair_of m ((name, val) ∷ ps))) r
step m name val ps r s = elim (Bool-cases (is_eq (strcmp m name))) [
  | inl e ↦
      let is = is_eq_same m name e in
      let nothing : pair_of m ps ≡ none = ap (λ k. pair_of k ps) is ∙ pair_of-none name val ps s in
      rw (e, nothing) refl
  | inr e ↦ rw e refl
]

-- The merge of `ps` into `t` stops at one of them, behind those told in `done`.
pub record Stopped (memory : ℕ → Memory) (i : ℕ) (t : Nvlist) (ps : List NvPair) (m : List ℕ)
    (r : Result (Unit {0})) (t' : Nvlist) : Type 0 where
  pub done : List NvPair
  pub stop : NvPair
  pub rest : List NvPair
  pub splits : ps ≡ done ++ stop ∷ rest
  pub missing : nvl_exists t' stop.0 ≡ false
  pub reason : r ≡ room (memory (i + length done))
  pub fails : (r ≡ err enomem) ⊎ (r ≡ fault)
  pub lookup : nvl_lookup t' m ≡ or_else (answer (pair_of m done)) (nvl_lookup t m)

-- Whether a new pair has to be made, and is.
attempt :
    (there : Bool) (node_room : Option Bool) (name_room : Bool)
    → let memory : Memory = record { node_room = node_room; name_room = name_room } in
      ((if there then ok tt else room memory) ≡ ok tt)
      ⊎ ((there ≡ false) × ((room memory ≡ err enomem) ⊎ (room memory ≡ fault)))
attempt true node_room name_room = inl refl
attempt false node_room false = inr (refl, inr refl)
attempt false none true = inr (refl, inl refl)
attempt false (some extra) true = inl refl

-- A pair that cannot be set stops the merge.
merge_pairs-Stopped :
    (memory : ℕ → Memory) (i : ℕ) (t : Nvlist) (name : List ℕ) (val : Val) (ps : List NvPair)
    (m : List ℕ) (t1 : Nvlist)
    → nvl_set (memory i) t name val
      ≡ ((if nvl_exists t name then ok tt else room (memory i)) >>= λ _. ok t1)
    → nvl_exists t name ≡ false
    → (room (memory i) ≡ err enomem) ⊎ (room (memory i) ≡ fault)
    → (r : Result (Unit {0})) × (merge_pairs memory i t ((name, val) ∷ ps) ≡ (r, t))
      × Stopped memory i t ((name, val) ∷ ps) m r t
unfolding merge_pairs
merge_pairs-Stopped memory i t name val ps m t1 e new why =
    let n : i + 0 ≡ i = omega arith in
    let here : (r : Result (Unit {0}))
        → room (memory i) ≡ r
        → (r ≡ err enomem) ⊎ (r ≡ fault)
        → Stopped memory i t ((name, val) ∷ ps) m r t =
      λ r is fail. record {
        done = [];
        stop = (name, val);
        rest = ps;
        splits = refl;
        missing = new;
        reason = rw n (sym is);
        fails = fail;
        lookup = refl;
      } in
    elim why [
      | inl f ↦ (err enomem, rw (merge_pairs, e, new, f) refl, here (err enomem) f (inl refl))
      | inr f ↦ (fault, rw (merge_pairs, e, new, f) refl, here fault f (inr refl))
    ]

-- What stops the rest of a merge stops it behind one more pair.
later :
    (memory : ℕ → Memory) (i : ℕ) (t t1 : Nvlist) (name : List ℕ) (val : Val) (ps : List NvPair)
    (m : List ℕ) (r : Result (Unit {0})) (t2 : Nvlist)
    → nvl_lookup t1 m ≡ (if is_eq (strcmp m name) then ok (name, val) else nvl_lookup t m)
    → All (λ y. Less val_nvl_cmp (name, val) y) ps
    → Stopped memory (i + 1) t1 ps m r t2
    → Stopped memory i t ((name, val) ∷ ps) m r t2
later memory i t t1 name val ps m r t2 same low s =
    let n : i + 1 + length s.done ≡ i + length ((name, val) ∷ s.done) = omega arith in
    let above : All (λ y. Less val_nvl_cmp (name, val) y) (s.done ++ s.stop ∷ s.rest) =
      subst (All (λ y. Less val_nvl_cmp (name, val) y)) s.splits low in
    let before = All-split (λ y. Less val_nvl_cmp (name, val) y) s.done (s.stop ∷ s.rest) above in
    record {
      done = (name, val) ∷ s.done;
      stop = s.stop;
      rest = s.rest;
      splits = ap (λ xs. (name, val) ∷ xs) s.splits;
      missing = s.missing;
      reason = s.reason ∙ ap (λ (k : ℕ). room (memory k)) n;
      fails = s.fails;
      lookup =
          s.lookup
          ∙ ap (or_else (answer (pair_of m s.done))) same
          ∙ step m name val s.done (nvl_lookup t m) before.0;
    }

merge_pairs_lem :
    (memory : ℕ → Memory) (i : ℕ) (t : Nvlist) (ps : List NvPair) (m : List ℕ)
    → IsRbTree val_nvl_cmp t
    → Sorted val_nvl_cmp ps
    → (r : Result (Unit {0})) × (t' : Nvlist) × (merge_pairs memory i t ps ≡ (r, t'))
      × IsRbTree val_nvl_cmp t'
      × (((r ≡ ok tt) × (nvl_lookup t' m ≡ or_else (answer (pair_of m ps)) (nvl_lookup t m)))
          ⊎ Stopped memory i t ps m r t')
unfolding merge_pairs
merge_pairs_lem memory i t [] m w s = (ok tt, t, refl, w, inl (refl, refl))
merge_pairs_lem memory i t ((name, val) ∷ ps) m w s =
    let (t1, e, w1, same) = nvl_set_lem (memory i) t name val m w in
    elim (attempt (nvl_exists t name) (memory i).node_room (memory i).name_room) [
      | inr (new, why) ↦
          let (r, f, stopped) = merge_pairs-Stopped memory i t name val ps m t1 e new why in
          (r, t, f, w, inr stopped)
      | inl done ↦
          let (r, t2, f, w2, out) = merge_pairs_lem memory (i + 1) t1 ps m w1 s.1 in
          (
            r,
            t2,
            rw (merge_pairs, e, done, f) refl,
            w2,
            elim out [
              | inl (fine, same') ↦ inl (
                fine,
                same'
                    ∙ ap (or_else (answer (pair_of m ps))) same
                    ∙ step m name val ps (nvl_lookup t m) s.0,
              )
              | inr stopped ↦ inr (later memory i t t1 name val ps m r t2 same s.0 stopped)
            ],
          )
    ]

-- Merging a name-value list into another, both red-black, ordered by name and counted, leaves the
-- other one red-black, ordered and counted. Either the merge succeeds, and then a lookup returns
-- the pair of the merged list where that has the name, and else what it did; or it stops at a
-- pair whose name the list does not have, since the allocator has no memory for that pair, which
-- is ENOMEM, or for the copy of its name, which the model ends with a fault, and then the same
-- holds of lookups with the pairs before that one in place of the merged list.
pub nvl_merge_lem :
    (memory : ℕ → Memory) (dest src : Nvlist) (m : List ℕ)
    → IsRbTree val_nvl_cmp dest
    → IsRbTree val_nvl_cmp src
    → (r : Result (Unit {0})) × (t' : Nvlist) × (nvl_merge memory dest src ≡ (r, t'))
      × IsRbTree val_nvl_cmp t'
      × (((r ≡ ok tt) × (nvl_lookup t' m ≡ or_else (nvl_lookup src m) (nvl_lookup dest m)))
          ⊎ Stopped memory 0 dest (items src.root) m r t')
unfolding nvl_merge
nvl_merge_lem memory dest src m w v =
    let (r, t', e, w', out) = merge_pairs_lem memory 0 dest (items src.root) m w v.sorted in
    (r, t', e, w', rw (nvl_lookup-pair_of src m v) out)
