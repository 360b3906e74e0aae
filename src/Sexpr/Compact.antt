-- ===== src/Sexpr/Compact.antt =====
-- sexpr_compact.c: lists of cells turned into arrays and name-value lists. A result stands with whether it is
-- the pointer that was passed in.
mod Tests
use libjeffpc.Base.{
  ℕ, Bool, true, false, ◌&&◌, if◌then◌else◌, Result, ok, panic, fault, ◌>>=◌, List, [],
}
use libjeffpc.Val.{
  ValType, vt_null, vt_cons, vt_array, vt_nvl, Val, null_pointer, null, int, char, str, sym, blob,
  bool, cons, array, nvl, Vals, no_vals, elem, Pairs, no_pairs, pair, make_pairs,
}
use libjeffpc.Tree.Walk.{items}
use libjeffpc.Nvl.{Nvlist, val_alloc_nvl, enough, nvl_set_pair}
use libjeffpc.Sexpr.{sexpr_is_null}

-- Whether an item is a cell with a text or a symbol for its name.
abbrev pub is_name_value : Val → Bool
is_name_value (cons (str s) v) = true
is_name_value (cons (sym s) v) = true
is_name_value v = false

-- The loop of `what_is_it`, with whether all items so far are pairs of names and values.
unfoldable pub kind_of_list : Bool → Val → ValType
kind_of_list all_pairs null_pointer = if all_pairs then vt_nvl else vt_array
kind_of_list all_pairs (cons item tail) =
    let rest = kind_of_list (all_pairs && is_name_value item) tail in
    if sexpr_is_null (cons item tail) then (if all_pairs then vt_nvl else vt_array) else rest
kind_of_list all_pairs v = vt_cons

unfoldable pub what_is_it : Val → ValType
unfolding kind_of_list
what_is_it v = if sexpr_is_null v then vt_null else kind_of_list true v

-- The text of a name.
abbrev pub name_text : Val → List ℕ
name_text (str s) = s
name_text (sym s) = s
name_text v = []

-- `extra` is what the memory of a new pair's node holds.
module _ (extra : Bool) where
  unfoldable mutual
    pub sexpr_compact : Val → Result (Bool × Val)
    sexpr_compact null_pointer = fault
    sexpr_compact (array vs) = compact_elems vs >>= λ (equal, ws).
        ok (if equal then (true, array vs) else (false, array ws))
    sexpr_compact (nvl ps) = compact_pairs val_alloc_nvl ps >>= λ (equal, dst).
        ok (if equal then (true, nvl ps) else (false, nvl (make_pairs (items dst.root))))
    sexpr_compact (cons head tail) = elim (what_is_it (cons head tail)) [
      | vt_array ↦
          sexpr_compact head >>= λ (s, v). compact_list tail >>= λ vs. ok (false, array (elem v vs))
      | vt_nvl ↦ compact_name_value val_alloc_nvl head >>= λ first.
          compact_alist first tail >>= λ out. ok (false, nvl (make_pairs (items out.root)))
      | other ↦ ok (true, cons head tail)
    ]
    sexpr_compact v = ok (true, v)

    -- The loop of `sexpr_compact_array`.
    pub compact_elems : Vals → Result (Bool × Vals)
    compact_elems no_vals = ok (true, no_vals)
    compact_elems (elem v vs) = sexpr_compact v >>= λ (same, w).
        compact_elems vs >>= λ (equal, ws). ok (same && equal, elem w ws)

    -- The loop of `sexpr_compact_nvl`.
    pub compact_pairs : Nvlist → Pairs → Result (Bool × Nvlist)
    compact_pairs dst no_pairs = ok (true, dst)
    compact_pairs dst (pair name v ps) = sexpr_compact v >>= λ (same, w).
        nvl_set_pair (enough extra) dst (name, w) >>= λ dst'.
        compact_pairs dst' ps >>= λ (equal, all). ok (same && equal, all)

    -- The elements of a list, which is written into an array, and each compacted.
    pub compact_list : Val → Result Vals
    compact_list null_pointer = ok no_vals
    compact_list (cons head tail) =
        let first = sexpr_compact head in
        let rest = compact_list tail in
        if sexpr_is_null (cons head tail)
        then ok no_vals
        else (first >>= λ (s, v). rest >>= λ vs. ok (elem v vs))
    compact_list v = panic

    -- A round of the loop of `sexpr_compact_cons_nvl`, and the loop.
    pub compact_name_value : Nvlist → Val → Result Nvlist
    compact_name_value out (cons name value) =
        sexpr_compact value >>= λ (s, v). nvl_set_pair (enough extra) out (name_text name, v)
    compact_name_value out v = fault

    pub compact_alist : Nvlist → Val → Result Nvlist
    compact_alist out (cons cur tail) =
        let next = λ (out' : Nvlist). compact_alist out' tail in
        let set = compact_name_value out cur in
        if sexpr_is_null (cons cur tail) then ok out else (set >>= next)
    compact_alist out v = ok out
