-- ===== src/Cbor/Values.antt =====
-- The functions of fmt_cbor.c that pack and unpack whole values.
mod Encode
mod Start
mod Decode
mod Step
mod Unpack
mod Whole
mod Tests
use libjeffpc.Base.{
  Run, ◌>>?◌, ℕ, zero, suc, ◌+◌, ◌-◌, ◌*◌, ◌/◌, ◌%◌, ◌^◌, Bool, true, false, Option, none, some,
  List, [], ◌∷◌, length, ltb, ◌==◌, if◌then◌else◌, Result, ok, err, panic, fault, ◌>>=◌, Errno,
  eilseq, enomem, enotsup,
}
use libjeffpc.Buffer.{Buffer}
use libjeffpc.Buffer.Memory.{Allocator, array_memory}
use libjeffpc.Val.{
  ValType, vt_null, vt_int, vt_str, vt_bool, vt_blob, vt_array, vt_nvl, Val, null_pointer, null,
  int, char, str, sym, blob, bool, cons, array, nvl, Vals, no_vals, elem, Pairs, no_pairs, pair,
  vals, pairs, make_pairs, strnlen_bytes,
}
use libjeffpc.Tree.Walk.{items}
use libjeffpc.Nvl.{Nvlist, val_alloc_nvl, enough, nvl_set_pair}
use libjeffpc.Cbor.{
  Packed, and_then, cbor_pack_uint, cbor_pack_cstr_len, cbor_pack_bool, cbor_pack_null,
  cbor_pack_blob, cbor_pack_array_start, cbor_pack_array_end, cbor_pack_map_start,
  cbor_pack_map_end, cbor_peek_type, cbor_peek_break, cbor_unpack_uint, cbor_unpack_blob,
  cbor_unpack_cstr_len, cbor_unpack_bool, cbor_unpack_null, cbor_unpack_map_start,
  cbor_unpack_map_end, cbor_unpack_array_start, cbor_unpack_array_end, tmp_buffer, sync_buffers,
}

module _ (alloc : Allocator) where
  unfoldable pub cbor_pack_str : Buffer → List ℕ → Packed
  cbor_pack_str b s = cbor_pack_cstr_len alloc b (some s) (length s)

  -- The type of NULL is read through it.
  unfoldable mutual
    pub cbor_pack_val : Buffer → Val → Packed
    cbor_pack_val b null_pointer = (fault, b)
    cbor_pack_val b null = cbor_pack_null alloc b
    cbor_pack_val b (int i) = cbor_pack_uint alloc b i
    cbor_pack_val b (str s) = cbor_pack_str b s
    cbor_pack_val b (sym s) = (err enotsup, b)
    cbor_pack_val b (bool v) = cbor_pack_bool alloc b v
    cbor_pack_val b (cons h t) = (err enotsup, b)
    cbor_pack_val b (char c) = (err enotsup, b)
    cbor_pack_val b (blob s) = cbor_pack_blob alloc b (some s) (length s)
    cbor_pack_val b (array vs) =
        let nelem = length (vals vs) in
        and_then (and_then (cbor_pack_array_start alloc b nelem) (λ b'. pack_elems b' vs))
          λ b'. cbor_pack_array_end alloc b' nelem
    cbor_pack_val b (nvl ps) =
        let npairs = length (pairs ps) in
        and_then (and_then (cbor_pack_map_start alloc b npairs) (λ b'. pack_pairs b' ps))
          λ b'. cbor_pack_map_end alloc b' npairs

    -- The loop of `cbor_pack_array_vals`.
    pub pack_elems : Buffer → Vals → Packed
    pack_elems b no_vals = (ok tt, b)
    pack_elems b (elem v vs) = and_then (cbor_pack_val b v) λ b'. pack_elems b' vs

    -- The loop of `cbor_pack_map_val`.
    pub pack_pairs : Buffer → Pairs → Packed
    pack_pairs b no_pairs = (ok tt, b)
    pack_pairs b (pair name v ps) =
        and_then (and_then (cbor_pack_str b name) (λ b'. cbor_pack_val b' v)) λ b'. pack_pairs b' ps

-- The block is read up to its first NUL.
unfoldable pub unpack_cbor_str : Allocator → Buffer → Result (List ℕ × Buffer)
unfolding strnlen_bytes
unpack_cbor_str alloc b = do
  ((block, len), b') ← cbor_unpack_cstr_len alloc b
  ok (strnlen_bytes block (length block), b')

unfoldable pub unpack_cbor_null : Buffer → Result (Val × Buffer)
unpack_cbor_null b = cbor_unpack_null b >>= λ b'. ok (null, b')

unfoldable pub unpack_cbor_uint : Buffer → Result (Val × Buffer)
unpack_cbor_uint b = cbor_unpack_uint b >>= λ (v, b'). ok (int v, b')

unfoldable pub unpack_cbor_bool : Buffer → Result (Val × Buffer)
unpack_cbor_bool b = cbor_unpack_bool b >>= λ (v, b'). ok (bool v, b')

unfoldable pub unpack_cbor_blob : Buffer → Result (Val × Buffer)
unpack_cbor_blob b = cbor_unpack_blob b >>= λ ((bytes, size), b'). ok (blob bytes, b')

-- `extra` is what the memory of a new pair's node holds.
module _ (alloc : Allocator) (extra : Bool) where
  -- Each call and each round of a loop takes one unit of fuel.
  unfoldable mutual
    pub unpack_cbor_val : ℕ → Buffer → Run (Val × Buffer)
    unpack_cbor_val zero b = none
    unpack_cbor_val (suc fuel) b = some (cbor_peek_type b) >>? λ t. elim t [
      | vt_null ↦ some (unpack_cbor_null b)
      | vt_int ↦ some (unpack_cbor_uint b)
      | vt_str ↦ some (unpack_cbor_str alloc b >>= λ (s, b'). ok (str s, b'))
      | vt_bool ↦ some (unpack_cbor_bool b)
      | vt_blob ↦ some (unpack_cbor_blob b)
      | vt_array ↦ unpack_cbor_array fuel b
      | vt_nvl ↦ unpack_cbor_nvl fuel b
      | other ↦ some (err enotsup)
    ]

    pub unpack_cbor_array : ℕ → Buffer → Run (Val × Buffer)
    unpack_cbor_array zero b = none
    unpack_cbor_array (suc fuel) b =
        some (cbor_unpack_array_start b) >>? λ ((nelem, end_required), b1).
        (if end_required then unpack_elems_indef fuel 0 b1 else elim (array_memory alloc nelem) [
          | none ↦ some (err enomem)
          | some room ↦ unpack_elems fuel nelem room b1
        ])
        >>? λ (vs, b2).
            some (cbor_unpack_array_end b2 end_required) >>? λ b3. some (ok (array vs, b3))

    -- The loop over a known number of elements, into what is left of the array's room.
    pub unpack_elems : ℕ → ℕ → ℕ → Buffer → Run (Vals × Buffer)
    unpack_elems zero n room b = none
    unpack_elems (suc fuel) zero room b = some (ok (no_vals, b))
    unpack_elems (suc fuel) (suc n) room b = unpack_cbor_val fuel b >>? λ (v, b1).
        if (room == 0)
        then some fault
        else (unpack_elems fuel n (room - 1) b1 >>? λ (vs, b2). some (ok (elem v vs, b2)))

    -- The loop up to the break, with the number of elements so far.
    pub unpack_elems_indef : ℕ → ℕ → Buffer → Run (Vals × Buffer)
    unpack_elems_indef zero nelem b = none
    unpack_elems_indef (suc fuel) nelem b = elim (cbor_peek_break b) [
      | ok at_end ↦ some (ok (no_vals, b))
      | err eilseq ↦ unpack_cbor_val fuel b >>? λ (v, b1). elim (array_memory alloc (nelem + 1)) [
        | none ↦ some (err enomem)
        | some room ↦
            if ltb nelem room
            then (unpack_elems_indef fuel (nelem + 1) b1 >>? λ (vs, b2). some (ok (elem v vs, b2)))
            else some fault
      ]
      | err e ↦ some (err e)
      | panic ↦ some panic
      | fault ↦ some fault
    ]

    pub unpack_cbor_pair : ℕ → Nvlist → Buffer → Run (Nvlist × Buffer)
    unpack_cbor_pair zero t b = none
    unpack_cbor_pair (suc fuel) t b = some (unpack_cbor_str alloc b) >>? λ (name, b1).
        unpack_cbor_val fuel b1 >>? λ (value, b2).
        some (nvl_set_pair (enough extra) t (name, value)) >>? λ t'. some (ok (t', b2))

    pub unpack_cbor_nvl : ℕ → Buffer → Run (Val × Buffer)
    unpack_cbor_nvl zero b = none
    unpack_cbor_nvl (suc fuel) b =
        some (cbor_unpack_map_start b) >>? λ ((npairs, end_required), b1).
        (if end_required
          then unpack_pairs_indef fuel val_alloc_nvl b1
          else unpack_pairs fuel npairs val_alloc_nvl b1)
        >>? λ (t, b2). some (cbor_unpack_map_end b2 end_required) >>? λ b3.
            some (ok (nvl (make_pairs (items t.root)), b3))

    -- The loop over a known number of pairs.
    pub unpack_pairs : ℕ → ℕ → Nvlist → Buffer → Run (Nvlist × Buffer)
    unpack_pairs zero n t b = none
    unpack_pairs (suc fuel) zero t b = some (ok (t, b))
    unpack_pairs (suc fuel) (suc n) t b =
        unpack_cbor_pair fuel t b >>? λ (t', b1). unpack_pairs fuel n t' b1

    -- The loop up to the break.
    pub unpack_pairs_indef : ℕ → Nvlist → Buffer → Run (Nvlist × Buffer)
    unpack_pairs_indef zero t b = none
    unpack_pairs_indef (suc fuel) t b = elim (cbor_peek_break b) [
      | ok at_end ↦ some (ok (t, b))
      | err eilseq ↦ unpack_cbor_pair fuel t b >>? λ (t', b1). unpack_pairs_indef fuel t' b1
      | err e ↦ some (err e)
      | panic ↦ some panic
      | fault ↦ some fault
    ]

  unfoldable pub cbor_unpack_val : ℕ → Buffer → Run (Val × Buffer)
  unfolding unpack_cbor_val
  cbor_unpack_val fuel b = unpack_cbor_val fuel (tmp_buffer b) >>? λ (v, tmp).
      some (sync_buffers b tmp) >>? λ b'. some (ok (v, b'))
