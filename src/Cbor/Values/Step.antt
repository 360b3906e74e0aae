-- ===== src/Cbor/Values/Step.antt =====
-- The rounds of unpacking whole values, where each part of a value is read.
use libjeffpc.Base.{ℕ, suc, ◌-◌, ◌==◌, ◌≡◌, refl, Bool, false, some, List, arith, Result, ok}
use libjeffpc.Buffer.{Buffer}
use libjeffpc.Buffer.Memory.{Allocator, array_memory}
use libjeffpc.Val.{
  vt_null, vt_int, vt_str, vt_bool, vt_array, vt_nvl, Val, str, array, nvl, Vals, no_vals, elem,
  make_pairs,
}
use libjeffpc.Tree.Walk.{items}
use libjeffpc.Nvl.{Nvlist, val_alloc_nvl, enough, nvl_set_pair}
use libjeffpc.Cbor.{
  cbor_peek_type, cbor_unpack_array_start, cbor_unpack_array_end, cbor_unpack_map_start,
  cbor_unpack_map_end,
}
use libjeffpc.Cbor.Values.{
  unpack_cbor_str, unpack_cbor_null, unpack_cbor_uint, unpack_cbor_bool, unpack_cbor_val,
  unpack_elems, unpack_pairs,
}

module _ (alloc : Allocator) (extra : Bool) (fuel : ℕ) (b : Buffer) where
  -- What the type of the item leads to.
  pub null_step :
      (r : Result (Val × Buffer))
      → cbor_peek_type b ≡ ok vt_null
      → unpack_cbor_null b ≡ r
      → unpack_cbor_val alloc extra (suc fuel) b ≡ some r
  unfolding unpack_cbor_val
  null_step r e f = rw (e, f) refl

  pub int_step :
      (r : Result (Val × Buffer))
      → cbor_peek_type b ≡ ok vt_int
      → unpack_cbor_uint b ≡ r
      → unpack_cbor_val alloc extra (suc fuel) b ≡ some r
  unfolding unpack_cbor_val
  int_step r e f = rw (e, f) refl

  pub bool_step :
      (r : Result (Val × Buffer))
      → cbor_peek_type b ≡ ok vt_bool
      → unpack_cbor_bool b ≡ r
      → unpack_cbor_val alloc extra (suc fuel) b ≡ some r
  unfolding unpack_cbor_val
  bool_step r e f = rw (e, f) refl

  pub str_step :
      (s : List ℕ) (b1 : Buffer)
      → cbor_peek_type b ≡ ok vt_str
      → unpack_cbor_str alloc b ≡ ok (s, b1)
      → unpack_cbor_val alloc extra (suc fuel) b ≡ some (ok (str s, b1))
  unfolding unpack_cbor_val
  str_step s b1 e f = rw (e, f) refl

  pub array_step :
      (n room : ℕ) (vs : Vals) (b1 b2 : Buffer)
      → cbor_peek_type b ≡ ok vt_array
      → cbor_unpack_array_start b ≡ ok ((n, false), b1)
      → array_memory alloc n ≡ some room
      → unpack_elems alloc extra fuel n room b1 ≡ some (ok (vs, b2))
      → unpack_cbor_val alloc extra (suc (suc fuel)) b ≡ some (ok (array vs, b2))
  unfolding unpack_cbor_val cbor_unpack_array_end
  array_step n room vs b1 b2 e f g h = rw (e, f, g, h) refl

  pub end_step :
      (t : Nvlist)
      → (unpack_elems alloc extra (suc fuel) 0 0 b ≡ some (ok (no_vals, b)))
        × (unpack_pairs alloc extra (suc fuel) 0 t b ≡ some (ok (t, b)))
  unfolding unpack_cbor_val
  end_step t = (refl, refl)

  pub elem_step :
      (n : ℕ) (v : Val) (vs : Vals) (b1 b2 : Buffer)
      → unpack_cbor_val alloc extra fuel b ≡ some (ok (v, b1))
      → unpack_elems alloc extra fuel n n b1 ≡ some (ok (vs, b2))
      → unpack_elems alloc extra (suc fuel) (suc n) (suc n) b ≡ some (ok (elem v vs, b2))
  unfolding unpack_cbor_val
  elem_step n v vs b1 b2 e f =
      let more : (suc n == 0) ≡ false = ground arith in
      let back : suc n - 1 ≡ n = omega arith in rw (unpack_elems, e, more, back, f) refl

  pub nvl_step :
      (n : ℕ) (t : Nvlist) (b1 b2 : Buffer)
      → cbor_peek_type b ≡ ok vt_nvl
      → cbor_unpack_map_start b ≡ ok ((n, false), b1)
      → unpack_pairs alloc extra fuel n val_alloc_nvl b1 ≡ some (ok (t, b2))
      → unpack_cbor_val alloc extra (suc (suc fuel)) b
        ≡ some (ok (nvl (make_pairs (items t.root)), b2))
  unfolding unpack_cbor_val cbor_unpack_map_end
  nvl_step n t b1 b2 e f g = rw (e, f, g) refl

  pub pair_step :
      (n : ℕ) (t t1 t2 : Nvlist) (name : List ℕ) (v : Val) (b1 b2 b3 : Buffer)
      → unpack_cbor_str alloc b ≡ ok (name, b1)
      → unpack_cbor_val alloc extra fuel b1 ≡ some (ok (v, b2))
      → nvl_set_pair (enough extra) t (name, v) ≡ ok t1
      → unpack_pairs alloc extra (suc fuel) n t1 b2 ≡ some (ok (t2, b3))
      → unpack_pairs alloc extra (suc (suc fuel)) (suc n) t b ≡ some (ok (t2, b3))
  unfolding unpack_cbor_val
  pair_step n t t1 t2 name v b1 b2 b3 e f g h = rw (e, f, g, h) refl
