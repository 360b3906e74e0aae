-- ===== src/Cbor/Values/Whole.antt =====
-- Whole values that are packed at the end of a buffer and unpacked from there.
use libjeffpc.Base.{
  ℕ, ◌+◌, ◌*◌, ◌^◌, ◌≤◌, ◌<◌, ◌≡◌, ◌≢◌, refl, ap, ◌∙◌, inl, inr, Bool, none, some, List, [], ◌++◌,
  arith, length, length-append, ok,
}
use mathlib.Core.Path.{subst}
use libjeffpc.Buffer.{Buffer, sink_buffer, buffer_remain, buffer_init_static}
use libjeffpc.Buffer.Memory.{Allocator}
use libjeffpc.Buffer.Wellformed.{IsWellformed}
use libjeffpc.Val.{Val}
use libjeffpc.Cbor.{tmp_buffer, sync_buffers}
use libjeffpc.Cbor.Pack.{Packs}
use libjeffpc.Cbor.Reading.{Ahead, moved, remain-Ahead, sync-Ahead, tmp-Ahead}
use libjeffpc.Cbor.RoundTrip.{appended-Ahead}
use libjeffpc.Cbor.Values.{cbor_pack_val, cbor_unpack_val}
use libjeffpc.Cbor.Values.Encode.{encode, cbor_pack_val-Packs}
use libjeffpc.Cbor.Values.Decode.{IsReadable, readable-HasItem}
use libjeffpc.Cbor.Values.Unpack.{unpack_cbor_val-Ahead}

tmp_size : (b : Buffer) → (tmp_buffer b).size ≡ buffer_remain b
unfolding tmp_buffer buffer_init_static
tmp_size b = refl

cbor_unpack_val-Ahead :
    (alloc : Allocator) (extra : Bool) (v : Val) (fuel : ℕ) (rest : List ℕ) (b : Buffer)
    → ((n : ℕ) → alloc.malloc n ≢ none)
    → IsReadable v
    → 4 * length (encode v) ≤ fuel
    → length (encode v ++ rest) < 2 ^ 60
    → Ahead (encode v ++ rest) b
    → cbor_unpack_val alloc extra fuel b ≡ some (ok (v, moved b (length (encode v))))
unfolding cbor_unpack_val
cbor_unpack_val-Ahead alloc extra v fuel rest b memory h enough short a =
    let bytes = encode v ++ rest in
    let (ahead, start) = tmp-Ahead bytes b a in
    let small : (tmp_buffer b).size < 2 ^ 60 =
      omega (arith, tmp_size b, remain-Ahead bytes b a, short) in
    let last = moved (tmp_buffer b) (length (encode v)) in
    let off : last.off ≡ length (encode v) = omega (arith, start) in
    let long : last.off ≤ length bytes = omega (arith, off, length-append (encode v) rest) in
    let sync : sync_buffers b last ≡ ok (moved b (length (encode v))) =
      sync-Ahead bytes b a last long ∙ ap (λ (k : ℕ). ok (moved b k)) off in
    rw
      (
        cbor_unpack_val,
        unpack_cbor_val-Ahead alloc extra memory fuel v rest (tmp_buffer b) h enough small ahead,
        sync,
      )
      refl

-- Let a value have only null, numbers below 2 ^ 64, truth values, texts without a NUL, arrays,
-- and name-value lists whose names are without a NUL and in order. If `cbor_pack_val` succeeds on
-- it at the end of a well-formed buffer that is no sink and stays below 2 ^ 60 bytes, and if
-- malloc gives memory, `cbor_unpack_val` with four units of fuel for each byte of the item, or
-- more, reads that value from the buffer that is left, and moves it behind the item.
pub cbor_unpack_val-cbor_pack_val :
    (alloc : Allocator) (extra : Bool) (b b' : Buffer) (v : Val) (fuel : ℕ)
    → ((n : ℕ) → alloc.malloc n ≢ none)
    → IsReadable v
    → IsWellformed b
    → b.ops ≢ sink_buffer
    → b.off ≡ b.size
    → b.size + length (encode v) < 2 ^ 60
    → 4 * length (encode v) ≤ fuel
    → cbor_pack_val alloc b v ≡ (ok tt, b')
    → cbor_unpack_val alloc extra fuel b' ≡ some (ok (v, moved b' (length (encode v))))
cbor_unpack_val-cbor_pack_val alloc extra b b' v fuel memory h w readable at_end room enough
      packed =
    let item = encode v in
    let packs : Packs b item (ok tt, b') =
      subst (λ r. Packs b item r) packed
        (cbor_pack_val-Packs alloc b v (readable-HasItem v h) w (omega (arith, room))) in
    elim packs [
      | inl (_, g) ↦
          cbor_unpack_val-Ahead alloc extra v fuel [] b' memory h enough
            (omega (arith, room, length-append item []))
            (appended-Ahead b b' item w readable at_end (omega (arith, room)) g)
      | inr (_, _, _, fails, _) ↦ cc
    ]
