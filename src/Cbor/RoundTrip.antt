-- ===== src/Cbor/RoundTrip.antt =====
-- What is packed at the end of a buffer is unpacked from there.
use libjeffpc.Base.{
  ℕ, ◌+◌, ◌^◌, ◌≤◌, ◌<◌, ◌≡◌, ◌≢◌, sym, ap, ◌∙◌, inl, inr, true, List, [], ◌++◌, arith, length,
  drop, ok, append-nil, drop-append,
}
use libjeffpc.Buffer.{Buffer, sink_buffer, ssize_max}
use libjeffpc.Buffer.Memory.{Allocator}
use libjeffpc.Buffer.Wellformed.{IsWellformed, contents}
use libjeffpc.Buffer.Contents.{Holds}
use libjeffpc.Buffer.Write.{length-contents}
use libjeffpc.Cbor.{cmt_uint, cbor_pack_uint, cbor_unpack_uint, same_type}
use libjeffpc.Cbor.Spec.{head, head-shortest, form_le, length-head}
use libjeffpc.Cbor.Pack.{Packs, cbor_pack_uint-Packs}
use libjeffpc.Cbor.Reading.{Ahead, moved}
use libjeffpc.Cbor.Unpack.{cbor_unpack_uint-head}
use mathlib.Core.Path.{subst}

-- The bytes appended stand ahead of an offset that was at the end.
pub appended-Ahead :
    (b b' : Buffer) (item : List ℕ)
    → IsWellformed b
    → b.ops ≢ sink_buffer
    → b.off ≡ b.size
    → b.size + length item ≤ ssize_max
    → Holds b (b.size + length item) b.off (contents b ++ item) b'
    → Ahead (item ++ []) b'
appended-Ahead b b' item w readable at_end fits h =
    let off : b'.off ≡ length (contents b) =
      omega (arith, h.off_is, at_end, length-contents b w readable) in
    record {
      wellformed = h.wellformed;
      readable = λ sink. readable (sym h.same_ops ∙ sink);
      counted = omega (arith, h.size_is);
      ahead = elim h.held [
        | inl sink ↦ absurd (readable sink)
        | inr held ↦
            ap (λ (k : ℕ). drop k (contents b')) off
            ∙ ap (drop (length (contents b))) held
            ∙ drop-append (contents b) item
            ∙ sym (append-nil item)
      ];
    }

-- On a well-formed buffer with its offset at its end: if `cbor_pack_uint` succeeds on a 64-bit number,
-- `cbor_unpack_uint` reads that number from the buffer that is left, and moves it behind the item.
pub cbor_unpack_uint-cbor_pack_uint :
    (alloc : Allocator) (b b' : Buffer) (v : ℕ)
    → IsWellformed b
    → b.ops ≢ sink_buffer
    → b.off ≡ b.size
    → b.size + 9 ≤ ssize_max
    → v < 2 ^ 64
    → cbor_pack_uint alloc b v ≡ (ok tt, b')
    → cbor_unpack_uint b' ≡ ok (v, moved b' (length (head cmt_uint v)))
unfolding same_type
cbor_unpack_uint-cbor_pack_uint alloc b b' v w readable at_end fits small packed =
    let item = head cmt_uint v in
    let room : b.size + length item ≤ ssize_max =
      omega (arith, length-head cmt_uint v, form_le v) in
    let packs : Packs b item (ok tt, b') =
      subst (λ r. Packs b item r) packed
        (subst (λ bytes. Packs b bytes (cbor_pack_uint alloc b v)) (sym (head-shortest cmt_uint v))
          (cbor_pack_uint-Packs alloc b v true w (omega arith)).0) in
    elim packs [
      | inl (_, h) ↦
          (cbor_unpack_uint-head cmt_uint v [] b' small
            (appended-Ahead b b' item w readable at_end room h)).0
      | inr (_, _, _, fails, _) ↦ cc
    ]
