-- ===== src/Cbor/Pack.antt =====
-- Packing appends the items that RFC 8949 describes, or a part of one where it fails.
use libjeffpc.Base.{
  ℕ, suc, ◌+◌, ◌-◌, ◌^◌, ◌≤◌, ◌<◌, ◌≡◌, refl, sym, ap, ◌∙◌, ◌⊎◌, inl, inr, some, List, [], ◌∷◌,
  ◌++◌, arith, leb, if◌then◌else◌, length, take, cpu_to_be, Errno, Bool, Result, ok, err,
  Bool-cases, append-nil, append_assoc, take-append_lem, length-append, erofs, enospc, enomem,
}
use libjeffpc.Base.Endian.{length-cpu_to_be}
use libjeffpc.Buffer.{Buffer}
use libjeffpc.Buffer.Memory.{Allocator}
use libjeffpc.Buffer.Wellformed.{IsWellformed, contents}
use libjeffpc.Buffer.Contents.{Holds}
use libjeffpc.Buffer.Append.{buffer_append-Does}
use libjeffpc.Cbor.{
  MajorType, cmt_uint, cmt_text, cmt_byte, cmt_float, type_number, mktype, addl_of, Packed,
  and_then, append, pack_cbor_type_byte, pack_cbor_type, cbor_pack_uint, cbor_pack_blob,
  cbor_pack_cstr_len, cbor_pack_bool, cbor_pack_null,
}
use libjeffpc.Cbor.Spec.{form, head, shortest, head-shortest, length-head, form_le}
use mathlib.Core.Path.{subst}

-- The buffer holds the old bytes and then `item`.
abbrev pub Extended : Buffer → List ℕ → Buffer → Type 0
Extended b item b' = Holds b (b.size + length item) b.off (contents b ++ item) b'

-- All that packing `item` can do: append it, or fail with the first `k` bytes of it appended.
abbrev pub Packs : Buffer → List ℕ → Packed → Type 0
Packs b item (r, b') =
    ((r ≡ ok tt) × Extended b item b')
    ⊎ ((e : Errno) × (k : ℕ) × (k ≤ length item) × (r ≡ err e) × Extended b (take k item) b')

pub unchanged : (b : Buffer) → IsWellformed b → Extended b [] b
unchanged b w = record {
  wellformed = w;
  same_ops = refl;
  size_is = omega arith;
  off_is = refl;
  held = inr (sym (append-nil (contents b)));
}

Extended-append :
    (b b1 b2 : Buffer) (x y : List ℕ) → Extended b x b1 → Extended b1 y b2 → Extended b (x ++ y) b2
Extended-append b b1 b2 x y h g = record {
  wellformed = g.wellformed;
  same_ops = g.same_ops ∙ h.same_ops;
  size_is = omega (arith, g.size_is, h.size_is, length-append x y);
  off_is = g.off_is ∙ h.off_is;
  held = elim h.held [
    | inl sink ↦ inl sink
    | inr old ↦ elim g.held [
      | inl sink ↦ inl (sym h.same_ops ∙ sink)
      | inr new ↦ inr (new ∙ ap (λ c. c ++ y) old ∙ append_assoc (contents b) x y)
    ]
  ];
}

take-append_first : (k : ℕ) (x y : List ℕ) → k ≤ length x → take k (x ++ y) ≡ take k x
take-append_first k x y h =
    let none_more : k - length x ≡ 0 = omega arith in
    take-append_lem k x y ∙ rw (none_more, append-nil)

take-append_second : (x y : List ℕ) (k : ℕ) → take (length x + k) (x ++ y) ≡ x ++ take k y
take-append_second [] y k = let e : 0 + k ≡ k = omega arith in rw e refl
take-append_second (a ∷ x) y k =
    let e : suc (length x) + k ≡ suc (length x + k) = omega arith in
    rw (e, take-append_second x y k) refl

module _ (b : Buffer) (x y : List ℕ) (next : Buffer → Packed) where
  pub and_then-Packs :
      (r : Result (Unit {0})) (b1 : Buffer)
      → Packs b x (r, b1)
      → (Extended b x b1 → Packs b1 y (next b1))
      → Packs b (x ++ y) (and_then (r, b1) next)
  unfolding and_then
  and_then-Packs r b1 (inl (e, h)) k = rw e (elim (k h) [
    | inl (done, g) ↦ inl (done, Extended-append b b1 (next b1).1 x y h g)
    | inr (error, n, part, fails, g) ↦ inr (
      error,
      length x + n,
      omega (arith, length-append x y),
      fails,
      rw (take-append_second x y n) (Extended-append b b1 (next b1).1 x (take n y) h g),
    )
  ])
  and_then-Packs r b1 (inr (error, n, part, fails, g)) k =
      rw fails (
        inr (error, n, omega (arith, length-append x y), refl, rw (take-append_first n x y part) g))

module _ (alloc : Allocator) where
  append-Packs :
      (b : Buffer) (bytes : List ℕ) (n : ℕ)
      → n ≡ length bytes
      → IsWellformed b
      → b.size + length bytes < 2 ^ 64
      → Packs b bytes (append alloc b (some bytes) n)
  unfolding append
  append-Packs b bytes n same w room = rw same (elim (buffer_append-Does alloc b bytes w room) [
    | inl (_, e) ↦ rw (append, e) (inr (erofs, 0, omega arith, refl, unchanged b w))
    | inr (inl (_, _, e)) ↦ rw (append, e) (inr (enospc, 0, omega arith, refl, unchanged b w))
    | inr (inr (inl (_, _, e))) ↦ rw (append, e) (inr (enomem, 0, omega arith, refl, unchanged b w))
    | inr (inr (inr (b', e, h))) ↦ rw (append, e) (inl (refl, h))
  ])

  type_byte-Packs :
      (b : Buffer) (t : MajorType) (addl : ℕ)
      → IsWellformed b
      → b.size + 1 < 2 ^ 64
      → Packs b (mktype t addl ∷ []) (pack_cbor_type_byte alloc b t addl)
  unfolding pack_cbor_type_byte
  type_byte-Packs b t addl w room = append-Packs b (mktype t addl ∷ []) 1 refl w room

  pub pack_cbor_type-Packs :
      (b : Buffer) (t : MajorType) (v : ℕ)
      → IsWellformed b
      → b.size + length (head t v) < 2 ^ 64
      → Packs b (head t v) (pack_cbor_type alloc b t v)
  unfolding pack_cbor_type cpu_to_be
  pack_cbor_type-Packs b t v w room = elim (Bool-cases (leb v 23)) [
    | inl e ↦
        let one : b.size + 1 < 2 ^ 64 = omega (arith, room) in
        rw (pack_cbor_type, e) (type_byte-Packs b t v w one)
    | inr e ↦
        let size = (addl_of v).0 in
        let addl = (addl_of v).1 in
        let same : form v ≡ addl_of v = rw e refl in
        let number : length (cpu_to_be size v) ≡ size = length-cpu_to_be size v in
        let all : b.size + 1 + size < 2 ^ 64 =
          omega (arith, room, length-head t v, ap (λ (f : ℕ × ℕ). f.0) same) in
        let first = type_byte-Packs b t addl w (omega arith) in
        rw (pack_cbor_type, e)
          (and_then-Packs b (mktype t addl ∷ []) (cpu_to_be size v)
            (λ b'. append alloc b' (some (cpu_to_be size v)) size) _ _ first
            λ h.
              append-Packs (pack_cbor_type_byte alloc b t addl).1 (cpu_to_be size v) size
                (sym number) h.wellformed (omega (arith, h.size_is)))
  ]

  pub with_bytes-Packs :
      (b : Buffer) (t : MajorType) (bytes : List ℕ)
      → IsWellformed b
      → b.size + length (head t (length bytes) ++ bytes) < 2 ^ 64
      → Packs b (head t (length bytes) ++ bytes) (
          and_then
            (pack_cbor_type alloc b t (length bytes))
            λ b'. append alloc b' (some bytes) (length bytes))
  with_bytes-Packs b t bytes w room =
      let item = head t (length bytes) in
      let all : b.size + length item + length bytes < 2 ^ 64 =
        omega (arith, length-append item bytes) in
      let first = pack_cbor_type-Packs b t (length bytes) w (omega arith) in
      and_then-Packs b item bytes (λ b'. append alloc b' (some bytes) (length bytes)) _ _ first
        λ h.
          append-Packs (pack_cbor_type alloc b t (length bytes)).1 bytes (length bytes) refl
            h.wellformed (omega (arith, h.size_is))

-- On a well-formed buffer whose size stays below 2 ^ 64, packing a number appends its item in the
-- shortest form, which is written out in arithmetic: one byte up to 23, and above that the byte
-- 24, 25, 26 or 27 and the number in the 1, 2, 4 or 8 bytes, highest first, that are the fewest
-- it fits in; packing a truth value appends the byte 0xf5 or 0xf4, and null the byte 0xf6; or
-- each fails with an errno when a first part of the item, or none of it, is appended. It never
-- aborts, and the buffer keeps its kind and its offset and stays well formed.
pub cbor_pack_uint-Packs :
    (alloc : Allocator) (b : Buffer) (v : ℕ) (truth : Bool)
    → IsWellformed b
    → b.size + 9 < 2 ^ 64
    → Packs b (shortest 0 v) (cbor_pack_uint alloc b v)
      × Packs b ((if truth then 0xf5 else 0xf4) ∷ []) (cbor_pack_bool alloc b truth)
      × Packs b (0xf6 ∷ []) (cbor_pack_null alloc b)
unfolding cbor_pack_uint cbor_pack_bool cbor_pack_null
cbor_pack_uint-Packs alloc b v truth w room =
    let short : (t : MajorType) (n : ℕ) → b.size + length (head t n) < 2 ^ 64 =
      λ t n. omega (arith, length-head t n, form_le n) in
    let packed : (t : MajorType) (n : ℕ)
        → Packs b (shortest (type_number t) n) (pack_cbor_type alloc b t n) =
      λ t n.
        subst (λ item. Packs b item (pack_cbor_type alloc b t n)) (head-shortest t n)
          (pack_cbor_type-Packs alloc b t n w (short t n)) in
    (
      packed cmt_uint v,
      elim (Bool-cases truth) [
        | inl e ↦ rw e (packed cmt_float 21)
        | inr e ↦ rw e (packed cmt_float 20)
      ],
      packed cmt_float 22,
    )

-- On a well-formed buffer whose size stays below 2 ^ 64, packing a text or a blob appends the item of
-- its length and behind it the bytes, or fails with an errno when a first part of both, or none, is
-- appended. It never aborts, and the buffer keeps its kind and its offset and stays well formed.
pub cbor_pack_cstr_len-Packs :
    (alloc : Allocator) (b : Buffer) (bytes : List ℕ)
    → IsWellformed b
    → b.size + 9 + length bytes < 2 ^ 64
    → Packs b
        (head cmt_text (length bytes) ++ bytes)
        (cbor_pack_cstr_len alloc b (some bytes) (length bytes))
      × Packs b
          (head cmt_byte (length bytes) ++ bytes)
          (cbor_pack_blob alloc b (some bytes) (length bytes))
unfolding cbor_pack_cstr_len cbor_pack_blob
cbor_pack_cstr_len-Packs alloc b bytes w room =
    let short : (t : MajorType) → b.size + length (head t (length bytes) ++ bytes) < 2 ^ 64 = λ t.
      omega (
        arith,
        length-append (head t (length bytes)) bytes,
        length-head t (length bytes),
        form_le (length bytes),
      ) in
    (
      with_bytes-Packs alloc b cmt_text bytes w (short cmt_text),
      with_bytes-Packs alloc b cmt_byte bytes w (short cmt_byte),
    )
