-- ===== src/Buffer/Write.antt =====
-- `buffer_pwrite` puts bytes at an offset, behind a gap of zeros if that is behind the end.
use libjeffpc.Base.{
  ℕ, ◌+◌, ◌-◌, ◌^◌, ◌≤◌, ◌<◌, ◌≡◌, ◌≢◌, refl, sym, ap, ◌∙◌, ◌⊎◌, inl, inr, false, some, List, [],
  ◌++◌, arith, ltb, leb, if◌then◌else◌, length, take, drop, Result, ok, err, ◌>>=◌, ◌>>◌,
  Bool-cases, append-nil, take-take, take_all, length-take, length-append, fault, panic, drop_all,
}
use Prim.Native.Nat.{max}
use libjeffpc.Buffer.{
  sink_buffer, Buffer, add_size, resize, clear, copyin, check_write, buffer_pwrite,
}
use libjeffpc.Buffer.Memory.{Allocator}
use libjeffpc.Buffer.Lemmas.{
  splice, zeros, length-zeros, take-splice_end, take-splice_front, take-splice_inside,
}
use libjeffpc.Buffer.Wellformed.{
  contents, IsWellformed, IsWritable, Grown, Overlay, copyin-Overlay, clear-Overlay,
  Overlay-IsWellformed,
}
use libjeffpc.Buffer.Contents.{Holds, Does, write_Checked, guarded_Does, same_size_mod}

-- The bytes with zeros behind them up to `off`.
abbrev pub padded : List ℕ → ℕ → List ℕ
padded c off = c ++ zeros (off - length c)

-- The bytes with `new` put over them from `off` on.
abbrev pub overwritten : List ℕ → ℕ → List ℕ → List ℕ
overwritten c off new = take off (padded c off) ++ new ++ drop (off + length new) c

pub length-contents :
    (b : Buffer) → IsWellformed b → b.ops ≢ sink_buffer → length (contents b) ≡ b.size
length-contents b w ne = elim w.backed [
  | inl (sink, _) ↦ absurd (ne sink)
  | inr (_, room) ↦ omega (arith, length-take b.size b.block, w.filled)
]

-- The gap is filled: the bytes `c` stand where they stood, and zeros from there up to `off`.
pub record Filled (b : Buffer) (c : List ℕ) (off : ℕ) (b' : Buffer) : Type 0 where
  pub wellformed : IsWellformed b'
  pub same_ops : b'.ops ≡ b.ops
  pub same_size : b'.size ≡ b.size
  pub same_off : b'.off ≡ b.off
  pub same_allocsize : b'.allocsize ≡ b.allocsize
  pub before :
      (b.ops ≡ sink_buffer) ⊎ ((take off b'.block ≡ take off (padded c off)) × (contents b' ≡ c))

-- What is done about the gap.
abbrev pub fill : Buffer → ℕ → Result Buffer
fill b off = if ltb b.size off then clear b b.size (off - b.size) else ok b

module _ (b : Buffer) (off : ℕ) (w : IsWellformed b) (writable : IsWritable b) where
  fill_nothing : ltb b.size off ≡ false → Filled b (contents b) off b
  fill_nothing e = record {
    wellformed = w;
    same_ops = refl;
    same_size = refl;
    same_off = refl;
    same_allocsize = refl;
    before = elim w.backed [
      | inl (sink, _) ↦ inl sink
      | inr (ne, _) ↦
          let none_missing : off - length (contents b) ≡ 0 =
            ground (arith, length-contents b w ne) in
          inr (
            rw (none_missing, append-nil) (sym (take-take off b.size b.block (ground arith))),
            refl,
          )
    ];
  }

  fill_gap :
      b.size < off
      → (b2 : Buffer) → Overlay b b.size (zeros (off - b.size)) b2
      → off ≤ b.allocsize
      → Filled b (contents b) off b2
  fill_gap h b2 o room =
      let gap = off - b.size in
      let end : off ≡ b.size + length (zeros gap) = omega (arith, length-zeros gap) in
      record {
        wellformed =
            Overlay-IsWellformed b b2 b.size b2.size b2.off (zeros gap) w o
              (omega (arith, o.same_off, o.same_size, w.offset))
              (omega (arith, o.same_size, w.filled));
        same_ops = o.same_ops;
        same_size = o.same_size;
        same_off = o.same_off;
        same_allocsize = o.same_allocsize;
        before = elim o.put [
          | inl sink ↦ inl sink
          | inr (ne, fit, put) ↦ inr (
            ap (λ k. take k b2.block) end
                ∙ ap (take (b.size + length (zeros gap))) put
                ∙ take-splice_end b.block b.size (zeros gap) fit
                ∙ sym (padded_whole ne),
            ap (λ k. take k b2.block) o.same_size
                ∙ ap (take b.size) put
                ∙ take-splice_front b.block b.size (zeros gap) fit b.size (omega arith),
          )
        ];
      }
    where
      padded_whole :
          b.ops ≢ sink_buffer
          → take off (padded (contents b) off) ≡ contents b ++ zeros (off - b.size)
      padded_whole ne =
          let count = length-contents b w ne in
          rw count (
            take_all off (contents b ++ zeros (off - b.size)) (
              omega (
                arith,
                length-append (contents b) (zeros (off - b.size)),
                length-zeros (off - b.size),
                count,
              )))

  pub fill-Filled :
      off ≤ b.allocsize → (b2 : Buffer) × (fill b off ≡ ok b2) × Filled b (contents b) off b2
  fill-Filled room = elim (Bool-cases (ltb b.size off)) [
    | inr e ↦ (b, rw e, fill_nothing e)
    | inl e ↦
        let (b2, c, o) = clear-Overlay b b.size w writable (off - b.size) (ground arith) in
        (b2, rw e c, fill_gap (ground arith) b2 o room)
  ]

-- The bytes of a block that is written at `off`, once the gap is filled.
written_contents :
    (block c new : List ℕ) (off size : ℕ)
    → off + length new ≤ length block
    → size ≤ length block
    → length c ≡ size
    → take off block ≡ take off (padded c off)
    → take size block ≡ c
    → take (max size (off + length new)) (splice block off new) ≡ overwritten c off new
written_contents block c new off size fit room count front old =
    elim (Bool-cases (leb size (off + length new))) [
      | inl over ↦
          let top : max size (off + length new) ≡ off + length new = ground arith in
          let nothing : drop (off + length new) c ≡ [] = drop_all _ c (ground arith) in
          rw (top, nothing, append-nil, take-splice_end block off new fit, front)
      | inr inside ↦
          let top : max size (off + length new) ≡ size = ground arith in
          rw (top, take-splice_inside block off new fit size (ground arith), old, ← front)
            (ap (λ t. t ++ new ++ drop (off + length new) c) (begins (ground arith)))
    ]
  where
    begins : off ≤ size → take off c ≡ take off block
    begins h = ap (take off) (sym old) ∙ take-take off size block h

module _ (b : Buffer) (off : ℕ) (bytes : List ℕ) (w : IsWellformed b)
    (writable : IsWritable b) where
  -- Behind the check and the resize.
  write_Holds :
      (b1 : Buffer)
      → off + length bytes < 2 ^ 64
      → Grown b (off + length bytes) b1
      → (b3 : Buffer) × ((fill b1 off >>= λ b2. copyin b2 off bytes (length bytes)) ≡ ok b3)
        × Holds b
            (max b.size (off + length bytes))
            b.off
            (overwritten (contents b) off bytes)
            (record b3 { size = max b3.size (add_size off (length bytes)) })
  write_Holds b1 h g =
      let n = length bytes in
      let writable1 : IsWritable b1 = λ ro. writable (sym g.same_ops ∙ ro) in
      let (b2, e2, fl) = fill-Filled b1 off g.wellformed writable1 (omega (arith, g.room)) in
      let writable2 : IsWritable b2 = λ ro. writable1 (sym fl.same_ops ∙ ro) in
      let (b3, e3, o) =
        copyin-Overlay b2 off fl.wellformed writable2 bytes
          (omega (arith, fl.same_allocsize, g.room)) in
      let size : b3.size ≡ b.size = o.same_size ∙ fl.same_size ∙ g.same_size in
      let end : max b3.size (add_size off n) ≡ max b.size (off + n) = omega (arith, size) in
      (
        b3,
        rw e2 e3,
        record {
          wellformed =
              Overlay-IsWellformed b2 b3 off (max b3.size (add_size off n)) b3.off bytes
                fl.wellformed o (omega (arith, o.same_off, o.same_size, fl.wellformed.offset))
                (omega (arith, end, g.same_size, fl.same_allocsize, g.room, g.wellformed.filled));
          same_ops = o.same_ops ∙ fl.same_ops ∙ g.same_ops;
          size_is = end;
          off_is = o.same_off ∙ fl.same_off ∙ g.same_off;
          held = written b3 b2 g fl o end;
        },
      )
    where
      written :
          (b3 b2 : Buffer)
          → Grown b (off + length bytes) b1
          → Filled b1 (contents b1) off b2
          → Overlay b2 off bytes b3
          → max b3.size (add_size off (length bytes)) ≡ max b.size (off + length bytes)
          → (b.ops ≡ sink_buffer)
            ⊎ (take (max b3.size (add_size off (length bytes))) b3.block
                ≡ overwritten (contents b) off bytes)
      written b3 b2 g fl o end = elim fl.before [
        | inl sink ↦ inl (sym g.same_ops ∙ sink)
        | inr (front, old) ↦ elim o.put [
          | inl sink ↦ inl (sym g.same_ops ∙ sym fl.same_ops ∙ sink)
          | inr (ne, fit, put) ↦ inr (
              ap (λ k. take k b3.block) end
              ∙ ap (take (max b.size (off + length bytes))) put
              ∙ written_contents b2.block (contents b) bytes off b.size fit
                  (omega (
                    arith,
                    length-contents b2 fl.wellformed ne,
                    length-take b2.size b2.block,
                    fl.same_size,
                    g.same_size,
                  ))
                  (length-contents b w (λ s. ne (fl.same_ops ∙ g.same_ops ∙ s)))
                  (front ∙ ap (λ c. take off (padded c off)) g.same_contents)
                  (ap (λ k. take k b2.block) (sym (fl.same_size ∙ g.same_size))
                    ∙ old
                    ∙ g.same_contents))
        ]
      ]

pwrite_rest : List ℕ → ℕ → Buffer → Result (ℕ × Buffer)
pwrite_rest bytes off b1 = do
  b2 ← fill b1 off
  b3 ← copyin b2 off bytes (length bytes)
  ok (length bytes, record b3 { size = max b3.size (add_size off (length bytes)) })

pwrite_parts :
    (alloc : Allocator) (b : Buffer) (bytes : List ℕ) (off : ℕ)
    → off + length bytes < 2 ^ 64
    → buffer_pwrite alloc (some b) (some bytes) (length bytes) off ≡ (
        check_write b (length bytes) off
        >> (resize alloc b (off + length bytes) >>= pwrite_rest bytes off))
unfolding buffer_pwrite pwrite_rest
pwrite_parts alloc b bytes off h =
    ap (λ n. check_write b (length bytes) off >> (resize alloc b n >>= pwrite_rest bytes off))
      (same_size_mod (off + length bytes) h)

bind_twice {ℓ} :
    {A : Type ℓ} (m : Result Buffer) (c : Buffer → Result Buffer) (f : Buffer → Result A)
    (b : Buffer)
    → (m >>= c) ≡ ok b
    → (m >>= λ b2. c b2 >>= f) ≡ f b
bind_twice (ok b1) c f b e = rw e
bind_twice (err x) c f b e = cc
bind_twice panic c f b e = cc
bind_twice fault c f b e = cc

-- Writing bytes at an offset of a well-formed buffer, where they end below 2 ^ 64, either fails, for the
-- reasons that the kind allows, or returns their number and leaves a well-formed buffer of the same kind
-- and offset, whose size reaches to the end of the new bytes at least; if it is no sink, it holds the
-- old bytes with zeros for any gap before the offset and with the new bytes put over. It never aborts
-- and never leaves the block.
pub buffer_pwrite-Does :
    (alloc : Allocator) (b : Buffer) (bytes : List ℕ) (off : ℕ)
    → IsWellformed b
    → off + length bytes < 2 ^ 64
    → Does b
        (off + length bytes)
        (max b.size (off + length bytes))
        b.off
        (overwritten (contents b) off bytes)
        (λ b'. (length bytes, b'))
        (buffer_pwrite alloc (some b) (some bytes) (length bytes) off)
unfolding pwrite_rest
buffer_pwrite-Does alloc b bytes off w h = rw (pwrite_parts alloc b bytes off h) (
    guarded_Does alloc b (off + length bytes) (max b.size (off + length bytes)) b.off
      (overwritten (contents b) off bytes) (λ b'. (length bytes, b')) (pwrite_rest bytes off) w h
      (check_write b (length bytes) off) (write_Checked b (length bytes) off h)
      λ b1 wr g.
        let (b3, e3, holds) = write_Holds b off bytes w wr b1 h g in
        (
          record b3 { size = max b3.size (add_size off (length bytes)) },
          bind_twice (fill b1 off) (λ b2. copyin b2 off bytes (length bytes)) _ b3 e3,
          holds,
        ))
