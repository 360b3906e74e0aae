-- ===== src/Buffer/Append.antt =====
-- `buffer_append` puts bytes behind those that a buffer holds.
use libjeffpc.Base.{
  ℕ, ◌+◌, ◌^◌, ◌<◌, ◌≡◌, refl, sym, ap, ◌∙◌, inl, inr, true, false, some, List, [], ◌∷◌, ◌++◌,
  arith, ◌==◌, length, take, Result, ok, ◌>>=◌, ◌>>◌, Bool-cases, append-nil,
}
use libjeffpc.Buffer.{Buffer, add_size, resize, copyin, check_append, buffer_append}
use libjeffpc.Buffer.Memory.{Allocator}
use libjeffpc.Buffer.Lemmas.{take-splice_end}
use libjeffpc.Buffer.Wellformed.{
  contents, IsWellformed, IsWritable, Grown, copyin-Overlay, Overlay-IsWellformed,
}
use libjeffpc.Buffer.Contents.{Holds, Does, append_Checked, guarded_Does, same_size_mod}

abbrev appended : Buffer → ℕ → Buffer
appended b n = record b { size = add_size b.size n }

module _ (alloc : Allocator) (b : Buffer) (bytes : List ℕ) (w : IsWellformed b) where
  -- Behind the check and the resize.
  append_Holds :
      (b1 : Buffer)
      → b.size + length bytes < 2 ^ 64
      → IsWritable b
      → Grown b (b.size + length bytes) b1
      → (b2 : Buffer) × (copyin b1 b1.size bytes (length bytes) ≡ ok b2)
        × Holds b (b.size + length bytes) b.off (contents b ++ bytes) (appended b2 (length bytes))
  append_Holds b1 h wr g =
      let n = length bytes in
      let writable : IsWritable b1 = λ ro. wr (sym g.same_ops ∙ ro) in
      let (b2, e, o) =
        copyin-Overlay b1 b1.size g.wellformed writable bytes
          (omega (arith, g.same_size, g.room)) in
      let end : add_size b2.size n ≡ b1.size + n = omega (arith, o.same_size, g.same_size) in
      (
        b2,
        e,
        record {
          wellformed =
              Overlay-IsWellformed b1 b2 b1.size (add_size b2.size n) b2.off bytes g.wellformed o
                (omega (arith, end, o.same_off, g.wellformed.offset))
                (omega (arith, end, g.same_size, g.room));
          same_ops = o.same_ops ∙ g.same_ops;
          size_is = omega (arith, end, g.same_size);
          off_is = o.same_off ∙ g.same_off;
          held = elim o.put [
            | inl sink ↦ inl (sym g.same_ops ∙ sink)
            | inr (block, fit, put) ↦ inr (
                ap (λ k. take k b2.block) end
                ∙ ap (take (b1.size + n)) put
                ∙ take-splice_end b1.block b1.size bytes fit
                ∙ ap (λ c. c ++ bytes) g.same_contents)
          ];
        },
      )

  append_rest : Buffer → Result Buffer
  append_rest b1 = do b2 ← copyin b1 b1.size bytes (length bytes); ok (appended b2 (length bytes))

  append_parts :
      (length bytes == 0) ≡ false
      → b.size + length bytes < 2 ^ 64
      → buffer_append alloc (some b) (some bytes) (length bytes) ≡ (
          check_append b (length bytes) >> (resize alloc b (b.size + length bytes) >>= append_rest))
  unfolding buffer_append append_rest
  append_parts e h = rw (e, same_size_mod (b.size + length bytes) h)

  append_some :
      (length bytes == 0) ≡ false
      → b.size + length bytes < 2 ^ 64
      → Does b
          (b.size + length bytes)
          (b.size + length bytes)
          b.off
          (contents b ++ bytes)
          (λ b'. b')
          (buffer_append alloc (some b) (some bytes) (length bytes))
  unfolding append_rest
  append_some e h = rw (append_parts e h) (
      guarded_Does alloc b (b.size + length bytes) (b.size + length bytes) b.off
        (contents b ++ bytes) (λ b'. b') append_rest w h (check_append b (length bytes))
        (append_Checked b (length bytes) h)
        λ b1 wr g.
          let (b2, e2, holds) = append_Holds b1 h wr g in
          (appended b2 (length bytes), rw e2, holds))

-- No bytes: the check alone.
append_nothing :
    (alloc : Allocator) (b : Buffer) (bytes : List ℕ)
    → IsWellformed b
    → b.size + length bytes < 2 ^ 64
    → (length bytes == 0) ≡ true
    → Does b
        (b.size + length bytes)
        (b.size + length bytes)
        b.off
        (contents b ++ bytes)
        (λ b'. b')
        (buffer_append alloc (some b) (some bytes) (length bytes))
unfolding buffer_append
append_nothing alloc b [] w h e = elim (append_Checked b 0 h) [
  | inl (ro, c) ↦ inl (ro, rw c)
  | inr (inl (static, full, c)) ↦ inr (inl (static, full, rw c))
  | inr (inr (_, _, c)) ↦ inr (
      inr (
        inr (
          b,
          rw c,
          record {
            wellformed = w;
            same_ops = refl;
            size_is = omega arith;
            off_is = refl;
            held = inr (sym (append-nil (contents b)));
          },
        )))
]
append_nothing alloc b (x ∷ bytes) w h e = absurd (ground arith)

-- Appending bytes to a well-formed buffer whose size stays below 2 ^ 64 either fails, for the reasons
-- that the kind allows, or leaves a well-formed buffer of the same kind whose size has grown by their
-- number and whose offset is the old one; if it is no sink, it holds the old bytes and behind them the
-- new ones. It never aborts and never leaves the block.
pub buffer_append-Does :
    (alloc : Allocator) (b : Buffer) (bytes : List ℕ)
    → IsWellformed b
    → b.size + length bytes < 2 ^ 64
    → Does b
        (b.size + length bytes)
        (b.size + length bytes)
        b.off
        (contents b ++ bytes)
        (λ b'. b')
        (buffer_append alloc (some b) (some bytes) (length bytes))
buffer_append-Does alloc b bytes w h = elim (Bool-cases (length bytes == 0)) [
  | inl e ↦ append_nothing alloc b bytes w h e
  | inr e ↦ append_some alloc b bytes w e h
]
