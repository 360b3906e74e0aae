-- ===== src/Cbor/Reading.antt =====
-- A buffer that is read: the bytes ahead of its offset, and how a read, a seek and the temporary
-- buffer move over them.
use libjeffpc.Base.{
  ℕ, ◌+◌, ◌-◌, ◌^◌, ◌≤◌, ◌≡◌, ◌≢◌, refl, sym, ap, ◌∙◌, inl, inr, pos, true, false, some, List, [],
  arith, ltb, leb, ◌==◌, length, take, drop, ok, Bool-cases, length-take, length-drop, drop-drop,
  drop_all, drop-take, take-take,
}
use libjeffpc.Buffer.{
  Buffer, sink_buffer, add_size, ssize_max, buffer_read, buffer_seek, buffer_remain,
  buffer_data_current, buffer_init_static, seek_target, seek_cur, buffer_pread,
}
use libjeffpc.Buffer.Memory.{copy_out}
use libjeffpc.Buffer.Wellformed.{IsWellformed, contents}
use libjeffpc.Buffer.Write.{length-contents}
use libjeffpc.Buffer.Read.{buffer_pread_lem}
use libjeffpc.Cbor.{sync_buffers, tmp_buffer}

-- A well-formed buffer that can be read, whose size fits an ssize_t, with `bytes` ahead.
pub record Ahead (bytes : List ℕ) (b : Buffer) : Type 0 where
  pub wellformed : IsWellformed b
  pub readable : b.ops ≢ sink_buffer
  pub counted : b.size ≤ ssize_max
  pub ahead : drop b.off (contents b) ≡ bytes

-- The buffer with its offset `n` bytes on.
abbrev pub moved : Buffer → ℕ → Buffer
moved b n = record b { off = b.off + n }

module _ (bytes : List ℕ) (b : Buffer) (a : Ahead bytes b) where
  pub length-Ahead : length bytes ≡ b.size - b.off
  length-Ahead = omega (
    arith,
    ap length a.ahead,
    length-drop b.off (contents b),
    length-contents b a.wellformed a.readable,
  )

  pub moved-Ahead : (n : ℕ) → n ≤ length bytes → Ahead (drop n bytes) (moved b n)
  moved-Ahead n h = record {
    wellformed = record {
      offset = omega (arith, length-Ahead, a.wellformed.offset);
      filled = a.wellformed.filled;
      counted = a.wellformed.counted;
      backed = a.wellformed.backed;
    };
    readable = a.readable;
    counted = a.counted;
    ahead = sym (drop-drop n b.off (contents b)) ∙ ap (drop n) a.ahead;
  }

  pub remain-Ahead : buffer_remain b ≡ length bytes
  unfolding buffer_remain
  remain-Ahead = omega (arith, length-Ahead, a.wellformed.offset, a.counted)

  pread-Ahead :
      (n : ℕ)
      → n ≤ 2 ^ 63
      → buffer_pread (some b) true n b.off ≡ ok (length (take n bytes), take n bytes)
  pread-Ahead n h =
      elim (buffer_pread_lem b n b.off a.wellformed
        (omega (arith, a.wellformed.offset, a.counted))) [
          | inl (sink, _) ↦ absurd (a.readable sink)
          | inr (_, e) ↦ e ∙ ap (λ bs. ok (length (take n bs), take n bs)) a.ahead
        ]

  pub read-Ahead :
      (n : ℕ) → n ≤ length bytes → buffer_read (some b) true n ≡ ok (n, take n bytes, moved b n)
  unfolding buffer_read
  read-Ahead n h =
      let big : n ≤ 2 ^ 63 = omega (arith, length-Ahead, a.counted) in
      let all : length (take n bytes) ≡ n = omega (arith, length-take n bytes) in
      let next : add_size b.off n ≡ b.off + n =
        omega (arith, length-Ahead, a.counted, a.wellformed.offset) in
      rw (pread-Ahead n big, all, next)

  target-Ahead : (n : ℕ) → n ≤ length bytes → seek_target b (pos n) seek_cur ≡ ok (b.off + n)
  unfolding seek_target
  target-Ahead n h = ground (arith, length-Ahead, a.counted, a.wellformed.offset)

  pub seek-Ahead :
      (n : ℕ) → n ≤ length bytes → buffer_seek (some b) (pos n) seek_cur ≡ ok (b.off + n, moved b n)
  unfolding buffer_seek
  seek-Ahead n h =
      let short : ltb ssize_max (b.off + n) ≡ false =
        ground (arith, length-Ahead, a.counted, a.wellformed.offset) in
      rw (target-Ahead n h, short)

  -- The memory at the offset starts with the bytes ahead.
  pub current_starts :
      (take (length bytes) (buffer_data_current b) ≡ bytes)
      × (length bytes ≤ length (buffer_data_current b))
  unfolding buffer_data_current
  current_starts = elim (Bool-cases (b.off == b.size)) [
    | inl end ↦
        let size = length-contents b a.wellformed a.readable in
        let none_left : bytes ≡ [] =
          sym a.ahead ∙ drop_all b.off (contents b) (ground (arith, size)) in
        rw (end, none_left) (refl, omega arith)
    | inr more ↦
        let room : b.size ≤ length b.block =
          ground (arith, a.wellformed.backed, a.wellformed.filled, a.readable) in
        let starts : take (length bytes) (drop b.off b.block) ≡ bytes =
          ap (λ (k : ℕ). take k (drop b.off b.block)) length-Ahead
          ∙ sym (drop-take b.off b.size b.block)
          ∙ a.ahead in
        rw (more) (starts, omega (arith, length-drop b.off b.block, length-Ahead))
  ]

  pub current-Ahead :
      (n : ℕ) → n ≤ length bytes → copy_out (buffer_data_current b) 0 n ≡ ok (take n bytes)
  unfolding copy_out
  current-Ahead n h =
      let (starts, long) = current_starts in
      let fits : leb (0 + n) (length (buffer_data_current b)) ≡ true = ground arith in
      rw fits
        (ap ok (sym (take-take n (length bytes) (buffer_data_current b) h) ∙ ap (take n) starts))

  pub sync-Ahead :
      (tmp : Buffer) → tmp.off ≤ length bytes → sync_buffers b tmp ≡ ok (moved b tmp.off)
  unfolding sync_buffers
  sync-Ahead tmp h = rw (seek-Ahead tmp.off h)

  pub tmp-Ahead : Ahead bytes (tmp_buffer b) × ((tmp_buffer b).off ≡ 0)
  unfolding tmp_buffer buffer_init_static
  tmp-Ahead = (
    record {
      wellformed = record {
        offset = omega arith;
        filled = omega arith;
        counted = omega (arith, remain-Ahead, length-Ahead, a.counted);
        backed = inr (λ e. cc, omega (arith, remain-Ahead, current_starts.1));
      };
      readable = λ e. cc;
      counted = omega (arith, remain-Ahead, length-Ahead, a.counted);
      ahead = ap (λ (k : ℕ). take k (buffer_data_current b)) remain-Ahead ∙ current_starts.0;
    },
    refl,
  )
