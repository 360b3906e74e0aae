-- ===== src/Buffer/Seek.antt =====
-- `buffer_seek` moves the offset to any place within the bytes, and to no other.
use libjeffpc.Base.{
  ℤ, pos, negsuc, ℕ, ◌+◌, ◌-◌, ◌≤◌, ◌≡◌, ◌≢◌, refl, ◌⊎◌, inl, inr, some, arith, ltb, leb,
  if◌then◌else◌, Result, ok, err, einval, eoverflow, Bool-cases,
}
use libjeffpc.Buffer.{
  Buffer, Whence, seek_set, seek_cur, seek_end, other_whence, seek_target, buffer_seek, ssize_max,
}
use libjeffpc.Buffer.Wellformed.{IsWellformed}

-- Where a seek counts from.
unfoldable pub origin : Buffer → Whence → ℕ
origin b seek_set = 0
origin b seek_cur = b.off
origin b seek_end = b.size
origin b other_whence = 0

-- `base` and the signed offset add up to `t`.
abbrev pub Reaches : ℕ → ℤ → ℕ → Type 0
Reaches base (pos n) t = base + n ≡ t
Reaches base (negsuc n) t = t + (n + 1) ≡ base

-- The sum is a place within the bytes, or there is no such place.
abbrev Target : Buffer → ℕ → ℤ → Result ℕ → Type 0
Target b base offset r =
    ((t : ℕ) × Reaches base offset t × (t ≤ b.size) × (r ≡ ok t))
    ⊎ (((t : ℕ) → t ≤ b.size → ¬ Reaches base offset t) × (r ≡ err einval))

module _ (b : Buffer) (w : IsWellformed b) where
  seek_target-Target :
      (offset : ℤ) (whence : Whence)
      → whence ≢ other_whence
      → Target b (origin b whence) offset (seek_target b offset whence)
  unfolding seek_target origin
  seek_target-Target (pos n) seek_set h = elim (Bool-cases (ltb b.size n)) [
    | inl over ↦ inr (λ t l e. ground arith, rw over)
    | inr fits ↦ inl (n, omega arith, ground arith, rw fits)
  ]
  seek_target-Target (negsuc n) seek_set h = inr (λ t l e. omega arith, refl)
  seek_target-Target (pos n) seek_cur h = elim (Bool-cases (ltb (b.size - b.off) n)) [
    | inl over ↦
        inr (λ t l e. ground (arith, w.offset), ground (arith, w.offset, w.filled, w.counted))
    | inr fits ↦
        inl
          (b.off + n, refl, ground (arith, w.offset), ground (arith, w.offset, w.filled, w.counted))
  ]
  seek_target-Target (negsuc n) seek_cur h = elim (Bool-cases (ltb b.off (n + 1))) [
    | inl over ↦ inr (λ t l e. ground arith, rw over)
    | inr fits ↦ inl (
      b.off - (n + 1),
      ground arith,
      ground (arith, w.offset),
      ground (arith, w.offset, w.filled, w.counted),
    )
  ]
  seek_target-Target (pos n) seek_end h = elim (Bool-cases (ltb 0 n)) [
    | inl over ↦ inr (λ t l e. ground arith, rw over)
    | inr fits ↦ inl (b.size, ground arith, omega arith, ground (arith, w.filled, w.counted))
  ]
  seek_target-Target (negsuc n) seek_end h = elim (Bool-cases (ltb b.size (n + 1))) [
    | inl over ↦ inr (λ t l e. ground arith, rw over)
    | inr fits ↦
        inl (b.size - (n + 1), ground arith, omega arith, ground (arith, w.filled, w.counted))
  ]
  seek_target-Target offset other_whence h = absurd (h refl)

-- Seeking in a well-formed buffer from its start, its offset or its end: if start and offset add up to
-- a place from 0 up to the size, that is the new offset and what is returned, or EOVERFLOW where it
-- exceeds SSIZE_MAX; if they do not, the result is EINVAL. Nothing else of the buffer changes.
pub buffer_seek_lem :
    (b : Buffer) (offset : ℤ) (whence : Whence)
    → IsWellformed b
    → whence ≢ other_whence
    → ((t : ℕ) × Reaches (origin b whence) offset t
        × (t ≤ b.size)
        × (buffer_seek (some b) offset whence
            ≡ (if leb t ssize_max then ok (t, record b { off = t }) else err eoverflow)))
      ⊎ (((t : ℕ) → t ≤ b.size → ¬ Reaches (origin b whence) offset t)
          × (buffer_seek (some b) offset whence ≡ err einval))
unfolding buffer_seek
buffer_seek_lem b offset whence w h = elim (seek_target-Target b w offset whence h) [
  | inl (t, r, l, e) ↦ inl (t, r, l, rw e (ground arith))
  | inr (never, e) ↦ inr (never, rw e)
]
