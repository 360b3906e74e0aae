-- ===== src/Buffer/Lemmas.antt =====
-- A run of bytes put over a block, in terms of the block's parts.
use libjeffpc.Base.{
  ℕ, ◌+◌, ◌-◌, ◌≤◌, ◌≡◌, sym, ap, ◌∙◌, List, ◌++◌, arith, append-nil, length, take, drop, replicate,
  take_all, take-take, drop-take, take-append_lem, length-append, length-take, length-drop,
  length-replicate, take-append, ok,
}
use libjeffpc.Buffer.Memory.{copy_in, clear_bytes}

abbrev pub zeros : ℕ → List ℕ
zeros n = replicate n 0

pub length-zeros : (n : ℕ) → length (zeros n) ≡ n
length-zeros n = length-replicate {A = ℕ} n 0

abbrev pub splice : List ℕ → ℕ → List ℕ → List ℕ
splice block off new = take off block ++ new ++ drop (off + length new) block

module _ (block : List ℕ) (off : ℕ) (new : List ℕ) (fit : off + length new ≤ length block) where
  length-front : length (take off block ++ new) ≡ off + length new
  length-front = omega (arith, length-append (take off block) new, length-take off block)

  pub length-splice : length (splice block off new) ≡ length block
  length-splice = omega (
    arith,
    length-append (take off block ++ new) (drop (off + length new) block),
    length-drop (off + length new) block,
    length-front,
  )

  -- Up to the end of the new bytes.
  pub take-splice_end : take (off + length new) (splice block off new) ≡ take off block ++ new
  take-splice_end = rw (← length-front) (take-append (take off block ++ new) _)

  -- Before the new bytes.
  pub take-splice_front : (k : ℕ) → k ≤ off → take k (splice block off new) ≡ take k block
  take-splice_front k h =
      let none_new : k - length (take off block) ≡ 0 = omega (arith, length-take off block) in
      let start : k ≤ off + length new = omega arith in
      sym (take-take k (off + length new) (splice block off new) start)
      ∙ ap (take k) take-splice_end
      ∙ take-append_lem k (take off block) new
      ∙ rw (none_new, take-take k off block h, append-nil)

  -- With bytes behind the new ones.
  pub take-splice_inside :
      (s : ℕ)
      → off + length new ≤ s
      → take s (splice block off new)
        ≡ take off (take s block) ++ new ++ drop (off + length new) (take s block)
  take-splice_inside s h =
      take-append_lem s (take off block ++ new) (drop (off + length new) block)
      ∙ rw (
        take_all s (take off block ++ new) (omega (arith, length-front)),
        length-front,
        take-take off s block (omega arith),
        drop-take (off + length new) s block,
      )

pub copy_in-splice :
    (block : List ℕ) (off : ℕ) (new : List ℕ)
    → off + length new ≤ length block
    → copy_in block off new (length new) ≡ ok (splice block off new)
unfolding copy_in
copy_in-splice block off new fit = rw (take_all (length new) new (omega arith)) (ground arith)

pub clear_bytes-splice :
    (block : List ℕ) (off n : ℕ)
    → off + n ≤ length block
    → clear_bytes block off n ≡ ok (splice block off (zeros n))
unfolding clear_bytes
clear_bytes-splice block off n fit = rw (length-zeros n) (ground arith)
