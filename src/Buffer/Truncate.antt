-- ===== src/Buffer/Truncate.antt =====
-- `buffer_truncate` cuts the bytes that a buffer holds, or puts zeros behind them.
use libjeffpc.Base.{
  ℕ, ◌^◌, ◌<◌, refl, sym, ap, ◌∙◌, inl, inr, some, List, arith, take, Result, ok, ◌>>=◌,
}
use Prim.Native.Nat.{min}
use libjeffpc.Buffer.{Buffer, check_truncate, buffer_truncate}
use libjeffpc.Buffer.Memory.{Allocator}
use libjeffpc.Buffer.Wellformed.{contents, IsWellformed, IsWritable}
use libjeffpc.Buffer.Write.{fill, fill-Filled, padded}
use libjeffpc.Buffer.Contents.{Does, truncate_Checked, guarded_Does}

-- The first `n` bytes, with zeros where there are fewer.
abbrev pub cut : List ℕ → ℕ → List ℕ
cut c n = take n (padded c n)

truncate_rest : ℕ → Buffer → Result Buffer
truncate_rest n b1 = do b2 ← fill b1 n; ok (record b2 { size = n; off = min b2.off n })

-- Truncating a well-formed buffer to a size below 2 ^ 64 either fails, for the reasons that the kind
-- allows, or leaves a well-formed buffer of the same kind and that size, with the offset cut to it; if
-- it is no sink, it holds as many of the old bytes as fit, and zeros behind them up to the new size. It
-- never aborts and never leaves the block.
pub buffer_truncate-Does :
    (alloc : Allocator) (b : Buffer) (n : ℕ)
    → IsWellformed b
    → n < 2 ^ 64
    → Does b n n (min b.off n) (cut (contents b) n) (λ b'. b') (buffer_truncate alloc (some b) n)
unfolding buffer_truncate truncate_rest
buffer_truncate-Does alloc b n w h =
    guarded_Does alloc b n n (min b.off n) (cut (contents b) n) (λ b'. b') (truncate_rest n) w h
      (check_truncate b n) (truncate_Checked b n)
      λ b1 wr g.
        let writable1 : IsWritable b1 = λ ro. wr (sym g.same_ops ∙ ro) in
        let (b2, e2, fl) = fill-Filled b1 n g.wellformed writable1 g.room in
        (
          record b2 { size = n; off = min b2.off n },
          rw e2,
          record {
            wellformed = record {
              offset = omega arith;
              filled = omega (arith, fl.same_allocsize, g.room);
              counted = fl.wellformed.counted;
              backed = fl.wellformed.backed;
            };
            same_ops = fl.same_ops ∙ g.same_ops;
            size_is = refl;
            off_is = omega (arith, fl.same_off, g.same_off);
            held = elim fl.before [
              | inl sink ↦ inl (sym g.same_ops ∙ sink)
              | inr (front, _) ↦ inr (front ∙ ap (λ c. take n (padded c n)) g.same_contents)
            ];
          },
        )
