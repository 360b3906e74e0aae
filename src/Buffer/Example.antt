-- ===== src/Buffer/Example.antt =====
-- An allocator that shows that the laws of malloc and realloc can hold.
use libjeffpc.Base.{
  ℕ, ◌-◌, ◌≤◌, ◌≡◌, ◌∙◌, some, List, ◌++◌, arith, length, take, replicate, length-take,
  length-append, take-take, take-append_lem, append-nil, length-replicate, ap,
}
use libjeffpc.Buffer.Memory.{Allocator}

-- New memory holds 0xaa.
unfoldable pub junk : ℕ → List ℕ
junk n = replicate n 0xaa

unfoldable pub junk_block : List ℕ → ℕ → List ℕ
junk_block old n = take n (old ++ junk n)

pub length-junk : (n : ℕ) → length (junk n) ≡ n
unfolding junk
length-junk n = length-replicate {A = ℕ} n 0xaa

pub length-junk_block : (old : List ℕ) (n : ℕ) → length (junk_block old n) ≡ n
unfolding junk_block
length-junk_block old n =
    omega (arith, length-take n (old ++ junk n), length-append old (junk n), length-junk n)

pub take-junk_block :
    (old : List ℕ) (n k : ℕ) → k ≤ length old → k ≤ n → take k (junk_block old n) ≡ take k old
unfolding junk_block
take-junk_block old n k h l =
    let none_new : k - length old ≡ 0 = omega arith in
    take-take k n (old ++ junk n) l ∙ take-append_lem k old (junk n) ∙ rw (none_new, append-nil)

-- An allocator that never fails.
unfoldable pub allocator : Allocator
allocator = record {
  malloc = λ n. some (junk n);
  realloc = λ old n. some (junk_block old n);
  malloc_size = λ n block e. let same : block ≡ junk n = cc in ap length same ∙ length-junk n;
  realloc_size = λ old new n e.
      let same : new ≡ junk_block old n = cc in ap length same ∙ length-junk_block old n;
  realloc_keeps = λ old new n k e h l.
      let same : new ≡ junk_block old n = cc in ap (take k) same ∙ take-junk_block old n k h l;
}
