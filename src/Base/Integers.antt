-- ===== src/Base/Integers.antt =====
-- Signed machine integers, and numbers as big endian bytes (include/jeffpc/int.h).
use Prim.Native.Nat.{ℕ, zero, suc, ◌-◌, ◌*◌, ◌/◌, ◌^◌, bit_and, bit_or}
use mathlib.Core.List.{List, [], ◌∷◌}
use libjeffpc.Base.Lists.{length}
use libjeffpc.Base.Tests.{ltb, if◌then◌else◌}

pub data ℤ : Type 0 where
  pos : ℕ → ℤ
  negsuc : ℕ → ℤ

-- A uint64_t as an int64_t of the same bits.
unfoldable pub to_int64 : ℕ → ℤ
to_int64 n = if ltb n (2 ^ 63) then pos n else negsuc (2 ^ 64 - 1 - n)

-- The `n` bytes of a number of that size in big endian order.
unfoldable pub cpu_to_be : ℕ → ℕ → List ℕ
cpu_to_be zero v = []
cpu_to_be (suc n) v = bit_and (v / 2 ^ (n * 8)) 0xff ∷ cpu_to_be n v

-- Each byte is shifted to its place and put in by `|`.
unfoldable pub be_or : ℕ → List ℕ → ℕ
be_or v [] = v
be_or v (p ∷ ps) = be_or (bit_or v (p * 2 ^ (length ps * 8))) ps

unfoldable pub be_to_cpu : List ℕ → ℕ
unfolding be_or
be_to_cpu ps = be_or 0 ps
