-- ===== src/Base.antt =====
-- The names that all modules share: the library's, passed on, and those of the children, which
-- hold Boolean tests, lists over native numbers, byte and bit facts, and C results.
mod Tests
mod Lists
pub mod Bits
mod Outcome
pub mod Integers
pub mod Endian
pub use Tests.*
pub use Lists.*
pub use Outcome.*
pub use Integers.*
unfoldable pub use Integers.{to_int64, cpu_to_be, be_or, be_to_cpu}
unfoldable pub use Tests.{all_below}
pub use Prim.Native.Nat.{ℕ, zero, suc, ◌+◌, ◌-◌, ◌*◌, ◌/◌, ◌%◌, ◌^◌, ◌≤◌, ◌<◌}
pub use Prim.Native.Nat.{bit_and, bit_or, bit_xor}
pub use mathlib.Core.Path.{◌≡◌, refl, sym, ap, ◌∙◌}
pub use mathlib.Core.Logic.{◌≢◌, ◌↔◌, ◌⊎◌, inl, inr}
pub use mathlib.Core.Bool.{Bool, true, false, not, ◌&&◌, ◌||◌}
pub use mathlib.Core.Option.{Option, none, some}
pub use mathlib.Core.List.{List, [], ◌∷◌, ◌++◌, map, append-nil, append_assoc}
pub use native.Mathlib.Omega.{arith}
use Prim.Native.Char.{code}
use Prim.Native.String.{String}

-- The bytes of an ASCII text.
abbrev pub codes : String → List ℕ
codes String.[] = []
codes (String.◌∷◌ c s) = code c ∷ codes s

abbrev pub IsByte : ℕ → Type 0
IsByte b = b < 256
