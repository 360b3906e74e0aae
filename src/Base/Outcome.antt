-- ===== src/Base/Outcome.antt =====
-- The results of C functions: a value, a negated errno, an abort by a failed VERIFY or panic, or a
-- fault, which is an access to memory out of its bounds.
use mathlib.Core.Option.{Option, none, some}

pub data Errno : Type 0 where
  einval eilseq efault eintr enomem enotsup erofs enospc eoverflow enoent eexist erange edom : Errno

pub data Result {ℓ} (A : Type ℓ) : Type ℓ where
  ok : A → Result A
  err : Errno → Result A
  panic : Result A
  fault : Result A

infixl 5 ◌>>=◌ ◌>>◌
abbrev pub ◌>>=◌ {ℓ κ} : {A : Type ℓ} {B : Type κ} → Result A → (A → Result B) → Result B
ok a >>= f = f a
err e >>= f = err e
panic >>= f = panic
fault >>= f = fault

abbrev pub ◌>>◌ {ℓ} : {B : Type ℓ} → Result (Unit {0}) → Result B → Result B
m >> k = m >>= λ _. k

-- What a run with bounded fuel returns: nothing when the fuel is used up.
abbrev pub Run {ℓ} : Type ℓ → Type ℓ
Run A = Option (Result A)

infixl 5 ◌>>?◌
abbrev pub ◌>>?◌ {ℓ κ} : {A : Type ℓ} {B : Type κ} → Run A → (A → Run B) → Run B
none >>? f = none
some (ok a) >>? f = f a
some (err e) >>? f = some (err e)
some panic >>? f = some panic
some fault >>? f = some fault
