-- ===== src/Base/Lists.antt =====
-- Lists measured and indexed by native numbers, under the library's names.
use Prim.Native.Nat.{ℕ, zero, suc, ◌+◌, ◌-◌, ◌<◌, ◌≤◌, min}
use mathlib.Core.Path.{◌≡◌, refl, ap}
use mathlib.Core.List.{List, [], ◌∷◌, ◌++◌}
use mathlib.Core.Option.{Option, none, some}
use native.Mathlib.Omega.{arith}

module _ {ℓ} {A : Type ℓ} where
  abbrev pub length : List A → ℕ
  length [] = 0
  length (x ∷ xs) = suc (length xs)

  abbrev pub get_elem? : List A → ℕ → Option A
  get_elem? [] i = none
  get_elem? (x ∷ xs) zero = some x
  get_elem? (x ∷ xs) (suc i) = get_elem? xs i

  abbrev pub get_or : List A → ℕ → A → A
  get_or [] i d = d
  get_or (x ∷ xs) zero d = x
  get_or (x ∷ xs) (suc i) d = get_or xs i d

  -- A write out of bounds changes nothing.
  abbrev pub set : List A → ℕ → A → List A
  set [] i v = []
  set (x ∷ xs) zero v = v ∷ xs
  set (x ∷ xs) (suc i) v = x ∷ set xs i v

  abbrev pub take : ℕ → List A → List A
  take zero xs = []
  take (suc n) [] = []
  take (suc n) (x ∷ xs) = x ∷ take n xs

  abbrev pub drop : ℕ → List A → List A
  drop zero xs = xs
  drop (suc n) [] = []
  drop (suc n) (x ∷ xs) = drop n xs

  abbrev pub replicate : ℕ → A → List A
  replicate zero a = []
  replicate (suc n) a = a ∷ replicate n a

  abbrev pub All {κ} : (A → Type κ) → List A → Type κ
  All P [] = Unit {κ}
  All P (x ∷ xs) = P x × All P xs

module _ {ℓ} {A : Type ℓ} where
  pub length-append : (xs ys : List A) → length (xs ++ ys) ≡ length xs + length ys
  length-append [] ys = omega arith
  length-append (x ∷ xs) ys = omega (arith, length-append xs ys)

  pub length-set : (xs : List A) (i : ℕ) (v : A) → length (set xs i v) ≡ length xs
  length-set [] i v = refl
  length-set (x ∷ xs) zero v = refl
  length-set (x ∷ xs) (suc i) v = ap suc (length-set xs i v)

  pub length-take : (n : ℕ) (xs : List A) → length (take n xs) ≡ min n (length xs)
  length-take zero xs = omega arith
  length-take (suc n) [] = omega arith
  length-take (suc n) (x ∷ xs) = omega (arith, length-take n xs)

  pub length-drop : (n : ℕ) (xs : List A) → length (drop n xs) ≡ length xs - n
  length-drop zero xs = omega arith
  length-drop (suc n) [] = omega arith
  length-drop (suc n) (x ∷ xs) = omega (arith, length-drop n xs)

  pub length-replicate : (n : ℕ) (a : A) → length (replicate n a) ≡ n
  length-replicate zero a = refl
  length-replicate (suc n) a = ap suc (length-replicate n a)

  pub take-append-drop : (n : ℕ) (xs : List A) → take n xs ++ drop n xs ≡ xs
  take-append-drop zero xs = refl
  take-append-drop (suc n) [] = refl
  take-append-drop (suc n) (x ∷ xs) = rw (take-append-drop n xs)

  pub take-append : (xs ys : List A) → take (length xs) (xs ++ ys) ≡ xs
  take-append [] ys = refl
  take-append (x ∷ xs) ys = ap (λ t. x ∷ t) (take-append xs ys)

  pub drop-append : (xs ys : List A) → drop (length xs) (xs ++ ys) ≡ ys
  drop-append [] ys = refl
  drop-append (x ∷ xs) ys = drop-append xs ys

  pub take_all : (n : ℕ) (xs : List A) → length xs ≤ n → take n xs ≡ xs
  take_all zero [] h = refl
  take_all zero (x ∷ xs) h = absurd (omega arith)
  take_all (suc n) [] h = refl
  take_all (suc n) (x ∷ xs) h = ap (λ t. x ∷ t) (take_all n xs (omega arith))

  take_eq : (m n : ℕ) (xs : List A) → m ≡ n → take m xs ≡ take n xs
  take_eq m n xs e = ap (λ (k : ℕ). take k xs) e

  drop_eq : (m n : ℕ) (xs : List A) → m ≡ n → drop m xs ≡ drop n xs
  drop_eq m n xs e = ap (λ (k : ℕ). drop k xs) e

  pub take_nil : (n : ℕ) → ◌≡◌ {A = List A} (take n []) []
  take_nil zero = refl
  take_nil (suc n) = refl

  drop_nil : (n : ℕ) → ◌≡◌ {A = List A} (drop n []) []
  drop_nil zero = refl
  drop_nil (suc n) = refl

  pub take-append_lem :
      (n : ℕ) (xs ys : List A) → take n (xs ++ ys) ≡ take n xs ++ take (n - length xs) ys
  take-append_lem zero xs ys = rw (take_eq (0 - length xs) 0 ys (omega arith))
  take-append_lem (suc n) [] ys = rw (take_eq (suc n - 0) (suc n) ys (omega arith))
  take-append_lem (suc n) (x ∷ xs) ys =
      rw (take_eq (suc n - suc (length xs)) (n - length xs) ys (omega arith))
        (ap (λ t. x ∷ t) (take-append_lem n xs ys))

  pub drop-append_lem :
      (n : ℕ) (xs ys : List A) → drop n (xs ++ ys) ≡ drop n xs ++ drop (n - length xs) ys
  drop-append_lem zero xs ys = rw (drop_eq (0 - length xs) 0 ys (omega arith))
  drop-append_lem (suc n) [] ys = rw (drop_eq (suc n - 0) (suc n) ys (omega arith))
  drop-append_lem (suc n) (x ∷ xs) ys =
      rw (drop_eq (suc n - suc (length xs)) (n - length xs) ys (omega arith))
        (drop-append_lem n xs ys)

  pub take-take : (m n : ℕ) (xs : List A) → m ≤ n → take m (take n xs) ≡ take m xs
  take-take zero n xs h = refl
  take-take (suc m) zero xs h = absurd (omega arith)
  take-take (suc m) (suc n) [] h = refl
  take-take (suc m) (suc n) (x ∷ xs) h = ap (λ t. x ∷ t) (take-take m n xs (omega arith))

  pub drop-take : (m n : ℕ) (xs : List A) → drop m (take n xs) ≡ take (n - m) (drop m xs)
  drop-take zero n xs = rw (take_eq (n - 0) n xs (omega arith))
  drop-take (suc m) zero xs = rw (take_eq (0 - suc m) 0 (drop (suc m) xs) (omega arith))
  drop-take (suc m) (suc n) [] = rw (take_nil (suc n - suc m))
  drop-take (suc m) (suc n) (x ∷ xs) =
      rw (take_eq (suc n - suc m) (n - m) (drop m xs) (omega arith)) (drop-take m n xs)

  pub drop-drop : (m n : ℕ) (xs : List A) → drop m (drop n xs) ≡ drop (n + m) xs
  drop-drop m zero xs = rw (drop_eq (0 + m) m xs (omega arith))
  drop-drop m (suc n) [] = rw (drop_nil m, drop_nil (suc n + m))
  drop-drop m (suc n) (x ∷ xs) =
      rw (drop_eq (suc n + m) (suc (n + m)) (x ∷ xs) (omega arith)) (drop-drop m n xs)

  pub drop_all : (n : ℕ) (xs : List A) → length xs ≤ n → drop n xs ≡ []
  drop_all zero [] h = refl
  drop_all zero (x ∷ xs) h = absurd (omega arith)
  drop_all (suc n) [] h = refl
  drop_all (suc n) (x ∷ xs) h = drop_all n xs (omega arith)

  -- A write at the end of a prefix makes the prefix one element longer.
  pub take-set_next :
      (xs : List A) (n : ℕ) (v : A)
      → n < length xs
      → take (suc n) (set xs n v) ≡ take n xs ++ v ∷ []
  take-set_next [] n v h = absurd (omega arith)
  take-set_next (x ∷ xs) zero v h = refl
  take-set_next (x ∷ xs) (suc n) v h = ap (λ t. x ∷ t) (take-set_next xs n v (omega arith))

  -- A write behind a prefix leaves the prefix alone.
  pub take-set_behind : (xs : List A) (n i : ℕ) (v : A) → n ≤ i → take n (set xs i v) ≡ take n xs
  take-set_behind xs zero i v h = refl
  take-set_behind [] (suc n) i v h = refl
  take-set_behind (x ∷ xs) (suc n) zero v h = absurd (omega arith)
  take-set_behind (x ∷ xs) (suc n) (suc i) v h =
      ap (λ t. x ∷ t) (take-set_behind xs n i v (omega arith))

  pub get_elem?-set_ne :
      (xs : List A) (i j : ℕ) (v : A) → i < j → get_elem? (set xs i v) j ≡ get_elem? xs j
  get_elem?-set_ne [] i j v h = refl
  get_elem?-set_ne (x ∷ xs) zero zero v h = absurd (omega arith)
  get_elem?-set_ne (x ∷ xs) zero (suc j) v h = refl
  get_elem?-set_ne (x ∷ xs) (suc i) zero v h = refl
  get_elem?-set_ne (x ∷ xs) (suc i) (suc j) v h = get_elem?-set_ne xs i j v (omega arith)

  pub set-set : (xs : List A) (i : ℕ) (v w : A) → set (set xs i v) i w ≡ set xs i w
  set-set [] i v w = refl
  set-set (x ∷ xs) zero v w = refl
  set-set (x ∷ xs) (suc i) v w = ap (λ t. x ∷ t) (set-set xs i v w)

  pub get_or-set_self :
      (xs : List A) (n : ℕ) (v d : A) → n < length xs → get_or (set xs n v) n d ≡ v
  get_or-set_self [] n v d h = absurd (omega arith)
  get_or-set_self (x ∷ xs) zero v d h = refl
  get_or-set_self (x ∷ xs) (suc n) v d h = get_or-set_self xs n v d (omega arith)

pub All-append {ℓ κ} :
    {A : Type ℓ} (P : A → Type κ) (xs ys : List A) → All P xs → All P ys → All P (xs ++ ys)
All-append P [] ys hx hy = hy
All-append P (x ∷ xs) ys (h, hx) hy = (h, All-append P xs ys hx hy)

pub All-drop {ℓ κ} :
    {A : Type ℓ} (P : A → Type κ) (n : ℕ) (xs : List A) → All P xs → All P (drop n xs)
All-drop P zero xs h = h
All-drop P (suc n) [] h = h
All-drop P (suc n) (x ∷ xs) (h, hx) = All-drop P n xs hx
