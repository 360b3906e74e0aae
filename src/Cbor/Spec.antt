-- ===== src/Cbor/Spec.antt =====
-- The head of a data item, RFC 8949: a type byte and a number behind it, in the shortest form.
use libjeffpc.Base.{
  ℕ, ◌+◌, ◌*◌, ◌/◌, ◌%◌, ◌^◌, ◌≤◌, ◌<◌, ◌≡◌, refl, ◌⊎◌, inl, inr, some, List, [], ◌∷◌, arith, leb,
  if◌then◌else◌, bit_and, cpu_to_be, Bool-cases, length,
}
use libjeffpc.Base.Bits.{bit_and_low, bit_or_high}
use libjeffpc.Base.Endian.{length-cpu_to_be}
use libjeffpc.Cbor.{
  MajorType, cmt_uint, cmt_nint, cmt_byte, cmt_text, cmt_array, cmt_map, cmt_tag, cmt_float,
  type_number, type_of, mktype, addl_of, size_of_addl,
}

-- How many bytes follow the type byte, and what its low five bits are.
abbrev pub form : ℕ → ℕ × ℕ
form v = if leb v 23 then (0, v) else addl_of v

abbrev pub head : MajorType → ℕ → List ℕ
head t v = mktype t (form v).1 ∷ cpu_to_be (form v).0 v

-- The shortest form in arithmetic, for the number of a major type: up to 23 in the type byte itself, and
-- else in 1, 2, 4 or 8 bytes behind it, the highest first.
abbrev pub shortest : ℕ → ℕ → List ℕ
shortest major v =
    if leb v 23
    then (major * 32 + v) ∷ []
    else if leb v 0xff
    then (major * 32 + 24) ∷ (v % 256) ∷ []
    else if leb v 0xffff
    then (major * 32 + 25) ∷ (v / 2 ^ 8 % 256) ∷ (v % 256) ∷ []
    else if leb v 0xffffffff
    then (major * 32 + 26)
      ∷ (v / 2 ^ 24 % 256)
      ∷ (v / 2 ^ 16 % 256)
      ∷ (v / 2 ^ 8 % 256)
      ∷ (v % 256)
      ∷ []
    else (major * 32 + 27)
      ∷ (v / 2 ^ 56 % 256)
      ∷ (v / 2 ^ 48 % 256)
      ∷ (v / 2 ^ 40 % 256)
      ∷ (v / 2 ^ 32 % 256)
      ∷ (v / 2 ^ 24 % 256)
      ∷ (v / 2 ^ 16 % 256)
      ∷ (v / 2 ^ 8 % 256)
      ∷ (v % 256)
      ∷ []

-- What makes a form fit a number.
pub record Fits (v : ℕ) (size addl : ℕ) : Type 0 where
  pub low : addl < 32
  pub sized : size_of_addl addl ≡ some size
  pub stored : ((size ≡ 0) × (addl ≡ v)) ⊎ ((0 < size) × (v < 2 ^ (size * 8)))

pub form-Fits : (v : ℕ) → v < 2 ^ 64 → Fits v (form v).0 (form v).1
form-Fits v h = elim (Bool-cases (leb v 23)) [
  | inl e ↦ rw e (record { low = ground arith; sized = ground arith; stored = inl (refl, refl) })
  | inr e ↦ elim (Bool-cases (leb v 0xff)) [
    | inl e1 ↦
        rw (e, e1)
          (record { low = omega arith; sized = refl; stored = inr (omega arith, ground arith) })
    | inr e1 ↦ elim (Bool-cases (leb v 0xffff)) [
      | inl e2 ↦
          rw (e, e1, e2)
            (record { low = omega arith; sized = refl; stored = inr (omega arith, ground arith) })
      | inr e2 ↦ elim (Bool-cases (leb v 0xffffffff)) [
        | inl e3 ↦
            rw (e, e1, e2, e3)
              (record { low = omega arith; sized = refl; stored = inr (omega arith, ground arith) })
        | inr e3 ↦
            rw (e, e1, e2, e3)
              (record { low = omega arith; sized = refl; stored = inr (omega arith, ground arith) })
      ]
    ]
  ]
]

type_of-type_number : (t : MajorType) → type_of (type_number t) ≡ t
type_of-type_number cmt_uint = refl
type_of-type_number cmt_nint = refl
type_of-type_number cmt_byte = refl
type_of-type_number cmt_text = refl
type_of-type_number cmt_array = refl
type_of-type_number cmt_map = refl
type_of-type_number cmt_tag = refl
type_of-type_number cmt_float = refl

module _ (t : MajorType) (addl : ℕ) (h : addl < 32) where
  mktype_lem : mktype t addl ≡ type_number t * 2 ^ 5 + addl
  unfolding mktype
  mktype_lem = bit_or_high 5 (type_number t) addl h

  pub type_of-mktype : type_of (mktype t addl / 2 ^ 5) ≡ t
  type_of-mktype =
      let e : mktype t addl / 2 ^ 5 ≡ type_number t = omega (arith, mktype_lem) in
      rw e (type_of-type_number t)

  pub bit_and-mktype : bit_and (mktype t addl) 0x1f ≡ addl
  bit_and-mktype = omega (arith, bit_and_low 5 (mktype t addl), mktype_lem)

low_byte : (v : ℕ) → bit_and (v / 2 ^ 0) 0xff ≡ v % 256
low_byte v = omega (arith, bit_and_low 8 (v / 2 ^ 0))

byte_lem : (x : ℕ) → bit_and x 0xff ≡ x % 256
byte_lem x = bit_and_low 8 x

pub head-shortest : (t : MajorType) (v : ℕ) → head t v ≡ shortest (type_number t) v
unfolding cpu_to_be
head-shortest t v = elim (Bool-cases (leb v 23)) [
  | inl e ↦ rw (e, mktype_lem t v (ground arith)) refl
  | inr e ↦ elim (Bool-cases (leb v 0xff)) [
    | inl e1 ↦ rw (e, e1, mktype_lem t 24 (omega arith), low_byte v) refl
    | inr e1 ↦ elim (Bool-cases (leb v 0xffff)) [
      | inl e2 ↦
          rw (e, e1, e2, mktype_lem t 25 (omega arith), low_byte v, byte_lem (v / 2 ^ 8)) refl
      | inr e2 ↦ elim (Bool-cases (leb v 0xffffffff)) [
        | inl e3 ↦
            rw
              (
                e,
                e1,
                e2,
                e3,
                mktype_lem t 26 (omega arith),
                low_byte v,
                byte_lem (v / 2 ^ 8),
                byte_lem (v / 2 ^ 16),
                byte_lem (v / 2 ^ 24),
              )
              refl
        | inr e3 ↦
            rw
              (
                e,
                e1,
                e2,
                e3,
                mktype_lem t 27 (omega arith),
                low_byte v,
                byte_lem (v / 2 ^ 8),
                byte_lem (v / 2 ^ 16),
                byte_lem (v / 2 ^ 24),
                byte_lem (v / 2 ^ 32),
                byte_lem (v / 2 ^ 40),
                byte_lem (v / 2 ^ 48),
                byte_lem (v / 2 ^ 56),
              )
              refl
      ]
    ]
  ]
]

pub length-head : (t : MajorType) (v : ℕ) → length (head t v) ≡ 1 + (form v).0
length-head t v = omega (arith, length-cpu_to_be (form v).0 v)

pub form_le : (v : ℕ) → (form v).0 ≤ 8
form_le v = ground arith
