-- ===== src/Urldecode.antt =====
-- urldecode.c: the state machine that undoes percent-encoding. A C `char` is the number of its
-- byte. The bytes of `in` that the loop has not reached are its list argument, so `inoff` and `len`
-- need no fields; the buffer `out` is a list that is written by index.
mod Spec
pub mod Decodes
mod Tests
use libjeffpc.Base.{
  ℕ, ◌+◌, ◌-◌, ◌*◌, ◌%◌, Bool, true, false, ◌&&◌, Option, none, some, List, [], ◌∷◌, Result, ok,
  err, panic, ◌>>=◌, einval, eilseq, bit_or, ltb, leb, ◌==◌, if◌then◌else◌, length, set, get_or,
}

pub data DecodeState : Type 0 where
  ds_copy ds_esc1 ds_esc2 : DecodeState

pub record State : Type 0 where
  pub state : DecodeState
  pub out : List ℕ
  pub outoff : ℕ

-- VERIFY3S and VERIFY3U abort the program.
unfoldable pub append_char : State → ℕ → Result State
append_char s c = elim s.state [
  | ds_copy ↦
      if (c == b'+')
      then panic
      else if (c == b'%')
      then panic
      else ok (record s { out = set s.out s.outoff c; outoff = s.outoff + 1 })
  | _ ↦ panic
]

-- The digit that an escape's character stands for. A `char` of 0x80 or more is negative in C, and
-- is no digit there or here.
unfoldable pub escape_digit : ℕ → Option ℕ
escape_digit c =
    if leb b'0' c && leb c b'9'
    then some (c - b'0')
    else if leb b'a' c && leb c b'f'
    then some (c - (b'a' - 10))
    else if leb b'A' c && leb c b'F'
    then some (c - (b'A' - 10))
    else none

unfoldable pub append_esc : State → ℕ → Result State
append_esc s c = elim (escape_digit c) [
  | none ↦ err eilseq
  | some d ↦ elim s.state [
    | ds_esc1 ↦ ok (record s { out = set s.out s.outoff (d * 16 % 256); state = ds_esc2 })
    | ds_esc2 ↦ ok (record s {
      out = set s.out s.outoff (bit_or (get_or s.out s.outoff 0) d);
      outoff = s.outoff + 1;
      state = ds_copy;
    })
    | ds_copy ↦ panic
  ]
]

-- One round of the loop, on the character `c`.
unfoldable pub decode_round : State → ℕ → Result State
unfolding append_char append_esc
decode_round s c = elim s.state [
  | ds_copy ↦
      if (c == b'%')
      then ok (record s { state = ds_esc1 })
      else if (c == b'+')
      then append_char s b' '
      else append_char s c
  | _ ↦ append_esc s c
]

unfoldable pub decode_loop : List ℕ → State → Result State
unfolding decode_round
decode_loop [] s = ok s
decode_loop (c ∷ rest) s = do s' ← decode_round s c; decode_loop rest s'

-- What is returned behind the loop: the length of the output, with the buffer as it is left.
unfoldable pub decode_end : State → Result (ℕ × List ℕ)
decode_end s = elim s.state [ ds_copy ↦ ok (s.outoff, s.out) | _ ↦ err eilseq ]

-- `none` is a NULL pointer. `in` holds the `len` bytes to decode.
unfoldable pub urldecode : Option (List ℕ) → Option (List ℕ) → Result (ℕ × List ℕ)
unfolding decode_loop decode_end
urldecode none out = err einval
urldecode (some input) none = err einval
urldecode (some input) (some out) = if (length input == 0) then ok (0, out) else (do
  s ← decode_loop input (record { state = ds_copy; out = out; outoff = 0 })
  decode_end s)
