-- ===== src/Cbor/Values/Decode.antt =====
-- Unpacking whole values from their items.
use libjeffpc.Base.{
  ℕ, zero, suc, ◌+◌, ◌*◌, ◌/◌, ◌%◌, ◌^◌, ◌≤◌, ◌<◌, ◌==◌, ◌≡◌, ◌≢◌, refl, inl, inr, true, false,
  none, some, List, [], ◌∷◌, ◌++◌, All, arith, length, length-append, append_assoc, ok,
  Option-cases,
}
use mathlib.Core.Path.{subst}
use libjeffpc.Buffer.{Buffer}
use libjeffpc.Buffer.Memory.{Allocator, array_memory}
use libjeffpc.Val.{
  vt_int, vt_str, vt_array, vt_nvl, Val, null, int, str, bool, array, nvl, Vals, no_vals, elem,
  Pairs, no_pairs, pair, pairs, strnlen_bytes,
}
use libjeffpc.Tree.Search.{Sorted}
use libjeffpc.Nvl.{val_nvl_cmp}
use libjeffpc.Cbor.{
  MajorType, cmt_uint, cmt_text, cmt_array, cmt_map, mktype, peek_byte, cbor_peek_type,
}
use libjeffpc.Cbor.Spec.{form, head, form-Fits, type_of-mktype}
use libjeffpc.Cbor.Reading.{Ahead, moved}
use libjeffpc.Cbor.Text.{cbor_unpack_cstr_len_lem}
use libjeffpc.Cbor.Values.{unpack_cbor_str}
use libjeffpc.Cbor.Values.Encode.{HasItem, AllHaveItems, PairsHaveItems}
use libjeffpc.Cbor.Values.Start.{cbor_peek_type-Ahead}

-- A text without a NUL.
abbrev pub NoNul : List ℕ → Type 0
NoNul s = All (λ c. (c == 0) ≡ false) s

-- The values that are read back as they were: 64-bit numbers, texts without a NUL, and name-value lists
-- in the order of their names.
unfoldable mutual
  pub IsReadable : Val → Type 0
  IsReadable null = Unit
  IsReadable (int i) = i < 2 ^ 64
  IsReadable (bool v) = Unit
  IsReadable (str s) = NoNul s
  IsReadable (array vs) = AllReadable vs
  IsReadable (nvl ps) = Sorted val_nvl_cmp (pairs ps) × PairsReadable ps
  IsReadable v = false ≡ true

  pub AllReadable : Vals → Type 0
  AllReadable no_vals = Unit
  AllReadable (elem v vs) = IsReadable v × AllReadable vs

  pub PairsReadable : Pairs → Type 0
  PairsReadable no_pairs = Unit
  PairsReadable (pair n v ps) = NoNul n × IsReadable v × PairsReadable ps

mutual
  unfolding IsReadable HasItem

  pub readable-HasItem : (v : Val) → IsReadable v → HasItem v
  readable-HasItem null h = tt
  readable-HasItem (int i) h = tt
  readable-HasItem (bool v) h = tt
  readable-HasItem (str s) h = tt
  readable-HasItem (array vs) h = readable-AllHaveItems vs h
  readable-HasItem (nvl ps) (s, h) = readable-PairsHaveItems ps h
  readable-HasItem v h = absurd (ground arith)

  pub readable-AllHaveItems : (vs : Vals) → AllReadable vs → AllHaveItems vs
  readable-AllHaveItems no_vals h = tt
  readable-AllHaveItems (elem v vs) (h, hs) = (readable-HasItem v h, readable-AllHaveItems vs hs)

  pub readable-PairsHaveItems : (ps : Pairs) → PairsReadable ps → PairsHaveItems ps
  readable-PairsHaveItems no_pairs h = tt
  readable-PairsHaveItems (pair n v ps) (m, h, hs) =
      (readable-HasItem v h, readable-PairsHaveItems ps hs)

strnlen-NoNul :
    (s : List ℕ) (n : ℕ) → NoNul s → length s ≤ n → strnlen_bytes (s ++ 0 ∷ []) (suc n) ≡ s
unfolding strnlen_bytes
strnlen-NoNul [] n h l = refl
strnlen-NoNul (c ∷ s) zero h l = absurd (omega (arith, l))
strnlen-NoNul (c ∷ s) (suc n) (h, hs) l =
    rw (strnlen_bytes, h, strnlen-NoNul s n hs (omega (arith, l))) refl

module _ (alloc : Allocator) (memory : (n : ℕ) → alloc.malloc n ≢ none) where
  pub array_memory_lem : (n : ℕ) → n * 8 < 2 ^ 64 → array_memory alloc n ≡ some n
  unfolding array_memory
  array_memory_lem n h =
      let whole : (n * 8) % 2 ^ 64 ≡ n * 8 = omega arith in
      elim (Option-cases (alloc.malloc (n * 8))) [
        | inl got ↦ absurd (memory (n * 8) got)
        | inr (block, got) ↦
            let size : length block / 8 ≡ n = omega (arith, alloc.malloc_size (n * 8) block got) in
            rw (array_memory, whole, got, size) refl
      ]

  pub unpack_cbor_str-Ahead :
      (s rest : List ℕ) (b : Buffer)
      → NoNul s
      → Ahead ((head cmt_text (length s) ++ s) ++ rest) b
      → unpack_cbor_str alloc b ≡ ok (s, moved b (length (head cmt_text (length s) ++ s)))
  unfolding unpack_cbor_str
  unpack_cbor_str-Ahead s rest b h a =
      let item = head cmt_text (length s) in
      let a' = subst (λ bytes. Ahead bytes b) (append_assoc item s rest) a in
      elim (cbor_unpack_cstr_len_lem alloc s rest b a') [
        | inl (got, e) ↦ absurd (memory (length s + 1) got)
        | inr e ↦
            let size : length (s ++ 0 ∷ []) ≡ suc (length s) =
              omega (arith, length-append s (0 ∷ [])) in
            rw
              (
                unpack_cbor_str,
                e,
                size,
                strnlen-NoNul s (length s) h (omega arith),
                length-append item s,
              )
              refl
      ]

pub peek_lem :
    (t : MajorType) (v : ℕ) (rest : List ℕ) (b : Buffer)
    → Ahead (head t v ++ rest) b
    → cbor_peek_type b ≡ peek_byte (mktype t (form v).1)
peek_lem t v rest b a = cbor_peek_type-Ahead (mktype t (form v).1) _ b a

module _ (v : ℕ) (small : v < 2 ^ 64) where
  pub peek_uint : peek_byte (mktype cmt_uint (form v).1) ≡ ok vt_int
  unfolding peek_byte
  peek_uint =
      let fits = form-Fits v small in
      rw (peek_byte, type_of-mktype cmt_uint (form v).1 fits.low) refl

  pub peek_text : peek_byte (mktype cmt_text (form v).1) ≡ ok vt_str
  unfolding peek_byte
  peek_text =
      let fits = form-Fits v small in
      rw (peek_byte, type_of-mktype cmt_text (form v).1 fits.low) refl

  pub peek_array : peek_byte (mktype cmt_array (form v).1) ≡ ok vt_array
  unfolding peek_byte
  peek_array =
      let fits = form-Fits v small in
      rw (peek_byte, type_of-mktype cmt_array (form v).1 fits.low) refl

  pub peek_map : peek_byte (mktype cmt_map (form v).1) ≡ ok vt_nvl
  unfolding peek_byte
  peek_map =
      let fits = form-Fits v small in
      rw (peek_byte, type_of-mktype cmt_map (form v).1 fits.low) refl
