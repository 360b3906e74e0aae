-- ===== src/Cbor/Values/Encode.antt =====
-- The items of whole values, RFC 8949, and that packing appends them.
use libjeffpc.Base.{
  ℕ, ◌+◌, ◌-◌, ◌^◌, ◌≤◌, ◌<◌, ◌==◌, ◌≡◌, refl, sym, inl, true, false, List, [], ◌++◌, arith, length,
  length-append, append-nil, ok, if◌then◌else◌,
}
use mathlib.Core.Path.{subst}
use libjeffpc.Buffer.{Buffer}
use libjeffpc.Buffer.Memory.{Allocator}
use libjeffpc.Buffer.Wellformed.{IsWellformed}
use libjeffpc.Val.{
  Val, null, int, str, blob, bool, array, nvl, Vals, no_vals, elem, Pairs, no_pairs, pair, vals,
  pairs,
}
use libjeffpc.Cbor.{
  MajorType, cmt_uint, cmt_byte, cmt_text, cmt_array, cmt_map, cmt_float, Packed, and_then,
  pack_cbor_type, cbor_unknown_nelem, cbor_pack_uint, cbor_pack_null, cbor_pack_bool,
  cbor_pack_blob, cbor_pack_cstr_len, cbor_pack_array_start, cbor_pack_array_end,
  cbor_pack_map_start, cbor_pack_map_end,
}
use libjeffpc.Cbor.Spec.{head, length-head}
use libjeffpc.Cbor.Pack.{Packs, unchanged, and_then-Packs, with_bytes-Packs, pack_cbor_type-Packs}
use libjeffpc.Cbor.Values.{cbor_pack_str, cbor_pack_val, pack_elems, pack_pairs}

unfoldable mutual
  pub encode : Val → List ℕ
  encode null = head cmt_float 22
  encode (int i) = head cmt_uint i
  encode (bool v) = head cmt_float (if v then 21 else 20)
  encode (str s) = head cmt_text (length s) ++ s
  encode (blob s) = head cmt_byte (length s) ++ s
  encode (array vs) = head cmt_array (length (vals vs)) ++ encode_vals vs
  encode (nvl ps) = head cmt_map (length (pairs ps)) ++ encode_pairs ps
  encode v = []

  pub encode_vals : Vals → List ℕ
  encode_vals no_vals = []
  encode_vals (elem v vs) = encode v ++ encode_vals vs

  pub encode_pairs : Pairs → List ℕ
  encode_pairs no_pairs = []
  encode_pairs (pair n v ps) = ((head cmt_text (length n) ++ n) ++ encode v) ++ encode_pairs ps

-- The values that there are items for.
unfoldable mutual
  pub HasItem : Val → Type 0
  HasItem null = Unit
  HasItem (int i) = Unit
  HasItem (bool v) = Unit
  HasItem (str s) = Unit
  HasItem (blob s) = Unit
  HasItem (array vs) = AllHaveItems vs
  HasItem (nvl ps) = PairsHaveItems ps
  HasItem v = false ≡ true

  pub AllHaveItems : Vals → Type 0
  AllHaveItems no_vals = Unit
  AllHaveItems (elem v vs) = HasItem v × AllHaveItems vs

  pub PairsHaveItems : Pairs → Type 0
  PairsHaveItems no_pairs = Unit
  PairsHaveItems (pair n v ps) = HasItem v × PairsHaveItems ps

head_long : (t : MajorType) (n : ℕ) → 1 ≤ length (head t n)
head_long t n = omega (arith, length-head t n)

pub length-encode : (v : Val) → HasItem v → 1 ≤ length (encode v)
unfolding encode HasItem
length-encode null h = head_long cmt_float 22
length-encode (int i) h = head_long cmt_uint i
length-encode (bool v) h = head_long cmt_float (if v then 21 else 20)
length-encode (str s) h =
    omega (arith, head_long cmt_text (length s), length-append (head cmt_text (length s)) s)
length-encode (blob s) h =
    omega (arith, head_long cmt_byte (length s), length-append (head cmt_byte (length s)) s)
length-encode (array vs) h =
    let n = length (vals vs) in
    omega (arith, head_long cmt_array n, length-append (head cmt_array n) (encode_vals vs))
length-encode (nvl ps) h =
    let n = length (pairs ps) in
    omega (arith, head_long cmt_map n, length-append (head cmt_map n) (encode_pairs ps))
length-encode v h = absurd (ground arith)

pub vals_short : (vs : Vals) → AllHaveItems vs → length (vals vs) ≤ length (encode_vals vs)
unfolding encode HasItem
vals_short no_vals h = omega arith
vals_short (elem v vs) (h, hs) =
    omega (arith, length-encode v h, vals_short vs hs, length-append (encode v) (encode_vals vs))

pub pairs_short : (ps : Pairs) → PairsHaveItems ps → length (pairs ps) ≤ length (encode_pairs ps)
unfolding encode HasItem
pairs_short no_pairs h = omega arith
pairs_short (pair n v ps) (h, hs) =
    let name = head cmt_text (length n) ++ n in
    omega (
      arith,
      length-encode v h,
      pairs_short ps hs,
      length-append name (encode v),
      length-append (name ++ encode v) (encode_pairs ps),
    )

module _ (alloc : Allocator) where
  -- A head, the items behind it, and an end that appends nothing.
  container-Packs :
      (b : Buffer) (t : MajorType) (n : ℕ) (y : List ℕ) (start : Packed)
      (next fin : Buffer → Packed)
      → start ≡ pack_cbor_type alloc b t n
      → IsWellformed b
      → b.size + length (head t n ++ y) < 2 ^ 64
      → ((b1 : Buffer) → IsWellformed b1 → b1.size + length y < 2 ^ 64 → Packs b1 y (next b1))
      → ((b2 : Buffer) → fin b2 ≡ (ok tt, b2))
      → Packs b (head t n ++ y) (and_then (and_then start next) fin)
  container-Packs b t n y start next fin same w room items done =
      let first : Packs b (head t n) start =
        subst (Packs b (head t n)) (sym same)
          (pack_cbor_type-Packs alloc b t n w (omega (arith, length-append (head t n) y))) in
      let body = and_then start next in
      let both : Packs b (head t n ++ y) body =
        and_then-Packs b (head t n) y next start.0 start.1 first
          λ h. items start.1 h.wellformed (omega (arith, h.size_is, length-append (head t n) y)) in
      subst (λ bytes. Packs b bytes (and_then body fin)) (append-nil (head t n ++ y))
        (and_then-Packs b (head t n ++ y) [] fin body.0 body.1 both
          λ h. rw (done body.1) (inl (refl, unchanged body.1 h.wellformed)))

  known : (n : ℕ) → n < 2 ^ 64 - 1 → (n == cbor_unknown_nelem) ≡ false
  known n h = ground arith

  array_known :
      (b : Buffer) (n : ℕ)
      → n < 2 ^ 64 - 1
      → (cbor_pack_array_start alloc b n ≡ pack_cbor_type alloc b cmt_array n)
        × (cbor_pack_array_end alloc b n ≡ (ok tt, b))
  unfolding cbor_pack_array_start cbor_pack_array_end
  array_known b n h =
      (rw (cbor_pack_array_start, known n h) refl, rw (cbor_pack_array_end, known n h) refl)

  map_known :
      (b : Buffer) (n : ℕ)
      → n < 2 ^ 64 - 1
      → (cbor_pack_map_start alloc b n ≡ pack_cbor_type alloc b cmt_map n)
        × (cbor_pack_map_end alloc b n ≡ (ok tt, b))
  unfolding cbor_pack_map_start cbor_pack_map_end
  map_known b n h =
      (rw (cbor_pack_map_start, known n h) refl, rw (cbor_pack_map_end, known n h) refl)

  mutual
    unfolding cbor_pack_val encode HasItem cbor_pack_null cbor_pack_uint cbor_pack_bool
        cbor_pack_blob cbor_pack_cstr_len cbor_pack_str

    pub cbor_pack_val-Packs :
        (b : Buffer) (v : Val)
        → HasItem v
        → IsWellformed b
        → b.size + length (encode v) < 2 ^ 64
        → Packs b (encode v) (cbor_pack_val alloc b v)
    cbor_pack_val-Packs b null h w room = pack_cbor_type-Packs alloc b cmt_float 22 w room
    cbor_pack_val-Packs b (int i) h w room = pack_cbor_type-Packs alloc b cmt_uint i w room
    cbor_pack_val-Packs b (bool v) h w room =
        pack_cbor_type-Packs alloc b cmt_float (if v then 21 else 20) w room
    cbor_pack_val-Packs b (str s) h w room = with_bytes-Packs alloc b cmt_text s w room
    cbor_pack_val-Packs b (blob s) h w room = with_bytes-Packs alloc b cmt_byte s w room
    cbor_pack_val-Packs b (array vs) h w room =
        let n = length (vals vs) in
        let fits = length-append (head cmt_array n) (encode_vals vs) in
        let small : n < 2 ^ 64 - 1 = omega (arith, vals_short vs h, head_long cmt_array n, fits) in
        container-Packs b cmt_array n (encode_vals vs) (cbor_pack_array_start alloc b n)
          (λ b'. pack_elems alloc b' vs) (λ b'. cbor_pack_array_end alloc b' n)
          (array_known b n small).0 w room (λ b1. vals_Packs b1 vs h)
          λ b2. (array_known b2 n small).1
    cbor_pack_val-Packs b (nvl ps) h w room =
        let n = length (pairs ps) in
        let fits = length-append (head cmt_map n) (encode_pairs ps) in
        let small : n < 2 ^ 64 - 1 = omega (arith, pairs_short ps h, head_long cmt_map n, fits) in
        container-Packs b cmt_map n (encode_pairs ps) (cbor_pack_map_start alloc b n)
          (λ b'. pack_pairs alloc b' ps) (λ b'. cbor_pack_map_end alloc b' n)
          (map_known b n small).0 w room (λ b1. pairs_Packs b1 ps h) λ b2. (map_known b2 n small).1
    cbor_pack_val-Packs b v h w room = absurd (ground arith)

    vals_Packs :
        (b : Buffer) (vs : Vals)
        → AllHaveItems vs
        → IsWellformed b
        → b.size + length (encode_vals vs) < 2 ^ 64
        → Packs b (encode_vals vs) (pack_elems alloc b vs)
    vals_Packs b no_vals h w room = inl (refl, unchanged b w)
    vals_Packs b (elem v vs) (h, hs) w room =
        let fits = length-append (encode v) (encode_vals vs) in
        let first = cbor_pack_val alloc b v in
        and_then-Packs b (encode v) (encode_vals vs) (λ b'. pack_elems alloc b' vs) first.0 first.1
          (cbor_pack_val-Packs b v h w (omega (arith, fits)))
          λ g. vals_Packs first.1 vs hs g.wellformed (omega (arith, fits, g.size_is))

    pairs_Packs :
        (b : Buffer) (ps : Pairs)
        → PairsHaveItems ps
        → IsWellformed b
        → b.size + length (encode_pairs ps) < 2 ^ 64
        → Packs b (encode_pairs ps) (pack_pairs alloc b ps)
    pairs_Packs b no_pairs h w room = inl (refl, unchanged b w)
    pairs_Packs b (pair n v ps) (h, hs) w room =
        let name = head cmt_text (length n) ++ n in
        let fits = length-append name (encode v) in
        let fits' = length-append (name ++ encode v) (encode_pairs ps) in
        let first = cbor_pack_str alloc b n in
        let both = and_then first (λ b'. cbor_pack_val alloc b' v) in
        and_then-Packs b (name ++ encode v) (encode_pairs ps) (λ b'. pack_pairs alloc b' ps) both.0
          both.1
          (and_then-Packs b name (encode v) (λ b'. cbor_pack_val alloc b' v) first.0 first.1
            (with_bytes-Packs alloc b cmt_text n w (omega (arith, fits, fits')))
            λ g.
              cbor_pack_val-Packs first.1 v h g.wellformed (omega (arith, fits, fits', g.size_is)))
          λ g. pairs_Packs both.1 ps hs g.wellformed (omega (arith, fits', g.size_is))
