-- ===== src/Cbor/Values/Unpack.antt =====
-- Unpacking whole values reads what their items stand for.
use libjeffpc.Base.{
  ℕ, zero, suc, ◌+◌, ◌*◌, ◌^◌, ◌≤◌, ◌<◌, ◌≡◌, ◌≢◌, refl, sym, ap, ◌∙◌, inl, inr, Bool, true, false,
  none, some, List, [], ◌∷◌, ◌++◌, arith, length, cpu_to_be, length-append, append_assoc,
  append-nil, ok, if◌then◌else◌,
}
use mathlib.Core.Path.{subst}
use libjeffpc.Buffer.{Buffer}
use libjeffpc.Buffer.Memory.{Allocator}
use libjeffpc.Val.{
  vt_null, vt_bool, Val, null, int, str, bool, array, nvl, Vals, no_vals, elem, Pairs, no_pairs,
  pair, vals, pairs, make_pairs,
}
use libjeffpc.Tree.Walk.{items}
use libjeffpc.Tree.Search.{Sorted, Sorted-split}
use libjeffpc.Rbtree.Insert.{IsRbTree}
use libjeffpc.Nvl.{Nvlist, val_nvl_cmp, val_alloc_nvl}
use libjeffpc.Nvl.Last.{nvl_set_pair-last}
use libjeffpc.Cbor.{cmt_uint, cmt_text, cmt_array, cmt_map, cmt_float, same_type, mktype, peek_byte}
use libjeffpc.Cbor.Spec.{head, length-head}
use libjeffpc.Cbor.Reading.{Ahead, moved, length-Ahead}
use libjeffpc.Cbor.Unpack.{cbor_unpack_uint-head}
use libjeffpc.Cbor.Floats.{cbor_unpack_bool_lem}
use libjeffpc.Cbor.Values.{
  unpack_cbor_null, unpack_cbor_uint, unpack_cbor_bool, unpack_cbor_val, unpack_elems, unpack_pairs,
}
use libjeffpc.Cbor.Values.Encode.{
  encode, encode_vals, encode_pairs, length-encode, vals_short, pairs_short,
}
use libjeffpc.Cbor.Values.Decode.{
  IsReadable, AllReadable, PairsReadable, readable-HasItem, readable-AllHaveItems,
  readable-PairsHaveItems, array_memory_lem, unpack_cbor_str-Ahead, peek_lem, peek_uint, peek_text,
  peek_array, peek_map,
}
use libjeffpc.Cbor.Values.Step.{
  null_step, int_step, bool_step, str_step, array_step, elem_step, end_step, nvl_step, pair_step,
}
use libjeffpc.Cbor.Values.Start.{
  cbor_peek_type-Ahead, moved-moved, behind-Ahead, array_start-Ahead, map_start-Ahead,
}

peek_null : peek_byte (mktype cmt_float 22) ≡ ok vt_null
unfolding peek_byte mktype
peek_null = refl

peek_bool : (v : Bool) → peek_byte (mktype cmt_float (if v then 21 else 20)) ≡ ok vt_bool
unfolding peek_byte mktype
peek_bool true = refl
peek_bool false = refl

unpack_null :
    (rest : List ℕ) (b : Buffer)
    → Ahead (mktype cmt_float 22 ∷ rest) b
    → unpack_cbor_null b ≡ ok (null, moved b 1)
unfolding unpack_cbor_null
unpack_null rest b a =
    rw (unpack_cbor_null, (cbor_unpack_bool_lem 22 rest b (inr (inr (inl refl))) a).1) refl

unpack_int :
    (i : ℕ) (rest : List ℕ) (b : Buffer)
    → i < 2 ^ 64
    → Ahead (head cmt_uint i ++ rest) b
    → unpack_cbor_uint b ≡ ok (int i, moved b (length (head cmt_uint i)))
unfolding unpack_cbor_uint same_type
unpack_int i rest b h a =
    rw (unpack_cbor_uint, (cbor_unpack_uint-head cmt_uint i rest b h a).0) refl

unpack_bool :
    (v : Bool) (rest : List ℕ) (b : Buffer)
    → Ahead (mktype cmt_float (if v then 21 else 20) ∷ rest) b
    → unpack_cbor_bool b ≡ ok (bool v, moved b 1)
unfolding unpack_cbor_bool
unpack_bool true rest b a =
    rw (unpack_cbor_bool, (cbor_unpack_bool_lem 21 rest b (inr (inl refl)) a).0) refl
unpack_bool false rest b a =
    rw (unpack_cbor_bool, (cbor_unpack_bool_lem 20 rest b (inl refl) a).0) refl

make_pairs-pairs : (ps : Pairs) → make_pairs (pairs ps) ≡ ps
make_pairs-pairs no_pairs = refl
make_pairs-pairs (pair n v ps) = ap (pair n v) (make_pairs-pairs ps)

not_moved : (b : Buffer) → moved b 0 ≡ b
not_moved b = let e : b.off + 0 ≡ b.off = omega arith in ap (λ (k : ℕ). record b { off = k }) e

empty-IsRbTree : IsRbTree val_nvl_cmp val_alloc_nvl
empty-IsRbTree = record { red_black = (refl, tt); sorted = tt; counted = refl }

-- The item of a name.
abbrev name_item : List ℕ → List ℕ
name_item n = head cmt_text (length n) ++ n

name_long : (n : List ℕ) → 1 ≤ length (name_item n)
name_long n =
    omega (arith, length-append (head cmt_text (length n)) n, length-head cmt_text (length n))

-- The buffer behind two parts.
behind_both :
    (x y : List ℕ) (b : Buffer) → moved (moved b (length x)) (length y) ≡ moved b (length (x ++ y))
behind_both x y b =
    moved-moved b (length x) (length y) ∙ ap (λ (k : ℕ). moved b k) (sym (length-append x y))

-- The parts of what is ahead.
part-Ahead :
    (x y rest : List ℕ) (b : Buffer) → Ahead ((x ++ y) ++ rest) b → Ahead (x ++ (y ++ rest)) b
part-Ahead x y rest b a = subst (λ bytes. Ahead bytes b) (append_assoc x y rest) a

module _ (alloc : Allocator) (extra : Bool) (memory : (n : ℕ) → alloc.malloc n ≢ none) where
  mutual
    unfolding encode IsReadable cpu_to_be

    pub unpack_cbor_val-Ahead :
        (fuel : ℕ) (v : Val) (rest : List ℕ) (b : Buffer)
        → IsReadable v
        → 4 * length (encode v) ≤ fuel
        → b.size < 2 ^ 60
        → Ahead (encode v ++ rest) b
        → unpack_cbor_val alloc extra fuel b ≡ some (ok (v, moved b (length (encode v))))
    unpack_cbor_val-Ahead zero v rest b h f s a =
        absurd (omega (arith, f, length-encode v (readable-HasItem v h)))
    unpack_cbor_val-Ahead (suc zero) v rest b h f s a =
        absurd (omega (arith, f, length-encode v (readable-HasItem v h)))
    unpack_cbor_val-Ahead (suc (suc fuel)) null rest b h f s a =
        let peek = cbor_peek_type-Ahead (mktype cmt_float 22) rest b a in
        null_step alloc extra (suc fuel) b (ok (null, moved b 1)) (peek ∙ peek_null)
          (unpack_null rest b a)
    unpack_cbor_val-Ahead (suc (suc fuel)) (int i) rest b h f s a =
        int_step alloc extra (suc fuel) b _ (peek_lem cmt_uint i rest b a ∙ peek_uint i h)
          (unpack_int i rest b h a)
    unpack_cbor_val-Ahead (suc (suc fuel)) (bool true) rest b h f s a =
        let peek = cbor_peek_type-Ahead (mktype cmt_float 21) rest b a in
        bool_step alloc extra (suc fuel) b (ok (bool true, moved b 1)) (peek ∙ peek_bool true)
          (unpack_bool true rest b a)
    unpack_cbor_val-Ahead (suc (suc fuel)) (bool false) rest b h f s a =
        let peek = cbor_peek_type-Ahead (mktype cmt_float 20) rest b a in
        bool_step alloc extra (suc fuel) b (ok (bool false, moved b 1)) (peek ∙ peek_bool false)
          (unpack_bool false rest b a)
    unpack_cbor_val-Ahead (suc (suc fuel)) (str t) rest b h f s a =
        let item = head cmt_text (length t) in
        let small : length t < 2 ^ 64 = omega (
          arith,
          s,
          length-Ahead ((item ++ t) ++ rest) b a,
          length-append (item ++ t) rest,
          length-append item t,
        ) in
        str_step alloc extra (suc fuel) b t _
          (peek_lem cmt_text (length t) (t ++ rest) b (part-Ahead item t rest b a)
            ∙ peek_text (length t) small)
          (unpack_cbor_str-Ahead alloc memory t rest b h a)
    unpack_cbor_val-Ahead (suc (suc fuel)) (array vs) rest b h f s a =
        let n = length (vals vs) in
        let item = head cmt_array n in
        let a' = part-Ahead item (encode_vals vs) rest b a in
        let small : n < 2 ^ 60 = omega (
          arith,
          s,
          length-Ahead (item ++ (encode_vals vs ++ rest)) b a',
          length-append item (encode_vals vs ++ rest),
          length-append (encode_vals vs) rest,
          vals_short vs (readable-AllHaveItems vs h),
        ) in
        let long = length-append item (encode_vals vs) in
        let b1 = moved b (length item) in
        array_step alloc extra fuel b n n vs b1 (moved b (length (item ++ encode_vals vs)))
          (peek_lem cmt_array n (encode_vals vs ++ rest) b a' ∙ peek_array n (omega (arith, small)))
          (array_start-Ahead n (encode_vals vs ++ rest) b (omega (arith, small)) a')
          (array_memory_lem alloc memory n (omega (arith, small)))
          (vals-Ahead fuel vs rest b1 h (omega (arith, f, long, length-head cmt_array n)) s
              (behind-Ahead item (encode_vals vs ++ rest) b a')
            ∙ ap (λ b2. some (ok (vs, b2))) (behind_both item (encode_vals vs) b))
    unpack_cbor_val-Ahead (suc (suc fuel)) (nvl ps) rest b (order, h) f s a =
        let n = length (pairs ps) in
        let item = head cmt_map n in
        let a' = part-Ahead item (encode_pairs ps) rest b a in
        let small : n < 2 ^ 60 = omega (
          arith,
          s,
          length-Ahead (item ++ (encode_pairs ps ++ rest)) b a',
          length-append item (encode_pairs ps ++ rest),
          length-append (encode_pairs ps) rest,
          pairs_short ps (readable-PairsHaveItems ps h),
        ) in
        let long = length-append item (encode_pairs ps) in
        let b1 = moved b (length item) in
        let (t, run, all) =
          pairs-Ahead fuel ps val_alloc_nvl rest b1 h
            (omega (arith, f, long, length-head cmt_map n)) s empty-IsRbTree order
            (behind-Ahead item (encode_pairs ps ++ rest) b a') in
        nvl_step alloc extra fuel b n t b1 _
          (peek_lem cmt_map n (encode_pairs ps ++ rest) b a' ∙ peek_map n (omega (arith, small)))
          (map_start-Ahead n (encode_pairs ps ++ rest) b (omega (arith, small)) a') run
        ∙ ap (λ qs. some (ok (nvl (make_pairs qs), moved b1 (length (encode_pairs ps))))) all
        ∙ ap (λ qs. some (ok (nvl qs, moved b1 (length (encode_pairs ps))))) (make_pairs-pairs ps)
        ∙ ap (λ b2. some (ok (nvl ps, b2))) (behind_both item (encode_pairs ps) b)
    unpack_cbor_val-Ahead (suc (suc fuel)) v rest b h f s a = absurd (ground arith)

    vals-Ahead :
        (fuel : ℕ) (vs : Vals) (rest : List ℕ) (b : Buffer)
        → AllReadable vs
        → 4 * length (encode_vals vs) + 1 ≤ fuel
        → b.size < 2 ^ 60
        → Ahead (encode_vals vs ++ rest) b
        → unpack_elems alloc extra fuel (length (vals vs)) (length (vals vs)) b
          ≡ some (ok (vs, moved b (length (encode_vals vs))))
    vals-Ahead zero vs rest b h f s a = absurd (omega (arith, f))
    vals-Ahead (suc fuel) no_vals rest b h f s a =
        (end_step alloc extra fuel b val_alloc_nvl).0
        ∙ ap (λ b1. some (ok (no_vals, b1))) (sym (not_moved b))
    vals-Ahead (suc fuel) (elem v vs) rest b (h, hs) f s a =
        let a' = part-Ahead (encode v) (encode_vals vs) rest b a in
        let long = length-append (encode v) (encode_vals vs) in
        let some_bytes = length-encode v (readable-HasItem v h) in
        let b1 = moved b (length (encode v)) in
        elem_step alloc extra fuel b (length (vals vs)) v vs b1 _
          (unpack_cbor_val-Ahead fuel v (encode_vals vs ++ rest) b h (omega (arith, f, long)) s a')
          (vals-Ahead fuel vs rest b1 hs (omega (arith, f, long, some_bytes)) s
              (behind-Ahead (encode v) (encode_vals vs ++ rest) b a')
            ∙ ap (λ b2. some (ok (vs, b2))) (behind_both (encode v) (encode_vals vs) b))

    pairs-Ahead :
        (fuel : ℕ) (ps : Pairs) (t : Nvlist) (rest : List ℕ) (b : Buffer)
        → PairsReadable ps
        → 4 * length (encode_pairs ps) + 1 ≤ fuel
        → b.size < 2 ^ 60
        → IsRbTree val_nvl_cmp t
        → Sorted val_nvl_cmp (items t.root ++ pairs ps)
        → Ahead (encode_pairs ps ++ rest) b
        → (t' : Nvlist) × (unpack_pairs alloc extra fuel (length (pairs ps)) t b
            ≡ some (ok (t', moved b (length (encode_pairs ps)))))
          × (items t'.root ≡ items t.root ++ pairs ps)
    pairs-Ahead zero ps t rest b h f s w order a = absurd (omega (arith, f))
    pairs-Ahead (suc fuel) no_pairs t rest b h f s w order a = (
      t,
      (end_step alloc extra fuel b t).1 ∙ ap (λ b1. some (ok (t, b1))) (sym (not_moved b)),
      sym (append-nil (items t.root)),
    )
    pairs-Ahead (suc zero) (pair n v ps) t rest b (m, h, hs) f s w order a = absurd (
        omega (
          arith,
          f,
          length-append (name_item n ++ encode v) (encode_pairs ps),
          length-append (name_item n) (encode v),
          length-encode v (readable-HasItem v h),
        ))
    pairs-Ahead (suc (suc fuel)) (pair n v ps) t rest b (m, h, hs) f s w order a =
        let x = name_item n in
        let y = encode v in
        let z = encode_pairs ps in
        let a1 = part-Ahead x y (z ++ rest) b (part-Ahead (x ++ y) z rest b a) in
        let b1 = moved b (length x) in
        let b2 = moved b1 (length y) in
        let a2 = behind-Ahead x (y ++ (z ++ rest)) b a1 in
        let xy = length-append x y in
        let xyz = length-append (x ++ y) z in
        let long = name_long n in
        let (t1, set, w1, new) =
          nvl_set_pair-last n v extra t w
            (Sorted-split val_nvl_cmp (items t.root) (n, v) (pairs ps) order).0 in
        let order1 : Sorted val_nvl_cmp (items t1.root ++ pairs ps) =
          subst (Sorted val_nvl_cmp)
            (sym (
              ap (λ xs. xs ++ pairs ps) new ∙ append_assoc (items t.root) ((n, v) ∷ []) (pairs ps)))
            order in
        let (t2, rest_of, last) =
          pairs-Ahead (suc fuel) ps t1 rest b2 hs (omega (arith, f, xy, xyz, long)) s w1 order1
            (behind-Ahead y (z ++ rest) b1 a2) in
        (
          t2,
          pair_step alloc extra fuel b (length (pairs ps)) t t1 t2 n v b1 b2 (moved b2 (length z))
                (unpack_cbor_str-Ahead alloc memory n (y ++ (z ++ rest)) b m a1)
                (unpack_cbor_val-Ahead fuel v (z ++ rest) b1 h (omega (arith, f, xy, xyz, long)) s
                  a2)
                set rest_of
              ∙ ap (λ b3. some (ok (t2, b3)))
                  (ap (λ c. moved c (length z)) (behind_both x y b) ∙ behind_both (x ++ y) z b),
          last
              ∙ ap (λ xs. xs ++ pairs ps) new
              ∙ append_assoc (items t.root) ((n, v) ∷ []) (pairs ps),
        )
