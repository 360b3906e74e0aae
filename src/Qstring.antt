-- ===== src/Qstring.antt =====
-- qstring.c, and urldecode_str of urldecode.c: query strings read into a name-value list. `stack n` is what an
-- array of `n` bytes on the stack holds at first, and `extra` what the memory of a new pair's node holds. The
-- list is returned with the result, since it is changed before an error is found.
mod Tests
use libjeffpc.Base.{
  ℕ, ◌+◌, ◌==◌, Bool, true, false, Option, none, some, List, [], ◌∷◌, ◌++◌, length, set,
  if◌then◌else◌, Result, ok, err, panic, fault, ◌>>=◌, einval, eilseq,
}
use libjeffpc.Urldecode.{urldecode}
use libjeffpc.Val.{Val, str, strnlen_bytes}
use libjeffpc.Nvl.{Nvlist, enough, nvl_set, nvl_set_null}

module _ (stack : ℕ → List ℕ) (extra : Bool) where
  unfoldable pub urldecode_str : List ℕ → Result (List ℕ)
  unfolding strnlen_bytes
  urldecode_str text = urldecode (some text) (some (stack (length text))) >>= λ (outlen, out).
      ok (strnlen_bytes out outlen)

  -- The name is decoded, ended by a NUL, and read up to its first NUL.
  unfoldable pub decode_name : List ℕ → Result (List ℕ)
  unfolding strnlen_bytes
  decode_name text = urldecode (some text) (some (stack (length text + 1))) >>= λ (newlen, name).
      ok (strnlen_bytes (set name newlen 0) (length text + 1))

  unfoldable pub insert : Nvlist → List ℕ → Option (List ℕ) → Result Nvlist
  unfolding urldecode_str decode_name
  insert t name none = decode_name name >>= λ n. nvl_set_null (enough extra) t n
  insert t name (some []) = decode_name name >>= λ n. nvl_set (enough extra) t n (str [])
  insert t name (some (c ∷ cs)) =
      decode_name name >>= λ n. urldecode_str (c ∷ cs) >>= λ v. nvl_set (enough extra) t n (str v)

  -- What is done behind an insertion, whose errors are not looked at.
  abbrev pub whatever :
      Nvlist → Result Nvlist → (Nvlist → Result (Unit {0}) × Nvlist) → Result (Unit {0}) × Nvlist
  whatever t (ok t') next = next t'
  whatever t (err e) next = next t
  whatever t panic next = (panic, t)
  whatever t fault next = (fault, t)

  -- The loop and the insertion of the last pair: the name so far, and the value so far where the state
  -- is QS_STATE_VAL.
  unfoldable pub qstring_loop :
      Nvlist → List ℕ → Option (List ℕ) → List ℕ → Result (Unit {0}) × Nvlist
  unfolding insert
  qstring_loop t [] none [] = (ok tt, t)
  qstring_loop t (c ∷ cs) none [] = whatever t (insert t (c ∷ cs) none) λ t'. (ok tt, t')
  qstring_loop t name (some val) [] = whatever t (insert t name (some val)) λ t'. (ok tt, t')
  qstring_loop t name none (c ∷ rest) =
      let value = qstring_loop t name (some []) rest in
      let pair = λ (t' : Nvlist). qstring_loop t' [] none rest in
      let longer = qstring_loop t (name ++ c ∷ []) none rest in
      if (c == 61)
      then value
      else if (c == 38)
      then whatever t (insert t name none) pair
      else longer
  qstring_loop t name (some val) (c ∷ rest) =
      let pair = λ (t' : Nvlist). qstring_loop t' [] none rest in
      let longer = qstring_loop t name (some (val ++ c ∷ [])) rest in
      if (c == 38)
      then whatever t (insert t name (some val)) pair
      else if (c == 61)
      then (err eilseq, t)
      else longer

  -- NULL for the text is nothing, and else the text has `len` bytes. The list is there.
  unfoldable pub qstring_parse_len : Nvlist → Option (List ℕ) → ℕ → Result (Unit {0}) × Nvlist
  unfolding qstring_loop
  qstring_parse_len t none len = if (len == 0) then (ok tt, t) else (err einval, t)
  qstring_parse_len t (some qs) len = qstring_loop t [] none qs
