-- ===== src/Qstring/Tests.antt =====
-- Query strings read into an empty list.
use libjeffpc.Base.{◌≡◌, refl, true, some, [], ◌∷◌, ok, err, eilseq, codes}
use libjeffpc.Buffer.Example.{junk}
use libjeffpc.Urldecode.{urldecode, escape_digit}
use libjeffpc.Val.{null, str, strnlen_bytes, strcmp}
use libjeffpc.Tree.{find_node, plug, tree_insert_here, tree_find, find_loop, insert_at}
use libjeffpc.Tree.Walk.{items}
use libjeffpc.Rbtree.{rb_add, rb_insert_here, recolour, fix_insert}
use libjeffpc.Nvl.{val_alloc_nvl, nvl_set, nvl_set_null, do_nvl_set, find}
use libjeffpc.Qstring.{qstring_parse_len, qstring_loop, insert, decode_name, urldecode_str}

-- A second "=" ends the parse, with the pairs before it set.
second_equals :
    (qstring_parse_len junk true val_alloc_nvl (some (codes "a&b=c=d")) 7).0 ≡ err eilseq
unfolding qstring_parse_len qstring_loop insert decode_name urldecode_str urldecode junk
    strnlen_bytes nvl_set nvl_set_null do_nvl_set find find_node strcmp plug rb_add rb_insert_here
    recolour fix_insert tree_insert_here tree_find find_loop insert_at
second_equals = refl

-- A name with a bad escape is dropped.
bad_escape :
    qstring_parse_len junk true val_alloc_nvl (some (codes "%zz=1")) 5 ≡ (ok tt, val_alloc_nvl)
unfolding qstring_parse_len qstring_loop insert decode_name urldecode_str urldecode escape_digit
    junk strnlen_bytes
bad_escape = refl

two_pairs :
    items (qstring_parse_len junk true val_alloc_nvl (some (codes "b=x+y&a")) 7).1.root
    ≡ (97 ∷ [], null) ∷ (98 ∷ [], str (codes "x y")) ∷ []
unfolding qstring_parse_len qstring_loop insert decode_name urldecode_str urldecode junk
    strnlen_bytes nvl_set nvl_set_null do_nvl_set find find_node strcmp plug rb_add rb_insert_here
    recolour fix_insert tree_insert_here tree_find find_loop insert_at
two_pairs = refl
