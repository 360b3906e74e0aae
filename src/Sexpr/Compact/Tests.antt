-- ===== src/Sexpr/Compact/Tests.antt =====
-- Lists that are turned into arrays and name-value lists.
use libjeffpc.Base.{◌≡◌, refl, true, false, ok, fault, [], ◌∷◌}
use libjeffpc.Val.{
  Val, null_pointer, int, str, sym, cons, array, nvl, no_vals, elem, no_pairs, pair, strcmp,
  val_empty_cons,
}
use libjeffpc.Tree.{find_node, plug, tree_insert_here, tree_find, find_loop, insert_at}
use libjeffpc.Rbtree.{rb_add, rb_insert_here, recolour, fix_insert, rotate_up, repaint, rb_rotate}
use libjeffpc.Nvl.{nvl_set_pair, do_nvl_set, find}
use libjeffpc.Sexpr.Compact.{sexpr_compact, what_is_it, kind_of_list}

abbrev a : Val
a = sym (97 ∷ [])

abbrev b : Val
b = str (98 ∷ [])

numbers :
    sexpr_compact true (cons (int 1) (cons (int 2) null_pointer))
    ≡ ok (false, array (elem (int 1) (elem (int 2) no_vals)))
unfolding sexpr_compact what_is_it kind_of_list
numbers = refl

-- The names are put in order.
names :
    sexpr_compact true (cons (cons b (int 2)) (cons (cons a (int 1)) null_pointer))
    ≡ ok (false, nvl (pair (97 ∷ []) (int 1) (pair (98 ∷ []) (int 2) no_pairs)))
unfolding sexpr_compact what_is_it kind_of_list nvl_set_pair do_nvl_set find find_node plug strcmp
    rb_add rb_insert_here recolour fix_insert rotate_up repaint rb_rotate tree_insert_here tree_find
    find_loop insert_at
names = refl

-- Of two pairs with one name the last one counts.
repeated :
    sexpr_compact true (cons (cons a (int 1)) (cons (cons a (int 2)) null_pointer))
    ≡ ok (false, nvl (pair (97 ∷ []) (int 2) no_pairs))
unfolding sexpr_compact what_is_it kind_of_list nvl_set_pair do_nvl_set find find_node plug strcmp
    rb_add rb_insert_here recolour fix_insert rotate_up repaint rb_rotate tree_insert_here tree_find
    find_loop insert_at
repeated = refl

-- A dotted pair and the empty list stay as they are.
kept :
    (sexpr_compact true (cons a b) ≡ ok (true, cons a b))
    × (sexpr_compact true val_empty_cons ≡ ok (true, val_empty_cons))
unfolding sexpr_compact what_is_it kind_of_list
kept = (refl, refl)

-- The value of a list's pair with nothing behind its name is NULL, through which the type is read.
null_value : sexpr_compact true (cons (cons a null_pointer) null_pointer) ≡ fault
unfolding sexpr_compact what_is_it kind_of_list
null_value = refl
