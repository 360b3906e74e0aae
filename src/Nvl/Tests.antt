-- ===== src/Nvl/Tests.antt =====
-- Name-value lists with three names, and runs of the operations.
use libjeffpc.Base.{
  ℕ, zero, suc, true, false, none, List, if◌then◌else◌, ◌≡◌, ◌⊎◌, refl, Result, ok, err, fault,
  enoent, enomem, erange, ◌>>=◌, codes,
}
use libjeffpc.Val.{vt_str, int, str, bool, null_pointer, strcmp, is_eq}
use libjeffpc.Tree.{leaf, node, plug, find_node}
use libjeffpc.Rbtree.{rb_add, rb_insert_here}
use libjeffpc.Rbtree.Insert.{IsRbTree}
use libjeffpc.Nvl.{
  Nvlist, val_nvl_cmp, nvl_lookup, nvl_lookup_int, nvl_lookup_str, nvl_exists, Memory, enough,
  nvl_set, unset, check_type, nvl_merge, do_nvl_set, find,
}
use libjeffpc.Nvl.Change.{room, nvl_set_lem, unset_lem}
use libjeffpc.Nvl.Merge.{or_else, Stopped, nvl_merge_lem}
use libjeffpc.Tree.Walk.{items}

abbrev port : List ℕ
port = codes "port"

abbrev host : List ℕ
host = codes "host"

abbrev debug : List ℕ
debug = codes "debug"

abbrev settings : Nvlist
settings = record {
  root =
      node false (node true leaf (debug, bool true) leaf) (host, str (codes "a"))
        (node true leaf (port, int 80) leaf);
  num_nodes = 3;
}

settings-IsRbTree : IsRbTree val_nvl_cmp settings
unfolding strcmp
settings-IsRbTree = record {
  red_black = (refl, (refl, refl, refl, (refl, refl, refl, tt, tt), (refl, refl, refl, tt, tt)));
  sorted = ((refl, (refl, tt)), ((refl, tt), (tt, tt)));
  counted = refl;
}

abbrev others : Nvlist
others = record { root = node false leaf (port, int 8080) leaf; num_nodes = 1 }

others-IsRbTree : IsRbTree val_nvl_cmp others
others-IsRbTree = record {
  red_black = (refl, (refl, refl, refl, tt, tt));
  sorted = (tt, tt);
  counted = refl;
}

lookups :
    (nvl_lookup_int settings port ≡ ok 80)
    × (nvl_lookup_str settings port ≡ err erange)
    × (nvl_lookup_int settings (codes "x") ≡ err enoent)
unfolding nvl_lookup_int nvl_lookup_str find find_node strcmp
lookups = (refl, refl, refl)

-- The type of a NULL value is read.
null_value :
    nvl_lookup_int (record { root = node false leaf (port, null_pointer) leaf; num_nodes = 1 }) port
    ≡ fault
unfolding nvl_lookup_int find find_node strcmp
null_value = refl

set_there :
    (nvl_set (enough true) settings port (int 443) >>= λ t. nvl_lookup t port) ≡ ok (port, int 443)
unfolding nvl_set do_nvl_set find find_node strcmp plug nvl_lookup
set_there = refl

abbrev nothing_left : Memory
nothing_left = record { node_room = none; name_room = true }

no_room : nvl_set nothing_left settings (codes "user") (int 7) ≡ err enomem
unfolding nvl_set do_nvl_set find find_node strcmp
no_room = refl

nvl_set_lem_example :
    (t' : Nvlist) × (nvl_set (enough true) settings (codes "user") (int 7)
      ≡ ((if nvl_exists settings (codes "user") then ok tt else room (enough true)) >>= λ _. ok t'))
    × IsRbTree val_nvl_cmp t'
    × (nvl_lookup t' port ≡ (
        if is_eq (strcmp port (codes "user"))
        then ok (codes "user", int 7)
        else nvl_lookup settings port))
nvl_set_lem_example =
    nvl_set_lem (enough true) settings (codes "user") (int 7) port settings-IsRbTree

unset_lem_example :
    (t' : Nvlist) × (unset settings host vt_str true ≡ (
      nvl_lookup settings host >>= λ pair.
      (if true then check_type pair.1 vt_str else ok tt) >>= λ _. ok t'))
    × IsRbTree val_nvl_cmp t'
    × (nvl_lookup t' port
        ≡ (if is_eq (strcmp port host) then err enoent else nvl_lookup settings port))
unset_lem_example = unset_lem settings host vt_str true port settings-IsRbTree

-- The first new pair can be made, and none behind it.
abbrev one_pair : ℕ → Memory
one_pair zero = enough true
one_pair (suc n) = nothing_left

nvl_merge_lem_example :
    (r : Result (Unit {0})) × (t' : Nvlist) × (nvl_merge one_pair others settings ≡ (r, t'))
    × IsRbTree val_nvl_cmp t'
    × (((r ≡ ok tt)
          × (nvl_lookup t' port ≡ or_else (nvl_lookup settings port) (nvl_lookup others port)))
        ⊎ Stopped one_pair 0 others (items settings.root) port r t')
nvl_merge_lem_example =
    nvl_merge_lem one_pair others settings port others-IsRbTree settings-IsRbTree

-- "debug" is put in, and "host" is not.
stops_early : (nvl_merge one_pair others settings).0 ≡ err enomem
unfolding nvl_merge nvl_set do_nvl_set find find_node strcmp plug rb_add rb_insert_here
    libjeffpc.Rbtree.recolour libjeffpc.Tree.tree_insert_here libjeffpc.Tree.tree_find
    libjeffpc.Rbtree.fix_insert
stops_early = refl
