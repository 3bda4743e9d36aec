-- ===== src/Tests/Requests.antt =====
-- Runs of requests, and their theorems at concrete inputs.
use smithsnmp.Base.{ℕ, suc, ◌≡◌, refl, arith, none, some, List, [], ◌∷◌}
use smithsnmp.Asn1.{asn1_tag_int}
use smithsnmp.Oid.Prefix.{IsPrefix}
use smithsnmp.Oid.{oid_cover}
use smithsnmp.Mib.Tree.{MibNode, group_node, instance_node, nil, cons, sub_ids}
use smithsnmp.Mib.Tree.Insert.{IsWellFormed}
use smithsnmp.Mib.Tree.Lookup.{callback_at, node_at}
use smithsnmp.Mib.View.{MibView, MibCommunity, view_cover}
use smithsnmp.Mib.User.{MibUser}
use smithsnmp.Mib.Instance.{OidSearchRes, Lua, mib_instance_search}
use smithsnmp.Mib.Search.{mib_tree_search}
use smithsnmp.Mib.Search.Handlers.{mib_tree_search_hit}
use smithsnmp.Snmp.Access.{returned, Sender, mib_set}
use smithsnmp.Snmp.Access.Ends.{rights, search_views}
use smithsnmp.Snmp.Access.Denial.{mib_set_searches, mib_set_denied}
use smithsnmp.Snmp.Request.{VarBind, Datagram}

-- An interpreter that counts its calls; each handler returns its number as an integer.
abbrev pub counting_lua : Lua
counting_lua = record {
  State = ℕ;
  Value = ℕ;
  to_number = λ v. v;
  to_lstring = λ v. [];
  to_table = λ v. [];
  pcall = λ st callback request inst value type. (some (0, 0, callback, asn1_tag_int), suc st);
}

-- What stands at 1.
abbrev pub small_node : MibNode
small_node = group_node 2 (cons 3 (instance_node 7) nil)

abbrev pub small_tree : MibNode
small_tree = group_node 1 (cons 1 small_node nil)

abbrev pub small_view : MibView
small_view = record { addr = 1; oid = 1 ∷ [] }

abbrev pub both_community : MibCommunity
both_community = record {
  name = 112 ∷ [];
  views = record { ro_views = small_view ∷ []; rw_views = small_view ∷ [] };
}

abbrev pub some_user : MibUser
some_user = record {
  name = 117 ∷ [];
  auth_mode = 0;
  priv_mode = 0;
  auth_key = [];
  priv_key = [];
  views = record { ro_views = small_view ∷ []; rw_views = small_view ∷ [] };
}

-- A message of version 3 that was not authenticated, and one of version 1.
abbrev unauthentic : Sender
unauthentic = record {
  version = 3;
  msg_flags = 1;
  user = some some_user;
  auth_err = 16;
  context_name = [];
}

abbrev pub v1_sender : Sender
v1_sender = record {
  version = 0;
  msg_flags = 0;
  user = none;
  auth_err = 0;
  context_name = 112 ∷ [];
}

abbrev stranger : Sender
stranger = record { version = 0; msg_flags = 0; user = none; auth_err = 0; context_name = 113 ∷ [] }

abbrev pub empty_res : OidSearchRes
empty_res = record {
  oid = [];
  inst_id = [];
  callback = 0;
  request = 0xA3;
  err_stat = 0;
  var = record { tag = 2; len = 1; value = 5 ∷ 0 ∷ 0 ∷ 0 ∷ [] };
}

pub small_tree-IsWellFormed : IsWellFormed small_tree
unfolding sub_ids
small_tree-IsWellFormed = omega arith

mib_tree_search_hit_example :
    mib_tree_search counting_lua small_tree 0 small_view (1 ∷ 3 ∷ 0 ∷ []) empty_res
    ≡ mib_instance_search counting_lua 0
        (record empty_res { oid = 1 ∷ 3 ∷ 0 ∷ []; err_stat = 0; inst_id = 0 ∷ []; callback = 7 })
unfolding node_at oid_cover
mib_tree_search_hit_example =
    mib_tree_search_hit counting_lua 0 small_tree small_view (1 ∷ 3 ∷ []) 0 [] 7 empty_res
      small_tree-IsWellFormed refl refl

nothing_at_12 : (p : List ℕ) → IsPrefix p (1 ∷ 2 ∷ []) → callback_at small_tree p ≡ none
nothing_at_12 [] h = unfold node_at in refl
nothing_at_12 (x ∷ []) h = let e = h.0 in rw e (unfold node_at in refl)
nothing_at_12 (x ∷ y ∷ []) h = let e = h.0 in let f = h.1.0 in rw (e, f) (unfold node_at in refl)
nothing_at_12 (x ∷ y ∷ z ∷ p) h = absurd (h.1.1)

mib_set_searches_example :
    mib_set counting_lua small_tree 2 [] unauthentic (1 ∷ 3 ∷ 0 ∷ []) empty_res 0
    ≡ search_views counting_lua small_tree
        (1 ∷ 3 ∷ 0 ∷ [])
        (rights [] unauthentic).rw_views
        empty_res
        0
unfolding rights view_cover
mib_set_searches_example =
    mib_set_searches counting_lua small_tree [] unauthentic (1 ∷ 3 ∷ 0 ∷ []) empty_res 0 2 refl
      (tt, tt) (omega arith)

-- The handler runs although the authentication failed.
set_by_unauthentic :
    mib_set counting_lua small_tree 2 [] unauthentic (1 ∷ 3 ∷ 0 ∷ []) empty_res 0
    ≡ returned (record empty_res { oid = 1 ∷ 3 ∷ 0 ∷ []; inst_id = 0 ∷ []; callback = 7 }) 1
unfolding mib_set mib_instance_search
set_by_unauthentic = refl

mib_set_denied_example :
    mib_set counting_lua small_tree 1 (both_community ∷ []) stranger (1 ∷ 3 ∷ 0 ∷ []) empty_res 0
    ≡ returned (record empty_res { oid = 1 ∷ 3 ∷ 0 ∷ []; err_stat = 6 }) 0
unfolding rights view_cover
mib_set_denied_example =
    mib_set_denied counting_lua small_tree (both_community ∷ []) stranger (1 ∷ 3 ∷ 0 ∷ []) empty_res
      0 0 refl

abbrev pub two_bindings : List VarBind
two_bindings =
    record { oid = 1 ∷ 3 ∷ 0 ∷ []; vb_len = 0; value_type = 5; value = [] }
    ∷ record { oid = 2 ∷ []; vb_len = 0; value_type = 5; value = [] }
    ∷ []

abbrev pub empty_datagram : Datagram
empty_datagram = record {
  err_stat = 0;
  err_idx = 0;
  vb_list_len = 0;
  vb_out_cnt = 0;
  vb_out_list = [];
}
