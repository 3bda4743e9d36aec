-- ===== src/Mib/Search.antt =====
-- `mib_tree_search` of core/mib_tree.c: the handler of a GET or SET request is found on the way down
-- the tree, and called.
pub mod Handlers
pub mod Keeps
use smithsnmp.Base.{ℕ, Bool, true, Option, none, some, List, [], ◌∷◌}
use smithsnmp.Asn1.{asn1_tag_no_such_obj, asn1_tag_no_such_inst}
use smithsnmp.Oid.{found, missing, oid_binary_search, oid_cover, covers, covered, apart}
use smithsnmp.Mib.Tree.{MibNode, group_node, instance_node, sub_ids, sub_ptr}
use smithsnmp.Mib.View.{MibView}
use smithsnmp.Mib.Instance.{Variable, OidSearchRes, Lua, mib_instance_search}

-- A search that ends with a tag and no call.
abbrev pub answer : OidSearchRes → List ℕ → ℕ → OidSearchRes
answer res rest tag = record res { inst_id = rest; var = record (res.var) { tag = tag } }

-- The node at which the loop ends, which the function returns.
unfoldable pub tree_end : MibNode → List ℕ → Option MibNode
unfolding sub_ids sub_ptr oid_binary_search
tree_end node [] = some node
tree_end (instance_node c) (x ∷ oid) = some (instance_node c)
tree_end (group_node room subs) (x ∷ oid) = elim (oid_binary_search (sub_ids subs) x) [
  | missing i ↦ some (group_node room subs)
  | found i ↦ elim (sub_ptr subs i) [ none ↦ none | some n ↦ tree_end n oid ]
]

-- The result of `mib_tree_search`.
unfoldable pub search_end : MibNode → MibView → List ℕ → Option MibNode
unfolding oid_cover tree_end
search_end root view orig_oid = elim (oid_cover view.oid orig_oid) [
  | covers ↦ tree_end root orig_oid
  | _ ↦ none
]

module _ (lua : Lua) where
  -- The loop, which ends in the call of a handler or without one.
  unfoldable pub tree_walk :
      MibNode → lua.State → List ℕ → OidSearchRes → Option OidSearchRes × lua.State
  unfolding sub_ids sub_ptr oid_binary_search
  tree_walk (instance_node c) st [] res = (some (answer res [] asn1_tag_no_such_inst), st)
  tree_walk (group_node room subs) st [] res = (some (answer res [] asn1_tag_no_such_obj), st)
  tree_walk (instance_node c) st (x ∷ oid) res =
      mib_instance_search lua st (record res { inst_id = x ∷ oid; callback = c })
  tree_walk (group_node room subs) st (x ∷ oid) res = elim (oid_binary_search (sub_ids subs) x) [
    | missing i ↦ (some (answer res (x ∷ oid) asn1_tag_no_such_obj), st)
    | found i ↦ elim (sub_ptr subs i) [
      | none ↦ (some (answer res oid asn1_tag_no_such_obj), st)
      | some n ↦ tree_walk n st oid res
    ]
  ]

  -- `none` is a failed assertion. The node that the function returns is `search_end`.
  unfoldable pub mib_tree_search :
      MibNode → lua.State → MibView → List ℕ → OidSearchRes → Option OidSearchRes × lua.State
  unfolding oid_cover tree_walk
  mib_tree_search root st view orig_oid ret_oid =
      let res = record ret_oid { oid = orig_oid; err_stat = 0 } in
      elim (oid_cover view.oid orig_oid) [
        | covers ↦ tree_walk root st orig_oid res
        | _ ↦ (some (record res { var = record (res.var) { tag = asn1_tag_no_such_obj } }), st)
      ]
