-- ===== src/Mib/Search/Keeps.antt =====
-- The identifier of the result of a GET or SET search (core/mib_tree.c) is the one searched for.
use smithsnmp.Base.{
  ℕ, ◌%◌, ◌^◌, ◌≡◌, refl, Option, none, some, List, [], ◌∷◌, Bool-cases, Option-cases, inl, inr,
  ◌==◌, ◌&&◌,
}
use smithsnmp.Asn1.{asn1_tag_valid}
use smithsnmp.Oid.{Position, found, missing, oid_binary_search}
use smithsnmp.Mib.Tree.{MibNode, group_node, instance_node, sub_ids, sub_ptr}
use smithsnmp.Mib.View.{MibView}
use smithsnmp.Mib.Instance.{
  OidSearchRes, Lua, mib_instance_search, after_call, called, accept_reply, store_value,
  snmp_req_set,
}
use smithsnmp.Mib.Search.{tree_walk, mib_tree_search}
use smithsnmp.Mib.Search.Handlers.{cover_cases, search_covered, search_apart}

-- A result, if there is one, has the identifier.
abbrev pub HasOid : List ℕ → Option OidSearchRes → Type 0
HasOid oid none = Unit
HasOid oid (some res) = res.oid ≡ oid

module _ (lua : Lua) where
  accept_reply-HasOid :
      (res : OidSearchRes) (err tag : ℕ) (inst v : lua.Value)
      → HasOid res.oid (accept_reply lua res err tag inst v)
  unfolding accept_reply
  accept_reply-HasOid res err tag inst v = elim (Bool-cases (err == 0 && asn1_tag_valid tag)) [
    | inl e ↦ elim (Bool-cases (res.request == snmp_req_set)) [
      | inl q ↦ rw (e, q) refl
      | inr q ↦ elim (Option-cases (store_value lua (record (res.var) { tag = tag }) v)) [
        | inl s ↦ rw (e, q, s) tt
        | inr (w, s) ↦ rw (e, q, s) refl
      ]
    ]
    | inr e ↦ rw e refl
  ]

  call-HasOid :
      (res : OidSearchRes) (reply : Option (lua.Value × lua.Value × lua.Value × lua.Value))
      → HasOid res.oid (after_call lua res reply)
  unfolding after_call
  call-HasOid res none = refl
  call-HasOid res (some (err, inst, v, tag)) =
      accept_reply-HasOid res (lua.to_number err) (lua.to_number tag % 2 ^ 8) inst v

  instance-HasOid :
      (st : lua.State) (res : OidSearchRes) → HasOid res.oid (mib_instance_search lua st res).0
  unfolding mib_instance_search
  instance-HasOid st res = call-HasOid res (called lua st res).0

  walk-HasOid :
      (t : MibNode) (st : lua.State) (oid : List ℕ) (res : OidSearchRes)
      → HasOid res.oid (tree_walk lua t st oid res).0
  unfolding tree_walk
  walk-HasOid (instance_node c) st [] res = unfold tree_walk in refl
  walk-HasOid (group_node room subs) st [] res = unfold tree_walk in refl
  walk-HasOid (instance_node c) st (x ∷ oid) res =
      unfold tree_walk in instance-HasOid st (record res { inst_id = x ∷ oid; callback = c })
  walk-HasOid (group_node room subs) st (x ∷ oid) res =
      go (λ n. walk-HasOid n st oid res) (oid_binary_search (sub_ids subs) x) refl
    where
      go :
          ((n : MibNode) → HasOid res.oid (tree_walk lua n st oid res).0)
          → (p : Position) → oid_binary_search (sub_ids subs) x ≡ p
          → HasOid res.oid (tree_walk lua (group_node room subs) st (x ∷ oid) res).0
      go below (missing i) q = rw (tree_walk, q) refl
      go below (found i) q = elim (Option-cases (sub_ptr subs i)) [
        | inl s ↦ rw (tree_walk, q, s) refl
        | inr (n, s) ↦ rw (tree_walk, q, s) (below n)
      ]

  pub search-HasOid :
      (root : MibNode) (st : lua.State) (view : MibView) (oid : List ℕ) (res : OidSearchRes)
      → HasOid oid (mib_tree_search lua root st view oid res).0
  search-HasOid root st view oid res = elim (cover_cases view oid) [
    | inl v ↦
        rw (search_covered lua st root view oid res v)
          (walk-HasOid root st oid (record res { oid = oid; err_stat = 0 }))
    | inr v ↦ rw (search_apart lua st root view oid res v) refl
  ]
