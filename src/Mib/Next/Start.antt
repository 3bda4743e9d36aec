-- ===== src/Mib/Next/Start.antt =====
-- Where `mib_tree_search_next` (core/mib_tree.c) starts: what `mib_tree_search` leaves at the
-- identifier of a view.
use smithsnmp.Base.{
  ℕ, suc, ◌≤◌, ◌≡◌, refl, ap, ◌∙◌, arith, true, false, some, List, [], ◌∷◌, length, leb, take, drop,
  Option-cases, inl, inr,
}
use smithsnmp.Asn1.{asn1_tag_no_such_obj, asn1_tag_no_such_inst}
use smithsnmp.Mib.Tree.{MibNode, group_node, instance_node, SubNodes}
use smithsnmp.Mib.Tree.Subs.{child}
use smithsnmp.Mib.Tree.Hits.{find-Hit}
use smithsnmp.Mib.Tree.Insert.{IsWellFormed}
use smithsnmp.Mib.Tree.Lookup.{node_at, node_at-none, node_at-some, child-IsWellFormed}
use smithsnmp.Mib.Instance.{OidSearchRes, Lua, snmp_req_getnext}
use smithsnmp.Mib.Search.{answer, tree_walk, tree_end}
use smithsnmp.Mib.Search.Handlers.{walk_some}
use smithsnmp.Mib.Next.Candidates.{all_of, not_before}

-- The tag that the search for the identifier of a node leaves.
abbrev pub end_tag : MibNode → ℕ
end_tag (instance_node c) = asn1_tag_no_such_inst
end_tag (group_node room subs) = asn1_tag_no_such_obj

pub end_some :
    (room x : ℕ) (subs : SubNodes) (oid : List ℕ) (n : MibNode)
    → IsWellFormed (group_node room subs)
    → child subs x ≡ some n
    → tree_end (group_node room subs) (x ∷ oid) ≡ tree_end n oid
unfolding tree_end
end_some room x subs oid n w e = let (i, h) = find-Hit subs x w.0 e in ground (arith, h.0, h.1)

pub tree_end-node_at :
    (t : MibNode) (p : List ℕ) (n : MibNode)
    → IsWellFormed t
    → node_at t p ≡ some n
    → (tree_end t p ≡ some n) × IsWellFormed n
tree_end-node_at t [] n w e =
    let q : t ≡ n = unfold node_at in ground arith in
    (unfold tree_end in unfold node_at in e, rw (← q) w)
tree_end-node_at (instance_node d) (x ∷ p) n w e = absurd (unfold node_at in ground arith)
tree_end-node_at (group_node room subs) (x ∷ p) n w e = elim (Option-cases (child subs x)) [
  | inl q ↦ absurd (cc (e, node_at-none room x subs p q))
  | inr (m, q) ↦
      let (a, b) =
        tree_end-node_at m p n (child-IsWellFormed subs x w.1 q)
          (cc (e, node_at-some room x subs p q)) in
      (end_some room x subs p m w q ∙ a, b)
]

module _ (lua : Lua) (st : lua.State) (res : OidSearchRes) where
  pub walk-node_at :
      (t : MibNode) (p : List ℕ) (n : MibNode)
      → IsWellFormed t
      → node_at t p ≡ some n
      → tree_walk lua t st p res ≡ (some (answer res [] (end_tag n)), st)
  walk-node_at (instance_node d) [] n w e =
      let q : instance_node d ≡ n = unfold node_at in ground arith in
      rw (← q) (unfold tree_walk in refl)
  walk-node_at (group_node room subs) [] n w e =
      let q : group_node room subs ≡ n = unfold node_at in ground arith in
      rw (← q) (unfold tree_walk in refl)
  walk-node_at (instance_node d) (x ∷ p) n w e = absurd (unfold node_at in ground arith)
  walk-node_at (group_node room subs) (x ∷ p) n w e = elim (Option-cases (child subs x)) [
    | inl q ↦ absurd (cc (e, node_at-none room x subs p q))
    | inr (m, q) ↦
        walk_some lua st res room x subs p w m q
        ∙ walk-node_at m p n (child-IsWellFormed subs x w.1 q)
            (cc (e, node_at-some room x subs p q))
  ]

-- What the first search leaves in the result, for the loop.
abbrev pub ready : OidSearchRes → List ℕ → MibNode → OidSearchRes
ready res oid n = record res {
  oid = oid;
  inst_id = [];
  err_stat = 0;
  request = snmp_req_getnext;
  var = record (res.var) { tag = end_tag n };
}

pub not_before-nil : (n : MibNode) (path : List ℕ) → not_before n path [] ≡ all_of n path
unfolding not_before all_of
not_before-nil (instance_node c) path = refl
not_before-nil (group_node room subs) path = refl

pub take_all : (a : List ℕ) → take (length a) a ≡ a
take_all [] = refl
take_all (x ∷ a) = ap (λ t. x ∷ t) (take_all a)

pub drop_all : (a : List ℕ) → drop (length a) a ≡ []
drop_all [] = refl
drop_all (x ∷ a) = drop_all a

pub leb_refl : (m : ℕ) → leb m m ≡ true
leb_refl m = ground arith

pub leb_longer : (m l : ℕ) → suc m ≤ l → leb l m ≡ false
leb_longer m l h = ground arith
