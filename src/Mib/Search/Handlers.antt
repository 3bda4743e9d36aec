-- ===== src/Mib/Search/Handlers.antt =====
-- Which handler `mib_tree_search` of core/mib_tree.c calls, in terms of the map from identifiers to
-- handlers.
use smithsnmp.Base.{
  ℕ, ◌≡◌, ◌≢◌, ◌⊎◌, refl, ◌∙◌, arith, none, some, List, [], ◌∷◌, ◌++◌, Option-cases, inl, inr,
}
use smithsnmp.Asn1.{asn1_tag_no_such_obj, asn1_tag_no_such_inst}
use smithsnmp.Oid.{Cover, oid_cover, covers, covered, apart}
use smithsnmp.Oid.Prefix.{IsPrefix}
use smithsnmp.Mib.Tree.{MibNode, group_node, instance_node, SubNodes}
use smithsnmp.Mib.Tree.Subs.{child}
use smithsnmp.Mib.Tree.Hits.{find_miss, find-Hit}
use smithsnmp.Mib.Tree.Insert.{IsWellFormed}
use smithsnmp.Mib.Tree.Lookup.{node_at, callback_at, node_at-none, node_at-some, child-IsWellFormed}
use smithsnmp.Mib.View.{MibView}
use smithsnmp.Mib.Instance.{OidSearchRes, Lua, mib_instance_search}
use smithsnmp.Mib.Search.{answer, tree_walk, mib_tree_search}

module _ (lua : Lua) (st : lua.State) (res : OidSearchRes) where
  module _ (room x : ℕ) (subs : SubNodes) (oid : List ℕ)
      (w : IsWellFormed (group_node room subs)) where
    walk_none :
        child subs x ≡ none
        → tree_walk lua (group_node room subs) st (x ∷ oid) res
          ≡ (some (answer res (x ∷ oid) asn1_tag_no_such_obj), st)
    unfolding tree_walk
    walk_none e = let (i, q) = find_miss subs x w.0 e in ground (arith, q)

    pub walk_some :
        (n : MibNode)
        → child subs x ≡ some n
        → tree_walk lua (group_node room subs) st (x ∷ oid) res ≡ tree_walk lua n st oid res
    unfolding tree_walk
    walk_some n e = let (i, h) = find-Hit subs x w.0 e in ground (arith, h.0, h.1)

pub cover_cases :
    (view : MibView) (oid : List ℕ)
    → (oid_cover view.oid oid ≡ covers) ⊎ (oid_cover view.oid oid ≢ covers)
cover_cases view oid = go (oid_cover view.oid oid)
  where
    go : (k : Cover) → (k ≡ covers) ⊎ (k ≢ covers)
    go covers = inl refl
    go covered = inr (λ e. cc)
    go apart = inr (λ e. cc)

module _ (lua : Lua) (st : lua.State) where
  walk_hit :
      (t : MibNode) (p : List ℕ) (y : ℕ) (rest : List ℕ) (c : ℕ) (res : OidSearchRes)
      → IsWellFormed t
      → callback_at t p ≡ some c
      → tree_walk lua t st (p ++ (y ∷ rest)) res
        ≡ mib_instance_search lua st (record res { inst_id = y ∷ rest; callback = c })
  walk_hit (instance_node d) [] y rest c res w e =
      let q : d ≡ c = unfold node_at in ground arith in unfold tree_walk in rw q refl
  walk_hit (group_node room subs) [] y rest c res w e = absurd (unfold node_at in ground arith)
  walk_hit (instance_node d) (x ∷ p) y rest c res w e = absurd (unfold node_at in ground arith)
  walk_hit (group_node room subs) (x ∷ p) y rest c res w e = elim (Option-cases (child subs x)) [
    | inl q ↦ absurd (cc (e, node_at-none room x subs p q))
    | inr (n, q) ↦
        walk_some lua st res room x subs (p ++ (y ∷ rest)) w n q
        ∙ walk_hit n p y rest c res (child-IsWellFormed subs x w.1 q)
            (cc (e, node_at-some room x subs p q))
  ]

  walk_end :
      (t : MibNode) (p : List ℕ) (c : ℕ) (res : OidSearchRes)
      → IsWellFormed t
      → callback_at t p ≡ some c
      → tree_walk lua t st p res ≡ (some (answer res [] asn1_tag_no_such_inst), st)
  walk_end (instance_node d) [] c res w e = unfold tree_walk in refl
  walk_end (group_node room subs) [] c res w e = absurd (unfold node_at in ground arith)
  walk_end (instance_node d) (x ∷ p) c res w e = absurd (unfold node_at in ground arith)
  walk_end (group_node room subs) (x ∷ p) c res w e = elim (Option-cases (child subs x)) [
    | inl q ↦ absurd (cc (e, node_at-none room x subs p q))
    | inr (n, q) ↦
        walk_some lua st res room x subs p w n q
        ∙ walk_end n p c res (child-IsWellFormed subs x w.1 q)
            (cc (e, node_at-some room x subs p q))
  ]

  walk_miss :
      (t : MibNode) (oid : List ℕ) (res : OidSearchRes)
      → IsWellFormed t
      → ((p : List ℕ) → IsPrefix p oid → callback_at t p ≡ none)
      → (rest : List ℕ) × (tree_walk lua t st oid res
          ≡ (some (answer res rest asn1_tag_no_such_obj), st))
  walk_miss (instance_node d) oid res w h =
      absurd (let q = h [] tt in unfold node_at in ground arith)
  walk_miss (group_node room subs) [] res w h = ([], unfold tree_walk in refl)
  walk_miss (group_node room subs) (x ∷ oid) res w h = elim (Option-cases (child subs x)) [
    | inl q ↦ (x ∷ oid, walk_none lua st res room x subs oid w q)
    | inr (n, q) ↦
        let (rest, r) =
          walk_miss n oid res (child-IsWellFormed subs x w.1 q)
            (λ p i. cc (h (x ∷ p) (refl, i), node_at-some room x subs p q)) in
        (rest, walk_some lua st res room x subs oid w n q ∙ r)
  ]

  pub search_covered :
      (root : MibNode) (view : MibView) (oid : List ℕ) (res : OidSearchRes)
      → oid_cover view.oid oid ≡ covers
      → mib_tree_search lua root st view oid res
        ≡ tree_walk lua root st oid (record res { oid = oid; err_stat = 0 })
  unfolding mib_tree_search
  search_covered root view oid res v = ground (arith, v)

  pub search_apart :
      (root : MibNode) (view : MibView) (oid : List ℕ) (res : OidSearchRes)
      → oid_cover view.oid oid ≢ covers
      → mib_tree_search lua root st view oid res ≡ (
        some (record res {
          oid = oid;
          err_stat = 0;
          var = record (res.var) { tag = asn1_tag_no_such_obj };
        }),
        st,
      )
  unfolding mib_tree_search
  search_apart root view oid res v = go (oid_cover view.oid oid) refl
    where
      go :
          (k : Cover)
          → oid_cover view.oid oid ≡ k
          → mib_tree_search lua root st view oid res ≡ (
            some (record res {
              oid = oid;
              err_stat = 0;
              var = record (res.var) { tag = asn1_tag_no_such_obj };
            }),
            st,
          )
      go covers q = absurd (v q)
      go covered q = ground (arith, q)
      go apart q = ground (arith, q)

  -- On a tree whose groups ascend, `mib_tree_search` at an identifier that the view covers and of
  -- which a proper prefix has a handler is the call of that handler with the rest of the
  -- identifier, the error status reset to 0.
  pub mib_tree_search_hit :
      (root : MibNode) (view : MibView) (p : List ℕ) (y : ℕ) (rest : List ℕ) (c : ℕ)
      (res : OidSearchRes)
      → IsWellFormed root
      → callback_at root p ≡ some c
      → oid_cover view.oid (p ++ (y ∷ rest)) ≡ covers
      → mib_tree_search lua root st view (p ++ (y ∷ rest)) res
        ≡ mib_instance_search lua st
            (record res { oid = p ++ (y ∷ rest); err_stat = 0; inst_id = y ∷ rest; callback = c })
  mib_tree_search_hit root view p y rest c res w e v =
      search_covered root view (p ++ (y ∷ rest)) res v
      ∙ walk_hit root p y rest c (record res { oid = p ++ (y ∷ rest); err_stat = 0 }) w e

  -- On a tree whose groups ascend, `mib_tree_search` at an identifier of which no prefix, itself
  -- included, has a handler gives the error status 0 and the tag of a missing object, and leaves
  -- the interpreter as it is.
  pub mib_tree_search_miss :
      (root : MibNode) (view : MibView) (oid : List ℕ) (res : OidSearchRes)
      → IsWellFormed root
      → ((p : List ℕ) → IsPrefix p oid → callback_at root p ≡ none)
      → (r : OidSearchRes) × (mib_tree_search lua root st view oid res ≡ (some r, st))
        × (r.err_stat ≡ 0)
        × (r.var.tag ≡ asn1_tag_no_such_obj)
        × (r.oid ≡ oid)
  mib_tree_search_miss root view oid res w h = elim (cover_cases view oid) [
    | inl v ↦
        let (rest, q) = walk_miss root oid (record res { oid = oid; err_stat = 0 }) w h in
        (
          answer (record res { oid = oid; err_stat = 0 }) rest asn1_tag_no_such_obj,
          search_covered root view oid res v ∙ q,
          refl,
          refl,
          refl,
        )
    | inr v ↦ (
      record res { oid = oid; err_stat = 0; var = record (res.var) { tag = asn1_tag_no_such_obj } },
      search_apart root view oid res v,
      refl,
      refl,
      refl,
    )
  ]
