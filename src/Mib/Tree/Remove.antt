-- ===== src/Mib/Tree/Remove.antt =====
-- Unregistration removes the subtree at an identifier, and nothing else.
use native.Mathlib.Decide.{ℕ_discrete}
use smithsnmp.Base.{
  ℕ, ◌≡◌, ◌≢◌, refl, ap, sym, ◌∙◌, arith, none, some, List, [], ◌∷◌, Option-cases, inl, inr,
}
use smithsnmp.Oid.Prefix.{IsPrefix}
use smithsnmp.Mib.Tree.{
  MibNode, group_node, instance_node, SubNodes, mib_tree_node_search, delete_at, mib_tree_delete,
}
use smithsnmp.Mib.Tree.Subs.{child, put}
use smithsnmp.Mib.Tree.Hits.{remove, child-remove, Hit, find-Hit, find_miss}
use smithsnmp.Mib.Tree.Insert.{IsWellFormed}
use smithsnmp.Mib.Tree.Lookup.{
  node_at, callback_at, handler_of, child-IsWellFormed, put_same, put_other, node_at-none,
  node_at-some,
}

module _ (room : ℕ) (subs : SubNodes) (x : ℕ) (oid : List ℕ)
    (w : IsWellFormed (group_node room subs)) where
  search_none : child subs x ≡ none → mib_tree_node_search (group_node room subs) (x ∷ oid) ≡ none
  unfolding mib_tree_node_search
  search_none e = let (i, q) = find_miss subs x w.0 e in ground (arith, q)

  search_some :
      (n : MibNode)
      → child subs x ≡ some n
      → (i : ℕ) × Hit subs x n i
        × (mib_tree_node_search (group_node room subs) (x ∷ oid)
            ≡ elim (mib_tree_node_search n oid) [ none ↦ none | some path ↦ some (i ∷ path) ])
  unfolding mib_tree_node_search
  search_some n e = let (i, h) = find-Hit subs x w.0 e in (i, h, ground (arith, h.0, h.1))

  unreg_absent :
      child subs x ≡ none → mib_tree_delete (group_node room subs) (x ∷ oid) ≡ group_node room subs
  unfolding mib_tree_delete
  unreg_absent e = ground (arith, search_none e)

  module _ (n : MibNode) (e : child subs x ≡ some n) where
    unreg_miss :
        mib_tree_node_search n oid ≡ none
        → mib_tree_delete (group_node room subs) (x ∷ oid) ≡ group_node room subs
    unfolding mib_tree_delete
    unreg_miss s = let (i, h, q) = search_some n e in ground (arith, q)

    unreg_last :
        mib_tree_node_search n oid ≡ some []
        → mib_tree_delete (group_node room subs) (x ∷ oid) ≡ group_node room (remove subs x)
    unfolding mib_tree_delete
    unreg_last s = let (i, h, q) = search_some n e in ground (arith, q, h.0, h.1, h.2)

    unreg_inner :
        (j : ℕ) (path : List ℕ)
        → mib_tree_node_search n oid ≡ some (j ∷ path)
        → mib_tree_delete (group_node room subs) (x ∷ oid)
          ≡ group_node room (put subs x (mib_tree_delete n oid))
    unfolding mib_tree_delete
    unreg_inner j path s =
        let (i, h, q) = search_some n e in ground (arith, q, h.0, h.1, h.3 (delete_at n (j ∷ path)))

child_of :
    (room x : ℕ) (subs : SubNodes) (oid : List ℕ) {m : MibNode}
    → node_at (group_node room subs) (x ∷ oid) ≡ some m
    → (n : MibNode) × (child subs x ≡ some n) × (node_at n oid ≡ some m)
child_of room x subs oid e = elim (Option-cases (child subs x)) [
  | inl c ↦ absurd (cc (e, node_at-none room x subs oid c))
  | inr (n, c) ↦ (n, c, sym (node_at-some room x subs oid c) ∙ e)
]

instance_leaf :
    (c x : ℕ) (oid : List ℕ) {m : MibNode} → ¬ (node_at (instance_node c) (x ∷ oid) ≡ some m)
unfolding node_at
instance_leaf c x oid e = cc

found_path :
    (t : MibNode) (oid : List ℕ) {m : MibNode}
    → IsWellFormed t
    → node_at t oid ≡ some m
    → (path : List ℕ) × (mib_tree_node_search t oid ≡ some path)
found_path t [] w e = ([], found_root t)
  where
    found_root : (t : MibNode) → mib_tree_node_search t [] ≡ some []
    found_root t = unfold mib_tree_node_search in refl
found_path (instance_node c) (x ∷ oid) w e = absurd (instance_leaf c x oid e)
found_path (group_node room subs) (x ∷ oid) w e =
    let (n, c, d) = child_of room x subs oid e in
    let (i, h, q) = search_some room subs x oid w n c in
    let (path, s) = found_path n oid (child-IsWellFormed subs x w.1 c) d in
    (i ∷ path, q ∙ rw s refl)

inner_path :
    (t : MibNode) (x : ℕ) (oid : List ℕ) {m : MibNode}
    → IsWellFormed t
    → node_at t (x ∷ oid) ≡ some m
    → (j : ℕ) × (path : List ℕ) × (mib_tree_node_search t (x ∷ oid) ≡ some (j ∷ path))
inner_path (instance_node c) x oid w e = absurd (instance_leaf c x oid e)
inner_path (group_node room subs) x oid w e =
    let (n, c, d) = child_of room x subs oid e in
    let (i, h, q) = search_some room subs x oid w n c in
    let (path, s) = found_path n oid (child-IsWellFormed subs x w.1 c) d in (i, path, q ∙ rw s refl)

-- On a tree whose groups ascend, after `mib_tree_delete` at an identifier at which a node stands no
-- handler is left at or below that identifier.
pub unreg_below :
    (t : MibNode) (x : ℕ) (oid p : List ℕ) {m : MibNode}
    → IsWellFormed t
    → node_at t (x ∷ oid) ≡ some m
    → IsPrefix (x ∷ oid) p
    → callback_at (mib_tree_delete t (x ∷ oid)) p ≡ none
unreg_below (instance_node c) x oid p w e h = absurd (instance_leaf c x oid e)
unreg_below (group_node room subs) x oid [] w e h = absurd h
unreg_below (group_node room subs) x [] (y ∷ p) w e h =
    let (n, c, d) = child_of room x subs [] e in
    rw (unreg_last room subs x [] w n c (unfold mib_tree_node_search in refl)) (
      ap handler_of
        (node_at-none room y (remove subs x) p (child-remove subs x y w.0 ∙ ground (arith, h.0))))
unreg_below (group_node room subs) x (z ∷ oid) (y ∷ p) w e h =
    let (n, c, d) = child_of room x subs (z ∷ oid) e in
    let (j, path, s) = inner_path n z oid (child-IsWellFormed subs x w.1 c) d in
    rw (unreg_inner room subs x (z ∷ oid) w n c j path s, ← h.0)
      (ap handler_of (put_same room room x subs (mib_tree_delete n (z ∷ oid)) p w)
        ∙ unreg_below n z oid p (child-IsWellFormed subs x w.1 c) d h.1)

-- On a tree whose groups ascend, `mib_tree_delete` at an identifier at which a node stands leaves
-- the handler at every identifier that does not begin with it as it was.
pub unreg_other :
    (t : MibNode) (x : ℕ) (oid p : List ℕ) {m : MibNode}
    → IsWellFormed t
    → node_at t (x ∷ oid) ≡ some m
    → ¬ IsPrefix (x ∷ oid) p
    → callback_at (mib_tree_delete t (x ∷ oid)) p ≡ callback_at t p
unreg_other (instance_node c) x oid p w e h = absurd (instance_leaf c x oid e)
unreg_other (group_node room subs) x [] [] w e h =
    let (n, c, d) = child_of room x subs [] e in
    rw (unreg_last room subs x [] w n c (unfold mib_tree_node_search in refl))
      (unfold node_at in refl)
unreg_other (group_node room subs) x (z ∷ oid) [] w e h =
    let (n, c, d) = child_of room x subs (z ∷ oid) e in
    let (j, path, s) = inner_path n z oid (child-IsWellFormed subs x w.1 c) d in
    rw (unreg_inner room subs x (z ∷ oid) w n c j path s) (unfold node_at in refl)
unreg_other (group_node room subs) x [] (y ∷ p) w e h =
    let (n, c, d) = child_of room x subs [] e in
    rw (unreg_last room subs x [] w n c (unfold mib_tree_node_search in refl))
      (ap handler_of (other_child room x y subs p (λ q. h (q, tt)) w))
  where
    other_child :
        (room x y : ℕ) (subs : SubNodes) (p : List ℕ)
        → x ≢ y
        → IsWellFormed (group_node room subs)
        → node_at (group_node room (remove subs x)) (y ∷ p) ≡ node_at (group_node room subs) (y ∷ p)
    other_child room x y subs p d w = elim (Option-cases (child subs y)) [
      | inl c ↦
          node_at-none room y (remove subs x) p (child-remove subs x y w.0 ∙ ground (arith, d))
          ∙ sym (node_at-none room y subs p c)
      | inr (n, c) ↦
          node_at-some room y (remove subs x) p (child-remove subs x y w.0 ∙ ground (arith, d))
          ∙ sym (node_at-some room y subs p c)
    ]
unreg_other (group_node room subs) x (z ∷ oid) (y ∷ p) w e h =
    let (n, c, d) = child_of room x subs (z ∷ oid) e in
    let (j, path, s) = inner_path n z oid (child-IsWellFormed subs x w.1 c) d in
    rw (unreg_inner room subs x (z ∷ oid) w n c j path s) (elim (ℕ_discrete x y) [
      | no f ↦ ap handler_of (put_other room room x subs (mib_tree_delete n (z ∷ oid)) p w y f)
      | yes f ↦ rw (← f) (
          ap handler_of (put_same room room x subs (mib_tree_delete n (z ∷ oid)) p w)
          ∙ unreg_other n z oid p (child-IsWellFormed subs x w.1 c) d (λ q. h (f, q))
          ∙ ap handler_of (sym (node_at-some room x subs p c)))
    ])
