-- ===== src/Mib/Tree/Delete/Complete.antt =====
-- `__mib_tree_delete` of core/mib_tree.c as a whole, where `mib_tree_delete` calls it.
use smithsnmp.Base.{◌≡◌, refl, arith, ℕ, ◌+◌, some, List, [], ◌∷◌, ◌⊎◌, Option-cases, inl, inr}
use smithsnmp.Oid.{Position, found, missing, oid_binary_search}
use smithsnmp.Mib.Tree.{
  MibNode, group_node, instance_node, sub_ids, sub_ptr, mib_tree_node_search, delete_at,
  mib_tree_delete,
}
use smithsnmp.Mib.Tree.Delete.{node_on, delete_pair}
use smithsnmp.Mib.Tree.Delete.Releases.{released, rounds, loop_ends}

Position-cases : (p : Position) → ((i : ℕ) × (p ≡ found i)) ⊎ ((i : ℕ) × (p ≡ missing i))
Position-cases (found i) = inl (i, refl)
Position-cases (missing i) = inr (i, refl)

-- The search leads to a node.
node_on-search :
    (node : MibNode) (oid path : List ℕ)
    → mib_tree_node_search node oid ≡ some path
    → (n : MibNode) × (node_on node path ≡ some n)
unfolding mib_tree_node_search node_on
node_on-search node [] path e = let q : [] ≡ path = ground (arith, e) in (node, rw (← q) refl)
node_on-search (instance_node c) (x ∷ oid) path e =
    let q : [] ≡ path = ground (arith, e) in (instance_node c, rw (← q) refl)
node_on-search (group_node room subs) (x ∷ oid) path e =
    elim (Position-cases (oid_binary_search (sub_ids subs) x)) [
      | inr (i, f) ↦ absurd (ground (arith, e, f))
      | inl (i, f) ↦ elim (Option-cases (sub_ptr subs i)) [
        | inl g ↦ absurd (ground (arith, e, f, g))
        | inr (m, g) ↦ elim (Option-cases (mib_tree_node_search m oid)) [
          | inl h ↦ absurd (ground (arith, e, f, g, h))
          | inr (below, h) ↦
              let (n, w) = node_on-search m oid below h in
              let q : i ∷ below ≡ path = ground (arith, e, f, g, h) in
              (n, rw (← q) (ground (arith, g, w)))
        ]
      ]
    ]

pair_ends :
    (root : MibNode) (i : ℕ) (path : List ℕ) (n : MibNode) (k : ℕ)
    → node_on root (i ∷ path) ≡ some n
    → delete_pair (rounds n 0 + k) root (i ∷ path) ≡ some (delete_at root (i ∷ path), released n)
unfolding delete_pair
pair_ends root i path n k q = ground (arith, q, loop_ends n k)

delete_found :
    (root : MibNode) (oid path : List ℕ)
    → mib_tree_node_search root oid ≡ some path
    → mib_tree_delete root oid ≡ delete_at root path
unfolding mib_tree_delete
delete_found root oid path e = ground (arith, e)

-- Where the search finds a node below the root, __mib_tree_delete ends, in any number of rounds
-- from rounds of the node on: the tree is that of `mib_tree_delete`, and what is released is each
-- node of the sub-tree, once, in ascending order, a group after its sub-nodes.
pub delete_pair-released :
    (root : MibNode) (oid : List ℕ) (i : ℕ) (path : List ℕ)
    → mib_tree_node_search root oid ≡ some (i ∷ path)
    → (n : MibNode) × (node_on root (i ∷ path) ≡ some n)
      × ((k : ℕ)
          → delete_pair (rounds n 0 + k) root (i ∷ path)
            ≡ some (mib_tree_delete root oid, released n))
delete_pair-released root oid i path e =
    let (n, q) = node_on-search root oid (i ∷ path) e in
    (n, q, λ k. rw (delete_found root oid (i ∷ path) e) (pair_ends root i path n k q))
