-- ===== src/Mib/Tree.antt =====
-- The tree of core/mib_tree.c, and its registration and removal. The two arrays of a group node are
-- one sequence of pairs; a group that has no sub-node is a raw one.
pub mod Subs
pub mod Hits
pub mod Insert
pub mod Lookup
pub mod Accept
pub mod Register
pub mod Remove
pub mod Delete
use smithsnmp.Base.{
  ℕ, zero, suc, ◌+◌, ◌*◌, ◌/◌, ◌%◌, ◌^◌, Bool, true, false, Option, none, some, List, [], ◌∷◌, ◌++◌,
  ltb, leb, ◌||◌, ◌&&◌, ◌==◌, if◌then◌else◌, length,
}
use smithsnmp.Oid.{Position, found, missing, oid_binary_search}
use smithsnmp.Asn1.{asn1_oid_max_len}

mutual
  -- `group_node room subs` has capacity (`sub_id_cap`) for `room` sub-nodes; an instance node holds a handler's number.
  pub data MibNode : Type 0 where
    group_node : ℕ → SubNodes → MibNode
    instance_node : ℕ → MibNode

  pub data SubNodes : Type 0 where
    nil : SubNodes
    cons : ℕ → MibNode → SubNodes → SubNodes

-- `sub_id`
unfoldable pub sub_ids : SubNodes → List ℕ
sub_ids nil = []
sub_ids (cons x n subs) = x ∷ sub_ids subs

-- `sub_ptr[i]`
unfoldable pub sub_ptr : SubNodes → ℕ → Option MibNode
sub_ptr nil i = none
sub_ptr (cons x n subs) zero = some n
sub_ptr (cons x n subs) (suc i) = sub_ptr subs i

-- A change of the node behind `sub_ptr[i]`.
unfoldable pub replace_at : SubNodes → ℕ → MibNode → SubNodes
replace_at nil i m = nil
replace_at (cons x n subs) zero m = cons x m subs
replace_at (cons x n subs) (suc i) m = cons x n (replace_at subs i m)

-- The cells from `i` on move up, and cell `i` is written.
unfoldable pub insert_at : SubNodes → ℕ → ℕ → MibNode → SubNodes
insert_at subs zero y m = cons y m subs
insert_at nil (suc i) y m = cons y m nil
insert_at (cons x n subs) (suc i) y m = cons x n (insert_at subs i y m)

-- `group_node_shrink`
unfoldable pub group_node_shrink : SubNodes → ℕ → SubNodes
group_node_shrink nil i = nil
group_node_shrink (cons x n subs) zero = subs
group_node_shrink (cons x n subs) (suc i) = cons x n (group_node_shrink subs i)

-- `alloc_nr`
abbrev pub alloc_nr : ℕ → ℕ
alloc_nr x = (x + 2) * 3 / 2

-- The new capacity, a `uint16_t`.
unfoldable pub group_node_expand : ℕ → ℕ → ℕ
group_node_expand room cnt = if ltb room (cnt + 1) then alloc_nr room % 2 ^ 16 else room

unfoldable pub is_raw_group : SubNodes → Bool
is_raw_group nil = true
is_raw_group (cons x n subs) = false

abbrev pub mib_group_node_new : MibNode
mib_group_node_new = group_node 1 nil

-- The node after the walk of `mib_tree_instance_insert`, and whether an instance was inserted, where
-- the arrays have room.
unfoldable pub inserted : MibNode → List ℕ → ℕ → MibNode × Bool
unfolding is_raw_group group_node_expand sub_ids sub_ptr replace_at insert_at oid_binary_search
inserted node [] callback = (node, false)
inserted (instance_node c) (x ∷ oid) callback = (instance_node c, false)
inserted (group_node room subs) (x ∷ oid) callback =
    let below = inserted mib_group_node_new oid callback in
    let fresh : MibNode × Bool = elim oid [ [] ↦ (instance_node callback, true) | _ ∷ _ ↦ below ] in
    if is_raw_group subs
    then (group_node room (cons x fresh.0 nil), fresh.1)
    else elim (oid_binary_search (sub_ids subs) x) [
      | found i ↦ elim (sub_ptr subs i) [
        | none ↦ (group_node room subs, false)
        | some n ↦
            let step = inserted n oid callback in
            (group_node room (replace_at subs i step.0), step.1)
      ]
      | missing i ↦ (
        group_node (group_node_expand room (length (sub_ids subs))) (insert_at subs i x fresh.0),
        fresh.1,
      )
    ]

-- Whether the walk comes to a group with no room for one more sub-node: the arrays are allocated for
-- `alloc_nr` cells of a capacity that may have wrapped, or the count, a `uint16_t`, would wrap.
unfoldable pub is_crowded : MibNode → List ℕ → Bool
unfolding is_raw_group sub_ids sub_ptr oid_binary_search
is_crowded node [] = false
is_crowded (instance_node c) (x ∷ oid) = false
is_crowded (group_node room subs) (x ∷ oid) =
    let cnt = length (sub_ids subs) in
    if is_raw_group subs then false else elim (oid_binary_search (sub_ids subs) x) [
      | found i ↦ elim (sub_ptr subs i) [ none ↦ false | some n ↦ is_crowded n oid ]
      | missing i ↦ leb (2 ^ 16) (cnt + 1) || ltb room (cnt + 1) && ltb (alloc_nr room) (cnt + 1)
    ]

-- `none` is a write behind the end of the arrays, or a count that wraps.
unfoldable pub mib_tree_instance_insert : MibNode → List ℕ → ℕ → Option (MibNode × Bool)
unfolding is_crowded inserted
mib_tree_instance_insert node oid callback =
    if is_crowded node oid then none else some (inserted node oid callback)

-- The result 0 is `true`.
unfoldable pub mib_node_reg : MibNode → List ℕ → ℕ → Option (MibNode × Bool)
unfolding mib_tree_instance_insert
mib_node_reg root oid callback =
    if length oid == 0
    then some (root, false)
    else if ltb asn1_oid_max_len (length oid)
    then some (root, false)
    else mib_tree_instance_insert root oid callback

-- `mib_tree_node_search`. A pointer to a node is the list of the indices on the way to it from the
-- root; without its last index it is the pointer to the parent, and that index is `sub_idx`. An
-- instance is also found one number before the end of the identifier.
unfoldable pub mib_tree_node_search : MibNode → List ℕ → Option (List ℕ)
unfolding sub_ids sub_ptr oid_binary_search
mib_tree_node_search node [] = some []
mib_tree_node_search (instance_node c) (x ∷ oid) = if length (x ∷ oid) == 1 then some [] else none
mib_tree_node_search (group_node room subs) (x ∷ oid) = elim (oid_binary_search (sub_ids subs) x) [
  | missing i ↦ none
  | found i ↦ elim (sub_ptr subs i) [
    | none ↦ none
    | some n ↦ elim (mib_tree_node_search n oid) [ none ↦ none | some path ↦ some (i ∷ path) ]
  ]
]

-- `__mib_tree_delete` as a change of the tree: the parent drops the sub-node. The root stays.
unfoldable pub delete_at : MibNode → List ℕ → MibNode
unfolding group_node_shrink sub_ptr replace_at
delete_at node [] = node
delete_at (instance_node c) (i ∷ path) = instance_node c
delete_at (group_node room subs) (i ∷ path) = elim (sub_ptr subs i) [
  | none ↦ group_node room subs
  | some n ↦
      let below = delete_at n path in
      elim path [
        | [] ↦ group_node room (group_node_shrink subs i)
        | _ ∷ _ ↦ group_node room (replace_at subs i below)
      ]
]

-- Nothing is deleted where the search finds no node.
unfoldable pub mib_tree_delete : MibNode → List ℕ → MibNode
unfolding mib_tree_node_search delete_at
mib_tree_delete root oid = elim (mib_tree_node_search root oid) [
  | none ↦ root
  | some path ↦ delete_at root path
]

abbrev pub mib_node_unreg : MibNode → List ℕ → MibNode
mib_node_unreg root oid = mib_tree_delete root oid

-- `mib_dummy_node_init`
abbrev pub mib_dummy_node_init : MibNode
mib_dummy_node_init = group_node 1 nil
