-- ===== src/Mib/Tree/Delete.antt =====
-- The traversal of `__mib_tree_delete` of core/mib_tree.c, which releases the nodes of a sub-tree.
pub mod Releases
pub mod Complete
use smithsnmp.Base.{
  ℕ, zero, suc, ◌+◌, Option, none, some, List, [], ◌∷◌, ◌++◌, leb, if◌then◌else◌, length,
}
use smithsnmp.Mib.Tree.{
  MibNode, group_node, instance_node, SubNodes, sub_ids, sub_ptr, delete_at, mib_tree_node_search,
}

-- What `mib_group_node_delete` and `mib_instance_node_delete` release: the latter the reference to
-- the handler too.
pub data Freed : Type 0 where
  freed_group : Freed
  freed_instance : ℕ → Freed

-- `n_idx`, where `none` is -1.
pub record NodeBacklog : Type 0 where
  pub node : MibNode
  pub n_idx : Option ℕ

-- The node, the index of the backlogged node, if `p_nbl` is not NULL, and the stack from its top.
pub record Traversal : Type 0 where
  pub node : Option MibNode
  pub p_nbl : Option (Option ℕ)
  pub nbl_stack : List NodeBacklog

unfoldable pub backtracked : List NodeBacklog → Option Traversal
backtracked [] = none
backtracked (b ∷ st) = some (record { node = some b.node; p_nbl = some b.n_idx; nbl_stack = st })

-- A group is put on the stack with its next index, and its sub-node is next; in an empty group that
-- is NULL.
unfoldable pub descended : ℕ → SubNodes → ℕ → List NodeBacklog → Traversal
unfolding sub_ids sub_ptr
descended room subs i st = record {
  node = sub_ptr subs i;
  p_nbl = none;
  nbl_stack =
      record {
        node = group_node room subs;
        n_idx = if leb (length (sub_ids subs)) (i + 1) then none else some (i + 1);
      }
      ∷ st;
}

-- One round of the loop: what it releases, and where it goes on, if it does.
unfoldable pub delete_round :
    Option MibNode → Option (Option ℕ) → List NodeBacklog → List Freed × Option Traversal
unfolding backtracked descended
delete_round none p st = ([], backtracked st)
delete_round (some (instance_node c)) p st = (freed_instance c ∷ [], backtracked st)
delete_round (some (group_node room subs)) none st = ([], some (descended room subs 0 st))
delete_round (some (group_node room subs)) (some none) st = (freed_group ∷ [], backtracked st)
delete_round (some (group_node room subs)) (some (some i)) st =
    ([], some (descended room subs i st))

-- The releases that come before others.
unfoldable pub before : List Freed → Option (List Freed) → Option (List Freed)
before a none = none
before a (some b) = some (a ++ b)

-- `none` means that the loop has not ended within the given number of rounds.
unfoldable pub delete_loop : ℕ → Traversal → Option (List Freed)
unfolding delete_round before
delete_loop zero t = none
delete_loop (suc k) t =
    let (freed, next) = delete_round t.node t.p_nbl t.nbl_stack in
    elim next [ none ↦ some freed | some t' ↦ before freed (delete_loop k t') ]

-- The sub-node behind a pointer.
unfoldable pub node_on : MibNode → List ℕ → Option MibNode
unfolding sub_ptr
node_on node [] = some node
node_on (instance_node c) (i ∷ path) = none
node_on (group_node room subs) (i ∷ path) = elim (sub_ptr subs i) [
  | none ↦ none
  | some n ↦ node_on n path
]

-- `__mib_tree_delete`: the tree and what was released. The root stays.
unfoldable pub delete_pair : ℕ → MibNode → List ℕ → Option (MibNode × List Freed)
unfolding node_on delete_loop delete_at
delete_pair rounds root [] = some (root, [])
delete_pair rounds root (i ∷ path) = elim (node_on root (i ∷ path)) [
  | none ↦ some (root, [])
  | some n ↦ elim (delete_loop rounds (record { node = some n; p_nbl = none; nbl_stack = [] })) [
    | none ↦ none
    | some freed ↦ some (delete_at root (i ∷ path), freed)
  ]
]
