-- ===== src/Tests/Tree.antt =====
-- Runs of the tree of MIB nodes, and its theorems at concrete inputs.
use smithsnmp.Base.{Bool, ◌≡◌, ◌↔◌, ℕ, ◌+◌, refl, arith, true, false, none, some, [], ◌∷◌}
use smithsnmp.Mib.Tree.{
  MibNode, group_node, instance_node, nil, cons, is_crowded, mib_node_reg, mib_tree_delete,
  mib_dummy_node_init, mib_tree_node_search, sub_ids,
}
use smithsnmp.Mib.Tree.Insert.{IsWellFormed}
use smithsnmp.Mib.Tree.Lookup.{node_at, callback_at}
use smithsnmp.Mib.Tree.Accept.{IsFree}
use smithsnmp.Mib.Tree.Register.{
  IsRegistrable, mib_node_reg_accepts, mib_node_reg_self, mib_node_reg_other, mib_node_reg_refused,
  mib_node_reg-IsWellFormed,
}
use smithsnmp.Mib.Tree.Remove.{unreg_below, unreg_other}
use smithsnmp.Mib.Tree.Delete.{freed_group, freed_instance, node_on, delete_pair}
use smithsnmp.Mib.Tree.Delete.Releases.{released, rounds}
use smithsnmp.Mib.Tree.Delete.Complete.{delete_pair-released}

-- 1.3 is a group with the instances 1.3.1 and 1.3.6.
abbrev small_tree : MibNode
small_tree = group_node 1 (
    cons 1
      (group_node 1
        (cons 3 (group_node 4 (cons 1 (instance_node 7) (cons 6 (instance_node 8) nil))) nil))
      nil)

built :
    elim (mib_node_reg mib_dummy_node_init (1 ∷ 3 ∷ 6 ∷ []) 8) [
      | none ↦ none
      | some t ↦ mib_node_reg t.0 (1 ∷ 3 ∷ 1 ∷ []) 7
    ]
    ≡ some (small_tree, true)
unfolding mib_node_reg
built = refl

small_tree-IsWellFormed : IsWellFormed small_tree
unfolding sub_ids
small_tree-IsWellFormed = omega arith

taken : mib_node_reg small_tree (1 ∷ 3 ∷ []) 9 ≡ some (small_tree, false)
unfolding mib_node_reg
taken = refl

-- 1.3 with a group at 4 between the two.
abbrev larger_tree : MibNode
larger_tree = group_node 1 (
    cons 1
      (group_node 1 (
        cons 3
          (group_node 4 (
            cons 1 (instance_node 7) (
              cons 4 (group_node 1 (cons 2 (instance_node 9) nil)) (cons 6 (instance_node 8) nil))))
          nil))
      nil)

added : mib_node_reg small_tree (1 ∷ 3 ∷ 4 ∷ 2 ∷ []) 9 ≡ some (larger_tree, true)
unfolding mib_node_reg
added = refl

-- A full group, whose capacity has wrapped to 0.
crowded :
    mib_node_reg
      (group_node 0
        (cons 1 (instance_node 7) (cons 2 (instance_node 7) (cons 3 (instance_node 7) nil))))
      (4 ∷ [])
      9
    ≡ none
unfolding mib_node_reg
crowded = refl

mib_node_reg_accepts_example :
    (r : MibNode × Bool) × (mib_node_reg small_tree (1 ∷ 3 ∷ 4 ∷ 2 ∷ []) 9 ≡ some r)
    × ((r.1 ≡ true) ↔ (IsRegistrable (1 ∷ 3 ∷ 4 ∷ 2 ∷ []) × IsFree small_tree (1 ∷ 3 ∷ 4 ∷ 2 ∷ [])))
unfolding is_crowded
mib_node_reg_accepts_example =
    mib_node_reg_accepts small_tree (1 ∷ 3 ∷ 4 ∷ 2 ∷ []) 9 small_tree-IsWellFormed refl

mib_node_reg_self_example : callback_at larger_tree (1 ∷ 3 ∷ 4 ∷ 2 ∷ []) ≡ some 9
mib_node_reg_self_example =
    mib_node_reg_self small_tree (1 ∷ 3 ∷ 4 ∷ 2 ∷ []) 9 small_tree-IsWellFormed (larger_tree, true)
      added refl

mib_node_reg_other_example :
    callback_at larger_tree (1 ∷ 3 ∷ 6 ∷ []) ≡ callback_at small_tree (1 ∷ 3 ∷ 6 ∷ [])
mib_node_reg_other_example =
    mib_node_reg_other small_tree (1 ∷ 3 ∷ 4 ∷ 2 ∷ []) 9 small_tree-IsWellFormed (larger_tree, true)
      added (1 ∷ 3 ∷ 6 ∷ []) (λ e. cc)

mib_node_reg_refused_example : small_tree ≡ small_tree
mib_node_reg_refused_example =
    mib_node_reg_refused small_tree (1 ∷ 3 ∷ []) 9 small_tree-IsWellFormed (small_tree, false) taken
      refl

mib_node_reg-IsWellFormed_example : IsWellFormed larger_tree
mib_node_reg-IsWellFormed_example =
    mib_node_reg-IsWellFormed small_tree (1 ∷ 3 ∷ 4 ∷ 2 ∷ []) 9 small_tree-IsWellFormed
      (larger_tree, true) added

at_six : node_at small_tree (1 ∷ 3 ∷ 6 ∷ []) ≡ some (instance_node 8)
unfolding node_at
at_six = refl

unreg_below_example :
    callback_at (mib_tree_delete small_tree (1 ∷ 3 ∷ 6 ∷ [])) (1 ∷ 3 ∷ 6 ∷ []) ≡ none
unreg_below_example =
    unreg_below small_tree 1 (3 ∷ 6 ∷ []) (1 ∷ 3 ∷ 6 ∷ []) small_tree-IsWellFormed at_six
      (refl, (refl, (refl, tt)))

unreg_other_example :
    callback_at (mib_tree_delete small_tree (1 ∷ 3 ∷ 6 ∷ [])) (1 ∷ 3 ∷ 1 ∷ [])
    ≡ callback_at small_tree (1 ∷ 3 ∷ 1 ∷ [])
unreg_other_example =
    unreg_other small_tree 1 (3 ∷ 6 ∷ []) (1 ∷ 3 ∷ 1 ∷ []) small_tree-IsWellFormed at_six
      (λ p. omega arith)

-- The group 1.3 has the place 0 in 1, which has the place 0 in the root.
freed :
    delete_pair 5 small_tree (0 ∷ 0 ∷ [])
    ≡ some (
      group_node 1 (cons 1 (group_node 1 nil) nil),
      freed_instance 7 ∷ freed_instance 8 ∷ freed_group ∷ [],
    )
unfolding delete_pair
freed = refl

delete_pair-released_example :
    (n : MibNode) × (node_on small_tree (0 ∷ 0 ∷ []) ≡ some n)
    × ((k : ℕ)
        → delete_pair (rounds n 0 + k) small_tree (0 ∷ 0 ∷ [])
          ≡ some (mib_tree_delete small_tree (1 ∷ 3 ∷ []), released n))
unfolding mib_tree_node_search
delete_pair-released_example = delete_pair-released small_tree (1 ∷ 3 ∷ []) 0 (0 ∷ []) refl
