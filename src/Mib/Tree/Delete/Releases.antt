-- ===== src/Mib/Tree/Delete/Releases.antt =====
-- What the traversal of `__mib_tree_delete` releases, and how many rounds it takes.
use smithsnmp.Base.{
  ◌≡◌, refl, ap, ◌∙◌, append-nil, arith, ℕ, suc, ◌+◌, Option, none, some, List, [], ◌∷◌, ◌++◌,
  append_assoc, length, leb, if◌then◌else◌,
}
use smithsnmp.Mib.Tree.{MibNode, group_node, instance_node, SubNodes, nil, cons, sub_ids, sub_ptr}
use smithsnmp.Mib.Tree.Delete.{
  Freed, freed_group, freed_instance, NodeBacklog, backtracked, descended, delete_round, before,
  delete_loop,
}

mutual
  -- The releases below a node: a group comes after its sub-nodes.
  pub released : MibNode → List Freed
  released (instance_node c) = freed_instance c ∷ []
  released (group_node room subs) = released_subs subs ++ (freed_group ∷ [])

  pub released_subs : SubNodes → List Freed
  released_subs nil = []
  released_subs (cons x n subs) = released n ++ released_subs subs

mutual
  -- The rounds below a node with `k` more: an empty group takes three.
  pub rounds : MibNode → ℕ → ℕ
  rounds (instance_node c) k = suc k
  rounds (group_node room nil) k = suc (suc (suc k))
  rounds (group_node room (cons x n subs)) k = suc (rounds n (rounds_subs subs k))

  -- The rounds from a sub-node that was released to the release of its group.
  pub rounds_subs : SubNodes → ℕ → ℕ
  rounds_subs nil k = suc k
  rounds_subs (cons x n subs) k = suc (rounds n (rounds_subs subs k))

before-before :
    (a b : List Freed) (o : Option (List Freed)) → before a (before b o) ≡ before (a ++ b) o
unfolding before
before-before a b none = refl
before-before a b (some c) = rw (append_assoc a b c) refl

-- The loop from where it backtracks.
unfoldable resume : ℕ → List NodeBacklog → Option (List Freed)
unfolding backtracked delete_loop
resume k st = elim (backtracked st) [ none ↦ some [] | some t ↦ delete_loop k t ]

resume_freed :
    (k : ℕ) (st : List NodeBacklog) (c : Freed)
    → elim (backtracked st) [ none ↦ some (c ∷ []) | some t ↦ before (c ∷ []) (delete_loop k t) ]
      ≡ before (c ∷ []) (resume k st)
unfolding resume backtracked before
resume_freed k [] c = refl
resume_freed k (b ∷ st) c = refl

before-nil : (o : Option (List Freed)) → before [] o ≡ o
unfolding before
before-nil none = refl
before-nil (some a) = refl

-- The index of the first node of a rest of the sub-nodes, -1 if there is none.
index_of : ℕ → SubNodes → Option ℕ
index_of i nil = none
index_of i (cons x n subs) = some i

-- The sub-nodes from `i` on.
abbrev IsRest : SubNodes → ℕ → SubNodes → Type 0
IsRest all i subs =
    (i + length (sub_ids subs) ≡ length (sub_ids all))
    × ((j : ℕ) → sub_ptr all (i + j) ≡ sub_ptr subs j)

IsRest-next :
    (all : SubNodes) (i x : ℕ) (n : MibNode) (subs : SubNodes)
    → IsRest all i (cons x n subs)
    → IsRest all (i + 1) subs
unfolding sub_ids sub_ptr
IsRest-next all i x n subs h =
    (omega (arith, h.0), λ j. let q : i + 1 + j ≡ i + suc j = omega arith in rw q (h.1 (suc j)))

rest_first :
    (all : SubNodes) (i x : ℕ) (n : MibNode) (subs : SubNodes)
    → IsRest all i (cons x n subs)
    → sub_ptr all i ≡ some n
unfolding sub_ptr
rest_first all i x n subs h = let q : i ≡ i + 0 = omega arith in rw q (h.1 0)

next_index :
    (all : SubNodes) (i x : ℕ) (n : MibNode) (subs : SubNodes)
    → IsRest all i (cons x n subs)
    → (if leb (length (sub_ids all)) (i + 1) then none else some (i + 1)) ≡ index_of (i + 1) subs
unfolding sub_ids index_of
next_index all i x n nil h = ground (arith, h.0)
next_index all i x n (cons y m subs) h = ground (arith, h.0)

descended_rest :
    (room : ℕ) (all : SubNodes) (i x : ℕ) (n : MibNode) (subs : SubNodes) (st : List NodeBacklog)
    → IsRest all i (cons x n subs)
    → descended room all i st ≡ record {
      node = some n;
      p_nbl = none;
      nbl_stack = record { node = group_node room all; n_idx = index_of (i + 1) subs } ∷ st;
    }
unfolding descended
descended_rest room all i x n subs st h =
    rw (rest_first all i x n subs h, next_index all i x n subs h) refl

round_down :
    (k room : ℕ) (all : SubNodes) (i : ℕ) (st : List NodeBacklog)
    → delete_loop
        (suc k)
        (record { node = some (group_node room all); p_nbl = some (some i); nbl_stack = st })
      ≡ delete_loop k (descended room all i st)
unfolding delete_loop delete_round
round_down k room all i st = before-nil (delete_loop k (descended room all i st))

-- A sub-node's releases come before those of the rest of the group.
released_then :
    (n : MibNode) (subs : SubNodes) (o o' o'' : Option (List Freed))
    → o ≡ before (released n) o'
    → o' ≡ before (released_subs subs ++ (freed_group ∷ [])) o''
    → o ≡ before (released n ++ released_subs subs ++ (freed_group ∷ [])) o''
released_then n subs o o' o'' e e' =
    rw (e, e', before-before, append_assoc (released n) (released_subs subs) (freed_group ∷ []))
      refl

released_empty :
    (room k : ℕ) (st : List NodeBacklog)
    → delete_loop
        (suc (suc (suc k)))
        (record { node = some (group_node room nil); p_nbl = none; nbl_stack = st })
      ≡ before (freed_group ∷ []) (resume k st)
unfolding delete_loop delete_round descended backtracked sub_ptr sub_ids
released_empty room k st = before-nil _ ∙ before-nil _ ∙ resume_freed k st freed_group

mutual
  unfolding delete_loop delete_round rounds released index_of resume

  loop-released :
      (n : MibNode) (k : ℕ) (st : List NodeBacklog)
      → delete_loop (rounds n k) (record { node = some n; p_nbl = none; nbl_stack = st })
        ≡ before (released n) (resume k st)
  loop-released (instance_node c) k st = resume_freed k st (freed_instance c)
  loop-released (group_node room nil) k st = released_empty room k st
  loop-released (group_node room (cons x n subs)) k st =
      loop-released_subs room (cons x n subs) 0 (cons x n subs) k st
        (omega arith, λ j. let q : 0 + j ≡ j = omega arith in rw q refl)

  loop-released_subs :
      (room : ℕ) (all : SubNodes) (i : ℕ) (subs : SubNodes) (k : ℕ) (st : List NodeBacklog)
      → IsRest all i subs
      → delete_loop (rounds_subs subs k) (record {
        node = some (group_node room all);
        p_nbl = some (index_of i subs);
        nbl_stack = st;
      })
        ≡ before (released_subs subs ++ (freed_group ∷ [])) (resume k st)
  loop-released_subs room all i nil k st h = resume_freed k st freed_group
  loop-released_subs room all i (cons x n subs) k st h =
      let b : NodeBacklog = record { node = group_node room all; n_idx = index_of (i + 1) subs } in
      let down = round_down (rounds n (rounds_subs subs k)) room all i st in
      released_then n subs _ _ _
        (down
          ∙ rw (descended_rest room all i x n subs st h)
              (loop-released n (rounds_subs subs k) (b ∷ st)))
        (loop-released_subs room all (i + 1) subs k st (IsRest-next all i x n subs h))

mutual
  unfolding rounds

  rounds_more : (n : MibNode) (k : ℕ) → rounds n k ≡ rounds n 0 + k
  rounds_more (instance_node c) k = omega arith
  rounds_more (group_node room nil) k = omega arith
  rounds_more (group_node room (cons x n subs)) k = omega (
    arith,
    rounds_more n (rounds_subs subs k),
    rounds_more n (rounds_subs subs 0),
    rounds_subs_more subs k,
  )

  rounds_subs_more : (subs : SubNodes) (k : ℕ) → rounds_subs subs k ≡ rounds_subs subs 0 + k
  rounds_subs_more nil k = omega arith
  rounds_subs_more (cons x n subs) k = omega (
    arith,
    rounds_more n (rounds_subs subs k),
    rounds_more n (rounds_subs subs 0),
    rounds_subs_more subs k,
  )

pub loop_ends :
    (n : MibNode) (k : ℕ)
    → delete_loop (rounds n 0 + k) (record { node = some n; p_nbl = none; nbl_stack = [] })
      ≡ some (released n)
unfolding resume backtracked before
loop_ends n k = rw (← rounds_more n k) (loop-released n k [] ∙ ap some (append-nil (released n)))
