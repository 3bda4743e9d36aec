-- ===== src/Mib/Tree/Insert.antt =====
-- Registration as an update of the map from identifiers to handlers.
use smithsnmp.Base.{
  ℕ, ◌≡◌, refl, ap, ap₂, ◌∙◌, arith, Bool, true, false, Option, none, some, List, [], ◌∷◌,
  if◌then◌else◌, length, Option-cases, inl, inr,
}
use smithsnmp.Oid.{Position, found, missing, oid_binary_search}
use smithsnmp.Oid.Search.{IsAscending}
use smithsnmp.Mib.Tree.{
  MibNode, group_node, instance_node, SubNodes, nil, cons, sub_ids, sub_ptr, replace_at, insert_at,
  group_node_expand, is_raw_group, mib_group_node_new, inserted,
}
use smithsnmp.Mib.Tree.Subs.{
  child, put, sub_at, place, Hits, sub_at-oid_binary_search, place-oid_binary_search,
  Hits-oid_binary_search,
}

-- The nodes that one registration creates below a group.
unfoldable pub chain : List ℕ → ℕ → MibNode
chain [] callback = instance_node callback
chain (x ∷ oid) callback = group_node 1 (cons x (chain oid callback) nil)

insert-chain :
    (x : ℕ) (oid : List ℕ) (callback : ℕ)
    → inserted mib_group_node_new (x ∷ oid) callback ≡ (chain (x ∷ oid) callback, true)
unfolding inserted chain
insert-chain x [] callback = refl
insert-chain x (y ∷ oid) callback = ground (arith, insert-chain y oid callback)

fresh : List ℕ → ℕ → MibNode × Bool
fresh oid callback =
    let below = inserted mib_group_node_new oid callback in
    elim oid [ [] ↦ (instance_node callback, true) | _ ∷ _ ↦ below ]

fresh-chain : (oid : List ℕ) (callback : ℕ) → fresh oid callback ≡ (chain oid callback, true)
unfolding fresh chain
fresh-chain [] callback = refl
fresh-chain (x ∷ oid) callback = insert-chain x oid callback

-- The numbers of each group ascend.
abbrev mutual
  pub IsWellFormed : MibNode → Type 0
  IsWellFormed (group_node room subs) = IsAscending (sub_ids subs) × AllWellFormed subs
  IsWellFormed (instance_node c) = Unit

  pub AllWellFormed : SubNodes → Type 0
  AllWellFormed nil = Unit
  AllWellFormed (cons x n subs) = IsWellFormed n × AllWellFormed subs

abbrev pub raised : ℕ → SubNodes → ℕ
raised room subs =
    if is_raw_group subs then room else group_node_expand room (length (sub_ids subs))

-- One level of the insertion, on the map of sub-nodes.
abbrev pub insert_into : ℕ → SubNodes → ℕ → List ℕ → ℕ → Option MibNode → MibNode × Bool
insert_into room subs x oid callback none =
    (group_node (raised room subs) (put subs x (chain oid callback)), true)
insert_into room subs x oid callback (some n) =
    (group_node room (put subs x (inserted n oid callback).0), (inserted n oid callback).1)

at_position : ℕ → SubNodes → ℕ → List ℕ → ℕ → Position → MibNode × Bool
at_position room subs x oid callback p = elim p [
  | found i ↦ elim (sub_ptr subs i) [
    | none ↦ (group_node room subs, false)
    | some n ↦
        let step = inserted n oid callback in (group_node room (replace_at subs i step.0), step.1)
  ]
  | missing i ↦ (
    group_node (group_node_expand room (length (sub_ids subs)))
        (insert_at subs i x (fresh oid callback).0),
    (fresh oid callback).1,
  )
]

insert-at_position :
    (room y x : ℕ) (m : MibNode) (subs : SubNodes) (oid : List ℕ) (callback : ℕ)
    → inserted (group_node room (cons y m subs)) (x ∷ oid) callback
      ≡ at_position room
          (cons y m subs)
          x
          oid
          callback
          (oid_binary_search (sub_ids (cons y m subs)) x)
unfolding inserted at_position fresh
insert-at_position room y x m subs oid callback = refl

at_position-insert_into :
    (room y x : ℕ) (m : MibNode) (subs : SubNodes) (oid : List ℕ) (callback : ℕ) (p : Position)
    → sub_at (cons y m subs) p ≡ child (cons y m subs) x
    → ((n : MibNode) → place (cons y m subs) p x n ≡ put (cons y m subs) x n)
    → Hits (cons y m subs) p
    → at_position room (cons y m subs) x oid callback p
      ≡ insert_into room (cons y m subs) x oid callback (child (cons y m subs) x)
unfolding at_position
at_position-insert_into room y x m subs oid callback (missing i) e w h = rw (← e) (
    unfold is_raw_group in
    ap₂
      (λ (s : SubNodes) b.
        (group_node (group_node_expand room (length (sub_ids (cons y m subs)))) s, b))
      (ap (λ (f : MibNode × Bool). insert_at (cons y m subs) i x f.0) (fresh-chain oid callback)
        ∙ w (chain oid callback))
      (ap (λ (f : MibNode × Bool). f.1) (fresh-chain oid callback)))
at_position-insert_into room y x m subs oid callback (found i) e w h =
    elim (Option-cases (sub_ptr (cons y m subs) i)) [
      | inl n ↦ absurd (h n)
      | inr (n, s) ↦
          rw (← e, s, at_position)
            (ap (λ (t : SubNodes). (group_node room t, (inserted n oid callback).1))
              (w (inserted n oid callback).0))
    ]

pub insert_step :
    (room : ℕ) (subs : SubNodes) (x : ℕ) (oid : List ℕ) (callback : ℕ)
    → IsAscending (sub_ids subs)
    → inserted (group_node room subs) (x ∷ oid) callback
      ≡ insert_into room subs x oid callback (child subs x)
insert_step room nil x oid callback asc =
    unfold inserted fresh put in
    ap (λ (f : MibNode × Bool). (group_node room (cons x f.0 nil), f.1)) (fresh-chain oid callback)
insert_step room (cons y m subs) x oid callback asc =
    insert-at_position room y x m subs oid callback
    ∙ at_position-insert_into room y x m subs oid callback
        (oid_binary_search (sub_ids (cons y m subs)) x)
        (sub_at-oid_binary_search (cons y m subs) x asc)
        (λ n. place-oid_binary_search (cons y m subs) x n asc)
        (Hits-oid_binary_search (cons y m subs) x asc)
