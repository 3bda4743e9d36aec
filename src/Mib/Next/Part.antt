-- ===== src/Mib/Next/Part.antt =====
-- The node at which `mib_tree_search` (core/mib_tree.c) ends is a part of the tree.
use smithsnmp.Base.{
  ℕ, zero, suc, ◌≤◌, ◌≡◌, refl, arith, true, false, Option, none, some, List, [], ◌∷◌, ◌++◌,
  reverse, length, ltb, Option-cases, Bool-cases, inl, inr,
}
use smithsnmp.Asn1.{asn1_tag_valid, asn1_oid_max_len}
use smithsnmp.Oid.{
  Cover, oid_cover, covers, covered, apart, Position, found, missing, oid_binary_search,
}
use smithsnmp.Mib.Tree.{MibNode, group_node, instance_node, SubNodes, nil, cons, sub_ids, sub_ptr}
use smithsnmp.Mib.Tree.Insert.{IsWellFormed, AllWellFormed}
use smithsnmp.Mib.View.{MibView}
use smithsnmp.Mib.Instance.{OidSearchRes, Outcome, returned, aborted, running}
use smithsnmp.Mib.Search.{tree_end}
use smithsnmp.Mib.Next.{taken}
use smithsnmp.Mib.Next.Candidates.{rounds, sub_rounds}

-- The search is over: it returned, or an assertion failed.
abbrev pub IsOver {ℓ} : {S : Type ℓ} → Outcome S → Type 0
IsOver (returned res st) = Unit
IsOver aborted = Unit
IsOver running = ⊥

pub taken-IsOver {ℓ} :
    {S : Type ℓ} (view : MibView) (path : List ℕ) (r : Option OidSearchRes × S)
    (rest : OidSearchRes → S → Outcome S)
    → ((res : OidSearchRes) (st : S) → IsOver (rest res st))
    → IsOver (taken view path r rest)
unfolding taken
taken-IsOver view path (none, st) rest h = tt
taken-IsOver view path (some res, st) rest h = elim (Bool-cases (asn1_tag_valid res.var.tag)) [
  | inr v ↦ rw v (h res st)
  | inl v ↦ elim (Bool-cases (ltb asn1_oid_max_len (length (reverse path ++ res.inst_id)))) [
    | inl l ↦ rw (v, l) tt
    | inr l ↦ covered_or (oid_cover view.oid (reverse path ++ res.inst_id)) refl v l
  ]
]
  where
    covered_or :
        (c : Cover)
        → oid_cover view.oid (reverse path ++ res.inst_id) ≡ c
        → asn1_tag_valid res.var.tag ≡ true
        → ltb asn1_oid_max_len (length (reverse path ++ res.inst_id)) ≡ false
        → IsOver (taken view path (some res, st) rest)
    covered_or covers e v l = rw (taken, v, l, e) tt
    covered_or covered e v l = rw (taken, v, l, e) tt
    covered_or apart e v l = rw (taken, v, l, e) (h res st)

-- The nodes at which a search can end are part of the tree.
pub sub_ptr_part :
    (subs : SubNodes) (i : ℕ) (n : MibNode)
    → sub_ptr subs i ≡ some n
    → AllWellFormed subs
    → IsWellFormed n × (rounds n ≤ sub_rounds subs)
unfolding sub_ptr sub_rounds
sub_ptr_part nil i n e w = absurd (cc)
sub_ptr_part (cons x m subs) zero n e w =
    let q : m ≡ n = ground arith in rw (← q) (w.0, omega arith)
sub_ptr_part (cons x m subs) (suc i) n e w =
    let (a, b) = sub_ptr_part subs i n e w.1 in (a, omega arith)

pub tree_end_part :
    (oid : List ℕ) (t n : MibNode)
    → IsWellFormed t
    → tree_end t oid ≡ some n
    → IsWellFormed n × (rounds n ≤ rounds t)
unfolding tree_end
tree_end_part [] t n w e = let q : t ≡ n = ground arith in rw (← q) (w, omega arith)
tree_end_part (x ∷ oid) (instance_node c) n w e =
    let q : instance_node c ≡ n = ground arith in rw (← q) (w, omega arith)
tree_end_part (x ∷ oid) (group_node room subs) n w e =
    at_position (tree_end_part oid) (oid_binary_search (sub_ids subs) x) refl
  where
    at_position :
        ((t m : MibNode)
          → IsWellFormed t
          → tree_end t oid ≡ some m
          → IsWellFormed m × (rounds m ≤ rounds t))
        → (p : Position) → oid_binary_search (sub_ids subs) x ≡ p
        → IsWellFormed n × (rounds n ≤ rounds (group_node room subs))
    at_position ih (missing i) q =
        let s : group_node room subs ≡ n = ground (arith, q, e) in rw (← s) (w, omega arith)
    at_position ih (found i) q = elim (Option-cases (sub_ptr subs i)) [
      | inl s ↦ absurd (ground (arith, q, e, s))
      | inr (m, s) ↦
          let (wm, l) = sub_ptr_part subs i m s w.1 in
          let (wn, l') = ih m n wm (ground (arith, q, e, s)) in (wn, unfold rounds in omega arith)
    ]
