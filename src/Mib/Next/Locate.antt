-- ===== src/Mib/Next/Locate.antt =====
-- Where the binary search of `mib_tree_search_next` (core/mib_tree.c) ends in a group, and which
-- instances are then not before the identifier.
use smithsnmp.Base.{
  ℕ, ◌+◌, ◌≤◌, ◌<◌, ◌≡◌, refl, ap, arith, Bool, true, false, some, List, ◌∷◌, ◌++◌, length, ltb,
  ◌==◌, Bool-cases, inl, inr, ◌&&◌,
}
use smithsnmp.Oid.{Position, found, missing}
use smithsnmp.Oid.Search.{locate, next_position}
use smithsnmp.Mib.Tree.{MibNode, SubNodes, nil, cons, sub_ids}
use smithsnmp.Mib.Tree.Insert.{IsWellFormed, AllWellFormed}
use smithsnmp.Mib.Next.{is_group}
use smithsnmp.Mib.Next.Candidates.{all_subs, not_before, subs_not_before, rounds, sub_rounds}
use smithsnmp.Mib.Next.Suffix.{drop_subs}

-- What stands at the place where the binary search ends.
abbrev pub Located : SubNodes → ℕ → Position → Type 0
Located subs x (found i) =
    (n : MibNode) × (rest : SubNodes) × (drop_subs i subs ≡ cons x n rest)
    × (rounds n + sub_rounds rest < sub_rounds subs)
    × IsWellFormed n
    × ((path id : List ℕ)
        → subs_not_before subs path x id ≡ not_before n (x ∷ path) id ++ all_subs rest path)
Located subs x (missing i) =
    (i ≤ length (sub_ids subs))
    × (sub_rounds (drop_subs i subs) ≤ sub_rounds subs)
    × ((path id : List ℕ) → subs_not_before subs path x id ≡ all_subs (drop_subs i subs) path)

pub next_Located :
    (y : ℕ) (n : MibNode) (subs : SubNodes) (x : ℕ) (p : Position)
    → ltb y x ≡ true
    → Located subs x p
    → Located (cons y n subs) x (next_position p)
unfolding next_position subs_not_before sub_rounds sub_ids drop_subs
next_Located y n subs x (found i) b (m, rest, d, r, w, e) =
    (m, rest, d, omega arith, w, λ path id. rw b (e path id))
next_Located y n subs x (missing i) b (l, r, e) =
    (omega arith, omega arith, λ path id. rw b (e path id))

pub locate-Located :
    (subs : SubNodes) (x : ℕ) → AllWellFormed subs → Located subs x (locate (sub_ids subs) x)
unfolding locate subs_not_before sub_rounds sub_ids drop_subs all_subs
locate-Located nil x w = (omega arith, omega arith, λ path id. refl)
locate-Located (cons y n subs) x w = elim (Bool-cases (ltb y x)) [
  | inl b ↦ rw b (next_Located y n subs x (locate (sub_ids subs) x) b (locate-Located subs x w.1))
  | inr b ↦ rw b (elim (Bool-cases (y == x)) [
    | inl c ↦ rw c (
      n,
      subs,
      ap (λ (z : ℕ). cons z n subs) (ground arith),
      omega arith,
      w.0,
      λ path id. rw (b, c) refl,
    )
    | inr c ↦ rw c (omega arith, omega arith, λ path id. rw (b, c) refl)
  ])
]

-- The mode in which a node is met with the rest of the identifier.
abbrev pub mode : MibNode → List ℕ → Bool
mode n id = length id == 0 && is_group (some n)

pub mode-cons : (n : MibNode) (x : ℕ) (id : List ℕ) → mode n (x ∷ id) ≡ false
mode-cons n x id = ground arith

pub sub_rounds_pos : (subs : SubNodes) → 0 < sub_rounds subs
unfolding sub_rounds
sub_rounds_pos nil = omega arith
sub_rounds_pos (cons x n subs) = omega arith
