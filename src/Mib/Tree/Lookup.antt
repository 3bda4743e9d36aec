-- ===== src/Mib/Tree/Lookup.antt =====
-- A tree as a map from identifiers to handlers, and registration as an update of that map.
use smithsnmp.Base.{
  ℕ, ◌≡◌, ◌≢◌, refl, ap, ap₂, sym, ◌∙◌, arith, true, Option, none, some, List, [], ◌∷◌, ◌==◌,
  ==_iff, Bool-cases, Option-cases, inl, inr,
}
use native.Mathlib.Decide.{ℕ_discrete}
use smithsnmp.Mib.Tree.{MibNode, group_node, instance_node, SubNodes, nil, cons, inserted}
use smithsnmp.Mib.Tree.Subs.{child, put, child-put}
use smithsnmp.Mib.Tree.Insert.{chain, IsWellFormed, AllWellFormed, raised, insert_step}

-- The node at an identifier.
unfoldable pub node_at : MibNode → List ℕ → Option MibNode
node_at n [] = some n
node_at (instance_node c) (x ∷ oid) = none
node_at (group_node room subs) (x ∷ oid) = elim (child subs x) [
  | none ↦ none
  | some n ↦ node_at n oid
]

-- The handler of the instance that is registered at an identifier.
abbrev pub handler_of : Option MibNode → Option ℕ
handler_of (some (instance_node c)) = some c
handler_of (some (group_node room subs)) = none
handler_of none = none

abbrev pub callback_at : MibNode → List ℕ → Option ℕ
callback_at t oid = handler_of (node_at t oid)

pub child-IsWellFormed :
    (subs : SubNodes) (x : ℕ) {n : MibNode}
    → AllWellFormed subs
    → child subs x ≡ some n
    → IsWellFormed n
child-IsWellFormed nil x h e = cc
child-IsWellFormed (cons y m subs) x {n} h e = elim (Bool-cases (y == x)) [
  | inl q ↦ let s : m ≡ n = ground arith in rw (← s) h.0
  | inr q ↦ child-IsWellFormed subs x h.1 (ground arith)
]

node_at-chain :
    (oid : List ℕ) (callback : ℕ) → node_at (chain oid callback) oid ≡ some (instance_node callback)
unfolding node_at chain
node_at-chain [] callback = refl
node_at-chain (x ∷ oid) callback = ground (arith, node_at-chain oid callback)

chain_other : (oid p : List ℕ) (callback : ℕ) → p ≢ oid → callback_at (chain oid callback) p ≡ none
unfolding node_at chain
chain_other [] [] callback h = absurd (h refl)
chain_other [] (y ∷ p) callback h = refl
chain_other (x ∷ oid) [] callback h = refl
chain_other (x ∷ oid) (y ∷ p) callback h = elim (Bool-cases (x == y)) [
  | inl e ↦
      rw (e, node_at)
        (chain_other oid p callback (λ q. h (ap₂ (λ u v. u ∷ v) (sym ((==_iff x y).0 e)) q)))
  | inr e ↦ rw (e, node_at) refl
]

-- Reading below a group after a sub-node was written.
module _ (room r x : ℕ) (subs : SubNodes) (m : MibNode) (p : List ℕ)
    (w : IsWellFormed (group_node room subs)) where
  pub put_same : node_at (group_node r (put subs x m)) (x ∷ p) ≡ node_at m p
  unfolding node_at
  put_same = ground (arith, child-put subs x x m w.0)

  pub put_other :
      (y : ℕ)
      → x ≢ y
      → node_at (group_node r (put subs x m)) (y ∷ p) ≡ node_at (group_node room subs) (y ∷ p)
  unfolding node_at
  put_other y d = ground (arith, child-put subs x y m w.0)

pub node_at-none :
    (room x : ℕ) (subs : SubNodes) (p : List ℕ)
    → child subs x ≡ none
    → node_at (group_node room subs) (x ∷ p) ≡ none
unfolding node_at
node_at-none room x subs p e = ground arith

pub node_at-some :
    (room x : ℕ) (subs : SubNodes) {n : MibNode} (p : List ℕ)
    → child subs x ≡ some n
    → node_at (group_node room subs) (x ∷ p) ≡ node_at n p
unfolding node_at
node_at-some room x subs p e = ground arith

pub insert_self :
    (t : MibNode) (oid : List ℕ) (callback : ℕ)
    → IsWellFormed t
    → (inserted t oid callback).1 ≡ true
    → callback_at (inserted t oid callback).0 oid ≡ some callback
insert_self (group_node room subs) [] callback w e = unfold inserted in cc
insert_self (instance_node c) [] callback w e = unfold inserted in cc
insert_self (instance_node c) (x ∷ oid) callback w e = unfold inserted in cc
insert_self (group_node room subs) (x ∷ oid) callback w e = elim (Option-cases (child subs x)) [
  | inl n ↦
      rw (insert_step room subs x oid callback w.0, n)
        (ap handler_of (
          put_same room (raised room subs) x subs (chain oid callback) oid w
          ∙ node_at-chain oid callback))
  | inr (n, s) ↦
      let r = rw (insert_step room subs x oid callback w.0, s) at e in
      rw (insert_step room subs x oid callback w.0, s)
        (ap handler_of (put_same room room x subs (inserted n oid callback).0 oid w)
          ∙ insert_self n oid callback (child-IsWellFormed subs x w.1 s) r)
]

-- Whether it succeeds or not, registration changes no other identifier.
pub insert_other :
    (t : MibNode) (oid p : List ℕ) (callback : ℕ)
    → IsWellFormed t
    → p ≢ oid
    → callback_at (inserted t oid callback).0 p ≡ callback_at t p
insert_other (group_node room subs) [] p callback w h = unfold inserted in refl
insert_other (instance_node c) [] p callback w h = unfold inserted in refl
insert_other (instance_node c) (x ∷ oid) p callback w h = unfold inserted in refl
insert_other (group_node room subs) (x ∷ oid) [] callback w h = elim (Option-cases (child subs x)) [
  | inl n ↦ rw (insert_step room subs x oid callback w.0, n) (unfold node_at in refl)
  | inr (n, s) ↦ rw (insert_step room subs x oid callback w.0, s) (unfold node_at in refl)
]
insert_other (group_node room subs) (x ∷ oid) (y ∷ p) callback w h =
    elim (Option-cases (child subs x)) [
      | inl n ↦
          rw (insert_step room subs x oid callback w.0, n)
            (elim (ℕ_discrete x y) [
              | yes e ↦ rw (← e) (
                  ap handler_of (put_same room (raised room subs) x subs (chain oid callback) p w)
                  ∙ chain_other oid p callback (tails e)
                  ∙ ap handler_of (sym (node_at-none room x subs p n)))
              | no d ↦
                  ap handler_of
                    (put_other room (raised room subs) x subs (chain oid callback) p w y d)
            ])
      | inr (n, s) ↦
          rw (insert_step room subs x oid callback w.0, s)
            (elim (ℕ_discrete x y) [
              | yes e ↦ rw (← e) (
                  ap handler_of (put_same room room x subs (inserted n oid callback).0 p w)
                  ∙ insert_other n oid p callback (child-IsWellFormed subs x w.1 s) (tails e)
                  ∙ ap handler_of (sym (node_at-some room x subs p s)))
              | no d ↦
                  ap handler_of (put_other room room x subs (inserted n oid callback).0 p w y d)
            ])
    ]
  where
    tails : x ≡ y → p ≢ oid
    tails e q = h (ap₂ (λ u v. u ∷ v) (sym e) q)
