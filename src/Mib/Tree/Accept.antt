-- ===== src/Mib/Tree/Accept.antt =====
-- When `inserted` of core/mib_tree.c succeeds, and the shape that it keeps.
use smithsnmp.Base.{
  ℕ, ◌≡◌, ◌↔◌, refl, ap, sym, ◌∙◌, arith, true, false, none, some, List, [], ◌∷◌, ltb, ◌==◌,
  Bool-cases, Option-cases, inl, inr,
}
use smithsnmp.Oid.Prefix.{IsPrefix}
use smithsnmp.Mib.Tree.{MibNode, group_node, instance_node, SubNodes, nil, cons, sub_ids, inserted}
use smithsnmp.Mib.Tree.Subs.{child, put, put-IsAscending, put_self}
use smithsnmp.Mib.Tree.Insert.{chain, IsWellFormed, AllWellFormed, insert_step}
use smithsnmp.Mib.Tree.Lookup.{
  node_at, handler_of, callback_at, child-IsWellFormed, node_at-none, node_at-some,
}

-- A registration that is refused leaves the tree as it is.
pub insert_refused :
    (t : MibNode) (oid : List ℕ) (callback : ℕ)
    → IsWellFormed t
    → (inserted t oid callback).1 ≡ false
    → (inserted t oid callback).0 ≡ t
insert_refused (group_node room subs) [] callback w e = unfold inserted in refl
insert_refused (instance_node c) [] callback w e = unfold inserted in refl
insert_refused (instance_node c) (x ∷ oid) callback w e = unfold inserted in refl
insert_refused (group_node room subs) (x ∷ oid) callback w e = elim (Option-cases (child subs x)) [
  | inl n ↦ let r = rw (insert_step room subs x oid callback w.0, n) at e in cc
  | inr (n, s) ↦
      let r = rw (insert_step room subs x oid callback w.0, s) at e in
      rw
        (
          insert_step room subs x oid callback w.0,
          s,
          insert_refused n oid callback (child-IsWellFormed subs x w.1 s) r,
        )
        (ap (group_node room) (put_self subs x n w.0 s))
]

put-AllWellFormed :
    (subs : SubNodes) (x : ℕ) (m : MibNode)
    → AllWellFormed subs
    → IsWellFormed m
    → AllWellFormed (put subs x m)
unfolding put
put-AllWellFormed nil x m h w = (w, tt)
put-AllWellFormed (cons y n subs) x m h w = elim (Bool-cases (ltb y x)) [
  | inl b ↦ rw b (h.0, put-AllWellFormed subs x m h.1 w)
  | inr b ↦ rw b (elim (Bool-cases (y == x)) [ inl c ↦ rw c (w, h.1) | inr c ↦ rw c (w, h) ])
]

chain-IsWellFormed : (oid : List ℕ) (callback : ℕ) → IsWellFormed (chain oid callback)
unfolding chain sub_ids
chain-IsWellFormed [] callback = tt
chain-IsWellFormed (x ∷ oid) callback = ((tt, tt), (chain-IsWellFormed oid callback, tt))

pub insert-IsWellFormed :
    (t : MibNode) (oid : List ℕ) (callback : ℕ)
    → IsWellFormed t
    → IsWellFormed (inserted t oid callback).0
insert-IsWellFormed (group_node room subs) [] callback w = unfold inserted in w
insert-IsWellFormed (instance_node c) [] callback w = unfold inserted in w
insert-IsWellFormed (instance_node c) (x ∷ oid) callback w = unfold inserted in w
insert-IsWellFormed (group_node room subs) (x ∷ oid) callback w =
    elim (Option-cases (child subs x)) [
      | inl n ↦
          rw (insert_step room subs x oid callback w.0, n)
            (
              put-IsAscending subs x _ w.0,
              put-AllWellFormed subs x _ w.1 (chain-IsWellFormed oid callback),
            )
      | inr (n, s) ↦
          rw (insert_step room subs x oid callback w.0, s)
            (
              put-IsAscending subs x _ w.0,
              put-AllWellFormed subs x _ w.1
                  (insert-IsWellFormed n oid callback (child-IsWellFormed subs x w.1 s)),
            )
    ]

-- Nothing stands at the identifier, and no instance at a prefix of it.
abbrev pub IsFree : MibNode → List ℕ → Type 0
IsFree t oid = (node_at t oid ≡ none) × ((p : List ℕ) → IsPrefix p oid → callback_at t p ≡ none)

IsFree-below_none :
    (room x : ℕ) (subs : SubNodes) (oid : List ℕ)
    → child subs x ≡ none
    → IsFree (group_node room subs) (x ∷ oid)
IsFree-below_none room x subs oid n = (node_at-none room x subs oid n, go)
  where
    go : (p : List ℕ) → IsPrefix p (x ∷ oid) → callback_at (group_node room subs) p ≡ none
    go [] h = unfold node_at in refl
    go (y ∷ p) h = rw (h.0) (ap handler_of (node_at-none room x subs p n))

IsFree-below_some :
    (room x : ℕ) (subs : SubNodes) (oid : List ℕ) (n : MibNode)
    → child subs x ≡ some n
    → IsFree n oid ↔ IsFree (group_node room subs) (x ∷ oid)
IsFree-below_some room x subs oid n s = (
  λ f. (node_at-some room x subs oid s ∙ f.0, down f),
  λ f. (
    sym (node_at-some room x subs oid s) ∙ f.0,
    λ p h. ap handler_of (sym (node_at-some room x subs p s)) ∙ f.1 (x ∷ p) (refl, h),
  ),
)
  where
    down :
        IsFree n oid
        → (p : List ℕ) → IsPrefix p (x ∷ oid)
        → callback_at (group_node room subs) p ≡ none
    down f [] h = unfold node_at in refl
    down f (y ∷ p) h = rw (h.0) (ap handler_of (node_at-some room x subs p s) ∙ f.1 p h.1)

-- Registration succeeds exactly at the free identifiers.
pub insert_accepts :
    (t : MibNode) (oid : List ℕ) (callback : ℕ)
    → IsWellFormed t
    → ((inserted t oid callback).1 ≡ true) ↔ IsFree t oid
insert_accepts (group_node room subs) [] callback w =
    unfold inserted node_at in (λ e. cc, λ f. absurd (ground (arith, f.0)))
insert_accepts (instance_node c) [] callback w =
    unfold inserted node_at in (λ e. cc, λ f. absurd (ground (arith, f.0)))
insert_accepts (instance_node c) (x ∷ oid) callback w =
    unfold inserted node_at in (λ e. cc, λ f. absurd (ground (arith, f.1 [] tt)))
insert_accepts (group_node room subs) (x ∷ oid) callback w = elim (Option-cases (child subs x)) [
  | inl n ↦
      rw (insert_step room subs x oid callback w.0, n)
        (λ e. IsFree-below_none room x subs oid n, λ f. refl)
  | inr (n, s) ↦
      rw (insert_step room subs x oid callback w.0, s)
        (let ih = insert_accepts n oid callback (child-IsWellFormed subs x w.1 s) in
          let b = IsFree-below_some room x subs oid n s in (λ e. b.0 (ih.0 e), λ f. ih.1 (b.1 f)))
]
