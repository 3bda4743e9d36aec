-- ===== src/Mib/Next/Suffix.antt =====
-- The sub-nodes of a group from an index on.
use smithsnmp.Base.{ℕ, zero, suc, ◌+◌, ◌≤◌, ◌<◌, ◌≡◌, refl, arith, none, some, length, get_or}
use smithsnmp.Mib.Tree.{MibNode, SubNodes, nil, cons, sub_ids, sub_ptr}
use smithsnmp.Mib.Next.{backlog}

unfoldable pub drop_subs : ℕ → SubNodes → SubNodes
drop_subs zero subs = subs
drop_subs (suc i) nil = nil
drop_subs (suc i) (cons x n subs) = drop_subs i subs

pub drop_subs-zero : (subs : SubNodes) → drop_subs 0 subs ≡ subs
unfolding drop_subs
drop_subs-zero subs = refl

-- What the group holds at the index, and behind it.
pub record IsAt (subs : SubNodes) (i x : ℕ) (n : MibNode) (rest : SubNodes) : Type 0 where
  pub id : get_or (sub_ids subs) i 0 ≡ x
  pub ptr : sub_ptr subs i ≡ some n
  pub behind : drop_subs (suc i) subs ≡ rest
  pub count : length (sub_ids subs) ≡ suc i + length (sub_ids rest)

pub drop_subs-IsAt :
    (subs : SubNodes) (i x : ℕ) (n : MibNode) (rest : SubNodes)
    → drop_subs i subs ≡ cons x n rest
    → IsAt subs i x n rest
unfolding drop_subs sub_ids sub_ptr
drop_subs-IsAt nil zero x n rest e = absurd (cc)
drop_subs-IsAt nil (suc i) x n rest e = absurd (cc)
drop_subs-IsAt (cons y m subs) zero x n rest e = record {
  id = ground arith;
  ptr = ground arith;
  behind = ground arith;
  count = (let q : subs ≡ rest = ground arith in rw q (omega arith));
}
drop_subs-IsAt (cons y m subs) (suc i) x n rest e =
    let a = drop_subs-IsAt subs i x n rest e in
    record { id = a.id; ptr = a.ptr; behind = a.behind; count = omega (arith, a.count) }

module _ (gn : MibNode) (subs : SubNodes) (i x : ℕ) (n : MibNode) where
  pub backlog-last :
      IsAt subs i x n nil → backlog gn i (length (sub_ids subs)) ≡ record { node = none; n_idx = 0 }
  unfolding backlog sub_ids
  backlog-last a = ground (arith, a.count)

  pub backlog-more :
      (y : ℕ) (m : MibNode) (rest : SubNodes)
      → IsAt subs i x n (cons y m rest)
      → backlog gn i (length (sub_ids subs)) ≡ record { node = some gn; n_idx = suc i }
  unfolding backlog sub_ids
  backlog-more y m rest a = ground (arith, a.count)

pub drop_subs_all : (subs : SubNodes) (i : ℕ) → length (sub_ids subs) ≤ i → drop_subs i subs ≡ nil
unfolding drop_subs sub_ids
drop_subs_all nil zero h = refl
drop_subs_all nil (suc i) h = refl
drop_subs_all (cons x n subs) zero h = absurd (omega arith)
drop_subs_all (cons x n subs) (suc i) h = drop_subs_all subs i (omega arith)

pub drop_subs_some :
    (subs : SubNodes) (i : ℕ)
    → i < length (sub_ids subs)
    → (x : ℕ) × (n : MibNode) × (rest : SubNodes) × (drop_subs i subs ≡ cons x n rest)
unfolding drop_subs sub_ids
drop_subs_some nil i h = absurd (omega arith)
drop_subs_some (cons x n subs) zero h = (x, n, subs, refl)
drop_subs_some (cons x n subs) (suc i) h = drop_subs_some subs i (omega arith)
