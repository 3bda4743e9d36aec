-- ===== src/Mib/Tree/Register.antt =====
-- `mib_node_reg` as an update of the map from identifiers to handlers.
use smithsnmp.Base.{
  ℕ, Bool, ◌≤◌, ◌<◌, ◌≡◌, ◌≢◌, ◌↔◌, ◌⊎◌, refl, arith, true, false, some, List, ltb, ◌==◌,
  if◌then◌else◌, length, Bool-cases, inl, inr,
}
use smithsnmp.Asn1.{asn1_oid_max_len}
use smithsnmp.Mib.Tree.{MibNode, inserted, is_crowded, mib_tree_instance_insert, mib_node_reg}
use smithsnmp.Mib.Tree.Insert.{IsWellFormed}
use smithsnmp.Mib.Tree.Lookup.{callback_at, insert_self, insert_other}
use smithsnmp.Mib.Tree.Accept.{IsFree, insert_refused, insert-IsWellFormed, insert_accepts}

-- An identifier of a length that can be registered.
abbrev pub IsRegistrable : List ℕ → Type 0
IsRegistrable oid = (0 < length oid) × (length oid ≤ asn1_oid_max_len)

module _ (t : MibNode) (oid : List ℕ) (callback : ℕ) (w : IsWellFormed t) where
  unfoldable registered : MibNode × Bool
  registered =
      if length oid == 0
      then (t, false)
      else if ltb asn1_oid_max_len (length oid)
      then (t, false)
      else inserted t oid callback

  reg_registered : (r : MibNode × Bool) → mib_node_reg t oid callback ≡ some r → registered ≡ r
  unfolding mib_node_reg mib_tree_instance_insert registered
  reg_registered r e = ground (arith, e)

  reg_roomy : is_crowded t oid ≡ false → mib_node_reg t oid callback ≡ some registered
  unfolding mib_node_reg mib_tree_instance_insert registered
  reg_roomy e = ground (arith, e)

  reg_cases :
      (registered ≡ inserted t oid callback) × IsRegistrable oid
      ⊎ (registered ≡ (t, false)) × ¬ IsRegistrable oid
  unfolding registered
  reg_cases = elim (Bool-cases (length oid == 0)) [
    | inl e ↦ inr (rw e refl, λ r. ground arith)
    | inr e ↦ elim (Bool-cases (ltb asn1_oid_max_len (length oid))) [
      | inl f ↦ inr (rw (e, f) refl, λ r. ground arith)
      | inr f ↦ inl (rw (e, f) refl, (ground arith, ground arith))
    ]
  ]

  -- On a tree whose groups ascend, where no group on the way is full, `mib_node_reg` returns, and
  -- it succeeds exactly at identifiers of 1 to 64 numbers at which no node stands and of which no
  -- prefix is an instance.
  pub mib_node_reg_accepts :
      is_crowded t oid ≡ false
      → (r : MibNode × Bool) × (mib_node_reg t oid callback ≡ some r)
        × ((r.1 ≡ true) ↔ (IsRegistrable oid × IsFree t oid))
  mib_node_reg_accepts roomy = (
    registered,
    reg_roomy roomy,
    elim reg_cases [
      | inl c ↦ rw c.0 (
        λ e. (c.1, (insert_accepts t oid callback w).0 e),
        λ f. (insert_accepts t oid callback w).1 f.1,
      )
      | inr c ↦ rw c.0 (λ e. cc, λ f. absurd (c.1 f.0))
    ],
  )

  module _ (r : MibNode × Bool) (e : mib_node_reg t oid callback ≡ some r) where
    -- On a tree whose groups ascend, where `mib_node_reg` returns, after a successful registration
    -- the identifier leads to an instance with the registered handler.
    pub mib_node_reg_self : r.1 ≡ true → callback_at r.0 oid ≡ some callback
    mib_node_reg_self = rw (← reg_registered r e) (elim reg_cases [
      | inl c ↦ rw c.0 (λ e. insert_self t oid callback w e)
      | inr c ↦ rw c.0 (λ e. cc)
    ])

    -- On a tree whose groups ascend, where `mib_node_reg` returns, registration, successful or not,
    -- leaves the handler at every other identifier as it was.
    pub mib_node_reg_other : (p : List ℕ) → p ≢ oid → callback_at r.0 p ≡ callback_at t p
    mib_node_reg_other p d = rw (← reg_registered r e) (elim reg_cases [
      | inl c ↦ rw c.0 (insert_other t oid p callback w d)
      | inr c ↦ rw c.0 refl
    ])

    -- On a tree whose groups ascend, where `mib_node_reg` returns, a registration that fails leaves
    -- the tree as it was.
    pub mib_node_reg_refused : r.1 ≡ false → r.0 ≡ t
    mib_node_reg_refused = rw (← reg_registered r e) (elim reg_cases [
      | inl c ↦ rw c.0 (λ e. insert_refused t oid callback w e)
      | inr c ↦ rw c.0 (λ e. refl)
    ])

    -- Where `mib_node_reg` returns, registration, successful or not, keeps the groups of a tree
    -- strictly ascending.
    pub mib_node_reg-IsWellFormed : IsWellFormed r.0
    mib_node_reg-IsWellFormed = rw (← reg_registered r e) (elim reg_cases [
      | inl c ↦ rw c.0 (insert-IsWellFormed t oid callback w)
      | inr c ↦ rw c.0 w
    ])
