-- ===== src/Oid/Order.antt =====
-- `oid_cmp` decides equality, and decides the lexicographic order of small identifiers.
use smithsnmp.Base.{
  ℕ, ◌+◌, ◌-◌, ◌%◌, ◌^◌, ◌<◌, ◌≡◌, ◌↔◌, ◌⊎◌, inl, inr, refl, arith, true, List, [], ◌∷◌, ◌==◌,
  length, IsWord, is_negative, All, Bool-cases,
}
use smithsnmp.Oid.{oid_cmp}

-- The lexicographic order, in which a proper prefix comes first.
abbrev pub OidLt : List ℕ → List ℕ → Type 0
OidLt a [] = ⊥
OidLt [] (y ∷ ys) = Unit
OidLt (x ∷ xs) (y ∷ ys) = (x < y) ⊎ (x ≡ y) × OidLt xs ys

pub oid_cmp_refl : (a : List ℕ) → All IsWord a → oid_cmp a a ≡ 0
unfolding oid_cmp
oid_cmp_refl [] h = refl
oid_cmp_refl (x ∷ a) h = ground (arith, oid_cmp_refl a h.1)

pub oid_cmp_zero :
    (a b : List ℕ)
    → All IsWord a
    → All IsWord b
    → length a < 2 ^ 32
    → length b < 2 ^ 32
    → oid_cmp a b ≡ 0
    → a ≡ b
unfolding oid_cmp
oid_cmp_zero [] [] ha hb la lb e = refl
oid_cmp_zero [] (y ∷ b) ha hb la lb e = absurd (omega arith)
oid_cmp_zero (x ∷ a) [] ha hb la lb e = absurd (omega arith)
oid_cmp_zero (x ∷ a) (y ∷ b) ha hb la lb e =
    ground (arith, oid_cmp_zero a b ha.1 hb.1 (omega arith) (omega arith))

abbrev pub IsSmall : ℕ → Type 0
IsSmall x = x < 2 ^ 31

-- For identifiers of numbers below 2 ^ 31, fewer than 2 ^ 31 of them, `oid_cmp` is negative exactly
-- when the first comes before the second in the lexicographic order.
pub oid_cmp_negative :
    (a b : List ℕ)
    → All IsSmall a
    → All IsSmall b
    → length a < 2 ^ 31
    → length b < 2 ^ 31
    → (is_negative (oid_cmp a b) ≡ true) ↔ OidLt a b
unfolding oid_cmp
oid_cmp_negative [] [] ha hb la lb = (λ e. cc, λ h. absurd h)
oid_cmp_negative [] (y ∷ b) ha hb la lb = (λ e. tt, λ _. ground arith)
oid_cmp_negative (x ∷ a) [] ha hb la lb = (λ e. absurd (ground arith), λ h. absurd h)
oid_cmp_negative (x ∷ a) (y ∷ b) ha hb la lb =
    let ih = oid_cmp_negative a b ha.1 hb.1 (omega arith) (omega arith) in
    elim (Bool-cases ((x + 2 ^ 32 - y) % 2 ^ 32 == 0)) [
      | inl e ↦ rw e (
        λ n. inr (ground arith, ih.0 n),
        elim [ inl l ↦ absurd (ground arith) | inr r ↦ ih.1 r.1 ],
      )
      | inr e ↦
          rw e
            (λ n. inl (ground arith), elim [ inl l ↦ ground arith | inr r ↦ absurd (ground arith) ])
    ]

-- `oid_cmp` is negative, as if the first identifier were the smaller one, when its first number, a
-- 32-bit one, exceeds that of the second by more than 2 ^ 31.
pub oid_cmp_wraps :
    (x y : ℕ) (a b : List ℕ)
    → x < 2 ^ 32
    → y + 2 ^ 31 < x
    → is_negative (oid_cmp (x ∷ a) (y ∷ b)) ≡ true
unfolding oid_cmp
oid_cmp_wraps x y a b h d = ground arith
