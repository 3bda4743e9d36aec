-- ===== src/Oid/Prefix.antt =====
-- `oid_cover` decides the prefix order.
use smithsnmp.Base.{
  ℕ, zero, suc, ◌^◌, ◌≤◌, ◌<◌, ◌≡◌, ◌↔◌, refl, ap, ap₂, sym, arith, true, List, [], ◌∷◌, leb, ◌&&◌,
  ◌==◌, length, take, IsWord, All, Bool-cases, inl, inr, ◌∙◌, length-take,
}
use smithsnmp.Oid.{oid_cmp, oid_cover, covers, covered}
use smithsnmp.Oid.Order.{oid_cmp_refl, oid_cmp_zero}

abbrev pub IsPrefix : List ℕ → List ℕ → Type 0
IsPrefix [] b = Unit
IsPrefix (x ∷ a) [] = ⊥
IsPrefix (x ∷ a) (y ∷ b) = (x ≡ y) × IsPrefix a b

pub IsPrefix-refl : (a : List ℕ) → IsPrefix a a
IsPrefix-refl [] = tt
IsPrefix-refl (x ∷ a) = (refl, IsPrefix-refl a)

pub IsPrefix-trans : (a b c : List ℕ) → IsPrefix a b → IsPrefix b c → IsPrefix a c
IsPrefix-trans [] b c p q = tt
IsPrefix-trans (x ∷ a) [] c p q = absurd p
IsPrefix-trans (x ∷ a) (y ∷ b) [] p q = absurd q
IsPrefix-trans (x ∷ a) (y ∷ b) (z ∷ c) p q = (p.0 ∙ q.0, IsPrefix-trans a b c p.1 q.1)

pub IsPrefix-antisym : (a b : List ℕ) → IsPrefix a b → IsPrefix b a → a ≡ b
IsPrefix-antisym [] [] p q = refl
IsPrefix-antisym [] (y ∷ b) p q = absurd q
IsPrefix-antisym (x ∷ a) [] p q = absurd p
IsPrefix-antisym (x ∷ a) (y ∷ b) p q = ap₂ (λ u v. u ∷ v) p.0 (IsPrefix-antisym a b p.1 q.1)

-- Two prefixes of one list are comparable.
pub IsPrefix-length :
    (a b c : List ℕ) → IsPrefix a c → IsPrefix b c → length a ≤ length b → IsPrefix a b
IsPrefix-length [] b c p q l = tt
IsPrefix-length (x ∷ a) [] c p q l = absurd (omega arith)
IsPrefix-length (x ∷ a) (y ∷ b) [] p q l = absurd p
IsPrefix-length (x ∷ a) (y ∷ b) (z ∷ c) p q l =
    (p.0 ∙ sym q.0, IsPrefix-length a b c p.1 q.1 (omega arith))

IsPrefix→take : (a b : List ℕ) → IsPrefix a b → (length a ≤ length b) × (take (length a) b ≡ a)
IsPrefix→take [] b p = (omega arith, refl)
IsPrefix→take (x ∷ a) [] p = absurd p
IsPrefix→take (x ∷ a) (y ∷ b) p =
    let (l, e) = IsPrefix→take a b p.1 in (omega arith, ap₂ (λ u v. u ∷ v) (sym p.0) e)

take→IsPrefix : (a b : List ℕ) → take (length a) b ≡ a → IsPrefix a b
take→IsPrefix [] b e = tt
take→IsPrefix (x ∷ a) [] e = cc
take→IsPrefix (x ∷ a) (y ∷ b) e = (cc, take→IsPrefix a b (cc))

take-IsWord : (n : ℕ) (b : List ℕ) → All IsWord b → All IsWord (take n b)
take-IsWord zero b h = tt
take-IsWord (suc n) [] h = tt
take-IsWord (suc n) (x ∷ b) h = (h.0, take-IsWord n b h.1)

-- What an identifier is in the source: its numbers are 32 bits wide, and so is its length.
pub record IsOidArray (a : List ℕ) : Type 0 where
  pub wide : All IsWord a
  pub short : length a < 2 ^ 32

module _ (a b : List ℕ) (wa : IsOidArray a) (wb : IsOidArray b) where
  front : List ℕ
  front = take (length b) a

  same_front : (oid_cmp front b ≡ 0) ↔ (front ≡ b)
  unfolding front
  same_front = (
    oid_cmp_zero front b (take-IsWord (length b) a wa.wide) wb.wide
        (omega (arith, length-take (length b) a, wa.short)) wb.short,
    λ e. ap (λ t. oid_cmp t b) e ∙ oid_cmp_refl b wb.wide,
  )

  same_front_rev : (oid_cmp b front ≡ 0) ↔ (front ≡ b)
  unfolding front
  same_front_rev = (
    λ e. sym (
        oid_cmp_zero b front wb.wide (take-IsWord (length b) a wa.wide) wb.short
          (omega (arith, length-take (length b) a, wa.short)) e),
    λ e. ap (oid_cmp b) e ∙ oid_cmp_refl b wb.wide,
  )

  starts : ((leb (length b) (length a) && oid_cmp front b == 0) ≡ true) ↔ IsPrefix b a
  unfolding front
  starts = (
    λ e. take→IsPrefix b a (same_front.0 (ground arith)),
    λ p. let (l, e) = IsPrefix→take b a p in let z = same_front.1 e in ground arith,
  )

  starts_rev : ((leb (length b) (length a) && oid_cmp b front == 0) ≡ true) ↔ IsPrefix b a
  unfolding front
  starts_rev = (
    λ e. take→IsPrefix b a (same_front_rev.0 (ground arith)),
    λ p. let (l, e) = IsPrefix→take b a p in let z = same_front_rev.1 e in ground arith,
  )

module _ (a b : List ℕ) (wa : IsOidArray a) (wb : IsOidArray b) where
  -- `oid_cover` answers 1 exactly when the first of two arrays of 32-bit numbers is a prefix of the
  -- second.
  pub oid_cover-covers : (oid_cover a b ≡ covers) ↔ IsPrefix a b
  unfolding oid_cover front
  oid_cover-covers =
      elim (Bool-cases (leb (length a) (length b) && oid_cmp a (take (length a) b) == 0)) [
        | inl e ↦ rw e (λ _. (starts_rev b a wb wa).0 e, λ _. refl)
        | inr e ↦ (λ c. absurd (ground arith), λ p. let s = (starts_rev b a wb wa).1 p in cc)
      ]

  -- `oid_cover` answers -1 exactly when the second of two arrays of 32-bit numbers is a prefix of
  -- the first and not equal to it.
  pub oid_cover-covered : (oid_cover a b ≡ covered) ↔ (IsPrefix b a × ¬ IsPrefix a b)
  unfolding oid_cover front
  oid_cover-covered = (
    λ c. (
      (starts a b wa wb).0 (ground arith),
      λ p. let s = (starts_rev b a wb wa).1 p in ground arith,
    ),
    λ h. elim (Bool-cases (leb (length a) (length b) && oid_cmp a (take (length a) b) == 0)) [
      | inl e ↦ absurd (h.1 ((starts_rev b a wb wa).0 e))
      | inr e ↦ rw (e, (starts a b wa wb).1 h.0)
    ],
  )
