-- ===== src/Oid/Search.antt =====
-- `oid_binary_search` on an ascending array finds what a search from the front finds.
use smithsnmp.Base.{
  ℕ, zero, suc, ◌+◌, ◌-◌, ◌/◌, ◌≤◌, ◌<◌, ◌≡◌, arith, List, [], ◌∷◌, ltb, leb, ◌==◌, inl, inr,
  if◌then◌else◌, length, get_or, All, Bool-cases,
}
use smithsnmp.Oid.{search_loop, oid_binary_search, Position, found, missing}

-- Strictly ascending.
abbrev pub IsAscending : List ℕ → Type 0
IsAscending [] = Unit
IsAscending (x ∷ xs) = All (λ y. x < y) xs × IsAscending xs

-- The search from the front, as the specification.
unfoldable pub next_position : Position → Position
next_position (found i) = found (suc i)
next_position (missing i) = missing (suc i)

unfoldable pub locate : List ℕ → ℕ → Position
locate [] oid = missing 0
locate (x ∷ xs) oid =
    if ltb x oid then next_position (locate xs oid) else if x == oid then found 0 else missing 0

infixl 90 ◌!◌
abbrev ◌!◌ : List ℕ → ℕ → ℕ
a ! i = get_or a i 0

-- `r` splits the array into numbers below `oid` and numbers not below it.
abbrev Splits : List ℕ → ℕ → ℕ → Type 0
Splits a oid r =
    (r ≤ length a)
    × ((i : ℕ) → i < r → a ! i < oid)
    × ((i : ℕ) → r ≤ i → i < length a → oid ≤ a ! i)

All-get {κ} : (P : ℕ → Type κ) (a : List ℕ) (i : ℕ) → All P a → i < length a → P (a ! i)
All-get P [] i h l = absurd (omega arith)
All-get P (x ∷ a) zero h l = h.0
All-get P (x ∷ a) (suc i) h l = All-get P a i h.1 (omega arith)

ascending_lt : (a : List ℕ) (i j : ℕ) → IsAscending a → i < j → j < length a → a ! i < a ! j
ascending_lt [] i j h p q = absurd (omega arith)
ascending_lt (x ∷ a) i zero h p q = absurd (omega arith)
ascending_lt (x ∷ a) zero (suc j) h p q = All-get (λ y. x < y) a j h.0 (omega arith)
ascending_lt (x ∷ a) (suc i) (suc j) h p q = ascending_lt a i j h.1 (omega arith) (omega arith)

module _ (a : List ℕ) (oid : ℕ) (asc : IsAscending a) where
  below_mid : (i m : ℕ) → i ≤ m → m < length a → a ! m < oid → a ! i < oid
  below_mid i m p q h = ground (arith, ascending_lt a i m asc)

  above_mid : (i m : ℕ) → m ≤ i → i < length a → oid ≤ a ! m → oid ≤ a ! i
  above_mid i m p q h = ground (arith, ascending_lt a m i asc)

  search_loop-Splits :
      (k next high : ℕ)
      → high ≤ next + k
      → next ≤ high
      → high ≤ length a
      → ((i : ℕ) → i < next → a ! i < oid)
      → ((i : ℕ) → high ≤ i → i < length a → oid ≤ a ! i)
      → Splits a oid (search_loop k a oid next high)
  unfolding search_loop
  search_loop-Splits zero next high fuel o r lo hi = (omega arith, λ i p. lo i (omega arith), hi)
  search_loop-Splits (suc k) next high fuel o r lo hi =
      let mid = next + (high + 1 - next) / 2 - 1 in
      elim (Bool-cases (ltb next high)) [
        | inr e ↦ rw e (omega arith, λ i p. lo i (ground arith), hi)
        | inl e ↦ rw e (elim (Bool-cases (ltb (a ! mid) oid)) [
          | inl c ↦ rw c (
              search_loop-Splits k (mid + 1) high (ground arith) (ground arith) r
                (λ i p. below_mid i mid (omega arith) (ground arith) (ground arith)) hi)
          | inr c ↦ rw c (
              search_loop-Splits k next mid (ground arith) (ground arith) (ground arith) lo
                (λ i p q. above_mid i mid p q (ground arith)))
        ])
      ]

position_of : List ℕ → ℕ → ℕ → Position
position_of a oid r =
    if leb (length a) r then missing r else if get_or a r 0 == oid then found r else missing r

position_of-locate :
    (a : List ℕ) (oid r : ℕ) → IsAscending a → Splits a oid r → position_of a oid r ≡ locate a oid
unfolding position_of locate next_position
position_of-locate [] oid r asc s = ground arith
position_of-locate (x ∷ a) oid zero asc s = ground (arith, s.2 0)
position_of-locate (x ∷ a) oid (suc r) asc s = ground (
  arith,
  s.1 0,
  position_of-locate a oid r asc.1 (
    omega arith,
    λ i p. s.1 (suc i) (omega arith),
    λ i p q. s.2 (suc i) (omega arith) (omega arith),
  ),
)

-- On a strictly ascending array `oid_binary_search` answers as a search from the front: the index
-- of the number, or the place where it belongs.
pub oid_binary_search-locate :
    (array : List ℕ) (oid : ℕ) → IsAscending array → oid_binary_search array oid ≡ locate array oid
unfolding oid_binary_search position_of
oid_binary_search-locate array oid asc =
    position_of-locate array oid (search_loop (length array) array oid 0 (length array)) asc (
      search_loop-Splits array oid asc (length array) 0 (length array) (omega arith) (omega arith)
        (omega arith) (λ i p. absurd (omega arith)) (λ i p q. absurd (omega arith)))
