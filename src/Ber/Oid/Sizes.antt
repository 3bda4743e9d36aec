-- ===== src/Ber/Oid/Sizes.antt =====
-- The sizes that are computed ahead of encoding and decoding an object identifier.
use mathlib.Core.List.{reverse-cons}
use smithsnmp.Base.{
  ℕ, zero, suc, ◌+◌, ◌*◌, ◌/◌, ◌%◌, ◌^◌, ◌≤◌, ◌<◌, ◌≡◌, refl, ◌∙◌, arith, List, [], ◌∷◌, reverse,
  length, length-append, bit_and, IsWord, All, none, some,
}
use smithsnmp.Ber.Oid.{
  fill_tmp, clear_first, sub_id_enc, sub_ids_enc, ber_oid_enc, count_ids, oid_size, ber_oid_enc_try,
  sub_ids_dec, ber_oid_dec, count_ends, ber_oid_dec_try,
}

count_ends-length : (bs : List ℕ) (j id : ℕ) → count_ends j bs ≡ j + length (sub_ids_dec id bs)
unfolding count_ends sub_ids_dec
count_ends-length [] j id = omega arith
count_ends-length (b ∷ bs) j id = ground (
  arith,
  count_ends-length bs j ((id * 128 + bit_and b 0x7f) % 2 ^ 32),
  count_ends-length bs (j + 1) 0,
)

pub ber_oid_dec_try-length :
    (b : ℕ) (bs : List ℕ) → ber_oid_dec_try (b ∷ bs) ≡ length (ber_oid_dec (b ∷ bs))
unfolding ber_oid_dec_try ber_oid_dec
ber_oid_dec_try-length b bs = omega (arith, count_ends-length bs 2 0)

length-reverse {ℓ} : {A : Type ℓ} (xs : List A) → length (reverse xs) ≡ length xs
length-reverse [] = refl
length-reverse (x ∷ xs) =
    rw reverse-cons (omega (arith, length-append {ℓ} (reverse xs) (x ∷ []), length-reverse xs))

length-clear_first : (bs : List ℕ) → length (clear_first bs) ≡ length bs
unfolding clear_first
length-clear_first [] = refl
length-clear_first (b ∷ bs) = refl

length-sub_id_enc : (id : ℕ) → length (sub_id_enc id) ≡ length (fill_tmp 10 id)
unfolding sub_id_enc
length-sub_id_enc id =
    length-reverse (clear_first (fill_tmp 10 id)) ∙ length-clear_first (fill_tmp 10 id)

count_ids-length :
    (ids : List ℕ) (j : ℕ) → j < 256 → count_ids j ids ≡ (j + length (sub_ids_enc ids)) % 256
unfolding count_ids sub_ids_enc
count_ids-length [] j h = omega arith
count_ids-length (id ∷ ids) j h = omega (
  arith,
  count_ids-length ids ((j + length (fill_tmp 10 id)) % 256) (omega arith),
  length-append {0} (sub_id_enc id) (sub_ids_enc ids),
  length-sub_id_enc id,
)

-- The count is the number of bytes that `ber_oid_enc` writes, modulo 256.
pub oid_size-length : (oid : List ℕ) → oid_size oid ≡ length (ber_oid_enc oid) % 256
unfolding oid_size ber_oid_enc
oid_size-length [] = refl
oid_size-length (a ∷ []) = refl
oid_size-length (a ∷ b ∷ ids) = omega (arith, count_ids-length ids 1 (omega arith))

length-fill_tmp : (k m id : ℕ) → id < 128 ^ suc m → length (fill_tmp k id) ≤ m + 1
unfolding fill_tmp
length-fill_tmp zero m id h = omega arith
length-fill_tmp (suc k) zero id h = ground arith
length-fill_tmp (suc k) (suc m) id h = ground (arith, length-fill_tmp k m (id / 128) (omega arith))

length-sub_ids_enc : (ids : List ℕ) → All IsWord ids → length (sub_ids_enc ids) ≤ 5 * length ids
unfolding sub_ids_enc
length-sub_ids_enc [] h = omega arith
length-sub_ids_enc (id ∷ ids) h = omega (
  arith,
  length-append {0} (sub_id_enc id) (sub_ids_enc ids),
  length-sub_id_enc id,
  length-fill_tmp 10 4 id (omega arith),
  length-sub_ids_enc ids h.1,
)

-- Up to this many elements the announced size is exact.
pub oid_size_exact :
    (oid : List ℕ) → All IsWord oid → length oid ≤ 52 → oid_size oid ≡ length (ber_oid_enc oid)
unfolding ber_oid_enc
oid_size_exact [] h n = oid_size-length []
oid_size_exact (a ∷ []) h n = oid_size-length (a ∷ [])
oid_size_exact (a ∷ b ∷ ids) h n =
    omega (arith, oid_size-length (a ∷ b ∷ ids), length-sub_ids_enc ids h.1.1)

-- `ber_oid_enc_try` ends for identifiers of fewer than 256 numbers, and then it is the number of
-- bytes that `ber_oid_enc` writes, modulo 256; for 256 numbers or more it does not end.
pub ber_oid_enc_try-length :
    (oid : List ℕ)
    → (length oid < 256 → ber_oid_enc_try oid ≡ some (length (ber_oid_enc oid) % 256))
      × (256 ≤ length oid → ber_oid_enc_try oid ≡ none)
unfolding ber_oid_enc_try
ber_oid_enc_try-length oid = (λ h. ground (arith, oid_size-length oid), λ h. ground arith)
