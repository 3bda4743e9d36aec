-- ===== src/Ber/Oid/RoundTrip.antt =====
-- Decoding gives back the encoded object identifier, and the announced sizes.
use smithsnmp.Base.{
  ℕ, zero, suc, ◌+◌, ◌-◌, ◌==◌, Bool-cases, inl, inr, ◌*◌, ◌/◌, ◌%◌, ◌^◌, ◌≤◌, ◌<◌, ◌≡◌, refl, ap,
  ap₂, ◌∙◌, arith, List, [], ◌∷◌, ◌++◌, reverse, append_assoc, length, has_bit7_lem, IsWord,
  bit_and, bit_or, bit_and_low7, bit_or_bit7, All, if◌then◌else◌,
}
use mathlib.Core.List.{reverse-cons}
use smithsnmp.Ber.Oid.{fill_tmp, sub_id_enc, sub_ids_enc, ber_oid_enc, sub_ids_dec, ber_oid_dec}

group_byte : (id : ℕ) → bit_or (bit_and (id % 256) 0x7f) 0x80 ≡ id % 128 + 128
group_byte id = omega (
  arith,
  bit_and_low7 (id % 256) (omega arith),
  bit_or_bit7 (bit_and (id % 256) 0x7f) (omega (arith, bit_and_low7 (id % 256) (omega arith))),
)

step_inner :
    (acc g : ℕ) (bs : List ℕ)
    → g < 128
    → sub_ids_dec acc ((g + 128) ∷ bs) ≡ sub_ids_dec ((acc * 128 + g) % 2 ^ 32) bs
unfolding sub_ids_dec
step_inner acc g bs h = ground (arith, has_bit7_lem (g + 128), bit_and_low7 (g + 128))

step_last :
    (acc g : ℕ) (bs : List ℕ)
    → g < 128
    → sub_ids_dec acc (g ∷ bs) ≡ (acc * 128 + g) % 2 ^ 32 ∷ sub_ids_dec 0 bs
unfolding sub_ids_dec
step_last acc g bs h = ground (arith, has_bit7_lem g, bit_and_low7 g)

-- The number that the groups in `tmp` stand for, lowest group first.
tmp_value : List ℕ → ℕ
tmp_value [] = 0
tmp_value (b ∷ bs) = b % 128 + 128 * tmp_value bs

tmp_value-fill_tmp : (k id : ℕ) → id < 128 ^ k → tmp_value (fill_tmp k id) ≡ id
unfolding tmp_value fill_tmp
tmp_value-fill_tmp zero id h = omega arith
tmp_value-fill_tmp (suc k) id h = ground (arith, group_byte id, tmp_value-fill_tmp k (id / 128))

abbrev IsGroup : ℕ → Type 0
IsGroup b = (128 ≤ b) × (b < 256)

fill_tmp-IsGroup : (k id : ℕ) → All IsGroup (fill_tmp k id)
unfolding fill_tmp
fill_tmp-IsGroup zero id = tt
fill_tmp-IsGroup (suc k) id = ground (arith, group_byte id, fill_tmp-IsGroup k (id / 128))

reverse-cons_append : (b : ℕ) (bs xs : List ℕ) → reverse (b ∷ bs) ++ xs ≡ reverse bs ++ (b ∷ xs)
reverse-cons_append b bs xs = rw (reverse-cons b bs, append_assoc)

-- The groups of `tmp`, sent highest first, leave their number in `id`.
inner_groups :
    (bs xs : List ℕ)
    → All IsGroup bs
    → sub_ids_dec 0 (reverse bs ++ xs) ≡ sub_ids_dec (tmp_value bs % 2 ^ 32) xs
unfolding tmp_value
inner_groups [] xs h = refl
inner_groups (b ∷ bs) xs h =
    ap (sub_ids_dec 0) (reverse-cons_append b bs xs)
    ∙ inner_groups bs (b ∷ xs) h.1
    ∙ ap (λ t. sub_ids_dec (tmp_value bs % 2 ^ 32) (t ∷ xs)) (omega arith)
    ∙ step_inner (tmp_value bs % 2 ^ 32) (b - 128) xs (omega arith)
    ∙ ap (λ t. sub_ids_dec t xs) (omega arith)

-- The first cell of `tmp`, and the others.
tmp_rest : ℕ → ℕ → List ℕ
tmp_rest k id = if id / 128 == 0 then [] else fill_tmp k (id / 128)

tmp_rest-value : (k id : ℕ) → id < 128 ^ suc k → tmp_value (tmp_rest k id) ≡ id / 128
unfolding tmp_rest tmp_value
tmp_rest-value k id h = ground (arith, tmp_value-fill_tmp k (id / 128))

tmp_rest-IsGroup : (k id : ℕ) → All IsGroup (tmp_rest k id)
unfolding tmp_rest
tmp_rest-IsGroup k id = elim (Bool-cases (id / 128 == 0)) [
  | inl e ↦ rw e tt
  | inr e ↦ rw e (fill_tmp-IsGroup k (id / 128))
]

clear_group : (id : ℕ) → bit_and (id % 128 + 128) 0x7f ≡ id % 128
clear_group id = omega (arith, bit_and_low7 (id % 128 + 128) (omega arith))

sub_id_enc_lem : (id : ℕ) → sub_id_enc id ≡ reverse (id % 128 ∷ tmp_rest 9 id)
unfolding sub_id_enc tmp_rest
sub_id_enc_lem id =
    ap (λ b. reverse (b ∷ tmp_rest 9 id))
      (ap (λ b. bit_and b 0x7f) (group_byte id) ∙ clear_group id)

sub_ids_dec-sub_id_enc :
    (id : ℕ) (rest : List ℕ)
    → IsWord id
    → sub_ids_dec 0 (sub_id_enc id ++ rest) ≡ id ∷ sub_ids_dec 0 rest
sub_ids_dec-sub_id_enc id rest h =
    ap (λ t. sub_ids_dec 0 (t ++ rest)) (sub_id_enc_lem id)
    ∙ ap (sub_ids_dec 0) (reverse-cons_append (id % 128) (tmp_rest 9 id) rest)
    ∙ inner_groups (tmp_rest 9 id) (id % 128 ∷ rest) (tmp_rest-IsGroup 9 id)
    ∙ step_last (tmp_value (tmp_rest 9 id) % 2 ^ 32) (id % 128) rest (omega arith)
    ∙ ap (λ t. t ∷ sub_ids_dec 0 rest) (omega (arith, tmp_rest-value 9 id (omega arith)))

sub_ids_dec-sub_ids_enc : (ids : List ℕ) → All IsWord ids → sub_ids_dec 0 (sub_ids_enc ids) ≡ ids
unfolding sub_ids_enc
sub_ids_dec-sub_ids_enc [] h = unfold sub_ids_dec in refl
sub_ids_dec-sub_ids_enc (id ∷ ids) h =
    sub_ids_dec-sub_id_enc id (sub_ids_enc ids) h.0
    ∙ ap (λ t. id ∷ t) (sub_ids_dec-sub_ids_enc ids h.1)

-- The identifiers that one byte can hold the first two numbers of.
abbrev pub IsOid : List ℕ → Type 0
IsOid [] = ⊥
IsOid (a ∷ []) = ⊥
IsOid (a ∷ b ∷ ids) = (b < 40) × (a * 40 + b < 256) × All IsWord ids

-- An identifier of at least two numbers, of which the first two fit one byte as 40 a + b with b
-- below 40 and the others are 32-bit numbers, is read back from what `ber_oid_enc` wrote.
pub ber_oid_dec-ber_oid_enc : (oid : List ℕ) → IsOid oid → ber_oid_dec (ber_oid_enc oid) ≡ oid
unfolding ber_oid_dec ber_oid_enc
ber_oid_dec-ber_oid_enc [] h = absurd h
ber_oid_dec-ber_oid_enc (a ∷ []) h = absurd h
ber_oid_dec-ber_oid_enc (a ∷ b ∷ ids) (hb, ha, h) =
    ap₂ (λ (p q : ℕ). p ∷ q ∷ sub_ids_dec 0 (sub_ids_enc ids)) (omega arith) (omega arith)
    ∙ ap (λ t. a ∷ b ∷ t) (sub_ids_dec-sub_ids_enc ids h)

pub ber_oid_enc-nonempty : (oid : List ℕ) → IsOid oid → 0 < length (ber_oid_enc oid)
unfolding ber_oid_enc
ber_oid_enc-nonempty [] h = absurd h
ber_oid_enc-nonempty (a ∷ []) h = absurd h
ber_oid_enc-nonempty (a ∷ b ∷ ids) h = omega arith
