-- ===== src/Ber/Length/RoundTrip.antt =====
-- A length is read back from its octets, whatever follows them.
use smithsnmp.Base.{ℕ, ◌≤◌, ◌≡◌, arith, some, List, [], ◌∷◌, ◌++◌, length, has_bit7_lem, IsWord}
use smithsnmp.Ber.Length.{ber_length_enc_try, ber_length_enc, ber_length_dec_try, ber_length_dec}

-- `ber_length_dec` reads a 32-bit length back from the front of a buffer that begins with what
-- `ber_length_enc` wrote, and tells the number of bytes that it took.
pub ber_length_dec-ber_length_enc :
    (v : ℕ) (rest : List ℕ)
    → IsWord v
    → ber_length_dec (ber_length_enc v ++ rest) ≡ some (length (ber_length_enc v), v)
unfolding ber_length_dec ber_length_enc
ber_length_dec-ber_length_enc v rest h = ground (arith, has_bit7_lem v)

pub ber_length_enc_try-length :
    (v : ℕ)
    → IsWord v
    → (ber_length_enc_try v ≡ length (ber_length_enc v)) × (ber_length_enc_try v ≤ 5)
unfolding ber_length_enc_try ber_length_enc
ber_length_enc_try-length v h = ground arith

pub ber_length_dec_try-ber_length_dec :
    (buf : List ℕ) {n v : ℕ} → ber_length_dec buf ≡ some (n, v) → ber_length_dec_try buf ≡ some n
unfolding ber_length_dec ber_length_dec_try
ber_length_dec_try-ber_length_dec [] e = cc
ber_length_dec_try-ber_length_dec (b ∷ bs) e = ground arith
