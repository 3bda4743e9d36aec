-- ===== src/Tests/Codec.antt =====
-- Runs of the codec and its theorems at concrete inputs.
use smithsnmp.Base.{◌<◌, ◌≤◌, none, ℕ, ◌%◌, ◌≡◌, refl, arith, List, [], ◌∷◌, some, length, words}
use smithsnmp.Ber.Int.{ber_int_enc}
use smithsnmp.Agentx.{agentx_value_dec_try, agentx_value_dec}
use smithsnmp.Agentx.Sizes.{StoresAtMost, agentx_value_dec-StoresAtMost}
use smithsnmp.Ber.Length.{ber_length_enc, ber_length_dec}
use smithsnmp.Ber.Oid.{ber_oid_enc, ber_oid_enc_try}
use smithsnmp.Ber.Oid.Sizes.{ber_oid_enc_try-length}
use smithsnmp.Ber.Value.{ber_value_enc, ber_value_dec}
use smithsnmp.Ber.Value.RoundTrip.{ber_value_dec-ber_value_enc, Fits}

abbrev sys_descr : List ℕ
sys_descr = 1 ∷ 3 ∷ 6 ∷ 1 ∷ 2 ∷ 1 ∷ 300 ∷ []

int_300 : ber_int_enc 300 ≡ 1 ∷ 44 ∷ []
unfolding ber_int_enc
int_300 = refl

int_128 : ber_int_enc 128 ≡ 0 ∷ 128 ∷ []
unfolding ber_int_enc
int_128 = refl

-- A counter with its top bit set is sent as a negative number.
counter_max : ber_int_enc 0xffff_ffff ≡ 0xff ∷ []
unfolding ber_int_enc
counter_max = refl

oid_bytes : ber_oid_enc sys_descr ≡ 43 ∷ 6 ∷ 1 ∷ 2 ∷ 1 ∷ 130 ∷ 44 ∷ []
unfolding ber_oid_enc
oid_bytes = refl

length_200 : ber_length_enc 200 ≡ 0x81 ∷ 200 ∷ []
unfolding ber_length_enc
length_200 = refl

length_octets : ber_length_dec (0x82 ∷ 1 ∷ 0 ∷ 9 ∷ []) ≡ some (3, 256)
unfolding ber_length_dec
length_octets = refl

ber_oid_enc_try-length_example :
    (length sys_descr < 256
      → ber_oid_enc_try sys_descr ≡ some (length (ber_oid_enc sys_descr) % 256))
    × (256 ≤ length sys_descr → ber_oid_enc_try sys_descr ≡ none)
ber_oid_enc_try-length_example = ber_oid_enc_try-length sys_descr

ber_value_dec-ber_value_enc_example :
    ber_value_dec (ber_value_enc (words sys_descr) 7 6) 6 ≡ (7, words sys_descr)
ber_value_dec-ber_value_enc_example =
    ber_value_dec-ber_value_enc (Fits.objid sys_descr refl (omega arith))

-- The prefix 2 with one number: 1.3.6.1.2.1.
agentx_value_dec-StoresAtMost_example :
    StoresAtMost
      (agentx_value_dec_try (1 ∷ 2 ∷ 0 ∷ 0 ∷ 1 ∷ 0 ∷ 0 ∷ 0 ∷ []) 6)
      (agentx_value_dec (1 ∷ 2 ∷ 0 ∷ 0 ∷ 1 ∷ 0 ∷ 0 ∷ 0 ∷ []) 6)
agentx_value_dec-StoresAtMost_example =
    agentx_value_dec-StoresAtMost (1 ∷ 2 ∷ 0 ∷ 0 ∷ 1 ∷ 0 ∷ 0 ∷ 0 ∷ []) 6

agentx_prefix :
    agentx_value_dec (1 ∷ 2 ∷ 0 ∷ 0 ∷ 1 ∷ 0 ∷ 0 ∷ 0 ∷ []) 6
    ≡ some (6, words (1 ∷ 3 ∷ 6 ∷ 1 ∷ 2 ∷ 1 ∷ []), [])
unfolding agentx_value_dec
agentx_prefix = refl
