-- ===== src/Snmp/Request/Encoded.antt =====
-- When the answers of core/snmp_msg_proc.c exceed no memory and find their sizes.
use smithsnmp.Base.{
  ℕ, ◌≤◌, ◌≡◌, ◌≢◌, refl, arith, true, false, none, some, List, length, leb, ◌==◌, All, IsByte,
  words, read32, read32-IsWord, read_words, length-read_words, length-take, Bool-cases,
  Option-cases, inl, inr, ◌⊎◌,
}
use smithsnmp.Asn1.{asn1_tag_objid}
use smithsnmp.Ber.Int.RoundTrip.{ber_int_enc_try-length, ber_uint_enc_try-length}
use smithsnmp.Ber.Oid.{ber_oid_enc_try}
use smithsnmp.Ber.Value.{is_octets, value_size, ber_value_enc_try, ber_value_enc}
use smithsnmp.Mib.Instance.{Variable}
use smithsnmp.Snmp.Request.{Datagram, encoded, measured, answer_get, answer_set}
use smithsnmp.Snmp.Request.Answers.{Adds, round_step}

-- The size holds the encoding of bytes but for object identifiers.
pub value_size_holds :
    (value : List ℕ) (len count type : ℕ)
    → All IsByte value
    → (type == asn1_tag_objid) ≡ false
    → (is_octets type ≡ true → count ≡ len)
    → length (ber_value_enc value count type) ≤ value_size value len type
unfolding ber_value_enc value_size
value_size_holds value len count type bytes o c = ground (
  arith,
  o,
  c,
  ber_int_enc_try-length (read32 value) (read32-IsWord value bytes),
  ber_uint_enc_try-length (read32 value) (read32-IsWord value bytes),
  length-take count value,
)

module _ (count : ℕ → ℕ) (var : Variable)
    (kept : is_octets var.tag ≡ true → count (value_size var.value var.len var.tag) ≡ var.len) where
  encoded_plain :
      All IsByte var.value → (var.tag == asn1_tag_objid) ≡ false → encoded count var ≢ none
  unfolding encoded ber_value_enc_try
  encoded_plain bytes o e =
      let h =
        value_size_holds var.value var.len (count (value_size var.value var.len var.tag)) var.tag
          bytes o kept in
      ground (arith, e, o, h)

  pub encoded-none : encoded count var ≡ none → All IsByte var.value → var.tag ≡ asn1_tag_objid
  encoded-none e bytes = elim (Bool-cases (var.tag == asn1_tag_objid)) [
    | inl o ↦ ground arith
    | inr o ↦ absurd (encoded_plain bytes o e)
  ]

pub measured_cases :
    (oid : List ℕ) (sdg : Datagram)
    → ((measured oid sdg ≡ none) × (256 ≤ length oid)) ⊎ (measured oid sdg ≡ some sdg)
unfolding measured ber_value_enc_try ber_oid_enc_try
measured_cases oid sdg =
    let n = length-read_words (words oid) (length oid) in
    elim (Bool-cases (leb 256 (length (read_words (words oid) (length oid))))) [
      | inl e ↦ inl (ground (arith, e), ground (arith, e, n))
      | inr e ↦ inr (ground (arith, e))
    ]

kept_octets :
    (var : Variable) → is_octets var.tag ≡ true → value_size var.value var.len var.tag ≡ var.len
unfolding value_size
kept_octets var o = ground (arith, o)

pub answer_get-Adds : Adds answer_get
unfolding answer_get round_step
answer_get-Adds n vb res sdg = elim (Option-cases (encoded (λ val_len. res.var.len) res.var)) [
  | inl e ↦ inl (
    rw (answer_get, e) refl,
    λ b. inl (encoded-none (λ val_len. res.var.len) res.var (λ o. refl) e b),
  )
  | inr (value, e) ↦
      elim (measured_cases res.oid (round_step n sdg res.oid res.var.tag res.err_stat value)) [
        | inl (m, l) ↦ inl (rw (answer_get, e, m) refl, λ b. inr l)
        | inr m ↦ inr (res.var.tag, res.err_stat, value, rw (answer_get, e, m) refl)
      ]
]

pub answer_set-Adds : Adds answer_set
unfolding answer_set round_step
answer_set-Adds n vb res sdg = elim (Option-cases (encoded (λ val_len. val_len) res.var)) [
  | inl e ↦ inl (
    rw (answer_set, e) refl,
    λ b. inl (encoded-none (λ val_len. val_len) res.var (kept_octets res.var) e b),
  )
  | inr (value, e) ↦
      elim (measured_cases res.oid (round_step n sdg res.oid vb.value_type res.err_stat value)) [
        | inl (m, l) ↦ inl (rw (answer_set, e, m) refl, λ b. inr l)
        | inr m ↦ inr (vb.value_type, res.err_stat, value, rw (answer_set, e, m) refl)
      ]
]
