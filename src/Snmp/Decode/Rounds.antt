-- ===== src/Snmp/Decode/Rounds.antt =====
-- The loop of `var_bind_parse` (core/snmp_msg_in.c) ends within as many rounds as there are bytes.
use smithsnmp.Base.{
  ℕ, zero, suc, ◌+◌, ◌-◌, ◌≤◌, ◌≡◌, refl, ap, arith, List, [], ◌∷◌, length, drop, length-drop, ◌==◌,
  Bool-cases, Option-cases, inl, inr,
}
use smithsnmp.Asn1.{asn1_tag_seq}
use smithsnmp.Ber.Length.{ber_length_dec}
use smithsnmp.Snmp.Request.{VarBind}
use smithsnmp.Parse.{less}
use smithsnmp.Snmp.Message.{
  SnmpErrCode, snmp_err_vb_seq, Decoded, decoded, rejected, overrun, ◌>>=◌, get_length, get_header,
}
use smithsnmp.Snmp.Decode.Pdu.{var_bind_alloc, var_binds}

-- At most `n` bytes are left.
abbrev Leaves : ℕ → Decoded (ℕ × List ℕ) → Type 0
Leaves n (decoded (len, rest)) = length rest ≤ n
Leaves n (rejected err) = Unit
Leaves n overrun = Unit

get_length-Leaves : (buf : List ℕ) → Leaves (length buf) (get_length buf)
unfolding get_length
get_length-Leaves buf = elim (Option-cases (ber_length_dec buf)) [
  | inl q ↦ rw (get_length, q) tt
  | inr (p, q) ↦ rw (get_length, q) (omega (arith, length-drop p.0 buf))
]

get_header-Leaves :
    (tag : ℕ) (err : SnmpErrCode) (b : ℕ) (buf : List ℕ)
    → Leaves (length buf) (get_header tag err (b ∷ buf))
unfolding get_header
get_header-Leaves tag err b buf = elim (Bool-cases (b == tag)) [
  | inl e ↦ rw e (get_length-Leaves buf)
  | inr e ↦ rw e tt
]

-- What a round does with a header, and the rest of the loop.
abbrev round :
    (ℕ → List ℕ → Decoded (List VarBind))
    → ℕ
    → List ℕ
    → Decoded (ℕ × List ℕ)
    → Decoded (List VarBind)
round next n buf header = header >>= λ (vb_len, behind). var_bind_alloc behind >>= λ vb.
    next (less n (length buf - length behind + vb_len)) (drop vb_len behind) >>= λ vbs.
    decoded (vb ∷ vbs)

round-same :
    (p q : ℕ → List ℕ → Decoded (List VarBind)) (n i : ℕ) (buf : List ℕ)
    (header : Decoded (ℕ × List ℕ))
    → Leaves i header
    → ((m : ℕ) (rest : List ℕ) → length rest ≤ i → p m rest ≡ q m rest)
    → round p n buf header ≡ round q n buf header
round-same p q n i buf (rejected err) h e = refl
round-same p q n i buf overrun h e = refl
round-same p q n i buf (decoded (vb_len, behind)) h e =
    ap
      (λ (d : Decoded (List VarBind)).
        var_bind_alloc behind >>= λ vb. d >>= λ vbs. decoded (vb ∷ vbs))
      (e (less n (length buf - length behind + vb_len)) (drop vb_len behind)
        (omega (arith, length-drop vb_len behind)))

-- The loop of var_bind_parse comes to the same result with any two numbers of rounds that are not
-- below the number of bytes left, so it ends within as many rounds as there are bytes, whatever the
-- lengths in the message.
pub var_binds-enough :
    (k j n : ℕ) (buf : List ℕ)
    → length buf ≤ k
    → length buf ≤ j
    → var_binds k n buf ≡ var_binds j n buf
unfolding var_binds get_header
var_binds-enough zero zero zero buf h l = refl
var_binds-enough zero (suc j) zero buf h l = refl
var_binds-enough (suc k) zero zero buf h l = refl
var_binds-enough (suc k) (suc j) zero buf h l = refl
var_binds-enough zero zero (suc n) buf h l = refl
var_binds-enough zero (suc j) (suc n) [] h l = refl
var_binds-enough (suc k) zero (suc n) [] h l = refl
var_binds-enough (suc k) (suc j) (suc n) [] h l = refl
var_binds-enough zero j (suc n) (b ∷ buf) h l = absurd (omega arith)
var_binds-enough (suc k) zero (suc n) (b ∷ buf) h l = absurd (omega arith)
var_binds-enough (suc k) (suc j) (suc n) (b ∷ buf) h l =
    round-same (var_binds k) (var_binds j) (suc n) (length buf) (b ∷ buf)
      (get_header asn1_tag_seq snmp_err_vb_seq (b ∷ buf))
      (get_header-Leaves asn1_tag_seq snmp_err_vb_seq b buf)
      (λ m rest e. var_binds-enough k j m rest (omega arith) (omega arith))
