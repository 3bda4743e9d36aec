-- ===== src/Snmp/Recv/Passes.antt =====
-- A message as `snmp_response` (core/snmp_msg_out.c) writes it passes the checks of `snmp_recv`
-- (core/snmp_msg_in.c) and is dispatched.
use smithsnmp.Base.{
  ℕ, ◌+◌, ◌%◌, ◌^◌, ◌≡◌, refl, sym, ap, ◌∙◌, arith, true, List, ◌∷◌, ◌++◌, length, ◌==◌, ==_iff,
  IsWord,
}
use smithsnmp.Asn1.{asn1_tag_seq}
use smithsnmp.Ber.Length.{ber_length_enc}
use smithsnmp.Ber.Length.RoundTrip.{ber_length_dec-ber_length_enc, ber_length_enc_try-length}
use smithsnmp.Mib.Tree.{MibNode}
use smithsnmp.Mib.View.{MibCommunity}
use smithsnmp.Mib.User.{MibUser}
use smithsnmp.Mib.Instance.{Lua}
use smithsnmp.Snmp.Message.{put_header}
use smithsnmp.Snmp.Decode.{snmp_decode}
use smithsnmp.Snmp.Decode.Security.{Crypto}
use smithsnmp.Snmp.Encode.{Response, tlv_len, data_len, snmp_response}
use smithsnmp.Snmp.Encode.Right.{IsResponse}
use smithsnmp.Snmp.Encode.Lengths.{snmp_response-length}
use smithsnmp.Snmp.Encode.Sizes.{tlv_len_lem}
use smithsnmp.Snmp.Encode.RoundTrip.{snmp_decode-snmp_response, data_len-IsWord}
use smithsnmp.Snmp.Encode.Parts.{received_message}
use smithsnmp.Snmp.Recv.{snmp_request_dispatch, receive, snmp_recv}

response_shape :
    (r : Response)
    → (rest : List ℕ) × (snmp_response r ≡ asn1_tag_seq ∷ (ber_length_enc (data_len r) ++ rest))
unfolding snmp_response put_header
response_shape r = (_, refl)

module _ (lua : Lua) (root : MibNode) (f k : ℕ) (cs : List MibCommunity) (crypto : Crypto)
    (users : List MibUser) where
  -- The checks, for a message that announces its length.
  passes_checks :
      (rest : List ℕ) (len : ℕ) (st : lua.State)
      → IsWord len
      → length (asn1_tag_seq ∷ (ber_length_enc len ++ rest)) ≡ tlv_len len
      → snmp_recv lua root f k cs crypto users (asn1_tag_seq ∷ (ber_length_enc len ++ rest)) st
        ≡ receive lua root f k cs
            (snmp_decode crypto users (asn1_tag_seq ∷ (ber_length_enc len ++ rest)))
            st
  unfolding snmp_recv
  passes_checks rest len st w e =
      let n = ber_length_enc_try-length len w in
      let t = tlv_len_lem len in
      let same : ((1 + length (ber_length_enc len) + len) % 2 ^ 32
            == length (asn1_tag_seq ∷ (ber_length_enc len ++ rest)) % 2 ^ 32)
          ≡ true =
        (==_iff _ _).1 (omega arith) in
      rw (ber_length_dec-ber_length_enc len rest w, same) refl

  -- `snmp_recv` at what `snmp_response` wrote for a message of which the lengths are right, and
  -- which is neither to be authenticated nor to be encrypted, is the dispatch of the message as it
  -- is received: the checks of the tag and the length pass, and decoding succeeds.
  pub snmp_recv-snmp_response :
      (r : Response) (st : lua.State)
      → IsResponse r
      → snmp_recv lua root f k cs crypto users (snmp_response r) st
        ≡ snmp_request_dispatch lua root f k cs (received_message users r) st
  unfolding receive
  snmp_recv-snmp_response r st h =
      let (rest, q) = response_shape r in
      ap (λ t. snmp_recv lua root f k cs crypto users t st) q
      ∙ passes_checks rest (data_len r) st (data_len-IsWord r)
          (ap (λ t. length t) (sym q) ∙ snmp_response-length r h)
      ∙ ap (λ t. receive lua root f k cs (snmp_decode crypto users t) st) (sym q)
      ∙ ap (λ d. receive lua root f k cs d st) (snmp_decode-snmp_response crypto users r h)
