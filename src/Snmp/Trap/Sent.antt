-- ===== src/Snmp/Trap/Sent.antt =====
-- What `snmp_trap_send` (core/snmp_trap.c) sends is read by `snmp_decode` (core/snmp_msg_in.c).
use smithsnmp.Base.{
  ℕ, zero, suc, ◌+◌, ◌^◌, ◌<◌, ◌≤◌, ◌≡◌, refl, sym, ap, ap₂, ◌-◌, ◌∙◌, arith, some, List, [], ◌∷◌,
  ◌++◌, length, All, All-append, IsWord, IsByte, read_words, length-read_words, le32, words, take,
  take-length, inl,
}
use smithsnmp.Asn1.{asn1_tag_objid, asn1_tag_seq, asn1_tag_int, asn1_value_max_len}
use smithsnmp.Ber.Int.{ber_int_enc_try, ber_int_enc}
use smithsnmp.Ber.Int.RoundTrip.{ber_int_enc_try-length}
use smithsnmp.Ber.Oid.RoundTrip.{IsOid}
use smithsnmp.Ber.Oid.{ber_oid_enc_try, oid_size}
use smithsnmp.Ber.Value.{value_size, ber_value_enc_try, ber_value_enc}
use smithsnmp.Ber.Value.RoundTrip.{read_word}
use smithsnmp.Ber.Value.Sizes.{value_size-objid, value_size-ber_value_enc}
use smithsnmp.Ber.Length.RoundTrip.{ber_length_enc_try-length}
use smithsnmp.Mib.Instance.{Variable}
use smithsnmp.Mib.User.{MibUser}
use smithsnmp.Snmp.Request.{encoded, VarBind, vb_length}
use smithsnmp.Snmp.Message.{put_header, put_int, put_octets, Number, decoded, unsecured}
use smithsnmp.Snmp.Message.Fields.{IsNumber}
use smithsnmp.Snmp.Decode.{snmp_decode}
use smithsnmp.Snmp.Decode.Security.{Crypto}
use smithsnmp.Snmp.Encode.{
  Response, bindings_encode, tlv_len, pdu_len, scope_len, data_len, pdu_encode, snmp_response,
}
use smithsnmp.Snmp.Encode.Body.{IsBinding, list_length}
use smithsnmp.Snmp.Encode.Right.{IsResponse}
use smithsnmp.Snmp.Encode.Lengths.{snmp_response-length}
use smithsnmp.Snmp.Encode.Sizes.{tlv_len-bounds}
use smithsnmp.Snmp.Encode.Parts.{received_message}
use smithsnmp.Snmp.Encode.RoundTrip.{snmp_decode-snmp_response}
use smithsnmp.Snmp.Trap.{
  TrapDatagram, trap_v2, snmp_trap_v2, trap_datagram_clear, add_varbind, snmp_trap_varbind,
  snmp_trapv2_header, with_lengths, trap_bytes, snmp_trap_encode, prepare, snmp_trap_send,
}

-- Between two traps: the sums start at 0, and the list is measured.
pub record IsReady (tdg : TrapDatagram) : Type 0 where
  pub cleared : (tdg.send_len ≡ 0) × (tdg.data_len ≡ 0) × (tdg.trap_hdr.pdu_len ≡ 0)
  pub lens : (tdg.trap_hdr.err_stat.len ≤ 1) × (tdg.trap_hdr.err_idx.len ≤ 1)
  pub bindings : All IsBinding tdg.vb_list
  pub list_len : (tdg.vb_list_len ≡ list_length tdg.vb_list) × (tdg.vb_list_len + 1024 < 2 ^ 32)

abbrev int_number : ℕ → Number
int_number v = record { len = value_size (le32 v) 1 asn1_tag_int; value = v }

int_number-IsNumber : (v : ℕ) → IsWord v → IsNumber (int_number v)
unfolding value_size ber_value_enc
int_number-IsNumber v h =
    let (e, l) = ber_int_enc_try-length v h in
    let r = read_word v h in
    (
      h,
      omega (arith, ap ber_int_enc_try r, ap (λ w. length (ber_int_enc w)) r),
      omega (arith, ap ber_int_enc_try r),
    )

-- The message of a trap as one that is answered.
abbrev pub trap_message : TrapDatagram → List ℕ → ℕ → Response
trap_message tdg community req_id = record {
  version = record { len = 1; value = 1 };
  global_data = unsecured.global_data;
  security = unsecured.security;
  context_name = record { len = length community; value = community };
  pdu_hdr = record {
    pdu_type = snmp_trap_v2;
    req_id = int_number req_id;
    err_stat = record { len = 1; value = 0 };
    err_idx = record { len = 1; value = 0 };
  };
  vb_list_len = tdg.vb_list_len;
  vb_out_list = tdg.vb_list;
}

small_number : (n : ℕ) → n ≤ 1 → value_size (le32 n) 1 asn1_tag_int ≡ 1
unfolding value_size ber_int_enc
small_number zero h = (ber_int_enc_try-length 0 (omega arith)).0
small_number (suc zero) h = (ber_int_enc_try-length 1 (omega arith)).0
small_number (suc (suc n)) h = absurd (omega arith)

number_short : (v : ℕ) → IsWord v → (int_number v).len ≤ 4
unfolding value_size
number_short v h = omega (arith, ber_int_enc_try-length v h, ap ber_int_enc_try (read_word v h))

-- The numbers 0 and 1, of one byte.
byte-IsNumber : (v : ℕ) → v ≤ 1 → IsNumber (record { len = 1; value = v })
byte-IsNumber v h =
    let (w, e, l) = int_number-IsNumber v (omega arith) in
    (w, sym (small_number v h) ∙ e, omega arith)

module _ (tdg : TrapDatagram) (community : List ℕ) (req_id : ℕ) (ready : IsReady tdg)
    (short : length community ≤ 40) (word : IsWord req_id) where
  message : Response
  message = trap_message tdg community req_id

  message-IsResponse : IsResponse message
  unfolding message
  message-IsResponse = record {
    version = byte-IsNumber 1 (omega arith);
    context_name = (refl, omega arith, omega arith);
    pdu_hdr = (
      int_number-IsNumber req_id word,
      byte-IsNumber 0 (omega arith),
      byte-IsNumber 0 (omega arith),
    );
    bindings = ready.bindings;
    list_len = ready.list_len;
    secured = inl refl;
  }

  prepared : TrapDatagram
  prepared = record tdg {
    version = record { len = 1; value = trap_v2 };
    community = record { len = length community; value = community };
    trap_hdr = record (tdg.trap_hdr) {
      pdu_type = snmp_trap_v2;
      req_id = int_number req_id;
      err_stat = record { len = 1; value = 0 };
      err_idx = record { len = 1; value = 0 };
    };
  }

  prepare_lem : prepare trap_v2 community req_id tdg ≡ prepared
  unfolding prepare prepared
  prepare_lem =
      rw
        (
          small_number tdg.trap_hdr.err_stat.len ready.lens.0,
          small_number tdg.trap_hdr.err_idx.len ready.lens.1,
        )
        refl

  sent_pdu_len : (with_lengths prepared).trap_hdr.pdu_len ≡ pdu_len message
  unfolding with_lengths prepared message pdu_len
  sent_pdu_len = let (a, b, c) = ready.cleared in omega arith

  sent_data_len : (with_lengths prepared).data_len ≡ data_len message
  unfolding with_lengths prepared message scope_len data_len
  sent_data_len = let (a, b, c) = ready.cleared in omega (arith, ap tlv_len sent_pdu_len)

  -- The message is short.
  data_len-short : data_len message < 2 ^ 32 - 6
  unfolding message pdu_len scope_len data_len
  data_len-short =
      let (e, l) = ready.list_len in
      let r = number_short req_id word in
      let m3 = tlv_len-bounds tdg.vb_list_len (omega arith) in
      let m4 = tlv_len-bounds (int_number req_id).len (omega arith) in
      let m1 = tlv_len-bounds 1 (omega arith) in
      let mc = tlv_len-bounds (length community) (omega arith) in
      let n : pdu_len message ≤ tdg.vb_list_len + 6 + 10 + 7 + 7 = omega arith in
      let mp = tlv_len-bounds (pdu_len message) (omega arith) in omega arith

  sent_send_len : (with_lengths prepared).send_len ≡ length (snmp_response message)
  unfolding with_lengths prepared
  sent_send_len =
      let (a, b, c) = ready.cleared in
      let m = tlv_len-bounds (data_len message) (omega (arith, data_len-short)) in
      omega (
        arith,
        ap tlv_len sent_data_len,
        snmp_response-length message message-IsResponse,
        data_len-short,
      )

  -- The bytes by the two lengths.
  framed : ℕ → ℕ → List ℕ
  framed whole pdu = put_header asn1_tag_seq whole (
      put_int message.version (
        put_octets message.context_name (
          put_header snmp_trap_v2 pdu (
            put_int message.pdu_hdr.req_id (
              put_int message.pdu_hdr.err_stat (
                put_int message.pdu_hdr.err_idx
                  (put_header asn1_tag_seq tdg.vb_list_len (bindings_encode tdg.vb_list))))))))

  sent_bytes : trap_bytes (with_lengths prepared) ≡ snmp_response message
  unfolding trap_bytes snmp_trapv2_header snmp_response pdu_encode message prepared with_lengths
      framed
  sent_bytes = ap₂ framed sent_data_len sent_pdu_len

  abbrev sent : TrapDatagram → List ℕ × TrapDatagram
  sent t = (take t.send_len (trap_bytes t), trap_datagram_clear t)

  sent_lem :
      snmp_trap_send trap_v2 community req_id tdg
      ≡ some (snmp_response message, trap_datagram_clear (with_lengths prepared))
  unfolding snmp_trap_send snmp_trap_encode
  sent_lem =
      ap (λ t. some (sent (with_lengths t))) prepare_lem
      ∙ ap (λ b. some (b, trap_datagram_clear (with_lengths prepared)))
          (ap₂ take sent_send_len sent_bytes ∙ take-length (snmp_response message))

  after-IsReady : IsReady (trap_datagram_clear (with_lengths prepared))
  unfolding with_lengths prepared list_length
  after-IsReady = record {
    cleared = (refl, refl, refl);
    lens = (omega arith, omega arith);
    bindings = tt;
    list_len = (refl, omega arith);
  }

  -- `snmp_trap_send`, from a datagram between two traps, with the version of TRAP_V2, a community
  -- of at most 40 bytes and a request identifier that is a word, sends a message that `snmp_decode`
  -- reads as a trap of SNMP version 2 with this community and identifier, no error, and the
  -- bindings of the datagram in order, and the datagram is between two traps again.
  pub snmp_decode-snmp_trap_send :
      (crypto : Crypto) (users : List MibUser)
      → (bytes : List ℕ) × (after : TrapDatagram) × (snmp_trap_send trap_v2 community req_id tdg
          ≡ some (bytes, after))
        × (snmp_decode crypto users bytes
            ≡ decoded (received_message users (trap_message tdg community req_id)))
        × IsReady after
  unfolding message
  snmp_decode-snmp_trap_send crypto users = (
    snmp_response message,
    trap_datagram_clear (with_lengths prepared),
    sent_lem,
    snmp_decode-snmp_response crypto users message message-IsResponse,
    after-IsReady,
  )

list_length-append : (a b : List VarBind) → list_length (a ++ b) ≡ list_length a + list_length b
unfolding list_length
list_length-append [] b = omega arith
list_length-append (vb ∷ a) b = omega (arith, list_length-append a b)

vb_length-short : (oid : List ℕ) (n : ℕ) → n ≤ asn1_value_max_len → vb_length oid n ≤ 1300
unfolding vb_length
vb_length-short oid n h =
    let o = value_size-objid (words oid) (length oid) in
    omega (
      arith,
      o,
      (ber_length_enc_try-length (value_size (words oid) (length oid) asn1_tag_objid)
          (omega arith)).1,
      (ber_length_enc_try-length n (omega arith)).1,
    )

-- A value in bytes, an object identifier of at most 52 numbers, is encoded into the memory of its size.
encoded_fits :
    (var : Variable)
    → All IsByte var.value
    → var.len ≤ length var.value
    → (var.tag ≡ asn1_tag_objid → var.len ≤ 52)
    → encoded (λ val_len. var.len) var ≡ some (ber_value_enc var.value var.len var.tag)
unfolding encoded ber_value_enc_try ber_oid_enc_try value_size
encoded_fits var bytes room o = ground (
  arith,
  o,
  value_size-ber_value_enc var.value var.len var.tag bytes room o,
  length-read_words var.value var.len,
)

sized :
    (oid : List ℕ)
    → length oid ≤ 52
    → (n : ℕ) × (ber_value_enc_try (words oid) (length oid) asn1_tag_objid ≡ some n)
unfolding ber_value_enc_try ber_oid_enc_try
sized oid h = (
  oid_size (read_words (words oid) (length oid)),
  ground (arith, length-read_words (words oid) (length oid)),
)

pub add_varbind-IsReady :
    (tdg : TrapDatagram) (oid : List ℕ) (type : ℕ) (value : List ℕ)
    → IsReady tdg
    → IsOid oid
    → All IsWord oid
    → length oid ≤ 52
    → length value ≤ asn1_value_max_len
    → tdg.vb_list_len + 3072 < 2 ^ 32
    → IsReady (add_varbind oid type value tdg)
unfolding add_varbind list_length
add_varbind-IsReady tdg oid type value ready i w l v room =
    let vb : VarBind = record {
      oid = oid;
      vb_len = vb_length oid (length value);
      value_type = type;
      value = value;
    } in
    let (e, h) = ready.list_len in
    let m = vb_length-short oid (length value) v in
    let more = tlv_len-bounds (vb_length oid (length value)) (omega arith) in
    let append = list_length-append tdg.vb_list (vb ∷ []) in
    record {
      cleared = ready.cleared;
      lens = ready.lens;
      bindings = All-append IsBinding tdg.vb_list _ ready.bindings ((i, w, l, v, refl), tt);
      list_len = (omega (arith, append, more), omega (arith, more));
    }

-- `snmp_trap_varbind` exceeds no memory and keeps the list of a trap measured: for an identifier
-- that can be encoded, of at most 52 numbers, a value of bytes, at least one for each element, of
-- at most 1024 encoded bytes and, if it is an object identifier, of at most 52 numbers, and room
-- for them in the length of the list.
pub snmp_trap_varbind-IsReady :
    (tdg : TrapDatagram) (oid : List ℕ) (var : Variable)
    → IsReady tdg
    → IsOid oid
    → All IsWord oid
    → length oid ≤ 52
    → All IsByte var.value
    → var.len ≤ length var.value
    → (var.tag ≡ asn1_tag_objid → var.len ≤ 52)
    → length (ber_value_enc var.value var.len var.tag) ≤ asn1_value_max_len
    → tdg.vb_list_len + 3072 < 2 ^ 32
    → (after : TrapDatagram) × (snmp_trap_varbind oid var tdg ≡ some after) × IsReady after
unfolding snmp_trap_varbind
snmp_trap_varbind-IsReady tdg oid var ready i w l bytes held o v room =
    let value = ber_value_enc var.value var.len var.tag in
    let (n, e) = sized oid l in
    (
      add_varbind oid var.tag value tdg,
      rw (snmp_trap_varbind, encoded_fits var bytes held o, e) refl,
      add_varbind-IsReady tdg oid var.tag value ready i w l v room,
    )
