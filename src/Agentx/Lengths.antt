-- ===== src/Agentx/Lengths.antt =====
-- The lengths that core/agentx_msg_out.c computes before it writes a message.
use smithsnmp.Base.{
  ℕ, ◌+◌, ◌-◌, ◌*◌, ◌/◌, ◌%◌, ◌^◌, ◌≤◌, ◌<◌, bit_or, ◌≡◌, refl, arith, Bool, true, Option, none,
  some, List, [], ◌∷◌, ◌++◌, ◌==◌, ==_iff, ◌&&◌, if◌then◌else◌, leb, ltb, length, take, drop, le32,
  read32, All, read_words, Bool-cases, inl, inr, length-append, length-take, length-drop,
  length-read_words, zeros, length-zeros,
}
use smithsnmp.Asn1.{asn1_tag_objid, asn1_oid_max_len}
use smithsnmp.Agentx.{uint_sizeof}
use smithsnmp.Agentx.Sizes.{length-words}
use smithsnmp.Agentx.Message.{
  agentx_pdu_response, agentx_pdu_open, agentx_pdu_reg, agentx_pdu_unreg, agentx_pdu_close,
  agentx_pdu_ping, instance_registration, XVarBind, XPduHdr, AgentxDatagram,
}
use smithsnmp.Agentx.Encode.{
  objid_enc, octstr_enc, context_enc, context_room, data_enc, data_room, var_bind_enc,
  var_bind_room, list_enc, list_room, hdr_enc, agentx_response_pdu, agentx_register_pdu,
  agentx_unregister_pdu, region_pdu, agentx_close_pdu, agentx_ping_pdu, agentx_open_pdu,
  next_packet, XPduBuf, le16,
}

-- The number of bytes of a value is in its memory, and that of an identifier is a multiple of 4.
pub record IsMeasured (vb : XVarBind) : Type 0 where
  pub stored : vb.val_len ≤ length vb.value
  pub whole : (vb.val_type == asn1_tag_objid) ≡ true → vb.val_len % 4 ≡ 0

pub length-objid_enc : (oid : List ℕ) → length (objid_enc oid) ≡ 4 + (length oid - 5) * 4
unfolding objid_enc
length-objid_enc oid = omega (arith, length-words (drop 5 oid), length-drop 5 oid)

pub length-octstr_enc :
    (len : ℕ) (str : List ℕ) → length str ≤ len → length (octstr_enc len str) ≡ 4 + len
unfolding octstr_enc
length-octstr_enc len str h =
    omega (arith, length-append str (zeros (len - length str)), length-zeros (len - length str))

length-context_enc : (context : List ℕ) → length (context_enc context) ≡ context_room context
unfolding context_enc
length-context_enc context =
    ground (arith, length-octstr_enc (uint_sizeof (length context)) context (omega arith))

length-data_enc : (vb : XVarBind) → IsMeasured vb → length (data_enc vb) ≡ data_room vb
unfolding data_enc data_room
length-data_enc vb m = elim (Bool-cases (vb.val_type == asn1_tag_objid)) [
  | inl e ↦
      let t : vb.val_type ≡ asn1_tag_objid = (==_iff vb.val_type asn1_tag_objid).0 e in
      let oid = read_words vb.value (vb.val_len / 4) in
      let w = m.whole e in
      rw t (ground (arith, length-objid_enc oid, length-read_words vb.value (vb.val_len / 4)))
  | inr e ↦
      let pad = uint_sizeof vb.val_len - vb.val_len in
      let h = m.stored in
      ground (
        arith,
        length-append (take vb.val_len vb.value) (zeros pad),
        length-take vb.val_len vb.value,
        length-zeros pad,
      )
]

pub length-var_bind_enc :
    (vb : XVarBind) → IsMeasured vb → length (var_bind_enc vb) ≡ var_bind_room vb
unfolding var_bind_enc var_bind_room
length-var_bind_enc vb m = ground (
  arith,
  length-append (objid_enc vb.oid) (data_enc vb),
  length-objid_enc vb.oid,
  length-data_enc vb m,
)

pub length-list_enc :
    (vbs : List XVarBind) → All IsMeasured vbs → length (list_enc vbs) ≡ list_room vbs
unfolding list_enc list_room
length-list_enc [] m = refl
length-list_enc (vb ∷ vbs) m = omega (
  arith,
  length-append (var_bind_enc vb) (list_enc vbs),
  length-var_bind_enc vb m.0,
  length-list_enc vbs m.1,
)

-- The announced length is that of the bytes, and the payload is what is behind the header.
abbrev pub IsFramed : XPduBuf → Type 0
IsFramed p = (p.len ≡ length p.buf) × (read32 (drop 16 p.buf) ≡ length (drop 20 p.buf))

framed :
    (version type flags : ℕ) (hdr : XPduHdr) (rest : List ℕ) (len : ℕ)
    → 20 + length rest ≡ len
    → len < 2 ^ 32
    → IsFramed (record { buf = hdr_enc version type flags hdr len ++ rest; len = len })
unfolding hdr_enc
framed version type flags hdr rest len e h = (omega arith, omega arith)

-- `agentx_response_pdu` fills the buffer of the length that it computed before, and its header
-- announces the bytes behind the header, for bindings whose values have the announced bytes,
-- identifiers a multiple of 4, and together fewer than 2 ^ 32 - 28.
pub agentx_response_pdu-IsFramed :
    (xdg : AgentxDatagram)
    → All IsMeasured xdg.vb_out_list
    → list_room xdg.vb_out_list < 2 ^ 32 - 28
    → IsFramed (agentx_response_pdu xdg)
unfolding agentx_response_pdu
agentx_response_pdu-IsFramed xdg m h =
    framed xdg.pdu_hdr.version agentx_pdu_response xdg.pdu_hdr.flags xdg.pdu_hdr
      (le32 0 ++ (le16 xdg.response.error ++ (le16 xdg.response.index ++ list_enc xdg.vb_out_list)))
      (20 + 4 + 2 * 2 + list_room xdg.vb_out_list)
      (omega (arith, length-list_enc xdg.vb_out_list m)) (omega arith)

-- No assertion failed, and the message is framed.
abbrev pub AreFramed : Option (AgentxDatagram × XPduBuf) → Type 0
AreFramed none = ⊥
AreFramed (some (xdg, p)) = IsFramed p

if_framed :
    (guard : Bool) (r : AgentxDatagram × XPduBuf)
    → guard ≡ true
    → IsFramed r.1
    → AreFramed (if guard then some r else none)
if_framed guard r g h = rw g h

region_pdu-AreFramed :
    (type : ℕ) (xdg : AgentxDatagram) (oid context : List ℕ)
    (timeout priority range_subid upper_bound : ℕ)
    → 4 < length oid
    → length oid ≤ 59
    → length context < 40
    → AreFramed (region_pdu type xdg oid context timeout priority range_subid upper_bound)
unfolding region_pdu
region_pdu-AreFramed type xdg oid context timeout priority range_subid upper_bound long short name =
    let guard =
      ltb 4 (length oid) && leb (length oid + 5) asn1_oid_max_len && leb (length context) 40 in
    let hdr = (next_packet xdg).pdu_hdr in
    let upper : List ℕ = if range_subid == 0 then [] else le32 upper_bound in
    let upper_len : ℕ = if range_subid == 0 then 0 else 4 in
    let size : length upper ≡ upper_len = ground arith in
    let rest =
      context_enc context
      ++ ((timeout ∷ priority ∷ range_subid ∷ 0 ∷ []) ++ (objid_enc oid ++ upper)) in
    let len = 20 + context_room context + (4 + 4 + (length oid - 5) * 4) + upper_len in
    if_framed guard _ (ground arith) (
      framed hdr.version type (bit_or hdr.flags instance_registration) hdr rest len
        (omega (
          arith,
          size,
          length-append (context_enc context)
              ((timeout ∷ priority ∷ range_subid ∷ 0 ∷ []) ++ (objid_enc oid ++ upper)),
          length-context_enc context,
          length-append (objid_enc oid) upper,
          length-objid_enc oid,
        ))
        (ground arith))

open_pdu-AreFramed :
    (xdg : AgentxDatagram) (descr : List ℕ)
    → length descr < 2 ^ 31
    → AreFramed (agentx_open_pdu xdg [] descr)
unfolding agentx_open_pdu
open_pdu-AreFramed xdg descr h =
    let descr_len : ℕ = uint_sizeof (length descr) in
    framed 1 agentx_pdu_open 0 (record (xdg.pdu_hdr) { packet_id = 1 })
      (le32 0 ++ (objid_enc [] ++ octstr_enc descr_len descr)) (20 + 4 + 4 + 0 + (4 + descr_len))
      (omega (
        arith,
        length-append (objid_enc []) (octstr_enc descr_len descr),
        length-objid_enc [],
        length-octstr_enc descr_len descr (omega arith),
      ))
      (omega arith)

-- The OPEN message without an identifier and with a description below 2 ^ 31 bytes, the REGISTER
-- and UNREGISTER messages for an identifier of 5 to 59 numbers and a context of fewer than 40
-- bytes, the CLOSE message, and the PING message with such a context fill their buffers, and each
-- header announces the bytes behind it.
pub session_pdu-AreFramed :
    (xdg : AgentxDatagram) (oid context descr : List ℕ)
    (timeout priority range_subid upper_bound reason : ℕ)
    → 4 < length oid
    → length oid ≤ 59
    → length context < 40
    → length descr < 2 ^ 31
    → AreFramed (agentx_open_pdu xdg [] descr)
      × AreFramed (agentx_register_pdu xdg oid context timeout priority range_subid upper_bound)
      × AreFramed (agentx_unregister_pdu xdg oid context timeout priority range_subid upper_bound)
      × AreFramed (some (agentx_close_pdu xdg reason))
      × AreFramed (agentx_ping_pdu xdg context)
unfolding agentx_open_pdu agentx_register_pdu agentx_unregister_pdu agentx_close_pdu agentx_ping_pdu
session_pdu-AreFramed xdg oid context descr timeout priority range_subid upper reason l s n d =
    let hdr = (next_packet xdg).pdu_hdr in
    (
      open_pdu-AreFramed xdg descr d,
      region_pdu-AreFramed agentx_pdu_reg xdg oid context timeout priority range_subid upper l s n,
      region_pdu-AreFramed agentx_pdu_unreg xdg oid context 0 priority range_subid upper l s n,
      framed hdr.version agentx_pdu_close hdr.flags hdr (le32 reason) 24 refl (omega arith),
      if_framed (ltb (length context) 40) _ (ground arith) (
          framed hdr.version agentx_pdu_ping hdr.flags hdr (context_enc context)
            (20 + context_room context) (omega (arith, length-context_enc context)) (ground arith)),
    )
