-- ===== src/Snmp/Recv/Replies.antt =====
-- The four requests are answered: `snmp_request_dispatch` (core/snmp_msg_in.c) with the functions of
-- core/snmp_msg_proc.c.
use smithsnmp.Base.{ℕ, ◌*◌, ◌%◌, ◌^◌, ◌≡◌, List, length, ◌⊎◌}
use smithsnmp.Mib.Instance.{snmp_req_get, snmp_req_getnext, snmp_req_set}
use smithsnmp.Snmp.Request.Answers.{IsExcessive, oids}
use smithsnmp.Snmp.Message.{Message}
use smithsnmp.Snmp.Recv.{
  Received, answered, ignored, overflowed, broken, endless, snmp_req_bulkget, snmp_resp,
}

-- The identifiers of an answer: those of the request, or one for each search that it asks for.
abbrev pub Wanted : Message → List (List ℕ) → Type 0
Wanted m os =
    ((m.pdu_hdr.pdu_type ≡ snmp_req_get) × (os ≡ oids m.vb_in_list))
    ⊎ ((m.pdu_hdr.pdu_type ≡ snmp_req_set) × (os ≡ oids m.vb_in_list))
    ⊎ ((m.pdu_hdr.pdu_type ≡ snmp_req_getnext) × (length os ≡ length m.vb_in_list))
    ⊎ ((m.pdu_hdr.pdu_type ≡ snmp_req_bulkget)
        × (length os ≡ (m.pdu_hdr.err_idx.value % 2 ^ 32) * length m.vb_in_list))

-- There is an answer of the type RESPONSE to the request identifier, to the sender of the request, with
-- the wanted identifiers; or the result of a search was excessive, or an assertion failed.
abbrev pub Replies {ℓ} : {S : Type ℓ} → Message → Received S → Type 0
Replies m (answered r st) =
    (r.pdu_hdr.pdu_type ≡ snmp_resp)
    × (r.pdu_hdr.req_id ≡ m.pdu_hdr.req_id)
    × (r.context_name ≡ m.context_name)
    × Wanted m (oids r.vb_out_list)
Replies m (ignored st) = ⊥
Replies m (overflowed res) = IsExcessive res
Replies m broken = Unit
Replies m endless = ⊥
