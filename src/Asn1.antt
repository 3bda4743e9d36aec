-- ===== src/Asn1.antt =====
-- The tags and sizes of core/asn1.h. A tag is the number that is sent.
use smithsnmp.Base.{ℕ, Bool, ltb}

abbrev pub asn1_tag_int : ℕ
asn1_tag_int = 0x02

abbrev pub asn1_tag_octstr : ℕ
asn1_tag_octstr = 0x04

abbrev pub asn1_tag_nul : ℕ
asn1_tag_nul = 0x05

abbrev pub asn1_tag_objid : ℕ
asn1_tag_objid = 0x06

abbrev pub asn1_tag_seq : ℕ
asn1_tag_seq = 0x30

abbrev pub asn1_tag_ipaddr : ℕ
asn1_tag_ipaddr = 0x40

abbrev pub asn1_tag_cnt : ℕ
asn1_tag_cnt = 0x41

abbrev pub asn1_tag_gau : ℕ
asn1_tag_gau = 0x42

abbrev pub asn1_tag_timeticks : ℕ
asn1_tag_timeticks = 0x43

abbrev pub asn1_tag_cnt64 : ℕ
asn1_tag_cnt64 = 0x46

abbrev pub asn1_tag_no_such_obj : ℕ
asn1_tag_no_such_obj = 0x80

abbrev pub asn1_tag_no_such_inst : ℕ
asn1_tag_no_such_inst = 0x81

abbrev pub asn1_tag_end_of_mib_view : ℕ
asn1_tag_end_of_mib_view = 0x82

abbrev pub asn1_oid_max_len : ℕ
asn1_oid_max_len = 64

abbrev pub asn1_value_max_len : ℕ
asn1_value_max_len = 1024

-- `ASN1_TAG_VALID`
abbrev pub asn1_tag_valid : ℕ → Bool
asn1_tag_valid tag = ltb tag asn1_tag_no_such_obj
