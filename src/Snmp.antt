-- ===== src/Snmp.antt =====
-- SNMP requests: their messages, core/snmp_msg_in.c and core/snmp_msg_out.c, and their processing,
-- core/snmp_msg_proc.c.
pub mod Access
pub mod Decode
pub mod Encode
pub mod Message
pub mod Recv
pub mod Trap
pub mod Request
