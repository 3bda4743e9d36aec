-- ===== src/Ber.antt =====
-- The BER codec: core/snmp_encoder.c and core/snmp_decoder.c.
pub mod Int
pub mod Length
pub mod Oid
pub mod Value
