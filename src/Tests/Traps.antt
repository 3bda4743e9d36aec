-- ===== src/Tests/Traps.antt =====
-- The theorems on traps at concrete inputs.
use smithsnmp.Base.{◌≡◌, refl, arith, ℕ, List, [], ◌∷◌, some}
use smithsnmp.Ber.Value.{ber_value_enc}
use smithsnmp.Ber.Int.{ber_int_enc}
use smithsnmp.Mib.Instance.{Variable}
use smithsnmp.Snmp.Message.{decoded}
use smithsnmp.Snmp.Decode.{snmp_decode}
use smithsnmp.Snmp.Encode.Body.{list_length}
use smithsnmp.Snmp.Encode.Parts.{received_message}
use smithsnmp.Snmp.Trap.{
  TrapDatagram, trap_v2, no_trap, add_varbind, snmp_trap_varbind, snmp_trap_send,
}
use smithsnmp.Snmp.Trap.Sent.{
  IsReady, trap_message, snmp_decode-snmp_trap_send, snmp_trap_varbind-IsReady, add_varbind-IsReady,
}
use smithsnmp.Tests.Messages.{some_crypto}

no_trap-IsReady : IsReady no_trap
unfolding list_length
no_trap-IsReady = record {
  cleared = (refl, refl, refl);
  lens = (omega arith, omega arith);
  bindings = tt;
  list_len = (refl, omega arith);
}

-- The integer 7.
abbrev seven_var : Variable
seven_var = record { tag = 2; len = 1; value = 7 ∷ 0 ∷ 0 ∷ 0 ∷ [] }

snmp_trap_varbind-IsReady_example :
    (after : TrapDatagram) × (snmp_trap_varbind (1 ∷ 3 ∷ 5 ∷ []) seven_var no_trap ≡ some after)
    × IsReady after
unfolding ber_value_enc ber_int_enc
snmp_trap_varbind-IsReady_example =
    snmp_trap_varbind-IsReady no_trap (1 ∷ 3 ∷ 5 ∷ []) seven_var no_trap-IsReady
      (omega arith, omega arith, (omega arith, tt)) (omega arith, (omega arith, (omega arith, tt)))
      (omega arith) (omega arith) (omega arith) (λ e. omega arith) (omega arith) (omega arith)

abbrev trapped : TrapDatagram
trapped = add_varbind (1 ∷ 3 ∷ 5 ∷ []) 2 (7 ∷ []) no_trap

trapped-IsReady : IsReady trapped
trapped-IsReady =
    add_varbind-IsReady no_trap (1 ∷ 3 ∷ 5 ∷ []) 2 (7 ∷ []) no_trap-IsReady
      (omega arith, omega arith, (omega arith, tt)) (omega arith, (omega arith, (omega arith, tt)))
      (omega arith) (omega arith) (omega arith)

snmp_decode-snmp_trap_send_example :
    (bytes : List ℕ) × (after : TrapDatagram) × (snmp_trap_send trap_v2 (112 ∷ []) 300 trapped
      ≡ some (bytes, after))
    × (snmp_decode some_crypto [] bytes
        ≡ decoded (received_message [] (trap_message trapped (112 ∷ []) 300)))
    × IsReady after
snmp_decode-snmp_trap_send_example =
    snmp_decode-snmp_trap_send trapped (112 ∷ []) 300 trapped-IsReady (omega arith) (omega arith)
      some_crypto []
