-- ===== src/Tests/Messages.antt =====
-- A request as a message, and the theorems on messages at it.
use smithsnmp.Base.{ℕ, ◌≡◌, refl, arith, some, [], ◌∷◌, length, inl}
use smithsnmp.Ber.Value.{ber_value_enc, value_size}
use smithsnmp.Ber.Int.{ber_int_enc}
use smithsnmp.Ber.Oid.{oid_size}
use smithsnmp.Ber.Length.{ber_length_enc_try}
use smithsnmp.Snmp.Request.{VarBind, vb_length}
use smithsnmp.Snmp.Message.{Number, decoded, unsecured}
use smithsnmp.Snmp.Message.Fields.{IsNumber}
use smithsnmp.Snmp.Decode.{snmp_decode}
use smithsnmp.Snmp.Decode.Security.{Crypto}
use smithsnmp.Snmp.Encode.{Response, tlv_len, data_len, snmp_response}
use smithsnmp.Snmp.Encode.Body.{IsBinding, list_length}
use smithsnmp.Snmp.Encode.Right.{IsResponse}
use smithsnmp.Snmp.Encode.Lengths.{snmp_response-length}
use smithsnmp.Snmp.Decode.Pdu.{var_binds}
use smithsnmp.Snmp.Decode.Rounds.{var_binds-enough}
use smithsnmp.Snmp.Recv.{snmp_request_dispatch, snmp_recv}
use smithsnmp.Snmp.Recv.Passes.{snmp_recv-snmp_response}
use smithsnmp.Snmp.Recv.Replies.{Replies}
use smithsnmp.Tests.Requests.{counting_lua, small_tree, both_community}
use smithsnmp.Snmp.Encode.RoundTrip.{snmp_decode-snmp_response}
use smithsnmp.Snmp.Encode.Parts.{received_message}

abbrev byte_number : ℕ → Number
byte_number v = record { len = 1; value = v }

abbrev one_binding : VarBind
one_binding = record { oid = 1 ∷ 3 ∷ 0 ∷ []; vb_len = 6; value_type = 5; value = [] }

-- A GET request of version 1 with the community p.
abbrev get_request : Response
get_request = record {
  version = byte_number 0;
  global_data = unsecured.global_data;
  security = unsecured.security;
  context_name = record { len = 1; value = 112 ∷ [] };
  pdu_hdr = record {
    pdu_type = 0xA0;
    req_id = byte_number 7;
    err_stat = byte_number 0;
    err_idx = byte_number 0;
  };
  vb_list_len = 8;
  vb_out_list = one_binding ∷ [];
}

one_binding-IsBinding : IsBinding one_binding
unfolding vb_length value_size ber_length_enc_try oid_size
one_binding-IsBinding = (omega arith, omega arith, omega arith, omega arith, refl)

seven : IsNumber (byte_number 7)
unfolding ber_value_enc ber_int_enc
seven = (omega arith, refl, omega arith)

nought : IsNumber (byte_number 0)
unfolding ber_value_enc ber_int_enc
nought = (omega arith, refl, omega arith)

get_request-IsResponse : IsResponse get_request
unfolding list_length tlv_len ber_length_enc_try
get_request-IsResponse = record {
  version = nought;
  context_name = (refl, omega arith, omega arith);
  pdu_hdr = (seven, nought, nought);
  bindings = (one_binding-IsBinding, tt);
  list_len = (refl, omega arith);
  secured = inl refl;
}

-- A code of twenty bytes 9 for every message.
abbrev pub some_crypto : Crypto
some_crypto = record {
  hmac = λ user m.
      some (9 ∷ 9 ∷ 9 ∷ 9 ∷ 9 ∷ 9 ∷ 9 ∷ 9 ∷ 9 ∷ 9 ∷ 9 ∷ 9 ∷ 9 ∷ 9 ∷ 9 ∷ 9 ∷ 9 ∷ 9 ∷ 9 ∷ 9 ∷ []);
  aes_decrypt = λ user iv cipher. some cipher;
}

snmp_decode-snmp_response_example :
    snmp_decode some_crypto [] (snmp_response get_request)
    ≡ decoded (received_message [] get_request)
snmp_decode-snmp_response_example =
    snmp_decode-snmp_response some_crypto [] get_request get_request-IsResponse

snmp_response-length_example : length (snmp_response get_request) ≡ tlv_len (data_len get_request)
snmp_response-length_example = snmp_response-length get_request get_request-IsResponse

snmp_recv-snmp_response_example :
    snmp_recv counting_lua small_tree 20 2
      (both_community ∷ [])
      some_crypto
      []
      (snmp_response get_request)
      0
    ≡ snmp_request_dispatch counting_lua small_tree 20 2
        (both_community ∷ [])
        (received_message [] get_request)
        0
snmp_recv-snmp_response_example =
    snmp_recv-snmp_response counting_lua small_tree 20 2 (both_community ∷ []) some_crypto []
      get_request 0 get_request-IsResponse

-- Three bindings are announced, and the second one is no binding.
var_binds-enough_example : var_binds 3 9 (0x30 ∷ 0 ∷ 5 ∷ []) ≡ var_binds 8 9 (0x30 ∷ 0 ∷ 5 ∷ [])
var_binds-enough_example = var_binds-enough 3 8 9 (0x30 ∷ 0 ∷ 5 ∷ []) (omega arith) (omega arith)
