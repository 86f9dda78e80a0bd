-- ===== src/Stun/Tests.antt =====
-- Runs of pkg/stun at concrete inputs.
use pig.Base.{◌^◌, ◌<◌, ◌≡◌, refl, arith, replicate}
use pig.Stun.MessageType.{message_method, message_class, encode_message_type, encode-decode}
use pig.Stun.Header.{Header, InRange, new_header}

encode-decode_example :
    (message_method (encode_message_type 1 2) ≡ 1)
    × (message_class (encode_message_type 1 2) ≡ 2)
    × (encode_message_type 1 2 < 2 ^ 14)
encode-decode_example = encode-decode 1 2 (omega arith) (omega arith)

abbrev binding_request : Header
binding_request = new_header 1 (replicate 12 5)

binding_request-InRange : InRange binding_request
unfolding new_header
binding_request-InRange = record {
  type16 = omega arith;
  length16 = omega arith;
  cookie32 = omega arith;
  id12 = refl;
}
