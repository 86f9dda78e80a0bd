-- ===== src/Stun/Binding/Exchange.antt =====
-- A whole Binding exchange of pkg/stun/binding.go, from the client's request to the address it learns.
use pig.Base.{
  ℕ, ◌+◌, ◌^◌, ◌<◌, ◌≤◌, ◌≡◌, refl, ap, ap₂, ◌∙◌, ◌⊎◌, Bool, true, false, Option, some, List, [],
  ◌∷◌, ◌++◌, length, arith,
}
use pig.Stun.Header.{new_header, calculate_padding}
use pig.Stun.MessageType.{
  validate_method_and_class, is_error_response_type, is_success_response_type,
}
use pig.Stun.Attribute.{
  Attribute, username_attr, xor_mapped_address_attr, get_type, serialize_attrs, attr_serialize_len,
  attr_serialized_size, value_bytes,
}
use pig.Stun.Attribute.Wire.{AreWritable}
use pig.Stun.Attribute.Address.{
  NetAddr, udp_addr, created, new_xor_mapped_address_attr, decode_xor_mapped_address,
}
use pig.Stun.Attribute.Address.RoundTrip.{canonical, new_xor_mapped_address_attr-decode}
use pig.Stun.Message.{Message, message, decode_message, new_message_with_transaction_id}
use pig.Stun.Message.Order.{rank}
use pig.Stun.Message.WellFormed.{message_of, length-serialize_attrs_end}
use pig.Stun.Message.Fingerprint.{added}
use pig.Stun.Message.Integrity.{Keyed, is_empty, bytes_equal}
use pig.Stun.Message.Integrity.Sign.{IsSha1Sized}
use pig.Stun.Message.Delivery.{bytes_equal_refl, AreWritable-append, new_header-InRange}
use pig.Stun.Message.Query.{AuthConfig, mapped, mapped_addr_port}
use pig.Stun.Binding.{
  IceConfig, BindingOptions, option_attributes, built, finish, build_binding_request, write_to,
  validate, is_valid, respond, process_binding_request, result, result_of, process_binding_response,
}
use pig.Stun.Binding.Free.{AllFree}
use pig.Stun.Binding.Sealed.{
  signed_attrs, sealed, write_to-sealed, decode_message-sealed, all_valid,
}
use pig.Stun.Binding.Options.{
  AuthFits, IceFits, further, further-ArePlain, options, option_attributes-further, finish-signed,
  mapped_addr_port-sealed, ArePlain-AllFree, ArePlain-AreWritable, ArePlain-Lacks,
}

-- What both sides bring: sums of 20 bytes and checksums of 32 bits, a username and a password that are
-- not empty, and attributes that leave room in a message.
pub record IsReady (k : Keyed) (crc : List ℕ → ℕ) (a : AuthConfig) (ice : Option IceConfig)
    : Type 0 where
  pub sized : IsSha1Sized k
  pub crc32 : (b : List ℕ) → crc b < 2 ^ 32
  pub auth_fits : AuthFits a
  pub ice_fits : IceFits ice
  pub named : is_empty a.username ≡ false
  pub allowed : is_empty (k.opaque_string a.username) ≡ false
  pub has_password : is_empty a.password ≡ false
  pub small : length (serialize_attrs (username_attr a.username ∷ further a ice)) + 56 < 2 ^ 16

process_binding_request-response :
    (k : Keyed) (crc : List ℕ → ℕ) (request : Message) (remote : NetAddr) (o : BindingOptions)
    (x : Attribute)
    → is_valid (validate_method_and_class request.header.msg_type 1 (0 ∷ [])) ≡ true
    → validate k crc request (some o) ≡ true
    → new_xor_mapped_address_attr remote request.header.transaction_id ≡ created x
    → process_binding_request k crc request remote (some o) (some o)
      ≡ finish k (some o) (
          new_message_with_transaction_id 0x0101
            (option_attributes (some o) ++ (x ∷ []))
            request.header.transaction_id)
unfolding process_binding_request
process_binding_request-response k crc request remote o x t v c =
    rw (t, v, process_binding_request) (ap (respond k (some o) request.header.transaction_id) c)

process_binding_response-result :
    (k : Keyed) (crc : List ℕ → ℕ) (response : Message) (tx_id : List ℕ) (o : BindingOptions)
    → validate k crc response (some o) ≡ true
    → bytes_equal response.header.transaction_id tx_id ≡ true
    → is_valid (validate_method_and_class response.header.msg_type 1 (2 ∷ 3 ∷ [])) ≡ true
    → is_error_response_type response.header.msg_type ≡ false
    → is_success_response_type response.header.msg_type ≡ true
    → process_binding_response k crc response tx_id (some o) ≡ result_of (mapped_addr_port response)
unfolding process_binding_response
process_binding_response-result k crc response tx_id o v b t e s =
    rw (v, b, t, e, s, process_binding_response) refl

module _ (k : Keyed) (crc : List ℕ → ℕ) (a : AuthConfig) (ice : Option IceConfig) (flag : Bool)
    (tx_id : List ℕ) where
  -- A message of the given type with the credentials, as its receiver decodes it.
  abbrev received : ℕ → List Attribute → Message
  received msg_type rest =
      message_of (new_header msg_type tx_id)
        (sealed k crc (new_header msg_type tx_id) a.username rest a.password flag) false

  validate-received :
      (msg_type : ℕ) (rest : List Attribute)
      → IsReady k crc a ice
      → length tx_id ≡ 12
      → msg_type < 2 ^ 14
      → AllFree (username_attr a.username ∷ rest)
      → AreWritable (username_attr a.username ∷ rest)
      → length (serialize_attrs (username_attr a.username ∷ rest)) + 32 < 2 ^ 16
      → validate k crc (received msg_type rest) (some (options a ice flag)) ≡ true
  unfolding validate
  validate-received msg_type rest r n t f w l =
      let h = new_header msg_type tx_id in
      all_valid k crc h a.username rest a.password flag r.sized r.crc32
        (new_header-InRange msg_type tx_id (omega arith) n) (unfold new_header in t)
        (unfold new_header in refl) r.has_password r.allowed f w l

  -- One way: a message is finished, sent and decoded.
  leg :
      (msg_type : ℕ) (rest : List Attribute) (beyond : List ℕ)
      → IsReady k crc a ice
      → length tx_id ≡ 12
      → msg_type < 2 ^ 14
      → AllFree (username_attr a.username ∷ rest)
      → AreWritable (username_attr a.username ∷ rest)
      → length (serialize_attrs (username_attr a.username ∷ rest)) + 32 < 2 ^ 16
      → let h = new_header msg_type tx_id in
        let sent = message_of h (sealed k crc h a.username rest a.password flag) flag in
        let request = message_of h (signed_attrs k crc h a.username rest a.password) flag in
        (finish k
            (some (options a ice flag))
            (new_message_with_transaction_id msg_type (username_attr a.username ∷ rest) tx_id)
          ≡ built request)
        × (write_to crc request ≡ added sent)
        × (decode_message sent.raw beyond ≡ some (message (received msg_type rest)))
  leg msg_type rest beyond r n t f w l =
      let h = new_header msg_type tx_id in
      (
        finish-signed k crc a ice flag msg_type rest tx_id r.sized n r.has_password f w,
        write_to-sealed k crc h a.username rest a.password flag f,
        decode_message-sealed k crc h a.username rest a.password flag beyond r.sized r.crc32
            (new_header-InRange msg_type tx_id (omega arith) n) w l,
      )

AllFree-append :
    (xs : List Attribute) (x : Attribute)
    → AllFree xs
    → rank (get_type x) ≡ 0
    → AllFree (xs ++ (x ∷ []))
AllFree-append [] x f e = (e, tt)
AllFree-append (y ∷ xs) x f e = (f.0, AllFree-append xs x f.1 e)

xor_fits :
    (v : List ℕ)
    → (length v ≡ 8) ⊎ (length v ≡ 20)
    → length (value_bytes (xor_mapped_address_attr v)) < 65536
unfolding value_bytes
xor_fits v h = ground arith

xor_serialize_len :
    (v : List ℕ)
    → (length v ≡ 8) ⊎ (length v ≡ 20)
    → attr_serialize_len (xor_mapped_address_attr v) ≤ 24
unfolding attr_serialize_len attr_serialized_size value_bytes calculate_padding
xor_serialize_len v h = ground arith

-- The types of the two messages.
request_type :
    (tx_id : List ℕ)
    → is_valid (validate_method_and_class (new_header 0x0001 tx_id).msg_type 1 (0 ∷ [])) ≡ true
unfolding new_header validate_method_and_class
request_type tx_id = refl

response_type :
    (tx_id : List ℕ)
    → (is_valid (validate_method_and_class (new_header 0x0101 tx_id).msg_type 1 (2 ∷ 3 ∷ []))
        ≡ true)
      × (is_error_response_type (new_header 0x0101 tx_id).msg_type ≡ false)
      × (is_success_response_type (new_header 0x0101 tx_id).msg_type ≡ true)
unfolding new_header validate_method_and_class is_error_response_type is_success_response_type
response_type tx_id = (refl, refl, refl)

-- A Binding exchange with credentials, on both sides the same, with or without fingerprints and with any
-- ICE attributes: the request is built, sent, decoded and answered, the response is sent, decoded and
-- processed, and the client's result is the address and port that the server saw.
pub binding_exchange_completes :
    (k : Keyed) (crc : List ℕ → ℕ) (a : AuthConfig) (ice : Option IceConfig) (flag : Bool)
    (tx_id ip : List ℕ) (port : ℕ) (beyond : List ℕ)
    → IsReady k crc a ice
    → length tx_id ≡ 12
    → (length ip ≡ 4) ⊎ (length ip ≡ 16)
    → port < 2 ^ 16
    → (request sent arrived response answer reply : Message) × (build_binding_request k
          (some (options a ice flag))
          tx_id
        ≡ built request)
      × (write_to crc request ≡ added sent)
      × (decode_message sent.raw beyond ≡ some (message arrived))
      × (process_binding_request k crc arrived
            (udp_addr (some ip) port)
            (some (options a ice flag))
            (some (options a ice flag))
          ≡ built response)
      × (write_to crc response ≡ added answer)
      × (decode_message answer.raw beyond ≡ some (message reply))
      × (process_binding_response k crc reply tx_id (some (options a ice flag))
          ≡ result (canonical ip) port)
unfolding build_binding_request
binding_exchange_completes k crc a ice flag tx_id ip port beyond r n i p =
    let o = options a ice flag in
    let rest = further a ice in
    let name = username_attr a.username in
    let plain = further-ArePlain a ice r.auth_fits r.ice_fits in
    let f = ArePlain-AllFree (name ∷ rest) plain in
    let w = ArePlain-AreWritable (name ∷ rest) plain in
    let e = option_attributes-further a ice flag r.named in
    let (v, c, wv, d) = new_xor_mapped_address_attr-decode ip port tx_id i p n in
    let x = xor_mapped_address_attr v in
    let rest2 = rest ++ (x ∷ []) in
    let f2 = AllFree-append (name ∷ rest) x f (unfold get_type in refl) in
    let w2 = AreWritable-append (name ∷ rest) x w wv in
    let l : length (serialize_attrs (name ∷ rest)) + 32 < 2 ^ 16 = omega (arith, r.small) in
    let l2 : length (serialize_attrs (name ∷ rest2)) + 32 < 2 ^ 16 = omega (
      arith,
      r.small,
      length-serialize_attrs_end (name ∷ rest) x (xor_fits v wv),
      xor_serialize_len v wv,
    ) in
    let h1 = new_header 0x0001 tx_id in
    let h2 = new_header 0x0101 tx_id in
    let id1 : h1.transaction_id ≡ tx_id = unfold new_header in refl in
    let id2 : h2.transaction_id ≡ tx_id = unfold new_header in refl in
    let (b1, s1, d1) = leg k crc a ice flag tx_id 0x0001 rest beyond r n (omega arith) f w l in
    let (b2, s2, d2) = leg k crc a ice flag tx_id 0x0101 rest2 beyond r n (omega arith) f2 w2 l2 in
    let (t, er, su) = response_type tx_id in
    (
      message_of h1 (signed_attrs k crc h1 a.username rest a.password) flag,
      message_of h1 (sealed k crc h1 a.username rest a.password flag) flag,
      received k crc a ice flag tx_id 0x0001 rest,
      message_of h2 (signed_attrs k crc h2 a.username rest2 a.password) flag,
      message_of h2 (sealed k crc h2 a.username rest2 a.password flag) flag,
      received k crc a ice flag tx_id 0x0101 rest2,
      ap (λ at. finish k (some o) (new_message_with_transaction_id 0x0001 at tx_id)) e ∙ b1,
      s1,
      d1,
      process_binding_request-response k crc (received k crc a ice flag tx_id 0x0001 rest)
            (udp_addr (some ip) port) o x (request_type tx_id)
            (validate-received k crc a ice flag tx_id 0x0001 rest r n (omega arith) f w l)
            (ap (new_xor_mapped_address_attr (udp_addr (some ip) port)) id1 ∙ c)
          ∙ ap₂
              (λ at id.
                finish k (some o) (new_message_with_transaction_id 0x0101 (at ++ (x ∷ [])) id))
              e id1
          ∙ b2,
      s2,
      d2,
      process_binding_response-result k crc (received k crc a ice flag tx_id 0x0101 rest2) tx_id o
            (validate-received k crc a ice flag tx_id 0x0101 rest2 r n (omega arith) f2 w2 l2)
            (ap (λ id. bytes_equal id tx_id) id2 ∙ bytes_equal_refl tx_id) t er su
          ∙ ap result_of (
              mapped_addr_port-sealed k crc h2 a.username rest v a.password flag
                (ArePlain-Lacks (name ∷ rest) plain)
              ∙ ap mapped (ap (decode_xor_mapped_address v) id2 ∙ d)),
    )
