-- ===== src/Stun/Binding.antt =====
-- The Binding exchange of pkg/stun/binding.go, with `Validate` and `WriteTo` of pkg/stun/message.go. The
-- transaction identifier that `NewMessage` draws at random is an argument.
pub mod Free
pub mod Sealed
pub mod Options
pub mod Exchange
mod Tests
use pig.Base.{
  ℕ, ◌+◌, Bool, true, false, not, ◌&&◌, ◌||◌, Option, none, some, List, [], ◌∷◌, ◌++◌, ◌==◌, ltb,
  if◌then◌else◌,
}
use pig.Stun.Header
use pig.Stun.MessageType.{
  Validation, valid, invalid, validate_method_and_class, is_error_response_type,
  is_success_response_type,
}
use pig.Stun.Attribute.{
  Attribute, username_attr, realm_attr, nonce_attr, ice_use_candidate_attr, ice_controlling_attr,
  ice_controlled_attr, ice_priority_attr,
}
use pig.Stun.Attribute.Address.{
  NetAddr, Created, created, bad_address, create_panics, new_xor_mapped_address_attr, AddrPort,
  addr_port, addr_panics, value_too_short, unsupported_family,
}
use pig.Stun.Message.{Message, new_message_with_transaction_id}
use pig.Stun.Message.Fingerprint.{Added, added, add_fingerprint, verify_fingerprint}
use pig.Stun.Message.Integrity.{
  Keyed, is_empty, bytes_equal, Signed, signed, sign_error, sign_panics, add_message_integrity,
  validate_short_term_integrity,
}
use pig.Stun.Message.Query.{AuthConfig, Mapped, mapped, not_found, mapped_addr_port, parse_error}

pub record IceConfig : Type 0 where
  pub priority : ℕ
  pub use_candidate : Bool
  pub ice_controlling : ℕ
  pub ice_controlled : ℕ

pub record BindingOptions : Type 0 where
  pub auth : Option AuthConfig
  pub ice : Option IceConfig
  pub require_fingerprint : Bool

-- One `append` under its test.
abbrev pub when : Bool → Attribute → List Attribute
when true a = a ∷ []
when false a = []

abbrev pub optional_strings : AuthConfig → List Attribute
optional_strings a =
    when (not (is_empty a.realm)) (realm_attr a.realm)
    ++ when (not (is_empty a.nonce)) (nonce_attr a.nonce)

abbrev pub build_auth_attributes : Option AuthConfig → List Attribute
build_auth_attributes none = []
build_auth_attributes (some a) =
    when (not (is_empty a.username)) (username_attr a.username) ++ optional_strings a

abbrev pub build_ice_attributes : Option IceConfig → List Attribute
build_ice_attributes none = []
build_ice_attributes (some i) =
    when i.use_candidate ice_use_candidate_attr
    ++ (when (ltb 0 i.ice_controlling) (ice_controlling_attr i.ice_controlling)
        ++ (when (ltb 0 i.ice_controlled) (ice_controlled_attr i.ice_controlled)
            ++ when (ltb 0 i.priority) (ice_priority_attr i.priority)))

abbrev pub option_attributes : Option BindingOptions → List Attribute
option_attributes none = []
option_attributes (some o) = build_auth_attributes o.auth ++ build_ice_attributes o.ice

pub data Built : Type 0 where
  built : Message → Built
  build_error : Built
  build_panics : Built

abbrev pub built_of : Signed → Built
built_of (signed msg) = built msg
built_of sign_error = build_error
built_of sign_panics = build_panics

abbrev pub sign_with : Keyed → Option AuthConfig → Message → Built
sign_with k none msg = built msg
sign_with k (some a) msg =
    if is_empty a.password
    then built msg
    else built_of (add_message_integrity k msg a.password 0x0008)

abbrev pub flagged : Bool → Built → Built
flagged false out = out
flagged true (built msg) = built (record msg { fingerprint = true })
flagged true build_error = build_error
flagged true build_panics = build_panics

-- The end of both builders: MESSAGE-INTEGRITY with a password, and the fingerprint flag.
abbrev pub finish : Keyed → Option BindingOptions → Option Message → Built
finish k opts none = build_error
finish k none (some msg) = built msg
finish k (some o) (some msg) = flagged o.require_fingerprint (sign_with k o.auth msg)

unfoldable pub build_binding_request : Keyed → Option BindingOptions → List ℕ → Built
unfolding new_message_with_transaction_id add_message_integrity
build_binding_request k opts tx_id =
    finish k opts (new_message_with_transaction_id 0x0001 (option_attributes opts) tx_id)

-- What `WriteTo` writes is the message's bytes.
unfoldable pub write_to : (List ℕ → ℕ) → Message → Added
unfolding add_fingerprint
write_to crc msg = if msg.fingerprint then add_fingerprint crc msg else added msg

abbrev pub is_none {ℓ} : {A : Type ℓ} → Option A → Bool
is_none none = true
is_none (some a) = false

abbrev pub auth_passes : Keyed → Message → Option AuthConfig → Bool
auth_passes k msg none = true
auth_passes k msg (some a) = validate_short_term_integrity k msg a.username a.password

-- Whether `Validate` returns nil.
unfoldable pub validate : Keyed → (List ℕ → ℕ) → Message → Option BindingOptions → Bool
validate k crc msg none = is_none (Header.validate msg.header)
validate k crc msg (some o) =
    is_none (Header.validate msg.header)
    && (auth_passes k msg o.auth && (not o.require_fingerprint || verify_fingerprint crc msg))

abbrev pub is_valid : Validation → Bool
is_valid valid = true
is_valid (invalid e) = false

abbrev pub respond : Keyed → Option BindingOptions → List ℕ → Created Attribute → Built
respond k opts tx_id (created a) =
    finish k opts
      (new_message_with_transaction_id 0x0101 (option_attributes opts ++ (a ∷ [])) tx_id)
respond k opts tx_id bad_address = build_error
respond k opts tx_id create_panics = build_panics

unfoldable pub process_binding_request :
    Keyed → (List ℕ → ℕ) → Message → NetAddr → Option BindingOptions → Option BindingOptions → Built
process_binding_request k crc request remote validate_opts opts =
    let tx_id = request.header.transaction_id in
    if not (is_valid (validate_method_and_class request.header.msg_type 1 (0 ∷ [])))
    then build_error
    else if not (validate k crc request validate_opts)
    then build_error
    else respond k opts tx_id (new_xor_mapped_address_attr remote tx_id)

-- The address and the port, the STUN error of the response, another error, or a panic.
pub data BindingResult : Type 0 where
  result : List ℕ → ℕ → BindingResult
  stun_error : ℕ → List ℕ → BindingResult
  binding_error : BindingResult
  binding_panics : BindingResult

abbrev pub result_of : Mapped → BindingResult
result_of (mapped (addr_port ip port)) = result ip port
result_of (mapped addr_panics) = binding_panics
result_of (mapped value_too_short) = binding_error
result_of (mapped unsupported_family) = binding_error
result_of not_found = binding_error

abbrev pub error_result : Option (ℕ × List ℕ) → BindingResult
error_result (some (code, reason)) = stun_error code reason
error_result none = binding_error

unfoldable pub process_binding_response :
    Keyed → (List ℕ → ℕ) → Message → List ℕ → Option BindingOptions → BindingResult
process_binding_response k crc response expected_tx_id validate_opts =
    if not (validate k crc response validate_opts)
    then binding_error
    else if not (bytes_equal response.header.transaction_id expected_tx_id)
    then binding_error
    else if not (is_valid (validate_method_and_class response.header.msg_type 1 (2 ∷ 3 ∷ [])))
    then binding_error
    else if is_error_response_type response.header.msg_type
    then error_result (parse_error response)
    else if is_success_response_type response.header.msg_type
    then result_of (mapped_addr_port response)
    else binding_error
