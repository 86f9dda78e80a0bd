-- ===== src/Stun/MessageType.antt =====
-- The message types of pkg/stun/stun.go: a 12-bit method and a 2-bit class, interleaved. A mask
-- followed by a shift is written as a quotient and a remainder, and the code's `|` joins bits that
-- do not overlap, so it adds them.
use pig.Base.{
  ℕ, ◌+◌, ◌*◌, ◌/◌, ◌%◌, ◌^◌, ◌<◌, ◌≡◌, refl, Bool, false, ◌||◌, List, [], ◌∷◌, ◌==◌, if◌then◌else◌,
  arith,
}

-- `(msgType & 0x3E00) >> 2 | (msgType & 0x00E0) >> 1 | msgType & 0x000F`.
unfoldable pub message_method : ℕ → ℕ
message_method msg_type =
    msg_type / 2 ^ 9 % 32 * 2 ^ 7 + msg_type / 2 ^ 5 % 8 * 2 ^ 4 + msg_type % 16

-- `(msgType & 0x0100) >> 7 | (msgType & 0x0010) >> 4`.
unfoldable pub message_class : ℕ → ℕ
message_class msg_type = msg_type / 2 ^ 8 % 2 * 2 + msg_type / 2 ^ 4 % 2

-- `msgType & 0x0110`.
unfoldable pub class_bits : ℕ → ℕ
class_bits msg_type = msg_type / 2 ^ 8 % 2 * 2 ^ 8 + msg_type / 2 ^ 4 % 2 * 2 ^ 4

unfoldable pub is_request_type : ℕ → Bool
unfolding class_bits
is_request_type msg_type = class_bits msg_type == 0

unfoldable pub is_indication_type : ℕ → Bool
unfolding class_bits
is_indication_type msg_type = class_bits msg_type == 16

unfoldable pub is_success_response_type : ℕ → Bool
unfolding class_bits
is_success_response_type msg_type = class_bits msg_type == 256

unfoldable pub is_error_response_type : ℕ → Bool
unfolding class_bits
is_error_response_type msg_type = class_bits msg_type == 272

-- `(m & 0x1F80) << 2 | (m & 0x0070) << 1 | m & 0x000F | (c & 2) << 7 | (c & 1) << 4` on `uint16`.
unfoldable pub encode_message_type : ℕ → ℕ → ℕ
encode_message_type method class =
    method / 2 ^ 7 % 64 * 2 ^ 9 % 2 ^ 16
    + method / 2 ^ 4 % 8 * 2 ^ 5
    + method % 16
    + class / 2 % 2 * 2 ^ 8
    + class % 2 * 2 ^ 4

pub data TypeError : Type 0 where
  unsupported_method unsupported_class : TypeError

abbrev pub has_class : ℕ → List ℕ → Bool
has_class class [] = false
has_class class (c ∷ cs) = (class == c) || has_class class cs

pub data Validation : Type 0 where
  valid : Validation
  invalid : TypeError → Validation

unfoldable pub validate_method_and_class : ℕ → ℕ → List ℕ → Validation
unfolding message_method message_class
validate_method_and_class msg_type expected allowed =
    if message_method msg_type == expected
    then if has_class (message_class msg_type) allowed then valid else invalid unsupported_class
    else invalid unsupported_method

-- A method of 12 bits and a class of 2 come back from their message type, whose top two bits are clear.
pub encode-decode :
    (method class : ℕ)
    → method < 2 ^ 12
    → class < 4
    → (message_method (encode_message_type method class) ≡ method)
      × (message_class (encode_message_type method class) ≡ class)
      × (encode_message_type method class < 2 ^ 14)
unfolding message_method message_class encode_message_type
encode-decode method class h h' = (omega arith, omega arith, omega arith)

-- A message type with clear top bits is the encoding of its method and class, which are in range.
pub decode-encode :
    (msg_type : ℕ)
    → msg_type < 2 ^ 14
    → (encode_message_type (message_method msg_type) (message_class msg_type) ≡ msg_type)
      × (message_method msg_type < 2 ^ 12)
      × (message_class msg_type < 4)
unfolding message_method message_class encode_message_type
decode-encode msg_type h = (omega arith, omega arith, omega arith)

-- Each of the four tests answers whether the class is the one that it names, on every message type.
pub class_tests :
    (msg_type : ℕ)
    → (is_request_type msg_type ≡ (message_class msg_type == 0))
      × (is_indication_type msg_type ≡ (message_class msg_type == 1))
      × (is_success_response_type msg_type ≡ (message_class msg_type == 2))
      × (is_error_response_type msg_type ≡ (message_class msg_type == 3))
unfolding is_request_type is_indication_type is_success_response_type is_error_response_type
    class_bits message_class
class_tests msg_type = (ground arith, ground arith, ground arith, ground arith)

-- `ValidateMethodAndClass` accepts the encoding of a method of 12 bits and a class of 2 exactly for
-- that method and a list that holds that class; a wrong method is reported before a wrong class.
pub validate_encoded :
    (method class expected : ℕ) (allowed : List ℕ)
    → method < 2 ^ 12
    → class < 4
    → validate_method_and_class (encode_message_type method class) expected allowed ≡ (
        if method == expected
        then if has_class class allowed then valid else invalid unsupported_class
        else invalid unsupported_method)
unfolding validate_method_and_class
validate_encoded method class expected allowed h h' =
    let (m, c, _) = encode-decode method class h h' in rw (m, c) refl
