-- ===== src/Stun/Message/Query.antt =====
-- What pkg/stun/message.go reads from a message: its error, its mapped address, its credentials.
use pig.Base.{ℕ, Option, none, some, List, []}
use pig.Stun.Attribute.{
  Attribute, error_code_attr, mapped_address_attr, xor_mapped_address_attr, username_attr,
  realm_attr, nonce_attr,
}
use pig.Stun.Attribute.Address.{AddrPort, decode_xor_mapped_address, decode_mapped_address}
use pig.Stun.Message.{Message, find_attribute}

-- The code and the reason, or an error.
abbrev pub error_of : Option Attribute → Option (ℕ × List ℕ)
error_of (some (error_code_attr code reason)) = some (code, reason)
error_of _ = none

unfoldable pub parse_error : Message → Option (ℕ × List ℕ)
unfolding find_attribute
parse_error msg = error_of (find_attribute 0x0009 msg.attributes)

-- The result of `MappedAddrPort`, or that there is no such attribute.
pub data Mapped : Type 0 where
  mapped : AddrPort → Mapped
  not_found : Mapped

abbrev pub mapped_of_plain : Option Attribute → Mapped
mapped_of_plain (some (mapped_address_attr v)) = mapped (decode_mapped_address v)
mapped_of_plain _ = not_found

-- XOR-MAPPED-ADDRESS first; MAPPED-ADDRESS when there is none.
abbrev pub mapped_of : List ℕ → Option Attribute → Option Attribute → Mapped
mapped_of tx_id (some (xor_mapped_address_attr v)) plain =
    mapped (decode_xor_mapped_address v tx_id)
mapped_of tx_id none plain = mapped_of_plain plain
mapped_of tx_id (some _) plain = not_found

unfoldable pub mapped_addr_port : Message → Mapped
unfolding find_attribute decode_xor_mapped_address decode_mapped_address
mapped_addr_port msg =
    mapped_of msg.header.transaction_id (find_attribute 0x0020 msg.attributes)
      (find_attribute 0x0001 msg.attributes)

-- The credentials; `GetAuthParams` leaves a string empty without its attribute, and the password always.
pub record AuthConfig : Type 0 where
  pub username : List ℕ
  pub password : List ℕ
  pub realm : List ℕ
  pub nonce : List ℕ

abbrev pub realm_of : Option Attribute → List ℕ
realm_of (some (realm_attr v)) = v
realm_of _ = []

abbrev pub nonce_of : Option Attribute → List ℕ
nonce_of (some (nonce_attr v)) = v
nonce_of _ = []

abbrev pub name_of : Option Attribute → List ℕ
name_of (some (username_attr v)) = v
name_of _ = []

unfoldable pub get_auth_params : Message → AuthConfig
unfolding find_attribute
get_auth_params msg = record {
  username = name_of (find_attribute 0x0006 msg.attributes);
  password = [];
  realm = realm_of (find_attribute 0x0014 msg.attributes);
  nonce = nonce_of (find_attribute 0x0015 msg.attributes);
}
