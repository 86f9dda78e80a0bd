-- ===== src/Stun/Attribute/Address.antt =====
-- The addresses in the values of XOR-MAPPED-ADDRESS, MAPPED-ADDRESS and OTHER-ADDRESS: pkg/stun/attributes.go
-- and `CreateXorMappedAddress` of pkg/stun/stun.go. An address is a list of bytes.
pub mod RoundTrip
use Prim.Native.Nat.{bit_xor}
use pig.Base.{
  ℕ, zero, suc, ◌+◌, ◌-◌, ◌*◌, ◌/◌, ◌%◌, ◌^◌, Bool, true, false, ◌&&◌, Option, none, some, List, [],
  ◌∷◌, ◌++◌, ◌==◌, ltb, if◌then◌else◌, length, get_or, take, drop, replicate,
}
use pig.Base.Xor.{xor_bytes}
use pig.Stun.Header.{magic_cookie, put_uint16, put_uint32, uint16_at}
use pig.Stun.Attribute.{Attribute, xor_mapped_address_attr}
use pig.Stun.Attribute.Decode.{Decoded, decoded, refused, panics, decode_address}

-- A `net.Addr`: an IP, with `none` for nil, and a port; `other_addr` holds what `net.ParseIP` and
-- `strconv.Atoi` make of the text of another address, `none` for their failure.
pub data NetAddr : Type 0 where
  ip_addr : Option (List ℕ) → NetAddr
  tcp_addr udp_addr : Option (List ℕ) → ℕ → NetAddr
  other_addr : Option (List ℕ) → Option ℕ → NetAddr

all_zero : List ℕ → Bool
all_zero [] = true
all_zero (x ∷ xs) = let rest = all_zero xs in (x == 0) && rest

-- `To4` and `To16` of net.IP.
unfoldable pub is_mapped : List ℕ → Bool
unfolding all_zero
is_mapped ip = all_zero (take 10 ip) && ((get_or ip 10 0 == 255) && (get_or ip 11 0 == 255))

unfoldable pub to4 : List ℕ → Option (List ℕ)
unfolding is_mapped
to4 ip =
    if length ip == 4
    then some ip
    else if (length ip == 16) && is_mapped ip
    then some (drop 12 ip)
    else none

unfoldable pub to16 : List ℕ → Option (List ℕ)
to16 ip =
    if length ip == 4
    then some (replicate 10 0 ++ (255 ∷ 255 ∷ ip))
    else if length ip == 16
    then some ip
    else none

abbrev pub cookie_bytes : List ℕ
cookie_bytes = put_uint32 magic_cookie

-- The port with the first half of the cookie.
abbrev pub xor_port : ℕ → ℕ
xor_port port = bit_xor port (magic_cookie / 2 ^ 16 % 2 ^ 16)

pub data Created (A : Type 0) : Type 0 where
  created : A → Created A
  bad_address : Created A
  create_panics : Created A

abbrev pub xor_value : ℕ → ℕ → List ℕ → List ℕ
xor_value family port xor_ip = 0 ∷ family ∷ (put_uint16 (xor_port (port % 2 ^ 16)) ++ xor_ip)

abbrev pub xor_attribute : ℕ → ℕ → List ℕ → List ℕ
xor_attribute family port xor_ip =
    let value = xor_value family port xor_ip in
    put_uint16 0x0020 ++ (put_uint16 (length value) ++ value)

-- The whole attribute, by what `To4` and `To16` say of the IP. One of another length panics.
abbrev pub by_family : Option (List ℕ) → Option (List ℕ) → ℕ → List ℕ → Created (List ℕ)
by_family (some ip4) ip16 port tx_id = created (xor_attribute 1 port (xor_bytes ip4 cookie_bytes))
by_family none (some ip16) port tx_id =
    created (xor_attribute 2 port (xor_bytes ip16 (cookie_bytes ++ tx_id)))
by_family none none port tx_id = create_panics

abbrev pub create_xor : Option (List ℕ) → ℕ → List ℕ → Created (List ℕ)
create_xor none port tx_id = bad_address
create_xor (some ip) port tx_id = by_family (to4 ip) (to16 ip) port tx_id

unfoldable pub create_xor_mapped_address : NetAddr → List ℕ → Created (List ℕ)
unfolding to4 to16
create_xor_mapped_address (ip_addr ip) tx_id = create_xor ip 0 tx_id
create_xor_mapped_address (tcp_addr ip port) tx_id = create_xor ip port tx_id
create_xor_mapped_address (udp_addr ip port) tx_id = create_xor ip port tx_id
create_xor_mapped_address (other_addr ip none) tx_id = bad_address
create_xor_mapped_address (other_addr ip (some port)) tx_id = create_xor ip port tx_id

abbrev pub attribute_of : Decoded Attribute → Created Attribute
attribute_of (decoded a) = created a
attribute_of (refused e) = bad_address
attribute_of panics = create_panics

abbrev pub decode_created : Created (List ℕ) → Created Attribute
decode_created (created b) = attribute_of (decode_address 0x0020 xor_mapped_address_attr b)
decode_created bad_address = bad_address
decode_created create_panics = create_panics

unfoldable pub new_xor_mapped_address_attr : NetAddr → List ℕ → Created Attribute
unfolding create_xor_mapped_address decode_address
new_xor_mapped_address_attr addr tx_id = decode_created (create_xor_mapped_address addr tx_id)

-- An address and its port; the length of a value is tested again for IPv6.
pub data AddrPort : Type 0 where
  addr_port : List ℕ → ℕ → AddrPort
  value_too_short unsupported_family : AddrPort
  addr_panics : AddrPort

unfoldable pub decode_xor_mapped_address : List ℕ → List ℕ → AddrPort
decode_xor_mapped_address v tx_id =
    let port = xor_port (uint16_at v 2) in
    if ltb (length v) 8
    then value_too_short
    else if get_or v 1 0 == 1
    then addr_port (xor_bytes (take 4 (drop 4 v)) cookie_bytes) port
    else if get_or v 1 0 == 2
    then if ltb (length v) 20
      then value_too_short
      else addr_port (xor_bytes (take 16 (drop 4 v)) (cookie_bytes ++ tx_id)) port
    else unsupported_family

-- MAPPED-ADDRESS slices without a test: a family of IPv6 in a value of 8 bytes panics.
unfoldable pub decode_mapped_address : List ℕ → AddrPort
decode_mapped_address v =
    if ltb (length v) 4
    then addr_panics
    else if get_or v 1 0 == 1
    then if ltb (length v) 8 then addr_panics else addr_port (take 4 (drop 4 v)) (uint16_at v 2)
    else if get_or v 1 0 == 2
    then if ltb (length v) 20 then addr_panics else addr_port (take 16 (drop 4 v)) (uint16_at v 2)
    else unsupported_family

unfoldable pub decode_other_address : List ℕ → AddrPort
decode_other_address v =
    if ltb (length v) 4
    then value_too_short
    else if get_or v 1 0 == 1
    then if ltb (length v) 8 then value_too_short else addr_port (take 4 (drop 4 v)) (uint16_at v 2)
    else if get_or v 1 0 == 2
    then if ltb (length v) 20
      then value_too_short
      else addr_port (take 16 (drop 4 v)) (uint16_at v 2)
    else unsupported_family
