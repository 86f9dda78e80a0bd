-- ===== src/Stun/Attribute/Address/RoundTrip.antt =====
-- The address in XOR-MAPPED-ADDRESS of pkg/stun, written and read.
use Prim.Native.Nat.{bit_xor}
use pig.Base.{
  ℕ, ◌/◌, ◌%◌, ◌^◌, ◌<◌, ◌≡◌, refl, sym, ap, ap₂, ◌∙◌, ◌⊎◌, inl, inr, Option, none, some, List, [],
  ◌∷◌, ◌++◌, length, drop, arith, append-nil, take_all, length-drop, Bool-cases, if◌then◌else◌,
}
use pig.Base.Xor.{xor_bytes, length-xor_bytes, xor_bytes_back, bit_xor_back, bit_xor_lt}
use pig.Stun.Header.{uint16_at, magic_cookie}
use pig.Stun.Attribute.{xor_mapped_address_attr}
use pig.Stun.Attribute.Decode.{decoded, decode_address}
use pig.Stun.Attribute.Wire.{decode_address-wire}
use pig.Stun.Attribute.Address.{
  udp_addr, is_mapped, to4, to16, cookie_bytes, xor_port, xor_value, xor_attribute, created,
  create_xor_mapped_address, by_family, attribute_of, decode_created, new_xor_mapped_address_attr,
  addr_port, decode_xor_mapped_address,
}

xor_attribute-decode :
    (family port : ℕ) (x : List ℕ)
    → (length x ≡ 4) ⊎ (length x ≡ 16)
    → decode_address 0x0020 xor_mapped_address_attr (xor_attribute family port x)
      ≡ decoded (xor_mapped_address_attr (xor_value family port x))
xor_attribute-decode family port x h =
    let v = xor_value family port x in
    let n : (length v ≡ 8) ⊎ (length v ≡ 20) = ground arith in
    let m : length v / 2 ^ 8 % 256 ≡ length v / 2 ^ 8 % 256 = refl in
    ap
      (λ y.
        decode_address 0x0020 xor_mapped_address_attr
          (0 ∷ 32 ∷ length v / 2 ^ 8 % 256 ∷ length v % 256 ∷ y))
      (sym (append-nil v))
    ∙ decode_address-wire 0x0020 xor_mapped_address_attr v [] (omega arith) n

port_back :
    (family port : ℕ) (x : List ℕ)
    → port < 2 ^ 16
    → xor_port (uint16_at (xor_value family port x) 2) ≡ port
port_back family port x h =
    let k = magic_cookie / 2 ^ 16 % 2 ^ 16 in
    let m : port % 2 ^ 16 ≡ port = omega arith in
    let r : bit_xor (port % 2 ^ 16) k < 2 ^ 16 =
      bit_xor_lt 16 (port % 2 ^ 16) k (omega arith) (omega arith) in
    let e : uint16_at (xor_value family port x) 2 ≡ bit_xor (port % 2 ^ 16) k = omega (arith, r) in
    ap xor_port e ∙ bit_xor_back (port % 2 ^ 16) k ∙ m

decode_xor4 :
    (port : ℕ) (x tx_id : List ℕ)
    → port < 2 ^ 16
    → length x ≡ 4
    → decode_xor_mapped_address (xor_value 1 port x) tx_id
      ≡ addr_port (xor_bytes x cookie_bytes) port
unfolding decode_xor_mapped_address
decode_xor4 port x tx_id h n =
    let l : length (xor_value 1 port x) ≡ 8 = omega arith in
    rw (l, decode_xor_mapped_address)
      (ap₂ addr_port (ap (λ y. xor_bytes y cookie_bytes) (take_all 4 x (omega arith)))
        (port_back 1 port x h))

decode_xor6 :
    (port : ℕ) (x tx_id : List ℕ)
    → port < 2 ^ 16
    → length x ≡ 16
    → decode_xor_mapped_address (xor_value 2 port x) tx_id
      ≡ addr_port (xor_bytes x (cookie_bytes ++ tx_id)) port
unfolding decode_xor_mapped_address
decode_xor6 port x tx_id h n =
    let l : length (xor_value 2 port x) ≡ 20 = omega arith in
    rw (l, decode_xor_mapped_address)
      (ap₂ addr_port (ap (λ y. xor_bytes y (cookie_bytes ++ tx_id)) (take_all 16 x (omega arith)))
        (port_back 2 port x h))

-- An address as the code carries it: the four bytes of an IPv4 address, however it is held.
abbrev or_itself : Option (List ℕ) → List ℕ → List ℕ
or_itself none ip = ip
or_itself (some ip4) ip = ip4

abbrev pub canonical : List ℕ → List ℕ
canonical ip = or_itself (to4 ip) ip

to4-cases :
    (ip : List ℕ)
    → (length ip ≡ 4) ⊎ (length ip ≡ 16)
    → ((ip4 : List ℕ) × (to4 ip ≡ some ip4) × (length ip4 ≡ 4))
      ⊎ ((to4 ip ≡ none) × (to16 ip ≡ some ip) × (length ip ≡ 16))
unfolding to4 to16
to4-cases ip (inl e) = inl ((ip, rw (e, to4) refl, e))
to4-cases ip (inr e) = elim (Bool-cases (is_mapped ip)) [
  | inl m ↦ inl (
      (
        drop 12 ip,
        rw (e, to4) (ap (λ b. if b then some (drop 12 ip) else none) m),
        omega (arith, length-drop 12 ip),
      ))
  | inr m ↦
      inr ((rw (e, to4) (ap (λ b. if b then some (drop 12 ip) else none) m), rw (e, to16) refl, e))
]

-- XOR-MAPPED-ADDRESS of an IPv4 or IPv6 address and a port is created, and it is decoded, with the same
-- transaction identifier, to that address and port.
pub new_xor_mapped_address_attr-decode :
    (ip : List ℕ) (port : ℕ) (tx_id : List ℕ)
    → (length ip ≡ 4) ⊎ (length ip ≡ 16)
    → port < 2 ^ 16
    → length tx_id ≡ 12
    → (v : List ℕ) × (new_xor_mapped_address_attr (udp_addr (some ip) port) tx_id
        ≡ created (xor_mapped_address_attr v))
      × ((length v ≡ 8) ⊎ (length v ≡ 20))
      × (decode_xor_mapped_address v tx_id ≡ addr_port (canonical ip) port)
unfolding new_xor_mapped_address_attr create_xor_mapped_address
new_xor_mapped_address_attr-decode ip port tx_id h p t = elim (to4-cases ip h) [
  | inl (ip4, e, n) ↦
      let x = xor_bytes ip4 cookie_bytes in
      let l : length x ≡ 4 = length-xor_bytes ip4 cookie_bytes (omega arith) ∙ n in
      (
        xor_value 1 port x,
        ap (λ o. decode_created (by_family o (to16 ip) port tx_id)) e
            ∙ (ap attribute_of (xor_attribute-decode 1 port x (inl l))),
        inl (omega (arith, l)),
        decode_xor4 port x tx_id p l
            ∙ ap (λ y. addr_port y port) (xor_bytes_back ip4 cookie_bytes (omega arith))
            ∙ ap (λ o. addr_port (or_itself o ip) port) (sym e),
      )
  | inr (e, e16, n) ↦
      let ks = cookie_bytes ++ tx_id in
      let x = xor_bytes ip ks in
      let l : length x ≡ 16 = length-xor_bytes ip ks (omega arith) ∙ n in
      (
        xor_value 2 port x,
        ap₂ (λ o r. decode_created (by_family o r port tx_id)) e e16
            ∙ (ap attribute_of (xor_attribute-decode 2 port x (inr l))),
        inr (omega (arith, l)),
        decode_xor6 port x tx_id p l
            ∙ ap (λ y. addr_port y port) (xor_bytes_back ip ks (omega arith))
            ∙ ap (λ o. addr_port (or_itself o ip) port) (sym e),
      )
]
