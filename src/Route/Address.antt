-- ===== src/Route/Address.antt =====
-- Addresses, networks and keys: `Route` and `Family` of pkg/route/route.go, and
-- pkg/route/table_helpers.go. A `net.IP` is nil, four bytes or sixteen, given by its big-endian
-- number; a mask is canonical, given by its `Size()`.
use Prim.Native.Nat.{bit_xor}
use Prim.Native.String.{String}
use pig.Base.{
  ℕ, zero, suc, ◌+◌, ◌-◌, ◌*◌, ◌/◌, ◌%◌, ◌^◌, ◌&&◌, Option, none, some, List, leb, ◌==◌,
  if◌then◌else◌,
}
use pig.Base.Bits.{shr, shl, bit_len}

pub data Ip : Type 0 where
  nil : Ip
  v4 : ℕ → Ip
  v6 : ℕ → Ip

-- The IPv4-mapped addresses are ::ffff:0:0/96.
unfoldable pub to4 : Ip → Option ℕ
to4 nil = none
to4 (v4 n) = some n
to4 (v6 n) = if n / 2 ^ 32 == 0xffff then some (n % 2 ^ 32) else none

unfoldable pub to16 : Ip → Option ℕ
to16 nil = none
to16 (v4 n) = some (0xffff * 2 ^ 32 + n)
to16 (v6 n) = some n

pub record IpNet : Type 0 where
  pub ip : Ip
  pub ones : ℕ
  pub bits : ℕ

pub record Route : Type 0 where
  pub destination : IpNet
  pub gateway : Ip
  pub interface : String
  pub link_addr : List ℕ

pub data Family : Type 0 where
  inet inet6 : Family

-- `none` is the -1 of an address of neither family.
unfoldable pub family : Route → Option Family
unfolding to4 to16
family r = elim (to4 r.destination.ip) [
  | some _ ↦ some inet
  | none ↦ elim (to16 r.destination.ip) [ some _ ↦ some inet6 | none ↦ none ]
]

abbrev pub bit_width : Family → ℕ
bit_width inet = 32
bit_width inet6 = 128

-- `uint8(prefix.Bit(length - 1 - pos))`
unfoldable pub get_bit : ℕ → ℕ → ℕ → ℕ
get_bit width prefix pos = shr prefix (width - 1 - pos) % 2

-- A bit length above the width is ruled out by keys that fit the width.
unfoldable pub common_bits : ℕ → ℕ → ℕ → ℕ
common_bits width prefix1 prefix2 =
    let x = bit_xor prefix1 prefix2 in if bit_len x == 0 then width else width - bit_len x

-- `out.SetBit(out, i, 0)`
unfoldable pub clear_bit : ℕ → ℕ → ℕ
clear_bit out i = out - shl (shr out i % 2) i

-- The loop of `maskPrefix`: the rounds left, and the position `pos`.
unfoldable pub mask_from : ℕ → ℕ → ℕ → ℕ → ℕ
mask_from width zero pos out = out
mask_from width (suc rounds) pos out =
    mask_from width rounds (suc pos) (clear_bit out (width - 1 - pos))

unfoldable pub mask_prefix : ℕ → ℕ → ℕ → ℕ
mask_prefix width key n = mask_from width (width - n) n key

-- Clears all but the first `ones` of `width` bits: `IP.Mask` on one address width.
abbrev pub keep_ones : ℕ → ℕ → ℕ → ℕ
keep_ones width ones n = shl (shr n (width - ones)) (width - ones)

-- `IP.Mask`, with its rules for an address and a mask of different widths.
unfoldable pub mask_ip : Ip → ℕ → ℕ → Ip
mask_ip nil ones bits = nil
mask_ip (v4 n) ones bits =
    if bits == 32
    then v4 (keep_ones 32 ones n)
    else if bits == 128 && leb 96 ones
    then v4 (keep_ones 32 (ones - 96) n)
    else nil
mask_ip (v6 n) ones bits =
    if bits == 128
    then v6 (keep_ones 128 ones n)
    else if bits == 32 && (n / 2 ^ 32 == 0xffff)
    then v4 (keep_ones 32 ones (n % 2 ^ 32))
    else nil

unfoldable pub calculate_network_address : IpNet → Ip
unfolding mask_ip
calculate_network_address d = if d.ones == d.bits then d.ip else mask_ip d.ip d.ones d.bits

-- `none` is the nil key of an address of neither family.
unfoldable pub route_to_table_prefix : Route → Option ℕ
unfolding to4 to16 calculate_network_address
route_to_table_prefix r =
    let ip = calculate_network_address r.destination in
    elim (to4 ip) [ some n ↦ some n | none ↦ to16 ip ]

unfoldable pub route_to_prefix_bits : Route → ℕ
route_to_prefix_bits r = r.destination.ones
