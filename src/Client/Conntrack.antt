-- ===== src/Client/Conntrack.antt =====
-- pkg/client/conntrack.go: tuples, and the table of connections. A section under the table's lock is one
-- step; `LoadOrStore` has two, between which other calls may change the table. Entries are shared
-- pointers: the table holds their places in a store, and a time is a number of nanoseconds.
pub mod Laws
use pig.Base.{
  ℕ, ◌+◌, ◌*◌, ◌<◌, ◌≡◌, refl, ap, subst, sym, ◌∙◌, ◌≢◌, inl, inr, Bool, true, false, not, ◌||◌,
  Option, none, some, List, [], ◌∷◌, ◌==◌, ltb, if◌then◌else◌, arith, Bool-cases, eq_of_==,
}
use pig.Network.Ipv4.{
  byte, version, protocol, source_ip, destination_ip, source_port, destination_port, payload_offset,
}

-- What `network.IPPacket` offers.
pub record IpPacket : Type 0 where
  pub packet_bytes : List ℕ
  pub packet_version : ℕ
  pub packet_protocol : ℕ
  pub packet_source : List ℕ
  pub packet_destination : List ℕ
  pub packet_source_port : ℕ
  pub packet_destination_port : ℕ
  pub packet_payload_offset : ℕ

abbrev pub ipv4_packet : List ℕ → IpPacket
ipv4_packet p = record {
  packet_bytes = p;
  packet_version = version p;
  packet_protocol = protocol p;
  packet_source = source_ip p;
  packet_destination = destination_ip p;
  packet_source_port = source_port p;
  packet_destination_port = destination_port p;
  packet_payload_offset = payload_offset p;
}

-- The three implementations of `protocolData`.
pub data ProtocolData : Type 0 where
  generic : ℕ → ProtocolData
  port_based : ℕ → ℕ → ProtocolData
  icmp_data : ℕ → ℕ → ProtocolData

pub record Tuple : Type 0 where
  pub family : ℕ
  pub src_ip : List ℕ
  pub dest_ip : List ℕ
  pub tuple_protocol : ℕ
  pub protocol_data : ProtocolData
  pub direction : ℕ

abbrev pub echo_request : ℕ
echo_request = 8

abbrev pub echo_reply : ℕ
echo_reply = 0

abbrev pub echo_request6 : ℕ
echo_request6 = 128

abbrev pub second : ℕ
second = 1000000000

unfoldable pub inverted_data : ProtocolData → ProtocolData
inverted_data (generic d) = generic d
inverted_data (port_based src dest) = port_based dest src
inverted_data (icmp_data type code) =
    if type == echo_request
    then icmp_data echo_reply code
    else if type == echo_reply
    then icmp_data echo_request code
    else icmp_data type code

unfoldable pub expire_duration : ProtocolData → ℕ
expire_duration (generic d) = 60 * second
expire_duration (port_based src dest) = 5 * (60 * second)
expire_duration (icmp_data type code) =
    if (type == echo_request) || (type == echo_request6) then 30 * second else second

unfoldable pub new_tuple : IpPacket → Tuple
new_tuple pkt = record {
  family = if pkt.packet_version == 6 then 6 else 4;
  src_ip = pkt.packet_source;
  dest_ip = pkt.packet_destination;
  tuple_protocol = pkt.packet_protocol;
  protocol_data =
      if (pkt.packet_protocol == 6) || (pkt.packet_protocol == 17)
      then port_based pkt.packet_source_port pkt.packet_destination_port
      else if pkt.packet_protocol == 1
      then icmp_data (byte pkt.packet_bytes pkt.packet_payload_offset)
          (byte pkt.packet_bytes (pkt.packet_payload_offset + 1))
      else generic pkt.packet_protocol;
  direction = 0;
}

-- `Direction ^ 1` on a direction, which is 0 or 1.
abbrev pub flipped : ℕ → ℕ
flipped d = if d == 0 then 1 else 0

unfoldable pub inverted : Tuple → Tuple
unfolding inverted_data
inverted t = record {
  family = t.family;
  src_ip = t.dest_ip;
  dest_ip = t.src_ip;
  tuple_protocol = t.tuple_protocol;
  protocol_data = inverted_data t.protocol_data;
  direction = flipped t.direction;
}

pub record Entry : Type 0 where
  pub in_mapped_dst : List ℕ
  pub expire_at : ℕ

-- Places of the store, and what they hold.
abbrev pub Store : Type 0
Store = ℕ → Entry

unfoldable pub is_expired : Store → ℕ → ℕ → Bool
is_expired st now e = ltb (st e).expire_at now

unfoldable pub update_expire_at : Store → ℕ → ℕ → ProtocolData → Store
unfolding expire_duration
update_expire_at st now e pd e' =
    if e' == e then record (st e) { expire_at = now + expire_duration pd } else st e'

-- The table: keys and places, each key once.
abbrev pub Table : Type 0
Table = List (ℕ × ℕ)

unfoldable pub find : Table → ℕ → Option ℕ
find [] k = none
find ((k', e) ∷ t) k = let rest = find t k in if k' == k then some e else rest

unfoldable pub delete : Table → ℕ → Table
delete [] k = []
delete ((k', e) ∷ t) k = let rest = delete t k in if k' == k then rest else (k', e) ∷ rest

unfoldable pub store : Table → ℕ → ℕ → Table
unfolding delete
store t k e = (k, e) ∷ delete t k

-- What the section of `LoadOrStore` under the read lock decides: to return the entry found, or to store one.
pub data Looked : Type 0 where
  returns : ℕ → Looked
  stores : ℕ → Looked

abbrev pub found_or_new : ℕ → Option ℕ → Bool → Looked
found_or_new e none expired = stores e
found_or_new e (some old) true = stores old
found_or_new e (some old) false = returns old

-- The key is `tuple.ToKey()`.
unfoldable pub look_up : Store → ℕ → Table → ℕ → ℕ → Looked
unfolding find is_expired
look_up st now t k e = found_or_new e (find t k) (is_expired st now e)

-- The section under the write lock, on the table as it is by then.
unfoldable pub store_actual : Table → ℕ → Looked → Table × ℕ × Bool
unfolding store
store_actual t k (returns old) = (t, old, true)
store_actual t k (stores actual) = (store t k actual, actual, false)

-- `t` is the table at the first section, and `later` at the second, or at the return where there is none.
unfoldable pub load_or_store : Store → ℕ → Table → Table → ℕ → ℕ → Table × ℕ × Bool
unfolding look_up store_actual
load_or_store st now t later k e = store_actual later k (look_up st now t k e)

-- `Cleanup` deletes each expired entry that it meets; `now k` is the time when it comes to the key `k`.
unfoldable pub cleanup : Store → (ℕ → ℕ) → Table → Table
unfolding is_expired
cleanup st now [] = []
cleanup st now ((k, e) ∷ t) =
    let rest = cleanup st now t in if is_expired st (now k) e then rest else (k, e) ∷ rest
