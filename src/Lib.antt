-- ===== src/Lib.antt =====
-- pig is a tunnel: a client and a server exchange packets over one of several transports, find a path
-- through NATs, and give each client an address and routes. This library models the parts that hold
-- its own data structures and protocols, and proves what each promises.
--
-- Parts and files (paths from the repository's root):
--   Route    pkg/route: `Table` (table.go) is a path-compressed trie of routes, one for each address
--            family; the route manager keeps it in step with the system and asks it for the best
--            route. Address models route.go and table_helpers.go, Trie the node operations (`insert`,
--            `remove` with `compress`, `lookup`, `walk`), Table the exported methods. Trie.Invariant
--            is the order of the trie; Lookup, Insert, Contents and Remove, with the lemmas of Longest,
--            Replacing and Emptied, are the node operations on it; Table.Update is what `Insert` and `Remove` do to the stored
--            routes, and Table.History and Table.Lpm the refinement to a map of prefixes.
--   Queue    pkg/queue: Fifo models fifo.go, the ring of packets between the adapters and the
--            transports, and Wred the early dropper of wred/wred.go that `push` asks. Fifo.Refine and
--            Fifo.Take relate the ring to a bounded list, oldest first.
--   Server   pkg/server/ippool.go: IpPool models the pool of addresses that clients are given.
--   Network  pkg/network: Ipv4 models ipv4.go and checksum.go, which the packet handlers call after
--            they rewrite an address. Words has the sums, Verifies and Segments the results. Ipv6 models
--            ipv6.go and checksum6.go: Header is the walk over extension headers, Checksums the results.
--   Client   pkg/client/conntrack.go: Conntrack models the tuples of packets and the table of
--            connections, and Conntrack.Laws its results; a tuple is made of the accessors of Network.
--   Icmp     pkg/transport/icmp: Seq models seq.go, Flight flight.go and Retransmit retransmit.go, the
--            parts of the reliable transport that decide what is in order, in flight and kept, and
--            Buffer buffer.go, the bytes between the transport and its user. The queue's results are in
--            Retransmit.Sorted, Retransmit.Laws and Retransmit.Ranging, the buffer's in Buffer.Refine and Buffer.Laws.
--            Reno models reno.go with the handling of packets and timeouts of conn.go as far as they
--            change it, and Reno.Blocking the runs of a connection.
--   Stun     pkg/stun: MessageType models the message types of stun.go, Header header.go and the
--            padding of util.go. Attribute models attributes.go: Attribute what `SerializeTo` writes,
--            Attribute.Decode the `DecodeFromBytes` methods and `DecodeAttributes`, Attribute.Address the
--            addresses in the values, with `CreateXorMappedAddress` of stun.go. Message models message.go
--            on the buffer of buffer.go, Message.Query its queries, Message.Fingerprint fingerprint.go
--            and Message.Integrity integrity.go. Message.Order is the order of attributes, WellFormed the
--            bytes of a message, and Delivery puts the sender's and the receiver's calls together.
--            Binding models binding.go, Binding.Sealed and Options the messages that it makes, and
--            Binding.Exchange both sides of an exchange.
--   Base     what the files share: tests, lists with native indices, shifts and bit lengths, and the
--            bytes of unbounded numbers.
--
-- Conventions. A section under a mutex is one step: it takes the state and returns the new one beside its
-- result. A method is one such section, but for `LoadOrStore`, which has two and is given the table at each. A wait on a condition variable is an outcome or a test, and the caller runs the step again once
-- it has been woken, and for a read of the byte buffer `read_woken`. A pointer to a trie node is the subtree at it; an entry of the connection table is a
-- place in a store. Numbers are unbounded where the code uses `math/big`, and carry their remainder by
-- 2 ^ 16 or 2 ^ 32 where it uses machine words. Bytes are numbers, with the bound as a hypothesis where a
-- result needs it. An index out of range reads a default and writes nothing; the results assume the
-- lengths that rule it out, or the invariant does.
--
-- Bounds. Every loop is structural: on the trie, on a list, or on the count of rounds that the code's own
-- bound gives (`bitWidth - n` for `maskPrefix`, `elems` for `popAll`, `maxHosts` for `Allocate`, half the
-- length for a checksum), so no fuel is chosen. The loops of
-- `DecodeAttributes` and of the search for MESSAGE-INTEGRITY are given one round more than there are bytes,
-- which is enough since every round moves on by four at least. The loop of `transportHeader` has no such bound: it is given
-- the length of the packet, which is enough since every round moves its offset on. `bit_len` runs as many
-- rounds as the number itself, which has no more digits than that.
--
-- Parameters. `float64`, with the functions of `math` that the dropper uses, is the record `Floats`; the
-- random draw of `IsDrop`, the clock and the hash of a tuple are arguments. `RangeFrom` is for any callback,
-- with a state of its own. The CRC of a fingerprint is any function, and `Keyed` holds the keyed hash and
-- `OpaqueString`, with sums of 20 bytes where a result is about HMAC-SHA1. Go slices up to the capacity of a
-- slice: `beyond` are the bytes there, which may be read by ERROR-CODE.
--
-- Not modelled: signals and wakeups of condition variables, of the ICMP transport the
-- listener, the parsing of packets, round-trip times and what a connection sends, the agents, servers and queries of STUN, the
-- rest of pkg/network, the controller, ICE, the operating systems' routes, sockets and devices, and the wrappers
-- of third-party protocols. Floating-point rounding is that of the parameter.
pub mod Base
pub mod Route
pub mod Queue
pub mod Server
pub mod Client
pub mod Network
pub mod Icmp
pub mod Stun
