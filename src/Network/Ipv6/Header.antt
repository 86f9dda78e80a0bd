-- ===== src/Network/Ipv6/Header.antt =====
-- The walk over the extension headers in `transportHeader` of pkg/network/ipv6.go.
use pig.Base.{
  ℕ, zero, suc, ◌+◌, ◌≤◌, ◌<◌, ◌≡◌, ◌⊎◌, inl, inr, List, ltb, length, arith, Bool-cases, le_of_ltb,
}
use pig.Network.Ipv4.{byte}
use pig.Network.Ipv6.{
  Transport, found, not_ok, out_of_rounds, Round, return_round, continue_round, transport_round,
  transport_loop, transport_header, payload_end,
}

-- A segment found is not empty, and lies after the fixed header and up to `end`.
abbrev pub IsFound : ℕ → Transport → Type 0
IsFound end (found next offset n) =
    ((next ≡ 6) ⊎ ((next ≡ 17) ⊎ (next ≡ 58))) × (40 ≤ offset) × (0 < n) × (offset + n ≡ end)
IsFound end not_ok = Unit {0}
IsFound end out_of_rounds = ⊥

abbrev Advances : ℕ → ℕ → Round → Type 0
Advances end offset (return_round t) = IsFound end t
Advances end offset (continue_round next' offset') = (offset < offset') × (offset' ≤ end)

transport_round-Advances :
    (p : List ℕ) (end next offset : ℕ)
    → 40 ≤ offset
    → Advances end offset (transport_round p end next offset)
unfolding transport_round
transport_round-Advances p end next offset h = ground arith

transport_loop-IsFound :
    (p : List ℕ) (end rounds next offset : ℕ)
    → 40 ≤ offset
    → offset ≤ end
    → end < offset + rounds
    → IsFound end (transport_loop p end rounds next offset)
unfolding transport_loop
transport_loop-IsFound p end zero next offset h h' h'' = absurd (omega arith)
transport_loop-IsFound p end (suc rounds) next offset h h' h'' =
    on_round
      (λ next' offset' lt le.
        transport_loop-IsFound p end rounds next' offset' (omega arith) le (omega arith))
      (transport_round p end next offset) (transport_round-Advances p end next offset h)
  where
    on_round :
        ((next' offset' : ℕ)
          → offset < offset'
          → offset' ≤ end
          → IsFound end (transport_loop p end rounds next' offset'))
        → (r : Round) → Advances end offset r
        → IsFound end (elim r [
          | return_round t ↦ t
          | continue_round next' offset' ↦ transport_loop p end rounds next' offset'
        ])
    on_round rest (return_round t) a = a
    on_round rest (continue_round next' offset') (lt, le) = rest next' offset' lt le

-- `transportHeader` ends on every packet: it reports false, or a TCP, UDP or ICMPv6 segment that is not
-- empty, starts after the fixed header and runs to the end of the payload or of the packet.
pub transport_header-IsFound : (p : List ℕ) → IsFound (payload_end p) (transport_header p)
unfolding transport_header
transport_header-IsFound p = elim (Bool-cases (ltb (length p) 40)) [
  | inl e ↦ rw (e, transport_header) tt
  | inr e ↦
      let h = le_of_ltb (length p) 40 e in
      rw (e, transport_header)
        (transport_loop-IsFound p (payload_end p) (length p) (byte p 6) 40 (omega arith)
          (omega arith) (omega arith))
]
