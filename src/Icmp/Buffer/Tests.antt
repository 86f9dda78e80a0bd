-- ===== src/Icmp/Buffer/Tests.antt =====
-- Runs of pkg/transport/icmp/buffer.go on a buffer of four bytes that has wrapped.
use pig.Base.{
  ◌+◌, ◌≤◌, ◌<◌, ◌≡◌, ◌≢◌, refl, ◌⊎◌, Bool, false, List, ℕ, [], ◌∷◌, ◌++◌, length, take, drop,
  arith,
}
use pig.Icmp.Buffer.{Buffer, wrote, write_waits, write, has_read, read_waits, read, read_woken}
use pig.Icmp.Buffer.Refine.{IsValid, contents}
use pig.Icmp.Buffer.Laws.{write_lem, read_lem}

abbrev four_bytes : Buffer
four_bytes = record {
  bytes = 22 ∷ 0 ∷ 0 ∷ 21 ∷ [];
  size = 4;
  read_pos = 3;
  write_pos = 5;
  closed = false;
}

four_bytes-IsValid : IsValid four_bytes
four_bytes-IsValid = record {
  storage = refl;
  room = omega arith;
  ordered = omega arith;
  bounded = omega arith;
  in_word = omega arith;
}

oldest_first : contents four_bytes ≡ 21 ∷ 22 ∷ []
unfolding contents
oldest_first = refl

-- More bytes than the buffer has are never written.
too_long : write four_bytes (1 ∷ 2 ∷ 3 ∷ 4 ∷ 5 ∷ []) ≡ write_waits
unfolding write
too_long = refl

abbrev new_bytes : List ℕ
new_bytes = 7 ∷ 8 ∷ []

write_lem_example :
    ((length (contents four_bytes) + length new_bytes ≤ four_bytes.size)
      × ((b' : Buffer) × (write four_bytes new_bytes ≡ wrote (length new_bytes) b')
          × IsValid b'
          × (contents b' ≡ contents four_bytes ++ new_bytes)
          × (b'.closed ≡ four_bytes.closed)))
    ⊎ ((four_bytes.size < length (contents four_bytes) + length new_bytes)
        × (write four_bytes new_bytes ≡ write_waits))
write_lem_example = write_lem four_bytes 7 (8 ∷ []) four_bytes-IsValid refl (omega arith)

read_lem_example :
    ((contents four_bytes ≢ [])
      × ((b' : Buffer) × (read four_bytes 1 false ≡ has_read (take 1 (contents four_bytes)) b')
          × IsValid b'
          × (contents b' ≡ drop 1 (contents four_bytes))
          × (b'.closed ≡ four_bytes.closed)
          × ((late : Bool) → read_woken four_bytes 1 late ≡ read four_bytes 1 false)))
    ⊎ ((contents four_bytes ≡ []) × (read four_bytes 1 false ≡ read_waits))
read_lem_example = read_lem four_bytes 1 four_bytes-IsValid refl (omega arith)
