-- ===== src/Icmp/Buffer.antt =====
-- The circular byte buffer of pkg/transport/icmp/buffer.go. A wait on a condition variable is an outcome: the
-- caller of `Write` runs the step again once it is woken, and that of `Read` runs `read_woken`. Whether the read deadline has passed is an argument; a
-- write deadline is not kept by the code.
pub mod Segments
pub mod Refine
pub mod Laws
mod Tests
use pig.Base.{
  ℕ, ◌+◌, ◌-◌, ◌*◌, ◌%◌, ◌^◌, Bool, true, false, ◌||◌, List, [], ◌∷◌, ◌++◌, ◌==◌, ltb, leb,
  if◌then◌else◌, length, take, drop, replicate,
}

pub record Buffer : Type 0 where
  pub bytes : List ℕ
  pub size : ℕ
  pub read_pos : ℕ
  pub write_pos : ℕ
  pub closed : Bool

-- A size of 0, or below, becomes 64 KiB.
unfoldable pub new_buffer : ℕ → Buffer
new_buffer size =
    let n = if size == 0 then 64 * 1024 else size in
    record { bytes = replicate n 0; size = n; read_pos = 0; write_pos = 0; closed = false }

-- The positions are `uint64`, the indices their remainders.
unfoldable pub calculate_used : Buffer → ℕ
calculate_used b =
    let diff = b.write_pos - b.read_pos in
    let around = b.write_pos % b.size + (b.size - b.read_pos % b.size) in
    if b.write_pos == b.read_pos
    then 0
    else if ltb b.read_pos b.write_pos
    then if leb diff b.size then diff else b.size
    else if ltb b.size around
    then b.size
    else around

-- `copy(q[i:], xs)`.
abbrev pub put : List ℕ → ℕ → List ℕ → List ℕ
put q i xs = take i q ++ (xs ++ drop (i + length xs) q)

-- The copy of `xs` from index `idx` on, in two parts where it passes the end.
abbrev pub copy_in : Buffer → ℕ → List ℕ → List ℕ
copy_in b idx xs =
    let remaining = b.size - idx in
    if leb (length xs) remaining
    then put b.bytes idx xs
    else put (put b.bytes idx (take remaining xs)) 0 (drop remaining xs)

pub data Written : Type 0 where
  wrote : ℕ → Buffer → Written
  write_closed : Written
  write_waits : Written

abbrev pub write_bytes : Buffer → List ℕ → Written
write_bytes b xs = wrote (length xs) (record b {
  bytes = copy_in b (b.write_pos % b.size) xs;
  write_pos = (b.write_pos + length xs) % 2 ^ 64;
})

unfoldable pub write : Buffer → List ℕ → Written
unfolding calculate_used
write b [] = wrote 0 b
write b (x ∷ xs) =
    let new = x ∷ xs in
    let used = calculate_used b in
    let available = b.size - used in
    if b.closed
    then write_closed
    else if leb b.size used || ltb available (length new)
    then write_waits
    else write_bytes b (take available new)

pub data ReadOut : Type 0 where
  has_read : List ℕ → Buffer → ReadOut
  read_closed : ReadOut
  deadline_exceeded : ReadOut
  read_waits : ReadOut

-- `available` bytes from index `idx` on, in two parts where they pass the end.
abbrev pub copy_out : Buffer → ℕ → ℕ → List ℕ
copy_out b idx available =
    let remaining = b.size - idx in
    if leb available remaining
    then take available (drop idx b.bytes)
    else drop idx b.bytes ++ take (available - remaining) b.bytes

abbrev pub read_bytes : Buffer → ℕ → ReadOut
read_bytes b available =
    has_read (copy_out b (b.read_pos % b.size) available)
      (record b { read_pos = (b.read_pos + available) % 2 ^ 64 })

-- A read into `n` bytes.
unfoldable pub read : Buffer → ℕ → Bool → ReadOut
unfolding calculate_used
read b n expired =
    let used = calculate_used b in
    if n == 0
    then has_read [] b
    else if b.closed
    then read_closed
    else if expired
    then deadline_exceeded
    else if b.write_pos == b.read_pos
    then read_waits
    else read_bytes b (if ltb n used then n else used)

-- The rest of `Read`, once it has been woken.
unfoldable pub read_woken : Buffer → ℕ → Bool → ReadOut
unfolding calculate_used
read_woken b n expired =
    let used = calculate_used b in
    if b.closed
    then read_closed
    else if b.write_pos == b.read_pos
    then if expired then deadline_exceeded else read_waits
    else read_bytes b (if ltb n used then n else used)

unfoldable pub close : Buffer → Buffer
close b = record b { closed = true; read_pos = 0; write_pos = 0 }

unfoldable pub buffer_len : Buffer → ℕ
unfolding calculate_used
buffer_len b = calculate_used b
