-- ===== src/Stun/Header.antt =====
-- The message header of pkg/stun/header.go and the padding of pkg/stun/util.go. Data is a list of bytes.
use pig.Base.{
  ℕ, ◌+◌, ◌-◌, ◌*◌, ◌/◌, ◌%◌, ◌^◌, ◌≤◌, ◌<◌, ◌≡◌, refl, subst, ltb_of_le, ◌↔◌, not, Option, none,
  some, List, [], ◌∷◌, ◌++◌, ◌==◌, ltb, if◌then◌else◌, arith, length, get_or, take, drop,
  take-length_append, length-append,
}

abbrev pub magic_cookie : ℕ
magic_cookie = 554869826

-- The four fields; the transaction identifier is 12 bytes. A nil header is not modelled.
pub record Header : Type 0 where
  pub msg_type : ℕ
  pub msg_length : ℕ
  pub cookie : ℕ
  pub transaction_id : List ℕ

unfoldable pub new_header : ℕ → List ℕ → Header
new_header msg_type tx_id = record {
  msg_type = msg_type;
  msg_length = 0;
  cookie = magic_cookie;
  transaction_id = tx_id;
}

pub data HeaderError : Type 0 where
  invalid_type invalid_cookie invalid_length : HeaderError

-- `none` is no error.
unfoldable pub validate : Header → Option HeaderError
validate h =
    if not (h.msg_type / 2 ^ 14 % 4 == 0)
    then some invalid_type
    else if not (h.cookie == magic_cookie)
    then some invalid_cookie
    else if not (h.msg_length % 4 == 0)
    then some invalid_length
    else none

-- `binary.BigEndian.Uint16` and `Uint32` of the bytes from index `i`.
abbrev pub uint16_at : List ℕ → ℕ → ℕ
uint16_at b i = get_or b i 0 * 256 + get_or b (i + 1) 0

abbrev pub uint32_at : List ℕ → ℕ → ℕ
uint32_at b i = uint16_at b i * 2 ^ 16 + uint16_at b (i + 2)

unfoldable pub decode_from_bytes : List ℕ → Option Header
decode_from_bytes b =
    if ltb (length b) 20
    then none
    else some (record {
      msg_type = uint16_at b 0;
      msg_length = uint16_at b 2;
      cookie = uint32_at b 4;
      transaction_id = take 12 (drop 8 b);
    })

-- `PutUint16` and `PutUint32`, as the bytes that they write.
abbrev pub put_uint16 : ℕ → List ℕ
put_uint16 v = v / 2 ^ 8 % 256 ∷ v % 256 ∷ []

abbrev pub put_uint32 : ℕ → List ℕ
put_uint32 v = v / 2 ^ 24 % 256 ∷ v / 2 ^ 16 % 256 ∷ v / 2 ^ 8 % 256 ∷ v % 256 ∷ []

-- What `SerializeTo` appends to the buffer.
unfoldable pub serialize_to : List ℕ → Header → List ℕ
serialize_to sb h =
    sb
    ++ (put_uint16 h.msg_type
        ++ (put_uint16 h.msg_length ++ (put_uint32 h.cookie ++ h.transaction_id)))

unfoldable pub calculate_padding : ℕ → ℕ
calculate_padding len = if len % 4 == 0 then 0 else 4 - len % 4

-- Fields of the widths that the code declares.
pub record InRange (h : Header) : Type 0 where
  pub type16 : h.msg_type < 2 ^ 16
  pub length16 : h.msg_length < 2 ^ 16
  pub cookie32 : h.cookie < 2 ^ 32
  pub id12 : length h.transaction_id ≡ 12

-- A header with fields in range is decoded from its own 20 bytes, whatever follows them.
pub serialize-decode :
    (h : Header) (rest : List ℕ)
    → InRange h
    → (decode_from_bytes (serialize_to [] h ++ rest) ≡ some h) × (length (serialize_to [] h) ≡ 20)
unfolding serialize_to decode_from_bytes
serialize-decode h rest r =
    let bytes = serialize_to [] h ++ rest in
    let long : 20 ≤ length bytes = omega (arith, length-append h.transaction_id rest, r.id12) in
    let type_eq : uint16_at bytes 0 ≡ h.msg_type = omega (arith, r.type16) in
    let length_eq : uint16_at bytes 2 ≡ h.msg_length = omega (arith, r.length16) in
    let cookie_eq : uint32_at bytes 4 ≡ h.cookie = omega (arith, r.cookie32) in
    let id_eq : take 12 (h.transaction_id ++ rest) ≡ h.transaction_id =
      subst (λ n. take n (h.transaction_id ++ rest) ≡ h.transaction_id) r.id12
        (take-length_append h.transaction_id rest) in
    (
      rw (ltb_of_le (length bytes) 20 long, decode_from_bytes, type_eq, length_eq, cookie_eq, id_eq)
          refl,
      omega (arith, r.id12),
    )

-- Padding brings a length up to the next multiple of 4, and is less than 4.
pub calculate_padding_lem :
    (len : ℕ) → ((len + calculate_padding len) % 4 ≡ 0) × (calculate_padding len < 4)
unfolding calculate_padding
calculate_padding_lem len = ground arith

-- A header with fields in range passes `Validate` exactly when its type has 14 bits, its
-- cookie is the magic one and its length is a multiple of 4.
pub validate_lem :
    (h : Header)
    → InRange h
    → (validate h ≡ none)
      ↔ ((h.msg_type < 2 ^ 14) × (h.cookie ≡ magic_cookie) × (h.msg_length % 4 ≡ 0))
unfolding validate
validate_lem h r = (λ e. ground (arith, r.type16), λ e. ground (arith, r.type16))
