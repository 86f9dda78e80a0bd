-- ===== src/Stun/Message/Integrity.antt =====
-- MESSAGE-INTEGRITY in pkg/stun/integrity.go. The keyed hash and the processing of strings are parameters.
-- A failed `AddMessageIntegrityWithHash` may leave its attribute on the message; only the error is modelled.
pub mod Scan
pub mod Laws
pub mod Sign
use pig.Base.{
  ℕ, zero, suc, ◌+◌, ◌-◌, ◌*◌, ◌/◌, ◌%◌, ◌^◌, Bool, true, false, not, ◌&&◌, Option, none, some,
  List, [], ◌∷◌, ◌++◌, ◌==◌, ltb, if◌then◌else◌, length, take, drop, replicate,
}
use pig.Stun.Header.{uint16_at, calculate_padding}
use pig.Stun.Attribute.{Attribute, message_integrity_attr, username_attr}
use pig.Stun.Message.{Message, put_length, append_attribute, find_attribute}
use pig.Stun.Message.Fingerprint.{without_last}

-- `hmac.New` with a hash: the size of its sums, and the sum for a key and a message. `OpaqueString`.
pub record Keyed : Type 0 where
  pub size : ℕ
  pub sum : List ℕ → List ℕ → List ℕ
  pub opaque_string : List ℕ → List ℕ

abbrev pub is_empty : List ℕ → Bool
is_empty [] = true
is_empty (x ∷ xs) = false

abbrev pub bytes_equal : List ℕ → List ℕ → Bool
bytes_equal [] [] = true
bytes_equal (x ∷ xs) [] = false
bytes_equal [] (y ∷ ys) = false
bytes_equal (x ∷ xs) (y ∷ ys) = let rest = bytes_equal xs ys in (x == y) && rest

-- The loop that looks for the attribute, on the bytes from index `i`: its index, or 0 without one;
-- `none` is a count of rounds that is too small.
unfoldable pub scan : ℕ → ℕ → List ℕ → ℕ → Option ℕ
unfolding calculate_padding
scan zero type b i = none
scan (suc rounds) type b i =
    let n = 4 + uint16_at b 2 + calculate_padding (uint16_at b 2) in
    let next = scan rounds type (drop n b) (i + n) in
    if ltb (length b) 4 then some 0 else if uint16_at b 0 == type then some i else next

-- A sum, or nil, or rounds that run out.
pub data Sum : Type 0 where
  computed : List ℕ → Sum
  no_sum : Sum
  out_of_rounds : Sum

abbrev pub sum_to : Keyed → List ℕ → List ℕ → ℕ → List ℕ
sum_to k b password n =
    k.sum (k.opaque_string password) (put_length (take n b) ((n - 20 + (4 + k.size)) % 2 ^ 16))

abbrev pub sum_at : Keyed → List ℕ → List ℕ → Option ℕ → Sum
sum_at k b password none = out_of_rounds
sum_at k b password (some zero) = computed (sum_to k b password (length b))
sum_at k b password (some (suc n)) = computed (sum_to k b password (suc n))

unfoldable pub calculate_short_term_message_integrity : Keyed → List ℕ → List ℕ → ℕ → Sum
unfolding scan
calculate_short_term_message_integrity k b password type =
    if is_empty password
    then no_sum
    else if ltb (length b) 20
    then no_sum
    else sum_at k b password (scan (suc (length b)) type (drop 20 b) 20)

-- The Boolean result, or an error.
pub data Verified : Type 0 where
  checked : Bool → Verified
  not_checked : Verified

abbrev pub checked_against : List ℕ → Sum → Verified
checked_against v (computed expected) = checked (bytes_equal v expected)
checked_against v no_sum = not_checked
checked_against v out_of_rounds = not_checked

abbrev pub verify_attribute : Keyed → Message → List ℕ → ℕ → Option Attribute → Verified
verify_attribute k msg password type (some (message_integrity_attr v)) =
    checked_against v (calculate_short_term_message_integrity k msg.raw password type)
verify_attribute k msg password type _ = not_checked

unfoldable pub verify_message_integrity : Keyed → Message → List ℕ → ℕ → Verified
unfolding calculate_short_term_message_integrity find_attribute
verify_message_integrity k msg password type =
    if is_empty password
    then not_checked
    else verify_attribute k msg password type (find_attribute type msg.attributes)

pub data Signed : Type 0 where
  signed : Message → Signed
  sign_error : Signed
  sign_panics : Signed

-- `copy(dst, src)`.
abbrev pub copy_over : List ℕ → List ℕ → List ℕ
copy_over dst src = take (length dst) src ++ drop (length src) dst

-- The sum goes into the attribute that was appended, and over the last bytes of the message.
abbrev pub write_sum : Keyed → Message → Sum → Signed
write_sum k msg (computed v) =
    if not (length v == k.size)
    then sign_error
    else if ltb (length msg.raw) k.size
    then sign_panics
    else signed (record msg {
      attributes =
          without_last msg.attributes
          ++ (message_integrity_attr (copy_over (replicate 20 0) v) ∷ []);
      raw = take (length msg.raw - k.size) msg.raw ++ v;
    })
write_sum k msg no_sum = sign_error
write_sum k msg out_of_rounds = sign_error

abbrev pub sign_appended : Keyed → List ℕ → ℕ → Option Message → Signed
sign_appended k password type none = sign_error
sign_appended k password type (some msg) =
    write_sum k msg (calculate_short_term_message_integrity k msg.raw password type)

unfoldable pub add_message_integrity : Keyed → Message → List ℕ → ℕ → Signed
unfolding append_attribute calculate_short_term_message_integrity without_last
add_message_integrity k msg password type =
    if is_empty password
    then sign_error
    else sign_appended k password type
        (append_attribute msg (message_integrity_attr (replicate 20 0)))

-- The username of `GetAuthParams`; an attribute of another kind leaves it empty.
abbrev pub username_of : Option Attribute → List ℕ
username_of (some (username_attr v)) = v
username_of _ = []

abbrev pub is_checked : Verified → Bool
is_checked (checked b) = b
is_checked not_checked = false

-- `ValidateShortTermIntegrity` for an expected username and password: whether it returns nil.
unfoldable pub validate_short_term_integrity : Keyed → Message → List ℕ → List ℕ → Bool
validate_short_term_integrity k msg username password =
    let got = k.opaque_string (username_of (find_attribute 0x0006 msg.attributes)) in
    if is_empty password
    then true
    else if is_empty got
    then false
    else if not (bytes_equal got (k.opaque_string username))
    then false
    else is_checked (verify_message_integrity k msg password 0x0008)
