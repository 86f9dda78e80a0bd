-- ===== src/Stun/Message/Delivery.antt =====
-- Messages of pkg/stun from the sender's calls to the receiver's: signed requests and the
-- mapped address of a response.
use pig.Base.{
  ℕ, ◌+◌, ◌^◌, ◌<◌, ◌≤◌, ◌≡◌, refl, ap, ◌∙◌, ◌⊎◌, inl, inr, Bool, true, false, some, List, [], ◌∷◌,
  ◌++◌, length, arith, length-append, ==_refl,
}
use pig.Stun.Header.{Header, InRange, new_header, calculate_padding}
use pig.Stun.Attribute.{
  Attribute, message_integrity_attr, username_attr, xor_mapped_address_attr, value_bytes,
  serialize_attr, serialize_attrs, get_type, attr_serialize_len, attr_serialized_size,
}
use pig.Stun.Attribute.Wire.{IsWritable, AreWritable}
use pig.Stun.Attribute.RoundTrip.{length-serialize_attr}
use pig.Stun.Attribute.Address.{
  udp_addr, created, addr_port, new_xor_mapped_address_attr, decode_xor_mapped_address,
}
use pig.Stun.Attribute.Address.RoundTrip.{canonical, new_xor_mapped_address_attr-decode}
use pig.Stun.Message.{
  Message, message, decode_message, find_attribute, new_message_with_transaction_id,
}
use pig.Stun.Message.Order.{InOrder, IsBefore, rank}
use pig.Stun.Message.WellFormed.{message_of, AllFit, new_message_lem}
use pig.Stun.Message.RoundTrip.{decode_message-message_of, AreWritable-AllFit}
use pig.Stun.Message.Fingerprint.Ends.{InOrder-retype}
use pig.Stun.Message.Integrity.{
  Keyed, is_empty, bytes_equal, signed, add_message_integrity, validate_short_term_integrity,
}
use pig.Stun.Message.Integrity.Scan.{expected_sum}
use pig.Stun.Message.Integrity.Laws.{verify_message_integrity-message_of, find_attribute-after}
use pig.Stun.Message.Integrity.Sign.{IsSha1Sized, add_message_integrity-message_of, integrity_total}
use pig.Stun.Message.Query.{mapped_addr_port, mapped, mapped_of}

pub bytes_equal_refl : (xs : List ℕ) → bytes_equal xs xs ≡ true
bytes_equal_refl [] = refl
bytes_equal_refl (x ∷ xs) = rw (==_refl x) (bytes_equal_refl xs)

pub AreWritable-append :
    (attrs : List Attribute) (a : Attribute)
    → AreWritable attrs
    → IsWritable a
    → AreWritable (attrs ++ (a ∷ []))
AreWritable-append [] a w h = (h, tt)
AreWritable-append (b ∷ attrs) a w h = (w.0, AreWritable-append attrs a w.1 h)

-- `ValidateShortTermIntegrity` of a message that starts with a username, for that username, accepts
-- exactly the sum with the expected password as the value of its MESSAGE-INTEGRITY.
pub validate_short_term_integrity-message_of :
    (k : Keyed) (h : Header) (name : List ℕ) (rest : List Attribute) (w : List ℕ)
    (more : List Attribute) (flag : Bool) (password : List ℕ)
    → length h.transaction_id ≡ 12
    → is_empty password ≡ false
    → is_empty (k.opaque_string name) ≡ false
    → AreWritable (username_attr name ∷ rest)
    → InOrder (username_attr name ∷ (rest ++ (message_integrity_attr w ∷ [])))
    → length w ≡ 20
    → validate_short_term_integrity k
        (message_of h (username_attr name ∷ (rest ++ (message_integrity_attr w ∷ more))) flag)
        name
        password
      ≡ bytes_equal w (expected_sum k h (username_attr name ∷ rest) password)
unfolding validate_short_term_integrity
validate_short_term_integrity-message_of k h name rest w more flag password id12 p q ok o e =
    let attrs = username_attr name ∷ rest in
    let same = bytes_equal_refl (k.opaque_string name) in
    let found : find_attribute 0x0006 (attrs ++ (message_integrity_attr w ∷ more))
        ≡ some (username_attr name) =
      find_attribute-after [] 0x0006 (username_attr name)
        (rest ++ (message_integrity_attr w ∷ more)) tt (unfold get_type in refl) in
    let verdict =
      verify_message_integrity-message_of k h attrs w more flag password id12 p ok o e in
    rw (p, found, q, same, verdict, validate_short_term_integrity) refl

-- A request with a username that is signed with a password is decoded from its bytes, with any others
-- behind them, and passes `ValidateShortTermIntegrity` for that username and password.
pub signed_request_accepted :
    (k : Keyed) (h : Header) (name : List ℕ) (rest : List Attribute)
    (password after beyond : List ℕ)
    → IsSha1Sized k
    → InRange h
    → is_empty password ≡ false
    → is_empty (k.opaque_string name) ≡ false
    → AreWritable (username_attr name ∷ rest)
    → InOrder (username_attr name ∷ (rest ++ (message_integrity_attr [] ∷ [])))
    → length (serialize_attrs (username_attr name ∷ rest)) + 24 < 2 ^ 16
    → (msg : Message) × (add_message_integrity k
          (message_of h (username_attr name ∷ rest) false)
          password
          0x0008
        ≡ signed msg)
      × (decode_message (msg.raw ++ after) beyond ≡ some (message msg))
      × (validate_short_term_integrity k msg name password ≡ true)
signed_request_accepted k h name rest password after beyond sized r p q ok o l =
    let attrs = username_attr name ∷ rest in
    let v = expected_sum k h attrs password in
    let twenty : length v ≡ 20 = sized.sum20 _ _ in
    let o' =
      InOrder-retype attrs (message_integrity_attr []) (message_integrity_attr v)
        (unfold get_type in refl) o in
    (
      message_of h (attrs ++ (message_integrity_attr v ∷ [])) false,
      add_message_integrity-message_of k h attrs false password sized r.id12 p ok o,
      decode_message-message_of h (attrs ++ (message_integrity_attr v ∷ [])) after beyond r
          (AreWritable-append attrs (message_integrity_attr v) ok twenty)
          (omega (arith, integrity_total attrs v twenty, l)),
      validate_short_term_integrity-message_of k h name rest v [] false password r.id12 p q ok o'
            twenty
          ∙ bytes_equal_refl v,
    )

IsBefore-plain : (a : Attribute) (attrs : List Attribute) → rank (get_type a) ≡ 0 → IsBefore a attrs
IsBefore-plain a [] e = tt
IsBefore-plain a (b ∷ attrs) e = (inl e, IsBefore-plain a attrs e)

pub new_message_ok :
    (msg_type : ℕ) (attrs : List Attribute) (tx_id : List ℕ)
    → AllFit attrs
    → InOrder attrs
    → new_message_with_transaction_id msg_type attrs tx_id
      ≡ some (message_of (new_header msg_type tx_id) attrs false)
new_message_ok msg_type attrs tx_id f o = elim (new_message_lem msg_type attrs tx_id f) [
  | inl (_, e) ↦ e
  | inr (never, _) ↦ absurd (never o)
]

pub new_header-InRange :
    (msg_type : ℕ) (tx_id : List ℕ)
    → msg_type < 2 ^ 16
    → length tx_id ≡ 12
    → InRange (new_header msg_type tx_id)
unfolding new_header
new_header-InRange msg_type tx_id t n = record {
  type16 = t;
  length16 = omega arith;
  cookie32 = omega arith;
  id12 = n;
}

pub mapped_length :
    (v : List ℕ) (rest : List Attribute)
    → (length v ≡ 8) ⊎ (length v ≡ 20)
    → length (serialize_attrs (xor_mapped_address_attr v ∷ rest))
      ≤ 24 + length (serialize_attrs rest)
unfolding serialize_attrs value_bytes attr_serialize_len attr_serialized_size calculate_padding
mapped_length v rest w =
    let l = length-serialize_attr (xor_mapped_address_attr v) (ground arith) in
    ground
      (arith, l, length-append (serialize_attr (xor_mapped_address_attr v)) (serialize_attrs rest))

found_first :
    (v : List ℕ) (msg_type : ℕ) (rest : List Attribute) (tx_id : List ℕ)
    → mapped_addr_port
        (message_of (new_header msg_type tx_id) (xor_mapped_address_attr v ∷ rest) false)
      ≡ mapped (decode_xor_mapped_address v tx_id)
unfolding mapped_addr_port new_header
found_first v msg_type rest tx_id =
    let found : find_attribute 0x0020 (xor_mapped_address_attr v ∷ rest)
        ≡ some (xor_mapped_address_attr v) =
      find_attribute-after [] 0x0020 (xor_mapped_address_attr v) rest tt
        (unfold get_type in refl) in
    ap (λ o. mapped_of tx_id o (find_attribute 0x0001 (xor_mapped_address_attr v ∷ rest))) found

-- The response to a request for the address of its sender: XOR-MAPPED-ADDRESS and any attributes after it
-- but the sums. Decoded from its bytes it gives the address and port.
pub mapped_address_delivered :
    (msg_type : ℕ) (ip tx_id : List ℕ) (port : ℕ) (rest : List Attribute) (after beyond : List ℕ)
    → msg_type < 2 ^ 16
    → (length ip ≡ 4) ⊎ (length ip ≡ 16)
    → port < 2 ^ 16
    → length tx_id ≡ 12
    → AreWritable rest
    → InOrder rest
    → length (serialize_attrs rest) + 24 < 2 ^ 16
    → (a : Attribute) × (msg : Message) × (new_xor_mapped_address_attr
          (udp_addr (some ip) port)
          tx_id
        ≡ created a)
      × (new_message_with_transaction_id msg_type (a ∷ rest) tx_id ≡ some msg)
      × (decode_message (msg.raw ++ after) beyond ≡ some (message msg))
      × (mapped_addr_port msg ≡ mapped (addr_port (canonical ip) port))
mapped_address_delivered msg_type ip tx_id port rest after beyond t i p n ok o l =
    let (v, c, w, d) = new_xor_mapped_address_attr-decode ip port tx_id i p n in
    let a = xor_mapped_address_attr v in
    let h = new_header msg_type tx_id in
    let all = IsBefore-plain a rest (unfold get_type in refl) in
    let writable : AreWritable (a ∷ rest) = (w, ok) in
    (
      a,
      message_of h (a ∷ rest) false,
      c,
      new_message_ok msg_type (a ∷ rest) tx_id (AreWritable-AllFit (a ∷ rest) writable) (all, o),
      decode_message-message_of h (a ∷ rest) after beyond (new_header-InRange msg_type tx_id t n)
          writable (omega (arith, mapped_length v rest w, l)),
      found_first v msg_type rest tx_id ∙ ap mapped d,
    )
