-- ===== src/Stun/Message/RoundTrip.antt =====
-- `DecodeMessage` of pkg/stun/message.go on the bytes of a message.
use pig.Base.{
  ℕ, ◌+◌, ◌^◌, ◌≤◌, ◌<◌, ◌≡◌, refl, sym, ap, subst, ◌∙◌, some, List, [], ◌∷◌, ◌++◌, length, take,
  drop, false, arith, length-append, ltb_of_le, take-length_append, drop-length_append,
  append_assoc,
}
use pig.Stun.Header
use pig.Stun.Header.{Header, InRange, serialize_to, serialize-decode}
use pig.Stun.Attribute.{Attribute, serialize_attrs}
use pig.Stun.Attribute.Decode.{decoded, decode_attributes}
use pig.Stun.Attribute.Wire.{AreWritable}
use pig.Stun.Attribute.RoundTrip.{decode_attributes-serialize, value_short}
use pig.Stun.Message.{decode_message, message, with_attributes}
use pig.Stun.Message.WellFormed.{message_of, with_length, AllFit}

pub AreWritable-AllFit : (attrs : List Attribute) → AreWritable attrs → AllFit attrs
AreWritable-AllFit [] h = tt
AreWritable-AllFit (a ∷ attrs) h = (value_short a h.0, AreWritable-AllFit attrs h.1)

-- The first bytes and the rest, for a known count of the first.
take_exact : (n : ℕ) (xs ys : List ℕ) → length xs ≡ n → take n (xs ++ ys) ≡ xs
take_exact n xs ys e = subst (λ k. take k (xs ++ ys) ≡ xs) e (take-length_append xs ys)

drop_exact : (n : ℕ) (xs ys : List ℕ) → length xs ≡ n → drop n (xs ++ ys) ≡ ys
drop_exact n xs ys e = subst (λ k. drop k (xs ++ ys) ≡ ys) e (drop-length_append xs ys)

decode_message-at :
    (b beyond : List ℕ) (h : Header) (attrs : List Attribute)
    → Header.decode_from_bytes b ≡ some h
    → 20 + h.msg_length ≤ length b
    → decode_attributes (take h.msg_length (drop 20 b)) (drop (20 + h.msg_length) b ++ beyond)
      ≡ some (decoded attrs)
    → decode_message b beyond
      ≡ some (with_attributes h (take (20 + h.msg_length) b) (decoded attrs))
unfolding decode_message
decode_message-at b beyond h attrs e l a =
    rw (e, decode_message, ltb_of_le (length b) (20 + h.msg_length) l, a) refl

pub with_length-InRange :
    (h : Header) (attrs : List Attribute) → InRange h → InRange (with_length h attrs)
with_length-InRange h attrs r = record {
  type16 = r.type16;
  length16 = omega arith;
  cookie32 = r.cookie32;
  id12 = r.id12;
}

-- `DecodeMessage` gives back the message of writable attributes of less than 2 ^ 16 bytes together,
-- from its bytes alone or with others behind them.
pub decode_message-message_of :
    (h : Header) (attrs : List Attribute) (after beyond : List ℕ)
    → InRange h
    → AreWritable attrs
    → length (serialize_attrs attrs) < 2 ^ 16
    → decode_message ((message_of h attrs false).raw ++ after) beyond
      ≡ some (message (message_of h attrs false))
decode_message-message_of h attrs after beyond r w l =
    let h' = with_length h attrs in
    let body = serialize_attrs attrs in
    let bytes = (serialize_to [] h' ++ body) ++ after in
    let head = serialize_to [] h' in
    let header = serialize-decode h' (body ++ after) (with_length-InRange h attrs r) in
    let n : h'.msg_length ≡ length body = omega arith in
    let size : length (head ++ body) ≡ 20 + h'.msg_length =
      omega (arith, length-append head body, header.1, n) in
    let regroup = append_assoc head body after in
    let rest : take h'.msg_length (drop 20 bytes) ≡ body =
      ap (λ x. take h'.msg_length (drop 20 x)) regroup
      ∙ ap (take h'.msg_length) (drop_exact 20 head (body ++ after) header.1)
      ∙ take_exact h'.msg_length body after (sym n) in
    let behind = drop (20 + h'.msg_length) bytes ++ beyond in
    let own : take (20 + h'.msg_length) bytes ≡ head ++ body =
      take_exact (20 + h'.msg_length) (head ++ body) after size in
    decode_message-at bytes beyond h' attrs (ap Header.decode_from_bytes regroup ∙ header.0)
      (omega (arith, length-append (head ++ body) after, size))
      (ap (λ x. decode_attributes x behind) rest ∙ decode_attributes-serialize attrs behind w)
    ∙ ap (λ x. some (with_attributes h' x (decoded attrs))) own
