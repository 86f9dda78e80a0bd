-- ===== src/Stun/Message/Integrity/Scan.antt =====
-- The search for MESSAGE-INTEGRITY in the bytes of a message, and the sum before it: pkg/stun/integrity.go.
use pig.Base.{
  ℕ, zero, suc, ◌+◌, ◌-◌, ◌%◌, ◌^◌, ◌<◌, ◌≤◌, ◌≡◌, ◌≢◌, refl, sym, ap, ap₂, ◌∙◌, false, some, List,
  [], ◌∷◌, ◌++◌, length, take, drop, arith, length-append, append_assoc, take-length_append,
  drop-length_append, ltb_of_le, ==_refl, ==_of_ne,
}
use pig.Stun.Header.{Header, serialize_to, uint16_at, calculate_padding}
use pig.Stun.Attribute.{
  Attribute, get_type, value_bytes, serialize_attr, serialize_attrs, attr_serialize_len,
  attr_serialized_size,
}
use pig.Stun.Attribute.Wire.{IsWritable, AreWritable, wire, wire_type, wire_length}
use pig.Stun.Attribute.RoundTrip.{
  serialize_attr-wire, type_short, value_short, length-serialize_attr, padding_of,
  length-serialize_attrs,
}
use pig.Stun.Message.{put_length}
use pig.Stun.Message.WellFormed.{put_length-serialize_to}
use pig.Stun.Message.Integrity.{
  Keyed, scan, computed, is_empty, sum_to, sum_at, calculate_short_term_message_integrity,
}

-- No attribute of a type.
abbrev pub Lacks : ℕ → List Attribute → Type 0
Lacks type [] = Unit {0}
Lacks type (a ∷ attrs) = (get_type a ≢ type) × Lacks type attrs

scan_skips :
    (rounds type i n : ℕ) (b : List ℕ)
    → 4 ≤ length b
    → uint16_at b 0 ≢ type
    → 4 + uint16_at b 2 + calculate_padding (uint16_at b 2) ≡ n
    → scan (suc rounds) type b i ≡ scan rounds type (drop n b) (i + n)
unfolding scan
scan_skips rounds type i n b l d e =
    rw (ltb_of_le (length b) 4 l, ==_of_ne (uint16_at b 0) type d, scan, e) refl

scan_finds :
    (rounds type i : ℕ) (b : List ℕ)
    → 4 ≤ length b
    → uint16_at b 0 ≡ type
    → scan (suc rounds) type b i ≡ some i
unfolding scan
scan_finds rounds type i b l e = rw (ltb_of_le (length b) 4 l, e, ==_refl type, scan) refl

serialized_size :
    (a : Attribute)
    → IsWritable a
    → (t : ℕ) → t ≡ length (value_bytes a)
    → 4 + t + calculate_padding t ≡ attr_serialize_len a
unfolding attr_serialize_len attr_serialized_size
serialized_size a w t e =
    let h = value_short a w in
    let m : length (value_bytes a) % 2 ^ 16 ≡ t = omega arith in
    rw (m, attr_serialize_len, attr_serialized_size) refl

skip_first :
    (a : Attribute) (rounds type i : ℕ) (rest : List ℕ)
    → IsWritable a
    → get_type a ≢ type
    → scan (suc rounds) type (serialize_attr a ++ rest) i
      ≡ scan rounds type rest (i + attr_serialize_len a)
skip_first a rounds type i rest w d =
    let v = value_bytes a in
    let tail = padding_of a ++ rest in
    let n = attr_serialize_len a in
    let short = value_short a w in
    let bytes = serialize_attr-wire a rest short in
    let own = wire_type (get_type a) v tail (type_short a w) in
    let size =
      serialized_size a w (uint16_at (wire (get_type a) v tail) 2)
        (wire_length (get_type a) v tail short) in
    let step =
      scan_skips rounds type i n (wire (get_type a) v tail) (omega arith) (λ e. d (sym own ∙ e))
        size in
    let next : drop n (serialize_attr a ++ rest) ≡ rest =
      ap (λ k. drop k (serialize_attr a ++ rest)) (sym (length-serialize_attr a short))
      ∙ drop-length_append (serialize_attr a) rest in
    ap (λ x. scan (suc rounds) type x i) bytes
    ∙ step
    ∙ ap (λ x. scan rounds type (drop n x) (i + n)) (sym bytes)
    ∙ ap (λ x. scan rounds type x (i + n)) next

-- The attributes before it are skipped by their length and padding.
pub scan-serialize_attrs :
    (attrs : List Attribute) (rounds type i : ℕ) (after : List ℕ)
    → AreWritable attrs
    → Lacks type attrs
    → length attrs < rounds
    → 4 ≤ length after
    → uint16_at after 0 ≡ type
    → scan rounds type (serialize_attrs attrs ++ after) i
      ≡ some (i + length (serialize_attrs attrs))
unfolding serialize_attrs
scan-serialize_attrs attrs zero type i after w n r l e = absurd (omega arith)
scan-serialize_attrs [] (suc rounds) type i after w n r l e =
    scan_finds rounds type i after l e ∙ ap some (omega arith)
scan-serialize_attrs (a ∷ attrs) (suc rounds) type i after w n r l e =
    let body = serialize_attrs attrs in
    let size = length-serialize_attr a (value_short a w.0) in
    let regroup = append_assoc (serialize_attr a) body after in
    let first = skip_first a rounds type i (body ++ after) w.0 n.0 in
    let ih =
      scan-serialize_attrs attrs rounds type (i + attr_serialize_len a) after w.1 n.1 (omega arith)
        l e in
    let total : i + attr_serialize_len a + length body ≡ i + length (serialize_attr a ++ body) =
      omega (arith, length-append (serialize_attr a) body, size) in
    ap (λ x. scan (suc rounds) type x i) regroup ∙ first ∙ ih ∙ ap some total

-- The sum over the header, with a length up to the attribute's end, and the attributes before it.
abbrev pub expected_sum : Keyed → Header → List Attribute → List ℕ → List ℕ
expected_sum k h attrs password =
    let n = (length (serialize_attrs attrs) + (4 + k.size)) % 2 ^ 16 in
    k.sum (k.opaque_string password)
      (serialize_to [] (record h { msg_length = n }) ++ serialize_attrs attrs)

header_length : (h : Header) → length h.transaction_id ≡ 12 → length (serialize_to [] h) ≡ 20
unfolding serialize_to
header_length h e = omega (arith, e)

sum_to-before :
    (k : Keyed) (h : Header) (old : ℕ) (attrs : List Attribute) (after password : List ℕ)
    → length h.transaction_id ≡ 12
    → sum_to k
        (serialize_to [] (record h { msg_length = old }) ++ (serialize_attrs attrs ++ after))
        password
        (20 + length (serialize_attrs attrs))
      ≡ expected_sum k h attrs password
sum_to-before k h old attrs after password id12 =
    let head = serialize_to [] (record h { msg_length = old }) in
    let body = serialize_attrs attrs in
    let size : length (head ++ body) ≡ 20 + length body =
      omega (arith, length-append head body, header_length (record h { msg_length = old }) id12) in
    let first : take (20 + length body) (head ++ (body ++ after)) ≡ head ++ body =
      ap (λ n. take n (head ++ (body ++ after))) (sym size)
      ∙ ap (take (length (head ++ body))) (sym (append_assoc head body after))
      ∙ take-length_append (head ++ body) after in
    let n : (20 + length body - 20 + (4 + k.size)) % 2 ^ 16
        ≡ (length body + (4 + k.size)) % 2 ^ 16 =
      omega arith in
    ap (k.sum (k.opaque_string password)) (
      ap₂ put_length first n
      ∙ put_length-serialize_to (record h { msg_length = old })
          ((length body + (4 + k.size)) % 2 ^ 16) body)

-- The sum does not depend on the length field of the bytes, nor on what follows the attribute's type.
pub calculate-before :
    (k : Keyed) (h : Header) (old type : ℕ) (attrs : List Attribute) (after password : List ℕ)
    → length h.transaction_id ≡ 12
    → is_empty password ≡ false
    → AreWritable attrs
    → Lacks type attrs
    → 4 ≤ length after
    → uint16_at after 0 ≡ type
    → calculate_short_term_message_integrity k
        (serialize_to [] (record h { msg_length = old }) ++ (serialize_attrs attrs ++ after))
        password
        type
      ≡ computed (expected_sum k h attrs password)
unfolding calculate_short_term_message_integrity
calculate-before k h old type attrs after password id12 p w n l t =
    let head = serialize_to [] (record h { msg_length = old }) in
    let body = serialize_attrs attrs in
    let b = head ++ (body ++ after) in
    let twenty = header_length (record h { msg_length = old }) id12 in
    let long : 20 ≤ length b = omega (arith, length-append head (body ++ after), twenty) in
    let rest : drop 20 b ≡ body ++ after =
      ap (λ k. drop k b) (sym twenty) ∙ drop-length_append head (body ++ after) in
    let rounds : length attrs < suc (length b) = omega (
      arith,
      length-append head (body ++ after),
      length-append body after,
      length-serialize_attrs attrs,
    ) in
    let found : scan (suc (length b)) type (drop 20 b) 20 ≡ some (suc (19 + length body)) =
      ap (λ x. scan (suc (length b)) type x 20) rest
      ∙ scan-serialize_attrs attrs (suc (length b)) type 20 after w n rounds l t
      ∙ ap some (let e : 20 + length body ≡ suc (19 + length body) = omega arith in e) in
    let total : suc (19 + length body) ≡ 20 + length body = omega arith in
    rw (p, ltb_of_le (length b) 20 long, calculate_short_term_message_integrity)
      (ap (sum_at k b password) found
        ∙ ap (λ n. computed (sum_to k b password n)) total
        ∙ ap computed (sum_to-before k h old attrs after password id12))
