-- ===== src/Stun/Attribute/Wire.antt =====
-- The decoders of pkg/stun/attributes.go on the bytes of an attribute.
use pig.Base.{
  ℕ, suc, ◌+◌, ◌-◌, ◌*◌, ◌/◌, ◌%◌, ◌^◌, ◌<◌, ◌≡◌, refl, ap, subst, ◌∙◌, ◌⊎◌, some, List, [], ◌∷◌,
  ◌++◌, length, take, arith, length-append, take-length_append, append_assoc,
}
use pig.Stun.Header.{uint16_at, uint32_at, put_uint32}
use pig.Stun.Attribute.{
  Attribute, username_attr, realm_attr, nonce_attr, message_integrity_attr,
  message_integrity_sha256_attr, error_code_attr, mapped_address_attr, xor_mapped_address_attr,
  other_address_attr, fingerprint_attr, ice_priority_attr, change_request_attr,
  ice_use_candidate_attr, ice_controlling_attr, ice_controlled_attr, unknown_attr, get_type,
  value_bytes, put_uint64,
}
use pig.Stun.Attribute.Decode.{
  decoded, decode_string, decode_address, decode_fixed, decode_change_request, decode_error_code,
  decode_registered, read_integrity, read_integrity_sha256, read_fingerprint, read_priority,
  read_use_candidate, read_controlling, read_controlled,
}

-- A value that the code can write and read: short enough, of the length of its type, in range.
abbrev pub IsWritable : Attribute → Type 0
IsWritable (username_attr v) = length v < 65532
IsWritable (realm_attr v) = length v < 65532
IsWritable (nonce_attr v) = length v < 65532
IsWritable (message_integrity_attr v) = length v ≡ 20
IsWritable (message_integrity_sha256_attr v) = length v ≡ 32
IsWritable (error_code_attr code reason) = (code < 25600) × (length reason < 65528)
IsWritable (mapped_address_attr v) = (length v ≡ 8) ⊎ (length v ≡ 20)
IsWritable (xor_mapped_address_attr v) = (length v ≡ 8) ⊎ (length v ≡ 20)
IsWritable (other_address_attr v) = (length v ≡ 8) ⊎ (length v ≡ 20)
IsWritable (fingerprint_attr v) = v < 2 ^ 32
IsWritable (ice_priority_attr v) = v < 2 ^ 32
IsWritable (change_request_attr flags) = flags < 2 ^ 32
IsWritable ice_use_candidate_attr = Unit {0}
IsWritable (ice_controlling_attr v) = v < 2 ^ 64
IsWritable (ice_controlled_attr v) = v < 2 ^ 64
IsWritable (unknown_attr type v) = ⊥

abbrev pub AreWritable : List Attribute → Type 0
AreWritable [] = Unit {0}
AreWritable (a ∷ attrs) = IsWritable a × AreWritable attrs

-- An attribute on the wire, with bytes after it.
abbrev pub wire : ℕ → List ℕ → List ℕ → List ℕ
wire type v after =
    type / 2 ^ 8 % 256 ∷ type % 256 ∷ length v / 2 ^ 8 % 256 ∷ length v % 256 ∷ (v ++ after)

pub wire_type :
    (type : ℕ) (v after : List ℕ) → type < 65536 → uint16_at (wire type v after) 0 ≡ type
wire_type type v after h = omega arith

pub wire_length :
    (type : ℕ) (v after : List ℕ) → length v < 65536 → uint16_at (wire type v after) 2 ≡ length v
wire_length type v after h = omega arith

decode_string-wire :
    (type : ℕ) (make : List ℕ → Attribute) (v after : List ℕ)
    → type < 65536
    → length v < 65532
    → decode_string type make (wire type v after) ≡ decoded (make v)
unfolding decode_string
decode_string-wire type make v after h h' =
    let n = length-append v after in
    rw
      (
        wire_type type v after h,
        wire_length type v after (omega arith),
        decode_string,
        take-length_append v after,
      )
      (ground (arith, n))

pub decode_address-wire :
    (type : ℕ) (make : List ℕ → Attribute) (v after : List ℕ)
    → type < 65536
    → (length v ≡ 8) ⊎ (length v ≡ 20)
    → decode_address type make (wire type v after) ≡ decoded (make v)
unfolding decode_address
decode_address-wire type make v after h h' =
    let n = length-append v after in
    let short : length v < 65536 = ground arith in
    rw
      (
        wire_type type v after h,
        wire_length type v after short,
        decode_address,
        take-length_append v after,
      )
      (ground (arith, n))

decode_fixed-wire :
    (type n : ℕ) (make : List ℕ → Attribute) (v after : List ℕ) (a : Attribute)
    → type < 65536
    → n < 65536
    → length v ≡ n
    → make (wire type v after) ≡ a
    → decode_fixed type n make (wire type v after) ≡ decoded a
unfolding decode_fixed
decode_fixed-wire type n make v after a h h' e m =
    let l = length-append v after in
    let short : length v < 65536 = omega arith in
    rw (m, wire_type type v after h, wire_length type v after short, decode_fixed, e)
      (ground (arith, l))

decode_change_request-wire :
    (flags : ℕ) (after : List ℕ)
    → flags < 2 ^ 32
    → decode_change_request (wire 0x0003 (put_uint32 flags) after)
      ≡ decoded (change_request_attr flags)
unfolding decode_change_request
decode_change_request-wire flags after h =
    let e : uint32_at (wire 0x0003 (put_uint32 flags) after) 4 ≡ flags = omega arith in
    rw (decode_change_request, e) (ground arith)

decode_error_code-wire :
    (code : ℕ) (reason after beyond : List ℕ)
    → code < 25600
    → length reason < 65528
    → decode_error_code (wire 0x0009 (0 ∷ code / 100 % 256 ∷ code % 100 ∷ 0 ∷ reason) after) beyond
      ≡ decoded (error_code_attr code reason)
unfolding decode_error_code
decode_error_code-wire code reason after beyond h h' =
    let v = 0 ∷ code / 100 % 256 ∷ code % 100 ∷ 0 ∷ reason in
    let l1 = length-append reason after in
    let l2 = length-append (reason ++ after) beyond in
    let c : code / 100 % 256 * 100 + code % 100 ≡ code = omega arith in
    let n : suc (suc (suc (suc (length reason)))) - 4 ≡ length reason = omega arith in
    let r : take (length reason) ((reason ++ after) ++ beyond) ≡ reason =
      ap (take (length reason)) (append_assoc reason after beyond)
      ∙ take-length_append reason (after ++ beyond) in
    rw (wire_length 0x0009 v after (omega arith), decode_error_code, c)
      (ground (arith, l1, l2, n, r))

uint64_wire :
    (type v : ℕ) (after : List ℕ)
    → v < 2 ^ 64
    → uint32_at (wire type (put_uint64 v) after) 4 * 2 ^ 32
        + uint32_at (wire type (put_uint64 v) after) 8
      ≡ v
uint64_wire type v after h = omega arith

take_exact : (n : ℕ) (v after : List ℕ) → length v ≡ n → take n (v ++ after) ≡ v
take_exact n v after e = subst (λ k. take k (v ++ after) ≡ v) e (take-length_append v after)

pub decode_registered-wire :
    (a : Attribute) (after beyond : List ℕ)
    → IsWritable a
    → decode_registered (get_type a) (wire (get_type a) (value_bytes a) after) beyond
      ≡ some (decoded a)
unfolding decode_registered get_type value_bytes
decode_registered-wire (username_attr v) after beyond h =
    ap some (decode_string-wire 0x0006 username_attr v after (omega arith) h)
decode_registered-wire (realm_attr v) after beyond h =
    ap some (decode_string-wire 0x0014 realm_attr v after (omega arith) h)
decode_registered-wire (nonce_attr v) after beyond h =
    ap some (decode_string-wire 0x0015 nonce_attr v after (omega arith) h)
decode_registered-wire (message_integrity_attr v) after beyond h = ap some (
    decode_fixed-wire 0x0008 20 read_integrity v after _ (omega arith) (omega arith) h
      (ap message_integrity_attr (take_exact 20 v after h)))
decode_registered-wire (message_integrity_sha256_attr v) after beyond h = ap some (
    decode_fixed-wire 0x001c 32 read_integrity_sha256 v after _ (omega arith) (omega arith) h
      (ap message_integrity_sha256_attr (take_exact 32 v after h)))
decode_registered-wire (error_code_attr code reason) after beyond h =
    ap some (decode_error_code-wire code reason after beyond h.0 h.1)
decode_registered-wire (mapped_address_attr v) after beyond h =
    ap some (decode_address-wire 0x0001 mapped_address_attr v after (omega arith) h)
decode_registered-wire (xor_mapped_address_attr v) after beyond h =
    ap some (decode_address-wire 0x0020 xor_mapped_address_attr v after (omega arith) h)
decode_registered-wire (other_address_attr v) after beyond h =
    ap some (decode_address-wire 0x802c other_address_attr v after (omega arith) h)
decode_registered-wire (fingerprint_attr v) after beyond h =
    let e : uint32_at (wire 0x8028 (put_uint32 v) after) 4 ≡ v = omega arith in
    ap some (
      decode_fixed-wire 0x8028 4 read_fingerprint (put_uint32 v) after _ (omega arith) (omega arith)
        refl (ap fingerprint_attr e))
decode_registered-wire (ice_priority_attr v) after beyond h =
    let e : uint32_at (wire 0x0024 (put_uint32 v) after) 4 ≡ v = omega arith in
    ap some (
      decode_fixed-wire 0x0024 4 read_priority (put_uint32 v) after _ (omega arith) (omega arith)
        refl (ap ice_priority_attr e))
decode_registered-wire (change_request_attr flags) after beyond h =
    ap some (decode_change_request-wire flags after h)
decode_registered-wire ice_use_candidate_attr after beyond h = ap some (
    decode_fixed-wire 0x0025 0 read_use_candidate [] after ice_use_candidate_attr (omega arith)
      (omega arith) refl refl)
decode_registered-wire (ice_controlling_attr v) after beyond h = ap some (
    decode_fixed-wire 0x802a 8 read_controlling (put_uint64 v) after _ (omega arith) (omega arith)
      refl (ap ice_controlling_attr (uint64_wire 0x802a v after h)))
decode_registered-wire (ice_controlled_attr v) after beyond h = ap some (
    decode_fixed-wire 0x8029 8 read_controlled (put_uint64 v) after _ (omega arith) (omega arith)
      refl (ap ice_controlled_attr (uint64_wire 0x8029 v after h)))
decode_registered-wire (unknown_attr type v) after beyond h = absurd h
