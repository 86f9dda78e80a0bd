-- ===== src/Stun/Binding/Options.antt =====
-- The attributes that the options of pkg/stun/binding.go add, and the ends of its two builders.
use pig.Base.{
  ℕ, ◌^◌, ◌<◌, ◌≡◌, ◌≢◌, refl, sym, ap, ◌∙◌, inl, inr, Bool, true, false, not, Option, none, some,
  List, [], ◌∷◌, ◌++◌, ◌==◌, ltb, if◌then◌else◌, length, arith, Bool-cases,
}
use pig.Stun.Header.{Header, new_header}
use pig.Stun.Attribute.{
  Attribute, username_attr, realm_attr, nonce_attr, ice_use_candidate_attr, ice_controlling_attr,
  ice_controlled_attr, ice_priority_attr, xor_mapped_address_attr, message_integrity_attr,
  fingerprint_attr, get_type,
}
use pig.Stun.Attribute.Wire.{IsWritable, AreWritable}
use pig.Stun.Message.{find_attribute, new_message_with_transaction_id}
use pig.Stun.Message.Order.{rank}
use pig.Stun.Message.WellFormed.{message_of}
use pig.Stun.Message.Integrity.{Keyed, is_empty}
use pig.Stun.Message.Integrity.Scan.{Lacks, expected_sum}
use pig.Stun.Attribute.Address.{decode_xor_mapped_address}
use pig.Stun.Message.Integrity.Laws.{find_attribute-after}
use pig.Stun.Message.Query.{AuthConfig, mapped, mapped_of, mapped_addr_port}
use pig.Stun.Binding.{
  IceConfig, BindingOptions, when, optional_strings, build_ice_attributes, option_attributes,
}
use pig.Stun.Message.RoundTrip.{AreWritable-AllFit}
use pig.Stun.Message.Delivery.{new_message_ok}
use pig.Stun.Message.Integrity.Sign.{IsSha1Sized, add_message_integrity-message_of}
use pig.Stun.Binding.{built, finish, flagged, built_of}
use pig.Stun.Binding.Free.{AllFree, AllFree-InOrder, free-InOrder}
use pig.Stun.Binding.Sealed.{signed_attrs, sealing, sealed}

-- Strings that fit an attribute, and numbers of their widths.
pub record AuthFits (a : AuthConfig) : Type 0 where
  pub username_fits : length a.username < 65532
  pub realm_fits : length a.realm < 65532
  pub nonce_fits : length a.nonce < 65532

abbrev pub IceFits : Option IceConfig → Type 0
IceFits none = Unit {0}
IceFits (some i) =
    (i.priority < 2 ^ 32) × (i.ice_controlling < 2 ^ 64) × (i.ice_controlled < 2 ^ 64)

-- What the attributes of the options are: free, writable, and not an address.
abbrev pub IsPlain : Attribute → Type 0
IsPlain a = (rank (get_type a) ≡ 0) × IsWritable a × (get_type a ≢ 0x0020)

abbrev pub ArePlain : List Attribute → Type 0
ArePlain [] = Unit {0}
ArePlain (a ∷ attrs) = IsPlain a × ArePlain attrs

ArePlain-append : (xs ys : List Attribute) → ArePlain xs → ArePlain ys → ArePlain (xs ++ ys)
ArePlain-append [] ys p q = q
ArePlain-append (x ∷ xs) ys p q = (p.0, ArePlain-append xs ys p.1 q)

ArePlain-when : (b : Bool) (a : Attribute) → IsPlain a → ArePlain (when b a)
ArePlain-when true a p = (p, tt)
ArePlain-when false a p = tt

pub ArePlain-AllFree : (xs : List Attribute) → ArePlain xs → AllFree xs
ArePlain-AllFree [] p = tt
ArePlain-AllFree (x ∷ xs) p = (p.0.0, ArePlain-AllFree xs p.1)

pub ArePlain-AreWritable : (xs : List Attribute) → ArePlain xs → AreWritable xs
ArePlain-AreWritable [] p = tt
ArePlain-AreWritable (x ∷ xs) p = (p.0.1, ArePlain-AreWritable xs p.1)

pub ArePlain-Lacks : (xs : List Attribute) → ArePlain xs → Lacks 0x0020 xs
ArePlain-Lacks [] p = tt
ArePlain-Lacks (x ∷ xs) p = (p.0.2, ArePlain-Lacks xs p.1)

optional_strings-ArePlain : (a : AuthConfig) → AuthFits a → ArePlain (optional_strings a)
unfolding get_type
optional_strings-ArePlain a f =
    ArePlain-append (when (not (is_empty a.realm)) (realm_attr a.realm)) _
      (ArePlain-when _ (realm_attr a.realm) (refl, f.realm_fits, λ e. absurd (omega arith)))
      (ArePlain-when _ (nonce_attr a.nonce) (refl, f.nonce_fits, λ e. absurd (omega arith)))

build_ice_attributes-ArePlain :
    (ice : Option IceConfig) → IceFits ice → ArePlain (build_ice_attributes ice)
unfolding get_type
build_ice_attributes-ArePlain none f = tt
build_ice_attributes-ArePlain (some i) f =
    ArePlain-append (when i.use_candidate ice_use_candidate_attr) _
      (ArePlain-when _ ice_use_candidate_attr (refl, tt, λ e. absurd (omega arith)))
      (ArePlain-append (when (ltb 0 i.ice_controlling) (ice_controlling_attr i.ice_controlling)) _
        (ArePlain-when _ (ice_controlling_attr i.ice_controlling)
          (refl, f.1, λ e. absurd (omega arith)))
        (ArePlain-append (when (ltb 0 i.ice_controlled) (ice_controlled_attr i.ice_controlled)) _
          (ArePlain-when _ (ice_controlled_attr i.ice_controlled)
            (refl, f.2, λ e. absurd (omega arith)))
          (ArePlain-when _ (ice_priority_attr i.priority) (refl, f.0, λ e. absurd (omega arith)))))

-- The attributes after the username.
abbrev pub further : AuthConfig → Option IceConfig → List Attribute
further a ice = optional_strings a ++ build_ice_attributes ice

pub further-ArePlain :
    (a : AuthConfig) (ice : Option IceConfig)
    → AuthFits a
    → IceFits ice
    → ArePlain (username_attr a.username ∷ further a ice)
unfolding get_type
further-ArePlain a ice f g = (
  (refl, f.username_fits, λ e. absurd (omega arith)),
  ArePlain-append (optional_strings a) _ (optional_strings-ArePlain a f)
      (build_ice_attributes-ArePlain ice g),
)

abbrev pub options : AuthConfig → Option IceConfig → Bool → BindingOptions
options a ice flag = record { auth = some a; ice = ice; require_fingerprint = flag }

pub option_attributes-further :
    (a : AuthConfig) (ice : Option IceConfig) (flag : Bool)
    → is_empty a.username ≡ false
    → option_attributes (some (options a ice flag)) ≡ username_attr a.username ∷ further a ice
option_attributes-further a ice flag e = rw e refl

flagged-message_of :
    (flag : Bool) (h : Header) (attrs : List Attribute)
    → flagged flag (built (message_of h attrs false)) ≡ built (message_of h attrs flag)
flagged-message_of false h attrs = refl
flagged-message_of true h attrs = refl

-- The builders end with the integrity and the flag.
pub finish-signed :
    (k : Keyed) (crc : List ℕ → ℕ) (a : AuthConfig) (ice : Option IceConfig) (flag : Bool)
    (msg_type : ℕ) (rest : List Attribute) (tx_id : List ℕ)
    → IsSha1Sized k
    → length tx_id ≡ 12
    → is_empty a.password ≡ false
    → AllFree (username_attr a.username ∷ rest)
    → AreWritable (username_attr a.username ∷ rest)
    → finish k
        (some (options a ice flag))
        (new_message_with_transaction_id msg_type (username_attr a.username ∷ rest) tx_id)
      ≡ built (
          message_of
            (new_header msg_type tx_id)
            (signed_attrs k crc (new_header msg_type tx_id) a.username rest a.password)
            flag)
finish-signed k crc a ice flag msg_type rest tx_id s n p f w =
    let attrs = username_attr a.username ∷ rest in
    let h = new_header msg_type tx_id in
    let id12 : length h.transaction_id ≡ 12 = unfold new_header in n in
    ap (finish k (some (options a ice flag)))
      (new_message_ok msg_type attrs tx_id (AreWritable-AllFit attrs w) (free-InOrder attrs f))
    ∙ rw p (
        ap (λ o. flagged flag (built_of o))
          (add_message_integrity-message_of k h attrs false a.password s id12 p w
            (AllFree-InOrder attrs (message_integrity_attr [] ∷ []) f (tt, tt)))
        ∙ flagged-message_of flag h (signed_attrs k crc h a.username rest a.password))

-- The first attribute of a type, whatever comes later.
find_attribute-append :
    (type : ℕ) (xs ys : List Attribute) (a : Attribute)
    → find_attribute type xs ≡ some a
    → find_attribute type (xs ++ ys) ≡ some a
unfolding find_attribute
find_attribute-append type [] ys a e = absurd (ground arith)
find_attribute-append type (x ∷ xs) ys a e = elim (Bool-cases (get_type x == type)) [
  | inl t ↦ rw t (sym (ap (λ b. if b then some x else find_attribute type xs) t) ∙ e)
  | inr t ↦ rw t (
      find_attribute-append type xs ys a
        (sym (ap (λ b. if b then some x else find_attribute type xs) t) ∙ e))
]

find_attribute-sealed :
    (k : Keyed) (crc : List ℕ → ℕ) (h : Header) (name : List ℕ) (rest : List Attribute)
    (v password : List ℕ) (flag : Bool)
    → Lacks 0x0020 (username_attr name ∷ rest)
    → find_attribute 0x0020
        (sealed k crc h name (rest ++ (xor_mapped_address_attr v ∷ [])) password flag)
      ≡ some (xor_mapped_address_attr v)
find_attribute-sealed k crc h name rest v password flag n = by_flag flag
  where
    xor : Attribute
    xor = xor_mapped_address_attr v

    attrs : List Attribute
    attrs = username_attr name ∷ (rest ++ (xor ∷ []))

    signed :
        find_attribute 0x0020 (signed_attrs k crc h name (rest ++ (xor ∷ [])) password) ≡ some xor
    signed =
        find_attribute-append 0x0020 attrs
          (message_integrity_attr (expected_sum k h attrs password) ∷ []) xor
          (find_attribute-after (username_attr name ∷ rest) 0x0020 xor [] n
            (unfold get_type in refl))

    by_flag :
        (flag : Bool)
        → find_attribute 0x0020 (sealed k crc h name (rest ++ (xor ∷ [])) password flag) ≡ some xor
    by_flag false = signed
    by_flag true =
        find_attribute-append 0x0020 (signed_attrs k crc h name (rest ++ (xor ∷ [])) password)
          (fingerprint_attr (sealing k crc h name (rest ++ (xor ∷ [])) password) ∷ []) xor signed

-- The address in a sealed response.
pub mapped_addr_port-sealed :
    (k : Keyed) (crc : List ℕ → ℕ) (h : Header) (name : List ℕ) (rest : List Attribute)
    (v password : List ℕ) (flag : Bool)
    → Lacks 0x0020 (username_attr name ∷ rest)
    → mapped_addr_port (
        message_of h
          (sealed k crc h name (rest ++ (xor_mapped_address_attr v ∷ [])) password flag)
          false)
      ≡ mapped (decode_xor_mapped_address v h.transaction_id)
unfolding mapped_addr_port
mapped_addr_port-sealed k crc h name rest v password flag n =
    let attrs = sealed k crc h name (rest ++ (xor_mapped_address_attr v ∷ [])) password flag in
    ap (λ o. mapped_of h.transaction_id o (find_attribute 0x0001 attrs))
      (find_attribute-sealed k crc h name rest v password flag n)
