-- ===== src/Stun/Binding/Tests.antt =====
-- A run of the Binding exchange of pkg/stun/binding.go.
use pig.Base.{
  ℕ, ◌+◌, ◌*◌, ◌%◌, ◌^◌, ◌≡◌, refl, inl, true, Option, some, List, [], ◌∷◌, length, replicate,
  arith,
}
use pig.Stun.Attribute.{serialize_attrs}
use pig.Stun.Attribute.Address.{udp_addr}
use pig.Stun.Attribute.Address.RoundTrip.{canonical}
use pig.Stun.Message.{Message, message, decode_message}
use pig.Stun.Message.Fingerprint.{added}
use pig.Stun.Message.Integrity.{Keyed}
use pig.Stun.Message.Query.{AuthConfig}
use pig.Stun.Binding.{
  IceConfig, built, build_binding_request, write_to, process_binding_request,
  process_binding_response, result,
}
use pig.Stun.Binding.Options.{options}
use pig.Stun.Binding.Exchange.{IsReady, binding_exchange_completes}

abbrev toy_hash : Keyed
toy_hash = record {
  size = 20;
  sum = λ key b. replicate 20 ((length key * 7 + length b) % 256);
  opaque_string = λ s. s;
}

abbrev toy_crc : List ℕ → ℕ
toy_crc b = length b % 2 ^ 32

abbrev credentials : AuthConfig
credentials = record { username = 97 ∷ 98 ∷ []; password = 99 ∷ []; realm = []; nonce = [] }

abbrev controlling : Option IceConfig
controlling =
    some (record { priority = 77; use_candidate = true; ice_controlling = 5; ice_controlled = 0 })

ready : IsReady toy_hash toy_crc credentials controlling
ready = record {
  sized = record { size20 = refl; sum20 = λ key b. refl };
  crc32 = λ b. omega arith;
  auth_fits = record {
    username_fits = omega arith;
    realm_fits = omega arith;
    nonce_fits = omega arith;
  };
  ice_fits = (omega arith, omega arith, omega arith);
  named = refl;
  allowed = refl;
  has_password = refl;
  small = unfold serialize_attrs in omega arith;
}

binding_exchange_completes_example :
    (request sent arrived response answer reply : Message) × (build_binding_request toy_hash
        (some (options credentials controlling true))
        (replicate 12 5)
      ≡ built request)
    × (write_to toy_crc request ≡ added sent)
    × (decode_message sent.raw [] ≡ some (message arrived))
    × (process_binding_request toy_hash toy_crc arrived
          (udp_addr (some (10 ∷ 0 ∷ 0 ∷ 1 ∷ [])) 443)
          (some (options credentials controlling true))
          (some (options credentials controlling true))
        ≡ built response)
    × (write_to toy_crc response ≡ added answer)
    × (decode_message answer.raw [] ≡ some (message reply))
    × (process_binding_response toy_hash toy_crc reply
          (replicate 12 5)
          (some (options credentials controlling true))
        ≡ result (canonical (10 ∷ 0 ∷ 0 ∷ 1 ∷ [])) 443)
binding_exchange_completes_example =
    binding_exchange_completes toy_hash toy_crc credentials controlling true (replicate 12 5)
      (10 ∷ 0 ∷ 0 ∷ 1 ∷ []) 443 [] ready refl (inl refl) (omega arith)
