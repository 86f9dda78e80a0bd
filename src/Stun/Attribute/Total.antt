-- ===== src/Stun/Attribute/Total.antt =====
-- The rounds of `DecodeAttributes` in pkg/stun/attributes.go, on any input.
use pig.Base.{
  ℕ, zero, suc, ◌≤◌, ◌<◌, inl, inr, Option, none, some, List, [], length, drop, arith, length-drop,
  ltb, Bool-cases, le_of_ltb,
}
use pig.Stun.Attribute.{Attribute, attr_serialize_len, attr_serialized_size}
use pig.Stun.Attribute.Decode.{
  Decoded, decoded, refused, panics, and_rest, DecodeRound, ends, fails, round_panics, skips, reads,
  decode_round, decode_loop, decode_attributes, round_of,
}

attr_serialize_len-le : (a : Attribute) → 4 ≤ attr_serialize_len a
unfolding attr_serialize_len attr_serialized_size
attr_serialize_len-le a = omega arith

abbrev pub Returns : Option (Decoded (List Attribute)) → Type 0
Returns none = ⊥
Returns (some out) = Unit {0}

-- A round that goes on has bytes to read and skips some.
abbrev Progress : List ℕ → DecodeRound → Type 0
Progress b (skips n) = (4 ≤ length b) × (4 ≤ n)
Progress b (reads a) = 4 ≤ length b
Progress b ends = Unit {0}
Progress b (fails e) = Unit {0}
Progress b round_panics = Unit {0}

round_of-Progress :
    (b : List ℕ) (n : ℕ) (o : Option (Decoded Attribute)) → 4 ≤ length b → Progress b (round_of n o)
round_of-Progress b n none h = (h, omega arith)
round_of-Progress b n (some (decoded a)) h = h
round_of-Progress b n (some (refused e)) h = tt
round_of-Progress b n (some panics) h = tt

decode_round-Progress : (b beyond : List ℕ) → Progress b (decode_round b beyond)
unfolding decode_round
decode_round-Progress b beyond = elim (Bool-cases (ltb (length b) 4)) [
  | inl e ↦ rw (e, decode_round) tt
  | inr e ↦ rw (e, decode_round) (round_of-Progress b _ _ (le_of_ltb (length b) 4 e))
]

decode_loop-Returns :
    (rounds : ℕ) (b beyond : List ℕ) → length b < rounds → Returns (decode_loop rounds b beyond)
unfolding decode_loop
decode_loop-Returns zero b beyond h = absurd (omega arith)
decode_loop-Returns (suc rounds) b beyond h =
    on_round (λ n le. decode_loop-Returns rounds (drop n b) beyond (omega (arith, length-drop n b)))
      (decode_round b beyond) (decode_round-Progress b beyond)
  where
    on_rest :
        (a : Attribute) (o : Option (Decoded (List Attribute)))
        → Returns o
        → Returns (elim o [ none ↦ none | some rest ↦ some (and_rest a rest) ])
    on_rest a none r = absurd r
    on_rest a (some rest) r = tt

    on_round :
        ((n : ℕ) → (4 ≤ length b) × (4 ≤ n) → Returns (decode_loop rounds (drop n b) beyond))
        → (r : DecodeRound) → Progress b r
        → Returns (elim r [
          | ends ↦ some (decoded [])
          | fails e ↦ some (refused e)
          | round_panics ↦ some panics
          | skips n ↦ decode_loop rounds (drop n b) beyond
          | reads a ↦ elim (decode_loop rounds (drop (attr_serialize_len a) b) beyond) [
            | none ↦ none
            | some rest ↦ some (and_rest a rest)
          ]
        ])
    on_round next ends p = tt
    on_round next (fails e) p = tt
    on_round next round_panics p = tt
    on_round next (skips n) p = next n p
    on_round next (reads a) p =
        on_rest a _ (next (attr_serialize_len a) (p, attr_serialize_len-le a))

-- The loop of `DecodeAttributes` ends on every input: as many rounds as there are bytes are enough.
pub decode_attributes-Returns : (b beyond : List ℕ) → Returns (decode_attributes b beyond)
unfolding decode_attributes
decode_attributes-Returns b beyond = decode_loop-Returns (suc (length b)) b beyond (omega arith)
