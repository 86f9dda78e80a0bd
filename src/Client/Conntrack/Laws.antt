-- ===== src/Client/Conntrack/Laws.antt =====
-- What the table of pkg/client/conntrack.go keeps, and the inverse of a tuple.
use pig.Base.{
  ℕ, ◌<◌, ◌≡◌, refl, sym, ◌≢◌, inl, inr, Bool, true, false, not, Option, none, some, [], ◌∷◌, ◌==◌,
  if◌then◌else◌, arith, Bool-cases, eq_of_==,
}
use pig.Client.Conntrack.{
  ProtocolData, Tuple, inverted_data, flipped, inverted, Store, is_expired, Table, find, delete,
  store, found_or_new, look_up, store_actual, load_or_store, cleanup, generic, port_based,
  icmp_data,
}

-- No key stands twice.
pub data IsTable : Table → Type 0 where
  table_nil : IsTable []
  table_cons : {k e : ℕ} {t : Table} → find t k ≡ none → IsTable t → IsTable ((k, e) ∷ t)

inverted_data_twice : (pd : ProtocolData) → inverted_data (inverted_data pd) ≡ pd
unfolding inverted_data
inverted_data_twice (generic d) = refl
inverted_data_twice (port_based src dest) = refl
inverted_data_twice (icmp_data type code) = elim (Bool-cases (type == 8)) [
  | inl e ↦ rw (e, eq_of_== type 8 e) refl
  | inr e ↦ elim (Bool-cases (type == 0)) [
    | inl z ↦ rw (e, z, eq_of_== type 0 z) refl
    | inr z ↦ rw (e, z) (rw (e, z) refl)
  ]
]

-- Inverting a tuple twice gives it back, and the inverse of a packet's tuple has the other direction.
pub inverted_twice :
    (t : Tuple)
    → t.direction < 2
    → (inverted (inverted t) ≡ t) × ((inverted t).direction ≢ t.direction)
unfolding inverted
inverted_twice t h =
    let d : flipped (flipped t.direction) ≡ t.direction = ground arith in
    let other : flipped t.direction ≢ t.direction = ground arith in
    (rw (inverted_data_twice t.protocol_data, inverted, d) refl, other)

find-delete : (t : Table) (k j : ℕ) → find (delete t k) j ≡ (if k == j then none else find t j)
unfolding find delete
find-delete [] k j = ground arith
find-delete ((k', e) ∷ t) k j = ground (arith, find-delete t k j)

find-store : (t : Table) (k e j : ℕ) → find (store t k e) j ≡ (if k == j then some e else find t j)
unfolding find store
find-store t k e j = ground (arith, find-delete t k j)

-- `LoadOrStore`, whatever other calls do to the table between its two sections, returns the entry that the key had
-- at the first, or the new one where it had none. It reports an entry as loaded when the key had one and the new
-- entry, not the one found, has not expired; then it leaves the table as it is. Otherwise the key
-- has the entry returned, also where another call has stored one or deleted it meanwhile, and the
-- other keys have what they had.
pub load_or_store_lem :
    (st : Store) (now : ℕ) (t later : Table) (k e : ℕ)
    → let (t', actual, loaded) = load_or_store st now t later k e in
      (actual ≡ (elim (find t k) [ none ↦ e | some old ↦ old ]))
      × (loaded ≡ (elim (find t k) [ none ↦ false | some old ↦ not (is_expired st now e) ]))
      × (loaded ≡ true → t' ≡ later)
      × (loaded ≡ false → (j : ℕ) → find t' j ≡ (if k == j then some actual else find later j))
unfolding load_or_store look_up store_actual
load_or_store_lem st now t later k e = on_found (find t k) (is_expired st now e)
  where
    on_found :
        (found : Option ℕ) (expired : Bool)
        → let (t', actual, loaded) = store_actual later k (found_or_new e found expired) in
          (actual ≡ (elim found [ none ↦ e | some old ↦ old ]))
          × (loaded ≡ (elim found [ none ↦ false | some old ↦ not expired ]))
          × (loaded ≡ true → t' ≡ later)
          × (loaded ≡ false → (j : ℕ) → find t' j ≡ (if k == j then some actual else find later j))
    on_found none expired = (refl, refl, λ h. absurd (ground arith), λ h. find-store later k e)
    on_found (some old) true = (refl, refl, λ h. absurd (ground arith), λ h. find-store later k old)
    on_found (some old) false = (refl, refl, λ h. refl, λ h. absurd (ground arith))

find-cons_none :
    (k' e k : ℕ) (t : Table) → find ((k', e) ∷ t) k ≡ none → ((k' == k) ≡ false) × (find t k ≡ none)
unfolding find
find-cons_none k' e k t h = ground arith

cleanup-none :
    (st : Store) (now : ℕ → ℕ) (t : Table) (k : ℕ)
    → find t k ≡ none
    → find (cleanup st now t) k ≡ none
unfolding find cleanup
cleanup-none st now [] k h = refl
cleanup-none st now ((k', e) ∷ t) k h = elim (Bool-cases (is_expired st (now k') e)) [
  | inl x ↦ rw x (cleanup-none st now t k (find-cons_none k' e k t h).1)
  | inr x ↦
      rw (x, (find-cons_none k' e k t h).0) (cleanup-none st now t k (find-cons_none k' e k t h).1)
]

abbrev pub unless_expired : Store → ℕ → Option ℕ → Option ℕ
unless_expired st now none = none
unless_expired st now (some e) = if is_expired st now e then none else some e

-- `Cleanup` on a table with each key once keeps that, and a key has afterwards the entry that it
-- had unless that entry has expired when `Cleanup` comes to it.
pub cleanup_lem :
    (st : Store) (now : ℕ → ℕ) (t : Table)
    → IsTable t
    → IsTable (cleanup st now t)
      × ((k : ℕ) → find (cleanup st now t) k ≡ unless_expired st (now k) (find t k))
unfolding cleanup find
cleanup_lem st now [] table_nil = (table_nil, λ k. refl)
cleanup_lem st now ((k', e) ∷ t) (table_cons u h) =
    let (valid, all) = cleanup_lem st now t h in
    let gone = cleanup-none st now t k' u in
    elim (Bool-cases (is_expired st (now k') e)) [
      | inl x ↦ rw x (
        valid,
        λ k. elim (Bool-cases (k' == k)) [
          | inl s ↦ let same = eq_of_== k' k s in rw s (rw (sym same, x) gone)
          | inr s ↦ rw s (all k)
        ],
      )
      | inr x ↦ rw x (
        table_cons gone valid,
        λ k. elim (Bool-cases (k' == k)) [
          | inl s ↦ rw (s, sym (eq_of_== k' k s), x) refl
          | inr s ↦ rw s (all k)
        ],
      )
    ]
