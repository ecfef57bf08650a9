-- ===== src/Lift/Anchors/Parse.antt =====
-- The shapes that are read as UTxO references and as policy ids, and the anchors of a profile.
use tx3_lift.Prelude.{
  ℕ, ◌+◌, ◌-◌, ◌*◌, ◌≤◌, ◌≡◌, refl, inl, inr, true, some, List, [], ◌∷◌, Bytes, Text, All, length,
  u32_max, ok, arith, Option-cases, In, Result-cases, ok_inj, ||_iff, ◌∙◌, In-map,
}
use tx3_lift.Collections.Set.{Set, insert, contains, contains-insert, All-insert}
use tx3_lift.Prelude.Order.{nat_ord, list_ord, pair_ord, ==_iff, ◌==◌}
use tx3_lift.Collections.Map
use tx3_lift.Lift.Tir.{Profile, Json, object, text_value, entries}
use tx3_lift.Lift.Library.{Library, HexHalves}
use tx3_lift.Lift.Payload.{UtxoRef}
use tx3_lift.Lift.Specialize.{decode_bech32_address}
use tx3_lift.Lift.Anchors.{
  ProtocolAnchors, parse_utxo_ref, parse_policy, read_ref, parse_digits, split_hash, from_profile,
  add_addresses, add_value, add_values, add_environment,
}

parse_digits-le : (n : ℕ) (s : Text) (i : ℕ) → n ≤ u32_max → parse_digits n s ≡ some i → i ≤ u32_max
unfolding parse_digits
parse_digits-le n [] i h e = ground arith
parse_digits-le n (c ∷ s) i h e = ground (arith, parse_digits-le (n * 10 + (c - b'0')) s i)

-- a reference has 32 bytes and a `u32`
abbrev pub IsRef : UtxoRef → Type 0
IsRef r = (length r.0 ≡ 32) × (r.1 ≤ u32_max)

abbrev pub Shapes : ProtocolAnchors → Type 0
Shapes a = All IsRef a.utxo_refs × All (λ p. length p ≡ 28) a.policies

module _ (lib : Library) (hex : HexHalves lib) where
  parse_policy-length : (s : Text) {p : Bytes} → parse_policy lib s ≡ some p → length p ≡ 28
  unfolding parse_policy
  parse_policy-length s {p} h = ground (arith, hex.halves s p)

  read_ref-IsRef :
      (txid_hex index_str : Text) {r : UtxoRef} → read_ref lib txid_hex index_str ≡ some r → IsRef r
  unfolding read_ref
  read_ref-IsRef txid_hex index_str {r} h =
      ground (arith, hex.halves txid_hex r.0, parse_digits-le 0 index_str r.1)

  parse_utxo_ref-IsRef : (s : Text) {r : UtxoRef} → parse_utxo_ref lib s ≡ some r → IsRef r
  unfolding parse_utxo_ref
  parse_utxo_ref-IsRef s {r} h = elim (Option-cases (split_hash s)) [
    | inl e ↦ absurd (cc)
    | inr (parts, e) ↦ read_ref-IsRef parts.0 parts.1 (ground arith)
  ]

  add_value-Shapes :
      (v : Json) (anchors : ProtocolAnchors) → Shapes anchors → Shapes (add_value lib v anchors)
  unfolding add_value
  add_value-Shapes (text_value s) anchors h = elim (Option-cases (parse_utxo_ref lib s)) [
    | inr (r, e) ↦
        rw (e, add_value) (All-insert IsRef r anchors.utxo_refs (parse_utxo_ref-IsRef s e) h.0, h.1)
    | inl n ↦ elim (Option-cases (parse_policy lib s)) [
      | inr (p, e) ↦
          rw (n, e, add_value)
            (h.0, All-insert (λ p. length p ≡ 28) p anchors.policies (parse_policy-length s e) h.1)
      | inl m ↦ rw (n, m, add_value) h
    ]
  ]
  add_value-Shapes _ anchors h = h

  add_values-Shapes :
      (vs : List Json) (anchors : ProtocolAnchors)
      → Shapes anchors
      → Shapes (add_values lib vs anchors)
  unfolding add_values
  add_values-Shapes [] anchors h = h
  add_values-Shapes (v ∷ vs) anchors h =
      add_values-Shapes vs (add_value lib v anchors) (add_value-Shapes v anchors h)

  add_environment-Shapes :
      (env : Json) (anchors : ProtocolAnchors)
      → Shapes anchors
      → Shapes (add_environment lib env anchors)
  unfolding add_environment
  add_environment-Shapes (object env) anchors h =
      add_values-Shapes (Map.values (entries env)) anchors h
  add_environment-Shapes _ anchors h = h

  -- If `hex::decode` reads two characters a byte, then the anchors of a profile are well-formed:
  -- every reference has a 32-byte transaction id and a `u32` index, every policy id has 28 bytes.
  pub from_profile-Shapes :
      (profile : Profile) (anchors : ProtocolAnchors)
      → from_profile lib profile ≡ ok anchors
      → Shapes anchors
  unfolding from_profile
  from_profile-Shapes profile anchors h =
      elim (Result-cases (add_addresses lib (Map.values profile.parties) [])) [
        | inl (found, e) ↦ ground (
          arith,
          add_environment-Shapes profile.environment
              (record { addresses = found; utxo_refs = []; policies = [] }) (tt, tt),
        )
        | inr (e, q) ↦ absurd (cc)
      ]

module _ (lib : Library) where
  add_addresses-found :
      (addresses : List Text) (found out : Set Bytes)
      → add_addresses lib addresses found ≡ ok out
      → ((b : Bytes) → contains found b ≡ true → contains out b ≡ true)
        × ((s : Text)
            → In s addresses
            → (b : Bytes) × (lib.bech32_decode s ≡ some b) × (contains out b ≡ true))
  unfolding add_addresses decode_bech32_address
  add_addresses-found [] found out h = (λ b c. rw (← ok_inj h) c, λ s i. absurd i)
  add_addresses-found (a ∷ addresses) found out h = elim (Option-cases (lib.bech32_decode a)) [
    | inl n ↦ absurd (cc)
    | inr (b, e) ↦
        let (kept, more) = add_addresses-found addresses (insert b found) out (ground arith) in
        (
          λ c k. kept c (rw (contains-insert b c found) ((||_iff (b == c) _).1 (inr k))),
          λ s i. elim i [
            | inl q ↦ (b, rw q e, kept b (rw (contains-insert b b found) (rw (==_iff b b).1 refl)))
            | inr j ↦ more s j
          ],
        )
  ]

  add_value-addresses :
      (v : Json) (anchors : ProtocolAnchors)
      → (add_value lib v anchors).addresses ≡ anchors.addresses
  unfolding add_value
  add_value-addresses (text_value s) anchors = ground arith
  add_value-addresses _ anchors = refl

  add_values-addresses :
      (vs : List Json) (anchors : ProtocolAnchors)
      → (add_values lib vs anchors).addresses ≡ anchors.addresses
  unfolding add_values
  add_values-addresses [] anchors = refl
  add_values-addresses (v ∷ vs) anchors =
      add_values-addresses vs (add_value lib v anchors) ∙ add_value-addresses v anchors

  add_environment-addresses :
      (env : Json) (anchors : ProtocolAnchors)
      → (add_environment lib env anchors).addresses ≡ anchors.addresses
  unfolding add_environment
  add_environment-addresses (object env) anchors =
      add_values-addresses (Map.values (entries env)) anchors
  add_environment-addresses _ anchors = refl

  -- If anchors are derived from a profile at all, the address of every party decodes and is one of
  -- the anchors: an address that does not decode fails the whole profile.
  pub from_profile-parties :
      (profile : Profile) (anchors : ProtocolAnchors)
      → from_profile lib profile ≡ ok anchors
      → (party address : Text) → In (party, address) profile.parties
      → (b : Bytes) × (lib.bech32_decode address ≡ some b) × (contains anchors.addresses b ≡ true)
  unfolding from_profile
  from_profile-parties profile anchors h party address i =
      elim (Result-cases (add_addresses lib (Map.values profile.parties) [])) [
        | inl (found, e) ↦
            let start : ProtocolAnchors = record {
              addresses = found;
              utxo_refs = [];
              policies = [];
            } in
            let same : found ≡ anchors.addresses =
              ground (arith, add_environment-addresses profile.environment start) in
            let (kept, all_found) = add_addresses-found (Map.values profile.parties) [] found e in
            let (b, d, c) =
              all_found address (In-map (λ e. e.1) profile.parties (party, address) i) in
            (b, d, rw (← same) c)
        | inr (e, q) ↦ absurd (cc)
      ]
