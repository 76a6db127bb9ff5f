-- ===== src/Finality/RoundTrip.antt =====
-- A certificate that the aggregator produces verifies against its snapshot (consensus/finality.rs).
use blockhain_core.Prelude.{
  ℕ, zero, suc, ◌+◌, ◌/◌, ◌≤◌, ◌<◌, String, ◌≡◌, refl, ap, ◌∙◌, inl, inr, true, false, some, List,
  [], ◌∷◌, arith, Bool-cases, Option-cases, ◌==◌, eq_refl, eq→path, ℕ-Eq, String-Eq, Bytes-Eq,
  Option-Eq, length, replicate, is_empty, ok, u64_mod,
}
use blockhain_core.Map.{Map, keys}
use blockhain_core.Map.Ordered.{contains}
use blockhain_core.Finality.Snapshot.{
  ValidatorEntry, ValidatorSetSnapshot, stake_of, position_from, validator_index, quorum_stake,
}
use blockhain_core.Finality.Aggregator.{Vote, FinalityAggregator}
use blockhain_core.Finality.Cert.{
  has_bit, mark, add_signer, collect_signers, cert_for, try_produce_cert, signed_stake,
  signers_from, verify_cert,
}
use blockhain_core.Finality.Voters.{IsDistinct, tested_stake, voter_stake, voter_stake-le}
use blockhain_core.Finality.Intersection.{signed_stake-le}
use blockhain_core.Finality.Phases.{IsJustified}
use blockhain_core.Finality.Bits.{
  IsBytes, set_bit-IsBytes, length-set_bit, has_bit-set_self, has_bit-set_keeps,
}

position-lt :
    (i : ℕ) (a : String) (vs : List ValidatorEntry) {j : ℕ}
    → position_from i a vs ≡ some j
    → j < i + length vs
unfolding position_from
position-lt i a [] h = cc
position-lt i a (v ∷ vs) {j} h = ground (arith, position-lt (suc i) a vs {j = j})

module _ (s : ValidatorSetSnapshot) where
  add_signer-IsBytes :
      (e : String × Vote) (acc : List ℕ × List ℕ) → IsBytes acc.0 → IsBytes (add_signer s e acc).0
  add_signer-IsBytes (k, v) (bm, sigs) h = elim (Option-cases (validator_index s k)) [
    | inl e ↦ rw (e, mark) h
    | inr (idx, e) ↦ rw (e, mark) (set_bit-IsBytes idx bm h)
  ]

  length-add_signer :
      (e : String × Vote) (acc : List ℕ × List ℕ) → length (add_signer s e acc).0 ≡ length acc.0
  length-add_signer (k, v) (bm, sigs) = elim (Option-cases (validator_index s k)) [
    | inl e ↦ rw (e, mark)
    | inr (idx, e) ↦ rw (e, mark) (length-set_bit idx bm)
  ]

  add_signer_keeps :
      (e : String × Vote) (acc : List ℕ × List ℕ) (j : ℕ)
      → IsBytes acc.0
      → has_bit acc.0 j ≡ true
      → has_bit (add_signer s e acc).0 j ≡ true
  add_signer_keeps (k, v) (bm, sigs) j h b = elim (Option-cases (validator_index s k)) [
    | inl e ↦ rw (e, mark) b
    | inr (idx, e) ↦ rw (e, mark) (has_bit-set_keeps idx j bm h b)
  ]

  add_signer_sets :
      (k : String) (v : Vote) (acc : List ℕ × List ℕ) (j : ℕ)
      → IsBytes acc.0
      → validator_index s k ≡ some j
      → j / 8 < length acc.0
      → has_bit (add_signer s (k, v) acc).0 j ≡ true
  add_signer_sets k v (bm, sigs) j h e lt = rw (e, mark) (has_bit-set_self j bm h lt)

  collect_keeps :
      (m : Map String Vote) (acc : List ℕ × List ℕ) (j : ℕ)
      → IsBytes acc.0
      → has_bit acc.0 j ≡ true
      → has_bit (collect_signers s m acc).0 j ≡ true
  unfolding collect_signers
  collect_keeps [] acc j h b = b
  collect_keeps ((k, v) ∷ m) acc j h b =
      collect_keeps m (add_signer s (k, v) acc) j (add_signer-IsBytes (k, v) acc h)
        (add_signer_keeps (k, v) acc j h b)

  -- Every voter that the snapshot knows has its bit in the end.
  collect_sets :
      (m : Map String Vote) (acc : List ℕ × List ℕ) (k : String) (j : ℕ)
      → IsBytes acc.0
      → contains k (keys m) ≡ true
      → validator_index s k ≡ some j
      → j / 8 < length acc.0
      → has_bit (collect_signers s m acc).0 j ≡ true
  unfolding collect_signers contains
  collect_sets [] acc k j h c e lt = cc
  collect_sets ((x, v) ∷ m) acc k j h c e lt = elim (Bool-cases (x == k)) [
    | inl same ↦
        collect_keeps m (add_signer s (x, v) acc) j (add_signer-IsBytes (x, v) acc h)
          (add_signer_sets x v acc j h (ap (validator_index s) (eq→path x k same) ∙ e) lt)
    | inr other ↦
        collect_sets m (add_signer s (x, v) acc) k j (add_signer-IsBytes (x, v) acc h)
          (ground arith) e (rw (length-add_signer (x, v) acc) lt)
  ]

zeros-IsBytes : (n : ℕ) → IsBytes (replicate n 0)
zeros-IsBytes zero = tt
zeros-IsBytes (suc n) = (omega arith, zeros-IsBytes n)

length-zeros : (n : ℕ) → length (replicate n (let z : ℕ = 0 in z)) ≡ n
length-zeros zero = refl
length-zeros (suc n) = ap suc (length-zeros n)

signed_stake-eq :
    (bm : List ℕ) (i : ℕ) (vs : List ValidatorEntry)
    → signed_stake bm i vs ≡ tested_stake (has_bit bm) i vs
unfolding signed_stake
signed_stake-eq bm i [] = refl
signed_stake-eq bm i (v ∷ vs) = ground (arith, signed_stake-eq bm (suc i) vs)

no_signers_no_stake :
    (bm : List ℕ) (i : ℕ) (vs : List ValidatorEntry)
    → signers_from bm i (length vs) ≡ 0
    → signed_stake bm i vs ≡ 0
unfolding signed_stake signers_from
no_signers_no_stake bm i [] h = refl
no_signers_no_stake bm i (v ∷ vs) h = ground (arith, no_signers_no_stake bm (suc i) vs)

-- The bitmap of the certificate carries at least the stake of the precommits.
cert_stake :
    (s : ValidatorSetSnapshot) (a : FinalityAggregator)
    → IsDistinct (keys a.precommits)
    → voter_stake s.validators (keys a.precommits)
      ≤ signed_stake (cert_for a s).bitmap 0 s.validators
cert_stake s a distinct =
    let n = (length s.validators + 7) / 8 in
    let acc : List ℕ × List ℕ = (replicate n 0, []) in
    rw (signed_stake-eq (collect_signers s a.precommits acc).0 0 s.validators) (
      voter_stake-le (has_bit (collect_signers s a.precommits acc).0) 0 s.validators
        (keys a.precommits) distinct
        (λ k j c p.
          collect_sets s a.precommits acc k j (zeros-IsBytes n) c p
            (omega (arith, length-zeros n, position-lt 0 k s.validators {j = j} p))))

-- An aggregator in a justified state, of the snapshot's epoch, whose precommit quorum is reached,
-- produces a certificate; if the quorum stake is positive, the total stake a 64-bit number and the
-- collected signatures not all empty, the certificate verifies against the snapshot.
pub produced_cert_verifies :
    (s : ValidatorSetSnapshot) (a : FinalityAggregator)
    → IsJustified s a
    → a.precommit_quorum_reached ≡ true
    → a.epoch ≡ s.epoch
    → stake_of s.validators < u64_mod
    → 0 < quorum_stake s
    → is_empty (cert_for a s).agg_sig_bls ≡ false
    → (try_produce_cert a ≡ some (cert_for a s)) × (verify_cert (cert_for a s) s ≡ ok tt)
unfolding try_produce_cert verify_cert
produced_cert_verifies s a j reached epoch range positive signed = (
  rw (reached, j.snapshot),
  ground (
    arith,
    cert_stake s a j.precommitters,
    j.precommit_stake reached,
    signed_stake-le (cert_for a s).bitmap 0 s.validators,
    no_signers_no_stake (cert_for a s).bitmap 0 s.validators,
    eq_refl s.set_hash,
    epoch,
  ),
)
