-- ===== src/Finality/Intersection.antt =====
-- Quorum intersection (consensus/finality.rs): two certificates that verify against one snapshot share
-- about a third of its stake.
use blockhain_core.Prelude.{
  ℕ, suc, ◌+◌, ◌*◌, ◌^◌, ◌≤◌, ◌<◌, ◌≡◌, ◌&&◌, List, [], ◌∷◌, arith, if◌then◌else◌, ℕ-Eq, String-Eq,
  Bytes-Eq, Option-Eq, ok, u64_mod,
}
use blockhain_core.Finality.Snapshot.{ValidatorEntry, ValidatorSetSnapshot, stake_of, quorum_stake}
use blockhain_core.Finality.Cert.{FinalityCert, has_bit, signed_stake, verify_cert}

-- The stake of the validators whose bit is set in both bitmaps.
abbrev pub common_stake : List ℕ → List ℕ → ℕ → List ValidatorEntry → ℕ
common_stake b c i [] = 0
common_stake b c i (v ∷ vs) =
    (if has_bit b i && has_bit c i then v.stake else 0) + common_stake b c (suc i) vs

pub signed_stake-le :
    (b : List ℕ) (i : ℕ) (vs : List ValidatorEntry) → signed_stake b i vs ≤ stake_of vs
unfolding signed_stake
signed_stake-le b i [] = omega arith
signed_stake-le b i (v ∷ vs) = ground (arith, signed_stake-le b (suc i) vs)

inclusion_exclusion :
    (b c : List ℕ) (i : ℕ) (vs : List ValidatorEntry)
    → signed_stake b i vs + signed_stake c i vs ≤ stake_of vs + common_stake b c i vs
unfolding signed_stake
inclusion_exclusion b c i [] = omega arith
inclusion_exclusion b c i (v ∷ vs) = ground (arith, inclusion_exclusion b c (suc i) vs)

-- What a verified certificate has gathered.
pub verified_stake :
    (cert : FinalityCert) (s : ValidatorSetSnapshot)
    → stake_of s.validators < u64_mod
    → verify_cert cert s ≡ ok tt
    → quorum_stake s ≤ signed_stake cert.bitmap 0 s.validators
unfolding verify_cert
verified_stake cert s range h = ground (arith, signed_stake-le cert.bitmap 0 s.validators)

-- Two certificates that verify against the same snapshot, whose total stake is the sum over its
-- validators and lies below 2^63, have common signers with at least a third of the total, up to
-- rounding: total ≤ 3 * common + 4.
pub quorum_intersection :
    (c d : FinalityCert) (s : ValidatorSetSnapshot)
    → s.total_stake ≡ stake_of s.validators
    → s.total_stake < 2 ^ 63
    → verify_cert c s ≡ ok tt
    → verify_cert d s ≡ ok tt
    → s.total_stake ≤ 3 * common_stake c.bitmap d.bitmap 0 s.validators + 4
quorum_intersection c d s total range p q = omega (
  arith,
  inclusion_exclusion c.bitmap d.bitmap 0 s.validators,
  verified_stake c s (omega arith) p,
  verified_stake d s (omega arith) q,
)

-- The bytes of the aggregated signature are not checked: a certificate that verifies still verifies
-- with any other non-empty signature in place of its own.
pub any_signature_verifies :
    (cert : FinalityCert) (s : ValidatorSetSnapshot) (byte : ℕ) (bytes : List ℕ)
    → verify_cert cert s ≡ ok tt
    → verify_cert (record cert { agg_sig_bls = byte ∷ bytes }) s ≡ ok tt
unfolding verify_cert
any_signature_verifies cert s byte bytes h = ground arith
