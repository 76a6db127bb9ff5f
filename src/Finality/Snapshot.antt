-- ===== src/Finality/Snapshot.antt =====
-- consensus/finality.rs and chain_config.rs: the validator set snapshot and its quorum.
use blockhain_core.Prelude.{
  ℕ, suc, ◌/◌, ◌%◌, String, Bool, false, not, ◌&&◌, ◌||◌, Option, none, some, List, [], ◌∷◌, ◌++◌,
  ltb, if◌then◌else◌, ◌==◌, ℕ-Eq, String-Eq, Bytes-Eq, Option-Eq, is_empty, sum_by, u64_mod, mul64,
  le_bytes, as_bytes,
}
use blockhain_core.Crypto.{Crypto}

abbrev pub finality_checkpoint_interval : ℕ
finality_checkpoint_interval = 100

abbrev pub finality_quorum_numerator : ℕ
finality_quorum_numerator = 2

abbrev pub finality_quorum_denominator : ℕ
finality_quorum_denominator = 3

pub record ValidatorEntry : Type 0 where
  pub address : String
  pub stake : ℕ
  pub bls_public_key : List ℕ
  pub pop_signature : List ℕ

pub record ValidatorSetSnapshot : Type 0 where
  pub epoch : ℕ
  pub validators : List ValidatorEntry
  pub set_hash : String
  pub total_stake : ℕ

-- What `compute_hash` feeds to the hasher.
unfoldable pub set_preimage : List ValidatorEntry → List ℕ
set_preimage [] = []
set_preimage (v ∷ vs) =
    as_bytes v.address ++ (le_bytes 8 v.stake ++ (v.bls_public_key ++ set_preimage vs))

unfoldable pub compute_hash : Crypto → List ValidatorEntry → String
unfolding set_preimage
compute_hash c validators = c.hex_encode (c.sha3_256 (set_preimage validators))

-- `validators.iter().map(|v| v.stake).sum()`
abbrev pub stake_of : List ValidatorEntry → ℕ
stake_of vs = sum_by (λ v. v.stake) vs

-- `ValidatorSetSnapshot::new`
abbrev pub new_snapshot : Crypto → ℕ → List ValidatorEntry → ValidatorSetSnapshot
new_snapshot c epoch validators = record {
  epoch = epoch;
  validators = validators;
  set_hash = compute_hash c validators;
  total_stake = stake_of validators % u64_mod;
}

unfoldable pub find_in : String → List ValidatorEntry → Option ValidatorEntry
find_in a [] = none
find_in a (v ∷ vs) = if v.address == a then some v else find_in a vs

abbrev pub find_validator : ValidatorSetSnapshot → String → Option ValidatorEntry
find_validator s a = find_in a s.validators

-- `iter().position(..)`, from an index on.
unfoldable pub position_from : ℕ → String → List ValidatorEntry → Option ℕ
position_from i a [] = none
position_from i a (v ∷ vs) = if v.address == a then some i else position_from (suc i) a vs

abbrev pub validator_index : ValidatorSetSnapshot → String → Option ℕ
validator_index s a = position_from 0 a s.validators

-- The product wraps at 64 bits.
abbrev pub quorum_stake : ValidatorSetSnapshot → ℕ
quorum_stake s = mul64 s.total_stake finality_quorum_numerator / finality_quorum_denominator

unfoldable pub is_checkpoint_height : ℕ → Bool
is_checkpoint_height height = ltb 0 height && height % finality_checkpoint_interval == 0

unfoldable pub verify_pop : ValidatorEntry → Bool
verify_pop entry =
    if is_empty entry.bls_public_key || is_empty entry.pop_signature
    then false
    else not (is_empty entry.pop_signature)
