-- ===== src/Finality/Aggregator.antt =====
-- consensus/finality.rs: votes and the two-phase aggregator. The source's `Prevote` and `Precommit`
-- have the same fields and differ only in their signing message: one record `Vote` stands for both.
use blockhain_core.Prelude.{
  ℕ, ◌%◌, String, Bool, true, false, not, Option, none, some, List, [], ◌++◌, leb, if◌then◌else◌,
  ◌==◌, ℕ-Eq, String-Eq, Bytes-Eq, Option-Eq, sum_by, Result, ok, err, ◌>>◌, fail_if, u64_mod,
  le_bytes, as_bytes,
}
use blockhain_core.Map.{Map, contains_key, insert, keys}
use blockhain_core.Finality.Snapshot.{
  ValidatorEntry, ValidatorSetSnapshot, find_validator, quorum_stake,
}

pub record Vote : Type 0 where
  pub epoch : ℕ
  pub checkpoint_height : ℕ
  pub checkpoint_hash : String
  pub voter_id : String
  pub sig_bls : List ℕ

-- What a voter signs in each phase.
unfoldable pub prevote_message : Vote → List ℕ
prevote_message v =
    as_bytes "BUDLUM_PREVOTE"
    ++ (le_bytes 8 v.epoch ++ (le_bytes 8 v.checkpoint_height ++ as_bytes v.checkpoint_hash))

unfoldable pub precommit_message : Vote → List ℕ
precommit_message v =
    as_bytes "BUDLUM_PRECOMMIT"
    ++ (le_bytes 8 v.epoch ++ (le_bytes 8 v.checkpoint_height ++ as_bytes v.checkpoint_hash))

pub record FinalityAggregator : Type 0 where
  pub epoch : ℕ
  pub checkpoint_height : ℕ
  pub checkpoint_hash : String
  pub prevotes : Map String Vote
  pub precommits : Map String Vote
  pub validator_snapshot : Option ValidatorSetSnapshot
  pub prevote_quorum_reached : Bool
  pub precommit_quorum_reached : Bool

-- `FinalityAggregator::new`
abbrev pub new_aggregator : ℕ → ℕ → String → FinalityAggregator
new_aggregator epoch height hash = record {
  epoch = epoch;
  checkpoint_height = height;
  checkpoint_hash = hash;
  prevotes = [];
  precommits = [];
  validator_snapshot = none;
  prevote_quorum_reached = false;
  precommit_quorum_reached = false;
}

unfoldable pub set_validator_snapshot :
    ValidatorSetSnapshot → FinalityAggregator → FinalityAggregator
set_validator_snapshot snapshot a = record a { validator_snapshot = some snapshot }

pub data VoteError : Type 0 where
  epoch_mismatch hash_mismatch height_mismatch not_in_set duplicate_vote no_prevote_quorum :
      VoteError

abbrev pub stake_at : Option ValidatorEntry → ℕ
stake_at none = 0
stake_at (some v) = v.stake

-- The stake of the voters that the snapshot knows, as `check_*_quorum` sums it (modulo 2^64).
abbrev pub voted_stake : ValidatorSetSnapshot → Map String Vote → ℕ
voted_stake s votes = sum_by (λ a. stake_at (find_validator s a)) (keys votes) % u64_mod

abbrev pub has_quorum : Option ValidatorSetSnapshot → Map String Vote → Bool
has_quorum none votes = false
has_quorum (some s) votes = leb (quorum_stake s) (voted_stake s votes)

unfoldable pub check_prevote_quorum : FinalityAggregator → FinalityAggregator
check_prevote_quorum a =
    if has_quorum a.validator_snapshot a.prevotes
    then record a { prevote_quorum_reached = true }
    else a

unfoldable pub check_precommit_quorum : FinalityAggregator → FinalityAggregator
check_precommit_quorum a =
    if has_quorum a.validator_snapshot a.precommits
    then record a { precommit_quorum_reached = true }
    else a

-- `if let Some(ref snapshot) = .. { if snapshot.find_validator(..).is_none() { return Err } }`
abbrev pub check_member : Option ValidatorSetSnapshot → String → Result VoteError (Unit {0})
check_member none voter = ok tt
check_member (some s) voter = elim (find_validator s voter) [
  | none ↦ err not_in_set
  | some _ ↦ ok tt
]

abbrev pub check_target : Vote → FinalityAggregator → Result VoteError (Unit {0})
check_target vote a = do
  fail_if (not (vote.epoch == a.epoch)) epoch_mismatch
  fail_if (not (vote.checkpoint_hash == a.checkpoint_hash)) hash_mismatch
  fail_if (not (vote.checkpoint_height == a.checkpoint_height)) height_mismatch

unfoldable pub add_prevote : Vote → FinalityAggregator → Result VoteError FinalityAggregator
add_prevote vote a = do
  check_target vote a
  check_member a.validator_snapshot vote.voter_id
  fail_if (contains_key vote.voter_id a.prevotes) duplicate_vote
  ok (check_prevote_quorum (record a { prevotes = insert vote.voter_id vote a.prevotes }))

unfoldable pub add_precommit : Vote → FinalityAggregator → Result VoteError FinalityAggregator
add_precommit vote a = do
  check_target vote a
  fail_if (not a.prevote_quorum_reached) no_prevote_quorum
  check_member a.validator_snapshot vote.voter_id
  fail_if (contains_key vote.voter_id a.precommits) duplicate_vote
  ok (check_precommit_quorum (record a { precommits = insert vote.voter_id vote a.precommits }))
