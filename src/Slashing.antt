-- ===== src/Slashing.antt =====
-- slashing.rs: evidence of offences, its checks and the amounts. (The evidence that blocks carry is another
-- type, in consensus/pos.rs.) `now` is the system time.
pub mod Verdict
mod Tests
use blockhain_core.Prelude.{
  ℕ, ◌/◌, String, Bool, true, false, not, ◌&&◌, Option, none, some, List, ◌==◌, ℕ-Eq, String-Eq,
  Bytes-Eq, Option-Eq, length, Result, ◌>>=◌, ◌>>◌, fail_if, or_fail,
}
use blockhain_core.Crypto.{Crypto}

pub data SlashingType : Type 0 where
  double_sign_offense double_proposal_offense double_vote_offense : SlashingType
  downtime_offense invalid_block_offense : SlashingType

abbrev pub same_offense : SlashingType → SlashingType → Bool
same_offense double_sign_offense double_sign_offense = true
same_offense double_proposal_offense double_proposal_offense = true
same_offense double_vote_offense double_vote_offense = true
same_offense downtime_offense downtime_offense = true
same_offense invalid_block_offense invalid_block_offense = true
same_offense _ _ = false

pub record SlashingEvidence : Type 0 where
  pub offense_type : SlashingType
  pub validator : String
  pub height : ℕ
  pub epoch : ℕ
  pub slot : ℕ
  pub block_hash_1 : Option String
  pub block_hash_2 : Option String
  pub signature_1 : Option (List ℕ)
  pub signature_2 : Option (List ℕ)
  pub vrf_output_1 : Option (List ℕ)
  pub vrf_output_2 : Option (List ℕ)
  pub checkpoint_hash_1 : Option String
  pub checkpoint_hash_2 : Option String
  pub timestamp : ℕ
  pub reporter : String

unfoldable pub double_sign :
    ℕ → String → ℕ → String → String → List ℕ → List ℕ → String → SlashingEvidence
double_sign now validator height hash1 hash2 sig1 sig2 reporter = record {
  offense_type = double_sign_offense;
  validator = validator;
  height = height;
  epoch = 0;
  slot = 0;
  block_hash_1 = some hash1;
  block_hash_2 = some hash2;
  signature_1 = some sig1;
  signature_2 = some sig2;
  vrf_output_1 = none;
  vrf_output_2 = none;
  checkpoint_hash_1 = none;
  checkpoint_hash_2 = none;
  timestamp = now;
  reporter = reporter;
}

unfoldable pub double_proposal :
    ℕ
    → String
    → ℕ
    → ℕ
    → String
    → String
    → List ℕ
    → List ℕ
    → List ℕ
    → List ℕ
    → String
    → SlashingEvidence
double_proposal now validator epoch slot hash1 hash2 sig1 sig2 vrf1 vrf2 reporter = record {
  offense_type = double_proposal_offense;
  validator = validator;
  height = slot;
  epoch = epoch;
  slot = slot;
  block_hash_1 = some hash1;
  block_hash_2 = some hash2;
  signature_1 = some sig1;
  signature_2 = some sig2;
  vrf_output_1 = some vrf1;
  vrf_output_2 = some vrf2;
  checkpoint_hash_1 = none;
  checkpoint_hash_2 = none;
  timestamp = now;
  reporter = reporter;
}

unfoldable pub downtime : ℕ → String → ℕ → String → SlashingEvidence
downtime now validator height reporter = record {
  offense_type = downtime_offense;
  validator = validator;
  height = height;
  epoch = 0;
  slot = 0;
  block_hash_1 = none;
  block_hash_2 = none;
  signature_1 = none;
  signature_2 = none;
  vrf_output_1 = none;
  vrf_output_2 = none;
  checkpoint_hash_1 = none;
  checkpoint_hash_2 = none;
  timestamp = now;
  reporter = reporter;
}

unfoldable pub double_vote :
    ℕ → String → ℕ → String → String → List ℕ → List ℕ → String → SlashingEvidence
double_vote now validator epoch checkpoint1 checkpoint2 bls1 bls2 reporter = record {
  offense_type = double_vote_offense;
  validator = validator;
  height = 0;
  epoch = epoch;
  slot = 0;
  block_hash_1 = none;
  block_hash_2 = none;
  signature_1 = some bls1;
  signature_2 = some bls2;
  vrf_output_1 = none;
  vrf_output_2 = none;
  checkpoint_hash_1 = some checkpoint1;
  checkpoint_hash_2 = some checkpoint2;
  timestamp = now;
  reporter = reporter;
}

pub data EvidenceError : Type 0 where
  wrong_offense missing_hash identical_hashes missing_signature identical_signatures : EvidenceError
  invalid_pubkey invalid_pubkey_length missing_vrf vrf_outputs_differ : EvidenceError
  invalid_slot missing_checkpoint identical_checkpoints invalid_epoch : EvidenceError

unfoldable pub verify_double_sign : Crypto → SlashingEvidence → Result EvidenceError (Unit {0})
verify_double_sign c e = do
  fail_if (not (same_offense e.offense_type double_sign_offense)) wrong_offense
  hash1 ← or_fail e.block_hash_1 missing_hash
  hash2 ← or_fail e.block_hash_2 missing_hash
  fail_if (hash1 == hash2) identical_hashes
  sig1 ← or_fail e.signature_1 missing_signature
  sig2 ← or_fail e.signature_2 missing_signature
  fail_if (sig1 == sig2) identical_signatures
  pubkey_bytes ← or_fail (c.hex_decode e.validator) invalid_pubkey
  fail_if (not (length pubkey_bytes == 32)) invalid_pubkey_length

unfoldable pub verify_double_proposal : SlashingEvidence → Result EvidenceError (Unit {0})
verify_double_proposal e = do
  fail_if (not (same_offense e.offense_type double_proposal_offense)) wrong_offense
  hash1 ← or_fail e.block_hash_1 missing_hash
  hash2 ← or_fail e.block_hash_2 missing_hash
  fail_if (hash1 == hash2) identical_hashes
  _ ← or_fail e.signature_1 missing_signature
  _ ← or_fail e.signature_2 missing_signature
  vrf1 ← or_fail e.vrf_output_1 missing_vrf
  vrf2 ← or_fail e.vrf_output_2 missing_vrf
  fail_if (not (vrf1 == vrf2)) vrf_outputs_differ
  fail_if (e.epoch == 0 && e.slot == 0) invalid_slot

unfoldable pub verify_double_vote : SlashingEvidence → Result EvidenceError (Unit {0})
verify_double_vote e = do
  fail_if (not (same_offense e.offense_type double_vote_offense)) wrong_offense
  ch1 ← or_fail e.checkpoint_hash_1 missing_checkpoint
  ch2 ← or_fail e.checkpoint_hash_2 missing_checkpoint
  fail_if (ch1 == ch2) identical_checkpoints
  _ ← or_fail e.signature_1 missing_signature
  _ ← or_fail e.signature_2 missing_signature
  fail_if (e.epoch == 0) invalid_epoch

unfoldable pub slash_amount : SlashingEvidence → ℕ → ℕ
slash_amount e coins = elim e.offense_type [
  | double_sign_offense ↦ coins
  | double_proposal_offense ↦ coins
  | double_vote_offense ↦ coins
  | downtime_offense ↦ coins / 10
  | invalid_block_offense ↦ coins / 2
]
