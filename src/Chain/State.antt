-- ===== src/Chain/State.antt =====
-- blockchain.rs: the record `Blockchain`, the errors, the state root of account.rs and the small
-- operations. The database handle and the pruning manager write to disk only and are left out; the
-- engine is a parameter, its interior state a field.
use blockhain_core.Prelude.{
  ℕ, String, not, List, [], ◌∷◌, ◌++◌, map, leb, if◌then◌else◌, ◌==◌, ℕ-Eq, String-Eq, Bytes-Eq,
  Option-Eq, get_elem?, Result, ok, err, ◌>>=◌, ◌>>◌, fail_if, or_fail, map_err, le_bytes, as_bytes,
}
use Prim.Native.Nat.{Ordering}
use Prim.Native.String.{compare}
use blockhain_core.Map.{Map}
use blockhain_core.Crypto.{Crypto}
use blockhain_core.Transaction.{Transaction, verify}
use blockhain_core.Block.{Block}
use blockhain_core.Consensus.{ConsensusError}
use blockhain_core.Account.State.{Account, Validator, AccountState, get_active_validators}
use blockhain_core.Account.Validate.{TxError, validate_transaction}
use blockhain_core.Mempool.Pool
use blockhain_core.Mempool.Pool.{Mempool, MempoolError}
use blockhain_core.Finality.Snapshot.{
  ValidatorEntry, compute_hash, new_snapshot, is_checkpoint_height,
}
use blockhain_core.Finality.Cert.{FinalityCert, CertError, verify_cert}

abbrev pub finality_depth : ℕ
finality_depth = 50

abbrev pub epoch_length : ℕ
epoch_length = 32

pub record Blockchain (E : Type 0) : Type 0 where
  pub chain : List Block
  pub engine_state : E
  pub mempool : Mempool
  pub state : AccountState
  pub chain_id : ℕ
  pub finalized_height : ℕ
  pub finalized_hash : String

-- The messages that the methods return.
pub data ChainError : Type 0 where
  conflicts_with_finalized below_finalized invalid_chain_id tx_root_mismatch : ChainError
  block_hash_mismatch missing_state_root genesis_forbidden state_root_mismatch : ChainError
  invalid_chain reorg_too_deep past_finality_depth : ChainError
  not_a_checkpoint cert_hash_mismatch block_not_known bad_signature : ChainError
  consensus_failed : ConsensusError → ChainError
  invalid_transaction : TxError → ChainError
  apply_failed : TxError → ChainError
  pool_error : MempoolError → ChainError
  cert_failed : CertError → ChainError

-- `calculate_state_root` of account.rs: the accounts sorted by their key.
unfoldable pub insert_account : String × Account → Map String Account → Map String Account
insert_account a [] = a ∷ []
insert_account a (b ∷ bs) = elim (compare a.0 b.0) [
  | Ordering.gt ↦ b ∷ insert_account a bs
  | _ ↦ a ∷ b ∷ bs
]

unfoldable pub sort_accounts : Map String Account → Map String Account
unfolding insert_account
sort_accounts [] = []
sort_accounts (a ∷ as') = insert_account a (sort_accounts as')

unfoldable pub accounts_preimage : Map String Account → List ℕ
accounts_preimage [] = []
accounts_preimage ((k, a) ∷ rest) =
    as_bytes k ++ (le_bytes 8 a.balance ++ (le_bytes 8 a.nonce ++ accounts_preimage rest))

unfoldable pub calculate_state_root : Crypto → AccountState → String
calculate_state_root c s =
    c.hex_encode
      (c.sha256 (as_bytes "BDLM_STATE_V1" ++ accounts_preimage (sort_accounts s.accounts)))

abbrev pub entry_for : Validator → ValidatorEntry
entry_for v = record {
  address = v.address;
  stake = v.stake;
  bls_public_key = [];
  pop_signature = [];
}

-- The entries that `get_validator_set_hash` and `handle_finality_cert` build.
abbrev pub active_entries : AccountState → List ValidatorEntry
active_entries s = map entry_for (get_active_validators s)

unfoldable pub get_validator_set_hash : {E : Type 0} → Crypto → Blockchain E → String
get_validator_set_hash c bc = compute_hash c (active_entries bc.state)

-- `add_transaction`; `now` is the time that the pool reads.
module _ {E : Type 0} (c : Crypto) where
  abbrev pub check_submitted : Transaction → Blockchain E → Result ChainError (Unit {0})
  check_submitted tx bc = do
    fail_if (not (tx.chain_id == bc.chain_id)) invalid_chain_id
    fail_if (tx.from == "genesis") genesis_forbidden
    fail_if (not (verify c tx)) bad_signature
    map_err invalid_transaction (validate_transaction c bc.state tx)

  abbrev pub submit_checked :
      ℕ
      → Transaction
      → Blockchain E
      → Result ChainError (Unit {0})
      → Blockchain E × Result ChainError (Unit {0})
  submit_checked now tx bc (err e) = (bc, err e)
  submit_checked now tx bc (ok _) =
      let (pool, r) = Pool.add_transaction now tx bc.mempool in
      (record bc { mempool = pool }, map_err pool_error r)

  unfoldable pub submit_transaction :
      ℕ → Transaction → Blockchain E → Blockchain E × Result ChainError (Unit {0})
  submit_transaction now tx bc = submit_checked now tx bc (check_submitted tx bc)

  -- The checks of `handle_finality_cert` on a certificate above the finalized height.
  abbrev pub check_cert : FinalityCert → Blockchain E → Result ChainError (Unit {0})
  check_cert cert bc = do
    fail_if (not (is_checkpoint_height cert.checkpoint_height)) not_a_checkpoint
    block ← or_fail (get_elem? bc.chain cert.checkpoint_height) block_not_known
    fail_if (not (block.hash == cert.checkpoint_hash)) cert_hash_mismatch
    map_err cert_failed (verify_cert cert (new_snapshot c cert.epoch (active_entries bc.state)))

  abbrev pub certify :
      FinalityCert
      → Blockchain E
      → Result ChainError (Unit {0})
      → Blockchain E × Result ChainError (Unit {0})
  certify cert bc (err e) = (bc, err e)
  certify cert bc (ok _) = (
    record bc { finalized_height = cert.checkpoint_height; finalized_hash = cert.checkpoint_hash },
    ok tt,
  )

  unfoldable pub handle_finality_cert :
      FinalityCert → Blockchain E → Blockchain E × Result ChainError (Unit {0})
  handle_finality_cert cert bc =
      if leb cert.checkpoint_height bc.finalized_height
      then (bc, ok tt)
      else certify cert bc (check_cert cert bc)
