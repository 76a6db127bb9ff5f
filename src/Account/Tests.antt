-- ===== src/Account/Tests.antt =====
-- Concrete ledgers: runs of account.rs, and the theorems at inputs that meet their hypotheses.
use blockhain_core.Prelude.{
  ℕ, ◌/◌, ◌≡◌, refl, true, false, some, [], ◌∷◌, arith, false→ne, ℕ-Eq, String-Eq, Bytes-Eq,
  Option-Eq, replicate, ok, err, add64,
}
use blockhain_core.Map.{get, insert, map_values}
use blockhain_core.Crypto.{Crypto, verify_signature}
use blockhain_core.Transaction.{TransactionType, Transaction, verify_with_key, verify}
use blockhain_core.Account.State.{
  with_balance, new_validator, is_eligible, AccountState, new_state, is_active, get_balance,
  get_nonce, get_or_create, modify_account,
}
use blockhain_core.Account.Validate.{invalid_nonce, insufficient_balance, validate_transaction}
use blockhain_core.Account.Apply.{
  apply_transfer, apply_stake, apply_unstake, apply_transaction, apply_all, apply_block,
}
use blockhain_core.Account.Epoch.{release_all, process_unbonding, advance_epoch, slash}
use blockhain_core.Account.Conserve.{BlockConserves, apply_block-Conserves}
use blockhain_core.Account.Effects.{
  SameView, apply_transaction_err, Transferred, transfer_moves_funds,
}
use blockhain_core.Account.Replay.{validated_applies, replay_rejected}
use blockhain_core.Account.Slashed.{epoch, here, next, slashed_forever}
use blockhain_core.Account.Unbonded.{PaysMatured, advance_epoch-PaysMatured}

-- A signature scheme that accepts what is well-formed.
abbrev pub toy : Crypto
toy = record {
  sha256 = λ b. b;
  sha3_256 = λ b. b;
  hex_encode = λ b. "00";
  hex_decode = λ s. some (replicate 32 0);
  is_key = λ k. true;
  ed25519_verify = λ m s k. true;
}

abbrev pub transfer_tx : Transaction
transfer_tx = record {
  from = "alice";
  to = "bob";
  amount = 30;
  fee = 5;
  nonce = 0;
  payload = [];
  timestamp = 7;
  hash = "t1";
  signature = some (replicate 64 0);
  chain_id = 1337;
  tx_type = TransactionType.transfer;
}

abbrev stake_tx : Transaction
stake_tx = record transfer_tx { amount = 40; nonce = 1; tx_type = TransactionType.stake }

abbrev unstake_tx : Transaction
unstake_tx = record transfer_tx {
  from = "val";
  amount = 50;
  fee = 2;
  tx_type = TransactionType.unstake;
}

abbrev pub ledger : AccountState
ledger = record new_state {
  accounts = ("alice", with_balance "alice" 100) ∷ ("val", with_balance "val" 10) ∷ [];
  validators = ("val", new_validator "val" 60) ∷ [];
  unbonding_queue =
      record { address = "bob"; amount = 9; release_epoch = 1 }
      ∷ record { address = "bob"; amount = 8; release_epoch = 2 }
      ∷ [];
}

block_run :
    get_balance (apply_block (transfer_tx ∷ stake_tx ∷ []) (some "miner") ledger).0 "miner" ≡ 10
unfolding apply_block apply_all apply_transaction apply_transfer apply_stake modify_account get
    insert
block_run = refl

apply_block-Conserves_example :
    BlockConserves
      (transfer_tx ∷ stake_tx ∷ [])
      (some "miner")
      ledger
      (apply_block (transfer_tx ∷ stake_tx ∷ []) (some "miner") ledger)
apply_block-Conserves_example =
    apply_block-Conserves (transfer_tx ∷ stake_tx ∷ []) (some "miner") ledger (omega arith)

advance_epoch-PaysMatured_example : PaysMatured 1 ledger (advance_epoch 6000 ledger)
advance_epoch-PaysMatured_example = advance_epoch-PaysMatured 6000 ledger (omega arith)

bob_is_paid : get_balance (advance_epoch 6000 ledger) "bob" ≡ 9
unfolding advance_epoch process_unbonding release_all modify_account get insert
bob_is_paid = refl

apply_transaction_err_example : SameView (apply_transaction unstake_tx ledger).0 ledger
unfolding apply_transaction get_or_create get
apply_transaction_err_example =
    apply_transaction_err unstake_tx ledger {e = insufficient_balance 10 52} refl

transfer_moves_funds_example :
    ((apply_transaction transfer_tx ledger).1 ≡ ok tt)
    × Transferred transfer_tx ledger (apply_transaction transfer_tx ledger).0
unfolding get
transfer_moves_funds_example =
    transfer_moves_funds transfer_tx ledger refl (false→ne "alice" "genesis" refl)
      (false→ne "alice" "bob" refl) (omega arith) (omega arith)

validated_applies_example :
    ((apply_transaction transfer_tx ledger).1 ≡ ok tt)
    × (get_nonce (apply_transaction transfer_tx ledger).0 "alice"
        ≡ add64 (get_nonce ledger "alice") 1)
unfolding validate_transaction verify verify_with_key verify_signature get
validated_applies_example =
    validated_applies toy ledger transfer_tx (false→ne "alice" "genesis" refl) (omega arith) refl

replay_rejected_example :
    let s' = (apply_transaction transfer_tx ledger).0 in
    validate_transaction toy s' transfer_tx ≡ err (invalid_nonce (get_nonce s' "alice") 0)
unfolding validate_transaction verify verify_with_key verify_signature get
replay_rejected_example =
    replay_rejected toy ledger transfer_tx (false→ne "alice" "genesis" refl) (omega arith)
      (omega arith) refl

-- The penalty of a tenth, and the validator that it hits.
abbrev tenth : ℕ → ℕ
tenth coins = coins / 10

abbrev caught : AccountState
caught = record ledger { validators = ("val", slash tenth 100 (new_validator "val" 60)) ∷ [] }

slashed_forever_example :
    (is_active (slash tenth 100 (new_validator "val" 60)) ≡ false)
    × ((block : ℕ) → is_eligible (slash tenth 100 (new_validator "val" 60)) block ≡ false)
unfolding get advance_epoch process_unbonding release_all map_values modify_account insert
slashed_forever_example =
    slashed_forever "val" {s = caught} {t = advance_epoch 6000 caught} (next here (epoch 6000)) refl
      (slash tenth 100 (new_validator "val" 60)) refl

abbrev small_unstake : Transaction
small_unstake = record unstake_tx { amount = 5 }

-- The stake of 60 covers the amount of 50 and the balance of 10 the fee of 2, yet the unstake is refused,
-- while one of 5 is accepted.
unstake_runs :
    ((apply_unstake unstake_tx ledger).1 ≡ ok tt)
    × ((apply_transaction unstake_tx ledger).1 ≡ err (insufficient_balance 10 52))
    × ((apply_transaction small_unstake ledger).1 ≡ ok tt)
unfolding apply_transaction apply_unstake get_or_create modify_account get insert
unstake_runs = (refl, refl, refl)
