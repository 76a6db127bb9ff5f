-- ===== src/Chain/Submit.antt =====
-- `add_transaction` of blockchain.rs: what is known of a transaction that it accepts.
use blockhain_core.Prelude.{
  ℕ, ◌<◌, ◌≡◌, refl, ◌≢◌, true, not, arith, ◌==◌, eq→path, false→ne, ℕ-Eq, String-Eq, Bytes-Eq,
  Option-Eq, Result, ok, err, map_err, >>-eq-ok, fail_if-eq-ok, u64_mod,
}
use blockhain_core.Crypto.{Crypto}
use blockhain_core.Transaction.{Transaction, verify}
use blockhain_core.Account.Validate.{validate_transaction}
use blockhain_core.Account.Apply.{apply_transaction}
use blockhain_core.Account.Replay.{validated_applies}
use blockhain_core.Mempool.Pool.{invalid_transaction}
use blockhain_core.Chain.State.{
  Blockchain, ChainError, invalid_chain_id, genesis_forbidden, bad_signature, invalid_transaction,
  check_submitted, submit_checked, submit_transaction,
}

map_err-ok : {A B : Type 0} (f : A → B) (r : Result A (Unit {0})) → map_err f r ≡ ok tt → r ≡ ok tt
map_err-ok f (ok tt) h = refl
map_err-ok f (err e) h = cc

module _ {E : Type 0} (c : Crypto) where
  -- The facts that the checks establish.
  abbrev pub IsSound : Transaction → Blockchain E → Type 0
  IsSound tx bc =
      (tx.chain_id ≡ bc.chain_id)
      × (tx.from ≢ "genesis")
      × (verify c tx ≡ true)
      × (validate_transaction c bc.state tx ≡ ok tt)

  check_submitted-ok :
      (tx : Transaction) (bc : Blockchain E) → check_submitted c tx bc ≡ ok tt → IsSound tx bc
  check_submitted-ok tx bc h =
      let (h1, t1) = >>-eq-ok _ _ h in
      let (h2, t2) = >>-eq-ok _ _ t1 in
      let (h3, h4) = >>-eq-ok _ _ t2 in
      (
        eq→path tx.chain_id bc.chain_id
            (ground (arith, fail_if-eq-ok (not (tx.chain_id == bc.chain_id)) invalid_chain_id h1)),
        false→ne tx.from "genesis" (fail_if-eq-ok (tx.from == "genesis") genesis_forbidden h2),
        ground (arith, fail_if-eq-ok (not (verify c tx)) bad_signature h3),
        map_err-ok invalid_transaction (validate_transaction c bc.state tx) h4,
      )

  submit_checked-ok :
      (now : ℕ) (tx : Transaction) (bc : Blockchain E) (r : Result ChainError (Unit {0}))
      → (submit_checked c now tx bc r).1 ≡ ok tt
      → r ≡ ok tt
  submit_checked-ok now tx bc (ok tt) h = refl
  submit_checked-ok now tx bc (err e) h = cc

  -- A transaction with a 64-bit fee that `add_transaction` of the blockchain accepts has the chain's id
  -- and a valid signature, is not from "genesis", and applies to the current state without an error.
  pub submitted_applies :
      (now : ℕ) (tx : Transaction) (bc : Blockchain E)
      → tx.fee < u64_mod
      → (submit_transaction c now tx bc).1 ≡ ok tt
      → (tx.chain_id ≡ bc.chain_id)
        × (verify c tx ≡ true)
        × (tx.from ≢ "genesis")
        × ((apply_transaction tx bc.state).1 ≡ ok tt)
  unfolding submit_transaction
  submitted_applies now tx bc fee h =
      let (i, ne, v, ok_tx) =
        check_submitted-ok tx bc (submit_checked-ok now tx bc (check_submitted c tx bc) h) in
      (i, v, ne, (validated_applies c bc.state tx ne fee ok_tx).0)
