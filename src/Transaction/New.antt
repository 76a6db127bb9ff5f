-- ===== src/Transaction/New.antt =====
-- transaction.rs: making, hashing and signing a transaction. `digits` are the decimal digits of a number, and `now`
-- is the system time.
use blockhain_core.Prelude.{
  ℕ, String, ◌≡◌, refl, inl, inr, true, none, some, List, [], ◌∷◌, Bool-cases, ◌==◌, ℕ-Eq,
  String-Eq, Bytes-Eq, Option-Eq, length, as_bytes,
}
use blockhain_core.Crypto.{Crypto, verify_signature, calculate_hash, concat, KeyPair}
use blockhain_core.Transaction.{
  TransactionType, Transaction, default_chain_id, type_byte, signing_preimage, signing_hash,
  verify_with_key, verify,
}

unfoldable pub transaction_hash : Crypto → (ℕ → String) → Transaction → String
transaction_hash c digits tx = calculate_hash c (
    concat (
      as_bytes tx.from
      ∷ as_bytes tx.to
      ∷ as_bytes (digits tx.amount)
      ∷ as_bytes (digits tx.fee)
      ∷ as_bytes (digits tx.nonce)
      ∷ as_bytes (c.hex_encode tx.payload)
      ∷ as_bytes (digits tx.timestamp)
      ∷ as_bytes (digits (type_byte tx.tx_type))
      ∷ []))

module _ (c : Crypto) (digits : ℕ → String) (now : ℕ) where
  unfoldable pub new_on_chain :
      String → String → ℕ → ℕ → ℕ → List ℕ → ℕ → TransactionType → Transaction
  new_on_chain from to amount fee nonce payload chain_id tx_type =
      let tx : Transaction = record {
        from = from;
        to = to;
        amount = amount;
        fee = fee;
        nonce = nonce;
        payload = payload;
        timestamp = now;
        hash = "";
        signature = none;
        chain_id = chain_id;
        tx_type = tx_type;
      } in
      record tx { hash = transaction_hash c digits tx }

  unfoldable pub new_transaction : String → String → ℕ → List ℕ → Transaction
  new_transaction from to amount payload =
      new_on_chain from to amount 0 0 payload default_chain_id TransactionType.transfer

  unfoldable pub new_stake : String → ℕ → ℕ → Transaction
  new_stake from amount nonce =
      new_on_chain from "" amount 0 nonce [] default_chain_id TransactionType.stake

  unfoldable pub new_with_fee : String → String → ℕ → ℕ → ℕ → List ℕ → Transaction
  new_with_fee from to amount fee nonce payload =
      new_on_chain from to amount fee nonce payload default_chain_id TransactionType.transfer

-- A sender that is not the key's own is only warned of.
unfoldable pub sign_transaction : Crypto → KeyPair → Transaction → Transaction
sign_transaction c keys tx = record tx { signature = some (keys.sign (signing_hash c tx)) }

-- A transaction that its sender's key signs verifies, if the signatures of the key are 64 bytes that verify and its
-- hexadecimal name decodes to a 32-byte key.
pub signed_verifies :
    (c : Crypto) (keys : KeyPair) (tx : Transaction) (key : List ℕ)
    → tx.from ≡ keys.public_key_hex
    → c.hex_decode keys.public_key_hex ≡ some key
    → length key ≡ 32
    → verify_signature c (signing_hash c tx) (keys.sign (signing_hash c tx)) key ≡ true
    → verify c (sign_transaction c keys tx) ≡ true
unfolding verify verify_with_key signing_hash signing_preimage sign_transaction
signed_verifies c keys tx key f h l v = elim (Bool-cases (tx.from == "genesis")) [
  | inl t ↦ rw t refl
  | inr t ↦ rw (t, f, h, l) v
]
