-- ===== src/Transaction/Preimage.antt =====
-- What the signature of a transaction (transaction.rs, `signing_hash` and `verify`) does not fix: the fields are
-- hashed one after another without their lengths.
use blockhain_core.Prelude.{
  ℕ, String, ◌≡◌, sym, ap, ◌∙◌, true, false, none, some, List, [], ◌∷◌, ◌++◌, if◌then◌else◌, ◌==◌,
  ℕ-Eq, String-Eq, Bytes-Eq, Option-Eq, length, le_bytes, as_bytes,
}
use mathlib.Core.List.{append_assoc}
use blockhain_core.Crypto.{Crypto, verify_signature}
use blockhain_core.Transaction.{
  Transaction, type_byte, signing_preimage, signing_hash, verify_with_key, verify,
}

-- The bytes between the sender and the timestamp.
abbrev pub middle_bytes : Transaction → List ℕ
middle_bytes tx =
    as_bytes tx.to
    ++ (le_bytes 8 tx.amount ++ (le_bytes 8 tx.fee ++ (le_bytes 8 tx.nonce ++ tx.payload)))

abbrev last_bytes : Transaction → List ℕ
last_bytes tx = le_bytes 16 tx.timestamp ++ (le_bytes 8 tx.chain_id ++ type_byte tx.tx_type ∷ [])

preimage_split :
    (tx : Transaction)
    → signing_preimage tx
      ≡ as_bytes "BDLM_TX_V2" ++ (as_bytes tx.from ++ (middle_bytes tx ++ last_bytes tx))
unfolding signing_preimage
preimage_split tx = simp (append_assoc)

-- The same transaction with another receiver, amount, fee, nonce and payload.
abbrev pub altered : String → ℕ → ℕ → ℕ → List ℕ → Transaction → Transaction
altered to amount fee nonce payload tx = record tx {
  to = to;
  amount = amount;
  fee = fee;
  nonce = nonce;
  payload = payload;
}

altered_hash :
    (c : Crypto) (tx : Transaction) (to : String) (amount fee nonce : ℕ) (payload : List ℕ)
    → middle_bytes tx ≡ middle_bytes (altered to amount fee nonce payload tx)
    → signing_hash c tx ≡ signing_hash c (altered to amount fee nonce payload tx)
unfolding signing_hash
altered_hash c tx to amount fee nonce payload h = ap c.sha3_256 (
    preimage_split tx
    ∙ ap (λ m. as_bytes "BDLM_TX_V2" ++ (as_bytes tx.from ++ (m ++ last_bytes tx))) h
    ∙ sym (preimage_split (altered to amount fee nonce payload tx)))

-- A signature of a transaction verifies for each other one that differs in receiver, amount, fee, nonce and
-- payload, if the bytes of these five fields, one after another, are the same.
pub altered_verifies :
    (c : Crypto) (tx : Transaction) (to : String) (amount fee nonce : ℕ) (payload : List ℕ)
    → middle_bytes tx ≡ middle_bytes (altered to amount fee nonce payload tx)
    → verify c tx ≡ verify c (altered to amount fee nonce payload tx)
unfolding verify verify_with_key
altered_verifies c tx to amount fee nonce payload h =
    ap
      (λ hash. if tx.from == "genesis" then true else elim tx.signature [
        | none ↦ false
        | some signature ↦ elim (c.hex_decode tx.from) [
          | none ↦ false
          | some public_key ↦
              if length public_key == 32
              then verify_signature c hash signature public_key
              else false
        ]
      ])
      (altered_hash c tx to amount fee nonce payload h)
