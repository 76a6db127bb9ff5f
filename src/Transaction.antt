-- ===== src/Transaction.antt =====
-- transaction.rs: the transaction, its signing hash, its signature check and its intrinsic checks.
pub mod Preimage
pub mod New
mod Tests
use blockhain_core.Prelude.{
  as_bytes, ℕ, String, Bool, true, false, not, Option, none, some, List, [], ◌∷◌, ◌++◌,
  if◌then◌else◌, ◌==◌, ℕ-Eq, String-Eq, Bytes-Eq, Option-Eq, length, saturating_add, le_bytes,
}
use blockhain_core.Crypto.{Crypto, verify_signature}

pub data TransactionType : Type 0 where
  transfer stake unstake vote : TransactionType

-- The source's field `data` is `payload` here.
pub record Transaction : Type 0 where
  pub from : String
  pub to : String
  pub amount : ℕ
  pub fee : ℕ
  pub nonce : ℕ
  pub payload : List ℕ
  pub timestamp : ℕ
  pub hash : String
  pub signature : Option (List ℕ)
  pub chain_id : ℕ
  pub tx_type : TransactionType

abbrev pub default_chain_id : ℕ
default_chain_id = 1337

abbrev pub type_byte : TransactionType → ℕ
type_byte TransactionType.transfer = 0
type_byte TransactionType.stake = 1
type_byte TransactionType.unstake = 2
type_byte TransactionType.vote = 3

-- What `signing_hash` feeds to the hasher, in order.
unfoldable pub signing_preimage : Transaction → List ℕ
signing_preimage tx =
    as_bytes "BDLM_TX_V2"
    ++ (as_bytes tx.from
        ++ (as_bytes tx.to
            ++ (le_bytes 8 tx.amount
                ++ (le_bytes 8 tx.fee
                    ++ (le_bytes 8 tx.nonce
                        ++ (tx.payload
                            ++ (le_bytes 16 tx.timestamp
                                ++ (le_bytes 8 tx.chain_id ++ type_byte tx.tx_type ∷ []))))))))

unfoldable pub signing_hash : Crypto → Transaction → List ℕ
signing_hash c tx = c.sha3_256 (signing_preimage tx)

-- The checks of `verify` once a signature and a decoded public key are at hand.
unfoldable pub verify_with_key : Crypto → Transaction → List ℕ → List ℕ → Bool
verify_with_key c tx signature public_key =
    if length public_key == 32
    then verify_signature c (signing_hash c tx) signature public_key
    else false

unfoldable pub verify : Crypto → Transaction → Bool
verify c tx = if tx.from == "genesis" then true else elim tx.signature [
  | none ↦ false
  | some signature ↦ elim (c.hex_decode tx.from) [
    | none ↦ false
    | some public_key ↦ verify_with_key c tx signature public_key
  ]
]

abbrev pub is_valid_type : TransactionType → Transaction → Bool
is_valid_type TransactionType.transfer tx = not (tx.to == "")
is_valid_type TransactionType.stake tx = not (tx.amount == 0)
is_valid_type TransactionType.unstake tx = true
is_valid_type TransactionType.vote tx = true

unfoldable pub is_valid : Crypto → Transaction → Bool
is_valid c tx =
    if not (verify c tx)
    then false
    else if tx.from == "genesis"
    then true
    else is_valid_type tx.tx_type tx

abbrev pub total_cost : Transaction → ℕ
total_cost tx = saturating_add tx.amount tx.fee

-- `hash` is filled in by `calculate_hash` at creation and is not checked anywhere afterwards.
abbrev pub genesis : Transaction
genesis = record {
  from = "genesis";
  to = "genesis";
  amount = 0;
  fee = 0;
  nonce = 0;
  payload = 0x52 ∷ 0x41 ∷ 0x44 ∷ 0x45 ∷ [];
  timestamp = 0;
  hash = "genesis";
  signature = none;
  chain_id = default_chain_id;
  tx_type = TransactionType.transfer;
}
