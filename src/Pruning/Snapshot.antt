-- ===== src/Pruning/Snapshot.antt =====
-- snapshot.rs: the snapshot of the balances and nonces, and its hash. Its JSON file is not modelled.
use blockhain_core.Prelude.{
  ℕ, String, Bool, List, [], ◌∷◌, ◌++◌, ◌==◌, ℕ-Eq, String-Eq, Bytes-Eq, Option-Eq, le_bytes,
  as_bytes,
}
use Prim.Native.Nat.{Ordering}
use Prim.Native.String.{compare}
use blockhain_core.Map.{Map}
use blockhain_core.Crypto.{Crypto, concat}
use blockhain_core.Account.State.{Account, AccountState}

pub record StateSnapshot : Type 0 where
  pub height : ℕ
  pub block_hash : String
  pub chain_id : ℕ
  pub created_at : ℕ
  pub balances : Map String ℕ
  pub nonces : Map String ℕ
  pub finalized_height : ℕ
  pub finalized_hash : String
  pub snapshot_hash : String

-- The entries sorted by their keys.
unfoldable pub insert_entry : String × ℕ → Map String ℕ → Map String ℕ
insert_entry a [] = a ∷ []
insert_entry a (b ∷ bs) = elim (compare a.0 b.0) [
  | Ordering.gt ↦ b ∷ insert_entry a bs
  | _ ↦ a ∷ b ∷ bs
]

unfoldable pub sort_entries : Map String ℕ → Map String ℕ
unfolding insert_entry
sort_entries [] = []
sort_entries (a ∷ as') = insert_entry a (sort_entries as')

unfoldable pub entries_preimage : Map String ℕ → List ℕ
entries_preimage [] = []
entries_preimage ((key, n) ∷ rest) = as_bytes key ++ (le_bytes 8 n ++ entries_preimage rest)

-- The hash of the fields but `created_at` and the hash itself.
unfoldable pub snapshot_digest : Crypto → StateSnapshot → String
snapshot_digest c s = c.hex_encode (
    c.sha3_256 (
      concat (
        le_bytes 8 s.height
        ∷ as_bytes s.block_hash
        ∷ le_bytes 8 s.chain_id
        ∷ entries_preimage (sort_entries s.balances)
        ∷ entries_preimage (sort_entries s.nonces)
        ∷ le_bytes 8 s.finalized_height
        ∷ as_bytes s.finalized_hash
        ∷ [])))

unfoldable pub get_all_balances : Map String Account → Map String ℕ
get_all_balances [] = []
get_all_balances ((key, a) ∷ accounts) = (key, a.balance) ∷ get_all_balances accounts

unfoldable pub get_all_nonces : Map String Account → Map String ℕ
get_all_nonces [] = []
get_all_nonces ((key, a) ∷ accounts) = (key, a.nonce) ∷ get_all_nonces accounts

-- `now` is the system time.
unfoldable pub from_state : Crypto → ℕ → ℕ → String → ℕ → AccountState → ℕ → String → StateSnapshot
from_state c now height block_hash chain_id account_state finalized_height finalized_hash =
    let unhashed : StateSnapshot = record {
      height = height;
      block_hash = block_hash;
      chain_id = chain_id;
      created_at = now;
      balances = get_all_balances account_state.accounts;
      nonces = get_all_nonces account_state.accounts;
      finalized_height = finalized_height;
      finalized_hash = finalized_hash;
      snapshot_hash = "";
    } in
    record unhashed { snapshot_hash = snapshot_digest c unhashed }

unfoldable pub verify_snapshot : Crypto → StateSnapshot → Bool
verify_snapshot c s = s.snapshot_hash == snapshot_digest c s
