-- ===== src/Chain/Start.antt =====
-- blockchain.rs: `Blockchain::new`, from the chain of the database (empty if there is none) and the latest
-- snapshot.
use blockhain_core.Prelude.{
  ℕ, ◌+◌, String, ◌&&◌, Option, none, some, List, [], ◌∷◌, ltb, if◌then◌else◌, ◌==◌, ℕ-Eq,
  String-Eq, Bytes-Eq, Option-Eq, length, drop, is_empty, Result, ok, ◌>>=◌,
}
use blockhain_core.Map.{Map}
use blockhain_core.Crypto.{Crypto}
use blockhain_core.Block.{Block, Codec}
use blockhain_core.Account.State.{AccountState, new_state, modify_account}
use blockhain_core.Mempool.Pool.{default_config, new_pool}
use blockhain_core.Pruning.Snapshot.{StateSnapshot}
use blockhain_core.Chain.State.{Blockchain, ChainError}
use blockhain_core.Chain.Reorg.{rebuild_from}
use blockhain_core.Chain.Genesis.{build_genesis_block}

-- The two loops that restore accounts from a snapshot.
unfoldable pub restore_balances : Map String ℕ → AccountState → AccountState
restore_balances [] s = s
restore_balances ((addr, balance) ∷ rest) s =
    restore_balances rest (modify_account addr (λ a. record a { balance = balance }) s)

unfoldable pub restore_nonces : Map String ℕ → AccountState → AccountState
restore_nonces [] s = s
restore_nonces ((addr, nonce) ∷ rest) s =
    restore_nonces rest (modify_account addr (λ a. record a { nonce = nonce }) s)

-- A snapshot of another chain is ignored.
abbrev pub usable : ℕ → Option StateSnapshot → Option StateSnapshot
usable chain_id none = none
usable chain_id (some snapshot) = if snapshot.chain_id == chain_id then some snapshot else none

abbrev pub restored : Option StateSnapshot → AccountState
restored none = new_state
restored (some snapshot) =
    restore_nonces snapshot.nonces (restore_balances snapshot.balances new_state)

abbrev pub height_or_start : Option StateSnapshot → ℕ
height_or_start none = 0
height_or_start (some snapshot) = snapshot.height

abbrev pub finalized_or_start : Option StateSnapshot → String → ℕ × String
finalized_or_start none hash = (0, hash)
finalized_or_start (some snapshot) hash = (snapshot.finalized_height, snapshot.finalized_hash)

-- The position of the first block to replay.
abbrev pub start_index : ℕ → ℕ → ℕ
start_index snapshot_height chain_len =
    if ltb 0 snapshot_height && ltb snapshot_height chain_len then snapshot_height + 1 else 0

abbrev pub first_hash : List Block → String
first_hash [] = ""
first_hash (b ∷ bs) = b.hash

-- The blocks are applied as in `rebuild_state`; where one fails the source ends the process.
unfoldable pub replayed : List Block → Option StateSnapshot → Result ChainError AccountState
replayed chain snapshot =
    rebuild_from (drop (start_index (height_or_start snapshot) (length chain)) chain)
      (restored snapshot)

unfoldable pub new_blockchain :
    {E : Type 0}
    → Crypto
    → Codec
    → List Block
    → Option StateSnapshot
    → ℕ
    → E
    → Result ChainError (Blockchain E)
new_blockchain c k loaded latest id engine =
    let chain = if is_empty loaded then build_genesis_block c k id ∷ [] else loaded in
    let snapshot = usable id latest in
    do
      state ← replayed chain snapshot
      ok (record {
        chain = chain;
        engine_state = engine;
        mempool = new_pool default_config;
        state = state;
        chain_id = id;
        finalized_height = (finalized_or_start snapshot (first_hash chain)).0;
        finalized_hash = (finalized_or_start snapshot (first_hash chain)).1;
      })
