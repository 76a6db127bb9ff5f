-- ===== src/Node/Sync.antt =====
-- network/node.rs: the state of a node, the slices that the handlers take, and the messages that synchronise
-- chains.
use blockhain_core.Prelude.{
  ℕ, zero, suc, ◌+◌, ◌-◌, ◌*◌, min, String, Bool, true, false, not, ◌&&◌, ◌||◌, Option, none, some,
  List, [], ◌∷◌, ◌++◌, map, ltb, leb, if◌then◌else◌, ◌==◌, ℕ-Eq, String-Eq, Bytes-Eq, Option-Eq,
  length, get_elem?, take, drop, Result, ok, err, as_bytes,
}
use blockhain_core.Map.{Map}
use blockhain_core.Crypto.{Crypto}
use blockhain_core.Block.{BlockHeader, Block, Codec, from_block}
use blockhain_core.Consensus.{ConsensusEngine}
use blockhain_core.Chain.State.{Blockchain, ChainError}
use blockhain_core.Chain.Add.{validate_and_add_block}
use blockhain_core.Chain.Reorg.{try_reorg}
use blockhain_core.Peers.{PeerScore}
use blockhain_core.Pruning.{range}
use blockhain_core.Storage.{Disk, StorageError, get_block_by_height, get_state_root, found_block}

abbrev pub max_chain_sync_blocks : ℕ
max_chain_sync_blocks = 500

abbrev pub max_headers_per_request : ℕ
max_headers_per_request = 2000

abbrev pub max_snap_batch : ℕ
max_snap_batch = 256

pub record Node (E F : Type 0) : Type 0 where
  pub blockchain : Blockchain E
  pub peers : Map String (PeerScore F)

-- The times that a handler reads: an instant for peers, milliseconds and seconds of the system clock.
pub record Clock : Type 0 where
  pub instant : ℕ
  pub millis : ℕ
  pub seconds : ℕ

-- A panic ends the task of the node.
pub data NodePanic : Type 0 where
  text_slice block_slice : NodePanic

-- `s[..n]` does not panic: `n` is at most the length, and the byte there begins a character.
abbrev pub begins_char : List ℕ → Bool
begins_char [] = true
begins_char (b ∷ bs) = ltb b 128 || leb 192 b

unfoldable pub sliceable : ℕ → String → Bool
sliceable n s = leb n (length (as_bytes s)) && begins_char (drop n (as_bytes s))

-- `s[..16.min(s.len())]`
abbrev pub shortened : String → Bool
shortened s = sliceable (min 16 (length (as_bytes s))) s

-- `chain[from..to]`
abbrev pub slice : ℕ → ℕ → List Block → List Block
slice from to chain = take (to - from) (drop from chain)

unfoldable pub position : String → List Block → Option ℕ
position hash [] = none
position hash (b ∷ bs) =
    let rest = position hash bs in
    if b.hash == hash then some 0 else elim rest [ none ↦ none | some i ↦ some (suc i) ]

-- The position after the first hash of the locator that the chain has.
unfoldable pub start_of : List String → List Block → ℕ
start_of [] chain = 0
start_of (hash ∷ locator) chain =
    let rest = start_of locator chain in elim (position hash chain) [ none ↦ rest | some i ↦ suc i ]

unfoldable pub headers_after : List String → ℕ → List Block → List BlockHeader
headers_after locator limit chain =
    let start_idx = start_of locator chain in
    map from_block (slice start_idx (min (start_idx + limit) (length chain)) chain)

abbrev pub hash_of : Option Block → List String
hash_of none = []
hash_of (some b) = b.hash ∷ []

-- The loop that builds a locator, `left` entries at most.
unfoldable pub locator_from : ℕ → ℕ → ℕ → List Block → List String
locator_from zero current step chain = []
locator_from (suc left) current step chain =
    let rest = locator_from left (current - step) (step * 2) chain in
    if current == 0 then [] else hash_of (get_elem? chain current) ++ rest

abbrev pub or_first : List String → List Block → List String
or_first [] chain = hash_of (get_elem? chain 0)
or_first (hash ∷ locator) chain = hash ∷ locator

unfoldable pub locator_of : List Block → List String
locator_of chain = or_first (locator_from 10 (length chain - 1) 1 chain) chain

module _ {D : Type 0} (disk : Disk D) where
  unfoldable pub blocks_at : List ℕ → D → List Block
  blocks_at [] d = []
  blocks_at (h ∷ hs) d =
      let rest = blocks_at hs d in
      elim (found_block disk (get_block_by_height disk h d)) [ none ↦ [] | some b ↦ b ∷ rest ]

  -- The blocks for `GetBlocksByHeight`, from the database or else from the chain.
  unfoldable pub blocks_by_height : ℕ → ℕ → Option D → List Block → Result NodePanic (List Block)
  blocks_by_height from to (some d) chain = ok (blocks_at (range from (to + 1 - from)) d)
  blocks_by_height from to none chain =
      let end = min (to + 1) (length chain) in
      if ltb from (length chain)
      then if ltb end from then err block_slice else ok (slice from end chain)
      else ok []

  abbrev pub root_found : Result StorageError (Option String) → Option String
  root_found (err e) = none
  root_found (ok o) = o

  abbrev pub root_in : ℕ → Option D → Option String
  root_in height none = none
  root_in height (some d) = root_found (get_state_root disk height d)

module _ {E : Type 0} (c : Crypto) (k : Codec) (engine : ConsensusEngine E) (penalty : ℕ → ℕ) where
  abbrev pub add_now : Clock → Block → Blockchain E → Blockchain E × Result ChainError (Unit {0})
  add_now t block bc = validate_and_add_block c k engine penalty t.millis t.seconds block bc

  -- The loop over the blocks of `Blocks`.
  unfoldable pub add_next : Clock → List Block → Blockchain E → Blockchain E
  add_next t [] bc = bc
  add_next t (b ∷ bs) bc =
      add_next t bs (if b.index == length bc.chain then (add_now t b bc).0 else bc)

  -- The loop over the blocks of `BlocksByHeight`.
  unfoldable pub add_above : Clock → List Block → Blockchain E → Blockchain E
  add_above t [] bc = bc
  add_above t (b ∷ bs) bc =
      add_above t bs (if ltb b.index (length bc.chain) then bc else (add_now t b bc).0)

  abbrev pub differs_at : Block → List Block → Bool
  differs_at b chain = elim (get_elem? chain b.index) [
    | none ↦ false
    | some known ↦ not (known.hash == b.hash)
  ]

  -- The blocks of `Blocks`: another chain from the first one on, or blocks to append.
  unfoldable pub take_blocks : Clock → List Block → Blockchain E → Blockchain E
  take_blocks t [] bc = bc
  take_blocks t (b ∷ bs) bc =
      if differs_at b bc.chain
      then (try_reorg c k engine t.millis (take b.index bc.chain ++ b ∷ bs) bc).0
      else add_next t (b ∷ bs) bc
