-- ===== src/Storage/Tests.antt =====
-- Two blocks written to a database that is a list of its entries, and read again.
use blockhain_core.Prelude.{
  ℕ, zero, suc, ◌≡◌, refl, Option, none, some, List, [], ◌∷◌, arith, if◌then◌else◌, ◌==◌, false→ne,
  ℕ-Eq, String-Eq, Bytes-Eq, Option-Eq, ok, as_bytes,
}
use blockhain_core.Prelude.{utf8}
use blockhain_core.Map.{Map, get, insert, remove}
use blockhain_core.Map.Laws.{get-insert}
use blockhain_core.Block.{Block, zero_hash}
use blockhain_core.Storage.{Disk, height_key, state_root_key, load_chain}
use blockhain_core.Storage.Reload.{persist_all, load_chain-persist_all}

abbrev root_block : Block
root_block = record {
  index = 0;
  timestamp = 0;
  previous_hash = zero_hash;
  hash = "aa";
  transactions = [];
  nonce = 0;
  producer = none;
  signature = none;
  chain_id = 1337;
  slashing_evidence = none;
  state_root = "";
  tx_root = zero_hash;
  epoch = 0;
  slot = 0;
  vrf_output = [];
  vrf_proof = [];
  validator_set_hash = "";
}

abbrev tip_block : Block
tip_block = record root_block { index = 1; timestamp = 2000; previous_hash = "aa"; hash = "bb" }

abbrev block_at : List ℕ → Option Block
block_at [] = none
block_at (zero ∷ bytes) = some root_block
block_at (suc n ∷ bytes) = some tip_block

abbrev listed : Disk (Map (List ℕ) (List ℕ))
listed = record {
  get = λ k d. get k d;
  insert = λ k v d. insert k v d;
  remove = λ k d. remove k d;
  block_json = λ b. b.index ∷ [];
  block_from_json = block_at;
  blob_json = λ b. [];
  blob_from_json = λ bytes. none;
  cert_json = λ cert. [];
  cert_from_json = λ bytes. none;
  from_utf8 = λ bytes. if bytes == as_bytes "bb" then some "bb" else some "aa";
  to_string = λ n. "7";
  parse = λ s. some 7;
}

load_chain-persist_all_example :
    load_chain listed 2 (persist_all listed (tip_block ∷ root_block ∷ []) [])
    ≡ ok (root_block ∷ tip_block ∷ [])
unfolding as_bytes utf8
load_chain-persist_all_example =
    load_chain-persist_all listed (λ k j v d. get-insert k j v d) tip_block (root_block ∷ []) [] 2
      (refl, false→ne "aa" zero_hash refl, refl)
      (
        (
          false→ne (as_bytes "bb") (as_bytes "LAST") refl,
          false→ne (as_bytes "bb") (as_bytes "CANONICAL_HEIGHT") refl,
          λ n. false→ne (as_bytes "bb") (height_key listed n) refl,
          λ n. false→ne (as_bytes "bb") (state_root_key listed n) refl,
        ),
        (false→ne (as_bytes "bb") (as_bytes "aa") refl, tt),
        (
          (
            false→ne (as_bytes "aa") (as_bytes "LAST") refl,
            false→ne (as_bytes "aa") (as_bytes "CANONICAL_HEIGHT") refl,
            λ n. false→ne (as_bytes "aa") (height_key listed n) refl,
            λ n. false→ne (as_bytes "aa") (state_root_key listed n) refl,
          ),
          tt,
          tt,
        ),
      )
      ((refl, refl), ((refl, refl), tt)) (omega arith)
