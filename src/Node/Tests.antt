-- ===== src/Node/Tests.antt =====
-- A block from a peer that has not shaken hands.
use blockhain_core.Prelude.{
  ℕ, ◌+◌, ◌-◌, ◌*◌, ◌/◌, refl, none, some, List, [], ◌∷◌, leb, if◌then◌else◌, ℕ-Eq, String-Eq,
  Bytes-Eq, Option-Eq,
}
use blockhain_core.Map.{Map, get, insert, remove}
use blockhain_core.Block.{Block, Codec, zero_hash}
use blockhain_core.Account.State.{new_state}
use blockhain_core.Account.Tests.{toy}
use blockhain_core.Consensus.{ConsensusEngine}
use blockhain_core.Consensus.Authority.{signing_engine}
use blockhain_core.Mempool.Pool.{default_config, new_pool}
use blockhain_core.Peers.{Floats, is_handshaked}
use blockhain_core.Storage.{Disk}
use blockhain_core.Wire.Message.{block_msg}
use blockhain_core.Wire.Convert.{Decimal}
use blockhain_core.Wire.Codec.{message_to_proto, Prost}
use blockhain_core.Node.Sync.{Node, Clock}
use blockhain_core.Node.Handle.{receive}
use blockhain_core.Node.Gate.{IsHarmless, stranger_keeps_chain}

abbrev node_codec : Codec
node_codec = record { bincode = λ e. []; json_size = λ b. 100 }

abbrev node_engine : ConsensusEngine (Unit {0})
node_engine = signing_engine toy node_codec none

-- No time gives a token.
abbrev whole_tokens : Floats ℕ
whole_tokens = record {
  tokens = λ n. n;
  half = 0;
  seconds = λ n. 0;
  plus = λ a b. a + b;
  minus = λ a b. a - b;
  times = λ a b. a * b;
  min_of = λ a b. if leb a b then a else b;
  at_least = λ a b. leb b a;
}

abbrev all_sevens : Decimal
all_sevens = record { to_string = λ n. "7"; parse = λ s. some 7 }

abbrev pushed_block : Block
pushed_block = record {
  index = 1;
  timestamp = 7;
  previous_hash = zero_hash;
  hash = "x";
  transactions = [];
  nonce = 0;
  producer = none;
  signature = none;
  chain_id = 1337;
  slashing_evidence = none;
  state_root = "";
  tx_root = zero_hash;
  epoch = 0;
  slot = 0;
  vrf_output = [];
  vrf_proof = [];
  validator_set_hash = "";
}

-- Each message is the block, whose hash is too short for the log.
abbrev always_block : Prost
always_block = record {
  encode_to_vec = λ m. [];
  decode = λ bytes. some (message_to_proto all_sevens (block_msg pushed_block));
  block_len = λ b. 100;
  transaction_len = λ tx. 100;
}

abbrev listed_disk : Disk (Map (List ℕ) (List ℕ))
listed_disk = record {
  get = λ k d. get k d;
  insert = λ k v d. insert k v d;
  remove = λ k d. remove k d;
  block_json = λ b. [];
  block_from_json = λ bytes. none;
  blob_json = λ b. [];
  blob_from_json = λ bytes. none;
  cert_json = λ cert. [];
  cert_from_json = λ bytes. none;
  from_utf8 = λ bytes. none;
  to_string = λ n. "7";
  parse = λ s. some 7;
}

abbrev fresh_node : Node (Unit {0}) ℕ
fresh_node = record {
  blockchain = record {
    chain = record pushed_block { index = 0 } ∷ [];
    engine_state = tt;
    mempool = new_pool default_config;
    state = new_state;
    chain_id = 1337;
    finalized_height = 0;
    finalized_hash = "x";
  };
  peers = [];
}

abbrev noon : Clock
noon = record { instant = 9; millis = 2000; seconds = 2 }

stranger_keeps_chain_example : IsHarmless fresh_node.blockchain (
    receive toy node_codec node_engine
      (λ n. n / 10)
      whole_tokens
      all_sevens
      always_block
      listed_disk
      none
      noon
      "p"
      (1 ∷ [])
      fresh_node)
unfolding is_handshaked get
stranger_keeps_chain_example =
    stranger_keeps_chain toy node_codec node_engine (λ n. n / 10) whole_tokens all_sevens
      always_block listed_disk none noon "p" (1 ∷ []) fresh_node refl
