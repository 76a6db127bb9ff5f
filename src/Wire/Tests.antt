-- ===== src/Wire/Tests.antt =====
-- A block with a transaction and evidence, sent and read back.
use blockhain_core.Prelude.{
  ℕ, zero, suc, String, ◌≡◌, refl, ap, some, [], ◌∷◌, arith, false→ne, ℕ-Eq, String-Eq, Bytes-Eq,
  Option-Eq, ok,
}
use Prim.Native.Char.{nul}
use blockhain_core.Block.{
  HeaderFields, plain_header, SlashingEvidence, evidence, no_more, more, Block,
}
use blockhain_core.Account.Tests.{transfer_tx}
use blockhain_core.Wire.Message.{block_msg}
use blockhain_core.Wire.Convert.{Decimal}
use blockhain_core.Wire.Codec.{message_to_proto, Prost, to_bytes, from_bytes_validated}
use blockhain_core.Wire.RoundTrip.{ReadsBack, HeaderIsCanonical, from_bytes-to_bytes}

-- Numbers in unary.
tally : ℕ → String
tally zero = String.[]
tally (suc n) = String.◌∷◌ nul (tally n)

tally_length : String → ℕ
tally_length String.[] = 0
tally_length (String.◌∷◌ c s) = suc (tally_length s)

tally_reads : (n : ℕ) → tally_length (tally n) ≡ n
unfolding tally tally_length
tally_reads zero = refl
tally_reads (suc n) = ap suc (tally_reads n)

abbrev unary : Decimal
unary = record { to_string = tally; parse = λ s. some (tally_length s) }

unary-ReadsBack : ReadsBack unary
unary-ReadsBack n h = ap (λ (k : ℕ). some k) (tally_reads n)

abbrev sent_header : HeaderFields
sent_header = record {
  index = 4;
  timestamp = 9;
  previous_hash = "p";
  hash = "h";
  producer = some "val";
  chain_id = 1337;
  state_root = "s";
  tx_root = "t1";
  nonce = 0;
  epoch = 0;
  slot = 0;
  vrf_output = [];
  vrf_proof = [];
  validator_set_hash = "";
}

abbrev sent_evidence : SlashingEvidence
sent_evidence = evidence (plain_header sent_header) (plain_header sent_header) (1 ∷ []) (2 ∷ [])

abbrev sent_block : Block
sent_block = record {
  index = 5;
  timestamp = 10;
  previous_hash = "h";
  hash = "b";
  transactions = transfer_tx ∷ [];
  nonce = 0;
  producer = some "val";
  signature = some (7 ∷ []);
  chain_id = 1337;
  slashing_evidence = some (more sent_evidence no_more);
  state_root = "s";
  tx_root = "t1";
  epoch = 0;
  slot = 0;
  vrf_output = [];
  vrf_proof = [];
  validator_set_hash = "";
}

-- It decodes one message only.
abbrev one_message : Prost
one_message = record {
  encode_to_vec = λ p. 1 ∷ [];
  decode = λ bytes. some (message_to_proto unary (block_msg sent_block));
  block_len = λ p. 100;
  transaction_len = λ p. 10;
}

from_bytes-to_bytes_example :
    from_bytes_validated unary one_message (to_bytes unary one_message (block_msg sent_block))
    ≡ ok (block_msg sent_block)
unfolding to_bytes HeaderIsCanonical
from_bytes-to_bytes_example =
    from_bytes-to_bytes unary unary-ReadsBack one_message (block_msg sent_block)
      (
        omega arith,
        false→ne "val" "" refl,
        tt,
        (((omega arith, false→ne "val" "" refl), (omega arith, false→ne "val" "" refl)), tt),
        ((omega arith, tt), tt),
      )
      refl (omega arith)
