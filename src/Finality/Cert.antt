-- ===== src/Finality/Cert.antt =====
-- consensus/finality.rs: the certificate, its production by the aggregator and its verification.
use blockhain_core.Prelude.{
  ℕ, zero, suc, ◌+◌, ◌/◌, ◌%◌, ◌^◌, String, Bool, false, not, Option, none, some, List, [], ◌∷◌,
  ◌++◌, ltb, if◌then◌else◌, ◌==◌, ℕ-Eq, String-Eq, Bytes-Eq, Option-Eq, length, get_elem?,
  replicate, is_empty, Result, ◌>>◌, fail_if, u64_mod,
}
use Prim.Native.Nat.{bit_or, bit_and}
use blockhain_core.Map.{Map}
use blockhain_core.Finality.Snapshot.{
  ValidatorEntry, ValidatorSetSnapshot, validator_index, quorum_stake,
}
use blockhain_core.Finality.Aggregator.{Vote, FinalityAggregator}

pub record FinalityCert : Type 0 where
  pub epoch : ℕ
  pub checkpoint_height : ℕ
  pub checkpoint_hash : String
  pub agg_sig_bls : List ℕ
  pub bitmap : List ℕ
  pub set_hash : String

-- `bitmap[i] |= 1 << k`; the index is in range in the program.
unfoldable pub or_at : ℕ → ℕ → List ℕ → List ℕ
or_at i k [] = []
or_at zero k (b ∷ bs) = bit_or b (2 ^ k) ∷ bs
or_at (suc i) k (b ∷ bs) = b ∷ or_at i k bs

unfoldable pub set_bit : ℕ → List ℕ → List ℕ
unfolding or_at
set_bit idx bitmap = or_at (idx / 8) (idx % 8) bitmap

-- `byte_idx < bitmap.len() && (bitmap[byte_idx] & (1 << bit_idx)) != 0`
unfoldable pub has_bit : List ℕ → ℕ → Bool
has_bit bitmap idx = elim (get_elem? bitmap (idx / 8)) [
  | none ↦ false
  | some byte ↦ not (bit_and byte (2 ^ (idx % 8)) == 0)
]

-- One turn of the loop over the precommits: the bitmap and the signatures so far.
abbrev pub mark : Option ℕ → Vote → List ℕ × List ℕ → List ℕ × List ℕ
mark none vote (bitmap, sigs) = (bitmap, sigs)
mark (some idx) vote (bitmap, sigs) = (set_bit idx bitmap, sigs ++ vote.sig_bls)

abbrev pub add_signer : ValidatorSetSnapshot → String × Vote → List ℕ × List ℕ → List ℕ × List ℕ
add_signer s (addr, vote) acc = mark (validator_index s addr) vote acc

unfoldable pub collect_signers :
    ValidatorSetSnapshot → Map String Vote → List ℕ × List ℕ → List ℕ × List ℕ
collect_signers s [] acc = acc
collect_signers s ((addr, vote) ∷ votes) acc =
    collect_signers s votes (add_signer s (addr, vote) acc)

abbrev pub cert_for : FinalityAggregator → ValidatorSetSnapshot → FinalityCert
cert_for a s =
    let (bitmap, sigs) =
      collect_signers s a.precommits (replicate ((length s.validators + 7) / 8) 0, []) in
    record {
      epoch = a.epoch;
      checkpoint_height = a.checkpoint_height;
      checkpoint_hash = a.checkpoint_hash;
      agg_sig_bls = sigs;
      bitmap = bitmap;
      set_hash = s.set_hash;
    }

abbrev pub cert_with : Option ValidatorSetSnapshot → FinalityAggregator → Option FinalityCert
cert_with none a = none
cert_with (some s) a = some (cert_for a s)

unfoldable pub try_produce_cert : FinalityAggregator → Option FinalityCert
try_produce_cert a =
    if not a.precommit_quorum_reached then none else cert_with a.validator_snapshot a

pub data CertError : Type 0 where
  set_hash_mismatch cert_epoch_mismatch insufficient_quorum no_signers empty_signature : CertError

-- The loop of `verify`: the voted stake (modulo 2^64) and the number of signers, from an index on.
unfoldable pub signed_stake : List ℕ → ℕ → List ValidatorEntry → ℕ
signed_stake bitmap i [] = 0
signed_stake bitmap i (v ∷ vs) =
    (if has_bit bitmap i then v.stake else 0) + signed_stake bitmap (suc i) vs

unfoldable pub signers_from : List ℕ → ℕ → ℕ → ℕ
signers_from bitmap i zero = 0
signers_from bitmap i (suc n) = (if has_bit bitmap i then 1 else 0) + signers_from bitmap (suc i) n

-- `signer_count`
abbrev pub signer_count : FinalityCert → ℕ → ℕ
signer_count cert n = signers_from cert.bitmap 0 n

unfoldable pub verify_cert : FinalityCert → ValidatorSetSnapshot → Result CertError (Unit {0})
verify_cert cert s = do
  fail_if (not (cert.set_hash == s.set_hash)) set_hash_mismatch
  fail_if (not (cert.epoch == s.epoch)) cert_epoch_mismatch
  fail_if (ltb (signed_stake cert.bitmap 0 s.validators % u64_mod) (quorum_stake s))
      insufficient_quorum
  fail_if (signer_count cert (length s.validators) == 0) no_signers
  fail_if (is_empty cert.agg_sig_bls) empty_signature
