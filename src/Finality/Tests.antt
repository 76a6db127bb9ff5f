-- ===== src/Finality/Tests.antt =====
-- A set of three validators: votes, certificates, and the theorems at them.
use blockhain_core.Prelude.{
  ℕ, ◌+◌, ◌*◌, ◌≤◌, String, ◌≡◌, refl, true, some, [], ◌∷◌, arith, ℕ-Eq, String-Eq, Bytes-Eq,
  Option-Eq, ok,
}
use blockhain_core.Map.{get, insert}
use blockhain_core.Finality.Snapshot.{ValidatorEntry, ValidatorSetSnapshot, find_in, position_from}
use blockhain_core.Finality.Aggregator.{
  Vote, FinalityAggregator, new_aggregator, set_validator_snapshot, check_prevote_quorum,
  check_precommit_quorum, add_prevote, add_precommit,
}
use blockhain_core.Finality.Cert.{
  FinalityCert, has_bit, collect_signers, cert_for, try_produce_cert, signed_stake, signers_from,
  verify_cert,
}
use blockhain_core.Finality.Intersection.{common_stake, quorum_intersection, any_signature_verifies}
use blockhain_core.Finality.Phases.{
  prevote, precommit, Votes, here, next, IsJustified, aggregator-IsJustified,
}
use blockhain_core.Finality.RoundTrip.{produced_cert_verifies}

abbrev entry_of : String → ℕ → ValidatorEntry
entry_of a coins = record { address = a; stake = coins; bls_public_key = []; pop_signature = [] }

abbrev three : ValidatorSetSnapshot
three = record {
  epoch = 1;
  validators = entry_of "a" 40 ∷ entry_of "b" 30 ∷ entry_of "c" 30 ∷ [];
  set_hash = "s";
  total_stake = 100;
}

abbrev vote_of : String → Vote
vote_of voter = record {
  epoch = 1;
  checkpoint_height = 100;
  checkpoint_hash = "h";
  voter_id = voter;
  sig_bls = 9 ∷ [];
}

abbrev cert_of : ℕ → FinalityCert
cert_of byte = record {
  epoch = 1;
  checkpoint_height = 100;
  checkpoint_hash = "h";
  agg_sig_bls = 1 ∷ [];
  bitmap = byte ∷ [];
  set_hash = "s";
}

abbrev started : FinalityAggregator
started = record (new_aggregator 1 100 "h") { validator_snapshot = some three }

abbrev voted : FinalityAggregator
voted = record started {
  prevotes = ("a", vote_of "a") ∷ ("b", vote_of "b") ∷ [];
  prevote_quorum_reached = true;
}

abbrev committed : FinalityAggregator
committed = record voted {
  precommits = ("a", vote_of "a") ∷ ("c", vote_of "c") ∷ [];
  precommit_quorum_reached = true;
}

first_vote : (a : FinalityAggregator) × (add_prevote (vote_of "a") started ≡ ok a)
unfolding add_prevote check_prevote_quorum find_in get insert
first_vote = (record started { prevotes = ("a", vote_of "a") ∷ [] }, refl)

second_vote : add_prevote (vote_of "b") first_vote.0 ≡ ok voted
unfolding first_vote add_prevote check_prevote_quorum find_in get insert
second_vote = refl

first_commit : (a : FinalityAggregator) × (add_precommit (vote_of "a") voted ≡ ok a)
unfolding add_precommit check_precommit_quorum find_in get insert
first_commit = (record voted { precommits = ("a", vote_of "a") ∷ [] }, refl)

second_commit : add_precommit (vote_of "c") first_commit.0 ≡ ok committed
unfolding first_commit add_precommit check_precommit_quorum find_in get insert
second_commit = refl

run : Votes (set_validator_snapshot three (new_aggregator 1 100 "h")) committed
unfolding set_validator_snapshot
run =
    next
      (next
        (next (next here (prevote (vote_of "a") first_vote.1)) (prevote (vote_of "b") second_vote))
        (precommit (vote_of "a") first_commit.1))
      (precommit (vote_of "c") second_commit)

verifies_ab : verify_cert (cert_of 3) three ≡ ok tt
unfolding verify_cert signed_stake signers_from has_bit
verifies_ab = refl

verifies_ac : verify_cert (cert_of 5) three ≡ ok tt
unfolding verify_cert signed_stake signers_from has_bit
verifies_ac = refl

quorum_intersection_example : 100 ≤ 3 * common_stake (3 ∷ []) (5 ∷ []) 0 three.validators + 4
quorum_intersection_example =
    quorum_intersection (cert_of 3) (cert_of 5) three refl (omega arith) verifies_ab verifies_ac

any_signature_verifies_example :
    verify_cert (record (cert_of 3) { agg_sig_bls = 77 ∷ [] }) three ≡ ok tt
any_signature_verifies_example = any_signature_verifies (cert_of 3) three 77 [] verifies_ab

aggregator-IsJustified_example : IsJustified three committed
aggregator-IsJustified_example = aggregator-IsJustified 1 100 "h" three (omega arith) run

produced_cert_verifies_example :
    (try_produce_cert committed ≡ some (cert_for committed three))
    × (verify_cert (cert_for committed three) three ≡ ok tt)
unfolding collect_signers position_from
produced_cert_verifies_example =
    produced_cert_verifies three committed
      (aggregator-IsJustified 1 100 "h" three (omega arith) run) refl refl (omega arith)
      (omega arith) refl
