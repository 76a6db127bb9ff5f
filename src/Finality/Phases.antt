-- ===== src/Finality/Phases.antt =====
-- The two phases of the aggregator (consensus/finality.rs) as a step relation with a fixed snapshot:
-- what the quorum flags stand for in every state that votes lead to.
use blockhain_core.Prelude.{
  ℕ, ◌≤◌, ◌<◌, String, ◌≡◌, refl, ◌≢◌, inl, inr, true, none, some, [], ◌∷◌, arith, leb→le,
  Bool-cases, ℕ-Eq, String-Eq, Bytes-Eq, Option-Eq, sum_by-append, ok, u64_mod,
}
use blockhain_core.Map.{Map, get, insert, keys}
use blockhain_core.Finality.Snapshot.{ValidatorSetSnapshot, stake_of, find_in, quorum_stake}
use blockhain_core.Finality.Aggregator.{
  Vote, FinalityAggregator, new_aggregator, set_validator_snapshot, stake_at, voted_stake,
  has_quorum, check_prevote_quorum, check_precommit_quorum, add_prevote, add_precommit,
}
use blockhain_core.Finality.Voters.{
  IsDistinct, voter_stake, voter_stake-le-stake_of, keys-insert_fresh, contains-keys,
  IsDistinct-append_one,
}

-- The votes that are accepted; a rejected vote leaves the aggregator as it was.
pub data VoteStep (a : FinalityAggregator) (b : FinalityAggregator) : Type 0 where
  prevote : (vote : Vote) → add_prevote vote a ≡ ok b → VoteStep a b
  precommit : (vote : Vote) → add_precommit vote a ≡ ok b → VoteStep a b

pub data Votes (a : FinalityAggregator) : FinalityAggregator → Type 0 where
  here : Votes a a
  next : {b c : FinalityAggregator} → Votes a b → VoteStep b c → Votes a c

-- Distinct voters, and the flags of the two phases in order: a precommit is there only after a prevote
-- quorum, and each flag that is set has its quorum of stake.
pub record IsJustified (s : ValidatorSetSnapshot) (a : FinalityAggregator) : Type 0 where
  pub snapshot : a.validator_snapshot ≡ some s
  pub prevoters : IsDistinct (keys a.prevotes)
  pub precommitters : IsDistinct (keys a.precommits)
  pub prevote_stake :
      a.prevote_quorum_reached ≡ true → quorum_stake s ≤ voter_stake s.validators (keys a.prevotes)
  pub precommit_stake :
      a.precommit_quorum_reached ≡ true
      → quorum_stake s ≤ voter_stake s.validators (keys a.precommits)
  pub ordered : a.precommits ≢ [] → a.prevote_quorum_reached ≡ true
  pub locked : a.precommit_quorum_reached ≡ true → a.precommits ≢ []

-- What a successful call has done.
added_prevote :
    (vote : Vote) (a b : FinalityAggregator)
    → add_prevote vote a ≡ ok b
    → (get vote.voter_id a.prevotes ≡ none)
      × (b ≡ check_prevote_quorum (record a { prevotes = insert vote.voter_id vote a.prevotes }))
unfolding add_prevote
added_prevote vote a b h = ground arith

added_precommit :
    (vote : Vote) (a b : FinalityAggregator)
    → add_precommit vote a ≡ ok b
    → (get vote.voter_id a.precommits ≡ none)
      × (a.prevote_quorum_reached ≡ true)
      × (b
          ≡ check_precommit_quorum
              (record a { precommits = insert vote.voter_id vote a.precommits }))
unfolding add_precommit
added_precommit vote a b h = ground arith

module _ (s : ValidatorSetSnapshot) (range : stake_of s.validators < u64_mod)
    (votes : Map String Vote) (vote : Vote) (distinct : IsDistinct (keys votes))
    (fresh : get vote.voter_id votes ≡ none) where
  insert-IsDistinct : IsDistinct (keys (insert vote.voter_id vote votes))
  insert-IsDistinct = rw (keys-insert_fresh vote.voter_id vote votes fresh) (
      IsDistinct-append_one vote.voter_id (keys votes) distinct
        (ground (arith, contains-keys vote.voter_id votes)))

  more_stake :
      voter_stake s.validators (keys votes)
      ≤ voter_stake s.validators (keys (insert vote.voter_id vote votes))
  more_stake = rw (keys-insert_fresh vote.voter_id vote votes fresh) (
      omega (
        arith,
        sum_by-append (λ (k : String). stake_at (find_in k s.validators)) (keys votes)
            (vote.voter_id ∷ []),
      ))

  quorum_met :
      has_quorum (some s) (insert vote.voter_id vote votes) ≡ true
      → quorum_stake s ≤ voter_stake s.validators (keys (insert vote.voter_id vote votes))
  quorum_met h = omega (
    arith,
    leb→le (quorum_stake s) (voted_stake s (insert vote.voter_id vote votes)) h,
    voter_stake-le-stake_of s.validators (keys (insert vote.voter_id vote votes)) insert-IsDistinct,
  )

insert_ne_nil : {V : Type 0} (k : String) (v : V) (m : Map String V) → insert k v m ≢ []
unfolding insert
insert_ne_nil k v [] = λ e. cc
insert_ne_nil k v ((j, w) ∷ m) = λ e. ground arith

module _ (s : ValidatorSetSnapshot) (range : stake_of s.validators < u64_mod) where
  prevote-IsJustified :
      (vote : Vote) (a : FinalityAggregator)
      → get vote.voter_id a.prevotes ≡ none
      → IsJustified s a
      → IsJustified s
          (check_prevote_quorum (record a { prevotes = insert vote.voter_id vote a.prevotes }))
  unfolding check_prevote_quorum
  prevote-IsJustified vote a fresh j =
      let more = more_stake s range a.prevotes vote j.prevoters fresh in
      let met = quorum_met s range a.prevotes vote j.prevoters fresh in
      let distinct = insert-IsDistinct s range a.prevotes vote j.prevoters fresh in
      elim (Bool-cases (has_quorum (some s) (insert vote.voter_id vote a.prevotes))) [
        | inl e ↦
            rw (j.snapshot, e)
              (record {
                snapshot = refl;
                prevoters = distinct;
                precommitters = j.precommitters;
                prevote_stake = λ _. met e;
                precommit_stake = j.precommit_stake;
                ordered = λ _. refl;
                locked = j.locked;
              })
        | inr e ↦
            rw (j.snapshot, e)
              (record {
                snapshot = refl;
                prevoters = distinct;
                precommitters = j.precommitters;
                prevote_stake = λ h. omega (arith, j.prevote_stake h);
                precommit_stake = j.precommit_stake;
                ordered = j.ordered;
                locked = j.locked;
              })
      ]

  precommit-IsJustified :
      (vote : Vote) (a : FinalityAggregator)
      → get vote.voter_id a.precommits ≡ none
      → a.prevote_quorum_reached ≡ true
      → IsJustified s a
      → IsJustified s (
          check_precommit_quorum (record a { precommits = insert vote.voter_id vote a.precommits }))
  unfolding check_precommit_quorum
  precommit-IsJustified vote a fresh reached j =
      let more = more_stake s range a.precommits vote j.precommitters fresh in
      let met = quorum_met s range a.precommits vote j.precommitters fresh in
      let distinct = insert-IsDistinct s range a.precommits vote j.precommitters fresh in
      elim (Bool-cases (has_quorum (some s) (insert vote.voter_id vote a.precommits))) [
        | inl e ↦
            rw (j.snapshot, e)
              (record {
                snapshot = refl;
                prevoters = j.prevoters;
                precommitters = distinct;
                prevote_stake = j.prevote_stake;
                precommit_stake = λ _. met e;
                ordered = λ _. reached;
                locked = λ _. insert_ne_nil vote.voter_id vote a.precommits;
              })
        | inr e ↦
            rw (j.snapshot, e)
              (record {
                snapshot = refl;
                prevoters = j.prevoters;
                precommitters = distinct;
                prevote_stake = j.prevote_stake;
                precommit_stake = λ h. omega (arith, j.precommit_stake h);
                ordered = λ _. reached;
                locked = λ _. insert_ne_nil vote.voter_id vote a.precommits;
              })
      ]

  step-IsJustified : {a b : FinalityAggregator} → VoteStep a b → IsJustified s a → IsJustified s b
  step-IsJustified {a} {b} (prevote vote h) j =
      let (fresh, e) = added_prevote vote a b h in rw e (prevote-IsJustified vote a fresh j)
  step-IsJustified {a} {b} (precommit vote h) j =
      let (fresh, reached, e) = added_precommit vote a b h in
      rw e (precommit-IsJustified vote a fresh reached j)

  Votes-IsJustified : {a b : FinalityAggregator} → Votes a b → IsJustified s a → IsJustified s b
  Votes-IsJustified here j = j
  Votes-IsJustified (next r st) j = step-IsJustified st (Votes-IsJustified r j)

-- From a fresh aggregator with a snapshot whose total stake is a 64-bit number, whatever votes are
-- accepted: voters are distinct in each phase, a set quorum flag has distinct voters of the snapshot with
-- the quorum stake behind it, precommits are there only after the prevote quorum, and a precommit quorum
-- only with precommits.
pub aggregator-IsJustified :
    (epoch height : ℕ) (hash : String) (s : ValidatorSetSnapshot) {b : FinalityAggregator}
    → stake_of s.validators < u64_mod
    → Votes (set_validator_snapshot s (new_aggregator epoch height hash)) b
    → IsJustified s b
unfolding set_validator_snapshot
aggregator-IsJustified epoch height hash s range r = Votes-IsJustified s range r (record {
  snapshot = refl;
  prevoters = tt;
  precommitters = tt;
  prevote_stake = λ h. cc;
  precommit_stake = λ h. cc;
  ordered = λ h. absurd (h refl);
  locked = λ h. cc;
})
