-- ===== src/Consensus/Lost.antt =====
-- What `prepare_block` of consensus/pos.rs does with the evidence of its pool.
use blockhain_core.Prelude.{
  ◌/◌, ◌≡◌, refl, inl, inr, Option, none, some, Bool-cases, ℕ-Eq, String-Eq, Bytes-Eq, Option-Eq,
  is_empty, Result, ok, err,
}
use mathlib.Core.Path.{subst}
use blockhain_core.Map.{keys}
use blockhain_core.Crypto.{Crypto, KeyPair}
use blockhain_core.Block.{Evidences, no_more, more, Block, Codec, sign_block}
use blockhain_core.Account.State.{
  Validator, AccountState, get_total_stake, get_active_validators, get_validator,
}
use blockhain_core.Consensus.{ConsensusError}
use blockhain_core.Consensus.Stake.{PosConfig, SeenKey-Eq, PosEngine}
use blockhain_core.Consensus.Election.{
  Vrf, ValidatorKeys, epoch_len, calculate_seed, calculate_vrf_threshold, check_vrf_threshold,
  may_lead, take_evidence, placed, drawn_block, led_by, lead, prepare_stake,
}

sign_block-evidence :
    (c : Crypto) (k : Codec) (keys : KeyPair) (b : Block)
    → (sign_block c k keys b).slashing_evidence ≡ b.slashing_evidence
unfolding sign_block
sign_block-evidence c k keys b = refl

-- The prepared block has the given evidence.
abbrev Carries : Option Evidences → Result ConsensusError Block → Type 0
Carries o (err x) = Unit
Carries o (ok b) = b.slashing_evidence ≡ o

module _ (c : Crypto) (k : Codec) (vrf : Vrf) (cfg : PosConfig) where
  drawn-Carries :
      (keys : ValidatorKeys) (v : Validator) (b : Block) (state : AccountState) (e : PosEngine)
      → Carries b.slashing_evidence (drawn_block c k vrf cfg keys v b state e)
  drawn-Carries keys v b state e =
      let (output, proof) =
        keys.vrf_sign (calculate_seed c b.chain_id b.epoch b.slot b.validator_set_hash e) in
      elim (Bool-cases (
        check_vrf_threshold c output
          (calculate_vrf_threshold vrf v.stake (get_total_stake state)))) [
            | inl t ↦ rw t (sign_block-evidence c k keys.sig_key _)
            | inr t ↦ rw t tt
          ]

  led-Carries :
      (keys : ValidatorKeys) (o : Option Validator) (b : Block) (state : AccountState)
      (e : PosEngine)
      → Carries b.slashing_evidence (led_by c k vrf cfg keys o b state e)
  led-Carries keys none b state e = tt
  led-Carries keys (some v) b state e = elim (Bool-cases (may_lead cfg v)) [
    | inl t ↦ rw t (drawn-Carries keys v b state e)
    | inr t ↦ rw t tt
  ]

  lead-Carries :
      (keys : Option ValidatorKeys) (b : Block) (state : AccountState) (e : PosEngine)
      → Carries b.slashing_evidence (lead c k vrf cfg keys b state e)
  lead-Carries none b state e = tt
  lead-Carries (some keys) b state e =
      led-Carries keys (get_validator state keys.sig_key.public_key_hex) b state e

  -- The evidence that a preparation gives the draft from the pool.
  abbrev evidence_taken : Option Evidences → Evidences → Option Evidences
  evidence_taken own no_more = own
  evidence_taken own (more x es) = some (more x es)

  take_evidence-taken :
      (pool : Evidences) (block : Block)
      → (take_evidence c k vrf cfg pool block).slashing_evidence
        ≡ evidence_taken block.slashing_evidence pool
  take_evidence-taken no_more block = refl
  take_evidence-taken (more x es) block = refl

  prepare-Carries :
      (keys : Option ValidatorKeys) (block : Block) (state : AccountState) (e : PosEngine)
      → Carries
          (evidence_taken block.slashing_evidence e.evidence_pool)
          (prepare_stake c k vrf cfg keys block state e).1
  unfolding prepare_stake
  prepare-Carries keys block state e = elim (Bool-cases (is_empty (get_active_validators state))) [
    | inl t ↦ rw t (take_evidence-taken e.evidence_pool _)
    | inr t ↦ rw t (
        subst
          (λ o. Carries o (
            lead c k vrf cfg keys (placed c k vrf cfg block e).0 state
              (record e { evidence_pool = no_more })))
          (take_evidence-taken e.evidence_pool
            (record block { epoch = block.index / epoch_len; slot = block.index }))
          (lead-Carries keys (placed c k vrf cfg block e).0 state
            (record e { evidence_pool = no_more })))
  ]

  prepare_empties :
      (keys : Option ValidatorKeys) (block : Block) (state : AccountState) (e : PosEngine)
      → (prepare_stake c k vrf cfg keys block state e).0.evidence_pool ≡ no_more
  unfolding prepare_stake
  prepare_empties keys block state e = elim (Bool-cases (is_empty (get_active_validators state))) [
    | inl t ↦ rw t refl
    | inr t ↦ rw t refl
  ]

  -- A block prepared on the very engine state that another preparation left, with no block recorded in between,
  -- carries no evidence but that of its own draft, whether the first preparation gave a block or failed.
  pub evidence_lost :
      (keys keys' : Option ValidatorKeys) (block block' b : Block) (state state' : AccountState)
      (e : PosEngine)
      → (prepare_stake c k vrf cfg keys' block' state'
          (prepare_stake c k vrf cfg keys block state e).0).1
        ≡ ok b
      → b.slashing_evidence ≡ block'.slashing_evidence
  evidence_lost keys keys' block block' b state state' e h =
      let e' = (prepare_stake c k vrf cfg keys block state e).0 in
      subst (Carries block'.slashing_evidence) h (
        subst
          (λ pool.
            Carries (evidence_taken block'.slashing_evidence pool)
              (prepare_stake c k vrf cfg keys' block' state' e').1)
          (prepare_empties keys block state e) (prepare-Carries keys' block' state' e'))
