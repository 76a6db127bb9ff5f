-- ===== src/Chain/Forget.antt =====
-- What a start and a reorganisation of blockchain.rs make of the epoch.
use blockhain_core.Prelude.{
  ℕ, String, ◌≡◌, refl, sym, ap, ◌⊎◌, inl, inr, Option, none, some, List, [], ◌∷◌, ℕ-Eq, String-Eq,
  Bytes-Eq, Option-Eq, length, drop, Result, ok, err, >>-eq-ok,
}
use blockhain_core.Map.{Map}
use blockhain_core.Block.{Block}
use blockhain_core.Account.State.{AccountState, new_state, modify_account}
use blockhain_core.Account.Apply.{apply_block}
use blockhain_core.Account.EpochKept.{
  SameEpoch, SameEpoch-trans, modify_account-SameEpoch, apply_block-SameEpoch,
}
use blockhain_core.Pruning.Snapshot.{StateSnapshot}
use blockhain_core.Chain.State.{ChainError}
use blockhain_core.Chain.Reorg.{rebuild_from, rebuild_state}
use blockhain_core.Chain.Start.{
  restore_balances, restore_nonces, restored, height_or_start, start_index, replayed,
}

state_or : AccountState → Result ChainError AccountState → AccountState
state_or s (ok s') = s'
state_or s (err e) = s

rebuilt-SameEpoch :
    (bs : List Block) (s s' : AccountState) → rebuild_from bs s ≡ ok s' → SameEpoch s' s
unfolding rebuild_from state_or
rebuilt-SameEpoch [] s s' h =
    let same = ap (state_or s) (sym h) in
    (
      ap (λ (t : AccountState). t.epoch_index) same,
      ap (λ (t : AccountState). t.last_epoch_time) same,
    )
rebuilt-SameEpoch (b ∷ bs) s s' h =
    let (_, t) = >>-eq-ok _ _ h in
    SameEpoch-trans s' (apply_block b.transactions b.producer s).0 s
      (rebuilt-SameEpoch bs (apply_block b.transactions b.producer s).0 s' t)
      (apply_block-SameEpoch b.transactions b.producer s)

restore_balances-SameEpoch :
    (m : Map String ℕ) (s : AccountState) → SameEpoch (restore_balances m s) s
unfolding restore_balances
restore_balances-SameEpoch [] s = (refl, refl)
restore_balances-SameEpoch ((addr, n) ∷ m) s =
    let s1 = modify_account addr (λ a. record a { balance = n }) s in
    SameEpoch-trans (restore_balances m s1) s1 s (restore_balances-SameEpoch m s1)
      (modify_account-SameEpoch addr (λ a. record a { balance = n }) s)

restore_nonces-SameEpoch : (m : Map String ℕ) (s : AccountState) → SameEpoch (restore_nonces m s) s
unfolding restore_nonces
restore_nonces-SameEpoch [] s = (refl, refl)
restore_nonces-SameEpoch ((addr, n) ∷ m) s =
    let s1 = modify_account addr (λ a. record a { nonce = n }) s in
    SameEpoch-trans (restore_nonces m s1) s1 s (restore_nonces-SameEpoch m s1)
      (modify_account-SameEpoch addr (λ a. record a { nonce = n }) s)

restored-SameEpoch : (o : Option StateSnapshot) → SameEpoch (restored o) new_state
restored-SameEpoch none = (refl, refl)
restored-SameEpoch (some snapshot) =
    let s1 = restore_balances snapshot.balances new_state in
    SameEpoch-trans (restore_nonces snapshot.nonces s1) s1 new_state
      (restore_nonces-SameEpoch snapshot.nonces s1)
      (restore_balances-SameEpoch snapshot.balances new_state)

-- Whatever blocks and snapshot a node starts with, and whatever chain it changes to, the state that comes of it is in
-- epoch 0, which began at time 0.
pub epochs_forgotten :
    (chain : List Block) (snapshot : Option StateSnapshot) (s : AccountState)
    → ((rebuild_state chain ≡ ok s) ⊎ (replayed chain snapshot ≡ ok s))
    → (s.epoch_index ≡ 0) × (s.last_epoch_time ≡ 0)
unfolding rebuild_state replayed
epochs_forgotten chain snapshot s (inl h) = rebuilt-SameEpoch chain new_state s h
epochs_forgotten chain snapshot s (inr h) =
    SameEpoch-trans s (restored snapshot) new_state
      (rebuilt-SameEpoch (drop (start_index (height_or_start snapshot) (length chain)) chain)
        (restored snapshot) s h)
      (restored-SameEpoch snapshot)
