-- ===== src/Account/Epoch.antt =====
-- account.rs: the unbonding queue, the epoch change and slashing.
use blockhain_core.Prelude.{
  ℕ, ◌*◌, ◌/◌, ◌%◌, String, Bool, true, false, not, ◌&&◌, Option, none, some, List, [], ◌∷◌, ltb,
  leb, if◌then◌else◌, ℕ-Eq, String-Eq, Bytes-Eq, Option-Eq, filter, u64_mod, add64, saturating_sub,
}
use blockhain_core.Map.{Map, get, insert, map_values}
use blockhain_core.Account.State.{Validator, AccountState, UnbondingEntry, modify_account, credit}

-- The entries that `retain` keeps, and those that it hands to `released`, in order.
abbrev pub is_released : ℕ → UnbondingEntry → Bool
is_released epoch entry = leb entry.release_epoch epoch

abbrev pub is_waiting : ℕ → UnbondingEntry → Bool
is_waiting epoch entry = not (is_released epoch entry)

unfoldable pub release_all : List UnbondingEntry → AccountState → AccountState
release_all [] s = s
release_all (entry ∷ entries) s =
    release_all entries (modify_account entry.address (credit entry.amount) s)

unfoldable pub process_unbonding : AccountState → AccountState
process_unbonding s =
    release_all (filter (is_released s.epoch_index) s.unbonding_queue)
      (record s { unbonding_queue = filter (is_waiting s.epoch_index) s.unbonding_queue })

-- The body of the loop over the validators in `advance_epoch`.
abbrev pub unjail : ℕ → Validator → Validator
unjail now v =
    if v.jailed && leb v.jail_until now
    then record v { jailed = false; active = if ltb 0 v.stake then true else v.active }
    else v

-- The timestamp is a `u128` in milliseconds; the casts to `u64` drop the high half.
unfoldable pub advance_epoch : ℕ → AccountState → AccountState
advance_epoch timestamp s =
    let s1 =
      process_unbonding
        (record s { epoch_index = add64 s.epoch_index 1; last_epoch_time = timestamp % u64_mod }) in
    record s1 { validators = map_values (unjail (timestamp / 1000 % u64_mod)) s1.validators }

abbrev pub jail_duration : ℕ
jail_duration = 3600 * 24

-- `penalty` is `(stake as f64 * slash_ratio) as u64`, a parameter, since it computes on floats;
-- `now` is the system time in seconds.
abbrev pub slash : (ℕ → ℕ) → ℕ → Validator → Validator
slash penalty now v = record v {
  stake = saturating_sub v.stake (penalty v.stake);
  slashed = true;
  active = false;
  jail_until = add64 now jail_duration;
}

abbrev pub slash_validator : (ℕ → ℕ) → ℕ → String → Map String Validator → Map String Validator
slash_validator penalty now producer m = elim (get producer m) [
  | none ↦ m
  | some v ↦ if v.slashed then m else insert producer (slash penalty now v) m
]

-- `apply_slashing` reads of each evidence only the producer of its first header: `producers` lists
-- these.
unfoldable pub apply_slashing : (ℕ → ℕ) → ℕ → List (Option String) → AccountState → AccountState
apply_slashing penalty now [] s = s
apply_slashing penalty now (none ∷ producers) s = apply_slashing penalty now producers s
apply_slashing penalty now (some producer ∷ producers) s =
    apply_slashing penalty now producers
      (record s { validators = slash_validator penalty now producer s.validators })
