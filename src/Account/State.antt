-- ===== src/Account/State.antt =====
-- account.rs: the records, the getters and `get_or_create`. `AccountState.storage` is the handle of
-- the database and takes no part in the transitions: it is left out.
use blockhain_core.Prelude.{
  ℕ, ◌%◌, String, Bool, true, false, not, ◌&&◌, ◌||◌, Option, none, some, List, [], ◌∷◌, leb,
  if◌then◌else◌, ℕ-Eq, String-Eq, Bytes-Eq, Option-Eq, filter, sum_by, u64_mod, add64, sub64,
}
use Prim.Native.Nat.{Ordering}
use Prim.Native.String.{compare}
use blockhain_core.Map.{Map, get, insert, values}

abbrev pub min_tx_fee : ℕ
min_tx_fee = 1

abbrev pub genesis_balance : ℕ
genesis_balance = 1_000_000_000

abbrev pub unbonding_epochs : ℕ
unbonding_epochs = 7

pub record UnbondingEntry : Type 0 where
  pub address : String
  pub amount : ℕ
  pub release_epoch : ℕ

pub record Account : Type 0 where
  pub public_key : String
  pub balance : ℕ
  pub nonce : ℕ

-- `Account::new`
abbrev pub new_account : String → Account
new_account pk = record { public_key = pk; balance = 0; nonce = 0 }

-- `Account::with_balance`
abbrev pub with_balance : String → ℕ → Account
with_balance pk amount = record { public_key = pk; balance = amount; nonce = 0 }

pub record Validator : Type 0 where
  pub address : String
  pub stake : ℕ
  pub active : Bool
  pub slashed : Bool
  pub jailed : Bool
  pub jail_until : ℕ
  pub last_proposed_block : Option ℕ
  pub votes_for : ℕ
  pub votes_against : ℕ
  pub vrf_public_key : List ℕ

-- `Validator::new`
abbrev pub new_validator : String → ℕ → Validator
new_validator a amount = record {
  address = a;
  stake = amount;
  active = true;
  slashed = false;
  jailed = false;
  jail_until = 0;
  last_proposed_block = none;
  votes_for = 0;
  votes_against = 0;
  vrf_public_key = [];
}

unfoldable pub effective_stake : Validator → ℕ
effective_stake v = if v.slashed || v.jailed then 0 else v.stake

unfoldable pub is_eligible : Validator → ℕ → Bool
is_eligible v current_block =
    v.active && (not v.slashed && (not v.jailed || leb v.jail_until current_block))

pub record AccountState : Type 0 where
  pub accounts : Map String Account
  pub validators : Map String Validator
  pub unbonding_queue : List UnbondingEntry
  pub epoch_index : ℕ
  pub last_epoch_time : ℕ

-- `AccountState::new`
abbrev pub new_state : AccountState
new_state = record {
  accounts = [];
  validators = [];
  unbonding_queue = [];
  epoch_index = 0;
  last_epoch_time = 0;
}

abbrev pub is_active : Validator → Bool
is_active v = v.active && not v.slashed

unfoldable pub get_total_stake : AccountState → ℕ
get_total_stake s = sum_by (λ v. v.stake) (filter is_active (values s.validators)) % u64_mod

-- `sort_by(|a, b| a.address.cmp(&b.address))`
unfoldable pub insert_sorted : Validator → List Validator → List Validator
insert_sorted v [] = v ∷ []
insert_sorted v (w ∷ ws) = elim (compare v.address w.address) [
  | Ordering.gt ↦ w ∷ insert_sorted v ws
  | _ ↦ v ∷ w ∷ ws
]

unfoldable pub sort_by_address : List Validator → List Validator
unfolding insert_sorted
sort_by_address [] = []
sort_by_address (v ∷ vs) = insert_sorted v (sort_by_address vs)

unfoldable pub get_active_validators : AccountState → List Validator
get_active_validators s = sort_by_address (filter is_active (values s.validators))

abbrev pub get_validator : AccountState → String → Option Validator
get_validator s a = get a s.validators

abbrev pub balance_of : Option Account → ℕ
balance_of none = 0
balance_of (some a) = a.balance

abbrev pub nonce_of : Option Account → ℕ
nonce_of none = 0
nonce_of (some a) = a.nonce

abbrev pub get_balance : AccountState → String → ℕ
get_balance s pk = balance_of (get pk s.accounts)

abbrev pub get_nonce : AccountState → String → ℕ
get_nonce s pk = nonce_of (get pk s.accounts)

-- `get_or_create`: the state with the account in it, and the account.
unfoldable pub get_or_create : String → AccountState → AccountState × Account
get_or_create pk s = elim (get pk s.accounts) [
  | some a ↦ (s, a)
  | none ↦ (record s { accounts = insert pk (new_account pk) s.accounts }, new_account pk)
]

-- A write through the reference that `get_or_create` returns.
unfoldable pub modify_account : String → (Account → Account) → AccountState → AccountState
unfolding get_or_create
modify_account pk f s =
    let (s', a) = get_or_create pk s in record s' { accounts = insert pk (f a) s'.accounts }

abbrev pub credit : ℕ → Account → Account
credit amount a = record a { balance = add64 a.balance amount }

-- `balance -= cost; nonce += 1`
abbrev pub charge : ℕ → Account → Account
charge cost a = record a { balance = sub64 a.balance cost; nonce = add64 a.nonce 1 }

unfoldable pub add_balance : String → ℕ → AccountState → AccountState
add_balance pk amount s = modify_account pk (credit amount) s

unfoldable pub init_genesis : String → AccountState → AccountState
init_genesis pk s = record s { accounts = insert pk (with_balance pk genesis_balance) s.accounts }

unfoldable pub add_validator : String → ℕ → AccountState → AccountState
add_validator a amount s = record s { validators = insert a (new_validator a amount) s.validators }
