-- ===== src/Finality/Voters.antt =====
-- Distinct voters hold no more stake than the validators that they are (consensus/finality.rs):
-- the sum over voters that the aggregator takes against a sum over the validator list.
use blockhain_core.Prelude.{
  ℕ, suc, ◌+◌, ◌≤◌, String, ◌≡◌, refl, ap, Bool, true, false, not, none, some, List, [], ◌∷◌, ◌++◌,
  arith, if◌then◌else◌, ◌==◌, eq_refl, eq→path, path→eq, eq_sym, ℕ-Eq, String-Eq, Bytes-Eq,
  Option-Eq, filter, sum_by,
}
use blockhain_core.Map.{Map, get, contains_key, insert, keys}
use blockhain_core.Map.Ordered.{contains}
use blockhain_core.Finality.Snapshot.{ValidatorEntry, stake_of, find_in, position_from}
use blockhain_core.Finality.Aggregator.{stake_at}

abbrev pub IsDistinct : List String → Type 0
IsDistinct [] = Unit
IsDistinct (k ∷ ks) = (contains k ks ≡ false) × IsDistinct ks

-- The stake of the validators whose index passes a test, from an index on.
abbrev pub tested_stake : (ℕ → Bool) → ℕ → List ValidatorEntry → ℕ
tested_stake b i [] = 0
tested_stake b i (v ∷ vs) = (if b i then v.stake else 0) + tested_stake b (suc i) vs

abbrev pub voter_stake : List ValidatorEntry → List String → ℕ
voter_stake vs ks = sum_by (λ k. stake_at (find_in k vs)) ks

abbrev others : String → List String → List String
others a ks = filter (λ k. not (a == k)) ks

contains-others :
    (a k : String) (ks : List String)
    → contains k (others a ks) ≡ (if a == k then false else contains k ks)
unfolding contains
contains-others a k [] = ground arith
contains-others a k (x ∷ xs) =
    ground (arith, contains-others a k xs, eq→path x k, path→eq a x, eq→path a x, path→eq a k)

others-IsDistinct : (a : String) (ks : List String) → IsDistinct ks → IsDistinct (others a ks)
others-IsDistinct a [] d = tt
others-IsDistinct a (k ∷ ks) d = ground (arith, others-IsDistinct a ks d.1, contains-others a k ks)

voter_stake_split :
    (v : ValidatorEntry) (vs : List ValidatorEntry) (ks : List String)
    → IsDistinct ks
    → voter_stake (v ∷ vs) ks
      ≤ (if contains v.address ks then v.stake else 0) + voter_stake vs (others v.address ks)
unfolding contains find_in
voter_stake_split v vs [] d = ground arith
voter_stake_split v vs (k ∷ ks) d = ground (
  arith,
  voter_stake_split v vs ks d.1,
  eq_sym v.address k,
  eq→path v.address k,
  ap (λ x. contains x ks) {x = v.address} {y = k},
)

voter_stake_nil : (ks : List String) → voter_stake [] ks ≡ 0
unfolding find_in
voter_stake_nil [] = refl
voter_stake_nil (k ∷ ks) = omega (arith, voter_stake_nil ks)

rest_passes :
    (b : ℕ → Bool) (i : ℕ) (v : ValidatorEntry) (vs : List ValidatorEntry) (ks : List String)
    → ((k : String) (j : ℕ)
        → contains k ks ≡ true
        → position_from i k (v ∷ vs) ≡ some j
        → b j ≡ true)
    → (k : String) (j : ℕ) → contains k (others v.address ks) ≡ true
    → position_from (suc i) k vs ≡ some j
    → b j ≡ true
unfolding position_from
rest_passes b i v vs ks h k j c p = ground (arith, h k j, contains-others v.address k ks)

head_passes :
    (b : ℕ → Bool) (i : ℕ) (v : ValidatorEntry) (vs : List ValidatorEntry) (ks : List String)
    → ((k : String) (j : ℕ)
        → contains k ks ≡ true
        → position_from i k (v ∷ vs) ≡ some j
        → b j ≡ true)
    → contains v.address ks ≡ true
    → b i ≡ true
unfolding position_from
head_passes b i v vs ks h c = ground (arith, h v.address i c, eq_refl v.address)

-- If the index of every voter passes the test, distinct voters weigh no more than what passes it.
pub voter_stake-le :
    (b : ℕ → Bool) (i : ℕ) (vs : List ValidatorEntry) (ks : List String)
    → IsDistinct ks
    → ((k : String) (j : ℕ) → contains k ks ≡ true → position_from i k vs ≡ some j → b j ≡ true)
    → voter_stake vs ks ≤ tested_stake b i vs
voter_stake-le b i [] ks d h = omega (arith, voter_stake_nil ks)
voter_stake-le b i (v ∷ vs) ks d h = ground (
  arith,
  voter_stake_split v vs ks d,
  voter_stake-le b (suc i) vs (others v.address ks) (others-IsDistinct v.address ks d)
      (rest_passes b i v vs ks h),
  head_passes b i v vs ks h,
)

tested_stake_all : (i : ℕ) (vs : List ValidatorEntry) → tested_stake (λ _. true) i vs ≡ stake_of vs
tested_stake_all i [] = refl
tested_stake_all i (v ∷ vs) = omega (arith, tested_stake_all (suc i) vs)

pub voter_stake-le-stake_of :
    (vs : List ValidatorEntry) (ks : List String) → IsDistinct ks → voter_stake vs ks ≤ stake_of vs
voter_stake-le-stake_of vs ks d =
    omega (arith, voter_stake-le (λ _. true) 0 vs ks d (λ k j c p. refl), tested_stake_all 0 vs)

-- A fresh key goes to the end.
module _ {V : Type 0} where
  pub keys-insert_fresh :
      (k : String) (v : V) (m : Map String V)
      → get k m ≡ none
      → keys (insert k v m) ≡ keys m ++ k ∷ []
  unfolding get insert
  keys-insert_fresh k v [] e = refl
  keys-insert_fresh k v ((j, w) ∷ m) e = ground (arith, keys-insert_fresh k v m)

  pub contains-keys : (k : String) (m : Map String V) → contains k (keys m) ≡ contains_key k m
  unfolding get contains
  contains-keys k [] = refl
  contains-keys k ((j, w) ∷ m) = ground (arith, contains-keys k m)

contains-append_one :
    (k x : String) (ks : List String)
    → contains k (ks ++ x ∷ []) ≡ (if contains k ks then true else x == k)
unfolding contains
contains-append_one k x [] = ground arith
contains-append_one k x (y ∷ ys) = ground (arith, contains-append_one k x ys)

pub IsDistinct-append_one :
    (x : String) (ks : List String)
    → IsDistinct ks
    → contains x ks ≡ false
    → IsDistinct (ks ++ x ∷ [])
unfolding contains
IsDistinct-append_one x [] d e = (refl, tt)
IsDistinct-append_one x (y ∷ ys) d e =
    ground (arith, IsDistinct-append_one x ys d.1, contains-append_one y x ys, eq_sym x y)
