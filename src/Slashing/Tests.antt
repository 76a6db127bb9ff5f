-- ===== src/Slashing/Tests.antt =====
-- Evidence against a validator whose address is "v".
use blockhain_core.Prelude.{
  ℕ, String, ◌≡◌, ◌≢◌, ◌↔◌, List, [], ◌∷◌, ℕ-Eq, String-Eq, Bytes-Eq, Option-Eq, ok,
}
use blockhain_core.Account.Tests.{toy}
use blockhain_core.Slashing.{
  double_sign, double_proposal, double_vote, verify_double_sign, verify_double_proposal,
  verify_double_vote,
}
use blockhain_core.Slashing.Verdict.{IsAddress, verdicts}

abbrev hash_a : String
hash_a = "a"

abbrev hash_b : String
hash_b = "b"

abbrev sig_a : List ℕ
sig_a = 1 ∷ []

abbrev sig_b : List ℕ
sig_b = 2 ∷ []

abbrev first_epoch : ℕ
first_epoch = 1

abbrev third_slot : ℕ
third_slot = 3

abbrev no_vrf : List ℕ
no_vrf = []

verdicts_example :
    ((verify_double_sign toy (double_sign 7 "v" 5 hash_a hash_b sig_a sig_b "r") ≡ ok tt)
      ↔ ((hash_a ≢ hash_b) × (sig_a ≢ sig_b) × IsAddress toy "v"))
    × ((verify_double_proposal (
            double_proposal 7 "v" first_epoch third_slot hash_a hash_b sig_a sig_b no_vrf no_vrf
              "r")
          ≡ ok tt)
        ↔ ((hash_a ≢ hash_b) × (no_vrf ≡ no_vrf) × ¬ ((first_epoch ≡ 0) × (third_slot ≡ 0))))
    × ((verify_double_vote (double_vote 7 "v" first_epoch hash_a hash_b sig_a sig_b "r") ≡ ok tt)
        ↔ ((hash_a ≢ hash_b) × (first_epoch ≢ 0)))
verdicts_example =
    verdicts toy 7 "v" "r" hash_a hash_b 5 first_epoch third_slot sig_a sig_b no_vrf no_vrf
