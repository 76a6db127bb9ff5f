-- ===== src/Qc/Tests.antt =====
-- A blob of three entries.
use blockhain_core.Prelude.{
  ℕ, ◌≡◌, refl, List, [], ◌∷◌, ℕ-Eq, String-Eq, Bytes-Eq, Option-Eq, length, ok,
}
use blockhain_core.Merkle.{pair_level}
use blockhain_core.Account.Tests.{toy}
use blockhain_core.Qc.{PqSignatureEntry, new_blob, verify_inclusion}
use blockhain_core.Qc.Inclusion.{siblings, proof_for, verify_inclusion-proof_for}

abbrev entry : ℕ → PqSignatureEntry
entry n = record { validator_index = n; validator_address = "v"; dilithium_signature = n ∷ [] }

abbrev entries : List PqSignatureEntry
entries = entry 0 ∷ entry 1 ∷ entry 2 ∷ []

-- `toy` hashes to its input, so that each node shows its leaves.
third_path : length (proof_for toy entries 2 (entry 2) 1 (9 ∷ [])).merkle_proof ≡ 2
unfolding proof_for siblings pair_level
third_path = refl

verify_inclusion-proof_for_example :
    verify_inclusion toy
      (proof_for toy entries 2 (entry 2) 1 (9 ∷ []))
      (new_blob toy 1 100 "cp" entries).merkle_root
    ≡ ok tt
verify_inclusion-proof_for_example =
    verify_inclusion-proof_for toy 1 100 "cp" entries 2 (entry 2) (9 ∷ []) refl
