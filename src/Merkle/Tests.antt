-- ===== src/Merkle/Tests.antt =====
-- The transaction root of three and of four transactions.
use blockhain_core.Prelude.{◌≡◌, refl, [], ◌∷◌, ℕ-Eq, String-Eq, Bytes-Eq, Option-Eq}
use blockhain_core.Block.{tx_root_of}
use blockhain_core.Account.Tests.{toy, transfer_tx}
use blockhain_core.Merkle.Root.{tx_root_duplicate}

tx_root_duplicate_example :
    tx_root_of toy (transfer_tx ∷ transfer_tx ∷ transfer_tx ∷ [])
    ≡ tx_root_of toy (transfer_tx ∷ transfer_tx ∷ transfer_tx ∷ transfer_tx ∷ [])
tx_root_duplicate_example = tx_root_duplicate toy 0 transfer_tx transfer_tx [] transfer_tx refl
