-- ===== src/Transaction/Tests.antt =====
-- A signed transaction and an altered one with the same signed bytes.
use blockhain_core.Prelude.{
  ◌≡◌, refl, [], ◌∷◌, ℕ-Eq, String-Eq, Bytes-Eq, Option-Eq, le_bytes, as_bytes,
}
use blockhain_core.Prelude.{utf8}
use blockhain_core.Transaction.{Transaction, verify}
use blockhain_core.Transaction.Preimage.{altered, altered_verifies}
use blockhain_core.Account.Tests.{toy, transfer_tx}

abbrev paying_ninety_eight : Transaction
paying_ninety_eight = record transfer_tx { to = "a"; amount = 98; fee = 512; payload = 0 ∷ [] }

altered_verifies_example :
    verify toy paying_ninety_eight ≡ verify toy (altered "ab" 0 2 0 [] paying_ninety_eight)
unfolding as_bytes utf8 le_bytes
altered_verifies_example = altered_verifies toy paying_ninety_eight "ab" 0 2 0 [] refl
