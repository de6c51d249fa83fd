-- ===== src/Core/Tests/Ledgers.antt =====
-- Runs of the resume ledger.
use lan_pilot.Common.{[], ◌∷◌, refl, ok, false, replicate, ◌≡◌, length, ◌==◌}
use lan_pilot.Core.ResumeLedger.{
  ChunkResumeLedger, missing, new_ledger, missing_from, confirm, complete,
}
use lan_pilot.Core.ResumeLedger.Confirmed.{
  Confirmations, ledger_run, unconfirmed, ledger_run-missing,
}

abbrev ledger : ChunkResumeLedger
ledger = record { confirmed = replicate 3 false }

ledger_made : new_ledger 3 ≡ ok ledger
unfolding new_ledger
ledger_made = refl

-- The second chunk is confirmed, the third without a hash, and a fourth is not there.
abbrev calls : Confirmations
calls = (1, 4096, 97 ∷ []) ∷ (2, 4096, []) ∷ (3, 1, 97 ∷ []) ∷ []

two_missing : missing (ledger_run calls ledger) ≡ 0 ∷ 2 ∷ []
unfolding missing missing_from ledger_run confirm
two_missing = refl

ledger_run-missing_example :
    (missing (ledger_run calls ledger) ≡ unconfirmed calls 0 3)
    × (complete (ledger_run calls ledger) ≡ (length (missing (ledger_run calls ledger)) == 0))
ledger_run-missing_example = ledger_run-missing calls 3 ledger ledger_made
