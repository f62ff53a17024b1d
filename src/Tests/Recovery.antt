-- ===== src/Tests/Recovery.antt =====
-- The ledger and the lifecycle at concrete inputs.
use ark_forge.Prelude.{List, ◌∷◌, ◌≤◌, Text, str, true, false, ◌≡◌, ◌≢◌, refl, ◌++◌}
use ark_forge.Engine.Job.{
  JobState, planned, awaiting_start, preflight, awaiting_permit, step_intent_durable, dispatching,
  outcome_unknown, reconciling, is_terminal, permits_external_dispatch, may_transition_to, Reaches,
  here, next,
}
use ark_forge.Engine.Job.Lifecycle.{
  Reaches-outcome_unknown, trace, Reaches-dispatching, terminal_reachable,
}
use ark_forge.Engine.Recovery.{disposition, from_records, consumed}
use ark_forge.Engine.Recovery.Ledger.{
  judge, first_receipt, starts, intends, accepts, rank, disposition-evidence, disposition-append,
}
use ark_forge.Tests.Samples.{admitted, finished}

disposition-evidence_example :
    disposition (from_records finished.journal.records) (str "permit-1")
    ≡ judge
        (first_receipt (str "permit-1") finished.journal.records)
        (starts (str "permit-1") finished.journal.records)
        (intends (str "permit-1") finished.journal.records)
        (accepts (str "permit-1") finished.journal.records)
disposition-evidence_example = disposition-evidence finished.journal.records (str "permit-1")

disposition-append_example :
    (rank (disposition (from_records admitted.journal.records) (str "permit-1"))
      ≤ rank (
          disposition
            (from_records (admitted.journal.records ++ finished.journal.records))
            (str "permit-1")))
    × ((g : Text)
        → disposition (from_records admitted.journal.records) (str "permit-1") ≡ consumed g
        → disposition
            (from_records (admitted.journal.records ++ finished.journal.records))
            (str "permit-1")
          ≡ consumed g)
disposition-append_example =
    disposition-append admitted.journal.records finished.journal.records (str "permit-1")

to_reconciling : Reaches outcome_unknown reconciling
unfolding may_transition_to
to_reconciling = next here refl

Reaches-outcome_unknown_example :
    (permits_external_dispatch reconciling ≡ false) × (reconciling ≢ dispatching)
Reaches-outcome_unknown_example = Reaches-outcome_unknown reconciling to_reconciling

to_dispatching : Reaches planned dispatching
unfolding may_transition_to
to_dispatching =
    next {s = step_intent_durable}
      (next {s = awaiting_permit}
        (next {s = preflight} (next {s = awaiting_start} (next here refl) refl) refl) refl)
      refl

Reaches-dispatching_example :
    (before : List JobState) × (trace to_dispatching
      ≡ dispatching ∷ step_intent_durable ∷ awaiting_permit ∷ preflight ∷ before)
Reaches-dispatching_example = Reaches-dispatching dispatching to_dispatching refl

terminal_reachable_example : (t : JobState) × Reaches planned t × (is_terminal t ≡ true)
terminal_reachable_example = terminal_reachable planned
