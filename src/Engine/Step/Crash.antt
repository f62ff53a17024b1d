-- ===== src/Engine/Step/Crash.antt =====
-- The step's operations against the crash table.
use ark_forge.Prelude.{ℕ, Text, false, List, is_empty, ◌≡◌, refl, sym, ap, subst, Result, ok, arith}
use ark_forge.Core.Digest.Sha256.{Digest}
use ark_forge.Core.Digest.Hex.{to_hex}
use ark_forge.Authority.{StepPermit, ControllerPairingSecret, DispatchIntent}
use ark_forge.Authority.Verify.{permit-verify_permit}
use ark_forge.Engine.Kind.{JournalRecordKind, step_checkpointed, kind_eq}
use ark_forge.Engine.Recovery.{
  unseen, intent_durable, consuming_outcome_unknown, consumed,
  dispatch_forbidden_until_intent_durable, outcome_unknown, receipt_durable_checkpoint_missing,
  replay_from_checkpoint, derive, row, is_checkpointed, job_records, belongs, is_single_job_journal,
  disposition, from_records,
}
use ark_forge.Engine.Recovery.Ledger.{join, evidence, disposition-select}
use ark_forge.Engine.Recovery.Verdict.{IsOpen}
use ark_forge.Engine.Durable.{FileOps, DurableJournal, and_then}
use ark_forge.Engine.Step.{
  AdmittedStep, StepContext, StepError, DispatchInFlight, CompletedStep, Entries, from_permit,
  context_facts, facts_with_receipt, extend_unique_facts, step_append, admit_step,
  begin_dispatch_with_facts, record_receipt_with_facts, checkpoint,
}
use ark_forge.Engine.Step.Facts.{and_then-ok, extend_unique_facts-fact_value}
use ark_forge.Engine.Step.Admission.{admit_step-IsAdmission}
use ark_forge.Engine.Step.Windows.{
  IsWindows, Stands, facts-IsTagged, extend-IsTagged, receipt_facts-IsTagged, context_receipt,
  named_receipt-some, admission-IsWindows, dispatch-IsWindows, receipt-IsWindows,
  checkpointed-IsStepKind, step_append-Reached,
}

-- The permit's job was created and has not concluded, and no checkpoint of it names the permit.
pub record IsReady (dj_records : List ark_forge.Engine.Journal.JournalRecord) (p : StepPermit)
    : Type 0 where
  pub opened : IsOpen p.job_id dj_records
  pub unmarked : is_checkpointed p.permit_id (job_records p.job_id dj_records) ≡ false

module _ (fs : FileOps) where
  -- The three steps of an operation that adds facts and appends two records.
  pub record IsPair {κ} {R : Type κ} (dj : DurableJournal fs) (k1 k2 : JournalRecordKind)
      (at_epoch_ms : ℕ) (c : StepContext) (base : Entries) (extra : List (Text × Text))
      (choose : Entries → Entries) (result : Digest → Digest → R) (after : DurableJournal fs)
      (r : R) : Type κ where
    pub facts : Entries
    pub extended : extend_unique_facts base extra ≡ ok facts
    pub middle : DurableJournal fs
    pub g1 : Digest
    pub g2 : Digest
    pub first : step_append fs dj k1 at_epoch_ms c facts ≡ (middle, ok g1)
    pub second : step_append fs middle k2 at_epoch_ms c (choose facts) ≡ (after, ok g2)
    pub made : result g1 g2 ≡ r

  module _ {R : Type 0} (dj : DurableJournal fs) (k1 k2 : JournalRecordKind) (at_epoch_ms : ℕ)
      (c : StepContext) (base : Entries) (extra : List (Text × Text)) (choose : Entries → Entries)
      (result : Digest → Digest → R) (after : DurableJournal fs) (r : R) where
    IsPair-of :
        (dj0 middle last : DurableJournal fs) (facts : Entries) (g1 g2 : Digest)
        → ◌≡◌ {A = DurableJournal fs × Result StepError Entries}
            (dj, extend_unique_facts base extra)
            (dj0, ok facts)
        → step_append fs dj0 k1 at_epoch_ms c facts ≡ (middle, ok g1)
        → step_append fs middle k2 at_epoch_ms c (choose facts) ≡ (last, ok g2)
        → ◌≡◌ {A = DurableJournal fs × Result StepError R} (last, ok (result g1 g2)) (after, ok r)
        → IsPair dj k1 k2 at_epoch_ms c base extra choose result after r
    IsPair-of dj0 middle last facts g1 g2 e e1 e2 done =
        let same : dj0 ≡ dj = ground arith in
        let end : last ≡ after = ground arith in
        record {
          facts = facts;
          extended = ground arith;
          middle = middle;
          g1 = g1;
          g2 = g2;
          first = cc;
          second = cc;
          made = ground arith;
        }

    and_then-IsPair :
        and_then
            (dj, extend_unique_facts base extra)
            (λ dj0 facts. and_then (step_append fs dj0 k1 at_epoch_ms c facts) (λ dj1 g1.
              and_then
                (step_append fs dj1 k2 at_epoch_ms c (choose facts))
                (λ dj2 g2. (dj2, ok (result g1 g2)))))
          ≡ (after, ok r)
        → IsPair dj k1 k2 at_epoch_ms c base extra choose result after r
    and_then-IsPair h =
        let (dj0, facts, e, h1) = and_then-ok (dj, extend_unique_facts base extra) _ h in
        let (middle, g1, e1, h2) = and_then-ok (step_append fs dj0 k1 at_epoch_ms c facts) _ h1 in
        let (last, g2, e2, h3) =
          and_then-ok (step_append fs middle k2 at_epoch_ms c (choose facts)) _ h2 in
        IsPair-of dj0 middle last facts g1 g2 e e1 e2 h3

  -- For a permit whose job is open and has no checkpoint of the permit: an admission that succeeds
  -- leaves two records. After a crash behind the first, recovery forbids dispatch until the intent
  -- is durable; behind the second, it takes the outcome for unknown.
  pub admit_step-IsWindows :
      (dj : DurableJournal fs) (p : StepPermit) (s : ControllerPairingSecret) (i : DispatchIntent)
      (after : DurableJournal fs) (a : AdmittedStep)
      → IsReady dj.journal.records p
      → admit_step fs dj p s i ≡ (after, ok a)
      → IsWindows fs dj
          (from_permit a.permit)
          after
          (dispatch_forbidden_until_intent_durable p.permit_id)
          (outcome_unknown p.permit_id)
        × Stands (from_permit a.permit) intent_durable false after.journal.records
  unfolding from_permit job_records
  admit_step-IsWindows dj p s i after a ready h =
      let (unknown, adm) = admit_step-IsAdmission fs dj p s i after a h in
      let same = permit-verify_permit p s i false a.permit adm.verified in
      let rs = dj.journal.records in
      let own =
        disposition-select p.permit_id (belongs p.job_id (is_single_job_journal p.job_id rs)) rs
          unknown in
      let stands_for : Stands (from_permit (record { permit = p })) unseen false rs = record {
        opened = ready.opened;
        at = record { standing = own; marked = ready.unmarked };
        ledger = unknown;
      } in
      let stands =
        subst (λ x. Stands (from_permit (record { permit = x })) unseen false rs) (sym same)
          stands_for in
      let name = ap (λ x. x.permit_id) same in
      let (windows, there) =
        admission-IsWindows fs dj adm.middle after (from_permit a.permit) adm.digest a.intent_digest
          i.now_epoch_ms stands adm.first adm.second in
      (
        subst
            (λ x.
              IsWindows fs dj (from_permit a.permit) after
                (dispatch_forbidden_until_intent_durable x) (outcome_unknown x))
            name windows,
        there,
      )

  -- For a job that is open, with the permit at a durable intent and no checkpoint: the start of a
  -- dispatch that succeeds leaves two records, and after a crash behind either of them recovery
  -- takes the outcome for unknown.
  pub begin_dispatch-IsWindows :
      (dj : DurableJournal fs) (a : AdmittedStep) (now_epoch_ms : ℕ)
      (extra_facts : List (Text × Text)) (after : DurableJournal fs) (f : DispatchInFlight)
      → Stands (from_permit a.permit) intent_durable false dj.journal.records
      → begin_dispatch_with_facts fs dj a now_epoch_ms extra_facts ≡ (after, ok f)
      → IsWindows fs dj f.context after
          (outcome_unknown f.context.permit_id)
          (outcome_unknown f.context.permit_id)
        × (f.context ≡ from_permit a.permit)
        × Stands f.context consuming_outcome_unknown false after.journal.records
  unfolding begin_dispatch_with_facts
  begin_dispatch-IsWindows dj a now_epoch_ms extra_facts after f stands h =
      let c = from_permit a.permit in
      let pair =
        and_then-IsPair dj _ _ now_epoch_ms c (context_facts c) extra_facts (λ x. x) _ after f h in
      let t =
        extend-IsTagged c (context_facts c) extra_facts pair.facts (facts-IsTagged c)
          pair.extended in
      let (windows, there) =
        dispatch-IsWindows fs dj pair.middle after c pair.g1 pair.g2 now_epoch_ms pair.facts stands
          t pair.first pair.second in
      let same : c ≡ f.context = ap (λ x. x.context) pair.made in
      subst
        (λ x.
          IsWindows fs dj x after (outcome_unknown x.permit_id) (outcome_unknown x.permit_id)
          × (x ≡ c)
          × Stands x consuming_outcome_unknown false after.journal.records)
        same (windows, refl, there)

  -- For a job that is open, with the permit consuming and no checkpoint, and a receipt digest that is
  -- not empty: recording the receipt leaves two records, and after a crash behind either of them
  -- recovery finds the receipt durable and the checkpoint missing.
  pub record_receipt-IsWindows :
      (dj : DurableJournal fs) (f : DispatchInFlight) (d : Digest)
      (extra_facts : List (Text × Text)) (now_epoch_ms : ℕ) (after : DurableJournal fs)
      (done : CompletedStep)
      → is_empty (to_hex d) ≡ false
      → Stands f.context consuming_outcome_unknown false dj.journal.records
      → record_receipt_with_facts fs dj f d extra_facts now_epoch_ms ≡ (after, ok done)
      → IsWindows fs dj f.context after
          (receipt_durable_checkpoint_missing f.context.permit_id)
          (receipt_durable_checkpoint_missing f.context.permit_id)
        × (done.context ≡ f.context)
        × (done.receipt_digest ≡ d)
        × Stands f.context (consumed (to_hex d)) false after.journal.records
  unfolding record_receipt_with_facts
  record_receipt-IsWindows dj f d extra_facts now_epoch_ms after done full stands h =
      let c = f.context in
      let base = facts_with_receipt c d in
      let pair =
        and_then-IsPair dj _ _ now_epoch_ms c base extra_facts (λ x. base) _ after done h in
      let t =
        extend-IsTagged c base extra_facts pair.facts (receipt_facts-IsTagged c d) pair.extended in
      let found =
        extend_unique_facts-fact_value base extra_facts pair.facts _ _ pair.extended
          (context_receipt c d) in
      let (windows, there) =
        receipt-IsWindows fs dj pair.middle after c pair.g1 pair.g2 now_epoch_ms pair.facts d stands
          t (named_receipt-some pair.facts (to_hex d) found full) pair.first pair.second in
      (
        windows,
        sym (ap (λ x. x.context) pair.made),
        sym (ap (λ x. x.receipt_digest) pair.made),
        there,
      )

  -- For a job that is open, with the permit consumed and no checkpoint: after a crash behind a
  -- checkpoint that succeeds, recovery replays from it, and the permit keeps its receipt.
  pub checkpoint-replay :
      (dj : DurableJournal fs) (done : CompletedStep) (receipt : Text) (now_epoch_ms : ℕ)
      (after : DurableJournal fs) (digest : Digest)
      → Stands done.context (consumed receipt) false dj.journal.records
      → checkpoint fs dj done now_epoch_ms ≡ (after, ok digest)
      → (derive after.journal done.context.job_id ≡ replay_from_checkpoint)
        × (disposition (from_records after.journal.records) done.context.permit_id
            ≡ consumed receipt)
  unfolding checkpoint kind_eq join evidence row
  checkpoint-replay dj done receipt now_epoch_ms after digest stands h =
      let (there, crash) =
        step_append-Reached fs dj step_checkpointed now_epoch_ms done.context
          (facts_with_receipt done.context done.receipt_digest) after digest (consumed receipt)
          false stands checkpointed-IsStepKind
          (receipt_facts-IsTagged done.context done.receipt_digest) h in
      (crash, there.ledger)
