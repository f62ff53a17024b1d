-- ===== src/Engine/Step.antt =====
-- crates/arkforge-engine/src/step.rs: one permit, one intent, one dispatch, one receipt.
pub mod Facts
pub mod Admission
pub mod Windows
pub mod Crash
use Prim.Native.String.{String}
use ark_forge.Prelude.{
  ℕ, Text, str, bytes_eq, Bool, true, false, Option, none, some, List, [], ◌∷◌, ◌++◌, map, Result,
  ok, err, ◌>>=◌, map_err, if◌then◌else◌,
}
use ark_forge.Core.Digest.Sha256.{Digest}
use ark_forge.Core.Digest.Hex.{to_hex}
use ark_forge.Core.Ids.{OpaqueId, opaque_id}
use ark_forge.Authority.{
  StepPermit, ControllerPairingSecret, DispatchIntent, VerifiedStepPermit, PermitVerificationError,
  verify_permit,
}
use ark_forge.Engine.Kind.{
  JournalRecordKind, step_permit_accepted, step_intent_recorded, permit_consuming,
  external_dispatch_started, transport_evidence_recorded, semantic_receipt_recorded,
  permit_consumed, step_checkpointed,
}
use ark_forge.Engine.Journal.{Journal}
use ark_forge.Engine.Recovery.{
  PermitDisposition, unseen, accepted_intent_not_durable, intent_durable, consuming_outcome_unknown,
  consumed, disposition, from_records, job_id_key, plan_id_key, step_id_key, attempt_id_key,
  permit_id_key, receipt_digest_key,
}
use ark_forge.Engine.Durable.{
  FileOps, DurableJournal, DurableJournalError, Outcome, and_then, durable_append,
}

abbrev pub Entries : Type 0
Entries = ark_forge.Engine.Journal.Facts

pub record StepContext : Type 0 where
  pub job_id : Text
  pub plan_id : Text
  pub step_id : Text
  pub attempt_id : Text
  pub permit_id : Text

pub record AdmittedStep : Type 0 where
  pub permit : VerifiedStepPermit
  pub intent_digest : Digest

pub record DispatchInFlight : Type 0 where
  pub context : StepContext
  pub intent_digest : Digest
  pub dispatch_digest : Digest

pub record CompletedStep : Type 0 where
  pub context : StepContext
  pub receipt_digest : Digest
  pub receipt_record_digest : Digest

pub data StepError : Type 0 where
  already_consumed : Text → Text → StepError
  outcome_unknown intent_already_recorded unusable_identifier duplicate_fact_key : Text → StepError
  verification : PermitVerificationError → StepError
  journal_failed : DurableJournalError → StepError

unfoldable pub from_permit : VerifiedStepPermit → StepContext
from_permit verified = record {
  job_id = verified.permit.job_id;
  plan_id = verified.permit.plan_id;
  step_id = verified.permit.step_id;
  attempt_id = verified.permit.attempt_id;
  permit_id = verified.permit.permit_id;
}

-- `subject` and `key`.
unfoldable pub usable_id : Text → Result StepError OpaqueId
usable_id value = map_err (λ e. unusable_identifier value) (opaque_id value)

-- The five keys are identifiers as they stand.
unfoldable pub context_facts : StepContext → Entries
context_facts c =
    (job_id_key, c.job_id)
    ∷ (plan_id_key, c.plan_id)
    ∷ (step_id_key, c.step_id)
    ∷ (attempt_id_key, c.attempt_id)
    ∷ (permit_id_key, c.permit_id)
    ∷ []

unfoldable pub facts_with_receipt : StepContext → Digest → Entries
facts_with_receipt c receipt_digest =
    context_facts c ++ ((receipt_digest_key, to_hex receipt_digest) ∷ [])

unfoldable pub has_key : Text → Entries → Bool
has_key name [] = false
has_key name ((k, v) ∷ facts) =
    let rest = has_key name facts in if bytes_eq k name then true else rest

-- The facts grow by the extra ones, whose keys must be identifiers and new.
unfoldable pub extend_unique_facts : Entries → List (Text × Text) → Result StepError Entries
extend_unique_facts facts [] = ok facts
extend_unique_facts facts ((name, value) ∷ extra) = usable_id name >>= λ id.
    if has_key id facts
    then err (duplicate_fact_key id)
    else extend_unique_facts (facts ++ ((id, value) ∷ [])) extra

module _ (fs : FileOps) where
  -- `?` on a journal error.
  unfoldable pub journal_answer :
      Outcome (DurableJournal fs) DurableJournalError Digest
      → Outcome (DurableJournal fs) StepError Digest
  journal_answer (after, answer) = (after, map_err journal_failed answer)

  -- `journal.append(kind, now, 1, subject(&context.step_id)?, facts)?`.
  unfoldable pub step_append :
      DurableJournal fs
      → JournalRecordKind
      → ℕ
      → StepContext
      → Entries
      → Outcome (DurableJournal fs) StepError Digest
  step_append dj kind at_epoch_ms c facts =
      and_then (dj, usable_id c.step_id)
        (λ dj0 subject. journal_answer (durable_append fs dj0 kind at_epoch_ms 1 subject facts))

  -- Behind the ledger's answer that nothing mentions the permit.
  unfoldable pub admit_unseen :
      DurableJournal fs
      → StepPermit
      → ControllerPairingSecret
      → DispatchIntent
      → Outcome (DurableJournal fs) StepError AdmittedStep
  admit_unseen dj p s i =
      and_then (dj, map_err verification (verify_permit p s i false))
        (λ dj0 verified.
          let c = from_permit verified in
          and_then (step_append dj0 step_permit_accepted i.now_epoch_ms c (context_facts c))
            (λ dj1 accepted.
              and_then (step_append dj1 step_intent_recorded i.now_epoch_ms c (context_facts c))
                (λ dj2 intent. (dj2, ok (record { permit = verified; intent_digest = intent })))))

  unfoldable pub admit_by :
      PermitDisposition
      → DurableJournal fs
      → StepPermit
      → ControllerPairingSecret
      → DispatchIntent
      → Outcome (DurableJournal fs) StepError AdmittedStep
  admit_by unseen dj p s i = admit_unseen dj p s i
  admit_by (consumed receipt_digest) dj p s i =
      (dj, err (already_consumed p.permit_id receipt_digest))
  admit_by consuming_outcome_unknown dj p s i = (dj, err (outcome_unknown p.permit_id))
  admit_by intent_durable dj p s i = (dj, err (intent_already_recorded p.permit_id))
  admit_by accepted_intent_not_durable dj p s i = (dj, err (intent_already_recorded p.permit_id))

  unfoldable pub admit_step :
      DurableJournal fs
      → StepPermit
      → ControllerPairingSecret
      → DispatchIntent
      → Outcome (DurableJournal fs) StepError AdmittedStep
  admit_step dj p s i =
      admit_by (disposition (from_records dj.journal.records) p.permit_id) dj p s i

  unfoldable pub begin_dispatch_with_facts :
      DurableJournal fs
      → AdmittedStep
      → ℕ
      → List (Text × Text)
      → Outcome (DurableJournal fs) StepError DispatchInFlight
  begin_dispatch_with_facts dj step now_epoch_ms extra_facts =
      let c = from_permit step.permit in
      and_then (dj, extend_unique_facts (context_facts c) extra_facts)
        (λ dj0 facts.
          and_then (step_append dj0 permit_consuming now_epoch_ms c facts) (λ dj1 consuming.
            and_then (step_append dj1 external_dispatch_started now_epoch_ms c facts)
              (λ dj2 dispatch. (
                dj2,
                ok (record {
                  context = c;
                  intent_digest = step.intent_digest;
                  dispatch_digest = dispatch;
                }),
              ))))

  unfoldable pub begin_dispatch :
      DurableJournal fs → AdmittedStep → ℕ → Outcome (DurableJournal fs) StepError DispatchInFlight
  begin_dispatch dj step now_epoch_ms = begin_dispatch_with_facts dj step now_epoch_ms []

  unfoldable pub record_transport_evidence :
      DurableJournal fs
      → DispatchInFlight
      → ℕ
      → List (Text × Text)
      → Outcome (DurableJournal fs) StepError (Unit {0})
  record_transport_evidence dj in_flight now_epoch_ms facts =
      and_then (dj, extend_unique_facts (context_facts in_flight.context) facts)
        (λ dj0 entries.
          and_then
            (step_append dj0 transport_evidence_recorded now_epoch_ms in_flight.context entries)
            (λ dj1 evidence. (dj1, ok tt)))

  unfoldable pub record_receipt_with_facts :
      DurableJournal fs
      → DispatchInFlight
      → Digest
      → List (Text × Text)
      → ℕ
      → Outcome (DurableJournal fs) StepError CompletedStep
  record_receipt_with_facts dj in_flight receipt_digest extra_facts now_epoch_ms =
      let c = in_flight.context in
      let receipt = facts_with_receipt c receipt_digest in
      and_then (dj, extend_unique_facts receipt extra_facts)
        (λ dj0 facts.
          and_then (step_append dj0 semantic_receipt_recorded now_epoch_ms c facts) (λ dj1 recorded.
            and_then (step_append dj1 permit_consumed now_epoch_ms c receipt) (λ dj2 consumed. (
              dj2,
              ok (record {
                context = c;
                receipt_digest = receipt_digest;
                receipt_record_digest = recorded;
              }),
            ))))

  unfoldable pub record_receipt :
      DurableJournal fs
      → DispatchInFlight
      → Digest
      → ℕ
      → Outcome (DurableJournal fs) StepError CompletedStep
  record_receipt dj in_flight receipt_digest now_epoch_ms =
      record_receipt_with_facts dj in_flight receipt_digest [] now_epoch_ms

  unfoldable pub checkpoint :
      DurableJournal fs → CompletedStep → ℕ → Outcome (DurableJournal fs) StepError Digest
  checkpoint dj done now_epoch_ms =
      step_append dj step_checkpointed now_epoch_ms done.context
        (facts_with_receipt done.context done.receipt_digest)
