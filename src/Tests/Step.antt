-- ===== src/Tests/Step.antt =====
-- The life of a step, run on the sample journal.
use ark_forge.Prelude.{
  ◌↔◌, ok, err, ◌≡◌, refl, str, List, [], ◌∷◌, ◌++◌, Text, Result, false, is_empty, sym, subst,
  some, bytes_eq,
}
use ark_forge.Core.Ids.{opaque_id, check_characters, allowed}
use ark_forge.Authority.{StepPermit}
use ark_forge.Authority.Verify.{Endorsed, Describes}
use ark_forge.Core.Digest.Hex.{to_hex}
use ark_forge.Engine.Journal.{JournalRecord}
use ark_forge.Engine.Recovery.{
  unseen, intent_durable, consuming_outcome_unknown, consumed, disposition, from_records, derive,
  outcome_unknown, dispatch_forbidden_until_intent_durable, receipt_durable_checkpoint_missing,
  replay_from_checkpoint, fact_value, permit_id_key,
}
use ark_forge.Engine.Step.{
  StepError, has_key, usable_id, admit_step, begin_dispatch_with_facts, record_receipt_with_facts,
  checkpoint, from_permit, context_facts, extend_unique_facts, Entries,
}
use ark_forge.Engine.Step.Facts.{AreNew, extend_unique_facts_iff}
use ark_forge.Engine.Step.Admission.{admit_step-intent_durable, admit_step_once}
use ark_forge.Engine.Durable.Restart.{reread_all}
use ark_forge.Engine.Recovery.Reopened.{unchanged, reopened}
use ark_forge.Engine.Durable.{DurableJournal}
use ark_forge.Engine.Step.Crash.{
  IsReady, admit_step-IsWindows, begin_dispatch-IsWindows, record_receipt-IsWindows,
  checkpoint-replay,
}
use ark_forge.Engine.Step.Windows.{IsWindows, Stands}
use ark_forge.Tests.Samples.{
  memory, start, permit, secret, intent, admitted, step, extra, dispatched, in_flight, receipt,
  received, completed, finished, final,
}

-- The four operations succeed on the sample data.
record Runs : Type 0 where
  admission : admit_step memory start permit secret intent ≡ (admitted, ok step)
  dispatch : begin_dispatch_with_facts memory admitted step 2100 extra ≡ (dispatched, ok in_flight)
  receipt_stored :
      record_receipt_with_facts memory dispatched in_flight receipt extra 2200
      ≡ (received, ok completed)
  mark : checkpoint memory received completed 2300 ≡ (finished, ok final)
  ready : IsReady start.journal.records permit
  digits : is_empty (to_hex receipt) ≡ false

runs : Runs
unfolding ark_forge.Core.Cbor.Encode.be16 ark_forge.Core.Cbor.Encode.be32
    ark_forge.Core.Cbor.Encode.be64 ark_forge.Core.Cbor.Encode.initial_byte
    ark_forge.Core.Cbor.Encode.encode_head ark_forge.Core.Cbor.Encode.insert_by_key
    ark_forge.Core.Cbor.Encode.sort_by_key ark_forge.Core.Cbor.Encode.check_keys
    ark_forge.Core.Cbor.Encode.concat_entries ark_forge.Core.Cbor.Encode.encode_map
    ark_forge.Core.Cbor.Encode.encode_bool ark_forge.Core.Cbor.Encode.encode
    ark_forge.Core.Cbor.Encode.encode_values ark_forge.Core.Cbor.Encode.encode_entries
    ark_forge.Core.Digest.domain_bytes ark_forge.Core.Digest.digest_in_domain
    ark_forge.Core.Digest.digest_canonical ark_forge.Core.Digest.hmac_sha256
    ark_forge.Core.Digest.constant_time_eq ark_forge.Core.Digest.Sha256.compress
    ark_forge.Core.Digest.Sha256.new ark_forge.Core.Digest.Sha256.whole_blocks
    ark_forge.Core.Digest.Sha256.absorb ark_forge.Core.Digest.Sha256.fill
    ark_forge.Core.Digest.Sha256.update ark_forge.Core.Digest.Sha256.finalize
    ark_forge.Core.Digest.Sha256.sha256 ark_forge.Core.Digest.Hex.hex_nibble
    ark_forge.Core.Digest.Hex.to_hex ark_forge.Core.Ids.allowed ark_forge.Core.Ids.check_characters
    ark_forge.Core.Ids.opaque_id ark_forge.Core.Binding.cbor_map ark_forge.Core.Binding.binding_cbor
    ark_forge.Core.Binding.binding_eq ark_forge.Authority.permit_body
    ark_forge.Authority.signing_body ark_forge.Authority.compute ark_forge.Authority.check_context
    ark_forge.Authority.context_table ark_forge.Authority.check_dispatch
    ark_forge.Authority.verify_permit ark_forge.Authority.mint_integrity_tag
    ark_forge.Engine.Kind.kind_eq ark_forge.Engine.Kind.policy_name ark_forge.Engine.Kind.policy_eq
    ark_forge.Engine.Kind.fsync_policy ark_forge.Engine.Kind.kind_name
    ark_forge.Engine.Journal.facts_cbor ark_forge.Engine.Journal.body_entries
    ark_forge.Engine.Journal.body ark_forge.Engine.Journal.recompute_digest
    ark_forge.Engine.Journal.record_bytes ark_forge.Engine.Journal.last_digest
    ark_forge.Engine.Journal.head_digest ark_forge.Engine.Journal.draft_record
    ark_forge.Engine.Journal.prepare_record ark_forge.Engine.Journal.commit_record
    ark_forge.Engine.Recovery.fact_value ark_forge.Engine.Recovery.lookup
    ark_forge.Engine.Recovery.insert ark_forge.Engine.Recovery.disposition
    ark_forge.Engine.Recovery.filled ark_forge.Engine.Recovery.named_receipt
    ark_forge.Engine.Recovery.settle ark_forge.Engine.Recovery.advance
    ark_forge.Engine.Recovery.touch ark_forge.Engine.Recovery.ledger_step
    ark_forge.Engine.Recovery.replay ark_forge.Engine.Recovery.from_records
    ark_forge.Engine.Recovery.terminal_state ark_forge.Engine.Recovery.select
    ark_forge.Engine.Recovery.created_for ark_forge.Engine.Recovery.is_creation
    ark_forge.Engine.Recovery.sole_creation ark_forge.Engine.Recovery.is_single_job_journal
    ark_forge.Engine.Recovery.belongs_by ark_forge.Engine.Recovery.belongs
    ark_forge.Engine.Recovery.job_records ark_forge.Engine.Recovery.terminal_fact
    ark_forge.Engine.Recovery.classified ark_forge.Engine.Recovery.or_else
    ark_forge.Engine.Recovery.first_classified ark_forge.Engine.Recovery.is_value
    ark_forge.Engine.Recovery.names_permit ark_forge.Engine.Recovery.is_checkpointed
    ark_forge.Engine.Durable.frame ark_forge.Engine.Durable.sync_record
    ark_forge.Engine.Durable.with_record ark_forge.Engine.Durable.commit
    ark_forge.Engine.Durable.finish_write ark_forge.Engine.Durable.write_frame
    ark_forge.Engine.Durable.durable_append ark_forge.Engine.Step.from_permit
    ark_forge.Engine.Step.usable_id ark_forge.Engine.Step.context_facts
    ark_forge.Engine.Step.facts_with_receipt ark_forge.Engine.Step.has_key
    ark_forge.Engine.Step.extend_unique_facts ark_forge.Engine.Step.journal_answer
    ark_forge.Engine.Step.step_append ark_forge.Engine.Step.admit_unseen
    ark_forge.Engine.Step.admit_by ark_forge.Engine.Step.admit_step
    ark_forge.Engine.Step.begin_dispatch_with_facts ark_forge.Engine.Step.record_receipt_with_facts
    ark_forge.Engine.Step.checkpoint ark_forge.Prelude.bytes_eq ark_forge.Prelude.bytes_lt
    ark_forge.Prelude.any
runs = record {
  admission = refl;
  dispatch = refl;
  receipt_stored = refl;
  mark = refl;
  ready = record { opened = record { created = refl; running = refl }; unmarked = refl };
  digits = refl;
}

admit_step-intent_durable_example :
    (disposition (from_records start.journal.records) permit.permit_id ≡ unseen)
    × (step.permit.permit ≡ permit)
    × Endorsed permit secret
    × Describes permit intent
    × (disposition (from_records admitted.journal.records) permit.permit_id ≡ intent_durable)
admit_step-intent_durable_example =
    admit_step-intent_durable memory start permit secret intent admitted step runs.admission

-- The handle of the admission, its journal read back from the file.
abbrev back : DurableJournal memory
back = record admitted { journal = reread_all admitted.journal }

admit_step_once_example :
    (e : StepError) × (admit_step memory back permit secret intent ≡ (back, err e))
admit_step_once_example =
    admit_step_once memory start permit secret intent admitted step back permit secret intent
      runs.admission (reopened unchanged refl) refl

Stands-admitted : Stands (from_permit step.permit) intent_durable false admitted.journal.records
Stands-admitted =
    (admit_step-IsWindows memory start permit secret intent admitted step runs.ready
      runs.admission).1

Stands-dispatched :
    Stands in_flight.context consuming_outcome_unknown false dispatched.journal.records
Stands-dispatched =
    (begin_dispatch-IsWindows memory admitted step 2100 extra dispatched in_flight Stands-admitted
      runs.dispatch).2

Stands-received :
    Stands completed.context (consumed (to_hex receipt)) false received.journal.records
Stands-received =
    let there =
      record_receipt-IsWindows memory dispatched in_flight receipt extra 2200 received completed
        runs.digits Stands-dispatched runs.receipt_stored in
    subst (λ c. Stands c (consumed (to_hex receipt)) false received.journal.records) (sym there.1)
      there.3

admit_step-IsWindows_example :
    IsWindows memory start
      (from_permit step.permit)
      admitted
      (dispatch_forbidden_until_intent_durable permit.permit_id)
      (outcome_unknown permit.permit_id)
    × Stands (from_permit step.permit) intent_durable false admitted.journal.records
admit_step-IsWindows_example =
    admit_step-IsWindows memory start permit secret intent admitted step runs.ready runs.admission

begin_dispatch-IsWindows_example :
    IsWindows memory admitted in_flight.context dispatched
      (outcome_unknown in_flight.context.permit_id)
      (outcome_unknown in_flight.context.permit_id)
    × (in_flight.context ≡ from_permit step.permit)
    × Stands in_flight.context consuming_outcome_unknown false dispatched.journal.records
begin_dispatch-IsWindows_example =
    begin_dispatch-IsWindows memory admitted step 2100 extra dispatched in_flight Stands-admitted
      runs.dispatch

record_receipt-IsWindows_example :
    IsWindows memory dispatched in_flight.context received
      (receipt_durable_checkpoint_missing in_flight.context.permit_id)
      (receipt_durable_checkpoint_missing in_flight.context.permit_id)
    × (completed.context ≡ in_flight.context)
    × (completed.receipt_digest ≡ receipt)
    × Stands in_flight.context (consumed (to_hex receipt)) false received.journal.records
record_receipt-IsWindows_example =
    record_receipt-IsWindows memory dispatched in_flight receipt extra 2200 received completed
      runs.digits Stands-dispatched runs.receipt_stored

checkpoint-replay_example :
    (derive finished.journal completed.context.job_id ≡ replay_from_checkpoint)
    × (disposition (from_records finished.journal.records) completed.context.permit_id
        ≡ consumed (to_hex receipt))
checkpoint-replay_example =
    checkpoint-replay memory received completed (to_hex receipt) 2300 finished final Stands-received
      runs.mark

abbrev grown_facts : Entries
grown_facts = (permit_id_key, str "permit-1") ∷ (str "requestId", str "request-9") ∷ []

extended : extend_unique_facts ((permit_id_key, str "permit-1") ∷ []) extra ≡ ok grown_facts
unfolding extend_unique_facts has_key usable_id opaque_id check_characters allowed bytes_eq
extended = refl

extend_unique_facts_iff_example :
    (extend_unique_facts ((permit_id_key, str "permit-1") ∷ []) extra ≡ ok grown_facts) ↔ (
      AreNew ((permit_id_key, str "permit-1") ∷ []) extra
      × (grown_facts ≡ (permit_id_key, str "permit-1") ∷ extra))
extend_unique_facts_iff_example =
    extend_unique_facts_iff ((permit_id_key, str "permit-1") ∷ []) extra grown_facts

-- The caller's facts are taken.
taken : AreNew ((permit_id_key, str "permit-1") ∷ []) extra
taken =
    ((extend_unique_facts_iff ((permit_id_key, str "permit-1") ∷ []) extra grown_facts).0
      extended).0
