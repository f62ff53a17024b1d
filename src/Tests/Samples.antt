-- ===== src/Tests/Samples.antt =====
-- Sample data: a file in memory, a paired secret, and a permit under its tag.
use ark_forge.Prelude.{
  Text, Bytes, str, true, false, some, List, [], ◌∷◌, ◌++◌, length, Result, ok, err, replicate,
}
use ark_forge.Core.Digest.Sha256.{Digest}
use ark_forge.Core.Binding.{AuthorityBindingRef}
use ark_forge.Authority.{
  StepPermit, PermitIntegrityTag, ControllerPairingSecret, DispatchIntent, mint_integrity_tag,
}
use ark_forge.Authority.Mint.{sealed}
use ark_forge.Engine.Kind.{job_created}
use ark_forge.Engine.Journal.{new}
use ark_forge.Engine.Recovery.{job_id_key}
use ark_forge.Engine.Durable.{FileOps, DurableJournal, durable_append}
use ark_forge.Engine.Step.{
  AdmittedStep, DispatchInFlight, CompletedStep, StepContext, admit_step, begin_dispatch_with_facts,
  record_receipt_with_facts, checkpoint,
}

-- The value of a result that is known to be one.
abbrev pub value {ℓ κ} : {E : Type ℓ} {A : Type κ} → A → Result E A → A
value other (ok a) = a
value other (err e) = other

-- A file that takes every write and syncs.
abbrev pub memory : FileOps
memory = record {
  File = Bytes;
  write = λ file bytes. (file ++ bytes, some (length bytes));
  sync_all = λ file. (file, true);
}

-- A disk that takes one byte at most.
abbrev pub broken : FileOps
broken = record {
  File = Bytes;
  write = λ file bytes. (file, some 1);
  sync_all = λ file. (file, false);
}

abbrev pub fresh : DurableJournal memory
fresh = record { file = []; journal = new; unsynced_records = 0; poisoned = false }

abbrev pub secret : ControllerPairingSecret
secret = record { epoch = 7; secret = replicate 32 11 }

abbrev pub binding : AuthorityBindingRef
binding = record {
  authority_namespace = str "arkdeck";
  binding_id = str "binding-1";
  binding_revision = 3;
  stable_identity_digest = replicate 32 1;
}

abbrev pub untagged : StepPermit
untagged = record {
  permit_id = str "permit-1";
  authority_namespace = str "arkdeck";
  controller_session_id = str "session-1";
  job_id = str "job-1";
  plan_id = str "plan-1";
  plan_digest = replicate 32 2;
  step_id = str "step-1";
  attempt_id = str "attempt-1";
  public_step_digest = replicate 32 3;
  private_action_digest = replicate 32 4;
  effect_set_digest = replicate 32 5;
  authority_binding = binding;
  admitted_device_facts_digest = replicate 32 6;
  issued_at_epoch_ms = 1000;
  expires_at_epoch_ms = 60000;
  single_use = true;
  integrity_tag = record { epoch = 0; tag = replicate 32 0 };
}

abbrev pub intent : DispatchIntent
intent = record {
  controller_session_id = str "session-1";
  job_id = str "job-1";
  plan_id = str "plan-1";
  plan_digest = replicate 32 2;
  step_id = str "step-1";
  attempt_id = str "attempt-1";
  public_step_digest = replicate 32 3;
  private_action_digest = replicate 32 4;
  effect_set_digest = replicate 32 5;
  authority_binding = binding;
  admitted_device_facts_digest = replicate 32 6;
  now_epoch_ms = 2000;
}

abbrev pub tag : PermitIntegrityTag
tag = value (record { epoch = 0; tag = [] }) (mint_integrity_tag untagged secret)

abbrev pub permit : StepPermit
permit = sealed untagged tag

-- A journal in which the job was created.
abbrev pub start : DurableJournal memory
start =
    (durable_append memory fresh job_created 1500 1 (str "job-1")
      ((job_id_key, str "job-1") ∷ [])).0

abbrev pub admitted : DurableJournal memory
admitted = (admit_step memory start permit secret intent).0

abbrev pub step : AdmittedStep
step =
    value (record { permit = record { permit = permit }; intent_digest = [] })
      (admit_step memory start permit secret intent).1

abbrev pub extra : List (Text × Text)
extra = (str "requestId", str "request-9") ∷ []

abbrev pub context : StepContext
context = record {
  job_id = str "job-1";
  plan_id = str "plan-1";
  step_id = str "step-1";
  attempt_id = str "attempt-1";
  permit_id = str "permit-1";
}

abbrev pub dispatched : DurableJournal memory
dispatched = (begin_dispatch_with_facts memory admitted step 2100 extra).0

abbrev pub in_flight : DispatchInFlight
in_flight =
    value (record { context = context; intent_digest = []; dispatch_digest = [] })
      (begin_dispatch_with_facts memory admitted step 2100 extra).1

abbrev pub receipt : Digest
receipt = replicate 32 9

abbrev pub received : DurableJournal memory
received = (record_receipt_with_facts memory dispatched in_flight receipt extra 2200).0

abbrev pub completed : CompletedStep
completed =
    value (record { context = context; receipt_digest = []; receipt_record_digest = [] })
      (record_receipt_with_facts memory dispatched in_flight receipt extra 2200).1

abbrev pub finished : DurableJournal memory
finished = (checkpoint memory received completed 2300).0

abbrev pub final : Digest
final = value [] (checkpoint memory received completed 2300).1
