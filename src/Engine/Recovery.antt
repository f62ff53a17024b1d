-- ===== src/Engine/Recovery.antt =====
-- crates/arkforge-engine/src/recovery.rs: what a replayed journal says about an unfinished job.
pub mod Ledger
pub mod Reopened
pub mod Verdict
use Prim.Native.String.{String}
use ark_forge.Prelude.{
  ℕ, Text, str, bytes_eq, bytes_lt, Bool, true, false, not, ◌&&◌, ◌||◌, Option, none, some, List,
  [], ◌∷◌, ◌++◌, any, is_empty, length, ◌==◌, if◌then◌else◌, ◌≡◌,
}
use ark_forge.Core.Ids.{OpaqueId}
use ark_forge.Engine.Kind.{
  JournalRecordKind, kind_eq, job_created, step_permit_accepted, step_intent_recorded,
  permit_consuming, external_dispatch_started, semantic_receipt_recorded, permit_consumed,
  step_checkpointed, outcome_classified,
}
use ark_forge.Engine.Journal.{JournalRecord, Journal, Facts}
use ark_forge.Engine.Job.{
  JobState, succeeded, confirmed_failed, cancelled_safe, recovery_assessable,
}

-- The fact keys that the engine writes and recovery reads.
abbrev pub job_id_key : Text
job_id_key = str "jobId"

abbrev pub plan_id_key : Text
plan_id_key = str "planId"

abbrev pub step_id_key : Text
step_id_key = str "stepId"

abbrev pub attempt_id_key : Text
attempt_id_key = str "attemptId"

abbrev pub permit_id_key : Text
permit_id_key = str "permitId"

abbrev pub receipt_digest_key : Text
receipt_digest_key = str "receiptDigest"

unfoldable pub fact_value : Facts → Text → Option Text
fact_value [] key = none
fact_value ((k, v) ∷ facts) key =
    let rest = fact_value facts key in if bytes_eq k key then some v else rest

pub data PermitDisposition : Type 0 where
  unseen accepted_intent_not_durable intent_durable consuming_outcome_unknown : PermitDisposition
  consumed : (receipt_digest : Text) → PermitDisposition

unfoldable pub permits_dispatch : PermitDisposition → Bool
permits_dispatch intent_durable = true
permits_dispatch _ = false

-- A `BTreeMap` from permit ids: an association list in the order of its keys.
abbrev pub PermitLedger : Type 0
PermitLedger = List (Text × PermitDisposition)

unfoldable pub lookup : PermitLedger → Text → Option PermitDisposition
lookup [] key = none
lookup ((k, d) ∷ permits) key =
    let rest = lookup permits key in if bytes_eq k key then some d else rest

unfoldable pub insert : PermitLedger → Text → PermitDisposition → PermitLedger
insert [] key d = (key, d) ∷ []
insert ((k, e) ∷ permits) key d =
    let rest = insert permits key d in
    if bytes_eq k key
    then (key, d) ∷ permits
    else if bytes_lt key k
    then (key, d) ∷ (k, e) ∷ permits
    else (k, e) ∷ rest

unfoldable pub disposition : PermitLedger → Text → PermitDisposition
disposition permits permit_id = elim (lookup permits permit_id) [ some d ↦ d | none ↦ unseen ]

-- `.filter(|digest| !digest.is_empty())`.
unfoldable pub filled : Option Text → Option Text
filled (some digest) = if is_empty digest then none else some digest
filled none = none

-- The receipt digest that the facts name, if it is not empty.
unfoldable pub named_receipt : Facts → Option Text
named_receipt facts = filled (fact_value facts receipt_digest_key)

unfoldable pub settle : Option Text → PermitDisposition
settle (some digest) = consumed digest
settle none = consuming_outcome_unknown

-- What a record of the kind, naming the receipt, makes of its permit.
unfoldable pub advance : JournalRecordKind → Option Text → PermitDisposition → PermitDisposition
advance step_permit_accepted receipt unseen = accepted_intent_not_durable
advance step_intent_recorded receipt unseen = intent_durable
advance step_intent_recorded receipt accepted_intent_not_durable = intent_durable
advance step_intent_recorded receipt intent_durable = intent_durable
advance permit_consuming receipt (consumed digest) = consumed digest
advance permit_consuming receipt _ = consuming_outcome_unknown
advance external_dispatch_started receipt (consumed digest) = consumed digest
advance external_dispatch_started receipt _ = consuming_outcome_unknown
advance semantic_receipt_recorded receipt (consumed digest) = consumed digest
advance semantic_receipt_recorded receipt _ = settle receipt
advance permit_consumed receipt (consumed digest) = consumed digest
advance permit_consumed receipt _ = settle receipt
advance _ receipt d = d

-- The body of the replay's loop, for the permit that the record names.
unfoldable pub touch : PermitLedger → JournalRecord → Option Text → PermitLedger
touch permits r none = permits
touch permits r (some permit_id) =
    insert permits permit_id
      (advance r.kind (named_receipt r.facts) (disposition permits permit_id))

unfoldable pub ledger_step : PermitLedger → JournalRecord → PermitLedger
ledger_step permits r = touch permits r (fact_value r.facts permit_id_key)

unfoldable pub replay : PermitLedger → List JournalRecord → PermitLedger
replay permits [] = permits
replay permits (r ∷ rs) = replay (ledger_step permits r) rs

unfoldable pub from_records : List JournalRecord → PermitLedger
from_records rs = replay [] rs

unfoldable pub is_unresolved : PermitDisposition → Bool
is_unresolved intent_durable = true
is_unresolved consuming_outcome_unknown = true
is_unresolved _ = false

unfoldable pub unresolved : PermitLedger → List Text
unresolved [] = []
unresolved ((k, d) ∷ permits) =
    let rest = unresolved permits in if is_unresolved d then k ∷ rest else rest

pub data CrashDisposition : Type 0 where
  no_job safe_to_cancel replay_from_checkpoint : CrashDisposition
  dispatch_forbidden_until_intent_durable outcome_unknown : (permit_id : Text) → CrashDisposition
  receipt_durable_checkpoint_missing : (permit_id : Text) → CrashDisposition
  concluded : JobState → CrashDisposition

unfoldable pub terminal_state : Text → Option JobState
terminal_state t =
    if bytes_eq t (str "succeeded")
    then some succeeded
    else if bytes_eq t (str "confirmedFailed")
    then some confirmed_failed
    else if bytes_eq t (str "cancelledSafe")
    then some cancelled_safe
    else if bytes_eq t (str "recoveryAssessable")
    then some recovery_assessable
    else none

unfoldable pub select : (JournalRecord → Bool) → List JournalRecord → List JournalRecord
select p [] = []
select p (r ∷ rs) = let rest = select p rs in if p r then r ∷ rest else rest

-- The job that the facts name, or else the subject.
unfoldable pub created_for : Text → JournalRecord → Bool
created_for job_id r = elim (fact_value r.facts job_id_key) [
  | some id ↦ bytes_eq id job_id
  | none ↦ bytes_eq r.subject job_id
]

unfoldable pub is_creation : JournalRecord → Bool
is_creation r = kind_eq r.kind job_created

-- `created_records.len() == 1 && …`.
unfoldable pub sole_creation : Text → List JournalRecord → Bool
sole_creation job_id (r ∷ []) = created_for job_id r
sole_creation job_id _ = false

unfoldable pub is_single_job_journal : Text → List JournalRecord → Bool
is_single_job_journal job_id rs = sole_creation job_id (select is_creation rs)

unfoldable pub belongs_by : Text → Bool → JournalRecord → Option Text → Bool
belongs_by job_id single r (some id) = bytes_eq id job_id
belongs_by job_id single r none = bytes_eq r.subject job_id || single

unfoldable pub belongs : Text → Bool → JournalRecord → Bool
belongs job_id single r = belongs_by job_id single r (fact_value r.facts job_id_key)

-- The records of the job.
unfoldable pub job_records : Text → List JournalRecord → List JournalRecord
job_records job_id rs = select (belongs job_id (is_single_job_journal job_id rs)) rs

unfoldable pub terminal_fact : Option Text → Option JobState
terminal_fact (some outcome) = terminal_state outcome
terminal_fact none = none

unfoldable pub classified : JournalRecord → Option JobState
classified r =
    if kind_eq r.kind outcome_classified
    then terminal_fact (fact_value r.facts (str "outcome"))
    else none

-- The first of two answers.
unfoldable pub or_else {ℓ} : {A : Type ℓ} → Option A → Option A → Option A
or_else (some a) later = some a
or_else none later = later

unfoldable pub first_classified : List JournalRecord → Option JobState
first_classified [] = none
first_classified (r ∷ rs) = or_else (classified r) (first_classified rs)

-- The permit of the last record that names one.
unfoldable pub newest_permit : List JournalRecord → Option Text
newest_permit [] = none
newest_permit (r ∷ rs) = or_else (newest_permit rs) (fact_value r.facts permit_id_key)

-- `fact_value(…) == Some(text)`.
unfoldable pub is_value : Text → Option Text → Bool
is_value t none = false
is_value t (some value) = bytes_eq value t

unfoldable pub names_permit : Text → JournalRecord → Bool
names_permit permit_id r = is_value permit_id (fact_value r.facts permit_id_key)

unfoldable pub is_checkpointed : Text → List JournalRecord → Bool
is_checkpointed permit_id rs =
    any (λ r. kind_eq r.kind step_checkpointed && names_permit permit_id r) rs

unfoldable pub row : Text → Bool → PermitDisposition → CrashDisposition
row permit_id checkpointed unseen = safe_to_cancel
row permit_id checkpointed accepted_intent_not_durable =
    dispatch_forbidden_until_intent_durable permit_id
row permit_id checkpointed intent_durable = outcome_unknown permit_id
row permit_id checkpointed consuming_outcome_unknown = outcome_unknown permit_id
row permit_id true (consumed digest) = replay_from_checkpoint
row permit_id false (consumed digest) = receipt_durable_checkpoint_missing permit_id

-- The row for a job's own records, once it was created and has not concluded.
unfoldable pub row_for : List JournalRecord → Option Text → CrashDisposition
row_for rs none = safe_to_cancel
row_for rs (some permit_id) =
    row permit_id (is_checkpointed permit_id rs) (disposition (from_records rs) permit_id)

unfoldable pub derive_row : List JournalRecord → CrashDisposition
derive_row rs = row_for rs (newest_permit rs)

unfoldable pub conclude : List JournalRecord → Option JobState → CrashDisposition
conclude rs (some state) = concluded state
conclude rs none = derive_row rs

unfoldable pub derive_records : List JournalRecord → CrashDisposition
derive_records rs = if any is_creation rs then conclude rs (first_classified rs) else no_job

unfoldable pub derive : Journal → Text → CrashDisposition
derive j job_id = derive_records (job_records job_id j.records)
