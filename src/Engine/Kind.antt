-- ===== src/Engine/Kind.antt =====
-- crates/arkforge-engine/src/journal.rs: record kinds and their durability.
use ark_forge.Prelude.{
  Text, str, bytes_eq, Bool, true, false, Option, none, some, List, [], ◌∷◌, ◌≡◌, refl, subst, ◌↔◌,
  arith, bytes_eq_iff, if◌then◌else◌, Bool-cases, inl, inr,
}

pub data JournalRecordKind : Type 0 where
  plan_stored job_created local_executor_lease_acquired preflight_observed : JournalRecordKind
  step_admission_requested step_permit_accepted step_intent_recorded : JournalRecordKind
  permit_consuming external_dispatch_started transport_evidence_recorded : JournalRecordKind
  semantic_receipt_recorded permit_consumed step_checkpointed rebind_observed : JournalRecordKind
  cancellation_requested postflight_recorded outcome_classified : JournalRecordKind
  possible_effect_set_recorded recovery_assessment_published : JournalRecordKind
  recovery_guide_published read_only_observation_recorded : JournalRecordKind

pub data FsyncPolicy : Type 0 where
  durable buffered : FsyncPolicy

Kind-discrete : Discrete JournalRecordKind
Kind-discrete = hlevel

-- `==` on kinds.
unfoldable pub kind_eq : JournalRecordKind → JournalRecordKind → Bool
unfolding Kind-discrete
kind_eq a b = elim (Kind-discrete a b) [ yes e ↦ true | no ne ↦ false ]

unfoldable pub policy_name : FsyncPolicy → Text
policy_name durable = str "durable"
policy_name buffered = str "buffered"

unfoldable pub parse_policy : Text → Option FsyncPolicy
parse_policy t =
    if bytes_eq t (str "durable")
    then some durable
    else if bytes_eq t (str "buffered")
    then some buffered
    else none

unfoldable pub policy_eq : FsyncPolicy → FsyncPolicy → Bool
policy_eq durable durable = true
policy_eq buffered buffered = true
policy_eq _ _ = false

pub policy_eq_sound : (a b : FsyncPolicy) → policy_eq a b ≡ true → a ≡ b
unfolding policy_eq
policy_eq_sound a b h = ground arith

pub policy_eq_refl : (a : FsyncPolicy) → policy_eq a a ≡ true
unfolding policy_eq
policy_eq_refl durable = refl
policy_eq_refl buffered = refl

-- The policy is a function of the kind.
unfoldable pub fsync_policy : JournalRecordKind → FsyncPolicy
fsync_policy preflight_observed = buffered
fsync_policy step_admission_requested = buffered
fsync_policy transport_evidence_recorded = buffered
fsync_policy rebind_observed = buffered
fsync_policy read_only_observation_recorded = buffered
fsync_policy _ = durable

unfoldable pub kind_name : JournalRecordKind → Text
kind_name plan_stored = str "planStored"
kind_name job_created = str "jobCreated"
kind_name local_executor_lease_acquired = str "localExecutorLeaseAcquired"
kind_name preflight_observed = str "preflightObserved"
kind_name step_admission_requested = str "stepAdmissionRequested"
kind_name step_permit_accepted = str "stepPermitAccepted"
kind_name step_intent_recorded = str "stepIntentRecorded"
kind_name permit_consuming = str "permitConsuming"
kind_name external_dispatch_started = str "externalDispatchStarted"
kind_name transport_evidence_recorded = str "transportEvidenceRecorded"
kind_name semantic_receipt_recorded = str "semanticReceiptRecorded"
kind_name permit_consumed = str "permitConsumed"
kind_name step_checkpointed = str "stepCheckpointed"
kind_name rebind_observed = str "rebindObserved"
kind_name cancellation_requested = str "cancellationRequested"
kind_name postflight_recorded = str "postflightRecorded"
kind_name outcome_classified = str "outcomeClassified"
kind_name possible_effect_set_recorded = str "possibleEffectSetRecorded"
kind_name recovery_assessment_published = str "recoveryAssessmentPublished"
kind_name recovery_guide_published = str "recoveryGuidePublished"
kind_name read_only_observation_recorded = str "readOnlyObservationRecorded"

-- `JournalRecordKind::ALL`.
unfoldable pub all_kinds : List JournalRecordKind
all_kinds =
    plan_stored ∷ job_created ∷ local_executor_lease_acquired ∷ preflight_observed
    ∷ step_admission_requested ∷ step_permit_accepted ∷ step_intent_recorded ∷ permit_consuming
    ∷ external_dispatch_started ∷ transport_evidence_recorded ∷ semantic_receipt_recorded
    ∷ permit_consumed ∷ step_checkpointed ∷ rebind_observed ∷ cancellation_requested
    ∷ postflight_recorded ∷ outcome_classified ∷ possible_effect_set_recorded
    ∷ recovery_assessment_published ∷ recovery_guide_published ∷ read_only_observation_recorded ∷ []

unfoldable pub find_kind : Text → List JournalRecordKind → Option JournalRecordKind
find_kind t [] = none
find_kind t (k ∷ ks) =
    let rest = find_kind t ks in if bytes_eq (kind_name k) t then some k else rest

unfoldable pub parse_kind : Text → Option JournalRecordKind
parse_kind t = find_kind t all_kinds

find_kind-name :
    (t : Text) (ks : List JournalRecordKind) (k : JournalRecordKind)
    → find_kind t ks ≡ some k
    → kind_name k ≡ t
unfolding find_kind
find_kind-name t [] k h = cc
find_kind-name t (j ∷ ks) k h = elim (Bool-cases (bytes_eq (kind_name j) t)) [
  | inl e ↦ ground (arith, bytes_eq_iff (kind_name j) t)
  | inr e ↦ find_kind-name t ks k (rw e at h)
]

parse_kind-name : (k : JournalRecordKind) → parse_kind (kind_name k) ≡ some k
unfolding parse_kind find_kind all_kinds kind_name bytes_eq
parse_kind-name plan_stored = refl
parse_kind-name _ = refl

-- A text is read as a kind exactly when it is the name of that kind: names are distinct, all 21
-- are known, and no other text is accepted.
pub parse_kind_iff :
    (t : Text) (k : JournalRecordKind) → (parse_kind t ≡ some k) ↔ (kind_name k ≡ t)
unfolding parse_kind
parse_kind_iff t k = (
  λ h. find_kind-name t all_kinds k h,
  λ e. subst (λ u. parse_kind u ≡ some k) e (parse_kind-name k),
)
