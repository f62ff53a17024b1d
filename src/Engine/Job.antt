-- ===== src/Engine/Job.antt =====
-- crates/arkforge-engine/src/lib.rs: the states of a job and what may start it.
pub mod Lifecycle
use Prim.Native.String.{String}
use ark_forge.Prelude.{
  ℕ, Bytes, Text, str, bytes_eq, Bool, true, false, not, ◌||◌, Option, none, some, List, [], ◌∷◌,
  ◌++◌, is_empty, if◌then◌else◌, ◌≡◌,
}
use ark_forge.Core.Digest.Sha256.{Digest}
use ark_forge.Core.Ids.{OpaqueId}

pub data JobState : Type 0 where
  planned awaiting_start preflight awaiting_permit step_intent_durable dispatching : JobState
  receipt_durable checkpointed rebind_wait postflight succeeded confirmed_failed : JobState
  cancelled_safe outcome_unknown reconciling recovery_assessable : JobState

unfoldable pub state_name : JobState → Text
state_name planned = str "planned"
state_name awaiting_start = str "awaitingStart"
state_name preflight = str "preflight"
state_name awaiting_permit = str "awaitingPermit"
state_name step_intent_durable = str "stepIntentDurable"
state_name dispatching = str "dispatching"
state_name receipt_durable = str "receiptDurable"
state_name checkpointed = str "checkpointed"
state_name rebind_wait = str "rebindWait"
state_name postflight = str "postflight"
state_name succeeded = str "succeeded"
state_name confirmed_failed = str "confirmedFailed"
state_name cancelled_safe = str "cancelledSafe"
state_name outcome_unknown = str "outcomeUnknown"
state_name reconciling = str "reconciling"
state_name recovery_assessable = str "recoveryAssessable"

unfoldable pub is_terminal : JobState → Bool
is_terminal succeeded = true
is_terminal confirmed_failed = true
is_terminal cancelled_safe = true
is_terminal recovery_assessable = true
is_terminal _ = false

unfoldable pub permits_external_dispatch : JobState → Bool
permits_external_dispatch step_intent_durable = true
permits_external_dispatch _ = false

unfoldable pub may_transition_to : JobState → JobState → Bool
may_transition_to planned awaiting_start = true
may_transition_to awaiting_start preflight = true
may_transition_to preflight awaiting_permit = true
may_transition_to preflight cancelled_safe = true
may_transition_to awaiting_permit step_intent_durable = true
may_transition_to awaiting_permit cancelled_safe = true
may_transition_to step_intent_durable dispatching = true
may_transition_to step_intent_durable outcome_unknown = true
may_transition_to dispatching receipt_durable = true
may_transition_to dispatching cancelled_safe = true
may_transition_to dispatching outcome_unknown = true
may_transition_to receipt_durable checkpointed = true
may_transition_to receipt_durable outcome_unknown = true
may_transition_to checkpointed rebind_wait = true
may_transition_to checkpointed preflight = true
may_transition_to checkpointed postflight = true
may_transition_to checkpointed confirmed_failed = true
may_transition_to checkpointed cancelled_safe = true
may_transition_to rebind_wait preflight = true
may_transition_to rebind_wait cancelled_safe = true
may_transition_to rebind_wait outcome_unknown = true
may_transition_to postflight succeeded = true
may_transition_to postflight confirmed_failed = true
may_transition_to outcome_unknown reconciling = true
may_transition_to outcome_unknown recovery_assessable = true
may_transition_to reconciling succeeded = true
may_transition_to reconciling confirmed_failed = true
may_transition_to reconciling outcome_unknown = true
may_transition_to _ _ = false

-- A run of the lifecycle: each arrow is one the table allows.
pub data Reaches (start : JobState) : JobState → Type 0 where
  here : Reaches start start
  next : {s t : JobState} → Reaches start s → may_transition_to s t ≡ true → Reaches start t

pub record BoundToolchain : Type 0 where
  pub id : OpaqueId
  pub backend_digest : Digest

pub record ExecutionReadiness : Type 0 where
  pub authority_paired : Bool
  pub dispatcher : Option BoundToolchain

pub data ExecutionBlocker : Type 0 where
  no_paired_authority no_dispatcher : ExecutionBlocker
  toolchain_digest_mismatch : Digest → Digest → ExecutionBlocker

unfoldable pub standing_blockers : ExecutionReadiness → List ExecutionBlocker
standing_blockers ready =
    (if ready.authority_paired then [] else no_paired_authority ∷ [])
    ++ elim ready.dispatcher [ some bound ↦ [] | none ↦ no_dispatcher ∷ [] ]

unfoldable pub is_ready : ExecutionReadiness → Bool
is_ready ready = is_empty (standing_blockers ready)

-- For a plan that was materialized against the toolchain with the digest.
unfoldable pub blockers_for : ExecutionReadiness → Digest → List ExecutionBlocker
blockers_for ready plan_expects = standing_blockers ready ++ elim ready.dispatcher [
  | some bound ↦
      if bytes_eq bound.backend_digest plan_expects
      then []
      else toolchain_digest_mismatch plan_expects bound.backend_digest ∷ []
  | none ↦ []
]
