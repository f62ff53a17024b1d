-- ===== src/Core/Step.antt =====
-- crates/arkforge-core/src/step.rs: the vocabulary of public steps.
use native.Mathlib.Decide.{ℕ_discrete}
use ark_forge.Prelude.{
  ◌≡◌, ℕ, Text, str, bytes_eq, Bool, true, false, ◌&&◌, not, Option, none, some, List, [], ◌∷◌, ltb,
  leb, Result, ◌>>=◌, ensure, if◌then◌else◌,
}
use ark_forge.Core.Cbor.{CborValue, CborError, text, bytes, null}
use ark_forge.Core.Binding.{cbor_map}
use ark_forge.Core.Digest.{digest_canonical, public_step}
use ark_forge.Core.Digest.Sha256.{Digest}
use ark_forge.Core.Effect.{BootMetadataField, field_name, DeviceMode, is_yes, is_yes_sound}
use ark_forge.Core.Ids.{OpaqueId}

pub data FlashStepKind : Type 0 where
  ensure_mode probe_device validate_layout load_ephemeral_agent erase_target : FlashStepKind
  write_target verify_target await_rebind reboot postflight_probe : FlashStepKind

unfoldable pub step_kind_name : FlashStepKind → Text
step_kind_name ensure_mode = str "ensureMode"
step_kind_name probe_device = str "probeDevice"
step_kind_name validate_layout = str "validateLayout"
step_kind_name load_ephemeral_agent = str "loadEphemeralAgent"
step_kind_name erase_target = str "eraseTarget"
step_kind_name write_target = str "writeTarget"
step_kind_name verify_target = str "verifyTarget"
step_kind_name await_rebind = str "awaitRebind"
step_kind_name reboot = str "reboot"
step_kind_name postflight_probe = str "postflightProbe"

-- `FlashStepKind::ALL`.
unfoldable pub all_step_kinds : List FlashStepKind
all_step_kinds =
    ensure_mode ∷ probe_device ∷ validate_layout ∷ load_ephemeral_agent ∷ erase_target
    ∷ write_target ∷ verify_target ∷ await_rebind ∷ reboot ∷ postflight_probe ∷ []

unfoldable pub find_step_kind : Text → List FlashStepKind → Option FlashStepKind
find_step_kind t [] = none
find_step_kind t (k ∷ ks) =
    let rest = find_step_kind t ks in if bytes_eq (step_kind_name k) t then some k else rest

unfoldable pub parse_step_kind : Text → Option FlashStepKind
parse_step_kind t = find_step_kind t all_step_kinds

pub data WorkflowEffect : Type 0 where
  read_only transient mutating destructive : WorkflowEffect

-- The derived order.
unfoldable pub severity : WorkflowEffect → ℕ
severity read_only = 0
severity transient = 1
severity mutating = 2
severity destructive = 3

unfoldable pub workflow_name : WorkflowEffect → Text
workflow_name read_only = str "readOnly"
workflow_name transient = str "transient"
workflow_name mutating = str "mutating"
workflow_name destructive = str "destructive"

unfoldable pub parse_workflow : Text → Option WorkflowEffect
parse_workflow t =
    if bytes_eq t (str "readOnly")
    then some read_only
    else if bytes_eq t (str "transient")
    then some transient
    else if bytes_eq t (str "mutating")
    then some mutating
    else if bytes_eq t (str "destructive")
    then some destructive
    else none

-- `self >= WorkflowEffect::Mutating`.
unfoldable pub requires_permit : WorkflowEffect → Bool
requires_permit e = leb (severity mutating) (severity e)

unfoldable pub minimum_effect : FlashStepKind → WorkflowEffect
minimum_effect ensure_mode = transient
minimum_effect load_ephemeral_agent = transient
minimum_effect reboot = transient
minimum_effect erase_target = destructive
minimum_effect write_target = destructive
minimum_effect _ = read_only

pub data CancellationPolicy : Type 0 where
  non_interruptible cancellable_at_boundary cancellable_immediately : CancellationPolicy

unfoldable pub cancellation_name : CancellationPolicy → Text
cancellation_name non_interruptible = str "nonInterruptible"
cancellation_name cancellable_at_boundary = str "cancellableAtBoundary"
cancellation_name cancellable_immediately = str "cancellableImmediately"

unfoldable pub parse_cancellation : Text → Option CancellationPolicy
parse_cancellation t =
    if bytes_eq t (str "nonInterruptible")
    then some non_interruptible
    else if bytes_eq t (str "cancellableAtBoundary")
    then some cancellable_at_boundary
    else if bytes_eq t (str "cancellableImmediately")
    then some cancellable_immediately
    else none

pub data BindingRequirement : Type 0 where
  exact_bound_target exact_bound_target_with_mode_lineage : BindingRequirement

unfoldable pub requirement_name : BindingRequirement → Text
requirement_name exact_bound_target = str "exactBoundTarget"
requirement_name exact_bound_target_with_mode_lineage = str "exactBoundTargetWithModeLineage"

unfoldable pub parse_requirement : Text → Option BindingRequirement
parse_requirement t =
    if bytes_eq t (str "exactBoundTarget")
    then some exact_bound_target
    else if bytes_eq t (str "exactBoundTargetWithModeLineage")
    then some exact_bound_target_with_mode_lineage
    else none

pub data SemanticTarget : Type 0 where
  partition_target raw_region_target : OpaqueId → SemanticTarget
  boot_metadata_target : BootMetadataField → SemanticTarget
  device_target : SemanticTarget

SemanticTarget-discrete : Discrete SemanticTarget
SemanticTarget-discrete = hlevel (ℕ_discrete)

-- `==` on targets.
unfoldable pub target_eq : SemanticTarget → SemanticTarget → Bool
unfolding SemanticTarget-discrete
target_eq a b = is_yes (SemanticTarget-discrete a b)

pub target_eq_sound : (a b : SemanticTarget) → target_eq a b ≡ true → a ≡ b
unfolding target_eq
target_eq_sound a b h = is_yes_sound (SemanticTarget-discrete a b) h

unfoldable pub target_cbor : SemanticTarget → CborValue
target_cbor (partition_target id) = cbor_map (("partition", text id) ∷ [])
target_cbor (raw_region_target id) = cbor_map (("rawRegion", text id) ∷ [])
target_cbor (boot_metadata_target field) = cbor_map (("bootMetadata", text (field_name field)) ∷ [])
target_cbor device_target = cbor_map (("device", null) ∷ [])

pub record PublicFlashStep : Type 0 where
  pub step_id : OpaqueId
  pub kind : FlashStepKind
  pub effect : WorkflowEffect
  pub cancellation : CancellationPolicy
  pub requirement : BindingRequirement
  pub semantic_target : Option SemanticTarget
  pub content_digest : Option Digest
  pub expected_mode_before : Option DeviceMode
  pub expected_mode_after : Option DeviceMode
  pub private_action_digest : Digest

-- `Some(x) => x.to_cbor(), None => Null`.
unfoldable pub optional_cbor {ℓ} : {A : Type ℓ} → (A → CborValue) → Option A → CborValue
optional_cbor shape (some a) = shape a
optional_cbor shape none = null

unfoldable pub step_cbor : PublicFlashStep → CborValue
step_cbor s = cbor_map (
    ("stepId", text s.step_id)
    ∷ ("kind", text (step_kind_name s.kind))
    ∷ ("effect", text (workflow_name s.effect))
    ∷ ("cancellation", text (cancellation_name s.cancellation))
    ∷ ("binding", text (requirement_name s.requirement))
    ∷ ("privateActionDigest", bytes s.private_action_digest)
    ∷ ("semanticTarget", optional_cbor target_cbor s.semantic_target)
    ∷ ("contentDigest", optional_cbor bytes s.content_digest)
    ∷ ("expectedModeBefore", optional_cbor text s.expected_mode_before)
    ∷ ("expectedModeAfter", optional_cbor text s.expected_mode_after)
    ∷ [])

-- `PublicFlashStep::digest`.
unfoldable pub step_digest : PublicFlashStep → Result CborError Digest
step_digest s = digest_canonical public_step (step_cbor s)

pub data PublicStepError : Type 0 where
  effect_below_kind_minimum :
      (step : Text) → FlashStepKind → (declared minimum : WorkflowEffect) → PublicStepError
  write_without_content_digest : (step : Text) → PublicStepError
  targeted_step_without_target : (step : Text) → FlashStepKind → PublicStepError

unfoldable pub is_write : FlashStepKind → Bool
is_write write_target = true
is_write _ = false

unfoldable pub is_targeted : FlashStepKind → Bool
is_targeted write_target = true
is_targeted erase_target = true
is_targeted verify_target = true
is_targeted _ = false

unfoldable pub is_storage_target : Option SemanticTarget → Bool
is_storage_target (some (partition_target id)) = true
is_storage_target (some (raw_region_target id)) = true
is_storage_target _ = false

unfoldable pub is_present {ℓ} : {A : Type ℓ} → Option A → Bool
is_present (some a) = true
is_present none = false

unfoldable pub validate_self_consistent : PublicFlashStep → Result PublicStepError (Unit {0})
validate_self_consistent s =
    ensure (not (ltb (severity s.effect) (severity (minimum_effect s.kind))))
      (effect_below_kind_minimum s.step_id s.kind s.effect (minimum_effect s.kind))
    >>= λ _.
        ensure (not (is_write s.kind && not (is_present s.content_digest)))
          (write_without_content_digest s.step_id)
        >>= λ _.
            ensure (not (is_targeted s.kind && not (is_storage_target s.semantic_target)))
              (targeted_step_without_target s.step_id s.kind)
