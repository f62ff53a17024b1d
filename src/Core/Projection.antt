-- ===== src/Core/Projection.antt =====
-- crates/arkforge-core/src/projection.rs: the private actions behind the public steps.
pub mod Coverage
pub mod Validate
pub mod Primaries
pub mod Bound
pub mod Deeds
pub mod Claimed
use ark_forge.Prelude.{
  ℕ, bytes_eq, if◌then◌else◌, Text, str, Option, none, some, List, [], ◌∷◌, Result,
}
use ark_forge.Core.Cbor.{CborValue, CborError, text, bytes}
use ark_forge.Core.Binding.{cbor_map}
use ark_forge.Core.Digest.{digest_canonical, private_action}
use ark_forge.Core.Digest.Sha256.{Digest}
use ark_forge.Core.Effect.{ByteRange}
use ark_forge.Core.Effect.Shape.{range_cbor}
use ark_forge.Core.Ids.{OpaqueId}
use ark_forge.Core.Step.{
  WorkflowEffect, workflow_name, FlashStepKind, PublicStepError, SemanticTarget, target_cbor,
  optional_cbor,
}

pub data PrivateActionRole : Type 0 where
  primary_effect read_only_transport_sub_action : PrivateActionRole

unfoldable pub role_name : PrivateActionRole → Text
role_name primary_effect = str "primaryEffect"
role_name read_only_transport_sub_action = str "readOnlyTransportSubAction"

pub record PrivateActionRecord : Type 0 where
  pub action_id : OpaqueId
  pub step_id : OpaqueId
  pub role : PrivateActionRole
  pub effect_class : WorkflowEffect
  pub declared_target : Option SemanticTarget
  pub declared_range : Option ByteRange
  pub content_digest : Option Digest
  pub body : CborValue

unfoldable pub action_cbor : PrivateActionRecord → CborValue
action_cbor a = cbor_map (
    ("actionId", text a.action_id)
    ∷ ("stepId", text a.step_id)
    ∷ ("role", text (role_name a.role))
    ∷ ("effectClass", text (workflow_name a.effect_class))
    ∷ ("declaredTarget", optional_cbor target_cbor a.declared_target)
    ∷ ("declaredRange", optional_cbor range_cbor a.declared_range)
    ∷ ("contentDigest", optional_cbor bytes a.content_digest)
    ∷ ("body", a.body)
    ∷ [])

-- `PrivateActionRecord::digest`.
unfoldable pub action_digest : PrivateActionRecord → Result CborError Digest
action_digest a = digest_canonical private_action (action_cbor a)

pub record StoredProviderPlan : Type 0 where
  pub actions : List PrivateActionRecord

pub record ActionDigestBinding : Type 0 where
  pub step_id : OpaqueId
  pub action_id : OpaqueId
  pub role : PrivateActionRole
  pub private_action_digest : Digest

unfoldable pub binding_shape : ActionDigestBinding → CborValue
binding_shape b = cbor_map (
    ("stepId", text b.step_id)
    ∷ ("actionId", text b.action_id)
    ∷ ("role", text (role_name b.role))
    ∷ ("privateActionDigest", bytes b.private_action_digest)
    ∷ [])

pub record ProjectionDigests : Type 0 where
  pub per_action : List ActionDigestBinding
  pub provider_execution_plan_digest : Digest
  pub public_projection_digest : Digest

pub data ProjectionError : Type 0 where
  empty_plan : ProjectionError
  duplicate_step_id duplicate_action_id : Text → ProjectionError
  action_without_public_step : (action step : Text) → ProjectionError
  multiple_primary_actions step_without_primary_action : Text → ProjectionError
  sub_action_not_read_only : (action : Text) → WorkflowEffect → ProjectionError
  step_action_digest_mismatch : (step : Text) → (declared computed : Digest) → ProjectionError
  private_effect_exceeds_public :
      (step : Text) → (private_effect public_effect : WorkflowEffect) → ProjectionError
  private_target_outside_public_target : (step action : Text) → ProjectionError
  content_digest_mismatch : (step : Text) → (declared bound : Digest) → ProjectionError
  private_action_missing_content_digest : (step action : Text) → ProjectionError
  effectful_step_without_target : Text → ProjectionError
  step_effect_not_declared : (step : Text) → FlashStepKind → ProjectionError
  unclaimed_persistent_effect unclaimed_transient_effect : ℕ → ProjectionError
  step_error : PublicStepError → ProjectionError
  cbor_error : CborError → ProjectionError

-- `primary_by_step`, a `BTreeMap` that only ever gains new keys, is the list of its actions.
unfoldable pub primary_of : List PrivateActionRecord → Text → Option PrivateActionRecord
primary_of [] step_id = none
primary_of (a ∷ primaries) step_id =
    let rest = primary_of primaries step_id in if bytes_eq a.step_id step_id then some a else rest
