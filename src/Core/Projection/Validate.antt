-- ===== src/Core/Projection/Validate.antt =====
-- `validate_projection`.
use ark_forge.Prelude.{
  Text, bytes_eq, Bool, true, false, not, ◌&&◌, Option, none, some, List, [], ◌∷◌, ◌++◌, any,
  is_empty, leb, Result, ok, err, ◌>>=◌, ensure, ok_or, map_err, Stop, refused, if◌then◌else◌,
}
use ark_forge.Core.Cbor.{array}
use ark_forge.Core.Cbor.Encode.{encode}
use ark_forge.Core.Digest.{
  digest_in_domain, digest_ordered, provider_execution_plan, public_projection,
}
use ark_forge.Core.Digest.Sha256.{Digest}
use ark_forge.Core.Effect.{EffectSet}
use ark_forge.Core.Effect.Shape.{collect_cbor}
use ark_forge.Core.Step.{
  PublicFlashStep, WorkflowEffect, read_only, severity, SemanticTarget, target_eq, is_present,
  validate_self_consistent,
}
use ark_forge.Core.Projection.{
  PrivateActionRole, primary_effect, read_only_transport_sub_action, PrivateActionRecord,
  action_digest, StoredProviderPlan, ActionDigestBinding, binding_shape, ProjectionDigests,
  ProjectionError, primary_of, empty_plan, duplicate_step_id, duplicate_action_id,
  action_without_public_step, multiple_primary_actions, step_without_primary_action,
  sub_action_not_read_only, step_action_digest_mismatch, private_effect_exceeds_public,
  private_target_outside_public_target, content_digest_mismatch,
  private_action_missing_content_digest, step_error, cbor_error,
}
use ark_forge.Core.Projection.Coverage.{validate_effect_coverage}

unfoldable pub is_primary : PrivateActionRole → Bool
is_primary primary_effect = true
is_primary read_only_transport_sub_action = false

unfoldable pub is_read_only : WorkflowEffect → Bool
is_read_only read_only = true
is_read_only _ = false

-- The loop over the steps; `seen` is the set of the ids before.
unfoldable pub check_steps : List Text → List PublicFlashStep → Result ProjectionError (Unit {0})
check_steps seen [] = ok tt
check_steps seen (s ∷ steps) =
    ensure (not (any (bytes_eq s.step_id) seen)) (duplicate_step_id s.step_id) >>= λ _.
    map_err step_error (validate_self_consistent s) >>= λ _. check_steps (s.step_id ∷ seen) steps

unfoldable pub step_ids : List PublicFlashStep → List Text
step_ids [] = []
step_ids (s ∷ steps) = s.step_id ∷ step_ids steps

unfoldable pub check_actions :
    List Text → List Text → List PrivateActionRecord → Result ProjectionError (Unit {0})
check_actions steps seen [] = ok tt
check_actions steps seen (a ∷ actions) =
    ensure (not (any (bytes_eq a.action_id) seen)) (duplicate_action_id a.action_id) >>= λ _.
    ensure (any (bytes_eq a.step_id) steps) (action_without_public_step a.action_id a.step_id)
    >>= λ _. check_actions steps (a.action_id ∷ seen) actions

-- One action: a primary joins the map, unless its step has one; another has to be read-only.
unfoldable pub add_primary :
    List PrivateActionRecord
    → PrivateActionRecord
    → PrivateActionRole
    → Result ProjectionError (List PrivateActionRecord)
add_primary primaries a primary_effect =
    ensure (not (is_present (primary_of primaries a.step_id))) (multiple_primary_actions a.step_id)
    >>= λ _. ok (a ∷ primaries)
add_primary primaries a read_only_transport_sub_action =
    ensure (is_read_only a.effect_class) (sub_action_not_read_only a.action_id a.effect_class)
    >>= λ _. ok primaries

unfoldable pub collect_primaries :
    List PrivateActionRecord
    → List PrivateActionRecord
    → Result ProjectionError (List PrivateActionRecord)
collect_primaries primaries [] = ok primaries
collect_primaries primaries (a ∷ actions) =
    add_primary primaries a a.role >>= λ more. collect_primaries more actions

-- The private target, where there is one, has to be the public one.
unfoldable pub target_within : Option SemanticTarget → Option SemanticTarget → Bool
target_within none public_target = true
target_within (some private_target) (some public_target) = target_eq public_target private_target
target_within (some private_target) none = false

unfoldable pub check_content :
    Text → Text → Option Digest → Option Digest → Result ProjectionError (Unit {0})
check_content step action (some declared) (some bound) =
    ensure (bytes_eq declared bound) (content_digest_mismatch step declared bound)
check_content step action (some declared) none =
    err (private_action_missing_content_digest step action)
check_content step action none bound = ok tt

-- A step against its primary action: the digest that binds them is returned.
unfoldable pub check_primary : PublicFlashStep → PrivateActionRecord → Result ProjectionError Digest
check_primary s primary = map_err cbor_error (action_digest primary) >>= λ digest.
    ensure (bytes_eq digest s.private_action_digest)
      (step_action_digest_mismatch s.step_id s.private_action_digest digest)
    >>= λ _.
        ensure (leb (severity primary.effect_class) (severity s.effect))
          (private_effect_exceeds_public s.step_id primary.effect_class s.effect)
        >>= λ _.
            ensure (target_within primary.declared_target s.semantic_target)
              (private_target_outside_public_target s.step_id primary.action_id)
            >>= λ _.
                check_content s.step_id primary.action_id s.content_digest primary.content_digest
                >>= λ _. ok digest

unfoldable pub bind_others :
    Text → List PrivateActionRecord → Result ProjectionError (List ActionDigestBinding)
bind_others step_id [] = ok []
bind_others step_id (a ∷ actions) =
    let rest = bind_others step_id actions in
    if bytes_eq a.step_id step_id && not (is_primary a.role)
    then (map_err cbor_error (action_digest a) >>= λ digest. rest >>= λ more. ok (
        record {
          step_id = step_id;
          action_id = a.action_id;
          role = a.role;
          private_action_digest = digest;
        }
        ∷ more))
    else rest

unfoldable pub bind_step :
    List PrivateActionRecord
    → StoredProviderPlan
    → PublicFlashStep
    → Result ProjectionError (List ActionDigestBinding)
bind_step primaries plan s =
    ok_or (primary_of primaries s.step_id) (step_without_primary_action s.step_id) >>= λ primary.
    check_primary s primary >>= λ digest. bind_others s.step_id plan.actions >>= λ others. ok (
      record {
        step_id = s.step_id;
        action_id = primary.action_id;
        role = primary_effect;
        private_action_digest = digest;
      }
      ∷ others)

unfoldable pub bind_steps :
    List PrivateActionRecord
    → StoredProviderPlan
    → List PublicFlashStep
    → Result ProjectionError (List ActionDigestBinding)
bind_steps primaries plan [] = ok []
bind_steps primaries plan (s ∷ steps) = bind_step primaries plan s >>= λ bound.
    bind_steps primaries plan steps >>= λ more. ok (bound ++ more)

unfoldable pub digests_of : List ActionDigestBinding → List Digest
digests_of [] = []
digests_of (b ∷ bindings) = b.private_action_digest ∷ digests_of bindings

unfoldable pub seal : List ActionDigestBinding → Result ProjectionError ProjectionDigests
seal per_action =
    map_err cbor_error (encode (array (collect_cbor binding_shape per_action))) >>= λ mapping.
    ok (record {
      per_action = per_action;
      provider_execution_plan_digest =
          digest_ordered provider_execution_plan (digests_of per_action);
      public_projection_digest = digest_in_domain public_projection mapping;
    })

-- What can only refuse, and no process aborts in.
abbrev pub or_refuse : {A : Type 0} → Result ProjectionError A → Result (Stop ProjectionError) A
or_refuse answer = map_err refused answer

unfoldable pub validate_projection :
    List PublicFlashStep
    → StoredProviderPlan
    → EffectSet
    → Result (Stop ProjectionError) ProjectionDigests
validate_projection steps plan effects = ensure (not (is_empty steps)) (refused empty_plan) >>= λ _.
    or_refuse (check_steps [] steps) >>= λ _.
    or_refuse (check_actions (step_ids steps) [] plan.actions) >>= λ _.
    or_refuse (collect_primaries [] plan.actions) >>= λ primaries.
    or_refuse (bind_steps primaries plan steps) >>= λ per_action.
    validate_effect_coverage primaries steps effects >>= λ _. or_refuse (seal per_action)
