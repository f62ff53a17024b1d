-- ===== src/Engine/Superseding.antt =====
-- crates/arkforge-engine/src/superseding.rs: what unresolved actions may have done, what read-only
-- observations settle, and whether a superseding plan could be offered.
pub mod Conservative
pub mod Lasting
pub mod Eligible
pub mod Reconciled
use ark_forge.Prelude.{
  ℕ, suc, ◌-◌, Text, str, bytes_eq, Bool, true, false, not, ◌&&◌, Option, none, some, List, [], ◌∷◌,
  ◌++◌, map, any, is_empty, length, ◌==◌, if◌then◌else◌,
}
use ark_forge.Core.Digest.Sha256.{Digest}
use ark_forge.Core.Ids.{OpaqueId}
use ark_forge.Core.Effect.{
  ByteRange, PersistentEffect, erase_partition, write_partition, write_raw_region, effect_partition,
  effect_eq, DataImpact, all_preserved, EffectSet,
}
use ark_forge.Core.Step.{
  WorkflowEffect, read_only, transient, mutating, destructive, SemanticTarget, partition_target,
  raw_region_target,
}
use ark_forge.Core.Projection.{PrivateActionRecord, StoredProviderPlan}
use ark_forge.Engine.Journal.{Journal, JournalRecord, Facts}
use ark_forge.Engine.Recovery.{from_records, unresolved, fact_value, permit_id_key, step_id_key}

-- crates/arkforge-authority-api/src/lib.rs.
pub data EffectSetCompleteness : Type 0 where
  bounded unbounded : EffectSetCompleteness

pub record PossibleEffectSet : Type 0 where
  pub effects : EffectSet
  pub completeness : EffectSetCompleteness
  pub source_action_ids : List OpaqueId

pub data EffectBound : Type 0 where
  no_effect unbounded_effect : EffectBound
  persistent_effect : PersistentEffect → EffectBound

-- The destructive arm of `effect_of`.
unfoldable pub destructive_effect :
    Option SemanticTarget → Option ByteRange → Option Digest → EffectBound
destructive_effect (some (partition_target partition)) (some range) (some content) =
    persistent_effect (write_partition partition range content)
destructive_effect (some (partition_target partition)) (some range) none =
    persistent_effect (erase_partition partition range)
destructive_effect (some (raw_region_target region)) (some range) (some content) =
    persistent_effect (write_raw_region region range content)
destructive_effect (some (raw_region_target region)) (some range) none = unbounded_effect
destructive_effect _ _ _ = unbounded_effect

unfoldable pub effect_of_class :
    WorkflowEffect → Option SemanticTarget → Option ByteRange → Option Digest → EffectBound
effect_of_class read_only target range content = no_effect
effect_of_class transient target range content = no_effect
effect_of_class mutating target range content = no_effect
effect_of_class destructive target range content = destructive_effect target range content

unfoldable pub effect_of : PrivateActionRecord → EffectBound
effect_of a = effect_of_class a.effect_class a.declared_target a.declared_range a.content_digest

-- `.any(|(key, value)| key == PERMIT_ID && value == permit_id)`.
unfoldable pub names_permit_id : Text → Facts → Bool
names_permit_id permit_id [] = false
names_permit_id permit_id ((k, v) ∷ facts) =
    let rest = names_permit_id permit_id facts in
    if bytes_eq k permit_id_key && bytes_eq v permit_id then true else rest

unfoldable pub or_next : Option Text → Option Text → Option Text
or_next (some t) next = some t
or_next none next = next

-- `find_map`: a record of the permit without a step is passed over.
unfoldable pub step_for_permit : List JournalRecord → Text → Option Text
step_for_permit [] permit_id = none
step_for_permit (r ∷ rs) permit_id =
    let rest = step_for_permit rs permit_id in
    if names_permit_id permit_id r.facts
    then or_next (fact_value r.facts step_id_key) rest
    else rest

unfoldable pub actions_of : Text → List PrivateActionRecord → List PrivateActionRecord
actions_of step_id [] = []
actions_of step_id (a ∷ actions) =
    let rest = actions_of step_id actions in if bytes_eq a.step_id step_id then a ∷ rest else rest

-- The three variables of the loops.
pub record Union : Type 0 where
  pub persistent : List PersistentEffect
  pub source_action_ids : List OpaqueId
  pub completeness : EffectSetCompleteness

unfoldable pub add_effect : EffectBound → Union → Union
add_effect no_effect u = u
add_effect (persistent_effect e) u =
    if any (effect_eq e) u.persistent
    then u
    else record (u) { persistent = u.persistent ++ (e ∷ []) }
add_effect unbounded_effect u = record (u) { completeness = unbounded }

unfoldable pub add_action : Union → PrivateActionRecord → Union
add_action u a =
    add_effect (effect_of a)
      (record (u) { source_action_ids = u.source_action_ids ++ (a.action_id ∷ []) })

unfoldable pub add_actions : Union → List PrivateActionRecord → Union
add_actions u [] = u
add_actions u (a ∷ actions) = add_actions (add_action u a) actions

-- The body of the outer loop: an unknown step, or one without actions, cannot be bounded.
unfoldable pub add_step : Union → List PrivateActionRecord → Union
add_step u [] = record (u) { completeness = unbounded }
add_step u (a ∷ actions) = add_actions u (a ∷ actions)

unfoldable pub add_permit : StoredProviderPlan → Union → Option Text → Union
add_permit plan u none = record (u) { completeness = unbounded }
add_permit plan u (some step_id) = add_step u (actions_of step_id plan.actions)

unfoldable pub add_permits : List JournalRecord → StoredProviderPlan → Union → List Text → Union
add_permits records plan u [] = u
add_permits records plan u (permit_id ∷ permits) =
    add_permits records plan (add_permit plan u (step_for_permit records permit_id)) permits

unfoldable pub is_bounded : EffectSetCompleteness → Bool
is_bounded bounded = true
is_bounded unbounded = false

unfoldable pub union_of : Journal → StoredProviderPlan → Union
union_of j plan =
    add_permits j.records plan
      (record { persistent = []; source_action_ids = []; completeness = bounded })
      (unresolved (from_records j.records))

unfoldable pub possible_effects : Journal → StoredProviderPlan → DataImpact → PossibleEffectSet
possible_effects j plan declared =
    let u = union_of j plan in
    record {
      effects = record {
        persistent = u.persistent;
        transient = [];
        data_impact =
            if is_empty u.persistent && is_bounded u.completeness then all_preserved else declared;
      };
      completeness = u.completeness;
      source_action_ids = u.source_action_ids;
    }

-- The two texts that the source gives as a reason; the second spells the two counts.
pub data UnknownReason : Type 0 where
  nothing_observed : UnknownReason
  not_observable : (indeterminate total : ℕ) → UnknownReason

pub data ReconcileVerdict : Type 0 where
  succeeded confirmed_not_executed : ReconcileVerdict
  confirmed_partial : (present absent : ℕ) → ReconcileVerdict
  still_unknown : UnknownReason → ReconcileVerdict

pub data EffectObservation : Type 0 where
  present absent indeterminate : EffectObservation

abbrev pub Observations : Type 0
Observations = List (PersistentEffect × EffectObservation)

unfoldable pub is_seen : EffectObservation → Bool
is_seen present = true
is_seen _ = false

unfoldable pub is_indeterminate : EffectObservation → Bool
is_indeterminate indeterminate = true
is_indeterminate _ = false

-- `.filter(…).count()`.
unfoldable pub count_by : (EffectObservation → Bool) → Observations → ℕ
count_by p [] = 0
count_by p ((e, o) ∷ os) = let rest = count_by p os in if p o then suc rest else rest

-- The `match (present, absent)`.
unfoldable pub verdict : ℕ → ℕ → ReconcileVerdict
verdict seen missing =
    if missing == 0
    then succeeded
    else if seen == 0
    then confirmed_not_executed
    else confirmed_partial seen missing

unfoldable pub reconcile : Observations → ReconcileVerdict
reconcile os =
    let seen = count_by is_seen os in
    let unclear = count_by is_indeterminate os in
    if is_empty os
    then still_unknown nothing_observed
    else if not (unclear == 0)
    then still_unknown (not_observable unclear (length os))
    else verdict seen (length os - seen)

-- crates/arkforge-core/src/profile.rs; its version plays no part here.
pub record RecoveryDeclaration : Type 0 where
  pub supports_complete_overwrite : Bool
  pub covered_effects : List OpaqueId
  pub unsupported_states : List Text

pub data RecoveryBlocker : Type 0 where
  effects_unbounded nothing_to_recover : RecoveryBlocker
  no_published_coverage : (unsupported_states : List Text) → RecoveryBlocker
  effect_outside_coverage : (effects : List Text) → RecoveryBlocker

pub data SupersedingRecoveryAssessment : Type 0 where
  eligible : (covers : List PersistentEffect) → SupersedingRecoveryAssessment
  ineligible : RecoveryBlocker → SupersedingRecoveryAssessment

unfoldable pub covered_by : Option OpaqueId → RecoveryDeclaration → Bool
covered_by none recovery = false
covered_by (some partition) recovery = any (λ c. bytes_eq c partition) recovery.covered_effects

unfoldable pub covered : RecoveryDeclaration → PersistentEffect → Bool
covered recovery e = covered_by (effect_partition e) recovery

unfoldable pub describe_by : Option OpaqueId → Text
describe_by (some partition) = partition
describe_by none = str "<non-partition effect>"

unfoldable pub describe_effect : PersistentEffect → Text
describe_effect e = describe_by (effect_partition e)

unfoldable pub uncovered : RecoveryDeclaration → List PersistentEffect → List Text
uncovered recovery [] = []
uncovered recovery (e ∷ es) =
    let rest = uncovered recovery es in
    if covered recovery e then rest else describe_effect e ∷ rest

unfoldable pub assess_superseding_recovery :
    PossibleEffectSet → RecoveryDeclaration → SupersedingRecoveryAssessment
assess_superseding_recovery possible recovery =
    let outside = uncovered recovery possible.effects.persistent in
    if not (is_bounded possible.completeness)
    then ineligible effects_unbounded
    else if is_empty possible.effects.persistent
    then ineligible nothing_to_recover
    else if not recovery.supports_complete_overwrite
    then ineligible (no_published_coverage recovery.unsupported_states)
    else if not (is_empty outside)
    then ineligible (effect_outside_coverage outside)
    else eligible possible.effects.persistent

unfoldable pub blocker_id : RecoveryBlocker → OpaqueId
blocker_id effects_unbounded = str "REC-B01"
blocker_id (no_published_coverage unsupported_states) = str "REC-B02"
blocker_id (effect_outside_coverage effects) = str "REC-B03"
blocker_id nothing_to_recover = str "REC-B04"
