-- ===== src/Tests/Plans.antt =====
-- Effects, a projected plan and its recovery, at concrete inputs.
use ark_forge.Prelude.{
  Bool, ◌+◌, ℕ, Bytes, Text, str, Bool, true, false, Option, none, some, Result, ok, err, ◌≡◌, ◌≢◌,
  refl, List, [], ◌∷◌, ◌↔◌, All, replicate, arith, subst,
}
use ark_forge.Core.Cbor.{null}
use ark_forge.Core.Digest.Sha256.{Digest}
use ark_forge.Core.Ids.{OpaqueId}
use ark_forge.Core.Effect.{
  ByteRange, byte_range, end_exclusive, overlaps, contains_range, PersistentEffect, write_partition,
  erase_partition, TransientEffect, DataImpact, preserved, overwritten, EffectSet,
  validate_executable, effect_range,
}
use ark_forge.Core.Effect.Ranges.{IsRange, Within, byte_range-answers}
use ark_forge.Core.Effect.Executable.{IsSettled, AllApart, HasRange, validate_executable_iff}
use ark_forge.Core.Step.{
  PublicFlashStep, write_target, destructive, read_only, non_interruptible, exact_bound_target,
  partition_target,
}
use ark_forge.Core.Projection.{
  PrivateActionRecord, primary_effect, read_only_transport_sub_action, action_digest,
  StoredProviderPlan, ProjectionDigests,
}
use ark_forge.Core.Projection.Validate.{validate_projection, collect_primaries}
use ark_forge.Core.Projection.Bound.{IsBound, validate_projection-IsBound}
use ark_forge.Core.Projection.Claimed.{IsWritten, IsCaused, validate_projection-IsClaimed}
use ark_forge.Engine.Recovery.{from_records, unresolved, disposition, consuming_outcome_unknown}
use ark_forge.Engine.Superseding.{
  possible_effects, bounded, Observations, present, absent, reconcile, succeeded,
  confirmed_not_executed, RecoveryDeclaration, eligible, assess_superseding_recovery,
}
use ark_forge.Engine.Superseding.Lasting.{
  IsAccounted, IsUnsettled, begun, possible_effects-IsAccounted,
}
use ark_forge.Engine.Superseding.Eligible.{IsSuperseded, eligible-IsSuperseded}
use ark_forge.Engine.Superseding.Reconciled.{AllAre, reconcile_iff}
use ark_forge.Tests.Samples.{value, dispatched}

abbrev boot : OpaqueId
boot = str "boot"

abbrev first_range : ByteRange
first_range = record { start = 4096; length = 8192 }

abbrev second_range : ByteRange
second_range = record { start = 12288; length = 512 }

abbrev image : Digest
image = replicate 32 9

abbrev written : PersistentEffect
written = write_partition boot first_range image

abbrev impact : DataImpact
impact = record {
  userdata = overwritten;
  calibration = preserved;
  non_volatile_config = preserved;
  secure_storage = preserved;
}

abbrev effects : EffectSet
effects = record { persistent = written ∷ []; transient = []; data_impact = impact }

abbrev two_effects : EffectSet
two_effects = record {
  persistent = written ∷ erase_partition boot second_range ∷ [];
  transient = [];
  data_impact = impact;
}

abbrev flash : PrivateActionRecord
flash = record {
  action_id = str "action-1";
  step_id = str "step-1";
  role = primary_effect;
  effect_class = destructive;
  declared_target = some (partition_target boot);
  declared_range = some first_range;
  content_digest = some image;
  body = null;
}

abbrev poll : PrivateActionRecord
poll = record (flash) {
  action_id = str "action-2";
  role = read_only_transport_sub_action;
  effect_class = read_only;
  declared_target = none;
  declared_range = none;
  content_digest = none;
}

abbrev plan : StoredProviderPlan
plan = record { actions = flash ∷ poll ∷ [] }

abbrev flash_step : PublicFlashStep
flash_step = record {
  step_id = str "step-1";
  kind = write_target;
  effect = destructive;
  cancellation = non_interruptible;
  requirement = exact_bound_target;
  semantic_target = some (partition_target boot);
  content_digest = some image;
  expected_mode_before = none;
  expected_mode_after = none;
  private_action_digest = value [] (action_digest flash);
}

abbrev no_digests : ProjectionDigests
no_digests = record {
  per_action = [];
  provider_execution_plan_digest = [];
  public_projection_digest = [];
}

abbrev digests : ProjectionDigests
digests = value no_digests (validate_projection (flash_step ∷ []) plan effects)

abbrev coverage : RecoveryDeclaration
coverage = record {
  supports_complete_overwrite = true;
  covered_effects = boot ∷ [];
  unsupported_states = [];
}

record Runs : Type 0 where
  projected : validate_projection (flash_step ∷ []) plan effects ≡ ok digests
  assessed :
      assess_superseding_recovery (possible_effects dispatched.journal plan impact) coverage
      ≡ eligible (written ∷ [])
  complete : (possible_effects dispatched.journal plan impact).completeness ≡ bounded
  pending : unresolved (from_records dispatched.journal.records) ≡ str "permit-1" ∷ []
  first_made : byte_range 4096 8192 ≡ ok first_range
  second_made : byte_range second_range.start second_range.length ≡ ok second_range
  left_open :
      disposition (from_records dispatched.journal.records) (str "permit-1")
      ≡ consuming_outcome_unknown

runs : Runs
unfolding ark_forge.Core.Cbor.Encode.be16 ark_forge.Core.Cbor.Encode.be32
    ark_forge.Core.Cbor.Encode.be64 ark_forge.Core.Cbor.Encode.initial_byte
    ark_forge.Core.Cbor.Encode.encode_head ark_forge.Core.Cbor.Encode.insert_by_key
    ark_forge.Core.Cbor.Encode.sort_by_key ark_forge.Core.Cbor.Encode.check_keys
    ark_forge.Core.Cbor.Encode.concat_entries ark_forge.Core.Cbor.Encode.encode_map
    ark_forge.Core.Cbor.Encode.encode_negative ark_forge.Core.Cbor.Encode.encode_bool
    ark_forge.Core.Cbor.Encode.count_values ark_forge.Core.Cbor.Encode.encode
    ark_forge.Core.Cbor.Encode.encode_values ark_forge.Core.Cbor.Encode.encode_entries
    ark_forge.Core.Digest.domain_bytes ark_forge.Core.Digest.digest_in_domain
    ark_forge.Core.Digest.digest_canonical ark_forge.Core.Digest.update_all
    ark_forge.Core.Digest.digest_ordered ark_forge.Core.Digest.hmac_sha256
    ark_forge.Core.Digest.constant_time_eq ark_forge.Core.Digest.Sha256.compress
    ark_forge.Core.Digest.Sha256.new ark_forge.Core.Digest.Sha256.whole_blocks
    ark_forge.Core.Digest.Sha256.absorb ark_forge.Core.Digest.Sha256.fill
    ark_forge.Core.Digest.Sha256.update ark_forge.Core.Digest.Sha256.finalize
    ark_forge.Core.Digest.Sha256.sha256 ark_forge.Core.Digest.Hex.hex_nibble
    ark_forge.Core.Digest.Hex.to_hex ark_forge.Core.Digest.Hex.hex_value
    ark_forge.Core.Digest.Hex.parse_pairs ark_forge.Core.Digest.Hex.parse_hex
    ark_forge.Core.Ids.allowed ark_forge.Core.Ids.check_characters ark_forge.Core.Ids.opaque_id
    ark_forge.Core.Binding.cbor_map ark_forge.Core.Binding.binding_cbor
    ark_forge.Core.Binding.binding_eq ark_forge.Authority.permit_body
    ark_forge.Authority.signing_body ark_forge.Authority.compute ark_forge.Authority.check_context
    ark_forge.Authority.context_table ark_forge.Authority.check_dispatch
    ark_forge.Authority.verify_permit ark_forge.Authority.mint_integrity_tag
    ark_forge.Core.Effect.byte_range ark_forge.Core.Effect.end_exclusive
    ark_forge.Core.Effect.contains_range ark_forge.Core.Effect.overlaps
    ark_forge.Core.Effect.field_name ark_forge.Core.Effect.mode_characters
    ark_forge.Core.Effect.device_mode ark_forge.Core.Effect.agent_stage
    ark_forge.Core.Effect.effect_partition ark_forge.Core.Effect.effect_range
    ark_forge.Core.Effect.is_yes ark_forge.Core.Effect.effect_eq ark_forge.Core.Effect.impact_name
    ark_forge.Core.Effect.is_unknown ark_forge.Core.Effect.axis ark_forge.Core.Effect.unknown_axes
    ark_forge.Core.Effect.is_destructive ark_forge.Core.Effect.clash
    ark_forge.Core.Effect.check_pair ark_forge.Core.Effect.check_against
    ark_forge.Core.Effect.check_pairs ark_forge.Core.Effect.validate_executable
    ark_forge.Core.Effect.Shape.range_cbor ark_forge.Core.Effect.Shape.integer_cbor
    ark_forge.Core.Effect.Shape.typed_cbor ark_forge.Core.Effect.Shape.region_cbor
    ark_forge.Core.Effect.Shape.persistent_cbor ark_forge.Core.Effect.Shape.transient_cbor
    ark_forge.Core.Effect.Shape.impact_cbor ark_forge.Core.Effect.Shape.collect_cbor
    ark_forge.Core.Effect.Shape.effect_set_cbor ark_forge.Core.Effect.Shape.effect_set_digest
    ark_forge.Core.Step.step_kind_name ark_forge.Core.Step.all_step_kinds
    ark_forge.Core.Step.find_step_kind ark_forge.Core.Step.parse_step_kind
    ark_forge.Core.Step.severity ark_forge.Core.Step.workflow_name
    ark_forge.Core.Step.parse_workflow ark_forge.Core.Step.requires_permit
    ark_forge.Core.Step.minimum_effect ark_forge.Core.Step.cancellation_name
    ark_forge.Core.Step.parse_cancellation ark_forge.Core.Step.requirement_name
    ark_forge.Core.Step.parse_requirement ark_forge.Core.Step.target_eq
    ark_forge.Core.Step.target_cbor ark_forge.Core.Step.optional_cbor ark_forge.Core.Step.step_cbor
    ark_forge.Core.Step.step_digest ark_forge.Core.Step.is_write ark_forge.Core.Step.is_targeted
    ark_forge.Core.Step.is_storage_target ark_forge.Core.Step.is_present
    ark_forge.Core.Step.validate_self_consistent ark_forge.Core.Projection.role_name
    ark_forge.Core.Projection.action_cbor ark_forge.Core.Projection.action_digest
    ark_forge.Core.Projection.binding_shape ark_forge.Core.Projection.primary_of
    ark_forge.Core.Projection.Coverage.is_erase ark_forge.Core.Projection.Coverage.behind
    ark_forge.Core.Projection.Coverage.is_some_of ark_forge.Core.Projection.Coverage.range_allows
    ark_forge.Core.Projection.Coverage.match_range
    ark_forge.Core.Projection.Coverage.persistent_effect_matches
    ark_forge.Core.Projection.Coverage.transient_matches
    ark_forge.Core.Projection.Coverage.transient_effect_matches
    ark_forge.Core.Projection.Coverage.claim ark_forge.Core.Projection.Coverage.claim_persistent
    ark_forge.Core.Projection.Coverage.claim_transient
    ark_forge.Core.Projection.Coverage.cover_target ark_forge.Core.Projection.Coverage.cover_kind
    ark_forge.Core.Projection.Coverage.cover_steps ark_forge.Core.Projection.Coverage.all_claimed
    ark_forge.Core.Projection.Coverage.validate_effect_coverage
    ark_forge.Core.Projection.Validate.is_primary ark_forge.Core.Projection.Validate.is_read_only
    ark_forge.Core.Projection.Validate.check_steps ark_forge.Core.Projection.Validate.step_ids
    ark_forge.Core.Projection.Validate.check_actions ark_forge.Core.Projection.Validate.add_primary
    ark_forge.Core.Projection.Validate.collect_primaries
    ark_forge.Core.Projection.Validate.target_within
    ark_forge.Core.Projection.Validate.check_content
    ark_forge.Core.Projection.Validate.check_primary ark_forge.Core.Projection.Validate.bind_others
    ark_forge.Core.Projection.Validate.bind_step ark_forge.Core.Projection.Validate.bind_steps
    ark_forge.Core.Projection.Validate.digests_of ark_forge.Core.Projection.Validate.seal
    ark_forge.Core.Projection.Validate.validate_projection ark_forge.Engine.Kind.kind_eq
    ark_forge.Engine.Kind.policy_name ark_forge.Engine.Kind.parse_policy
    ark_forge.Engine.Kind.policy_eq ark_forge.Engine.Kind.fsync_policy
    ark_forge.Engine.Kind.kind_name ark_forge.Engine.Kind.all_kinds ark_forge.Engine.Kind.find_kind
    ark_forge.Engine.Kind.parse_kind ark_forge.Engine.Journal.facts_cbor
    ark_forge.Engine.Journal.body_entries ark_forge.Engine.Journal.body
    ark_forge.Engine.Journal.recompute_digest ark_forge.Engine.Journal.record_bytes
    ark_forge.Engine.Journal.last_digest ark_forge.Engine.Journal.head_digest
    ark_forge.Engine.Journal.check_record ark_forge.Engine.Journal.draft_record
    ark_forge.Engine.Journal.prepare_record ark_forge.Engine.Journal.commit_record
    ark_forge.Engine.Journal.append ark_forge.Engine.Journal.adopt
    ark_forge.Engine.Journal.verify_from ark_forge.Engine.Journal.verify
    ark_forge.Engine.Recovery.fact_value ark_forge.Engine.Recovery.permits_dispatch
    ark_forge.Engine.Recovery.lookup ark_forge.Engine.Recovery.insert
    ark_forge.Engine.Recovery.disposition ark_forge.Engine.Recovery.filled
    ark_forge.Engine.Recovery.named_receipt ark_forge.Engine.Recovery.settle
    ark_forge.Engine.Recovery.advance ark_forge.Engine.Recovery.touch
    ark_forge.Engine.Recovery.ledger_step ark_forge.Engine.Recovery.replay
    ark_forge.Engine.Recovery.from_records ark_forge.Engine.Recovery.is_unresolved
    ark_forge.Engine.Recovery.unresolved ark_forge.Engine.Recovery.terminal_state
    ark_forge.Engine.Recovery.select ark_forge.Engine.Recovery.created_for
    ark_forge.Engine.Recovery.is_creation ark_forge.Engine.Recovery.sole_creation
    ark_forge.Engine.Recovery.is_single_job_journal ark_forge.Engine.Recovery.belongs_by
    ark_forge.Engine.Recovery.belongs ark_forge.Engine.Recovery.job_records
    ark_forge.Engine.Recovery.terminal_fact ark_forge.Engine.Recovery.classified
    ark_forge.Engine.Recovery.or_else ark_forge.Engine.Recovery.first_classified
    ark_forge.Engine.Recovery.newest_permit ark_forge.Engine.Recovery.is_value
    ark_forge.Engine.Recovery.names_permit ark_forge.Engine.Recovery.is_checkpointed
    ark_forge.Engine.Recovery.row ark_forge.Engine.Recovery.row_for
    ark_forge.Engine.Recovery.derive_row ark_forge.Engine.Recovery.conclude
    ark_forge.Engine.Recovery.derive_records ark_forge.Engine.Recovery.derive
    ark_forge.Engine.Durable.frame ark_forge.Engine.Durable.sync_record
    ark_forge.Engine.Durable.with_record ark_forge.Engine.Durable.commit
    ark_forge.Engine.Durable.finish_write ark_forge.Engine.Durable.write_frame
    ark_forge.Engine.Durable.durable_append ark_forge.Engine.Durable.sync_result
    ark_forge.Engine.Durable.sync ark_forge.Engine.Step.from_permit ark_forge.Engine.Step.usable_id
    ark_forge.Engine.Step.context_facts ark_forge.Engine.Step.facts_with_receipt
    ark_forge.Engine.Step.has_key ark_forge.Engine.Step.extend_unique_facts
    ark_forge.Engine.Step.journal_answer ark_forge.Engine.Step.step_append
    ark_forge.Engine.Step.admit_unseen ark_forge.Engine.Step.admit_by
    ark_forge.Engine.Step.admit_step ark_forge.Engine.Step.begin_dispatch_with_facts
    ark_forge.Engine.Step.begin_dispatch ark_forge.Engine.Step.record_transport_evidence
    ark_forge.Engine.Step.record_receipt_with_facts ark_forge.Engine.Step.record_receipt
    ark_forge.Engine.Step.checkpoint ark_forge.Engine.Superseding.destructive_effect
    ark_forge.Engine.Superseding.effect_of_class ark_forge.Engine.Superseding.effect_of
    ark_forge.Engine.Superseding.names_permit_id ark_forge.Engine.Superseding.or_next
    ark_forge.Engine.Superseding.step_for_permit ark_forge.Engine.Superseding.actions_of
    ark_forge.Engine.Superseding.add_effect ark_forge.Engine.Superseding.add_action
    ark_forge.Engine.Superseding.add_actions ark_forge.Engine.Superseding.add_step
    ark_forge.Engine.Superseding.add_permit ark_forge.Engine.Superseding.add_permits
    ark_forge.Engine.Superseding.is_bounded ark_forge.Engine.Superseding.union_of
    ark_forge.Engine.Superseding.possible_effects ark_forge.Engine.Superseding.is_seen
    ark_forge.Engine.Superseding.is_indeterminate ark_forge.Engine.Superseding.count_by
    ark_forge.Engine.Superseding.verdict ark_forge.Engine.Superseding.reconcile
    ark_forge.Engine.Superseding.covered_by ark_forge.Engine.Superseding.covered
    ark_forge.Engine.Superseding.describe_by ark_forge.Engine.Superseding.describe_effect
    ark_forge.Engine.Superseding.uncovered ark_forge.Engine.Superseding.assess_superseding_recovery
    ark_forge.Engine.Superseding.blocker_id ark_forge.Prelude.bytes_eq ark_forge.Prelude.bytes_lt
    ark_forge.Prelude.any native.Mathlib.Decide.ℕ_discrete
runs = record {
  projected = refl;
  assessed = refl;
  complete = refl;
  pending = refl;
  left_open = refl;
  first_made = refl;
  second_made = refl;
}

first_IsRange : IsRange first_range
first_IsRange = record { filled = omega arith; bounded = omega arith }

second_IsRange : IsRange second_range
second_IsRange = record { filled = omega arith; bounded = omega arith }

byte_range-answers_example :
    (end_exclusive first_range ≡ ok (4096 + 8192))
    × ((met : Bool) × (overlaps first_range second_range ≡ ok met)
        × ((met ≡ true) ↔ ((n : ℕ) × Within n first_range × Within n second_range)))
    × ((inside : Bool) × (contains_range first_range second_range ≡ ok inside)
        × ((inside ≡ true) ↔ ((n : ℕ) → Within n second_range → Within n first_range)))
byte_range-answers_example =
    byte_range-answers 4096 8192 second_range.start second_range.length first_range second_range
      runs.first_made runs.second_made

two_effects-HasRange : All HasRange two_effects.persistent
unfolding effect_range
two_effects-HasRange = (
  λ r e. subst IsRange (some_eq e) first_IsRange,
  (λ r e. subst IsRange (some_eq e) second_IsRange, tt),
)
  where
    some_eq : {x y : ByteRange} → some x ≡ some y → x ≡ y
    some_eq p = cc

validate_executable_iff_example :
    (validate_executable two_effects ≡ ok tt) ↔ (IsSettled impact × AllApart two_effects.persistent)
validate_executable_iff_example = validate_executable_iff two_effects two_effects-HasRange

validate_projection-IsBound_example :
    All (IsBound plan) (flash_step ∷ [])
    × All (λ a. a.role ≡ read_only_transport_sub_action → a.effect_class ≡ read_only) plan.actions
validate_projection-IsBound_example =
    validate_projection-IsBound (flash_step ∷ []) plan effects digests runs.projected

validate_projection-IsClaimed_example :
    All (IsWritten plan (flash_step ∷ [])) effects.persistent
    × All (IsCaused (flash_step ∷ [])) effects.transient
validate_projection-IsClaimed_example =
    validate_projection-IsClaimed (flash_step ∷ []) plan effects digests runs.projected

begun_permit : IsUnsettled dispatched.journal.records (str "permit-1")
begun_permit = begun runs.left_open

possible_effects-IsAccounted_example :
    IsAccounted dispatched.journal.records plan
      (possible_effects dispatched.journal plan impact).effects.persistent
      (str "permit-1")
possible_effects-IsAccounted_example =
    possible_effects-IsAccounted dispatched.journal plan impact (str "permit-1") runs.complete
      begun_permit

eligible-IsSuperseded_example :
    (coverage.supports_complete_overwrite ≡ true)
    × IsSuperseded dispatched.journal plan (written ∷ []) coverage (str "permit-1")
eligible-IsSuperseded_example =
    eligible-IsSuperseded dispatched.journal plan impact coverage (written ∷ []) (str "permit-1")
      runs.assessed begun_permit

abbrev seen : Observations
seen = (erase_partition boot second_range, present) ∷ []

reconcile_iff_example :
    ((reconcile ((written, present) ∷ seen) ≡ succeeded)
      ↔ AllAre present ((written, present) ∷ seen))
    × ((reconcile ((written, present) ∷ seen) ≡ confirmed_not_executed)
        ↔ AllAre absent ((written, present) ∷ seen))
reconcile_iff_example = reconcile_iff (written, present) seen
