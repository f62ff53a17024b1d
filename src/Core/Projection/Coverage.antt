-- ===== src/Core/Projection/Coverage.antt =====
-- `validate_effect_coverage`: every declared effect is claimed by one step, and every effectful step
-- claims a declared effect.
use ark_forge.Prelude.{
  ℕ, suc, Text, bytes_eq, Bool, true, false, ◌&&◌, Option, none, some, List, [], ◌∷◌, Result, ok,
  ◌>>=◌, map_err, Abort, Stop, aborted, refused, ensure, ok_or, replicate, length, if◌then◌else◌,
}
use ark_forge.Core.Effect.{
  ByteRange, contains_range, PersistentEffect, erase_partition, write_partition, write_raw_region,
  TransientEffect, enter_mode, EffectSet,
}
use ark_forge.Core.Step.{
  FlashStepKind, ensure_mode, write_target, erase_target, PublicFlashStep, SemanticTarget,
  partition_target, raw_region_target, is_write,
}
use ark_forge.Core.Projection.{
  PrivateActionRecord, ProjectionError, effectful_step_without_target, step_effect_not_declared,
  unclaimed_persistent_effect, unclaimed_transient_effect, primary_of, step_without_primary_action,
}

unfoldable pub is_erase : FlashStepKind → Bool
is_erase erase_target = true
is_erase _ = false

unfoldable pub behind : Bool → Option (List Bool) → Option (List Bool)
behind c (some claimed) = some (c ∷ claimed)
behind c none = none

-- `option == Some(value)`.
unfoldable pub is_some_of : Option Text → Text → Bool
is_some_of (some t) u = bytes_eq t u
is_some_of none u = false

unfoldable pub range_allows : Option ByteRange → ByteRange → Result Abort Bool
range_allows (some private_range) range = contains_range range private_range
range_allows none range = ok true

-- The ranges are compared last, if all else matches.
unfoldable pub match_range : Bool → Option ByteRange → ByteRange → Result Abort Bool
match_range true private_range range = range_allows private_range range
match_range false private_range range = ok false

unfoldable pub persistent_effect_matches :
    PersistentEffect → PublicFlashStep → SemanticTarget → PrivateActionRecord → Result Abort Bool
persistent_effect_matches (write_partition partition range content) step (partition_target id)
      primary =
    match_range
      (is_write step.kind && is_some_of step.content_digest content && bytes_eq partition id)
      primary.declared_range range
persistent_effect_matches (erase_partition partition range) step (partition_target id) primary =
    match_range (is_erase step.kind && bytes_eq partition id) primary.declared_range range
persistent_effect_matches (write_raw_region region range content) step (raw_region_target id)
      primary =
    match_range (is_write step.kind && is_some_of step.content_digest content && bytes_eq region id)
      primary.declared_range range
persistent_effect_matches _ step target primary = ok false

unfoldable pub transient_matches : TransientEffect → FlashStepKind → PublicFlashStep → Bool
transient_matches (enter_mode from to) ensure_mode step =
    is_some_of step.expected_mode_before from && is_some_of step.expected_mode_after to
transient_matches (TransientEffect.reboot target_mode) FlashStepKind.reboot step =
    is_some_of step.expected_mode_after target_mode
transient_matches (TransientEffect.load_ephemeral_agent stage memory_region content)
      FlashStepKind.load_ephemeral_agent step =
    true
transient_matches _ _ step = false

unfoldable pub transient_effect_matches : PublicFlashStep → TransientEffect → Bool
transient_effect_matches step effect = transient_matches effect step.kind step

-- The two vectors of flags, beside the effects.
pub record Claims : Type 0 where
  pub persistent_claimed : List Bool
  pub transient_claimed : List Bool

-- The first effect that is not claimed yet and matches becomes claimed.
unfoldable pub claim {ℓ} :
    {A : Type ℓ} → (A → Result Abort Bool) → List A → List Bool → Result Abort (Option (List Bool))
claim p [] claimed = ok none
claim p (a ∷ effects) [] = ok none
claim p (a ∷ effects) (c ∷ claimed) =
    let rest = claim p effects claimed in
    let later = rest >>= λ found. ok (behind c found) in
    if c then later else (p a >>= λ matches. if matches then ok (some (true ∷ claimed)) else later)

unfoldable pub claim_persistent :
    EffectSet
    → PublicFlashStep
    → Claims
    → SemanticTarget
    → PrivateActionRecord
    → Result (Stop ProjectionError) Claims
claim_persistent effects step claims target primary =
    map_err aborted (
      claim (λ e. persistent_effect_matches e step target primary) effects.persistent
        claims.persistent_claimed)
    >>= λ found.
        ok_or found (refused (step_effect_not_declared step.step_id step.kind)) >>= λ claimed.
        ok (record (claims) { persistent_claimed = claimed })

unfoldable pub claim_transient :
    EffectSet → PublicFlashStep → Claims → Result (Stop ProjectionError) Claims
claim_transient effects step claims =
    map_err aborted
      (claim (λ e. ok (transient_effect_matches step e)) effects.transient claims.transient_claimed)
    >>= λ found.
        ok_or found (refused (step_effect_not_declared step.step_id step.kind)) >>= λ claimed.
        ok (record (claims) { transient_claimed = claimed })

-- A step that writes or erases; its primary action is there, as the caller has checked.
unfoldable pub cover_target :
    List PrivateActionRecord
    → EffectSet
    → PublicFlashStep
    → Claims
    → Result (Stop ProjectionError) Claims
cover_target primaries effects step claims =
    ok_or step.semantic_target (refused (effectful_step_without_target step.step_id)) >>= λ target.
    ok_or (primary_of primaries step.step_id) (refused (step_without_primary_action step.step_id))
    >>= λ primary. claim_persistent effects step claims target primary

unfoldable pub cover_kind :
    List PrivateActionRecord
    → EffectSet
    → PublicFlashStep
    → Claims
    → FlashStepKind
    → Result (Stop ProjectionError) Claims
cover_kind primaries effects step claims write_target = cover_target primaries effects step claims
cover_kind primaries effects step claims erase_target = cover_target primaries effects step claims
cover_kind primaries effects step claims ensure_mode = claim_transient effects step claims
cover_kind primaries effects step claims FlashStepKind.reboot = claim_transient effects step claims
cover_kind primaries effects step claims FlashStepKind.load_ephemeral_agent =
    claim_transient effects step claims
cover_kind primaries effects step claims _ = ok claims

unfoldable pub cover_steps :
    List PrivateActionRecord
    → EffectSet
    → List PublicFlashStep
    → Claims
    → Result (Stop ProjectionError) Claims
cover_steps primaries effects [] claims = ok claims
cover_steps primaries effects (step ∷ steps) claims =
    cover_kind primaries effects step claims step.kind >>= cover_steps primaries effects steps

-- `position(|claimed| !claimed)`, refused with the error of the index.
unfoldable pub all_claimed :
    (ℕ → ProjectionError) → ℕ → List Bool → Result (Stop ProjectionError) (Unit {0})
all_claimed unclaimed index [] = ok tt
all_claimed unclaimed index (c ∷ claimed) =
    ensure c (refused (unclaimed index)) >>= λ _. all_claimed unclaimed (suc index) claimed

unfoldable pub validate_effect_coverage :
    List PrivateActionRecord
    → List PublicFlashStep
    → EffectSet
    → Result (Stop ProjectionError) (Unit {0})
validate_effect_coverage primaries steps effects =
    cover_steps primaries effects steps (record {
      persistent_claimed = replicate (length effects.persistent) false;
      transient_claimed = replicate (length effects.transient) false;
    })
    >>= λ claims. all_claimed unclaimed_persistent_effect 0 claims.persistent_claimed >>= λ _.
        all_claimed unclaimed_transient_effect 0 claims.transient_claimed
