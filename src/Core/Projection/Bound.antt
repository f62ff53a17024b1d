-- ===== src/Core/Projection/Bound.antt =====
-- What a validated projection guarantees of each public step and each private action.
use ark_forge.Prelude.{
  map_err-eq-ok, refused, ◌≤◌, Text, bytes_eq, bytes_eq_iff, Bool, true, false, not, Option, none,
  some, List, [], ◌∷◌, is_empty, leb, leb→le, ok, >>=-eq-ok, ensure-eq-ok, ensure, ok_or, map_err,
  ◌≡◌, refl, sym, ap, ◌∙◌, ◌⊎◌, inl, inr, All, arith,
}
use ark_forge.Core.Digest.Sha256.{Digest}
use ark_forge.Core.Effect.{EffectSet}
use ark_forge.Core.Step.{PublicFlashStep, read_only, severity, SemanticTarget, target_eq_sound}
use ark_forge.Core.Projection.{
  primary_effect, read_only_transport_sub_action, PrivateActionRecord, action_digest,
  StoredProviderPlan, ActionDigestBinding, ProjectionDigests, ProjectionError, primary_of,
  cbor_error,
}
use ark_forge.Core.Projection.Validate.{
  check_steps, step_ids, check_actions, collect_primaries, target_within, check_content,
  check_primary, bind_step, bind_steps, or_refuse, validate_projection,
}
use ark_forge.Core.Projection.Primaries.{
  IsIn, some_eq, primary_of_step, IsCollected, IsComplete, collect_primaries-IsComplete,
}

-- A step, its one primary action, and what that action is allowed.
pub record IsBound (plan : StoredProviderPlan) (s : PublicFlashStep) : Type 0 where
  pub primary : PrivateActionRecord
  pub member : IsIn primary plan.actions
  pub role : primary.role ≡ primary_effect
  pub of_step : primary.step_id ≡ s.step_id
  pub sole : All (λ a. a.role ≡ primary_effect → a.step_id ≡ s.step_id → a ≡ primary) plan.actions
  pub digest : action_digest primary ≡ ok s.private_action_digest
  pub not_above : severity primary.effect_class ≤ severity s.effect
  pub target : (t : SemanticTarget) → primary.declared_target ≡ some t → s.semantic_target ≡ some t
  pub content : (c : Digest) → s.content_digest ≡ some c → primary.content_digest ≡ some c

target_within_sound :
    (private_target public_target : Option SemanticTarget)
    → target_within private_target public_target ≡ true
    → (t : SemanticTarget) → private_target ≡ some t
    → public_target ≡ some t
unfolding target_within
target_within_sound none public_target h t e = cc
target_within_sound (some x) none h t e = cc
target_within_sound (some x) (some y) h t e = ap some (target_eq_sound y x h) ∙ e

ensured : (test : Bool) (e : ProjectionError) → ensure test e ≡ ok tt → test ≡ true
ensured true e h = refl
ensured false e h = cc

check_content_sound :
    (step action : Text) (declared bound : Option Digest)
    → check_content step action declared bound ≡ ok tt
    → (c : Digest) → declared ≡ some c
    → bound ≡ some c
unfolding check_content
check_content_sound step action (some d) (some b) h c e =
    let p = ensured (bytes_eq d b) _ h in ap some (sym ((bytes_eq_iff d b).0 p)) ∙ e
check_content_sound step action (some d) none h c e = cc
check_content_sound step action none bound h c e = cc

-- The tests of one step against its primary action.
record IsChecked (s : PublicFlashStep) (primary : PrivateActionRecord) : Type 0 where
  digest : action_digest primary ≡ ok s.private_action_digest
  not_above : severity primary.effect_class ≤ severity s.effect
  target : (t : SemanticTarget) → primary.declared_target ≡ some t → s.semantic_target ≡ some t
  content : (c : Digest) → s.content_digest ≡ some c → primary.content_digest ≡ some c

check_primary-IsChecked :
    (s : PublicFlashStep) (primary : PrivateActionRecord) (d : Digest)
    → check_primary s primary ≡ ok d
    → IsChecked s primary
unfolding check_primary
check_primary-IsChecked s primary d h =
    let (digest, p, h1) = >>=-eq-ok (map_err cbor_error (action_digest primary)) _ h in
    let (same, h2) = ensure-eq-ok (bytes_eq digest s.private_action_digest) _ _ h1 in
    let (low, h3) = ensure-eq-ok (leb (severity primary.effect_class) (severity s.effect)) _ _ h2 in
    let (within, h4) =
      ensure-eq-ok (target_within primary.declared_target s.semantic_target) _ _ h3 in
    let (u, bound, h5) =
      >>=-eq-ok (check_content s.step_id primary.action_id s.content_digest primary.content_digest)
        _ h4 in
    let made : action_digest primary ≡ ok digest = ground arith in
    record {
      digest = made ∙ ap (λ x. ok x) ((bytes_eq_iff digest s.private_action_digest).0 same);
      not_above = leb→le (severity primary.effect_class) (severity s.effect) low;
      target = target_within_sound primary.declared_target s.semantic_target within;
      content =
          check_content_sound s.step_id primary.action_id s.content_digest primary.content_digest
            bound;
    }

module _ (plan : StoredProviderPlan) (primaries : List PrivateActionRecord)
    (complete : IsComplete [] primaries plan.actions) where
  sole_primary :
      (s : PublicFlashStep) (primary : PrivateActionRecord) (actions : List PrivateActionRecord)
      → primary_of primaries s.step_id ≡ some primary
      → All (IsCollected primaries) actions
      → All (λ a. a.role ≡ primary_effect → a.step_id ≡ s.step_id → a ≡ primary) actions
  sole_primary s primary [] e c = tt
  sole_primary s primary (a ∷ actions) e c = (
    λ r same. some_eq (sym (c.0.found r) ∙ ap (primary_of primaries) same ∙ e),
    sole_primary s primary actions e c.1,
  )

  bind_step-IsBound :
      (s : PublicFlashStep) (bound : List ActionDigestBinding)
      → bind_step primaries plan s ≡ ok bound
      → IsBound plan s
  unfolding bind_step
  bind_step-IsBound s bound h =
      let (primary, p, h1) = >>=-eq-ok (ok_or (primary_of primaries s.step_id) _) _ h in
      let (d, q, h2) = >>=-eq-ok (check_primary s primary) _ h1 in
      let found : primary_of primaries s.step_id ≡ some primary = ground arith in
      let checked = check_primary-IsChecked s primary d q in
      let (of_step, m) = primary_of_step primaries s.step_id primary found in
      let (member, role) = from_plan primary (complete.origin primary m) in
      record {
        primary = primary;
        member = member;
        role = role;
        of_step = of_step;
        sole = sole_primary s primary plan.actions found complete.collected;
        digest = checked.digest;
        not_above = checked.not_above;
        target = checked.target;
        content = checked.content;
      }
    where
      from_plan :
          (a : PrivateActionRecord)
          → ⊥ ⊎ (IsIn a plan.actions × (a.role ≡ primary_effect))
          → IsIn a plan.actions × (a.role ≡ primary_effect)
      from_plan a (inl e) = absurd e
      from_plan a (inr x) = x

  bind_steps-IsBound :
      (steps : List PublicFlashStep) (bound : List ActionDigestBinding)
      → bind_steps primaries plan steps ≡ ok bound
      → All (IsBound plan) steps
  unfolding bind_steps
  bind_steps-IsBound [] bound h = tt
  bind_steps-IsBound (s ∷ steps) bound h =
      let (one, p, h1) = >>=-eq-ok (bind_step primaries plan s) _ h in
      let (more, q, h2) = >>=-eq-ok (bind_steps primaries plan steps) _ h1 in
      (bind_step-IsBound s one p, bind_steps-IsBound steps more q)

All-harmless :
    (primaries actions : List PrivateActionRecord)
    → All (IsCollected primaries) actions
    → All (λ a. a.role ≡ read_only_transport_sub_action → a.effect_class ≡ read_only) actions
All-harmless primaries [] c = tt
All-harmless primaries (a ∷ actions) c = (c.0.harmless, All-harmless primaries actions c.1)

-- In a validated projection each public step has one primary private action. That action is the one
-- whose digest the step declares, is no more severe than the step, targets nothing but the step's
-- target, and holds the step's content. Every other private action is read-only.
pub validate_projection-IsBound :
    (steps : List PublicFlashStep) (plan : StoredProviderPlan) (effects : EffectSet)
    (digests : ProjectionDigests)
    → validate_projection steps plan effects ≡ ok digests
    → All (IsBound plan) steps
      × All (λ a. a.role ≡ read_only_transport_sub_action → a.effect_class ≡ read_only) plan.actions
unfolding validate_projection
validate_projection-IsBound steps plan effects digests h =
    let (filled, h1) = ensure-eq-ok (not (is_empty steps)) _ _ h in
    let (u, p1, h2) = >>=-eq-ok (or_refuse (check_steps [] steps)) _ h1 in
    let (v, p2, h3) = >>=-eq-ok (or_refuse (check_actions (step_ids steps) [] plan.actions)) _ h2 in
    let (primaries, p3, h4) = >>=-eq-ok (or_refuse (collect_primaries [] plan.actions)) _ h3 in
    let (bound, p4, h5) = >>=-eq-ok (or_refuse (bind_steps primaries plan steps)) _ h4 in
    let complete =
      collect_primaries-IsComplete plan.actions [] primaries (map_err-eq-ok refused _ p3) in
    (
      bind_steps-IsBound plan primaries complete steps bound (map_err-eq-ok refused _ p4),
      All-harmless primaries plan.actions complete.collected,
    )
