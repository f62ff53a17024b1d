-- ===== src/Engine/Superseding/Eligible.antt =====
-- When a superseding recovery is eligible, and what it then covers.
use ark_forge.Prelude.{
  Text, bytes_eq, bytes_eq_iff, Bool, true, false, not, some, List, [], ◌∷◌, any, is_empty,
  if◌then◌else◌, ◌≡◌, ◌≢◌, refl, sym, subst, ◌⊎◌, ◌↔◌, All, Bool-cases, inl, inr,
}
use ark_forge.Core.Ids.{OpaqueId}
use ark_forge.Core.Effect.{
  PersistentEffect, erase_partition, write_partition, write_raw_region, replace_partition_table,
  change_boot_metadata, effect_partition, DataImpact,
}
use ark_forge.Core.Step.{destructive, partition_target}
use ark_forge.Core.Projection.{PrivateActionRecord, StoredProviderPlan}
use ark_forge.Engine.Journal.{Journal}
use ark_forge.Engine.Superseding.{
  EffectSetCompleteness, bounded, unbounded, is_bounded, PossibleEffectSet, possible_effects,
  RecoveryDeclaration, covered_by, covered, uncovered, RecoveryBlocker, eligible, ineligible,
  assess_superseding_recovery,
}
use ark_forge.Engine.Superseding.Lasting.{
  IsMember, IsEffectOf, writes, erases, writes_raw, IsRecorded, lasting, IsNamed, IsAccounted,
  IsUnsettled, possible_effects-IsAccounted,
}

uncovered_iff :
    (recovery : RecoveryDeclaration) (es : List PersistentEffect)
    → (is_empty (uncovered recovery es) ≡ true) ↔ All (λ e. covered recovery e ≡ true) es
unfolding uncovered
uncovered_iff recovery [] = (λ h. tt, λ h. refl)
uncovered_iff recovery (e ∷ es) =
    let (to, from) = uncovered_iff recovery es in
    elim (Bool-cases (covered recovery e)) [
      | inl p ↦ rw p (λ h. (refl, to h), λ h. from h.1)
      | inr p ↦ rw p (λ h. cc, λ h. absurd (contrary h.0))
    ]
  where
    contrary : false ≡ true → ⊥
    contrary e = cc

is_bounded_sound : (c : EffectSetCompleteness) → is_bounded c ≡ true → c ≡ bounded
unfolding is_bounded
is_bounded_sound bounded h = refl
is_bounded_sound unbounded h = cc

not_nil : (es : List PersistentEffect) → is_empty es ≡ false → es ≢ []
not_nil [] h e = cc
not_nil (x ∷ es) h e = cc

is_empty-false : (es : List PersistentEffect) → es ≢ [] → is_empty es ≡ false
is_empty-false [] h = absurd (h refl)
is_empty-false (x ∷ es) h = refl

-- The tests of the assessment, in their order.
passed :
    (b1 b2 b3 b4 : RecoveryBlocker) {covers : List PersistentEffect} (b e s o : Bool)
    (es : List PersistentEffect)
    → (if not b
        then ineligible b1
        else if e
        then ineligible b2
        else if not s
        then ineligible b3
        else if not o
        then ineligible b4
        else eligible es)
      ≡ eligible covers
    → (b ≡ true) × (e ≡ false) × (s ≡ true) × (o ≡ true) × (covers ≡ es)
passed b1 b2 b3 b4 false e s o es h = cc
passed b1 b2 b3 b4 true true s o es h = cc
passed b1 b2 b3 b4 true false false o es h = cc
passed b1 b2 b3 b4 true false true false es h = cc
passed b1 b2 b3 b4 true false true true es h = (refl, refl, refl, refl, cc)

passes :
    (b1 b2 b3 b4 : RecoveryBlocker) {covers : List PersistentEffect} (b e s o : Bool)
    (es : List PersistentEffect)
    → b ≡ true
    → e ≡ false
    → s ≡ true
    → o ≡ true
    → covers ≡ es
    → (if not b
        then ineligible b1
        else if e
        then ineligible b2
        else if not s
        then ineligible b3
        else if not o
        then ineligible b4
        else eligible es)
      ≡ eligible covers
passes b1 b2 b3 b4 b e s o es hb he hs ho same = rw (hb, he, hs, ho, same) refl

is_bounded_complete : (c : EffectSetCompleteness) → c ≡ bounded → is_bounded c ≡ true
unfolding is_bounded
is_bounded_complete c h = rw h refl

-- A superseding recovery is eligible exactly when the possible effects are bounded and not none, the
-- profile publishes complete overwrites, and every effect is on a partition that it covers; it then
-- covers just these effects.
pub assess_superseding_recovery_iff :
    (possible : PossibleEffectSet) (recovery : RecoveryDeclaration) (covers : List PersistentEffect)
    → (assess_superseding_recovery possible recovery ≡ eligible covers) ↔ (
        (possible.completeness ≡ bounded)
        × (possible.effects.persistent ≢ [])
        × (recovery.supports_complete_overwrite ≡ true)
        × All (λ e. covered recovery e ≡ true) possible.effects.persistent
        × (covers ≡ possible.effects.persistent))
unfolding assess_superseding_recovery
assess_superseding_recovery_iff possible recovery covers =
    let es = possible.effects.persistent in
    let (to, from) = uncovered_iff recovery es in
    (
      λ h.
          let (b, e, s, o, same) =
            passed _ _ _ _ (is_bounded possible.completeness) (is_empty es)
              recovery.supports_complete_overwrite (is_empty (uncovered recovery es)) es h in
          (is_bounded_sound possible.completeness b, not_nil es e, s, to o, same),
      λ (b, n, s, all, same).
          passes _ _ _ _ (is_bounded possible.completeness) (is_empty es)
            recovery.supports_complete_overwrite (is_empty (uncovered recovery es)) es
            (is_bounded_complete possible.completeness b) (is_empty-false es n) s (from all) same,
    )

-- The action is not destructive, or what it does to a partition that the profile declares covered is
-- among the effects that the recovery covers.
pub data IsRecovered (covers : List PersistentEffect) (recovery : RecoveryDeclaration)
    (a : PrivateActionRecord) : Type 0 where
  harmless : a.effect_class ≢ destructive → IsRecovered covers recovery a
  overwritten :
      (e : PersistentEffect) (partition : OpaqueId)
      → IsEffectOf a e
      → IsMember e covers
      → a.declared_target ≡ some (partition_target partition)
      → IsMember partition recovery.covered_effects
      → IsRecovered covers recovery a

covered-IsMember :
    (p : OpaqueId) (ids : List OpaqueId) → any (λ c. bytes_eq c p) ids ≡ true → IsMember p ids
unfolding any
covered-IsMember p [] h = cc
covered-IsMember p (c ∷ ids) h = elim (Bool-cases (bytes_eq c p)) [
  | inl e ↦ inl (sym ((bytes_eq_iff c p).0 e))
  | inr e ↦ inr (covered-IsMember p ids (rw e at h))
]

member-covered :
    (recovery : RecoveryDeclaration) (e : PersistentEffect) (es : List PersistentEffect)
    → All (λ x. covered recovery x ≡ true) es
    → IsMember e es
    → covered recovery e ≡ true
member-covered recovery e [] all m = absurd m
member-covered recovery e (x ∷ es) all (inl same) = rw same (all.0)
member-covered recovery e (x ∷ es) all (inr m) = member-covered recovery e es all.1 m

effect-IsRecovered :
    (recovery : RecoveryDeclaration) (covers : List PersistentEffect) (a : PrivateActionRecord)
    (e : PersistentEffect)
    → covered recovery e ≡ true
    → IsMember e covers
    → IsEffectOf a e
    → IsRecovered covers recovery a
unfolding covered covered_by effect_partition
effect-IsRecovered recovery covers a (write_partition p r c) h m (writes et er ec) =
    overwritten (write_partition p r c) p (writes et er ec) m et
      (covered-IsMember p recovery.covered_effects h)
effect-IsRecovered recovery covers a (erase_partition p r) h m (erases et er ec) =
    overwritten (erase_partition p r) p (erases et er ec) m et
      (covered-IsMember p recovery.covered_effects h)
effect-IsRecovered recovery covers a (write_raw_region p r c) h m (writes_raw et er ec) = cc
effect-IsRecovered recovery covers a (replace_partition_table layout_digest) h m of_action = cc
effect-IsRecovered recovery covers a (change_boot_metadata field expected_value) h m of_action = cc

IsRecorded-IsRecovered :
    (recovery : RecoveryDeclaration) (covers : List PersistentEffect) (a : PrivateActionRecord)
    → All (λ x. covered recovery x ≡ true) covers
    → IsRecorded covers a
    → IsRecovered covers recovery a
IsRecorded-IsRecovered recovery covers a all (IsRecorded.harmless n) = harmless n
IsRecorded-IsRecovered recovery covers a all (lasting e of_action m) =
    effect-IsRecovered recovery covers a e (member-covered recovery e covers all m) m of_action

All-IsRecovered :
    (recovery : RecoveryDeclaration) (covers : List PersistentEffect) (step_id : Text)
    (actions : List PrivateActionRecord)
    → All (λ x. covered recovery x ≡ true) covers
    → All (λ a. (a.step_id ≢ step_id) ⊎ IsRecorded covers a) actions
    → All (λ a. (a.step_id ≢ step_id) ⊎ IsRecovered covers recovery a) actions
All-IsRecovered recovery covers step_id [] all h = tt
All-IsRecovered recovery covers step_id (a ∷ actions) all h = (
  elim (h.0) [
    | inl other ↦ inl other
    | inr known ↦ inr (IsRecorded-IsRecovered recovery covers a all known)
  ],
  All-IsRecovered recovery covers step_id actions all h.1,
)

-- The step of a permit, which the plan has actions for, each of which is recovered from.
pub record IsSuperseded (j : Journal) (plan : StoredProviderPlan) (covers : List PersistentEffect)
    (recovery : RecoveryDeclaration) (permit_id : Text) : Type 0 where
  pub step_id : Text
  pub named : IsNamed j.records permit_id step_id
  pub action : PrivateActionRecord
  pub planned : IsMember action plan.actions
  pub of_step : action.step_id ≡ step_id
  pub recovered : All (λ a. (a.step_id ≢ step_id) ⊎ IsRecovered covers recovery a) plan.actions

-- If a superseding recovery is eligible for what a journal leaves unresolved, then the profile
-- publishes complete overwrites, and a permit with a durable intent or a begun use, and no known
-- outcome, was for a step that the plan has actions for. Each action of the step is not destructive,
-- or what it does is listed in what the recovery covers, on a partition that the profile declares
-- covered.
pub eligible-IsSuperseded :
    (j : Journal) (plan : StoredProviderPlan) (declared : DataImpact)
    (recovery : RecoveryDeclaration) (covers : List PersistentEffect) (permit_id : Text)
    → assess_superseding_recovery (possible_effects j plan declared) recovery ≡ eligible covers
    → IsUnsettled j.records permit_id
    → (recovery.supports_complete_overwrite ≡ true) × IsSuperseded j plan covers recovery permit_id
eligible-IsSuperseded j plan declared recovery covers permit_id h u =
    let (b, n, s, all, same) =
      (assess_superseding_recovery_iff (possible_effects j plan declared) recovery covers).0 h in
    let known =
      subst (λ es. IsAccounted j.records plan es permit_id) (sym same)
        (possible_effects-IsAccounted j plan declared permit_id b u) in
    (
      s,
      record {
        step_id = known.step_id;
        named = known.named;
        action = known.action;
        planned = known.planned;
        of_step = known.of_step;
        recovered =
            All-IsRecovered recovery covers known.step_id plan.actions
              (subst (All (λ e. covered recovery e ≡ true)) (sym same) all) known.recorded;
      },
    )
