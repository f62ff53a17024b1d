-- ===== src/Engine/Superseding/Lasting.antt =====
-- What the actions of a plan may have left on a device, described without the code that computes it.
use ark_forge.Prelude.{
  Text, bytes_eq, bytes_eq_iff, Bool, true, false, ◌&&◌, Option, none, some, List, [], ◌∷◌, any,
  ◌≡◌, ◌≢◌, refl, sym, subst, ap, ◌∙◌, ◌⊎◌, All, arith, Bool-cases, inl, inr,
}
use ark_forge.Core.Digest.Sha256.{Digest}
use ark_forge.Core.Ids.{OpaqueId}
use ark_forge.Core.Effect.{
  ByteRange, PersistentEffect, erase_partition, write_partition, write_raw_region, effect_eq,
  effect_eq_sound, DataImpact,
}
use ark_forge.Core.Step.{
  WorkflowEffect, read_only, transient, mutating, destructive, SemanticTarget, partition_target,
  raw_region_target,
}
use ark_forge.Core.Projection.{PrivateActionRecord, StoredProviderPlan}
use ark_forge.Engine.Journal.{Journal, JournalRecord, Facts}
use ark_forge.Engine.Recovery.{
  PermitDisposition, unseen, intent_durable, consuming_outcome_unknown, PermitLedger, lookup,
  disposition, from_records, is_unresolved, unresolved, fact_value, permit_id_key, step_id_key,
}
use ark_forge.Engine.Superseding.{
  bounded, effect_of, effect_of_class, destructive_effect, names_permit_id, or_next,
  step_for_permit, actions_of, possible_effects,
}
use ark_forge.Engine.Superseding.Conservative.{
  IsListed, IsCounted, IsSummed, possible_effects-AreSummed,
}

abbrev pub IsMember : {A : Type 0} → A → List A → Type 0
IsMember a [] = ⊥
IsMember a (x ∷ xs) = (a ≡ x) ⊎ IsMember a xs

-- What a destructive action does, by the target, the range and the content that it declares.
pub data IsEffectOf (a : PrivateActionRecord) : PersistentEffect → Type 0 where
  writes :
      {p : OpaqueId} {r : ByteRange} {c : Digest}
      → a.declared_target ≡ some (partition_target p)
      → a.declared_range ≡ some r
      → a.content_digest ≡ some c
      → IsEffectOf a (write_partition p r c)
  erases :
      {p : OpaqueId} {r : ByteRange}
      → a.declared_target ≡ some (partition_target p)
      → a.declared_range ≡ some r
      → a.content_digest ≡ none
      → IsEffectOf a (erase_partition p r)
  writes_raw :
      {p : OpaqueId} {r : ByteRange} {c : Digest}
      → a.declared_target ≡ some (raw_region_target p)
      → a.declared_range ≡ some r
      → a.content_digest ≡ some c
      → IsEffectOf a (write_raw_region p r c)

-- The action is not destructive, or what it does is among the effects.
pub data IsRecorded (es : List PersistentEffect) (a : PrivateActionRecord) : Type 0 where
  harmless : a.effect_class ≢ destructive → IsRecorded es a
  lasting : (e : PersistentEffect) → IsEffectOf a e → IsMember e es → IsRecorded es a

-- A record of the journal that names the permit and the step.
pub record IsNamed (records : List JournalRecord) (permit_id step_id : Text) : Type 0 where
  pub told : JournalRecord
  pub kept : IsMember told records
  pub of_permit : IsMember (permit_id_key, permit_id) told.facts
  pub of_step : fact_value told.facts step_id_key ≡ some step_id

-- The permit was for a step of the plan, whose actions there are, and each is recorded.
pub record IsAccounted (records : List JournalRecord) (plan : StoredProviderPlan)
    (es : List PersistentEffect) (permit_id : Text) : Type 0 where
  pub step_id : Text
  pub named : IsNamed records permit_id step_id
  pub action : PrivateActionRecord
  pub planned : IsMember action plan.actions
  pub of_step : action.step_id ≡ step_id
  pub recorded : All (λ a. (a.step_id ≢ step_id) ⊎ IsRecorded es a) plan.actions

-- The intent of the permit is durable, or its use began, and nothing says with what outcome.
pub data IsUnsettled (records : List JournalRecord) (permit_id : Text) : Type 0 where
  intended :
      disposition (from_records records) permit_id ≡ intent_durable → IsUnsettled records permit_id
  begun :
      disposition (from_records records) permit_id ≡ consuming_outcome_unknown
      → IsUnsettled records permit_id

listed-IsMember :
    (e : PersistentEffect) (es : List PersistentEffect) → IsListed e es → IsMember e es
unfolding any
listed-IsMember e [] h = cc
listed-IsMember e (x ∷ es) h = elim (Bool-cases (effect_eq e x)) [
  | inl p ↦ inl (effect_eq_sound e x p)
  | inr p ↦ inr (listed-IsMember e es (rw p at h))
]

destructive-IsRecorded :
    (a : PrivateActionRecord) (es : List PersistentEffect) (target : Option SemanticTarget)
    (range : Option ByteRange) (content : Option Digest)
    → a.declared_target ≡ target
    → a.declared_range ≡ range
    → a.content_digest ≡ content
    → IsCounted es (destructive_effect target range content)
    → IsRecorded es a
unfolding destructive_effect
destructive-IsRecorded a es (some (partition_target p)) (some r) (some c) et er ec h =
    lasting (write_partition p r c) (writes et er ec) (listed-IsMember _ es h)
destructive-IsRecorded a es (some (partition_target p)) (some r) none et er ec h =
    lasting (erase_partition p r) (erases et er ec) (listed-IsMember _ es h)
destructive-IsRecorded a es (some (raw_region_target p)) (some r) (some c) et er ec h =
    lasting (write_raw_region p r c) (writes_raw et er ec) (listed-IsMember _ es h)
destructive-IsRecorded a es (some (raw_region_target p)) (some r) none et er ec h = absurd h
destructive-IsRecorded a es _ _ _ et er ec h = absurd h

counted-IsRecorded :
    (a : PrivateActionRecord) (es : List PersistentEffect) (class : WorkflowEffect)
    → a.effect_class ≡ class
    → IsCounted es (effect_of_class class a.declared_target a.declared_range a.content_digest)
    → IsRecorded es a
unfolding effect_of_class
counted-IsRecorded a es read_only e h = harmless (λ d. cc)
counted-IsRecorded a es transient e h = harmless (λ d. cc)
counted-IsRecorded a es mutating e h = harmless (λ d. cc)
counted-IsRecorded a es destructive e h =
    destructive-IsRecorded a es a.declared_target a.declared_range a.content_digest refl refl refl h

actions-IsRecorded :
    (step_id : Text) (es : List PersistentEffect) (actions : List PrivateActionRecord)
    → All (λ a. IsCounted es (effect_of a)) (actions_of step_id actions)
    → All (λ a. (a.step_id ≢ step_id) ⊎ IsRecorded es a) actions
unfolding actions_of effect_of
actions-IsRecorded step_id es [] h = tt
actions-IsRecorded step_id es (a ∷ actions) h = elim (Bool-cases (bytes_eq a.step_id step_id)) [
  | inl p ↦
      let both = rw p at h in
      (
        inr (counted-IsRecorded a es a.effect_class refl both.0),
        actions-IsRecorded step_id es actions both.1,
      )
  | inr p ↦ (
    inl (λ e. contrary p ((bytes_eq_iff a.step_id step_id).1 e)),
    actions-IsRecorded step_id es actions (rw p at h),
  )
]
  where
    contrary : {b : Bool} → b ≡ false → b ≡ true → ⊥
    contrary p q = cc

actions-IsMember :
    (step_id : Text) (actions : List PrivateActionRecord)
    → actions_of step_id actions ≢ []
    → (a : PrivateActionRecord) × IsMember a actions × (a.step_id ≡ step_id)
unfolding actions_of
actions-IsMember step_id [] h = absurd (h refl)
actions-IsMember step_id (a ∷ actions) h = elim (Bool-cases (bytes_eq a.step_id step_id)) [
  | inl p ↦ (a, inl refl, (bytes_eq_iff a.step_id step_id).0 p)
  | inr p ↦ let (b, m, e) = actions-IsMember step_id actions (rw p at h) in (b, inr m, e)
]

names-IsMember :
    (permit_id : Text) (facts : Facts)
    → names_permit_id permit_id facts ≡ true
    → IsMember (permit_id_key, permit_id) facts
unfolding names_permit_id
names-IsMember permit_id [] h = cc
names-IsMember permit_id ((k, v) ∷ facts) h =
    elim (Bool-cases (bytes_eq k permit_id_key && bytes_eq v permit_id)) [
      | inl p ↦
          let key : k ≡ permit_id_key = (bytes_eq_iff k permit_id_key).0 (ground (arith, p)) in
          let value : v ≡ permit_id = (bytes_eq_iff v permit_id).0 (ground (arith, p)) in inl cc
      | inr p ↦ inr (names-IsMember permit_id facts (rw p at h))
    ]

step-IsNamed :
    (records : List JournalRecord) (permit_id step_id : Text)
    → step_for_permit records permit_id ≡ some step_id
    → IsNamed records permit_id step_id
unfolding step_for_permit
step-IsNamed [] permit_id step_id h = cc
step-IsNamed (r ∷ records) permit_id step_id h =
    elim (Bool-cases (names_permit_id permit_id r.facts)) [
      | inl p ↦
          by_step (fact_value r.facts step_id_key) refl (names-IsMember permit_id r.facts p)
            (step-IsNamed records permit_id step_id) (rw p at h)
      | inr p ↦ later (step-IsNamed records permit_id step_id (rw p at h))
    ]
  where
    later : IsNamed records permit_id step_id → IsNamed (r ∷ records) permit_id step_id
    later n = record {
      told = n.told;
      kept = inr n.kept;
      of_permit = n.of_permit;
      of_step = n.of_step;
    }

    by_step :
        (found : Option Text)
        → fact_value r.facts step_id_key ≡ found
        → IsMember (permit_id_key, permit_id) r.facts
        → (step_for_permit records permit_id ≡ some step_id → IsNamed records permit_id step_id)
        → or_next found (step_for_permit records permit_id) ≡ some step_id
        → IsNamed (r ∷ records) permit_id step_id
    by_step none e m more h = later (more (unfold or_next in h))
    by_step (some t) e m more h = record {
      told = r;
      kept = inl refl;
      of_permit = m;
      of_step = e ∙ (unfold or_next in h);
    }

lookup-unresolved :
    (permits : PermitLedger) (permit_id : Text) (d : PermitDisposition)
    → lookup permits permit_id ≡ some d
    → is_unresolved d ≡ true
    → IsMember permit_id (unresolved permits)
unfolding lookup unresolved
lookup-unresolved [] permit_id d h u = cc
lookup-unresolved ((k, e) ∷ permits) permit_id d h u = elim (Bool-cases (bytes_eq k permit_id)) [
  | inl p ↦
      let same : e ≡ d = some_eq (rw p at h) in
      let still : is_unresolved e ≡ true = ap is_unresolved same ∙ u in
      rw still (inl (sym ((bytes_eq_iff k permit_id).0 p)))
  | inr p ↦
      let more = lookup-unresolved permits permit_id d (rw p at h) u in
      elim (Bool-cases (is_unresolved e)) [ inl q ↦ rw q (inr more) | inr q ↦ rw q more ]
]
  where
    some_eq : {x y : PermitDisposition} → some x ≡ some y → x ≡ y
    some_eq q = cc

disposition-unresolved :
    (permits : PermitLedger) (permit_id : Text) (found : Option PermitDisposition)
    → lookup permits permit_id ≡ found
    → is_unresolved (disposition permits permit_id) ≡ true
    → IsMember permit_id (unresolved permits)
unfolding disposition is_unresolved
disposition-unresolved permits permit_id none e u =
    let d = ap (λ x. is_unresolved (elim x [ some d ↦ d | none ↦ unseen ])) e in
    let no : is_unresolved unseen ≡ true = sym d ∙ u in cc
disposition-unresolved permits permit_id (some d) e u =
    let d' = ap (λ x. is_unresolved (elim x [ some d ↦ d | none ↦ unseen ])) e in
    lookup-unresolved permits permit_id d e (sym d' ∙ u)

IsUnsettled-IsMember :
    (records : List JournalRecord) (permit_id : Text)
    → IsUnsettled records permit_id
    → IsMember permit_id (unresolved (from_records records))
unfolding is_unresolved
IsUnsettled-IsMember records permit_id (intended e) =
    disposition-unresolved (from_records records) permit_id _ refl (rw e refl)
IsUnsettled-IsMember records permit_id (begun e) =
    disposition-unresolved (from_records records) permit_id _ refl (rw e refl)

summed-IsAccounted :
    (records : List JournalRecord) (plan : StoredProviderPlan) (es : List PersistentEffect)
    (permits : List Text) (permit_id : Text)
    → All (IsSummed records plan es) permits
    → IsMember permit_id permits
    → IsAccounted records plan es permit_id
summed-IsAccounted records plan es [] permit_id h m = absurd m
summed-IsAccounted records plan es (p ∷ permits) permit_id h (inr m) =
    summed-IsAccounted records plan es permits permit_id h.1 m
summed-IsAccounted records plan es (p ∷ permits) permit_id h (inl same) =
    subst (IsAccounted records plan es) (sym same) (
      let s = h.0 in
      let (a, m, e) = actions-IsMember s.step_id plan.actions s.planned in
      record {
        step_id = s.step_id;
        named = step-IsNamed records p s.step_id s.named;
        action = a;
        planned = m;
        of_step = e;
        recorded = actions-IsRecorded s.step_id es plan.actions s.counted;
      })

-- When the possible effects are bounded, a permit with a durable intent or a begun use, and no known
-- outcome, was for a step that the plan has actions for; and what each destructive action of the
-- step does is in the set: the write or the erasure of its target, in its range, with its content.
pub possible_effects-IsAccounted :
    (j : Journal) (plan : StoredProviderPlan) (declared : DataImpact) (permit_id : Text)
    → (possible_effects j plan declared).completeness ≡ bounded
    → IsUnsettled j.records permit_id
    → IsAccounted j.records plan (possible_effects j plan declared).effects.persistent permit_id
possible_effects-IsAccounted j plan declared permit_id h u =
    summed-IsAccounted j.records plan (possible_effects j plan declared).effects.persistent
      (unresolved (from_records j.records)) permit_id (possible_effects-AreSummed j plan declared h)
      (IsUnsettled-IsMember j.records permit_id u)
