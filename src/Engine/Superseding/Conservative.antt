-- ===== src/Engine/Superseding/Conservative.antt =====
-- The union of possible effects leaves nothing out, and a bounded one is complete.
use ark_forge.Prelude.{
  Text, Bool, true, Option, none, some, List, [], ◌∷◌, ◌++◌, any, ◌≡◌, ◌≢◌, refl, All, arith,
  Bool-cases, inl, inr,
}
use ark_forge.Core.Effect.{PersistentEffect, effect_eq, effect_eq_refl, DataImpact}
use ark_forge.Core.Projection.{PrivateActionRecord, StoredProviderPlan}
use ark_forge.Engine.Journal.{Journal, JournalRecord}
use ark_forge.Engine.Recovery.{from_records, unresolved}
use ark_forge.Engine.Superseding.{
  bounded, EffectBound, no_effect, unbounded_effect, persistent_effect, effect_of, step_for_permit,
  actions_of, Union, add_effect, add_action, add_actions, add_step, add_permit, add_permits,
  union_of, possible_effects,
}

-- The effect is among those listed.
abbrev pub IsListed : PersistentEffect → List PersistentEffect → Type 0
IsListed e es = any (effect_eq e) es ≡ true

-- What the action may have done is known, and listed.
abbrev pub IsCounted : List PersistentEffect → EffectBound → Type 0
IsCounted es no_effect = Unit {0}
IsCounted es (persistent_effect e) = IsListed e es
IsCounted es unbounded_effect = ⊥

-- The permit was for a step of the plan, and what the step's actions may have done is listed.
pub record IsSummed (records : List JournalRecord) (plan : StoredProviderPlan)
    (es : List PersistentEffect) (permit_id : Text) : Type 0 where
  pub step_id : Text
  pub named : step_for_permit records permit_id ≡ some step_id
  pub planned : actions_of step_id plan.actions ≢ []
  pub counted : All (λ a. IsCounted es (effect_of a)) (actions_of step_id plan.actions)

any-append {ℓ} :
    {A : Type ℓ} (p : A → Bool) (xs ys : List A) → any p xs ≡ true → any p (xs ++ ys) ≡ true
unfolding any
any-append p [] ys h = cc
any-append p (x ∷ xs) ys h = ground (arith, any-append p xs ys)

any-last {ℓ} :
    {A : Type ℓ} (p : A → Bool) (xs : List A) (y : A) → p y ≡ true → any p (xs ++ (y ∷ [])) ≡ true
unfolding any
any-last p [] y h = rw h refl
any-last p (x ∷ xs) y h = ground (arith, any-last p xs y h)

-- A later state of the loops: no effect is lost, and what was unbounded stays so.
record IsLater (u v : Union) : Type 0 where
  kept : (e : PersistentEffect) → IsListed e u.persistent → IsListed e v.persistent
  still : v.completeness ≡ bounded → u.completeness ≡ bounded

same-IsLater : (u : Union) → IsLater u u
same-IsLater u = record { kept = λ e h. h; still = λ h. h }

IsLater-trans : (u v w : Union) → IsLater u v → IsLater v w → IsLater u w
IsLater-trans u v w p q = record {
  kept = λ e h. q.kept e (p.kept e h);
  still = λ h. p.still (q.still h);
}

add_effect-IsLater : (b : EffectBound) (u : Union) → IsLater u (add_effect b u)
unfolding add_effect
add_effect-IsLater no_effect u = same-IsLater u
add_effect-IsLater unbounded_effect u = record { kept = λ e h. h; still = λ h. cc }
add_effect-IsLater (persistent_effect e) u = elim (Bool-cases (any (effect_eq e) u.persistent)) [
  | inl p ↦ rw p (same-IsLater u)
  | inr p ↦
      rw p
        (record { kept = λ x h. any-append (effect_eq x) u.persistent (e ∷ []) h; still = λ h. h })
]

add_effect-IsCounted :
    (b : EffectBound) (u : Union)
    → (add_effect b u).completeness ≡ bounded
    → IsCounted (add_effect b u).persistent b
unfolding add_effect
add_effect-IsCounted no_effect u h = tt
add_effect-IsCounted unbounded_effect u h = cc
add_effect-IsCounted (persistent_effect e) u h =
    elim (Bool-cases (any (effect_eq e) u.persistent)) [
      | inl p ↦ rw p p
      | inr p ↦ rw p (any-last (effect_eq e) u.persistent e (effect_eq_refl e))
    ]

IsCounted-later :
    (u v : Union) (b : EffectBound)
    → IsLater u v
    → IsCounted u.persistent b
    → IsCounted v.persistent b
IsCounted-later u v no_effect l h = tt
IsCounted-later u v (persistent_effect e) l h = l.kept e h
IsCounted-later u v unbounded_effect l h = absurd h

add_action-IsLater : (u : Union) (a : PrivateActionRecord) → IsLater u (add_action u a)
unfolding add_action
add_action-IsLater u a =
    let noted : Union = record (u) {
      source_action_ids = u.source_action_ids ++ (a.action_id ∷ []);
    } in
    let l = add_effect-IsLater (effect_of a) noted in record { kept = l.kept; still = l.still }

add_actions-IsLater :
    (actions : List PrivateActionRecord) (u : Union) → IsLater u (add_actions u actions)
unfolding add_actions
add_actions-IsLater [] u = same-IsLater u
add_actions-IsLater (a ∷ actions) u =
    IsLater-trans u (add_action u a) (add_actions (add_action u a) actions) (add_action-IsLater u a)
      (add_actions-IsLater actions (add_action u a))

add_actions-IsCounted :
    (actions : List PrivateActionRecord) (u : Union)
    → (add_actions u actions).completeness ≡ bounded
    → All (λ a. IsCounted (add_actions u actions).persistent (effect_of a)) actions
unfolding add_actions add_action
add_actions-IsCounted [] u h = tt
add_actions-IsCounted (a ∷ actions) u h =
    let noted : Union = record (u) {
      source_action_ids = u.source_action_ids ++ (a.action_id ∷ []);
    } in
    let next = add_effect (effect_of a) noted in
    let l = add_actions-IsLater actions next in
    (
      IsCounted-later next (add_actions next actions) (effect_of a) l
          (add_effect-IsCounted (effect_of a) noted (l.still h)),
      add_actions-IsCounted actions next h,
    )

add_step-IsLater : (u : Union) (actions : List PrivateActionRecord) → IsLater u (add_step u actions)
unfolding add_step
add_step-IsLater u [] = record { kept = λ e h. h; still = λ h. cc }
add_step-IsLater u (a ∷ actions) = add_actions-IsLater (a ∷ actions) u

add_permit-IsLater :
    (plan : StoredProviderPlan) (u : Union) (step_id : Option Text)
    → IsLater u (add_permit plan u step_id)
unfolding add_permit
add_permit-IsLater plan u none = record { kept = λ e h. h; still = λ h. cc }
add_permit-IsLater plan u (some step_id) = add_step-IsLater u (actions_of step_id plan.actions)

add_step-planned :
    (u : Union) (actions : List PrivateActionRecord)
    → (add_step u actions).completeness ≡ bounded
    → (actions ≢ []) × All (λ a. IsCounted (add_step u actions).persistent (effect_of a)) actions
unfolding add_step
add_step-planned u [] h = cc
add_step-planned u (a ∷ actions) h = (λ e. cc, add_actions-IsCounted (a ∷ actions) u h)

All-IsCounted :
    (u v : Union) (actions : List PrivateActionRecord)
    → IsLater u v
    → All (λ a. IsCounted u.persistent (effect_of a)) actions
    → All (λ a. IsCounted v.persistent (effect_of a)) actions
All-IsCounted u v [] l h = tt
All-IsCounted u v (a ∷ actions) l h =
    (IsCounted-later u v (effect_of a) l h.0, All-IsCounted u v actions l h.1)

module _ (records : List JournalRecord) (plan : StoredProviderPlan) where
  add_permits-IsLater :
      (permits : List Text) (u : Union) → IsLater u (add_permits records plan u permits)
  unfolding add_permits
  add_permits-IsLater [] u = same-IsLater u
  add_permits-IsLater (permit_id ∷ permits) u =
      let next = add_permit plan u (step_for_permit records permit_id) in
      IsLater-trans u next (add_permits records plan next permits)
        (add_permit-IsLater plan u (step_for_permit records permit_id))
        (add_permits-IsLater permits next)

  -- A permit that was counted in, seen from a later state.
  accounted :
      (permit_id : Text) (u v : Union) (step : Option Text)
      → step_for_permit records permit_id ≡ step
      → (add_permit plan u step).completeness ≡ bounded
      → IsLater (add_permit plan u step) v
      → IsSummed records plan v.persistent permit_id
  unfolding add_permit
  accounted permit_id u v none e h l = cc
  accounted permit_id u v (some step_id) e h l =
      let (planned, counted) = add_step-planned u (actions_of step_id plan.actions) h in
      record {
        step_id = step_id;
        named = e;
        planned = planned;
        counted =
            All-IsCounted (add_step u (actions_of step_id plan.actions)) v
              (actions_of step_id plan.actions) l counted;
      }

  add_permits-IsSummed :
      (permits : List Text) (u : Union)
      → (add_permits records plan u permits).completeness ≡ bounded
      → All (IsSummed records plan (add_permits records plan u permits).persistent) permits
  unfolding add_permits
  add_permits-IsSummed [] u h = tt
  add_permits-IsSummed (permit_id ∷ permits) u h =
      let next = add_permit plan u (step_for_permit records permit_id) in
      let l = add_permits-IsLater permits next in
      (
        accounted permit_id u (add_permits records plan next permits)
            (step_for_permit records permit_id) refl (l.still h) l,
        add_permits-IsSummed permits next h,
      )

-- When the possible effects are bounded, each permit that the ledger leaves unresolved is summed up.
pub possible_effects-AreSummed :
    (j : Journal) (plan : StoredProviderPlan) (declared : DataImpact)
    → (possible_effects j plan declared).completeness ≡ bounded
    → All
        (IsSummed j.records plan (possible_effects j plan declared).effects.persistent)
        (unresolved (from_records j.records))
unfolding possible_effects union_of
possible_effects-AreSummed j plan declared h =
    add_permits-IsSummed j.records plan (unresolved (from_records j.records))
      (record { persistent = []; source_action_ids = []; completeness = bounded }) h
