-- ===== src/Core/Projection/Primaries.antt =====
-- The primary actions that a projection collects: one for each step, of the plan.
use ark_forge.Prelude.{
  Text, bytes_eq, bytes_eq_iff, bytes_eq_refl, true, false, not, Option, none, some, List, [], ◌∷◌,
  Result, ok, >>=-eq-ok, ensure-eq-ok, ◌≡◌, refl, sym, subst, ap, ◌∙◌, ◌⊎◌, inl, inr, All, arith,
  Bool-cases,
}
use ark_forge.Core.Step.{WorkflowEffect, read_only, is_present}
use ark_forge.Core.Projection.{
  PrivateActionRole, primary_effect, read_only_transport_sub_action, PrivateActionRecord,
  ProjectionError, primary_of,
}
use ark_forge.Core.Projection.Validate.{is_read_only, add_primary, collect_primaries}

abbrev pub IsIn : PrivateActionRecord → List PrivateActionRecord → Type 0
IsIn a [] = ⊥
IsIn a (x ∷ xs) = (a ≡ x) ⊎ IsIn a xs

pub some_eq {ℓ} : {A : Type ℓ} {x y : A} → some x ≡ some y → x ≡ y
some_eq p = cc

pub ok_eq {ℓ} : {A : Type ℓ} {x y : A} → ◌≡◌ {A = Result ProjectionError A} (ok x) (ok y) → x ≡ y
ok_eq p = cc

pub primary_of_step :
    (primaries : List PrivateActionRecord) (step_id : Text) (a : PrivateActionRecord)
    → primary_of primaries step_id ≡ some a
    → (a.step_id ≡ step_id) × IsIn a primaries
unfolding primary_of
primary_of_step [] step_id a h = cc
primary_of_step (x ∷ xs) step_id a h = elim (Bool-cases (bytes_eq x.step_id step_id)) [
  | inl p ↦
      let same : x ≡ a = some_eq (rw p at h) in
      (ap (λ y. y.step_id) (sym same) ∙ (bytes_eq_iff x.step_id step_id).0 p, inl (sym same))
  | inr p ↦ let (e, m) = primary_of_step xs step_id a (rw p at h) in (e, inr m)
]

-- Of the actions seen: a primary one is the map's entry for its step, and another is read-only.
pub record IsCollected (primaries : List PrivateActionRecord) (a : PrivateActionRecord)
    : Type 0 where
  pub found : a.role ≡ primary_effect → primary_of primaries a.step_id ≡ some a
  pub harmless : a.role ≡ read_only_transport_sub_action → a.effect_class ≡ read_only

is_read_only_sound : (e : WorkflowEffect) → is_read_only e ≡ true → e ≡ read_only
unfolding is_read_only
is_read_only_sound e h = ground arith

-- The map grows by one action whose step has none yet: the other entries stay.
primary_of_grown :
    (primaries : List PrivateActionRecord) (x a : PrivateActionRecord) (step_id : Text)
    → is_present (primary_of primaries x.step_id) ≡ false
    → primary_of primaries step_id ≡ some a
    → primary_of (x ∷ primaries) step_id ≡ some a
unfolding primary_of is_present
primary_of_grown primaries x a step_id fresh h = elim (Bool-cases (bytes_eq x.step_id step_id)) [
  | inr p ↦ rw p h
  | inl p ↦
      let e : primary_of primaries x.step_id ≡ some a =
        ap (primary_of primaries) ((bytes_eq_iff x.step_id step_id).0 p) ∙ h in
      absurd (present_twice (primary_of primaries x.step_id) a fresh e)
]
  where
    present_twice :
        (o : Option PrivateActionRecord) (a : PrivateActionRecord)
        → is_present o ≡ false
        → o ≡ some a
        → ⊥
    present_twice none a h e = cc
    present_twice (some x) a h e = unfold is_present in cc

-- What a map says of everything that was collected into it.
pub record IsComplete (from to : List PrivateActionRecord) (actions : List PrivateActionRecord)
    : Type 0 where
  pub collected : All (IsCollected to) actions
  pub kept :
      (a : PrivateActionRecord) (step_id : Text)
      → primary_of from step_id ≡ some a
      → primary_of to step_id ≡ some a
  pub origin :
      (a : PrivateActionRecord)
      → IsIn a to
      → IsIn a from ⊎ (IsIn a actions × (a.role ≡ primary_effect))

-- One action added.
record IsAdded (from to : List PrivateActionRecord) (a : PrivateActionRecord) : Type 0 where
  here : IsCollected to a
  stays :
      (x : PrivateActionRecord) (step_id : Text)
      → primary_of from step_id ≡ some x
      → primary_of to step_id ≡ some x
  source :
      (x : PrivateActionRecord) → IsIn x to → IsIn x from ⊎ ((x ≡ a) × (a.role ≡ primary_effect))

add_primary-IsAdded :
    (from to : List PrivateActionRecord) (a : PrivateActionRecord) (role : PrivateActionRole)
    → a.role ≡ role
    → add_primary from a role ≡ ok to
    → IsAdded from to a
unfolding add_primary
add_primary-IsAdded from to a primary_effect r h =
    let (p, q) = ensure-eq-ok (not (is_present (primary_of from a.step_id))) _ _ h in
    let same : to ≡ a ∷ from = cc in
    let fresh : is_present (primary_of from a.step_id) ≡ false = ground (arith, p) in
    subst (λ t. IsAdded from t a) (sym same)
      (record {
        here = record {
          found = λ e. unfold primary_of in rw (bytes_eq_refl a.step_id) refl;
          harmless = λ e. absurd (roles_differ (sym r ∙ e));
        };
        stays = λ x step_id e. primary_of_grown from a x step_id fresh e;
        source = λ x m. elim m [ inl e ↦ inr (e, r) | inr n ↦ inl n ];
      })
  where
    roles_differ : primary_effect ≡ read_only_transport_sub_action → ⊥
    roles_differ e = cc
add_primary-IsAdded from to a read_only_transport_sub_action r h =
    let (p, q) = ensure-eq-ok (is_read_only a.effect_class) _ _ h in
    let same : to ≡ from = cc in
    subst (λ t. IsAdded from t a) (sym same)
      (record {
        here = record {
          found = λ e. absurd (roles_differ (sym e ∙ r));
          harmless = λ e. is_read_only_sound a.effect_class p;
        };
        stays = λ x step_id e. e;
        source = λ x m. inl m;
      })
  where
    roles_differ : primary_effect ≡ read_only_transport_sub_action → ⊥
    roles_differ e = cc

pub collect_primaries-IsComplete :
    (actions from to : List PrivateActionRecord)
    → collect_primaries from actions ≡ ok to
    → IsComplete from to actions
unfolding collect_primaries
collect_primaries-IsComplete [] from to h =
    subst (λ t. IsComplete from t []) (ok_eq h)
      (record { collected = tt; kept = λ a s e. e; origin = λ a m. inl m })
collect_primaries-IsComplete (a ∷ actions) from to h =
    let (more, p, q) = >>=-eq-ok (add_primary from a a.role) _ h in
    let one = add_primary-IsAdded from more a a.role refl p in
    let rest = collect_primaries-IsComplete actions more to q in
    record {
      collected = (
        record {
          found = λ r. rest.kept a a.step_id (one.here.found r);
          harmless = one.here.harmless;
        },
        rest.collected,
      );
      kept = λ x step_id e. rest.kept x step_id (one.stays x step_id e);
      origin = λ x m. elim (rest.origin x m) [
        | inr (n, r) ↦ inr (inr n, r)
        | inl n ↦ elim (one.source x n) [
          | inl k ↦ inl k
          | inr (e, r) ↦ inr (inl e, ap (λ y. y.role) e ∙ r)
        ]
      ];
    }
