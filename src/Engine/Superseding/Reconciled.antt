-- ===== src/Engine/Superseding/Reconciled.antt =====
-- What reconciliation concludes from read-only observations.
use ark_forge.Prelude.{
  ℕ, ◌+◌, ◌-◌, ◌<◌, Bool, true, false, not, [], ◌∷◌, length, ◌==◌, if◌then◌else◌, ◌≡◌, refl, ◌↔◌,
  All, arith,
}
use ark_forge.Core.Effect.{PersistentEffect}
use ark_forge.Engine.Superseding.{
  EffectObservation, Observations, count_by, is_seen, is_indeterminate, present, absent,
  indeterminate, verdict, reconcile, ReconcileVerdict, succeeded, confirmed_not_executed,
  still_unknown, not_observable,
}

is_absent : EffectObservation → Bool
is_absent absent = true
is_absent _ = false

counted :
    (os : Observations)
    → count_by is_seen os + count_by is_absent os + count_by is_indeterminate os ≡ length os
unfolding count_by is_seen is_absent is_indeterminate
counted [] = refl
counted ((e, present) ∷ os) = omega (arith, counted os)
counted ((e, absent) ∷ os) = omega (arith, counted os)
counted ((e, indeterminate) ∷ os) = omega (arith, counted os)

-- Every observation is the one given.
abbrev pub AllAre : EffectObservation → Observations → Type 0
AllAre o = All (λ p. p.1 ≡ o)

all_present_iff :
    (os : Observations)
    → ((count_by is_absent os ≡ 0) × (count_by is_indeterminate os ≡ 0)) ↔ AllAre present os
unfolding count_by is_seen is_absent is_indeterminate
all_present_iff [] = (λ h. tt, λ h. (refl, refl))
all_present_iff ((e, present) ∷ os) =
    let (to, from) = all_present_iff os in (λ h. (refl, to h), λ h. from h.1)
all_present_iff ((e, absent) ∷ os) = (λ h. absurd (omega (arith, h.0)), λ h. cc)
all_present_iff ((e, indeterminate) ∷ os) = (λ h. absurd (omega (arith, h.1)), λ h. cc)

all_absent_iff :
    (os : Observations)
    → ((count_by is_seen os ≡ 0) × (count_by is_indeterminate os ≡ 0)) ↔ AllAre absent os
unfolding count_by is_seen is_absent is_indeterminate
all_absent_iff [] = (λ h. tt, λ h. (refl, refl))
all_absent_iff ((e, absent) ∷ os) =
    let (to, from) = all_absent_iff os in (λ h. (refl, to h), λ h. from h.1)
all_absent_iff ((e, present) ∷ os) = (λ h. absurd (omega (arith, h.0)), λ h. cc)
all_absent_iff ((e, indeterminate) ∷ os) = (λ h. absurd (omega (arith, h.1)), λ h. cc)

-- The tests of `reconcile` on the three counts.
concluded : ℕ → ℕ → ℕ → ReconcileVerdict
concluded seen unclear total =
    if not (unclear == 0)
    then still_unknown (not_observable unclear total)
    else verdict seen (total - seen)

concluded-succeeded :
    (seen unclear total missing : ℕ)
    → seen + missing + unclear ≡ total
    → 0 < total
    → (concluded seen unclear total ≡ succeeded) ↔ ((missing ≡ 0) × (unclear ≡ 0))
unfolding concluded verdict
concluded-succeeded seen unclear total missing e l =
    (λ h. (ground arith, ground arith), λ (m, u). ground (arith, m, u))

concluded-confirmed_not_executed :
    (seen unclear total missing : ℕ)
    → seen + missing + unclear ≡ total
    → 0 < total
    → (concluded seen unclear total ≡ confirmed_not_executed) ↔ ((seen ≡ 0) × (unclear ≡ 0))
unfolding concluded verdict
concluded-confirmed_not_executed seen unclear total missing e l =
    (λ h. (ground arith, ground arith), λ (m, u). ground (arith, m, u))

-- Observations that are not none prove a step succeeded exactly when each of them is a present
-- effect, and prove that it was not executed exactly when each is an absent one.
pub reconcile_iff :
    (o : PersistentEffect × EffectObservation) (os : Observations)
    → ((reconcile (o ∷ os) ≡ succeeded) ↔ AllAre present (o ∷ os))
      × ((reconcile (o ∷ os) ≡ confirmed_not_executed) ↔ AllAre absent (o ∷ os))
unfolding reconcile concluded
reconcile_iff o os =
    let all : Observations = o ∷ os in
    let e = counted all in
    let (to, from) =
      concluded-succeeded (count_by is_seen all) (count_by is_indeterminate all) (length all)
        (count_by is_absent all) e (omega arith) in
    let (to', from') =
      concluded-confirmed_not_executed (count_by is_seen all) (count_by is_indeterminate all)
        (length all) (count_by is_absent all) e (omega arith) in
    let (p, q) = all_present_iff all in
    let (p', q') = all_absent_iff all in
    ((λ h. p (to h), λ h. from (q h)), (λ h. p' (to' h), λ h. from' (q' h)))
