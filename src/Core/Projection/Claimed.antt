-- ===== src/Core/Projection/Claimed.antt =====
-- Every effect that a validated plan declares is the effect of one of its steps.
use ark_forge.Prelude.{
  ◌>>=◌, ◌∙◌, Abort, Stop, aborted, refused, map_err, map_err-eq-ok, ℕ, suc, Bool, true, false, not,
  Option, none, some, List, [], ◌∷◌, Result, ok, >>=-eq-ok, ensure-eq-ok, ok_or, replicate, length,
  ◌≡◌, refl, subst, ap, ◌⊎◌, inl, inr, All, Bool-cases, is_empty,
}
use ark_forge.Core.Effect.{PersistentEffect, TransientEffect, EffectSet}
use ark_forge.Core.Step.{FlashStepKind, PublicFlashStep}
use ark_forge.Core.Projection.{
  PrivateActionRecord, StoredProviderPlan, ProjectionDigests, ProjectionError, primary_of,
  primary_effect, unclaimed_persistent_effect, unclaimed_transient_effect,
}
use ark_forge.Core.Projection.Coverage.{
  persistent_effect_matches, transient_effect_matches, Claims, behind, claim, claim_persistent,
  claim_transient, cover_target, cover_kind, cover_steps, all_claimed, validate_effect_coverage,
}
use ark_forge.Core.Projection.Validate.{
  check_steps, step_ids, check_actions, collect_primaries, bind_steps, or_refuse,
  validate_projection,
}
use ark_forge.Core.Fitting.{All-weaken}
use ark_forge.Core.Projection.Primaries.{
  IsIn, primary_of_step, IsComplete, collect_primaries-IsComplete,
}
use ark_forge.Core.Projection.Deeds.{Does, Causes, matches-Does, matches-Causes}

-- The flags stand beside the effects, and a set flag is a fact about its effect.
abbrev Justified : {A : Type 0} → (A → Type 0) → List A → List Bool → Type 0
Justified M [] [] = Unit {0}
Justified M [] (c ∷ claimed) = ⊥
Justified M (a ∷ effects) [] = ⊥
Justified M (a ∷ effects) (c ∷ claimed) = ((c ≡ true) → M a) × Justified M effects claimed

ok_eq {ℓ} : {A : Type ℓ} {x y : A} → ◌≡◌ {A = Result (Stop ProjectionError) A} (ok x) (ok y) → x ≡ y
ok_eq p = cc

some_same {ℓ} : {A : Type ℓ} {x y : A} → some x ≡ some y → x ≡ y
some_same p = cc

ok_same {ℓ} : {A : Type ℓ} {x y : A} → ◌≡◌ {A = Result Abort A} (ok x) (ok y) → x ≡ y
ok_same p = cc

ok_or-some {ℓ} :
    {A : Type ℓ} (o : Option A) (e : Stop ProjectionError) (a : A) → ok_or o e ≡ ok a → o ≡ some a
ok_or-some none e a h = cc
ok_or-some (some x) e a h = ap some (ok_eq h)

behind-some :
    (c : Bool) (o : Option (List Bool)) (claimed : List Bool)
    → behind c o ≡ some claimed
    → (more : List Bool) × (o ≡ some more) × (c ∷ more ≡ claimed)
unfolding behind
behind-some c none claimed h = cc
behind-some c (some more) claimed h = (more, refl, some_same h)

module _ {A : Type 0} (M : A → Type 0) where
  unclaimed-Justified : (effects : List A) → Justified M effects (replicate (length effects) false)
  unclaimed-Justified [] = tt
  unclaimed-Justified (a ∷ effects) = (λ e. cc, unclaimed-Justified effects)

  claim_later :
      (c : Bool) (answer : Result Abort (Option (List Bool))) (claimed : List Bool)
      → (answer >>= λ found. ok (behind c found)) ≡ ok (some claimed)
      → (more : List Bool) × (answer ≡ ok (some more)) × (c ∷ more ≡ claimed)
  claim_later c answer claimed h =
      let (found, e, h1) = >>=-eq-ok answer _ h in
      let (more, p, q) = behind-some c found claimed (ok_same h1) in (more, e ∙ ap ok p, q)

  claim-Justified :
      (p : A → Result Abort Bool) (effects : List A) (claimed claimed' : List Bool)
      → ((a : A) → p a ≡ ok true → M a)
      → Justified M effects claimed
      → claim p effects claimed ≡ ok (some claimed')
      → Justified M effects claimed'
  unfolding claim
  claim-Justified p [] claimed claimed' m j h = cc
  claim-Justified p (a ∷ effects) [] claimed' m j h = cc
  claim-Justified p (a ∷ effects) (true ∷ claimed) claimed' m j h =
      let (more, p1, p2) = claim_later true (claim p effects claimed) claimed' h in
      subst (Justified M (a ∷ effects)) p2 (j.0, claim-Justified p effects claimed more m j.1 p1)
  claim-Justified p (a ∷ effects) (false ∷ claimed) claimed' m j h =
      let (matches, e, h1) = >>=-eq-ok (p a) _ h in
      elim (Bool-cases matches) [
        | inl t ↦
            let same : true ∷ claimed ≡ claimed' = some_same (ok_same (rw t at h1)) in
            subst (Justified M (a ∷ effects)) same (λ _. m a (e ∙ ap ok t), j.1)
        | inr f ↦
            let (more, p1, p2) =
              claim_later false (claim p effects claimed) claimed' (rw f at h1) in
            subst (Justified M (a ∷ effects)) p2
              (j.0, claim-Justified p effects claimed more m j.1 p1)
      ]

  all_claimed-All :
      (unclaimed : ℕ → ProjectionError) (index : ℕ) (effects : List A) (claimed : List Bool)
      → Justified M effects claimed
      → all_claimed unclaimed index claimed ≡ ok tt
      → All M effects
  unfolding all_claimed
  all_claimed-All unclaimed index [] [] j h = tt
  all_claimed-All unclaimed index [] (c ∷ claimed) j h = tt
  all_claimed-All unclaimed index (a ∷ effects) [] j h = absurd j
  all_claimed-All unclaimed index (a ∷ effects) (c ∷ claimed) j h =
      let (p, q) = ensure-eq-ok c _ _ h in
      (j.0 p, all_claimed-All unclaimed (suc index) effects claimed j.1 q)

abbrev pub IsStepOf : PublicFlashStep → List PublicFlashStep → Type 0
IsStepOf s [] = ⊥
IsStepOf s (x ∷ steps) = (s ≡ x) ⊎ IsStepOf s steps

-- A step of the plan that has the lasting effect, by a primary action of the private plan.
pub record IsWritten (plan : StoredProviderPlan) (steps : List PublicFlashStep)
    (e : PersistentEffect) : Type 0 where
  pub step : PublicFlashStep
  pub member : IsStepOf step steps
  pub primary : PrivateActionRecord
  pub planned : IsIn primary plan.actions
  pub role : primary.role ≡ primary_effect
  pub of_step : primary.step_id ≡ step.step_id
  pub does : Does step primary e

-- A step of the plan that has the passing effect.
pub record IsCaused (steps : List PublicFlashStep) (e : TransientEffect) : Type 0 where
  pub step : PublicFlashStep
  pub member : IsStepOf step steps
  pub causes : Causes step e

-- The same by the map of the primary actions.
record IsMatched (primaries : List PrivateActionRecord) (steps : List PublicFlashStep)
    (e : PersistentEffect) : Type 0 where
  step : PublicFlashStep
  member : IsStepOf step steps
  primary : PrivateActionRecord
  found : primary_of primaries step.step_id ≡ some primary
  does : Does step primary e

module _ (primaries : List PrivateActionRecord) (effects : EffectSet)
    (all : List PublicFlashStep) where
  record AreJustified (claims : Claims) : Type 0 where
    written : Justified (IsMatched primaries all) effects.persistent claims.persistent_claimed
    caused : Justified (IsCaused all) effects.transient claims.transient_claimed

  cover_target-AreJustified :
      (s : PublicFlashStep) (claims claims' : Claims)
      → IsStepOf s all
      → AreJustified claims
      → cover_target primaries effects s claims ≡ ok claims'
      → AreJustified claims'
  unfolding cover_target claim_persistent
  cover_target-AreJustified s claims claims' m j h =
      let (target, p, h1) = >>=-eq-ok (ok_or s.semantic_target _) _ h in
      let (primary, q, h2) = >>=-eq-ok (ok_or (primary_of primaries s.step_id) _) _ h1 in
      let answer =
        claim (λ e. persistent_effect_matches e s target primary) effects.persistent
          claims.persistent_claimed in
      let (found, a, h3) = >>=-eq-ok (map_err aborted answer) _ h2 in
      let (claimed, r, h4) = >>=-eq-ok (ok_or found _) _ h3 in
      let asked = map_err-eq-ok aborted answer a ∙ ap ok (ok_or-some found _ claimed r) in
      let targeted = ok_or-some s.semantic_target _ target p in
      let bound = ok_or-some (primary_of primaries s.step_id) _ primary q in
      let same : (record (claims) { persistent_claimed = claimed }) ≡ claims' = ok_eq h4 in
      subst AreJustified same (record {
        written =
            claim-Justified (IsMatched primaries all)
              (λ e. persistent_effect_matches e s target primary) effects.persistent
              claims.persistent_claimed claimed
              (λ e t. record {
                step = s;
                member = m;
                primary = primary;
                found = bound;
                does = matches-Does e s target primary targeted t;
              })
              j.written asked;
        caused = j.caused;
      })

  claim_transient-AreJustified :
      (s : PublicFlashStep) (claims claims' : Claims)
      → IsStepOf s all
      → AreJustified claims
      → claim_transient effects s claims ≡ ok claims'
      → AreJustified claims'
  unfolding claim_transient
  claim_transient-AreJustified s claims claims' m j h =
      let answer =
        claim (λ e. ok (transient_effect_matches s e)) effects.transient claims.transient_claimed in
      let (found, a, h1) = >>=-eq-ok (map_err aborted answer) _ h in
      let (claimed, r, h2) = >>=-eq-ok (ok_or found _) _ h1 in
      let asked = map_err-eq-ok aborted answer a ∙ ap ok (ok_or-some found _ claimed r) in
      let same : (record (claims) { transient_claimed = claimed }) ≡ claims' = ok_eq h2 in
      subst AreJustified same (record {
        written = j.written;
        caused =
            claim-Justified (IsCaused all) (λ e. ok (transient_effect_matches s e))
              effects.transient claims.transient_claimed claimed
              (λ e t. record { step = s; member = m; causes = matches-Causes e s t }) j.caused
              asked;
      })

  cover_kind-AreJustified :
      (s : PublicFlashStep) (kind : FlashStepKind) (claims claims' : Claims)
      → IsStepOf s all
      → AreJustified claims
      → cover_kind primaries effects s claims kind ≡ ok claims'
      → AreJustified claims'
  unfolding cover_kind
  cover_kind-AreJustified s FlashStepKind.write_target claims claims' m j h =
      cover_target-AreJustified s claims claims' m j h
  cover_kind-AreJustified s FlashStepKind.erase_target claims claims' m j h =
      cover_target-AreJustified s claims claims' m j h
  cover_kind-AreJustified s FlashStepKind.ensure_mode claims claims' m j h =
      claim_transient-AreJustified s claims claims' m j h
  cover_kind-AreJustified s FlashStepKind.reboot claims claims' m j h =
      claim_transient-AreJustified s claims claims' m j h
  cover_kind-AreJustified s FlashStepKind.load_ephemeral_agent claims claims' m j h =
      claim_transient-AreJustified s claims claims' m j h
  cover_kind-AreJustified s FlashStepKind.probe_device claims claims' m j h =
      subst AreJustified (ok_eq h) j
  cover_kind-AreJustified s FlashStepKind.validate_layout claims claims' m j h =
      subst AreJustified (ok_eq h) j
  cover_kind-AreJustified s FlashStepKind.verify_target claims claims' m j h =
      subst AreJustified (ok_eq h) j
  cover_kind-AreJustified s FlashStepKind.await_rebind claims claims' m j h =
      subst AreJustified (ok_eq h) j
  cover_kind-AreJustified s FlashStepKind.postflight_probe claims claims' m j h =
      subst AreJustified (ok_eq h) j

  cover_steps-AreJustified :
      (steps : List PublicFlashStep) (claims claims' : Claims)
      → ((s : PublicFlashStep) → IsStepOf s steps → IsStepOf s all)
      → AreJustified claims
      → cover_steps primaries effects steps claims ≡ ok claims'
      → AreJustified claims'
  unfolding cover_steps
  cover_steps-AreJustified [] claims claims' m j h = subst AreJustified (ok_eq h) j
  cover_steps-AreJustified (s ∷ steps) claims claims' m j h =
      let (next, p, q) = >>=-eq-ok (cover_kind primaries effects s claims s.kind) _ h in
      cover_steps-AreJustified steps next claims' (λ x n. m x (inr n))
        (cover_kind-AreJustified s s.kind claims next (m s (inl refl)) j p) q

coverage_sound :
    (primaries : List PrivateActionRecord) (steps : List PublicFlashStep) (effects : EffectSet)
    → validate_effect_coverage primaries steps effects ≡ ok tt
    → All (IsMatched primaries steps) effects.persistent × All (IsCaused steps) effects.transient
unfolding validate_effect_coverage
coverage_sound primaries steps effects h =
    let none_yet : Claims = record {
      persistent_claimed = replicate (length effects.persistent) false;
      transient_claimed = replicate (length effects.transient) false;
    } in
    let (claims, p, h1) = >>=-eq-ok (cover_steps primaries effects steps none_yet) _ h in
    let (u, q, r) =
      >>=-eq-ok (all_claimed unclaimed_persistent_effect 0 claims.persistent_claimed) _ h1 in
    let j =
      cover_steps-AreJustified primaries effects steps steps none_yet claims (λ s m. m)
        (record {
          written = unclaimed-Justified (IsMatched primaries steps) effects.persistent;
          caused = unclaimed-Justified (IsCaused steps) effects.transient;
        })
        p in
    (
      all_claimed-All (IsMatched primaries steps) unclaimed_persistent_effect 0 effects.persistent
          claims.persistent_claimed j.written q,
      all_claimed-All (IsCaused steps) unclaimed_transient_effect 0 effects.transient
          claims.transient_claimed j.caused r,
    )

matched-IsWritten :
    (plan : StoredProviderPlan) (steps : List PublicFlashStep)
    (primaries : List PrivateActionRecord)
    → IsComplete [] primaries plan.actions
    → (e : PersistentEffect) → IsMatched primaries steps e
    → IsWritten plan steps e
matched-IsWritten plan steps primaries complete e m =
    let (of_step, kept) = primary_of_step primaries m.step.step_id m.primary m.found in
    elim (complete.origin m.primary kept) [
      | inl nowhere ↦ absurd nowhere
      | inr (planned, role) ↦ record {
        step = m.step;
        member = m.member;
        primary = m.primary;
        planned = planned;
        role = role;
        of_step = of_step;
        does = m.does;
      }
    ]

-- In a validated projection every lasting effect that is declared is that of a public step: the
-- step's kind is to write or to erase, its target and its content are the effect's, and its primary
-- action names no range or one within the effect's. Every passing effect is that of a step too.
pub validate_projection-IsClaimed :
    (steps : List PublicFlashStep) (plan : StoredProviderPlan) (effects : EffectSet)
    (digests : ProjectionDigests)
    → validate_projection steps plan effects ≡ ok digests
    → All (IsWritten plan steps) effects.persistent × All (IsCaused steps) effects.transient
unfolding validate_projection
validate_projection-IsClaimed steps plan effects digests h =
    let (filled, h1) = ensure-eq-ok (not (is_empty steps)) _ _ h in
    let (u, p1, h2) = >>=-eq-ok (or_refuse (check_steps [] steps)) _ h1 in
    let (v, p2, h3) = >>=-eq-ok (or_refuse (check_actions (step_ids steps) [] plan.actions)) _ h2 in
    let (primaries, p3, h4) = >>=-eq-ok (or_refuse (collect_primaries [] plan.actions)) _ h3 in
    let (bound, p4, h5) = >>=-eq-ok (or_refuse (bind_steps primaries plan steps)) _ h4 in
    let (w, p5, h6) = >>=-eq-ok (validate_effect_coverage primaries steps effects) _ h5 in
    let (written, caused) = coverage_sound primaries steps effects p5 in
    let complete =
      collect_primaries-IsComplete plan.actions [] primaries (map_err-eq-ok refused _ p3) in
    (
      All-weaken (matched-IsWritten plan steps primaries complete) effects.persistent written,
      caused,
    )
