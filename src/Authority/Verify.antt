-- ===== src/Authority/Verify.antt =====
-- What `verify_permit` accepts: exactly the permits that authorize the pending dispatch.
use ark_forge.Prelude.{
  ◌<◌, Bytes, Text, Bool, true, false, not, List, [], ◌∷◌, ◌≡◌, refl, ◌↔◌, leb, ◌==◌, bytes_eq, ok,
  map_err, ensure-eq-ok, >>=-eq-ok, All, arith, bytes_eq_sound, bytes_eq_refl, bytes_eq_iff, ==_iff,
}
use ark_forge.Core.Digest.{constant_time_eq}
use ark_forge.Core.Binding.{AuthorityBindingRef, binding_eq}
use ark_forge.Authority.{
  StepPermit, DispatchIntent, ControllerPairingSecret, VerifiedStepPermit, cbor, check_context,
  context_table, check_dispatch, signing_body, compute, verify_permit,
}

pub binding_eq_iff : (a b : AuthorityBindingRef) → (binding_eq a b ≡ true) ↔ (a ≡ b)
unfolding binding_eq
binding_eq_iff a b = (
  λ h. ground (
    arith,
    bytes_eq_iff a.authority_namespace b.authority_namespace,
    bytes_eq_iff a.binding_id b.binding_id,
    bytes_eq_iff a.stable_identity_digest b.stable_identity_digest,
  ),
  λ e. ground (
    arith,
    e,
    bytes_eq_refl b.authority_namespace,
    bytes_eq_refl b.binding_id,
    bytes_eq_refl b.stable_identity_digest,
  ),
)

check_context-All :
    (table : List (Bool × Text)) → (check_context table ≡ ok tt) ↔ All (λ e. e.0 ≡ true) table
unfolding check_context
check_context-All [] = (λ h. tt, λ h. refl)
check_context-All ((m, f) ∷ table) =
    let (to, from) = check_context-All table in
    (λ h. (ground arith, to (ground arith)), λ h. ground (arith, from h.1, h.0))

-- The permit describes the dispatch that is about to happen, at a time before it expires.
pub record Describes (p : StepPermit) (i : DispatchIntent) : Type 0 where
  pub unexpired : i.now_epoch_ms < p.expires_at_epoch_ms
  pub plan_digest : p.plan_digest ≡ i.plan_digest
  pub private_action : p.private_action_digest ≡ i.private_action_digest
  pub authority : p.authority_namespace ≡ i.authority_binding.authority_namespace
  pub session : p.controller_session_id ≡ i.controller_session_id
  pub job : p.job_id ≡ i.job_id
  pub plan : p.plan_id ≡ i.plan_id
  pub step : p.step_id ≡ i.step_id
  pub attempt : p.attempt_id ≡ i.attempt_id
  pub public_step : p.public_step_digest ≡ i.public_step_digest
  pub effect_set : p.effect_set_digest ≡ i.effect_set_digest
  pub binding : p.authority_binding ≡ i.authority_binding
  pub device_facts : p.admitted_device_facts_digest ≡ i.admitted_device_facts_digest

-- The nine comparisons of the table.
context_table-Describes :
    (p : StepPermit) (i : DispatchIntent)
    → i.now_epoch_ms < p.expires_at_epoch_ms
    → bytes_eq p.plan_digest i.plan_digest ≡ true
    → bytes_eq p.private_action_digest i.private_action_digest ≡ true
    → bytes_eq p.authority_namespace i.authority_binding.authority_namespace ≡ true
    → All (λ e. e.0 ≡ true) (context_table p i)
    → Describes p i
unfolding context_table
context_table-Describes p i time plan action ns t = record {
  unexpired = time;
  plan_digest = bytes_eq_sound _ _ plan;
  private_action = bytes_eq_sound _ _ action;
  authority = bytes_eq_sound _ _ ns;
  session = bytes_eq_sound _ _ t.0;
  job = bytes_eq_sound _ _ t.1.0;
  plan = bytes_eq_sound _ _ t.1.1.0;
  step = bytes_eq_sound _ _ t.1.1.1.0;
  attempt = bytes_eq_sound _ _ t.1.1.1.1.0;
  public_step = bytes_eq_sound _ _ t.1.1.1.1.1.0;
  effect_set = bytes_eq_sound _ _ t.1.1.1.1.1.1.0;
  binding = (binding_eq_iff _ _).0 t.1.1.1.1.1.1.1.0;
  device_facts = bytes_eq_sound _ _ t.1.1.1.1.1.1.1.1.0;
}

bytes_eq_of : (a b : Bytes) → a ≡ b → bytes_eq a b ≡ true
bytes_eq_of a b = (bytes_eq_iff a b).1

Describes-context_table :
    (p : StepPermit) (i : DispatchIntent)
    → Describes p i
    → All (λ e. e.0 ≡ true) (context_table p i)
unfolding context_table
Describes-context_table p i d = (
  bytes_eq_of _ _ d.session,
  (
    bytes_eq_of _ _ d.job,
    (
      bytes_eq_of _ _ d.plan,
      (
        bytes_eq_of _ _ d.step,
        (
          bytes_eq_of _ _ d.attempt,
          (
            bytes_eq_of _ _ d.public_step,
            (
              bytes_eq_of _ _ d.effect_set,
              ((binding_eq_iff _ _).1 d.binding, (bytes_eq_of _ _ d.device_facts, tt)),
            ),
          ),
        ),
      ),
    ),
  ),
)

check_dispatch-Describes :
    (p : StepPermit) (i : DispatchIntent) → check_dispatch p i ≡ ok tt → Describes p i
unfolding check_dispatch
check_dispatch-Describes p i h =
    let (time, h1) = ensure-eq-ok (not (leb p.expires_at_epoch_ms i.now_epoch_ms)) _ _ h in
    let (plan, h2) = ensure-eq-ok (bytes_eq p.plan_digest i.plan_digest) _ _ h1 in
    let (action, h3) =
      ensure-eq-ok (bytes_eq p.private_action_digest i.private_action_digest) _ _ h2 in
    let (ns, h4) =
      ensure-eq-ok (bytes_eq p.authority_namespace i.authority_binding.authority_namespace) _ _
        h3 in
    context_table-Describes p i (ground arith) plan action ns
      ((check_context-All (context_table p i)).0 h4)

check_dispatch_passes :
    (p : StepPermit) (i : DispatchIntent) → Describes p i → check_dispatch p i ≡ ok tt
unfolding check_dispatch
check_dispatch_passes p i d = ground (
  arith,
  d.unexpired,
  bytes_eq_of _ _ d.plan_digest,
  bytes_eq_of _ _ d.private_action,
  bytes_eq_of _ _ d.authority,
  (check_context-All (context_table p i)).1 (Describes-context_table p i d),
)

-- The permit is single-use, of the current pairing epoch, and carries the tag of its own body.
pub record Endorsed (p : StepPermit) (s : ControllerPairingSecret) : Type 0 where
  pub single : p.single_use ≡ true
  pub epoch : p.integrity_tag.epoch ≡ s.epoch
  pub body : Bytes
  pub signed : signing_body p ≡ ok body
  pub tagged : constant_time_eq (compute s body) p.integrity_tag.tag ≡ true

module _ (p : StepPermit) (s : ControllerPairingSecret) (i : DispatchIntent) (consumed : Bool) where
  pub verify_permit_sound :
      (v : VerifiedStepPermit)
      → verify_permit p s i consumed ≡ ok v
      → (v.permit ≡ p) × (consumed ≡ false) × Endorsed p s × Describes p i
  unfolding verify_permit
  verify_permit_sound v h =
      let (unused, h1) = ensure-eq-ok (not consumed) _ _ h in
      let (single, h2) = ensure-eq-ok p.single_use _ _ h1 in
      let (epoch, h3) = ensure-eq-ok (p.integrity_tag.epoch == s.epoch) _ _ h2 in
      let (body, signed, h4) = >>=-eq-ok (map_err cbor (signing_body p)) _ h3 in
      let (tagged, h5) =
        ensure-eq-ok (constant_time_eq (compute s body) p.integrity_tag.tag) _ _ h4 in
      let (u, described, h6) = >>=-eq-ok (check_dispatch p i) _ h5 in
      (
        ground arith,
        ground arith,
        record {
          single = single;
          epoch = (==_iff _ _).0 epoch;
          body = body;
          signed = ground arith;
          tagged = tagged;
        },
        check_dispatch-Describes p i (ground arith),
      )

  verify_permit_complete :
      consumed ≡ false
      → Endorsed p s
      → Describes p i
      → verify_permit p s i consumed ≡ ok (record { permit = p })
  unfolding verify_permit
  verify_permit_complete unused e d =
      simp
        (unused, e.single, (==_iff _ _).1 e.epoch, e.signed, e.tagged, check_dispatch_passes p i d)

  -- A permit is accepted exactly when it was not consumed, is single-use, is of the current epoch,
  -- carries the tag of its own signing body, has not expired, and agrees with the pending dispatch
  -- on the plan, the action, the authority and all nine fields of the context table.
  pub verify_permit_iff :
      (verify_permit p s i consumed ≡ ok (record { permit = p }))
      ↔ ((consumed ≡ false) × Endorsed p s × Describes p i)
  verify_permit_iff = (
    λ h. let r = verify_permit_sound (record { permit = p }) h in (r.1, r.2, r.3),
    λ (unused, e, d). verify_permit_complete unused e d,
  )

-- Nothing but the permit that was presented comes back verified.
pub permit-verify_permit :
    (p : StepPermit) (s : ControllerPairingSecret) (i : DispatchIntent) (consumed : Bool)
    (v : VerifiedStepPermit)
    → verify_permit p s i consumed ≡ ok v
    → v.permit ≡ p
permit-verify_permit p s i consumed v h = (verify_permit_sound p s i consumed v h).0
