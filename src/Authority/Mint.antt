-- ===== src/Authority/Mint.antt =====
-- `authority_side::mint_integrity_tag` against `verify_permit`.
use ark_forge.Prelude.{
  Bytes, true, false, ◌≡◌, ◌≢◌, refl, ◌∙◌, ok, err, >>=-eq-ok, arith, bytes_eq_refl, ne→==,
}
use ark_forge.Core.Digest.{hmac_sha256, constant_time_eq}
use ark_forge.Core.Digest.Tag.{hmac_sha256-IsBytes, constant_time_eq-bytes_eq}
use ark_forge.Authority.{
  StepPermit, PermitIntegrityTag, DispatchIntent, ControllerPairingSecret, permit_body,
  signing_body, compute, verify_permit, mint_integrity_tag, stale_pairing_epoch,
}
use ark_forge.Authority.Verify.{Describes, Endorsed, verify_permit_iff}

abbrev pub sealed : StepPermit → PermitIntegrityTag → StepPermit
sealed p t = record p { integrity_tag = t }

-- The tag is not among the bytes that it covers.
pub signing_body-sealed :
    (p : StepPermit) (t : PermitIntegrityTag) → signing_body (sealed p t) ≡ signing_body p
unfolding signing_body permit_body
signing_body-sealed p t = refl

hmac_self :
    (key body : Bytes) → constant_time_eq (hmac_sha256 key body) (hmac_sha256 key body) ≡ true
hmac_self key body =
    let digest = hmac_sha256-IsBytes key body in
    constant_time_eq-bytes_eq _ _ digest digest refl ∙ bytes_eq_refl _

Describes-sealed :
    {p : StepPermit} {i : DispatchIntent} (t : PermitIntegrityTag)
    → Describes p i
    → Describes (sealed p t) i
Describes-sealed t d = record {
  unexpired = d.unexpired;
  plan_digest = d.plan_digest;
  private_action = d.private_action;
  authority = d.authority;
  session = d.session;
  job = d.job;
  plan = d.plan;
  step = d.step;
  attempt = d.attempt;
  public_step = d.public_step;
  effect_set = d.effect_set;
  binding = d.binding;
  device_facts = d.device_facts;
}

module _ (p : StepPermit) (s : ControllerPairingSecret) (t : PermitIntegrityTag)
    (minted : mint_integrity_tag p s ≡ ok t) where
  sealed-Endorsed : p.single_use ≡ true → Endorsed (sealed p t) s
  unfolding mint_integrity_tag compute
  sealed-Endorsed single =
      let (body, signed, e) = >>=-eq-ok (signing_body p) _ minted in
      record {
        single = single;
        epoch = ground arith;
        body = body;
        signed = signing_body-sealed p t ∙ signed;
        tagged = ground (arith, hmac_self s.secret body);
      }

  -- A single-use permit under the tag that the authority minted for it is accepted by the holder of
  -- the same secret, for every dispatch that the permit describes and that did not consume it.
  pub verify_permit-mint :
      (i : DispatchIntent)
      → p.single_use ≡ true
      → Describes p i
      → verify_permit (sealed p t) s i false ≡ ok (record { permit = sealed p t })
  verify_permit-mint i single d =
      (verify_permit_iff (sealed p t) s i false).1
        (refl, sealed-Endorsed single, Describes-sealed t d)

  -- After the pairing epoch has moved on, the same permit is refused as stale, whatever the secret.
  pub verify_permit-mint_stale :
      (later : ControllerPairingSecret) (i : DispatchIntent)
      → p.single_use ≡ true
      → s.epoch ≢ later.epoch
      → verify_permit (sealed p t) later i false ≡ err (stale_pairing_epoch s.epoch later.epoch)
  unfolding verify_permit mint_integrity_tag
  verify_permit-mint_stale later i single moved =
      let (body, signed, e) = >>=-eq-ok (signing_body p) _ minted in
      let tagged : t.epoch ≡ s.epoch = ground arith in
      simp (single, tagged, ne→== s.epoch later.epoch moved)
