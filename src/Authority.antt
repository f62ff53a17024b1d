-- ===== src/Authority.antt =====
-- crates/arkforge-authority-api/src/lib.rs: permits, the pending dispatch, and their verification.
pub mod Verify
pub mod Decode
pub mod Reread
pub mod Freshness
pub mod Mint
use ark_forge.Prelude.{
  ℕ, Bytes, Text, str, Bool, true, false, not, List, [], ◌∷◌, leb, ◌==◌, bytes_eq, if◌then◌else◌,
  Result, ok, err, ◌>>=◌, map_err, ensure,
}
use ark_forge.Core.Cbor.{CborValue, CborError, text, bytes, unsigned, bool}
use ark_forge.Core.Cbor.Encode.{encode}
use ark_forge.Core.Digest.{hmac_sha256, constant_time_eq}
use ark_forge.Core.Digest.Sha256.{Digest}
use ark_forge.Core.Ids.{OpaqueId}
use ark_forge.Core.Binding.{AuthorityBindingRef, cbor_map, binding_cbor, binding_eq}

-- `PairingEpoch` is its number.
pub record PermitIntegrityTag : Type 0 where
  pub epoch : ℕ
  pub tag : Digest

pub record StepPermit : Type 0 where
  pub permit_id : OpaqueId
  pub authority_namespace : OpaqueId
  pub controller_session_id : OpaqueId
  pub job_id : OpaqueId
  pub plan_id : OpaqueId
  pub plan_digest : Digest
  pub step_id : OpaqueId
  pub attempt_id : OpaqueId
  pub public_step_digest : Digest
  pub private_action_digest : Digest
  pub effect_set_digest : Digest
  pub authority_binding : AuthorityBindingRef
  pub admitted_device_facts_digest : Digest
  pub issued_at_epoch_ms : ℕ
  pub expires_at_epoch_ms : ℕ
  pub single_use : Bool
  pub integrity_tag : PermitIntegrityTag

-- Everything but the tag.
unfoldable pub permit_body : StepPermit → CborValue
permit_body p = cbor_map (
    ("permitId", text p.permit_id)
    ∷ ("authorityNamespace", text p.authority_namespace)
    ∷ ("controllerSessionId", text p.controller_session_id)
    ∷ ("jobId", text p.job_id)
    ∷ ("planId", text p.plan_id)
    ∷ ("planDigest", bytes p.plan_digest)
    ∷ ("stepId", text p.step_id)
    ∷ ("attemptId", text p.attempt_id)
    ∷ ("publicStepDigest", bytes p.public_step_digest)
    ∷ ("privateActionDigest", bytes p.private_action_digest)
    ∷ ("effectSetDigest", bytes p.effect_set_digest)
    ∷ ("authorityBinding", binding_cbor p.authority_binding)
    ∷ ("admittedDeviceFactsDigest", bytes p.admitted_device_facts_digest)
    ∷ ("issuedAtEpochMs", unsigned p.issued_at_epoch_ms)
    ∷ ("expiresAtEpochMs", unsigned p.expires_at_epoch_ms)
    ∷ ("singleUse", bool p.single_use)
    ∷ [])

unfoldable pub signing_body : StepPermit → Result CborError Bytes
signing_body p = encode (permit_body p)

pub record ControllerPairingSecret : Type 0 where
  pub epoch : ℕ
  pub secret : Bytes

unfoldable pub compute : ControllerPairingSecret → Bytes → Digest
compute s body = hmac_sha256 s.secret body

pub record VerifiedStepPermit : Type 0 where
  pub permit : StepPermit

pub data PermitVerificationError : Type 0 where
  integrity_tag_invalid : PermitVerificationError
  stale_pairing_epoch : ℕ → ℕ → PermitVerificationError
  expired : ℕ → ℕ → PermitVerificationError
  action_mismatch : Digest → Digest → PermitVerificationError
  plan_mismatch : Digest → Digest → PermitVerificationError
  context_mismatch : Text → PermitVerificationError
  already_consumed : PermitVerificationError
  not_single_use : PermitVerificationError
  cbor : CborError → PermitVerificationError

pub record DispatchIntent : Type 0 where
  pub controller_session_id : OpaqueId
  pub job_id : OpaqueId
  pub plan_id : OpaqueId
  pub plan_digest : Digest
  pub step_id : OpaqueId
  pub attempt_id : OpaqueId
  pub public_step_digest : Digest
  pub private_action_digest : Digest
  pub effect_set_digest : Digest
  pub authority_binding : AuthorityBindingRef
  pub admitted_device_facts_digest : Digest
  pub now_epoch_ms : ℕ

-- The loop over the table of comparisons.
unfoldable pub check_context : List (Bool × Text) → Result PermitVerificationError (Unit {0})
check_context [] = ok tt
check_context ((matches, field) ∷ rest) =
    let others = check_context rest in if matches then others else err (context_mismatch field)

unfoldable pub context_table : StepPermit → DispatchIntent → List (Bool × Text)
context_table p i =
    (bytes_eq p.controller_session_id i.controller_session_id, str "controllerSessionId")
    ∷ (bytes_eq p.job_id i.job_id, str "jobId")
    ∷ (bytes_eq p.plan_id i.plan_id, str "planId")
    ∷ (bytes_eq p.step_id i.step_id, str "stepId")
    ∷ (bytes_eq p.attempt_id i.attempt_id, str "attemptId")
    ∷ (bytes_eq p.public_step_digest i.public_step_digest, str "publicStepDigest")
    ∷ (bytes_eq p.effect_set_digest i.effect_set_digest, str "effectSetDigest")
    ∷ (binding_eq p.authority_binding i.authority_binding, str "authorityBinding")
    ∷ (
      bytes_eq p.admitted_device_facts_digest i.admitted_device_facts_digest,
      str "admittedDeviceFactsDigest",
    )
    ∷ []

-- The tests behind the tag, in the source's order.
unfoldable pub check_dispatch :
    StepPermit → DispatchIntent → Result PermitVerificationError (Unit {0})
check_dispatch p i =
    ensure (not (leb p.expires_at_epoch_ms i.now_epoch_ms))
      (expired p.expires_at_epoch_ms i.now_epoch_ms)
    >>= λ _.
        ensure (bytes_eq p.plan_digest i.plan_digest) (plan_mismatch i.plan_digest p.plan_digest)
        >>= λ _.
            ensure (bytes_eq p.private_action_digest i.private_action_digest)
              (action_mismatch i.private_action_digest p.private_action_digest)
            >>= λ _.
                ensure (bytes_eq p.authority_namespace i.authority_binding.authority_namespace)
                  (context_mismatch (str "authorityNamespace"))
                >>= λ _. check_context (context_table p i)

unfoldable pub verify_permit :
    StepPermit
    → ControllerPairingSecret
    → DispatchIntent
    → Bool
    → Result PermitVerificationError VerifiedStepPermit
verify_permit p s i consumed = ensure (not consumed) already_consumed >>= λ _.
    ensure p.single_use not_single_use >>= λ _.
    ensure (p.integrity_tag.epoch == s.epoch) (stale_pairing_epoch p.integrity_tag.epoch s.epoch)
    >>= λ _. map_err cbor (signing_body p) >>= λ body.
        ensure (constant_time_eq (compute s body) p.integrity_tag.tag) integrity_tag_invalid
        >>= λ _. check_dispatch p i >>= λ _. ok (record { permit = p })

-- `authority_side::mint_integrity_tag`.
unfoldable pub mint_integrity_tag :
    StepPermit → ControllerPairingSecret → Result CborError PermitIntegrityTag
mint_integrity_tag p s =
    signing_body p >>= λ body. ok (record { epoch = s.epoch; tag = hmac_sha256 s.secret body })
