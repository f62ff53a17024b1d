-- ===== src/Authority/Reread.antt =====
-- A permit is read back from the bytes that its authority signed.
use ark_forge.Prelude.{
  ℕ, suc, ◌^◌, ◌<◌, Bytes, Bool, [], ◌∷◌, Text, str, bytes_eq, bytes_lt, bytes_eq_refl, ◌≡◌, refl,
  some, ok, length, map_err, map_err-eq-ok, bytes_eq_sound, ◌>>=◌, >>=-eq-ok, ensure-eq-ok, ◌↔◌,
}
use ark_forge.Core.Cbor.{CborValue, CborEntries, text, bytes, unsigned, bool, end}
use ark_forge.Core.Cbor.Encode.{encode, encode_head, initial_byte}
use ark_forge.Core.Cbor.Decode.{
  utf8_from, utf8_step, utf8_lead, is_utf8, max_depth, decode_canonical,
}
use ark_forge.Core.Cbor.Arrange.{place, arrange, arrange_entries, Fits}
use ark_forge.Core.Cbor.RoundTrip.{decode_canonical-encode}
use ark_forge.Core.Binding.{AuthorityBindingRef, cbor_entries, cbor_map, binding_cbor, field}
use ark_forge.Core.Fitting.{unsigned-Fits, digest-Fits, id-Fits, FieldFits, cbor_map-Fits}
use ark_forge.Core.Ids.{IsId, opaque_id-IsId}
use ark_forge.Authority.{StepPermit, permit_body, signing_body}
use ark_forge.Authority.Decode.{
  want_text, want_unsigned, want_bool, want_digest, want_map, want_id, binding_of, blank_tag,
  permit_of, permit_from_bytes, undecodable, not_canonical, not_a_map,
}
use ark_forge.Authority.Mint.{sealed, signing_body-sealed}

-- What the permit's types promise: identifiers, 32-byte digests and `u64`.
pub record IsReference (b : AuthorityBindingRef) : Type 0 where
  pub namespace_IsId : IsId b.authority_namespace
  pub binding_IsId : IsId b.binding_id
  pub revision_small : b.binding_revision < 2 ^ 64
  pub identity_size : length b.stable_identity_digest ≡ 32

pub record IsSignable (p : StepPermit) : Type 0 where
  pub permit_IsId : IsId p.permit_id
  pub authority_IsId : IsId p.authority_namespace
  pub session_IsId : IsId p.controller_session_id
  pub job_IsId : IsId p.job_id
  pub plan_IsId : IsId p.plan_id
  pub plan_size : length p.plan_digest ≡ 32
  pub step_IsId : IsId p.step_id
  pub attempt_IsId : IsId p.attempt_id
  pub step_size : length p.public_step_digest ≡ 32
  pub action_size : length p.private_action_digest ≡ 32
  pub effects_size : length p.effect_set_digest ≡ 32
  pub reference : IsReference p.authority_binding
  pub facts_size : length p.admitted_device_facts_digest ≡ 32
  pub issued_small : p.issued_at_epoch_ms < 2 ^ 64
  pub expires_small : p.expires_at_epoch_ms < 2 ^ 64

entries_in : CborValue → CborEntries
entries_in (CborValue.map es) = es
entries_in _ = end

arranged : CborValue → CborEntries
arranged v = entries_in (arrange v)

want_id-IsId : (name t : Text) → IsId t → want_id name (some (text t)) ≡ ok t
unfolding want_id want_text
want_id-IsId name t h = rw ((opaque_id-IsId t t).1 (refl, h)) refl

want_digest-size :
    (name : Text) (b : Bytes) → length b ≡ 32 → want_digest name (some (bytes b)) ≡ ok b
unfolding want_digest
want_digest-size name b h = rw h refl

binding_of-arranged :
    (b : AuthorityBindingRef) → IsReference b → binding_of (arranged (binding_cbor b)) ≡ ok b
unfolding binding_of arranged entries_in binding_cbor cbor_map cbor_entries arrange arrange_entries
    place field encode bytes_eq bytes_lt encode_head initial_byte want_unsigned
binding_of-arranged b r =
    rw
      (
        want_id-IsId (str "authorityBinding") b.authority_namespace r.namespace_IsId,
        want_id-IsId (str "authorityBinding") b.binding_id r.binding_IsId,
        want_digest-size (str "authorityBinding") b.stable_identity_digest r.identity_size,
      )
      refl

record AllFields (p : StepPermit) (es : CborEntries) : Type 0 where
  has_permit : field es (str "permitId") ≡ some (text p.permit_id)
  has_authority : field es (str "authorityNamespace") ≡ some (text p.authority_namespace)
  has_session : field es (str "controllerSessionId") ≡ some (text p.controller_session_id)
  has_job : field es (str "jobId") ≡ some (text p.job_id)
  has_plan : field es (str "planId") ≡ some (text p.plan_id)
  has_plan_digest : field es (str "planDigest") ≡ some (bytes p.plan_digest)
  has_step : field es (str "stepId") ≡ some (text p.step_id)
  has_attempt : field es (str "attemptId") ≡ some (text p.attempt_id)
  has_step_digest : field es (str "publicStepDigest") ≡ some (bytes p.public_step_digest)
  has_action : field es (str "privateActionDigest") ≡ some (bytes p.private_action_digest)
  has_effects : field es (str "effectSetDigest") ≡ some (bytes p.effect_set_digest)
  has_binding :
      field es (str "authorityBinding")
      ≡ some (CborValue.map (arranged (binding_cbor p.authority_binding)))
  has_facts :
      field es (str "admittedDeviceFactsDigest") ≡ some (bytes p.admitted_device_facts_digest)
  has_issued : field es (str "issuedAtEpochMs") ≡ some (unsigned p.issued_at_epoch_ms)
  has_expires : field es (str "expiresAtEpochMs") ≡ some (unsigned p.expires_at_epoch_ms)
  has_single : field es (str "singleUse") ≡ some (bool p.single_use)

arranged-AllFields : (p : StepPermit) → AllFields p (arranged (permit_body p))
unfolding arranged entries_in permit_body binding_cbor cbor_map cbor_entries arrange arrange_entries
    place field encode bytes_eq bytes_lt encode_head initial_byte
arranged-AllFields p = record {
  has_permit = refl;
  has_authority = refl;
  has_session = refl;
  has_job = refl;
  has_plan = refl;
  has_plan_digest = refl;
  has_step = refl;
  has_attempt = refl;
  has_step_digest = refl;
  has_action = refl;
  has_effects = refl;
  has_binding = refl;
  has_facts = refl;
  has_issued = refl;
  has_expires = refl;
  has_single = refl;
}

permit_of-AllFields :
    (p : StepPermit) (es : CborEntries)
    → IsSignable p
    → AllFields p es
    → permit_of es ≡ ok (sealed p blank_tag)
unfolding permit_of want_map want_unsigned want_bool
permit_of-AllFields p es s f =
    rw
      (
        f.has_permit,
        f.has_authority,
        f.has_session,
        f.has_job,
        f.has_plan,
        f.has_plan_digest,
        f.has_step,
        f.has_attempt,
        f.has_step_digest,
        f.has_action,
        f.has_effects,
        f.has_binding,
        f.has_facts,
        f.has_issued,
        f.has_expires,
        f.has_single,
        binding_of-arranged p.authority_binding s.reference,
        want_id-IsId (str "permitId") p.permit_id s.permit_IsId,
        want_id-IsId (str "authorityNamespace") p.authority_namespace s.authority_IsId,
        want_id-IsId (str "controllerSessionId") p.controller_session_id s.session_IsId,
        want_id-IsId (str "jobId") p.job_id s.job_IsId,
        want_id-IsId (str "planId") p.plan_id s.plan_IsId,
        want_digest-size (str "planDigest") p.plan_digest s.plan_size,
        want_id-IsId (str "stepId") p.step_id s.step_IsId,
        want_id-IsId (str "attemptId") p.attempt_id s.attempt_IsId,
        want_digest-size (str "publicStepDigest") p.public_step_digest s.step_size,
        want_digest-size (str "privateActionDigest") p.private_action_digest s.action_size,
        want_digest-size (str "effectSetDigest") p.effect_set_digest s.effects_size,
        want_digest-size (str "admittedDeviceFactsDigest") p.admitted_device_facts_digest
            s.facts_size,
      )
      refl

binding-Fits :
    (levels : ℕ) (b : AuthorityBindingRef)
    → IsReference b
    → Fits (suc (suc levels)) (binding_cbor b)
unfolding binding_cbor FieldFits is_utf8 utf8_from utf8_step utf8_lead
binding-Fits levels b r =
    cbor_map-Fits levels
      (("authorityNamespace", text b.authority_namespace)
        ∷ ("bindingId", text b.binding_id)
        ∷ ("bindingRevision", unsigned b.binding_revision)
        ∷ ("stableIdentityDigest", bytes b.stable_identity_digest)
        ∷ [])
      refl
      (
        (refl, refl, id-Fits levels b.authority_namespace r.namespace_IsId),
        (
          (refl, refl, id-Fits levels b.binding_id r.binding_IsId),
          (
            (refl, refl, unsigned-Fits levels b.binding_revision r.revision_small),
            ((refl, refl, digest-Fits levels b.stable_identity_digest r.identity_size), tt),
          ),
        ),
      )

bool-Fits : (levels : ℕ) (b : Bool) → Fits (suc levels) (bool b)
unfolding Fits
bool-Fits levels b = tt

permit_body-Fits : (p : StepPermit) → IsSignable p → Fits (suc max_depth) (permit_body p)
unfolding permit_body FieldFits is_utf8 utf8_from utf8_step utf8_lead
permit_body-Fits p s = cbor_map-Fits 63 _ refl (
  (refl, refl, id-Fits 63 p.permit_id s.permit_IsId),
  (
    (refl, refl, id-Fits 63 p.authority_namespace s.authority_IsId),
    (
      (refl, refl, id-Fits 63 p.controller_session_id s.session_IsId),
      (
        (refl, refl, id-Fits 63 p.job_id s.job_IsId),
        (
          (refl, refl, id-Fits 63 p.plan_id s.plan_IsId),
          (
            (refl, refl, digest-Fits 63 p.plan_digest s.plan_size),
            (
              (refl, refl, id-Fits 63 p.step_id s.step_IsId),
              (
                (refl, refl, id-Fits 63 p.attempt_id s.attempt_IsId),
                (
                  (refl, refl, digest-Fits 63 p.public_step_digest s.step_size),
                  (
                    (refl, refl, digest-Fits 63 p.private_action_digest s.action_size),
                    (
                      (refl, refl, digest-Fits 63 p.effect_set_digest s.effects_size),
                      (
                        (refl, refl, binding-Fits 62 p.authority_binding s.reference),
                        (
                          (refl, refl, digest-Fits 63 p.admitted_device_facts_digest s.facts_size),
                          (
                            (refl, refl, unsigned-Fits 63 p.issued_at_epoch_ms s.issued_small),
                            (
                              (refl, refl, unsigned-Fits 63 p.expires_at_epoch_ms s.expires_small),
                              ((refl, refl, bool-Fits 63 p.single_use), tt),
                            ),
                          ),
                        ),
                      ),
                    ),
                  ),
                ),
              ),
            ),
          ),
        ),
      ),
    ),
  ),
)

reread_signed :
    (p : StepPermit) (b : Bytes)
    → IsSignable p
    → signing_body p ≡ ok b
    → permit_from_bytes b ≡ ok (sealed p blank_tag)
unfolding permit_from_bytes signing_body permit_body cbor_map arranged entries_in arrange want_map
reread_signed p b s e =
    rw
      (
        decode_canonical-encode (permit_body p) b (permit_body-Fits p s) e,
        permit_of-AllFields p (arranged (permit_body p)) s (arranged-AllFields p),
        e,
        bytes_eq_refl b,
      )
      refl

signed_bytes : (p : StepPermit) (b : Bytes) → permit_from_bytes b ≡ ok p → signing_body p ≡ ok b
unfolding permit_from_bytes
signed_bytes p b h =
    let (value, _, h1) = >>=-eq-ok (map_err undecodable (decode_canonical b)) _ h in
    let (q, _, h2) = >>=-eq-ok (want_map not_a_map (some value) >>= permit_of) _ h1 in
    let (again, m, h3) = >>=-eq-ok (map_err undecodable (signing_body q)) _ h2 in
    let (same, returned) = ensure-eq-ok (bytes_eq again b) not_canonical _ h3 in
    let m' = map_err-eq-ok undecodable (signing_body q) m in
    let eq : again ≡ b = bytes_eq_sound again b same in cc

-- For a permit whose fields fit their types: bytes are read as that permit, its tag blank, exactly
-- when they are those that the permit's tag is computed over.
pub permit_from_bytes_iff :
    (p : StepPermit) (b : Bytes)
    → IsSignable p
    → (permit_from_bytes b ≡ ok (sealed p blank_tag)) ↔ (signing_body p ≡ ok b)
permit_from_bytes_iff p b s = (
  λ h.
      let e = signing_body-sealed p blank_tag in
      let q = signed_bytes (sealed p blank_tag) b h in cc,
  reread_signed p b s,
)
