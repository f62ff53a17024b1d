-- ===== src/Authority/Decode.antt =====
-- `StepPermit::from_canonical_bytes`: a permit read back from the bytes that its authority signed.
use ark_forge.Prelude.{
  ℕ, Bytes, Text, str, bytes_eq, Bool, ◌==◌, length, replicate, Option, some, Result, ok, err,
  ◌>>=◌, map_err, ensure, if◌then◌else◌,
}
use ark_forge.Core.Cbor.{CborValue, CborError, CborEntries, text, bytes, unsigned, bool}
use ark_forge.Core.Cbor.Decode.{decode_canonical}
use ark_forge.Core.Binding.{AuthorityBindingRef, field}
use ark_forge.Core.Digest.Sha256.{Digest}
use ark_forge.Core.Ids.{OpaqueId, IdError, opaque_id}
use ark_forge.Authority.{PermitIntegrityTag, StepPermit, signing_body}

pub data PermitDecodeError : Type 0 where
  not_a_map : PermitDecodeError
  malformed : Text → PermitDecodeError
  not_canonical : PermitDecodeError
  undecodable : CborError → PermitDecodeError

-- A value of a shape, or the error that names the field.
unfoldable pub want_text : Text → Option CborValue → Result PermitDecodeError Text
want_text name (some (text t)) = ok t
want_text name _ = err (malformed name)

unfoldable pub want_unsigned : Text → Option CborValue → Result PermitDecodeError ℕ
want_unsigned name (some (unsigned n)) = ok n
want_unsigned name _ = err (malformed name)

unfoldable pub want_bool : Text → Option CborValue → Result PermitDecodeError Bool
want_bool name (some (bool b)) = ok b
want_bool name _ = err (malformed name)

unfoldable pub want_digest : Text → Option CborValue → Result PermitDecodeError Digest
want_digest name (some (bytes b)) = if length b == 32 then ok b else err (malformed name)
want_digest name _ = err (malformed name)

unfoldable pub want_map :
    PermitDecodeError → Option CborValue → Result PermitDecodeError CborEntries
want_map error (some (CborValue.map es)) = ok es
want_map error _ = err error

unfoldable pub want_id : Text → Option CborValue → Result PermitDecodeError OpaqueId
want_id name v = want_text name v >>= λ t. map_err (λ (e : IdError). malformed name) (opaque_id t)

-- The fields of the binding, which all blame the binding.
unfoldable pub binding_of : CborEntries → Result PermitDecodeError AuthorityBindingRef
binding_of pairs =
    let name = str "authorityBinding" in
    want_id name (field pairs (str "authorityNamespace")) >>= λ authority_namespace.
    want_id name (field pairs (str "bindingId")) >>= λ binding_id.
    want_unsigned name (field pairs (str "bindingRevision")) >>= λ binding_revision.
    want_digest name (field pairs (str "stableIdentityDigest")) >>= λ stable_identity_digest.
    ok (record {
      authority_namespace = authority_namespace;
      binding_id = binding_id;
      binding_revision = binding_revision;
      stable_identity_digest = stable_identity_digest;
    })

-- The tag travels beside the bytes: the caller sets it.
abbrev pub blank_tag : PermitIntegrityTag
blank_tag = record { epoch = 0; tag = replicate 32 0 }

unfoldable pub permit_of : CborEntries → Result PermitDecodeError StepPermit
permit_of es =
    let get_id : Text → Result PermitDecodeError OpaqueId = λ name. want_id name (field es name) in
    let get_digest : Text → Result PermitDecodeError Digest =
      λ name. want_digest name (field es name) in
    want_map (malformed (str "authorityBinding")) (field es (str "authorityBinding")) >>= λ pairs.
    binding_of pairs >>= λ authority_binding. get_id (str "permitId") >>= λ permit_id.
    get_id (str "authorityNamespace") >>= λ authority_namespace.
    get_id (str "controllerSessionId") >>= λ controller_session_id.
    get_id (str "jobId") >>= λ job_id. get_id (str "planId") >>= λ plan_id.
    get_digest (str "planDigest") >>= λ plan_digest. get_id (str "stepId") >>= λ step_id.
    get_id (str "attemptId") >>= λ attempt_id.
    get_digest (str "publicStepDigest") >>= λ public_step_digest.
    get_digest (str "privateActionDigest") >>= λ private_action_digest.
    get_digest (str "effectSetDigest") >>= λ effect_set_digest.
    get_digest (str "admittedDeviceFactsDigest") >>= λ admitted_device_facts_digest.
    want_unsigned (str "issuedAtEpochMs") (field es (str "issuedAtEpochMs")) >>= λ issued.
    want_unsigned (str "expiresAtEpochMs") (field es (str "expiresAtEpochMs")) >>= λ expires.
    want_bool (str "singleUse") (field es (str "singleUse")) >>= λ single_use. ok (record {
      permit_id = permit_id;
      authority_namespace = authority_namespace;
      controller_session_id = controller_session_id;
      job_id = job_id;
      plan_id = plan_id;
      plan_digest = plan_digest;
      step_id = step_id;
      attempt_id = attempt_id;
      public_step_digest = public_step_digest;
      private_action_digest = private_action_digest;
      effect_set_digest = effect_set_digest;
      authority_binding = authority_binding;
      admitted_device_facts_digest = admitted_device_facts_digest;
      issued_at_epoch_ms = issued;
      expires_at_epoch_ms = expires;
      single_use = single_use;
      integrity_tag = blank_tag;
    })

-- Re-encoding the permit has to give the bytes it was read from.
unfoldable pub permit_from_bytes : Bytes → Result PermitDecodeError StepPermit
permit_from_bytes input = map_err undecodable (decode_canonical input) >>= λ value.
    want_map not_a_map (some value) >>= permit_of >>= λ permit.
    map_err undecodable (signing_body permit) >>= λ reencoded.
    ensure (bytes_eq reencoded input) not_canonical >>= λ _. ok permit
