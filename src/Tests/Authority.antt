-- ===== src/Tests/Authority.antt =====
-- Permits and freshness at concrete inputs.
use ark_forge.Prelude.{
  ℕ, ◌≤◌, ◌<◌, Bytes, str, ok, err, true, false, none, some, ◌≡◌, ◌≢◌, ◌↔◌, refl, List, [], ◌∷◌,
  ◌++◌, replicate, bytes_eq, arith,
}
use ark_forge.Authority.{
  ControllerPairingSecret, signing_body, verify_permit, mint_integrity_tag, stale_pairing_epoch,
}
use ark_forge.Authority.Verify.{Endorsed, Describes, verify_permit_iff}
use ark_forge.Authority.Mint.{sealed, verify_permit-mint}
use ark_forge.Authority.Freshness.{
  StepAdmissionSnapshot, CurrentFacts, evaluate_freshness, permits_dispatch, IsContinuous,
  fresh_iff,
}
use ark_forge.Authority.Decode.{permit_from_bytes, blank_tag}
use ark_forge.Authority.Reread.{IsReference, IsSignable, permit_from_bytes_iff}
use ark_forge.Core.Ids.{IsId, OpaqueId, opaque_id, opaque_id-IsId}
use ark_forge.Tests.Samples.{value, secret, untagged, binding, tag, permit, intent}

abbrev signed : Bytes
signed = value [] (signing_body untagged)

record Minted : Type 0 where
  minted : mint_integrity_tag untagged secret ≡ ok tag
  signs : signing_body untagged ≡ ok signed
  accepted : verify_permit permit secret intent false ≡ ok (record { permit = permit })

runs : Minted
unfolding ark_forge.Core.Cbor.Encode.be16 ark_forge.Core.Cbor.Encode.be32
    ark_forge.Core.Cbor.Encode.be64 ark_forge.Core.Cbor.Encode.initial_byte
    ark_forge.Core.Cbor.Encode.encode_head ark_forge.Core.Cbor.Encode.insert_by_key
    ark_forge.Core.Cbor.Encode.sort_by_key ark_forge.Core.Cbor.Encode.check_keys
    ark_forge.Core.Cbor.Encode.concat_entries ark_forge.Core.Cbor.Encode.encode_map
    ark_forge.Core.Cbor.Encode.encode_negative ark_forge.Core.Cbor.Encode.encode_bool
    ark_forge.Core.Cbor.Encode.encode_values ark_forge.Core.Cbor.Encode.encode_entries
    ark_forge.Core.Digest.digest_canonical ark_forge.Core.Digest.hmac_sha256
    ark_forge.Core.Digest.constant_time_eq ark_forge.Core.Digest.Sha256.compress
    ark_forge.Core.Digest.Sha256.new ark_forge.Core.Digest.Sha256.whole_blocks
    ark_forge.Core.Digest.Sha256.absorb ark_forge.Core.Digest.Sha256.fill
    ark_forge.Core.Digest.Sha256.update ark_forge.Core.Digest.Sha256.finalize
    ark_forge.Core.Digest.Sha256.sha256 ark_forge.Core.Binding.cbor_map
    ark_forge.Core.Binding.binding_cbor ark_forge.Core.Binding.binding_eq
    ark_forge.Authority.permit_body ark_forge.Authority.signing_body ark_forge.Authority.compute
    ark_forge.Authority.check_context ark_forge.Authority.context_table
    ark_forge.Authority.check_dispatch ark_forge.Authority.verify_permit
    ark_forge.Authority.mint_integrity_tag ark_forge.Prelude.bytes_eq ark_forge.Prelude.bytes_lt
    ark_forge.Prelude.any
runs = record { minted = refl; signs = refl; accepted = refl }

described : Describes untagged intent
described =
    let (unused, endorsed, d) = (verify_permit_iff permit secret intent false).0 runs.accepted in
    record {
      unexpired = d.unexpired;
      plan_digest = d.plan_digest;
      private_action = d.private_action;
      authority = d.authority;
      session = d.session;
      job = d.job;
      plan = d.plan;
      step = d.step;
      attempt = d.attempt;
      public_step = d.public_step;
      effect_set = d.effect_set;
      binding = d.binding;
      device_facts = d.device_facts;
    }

abbrev later : ControllerPairingSecret
later = record { epoch = 8; secret = replicate 32 12 }

verify_permit_iff_example :
    (verify_permit permit secret intent false ≡ ok (record { permit = permit }))
    ↔ ((false ≡ false) × Endorsed permit secret × Describes permit intent)
verify_permit_iff_example = verify_permit_iff permit secret intent false

verify_permit-mint_example :
    verify_permit (sealed untagged tag) secret intent false
    ≡ ok (record { permit = sealed untagged tag })
verify_permit-mint_example =
    verify_permit-mint untagged secret tag runs.minted intent refl described

epochs_differ : secret.epoch ≢ later.epoch
epochs_differ = omega arith

abbrev snapshot : StepAdmissionSnapshot
snapshot = record {
  captured_at_epoch_ms = 100;
  freshness_deadline_epoch_ms = 200;
  device_facts_digest = replicate 32 1;
  transport_session_digest = some (replicate 32 2);
  provider_facts_digest = replicate 32 3;
  toolchain_facts_digest = replicate 32 4;
  artifact_facts_digest = replicate 32 5;
}

abbrev current : CurrentFacts
current = record {
  now_epoch_ms = 150;
  device_facts_digest = replicate 32 1;
  transport_session_digest = some (replicate 32 2);
  saw_detach_since_snapshot = false;
  provider_facts_digest = replicate 32 3;
  toolchain_facts_digest = replicate 32 4;
  artifact_facts_digest = replicate 32 5;
}

fresh_iff_example :
    (permits_dispatch (evaluate_freshness snapshot current) ≡ true)
    ↔ (IsContinuous snapshot current × (150 < 200))
fresh_iff_example = fresh_iff snapshot current

plain-IsId : (t : OpaqueId) → opaque_id t ≡ ok t → IsId t
plain-IsId t h = ((opaque_id-IsId t t).0 h).1

binding-IsReference : IsReference binding
unfolding ark_forge.Core.Ids.opaque_id ark_forge.Core.Ids.allowed
binding-IsReference = record {
  namespace_IsId = plain-IsId (str "arkdeck") refl;
  binding_IsId = plain-IsId (str "binding-1") refl;
  revision_small = omega arith;
  identity_size = refl;
}

untagged-IsSignable : IsSignable untagged
unfolding ark_forge.Core.Ids.opaque_id ark_forge.Core.Ids.allowed
untagged-IsSignable = record {
  permit_IsId = plain-IsId (str "permit-1") refl;
  authority_IsId = plain-IsId (str "arkdeck") refl;
  session_IsId = plain-IsId (str "session-1") refl;
  job_IsId = plain-IsId (str "job-1") refl;
  plan_IsId = plain-IsId (str "plan-1") refl;
  plan_size = refl;
  step_IsId = plain-IsId (str "step-1") refl;
  attempt_IsId = plain-IsId (str "attempt-1") refl;
  step_size = refl;
  action_size = refl;
  effects_size = refl;
  reference = binding-IsReference;
  facts_size = refl;
  issued_small = omega arith;
  expires_small = omega arith;
}

permit_from_bytes_iff_example :
    (permit_from_bytes signed ≡ ok (sealed untagged blank_tag))
    ↔ (signing_body untagged ≡ ok signed)
permit_from_bytes_iff_example = permit_from_bytes_iff untagged signed untagged-IsSignable

-- The permit is read back from its own bytes.
received : permit_from_bytes signed ≡ ok (sealed untagged blank_tag)
received = (permit_from_bytes_iff untagged signed untagged-IsSignable).1 runs.signs
