-- ===== src/Core/Digest.antt =====
-- crates/arkforge-core/src/digest/mod.rs: digest domains, domain-separated digests, HMAC.
pub mod Sha256
pub mod Tag
pub mod Hex
use Prim.Native.Nat.{bit_xor, bit_or}
use Prim.Native.String.{String}
use ark_forge.Prelude.{
  ℕ, ◌-◌, zero, Bytes, str, Bool, true, false, List, [], ◌∷◌, ◌++◌, map, ltb, ◌==◌, if◌then◌else◌,
  length, replicate, Result, ok, ◌>>=◌,
}
use ark_forge.Core.Cbor.{CborValue, CborError}
use ark_forge.Core.Cbor.Encode.{encode}
use Sha256.{Hasher, Digest, new, update, finalize, sha256}

pub data Domain : Type 0 where
  private_action provider_execution_plan public_projection public_step effect_set plan : Domain
  device_observation admission_device_facts usb_topology usb_descriptor device_serial : Domain
  rescue_device_facts transport_session provider_facts toolchain_facts artifact_facts : Domain
  artifact_manifest device_profile admission_snapshot action_receipt possible_effect_set : Domain
  journal_record transcript recovery_coverage rescue_plan rescue_receipt : Domain
  authority_support_key : Domain

-- The text between `arkforge/v1/` and the closing NUL.
domain_name : Domain → String
domain_name private_action = "private-action"
domain_name provider_execution_plan = "provider-execution-plan"
domain_name public_projection = "public-projection"
domain_name public_step = "public-step"
domain_name effect_set = "effect-set"
domain_name plan = "plan"
domain_name device_observation = "device-observation"
domain_name admission_device_facts = "admission-device-facts"
domain_name usb_topology = "usb-topology"
domain_name usb_descriptor = "usb-descriptor"
domain_name device_serial = "device-serial"
domain_name rescue_device_facts = "rescue-device-facts"
domain_name transport_session = "transport-session"
domain_name provider_facts = "provider-facts"
domain_name toolchain_facts = "toolchain-facts"
domain_name artifact_facts = "artifact-facts"
domain_name artifact_manifest = "artifact-manifest"
domain_name device_profile = "device-profile"
domain_name admission_snapshot = "admission-snapshot"
domain_name action_receipt = "action-receipt"
domain_name possible_effect_set = "possible-effect-set"
domain_name journal_record = "journal-record"
domain_name transcript = "transcript"
domain_name recovery_coverage = "recovery-coverage"
domain_name rescue_plan = "rescue-plan"
domain_name rescue_receipt = "rescue-receipt"
domain_name authority_support_key = "authority-support-key"

unfoldable pub domain_bytes : Domain → Bytes
unfolding domain_name
domain_bytes d = str "arkforge/v1/" ++ (str (domain_name d) ++ (0 ∷ []))

unfoldable pub digest_in_domain : Domain → Bytes → Digest
digest_in_domain d payload = finalize (update (update new (domain_bytes d)) payload)

-- `digest_canonical` of a value whose CBOR shape is given.
unfoldable pub digest_canonical : Domain → CborValue → Result CborError Digest
digest_canonical d value = encode value >>= λ bytes. ok (digest_in_domain d bytes)

unfoldable pub update_all : Hasher → List Digest → Hasher
update_all hasher [] = hasher
update_all hasher (d ∷ ds) = update_all (update hasher d) ds

unfoldable pub digest_ordered : Domain → List Digest → Digest
digest_ordered d digests = finalize (update_all (update new (domain_bytes d)) digests)

hmac_block : ℕ
hmac_block = 64

-- The key, or its digest if it is longer than a block, padded with zeros to a block.
padded_key : Bytes → Bytes
unfolding hmac_block
padded_key key =
    let short = if ltb hmac_block (length key) then sha256 key else key in
    short ++ replicate (hmac_block - length short) 0

unfoldable pub hmac_sha256 : Bytes → Bytes → Digest
unfolding padded_key
hmac_sha256 key message =
    let padded = padded_key key in
    let inner = finalize (update (update new (map (λ b. bit_xor b 0x36) padded)) message) in
    finalize (update (update new (map (λ b. bit_xor b 0x5c) padded)) inner)

difference : ℕ → Bytes → Bytes → ℕ
difference acc [] right = acc
difference acc (a ∷ left) [] = acc
difference acc (a ∷ left) (b ∷ right) = difference (bit_or acc (bit_xor a b)) left right

unfoldable pub constant_time_eq : Digest → Digest → Bool
unfolding difference
constant_time_eq left right = difference 0 left right == 0
