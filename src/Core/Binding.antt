-- ===== src/Core/Binding.antt =====
-- crates/arkforge-core/src/authority.rs: the reference to the authority's target binding; and the
-- `CborValue` shorthands of digest/cbor.rs, and the lookup of a field.
use Prim.Native.String.{String}
use ark_forge.Prelude.{
  ℕ, str, List, [], ◌∷◌, Bool, ◌&&◌, bytes_eq, ◌==◌, Text, Option, none, some, if◌then◌else◌,
}
use ark_forge.Core.Cbor.{CborValue, CborEntries, end, entry, text, bytes, unsigned}
use ark_forge.Core.Digest.Sha256.{Digest}
use ark_forge.Core.Ids.{OpaqueId}

-- `CborValue::map` with literal keys.
unfoldable pub cbor_entries : List (String × CborValue) → CborEntries
cbor_entries [] = end
cbor_entries ((k, v) ∷ es) = entry (text (str k)) v (cbor_entries es)

unfoldable pub cbor_map : List (String × CborValue) → CborValue
unfolding cbor_entries
cbor_map es = CborValue.map (cbor_entries es)

pub record AuthorityBindingRef : Type 0 where
  pub authority_namespace : OpaqueId
  pub binding_id : OpaqueId
  pub binding_revision : ℕ
  pub stable_identity_digest : Digest

unfoldable pub binding_cbor : AuthorityBindingRef → CborValue
unfolding cbor_map
binding_cbor b = cbor_map (
    ("authorityNamespace", text b.authority_namespace)
    ∷ ("bindingId", text b.binding_id)
    ∷ ("bindingRevision", unsigned b.binding_revision)
    ∷ ("stableIdentityDigest", bytes b.stable_identity_digest)
    ∷ [])

-- The derived `==`.
unfoldable pub binding_eq : AuthorityBindingRef → AuthorityBindingRef → Bool
binding_eq a b =
    bytes_eq a.authority_namespace b.authority_namespace
    && bytes_eq a.binding_id b.binding_id
    && a.binding_revision == b.binding_revision
    && bytes_eq a.stable_identity_digest b.stable_identity_digest

-- The first entry under a text key; keys of another kind are passed over.
unfoldable pub field : CborEntries → Text → Option CborValue
field end name = none
field (entry (text t) v es) name =
    let rest = field es name in if bytes_eq t name then some v else rest
field (entry k v es) name = field es name
