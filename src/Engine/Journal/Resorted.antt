-- ===== src/Engine/Journal/Resorted.antt =====
-- Reading a record back does not change its encoding: the digests and the links stay as they are.
use ark_forge.Prelude.{
  Bytes, Text, bytes_lt, List, [], ◌∷◌, ◌++◌, ◌≡◌, refl, ◌∙◌, ap, ok, length, Bool-cases, inl, inr,
  ℕ,
}
use ark_forge.Core.Cbor.{CborValue, CborEntries}
use ark_forge.Core.Cbor.Encode.{
  encode_head, insert_by_key, sort_by_key, encode_map, encode, encode_entries,
}
use ark_forge.Core.Cbor.Order.{sort_by_key_idem}
use ark_forge.Core.Digest.{digest_canonical}
use ark_forge.Core.Digest.Sha256.{Digest}
use ark_forge.Core.Ids.{OpaqueId}
use ark_forge.Engine.Journal.{
  JournalRecord, Facts, facts_cbor, body_entries, body, recompute_digest, record_bytes,
}
use ark_forge.Engine.Journal.Chain.{IsLink}
use ark_forge.Engine.Journal.Reread.{place_fact, sort_facts, reread}

encoded_text : Text → Bytes
encoded_text t = encode_head 3 (length t) ++ t

encoded_facts : Facts → List (Bytes × Bytes)
unfolding encoded_text
encoded_facts [] = []
encoded_facts ((k, v) ∷ facts) = (encoded_text k, encoded_text v) ∷ encoded_facts facts

encode_entries-facts_cbor :
    (facts : Facts) → encode_entries (facts_cbor facts) ≡ ok (encoded_facts facts)
unfolding encode encode_entries facts_cbor encoded_facts encoded_text
encode_entries-facts_cbor [] = refl
encode_entries-facts_cbor ((k, v) ∷ facts) = rw (encode_entries-facts_cbor facts) refl

encoded_facts-place_fact :
    (k : OpaqueId) (v : Text) (facts : Facts)
    → encoded_facts (place_fact k v facts)
      ≡ insert_by_key (encoded_text k, encoded_text v) (encoded_facts facts)
unfolding encoded_facts encoded_text place_fact insert_by_key encode
encoded_facts-place_fact k v [] = refl
encoded_facts-place_fact k v ((k', v') ∷ facts) =
    elim (Bool-cases (bytes_lt (encode_head 3 (length k') ++ k') (encode_head 3 (length k) ++ k))) [
      | inl p ↦ rw (p, encoded_facts-place_fact k v facts) refl
      | inr p ↦ rw p refl
    ]

encoded_facts-sort_facts :
    (facts : Facts) → encoded_facts (sort_facts facts) ≡ sort_by_key (encoded_facts facts)
unfolding encoded_facts encoded_text sort_facts sort_by_key
encoded_facts-sort_facts [] = refl
encoded_facts-sort_facts ((k, v) ∷ facts) =
    encoded_facts-place_fact k v (sort_facts facts)
    ∙ ap (insert_by_key (encoded_text k, encoded_text v)) (encoded_facts-sort_facts facts)

encode-sort_facts :
    (facts : Facts)
    → encode (CborValue.map (facts_cbor (sort_facts facts)))
      ≡ encode (CborValue.map (facts_cbor facts))
unfolding encode encode_map
encode-sort_facts facts =
    rw
      (
        encode_entries-facts_cbor (sort_facts facts),
        encode_entries-facts_cbor facts,
        encoded_facts-sort_facts facts,
        sort_by_key_idem (encoded_facts facts),
      )
      refl

encode_entries-reread :
    (r : JournalRecord) (more : CborEntries)
    → encode_entries (body_entries (reread r) more) ≡ encode_entries (body_entries r more)
unfolding encode_entries body_entries
encode_entries-reread r more = rw (encode-sort_facts r.facts) refl

pub recompute_digest-reread : (r : JournalRecord) → recompute_digest (reread r) ≡ recompute_digest r
unfolding recompute_digest digest_canonical body encode
recompute_digest-reread r = rw (encode_entries-reread r CborEntries.end) refl

-- The stored bytes of a record read back are those it was read from.
pub record_bytes-reread : (r : JournalRecord) → record_bytes (reread r) ≡ record_bytes r
unfolding record_bytes encode
record_bytes-reread r = rw (encode_entries-reread r _) refl

pub reread-IsLink :
    (index : ℕ) (previous : Digest) (r : JournalRecord)
    → IsLink index previous r
    → IsLink index previous (reread r)
reread-IsLink index previous r l = record {
  version = l.version;
  numbered = l.numbered;
  linked = l.linked;
  policy = l.policy;
  digest = recompute_digest-reread r ∙ l.digest;
}
