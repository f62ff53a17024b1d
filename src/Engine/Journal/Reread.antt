-- ===== src/Engine/Journal/Reread.antt =====
-- A stored record is read back, with its facts in the order of their encoded keys.
use ark_forge.Prelude.{
  ℕ, suc, ◌^◌, ◌<◌, Bytes, Text, str, bytes_eq, bytes_lt, true, [], ◌∷◌, ◌≡◌, refl, ap, lt→ltb,
  length, some, ok, arith, All, if◌then◌else◌, Bool-cases, inl, inr,
}
use ark_forge.Core.Cbor.{CborValue, CborEntries, text, bytes, unsigned, end, entry}
use ark_forge.Core.Cbor.Encode.{encode, encode_head, initial_byte}
use ark_forge.Core.Cbor.Decode.{utf8_from, utf8_step, utf8_lead, is_utf8, max_depth}
use ark_forge.Core.Cbor.Arrange.{
  bytes_or_empty, place, arrange, arrange_entries, count_entries, Fits, FitEntries,
}
use ark_forge.Core.Cbor.RoundTrip.{decode_canonical-encode}
use ark_forge.Core.Fitting.{All-weaken, text-Fits, unsigned-Fits, digest-Fits, id-Fits, under}
use ark_forge.Core.Binding.{field}
use ark_forge.Core.Ids.{OpaqueId, IsId, opaque_id-IsId}
use ark_forge.Engine.Kind.{
  JournalRecordKind, FsyncPolicy, parse_policy, policy_name, plan_stored, kind_name, parse_kind_iff,
  durable, buffered,
}
use ark_forge.Engine.Journal.{JournalRecord, Facts, facts_cbor, body_entries, record_bytes}
use ark_forge.Engine.Journal.Stored.{
  as_unsigned, as_text, as_digest, as_id, read_facts, as_facts, entries_of, schema_version_of,
  kind_of, policy_of, subject_of, record_of, from_canonical_bytes,
}

-- The facts in the order of their encoded keys.
unfoldable pub place_fact : OpaqueId → Text → Facts → Facts
place_fact k v [] = (k, v) ∷ []
place_fact k v ((k', v') ∷ facts) =
    if bytes_lt (bytes_or_empty (encode (text k'))) (bytes_or_empty (encode (text k)))
    then (k', v') ∷ place_fact k v facts
    else (k, v) ∷ (k', v') ∷ facts

unfoldable pub sort_facts : Facts → Facts
sort_facts [] = []
sort_facts ((k, v) ∷ facts) = place_fact k v (sort_facts facts)

abbrev pub reread : JournalRecord → JournalRecord
reread r = record (r) { facts = sort_facts r.facts }

place-facts_cbor :
    (k : OpaqueId) (v : Text) (facts : Facts)
    → place (text k) (text v) (facts_cbor facts) ≡ facts_cbor (place_fact k v facts)
unfolding place facts_cbor place_fact
place-facts_cbor k v [] = refl
place-facts_cbor k v ((k', v') ∷ facts) =
    elim (Bool-cases
      (bytes_lt (bytes_or_empty (encode (text k'))) (bytes_or_empty (encode (text k))))) [
        | inl p ↦ rw (p, place-facts_cbor k v facts) refl
        | inr p ↦ rw p refl
      ]

pub arrange_entries-facts_cbor :
    (facts : Facts) → arrange_entries (facts_cbor facts) ≡ facts_cbor (sort_facts facts)
unfolding arrange arrange_entries facts_cbor sort_facts
arrange_entries-facts_cbor [] = refl
arrange_entries-facts_cbor ((k, v) ∷ facts) =
    rw (arrange_entries-facts_cbor facts) (place-facts_cbor k v (sort_facts facts))

-- The eleven entries in the order of the encoding: shorter keys first.
arranged_entries : JournalRecord → CborEntries
arranged_entries r =
    arrange_entries (body_entries r (entry (text (str "recordDigest")) (bytes r.record_digest) end))

record AllFields (r : JournalRecord) (es : CborEntries) : Type 0 where
  has_schema_version : field es (str "schemaVersion") ≡ some (unsigned r.schema_version)
  has_kind : field es (str "kind") ≡ some (text (kind_name r.kind))
  has_policy : field es (str "fsyncPolicy") ≡ some (text (policy_name r.policy))
  has_subject : field es (str "subject") ≡ some (text r.subject)
  has_facts : field es (str "facts") ≡ some (CborValue.map (arrange_entries (facts_cbor r.facts)))
  has_sequence : field es (str "sequence") ≡ some (unsigned r.sequence)
  has_job_revision : field es (str "jobRevision") ≡ some (unsigned r.job_revision)
  has_at_epoch_ms : field es (str "atEpochMs") ≡ some (unsigned r.at_epoch_ms)
  has_previous_digest : field es (str "previousDigest") ≡ some (bytes r.previous_digest)
  has_record_digest : field es (str "recordDigest") ≡ some (bytes r.record_digest)

arranged_entries-AllFields : (r : JournalRecord) → AllFields r (arranged_entries r)
unfolding arranged_entries arrange arrange_entries body_entries place field encode bytes_eq bytes_lt
    encode_head initial_byte
arranged_entries-AllFields r = record {
  has_schema_version = refl;
  has_kind = refl;
  has_policy = refl;
  has_subject = refl;
  has_facts = refl;
  has_sequence = refl;
  has_job_revision = refl;
  has_at_epoch_ms = refl;
  has_previous_digest = refl;
  has_record_digest = refl;
}

parse_policy-name : (p : FsyncPolicy) → parse_policy (policy_name p) ≡ some p
unfolding parse_policy policy_name bytes_eq
parse_policy-name durable = refl
parse_policy-name buffered = refl

-- What the record's types and the length of its texts promise: `u32`, `u64`, identifiers, UTF-8
-- and 32-byte digests.
pub record IsStorable (r : JournalRecord) : Type 0 where
  pub version_small : r.schema_version < 2 ^ 32
  pub sequence_small : r.sequence < 2 ^ 64
  pub revision_small : r.job_revision < 2 ^ 64
  pub time_small : r.at_epoch_ms < 2 ^ 64
  pub subject_IsId : IsId r.subject
  pub facts_fit : All (λ f. IsId f.0 × length f.1 < 2 ^ 64 × is_utf8 f.1 ≡ true) r.facts
  pub few_facts : length r.facts < 2 ^ 64
  pub previous_size : length r.previous_digest ≡ 32
  pub own_size : length r.record_digest ≡ 32

as_id-IsId : (name t : Text) → IsId t → as_id name t ≡ ok t
unfolding as_id
as_id-IsId name t h = rw ((opaque_id-IsId t t).1 (refl, h)) refl

read_facts-facts_cbor :
    (facts : Facts) → All (λ f. IsId f.0) facts → read_facts (facts_cbor facts) ≡ ok facts
unfolding read_facts facts_cbor
read_facts-facts_cbor [] h = refl
read_facts-facts_cbor ((k, v) ∷ facts) h =
    rw (as_id-IsId (str "facts") k h.0, read_facts-facts_cbor facts h.1) refl

All-place_fact {κ} :
    (P : OpaqueId × Text → Type κ) (k : OpaqueId) (v : Text) (facts : Facts)
    → P (k, v)
    → All P facts
    → All P (place_fact k v facts)
unfolding place_fact
All-place_fact P k v [] h a = (h, tt)
All-place_fact P k v ((k', v') ∷ facts) h a =
    elim (Bool-cases
      (bytes_lt (bytes_or_empty (encode (text k'))) (bytes_or_empty (encode (text k))))) [
        | inl p ↦ rw p (a.0, All-place_fact P k v facts h a.1)
        | inr p ↦ rw p (h, a)
      ]

All-sort_facts {κ} :
    (P : OpaqueId × Text → Type κ) (facts : Facts) → All P facts → All P (sort_facts facts)
unfolding sort_facts
All-sort_facts P [] a = tt
All-sort_facts P ((k, v) ∷ facts) a =
    All-place_fact P k v (sort_facts facts) a.0 (All-sort_facts P facts a.1)

record_of-AllFields :
    (r : JournalRecord) (es : CborEntries)
    → IsStorable r
    → AllFields r es
    → record_of es ≡ ok (reread r)
unfolding record_of schema_version_of kind_of policy_of subject_of as_unsigned as_text as_digest
    as_facts
record_of-AllFields r es s f =
    let ids =
      All-sort_facts (λ f. IsId f.0) r.facts (All-weaken (λ f h. h.0) r.facts s.facts_fit) in
    rw
      (
        f.has_schema_version,
        f.has_kind,
        f.has_policy,
        f.has_subject,
        f.has_facts,
        f.has_sequence,
        f.has_job_revision,
        f.has_at_epoch_ms,
        f.has_previous_digest,
        f.has_record_digest,
        lt→ltb r.schema_version (2 ^ 32) s.version_small,
        (parse_kind_iff (kind_name r.kind) r.kind).1 refl,
        parse_policy-name r.policy,
        as_id-IsId (str "subject") r.subject s.subject_IsId,
        arrange_entries-facts_cbor r.facts,
        read_facts-facts_cbor (sort_facts r.facts) ids,
        s.previous_size,
        s.own_size,
      )
      refl

kind-Fits : (levels : ℕ) (k : JournalRecordKind) → Fits (suc levels) (text (kind_name k))
unfolding kind_name is_utf8 utf8_from utf8_step utf8_lead
kind-Fits levels plan_stored = text-Fits levels (kind_name plan_stored) refl (omega arith)
kind-Fits levels k = text-Fits levels (kind_name k) refl (omega arith)

policy-Fits : (levels : ℕ) (p : FsyncPolicy) → Fits (suc levels) (text (policy_name p))
unfolding policy_name is_utf8 utf8_from utf8_step utf8_lead
policy-Fits levels durable = text-Fits levels (policy_name durable) refl (omega arith)
policy-Fits levels buffered = text-Fits levels (policy_name buffered) refl (omega arith)

facts_cbor-FitEntries :
    (levels : ℕ) (facts : Facts)
    → All (λ f. IsId f.0 × length f.1 < 2 ^ 64 × is_utf8 f.1 ≡ true) facts
    → FitEntries (suc levels) (facts_cbor facts)
unfolding FitEntries facts_cbor
facts_cbor-FitEntries levels [] h = tt
facts_cbor-FitEntries levels ((k, v) ∷ facts) h =
    (id-Fits levels k h.0.0, text-Fits levels v h.0.2 h.0.1, facts_cbor-FitEntries levels facts h.1)

count_entries-facts_cbor : (facts : Facts) → count_entries (facts_cbor facts) ≡ length facts
unfolding count_entries facts_cbor
count_entries-facts_cbor [] = refl
count_entries-facts_cbor ((k, v) ∷ facts) = ap suc (count_entries-facts_cbor facts)

facts_value-Fits :
    (levels : ℕ) (r : JournalRecord)
    → IsStorable r
    → Fits (suc (suc levels)) (CborValue.map (facts_cbor r.facts))
unfolding Fits
facts_value-Fits levels r s = (
  rw (count_entries-facts_cbor r.facts) s.few_facts,
  facts_cbor-FitEntries levels r.facts s.facts_fit,
)

body_entries-FitEntries :
    (r : JournalRecord) (more : CborEntries)
    → IsStorable r
    → FitEntries 64 more
    → FitEntries 64 (body_entries r more)
unfolding body_entries is_utf8 utf8_from utf8_step utf8_lead
body_entries-FitEntries r more s m =
    under 63 _ _ _ refl (omega arith)
      (unsigned-Fits 63 r.schema_version (omega (arith, s.version_small)))
      (under 63 _ _ _ refl (omega arith) (unsigned-Fits 63 r.sequence s.sequence_small) (
        under 63 _ _ _ refl (omega arith) (unsigned-Fits 63 r.job_revision s.revision_small) (
          under 63 _ _ _ refl (omega arith) (kind-Fits 63 r.kind) (
            under 63 _ _ _ refl (omega arith) (policy-Fits 63 r.policy) (
              under 63 _ _ _ refl (omega arith) (unsigned-Fits 63 r.at_epoch_ms s.time_small) (
                under 63 _ _ _ refl (omega arith) (id-Fits 63 r.subject s.subject_IsId) (
                  under 63 _ _ _ refl (omega arith) (facts_value-Fits 62 r s) (
                    under 63 _ _ _ refl (omega arith)
                      (digest-Fits 63 r.previous_digest s.previous_size) (m)))))))))

unfoldable pub record_value : JournalRecord → CborValue
record_value r =
    CborValue.map (body_entries r (entry (text (str "recordDigest")) (bytes r.record_digest) end))

record_value-Fits : (r : JournalRecord) → IsStorable r → Fits (suc max_depth) (record_value r)
unfolding Fits FitEntries record_value count_entries body_entries is_utf8 utf8_from utf8_step
    utf8_lead
record_value-Fits r s = (
  omega arith,
  body_entries-FitEntries r (entry (text (str "recordDigest")) (bytes r.record_digest) end) s (
      under 63 (str "recordDigest") (bytes r.record_digest) end refl (omega arith)
        (digest-Fits 63 r.record_digest s.own_size) tt),
)

-- A record whose fields fit their types is read back from its stored bytes with every field as it
-- was, the facts in the order of their encoded keys.
pub from_canonical_bytes-record_bytes :
    (r : JournalRecord) (b : Bytes)
    → IsStorable r
    → record_bytes r ≡ ok b
    → from_canonical_bytes b ≡ ok (reread r)
unfolding from_canonical_bytes record_bytes record_value arrange entries_of arranged_entries
from_canonical_bytes-record_bytes r b s e =
    rw (decode_canonical-encode (record_value r) b (record_value-Fits r s) e)
      (record_of-AllFields r (arranged_entries r) s (arranged_entries-AllFields r))
