-- ===== src/Engine/Journal/Stored.antt =====
-- `JournalRecord::from_canonical_bytes`: a record read back from its stored bytes.
use ark_forge.Prelude.{
  ℕ, ◌^◌, Bytes, Text, str, [], ◌∷◌, ◌==◌, ltb, length, Option, some, Result, ok, err, ◌>>=◌,
  map_err, ensure, ok_or, if◌then◌else◌,
}
use ark_forge.Core.Cbor.{CborValue, CborEntries, text, bytes, unsigned, end, entry}
use ark_forge.Core.Cbor.Decode.{decode_canonical}
use ark_forge.Core.Binding.{field}
use ark_forge.Core.Digest.Sha256.{Digest}
use ark_forge.Core.Ids.{OpaqueId, IdError, opaque_id}
use ark_forge.Engine.Kind.{JournalRecordKind, FsyncPolicy, parse_policy, parse_kind}
use ark_forge.Engine.Journal.{JournalRecord, JournalError, Facts, cbor, record_malformed}

unfoldable pub as_unsigned : Text → Option CborValue → Result JournalError ℕ
as_unsigned name (some (unsigned n)) = ok n
as_unsigned name _ = err (record_malformed name)

unfoldable pub as_text : Text → Option CborValue → Result JournalError Text
as_text name (some (text t)) = ok t
as_text name _ = err (record_malformed name)

unfoldable pub as_digest : Text → Option CborValue → Result JournalError Digest
as_digest name (some (bytes b)) = if length b == 32 then ok b else err (record_malformed name)
as_digest name _ = err (record_malformed name)

-- `OpaqueId::new`, its error replaced by the field's.
unfoldable pub as_id : Text → Text → Result JournalError OpaqueId
as_id name t = map_err (λ (e : IdError). record_malformed name) (opaque_id t)

-- `collect` stops at the first pair that is refused.
unfoldable pub read_facts : CborEntries → Result JournalError Facts
read_facts end = ok []
read_facts (entry (text k) (text v) es) =
    as_id (str "facts") k >>= λ key. read_facts es >>= λ rest. ok ((key, v) ∷ rest)
read_facts (entry k v es) = err (record_malformed (str "facts"))

unfoldable pub as_facts : Option CborValue → Result JournalError Facts
as_facts (some (CborValue.map pairs)) = read_facts pairs
as_facts _ = err (record_malformed (str "facts"))

unfoldable pub entries_of : CborValue → Result JournalError CborEntries
entries_of (CborValue.map es) = ok es
entries_of _ = err (record_malformed (str "record is not a map"))

-- The fields whose text is parsed.
unfoldable pub schema_version_of : CborEntries → Result JournalError ℕ
schema_version_of es = as_unsigned (str "schemaVersion") (field es (str "schemaVersion")) >>= λ v.
    ensure (ltb v (2 ^ 32)) (record_malformed (str "schemaVersion")) >>= λ _. ok v

unfoldable pub kind_of : CborEntries → Result JournalError JournalRecordKind
kind_of es = as_text (str "kind") (field es (str "kind")) >>= λ t.
    ok_or (parse_kind t) (record_malformed (str "kind"))

unfoldable pub policy_of : CborEntries → Result JournalError FsyncPolicy
policy_of es = as_text (str "fsyncPolicy") (field es (str "fsyncPolicy")) >>= λ t.
    ok_or (parse_policy t) (record_malformed (str "fsyncPolicy"))

unfoldable pub subject_of : CborEntries → Result JournalError OpaqueId
subject_of es = as_text (str "subject") (field es (str "subject")) >>= as_id (str "subject")

unfoldable pub record_of : CborEntries → Result JournalError JournalRecord
record_of es = schema_version_of es >>= λ schema_version. kind_of es >>= λ kind.
    policy_of es >>= λ policy. subject_of es >>= λ subject.
    as_facts (field es (str "facts")) >>= λ facts.
    as_unsigned (str "sequence") (field es (str "sequence")) >>= λ sequence.
    as_unsigned (str "jobRevision") (field es (str "jobRevision")) >>= λ job_revision.
    as_unsigned (str "atEpochMs") (field es (str "atEpochMs")) >>= λ at_epoch_ms.
    as_digest (str "previousDigest") (field es (str "previousDigest")) >>= λ previous_digest.
    as_digest (str "recordDigest") (field es (str "recordDigest")) >>= λ record_digest. ok (record {
      schema_version = schema_version;
      sequence = sequence;
      job_revision = job_revision;
      kind = kind;
      policy = policy;
      at_epoch_ms = at_epoch_ms;
      subject = subject;
      facts = facts;
      previous_digest = previous_digest;
      record_digest = record_digest;
    })

unfoldable pub from_canonical_bytes : Bytes → Result JournalError JournalRecord
from_canonical_bytes input =
    map_err cbor (decode_canonical input) >>= λ value. entries_of value >>= record_of
