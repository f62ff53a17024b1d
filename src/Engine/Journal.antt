-- ===== src/Engine/Journal.antt =====
-- crates/arkforge-engine/src/journal.rs: the hash-chained journal in memory.
pub mod Chain
pub mod Replay
pub mod Stored
pub mod Reread
pub mod Resorted
pub mod Fresh
use ark_forge.Prelude.{
  ℕ, suc, ◌+◌, Bytes, Text, str, bytes_eq, Bool, true, false, not, List, [], ◌∷◌, ◌++◌, ◌==◌,
  length, replicate, Result, ok, err, ◌>>=◌, map_err, ensure, if◌then◌else◌,
}
use ark_forge.Core.Cbor.{CborValue, CborEntries, CborError, text, bytes, unsigned, end, entry}
use ark_forge.Core.Cbor.Encode.{encode}
use ark_forge.Core.Digest.{journal_record, digest_canonical}
use ark_forge.Core.Digest.Sha256.{Digest}
use ark_forge.Core.Ids.{OpaqueId}
use ark_forge.Engine.Kind.{
  JournalRecordKind, FsyncPolicy, fsync_policy, policy_name, policy_eq, kind_name,
}

abbrev pub schema_version_1 : ℕ
schema_version_1 = 1

abbrev pub Facts : Type 0
Facts = List (OpaqueId × Text)

pub record JournalRecord : Type 0 where
  pub schema_version : ℕ
  pub sequence : ℕ
  pub job_revision : ℕ
  pub kind : JournalRecordKind
  pub policy : FsyncPolicy
  pub at_epoch_ms : ℕ
  pub subject : OpaqueId
  pub facts : Facts
  pub previous_digest : Digest
  pub record_digest : Digest

pub data JournalError : Type 0 where
  sequence_broken : ℕ → ℕ → JournalError
  chain_broken : ℕ → JournalError
  record_tampered : ℕ → JournalError
  fsync_policy_misdeclared : ℕ → JournalRecordKind → FsyncPolicy → JournalError
  unknown_schema_version : ℕ → JournalError
  record_malformed : Text → JournalError
  cbor : CborError → JournalError

unfoldable pub facts_cbor : Facts → CborEntries
facts_cbor [] = end
facts_cbor ((k, v) ∷ facts) = entry (text k) (text v) (facts_cbor facts)

-- The entries of `body`, ahead of `more`.
unfoldable pub body_entries : JournalRecord → CborEntries → CborEntries
unfolding facts_cbor
body_entries r more = entry (text (str "schemaVersion")) (unsigned r.schema_version) (
    entry (text (str "sequence")) (unsigned r.sequence) (
      entry (text (str "jobRevision")) (unsigned r.job_revision) (
        entry (text (str "kind")) (text (kind_name r.kind)) (
          entry (text (str "fsyncPolicy")) (text (policy_name r.policy)) (
            entry (text (str "atEpochMs")) (unsigned r.at_epoch_ms) (
              entry (text (str "subject")) (text r.subject) (
                entry (text (str "facts")) (CborValue.map (facts_cbor r.facts))
                  (entry (text (str "previousDigest")) (bytes r.previous_digest) more))))))))

unfoldable pub body : JournalRecord → CborValue
body r = CborValue.map (body_entries r end)

unfoldable pub recompute_digest : JournalRecord → Result CborError Digest
recompute_digest r = digest_canonical journal_record (body r)

-- `JournalRecord::to_canonical_bytes`.
unfoldable pub record_bytes : JournalRecord → Result CborError Bytes
record_bytes r =
    encode (
      CborValue.map
        (body_entries r (entry (text (str "recordDigest")) (bytes r.record_digest) end)))

pub record Journal : Type 0 where
  pub records : List JournalRecord

abbrev pub chain_origin : Digest
chain_origin = replicate 32 0

abbrev pub new : Journal
new = record { records = [] }

-- The digest that the next record links to, behind records that begin at `previous`.
unfoldable pub last_digest : Digest → List JournalRecord → Digest
last_digest previous [] = previous
last_digest previous (r ∷ rs) = last_digest r.record_digest rs

unfoldable pub head_digest : Journal → Digest
head_digest j = last_digest chain_origin j.records

unfoldable pub check_record : JournalRecord → Result JournalError (Unit {0})
check_record r =
    ensure (r.schema_version == schema_version_1) (unknown_schema_version r.schema_version) >>= λ _.
    ensure (policy_eq r.policy (fsync_policy r.kind))
      (fsync_policy_misdeclared r.sequence r.kind r.policy)
    >>= λ _. map_err cbor (recompute_digest r) >>= λ recomputed.
        ensure (bytes_eq recomputed r.record_digest) (record_tampered r.sequence)

-- The record with its digest still to be computed.
unfoldable pub draft_record : Journal → JournalRecordKind → ℕ → ℕ → OpaqueId → Facts → JournalRecord
draft_record j kind at_epoch_ms job_revision subject facts = record {
  schema_version = schema_version_1;
  sequence = length j.records + 1;
  job_revision = job_revision;
  kind = kind;
  policy = fsync_policy kind;
  at_epoch_ms = at_epoch_ms;
  subject = subject;
  facts = facts;
  previous_digest = head_digest j;
  record_digest = chain_origin;
}

unfoldable pub prepare_record :
    Journal → JournalRecordKind → ℕ → ℕ → OpaqueId → Facts → Result JournalError JournalRecord
prepare_record j kind at_epoch_ms job_revision subject facts =
    let draft = draft_record j kind at_epoch_ms job_revision subject facts in
    map_err cbor (recompute_digest draft) >>= λ d. ok (record draft { record_digest = d })

unfoldable pub commit_record : Journal → JournalRecord → Journal
commit_record j r = record { records = j.records ++ (r ∷ []) }

unfoldable pub append :
    Journal → JournalRecordKind → ℕ → ℕ → OpaqueId → Facts → Result JournalError Journal
append j kind at_epoch_ms job_revision subject facts =
    prepare_record j kind at_epoch_ms job_revision subject facts >>= λ r. ok (commit_record j r)

-- A record read back from storage.
unfoldable pub adopt : Journal → JournalRecord → Result JournalError Journal
adopt j r =
    ensure (r.sequence == length j.records + 1) (sequence_broken (length j.records + 1) r.sequence)
    >>= λ _. ensure (bytes_eq r.previous_digest (head_digest j)) (chain_broken r.sequence) >>= λ _.
        check_record r >>= λ _. ok (commit_record j r)

-- The loop of `verify`, at `index`, behind a record with digest `previous`.
unfoldable pub verify_from : ℕ → Digest → List JournalRecord → Result JournalError (Unit {0})
verify_from index previous [] = ok tt
verify_from index previous (r ∷ rs) =
    ensure (r.sequence == index + 1) (sequence_broken (index + 1) r.sequence) >>= λ _.
    ensure (r.schema_version == schema_version_1) (unknown_schema_version r.schema_version) >>= λ _.
    ensure (bytes_eq r.previous_digest previous) (chain_broken r.sequence) >>= λ _.
    check_record r >>= λ _. verify_from (index + 1) r.record_digest rs

unfoldable pub verify : Journal → Result JournalError (Unit {0})
verify j = verify_from 0 chain_origin j.records
