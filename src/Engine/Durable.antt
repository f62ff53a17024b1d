-- ===== src/Engine/Durable.antt =====
-- crates/arkforge-engine/src/durable.rs: the journal on a file.
pub mod Commit
pub mod Reopen
pub mod Replayed
pub mod Opened
pub mod Framed
pub mod Restart
pub mod Crash
use ark_forge.Prelude.{
  ℕ, ◌+◌, Bytes, Text, Bool, true, false, not, ◌&&◌, Option, none, some, ◌++◌, ◌==◌, leb, length,
  Result, ok, err, ◌>>=◌, map_err, if◌then◌else◌,
}
use ark_forge.Core.Cbor.Encode.{be32}
use ark_forge.Core.Digest.Sha256.{Digest}
use ark_forge.Core.Ids.{OpaqueId}
use ark_forge.Engine.Kind.{JournalRecordKind, policy_eq, FsyncPolicy}
use ark_forge.Engine.Journal.{
  JournalRecord, Journal, JournalError, Facts, prepare_record, commit_record, record_bytes,
}

abbrev pub max_frame_bytes : ℕ
max_frame_bytes = 1048576

-- The operating system's file: a write answers how many bytes it took, or fails; a sync succeeds
-- or fails.
pub record FileOps : Type 1 where
  pub File : Type 0
  pub write : File → Bytes → File × Option ℕ
  pub sync_all : File → File × Bool

pub record DurableJournal (fs : FileOps) : Type 0 where
  pub file : fs.File
  pub journal : Journal
  pub unsynced_records : ℕ
  pub poisoned : Bool

-- The messages and the path of an I/O error are left out.
pub data DurableJournalError : Type 0 where
  io_failed not_a_journal poisoned_handle : DurableJournalError
  frame_length_invalid : ℕ → ℕ → DurableJournalError
  journal_error : JournalError → DurableJournalError
  record_too_large : ℕ → DurableJournalError

-- The outcome of a call that changes a state: the state it leaves, and its result.
abbrev pub Outcome : Type 0 → Type 0 → Type 0 → Type 0
Outcome S E A = S × Result E A

-- `self.append(…)?`, and the rest.
abbrev pub and_then {ℓ κ μ ν} :
    {S : Type ℓ} {E : Type κ} {A : Type μ} {B : Type ν}
    → S × Result E A
    → (S → A → S × Result E B)
    → S × Result E B
and_then (s, ok a) f = f s a
and_then (s, err e) f = (s, err e)

-- The record and its frame: the length in four bytes, ahead of the body.
unfoldable pub frame :
    Journal
    → JournalRecordKind
    → ℕ
    → ℕ
    → OpaqueId
    → Facts
    → Result DurableJournalError (JournalRecord × Bytes)
frame j kind at_epoch_ms job_revision subject facts =
    map_err journal_error (prepare_record j kind at_epoch_ms job_revision subject facts) >>= λ r.
    map_err (λ e. journal_error (JournalError.cbor e)) (record_bytes r) >>= λ body.
    if not (length body == 0) && leb (length body) max_frame_bytes
    then ok (r, be32 (length body) ++ body)
    else err (record_too_large (length body))

module _ (fs : FileOps) where
  -- Behind the write: commit the record, and sync where its policy demands it.
  unfoldable pub sync_record :
      DurableJournal fs
      → Digest
      → fs.File × Bool
      → Outcome (DurableJournal fs) DurableJournalError Digest
  sync_record dj digest (file, true) = (record dj { file = file; unsynced_records = 0 }, ok digest)
  sync_record dj digest (file, false) = (record dj { file = file; poisoned = true }, err io_failed)

  unfoldable pub with_record : DurableJournal fs → JournalRecord → DurableJournal fs
  with_record dj r = record dj {
    journal = commit_record dj.journal r;
    unsynced_records = dj.unsynced_records + 1;
  }

  unfoldable pub commit :
      DurableJournal fs → JournalRecord → Outcome (DurableJournal fs) DurableJournalError Digest
  commit dj r =
      if policy_eq r.policy FsyncPolicy.durable
      then sync_record (with_record dj r) r.record_digest (fs.sync_all dj.file)
      else (with_record dj r, ok r.record_digest)

  unfoldable pub finish_write :
      DurableJournal fs
      → JournalRecord
      → ℕ
      → fs.File × Option ℕ
      → Outcome (DurableJournal fs) DurableJournalError Digest
  finish_write dj r size (file, some written) =
      if written == size
      then commit (record dj { file = file }) r
      else (record dj { file = file; poisoned = true }, err io_failed)
  finish_write dj r size (file, none) = (record dj { file = file; poisoned = true }, err io_failed)

  unfoldable pub write_frame :
      DurableJournal fs
      → Result DurableJournalError (JournalRecord × Bytes)
      → Outcome (DurableJournal fs) DurableJournalError Digest
  write_frame dj (ok (r, bytes)) = finish_write dj r (length bytes) (fs.write dj.file bytes)
  write_frame dj (err e) = (dj, err e)

  unfoldable pub durable_append :
      DurableJournal fs
      → JournalRecordKind
      → ℕ
      → ℕ
      → OpaqueId
      → Facts
      → Outcome (DurableJournal fs) DurableJournalError Digest
  durable_append dj kind at_epoch_ms job_revision subject facts =
      if dj.poisoned
      then (dj, err poisoned_handle)
      else write_frame dj (frame dj.journal kind at_epoch_ms job_revision subject facts)

  unfoldable pub sync_result :
      DurableJournal fs
      → fs.File × Bool
      → Outcome (DurableJournal fs) DurableJournalError (Unit {0})
  sync_result dj (file, true) = (record dj { file = file; unsynced_records = 0 }, ok tt)
  sync_result dj (file, false) = (record dj { file = file; poisoned = true }, err io_failed)

  unfoldable pub sync :
      DurableJournal fs → Outcome (DurableJournal fs) DurableJournalError (Unit {0})
  sync dj = if dj.poisoned then (dj, err poisoned_handle) else sync_result dj (fs.sync_all dj.file)
