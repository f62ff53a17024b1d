-- ===== src/Engine/Durable/Commit.antt =====
-- What an append leaves behind, when it returns and when it fails.
use ark_forge.Prelude.{
  ℕ, Bytes, Bool, true, false, Option, none, some, ◌==◌, ◌≡◌, refl, sym, ap, subst, ◌∙◌, ◌⊎◌, inl,
  inr, Result, ok, err, >>=-eq-ok, map_err, if◌then◌else◌, arith, length, Bool-cases, ==_iff,
}
use ark_forge.Core.Digest.Sha256.{Digest}
use ark_forge.Core.Ids.{OpaqueId}
use ark_forge.Engine.Kind.{JournalRecordKind, policy_eq, FsyncPolicy, fsync_policy}
use ark_forge.Engine.Journal.{
  JournalRecord, Journal, Facts, prepare_record, commit_record, record_bytes, verify,
}
use ark_forge.Engine.Durable.Framed.{IsFramed, frame-IsFramed}
use ark_forge.Engine.Journal.Chain.{IsNext, prepare_record-IsNext, IsNext-verify}
use ark_forge.Engine.Durable.{
  FileOps, DurableJournal, DurableJournalError, journal_error, poisoned_handle, frame, commit,
  with_record, sync_record, finish_write, write_frame, durable_append,
}

pub frame-IsNext :
    (j : Journal) (kind : JournalRecordKind) (at_epoch_ms job_revision : ℕ) (subject : OpaqueId)
    (facts : Facts) (r : JournalRecord) (bytes : Bytes)
    → frame j kind at_epoch_ms job_revision subject facts ≡ ok (r, bytes)
    → IsNext j kind subject facts r
unfolding frame
frame-IsNext j kind at_epoch_ms job_revision subject facts r bytes h =
    let prepared = prepare_record j kind at_epoch_ms job_revision subject facts in
    let (r', e, h1) = >>=-eq-ok (map_err journal_error prepared) _ h in
    let (body, e1, h2) = >>=-eq-ok (map_err _ (record_bytes r')) _ h1 in
    let same : r' ≡ r = ground arith in
    let made : prepared ≡ ok r' = ground arith in
    subst (λ x. IsNext j kind subject facts x) same
      (prepare_record-IsNext j kind at_epoch_ms job_revision subject facts r' made)

module _ (fs : FileOps) where
  -- One record more, under the digest, on a handle that stays usable; and what the system answered:
  -- the write took all of the bytes, and a durable record was then synced.
  pub record IsCommitted (dj : DurableJournal fs) (r : JournalRecord) (bytes : Bytes)
      (digest : Digest) (after : DurableJournal fs) : Type 0 where
    pub healthy : dj.poisoned ≡ false
    pub usable : after.poisoned ≡ false
    pub grown : after.journal ≡ commit_record dj.journal r
    pub returned : digest ≡ r.record_digest
    pub taken : (fs.write dj.file bytes).1 ≡ some (length bytes)
    pub synced :
        r.policy ≡ FsyncPolicy.durable → fs.sync_all (fs.write dj.file bytes).0 ≡ (after.file, true)
    pub kept : r.policy ≡ FsyncPolicy.buffered → after.file ≡ (fs.write dj.file bytes).0
    pub flushed : r.policy ≡ FsyncPolicy.durable → after.unsynced_records ≡ 0

  -- The answer to a record: committed, or on an I/O error a handle that is poisoned, with the record
  -- at most the last one in memory.
  unfoldable pub Answers :
      DurableJournal fs
      → JournalRecord
      → Bytes
      → DurableJournal fs × Result DurableJournalError Digest
      → Type 0
  Answers dj r bytes (after, ok digest) = IsCommitted dj r bytes digest after
  Answers dj r bytes (after, err e) =
      (after.poisoned ≡ true)
      × ((after.journal ≡ dj.journal) ⊎ (after.journal ≡ commit_record dj.journal r))

  module _ (before : DurableJournal fs) (r : JournalRecord) (bytes : Bytes)
      (healthy : before.poisoned ≡ false)
      (taken : (fs.write before.file bytes).1 ≡ some (length bytes)) where
    sync_record-Answers :
        (dj : DurableJournal fs) (answer : fs.File × Bool)
        → dj.poisoned ≡ false
        → dj.journal ≡ commit_record before.journal r
        → r.policy ≡ FsyncPolicy.durable
        → fs.sync_all (fs.write before.file bytes).0 ≡ answer
        → Answers before r bytes (sync_record fs dj r.record_digest answer)
    unfolding sync_record Answers
    sync_record-Answers dj (file, true) usable grown policy asked = record {
      healthy = healthy;
      usable = usable;
      grown = grown;
      returned = refl;
      taken = taken;
      synced = λ p. asked;
      kept = λ p. cc;
      flushed = λ p. refl;
    }
    sync_record-Answers dj (file, false) usable grown policy asked = (refl, inr grown)

    commit-Answers :
        (dj : DurableJournal fs)
        → dj.poisoned ≡ false
        → dj.journal ≡ before.journal
        → dj.file ≡ (fs.write before.file bytes).0
        → Answers before r bytes (commit fs dj r)
    unfolding commit with_record Answers policy_eq
    commit-Answers dj usable same file = by_policy r.policy refl
      where
        by_policy :
            (policy : FsyncPolicy)
            → r.policy ≡ policy
            → Answers before r bytes (
                if policy_eq policy FsyncPolicy.durable
                then sync_record fs (with_record fs dj r) r.record_digest (fs.sync_all dj.file)
                else (with_record fs dj r, ok r.record_digest))
        by_policy FsyncPolicy.durable e =
            sync_record-Answers (with_record fs dj r) (fs.sync_all dj.file) usable
              (ap (λ j. commit_record j r) same) e (ap fs.sync_all (sym file))
        by_policy FsyncPolicy.buffered e = record {
          healthy = healthy;
          usable = usable;
          grown = ap (λ j. commit_record j r) same;
          returned = refl;
          taken = taken;
          synced = λ p. cc;
          kept = λ p. file;
          flushed = λ p. cc;
        }

  module _ (before : DurableJournal fs) (r : JournalRecord) (bytes : Bytes)
      (healthy : before.poisoned ≡ false) where
    pub finish_write-Answers :
        (answer : fs.File × Option ℕ)
        → fs.write before.file bytes ≡ answer
        → Answers before r bytes (finish_write fs before r (length bytes) answer)
    unfolding finish_write Answers
    finish_write-Answers (file, none) asked = (refl, inl refl)
    finish_write-Answers (file, some written) asked = elim (Bool-cases (written == length bytes)) [
      | inl e ↦ rw e (
          commit-Answers before r bytes healthy
            (ap (λ p. p.1) asked ∙ ap some ((==_iff written (length bytes)).0 e))
            (record before { file = file }) healthy refl (ap (λ p. p.0) (sym asked)))
      | inr e ↦ rw e (refl, inl refl)
    ]

  module _ (dj : DurableJournal fs) (kind : JournalRecordKind) (at_epoch_ms job_revision : ℕ)
      (subject : OpaqueId) (facts : Facts) where
    -- What any append amounts to: nothing at all, or an answer to the next record of the chain.
    pub data IsAppend : DurableJournal fs × Result DurableJournalError Digest → Type 0 where
      refused : (e : DurableJournalError) → IsAppend (dj, err e)
      answered :
          (r : JournalRecord) (bytes : Bytes)
          (answer : DurableJournal fs × Result DurableJournalError Digest)
          → IsNext dj.journal kind subject facts r
          → IsFramed r bytes
          → Answers dj r bytes answer
          → IsAppend answer

    pub durable_append-IsAppend :
        IsAppend (durable_append fs dj kind at_epoch_ms job_revision subject facts)
    unfolding durable_append write_frame
    durable_append-IsAppend =
        elim dj.poisoned
            as (λ b.
              dj.poisoned ≡ b
              → IsAppend (
                  if b
                  then (dj, err poisoned_handle)
                  else write_frame fs dj
                      (frame dj.journal kind at_epoch_ms job_revision subject facts))) [
                        | true ↦ λ e. refused poisoned_handle
                        | false ↦ λ e.
                            written (frame dj.journal kind at_epoch_ms job_revision subject facts)
                              refl e
                      ]
          refl
      where
        written :
            (made : Result DurableJournalError (JournalRecord × Bytes))
            → frame dj.journal kind at_epoch_ms job_revision subject facts ≡ made
            → dj.poisoned ≡ false
            → IsAppend (write_frame fs dj made)
        written (ok (r, bytes)) e healthy =
            answered r bytes _
              (frame-IsNext dj.journal kind at_epoch_ms job_revision subject facts r bytes e)
              (frame-IsFramed dj.journal kind at_epoch_ms job_revision subject facts r bytes e)
              (finish_write-Answers dj r bytes healthy (fs.write dj.file bytes) refl)
        written (err e) _ healthy = refused e

    -- An append that returns a digest found a usable handle, leaves it usable, and adds one record:
    -- the next link of the chain, of the kind, subject and facts given, under that digest. The write
    -- took the whole frame of the record. If the kind is a durable one, the file behind that write
    -- was then synced with success and nothing is left to sync; if not, it is the file left behind.
    pub durable_append-IsCommitted :
        (after : DurableJournal fs) (digest : Digest)
        → durable_append fs dj kind at_epoch_ms job_revision subject facts ≡ (after, ok digest)
        → (r : JournalRecord) × (bytes : Bytes) × IsNext dj.journal kind subject facts r
          × IsFramed r bytes
          × IsCommitted dj r bytes digest after
          × (r.policy ≡ fsync_policy kind)
    unfolding Answers
    durable_append-IsCommitted after digest h = committed _ h durable_append-IsAppend
      where
        committed :
            (answer : DurableJournal fs × Result DurableJournalError Digest)
            → answer ≡ (after, ok digest)
            → IsAppend answer
            → (r : JournalRecord) × (bytes : Bytes) × IsNext dj.journal kind subject facts r
              × IsFramed r bytes
              × IsCommitted dj r bytes digest after
              × (r.policy ≡ fsync_policy kind)
        committed _ e (refused x) = cc
        committed _ e (answered r bytes answer next framed a) = (
          r,
          bytes,
          next,
          framed,
          subst (Answers dj r bytes) e a,
          next.link.policy ∙ ap fsync_policy next.kind_kept,
        )

    -- An append that fails either changed nothing, or hit the disk: then the handle is poisoned, and
    -- in memory the journal is as before or has the next link of its chain behind it.
    pub durable_append_failed :
        (after : DurableJournal fs) (e : DurableJournalError)
        → durable_append fs dj kind at_epoch_ms job_revision subject facts ≡ (after, err e)
        → (after ≡ dj)
          ⊎ ((after.poisoned ≡ true)
              × ((after.journal ≡ dj.journal)
                  ⊎ ((r : JournalRecord) × IsNext dj.journal kind subject facts r
                      × (after.journal ≡ commit_record dj.journal r))))
    unfolding Answers
    durable_append_failed after e h = failed _ h durable_append-IsAppend
      where
        failed :
            (answer : DurableJournal fs × Result DurableJournalError Digest)
            → answer ≡ (after, err e)
            → IsAppend answer
            → (after ≡ dj)
              ⊎ ((after.poisoned ≡ true)
                  × ((after.journal ≡ dj.journal)
                      ⊎ ((r : JournalRecord) × IsNext dj.journal kind subject facts r
                          × (after.journal ≡ commit_record dj.journal r))))
        failed _ h (refused x) = inl (ap (λ p. p.0) (sym h))
        failed _ h (answered r bytes answer next framed a) =
            let (poisoned, what) = subst (Answers dj r bytes) h a in
            elim what [
              | inl same ↦ inr (poisoned, inl same)
              | inr grown ↦ inr (poisoned, inr (r, next, grown))
            ]

    -- Whatever an append returns, and whatever the disk answers, the journal still verifies.
    pub durable_append-verify :
        verify dj.journal ≡ ok tt
        → verify (durable_append fs dj kind at_epoch_ms job_revision subject facts).0.journal
          ≡ ok tt
    unfolding Answers
    durable_append-verify v = kept _ durable_append-IsAppend
      where
        kept :
            (answer : DurableJournal fs × Result DurableJournalError Digest)
            → IsAppend answer
            → verify answer.0.journal ≡ ok tt
        kept _ (refused e) = v
        kept (after, ok digest) (answered r _ _ next framed c) =
            rw c.grown
              (IsNext-verify dj.journal kind at_epoch_ms job_revision subject facts r v next)
        kept (after, err e) (answered r _ _ next framed (poisoned, what)) = elim what [
          | inl same ↦ rw same v
          | inr grown ↦
              rw grown
                (IsNext-verify dj.journal kind at_epoch_ms job_revision subject facts r v next)
        ]
