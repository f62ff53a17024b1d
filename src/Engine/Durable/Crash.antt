-- ===== src/Engine/Durable/Crash.antt =====
-- Appends against the disk: whatever an append returns, the file that it leaves reopens.
use ark_forge.Prelude.{
  take_all, ℕ, ◌+◌, Bytes, Bool, true, false, List, [], ◌∷◌, ◌++◌, ◌==◌, ==_iff, ltb, length, take,
  Option, none, some, Result, ok, err, map_err, >>=-eq-ok, ◌≡◌, refl, sym, subst, ◌∙◌, ap, ◌⊎◌, inl,
  inr, if◌then◌else◌, Bool-cases, arith, length-append, All, All-append, ltb→lt, ltb_false→le,
}
use mathlib.Core.List.{append_assoc, append-nil}
use ark_forge.Core.Digest.Sha256.{Digest}
use ark_forge.Core.Ids.{OpaqueId}
use ark_forge.Engine.Kind.{JournalRecordKind, policy_eq, FsyncPolicy}
use ark_forge.Engine.Journal.{
  JournalRecord, Facts, prepare_record, record_bytes, commit_record, verify,
}
use ark_forge.Engine.Journal.Chain.{IsNext, IsNext-verify}
use ark_forge.Engine.Journal.Reread.{IsStorable}
use ark_forge.Engine.Journal.Fresh.{IsAppendable, prepare_record-IsStorable}
use ark_forge.Engine.Durable.{
  FileOps, DurableJournal, DurableJournalError, journal_error, io_failed, poisoned_handle, frame,
  commit, with_record, sync_record, finish_write, write_frame, durable_append,
}
use ark_forge.Engine.Durable.Commit.{frame-IsNext, Answers, finish_write-Answers}
use ark_forge.Engine.Durable.Reopen.{magic, replay_content}
use ark_forge.Engine.Durable.Framed.{IsFramed, frame-IsFramed}
use ark_forge.Engine.Durable.Restart.{AreFramed, replayed_to, reread_all, replay_content-AreFramed}

-- A write that answers `n` put the first `n` bytes behind what the file held; one that failed put
-- some of them there; a sync leaves the file as it is.
pub record IsDisk (fs : FileOps) (contents : fs.File → Bytes) : Type 0 where
  pub wrote :
      (f f' : fs.File) (bytes : Bytes) (n : ℕ)
      → fs.write f bytes ≡ (f', some n)
      → contents f' ≡ contents f ++ take n bytes
  pub failed :
      (f f' : fs.File) (bytes : Bytes)
      → fs.write f bytes ≡ (f', none)
      → (n : ℕ) × (contents f' ≡ contents f ++ take n bytes)
  pub synced : (f : fs.File) → contents (fs.sync_all f).0 ≡ contents f

module _ (fs : FileOps) (contents : fs.File → Bytes) where
  -- The file holds the header and the frames of the journal in memory.
  pub record IsStored (dj : DurableJournal fs) : Type 0 where
    pub verified : verify dj.journal ≡ ok tt
    pub storable : All IsStorable dj.journal.records
    pub bytes : Bytes
    pub framed : AreFramed dj.journal.records bytes
    pub whole : contents dj.file ≡ magic ++ bytes

AreFramed-append :
    (rs : List JournalRecord) (r : JournalRecord) (bytes front : Bytes)
    → AreFramed rs bytes
    → IsFramed r front
    → AreFramed (rs ++ (r ∷ [])) (bytes ++ front)
AreFramed-append [] r bytes front a f =
    (front, [], f, refl, ap (λ x. x ++ front) a ∙ sym (append-nil front))
AreFramed-append (x ∷ rs) r bytes front (first, rest, fx, a, e) f = (
  first,
  rest ++ front,
  fx,
  AreFramed-append rs r rest front a f,
  ap (λ x. x ++ front) e ∙ append_assoc first rest front,
)

module _ (fs : FileOps) (contents : fs.File → Bytes) (disk : IsDisk fs contents) where
  sync_record-contents :
      (dj : DurableJournal fs) (d : Digest) (answer : fs.File × Bool)
      → contents (sync_record fs dj d answer).0.file ≡ contents answer.0
  unfolding sync_record
  sync_record-contents dj d (file, true) = refl
  sync_record-contents dj d (file, false) = refl

  commit-contents :
      (dj : DurableJournal fs) (r : JournalRecord)
      → contents (commit fs dj r).0.file ≡ contents dj.file
  unfolding commit with_record
  commit-contents dj r =
      elim (policy_eq r.policy FsyncPolicy.durable)
        as (λ b.
          contents
            (if b
              then sync_record fs (with_record fs dj r) r.record_digest (fs.sync_all dj.file)
              else (with_record fs dj r, ok r.record_digest)).0.file
          ≡ contents dj.file) [
            | true ↦
                sync_record-contents (with_record fs dj r) r.record_digest (fs.sync_all dj.file)
                ∙ disk.synced dj.file
            | false ↦ refl
          ]

  -- Behind the write, nothing changes the file's bytes.
  finish_write-contents :
      (dj : DurableJournal fs) (r : JournalRecord) (size : ℕ) (answer : fs.File × Option ℕ)
      → contents (finish_write fs dj r size answer).0.file ≡ contents answer.0
  unfolding finish_write
  finish_write-contents dj r size (file, none) = refl
  finish_write-contents dj r size (file, some written) =
      elim (written == size)
        as (λ b.
          contents
            (if b
              then commit fs (record (dj) { file = file }) r
              else (record (dj) { file = file; poisoned = true }, err io_failed)).0.file
          ≡ contents file) [ true ↦ commit-contents (record (dj) { file = file }) r | false ↦ refl ]

  finish_write-full :
      (dj : DurableJournal fs) (r : JournalRecord) (size : ℕ) (answer : fs.File × Option ℕ)
      (after : DurableJournal fs) (digest : Digest)
      → finish_write fs dj r size answer ≡ (after, ok digest)
      → answer.1 ≡ some size
  unfolding finish_write
  finish_write-full dj r size (file, none) after digest h = cc
  finish_write-full dj r size (file, some written) after digest h =
      elim (written == size)
          as (λ b.
            written == size ≡ b
            → (if b
                then commit fs (record (dj) { file = file }) r
                else (record (dj) { file = file; poisoned = true }, err io_failed))
              ≡ (after, ok digest)
            → some written ≡ some size) [
              | true ↦ λ e h. ap some ((==_iff written size).0 e)
              | false ↦ λ e h. cc
            ]
        refl h

  -- What a write leaves of a frame.
  written_part :
      (f : fs.File) (bytes : Bytes)
      → (n : ℕ) × (contents (fs.write f bytes).0 ≡ contents f ++ take n bytes)
  written_part f bytes = part (fs.write f bytes) refl
    where
      part :
          (answer : fs.File × Option ℕ)
          → fs.write f bytes ≡ answer
          → (n : ℕ) × (contents answer.0 ≡ contents f ++ take n bytes)
      part (f', some n) e = (n, disk.wrote f f' bytes n e)
      part (f', none) e = disk.failed f f' bytes e

  module _ (dj : DurableJournal fs) (kind : JournalRecordKind) (at_epoch_ms job_revision : ℕ)
      (subject : OpaqueId) (facts : Facts) (stored : IsStored fs contents dj)
      (fits : IsAppendable dj.journal at_epoch_ms job_revision subject facts) where
    -- The file reopens as the journal before the append, or with one record more.
    abbrev pub Reopens : Bytes → Type 0
    Reopens content =
        ((torn : ℕ) × (cursor : ℕ) × (replay_content content
            ≡ replayed_to (reread_all dj.journal) (length dj.journal.records) torn cursor))
        ⊎ ((r : JournalRecord) × (cursor : ℕ) × IsNext dj.journal kind subject facts r
            × (replay_content content
                ≡ replayed_to (reread_all (commit_record dj.journal r))
                    (length dj.journal.records + 1) 0 cursor))

    frame-IsStorable :
        (r : JournalRecord) (bytes : Bytes)
        → frame dj.journal kind at_epoch_ms job_revision subject facts ≡ ok (r, bytes)
        → IsStorable r
    unfolding frame
    frame-IsStorable r bytes h =
        let prepared = prepare_record dj.journal kind at_epoch_ms job_revision subject facts in
        let (r', e, h1) = >>=-eq-ok (map_err journal_error prepared) _ h in
        let (body, e1, h2) = >>=-eq-ok (map_err _ (record_bytes r')) _ h1 in
        let same : r' ≡ r = ground arith in
        let made : prepared ≡ ok r' = ground arith in
        subst IsStorable same (
          prepare_record-IsStorable dj.journal kind at_epoch_ms job_revision subject facts r'
            stored.storable fits made)

    module _ (r : JournalRecord) (bytes : Bytes)
        (made : frame dj.journal kind at_epoch_ms job_revision subject facts ≡ ok (r, bytes)) where
      next : IsNext dj.journal kind subject facts r
      next = frame-IsNext dj.journal kind at_epoch_ms job_revision subject facts r bytes made

      framed : IsFramed r bytes
      framed = frame-IsFramed dj.journal kind at_epoch_ms job_revision subject facts r bytes made

      -- One record more, on a file with its whole frame.
      grown-IsStored :
          (after : DurableJournal fs)
          → after.journal ≡ commit_record dj.journal r
          → contents after.file ≡ contents dj.file ++ bytes
          → IsStored fs contents after
      unfolding commit_record
      grown-IsStored after j c = record {
        verified = rw j (
            IsNext-verify dj.journal kind at_epoch_ms job_revision subject facts r stored.verified
              next);
        storable = rw j (
            All-append IsStorable dj.journal.records (r ∷ []) stored.storable
              (frame-IsStorable r bytes made, tt));
        bytes = stored.bytes ++ bytes;
        framed =
            rw j (AreFramed-append dj.journal.records r stored.bytes bytes stored.framed framed);
        whole = c ∙ ap (λ x. x ++ bytes) stored.whole ∙ append_assoc magic stored.bytes bytes;
      }

      part-Reopens :
          (content : Bytes) (n : ℕ) → content ≡ contents dj.file ++ take n bytes → Reopens content
      unfolding commit_record
      part-Reopens content n e = elim (Bool-cases (ltb n (length bytes))) [
        | inl short ↦ inl (
          length (take n bytes),
          8 + length stored.bytes,
          ap replay_content (
                e
                ∙ ap (λ x. x ++ take n bytes) stored.whole
                ∙ append_assoc magic stored.bytes (take n bytes))
              ∙ replay_content-AreFramed dj.journal stored.bytes (take n bytes) stored.verified
                  stored.storable stored.framed
                  (inr (r, bytes, n, framed, ltb→lt n (length bytes) short, refl)),
        )
        | inr long ↦
            let all =
              e
              ∙ ap (λ x. contents dj.file ++ x)
                  (take_all n bytes (ltb_false→le n (length bytes) long)) in
            let grown = commit_record dj.journal r in
            inr (
              r,
              8 + length (stored.bytes ++ bytes),
              next,
              ap replay_content (
                    all
                    ∙ ap (λ x. x ++ bytes) stored.whole
                    ∙ append_assoc magic stored.bytes bytes
                    ∙ ap (λ x. magic ++ x) (sym (append-nil (stored.bytes ++ bytes))))
                  ∙ replay_content-AreFramed grown (stored.bytes ++ bytes) []
                      (IsNext-verify dj.journal kind at_epoch_ms job_revision subject facts r
                        stored.verified next)
                      (All-append IsStorable dj.journal.records (r ∷ []) stored.storable
                        (frame-IsStorable r bytes made, tt))
                      (AreFramed-append dj.journal.records r stored.bytes bytes stored.framed
                        framed)
                      (inl refl)
                  ∙ ap
                      (λ c. replayed_to (reread_all grown) c 0 (8 + length (stored.bytes ++ bytes)))
                      (length-append dj.journal.records (r ∷ [])),
            )
      ]

    as_it_was : Reopens (contents dj.file)
    as_it_was = inl (
      0,
      8 + length stored.bytes,
      ap replay_content (stored.whole ∙ ap (λ x. magic ++ x) (sym (append-nil stored.bytes)))
          ∙ replay_content-AreFramed dj.journal stored.bytes [] stored.verified stored.storable
              stored.framed (inl refl),
    )

    write_frame-Reopens :
        (made : Result DurableJournalError (JournalRecord × Bytes))
        → frame dj.journal kind at_epoch_ms job_revision subject facts ≡ made
        → Reopens (contents (write_frame fs dj made).0.file)
    unfolding write_frame
    write_frame-Reopens (err e) _ = as_it_was
    write_frame-Reopens (ok (r, bytes)) made =
        let (n, part) = written_part dj.file bytes in
        part-Reopens r bytes made _ n
          (finish_write-contents dj r (length bytes) (fs.write dj.file bytes) ∙ part)

    -- Whatever an append returns and however much of its frame the disk took, the file reopens: as
    -- the journal before it, or with one record more, the one asked for.
    pub durable_append-Reopens :
        Reopens (contents (durable_append fs dj kind at_epoch_ms job_revision subject facts).0.file)
    unfolding durable_append
    durable_append-Reopens =
        elim dj.poisoned
          as (λ b. Reopens (
            contents
              (if b
                then (dj, err poisoned_handle)
                else write_frame fs dj
                    (frame dj.journal kind at_epoch_ms job_revision subject facts)).0.file)) [
                      | true ↦ as_it_was
                      | false ↦
                          write_frame-Reopens
                            (frame dj.journal kind at_epoch_ms job_revision subject facts) refl
                    ]

    ok_write-IsStored :
        (after : DurableJournal fs) (digest : Digest)
        → dj.poisoned ≡ false
        → (made : Result DurableJournalError (JournalRecord × Bytes))
        → frame dj.journal kind at_epoch_ms job_revision subject facts ≡ made
        → write_frame fs dj made ≡ (after, ok digest)
        → IsStored fs contents after
    unfolding write_frame Answers
    ok_write-IsStored after digest healthy (err e) _ h = cc
    ok_write-IsStored after digest healthy (ok (r, bytes)) made h =
        let answer = fs.write dj.file bytes in
        let committed =
          subst (Answers fs dj r bytes) h
            (finish_write-Answers fs dj r bytes healthy answer refl) in
        let full : answer.1 ≡ some (length bytes) =
          finish_write-full dj r (length bytes) answer after digest h in
        let wrote =
          disk.wrote dj.file answer.0 bytes (length bytes) (ap (λ w. (answer.0, w)) full) in
        grown-IsStored r bytes made after committed.grown (
          ap (λ p. contents p.0.file) (sym h)
          ∙ finish_write-contents dj r (length bytes) answer
          ∙ wrote
          ∙ ap (λ x. contents dj.file ++ x) (take_all (length bytes) bytes (omega arith)))

    -- Behind an append that returns a digest, the file holds the header and the frames of the
    -- journal in memory again.
    pub durable_append-IsStored :
        (after : DurableJournal fs) (digest : Digest)
        → durable_append fs dj kind at_epoch_ms job_revision subject facts ≡ (after, ok digest)
        → IsStored fs contents after
    unfolding durable_append
    durable_append-IsStored after digest h =
        elim dj.poisoned
            as (λ b.
              dj.poisoned ≡ b
              → (if b
                  then (dj, err poisoned_handle)
                  else write_frame fs dj
                      (frame dj.journal kind at_epoch_ms job_revision subject facts))
                ≡ (after, ok digest)
              → IsStored fs contents after) [
                | true ↦ λ e h. cc
                | false ↦ λ e h.
                    ok_write-IsStored after digest e
                      (frame dj.journal kind at_epoch_ms job_revision subject facts) refl h
              ]
          refl h
