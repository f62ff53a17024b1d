-- ===== src/Engine/Durable/Opened.antt =====
-- `DurableJournal::open` ends, and what it opens is a journal that verifies.
use ark_forge.Prelude.{
  Bytes, Bool, true, false, [], ◌∷◌, ltb, length, Option, none, some, Result, ok, err, ◌>>=◌,
  >>=-eq-ok, ◌≡◌, refl, subst, if◌then◌else◌, arith,
}
use ark_forge.Engine.Journal.{new, verify}
use ark_forge.Engine.Durable.{FileOps, DurableJournal, DurableJournalError, io_failed}
use ark_forge.Engine.Durable.Reopen.{
  magic, RecoveryReport, Replay, replay_content, OpenOps, done, then_sync, loaded, opened,
  finish_open, finish_all, open_content, open_loaded, open_journal,
}
use ark_forge.Engine.Durable.Replayed.{
  Ends, replay_content-Ends, replay_content-IsReplayed, verify-new,
}

some_eq {ℓ} : {A : Type ℓ} {x y : A} → some x ≡ some y → x ≡ y
some_eq p = cc

module _ (fs : FileOps) (ops : OpenOps fs) where
  -- What an opened journal is, whatever was on the disk.
  pub record IsOpened (dj : DurableJournal fs) (report : RecoveryReport) : Type 0 where
    pub verified : verify dj.journal ≡ ok tt
    pub usable : dj.poisoned ≡ false
    pub synced : dj.unsynced_records ≡ 0
    pub counted : report.records_replayed ≡ length dj.journal.records
    pub reported : report.existed ≡ ops.exists

  finish_open-IsOpened :
      (file : fs.File) (r : Replay) (dj : DurableJournal fs) (report : RecoveryReport)
      → verify r.journal ≡ ok tt
      → r.records_replayed ≡ length r.journal.records
      → finish_open fs ops file r ≡ ok (dj, report)
      → IsOpened dj report
  unfolding finish_open
  finish_open-IsOpened file r dj report v n h =
      let (cut, p, q) =
        >>=-eq-ok
          (if ltb 0 r.torn_tail_bytes
            then then_sync fs ops (ops.set_len file r.cursor)
            else ok file)
          _ h in
      let (at_end, p', q') = >>=-eq-ok (done fs ops (ops.seek cut r.cursor)) _ q in
      let same : (record {
        file = at_end;
        journal = r.journal;
        unsynced_records = 0;
        poisoned = false;
      })
          ≡ dj =
        cc in
      let told : (record {
        records_replayed = r.records_replayed;
        torn_tail_bytes = r.torn_tail_bytes;
        existed = ops.exists;
      })
          ≡ report =
        cc in
      subst (λ d. IsOpened d report) same
        (subst (IsOpened _) told
          (record { verified = v; usable = refl; synced = refl; counted = n; reported = refl }))

  open_content-IsOpened :
      (file : fs.File) (content : Bytes) (dj : DurableJournal fs) (report : RecoveryReport)
      → open_content fs ops file content ≡ some (ok (dj, report))
      → IsOpened dj report
  unfolding open_content
  open_content-IsOpened file [] dj report h =
      let (headed, p, q) = >>=-eq-ok (then_sync fs ops (ops.write_all file magic)) _ (some_eq h) in
      finish_open-IsOpened headed
        (record { journal = new; records_replayed = 0; torn_tail_bytes = 0; cursor = 8 }) dj report
        verify-new refl q
  open_content-IsOpened file (b ∷ content) dj report h =
      settled (replay_content (b ∷ content)) refl h
    where
      settled :
          (found : Option (Result DurableJournalError Replay))
          → replay_content (b ∷ content) ≡ found
          → finish_all fs ops file found ≡ some (ok (dj, report))
          → IsOpened dj report
      settled none e h = unfold finish_all in cc
      settled (some (err x)) e h = unfold finish_all in cc
      settled (some (ok r)) e h =
          let good = (replay_content-IsReplayed (b ∷ content) r e).2 in
          finish_open-IsOpened file r dj report good.verified (omega (arith, good.counted))
            (unfold finish_all in some_eq h)

  abbrev Opens : Option (Result DurableJournalError (DurableJournal fs × RecoveryReport)) → Type 0
  Opens o =
      (answer : Result DurableJournalError (DurableJournal fs × RecoveryReport)) × (o ≡ some answer)

  finish_all-Ends :
      (file : fs.File) (found : Option (Result DurableJournalError Replay))
      → Ends found
      → Opens (finish_all fs ops file found)
  unfolding finish_all
  finish_all-Ends file none (answer, e) = cc
  finish_all-Ends file (some r) e = (_, refl)

  open_loaded-Opens :
      (content : Result DurableJournalError (fs.File × Bytes)) → Opens (open_loaded fs ops content)
  unfolding open_loaded open_content
  open_loaded-Opens (err e) = (err e, refl)
  open_loaded-Opens (ok (file, [])) = (_, refl)
  open_loaded-Opens (ok (file, b ∷ content)) =
      finish_all-Ends file (replay_content (b ∷ content)) (replay_content-Ends (b ∷ content))

  open_loaded-IsOpened :
      (content : Result DurableJournalError (fs.File × Bytes)) (dj : DurableJournal fs)
      (report : RecoveryReport)
      → open_loaded fs ops content ≡ some (ok (dj, report))
      → IsOpened dj report
  unfolding open_loaded
  open_loaded-IsOpened (err e) dj report h = cc
  open_loaded-IsOpened (ok (file, content)) dj report h =
      open_content-IsOpened file content dj report h

  -- Opening a journal file comes to an end, whatever the file holds and whatever the system answers.
  pub open_journal_ends :
      (answer : Result DurableJournalError (DurableJournal fs × RecoveryReport)) × (open_journal fs
          ops
        ≡ some answer)
  unfolding open_journal
  open_journal_ends =
      gate ops.create_parent
        (opened fs ops ops.open_file >>= λ file. loaded fs ops (ops.read_to_end file))
    where
      gate :
          (b : Bool) (content : Result DurableJournalError (fs.File × Bytes))
          → Opens (if b then open_loaded fs ops content else some (err io_failed))
      gate true content = open_loaded-Opens content
      gate false content = (err io_failed, refl)

  -- An opened journal verifies, its handle is usable with nothing left to sync, and the report
  -- counts its records.
  pub open_journal-IsOpened :
      (dj : DurableJournal fs) (report : RecoveryReport)
      → open_journal fs ops ≡ some (ok (dj, report))
      → IsOpened dj report
  unfolding open_journal
  open_journal-IsOpened dj report h =
      gate ops.create_parent
        (opened fs ops ops.open_file >>= λ file. loaded fs ops (ops.read_to_end file)) h
    where
      gate :
          (b : Bool) (content : Result DurableJournalError (fs.File × Bytes))
          → (if b then open_loaded fs ops content else some (err io_failed))
            ≡ some (ok (dj, report))
          → IsOpened dj report
      gate true content h = open_loaded-IsOpened content dj report h
      gate false content h = cc
