-- ===== src/Engine/Durable/Reopen.antt =====
-- `DurableJournal::open`: the replay of a journal file, and the file operations around it.
use ark_forge.Prelude.{
  ℕ, zero, suc, ◌+◌, Bytes, str, bytes_eq, Bool, true, false, not, ◌||◌, [], ◌∷◌, ◌==◌, ltb, leb,
  length, take, drop, Option, none, some, Result, ok, err, ◌>>=◌, map_err, if◌then◌else◌,
}
use ark_forge.Core.Cbor.Decode.{from_be}
use ark_forge.Engine.Journal.{Journal, new, adopt}
use ark_forge.Engine.Journal.Stored.{from_canonical_bytes}
use ark_forge.Engine.Durable.{
  FileOps, DurableJournal, DurableJournalError, io_failed, not_a_journal, frame_length_invalid,
  journal_error, max_frame_bytes,
}

abbrev pub magic : Bytes
magic = str "ARKFJRN1"

pub record RecoveryReport : Type 0 where
  pub records_replayed : ℕ
  pub torn_tail_bytes : ℕ
  pub existed : Bool

-- The loop's variables: the journal, the two counts of the report, and the cursor.
pub record Replay : Type 0 where
  pub journal : Journal
  pub records_replayed : ℕ
  pub torn_tail_bytes : ℕ
  pub cursor : ℕ

-- `bytes.get(at..at + count)`, on the bytes at `at`: the range and what is behind it.
unfoldable pub get_bytes : ℕ → Bytes → Option (Bytes × Bytes)
get_bytes count bs = if leb count (length bs) then some (take count bs, drop count bs) else none

-- A frame that is whole: its record joins the journal. The answer has the frame's length as read.
unfoldable pub adopt_body :
    Journal → ℕ → Option (Bytes × Bytes) → Result DurableJournalError (Option (Journal × ℕ × Bytes))
adopt_body j size none = ok none
adopt_body j size (some (body, rest)) = map_err journal_error (from_canonical_bytes body) >>= λ r.
    map_err journal_error (adopt j r) >>= λ next. ok (some (next, size, rest))

unfoldable pub adopt_sized :
    ℕ → Journal → ℕ → Bytes → Result DurableJournalError (Option (Journal × ℕ × Bytes))
adopt_sized cursor j size rest =
    let whole = adopt_body j size (get_bytes size rest) in
    if size == 0 || ltb max_frame_bytes size then err (frame_length_invalid cursor size) else whole

unfoldable pub adopt_frame :
    ℕ → Journal → Option (Bytes × Bytes) → Result DurableJournalError (Option (Journal × ℕ × Bytes))
adopt_frame cursor j none = ok none
adopt_frame cursor j (some (size_bytes, rest)) = adopt_sized cursor j (from_be 0 size_bytes) rest

-- The end of one turn: an error, a torn tail, or the next turn.
unfoldable pub resume :
    (ℕ → Bytes → Journal → ℕ → Option (Result DurableJournalError Replay))
    → ℕ
    → ℕ
    → Journal
    → ℕ
    → Result DurableJournalError (Option (Journal × ℕ × Bytes))
    → Option (Result DurableJournalError Replay)
resume next cursor left j replayed (err e) = some (err e)
resume next cursor left j replayed (ok none) = some (
    ok (record {
      journal = j;
      records_replayed = replayed;
      torn_tail_bytes = left;
      cursor = cursor;
    }))
resume next cursor left j replayed (ok (some (grown, size, rest))) =
    next (cursor + 4 + size) rest grown (replayed + 1)

-- The loop on fuel, at `cursor`, over the bytes there: `none` is fuel that ran out.
unfoldable pub read_frames :
    ℕ → ℕ → Bytes → Journal → ℕ → Option (Result DurableJournalError Replay)
read_frames zero cursor [] j replayed =
    some (
      ok
        (record { journal = j; records_replayed = replayed; torn_tail_bytes = 0; cursor = cursor }))
read_frames zero cursor (b ∷ bs) j replayed = none
read_frames (suc fuel) cursor [] j replayed =
    some (
      ok
        (record { journal = j; records_replayed = replayed; torn_tail_bytes = 0; cursor = cursor }))
read_frames (suc fuel) cursor (b ∷ bs) j replayed =
    resume (read_frames fuel) cursor (length (b ∷ bs)) j replayed
      (adopt_frame cursor j (get_bytes 4 (b ∷ bs)))

-- The bytes of a file that is not empty.
unfoldable pub replay_content : Bytes → Option (Result DurableJournalError Replay)
replay_content content =
    let whole = read_frames (length content) 8 (drop 8 content) new 0 in
    if ltb (length content) 8 || not (bytes_eq (take 8 content) magic)
    then some (err not_a_journal)
    else whole

-- The operations that only `open` uses: what the directory, the existence test and the opening
-- answer, and the calls on the file.
pub record OpenOps (fs : FileOps) : Type 0 where
  pub create_parent : Bool
  pub exists : Bool
  pub open_file : Option fs.File
  pub read_to_end : fs.File → fs.File × Option Bytes
  pub write_all : fs.File → Bytes → fs.File × Bool
  pub set_len : fs.File → ℕ → fs.File × Bool
  pub seek : fs.File → ℕ → fs.File × Bool

module _ (fs : FileOps) (ops : OpenOps fs) where
  unfoldable pub done : fs.File × Bool → Result DurableJournalError fs.File
  done (file, true) = ok file
  done (file, false) = err io_failed

  -- `.and_then(|()| file.sync_all())`.
  unfoldable pub then_sync : fs.File × Bool → Result DurableJournalError fs.File
  then_sync answer = done answer >>= λ file. done (fs.sync_all file)

  unfoldable pub loaded : fs.File × Option Bytes → Result DurableJournalError (fs.File × Bytes)
  loaded (file, some content) = ok (file, content)
  loaded (file, none) = err io_failed

  unfoldable pub opened : Option fs.File → Result DurableJournalError fs.File
  opened (some file) = ok file
  opened none = err io_failed

  -- Behind the loop: cut the torn tail off, and seek to the end.
  unfoldable pub finish_open :
      fs.File → Replay → Result DurableJournalError (DurableJournal fs × RecoveryReport)
  finish_open file r =
      (if ltb 0 r.torn_tail_bytes then then_sync (ops.set_len file r.cursor) else ok file)
      >>= λ cut. done (ops.seek cut r.cursor) >>= λ at_end. ok (
        record { file = at_end; journal = r.journal; unsynced_records = 0; poisoned = false },
        record {
          records_replayed = r.records_replayed;
          torn_tail_bytes = r.torn_tail_bytes;
          existed = ops.exists;
        },
      )

  unfoldable pub finish_all :
      fs.File
      → Option (Result DurableJournalError Replay)
      → Option (Result DurableJournalError (DurableJournal fs × RecoveryReport))
  finish_all file none = none
  finish_all file (some r) = some (r >>= finish_open file)

  -- An empty file gets its header, and nothing is replayed.
  unfoldable pub open_content :
      fs.File → Bytes → Option (Result DurableJournalError (DurableJournal fs × RecoveryReport))
  open_content file [] = some (
      then_sync (ops.write_all file magic) >>= λ headed.
      finish_open headed
        (record { journal = new; records_replayed = 0; torn_tail_bytes = 0; cursor = 8 }))
  open_content file (b ∷ content) = finish_all file (replay_content (b ∷ content))

  unfoldable pub open_loaded :
      Result DurableJournalError (fs.File × Bytes)
      → Option (Result DurableJournalError (DurableJournal fs × RecoveryReport))
  open_loaded (ok (file, content)) = open_content file content
  open_loaded (err e) = some (err e)

  -- `DurableJournal::open`.
  unfoldable pub open_journal :
      Option (Result DurableJournalError (DurableJournal fs × RecoveryReport))
  open_journal =
      if ops.create_parent
      then open_loaded (opened ops.open_file >>= λ file. loaded (ops.read_to_end file))
      else some (err io_failed)
