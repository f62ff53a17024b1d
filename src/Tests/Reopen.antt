-- ===== src/Tests/Reopen.antt =====
-- Stored values, records and journals, read back at concrete inputs.
use ark_forge.Prelude.{
  ℕ, Bytes, Text, str, Bool, true, false, Option, none, some, Result, ok, err, ◌≡◌, refl, List, [],
  ◌∷◌, ◌++◌, ◌+◌, ◌^◌, ◌<◌, ◌⊎◌, inl, inr, map, All, length, take, drop, take_all, arith, ltb,
  ltb→lt, ap, subst, sym,
}
use ark_forge.Core.Cbor.{CborValue, CborEntries, text, unsigned, array, null, nil, cons, end, entry}
use ark_forge.Core.Cbor.Encode.{encode}
use ark_forge.Core.Cbor.Decode.{decode_canonical, max_depth, is_utf8}
use ark_forge.Core.Cbor.Arrange.{arrange, Fits}
use ark_forge.Core.Cbor.RoundTrip.{decode_canonical-encode}
use ark_forge.Core.Digest.Sha256.{Digest}
use ark_forge.Core.Ids.{IsId, opaque_id, opaque_id-IsId}
use ark_forge.Engine.Kind.{plan_stored}
use ark_forge.Engine.Journal.{
  Journal, JournalRecord, Facts, new, verify, draft_record, prepare_record, record_bytes,
  commit_record,
}
use ark_forge.Engine.Journal.Stored.{from_canonical_bytes}
use ark_forge.Engine.Journal.Reread.{IsStorable, reread, from_canonical_bytes-record_bytes}
use ark_forge.Engine.Journal.Fresh.{IsAppendable, prepare_record-IsStorable}
use ark_forge.Engine.Durable.{DurableJournal, DurableJournalError, frame, durable_append}
use ark_forge.Engine.Durable.Reopen.{
  magic, RecoveryReport, Replay, read_frames, replay_content, OpenOps, open_journal,
}
use ark_forge.Engine.Durable.Replayed.{verify-new}
use ark_forge.Engine.Durable.Opened.{IsOpened, open_journal_ends, open_journal-IsOpened}
use ark_forge.Engine.Durable.Framed.{IsFramed, frame-IsFramed}
use ark_forge.Engine.Durable.Restart.{reread_all}
use ark_forge.Engine.Durable.Crash.{
  IsDisk, IsStored, Reopens, durable_append-Reopens, durable_append-IsStored,
}
use ark_forge.Tests.Samples.{memory, value}

-- A map whose keys are not in order.
abbrev tree : CborValue
tree = CborValue.map (
    entry (text (str "second")) (array (cons (unsigned 300) (cons null nil)))
      (entry (text (str "first")) (unsigned 70000) end))

tree-Fits : Fits 65 tree
unfolding ark_forge.Core.Cbor.Encode.be16 ark_forge.Core.Cbor.Encode.be32
    ark_forge.Core.Cbor.Encode.be64 ark_forge.Core.Cbor.Encode.initial_byte
    ark_forge.Core.Cbor.Encode.encode_head ark_forge.Core.Cbor.Encode.insert_by_key
    ark_forge.Core.Cbor.Encode.sort_by_key ark_forge.Core.Cbor.Encode.check_keys
    ark_forge.Core.Cbor.Encode.concat_entries ark_forge.Core.Cbor.Encode.encode_map
    ark_forge.Core.Cbor.Encode.encode_negative ark_forge.Core.Cbor.Encode.encode_bool
    ark_forge.Core.Cbor.Encode.count_values ark_forge.Core.Cbor.Encode.encode
    ark_forge.Core.Cbor.Encode.encode_values ark_forge.Core.Cbor.Encode.encode_entries
    ark_forge.Core.Cbor.Decode.utf8_lead ark_forge.Core.Cbor.Decode.utf8_step
    ark_forge.Core.Cbor.Decode.utf8_from ark_forge.Core.Cbor.Decode.is_utf8
    ark_forge.Core.Cbor.Decode.take_bytes ark_forge.Core.Cbor.Decode.read_wide
    ark_forge.Core.Cbor.Decode.read_argument ark_forge.Core.Cbor.Decode.read_head
    ark_forge.Core.Cbor.Decode.read_negative ark_forge.Core.Cbor.Decode.read_simple
    ark_forge.Core.Cbor.Decode.read_text ark_forge.Core.Cbor.Decode.read_values
    ark_forge.Core.Cbor.Decode.read_entries ark_forge.Core.Cbor.Decode.read_body
    ark_forge.Core.Cbor.Decode.read_value ark_forge.Core.Cbor.Decode.decode_canonical
    ark_forge.Core.Cbor.Arrange.place ark_forge.Core.Cbor.Arrange.arrange
    ark_forge.Core.Cbor.Arrange.arrange_values ark_forge.Core.Cbor.Arrange.arrange_entries
    ark_forge.Core.Cbor.Arrange.count_entries ark_forge.Core.Cbor.Arrange.Fits
    ark_forge.Core.Cbor.Arrange.FitValues ark_forge.Core.Cbor.Arrange.FitEntries
    ark_forge.Core.Digest.domain_bytes ark_forge.Core.Digest.digest_in_domain
    ark_forge.Core.Digest.digest_canonical ark_forge.Core.Digest.hmac_sha256
    ark_forge.Core.Digest.constant_time_eq ark_forge.Core.Digest.Sha256.compress
    ark_forge.Core.Digest.Sha256.new ark_forge.Core.Digest.Sha256.whole_blocks
    ark_forge.Core.Digest.Sha256.absorb ark_forge.Core.Digest.Sha256.fill
    ark_forge.Core.Digest.Sha256.update ark_forge.Core.Digest.Sha256.finalize
    ark_forge.Core.Digest.Sha256.sha256 ark_forge.Core.Ids.allowed
    ark_forge.Core.Ids.check_characters ark_forge.Core.Ids.opaque_id ark_forge.Engine.Kind.kind_eq
    ark_forge.Engine.Kind.policy_name ark_forge.Engine.Kind.parse_policy
    ark_forge.Engine.Kind.policy_eq ark_forge.Engine.Kind.fsync_policy
    ark_forge.Engine.Kind.kind_name ark_forge.Engine.Kind.all_kinds ark_forge.Engine.Kind.find_kind
    ark_forge.Engine.Kind.parse_kind ark_forge.Engine.Journal.facts_cbor
    ark_forge.Engine.Journal.body_entries ark_forge.Engine.Journal.body
    ark_forge.Engine.Journal.recompute_digest ark_forge.Engine.Journal.record_bytes
    ark_forge.Engine.Journal.last_digest ark_forge.Engine.Journal.head_digest
    ark_forge.Engine.Journal.check_record ark_forge.Engine.Journal.draft_record
    ark_forge.Engine.Journal.prepare_record ark_forge.Engine.Journal.commit_record
    ark_forge.Engine.Journal.append ark_forge.Engine.Journal.adopt
    ark_forge.Engine.Journal.verify_from ark_forge.Engine.Journal.verify
    ark_forge.Core.Binding.field ark_forge.Engine.Journal.Stored.as_unsigned
    ark_forge.Engine.Journal.Stored.as_text ark_forge.Engine.Journal.Stored.as_digest
    ark_forge.Engine.Journal.Stored.as_id ark_forge.Engine.Journal.Stored.read_facts
    ark_forge.Engine.Journal.Stored.as_facts ark_forge.Engine.Journal.Stored.entries_of
    ark_forge.Engine.Journal.Stored.schema_version_of ark_forge.Engine.Journal.Stored.kind_of
    ark_forge.Engine.Journal.Stored.policy_of ark_forge.Engine.Journal.Stored.subject_of
    ark_forge.Engine.Journal.Stored.record_of ark_forge.Engine.Journal.Stored.from_canonical_bytes
    ark_forge.Engine.Journal.Reread.place_fact ark_forge.Engine.Journal.Reread.sort_facts
    ark_forge.Engine.Journal.Reread.record_value ark_forge.Engine.Durable.frame
    ark_forge.Engine.Durable.sync_record ark_forge.Engine.Durable.with_record
    ark_forge.Engine.Durable.commit ark_forge.Engine.Durable.finish_write
    ark_forge.Engine.Durable.write_frame ark_forge.Engine.Durable.durable_append
    ark_forge.Engine.Durable.sync_result ark_forge.Engine.Durable.sync
    ark_forge.Engine.Durable.Reopen.get_bytes ark_forge.Engine.Durable.Reopen.adopt_body
    ark_forge.Engine.Durable.Reopen.adopt_sized ark_forge.Engine.Durable.Reopen.adopt_frame
    ark_forge.Engine.Durable.Reopen.resume ark_forge.Engine.Durable.Reopen.read_frames
    ark_forge.Engine.Durable.Reopen.replay_content ark_forge.Engine.Durable.Reopen.done
    ark_forge.Engine.Durable.Reopen.then_sync ark_forge.Engine.Durable.Reopen.loaded
    ark_forge.Engine.Durable.Reopen.opened ark_forge.Engine.Durable.Reopen.finish_open
    ark_forge.Engine.Durable.Reopen.finish_all ark_forge.Engine.Durable.Reopen.open_content
    ark_forge.Engine.Durable.Reopen.open_loaded ark_forge.Engine.Durable.Reopen.open_journal
    ark_forge.Prelude.bytes_eq ark_forge.Prelude.bytes_lt ark_forge.Prelude.any
tree-Fits = (
  omega arith,
  (
    (omega arith, refl),
    (omega arith, (omega arith, (tt, tt))),
    ((omega arith, refl), omega arith, tt),
  ),
)

tree_encodes : encode tree ≡ ok (value [] (encode tree))
unfolding ark_forge.Core.Cbor.Encode.be16 ark_forge.Core.Cbor.Encode.be32
    ark_forge.Core.Cbor.Encode.be64 ark_forge.Core.Cbor.Encode.initial_byte
    ark_forge.Core.Cbor.Encode.encode_head ark_forge.Core.Cbor.Encode.insert_by_key
    ark_forge.Core.Cbor.Encode.sort_by_key ark_forge.Core.Cbor.Encode.check_keys
    ark_forge.Core.Cbor.Encode.concat_entries ark_forge.Core.Cbor.Encode.encode_map
    ark_forge.Core.Cbor.Encode.encode_negative ark_forge.Core.Cbor.Encode.encode_bool
    ark_forge.Core.Cbor.Encode.count_values ark_forge.Core.Cbor.Encode.encode
    ark_forge.Core.Cbor.Encode.encode_values ark_forge.Core.Cbor.Encode.encode_entries
    ark_forge.Core.Cbor.Decode.utf8_lead ark_forge.Core.Cbor.Decode.utf8_step
    ark_forge.Core.Cbor.Decode.utf8_from ark_forge.Core.Cbor.Decode.is_utf8
    ark_forge.Core.Cbor.Decode.take_bytes ark_forge.Core.Cbor.Decode.read_wide
    ark_forge.Core.Cbor.Decode.read_argument ark_forge.Core.Cbor.Decode.read_head
    ark_forge.Core.Cbor.Decode.read_negative ark_forge.Core.Cbor.Decode.read_simple
    ark_forge.Core.Cbor.Decode.read_text ark_forge.Core.Cbor.Decode.read_values
    ark_forge.Core.Cbor.Decode.read_entries ark_forge.Core.Cbor.Decode.read_body
    ark_forge.Core.Cbor.Decode.read_value ark_forge.Core.Cbor.Decode.decode_canonical
    ark_forge.Core.Cbor.Arrange.place ark_forge.Core.Cbor.Arrange.arrange
    ark_forge.Core.Cbor.Arrange.arrange_values ark_forge.Core.Cbor.Arrange.arrange_entries
    ark_forge.Core.Cbor.Arrange.count_entries ark_forge.Core.Cbor.Arrange.Fits
    ark_forge.Core.Cbor.Arrange.FitValues ark_forge.Core.Cbor.Arrange.FitEntries
    ark_forge.Core.Digest.domain_bytes ark_forge.Core.Digest.digest_in_domain
    ark_forge.Core.Digest.digest_canonical ark_forge.Core.Digest.hmac_sha256
    ark_forge.Core.Digest.constant_time_eq ark_forge.Core.Digest.Sha256.compress
    ark_forge.Core.Digest.Sha256.new ark_forge.Core.Digest.Sha256.whole_blocks
    ark_forge.Core.Digest.Sha256.absorb ark_forge.Core.Digest.Sha256.fill
    ark_forge.Core.Digest.Sha256.update ark_forge.Core.Digest.Sha256.finalize
    ark_forge.Core.Digest.Sha256.sha256 ark_forge.Core.Ids.allowed
    ark_forge.Core.Ids.check_characters ark_forge.Core.Ids.opaque_id ark_forge.Engine.Kind.kind_eq
    ark_forge.Engine.Kind.policy_name ark_forge.Engine.Kind.parse_policy
    ark_forge.Engine.Kind.policy_eq ark_forge.Engine.Kind.fsync_policy
    ark_forge.Engine.Kind.kind_name ark_forge.Engine.Kind.all_kinds ark_forge.Engine.Kind.find_kind
    ark_forge.Engine.Kind.parse_kind ark_forge.Engine.Journal.facts_cbor
    ark_forge.Engine.Journal.body_entries ark_forge.Engine.Journal.body
    ark_forge.Engine.Journal.recompute_digest ark_forge.Engine.Journal.record_bytes
    ark_forge.Engine.Journal.last_digest ark_forge.Engine.Journal.head_digest
    ark_forge.Engine.Journal.check_record ark_forge.Engine.Journal.draft_record
    ark_forge.Engine.Journal.prepare_record ark_forge.Engine.Journal.commit_record
    ark_forge.Engine.Journal.append ark_forge.Engine.Journal.adopt
    ark_forge.Engine.Journal.verify_from ark_forge.Engine.Journal.verify
    ark_forge.Core.Binding.field ark_forge.Engine.Journal.Stored.as_unsigned
    ark_forge.Engine.Journal.Stored.as_text ark_forge.Engine.Journal.Stored.as_digest
    ark_forge.Engine.Journal.Stored.as_id ark_forge.Engine.Journal.Stored.read_facts
    ark_forge.Engine.Journal.Stored.as_facts ark_forge.Engine.Journal.Stored.entries_of
    ark_forge.Engine.Journal.Stored.schema_version_of ark_forge.Engine.Journal.Stored.kind_of
    ark_forge.Engine.Journal.Stored.policy_of ark_forge.Engine.Journal.Stored.subject_of
    ark_forge.Engine.Journal.Stored.record_of ark_forge.Engine.Journal.Stored.from_canonical_bytes
    ark_forge.Engine.Journal.Reread.place_fact ark_forge.Engine.Journal.Reread.sort_facts
    ark_forge.Engine.Journal.Reread.record_value ark_forge.Engine.Durable.frame
    ark_forge.Engine.Durable.sync_record ark_forge.Engine.Durable.with_record
    ark_forge.Engine.Durable.commit ark_forge.Engine.Durable.finish_write
    ark_forge.Engine.Durable.write_frame ark_forge.Engine.Durable.durable_append
    ark_forge.Engine.Durable.sync_result ark_forge.Engine.Durable.sync
    ark_forge.Engine.Durable.Reopen.get_bytes ark_forge.Engine.Durable.Reopen.adopt_body
    ark_forge.Engine.Durable.Reopen.adopt_sized ark_forge.Engine.Durable.Reopen.adopt_frame
    ark_forge.Engine.Durable.Reopen.resume ark_forge.Engine.Durable.Reopen.read_frames
    ark_forge.Engine.Durable.Reopen.replay_content ark_forge.Engine.Durable.Reopen.done
    ark_forge.Engine.Durable.Reopen.then_sync ark_forge.Engine.Durable.Reopen.loaded
    ark_forge.Engine.Durable.Reopen.opened ark_forge.Engine.Durable.Reopen.finish_open
    ark_forge.Engine.Durable.Reopen.finish_all ark_forge.Engine.Durable.Reopen.open_content
    ark_forge.Engine.Durable.Reopen.open_loaded ark_forge.Engine.Durable.Reopen.open_journal
    ark_forge.Prelude.bytes_eq ark_forge.Prelude.bytes_lt ark_forge.Prelude.any
tree_encodes = refl

decode_canonical-encode_example : decode_canonical (value [] (encode tree)) ≡ ok (arrange tree)
decode_canonical-encode_example =
    decode_canonical-encode tree (value [] (encode tree)) tree-Fits tree_encodes

-- A file that holds the header, and one append to it.
abbrev blank : DurableJournal memory
blank = record { file = magic; journal = new; unsynced_records = 0; poisoned = false }

abbrev noted : Facts
noted = (str "planId", str "plan-1") ∷ (str "mode", str "loader") ∷ []

abbrev once : DurableJournal memory
once = (durable_append memory blank plan_stored 1600 1 (str "plan-1") noted).0

abbrev once_digest : Digest
once_digest = value [] (durable_append memory blank plan_stored 1600 1 (str "plan-1") noted).1

abbrev one : JournalRecord
one =
    value (draft_record new plan_stored 1600 1 (str "plan-1") noted)
      (prepare_record new plan_stored 1600 1 (str "plan-1") noted)

abbrev front : Bytes
front = drop 8 once.file

-- The file as a crash left it: a whole frame, and five bytes of the next.
abbrev torn : Bytes
torn = once.file ++ take 5 front

abbrev ops : OpenOps memory
ops = record {
  create_parent = true;
  exists = true;
  open_file = some torn;
  read_to_end = λ file. (file, some file);
  write_all = λ file bytes. (file ++ bytes, true);
  set_len = λ file size. (take size file, true);
  seek = λ file at_end. (file, true);
}

abbrev opened_once : DurableJournal memory
opened_once = record {
  file = once.file;
  journal = reread_all once.journal;
  unsynced_records = 0;
  poisoned = false;
}

abbrev report : RecoveryReport
report = record { records_replayed = 1; torn_tail_bytes = 5; existed = true }

record Runs : Type 0 where
  prepared : prepare_record new plan_stored 1600 1 (str "plan-1") noted ≡ ok one
  stored : record_bytes one ≡ ok (drop 4 front)
  made : frame new plan_stored 1600 1 (str "plan-1") noted ≡ ok (one, front)
  written :
      durable_append memory blank plan_stored 1600 1 (str "plan-1") noted ≡ (once, ok once_digest)
  long : ltb 5 (length front) ≡ true
  kept : once.journal.records ≡ one ∷ []
  verified : verify once.journal ≡ ok tt
  reopened : open_journal memory ops ≡ some (ok (opened_once, report))

runs : Runs
unfolding ark_forge.Core.Cbor.Encode.be16 ark_forge.Core.Cbor.Encode.be32
    ark_forge.Core.Cbor.Encode.be64 ark_forge.Core.Cbor.Encode.initial_byte
    ark_forge.Core.Cbor.Encode.encode_head ark_forge.Core.Cbor.Encode.insert_by_key
    ark_forge.Core.Cbor.Encode.sort_by_key ark_forge.Core.Cbor.Encode.check_keys
    ark_forge.Core.Cbor.Encode.concat_entries ark_forge.Core.Cbor.Encode.encode_map
    ark_forge.Core.Cbor.Encode.encode_negative ark_forge.Core.Cbor.Encode.encode_bool
    ark_forge.Core.Cbor.Encode.count_values ark_forge.Core.Cbor.Encode.encode
    ark_forge.Core.Cbor.Encode.encode_values ark_forge.Core.Cbor.Encode.encode_entries
    ark_forge.Core.Cbor.Decode.utf8_lead ark_forge.Core.Cbor.Decode.utf8_step
    ark_forge.Core.Cbor.Decode.utf8_from ark_forge.Core.Cbor.Decode.is_utf8
    ark_forge.Core.Cbor.Decode.take_bytes ark_forge.Core.Cbor.Decode.read_wide
    ark_forge.Core.Cbor.Decode.read_argument ark_forge.Core.Cbor.Decode.read_head
    ark_forge.Core.Cbor.Decode.read_negative ark_forge.Core.Cbor.Decode.read_simple
    ark_forge.Core.Cbor.Decode.read_text ark_forge.Core.Cbor.Decode.read_values
    ark_forge.Core.Cbor.Decode.read_entries ark_forge.Core.Cbor.Decode.read_body
    ark_forge.Core.Cbor.Decode.read_value ark_forge.Core.Cbor.Decode.decode_canonical
    ark_forge.Core.Cbor.Arrange.place ark_forge.Core.Cbor.Arrange.arrange
    ark_forge.Core.Cbor.Arrange.arrange_values ark_forge.Core.Cbor.Arrange.arrange_entries
    ark_forge.Core.Cbor.Arrange.count_entries ark_forge.Core.Cbor.Arrange.Fits
    ark_forge.Core.Cbor.Arrange.FitValues ark_forge.Core.Cbor.Arrange.FitEntries
    ark_forge.Core.Digest.domain_bytes ark_forge.Core.Digest.digest_in_domain
    ark_forge.Core.Digest.digest_canonical ark_forge.Core.Digest.hmac_sha256
    ark_forge.Core.Digest.constant_time_eq ark_forge.Core.Digest.Sha256.compress
    ark_forge.Core.Digest.Sha256.new ark_forge.Core.Digest.Sha256.whole_blocks
    ark_forge.Core.Digest.Sha256.absorb ark_forge.Core.Digest.Sha256.fill
    ark_forge.Core.Digest.Sha256.update ark_forge.Core.Digest.Sha256.finalize
    ark_forge.Core.Digest.Sha256.sha256 ark_forge.Core.Ids.allowed
    ark_forge.Core.Ids.check_characters ark_forge.Core.Ids.opaque_id ark_forge.Engine.Kind.kind_eq
    ark_forge.Engine.Kind.policy_name ark_forge.Engine.Kind.parse_policy
    ark_forge.Engine.Kind.policy_eq ark_forge.Engine.Kind.fsync_policy
    ark_forge.Engine.Kind.kind_name ark_forge.Engine.Kind.all_kinds ark_forge.Engine.Kind.find_kind
    ark_forge.Engine.Kind.parse_kind ark_forge.Engine.Journal.facts_cbor
    ark_forge.Engine.Journal.body_entries ark_forge.Engine.Journal.body
    ark_forge.Engine.Journal.recompute_digest ark_forge.Engine.Journal.record_bytes
    ark_forge.Engine.Journal.last_digest ark_forge.Engine.Journal.head_digest
    ark_forge.Engine.Journal.check_record ark_forge.Engine.Journal.draft_record
    ark_forge.Engine.Journal.prepare_record ark_forge.Engine.Journal.commit_record
    ark_forge.Engine.Journal.append ark_forge.Engine.Journal.adopt
    ark_forge.Engine.Journal.verify_from ark_forge.Engine.Journal.verify
    ark_forge.Core.Binding.field ark_forge.Engine.Journal.Stored.as_unsigned
    ark_forge.Engine.Journal.Stored.as_text ark_forge.Engine.Journal.Stored.as_digest
    ark_forge.Engine.Journal.Stored.as_id ark_forge.Engine.Journal.Stored.read_facts
    ark_forge.Engine.Journal.Stored.as_facts ark_forge.Engine.Journal.Stored.entries_of
    ark_forge.Engine.Journal.Stored.schema_version_of ark_forge.Engine.Journal.Stored.kind_of
    ark_forge.Engine.Journal.Stored.policy_of ark_forge.Engine.Journal.Stored.subject_of
    ark_forge.Engine.Journal.Stored.record_of ark_forge.Engine.Journal.Stored.from_canonical_bytes
    ark_forge.Engine.Journal.Reread.place_fact ark_forge.Engine.Journal.Reread.sort_facts
    ark_forge.Engine.Journal.Reread.record_value ark_forge.Engine.Durable.frame
    ark_forge.Engine.Durable.sync_record ark_forge.Engine.Durable.with_record
    ark_forge.Engine.Durable.commit ark_forge.Engine.Durable.finish_write
    ark_forge.Engine.Durable.write_frame ark_forge.Engine.Durable.durable_append
    ark_forge.Engine.Durable.sync_result ark_forge.Engine.Durable.sync
    ark_forge.Engine.Durable.Reopen.get_bytes ark_forge.Engine.Durable.Reopen.adopt_body
    ark_forge.Engine.Durable.Reopen.adopt_sized ark_forge.Engine.Durable.Reopen.adopt_frame
    ark_forge.Engine.Durable.Reopen.resume ark_forge.Engine.Durable.Reopen.read_frames
    ark_forge.Engine.Durable.Reopen.replay_content ark_forge.Engine.Durable.Reopen.done
    ark_forge.Engine.Durable.Reopen.then_sync ark_forge.Engine.Durable.Reopen.loaded
    ark_forge.Engine.Durable.Reopen.opened ark_forge.Engine.Durable.Reopen.finish_open
    ark_forge.Engine.Durable.Reopen.finish_all ark_forge.Engine.Durable.Reopen.open_content
    ark_forge.Engine.Durable.Reopen.open_loaded ark_forge.Engine.Durable.Reopen.open_journal
    ark_forge.Prelude.bytes_eq ark_forge.Prelude.bytes_lt ark_forge.Prelude.any
runs = record {
  prepared = refl;
  stored = refl;
  made = refl;
  written = refl;
  long = refl;
  kept = refl;
  verified = refl;
  reopened = refl;
}

noted-IsAppendable : IsAppendable new 1600 1 (str "plan-1") noted
unfolding ark_forge.Core.Cbor.Encode.be16 ark_forge.Core.Cbor.Encode.be32
    ark_forge.Core.Cbor.Encode.be64 ark_forge.Core.Cbor.Encode.initial_byte
    ark_forge.Core.Cbor.Encode.encode_head ark_forge.Core.Cbor.Encode.insert_by_key
    ark_forge.Core.Cbor.Encode.sort_by_key ark_forge.Core.Cbor.Encode.check_keys
    ark_forge.Core.Cbor.Encode.concat_entries ark_forge.Core.Cbor.Encode.encode_map
    ark_forge.Core.Cbor.Encode.encode_negative ark_forge.Core.Cbor.Encode.encode_bool
    ark_forge.Core.Cbor.Encode.count_values ark_forge.Core.Cbor.Encode.encode
    ark_forge.Core.Cbor.Encode.encode_values ark_forge.Core.Cbor.Encode.encode_entries
    ark_forge.Core.Cbor.Decode.utf8_lead ark_forge.Core.Cbor.Decode.utf8_step
    ark_forge.Core.Cbor.Decode.utf8_from ark_forge.Core.Cbor.Decode.is_utf8
    ark_forge.Core.Cbor.Decode.take_bytes ark_forge.Core.Cbor.Decode.read_wide
    ark_forge.Core.Cbor.Decode.read_argument ark_forge.Core.Cbor.Decode.read_head
    ark_forge.Core.Cbor.Decode.read_negative ark_forge.Core.Cbor.Decode.read_simple
    ark_forge.Core.Cbor.Decode.read_text ark_forge.Core.Cbor.Decode.read_values
    ark_forge.Core.Cbor.Decode.read_entries ark_forge.Core.Cbor.Decode.read_body
    ark_forge.Core.Cbor.Decode.read_value ark_forge.Core.Cbor.Decode.decode_canonical
    ark_forge.Core.Cbor.Arrange.place ark_forge.Core.Cbor.Arrange.arrange
    ark_forge.Core.Cbor.Arrange.arrange_values ark_forge.Core.Cbor.Arrange.arrange_entries
    ark_forge.Core.Cbor.Arrange.count_entries ark_forge.Core.Cbor.Arrange.Fits
    ark_forge.Core.Cbor.Arrange.FitValues ark_forge.Core.Cbor.Arrange.FitEntries
    ark_forge.Core.Digest.domain_bytes ark_forge.Core.Digest.digest_in_domain
    ark_forge.Core.Digest.digest_canonical ark_forge.Core.Digest.hmac_sha256
    ark_forge.Core.Digest.constant_time_eq ark_forge.Core.Digest.Sha256.compress
    ark_forge.Core.Digest.Sha256.new ark_forge.Core.Digest.Sha256.whole_blocks
    ark_forge.Core.Digest.Sha256.absorb ark_forge.Core.Digest.Sha256.fill
    ark_forge.Core.Digest.Sha256.update ark_forge.Core.Digest.Sha256.finalize
    ark_forge.Core.Digest.Sha256.sha256 ark_forge.Core.Ids.allowed
    ark_forge.Core.Ids.check_characters ark_forge.Core.Ids.opaque_id ark_forge.Engine.Kind.kind_eq
    ark_forge.Engine.Kind.policy_name ark_forge.Engine.Kind.parse_policy
    ark_forge.Engine.Kind.policy_eq ark_forge.Engine.Kind.fsync_policy
    ark_forge.Engine.Kind.kind_name ark_forge.Engine.Kind.all_kinds ark_forge.Engine.Kind.find_kind
    ark_forge.Engine.Kind.parse_kind ark_forge.Engine.Journal.facts_cbor
    ark_forge.Engine.Journal.body_entries ark_forge.Engine.Journal.body
    ark_forge.Engine.Journal.recompute_digest ark_forge.Engine.Journal.record_bytes
    ark_forge.Engine.Journal.last_digest ark_forge.Engine.Journal.head_digest
    ark_forge.Engine.Journal.check_record ark_forge.Engine.Journal.draft_record
    ark_forge.Engine.Journal.prepare_record ark_forge.Engine.Journal.commit_record
    ark_forge.Engine.Journal.append ark_forge.Engine.Journal.adopt
    ark_forge.Engine.Journal.verify_from ark_forge.Engine.Journal.verify
    ark_forge.Core.Binding.field ark_forge.Engine.Journal.Stored.as_unsigned
    ark_forge.Engine.Journal.Stored.as_text ark_forge.Engine.Journal.Stored.as_digest
    ark_forge.Engine.Journal.Stored.as_id ark_forge.Engine.Journal.Stored.read_facts
    ark_forge.Engine.Journal.Stored.as_facts ark_forge.Engine.Journal.Stored.entries_of
    ark_forge.Engine.Journal.Stored.schema_version_of ark_forge.Engine.Journal.Stored.kind_of
    ark_forge.Engine.Journal.Stored.policy_of ark_forge.Engine.Journal.Stored.subject_of
    ark_forge.Engine.Journal.Stored.record_of ark_forge.Engine.Journal.Stored.from_canonical_bytes
    ark_forge.Engine.Journal.Reread.place_fact ark_forge.Engine.Journal.Reread.sort_facts
    ark_forge.Engine.Journal.Reread.record_value ark_forge.Engine.Durable.frame
    ark_forge.Engine.Durable.sync_record ark_forge.Engine.Durable.with_record
    ark_forge.Engine.Durable.commit ark_forge.Engine.Durable.finish_write
    ark_forge.Engine.Durable.write_frame ark_forge.Engine.Durable.durable_append
    ark_forge.Engine.Durable.sync_result ark_forge.Engine.Durable.sync
    ark_forge.Engine.Durable.Reopen.get_bytes ark_forge.Engine.Durable.Reopen.adopt_body
    ark_forge.Engine.Durable.Reopen.adopt_sized ark_forge.Engine.Durable.Reopen.adopt_frame
    ark_forge.Engine.Durable.Reopen.resume ark_forge.Engine.Durable.Reopen.read_frames
    ark_forge.Engine.Durable.Reopen.replay_content ark_forge.Engine.Durable.Reopen.done
    ark_forge.Engine.Durable.Reopen.then_sync ark_forge.Engine.Durable.Reopen.loaded
    ark_forge.Engine.Durable.Reopen.opened ark_forge.Engine.Durable.Reopen.finish_open
    ark_forge.Engine.Durable.Reopen.finish_all ark_forge.Engine.Durable.Reopen.open_content
    ark_forge.Engine.Durable.Reopen.open_loaded ark_forge.Engine.Durable.Reopen.open_journal
    ark_forge.Prelude.bytes_eq ark_forge.Prelude.bytes_lt ark_forge.Prelude.any
noted-IsAppendable = record {
  number_small = omega arith;
  time_small = omega arith;
  revision_small = omega arith;
  subject_IsId = ((opaque_id-IsId (str "plan-1") (str "plan-1")).0 refl).1;
  facts_fit = (
    (((opaque_id-IsId (str "planId") (str "planId")).0 refl).1, omega arith, refl),
    ((((opaque_id-IsId (str "mode") (str "mode")).0 refl).1, omega arith, refl), tt),
  );
  few_facts = omega arith;
}

one-IsStorable : IsStorable one
one-IsStorable =
    prepare_record-IsStorable new plan_stored 1600 1 (str "plan-1") noted one tt noted-IsAppendable
      runs.prepared

from_canonical_bytes-record_bytes_example : from_canonical_bytes (drop 4 front) ≡ ok (reread one)
from_canonical_bytes-record_bytes_example =
    from_canonical_bytes-record_bytes one (drop 4 front) one-IsStorable runs.stored

open_journal_ends_example :
    (answer : Result DurableJournalError (DurableJournal memory × RecoveryReport)) × (open_journal
        memory ops
      ≡ some answer)
open_journal_ends_example = open_journal_ends memory ops

open_journal-IsOpened_example : IsOpened memory ops opened_once report
open_journal-IsOpened_example = open_journal-IsOpened memory ops opened_once report runs.reopened

one-IsFramed : IsFramed one front
one-IsFramed = frame-IsFramed new plan_stored 1600 1 (str "plan-1") noted one front runs.made

memory-IsDisk : IsDisk memory (λ f. f)
memory-IsDisk = record {
  wrote = λ f f' bytes n e. ground (arith, take_all n bytes);
  failed = λ f f' bytes e. cc;
  synced = λ f. refl;
}

blank-IsStored : IsStored memory (λ f. f) blank
blank-IsStored = record {
  verified = verify-new;
  storable = tt;
  bytes = [];
  framed = refl;
  whole = refl;
}

durable_append-Reopens_example :
    Reopens memory
      (λ f. f)
      memory-IsDisk
      blank
      plan_stored
      1600
      1
      (str "plan-1")
      noted
      blank-IsStored
      noted-IsAppendable
      once.file
durable_append-Reopens_example =
    durable_append-Reopens memory (λ f. f) memory-IsDisk blank plan_stored 1600 1 (str "plan-1")
      noted blank-IsStored noted-IsAppendable

durable_append-IsStored_example : IsStored memory (λ f. f) once
durable_append-IsStored_example =
    durable_append-IsStored memory (λ f. f) memory-IsDisk blank plan_stored 1600 1 (str "plan-1")
      noted blank-IsStored noted-IsAppendable once once_digest runs.written
