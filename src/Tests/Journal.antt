-- ===== src/Tests/Journal.antt =====
-- The journal, in memory and on a file, at concrete inputs.
use ark_forge.Prelude.{
  Bytes, ℕ, Text, str, Bool, true, false, ok, err, ◌≡◌, ◌↔◌, ◌⊎◌, refl, List, [], ◌∷◌, ◌++◌,
}
use ark_forge.Engine.Kind.{job_created, plan_stored, fsync_policy, FsyncPolicy}
use ark_forge.Engine.Journal.{
  Journal, JournalRecord, Facts, new, verify, append, commit_record, chain_origin,
}
use ark_forge.Engine.Journal.Chain.{IsChain, IsNext, verify_iff}
use ark_forge.Engine.Journal.Replay.{adopt_all, adopt_all-verify}
use ark_forge.Engine.Durable.{DurableJournal, DurableJournalError, durable_append, io_failed}
use ark_forge.Engine.Durable.Commit.{
  IsCommitted, durable_append-IsCommitted, durable_append_failed, durable_append-verify,
}
use ark_forge.Engine.Durable.Framed.{IsFramed}
use ark_forge.Core.Digest.Sha256.{Digest}
use ark_forge.Tests.Samples.{memory, broken, value, start, finished}

abbrev stored : Facts
stored = (str "planId", str "plan-1") ∷ []

abbrev grown : Journal
grown = value new (append start.journal plan_stored 1600 1 (str "plan-1") stored)

abbrev after : DurableJournal memory
after = (durable_append memory start plan_stored 1600 1 (str "plan-1") stored).0

abbrev digest : Digest
digest = value [] (durable_append memory start plan_stored 1600 1 (str "plan-1") stored).1

abbrev worn : DurableJournal broken
worn = record { file = []; journal = start.journal; unsynced_records = 0; poisoned = false }

abbrev torn : DurableJournal broken
torn = (durable_append broken worn plan_stored 1600 1 (str "plan-1") stored).0

record Runs : Type 0 where
  verified : verify start.journal ≡ ok tt
  appended : append start.journal plan_stored 1600 1 (str "plan-1") stored ≡ ok grown
  written :
      durable_append memory start plan_stored 1600 1 (str "plan-1") stored ≡ (after, ok digest)
  failed :
      durable_append broken worn plan_stored 1600 1 (str "plan-1") stored ≡ (torn, err io_failed)

runs : Runs
unfolding ark_forge.Core.Cbor.Encode.be16 ark_forge.Core.Cbor.Encode.be32
    ark_forge.Core.Cbor.Encode.be64 ark_forge.Core.Cbor.Encode.initial_byte
    ark_forge.Core.Cbor.Encode.encode_head ark_forge.Core.Cbor.Encode.insert_by_key
    ark_forge.Core.Cbor.Encode.sort_by_key ark_forge.Core.Cbor.Encode.check_keys
    ark_forge.Core.Cbor.Encode.concat_entries ark_forge.Core.Cbor.Encode.encode_map
    ark_forge.Core.Cbor.Encode.encode_bool ark_forge.Core.Cbor.Encode.encode
    ark_forge.Core.Cbor.Encode.encode_values ark_forge.Core.Cbor.Encode.encode_entries
    ark_forge.Core.Digest.domain_bytes ark_forge.Core.Digest.digest_in_domain
    ark_forge.Core.Digest.digest_canonical ark_forge.Core.Digest.hmac_sha256
    ark_forge.Core.Digest.constant_time_eq ark_forge.Core.Digest.Sha256.compress
    ark_forge.Core.Digest.Sha256.new ark_forge.Core.Digest.Sha256.whole_blocks
    ark_forge.Core.Digest.Sha256.absorb ark_forge.Core.Digest.Sha256.fill
    ark_forge.Core.Digest.Sha256.update ark_forge.Core.Digest.Sha256.finalize
    ark_forge.Core.Digest.Sha256.sha256 ark_forge.Engine.Kind.kind_eq
    ark_forge.Engine.Kind.policy_name ark_forge.Engine.Kind.policy_eq
    ark_forge.Engine.Kind.fsync_policy ark_forge.Engine.Kind.kind_name
    ark_forge.Engine.Journal.facts_cbor ark_forge.Engine.Journal.body_entries
    ark_forge.Engine.Journal.body ark_forge.Engine.Journal.recompute_digest
    ark_forge.Engine.Journal.record_bytes ark_forge.Engine.Journal.last_digest
    ark_forge.Engine.Journal.head_digest ark_forge.Engine.Journal.check_record
    ark_forge.Engine.Journal.draft_record ark_forge.Engine.Journal.prepare_record
    ark_forge.Engine.Journal.commit_record ark_forge.Engine.Journal.append
    ark_forge.Engine.Journal.verify_from ark_forge.Engine.Journal.verify
    ark_forge.Engine.Durable.frame ark_forge.Engine.Durable.sync_record
    ark_forge.Engine.Durable.with_record ark_forge.Engine.Durable.commit
    ark_forge.Engine.Durable.finish_write ark_forge.Engine.Durable.write_frame
    ark_forge.Engine.Durable.durable_append ark_forge.Prelude.bytes_eq ark_forge.Prelude.bytes_lt
    ark_forge.Prelude.any
runs = record { verified = refl; appended = refl; written = refl; failed = refl }

verify_iff_example :
    (verify finished.journal ≡ ok tt) ↔ IsChain 0 chain_origin finished.journal.records
verify_iff_example = verify_iff finished.journal

adopt_all-verify_example :
    (adopt_all new finished.journal.records ≡ ok finished.journal)
    ↔ ((verify finished.journal ≡ ok tt) × (finished.journal.records ≡ finished.journal.records))
adopt_all-verify_example = adopt_all-verify finished.journal.records finished.journal

durable_append-IsCommitted_example :
    (r : JournalRecord) × (bytes : Bytes) × IsNext start.journal plan_stored (str "plan-1") stored r
    × IsFramed r bytes
    × IsCommitted memory start r bytes digest after
    × (r.policy ≡ fsync_policy plan_stored)
durable_append-IsCommitted_example =
    durable_append-IsCommitted memory start plan_stored 1600 1 (str "plan-1") stored after digest
      runs.written

durable_append_failed_example :
    (torn ≡ worn)
    ⊎ ((torn.poisoned ≡ true)
        × ((torn.journal ≡ worn.journal)
            ⊎ ((r : JournalRecord) × IsNext worn.journal plan_stored (str "plan-1") stored r
                × (torn.journal ≡ commit_record worn.journal r))))
durable_append_failed_example =
    durable_append_failed broken worn plan_stored 1600 1 (str "plan-1") stored torn io_failed
      runs.failed

durable_append-verify_example :
    verify (durable_append broken worn plan_stored 1600 1 (str "plan-1") stored).0.journal ≡ ok tt
durable_append-verify_example =
    durable_append-verify broken worn plan_stored 1600 1 (str "plan-1") stored runs.verified
