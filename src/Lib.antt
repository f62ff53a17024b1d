-- ===== src/Lib.antt =====
-- A verification library of ArkForge: the rules that decide whether a device may be touched.
--
-- ArkForge flashes devices on behalf of an authority. The authority mints a single-use permit for
-- one step of one job; the daemon verifies it, writes what it is about to do into a hash-chained
-- journal on disk, dispatches, writes down the receipt, and checkpoints. After a crash nothing but
-- the journal says what may have happened to the device. The modules follow that path from below:
--
-- - Prelude: names that every module shares, Boolean tests on native numbers, lists measured by
--   native numbers, Rust's `Result` with `?` as `>>=`, byte strings.
-- - Core/Cbor (crates/arkforge-core/src/digest/cbor.rs): `encode` is `CborValue::encode_into`,
--   `decode_canonical` and `read_value` are the decoder. A map is a list of entries in the order of
--   construction, as in the source. The decoder recurses on the levels that are left of `MAX_DEPTH`,
--   so its fuel is the source's own bound. Head, Order, Payload and Canonical go from accepted bytes
--   to the encoder; Written, Placed, Kinds and RoundTrip go back. Arrange says what a value becomes
--   on the way through, and which values the format holds.
-- - Core/Digest, Core/Digest/Sha256 (digest/mod.rs, digest/sha256.rs): SHA-256 itself on 32-bit words
--   with `% 2 ^ 32` written out, domains, HMAC, hexadecimal text. The buffer of the source, an array
--   with a count, is the list of the bytes in use. A digest is a list of
--   bytes too: that it has 32 of them is a hypothesis where a theorem needs it.
-- - Core/Ids, Core/Binding (ids.rs, authority.rs): identifiers and the binding reference. A typed
--   identifier is its text, and a text is the list of its UTF-8 bytes. Core/Fitting says which of
--   their fields fit the CBOR format.
-- - Core/Effect, Core/Step, Core/Projection (effect.rs, step.rs, projection.rs): what a plan does to a
--   device, its public steps, and `validate_projection`, which ties each private action to the public
--   step that allows it. A `BTreeSet` or `BTreeMap` that is only asked for membership is a list.
--   The workspace's release profile checks sums for overflow and aborts: `end_exclusive` answers or
--   stops with `Abort`, and what calls it stops with it (`Stop`: the process aborts, or the call
--   refuses). Deeds says what a step does without the code that compares steps and effects.
-- - Authority (crates/arkforge-authority-api/src/lib.rs): `mint_integrity_tag`, `verify_permit` and
--   `evaluate_freshness`, with the source's order of tests; an error is a value of the same enum.
--   Decode is `StepPermit::from_canonical_bytes`, and Reread compares it with what the tag covers.
-- - Engine/Kind, Engine/Journal (crates/arkforge-engine/src/journal.rs): record kinds, records, the
--   chain. A method that changes the journal returns the new journal in a `Result`. Stored is
--   `JournalRecord::from_canonical_bytes`; Reread, Resorted and Fresh compare it with the writer.
-- - Engine/Recovery (recovery.rs): the permit ledger, a `BTreeMap` as an association list in key
--   order, and the crash table `derive`.
-- - Engine/Job (lib.rs): job states and their transitions, execution blockers.
-- - Engine/Durable (durable.rs): `open`, `append` and `sync` on a file. The file is a parameter,
--   `FileOps`: a write answers how many bytes it took or fails, a sync succeeds or fails; what only
--   `open` calls is `OpenOps`. A call returns the handle it leaves beside its result, on errors too.
--   Reopen is `open`, its loop over frames on one unit of fuel for each byte of the file. Crash
--   assumes of the file, as `IsDisk`, that a write appends a front of what it was given.
-- - Engine/Step (step.rs): `admit_step`, `begin_dispatch`, `record_receipt`, `checkpoint`, composed of
--   journal appends as in the source; each `?` is an `and_then` that keeps the handle.
-- - Engine/Superseding (superseding.rs): the union of possible effects, reconciliation, and the
--   assessment of a superseding plan. Lasting says what an action may have left on a device without
--   the code that computes it.
-- - Ipc/Wire (crates/arkforge-ipc/src/wire.rs): protobuf varints and fields. A reader is the input
--   that it has not read; ten groups of seven bits are fuel enough for 64 bits.
-- - Tests: sample data, the operations run on it, and each theorem at a concrete input.
--
-- A loop is structural recursion; `whole_blocks` of SHA-256 takes the length of its input as fuel,
-- and each round consumes 64 bytes of it. Times and sequence numbers are natural numbers; the code
-- stores them in 64 bits and neither adds to nor subtracts from a time. Error messages are left out.
--
-- Not modelled: the plan store and the plan codec, plan documents and verification reports, device
-- profiles and their YAML, the IPC messages, artifacts and their decompression, the device providers,
-- and the processes around the engine (daemon, client, USB transport), which are input and output.
pub mod Prelude
pub mod Core
pub mod Authority
pub mod Engine
pub mod Ipc
mod Tests
