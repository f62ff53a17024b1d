-- ===== src/Engine/Step/Facts.antt =====
-- The facts of a step's records, and the append that writes one.
use mathlib.Core.List.{append_assoc, append-nil}
use ark_forge.Prelude.{
  Bool, All, ◌≢◌, ◌↔◌, true, false, bytes_eq_iff, map_err-eq-ok, sym, ℕ, Text, bytes_eq, some, List,
  [], ◌∷◌, ◌++◌, ◌≡◌, refl, ap, subst, ◌∙◌, Result, ok, err, >>=-eq-ok, Bool-cases, inl, inr, arith,
}
use ark_forge.Core.Digest.Sha256.{Digest}
use ark_forge.Core.Ids.{OpaqueId, IsId, opaque_id, opaque_id-IsId}
use ark_forge.Engine.Kind.{JournalRecordKind, fsync_policy, FsyncPolicy}
use ark_forge.Engine.Journal.{JournalRecord, commit_record}
use ark_forge.Engine.Recovery.{fact_value, permit_id_key}
use ark_forge.Engine.Durable.{FileOps, DurableJournal, DurableJournalError, and_then}
use ark_forge.Engine.Durable.Commit.{durable_append-IsCommitted}
use ark_forge.Engine.Step.{
  StepContext, context_facts, Entries, usable_id, has_key, extend_unique_facts, step_append,
  journal_answer,
}

pub fact_value-append :
    (facts more : Entries) (key v : Text)
    → fact_value facts key ≡ some v
    → fact_value (facts ++ more) key ≡ some v
unfolding fact_value
fact_value-append [] more key v h = cc
fact_value-append ((k, w) ∷ facts) more key v h = ground (arith, fact_value-append facts more key v)

usable_id_same : (t : Text) (id : OpaqueId) → usable_id t ≡ ok id → id ≡ t
unfolding usable_id
usable_id_same t id h =
    let accepted : opaque_id t ≡ ok id = ground arith in ((opaque_id-IsId t id).0 accepted).0

extend_unique_facts-append :
    (facts : Entries) (extra : List (Text × Text)) (out : Entries)
    → extend_unique_facts facts extra ≡ ok out
    → (more : Entries) × (out ≡ facts ++ more)
unfolding extend_unique_facts
extend_unique_facts-append facts [] out h = ([], ground (arith, append-nil facts))
extend_unique_facts-append facts ((name, value) ∷ extra) out h =
    let (id, e, h1) = >>=-eq-ok (usable_id name) _ h in
    elim (Bool-cases (has_key id facts)) [
      | inl taken ↦ ground arith
      | inr new ↦
          let (more, grown) =
            extend_unique_facts-append (facts ++ ((id, value) ∷ [])) extra out (rw new at h1) in
          ((id, value) ∷ more, grown ∙ append_assoc facts ((id, value) ∷ []) more)
    ]

-- No fact has the key.
abbrev pub IsFree : Text → Entries → Type 0
IsFree key facts = All (λ f. f.0 ≢ key) facts

-- Each key is an identifier, and none but that of its own fact: no fact before has it.
abbrev pub AreNew : Entries → List (Text × Text) → Type 0
AreNew facts [] = Unit {0}
AreNew facts ((name, value) ∷ extra) =
    IsId name × IsFree name facts × AreNew (facts ++ ((name, value) ∷ [])) extra

has_key-IsFree : (name : Text) (facts : Entries) → (has_key name facts ≡ false) ↔ IsFree name facts
unfolding has_key
has_key-IsFree name [] = (λ h. tt, λ h. refl)
has_key-IsFree name ((k, v) ∷ facts) =
    let (to, from) = has_key-IsFree name facts in
    let same = bytes_eq_iff k name in
    elim (Bool-cases (bytes_eq k name)) [
      | inl p ↦ rw p (λ h. cc, λ h. absurd (h.0 (same.0 p)))
      | inr p ↦ rw p (λ h. (λ e. contrary p (same.1 e), to h), λ h. from h.1)
    ]
  where
    contrary : {b : Bool} → b ≡ false → b ≡ true → ⊥
    contrary p q = cc

usable_id-IsId : (name id : Text) → (usable_id name ≡ ok id) ↔ ((id ≡ name) × IsId name)
unfolding usable_id
usable_id-IsId name id = (
  λ h. (opaque_id-IsId name id).0 (map_err-eq-ok _ (opaque_id name) h),
  λ h. rw ((opaque_id-IsId name id).1 h) refl,
)

-- Facts of a caller are taken exactly when each key is an identifier that no fact before it has,
-- neither the engine's nor the caller's; they then stand, as given, behind those of the engine.
pub extend_unique_facts_iff :
    (facts : Entries) (extra : List (Text × Text)) (out : Entries)
    → (extend_unique_facts facts extra ≡ ok out) ↔ (AreNew facts extra × (out ≡ facts ++ extra))
unfolding extend_unique_facts
extend_unique_facts_iff facts [] out =
    (λ h. (tt, ground (arith, append-nil facts)), λ h. rw (h.1, append-nil facts) refl)
extend_unique_facts_iff facts ((name, value) ∷ extra) out =
    let (to, from) = extend_unique_facts_iff (facts ++ ((name, value) ∷ [])) extra out in
    let free = has_key-IsFree name facts in
    let moved = append_assoc facts ((name, value) ∷ []) extra in
    (
      λ h.
          let (id, e, h1) = >>=-eq-ok (usable_id name) _ h in
          let (same, named) = (usable_id-IsId name id).0 e in
          elim (Bool-cases (has_key name facts)) [
            | inl taken ↦ ground (arith, same)
            | inr new ↦
                let h2 : extend_unique_facts (facts ++ ((name, value) ∷ [])) extra ≡ ok out =
                  rw new at (rw same at h1) in
                let (more, grown) = to h2 in ((named, free.0 new, more), grown ∙ moved)
          ],
      λ h.
          rw ((usable_id-IsId name name).1 (refl, h.0.0), free.1 h.0.1)
            (from (h.0.2, h.1 ∙ sym moved)),
    )

-- Facts that are added behind others do not shadow them.
pub extend_unique_facts-fact_value :
    (facts : Entries) (extra : List (Text × Text)) (out : Entries) (key v : Text)
    → extend_unique_facts facts extra ≡ ok out
    → fact_value facts key ≡ some v
    → fact_value out key ≡ some v
extend_unique_facts-fact_value facts extra out key v h found =
    let (more, grown) = extend_unique_facts-append facts extra out h in
    rw grown (fact_value-append facts more key v found)

pub context_facts-permit :
    (c : StepContext) → fact_value (context_facts c) permit_id_key ≡ some c.permit_id
unfolding context_facts fact_value bytes_eq
context_facts-permit c = refl

pub and_then-ok {ℓ κ μ ν} :
    {S : Type ℓ} {E : Type κ} {A : Type μ} {B : Type ν} (m : S × Result E A)
    (f : S → A → S × Result E B) {t : S} {b : B}
    → and_then m f ≡ (t, ok b)
    → (s : S) × (a : A) × (m ≡ (s, ok a)) × (f s a ≡ (t, ok b))
and_then-ok (s, ok a) f h = (s, a, refl, h)
and_then-ok (s, err e) f h = cc

module _ (fs : FileOps) where
  -- One record of the step, on disk.
  pub record IsWritten (dj : DurableJournal fs) (kind : JournalRecordKind) (facts : Entries)
      (digest : Digest) (after : DurableJournal fs) : Type 0 where
    pub written : JournalRecord
    pub kind_kept : written.kind ≡ kind
    pub facts_kept : written.facts ≡ facts
    pub returned : digest ≡ written.record_digest
    pub grown : after.journal.records ≡ dj.journal.records ++ (written ∷ [])
    pub flushed : fsync_policy kind ≡ FsyncPolicy.durable → after.unsynced_records ≡ 0

  journal_answer-ok :
      (outcome : DurableJournal fs × Result DurableJournalError Digest) (after : DurableJournal fs)
      (digest : Digest)
      → journal_answer fs outcome ≡ (after, ok digest)
      → outcome ≡ (after, ok digest)
  unfolding journal_answer
  journal_answer-ok (s, ok d) after digest h = ground arith
  journal_answer-ok (s, err e) after digest h = ground arith

  pub step_append-IsWritten :
      (dj : DurableJournal fs) (kind : JournalRecordKind) (at_epoch_ms : ℕ) (c : StepContext)
      (facts : Entries) (after : DurableJournal fs) (digest : Digest)
      → step_append fs dj kind at_epoch_ms c facts ≡ (after, ok digest)
      → IsWritten dj kind facts digest after
  unfolding step_append commit_record
  step_append-IsWritten dj kind at_epoch_ms c facts after digest h =
      let (dj0, subject, e, h1) = and_then-ok (dj, usable_id c.step_id) _ h in
      let appended = journal_answer-ok _ after digest h1 in
      let (r, bytes, next, framed, committed, policy) =
        durable_append-IsCommitted fs dj0 kind at_epoch_ms 1 subject facts after digest appended in
      let same : dj0 ≡ dj = ground arith in
      record {
        written = r;
        kind_kept = next.kind_kept;
        facts_kept = next.facts_kept;
        returned = committed.returned;
        grown =
            subst (λ d. after.journal.records ≡ d.journal.records ++ (r ∷ [])) same
              (ap (λ j. j.records) committed.grown);
        flushed = λ durable. committed.flushed (policy ∙ durable);
      }
