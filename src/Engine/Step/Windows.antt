-- ===== src/Engine/Step/Windows.antt =====
-- The crash windows: what `derive` says if the process dies behind each record of a step.
use ark_forge.Prelude.{
  ℕ, Text, bytes_eq, Bool, false, ◌||◌, some, List, [], ◌∷◌, ◌++◌, is_empty, ◌≡◌, refl, sym, ap,
  ◌∙◌, subst, ok,
}
use ark_forge.Core.Digest.Sha256.{Digest}
use ark_forge.Core.Digest.Hex.{to_hex}
use ark_forge.Engine.Kind.{
  JournalRecordKind, kind_eq, job_created, outcome_classified, step_checkpointed,
  step_permit_accepted, step_intent_recorded, permit_consuming, external_dispatch_started,
  semantic_receipt_recorded, permit_consumed,
}
use ark_forge.Engine.Journal.{JournalRecord, Journal}
use ark_forge.Engine.Recovery.{
  PermitDisposition, unseen, accepted_intent_not_durable, intent_durable, consuming_outcome_unknown,
  consumed, CrashDisposition, dispatch_forbidden_until_intent_durable, outcome_unknown,
  receipt_durable_checkpoint_missing, fact_value, job_id_key, permit_id_key, receipt_digest_key,
  named_receipt, filled, settle, derive, row, disposition, from_records,
}
use ark_forge.Engine.Recovery.Ledger.{join, evidence, disposition-snoc}
use ark_forge.Engine.Recovery.Verdict.{IsOwn, IsOpen, IsOpen-snoc, IsAt, IsAt-snoc, derive-row}
use ark_forge.Engine.Durable.{FileOps, DurableJournal}
use ark_forge.Engine.Step.{
  StepContext, Entries, extend_unique_facts, context_facts, facts_with_receipt, step_append,
}
use ark_forge.Engine.Step.Facts.{extend_unique_facts-fact_value, step_append-IsWritten}

-- A record kind that the step protocol writes: neither a creation nor a classification.
pub record IsStepKind (kind : JournalRecordKind) : Type 0 where
  pub later : kind_eq kind job_created ≡ false
  pub unclassified : kind_eq kind outcome_classified ≡ false

-- Facts that name the job and the permit of the step.
pub record IsTagged (c : StepContext) (facts : Entries) : Type 0 where
  pub job : fact_value facts job_id_key ≡ some c.job_id
  pub permit : fact_value facts permit_id_key ≡ some c.permit_id

pub context_facts-IsTagged :
    (c : StepContext) (more : Entries) → IsTagged c (context_facts c ++ more)
unfolding context_facts fact_value bytes_eq
context_facts-IsTagged c more = record { job = refl; permit = refl }

-- The step's job is open and its permit stands at `d`, in the journal.
pub record Stands (c : StepContext) (d : PermitDisposition) (checkpointed : Bool)
    (rs : List JournalRecord) : Type 0 where
  pub opened : IsOpen c.job_id rs
  pub at : IsAt c.job_id c.permit_id d checkpointed rs
  pub ledger : disposition (from_records rs) c.permit_id ≡ d

-- Behind a record of the kind, with the facts: the permit moved by what the record says, and a crash
-- here is in the row of its new place.
abbrev pub Reached :
    StepContext → PermitDisposition → Bool → JournalRecordKind → Entries → Journal → Type 0
Reached c d checkpointed kind facts j =
    let moved = join d (evidence kind (named_receipt facts)) in
    let mark = checkpointed || kind_eq kind step_checkpointed in
    Stands c moved mark j.records × (derive j c.job_id ≡ row c.permit_id mark moved)

snoc-Reached :
    (c : StepContext) (d : PermitDisposition) (checkpointed : Bool) (rs : List JournalRecord)
    (r : JournalRecord)
    → Stands c d checkpointed rs
    → IsStepKind r.kind
    → IsTagged c r.facts
    → Reached c d checkpointed r.kind r.facts (record { records = rs ++ (r ∷ []) })
snoc-Reached c d checkpointed rs r stands k t =
    let own : IsOwn c.job_id r = record { tagged = t.job; later = k.later } in
    let active = IsOpen-snoc c.job_id rs r stands.opened own k.unclassified in
    let at = IsAt-snoc c.job_id c.permit_id d checkpointed rs r stands.at own t.permit in
    let moved = ap (λ x. join x (evidence r.kind (named_receipt r.facts))) stands.ledger in
    (
      record {
        opened = active;
        at = at;
        ledger = disposition-snoc rs r c.permit_id t.permit ∙ moved;
      },
      derive-row c.job_id c.permit_id _ _ rs r active own t.permit at,
    )

module _ (fs : FileOps) where
  pub step_append-Reached :
      (dj : DurableJournal fs) (kind : JournalRecordKind) (at_epoch_ms : ℕ) (c : StepContext)
      (facts : Entries) (after : DurableJournal fs) (digest : Digest) (d : PermitDisposition)
      (checkpointed : Bool)
      → Stands c d checkpointed dj.journal.records
      → IsStepKind kind
      → IsTagged c facts
      → step_append fs dj kind at_epoch_ms c facts ≡ (after, ok digest)
      → Reached c d checkpointed kind facts after.journal
  step_append-Reached dj kind at_epoch_ms c facts after digest d checkpointed stands k t h =
      let w = step_append-IsWritten fs dj kind at_epoch_ms c facts after digest h in
      let r = w.written in
      let reached =
        snoc-Reached c d checkpointed dj.journal.records r stands
          (subst IsStepKind (sym w.kind_kept) k) (subst (IsTagged c) (sym w.facts_kept) t) in
      let journal : Journal = record { records = dj.journal.records ++ (r ∷ []) } in
      let by_kind = subst (λ x. Reached c d checkpointed x r.facts journal) w.kind_kept reached in
      let by_facts = subst (λ x. Reached c d checkpointed kind x journal) w.facts_kept by_kind in
      subst (λ rs. Reached c d checkpointed kind facts (record { records = rs })) (sym w.grown)
        by_facts

accepted-IsStepKind : IsStepKind step_permit_accepted
unfolding kind_eq
accepted-IsStepKind = record { later = refl; unclassified = refl }

intent-IsStepKind : IsStepKind step_intent_recorded
unfolding kind_eq
intent-IsStepKind = record { later = refl; unclassified = refl }

consuming-IsStepKind : IsStepKind permit_consuming
unfolding kind_eq
consuming-IsStepKind = record { later = refl; unclassified = refl }

started-IsStepKind : IsStepKind external_dispatch_started
unfolding kind_eq
started-IsStepKind = record { later = refl; unclassified = refl }

receipt-IsStepKind : IsStepKind semantic_receipt_recorded
unfolding kind_eq
receipt-IsStepKind = record { later = refl; unclassified = refl }

consumed-IsStepKind : IsStepKind permit_consumed
unfolding kind_eq
consumed-IsStepKind = record { later = refl; unclassified = refl }

pub checkpointed-IsStepKind : IsStepKind step_checkpointed
unfolding kind_eq
checkpointed-IsStepKind = record { later = refl; unclassified = refl }

pub facts-IsTagged : (c : StepContext) → IsTagged c (context_facts c)
unfolding context_facts fact_value bytes_eq
facts-IsTagged c = record { job = refl; permit = refl }

-- Two records that an operation leaves, and what a crash behind each of them is taken for.
pub record IsWindows (fs : FileOps) (dj : DurableJournal fs) (c : StepContext)
    (after : DurableJournal fs) (at_first at_last : CrashDisposition) : Type 0 where
  pub middle : DurableJournal fs
  pub first : JournalRecord
  pub last : JournalRecord
  pub first_grown : middle.journal.records ≡ dj.journal.records ++ (first ∷ [])
  pub last_grown : after.journal.records ≡ middle.journal.records ++ (last ∷ [])
  pub first_window : derive middle.journal c.job_id ≡ at_first
  pub last_window : derive after.journal c.job_id ≡ at_last

pub context_receipt :
    (c : StepContext) (d : Digest)
    → fact_value (facts_with_receipt c d) receipt_digest_key ≡ some (to_hex d)
unfolding facts_with_receipt context_facts fact_value bytes_eq
context_receipt c d = refl

pub receipt_facts-IsTagged : (c : StepContext) (d : Digest) → IsTagged c (facts_with_receipt c d)
unfolding facts_with_receipt
receipt_facts-IsTagged c d = context_facts-IsTagged c ((receipt_digest_key, to_hex d) ∷ [])

pub named_receipt-some :
    (facts : Entries) (g : Text)
    → fact_value facts receipt_digest_key ≡ some g
    → is_empty g ≡ false
    → named_receipt facts ≡ some g
unfolding named_receipt filled
named_receipt-some facts g found full = simp (found, full)

pub extend-IsTagged :
    (c : StepContext) (facts : Entries) (extra : List (Text × Text)) (out : Entries)
    → IsTagged c facts
    → extend_unique_facts facts extra ≡ ok out
    → IsTagged c out
extend-IsTagged c facts extra out t h = record {
  job = extend_unique_facts-fact_value facts extra out job_id_key c.job_id h t.job;
  permit = extend_unique_facts-fact_value facts extra out permit_id_key c.permit_id h t.permit;
}

module _ (fs : FileOps) where
  module _ (dj middle after : DurableJournal fs) (c : StepContext) (g1 g2 : Digest) where
    pub admission-IsWindows :
        (at_epoch_ms : ℕ)
        → Stands c unseen false dj.journal.records
        → step_append fs dj step_permit_accepted at_epoch_ms c (context_facts c) ≡ (middle, ok g1)
        → step_append fs middle step_intent_recorded at_epoch_ms c (context_facts c)
          ≡ (after, ok g2)
        → IsWindows fs dj c after
            (dispatch_forbidden_until_intent_durable c.permit_id)
            (outcome_unknown c.permit_id)
          × Stands c intent_durable false after.journal.records
    unfolding kind_eq join evidence row
    admission-IsWindows at_epoch_ms stands e1 e2 =
        let w1 = step_append-IsWritten fs dj _ at_epoch_ms c _ middle g1 e1 in
        let w2 = step_append-IsWritten fs middle _ at_epoch_ms c _ after g2 e2 in
        let (s1, r1) =
          step_append-Reached fs dj _ at_epoch_ms c _ middle g1 unseen false stands
            accepted-IsStepKind (facts-IsTagged c) e1 in
        let (s2, r2) =
          step_append-Reached fs middle _ at_epoch_ms c _ after g2 accepted_intent_not_durable false
            s1 intent-IsStepKind (facts-IsTagged c) e2 in
        (
          record {
            middle = middle;
            first = w1.written;
            last = w2.written;
            first_grown = w1.grown;
            last_grown = w2.grown;
            first_window = r1;
            last_window = r2;
          },
          s2,
        )

    pub dispatch-IsWindows :
        (at_epoch_ms : ℕ) (facts : Entries)
        → Stands c intent_durable false dj.journal.records
        → IsTagged c facts
        → step_append fs dj permit_consuming at_epoch_ms c facts ≡ (middle, ok g1)
        → step_append fs middle external_dispatch_started at_epoch_ms c facts ≡ (after, ok g2)
        → IsWindows fs dj c after (outcome_unknown c.permit_id) (outcome_unknown c.permit_id)
          × Stands c consuming_outcome_unknown false after.journal.records
    unfolding kind_eq join evidence row
    dispatch-IsWindows at_epoch_ms facts stands t e1 e2 =
        let w1 = step_append-IsWritten fs dj _ at_epoch_ms c _ middle g1 e1 in
        let w2 = step_append-IsWritten fs middle _ at_epoch_ms c _ after g2 e2 in
        let (s1, r1) =
          step_append-Reached fs dj _ at_epoch_ms c _ middle g1 intent_durable false stands
            consuming-IsStepKind t e1 in
        let (s2, r2) =
          step_append-Reached fs middle _ at_epoch_ms c _ after g2 consuming_outcome_unknown false
            s1 started-IsStepKind t e2 in
        (
          record {
            middle = middle;
            first = w1.written;
            last = w2.written;
            first_grown = w1.grown;
            last_grown = w2.grown;
            first_window = r1;
            last_window = r2;
          },
          s2,
        )

    pub receipt-IsWindows :
        (at_epoch_ms : ℕ) (facts : Entries) (d : Digest)
        → Stands c consuming_outcome_unknown false dj.journal.records
        → IsTagged c facts
        → named_receipt facts ≡ some (to_hex d)
        → step_append fs dj semantic_receipt_recorded at_epoch_ms c facts ≡ (middle, ok g1)
        → step_append fs middle permit_consumed at_epoch_ms c (facts_with_receipt c d)
          ≡ (after, ok g2)
        → IsWindows fs dj c after
            (receipt_durable_checkpoint_missing c.permit_id)
            (receipt_durable_checkpoint_missing c.permit_id)
          × Stands c (consumed (to_hex d)) false after.journal.records
    unfolding kind_eq join evidence row settle
    receipt-IsWindows at_epoch_ms facts d stands t named e1 e2 =
        let w1 = step_append-IsWritten fs dj _ at_epoch_ms c _ middle g1 e1 in
        let w2 = step_append-IsWritten fs middle _ at_epoch_ms c _ after g2 e2 in
        let reached =
          step_append-Reached fs dj semantic_receipt_recorded at_epoch_ms c facts middle g1
            consuming_outcome_unknown false stands receipt-IsStepKind t e1 in
        let (s1, r1) =
          subst
            (λ n.
              Stands c (join consuming_outcome_unknown (settle n)) false middle.journal.records
              × (derive middle.journal c.job_id
                  ≡ row c.permit_id false (join consuming_outcome_unknown (settle n))))
            named reached in
        let (s2, r2) =
          step_append-Reached fs middle permit_consumed at_epoch_ms c _ after g2
            (consumed (to_hex d)) false s1 consumed-IsStepKind (receipt_facts-IsTagged c d) e2 in
        (
          record {
            middle = middle;
            first = w1.written;
            last = w2.written;
            first_grown = w1.grown;
            last_grown = w2.grown;
            first_window = r1;
            last_window = r2;
          },
          s2,
        )
