-- ===== src/Engine/Recovery/Verdict.antt =====
-- The crash table: how one record more of a job moves the row that `derive` finds.
use mathlib.Core.List.{append-nil}
use ark_forge.Prelude.{
  Text, bytes_eq_refl, Bool, true, false, ◌&&◌, ◌||◌, none, some, List, [], ◌∷◌, ◌++◌, any, ◌≡◌,
  refl, ap, ◌∙◌, arith,
}
use ark_forge.Engine.Kind.{kind_eq, job_created, outcome_classified, step_checkpointed}
use ark_forge.Engine.Journal.{JournalRecord}
use ark_forge.Engine.Recovery.{
  PermitDisposition, fact_value, permit_id_key, job_id_key, select, is_creation,
  is_single_job_journal, belongs, job_records, sole_creation, classified, first_classified,
  newest_permit, names_permit, is_value, is_checkpointed, row, row_for, derive_row, conclude,
  or_else, belongs_by, derive_records, derive, disposition, from_records, named_receipt,
}
use ark_forge.Engine.Recovery.Ledger.{join, evidence, disposition-snoc}

select-append :
    (p : JournalRecord → Bool) (xs ys : List JournalRecord)
    → select p (xs ++ ys) ≡ select p xs ++ select p ys
unfolding select
select-append p [] ys = refl
select-append p (x ∷ xs) ys = ground (arith, select-append p xs ys)

any-append :
    (p : JournalRecord → Bool) (xs ys : List JournalRecord)
    → any p (xs ++ ys) ≡ (any p xs || any p ys)
unfolding any
any-append p [] ys = refl
any-append p (x ∷ xs) ys = ground (arith, any-append p xs ys)

-- A record that the job wrote after its creation.
pub record IsOwn (job_id : Text) (r : JournalRecord) : Type 0 where
  pub tagged : fact_value r.facts job_id_key ≡ some job_id
  pub later : kind_eq r.kind job_created ≡ false

job_records-snoc :
    (job_id : Text) (rs : List JournalRecord) (r : JournalRecord)
    → IsOwn job_id r
    → job_records job_id (rs ++ (r ∷ [])) ≡ job_records job_id rs ++ (r ∷ [])
unfolding job_records is_single_job_journal is_creation select belongs belongs_by
job_records-snoc job_id rs r own =
    let creations : select is_creation (rs ++ (r ∷ [])) ≡ select is_creation rs =
      select-append is_creation rs (r ∷ []) ∙ simp own.later (append-nil (select is_creation rs)) in
    let single = ap (sole_creation job_id) creations in
    let member : belongs job_id (is_single_job_journal job_id rs) r ≡ true =
      simp (own.tagged, bytes_eq_refl job_id) in
    ap (λ b. select (belongs job_id b) (rs ++ (r ∷ []))) single
    ∙ select-append (belongs job_id (is_single_job_journal job_id rs)) rs (r ∷ [])
    ∙ simp member

first_classified-snoc :
    (rs : List JournalRecord) (r : JournalRecord)
    → first_classified rs ≡ none
    → kind_eq r.kind outcome_classified ≡ false
    → first_classified (rs ++ (r ∷ [])) ≡ none
unfolding first_classified classified or_else
first_classified-snoc [] r h other = simp other
first_classified-snoc (x ∷ xs) r h other = ground (arith, first_classified-snoc xs r)

newest_permit-snoc :
    (rs : List JournalRecord) (r : JournalRecord) (permit_id : Text)
    → fact_value r.facts permit_id_key ≡ some permit_id
    → newest_permit (rs ++ (r ∷ [])) ≡ some permit_id
unfolding newest_permit or_else
newest_permit-snoc [] r permit_id named = named
newest_permit-snoc (x ∷ xs) r permit_id named =
    ground (arith, newest_permit-snoc xs r permit_id named)

-- A job that was created and has no terminal outcome.
pub record IsOpen (job_id : Text) (rs : List JournalRecord) : Type 0 where
  pub created : any is_creation (job_records job_id rs) ≡ true
  pub running : first_classified (job_records job_id rs) ≡ none

pub IsOpen-snoc :
    (job_id : Text) (rs : List JournalRecord) (r : JournalRecord)
    → IsOpen job_id rs
    → IsOwn job_id r
    → kind_eq r.kind outcome_classified ≡ false
    → IsOpen job_id (rs ++ (r ∷ []))
IsOpen-snoc job_id rs r active own other =
    let all = job_records-snoc job_id rs r own in
    let records = job_records job_id rs in
    record {
      created = rw all (any-append is_creation records (r ∷ []) ∙ simp active.created);
      running = rw all (first_classified-snoc records r active.running other);
    }

-- Where a job's newest permit stands.
pub record IsAt (job_id permit_id : Text) (d : PermitDisposition) (checkpointed : Bool)
    (rs : List JournalRecord) : Type 0 where
  pub standing : disposition (from_records (job_records job_id rs)) permit_id ≡ d
  pub marked : is_checkpointed permit_id (job_records job_id rs) ≡ checkpointed

plain_mark : (a b : Bool) → (a || ((b && true) || false)) ≡ (a || b)
plain_mark a b = ground arith

pub IsAt-snoc :
    (job_id permit_id : Text) (d : PermitDisposition) (checkpointed : Bool)
    (rs : List JournalRecord) (r : JournalRecord)
    → IsAt job_id permit_id d checkpointed rs
    → IsOwn job_id r
    → fact_value r.facts permit_id_key ≡ some permit_id
    → IsAt job_id permit_id
        (join d (evidence r.kind (named_receipt r.facts)))
        (checkpointed || kind_eq r.kind step_checkpointed)
        (rs ++ (r ∷ []))
unfolding is_checkpointed names_permit is_value any
IsAt-snoc job_id permit_id d checkpointed rs r at own named =
    let all = job_records-snoc job_id rs r own in
    let records = job_records job_id rs in
    record {
      standing = rw all (
          disposition-snoc records r permit_id named
          ∙ ap (λ x. join x (evidence r.kind (named_receipt r.facts))) at.standing);
      marked = rw all (
          any-append (λ x. kind_eq x.kind step_checkpointed && names_permit permit_id x) records
            (r ∷ [])
          ∙ simp (at.marked, named, bytes_eq_refl permit_id)
              (plain_mark checkpointed (kind_eq r.kind step_checkpointed)));
    }

-- The row of an open job whose last record names the permit.
pub derive-row :
    (job_id permit_id : Text) (d : PermitDisposition) (checkpointed : Bool)
    (rs : List JournalRecord) (r : JournalRecord)
    → IsOpen job_id (rs ++ (r ∷ []))
    → IsOwn job_id r
    → fact_value r.facts permit_id_key ≡ some permit_id
    → IsAt job_id permit_id d checkpointed (rs ++ (r ∷ []))
    → derive (record { records = rs ++ (r ∷ []) }) job_id ≡ row permit_id checkpointed d
unfolding derive derive_records conclude derive_row row_for
derive-row job_id permit_id d checkpointed rs r active own named at =
    let newest : newest_permit (job_records job_id (rs ++ (r ∷ []))) ≡ some permit_id =
      rw (job_records-snoc job_id rs r own)
        (newest_permit-snoc (job_records job_id rs) r permit_id named) in
    simp (active.created, active.running, newest, at.standing, at.marked)
