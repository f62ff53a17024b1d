-- ===== src/Engine/Recovery/Ledger.antt =====
-- The permit ledger: what a replay concludes, by the evidence that stands in the journal.
use ark_forge.Prelude.{
  ℕ, ◌≤◌, Text, bytes_eq, bytes_eq_iff, bytes_eq_refl, Bool, true, false, ◌&&◌, ◌||◌, Option, none,
  some, List, [], ◌∷◌, ◌++◌, any, ◌≡◌, refl, sym, ap, ◌∙◌, if◌then◌else◌, Bool-cases, inl, inr,
  arith,
}
use ark_forge.Engine.Kind.{
  JournalRecordKind, kind_eq, step_permit_accepted, step_intent_recorded, permit_consuming,
  external_dispatch_started, semantic_receipt_recorded, permit_consumed,
}
use ark_forge.Engine.Journal.{JournalRecord}
use ark_forge.Engine.Recovery.{
  PermitDisposition, PermitLedger, unseen, accepted_intent_not_durable, intent_durable,
  consuming_outcome_unknown, consumed, lookup, insert, disposition, settle, advance, ledger_step,
  touch, is_value, select, replay, from_records, names_permit, named_receipt, fact_value,
  permit_id_key,
}

disposition-insert :
    (permits : PermitLedger) (key : Text) (d : PermitDisposition) (other : Text)
    → disposition (insert permits key d) other
      ≡ (if bytes_eq key other then d else disposition permits other)
unfolding disposition insert lookup
disposition-insert [] key d other = ground arith
disposition-insert ((k, e) ∷ permits) key d other =
    let ih = disposition-insert permits key d other in
    ground (arith, bytes_eq_iff k key, bytes_eq_iff k other, bytes_eq_iff key other)

-- The stronger of two conclusions; of two receipts, the first.
unfoldable pub join : PermitDisposition → PermitDisposition → PermitDisposition
join (consumed g) e = consumed g
join d (consumed g) = consumed g
join consuming_outcome_unknown e = consuming_outcome_unknown
join d consuming_outcome_unknown = consuming_outcome_unknown
join intent_durable e = intent_durable
join d intent_durable = intent_durable
join accepted_intent_not_durable e = accepted_intent_not_durable
join unseen e = e

join-unseen : (d : PermitDisposition) → join d unseen ≡ d
unfolding join
join-unseen unseen = refl
join-unseen _ = refl

unseen-join : (d : PermitDisposition) → join unseen d ≡ d
unfolding join
unseen-join unseen = refl
unseen-join _ = refl

join_assoc : (a b c : PermitDisposition) → join (join a b) c ≡ join a (join b c)
unfolding join
join_assoc a b c = ground arith

-- What one record says of the permit that it names.
unfoldable pub evidence : JournalRecordKind → Option Text → PermitDisposition
evidence step_permit_accepted receipt = accepted_intent_not_durable
evidence step_intent_recorded receipt = intent_durable
evidence permit_consuming receipt = consuming_outcome_unknown
evidence external_dispatch_started receipt = consuming_outcome_unknown
evidence semantic_receipt_recorded receipt = settle receipt
evidence permit_consumed receipt = settle receipt
evidence _ receipt = unseen

advance-join :
    (k : JournalRecordKind) (receipt : Option Text) (d : PermitDisposition)
    → advance k receipt d ≡ join d (evidence k receipt)
unfolding advance join evidence settle
advance-join k receipt d = ground arith

unfoldable pub says : Text → JournalRecord → PermitDisposition
says permit_id r =
    if names_permit permit_id r then evidence r.kind (named_receipt r.facts) else unseen

touch-disposition :
    (permits : PermitLedger) (r : JournalRecord) (named : Option Text) (permit_id : Text)
    → disposition (touch permits r named) permit_id
      ≡ join
          (disposition permits permit_id)
          (if is_value permit_id named then evidence r.kind (named_receipt r.facts) else unseen)
unfolding touch is_value
touch-disposition permits r none permit_id = sym (join-unseen (disposition permits permit_id))
touch-disposition permits r (some id) permit_id =
    let d = disposition permits id in
    let receipt = named_receipt r.facts in
    let inserted = disposition-insert permits id (advance r.kind receipt d) permit_id in
    elim (Bool-cases (bytes_eq id permit_id)) [
      | inl same ↦
          let equal = ap (disposition permits) ((bytes_eq_iff id permit_id).0 same) in
          inserted
          ∙ simp same
              (advance-join r.kind receipt d ∙ ap (λ x. join x (evidence r.kind receipt)) equal)
      | inr other ↦ simp (inserted, other, join-unseen)
    ]

ledger_step-disposition :
    (permits : PermitLedger) (r : JournalRecord) (permit_id : Text)
    → disposition (ledger_step permits r) permit_id
      ≡ join (disposition permits permit_id) (says permit_id r)
unfolding ledger_step says names_permit
ledger_step-disposition permits r permit_id =
    touch-disposition permits r (fact_value r.facts permit_id_key) permit_id

-- What the records say of a permit, taken together.
unfoldable pub weigh : Text → List JournalRecord → PermitDisposition
weigh permit_id [] = unseen
weigh permit_id (r ∷ rs) = join (says permit_id r) (weigh permit_id rs)

replay-disposition :
    (permits : PermitLedger) (rs : List JournalRecord) (permit_id : Text)
    → disposition (replay permits rs) permit_id
      ≡ join (disposition permits permit_id) (weigh permit_id rs)
unfolding replay weigh
replay-disposition permits [] permit_id = sym (join-unseen (disposition permits permit_id))
replay-disposition permits (r ∷ rs) permit_id =
    replay-disposition (ledger_step permits r) rs permit_id
    ∙ rw (ledger_step-disposition permits r permit_id)
        (join_assoc (disposition permits permit_id) (says permit_id r) (weigh permit_id rs))

pub from_records-weigh :
    (rs : List JournalRecord) (permit_id : Text)
    → disposition (from_records rs) permit_id ≡ weigh permit_id rs
unfolding from_records disposition lookup
from_records-weigh rs permit_id =
    replay-disposition [] rs permit_id ∙ unseen-join (weigh permit_id rs)

weigh-append :
    (permit_id : Text) (rs more : List JournalRecord)
    → weigh permit_id (rs ++ more) ≡ join (weigh permit_id rs) (weigh permit_id more)
unfolding weigh join
weigh-append permit_id [] more = ground arith
weigh-append permit_id (r ∷ rs) more =
    rw (weigh-append permit_id rs more)
      (sym (join_assoc (says permit_id r) (weigh permit_id rs) (weigh permit_id more)))

-- The order of the dispositions: how much of the step may have happened.
unfoldable pub rank : PermitDisposition → ℕ
rank unseen = 0
rank accepted_intent_not_durable = 1
rank intent_durable = 2
rank consuming_outcome_unknown = 3
rank (consumed g) = 4

join-rank : (a b : PermitDisposition) → rank a ≤ rank (join a b)
unfolding join rank
join-rank a b = ground arith

join-consumed : (a b : PermitDisposition) (g : Text) → a ≡ consumed g → join a b ≡ consumed g
unfolding join
join-consumed a b g h = rw h

-- Whatever is appended to a journal, the disposition of a permit never falls back: its rank stays
-- or grows, and a permit that is consumed stays consumed with the same receipt.
pub disposition-append :
    (rs more : List JournalRecord) (permit_id : Text)
    → (rank (disposition (from_records rs) permit_id)
        ≤ rank (disposition (from_records (rs ++ more)) permit_id))
      × ((g : Text)
          → disposition (from_records rs) permit_id ≡ consumed g
          → disposition (from_records (rs ++ more)) permit_id ≡ consumed g)
disposition-append rs more permit_id =
    let whole = from_records-weigh (rs ++ more) permit_id ∙ weigh-append permit_id rs more in
    let start = from_records-weigh rs permit_id in
    (
      rw (whole, start) (join-rank (weigh permit_id rs) (weigh permit_id more)),
      λ g h. whole ∙ join-consumed _ (weigh permit_id more) g (sym start ∙ h),
    )

-- Evidence of each strength, anywhere in the journal.
unfoldable pub is_start : JournalRecordKind → Bool
is_start permit_consuming = true
is_start external_dispatch_started = true
is_start semantic_receipt_recorded = true
is_start permit_consumed = true
is_start _ = false

unfoldable pub is_settlement : JournalRecordKind → Bool
is_settlement semantic_receipt_recorded = true
is_settlement permit_consumed = true
is_settlement _ = false

unfoldable pub first_receipt : Text → List JournalRecord → Option Text
first_receipt permit_id [] = none
first_receipt permit_id (r ∷ rs) =
    let rest = first_receipt permit_id rs in
    if names_permit permit_id r && is_settlement r.kind
    then elim (named_receipt r.facts) [ some g ↦ some g | none ↦ rest ]
    else rest

unfoldable pub starts : Text → List JournalRecord → Bool
starts permit_id rs = any (λ r. names_permit permit_id r && is_start r.kind) rs

unfoldable pub intends : Text → List JournalRecord → Bool
intends permit_id rs = any (λ r. names_permit permit_id r && kind_eq r.kind step_intent_recorded) rs

unfoldable pub accepts : Text → List JournalRecord → Bool
accepts permit_id rs = any (λ r. names_permit permit_id r && kind_eq r.kind step_permit_accepted) rs

unfoldable pub judge : Option Text → Bool → Bool → Bool → PermitDisposition
judge (some g) started intended accepted = consumed g
judge none true intended accepted = consuming_outcome_unknown
judge none false true accepted = intent_durable
judge none false false true = accepted_intent_not_durable
judge none false false false = unseen

judge-evidence :
    (k : JournalRecordKind) (receipt g : Option Text) (s i a : Bool)
    → join (evidence k receipt) (judge g s i a)
      ≡ judge
          (if is_settlement k then elim receipt [ some digest ↦ some digest | none ↦ g ] else g)
          (is_start k || s)
          (kind_eq k step_intent_recorded || i)
          (kind_eq k step_permit_accepted || a)
unfolding join evidence judge settle is_settlement is_start kind_eq
judge-evidence k receipt g s i a = ground arith

weigh-judge :
    (permit_id : Text) (rs : List JournalRecord)
    → weigh permit_id rs
      ≡ judge
          (first_receipt permit_id rs)
          (starts permit_id rs)
          (intends permit_id rs)
          (accepts permit_id rs)
unfolding weigh says first_receipt starts intends accepts any judge
weigh-judge permit_id [] = refl
weigh-judge permit_id (r ∷ rs) = elim (Bool-cases (names_permit permit_id r)) [
  | inl named ↦ simp (
    named,
    weigh-judge permit_id rs,
    judge-evidence r.kind (named_receipt r.facts) (first_receipt permit_id rs) (starts permit_id rs)
        (intends permit_id rs) (accepts permit_id rs),
  )
  | inr other ↦ simp (other, weigh-judge permit_id rs, unseen-join)
]

-- The disposition of a permit after a replay is decided by the evidence in the journal, wherever
-- it stands: consumed with the first receipt that is named in a settlement record of the permit,
-- and without one by the strongest record kind that names the permit.
pub disposition-evidence :
    (rs : List JournalRecord) (permit_id : Text)
    → disposition (from_records rs) permit_id
      ≡ judge
          (first_receipt permit_id rs)
          (starts permit_id rs)
          (intends permit_id rs)
          (accepts permit_id rs)
disposition-evidence rs permit_id = from_records-weigh rs permit_id ∙ weigh-judge permit_id rs

-- The last record's say in the disposition of the permit that it names.
pub disposition-snoc :
    (rs : List JournalRecord) (r : JournalRecord) (permit_id : Text)
    → fact_value r.facts permit_id_key ≡ some permit_id
    → disposition (from_records (rs ++ (r ∷ []))) permit_id
      ≡ join (disposition (from_records rs) permit_id) (evidence r.kind (named_receipt r.facts))
unfolding weigh says names_permit is_value
disposition-snoc rs r permit_id named =
    let told : says permit_id r ≡ evidence r.kind (named_receipt r.facts) =
      simp (named, bytes_eq_refl permit_id) in
    from_records-weigh (rs ++ (r ∷ [])) permit_id
    ∙ weigh-append permit_id rs (r ∷ [])
    ∙ rw (from_records-weigh rs permit_id)
        (ap (join (weigh permit_id rs)) (join-unseen (says permit_id r) ∙ told))

weigh-select :
    (permit_id : Text) (p : JournalRecord → Bool) (rs : List JournalRecord)
    → weigh permit_id rs ≡ unseen
    → weigh permit_id (select p rs) ≡ unseen
unfolding weigh select join
weigh-select permit_id p [] h = refl
weigh-select permit_id p (r ∷ rs) h =
    let first : says permit_id r ≡ unseen = ground arith in
    let rest : weigh permit_id rs ≡ unseen = ground arith in
    ground (arith, weigh-select permit_id p rs rest, first)

-- A permit that the journal does not know is not known from some of its records either.
pub disposition-select :
    (permit_id : Text) (p : JournalRecord → Bool) (rs : List JournalRecord)
    → disposition (from_records rs) permit_id ≡ unseen
    → disposition (from_records (select p rs)) permit_id ≡ unseen
disposition-select permit_id p rs h =
    from_records-weigh (select p rs) permit_id
    ∙ weigh-select permit_id p rs (sym (from_records-weigh rs permit_id) ∙ h)
