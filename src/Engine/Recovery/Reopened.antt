-- ===== src/Engine/Recovery/Reopened.antt =====
-- A journal that is read back from its file says the same of every permit, and one that grows and is
-- read back says no less.
use ark_forge.Prelude.{
  ◌≤◌, ◌++◌, arith, Text, bytes_eq, bytes_eq_iff, bytes_lt, true, some, List, [], ◌∷◌, map,
  if◌then◌else◌, ◌≡◌, refl, sym, ap, ◌∙◌, Bool-cases, inl, inr,
}
use ark_forge.Core.Cbor.{text}
use ark_forge.Core.Cbor.Arrange.{bytes_or_empty}
use ark_forge.Core.Cbor.Encode.{encode}
use ark_forge.Core.Cbor.Order.{bytes_lt_irrefl}
use ark_forge.Core.Ids.{OpaqueId}
use ark_forge.Engine.Journal.{JournalRecord, Facts}
use ark_forge.Engine.Journal.Reread.{place_fact, sort_facts, reread}
use ark_forge.Engine.Recovery.{
  disposition, from_records, fact_value, names_permit, named_receipt, receipt_digest_key,
  permit_id_key,
}
use ark_forge.Engine.Recovery.Ledger.{says, weigh, from_records-weigh, rank, disposition-append}

-- Facts that change places have different keys.
place_fact-fact_value :
    (k : OpaqueId) (v : Text) (facts : Facts) (key : Text)
    → fact_value (place_fact k v facts) key ≡ fact_value ((k, v) ∷ facts) key
unfolding fact_value place_fact
place_fact-fact_value k v [] key = refl
place_fact-fact_value k v ((k', v') ∷ facts) key =
    elim (Bool-cases
      (bytes_lt (bytes_or_empty (encode (text k'))) (bytes_or_empty (encode (text k))))) [
        | inr p ↦ rw p refl
        | inl p ↦ rw p (
            rw (place_fact-fact_value k v facts key) (elim (Bool-cases (bytes_eq k' key)) [
              | inr a ↦ rw a refl
              | inl a ↦ elim (Bool-cases (bytes_eq k key)) [
                | inr b ↦ rw (a, b) refl
                | inl b ↦ absurd (
                    apart (
                      ap
                        (λ x.
                          bytes_lt (bytes_or_empty (encode (text k')))
                            (bytes_or_empty (encode (text x))))
                        ((bytes_eq_iff k' key).0 a ∙ sym ((bytes_eq_iff k key).0 b))
                      ∙ p))
              ]
            ]))
      ]
  where
    apart :
        bytes_lt (bytes_or_empty (encode (text k'))) (bytes_or_empty (encode (text k'))) ≡ true → ⊥
    apart e = let same = bytes_lt_irrefl (bytes_or_empty (encode (text k'))) in cc

sort_facts-fact_value :
    (facts : Facts) (key : Text) → fact_value (sort_facts facts) key ≡ fact_value facts key
unfolding sort_facts fact_value
sort_facts-fact_value [] key = refl
sort_facts-fact_value ((k, v) ∷ facts) key =
    place_fact-fact_value k v (sort_facts facts) key
    ∙ ap (λ rest. if bytes_eq k key then some v else rest) (sort_facts-fact_value facts key)

says-reread : (permit_id : Text) (r : JournalRecord) → says permit_id (reread r) ≡ says permit_id r
unfolding says names_permit named_receipt
says-reread permit_id r =
    rw
      (
        sort_facts-fact_value r.facts permit_id_key,
        sort_facts-fact_value r.facts receipt_digest_key,
      )
      refl

weigh-reread :
    (permit_id : Text) (rs : List JournalRecord)
    → weigh permit_id (map reread rs) ≡ weigh permit_id rs
unfolding weigh
weigh-reread permit_id [] = refl
weigh-reread permit_id (r ∷ rs) = rw (says-reread permit_id r, weigh-reread permit_id rs) refl

disposition-reread :
    (rs : List JournalRecord) (permit_id : Text)
    → disposition (from_records (map reread rs)) permit_id ≡ disposition (from_records rs) permit_id
disposition-reread rs permit_id =
    from_records-weigh (map reread rs) permit_id
    ∙ weigh-reread permit_id rs
    ∙ sym (from_records-weigh rs permit_id)

-- What may become of a list of records: more are appended, or they are read back from the file, in
-- any order and any number of times.
pub data Follows (start : List JournalRecord) : List JournalRecord → Type 0 where
  unchanged : Follows start start
  appended :
      {before after : List JournalRecord} (more : List JournalRecord)
      → Follows start before
      → after ≡ before ++ more
      → Follows start after
  reopened :
      {before after : List JournalRecord}
      → Follows start before
      → after ≡ map reread before
      → Follows start after

pub Follows-rank :
    (start records : List JournalRecord) (permit_id : Text)
    → Follows start records
    → rank (disposition (from_records start) permit_id)
      ≤ rank (disposition (from_records records) permit_id)
Follows-rank start _ permit_id unchanged = omega arith
Follows-rank start records permit_id (appended {before = before} more f e) =
    let earlier = Follows-rank start before permit_id f in
    let (kept, receipts) = disposition-append before more permit_id in
    rw e (omega (arith, earlier, kept))
Follows-rank start records permit_id (reopened {before = before} f e) =
    let earlier = Follows-rank start before permit_id f in
    rw (e, disposition-reread before permit_id) earlier
