-- ===== src/Engine/Journal/Fresh.antt =====
-- A record that `prepare_record` makes fits its types, when what it is made from does.
use ark_forge.Prelude.{
  Bytes, true, ℕ, ◌+◌, ◌^◌, ◌<◌, List, [], ◌∷◌, length, ok, >>=-eq-ok, map_err, ◌≡◌, refl, subst,
  arith, All,
}
use ark_forge.Core.Cbor.Encode.{encode}
use ark_forge.Core.Cbor.Decode.{is_utf8}
use ark_forge.Core.Digest.{digest_canonical, digest_in_domain, journal_record}
use ark_forge.Core.Digest.Sha256.{Digest}
use ark_forge.Core.Digest.Sha256.Shape.{length-finalize}
use ark_forge.Core.Ids.{OpaqueId, IsId}
use ark_forge.Engine.Kind.{JournalRecordKind}
use ark_forge.Engine.Journal.{
  Journal, JournalRecord, Facts, cbor, chain_origin, last_digest, head_digest, body,
  recompute_digest, draft_record, prepare_record,
}
use ark_forge.Engine.Journal.Reread.{IsStorable}

-- What the argument types of `append` promise, and a journal with room for one more number.
pub record IsAppendable (j : Journal) (at_epoch_ms job_revision : ℕ) (subject : OpaqueId)
    (facts : Facts) : Type 0 where
  pub number_small : length j.records + 1 < 2 ^ 64
  pub time_small : at_epoch_ms < 2 ^ 64
  pub revision_small : job_revision < 2 ^ 64
  pub subject_IsId : IsId subject
  pub facts_fit : All (λ f. IsId f.0 × length f.1 < 2 ^ 64 × is_utf8 f.1 ≡ true) facts
  pub few_facts : length facts < 2 ^ 64

length-digest_in_domain : (b : Bytes) → length (digest_in_domain journal_record b) ≡ 32
unfolding digest_in_domain
length-digest_in_domain b = length-finalize _

length-recompute_digest :
    (r : JournalRecord) (d : Digest) → recompute_digest r ≡ ok d → length d ≡ 32
unfolding recompute_digest digest_canonical
length-recompute_digest r d h =
    let (b, p, q) = >>=-eq-ok (encode (body r)) _ h in ground (arith, length-digest_in_domain b)

length-last_digest :
    (previous : Digest) (rs : List JournalRecord)
    → length previous ≡ 32
    → All IsStorable rs
    → length (last_digest previous rs) ≡ 32
unfolding last_digest
length-last_digest previous [] e s = e
length-last_digest previous (r ∷ rs) e s = length-last_digest r.record_digest rs s.0.own_size s.1

pub prepare_record-IsStorable :
    (j : Journal) (kind : JournalRecordKind) (at_epoch_ms job_revision : ℕ) (subject : OpaqueId)
    (facts : Facts) (r : JournalRecord)
    → All IsStorable j.records
    → IsAppendable j at_epoch_ms job_revision subject facts
    → prepare_record j kind at_epoch_ms job_revision subject facts ≡ ok r
    → IsStorable r
unfolding prepare_record draft_record head_digest
prepare_record-IsStorable j kind at_epoch_ms job_revision subject facts r s a h =
    let draft = draft_record j kind at_epoch_ms job_revision subject facts in
    let (d, e, h1) = >>=-eq-ok (map_err cbor (recompute_digest draft)) _ h in
    let made : record (draft) { record_digest = d } ≡ r = ground arith in
    let computed : recompute_digest draft ≡ ok d = ground arith in
    subst IsStorable made (record {
      version_small = omega arith;
      sequence_small = a.number_small;
      revision_small = a.revision_small;
      time_small = a.time_small;
      subject_IsId = a.subject_IsId;
      facts_fit = a.facts_fit;
      few_facts = a.few_facts;
      previous_size = length-last_digest chain_origin j.records refl s;
      own_size = length-recompute_digest draft d computed;
    })
