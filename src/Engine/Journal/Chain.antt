-- ===== src/Engine/Journal/Chain.antt =====
-- The chain: appending, replaying and verifying agree.
use native.Mathlib.Nat.{add-zero}
use ark_forge.Prelude.{
  ℕ, ◌+◌, bytes_eq, bytes_eq_iff, bytes_eq_refl, List, [], ◌∷◌, ◌++◌, ◌==◌, ==_iff, ◌≡◌, refl, sym,
  subst, ap, ◌↔◌, length, ok, >>=-eq-ok, ensure-eq-ok, map_err, arith,
}
use ark_forge.Core.Digest.Sha256.{Digest}
use ark_forge.Core.Ids.{OpaqueId}
use ark_forge.Engine.Kind.{
  JournalRecordKind, fsync_policy, policy_eq, policy_eq_refl, policy_eq_sound,
}
use ark_forge.Engine.Journal.{
  JournalRecord, Journal, Facts, schema_version_1, chain_origin, last_digest, head_digest, body,
  recompute_digest, check_record, draft_record, prepare_record, commit_record, append, verify_from,
  verify, cbor, body_entries,
}

-- A record in its place: number `index + 1`, linked to `previous`, and under its own digest.
pub record IsLink (index : ℕ) (previous : Digest) (r : JournalRecord) : Type 0 where
  pub version : r.schema_version ≡ schema_version_1
  pub numbered : r.sequence ≡ index + 1
  pub linked : r.previous_digest ≡ previous
  pub policy : r.policy ≡ fsync_policy r.kind
  pub digest : recompute_digest r ≡ ok r.record_digest

abbrev pub IsChain : ℕ → Digest → List JournalRecord → Type 0
IsChain index previous [] = Unit {0}
IsChain index previous (r ∷ rs) = IsLink index previous r × IsChain (index + 1) r.record_digest rs

pub record IsChecked (r : JournalRecord) : Type 0 where
  pub version : r.schema_version ≡ schema_version_1
  pub policy : r.policy ≡ fsync_policy r.kind
  pub digest : recompute_digest r ≡ ok r.record_digest

pub check_record-IsChecked : (r : JournalRecord) → check_record r ≡ ok tt → IsChecked r
unfolding check_record
check_record-IsChecked r h =
    let (v, h1) = ensure-eq-ok (r.schema_version == schema_version_1) _ _ h in
    let (p, h2) = ensure-eq-ok (policy_eq r.policy (fsync_policy r.kind)) _ _ h1 in
    let (d, e, h3) = >>=-eq-ok (map_err cbor (recompute_digest r)) _ h2 in
    record {
      version = (==_iff _ _).0 v;
      policy = policy_eq_sound _ _ p;
      digest = ground (arith, bytes_eq_iff d r.record_digest);
    }

pub check_record_passes : (r : JournalRecord) → IsChecked r → check_record r ≡ ok tt
unfolding check_record
check_record_passes r c = simp (
  (==_iff _ _).1 c.version,
  c.policy,
  policy_eq_refl (fsync_policy r.kind),
  c.digest,
  bytes_eq_refl r.record_digest,
)

verify_from_iff :
    (index : ℕ) (previous : Digest) (rs : List JournalRecord)
    → (verify_from index previous rs ≡ ok tt) ↔ IsChain index previous rs
unfolding verify_from
verify_from_iff index previous [] = (λ h. tt, λ h. refl)
verify_from_iff index previous (r ∷ rs) =
    let (to, from) = verify_from_iff (index + 1) r.record_digest rs in
    (
      λ h.
          let (n, h1) = ensure-eq-ok (r.sequence == index + 1) _ _ h in
          let (v, h2) = ensure-eq-ok (r.schema_version == schema_version_1) _ _ h1 in
          let (l, h3) = ensure-eq-ok (bytes_eq r.previous_digest previous) _ _ h2 in
          let (u, c, h4) = >>=-eq-ok (check_record r) _ h3 in
          let checked = check_record-IsChecked r (ground arith) in
          (
            record {
              version = checked.version;
              numbered = (==_iff _ _).0 n;
              linked = (bytes_eq_iff _ _).0 l;
              policy = checked.policy;
              digest = checked.digest;
            },
            to h4,
          ),
      λ h.
          let link = h.0 in
          let c : IsChecked r = record {
            version = link.version;
            policy = link.policy;
            digest = link.digest;
          } in
          simp (
            (==_iff _ _).1 link.numbered,
            (==_iff _ _).1 link.version,
            (bytes_eq_iff _ _).1 link.linked,
            check_record_passes r c,
            from h.1,
          ),
    )

-- `verify` accepts exactly the chains: records numbered from 1, each linked to the digest of the
-- one before it (the first to the origin), of the known schema version, with the durability of
-- their kind, and under the digest of their own body.
pub verify_iff : (j : Journal) → (verify j ≡ ok tt) ↔ IsChain 0 chain_origin j.records
unfolding verify
verify_iff j = verify_from_iff 0 chain_origin j.records

IsChain-append :
    (index : ℕ) (previous : Digest) (rs : List JournalRecord) (r : JournalRecord)
    → IsChain index previous rs
    → IsLink (index + length rs) (last_digest previous rs) r
    → IsChain index previous (rs ++ (r ∷ []))
unfolding last_digest
IsChain-append index previous [] r c l = (rw (add-zero) at l, tt)
IsChain-append index previous (x ∷ xs) r c l = (
  c.0,
  IsChain-append (index + 1) x.record_digest xs r c.1
      (subst (λ n. IsLink n (last_digest x.record_digest xs) r) (omega arith) l),
)

-- A record as asked for: the next link of the journal, of the kind, with the subject and facts given.
pub record IsNext (j : Journal) (kind : JournalRecordKind) (subject : OpaqueId) (facts : Facts)
    (r : JournalRecord) : Type 0 where
  pub link : IsLink (length j.records) (head_digest j) r
  pub kind_kept : r.kind ≡ kind
  pub subject_kept : r.subject ≡ subject
  pub facts_kept : r.facts ≡ facts

module _ (j : Journal) (kind : JournalRecordKind) (at_epoch_ms job_revision : ℕ)
    (subject : OpaqueId) (facts : Facts) where
  draft-IsNext :
      (d : Digest)
      → recompute_digest (draft_record j kind at_epoch_ms job_revision subject facts) ≡ ok d
      → IsNext j kind subject facts
          (record (draft_record j kind at_epoch_ms job_revision subject facts) {
            record_digest = d;
          })
  unfolding draft_record recompute_digest body body_entries
  draft-IsNext d e = record {
    link = record { version = refl; numbered = refl; linked = refl; policy = refl; digest = e };
    kind_kept = refl;
    subject_kept = refl;
    facts_kept = refl;
  }

  pub prepare_record-IsNext :
      (r : JournalRecord)
      → prepare_record j kind at_epoch_ms job_revision subject facts ≡ ok r
      → IsNext j kind subject facts r
  unfolding prepare_record
  prepare_record-IsNext r h =
      let draft = draft_record j kind at_epoch_ms job_revision subject facts in
      let (d, e, h1) = >>=-eq-ok (map_err cbor (recompute_digest draft)) _ h in
      let made : record draft { record_digest = d } ≡ r = ground arith in
      let computed : recompute_digest draft ≡ ok d = ground arith in
      subst (λ x. IsNext j kind subject facts x) made (draft-IsNext d computed)

  pub IsNext-verify :
      (r : JournalRecord)
      → verify j ≡ ok tt
      → IsNext j kind subject facts r
      → verify (commit_record j r) ≡ ok tt
  unfolding commit_record head_digest
  IsNext-verify r v next =
      let place : IsLink (0 + length j.records) (head_digest j) r =
        subst (λ n. IsLink n (head_digest j) r) (omega arith) next.link in
      (verify_iff (commit_record j r)).1
        (IsChain-append 0 chain_origin j.records r ((verify_iff j).0 v) place)

  -- Appending to a journal that verifies gives one that verifies, with the earlier records as they
  -- were and one record behind them, of the kind, the subject and the facts asked for.
  pub append-verify :
      (j' : Journal)
      → verify j ≡ ok tt
      → append j kind at_epoch_ms job_revision subject facts ≡ ok j'
      → (verify j' ≡ ok tt)
        × (r : JournalRecord) × (j'.records ≡ j.records ++ (r ∷ []))
        × IsNext j kind subject facts r
  unfolding append commit_record head_digest
  append-verify j' v h =
      let (r, e, h1) =
        >>=-eq-ok (prepare_record j kind at_epoch_ms job_revision subject facts) _ h in
      let next = prepare_record-IsNext r e in
      let grown : commit_record j r ≡ j' = ground arith in
      (
        subst (λ x. verify x ≡ ok tt) grown (IsNext-verify r v next),
        r,
        ap (λ x. x.records) (sym grown),
        next,
      )
