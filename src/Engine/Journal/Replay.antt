-- ===== src/Engine/Journal/Replay.antt =====
-- Reading a journal back from its records.
use mathlib.Core.List.{append_assoc, append-nil}
use ark_forge.Prelude.{
  ◌+◌, bytes_eq, bytes_eq_iff, List, [], ◌∷◌, ◌++◌, ◌==◌, ==_iff, ◌≡◌, refl, sym, subst, ◌∙◌, ap,
  ◌↔◌, length, length-append, Result, ok, ◌>>=◌, >>=-eq-ok, ensure-eq-ok, arith,
}
use ark_forge.Core.Digest.Sha256.{Digest}
use ark_forge.Engine.Journal.{
  JournalRecord, Journal, JournalError, chain_origin, new, last_digest, head_digest, check_record,
  commit_record, adopt, verify,
}
use ark_forge.Engine.Journal.Chain.{
  IsLink, IsChain, IsChecked, check_record-IsChecked, check_record_passes, verify_iff,
}

-- Every record is adopted in order.
unfoldable pub adopt_all : Journal → List JournalRecord → Result JournalError Journal
adopt_all j [] = ok j
adopt_all j (r ∷ rs) = adopt j r >>= λ next. adopt_all next rs

adopt_iff :
    (j k : Journal) (r : JournalRecord)
    → (adopt j r ≡ ok k) ↔ (IsLink (length j.records) (head_digest j) r × (commit_record j r ≡ k))
unfolding adopt
adopt_iff j k r = (
  λ h.
      let (n, h1) = ensure-eq-ok (r.sequence == length j.records + 1) _ _ h in
      let (l, h2) = ensure-eq-ok (bytes_eq r.previous_digest (head_digest j)) _ _ h1 in
      let (u, c, h3) = >>=-eq-ok (check_record r) _ h2 in
      let checked = check_record-IsChecked r (ground arith) in
      (
        record {
          version = checked.version;
          numbered = (==_iff _ _).0 n;
          linked = (bytes_eq_iff _ _).0 l;
          policy = checked.policy;
          digest = checked.digest;
        },
        ground arith,
      ),
  λ h.
      let link = h.0 in
      let c : IsChecked r = record {
        version = link.version;
        policy = link.policy;
        digest = link.digest;
      } in
      simp (
        (==_iff _ _).1 link.numbered,
        (bytes_eq_iff _ _).1 link.linked,
        check_record_passes r c,
        h.1,
      ),
)

last_digest-append :
    (previous : Digest) (rs : List JournalRecord) (r : JournalRecord)
    → last_digest previous (rs ++ (r ∷ [])) ≡ r.record_digest
unfolding last_digest
last_digest-append previous [] r = refl
last_digest-append previous (x ∷ xs) r = last_digest-append x.record_digest xs r

adopt_all-IsChain :
    (k : Journal) (rs : List JournalRecord) (j : Journal)
    → (adopt_all k rs ≡ ok j)
      ↔ (IsChain (length k.records) (head_digest k) rs × (j.records ≡ k.records ++ rs))
unfolding adopt_all commit_record head_digest
adopt_all-IsChain k [] j = (
  λ h. (tt, ground (arith, append-nil k.records)),
  λ h.
      let same = sym (h.1 ∙ append-nil k.records) in
      ap (λ (rs : List JournalRecord). ok (record { records = rs })) same,
)
adopt_all-IsChain k (r ∷ rs) j =
    let next = commit_record k r in
    let (to, from) = adopt_all-IsChain next rs j in
    let head = last_digest-append chain_origin k.records r in
    let size : length (k.records ++ (r ∷ [])) ≡ length k.records + 1 =
      length-append k.records (r ∷ []) ∙ omega arith in
    let assoc = append_assoc k.records (r ∷ []) rs in
    (
      λ h.
          let (n, e, h1) = >>=-eq-ok (adopt k r) _ h in
          let (link, made) = (adopt_iff k n r).0 e in
          let (chain, records) = to (subst (λ x. adopt_all x rs ≡ ok j) (sym made) h1) in
          (
            (
              link,
              subst (λ d. IsChain (length k.records + 1) d rs) head
                  (subst (λ m. IsChain m (last_digest chain_origin (k.records ++ (r ∷ []))) rs) size
                    chain),
            ),
            records ∙ assoc,
          ),
      λ h.
          let ((link, chain), records) = h in
          let adopted = (adopt_iff k next r).1 (link, refl) in
          let rest = from (
            subst (λ m. IsChain m (last_digest chain_origin (k.records ++ (r ∷ []))) rs) (sym size)
                (subst (λ d. IsChain (length k.records + 1) d rs) (sym head) chain),
            records ∙ sym assoc,
          ) in
          subst (λ x. (x >>= λ n. adopt_all n rs) ≡ ok j) (sym adopted) rest,
    )

-- Replaying records from an empty journal succeeds exactly when a journal of these records verifies,
-- and gives that journal.
pub adopt_all-verify :
    (rs : List JournalRecord) (j : Journal)
    → (adopt_all new rs ≡ ok j) ↔ ((verify j ≡ ok tt) × (j.records ≡ rs))
unfolding head_digest last_digest
adopt_all-verify rs j =
    let (to, from) = adopt_all-IsChain new rs j in
    let (valid, chain) = verify_iff j in
    (
      λ h. let (c, e) = to h in (chain (subst (IsChain 0 chain_origin) (sym e) c), e),
      λ h. let (v, e) = h in from (subst (IsChain 0 chain_origin) e (valid v), e),
    )
