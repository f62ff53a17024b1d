-- ===== src/Engine/Durable/Replayed.antt =====
-- The replay of a file ends, and what it accepts is a journal that verifies.
use ark_forge.Prelude.{
  ℕ, zero, suc, ◌+◌, ◌≤◌, Bytes, not, bytes_eq, bytes_eq_iff, ◌||◌, List, [], ◌∷◌, ◌++◌, ltb,
  length, take, drop, Option, none, some, Result, ok, err, map_err, >>=-eq-ok, ◌≡◌, refl, sym,
  subst, ◌∙◌, ap, Bool-cases, inl, inr, arith, length-drop, length-append,
}
use ark_forge.Engine.Journal.{Journal, JournalRecord, new, adopt, verify, verify_from}
use ark_forge.Engine.Journal.Stored.{from_canonical_bytes}
use ark_forge.Engine.Journal.Replay.{adopt_all, adopt_all-verify}
use ark_forge.Engine.Durable.{DurableJournalError, journal_error, not_a_journal}
use ark_forge.Core.Cbor.Decode.{from_be}
use ark_forge.Engine.Durable.Reopen.{
  magic, Replay, get_bytes, adopt_body, adopt_sized, adopt_frame, resume, read_frames,
  replay_content, done,
}

get_bytes-length :
    (count : ℕ) (bs front rest : Bytes)
    → get_bytes count bs ≡ some (front, rest)
    → length rest + count ≡ length bs
unfolding get_bytes
get_bytes-length count bs front rest h = ground (arith, length-drop count bs)

-- A frame that was adopted: fewer bytes are left, and one record was.
record IsAdopted (j next : Journal) (bs rest : Bytes) (size : ℕ) : Type 0 where
  shorter : length rest + 4 + size ≡ length bs
  adopted : (r : JournalRecord) × (adopt j r ≡ ok next)

adopt_body-adopt :
    (j next : Journal) (size size' : ℕ) (found : Option (Bytes × Bytes)) (rest : Bytes)
    → adopt_body j size found ≡ ok (some (next, size', rest))
    → (size' ≡ size)
      × (body : Bytes) × (found ≡ some (body, rest))
      × (r : JournalRecord) × (adopt j r ≡ ok next)
unfolding adopt_body
adopt_body-adopt j next size size' none rest h = cc
adopt_body-adopt j next size size' (some (body, rest')) rest h =
    let (r, p, q) = >>=-eq-ok (map_err journal_error (from_canonical_bytes body)) _ h in
    let (grown, p', q') = >>=-eq-ok (map_err journal_error (adopt j r)) _ q in
    (ground arith, body, ground arith, r, ground arith)

adopt_frame-IsAdopted :
    (cursor : ℕ) (j next : Journal) (bs rest : Bytes) (size : ℕ)
    → adopt_frame cursor j (get_bytes 4 bs) ≡ ok (some (next, size, rest))
    → IsAdopted j next bs rest size
adopt_frame-IsAdopted cursor j next bs rest size h = header (get_bytes 4 bs) refl h
  where
    sized :
        (n : ℕ) (behind : Bytes)
        → length behind + 4 ≡ length bs
        → adopt_body j n (get_bytes n behind) ≡ ok (some (next, size, rest))
        → IsAdopted j next bs rest size
    sized n behind l h =
        let (same, body, found, r, adopted) =
          adopt_body-adopt j next n size (get_bytes n behind) rest h in
        record {
          shorter = omega (arith, get_bytes-length n behind body rest found);
          adopted = (r, adopted);
        }

    header :
        (found : Option (Bytes × Bytes))
        → get_bytes 4 bs ≡ found
        → adopt_frame cursor j found ≡ ok (some (next, size, rest))
        → IsAdopted j next bs rest size
    header none e h = unfold adopt_frame in cc
    header (some (size_bytes, behind)) e h =
        sized (from_be 0 size_bytes) behind (get_bytes-length 4 bs size_bytes behind e)
          (unfold adopt_frame adopt_sized in ground arith)

abbrev pub Ends : Option (Result DurableJournalError Replay) → Type 0
Ends o = (answer : Result DurableJournalError Replay) × (o ≡ some answer)

resume-Ends :
    (next : ℕ → Bytes → Journal → ℕ → Option (Result DurableJournalError Replay)) (fuel cursor : ℕ)
    (j : Journal) (replayed : ℕ) (bs : Bytes)
    → length bs ≤ suc fuel
    → ((cursor : ℕ) (rest : Bytes) (j : Journal) (replayed : ℕ)
        → length rest ≤ fuel
        → Ends (next cursor rest j replayed))
    → (found : Result DurableJournalError (Option (Journal × ℕ × Bytes)))
    → adopt_frame cursor j (get_bytes 4 bs) ≡ found
    → Ends (resume next cursor (length bs) j replayed found)
unfolding resume
resume-Ends next fuel cursor j replayed bs l ends (err e) h = (err e, refl)
resume-Ends next fuel cursor j replayed bs l ends (ok none) h = (_, refl)
resume-Ends next fuel cursor j replayed bs l ends (ok (some (grown, size, rest))) h =
    let a = adopt_frame-IsAdopted cursor j grown bs rest size h in
    ends (cursor + 4 + size) rest grown (replayed + 1) (omega (arith, a.shorter))

read_frames-Ends :
    (fuel cursor : ℕ) (bs : Bytes) (j : Journal) (replayed : ℕ)
    → length bs ≤ fuel
    → Ends (read_frames fuel cursor bs j replayed)
unfolding read_frames
read_frames-Ends zero cursor [] j replayed l = (_, refl)
read_frames-Ends zero cursor (b ∷ bs) j replayed l = absurd (omega arith)
read_frames-Ends (suc fuel) cursor [] j replayed l = (_, refl)
read_frames-Ends (suc fuel) cursor (b ∷ bs) j replayed l =
    resume-Ends (read_frames fuel) fuel cursor j replayed (b ∷ bs) l (read_frames-Ends fuel)
      (adopt_frame cursor j (get_bytes 4 (b ∷ bs))) refl

-- What the loop gives back, from a journal that verifies.
pub record IsReplayed (cursor : ℕ) (bs : Bytes) (j : Journal) (replayed : ℕ) (r : Replay)
    : Type 0 where
  pub verified : verify r.journal ≡ ok tt
  pub counted : r.records_replayed + length j.records ≡ replayed + length r.journal.records
  pub placed : r.cursor + r.torn_tail_bytes ≡ cursor + length bs

adopt_all-append :
    (k : Journal) (rs : List JournalRecord) (r : JournalRecord) (j next : Journal)
    → adopt_all k rs ≡ ok j
    → adopt j r ≡ ok next
    → adopt_all k (rs ++ (r ∷ [])) ≡ ok next
unfolding adopt_all
adopt_all-append k [] r j next h e = ground arith
adopt_all-append k (x ∷ rs) r j next h e =
    let (grown, p, q) = >>=-eq-ok (adopt k x) _ h in rw p (adopt_all-append grown rs r j next q e)

adopt-verify :
    (j next : Journal) (r : JournalRecord)
    → verify j ≡ ok tt
    → adopt j r ≡ ok next
    → (verify next ≡ ok tt) × (length next.records ≡ length j.records + 1)
unfolding adopt_all
adopt-verify j next r v h =
    let before = (adopt_all-verify j.records j).1 (v, refl) in
    let after = (adopt_all-append new j.records r j next before h) in
    let (ok_next, same) = (adopt_all-verify (j.records ++ (r ∷ [])) next).0 after in
    (ok_next, ap length same ∙ omega (arith, length-append j.records (r ∷ [])))

resume-IsReplayed :
    (next : ℕ → Bytes → Journal → ℕ → Option (Result DurableJournalError Replay)) (cursor : ℕ)
    (j : Journal) (replayed : ℕ) (bs : Bytes) (r : Replay)
    → verify j ≡ ok tt
    → ((cursor : ℕ) (rest : Bytes) (j : Journal) (replayed : ℕ)
        → verify j ≡ ok tt
        → next cursor rest j replayed ≡ some (ok r)
        → IsReplayed cursor rest j replayed r)
    → (found : Result DurableJournalError (Option (Journal × ℕ × Bytes)))
    → adopt_frame cursor j (get_bytes 4 bs) ≡ found
    → resume next cursor (length bs) j replayed found ≡ some (ok r)
    → IsReplayed cursor bs j replayed r
unfolding resume
resume-IsReplayed next cursor j replayed bs r v sound (err e) h done = cc
resume-IsReplayed next cursor j replayed bs r v sound (ok none) h done =
    let same : r ≡ record {
      journal = j;
      records_replayed = replayed;
      torn_tail_bytes = length bs;
      cursor = cursor;
    } =
      cc in
    subst (IsReplayed cursor bs j replayed) (sym same)
      (record { verified = v; counted = refl; placed = refl })
resume-IsReplayed next cursor j replayed bs r v sound (ok (some (grown, size, rest))) h done =
    let a = adopt_frame-IsAdopted cursor j grown bs rest size h in
    let (w, l) = adopt-verify j grown a.adopted.0 v a.adopted.1 in
    let s = sound (cursor + 4 + size) rest grown (replayed + 1) w done in
    record {
      verified = s.verified;
      counted = omega (arith, s.counted, l);
      placed = omega (arith, s.placed, a.shorter);
    }

at_end :
    (cursor : ℕ) (j : Journal) (replayed : ℕ) (r : Replay)
    → verify j ≡ ok tt
    → r ≡ record { journal = j; records_replayed = replayed; torn_tail_bytes = 0; cursor = cursor }
    → IsReplayed cursor [] j replayed r
at_end cursor j replayed r v same =
    subst (IsReplayed cursor [] j replayed) (sym same)
      (record { verified = v; counted = refl; placed = refl })

read_frames-IsReplayed :
    (fuel cursor : ℕ) (bs : Bytes) (j : Journal) (replayed : ℕ) (r : Replay)
    → verify j ≡ ok tt
    → read_frames fuel cursor bs j replayed ≡ some (ok r)
    → IsReplayed cursor bs j replayed r
unfolding read_frames
read_frames-IsReplayed zero cursor [] j replayed r v h = at_end cursor j replayed r v (ground arith)
read_frames-IsReplayed zero cursor (b ∷ bs) j replayed r v h = cc
read_frames-IsReplayed (suc fuel) cursor [] j replayed r v h =
    at_end cursor j replayed r v (ground arith)
read_frames-IsReplayed (suc fuel) cursor (b ∷ bs) j replayed r v h =
    resume-IsReplayed (read_frames fuel) cursor j replayed (b ∷ bs) r v
      (λ c rest k n w e. read_frames-IsReplayed fuel c rest k n r w e)
      (adopt_frame cursor j (get_bytes 4 (b ∷ bs))) refl h

pub replay_content-Ends : (content : Bytes) → Ends (replay_content content)
unfolding replay_content
replay_content-Ends content =
    let (answer, e) =
      read_frames-Ends (length content) 8 (drop 8 content) new 0
        (omega (arith, length-drop 8 content)) in
    elim (Bool-cases (ltb (length content) 8 || not (bytes_eq (take 8 content) magic))) [
      | inl p ↦ rw p (err not_a_journal, refl)
      | inr p ↦ rw p (answer, e)
    ]

pub verify-new : verify new ≡ ok tt
unfolding verify verify_from
verify-new = refl

pub replay_content-IsReplayed :
    (content : Bytes) (r : Replay)
    → replay_content content ≡ some (ok r)
    → (take 8 content ≡ magic) × (8 ≤ length content) × IsReplayed 8 (drop 8 content) new 0 r
unfolding replay_content
replay_content-IsReplayed content r h =
    let bad = Bool-cases (ltb (length content) 8 || not (bytes_eq (take 8 content) magic)) in
    elim bad [
      | inl p ↦ absurd (headless (rw p at h))
      | inr p ↦ (
        ground (arith, p, bytes_eq_iff (take 8 content) magic),
        ground (arith, p),
        read_frames-IsReplayed (length content) 8 (drop 8 content) new 0 r verify-new (rw p at h),
      )
    ]
  where
    headless :
        ◌≡◌ {A = Option (Result DurableJournalError Replay)}
          (some (err not_a_journal))
          (some (ok r))
        → ⊥
    headless e = cc
