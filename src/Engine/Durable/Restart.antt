-- ===== src/Engine/Durable/Restart.antt =====
-- Reopening a file that appends wrote: the records come back, and a frame cut short is dropped.
use ark_forge.Prelude.{
  ℕ, zero, suc, ◌+◌, ◌<◌, ◌≤◌, Bytes, bytes_eq_refl, List, [], ◌∷◌, ◌++◌, length, take, map, Option,
  some, Result, ok, >>=-eq-ok, ◌≡◌, refl, ◌∙◌, ap, ◌⊎◌, inl, inr, arith, length-append, All,
  le→ltb_false,
}
use mathlib.Core.List.{append_assoc}
use ark_forge.Core.Digest.Sha256.{Digest}
use ark_forge.Engine.Journal.{Journal, JournalRecord, adopt, new, chain_origin, verify}
use ark_forge.Engine.Journal.Chain.{IsChain, verify_iff}
use ark_forge.Engine.Journal.Replay.{adopt_all, adopt_all-verify}
use ark_forge.Engine.Journal.Reread.{IsStorable, reread}
use ark_forge.Engine.Journal.Resorted.{reread-IsLink}
use ark_forge.Engine.Durable.{DurableJournalError}
use ark_forge.Engine.Durable.Reopen.{
  magic, Replay, get_bytes, adopt_frame, resume, read_frames, replay_content,
}
use ark_forge.Engine.Durable.Framed.{IsFramed, length-IsFramed, adopt_frame_whole, adopt_frame_torn}

-- `bytes` are the frames of the records, in order.
abbrev pub AreFramed : List JournalRecord → Bytes → Type 0
AreFramed [] bytes = bytes ≡ []
AreFramed (r ∷ rs) bytes =
    (front : Bytes) × (rest : Bytes) × IsFramed r front
    × AreFramed rs rest
    × (bytes ≡ front ++ rest)

-- What a crash leaves behind whole frames: nothing, or the front of one more.
abbrev pub IsTail : Bytes → Type 0
IsTail tail =
    (tail ≡ [])
    ⊎ ((r : JournalRecord) × (bytes : Bytes) × (k : ℕ) × IsFramed r bytes
        × (k < length bytes)
        × (tail ≡ take k bytes))

abbrev pub replayed_to : Journal → ℕ → ℕ → ℕ → Option (Result DurableJournalError Replay)
replayed_to j n torn cursor =
    some
      (ok (record { journal = j; records_replayed = n; torn_tail_bytes = torn; cursor = cursor }))

read_frames-tail :
    (fuel cursor : ℕ) (tail : Bytes) (j : Journal) (n : ℕ)
    → length tail ≤ fuel
    → IsTail tail
    → read_frames fuel cursor tail j n ≡ replayed_to j n (length tail) cursor
unfolding read_frames resume
read_frames-tail zero cursor [] j n l t = refl
read_frames-tail (suc fuel) cursor [] j n l t = refl
read_frames-tail zero cursor (b ∷ bs) j n l t = absurd (omega arith)
read_frames-tail (suc fuel) cursor (b ∷ bs) j n l (inl e) = cc
read_frames-tail (suc fuel) cursor (b ∷ bs) j n l (inr (r, bytes, k, f, short, e)) =
    rw
      (
        ap (λ x. adopt_frame cursor j (get_bytes 4 x)) e,
        adopt_frame_torn r bytes f cursor j k short,
      )
      refl

ok_journal {ℓ} : {E : Type ℓ} {x y : Journal} → ◌≡◌ {A = Result E Journal} (ok x) (ok y) → x ≡ y
ok_journal p = cc

read_frames-turn :
    (fuel cursor : ℕ) (bs : Bytes) (j : Journal) (n : ℕ)
    → 0 < length bs
    → read_frames (suc fuel) cursor bs j n
      ≡ resume (read_frames fuel) cursor (length bs) j n (adopt_frame cursor j (get_bytes 4 bs))
unfolding read_frames
read_frames-turn fuel cursor [] j n l = absurd (omega arith)
read_frames-turn fuel cursor (b ∷ bs) j n l = refl

replayed_to_eq :
    (j j' : Journal) (n n' torn cursor cursor' : ℕ)
    → j ≡ j'
    → n ≡ n'
    → cursor ≡ cursor'
    → replayed_to j n torn cursor ≡ replayed_to j' n' torn cursor'
replayed_to_eq j j' n n' torn cursor cursor' ej en ec = rw (ej, en, ec) refl

-- Whole frames give their records back, one turn of the loop for each.
read_frames-frames :
    (fuel cursor : ℕ) (rs : List JournalRecord) (bytes tail : Bytes) (j j' : Journal)
    (n n' cursor' : ℕ)
    → length (bytes ++ tail) ≤ fuel
    → AreFramed rs bytes
    → All IsStorable rs
    → IsTail tail
    → adopt_all j (map reread rs) ≡ ok j'
    → n' ≡ n + length rs
    → cursor' ≡ cursor + length bytes
    → read_frames fuel cursor (bytes ++ tail) j n ≡ replayed_to j' n' (length tail) cursor'
unfolding adopt_all resume
read_frames-frames fuel cursor [] bytes tail j j' n n' cursor' l framed s t a en ec =
    ap (λ x. read_frames fuel cursor (x ++ tail) j n) framed
    ∙ read_frames-tail fuel cursor tail j n (rw framed at l) t
    ∙ replayed_to_eq j j' n n' (length tail) cursor cursor' (ok_journal a) (omega arith)
        (omega (arith, ap length framed))
read_frames-frames zero cursor (r ∷ rs) bytes tail j j' n n' cursor' l (front, rest, f, framed, e) s
      t a en ec =
    absurd (
      omega (
        arith,
        length-append bytes tail,
        ap length e,
        length-append front rest,
        length-IsFramed r front f,
      ))
read_frames-frames (suc fuel) cursor (r ∷ rs) bytes tail j j' n n' cursor' l
      (front, rest, f, framed, e) s t a en ec =
    let (grown, p, q) = >>=-eq-ok (adopt j (reread r)) _ a in
    let whole : bytes ++ tail ≡ front ++ (rest ++ tail) =
      ap (λ x. x ++ tail) e ∙ append_assoc front rest tail in
    let size = length-IsFramed r front f in
    let lengths = length-append front (rest ++ tail) in
    let total = length-append front rest in
    ap (λ x. read_frames (suc fuel) cursor x j n) whole
    ∙ read_frames-turn fuel cursor (front ++ (rest ++ tail)) j n (omega (arith, lengths, size))
    ∙ ap (resume (read_frames fuel) cursor (length (front ++ (rest ++ tail))) j n)
        (adopt_frame_whole r front f cursor j grown (rest ++ tail) s.0 p)
    ∙ read_frames-frames fuel (cursor + 4 + length f.body) rs rest tail grown j' (n + 1) n' cursor'
        (omega (arith, lengths, size, ap length whole)) framed s.1 t q (omega arith)
        (omega (arith, size, total, ap length e))

reread-IsChain :
    (index : ℕ) (previous : Digest) (rs : List JournalRecord)
    → IsChain index previous rs
    → IsChain index previous (map reread rs)
reread-IsChain index previous [] c = tt
reread-IsChain index previous (r ∷ rs) c =
    (reread-IsLink index previous r c.0, reread-IsChain (index + 1) r.record_digest rs c.1)

-- The journal as it comes back: each record with its facts in order.
abbrev pub reread_all : Journal → Journal
reread_all j = record { records = map reread j.records }

pub reread_all-verify : (j : Journal) → verify j ≡ ok tt → verify (reread_all j) ≡ ok tt
reread_all-verify j v =
    (verify_iff (reread_all j)).1 (reread-IsChain 0 chain_origin j.records ((verify_iff j).0 v))

-- A file that holds the header, the frames of the records of a journal that verifies, and behind
-- them nothing or the front of one more frame, reopens: with all the records, and the cut frame
-- counted as torn.
pub replay_content-AreFramed :
    (j : Journal) (bytes tail : Bytes)
    → verify j ≡ ok tt
    → All IsStorable j.records
    → AreFramed j.records bytes
    → IsTail tail
    → replay_content (magic ++ (bytes ++ tail))
      ≡ replayed_to (reread_all j) (length j.records) (length tail) (8 + length bytes)
unfolding replay_content
replay_content-AreFramed j bytes tail v s f t =
    let loop =
      read_frames-frames (length (magic ++ (bytes ++ tail))) 8 j.records bytes tail new
        (reread_all j) 0 (length j.records) (8 + length bytes)
        (omega (arith, length-append magic (bytes ++ tail))) f s t
        ((adopt_all-verify (map reread j.records) (reread_all j)).1 (reread_all-verify j v, refl))
        (omega arith) refl in
    rw
      (
        le→ltb_false (length (magic ++ (bytes ++ tail))) 8
            (omega (arith, length-append magic (bytes ++ tail))),
        bytes_eq_refl magic,
      )
      loop
