-- ===== src/Engine/Durable/Framed.antt =====
-- Frames on disk: a whole frame gives its record back, and a frame cut short is a torn tail.
use ark_forge.Prelude.{
  ℕ, suc, ◌+◌, ◌-◌, ◌<◌, ◌≤◌, Bytes, false, ◌||◌, ◌++◌, ◌==◌, ltb, length, take, none, some, ok,
  map_err, >>=-eq-ok, ◌≡◌, refl, ◌∙◌, ap, Bool-cases, inl, inr, arith, length-take, length-append,
  take-length_append, drop-length_append, ltb→lt, ltb_false→le,
}
use mathlib.Core.List.{append_assoc}
use ark_forge.Core.Cbor.Encode.{be32}
use ark_forge.Core.Cbor.Written.{from_be-be32}
use ark_forge.Core.Ids.{OpaqueId}
use ark_forge.Engine.Kind.{JournalRecordKind}
use ark_forge.Engine.Journal.{Journal, JournalRecord, Facts, adopt, prepare_record, record_bytes}
use ark_forge.Engine.Journal.Reread.{IsStorable, reread, from_canonical_bytes-record_bytes}
use ark_forge.Engine.Durable.{journal_error, max_frame_bytes, frame}
use ark_forge.Engine.Durable.Reopen.{get_bytes, adopt_body, adopt_sized, adopt_frame}

-- `bytes` is the frame of `r`.
pub record IsFramed (r : JournalRecord) (bytes : Bytes) : Type 0 where
  pub body : Bytes
  pub stored : record_bytes r ≡ ok body
  pub filled : 0 < length body
  pub bounded : length body ≤ max_frame_bytes
  pub laid_out : bytes ≡ be32 (length body) ++ body

pub frame-IsFramed :
    (j : Journal) (kind : JournalRecordKind) (at_epoch_ms job_revision : ℕ) (subject : OpaqueId)
    (facts : Facts) (r : JournalRecord) (bytes : Bytes)
    → frame j kind at_epoch_ms job_revision subject facts ≡ ok (r, bytes)
    → IsFramed r bytes
unfolding frame
frame-IsFramed j kind at_epoch_ms job_revision subject facts r bytes h =
    let prepared = prepare_record j kind at_epoch_ms job_revision subject facts in
    let (r', e, h1) = >>=-eq-ok (map_err journal_error prepared) _ h in
    let (body, e1, h2) = >>=-eq-ok (map_err _ (record_bytes r')) _ h1 in
    record {
      body = body;
      stored = ground arith;
      filled = ground arith;
      bounded = ground arith;
      laid_out = ground arith;
    }

get_bytes-append :
    (count : ℕ) (front rest : Bytes)
    → length front ≡ count
    → get_bytes count (front ++ rest) ≡ some (front, rest)
unfolding get_bytes
get_bytes-append count front rest e = ground (
  arith,
  length-append front rest,
  take-length_append front rest,
  drop-length_append front rest,
  e,
)

get_bytes_short : (count : ℕ) (bs : Bytes) → length bs < count → get_bytes count bs ≡ none
unfolding get_bytes
get_bytes_short count bs l = ground arith

length-be32 : (v : ℕ) → length (be32 v) ≡ 4
unfolding be32
length-be32 v = refl

take_header :
    (v m k : ℕ) (body : Bytes)
    → k ≡ suc (suc (suc (suc m)))
    → take k (be32 v ++ body) ≡ be32 v ++ take m body
unfolding be32
take_header v m k body e = rw e refl

module _ (r : JournalRecord) (bytes : Bytes) (f : IsFramed r bytes) where
  pub length-IsFramed : length bytes ≡ 4 + length f.body
  length-IsFramed = rw f.laid_out (
      length-append (be32 (length f.body)) f.body
      ∙ ap (λ n. n + length f.body) (length-be32 (length f.body)))

  -- The length in the frame's header is the body's, and is not refused.
  adopt_frame-sized :
      (cursor : ℕ) (j : Journal) (rest : Bytes)
      → adopt_frame cursor j (get_bytes 4 (be32 (length f.body) ++ rest))
        ≡ adopt_body j (length f.body) (get_bytes (length f.body) rest)
  unfolding adopt_frame adopt_sized
  adopt_frame-sized cursor j rest =
      let fine : (length f.body == 0 || ltb max_frame_bytes (length f.body)) ≡ false =
        ground (arith, f.filled, f.bounded) in
      rw
        (
          get_bytes-append 4 (be32 (length f.body)) rest (length-be32 (length f.body)),
          from_be-be32 (length f.body) (omega (arith, f.bounded)),
          fine,
        )
        refl

  pub adopt_frame_whole :
      (cursor : ℕ) (j next : Journal) (rest : Bytes)
      → IsStorable r
      → adopt j (reread r) ≡ ok next
      → adopt_frame cursor j (get_bytes 4 (bytes ++ rest)) ≡ ok (some (next, length f.body, rest))
  unfolding adopt_body
  adopt_frame_whole cursor j next rest s a =
      rw
        (
          f.laid_out,
          append_assoc (be32 (length f.body)) f.body rest,
          adopt_frame-sized cursor j (f.body ++ rest),
          get_bytes-append (length f.body) f.body rest refl,
          from_canonical_bytes-record_bytes r f.body s f.stored,
          a,
        )
        refl

  pub adopt_frame_torn :
      (cursor : ℕ) (j : Journal) (k : ℕ)
      → k < length bytes
      → adopt_frame cursor j (get_bytes 4 (take k bytes)) ≡ ok none
  unfolding adopt_frame adopt_body
  adopt_frame_torn cursor j k l = elim (Bool-cases (ltb k 4)) [
    | inl short ↦
        rw (get_bytes_short 4 (take k bytes) (omega (arith, length-take k bytes, ltb→lt k 4 short)))
          refl
    | inr long ↦
        let cut : take k bytes ≡ be32 (length f.body) ++ take (k - 4) f.body =
          ap (take k) f.laid_out
          ∙ take_header (length f.body) (k - 4) k f.body (omega (arith, ltb_false→le k 4 long)) in
        let few : length (take (k - 4) f.body) < length f.body =
          omega (arith, length-take (k - 4) f.body, length-IsFramed, ltb_false→le k 4 long) in
        rw
          (
            cut,
            adopt_frame-sized cursor j (take (k - 4) f.body),
            get_bytes_short (length f.body) (take (k - 4) f.body) few,
          )
          refl
  ]
