-- ===== src/Core/Cbor/Written.antt =====
-- Heads: `read_head` reads back what `encode_head` writes.
use ark_forge.Prelude.{
  ℕ, ◌+◌, ◌*◌, ◌/◌, ◌%◌, ◌^◌, ◌<◌, ◌≤◌, Bytes, [], ◌∷◌, ◌++◌, ◌≡◌, refl, ltb, leb, length, ok,
  arith, leb→le, leb_false→lt, ltb→lt, ltb_false→le, Bool-cases, inl, inr, length-append,
  take-length_append, drop-length_append,
}
use ark_forge.Core.Cbor.Encode.{be16, be32, be64, initial_byte, encode_head}
use ark_forge.Core.Cbor.Decode.{take_bytes, from_be, read_wide, read_argument, read_head}
use ark_forge.Core.Cbor.Head.{initial_byte_split}

-- The two fields of the head's byte do not overlap.
initial_byte_sum :
    (major additional : ℕ)
    → major < 8
    → additional < 32
    → initial_byte major additional ≡ major * 32 + additional
initial_byte_sum major additional m a =
    let p : (major * 32 + additional) / 32 ≡ major = omega arith in
    let q : (major * 32 + additional) % 32 ≡ additional = omega arith in
    let s = initial_byte_split (major * 32 + additional) (omega arith) in ground (arith, s, p, q)

pub take_bytes-append :
    (count : ℕ) (bs rest : Bytes)
    → length bs ≡ count
    → take_bytes count (bs ++ rest) ≡ ok (bs, rest)
unfolding take_bytes
take_bytes-append count bs rest e =
    ground (arith, length-append bs rest, take-length_append bs rest, drop-length_append bs rest, e)

pub from_be-be16 : (v : ℕ) → v < 2 ^ 16 → from_be 0 (be16 v) ≡ v
unfolding be16
from_be-be16 v h = omega arith

pub from_be-be32 : (v : ℕ) → v < 2 ^ 32 → from_be 0 (be32 v) ≡ v
unfolding be32
from_be-be32 v h = omega arith

pub from_be-be64 : (v : ℕ) → v < 2 ^ 64 → from_be 0 (be64 v) ≡ v
unfolding be64 be32
from_be-be64 v h = omega arith

length-be64 : (v : ℕ) → length (be64 v) ≡ 8
unfolding be64 be32
length-be64 v = refl

read_wide-back :
    (width least v : ℕ) (bs rest : Bytes)
    → length bs ≡ width
    → from_be 0 bs ≡ v
    → least ≤ v
    → read_wide width least (bs ++ rest) ≡ ok (v, rest)
unfolding read_wide
read_wide-back width least v bs rest size value large =
    ground (arith, take_bytes-append width bs rest size)

-- The head's byte, behind which `read_argument` reads.
read_head_from :
    (major additional argument : ℕ) (bs rest : Bytes)
    → major < 8
    → additional < 32
    → read_argument additional bs ≡ ok (argument, rest)
    → read_head (initial_byte major additional ∷ bs) ≡ ok (major, argument, rest)
unfolding read_head
read_head_from major additional argument bs rest m a h =
    let p : (major * 32 + additional) / 32 ≡ major = omega arith in
    let q : (major * 32 + additional) % 32 ≡ additional = omega arith in
    rw (initial_byte_sum major additional m a, q, h, p) refl

-- A head is read back as the major type and the argument that were written.
pub read_head-encode_head :
    (major argument : ℕ) (rest : Bytes)
    → major < 8
    → argument < 2 ^ 64
    → read_head (encode_head major argument ++ rest) ≡ ok (major, argument, rest)
unfolding encode_head read_argument
read_head-encode_head major argument rest m a = elim (Bool-cases (ltb argument 24)) [
  | inl direct ↦ rw direct (
      read_head_from major argument argument rest rest m
        (omega (arith, leb→le, leb_false→lt, ltb→lt, ltb_false→le)) (ground arith))
  | inr n0 ↦ elim (Bool-cases (leb argument 0xff)) [
    | inl one ↦
        rw (n0, one)
          (read_head_from major 24 argument (argument ∷ rest) rest m
            (omega (arith, leb→le, leb_false→lt, ltb→lt, ltb_false→le))
            (read_wide-back 1 24 argument (argument ∷ []) rest refl
              (omega (arith, leb→le, leb_false→lt, ltb→lt, ltb_false→le))
              (omega (arith, leb→le, leb_false→lt, ltb→lt, ltb_false→le))))
    | inr n1 ↦ elim (Bool-cases (leb argument 0xffff)) [
      | inl two ↦
          rw (n0, n1, two)
            (read_head_from major 25 argument (be16 argument ++ rest) rest m
              (omega (arith, leb→le, leb_false→lt, ltb→lt, ltb_false→le))
              (read_wide-back 2 (0xff + 1) argument (be16 argument) rest (unfold be16 in refl)
                (from_be-be16 argument (omega (arith, leb→le, leb_false→lt, ltb→lt, ltb_false→le)))
                (omega (arith, leb→le, leb_false→lt, ltb→lt, ltb_false→le))))
      | inr n2 ↦ elim (Bool-cases (leb argument 0xffff_ffff)) [
        | inl four ↦
            rw (n0, n1, n2, four)
              (read_head_from major 26 argument (be32 argument ++ rest) rest m
                (omega (arith, leb→le, leb_false→lt, ltb→lt, ltb_false→le))
                (read_wide-back 4 (0xffff + 1) argument (be32 argument) rest (unfold be32 in refl)
                  (from_be-be32 argument
                    (omega (arith, leb→le, leb_false→lt, ltb→lt, ltb_false→le)))
                  (omega (arith, leb→le, leb_false→lt, ltb→lt, ltb_false→le))))
        | inr n3 ↦
            rw (n0, n1, n2, n3)
              (read_head_from major 27 argument (be64 argument ++ rest) rest m
                (omega (arith, leb→le, leb_false→lt, ltb→lt, ltb_false→le))
                (read_wide-back 8 (0xffff_ffff + 1) argument (be64 argument) rest
                  (length-be64 argument) (from_be-be64 argument a)
                  (omega (arith, leb→le, leb_false→lt, ltb→lt, ltb_false→le))))
      ]
    ]
  ]
]
