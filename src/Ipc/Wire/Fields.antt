-- ===== src/Ipc/Wire/Fields.antt =====
-- Fields: what a writer appends, a reader returns.
use mathlib.Core.List.{append_assoc}
use ark_forge.Prelude.{
  ℕ, ◌+◌, ◌*◌, ◌/◌, ◌%◌, ◌^◌, ◌≤◌, ◌<◌, Bytes, some, [], ◌∷◌, ◌++◌, length, take-length_append,
  drop-length_append, length-append, ne→==, le→leb, ◌≡◌, ◌∙◌, ok, ◌>>=◌, arith,
}
use ark_forge.Ipc.Wire.{
  WireType, WireError, varint, length_delimited, wire_tag, from_tag, write_varint, read_varint,
  read_groups, write_tag, write_uint64, write_message, varint_value, bytes_value, take_slice,
  length_overflow, read_field, read_keyed, next_field,
}
use ark_forge.Ipc.Wire.Varint.{read_varint-write_varint}

next_field-read_keyed :
    (input rest : Bytes) (key : ℕ)
    → read_varint input ≡ ok (key, rest)
    → next_field input ≡ read_keyed key rest
unfolding next_field read_varint read_groups
next_field-read_keyed [] rest key h = cc
next_field-read_keyed (byte ∷ input) rest key h = rw h

module _ (field : ℕ) (wire_type : WireType) (named : 1 ≤ field) (fits : field < 2 ^ 32) where
  tag-from_tag : from_tag ((field * 8 + wire_tag wire_type) % 8) ≡ ok wire_type
  unfolding from_tag wire_tag
  tag-from_tag = ground arith

  tag_field : (field * 8 + wire_tag wire_type) / 8 % 2 ^ 32 ≡ field
  unfolding wire_tag
  tag_field = ground arith

  tag_below : field * 8 + wire_tag wire_type < 2 ^ 64
  unfolding wire_tag
  tag_below = ground arith

  next_field-write_tag :
      (rest : Bytes)
      → next_field (write_tag field wire_type ++ rest)
        ≡ (read_field wire_type rest >>= λ r. ok (some (field, r.0), r.1))
  unfolding write_tag read_keyed
  next_field-write_tag rest =
      let key = field * 8 + wire_tag wire_type in
      next_field-read_keyed (write_varint key ++ rest) rest key
        (read_varint-write_varint key rest tag_below)
      ∙ simp (tag_field, ne→== field 0 (omega (arith, named)), tag-from_tag)

-- A non-zero 64-bit number that is written into a field, numbered from 1 and in 32 bits, is the next
-- field that is read.
pub next_field-write_uint64 :
    (field v : ℕ) (rest : Bytes)
    → 1 ≤ field
    → field < 2 ^ 32
    → 1 ≤ v
    → v < 2 ^ 64
    → next_field (write_uint64 field v ++ rest) ≡ ok (some (field, varint_value v), rest)
unfolding write_uint64 read_field
next_field-write_uint64 field v rest named fits nonzero below = simp (
  ne→== v 0 (omega (arith, nonzero)),
  append_assoc (write_tag field varint) (write_varint v) rest,
  next_field-write_tag field varint named fits (write_varint v ++ rest),
  read_varint-write_varint v rest below,
)

take_slice-append :
    (short : WireError) (body rest : Bytes)
    → take_slice short (length body) (body ++ rest) ≡ ok (body, rest)
unfolding take_slice
take_slice-append short body rest = simp (
  le→leb (length body) (length (body ++ rest)) (omega (arith, length-append body rest)),
  take-length_append body rest,
  drop-length_append body rest,
)

-- A message shorter than 2 ^ 64, an empty one included, that is written into a field, numbered from 1
-- and in 32 bits, is the next field that is read, byte for byte.
pub next_field-write_message :
    (field : ℕ) (body rest : Bytes)
    → 1 ≤ field
    → field < 2 ^ 32
    → length body < 2 ^ 64
    → next_field (write_message field body ++ rest) ≡ ok (some (field, bytes_value body), rest)
unfolding write_message read_field
next_field-write_message field body rest named fits below = simp (
  append_assoc (write_tag field length_delimited) (write_varint (length body) ++ body) rest,
  append_assoc (write_varint (length body)) body rest,
  next_field-write_tag field length_delimited named fits
      (write_varint (length body) ++ (body ++ rest)),
  read_varint-write_varint (length body) (body ++ rest) below,
  take_slice-append length_overflow body rest,
)
