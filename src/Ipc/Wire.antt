-- ===== src/Ipc/Wire.antt =====
-- crates/arkforge-ipc/src/wire.rs: protobuf wire primitives. A reader's input is what it has not read.
pub mod Varint
pub mod Fields
use ark_forge.Prelude.{
  ℕ, ℤ, zero, suc, ◌+◌, ◌*◌, ◌/◌, ◌%◌, ◌^◌, Bytes, Text, Bool, true, false, Option, none, some,
  List, [], ◌∷◌, ◌++◌, length, take, drop, ltb, leb, ◌==◌, is_empty, Result, ok, err, ◌>>=◌,
  if◌then◌else◌,
}

pub data WireType : Type 0 where
  varint length_delimited fixed64 fixed32 : WireType

pub data WireError : Type 0 where
  truncated varint_too_long field_zero length_overflow depth_limit : WireError
  unsupported_wire_type invalid_utf8 trailing_bytes frame_too_large : ℕ → WireError
  unknown_enum_value : ℕ → ℤ → WireError
  missing_field : Text → ℕ → WireError

unfoldable pub from_tag : ℕ → Result WireError WireType
from_tag value =
    if value == 0
    then ok varint
    else if value == 1
    then ok fixed64
    else if value == 2
    then ok length_delimited
    else if value == 5
    then ok fixed32
    else err (unsupported_wire_type value)

unfoldable pub wire_tag : WireType → ℕ
wire_tag varint = 0
wire_tag fixed64 = 1
wire_tag length_delimited = 2
wire_tag fixed32 = 5

abbrev pub max_groups : ℕ
max_groups = 10

-- Seven bits a byte, the lowest first. A `u64` has at most ten groups.
unfoldable pub write_groups : ℕ → ℕ → Bytes
write_groups zero value = []
write_groups (suc n) value =
    let rest = write_groups n (value / 128) in
    if value / 128 == 0 then value % 128 ∷ [] else ((value % 128 + 128) ∷ rest)

unfoldable pub write_varint : ℕ → Bytes
write_varint value = write_groups max_groups value

-- `shift` is below 64 for ten groups. The bits of a group are above those read before it, so `|=`
-- adds; what a shift moves out of 64 bits is lost.
unfoldable pub read_groups : ℕ → ℕ → ℕ → Bytes → Result WireError (ℕ × Bytes)
read_groups zero value shift input = err varint_too_long
read_groups (suc n) value shift [] = err truncated
read_groups (suc n) value shift (byte ∷ input) =
    let next = value + (byte % 128 * 2 ^ shift) % 2 ^ 64 in
    let rest = read_groups n next (shift + 7) input in
    if ltb (byte % 256) 128 then ok (next, input) else rest

unfoldable pub read_varint : Bytes → Result WireError (ℕ × Bytes)
read_varint input = read_groups max_groups 0 0 input

unfoldable pub write_tag : ℕ → WireType → Bytes
write_tag field wire_type = write_varint (field * 8 + wire_tag wire_type)

unfoldable pub write_uint64 : ℕ → ℕ → Bytes
write_uint64 field value = if value == 0 then [] else write_tag field varint ++ write_varint value

unfoldable pub write_message : ℕ → Bytes → Bytes
write_message field body = write_tag field length_delimited ++ (write_varint (length body) ++ body)

unfoldable pub write_bytes : ℕ → Bytes → Bytes
write_bytes field value = if is_empty value then [] else write_message field value

pub data FieldValue : Type 0 where
  varint_value : ℕ → FieldValue
  bytes_value fixed64_value fixed32_value : Bytes → FieldValue

-- A slice of the input, or the error when it is too short.
unfoldable pub take_slice : WireError → ℕ → Bytes → Result WireError (Bytes × Bytes)
take_slice short count input =
    if leb count (length input) then ok (take count input, drop count input) else err short

unfoldable pub read_field : WireType → Bytes → Result WireError (FieldValue × Bytes)
read_field varint input = read_varint input >>= λ r. ok (varint_value r.0, r.1)
read_field length_delimited input =
    read_varint input >>= λ r. take_slice length_overflow r.0 r.1 >>= λ s. ok (bytes_value s.0, s.1)
read_field fixed64 input = take_slice truncated 8 input >>= λ s. ok (fixed64_value s.0, s.1)
read_field fixed32 input = take_slice truncated 4 input >>= λ s. ok (fixed32_value s.0, s.1)

unfoldable pub read_keyed : ℕ → Bytes → Result WireError (Option (ℕ × FieldValue) × Bytes)
read_keyed key input =
    let field = key / 8 % 2 ^ 32 in
    if field == 0
    then err field_zero
    else from_tag (key % 8) >>= λ wire_type.
        read_field wire_type input >>= λ r. ok (some (field, r.0), r.1)

unfoldable pub next_field : Bytes → Result WireError (Option (ℕ × FieldValue) × Bytes)
next_field [] = ok (none, [])
next_field (byte ∷ input) = read_varint (byte ∷ input) >>= λ r. read_keyed r.0 r.1
