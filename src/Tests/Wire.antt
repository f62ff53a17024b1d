-- ===== src/Tests/Wire.antt =====
-- The wire format at concrete inputs.
use ark_forge.Prelude.{Bytes, [], ◌∷◌, ◌++◌, ok, some, ◌≡◌, arith}
use ark_forge.Ipc.Wire.{write_varint, read_varint, write_message, next_field, bytes_value}
use ark_forge.Ipc.Wire.Varint.{read_varint-write_varint}
use ark_forge.Ipc.Wire.Fields.{next_field-write_message}

abbrev behind : Bytes
behind = 8 ∷ 1 ∷ []

read_varint-write_varint_example : read_varint (write_varint 300 ++ behind) ≡ ok (300, behind)
read_varint-write_varint_example = read_varint-write_varint 300 behind (omega arith)

next_field-write_message_example :
    next_field (write_message 2 behind ++ behind) ≡ ok (some (2, bytes_value behind), behind)
next_field-write_message_example =
    next_field-write_message 2 behind behind (omega arith) (omega arith) (omega arith)
