-- ===== src/Tests/Core.antt =====
-- Canonical CBOR, digests and identifiers at concrete inputs.
use mathlib.Core.List.{flatten}
use ark_forge.Prelude.{
  ℕ, Bytes, Text, str, IsBytes, ok, ◌≡◌, ◌↔◌, refl, List, [], ◌∷◌, ◌++◌, replicate, length,
  bytes_eq, arith, none,
}
use ark_forge.Core.Cbor.{CborValue, text, unsigned, entry, end, cons, nil}
use ark_forge.Core.Cbor.Encode.{encode}
use ark_forge.Core.Cbor.Decode.{
  decode_canonical, read_value, read_values, read_entries, read_body, read_head, read_argument,
  read_simple, read_text, is_utf8, take_bytes,
}
use ark_forge.Core.Cbor.Canonical.{encode-decode_canonical}
use ark_forge.Core.Digest.Sha256.{Digest, new, finalize, sha256}
use ark_forge.Core.Digest.Sha256.Stream.{feed_all, feed_all-sha256}
use ark_forge.Core.Digest.Hex.{parse_hex, to_hex, parse_hex_iff}
use ark_forge.Core.Ids.{opaque_id, opaque_id-IsId, IsId}

-- The map {"a": 1, "b": [2, null]}.
abbrev input : Bytes
input = 0xa2 ∷ 0x61 ∷ 0x61 ∷ 0x01 ∷ 0x61 ∷ 0x62 ∷ 0x82 ∷ 0x02 ∷ 0xf6 ∷ []

abbrev shape : CborValue
shape = CborValue.map (
    entry (text (str "a")) (unsigned 1)
      (entry (text (str "b")) (CborValue.array (cons (unsigned 2) (cons CborValue.null nil))) end))

input-IsBytes : IsBytes input
input-IsBytes = omega arith

input_decodes : decode_canonical input ≡ ok shape
unfolding decode_canonical read_value read_values read_entries read_body read_head read_argument
    read_simple read_text is_utf8 take_bytes ark_forge.Prelude.bytes_lt
input_decodes = refl

encode-decode_canonical_example : encode shape ≡ ok input
encode-decode_canonical_example = encode-decode_canonical input shape input-IsBytes input_decodes

feed_all-sha256_example :
    finalize (feed_all new (replicate 70 1 ∷ replicate 3 2 ∷ []))
    ≡ sha256 (replicate 70 1 ++ flatten (replicate 3 2 ∷ []))
feed_all-sha256_example = feed_all-sha256 (replicate 70 1) (replicate 3 2 ∷ [])

abbrev digits : Text
digits = str "00ff00ff00ff00ff00ff00ff00ff00ff00ff00ff00ff00ff00ff00ff00ff00ff"

abbrev parsed : Digest
parsed =
    0 ∷ 255 ∷ 0 ∷ 255 ∷ 0 ∷ 255 ∷ 0 ∷ 255 ∷ 0 ∷ 255 ∷ 0 ∷ 255 ∷ 0 ∷ 255 ∷ 0 ∷ 255 ∷ 0 ∷ 255 ∷ 0
    ∷ 255 ∷ 0 ∷ 255 ∷ 0 ∷ 255 ∷ 0 ∷ 255 ∷ 0 ∷ 255 ∷ 0 ∷ 255 ∷ 0 ∷ 255 ∷ []

parse_hex_iff_example :
    (parse_hex digits ≡ ok parsed)
    ↔ ((to_hex parsed ≡ digits) × (length parsed ≡ 32) × IsBytes parsed)
parse_hex_iff_example = parse_hex_iff digits parsed

opaque_id-IsId_example :
    (opaque_id (str "job-1") ≡ ok (str "job-1"))
    ↔ ((str "job-1" ≡ str "job-1") × IsId (str "job-1"))
opaque_id-IsId_example = opaque_id-IsId (str "job-1") (str "job-1")
