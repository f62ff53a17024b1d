-- ===== src/Core/Cbor/Decode.antt =====
-- `decode_canonical` and its `Cursor`. A cursor is the input at and after `position`; `position` is
-- what has been taken from the front.
use ark_forge.Prelude.{
  ℕ, zero, suc, ◌+◌, ◌-◌, ◌*◌, ◌/◌, ◌%◌, ◌^◌, Bytes, bytes_lt, Bool, true, false, [], ◌∷◌, Option,
  none, some, ltb, leb, ◌==◌, if◌then◌else◌, length, take, drop, is_empty, ◌&&◌, Result, ok, err,
  ◌>>=◌, ensure, negsuc,
}
use ark_forge.Core.Cbor.{
  CborValue, CborValues, CborEntries, CborError, unsigned, negative, bytes, text, array, bool, null,
  nil, cons, end, entry, truncated, non_canonical_head, unsupported_major_type,
  unsupported_simple_value, indefinite_length, unsorted_map_keys, invalid_utf8, trailing_bytes,
  depth_limit,
}

abbrev pub max_depth : ℕ
max_depth = 64

-- `std::str::from_utf8`: a scan whose state is the number of continuation bytes still due and the
-- range of the next one.
pub record Utf8State : Type 0 where
  pub due : ℕ
  pub lo : ℕ
  pub hi : ℕ

abbrev within : ℕ → ℕ → ℕ → Bool
within lo hi b = leb lo b && leb b hi

unfoldable pub utf8_lead : ℕ → Option Utf8State
utf8_lead b =
    if ltb b 0x80
    then some (record { due = 0; lo = 0; hi = 0 })
    else if within 0xc2 0xdf b
    then some (record { due = 1; lo = 0x80; hi = 0xbf })
    else if b == 0xe0
    then some (record { due = 2; lo = 0xa0; hi = 0xbf })
    else if b == 0xed
    then some (record { due = 2; lo = 0x80; hi = 0x9f })
    else if within 0xe1 0xef b
    then some (record { due = 2; lo = 0x80; hi = 0xbf })
    else if b == 0xf0
    then some (record { due = 3; lo = 0x90; hi = 0xbf })
    else if within 0xf1 0xf3 b
    then some (record { due = 3; lo = 0x80; hi = 0xbf })
    else if b == 0xf4
    then some (record { due = 3; lo = 0x80; hi = 0x8f })
    else none

unfoldable pub utf8_step : Utf8State → ℕ → Option Utf8State
utf8_step s b =
    if s.due == 0
    then utf8_lead b
    else if within s.lo s.hi b
    then some (record { due = s.due - 1; lo = 0x80; hi = 0xbf })
    else none

unfoldable pub utf8_from : Utf8State → Bytes → Bool
utf8_from s [] = s.due == 0
utf8_from s (b ∷ bs) = elim (utf8_step s b) [ none ↦ false | some s' ↦ utf8_from s' bs ]

unfoldable pub is_utf8 : Bytes → Bool
unfolding utf8_lead utf8_step utf8_from
is_utf8 = utf8_from (record { due = 0; lo = 0; hi = 0 })

-- `Cursor::take`. An end past `usize::MAX` is past the input too: both are `Truncated`.
unfoldable pub take_bytes : ℕ → Bytes → Result CborError (Bytes × Bytes)
take_bytes count bs =
    if leb count (length bs) then ok (take count bs, drop count bs) else err truncated

-- `from_be_bytes`.
abbrev pub from_be : ℕ → Bytes → ℕ
from_be acc [] = acc
from_be acc (b ∷ bs) = from_be (acc * 256 + b) bs

-- A multi-byte argument has to be too large for the next shorter form.
unfoldable pub read_wide : ℕ → ℕ → Bytes → Result CborError (ℕ × Bytes)
read_wide width least bs = take_bytes width bs >>= λ t.
    let value = from_be 0 t.0 in if ltb value least then err non_canonical_head else ok (value, t.1)

unfoldable pub read_argument : ℕ → Bytes → Result CborError (ℕ × Bytes)
read_argument additional bs =
    if ltb additional 24
    then ok (additional, bs)
    else if additional == 24
    then read_wide 1 24 bs
    else if additional == 25
    then read_wide 2 (0xff + 1) bs
    else if additional == 26
    then read_wide 4 (0xffff + 1) bs
    else if additional == 27
    then read_wide 8 (0xffff_ffff + 1) bs
    else if additional == 31
    then err indefinite_length
    else err non_canonical_head

-- The head's byte is split as `byte >> 5` and `byte & 0x1f`.
unfoldable pub read_head : Bytes → Result CborError (ℕ × ℕ × Bytes)
read_head [] = err truncated
read_head (byte ∷ bs) = read_argument (byte % 32) bs >>= λ r. ok (byte / 32, r.0, r.1)

-- -1 - argument has to be an `i64`.
unfoldable pub read_negative : ℕ → Result CborError CborValue
read_negative argument =
    if ltb argument (2 ^ 63)
    then ok (negative (negsuc argument))
    else err (unsupported_major_type 1)

unfoldable pub read_simple : ℕ → Result CborError CborValue
read_simple argument =
    if argument == 20
    then ok (bool false)
    else if argument == 21
    then ok (bool true)
    else if argument == 22
    then ok null
    else err (unsupported_simple_value (argument % 256))

abbrev pub Reader : Type 0
Reader = Bytes → Result CborError (CborValue × Bytes)

-- `previous >= &key_bytes` is refused.
abbrev pub ascends : Option Bytes → Bytes → Bool
ascends none key = true
ascends (some previous) key = bytes_lt previous key

unfoldable pub read_text : ℕ → Bytes → Result CborError (CborValue × Bytes)
read_text argument bs =
    take_bytes argument bs >>= λ t. if is_utf8 t.0 then ok (text t.0, t.1) else err invalid_utf8

-- The loops over `0..argument`, over the reader of one level further down.
module _ (read : Reader) where
  unfoldable pub read_values : ℕ → Bytes → Result CborError (CborValues × Bytes)
  read_values zero bs = ok (nil, bs)
  read_values (suc n) bs = read bs >>= λ r. read_values n r.1 >>= λ s. ok (cons r.0 s.0, s.1)

  unfoldable pub read_entries : ℕ → Option Bytes → Bytes → Result CborError (CborEntries × Bytes)
  read_entries zero previous bs = ok (end, bs)
  read_entries (suc n) previous bs = read bs >>= λ k.
      let key_bytes = take (length bs - length k.1) bs in
      ensure (ascends previous key_bytes) unsorted_map_keys >>= λ _.
      read k.1 >>= λ v. read_entries n (some key_bytes) v.1 >>= λ es. ok (entry k.0 v.0 es.0, es.1)

  -- The `match major` of `read_value`.
  unfoldable pub read_body : ℕ → ℕ → Bytes → Result CborError (CborValue × Bytes)
  read_body major argument bs =
      if major == 0
      then ok (unsigned argument, bs)
      else if major == 1
      then (read_negative argument >>= λ v. ok (v, bs))
      else if major == 2
      then (take_bytes argument bs >>= λ t. ok (bytes t.0, t.1))
      else if major == 3
      then read_text argument bs
      else if major == 4
      then (read_values argument bs >>= λ r. ok (array r.0, r.1))
      else if major == 5
      then (read_entries argument none bs >>= λ r. ok (CborValue.map r.0, r.1))
      else if major == 7
      then (read_simple argument >>= λ v. ok (v, bs))
      else err (unsupported_major_type major)

-- `levels` is `max_depth + 1 - depth`: at 0 the depth is past `max_depth`.
unfoldable pub read_value : ℕ → Reader
read_value zero bs = err depth_limit
read_value (suc levels) bs = read_head bs >>= λ h. read_body (read_value levels) h.0 h.1 h.2

unfoldable pub decode_canonical : Bytes → Result CborError CborValue
decode_canonical input = read_value (suc max_depth) input >>= λ r.
    if is_empty r.1 then ok r.0 else err (trailing_bytes (length r.1))
