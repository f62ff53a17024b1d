-- ===== src/Core/Cbor/Canonical.antt =====
-- The decoder accepts nothing but what the encoder writes.
use ark_forge.Prelude.{
  ℕ, zero, suc, ◌<◌, Bytes, IsBytes, [], ◌∷◌, ◌++◌, ◌≡◌, length, none, ok, err, >>=-eq-ok, arith,
  if◌then◌else◌, is_empty,
}
use mathlib.Core.List.{append_assoc, append-nil}
use ark_forge.Core.Cbor.{CborValue, trailing_bytes}
use ark_forge.Core.Cbor.Encode.{encode_head, encode_negative, encode}
use ark_forge.Core.Cbor.Decode.{
  max_depth, take_bytes, read_head, read_negative, read_simple, Reader, read_values, read_entries,
  read_body, read_value, decode_canonical,
}
use ark_forge.Core.Cbor.Head.{take_bytes-Taken, read_head-HeadRead}
use ark_forge.Core.Cbor.Payload.{Reencodes, BodyRead, text_body, simple_body, array_body, map_body}

module _ (read : Reader)
    (reads : (bs : Bytes) (v : CborValue) (rest : Bytes)
      → IsBytes bs
      → read bs ≡ ok (v, rest)
      → Reencodes v bs rest) where
  read_body-BodyRead :
      (major argument : ℕ) (bs : Bytes) (v : CborValue) (rest : Bytes)
      → major < 8
      → IsBytes bs
      → read_body read major argument bs ≡ ok (v, rest)
      → BodyRead major argument v bs rest
  unfolding read_body encode
  read_body-BodyRead zero argument bs v rest m hb h = record {
    payload = [];
    encodes = ground (arith, append-nil (encode_head 0 argument));
    split = ground arith;
    back = ground arith;
  }
  read_body-BodyRead (suc zero) argument bs v rest m hb h = record {
    payload = [];
    encodes =
        unfold read_negative encode_negative in ground (arith, append-nil (encode_head 1 argument));
    split = unfold read_negative in ground arith;
    back = unfold read_negative in ground arith;
  }
  read_body-BodyRead (suc (suc zero)) argument bs v rest m hb h =
      let (t, p, q) = >>=-eq-ok (take_bytes argument bs) _ h in
      let d = take_bytes-Taken argument bs t.0 t.1 hb p in
      record {
        payload = t.0;
        encodes = ground (arith, d.size);
        split = ground (arith, d.split);
        back = ground (arith, d.back);
      }
  read_body-BodyRead (suc (suc (suc zero))) argument bs v rest m hb h =
      text_body argument bs v rest hb h
  read_body-BodyRead (suc (suc (suc (suc zero)))) argument bs v rest m hb h =
      let (r, p, q) = >>=-eq-ok (read_values read argument bs) _ h in
      let b = array_body read reads argument bs r.0 r.1 hb p in
      record {
        payload = b.payload;
        encodes = ground (arith, b.encodes);
        split = ground (arith, b.split);
        back = ground (arith, b.back);
      }
  read_body-BodyRead (suc (suc (suc (suc (suc zero))))) argument bs v rest m hb h =
      let (r, p, q) = >>=-eq-ok (read_entries read argument none bs) _ h in
      let b = map_body read reads argument bs r.0 r.1 hb p in
      record {
        payload = b.payload;
        encodes = ground (arith, b.encodes);
        split = ground (arith, b.split);
        back = ground (arith, b.back);
      }
  read_body-BodyRead (suc (suc (suc (suc (suc (suc zero)))))) argument bs v rest m hb h = cc
  read_body-BodyRead (suc (suc (suc (suc (suc (suc (suc zero))))))) argument bs v rest m hb h =
      let (w, p, q) = >>=-eq-ok (read_simple argument) _ h in
      record {
        payload = [];
        encodes = ground (arith, simple_body argument w p, append-nil (encode_head 7 argument));
        split = ground arith;
        back = ground arith;
      }
  read_body-BodyRead (suc (suc (suc (suc (suc (suc (suc (suc major)))))))) argument bs v rest m hb
        h =
      absurd (omega arith)

read_value-Reencodes :
    (levels : ℕ) (bs : Bytes) (v : CborValue) (rest : Bytes)
    → IsBytes bs
    → read_value levels bs ≡ ok (v, rest)
    → Reencodes v bs rest
unfolding read_value
read_value-Reencodes zero bs v rest hb h = cc
read_value-Reencodes (suc levels) bs v rest hb h =
    let (d, p, q) = >>=-eq-ok (read_head bs) _ h in
    let head = read_head-HeadRead bs hb p in
    let b =
      read_body-BodyRead (read_value levels) (read_value-Reencodes levels) d.0 d.1 d.2 v rest
        head.major_small head.back q in
    record {
      enc = encode_head d.0 d.1 ++ b.payload;
      encodes = b.encodes;
      split =
          ground
            (arith, head.canonical, b.split, append_assoc (encode_head d.0 d.1) b.payload rest);
      back = b.back;
    }

whole_input :
    (input tail : Bytes) (v w : CborValue)
    → Reencodes w input tail
    → (if is_empty tail then ok w else err (trailing_bytes (length tail))) ≡ ok v
    → encode v ≡ ok input
whole_input input [] v w d h = ground (arith, d.encodes, d.split, append-nil d.enc)
whole_input input (b ∷ tail) v w d h = cc

-- A string of bytes that `decode_canonical` accepts is the canonical encoding of the value returned.
pub encode-decode_canonical :
    (input : Bytes) (v : CborValue)
    → IsBytes input
    → decode_canonical input ≡ ok v
    → encode v ≡ ok input
unfolding decode_canonical
encode-decode_canonical input v hb h =
    let (r, p, q) = >>=-eq-ok (read_value (suc max_depth) input) _ h in
    let d = read_value-Reencodes (suc max_depth) input r.0 r.1 hb p in
    whole_input input r.1 v r.0 d q

-- Two strings of bytes that decode to one value are one string.
pub decode_canonical_injective :
    (a b : Bytes) (v : CborValue)
    → IsBytes a
    → IsBytes b
    → decode_canonical a ≡ ok v
    → decode_canonical b ≡ ok v
    → a ≡ b
decode_canonical_injective a b v ha hb p q =
    cc (encode-decode_canonical a v ha p, encode-decode_canonical b v hb q)
