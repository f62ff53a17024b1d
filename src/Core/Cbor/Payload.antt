-- ===== src/Core/Cbor/Payload.antt =====
-- Behind the head: what the loops and the payload readers accept is what the encoder writes.
use ark_forge.Prelude.{
  ℕ, zero, suc, ◌-◌, Bytes, IsBytes, true, List, [], ◌∷◌, ◌++◌, ◌≡◌, subst, ◌==◌, length, take,
  Option, none, some, ok, >>=-eq-ok, ensure-eq-ok, arith, Bool-cases, inl, inr, length-append,
  take-length_append,
}
use mathlib.Core.List.{append_assoc}
use ark_forge.Core.Cbor.{CborValue, CborValues, CborEntries, array}
use ark_forge.Core.Cbor.Encode.{
  encode_head, concat_entries, encode_map, encode_bool, initial_byte, count_values, encode,
  encode_values, encode_entries,
}
use ark_forge.Core.Cbor.Decode.{
  take_bytes, read_simple, Reader, ascends, read_values, read_entries, read_text,
}
use ark_forge.Core.Cbor.Head.{take_bytes-Taken}
use ark_forge.Core.Cbor.Order.{Ascending, sort_by_key-Ascending, check_keys-Ascending}

-- The value encodes to what was consumed of `bs`.
pub record Reencodes (v : CborValue) (bs rest : Bytes) : Type 0 where
  pub enc : Bytes
  pub encodes : encode v ≡ ok enc
  pub split : bs ≡ enc ++ rest
  pub back : IsBytes rest

pub take_prefix : (a b : Bytes) → take (length (a ++ b) - length b) (a ++ b) ≡ a
take_prefix a b =
    let e : length (a ++ b) - length b ≡ length a = omega (arith, length-append a b) in
    rw e (take-length_append a b)

pub simple_body :
    (argument : ℕ) (v : CborValue)
    → read_simple argument ≡ ok v
    → encode v ≡ ok (encode_head 7 argument)
unfolding read_simple encode encode_bool encode_head initial_byte
simple_body argument v h = elim (Bool-cases (argument == 20)) [
  | inl a ↦ ground arith
  | inr a ↦ elim (Bool-cases (argument == 21)) [ inl b ↦ ground arith | inr b ↦ ground arith ]
]

-- Behind the head: the value encodes to the head of `argument` and the consumed payload.
pub record BodyRead (major argument : ℕ) (v : CborValue) (bs rest : Bytes) : Type 0 where
  pub payload : Bytes
  pub encodes : encode v ≡ ok (encode_head major argument ++ payload)
  pub split : bs ≡ payload ++ rest
  pub back : IsBytes rest

pub text_body :
    (argument : ℕ) (bs : Bytes) (v : CborValue) (rest : Bytes)
    → IsBytes bs
    → read_text argument bs ≡ ok (v, rest)
    → BodyRead 3 argument v bs rest
unfolding read_text encode
text_body argument bs v rest hb h =
    let (t, p, q) = >>=-eq-ok (take_bytes argument bs) _ h in
    let d = take_bytes-Taken argument bs t.0 t.1 hb p in
    record {
      payload = t.0;
      encodes = ground (arith, d.size);
      split = ground (arith, d.split);
      back = ground (arith, d.back);
    }

module _ (read : Reader)
    (reads : (bs : Bytes) (v : CborValue) (rest : Bytes)
      → IsBytes bs
      → read bs ≡ ok (v, rest)
      → Reencodes v bs rest) where
  record ValuesRead (n : ℕ) (vs : CborValues) (bs rest : Bytes) : Type 0 where
    enc : Bytes
    encodes : encode_values vs ≡ ok enc
    split : bs ≡ enc ++ rest
    back : IsBytes rest
    counted : count_values vs ≡ n

  read_values-Reencodes :
      (n : ℕ) (bs : Bytes) {vs : CborValues} {rest : Bytes}
      → IsBytes bs
      → read_values read n bs ≡ ok (vs, rest)
      → ValuesRead n vs bs rest
  unfolding read_values encode_values count_values
  read_values-Reencodes zero bs hb h = record {
    enc = [];
    encodes = ground arith;
    split = ground arith;
    back = ground arith;
    counted = ground arith;
  }
  read_values-Reencodes (suc n) bs hb h =
      let (r, p, q) = >>=-eq-ok (read bs) _ h in
      let one = reads bs r.0 r.1 hb p in
      let (s, p', q') = >>=-eq-ok (read_values read n r.1) _ q in
      let more = read_values-Reencodes n r.1 {vs = s.0} {rest = s.1} one.back p' in
      record {
        enc = one.enc ++ more.enc;
        encodes = ground (arith, one.encodes, more.encodes);
        split = ground (arith, one.split, more.split, append_assoc one.enc more.enc s.1);
        back = ground (arith, more.back);
        counted = ground (arith, more.counted);
      }

  record EntriesRead (n : ℕ) (previous : Option Bytes) (es : CborEntries) (bs rest : Bytes)
      : Type 0 where
    pairs : List (Bytes × Bytes)
    encodes : encode_entries es ≡ ok pairs
    split : bs ≡ concat_entries pairs ++ rest
    back : IsBytes rest
    counted : length pairs ≡ n
    ascending : Ascending previous pairs

  key_consumed :
      (bs : Bytes) (k : CborValue) (rest : Bytes) (one : Reencodes k bs rest)
      → take (length bs - length rest) bs ≡ one.enc
  key_consumed bs k rest one = rw one.split (take_prefix one.enc rest)

  read_entries-Reencodes :
      (n : ℕ) (previous : Option Bytes) (bs : Bytes) {es : CborEntries} {rest : Bytes}
      → IsBytes bs
      → read_entries read n previous bs ≡ ok (es, rest)
      → EntriesRead n previous es bs rest
  unfolding read_entries encode_entries concat_entries
  read_entries-Reencodes zero previous bs hb h = record {
    pairs = [];
    encodes = ground arith;
    split = ground arith;
    back = ground arith;
    counted = ground arith;
    ascending = tt;
  }
  read_entries-Reencodes (suc n) previous bs hb h =
      let (k, p, q) = >>=-eq-ok (read bs) _ h in
      let key = reads bs k.0 k.1 hb p in
      let (up, q0) = ensure-eq-ok (ascends previous (take (length bs - length k.1) bs)) _ _ q in
      let (v, p1, q1) = >>=-eq-ok (read k.1) _ q0 in
      let value = reads k.1 v.0 v.1 key.back p1 in
      let (s, p2, q2) =
        >>=-eq-ok (read_entries read n (some (take (length bs - length k.1) bs)) v.1) _ q1 in
      let more =
        read_entries-Reencodes n (some key.enc) v.1 {es = s.0} {rest = s.1} value.back (
          subst (λ kb. read_entries read n (some kb) v.1 ≡ ok s) (key_consumed bs k.0 k.1 key)
            p2) in
      record {
        pairs = (key.enc, value.enc) ∷ more.pairs;
        encodes = ground (arith, key.encodes, value.encodes, more.encodes);
        split = ground (
          arith,
          key.split,
          value.split,
          more.split,
          append_assoc key.enc (value.enc ++ concat_entries more.pairs) s.1,
          append_assoc value.enc (concat_entries more.pairs) s.1,
        );
        back = ground (arith, more.back);
        counted = ground (arith, more.counted);
        ascending = (
          subst (λ kb. ascends previous kb ≡ true) (key_consumed bs k.0 k.1 key) up,
          more.ascending,
        );
      }

  pub array_body :
      (argument : ℕ) (bs : Bytes) (vs : CborValues) (rest : Bytes)
      → IsBytes bs
      → read_values read argument bs ≡ ok (vs, rest)
      → BodyRead 4 argument (array vs) bs rest
  unfolding encode
  array_body argument bs vs rest hb h =
      let all = read_values-Reencodes argument bs hb h in
      record {
        payload = all.enc;
        encodes = ground (arith, all.encodes, all.counted);
        split = all.split;
        back = all.back;
      }

  pub map_body :
      (argument : ℕ) (bs : Bytes) (es : CborEntries) (rest : Bytes)
      → IsBytes bs
      → read_entries read argument none bs ≡ ok (es, rest)
      → BodyRead 5 argument (CborValue.map es) bs rest
  unfolding encode encode_map
  map_body argument bs es rest hb h =
      let all = read_entries-Reencodes argument none bs hb h in
      record {
        payload = concat_entries all.pairs;
        encodes = ground (
          arith,
          all.encodes,
          all.counted,
          sort_by_key-Ascending none all.pairs all.ascending,
          check_keys-Ascending none all.pairs all.ascending,
        );
        split = all.split;
        back = all.back;
      }
