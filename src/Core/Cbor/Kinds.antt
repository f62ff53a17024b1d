-- ===== src/Core/Cbor/Kinds.antt =====
-- Each kind of value is read back from how it is written.
use ark_forge.Prelude.{
  ◌∙◌, Text, Bool, lt→ltb, ℕ, suc, ◌^◌, ◌<◌, Bytes, negsuc, true, false, List, [], ◌∷◌, ◌++◌, ◌≡◌,
  refl, length, none, ok, arith,
}
use mathlib.Core.List.{append_assoc}
use ark_forge.Core.Cbor.{
  CborValue, CborValues, CborEntries, unsigned, negative, bytes, text, array, bool, null,
}
use ark_forge.Core.Cbor.Encode.{
  check_keys, encode_head, sort_by_key, concat_entries, encode_map, encode_negative, encode_bool,
  count_values, encode, encode_values, encode_entries,
}
use ark_forge.Core.Cbor.Decode.{
  is_utf8, read_argument, read_head, read_negative, read_simple, read_values, read_entries,
  read_body, read_value, read_text,
}
use ark_forge.Core.Cbor.Written.{read_head-encode_head, take_bytes-append}
use ark_forge.Core.Cbor.Placed.{Written}

-- Past the head, `read_value` is the body's reader.
read_value-encode_head :
    (levels major argument : ℕ) (payload rest : Bytes)
    → major < 8
    → argument < 2 ^ 64
    → read_value (suc levels) ((encode_head major argument ++ payload) ++ rest)
      ≡ read_body (read_value levels) major argument (payload ++ rest)
unfolding read_value
read_value-encode_head levels major argument payload rest m a =
    rw
      (
        append_assoc (encode_head major argument) payload rest,
        read_head-encode_head major argument (payload ++ rest) m a,
      )
      refl

read_value-bare_head :
    (levels major argument : ℕ) (rest : Bytes)
    → major < 8
    → argument < 2 ^ 64
    → read_value (suc levels) (encode_head major argument ++ rest)
      ≡ read_body (read_value levels) major argument rest
unfolding read_value
read_value-bare_head levels major argument rest m a =
    rw (read_head-encode_head major argument rest m a) refl

-- Each kind of value in turn.
module _ (levels : ℕ) where
  pub write_unsigned :
      (n : ℕ) → n < 2 ^ 64 → Written (read_value (suc levels)) (unsigned n) (encode_head 0 n)
  unfolding encode read_body
  write_unsigned n h = record {
    encodes = refl;
    back = λ rest. read_value-bare_head levels 0 n rest (omega arith) h;
  }

  pub write_negative :
      (n : ℕ)
      → n < 2 ^ 63
      → Written (read_value (suc levels)) (negative (negsuc n)) (encode_head 1 n)
  unfolding encode encode_negative read_body read_negative
  write_negative n h = record {
    encodes = refl;
    back = λ rest.
        read_value-bare_head levels 1 n rest (omega arith) (omega arith)
        ∙ rw (lt→ltb n (2 ^ 63) h) refl;
  }

  pub write_bytes :
      (b : Bytes)
      → length b < 2 ^ 64
      → Written (read_value (suc levels)) (bytes b) (encode_head 2 (length b) ++ b)
  unfolding encode read_body
  write_bytes b h = record {
    encodes = refl;
    back = λ rest.
        read_value-encode_head levels 2 (length b) b rest (omega arith) h
        ∙ rw (take_bytes-append (length b) b rest refl) refl;
  }

  pub write_text :
      (t : Text)
      → length t < 2 ^ 64
      → is_utf8 t ≡ true
      → Written (read_value (suc levels)) (text t) (encode_head 3 (length t) ++ t)
  unfolding encode read_body read_text
  write_text t h u = record {
    encodes = refl;
    back = λ rest.
        read_value-encode_head levels 3 (length t) t rest (omega arith) h
        ∙ rw (take_bytes-append (length t) t rest refl, u) refl;
  }

  pub write_bool : (b : Bool) → Written (read_value (suc levels)) (bool b) (encode_bool b)
  unfolding encode read_value read_head read_argument read_body read_simple encode_bool
  write_bool true = record { encodes = refl; back = λ rest. refl }
  write_bool false = record { encodes = refl; back = λ rest. refl }

  pub write_null : Written (read_value (suc levels)) null (0xf6 ∷ [])
  unfolding encode read_value read_head read_argument read_body read_simple
  write_null = record { encodes = refl; back = λ rest. refl }

  pub write_array :
      (vs : CborValues) (body : Bytes)
      → count_values vs < 2 ^ 64
      → encode_values vs ≡ ok body
      → ((rest : Bytes)
          → read_values (read_value levels) (count_values vs) (body ++ rest) ≡ ok (vs, rest))
      → Written (read_value (suc levels)) (array vs) (encode_head 4 (count_values vs) ++ body)
  unfolding encode read_body
  write_array vs body h e back = record {
    encodes = rw e refl;
    back = λ rest.
        read_value-encode_head levels 4 (count_values vs) body rest (omega arith) h
        ∙ rw (back rest) refl;
  }

  pub write_map :
      (es : CborEntries) (l : List (Bytes × Bytes))
      → length l < 2 ^ 64
      → encode_entries es ≡ ok l
      → sort_by_key l ≡ l
      → check_keys [] l ≡ ok tt
      → ((rest : Bytes)
          → read_entries (read_value levels) (length l) none (concat_entries l ++ rest)
            ≡ ok (es, rest))
      → Written
          (read_value (suc levels))
          (CborValue.map es)
          (encode_head 5 (length l) ++ concat_entries l)
  unfolding encode encode_map read_body
  write_map es l h e s c back = record {
    encodes = rw (e, s, c) refl;
    back = λ rest.
        read_value-encode_head levels 5 (length l) (concat_entries l) rest (omega arith) h
        ∙ rw (back rest) refl;
  }
