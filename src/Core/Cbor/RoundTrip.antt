-- ===== src/Core/Cbor/RoundTrip.antt =====
-- What the encoder writes, `decode_canonical` reads: the value comes back arranged.
use ark_forge.Prelude.{
  Result, pos, ◌∙◌, ℕ, zero, suc, ◌^◌, ◌<◌, Bytes, negsuc, List, [], ◌∷◌, ◌++◌, ◌≡◌, refl, ap,
  length, subst, none, ok, >>=-eq-ok, arith,
}
use mathlib.Core.List.{append_assoc, append-nil}
use ark_forge.Core.Cbor.{
  CborError, CborValue, CborValues, CborEntries, unsigned, negative, bytes, text, array, bool, null,
  nil, cons, end, entry,
}
use ark_forge.Core.Cbor.Encode.{
  check_keys, encode_head, insert_by_key, sort_by_key, concat_entries, encode_map, encode_negative,
  count_values, encode, encode_values, encode_entries,
}
use ark_forge.Core.Cbor.Decode.{max_depth, Reader, read_values, read_value, decode_canonical}
use ark_forge.Core.Cbor.Arrange.{
  arrange, arrange_values, arrange_entries, count_entries, Fits, FitValues, FitEntries,
}
use ark_forge.Core.Cbor.Order.{sort_by_key-Ascending, check_keys-sort_by_key}
use ark_forge.Core.Cbor.Placed.{
  Written, AllWritten, place-AllWritten, encode_entries-AllWritten, read_entries-AllWritten,
}
use ark_forge.Core.Cbor.Kinds.{
  write_unsigned, write_negative, write_bytes, write_text, write_bool, write_null, write_array,
  write_map,
}

ok_eq {ℓ} : {A : Type ℓ} {x y : A} → ◌≡◌ {A = Result CborError A} (ok x) (ok y) → x ≡ y
ok_eq p = cc

count_values-arrange_values : (vs : CborValues) → count_values (arrange_values vs) ≡ count_values vs
unfolding count_values arrange_values
count_values-arrange_values nil = refl
count_values-arrange_values (cons v vs) = ap suc (count_values-arrange_values vs)

length-insert_by_key :
    (e : Bytes × Bytes) (l : List (Bytes × Bytes)) → length (insert_by_key e l) ≡ suc (length l)
unfolding insert_by_key
length-insert_by_key e [] = refl
length-insert_by_key e (x ∷ xs) = ground (arith, length-insert_by_key e xs)

length-sort_by_key : (l : List (Bytes × Bytes)) → length (sort_by_key l) ≡ length l
unfolding sort_by_key
length-sort_by_key [] = refl
length-sort_by_key (e ∷ l) =
    rw (length-insert_by_key e (sort_by_key l)) (ap suc (length-sort_by_key l))

length-encode_entries :
    (es : CborEntries) (l : List (Bytes × Bytes))
    → encode_entries es ≡ ok l
    → length l ≡ count_entries es
unfolding encode_entries count_entries
length-encode_entries end l h = ground arith
length-encode_entries (entry k v es) l h =
    let (kb, p, h1) = >>=-eq-ok (encode k) _ h in
    let (vb, q, h2) = >>=-eq-ok (encode v) _ h1 in
    let (r, s, h3) = >>=-eq-ok (encode_entries es) _ h2 in
    ground (arith, length-encode_entries es r s)

-- The arranged values, behind one another.
record ValuesWritten (read : Reader) (vs : CborValues) (body : Bytes) : Type 0 where
  all_encode : encode_values vs ≡ ok body
  all_back : (rest : Bytes) → read_values read (count_values vs) (body ++ rest) ≡ ok (vs, rest)

nil-ValuesWritten : (read : Reader) → ValuesWritten read nil []
unfolding encode_values read_values count_values
nil-ValuesWritten read = record { all_encode = refl; all_back = λ rest. refl }

cons-ValuesWritten :
    (read : Reader) (v : CborValue) (vs : CborValues) (b body : Bytes)
    → Written read v b
    → ValuesWritten read vs body
    → ValuesWritten read (cons v vs) (b ++ body)
unfolding encode_values read_values count_values
cons-ValuesWritten read v vs b body one more = record {
  all_encode = rw (one.encodes, more.all_encode) refl;
  all_back =
      λ rest. rw (append_assoc b body rest, one.back (body ++ rest), more.all_back rest) refl;
}

map-Written :
    (levels : ℕ) (es : CborEntries) (l : List (Bytes × Bytes)) (b : Bytes)
    → length l < 2 ^ 64
    → encode_map l ≡ ok b
    → AllWritten (read_value levels) es (sort_by_key l)
    → Written (read_value (suc levels)) (CborValue.map es) b
unfolding encode_map
map-Written levels es l b h e w =
    let (_, distinct, q) = >>=-eq-ok (check_keys [] (sort_by_key l)) _ e in
    let up = check_keys-sort_by_key l distinct in
    let written : Written (read_value (suc levels)) (CborValue.map es)
        (encode_head 5 (length (sort_by_key l)) ++ concat_entries (sort_by_key l)) =
      write_map levels es (sort_by_key l) (rw (length-sort_by_key l) h)
        (encode_entries-AllWritten (read_value levels) es (sort_by_key l) w)
        (sort_by_key-Ascending none (sort_by_key l) up) distinct
        (λ rest. read_entries-AllWritten (read_value levels) none es (sort_by_key l) rest w up) in
    subst (Written (read_value (suc levels)) (CborValue.map es)) (ok_eq q) written

mutual
  unfolding encode encode_negative arrange Fits sort_by_key

  write_value :
      (levels : ℕ) (v : CborValue) (b : Bytes)
      → Fits levels v
      → encode v ≡ ok b
      → Written (read_value levels) (arrange v) b
  write_value zero v b f e = absurd f
  write_value (suc levels) (unsigned n) b f e =
      subst (Written (read_value (suc levels)) (unsigned n)) (ok_eq e) (write_unsigned levels n f)
  write_value (suc levels) (negative (pos n)) b f e = absurd f
  write_value (suc levels) (negative (negsuc n)) b f e =
      subst (Written (read_value (suc levels)) (negative (negsuc n))) (ok_eq e)
        (write_negative levels n f)
  write_value (suc levels) (bytes x) b f e =
      subst (Written (read_value (suc levels)) (bytes x)) (ok_eq e) (write_bytes levels x f)
  write_value (suc levels) (text t) b f e =
      subst (Written (read_value (suc levels)) (text t)) (ok_eq e) (write_text levels t f.0 f.1)
  write_value (suc levels) (array vs) b f e =
      let (body, p, q) = >>=-eq-ok (encode_values vs) _ e in
      let all = write_values levels vs body f.1 p in
      subst (Written (read_value (suc levels)) (array (arrange_values vs)))
        (ap (λ n. encode_head 4 n ++ body) (count_values-arrange_values vs) ∙ ok_eq q)
        (write_array levels (arrange_values vs) body (rw (count_values-arrange_values vs) f.0)
          all.all_encode all.all_back)
  write_value (suc levels) (CborValue.map es) b f e =
      let (l, p, q) = >>=-eq-ok (encode_entries es) _ e in
      map-Written levels (arrange_entries es) l b (rw (length-encode_entries es l p) f.0) q
        (write_entries levels es l f.1 p)
  write_value (suc levels) (bool x) b f e =
      subst (Written (read_value (suc levels)) (bool x)) (ok_eq e) (write_bool levels x)
  write_value (suc levels) null b f e =
      subst (Written (read_value (suc levels)) null) (ok_eq e) (write_null levels)

  write_values :
      (levels : ℕ) (vs : CborValues) (body : Bytes)
      → FitValues levels vs
      → encode_values vs ≡ ok body
      → ValuesWritten (read_value levels) (arrange_values vs) body
  write_values levels nil body f e =
      subst (ValuesWritten (read_value levels) nil) (ok_eq e)
        (nil-ValuesWritten (read_value levels))
  write_values levels (cons v vs) body f e =
      let (b, p, q) = >>=-eq-ok (encode v) _ e in
      let (rest, p', q') = >>=-eq-ok (encode_values vs) _ q in
      subst (ValuesWritten (read_value levels) (cons (arrange v) (arrange_values vs))) (ok_eq q') (
        cons-ValuesWritten (read_value levels) (arrange v) (arrange_values vs) b rest
          (write_value levels v b f.0 p) (write_values levels vs rest f.1 p'))

  write_entries :
      (levels : ℕ) (es : CborEntries) (l : List (Bytes × Bytes))
      → FitEntries levels es
      → encode_entries es ≡ ok l
      → AllWritten (read_value levels) (arrange_entries es) (sort_by_key l)
  write_entries levels end l f e =
      subst (λ x. AllWritten (read_value levels) end (sort_by_key x)) (ok_eq e) tt
  write_entries levels (entry k v es) l f e =
      let (kb, p, h1) = >>=-eq-ok (encode k) _ e in
      let (vb, q, h2) = >>=-eq-ok (encode v) _ h1 in
      let (r, s, h3) = >>=-eq-ok (encode_entries es) _ h2 in
      subst (λ x. AllWritten (read_value levels) (arrange_entries (entry k v es)) (sort_by_key x))
        (ok_eq h3)
        (place-AllWritten (read_value levels) (arrange k) (arrange v) kb vb (arrange_entries es)
          (sort_by_key r) (write_value levels k kb f.0 p) (write_value levels v vb f.1 q)
          (write_entries levels es r f.2 s))

-- A value that fits the format and encodes is read back from its encoding, with the entries of each
-- map in the order of their encoded keys.
pub decode_canonical-encode :
    (v : CborValue) (b : Bytes)
    → Fits (suc max_depth) v
    → encode v ≡ ok b
    → decode_canonical b ≡ ok (arrange v)
unfolding decode_canonical
decode_canonical-encode v b f e =
    let p = (write_value (suc max_depth) v b f e).back [] in
    let q : read_value (suc max_depth) b ≡ ok (arrange v, []) =
      subst (λ x. read_value (suc max_depth) x ≡ ok (arrange v, [])) (append-nil b) p in
    rw q refl
