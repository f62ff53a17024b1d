-- ===== src/Core/Cbor/Encode.antt =====
-- `CborValue::to_canonical_bytes`, `encode_into` and `encode_head`. A function gives the bytes that
-- the source pushes onto its output; the output of a failed call is dropped by every caller.
use Prim.Native.Nat.{bit_or}
use ark_forge.Prelude.{
  ℕ, ◌*◌, ◌/◌, ◌%◌, ◌^◌, Bytes, bytes_eq, bytes_lt, Bool, true, false, List, [], ◌∷◌, ◌++◌, suc,
  ltb, leb, if◌then◌else◌, length, any, Result, ok, err, ◌>>=◌, pos, negsuc, ℤ,
}
use ark_forge.Core.Cbor.{
  CborValue, CborValues, CborEntries, CborError, unsigned, negative, bytes, text, array, bool, null,
  nil, cons, end, entry, negative_not_negative, duplicate_map_key,
}

-- `to_be_bytes` of a `u16`, a `u32` and a `u64`.
unfoldable pub be16 : ℕ → Bytes
be16 v = v / 256 % 256 ∷ v % 256 ∷ []

unfoldable pub be32 : ℕ → Bytes
be32 v = v / 2 ^ 24 % 256 ∷ v / 2 ^ 16 % 256 ∷ v / 256 % 256 ∷ v % 256 ∷ []

unfoldable pub be64 : ℕ → Bytes
unfolding be32
be64 v = be32 (v / 2 ^ 32) ++ be32 (v % 2 ^ 32)

-- `major << 5` on a `u8`, then `|`.
unfoldable pub initial_byte : ℕ → ℕ → ℕ
initial_byte major additional = bit_or (major * 32 % 256) additional

unfoldable pub encode_head : ℕ → ℕ → Bytes
encode_head major argument =
    if ltb argument 24
    then initial_byte major argument ∷ []
    else if leb argument 0xff
    then initial_byte major 24 ∷ argument ∷ []
    else if leb argument 0xffff
    then initial_byte major 25 ∷ be16 argument
    else if leb argument 0xffff_ffff
    then initial_byte major 26 ∷ be32 argument
    else initial_byte major 27 ∷ be64 argument

-- `sort_by` on the encoded key: stable, as the standard library's sort is.
unfoldable pub insert_by_key : Bytes × Bytes → List (Bytes × Bytes) → List (Bytes × Bytes)
insert_by_key e [] = e ∷ []
insert_by_key e (x ∷ xs) = if bytes_lt x.0 e.0 then x ∷ insert_by_key e xs else e ∷ x ∷ xs

unfoldable pub sort_by_key : List (Bytes × Bytes) → List (Bytes × Bytes)
sort_by_key [] = []
sort_by_key (e ∷ es) = insert_by_key e (sort_by_key es)

-- The loop over `seen`: the first key that is already there is refused.
unfoldable pub check_keys : List Bytes → List (Bytes × Bytes) → Result CborError (Unit {0})
check_keys seen [] = ok tt
check_keys seen (e ∷ es) =
    let rest = check_keys (e.0 ∷ seen) es in
    if any (bytes_eq e.0) seen then err (duplicate_map_key e.0) else rest

unfoldable pub concat_entries : List (Bytes × Bytes) → Bytes
concat_entries [] = []
concat_entries (e ∷ es) = e.0 ++ (e.1 ++ concat_entries es)

unfoldable pub encode_map : List (Bytes × Bytes) → Result CborError Bytes
encode_map encoded =
    let sorted = sort_by_key encoded in
    check_keys [] sorted >>= λ _. ok (encode_head 5 (length sorted) ++ concat_entries sorted)

-- Major type 1 holds -1 - n, so `negsuc n` is written as n.
unfoldable pub encode_negative : ℤ → Result CborError Bytes
encode_negative (pos n) = err (negative_not_negative (pos n))
encode_negative (negsuc n) = ok (encode_head 1 n)

unfoldable pub encode_bool : Bool → Bytes
encode_bool true = bit_or 0xe0 21 ∷ []
encode_bool false = bit_or 0xe0 20 ∷ []

unfoldable pub count_values : CborValues → ℕ
count_values nil = 0
count_values (cons v vs) = suc (count_values vs)

unfoldable mutual
  pub encode : CborValue → Result CborError Bytes
  encode (unsigned n) = ok (encode_head 0 n)
  encode (negative z) = encode_negative z
  encode (bytes b) = ok (encode_head 2 (length b) ++ b)
  encode (text t) = ok (encode_head 3 (length t) ++ t)
  encode (array vs) = encode_values vs >>= λ body. ok (encode_head 4 (count_values vs) ++ body)
  encode (CborValue.map es) = encode_entries es >>= encode_map
  encode (bool b) = ok (encode_bool b)
  encode null = ok (0xf6 ∷ [])

  pub encode_values : CborValues → Result CborError Bytes
  encode_values nil = ok []
  encode_values (cons v vs) = encode v >>= λ b. encode_values vs >>= λ rest. ok (b ++ rest)

  pub encode_entries : CborEntries → Result CborError (List (Bytes × Bytes))
  encode_entries end = ok []
  encode_entries (entry k v es) =
      encode k >>= λ kb. encode v >>= λ vb. encode_entries es >>= λ rest. ok ((kb, vb) ∷ rest)
