-- ===== src/Core/Cbor/Placed.antt =====
-- How the entries of a map are written and read back, over a reader of their keys and values.
use ark_forge.Prelude.{
  Bytes, bytes_lt, List, [], ◌∷◌, ◌++◌, ◌≡◌, refl, length, Option, some, ok, Bool-cases, inl, inr,
}
use mathlib.Core.List.{append_assoc}
use ark_forge.Core.Cbor.{CborValue, CborEntries, end, entry}
use ark_forge.Core.Cbor.Encode.{insert_by_key, concat_entries, encode, encode_entries}
use ark_forge.Core.Cbor.Decode.{Reader, read_entries}
use ark_forge.Core.Cbor.Arrange.{place}
use ark_forge.Core.Cbor.Payload.{take_prefix}
use ark_forge.Core.Cbor.Order.{Ascending}

-- `b` is how `v` is written, and `read` takes it back.
pub record Written (read : Reader) (v : CborValue) (b : Bytes) : Type 0 where
  pub encodes : encode v ≡ ok b
  pub back : (rest : Bytes) → read (b ++ rest) ≡ ok (v, rest)

module _ (read : Reader) where
  abbrev pub AllWritten : CborEntries → List (Bytes × Bytes) → Type 0
  AllWritten end [] = Unit {0}
  AllWritten end (e ∷ l) = ⊥
  AllWritten (entry k v es) [] = ⊥
  AllWritten (entry k v es) (e ∷ l) = Written read k e.0 × Written read v e.1 × AllWritten es l

  -- The entries are placed as their encodings are.
  pub place-AllWritten :
      (k v : CborValue) (kb vb : Bytes) (es : CborEntries) (l : List (Bytes × Bytes))
      → Written read k kb
      → Written read v vb
      → AllWritten es l
      → AllWritten (place k v es) (insert_by_key (kb, vb) l)
  unfolding place insert_by_key
  place-AllWritten k v kb vb end [] wk wv h = (wk, wv, tt)
  place-AllWritten k v kb vb end (e ∷ l) wk wv h = absurd h
  place-AllWritten k v kb vb (entry k' v' es) [] wk wv h = absurd h
  place-AllWritten k v kb vb (entry k' v' es) (e ∷ l) wk wv h =
      rw (h.0.encodes, wk.encodes)
        (elim (Bool-cases (bytes_lt e.0 kb)) [
          | inl p ↦ rw p (h.0, h.1, place-AllWritten k v kb vb es l wk wv h.2)
          | inr p ↦ rw p (wk, wv, h)
        ])

  pub encode_entries-AllWritten :
      (es : CborEntries) (l : List (Bytes × Bytes)) → AllWritten es l → encode_entries es ≡ ok l
  unfolding encode_entries
  encode_entries-AllWritten end [] h = refl
  encode_entries-AllWritten end (e ∷ l) h = absurd h
  encode_entries-AllWritten (entry k v es) [] h = absurd h
  encode_entries-AllWritten (entry k v es) (e ∷ l) h =
      rw (h.0.encodes, h.1.encodes, encode_entries-AllWritten es l h.2) refl

  -- The pairs in ascending order of their keys are read back.
  pub read_entries-AllWritten :
      (previous : Option Bytes) (es : CborEntries) (l : List (Bytes × Bytes)) (rest : Bytes)
      → AllWritten es l
      → Ascending previous l
      → read_entries read (length l) previous (concat_entries l ++ rest) ≡ ok (es, rest)
  unfolding read_entries concat_entries
  read_entries-AllWritten previous end [] rest h a = refl
  read_entries-AllWritten previous end (e ∷ l) rest h a = absurd h
  read_entries-AllWritten previous (entry k v es) [] rest h a = absurd h
  read_entries-AllWritten previous (entry k v es) (e ∷ l) rest h a =
      let tail = concat_entries l ++ rest in
      rw
        (
          append_assoc e.0 (e.1 ++ concat_entries l) rest,
          append_assoc e.1 (concat_entries l) rest,
          h.0.back (e.1 ++ tail),
          take_prefix e.0 (e.1 ++ tail),
          a.0,
          h.1.back tail,
          read_entries-AllWritten (some e.0) es l rest h.2 a.1,
        )
        refl
