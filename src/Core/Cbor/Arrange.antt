-- ===== src/Core/Cbor/Arrange.antt =====
-- What a value becomes on the way through its encoding: the entries of each map in the order of
-- their encoded keys. `Fits` bounds what the head's `u64` and the reader's depth can hold.
use ark_forge.Prelude.{
  ℕ, zero, suc, ◌^◌, ◌<◌, Bytes, bytes_lt, true, [], ◌≡◌, if◌then◌else◌, length, Result, ok, err, ℤ,
  pos, negsuc,
}
use ark_forge.Core.Cbor.{
  CborValue, CborValues, CborEntries, CborError, unsigned, negative, bytes, text, array, bool, null,
  nil, cons, end, entry,
}
use ark_forge.Core.Cbor.Encode.{count_values, encode}
use ark_forge.Core.Cbor.Decode.{is_utf8}

abbrev pub bytes_or_empty : Result CborError Bytes → Bytes
bytes_or_empty (ok b) = b
bytes_or_empty (err e) = []

-- `insert_by_key`, on the entries before they are encoded.
unfoldable pub place : CborValue → CborValue → CborEntries → CborEntries
place k v end = entry k v end
place k v (entry k' v' es) =
    if bytes_lt (bytes_or_empty (encode k')) (bytes_or_empty (encode k))
    then entry k' v' (place k v es)
    else entry k v (entry k' v' es)

unfoldable mutual
  pub arrange : CborValue → CborValue
  arrange (unsigned n) = unsigned n
  arrange (negative z) = negative z
  arrange (bytes b) = bytes b
  arrange (text t) = text t
  arrange (array vs) = array (arrange_values vs)
  arrange (CborValue.map es) = CborValue.map (arrange_entries es)
  arrange (bool b) = bool b
  arrange null = null

  pub arrange_values : CborValues → CborValues
  arrange_values nil = nil
  arrange_values (cons v vs) = cons (arrange v) (arrange_values vs)

  pub arrange_entries : CborEntries → CborEntries
  arrange_entries end = end
  arrange_entries (entry k v es) = place (arrange k) (arrange v) (arrange_entries es)

unfoldable pub count_entries : CborEntries → ℕ
count_entries end = 0
count_entries (entry k v es) = suc (count_entries es)

abbrev FitsNegative : ℤ → Type 0
FitsNegative (pos n) = ⊥
FitsNegative (negsuc n) = n < 2 ^ 63

-- `levels` counts down as the reader's does.
unfoldable mutual
  pub Fits : ℕ → CborValue → Type 0
  Fits zero v = ⊥
  Fits (suc levels) (unsigned n) = n < 2 ^ 64
  Fits (suc levels) (negative z) = FitsNegative z
  Fits (suc levels) (bytes b) = length b < 2 ^ 64
  Fits (suc levels) (text t) = (length t < 2 ^ 64) × (is_utf8 t ≡ true)
  Fits (suc levels) (array vs) = (count_values vs < 2 ^ 64) × FitValues levels vs
  Fits (suc levels) (CborValue.map es) = (count_entries es < 2 ^ 64) × FitEntries levels es
  Fits (suc levels) (bool b) = Unit {0}
  Fits (suc levels) null = Unit {0}

  pub FitValues : ℕ → CborValues → Type 0
  FitValues levels nil = Unit {0}
  FitValues levels (cons v vs) = Fits levels v × FitValues levels vs

  pub FitEntries : ℕ → CborEntries → Type 0
  FitEntries levels end = Unit {0}
  FitEntries levels (entry k v es) = Fits levels k × Fits levels v × FitEntries levels es
