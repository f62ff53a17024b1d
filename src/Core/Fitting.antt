-- ===== src/Core/Fitting.antt =====
-- Values of the shapes that records and permits are made of fit the canonical CBOR format.
use Prim.Native.String.{String}
use ark_forge.Prelude.{
  str, ltb, ltb→lt, refl, ap, ℕ, suc, ◌^◌, ◌<◌, Bytes, Text, true, List, [], ◌∷◌, ◌≡◌, length,
  arith, All,
}
use ark_forge.Core.Cbor.{CborValue, CborEntries, text, bytes, unsigned, entry}
use ark_forge.Core.Cbor.Decode.{is_utf8}
use ark_forge.Core.Cbor.Arrange.{Fits, FitEntries, count_entries}
use ark_forge.Core.Binding.{cbor_entries, cbor_map}
use ark_forge.Core.Cbor.Ascii.{is_utf8_ascii}
use ark_forge.Core.Ids.{allowed, IsId}

pub All-weaken {ℓ κ μ} :
    {A : Type ℓ} {P : A → Type κ} {Q : A → Type μ}
    → ((a : A) → P a → Q a)
    → (xs : List A) → All P xs
    → All Q xs
All-weaken f [] h = tt
All-weaken f (x ∷ xs) h = (f x h.0, All-weaken f xs h.1)

pub text-Fits :
    (levels : ℕ) (t : Text) → is_utf8 t ≡ true → length t < 2 ^ 64 → Fits (suc levels) (text t)
unfolding Fits
text-Fits levels t u h = (h, u)

pub unsigned-Fits : (levels n : ℕ) → n < 2 ^ 64 → Fits (suc levels) (unsigned n)
unfolding Fits
unsigned-Fits levels n h = h

pub digest-Fits : (levels : ℕ) (b : Bytes) → length b ≡ 32 → Fits (suc levels) (bytes b)
unfolding Fits
digest-Fits levels b h = omega arith

allowed_ascii : (c : ℕ) → allowed c ≡ true → c < 128
unfolding allowed
allowed_ascii c h = ground arith

pub id-Fits : (levels : ℕ) (t : Text) → IsId t → Fits (suc levels) (text t)
id-Fits levels t h =
    text-Fits levels t (is_utf8_ascii t (All-weaken allowed_ascii t h.plain))
      (omega (arith, h.short))

pub under :
    (levels : ℕ) (name : Text) (v : CborValue) (es : CborEntries)
    → is_utf8 name ≡ true
    → length name < 2 ^ 64
    → Fits (suc levels) v
    → FitEntries (suc levels) es
    → FitEntries (suc levels) (entry (text name) v es)
unfolding FitEntries
under levels name v es u l f more = (text-Fits levels name u l, f, more)

-- `CborValue::map` on named fields: short names in UTF-8, and values that fit.
unfoldable pub FieldFits : ℕ → String × CborValue → Type 0
FieldFits levels e =
    (is_utf8 (str e.0) ≡ true) × (ltb (length (str e.0)) (2 ^ 64) ≡ true) × Fits levels e.1

cbor_entries-FitEntries :
    (levels : ℕ) (es : List (String × CborValue))
    → All (FieldFits (suc levels)) es
    → FitEntries (suc levels) (cbor_entries es)
unfolding FitEntries cbor_entries FieldFits
cbor_entries-FitEntries levels [] h = tt
cbor_entries-FitEntries levels (e ∷ es) h = (
  text-Fits levels (str e.0) h.0.0 (ltb→lt _ _ h.0.1),
  h.0.2,
  cbor_entries-FitEntries levels es h.1,
)

count-cbor_entries : (es : List (String × CborValue)) → count_entries (cbor_entries es) ≡ length es
unfolding count_entries cbor_entries
count-cbor_entries [] = refl
count-cbor_entries (e ∷ es) = ap suc (count-cbor_entries es)

pub cbor_map-Fits :
    (levels : ℕ) (es : List (String × CborValue))
    → ltb (length es) (2 ^ 64) ≡ true
    → All (FieldFits (suc levels)) es
    → Fits (suc (suc levels)) (cbor_map es)
unfolding Fits cbor_map
cbor_map-Fits levels es h a =
    (rw (count-cbor_entries es) (ltb→lt _ _ h), cbor_entries-FitEntries levels es a)
