-- ===== src/Core/Ids.antt =====
-- crates/arkforge-core/src/ids.rs: identifiers. A typed identifier is its text.
use ark_forge.Prelude.{
  ℕ, ◌≤◌, Text, Bool, true, false, [], ◌∷◌, ◌&&◌, ◌||◌, ltb, leb, ◌==◌, if◌then◌else◌, is_empty,
  length, Result, ok, err, ◌>>=◌, All, ◌≡◌, refl, arith, ◌↔◌,
}

abbrev pub max_id_len : ℕ
max_id_len = 128

-- An offending non-ASCII character is named by its first byte.
pub data IdError : Type 0 where
  empty : IdError
  too_long : ℕ → IdError
  invalid_character : ℕ → IdError

abbrev pub OpaqueId : Type 0
OpaqueId = Text

-- ASCII letters and digits, and the four marks.
unfoldable pub allowed : ℕ → Bool
allowed c =
    (leb b'a' c && leb c b'z')
    || (leb b'A' c && leb c b'Z')
    || (leb b'0' c && leb c b'9')
    || c == b'.'
    || c == b'_'
    || c == b':'
    || c == b'-'

unfoldable pub check_characters : Text → Result IdError (Unit {0})
check_characters [] = ok tt
check_characters (c ∷ cs) =
    let rest = check_characters cs in if allowed c then rest else err (invalid_character c)

unfoldable pub opaque_id : Text → Result IdError OpaqueId
unfolding check_characters
opaque_id value =
    if is_empty value
    then err empty
    else if ltb max_id_len (length value)
    then err (too_long (length value))
    else (check_characters value >>= λ _. ok value)

-- The texts that are identifiers.
pub record IsId (value : Text) : Type 0 where
  pub filled : is_empty value ≡ false
  pub short : length value ≤ max_id_len
  pub plain : All (λ c. allowed c ≡ true) value

check_characters-plain :
    (cs : Text) → (check_characters cs ≡ ok tt) ↔ All (λ c. allowed c ≡ true) cs
unfolding check_characters
check_characters-plain [] = (λ h. tt, λ h. refl)
check_characters-plain (c ∷ cs) =
    let (to, from) = check_characters-plain cs in
    (λ h. (ground arith, to (ground arith)), λ h. ground (arith, from h.1, h.0))

-- An identifier is accepted exactly when it is not empty, has at most 128 bytes, and holds only
-- allowed characters; it is then the text itself.
pub opaque_id-IsId : (value id : Text) → (opaque_id value ≡ ok id) ↔ ((id ≡ value) × IsId value)
unfolding opaque_id
opaque_id-IsId value id = (
  λ h. (
    ground arith,
    record {
      filled = ground arith;
      short = ground arith;
      plain = (check_characters-plain value).0 (ground arith);
    },
  ),
  λ (e, v). ground (arith, v.filled, v.short, (check_characters-plain value).1 v.plain),
)
