-- ===== src/Core/Digest/Hex.antt =====
-- crates/arkforge-core/src/digest/sha256.rs: digests as lowercase hexadecimal text.
use ark_forge.Prelude.{
  ℕ, ◌+◌, ◌-◌, ◌*◌, ◌/◌, ◌%◌, ◌<◌, IsBytes, Text, ◌&&◌, [], ◌∷◌, Result, ok, err, ◌>>=◌, >>=-eq-ok,
  ensure, ensure-eq-ok, leb, ltb, ◌==◌, ==_iff, length, if◌then◌else◌, ◌≡◌, refl, sym, subst, ◌↔◌,
  ◌∙◌, ap, arith,
}
use ark_forge.Core.Digest.Sha256.{Digest}

pub data DigestParseError : Type 0 where
  length_wrong character : ℕ → DigestParseError

unfoldable pub hex_nibble : ℕ → ℕ
hex_nibble n = if ltb n 10 then b'0' + n else b'a' + (n - 10)

unfoldable pub to_hex : Digest → Text
to_hex [] = []
to_hex (b ∷ bs) = hex_nibble (b / 16) ∷ hex_nibble (b % 16) ∷ to_hex bs

unfoldable pub hex_value : ℕ → Result DigestParseError ℕ
hex_value c =
    if leb b'0' c && leb c b'9'
    then ok (c - b'0')
    else if leb b'a' c && leb c b'f'
    then ok (c - b'a' + 10)
    else err (character c)

-- The loop over the pairs of digits.
unfoldable pub parse_pairs : Text → Result DigestParseError Digest
parse_pairs (h ∷ l ∷ rest) =
    let others = parse_pairs rest in
    hex_value h >>= λ high. hex_value l >>= λ low. others >>= λ bs. ok ((high * 16 + low) ∷ bs)
parse_pairs _ = ok []

unfoldable pub parse_hex : Text → Result DigestParseError Digest
parse_hex t = ensure (length t == 64) (length_wrong (length t)) >>= λ _. parse_pairs t

hex_value-nibble : (n : ℕ) → n < 16 → hex_value (hex_nibble n) ≡ ok n
unfolding hex_value hex_nibble
hex_value-nibble n h = ground (arith, h)

nibble-hex_value : (c n : ℕ) → hex_value c ≡ ok n → (hex_nibble n ≡ c) × (n < 16)
unfolding hex_value hex_nibble
nibble-hex_value c n h = ground (arith, h)

length-to_hex : (d : Digest) → length (to_hex d) ≡ 2 * length d
unfolding to_hex
length-to_hex [] = refl
length-to_hex (b ∷ bs) = omega (arith, length-to_hex bs)

parse_pairs-to_hex : (d : Digest) → IsBytes d → parse_pairs (to_hex d) ≡ ok d
unfolding to_hex parse_pairs
parse_pairs-to_hex [] h = refl
parse_pairs-to_hex (b ∷ bs) h =
    let byte = h.0 in
    let whole : b / 16 * 16 + b % 16 ≡ b = omega arith in
    simp (
      hex_value-nibble (b / 16) (omega arith),
      hex_value-nibble (b % 16) (omega arith),
      parse_pairs-to_hex bs h.1,
      whole,
    )

to_hex-parse_pairs :
    (n : ℕ) (t : Text) (d : Digest)
    → length t ≡ 2 * n
    → parse_pairs t ≡ ok d
    → (to_hex d ≡ t) × (length d ≡ n) × IsBytes d
unfolding to_hex parse_pairs
to_hex-parse_pairs n [] d l h = ground (arith, l, h)
to_hex-parse_pairs n (c ∷ []) d l h = absurd (omega arith)
to_hex-parse_pairs n (x ∷ y ∷ rest) d l h =
    let (high, e1, h1) = >>=-eq-ok (hex_value x) _ h in
    let (low, e2, h2) = >>=-eq-ok (hex_value y) _ h1 in
    let (bs, e3, h3) = >>=-eq-ok (parse_pairs rest) _ h2 in
    let (sx, bx) = nibble-hex_value x high e1 in
    let (sy, by) = nibble-hex_value y low e2 in
    let (text, size, bytes) = to_hex-parse_pairs (n - 1) rest bs (omega arith) e3 in
    let front : (high * 16 + low) ∷ bs ≡ d = ground arith in
    let high_back : (high * 16 + low) / 16 ≡ high = omega arith in
    let low_back : (high * 16 + low) % 16 ≡ low = omega arith in
    subst (λ e. (to_hex e ≡ x ∷ y ∷ rest) × (length e ≡ n) × IsBytes e) front
      (simp (high_back, low_back, sx, sy, text), omega arith, (omega arith, bytes))

-- A text parses to a digest exactly when it is the lowercase spelling of that digest, which then has
-- 32 bytes: no digest has a second spelling.
pub parse_hex_iff :
    (t : Text) (d : Digest) → (parse_hex t ≡ ok d) ↔ ((to_hex d ≡ t) × (length d ≡ 32) × IsBytes d)
unfolding parse_hex
parse_hex_iff t d = (
  λ h.
      let (l, h1) = ensure-eq-ok (length t == 64) _ _ h in
      to_hex-parse_pairs 32 t d (omega (arith, (==_iff (length t) 64).0 l)) h1,
  λ (text, size, bytes).
      let measure : length t ≡ 64 = sym (ap length text) ∙ length-to_hex d ∙ omega arith in
      let parsed = subst (λ x. parse_pairs x ≡ ok d) text (parse_pairs-to_hex d bytes) in
      simp ((==_iff (length t) 64).1 measure, parsed),
)
