-- ===== src/Core/Digest/Tag.antt =====
-- `constant_time_eq` decides equality of digests.
use Prim.Native.Nat.{bit_xor, bit_or}
use ark_forge.Prelude.{
  check_range, check_range-lookup, ℕ, Bytes, IsByte, IsBytes, bytes_eq, ltb, Bool, true, false,
  ◌&&◌, not, [], ◌∷◌, ◌≡◌, refl, arith, length, ◌==◌,
}
use ark_forge.Core.Digest.{hmac_sha256, constant_time_eq, difference}
use ark_forge.Core.Digest.Sha256.Shape.{finalize-IsBytes}

agree : Bool → Bool → Bool
agree true b = b
agree false b = not b

abbrev xor_fact : ℕ → ℕ → Bool
xor_fact a b = agree (a == b) (bit_xor a b == 0) && ltb (bit_xor a b) 256

abbrev or_fact : ℕ → ℕ → Bool
or_fact a b = agree (a == 0 && b == 0) (bit_or a b == 0) && ltb (bit_or a b) 256

-- Over bytes: every pair is checked by evaluation.
xor_table : check_range (λ a. check_range (xor_fact a) 256) 256 ≡ true
unfolding check_range agree
xor_table = refl

or_table : check_range (λ a. check_range (or_fact a) 256) 256 ≡ true
unfolding check_range agree
or_table = refl

xor_byte : (a b : ℕ) → IsByte a → IsByte b → xor_fact a b ≡ true
xor_byte a b ha hb =
    check_range-lookup (xor_fact a) 256 b hb
      (check_range-lookup (λ a. check_range (xor_fact a) 256) 256 a ha xor_table)

or_byte : (a b : ℕ) → IsByte a → IsByte b → or_fact a b ≡ true
or_byte a b ha hb =
    check_range-lookup (or_fact a) 256 b hb
      (check_range-lookup (λ a. check_range (or_fact a) 256) 256 a ha or_table)

-- The loop ends at 0 exactly when it started at 0 and met no difference.
difference-zero :
    (acc : ℕ) (l r : Bytes)
    → IsByte acc
    → IsBytes l
    → IsBytes r
    → length l ≡ length r
    → (difference acc l r == 0) ≡ (acc == 0 && bytes_eq l r)
unfolding difference bytes_eq
difference-zero acc [] [] ha hl hr e = ground arith
difference-zero acc [] (b ∷ r) ha hl hr e = absurd (omega arith)
difference-zero acc (a ∷ l) [] ha hl hr e = absurd (omega arith)
difference-zero acc (a ∷ l) (b ∷ r) ha hl hr e =
    let x = xor_byte a b hl.0 hr.0 in
    let small : IsByte (bit_xor a b) = unfold agree in ground (arith, x) in
    let o = or_byte acc (bit_xor a b) ha small in
    let next : IsByte (bit_or acc (bit_xor a b)) = ground (arith, o) in
    rw (difference-zero (bit_or acc (bit_xor a b)) l r next hl.1 hr.1 (omega arith))
      (unfold agree in ground (arith, x, o))

-- On byte strings of one length, the comparison that does not stop at the first difference is
-- equality.
pub constant_time_eq-bytes_eq :
    (l r : Bytes)
    → IsBytes l
    → IsBytes r
    → length l ≡ length r
    → constant_time_eq l r ≡ bytes_eq l r
unfolding constant_time_eq
constant_time_eq-bytes_eq l r hl hr e = difference-zero 0 l r (omega arith) hl hr e

pub hmac_sha256-IsBytes : (key message : Bytes) → IsBytes (hmac_sha256 key message)
unfolding hmac_sha256
hmac_sha256-IsBytes key message = finalize-IsBytes _
