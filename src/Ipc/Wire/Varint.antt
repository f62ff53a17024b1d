-- ===== src/Ipc/Wire/Varint.antt =====
-- Varints: what is written is read back.
use native.Mathlib.Nat.{pow-suc, pow-zero, mul_assoc, add-mul}
use ark_forge.Prelude.{
  ℕ, zero, suc, ◌+◌, ◌*◌, ◌/◌, ◌%◌, ◌^◌, ◌≤◌, ◌<◌, Bytes, true, false, ◌++◌, ltb, ◌==◌, lt→ltb,
  le→ltb_false, ◌≡◌, sym, ap, ◌∙◌, ok, Bool-cases, inl, inr, arith, ==_iff,
}
use ark_forge.Ipc.Wire.{write_groups, read_groups, write_varint, read_varint}

two-pow_seven : (s : ℕ) → 2 ^ (s + 7) ≡ 128 * 2 ^ s
two-pow_seven s =
    let place : s + 7 ≡ suc (suc (suc (suc (suc (suc (suc s)))))) = omega arith in
    ap (λ x. 2 ^ x) place
    ∙ omega (
      arith,
      pow-suc 2 s,
      pow-suc 2 (suc s),
      pow-suc 2 (suc (suc s)),
      pow-suc 2 (suc (suc (suc s))),
      pow-suc 2 (suc (suc (suc (suc s)))),
      pow-suc 2 (suc (suc (suc (suc (suc s))))),
      pow-suc 2 (suc (suc (suc (suc (suc (suc s)))))),
    )

groups_left : (n q : ℕ) → q < 128 ^ n → 1 ≤ q → 1 ≤ n
groups_left zero q below some = omega (arith, pow-zero 128)
groups_left (suc n) q below some = omega arith

-- The lowest group and the others make up the value, at any place.
split_groups : (v p : ℕ) → v % 128 * p + v / 128 * (128 * p) ≡ v * p
split_groups v p =
    let whole : v % 128 + v / 128 * 128 ≡ v = omega arith in
    ap (λ x. v % 128 * p + x) (sym (mul_assoc (v / 128) 128 p))
    ∙ sym (add-mul (v % 128) (v / 128 * 128) p)
    ∙ ap (λ x. x * p) whole

below_word : (x : ℕ) → x < 2 ^ 64 → x % 2 ^ 64 ≡ x
below_word x h = omega arith

read_groups-write_groups :
    (n value shift v : ℕ) (rest : Bytes)
    → v < 128 ^ n
    → 1 ≤ n
    → v * 2 ^ shift < 2 ^ 64
    → read_groups n value shift (write_groups n v ++ rest) ≡ ok (value + v * 2 ^ shift, rest)
unfolding read_groups write_groups
read_groups-write_groups zero value shift v rest small some fits = absurd (omega arith)
read_groups-write_groups (suc n) value shift v rest small some fits =
    let split = split_groups v (2 ^ shift) in
    let group : (v % 128 * 2 ^ shift) % 2 ^ 64 ≡ v % 128 * 2 ^ shift =
      below_word (v % 128 * 2 ^ shift) (omega (arith, split, fits)) in
    elim (Bool-cases (v / 128 == 0)) [
      | inl last ↦
          let none_left : v / 128 ≡ 0 = (==_iff (v / 128) 0).0 last in
          let low : v % 128 ≡ v = omega (arith, none_left) in
          let lead : ltb (v % 128 % 256) 128 ≡ true = lt→ltb (v % 128 % 256) 128 (omega arith) in
          let same : v % 128 % 128 ≡ v % 128 = omega arith in
          simp (last, lead, same, group) (ap (λ x. ok (value + x * 2 ^ shift, rest)) low)
      | inr more ↦
          let left : v / 128 < 128 ^ n = omega (arith, pow-suc 128 n, small) in
          let wide : v / 128 * 2 ^ (shift + 7) ≡ v / 128 * (128 * 2 ^ shift) =
            ap (λ x. v / 128 * x) (two-pow_seven shift) in
          let lead : ltb ((v % 128 + 128) % 256) 128 ≡ false =
            le→ltb_false ((v % 128 + 128) % 256) 128 (omega arith) in
          let same : (v % 128 + 128) % 128 ≡ v % 128 = omega arith in
          let nonzero : 1 ≤ v / 128 = ground arith in
          let others =
            read_groups-write_groups n (value + v % 128 * 2 ^ shift) (shift + 7) (v / 128) rest left
              (groups_left n (v / 128) left (omega (arith, nonzero)))
              (omega (arith, wide, split, fits)) in
          simp (more, lead, same, group)
            (others ∙ ap (λ x. ok (x, rest)) (omega (arith, wide, split)))
    ]

-- A 64-bit value that is written as a varint is read back, with what stands behind it untouched.
pub read_varint-write_varint :
    (v : ℕ) (rest : Bytes) → v < 2 ^ 64 → read_varint (write_varint v ++ rest) ≡ ok (v, rest)
unfolding read_varint write_varint
read_varint-write_varint v rest fits =
    read_groups-write_groups 10 0 0 v rest (omega (arith, fits)) (omega arith) (omega (arith, fits))
    ∙ ap (λ x. ok (x, rest)) (omega arith)
