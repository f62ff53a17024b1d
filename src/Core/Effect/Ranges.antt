-- ===== src/Core/Effect/Ranges.antt =====
-- Ranges of bytes, and the effect sets that a plan may hold.
use ark_forge.Prelude.{
  ℕ, ◌+◌, ◌-◌, ◌^◌, ◌<◌, ◌≤◌, max, Bool, true, false, ok, refl, ap, ◌∙◌, ltb, leb, lt→ltb,
  Bool-cases, inl, inr, ◌≡◌, ◌↔◌, arith,
}
use ark_forge.Core.Effect.{ByteRange, byte_range, end_exclusive, contains_range, overlaps}

-- A range that is not empty and ends within a `u64`.
pub record IsRange (r : ByteRange) : Type 0 where
  pub filled : 0 < r.length
  pub bounded : r.start + r.length < 2 ^ 64

pub byte_range-IsRange :
    (start length : ℕ) (r : ByteRange)
    → (byte_range start length ≡ ok r) ↔ ((r.start ≡ start) × (r.length ≡ length) × IsRange r)
unfolding byte_range
byte_range-IsRange start length r = (
  λ h. (ground arith, ground arith, record { filled = ground arith; bounded = ground arith }),
  λ (es, el, v). ground (arith, v.filled, v.bounded),
)

-- The byte at `n` is in the range.
pub Within : ℕ → ByteRange → Type 0
Within n r = (r.start ≤ n) × (n < r.start + r.length)

pub end_exclusive-IsRange : (r : ByteRange) → IsRange r → end_exclusive r ≡ ok (r.start + r.length)
unfolding end_exclusive
end_exclusive-IsRange r v = rw (lt→ltb (r.start + r.length) (2 ^ 64) v.bounded) refl

-- Two ranges overlap exactly when some byte is in both.
pub overlaps_iff :
    (a b : ByteRange)
    → IsRange a
    → IsRange b
    → (met : Bool) × (overlaps a b ≡ ok met) × ((met ≡ true) ↔ ((n : ℕ) × Within n a × Within n b))
unfolding overlaps Within
overlaps_iff a b ra rb =
    rw (end_exclusive-IsRange a ra, end_exclusive-IsRange b rb)
      (elim (Bool-cases (ltb a.start (b.start + b.length))) [
        | inl p ↦ (
          ltb b.start (a.start + a.length),
          rw p refl,
          (
            λ h. (
              max a.start b.start,
              (omega arith, ground (arith, ra.filled)),
              (omega arith, ground (arith, rb.filled)),
            ),
            λ (n, wa, wb). ground (arith, wa, wb),
          ),
        )
        | inr p ↦ (false, rw p refl, (λ h. cc, λ (n, wa, wb). ground (arith, wa, wb, p)))
      ])

-- One range contains another exactly when it has all its bytes.
pub contains_range_iff :
    (outer inner : ByteRange)
    → IsRange outer
    → IsRange inner
    → (inside : Bool) × (contains_range outer inner ≡ ok inside)
      × ((inside ≡ true) ↔ ((n : ℕ) → Within n inner → Within n outer))
unfolding contains_range Within
contains_range_iff outer inner ro ri =
    rw (end_exclusive-IsRange outer ro, end_exclusive-IsRange inner ri)
      (elim (Bool-cases (leb outer.start inner.start)) [
        | inl p ↦ (
          leb (inner.start + inner.length) (outer.start + outer.length),
          rw p refl,
          (
            λ h n w. (ground (arith, w), ground (arith, w)),
            λ h.
                let filled = ri.filled in
                let top =
                  h (inner.start + inner.length - 1)
                    (omega (arith, filled), omega (arith, filled)) in
                ground (arith, top, filled),
          ),
        )
        | inr p ↦ (
          false,
          rw p refl,
          (
            λ h. cc,
            λ h.
                let filled = ri.filled in
                let first = h inner.start (omega arith, omega (arith, filled)) in
                ground (arith, first, p),
          ),
        )
      ])

-- `ByteRange::new` gives no range whose end overflows: on two ranges that it accepted, the tests for
-- overlap and containment answer, and they say what bytes the ranges share.
pub byte_range-answers :
    (s l s' l' : ℕ) (a b : ByteRange)
    → byte_range s l ≡ ok a
    → byte_range s' l' ≡ ok b
    → (end_exclusive a ≡ ok (s + l))
      × ((met : Bool) × (overlaps a b ≡ ok met)
          × ((met ≡ true) ↔ ((n : ℕ) × Within n a × Within n b)))
      × ((inside : Bool) × (contains_range a b ≡ ok inside)
          × ((inside ≡ true) ↔ ((n : ℕ) → Within n b → Within n a)))
byte_range-answers s l s' l' a b ha hb =
    let (es, el, ra) = (byte_range-IsRange s l a).0 ha in
    let (es', el', rb) = (byte_range-IsRange s' l' b).0 hb in
    (
      end_exclusive-IsRange a ra ∙ ap ok (ground arith),
      overlaps_iff a b ra rb,
      contains_range_iff a b ra rb,
    )
