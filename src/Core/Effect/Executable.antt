-- ===== src/Core/Effect/Executable.antt =====
-- Which effect sets may stand in an executable plan.
use ark_forge.Prelude.{
  str, Text, subst, sym, ap, ◌∙◌, ℕ, bytes_eq, bytes_eq_iff, Bool, true, false, List, [], ◌∷◌, ◌++◌,
  Option, none, some, is_empty, ok, >>=-eq-ok, ensure-eq-ok, ◌≡◌, ◌≢◌, refl, ◌↔◌, All, Bool-cases,
  inl, inr,
}
use mathlib.Core.List.{append-nil}
use ark_forge.Core.Ids.{OpaqueId}
use ark_forge.Core.Effect.{
  ByteRange, PersistentEffect, effect_partition, effect_range, DataImpactState, DataImpact, unknown,
  preserved, overwritten, is_unknown, axis, unknown_axes, EffectSet, clash, check_pair,
  check_against, check_pairs, validate_executable,
}
use ark_forge.Core.Effect.Ranges.{IsRange, Within, overlaps_iff}

-- Every axis is settled.
pub record IsSettled (d : DataImpact) : Type 0 where
  pub userdata_known : d.userdata ≢ unknown
  pub calibration_known : d.calibration ≢ unknown
  pub config_known : d.non_volatile_config ≢ unknown
  pub storage_known : d.secure_storage ≢ unknown

-- No byte of one partition is in the ranges of both effects.
pub Apart : PersistentEffect → PersistentEffect → Type 0
Apart left right =
    (p : OpaqueId) (a b : ByteRange) (n : ℕ)
    → effect_partition left ≡ some p
    → effect_partition right ≡ some p
    → effect_range left ≡ some a
    → effect_range right ≡ some b
    → Within n a
    → Within n b
    → ⊥

abbrev pub AllApart : List PersistentEffect → Type 0
AllApart [] = Unit {0}
AllApart (left ∷ rest) = All (Apart left) rest × AllApart rest

-- The range that the effect names, if any, is one that `ByteRange::new` gives.
abbrev pub HasRange : PersistentEffect → Type 0
HasRange e = (r : ByteRange) → effect_range e ≡ some r → IsRange r

some_injective {ℓ} : {A : Type ℓ} {x y : A} → some x ≡ some y → x ≡ y
some_injective p = cc

clash_iff :
    (left right : Option OpaqueId) (first second : Option ByteRange)
    → ((r : ByteRange) → first ≡ some r → IsRange r)
    → ((r : ByteRange) → second ≡ some r → IsRange r)
    → (clash left right first second ≡ ok tt) ↔ (
        (p : OpaqueId) (a b : ByteRange) (n : ℕ)
        → left ≡ some p
        → right ≡ some p
        → first ≡ some a
        → second ≡ some b
        → Within n a
        → Within n b
        → ⊥)
unfolding clash
clash_iff none right first second va vb = (λ h p a b n e. cc, λ h. refl)
clash_iff (some l) none first second va vb = (λ h p a b n e e'. cc, λ h. refl)
clash_iff (some l) (some r) none second va vb = (λ h p a b n e e' e1. cc, λ h. refl)
clash_iff (some l) (some r) (some a) none va vb = (λ h p a b n e e' e1 e2. cc, λ h. refl)
clash_iff (some l) (some r) (some a) (some b) va vb =
    let (met, answered, shared) = overlaps_iff a b (va a refl) (vb b refl) in
    let same = bytes_eq_iff l r in
    rw answered (elim (Bool-cases (bytes_eq l r)) [
      | inr p ↦ rw p (
        λ h q a' b' n e e'. absurd (contrary p (same.1 (some_injective (e ∙ sym e')))),
        λ h. refl,
      )
      | inl p ↦ elim (Bool-cases met) [
        | inl m ↦
            rw (p, m)
              (
                λ h. cc,
                λ h.
                    let (n, wa, wb) = shared.0 m in
                    absurd (h l a b n refl (ap some (sym (same.0 p))) refl refl wa wb),
              )
        | inr m ↦
            rw (p, m)
              (
                λ h q a' b' n e e' e1 e2 wa wb. contrary m (
                    shared.1 (
                      n,
                      subst (Within n) (some_injective (sym e1)) wa,
                      subst (Within n) (some_injective (sym e2)) wb,
                    )),
                λ h. refl,
              )
      ]
    ])
  where
    contrary : {x : Bool} → x ≡ false → x ≡ true → ⊥
    contrary p q = cc

check_pair_iff :
    (left right : PersistentEffect)
    → HasRange left
    → HasRange right
    → (check_pair left right ≡ ok tt) ↔ Apart left right
unfolding check_pair Apart
check_pair_iff left right hl hr =
    clash_iff (effect_partition left) (effect_partition right) (effect_range left)
      (effect_range right) hl hr

check_against_iff :
    (left : PersistentEffect) (rest : List PersistentEffect)
    → HasRange left
    → All HasRange rest
    → (check_against left rest ≡ ok tt) ↔ All (Apart left) rest
unfolding check_against
check_against_iff left [] hl hr = (λ h. tt, λ h. refl)
check_against_iff left (right ∷ rest) hl hr =
    let (to, from) = check_pair_iff left right hl hr.0 in
    let (all_to, all_from) = check_against_iff left rest hl hr.1 in
    (
      λ h. let (u, p, q) = >>=-eq-ok (check_pair left right) _ h in (to p, all_to q),
      λ h. rw (from h.0) (all_from h.1),
    )

check_pairs_iff :
    (es : List PersistentEffect) → All HasRange es → (check_pairs es ≡ ok tt) ↔ AllApart es
unfolding check_pairs
check_pairs_iff [] h = (λ k. tt, λ k. refl)
check_pairs_iff (left ∷ rest) h =
    let (to, from) = check_against_iff left rest h.0 h.1 in
    let (all_to, all_from) = check_pairs_iff rest h.1 in
    (
      λ k. let (u, p, q) = >>=-eq-ok (check_against left rest) _ k in (to p, all_to q),
      λ k. rw (from k.0) (all_from k.1),
    )

axis_iff :
    (name : Text) (state : DataImpactState) (rest : List Text)
    → (is_empty (axis name state ++ rest) ≡ true) ↔ ((state ≢ unknown) × (is_empty rest ≡ true))
unfolding axis is_unknown
axis_iff name preserved rest = (λ h. (λ e. cc, h), λ h. h.1)
axis_iff name overwritten rest = (λ h. (λ e. cc, h), λ h. h.1)
axis_iff name unknown rest = (λ h. cc, λ h. absurd (h.0 refl))

unknown_axes_iff : (d : DataImpact) → (is_empty (unknown_axes d) ≡ true) ↔ IsSettled d
unfolding unknown_axes
unknown_axes_iff d =
    let storage = axis (str "secureStorage") d.secure_storage in
    let (to4, from4) = axis_iff (str "secureStorage") d.secure_storage [] in
    let (to3, from3) = axis_iff (str "nonVolatileConfig") d.non_volatile_config storage in
    let (to2, from2) =
      axis_iff (str "calibration") d.calibration
        (axis (str "nonVolatileConfig") d.non_volatile_config ++ storage) in
    let (to1, from1) = axis_iff (str "userdata") d.userdata (
      axis (str "calibration") d.calibration
      ++ (axis (str "nonVolatileConfig") d.non_volatile_config ++ storage)) in
    (
      λ h.
          let (k1, h1) = to1 h in
          let (k2, h2) = to2 h1 in
          let (k3, h3) = to3 h2 in
          let (k4, h4) = to4 (rw (append-nil storage) h3) in
          record {
            userdata_known = k1;
            calibration_known = k2;
            config_known = k3;
            storage_known = k4;
          },
      λ s. from1 (
        s.userdata_known,
        from2 (
          s.calibration_known,
          from3 (s.config_known, rw (append-nil storage) at (from4 (s.storage_known, refl))),
        ),
      ),
    )

-- For effects whose ranges, where they name one, are not empty and end within a `u64`: an effect set
-- may stand in an executable plan exactly when every axis of its data impact is settled, and no byte
-- of a partition is in the ranges of two of its effects.
pub validate_executable_iff :
    (e : EffectSet)
    → All HasRange e.persistent
    → (validate_executable e ≡ ok tt) ↔ (IsSettled e.data_impact × AllApart e.persistent)
unfolding validate_executable
validate_executable_iff e ranges =
    let (to, from) = unknown_axes_iff e.data_impact in
    let (pairs_to, pairs_from) = check_pairs_iff e.persistent ranges in
    (
      λ h.
          let (p, q) = ensure-eq-ok (is_empty (unknown_axes e.data_impact)) _ _ h in
          (to p, pairs_to q),
      λ h. rw (from h.0) (pairs_from h.1),
    )
