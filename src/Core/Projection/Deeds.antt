-- ===== src/Core/Projection/Deeds.antt =====
-- What a step does, described without the code that compares it with an effect.
use ark_forge.Prelude.{
  ◌+◌, ◌≤◌, ℕ, Text, bytes_eq_iff, Bool, true, false, ◌&&◌, Option, none, some, Result, ok, Abort,
  >>=-eq-ok, Bool-cases, inl, inr, leb, ◌≡◌, refl, sym, ap, ◌∙◌, arith,
}
use ark_forge.Core.Digest.Sha256.{Digest}
use ark_forge.Core.Ids.{OpaqueId}
use ark_forge.Core.Effect.{
  ByteRange, end_exclusive, contains_range, DeviceMode, AgentStage, MemoryRegion, PersistentEffect,
  write_partition, erase_partition, write_raw_region, TransientEffect, enter_mode,
}
use ark_forge.Core.Step.{
  FlashStepKind, write_target, erase_target, ensure_mode, PublicFlashStep, SemanticTarget,
  partition_target, raw_region_target, is_write,
}
use ark_forge.Core.Projection.{PrivateActionRecord}
use ark_forge.Core.Projection.Coverage.{
  is_erase, is_some_of, range_allows, match_range, persistent_effect_matches, transient_matches,
  transient_effect_matches,
}

-- The action names no range, or one within the range.
pub data IsInside : Option ByteRange → ByteRange → Type 0 where
  unranged : {r : ByteRange} → IsInside none r
  inside :
      {q r : ByteRange}
      → r.start ≤ q.start
      → q.start + q.length ≤ r.start + r.length
      → IsInside (some q) r

-- The step, by the action, has the lasting effect: its kind, its target, its content, and the range
-- of the action say so.
pub data Does (s : PublicFlashStep) (primary : PrivateActionRecord)
    : PersistentEffect → Type 0 where
  writes :
      {p : OpaqueId} {r : ByteRange} {c : Digest}
      → s.kind ≡ write_target
      → s.semantic_target ≡ some (partition_target p)
      → s.content_digest ≡ some c
      → IsInside primary.declared_range r
      → Does s primary (write_partition p r c)
  erases :
      {p : OpaqueId} {r : ByteRange}
      → s.kind ≡ erase_target
      → s.semantic_target ≡ some (partition_target p)
      → IsInside primary.declared_range r
      → Does s primary (erase_partition p r)
  writes_raw :
      {p : OpaqueId} {r : ByteRange} {c : Digest}
      → s.kind ≡ write_target
      → s.semantic_target ≡ some (raw_region_target p)
      → s.content_digest ≡ some c
      → IsInside primary.declared_range r
      → Does s primary (write_raw_region p r c)

-- The step has the passing effect.
pub data Causes (s : PublicFlashStep) : TransientEffect → Type 0 where
  enters :
      {from to : DeviceMode}
      → s.kind ≡ ensure_mode
      → s.expected_mode_before ≡ some from
      → s.expected_mode_after ≡ some to
      → Causes s (enter_mode from to)
  reboots :
      {mode : DeviceMode}
      → s.kind ≡ FlashStepKind.reboot
      → s.expected_mode_after ≡ some mode
      → Causes s (TransientEffect.reboot mode)
  loads :
      {stage : AgentStage} {region : MemoryRegion} {content : Digest}
      → s.kind ≡ FlashStepKind.load_ephemeral_agent
      → Causes s (TransientEffect.load_ephemeral_agent stage region content)

ok_true : {b : Bool} → ◌≡◌ {A = Result Abort Bool} (ok b) (ok true) → b ≡ true
ok_true p = cc

is_write_sound : (k : FlashStepKind) → is_write k ≡ true → k ≡ write_target
unfolding is_write
is_write_sound k h = ground arith

is_erase_sound : (k : FlashStepKind) → is_erase k ≡ true → k ≡ erase_target
unfolding is_erase
is_erase_sound k h = ground arith

is_some_of_sound : (o : Option Text) (t : Text) → is_some_of o t ≡ true → o ≡ some t
unfolding is_some_of
is_some_of_sound none t h = cc
is_some_of_sound (some u) t h = ap some ((bytes_eq_iff u t).0 h)

end_exclusive_sound : (r : ByteRange) (n : ℕ) → end_exclusive r ≡ ok n → n ≡ r.start + r.length
unfolding end_exclusive
end_exclusive_sound r n h = ground arith

contains_range_sound : (r q : ByteRange) → contains_range r q ≡ ok true → IsInside (some q) r
unfolding contains_range
contains_range_sound r q h = elim (Bool-cases (leb r.start q.start)) [
  | inl p ↦
      let (last, e1, h1) = >>=-eq-ok (end_exclusive q) _ (rw p at h) in
      let (bound, e2, h2) = >>=-eq-ok (end_exclusive r) _ h1 in
      let l = end_exclusive_sound q last e1 in
      let b = end_exclusive_sound r bound e2 in
      let fits = ok_true h2 in inside (ground (arith, p)) (ground (arith, fits, l, b))
  | inr p ↦ let no : ◌≡◌ {A = Result Abort Bool} (ok false) (ok true) = rw p at h in cc
]

match_range_sound :
    (b : Bool) (q : Option ByteRange) (r : ByteRange)
    → match_range b q r ≡ ok true
    → (b ≡ true) × IsInside q r
unfolding match_range range_allows
match_range_sound true none r h = (refl, unranged)
match_range_sound true (some q) r h = (refl, contains_range_sound r q h)
match_range_sound false q r h = cc

both : (a b : Bool) → (a && b) ≡ true → (a ≡ true) × (b ≡ true)
both true b h = (refl, h)
both false b h = cc

pub matches-Does :
    (e : PersistentEffect) (s : PublicFlashStep) (target : SemanticTarget)
    (primary : PrivateActionRecord)
    → s.semantic_target ≡ some target
    → persistent_effect_matches e s target primary ≡ ok true
    → Does s primary e
unfolding persistent_effect_matches
matches-Does (write_partition p r c) s (partition_target id) primary t h =
    let (b, within) = match_range_sound _ primary.declared_range r h in
    let (b1, same) = both (is_write s.kind && is_some_of s.content_digest c) _ b in
    let (kind, content) = both (is_write s.kind) _ b1 in
    writes (is_write_sound s.kind kind)
      (t ∙ ap (λ x. some (partition_target x)) (sym ((bytes_eq_iff p id).0 same)))
      (is_some_of_sound s.content_digest c content) within
matches-Does (erase_partition p r) s (partition_target id) primary t h =
    let (b, within) = match_range_sound _ primary.declared_range r h in
    let (kind, same) = both (is_erase s.kind) _ b in
    erases (is_erase_sound s.kind kind)
      (t ∙ ap (λ x. some (partition_target x)) (sym ((bytes_eq_iff p id).0 same))) within
matches-Does (write_raw_region p r c) s (raw_region_target id) primary t h =
    let (b, within) = match_range_sound _ primary.declared_range r h in
    let (b1, same) = both (is_write s.kind && is_some_of s.content_digest c) _ b in
    let (kind, content) = both (is_write s.kind) _ b1 in
    writes_raw (is_write_sound s.kind kind)
      (t ∙ ap (λ x. some (raw_region_target x)) (sym ((bytes_eq_iff p id).0 same)))
      (is_some_of_sound s.content_digest c content) within
matches-Does e s target primary t h = cc

kind-Causes :
    (e : TransientEffect) (s : PublicFlashStep) (kind : FlashStepKind)
    → s.kind ≡ kind
    → transient_matches e kind s ≡ true
    → Causes s e
unfolding transient_matches
kind-Causes (enter_mode from to) s ensure_mode k h =
    let (before, after) = both (is_some_of s.expected_mode_before from) _ h in
    enters k (is_some_of_sound s.expected_mode_before from before)
      (is_some_of_sound s.expected_mode_after to after)
kind-Causes (TransientEffect.reboot mode) s FlashStepKind.reboot k h =
    reboots k (is_some_of_sound s.expected_mode_after mode h)
kind-Causes (TransientEffect.load_ephemeral_agent stage region content) s
      FlashStepKind.load_ephemeral_agent k h =
    loads k
kind-Causes e s kind k h = cc

pub matches-Causes :
    (e : TransientEffect) (s : PublicFlashStep)
    → ◌≡◌ {A = Result Abort Bool} (ok (transient_effect_matches s e)) (ok true)
    → Causes s e
unfolding transient_effect_matches
matches-Causes e s h = kind-Causes e s s.kind refl (ok_true h)
