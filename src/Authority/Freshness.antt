-- ===== src/Authority/Freshness.antt =====
-- `evaluate_freshness`: the facts read for admission against the facts just before dispatch.
use ark_forge.Prelude.{
  ℕ, ◌-◌, ◌≤◌, ◌<◌, Bool, true, false, not, Option, none, some, ◌≡◌, refl, ◌↔◌, ◌⊎◌, inl, inr, leb,
  bytes_eq, bytes_eq_iff, if◌then◌else◌, arith,
}
use ark_forge.Core.Digest.Sha256.{Digest}

pub record StepAdmissionSnapshot : Type 0 where
  pub captured_at_epoch_ms : ℕ
  pub freshness_deadline_epoch_ms : ℕ
  pub device_facts_digest : Digest
  pub transport_session_digest : Option Digest
  pub provider_facts_digest : Digest
  pub toolchain_facts_digest : Digest
  pub artifact_facts_digest : Digest

pub record CurrentFacts : Type 0 where
  pub now_epoch_ms : ℕ
  pub device_facts_digest : Digest
  pub transport_session_digest : Option Digest
  pub saw_detach_since_snapshot : Bool
  pub provider_facts_digest : Digest
  pub toolchain_facts_digest : Digest
  pub artifact_facts_digest : Digest

pub data ContinuityBreak : Type 0 where
  session_changed detach_observed device_facts_changed : ContinuityBreak
  provider_facts_changed toolchain_facts_changed artifact_facts_changed : ContinuityBreak

pub data FreshnessVerdict : Type 0 where
  fresh : FreshnessVerdict
  stale_snapshot : ℕ → FreshnessVerdict
  continuity_broken : ContinuityBreak → FreshnessVerdict

unfoldable pub session_eq : Option Digest → Option Digest → Bool
session_eq none none = true
session_eq none (some b) = false
session_eq (some a) none = false
session_eq (some a) (some b) = bytes_eq a b

session_eq_iff : (a b : Option Digest) → (session_eq a b ≡ true) ↔ (a ≡ b)
unfolding session_eq
session_eq_iff none none = (λ h. refl, λ h. refl)
session_eq_iff none (some b) = (λ h. cc, λ h. cc)
session_eq_iff (some a) none = (λ h. cc, λ h. cc)
session_eq_iff (some a) (some b) =
    (λ h. ground (arith, bytes_eq_iff a b), λ h. ground (arith, bytes_eq_iff a b))

-- `saturating_sub` is the truncated subtraction.
unfoldable pub evaluate_freshness : StepAdmissionSnapshot → CurrentFacts → FreshnessVerdict
evaluate_freshness s c =
    if c.saw_detach_since_snapshot
    then continuity_broken detach_observed
    else if not (session_eq s.transport_session_digest c.transport_session_digest)
    then continuity_broken session_changed
    else if not (bytes_eq s.device_facts_digest c.device_facts_digest)
    then continuity_broken device_facts_changed
    else if not (bytes_eq s.provider_facts_digest c.provider_facts_digest)
    then continuity_broken provider_facts_changed
    else if not (bytes_eq s.toolchain_facts_digest c.toolchain_facts_digest)
    then continuity_broken toolchain_facts_changed
    else if not (bytes_eq s.artifact_facts_digest c.artifact_facts_digest)
    then continuity_broken artifact_facts_changed
    else if leb s.freshness_deadline_epoch_ms c.now_epoch_ms
    then stale_snapshot (c.now_epoch_ms - s.captured_at_epoch_ms)
    else fresh

unfoldable pub permits_dispatch : FreshnessVerdict → Bool
permits_dispatch fresh = true
permits_dispatch _ = false

unfoldable pub is_retryable_without_device_blame : FreshnessVerdict → Bool
is_retryable_without_device_blame (stale_snapshot elapsed) = true
is_retryable_without_device_blame _ = false

-- The device under the handle is the one that was admitted.
pub record IsContinuous (s : StepAdmissionSnapshot) (c : CurrentFacts) : Type 0 where
  pub attached : c.saw_detach_since_snapshot ≡ false
  pub session : s.transport_session_digest ≡ c.transport_session_digest
  pub device : s.device_facts_digest ≡ c.device_facts_digest
  pub provider : s.provider_facts_digest ≡ c.provider_facts_digest
  pub toolchain : s.toolchain_facts_digest ≡ c.toolchain_facts_digest
  pub artifact : s.artifact_facts_digest ≡ c.artifact_facts_digest

module _ (s : StepAdmissionSnapshot) (c : CurrentFacts) where
  by_clock :
      IsContinuous s c
      → evaluate_freshness s c ≡ (
          if leb s.freshness_deadline_epoch_ms c.now_epoch_ms
          then stale_snapshot (c.now_epoch_ms - s.captured_at_epoch_ms)
          else fresh)
  unfolding evaluate_freshness
  by_clock k = simp (
    k.attached,
    (session_eq_iff _ _).1 k.session,
    (bytes_eq_iff _ _).1 k.device,
    (bytes_eq_iff _ _).1 k.provider,
    (bytes_eq_iff _ _).1 k.toolchain,
    (bytes_eq_iff _ _).1 k.artifact,
  )

  continuous :
      (evaluate_freshness s c ≡ fresh) ⊎ ((e : ℕ) × (evaluate_freshness s c ≡ stale_snapshot e))
      → IsContinuous s c
  unfolding evaluate_freshness
  continuous h = ground (
    arith,
    session_eq_iff s.transport_session_digest c.transport_session_digest,
    bytes_eq_iff s.device_facts_digest c.device_facts_digest,
    bytes_eq_iff s.provider_facts_digest c.provider_facts_digest,
    bytes_eq_iff s.toolchain_facts_digest c.toolchain_facts_digest,
    bytes_eq_iff s.artifact_facts_digest c.artifact_facts_digest,
  )

  -- Dispatch may proceed exactly when no detach was seen, the session and all four fact digests are
  -- those of the snapshot, and the deadline has not been reached.
  pub fresh_iff :
      (permits_dispatch (evaluate_freshness s c) ≡ true)
      ↔ (IsContinuous s c × (c.now_epoch_ms < s.freshness_deadline_epoch_ms))
  unfolding permits_dispatch
  fresh_iff = (
    λ h.
        let e : evaluate_freshness s c ≡ fresh = ground arith in
        let k = continuous (inl e) in (k, ground (arith, by_clock k, e)),
    λ (k, d). ground (arith, by_clock k),
  )

  -- A snapshot is stale, and may be taken again with no blame on the device, exactly when
  -- continuity holds and the deadline has been reached: a slow host is never a device that moved.
  pub stale_iff :
      (is_retryable_without_device_blame (evaluate_freshness s c) ≡ true)
      ↔ (IsContinuous s c × (s.freshness_deadline_epoch_ms ≤ c.now_epoch_ms))
  unfolding is_retryable_without_device_blame
  stale_iff = (
    λ h.
        let e : (e : ℕ) × (evaluate_freshness s c ≡ stale_snapshot e) = ground arith in
        let k = continuous (inr e) in (k, ground (arith, by_clock k, e.1)),
    λ (k, d). ground (arith, by_clock k),
  )
