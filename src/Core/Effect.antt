-- ===== src/Core/Effect.antt =====
-- crates/arkforge-core/src/effect.rs: what a plan does to a device. A text is the list of its bytes.

pub mod Ranges
pub mod Executable
pub mod Shape
use native.Mathlib.Decide.{ℕ_discrete}
use ark_forge.Prelude.{
  ℕ, ◌+◌, ◌%◌, ◌^◌, Bytes, Text, str, bytes_eq, Bool, true, false, not, ◌&&◌, ◌||◌, Option, none,
  some, List, [], ◌∷◌, ◌++◌, ℤ, ltb, leb, ◌==◌, is_empty, length, any, Result, ok, err, ◌>>=◌,
  map_err, Abort, overflowed, Stop, aborted, refused, ensure, if◌then◌else◌, arith, ◌≡◌, refl,
}
use ark_forge.Core.Digest.Sha256.{Digest}
use ark_forge.Core.Ids.{OpaqueId}

-- `start` and `length` are `u64`.
pub record ByteRange : Type 0 where
  pub start : ℕ
  pub length : ℕ

pub data EffectError : Type 0 where
  empty_range : EffectError
  range_overflow : (start length : ℕ) → EffectError
  invalid_mode_name invalid_agent_stage : Text → EffectError
  unknown_data_impact : List Text → EffectError
  overlapping_effects : (partition : Text) → (first second : ByteRange) → EffectError

-- `ByteRange::new`: `checked_add` fails past the last `u64`.
unfoldable pub byte_range : ℕ → ℕ → Result EffectError ByteRange
byte_range start length =
    if length == 0
    then err empty_range
    else if leb (2 ^ 64) (start + length)
    then err (range_overflow start length)
    else ok (record { start = start; length = length })

-- The sum of two `u64`. The workspace builds with `overflow-checks = true`: past the last `u64` the
-- process aborts.
unfoldable pub end_exclusive : ByteRange → Result Abort ℕ
end_exclusive r =
    if ltb (r.start + r.length) (2 ^ 64) then ok (r.start + r.length) else err overflowed

unfoldable pub contains_range : ByteRange → ByteRange → Result Abort Bool
contains_range outer inner =
    if leb outer.start inner.start
    then (end_exclusive inner >>= λ last. end_exclusive outer >>= λ bound. ok (leb last bound))
    else ok false

unfoldable pub overlaps : ByteRange → ByteRange → Result Abort Bool
overlaps a b = end_exclusive b >>= λ end_b.
    if ltb a.start end_b then (end_exclusive a >>= λ end_a. ok (ltb b.start end_a)) else ok false

pub data BootMetadataField : Type 0 where
  active_slot boot_count updater_command lock_state : BootMetadataField

unfoldable pub field_name : BootMetadataField → Text
field_name active_slot = str "activeSlot"
field_name boot_count = str "bootCount"
field_name updater_command = str "updaterCommand"
field_name lock_state = str "lockState"

pub data TypedValue : Type 0 where
  text_value : Text → TypedValue
  integer_value : ℤ → TypedValue
  bool_value : Bool → TypedValue

abbrev pub DeviceMode : Type 0
DeviceMode = Text

abbrev pub AgentStage : Type 0
AgentStage = Text

unfoldable pub mode_characters : Text → Bool
mode_characters [] = true
mode_characters (c ∷ cs) =
    ((leb b'a' c && leb c b'z') || (leb b'0' c && leb c b'9') || c == b'-') && mode_characters cs

-- `DeviceMode::new`.
unfoldable pub device_mode : Text → Result EffectError DeviceMode
device_mode value =
    if is_empty value || ltb 64 (length value)
    then err (invalid_mode_name value)
    else if mode_characters value
    then ok value
    else err (invalid_mode_name value)

-- `AgentStage::new`.
unfoldable pub agent_stage : Text → Result EffectError AgentStage
agent_stage value =
    if is_empty value || ltb 64 (length value) then err (invalid_agent_stage value) else ok value

pub record MemoryRegion : Type 0 where
  pub base_address : ℕ
  pub length : ℕ

pub data PersistentEffect : Type 0 where
  erase_partition : (partition : OpaqueId) → (range : ByteRange) → PersistentEffect
  write_partition :
      (partition : OpaqueId) → (range : ByteRange) → (content : Digest) → PersistentEffect
  write_raw_region :
      (region : OpaqueId) → (range : ByteRange) → (content : Digest) → PersistentEffect
  replace_partition_table : (layout_digest : Digest) → PersistentEffect
  change_boot_metadata :
      (field : BootMetadataField) → (expected_value : TypedValue) → PersistentEffect

-- `PersistentEffect::partition` and `range`.
unfoldable pub effect_partition : PersistentEffect → Option OpaqueId
effect_partition (erase_partition partition range) = some partition
effect_partition (write_partition partition range content) = some partition
effect_partition _ = none

unfoldable pub effect_range : PersistentEffect → Option ByteRange
effect_range (erase_partition partition range) = some range
effect_range (write_partition partition range content) = some range
effect_range (write_raw_region region range content) = some range
effect_range _ = none

PersistentEffect-discrete : Discrete PersistentEffect
PersistentEffect-discrete = hlevel (ℕ_discrete)

unfoldable pub is_yes {ℓ} : {P : Type ℓ} → Dec P → Bool
is_yes (yes p) = true
is_yes (no np) = false

-- `==` on effects.
unfoldable pub effect_eq : PersistentEffect → PersistentEffect → Bool
unfolding is_yes PersistentEffect-discrete
effect_eq a b = is_yes (PersistentEffect-discrete a b)

pub is_yes_sound {ℓ} : {P : Type ℓ} (d : Dec P) → is_yes d ≡ true → P
unfolding is_yes
is_yes_sound (yes p) h = p
is_yes_sound (no np) h = cc

pub effect_eq_sound : (a b : PersistentEffect) → effect_eq a b ≡ true → a ≡ b
unfolding effect_eq
effect_eq_sound a b h = is_yes_sound (PersistentEffect-discrete a b) h

is_yes_holds {ℓ} : {P : Type ℓ} (d : Dec P) → P → is_yes d ≡ true
unfolding is_yes
is_yes_holds (yes p) h = refl
is_yes_holds (no np) h = absurd (np h)

pub effect_eq_refl : (a : PersistentEffect) → effect_eq a a ≡ true
unfolding effect_eq
effect_eq_refl a = is_yes_holds (PersistentEffect-discrete a a) refl

pub data TransientEffect : Type 0 where
  enter_mode : (from to : DeviceMode) → TransientEffect
  load_ephemeral_agent :
      (stage : AgentStage) → (memory_region : MemoryRegion) → (content : Digest) → TransientEffect
  usb_detach_reattach : (expectation_digest : Digest) → TransientEffect
  reboot : (target_mode : DeviceMode) → TransientEffect

pub data DataImpactState : Type 0 where
  preserved overwritten unknown : DataImpactState

unfoldable pub impact_name : DataImpactState → Text
impact_name preserved = str "preserved"
impact_name overwritten = str "overwritten"
impact_name unknown = str "unknown"

unfoldable pub is_unknown : DataImpactState → Bool
is_unknown unknown = true
is_unknown _ = false

pub record DataImpact : Type 0 where
  pub userdata : DataImpactState
  pub calibration : DataImpactState
  pub non_volatile_config : DataImpactState
  pub secure_storage : DataImpactState

abbrev pub all_unknown : DataImpact
all_unknown = record {
  userdata = unknown;
  calibration = unknown;
  non_volatile_config = unknown;
  secure_storage = unknown;
}

unfoldable pub axis : Text → DataImpactState → List Text
axis name state = if is_unknown state then name ∷ [] else []

unfoldable pub unknown_axes : DataImpact → List Text
unknown_axes d =
    axis (str "userdata") d.userdata
    ++ (axis (str "calibration") d.calibration
        ++ (axis (str "nonVolatileConfig") d.non_volatile_config
            ++ axis (str "secureStorage") d.secure_storage))

pub record EffectSet : Type 0 where
  pub persistent : List PersistentEffect
  pub transient : List TransientEffect
  pub data_impact : DataImpact

abbrev pub all_preserved : DataImpact
all_preserved = record {
  userdata = preserved;
  calibration = preserved;
  non_volatile_config = preserved;
  secure_storage = preserved;
}

abbrev pub read_only_effects : EffectSet
read_only_effects = record { persistent = []; transient = []; data_impact = all_preserved }

-- `EffectSet::is_destructive`.
unfoldable pub is_destructive : EffectSet → Bool
is_destructive e = not (is_empty e.persistent)

-- Two effects on one partition whose ranges overlap.
unfoldable pub clash :
    Option OpaqueId
    → Option OpaqueId
    → Option ByteRange
    → Option ByteRange
    → Result (Stop EffectError) (Unit {0})
clash (some left) (some right) (some first) (some second) =
    if bytes_eq left right
    then (map_err aborted (overlaps first second) >>= λ met.
        if met then err (refused (overlapping_effects left first second)) else ok tt)
    else ok tt
clash _ _ _ _ = ok tt

unfoldable pub check_pair :
    PersistentEffect → PersistentEffect → Result (Stop EffectError) (Unit {0})
check_pair left right =
    clash (effect_partition left) (effect_partition right) (effect_range left) (effect_range right)

-- The inner and the outer loop of `validate_executable`.
unfoldable pub check_against :
    PersistentEffect → List PersistentEffect → Result (Stop EffectError) (Unit {0})
check_against left [] = ok tt
check_against left (right ∷ rest) = check_pair left right >>= λ _. check_against left rest

unfoldable pub check_pairs : List PersistentEffect → Result (Stop EffectError) (Unit {0})
check_pairs [] = ok tt
check_pairs (left ∷ rest) = check_against left rest >>= λ _. check_pairs rest

unfoldable pub validate_executable : EffectSet → Result (Stop EffectError) (Unit {0})
validate_executable e =
    ensure (is_empty (unknown_axes e.data_impact))
      (refused (unknown_data_impact (unknown_axes e.data_impact)))
    >>= λ _. check_pairs e.persistent
