-- ===== src/Core/Effect/Shape.antt =====
-- The CBOR shapes of effects, which plans are digested by.
use ark_forge.Prelude.{str, List, [], ◌∷◌, ℤ, pos, negsuc, Result}
use ark_forge.Core.Cbor.{
  CborValue, CborValues, CborError, text, bytes, unsigned, negative, array, bool, nil, cons,
}
use ark_forge.Core.Binding.{cbor_map}
use ark_forge.Core.Digest.{digest_canonical, effect_set}
use ark_forge.Core.Digest.Sha256.{Digest}
use ark_forge.Core.Effect.{
  ByteRange, field_name, TypedValue, text_value, integer_value, bool_value, MemoryRegion,
  PersistentEffect, erase_partition, write_partition, write_raw_region, replace_partition_table,
  change_boot_metadata, TransientEffect, enter_mode, load_ephemeral_agent, usb_detach_reattach,
  reboot, impact_name, DataImpact, EffectSet,
}

unfoldable pub range_cbor : ByteRange → CborValue
range_cbor r = cbor_map (("start", unsigned r.start) ∷ ("length", unsigned r.length) ∷ [])

-- `CborValue::integer`.
unfoldable pub integer_cbor : ℤ → CborValue
integer_cbor (pos n) = unsigned n
integer_cbor (negsuc n) = negative (negsuc n)

unfoldable pub typed_cbor : TypedValue → CborValue
typed_cbor (text_value t) = cbor_map (("text", text t) ∷ [])
typed_cbor (integer_value z) = cbor_map (("integer", integer_cbor z) ∷ [])
typed_cbor (bool_value b) = cbor_map (("bool", bool b) ∷ [])

unfoldable pub region_cbor : MemoryRegion → CborValue
region_cbor m =
    cbor_map (("baseAddress", unsigned m.base_address) ∷ ("length", unsigned m.length) ∷ [])

unfoldable pub persistent_cbor : PersistentEffect → CborValue
persistent_cbor (erase_partition partition range) = cbor_map (
    ("kind", text (str "erasePartition"))
    ∷ ("partition", text partition)
    ∷ ("range", range_cbor range)
    ∷ [])
persistent_cbor (write_partition partition range content) = cbor_map (
    ("kind", text (str "writePartition"))
    ∷ ("partition", text partition)
    ∷ ("range", range_cbor range)
    ∷ ("content", bytes content)
    ∷ [])
persistent_cbor (write_raw_region region range content) = cbor_map (
    ("kind", text (str "writeRawRegion"))
    ∷ ("region", text region)
    ∷ ("range", range_cbor range)
    ∷ ("content", bytes content)
    ∷ [])
persistent_cbor (replace_partition_table layout_digest) =
    cbor_map
      (("kind", text (str "replacePartitionTable")) ∷ ("layoutDigest", bytes layout_digest) ∷ [])
persistent_cbor (change_boot_metadata field expected_value) = cbor_map (
    ("kind", text (str "changeBootMetadata"))
    ∷ ("field", text (field_name field))
    ∷ ("expectedValue", typed_cbor expected_value)
    ∷ [])

unfoldable pub transient_cbor : TransientEffect → CborValue
transient_cbor (enter_mode from to) =
    cbor_map (("kind", text (str "enterMode")) ∷ ("from", text from) ∷ ("to", text to) ∷ [])
transient_cbor (load_ephemeral_agent stage memory_region content) = cbor_map (
    ("kind", text (str "loadEphemeralAgent"))
    ∷ ("stage", text stage)
    ∷ ("memoryRegion", region_cbor memory_region)
    ∷ ("content", bytes content)
    ∷ [])
transient_cbor (usb_detach_reattach expectation_digest) = cbor_map (
    ("kind", text (str "usbDetachReattach")) ∷ ("expectationDigest", bytes expectation_digest) ∷ [])
transient_cbor (reboot target_mode) =
    cbor_map (("kind", text (str "reboot")) ∷ ("targetMode", text target_mode) ∷ [])

unfoldable pub impact_cbor : DataImpact → CborValue
impact_cbor d = cbor_map (
    ("userdata", text (impact_name d.userdata))
    ∷ ("calibration", text (impact_name d.calibration))
    ∷ ("nonVolatileConfig", text (impact_name d.non_volatile_config))
    ∷ ("secureStorage", text (impact_name d.secure_storage))
    ∷ [])

-- `.iter().map(|e| e.to_cbor()).collect()`.
unfoldable pub collect_cbor {ℓ} : {A : Type ℓ} → (A → CborValue) → List A → CborValues
collect_cbor shape [] = nil
collect_cbor shape (x ∷ xs) = cons (shape x) (collect_cbor shape xs)

unfoldable pub effect_set_cbor : EffectSet → CborValue
effect_set_cbor e = cbor_map (
    ("persistent", array (collect_cbor persistent_cbor e.persistent))
    ∷ ("transient", array (collect_cbor transient_cbor e.transient))
    ∷ ("dataImpact", impact_cbor e.data_impact)
    ∷ [])

-- `EffectSet::digest`.
unfoldable pub effect_set_digest : EffectSet → Result CborError Digest
effect_set_digest e = digest_canonical effect_set (effect_set_cbor e)
