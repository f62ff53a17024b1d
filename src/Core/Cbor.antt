-- ===== src/Core/Cbor.antt =====
-- crates/arkforge-core/src/digest/cbor.rs: the value model and its errors.
pub mod Encode
pub mod Decode
mod Head
pub mod Written
pub mod Ascii
mod Placed
mod Kinds
pub mod Arrange
pub mod Order
mod Payload
pub mod Canonical
pub mod RoundTrip
use ark_forge.Prelude.{ℕ, Bytes, Text, Bool, List, [], ◌∷◌, ℤ, pos, negsuc}

-- `Array` and `Map` hold vectors of values: the lists are members of the block.
mutual
  pub data CborValue : Type 0 where
    unsigned : ℕ → CborValue
    negative : ℤ → CborValue
    bytes : Bytes → CborValue
    text : Text → CborValue
    array : CborValues → CborValue
    map : CborEntries → CborValue
    bool : Bool → CborValue
    null : CborValue

  pub data CborValues : Type 0 where
    nil : CborValues
    cons : CborValue → CborValues → CborValues

  pub data CborEntries : Type 0 where
    end : CborEntries
    entry : CborValue → CborValue → CborEntries → CborEntries

pub data CborError : Type 0 where
  model_violation : Text → CborError
  negative_not_negative : ℤ → CborError
  duplicate_map_key : Bytes → CborError
  truncated : CborError
  non_canonical_head : CborError
  unsupported_major_type : ℕ → CborError
  unsupported_simple_value : ℕ → CborError
  indefinite_length : CborError
  unsorted_map_keys : CborError
  invalid_utf8 : CborError
  trailing_bytes : ℕ → CborError
  depth_limit : CborError
