-- ===== src/Core/Digest/Sha256/Shape.antt =====
-- A digest is 32 bytes.
use ark_forge.Prelude.{IsBytes, ◌≡◌, refl, arith, length}
use ark_forge.Core.Digest.Sha256.{Words, Hasher, digest_bytes, finalize}

digest_bytes-IsBytes : (s : Words) → IsBytes (digest_bytes s)
unfolding digest_bytes
digest_bytes-IsBytes s = omega arith

pub finalize-IsBytes : (r : Hasher) → IsBytes (finalize r)
unfolding finalize
finalize-IsBytes r = digest_bytes-IsBytes _

pub length-finalize : (r : Hasher) → length (finalize r) ≡ 32
unfolding finalize
length-finalize r = refl
