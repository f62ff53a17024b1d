-- ===== src/Core/Digest/Sha256.antt =====
-- crates/arkforge-core/src/digest/sha256.rs: the streaming SHA-256 state.
pub mod Stream
pub mod Shape
use Prim.Native.Nat.{bit_and, bit_xor}
use ark_forge.Prelude.{
  ℕ, zero, suc, ◌+◌, ◌-◌, ◌*◌, ◌/◌, ◌%◌, ◌^◌, min, Bytes, Bool, true, false, List, [], ◌∷◌, ◌++◌,
  map, ltb, leb, ◌==◌, if◌then◌else◌, is_empty, length, take, drop, replicate,
}

-- `Sha256Digest`: 32 bytes.
abbrev pub Digest : Type 0
Digest = Bytes

abbrev word : ℕ
word = 0x1_0000_0000

abbrev add32 : ℕ → ℕ → ℕ
add32 a b = (a + b) % word

abbrev rotate_right : ℕ → ℕ → ℕ
rotate_right x n = x / 2 ^ n + x % 2 ^ n * 2 ^ (32 - n)

abbrev not32 : ℕ → ℕ
not32 x = word - 1 - x

-- The table `K`.
round_constants : List ℕ
round_constants =
    0x428a2f98 ∷ 0x71374491 ∷ 0xb5c0fbcf ∷ 0xe9b5dba5 ∷ 0x3956c25b ∷ 0x59f111f1 ∷ 0x923f82a4
    ∷ 0xab1c5ed5 ∷ 0xd807aa98 ∷ 0x12835b01 ∷ 0x243185be ∷ 0x550c7dc3 ∷ 0x72be5d74 ∷ 0x80deb1fe
    ∷ 0x9bdc06a7 ∷ 0xc19bf174 ∷ 0xe49b69c1 ∷ 0xefbe4786 ∷ 0x0fc19dc6 ∷ 0x240ca1cc ∷ 0x2de92c6f
    ∷ 0x4a7484aa ∷ 0x5cb0a9dc ∷ 0x76f988da ∷ 0x983e5152 ∷ 0xa831c66d ∷ 0xb00327c8 ∷ 0xbf597fc7
    ∷ 0xc6e00bf3 ∷ 0xd5a79147 ∷ 0x06ca6351 ∷ 0x14292967 ∷ 0x27b70a85 ∷ 0x2e1b2138 ∷ 0x4d2c6dfc
    ∷ 0x53380d13 ∷ 0x650a7354 ∷ 0x766a0abb ∷ 0x81c2c92e ∷ 0x92722c85 ∷ 0xa2bfe8a1 ∷ 0xa81a664b
    ∷ 0xc24b8b70 ∷ 0xc76c51a3 ∷ 0xd192e819 ∷ 0xd6990624 ∷ 0xf40e3585 ∷ 0x106aa070 ∷ 0x19a4c116
    ∷ 0x1e376c08 ∷ 0x2748774c ∷ 0x34b0bcb5 ∷ 0x391c0cb3 ∷ 0x4ed8aa4a ∷ 0x5b9cca4f ∷ 0x682e6ff3
    ∷ 0x748f82ee ∷ 0x78a5636f ∷ 0x84c87814 ∷ 0x8cc70208 ∷ 0x90befffa ∷ 0xa4506ceb ∷ 0xbef9a3f7
    ∷ 0xc67178f2 ∷ []

-- The eight words of the hash state, and the working variables `a` to `h`.
pub record Words : Type 0 where
  pub a : ℕ
  pub b : ℕ
  pub c : ℕ
  pub d : ℕ
  pub e : ℕ
  pub f : ℕ
  pub g : ℕ
  pub h : ℕ

initial_words : Words
initial_words = record {
  a = 0x6a09e667;
  b = 0xbb67ae85;
  c = 0x3c6ef372;
  d = 0xa54ff53a;
  e = 0x510e527f;
  f = 0x9b05688c;
  g = 0x1f83d9ab;
  h = 0x5be0cd19;
}

at_index : List ℕ → ℕ → ℕ
at_index [] i = 0
at_index (x ∷ xs) zero = x
at_index (x ∷ xs) (suc i) = at_index xs i

-- `w[0..16]`, four bytes to a word.
load_words : ℕ → Bytes → List ℕ
unfolding at_index
load_words zero block = []
load_words (suc n) block =
    (((at_index block 0 * 256 + at_index block 1) * 256 + at_index block 2) * 256
      + at_index block 3)
    ∷ load_words n (drop 4 block)

schedule_word : List ℕ → ℕ → ℕ
unfolding at_index
schedule_word w index =
    let x = at_index w (index - 15) in
    let y = at_index w (index - 2) in
    let s0 = bit_xor (bit_xor (rotate_right x 7) (rotate_right x 18)) (x / 2 ^ 3) in
    let s1 = bit_xor (bit_xor (rotate_right y 17) (rotate_right y 19)) (y / 2 ^ 10) in
    add32 (add32 (add32 (at_index w (index - 16)) s0) (at_index w (index - 7))) s1

-- `w[16..64]`.
extend_words : ℕ → List ℕ → List ℕ
extend_words zero w = w
extend_words (suc n) w = extend_words n (w ++ (schedule_word w (length w) ∷ []))

round : Words → ℕ → ℕ → Words
round s k w =
    let s1 = bit_xor (bit_xor (rotate_right s.e 6) (rotate_right s.e 11)) (rotate_right s.e 25) in
    let ch = bit_xor (bit_and s.e s.f) (bit_and (not32 s.e) s.g) in
    let temp1 = add32 (add32 (add32 (add32 s.h s1) ch) k) w in
    let s0 = bit_xor (bit_xor (rotate_right s.a 2) (rotate_right s.a 13)) (rotate_right s.a 22) in
    let maj = bit_xor (bit_xor (bit_and s.a s.b) (bit_and s.a s.c)) (bit_and s.b s.c) in
    let temp2 = add32 s0 maj in
    record {
      a = add32 temp1 temp2;
      b = s.a;
      c = s.b;
      d = s.c;
      e = add32 s.d temp1;
      f = s.e;
      g = s.f;
      h = s.g;
    }

rounds : Words → List ℕ → List ℕ → Words
rounds s (k ∷ ks) (w ∷ ws) = rounds (round s k w) ks ws
rounds s _ _ = s

unfoldable pub compress : Words → Bytes → Words
unfolding load_words extend_words schedule_word rounds round round_constants
compress s block =
    let w = extend_words 48 (load_words 16 block) in
    let t = rounds s round_constants w in
    record {
      a = add32 s.a t.a;
      b = add32 s.b t.b;
      c = add32 s.c t.c;
      d = add32 s.d t.d;
      e = add32 s.e t.e;
      f = add32 s.f t.f;
      g = add32 s.g t.g;
      h = add32 s.h t.h;
    }

-- `buffer` holds the `buffered` bytes in use of the source's block.
pub record Hasher : Type 0 where
  pub state : Words
  pub buffer : Bytes
  pub length_bits : ℕ

unfoldable pub new : Hasher
unfolding initial_words
new = record { state = initial_words; buffer = []; length_bits = 0 }

-- `while data.len() >= 64`; a round takes 64 bytes, so the length is fuel enough.
unfoldable pub whole_blocks : ℕ → Words → Bytes → Words × Bytes
whole_blocks zero s rest = (s, rest)
whole_blocks (suc fuel) s rest =
    let more = whole_blocks fuel (compress s (take 64 rest)) (drop 64 rest) in
    if leb 64 (length rest) then more else (s, rest)

-- The whole blocks of `data`, and what is left becomes the buffer.
unfoldable pub absorb : Words → Bytes → Words × Bytes
absorb s bytes = whole_blocks (length bytes) s bytes

-- The part of `update` on a buffer in use: it is filled first, and compressed when full.
unfoldable pub fill : Words → Bytes → Bytes → Words × Bytes
fill s buffer bytes =
    let want = min (64 - length buffer) (length bytes) in
    let buffer' = buffer ++ take want bytes in
    if length buffer' == 64 then absorb (compress s buffer') (drop want bytes) else (s, buffer')

unfoldable pub update : Hasher → Bytes → Hasher
update r bytes =
    let bits = (r.length_bits + length bytes * 8 % 2 ^ 64) % 2 ^ 64 in
    let (s, rest) =
      if ltb 0 (length r.buffer) then fill r.state r.buffer bytes else absorb r.state bytes in
    record { state = s; buffer = rest; length_bits = bits }

be_word : ℕ → Bytes
be_word w = w / 2 ^ 24 % 256 ∷ w / 2 ^ 16 % 256 ∷ w / 256 % 256 ∷ w % 256 ∷ []

-- `word.to_be_bytes()` for each word of the state.
digest_bytes : Words → Digest
unfolding be_word
digest_bytes s =
    be_word s.a
    ++ (be_word s.b
        ++ (be_word s.c
            ++ (be_word s.d ++ (be_word s.e ++ (be_word s.f ++ (be_word s.g ++ be_word s.h))))))

-- The tail is 0x80, zeros and the length in bits; `buffer ++ tail` is one block or two.
unfoldable pub finalize : Hasher → Digest
unfolding be_word digest_bytes
finalize r =
    let buffered = length r.buffer in
    let pad_len = if ltb buffered 56 then 56 - buffered else 120 - buffered in
    let size = be_word (r.length_bits / 2 ^ 32) ++ be_word (r.length_bits % 2 ^ 32) in
    let tail = 0x80 ∷ (replicate (pad_len - 1) 0 ++ size) in
    let (s, rest) = absorb r.state (r.buffer ++ tail) in digest_bytes s

unfoldable pub sha256 : Bytes → Digest
sha256 bytes = finalize (update new bytes)
