-- ===== src/Core/Cbor/Head.antt =====
-- Heads: what `read_head` accepts is what `encode_head` writes.
use ark_forge.Prelude.{
  check_range, check_range-lookup, ℕ, zero, suc, ◌+◌, ◌/◌, ◌%◌, ◌<◌, ◌≤◌, Bytes, IsByte, IsBytes,
  true, [], ◌∷◌, ◌++◌, ◌≡◌, refl, ltb, ◌==◌, ==_iff, length, take, drop, ok, >>=-eq-ok, arith,
  take-append-drop, length-take, Bool-cases, inl, inr,
}
use ark_forge.Core.Cbor.Encode.{be16, be32, be64, initial_byte, encode_head}
use ark_forge.Core.Cbor.Decode.{take_bytes, from_be, read_wide, read_argument, read_head}

initial_byte_table : check_range (λ b. initial_byte (b / 32) (b % 32) == b) 256 ≡ true
unfolding check_range initial_byte
initial_byte_table = refl

pub initial_byte_split : (b : ℕ) → b < 256 → initial_byte (b / 32) (b % 32) ≡ b
initial_byte_split b h = (==_iff _ b).0 (check_range-lookup _ 256 b h initial_byte_table)

pub initial_byte_of :
    (b additional : ℕ) → b < 256 → b % 32 ≡ additional → initial_byte (b / 32) additional ≡ b
initial_byte_of b additional h e = rw (← e) (initial_byte_split b h)

IsBytes-take : (n : ℕ) (bs : Bytes) → IsBytes bs → IsBytes (take n bs)
IsBytes-take zero bs h = tt
IsBytes-take (suc n) [] h = tt
IsBytes-take (suc n) (b ∷ bs) h = (h.0, IsBytes-take n bs h.1)

IsBytes-drop : (n : ℕ) (bs : Bytes) → IsBytes bs → IsBytes (drop n bs)
IsBytes-drop zero bs h = h
IsBytes-drop (suc n) [] h = tt
IsBytes-drop (suc n) (b ∷ bs) h = IsBytes-drop n bs h.1

-- What `take_bytes` gives back is a split of the input.
pub record Taken (count : ℕ) (bs t rest : Bytes) : Type 0 where
  pub split : bs ≡ t ++ rest
  pub size : length t ≡ count
  pub front : IsBytes t
  pub back : IsBytes rest

pub take_bytes-Taken :
    (count : ℕ) (bs t rest : Bytes)
    → IsBytes bs
    → take_bytes count bs ≡ ok (t, rest)
    → Taken count bs t rest
unfolding take_bytes
take_bytes-Taken count bs t rest hb h = ground (
  arith,
  take-append-drop count bs,
  length-take count bs,
  IsBytes-take count bs hb,
  IsBytes-drop count bs hb,
)

-- The two-, four- and eight-byte arguments.
be16-from_be : (a b : ℕ) → IsByte a → IsByte b → be16 (from_be 0 (a ∷ b ∷ [])) ≡ a ∷ b ∷ []
unfolding be16
be16-from_be a b ha hb = ground arith

be32-from_be :
    (a b c d : ℕ)
    → IsByte a
    → IsByte b
    → IsByte c
    → IsByte d
    → be32 (from_be 0 (a ∷ b ∷ c ∷ d ∷ [])) ≡ a ∷ b ∷ c ∷ d ∷ []
unfolding be32
be32-from_be a b c d ha hb hc hd = ground arith

be64-from_be :
    (a b c d e f g h : ℕ)
    → IsBytes (a ∷ b ∷ c ∷ d ∷ e ∷ f ∷ g ∷ h ∷ [])
    → be64 (from_be 0 (a ∷ b ∷ c ∷ d ∷ e ∷ f ∷ g ∷ h ∷ [])) ≡ a ∷ b ∷ c ∷ d ∷ e ∷ f ∷ g ∷ h ∷ []
unfolding be64
be64-from_be a b c d e f g h k = ground arith

-- A successful wide read, taken apart.
record Wide (width least v : ℕ) (bs rest : Bytes) : Type 0 where
  raw : Bytes
  taken : Taken width bs raw rest
  value : v ≡ from_be 0 raw
  large : least ≤ v

read_wide-Wide :
    (width least v : ℕ) (bs rest : Bytes)
    → IsBytes bs
    → read_wide width least bs ≡ ok (v, rest)
    → Wide width least v bs rest
unfolding read_wide
read_wide-Wide width least v bs rest hb h =
    let (t, p, q) = >>=-eq-ok (take_bytes width bs) _ h in
    record {
      raw = t.0;
      taken = ground (arith, take_bytes-Taken width bs t.0 t.1 hb p);
      value = ground arith;
      large = ground arith;
    }

-- Each width in turn: the head that `encode_head` writes for the value is the one that was read.
module _ (major : ℕ) (bs rest : Bytes) where
  head_one :
      (raw : Bytes)
      → Taken 1 bs raw rest
      → 24 ≤ from_be 0 raw
      → encode_head major (from_be 0 raw) ++ rest ≡ initial_byte major 24 ∷ bs
  unfolding encode_head
  head_one [] t l = absurd (omega (arith, t.size))
  head_one (a ∷ []) t l = ground (arith, t.split, t.front)
  head_one (a ∷ b ∷ r) t l = absurd (omega (arith, t.size))

  head_two :
      (raw : Bytes)
      → Taken 2 bs raw rest
      → 0xff + 1 ≤ from_be 0 raw
      → encode_head major (from_be 0 raw) ++ rest ≡ initial_byte major 25 ∷ bs
  unfolding encode_head
  head_two [] t l = absurd (omega (arith, t.size))
  head_two (a ∷ []) t l = absurd (omega (arith, t.size))
  head_two (a ∷ b ∷ []) t l =
      ground (arith, t.split, t.front, be16-from_be a b t.front.0 t.front.1.0)
  head_two (a ∷ b ∷ c ∷ r) t l = absurd (omega (arith, t.size))

  head_four :
      (raw : Bytes)
      → Taken 4 bs raw rest
      → 0xffff + 1 ≤ from_be 0 raw
      → encode_head major (from_be 0 raw) ++ rest ≡ initial_byte major 26 ∷ bs
  unfolding encode_head
  head_four [] t l = absurd (omega (arith, t.size))
  head_four (a ∷ []) t l = absurd (omega (arith, t.size))
  head_four (a ∷ b ∷ []) t l = absurd (omega (arith, t.size))
  head_four (a ∷ b ∷ c ∷ []) t l = absurd (omega (arith, t.size))
  head_four (a ∷ b ∷ c ∷ d ∷ []) t l =
      let (ha, hb, hc, hd, _) = flat t.front in
      ground (arith, t.split, be32-from_be a b c d ha hb hc hd)
    where
      flat : IsBytes (a ∷ b ∷ c ∷ d ∷ []) → IsByte a × IsByte b × IsByte c × IsByte d × Unit {0}
      flat k = (k.0, k.1.0, k.1.1.0, k.1.1.1.0, tt)
  head_four (a ∷ b ∷ c ∷ d ∷ e ∷ r) t l = absurd (omega (arith, t.size))

  head_eight :
      (raw : Bytes)
      → Taken 8 bs raw rest
      → 0xffff_ffff + 1 ≤ from_be 0 raw
      → encode_head major (from_be 0 raw) ++ rest ≡ initial_byte major 27 ∷ bs
  unfolding encode_head
  head_eight [] t l = absurd (omega (arith, t.size))
  head_eight (a ∷ []) t l = absurd (omega (arith, t.size))
  head_eight (a ∷ b ∷ []) t l = absurd (omega (arith, t.size))
  head_eight (a ∷ b ∷ c ∷ []) t l = absurd (omega (arith, t.size))
  head_eight (a ∷ b ∷ c ∷ d ∷ []) t l = absurd (omega (arith, t.size))
  head_eight (a ∷ b ∷ c ∷ d ∷ e ∷ []) t l = absurd (omega (arith, t.size))
  head_eight (a ∷ b ∷ c ∷ d ∷ e ∷ f ∷ []) t l = absurd (omega (arith, t.size))
  head_eight (a ∷ b ∷ c ∷ d ∷ e ∷ f ∷ g ∷ []) t l = absurd (omega (arith, t.size))
  head_eight (a ∷ b ∷ c ∷ d ∷ e ∷ f ∷ g ∷ h ∷ []) t l =
      ground (arith, t.split, be64-from_be a b c d e f g h t.front)
  head_eight (a ∷ b ∷ c ∷ d ∷ e ∷ f ∷ g ∷ h ∷ i ∷ r) t l = absurd (omega (arith, t.size))

direct_head :
    (major argument : ℕ)
    → argument < 24
    → encode_head major argument ≡ initial_byte major argument ∷ []
unfolding encode_head
direct_head major argument h = ground arith

-- A head that `read_head` accepts, taken apart.
pub record HeadRead (major argument : ℕ) (bs rest : Bytes) : Type 0 where
  pub canonical : bs ≡ encode_head major argument ++ rest
  pub back : IsBytes rest
  pub major_small : major < 8

module _ (byte v : ℕ) (bs rest : Bytes) (small : IsByte byte) (hb : IsBytes bs) where
  wide_head :
      (width least additional : ℕ)
      → byte % 32 ≡ additional
      → ((raw : Bytes)
          → Taken width bs raw rest
          → least ≤ from_be 0 raw
          → encode_head (byte / 32) (from_be 0 raw) ++ rest
            ≡ initial_byte (byte / 32) additional ∷ bs)
      → read_wide width least bs ≡ ok (v, rest)
      → HeadRead (byte / 32) v (byte ∷ bs) rest
  wide_head width least additional e head h =
      let w = read_wide-Wide width least v bs rest hb h in
      record {
        canonical = ground (
          arith,
          initial_byte_of byte additional small e,
          head w.raw w.taken (ground (arith, w.value, w.large)),
          w.value,
        );
        back = w.taken.back;
        major_small = omega arith;
      }

  pub read_argument-HeadRead :
      read_argument (byte % 32) bs ≡ ok (v, rest) → HeadRead (byte / 32) v (byte ∷ bs) rest
  unfolding read_argument
  read_argument-HeadRead h = elim (Bool-cases (ltb (byte % 32) 24)) [
    | inl direct ↦ record {
      canonical =
          ground (arith, initial_byte_split byte small, direct_head (byte / 32) (byte % 32));
      back = ground arith;
      major_small = omega arith;
    }
    | inr n0 ↦ elim (Bool-cases (byte % 32 == 24)) [
      | inl e ↦ wide_head 1 24 24 (ground arith) (head_one _ bs rest) (ground arith)
      | inr n1 ↦ elim (Bool-cases (byte % 32 == 25)) [
        | inl e ↦ wide_head 2 (0xff + 1) 25 (ground arith) (head_two _ bs rest) (ground arith)
        | inr n2 ↦ elim (Bool-cases (byte % 32 == 26)) [
          | inl e ↦ wide_head 4 (0xffff + 1) 26 (ground arith) (head_four _ bs rest) (ground arith)
          | inr n3 ↦
              wide_head 8 (0xffff_ffff + 1) 27 (ground arith) (head_eight _ bs rest) (ground arith)
        ]
      ]
    ]
  ]

-- What `read_head` accepts is what `encode_head` writes for the head that it returns.
pub read_head-HeadRead :
    (bs : Bytes) {major argument : ℕ} {rest : Bytes}
    → IsBytes bs
    → read_head bs ≡ ok (major, argument, rest)
    → HeadRead major argument bs rest
unfolding read_head
read_head-HeadRead [] hb h = cc
read_head-HeadRead (byte ∷ bs) {major} {argument} {rest} hb h =
    let (r, p, q) = >>=-eq-ok (read_argument (byte % 32) bs) _ h in
    let d = read_argument-HeadRead byte r.0 bs r.1 hb.0 hb.1 p in
    record {
      canonical = ground (arith, d.canonical);
      back = ground (arith, d.back);
      major_small = ground (arith, d.major_small);
    }
