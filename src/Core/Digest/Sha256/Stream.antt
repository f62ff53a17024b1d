-- ===== src/Core/Digest/Sha256/Stream.antt =====
-- Streaming: how the input is cut into calls of `update` does not matter.
use mathlib.Core.List.{flatten, foldl, foldl-append, append_assoc, append-nil}
use ark_forge.Prelude.{
  ℕ, zero, suc, ◌+◌, ◌-◌, ◌*◌, ◌%◌, ◌^◌, ◌≤◌, ◌<◌, Bytes, List, [], ◌∷◌, ◌++◌, ◌≡◌, ◌≢◌, refl, sym,
  ◌∙◌, ap, ltb, leb, ◌==◌, if◌then◌else◌, length, take, drop, arith, length-append, leb→le,
  leb_false→lt, lt→ltb, eq→==, ne→==, take-append-drop, length-take, length-drop, Bool-cases, inl,
  inr,
}
use ark_forge.Core.Digest.Sha256.{
  Words, compress, Hasher, new, whole_blocks, absorb, fill, update, finalize, sha256,
}

-- The reference: one byte at a time goes into the buffer, which is compressed when it is full.
push : Words × Bytes → ℕ → Words × Bytes
push (s, buffer) b =
    let buffer' = buffer ++ (b ∷ []) in
    if length buffer' == 64 then (compress s buffer', []) else (s, buffer')

push_room :
    (s : Words) (buffer : Bytes) (b : ℕ)
    → length buffer + 1 < 64
    → push (s, buffer) b ≡ (s, buffer ++ (b ∷ []))
unfolding push
push_room s buffer b h = ground (arith, length-append buffer (b ∷ []))

push_full :
    (s : Words) (buffer : Bytes) (b : ℕ)
    → length buffer + 1 ≡ 64
    → push (s, buffer) b ≡ (compress s (buffer ++ (b ∷ [])), [])
unfolding push
push_full s buffer b h = ground (arith, length-append buffer (b ∷ []))

feed_room :
    (s : Words) (buffer xs : Bytes)
    → length buffer + length xs < 64
    → foldl push (s, buffer) xs ≡ (s, buffer ++ xs)
feed_room s buffer [] h = ap (λ (t : Bytes). (s, t)) (sym (append-nil buffer))
feed_room s buffer (x ∷ xs) h = rw (push_room s buffer x (omega arith)) (
    feed_room s (buffer ++ (x ∷ [])) xs (omega (arith, length-append buffer (x ∷ [])))
    ∙ ap (λ (t : Bytes). (s, t)) (append_assoc buffer (x ∷ []) xs))

feed_full :
    (s : Words) (buffer : Bytes) (x : ℕ) (xs : Bytes)
    → length buffer + length (x ∷ xs) ≡ 64
    → foldl push (s, buffer) (x ∷ xs) ≡ (compress s (buffer ++ (x ∷ xs)), [])
feed_full s buffer x [] h = push_full s buffer x (omega arith)
feed_full s buffer x (y ∷ ys) h = rw (push_room s buffer x (omega arith)) (
    feed_full s (buffer ++ (x ∷ [])) y ys (omega (arith, length-append buffer (x ∷ [])))
    ∙ ap (λ (t : Bytes). (compress s t, [])) (append_assoc buffer (x ∷ []) (y ∷ ys)))

feed_fill :
    (s : Words) (buffer xs : Bytes)
    → 0 < length xs
    → length buffer + length xs ≡ 64
    → foldl push (s, buffer) xs ≡ (compress s (buffer ++ xs), [])
feed_fill s buffer [] h e = absurd (omega arith)
feed_fill s buffer (x ∷ xs) h e = feed_full s buffer x xs e

split_feed :
    (n : ℕ) (p : Words × Bytes) (xs : Bytes)
    → foldl push p xs ≡ foldl push (foldl push p (take n xs)) (drop n xs)
split_feed n p xs =
    ap (foldl push p) (sym (take-append-drop n xs)) ∙ foldl-append push p (take n xs) (drop n xs)

whole_blocks-feed :
    (fuel : ℕ) (s : Words) (xs : Bytes)
    → length xs ≤ fuel
    → whole_blocks fuel s xs ≡ foldl push (s, []) xs
unfolding whole_blocks
whole_blocks-feed zero s [] h = refl
whole_blocks-feed zero s (x ∷ xs) h = absurd (omega arith)
whole_blocks-feed (suc fuel) s xs h = elim (Bool-cases (leb 64 (length xs))) [
  | inl long ↦
      let block : length (take 64 xs) ≡ 64 =
        omega (arith, length-take 64 xs, leb→le 64 (length xs) long) in
      let fed : foldl push (s, []) (take 64 xs) ≡ (compress s (take 64 xs), []) =
        feed_fill s [] (take 64 xs) (omega (arith, block)) (omega (arith, block)) in
      rw (long, split_feed 64 (s, []) xs, fed)
        (whole_blocks-feed fuel (compress s (take 64 xs)) (drop 64 xs)
          (omega (arith, length-drop 64 xs, leb→le 64 (length xs) long)))
  | inr short ↦
      rw short (sym (feed_room s [] xs (omega (arith, leb_false→lt 64 (length xs) short))))
]

absorb-feed : (s : Words) (xs : Bytes) → absorb s xs ≡ foldl push (s, []) xs
unfolding absorb
absorb-feed s xs = whole_blocks-feed (length xs) s xs (omega arith)

-- With `want` bytes the buffer is either full or still short.
fill_full :
    (s : Words) (buffer xs : Bytes) (want : ℕ)
    → 0 < want
    → want ≤ length xs
    → length buffer + want ≡ 64
    → (if length (buffer ++ take want xs) == 64
        then absorb (compress s (buffer ++ take want xs)) (drop want xs)
        else (s, buffer ++ take want xs))
      ≡ foldl push (s, buffer) xs
fill_full s buffer xs want h k e =
    let size : length (take want xs) ≡ want = omega (arith, length-take want xs) in
    let full : length (buffer ++ take want xs) ≡ 64 =
      omega (arith, length-append buffer (take want xs), size) in
    rw
      (
        eq→== _ 64 full,
        split_feed want (s, buffer) xs,
        feed_fill s buffer (take want xs) (omega (arith, size)) (omega (arith, size)),
      )
      (absorb-feed _ (drop want xs))

take_all : (n : ℕ) (xs : Bytes) → length xs ≤ n → take n xs ≡ xs
take_all zero [] h = refl
take_all zero (x ∷ xs) h = absurd (omega arith)
take_all (suc n) [] h = refl
take_all (suc n) (x ∷ xs) h = ap (λ (t : Bytes). x ∷ t) (take_all n xs (omega arith))

fill_short :
    (s : Words) (buffer xs : Bytes) (want : ℕ)
    → want ≡ length xs
    → length buffer + want < 64
    → (if length (buffer ++ take want xs) == 64
        then absorb (compress s (buffer ++ take want xs)) (drop want xs)
        else (s, buffer ++ take want xs))
      ≡ foldl push (s, buffer) xs
fill_short s buffer xs want e h =
    let part : length (buffer ++ xs) ≢ 64 = omega (arith, length-append buffer xs) in
    rw (
      take_all want xs (omega (arith, e)),
      ne→== _ 64 part,
      feed_room s buffer xs (omega (arith, e)),
    )

fill-feed :
    (s : Words) (buffer xs : Bytes)
    → length buffer < 64
    → fill s buffer xs ≡ foldl push (s, buffer) xs
unfolding fill
fill-feed s buffer xs k = elim (Bool-cases (leb (64 - length buffer) (length xs))) [
  | inl enough ↦
      fill_full s buffer xs _ (omega (arith, leb→le _ _ enough)) (omega arith)
        (omega (arith, leb→le _ _ enough))
  | inr short ↦
      fill_short s buffer xs _ (omega (arith, leb_false→lt _ _ short))
        (omega (arith, leb_false→lt _ _ short))
]

next_state :
    (s : Words) (buffer xs : Bytes)
    → length buffer < 64
    → (if ltb 0 (length buffer) then fill s buffer xs else absorb s xs) ≡ foldl push (s, buffer) xs
next_state s [] xs h = absorb-feed s xs
next_state s (b ∷ bs) xs h =
    rw (lt→ltb 0 (length (b ∷ bs)) (omega arith)) (fill-feed s (b ∷ bs) xs h)

abbrev fed : Hasher → Bytes → Hasher
fed r xs =
    let p = foldl push (r.state, r.buffer) xs in
    record {
      state = p.0;
      buffer = p.1;
      length_bits = (r.length_bits + length xs * 8 % 2 ^ 64) % 2 ^ 64;
    }

update-feed : (r : Hasher) (xs : Bytes) → length r.buffer < 64 → update r xs ≡ fed r xs
unfolding update
update-feed r xs h = rw (next_state r.state r.buffer xs h)

push-room : (p : Words × Bytes) (b : ℕ) → length p.1 < 64 → length (push p b).1 < 64
unfolding push
push-room p b h = elim (Bool-cases (length (p.1 ++ (b ∷ [])) == 64)) [
  | inl full ↦ rw full (omega arith)
  | inr part ↦ rw part (ground (arith, length-append p.1 (b ∷ [])))
]

feed-room : (p : Words × Bytes) (xs : Bytes) → length p.1 < 64 → length (foldl push p xs).1 < 64
feed-room p [] h = h
feed-room p (x ∷ xs) h = feed-room (push p x) xs (push-room p x h)

bits-append :
    (l a b : ℕ)
    → ((l + a * 8 % 2 ^ 64) % 2 ^ 64 + b * 8 % 2 ^ 64) % 2 ^ 64
      ≡ (l + (a + b) * 8 % 2 ^ 64) % 2 ^ 64
bits-append l a b = omega arith

-- Feeding `xs` and then `ys` leaves the state that feeding them at once leaves, buffer and length
-- counter included, from every state whose buffer is not full.
pub update-append :
    (r : Hasher) (xs ys : Bytes)
    → length r.buffer < 64
    → update (update r xs) ys ≡ update r (xs ++ ys)
update-append r xs ys h =
    let room : length (fed r xs).buffer < 64 = feed-room (r.state, r.buffer) xs h in
    rw (update-feed r xs h, update-feed (fed r xs) ys room, update-feed r (xs ++ ys) h)
      (rw (
        foldl-append push (r.state, r.buffer) xs ys,
        length-append xs ys,
        bits-append r.length_bits (length xs) (length ys),
      ))

unfoldable pub feed_all : Hasher → List Bytes → Hasher
feed_all r [] = r
feed_all r (c ∷ chunks) = feed_all (update r c) chunks

update-room : (r : Hasher) (xs : Bytes) → length r.buffer < 64 → length (update r xs).buffer < 64
update-room r xs h = rw (update-feed r xs h) (feed-room (r.state, r.buffer) xs h)

feed_all-append :
    (r : Hasher) (chunks : List Bytes) (front : Bytes)
    → length r.buffer < 64
    → feed_all (update r front) chunks ≡ update r (front ++ flatten chunks)
unfolding feed_all flatten
feed_all-append r [] front h = rw append-nil
feed_all-append r (c ∷ chunks) front h = rw (update-append r front c h) (
    feed_all-append r chunks (front ++ c) h ∙ ap (update r) (append_assoc front c (flatten chunks)))

-- Hashing any non-empty run of chunks one after the other gives the digest of their concatenation.
pub feed_all-sha256 :
    (first : Bytes) (chunks : List Bytes)
    → finalize (feed_all new (first ∷ chunks)) ≡ sha256 (first ++ flatten chunks)
unfolding sha256 new feed_all
feed_all-sha256 first chunks = ap finalize (feed_all-append new chunks first (omega arith))
