-- ===== src/Core/Cbor/Order.antt =====
-- The order of map keys, and the encoder's sort and duplicate check on keys that ascend.
use ark_forge.Prelude.{
  Bytes, bytes_eq, bytes_lt, true, false, List, [], ◌∷◌, ◌≡◌, refl, Option, none, some, All, any,
  ok, arith, bytes_eq_iff, Bool-cases, inl, inr,
}
use ark_forge.Core.Cbor.Encode.{insert_by_key, sort_by_key, check_keys}
use ark_forge.Core.Cbor.Decode.{ascends}

pub bytes_lt_irrefl : (a : Bytes) → bytes_lt a a ≡ false
unfolding bytes_lt
bytes_lt_irrefl [] = refl
bytes_lt_irrefl (a ∷ xs) = ground (arith, bytes_lt_irrefl xs)

pub bytes_lt_trans :
    (a b c : Bytes) → bytes_lt a b ≡ true → bytes_lt b c ≡ true → bytes_lt a c ≡ true
unfolding bytes_lt
bytes_lt_trans [] [] c p q = cc
bytes_lt_trans [] (b ∷ bs) [] p q = cc
bytes_lt_trans [] (b ∷ bs) (c ∷ cs) p q = refl
bytes_lt_trans (a ∷ xs) [] c p q = cc
bytes_lt_trans (a ∷ xs) (b ∷ bs) [] p q = cc
bytes_lt_trans (a ∷ xs) (b ∷ bs) (c ∷ cs) p q = ground (arith, bytes_lt_trans xs bs cs)

pub bytes_lt_asymm : (a b : Bytes) → bytes_lt a b ≡ true → bytes_lt b a ≡ false
bytes_lt_asymm a b p = elim (Bool-cases (bytes_lt b a)) [
  | inl q ↦ cc (bytes_lt_trans a b a p q, bytes_lt_irrefl a)
  | inr q ↦ q
]

-- The keys ascend strictly, from above `previous`.
abbrev pub Ascending : Option Bytes → List (Bytes × Bytes) → Type 0
Ascending previous [] = Unit {0}
Ascending previous (e ∷ es) = (ascends previous e.0 ≡ true) × Ascending (some e.0) es

insert_by_key-Ascending :
    (e : Bytes × Bytes) (es : List (Bytes × Bytes))
    → Ascending (some e.0) es
    → insert_by_key e es ≡ e ∷ es
unfolding insert_by_key
insert_by_key-Ascending e [] h = refl
insert_by_key-Ascending e (x ∷ xs) h = rw (bytes_lt_asymm e.0 x.0 h.0) refl

pub sort_by_key-Ascending :
    (previous : Option Bytes) (es : List (Bytes × Bytes))
    → Ascending previous es
    → sort_by_key es ≡ es
unfolding sort_by_key
sort_by_key-Ascending previous [] h = refl
sort_by_key-Ascending previous (e ∷ es) h =
    rw (sort_by_key-Ascending (some e.0) es h.1) (insert_by_key-Ascending e es h.1)

All-below :
    (k l : Bytes) (seen : List Bytes)
    → bytes_lt k l ≡ true
    → All (λ s. bytes_lt s k ≡ true) seen
    → All (λ s. bytes_lt s l ≡ true) seen
All-below k l [] h a = tt
All-below k l (s ∷ seen) h a = (bytes_lt_trans s k l a.0 h, All-below k l seen h a.1)

any-below :
    (l : Bytes) (seen : List Bytes)
    → All (λ s. bytes_lt s l ≡ true) seen
    → any (bytes_eq l) seen ≡ false
unfolding any
any-below l [] a = refl
any-below l (s ∷ seen) a =
    ground (arith, any-below l seen a.1, a.0, bytes_eq_iff l s, bytes_lt_irrefl l)

check_keys_above :
    (k : Bytes) (seen : List Bytes) (es : List (Bytes × Bytes))
    → All (λ s. bytes_lt s k ≡ true) seen
    → Ascending (some k) es
    → check_keys (k ∷ seen) es ≡ ok tt
unfolding check_keys
check_keys_above k seen [] a h = refl
check_keys_above k seen (e ∷ es) a h =
    let below : All (λ s. bytes_lt s e.0 ≡ true) (k ∷ seen) = (h.0, All-below k e.0 seen h.0 a) in
    rw (any-below e.0 (k ∷ seen) below) (check_keys_above e.0 (k ∷ seen) es below h.1)

pub check_keys-Ascending :
    (previous : Option Bytes) (es : List (Bytes × Bytes))
    → Ascending previous es
    → check_keys [] es ≡ ok tt
unfolding check_keys any
check_keys-Ascending previous [] h = refl
check_keys-Ascending previous (e ∷ es) h = check_keys_above e.0 [] es tt h.1

pub bytes_lt_total :
    (a b : Bytes) → bytes_lt a b ≡ false → bytes_lt b a ≡ false → bytes_eq a b ≡ true
unfolding bytes_lt bytes_eq
bytes_lt_total [] [] p q = refl
bytes_lt_total [] (b ∷ bs) p q = cc
bytes_lt_total (a ∷ xs) [] p q = cc
bytes_lt_total (a ∷ xs) (b ∷ bs) p q = ground (arith, bytes_lt_total xs bs)

-- No key is below the one before it.
abbrev Climbs : Option Bytes → Bytes → Type 0
Climbs none key = Unit {0}
Climbs (some previous) key = bytes_lt key previous ≡ false

abbrev Climbing : Option Bytes → List (Bytes × Bytes) → Type 0
Climbing previous [] = Unit {0}
Climbing previous (e ∷ es) = Climbs previous e.0 × Climbing (some e.0) es

insert_by_key-Climbing :
    (previous : Option Bytes) (e : Bytes × Bytes) (es : List (Bytes × Bytes))
    → Climbs previous e.0
    → Climbing previous es
    → Climbing previous (insert_by_key e es)
unfolding insert_by_key
insert_by_key-Climbing previous e [] h c = (h, tt)
insert_by_key-Climbing previous e (x ∷ xs) h c = elim (Bool-cases (bytes_lt x.0 e.0)) [
  | inl p ↦ rw p (c.0, insert_by_key-Climbing (some x.0) e xs (bytes_lt_asymm x.0 e.0 p) c.1)
  | inr p ↦ rw p (h, (p, c.1))
]

sort_by_key-Climbing : (es : List (Bytes × Bytes)) → Climbing none (sort_by_key es)
unfolding sort_by_key
sort_by_key-Climbing [] = tt
sort_by_key-Climbing (e ∷ es) =
    insert_by_key-Climbing none e (sort_by_key es) tt (sort_by_key-Climbing es)

distinct_after :
    (k : Bytes) (seen : List Bytes) (es : List (Bytes × Bytes))
    → Climbing (some k) es
    → check_keys (k ∷ seen) es ≡ ok tt
    → Ascending (some k) es
unfolding check_keys any
distinct_after k seen [] c h = tt
distinct_after k seen (e ∷ es) c h = elim (Bool-cases (any (bytes_eq e.0) (k ∷ seen))) [
  | inl p ↦ absurd (ground (arith, p))
  | inr p ↦ (
    ground (arith, p, c.0, bytes_lt_total k e.0, bytes_eq_iff k e.0, bytes_eq_iff e.0 k),
    distinct_after e.0 (k ∷ seen) es c.1 (ground (arith, p)),
  )
]

-- Sorted keys without a duplicate ascend strictly.
pub check_keys-sort_by_key :
    (es : List (Bytes × Bytes))
    → check_keys [] (sort_by_key es) ≡ ok tt
    → Ascending none (sort_by_key es)
check_keys-sort_by_key es = all_distinct (sort_by_key es) (sort_by_key-Climbing es)
  where
    all_distinct :
        (l : List (Bytes × Bytes)) → Climbing none l → check_keys [] l ≡ ok tt → Ascending none l
    all_distinct [] c h = tt
    all_distinct (e ∷ l) c h = (refl, distinct_after e.0 [] l c.1 (unfold check_keys any in cc))

Climbing-sort_by_key :
    (previous : Option Bytes) (es : List (Bytes × Bytes))
    → Climbing previous es
    → sort_by_key es ≡ es
unfolding sort_by_key
Climbing-sort_by_key previous [] c = refl
Climbing-sort_by_key previous (e ∷ []) c = unfold insert_by_key in refl
Climbing-sort_by_key previous (e ∷ x ∷ xs) c =
    rw (Climbing-sort_by_key (some e.0) (x ∷ xs) c.1) (unfold insert_by_key in rw (c.1.0) refl)

-- Sorting what is sorted changes nothing, whatever the keys are.
pub sort_by_key_idem : (es : List (Bytes × Bytes)) → sort_by_key (sort_by_key es) ≡ sort_by_key es
sort_by_key_idem es = Climbing-sort_by_key none (sort_by_key es) (sort_by_key-Climbing es)
