-- ===== src/Core/Cbor/Ascii.antt =====
-- ASCII text is UTF-8.
use ark_forge.Prelude.{◌<◌, true, Text, [], ◌∷◌, All, ◌≡◌, refl, arith}
use ark_forge.Core.Cbor.Decode.{utf8_lead, utf8_step, utf8_from, is_utf8}

utf8_from_ascii :
    (t : Text) → All (λ c. c < 128) t → utf8_from (record { due = 0; lo = 0; hi = 0 }) t ≡ true
unfolding utf8_from utf8_step utf8_lead
utf8_from_ascii [] h = refl
utf8_from_ascii (c ∷ t) h = ground (arith, utf8_from_ascii t h.1)

pub is_utf8_ascii : (t : Text) → All (λ c. c < 128) t → is_utf8 t ≡ true
unfolding is_utf8
is_utf8_ascii t h = utf8_from_ascii t h
