-- ===== src/Dart/Utf8/RoundTrip.antt =====
-- Decoding what was encoded.
use packagekit_dart.Base.{
  ℕ, suc, ◌+◌, ◌*◌, ◌/◌, ◌%◌, ◌≤◌, ◌<◌, ◌≡◌, ◌≢◌, ◌⊎◌, inl, inr, refl, ◌∙◌, Option, none, some,
  List, [], ◌∷◌, ◌++◌, arith, All, IsByte, All-append,
}
use mathlib.Core.Option
use packagekit_dart.Dart.Utf8.{
  State, idle, inside, step, decode_from, drop_bom, utf8_decode, encode_char, utf8_encode,
}

-- A Unicode scalar value: a code point that is no surrogate.
abbrev pub IsScalar : ℕ → Type 0
IsScalar c = (c < 0xd800) ⊎ ((0xdfff < c) × (c < 0x11_0000))

map_nothing : (o : Option (List ℕ)) → Option.map (λ cs. [] ++ cs) o ≡ o
map_nothing none = refl
map_nothing (some cs) = refl

decode_step :
    (s s' : State) (b : ℕ) (bytes : List ℕ)
    → step s b ≡ some (s', [])
    → decode_from s (b ∷ bytes) ≡ decode_from s' bytes
unfolding decode_from
decode_step idle s' b bytes e = rw (e, decode_from) (map_nothing (decode_from s' bytes))
decode_step (inside n a l) s' b bytes e = rw (e, decode_from) (map_nothing (decode_from s' bytes))

decode_emit :
    (s : State) (b c : ℕ) (bytes : List ℕ)
    → step s b ≡ some (idle, c ∷ [])
    → decode_from s (b ∷ bytes) ≡ Option.map (λ cs. c ∷ cs) (decode_from idle bytes)
unfolding decode_from
decode_emit idle b c bytes e = rw (e, decode_from)
decode_emit (inside n a l) b c bytes e = rw (e, decode_from)

step_one : (c : ℕ) → c < 0x80 → step idle c ≡ some (idle, c ∷ [])
unfolding step
step_one c h = ground arith

step_two : (x : ℕ) → x < 32 → step idle (0xc0 + x) ≡ some (inside 0 x 0x80, [])
unfolding step
step_two x h = ground arith

step_three : (x : ℕ) → x < 16 → step idle (0xe0 + x) ≡ some (inside 1 x 0x800, [])
unfolding step
step_three x h = ground arith

step_four : (x : ℕ) → x < 8 → step idle (0xf0 + x) ≡ some (inside 2 x 0x1_0000, [])
unfolding step
step_four x h = ground arith

step_more :
    (n acc least x : ℕ)
    → x < 64
    → step (inside (suc n) acc least) (0x80 + x) ≡ some (inside n (acc * 64 + x) least, [])
unfolding step
step_more n acc least x h = ground arith

step_last :
    (acc least x c : ℕ)
    → x < 64
    → acc * 64 + x ≡ c
    → least ≤ c
    → IsScalar c
    → step (inside 0 acc least) (0x80 + x) ≡ some (idle, c ∷ [])
unfolding step
step_last acc least x c h e l s = ground arith

-- The bytes of one character, by its size.
abbrev two_bytes : ℕ → List ℕ
two_bytes c = (0xc0 + c / 64) ∷ (0x80 + c % 64) ∷ []

abbrev three_bytes : ℕ → List ℕ
three_bytes c = (0xe0 + c / 4096) ∷ (0x80 + c / 64 % 64) ∷ (0x80 + c % 64) ∷ []

abbrev four_bytes : ℕ → List ℕ
four_bytes c =
    (0xf0 + c / 262144) ∷ (0x80 + c / 4096 % 64) ∷ (0x80 + c / 64 % 64) ∷ (0x80 + c % 64) ∷ []

encode_char-cases :
    (c : ℕ)
    → IsScalar c
    → ((c < 0x80) × (encode_char c ≡ c ∷ []))
      ⊎ ((0x80 ≤ c) × (c < 0x800) × (encode_char c ≡ two_bytes c))
      ⊎ ((0x800 ≤ c) × (c < 0x1_0000) × (encode_char c ≡ three_bytes c))
      ⊎ ((0x1_0000 ≤ c) × (encode_char c ≡ four_bytes c))
unfolding encode_char
encode_char-cases c s = ground arith

decode-encode_char :
    (c : ℕ) (bytes : List ℕ)
    → IsScalar c
    → decode_from idle (encode_char c ++ bytes) ≡ Option.map (λ cs. c ∷ cs) (decode_from idle bytes)
decode-encode_char c bytes s = elim (encode_char-cases c s) [
  | inl (h, e) ↦ rw e (decode_emit idle c c bytes (step_one c h))
  | inr (inl (h, h', e)) ↦ rw e (
      decode_step idle _ _ _ (step_two (c / 64) (omega arith))
      ∙ decode_emit _ _ c bytes
          (step_last (c / 64) 0x80 (c % 64) c (omega arith) (omega arith) h s))
  | inr (inr (inl (h, h', e))) ↦ rw e (
      decode_step idle _ _ _ (step_three (c / 4096) (omega arith))
      ∙ decode_step _ _ _ _ (step_more 0 (c / 4096) 0x800 (c / 64 % 64) (omega arith))
      ∙ decode_emit _ _ c bytes (
          step_last (c / 4096 * 64 + c / 64 % 64) 0x800 (c % 64) c (omega arith) (omega arith) h s))
  | inr (inr (inr (h, e))) ↦ rw e (
      decode_step idle _ _ _ (step_four (c / 262144) (omega arith))
      ∙ decode_step _ _ _ _ (step_more 1 (c / 262144) 0x1_0000 (c / 4096 % 64) (omega arith))
      ∙ decode_step _ _ _ _
          (step_more 0 (c / 262144 * 64 + c / 4096 % 64) 0x1_0000 (c / 64 % 64) (omega arith))
      ∙ decode_emit _ _ c bytes (
          step_last ((c / 262144 * 64 + c / 4096 % 64) * 64 + c / 64 % 64) 0x1_0000 (c % 64) c
            (omega arith) (omega arith) h s))
]

decode_from-utf8_encode : (s : List ℕ) → All IsScalar s → decode_from idle (utf8_encode s) ≡ some s
unfolding utf8_encode
decode_from-utf8_encode [] h = unfold decode_from in refl
decode_from-utf8_encode (c ∷ cs) h =
    decode-encode_char c (utf8_encode cs) h.0 ∙ rw (decode_from-utf8_encode cs h.1)

-- The text does not start with a byte order mark.
abbrev pub NoBom : List ℕ → Type 0
NoBom [] = Unit {0}
NoBom (c ∷ cs) = c ≢ 0xfeff

-- Text of scalar values that starts with no byte order mark survives its encoding.
pub utf8_decode-utf8_encode :
    (s : List ℕ) → All IsScalar s → NoBom s → utf8_decode (utf8_encode s) ≡ some s
unfolding utf8_decode
utf8_decode-utf8_encode [] h b = rw (decode_from-utf8_encode [] h)
utf8_decode-utf8_encode (c ∷ cs) h b =
    rw (decode_from-utf8_encode (c ∷ cs) h) (unfold drop_bom in ground arith)

encode_char-IsByte : (c : ℕ) → c < 0x11_0000 → All IsByte (encode_char c)
unfolding encode_char
encode_char-IsByte c h = ground arith

pub utf8_encode-IsByte : (s : List ℕ) → All (λ c. c < 0x11_0000) s → All IsByte (utf8_encode s)
unfolding utf8_encode
utf8_encode-IsByte [] h = tt
utf8_encode-IsByte (c ∷ cs) h =
    All-append IsByte (encode_char c) (utf8_encode cs) (encode_char-IsByte c h.0)
      (utf8_encode-IsByte cs h.1)
