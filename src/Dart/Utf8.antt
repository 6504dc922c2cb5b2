-- ===== src/Dart/Utf8.antt =====
-- utf8.decode and utf8.encode of dart:convert, which the codec and the FFI strings go through.
pub mod RoundTrip
use packagekit_dart.Base.{
  ℕ, zero, suc, ◌+◌, ◌-◌, ◌*◌, ◌/◌, ◌%◌, ◌≤◌, ◌<◌, ◌⊎◌, Bool, true, false, not, ◌&&◌, ◌||◌, Option,
  none, some, List, [], ◌∷◌, ◌++◌, ltb, leb, ◌==◌, if◌then◌else◌,
}
use mathlib.Core.Option

-- The decoder between two bytes: at the start of a character, or with `need + 1` continuation bytes
-- to come, the value so far, and the least value that is not overlong.
pub data State : Type 0 where
  idle : State
  inside : ℕ → ℕ → ℕ → State

abbrev pub is_scalar : ℕ → Bool
is_scalar c = ltb c 0xd800 || (ltb 0xdfff c && ltb c 0x11_0000)

start : ℕ → Option (State × List ℕ)
start b =
    if ltb b 0x80
    then some (idle, b ∷ [])
    else if ltb b 0xc0
    then none
    else if ltb b 0xe0
    then some (inside 0 (b - 0xc0) 0x80, [])
    else if ltb b 0xf0
    then some (inside 1 (b - 0xe0) 0x800, [])
    else if ltb b 0xf8
    then some (inside 2 (b - 0xf0) 0x1_0000, [])
    else none

finish : ℕ → ℕ → Option (State × List ℕ)
finish c least = if leb least c && is_scalar c then some (idle, c ∷ []) else none

step : State → ℕ → Option (State × List ℕ)
unfolding start finish
step idle b = start b
step (inside zero acc least) b =
    if leb 0x80 b && ltb b 0xc0 then finish (acc * 64 + (b - 0x80)) least else none
step (inside (suc need) acc least) b =
    if leb 0x80 b && ltb b 0xc0 then some (inside need (acc * 64 + (b - 0x80)) least, []) else none

decode_from : State → List ℕ → Option (List ℕ)
unfolding step
decode_from idle [] = some []
decode_from (inside need acc least) [] = none
decode_from s (b ∷ bytes) = elim (step s b) [
  | none ↦ none
  | some (s', out) ↦ Option.map (λ cs. out ++ cs) (decode_from s' bytes)
]

-- A byte order mark at the start is discarded.
drop_bom : List ℕ → List ℕ
drop_bom [] = []
drop_bom (c ∷ cs) = if c == 0xfeff then cs else c ∷ cs

-- `none` is a FormatException.
unfoldable pub utf8_decode : List ℕ → Option (List ℕ)
unfolding decode_from drop_bom
utf8_decode bytes = Option.map drop_bom (decode_from idle bytes)

-- A surrogate on its own is written as U+FFFD.
unfoldable pub encode_char : ℕ → List ℕ
encode_char c =
    if ltb c 0x80
    then c ∷ []
    else if ltb c 0x800
    then (0xc0 + c / 64) ∷ (0x80 + c % 64) ∷ []
    else if not (is_scalar c)
    then 0xef ∷ 0xbf ∷ 0xbd ∷ []
    else if ltb c 0x1_0000
    then (0xe0 + c / 4096) ∷ (0x80 + c / 64 % 64) ∷ (0x80 + c % 64) ∷ []
    else (0xf0 + c / 262144) ∷ (0x80 + c / 4096 % 64) ∷ (0x80 + c / 64 % 64) ∷ (0x80 + c % 64) ∷ []

unfoldable pub utf8_encode : List ℕ → List ℕ
unfolding encode_char
utf8_encode [] = []
utf8_encode (c ∷ cs) = encode_char c ++ utf8_encode cs
