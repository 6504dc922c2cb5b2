-- ===== src/Dart/Reader.antt =====
-- The _Reader of lib/src/ffi/codec.dart: a cursor over a byte view that checks its bounds.
pub mod Reads
pub mod Extends
use packagekit_dart.Base.{
  ℕ, zero, suc, ◌+◌, ℤ, signed64, Bool, not, Option, none, some, List, [], ◌∷◌, length, take, drop,
  leb, ltb, ◌==◌, if◌then◌else◌, of_le_bytes,
}
use packagekit_dart.Dart.Core.{
  Result, value, throws, range_error, format_exception, DartString, Uint8List,
}
use packagekit_dart.Dart.Utf8.{utf8_decode}

-- `bytes` runs to the end of the view's buffer, `len` is the view's own length.
pub record Reader : Type 0 where
  pub bytes : List ℕ
  pub len : ℕ
  pub offset : ℕ

abbrev pub reader : Uint8List → ℕ → Reader
reader view offset = record {
  bytes = drop view.offset_in_bytes view.buffer;
  len = view.len;
  offset = offset;
}

abbrev pub R : Type 0 → Type 0
R A = Reader → Result (A × Reader)

abbrev pub then_read : {A B : Type 0} → (A → R B) → Result (A × Reader) → Result (B × Reader)
then_read f (value (a, r)) = f a r
then_read f (throws e) = throws e

infixl 5 ◌>>=◌ ◌>>◌
abbrev pub ◌>>=◌ : {A B : Type 0} → R A → (A → R B) → R B
◌>>=◌ m f r = then_read f (m r)

abbrev pub ◌>>◌ : {B : Type 0} → R (Unit {0}) → R B → R B
m >> k = m >>= λ _. k

abbrev pub pure : {A : Type 0} → A → R A
pure a r = value (a, r)

abbrev pub with_reader : {A : Type 0} → Result A → R A
with_reader (value a) r = value (a, r)
with_reader (throws e) r = throws e

check_bounds : ℕ → R (Unit {0})
check_bounds needed r = if ltb r.len (r.offset + needed) then throws range_error else value (tt, r)

-- ByteData.getUint8, getUint32 and getUint64, little-endian: `size` bytes, within the buffer.
unfoldable pub get_uint : ℕ → List ℕ → ℕ → Result ℕ
get_uint size bytes at =
    if leb (at + size) (length bytes)
    then value (of_le_bytes (take size (drop at bytes)))
    else throws range_error

get_at : ℕ → R ℕ
unfolding get_uint
get_at size r = elim (get_uint size r.bytes r.offset) [
  | value v ↦ value (v, record r { offset = r.offset + size })
  | throws e ↦ throws e
]

-- A checked get at the cursor, which then moves on.
read_uint : ℕ → R ℕ
unfolding check_bounds get_at
read_uint size = check_bounds size >> get_at size

unfoldable pub read_uint32 : R ℕ
unfolding read_uint
read_uint32 = read_uint 4

unfoldable pub read_uint64 : R ℤ
unfolding read_uint
read_uint64 = do v ← read_uint 8; pure (signed64 v)

unfoldable pub read_bool : R Bool
unfolding read_uint
read_bool = do v ← read_uint 1; pure (not (v == 0))

unfoldable pub utf8_or_throw : Option DartString → Result DartString
utf8_or_throw none = throws format_exception
utf8_or_throw (some s) = value s

-- Uint8List.view of `n` bytes at the cursor, which moves on before the bytes are decoded.
unfoldable pub read_view : ℕ → R (List ℕ)
read_view n r =
    if leb (r.offset + n) (length r.bytes)
    then value (take n (drop r.offset r.bytes), record r { offset = r.offset + n })
    else throws range_error

unfoldable pub read_string : R DartString
unfolding read_uint check_bounds read_view utf8_or_throw
read_string = do
  n ← read_uint32
  check_bounds n
  bytes ← read_view n
  with_reader (utf8_or_throw (utf8_decode bytes))

-- List.generate(count, (_) => readString()).
read_each : ℕ → R (List DartString)
unfolding read_string
read_each zero = pure []
read_each (suc count) = do s ← read_string; rest ← read_each count; pure (s ∷ rest)

unfoldable pub read_string_list : R (List DartString)
unfolding read_each
read_string_list = do count ← read_uint32; read_each count
