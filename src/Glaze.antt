-- ===== src/Glaze.antt =====
-- native/include/glaze_meta.h: struct descriptions, and the encoder and decoder that walk them.
-- A byte is a number, a std::string its bytes. Integers are written in the memory order of a
-- little-endian machine. A read past the end of the buffer, which C++ leaves undefined, is `none`.
pub mod Encode
pub mod Interface
pub mod RoundTrip
pub mod Prefix
use Prim.Native.String.{String}
use packagekit_dart.Base.{
  ℕ, zero, suc, ◌+◌, ◌%◌, ◌^◌, ◌≤◌, ◌<◌, Bool, true, false, not, Option, some, none, List, [], ◌∷◌,
  ◌++◌, length, take, drop, leb, ◌==◌, if◌then◌else◌, le_bytes, of_le_bytes, All,
}

infixl 5 ◌>>=◌
abbrev pub ◌>>=◌ {ℓ κ} : {A : Type ℓ} {B : Type κ} → Option A → (A → Option B) → Option B
none >>= f = none
some a >>= f = f a

-- The types that `encode_field` and `decode_field` are overloaded on.
pub data Kind : Type 0 where
  u8 boolean u32 u64 string strings : Kind

abbrev pub Value : Kind → Type 0
Value u8 = ℕ
Value boolean = Bool
Value u32 = ℕ
Value u64 = ℕ
Value string = List ℕ
Value strings = List (List ℕ)

-- A member pointer is the pair of reading and writing the member.
pub record FieldDescriptor (T : Type 0) : Type 0 where
  pub name : String
  pub kind : Kind
  pub get : T → Value kind
  pub set : T → Value kind → T

-- glz::field.
abbrev pub field :
    {T : Type 0} → String → (k : Kind) → (T → Value k) → (T → Value k → T) → FieldDescriptor T
field name kind get set = record { name = name; kind = kind; get = get; set = set }

-- detail::write_bytes.
unfoldable pub write_bytes : List ℕ → List ℕ → List ℕ
write_bytes buf bytes = buf ++ bytes

encode_string : List ℕ → List ℕ → List ℕ
unfolding write_bytes
encode_string buf s = write_bytes (write_bytes buf (le_bytes 4 (length s % 2 ^ 32))) s

encode_each : List ℕ → List (List ℕ) → List ℕ
encode_each buf [] = buf
encode_each buf (s ∷ rest) = encode_each (encode_string buf s) rest

unfoldable pub encode_field : List ℕ → (k : Kind) → Value k → List ℕ
unfolding write_bytes encode_string encode_each
encode_field buf u8 v = buf ++ (v ∷ [])
encode_field buf boolean v = buf ++ ((if v then 1 else 0) ∷ [])
encode_field buf u32 v = write_bytes buf (le_bytes 4 v)
encode_field buf u64 v = write_bytes buf (le_bytes 8 v)
encode_field buf string s = encode_string buf s
encode_field buf strings v = encode_each (write_bytes buf (le_bytes 4 (length v % 2 ^ 32))) v

-- detail::read_bytes: `n` bytes at `offset`, and the offset behind them.
read_bytes : List ℕ → ℕ → ℕ → Option (List ℕ × ℕ)
read_bytes buf offset n =
    if leb (offset + n) (length buf) then some (take n (drop offset buf), offset + n) else none

decode_uint : ℕ → List ℕ → ℕ → Option (ℕ × ℕ)
unfolding read_bytes
decode_uint size buf offset = do
  (bytes, next) ← read_bytes buf offset size
  some (of_le_bytes bytes, next)

decode_string : List ℕ → ℕ → Option (List ℕ × ℕ)
unfolding read_bytes decode_uint
decode_string buf offset = do (len, start) ← decode_uint 4 buf offset; read_bytes buf start len

decode_each : ℕ → List ℕ → ℕ → Option (List (List ℕ) × ℕ)
unfolding decode_string
decode_each zero buf offset = some ([], offset)
decode_each (suc count) buf offset = do
  (s, next) ← decode_string buf offset
  (rest, end) ← decode_each count buf next
  some (s ∷ rest, end)

decode_strings : List ℕ → ℕ → Option (List (List ℕ) × ℕ)
unfolding decode_uint decode_each
decode_strings buf offset = do
  (count, start) ← decode_uint 4 buf offset
  decode_each count buf start

decode_bool : List ℕ → ℕ → Option (Bool × ℕ)
unfolding decode_uint
decode_bool buf offset = do (byte, next) ← decode_uint 1 buf offset; some (not (byte == 0), next)

unfoldable pub decode_field : (k : Kind) → List ℕ → ℕ → Option (Value k × ℕ)
unfolding decode_uint decode_bool decode_string decode_strings
decode_field u8 buf offset = decode_uint 1 buf offset
decode_field boolean buf offset = decode_bool buf offset
decode_field u32 buf offset = decode_uint 4 buf offset
decode_field u64 buf offset = decode_uint 8 buf offset
decode_field string buf offset = decode_string buf offset
decode_field strings buf offset = decode_strings buf offset

module _ {T : Type 0} where
  unfoldable pub encode_impl : List ℕ → T → List (FieldDescriptor T) → List ℕ
  encode_impl buf obj [] = buf
  encode_impl buf obj (f ∷ fields) = encode_impl (encode_field buf f.kind (f.get obj)) obj fields

  unfoldable pub decode_impl : List ℕ → ℕ → T → List (FieldDescriptor T) → Option (T × ℕ)
  decode_impl buf offset obj [] = some (obj, offset)
  decode_impl buf offset obj (f ∷ fields) = do
    (v, next) ← decode_field f.kind buf offset
    decode_impl buf next (f.set obj v) fields

  -- glz::encode and glz::decode, at the fields of meta<T>.
  unfoldable pub encode : List (FieldDescriptor T) → T → List ℕ
  unfolding encode_impl
  encode fields obj = encode_impl [] obj fields

  unfoldable pub decode : List (FieldDescriptor T) → List ℕ → ℕ → T → Option (T × ℕ)
  unfolding decode_impl
  decode fields buf offset obj = decode_impl buf offset obj fields
