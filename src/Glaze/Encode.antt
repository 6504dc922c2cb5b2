-- ===== src/Glaze/Encode.antt =====
-- What the encoder appends, written out without the buffer.
use packagekit_dart.Base.{
  ℕ, ◌≡◌, refl, sym, ◌∙◌, ◌%◌, ◌^◌, List, [], ◌∷◌, ◌++◌, append_assoc, append-nil, length,
  if◌then◌else◌, le_bytes,
}
use packagekit_dart.Glaze.{
  Kind, u8, boolean, u32, u64, string, strings, Value, FieldDescriptor, encode_string, encode_each,
  encode_field, encode_impl, encode,
}

abbrev pub string_bytes : List ℕ → List ℕ
string_bytes s = le_bytes 4 (length s % 2 ^ 32) ++ s

abbrev pub each_bytes : List (List ℕ) → List ℕ
each_bytes [] = []
each_bytes (s ∷ rest) = string_bytes s ++ each_bytes rest

abbrev pub field_bytes : (k : Kind) → Value k → List ℕ
field_bytes u8 v = v ∷ []
field_bytes boolean v = (if v then 1 else 0) ∷ []
field_bytes u32 v = le_bytes 4 v
field_bytes u64 v = le_bytes 8 v
field_bytes string s = string_bytes s
field_bytes strings v = le_bytes 4 (length v % 2 ^ 32) ++ each_bytes v

encode_string_lem : (buf s : List ℕ) → encode_string buf s ≡ buf ++ string_bytes s
unfolding encode_string
encode_string_lem buf s = append_assoc buf _ s

encode_each_lem : (buf : List ℕ) (v : List (List ℕ)) → encode_each buf v ≡ buf ++ each_bytes v
unfolding encode_each
encode_each_lem buf [] = sym (append-nil buf)
encode_each_lem buf (s ∷ rest) =
    encode_each_lem (encode_string buf s) rest
    ∙ rw (encode_string_lem buf s) (append_assoc buf (string_bytes s) (each_bytes rest))

pub encode_field_lem :
    (buf : List ℕ) (k : Kind) (v : Value k) → encode_field buf k v ≡ buf ++ field_bytes k v
unfolding encode_field
encode_field_lem buf u8 v = refl
encode_field_lem buf boolean v = refl
encode_field_lem buf u32 v = refl
encode_field_lem buf u64 v = refl
encode_field_lem buf string s = encode_string_lem buf s
encode_field_lem buf strings v = encode_each_lem _ v ∙ append_assoc buf _ (each_bytes v)

module _ {T : Type 0} where
  abbrev pub fields_bytes : List (FieldDescriptor T) → T → List ℕ
  fields_bytes [] obj = []
  fields_bytes (f ∷ fields) obj = field_bytes f.kind (f.get obj) ++ fields_bytes fields obj

  encode_impl_lem :
      (fields : List (FieldDescriptor T)) (buf : List ℕ) (obj : T)
      → encode_impl buf obj fields ≡ buf ++ fields_bytes fields obj
  unfolding encode_impl
  encode_impl_lem [] buf obj = sym (append-nil buf)
  encode_impl_lem (f ∷ fields) buf obj =
      encode_impl_lem fields (encode_field buf f.kind (f.get obj)) obj
      ∙ rw (encode_field_lem buf f.kind (f.get obj)) (append_assoc buf _ (fields_bytes fields obj))

  -- A struct is encoded as its fields, in their order and with nothing between them.
  pub encode_fields :
      (fields : List (FieldDescriptor T)) (obj : T) → encode fields obj ≡ fields_bytes fields obj
  unfolding encode
  encode_fields fields obj = encode_impl_lem fields [] obj
