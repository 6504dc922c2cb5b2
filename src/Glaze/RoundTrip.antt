-- ===== src/Glaze/RoundTrip.antt =====
-- Decoding what was encoded, at any place of a buffer.
use packagekit_dart.Base.{
  ℕ, ◌+◌, ◌%◌, ◌^◌, ◌<◌, ◌≡◌, refl, ap, subst, ◌∙◌, true, false, some, List, [], ◌∷◌, ◌++◌,
  append_assoc, arith, length, length-append, drop-length-append, All, le→leb, At, At-advance,
  At-take, At-bound, le_bytes, of_le_bytes, of_le_bytes-u32, of_le_bytes-u64,
}
use packagekit_dart.Glaze.{
  Kind, u8, boolean, u32, u64, string, strings, Value, FieldDescriptor, read_bytes, decode_uint,
  decode_string, decode_each, decode_strings, decode_bool, decode_field, decode_impl, decode,
  encode,
}
use packagekit_dart.Glaze.Encode.{
  string_bytes, each_bytes, field_bytes, fields_bytes, encode_fields,
}

abbrev pub IsU32 : ℕ → Type 0
IsU32 v = v < 2 ^ 32

u32_mod : (v : ℕ) → IsU32 v → v % 2 ^ 32 ≡ v
u32_mod v h = omega arith

abbrev pub FitsString : List ℕ → Type 0
FitsString s = IsU32 (length s)

-- The values that the encoding can hold.
abbrev pub Fits : (k : Kind) → Value k → Type 0
Fits u8 v = v < 256
Fits boolean v = Unit {0}
Fits u32 v = IsU32 v
Fits u64 v = v < 2 ^ 64
Fits string s = FitsString s
Fits strings v = IsU32 (length v) × All FitsString v

module _ (buf : List ℕ) where
  read_bytes_lem :
      (o n : ℕ) (bytes rest : List ℕ)
      → At buf o (bytes ++ rest)
      → length bytes ≡ n
      → read_bytes buf o n ≡ some (bytes, o + n)
  unfolding read_bytes
  read_bytes_lem o n bytes rest h e =
      rw (← e) (rw (le→leb _ _ (At-bound buf o bytes rest h)) (rw (At-take buf o bytes rest h)))

  decode_uint_lem :
      (size o v : ℕ) (bytes rest : List ℕ)
      → At buf o (bytes ++ rest)
      → length bytes ≡ size
      → of_le_bytes bytes ≡ v
      → decode_uint size buf o ≡ some (v, o + size)
  unfolding decode_uint
  decode_uint_lem size o v bytes rest h n e = rw (read_bytes_lem o size bytes rest h n, e)

  decode_string_lem :
      (o : ℕ) (s rest : List ℕ)
      → FitsString s
      → At buf o (string_bytes s ++ rest)
      → decode_string buf o ≡ some (s, o + length (string_bytes s))
  unfolding decode_string
  decode_string_lem o s rest h at =
      rw
        (decode_uint_lem 4 o (length s % 2 ^ 32) (le_bytes 4 (length s % 2 ^ 32)) (s ++ rest) at
          refl (of_le_bytes-u32 _ (omega arith)))
        (rw (u32_mod (length s) h) (
          read_bytes_lem (o + 4) (length s) s rest
            (At-advance buf o (le_bytes 4 (length s % 2 ^ 32)) (s ++ rest) at) refl
          ∙ ap (λ n. some (s, n)) (omega arith)))

  decode_each_lem :
      (v : List (List ℕ)) (o : ℕ) (rest : List ℕ)
      → All FitsString v
      → At buf o (each_bytes v ++ rest)
      → decode_each (length v) buf o ≡ some (v, o + length (each_bytes v))
  unfolding decode_each
  decode_each_lem [] o rest h at = ap (λ n. some ([], n)) (omega arith)
  decode_each_lem (s ∷ v) o rest h at =
      let at' : At buf o (string_bytes s ++ (each_bytes v ++ rest)) =
        subst (At buf o) (append_assoc (string_bytes s) (each_bytes v) rest) at in
      rw (decode_string_lem o s (each_bytes v ++ rest) h.0 at') (
        rw
          (decode_each_lem v (o + length (string_bytes s)) rest h.1
            (At-advance buf o (string_bytes s) (each_bytes v ++ rest) at'))
          (ap (λ n. some (s ∷ v, n))
            (omega (arith, length-append (string_bytes s) (each_bytes v)))))

  decode_strings_lem :
      (o : ℕ) (v : List (List ℕ)) (rest : List ℕ)
      → Fits strings v
      → At buf o (field_bytes strings v ++ rest)
      → decode_strings buf o ≡ some (v, o + length (field_bytes strings v))
  unfolding decode_strings
  decode_strings_lem o v rest h at =
      let header = le_bytes 4 (length v % 2 ^ 32) in
      rw
        (decode_uint_lem 4 o (length v % 2 ^ 32) header (each_bytes v ++ rest) at refl
          (of_le_bytes-u32 _ (omega arith)))
        (rw (u32_mod (length v) h.0) (
          decode_each_lem v (o + 4) rest h.1 (At-advance buf o header (each_bytes v ++ rest) at)
          ∙ ap (λ n. some (v, n)) (omega arith)))

  -- Each field is read back, and the read stops behind it.
  pub decode_field_lem :
      (k : Kind) (o : ℕ) (v : Value k) (rest : List ℕ)
      → Fits k v
      → At buf o (field_bytes k v ++ rest)
      → decode_field k buf o ≡ some (v, o + length (field_bytes k v))
  unfolding decode_field
  decode_field_lem u8 o v rest h at = decode_uint_lem 1 o v (v ∷ []) rest at refl (omega arith)
  decode_field_lem boolean o true rest h at =
      unfold decode_bool in rw (decode_uint_lem 1 o 1 (1 ∷ []) rest at refl (omega arith))
  decode_field_lem boolean o false rest h at =
      unfold decode_bool in rw (decode_uint_lem 1 o 0 (0 ∷ []) rest at refl (omega arith))
  decode_field_lem u32 o v rest h at =
      decode_uint_lem 4 o v (le_bytes 4 v) rest at refl (of_le_bytes-u32 v h)
  decode_field_lem u64 o v rest h at =
      decode_uint_lem 8 o v (le_bytes 8 v) rest at refl (of_le_bytes-u64 v h)
  decode_field_lem string o v rest h at = decode_string_lem o v rest h at
  decode_field_lem strings o v rest h at = decode_strings_lem o v rest h at

module _ {T : Type 0} where
  -- Every field of the struct holds a value that the encoding can hold.
  abbrev pub FitsFields : List (FieldDescriptor T) → T → Type 0
  FitsFields [] obj = Unit {0}
  FitsFields (f ∷ fields) obj = Fits f.kind (f.get obj) × FitsFields fields obj

  -- The listed members of `obj` written over `target`.
  abbrev pub copy_fields : List (FieldDescriptor T) → T → T → T
  copy_fields [] obj target = target
  copy_fields (f ∷ fields) obj target = copy_fields fields obj (f.set target (f.get obj))

  decode_impl_lem :
      (fields : List (FieldDescriptor T)) (buf : List ℕ) (o : ℕ) (obj target : T) (rest : List ℕ)
      → FitsFields fields obj
      → At buf o (fields_bytes fields obj ++ rest)
      → decode_impl buf o target fields
        ≡ some (copy_fields fields obj target, o + length (fields_bytes fields obj))
  unfolding decode_impl
  decode_impl_lem [] buf o obj target rest h at = ap (λ n. some (target, n)) (omega arith)
  decode_impl_lem (f ∷ fields) buf o obj target rest h at =
      let bytes = field_bytes f.kind (f.get obj) in
      let more = fields_bytes fields obj in
      let at' : At buf o (bytes ++ (more ++ rest)) =
        subst (At buf o) (append_assoc bytes more rest) at in
      rw (decode_field_lem buf f.kind o (f.get obj) (more ++ rest) h.0 at') (
        rw
          (decode_impl_lem fields buf (o + length bytes) obj (f.set target (f.get obj)) rest h.1
            (At-advance buf o bytes (more ++ rest) at'))
          (ap (λ n. some (copy_fields fields obj (f.set target (f.get obj)), n))
            (omega (arith, length-append bytes more))))

  -- `decode` at the place of an encoded struct, whatever stands before and behind it, writes the
  -- struct's listed members over the target and returns the offset behind the encoding.
  pub decode-encode :
      (fields : List (FieldDescriptor T)) (front rest : List ℕ) (obj target : T)
      → FitsFields fields obj
      → decode fields (front ++ (encode fields obj ++ rest)) (length front) target
        ≡ some (copy_fields fields obj target, length front + length (encode fields obj))
  unfolding decode
  decode-encode fields front rest obj target h = rw (encode_fields fields obj) (
      decode_impl_lem fields _ (length front) obj target rest h
        (drop-length-append front _, length-append front _))
