-- ===== src/Dart/Codec/Decode.antt =====
-- GlazeCodec.decode on messages.
use packagekit_dart.Base.{
  ℕ, ◌≡◌, refl, sym, ap, subst, ◌∙◌, List, [], ◌∷◌, ◌++◌, append-nil, arith, length,
  drop-length-append, length-append, le_bytes,
}
use packagekit_dart.Glaze.{encode}
use packagekit_dart.Glaze.Encode.{fields_bytes, encode_fields}
use packagekit_dart.Glaze.RoundTrip.{FitsFields, IsU32}
use packagekit_dart.PkTypes.{StructType, Struct, meta}
use packagekit_dart.Dart.Core.{Result, value, throws, Uint8List, of_bytes}
use packagekit_dart.Dart.Records.{PkFinished}
use packagekit_dart.Dart.Reader.{Reader, R, reader}
use packagekit_dart.Dart.Reader.Reads.{
  Stands, Reads, after_bytes, >>=-Reads_value, map-Reads, read_uint32_lem,
}
use packagekit_dart.Dart.Reader.{read_uint32}
use packagekit_dart.Dart.Codec.{
  struct_type, finished_type, decode, decode_struct, decode_finished, result_of,
}
use packagekit_dart.Dart.Codec.Meaning.{to_dart}
use packagekit_dart.Dart.Codec.RoundTrip.{decode_struct-Reads}

-- A view of `msg` in a buffer that goes on before and behind it.
abbrev pub view_in : List ℕ → List ℕ → List ℕ → Uint8List
view_in before msg behind = record {
  buffer = before ++ (msg ++ behind);
  offset_in_bytes = length before;
  len = length msg;
}

result_of-after_bytes :
    {A : Type 0} (r : Reader) (n : ℕ) (c : Result A) → result_of (after_bytes r n c) ≡ c
result_of-after_bytes r n (value a) = refl
result_of-after_bytes r n (throws e) = refl

module _ (before behind bytes : List ℕ) (d : ℕ) where
  view-Stands : Stands (reader (view_in before (d ∷ bytes) behind) 1) (bytes ++ [])
  view-Stands = record {
    window = d ∷ bytes;
    tail = behind;
    bytes = drop-length-append before ((d ∷ bytes) ++ behind);
    len = refl;
    at = (sym (append-nil bytes), omega (arith, length-append bytes []));
  }

  result_of-Reads :
      {A : Type 0} (m : R A) (c : Result A)
      → Reads m bytes c
      → result_of (m (reader (view_in before (d ∷ bytes) behind) 1)) ≡ c
  result_of-Reads m c h =
      ap result_of (h _ [] view-Stands) ∙ result_of-after_bytes _ (length bytes) c

-- Wherever the view lies in its buffer, the Dart codec reads a message that holds one discriminator
-- byte and the native encoding of a struct whose members fit their wire types, and its result is
-- the struct with its members converted.
pub decode-encode_view :
    (t : StructType) (v : Struct t) (d : ℕ) (before behind : List ℕ)
    → FitsFields (meta t) v
    → decode (struct_type t) (view_in before (d ∷ encode (meta t) v) behind) 1 ≡ to_dart t v
unfolding decode
decode-encode_view t v d before behind h = rw (encode_fields (meta t) v) (
    result_of-Reads before behind (fields_bytes (meta t) v) d (decode_struct t) (to_dart t v)
      (decode_struct-Reads t v h))

-- The same for a message that has its buffer to itself.
pub decode-encode_message :
    (t : StructType) (v : Struct t) (d : ℕ)
    → FitsFields (meta t) v
    → decode (struct_type t) (of_bytes (d ∷ encode (meta t) v)) 1 ≡ to_dart t v
decode-encode_message t v d h =
    subst
      (λ bs.
        decode (struct_type t)
          (record { buffer = bs; offset_in_bytes = 0; len = length (d ∷ encode (meta t) v) }) 1
        ≡ to_dart t v)
      (append-nil (d ∷ encode (meta t) v)) (decode-encode_view t v d [] [] h)

finished-Reads :
    (e r : ℕ)
    → IsU32 e
    → IsU32 r
    → Reads decode_finished
        (le_bytes 4 e ++ le_bytes 4 r)
        (value (record { exit_code = e; runtime_ms = r }))
unfolding decode_finished
finished-Reads e r he hr =
    >>=-Reads_value read_uint32 _ (le_bytes 4 e) (le_bytes 4 r) e
      (value (record { exit_code = e; runtime_ms = r })) (read_uint32_lem e he)
      (map-Reads read_uint32
        (λ n. let f : PkFinished = record { exit_code = e; runtime_ms = n } in f) (le_bytes 4 r)
        (value r) (read_uint32_lem r hr))

pub decode_finished_lem :
    (e r d : ℕ)
    → IsU32 e
    → IsU32 r
    → decode finished_type (of_bytes (d ∷ (le_bytes 4 e ++ le_bytes 4 r))) 1
      ≡ value (record { exit_code = e; runtime_ms = r })
unfolding decode
decode_finished_lem e r d he hr =
    result_of-Reads [] [] (le_bytes 4 e ++ le_bytes 4 r) d decode_finished
      (value (record { exit_code = e; runtime_ms = r })) (finished-Reads e r he hr)
