-- ===== src/PkTypes/RoundTrip.antt =====
-- The structs of native/include/pk_types.h through the codec of native/include/glaze_meta.h.
use packagekit_dart.Base.{ℕ, ◌+◌, ◌≡◌, refl, some, none, List, ◌∷◌, ◌++◌, ap, ◌∙◌, length}
use packagekit_dart.Glaze.{encode, decode}
use packagekit_dart.Glaze.RoundTrip.{FitsFields, copy_fields, decode-encode}
use packagekit_dart.Glaze.Prefix.{decode_truncated}
use packagekit_dart.PkTypes.{StructType, pk_package, Struct, meta}

-- The listed members are all the members.
pub copy_fields-meta :
    (t : StructType) (obj target : Struct t) → copy_fields (meta t) obj target ≡ obj
copy_fields-meta pk_package obj target = refl
copy_fields-meta _ obj target = refl

-- For every struct of pk_types.h whose members fit their wire types, decoding at the place of its
-- encoding, whatever stands before and behind it and whatever the target held, gives the struct and
-- the offset behind the encoding.
pub decode-encode_struct :
    (t : StructType) (front rest : List ℕ) (obj target : Struct t)
    → FitsFields (meta t) obj
    → decode (meta t) (front ++ (encode (meta t) obj ++ rest)) (length front) target
      ≡ some (obj, length front + length (encode (meta t) obj))
decode-encode_struct t front rest obj target h =
    decode-encode (meta t) front rest obj target h
    ∙ ap (λ r. some (r, length front + length (encode (meta t) obj)))
        (copy_fields-meta t obj target)

-- For every struct of pk_types.h whose members fit their wire types, the encoding less one byte or
-- more at its end makes the decoder read past the end of the buffer.
pub decode_cut_struct :
    (t : StructType) (obj target : Struct t) (front back : List ℕ) (x : ℕ)
    → FitsFields (meta t) obj
    → encode (meta t) obj ≡ front ++ (x ∷ back)
    → decode (meta t) front 0 target ≡ none
decode_cut_struct t obj target front back x h e =
    decode_truncated (meta t) obj target front back x h e
