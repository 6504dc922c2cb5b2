-- ===== src/Examples/Codecs.antt =====
-- The codecs at concrete structs and views.
use packagekit_dart.Dart.Bindings.Memory.{bytes, Memory, alloc_array}
use packagekit_dart.Dart.Bindings.Arrays.{IsBorrowed, alloc_array-IsBorrowed}
use packagekit_dart.Base.{
  ℕ, ◌+◌, ◌≡◌, refl, true, false, some, none, List, [], ◌∷◌, ◌++◌, codes, arith, length,
}
use packagekit_dart.Glaze.{encode, encode_field, decode}
use packagekit_dart.PkTypes.{Struct, meta, pk_progress}
use packagekit_dart.PkTypes.RoundTrip.{decode-encode_struct, decode_cut_struct}
use packagekit_dart.Glaze.RoundTrip.{FitsFields}
use packagekit_dart.Dart.Core.{throws, DartError, of_bytes}
use packagekit_dart.Dart.Codec
use packagekit_dart.Dart.Codec.{struct_type}
use packagekit_dart.Dart.Codec.Meaning.{to_dart}
use packagekit_dart.Dart.Codec.Decode.{view_in, decode-encode_view}
use packagekit_dart.Dart.Codec.Cut.{decode_cut}
use packagekit_dart.Dart.Dispatcher.{new_dispatcher, close, failed, internal_decode_error}
use packagekit_dart.Dart.Dispatcher.Session.{receive}
use packagekit_dart.Dart.Dispatcher.Malformed.{receive_cut}
use packagekit_dart.Dart.Package.{PkPackageId, parse, raw}
use packagekit_dart.Dart.Package.Ids.{IsClean, parse-eq-value}

abbrev a_progress : Struct pk_progress
a_progress = record { package_id = codes "ed"; status = 8; percentage = 40; is_item = true }

abbrev blank_progress : Struct pk_progress
blank_progress = record { package_id = codes "old"; status = 0; percentage = 0; is_item = false }

a_progress-FitsFields : FitsFields (meta pk_progress) a_progress
a_progress-FitsFields = (omega arith, (omega arith, (omega arith, (tt, tt))))

decode-encode_struct_example :
    decode
      (meta pk_progress)
      (9 ∷ (encode (meta pk_progress) a_progress ++ (1 ∷ 2 ∷ [])))
      1
      blank_progress
    ≡ some (a_progress, 1 + length (encode (meta pk_progress) a_progress))
decode-encode_struct_example =
    decode-encode_struct pk_progress (9 ∷ []) (1 ∷ 2 ∷ []) a_progress blank_progress
      a_progress-FitsFields

abbrev progress_front : List ℕ
progress_front = 2 ∷ 0 ∷ 0 ∷ 0 ∷ 0x65 ∷ 0x64 ∷ 8 ∷ 0 ∷ 0 ∷ 0 ∷ 40 ∷ 0 ∷ 0 ∷ []

a_progress-encode : encode (meta pk_progress) a_progress ≡ progress_front ++ (0 ∷ 1 ∷ [])
unfolding encode encode_field
a_progress-encode = refl

decode_cut_struct_example : decode (meta pk_progress) progress_front 0 blank_progress ≡ none
decode_cut_struct_example =
    decode_cut_struct pk_progress a_progress blank_progress progress_front (1 ∷ []) 0
      a_progress-FitsFields a_progress-encode

decode-encode_view_example :
    Codec.decode
      (struct_type pk_progress)
      (view_in (7 ∷ 7 ∷ []) (2 ∷ encode (meta pk_progress) a_progress) (5 ∷ []))
      1
    ≡ to_dart pk_progress a_progress
decode-encode_view_example =
    decode-encode_view pk_progress a_progress 2 (7 ∷ 7 ∷ []) (5 ∷ []) a_progress-FitsFields

decode_cut_example :
    (e : DartError) × (Codec.decode (struct_type pk_progress) (of_bytes (2 ∷ progress_front)) 1
      ≡ throws e)
decode_cut_example =
    decode_cut pk_progress a_progress 2 0 progress_front (1 ∷ []) a_progress-FitsFields
      a_progress-encode

abbrev an_id : PkPackageId
an_id = record { name = codes "a"; version = codes "1"; arch = codes "x"; data_ = [] }

an_id-IsClean : IsClean an_id
an_id-IsClean = record {
  name = (λ e. absurd (omega (arith, e)), tt);
  version = (λ e. absurd (omega (arith, e)), tt);
  arch = (λ e. absurd (omega (arith, e)), tt);
  data_ = tt;
}

parse-eq-value_example : (raw an_id ≡ codes "a;1;x;") × IsClean an_id
unfolding parse
parse-eq-value_example = parse-eq-value (codes "a;1;x;") an_id refl

receive_cut_example :
    (e : DartError) × (receive (of_bytes (2 ∷ progress_front)) new_dispatcher
      ≡ record (close new_dispatcher) {
        done = failed (internal_decode_error e);
        scheduled_closes = 0;
      })
receive_cut_example =
    receive_cut new_dispatcher pk_progress a_progress 0 progress_front (1 ∷ []) (λ n. absurd (cc n))
      a_progress-FitsFields a_progress-encode refl refl

abbrev a_memory : Memory
a_memory = record { blocks = (3, bytes (7 ∷ [])) ∷ []; last = 3 }

alloc_array-IsBorrowed_example :
    IsBorrowed
      (codes "ed" ∷ codes "vi" ∷ [])
      a_memory
      (alloc_array (codes "ed" ∷ codes "vi" ∷ []) a_memory)
alloc_array-IsBorrowed_example =
    alloc_array-IsBorrowed (codes "ed" ∷ codes "vi" ∷ []) a_memory (omega arith, tt)
