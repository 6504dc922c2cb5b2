-- ===== src/Dart/Codec/Cut.antt =====
-- The decoders of lib/src/ffi/codec.dart on messages that are cut off.
use packagekit_dart.Base.{
  ℕ, ◌+◌, ◌≡◌, refl, sym, ap, ◌∙◌, ◌⊎◌, inl, inr, List, [], ◌∷◌, ◌++◌, arith, length, length-append,
  append-nil,
}
use packagekit_dart.Glaze.{encode}
use packagekit_dart.Glaze.Encode.{fields_bytes, encode_fields}
use packagekit_dart.Glaze.RoundTrip.{FitsFields}
use packagekit_dart.PkTypes.{
  StructType, pk_package, pk_progress, pk_details, pk_update_detail, pk_repo_detail, pk_files,
  pk_error_code, pk_message, pk_eula_required, pk_repo_sig_required, pk_require_restart,
  pk_manager_props, Struct, meta,
}
use packagekit_dart.Dart.Core.{Result, value, throws, DartError, of_bytes}
use packagekit_dart.Dart.Package.{parse}
use packagekit_dart.Dart.Reader.{
  Reader, reader, with_reader, read_uint32, read_uint64, read_bool, read_string, read_string_list,
}
use packagekit_dart.Dart.Reader.Reads.{Stands, after_bytes}
use packagekit_dart.Dart.Reader.Extends.{
  over, Extends, >>=-Extends, pure-Extends, with_reader-Extends, read_uint32-Extends,
  read_uint64-Extends, read_bool-Extends, read_string-Extends, read_string_list-Extends,
}
use packagekit_dart.Dart.Codec.{
  DartStruct, struct_type, decode, result_of, decode_package, decode_progress, decode_details,
  decode_update_detail, decode_repo_detail, decode_files, decode_error_code, decode_message,
  decode_eula_required, decode_repo_sig_required, decode_require_restart, decode_manager_props,
  decode_finished, decode_struct,
}
use packagekit_dart.Dart.Codec.Meaning.{to_dart}
use packagekit_dart.Dart.Codec.RoundTrip.{decode_struct-Reads}

decode_package-Extends : Extends decode_package
unfolding decode_package
decode_package-Extends = >>=-Extends read_uint32 _ read_uint32-Extends (λ info.
    >>=-Extends read_string _ read_string-Extends (λ package_id.
      >>=-Extends read_string _ read_string-Extends (λ summary.
        >>=-Extends (with_reader (parse package_id)) _ (with_reader-Extends (parse package_id))
          (λ id. pure-Extends _))))

decode_progress-Extends : Extends decode_progress
unfolding decode_progress
decode_progress-Extends = >>=-Extends read_string _ read_string-Extends (λ package_id.
    >>=-Extends read_uint32 _ read_uint32-Extends (λ status.
      >>=-Extends read_uint32 _ read_uint32-Extends
        (λ percentage. >>=-Extends read_bool _ read_bool-Extends (λ is_item. pure-Extends _))))

decode_details-Extends : Extends decode_details
unfolding decode_details
decode_details-Extends = >>=-Extends read_string _ read_string-Extends (λ package_id.
    >>=-Extends read_string _ read_string-Extends (λ summary.
      >>=-Extends read_string _ read_string-Extends (λ description.
        >>=-Extends read_string _ read_string-Extends (λ url.
          >>=-Extends read_string _ read_string-Extends (λ license.
            >>=-Extends read_string _ read_string-Extends (λ group.
              >>=-Extends read_uint64 _ read_uint64-Extends (λ size.
                >>=-Extends (with_reader (parse package_id)) _
                  (with_reader-Extends (parse package_id)) (λ id. pure-Extends _))))))))

decode_update_detail-Extends : Extends decode_update_detail
unfolding decode_update_detail
decode_update_detail-Extends = >>=-Extends read_string _ read_string-Extends (λ package_id.
    >>=-Extends read_string_list _ read_string_list-Extends (λ updates.
      >>=-Extends read_string_list _ read_string_list-Extends (λ obsoletes.
        >>=-Extends read_string_list _ read_string_list-Extends (λ vendor_urls.
          >>=-Extends read_string_list _ read_string_list-Extends (λ bugzilla_urls.
            >>=-Extends read_string_list _ read_string_list-Extends (λ cve_urls.
              >>=-Extends read_uint32 _ read_uint32-Extends (λ restart.
                >>=-Extends read_string _ read_string-Extends (λ update_text.
                  >>=-Extends read_string _ read_string-Extends (λ changelog.
                    >>=-Extends read_uint32 _ read_uint32-Extends (λ state.
                      >>=-Extends read_string _ read_string-Extends (λ issued.
                        >>=-Extends read_string _ read_string-Extends
                          (λ updated. pure-Extends _))))))))))))

decode_repo_detail-Extends : Extends decode_repo_detail
unfolding decode_repo_detail
decode_repo_detail-Extends = >>=-Extends read_string _ read_string-Extends (λ repo_id.
    >>=-Extends read_string _ read_string-Extends
      (λ description. >>=-Extends read_bool _ read_bool-Extends (λ enabled. pure-Extends _)))

decode_files-Extends : Extends decode_files
unfolding decode_files
decode_files-Extends = >>=-Extends read_string _ read_string-Extends (λ package_id.
    >>=-Extends read_string_list _ read_string_list-Extends (λ files. pure-Extends _))

decode_error_code-Extends : Extends decode_error_code
unfolding decode_error_code
decode_error_code-Extends =
    >>=-Extends read_uint32 _ read_uint32-Extends
      (λ code. >>=-Extends read_string _ read_string-Extends (λ details. pure-Extends _))

decode_message-Extends : Extends decode_message
unfolding decode_message
decode_message-Extends =
    >>=-Extends read_uint32 _ read_uint32-Extends
      (λ type. >>=-Extends read_string _ read_string-Extends (λ details. pure-Extends _))

decode_eula_required-Extends : Extends decode_eula_required
unfolding decode_eula_required
decode_eula_required-Extends = >>=-Extends read_string _ read_string-Extends (λ eula_id.
    >>=-Extends read_string _ read_string-Extends (λ package_id.
      >>=-Extends read_string _ read_string-Extends (λ vendor_name.
        >>=-Extends read_string _ read_string-Extends (λ license_agreement. pure-Extends _))))

decode_repo_sig_required-Extends : Extends decode_repo_sig_required
unfolding decode_repo_sig_required
decode_repo_sig_required-Extends = >>=-Extends read_string _ read_string-Extends (λ package_id.
    >>=-Extends read_string _ read_string-Extends (λ repository_name.
      >>=-Extends read_string _ read_string-Extends (λ key_url.
        >>=-Extends read_string _ read_string-Extends (λ key_user_id.
          >>=-Extends read_string _ read_string-Extends (λ key_id.
            >>=-Extends read_string _ read_string-Extends (λ key_fingerprint.
              >>=-Extends read_string _ read_string-Extends (λ key_timestamp.
                >>=-Extends read_uint32 _ read_uint32-Extends (λ type. pure-Extends _))))))))

decode_require_restart-Extends : Extends decode_require_restart
unfolding decode_require_restart
decode_require_restart-Extends =
    >>=-Extends read_uint32 _ read_uint32-Extends
      (λ type. >>=-Extends read_string _ read_string-Extends (λ package_id. pure-Extends _))

decode_manager_props-Extends : Extends decode_manager_props
unfolding decode_manager_props
decode_manager_props-Extends = >>=-Extends read_string _ read_string-Extends (λ backend_name.
    >>=-Extends read_string _ read_string-Extends (λ backend_description.
      >>=-Extends read_string _ read_string-Extends (λ backend_author.
        >>=-Extends read_uint64 _ read_uint64-Extends (λ roles.
          >>=-Extends read_uint64 _ read_uint64-Extends (λ filters.
            >>=-Extends read_uint64 _ read_uint64-Extends (λ groups.
              >>=-Extends read_string_list _ read_string_list-Extends (λ mime_types.
                >>=-Extends read_string _ read_string-Extends (λ distro_id.
                  >>=-Extends read_uint32 _ read_uint32-Extends (λ network_state.
                    >>=-Extends read_bool _ read_bool-Extends (λ locked.
                      >>=-Extends read_uint32 _ read_uint32-Extends (λ version_major.
                        >>=-Extends read_uint32 _ read_uint32-Extends (λ version_minor.
                          >>=-Extends read_uint32 _ read_uint32-Extends
                            (λ version_micro. pure-Extends _)))))))))))))

decode_finished-Extends : Extends decode_finished
unfolding decode_finished
decode_finished-Extends =
    >>=-Extends read_uint32 _ read_uint32-Extends
      (λ exit_code. >>=-Extends read_uint32 _ read_uint32-Extends (λ runtime_ms. pure-Extends _))

pub decode_struct-Extends : (t : StructType) → Extends (decode_struct t)
unfolding decode_struct
decode_struct-Extends pk_package = decode_package-Extends
decode_struct-Extends pk_progress = decode_progress-Extends
decode_struct-Extends pk_details = decode_details-Extends
decode_struct-Extends pk_update_detail = decode_update_detail-Extends
decode_struct-Extends pk_repo_detail = decode_repo_detail-Extends
decode_struct-Extends pk_files = decode_files-Extends
decode_struct-Extends pk_error_code = decode_error_code-Extends
decode_struct-Extends pk_message = decode_message-Extends
decode_struct-Extends pk_eula_required = decode_eula_required-Extends
decode_struct-Extends pk_repo_sig_required = decode_repo_sig_required-Extends
decode_struct-Extends pk_require_restart = decode_require_restart-Extends
decode_struct-Extends pk_manager_props = decode_manager_props-Extends

Result-cases :
    {A : Type 0} (x : Result A) → ((a : A) × (x ≡ value a)) ⊎ ((e : DartError) × (x ≡ throws e))
Result-cases (value a) = inl (a, refl)
Result-cases (throws e) = inr (e, refl)

after_bytes-offset :
    {A : Type 0} (r : Reader) (n : ℕ) (c : Result A) (a : A) (r' : Reader)
    → after_bytes r n c ≡ value (a, r')
    → r'.offset ≡ r.offset + n
after_bytes-offset r n (value b) a r' e = ground arith
after_bytes-offset r n (throws x) a r' e = cc

-- A decoder that succeeds on part of an encoding would succeed on the whole of it, and stop short.
no_part :
    (t : StructType) (v : Struct t) (d x : ℕ) (front back : List ℕ) (a : DartStruct t) (r : Reader)
    → FitsFields (meta t) v
    → encode (meta t) v ≡ front ++ (x ∷ back)
    → decode_struct t (over (d ∷ front) [] 1) ≡ value (a, r)
    → ⊥
no_part t v d x front back a r h e ok =
    let whole = d ∷ (front ++ (x ∷ back)) in
    let bytes = fields_bytes (meta t) v in
    let e' : front ++ (x ∷ back) ≡ bytes = sym e ∙ encode_fields (meta t) v in
    let (next, _, short, _, longer) =
      decode_struct-Extends t (d ∷ front) [] (x ∷ back) [] 1 a r (omega arith) ok in
    let stands : Stands (over whole [] 1) (bytes ++ []) = record {
      window = whole;
      tail = [];
      bytes = refl;
      len = refl;
      at = (e' ∙ sym (append-nil bytes), omega (arith, ap length e', length-append bytes []));
    } in
    let end =
      after_bytes-offset (over whole [] 1) (length bytes) (to_dart t v) a (over whole [] next)
        (sym (decode_struct-Reads t v h (over whole [] 1) [] stands) ∙ longer) in
    absurd (omega (arith, short, end, ap length e', length-append front (x ∷ back)))

-- The encoding of a struct whose members fit their wire types, less one byte or more at its end,
-- makes the Dart codec throw.
pub decode_cut :
    (t : StructType) (v : Struct t) (d x : ℕ) (front back : List ℕ)
    → FitsFields (meta t) v
    → encode (meta t) v ≡ front ++ (x ∷ back)
    → (e : DartError) × (decode (struct_type t) (of_bytes (d ∷ front)) 1 ≡ throws e)
unfolding decode
decode_cut t v d x front back h e =
    elim (Result-cases (decode_struct t (reader (of_bytes (d ∷ front)) 1))) [
      | inl ((a, r), ok) ↦ absurd (no_part t v d x front back a r h e (whole_buffer a r ok))
      | inr (e, bad) ↦ (e, ap result_of bad)
    ]
  where
    whole_buffer :
        (a : DartStruct t) (r : Reader)
        → decode_struct t (reader (of_bytes (d ∷ front)) 1) ≡ value (a, r)
        → decode_struct t (over (d ∷ front) [] 1) ≡ value (a, r)
    whole_buffer a r ok = rw (append-nil front) ok
