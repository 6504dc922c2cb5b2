-- ===== src/Dart/Codec/RoundTrip/Packages.antt =====
-- The Dart decoders of packages, their details and their files, on the bytes of the native encoder.
use packagekit_dart.Base.{[], drop, signed64}
use packagekit_dart.Glaze.{u32, u64, string, strings}
use packagekit_dart.Glaze.Encode.{field_bytes, fields_bytes}
use packagekit_dart.Glaze.RoundTrip.{FitsFields}
use packagekit_dart.PkTypes
use packagekit_dart.PkTypes.{
  StructType, pk_package, pk_progress, pk_details, pk_update_detail, pk_repo_detail, pk_files,
  pk_error_code, pk_message, pk_eula_required, pk_repo_sig_required, pk_require_restart,
  pk_manager_props, Struct, meta, package_fields, progress_fields, details_fields,
  update_detail_fields, repo_detail_fields, files_fields, error_code_fields, message_fields,
  eula_required_fields, repo_sig_required_fields, require_restart_fields, manager_props_fields,
}
use packagekit_dart.Dart.Package.{parse}
use packagekit_dart.Dart.Reader.{
  with_reader, read_uint32, read_uint64, read_string, read_string_list,
}
use packagekit_dart.Dart.Reader.Reads.{
  Reads, >>=-Reads, >>=-Reads_value, with_reader-Reads, pure-Reads, read_uint32_lem,
  read_uint64_lem, read_string_lem, read_string_list_lem, string_of, strings_of,
}
use packagekit_dart.Dart.Codec.{decode_package, decode_details, decode_update_detail, decode_files}
use packagekit_dart.Dart.Codec.Meaning.{
  to_dart_package, to_dart_details, to_dart_update_detail, to_dart_files,
}

pub decode_package-Reads :
    (p : PkTypes.PkPackage)
    → FitsFields package_fields p
    → Reads decode_package (fields_bytes package_fields p) (to_dart_package p)
unfolding decode_package to_dart_package
decode_package-Reads p h =
    >>=-Reads_value read_uint32 _ (field_bytes u32 p.info) (fields_bytes (drop 1 package_fields) p)
      p.info _ (read_uint32_lem p.info h.0)
      (>>=-Reads read_string _ (field_bytes string p.package_id)
        (fields_bytes (drop 2 package_fields) p) (string_of p.package_id) _
        (read_string_lem p.package_id h.1.0)
        (λ package_id.
          >>=-Reads read_string _ (field_bytes string p.summary)
            (fields_bytes (drop 3 package_fields) p) (string_of p.summary) _
            (read_string_lem p.summary h.1.1.0)
            (λ summary.
              >>=-Reads (with_reader (parse package_id)) _ [] [] (parse package_id) _
                (with_reader-Reads (parse package_id)) (λ id. pure-Reads _))))

pub decode_details-Reads :
    (p : PkTypes.PkDetails)
    → FitsFields details_fields p
    → Reads decode_details (fields_bytes details_fields p) (to_dart_details p)
unfolding decode_details to_dart_details
decode_details-Reads p h =
    >>=-Reads read_string _ (field_bytes string p.package_id)
      (fields_bytes (drop 1 details_fields) p) (string_of p.package_id) _
      (read_string_lem p.package_id h.0)
      (λ package_id.
        >>=-Reads read_string _ (field_bytes string p.summary)
          (fields_bytes (drop 2 details_fields) p) (string_of p.summary) _
          (read_string_lem p.summary h.1.0)
          (λ summary.
            >>=-Reads read_string _ (field_bytes string p.description)
              (fields_bytes (drop 3 details_fields) p) (string_of p.description) _
              (read_string_lem p.description h.1.1.0)
              (λ description.
                >>=-Reads read_string _ (field_bytes string p.url)
                  (fields_bytes (drop 4 details_fields) p) (string_of p.url) _
                  (read_string_lem p.url h.1.1.1.0)
                  (λ url.
                    >>=-Reads read_string _ (field_bytes string p.license)
                      (fields_bytes (drop 5 details_fields) p) (string_of p.license) _
                      (read_string_lem p.license h.1.1.1.1.0)
                      (λ license.
                        >>=-Reads read_string _ (field_bytes string p.group)
                          (fields_bytes (drop 6 details_fields) p) (string_of p.group) _
                          (read_string_lem p.group h.1.1.1.1.1.0)
                          (λ group.
                            >>=-Reads_value read_uint64 _ (field_bytes u64 p.size)
                              (fields_bytes (drop 7 details_fields) p) (signed64 p.size) _
                              (read_uint64_lem p.size h.1.1.1.1.1.1.0)
                              (>>=-Reads (with_reader (parse package_id)) _ [] [] (parse package_id)
                                _ (with_reader-Reads (parse package_id)) (λ id. pure-Reads _))))))))

pub decode_update_detail-Reads :
    (p : PkTypes.PkUpdateDetail)
    → FitsFields update_detail_fields p
    → Reads decode_update_detail (fields_bytes update_detail_fields p) (to_dart_update_detail p)
unfolding decode_update_detail to_dart_update_detail
decode_update_detail-Reads p h =
    >>=-Reads read_string _ (field_bytes string p.package_id)
      (fields_bytes (drop 1 update_detail_fields) p) (string_of p.package_id) _
      (read_string_lem p.package_id h.0)
      (λ package_id.
        >>=-Reads read_string_list _ (field_bytes strings p.updates)
          (fields_bytes (drop 2 update_detail_fields) p) (strings_of p.updates) _
          (read_string_list_lem p.updates h.1.0)
          (λ updates.
            >>=-Reads read_string_list _ (field_bytes strings p.obsoletes)
              (fields_bytes (drop 3 update_detail_fields) p) (strings_of p.obsoletes) _
              (read_string_list_lem p.obsoletes h.1.1.0)
              (λ obsoletes.
                >>=-Reads read_string_list _ (field_bytes strings p.vendor_urls)
                  (fields_bytes (drop 4 update_detail_fields) p) (strings_of p.vendor_urls) _
                  (read_string_list_lem p.vendor_urls h.1.1.1.0)
                  (λ vendor_urls.
                    >>=-Reads read_string_list _ (field_bytes strings p.bugzilla_urls)
                      (fields_bytes (drop 5 update_detail_fields) p) (strings_of p.bugzilla_urls) _
                      (read_string_list_lem p.bugzilla_urls h.1.1.1.1.0)
                      (λ bugzilla_urls.
                        >>=-Reads read_string_list _ (field_bytes strings p.cve_urls)
                          (fields_bytes (drop 6 update_detail_fields) p) (strings_of p.cve_urls) _
                          (read_string_list_lem p.cve_urls h.1.1.1.1.1.0)
                          (λ cve_urls.
                            >>=-Reads_value read_uint32 _ (field_bytes u32 p.restart)
                              (fields_bytes (drop 7 update_detail_fields) p) p.restart _
                              (read_uint32_lem p.restart h.1.1.1.1.1.1.0)
                              (>>=-Reads read_string _ (field_bytes string p.update_text)
                                (fields_bytes (drop 8 update_detail_fields) p)
                                (string_of p.update_text) _
                                (read_string_lem p.update_text h.1.1.1.1.1.1.1.0)
                                (λ update_text.
                                  >>=-Reads read_string _ (field_bytes string p.changelog)
                                    (fields_bytes (drop 9 update_detail_fields) p)
                                    (string_of p.changelog) _
                                    (read_string_lem p.changelog h.1.1.1.1.1.1.1.1.0)
                                    (λ changelog.
                                      >>=-Reads_value read_uint32 _ (field_bytes u32 p.state)
                                        (fields_bytes (drop 10 update_detail_fields) p) p.state _
                                        (read_uint32_lem p.state h.1.1.1.1.1.1.1.1.1.0)
                                        (>>=-Reads read_string _ (field_bytes string p.issued)
                                          (fields_bytes (drop 11 update_detail_fields) p)
                                          (string_of p.issued) _
                                          (read_string_lem p.issued h.1.1.1.1.1.1.1.1.1.1.0)
                                          (λ issued.
                                            >>=-Reads read_string _ (field_bytes string p.updated)
                                              (fields_bytes (drop 12 update_detail_fields) p)
                                              (string_of p.updated) _
                                              (read_string_lem p.updated h.1.1.1.1.1.1.1.1.1.1.1.0)
                                              (λ updated. pure-Reads _))))))))))))

pub decode_files-Reads :
    (p : PkTypes.PkFiles)
    → FitsFields files_fields p
    → Reads decode_files (fields_bytes files_fields p) (to_dart_files p)
unfolding decode_files to_dart_files
decode_files-Reads p h =
    >>=-Reads read_string _ (field_bytes string p.package_id) (fields_bytes (drop 1 files_fields) p)
      (string_of p.package_id) _ (read_string_lem p.package_id h.0)
      (λ package_id.
        >>=-Reads read_string_list _ (field_bytes strings p.files)
          (fields_bytes (drop 2 files_fields) p) (strings_of p.files) _
          (read_string_list_lem p.files h.1.0) (λ files. pure-Reads _))
