-- ===== src/Dart/Codec/RoundTrip/Notices.antt =====
-- The Dart decoders of progress, errors and requests to the user, on the bytes of the native
-- encoder.
use packagekit_dart.Base.{drop}
use packagekit_dart.Glaze.{boolean, u32, string}
use packagekit_dart.Glaze.Encode.{field_bytes, fields_bytes}
use packagekit_dart.Glaze.RoundTrip.{FitsFields}
use packagekit_dart.PkTypes
use packagekit_dart.PkTypes.{
  StructType, pk_package, pk_progress, pk_details, pk_update_detail, pk_repo_detail, pk_files,
  pk_error_code, pk_message, pk_eula_required, pk_repo_sig_required, pk_require_restart,
  pk_manager_props, Struct, meta, package_fields, progress_fields, details_fields,
  update_detail_fields, repo_detail_fields, files_fields, error_code_fields, message_fields,
  eula_required_fields, repo_sig_required_fields, require_restart_fields, manager_props_fields,
}
use packagekit_dart.Dart.Core.{value}
use packagekit_dart.Dart.Enums.PkStatus
use packagekit_dart.Dart.Reader.{read_uint32, read_bool, read_string}
use packagekit_dart.Dart.Reader.Reads.{
  Reads, >>=-Reads, >>=-Reads_value, pure-Reads, read_uint32_lem, read_bool_lem, read_string_lem,
  string_of,
}
use packagekit_dart.Dart.Codec.{
  decode_progress, decode_error_code, decode_message, decode_eula_required,
  decode_repo_sig_required, decode_require_restart,
}
use packagekit_dart.Dart.Codec.Meaning.{
  to_dart_progress, to_dart_error_code, to_dart_message, to_dart_eula_required,
  to_dart_repo_sig_required, to_dart_require_restart,
}

pub decode_progress-Reads :
    (p : PkTypes.PkProgress)
    → FitsFields progress_fields p
    → Reads decode_progress (fields_bytes progress_fields p) (to_dart_progress p)
unfolding decode_progress to_dart_progress
decode_progress-Reads p h =
    >>=-Reads read_string _ (field_bytes string p.package_id)
      (fields_bytes (drop 1 progress_fields) p) (string_of p.package_id) _
      (read_string_lem p.package_id h.0)
      (λ package_id.
        >>=-Reads_value read_uint32 _ (field_bytes u32 p.status)
          (fields_bytes (drop 2 progress_fields) p) p.status
          (value (record {
            package_id = package_id;
            status = PkStatus.from_int p.status;
            percentage = p.percentage;
            is_item = p.is_item;
          }))
          (read_uint32_lem p.status h.1.0)
          (>>=-Reads_value read_uint32 _ (field_bytes u32 p.percentage)
            (fields_bytes (drop 3 progress_fields) p) p.percentage
            (value (record {
              package_id = package_id;
              status = PkStatus.from_int p.status;
              percentage = p.percentage;
              is_item = p.is_item;
            }))
            (read_uint32_lem p.percentage h.1.1.0)
            (>>=-Reads_value read_bool _ (field_bytes boolean p.is_item)
              (fields_bytes (drop 4 progress_fields) p) p.is_item
              (value (record {
                package_id = package_id;
                status = PkStatus.from_int p.status;
                percentage = p.percentage;
                is_item = p.is_item;
              }))
              (read_bool_lem p.is_item) (pure-Reads _))))

pub decode_error_code-Reads :
    (p : PkTypes.PkErrorCode)
    → FitsFields error_code_fields p
    → Reads decode_error_code (fields_bytes error_code_fields p) (to_dart_error_code p)
unfolding decode_error_code to_dart_error_code
decode_error_code-Reads p h =
    >>=-Reads_value read_uint32 _ (field_bytes u32 p.code)
      (fields_bytes (drop 1 error_code_fields) p) p.code _ (read_uint32_lem p.code h.0)
      (>>=-Reads read_string _ (field_bytes string p.details)
        (fields_bytes (drop 2 error_code_fields) p) (string_of p.details) _
        (read_string_lem p.details h.1.0) (λ details. pure-Reads _))

pub decode_message-Reads :
    (p : PkTypes.PkMessage)
    → FitsFields message_fields p
    → Reads decode_message (fields_bytes message_fields p) (to_dart_message p)
unfolding decode_message to_dart_message
decode_message-Reads p h =
    >>=-Reads_value read_uint32 _ (field_bytes u32 p.type) (fields_bytes (drop 1 message_fields) p)
      p.type _ (read_uint32_lem p.type h.0)
      (>>=-Reads read_string _ (field_bytes string p.details)
        (fields_bytes (drop 2 message_fields) p) (string_of p.details) _
        (read_string_lem p.details h.1.0) (λ details. pure-Reads _))

pub decode_eula_required-Reads :
    (p : PkTypes.PkEulaRequired)
    → FitsFields eula_required_fields p
    → Reads decode_eula_required (fields_bytes eula_required_fields p) (to_dart_eula_required p)
unfolding decode_eula_required to_dart_eula_required
decode_eula_required-Reads p h =
    >>=-Reads read_string _ (field_bytes string p.eula_id)
      (fields_bytes (drop 1 eula_required_fields) p) (string_of p.eula_id) _
      (read_string_lem p.eula_id h.0)
      (λ eula_id.
        >>=-Reads read_string _ (field_bytes string p.package_id)
          (fields_bytes (drop 2 eula_required_fields) p) (string_of p.package_id) _
          (read_string_lem p.package_id h.1.0)
          (λ package_id.
            >>=-Reads read_string _ (field_bytes string p.vendor_name)
              (fields_bytes (drop 3 eula_required_fields) p) (string_of p.vendor_name) _
              (read_string_lem p.vendor_name h.1.1.0)
              (λ vendor_name.
                >>=-Reads read_string _ (field_bytes string p.license_agreement)
                  (fields_bytes (drop 4 eula_required_fields) p) (string_of p.license_agreement) _
                  (read_string_lem p.license_agreement h.1.1.1.0)
                  (λ license_agreement. pure-Reads _))))

pub decode_repo_sig_required-Reads :
    (p : PkTypes.PkRepoSigRequired)
    → FitsFields repo_sig_required_fields p
    → Reads decode_repo_sig_required
        (fields_bytes repo_sig_required_fields p)
        (to_dart_repo_sig_required p)
unfolding decode_repo_sig_required to_dart_repo_sig_required
decode_repo_sig_required-Reads p h =
    >>=-Reads read_string _ (field_bytes string p.package_id)
      (fields_bytes (drop 1 repo_sig_required_fields) p) (string_of p.package_id) _
      (read_string_lem p.package_id h.0)
      (λ package_id.
        >>=-Reads read_string _ (field_bytes string p.repository_name)
          (fields_bytes (drop 2 repo_sig_required_fields) p) (string_of p.repository_name) _
          (read_string_lem p.repository_name h.1.0)
          (λ repository_name.
            >>=-Reads read_string _ (field_bytes string p.key_url)
              (fields_bytes (drop 3 repo_sig_required_fields) p) (string_of p.key_url) _
              (read_string_lem p.key_url h.1.1.0)
              (λ key_url.
                >>=-Reads read_string _ (field_bytes string p.key_user_id)
                  (fields_bytes (drop 4 repo_sig_required_fields) p) (string_of p.key_user_id) _
                  (read_string_lem p.key_user_id h.1.1.1.0)
                  (λ key_user_id.
                    >>=-Reads read_string _ (field_bytes string p.key_id)
                      (fields_bytes (drop 5 repo_sig_required_fields) p) (string_of p.key_id) _
                      (read_string_lem p.key_id h.1.1.1.1.0)
                      (λ key_id.
                        >>=-Reads read_string _ (field_bytes string p.key_fingerprint)
                          (fields_bytes (drop 6 repo_sig_required_fields) p)
                          (string_of p.key_fingerprint) _
                          (read_string_lem p.key_fingerprint h.1.1.1.1.1.0)
                          (λ key_fingerprint.
                            >>=-Reads read_string _ (field_bytes string p.key_timestamp)
                              (fields_bytes (drop 7 repo_sig_required_fields) p)
                              (string_of p.key_timestamp) _
                              (read_string_lem p.key_timestamp h.1.1.1.1.1.1.0)
                              (λ key_timestamp.
                                >>=-Reads_value read_uint32 _ (field_bytes u32 p.type)
                                  (fields_bytes (drop 8 repo_sig_required_fields) p) p.type
                                  (value (record {
                                    package_id = package_id;
                                    repository_name = repository_name;
                                    key_url = key_url;
                                    key_user_id = key_user_id;
                                    key_id = key_id;
                                    key_fingerprint = key_fingerprint;
                                    key_timestamp = key_timestamp;
                                    type = p.type;
                                  }))
                                  (read_uint32_lem p.type h.1.1.1.1.1.1.1.0) (pure-Reads _))))))))

pub decode_require_restart-Reads :
    (p : PkTypes.PkRequireRestart)
    → FitsFields require_restart_fields p
    → Reads decode_require_restart
        (fields_bytes require_restart_fields p)
        (to_dart_require_restart p)
unfolding decode_require_restart to_dart_require_restart
decode_require_restart-Reads p h =
    >>=-Reads_value read_uint32 _ (field_bytes u32 p.type)
      (fields_bytes (drop 1 require_restart_fields) p) p.type _ (read_uint32_lem p.type h.0)
      (>>=-Reads read_string _ (field_bytes string p.package_id)
        (fields_bytes (drop 2 require_restart_fields) p) (string_of p.package_id) _
        (read_string_lem p.package_id h.1.0) (λ package_id. pure-Reads _))
