-- ===== src/Dart/Codec/RoundTrip.antt =====
-- The Dart decoders on the bytes that the native encoder writes.
mod Packages
mod Notices
mod Daemon
use packagekit_dart.Base.{[], drop, signed64}
use packagekit_dart.Glaze.{boolean, u32, u64, string, strings}
use packagekit_dart.Glaze.Encode.{field_bytes, fields_bytes}
use packagekit_dart.Glaze.RoundTrip.{FitsFields}
use packagekit_dart.PkTypes
use packagekit_dart.PkTypes.{
  StructType, pk_package, pk_progress, pk_details, pk_update_detail, pk_repo_detail, pk_files,
  pk_error_code, pk_message, pk_eula_required, pk_repo_sig_required, pk_require_restart,
  pk_manager_props, Struct, meta, package_fields, progress_fields, details_fields,
  update_detail_fields, repo_detail_fields, files_fields, error_code_fields, message_fields,
  eula_required_fields, repo_sig_required_fields, require_restart_fields, manager_props_fields,
}
use packagekit_dart.Dart.Core.{value}
use packagekit_dart.Dart.Enums.PkStatus
use packagekit_dart.Dart.Package.{parse}
use packagekit_dart.Dart.Reader.{
  with_reader, read_uint32, read_uint64, read_bool, read_string, read_string_list,
}
use packagekit_dart.Dart.Reader.Reads.{
  Reads, >>=-Reads, >>=-Reads_value, with_reader-Reads, pure-Reads, read_uint32_lem,
  read_uint64_lem, read_bool_lem, read_string_lem, read_string_list_lem, string_of, strings_of,
}
use packagekit_dart.Dart.Codec.{
  decode_package, decode_progress, decode_details, decode_update_detail, decode_repo_detail,
  decode_files, decode_error_code, decode_message, decode_eula_required, decode_repo_sig_required,
  decode_require_restart, decode_manager_props, decode_struct,
}
use packagekit_dart.Dart.Codec.Meaning.{
  to_dart_package, to_dart_progress, to_dart_details, to_dart_update_detail, to_dart_repo_detail,
  to_dart_files, to_dart_error_code, to_dart_message, to_dart_eula_required,
  to_dart_repo_sig_required, to_dart_require_restart, to_dart_manager_props, to_dart,
}
use packagekit_dart.Dart.Codec.RoundTrip.Packages.{
  decode_package-Reads, decode_details-Reads, decode_update_detail-Reads, decode_files-Reads,
}
use packagekit_dart.Dart.Codec.RoundTrip.Notices.{
  decode_progress-Reads, decode_error_code-Reads, decode_message-Reads, decode_eula_required-Reads,
  decode_repo_sig_required-Reads, decode_require_restart-Reads,
}
use packagekit_dart.Dart.Codec.RoundTrip.Daemon.{
  decode_repo_detail-Reads, decode_manager_props-Reads,
}

pub decode_struct-Reads :
    (t : StructType) (v : Struct t)
    → FitsFields (meta t) v
    → Reads (decode_struct t) (fields_bytes (meta t) v) (to_dart t v)
unfolding decode_struct to_dart
decode_struct-Reads pk_package v h = decode_package-Reads v h
decode_struct-Reads pk_progress v h = decode_progress-Reads v h
decode_struct-Reads pk_details v h = decode_details-Reads v h
decode_struct-Reads pk_update_detail v h = decode_update_detail-Reads v h
decode_struct-Reads pk_repo_detail v h = decode_repo_detail-Reads v h
decode_struct-Reads pk_files v h = decode_files-Reads v h
decode_struct-Reads pk_error_code v h = decode_error_code-Reads v h
decode_struct-Reads pk_message v h = decode_message-Reads v h
decode_struct-Reads pk_eula_required v h = decode_eula_required-Reads v h
decode_struct-Reads pk_repo_sig_required v h = decode_repo_sig_required-Reads v h
decode_struct-Reads pk_require_restart v h = decode_require_restart-Reads v h
decode_struct-Reads pk_manager_props v h = decode_manager_props-Reads v h
