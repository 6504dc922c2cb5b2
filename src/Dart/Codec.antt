-- ===== src/Dart/Codec.antt =====
-- lib/src/ffi/codec.dart: GlazeCodec, a decoder for each type that it knows.
pub mod Meaning
pub mod RoundTrip
pub mod Decode
pub mod Cut
use packagekit_dart.PkTypes.{
  StructType, pk_package, pk_progress, pk_details, pk_update_detail, pk_repo_detail, pk_files,
  pk_error_code, pk_message, pk_eula_required, pk_repo_sig_required, pk_require_restart,
  pk_manager_props,
}
use packagekit_dart.Base.{ℕ}
use packagekit_dart.Dart.Core.{Result, value, throws, argument_error, Uint8List}
use packagekit_dart.Dart.Enums.PkInfo
use packagekit_dart.Dart.Enums.PkStatus
use packagekit_dart.Dart.Package.{PkPackage, PkPackageDetail, parse}
use packagekit_dart.Dart.Records.{
  PkUpdateDetail, PkFiles, PkMessage, PkErrorCode, PkRequireRestart, PkRepoDetail, PkEulaRequired,
  PkRepoSigRequired, PkManagerProps, PkFinished, PkProgress,
}
use packagekit_dart.Dart.Reader.{
  Reader, reader, R, ◌>>=◌, pure, with_reader, read_uint32, read_uint64, read_bool, read_string,
  read_string_list,
}

unfoldable pub decode_package : R PkPackage
decode_package = do
  info ← read_uint32
  package_id ← read_string
  summary ← read_string
  id ← with_reader (parse package_id)
  pure (record { info = PkInfo.from_int info; id = id; summary = summary })

unfoldable pub decode_progress : R PkProgress
decode_progress = do
  package_id ← read_string
  status ← read_uint32
  percentage ← read_uint32
  is_item ← read_bool
  pure (record {
    package_id = package_id;
    status = PkStatus.from_int status;
    percentage = percentage;
    is_item = is_item;
  })

unfoldable pub decode_details : R PkPackageDetail
decode_details = do
  package_id ← read_string
  summary ← read_string
  description ← read_string
  url ← read_string
  license ← read_string
  group ← read_string
  size ← read_uint64
  id ← with_reader (parse package_id)
  pure (record {
    id = id;
    summary = summary;
    description = description;
    url = url;
    license = license;
    group = group;
    size = size;
  })

unfoldable pub decode_update_detail : R PkUpdateDetail
decode_update_detail = do
  package_id ← read_string
  updates ← read_string_list
  obsoletes ← read_string_list
  vendor_urls ← read_string_list
  bugzilla_urls ← read_string_list
  cve_urls ← read_string_list
  restart ← read_uint32
  update_text ← read_string
  changelog ← read_string
  state ← read_uint32
  issued ← read_string
  updated ← read_string
  pure (record {
    package_id = package_id;
    updates = updates;
    obsoletes = obsoletes;
    vendor_urls = vendor_urls;
    bugzilla_urls = bugzilla_urls;
    cve_urls = cve_urls;
    restart = restart;
    update_text = update_text;
    changelog = changelog;
    state = state;
    issued = issued;
    updated = updated;
  })

unfoldable pub decode_repo_detail : R PkRepoDetail
decode_repo_detail = do
  repo_id ← read_string
  description ← read_string
  enabled ← read_bool
  pure (record { repo_id = repo_id; description = description; enabled = enabled })

unfoldable pub decode_files : R PkFiles
decode_files = do
  package_id ← read_string
  files ← read_string_list
  pure (record { package_id = package_id; files = files })

unfoldable pub decode_error_code : R PkErrorCode
decode_error_code = do
  code ← read_uint32
  details ← read_string
  pure (record { code = code; details = details })

unfoldable pub decode_message : R PkMessage
decode_message = do
  type ← read_uint32
  details ← read_string
  pure (record { type = type; details = details })

unfoldable pub decode_eula_required : R PkEulaRequired
decode_eula_required = do
  eula_id ← read_string
  package_id ← read_string
  vendor_name ← read_string
  license_agreement ← read_string
  pure (record {
    eula_id = eula_id;
    package_id = package_id;
    vendor_name = vendor_name;
    license_agreement = license_agreement;
  })

unfoldable pub decode_repo_sig_required : R PkRepoSigRequired
decode_repo_sig_required = do
  package_id ← read_string
  repository_name ← read_string
  key_url ← read_string
  key_user_id ← read_string
  key_id ← read_string
  key_fingerprint ← read_string
  key_timestamp ← read_string
  type ← read_uint32
  pure (record {
    package_id = package_id;
    repository_name = repository_name;
    key_url = key_url;
    key_user_id = key_user_id;
    key_id = key_id;
    key_fingerprint = key_fingerprint;
    key_timestamp = key_timestamp;
    type = type;
  })

unfoldable pub decode_require_restart : R PkRequireRestart
decode_require_restart = do
  type ← read_uint32
  package_id ← read_string
  pure (record { type = type; package_id = package_id })

unfoldable pub decode_manager_props : R PkManagerProps
decode_manager_props = do
  backend_name ← read_string
  backend_description ← read_string
  backend_author ← read_string
  roles ← read_uint64
  filters ← read_uint64
  groups ← read_uint64
  mime_types ← read_string_list
  distro_id ← read_string
  network_state ← read_uint32
  locked ← read_bool
  version_major ← read_uint32
  version_minor ← read_uint32
  version_micro ← read_uint32
  pure (record {
    backend_name = backend_name;
    backend_description = backend_description;
    backend_author = backend_author;
    roles = roles;
    filters = filters;
    groups = groups;
    mime_types = mime_types;
    distro_id = distro_id;
    network_state = network_state;
    locked = locked;
    version_major = version_major;
    version_minor = version_minor;
    version_micro = version_micro;
  })

unfoldable pub decode_finished : R PkFinished
decode_finished = do
  exit_code ← read_uint32
  runtime_ms ← read_uint32
  pure (record { exit_code = exit_code; runtime_ms = runtime_ms })

-- The type argument of `decode`.
pub data DartType : Type 0 where
  struct_type : StructType → DartType
  finished_type : DartType
  other_type : DartType

abbrev pub DartStruct : StructType → Type 0
DartStruct pk_package = PkPackage
DartStruct pk_progress = PkProgress
DartStruct pk_details = PkPackageDetail
DartStruct pk_update_detail = PkUpdateDetail
DartStruct pk_repo_detail = PkRepoDetail
DartStruct pk_files = PkFiles
DartStruct pk_error_code = PkErrorCode
DartStruct pk_message = PkMessage
DartStruct pk_eula_required = PkEulaRequired
DartStruct pk_repo_sig_required = PkRepoSigRequired
DartStruct pk_require_restart = PkRequireRestart
DartStruct pk_manager_props = PkManagerProps

abbrev pub Decoded : DartType → Type 0
Decoded (struct_type t) = DartStruct t
Decoded finished_type = PkFinished
Decoded other_type = Unit {0}

unfoldable pub decode_struct : (t : StructType) → R (DartStruct t)
decode_struct pk_package = decode_package
decode_struct pk_progress = decode_progress
decode_struct pk_details = decode_details
decode_struct pk_update_detail = decode_update_detail
decode_struct pk_repo_detail = decode_repo_detail
decode_struct pk_files = decode_files
decode_struct pk_error_code = decode_error_code
decode_struct pk_message = decode_message
decode_struct pk_eula_required = decode_eula_required
decode_struct pk_repo_sig_required = decode_repo_sig_required
decode_struct pk_require_restart = decode_require_restart
decode_struct pk_manager_props = decode_manager_props

abbrev pub result_of : {A : Type 0} → Result (A × Reader) → Result A
result_of (value (a, r)) = value a
result_of (throws e) = throws e

unfoldable pub decode : (t : DartType) → Uint8List → ℕ → Result (Decoded t)
unfolding decode_struct
decode (struct_type t) bytes offset = result_of (decode_struct t (reader bytes offset))
decode finished_type bytes offset = result_of (decode_finished (reader bytes offset))
decode other_type bytes offset = throws argument_error
