-- ===== src/Dart/Codec/Meaning.antt =====
-- What a struct of the native side is on the Dart side of lib/src/ffi/codec.dart: its members
-- converted in their order, where text that is not UTF-8 and an id of another form throw.
use packagekit_dart.Base.{signed64}
use packagekit_dart.Dart.Core.{Result, value, ◌>>=◌}
use packagekit_dart.PkTypes
use packagekit_dart.PkTypes.{
  StructType, pk_package, pk_progress, pk_details, pk_update_detail, pk_repo_detail, pk_files,
  pk_error_code, pk_message, pk_eula_required, pk_repo_sig_required, pk_require_restart,
  pk_manager_props, Struct,
}
use packagekit_dart.Dart.Enums.PkInfo
use packagekit_dart.Dart.Enums.PkStatus
use packagekit_dart.Dart.Package.{PkPackage, PkPackageDetail, parse}
use packagekit_dart.Dart.Records.{
  PkUpdateDetail, PkFiles, PkMessage, PkErrorCode, PkRequireRestart, PkRepoDetail, PkEulaRequired,
  PkRepoSigRequired, PkManagerProps, PkProgress,
}
use packagekit_dart.Dart.Reader.Reads.{string_of, strings_of}
use packagekit_dart.Dart.Codec.{DartStruct}

unfoldable pub to_dart_package : PkTypes.PkPackage → Result PkPackage
to_dart_package p = do
  info ← value p.info
  package_id ← string_of p.package_id
  summary ← string_of p.summary
  id ← parse package_id
  value (record { info = PkInfo.from_int info; id = id; summary = summary })

unfoldable pub to_dart_progress : PkTypes.PkProgress → Result PkProgress
to_dart_progress p = do
  package_id ← string_of p.package_id
  status ← value p.status
  percentage ← value p.percentage
  is_item ← value p.is_item
  value (record {
    package_id = package_id;
    status = PkStatus.from_int status;
    percentage = percentage;
    is_item = is_item;
  })

unfoldable pub to_dart_details : PkTypes.PkDetails → Result PkPackageDetail
to_dart_details p = do
  package_id ← string_of p.package_id
  summary ← string_of p.summary
  description ← string_of p.description
  url ← string_of p.url
  license ← string_of p.license
  group ← string_of p.group
  size ← value (signed64 p.size)
  id ← parse package_id
  value (record {
    id = id;
    summary = summary;
    description = description;
    url = url;
    license = license;
    group = group;
    size = size;
  })

unfoldable pub to_dart_update_detail : PkTypes.PkUpdateDetail → Result PkUpdateDetail
to_dart_update_detail p = do
  package_id ← string_of p.package_id
  updates ← strings_of p.updates
  obsoletes ← strings_of p.obsoletes
  vendor_urls ← strings_of p.vendor_urls
  bugzilla_urls ← strings_of p.bugzilla_urls
  cve_urls ← strings_of p.cve_urls
  restart ← value p.restart
  update_text ← string_of p.update_text
  changelog ← string_of p.changelog
  state ← value p.state
  issued ← string_of p.issued
  updated ← string_of p.updated
  value (record {
    package_id = package_id;
    updates = updates;
    obsoletes = obsoletes;
    vendor_urls = vendor_urls;
    bugzilla_urls = bugzilla_urls;
    cve_urls = cve_urls;
    restart = restart;
    update_text = update_text;
    changelog = changelog;
    state = state;
    issued = issued;
    updated = updated;
  })

unfoldable pub to_dart_repo_detail : PkTypes.PkRepoDetail → Result PkRepoDetail
to_dart_repo_detail p = do
  repo_id ← string_of p.repo_id
  description ← string_of p.description
  enabled ← value p.enabled
  value (record { repo_id = repo_id; description = description; enabled = enabled })

unfoldable pub to_dart_files : PkTypes.PkFiles → Result PkFiles
to_dart_files p = do
  package_id ← string_of p.package_id
  files ← strings_of p.files
  value (record { package_id = package_id; files = files })

unfoldable pub to_dart_error_code : PkTypes.PkErrorCode → Result PkErrorCode
to_dart_error_code p = do
  code ← value p.code
  details ← string_of p.details
  value (record { code = code; details = details })

unfoldable pub to_dart_message : PkTypes.PkMessage → Result PkMessage
to_dart_message p = do
  type ← value p.type
  details ← string_of p.details
  value (record { type = type; details = details })

unfoldable pub to_dart_eula_required : PkTypes.PkEulaRequired → Result PkEulaRequired
to_dart_eula_required p = do
  eula_id ← string_of p.eula_id
  package_id ← string_of p.package_id
  vendor_name ← string_of p.vendor_name
  license_agreement ← string_of p.license_agreement
  value (record {
    eula_id = eula_id;
    package_id = package_id;
    vendor_name = vendor_name;
    license_agreement = license_agreement;
  })

unfoldable pub to_dart_repo_sig_required : PkTypes.PkRepoSigRequired → Result PkRepoSigRequired
to_dart_repo_sig_required p = do
  package_id ← string_of p.package_id
  repository_name ← string_of p.repository_name
  key_url ← string_of p.key_url
  key_user_id ← string_of p.key_user_id
  key_id ← string_of p.key_id
  key_fingerprint ← string_of p.key_fingerprint
  key_timestamp ← string_of p.key_timestamp
  type ← value p.type
  value (record {
    package_id = package_id;
    repository_name = repository_name;
    key_url = key_url;
    key_user_id = key_user_id;
    key_id = key_id;
    key_fingerprint = key_fingerprint;
    key_timestamp = key_timestamp;
    type = type;
  })

unfoldable pub to_dart_require_restart : PkTypes.PkRequireRestart → Result PkRequireRestart
to_dart_require_restart p = do
  type ← value p.type
  package_id ← string_of p.package_id
  value (record { type = type; package_id = package_id })

unfoldable pub to_dart_manager_props : PkTypes.PkManagerProps → Result PkManagerProps
to_dart_manager_props p = do
  backend_name ← string_of p.backend_name
  backend_description ← string_of p.backend_description
  backend_author ← string_of p.backend_author
  roles ← value (signed64 p.roles)
  filters ← value (signed64 p.filters)
  groups ← value (signed64 p.groups)
  mime_types ← strings_of p.mime_types
  distro_id ← string_of p.distro_id
  network_state ← value p.network_state
  locked ← value p.locked
  version_major ← value p.version_major
  version_minor ← value p.version_minor
  version_micro ← value p.version_micro
  value (record {
    backend_name = backend_name;
    backend_description = backend_description;
    backend_author = backend_author;
    roles = roles;
    filters = filters;
    groups = groups;
    mime_types = mime_types;
    distro_id = distro_id;
    network_state = network_state;
    locked = locked;
    version_major = version_major;
    version_minor = version_minor;
    version_micro = version_micro;
  })

unfoldable pub to_dart : (t : StructType) → Struct t → Result (DartStruct t)
to_dart pk_package = to_dart_package
to_dart pk_progress = to_dart_progress
to_dart pk_details = to_dart_details
to_dart pk_update_detail = to_dart_update_detail
to_dart pk_repo_detail = to_dart_repo_detail
to_dart pk_files = to_dart_files
to_dart pk_error_code = to_dart_error_code
to_dart pk_message = to_dart_message
to_dart pk_eula_required = to_dart_eula_required
to_dart pk_repo_sig_required = to_dart_repo_sig_required
to_dart pk_require_restart = to_dart_require_restart
to_dart pk_manager_props = to_dart_manager_props
