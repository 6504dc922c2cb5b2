-- ===== src/PkTypes.antt =====
-- native/include/pk_types.h: the structs that the bridge sends, with the members that glaze walks.
-- A `uint32_t` or `uint64_t` is a number, a `std::string` its bytes.
pub mod RoundTrip
use packagekit_dart.Base.{ℕ, Bool, List, [], ◌∷◌}
use packagekit_dart.Glaze.{Kind, boolean, u32, u64, string, strings, FieldDescriptor, field}

pub record PkPackage : Type 0 where
  pub info : ℕ
  pub package_id : List ℕ
  pub summary : List ℕ

pub record PkProgress : Type 0 where
  pub package_id : List ℕ
  pub status : ℕ
  pub percentage : ℕ
  pub is_item : Bool

pub record PkDetails : Type 0 where
  pub package_id : List ℕ
  pub summary : List ℕ
  pub description : List ℕ
  pub url : List ℕ
  pub license : List ℕ
  pub group : List ℕ
  pub size : ℕ

pub record PkUpdateDetail : Type 0 where
  pub package_id : List ℕ
  pub updates : List (List ℕ)
  pub obsoletes : List (List ℕ)
  pub vendor_urls : List (List ℕ)
  pub bugzilla_urls : List (List ℕ)
  pub cve_urls : List (List ℕ)
  pub restart : ℕ
  pub update_text : List ℕ
  pub changelog : List ℕ
  pub state : ℕ
  pub issued : List ℕ
  pub updated : List ℕ

pub record PkRepoDetail : Type 0 where
  pub repo_id : List ℕ
  pub description : List ℕ
  pub enabled : Bool

pub record PkFiles : Type 0 where
  pub package_id : List ℕ
  pub files : List (List ℕ)

pub record PkErrorCode : Type 0 where
  pub code : ℕ
  pub details : List ℕ

pub record PkMessage : Type 0 where
  pub type : ℕ
  pub details : List ℕ

pub record PkEulaRequired : Type 0 where
  pub eula_id : List ℕ
  pub package_id : List ℕ
  pub vendor_name : List ℕ
  pub license_agreement : List ℕ

pub record PkRepoSigRequired : Type 0 where
  pub package_id : List ℕ
  pub repository_name : List ℕ
  pub key_url : List ℕ
  pub key_user_id : List ℕ
  pub key_id : List ℕ
  pub key_fingerprint : List ℕ
  pub key_timestamp : List ℕ
  pub type : ℕ

pub record PkRequireRestart : Type 0 where
  pub type : ℕ
  pub package_id : List ℕ

pub record PkManagerProps : Type 0 where
  pub backend_name : List ℕ
  pub backend_description : List ℕ
  pub backend_author : List ℕ
  pub roles : ℕ
  pub filters : ℕ
  pub groups : ℕ
  pub mime_types : List (List ℕ)
  pub distro_id : List ℕ
  pub network_state : ℕ
  pub locked : Bool
  pub version_major : ℕ
  pub version_minor : ℕ
  pub version_micro : ℕ

abbrev pub package_fields : List (FieldDescriptor PkPackage)
package_fields =
    field "info" u32 (λ p. p.info) (λ p v. record p { info = v })
    ∷ field "packageId" string (λ p. p.package_id) (λ p v. record p { package_id = v })
    ∷ field "summary" string (λ p. p.summary) (λ p v. record p { summary = v })
    ∷ []

abbrev pub progress_fields : List (FieldDescriptor PkProgress)
progress_fields =
    field "packageId" string (λ p. p.package_id) (λ p v. record p { package_id = v })
    ∷ field "status" u32 (λ p. p.status) (λ p v. record p { status = v })
    ∷ field "percentage" u32 (λ p. p.percentage) (λ p v. record p { percentage = v })
    ∷ field "isItem" boolean (λ p. p.is_item) (λ p v. record p { is_item = v })
    ∷ []

abbrev pub details_fields : List (FieldDescriptor PkDetails)
details_fields =
    field "packageId" string (λ p. p.package_id) (λ p v. record p { package_id = v })
    ∷ field "summary" string (λ p. p.summary) (λ p v. record p { summary = v })
    ∷ field "description" string (λ p. p.description) (λ p v. record p { description = v })
    ∷ field "url" string (λ p. p.url) (λ p v. record p { url = v })
    ∷ field "license" string (λ p. p.license) (λ p v. record p { license = v })
    ∷ field "group" string (λ p. p.group) (λ p v. record p { group = v })
    ∷ field "size" u64 (λ p. p.size) (λ p v. record p { size = v })
    ∷ []

abbrev pub update_detail_fields : List (FieldDescriptor PkUpdateDetail)
update_detail_fields =
    field "packageId" string (λ p. p.package_id) (λ p v. record p { package_id = v })
    ∷ field "updates" strings (λ p. p.updates) (λ p v. record p { updates = v })
    ∷ field "obsoletes" strings (λ p. p.obsoletes) (λ p v. record p { obsoletes = v })
    ∷ field "vendorUrls" strings (λ p. p.vendor_urls) (λ p v. record p { vendor_urls = v })
    ∷ field "bugzillaUrls" strings (λ p. p.bugzilla_urls) (λ p v. record p { bugzilla_urls = v })
    ∷ field "cveUrls" strings (λ p. p.cve_urls) (λ p v. record p { cve_urls = v })
    ∷ field "restart" u32 (λ p. p.restart) (λ p v. record p { restart = v })
    ∷ field "updateText" string (λ p. p.update_text) (λ p v. record p { update_text = v })
    ∷ field "changelog" string (λ p. p.changelog) (λ p v. record p { changelog = v })
    ∷ field "state" u32 (λ p. p.state) (λ p v. record p { state = v })
    ∷ field "issued" string (λ p. p.issued) (λ p v. record p { issued = v })
    ∷ field "updated" string (λ p. p.updated) (λ p v. record p { updated = v })
    ∷ []

abbrev pub repo_detail_fields : List (FieldDescriptor PkRepoDetail)
repo_detail_fields =
    field "repoId" string (λ p. p.repo_id) (λ p v. record p { repo_id = v })
    ∷ field "description" string (λ p. p.description) (λ p v. record p { description = v })
    ∷ field "enabled" boolean (λ p. p.enabled) (λ p v. record p { enabled = v })
    ∷ []

abbrev pub files_fields : List (FieldDescriptor PkFiles)
files_fields =
    field "packageId" string (λ p. p.package_id) (λ p v. record p { package_id = v })
    ∷ field "files" strings (λ p. p.files) (λ p v. record p { files = v })
    ∷ []

abbrev pub error_code_fields : List (FieldDescriptor PkErrorCode)
error_code_fields =
    field "code" u32 (λ p. p.code) (λ p v. record p { code = v })
    ∷ field "details" string (λ p. p.details) (λ p v. record p { details = v })
    ∷ []

abbrev pub message_fields : List (FieldDescriptor PkMessage)
message_fields =
    field "type" u32 (λ p. p.type) (λ p v. record p { type = v })
    ∷ field "details" string (λ p. p.details) (λ p v. record p { details = v })
    ∷ []

abbrev pub eula_required_fields : List (FieldDescriptor PkEulaRequired)
eula_required_fields =
    field "eulaId" string (λ p. p.eula_id) (λ p v. record p { eula_id = v })
    ∷ field "packageId" string (λ p. p.package_id) (λ p v. record p { package_id = v })
    ∷ field "vendorName" string (λ p. p.vendor_name) (λ p v. record p { vendor_name = v })
    ∷ field "licenseAgreement" string (λ p. p.license_agreement)
        (λ p v. record p { license_agreement = v })
    ∷ []

abbrev pub repo_sig_required_fields : List (FieldDescriptor PkRepoSigRequired)
repo_sig_required_fields =
    field "packageId" string (λ p. p.package_id) (λ p v. record p { package_id = v })
    ∷ field "repositoryName" string (λ p. p.repository_name)
        (λ p v. record p { repository_name = v })
    ∷ field "keyUrl" string (λ p. p.key_url) (λ p v. record p { key_url = v })
    ∷ field "keyUserId" string (λ p. p.key_user_id) (λ p v. record p { key_user_id = v })
    ∷ field "keyId" string (λ p. p.key_id) (λ p v. record p { key_id = v })
    ∷ field "keyFingerprint" string (λ p. p.key_fingerprint)
        (λ p v. record p { key_fingerprint = v })
    ∷ field "keyTimestamp" string (λ p. p.key_timestamp) (λ p v. record p { key_timestamp = v })
    ∷ field "type" u32 (λ p. p.type) (λ p v. record p { type = v })
    ∷ []

abbrev pub require_restart_fields : List (FieldDescriptor PkRequireRestart)
require_restart_fields =
    field "type" u32 (λ p. p.type) (λ p v. record p { type = v })
    ∷ field "packageId" string (λ p. p.package_id) (λ p v. record p { package_id = v })
    ∷ []

abbrev pub manager_props_fields : List (FieldDescriptor PkManagerProps)
manager_props_fields =
    field "backendName" string (λ p. p.backend_name) (λ p v. record p { backend_name = v })
    ∷ field "backendDescription" string (λ p. p.backend_description)
        (λ p v. record p { backend_description = v })
    ∷ field "backendAuthor" string (λ p. p.backend_author) (λ p v. record p { backend_author = v })
    ∷ field "roles" u64 (λ p. p.roles) (λ p v. record p { roles = v })
    ∷ field "filters" u64 (λ p. p.filters) (λ p v. record p { filters = v })
    ∷ field "groups" u64 (λ p. p.groups) (λ p v. record p { groups = v })
    ∷ field "mimeTypes" strings (λ p. p.mime_types) (λ p v. record p { mime_types = v })
    ∷ field "distroId" string (λ p. p.distro_id) (λ p v. record p { distro_id = v })
    ∷ field "networkState" u32 (λ p. p.network_state) (λ p v. record p { network_state = v })
    ∷ field "locked" boolean (λ p. p.locked) (λ p v. record p { locked = v })
    ∷ field "versionMajor" u32 (λ p. p.version_major) (λ p v. record p { version_major = v })
    ∷ field "versionMinor" u32 (λ p. p.version_minor) (λ p v. record p { version_minor = v })
    ∷ field "versionMicro" u32 (λ p. p.version_micro) (λ p v. record p { version_micro = v })
    ∷ []

-- The structs for which glz::meta is specialised.
pub data StructType : Type 0 where
  pk_package pk_progress pk_details pk_update_detail pk_repo_detail pk_files pk_error_code
        pk_message pk_eula_required pk_repo_sig_required pk_require_restart pk_manager_props :
      StructType

abbrev pub Struct : StructType → Type 0
Struct pk_package = PkPackage
Struct pk_progress = PkProgress
Struct pk_details = PkDetails
Struct pk_update_detail = PkUpdateDetail
Struct pk_repo_detail = PkRepoDetail
Struct pk_files = PkFiles
Struct pk_error_code = PkErrorCode
Struct pk_message = PkMessage
Struct pk_eula_required = PkEulaRequired
Struct pk_repo_sig_required = PkRepoSigRequired
Struct pk_require_restart = PkRequireRestart
Struct pk_manager_props = PkManagerProps

abbrev pub meta : (t : StructType) → List (FieldDescriptor (Struct t))
meta pk_package = package_fields
meta pk_progress = progress_fields
meta pk_details = details_fields
meta pk_update_detail = update_detail_fields
meta pk_repo_detail = repo_detail_fields
meta pk_files = files_fields
meta pk_error_code = error_code_fields
meta pk_message = message_fields
meta pk_eula_required = eula_required_fields
meta pk_repo_sig_required = repo_sig_required_fields
meta pk_require_restart = require_restart_fields
meta pk_manager_props = manager_props_fields
