-- ===== src/Dart/Records.antt =====
-- The classes of lib/src/details.dart, repo.dart, ffi/types.dart and the progress of
-- transaction.dart.
use packagekit_dart.Base.{ℕ, ℤ, Bool, List}
use packagekit_dart.Dart.Core.{DartString}
use packagekit_dart.Dart.Enums.PkStatus.{PkStatus}

pub record PkUpdateDetail : Type 0 where
  pub package_id : DartString
  pub updates : List DartString
  pub obsoletes : List DartString
  pub vendor_urls : List DartString
  pub bugzilla_urls : List DartString
  pub cve_urls : List DartString
  pub restart : ℕ
  pub update_text : DartString
  pub changelog : DartString
  pub state : ℕ
  pub issued : DartString
  pub updated : DartString

pub record PkFiles : Type 0 where
  pub package_id : DartString
  pub files : List DartString

pub record PkMessage : Type 0 where
  pub type : ℕ
  pub details : DartString

pub record PkErrorCode : Type 0 where
  pub code : ℕ
  pub details : DartString

pub record PkRequireRestart : Type 0 where
  pub type : ℕ
  pub package_id : DartString

pub record PkRepoDetail : Type 0 where
  pub repo_id : DartString
  pub description : DartString
  pub enabled : Bool

pub record PkEulaRequired : Type 0 where
  pub eula_id : DartString
  pub package_id : DartString
  pub vendor_name : DartString
  pub license_agreement : DartString

pub record PkRepoSigRequired : Type 0 where
  pub package_id : DartString
  pub repository_name : DartString
  pub key_url : DartString
  pub key_user_id : DartString
  pub key_id : DartString
  pub key_fingerprint : DartString
  pub key_timestamp : DartString
  pub type : ℕ

pub record PkManagerProps : Type 0 where
  pub backend_name : DartString
  pub backend_description : DartString
  pub backend_author : DartString
  pub roles : ℤ
  pub filters : ℤ
  pub groups : ℤ
  pub mime_types : List DartString
  pub distro_id : DartString
  pub network_state : ℕ
  pub locked : Bool
  pub version_major : ℕ
  pub version_minor : ℕ
  pub version_micro : ℕ

pub record PkFinished : Type 0 where
  pub exit_code : ℕ
  pub runtime_ms : ℕ

pub record PkProgress : Type 0 where
  pub package_id : DartString
  pub status : PkStatus
  pub percentage : ℕ
  pub is_item : Bool
