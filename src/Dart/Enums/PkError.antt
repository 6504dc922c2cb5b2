-- ===== src/Dart/Enums/PkError.antt =====
-- lib/src/enums.dart: PkError.
use packagekit_dart.Base.{ℕ, ◌≡◌, refl, ◌⊎◌, inl, inr, List, [], ◌∷◌, ◌==◌, ==_iff}
use packagekit_dart.Dart.Core.{first_where, first_where_found}

pub data PkError : Type 0 where
  unknown oom no_network not_supported internal_error gpg_failure package_id_invalid
        package_not_installed package_not_found package_already_installed package_download_failed
        group_not_found group_list_invalid dep_resolution_failed filter_invalid create_thread_failed
        transaction_error transaction_cancelled no_cache repo_not_found cannot_remove_system_package
        process_kill failed_initialization failed_finalise failed_config_parsing cannot_cancel
        cannot_get_lock no_packages_to_update cannot_write_repo_config local_install_failed
        bad_gpg_signature missing_gpg_signature cannot_install_source_package
        repo_configuration_error no_license_agreement file_conflicts package_conflicts
        repo_not_available invalid_package_file package_install_blocked package_corrupt
        all_packages_already_installed file_not_found no_more_mirrors_to_try no_distro_upgrade_data
        incompatible_architecture no_space_on_device media_change_required not_authorized
        update_not_found cannot_install_repo_unsigned cannot_update_repo_unsigned
        cannot_get_filelist cannot_get_requires cannot_disable_repository restricted_download
        package_failed_to_configure package_failed_to_build package_failed_to_install
        package_failed_to_remove update_failed_due_to_running_process package_database_changed
        provided_by_system install_root_invalid cannot_fetch_sources cancelled_remove_sys_req
        unfinished_transaction lock_required repo_already_set :
      PkError

-- The enumeration's `value`.
abbrev pub int_value : PkError → ℕ
int_value unknown = 0
int_value oom = 1
int_value no_network = 2
int_value not_supported = 3
int_value internal_error = 4
int_value gpg_failure = 5
int_value package_id_invalid = 6
int_value package_not_installed = 7
int_value package_not_found = 8
int_value package_already_installed = 9
int_value package_download_failed = 10
int_value group_not_found = 11
int_value group_list_invalid = 12
int_value dep_resolution_failed = 13
int_value filter_invalid = 14
int_value create_thread_failed = 15
int_value transaction_error = 16
int_value transaction_cancelled = 17
int_value no_cache = 18
int_value repo_not_found = 19
int_value cannot_remove_system_package = 20
int_value process_kill = 21
int_value failed_initialization = 22
int_value failed_finalise = 23
int_value failed_config_parsing = 24
int_value cannot_cancel = 25
int_value cannot_get_lock = 26
int_value no_packages_to_update = 27
int_value cannot_write_repo_config = 28
int_value local_install_failed = 29
int_value bad_gpg_signature = 30
int_value missing_gpg_signature = 31
int_value cannot_install_source_package = 32
int_value repo_configuration_error = 33
int_value no_license_agreement = 34
int_value file_conflicts = 35
int_value package_conflicts = 36
int_value repo_not_available = 37
int_value invalid_package_file = 38
int_value package_install_blocked = 39
int_value package_corrupt = 40
int_value all_packages_already_installed = 41
int_value file_not_found = 42
int_value no_more_mirrors_to_try = 43
int_value no_distro_upgrade_data = 44
int_value incompatible_architecture = 45
int_value no_space_on_device = 46
int_value media_change_required = 47
int_value not_authorized = 48
int_value update_not_found = 49
int_value cannot_install_repo_unsigned = 50
int_value cannot_update_repo_unsigned = 51
int_value cannot_get_filelist = 52
int_value cannot_get_requires = 53
int_value cannot_disable_repository = 54
int_value restricted_download = 55
int_value package_failed_to_configure = 56
int_value package_failed_to_build = 57
int_value package_failed_to_install = 58
int_value package_failed_to_remove = 59
int_value update_failed_due_to_running_process = 60
int_value package_database_changed = 61
int_value provided_by_system = 62
int_value install_root_invalid = 63
int_value cannot_fetch_sources = 64
int_value cancelled_remove_sys_req = 65
int_value unfinished_transaction = 66
int_value lock_required = 67
int_value repo_already_set = 68

abbrev pub values : List PkError
values =
    unknown ∷ oom ∷ no_network ∷ not_supported ∷ internal_error ∷ gpg_failure ∷ package_id_invalid
    ∷ package_not_installed ∷ package_not_found ∷ package_already_installed
    ∷ package_download_failed ∷ group_not_found ∷ group_list_invalid ∷ dep_resolution_failed
    ∷ filter_invalid ∷ create_thread_failed ∷ transaction_error ∷ transaction_cancelled ∷ no_cache
    ∷ repo_not_found ∷ cannot_remove_system_package ∷ process_kill ∷ failed_initialization
    ∷ failed_finalise ∷ failed_config_parsing ∷ cannot_cancel ∷ cannot_get_lock
    ∷ no_packages_to_update ∷ cannot_write_repo_config ∷ local_install_failed ∷ bad_gpg_signature
    ∷ missing_gpg_signature ∷ cannot_install_source_package ∷ repo_configuration_error
    ∷ no_license_agreement ∷ file_conflicts ∷ package_conflicts ∷ repo_not_available
    ∷ invalid_package_file ∷ package_install_blocked ∷ package_corrupt
    ∷ all_packages_already_installed ∷ file_not_found ∷ no_more_mirrors_to_try
    ∷ no_distro_upgrade_data ∷ incompatible_architecture ∷ no_space_on_device
    ∷ media_change_required ∷ not_authorized ∷ update_not_found ∷ cannot_install_repo_unsigned
    ∷ cannot_update_repo_unsigned ∷ cannot_get_filelist ∷ cannot_get_requires
    ∷ cannot_disable_repository ∷ restricted_download ∷ package_failed_to_configure
    ∷ package_failed_to_build ∷ package_failed_to_install ∷ package_failed_to_remove
    ∷ update_failed_due_to_running_process ∷ package_database_changed ∷ provided_by_system
    ∷ install_root_invalid ∷ cannot_fetch_sources ∷ cancelled_remove_sys_req
    ∷ unfinished_transaction ∷ lock_required ∷ repo_already_set ∷ []

unfoldable pub from_int : ℕ → PkError
unfolding first_where
from_int v = first_where (λ e. int_value e == v) values unknown

-- Every member is found by its value.
pub from_int-int_value : (e : PkError) → from_int (int_value e) ≡ e
unfolding from_int
from_int-int_value unknown = refl
from_int-int_value _ = refl

-- A number gives the member of PkError with that value, or `unknown`.
pub int_value-from_int : (v : ℕ) → (int_value (from_int v) ≡ v) ⊎ (from_int v ≡ unknown)
unfolding from_int
int_value-from_int v = elim (first_where_found (λ e. int_value e == v) values unknown) [
  | inl found ↦ inl ((==_iff _ v).0 found)
  | inr default ↦ inr default
]
