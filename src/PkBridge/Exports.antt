-- ===== src/PkBridge/Exports.antt =====
-- native/include/pk_bridge.h: the functions that the shared library exports, as the interface that
-- the Dart bindings call, and its implementation in native/src/pk_bridge.cpp.
use packagekit_dart.Base.{ℕ, ℤ, Bool, Option, List}
use packagekit_dart.Bus.{M, SystemBus}
use packagekit_dart.PkBridge
use packagekit_dart.PkBridge.Entries

-- A handle is an address, a string the bytes of its buffer. The first argument of `pk_bridge_init`
-- stands for Dart_InitializeApiDL.
pub record PackagekitNc : Type 0 where
  pub pk_bridge_init : (ℕ → M (Unit {0})) → ℕ → M (Unit {0})
  pub pk_manager_create : ℕ → M ℕ
  pub pk_manager_destroy : ℕ → M (Unit {0})
  pub pk_manager_read_properties : ℕ → M (Unit {0})
  pub pk_transaction_create : ℕ → ℕ → M ℕ
  pub pk_transaction_destroy : ℕ → M (Unit {0})
  pub pk_transaction_set_hints : ℕ → Option (List ℕ) → Bool → M (Unit {0})
  pub pk_search_name : ℕ → ℕ → List (List ℕ) → ℤ → M (Unit {0})
  pub pk_search_details : ℕ → ℕ → List (List ℕ) → ℤ → M (Unit {0})
  pub pk_search_files : ℕ → ℕ → List (List ℕ) → ℤ → M (Unit {0})
  pub pk_search_groups : ℕ → ℕ → List (List ℕ) → ℤ → M (Unit {0})
  pub pk_get_packages : ℕ → ℕ → M (Unit {0})
  pub pk_get_updates : ℕ → ℕ → M (Unit {0})
  pub pk_resolve : ℕ → ℕ → List (List ℕ) → ℤ → M (Unit {0})
  pub pk_what_provides : ℕ → ℕ → List (List ℕ) → ℤ → M (Unit {0})
  pub pk_get_details : ℕ → List (List ℕ) → ℤ → M (Unit {0})
  pub pk_get_update_detail : ℕ → List (List ℕ) → ℤ → M (Unit {0})
  pub pk_get_files : ℕ → List (List ℕ) → ℤ → M (Unit {0})
  pub pk_get_repo_list : ℕ → ℕ → M (Unit {0})
  pub pk_depends_on : ℕ → ℕ → List (List ℕ) → ℤ → Bool → M (Unit {0})
  pub pk_required_by : ℕ → ℕ → List (List ℕ) → ℤ → Bool → M (Unit {0})
  pub pk_get_distro_upgrades : ℕ → M (Unit {0})
  pub pk_get_old_transactions : ℕ → ℕ → M (Unit {0})
  pub pk_install_packages : ℕ → ℕ → List (List ℕ) → ℤ → M (Unit {0})
  pub pk_remove_packages : ℕ → ℕ → List (List ℕ) → ℤ → Bool → Bool → M (Unit {0})
  pub pk_update_packages : ℕ → ℕ → List (List ℕ) → ℤ → M (Unit {0})
  pub pk_refresh_cache : ℕ → Bool → M (Unit {0})
  pub pk_download_packages : ℕ → Bool → List (List ℕ) → ℤ → M (Unit {0})
  pub pk_install_files : ℕ → ℕ → List (List ℕ) → ℤ → M (Unit {0})
  pub pk_repo_enable : ℕ → List ℕ → Bool → M (Unit {0})
  pub pk_accept_eula : ℕ → List ℕ → M (Unit {0})
  pub pk_cancel : ℕ → M (Unit {0})

abbrev pub packagekit_nc : SystemBus → PackagekitNc
packagekit_nc bus = record {
  pk_bridge_init = PkBridge.pk_bridge_init;
  pk_manager_create = PkBridge.pk_manager_create bus;
  pk_manager_destroy = PkBridge.pk_manager_destroy;
  pk_manager_read_properties = PkBridge.pk_manager_read_properties bus;
  pk_transaction_create = PkBridge.pk_transaction_create bus;
  pk_transaction_destroy = PkBridge.pk_transaction_destroy;
  pk_transaction_set_hints = PkBridge.pk_transaction_set_hints bus;
  pk_search_name = Entries.pk_search_name bus;
  pk_search_details = Entries.pk_search_details bus;
  pk_search_files = Entries.pk_search_files bus;
  pk_search_groups = Entries.pk_search_groups bus;
  pk_get_packages = Entries.pk_get_packages bus;
  pk_get_updates = Entries.pk_get_updates bus;
  pk_resolve = Entries.pk_resolve bus;
  pk_what_provides = Entries.pk_what_provides bus;
  pk_get_details = Entries.pk_get_details bus;
  pk_get_update_detail = Entries.pk_get_update_detail bus;
  pk_get_files = Entries.pk_get_files bus;
  pk_get_repo_list = Entries.pk_get_repo_list bus;
  pk_depends_on = Entries.pk_depends_on bus;
  pk_required_by = Entries.pk_required_by bus;
  pk_get_distro_upgrades = Entries.pk_get_distro_upgrades bus;
  pk_get_old_transactions = Entries.pk_get_old_transactions bus;
  pk_install_packages = Entries.pk_install_packages bus;
  pk_remove_packages = Entries.pk_remove_packages bus;
  pk_update_packages = Entries.pk_update_packages bus;
  pk_refresh_cache = Entries.pk_refresh_cache bus;
  pk_download_packages = Entries.pk_download_packages bus;
  pk_install_files = Entries.pk_install_files bus;
  pk_repo_enable = Entries.pk_repo_enable bus;
  pk_accept_eula = Entries.pk_accept_eula bus;
  pk_cancel = Entries.pk_cancel bus;
}
