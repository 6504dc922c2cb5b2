-- ===== src/PkTransaction/Interface.antt =====
-- native/include/pk_transaction.h: the public methods of PkTransactionBridge, as the interface that
-- the C functions call, and its implementation in native/src/pk_transaction.cpp.
use packagekit_dart.Base.{ℕ, Bool, List}
use packagekit_dart.Bus.{M, SystemBus, PkTransactionBridge}
use packagekit_dart.PkTransaction.{post_error as post_error_to}
use packagekit_dart.PkTransaction.Methods

-- The methods of an object.
pub record TransactionMethods : Type 0 where
  pub set_hints : List ℕ → Bool → M (Unit {0})
  pub search_name : ℕ → List (List ℕ) → M (Unit {0})
  pub search_details : ℕ → List (List ℕ) → M (Unit {0})
  pub search_files : ℕ → List (List ℕ) → M (Unit {0})
  pub search_groups : ℕ → List (List ℕ) → M (Unit {0})
  pub get_packages : ℕ → M (Unit {0})
  pub get_updates : ℕ → M (Unit {0})
  pub resolve : ℕ → List (List ℕ) → M (Unit {0})
  pub what_provides : ℕ → List (List ℕ) → M (Unit {0})
  pub get_details : List (List ℕ) → M (Unit {0})
  pub get_update_detail : List (List ℕ) → M (Unit {0})
  pub get_files : List (List ℕ) → M (Unit {0})
  pub get_repo_list : ℕ → M (Unit {0})
  pub depends_on : ℕ → List (List ℕ) → Bool → M (Unit {0})
  pub required_by : ℕ → List (List ℕ) → Bool → M (Unit {0})
  pub get_distro_upgrades : M (Unit {0})
  pub get_old_transactions : ℕ → M (Unit {0})
  pub install_packages : ℕ → List (List ℕ) → M (Unit {0})
  pub remove_packages : ℕ → List (List ℕ) → Bool → Bool → M (Unit {0})
  pub update_packages : ℕ → List (List ℕ) → M (Unit {0})
  pub refresh_cache : Bool → M (Unit {0})
  pub download_packages : Bool → List (List ℕ) → M (Unit {0})
  pub install_files : ℕ → List (List ℕ) → M (Unit {0})
  pub repo_enable : List ℕ → Bool → M (Unit {0})
  pub accept_eula : List ℕ → M (Unit {0})
  pub cancel : M (Unit {0})
  pub post_error : List ℕ → M (Unit {0})

abbrev pub transaction_methods : SystemBus → PkTransactionBridge → TransactionMethods
transaction_methods bus t = record {
  set_hints = Methods.set_hints bus t;
  search_name = Methods.search_name bus t;
  search_details = Methods.search_details bus t;
  search_files = Methods.search_files bus t;
  search_groups = Methods.search_groups bus t;
  get_packages = Methods.get_packages bus t;
  get_updates = Methods.get_updates bus t;
  resolve = Methods.resolve bus t;
  what_provides = Methods.what_provides bus t;
  get_details = Methods.get_details bus t;
  get_update_detail = Methods.get_update_detail bus t;
  get_files = Methods.get_files bus t;
  get_repo_list = Methods.get_repo_list bus t;
  depends_on = Methods.depends_on bus t;
  required_by = Methods.required_by bus t;
  get_distro_upgrades = Methods.get_distro_upgrades bus t;
  get_old_transactions = Methods.get_old_transactions bus t;
  install_packages = Methods.install_packages bus t;
  remove_packages = Methods.remove_packages bus t;
  update_packages = Methods.update_packages bus t;
  refresh_cache = Methods.refresh_cache bus t;
  download_packages = Methods.download_packages bus t;
  install_files = Methods.install_files bus t;
  repo_enable = Methods.repo_enable bus t;
  accept_eula = Methods.accept_eula bus t;
  cancel = Methods.cancel bus t;
  post_error = post_error_to t;
}
