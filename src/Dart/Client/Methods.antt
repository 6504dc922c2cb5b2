-- ===== src/Dart/Client/Methods.antt =====
-- lib/src/packagekit_client.dart: the methods of PkClient that start a transaction. Their optional
-- arguments are given; a method that simulates has the transaction whose plan it collects.
use packagekit_dart.PkBridge.Exports.{packagekit_nc}
use packagekit_dart.Base.{ℕ, Bool, List, [], ◌∷◌, ◌++◌}
use packagekit_dart.Bus.{M, SystemBus}
use packagekit_dart.Dart.Core.{DartString}
use packagekit_dart.Dart.Enums.PkFilter
use packagekit_dart.Dart.Enums.PkFilter.{PkFilter}
use packagekit_dart.Dart.Enums.PkTransactionFlag
use packagekit_dart.Dart.Enums.PkTransactionFlag.{PkTransactionFlag, simulate}
use packagekit_dart.Dart.Bindings
use packagekit_dart.Dart.Client.{PkClient, PkTransaction, start_query}

module _ (bus : SystemBus) (c : PkClient) (port : ℕ) where
  unfoldable pub search_name : DartString → List PkFilter → M PkTransaction
  unfolding start_query
  search_name query filters =
      start_query bus c port
        (λ h. Bindings.search_name (packagekit_nc bus) h (PkFilter.combine filters) (query ∷ []))

  unfoldable pub search_details : DartString → List PkFilter → M PkTransaction
  unfolding start_query
  search_details query filters =
      start_query bus c port
        (λ h. Bindings.search_details (packagekit_nc bus) h (PkFilter.combine filters) (query ∷ []))

  unfoldable pub search_files : DartString → List PkFilter → M PkTransaction
  unfolding start_query
  search_files path filters =
      start_query bus c port
        (λ h. Bindings.search_files (packagekit_nc bus) h (PkFilter.combine filters) (path ∷ []))

  unfoldable pub get_packages : List PkFilter → M PkTransaction
  unfolding start_query
  get_packages filters =
      start_query bus c port
        (λ h. Bindings.get_packages (packagekit_nc bus) h (PkFilter.combine filters))

  unfoldable pub get_updates : List PkFilter → M PkTransaction
  unfolding start_query
  get_updates filters =
      start_query bus c port
        (λ h. Bindings.get_updates (packagekit_nc bus) h (PkFilter.combine filters))

  unfoldable pub resolve : List DartString → List PkFilter → M PkTransaction
  unfolding start_query
  resolve names filters =
      start_query bus c port
        (λ h. Bindings.resolve (packagekit_nc bus) h (PkFilter.combine filters) names)

  unfoldable pub what_provides : List DartString → List PkFilter → M PkTransaction
  unfolding start_query
  what_provides values filters =
      start_query bus c port
        (λ h. Bindings.what_provides (packagekit_nc bus) h (PkFilter.combine filters) values)

  unfoldable pub get_details : List DartString → M PkTransaction
  unfolding start_query
  get_details package_ids =
      start_query bus c port (λ h. Bindings.get_details (packagekit_nc bus) h package_ids)

  unfoldable pub get_update_detail : List DartString → M PkTransaction
  unfolding start_query
  get_update_detail package_ids =
      start_query bus c port (λ h. Bindings.get_update_detail (packagekit_nc bus) h package_ids)

  unfoldable pub get_files : List DartString → M PkTransaction
  unfolding start_query
  get_files package_ids =
      start_query bus c port (λ h. Bindings.get_files (packagekit_nc bus) h package_ids)

  unfoldable pub get_repo_list : List PkFilter → M PkTransaction
  unfolding start_query
  get_repo_list filters =
      start_query bus c port
        (λ h. Bindings.get_repo_list (packagekit_nc bus) h (PkFilter.combine filters))

  unfoldable pub depends_on : List DartString → List PkFilter → Bool → M PkTransaction
  unfolding start_query
  depends_on package_ids filters recursive = start_query bus c port (λ h.
      Bindings.depends_on (packagekit_nc bus) h (PkFilter.combine filters) package_ids recursive)

  unfoldable pub required_by : List DartString → List PkFilter → Bool → M PkTransaction
  unfolding start_query
  required_by package_ids filters recursive = start_query bus c port (λ h.
      Bindings.required_by (packagekit_nc bus) h (PkFilter.combine filters) package_ids recursive)

  unfoldable pub get_distro_upgrades : M PkTransaction
  unfolding start_query
  get_distro_upgrades =
      start_query bus c port (λ h. Bindings.get_distro_upgrades (packagekit_nc bus) h)

  unfoldable pub simulate_install : List DartString → List PkTransactionFlag → M PkTransaction
  unfolding start_query
  simulate_install package_ids flags = start_query bus c port (λ h.
      Bindings.install_packages (packagekit_nc bus) h
        (PkTransactionFlag.combine (flags ++ (simulate ∷ []))) package_ids)

  unfoldable pub simulate_remove :
      List DartString → Bool → Bool → List PkTransactionFlag → M PkTransaction
  unfolding start_query
  simulate_remove package_ids allow_deps autoremove flags = start_query bus c port (λ h.
      Bindings.remove_packages (packagekit_nc bus) h
        (PkTransactionFlag.combine (flags ++ (simulate ∷ []))) package_ids allow_deps autoremove)

  unfoldable pub simulate_update : List DartString → List PkTransactionFlag → M PkTransaction
  unfolding start_query
  simulate_update package_ids flags = start_query bus c port (λ h.
      Bindings.update_packages (packagekit_nc bus) h
        (PkTransactionFlag.combine (flags ++ (simulate ∷ []))) package_ids)

  unfoldable pub install_packages : List DartString → List PkTransactionFlag → M PkTransaction
  unfolding start_query
  install_packages package_ids flags = start_query bus c port (λ h.
      Bindings.install_packages (packagekit_nc bus) h (PkTransactionFlag.combine flags) package_ids)

  unfoldable pub remove_packages :
      List DartString → Bool → Bool → List PkTransactionFlag → M PkTransaction
  unfolding start_query
  remove_packages package_ids allow_deps autoremove flags = start_query bus c port (λ h.
      Bindings.remove_packages (packagekit_nc bus) h (PkTransactionFlag.combine flags) package_ids
        allow_deps autoremove)

  unfoldable pub update_packages : List DartString → List PkTransactionFlag → M PkTransaction
  unfolding start_query
  update_packages package_ids flags = start_query bus c port (λ h.
      Bindings.update_packages (packagekit_nc bus) h (PkTransactionFlag.combine flags) package_ids)

  unfoldable pub refresh_cache : Bool → M PkTransaction
  unfolding start_query
  refresh_cache force =
      start_query bus c port (λ h. Bindings.refresh_cache (packagekit_nc bus) h force)

  unfoldable pub install_files : List DartString → List PkTransactionFlag → M PkTransaction
  unfolding start_query
  install_files paths flags =
      start_query bus c port
        (λ h. Bindings.install_files (packagekit_nc bus) h (PkTransactionFlag.combine flags) paths)

  unfoldable pub download_packages : List DartString → Bool → M PkTransaction
  unfolding start_query
  download_packages package_ids store_in_cache =
      start_query bus c port
        (λ h. Bindings.download_packages (packagekit_nc bus) h store_in_cache package_ids)

  unfoldable pub repo_enable : DartString → Bool → M PkTransaction
  unfolding start_query
  repo_enable repo_id enabled =
      start_query bus c port (λ h. Bindings.repo_enable (packagekit_nc bus) h repo_id enabled)

  unfoldable pub accept_eula : DartString → M PkTransaction
  unfolding start_query
  accept_eula eula_id =
      start_query bus c port (λ h. Bindings.accept_eula (packagekit_nc bus) h eula_id)
