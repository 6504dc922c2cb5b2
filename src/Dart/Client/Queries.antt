-- ===== src/Dart/Client/Queries.antt =====
-- The methods of PkClient as requests to the native side.
pub mod Starts
use packagekit_dart.Base.{ℕ, suc, ◌≡◌, refl, ap, Bool, List, [], ◌∷◌, ◌++◌, map, length}
use packagekit_dart.Bus.{M, SystemBus}
use packagekit_dart.PkBridge.Requests.{Request, terminated, run_request}
use packagekit_dart.PkBridge.Requests
use packagekit_dart.PkBridge.Entries.{
  pk_depends_on, pk_download_packages, pk_get_details, pk_get_files, pk_get_update_detail,
  pk_install_files, pk_install_packages, pk_remove_packages, pk_required_by, pk_resolve,
  pk_search_details, pk_search_files, pk_search_name, pk_update_packages, pk_what_provides,
}
use packagekit_dart.Dart.Core.{DartString}
use packagekit_dart.Dart.Utf8.{utf8_encode}
use packagekit_dart.Dart.Enums.PkFilter
use packagekit_dart.Dart.Enums.PkFilter.{PkFilter}
use packagekit_dart.Dart.Enums.PkTransactionFlag
use packagekit_dart.Dart.Enums.PkTransactionFlag.{PkTransactionFlag, simulate}
use packagekit_dart.Dart.Bindings.{to_native_utf8, alloc_string_array, call_string_list, call_ids}
use packagekit_dart.Dart.Client.{PkClient, PkTransaction, start_query}
use packagekit_dart.Dart.Client.Methods

-- A call of a method, with all its arguments.
pub data Query : Type 0 where
  search_name : DartString → List PkFilter → Query
  search_details : DartString → List PkFilter → Query
  search_files : DartString → List PkFilter → Query
  get_packages : List PkFilter → Query
  get_updates : List PkFilter → Query
  resolve : List DartString → List PkFilter → Query
  what_provides : List DartString → List PkFilter → Query
  get_details : List DartString → Query
  get_update_detail : List DartString → Query
  get_files : List DartString → Query
  get_repo_list : List PkFilter → Query
  depends_on : List DartString → List PkFilter → Bool → Query
  required_by : List DartString → List PkFilter → Bool → Query
  get_distro_upgrades : Query
  simulate_install : List DartString → List PkTransactionFlag → Query
  simulate_remove : List DartString → Bool → Bool → List PkTransactionFlag → Query
  simulate_update : List DartString → List PkTransactionFlag → Query
  install_packages : List DartString → List PkTransactionFlag → Query
  remove_packages : List DartString → Bool → Bool → List PkTransactionFlag → Query
  update_packages : List DartString → List PkTransactionFlag → Query
  refresh_cache : Bool → Query
  install_files : List DartString → List PkTransactionFlag → Query
  download_packages : List DartString → Bool → Query
  repo_enable : DartString → Bool → Query
  accept_eula : DartString → Query

abbrev pub run_query : SystemBus → PkClient → ℕ → Query → M PkTransaction
run_query bus c port (search_name query filters) = Methods.search_name bus c port query filters
run_query bus c port (search_details query filters) =
    Methods.search_details bus c port query filters
run_query bus c port (search_files path filters) = Methods.search_files bus c port path filters
run_query bus c port (get_packages filters) = Methods.get_packages bus c port filters
run_query bus c port (get_updates filters) = Methods.get_updates bus c port filters
run_query bus c port (resolve names filters) = Methods.resolve bus c port names filters
run_query bus c port (what_provides values filters) =
    Methods.what_provides bus c port values filters
run_query bus c port (get_details package_ids) = Methods.get_details bus c port package_ids
run_query bus c port (get_update_detail package_ids) =
    Methods.get_update_detail bus c port package_ids
run_query bus c port (get_files package_ids) = Methods.get_files bus c port package_ids
run_query bus c port (get_repo_list filters) = Methods.get_repo_list bus c port filters
run_query bus c port (depends_on package_ids filters recursive) =
    Methods.depends_on bus c port package_ids filters recursive
run_query bus c port (required_by package_ids filters recursive) =
    Methods.required_by bus c port package_ids filters recursive
run_query bus c port get_distro_upgrades = Methods.get_distro_upgrades bus c port
run_query bus c port (simulate_install package_ids flags) =
    Methods.simulate_install bus c port package_ids flags
run_query bus c port (simulate_remove package_ids allow_deps autoremove flags) =
    Methods.simulate_remove bus c port package_ids allow_deps autoremove flags
run_query bus c port (simulate_update package_ids flags) =
    Methods.simulate_update bus c port package_ids flags
run_query bus c port (install_packages package_ids flags) =
    Methods.install_packages bus c port package_ids flags
run_query bus c port (remove_packages package_ids allow_deps autoremove flags) =
    Methods.remove_packages bus c port package_ids allow_deps autoremove flags
run_query bus c port (update_packages package_ids flags) =
    Methods.update_packages bus c port package_ids flags
run_query bus c port (refresh_cache force) = Methods.refresh_cache bus c port force
run_query bus c port (install_files paths flags) = Methods.install_files bus c port paths flags
run_query bus c port (download_packages package_ids store_in_cache) =
    Methods.download_packages bus c port package_ids store_in_cache
run_query bus c port (repo_enable repo_id enabled) = Methods.repo_enable bus c port repo_id enabled
run_query bus c port (accept_eula eula_id) = Methods.accept_eula bus c port eula_id

-- What a query asks of the native side: its strings in UTF-8, its filters and flags combined, the
-- simulate flag added by the methods that only simulate.
abbrev pub native_request : Query → Request
native_request (search_name query filters) =
    Requests.search_name (PkFilter.combine filters) (utf8_encode query ∷ [])
native_request (search_details query filters) =
    Requests.search_details (PkFilter.combine filters) (utf8_encode query ∷ [])
native_request (search_files path filters) =
    Requests.search_files (PkFilter.combine filters) (utf8_encode path ∷ [])
native_request (get_packages filters) = Requests.get_packages (PkFilter.combine filters)
native_request (get_updates filters) = Requests.get_updates (PkFilter.combine filters)
native_request (resolve names filters) =
    Requests.resolve (PkFilter.combine filters) (map utf8_encode names)
native_request (what_provides values filters) =
    Requests.what_provides (PkFilter.combine filters) (map utf8_encode values)
native_request (get_details package_ids) = Requests.get_details (map utf8_encode package_ids)
native_request (get_update_detail package_ids) =
    Requests.get_update_detail (map utf8_encode package_ids)
native_request (get_files package_ids) = Requests.get_files (map utf8_encode package_ids)
native_request (get_repo_list filters) = Requests.get_repo_list (PkFilter.combine filters)
native_request (depends_on package_ids filters recursive) =
    Requests.depends_on (PkFilter.combine filters) (map utf8_encode package_ids) recursive
native_request (required_by package_ids filters recursive) =
    Requests.required_by (PkFilter.combine filters) (map utf8_encode package_ids) recursive
native_request get_distro_upgrades = Requests.get_distro_upgrades
native_request (simulate_install package_ids flags) =
    Requests.install_packages (PkTransactionFlag.combine (flags ++ (simulate ∷ [])))
      (map utf8_encode package_ids)
native_request (simulate_remove package_ids allow_deps autoremove flags) =
    Requests.remove_packages (PkTransactionFlag.combine (flags ++ (simulate ∷ [])))
      (map utf8_encode package_ids) allow_deps autoremove
native_request (simulate_update package_ids flags) =
    Requests.update_packages (PkTransactionFlag.combine (flags ++ (simulate ∷ [])))
      (map utf8_encode package_ids)
native_request (install_packages package_ids flags) =
    Requests.install_packages (PkTransactionFlag.combine flags) (map utf8_encode package_ids)
native_request (remove_packages package_ids allow_deps autoremove flags) =
    Requests.remove_packages (PkTransactionFlag.combine flags) (map utf8_encode package_ids)
      allow_deps autoremove
native_request (update_packages package_ids flags) =
    Requests.update_packages (PkTransactionFlag.combine flags) (map utf8_encode package_ids)
native_request (refresh_cache force) = Requests.refresh_cache force
native_request (install_files paths flags) =
    Requests.install_files (PkTransactionFlag.combine flags) (map utf8_encode paths)
native_request (download_packages package_ids store_in_cache) =
    Requests.download_packages store_in_cache (map utf8_encode package_ids)
native_request (repo_enable repo_id enabled) = Requests.repo_enable (utf8_encode repo_id) enabled
native_request (accept_eula eula_id) = Requests.accept_eula (utf8_encode eula_id)

-- The strings of a query.
abbrev pub query_strings : Query → List DartString
query_strings (search_name query filters) = query ∷ []
query_strings (search_details query filters) = query ∷ []
query_strings (search_files path filters) = path ∷ []
query_strings (get_packages filters) = []
query_strings (get_updates filters) = []
query_strings (resolve names filters) = names
query_strings (what_provides values filters) = values
query_strings (get_details package_ids) = package_ids
query_strings (get_update_detail package_ids) = package_ids
query_strings (get_files package_ids) = package_ids
query_strings (get_repo_list filters) = []
query_strings (depends_on package_ids filters recursive) = package_ids
query_strings (required_by package_ids filters recursive) = package_ids
query_strings get_distro_upgrades = []
query_strings (simulate_install package_ids flags) = package_ids
query_strings (simulate_remove package_ids allow_deps autoremove flags) = package_ids
query_strings (simulate_update package_ids flags) = package_ids
query_strings (install_packages package_ids flags) = package_ids
query_strings (remove_packages package_ids allow_deps autoremove flags) = package_ids
query_strings (update_packages package_ids flags) = package_ids
query_strings (refresh_cache force) = []
query_strings (install_files paths flags) = paths
query_strings (download_packages package_ids store_in_cache) = package_ids
query_strings (repo_enable repo_id enabled) = repo_id ∷ []
query_strings (accept_eula eula_id) = eula_id ∷ []
