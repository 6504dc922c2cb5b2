-- ===== src/PkBridge/Requests.antt =====
-- The requests that native/src/pk_bridge.cpp has a function for, and what each has to do. Strings are
-- bytes without NUL, as Dart hands them over in NUL-terminated arrays.
use Prim.Native.String.{String}
use packagekit_dart.Base.{
  ℕ, pos, Bool, some, List, [], ◌∷◌, ◌++◌, map, length, codes, if◌then◌else◌,
}
use packagekit_dart.Bus.{
  M, Variant, text, uint32, uint64, truth, texts, MethodCall, SystemBus, PkTransactionBridge,
}
use packagekit_dart.PkBridge.{pk_transaction_set_hints}
use packagekit_dart.PkBridge.Entries.{
  pk_search_name, pk_search_details, pk_search_files, pk_search_groups, pk_get_packages,
  pk_get_updates, pk_resolve, pk_what_provides, pk_get_details, pk_get_update_detail, pk_get_files,
  pk_get_repo_list, pk_depends_on, pk_required_by, pk_get_distro_upgrades, pk_get_old_transactions,
  pk_install_packages, pk_remove_packages, pk_update_packages, pk_refresh_cache,
  pk_download_packages, pk_install_files, pk_repo_enable, pk_accept_eula, pk_cancel,
}

pub data Request : Type 0 where
  set_hints : List ℕ → Bool → Request
  search_name : ℕ → List (List ℕ) → Request
  search_details : ℕ → List (List ℕ) → Request
  search_files : ℕ → List (List ℕ) → Request
  search_groups : ℕ → List (List ℕ) → Request
  get_packages : ℕ → Request
  get_updates : ℕ → Request
  resolve : ℕ → List (List ℕ) → Request
  what_provides : ℕ → List (List ℕ) → Request
  get_details : List (List ℕ) → Request
  get_update_detail : List (List ℕ) → Request
  get_files : List (List ℕ) → Request
  get_repo_list : ℕ → Request
  depends_on : ℕ → List (List ℕ) → Bool → Request
  required_by : ℕ → List (List ℕ) → Bool → Request
  get_distro_upgrades : Request
  get_old_transactions : ℕ → Request
  install_packages : ℕ → List (List ℕ) → Request
  remove_packages : ℕ → List (List ℕ) → Bool → Bool → Request
  update_packages : ℕ → List (List ℕ) → Request
  refresh_cache : Bool → Request
  download_packages : Bool → List (List ℕ) → Request
  install_files : ℕ → List (List ℕ) → Request
  repo_enable : List ℕ → Bool → Request
  accept_eula : List ℕ → Request
  cancel : Request

abbrev pub terminated : List ℕ → List ℕ
terminated s = s ++ (0 ∷ [])

-- The call of the bridge's function, with the arrays that the FFI bindings allocate.
abbrev pub run_request : SystemBus → ℕ → Request → M (Unit {0})
run_request bus handle (set_hints locale interactive) =
    pk_transaction_set_hints bus handle (some (terminated locale)) interactive
run_request bus handle (search_name filter values) =
    pk_search_name bus handle filter (map terminated values) (pos (length values))
run_request bus handle (search_details filter values) =
    pk_search_details bus handle filter (map terminated values) (pos (length values))
run_request bus handle (search_files filter values) =
    pk_search_files bus handle filter (map terminated values) (pos (length values))
run_request bus handle (search_groups filter values) =
    pk_search_groups bus handle filter (map terminated values) (pos (length values))
run_request bus handle (get_packages filter) = pk_get_packages bus handle filter
run_request bus handle (get_updates filter) = pk_get_updates bus handle filter
run_request bus handle (resolve filter ids) =
    pk_resolve bus handle filter (map terminated ids) (pos (length ids))
run_request bus handle (what_provides filter values) =
    pk_what_provides bus handle filter (map terminated values) (pos (length values))
run_request bus handle (get_details ids) =
    pk_get_details bus handle (map terminated ids) (pos (length ids))
run_request bus handle (get_update_detail ids) =
    pk_get_update_detail bus handle (map terminated ids) (pos (length ids))
run_request bus handle (get_files ids) =
    pk_get_files bus handle (map terminated ids) (pos (length ids))
run_request bus handle (get_repo_list filter) = pk_get_repo_list bus handle filter
run_request bus handle (depends_on filter ids recursive) =
    pk_depends_on bus handle filter (map terminated ids) (pos (length ids)) recursive
run_request bus handle (required_by filter ids recursive) =
    pk_required_by bus handle filter (map terminated ids) (pos (length ids)) recursive
run_request bus handle get_distro_upgrades = pk_get_distro_upgrades bus handle
run_request bus handle (get_old_transactions number) = pk_get_old_transactions bus handle number
run_request bus handle (install_packages flags ids) =
    pk_install_packages bus handle flags (map terminated ids) (pos (length ids))
run_request bus handle (remove_packages flags ids allow_deps autoremove) =
    pk_remove_packages bus handle flags (map terminated ids) (pos (length ids)) allow_deps
      autoremove
run_request bus handle (update_packages flags ids) =
    pk_update_packages bus handle flags (map terminated ids) (pos (length ids))
run_request bus handle (refresh_cache force) = pk_refresh_cache bus handle force
run_request bus handle (download_packages store_in_cache ids) =
    pk_download_packages bus handle store_in_cache (map terminated ids) (pos (length ids))
run_request bus handle (install_files flags paths) =
    pk_install_files bus handle flags (map terminated paths) (pos (length paths))
run_request bus handle (repo_enable repo_id enabled) =
    pk_repo_enable bus handle (terminated repo_id) enabled
run_request bus handle (accept_eula eula_id) = pk_accept_eula bus handle (terminated eula_id)
run_request bus handle cancel = pk_cancel bus handle

-- The strings that a request hands over.
abbrev pub strings : Request → List (List ℕ)
strings (set_hints locale interactive) = locale ∷ []
strings (search_name filter values) = values
strings (search_details filter values) = values
strings (search_files filter values) = values
strings (search_groups filter values) = values
strings (get_packages filter) = []
strings (get_updates filter) = []
strings (resolve filter ids) = ids
strings (what_provides filter values) = values
strings (get_details ids) = ids
strings (get_update_detail ids) = ids
strings (get_files ids) = ids
strings (get_repo_list filter) = []
strings (depends_on filter ids recursive) = ids
strings (required_by filter ids recursive) = ids
strings get_distro_upgrades = []
strings (get_old_transactions number) = []
strings (install_packages flags ids) = ids
strings (remove_packages flags ids allow_deps autoremove) = ids
strings (update_packages flags ids) = ids
strings (refresh_cache force) = []
strings (download_packages store_in_cache ids) = ids
strings (install_files flags paths) = paths
strings (repo_enable repo_id enabled) = repo_id ∷ []
strings (accept_eula eula_id) = eula_id ∷ []
strings cancel = []

abbrev pub method_name : Request → String
method_name (set_hints locale interactive) = "SetHints"
method_name (search_name filter values) = "SearchNames"
method_name (search_details filter values) = "SearchDetails"
method_name (search_files filter values) = "SearchFiles"
method_name (search_groups filter values) = "SearchGroups"
method_name (get_packages filter) = "GetPackages"
method_name (get_updates filter) = "GetUpdates"
method_name (resolve filter ids) = "Resolve"
method_name (what_provides filter values) = "WhatProvides"
method_name (get_details ids) = "GetDetails"
method_name (get_update_detail ids) = "GetUpdateDetail"
method_name (get_files ids) = "GetFiles"
method_name (get_repo_list filter) = "GetRepoList"
method_name (depends_on filter ids recursive) = "DependsOn"
method_name (required_by filter ids recursive) = "RequiredBy"
method_name get_distro_upgrades = "GetDistroUpgrades"
method_name (get_old_transactions number) = "GetOldTransactions"
method_name (install_packages flags ids) = "InstallPackages"
method_name (remove_packages flags ids allow_deps autoremove) = "RemovePackages"
method_name (update_packages flags ids) = "UpdatePackages"
method_name (refresh_cache force) = "RefreshCache"
method_name (download_packages store_in_cache ids) = "DownloadPackages"
method_name (install_files flags paths) = "InstallFiles"
method_name (repo_enable repo_id enabled) = "RepoEnable"
method_name (accept_eula eula_id) = "AcceptEula"
method_name cancel = "Cancel"

abbrev pub arguments : Request → List Variant
arguments (set_hints locale interactive) =
    texts (
      (codes "locale=" ++ locale)
      ∷ codes "background=false"
      ∷ codes "supports-plural-signals=true"
      ∷ (codes "interactive=" ++ (if interactive then codes "true" else codes "false"))
      ∷ [])
    ∷ []
arguments (search_name filter values) = uint64 filter ∷ texts values ∷ []
arguments (search_details filter values) = uint64 filter ∷ texts values ∷ []
arguments (search_files filter values) = uint64 filter ∷ texts values ∷ []
arguments (search_groups filter values) = uint64 filter ∷ texts values ∷ []
arguments (get_packages filter) = uint64 filter ∷ []
arguments (get_updates filter) = uint64 filter ∷ []
arguments (resolve filter ids) = uint64 filter ∷ texts ids ∷ []
arguments (what_provides filter values) = uint64 filter ∷ texts values ∷ []
arguments (get_details ids) = texts ids ∷ []
arguments (get_update_detail ids) = texts ids ∷ []
arguments (get_files ids) = texts ids ∷ []
arguments (get_repo_list filter) = uint64 filter ∷ []
arguments (depends_on filter ids recursive) = uint64 filter ∷ texts ids ∷ truth recursive ∷ []
arguments (required_by filter ids recursive) = uint64 filter ∷ texts ids ∷ truth recursive ∷ []
arguments get_distro_upgrades = []
arguments (get_old_transactions number) = uint32 number ∷ []
arguments (install_packages flags ids) = uint64 flags ∷ texts ids ∷ []
arguments (remove_packages flags ids allow_deps autoremove) =
    uint64 flags ∷ texts ids ∷ truth allow_deps ∷ truth autoremove ∷ []
arguments (update_packages flags ids) = uint64 flags ∷ texts ids ∷ []
arguments (refresh_cache force) = truth force ∷ []
arguments (download_packages store_in_cache ids) = truth store_in_cache ∷ texts ids ∷ []
arguments (install_files flags paths) = uint64 flags ∷ texts paths ∷ []
arguments (repo_enable repo_id enabled) = text repo_id ∷ truth enabled ∷ []
arguments (accept_eula eula_id) = text eula_id ∷ []
arguments cancel = []

-- The D-Bus call that a request has to make of a transaction.
abbrev pub request_call : PkTransactionBridge → Request → MethodCall
request_call t r = record {
  path = t.path;
  destination = "org.freedesktop.PackageKit";
  interface_name = "org.freedesktop.PackageKit.Transaction";
  method = method_name r;
  arguments = arguments r;
}
