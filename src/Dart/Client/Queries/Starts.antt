-- ===== src/Dart/Client/Queries/Starts.antt =====
-- The methods of PkClient make the requests of their queries.
use packagekit_dart.Base.{ℕ, ℤ, pos, suc, ◌≡◌, refl, ap, List, [], ◌∷◌, ◌++◌, map, length}
use packagekit_dart.Bus.{M, SystemBus}
use packagekit_dart.PkBridge.Requests.{Request, terminated, run_request}
use packagekit_dart.PkBridge.Requests
use packagekit_dart.PkBridge.Entries.{
  pk_depends_on, pk_download_packages, pk_get_details, pk_get_files, pk_get_update_detail,
  pk_install_files, pk_install_packages, pk_remove_packages, pk_required_by, pk_resolve,
  pk_search_details, pk_search_files, pk_search_name, pk_update_packages, pk_what_provides,
}
use packagekit_dart.Dart.Core.{DartString}
use packagekit_dart.Dart.Utf8.{utf8_encode}
use packagekit_dart.Dart.Enums.PkFilter
use packagekit_dart.Dart.Enums.PkFilter.{PkFilter}
use packagekit_dart.Dart.Enums.PkTransactionFlag
use packagekit_dart.Dart.Enums.PkTransactionFlag.{PkTransactionFlag, simulate}
use packagekit_dart.Dart.Bindings.{to_native_utf8, alloc_string_array, call_string_list, call_ids}
use packagekit_dart.Dart.Client.{PkClient, start_query}
use packagekit_dart.Dart.Client.Methods
use packagekit_dart.Dart.Client.Queries.{
  Query, search_name, search_details, search_files, get_packages, get_updates, resolve,
  what_provides, get_details, get_update_detail, get_files, get_repo_list, depends_on, required_by,
  get_distro_upgrades, simulate_install, simulate_remove, simulate_update, install_packages,
  remove_packages, update_packages, refresh_cache, install_files, download_packages, repo_enable,
  accept_eula, run_query, native_request, query_strings,
}

pub strings_lem :
    (q : Query) → Requests.strings (native_request q) ≡ map utf8_encode (query_strings q)
strings_lem (search_name query filters) = refl
strings_lem _ = refl

alloc_string_array_lem :
    (values : List DartString) → alloc_string_array values ≡ map terminated (map utf8_encode values)
unfolding alloc_string_array to_native_utf8
alloc_string_array_lem [] = refl
alloc_string_array_lem (s ∷ values) = ap (◌∷◌ (to_native_utf8 s)) (alloc_string_array_lem values)

length_utf8 : (values : List DartString) → length values ≡ length (map utf8_encode values)
length_utf8 [] = refl
length_utf8 (s ∷ values) = ap suc (length_utf8 values)

module _ (bus : SystemBus) (c : PkClient) (port : ℕ) where
  -- A function that is handed the array of some strings and its length.
  with_array :
      (f : ℕ → List (List ℕ) → ℤ → M (Unit {0})) (values : List DartString)
      → start_query bus c port (λ h. f h (alloc_string_array values) (pos (length values)))
        ≡ start_query bus c port (λ h.
          f h (map terminated (map utf8_encode values)) (pos (length (map utf8_encode values))))
  with_array f values i =
      start_query bus c port
        (λ h. f h (alloc_string_array_lem values i) (pos (length_utf8 values i)))

  -- Each method starts a transaction with its request.
  pub run_query_lem :
      (q : Query)
      → run_query bus c port q ≡ start_query bus c port (λ h. run_request bus h (native_request q))
  unfolding to_native_utf8 call_string_list call_ids
  run_query_lem (search_name query filters) =
      unfold Methods.search_name in
      with_array (λ h arr n. pk_search_name bus h (PkFilter.combine filters) arr n) (query ∷ [])
  run_query_lem (search_details query filters) =
      unfold Methods.search_details in
      with_array (λ h arr n. pk_search_details bus h (PkFilter.combine filters) arr n) (query ∷ [])
  run_query_lem (search_files path filters) =
      unfold Methods.search_files in
      with_array (λ h arr n. pk_search_files bus h (PkFilter.combine filters) arr n) (path ∷ [])
  run_query_lem (get_packages filters) = unfold Methods.get_packages in refl
  run_query_lem (get_updates filters) = unfold Methods.get_updates in refl
  run_query_lem (resolve names filters) =
      unfold Methods.resolve in
      with_array (λ h arr n. pk_resolve bus h (PkFilter.combine filters) arr n) names
  run_query_lem (what_provides values filters) =
      unfold Methods.what_provides in
      with_array (λ h arr n. pk_what_provides bus h (PkFilter.combine filters) arr n) values
  run_query_lem (get_details package_ids) =
      unfold Methods.get_details in with_array (λ h arr n. pk_get_details bus h arr n) package_ids
  run_query_lem (get_update_detail package_ids) =
      unfold Methods.get_update_detail in
      with_array (λ h arr n. pk_get_update_detail bus h arr n) package_ids
  run_query_lem (get_files package_ids) =
      unfold Methods.get_files in with_array (λ h arr n. pk_get_files bus h arr n) package_ids
  run_query_lem (get_repo_list filters) = unfold Methods.get_repo_list in refl
  run_query_lem (depends_on package_ids filters recursive) =
      unfold Methods.depends_on in
      with_array (λ h arr n. pk_depends_on bus h (PkFilter.combine filters) arr n recursive)
        package_ids
  run_query_lem (required_by package_ids filters recursive) =
      unfold Methods.required_by in
      with_array (λ h arr n. pk_required_by bus h (PkFilter.combine filters) arr n recursive)
        package_ids
  run_query_lem get_distro_upgrades = unfold Methods.get_distro_upgrades in refl
  run_query_lem (simulate_install package_ids flags) =
      unfold Methods.simulate_install in
      with_array
        (λ h arr n.
          pk_install_packages bus h (PkTransactionFlag.combine (flags ++ (simulate ∷ []))) arr n)
        package_ids
  run_query_lem (simulate_remove package_ids allow_deps autoremove flags) =
      unfold Methods.simulate_remove in
      with_array
        (λ h arr n.
          pk_remove_packages bus h (PkTransactionFlag.combine (flags ++ (simulate ∷ []))) arr n
            allow_deps autoremove)
        package_ids
  run_query_lem (simulate_update package_ids flags) =
      unfold Methods.simulate_update in
      with_array
        (λ h arr n.
          pk_update_packages bus h (PkTransactionFlag.combine (flags ++ (simulate ∷ []))) arr n)
        package_ids
  run_query_lem (install_packages package_ids flags) =
      unfold Methods.install_packages in
      with_array (λ h arr n. pk_install_packages bus h (PkTransactionFlag.combine flags) arr n)
        package_ids
  run_query_lem (remove_packages package_ids allow_deps autoremove flags) =
      unfold Methods.remove_packages in
      with_array
        (λ h arr n.
          pk_remove_packages bus h (PkTransactionFlag.combine flags) arr n allow_deps autoremove)
        package_ids
  run_query_lem (update_packages package_ids flags) =
      unfold Methods.update_packages in
      with_array (λ h arr n. pk_update_packages bus h (PkTransactionFlag.combine flags) arr n)
        package_ids
  run_query_lem (refresh_cache force) = unfold Methods.refresh_cache in refl
  run_query_lem (install_files paths flags) =
      unfold Methods.install_files in
      with_array (λ h arr n. pk_install_files bus h (PkTransactionFlag.combine flags) arr n) paths
  run_query_lem (download_packages package_ids store_in_cache) =
      unfold Methods.download_packages in
      with_array (λ h arr n. pk_download_packages bus h store_in_cache arr n) package_ids
  run_query_lem (repo_enable repo_id enabled) = unfold Methods.repo_enable in refl
  run_query_lem (accept_eula eula_id) = unfold Methods.accept_eula in refl
