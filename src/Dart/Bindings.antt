-- ===== src/Dart/Bindings.antt =====
-- lib/src/ffi/bindings.dart: the Dart functions that call the C functions of the bridge, with their
-- strings in NUL-terminated UTF-8. What they allocate for a call is freed after it, so it is not
-- kept here; Memory has it.
pub mod Memory
pub mod Filling
pub mod Arrays
use packagekit_dart.Base.{ℕ, ℤ, pos, Bool, some, List, [], ◌∷◌, ◌++◌, length}
use packagekit_dart.Bus.{M}
use packagekit_dart.PkBridge.{pk_bridge_init, pk_manager_destroy, pk_transaction_destroy}
use packagekit_dart.PkBridge.Exports.{PackagekitNc}
use packagekit_dart.Dart.Core.{DartString}
use packagekit_dart.Dart.Utf8.{utf8_encode}

-- String.toNativeUtf8 of package:ffi.
unfoldable pub to_native_utf8 : DartString → List ℕ
to_native_utf8 s = utf8_encode s ++ (0 ∷ [])

unfoldable pub alloc_string_array : List DartString → List (List ℕ)
unfolding to_native_utf8
alloc_string_array [] = []
alloc_string_array (s ∷ strings) = to_native_utf8 s ∷ alloc_string_array strings

-- `_callStringList` and `_callIds`.
unfoldable pub call_string_list :
    (ℕ → ℕ → List (List ℕ) → ℤ → M (Unit {0})) → ℕ → ℕ → List DartString → M (Unit {0})
unfolding alloc_string_array
call_string_list fn h filter values = fn h filter (alloc_string_array values) (pos (length values))

unfoldable pub call_ids :
    (ℕ → List (List ℕ) → ℤ → M (Unit {0})) → ℕ → List DartString → M (Unit {0})
unfolding alloc_string_array
call_ids fn h ids = fn h (alloc_string_array ids) (pos (length ids))

abbrev pub init : (ℕ → M (Unit {0})) → ℕ → M (Unit {0})
init initialize_api_dl api_data = pk_bridge_init initialize_api_dl api_data

module _ (lib : PackagekitNc) where
  abbrev pub manager_create : ℕ → M ℕ
  manager_create events_port = lib.pk_manager_create events_port

  abbrev pub manager_read_properties : ℕ → M (Unit {0})
  manager_read_properties handle = lib.pk_manager_read_properties handle

  abbrev pub transaction_create : ℕ → ℕ → M ℕ
  transaction_create manager tx_port = lib.pk_transaction_create manager tx_port

  abbrev pub transaction_set_hints : ℕ → DartString → Bool → M (Unit {0})
  transaction_set_hints handle locale interactive =
      lib.pk_transaction_set_hints handle (some (to_native_utf8 locale)) interactive

  abbrev pub transaction_cancel : ℕ → M (Unit {0})
  transaction_cancel handle = lib.pk_cancel handle

  abbrev pub search_name : ℕ → ℕ → List DartString → M (Unit {0})
  search_name h filter values = call_string_list lib.pk_search_name h filter values

  abbrev pub search_details : ℕ → ℕ → List DartString → M (Unit {0})
  search_details h filter values = call_string_list lib.pk_search_details h filter values

  abbrev pub search_files : ℕ → ℕ → List DartString → M (Unit {0})
  search_files h filter values = call_string_list lib.pk_search_files h filter values

  abbrev pub get_packages : ℕ → ℕ → M (Unit {0})
  get_packages h filter = lib.pk_get_packages h filter

  abbrev pub get_updates : ℕ → ℕ → M (Unit {0})
  get_updates h filter = lib.pk_get_updates h filter

  abbrev pub resolve : ℕ → ℕ → List DartString → M (Unit {0})
  resolve h filter ids = call_string_list lib.pk_resolve h filter ids

  abbrev pub what_provides : ℕ → ℕ → List DartString → M (Unit {0})
  what_provides h filter values = call_string_list lib.pk_what_provides h filter values

  abbrev pub get_details : ℕ → List DartString → M (Unit {0})
  get_details h ids = call_ids lib.pk_get_details h ids

  abbrev pub get_update_detail : ℕ → List DartString → M (Unit {0})
  get_update_detail h ids = call_ids lib.pk_get_update_detail h ids

  abbrev pub get_files : ℕ → List DartString → M (Unit {0})
  get_files h ids = call_ids lib.pk_get_files h ids

  abbrev pub get_repo_list : ℕ → ℕ → M (Unit {0})
  get_repo_list h filter = lib.pk_get_repo_list h filter

  abbrev pub depends_on : ℕ → ℕ → List DartString → Bool → M (Unit {0})
  depends_on h filter ids recursive =
      lib.pk_depends_on h filter (alloc_string_array ids) (pos (length ids)) recursive

  abbrev pub required_by : ℕ → ℕ → List DartString → Bool → M (Unit {0})
  required_by h filter ids recursive =
      lib.pk_required_by h filter (alloc_string_array ids) (pos (length ids)) recursive

  abbrev pub get_distro_upgrades : ℕ → M (Unit {0})
  get_distro_upgrades h = lib.pk_get_distro_upgrades h

  abbrev pub install_packages : ℕ → ℕ → List DartString → M (Unit {0})
  install_packages h flags ids =
      lib.pk_install_packages h flags (alloc_string_array ids) (pos (length ids))

  abbrev pub remove_packages : ℕ → ℕ → List DartString → Bool → Bool → M (Unit {0})
  remove_packages h flags ids allow_deps autoremove =
      lib.pk_remove_packages h flags (alloc_string_array ids) (pos (length ids)) allow_deps
        autoremove

  abbrev pub update_packages : ℕ → ℕ → List DartString → M (Unit {0})
  update_packages h flags ids =
      lib.pk_update_packages h flags (alloc_string_array ids) (pos (length ids))

  abbrev pub refresh_cache : ℕ → Bool → M (Unit {0})
  refresh_cache h force = lib.pk_refresh_cache h force

  abbrev pub download_packages : ℕ → Bool → List DartString → M (Unit {0})
  download_packages h store_in_cache ids =
      lib.pk_download_packages h store_in_cache (alloc_string_array ids) (pos (length ids))

  abbrev pub install_files : ℕ → ℕ → List DartString → M (Unit {0})
  install_files h flags paths =
      lib.pk_install_files h flags (alloc_string_array paths) (pos (length paths))

  abbrev pub repo_enable : ℕ → DartString → Bool → M (Unit {0})
  repo_enable h repo_id enabled = lib.pk_repo_enable h (to_native_utf8 repo_id) enabled

  abbrev pub accept_eula : ℕ → DartString → M (Unit {0})
  accept_eula h eula_id = lib.pk_accept_eula h (to_native_utf8 eula_id)

abbrev pub manager_destroy : ℕ → M (Unit {0})
manager_destroy handle = pk_manager_destroy handle

abbrev pub transaction_destroy : ℕ → M (Unit {0})
transaction_destroy handle = pk_transaction_destroy handle
