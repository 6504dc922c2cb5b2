-- ===== src/PkBridge/Entries.antt =====
-- native/src/pk_bridge.cpp: the functions that start or cancel a transaction.
use packagekit_dart.Base.{ℕ, ℤ, Bool, List}
use packagekit_dart.Bus.{M, ◌>>=◌, lift, SystemBus}
use packagekit_dart.PkTransaction.Methods.{
  search_name, search_details, search_files, search_groups, get_packages, get_updates, resolve,
  what_provides, get_details, get_update_detail, get_files, get_repo_list, depends_on, required_by,
  get_distro_upgrades, get_old_transactions, install_packages, remove_packages, update_packages,
  refresh_cache, download_packages, install_files, repo_enable, accept_eula, cancel,
}
use packagekit_dart.PkTransaction.Interface.{transaction_methods}
use packagekit_dart.PkBridge.{c_string, to_vec, tx, pk_tx_try}

module _ (bus : SystemBus) where
  unfoldable pub pk_search_name : ℕ → ℕ → List (List ℕ) → ℤ → M (Unit {0})
  unfolding pk_tx_try tx search_name to_vec
  pk_search_name handle filter values n_values = pk_tx_try handle (do
    t ← tx handle
    v ← lift (to_vec values n_values)
    (transaction_methods bus t).search_name filter v)

  unfoldable pub pk_search_details : ℕ → ℕ → List (List ℕ) → ℤ → M (Unit {0})
  unfolding pk_tx_try tx search_details to_vec
  pk_search_details handle filter values n_values = pk_tx_try handle (do
    t ← tx handle
    v ← lift (to_vec values n_values)
    (transaction_methods bus t).search_details filter v)

  unfoldable pub pk_search_files : ℕ → ℕ → List (List ℕ) → ℤ → M (Unit {0})
  unfolding pk_tx_try tx search_files to_vec
  pk_search_files handle filter values n_values = pk_tx_try handle (do
    t ← tx handle
    v ← lift (to_vec values n_values)
    (transaction_methods bus t).search_files filter v)

  unfoldable pub pk_search_groups : ℕ → ℕ → List (List ℕ) → ℤ → M (Unit {0})
  unfolding pk_tx_try tx search_groups to_vec
  pk_search_groups handle filter values n_values = pk_tx_try handle (do
    t ← tx handle
    v ← lift (to_vec values n_values)
    (transaction_methods bus t).search_groups filter v)

  unfoldable pub pk_get_packages : ℕ → ℕ → M (Unit {0})
  unfolding pk_tx_try tx get_packages
  pk_get_packages handle filter =
      pk_tx_try handle (do t ← tx handle; (transaction_methods bus t).get_packages filter)

  unfoldable pub pk_get_updates : ℕ → ℕ → M (Unit {0})
  unfolding pk_tx_try tx get_updates
  pk_get_updates handle filter =
      pk_tx_try handle (do t ← tx handle; (transaction_methods bus t).get_updates filter)

  unfoldable pub pk_resolve : ℕ → ℕ → List (List ℕ) → ℤ → M (Unit {0})
  unfolding pk_tx_try tx resolve to_vec
  pk_resolve handle filter ids n_ids =
      pk_tx_try handle (do
        t ← tx handle
        v ← lift (to_vec ids n_ids)
        (transaction_methods bus t).resolve filter v)

  unfoldable pub pk_what_provides : ℕ → ℕ → List (List ℕ) → ℤ → M (Unit {0})
  unfolding pk_tx_try tx what_provides to_vec
  pk_what_provides handle filter values n_values = pk_tx_try handle (do
    t ← tx handle
    v ← lift (to_vec values n_values)
    (transaction_methods bus t).what_provides filter v)

  unfoldable pub pk_get_details : ℕ → List (List ℕ) → ℤ → M (Unit {0})
  unfolding pk_tx_try tx get_details to_vec
  pk_get_details handle ids n_ids =
      pk_tx_try handle
        (do t ← tx handle; v ← lift (to_vec ids n_ids); (transaction_methods bus t).get_details v)

  unfoldable pub pk_get_update_detail : ℕ → List (List ℕ) → ℤ → M (Unit {0})
  unfolding pk_tx_try tx get_update_detail to_vec
  pk_get_update_detail handle ids n_ids = pk_tx_try handle (do
    t ← tx handle
    v ← lift (to_vec ids n_ids)
    (transaction_methods bus t).get_update_detail v)

  unfoldable pub pk_get_files : ℕ → List (List ℕ) → ℤ → M (Unit {0})
  unfolding pk_tx_try tx get_files to_vec
  pk_get_files handle ids n_ids =
      pk_tx_try handle
        (do t ← tx handle; v ← lift (to_vec ids n_ids); (transaction_methods bus t).get_files v)

  unfoldable pub pk_get_repo_list : ℕ → ℕ → M (Unit {0})
  unfolding pk_tx_try tx get_repo_list
  pk_get_repo_list handle filter =
      pk_tx_try handle (do t ← tx handle; (transaction_methods bus t).get_repo_list filter)

  unfoldable pub pk_depends_on : ℕ → ℕ → List (List ℕ) → ℤ → Bool → M (Unit {0})
  unfolding pk_tx_try tx depends_on to_vec
  pk_depends_on handle filter ids n_ids recursive = pk_tx_try handle (do
    t ← tx handle
    v ← lift (to_vec ids n_ids)
    (transaction_methods bus t).depends_on filter v recursive)

  unfoldable pub pk_required_by : ℕ → ℕ → List (List ℕ) → ℤ → Bool → M (Unit {0})
  unfolding pk_tx_try tx required_by to_vec
  pk_required_by handle filter ids n_ids recursive = pk_tx_try handle (do
    t ← tx handle
    v ← lift (to_vec ids n_ids)
    (transaction_methods bus t).required_by filter v recursive)

  unfoldable pub pk_get_distro_upgrades : ℕ → M (Unit {0})
  unfolding pk_tx_try tx get_distro_upgrades
  pk_get_distro_upgrades handle =
      pk_tx_try handle (do t ← tx handle; (transaction_methods bus t).get_distro_upgrades)

  unfoldable pub pk_get_old_transactions : ℕ → ℕ → M (Unit {0})
  unfolding pk_tx_try tx get_old_transactions
  pk_get_old_transactions handle number =
      pk_tx_try handle (do t ← tx handle; (transaction_methods bus t).get_old_transactions number)

  unfoldable pub pk_install_packages : ℕ → ℕ → List (List ℕ) → ℤ → M (Unit {0})
  unfolding pk_tx_try tx install_packages to_vec
  pk_install_packages handle flags ids n_ids = pk_tx_try handle (do
    t ← tx handle
    v ← lift (to_vec ids n_ids)
    (transaction_methods bus t).install_packages flags v)

  unfoldable pub pk_remove_packages : ℕ → ℕ → List (List ℕ) → ℤ → Bool → Bool → M (Unit {0})
  unfolding pk_tx_try tx remove_packages to_vec
  pk_remove_packages handle flags ids n_ids allow_deps autoremove = pk_tx_try handle (do
    t ← tx handle
    v ← lift (to_vec ids n_ids)
    (transaction_methods bus t).remove_packages flags v allow_deps autoremove)

  unfoldable pub pk_update_packages : ℕ → ℕ → List (List ℕ) → ℤ → M (Unit {0})
  unfolding pk_tx_try tx update_packages to_vec
  pk_update_packages handle flags ids n_ids = pk_tx_try handle (do
    t ← tx handle
    v ← lift (to_vec ids n_ids)
    (transaction_methods bus t).update_packages flags v)

  unfoldable pub pk_refresh_cache : ℕ → Bool → M (Unit {0})
  unfolding pk_tx_try tx refresh_cache
  pk_refresh_cache handle force =
      pk_tx_try handle (do t ← tx handle; (transaction_methods bus t).refresh_cache force)

  unfoldable pub pk_download_packages : ℕ → Bool → List (List ℕ) → ℤ → M (Unit {0})
  unfolding pk_tx_try tx download_packages to_vec
  pk_download_packages handle store_in_cache ids n_ids = pk_tx_try handle (do
    t ← tx handle
    v ← lift (to_vec ids n_ids)
    (transaction_methods bus t).download_packages store_in_cache v)

  unfoldable pub pk_install_files : ℕ → ℕ → List (List ℕ) → ℤ → M (Unit {0})
  unfolding pk_tx_try tx install_files to_vec
  pk_install_files handle flags paths n_paths = pk_tx_try handle (do
    t ← tx handle
    v ← lift (to_vec paths n_paths)
    (transaction_methods bus t).install_files flags v)

  unfoldable pub pk_repo_enable : ℕ → List ℕ → Bool → M (Unit {0})
  unfolding pk_tx_try tx repo_enable c_string
  pk_repo_enable handle repo_id enabled = pk_tx_try handle (do
    t ← tx handle
    s ← lift (c_string repo_id)
    (transaction_methods bus t).repo_enable s enabled)

  unfoldable pub pk_accept_eula : ℕ → List ℕ → M (Unit {0})
  unfolding pk_tx_try tx accept_eula c_string
  pk_accept_eula handle eula_id =
      pk_tx_try handle
        (do t ← tx handle; s ← lift (c_string eula_id); (transaction_methods bus t).accept_eula s)

  unfoldable pub pk_cancel : ℕ → M (Unit {0})
  unfolding pk_tx_try tx cancel
  pk_cancel handle = pk_tx_try handle (do t ← tx handle; (transaction_methods bus t).cancel)
