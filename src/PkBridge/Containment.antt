-- ===== src/PkBridge/Containment.antt =====
-- native/src/pk_bridge.cpp: no sdbus::Error leaves a function that the library exports.
use packagekit_dart.Base.{ℕ, ℤ, zero, suc, Bool, Option, List, find, Option-cases, inl, inr}
use packagekit_dart.Bus.{
  M, ◌>>=◌, after, PkTransactionBridge, pure, Outcome, returned, thrown, raised, undefined,
  SystemBus, World,
}
use packagekit_dart.PkTransaction.{post_error, delete_bridge}
use packagekit_dart.PkManager.{delete_manager, new_manager}
use packagekit_dart.PkManager.Interface.{manager_methods}
use packagekit_dart.PkBridge.{
  handled, try_catch, pk_try, pk_tx_try, mgr, tx, pk_manager_create, pk_manager_destroy,
  pk_manager_read_properties, pk_transaction_create, pk_transaction_destroy,
  pk_transaction_set_hints,
}
use packagekit_dart.PkBridge.Entries.{
  pk_search_name, pk_search_details, pk_search_files, pk_search_groups, pk_get_packages,
  pk_get_updates, pk_resolve, pk_what_provides, pk_get_details, pk_get_update_detail, pk_get_files,
  pk_get_repo_list, pk_depends_on, pk_required_by, pk_get_distro_upgrades, pk_get_old_transactions,
  pk_install_packages, pk_remove_packages, pk_update_packages, pk_refresh_cache,
  pk_download_packages, pk_install_files, pk_repo_enable, pk_accept_eula, pk_cancel,
}
use packagekit_dart.PkBridge.Exports.{PackagekitNc, packagekit_nc}

-- An outcome other than an sdbus::Error.
abbrev pub IsCaught : {A : Type 0} → Outcome A → Type 0
IsCaught (returned a) = Unit {0}
IsCaught (thrown e) = ⊥
IsCaught (raised x) = Unit {0}
IsCaught undefined = Unit {0}

-- A call that throws in no world.
abbrev pub NeverThrows : {A : Type 0} → M A → Type 0
NeverThrows m = (w : World) → IsCaught (m w).0

-- A library none of whose functions throws, whatever its arguments.
abbrev pub IsContained : (ℕ → M (Unit {0})) → PackagekitNc → Type 0
IsContained initialize_api_dl lib =
    ((api_data : ℕ) → NeverThrows (lib.pk_bridge_init initialize_api_dl api_data))
    × ((events_port : ℕ) → NeverThrows (lib.pk_manager_create events_port))
    × ((handle : ℕ) → NeverThrows (lib.pk_manager_destroy handle))
    × ((handle : ℕ) → NeverThrows (lib.pk_manager_read_properties handle))
    × ((manager : ℕ) (tx_port : ℕ) → NeverThrows (lib.pk_transaction_create manager tx_port))
    × ((handle : ℕ) → NeverThrows (lib.pk_transaction_destroy handle))
    × ((handle : ℕ) (locale : Option (List ℕ)) (interactive : Bool)
        → NeverThrows (lib.pk_transaction_set_hints handle locale interactive))
    × ((handle : ℕ) (filter : ℕ) (values : List (List ℕ)) (n_values : ℤ)
        → NeverThrows (lib.pk_search_name handle filter values n_values))
    × ((handle : ℕ) (filter : ℕ) (values : List (List ℕ)) (n_values : ℤ)
        → NeverThrows (lib.pk_search_details handle filter values n_values))
    × ((handle : ℕ) (filter : ℕ) (values : List (List ℕ)) (n_values : ℤ)
        → NeverThrows (lib.pk_search_files handle filter values n_values))
    × ((handle : ℕ) (filter : ℕ) (values : List (List ℕ)) (n_values : ℤ)
        → NeverThrows (lib.pk_search_groups handle filter values n_values))
    × ((handle : ℕ) (filter : ℕ) → NeverThrows (lib.pk_get_packages handle filter))
    × ((handle : ℕ) (filter : ℕ) → NeverThrows (lib.pk_get_updates handle filter))
    × ((handle : ℕ) (filter : ℕ) (ids : List (List ℕ)) (n_ids : ℤ)
        → NeverThrows (lib.pk_resolve handle filter ids n_ids))
    × ((handle : ℕ) (filter : ℕ) (values : List (List ℕ)) (n_values : ℤ)
        → NeverThrows (lib.pk_what_provides handle filter values n_values))
    × ((handle : ℕ) (ids : List (List ℕ)) (n_ids : ℤ)
        → NeverThrows (lib.pk_get_details handle ids n_ids))
    × ((handle : ℕ) (ids : List (List ℕ)) (n_ids : ℤ)
        → NeverThrows (lib.pk_get_update_detail handle ids n_ids))
    × ((handle : ℕ) (ids : List (List ℕ)) (n_ids : ℤ)
        → NeverThrows (lib.pk_get_files handle ids n_ids))
    × ((handle : ℕ) (filter : ℕ) → NeverThrows (lib.pk_get_repo_list handle filter))
    × ((handle : ℕ) (filter : ℕ) (ids : List (List ℕ)) (n_ids : ℤ) (recursive : Bool)
        → NeverThrows (lib.pk_depends_on handle filter ids n_ids recursive))
    × ((handle : ℕ) (filter : ℕ) (ids : List (List ℕ)) (n_ids : ℤ) (recursive : Bool)
        → NeverThrows (lib.pk_required_by handle filter ids n_ids recursive))
    × ((handle : ℕ) → NeverThrows (lib.pk_get_distro_upgrades handle))
    × ((handle : ℕ) (number : ℕ) → NeverThrows (lib.pk_get_old_transactions handle number))
    × ((handle : ℕ) (flags : ℕ) (ids : List (List ℕ)) (n_ids : ℤ)
        → NeverThrows (lib.pk_install_packages handle flags ids n_ids))
    × ((handle : ℕ) (flags : ℕ) (ids : List (List ℕ)) (n_ids : ℤ) (allow_deps : Bool)
          (autoremove : Bool)
        → NeverThrows (lib.pk_remove_packages handle flags ids n_ids allow_deps autoremove))
    × ((handle : ℕ) (flags : ℕ) (ids : List (List ℕ)) (n_ids : ℤ)
        → NeverThrows (lib.pk_update_packages handle flags ids n_ids))
    × ((handle : ℕ) (force : Bool) → NeverThrows (lib.pk_refresh_cache handle force))
    × ((handle : ℕ) (store_in_cache : Bool) (ids : List (List ℕ)) (n_ids : ℤ)
        → NeverThrows (lib.pk_download_packages handle store_in_cache ids n_ids))
    × ((handle : ℕ) (flags : ℕ) (paths : List (List ℕ)) (n_paths : ℤ)
        → NeverThrows (lib.pk_install_files handle flags paths n_paths))
    × ((handle : ℕ) (repo_id : List ℕ) (enabled : Bool)
        → NeverThrows (lib.pk_repo_enable handle repo_id enabled))
    × ((handle : ℕ) (eula_id : List ℕ) → NeverThrows (lib.pk_accept_eula handle eula_id))
    × ((handle : ℕ) → NeverThrows (lib.pk_cancel handle))

handled-IsCaught :
    {A : Type 0} (handler : List ℕ → M A) (o : Outcome A) (w : World)
    → ((e : List ℕ) → NeverThrows (handler e))
    → IsCaught (handled handler (o, w)).0
handled-IsCaught handler (returned a) w h = tt
handled-IsCaught handler (thrown e) w h = h e w
handled-IsCaught handler (raised x) w h = tt
handled-IsCaught handler undefined w h = tt

try_catch-NeverThrows :
    {A : Type 0} (body : M A) (handler : List ℕ → M A)
    → ((e : List ℕ) → NeverThrows (handler e))
    → NeverThrows (try_catch body handler)
try_catch-NeverThrows body handler h w = handled-IsCaught handler (body w).0 (body w).1 h

pure-NeverThrows : {A : Type 0} (a : A) → NeverThrows (pure a)
pure-NeverThrows a w = tt

null-NeverThrows : (body : M ℕ) → NeverThrows (try_catch body (λ _. pure 0))
null-NeverThrows body = try_catch-NeverThrows body (λ _. pure 0) (λ e w. tt)

pk_try-NeverThrows : (expr : M (Unit {0})) → NeverThrows (pk_try expr)
unfolding pk_try
pk_try-NeverThrows expr = try_catch-NeverThrows expr _ (λ e w. tt)

mgr-NeverThrows : (handle : ℕ) → NeverThrows (mgr handle)
unfolding mgr
mgr-NeverThrows handle w = elim (Option-cases (find handle w.managers)) [
  | inl gone ↦ rw gone tt
  | inr (m, there) ↦ rw there tt
]

after-IsCaught :
    {A B : Type 0} (f : A → M B) (o : Outcome A) (w : World)
    → IsCaught o
    → ((a : A) → NeverThrows (f a))
    → IsCaught (after f o w).0
after-IsCaught f (returned a) w h k = k a w
after-IsCaught f (thrown e) w h k = h
after-IsCaught f (raised x) w h k = tt
after-IsCaught f undefined w h k = tt

bind-NeverThrows :
    {A B : Type 0} (m : M A) (f : A → M B)
    → NeverThrows m
    → ((a : A) → NeverThrows (f a))
    → NeverThrows (m >>= f)
bind-NeverThrows m f h k w = after-IsCaught f (m w).0 (m w).1 (h w) k

tx-NeverThrows : (handle : ℕ) → NeverThrows (tx handle)
unfolding tx
tx-NeverThrows handle w = elim (Option-cases (find handle w.transactions)) [
  | inl gone ↦ rw gone tt
  | inr (t, there) ↦ rw there (
      bind-NeverThrows (mgr t.connection) (λ _. pure t) (mgr-NeverThrows t.connection) (λ m w'. tt)
        w)
]

post_error-NeverThrows : (t : PkTransactionBridge) (e : List ℕ) → NeverThrows (post_error t e)
unfolding post_error
post_error-NeverThrows t e w = tt

pk_tx_try-NeverThrows : (handle : ℕ) (expr : M (Unit {0})) → NeverThrows (pk_tx_try handle expr)
unfolding pk_tx_try
pk_tx_try-NeverThrows handle expr = try_catch-NeverThrows expr _ (λ e.
    bind-NeverThrows (tx handle) (λ t. post_error t e) (tx-NeverThrows handle)
      (λ t. post_error-NeverThrows t e))

pk_manager_destroy-NeverThrows : (handle : ℕ) → NeverThrows (pk_manager_destroy handle)
unfolding pk_manager_destroy delete_manager
pk_manager_destroy-NeverThrows zero w = tt
pk_manager_destroy-NeverThrows (suc p) w =
    bind-NeverThrows (mgr (suc p)) (λ _. delete_manager (suc p)) (mgr-NeverThrows (suc p))
      (λ m w'. tt) w

pk_transaction_destroy-NeverThrows : (handle : ℕ) → NeverThrows (pk_transaction_destroy handle)
unfolding pk_transaction_destroy
pk_transaction_destroy-NeverThrows zero w = tt
pk_transaction_destroy-NeverThrows (suc p) w =
    bind-NeverThrows (tx (suc p)) (λ _. delete_bridge (suc p)) (tx-NeverThrows (suc p)) (λ t w'. tt)
      w

-- If Dart_InitializeApiDL throws no sdbus::Error, no function that the library exports lets one out,
-- with any arguments, negative counts included, and in any world: each returns, or raises an
-- exception of another type, or is undefined behaviour.
pub packagekit_nc-IsContained :
    (bus : SystemBus) (initialize_api_dl : ℕ → M (Unit {0}))
    → ((api_data : ℕ) → NeverThrows (initialize_api_dl api_data))
    → IsContained initialize_api_dl (packagekit_nc bus)
unfolding pk_manager_create pk_manager_read_properties pk_transaction_create
    pk_transaction_set_hints pk_search_name pk_search_details pk_search_files pk_search_groups
    pk_get_packages pk_get_updates pk_resolve pk_what_provides pk_get_details pk_get_update_detail
    pk_get_files pk_get_repo_list pk_depends_on pk_required_by pk_get_distro_upgrades
    pk_get_old_transactions pk_install_packages pk_remove_packages pk_update_packages
    pk_refresh_cache pk_download_packages pk_install_files pk_repo_enable pk_accept_eula pk_cancel
packagekit_nc-IsContained bus initialize_api_dl quiet = (
  quiet,
  λ port. null-NeverThrows (new_manager bus port),
  pk_manager_destroy-NeverThrows,
  λ handle. pk_try-NeverThrows _,
  λ manager port.
      null-NeverThrows
        (mgr manager >>= λ m. (manager_methods bus manager m).create_transaction_bridge port),
  pk_transaction_destroy-NeverThrows,
  λ handle a b. pk_tx_try-NeverThrows handle _,
  λ handle a b c. pk_tx_try-NeverThrows handle _,
  λ handle a b c. pk_tx_try-NeverThrows handle _,
  λ handle a b c. pk_tx_try-NeverThrows handle _,
  λ handle a b c. pk_tx_try-NeverThrows handle _,
  λ handle a. pk_tx_try-NeverThrows handle _,
  λ handle a. pk_tx_try-NeverThrows handle _,
  λ handle a b c. pk_tx_try-NeverThrows handle _,
  λ handle a b c. pk_tx_try-NeverThrows handle _,
  λ handle a b. pk_tx_try-NeverThrows handle _,
  λ handle a b. pk_tx_try-NeverThrows handle _,
  λ handle a b. pk_tx_try-NeverThrows handle _,
  λ handle a. pk_tx_try-NeverThrows handle _,
  λ handle a b c d. pk_tx_try-NeverThrows handle _,
  λ handle a b c d. pk_tx_try-NeverThrows handle _,
  λ handle. pk_tx_try-NeverThrows handle _,
  λ handle a. pk_tx_try-NeverThrows handle _,
  λ handle a b c. pk_tx_try-NeverThrows handle _,
  λ handle a b c d e. pk_tx_try-NeverThrows handle _,
  λ handle a b c. pk_tx_try-NeverThrows handle _,
  λ handle a. pk_tx_try-NeverThrows handle _,
  λ handle a b c. pk_tx_try-NeverThrows handle _,
  λ handle a b c. pk_tx_try-NeverThrows handle _,
  λ handle a b. pk_tx_try-NeverThrows handle _,
  λ handle a. pk_tx_try-NeverThrows handle _,
  λ handle. pk_tx_try-NeverThrows handle _,
)
