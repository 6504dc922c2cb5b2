-- ===== src/PkTransaction/Methods.antt =====
-- native/src/pk_transaction.cpp: SetHints and the methods that start or cancel a transaction.
use Prim.Native.String.{String}
use packagekit_dart.Base.{ℕ, Bool, List, [], ◌∷◌, ◌++◌, if◌then◌else◌, codes}
use packagekit_dart.Bus.{
  M, ◌>>=◌, pure, call_method, SystemBus, PkTransactionBridge, Variant, text, uint32, uint64, truth,
  texts,
}

abbrev pub pk_tx_iface : String
pk_tx_iface = "org.freedesktop.PackageKit.Transaction"

unfoldable pub build_hints : List ℕ → Bool → List (List ℕ)
build_hints locale interactive =
    (codes "locale=" ++ locale)
    ∷ codes "background=false"
    ∷ codes "supports-plural-signals=true"
    ∷ (codes "interactive=" ++ (if interactive then codes "true" else codes "false"))
    ∷ []

module _ (bus : SystemBus) (tx : PkTransactionBridge) where
  -- proxy_->callMethod(method).onInterface(PK_TX_IFACE).withArguments(...), the reply dropped.
  unfoldable pub call_tx : String → List Variant → M (Unit {0})
  unfolding call_method
  call_tx method arguments = do
    _ ← call_method bus "org.freedesktop.PackageKit" tx.path pk_tx_iface method arguments
    pure tt

  unfoldable pub set_hints : List ℕ → Bool → M (Unit {0})
  unfolding call_tx
  set_hints locale interactive = call_tx "SetHints" (texts (build_hints locale interactive) ∷ [])

  unfoldable pub search_name : ℕ → List (List ℕ) → M (Unit {0})
  unfolding call_tx
  search_name filter values = call_tx "SearchNames" (uint64 filter ∷ texts values ∷ [])

  unfoldable pub search_details : ℕ → List (List ℕ) → M (Unit {0})
  unfolding call_tx
  search_details filter values = call_tx "SearchDetails" (uint64 filter ∷ texts values ∷ [])

  unfoldable pub search_files : ℕ → List (List ℕ) → M (Unit {0})
  unfolding call_tx
  search_files filter values = call_tx "SearchFiles" (uint64 filter ∷ texts values ∷ [])

  unfoldable pub search_groups : ℕ → List (List ℕ) → M (Unit {0})
  unfolding call_tx
  search_groups filter values = call_tx "SearchGroups" (uint64 filter ∷ texts values ∷ [])

  unfoldable pub get_packages : ℕ → M (Unit {0})
  unfolding call_tx
  get_packages filter = call_tx "GetPackages" (uint64 filter ∷ [])

  unfoldable pub get_updates : ℕ → M (Unit {0})
  unfolding call_tx
  get_updates filter = call_tx "GetUpdates" (uint64 filter ∷ [])

  unfoldable pub resolve : ℕ → List (List ℕ) → M (Unit {0})
  unfolding call_tx
  resolve filter package_ids = call_tx "Resolve" (uint64 filter ∷ texts package_ids ∷ [])

  unfoldable pub what_provides : ℕ → List (List ℕ) → M (Unit {0})
  unfolding call_tx
  what_provides filter values = call_tx "WhatProvides" (uint64 filter ∷ texts values ∷ [])

  unfoldable pub get_details : List (List ℕ) → M (Unit {0})
  unfolding call_tx
  get_details package_ids = call_tx "GetDetails" (texts package_ids ∷ [])

  unfoldable pub get_update_detail : List (List ℕ) → M (Unit {0})
  unfolding call_tx
  get_update_detail package_ids = call_tx "GetUpdateDetail" (texts package_ids ∷ [])

  unfoldable pub get_files : List (List ℕ) → M (Unit {0})
  unfolding call_tx
  get_files package_ids = call_tx "GetFiles" (texts package_ids ∷ [])

  unfoldable pub get_repo_list : ℕ → M (Unit {0})
  unfolding call_tx
  get_repo_list filter = call_tx "GetRepoList" (uint64 filter ∷ [])

  unfoldable pub depends_on : ℕ → List (List ℕ) → Bool → M (Unit {0})
  unfolding call_tx
  depends_on filter ids recursive =
      call_tx "DependsOn" (uint64 filter ∷ texts ids ∷ truth recursive ∷ [])

  unfoldable pub required_by : ℕ → List (List ℕ) → Bool → M (Unit {0})
  unfolding call_tx
  required_by filter ids recursive =
      call_tx "RequiredBy" (uint64 filter ∷ texts ids ∷ truth recursive ∷ [])

  unfoldable pub get_distro_upgrades : M (Unit {0})
  unfolding call_tx
  get_distro_upgrades = call_tx "GetDistroUpgrades" []

  unfoldable pub get_old_transactions : ℕ → M (Unit {0})
  unfolding call_tx
  get_old_transactions number = call_tx "GetOldTransactions" (uint32 number ∷ [])

  unfoldable pub install_packages : ℕ → List (List ℕ) → M (Unit {0})
  unfolding call_tx
  install_packages flags ids = call_tx "InstallPackages" (uint64 flags ∷ texts ids ∷ [])

  unfoldable pub remove_packages : ℕ → List (List ℕ) → Bool → Bool → M (Unit {0})
  unfolding call_tx
  remove_packages flags ids allow_deps autoremove =
      call_tx "RemovePackages" (uint64 flags ∷ texts ids ∷ truth allow_deps ∷ truth autoremove ∷ [])

  unfoldable pub update_packages : ℕ → List (List ℕ) → M (Unit {0})
  unfolding call_tx
  update_packages flags ids = call_tx "UpdatePackages" (uint64 flags ∷ texts ids ∷ [])

  unfoldable pub refresh_cache : Bool → M (Unit {0})
  unfolding call_tx
  refresh_cache force = call_tx "RefreshCache" (truth force ∷ [])

  unfoldable pub download_packages : Bool → List (List ℕ) → M (Unit {0})
  unfolding call_tx
  download_packages store_in_cache ids =
      call_tx "DownloadPackages" (truth store_in_cache ∷ texts ids ∷ [])

  unfoldable pub install_files : ℕ → List (List ℕ) → M (Unit {0})
  unfolding call_tx
  install_files flags paths = call_tx "InstallFiles" (uint64 flags ∷ texts paths ∷ [])

  unfoldable pub repo_enable : List ℕ → Bool → M (Unit {0})
  unfolding call_tx
  repo_enable repo_id enabled = call_tx "RepoEnable" (text repo_id ∷ truth enabled ∷ [])

  unfoldable pub accept_eula : List ℕ → M (Unit {0})
  unfolding call_tx
  accept_eula eula_id = call_tx "AcceptEula" (text eula_id ∷ [])

  unfoldable pub cancel : M (Unit {0})
  unfolding call_tx
  cancel = call_tx "Cancel" []
