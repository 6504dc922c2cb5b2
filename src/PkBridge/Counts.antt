-- ===== src/PkBridge/Counts.antt =====
-- native/src/pk_bridge.cpp: an array whose count is negative.
use packagekit_dart.Base.{ℕ, negsuc, ◌≡◌, refl, Bool, some, List, [], ◌∷◌, All, find}
use packagekit_dart.Bus.{
  M, ◌>>=◌, lift, SystemBus, World, PkTransactionBridge, PkManager, raised, length_error,
}
use packagekit_dart.PkTransaction.Interface.{transaction_methods}
use packagekit_dart.PkBridge.{mgr, tx, to_vec, pk_tx_try}
use packagekit_dart.PkBridge.Entries.{
  pk_search_name, pk_search_details, pk_search_files, pk_search_groups, pk_resolve,
  pk_what_provides, pk_get_details, pk_get_update_detail, pk_get_files, pk_depends_on,
  pk_required_by, pk_install_packages, pk_remove_packages, pk_update_packages, pk_download_packages,
  pk_install_files,
}

-- The functions that take an array, at the given arguments and a count of -(k + 1).
abbrev pub at_negative_count :
    SystemBus → ℕ → ℕ → Bool → Bool → List (List ℕ) → ℕ → List (M (Unit {0}))
at_negative_count bus handle bits flag flag' arr k =
    pk_search_name bus handle bits arr (negsuc k)
    ∷ pk_search_details bus handle bits arr (negsuc k)
    ∷ pk_search_files bus handle bits arr (negsuc k)
    ∷ pk_search_groups bus handle bits arr (negsuc k)
    ∷ pk_resolve bus handle bits arr (negsuc k)
    ∷ pk_what_provides bus handle bits arr (negsuc k)
    ∷ pk_get_details bus handle arr (negsuc k)
    ∷ pk_get_update_detail bus handle arr (negsuc k)
    ∷ pk_get_files bus handle arr (negsuc k)
    ∷ pk_depends_on bus handle bits arr (negsuc k) flag
    ∷ pk_required_by bus handle bits arr (negsuc k) flag
    ∷ pk_install_packages bus handle bits arr (negsuc k)
    ∷ pk_remove_packages bus handle bits arr (negsuc k) flag flag'
    ∷ pk_update_packages bus handle bits arr (negsuc k)
    ∷ pk_download_packages bus handle flag arr (negsuc k)
    ∷ pk_install_files bus handle bits arr (negsuc k)
    ∷ []

-- The exception leaves the function, which has made no call and posted nothing.
abbrev pub Raises : World → M (Unit {0}) → Type 0
Raises w f = f w ≡ (raised length_error, w)

module _ (handle : ℕ) (t : PkTransactionBridge) (m : PkManager) (w : World)
    (live : find handle w.transactions ≡ some t)
    (connected : find t.connection w.managers ≡ some m) where
  negative_body :
      (arr : List (List ℕ)) (k : ℕ) (f : PkTransactionBridge → List (List ℕ) → M (Unit {0}))
      → Raises w (pk_tx_try handle (tx handle >>= λ b. lift (to_vec arr (negsuc k)) >>= f b))
  unfolding pk_tx_try tx mgr to_vec
  negative_body arr k f = rw (live, connected) refl

  -- On the handle of a bridge that is there, and whose manager is, each function that takes an array
  -- raises a length_error when its count is negative. The exception leaves the function, with no call
  -- made and nothing posted.
  pub at_negative_count-Raises :
      (bus : SystemBus) (bits : ℕ) (flag flag' : Bool) (arr : List (List ℕ)) (k : ℕ)
      → All (Raises w) (at_negative_count bus handle bits flag flag' arr k)
  unfolding pk_search_name pk_search_details pk_search_files pk_search_groups pk_resolve
      pk_what_provides pk_get_details pk_get_update_detail pk_get_files pk_depends_on pk_required_by
      pk_install_packages pk_remove_packages pk_update_packages pk_download_packages
      pk_install_files
  at_negative_count-Raises bus bits flag flag' arr k =
      let raises = negative_body arr k in
      let methods = transaction_methods bus in
      (
        raises (λ b v. (methods b).search_name bits v),
        (
          raises (λ b v. (methods b).search_details bits v),
          (
            raises (λ b v. (methods b).search_files bits v),
            (
              raises (λ b v. (methods b).search_groups bits v),
              (
                raises (λ b v. (methods b).resolve bits v),
                (
                  raises (λ b v. (methods b).what_provides bits v),
                  (
                    raises (λ b v. (methods b).get_details v),
                    (
                      raises (λ b v. (methods b).get_update_detail v),
                      (
                        raises (λ b v. (methods b).get_files v),
                        (
                          raises (λ b v. (methods b).depends_on bits v flag),
                          (
                            raises (λ b v. (methods b).required_by bits v flag),
                            (
                              raises (λ b v. (methods b).install_packages bits v),
                              (
                                raises (λ b v. (methods b).remove_packages bits v flag flag'),
                                (
                                  raises (λ b v. (methods b).update_packages bits v),
                                  (
                                    raises (λ b v. (methods b).download_packages flag v),
                                    (raises (λ b v. (methods b).install_files bits v), tt),
                                  ),
                                ),
                              ),
                            ),
                          ),
                        ),
                      ),
                    ),
                  ),
                ),
              ),
            ),
          ),
        ),
      )
