-- ===== src/PkTransaction/Registration.antt =====
-- native/src/pk_transaction.cpp: the handlers of a transaction bridge as one interface, and the
-- constructor's registrations, which bind the D-Bus signals of the transaction interface to them.
use Prim.Native.String.{String}
use packagekit_dart.Base.{ℕ, Bool, List, [], ◌∷◌}
use packagekit_dart.PkTypes.{PkUpdateDetail, PkEulaRequired, PkRepoSigRequired}
use packagekit_dart.Bus.{M, Variant, SystemBus, PkTransactionBridge}
use packagekit_dart.Bus.Signals.{
  uint32_type, text_type, truth_type, texts_type, structs_type, map_type, Registration, upon_signal,
}
use packagekit_dart.PkTransaction.Methods.{pk_tx_iface}
use packagekit_dart.PkTransaction.Signals

-- The handlers of an object; `on_packages` is the loop of the handler for the plural signal.
pub record SignalHandlers : Type 0 where
  pub on_package : ℕ → List ℕ → List ℕ → M (Unit {0})
  pub on_packages : List (ℕ × List ℕ × List ℕ) → M (Unit {0})
  pub on_progress : List ℕ → ℕ → ℕ → M (Unit {0})
  pub on_item_progress : List ℕ → ℕ → ℕ → M (Unit {0})
  pub on_status_changed : ℕ → M (Unit {0})
  pub on_details : List (String × Variant) → M (Unit {0})
  pub on_update_detail : PkUpdateDetail → M (Unit {0})
  pub on_repo_detail : List ℕ → List ℕ → Bool → M (Unit {0})
  pub on_repo_signature_required : PkRepoSigRequired → M (Unit {0})
  pub on_eula_required : PkEulaRequired → M (Unit {0})
  pub on_files : List ℕ → List (List ℕ) → M (Unit {0})
  pub on_error_code : ℕ → List ℕ → M (Unit {0})
  pub on_require_restart : ℕ → List ℕ → M (Unit {0})
  pub on_message : ℕ → List ℕ → M (Unit {0})
  pub on_finished : ℕ → ℕ → M (Unit {0})
  pub on_destroy : M (Unit {0})

abbrev pub signal_handlers : SystemBus → PkTransactionBridge → SignalHandlers
signal_handlers bus tx = record {
  on_package = Signals.on_package tx;
  on_packages = Signals.on_packages tx;
  on_progress = Signals.on_progress tx;
  on_item_progress = Signals.on_item_progress tx;
  on_status_changed = Signals.on_status_changed tx;
  on_details = Signals.on_details bus tx;
  on_update_detail = Signals.on_update_detail tx;
  on_repo_detail = Signals.on_repo_detail tx;
  on_repo_signature_required = Signals.on_repo_signature_required tx;
  on_eula_required = Signals.on_eula_required tx;
  on_files = Signals.on_files tx;
  on_error_code = Signals.on_error_code tx;
  on_require_restart = Signals.on_require_restart tx;
  on_message = Signals.on_message tx;
  on_finished = Signals.on_finished tx;
  on_destroy = Signals.on_destroy tx;
}

module _ (bus : SystemBus) (tx : PkTransactionBridge) where
  unfoldable pub registrations : List Registration
  registrations =
      let h = signal_handlers bus tx in
      upon_signal pk_tx_iface "Package" (uint32_type ∷ text_type ∷ text_type ∷ [])
        (λ (info, (pkg_id, (summary, _))). h.on_package info pkg_id summary)
      ∷ upon_signal pk_tx_iface "Packages" (structs_type ∷ [])
          (λ (packages, _). h.on_packages packages)
      ∷ upon_signal pk_tx_iface "Progress" (text_type ∷ uint32_type ∷ uint32_type ∷ [])
          (λ (pkg_id, (status, (pct, _))). h.on_progress pkg_id status pct)
      ∷ upon_signal pk_tx_iface "ItemProgress" (text_type ∷ uint32_type ∷ uint32_type ∷ [])
          (λ (id, (status, (pct, _))). h.on_item_progress id status pct)
      ∷ upon_signal pk_tx_iface "StatusChanged" (uint32_type ∷ [])
          (λ (status, _). h.on_status_changed status)
      ∷ upon_signal pk_tx_iface "Details" (map_type ∷ []) (λ (entries, _). h.on_details entries)
      ∷ upon_signal pk_tx_iface "UpdateDetail"
          (text_type ∷ texts_type ∷ texts_type ∷ texts_type ∷ texts_type ∷ texts_type ∷ uint32_type
            ∷ text_type ∷ text_type ∷ uint32_type ∷ text_type ∷ text_type ∷ [])
          (λ (
            pkg_id,
            (
              updates,
              (
                obsoletes,
                (
                  vendor_urls,
                  (
                    bugzilla_urls,
                    (
                      cve_urls,
                      (restart, (update_text, (changelog, (state, (issued, (updated, _)))))),
                    ),
                  ),
                ),
              ),
            ),
          ).
            h.on_update_detail (record {
              package_id = pkg_id;
              updates = updates;
              obsoletes = obsoletes;
              vendor_urls = vendor_urls;
              bugzilla_urls = bugzilla_urls;
              cve_urls = cve_urls;
              restart = restart;
              update_text = update_text;
              changelog = changelog;
              state = state;
              issued = issued;
              updated = updated;
            }))
      ∷ upon_signal pk_tx_iface "RepoDetail" (text_type ∷ text_type ∷ truth_type ∷ [])
          (λ (repo_id, (desc, (enabled, _))). h.on_repo_detail repo_id desc enabled)
      ∷ upon_signal pk_tx_iface "RepoSignatureRequired"
          (text_type ∷ text_type ∷ text_type ∷ text_type ∷ text_type ∷ text_type ∷ text_type
            ∷ uint32_type ∷ [])
          (λ (
            pkg_id,
            (repo_name, (key_url, (key_userid, (key_id, (fingerprint, (timestamp, (type, _))))))),
          ).
            h.on_repo_signature_required (record {
              package_id = pkg_id;
              repository_name = repo_name;
              key_url = key_url;
              key_user_id = key_userid;
              key_id = key_id;
              key_fingerprint = fingerprint;
              key_timestamp = timestamp;
              type = type;
            }))
      ∷ upon_signal pk_tx_iface "EulaRequired" (text_type ∷ text_type ∷ text_type ∷ text_type ∷ [])
          (λ (eula_id, (pkg_id, (vendor, (license, _)))). h.on_eula_required (record {
            eula_id = eula_id;
            package_id = pkg_id;
            vendor_name = vendor;
            license_agreement = license;
          }))
      ∷ upon_signal pk_tx_iface "Files" (text_type ∷ texts_type ∷ [])
          (λ (pkg_id, (files, _)). h.on_files pkg_id files)
      ∷ upon_signal pk_tx_iface "ErrorCode" (uint32_type ∷ text_type ∷ [])
          (λ (code, (details, _)). h.on_error_code code details)
      ∷ upon_signal pk_tx_iface "RequireRestart" (uint32_type ∷ text_type ∷ [])
          (λ (type, (pkg_id, _)). h.on_require_restart type pkg_id)
      ∷ upon_signal pk_tx_iface "Message" (uint32_type ∷ text_type ∷ [])
          (λ (type, (details, _)). h.on_message type details)
      ∷ upon_signal pk_tx_iface "Finished" (uint32_type ∷ uint32_type ∷ [])
          (λ (exit_code, (runtime, _)). h.on_finished exit_code runtime)
      ∷ upon_signal pk_tx_iface "Destroy" [] (λ _. h.on_destroy)
      ∷ []
