-- ===== src/PkTransaction/Delivery.antt =====
-- The D-Bus signals of a transaction as the daemon sends them, and their way through the constructor's
-- registrations in native/src/pk_transaction.cpp to the handlers.
use packagekit_dart.Base.{◌≡◌, some, [], ◌∷◌}
use packagekit_dart.Bus.{SystemBus, PkTransactionBridge}
use packagekit_dart.PkTransaction.Methods.{pk_tx_iface}
use packagekit_dart.PkTransaction.Signals.{
  Signal, one_package, packages, progress, item_progress, status_changed, details, update_detail,
  repo_detail, repo_signature_required, eula_required, files, error_code, require_restart, message,
  finished, destroy, on_signal,
}
use packagekit_dart.Bus.Signals.{
  uint32_type, text_type, truth_type, texts_type, structs_type, map_type, SignalMessage,
  signal_message, Deserializer, deliver,
}
use packagekit_dart.PkTransaction.Registration.{registrations}

-- The message of a signal, by the interface org.freedesktop.PackageKit.Transaction.
abbrev pub message_of : Signal → SignalMessage
message_of (one_package info pkg_id summary) =
    signal_message pk_tx_iface "Package" (uint32_type ∷ text_type ∷ text_type ∷ [])
      (info, (pkg_id, (summary, tt)))
message_of (packages ps) = signal_message pk_tx_iface "Packages" (structs_type ∷ []) (ps, tt)
message_of (progress pkg_id status pct) =
    signal_message pk_tx_iface "Progress" (text_type ∷ uint32_type ∷ uint32_type ∷ [])
      (pkg_id, (status, (pct, tt)))
message_of (item_progress id status pct) =
    signal_message pk_tx_iface "ItemProgress" (text_type ∷ uint32_type ∷ uint32_type ∷ [])
      (id, (status, (pct, tt)))
message_of (status_changed status) =
    signal_message pk_tx_iface "StatusChanged" (uint32_type ∷ []) (status, tt)
message_of (details entries) = signal_message pk_tx_iface "Details" (map_type ∷ []) (entries, tt)
message_of (update_detail ud) =
    signal_message pk_tx_iface "UpdateDetail"
      (text_type ∷ texts_type ∷ texts_type ∷ texts_type ∷ texts_type ∷ texts_type ∷ uint32_type
        ∷ text_type ∷ text_type ∷ uint32_type ∷ text_type ∷ text_type ∷ [])
      (
        ud.package_id,
        (
          ud.updates,
          (
            ud.obsoletes,
            (
              ud.vendor_urls,
              (
                ud.bugzilla_urls,
                (
                  ud.cve_urls,
                  (
                    ud.restart,
                    (ud.update_text, (ud.changelog, (ud.state, (ud.issued, (ud.updated, tt))))),
                  ),
                ),
              ),
            ),
          ),
        ),
      )
message_of (repo_detail repo_id desc enabled) =
    signal_message pk_tx_iface "RepoDetail" (text_type ∷ text_type ∷ truth_type ∷ [])
      (repo_id, (desc, (enabled, tt)))
message_of (repo_signature_required rs) =
    signal_message pk_tx_iface "RepoSignatureRequired"
      (text_type ∷ text_type ∷ text_type ∷ text_type ∷ text_type ∷ text_type ∷ text_type
        ∷ uint32_type ∷ [])
      (
        rs.package_id,
        (
          rs.repository_name,
          (
            rs.key_url,
            (rs.key_user_id, (rs.key_id, (rs.key_fingerprint, (rs.key_timestamp, (rs.type, tt))))),
          ),
        ),
      )
message_of (eula_required e) =
    signal_message pk_tx_iface "EulaRequired" (text_type ∷ text_type ∷ text_type ∷ text_type ∷ [])
      (e.eula_id, (e.package_id, (e.vendor_name, (e.license_agreement, tt))))
message_of (files pkg_id file_list) =
    signal_message pk_tx_iface "Files" (text_type ∷ texts_type ∷ []) (pkg_id, (file_list, tt))
message_of (error_code code description) =
    signal_message pk_tx_iface "ErrorCode" (uint32_type ∷ text_type ∷ []) (code, (description, tt))
message_of (require_restart type pkg_id) =
    signal_message pk_tx_iface "RequireRestart" (uint32_type ∷ text_type ∷ []) (type, (pkg_id, tt))
message_of (message type description) =
    signal_message pk_tx_iface "Message" (uint32_type ∷ text_type ∷ []) (type, (description, tt))
message_of (finished exit_code runtime) =
    signal_message pk_tx_iface "Finished" (uint32_type ∷ uint32_type ∷ [])
      (exit_code, (runtime, tt))
message_of destroy = signal_message pk_tx_iface "Destroy" [] tt

module _ (deserialize : Deserializer) where
  module _ (bus : SystemBus) (tx : PkTransactionBridge)
      (reads : (m : SignalMessage) → deserialize m.signature m ≡ some m.arguments) where
    pub deliver-message_of :
        (s : Signal)
        → deliver deserialize (registrations bus tx) (message_of s) ≡ some (on_signal bus tx s)
    unfolding deliver registrations on_signal
    deliver-message_of (one_package info pkg_id summary) =
        rw (reads (message_of (one_package info pkg_id summary)))
    deliver-message_of (packages ps) = rw (reads (message_of (packages ps)))
    deliver-message_of (progress pkg_id status pct) =
        rw (reads (message_of (progress pkg_id status pct)))
    deliver-message_of (item_progress id status pct) =
        rw (reads (message_of (item_progress id status pct)))
    deliver-message_of (status_changed status) = rw (reads (message_of (status_changed status)))
    deliver-message_of (details entries) = rw (reads (message_of (details entries)))
    deliver-message_of (update_detail ud) = rw (reads (message_of (update_detail ud)))
    deliver-message_of (repo_detail repo_id desc enabled) =
        rw (reads (message_of (repo_detail repo_id desc enabled)))
    deliver-message_of (repo_signature_required rs) =
        rw (reads (message_of (repo_signature_required rs)))
    deliver-message_of (eula_required e) = rw (reads (message_of (eula_required e)))
    deliver-message_of (files pkg_id file_list) = rw (reads (message_of (files pkg_id file_list)))
    deliver-message_of (error_code code description) =
        rw (reads (message_of (error_code code description)))
    deliver-message_of (require_restart type pkg_id) =
        rw (reads (message_of (require_restart type pkg_id)))
    deliver-message_of (message type description) =
        rw (reads (message_of (message type description)))
    deliver-message_of (finished exit_code runtime) =
        rw (reads (message_of (finished exit_code runtime)))
    deliver-message_of destroy = rw (reads (message_of destroy))
