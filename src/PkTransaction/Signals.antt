-- ===== src/PkTransaction/Signals.antt =====
-- native/src/pk_transaction.cpp: the signal handlers, and the constructor's table that binds each
-- D-Bus signal of the transaction interface to its handler.
use Prim.Native.String.{String}
use packagekit_dart.Base.{ℕ, Bool, true, false, Option, none, some, List, [], ◌∷◌, if◌then◌else◌}
use packagekit_dart.PkTypes.{
  PkDetails, PkUpdateDetail, PkEulaRequired, PkRepoSigRequired, pk_package, pk_progress, pk_details,
  pk_update_detail, pk_repo_detail, pk_files, pk_error_code, pk_message, pk_eula_required,
  pk_repo_sig_required, pk_require_restart,
}
use packagekit_dart.Bus.{
  M, Outcome, returned, ◌>>=◌, ◌>>◌, pure, lift, Variant, get_text, get_uint64, SystemBus, World,
  PkTransactionBridge,
}
use packagekit_dart.PkTransaction.{
  k_package, k_progress, k_details, k_update_detail, k_repo_detail, k_files, k_error_code,
  k_message, k_eula_required, k_repo_sig_req, k_require_restart, post, post_finished,
}
use text.Mathlib.Text.{◌==◌ as str_eq}

-- The signals that the constructor subscribes to, with their arguments. Those of UpdateDetail,
-- RepoSignatureRequired and EulaRequired are given as the record that they fill.
pub data Signal : Type 0 where
  one_package : ℕ → List ℕ → List ℕ → Signal
  packages : List (ℕ × List ℕ × List ℕ) → Signal
  progress item_progress : List ℕ → ℕ → ℕ → Signal
  status_changed : ℕ → Signal
  details : List (String × Variant) → Signal
  update_detail : PkUpdateDetail → Signal
  repo_detail : List ℕ → List ℕ → Bool → Signal
  repo_signature_required : PkRepoSigRequired → Signal
  eula_required : PkEulaRequired → Signal
  files : List ℕ → List (List ℕ) → Signal
  error_code : ℕ → List ℕ → Signal
  require_restart : ℕ → List ℕ → Signal
  message : ℕ → List ℕ → Signal
  finished : ℕ → ℕ → Signal
  destroy : Signal

-- std::map::find.
unfoldable pub find_key : String → List (String × Variant) → Option Variant
find_key key [] = none
find_key key ((k, v) ∷ entries) = if str_eq k key then some v else find_key key entries

module _ (tx : PkTransactionBridge) where
  unfoldable pub on_package : ℕ → List ℕ → List ℕ → M (Unit {0})
  on_package info pkg_id summary =
      post tx pk_package k_package (record { info = info; package_id = pkg_id; summary = summary })

  -- The loop of the plural signal's handler.
  unfoldable pub on_packages : List (ℕ × List ℕ × List ℕ) → M (Unit {0})
  on_packages [] = pure tt
  on_packages ((info, pkg_id, summary) ∷ rest) = on_package info pkg_id summary >> on_packages rest

  unfoldable pub on_progress : List ℕ → ℕ → ℕ → M (Unit {0})
  on_progress pkg_id status pct =
      post tx pk_progress k_progress
        (record { package_id = pkg_id; status = status; percentage = pct; is_item = false })

  unfoldable pub on_item_progress : List ℕ → ℕ → ℕ → M (Unit {0})
  on_item_progress id status pct =
      post tx pk_progress k_progress
        (record { package_id = id; status = status; percentage = pct; is_item = true })

  unfoldable pub on_status_changed : ℕ → M (Unit {0})
  on_status_changed status =
      post tx pk_progress k_progress
        (record { package_id = []; status = status; percentage = 101; is_item = false })

  unfoldable pub on_update_detail : PkUpdateDetail → M (Unit {0})
  on_update_detail ud = post tx pk_update_detail k_update_detail ud

  unfoldable pub on_repo_detail : List ℕ → List ℕ → Bool → M (Unit {0})
  on_repo_detail repo_id desc enabled =
      post tx pk_repo_detail k_repo_detail
        (record { repo_id = repo_id; description = desc; enabled = enabled })

  unfoldable pub on_repo_signature_required : PkRepoSigRequired → M (Unit {0})
  on_repo_signature_required rs = post tx pk_repo_sig_required k_repo_sig_req rs

  unfoldable pub on_eula_required : PkEulaRequired → M (Unit {0})
  on_eula_required e = post tx pk_eula_required k_eula_required e

  unfoldable pub on_files : List ℕ → List (List ℕ) → M (Unit {0})
  on_files pkg_id file_list =
      post tx pk_files k_files (record { package_id = pkg_id; files = file_list })

  unfoldable pub on_error_code : ℕ → List ℕ → M (Unit {0})
  on_error_code code description =
      post tx pk_error_code k_error_code (record { code = code; details = description })

  unfoldable pub on_require_restart : ℕ → List ℕ → M (Unit {0})
  on_require_restart type pkg_id =
      post tx pk_require_restart k_require_restart (record { type = type; package_id = pkg_id })

  unfoldable pub on_message : ℕ → List ℕ → M (Unit {0})
  on_message type description =
      post tx pk_message k_message (record { type = type; details = description })

  unfoldable pub on_finished : ℕ → ℕ → M (Unit {0})
  on_finished exit_code runtime_ms = post_finished tx exit_code runtime_ms

  unfoldable pub on_destroy : M (Unit {0})
  on_destroy = pure tt

module _ (bus : SystemBus) (entries : List (String × Variant)) where
  -- The handler's two lambdas. A value of another type makes Variant::get throw.
  unfoldable pub get_str : String → Outcome (List ℕ)
  unfolding find_key
  get_str key = elim (find_key key entries) [ none ↦ returned [] | some v ↦ get_text bus v ]

  unfoldable pub get_u64 : String → Outcome ℕ
  unfolding find_key
  get_u64 key = elim (find_key key entries) [ none ↦ returned 0 | some v ↦ get_uint64 bus v ]

  unfoldable pub extract_details : M PkDetails
  unfolding get_str get_u64
  extract_details = do
    package_id ← lift (get_str "package-id")
    summary ← lift (get_str "summary")
    description ← lift (get_str "description")
    url ← lift (get_str "url")
    license ← lift (get_str "license")
    group ← lift (get_str "group")
    size ← lift (get_u64 "size")
    pure (record {
      package_id = package_id;
      summary = summary;
      description = description;
      url = url;
      license = license;
      group = group;
      size = size;
    })

module _ (bus : SystemBus) (tx : PkTransactionBridge) where
  unfoldable pub on_details : List (String × Variant) → M (Unit {0})
  unfolding extract_details
  on_details entries = do d ← extract_details bus entries; post tx pk_details k_details d

  -- The handler that the constructor registers for each signal.
  unfoldable pub on_signal : Signal → M (Unit {0})
  on_signal (one_package info pkg_id summary) = on_package tx info pkg_id summary
  on_signal (packages ps) = on_packages tx ps
  on_signal (progress pkg_id status pct) = on_progress tx pkg_id status pct
  on_signal (item_progress id status pct) = on_item_progress tx id status pct
  on_signal (status_changed status) = on_status_changed tx status
  on_signal (details entries) = on_details entries
  on_signal (update_detail ud) = on_update_detail tx ud
  on_signal (repo_detail repo_id desc enabled) = on_repo_detail tx repo_id desc enabled
  on_signal (repo_signature_required rs) = on_repo_signature_required tx rs
  on_signal (eula_required e) = on_eula_required tx e
  on_signal (files pkg_id file_list) = on_files tx pkg_id file_list
  on_signal (error_code code description) = on_error_code tx code description
  on_signal (require_restart type pkg_id) = on_require_restart tx type pkg_id
  on_signal (message type description) = on_message tx type description
  on_signal (finished exit_code runtime) = on_finished tx exit_code runtime
  on_signal destroy = on_destroy tx

  -- Signals one after the other, as the event loop thread delivers them; a handler that throws ends
  -- its own signal only.
  unfoldable pub on_signals : List Signal → World → World
  on_signals [] w = w
  on_signals (s ∷ rest) w = on_signals rest (on_signal s w).1
