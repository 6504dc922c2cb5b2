-- ===== src/PkTransaction/Payloads.antt =====
-- What the signal handlers of native/src/pk_transaction.cpp have to post, described without them.
use Prim.Native.String.{String}
use packagekit_dart.Base.{ℕ, true, false, Option, none, some, List, [], ◌∷◌, ◌++◌, map, le_bytes}
use packagekit_dart.Glaze.Encode.{fields_bytes}
use packagekit_dart.PkTypes.{
  StructType, pk_package, pk_progress, pk_details, pk_update_detail, pk_repo_detail, pk_files,
  pk_error_code, pk_message, pk_eula_required, pk_repo_sig_required, pk_require_restart,
  pk_manager_props, Struct, meta, PkDetails,
}
use packagekit_dart.Bus.{Variant, text, uint64, World}
use packagekit_dart.PkTransaction.Signals.{
  Signal, one_package, packages, progress, item_progress, status_changed, details, update_detail,
  repo_detail, repo_signature_required, eula_required, files, error_code, require_restart, message,
  finished, destroy, find_key,
}

-- The table at the top of pk_types.h.
abbrev pub discriminator : StructType → ℕ
discriminator pk_package = 0x01
discriminator pk_progress = 0x02
discriminator pk_details = 0x03
discriminator pk_update_detail = 0x04
discriminator pk_repo_detail = 0x05
discriminator pk_files = 0x06
discriminator pk_error_code = 0x07
discriminator pk_message = 0x08
discriminator pk_eula_required = 0x09
discriminator pk_repo_sig_required = 0x0a
discriminator pk_require_restart = 0x0b
discriminator pk_manager_props = 0x0c

-- A message on a transaction's port.
pub data Payload : Type 0 where
  struct : (t : StructType) → Struct t → Payload
  finish : ℕ → ℕ → Payload
  sentinel : Payload

abbrev pub payload_bytes : Payload → List ℕ
payload_bytes (struct t v) = discriminator t ∷ fields_bytes (meta t) v
payload_bytes (finish exit_code runtime_ms) = 0x20 ∷ (le_bytes 4 exit_code ++ le_bytes 4 runtime_ms)
payload_bytes sentinel = 0xff ∷ []

abbrev pub text_or_empty : Option Variant → Option (List ℕ)
text_or_empty none = some []
text_or_empty (some (text s)) = some s
text_or_empty (some _) = none

abbrev pub uint64_or_zero : Option Variant → Option ℕ
uint64_or_zero none = some 0
uint64_or_zero (some (uint64 n)) = some n
uint64_or_zero (some _) = none

abbrev pub details_from :
    Option (List ℕ)
    → Option (List ℕ)
    → Option (List ℕ)
    → Option (List ℕ)
    → Option (List ℕ)
    → Option (List ℕ)
    → Option ℕ
    → Option PkDetails
details_from (some a) (some b) (some c) (some d) (some e) (some f) (some g) = some (record {
  package_id = a;
  summary = b;
  description = c;
  url = d;
  license = e;
  group = f;
  size = g;
})
details_from _ _ _ _ _ _ _ = none

-- The members that a Details signal describes, if each one that is there has its type.
abbrev pub details_of : List (String × Variant) → Option PkDetails
details_of entries =
    details_from (text_or_empty (find_key "package-id" entries))
      (text_or_empty (find_key "summary" entries)) (text_or_empty (find_key "description" entries))
      (text_or_empty (find_key "url" entries)) (text_or_empty (find_key "license" entries))
      (text_or_empty (find_key "group" entries)) (uint64_or_zero (find_key "size" entries))

abbrev pub details_payloads : Option PkDetails → List Payload
details_payloads none = []
details_payloads (some d) = struct pk_details d ∷ []

abbrev pub package_payload : ℕ × List ℕ × List ℕ → Payload
package_payload (info, pkg_id, summary) =
    struct pk_package (record { info = info; package_id = pkg_id; summary = summary })

abbrev pub signal_payloads : Signal → List Payload
signal_payloads (one_package info pkg_id summary) = package_payload (info, pkg_id, summary) ∷ []
signal_payloads (packages ps) = map package_payload ps
signal_payloads (progress pkg_id status pct) =
    struct pk_progress
      (record { package_id = pkg_id; status = status; percentage = pct; is_item = false })
    ∷ []
signal_payloads (item_progress id status pct) =
    struct pk_progress
      (record { package_id = id; status = status; percentage = pct; is_item = true })
    ∷ []
signal_payloads (status_changed status) =
    struct pk_progress
      (record { package_id = []; status = status; percentage = 101; is_item = false })
    ∷ []
signal_payloads (details entries) = details_payloads (details_of entries)
signal_payloads (update_detail ud) = struct pk_update_detail ud ∷ []
signal_payloads (repo_detail repo_id desc enabled) =
    struct pk_repo_detail (record { repo_id = repo_id; description = desc; enabled = enabled }) ∷ []
signal_payloads (repo_signature_required rs) = struct pk_repo_sig_required rs ∷ []
signal_payloads (eula_required e) = struct pk_eula_required e ∷ []
signal_payloads (files pkg_id file_list) =
    struct pk_files (record { package_id = pkg_id; files = file_list }) ∷ []
signal_payloads (error_code code description) =
    struct pk_error_code (record { code = code; details = description }) ∷ []
signal_payloads (require_restart type pkg_id) =
    struct pk_require_restart (record { type = type; package_id = pkg_id }) ∷ []
signal_payloads (message type description) =
    struct pk_message (record { type = type; details = description }) ∷ []
signal_payloads (finished exit_code runtime_ms) = finish exit_code runtime_ms ∷ sentinel ∷ []
signal_payloads destroy = []

-- The payloads of signals, in their order.
abbrev pub all_payloads : List Signal → List Payload
all_payloads [] = []
all_payloads (s ∷ rest) = signal_payloads s ++ all_payloads rest

-- `w` with messages added to one port.
abbrev pub with_payloads : ℕ → List Payload → World → World
with_payloads port ps w = record w { posts = w.posts ++ map (λ p. (port, payload_bytes p)) ps }
