-- ===== src/PkTransaction.antt =====
-- native/src/pk_transaction.cpp: the discriminator bytes and the helpers that post to the Dart port.
pub mod Methods
pub mod Interface
pub mod Signals
pub mod Registration
pub mod Delivery
pub mod Payloads
pub mod Posts
pub mod EventLoop
pub mod Instantiations
use Prim.Native.String.{String}
use packagekit_dart.Base.{ℕ, List, [], ◌∷◌, ◌++◌, free}
use packagekit_dart.Glaze.{u32}
use packagekit_dart.Glaze.Interface.{glz}
use packagekit_dart.PkTypes.{StructType, Struct, meta, pk_error_code}
use packagekit_dart.Bus.{
  M, ◌>>◌, tear_down, unregister_proxy, post_cobject, PkTransactionBridge, returned, World,
}

abbrev pub k_package : ℕ
k_package = 0x01

abbrev pub k_progress : ℕ
k_progress = 0x02

abbrev pub k_details : ℕ
k_details = 0x03

abbrev pub k_update_detail : ℕ
k_update_detail = 0x04

abbrev pub k_repo_detail : ℕ
k_repo_detail = 0x05

abbrev pub k_files : ℕ
k_files = 0x06

abbrev pub k_error_code : ℕ
k_error_code = 0x07

abbrev pub k_message : ℕ
k_message = 0x08

abbrev pub k_eula_required : ℕ
k_eula_required = 0x09

abbrev pub k_repo_sig_req : ℕ
k_repo_sig_req = 0x0a

abbrev pub k_require_restart : ℕ
k_require_restart = 0x0b

abbrev pub k_finished : ℕ
k_finished = 0x20

abbrev pub k_sentinel : ℕ
k_sentinel = 0xff

-- The constructor's object: its proxy is made on a manager's connection, for an object path.
abbrev pub new_bridge : ℕ → List ℕ → ℕ → PkTransactionBridge
new_bridge connection path port = record { connection = connection; path = path; port = port }

-- The object's `post<T>`, at the struct type T.
unfoldable pub post : PkTransactionBridge → (t : StructType) → ℕ → Struct t → M (Unit {0})
post tx t discriminator value =
    let payload = glz.encode (meta t) value in
    let buf : List ℕ = discriminator ∷ [] in post_cobject tx.port (buf ++ payload)

unfoldable pub post_finished : PkTransactionBridge → ℕ → ℕ → M (Unit {0})
post_finished tx exit_code runtime_ms = do
  let buf = glz.encode_field (glz.encode_field (k_finished ∷ []) u32 exit_code) u32 runtime_ms
  post_cobject tx.port buf
  post_cobject tx.port (k_sentinel ∷ [])

unfoldable pub post_error : PkTransactionBridge → List ℕ → M (Unit {0})
unfolding post post_finished
post_error tx message = do
  post tx pk_error_code k_error_code (record { code = 4; details = message })
  post_finished tx 2 0

-- `delete` of a bridge: the destructor unregisters the proxy, and then the object is released.
abbrev pub delete_bridge : ℕ → M (Unit {0})
delete_bridge address = do
  tear_down (unregister_proxy address)
  λ w. (returned tt, record w { transactions = free address w.transactions })
