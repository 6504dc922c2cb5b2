-- ===== src/PkManager.antt =====
-- native/src/pk_manager.cpp: the connection to the daemon, its properties, the transactions that it
-- creates and its signals. The event loop's thread is the environment that calls `on_manager_signal`.
pub mod Laws
pub mod Interface
pub mod EventLoop
use Prim.Native.String.{String}
use packagekit_dart.Base.{ℕ, suc, ◌+◌, Bool, List, [], ◌∷◌, ◌++◌, codes, free}
use packagekit_dart.Glaze.{u32}
use packagekit_dart.Glaze.Interface.{glz}
use packagekit_dart.PkTypes.{StructType, Struct, meta, pk_manager_props, PkManagerProps}
use packagekit_dart.PkTransaction.{new_bridge}
use packagekit_dart.Bus.{
  M, ◌>>=◌, ◌>>◌, pure, lift, post_cobject, call_method, SystemBus, PkTransactionBridge, PkManager,
  Variant, text, get_text, get_texts, get_uint32, get_uint64, get_truth, get_object_path, World,
  Outcome, returned, tear_down, leave_event_loop, join_event_thread,
}

abbrev pub pk_service : String
pk_service = "org.freedesktop.PackageKit"

abbrev pub pk_path : String
pk_path = "/org/freedesktop/PackageKit"

abbrev pub pk_iface : String
pk_iface = "org.freedesktop.PackageKit"

abbrev pub k_manager_props : ℕ
k_manager_props = 0x0c

abbrev pub k_updates_changed : ℕ
k_updates_changed = 0xd0

abbrev pub k_repo_list_changed : ℕ
k_repo_list_changed = 0xd1

abbrev pub k_network_state_changed : ℕ
k_network_state_changed = 0xd2

-- `new PkManager(events_port)`, at a fresh address that is not null.
unfoldable pub new_manager : SystemBus → ℕ → M ℕ
new_manager bus events_port = do
  _ ← lift bus.connects
  λ w. (
    returned (suc w.next_address),
    record w {
      managers = (suc w.next_address, record { events_port = events_port }) ∷ w.managers;
      next_address = suc w.next_address;
    },
  )

-- `delete` of a manager: the event loop is left and its thread joined, and then the object, and the
-- connection with it, is released.
unfoldable pub delete_manager : ℕ → M (Unit {0})
delete_manager address = do
  tear_down (leave_event_loop address)
  tear_down (join_event_thread address)
  λ w. (returned tt, record w { managers = free address w.managers })

-- `post<T>` and `postEvent`.
unfoldable pub post : PkManager → (t : StructType) → ℕ → Struct t → M (Unit {0})
post manager t discriminator value =
    let payload = glz.encode (meta t) value in
    let buf : List ℕ = discriminator ∷ [] in post_cobject manager.events_port (buf ++ payload)

unfoldable pub post_event : PkManager → ℕ → M (Unit {0})
post_event manager event_byte = post_cobject manager.events_port (event_byte ∷ [])

module _ (bus : SystemBus) where
  -- manager_proxy_->getProperty(name).onInterface(PK_IFACE), which calls the Properties interface.
  unfoldable pub get_property : String → M Variant
  unfolding call_method
  get_property name =
      call_method bus pk_service (codes pk_path) "org.freedesktop.DBus.Properties" "Get"
        (text (codes pk_iface) ∷ text (codes name) ∷ [])

  unfoldable pub get_property_as : {A : Type 0} → (Variant → Outcome A) → String → M A
  unfolding get_property
  get_property_as get name = do v ← get_property name; lift (get v)

  unfoldable pub read_properties : PkManager → M (Unit {0})
  unfolding get_property_as post
  read_properties manager = do
    backend_name ← get_property_as (get_text bus) "BackendName"
    backend_description ← get_property_as (get_text bus) "BackendDescription"
    backend_author ← get_property_as (get_text bus) "BackendAuthor"
    roles ← get_property_as (get_uint64 bus) "Roles"
    filters ← get_property_as (get_uint64 bus) "Filters"
    groups ← get_property_as (get_uint64 bus) "Groups"
    mime_types ← get_property_as (get_texts bus) "MimeTypes"
    distro_id ← get_property_as (get_text bus) "DistroId"
    network_state ← get_property_as (get_uint32 bus) "NetworkState"
    locked ← get_property_as (get_truth bus) "Locked"
    version_major ← get_property_as (get_uint32 bus) "VersionMajor"
    version_minor ← get_property_as (get_uint32 bus) "VersionMinor"
    version_micro ← get_property_as (get_uint32 bus) "VersionMicro"
    post manager pk_manager_props k_manager_props (record {
      backend_name = backend_name;
      backend_description = backend_description;
      backend_author = backend_author;
      roles = roles;
      filters = filters;
      groups = groups;
      mime_types = mime_types;
      distro_id = distro_id;
      network_state = network_state;
      locked = locked;
      version_major = version_major;
      version_minor = version_minor;
      version_micro = version_micro;
    })

  unfoldable pub create_transaction : M (List ℕ)
  unfolding call_method
  create_transaction = do
    path ← call_method bus pk_service (codes pk_path) pk_iface "CreateTransaction" []
    lift (get_object_path bus path)

  -- `address` is the manager's own. The new bridge stands at a fresh address that is not null.
  unfoldable pub create_transaction_bridge : ℕ → ℕ → M ℕ
  unfolding create_transaction
  create_transaction_bridge address tx_port = do
    path ← create_transaction
    λ w. (
      returned (suc w.next_address),
      record w {
        transactions = (suc w.next_address, new_bridge address path tx_port) ∷ w.transactions;
        next_address = suc w.next_address;
      },
    )

-- The signals that `registerManagerSignals` subscribes to, as the daemon sends them.
pub data ManagerSignal : Type 0 where
  updates_changed : ManagerSignal
  repo_list_changed : ManagerSignal
  network_state_changed : ℕ → ManagerSignal
  transaction_list_changed : List (List ℕ) → ManagerSignal

module _ (manager : PkManager) where
  unfoldable pub on_updates_changed : M (Unit {0})
  unfolding post_event
  on_updates_changed = post_event manager k_updates_changed

  unfoldable pub on_repo_list_changed : M (Unit {0})
  unfolding post_event
  on_repo_list_changed = post_event manager k_repo_list_changed

  unfoldable pub on_network_state_changed : ℕ → M (Unit {0})
  on_network_state_changed state =
      let buf = glz.encode_field (k_network_state_changed ∷ []) u32 state in
      post_cobject manager.events_port buf

  unfoldable pub on_transaction_list_changed : List (List ℕ) → M (Unit {0})
  on_transaction_list_changed txs = pure tt

  unfoldable pub on_manager_signal : ManagerSignal → M (Unit {0})
  unfolding on_updates_changed on_repo_list_changed on_network_state_changed
      on_transaction_list_changed
  on_manager_signal updates_changed = on_updates_changed
  on_manager_signal repo_list_changed = on_repo_list_changed
  on_manager_signal (network_state_changed state) = on_network_state_changed state
  on_manager_signal (transaction_list_changed txs) = on_transaction_list_changed txs
