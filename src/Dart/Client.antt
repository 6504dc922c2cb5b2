-- ===== src/Dart/Client.antt =====
-- lib/src/packagekit_client.dart: PkClient's connection, its daemon events and the life of a
-- transaction. A receive port is its number; the isolate is the environment that delivers messages.
pub mod Methods
pub mod Events
pub mod Ownership
pub mod Lifetime
pub mod Sessions
pub mod Queries
pub mod Starting
pub mod Strings
pub mod Unhinted
pub mod Waiting
pub mod Lifecycle
pub mod Protocol
pub mod Initialization
pub mod Cancelling
pub mod Simulation
pub mod Collector
pub mod Collecting
pub mod Following
pub mod Safety
use packagekit_dart.PkBridge.Exports.{packagekit_nc}
use packagekit_dart.Base.{
  ℕ, Bool, true, false, Option, none, some, List, [], ◌∷◌, ◌++◌, ◌==◌, if◌then◌else◌, codes,
}
use packagekit_dart.Bus.{M, ◌>>=◌, ◌>>◌, pure, SystemBus}
use packagekit_dart.Dart.Core.{Result, value, throws, Uint8List}
use packagekit_dart.Dart.Records.{PkManagerProps}
use packagekit_dart.Dart.Dispatcher.{
  Dispatcher, Completer, PkException, new_dispatcher, dispatch, close, run_microtasks, pending,
  completed, failed, service_unavailable,
}
use packagekit_dart.Dart.Package.{PkPackage}
use packagekit_dart.Dart.Plan.{PkInstallPlan, plan_from_packages}
use packagekit_dart.Dart.ManagerEvents.{
  ManagerEvent, manager_props, manager_updates_changed, manager_repo_list_changed,
  manager_network_state_changed, dispatch_manager_event,
}
use packagekit_dart.Dart.Bindings.{
  manager_create, manager_destroy, manager_read_properties, transaction_create, transaction_destroy,
  transaction_set_hints, transaction_cancel,
}

pub data PkDaemonEvent : Type 0 where
  props_event : PkManagerProps → PkDaemonEvent
  updates_changed_event : PkDaemonEvent
  repo_list_changed_event : PkDaemonEvent
  network_state_changed_event : ℕ → PkDaemonEvent

-- `daemon_events` is what was added to the broadcast stream.
pub record PkClient : Type 0 where
  pub manager_handle : ℕ
  pub events_port : ℕ
  pub interactive : Bool
  pub props : Option PkManagerProps
  pub daemon_events : List PkDaemonEvent
  pub is_closed : Bool

-- `_onManagerEvent`, after the dispatch.
unfoldable pub on_event : Option ManagerEvent → PkClient → PkClient
on_event none c = c
on_event (some (manager_props p)) c = record c {
  props = some p;
  daemon_events = c.daemon_events ++ (props_event p ∷ []);
}
on_event (some manager_updates_changed) c = record c {
  daemon_events = c.daemon_events ++ (updates_changed_event ∷ []);
}
on_event (some manager_repo_list_changed) c = record c {
  daemon_events = c.daemon_events ++ (repo_list_changed_event ∷ []);
}
on_event (some (manager_network_state_changed state)) c = record c {
  daemon_events = c.daemon_events ++ (network_state_changed_event state ∷ []);
}

-- An exception of the dispatch leaves the listener before it changes anything.
abbrev pub unless_thrown : PkClient → Result (Option ManagerEvent) → PkClient
unless_thrown c (value event) = on_event event c
unless_thrown c (throws e) = c

unfoldable pub on_manager_event : Uint8List → PkClient → PkClient
unfolding on_event
on_manager_event msg c = unless_thrown c (dispatch_manager_event msg)

-- What a started query keeps: the handle and the port that its closures capture, and its dispatcher,
-- which the streams and the result of the PkTransaction are.
pub record PkTransaction : Type 0 where
  pub handle : ℕ
  pub port : ℕ
  pub port_is_open : Bool
  pub dispatcher : Dispatcher

-- `closeAll`, the closure of `_startQuery`.
unfoldable pub close_all : PkTransaction → M PkTransaction
unfolding close
close_all t =
    let closed : PkTransaction = record t {
      dispatcher = close t.dispatcher;
      port_is_open = false;
    } in
    if t.handle == 0 then pure closed else transaction_destroy t.handle >> pure closed

abbrev pub settle : PkTransaction → PkTransaction
settle t = record t { dispatcher = run_microtasks t.dispatcher }

-- The port's listener, and the microtasks after it. A closed port delivers nothing.
unfoldable pub on_message : Uint8List → PkTransaction → M PkTransaction
unfolding close_all dispatch run_microtasks
on_message msg t =
    let d = dispatch msg t.dispatcher in
    let dispatched : PkTransaction = record t { dispatcher = d } in
    let closing : M PkTransaction = close_all dispatched in
    if t.port_is_open
    then ((if d.finished then closing else pure dispatched) >>= λ t'. pure (settle t'))
    else pure t

unfoldable pub on_messages : List Uint8List → PkTransaction → M PkTransaction
unfolding on_message
on_messages [] t = pure t
on_messages (msg ∷ msgs) t = on_message msg t >>= on_messages msgs

module _ (bus : SystemBus) where
  -- `port` is the number of the receive port that `_startQuery` opens.
  unfoldable pub start_query : PkClient → ℕ → (ℕ → M (Unit {0})) → M PkTransaction
  unfolding close_all
  start_query c port invoke = do
    tx_handle ← transaction_create (packagekit_nc bus) c.manager_handle port
    let t : PkTransaction = record {
      handle = tx_handle;
      port = port;
      port_is_open = true;
      dispatcher = new_dispatcher;
    }
    if tx_handle == 0
        then (close_all t >>= λ closed. pure (record closed {
          dispatcher = record closed.dispatcher { done = failed service_unavailable };
        }))
        else (do
          transaction_set_hints (packagekit_nc bus) tx_handle (codes "en_US.UTF-8") c.interactive
          invoke tx_handle
          pure t)

  -- The `cancel` closure of the transaction.
  unfoldable pub cancel : PkTransaction → M (Unit {0})
  cancel t =
      if t.dispatcher.finished then pure tt else transaction_cancel (packagekit_nc bus) t.handle

  -- `connect`, up to the wait for the properties' event, which a timeout ends. `none` is a
  -- PkServiceUnavailableException.
  unfoldable pub connect : ℕ → Bool → M (Option PkClient)
  connect port interactive = do
    handle ← manager_create (packagekit_nc bus) port
    if handle == 0 then pure none else (do
      manager_read_properties (packagekit_nc bus) handle
      pure (
          some (record {
            manager_handle = handle;
            events_port = port;
            interactive = interactive;
            props = none;
            daemon_events = [];
            is_closed = false;
          })))

unfoldable pub close_client : PkClient → M PkClient
close_client c = do manager_destroy c.manager_handle; pure (record c { is_closed = true })

-- `_collectPlan`, once the streams are closed: the await of `result` throws what failed it, and goes
-- on waiting while there is none.
pub data Collected : Type 0 where
  waiting : Collected
  failed_with : PkException → Collected
  planned : PkInstallPlan → Collected

abbrev pub when_done : Completer → List PkPackage → Collected
when_done pending pkgs = waiting
when_done (completed r) pkgs = planned (plan_from_packages pkgs)
when_done (failed e) pkgs = failed_with e

unfoldable pub collect_plan : PkTransaction → Collected
collect_plan t = when_done t.dispatcher.done t.dispatcher.packages.events
