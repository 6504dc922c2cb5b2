-- ===== src/Examples/Clients.antt =====
-- The client's methods with a scripted daemon.
use packagekit_dart.Base.{ap}
use packagekit_dart.PkTransaction.Payloads.{payload_bytes}
use packagekit_dart.Dart.ManagerEvents.Delivery.{dispatch_props}
use packagekit_dart.Dart.Client.Waiting.{
  is_snapshot, arrives, times_out, load_properties, until_properties, has_properties,
  load_properties-ends,
}
use packagekit_dart.Dart.Core.{Uint8List, of_bytes}
use packagekit_dart.Base.{
  ℕ, ◌≡◌, refl, false, true, some, List, [], ◌∷◌, codes, arith, find_new, find, pos, none, ◌⊎◌, map,
}
use packagekit_dart.PkTypes.{PkManagerProps}
use packagekit_dart.Bus.{
  ◌>>=◌, returned, thrown, undefined, nothing, World, SystemBus, text, texts, uint32, uint64, truth,
}
use packagekit_dart.PkTransaction.Payloads.{with_payloads}
use packagekit_dart.PkManager.{network_state_changed, on_manager_signal}
use packagekit_dart.PkManager.Laws.{property_answers, calls_of}
use packagekit_dart.PkTransaction.Payloads.{struct}
use packagekit_dart.PkTypes.{meta, pk_manager_props}
use packagekit_dart.Glaze.RoundTrip.{FitsFields}
use packagekit_dart.PkBridge.{pk_transaction_create}
use packagekit_dart.PkBridge.Handles.{
  create_call as creating, IsFresh, creation, pk_transaction_create_lem,
}
use packagekit_dart.PkBridge.Counts.{Raises, at_negative_count, at_negative_count-Raises}
use packagekit_dart.Bus.{raised, StdException, PkManager}
use packagekit_dart.Base.{All}
use packagekit_dart.PkBridge.Requests
use packagekit_dart.PkBridge.Requests.{Request, run_request, request_call, strings}
use packagekit_dart.PkBridge.Calls.{answered, with_call, run_request_lem}
use packagekit_dart.Dart.Core.{value}
use packagekit_dart.Dart.Records
use packagekit_dart.Dart.Reader.Reads.{string_of, strings_of}
use packagekit_dart.Dart.Utf8.{utf8_decode}
use packagekit_dart.Dart.Codec.Meaning.{to_dart, to_dart_manager_props}
use packagekit_dart.Dart.Dispatcher.Session.{inbox}
use packagekit_dart.Dart.ManagerEvents.{dispatch_manager_event}
use packagekit_dart.Dart.ManagerEvents.Delivery.{signal_events}
use packagekit_dart.Dart.Client.{connect, cancel, close_client, start_query, props_event}
use packagekit_dart.Dart.Client.{PkTransaction}
use packagekit_dart.Dart.Client.Ownership.{IsOwned}
use packagekit_dart.Dart.Client.Safety.{run_query-IsOwned}
use packagekit_dart.Examples.{scripted_answer-IsAnswer}
use packagekit_dart.Base.{length}
use packagekit_dart.Bus.{object_path}
use packagekit_dart.Dart.Client.Queries.{run_query, native_request}
use packagekit_dart.Dart.Client.Starting.{
  create_call, started, unavailable, bridge, w2, run_query-answered, start_query-refused,
}
use packagekit_dart.Dart.Client.Cancelling.{cancel_lem, cancel-close_client}
use packagekit_dart.Dart.Client.Events.{
  manager_signal_delivery, connect_lem, connected, with_manager, drain_events, connect-properties,
}
use packagekit_dart.Examples.{
  a_search, a_search-HasNoNul, accepting, refusing, scripted, a_bridge, a_manager, a_world,
  a_client,
}

run_query-answered_example : run_query accepting a_client 71 a_search a_world ≡ (
  returned (started 3 71),
  with_call
      (request_call
        (bridge accepting a_client a_manager 71 a_world (codes "/3"))
        (native_request a_search))
      (w2 accepting a_client a_manager 71 a_world (codes "/3")),
)
run_query-answered_example =
    run_query-answered accepting a_client a_manager 71 a_world (codes "/3") a_search nothing nothing
      (find_new 1 a_manager []) a_search-HasNoNul refl refl refl

abbrev absent : SystemBus
absent = scripted (thrown (codes "gone") ∷ [])

start_query-refused_example :
    start_query absent a_client 71 (λ h. run_request absent h Requests.get_distro_upgrades) a_world
    ≡ (returned (unavailable 71), with_call create_call a_world)
start_query-refused_example =
    start_query-refused absent a_client a_manager 71
      (λ h. run_request absent h Requests.get_distro_upgrades) a_world (codes "gone")
      (find_new 1 a_manager []) refl

abbrev an_install : Request
an_install = Requests.install_packages 2 ((0x61 ∷ []) ∷ [])

run_request_lem_example :
    run_request absent 2 an_install a_world
    ≡ answered a_bridge
        (thrown (codes "gone"))
        (with_call (request_call a_bridge an_install) a_world)
run_request_lem_example =
    run_request_lem absent 2 a_bridge a_manager a_world an_install (find_new 2 a_bridge [])
      (find_new 1 a_manager []) ((λ e. absurd (omega (arith, e)), tt), tt)

cancel_lem_example :
    cancel absent (started 2 70) a_world
    ≡ answered a_bridge
        (thrown (codes "gone"))
        (with_call (request_call a_bridge Requests.cancel) a_world)
cancel_lem_example =
    cancel_lem absent (started 2 70) a_bridge a_manager a_world (find_new 2 a_bridge [])
      (find_new 1 a_manager [])

cancel-close_client_example :
    ((close_client a_client >>= λ _. cancel accepting (started 2 70)) a_world).0 ≡ undefined
cancel-close_client_example =
    cancel-close_client accepting a_client (started 2 70) a_bridge a_manager a_world 0 refl
      (find_new 1 a_manager []) (find_new 2 a_bridge []) refl refl

manager_signal_delivery_example :
    map dispatch_manager_event
      (inbox 50 (on_manager_signal a_manager (network_state_changed 300) a_world).1.posts)
    ≡ signal_events (network_state_changed 300)
manager_signal_delivery_example =
    manager_signal_delivery a_manager (network_state_changed 300) a_world refl (omega arith)

abbrev native_props : PkManagerProps
native_props = record {
  backend_name = codes "dnf";
  backend_description = codes "d";
  backend_author = codes "a";
  roles = 7;
  filters = 4;
  groups = 3;
  mime_types = codes "x-rpm" ∷ [];
  distro_id = codes "f";
  network_state = 2;
  locked = false;
  version_major = 1;
  version_minor = 2;
  version_micro = 8;
}

abbrev props_daemon : SystemBus
props_daemon = scripted (
    returned (text (codes "dnf"))
    ∷ returned (text (codes "d"))
    ∷ returned (text (codes "a"))
    ∷ returned (uint64 7)
    ∷ returned (uint64 4)
    ∷ returned (uint64 3)
    ∷ returned (texts (codes "x-rpm" ∷ []))
    ∷ returned (text (codes "f"))
    ∷ returned (uint32 2)
    ∷ returned (truth false)
    ∷ returned (uint32 1)
    ∷ returned (uint32 2)
    ∷ returned (uint32 8)
    ∷ [])

abbrev dart_props : Records.PkManagerProps
dart_props = record {
  backend_name = codes "dnf";
  backend_description = codes "d";
  backend_author = codes "a";
  roles = pos 7;
  filters = pos 4;
  groups = pos 3;
  mime_types = codes "x-rpm" ∷ [];
  distro_id = codes "f";
  network_state = 2;
  locked = false;
  version_major = 1;
  version_minor = 2;
  version_micro = 8;
}

native_props-FitsFields : FitsFields (meta pk_manager_props) native_props
native_props-FitsFields = (
  omega arith,
  (
    omega arith,
    (
      omega arith,
      (
        omega arith,
        (
          omega arith,
          (
            omega arith,
            (
              (omega arith, (omega arith, tt)),
              (omega arith, (omega arith, (tt, (omega arith, (omega arith, (omega arith, tt)))))),
            ),
          ),
        ),
      ),
    ),
  ),
)

native_props-to_dart : to_dart pk_manager_props native_props ≡ value dart_props
unfolding to_dart to_dart_manager_props string_of strings_of utf8_decode
native_props-to_dart = refl

connect_lem_example :
    ((props_daemon.connects ≡ returned tt)
      × (connect props_daemon 50 true a_world ≡ (
        returned (some (connected 3 50 true)),
        with_payloads 50
            (struct pk_manager_props native_props ∷ [])
            (record (with_manager 50 a_world) { calls = calls_of (property_answers native_props) }),
      )))
    ⊎ ((e : List ℕ) × (props_daemon.connects ≡ thrown e)
        × (connect props_daemon 50 true a_world ≡ (returned none, a_world)))
    ⊎ ((x : StdException) × (props_daemon.connects ≡ raised x)
        × (connect props_daemon 50 true a_world ≡ (raised x, a_world)))
    ⊎ ((props_daemon.connects ≡ undefined) × ((connect props_daemon 50 true a_world).0 ≡ undefined))
connect_lem_example = connect_lem props_daemon 50 true native_props a_world (
  refl,
  (
    refl,
    (refl, (refl, (refl, (refl, (refl, (refl, (refl, (refl, (refl, (refl, (refl, tt))))))))))),
  ),
)

pk_transaction_create_lem_example :
    (((find 1 a_world.managers ≡ none)
        × (pk_transaction_create accepting 1 71 a_world ≡ (undefined, a_world)))
      ⊎ ((m : PkManager) × (find 1 a_world.managers ≡ some m)
          × (pk_transaction_create accepting 1 71 a_world
              ≡ creation 1 71 a_world (accepting.answer a_world.calls creating))))
    × IsFresh (pk_transaction_create accepting 1 71 a_world).1
    × (find 3 a_world.transactions ≡ none)
pk_transaction_create_lem_example =
    pk_transaction_create_lem accepting 1 71 a_world ((omega arith, tt), (omega arith, tt))

at_negative_count-Raises_example :
    All (Raises a_world) (at_negative_count accepting 2 0 false true [] 0)
at_negative_count-Raises_example =
    at_negative_count-Raises 2 a_bridge a_manager a_world (find_new 2 a_bridge [])
      (find_new 1 a_manager []) accepting 0 false true [] 0

run_query-IsOwned_example :
    (t : PkTransaction) × (w' : World) × (run_query refusing a_client 71 a_search a_world
      ≡ (returned t, w'))
    × IsOwned t w'
    × (find 1 w'.managers ≡ some a_manager)
run_query-IsOwned_example =
    run_query-IsOwned refusing
      (λ calls c.
        scripted_answer-IsAnswer (length calls)
          (returned (object_path (codes "/3")) ∷ returned nothing ∷ thrown (codes "no") ∷ [])
          (tt, (tt, (tt, tt))))
      a_client a_manager 71 a_world a_search (find_new 1 a_manager []) a_search-HasNoNul

connect-properties_example : (connect props_daemon 50 true >>= drain_events 50) a_world ≡ (
  returned (
      some (record (connected 3 50 true) {
        props = some dart_props;
        daemon_events = props_event dart_props ∷ [];
      })),
  with_payloads 50
      (struct pk_manager_props native_props ∷ [])
      (record (with_manager 50 a_world) { calls = calls_of (property_answers native_props) }),
)
connect-properties_example =
    connect-properties props_daemon 50 true native_props dart_props a_world refl
      (
        refl,
        (
          refl,
          (
            refl,
            (refl, (refl, (refl, (refl, (refl, (refl, (refl, (refl, (refl, (refl, tt)))))))))),
          ),
        ),
      )
      native_props-FitsFields native_props-to_dart refl

-- One message for updates, before the timer fires.
abbrev props_message : Uint8List
props_message = of_bytes (payload_bytes (struct pk_manager_props native_props))

props_message-properties : has_properties props_message ≡ true
unfolding to_dart to_dart_manager_props string_of utf8_decode strings_of
props_message-properties = ap is_snapshot (dispatch_props native_props native_props-FitsFields)

load_properties-ends_example :
    (load_properties (arrives (of_bytes (0xd0 ∷ [])) ∷ times_out ∷ []) a_client
      ≡ some (until_properties (of_bytes (0xd0 ∷ []) ∷ []) a_client))
    × (load_properties (arrives (of_bytes (0xd0 ∷ [])) ∷ arrives props_message ∷ []) a_client
        ≡ some (until_properties (of_bytes (0xd0 ∷ []) ∷ props_message ∷ []) a_client))
load_properties-ends_example =
    load_properties-ends (of_bytes (0xd0 ∷ []) ∷ []) props_message [] a_client
      props_message-properties
