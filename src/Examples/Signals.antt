-- ===== src/Examples/Signals.antt =====
-- D-Bus signals on their way through the registrations, and whole lives of transactions.
use packagekit_dart.Base.{arith, All}
use packagekit_dart.PkTypes.{pk_error_code, Struct}
use packagekit_dart.Bus.{pure}
use packagekit_dart.PkTransaction.Payloads.{Payload}
use packagekit_dart.PkTransaction.Signals.{on_signal}
use packagekit_dart.Dart.Client.Protocol.{dbus_session, dbus_session_lem}
use packagekit_dart.Dart.Client.Sessions
use packagekit_dart.Dart.Client.Sessions.{w3}
use packagekit_dart.Examples.Sessions.{some_events, some_signals-Carries}
use packagekit_dart.PkTransaction.Payloads.{struct}
use packagekit_dart.PkTransaction.Instantiations.{IsInstantiated, on_signal-instantiations}
use packagekit_dart.Base.{◌≡◌, refl, Option, none, some, List, [], ◌∷◌, ◌++◌, map, codes, find_new}
use packagekit_dart.Bus.{returned, thrown, nothing, object_path, SystemBus, World}
use packagekit_dart.Bus.Signals.{
  ArgumentType, uint32_type, text_type, truth_type, texts_type, structs_type, map_type, Argument,
  Arguments, SignalMessage, Deserializer,
}
use packagekit_dart.PkTransaction.Signals.{Signal, finished}
use packagekit_dart.PkTransaction.Delivery.{message_of}
use packagekit_dart.PkTransaction.EventLoop.{on_dbus_signals, on_dbus_signals_lem}
use packagekit_dart.PkTransaction.Payloads.{all_payloads, with_payloads}
use packagekit_dart.PkBridge.Exports.{packagekit_nc}
use packagekit_dart.PkBridge.Containment.{IsContained, packagekit_nc-IsContained}
use packagekit_dart.PkBridge.Requests.{request_call}
use packagekit_dart.PkBridge.Calls.{refusal, with_call}
use packagekit_dart.Dart.Client.Queries.{run_query, native_request}
use packagekit_dart.Dart.Client.Starting.{started, bridge, w2}
use packagekit_dart.Dart.Client.Unhinted.{run_query-hints_refused}
use packagekit_dart.Dart.Client.Lifecycle.{ended, Reach}
use packagekit_dart.Dart.Client.Lifecycle.Orderly.{IsOrderly, Reach-IsOrderly}
use packagekit_dart.Dart.Client.Protocol.{run_query-Reach}
use packagekit_dart.Examples.{
  scripted, a_bridge, a_manager, a_world, a_client, some_signals, a_search, a_search-HasNoNul,
  accepting,
}

-- Reading arguments of the right types only.
read_argument : (t u : ArgumentType) → Argument u → Option (Argument t)
read_argument uint32_type uint32_type a = some a
read_argument text_type text_type a = some a
read_argument truth_type truth_type a = some a
read_argument texts_type texts_type a = some a
read_argument structs_type structs_type a = some a
read_argument map_type map_type a = some a
read_argument _ _ a = none

pair :
    (t : ArgumentType) (ts : List ArgumentType)
    → Option (Argument t)
    → Option (Arguments ts)
    → Option (Arguments (t ∷ ts))
pair t ts (some a) (some rest) = some (a, rest)
pair t ts _ _ = none

read_all : (ts us : List ArgumentType) → Arguments us → Option (Arguments ts)
unfolding read_argument pair
read_all [] us a = some tt
read_all (t ∷ ts) [] a = none
read_all (t ∷ ts) (u ∷ us) a = pair t ts (read_argument t u a.0) (read_all ts us a.1)

read_argument-same : (t : ArgumentType) (a : Argument t) → read_argument t t a ≡ some a
unfolding read_argument
read_argument-same uint32_type a = refl
read_argument-same _ a = refl

read_all-same : (ts : List ArgumentType) (a : Arguments ts) → read_all ts ts a ≡ some a
unfolding read_all
read_all-same [] a = refl
read_all-same (t ∷ ts) a = rw (read_argument-same t a.0, read_all-same ts a.1) refl

abbrev a_deserializer : Deserializer
a_deserializer ts m = read_all ts m.signature m.arguments

reads : (m : SignalMessage) → a_deserializer m.signature m ≡ some m.arguments
reads m = read_all-same m.signature m.arguments

abbrev a_session : List Signal
a_session = some_signals ++ (finished 1 900 ∷ [])

on_dbus_signals_lem_example :
    on_dbus_signals accepting a_deserializer 2 (map message_of a_session) a_world
    ≡ with_payloads 70 (all_payloads a_session) a_world
on_dbus_signals_lem_example =
    on_dbus_signals_lem accepting a_deserializer 2 a_bridge a_manager reads a_session a_world
      (find_new 2 a_bridge []) (find_new 1 a_manager [])

packagekit_nc-IsContained_example : IsContained (λ api_data. pure tt) (packagekit_nc accepting)
packagekit_nc-IsContained_example =
    packagekit_nc-IsContained accepting (λ api_data. pure tt) (λ api_data w. tt)

-- A daemon that creates the transaction and refuses its hints.
abbrev unhinting : SystemBus
unhinting = scripted (returned (object_path (codes "/3")) ∷ thrown (codes "no") ∷ [])

run_query-hints_refused_example : run_query unhinting a_client 71 a_search a_world ≡ (
  returned (started 3 71),
  with_call
      (request_call
        (bridge unhinting a_client a_manager 71 a_world (codes "/3"))
        (native_request a_search))
      (with_payloads 71
        (refusal (codes "no"))
        (w2 unhinting a_client a_manager 71 a_world (codes "/3"))),
)
run_query-hints_refused_example =
    run_query-hints_refused unhinting a_client a_manager 71 a_world (codes "/3") a_search
      (codes "no") nothing (find_new 1 a_manager []) a_search-HasNoNul refl refl refl

abbrev after_session : World
after_session =
    on_dbus_signals accepting a_deserializer 3 (map message_of a_session)
      (run_query accepting a_client 71 a_search a_world).1

a_life :
    Reach accepting a_deserializer 1 71 a_world
      (ended 3 (bridge accepting a_client a_manager 71 a_world (codes "/3")))
      after_session
a_life =
    run_query-Reach accepting a_deserializer a_client a_manager 71 a_world (codes "/3") a_search
      nothing nothing some_signals 1 900 (find_new 1 a_manager []) a_search-HasNoNul refl refl refl
      (tt, (tt, tt))

Reach-IsOrderly_example :
    IsOrderly 71 a_manager a_world
      (ended 3 (bridge accepting a_client a_manager 71 a_world (codes "/3")))
      after_session
Reach-IsOrderly_example =
    Reach-IsOrderly accepting a_deserializer 1 71 a_manager a_world reads (find_new 1 a_manager [])
      a_life

dbus_session_lem_example :
    (dbus_session accepting a_deserializer a_client 71 a_search a_session a_world ≡ (
      returned (
          Sessions.ended accepting a_client a_manager 71 a_world
            (codes "/3")
            a_search
            some_events
            1
            900),
      with_payloads 71
          (all_payloads a_session)
          (w3 accepting a_client a_manager 71 a_world (codes "/3") a_search),
    ))
    × Reach accepting a_deserializer 1 71 a_world
        (ended 3 (bridge accepting a_client a_manager 71 a_world (codes "/3")))
        (dbus_session accepting a_deserializer a_client 71 a_search a_session a_world).1
dbus_session_lem_example =
    dbus_session_lem accepting a_deserializer a_client a_manager 71 a_world (codes "/3") a_search
      nothing nothing some_signals some_events 1 900 reads (find_new 1 a_manager [])
      a_search-HasNoNul refl refl refl refl (tt, (tt, tt)) some_signals-Carries (omega arith)
      (omega arith)

abbrev an_error : Struct pk_error_code
an_error = record { code = 4; details = codes "no" }

on_signal-instantiations_example :
    ((ps : List Payload) × All IsInstantiated ps
      × ((on_signal accepting a_bridge (finished 1 900) a_world).1 ≡ with_payloads 70 ps a_world))
    × ((s : Signal) × (on_signal accepting a_bridge s a_world
          ≡ (returned tt, with_payloads 70 (struct pk_error_code an_error ∷ []) a_world)))
on_signal-instantiations_example =
    on_signal-instantiations accepting a_bridge a_world (finished 1 900) pk_error_code an_error
      (ground arith)
