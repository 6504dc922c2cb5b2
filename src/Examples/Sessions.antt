-- ===== src/Examples/Sessions.antt =====
-- Whole transactions at concrete signals.
use packagekit_dart.Base.{◌≡◌, refl, true, List, [], ◌∷◌, ◌++◌, codes, arith, inl, find_new}
use packagekit_dart.PkTypes.{Struct, pk_package, pk_progress}
use packagekit_dart.Dart.Codec.{DartStruct}
use packagekit_dart.Bus.{returned, World}
use packagekit_dart.PkTransaction.Signals.{finished, on_signals}
use packagekit_dart.PkTransaction.Payloads.{all_payloads}
use packagekit_dart.Dart.Enums.PkInfo
use packagekit_dart.Dart.Enums.PkStatus
use packagekit_dart.Dart.Package.{parse}
use packagekit_dart.Dart.Utf8.{utf8_decode}
use packagekit_dart.Dart.Reader.Reads.{string_of}
use packagekit_dart.Dart.Codec.Meaning.{to_dart, to_dart_package, to_dart_progress}
use packagekit_dart.Dart.Dispatcher.{new_dispatcher, completed}
use packagekit_dart.Dart.Dispatcher.Session.{
  Event, event, Carries, receive_all, inbox, record_events,
}
use packagekit_dart.Dart.Dispatcher.Ending.{finished_with, transaction_delivery}
use packagekit_dart.Dart.Dispatcher.Closing.{receive_all-done}
use packagekit_dart.Dart.Core.{Uint8List, of_bytes}
use packagekit_dart.Dart.Enums.PkExit
use packagekit_dart.Dart.Dispatcher.{Dispatcher, PkTransactionResult, close}
use packagekit_dart.Dart.Client.{PkTransaction, on_messages}
use packagekit_dart.Dart.Client.Starting.{started}
use packagekit_dart.Dart.Client.Lifetime.{transaction_end}
use packagekit_dart.Base.{◌⊎◌}
use packagekit_dart.Dart.Dispatcher.{transaction_failed}
use packagekit_dart.Dart.Plan.Sorting.{by_category}
use packagekit_dart.Base.{ℕ}
use packagekit_dart.Dart.Client.{planned, failed_with}
use packagekit_dart.Dart.Client.Collector
use packagekit_dart.Dart.Client.Collector.{Collector, new_collector, follow}
use packagekit_dart.Dart.Client.Following.{simulated_session}
use packagekit_dart.Base.{some}
use packagekit_dart.Bus.{◌>>=◌, nothing}
use packagekit_dart.PkTransaction.Payloads.{with_payloads}
use packagekit_dart.PkBridge.Calls.{refusal}
use packagekit_dart.Dart.Client.Queries.{run_query}
use packagekit_dart.Dart.Client.Starting.{bridge}
use packagekit_dart.Dart.Client.Sessions.{
  session, ended, w3, drain, refusal_events, session_lem, refused_session,
}
use packagekit_dart.Examples.{accepting, refusing, a_client, a_search, a_search-HasNoNul}
use packagekit_dart.Dart.Client.Ownership.{IsLive, IsOwned, on_messages-IsOwned}
use packagekit_dart.Examples.{scripted, a_bridge, a_manager, a_world, some_signals}

abbrev native_package : Struct pk_package
native_package = record {
  info = 1;
  package_id = codes "ed;1.2;x86;repo";
  summary = codes "An editor";
}

abbrev dart_package : DartStruct pk_package
dart_package = record {
  info = PkInfo.installed;
  id = record {
    name = codes "ed";
    version = codes "1.2";
    arch = codes "x86";
    data_ = codes "repo";
  };
  summary = codes "An editor";
}

abbrev native_progress : Struct pk_progress
native_progress = record {
  package_id = codes "ed;1.2;x86;repo";
  status = 8;
  percentage = 40;
  is_item = true;
}

abbrev dart_progress : DartStruct pk_progress
dart_progress = record {
  package_id = codes "ed;1.2;x86;repo";
  status = PkStatus.download;
  percentage = 40;
  is_item = true;
}

abbrev pub some_events : List Event
some_events = event pk_package dart_package ∷ event pk_progress dart_progress ∷ []

pub some_signals-Carries : Carries (all_payloads some_signals) some_events
unfolding to_dart to_dart_package to_dart_progress string_of utf8_decode parse PkInfo.from_int
    PkStatus.from_int
some_signals-Carries =
    Carries.also pk_package native_package dart_package (λ e. absurd (cc e))
      (omega arith, (omega arith, (omega arith, tt))) refl
      (Carries.also pk_progress native_progress dart_progress (λ e. absurd (cc e))
        (omega arith, (omega arith, (omega arith, (tt, tt)))) refl Carries.nothing)

transaction_delivery_example :
    receive_all
      (inbox 70
        (on_signals (scripted []) a_bridge (some_signals ++ (finished 1 250 ∷ [])) a_world).posts)
      new_dispatcher
    ≡ finished_with 1 250 (record_events some_events new_dispatcher)
transaction_delivery_example =
    transaction_delivery (scripted []) a_bridge a_world some_signals some_events 1 250 refl
      some_signals-Carries (omega arith) (omega arith)

abbrev a_query : PkTransaction
a_query = started 2 70

transaction_end_example :
    on_messages
      (inbox 70
        (on_signals (scripted []) a_bridge (some_signals ++ (finished 1 250 ∷ [])) a_world).posts)
      a_query
      a_world
    ≡ (
      returned (record a_query {
        dispatcher = finished_with 1 250 (record_events some_events new_dispatcher);
      }),
      a_world,
    )
transaction_end_example =
    transaction_end (scripted []) a_bridge a_world a_world a_query some_signals some_events 1 250
      refl refl refl some_signals-Carries (omega arith) (omega arith)

abbrev a_live : IsLive 2 a_world
a_live = (a_bridge, a_manager, find_new 2 a_bridge [], find_new 1 a_manager [])

-- A session, an undecodable message and one more message after the end.
abbrev odd_messages : List Uint8List
odd_messages =
    of_bytes (0x01 ∷ 0x02 ∷ []) ∷ of_bytes [] ∷ of_bytes (0xff ∷ []) ∷ of_bytes (0x20 ∷ []) ∷ []

on_messages-IsOwned_example :
    (t' : PkTransaction) × (w' : World) × (on_messages odd_messages a_query a_world
      ≡ (returned t', w'))
    × IsOwned t' w'
on_messages-IsOwned_example = on_messages-IsOwned odd_messages a_query a_world (inl (refl, a_live))

abbrev a_finished_query : PkTransaction
a_finished_query = record a_query { dispatcher = close new_dispatcher }

abbrev a_result : PkTransactionResult
a_result = record { exit = PkExit.success; runtime_ms = 250 }

abbrev a_done_dispatcher : Dispatcher
a_done_dispatcher = record (close new_dispatcher) { done = completed a_result }

receive_all-done_example : (receive_all odd_messages a_done_dispatcher).done ≡ completed a_result
receive_all-done_example = receive_all-done odd_messages a_done_dispatcher (λ e. absurd (cc e))

session_lem_example :
    session accepting a_client 70 a_search
      (bridge accepting a_client a_manager 70 a_world (codes "/3"))
      (some_signals ++ (finished 1 250 ∷ []))
      a_world
    ≡ (
      returned
          (ended accepting a_client a_manager 70 a_world (codes "/3") a_search some_events 1 250),
      on_signals accepting
          (bridge accepting a_client a_manager 70 a_world (codes "/3"))
          (some_signals ++ (finished 1 250 ∷ []))
          (w3 accepting a_client a_manager 70 a_world (codes "/3") a_search),
    )
session_lem_example =
    session_lem accepting a_client a_manager 70 a_world (codes "/3") a_search nothing nothing
      some_signals some_events 1 250 (find_new 1 a_manager []) a_search-HasNoNul refl refl refl refl
      some_signals-Carries (omega arith) (omega arith)

no_decoded : utf8_decode (codes "no") ≡ some (codes "no")
unfolding utf8_decode
no_decoded = refl

refused_session_example : (run_query refusing a_client 70 a_search >>= drain) a_world ≡ (
  returned (
      ended refusing a_client a_manager 70 a_world
        (codes "/3")
        a_search
        (refusal_events (codes "no"))
        2
        0),
  with_payloads 70
      (refusal (codes "no"))
      (w3 refusing a_client a_manager 70 a_world (codes "/3") a_search),
)
refused_session_example =
    refused_session refusing a_client a_manager 70 a_world (codes "/3") a_search nothing
      (codes "no") (codes "no") (find_new 1 a_manager []) a_search-HasNoNul refl refl refl refl
      (omega arith) no_decoded

-- What `_collectPlan` is left with, after some signals and Finished.
abbrev collected : ℕ → Collector
collected e =
    follow
      (inbox 70
        (on_signals (scripted []) a_bridge (some_signals ++ (finished e 250 ∷ [])) a_world).posts)
      new_dispatcher new_collector

simulated_session_example :
    ((PkExit.from_int 4 ≡ PkExit.success)
      × ((collected 4).collection ≡ Collector.ended (planned (by_category (dart_package ∷ []))))
      × ((collected 4).uncaught ≡ []))
    ⊎ (((collected 4).collection
          ≡ Collector.ended (failed_with (transaction_failed (PkExit.from_int 4) 250)))
        × ((collected 4).uncaught ≡ transaction_failed (PkExit.from_int 4) 250 ∷ []))
simulated_session_example =
    simulated_session (scripted []) a_bridge a_world some_signals some_events 4 250 refl
      some_signals-Carries (omega arith) (omega arith)
