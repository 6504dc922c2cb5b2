-- ===== src/Dart/Client/Collecting.antt =====
-- The plan that a simulation of lib/src/packagekit_client.dart collects.
use packagekit_dart.Base.{
  ℕ, ◌≡◌, refl, sym, ap, ◌∙◌, ◌⊎◌, inl, inr, List, [], ◌∷◌, ◌++◌, append-nil, append_assoc,
  Bool-cases,
}
use packagekit_dart.PkTypes.{pk_package}
use packagekit_dart.Dart.Enums.PkExit
use packagekit_dart.Dart.Enums.PkExit.{PkExit}
use packagekit_dart.Dart.Package.{PkPackage}
use packagekit_dart.Dart.Plan.{plan_from_packages}
use packagekit_dart.Dart.Plan.Sorting.{by_category, plan_from_packages-by_category}
use packagekit_dart.Dart.Dispatcher.{
  Dispatcher, StreamController, close_stream, close, new_dispatcher, transaction_failed, completion,
}
use packagekit_dart.Dart.Dispatcher.Session.{Event, event, record_event, record_events}
use packagekit_dart.Dart.Dispatcher.Ending.{finished_with}
use packagekit_dart.Dart.Client.{PkTransaction, failed_with, planned, when_done, collect_plan}

-- The packages among the values of a transaction.
abbrev pub packages_of : List Event → List PkPackage
packages_of [] = []
packages_of (event pk_package p ∷ es) = p ∷ packages_of es
packages_of (event t a ∷ es) = packages_of es

record_events-packages :
    (es : List Event) (d : Dispatcher)
    → (record_events es d).packages.events ≡ d.packages.events ++ packages_of es
record_events-packages [] d = sym (append-nil d.packages.events)
record_events-packages (event pk_package a ∷ es) d =
    record_events-packages es (record_event (event pk_package a) d)
    ∙ append_assoc d.packages.events (a ∷ []) (packages_of es)
record_events-packages (event t a ∷ es) d = record_events-packages es (record_event (event t a) d)

close_stream-events : {A : Type 0} (s : StreamController A) → (close_stream s).events ≡ s.events
close_stream-events s = elim (Bool-cases s.is_closed) [
  | inl shut ↦ rw shut refl
  | inr is_open ↦ rw is_open refl
]

when_done-completion :
    (x : PkExit) (r : ℕ) (pkgs : List PkPackage)
    → ((x ≡ PkExit.success) × (when_done (completion x r) pkgs ≡ planned (plan_from_packages pkgs)))
      ⊎ (when_done (completion x r) pkgs ≡ failed_with (transaction_failed x r))
when_done-completion PkExit.success r pkgs = inl (refl, refl)
when_done-completion _ r pkgs = inr refl

-- The collection of a simulation whose transaction ended with some values, an exit code and a
-- runtime: if the exit is a success, the plan has the packages among the values, sorted by category,
-- and otherwise the collection fails with the transaction's exception.
pub collect_plan_lem :
    (t : PkTransaction) (es : List Event) (e r : ℕ)
    → ((PkExit.from_int e ≡ PkExit.success)
        × (collect_plan
              (record t { dispatcher = finished_with e r (record_events es new_dispatcher) })
            ≡ planned (by_category (packages_of es))))
      ⊎ (collect_plan
            (record t { dispatcher = finished_with e r (record_events es new_dispatcher) })
          ≡ failed_with (transaction_failed (PkExit.from_int e) r))
unfolding collect_plan close
collect_plan_lem t es e r =
    let d = record_events es new_dispatcher in
    let collected : (close_stream d.packages).events ≡ packages_of es =
      close_stream-events d.packages ∙ record_events-packages es new_dispatcher in
    elim (when_done-completion (PkExit.from_int e) r (close_stream d.packages).events) [
      | inl (ok, done) ↦ inl (
        ok,
        done
            ∙ ap (λ pkgs. planned (plan_from_packages pkgs)) collected
            ∙ ap planned (plan_from_packages-by_category (packages_of es)),
      )
      | inr bad ↦ inr bad
    ]
