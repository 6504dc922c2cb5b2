-- ===== src/Dart/Client/Collector.antt =====
-- _collectPlan of lib/src/packagekit_client.dart, as the state in which it waits. It is told of the
-- packages on the stream, of the stream's end, and of the result.
pub mod Loop
use packagekit_dart.Base.{Bool, true, false, List, [], ◌∷◌, ◌++◌, map, fold}
use packagekit_dart.Dart.Core.{Uint8List}
use packagekit_dart.Dart.Package.{PkPackage}
use packagekit_dart.Dart.Dispatcher.{
  Dispatcher, Completer, pending, failed, PkException, new_dispatcher,
}
use packagekit_dart.Dart.Dispatcher.Session.{receive}
use packagekit_dart.Dart.Client.{Collected, when_done, PkTransaction}

-- Where the function waits: in the `await for`, with the packages so far, or at `await tx.result`,
-- or nowhere, when its own future is completed.
pub data Collection : Type 0 where
  looping : List PkPackage → Collection
  awaiting : List PkPackage → Collection
  ended : Collected → Collection

-- The function, the result as it stands, and the errors that were reported as uncaught: a future that
-- fails while nothing listens to it reports its error to the zone.
pub record Collector : Type 0 where
  pub collection : Collection
  pub result : Completer
  pub uncaught : List PkException

pub data Occurrence : Type 0 where
  package_added : PkPackage → Occurrence
  packages_done : Occurrence
  result_set : Completer → Occurrence

abbrev pub new_collector : Collector
new_collector = record { collection = looping []; result = pending; uncaught = [] }

unfoldable pub on_package : PkPackage → Collection → Collection
on_package p (looping pkgs) = looping (pkgs ++ (p ∷ []))
on_package p c = c

-- `await tx.result`: at once, when there is a result.
abbrev pub await_result : Completer → List PkPackage → Collection
await_result pending pkgs = awaiting pkgs
await_result r pkgs = ended (when_done r pkgs)

unfoldable pub on_packages_done : Completer → Collection → Collection
on_packages_done r (looping pkgs) = await_result r pkgs
on_packages_done r c = c

unfoldable pub on_result : Completer → Collection → Collection
on_result r (awaiting pkgs) = await_result r pkgs
on_result r c = c

-- What a result reports as uncaught: nothing listens to it before `await tx.result`.
unfoldable pub reported : Completer → Collection → List PkException
reported (failed e) (looping pkgs) = e ∷ []
reported r c = []

unfoldable pub step : Occurrence → Collector → Collector
unfolding on_package on_packages_done on_result reported
step (package_added p) c = record c { collection = on_package p c.collection }
step packages_done c = record c { collection = on_packages_done c.result c.collection }
step (result_set r) c = record {
  collection = on_result r c.collection;
  result = r;
  uncaught = c.uncaught ++ reported r c.collection;
}

abbrev pub steps : List Occurrence → Collector → Collector
steps os c = fold (λ c o. step o c) c os

-- The events of a stream that are not among the earlier ones.
abbrev pub added {ℓ} : {A : Type ℓ} → List A → List A → List A
added [] ys = ys
added (x ∷ xs) [] = []
added (x ∷ xs) (y ∷ ys) = added xs ys

abbrev pub result_set_by : Completer → Completer → List Occurrence
result_set_by pending pending = []
result_set_by pending r = result_set r ∷ []
result_set_by old r = []

abbrev pub closed_by : Bool → Bool → List Occurrence
closed_by false true = packages_done ∷ []
closed_by old now = []

-- What the microtasks after a message tell: `dispatch` completes the result before it schedules the
-- close, so that a result is told of before the end of the stream.
abbrev pub occurrences : Dispatcher → Dispatcher → List Occurrence
occurrences d d' =
    map package_added (added d.packages.events d'.packages.events)
    ++ (result_set_by d.done d'.done ++ closed_by d.packages.is_closed d'.packages.is_closed)

-- The function while the messages come in.
abbrev pub follow : List Uint8List → Dispatcher → Collector → Collector
follow [] d c = c
follow (msg ∷ msgs) d c = let d' = receive msg d in follow msgs d' (steps (occurrences d d') c)

-- The function as it begins: what the transaction's streams and result already have is told of first.
abbrev pub collecting : PkTransaction → Collector
collecting t = steps (occurrences new_dispatcher t.dispatcher) new_collector
