-- ===== src/Dart/Client/Collector/Loop.antt =====
-- _collectPlan of lib/src/packagekit_client.dart, in its loop over the packages.
use packagekit_dart.Base.{
  ◌≡◌, refl, sym, ap, ◌∙◌, false, List, [], ◌∷◌, ◌++◌, map, append-nil, append_assoc,
}
use packagekit_dart.PkTypes.{StructType, pk_package}
use packagekit_dart.PkTransaction.Payloads.{Payload, struct}
use packagekit_dart.Dart.Codec.{DartStruct}
use packagekit_dart.Dart.Core.{Uint8List}
use packagekit_dart.Dart.Package.{PkPackage}
use packagekit_dart.Dart.Dispatcher.{Dispatcher, pending}
use packagekit_dart.Dart.Dispatcher.Session.{
  receive, receive_all, Event, event, Carries, nothing, also, record_event, IsOpen,
  record_event-IsOpen, message_of, receive_struct,
}
use packagekit_dart.Dart.Dispatcher.Ending.{record_events-done}
use packagekit_dart.Dart.Client.Collecting.{packages_of}
use packagekit_dart.Dart.Client.Collector.{
  Collector, looping, package_added, step, steps, on_package, added, occurrences, follow,
}

added-append : {A : Type 0} (xs ys : List A) → added xs (xs ++ ys) ≡ ys
added-append [] ys = refl
added-append (x ∷ xs) ys = added-append xs ys

pub added_same : {A : Type 0} (xs : List A) → added xs xs ≡ []
added_same [] = refl
added_same (x ∷ xs) = added_same xs

pub follow-append :
    (xs ys : List Uint8List) (d : Dispatcher) (c : Collector)
    → follow (xs ++ ys) d c ≡ follow ys (receive_all xs d) (follow xs d c)
follow-append [] ys d c = refl
follow-append (x ∷ xs) ys d c =
    follow-append xs ys (receive x d) (steps (occurrences d (receive x d)) c)

-- In the loop, with some packages and nothing reported.
abbrev pub in_loop : List PkPackage → Collector
in_loop pkgs = record { collection = looping pkgs; result = pending; uncaught = [] }

-- What one value tells of.
occurrences_lem :
    (t : StructType) (a : DartStruct t) (d : Dispatcher)
    → d.done ≡ pending
    → d.packages.is_closed ≡ false
    → occurrences d (record_event (event t a) d) ≡ map package_added (packages_of (event t a ∷ []))
occurrences_lem pk_package a d p o = rw (p, o, added-append d.packages.events (a ∷ [])) refl
occurrences_lem _ a d p o = rw (p, o, added_same d.packages.events) refl

packages_of-cons :
    (t : StructType) (a : DartStruct t) (es : List Event)
    → packages_of (event t a ∷ []) ++ packages_of es ≡ packages_of (event t a ∷ es)
packages_of-cons pk_package a es = refl
packages_of-cons _ a es = refl

steps-packages_of :
    (t : StructType) (a : DartStruct t) (pkgs : List PkPackage)
    → steps (map package_added (packages_of (event t a ∷ []))) (in_loop pkgs)
      ≡ in_loop (pkgs ++ packages_of (event t a ∷ []))
unfolding step on_package
steps-packages_of pk_package a pkgs = refl
steps-packages_of _ a pkgs = ap in_loop (sym (append-nil pkgs))

-- While the result is pending, the loop takes the packages and waits on.
pub follow-Carries :
    {ps : List Payload} {es : List Event} (d : Dispatcher) (pkgs : List PkPackage)
    → Carries ps es
    → IsOpen d
    → d.done ≡ pending
    → follow (map message_of ps) d (in_loop pkgs) ≡ in_loop (pkgs ++ packages_of es)
follow-Carries d pkgs nothing o p = ap in_loop (sym (append-nil pkgs))
follow-Carries {ps = struct _ _ ∷ ps} {es = _ ∷ es} d pkgs (also t v a n h e rest) o p =
    let ms = map message_of ps in
    let d' = record_event (event t a) d in
    let one = packages_of (event t a ∷ []) in
    ap (λ x. follow ms x (steps (occurrences d x) (in_loop pkgs))) (receive_struct t v a d n h e o)
    ∙ ap (λ os. follow ms d' (steps os (in_loop pkgs))) (occurrences_lem t a d p o.1)
    ∙ ap (follow ms d') (steps-packages_of t a pkgs)
    ∙ follow-Carries d' (pkgs ++ one) rest (record_event-IsOpen t a d o)
        (record_events-done (event t a ∷ []) d ∙ p)
    ∙ ap in_loop
        (append_assoc pkgs one (packages_of es) ∙ ap (λ x. pkgs ++ x) (packages_of-cons t a es))
