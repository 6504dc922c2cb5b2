-- ===== src/Dart/Client/Following.antt =====
-- _collectPlan of lib/src/packagekit_client.dart, while the messages of its transaction come in.
use packagekit_dart.Base.{
  ℕ, ◌≡◌, refl, sym, ap, ◌∙◌, ◌⊎◌, inl, inr, false, List, [], ◌∷◌, ◌++◌, map,
}
use packagekit_dart.Glaze.RoundTrip.{IsU32}
use packagekit_dart.Bus.{SystemBus, World, PkTransactionBridge}
use packagekit_dart.PkTransaction.Signals.{Signal, finished, on_signals}
use packagekit_dart.PkTransaction.Payloads.{finish, sentinel, all_payloads}
use packagekit_dart.PkTransaction.Posts.{on_signals_lem}
use packagekit_dart.Dart.Enums.PkExit
use packagekit_dart.Dart.Enums.PkExit.{PkExit}
use packagekit_dart.Dart.Package.{PkPackage}
use packagekit_dart.Dart.Plan.Sorting.{by_category, plan_from_packages-by_category}
use packagekit_dart.Dart.Dispatcher.{
  Dispatcher, Completer, pending, new_dispatcher, transaction_failed, completion, failed,
  service_unavailable, close, on_finished, run_microtasks,
}
use packagekit_dart.Dart.Dispatcher.Session.{
  receive, Event, Carries, record_events, message_of, receive_all-Carries, inbox,
}
use packagekit_dart.Dart.Dispatcher.Ending.{
  record_events-IsOpen, record_events-done, posted_messages, new-IsOpen,
}
use packagekit_dart.Dart.Dispatcher.Delivery.{dispatch-payload_bytes}
use packagekit_dart.Dart.Plan.{plan_from_packages}
use packagekit_dart.Dart.Client.Starting.{unavailable}
use packagekit_dart.Dart.Client.{planned, failed_with}
use packagekit_dart.Dart.Client.Collecting.{packages_of}
use packagekit_dart.Dart.Client.Collector.{
  Collector, ended, new_collector, packages_done, result_set, step, steps, on_packages_done,
  on_result, reported, occurrences, follow, collecting,
}
use packagekit_dart.Dart.Client.Collector.Loop.{added_same, follow-append, in_loop, follow-Carries}

-- `d` with a result, and nothing scheduled.
abbrev result_in : Completer → Dispatcher → Dispatcher
result_in k d = record d { done = k; scheduled_closes = 0 }

abbrev waiting : Dispatcher → Dispatcher
waiting d = result_in pending d

receive-finish :
    (e r : ℕ) (d : Dispatcher)
    → IsU32 e
    → IsU32 r
    → receive (message_of (finish e r)) (waiting d) ≡ result_in (completion (PkExit.from_int e) r) d
unfolding receive run_microtasks on_finished
receive-finish e r d he hr =
    ap run_microtasks (dispatch-payload_bytes (waiting d) (finish e r) (he, hr))

receive-sentinel :
    (k : Completer) (d : Dispatcher)
    → receive (message_of sentinel) (result_in k d) ≡ result_in k (close d)
unfolding receive run_microtasks close
receive-sentinel k d = ap run_microtasks (dispatch-payload_bytes (result_in k d) sentinel tt)

-- The result is told of first, and then the end of the stream.
told_result :
    (k : PkExit) (r : ℕ) (d : Dispatcher)
    → d.packages.is_closed ≡ false
    → occurrences (waiting d) (result_in (completion k r) d) ≡ result_set (completion k r) ∷ []
told_result PkExit.success r d o = rw (o, added_same d.packages.events) refl
told_result _ r d o = rw (o, added_same d.packages.events) refl

told_end :
    (k : PkExit) (r : ℕ) (d : Dispatcher)
    → d.packages.is_closed ≡ false
    → occurrences (result_in (completion k r) d) (result_in (completion k r) (close d))
      ≡ packages_done ∷ []
unfolding close
told_end PkExit.success r d o = rw (o, added_same d.packages.events) refl
told_end _ r d o = rw (o, added_same d.packages.events) refl

-- The loop with its last two occurrences.
abbrev at_end : Completer → List PkPackage → Collector
at_end k pkgs = steps (result_set k ∷ packages_done ∷ []) (in_loop pkgs)

at_end_lem :
    (x : PkExit) (r : ℕ) (pkgs : List PkPackage)
    → ((x ≡ PkExit.success)
        × ((at_end (completion x r) pkgs).collection ≡ ended (planned (plan_from_packages pkgs)))
        × ((at_end (completion x r) pkgs).uncaught ≡ []))
      ⊎ (((at_end (completion x r) pkgs).collection ≡ ended (failed_with (transaction_failed x r)))
          × ((at_end (completion x r) pkgs).uncaught ≡ transaction_failed x r ∷ []))
unfolding step on_packages_done on_result reported
at_end_lem PkExit.success r pkgs = inl (refl, refl, refl)
at_end_lem _ r pkgs = inr (refl, refl)

follow-finish :
    (e r : ℕ) (d : Dispatcher) (pkgs : List PkPackage)
    → IsU32 e
    → IsU32 r
    → d.packages.is_closed ≡ false
    → follow (map message_of (finish e r ∷ sentinel ∷ [])) (waiting d) (in_loop pkgs)
      ≡ at_end (completion (PkExit.from_int e) r) pkgs
follow-finish e r d pkgs he hr o =
    let x = PkExit.from_int e in
    let k = completion x r in
    ap (λ y. follow (message_of sentinel ∷ []) y (steps (occurrences (waiting d) y) (in_loop pkgs)))
      (receive-finish e r d he hr)
    ∙ ap (λ os. follow (message_of sentinel ∷ []) (result_in k d) (steps os (in_loop pkgs)))
        (told_result x r d o)
    ∙ ap (λ y. steps (occurrences (result_in k d) y) (steps (result_set k ∷ []) (in_loop pkgs)))
        (receive-sentinel k d)
    ∙ ap (λ os. steps os (steps (result_set k ∷ []) (in_loop pkgs))) (told_end x r d o)

-- If there was no native object, the collection fails with the exception that the service is
-- unavailable, which was reported as uncaught besides.
pub collecting-unavailable :
    (port : ℕ)
    → collecting (unavailable port) ≡ record {
      collection = ended (failed_with service_unavailable);
      result = failed service_unavailable;
      uncaught = service_unavailable ∷ [];
    }
unfolding step on_packages_done on_result reported close
collecting-unavailable port = refl

-- Collecting a plan, while the messages come in. If the signals before Finished carry structs that
-- fit their wire types and convert to Dart values, the numbers of Finished have 32 bits, and no
-- message was posted to the port before: `_collectPlan` ends. If the exit is a success, it has the
-- packages among the values, sorted by category, and nothing is reported as uncaught. Otherwise it
-- fails with the transaction's exception, and that exception was reported once as uncaught besides.
pub simulated_session :
    (bus : SystemBus) (tx : PkTransactionBridge) (w : World) (ss : List Signal) (es : List Event)
    (e r : ℕ)
    → inbox tx.port w.posts ≡ []
    → Carries (all_payloads ss) es
    → IsU32 e
    → IsU32 r
    → let posted = inbox tx.port (on_signals bus tx (ss ++ (finished e r ∷ [])) w).posts in
      let last = follow posted new_dispatcher new_collector in
      ((PkExit.from_int e ≡ PkExit.success)
        × (last.collection ≡ ended (planned (by_category (packages_of es))))
        × (last.uncaught ≡ []))
      ⊎ ((last.collection ≡ ended (failed_with (transaction_failed (PkExit.from_int e) r)))
          × (last.uncaught ≡ transaction_failed (PkExit.from_int e) r ∷ []))
simulated_session bus tx w ss es e r fresh c he hr =
    let x = PkExit.from_int e in
    let streamed = record_events es new_dispatcher in
    let k = completion x r in
    let idle : waiting streamed ≡ streamed = λ i. record streamed {
      done = sym (record_events-done es new_dispatcher) i;
      scheduled_closes = sym (record_events-IsOpen es new_dispatcher new-IsOpen).0 i;
    } in
    let last = map message_of (finish e r ∷ sentinel ∷ []) in
    let run : follow (inbox tx.port (on_signals bus tx (ss ++ (finished e r ∷ [])) w).posts)
          new_dispatcher new_collector
        ≡ at_end k (packages_of es) =
      ap (λ v. follow (inbox tx.port v.posts) new_dispatcher new_collector)
        (on_signals_lem bus tx (ss ++ (finished e r ∷ [])) w)
      ∙ ap (λ ms. follow ms new_dispatcher new_collector) (posted_messages tx.port w ss e r fresh)
      ∙ follow-append (map message_of (all_payloads ss)) last new_dispatcher new_collector
      ∙ ap
          (λ d.
            follow last d (follow (map message_of (all_payloads ss)) new_dispatcher new_collector))
          (receive_all-Carries new_dispatcher c new-IsOpen ∙ sym idle)
      ∙ ap (follow last (waiting streamed)) (follow-Carries new_dispatcher [] c new-IsOpen refl)
      ∙ follow-finish e r streamed (packages_of es) he hr
          (record_events-IsOpen es new_dispatcher new-IsOpen).1 in
    elim (at_end_lem x r (packages_of es)) [
      | inl (ok, done, quiet) ↦ inl (
        ok,
        ap (λ c. c.collection) run
            ∙ done
            ∙ ap (λ plan. ended (planned plan)) (plan_from_packages-by_category (packages_of es)),
        ap (λ c. c.uncaught) run ∙ quiet,
      )
      | inr (bad, loud) ↦ inr (ap (λ c. c.collection) run ∙ bad, ap (λ c. c.uncaught) run ∙ loud)
    ]
