-- ===== src/Dart/Dispatcher/Ending.antt =====
-- The end of a transaction, and a whole one: its messages, from the native handlers to the Dart
-- streams.
use mathlib.Core.List.{map-append}
use packagekit_dart.Base.{ℕ, ◌≡◌, refl, sym, ap, ◌∙◌, List, [], ◌∷◌, ◌++◌, map, append_assoc}
use packagekit_dart.Glaze.RoundTrip.{IsU32}
use packagekit_dart.PkTypes.{StructType, pk_package}
use packagekit_dart.Bus.{SystemBus, World, PkTransactionBridge}
use packagekit_dart.PkTransaction.Signals.{Signal, finished, on_signals}
use packagekit_dart.PkTransaction.Payloads.{
  finish, sentinel, signal_payloads, all_payloads, with_payloads,
}
use packagekit_dart.PkTransaction.Posts.{on_signals_lem}
use packagekit_dart.Dart.Enums.PkExit
use packagekit_dart.Dart.Codec.{DartStruct}
use packagekit_dart.Dart.Dispatcher.{
  Dispatcher, pending, new_dispatcher, completion, on_finished, close, run_microtasks, close_times,
}
use packagekit_dart.Dart.Dispatcher.Delivery.{dispatch-payload_bytes}
use packagekit_dart.Dart.Dispatcher.Session.{
  receive, receive_all, Event, Carries, record_event, record_events, IsOpen, record_event-IsOpen,
  message_of, receive_all-Carries, receive_all-append, inbox, inbox-append, inbox-payloads, event,
}

all_payloads-append :
    (xs ys : List Signal) → all_payloads (xs ++ ys) ≡ all_payloads xs ++ all_payloads ys
all_payloads-append [] ys = refl
all_payloads-append (x ∷ xs) ys =
    rw (all_payloads-append xs ys) (sym (append_assoc (signal_payloads x) _ _))

pub record_events-IsOpen :
    (es : List Event) (d : Dispatcher) → IsOpen d → IsOpen (record_events es d)
record_events-IsOpen [] d o = o
record_events-IsOpen (event t a ∷ es) d o =
    record_events-IsOpen es (record_event (event t a) d) (record_event-IsOpen t a d o)

-- `d` with nothing scheduled and no result yet.
abbrev waiting : Dispatcher → Dispatcher
waiting d = record d { done = pending; scheduled_closes = 0 }

abbrev pub finished_with : ℕ → ℕ → Dispatcher → Dispatcher
finished_with e r d = record (close d) {
  done = completion (PkExit.from_int e) r;
  scheduled_closes = 0;
}

receive_finish-waiting :
    (e r : ℕ) (d : Dispatcher)
    → IsU32 e
    → IsU32 r
    → receive_all (map message_of (finish e r ∷ sentinel ∷ [])) (waiting d) ≡ finished_with e r d
unfolding receive run_microtasks on_finished close
receive_finish-waiting e r d he hr =
    ap (λ x. receive (message_of sentinel) (run_microtasks x))
      (dispatch-payload_bytes (waiting d) (finish e r) (he, hr))
    ∙ ap run_microtasks (
        dispatch-payload_bytes
          (record d { done = completion (PkExit.from_int e) r; scheduled_closes = 0 }) sentinel tt)

-- The last two messages of a transaction complete the result and then close the streams.
pub receive_finish :
    (e r : ℕ) (d : Dispatcher)
    → IsU32 e
    → IsU32 r
    → d.scheduled_closes ≡ 0
    → d.done ≡ pending
    → receive_all (map message_of (finish e r ∷ sentinel ∷ [])) d ≡ finished_with e r d
receive_finish e r d he hr idle p =
    ap (receive_all (map message_of (finish e r ∷ sentinel ∷ [])))
      (λ i. record d { done = p i; scheduled_closes = idle i })
    ∙ receive_finish-waiting e r d he hr

-- Finished alone does not close the streams.
pub receive-finish-finished :
    (e r : ℕ) (d : Dispatcher)
    → IsU32 e
    → IsU32 r
    → d.scheduled_closes ≡ 0
    → (receive (message_of (finish e r)) d).finished ≡ d.finished
unfolding receive run_microtasks on_finished
receive-finish-finished e r d he hr idle =
    ap (λ x. (run_microtasks x).finished) (dispatch-payload_bytes d (finish e r) (he, hr))
    ∙ ap (λ n. (close_times n (on_finished (record { exit_code = e; runtime_ms = r }) d)).finished)
        idle

record_event-done :
    (t : StructType) (a : DartStruct t) (d : Dispatcher)
    → (record_event (event t a) d).done ≡ d.done
record_event-done pk_package a d = refl
record_event-done _ a d = refl

pub record_events-done : (es : List Event) (d : Dispatcher) → (record_events es d).done ≡ d.done
record_events-done [] d = refl
record_events-done (event t a ∷ es) d =
    record_events-done es (record_event (event t a) d) ∙ record_event-done t a d

pub posted_messages :
    (port : ℕ) (w : World) (ss : List Signal) (e r : ℕ)
    → inbox port w.posts ≡ []
    → inbox port (with_payloads port (all_payloads (ss ++ (finished e r ∷ []))) w).posts
      ≡ map message_of (all_payloads ss) ++ map message_of (finish e r ∷ sentinel ∷ [])
posted_messages port w ss e r fresh =
    inbox-append port w.posts _
    ∙ rw fresh (
        inbox-payloads port (all_payloads (ss ++ (finished e r ∷ [])))
        ∙ ap (map message_of) (all_payloads-append ss (finished e r ∷ []))
        ∙ map-append message_of (all_payloads ss) (finish e r ∷ sentinel ∷ []))

pub new-IsOpen : IsOpen new_dispatcher
new-IsOpen = (refl, refl, refl, refl, refl, refl, refl, refl, refl, refl, refl, refl)

-- A whole transaction, from D-Bus to Dart. If the signals before Finished carry structs that fit
-- their wire types and convert to Dart values, the numbers of Finished have 32 bits, and no
-- message was posted to the port before, then the dispatcher that receives the messages of the
-- port ends with each value on the stream of its type, in the order of the signals and with no
-- other event, with the result of Finished's exit code and runtime, and with every stream closed.
pub transaction_delivery :
    (bus : SystemBus) (tx : PkTransactionBridge) (w : World) (ss : List Signal) (es : List Event)
    (e r : ℕ)
    → inbox tx.port w.posts ≡ []
    → Carries (all_payloads ss) es
    → IsU32 e
    → IsU32 r
    → receive_all
        (inbox tx.port (on_signals bus tx (ss ++ (finished e r ∷ [])) w).posts)
        new_dispatcher
      ≡ finished_with e r (record_events es new_dispatcher)
transaction_delivery bus tx w ss es e r fresh c he hr =
    let last = finish e r ∷ sentinel ∷ [] in
    let streamed = record_events es new_dispatcher in
    ap (λ v. receive_all (inbox tx.port v.posts) new_dispatcher)
      (on_signals_lem bus tx (ss ++ (finished e r ∷ [])) w)
    ∙ ap (λ ms. receive_all ms new_dispatcher) (posted_messages tx.port w ss e r fresh)
    ∙ receive_all-append (map message_of (all_payloads ss)) (map message_of last) new_dispatcher
    ∙ ap (receive_all (map message_of last)) (receive_all-Carries new_dispatcher c new-IsOpen)
    ∙ receive_finish e r streamed he hr (record_events-IsOpen es new_dispatcher new-IsOpen).0
        (record_events-done es new_dispatcher)
