-- ===== src/Dart/Client/Lifetime.antt =====
-- A whole transaction in lib/src/packagekit_client.dart: what its listener leaves behind.
use packagekit_dart.Base.{ℕ, ◌≡◌, refl, ap, ◌∙◌, true, false, List, [], ◌∷◌, ◌++◌, map}
use packagekit_dart.Glaze.RoundTrip.{IsU32}
use packagekit_dart.PkTypes.{StructType, pk_package}
use packagekit_dart.Bus.{returned, SystemBus, World, PkTransactionBridge, after}
use packagekit_dart.PkTransaction.Signals.{Signal, finished, on_signals}
use packagekit_dart.PkTransaction.Payloads.{Payload, struct, finish, sentinel, all_payloads}
use packagekit_dart.PkTransaction.Posts.{on_signals_lem}
use packagekit_dart.Dart.Core.{Uint8List}
use packagekit_dart.Dart.Codec.{DartStruct}
use packagekit_dart.Dart.Dispatcher.{Dispatcher, pending, new_dispatcher}
use packagekit_dart.Dart.Dispatcher.Session.{
  receive, Event, event, Carries, record_event, record_events, IsOpen, message_of, receive_struct,
  record_event-IsOpen, inbox,
}
use packagekit_dart.Dart.Dispatcher.Ending.{
  posted_messages, finished_with, receive_finish, receive-finish-finished, record_events-done,
  record_events-IsOpen, new-IsOpen,
}
use packagekit_dart.Dart.Client.{PkTransaction, on_messages}
use packagekit_dart.Dart.Client.Ownership.{on_message-waits}

record_event-finished :
    (t : StructType) (a : DartStruct t) (d : Dispatcher)
    → (record_event (event t a) d).finished ≡ d.finished
record_event-finished pk_package a d = refl
record_event-finished _ a d = refl

-- The listener, while the transaction runs, does what the dispatcher does.
module _ (w : World) where
  on_messages-Carries :
      {ps : List Payload} {es : List Event} (t : PkTransaction) (more : List Uint8List)
      → Carries ps es
      → IsOpen t.dispatcher
      → t.port_is_open ≡ true
      → t.dispatcher.finished ≡ false
      → on_messages (map message_of ps ++ more) t w
        ≡ on_messages more (record t { dispatcher = record_events es t.dispatcher }) w
  unfolding on_messages
  on_messages-Carries t more Carries.nothing o is_open busy = refl
  on_messages-Carries {ps = struct _ _ ∷ ps} t more (Carries.also k v a n h e rest) o is_open busy =
      let d = t.dispatcher in
      let t' : PkTransaction = record t { dispatcher = record_event (event k a) d } in
      ap (λ r. after (on_messages (map message_of ps ++ more)) r.0 r.1)
        (on_message-waits (message_of (struct k v)) t w is_open busy)
      ∙ ap (λ d'. on_messages (map message_of ps ++ more) (record t { dispatcher = d' }) w)
          (receive_struct k v a d n h e o)
      ∙ on_messages-Carries t' more rest (record_event-IsOpen k a d o) is_open
          (record_event-finished k a d ∙ busy)

  on_messages-last :
      (t : PkTransaction) (e r : ℕ)
      → IsU32 e
      → IsU32 r
      → t.dispatcher.scheduled_closes ≡ 0
      → t.dispatcher.done ≡ pending
      → t.port_is_open ≡ true
      → t.dispatcher.finished ≡ false
      → on_messages (map message_of (finish e r ∷ sentinel ∷ [])) t w
        ≡ (returned (record t { dispatcher = finished_with e r t.dispatcher }), w)
  unfolding on_messages
  on_messages-last t e r he hr idle unset is_open busy =
      let d = t.dispatcher in
      let m1 = message_of (finish e r) in
      let m2 = message_of sentinel in
      ap (λ x. after (on_messages (m2 ∷ [])) x.0 x.1) (on_message-waits m1 t w is_open busy)
      ∙ ap (λ x. after (on_messages []) x.0 x.1)
          (on_message-waits m2 (record t { dispatcher = receive m1 d }) w is_open
            (receive-finish-finished e r d he hr idle ∙ busy))
      ∙ ap (λ d'. (returned (record t { dispatcher = d' }), w))
          (receive_finish e r d he hr idle unset)

record_events-finished :
    (es : List Event) (d : Dispatcher) → (record_events es d).finished ≡ d.finished
record_events-finished [] d = refl
record_events-finished (event t a ∷ es) d =
    record_events-finished es (record_event (event t a) d) ∙ record_event-finished t a d

-- The messages of payloads and of the end, handled by the listener of a new transaction.
pub on_messages-session :
    (w : World) (t : PkTransaction) {ps : List Payload} {es : List Event} (e r : ℕ)
    → t.port_is_open ≡ true
    → t.dispatcher ≡ new_dispatcher
    → Carries ps es
    → IsU32 e
    → IsU32 r
    → on_messages (map message_of ps ++ map message_of (finish e r ∷ sentinel ∷ [])) t w ≡ (
      returned (record t { dispatcher = finished_with e r (record_events es new_dispatcher) }),
      w,
    )
on_messages-session w t {ps} {es} e r is_open new c he hr =
    let streamed = record_events es new_dispatcher in
    let start : PkTransaction = record t { dispatcher = new_dispatcher } in
    let same : t ≡ start = λ i. record t { dispatcher = new i } in
    let last = map message_of (finish e r ∷ sentinel ∷ []) in
    ap (λ s. on_messages (map message_of ps ++ last) s w) same
    ∙ on_messages-Carries w start last c new-IsOpen is_open refl
    ∙ on_messages-last w (record t { dispatcher = streamed }) e r he hr
        (record_events-IsOpen es new_dispatcher new-IsOpen).0 (record_events-done es new_dispatcher)
        is_open (record_events-finished es new_dispatcher)

-- Take a transaction with an open port, a new dispatcher and nothing posted to its port, and
-- signals that carry structs that fit their wire types and convert to Dart values, followed by
-- Finished with numbers of 32 bits. When the listener has handled the messages of these signals,
-- the streams are closed and the result is set, but the port is still open and the native side is
-- as before: the listener did not delete the native object.
pub transaction_end :
    (bus : SystemBus) (tx : PkTransactionBridge) (w w' : World) (t : PkTransaction)
    (ss : List Signal) (es : List Event) (e r : ℕ)
    → inbox tx.port w.posts ≡ []
    → t.port_is_open ≡ true
    → t.dispatcher ≡ new_dispatcher
    → Carries (all_payloads ss) es
    → IsU32 e
    → IsU32 r
    → on_messages (inbox tx.port (on_signals bus tx (ss ++ (finished e r ∷ [])) w).posts) t w' ≡ (
      returned (record t { dispatcher = finished_with e r (record_events es new_dispatcher) }),
      w',
    )
transaction_end bus tx w w' t ss es e r fresh is_open new c he hr =
    ap (λ v. on_messages (inbox tx.port v.posts) t w')
      (on_signals_lem bus tx (ss ++ (finished e r ∷ [])) w)
    ∙ ap (λ ms. on_messages ms t w') (posted_messages tx.port w ss e r fresh)
    ∙ on_messages-session w' t e r is_open new c he hr
