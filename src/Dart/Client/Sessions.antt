-- ===== src/Dart/Client/Sessions.antt =====
-- Whole sessions: a method of lib/src/packagekit_client.dart, the daemon's signals or its refusal,
-- and the messages that come of them.
use packagekit_dart.Base.{ℕ, suc, ◌≡◌, refl, ap, ◌∙◌, some, List, [], ◌∷◌, ◌++◌, All, find, arith}
use packagekit_dart.Glaze.RoundTrip.{IsU32, FitsString}
use packagekit_dart.PkTypes.{pk_error_code}
use packagekit_dart.Bus.{
  M, ◌>>=◌, after, returned, thrown, SystemBus, World, Variant, object_path, PkTransactionBridge,
  PkManager,
}
use packagekit_dart.PkTransaction.Signals.{Signal, finished, on_signals}
use packagekit_dart.PkTransaction.Payloads.{all_payloads, with_payloads}
use packagekit_dart.PkBridge.Requests.{request_call}
use packagekit_dart.PkBridge.Calls.{HasNoNul, refusal, with_call}
use packagekit_dart.Dart.Core.{value}
use packagekit_dart.Dart.Utf8.{utf8_decode}
use packagekit_dart.Dart.Codec.Meaning.{to_dart, to_dart_error_code}
use packagekit_dart.Dart.Reader.Reads.{string_of}
use packagekit_dart.Dart.Dispatcher.{new_dispatcher}
use packagekit_dart.Dart.Dispatcher.Session.{
  Event, event, Carries, inbox, inbox-append, inbox-payloads, record_events,
}
use packagekit_dart.Dart.Dispatcher.Ending.{finished_with}
use packagekit_dart.Dart.Client.{PkClient, PkTransaction, on_messages}
use packagekit_dart.Dart.Client.Queries.{Query, run_query, native_request, query_strings}
use packagekit_dart.Dart.Client.Starting.{
  create_call, started, hints, bridge, w1, w2, run_query-answered, run_query-refused,
}
use packagekit_dart.Dart.Client.Lifetime.{transaction_end, on_messages-session}

-- The isolate handles all messages of the transaction's port.
abbrev pub drain : PkTransaction → M PkTransaction
drain t w = on_messages (inbox t.port w.posts) t w

-- A method is called, the daemon sends signals, and the isolate handles their messages.
abbrev pub session :
    SystemBus → PkClient → ℕ → Query → PkTransactionBridge → List Signal → M PkTransaction
session bus c port q b signals =
    run_query bus c port q >>= λ t w. drain t (on_signals bus b signals w)

module _ (bus : SystemBus) (c : PkClient) (m : PkManager) (port : ℕ) (w : World) (path : List ℕ)
    (q : Query) where
  -- The native side after the method's calls.
  abbrev pub w3 : World
  w3 =
      with_call (request_call (bridge bus c m port w path) (native_request q))
        (w2 bus c m port w path)

  -- The transaction when its session is over.
  abbrev pub ended : List Event → ℕ → ℕ → PkTransaction
  ended es e r = record (started (suc w.next_address) port) {
    dispatcher = finished_with e r (record_events es new_dispatcher);
  }

-- A session, from the call of a method to the last message. While the client's manager is there and
-- nothing was posted to the port before, if the daemon creates the transaction and answers the
-- calls, and then sends signals that carry structs that fit their wire types and convert to Dart
-- values, and Finished with numbers of 32 bits: the method's transaction ends with the values on the
-- streams of their types, the result of Finished, and its streams closed, and with its port open.
pub session_lem :
    (bus : SystemBus) (c : PkClient) (m : PkManager) (port : ℕ) (w : World) (path : List ℕ)
    (q : Query) (v v' : Variant) (ss : List Signal) (es : List Event) (e r : ℕ)
    → find c.manager_handle w.managers ≡ some m
    → All HasNoNul (query_strings q)
    → bus.answer w.calls create_call ≡ returned (object_path path)
    → bus.answer
        (w1 bus c m port w path).calls
        (request_call (bridge bus c m port w path) (hints c.interactive))
      ≡ returned v
    → bus.answer
        (w2 bus c m port w path).calls
        (request_call (bridge bus c m port w path) (native_request q))
      ≡ returned v'
    → inbox port w.posts ≡ []
    → Carries (all_payloads ss) es
    → IsU32 e
    → IsU32 r
    → session bus c port q (bridge bus c m port w path) (ss ++ (finished e r ∷ [])) w ≡ (
      returned (ended bus c m port w path q es e r),
      on_signals bus
          (bridge bus c m port w path)
          (ss ++ (finished e r ∷ []))
          (w3 bus c m port w path q),
    )
session_lem bus c m port w path q v v' ss es e r live clean made hinted accepted fresh carried he
      hr =
    let b = bridge bus c m port w path in
    let t = started (suc w.next_address) port in
    let signals = ss ++ (finished e r ∷ []) in
    let last = w3 bus c m port w path q in
    ap (λ x. after (λ t w. drain t (on_signals bus b signals w)) x.0 x.1)
      (run_query-answered bus c m port w path q v v' live clean made hinted accepted)
    ∙ transaction_end bus b last (on_signals bus b signals last) t ss es e r fresh refl refl carried
        he hr

-- What a refused call becomes in Dart.
abbrev pub refusal_events : List ℕ → List Event
refusal_events text = event pk_error_code (record { code = 4; details = text }) ∷ []

error-to_dart :
    (e text : List ℕ)
    → utf8_decode e ≡ some text
    → to_dart pk_error_code (record { code = 4; details = e })
      ≡ value (record { code = 4; details = text })
unfolding to_dart to_dart_error_code string_of
error-to_dart e text h = rw h refl

-- A session whose call is refused. While the client's manager is there and nothing was posted to the
-- port before, if the daemon creates the transaction and accepts its hints, but refuses the method's
-- call with an error whose message is the UTF-8 of a text: the errors' stream has one error, of code
-- 4 with that text, the result is a failure with exit code 2, and the streams are closed.
pub refused_session :
    (bus : SystemBus) (c : PkClient) (m : PkManager) (port : ℕ) (w : World) (path : List ℕ)
    (q : Query) (v : Variant) (e text : List ℕ)
    → find c.manager_handle w.managers ≡ some m
    → All HasNoNul (query_strings q)
    → bus.answer w.calls create_call ≡ returned (object_path path)
    → bus.answer
        (w1 bus c m port w path).calls
        (request_call (bridge bus c m port w path) (hints c.interactive))
      ≡ returned v
    → bus.answer
        (w2 bus c m port w path).calls
        (request_call (bridge bus c m port w path) (native_request q))
      ≡ thrown e
    → inbox port w.posts ≡ []
    → FitsString e
    → utf8_decode e ≡ some text
    → (run_query bus c port q >>= drain) w ≡ (
      returned (ended bus c m port w path q (refusal_events text) 2 0),
      with_payloads port (refusal e) (w3 bus c m port w path q),
    )
refused_session bus c m port w path q v e text live clean made hinted refused fresh short decoded =
    let t = started (suc w.next_address) port in
    let last = with_payloads port (refusal e) (w3 bus c m port w path q) in
    ap (λ x. after drain x.0 x.1)
      (run_query-refused bus c m port w path q v e live clean made hinted refused)
    ∙ ap (λ ms. on_messages ms t last)
        (inbox-append port w.posts _ ∙ rw fresh (inbox-payloads port (refusal e)))
    ∙ on_messages-session last t 2 0 refl refl
        (Carries.also pk_error_code (record { code = 4; details = e })
          (record { code = 4; details = text }) (λ n. absurd (cc n)) (omega arith, (short, tt))
          (error-to_dart e text decoded) Carries.nothing)
        (omega arith) (omega arith)
