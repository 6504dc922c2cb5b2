-- ===== src/Dart/Client/Protocol.antt =====
-- The methods of lib/src/packagekit_client.dart against the life cycle of a transaction.
use packagekit_dart.Base.{
  ℕ, suc, ◌≡◌, ap, sym, subst, ◌∙◌, some, List, [], ◌∷◌, ◌++◌, All, find, find_new, map,
}
use packagekit_dart.Bus.{
  returned, Variant, object_path, SystemBus, World, PkTransactionBridge, PkManager,
}
use packagekit_dart.Bus.Signals.{Deserializer}
use packagekit_dart.PkTransaction.Signals.{Signal, finished}
use packagekit_dart.PkTransaction.Delivery.{message_of}
use packagekit_dart.PkTransaction.EventLoop.{on_dbus_signals}
use packagekit_dart.PkBridge.Requests.{request_call}
use packagekit_dart.PkBridge.Calls.{HasNoNul, answered, with_call, run_request_lem}
use packagekit_dart.Dart.Client.{PkClient}
use packagekit_dart.Dart.Client.Queries.{Query, run_query, native_request, query_strings}
use packagekit_dart.Dart.Client.Starting.{
  create_call, create_lem, hints, locale_clean, bridge, w1, w2, run_query-answered,
}
use packagekit_dart.Dart.Client.Strings.{query-HasNoNul}
use packagekit_dart.Dart.Client.Lifecycle.{
  IsMethod, IsReport, Phase, made, hinted, running, ended, Reach, start, next, create, hint, invoke,
  report, end,
}
use packagekit_dart.Glaze.RoundTrip.{IsU32}
use packagekit_dart.Bus.{M, ◌>>=◌, after}
use packagekit_dart.Bus.Signals.{SignalMessage}
use packagekit_dart.PkTransaction.Signals.{on_signals}
use packagekit_dart.PkTransaction.Payloads.{all_payloads, with_payloads}
use packagekit_dart.PkTransaction.Posts.{on_signals_lem}
use packagekit_dart.PkTransaction.EventLoop.{on_dbus_signals_lem}
use packagekit_dart.Dart.Dispatcher.Session.{Event, Carries, inbox}
use packagekit_dart.Dart.Client.{PkTransaction}
use packagekit_dart.Dart.Client.Starting.{started}
use packagekit_dart.Dart.Client.Lifetime.{transaction_end}
use packagekit_dart.Dart.Client.Sessions
use packagekit_dart.Dart.Client.Sessions.{drain, w3}
use packagekit_dart.Base.{refl}

native_request-IsMethod : (q : Query) → IsMethod (native_request q)
native_request-IsMethod (Query.search_name query filters) = tt
native_request-IsMethod _ = tt

module _ (bus : SystemBus) (deserialize : Deserializer) (manager port : ℕ) (w0 : World) where
  run_reports :
      (h : ℕ) (t : PkTransactionBridge) (ss : List Signal) (e r : ℕ) (w : World)
      → All IsReport ss
      → Reach bus deserialize manager port w0 (running h t) w
      → Reach bus deserialize manager port w0
          (ended h t)
          (on_dbus_signals bus deserialize h (map message_of (ss ++ (finished e r ∷ []))) w)
  unfolding on_dbus_signals
  run_reports h t [] e r w reps reach = next reach (end w h t e r)
  run_reports h t (s ∷ ss) e r w reps reach =
      run_reports h t ss e r _ reps.1 (next reach (report w h t s reps.0))

-- For every method of the client that starts a transaction, with strings that have no U+0000,
-- while the client's manager is there, and if the daemon creates the transaction, accepts its
-- hints and answers the method's own call: whatever signals come in after it, up to the first
-- Finished, the transaction goes through the life cycle's steps in order, and ends.
pub run_query-Reach :
    (bus : SystemBus) (deserialize : Deserializer) (c : PkClient) (m : PkManager) (port : ℕ)
    (w : World) (path : List ℕ) (q : Query) (v v' : Variant) (ss : List Signal)
    (exit_code runtime_ms : ℕ)
    → find c.manager_handle w.managers ≡ some m
    → All HasNoNul (query_strings q)
    → bus.answer w.calls create_call ≡ returned (object_path path)
    → bus.answer
        (w1 bus c m port w path).calls
        (request_call (bridge bus c m port w path) (hints c.interactive))
      ≡ returned v
    → bus.answer
        (w2 bus c m port w path).calls
        (request_call (bridge bus c m port w path) (native_request q))
      ≡ returned v'
    → All IsReport ss
    → Reach bus deserialize c.manager_handle port w
        (ended (suc w.next_address) (bridge bus c m port w path))
        (on_dbus_signals bus deserialize
          (suc w.next_address)
          (map message_of (ss ++ (finished exit_code runtime_ms ∷ [])))
          (run_query bus c port q w).1)
run_query-Reach bus deserialize c m port w path q v v' ss e r live clean made_ hinted_ accepted
      reps =
    let h = suc w.next_address in
    let b = bridge bus c m port w path in
    let x1 = w1 bus c m port w path in
    let x2 = w2 bus c m port w path in
    let x3 = with_call (request_call b (native_request q)) x2 in
    let R : Phase → World → Type 0 = Reach bus deserialize c.manager_handle port w in
    let there = find_new h b w.transactions in
    let made_there : R (made h b) x1 =
      subst (R (made h b))
        (ap (λ o. o.1) (create_lem bus c.manager_handle m port w path live made_))
        (next start (create w path made_)) in
    let hinted_there : R (hinted h b) x2 =
      subst (R (hinted h b))
        (ap (λ o. o.1)
          (run_request_lem bus h b m x1 (hints c.interactive) there live locale_clean
            ∙ ap (λ o. answered b o x2) hinted_))
        (next made_there (hint x1 h b _ c.interactive v locale_clean.0 hinted_)) in
    let invoked : R (running h b) x3 =
      subst (R (running h b))
        (ap (λ o. o.1)
          (run_request_lem bus h b m x2 (native_request q) there live (query-HasNoNul q clean)
            ∙ ap (λ o. answered b o x3) accepted))
        (next hinted_there (
          invoke x2 h b (native_request q) v' (native_request-IsMethod q) (query-HasNoNul q clean)
            accepted)) in
    let same =
      ap (λ o. o.1)
        (run_query-answered bus c m port w path q v v' live clean made_ hinted_ accepted) in
    run_reports bus deserialize c.manager_handle port w h b ss e r _ reps
      (subst (R (running h b)) (sym same) invoked)

-- A method is called, the daemon's signals come in over D-Bus for the transaction's bridge, and the
-- isolate handles their messages.
abbrev pub dbus_session :
    SystemBus → Deserializer → PkClient → ℕ → Query → List Signal → M PkTransaction
dbus_session bus deserialize c port q signals = run_query bus c port q >>= λ t w.
    drain t (on_dbus_signals bus deserialize t.handle (map message_of signals) w)

-- A session over D-Bus, for every method of the client that starts a transaction, with strings that
-- have no U+0000. While the client's manager is there and nothing was posted to the port before, if
-- the daemon creates the transaction and answers the calls, if the arguments of a message can be
-- read at its own signature, and if signals come in that report structs that fit their wire types and
-- convert to Dart values, and then Finished with numbers of 32 bits: the transaction takes the steps
-- of the life cycle to its end, the messages of the signals are posted to its port, in order, and in
-- Dart it ends with the values on the streams of their types, the result of Finished, and its streams
-- closed.
pub dbus_session_lem :
    (bus : SystemBus) (deserialize : Deserializer) (c : PkClient) (m : PkManager) (port : ℕ)
    (w : World) (path : List ℕ) (q : Query) (v v' : Variant) (ss : List Signal) (es : List Event)
    (e r : ℕ)
    → ((s : SignalMessage) → deserialize s.signature s ≡ some s.arguments)
    → find c.manager_handle w.managers ≡ some m
    → All HasNoNul (query_strings q)
    → bus.answer w.calls create_call ≡ returned (object_path path)
    → bus.answer
        (w1 bus c m port w path).calls
        (request_call (bridge bus c m port w path) (hints c.interactive))
      ≡ returned v
    → bus.answer
        (w2 bus c m port w path).calls
        (request_call (bridge bus c m port w path) (native_request q))
      ≡ returned v'
    → inbox port w.posts ≡ []
    → All IsReport ss
    → Carries (all_payloads ss) es
    → IsU32 e
    → IsU32 r
    → (dbus_session bus deserialize c port q (ss ++ (finished e r ∷ [])) w ≡ (
      returned (Sessions.ended bus c m port w path q es e r),
      with_payloads port (all_payloads (ss ++ (finished e r ∷ []))) (w3 bus c m port w path q),
    ))
      × Reach bus deserialize c.manager_handle port w
          (ended (suc w.next_address) (bridge bus c m port w path))
          (dbus_session bus deserialize c port q (ss ++ (finished e r ∷ [])) w).1
dbus_session_lem bus deserialize c m port w path q v v' ss es e r reads live clean made_ hinted_
      accepted fresh reps carried he hr =
    let h = suc w.next_address in
    let b = bridge bus c m port w path in
    let t = started h port in
    let signals = ss ++ (finished e r ∷ []) in
    let last = w3 bus c m port w path q in
    let posted = with_payloads port (all_payloads signals) last in
    let answers = run_query-answered bus c m port w path q v v' live clean made_ hinted_ accepted in
    let dbus : on_dbus_signals bus deserialize h (map message_of signals) last ≡ posted =
      on_dbus_signals_lem bus deserialize h b m reads signals last (find_new h b w.transactions)
        live in
    let native : on_signals bus b signals last ≡ posted = on_signals_lem bus b signals last in
    let whole =
      ap
        (λ x.
          after
            (λ t w. drain t (on_dbus_signals bus deserialize t.handle (map message_of signals) w))
            x.0 x.1)
        answers
      ∙ ap (drain t) (dbus ∙ sym native)
      ∙ transaction_end bus b last (on_signals bus b signals last) t ss es e r fresh refl refl
          carried he hr
      ∙ ap (λ w'. (returned (Sessions.ended bus c m port w path q es e r), w')) native in
    (
      whole,
      subst (Reach bus deserialize c.manager_handle port w (ended h b))
          (ap (λ x. on_dbus_signals bus deserialize h (map message_of signals) x.1) answers
            ∙ dbus
            ∙ sym (ap (λ x. x.1) whole))
          (run_query-Reach bus deserialize c m port w path q v v' ss e r live clean made_ hinted_
            accepted reps),
    )
