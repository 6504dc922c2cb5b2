-- ===== src/Dart/Client/Unhinted.antt =====
-- lib/src/packagekit_client.dart, when the daemon refuses SetHints: `_startQuery` goes on.
use packagekit_dart.Base.{ℕ, suc, ◌≡◌, ◌∙◌, ap, false, some, List, All, find, find_new, ◌==◌, arith}
use packagekit_dart.Bus.{
  Outcome, returned, thrown, after, Variant, object_path, SystemBus, World, PkManager,
}
use packagekit_dart.PkTransaction.Payloads.{with_payloads}
use packagekit_dart.PkBridge.Exports.{packagekit_nc}
use packagekit_dart.PkBridge.Requests.{Request, strings, run_request, request_call}
use packagekit_dart.PkBridge.Calls.{HasNoNul, answered, refusal, with_call, run_request_lem}
use packagekit_dart.Dart.Bindings.{transaction_set_hints}
use packagekit_dart.Dart.Client.{PkClient, PkTransaction, start_query}
use packagekit_dart.Dart.Client.Queries.Starts.{run_query_lem}
use packagekit_dart.Dart.Client.Queries.{Query, run_query, native_request, query_strings}
use packagekit_dart.Dart.Client.Starting.{
  create_call, started, create_lem, hints, hints_native, locale_clean, bridge, w1, w2,
}
use packagekit_dart.Dart.Client.Strings.{query-HasNoNul}
use packagekit_dart.Base.{codes}

then_started : ℕ → ℕ → Outcome (Unit {0}) × World → Outcome PkTransaction × World
then_started handle port (r, w) = after (λ _ w'. (returned (started handle port), w')) r w

module _ (bus : SystemBus) (c : PkClient) (m : PkManager) (port : ℕ) (w : World)
    (path : List ℕ) where
  -- The state after the refused SetHints.
  abbrev pub unhinted : List ℕ → World
  unhinted e = with_payloads port (refusal e) (w2 bus c m port w path)

  start_query-unhinted :
      (r : Request) (e : List ℕ)
      → find c.manager_handle w.managers ≡ some m
      → bus.answer w.calls create_call ≡ returned (object_path path)
      → bus.answer
          (w1 bus c m port w path).calls
          (request_call (bridge bus c m port w path) (hints c.interactive))
        ≡ thrown e
      → All HasNoNul (strings r)
      → start_query bus c port (λ h. run_request bus h r) w
        ≡ then_started (suc w.next_address) port (
            answered
              (bridge bus c m port w path)
              (bus.answer
                (w2 bus c m port w path).calls
                (request_call (bridge bus c m port w path) r))
              (with_call (request_call (bridge bus c m port w path) r) (unhinted e)))
  unfolding start_query then_started
  start_query-unhinted r e live made refused clean =
      let h = suc w.next_address in
      let not_null : (h == 0) ≡ false = ground arith in
      let b = bridge bus c m port w path in
      let hint_call : transaction_set_hints (packagekit_nc bus) h (codes "en_US.UTF-8")
            c.interactive (w1 bus c m port w path)
          ≡ (returned tt, unhinted e) =
        ap (λ f. f (w1 bus c m port w path)) (hints_native bus h c.interactive)
        ∙ run_request_lem bus h b m (w1 bus c m port w path) (hints c.interactive)
            (find_new h b w.transactions) live locale_clean
        ∙ ap (λ o. answered b o (w2 bus c m port w path)) refused in
      rw (create_lem bus c.manager_handle m port w path live made, not_null, hint_call)
        (ap (then_started h port)
          (run_request_lem bus h b m (unhinted e) r (find_new h b w.transactions) live clean))

-- For every method of the client that starts a transaction, with strings that have no U+0000,
-- while the client's manager is there, and if the daemon creates the transaction, refuses its
-- hints with an error, and answers the method's own call: the port is sent the message of the
-- error, Finished with exit code 2, and the sentinel, and the method's own call is made all the
-- same.
pub run_query-hints_refused :
    (bus : SystemBus) (c : PkClient) (m : PkManager) (port : ℕ) (w : World) (path : List ℕ)
    (q : Query) (e : List ℕ) (v : Variant)
    → find c.manager_handle w.managers ≡ some m
    → All HasNoNul (query_strings q)
    → bus.answer w.calls create_call ≡ returned (object_path path)
    → bus.answer
        (w1 bus c m port w path).calls
        (request_call (bridge bus c m port w path) (hints c.interactive))
      ≡ thrown e
    → bus.answer
        (w2 bus c m port w path).calls
        (request_call (bridge bus c m port w path) (native_request q))
      ≡ returned v
    → run_query bus c port q w ≡ (
      returned (started (suc w.next_address) port),
      with_call
          (request_call (bridge bus c m port w path) (native_request q))
          (with_payloads port (refusal e) (w2 bus c m port w path)),
    )
unfolding then_started
run_query-hints_refused bus c m port w path q e v live clean made refused accepted =
    let r = native_request q in
    let b = bridge bus c m port w path in
    let w3 = with_call (request_call b r) (unhinted bus c m port w path e) in
    ap (λ f. f w) (run_query_lem bus c port q)
    ∙ start_query-unhinted bus c m port w path r e live made refused (query-HasNoNul q clean)
    ∙ ap (λ o. then_started (suc w.next_address) port (answered b o w3)) accepted
