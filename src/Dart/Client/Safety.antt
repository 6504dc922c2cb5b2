-- ===== src/Dart/Client/Safety.antt =====
-- The methods of lib/src/packagekit_client.dart with any daemon, whatever it answers or refuses.
use packagekit_dart.PkBridge.Exports.{packagekit_nc}
use packagekit_dart.Base.{
  ℕ, subst, suc, codes, ◌≡◌, refl, ap, ◌∙◌, ◌⊎◌, inl, inr, false, some, List, All, find, find_new,
  arith, ◌==◌,
}
use packagekit_dart.Bus.{
  Outcome, returned, thrown, raised, undefined, Outcome-cases, Variant, object_path, SystemBus,
  World, MethodCall, PkTransactionBridge, PkManager, call_method,
}
use packagekit_dart.PkManager.{create_transaction, create_transaction_bridge}
use packagekit_dart.PkBridge.{mgr, pk_transaction_create}
use packagekit_dart.PkBridge.Requests.{Request, strings, run_request, request_call}
use packagekit_dart.PkBridge.Calls.{HasNoNul, answered, with_call, run_request_lem}
use packagekit_dart.Dart.Bindings.{transaction_set_hints}
use packagekit_dart.Dart.Client.{PkClient, PkTransaction, start_query, close_all}
use packagekit_dart.Dart.Client.Queries.Starts.{run_query_lem}
use packagekit_dart.Dart.Client.Queries.{Query, run_query, native_request, query_strings}
use packagekit_dart.Dart.Client.Ownership.{IsOwned}
use packagekit_dart.Dart.Client.Starting.{
  create_call, created, started, unavailable, hints, hints_native, locale_clean,
}
use packagekit_dart.Dart.Client.Strings.{query-HasNoNul}

-- Objects stay as they are.
abbrev pub SameObjects : World → World → Type 0
SameObjects w w' = (w'.transactions ≡ w.transactions) × (w'.managers ≡ w.managers)

-- An answer is a value or an error.
abbrev pub IsAnswer : Outcome Variant → Type 0
IsAnswer (returned v) = Unit {0}
IsAnswer (thrown e) = Unit {0}
IsAnswer (raised x) = ⊥
IsAnswer undefined = ⊥

answered_returns :
    (t : PkTransactionBridge) (o : Outcome Variant) (w : World)
    → IsAnswer o
    → (w' : World) × (answered t o w ≡ (returned tt, w')) × SameObjects w w'
answered_returns t (returned v) w h = (w, refl, (refl, refl))
answered_returns t (thrown e) w h = (_, refl, (refl, refl))
answered_returns t (raised x) w h = absurd h
answered_returns t undefined w h = absurd h

module _ (bus : SystemBus)
    (defined : (calls : List MethodCall) (c : MethodCall) → IsAnswer (bus.answer calls c)) where
  request_returns :
      (handle : ℕ) (b : PkTransactionBridge) (m : PkManager) (w : World) (r : Request)
      → find handle w.transactions ≡ some b
      → find b.connection w.managers ≡ some m
      → All HasNoNul (strings r)
      → (w' : World) × (run_request bus handle r w ≡ (returned tt, w')) × SameObjects w w'
  request_returns handle b m w r live connected clean =
      let c = request_call b r in
      let (w', same, objects) =
        answered_returns b (bus.answer w.calls c) (with_call c w) (defined w.calls c) in
      (w', run_request_lem bus handle b m w r live connected clean ∙ same, objects)

  create_outcome :
      (manager port : ℕ) (m : PkManager) (w : World)
      → find manager w.managers ≡ some m
      → ((path : List ℕ) × (pk_transaction_create bus manager port w
            ≡ (returned (suc w.next_address), created manager path port w)))
        ⊎ (pk_transaction_create bus manager port w ≡ (returned 0, with_call create_call w))
  unfolding pk_transaction_create mgr create_transaction_bridge create_transaction call_method
  create_outcome manager port m w there = elim (Outcome-cases (bus.answer w.calls create_call)) [
    | inl (object_path path, made) ↦ inl (path, rw (there, made) refl)
    | inl (v, made) ↦ inr (rw (there, made) refl)
    | inr (inl (e, refused)) ↦ inr (rw (there, refused) refl)
    | inr (inr (inl (x, odd))) ↦ absurd (subst IsAnswer odd (defined w.calls create_call))
    | inr (inr (inr odd)) ↦ absurd (subst IsAnswer odd (defined w.calls create_call))
  ]

  start_query-IsOwned :
      (c : PkClient) (m : PkManager) (port : ℕ) (w : World) (r : Request)
      → find c.manager_handle w.managers ≡ some m
      → All HasNoNul (strings r)
      → (t : PkTransaction) × (w' : World) × (start_query bus c port (λ h. run_request bus h r) w
          ≡ (returned t, w'))
        × IsOwned t w'
        × (find c.manager_handle w'.managers ≡ some m)
  unfolding start_query close_all
  start_query-IsOwned c m port w r there clean =
      elim (create_outcome c.manager_handle port m w there) [
        | inr none_made ↦
            (unavailable port, with_call create_call w, rw none_made refl, inr (refl, refl), there)
        | inl (path, made) ↦
            let handle = suc w.next_address in
            let b : PkTransactionBridge = record {
              connection = c.manager_handle;
              path = path;
              port = port;
            } in
            let wa = created c.manager_handle path port w in
            let live = find_new handle b w.transactions in
            let (wb, hinted, same) =
              request_returns handle b m wa (hints c.interactive) live there locale_clean in
            let live_b = ap (find handle) same.0 ∙ live in
            let there_b = ap (find c.manager_handle) same.1 ∙ there in
            let (wc, asked, same_c) = request_returns handle b m wb r live_b there_b clean in
            let live_c = ap (find handle) same_c.0 ∙ live_b in
            let there_c = ap (find c.manager_handle) same_c.1 ∙ there_b in
            let not_null : (handle == 0) ≡ false = ground arith in
            let set : transaction_set_hints (packagekit_nc bus) handle (codes "en_US.UTF-8")
                  c.interactive wa
                ≡ (returned tt, wb) =
              ap (λ f. f wa) (hints_native bus handle c.interactive) ∙ hinted in
            (
              started handle port,
              wc,
              rw (made, not_null, set, asked) refl,
              inl (refl, (b, m, live_c, there_c)),
              there_c,
            )
      ]

  -- While the client's manager is there, with strings that have no U+0000, and a daemon whose answers
  -- are values or errors in any order: every method of the client that starts a transaction returns,
  -- leaves the manager there, and its transaction either has an open port and a native object that
  -- is there, or a closed port and is finished.
  pub run_query-IsOwned :
      (c : PkClient) (m : PkManager) (port : ℕ) (w : World) (q : Query)
      → find c.manager_handle w.managers ≡ some m
      → All HasNoNul (query_strings q)
      → (t : PkTransaction) × (w' : World) × (run_query bus c port q w ≡ (returned t, w'))
        × IsOwned t w'
        × (find c.manager_handle w'.managers ≡ some m)
  run_query-IsOwned c m port w q there clean =
      let (t, w', same, owned, still) =
        start_query-IsOwned c m port w (native_request q) there (query-HasNoNul q clean) in
      (t, w', ap (λ f. f w) (run_query_lem bus c port q) ∙ same, owned, still)
