-- ===== src/Dart/Client/Starting.antt =====
-- What `_startQuery` of lib/src/packagekit_client.dart does, down to the D-Bus calls.
use packagekit_dart.PkBridge.Exports.{packagekit_nc}
use packagekit_dart.Base.{
  ℕ, suc, ◌≡◌, refl, ap, ◌∙◌, Bool, true, false, some, List, [], ◌∷◌, ◌++◌, All, codes, find,
  find_new, ◌==◌, arith,
}
use packagekit_dart.Bus.{
  M, after, Outcome, returned, thrown, SystemBus, World, MethodCall, PkTransactionBridge, PkManager,
  Variant, object_path, call_method,
}
use packagekit_dart.PkManager.{
  pk_service, pk_path, pk_iface, create_transaction, create_transaction_bridge,
}
use packagekit_dart.PkBridge.{mgr, pk_transaction_create}
use packagekit_dart.PkBridge.Requests.{Request, set_hints, strings, run_request, request_call}
use packagekit_dart.PkTransaction.Payloads.{with_payloads}
use packagekit_dart.PkBridge.Calls.{HasNoNul, answered, refusal, with_call, run_request_lem}
use packagekit_dart.Dart.Utf8.{utf8_encode, encode_char}
use packagekit_dart.Dart.Dispatcher.{new_dispatcher, close, failed, service_unavailable}
use packagekit_dart.Dart.Bindings.{to_native_utf8, transaction_set_hints}
use packagekit_dart.Dart.Client.{PkClient, PkTransaction, start_query, close_all}
use packagekit_dart.Dart.Client.Queries.Starts.{run_query_lem}
use packagekit_dart.Dart.Client.Queries.{Query, run_query, native_request, query_strings}
use packagekit_dart.Dart.Client.Strings.{has_no_nul, has_no_nul_sound, query-HasNoNul}

abbrev pub create_call : MethodCall
create_call = record {
  path = codes pk_path;
  destination = pk_service;
  interface_name = pk_iface;
  method = "CreateTransaction";
  arguments = [];
}

-- The transaction object that `_startQuery` has when the manager could make one.
abbrev pub started : ℕ → ℕ → PkTransaction
started handle port = record {
  handle = handle;
  port = port;
  port_is_open = true;
  dispatcher = new_dispatcher;
}

-- The one that it has when the manager could not.
abbrev pub unavailable : ℕ → PkTransaction
unavailable port = record {
  handle = 0;
  port = port;
  port_is_open = false;
  dispatcher = record (close new_dispatcher) { done = failed service_unavailable };
}

-- `w` with a bridge for the D-Bus object `path` at its next address.
abbrev pub created : ℕ → List ℕ → ℕ → World → World
created manager path port w = record w {
  calls = w.calls ++ (create_call ∷ []);
  transactions =
      (suc w.next_address, record { connection = manager; path = path; port = port })
      ∷ w.transactions;
  next_address = suc w.next_address;
}

module _ (bus : SystemBus) (manager : ℕ) (m : PkManager) (port : ℕ) (w : World) where
  pub create_lem :
      (path : List ℕ)
      → find manager w.managers ≡ some m
      → bus.answer w.calls create_call ≡ returned (object_path path)
      → pk_transaction_create bus manager port w
        ≡ (returned (suc w.next_address), created manager path port w)
  unfolding pk_transaction_create mgr create_transaction_bridge create_transaction call_method
  create_lem path live made = rw (live, made) refl

  pub create_refused :
      (e : List ℕ)
      → find manager w.managers ≡ some m
      → bus.answer w.calls create_call ≡ thrown e
      → pk_transaction_create bus manager port w ≡ (returned 0, with_call create_call w)
  unfolding pk_transaction_create mgr create_transaction_bridge create_transaction call_method
  create_refused e live refused = rw (live, refused) refl

-- If the manager is there and the daemon refuses to create a transaction, `_startQuery` makes no
-- other call and leaves no native object: the transaction that it returns has a closed port and
-- closed streams, and its result is the exception that the service is unavailable.
pub start_query-refused :
    (bus : SystemBus) (c : PkClient) (m : PkManager) (port : ℕ) (invoke : ℕ → M (Unit {0}))
    (w : World) (e : List ℕ)
    → find c.manager_handle w.managers ≡ some m
    → bus.answer w.calls create_call ≡ thrown e
    → start_query bus c port invoke w ≡ (returned (unavailable port), with_call create_call w)
unfolding start_query close_all
start_query-refused bus c m port invoke w e live refused =
    rw (create_refused bus c.manager_handle m port w e live refused) refl

abbrev locale_hints : Bool → Request
locale_hints interactive = set_hints (utf8_encode (codes "en_US.UTF-8")) interactive

-- The hints that `_startQuery` sets.
abbrev pub hints : Bool → Request
hints interactive = set_hints (codes "en_US.UTF-8") interactive

locale_utf8 : utf8_encode (codes "en_US.UTF-8") ≡ codes "en_US.UTF-8"
unfolding utf8_encode encode_char
locale_utf8 = refl

pub locale_clean : All HasNoNul (strings (hints true))
unfolding has_no_nul
locale_clean = (has_no_nul_sound (codes "en_US.UTF-8") refl, tt)

pub hints_native :
    (bus : SystemBus) (handle : ℕ) (interactive : Bool)
    → transaction_set_hints (packagekit_nc bus) handle (codes "en_US.UTF-8") interactive
      ≡ run_request bus handle (hints interactive)
unfolding to_native_utf8
hints_native bus handle interactive =
    ap (λ s. run_request bus handle (set_hints s interactive)) locale_utf8

abbrev then_started : ℕ → ℕ → Outcome (Unit {0}) × World → Outcome PkTransaction × World
then_started handle port (r, w) = after (λ _ w'. (returned (started handle port), w')) r w

module _ (bus : SystemBus) (c : PkClient) (m : PkManager) (port : ℕ) (w : World)
    (path : List ℕ) where
  abbrev pub handle : ℕ
  handle = suc w.next_address

  abbrev pub bridge : PkTransactionBridge
  bridge = record { connection = c.manager_handle; path = path; port = port }

  -- The state after CreateTransaction, and that after SetHints.
  abbrev pub w1 : World
  w1 = created c.manager_handle path port w

  abbrev pub w2 : World
  w2 = with_call (request_call bridge (hints c.interactive)) w1

  request_lem :
      (r : Request) (calls : List MethodCall)
      → find c.manager_handle w.managers ≡ some m
      → All HasNoNul (strings r)
      → run_request bus handle r (record w1 { calls = calls })
        ≡ answered bridge
            (bus.answer calls (request_call bridge r))
            (record w1 { calls = calls ++ (request_call bridge r ∷ []) })
  request_lem r calls live clean =
      run_request_lem bus handle bridge m (record w1 { calls = calls }) r
        (find_new handle bridge w.transactions) live clean

  start_query_made :
      (r : Request) (v : Variant)
      → find c.manager_handle w.managers ≡ some m
      → bus.answer w.calls create_call ≡ returned (object_path path)
      → bus.answer w1.calls (request_call bridge (hints c.interactive)) ≡ returned v
      → All HasNoNul (strings r)
      → start_query bus c port (λ h. run_request bus h r) w
        ≡ then_started handle port (
            answered bridge
              (bus.answer w2.calls (request_call bridge r))
              (with_call (request_call bridge r) w2))
  unfolding start_query
  start_query_made r v live made hinted clean =
      let not_null : (handle == 0) ≡ false = ground arith in
      let hint_call : transaction_set_hints (packagekit_nc bus) handle (codes "en_US.UTF-8")
            c.interactive w1
          ≡ (returned tt, w2) =
        ap (λ f. f w1) (hints_native bus handle c.interactive)
        ∙ request_lem (hints c.interactive) w1.calls live locale_clean
        ∙ ap (λ o. answered bridge o w2) hinted in
      rw (create_lem bus c.manager_handle m port w path live made, not_null, hint_call)
        (ap (then_started handle port) (request_lem r w2.calls live clean))

-- For every method of the client that starts a transaction, with strings that have no U+0000,
-- while the client's manager is there, and if the daemon creates the transaction, accepts its
-- hints and answers the method's own call: the D-Bus calls are CreateTransaction, SetHints and the
-- method's own, in that order, the last with its strings in UTF-8, and the transaction is returned
-- with its port open and its native object in place, and nothing is posted.
pub run_query-answered :
    (bus : SystemBus) (c : PkClient) (m : PkManager) (port : ℕ) (w : World) (path : List ℕ)
    (q : Query) (v v' : Variant)
    → find c.manager_handle w.managers ≡ some m
    → All HasNoNul (query_strings q)
    → bus.answer w.calls create_call ≡ returned (object_path path)
    → bus.answer
        (w1 bus c m port w path).calls
        (request_call (bridge bus c m port w path) (hints c.interactive))
      ≡ returned v
    → bus.answer
        (w2 bus c m port w path).calls
        (request_call (bridge bus c m port w path) (native_request q))
      ≡ returned v'
    → run_query bus c port q w ≡ (
      returned (started (suc w.next_address) port),
      with_call
          (request_call (bridge bus c m port w path) (native_request q))
          (w2 bus c m port w path),
    )
run_query-answered bus c m port w path q v v' live clean made hinted accepted =
    let r = native_request q in
    let b = bridge bus c m port w path in
    let w3 = with_call (request_call b r) (w2 bus c m port w path) in
    ap (λ f. f w) (run_query_lem bus c port q)
    ∙ start_query_made bus c m port w path r v live made hinted (query-HasNoNul q clean)
    ∙ ap (λ o. then_started (suc w.next_address) port (answered b o w3)) accepted

-- For every method of the client that starts a transaction, with strings that have no U+0000,
-- while the client's manager is there, and if the daemon creates the transaction and accepts its
-- hints, but refuses the method's own call with an error: the transaction is returned all the
-- same, and its port is sent the message of the error, Finished with exit code 2, and the
-- sentinel.
pub run_query-refused :
    (bus : SystemBus) (c : PkClient) (m : PkManager) (port : ℕ) (w : World) (path : List ℕ)
    (q : Query) (v : Variant) (e : List ℕ)
    → find c.manager_handle w.managers ≡ some m
    → All HasNoNul (query_strings q)
    → bus.answer w.calls create_call ≡ returned (object_path path)
    → bus.answer
        (w1 bus c m port w path).calls
        (request_call (bridge bus c m port w path) (hints c.interactive))
      ≡ returned v
    → bus.answer
        (w2 bus c m port w path).calls
        (request_call (bridge bus c m port w path) (native_request q))
      ≡ thrown e
    → run_query bus c port q w ≡ (
      returned (started (suc w.next_address) port),
      with_payloads port (refusal e) (
          with_call
            (request_call (bridge bus c m port w path) (native_request q))
            (w2 bus c m port w path)),
    )
run_query-refused bus c m port w path q v e live clean made hinted refused =
    let r = native_request q in
    let b = bridge bus c m port w path in
    let w3 = with_call (request_call b r) (w2 bus c m port w path) in
    ap (λ f. f w) (run_query_lem bus c port q)
    ∙ start_query_made bus c m port w path r v live made hinted (query-HasNoNul q clean)
    ∙ ap (λ o. then_started (suc w.next_address) port (answered b o w3)) refused
