-- ===== src/Dart/Client/Lifecycle/Orderly.antt =====
-- What holds of a transaction in each phase of the life cycle of native/include/pk_transaction.h.
use packagekit_dart.Base.{
  ℕ, suc, ◌≡◌, refl, ap, sym, subst, ◌∙◌, Bool, Option, none, some, All-append, List, [], ◌∷◌, ◌++◌,
  All, find, find_new, map, append_laws, append-nil,
}
use packagekit_dart.PkTypes.{PkDetails, pk_error_code}
use packagekit_dart.Bus.{
  returned, thrown, Variant, SystemBus, World, PkTransactionBridge, PkManager,
}
use packagekit_dart.Bus.Signals.{SignalMessage, Deserializer}
use packagekit_dart.PkTransaction.Signals.{Signal, packages, details, finished, destroy}
use packagekit_dart.PkTransaction.Delivery.{message_of}
use packagekit_dart.PkTransaction.EventLoop.{on_dbus_signal, on_dbus_signal_lem}
use packagekit_dart.PkTransaction.Payloads.{
  Payload, struct, finish, sentinel, signal_payloads, payload_bytes, package_payload,
  details_payloads, details_of, with_payloads,
}
use packagekit_dart.PkBridge.Requests.{Request, set_hints, strings, run_request, request_call}
use packagekit_dart.PkBridge.Calls.{HasNoNul, answered, refusal, with_call, run_request_lem}
use packagekit_dart.Dart.Client.Starting.{create_call, created, create_lem}
use packagekit_dart.Dart.Client.Lifecycle.{
  IsMethod, IsReport, Phase, absent, made, hinted, running, ended, destroyed, Step, create, hint,
  invoke, refuse, report, end, destruct, Reach, start, next,
}

abbrev pub IsStruct : Payload → Type 0
IsStruct (struct t v) = Unit {0}
IsStruct (finish exit_code runtime_ms) = ⊥
IsStruct sentinel = ⊥

-- A bridge that is there, with its manager, for the port.
abbrev pub IsThere : ℕ → PkManager → ℕ → PkTransactionBridge → World → Type 0
IsThere port m h t w =
    (find h w.transactions ≡ some t) × (find t.connection w.managers ≡ some m) × (t.port ≡ port)

-- The messages posted to the port since `w0`.
abbrev pub Posted : ℕ → World → List Payload → World → Type 0
Posted port w0 ps w = w.posts ≡ w0.posts ++ map (λ p. (port, payload_bytes p)) ps

-- The calls made since `w0`: the creation, and after it those of the requests.
abbrev pub Called : PkTransactionBridge → World → List Request → World → Type 0
Called t w0 rs w = w.calls ≡ w0.calls ++ (create_call ∷ map (request_call t) rs)

-- The calls are the creation, SetHints and one method.
abbrev pub IsInvoked : PkTransactionBridge → World → World → Type 0
IsInvoked t w0 w =
    (locale : List ℕ) × (interactive : Bool) × (r : Request) × IsMethod r
    × Called t w0 (set_hints locale interactive ∷ r ∷ []) w

-- The messages are structs, then Finished and the sentinel.
abbrev pub IsComplete : ℕ → World → World → Type 0
IsComplete port w0 w =
    (ps : List Payload) × (exit_code : ℕ) × (runtime_ms : ℕ) × All IsStruct ps
    × Posted port w0 (ps ++ (finish exit_code runtime_ms ∷ sentinel ∷ [])) w

-- What holds in each phase of a transaction that was begun in `w0`.
abbrev pub IsOrderly : ℕ → PkManager → World → Phase → World → Type 0
IsOrderly port m w0 absent w = w ≡ w0
IsOrderly port m w0 (made h t) w = IsThere port m h t w × Posted port w0 [] w × Called t w0 [] w
IsOrderly port m w0 (hinted h t) w =
    IsThere port m h t w
    × Posted port w0 [] w
    × ((locale : List ℕ) × (interactive : Bool) × Called t w0 (set_hints locale interactive ∷ []) w)
IsOrderly port m w0 (running h t) w =
    IsThere port m h t w
    × ((ps : List Payload) × All IsStruct ps × Posted port w0 ps w)
    × IsInvoked t w0 w
IsOrderly port m w0 (ended h t) w = IsThere port m h t w × IsComplete port w0 w × IsInvoked t w0 w
IsOrderly port m w0 (destroyed h t) w =
    IsThere port m h t w × IsComplete port w0 w × IsInvoked t w0 w

packages-IsStruct : (ps : List (ℕ × List ℕ × List ℕ)) → All IsStruct (map package_payload ps)
packages-IsStruct [] = tt
packages-IsStruct (p ∷ ps) = (tt, packages-IsStruct ps)

details-IsStruct : (d : Option PkDetails) → All IsStruct (details_payloads d)
details-IsStruct none = tt
details-IsStruct (some d) = (tt, tt)

signal_payloads-IsStruct : (s : Signal) → IsReport s → All IsStruct (signal_payloads s)
signal_payloads-IsStruct (packages ps) h = packages-IsStruct ps
signal_payloads-IsStruct (details entries) h = details-IsStruct (details_of entries)
signal_payloads-IsStruct (finished exit_code runtime_ms) h = absurd h
signal_payloads-IsStruct destroy h = absurd h
signal_payloads-IsStruct _ h = (tt, tt)

Posted-next :
    (port : ℕ) (t : PkTransactionBridge) (w0 w : World) (ps qs : List Payload)
    → t.port ≡ port
    → Posted port w0 ps w
    → Posted port w0 (ps ++ qs) (with_payloads t.port qs w)
Posted-next port t w0 w ps qs same h = rw (h, same) (simp append_laws)

Called-next :
    (t : PkTransactionBridge) (w0 w : World) (rs : List Request) (r : Request)
    → Called t w0 rs w
    → Called t w0 (rs ++ (r ∷ [])) (with_call (request_call t r) w)
Called-next t w0 w rs r h = rw h (simp append_laws)

module _ (bus : SystemBus) (deserialize : Deserializer) (m : PkManager)
    (reads : (msg : SignalMessage) → deserialize msg.signature msg ≡ some msg.arguments) where
  after_request :
      (port h : ℕ) (t : PkTransactionBridge) (w : World) (r : Request) (v : Variant)
      → IsThere port m h t w
      → All HasNoNul (strings r)
      → bus.answer w.calls (request_call t r) ≡ returned v
      → (run_request bus h r w).1 ≡ with_call (request_call t r) w
  after_request port h t w r v there clean answer =
      ap (λ x. x.1)
        (run_request_lem bus h t m w r there.0 there.1 clean
          ∙ ap (λ o. answered t o (with_call (request_call t r) w)) answer)

  after_refusal :
      (port h : ℕ) (t : PkTransactionBridge) (w : World) (r : Request) (e : List ℕ)
      → IsThere port m h t w
      → All HasNoNul (strings r)
      → bus.answer w.calls (request_call t r) ≡ thrown e
      → (run_request bus h r w).1
        ≡ with_payloads t.port (refusal e) (with_call (request_call t r) w)
  after_refusal port h t w r e there clean answer =
      ap (λ x. x.1)
        (run_request_lem bus h t m w r there.0 there.1 clean
          ∙ ap (λ o. answered t o (with_call (request_call t r) w)) answer)

  after_signal :
      (port h : ℕ) (t : PkTransactionBridge) (w : World) (s : Signal)
      → IsThere port m h t w
      → on_dbus_signal bus deserialize h (message_of s) w
        ≡ with_payloads t.port (signal_payloads s) w
  after_signal port h t w s there =
      on_dbus_signal_lem bus deserialize h t m reads s w there.0 there.1

module _ (bus : SystemBus) (deserialize : Deserializer) (manager port : ℕ) (m : PkManager)
    (w0 : World)
    (reads : (msg : SignalMessage) → deserialize msg.signature msg ≡ some msg.arguments)
    (live : find manager w0.managers ≡ some m) where
  IsOrderly-subst :
      (p : Phase) (w w' : World) → w' ≡ w → IsOrderly port m w0 p w → IsOrderly port m w0 p w'
  IsOrderly-subst p w w' e h = subst (IsOrderly port m w0 p) (sym e) h

  Step-IsOrderly :
      {p q : Phase} {w w' : World}
      → Step bus deserialize manager port p w q w'
      → IsOrderly port m w0 p w
      → IsOrderly port m w0 q w'
  Step-IsOrderly (create w path answer) o =
      let t : PkTransactionBridge = record { connection = manager; path = path; port = port } in
      let there : find manager w.managers ≡ some m = ap (λ x. find manager x.managers) o ∙ live in
      IsOrderly-subst (made (suc w.next_address) t) (created manager path port w) _
        (ap (λ x. x.1) (create_lem bus manager m port w path there answer))
        (
          (find_new (suc w.next_address) t w.transactions, there, refl),
          rw o (simp append_laws),
          rw o refl,
        )
  Step-IsOrderly (hint w h t locale interactive v clean answer) (there, posted, called) =
      let r = set_hints locale interactive in
      IsOrderly-subst (hinted h t) (with_call (request_call t r) w) _
        (after_request bus deserialize m reads port h t w r v there (clean, tt) answer)
        (there, posted, (locale, interactive, Called-next t w0 w [] r called))
  Step-IsOrderly (invoke w h t r v method clean answer)
        (there, posted, (locale, interactive, called)) =
      IsOrderly-subst (running h t) (with_call (request_call t r) w) _
        (after_request bus deserialize m reads port h t w r v there clean answer)
        (
          there,
          ([], tt, posted),
          (
            locale,
            interactive,
            r,
            method,
            Called-next t w0 w (set_hints locale interactive ∷ []) r called,
          ),
        )
  Step-IsOrderly (refuse w h t r e method clean answer)
        (there, posted, (locale, interactive, called)) =
      IsOrderly-subst (ended h t)
        (with_payloads t.port (refusal e) (with_call (request_call t r) w)) _
        (after_refusal bus deserialize m reads port h t w r e there clean answer)
        (
          there,
          (
            struct pk_error_code (record { code = 4; details = e }) ∷ [],
            2,
            0,
            (tt, tt),
            Posted-next port t w0 (with_call (request_call t r) w) [] (refusal e) there.2 posted,
          ),
          (
            locale,
            interactive,
            r,
            method,
            Called-next t w0 w (set_hints locale interactive ∷ []) r called,
          ),
        )
  Step-IsOrderly (report w h t s rep) (there, (ps, structs, posted), invoked) =
      IsOrderly-subst (running h t) (with_payloads t.port (signal_payloads s) w) _
        (after_signal bus deserialize m reads port h t w s there)
        (
          there,
          (
            ps ++ signal_payloads s,
            All-append IsStruct ps (signal_payloads s) structs (signal_payloads-IsStruct s rep),
            Posted-next port t w0 w ps (signal_payloads s) there.2 posted,
          ),
          invoked,
        )
  Step-IsOrderly (end w h t e r) (there, (ps, structs, posted), invoked) =
      IsOrderly-subst (ended h t) (with_payloads t.port (signal_payloads (finished e r)) w) _
        (after_signal bus deserialize m reads port h t w (finished e r) there)
        (
          there,
          (
            ps,
            e,
            r,
            structs,
            Posted-next port t w0 w ps (finish e r ∷ sentinel ∷ []) there.2 posted,
          ),
          invoked,
        )
  Step-IsOrderly (destruct w h t) (there, (ps, e, r, structs, posted), invoked) =
      IsOrderly-subst (destroyed h t) (with_payloads t.port [] w) _
        (after_signal bus deserialize m reads port h t w destroy there)
        (there, (ps, e, r, structs, append-nil w.posts ∙ posted), invoked)

  -- Every transaction that takes the steps of the life cycle, whatever the daemon reports and in
  -- whatever order, and whether it answers or refuses the method, is orderly in each phase, if the
  -- manager is there and the arguments of a message can be read at its own signature: its bridge is
  -- there, also after the Destroy signal; the calls made are CreateTransaction, then SetHints, then
  -- one method, as far as it got; the messages posted to its port are structs while it runs, and
  -- structs, one Finished and the sentinel, in that order, after it ended.
  pub Reach-IsOrderly :
      {p : Phase} {w : World} → Reach bus deserialize manager port w0 p w → IsOrderly port m w0 p w
  Reach-IsOrderly start = refl
  Reach-IsOrderly (next r s) = Step-IsOrderly s (Reach-IsOrderly r)
