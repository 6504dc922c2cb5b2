-- ===== src/Dart/Client/Lifecycle.antt =====
-- The life of a transaction, as native/include/pk_transaction.h lists its steps, over the functions of
-- native/src/pk_bridge.cpp and the D-Bus signals that come in.
pub mod Orderly
use packagekit_dart.Base.{
  ℕ, suc, ◌≡◌, refl, ap, sym, subst, ◌∙◌, Bool, Option, none, some, All-append, List, [], ◌∷◌, ◌++◌,
  All, find, find_new, map, append_laws, append-nil,
}
use packagekit_dart.PkTypes.{PkDetails}
use packagekit_dart.Bus.{
  returned, thrown, Variant, object_path, SystemBus, World, PkTransactionBridge, PkManager,
}
use packagekit_dart.Bus.Signals.{SignalMessage, Deserializer}
use packagekit_dart.PkTransaction.Signals.{Signal, packages, details, finished, destroy}
use packagekit_dart.PkTransaction.Delivery.{message_of}
use packagekit_dart.PkTransaction.EventLoop.{on_dbus_signal, on_dbus_signal_lem}
use packagekit_dart.PkTransaction.Payloads.{
  Payload, struct, finish, sentinel, signal_payloads, payload_bytes, package_payload,
  details_payloads, details_of, with_payloads,
}
use packagekit_dart.PkBridge.{pk_transaction_create}
use packagekit_dart.PkBridge.Requests.{
  Request, set_hints, cancel, strings, run_request, request_call,
}
use packagekit_dart.PkBridge.Calls.{HasNoNul, answered, with_call, run_request_lem}
use packagekit_dart.Dart.Client.Starting.{create_call, created, create_lem}

-- A request that starts the transaction: one that is no hint and no cancellation.
abbrev pub IsMethod : Request → Type 0
IsMethod (set_hints locale interactive) = ⊥
IsMethod cancel = ⊥
IsMethod _ = Unit {0}

-- A signal that reports something while the transaction runs.
abbrev pub IsReport : Signal → Type 0
IsReport (finished exit_code runtime_ms) = ⊥
IsReport destroy = ⊥
IsReport _ = Unit {0}

-- How far a transaction is; where it stands, and its bridge.
pub data Phase : Type 0 where
  absent : Phase
  made hinted running ended destroyed : ℕ → PkTransactionBridge → Phase

-- The steps, each when the daemon accepts it, and the end of a transaction whose method is refused.
pub data Step (bus : SystemBus) (deserialize : Deserializer) (manager port : ℕ)
    : Phase → World → Phase → World → Type 0 where
  create :
      (w : World) (path : List ℕ)
      → bus.answer w.calls create_call ≡ returned (object_path path)
      → Step bus deserialize manager port absent w
          (made (suc w.next_address) (record { connection = manager; path = path; port = port }))
          (pk_transaction_create bus manager port w).1
  hint :
      (w : World) (h : ℕ) (t : PkTransactionBridge) (locale : List ℕ) (interactive : Bool)
      (v : Variant)
      → HasNoNul locale
      → bus.answer w.calls (request_call t (set_hints locale interactive)) ≡ returned v
      → Step bus deserialize manager port
          (made h t)
          w
          (hinted h t)
          (run_request bus h (set_hints locale interactive) w).1
  invoke :
      (w : World) (h : ℕ) (t : PkTransactionBridge) (r : Request) (v : Variant)
      → IsMethod r
      → All HasNoNul (strings r)
      → bus.answer w.calls (request_call t r) ≡ returned v
      → Step bus deserialize manager port (hinted h t) w (running h t) (run_request bus h r w).1
  refuse :
      (w : World) (h : ℕ) (t : PkTransactionBridge) (r : Request) (e : List ℕ)
      → IsMethod r
      → All HasNoNul (strings r)
      → bus.answer w.calls (request_call t r) ≡ thrown e
      → Step bus deserialize manager port (hinted h t) w (ended h t) (run_request bus h r w).1
  report :
      (w : World) (h : ℕ) (t : PkTransactionBridge) (s : Signal)
      → IsReport s
      → Step bus deserialize manager port
          (running h t)
          w
          (running h t)
          (on_dbus_signal bus deserialize h (message_of s) w)
  end :
      (w : World) (h : ℕ) (t : PkTransactionBridge) (exit_code runtime_ms : ℕ)
      → Step bus deserialize manager port
          (running h t)
          w
          (ended h t)
          (on_dbus_signal bus deserialize h (message_of (finished exit_code runtime_ms)) w)
  destruct :
      (w : World) (h : ℕ) (t : PkTransactionBridge)
      → Step bus deserialize manager port
          (ended h t)
          w
          (destroyed h t)
          (on_dbus_signal bus deserialize h (message_of destroy) w)

pub data Reach (bus : SystemBus) (deserialize : Deserializer) (manager port : ℕ) (w0 : World)
    : Phase → World → Type 0 where
  start : Reach bus deserialize manager port w0 absent w0
  next :
      {p q : Phase} {w w' : World}
      → Reach bus deserialize manager port w0 p w
      → Step bus deserialize manager port p w q w'
      → Reach bus deserialize manager port w0 q w'
