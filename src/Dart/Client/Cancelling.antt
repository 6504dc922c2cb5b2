-- ===== src/Dart/Client/Cancelling.antt =====
-- `cancel` and `close` of lib/src/packagekit_client.dart.
use packagekit_dart.Base.{
  ℕ, suc, ◌≡◌, refl, false, some, find, find-free_self, Bool-cases, inl, inr, if◌then◌else◌,
}
use packagekit_dart.Bus.{
  ◌>>=◌, returned, undefined, SystemBus, World, PkTransactionBridge, PkManager,
}
use packagekit_dart.PkManager.{delete_manager}
use packagekit_dart.PkBridge.{mgr, tx, pk_tx_try, pk_manager_destroy}
use packagekit_dart.PkBridge.Entries.{pk_cancel}
use packagekit_dart.PkBridge.Requests
use packagekit_dart.PkBridge.Requests.{Request, request_call}
use packagekit_dart.PkBridge.Calls.{answered, with_call, run_request_lem}
use packagekit_dart.Dart.Client.{PkClient, PkTransaction, cancel, close_client}

-- If the native object of a transaction and its manager are there, `cancel` does nothing when the
-- transaction is finished, and makes the Cancel call on the transaction's path when it is not,
-- with a refusal posted to its port.
pub cancel_lem :
    (bus : SystemBus) (t : PkTransaction) (b : PkTransactionBridge) (m : PkManager) (w : World)
    → find t.handle w.transactions ≡ some b
    → find b.connection w.managers ≡ some m
    → cancel bus t w ≡ (
        if t.dispatcher.finished
        then (returned tt, w)
        else answered b
            (bus.answer w.calls (request_call b Requests.cancel))
            (with_call (request_call b Requests.cancel) w))
unfolding cancel
cancel_lem bus t b m w live connected = elim (Bool-cases t.dispatcher.finished) [
  | inl over ↦ rw over refl
  | inr busy ↦ rw busy (run_request_lem bus t.handle b m w Requests.cancel live connected tt)
]

-- For a client with its manager there, and a transaction of that manager that is not finished and
-- has its native object: after the client is closed, cancelling the transaction is undefined
-- behaviour, since the native object refers to the connection that was deleted with the manager.
pub cancel-close_client :
    (bus : SystemBus) (c : PkClient) (t : PkTransaction) (b : PkTransactionBridge) (m : PkManager)
    (w : World) (p : ℕ)
    → c.manager_handle ≡ suc p
    → find (suc p) w.managers ≡ some m
    → find t.handle w.transactions ≡ some b
    → b.connection ≡ suc p
    → t.dispatcher.finished ≡ false
    → ((close_client c >>= λ _. cancel bus t) w).0 ≡ undefined
unfolding close_client cancel pk_manager_destroy delete_manager mgr tx pk_tx_try pk_cancel
cancel-close_client bus c t b m w p managed there live connected busy =
    rw (managed, there, busy, live, connected, find-free_self (suc p) w.managers) refl
