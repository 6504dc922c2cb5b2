-- ===== src/Dart/Client/Ownership.antt =====
-- The native object and the receive port of a transaction in lib/src/packagekit_client.dart.
use packagekit_dart.Base.{
  ℕ, zero, suc, ◌≡◌, refl, sym, ap, subst, ◌∙◌, true, false, some, List, [], ◌∷◌, ◌++◌, arith, ◌==◌,
  Bool-cases, inl, inr, find, free, ◌⊎◌,
}
use packagekit_dart.Bus.{unregister_proxy, returned, World, PkTransactionBridge, PkManager}
use packagekit_dart.PkBridge.{tx, mgr, pk_transaction_destroy}
use packagekit_dart.Dart.Core.{Uint8List}
use packagekit_dart.Dart.Dispatcher.{Dispatcher, dispatch, close, run_microtasks}
use packagekit_dart.Dart.Dispatcher.Session.{receive}
use packagekit_dart.Dart.Dispatcher.Finishing.{dispatch-finished, run_microtasks-finished}
use packagekit_dart.Dart.Client.{PkTransaction, close_all, settle, on_message, on_messages}

-- The handle is that of an object that was not deleted, and its connection is alive.
abbrev pub IsLive : ℕ → World → Type 0
IsLive handle w =
    (b : PkTransactionBridge) × (m : PkManager) × (find handle w.transactions ≡ some b)
    × (find b.connection w.managers ≡ some m)

-- Either the port is open and the native object is there, or the port is closed and the transaction
-- is finished.
abbrev pub IsOwned : PkTransaction → World → Type 0
IsOwned t w =
    ((t.port_is_open ≡ true) × IsLive t.handle w)
    ⊎ ((t.port_is_open ≡ false) × (t.dispatcher.finished ≡ true))

-- `w` after the proxy of a bridge was unregistered and the bridge released.
abbrev pub without : ℕ → World → World
without handle w = record w {
  teardown = w.teardown ++ (unregister_proxy handle ∷ []);
  transactions = free handle w.transactions;
}

pub destroy_live :
    (p : ℕ) (w : World)
    → IsLive (suc p) w
    → pk_transaction_destroy (suc p) w ≡ (returned tt, without (suc p) w)
unfolding pk_transaction_destroy tx mgr
destroy_live p w (b, m, live, connected) = rw (live, connected) refl

module _ (t : PkTransaction) (w : World) where
  abbrev pub closed_with : Dispatcher → PkTransaction
  closed_with d = record t { port_is_open = false; dispatcher = close d }

  abbrev world_without : ℕ → World
  world_without zero = w
  world_without (suc p) = without (suc p) w

  close_all_at :
      (d : Dispatcher) (h : ℕ)
      → IsLive h w
      → close_all (record t { handle = h; dispatcher = d }) w
        ≡ (returned (record (closed_with d) { handle = h }), world_without h)
  unfolding close_all
  close_all_at d zero live = refl
  close_all_at d (suc p) live =
      let not_null : (suc p == 0) ≡ false = ground arith in
      rw (not_null, destroy_live p w live) refl

-- Taking any message keeps the ownership, and never touches an object that was deleted.
pub on_message-IsOwned :
    (msg : Uint8List) (t : PkTransaction) (w : World)
    → IsOwned t w
    → (t' : PkTransaction) × (w' : World) × (on_message msg t w ≡ (returned t', w')) × IsOwned t' w'
unfolding on_message
on_message-IsOwned msg t w (inr (shut, over)) = (t, w, rw shut refl, inr (shut, over))
on_message-IsOwned msg t w (inl (is_open, live)) =
    let d = dispatch msg t.dispatcher in
    elim (Bool-cases d.finished) [
      | inr busy ↦ (
        record t { dispatcher = run_microtasks d },
        w,
        rw (is_open, busy) refl,
        inl (is_open, live),
      )
      | inl over ↦ (
        settle (closed_with t w d),
        world_without t w t.handle,
        rw (is_open, over, close_all_at t w d t.handle live) refl,
        inr (refl, run_microtasks-finished (close d) (unfold close in refl)),
      )
    ]

-- If the port of a transaction is open and its native object is there, or its port is closed and
-- it is finished, then handling any messages returns and leaves it so: no deleted object is used,
-- and none is deleted twice.
pub on_messages-IsOwned :
    (msgs : List Uint8List) (t : PkTransaction) (w : World)
    → IsOwned t w
    → (t' : PkTransaction) × (w' : World) × (on_messages msgs t w ≡ (returned t', w'))
      × IsOwned t' w'
unfolding on_messages
on_messages-IsOwned [] t w o = (t, w, refl, o)
on_messages-IsOwned (msg ∷ msgs) t w o =
    let (t1, w1, first, o1) = on_message-IsOwned msg t w o in
    let (t2, w2, rest, o2) = on_messages-IsOwned msgs t1 w1 o1 in
    (t2, w2, rw (first, rest) refl, o2)

-- A message to a finished transaction whose port is open and whose native object is there closes
-- the port, and deletes the native object.
pub on_message-closes :
    (msg : Uint8List) (t : PkTransaction) (w : World) (p : ℕ)
    → t.port_is_open ≡ true
    → t.dispatcher.finished ≡ true
    → t.handle ≡ suc p
    → IsLive (suc p) w
    → on_message msg t w
      ≡ (returned (settle (closed_with t w (dispatch msg t.dispatcher))), without (suc p) w)
unfolding on_message
on_message-closes msg t w p is_open over h live =
    let d = dispatch msg t.dispatcher in
    let live' : IsLive t.handle w = subst (λ n. IsLive n w) (sym h) live in
    rw (is_open, dispatch-finished msg t.dispatcher ∙ over, close_all_at t w d t.handle live')
      (ap (λ n. (returned (settle (closed_with t w d)), world_without t w n)) h)

-- A message to a transaction that is not finished leaves the port open and the native side as it is.
pub on_message-waits :
    (msg : Uint8List) (t : PkTransaction) (w : World)
    → t.port_is_open ≡ true
    → t.dispatcher.finished ≡ false
    → on_message msg t w ≡ (returned (record t { dispatcher = receive msg t.dispatcher }), w)
unfolding on_message receive
on_message-waits msg t w is_open busy = rw (is_open, dispatch-finished msg t.dispatcher ∙ busy) refl
