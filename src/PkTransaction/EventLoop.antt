-- ===== src/PkTransaction/EventLoop.antt =====
-- The event loop's part in native/src/pk_transaction.cpp: D-Bus signals that come in for the proxy of
-- a bridge. The loop and the proxy are those of sdbus-c++.
use packagekit_dart.Base.{
  ℕ, ◌≡◌, ◌∙◌, ap, Option, none, some, List, [], ◌∷◌, append_laws, map, find,
}
use packagekit_dart.Bus.{SystemBus, World, PkTransactionBridge, PkManager}
use packagekit_dart.PkTransaction.Signals.{Signal}
use packagekit_dart.Bus.Signals.{SignalMessage, Deserializer, deliver, run}
use packagekit_dart.PkTransaction.Registration.{registrations}
use packagekit_dart.PkTransaction.Delivery.{message_of, deliver-message_of}
use packagekit_dart.PkTransaction.Payloads.{signal_payloads, all_payloads, with_payloads}
use packagekit_dart.PkTransaction.Posts.{on_signal_lem, with_payloads-append}

module _ (bus : SystemBus) (deserialize : Deserializer) where
  -- No signal comes in for a bridge that was deleted, or whose manager was.
  handle_by : PkTransactionBridge → Option PkManager → SignalMessage → World → World
  unfolding run
  handle_by tx none m w = w
  handle_by tx (some manager) m w = run (deliver deserialize (registrations bus tx) m) w

  handle_at : Option PkTransactionBridge → SignalMessage → World → World
  unfolding handle_by
  handle_at none m w = w
  handle_at (some tx) m w = handle_by tx (find tx.connection w.managers) m w

  -- A signal for the bridge at an address. A handler that throws ends its own signal only.
  unfoldable pub on_dbus_signal : ℕ → SignalMessage → World → World
  unfolding handle_at
  on_dbus_signal address m w = handle_at (find address w.transactions) m w

  unfoldable pub on_dbus_signals : ℕ → List SignalMessage → World → World
  unfolding on_dbus_signal
  on_dbus_signals address [] w = w
  on_dbus_signals address (m ∷ ms) w = on_dbus_signals address ms (on_dbus_signal address m w)

  module _ (address : ℕ) (tx : PkTransactionBridge) (manager : PkManager)
      (reads : (m : SignalMessage) → deserialize m.signature m ≡ some m.arguments) where
    pub on_dbus_signal_lem :
        (s : Signal) (w : World)
        → find address w.transactions ≡ some tx
        → find tx.connection w.managers ≡ some manager
        → on_dbus_signal address (message_of s) w ≡ with_payloads tx.port (signal_payloads s) w
    unfolding on_dbus_signal
    on_dbus_signal_lem s w live connected =
        rw (live, connected)
          (ap (λ h. run h w) (deliver-message_of deserialize bus tx reads s)
            ∙ ap (λ r. r.1) (on_signal_lem bus tx s w))

    -- If the arguments of a message can be read at its own signature, the signals that the daemon
    -- sends to a bridge that is there, and whose manager is, have exactly their payloads posted to
    -- the bridge's port, in order: each is bound, by its name and the types of its arguments, to
    -- its handler.
    pub on_dbus_signals_lem :
        (ss : List Signal) (w : World)
        → find address w.transactions ≡ some tx
        → find tx.connection w.managers ≡ some manager
        → on_dbus_signals address (map message_of ss) w ≡ with_payloads tx.port (all_payloads ss) w
    unfolding on_dbus_signals
    on_dbus_signals_lem [] w live connected = simp append_laws
    on_dbus_signals_lem (s ∷ rest) w live connected =
        ap (on_dbus_signals address (map message_of rest)) (on_dbus_signal_lem s w live connected)
        ∙ (on_dbus_signals_lem rest (with_payloads tx.port (signal_payloads s) w) live connected
            ∙ with_payloads-append tx.port (signal_payloads s) (all_payloads rest) w)
