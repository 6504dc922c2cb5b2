-- ===== src/PkManager/EventLoop.antt =====
-- The event loop's part in native/src/pk_manager.cpp: the daemon's D-Bus signals on their way through
-- the registrations to the handlers. The loop and the proxy are those of sdbus-c++.
use packagekit_dart.Base.{
  ℕ, ◌≡◌, refl, ◌∙◌, ap, Option, none, some, List, [], ◌∷◌, ◌++◌, append_laws, map, find,
}
use packagekit_dart.Bus.{World, PkManager}
use packagekit_dart.Bus.Signals.{
  uint32_type, texts_type, SignalMessage, signal_message, Deserializer, deliver, run,
}
use packagekit_dart.PkManager.{
  pk_iface, ManagerSignal, updates_changed, repo_list_changed, network_state_changed,
  transaction_list_changed, on_manager_signal,
}
use packagekit_dart.PkManager.Interface.{register_manager_signals}
use packagekit_dart.PkManager.Laws.{signal_messages, on_manager_signal_lem}

-- The message of a signal, by the interface org.freedesktop.PackageKit.
abbrev pub manager_message : ManagerSignal → SignalMessage
manager_message updates_changed = signal_message pk_iface "UpdatesChanged" [] tt
manager_message repo_list_changed = signal_message pk_iface "RepoListChanged" [] tt
manager_message (network_state_changed state) =
    signal_message pk_iface "NetworkStateChanged" (uint32_type ∷ []) (state, tt)
manager_message (transaction_list_changed txs) =
    signal_message pk_iface "TransactionListChanged" (texts_type ∷ []) (txs, tt)

module _ (deserialize : Deserializer) where
  manager_handles : Option PkManager → SignalMessage → World → World
  manager_handles none m w = w
  manager_handles (some manager) m w =
      run (deliver deserialize (register_manager_signals manager) m) w

  -- A signal for the proxy of the manager at an address. No signal comes in for one that was
  -- deleted.
  unfoldable pub on_manager_dbus_signal : ℕ → SignalMessage → World → World
  unfolding manager_handles
  on_manager_dbus_signal address m w = manager_handles (find address w.managers) m w

  unfoldable pub on_manager_dbus_signals : ℕ → List SignalMessage → World → World
  unfolding on_manager_dbus_signal run
  on_manager_dbus_signals address [] w = w
  on_manager_dbus_signals address (m ∷ ms) w =
      on_manager_dbus_signals address ms (on_manager_dbus_signal address m w)

  pub deliver-manager_message :
      (manager : PkManager)
      → ((m : SignalMessage) → deserialize m.signature m ≡ some m.arguments)
      → (s : ManagerSignal)
      → deliver deserialize (register_manager_signals manager) (manager_message s)
        ≡ some (on_manager_signal manager s)
  unfolding deliver register_manager_signals on_manager_signal
  deliver-manager_message manager reads updates_changed =
      rw (reads (manager_message updates_changed)) refl
  deliver-manager_message manager reads repo_list_changed =
      rw (reads (manager_message repo_list_changed)) refl
  deliver-manager_message manager reads (network_state_changed state) =
      rw (reads (manager_message (network_state_changed state))) refl
  deliver-manager_message manager reads (transaction_list_changed txs) =
      rw (reads (manager_message (transaction_list_changed txs))) refl

-- What a sequence of signals has to post.
abbrev pub daemon_messages : List ManagerSignal → List (List ℕ)
daemon_messages [] = []
daemon_messages (s ∷ rest) = signal_messages s ++ daemon_messages rest

abbrev pub with_messages : ℕ → List (List ℕ) → World → World
with_messages port messages w = record w {
  posts = w.posts ++ map (λ bytes. (port, bytes)) messages;
}

with_messages-append :
    (port : ℕ) (ms ns : List (List ℕ)) (w : World)
    → with_messages port ns (with_messages port ms w) ≡ with_messages port (ms ++ ns) w
with_messages-append port ms ns w = simp append_laws

module _ (deserialize : Deserializer) (address : ℕ) (manager : PkManager)
    (reads : (m : SignalMessage) → deserialize m.signature m ≡ some m.arguments) where
  on_manager_dbus_signal_lem :
      (s : ManagerSignal) (w : World)
      → find address w.managers ≡ some manager
      → on_manager_dbus_signal deserialize address (manager_message s) w
        ≡ with_messages manager.events_port (signal_messages s) w
  unfolding on_manager_dbus_signal run
  on_manager_dbus_signal_lem s w live = rw live (
      ap (λ h. run h w) (deliver-manager_message deserialize manager reads s)
      ∙ ap (λ r. r.1) (on_manager_signal_lem manager s w))

  -- If the arguments of a message can be read at its own signature, the daemon's signals to a
  -- manager that is there have exactly their messages posted to its events port, in order.
  pub on_manager_dbus_signals_lem :
      (ss : List ManagerSignal) (w : World)
      → find address w.managers ≡ some manager
      → on_manager_dbus_signals deserialize address (map manager_message ss) w
        ≡ with_messages manager.events_port (daemon_messages ss) w
  unfolding on_manager_dbus_signals
  on_manager_dbus_signals_lem [] w live = simp append_laws
  on_manager_dbus_signals_lem (s ∷ rest) w live =
      ap (on_manager_dbus_signals deserialize address (map manager_message rest))
        (on_manager_dbus_signal_lem s w live)
      ∙ (on_manager_dbus_signals_lem rest (with_messages manager.events_port (signal_messages s) w)
            live
          ∙ with_messages-append manager.events_port (signal_messages s) (daemon_messages rest) w)
