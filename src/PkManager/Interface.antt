-- ===== src/PkManager/Interface.antt =====
-- native/include/pk_manager.h: the members of PkManager as one interface, and its implementation in
-- native/src/pk_manager.cpp, with the registrations that bind the daemon's signals to the handlers.
use packagekit_dart.Base.{ℕ, List, [], ◌∷◌}
use packagekit_dart.PkTypes.{StructType, Struct, pk_manager_props}
use packagekit_dart.Bus.{M, SystemBus}
use packagekit_dart.Bus as Bus
use packagekit_dart.Bus.Signals.{uint32_type, texts_type, Registration, upon_signal}
use packagekit_dart.PkManager

-- The handlers of an object.
pub record ManagerHandlers : Type 0 where
  pub on_updates_changed : M (Unit {0})
  pub on_repo_list_changed : M (Unit {0})
  pub on_network_state_changed : ℕ → M (Unit {0})
  pub on_transaction_list_changed : List (List ℕ) → M (Unit {0})

abbrev pub manager_handlers : Bus.PkManager → ManagerHandlers
manager_handlers manager = record {
  on_updates_changed = PkManager.on_updates_changed manager;
  on_repo_list_changed = PkManager.on_repo_list_changed manager;
  on_network_state_changed = PkManager.on_network_state_changed manager;
  on_transaction_list_changed = PkManager.on_transaction_list_changed manager;
}

-- `registerManagerSignals`.
unfoldable pub register_manager_signals : Bus.PkManager → List Registration
register_manager_signals manager =
    let h = manager_handlers manager in
    upon_signal PkManager.pk_iface "UpdatesChanged" [] (λ _. h.on_updates_changed)
    ∷ upon_signal PkManager.pk_iface "RepoListChanged" [] (λ _. h.on_repo_list_changed)
    ∷ upon_signal PkManager.pk_iface "NetworkStateChanged" (uint32_type ∷ [])
        (λ (state, _). h.on_network_state_changed state)
    ∷ upon_signal PkManager.pk_iface "TransactionListChanged" (texts_type ∷ [])
        (λ (txs, _). h.on_transaction_list_changed txs)
    ∷ []

-- The members of the manager at an address.
pub record ManagerMethods : Type 0 where
  pub register_signals : List Registration
  pub read_properties : M (Unit {0})
  pub create_transaction : M (List ℕ)
  pub create_transaction_bridge : ℕ → M ℕ
  pub handlers : ManagerHandlers
  pub post : (t : StructType) → ℕ → Struct t → M (Unit {0})
  pub post_event : ℕ → M (Unit {0})
  pub delete_manager : M (Unit {0})

abbrev pub manager_methods : SystemBus → ℕ → Bus.PkManager → ManagerMethods
manager_methods bus address manager = record {
  register_signals = register_manager_signals manager;
  read_properties = PkManager.read_properties bus manager;
  create_transaction = PkManager.create_transaction bus;
  create_transaction_bridge = PkManager.create_transaction_bridge bus address;
  handlers = manager_handlers manager;
  post = PkManager.post manager;
  post_event = PkManager.post_event manager;
  delete_manager = PkManager.delete_manager address;
}

-- The explicit instantiation of the manager's `post`.
abbrev pub manager_instantiations : List StructType
manager_instantiations = pk_manager_props ∷ []
