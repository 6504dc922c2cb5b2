-- ===== src/Dart/ManagerEvents/Delivery.antt =====
-- What the manager's messages become in dispatchManagerEvent and in the client.
use packagekit_dart.Base.{◌≡◌, refl, ap, Option, some, List, [], ◌∷◌, map, of_le_bytes-u32}
use packagekit_dart.Glaze.Encode.{encode_fields}
use packagekit_dart.Glaze.RoundTrip.{FitsFields, IsU32}
use packagekit_dart.PkTypes.{meta, pk_manager_props, PkManagerProps}
use packagekit_dart.PkManager.{
  ManagerSignal, updates_changed, repo_list_changed, network_state_changed,
  transaction_list_changed,
}
use packagekit_dart.PkManager.Laws.{signal_messages}
use packagekit_dart.PkTransaction.Payloads.{struct, payload_bytes}
use packagekit_dart.Dart.Core.{Result, value, ◌>>=◌, of_bytes}
use packagekit_dart.Dart.Reader.{get_uint}
use packagekit_dart.Dart.Codec.Meaning.{to_dart}
use packagekit_dart.Dart.Codec.Decode.{decode-encode_message}
use packagekit_dart.Dart.ManagerEvents.{
  ManagerEvent, manager_props, manager_updates_changed, manager_repo_list_changed,
  manager_network_state_changed, dispatch_manager_event,
}

abbrev pub signal_events : ManagerSignal → List (Result (Option ManagerEvent))
signal_events updates_changed = value (some manager_updates_changed) ∷ []
signal_events repo_list_changed = value (some manager_repo_list_changed) ∷ []
signal_events (network_state_changed state) =
    value (some (manager_network_state_changed state)) ∷ []
signal_events (transaction_list_changed txs) = []

abbrev pub FitsSignal : ManagerSignal → Type 0
FitsSignal (network_state_changed state) = IsU32 state
FitsSignal _ = Unit {0}

pub dispatch_signal :
    (s : ManagerSignal)
    → FitsSignal s
    → map (λ bytes. dispatch_manager_event (of_bytes bytes)) (signal_messages s) ≡ signal_events s
unfolding dispatch_manager_event
dispatch_signal updates_changed h = refl
dispatch_signal repo_list_changed h = refl
dispatch_signal (network_state_changed state) h =
    unfold get_uint in
    ap (λ n. value (some (manager_network_state_changed n)) ∷ []) (of_le_bytes-u32 state h)
dispatch_signal (transaction_list_changed txs) h = refl

pub dispatch_props :
    (p : PkManagerProps)
    → FitsFields (meta pk_manager_props) p
    → dispatch_manager_event (of_bytes (payload_bytes (struct pk_manager_props p)))
      ≡ (to_dart pk_manager_props p >>= λ props. value (some (manager_props props)))
unfolding dispatch_manager_event
dispatch_props p h =
    ap (λ r. r >>= λ props. value (some (manager_props props)))
      (rw (encode_fields (meta pk_manager_props) p) at
        (decode-encode_message pk_manager_props p 0x0c h))
