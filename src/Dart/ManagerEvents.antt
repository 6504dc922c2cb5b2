-- ===== src/Dart/ManagerEvents.antt =====
-- lib/src/internal/dispatcher.dart: dispatchManagerEvent.
pub mod Delivery
use packagekit_dart.Base.{ℕ, Option, none, some, List, [], ◌∷◌, drop, ◌==◌, if◌then◌else◌}
use packagekit_dart.PkTypes.{pk_manager_props}
use packagekit_dart.Dart.Core.{Result, value, throws, ◌>>=◌, Uint8List, view_bytes}
use packagekit_dart.Dart.Records.{PkManagerProps}
use packagekit_dart.Dart.Reader.{get_uint}
use packagekit_dart.Dart.Codec.{struct_type, decode}
use packagekit_dart.Dart.Dispatcher.{first_byte}

pub data ManagerEvent : Type 0 where
  manager_props : PkManagerProps → ManagerEvent
  manager_updates_changed : ManagerEvent
  manager_repo_list_changed : ManagerEvent
  manager_network_state_changed : ℕ → ManagerEvent

-- The messages that are not byte lists, for which the function returns null, are left out.
unfoldable pub dispatch_manager_event : Uint8List → Result (Option ManagerEvent)
unfolding get_uint
dispatch_manager_event msg = do
  disc ← first_byte (view_bytes msg)
  if disc == 0x0c
      then (do
        props ← decode (struct_type pk_manager_props) msg 1
        value (some (manager_props props)))
      else if disc == 0xd0
      then value (some manager_updates_changed)
      else if disc == 0xd1
      then value (some manager_repo_list_changed)
      else if disc == 0xd2
      then (do
        state ← get_uint 4 (drop msg.offset_in_bytes msg.buffer) 1
        value (some (manager_network_state_changed state)))
      else value none
