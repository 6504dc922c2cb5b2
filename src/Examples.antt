-- ===== src/Examples.antt =====
-- Concrete inputs: a scripted daemon, a world with one manager and one transaction, and a session.
mod Native
mod Codecs
mod Sessions
mod Clients
mod Runners
mod Signals
use packagekit_dart.Base.{arith, All, ◌≢◌}
use packagekit_dart.Bus.{undefined}
use packagekit_dart.Bus.{thrown, object_path}
use packagekit_dart.PkBridge.Calls.{HasNoNul}
use packagekit_dart.Dart.Enums.PkFilter
use packagekit_dart.Dart.Enums.PkFilter.{PkFilter}
use packagekit_dart.Dart.Client.Queries
use packagekit_dart.Dart.Client.Queries.{Query}
use packagekit_dart.Base.{ℕ, zero, suc, List, [], ◌∷◌, codes, length, true, false}
use packagekit_dart.Bus.{
  Outcome, returned, Variant, nothing, SystemBus, World, PkTransactionBridge, PkManager,
}
use packagekit_dart.PkTransaction.Signals.{Signal, one_package, item_progress}
use packagekit_dart.Dart.Client.{PkClient}
use packagekit_dart.Base.{none}
use packagekit_dart.Dart.Client.Safety.{IsAnswer}

abbrev pub scripted_answer : ℕ → List (Outcome Variant) → Outcome Variant
scripted_answer n [] = returned nothing
scripted_answer zero (r ∷ script) = r
scripted_answer (suc n) (r ∷ script) = scripted_answer n script

-- A daemon whose answer to the n-th call is the n-th of a list.
abbrev pub scripted : List (Outcome Variant) → SystemBus
scripted script = record {
  connects = returned tt;
  answer = λ calls c. scripted_answer (length calls) script;
  type_error = codes "type";
}

abbrev pub a_manager : PkManager
a_manager = record { events_port = 50 }

abbrev pub a_bridge : PkTransactionBridge
a_bridge = record { connection = 1; path = codes "/1"; port = 70 }

abbrev pub a_world : World
a_world = record {
  posts = [];
  calls = [];
  teardown = [];
  transactions = (2, a_bridge) ∷ [];
  managers = (1, a_manager) ∷ [];
  next_address = 2;
}

abbrev pub a_client : PkClient
a_client = record {
  manager_handle = 1;
  events_port = 50;
  interactive = true;
  props = none;
  daemon_events = [];
  is_closed = false;
}

abbrev pub some_signals : List Signal
some_signals =
    one_package 1 (codes "ed;1.2;x86;repo") (codes "An editor")
    ∷ item_progress (codes "ed;1.2;x86;repo") 8 40
    ∷ []

-- A search for an e with an acute accent and a letter.
abbrev pub a_search : Query
a_search = Queries.search_name (0xe9 ∷ 0x64 ∷ []) (PkFilter.installed ∷ PkFilter.arch ∷ [])

pub a_search-HasNoNul : All HasNoNul ((0xe9 ∷ 0x64 ∷ []) ∷ [])
a_search-HasNoNul = ((λ e. absurd (omega (arith, e)), (λ e. absurd (omega (arith, e)), tt)), tt)

abbrev pub accepting : SystemBus
accepting = scripted (returned (object_path (codes "/3")) ∷ [])

abbrev pub refusing : SystemBus
refusing =
    scripted (returned (object_path (codes "/3")) ∷ returned nothing ∷ thrown (codes "no") ∷ [])

pub scripted_answer-IsAnswer :
    (n : ℕ) (script : List (Outcome Variant))
    → All IsAnswer script
    → IsAnswer (scripted_answer n script)
scripted_answer-IsAnswer n [] h = tt
scripted_answer-IsAnswer zero (r ∷ script) h = h.0
scripted_answer-IsAnswer (suc n) (r ∷ script) h = scripted_answer-IsAnswer n script h.1
