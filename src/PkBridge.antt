-- ===== src/PkBridge.antt =====
-- native/src/pk_bridge.cpp: the C functions that Dart calls, on handles that are addresses.
-- A C string is the bytes of its buffer, and a pointer that may be null an Option.
pub mod Entries
pub mod Exports
pub mod Requests
pub mod Calls
pub mod Handles
pub mod Containment
pub mod Counts
use packagekit_dart.Base.{
  ℕ, ℤ, pos, negsuc, zero, suc, Bool, Option, none, some, List, [], ◌∷◌, codes, find,
}
use packagekit_dart.Bus.{
  M, ◌>>=◌, ◌>>◌, pure, lift, Outcome, returned, thrown, raised, undefined, length_error, SystemBus,
  World, PkManager, PkTransactionBridge,
}
use packagekit_dart.PkManager.{
  new_manager, delete_manager, read_properties, create_transaction_bridge,
}
use packagekit_dart.PkManager.Interface.{manager_methods}
use packagekit_dart.PkTransaction.{post_error, delete_bridge}
use packagekit_dart.PkTransaction.Methods.{set_hints}
use packagekit_dart.PkTransaction.Interface.{transaction_methods}

-- std::string(p): the bytes before the first NUL.
unfoldable pub c_string : List ℕ → Outcome (List ℕ)
c_string [] = undefined
c_string (zero ∷ rest) = returned []
c_string (suc b ∷ rest) = elim (c_string rest) [
  | returned s ↦ returned (suc b ∷ s)
  | thrown e ↦ thrown e
  | raised x ↦ raised x
  | undefined ↦ undefined
]

abbrev append_to : List ℕ → Outcome (List (List ℕ)) → Outcome (List (List ℕ))
append_to s (returned ss) = returned (s ∷ ss)
append_to s (thrown e) = thrown e
append_to s (raised x) = raised x
append_to s undefined = undefined

abbrev then_append : Outcome (List ℕ) → Outcome (List (List ℕ)) → Outcome (List (List ℕ))
then_append (returned s) r = append_to s r
then_append (thrown e) r = thrown e
then_append (raised x) r = raised x
then_append undefined r = undefined

-- The first n strings of an array. Reading beyond its end is undefined.
append_each : List (List ℕ) → ℕ → Outcome (List (List ℕ))
unfolding c_string
append_each arr zero = returned []
append_each [] (suc n) = undefined
append_each (p ∷ arr) (suc n) = then_append (c_string p) (append_each arr n)

-- `reserve` of a negative count, which is more than max_size() as a size_t, raises a length_error.
unfoldable pub to_vec : List (List ℕ) → ℤ → Outcome (List (List ℕ))
unfolding append_each
to_vec arr (pos n) = append_each arr n
to_vec arr (negsuc n) = raised length_error

-- `mgr(h)->` and `tx(h)->`, undefined at null and at an object that was deleted. A bridge's proxy
-- refers to the connection of its manager.
abbrev found : {A : Type 0} → Option A → Outcome A
found none = undefined
found (some a) = returned a

unfoldable pub mgr : ℕ → M PkManager
mgr handle w = (found (find handle w.managers), w)

unfoldable pub tx : ℕ → M PkTransactionBridge
unfolding mgr
tx handle = do t ← λ w. (found (find handle w.transactions), w); _ ← mgr t.connection; pure t

-- try { body } catch (const sdbus::Error& e) { handler(e) }.
abbrev handled : {A : Type 0} → (List ℕ → M A) → Outcome A × World → Outcome A × World
handled handler (returned a, w) = (returned a, w)
handled handler (thrown e, w) = handler e w
handled handler (raised x, w) = (raised x, w)
handled handler (undefined, w) = (undefined, w)

abbrev pub try_catch : {A : Type 0} → M A → (List ℕ → M A) → M A
try_catch body handler w = handled handler (body w)

unfoldable pub pk_try : M (Unit {0}) → M (Unit {0})
pk_try expr = try_catch expr (λ _. pure tt)

unfoldable pub pk_tx_try : ℕ → M (Unit {0}) → M (Unit {0})
unfolding tx post_error
pk_tx_try handle expr = try_catch expr (λ message. tx handle >>= λ t. post_error t message)

-- A handle is 0 for nullptr.
unfoldable pub pk_manager_destroy : ℕ → M (Unit {0})
unfolding delete_manager mgr
pk_manager_destroy zero = pure tt
pk_manager_destroy (suc p) = mgr (suc p) >>= λ _. delete_manager (suc p)

unfoldable pub pk_transaction_destroy : ℕ → M (Unit {0})
unfolding tx
pk_transaction_destroy zero = pure tt
pk_transaction_destroy (suc p) = do _ ← tx (suc p); delete_bridge (suc p)

-- `initialize_api_dl` is Dart_InitializeApiDL, and `api_data` the address of the table that it reads.
abbrev pub pk_bridge_init : (ℕ → M (Unit {0})) → ℕ → M (Unit {0})
pk_bridge_init initialize_api_dl api_data = initialize_api_dl api_data

module _ (bus : SystemBus) where
  unfoldable pub pk_manager_create : ℕ → M ℕ
  unfolding new_manager
  pk_manager_create events_port = try_catch (new_manager bus events_port) (λ _. pure 0)

  unfoldable pub pk_manager_read_properties : ℕ → M (Unit {0})
  unfolding pk_try mgr read_properties
  pk_manager_read_properties handle =
      pk_try (mgr handle >>= λ m. (manager_methods bus handle m).read_properties)

  unfoldable pub pk_transaction_create : ℕ → ℕ → M ℕ
  unfolding mgr create_transaction_bridge
  pk_transaction_create manager tx_port =
      try_catch
        (mgr manager >>= λ m. (manager_methods bus manager m).create_transaction_bridge tx_port)
        (λ _. pure 0)

  unfoldable pub pk_transaction_set_hints : ℕ → Option (List ℕ) → Bool → M (Unit {0})
  unfolding pk_tx_try tx set_hints c_string
  pk_transaction_set_hints handle locale interactive = pk_tx_try handle (do
    t ← tx handle
    l ← lift (elim locale [ none ↦ returned (codes "en_US.UTF-8") | some p ↦ c_string p ])
    (transaction_methods bus t).set_hints l interactive)
