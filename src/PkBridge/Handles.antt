-- ===== src/PkBridge/Handles.antt =====
-- The addresses that native/src/pk_bridge.cpp hands out as handles.
use packagekit_dart.Base.{
  ℕ, suc, ◌≡◌, refl, sym, subst, some, ◌++◌, ◌⊎◌, inl, inr, codes, none, List, [], ◌∷◌, find, Below,
  Below-grow, find-Below, Option-cases, arith,
}
use packagekit_dart.Bus.{
  Outcome, returned, thrown, raised, undefined, Variant, object_path, PkManager, SystemBus, World,
  MethodCall, call_method,
}
use packagekit_dart.PkManager.{
  create_transaction, create_transaction_bridge, pk_service, pk_path, pk_iface,
}
use packagekit_dart.PkBridge.{mgr, pk_transaction_create}

abbrev pub create_call : MethodCall
create_call = record {
  path = codes pk_path;
  destination = pk_service;
  interface_name = pk_iface;
  method = "CreateTransaction";
  arguments = [];
}

-- No live object is above the last address handed out.
abbrev pub IsFresh : World → Type 0
IsFresh w = Below w.next_address w.transactions × Below w.next_address w.managers

-- `w` with the call, and a bridge for the proxy at the path that the daemon gave.
abbrev handed_out : ℕ → ℕ → List ℕ → World → World
handed_out manager port path w = record w {
  calls = w.calls ++ (create_call ∷ []);
  transactions =
      (suc w.next_address, record { connection = manager; path = path; port = port })
      ∷ w.transactions;
  next_address = suc w.next_address;
}

-- `w` with the call.
abbrev asked : World → World
asked w = record w { calls = w.calls ++ (create_call ∷ []) }

-- What creating a transaction comes to, by the daemon's answer.
abbrev pub creation : ℕ → ℕ → World → Outcome Variant → Outcome ℕ × World
creation manager port w (returned (object_path path)) =
    (returned (suc w.next_address), handed_out manager port path w)
creation manager port w (returned v) = (returned 0, asked w)
creation manager port w (thrown e) = (returned 0, asked w)
creation manager port w (raised x) = (raised x, asked w)
creation manager port w undefined = (undefined, asked w)

creation-IsFresh :
    (manager port : ℕ) (w : World) (o : Outcome Variant)
    → IsFresh w
    → IsFresh (creation manager port w o).1
creation-IsFresh manager port w (returned (object_path path)) fresh = (
  (
    omega arith,
    Below-grow w.next_address (suc w.next_address) w.transactions (omega arith) fresh.0,
  ),
  Below-grow w.next_address (suc w.next_address) w.managers (omega arith) fresh.1,
)
creation-IsFresh manager port w (returned v) fresh = fresh
creation-IsFresh manager port w (thrown e) fresh = fresh
creation-IsFresh manager port w (raised x) fresh = fresh
creation-IsFresh manager port w undefined fresh = fresh

create_by :
    (bus : SystemBus) (manager port : ℕ) (m : PkManager) (w : World) (o : Outcome Variant)
    → find manager w.managers ≡ some m
    → bus.answer w.calls create_call ≡ o
    → pk_transaction_create bus manager port w ≡ creation manager port w o
unfolding pk_transaction_create mgr create_transaction_bridge create_transaction call_method
create_by bus manager port m w (returned (object_path path)) there answered = rw (there, answered)
create_by bus manager port m w (returned v) there answered = rw (there, answered)
create_by bus manager port m w (thrown e) there answered = rw (there, answered)
create_by bus manager port m w (raised x) there answered = rw (there, answered)
create_by bus manager port m w undefined there answered = rw (there, answered)

create_gone :
    (bus : SystemBus) (manager port : ℕ) (w : World)
    → find manager w.managers ≡ none
    → pk_transaction_create bus manager port w ≡ (undefined, w)
unfolding pk_transaction_create mgr
create_gone bus manager port w gone = rw gone

-- Creating a transaction for a deleted manager is undefined behaviour, before any call is made. For a
-- manager that is there, CreateTransaction is called once, and nothing is posted. If the answer is
-- an object path, a handle is returned at which there is now a bridge with that path, the manager's
-- connection and the given port; if it is another value or an error, null is returned and no object
-- is made. An exception that is no sdbus::Error comes out, and undefined behaviour stays so. If no
-- object is above the last address handed out, that stays so, and the address of a new bridge had
-- no bridge.
pub pk_transaction_create_lem :
    (bus : SystemBus) (manager port : ℕ) (w : World)
    → IsFresh w
    → (((find manager w.managers ≡ none)
          × (pk_transaction_create bus manager port w ≡ (undefined, w)))
        ⊎ ((m : PkManager) × (find manager w.managers ≡ some m)
            × (pk_transaction_create bus manager port w
                ≡ creation manager port w (bus.answer w.calls create_call))))
      × IsFresh (pk_transaction_create bus manager port w).1
      × (find (suc w.next_address) w.transactions ≡ none)
pk_transaction_create_lem bus manager port w fresh =
    let unused =
      find-Below w.next_address (suc w.next_address) w.transactions fresh.0 (omega arith) in
    elim (Option-cases (find manager w.managers)) [
      | inl gone ↦
          let same = create_gone bus manager port w gone in
          (inl (gone, same), subst (λ r. IsFresh r.1) (sym same) fresh, unused)
      | inr (m, there) ↦
          let o = bus.answer w.calls create_call in
          let same = create_by bus manager port m w o there refl in
          (
            inr (m, there, same),
            subst (λ r. IsFresh r.1) (sym same) (creation-IsFresh manager port w o fresh),
            unused,
          )
    ]
