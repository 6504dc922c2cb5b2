-- ===== src/Dart/Client/Waiting.antt =====
-- lib/src/packagekit_client.dart: the wait of `_loadProperties` for the first event that has the
-- daemon's properties, which a timer of ten seconds ends.
use packagekit_dart.Base.{
  ◌≡◌, refl, ap, ◌∙◌, Bool, true, false, ◌||◌, Option, none, some, List, [], ◌∷◌, ◌++◌, map, length,
  drop, drop-length-append, append-nil, if◌then◌else◌, Bool-cases, inl, inr,
}
use packagekit_dart.Dart.Core.{Uint8List, Result, value, throws}
use packagekit_dart.Dart.ManagerEvents.{
  ManagerEvent, manager_props, manager_updates_changed, manager_repo_list_changed,
  manager_network_state_changed, dispatch_manager_event,
}
use packagekit_dart.Dart.Client.{
  PkClient, PkDaemonEvent, props_event, updates_changed_event, repo_list_changed_event,
  network_state_changed_event, on_manager_event, on_event, unless_thrown,
}

-- What the isolate's event loop hands to the client during the wait.
pub data Occurrence : Type 0 where
  arrives : Uint8List → Occurrence
  times_out : Occurrence

-- The client, and whether the completer is completed.
pub record Wait : Type 0 where
  pub client : PkClient
  pub is_completed : Bool

-- e is PkPropsEvent.
abbrev is_props : PkDaemonEvent → Bool
is_props (props_event p) = true
is_props _ = false

abbrev any_props : List PkDaemonEvent → Bool
any_props [] = false
any_props (e ∷ es) = is_props e || any_props es

-- The events that a stream was added.
abbrev added : PkClient → PkClient → List PkDaemonEvent
added c c' = drop (length c.daemon_events) c'.daemon_events

unfoldable pub occur : Occurrence → Wait → Wait
unfolding on_manager_event
occur (arrives msg) s =
    let c = on_manager_event msg s.client in
    record { client = c; is_completed = s.is_completed || any_props (added s.client c) }
occur times_out s = record s { is_completed = true }

-- await: `none` while nothing has completed the completer.
unfoldable pub wait_for : List Occurrence → Wait → Option Wait
unfolding occur
wait_for [] s = if s.is_completed then some s else none
wait_for (o ∷ os) s = let rest = wait_for os (occur o s) in if s.is_completed then some s else rest

abbrev client_of : Option Wait → Option PkClient
client_of none = none
client_of (some s) = some s.client

-- The whole of `_loadProperties` after the request for the properties.
unfoldable pub load_properties : List Occurrence → PkClient → Option PkClient
unfolding wait_for
load_properties os c = client_of (wait_for os (record { client = c; is_completed = false }))

abbrev pub is_snapshot : Result (Option ManagerEvent) → Bool
is_snapshot (value (some (manager_props p))) = true
is_snapshot _ = false

-- A message with the daemon's properties.
abbrev pub has_properties : Uint8List → Bool
has_properties msg = is_snapshot (dispatch_manager_event msg)

-- The client after the messages, up to the first with the daemon's properties.
unfoldable pub until_properties : List Uint8List → PkClient → PkClient
unfolding on_manager_event
until_properties [] c = c
until_properties (msg ∷ msgs) c =
    let c' = on_manager_event msg c in
    let rest = until_properties msgs c' in if has_properties msg then c' else rest

drop-length : (es : List PkDaemonEvent) → drop (length es) es ≡ []
drop-length [] = refl
drop-length (e ∷ es) = drop-length es

added_lem :
    (c : PkClient) (r : Result (Option ManagerEvent))
    → any_props (added c (unless_thrown c r)) ≡ is_snapshot r
unfolding on_event
added_lem c (value none) = rw (drop-length c.daemon_events) refl
added_lem c (value (some (manager_props p))) =
    rw (drop-length-append c.daemon_events (props_event p ∷ [])) refl
added_lem c (value (some manager_updates_changed)) =
    rw (drop-length-append c.daemon_events (updates_changed_event ∷ [])) refl
added_lem c (value (some manager_repo_list_changed)) =
    rw (drop-length-append c.daemon_events (repo_list_changed_event ∷ [])) refl
added_lem c (value (some (manager_network_state_changed state))) =
    rw (drop-length-append c.daemon_events (network_state_changed_event state ∷ [])) refl
added_lem c (throws e) = rw (drop-length c.daemon_events) refl

wait_completed :
    (os : List Occurrence) (c : PkClient)
    → wait_for os (record { client = c; is_completed = true })
      ≡ some (record { client = c; is_completed = true })
unfolding wait_for
wait_completed [] c = refl
wait_completed (o ∷ os) c = refl

-- One message of the wait.
waiting : Bool → List Occurrence → PkClient → Option PkClient
waiting completed os c = client_of (wait_for os (record { client = c; is_completed = completed }))

load_properties-arrives :
    (msg : Uint8List) (os : List Occurrence) (c : PkClient)
    → load_properties (arrives msg ∷ os) c
      ≡ waiting (has_properties msg) os (on_manager_event msg c)
unfolding load_properties waiting on_manager_event
load_properties-arrives msg os c =
    ap
      (λ b. client_of (
        wait_for os
          (record { client = unless_thrown c (dispatch_manager_event msg); is_completed = b })))
      (added_lem c (dispatch_manager_event msg))

waiting-true : (os : List Occurrence) (c : PkClient) → waiting true os c ≡ some c
unfolding waiting
waiting-true os c = ap client_of (wait_completed os c)

load_properties-append :
    (msgs tail : List Uint8List) (os : List Occurrence) (c : PkClient)
    → ((c' : PkClient) → load_properties os c' ≡ some (until_properties tail c'))
    → load_properties (map arrives msgs ++ os) c ≡ some (until_properties (msgs ++ tail) c)
unfolding until_properties waiting load_properties
load_properties-append [] tail os c ends = ends c
load_properties-append (msg ∷ msgs) tail os c ends =
    load_properties-arrives msg (map arrives msgs ++ os) c
    ∙ elim (Bool-cases (has_properties msg)) [
      | inl found ↦ rw found (waiting-true (map arrives msgs ++ os) (on_manager_event msg c))
      | inr other ↦ rw other (load_properties-append msgs tail os (on_manager_event msg c) ends)
    ]

timer_ends : (rest : List Occurrence) (c : PkClient) → load_properties (times_out ∷ rest) c ≡ some c
unfolding load_properties waiting
timer_ends rest c = waiting-true rest c

-- Whatever messages come in, the wait of `connect` ends at the latest when its timer fires, with the
-- client that has handled the messages up to the first with the daemon's properties. If one with the
-- properties comes in before the timer fires, the wait ends at the latest with it.
pub load_properties-ends :
    (msgs : List Uint8List) (msg : Uint8List) (rest : List Occurrence) (c : PkClient)
    → has_properties msg ≡ true
    → (load_properties (map arrives msgs ++ (times_out ∷ rest)) c ≡ some (until_properties msgs c))
      × (load_properties (map arrives msgs ++ (arrives msg ∷ rest)) c
          ≡ some (until_properties (msgs ++ (msg ∷ [])) c))
unfolding until_properties
load_properties-ends msgs msg rest c found = (
  load_properties-append msgs [] (times_out ∷ rest) c (timer_ends rest)
      ∙ ap (λ ms. some (until_properties ms c)) (append-nil msgs),
  load_properties-append msgs (msg ∷ []) (arrives msg ∷ rest) c (λ c'.
      load_properties-arrives msg rest c' ∙ rw found (waiting-true rest (on_manager_event msg c'))),
)
