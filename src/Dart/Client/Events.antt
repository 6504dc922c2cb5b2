-- ===== src/Dart/Client/Events.antt =====
-- From the daemon's signals and properties to the client's events: native/src/pk_manager.cpp,
-- lib/src/internal/dispatcher.dart and lib/src/packagekit_client.dart together.
use packagekit_dart.Base.{
  ℕ, ◌≡◌, refl, ap, ◌∙◌, Option, none, some, suc, Bool, false, find_new, arith, ◌⊎◌, inl, inr, List,
  [], ◌∷◌, ◌++◌, map, fold, ==_iff, ◌==◌, true,
}
use packagekit_dart.Glaze.RoundTrip.{FitsFields}
use packagekit_dart.PkTypes.{meta, pk_manager_props, PkManagerProps}
use packagekit_dart.Bus.{
  ◌>>=◌ as ◌>>>=◌, M, after, SystemBus, PkManager, World, returned, thrown, raised, undefined,
  StdException, Outcome-cases,
}
use packagekit_dart.PkTransaction.Payloads.{struct, payload_bytes, with_payloads}
use packagekit_dart.PkManager.{ManagerSignal, on_manager_signal, read_properties, new_manager}
use packagekit_dart.PkBridge.{mgr, pk_try, pk_manager_create, pk_manager_read_properties}
use packagekit_dart.PkManager.Laws.{
  signal_messages, on_manager_signal_lem, Answers, property_answers, calls_of, read_properties_lem,
}
use packagekit_dart.Dart.Core.{Uint8List, value, of_bytes, ◌>>=◌}
use packagekit_dart.Dart.Records.{PkManagerProps as DartProps}
use packagekit_dart.Dart.Codec.Meaning.{to_dart}
use packagekit_dart.Dart.Dispatcher.Session.{inbox, inbox-append}
use packagekit_dart.Dart.ManagerEvents.{dispatch_manager_event, manager_props}
use packagekit_dart.Dart.ManagerEvents.Delivery.{
  FitsSignal, signal_events, dispatch_signal, dispatch_props,
}
use packagekit_dart.Dart.Client.{
  PkClient, connect, props_event, on_manager_event, on_event, unless_thrown,
}

inbox_same :
    (port : ℕ) (messages : List (List ℕ))
    → inbox port (map (λ bytes. (port, bytes)) messages) ≡ map of_bytes messages
inbox_same port [] = refl
inbox_same port (m ∷ ms) =
    let same : (port == port) ≡ true = (==_iff port port).1 refl in
    rw same (ap (◌∷◌ (of_bytes m)) (inbox_same port ms))

map-map-of_bytes :
    {A : Type 0} (f : Uint8List → A) (ms : List (List ℕ))
    → map f (map of_bytes ms) ≡ map (λ m. f (of_bytes m)) ms
map-map-of_bytes f [] = refl
map-map-of_bytes f (m ∷ ms) = ap (◌∷◌ (f (of_bytes m))) (map-map-of_bytes f ms)

inbox_fresh :
    (port : ℕ) (w : World) (messages : List (List ℕ))
    → inbox port w.posts ≡ []
    → inbox port (w.posts ++ map (λ bytes. (port, bytes)) messages) ≡ map of_bytes messages
inbox_fresh port w messages fresh =
    inbox-append port w.posts _ ∙ rw fresh (inbox_same port messages)

-- If no message was posted to the manager's port before, the messages of a daemon signal whose
-- network state fits 32 bits dispatch to the signal's event: one for UpdatesChanged,
-- RepoListChanged and NetworkStateChanged, none for TransactionListChanged.
pub manager_signal_delivery :
    (manager : PkManager) (s : ManagerSignal) (w : World)
    → inbox manager.events_port w.posts ≡ []
    → FitsSignal s
    → map dispatch_manager_event (inbox manager.events_port (on_manager_signal manager s w).1.posts)
      ≡ signal_events s
manager_signal_delivery manager s w fresh fits =
    ap (λ r. map dispatch_manager_event (inbox manager.events_port r.1.posts))
      (on_manager_signal_lem manager s w)
    ∙ ap (map dispatch_manager_event) (inbox_fresh manager.events_port w (signal_messages s) fresh)
    ∙ map-map-of_bytes dispatch_manager_event (signal_messages s)
    ∙ dispatch_signal s fits

on_props :
    (p : PkManagerProps) (a : DartProps) (c : PkClient)
    → FitsFields (meta pk_manager_props) p
    → to_dart pk_manager_props p ≡ value a
    → on_manager_event (of_bytes (payload_bytes (struct pk_manager_props p))) c
      ≡ record c { props = some a; daemon_events = c.daemon_events ++ (props_event a ∷ []) }
unfolding on_manager_event on_event
on_props p a c fits e =
    ap (unless_thrown c)
      (dispatch_props p fits ∙ ap (λ r. r >>= λ props. value (some (manager_props props))) e)

-- If the daemon answers each property with its value, the values fit their wire types and convert
-- to Dart values, and no message was posted to the manager's port before, then the client that
-- receives what reading the properties posts has them as its property snapshot and one more event
-- with them.
pub properties_delivery :
    (bus : SystemBus) (manager : PkManager) (p : PkManagerProps) (a : DartProps) (c : PkClient)
    (w : World)
    → Answers bus w.calls (property_answers p)
    → FitsFields (meta pk_manager_props) p
    → to_dart pk_manager_props p ≡ value a
    → inbox manager.events_port w.posts ≡ []
    → fold
        (λ client msg. on_manager_event msg client)
        c
        (inbox manager.events_port (read_properties bus manager w).1.posts)
      ≡ record c { props = some a; daemon_events = c.daemon_events ++ (props_event a ∷ []) }
properties_delivery bus manager p a c w answers fits e fresh =
    ap
      (λ r.
        fold (λ client msg. on_manager_event msg client) c (inbox manager.events_port r.1.posts))
      (read_properties_lem bus manager p w answers)
    ∙ ap (fold (λ client msg. on_manager_event msg client) c)
        (inbox_fresh manager.events_port w (payload_bytes (struct pk_manager_props p) ∷ []) fresh)
    ∙ on_props p a c fits e

-- The client that `connect` makes.
abbrev pub connected : ℕ → ℕ → Bool → PkClient
connected handle port interactive = record {
  manager_handle = handle;
  events_port = port;
  interactive = interactive;
  props = none;
  daemon_events = [];
  is_closed = false;
}

-- `w` with a manager at its next address.
abbrev pub with_manager : ℕ → World → World
with_manager port w = record w {
  managers = (suc w.next_address, record { events_port = port }) ∷ w.managers;
  next_address = suc w.next_address;
}

-- Suppose that the daemon answers each property with its value. If the system bus can be reached,
-- connecting makes a manager, returns the client that holds it, and posts the properties to the
-- client's port. If an error is thrown, connecting fails and changes nothing. If another
-- exception is raised, or making the connection is undefined behaviour, the same goes for
-- connecting.
pub connect_lem :
    (bus : SystemBus) (port : ℕ) (interactive : Bool) (p : PkManagerProps) (w : World)
    → Answers bus w.calls (property_answers p)
    → ((bus.connects ≡ returned tt)
        × (connect bus port interactive w ≡ (
          returned (some (connected (suc w.next_address) port interactive)),
          with_payloads port
              (struct pk_manager_props p ∷ [])
              (record (with_manager port w) { calls = w.calls ++ calls_of (property_answers p) }),
        )))
      ⊎ ((e : List ℕ) × (bus.connects ≡ thrown e)
          × (connect bus port interactive w ≡ (returned none, w)))
      ⊎ ((x : StdException) × (bus.connects ≡ raised x)
          × (connect bus port interactive w ≡ (raised x, w)))
      ⊎ ((bus.connects ≡ undefined) × ((connect bus port interactive w).0 ≡ undefined))
unfolding connect pk_manager_create new_manager pk_manager_read_properties pk_try mgr
connect_lem bus port interactive p w answers = elim (Outcome-cases bus.connects) [
  | inl (u, e) ↦
      let not_null : (suc w.next_address == 0) ≡ false = ground arith in
      let m : PkManager = record { events_port = port } in
      inl (
        e,
        rw
            (
              e,
              not_null,
              find_new (suc w.next_address) m w.managers,
              read_properties_lem bus m p (with_manager port w) answers,
            )
            refl,
      )
  | inr (inl (e, h)) ↦ inr (inl (e, h, rw h refl))
  | inr (inr (inl (x, h))) ↦ inr (inr (inl (x, h, rw h refl)))
  | inr (inr (inr h)) ↦ inr (inr (inr (h, rw h refl)))
]

-- The isolate hands the messages of the events port to the client, if there is one.
abbrev pub drain_events : ℕ → Option PkClient → M (Option PkClient)
drain_events port none w = (returned none, w)
drain_events port (some c) w =
    (returned (some (fold (λ client msg. on_manager_event msg client) c (inbox port w.posts))), w)

-- If the system bus can be reached, the daemon answers each property with its value, the values fit
-- their wire types and convert to Dart values, and nothing was posted to the port before: connecting
-- and handling the messages gives a client that has the daemon's properties, and one event with
-- them.
pub connect-properties :
    (bus : SystemBus) (port : ℕ) (interactive : Bool) (p : PkManagerProps) (a : DartProps)
    (w : World)
    → bus.connects ≡ returned tt
    → Answers bus w.calls (property_answers p)
    → FitsFields (meta pk_manager_props) p
    → to_dart pk_manager_props p ≡ value a
    → inbox port w.posts ≡ []
    → (connect bus port interactive >>>= drain_events port) w ≡ (
      returned (
          some (record (connected (suc w.next_address) port interactive) {
            props = some a;
            daemon_events = props_event a ∷ [];
          })),
      with_payloads port
          (struct pk_manager_props p ∷ [])
          (record (with_manager port w) { calls = w.calls ++ calls_of (property_answers p) }),
    )
connect-properties bus port interactive p a w reached answers fits e fresh =
    elim (connect_lem bus port interactive p w answers) [
      | inl (_, made) ↦
          let c = connected (suc w.next_address) port interactive in
          let last =
            with_payloads port (struct pk_manager_props p ∷ [])
              (record (with_manager port w) { calls = w.calls ++ calls_of (property_answers p) }) in
          ap (λ x. after (drain_events port) x.0 x.1) made
          ∙ ap
              (λ ms.
                (returned (some (fold (λ client msg. on_manager_event msg client) c ms)), last))
              (inbox_fresh port w (payload_bytes (struct pk_manager_props p) ∷ []) fresh)
          ∙ ap (λ client. (returned (some client), last)) (on_props p a c fits e)
      | inr (inl (_, failed, _)) ↦ absurd (cc (reached, failed))
      | inr (inr (inl (_, raised_, _))) ↦ absurd (cc (reached, raised_))
      | inr (inr (inr (odd, _))) ↦ absurd (cc (reached, odd))
    ]
