-- ===== src/Dart/Dispatcher/Session.antt =====
-- A whole transaction: the messages of its signals, from the native handlers to the Dart streams.
use packagekit_dart.Base.{
  ℕ, ◌≡◌, ◌≢◌, refl, sym, ap, ◌∙◌, true, false, List, [], ◌∷◌, ◌++◌, map, arith, fold, ◌==◌, ==_iff,
  if◌then◌else◌,
}
use packagekit_dart.Glaze.RoundTrip.{FitsFields}
use packagekit_dart.PkTypes.{
  StructType, pk_package, pk_progress, pk_details, pk_update_detail, pk_repo_detail, pk_files,
  pk_error_code, pk_message, pk_eula_required, pk_repo_sig_required, pk_require_restart,
  pk_manager_props, Struct, meta,
}
use packagekit_dart.PkTransaction.Payloads.{Payload, struct, payload_bytes}
use packagekit_dart.Dart.Core.{value, ◌>>=◌, Uint8List, of_bytes}
use packagekit_dart.Dart.Codec.{DartStruct}
use packagekit_dart.Dart.Codec.Meaning.{to_dart}
use packagekit_dart.Dart.Dispatcher.{
  StreamController, Dispatcher, caught, dispatch, run_microtasks, close_times,
}
use packagekit_dart.Dart.Dispatcher.Delivery.{add_event, deliver, dispatch-payload_bytes}

-- The isolate's event loop takes one message, and then empties the microtask queue.
unfoldable pub receive : Uint8List → Dispatcher → Dispatcher
receive msg d = run_microtasks (dispatch msg d)

abbrev pub receive_all : List Uint8List → Dispatcher → Dispatcher
receive_all msgs d = fold (λ d msg. receive msg d) d msgs

-- A value for the stream of its type.
pub data Event : Type 0 where
  event : (t : StructType) → DartStruct t → Event

-- The payloads are structs of a transaction whose members fit their wire types, and these are their
-- Dart values.
pub data Carries : List Payload → List Event → Type 0 where
  nothing : Carries [] []
  also :
      {ps : List Payload} {es : List Event} (t : StructType) (v : Struct t) (a : DartStruct t)
      → t ≢ pk_manager_props
      → FitsFields (meta t) v
      → to_dart t v ≡ value a
      → Carries ps es
      → Carries (struct t v ∷ ps) (event t a ∷ es)

abbrev push : {A : Type 0} → StreamController A → A → StreamController A
push s a = record s { events = s.events ++ (a ∷ []) }

-- `d` with the value added to its stream.
abbrev pub record_event : Event → Dispatcher → Dispatcher
record_event (event pk_package a) d = record d { packages = push d.packages a }
record_event (event pk_progress a) d = record d { progress = push d.progress a }
record_event (event pk_details a) d = record d { details = push d.details a }
record_event (event pk_update_detail a) d = record d { update_details = push d.update_details a }
record_event (event pk_repo_detail a) d = record d { repo_details = push d.repo_details a }
record_event (event pk_files a) d = record d { files = push d.files a }
record_event (event pk_error_code a) d = record d { errors = push d.errors a }
record_event (event pk_message a) d = record d { messages = push d.messages a }
record_event (event pk_eula_required a) d = record d { eula_required = push d.eula_required a }
record_event (event pk_repo_sig_required a) d = record d {
  repo_sig_required = push d.repo_sig_required a;
}
record_event (event pk_require_restart a) d = record d {
  require_restart = push d.require_restart a;
}
record_event (event pk_manager_props a) d = d

abbrev pub record_events : List Event → Dispatcher → Dispatcher
record_events es d = fold (λ d e. record_event e d) d es

-- No stream is closed, and no close is scheduled.
abbrev pub IsOpen : Dispatcher → Type 0
IsOpen d =
    (d.scheduled_closes ≡ 0)
    × (d.packages.is_closed ≡ false)
    × (d.progress.is_closed ≡ false)
    × (d.details.is_closed ≡ false)
    × (d.update_details.is_closed ≡ false)
    × (d.repo_details.is_closed ≡ false)
    × (d.files.is_closed ≡ false)
    × (d.errors.is_closed ≡ false)
    × (d.messages.is_closed ≡ false)
    × (d.eula_required.is_closed ≡ false)
    × (d.repo_sig_required.is_closed ≡ false)
    × (d.require_restart.is_closed ≡ false)

add_event_open :
    (t : StructType) (a : DartStruct t) (d : Dispatcher)
    → t ≢ pk_manager_props
    → IsOpen d
    → add_event t a d ≡ value (record_event (event t a) d)
add_event_open pk_package a d n o = rw o.1
add_event_open pk_progress a d n o = rw o.2
add_event_open pk_details a d n o = rw o.3
add_event_open pk_update_detail a d n o = rw o.4
add_event_open pk_repo_detail a d n o = rw o.5
add_event_open pk_files a d n o = rw o.6
add_event_open pk_error_code a d n o = rw o.7
add_event_open pk_message a d n o = rw o.8
add_event_open pk_eula_required a d n o = rw o.9
add_event_open pk_repo_sig_required a d n o = rw o.10
add_event_open pk_require_restart a d n o = rw o.11
add_event_open pk_manager_props a d n o = absurd (n refl)

pub record_event-IsOpen :
    (t : StructType) (a : DartStruct t) (d : Dispatcher)
    → IsOpen d
    → IsOpen (record_event (event t a) d)
record_event-IsOpen pk_package a d o = o
record_event-IsOpen _ a d o = o

run_microtasks_idle : (d : Dispatcher) → d.scheduled_closes ≡ 0 → run_microtasks d ≡ d
unfolding run_microtasks
run_microtasks_idle d h =
    ap (λ n. record (close_times n d) { scheduled_closes = 0 }) h
    ∙ ap (λ n. record d { scheduled_closes = n }) (sym h)

deliver_struct :
    (t : StructType) (v : Struct t) (d : Dispatcher)
    → t ≢ pk_manager_props
    → deliver (struct t v) d ≡ caught d (to_dart t v >>= λ a. add_event t a d)
deliver_struct pk_package v d n = refl
deliver_struct pk_manager_props v d n = absurd (n refl)
deliver_struct _ v d n = refl

abbrev pub message_of : Payload → Uint8List
message_of p = of_bytes (payload_bytes p)

pub receive_struct :
    (t : StructType) (v : Struct t) (a : DartStruct t) (d : Dispatcher)
    → t ≢ pk_manager_props
    → FitsFields (meta t) v
    → to_dart t v ≡ value a
    → IsOpen d
    → receive (message_of (struct t v)) d ≡ record_event (event t a) d
unfolding receive
receive_struct t v a d n h e o =
    rw
      (dispatch-payload_bytes d (struct t v) h, deliver_struct t v d n, e, add_event_open t a d n o)
      (unfold caught in
        run_microtasks_idle (record_event (event t a) d) (record_event-IsOpen t a d o).0)

-- A dispatcher that is open receives payloads as events, each on the stream of its type.
pub receive_all-Carries :
    {ps : List Payload} {es : List Event} (d : Dispatcher)
    → Carries ps es
    → IsOpen d
    → receive_all (map message_of ps) d ≡ record_events es d
receive_all-Carries d nothing o = refl
receive_all-Carries {ps = struct _ _ ∷ ps} d (also t v a n h e rest) o =
    ap (receive_all (map message_of ps)) (receive_struct t v a d n h e o)
    ∙ receive_all-Carries (record_event (event t a) d) rest (record_event-IsOpen t a d o)

pub receive_all-append :
    (xs ys : List Uint8List) (d : Dispatcher)
    → receive_all (xs ++ ys) d ≡ receive_all ys (receive_all xs d)
receive_all-append [] ys d = refl
receive_all-append (x ∷ xs) ys d = receive_all-append xs ys (receive x d)

-- The messages posted to one port.
abbrev pub inbox : ℕ → List (ℕ × List ℕ) → List Uint8List
inbox port [] = []
inbox port ((q, bytes) ∷ posts) =
    let rest = inbox port posts in if q == port then of_bytes bytes ∷ rest else rest

pub inbox-append :
    (port : ℕ) (xs ys : List (ℕ × List ℕ)) → inbox port (xs ++ ys) ≡ inbox port xs ++ inbox port ys
inbox-append port [] ys = refl
inbox-append port ((q, bytes) ∷ xs) ys = ground (arith, inbox-append port xs ys)

pub inbox-payloads :
    (port : ℕ) (ps : List Payload)
    → inbox port (map (λ p. (port, payload_bytes p)) ps) ≡ map message_of ps
inbox-payloads port [] = refl
inbox-payloads port (p ∷ ps) =
    let same : (port == port) ≡ true = (==_iff port port).1 refl in
    rw same (ap (◌∷◌ (message_of p)) (inbox-payloads port ps))
