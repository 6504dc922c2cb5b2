-- ===== src/Dart/Dispatcher.antt =====
-- lib/src/internal/dispatcher.dart: TransactionDispatcher. A stream is what was added to it; the
-- microtasks that `dispatch` schedules are counted, and run when the event that scheduled them ends.
pub mod Delivery
pub mod Session
pub mod Ending
pub mod Closing
pub mod Finishing
pub mod Malformed
use packagekit_dart.Base.{
  ℕ, zero, suc, ◌+◌, Bool, true, false, List, [], ◌∷◌, ◌++◌, ltb, ◌==◌, if◌then◌else◌,
}
use packagekit_dart.PkTypes.{
  pk_package, pk_progress, pk_details, pk_update_detail, pk_repo_detail, pk_files, pk_error_code,
  pk_message, pk_eula_required, pk_repo_sig_required, pk_require_restart,
}
use packagekit_dart.Dart.Core.{
  DartError, Result, value, throws, range_error, state_error, ◌>>=◌, Uint8List, view_bytes,
}
use packagekit_dart.Dart.Enums.PkExit
use packagekit_dart.Dart.Enums.PkExit.{PkExit}
use packagekit_dart.Dart.Package.{PkPackage, PkPackageDetail}
use packagekit_dart.Dart.Records.{
  PkUpdateDetail, PkFiles, PkMessage, PkErrorCode, PkRequireRestart, PkRepoDetail, PkEulaRequired,
  PkRepoSigRequired, PkFinished, PkProgress,
}
use packagekit_dart.Dart.Codec.{struct_type, finished_type, decode}

pub record PkTransactionResult : Type 0 where
  pub exit : PkExit
  pub runtime_ms : ℕ

-- The exceptions of lib/src/exceptions.dart, by what their messages are made from.
pub data PkException : Type 0 where
  internal_decode_error : DartError → PkException
  transaction_failed : PkExit → ℕ → PkException
  service_unavailable : PkException

pub data Completer : Type 0 where
  pending : Completer
  completed : PkTransactionResult → Completer
  failed : PkException → Completer

pub record StreamController (A : Type 0) : Type 0 where
  pub events : List A
  pub is_closed : Bool

abbrev pub new_stream : {A : Type 0} → StreamController A
new_stream = record { events = []; is_closed = false }

-- StreamController.add: a StateError after close.
abbrev pub add : {A : Type 0} → StreamController A → A → Result (StreamController A)
add s a =
    if s.is_closed then throws state_error else value (record s { events = s.events ++ (a ∷ []) })

-- `if (!c.isClosed) c.close()`.
abbrev pub close_stream : {A : Type 0} → StreamController A → StreamController A
close_stream s = if s.is_closed then s else record s { is_closed = true }

pub record Dispatcher : Type 0 where
  pub packages : StreamController PkPackage
  pub details : StreamController PkPackageDetail
  pub update_details : StreamController PkUpdateDetail
  pub repo_details : StreamController PkRepoDetail
  pub files : StreamController PkFiles
  pub progress : StreamController PkProgress
  pub messages : StreamController PkMessage
  pub eula_required : StreamController PkEulaRequired
  pub repo_sig_required : StreamController PkRepoSigRequired
  pub require_restart : StreamController PkRequireRestart
  pub errors : StreamController PkErrorCode
  pub done : Completer
  pub finished : Bool
  pub scheduled_closes : ℕ

abbrev pub new_dispatcher : Dispatcher
new_dispatcher = record {
  packages = new_stream;
  details = new_stream;
  update_details = new_stream;
  repo_details = new_stream;
  files = new_stream;
  progress = new_stream;
  messages = new_stream;
  eula_required = new_stream;
  repo_sig_required = new_stream;
  require_restart = new_stream;
  errors = new_stream;
  done = pending;
  finished = false;
  scheduled_closes = 0;
}

unfoldable pub close : Dispatcher → Dispatcher
close d = record {
  packages = close_stream d.packages;
  details = close_stream d.details;
  update_details = close_stream d.update_details;
  repo_details = close_stream d.repo_details;
  files = close_stream d.files;
  progress = close_stream d.progress;
  messages = close_stream d.messages;
  eula_required = close_stream d.eula_required;
  repo_sig_required = close_stream d.repo_sig_required;
  require_restart = close_stream d.require_restart;
  errors = close_stream d.errors;
  done = d.done;
  finished = true;
  scheduled_closes = d.scheduled_closes;
}

-- `if (!done.isCompleted)`, then the given completion.
abbrev pub complete_once : Completer → Completer → Completer
complete_once pending c = c
complete_once old c = old

abbrev pub completion : PkExit → ℕ → Completer
completion PkExit.success runtime_ms =
    completed (record { exit = PkExit.success; runtime_ms = runtime_ms })
completion exit runtime_ms = failed (transaction_failed exit runtime_ms)

-- `msg[0]`.
abbrev pub first_byte : List ℕ → Result ℕ
first_byte [] = throws range_error
first_byte (b ∷ bs) = value b

unfoldable pub on_finished : PkFinished → Dispatcher → Dispatcher
on_finished f d = record d {
  done = complete_once d.done (completion (PkExit.from_int f.exit_code) f.runtime_ms);
}

schedule_close : Dispatcher → Dispatcher
schedule_close d = record d { scheduled_closes = d.scheduled_closes + 1 }

-- The switch inside the `try`.
unfoldable pub dispatch_on : ℕ → Uint8List → Dispatcher → Result Dispatcher
unfolding on_finished schedule_close
dispatch_on disc msg d =
    if disc == 0x01
    then (do
      a ← decode (struct_type pk_package) msg 1
      s ← add d.packages a
      value (record d { packages = s }))
    else if disc == 0x02
    then (do
      a ← decode (struct_type pk_progress) msg 1
      s ← add d.progress a
      value (record d { progress = s }))
    else if disc == 0x03
    then (do
      a ← decode (struct_type pk_details) msg 1
      s ← add d.details a
      value (record d { details = s }))
    else if disc == 0x04
    then (do
      a ← decode (struct_type pk_update_detail) msg 1
      s ← add d.update_details a
      value (record d { update_details = s }))
    else if disc == 0x05
    then (do
      a ← decode (struct_type pk_repo_detail) msg 1
      s ← add d.repo_details a
      value (record d { repo_details = s }))
    else if disc == 0x06
    then (do
      a ← decode (struct_type pk_files) msg 1
      s ← add d.files a
      value (record d { files = s }))
    else if disc == 0x07
    then (do
      a ← decode (struct_type pk_error_code) msg 1
      s ← add d.errors a
      value (record d { errors = s }))
    else if disc == 0x08
    then (do
      a ← decode (struct_type pk_message) msg 1
      s ← add d.messages a
      value (record d { messages = s }))
    else if disc == 0x09
    then (do
      a ← decode (struct_type pk_eula_required) msg 1
      s ← add d.eula_required a
      value (record d { eula_required = s }))
    else if disc == 0x0a
    then (do
      a ← decode (struct_type pk_repo_sig_required) msg 1
      s ← add d.repo_sig_required a
      value (record d { repo_sig_required = s }))
    else if disc == 0x0b
    then (do
      a ← decode (struct_type pk_require_restart) msg 1
      s ← add d.require_restart a
      value (record d { require_restart = s }))
    else if disc == 0x20
    then (do f ← decode finished_type msg 1; value (on_finished f d))
    else if disc == 0xff
    then value (schedule_close d)
    else value d

-- The `catch`. Nothing in the `try` changes the dispatcher before it throws.
unfoldable pub caught : Dispatcher → Result Dispatcher → Dispatcher
unfolding schedule_close
caught d (value d') = d'
caught d (throws e) = record (schedule_close d) {
  done = complete_once d.done (failed (internal_decode_error e));
}

unfoldable pub dispatch : Uint8List → Dispatcher → Dispatcher
unfolding dispatch_on caught
dispatch msg d = caught d (do disc ← first_byte (view_bytes msg); dispatch_on disc msg d)

close_times : ℕ → Dispatcher → Dispatcher
close_times zero d = d
close_times (suc n) d = close_times n (close d)

-- The microtask queue, emptied.
unfoldable pub run_microtasks : Dispatcher → Dispatcher
unfolding close_times close
run_microtasks d = record (close_times d.scheduled_closes d) { scheduled_closes = 0 }
