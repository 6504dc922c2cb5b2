-- ===== src/Dart/Dispatcher/Finishing.antt =====
-- The finished flag of the dispatcher.
use packagekit_dart.Base.{ℕ, zero, suc, ◌≡◌, refl, true, arith}
use packagekit_dart.Dart.Core.{Uint8List, Result, value, throws, view_bytes, ◌>>=◌}
use packagekit_dart.Dart.Dispatcher.{
  Dispatcher, dispatch, dispatch_on, caught, first_byte, on_finished, schedule_close, close,
  close_times, run_microtasks,
}

KeepsFinished : Dispatcher → Result Dispatcher → Type 0
KeepsFinished d (value d') = d'.finished ≡ d.finished
KeepsFinished d (throws e) = Unit {0}

module _ (msg : Uint8List) (d : Dispatcher) where
  dispatch_on-KeepsFinished : (disc : ℕ) → KeepsFinished d (dispatch_on disc msg d)
  unfolding dispatch_on on_finished schedule_close KeepsFinished
  dispatch_on-KeepsFinished disc = ground arith

  caught-KeepsFinished :
      (r : Result Dispatcher) → KeepsFinished d r → (caught d r).finished ≡ d.finished
  unfolding caught schedule_close KeepsFinished
  caught-KeepsFinished (value d') h = h
  caught-KeepsFinished (throws e) h = refl

  finished_first :
      (r : Result ℕ) → (caught d (r >>= λ disc. dispatch_on disc msg d)).finished ≡ d.finished
  unfolding KeepsFinished
  finished_first (value disc) =
      caught-KeepsFinished (dispatch_on disc msg d) (dispatch_on-KeepsFinished disc)
  finished_first (throws e) = caught-KeepsFinished (throws e) tt

  -- A message finishes the dispatcher in the microtask that it schedules, not in itself.
  pub dispatch-finished : (dispatch msg d).finished ≡ d.finished
  unfolding dispatch
  dispatch-finished = finished_first (first_byte (view_bytes msg))

close_times-finished :
    (n : ℕ) (d : Dispatcher) → d.finished ≡ true → (close_times n d).finished ≡ true
unfolding close_times close
close_times-finished zero d h = h
close_times-finished (suc n) d h = close_times-finished n (close d) refl

pub run_microtasks-finished :
    (d : Dispatcher) → d.finished ≡ true → (run_microtasks d).finished ≡ true
unfolding run_microtasks
run_microtasks-finished d h = close_times-finished d.scheduled_closes d h
