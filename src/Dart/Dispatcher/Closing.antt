-- ===== src/Dart/Dispatcher/Closing.antt =====
-- The result and the streams of the dispatcher under any messages, well formed or not.
use packagekit_dart.Base.{ℕ, zero, suc, ◌≡◌, ◌≢◌, refl, sym, ◌∙◌, List, [], ◌∷◌, arith}
use packagekit_dart.Dart.Core.{Result, value, throws, Uint8List, view_bytes, ◌>>=◌}
use packagekit_dart.Dart.Dispatcher.{
  Dispatcher, Completer, pending, failed, internal_decode_error, complete_once, on_finished,
  schedule_close, caught, dispatch_on, dispatch, first_byte, close, run_microtasks, close_times,
}
use packagekit_dart.Dart.Dispatcher.Session.{receive, receive_all}

-- The kept result.
abbrev pub KeepsDone : Dispatcher → Result Dispatcher → Type 0
KeepsDone d (value d') = d'.done ≡ d.done
KeepsDone d (throws e) = Unit {0}

module _ (msg : Uint8List) (d : Dispatcher) (set : d.done ≢ pending) where
  complete_once_set : (c : Completer) → complete_once d.done c ≡ d.done
  complete_once_set c = ground arith

  dispatch_on-KeepsDone : (disc : ℕ) → KeepsDone d (dispatch_on disc msg d)
  unfolding dispatch_on on_finished schedule_close
  dispatch_on-KeepsDone disc = ground arith

  caught-KeepsDone : (r : Result Dispatcher) → KeepsDone d r → (caught d r).done ≡ d.done
  unfolding caught
  caught-KeepsDone (value d') h = h
  caught-KeepsDone (throws e) h = complete_once_set (failed (internal_decode_error e))

  dispatch_first : (r : Result ℕ) → (caught d (r >>= λ disc. dispatch_on disc msg d)).done ≡ d.done
  dispatch_first (value disc) =
      caught-KeepsDone (dispatch_on disc msg d) (dispatch_on-KeepsDone disc)
  dispatch_first (throws e) = caught-KeepsDone (throws e) tt

  -- A result that is there stays, whatever message comes: the future completes once at most.
  pub dispatch-done : (dispatch msg d).done ≡ d.done
  unfolding dispatch
  dispatch-done = dispatch_first (first_byte (view_bytes msg))

close_times-done : (n : ℕ) (d : Dispatcher) → (close_times n d).done ≡ d.done
unfolding close_times close
close_times-done zero d = refl
close_times-done (suc n) d = close_times-done n (close d)

-- A result that is set stays as it is, whatever messages come, well formed or not, and however
-- many.
pub receive_all-done :
    (msgs : List Uint8List) (d : Dispatcher) → d.done ≢ pending → (receive_all msgs d).done ≡ d.done
unfolding receive run_microtasks
receive_all-done [] d h = refl
receive_all-done (m ∷ msgs) d h =
    let d' = receive m d in
    let kept : d'.done ≡ d.done =
      close_times-done (dispatch m d).scheduled_closes (dispatch m d) ∙ dispatch-done m d h in
    receive_all-done msgs d' (λ e. h (sym kept ∙ e)) ∙ kept
