-- ===== src/Dart/Dispatcher/Malformed.antt =====
-- TransactionDispatcher of lib/src/internal/dispatcher.dart on messages that cannot be decoded.
use packagekit_dart.Base.{ℕ, ◌+◌, ◌≡◌, ◌≢◌, refl, ap, ◌∙◌, List, ◌∷◌, ◌++◌}
use packagekit_dart.Glaze.{encode}
use packagekit_dart.Glaze.RoundTrip.{FitsFields}
use packagekit_dart.PkTypes.{
  StructType, pk_package, pk_progress, pk_details, pk_update_detail, pk_repo_detail, pk_files,
  pk_error_code, pk_message, pk_eula_required, pk_repo_sig_required, pk_require_restart,
  pk_manager_props, Struct, meta,
}
use packagekit_dart.PkTransaction.Payloads.{discriminator}
use packagekit_dart.Dart.Core.{DartError, throws, ◌>>=◌, of_bytes}
use packagekit_dart.Dart.Codec.Cut.{decode_cut}
use packagekit_dart.Dart.Dispatcher.{
  Dispatcher, pending, failed, internal_decode_error, complete_once, caught, dispatch, close,
  close_times, schedule_close, run_microtasks,
}
use packagekit_dart.Dart.Dispatcher.Delivery.{add_event}
use packagekit_dart.Dart.Dispatcher.Session.{receive}

module _ (d : Dispatcher) where
  dispatch_cut :
      (t : StructType) (v : Struct t) (x : ℕ) (front back : List ℕ)
      → t ≢ pk_manager_props
      → FitsFields (meta t) v
      → encode (meta t) v ≡ front ++ (x ∷ back)
      → (e : DartError) × (dispatch (of_bytes (discriminator t ∷ front)) d ≡ caught d (throws e))
  unfolding dispatch
  dispatch_cut pk_package v x front back n h cut =
      let (e, bad) = decode_cut pk_package v (discriminator pk_package) x front back h cut in
      (e, ap (λ r. caught d (r >>= λ a. add_event pk_package a d)) bad)
  dispatch_cut pk_progress v x front back n h cut =
      let (e, bad) = decode_cut pk_progress v (discriminator pk_progress) x front back h cut in
      (e, ap (λ r. caught d (r >>= λ a. add_event pk_progress a d)) bad)
  dispatch_cut pk_details v x front back n h cut =
      let (e, bad) = decode_cut pk_details v (discriminator pk_details) x front back h cut in
      (e, ap (λ r. caught d (r >>= λ a. add_event pk_details a d)) bad)
  dispatch_cut pk_update_detail v x front back n h cut =
      let (e, bad) =
        decode_cut pk_update_detail v (discriminator pk_update_detail) x front back h cut in
      (e, ap (λ r. caught d (r >>= λ a. add_event pk_update_detail a d)) bad)
  dispatch_cut pk_repo_detail v x front back n h cut =
      let (e, bad) =
        decode_cut pk_repo_detail v (discriminator pk_repo_detail) x front back h cut in
      (e, ap (λ r. caught d (r >>= λ a. add_event pk_repo_detail a d)) bad)
  dispatch_cut pk_files v x front back n h cut =
      let (e, bad) = decode_cut pk_files v (discriminator pk_files) x front back h cut in
      (e, ap (λ r. caught d (r >>= λ a. add_event pk_files a d)) bad)
  dispatch_cut pk_error_code v x front back n h cut =
      let (e, bad) = decode_cut pk_error_code v (discriminator pk_error_code) x front back h cut in
      (e, ap (λ r. caught d (r >>= λ a. add_event pk_error_code a d)) bad)
  dispatch_cut pk_message v x front back n h cut =
      let (e, bad) = decode_cut pk_message v (discriminator pk_message) x front back h cut in
      (e, ap (λ r. caught d (r >>= λ a. add_event pk_message a d)) bad)
  dispatch_cut pk_eula_required v x front back n h cut =
      let (e, bad) =
        decode_cut pk_eula_required v (discriminator pk_eula_required) x front back h cut in
      (e, ap (λ r. caught d (r >>= λ a. add_event pk_eula_required a d)) bad)
  dispatch_cut pk_repo_sig_required v x front back n h cut =
      let (e, bad) =
        decode_cut pk_repo_sig_required v (discriminator pk_repo_sig_required) x front back h cut in
      (e, ap (λ r. caught d (r >>= λ a. add_event pk_repo_sig_required a d)) bad)
  dispatch_cut pk_require_restart v x front back n h cut =
      let (e, bad) =
        decode_cut pk_require_restart v (discriminator pk_require_restart) x front back h cut in
      (e, ap (λ r. caught d (r >>= λ a. add_event pk_require_restart a d)) bad)
  dispatch_cut pk_manager_props v x front back n h cut = absurd (n refl)

  ended_by_error :
      (e : DartError)
      → d.scheduled_closes ≡ 0
      → d.done ≡ pending
      → run_microtasks (caught d (throws e))
        ≡ record (close d) { done = failed (internal_decode_error e); scheduled_closes = 0 }
  unfolding run_microtasks caught schedule_close close
  ended_by_error e idle unset =
      ap
        (λ n.
          record (close_times (n + 1) (record d {
            scheduled_closes = n + 1;
            done = complete_once d.done (failed (internal_decode_error e));
          })) { scheduled_closes = 0 })
        idle
      ∙ ap
          (λ c. record (close d) {
            done = complete_once c (failed (internal_decode_error e));
            scheduled_closes = 0;
          })
          unset

  -- A message with a struct of a transaction that is cut off, in a dispatcher with no result and no
  -- close scheduled: the result is an exception for the decoding error, every stream is closed, and
  -- nothing is added to a stream.
  pub receive_cut :
      (t : StructType) (v : Struct t) (x : ℕ) (front back : List ℕ)
      → t ≢ pk_manager_props
      → FitsFields (meta t) v
      → encode (meta t) v ≡ front ++ (x ∷ back)
      → d.scheduled_closes ≡ 0
      → d.done ≡ pending
      → (e : DartError) × (receive (of_bytes (discriminator t ∷ front)) d
          ≡ record (close d) { done = failed (internal_decode_error e); scheduled_closes = 0 })
  unfolding receive
  receive_cut t v x front back n h cut idle unset =
      let (e, bad) = dispatch_cut t v x front back n h cut in
      (e, ap run_microtasks bad ∙ ended_by_error e idle unset)
