-- ===== src/Dart/Dispatcher/Delivery.antt =====
-- What `dispatch` does with each message that the native side posts, described by the values sent.
use packagekit_dart.Base.{◌+◌, ◌≡◌, refl, ap}
use packagekit_dart.Glaze.Encode.{encode_fields}
use packagekit_dart.Glaze.RoundTrip.{FitsFields, IsU32}
use packagekit_dart.PkTypes.{
  StructType, pk_package, pk_progress, pk_details, pk_update_detail, pk_repo_detail, pk_files,
  pk_error_code, pk_message, pk_eula_required, pk_repo_sig_required, pk_require_restart,
  pk_manager_props, Struct, meta,
}
use packagekit_dart.PkTransaction.Payloads.{
  discriminator, Payload, struct, finish, sentinel, payload_bytes,
}
use packagekit_dart.Dart.Core.{Result, value, ◌>>=◌, of_bytes}
use packagekit_dart.Dart.Codec.{DartStruct, struct_type, decode}
use packagekit_dart.Dart.Codec.Meaning.{to_dart}
use packagekit_dart.Dart.Codec.Decode.{decode-encode_message, decode_finished_lem}
use packagekit_dart.Dart.Dispatcher.{Dispatcher, add, on_finished, caught, dispatch}

-- `add` on the stream for structs of type `t`. Manager properties have none here.
abbrev pub add_event : (t : StructType) → DartStruct t → Dispatcher → Result Dispatcher
add_event pk_package a d = add d.packages a >>= λ s. value (record d { packages = s })
add_event pk_progress a d = add d.progress a >>= λ s. value (record d { progress = s })
add_event pk_details a d = add d.details a >>= λ s. value (record d { details = s })
add_event pk_update_detail a d =
    add d.update_details a >>= λ s. value (record d { update_details = s })
add_event pk_repo_detail a d = add d.repo_details a >>= λ s. value (record d { repo_details = s })
add_event pk_files a d = add d.files a >>= λ s. value (record d { files = s })
add_event pk_error_code a d = add d.errors a >>= λ s. value (record d { errors = s })
add_event pk_message a d = add d.messages a >>= λ s. value (record d { messages = s })
add_event pk_eula_required a d =
    add d.eula_required a >>= λ s. value (record d { eula_required = s })
add_event pk_repo_sig_required a d =
    add d.repo_sig_required a >>= λ s. value (record d { repo_sig_required = s })
add_event pk_require_restart a d =
    add d.require_restart a >>= λ s. value (record d { require_restart = s })
add_event pk_manager_props a d = value d

decode_payload :
    (t : StructType) (v : Struct t)
    → FitsFields (meta t) v
    → decode (struct_type t) (of_bytes (payload_bytes (struct t v))) 1 ≡ to_dart t v
decode_payload t v h =
    rw (encode_fields (meta t) v) at (decode-encode_message t v (discriminator t) h)

-- The effect of one payload.
abbrev pub deliver : Payload → Dispatcher → Dispatcher
deliver (struct pk_manager_props v) d = d
deliver (struct t v) d = caught d (to_dart t v >>= λ a. add_event t a d)
deliver (finish e r) d = on_finished (record { exit_code = e; runtime_ms = r }) d
deliver sentinel d = record d { scheduled_closes = d.scheduled_closes + 1 }

abbrev pub FitsPayload : Payload → Type 0
FitsPayload (struct t v) = FitsFields (meta t) v
FitsPayload (finish e r) = IsU32 e × IsU32 r
FitsPayload sentinel = Unit {0}

module _ (d : Dispatcher) where
  dispatch_struct :
      (t : StructType) (v : Struct t)
      → FitsFields (meta t) v
      → dispatch (of_bytes (payload_bytes (struct t v))) d ≡ deliver (struct t v) d
  unfolding dispatch
  dispatch_struct pk_package v h =
      ap (λ r. caught d (r >>= λ a. add_event pk_package a d)) (decode_payload pk_package v h)
  dispatch_struct pk_progress v h =
      ap (λ r. caught d (r >>= λ a. add_event pk_progress a d)) (decode_payload pk_progress v h)
  dispatch_struct pk_details v h =
      ap (λ r. caught d (r >>= λ a. add_event pk_details a d)) (decode_payload pk_details v h)
  dispatch_struct pk_update_detail v h =
      ap (λ r. caught d (r >>= λ a. add_event pk_update_detail a d))
        (decode_payload pk_update_detail v h)
  dispatch_struct pk_repo_detail v h =
      ap (λ r. caught d (r >>= λ a. add_event pk_repo_detail a d))
        (decode_payload pk_repo_detail v h)
  dispatch_struct pk_files v h =
      ap (λ r. caught d (r >>= λ a. add_event pk_files a d)) (decode_payload pk_files v h)
  dispatch_struct pk_error_code v h =
      ap (λ r. caught d (r >>= λ a. add_event pk_error_code a d)) (decode_payload pk_error_code v h)
  dispatch_struct pk_message v h =
      ap (λ r. caught d (r >>= λ a. add_event pk_message a d)) (decode_payload pk_message v h)
  dispatch_struct pk_eula_required v h =
      ap (λ r. caught d (r >>= λ a. add_event pk_eula_required a d))
        (decode_payload pk_eula_required v h)
  dispatch_struct pk_repo_sig_required v h =
      ap (λ r. caught d (r >>= λ a. add_event pk_repo_sig_required a d))
        (decode_payload pk_repo_sig_required v h)
  dispatch_struct pk_require_restart v h =
      ap (λ r. caught d (r >>= λ a. add_event pk_require_restart a d))
        (decode_payload pk_require_restart v h)
  dispatch_struct pk_manager_props v h = refl

  -- Each message of the native side has the effect of its payload.
  pub dispatch-payload_bytes :
      (p : Payload) → FitsPayload p → dispatch (of_bytes (payload_bytes p)) d ≡ deliver p d
  dispatch-payload_bytes (struct t v) h = dispatch_struct t v h
  dispatch-payload_bytes (finish e r) h =
      unfold dispatch in
      ap (λ x. caught d (x >>= λ f. value (on_finished f d))) (decode_finished_lem e r 0x20 h.0 h.1)
  dispatch-payload_bytes sentinel h = unfold dispatch in refl
