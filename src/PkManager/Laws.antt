-- ===== src/PkManager/Laws.antt =====
-- What the manager of native/src/pk_manager.cpp posts.
use Prim.Native.String.{String}
use packagekit_dart.Base.{
  append_laws, ℕ, ◌≡◌, refl, sym, ap, ◌∙◌, List, [], ◌∷◌, ◌++◌, map, codes, append_assoc,
  append-nil, le_bytes,
}
use packagekit_dart.Glaze.{encode_field}
use packagekit_dart.Glaze.Encode.{encode_fields}
use packagekit_dart.PkTypes.{meta, pk_manager_props, PkManagerProps}
use packagekit_dart.Bus.{
  returned, SystemBus, PkManager, MethodCall, Variant, text, texts, uint32, uint64, truth, World,
  call_method,
}
use packagekit_dart.PkTransaction.Payloads.{struct, with_payloads}
use packagekit_dart.PkManager.{
  pk_path, pk_service, pk_iface, get_property, get_property_as, read_properties, post,
  ManagerSignal, updates_changed, repo_list_changed, network_state_changed,
  transaction_list_changed, on_manager_signal,
}

abbrev pub property_call : String → MethodCall
property_call name = record {
  path = codes pk_path;
  destination = pk_service;
  interface_name = "org.freedesktop.DBus.Properties";
  method = "Get";
  arguments = text (codes pk_iface) ∷ text (codes name) ∷ [];
}

-- The daemon's properties and the answers that carry them, in the order of PkManagerProps.
abbrev pub property_answers : PkManagerProps → List (String × Variant)
property_answers p =
    ("BackendName", text p.backend_name)
    ∷ ("BackendDescription", text p.backend_description)
    ∷ ("BackendAuthor", text p.backend_author)
    ∷ ("Roles", uint64 p.roles)
    ∷ ("Filters", uint64 p.filters)
    ∷ ("Groups", uint64 p.groups)
    ∷ ("MimeTypes", texts p.mime_types)
    ∷ ("DistroId", text p.distro_id)
    ∷ ("NetworkState", uint32 p.network_state)
    ∷ ("Locked", truth p.locked)
    ∷ ("VersionMajor", uint32 p.version_major)
    ∷ ("VersionMinor", uint32 p.version_minor)
    ∷ ("VersionMicro", uint32 p.version_micro)
    ∷ []

-- Each call is answered with its value, after the calls before it.
abbrev pub Answers : SystemBus → List MethodCall → List (String × Variant) → Type 0
Answers bus calls [] = Unit {0}
Answers bus calls ((name, v) ∷ rest) =
    (bus.answer calls (property_call name) ≡ returned v)
    × Answers bus (calls ++ (property_call name ∷ [])) rest

abbrev pub calls_of : List (String × Variant) → List MethodCall
calls_of answers = map (λ a. property_call a.0) answers

abbrev after_calls : List MethodCall → List (String × Variant) → List MethodCall
after_calls calls [] = calls
after_calls calls ((name, v) ∷ rest) = after_calls (calls ++ (property_call name ∷ [])) rest

after_calls_lem :
    (calls : List MethodCall) (answers : List (String × Variant))
    → after_calls calls answers ≡ calls ++ calls_of answers
after_calls_lem calls [] = sym (append-nil calls)
after_calls_lem calls ((name, v) ∷ rest) =
    after_calls_lem (calls ++ (property_call name ∷ [])) rest
    ∙ append_assoc calls (property_call name ∷ []) (calls_of rest)

module _ (bus : SystemBus) (manager : PkManager) where
  post_props :
      (p : PkManagerProps) (w : World)
      → post manager pk_manager_props 0x0c p w
        ≡ (returned tt, with_payloads manager.events_port (struct pk_manager_props p ∷ []) w)
  unfolding post
  post_props p w = rw (encode_fields (meta pk_manager_props) p)

  read_after :
      (p : PkManagerProps) (w : World)
      → Answers bus w.calls (property_answers p)
      → read_properties bus manager w ≡ (
        returned tt,
        with_payloads manager.events_port
            (struct pk_manager_props p ∷ [])
            (record w { calls = after_calls w.calls (property_answers p) }),
      )
  unfolding read_properties get_property_as get_property call_method
  read_after p w h =
      rw
        (
          h.0, h.1.0, h.1.1.0, h.1.1.1.0, h.1.1.1.1.0, h.1.1.1.1.1.0, h.1.1.1.1.1.1.0,
          h.1.1.1.1.1.1.1.0, h.1.1.1.1.1.1.1.1.0, h.1.1.1.1.1.1.1.1.1.0, h.1.1.1.1.1.1.1.1.1.1.0,
          h.1.1.1.1.1.1.1.1.1.1.1.0, h.1.1.1.1.1.1.1.1.1.1.1.1.0,
        )
        (post_props p (record w { calls = after_calls w.calls (property_answers p) }))

  -- If the daemon answers each property with its value, reading the properties makes one call for
  -- each, in order, and posts one message to the manager's port, the encoding of those values.
  pub read_properties_lem :
      (p : PkManagerProps) (w : World)
      → Answers bus w.calls (property_answers p)
      → read_properties bus manager w ≡ (
        returned tt,
        with_payloads manager.events_port
            (struct pk_manager_props p ∷ [])
            (record w { calls = w.calls ++ calls_of (property_answers p) }),
      )
  read_properties_lem p w h =
      read_after p w h
      ∙ ap
          (λ cs. (
            returned tt,
            with_payloads manager.events_port (struct pk_manager_props p ∷ [])
                (record w { calls = cs }),
          ))
          (after_calls_lem w.calls (property_answers p))

-- The message of a manager's signal, if it has one.
abbrev pub signal_messages : ManagerSignal → List (List ℕ)
signal_messages updates_changed = (0xd0 ∷ []) ∷ []
signal_messages repo_list_changed = (0xd1 ∷ []) ∷ []
signal_messages (network_state_changed state) = (0xd2 ∷ le_bytes 4 state) ∷ []
signal_messages (transaction_list_changed txs) = []

pub on_manager_signal_lem :
    (manager : PkManager) (s : ManagerSignal) (w : World)
    → on_manager_signal manager s w ≡ (
      returned tt,
      record w {
        posts = w.posts ++ map (λ bytes. (manager.events_port, bytes)) (signal_messages s);
      },
    )
unfolding on_manager_signal
on_manager_signal_lem manager updates_changed w = refl
on_manager_signal_lem manager repo_list_changed w = refl
on_manager_signal_lem manager (network_state_changed state) w = unfold encode_field in refl
on_manager_signal_lem manager (transaction_list_changed txs) w = simp append_laws
