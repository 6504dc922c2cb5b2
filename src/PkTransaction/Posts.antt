-- ===== src/PkTransaction/Posts.antt =====
-- What the signal handlers of native/src/pk_transaction.cpp post.
use Prim.Native.String.{String}
use packagekit_dart.Base.{
  append_laws, ℕ, ◌≡◌, refl, ap, ◌∙◌, inl, inr, Option-cases, Option, none, some, List, [], ◌∷◌,
  ◌++◌, map, arith,
}
use packagekit_dart.Glaze.{encode_field}
use packagekit_dart.Glaze.Encode.{encode_fields}
use packagekit_dart.PkTypes.{
  StructType, pk_package, pk_progress, pk_details, pk_update_detail, pk_repo_detail, pk_files,
  pk_error_code, pk_message, pk_eula_required, pk_repo_sig_required, pk_require_restart, Struct,
  meta, PkDetails,
}
use packagekit_dart.Bus.{
  Outcome, returned, thrown, lift, pure, ◌>>=◌, Variant, SystemBus, World, PkTransactionBridge,
}
use packagekit_dart.PkTransaction.{post, post_finished}
use packagekit_dart.PkTransaction.Signals.{
  Signal, one_package, packages, progress, item_progress, status_changed, details, update_detail,
  repo_detail, repo_signature_required, eula_required, files, error_code, require_restart, message,
  finished, destroy, find_key, get_str, get_u64, extract_details, on_details, on_signal, on_signals,
  on_package, on_packages, on_progress, on_item_progress, on_status_changed, on_update_detail,
  on_repo_detail, on_repo_signature_required, on_eula_required, on_files, on_error_code,
  on_require_restart, on_message, on_finished, on_destroy,
}
use packagekit_dart.PkTransaction.Payloads.{
  discriminator, Payload, struct, finish, sentinel, text_or_empty, uint64_or_zero, details_from,
  details_of, details_payloads, package_payload, signal_payloads, all_payloads, with_payloads,
}

pub with_payloads-append :
    (port : ℕ) (ps qs : List Payload) (w : World)
    → with_payloads port qs (with_payloads port ps w) ≡ with_payloads port (ps ++ qs) w
with_payloads-append port ps qs w = simp append_laws

module _ (tx : PkTransactionBridge) (w : World) where
  pub post_lem :
      (t : StructType) (v : Struct t)
      → post tx t (discriminator t) v w ≡ (returned tt, with_payloads tx.port (struct t v ∷ []) w)
  unfolding post
  post_lem t v = rw (encode_fields (meta t) v)

  pub post_finished_lem :
      (e r : ℕ)
      → post_finished tx e r w ≡ (returned tt, with_payloads tx.port (finish e r ∷ sentinel ∷ []) w)
  unfolding post_finished encode_field
  post_finished_lem e r = simp append_laws

on_packages_lem :
    (tx : PkTransactionBridge) (ps : List (ℕ × List ℕ × List ℕ)) (w : World)
    → on_packages tx ps w ≡ (returned tt, with_payloads tx.port (map package_payload ps) w)
unfolding on_packages on_package
on_packages_lem tx [] w = simp append_laws
on_packages_lem tx ((info, pkg_id, summary) ∷ rest) w =
    let first = package_payload (info, pkg_id, summary) ∷ [] in
    rw (post_lem tx w pk_package (record { info = info; package_id = pkg_id; summary = summary })) (
      on_packages_lem tx rest (with_payloads tx.port first w)
      ∙ ap (λ v. (returned tt, v))
          (with_payloads-append tx.port first (map package_payload rest) w))

module _ (bus : SystemBus) where
  abbrev outcome_of : {A : Type 0} → Option A → Outcome A
  outcome_of none = thrown bus.type_error
  outcome_of (some a) = returned a

  get_str_lem :
      (entries : List (String × Variant)) (key : String)
      → get_str bus entries key ≡ outcome_of (text_or_empty (find_key key entries))
  unfolding get_str
  get_str_lem entries key = ground arith

  get_u64_lem :
      (entries : List (String × Variant)) (key : String)
      → get_u64 bus entries key ≡ outcome_of (uint64_or_zero (find_key key entries))
  unfolding get_u64
  get_u64_lem entries key = ground arith

  details_chain :
      (a b c d e f : Option (List ℕ)) (g : Option ℕ) (w : World)
      → (do
        package_id ← lift (outcome_of a)
        summary ← lift (outcome_of b)
        description ← lift (outcome_of c)
        url ← lift (outcome_of d)
        license ← lift (outcome_of e)
        group ← lift (outcome_of f)
        size ← lift (outcome_of g)
        pure {A = PkDetails} (record {
          package_id = package_id;
          summary = summary;
          description = description;
          url = url;
          license = license;
          group = group;
          size = size;
        }))
          w
        ≡ (outcome_of (details_from a b c d e f g), w)
  details_chain none b c d e f g w = refl
  details_chain (some a) none c d e f g w = refl
  details_chain (some a) (some b) none d e f g w = refl
  details_chain (some a) (some b) (some c) none e f g w = refl
  details_chain (some a) (some b) (some c) (some d) none f g w = refl
  details_chain (some a) (some b) (some c) (some d) (some e) none g w = refl
  details_chain (some a) (some b) (some c) (some d) (some e) (some f) none w = refl
  details_chain (some a) (some b) (some c) (some d) (some e) (some f) (some g) w = refl

  extract_details_lem :
      (entries : List (String × Variant)) (w : World)
      → extract_details bus entries w ≡ (outcome_of (details_of entries), w)
  unfolding extract_details
  extract_details_lem entries w = simp (get_str_lem, get_u64_lem) (details_chain _ _ _ _ _ _ _ w)

  abbrev pub details_outcome : Option PkDetails → Outcome (Unit {0})
  details_outcome none = thrown bus.type_error
  details_outcome (some d) = returned tt

  -- A handler returns, but for a Details signal with a member of another type, which throws.
  abbrev pub signal_outcome : Signal → Outcome (Unit {0})
  signal_outcome (details entries) = details_outcome (details_of entries)
  signal_outcome _ = returned tt

  module _ (tx : PkTransactionBridge) where
    on_details_lem :
        (entries : List (String × Variant)) (w : World)
        → on_details bus tx entries w ≡ (
          signal_outcome (details entries),
          with_payloads tx.port (details_payloads (details_of entries)) w,
        )
    unfolding on_details
    on_details_lem entries w = elim (Option-cases (details_of entries)) [
      | inl e ↦ rw (extract_details_lem entries w, e) (simp append_laws)
      | inr (d, e) ↦ rw (extract_details_lem entries w, e) (post_lem tx w pk_details d)
    ]

    -- A handler posts the payloads of its signal to the port of its bridge, in order, and changes
    -- nothing else. It returns, except for a Details signal with a member of another type, for
    -- which it throws and posts nothing.
    pub on_signal_lem :
        (s : Signal) (w : World)
        → on_signal bus tx s w ≡ (signal_outcome s, with_payloads tx.port (signal_payloads s) w)
    unfolding on_signal
    on_signal_lem (one_package i p s) w = unfold on_package in post_lem tx w pk_package _
    on_signal_lem (packages ps) w = on_packages_lem tx ps w
    on_signal_lem (progress p s c) w = unfold on_progress in post_lem tx w pk_progress _
    on_signal_lem (item_progress p s c) w = unfold on_item_progress in post_lem tx w pk_progress _
    on_signal_lem (status_changed s) w = unfold on_status_changed in post_lem tx w pk_progress _
    on_signal_lem (details entries) w = on_details_lem entries w
    on_signal_lem (update_detail ud) w =
        unfold on_update_detail in post_lem tx w pk_update_detail ud
    on_signal_lem (repo_detail r d e) w = unfold on_repo_detail in post_lem tx w pk_repo_detail _
    on_signal_lem (repo_signature_required rs) w =
        unfold on_repo_signature_required in post_lem tx w pk_repo_sig_required rs
    on_signal_lem (eula_required e) w = unfold on_eula_required in post_lem tx w pk_eula_required e
    on_signal_lem (files p fs) w = unfold on_files in post_lem tx w pk_files _
    on_signal_lem (error_code c d) w = unfold on_error_code in post_lem tx w pk_error_code _
    on_signal_lem (require_restart t p) w =
        unfold on_require_restart in post_lem tx w pk_require_restart _
    on_signal_lem (message t d) w = unfold on_message in post_lem tx w pk_message _
    on_signal_lem (finished e r) w = unfold on_finished in post_finished_lem tx w e r
    on_signal_lem destroy w = unfold on_destroy in simp append_laws

    pub on_signals_lem :
        (ss : List Signal) (w : World)
        → on_signals bus tx ss w ≡ with_payloads tx.port (all_payloads ss) w
    unfolding on_signals
    on_signals_lem [] w = simp append_laws
    on_signals_lem (s ∷ rest) w = rw (on_signal_lem s w) (
        on_signals_lem rest (with_payloads tx.port (signal_payloads s) w)
        ∙ with_payloads-append tx.port (signal_payloads s) (all_payloads rest) w)
