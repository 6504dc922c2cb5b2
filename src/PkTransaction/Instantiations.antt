-- ===== src/PkTransaction/Instantiations.antt =====
-- The explicit instantiations of `post` at the end of native/src/pk_transaction.cpp.
use packagekit_dart.Base.{
  arith, ap, ◌∙◌, ◌≡◌, refl, ◌⊎◌, inl, inr, List, [], ◌∷◌, All, map, ℕ, true, false, Bool, Option,
  none, some,
}
use packagekit_dart.PkTypes.{
  StructType, Struct, pk_package, pk_progress, pk_details, pk_update_detail, pk_repo_detail,
  pk_files, pk_error_code, pk_message, pk_eula_required, pk_repo_sig_required, pk_require_restart,
  PkDetails, pk_manager_props,
}
use Prim.Native.String.{String}
use packagekit_dart.Bus.{Variant, text, uint64, returned, SystemBus, World, PkTransactionBridge}
use packagekit_dart.PkTransaction.Posts.{signal_outcome, on_signal_lem}
use packagekit_dart.PkTransaction.Signals.{
  Signal, one_package, packages, progress, item_progress, details, update_detail, repo_detail,
  repo_signature_required, eula_required, files, error_code, require_restart, message, find_key,
  on_signal,
}
use packagekit_dart.PkTransaction.Payloads.{
  Payload, struct, finish, sentinel, signal_payloads, package_payload, details_payloads, details_of,
  with_payloads,
}

abbrev pub instantiations : List StructType
instantiations =
    pk_package ∷ pk_progress ∷ pk_details ∷ pk_update_detail ∷ pk_repo_detail ∷ pk_files
    ∷ pk_error_code ∷ pk_message ∷ pk_eula_required ∷ pk_repo_sig_required ∷ pk_require_restart ∷ []

-- A type of a list.
abbrev pub IsIn : StructType → List StructType → Type 0
IsIn t [] = ⊥
IsIn t (u ∷ us) = (t ≡ u) ⊎ IsIn t us

-- A payload that is no struct, or a struct of an instantiated type.
abbrev pub IsInstantiated : Payload → Type 0
IsInstantiated (struct t v) = IsIn t instantiations
IsInstantiated (finish exit_code runtime_ms) = Unit {0}
IsInstantiated sentinel = Unit {0}

packages-IsInstantiated :
    (ps : List (ℕ × List ℕ × List ℕ)) → All IsInstantiated (map package_payload ps)
packages-IsInstantiated [] = tt
packages-IsInstantiated (p ∷ ps) = (inl refl, packages-IsInstantiated ps)

details-IsInstantiated : (d : Option PkDetails) → All IsInstantiated (details_payloads d)
details-IsInstantiated none = tt
details-IsInstantiated (some d) = (inr (inr (inl refl)), tt)

signal-IsInstantiated : (s : Signal) → All IsInstantiated (signal_payloads s)
signal-IsInstantiated (one_package info pkg_id summary) = ground arith
signal-IsInstantiated (packages ps) = packages-IsInstantiated ps
signal-IsInstantiated (details entries) = details-IsInstantiated (details_of entries)
signal-IsInstantiated _ = ground arith

-- There is a signal whose handler returns and posts just this struct.
abbrev IsPosted : (t : StructType) → Struct t → Type 0
IsPosted t v =
    (s : Signal) × (signal_payloads s ≡ struct t v ∷ [])
    × ((bus : SystemBus) → signal_outcome bus s ≡ returned tt)

progress-IsPosted :
    (package_id : List ℕ) (status percentage : ℕ) (is_item : Bool)
    → IsPosted pk_progress (record {
      package_id = package_id;
      status = status;
      percentage = percentage;
      is_item = is_item;
    })
progress-IsPosted p s c true = (item_progress p s c, refl, λ bus. refl)
progress-IsPosted p s c false = (progress p s c, refl, λ bus. refl)

abbrev details_entries : PkDetails → List (String × Variant)
details_entries d =
    ("package-id", text d.package_id)
    ∷ ("summary", text d.summary)
    ∷ ("description", text d.description)
    ∷ ("url", text d.url)
    ∷ ("license", text d.license)
    ∷ ("group", text d.group)
    ∷ ("size", uint64 d.size)
    ∷ []

details-IsPosted : (d : PkDetails) → IsPosted pk_details d
unfolding find_key
details-IsPosted d = (details (details_entries d), refl, λ bus. refl)

struct-IsPosted : (t : StructType) (v : Struct t) → IsIn t instantiations → IsPosted t v
struct-IsPosted pk_package v h = (one_package v.info v.package_id v.summary, refl, λ bus. refl)
struct-IsPosted pk_progress v h = progress-IsPosted v.package_id v.status v.percentage v.is_item
struct-IsPosted pk_details v h = details-IsPosted v
struct-IsPosted pk_update_detail v h = (update_detail v, refl, λ bus. refl)
struct-IsPosted pk_repo_detail v h =
    (repo_detail v.repo_id v.description v.enabled, refl, λ bus. refl)
struct-IsPosted pk_files v h = (files v.package_id v.files, refl, λ bus. refl)
struct-IsPosted pk_error_code v h = (error_code v.code v.details, refl, λ bus. refl)
struct-IsPosted pk_message v h = (message v.type v.details, refl, λ bus. refl)
struct-IsPosted pk_eula_required v h = (eula_required v, refl, λ bus. refl)
struct-IsPosted pk_repo_sig_required v h = (repo_signature_required v, refl, λ bus. refl)
struct-IsPosted pk_require_restart v h = (require_restart v.type v.package_id, refl, λ bus. refl)
struct-IsPosted pk_manager_props v h = ground arith

-- Every struct that a handler posts has a type that `post` is instantiated at, and for every struct of
-- such a type there is a signal whose handler posts just this struct, to the bridge's port, and
-- returns.
pub on_signal-instantiations :
    (bus : SystemBus) (tx : PkTransactionBridge) (w : World) (s : Signal) (t : StructType)
    (v : Struct t)
    → IsIn t instantiations
    → ((ps : List Payload) × All IsInstantiated ps
        × ((on_signal bus tx s w).1 ≡ with_payloads tx.port ps w))
      × ((s' : Signal) × (on_signal bus tx s' w
            ≡ (returned tt, with_payloads tx.port (struct t v ∷ []) w)))
on_signal-instantiations bus tx w s t v h =
    let (s', posts, returns) = struct-IsPosted t v h in
    (
      (signal_payloads s, signal-IsInstantiated s, ap (λ r. r.1) (on_signal_lem bus tx s w)),
      (s', on_signal_lem bus tx s' w ∙ λ i. (returns bus i, with_payloads tx.port (posts i) w)),
    )
