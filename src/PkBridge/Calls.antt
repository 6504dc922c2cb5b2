-- ===== src/PkBridge/Calls.antt =====
-- The functions of native/src/pk_bridge.cpp on live handles, against the calls of their requests.
use packagekit_dart.Base.{
  ℕ, pos, zero, suc, ◌≡◌, ◌≢◌, refl, ap, ◌∙◌, some, List, [], ◌∷◌, ◌++◌, map, length, All, find,
}
use packagekit_dart.Bus.{
  M, ◌>>=◌, lift, after, Outcome, returned, thrown, raised, undefined, Variant, SystemBus, World,
  MethodCall, PkTransactionBridge, PkManager, call_method,
}
use packagekit_dart.PkTypes.{pk_error_code}
use packagekit_dart.PkTransaction.{post_error, post_finished}
use packagekit_dart.PkTransaction.Methods
use packagekit_dart.PkTransaction.Methods.{call_tx, build_hints}
use packagekit_dart.PkTransaction.Payloads.{Payload, struct, finish, sentinel, with_payloads}
use packagekit_dart.PkTransaction.Posts.{post_lem, post_finished_lem, with_payloads-append}
use packagekit_dart.PkBridge.{c_string, to_vec, mgr, tx, pk_tx_try, pk_transaction_set_hints}
use packagekit_dart.PkBridge.Entries.{
  pk_search_name, pk_search_details, pk_search_files, pk_search_groups, pk_get_packages,
  pk_get_updates, pk_resolve, pk_what_provides, pk_get_details, pk_get_update_detail, pk_get_files,
  pk_get_repo_list, pk_depends_on, pk_required_by, pk_get_distro_upgrades, pk_get_old_transactions,
  pk_install_packages, pk_remove_packages, pk_update_packages, pk_refresh_cache,
  pk_download_packages, pk_install_files, pk_repo_enable, pk_accept_eula, pk_cancel,
}
use packagekit_dart.PkBridge.Requests.{
  Request, set_hints, search_name, search_details, search_files, search_groups, get_packages,
  get_updates, resolve, what_provides, get_details, get_update_detail, get_files, get_repo_list,
  depends_on, required_by, get_distro_upgrades, get_old_transactions, install_packages,
  remove_packages, update_packages, refresh_cache, download_packages, install_files, repo_enable,
  accept_eula, cancel, terminated, run_request, strings, method_name, arguments, request_call,
}

-- A string has no NUL.
abbrev pub HasNoNul : List ℕ → Type 0
HasNoNul = All (λ b. b ≢ 0)

c_string-terminated : (s : List ℕ) → HasNoNul s → c_string (terminated s) ≡ returned s
unfolding c_string
c_string-terminated [] h = refl
c_string-terminated (zero ∷ s) h = absurd (h.0 refl)
c_string-terminated (suc b ∷ s) h = rw (c_string-terminated s h.1)

to_vec-terminated :
    (ss : List (List ℕ))
    → All HasNoNul ss
    → to_vec (map terminated ss) (pos (length ss)) ≡ returned ss
unfolding to_vec
to_vec-terminated [] h = refl
to_vec-terminated (s ∷ ss) h = rw (c_string-terminated s h.0, to_vec-terminated ss h.1)

-- What a refused call posts: the error, Finished with exit code 2, and the sentinel.
abbrev pub refusal : List ℕ → List Payload
refusal e = struct pk_error_code (record { code = 4; details = e }) ∷ finish 2 0 ∷ sentinel ∷ []

then_finish : PkTransactionBridge → Outcome (Unit {0}) × World → Outcome (Unit {0}) × World
then_finish t (r, w) = after (λ _. post_finished t 2 0) r w

post_error_lem :
    (t : PkTransactionBridge) (e : List ℕ) (w : World)
    → post_error t e w ≡ (returned tt, with_payloads t.port (refusal e) w)
unfolding post_error then_finish
post_error_lem t e w =
    let reported = struct pk_error_code (record { code = 4; details = e }) ∷ [] in
    ap (then_finish t) (post_lem t w pk_error_code (record { code = 4; details = e }))
    ∙ (post_finished_lem t (with_payloads t.port reported w) 2 0
        ∙ ap (λ v. (returned tt, v))
            (with_payloads-append t.port reported (finish 2 0 ∷ sentinel ∷ []) w))

abbrev pub with_call : MethodCall → World → World
with_call c w = record w { calls = w.calls ++ (c ∷ []) }

-- The end of a function whose call was answered.
abbrev pub answered : PkTransactionBridge → Outcome Variant → World → Outcome (Unit {0}) × World
answered t (returned v) w = (returned tt, w)
answered t (thrown e) w = (returned tt, with_payloads t.port (refusal e) w)
answered t (raised x) w = (raised x, w)
answered t undefined w = (undefined, w)

module _ (bus : SystemBus) (handle : ℕ) (t : PkTransactionBridge) (m : PkManager) (w : World) where
  tx_live :
      (posts : List (ℕ × List ℕ)) (calls : List MethodCall)
      → find handle w.transactions ≡ some t
      → find t.connection w.managers ≡ some m
      → tx handle (record w { posts = posts; calls = calls })
        ≡ (returned t, record w { posts = posts; calls = calls })
  unfolding tx mgr
  tx_live posts calls live connected = rw (live, connected)

  answer_of : (c : MethodCall) → Outcome Variant
  answer_of c = bus.answer w.calls c

  try_answered :
      (c : MethodCall) (r : Outcome Variant)
      → find handle w.transactions ≡ some t
      → find t.connection w.managers ≡ some m
      → pk_tx_try handle ((λ u. (r, with_call c w)) >>= λ _. lift (returned tt)) w
        ≡ answered t r (with_call c w)
  unfolding pk_tx_try
  try_answered c (returned v) live connected = refl
  try_answered c (thrown e) live connected =
      rw (tx_live w.posts (w.calls ++ (c ∷ [])) live connected) (post_error_lem t e (with_call c w))
  try_answered c (raised x) live connected = refl
  try_answered c undefined live connected = refl

  -- A body that makes the request's call is answered.
  try_call :
      (r : Request) (body : PkTransactionBridge → M (Unit {0}))
      → find handle w.transactions ≡ some t
      → find t.connection w.managers ≡ some m
      → body t w ≡ call_tx bus t (method_name r) (arguments r) w
      → pk_tx_try handle (tx handle >>= body) w
        ≡ answered t (bus.answer w.calls (request_call t r)) (with_call (request_call t r) w)
  unfolding pk_tx_try call_tx call_method
  try_call r body live connected same =
      rw (tx_live w.posts w.calls live connected, same)
        (try_answered (request_call t r) (bus.answer w.calls (request_call t r)) live connected)

  -- On the handle of a bridge that was not deleted and whose manager was not deleted, with strings
  -- that have no NUL, each function makes exactly the D-Bus call of its request. If the call is
  -- answered, it posts nothing; if the call is refused, it returns all the same and posts the
  -- message of the error, Finished with exit code 2, and the sentinel, to the bridge's port.
  pub run_request_lem :
      (r : Request)
      → find handle w.transactions ≡ some t
      → find t.connection w.managers ≡ some m
      → All HasNoNul (strings r)
      → run_request bus handle r w
        ≡ answered t (bus.answer w.calls (request_call t r)) (with_call (request_call t r) w)
  unfolding pk_transaction_set_hints pk_search_name pk_search_details pk_search_files
      pk_search_groups pk_get_packages pk_get_updates pk_resolve pk_what_provides pk_get_details
      pk_get_update_detail pk_get_files pk_get_repo_list pk_depends_on pk_required_by
      pk_get_distro_upgrades pk_get_old_transactions pk_install_packages pk_remove_packages
      pk_update_packages pk_refresh_cache pk_download_packages pk_install_files pk_repo_enable
      pk_accept_eula pk_cancel
  run_request_lem (set_hints locale interactive) live connected clean =
      unfold Methods.set_hints build_hints in
      try_call (set_hints locale interactive) _ live connected
        (rw (c_string-terminated locale clean.0))
  run_request_lem (search_name filter values) live connected clean =
      unfold Methods.search_name in
      try_call (search_name filter values) _ live connected (rw (to_vec-terminated values clean))
  run_request_lem (search_details filter values) live connected clean =
      unfold Methods.search_details in
      try_call (search_details filter values) _ live connected (rw (to_vec-terminated values clean))
  run_request_lem (search_files filter values) live connected clean =
      unfold Methods.search_files in
      try_call (search_files filter values) _ live connected (rw (to_vec-terminated values clean))
  run_request_lem (search_groups filter values) live connected clean =
      unfold Methods.search_groups in
      try_call (search_groups filter values) _ live connected (rw (to_vec-terminated values clean))
  run_request_lem (get_packages filter) live connected clean =
      unfold Methods.get_packages in try_call (get_packages filter) _ live connected refl
  run_request_lem (get_updates filter) live connected clean =
      unfold Methods.get_updates in try_call (get_updates filter) _ live connected refl
  run_request_lem (resolve filter ids) live connected clean =
      unfold Methods.resolve in
      try_call (resolve filter ids) _ live connected (rw (to_vec-terminated ids clean))
  run_request_lem (what_provides filter values) live connected clean =
      unfold Methods.what_provides in
      try_call (what_provides filter values) _ live connected (rw (to_vec-terminated values clean))
  run_request_lem (get_details ids) live connected clean =
      unfold Methods.get_details in
      try_call (get_details ids) _ live connected (rw (to_vec-terminated ids clean))
  run_request_lem (get_update_detail ids) live connected clean =
      unfold Methods.get_update_detail in
      try_call (get_update_detail ids) _ live connected (rw (to_vec-terminated ids clean))
  run_request_lem (get_files ids) live connected clean =
      unfold Methods.get_files in
      try_call (get_files ids) _ live connected (rw (to_vec-terminated ids clean))
  run_request_lem (get_repo_list filter) live connected clean =
      unfold Methods.get_repo_list in try_call (get_repo_list filter) _ live connected refl
  run_request_lem (depends_on filter ids recursive) live connected clean =
      unfold Methods.depends_on in
      try_call (depends_on filter ids recursive) _ live connected (rw (to_vec-terminated ids clean))
  run_request_lem (required_by filter ids recursive) live connected clean =
      unfold Methods.required_by in
      try_call (required_by filter ids recursive) _ live connected
        (rw (to_vec-terminated ids clean))
  run_request_lem get_distro_upgrades live connected clean =
      unfold Methods.get_distro_upgrades in try_call get_distro_upgrades _ live connected refl
  run_request_lem (get_old_transactions number) live connected clean =
      unfold Methods.get_old_transactions in
      try_call (get_old_transactions number) _ live connected refl
  run_request_lem (install_packages flags ids) live connected clean =
      unfold Methods.install_packages in
      try_call (install_packages flags ids) _ live connected (rw (to_vec-terminated ids clean))
  run_request_lem (remove_packages flags ids allow_deps autoremove) live connected clean =
      unfold Methods.remove_packages in
      try_call (remove_packages flags ids allow_deps autoremove) _ live connected
        (rw (to_vec-terminated ids clean))
  run_request_lem (update_packages flags ids) live connected clean =
      unfold Methods.update_packages in
      try_call (update_packages flags ids) _ live connected (rw (to_vec-terminated ids clean))
  run_request_lem (refresh_cache force) live connected clean =
      unfold Methods.refresh_cache in try_call (refresh_cache force) _ live connected refl
  run_request_lem (download_packages store_in_cache ids) live connected clean =
      unfold Methods.download_packages in
      try_call (download_packages store_in_cache ids) _ live connected
        (rw (to_vec-terminated ids clean))
  run_request_lem (install_files flags paths) live connected clean =
      unfold Methods.install_files in
      try_call (install_files flags paths) _ live connected (rw (to_vec-terminated paths clean))
  run_request_lem (repo_enable repo_id enabled) live connected clean =
      unfold Methods.repo_enable in
      try_call (repo_enable repo_id enabled) _ live connected
        (rw (c_string-terminated repo_id clean.0))
  run_request_lem (accept_eula eula_id) live connected clean =
      unfold Methods.accept_eula in
      try_call (accept_eula eula_id) _ live connected (rw (c_string-terminated eula_id clean.0))
  run_request_lem cancel live connected clean =
      unfold Methods.cancel in try_call cancel _ live connected refl
