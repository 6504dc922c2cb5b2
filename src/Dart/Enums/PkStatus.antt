-- ===== src/Dart/Enums/PkStatus.antt =====
-- lib/src/enums.dart: PkStatus.
use packagekit_dart.Base.{ℕ, ◌≡◌, refl, ◌⊎◌, inl, inr, List, [], ◌∷◌, ◌==◌, ==_iff}
use packagekit_dart.Dart.Core.{first_where, first_where_found}

pub data PkStatus : Type 0 where
  unknown wait setup running query info remove refresh_cache download install update cleanup
        obsolete dep_resolve sig_check test_commit commit request finished cancel
        download_repository download_packagelist download_filelist download_changelog download_group
        download_updateinfo repackaging loading_cache scan_applications generate_package_list
        waiting_for_lock waiting_for_auth scan_process_list check_executable_files check_libraries
        copy_files run_hook :
      PkStatus

-- The enumeration's `value`.
abbrev pub int_value : PkStatus → ℕ
int_value unknown = 0
int_value wait = 1
int_value setup = 2
int_value running = 3
int_value query = 4
int_value info = 5
int_value remove = 6
int_value refresh_cache = 7
int_value download = 8
int_value install = 9
int_value update = 10
int_value cleanup = 11
int_value obsolete = 12
int_value dep_resolve = 13
int_value sig_check = 14
int_value test_commit = 15
int_value commit = 16
int_value request = 17
int_value finished = 18
int_value cancel = 19
int_value download_repository = 20
int_value download_packagelist = 21
int_value download_filelist = 22
int_value download_changelog = 23
int_value download_group = 24
int_value download_updateinfo = 25
int_value repackaging = 26
int_value loading_cache = 27
int_value scan_applications = 28
int_value generate_package_list = 29
int_value waiting_for_lock = 30
int_value waiting_for_auth = 31
int_value scan_process_list = 32
int_value check_executable_files = 33
int_value check_libraries = 34
int_value copy_files = 35
int_value run_hook = 36

abbrev pub values : List PkStatus
values =
    unknown ∷ wait ∷ setup ∷ running ∷ query ∷ info ∷ remove ∷ refresh_cache ∷ download ∷ install
    ∷ update ∷ cleanup ∷ obsolete ∷ dep_resolve ∷ sig_check ∷ test_commit ∷ commit ∷ request
    ∷ finished ∷ cancel ∷ download_repository ∷ download_packagelist ∷ download_filelist
    ∷ download_changelog ∷ download_group ∷ download_updateinfo ∷ repackaging ∷ loading_cache
    ∷ scan_applications ∷ generate_package_list ∷ waiting_for_lock ∷ waiting_for_auth
    ∷ scan_process_list ∷ check_executable_files ∷ check_libraries ∷ copy_files ∷ run_hook ∷ []

unfoldable pub from_int : ℕ → PkStatus
unfolding first_where
from_int v = first_where (λ e. int_value e == v) values unknown

-- Every member is found by its value.
pub from_int-int_value : (e : PkStatus) → from_int (int_value e) ≡ e
unfolding from_int
from_int-int_value unknown = refl
from_int-int_value _ = refl

-- A number gives the member with that value, or `unknown`.
pub int_value-from_int : (v : ℕ) → (int_value (from_int v) ≡ v) ⊎ (from_int v ≡ unknown)
unfolding from_int
int_value-from_int v = elim (first_where_found (λ e. int_value e == v) values unknown) [
  | inl found ↦ inl ((==_iff _ v).0 found)
  | inr default ↦ inr default
]
