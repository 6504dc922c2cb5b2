-- ===== src/Dart/Enums/PkExit.antt =====
-- lib/src/enums.dart: PkExit.
use packagekit_dart.Base.{ℕ, ◌≡◌, refl, ◌⊎◌, inl, inr, List, [], ◌∷◌, ◌==◌, ==_iff}
use packagekit_dart.Dart.Core.{first_where, first_where_found}

pub data PkExit : Type 0 where
  unknown success failed cancelled key_required eula_required killed media_required need_untrusted
        cancelled_priority skip_transaction repair_required :
      PkExit

-- The enumeration's `value`.
abbrev pub int_value : PkExit → ℕ
int_value unknown = 0
int_value success = 1
int_value failed = 2
int_value cancelled = 3
int_value key_required = 4
int_value eula_required = 5
int_value killed = 6
int_value media_required = 7
int_value need_untrusted = 8
int_value cancelled_priority = 9
int_value skip_transaction = 10
int_value repair_required = 11

abbrev pub values : List PkExit
values =
    unknown ∷ success ∷ failed ∷ cancelled ∷ key_required ∷ eula_required ∷ killed ∷ media_required
    ∷ need_untrusted ∷ cancelled_priority ∷ skip_transaction ∷ repair_required ∷ []

unfoldable pub from_int : ℕ → PkExit
unfolding first_where
from_int v = first_where (λ e. int_value e == v) values unknown

-- Every member is found by its value.
pub from_int-int_value : (e : PkExit) → from_int (int_value e) ≡ e
unfolding from_int
from_int-int_value unknown = refl
from_int-int_value _ = refl

-- A number gives the member with that value, or `unknown`.
pub int_value-from_int : (v : ℕ) → (int_value (from_int v) ≡ v) ⊎ (from_int v ≡ unknown)
unfolding from_int
int_value-from_int v = elim (first_where_found (λ e. int_value e == v) values unknown) [
  | inl found ↦ inl ((==_iff _ v).0 found)
  | inr default ↦ inr default
]
