-- ===== src/Dart/Enums/PkInfo.antt =====
-- lib/src/enums.dart: PkInfo.
use packagekit_dart.Base.{ℕ, ◌≡◌, refl, ◌⊎◌, inl, inr, List, [], ◌∷◌, ◌==◌, ==_iff}
use packagekit_dart.Dart.Core.{first_where, first_where_found}

pub data PkInfo : Type 0 where
  unknown installed available low enhancement normal bugfix important security blocked downloading
        updating installing removing cleanup obsoleting collection_installed collection_available
        finished reinstalling downgrading preparing decompressing untrusted trusted unavailable :
      PkInfo

-- The enumeration's `value`.
abbrev pub int_value : PkInfo → ℕ
int_value unknown = 0
int_value installed = 1
int_value available = 2
int_value low = 3
int_value enhancement = 4
int_value normal = 5
int_value bugfix = 6
int_value important = 7
int_value security = 8
int_value blocked = 9
int_value downloading = 10
int_value updating = 11
int_value installing = 12
int_value removing = 13
int_value cleanup = 14
int_value obsoleting = 15
int_value collection_installed = 16
int_value collection_available = 17
int_value finished = 18
int_value reinstalling = 19
int_value downgrading = 20
int_value preparing = 21
int_value decompressing = 22
int_value untrusted = 23
int_value trusted = 24
int_value unavailable = 25

abbrev pub values : List PkInfo
values =
    unknown ∷ installed ∷ available ∷ low ∷ enhancement ∷ normal ∷ bugfix ∷ important ∷ security
    ∷ blocked ∷ downloading ∷ updating ∷ installing ∷ removing ∷ cleanup ∷ obsoleting
    ∷ collection_installed ∷ collection_available ∷ finished ∷ reinstalling ∷ downgrading
    ∷ preparing ∷ decompressing ∷ untrusted ∷ trusted ∷ unavailable ∷ []

unfoldable pub from_int : ℕ → PkInfo
unfolding first_where
from_int v = first_where (λ e. int_value e == v) values unknown

-- Every member of PkInfo is found by its value.
pub from_int-int_value : (e : PkInfo) → from_int (int_value e) ≡ e
unfolding from_int
from_int-int_value unknown = refl
from_int-int_value _ = refl

-- A number gives the member with that value, or `unknown`.
pub int_value-from_int : (v : ℕ) → (int_value (from_int v) ≡ v) ⊎ (from_int v ≡ unknown)
unfolding from_int
int_value-from_int v = elim (first_where_found (λ e. int_value e == v) values unknown) [
  | inl found ↦ inl ((==_iff _ v).0 found)
  | inr default ↦ inr default
]
