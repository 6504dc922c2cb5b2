-- ===== src/Dart/Plan.antt =====
-- lib/src/transaction.dart: PkInstallPlan and planFromPackages.
pub mod Sorting
pub mod Printing
use packagekit_dart.Base.{
  ℕ, zero, suc, ◌+◌, ◌≡◌, refl, sym, ap, ◌∙◌, Bool, true, false, ◌&&◌, List, [], ◌∷◌, ◌++◌, map,
  length, length-append, arith, leb, fold, append_assoc,
}
use packagekit_dart.Dart.Core.{DartString}
use packagekit_dart.Dart.Enums.PkInfo
use packagekit_dart.Dart.Enums.PkInfo.{PkInfo}
use packagekit_dart.Dart.Package.{PkPackage, raw}
use packagekit_dart.Dart.Records.{PkProgress}

-- PkProgress.percentageKnown.
abbrev pub percentage_known : PkProgress → Bool
percentage_known p = leb p.percentage 100

pub record PkInstallPlan : Type 0 where
  pub installing : List PkPackage
  pub updating : List PkPackage
  pub removing : List PkPackage
  pub reinstalling : List PkPackage
  pub downgrading : List PkPackage
  pub obsoleting : List PkPackage

abbrev pub empty_plan : PkInstallPlan
empty_plan = record {
  installing = [];
  updating = [];
  removing = [];
  reinstalling = [];
  downgrading = [];
  obsoleting = [];
}

abbrev is_empty_list : List PkPackage → Bool
is_empty_list [] = true
is_empty_list (p ∷ ps) = false

unfoldable pub is_empty : PkInstallPlan → Bool
is_empty plan =
    is_empty_list plan.installing
    && is_empty_list plan.updating
    && is_empty_list plan.removing
    && is_empty_list plan.reinstalling
    && is_empty_list plan.downgrading
    && is_empty_list plan.obsoleting

unfoldable pub change_count : PkInstallPlan → ℕ
change_count plan =
    length plan.installing
    + length plan.updating
    + length plan.removing
    + length plan.reinstalling
    + length plan.downgrading
    + length plan.obsoleting

unfoldable pub all_ids : PkInstallPlan → List DartString
unfolding raw
all_ids plan =
    map (λ p. raw p.id)
      (plan.installing ++ (plan.updating ++ (plan.reinstalling ++ plan.downgrading)))

-- The switch of planFromPackages, for one package.
abbrev pub sort_by_info : PkInfo → PkPackage → PkInstallPlan → PkInstallPlan
sort_by_info PkInfo.installing p plan = record plan { installing = plan.installing ++ (p ∷ []) }
sort_by_info PkInfo.updating p plan = record plan { updating = plan.updating ++ (p ∷ []) }
sort_by_info PkInfo.removing p plan = record plan { removing = plan.removing ++ (p ∷ []) }
sort_by_info PkInfo.reinstalling p plan = record plan {
  reinstalling = plan.reinstalling ++ (p ∷ []);
}
sort_by_info PkInfo.downgrading p plan = record plan { downgrading = plan.downgrading ++ (p ∷ []) }
sort_by_info PkInfo.obsoleting p plan = record plan { obsoleting = plan.obsoleting ++ (p ∷ []) }
sort_by_info _ p plan = record plan { installing = plan.installing ++ (p ∷ []) }

unfoldable pub plan_from : List PkPackage → PkInstallPlan → PkInstallPlan
plan_from [] plan = plan
plan_from (p ∷ pkgs) plan = plan_from pkgs (sort_by_info p.info p plan)

unfoldable pub plan_from_packages : List PkPackage → PkInstallPlan
unfolding plan_from
plan_from_packages pkgs = plan_from pkgs empty_plan
