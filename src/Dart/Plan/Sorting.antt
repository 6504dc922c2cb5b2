-- ===== src/Dart/Plan/Sorting.antt =====
-- planFromPackages against the six categories of PkInfo.
use packagekit_dart.Base.{
  append_laws, ◌+◌, ◌≡◌, refl, sym, ap, ◌∙◌, Bool, List, [], ◌∷◌, ◌++◌, length, length-append,
  arith, ◌==◌, if◌then◌else◌, append-nil, append_assoc,
}
use packagekit_dart.Dart.Enums.PkInfo.{PkInfo, int_value}
use packagekit_dart.Dart.Package.{PkPackage}
use packagekit_dart.Dart.Plan.{
  PkInstallPlan, empty_plan, sort_by_info, plan_from, plan_from_packages, change_count,
}

-- The list that a package belongs on: that of its info, and `installing` for the other infos.
abbrev pub category : PkInfo → PkInfo
category PkInfo.updating = PkInfo.updating
category PkInfo.removing = PkInfo.removing
category PkInfo.reinstalling = PkInfo.reinstalling
category PkInfo.downgrading = PkInfo.downgrading
category PkInfo.obsoleting = PkInfo.obsoleting
category _ = PkInfo.installing

abbrev pub has_category : PkInfo → PkPackage → Bool
has_category i p = int_value (category p.info) == int_value i

abbrev pub select : (PkPackage → Bool) → List PkPackage → List PkPackage
select test [] = []
select test (p ∷ ps) = let rest = select test ps in if test p then p ∷ rest else rest

abbrev pub by_category : List PkPackage → PkInstallPlan
by_category pkgs = record {
  installing = select (has_category PkInfo.installing) pkgs;
  updating = select (has_category PkInfo.updating) pkgs;
  removing = select (has_category PkInfo.removing) pkgs;
  reinstalling = select (has_category PkInfo.reinstalling) pkgs;
  downgrading = select (has_category PkInfo.downgrading) pkgs;
  obsoleting = select (has_category PkInfo.obsoleting) pkgs;
}

abbrev append_plan : PkInstallPlan → PkInstallPlan → PkInstallPlan
append_plan a b = record {
  installing = a.installing ++ b.installing;
  updating = a.updating ++ b.updating;
  removing = a.removing ++ b.removing;
  reinstalling = a.reinstalling ++ b.reinstalling;
  downgrading = a.downgrading ++ b.downgrading;
  obsoleting = a.obsoleting ++ b.obsoleting;
}

abbrev single : PkInfo → PkPackage → PkInstallPlan
single PkInfo.updating p = record empty_plan { updating = p ∷ [] }
single PkInfo.removing p = record empty_plan { removing = p ∷ [] }
single PkInfo.reinstalling p = record empty_plan { reinstalling = p ∷ [] }
single PkInfo.downgrading p = record empty_plan { downgrading = p ∷ [] }
single PkInfo.obsoleting p = record empty_plan { obsoleting = p ∷ [] }
single _ p = record empty_plan { installing = p ∷ [] }

append_empty : (plan : PkInstallPlan) → append_plan plan empty_plan ≡ plan
append_empty plan i = record {
  installing = append-nil plan.installing i;
  updating = append-nil plan.updating i;
  removing = append-nil plan.removing i;
  reinstalling = append-nil plan.reinstalling i;
  downgrading = append-nil plan.downgrading i;
  obsoleting = append-nil plan.obsoleting i;
}

append_plan_assoc :
    (a b c : PkInstallPlan) → append_plan (append_plan a b) c ≡ append_plan a (append_plan b c)
append_plan_assoc a b c i = record {
  installing = append_assoc a.installing b.installing c.installing i;
  updating = append_assoc a.updating b.updating c.updating i;
  removing = append_assoc a.removing b.removing c.removing i;
  reinstalling = append_assoc a.reinstalling b.reinstalling c.reinstalling i;
  downgrading = append_assoc a.downgrading b.downgrading c.downgrading i;
  obsoleting = append_assoc a.obsoleting b.obsoleting c.obsoleting i;
}

sort_by_info_lem :
    (i : PkInfo) (p : PkPackage) (plan : PkInstallPlan)
    → sort_by_info i p plan ≡ append_plan plan (single i p)
sort_by_info_lem PkInfo.updating p plan = simp append_laws
sort_by_info_lem _ p plan = simp append_laws

abbrev sorted_plan : PkInfo → PkPackage → List PkPackage → PkInstallPlan
sorted_plan c p ps = record {
  installing =
      (let rest = select (has_category PkInfo.installing) ps in
        if int_value c == int_value PkInfo.installing then p ∷ rest else rest);
  updating =
      (let rest = select (has_category PkInfo.updating) ps in
        if int_value c == int_value PkInfo.updating then p ∷ rest else rest);
  removing =
      (let rest = select (has_category PkInfo.removing) ps in
        if int_value c == int_value PkInfo.removing then p ∷ rest else rest);
  reinstalling =
      (let rest = select (has_category PkInfo.reinstalling) ps in
        if int_value c == int_value PkInfo.reinstalling then p ∷ rest else rest);
  downgrading =
      (let rest = select (has_category PkInfo.downgrading) ps in
        if int_value c == int_value PkInfo.downgrading then p ∷ rest else rest);
  obsoleting =
      (let rest = select (has_category PkInfo.obsoleting) ps in
        if int_value c == int_value PkInfo.obsoleting then p ∷ rest else rest);
}

sorted_plan_lem :
    (i : PkInfo) (p : PkPackage) (ps : List PkPackage)
    → append_plan (single i p) (by_category ps) ≡ sorted_plan (category i) p ps
sorted_plan_lem PkInfo.updating p ps = refl
sorted_plan_lem _ p ps = refl

plan_from_lem :
    (pkgs : List PkPackage) (plan : PkInstallPlan)
    → plan_from pkgs plan ≡ append_plan plan (by_category pkgs)
unfolding plan_from
plan_from_lem [] plan = sym (append_empty plan)
plan_from_lem (p ∷ pkgs) plan =
    plan_from_lem pkgs (sort_by_info p.info p plan)
    ∙ ap (λ q. append_plan q (by_category pkgs)) (sort_by_info_lem p.info p plan)
    ∙ append_plan_assoc plan (single p.info p) (by_category pkgs)
    ∙ ap (append_plan plan) (sorted_plan_lem p.info p pkgs)

-- Each list of the plan has the packages of its category, in the order that they came; the packages
-- whose info is not one of the six are on the list of those to install.
pub plan_from_packages-by_category :
    (pkgs : List PkPackage) → plan_from_packages pkgs ≡ by_category pkgs
unfolding plan_from_packages
plan_from_packages-by_category pkgs = plan_from_lem pkgs empty_plan

count_append :
    (a b : PkInstallPlan) → change_count (append_plan a b) ≡ change_count a + change_count b
unfolding change_count
count_append a b = omega (
  arith,
  length-append a.installing b.installing,
  length-append a.updating b.updating,
  length-append a.removing b.removing,
  length-append a.reinstalling b.reinstalling,
  length-append a.downgrading b.downgrading,
  length-append a.obsoleting b.obsoleting,
)

count_single : (i : PkInfo) (p : PkPackage) → change_count (single i p) ≡ 1
unfolding change_count
count_single PkInfo.updating p = refl
count_single _ p = refl

count_empty : change_count empty_plan ≡ 0
unfolding change_count
count_empty = refl

count_from :
    (pkgs : List PkPackage) (plan : PkInstallPlan)
    → change_count (plan_from pkgs plan) ≡ change_count plan + length pkgs
unfolding plan_from
count_from [] plan = omega arith
count_from (p ∷ pkgs) plan = omega (
  arith,
  count_from pkgs (sort_by_info p.info p plan),
  ap change_count (sort_by_info_lem p.info p plan),
  count_append plan (single p.info p),
  count_single p.info p,
)

-- A plan counts as many changes as there are packages that it was built from.
pub change_count-plan :
    (pkgs : List PkPackage) → change_count (plan_from_packages pkgs) ≡ length pkgs
unfolding plan_from_packages
change_count-plan pkgs = omega (arith, count_from pkgs empty_plan, count_empty)
