-- ===== src/Examples/Native.antt =====
-- The native signal handlers, the plan and the label of a progress at concrete inputs.
use packagekit_dart.Base.{
  ◌≤◌, ◌<◌, ◌⊎◌, none, ◌≡◌, refl, false, some, List, [], ◌∷◌, codes, decimal,
}
use packagekit_dart.Bus.{thrown, text}
use packagekit_dart.PkTransaction.Signals.{Signal, details, find_key, on_signal}
use packagekit_dart.PkTransaction.Posts.{on_signal_lem}
use packagekit_dart.Dart.Enums.PkInfo
use packagekit_dart.Dart.Package.{PkPackage}
use packagekit_dart.Dart.Plan.{plan_from_packages}
use packagekit_dart.Dart.Plan.Sorting.{by_category, plan_from_packages-by_category}
use packagekit_dart.Dart.Enums.PkStatus
use packagekit_dart.Dart.Records.{PkProgress}
use packagekit_dart.Dart.Plan.Printing.{progress_label, name}
use packagekit_dart.Dart.Plan.Printing.Labels.{
  long_status_in, short_status_in, percentage_in, progress_label_lem,
}
use packagekit_dart.Examples.{scripted, a_bridge, a_world}

-- A Details signal whose size is a text.
abbrev bad_details : Signal
bad_details = details (("package-id", text (codes "a")) ∷ ("size", text (codes "9")) ∷ [])

on_signal_lem_example :
    on_signal (scripted []) a_bridge bad_details a_world ≡ (thrown (codes "type"), a_world)
unfolding find_key
on_signal_lem_example = on_signal_lem (scripted []) a_bridge bad_details a_world

abbrev a_package : PkInfo.PkInfo → PkPackage
a_package info = record {
  info = info;
  id = record { name = codes "a"; version = codes "1"; arch = codes "x"; data_ = [] };
  summary = [];
}

abbrev some_packages : List PkPackage
some_packages =
    a_package PkInfo.removing ∷ a_package PkInfo.available ∷ a_package PkInfo.installing ∷ []

plan_from_packages-by_category_example :
    plan_from_packages some_packages ≡ by_category some_packages
plan_from_packages-by_category_example = plan_from_packages-by_category some_packages

abbrev some_progress : PkProgress
some_progress = record {
  package_id = codes "";
  status = PkStatus.install;
  percentage = 42;
  is_item = false;
}

progress_label_lem_example :
    ((42 ≤ 100)
      × (percentage_in (progress_label some_progress) ≡ some 42)
      × (long_status_in (progress_label some_progress) ≡ some PkStatus.install))
    ⊎ ((100 < 42)
        × (percentage_in (progress_label some_progress) ≡ none)
        × (short_status_in (progress_label some_progress) ≡ some PkStatus.install))
progress_label_lem_example = progress_label_lem some_progress

some_progress-label : progress_label some_progress ≡ codes "42%  [PkStatus.install]"
unfolding progress_label name decimal
some_progress-label = refl
