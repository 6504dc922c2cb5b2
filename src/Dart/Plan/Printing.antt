-- ===== src/Dart/Plan/Printing.antt =====
-- lib/src/transaction.dart: progressLabel and PkInstallPlan.toString.
pub mod Labels
use packagekit_dart.Base.{
  ℕ, Bool, true, false, List, [], ◌∷◌, ◌++◌, length, codes, decimal, if◌then◌else◌,
}
use packagekit_dart.Dart.Core.{DartString}
use packagekit_dart.Dart.Enums.PkStatus
use packagekit_dart.Dart.Enums.PkStatus.{PkStatus}
use packagekit_dart.Dart.Records.{PkProgress}
use packagekit_dart.Dart.Package.{PkPackage}
use packagekit_dart.Dart.Plan.{PkInstallPlan, percentage_known, is_empty_list}

-- The enumeration's `name`.
unfoldable pub name : PkStatus → DartString
name PkStatus.unknown = codes "unknown"
name PkStatus.wait = codes "wait"
name PkStatus.setup = codes "setup"
name PkStatus.running = codes "running"
name PkStatus.query = codes "query"
name PkStatus.info = codes "info"
name PkStatus.remove = codes "remove"
name PkStatus.refresh_cache = codes "refreshCache"
name PkStatus.download = codes "download"
name PkStatus.install = codes "install"
name PkStatus.update = codes "update"
name PkStatus.cleanup = codes "cleanup"
name PkStatus.obsolete = codes "obsolete"
name PkStatus.dep_resolve = codes "depResolve"
name PkStatus.sig_check = codes "sigCheck"
name PkStatus.test_commit = codes "testCommit"
name PkStatus.commit = codes "commit"
name PkStatus.request = codes "request"
name PkStatus.finished = codes "finished"
name PkStatus.cancel = codes "cancel"
name PkStatus.download_repository = codes "downloadRepository"
name PkStatus.download_packagelist = codes "downloadPackagelist"
name PkStatus.download_filelist = codes "downloadFilelist"
name PkStatus.download_changelog = codes "downloadChangelog"
name PkStatus.download_group = codes "downloadGroup"
name PkStatus.download_updateinfo = codes "downloadUpdateinfo"
name PkStatus.repackaging = codes "repackaging"
name PkStatus.loading_cache = codes "loadingCache"
name PkStatus.scan_applications = codes "scanApplications"
name PkStatus.generate_package_list = codes "generatePackageList"
name PkStatus.waiting_for_lock = codes "waitingForLock"
name PkStatus.waiting_for_auth = codes "waitingForAuth"
name PkStatus.scan_process_list = codes "scanProcessList"
name PkStatus.check_executable_files = codes "checkExecutableFiles"
name PkStatus.check_libraries = codes "checkLibraries"
name PkStatus.copy_files = codes "copyFiles"
name PkStatus.run_hook = codes "runHook"

-- The enumeration's `toString`, as Dart gives it to an enumeration that has none of its own.
abbrev pub enum_to_string : PkStatus → DartString
enum_to_string s = codes "PkStatus." ++ name s

unfoldable pub progress_label : PkProgress → DartString
progress_label p =
    if percentage_known p
    then decimal p.percentage ++ (codes "%  [" ++ (enum_to_string p.status ++ codes "]"))
    else codes "[" ++ (name p.status ++ codes "]")

-- The obsoleted packages are counted only when there are some.
abbrev obsoleted : List PkPackage → DartString
obsoleted pkgs = if is_empty_list pkgs then [] else codes " obs:" ++ decimal (length pkgs)

unfoldable pub plan_to_string : PkInstallPlan → DartString
plan_to_string plan =
    codes "PkInstallPlan(+"
    ++ (decimal (length plan.installing)
        ++ (codes " ↑"
            ++ (decimal (length plan.updating)
                ++ (codes " -"
                    ++ (decimal (length plan.removing)
                        ++ (obsoleted plan.obsoleting ++ codes ")"))))))
