-- ===== src/Dart/Enums/PkFilter.antt =====
-- lib/src/enums.dart: PkFilter.
use packagekit_dart.Base.{ℕ, List, fold}
use Prim.Native.Nat.{bit_or}

pub data PkFilter : Type 0 where
  none installed not_installed development not_development gui not_gui free_ not_free visible
        not_visible supported not_supported base_name not_base_name newest not_newest arch not_arch
        source not_source collections not_collections application not_application downloaded
        not_downloaded :
      PkFilter

-- The enumeration's `value`.
abbrev pub int_value : PkFilter → ℕ
int_value none = 0
int_value installed = 4
int_value not_installed = 8
int_value development = 16
int_value not_development = 32
int_value gui = 64
int_value not_gui = 128
int_value free_ = 256
int_value not_free = 512
int_value visible = 1024
int_value not_visible = 2048
int_value supported = 0x1000
int_value not_supported = 0x2000
int_value base_name = 0x4000
int_value not_base_name = 0x8000
int_value newest = 0x10000
int_value not_newest = 0x20000
int_value arch = 0x40000
int_value not_arch = 0x80000
int_value source = 0x100000
int_value not_source = 0x200000
int_value collections = 0x400000
int_value not_collections = 0x800000
int_value application = 0x1000000
int_value not_application = 0x2000000
int_value downloaded = 0x4000000
int_value not_downloaded = 0x8000000

unfoldable pub combine : List PkFilter → ℕ
combine fs = fold (λ acc f. bit_or acc (int_value f)) 0 fs
