-- ===== src/Dart/Enums/PkTransactionFlag.antt =====
-- lib/src/enums.dart: PkTransactionFlag.
use packagekit_dart.Base.{ℕ, List, fold}
use Prim.Native.Nat.{bit_or}

pub data PkTransactionFlag : Type 0 where
  only_trusted simulate only_download allow_reinstall just_reinstall allow_downgrade :
      PkTransactionFlag

-- The enumeration's `value`.
abbrev pub int_value : PkTransactionFlag → ℕ
int_value only_trusted = 2
int_value simulate = 4
int_value only_download = 8
int_value allow_reinstall = 16
int_value just_reinstall = 32
int_value allow_downgrade = 64

unfoldable pub combine : List PkTransactionFlag → ℕ
combine fs = fold (λ acc f. bit_or acc (int_value f)) 0 fs
