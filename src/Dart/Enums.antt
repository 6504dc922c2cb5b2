-- ===== src/Dart/Enums.antt =====
-- lib/src/enums.dart, a module for each enumeration.
pub mod PkFilter
pub mod PkTransactionFlag
pub mod PkInfo
pub mod PkStatus
pub mod PkExit
pub mod PkError
