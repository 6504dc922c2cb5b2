-- ===== src/Dart.antt =====
-- The Dart package, lib/.
pub mod Core
pub mod Utf8
pub mod Enums
pub mod Package
pub mod Reader
pub mod Codec
pub mod Dispatcher
pub mod Bindings
pub mod Plan
pub mod ManagerEvents
pub mod Client
pub mod Records
