-- ===== src/Dart/Package.antt =====
-- lib/src/package.dart.
pub mod Ids
use packagekit_dart.Base.{ℕ, ℤ, List, [], ◌∷◌, ◌++◌, ◌==◌, if◌then◌else◌}
use packagekit_dart.Dart.Core.{Result, value, throws, format_exception, DartString}
use packagekit_dart.Dart.Enums.PkInfo.{PkInfo}

pub record PkPackageId : Type 0 where
  pub name : DartString
  pub version : DartString
  pub arch : DartString
  pub data_ : DartString

pub record PkPackage : Type 0 where
  pub info : PkInfo
  pub id : PkPackageId
  pub summary : DartString

pub record PkPackageDetail : Type 0 where
  pub id : PkPackageId
  pub summary : DartString
  pub description : DartString
  pub url : DartString
  pub license : DartString
  pub group : DartString
  pub size : ℤ

push_front : ℕ → List DartString → List DartString
push_front c [] = (c ∷ []) ∷ []
push_front c (p ∷ parts) = (c ∷ p) ∷ parts

-- String.split with a pattern of one character.
unfoldable pub split : ℕ → DartString → List DartString
unfolding push_front
split sep [] = [] ∷ []
split sep (c ∷ cs) = let parts = split sep cs in if c == sep then [] ∷ parts else push_front c parts

from_parts : List DartString → Result PkPackageId
from_parts (a ∷ b ∷ c ∷ d ∷ []) = value (record { name = a; version = b; arch = c; data_ = d })
from_parts _ = throws format_exception

unfoldable pub parse : DartString → Result PkPackageId
unfolding split from_parts
parse id = from_parts (split b';' id)

unfoldable pub raw : PkPackageId → DartString
raw p = p.name ++ (b';' ∷ (p.version ++ (b';' ∷ (p.arch ++ (b';' ∷ p.data_)))))

unfoldable pub to_string : PkPackageId → DartString
to_string p = p.name ++ (b'-' ∷ (p.version ++ (b'.' ∷ p.arch)))
