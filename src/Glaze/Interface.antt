-- ===== src/Glaze/Interface.antt =====
-- native/include/glaze_meta.h: the namespace glz as the interface that the posting code uses, and its
-- implementation.
use packagekit_dart.Base.{ℕ, Option, List, []}
use packagekit_dart.Glaze
use packagekit_dart.Glaze.{Kind, Value, FieldDescriptor}

pub record Glz : Type 1 where
  pub meta : (T : Type 0) → List (FieldDescriptor T)
  pub encode_field : List ℕ → (k : Kind) → Value k → List ℕ
  pub decode_field : (k : Kind) → List ℕ → ℕ → Option (Value k × ℕ)
  pub encode : {T : Type 0} → List (FieldDescriptor T) → T → List ℕ
  pub decode : {T : Type 0} → List (FieldDescriptor T) → List ℕ → ℕ → T → Option (T × ℕ)

-- meta<T> of a type that it is not specialized for.
abbrev pub default_meta : (T : Type 0) → List (FieldDescriptor T)
default_meta T = []

abbrev pub glz : Glz
glz = record {
  meta = default_meta;
  encode_field = Glaze.encode_field;
  decode_field = Glaze.decode_field;
  encode = Glaze.encode;
  decode = Glaze.decode;
}
