-- ===== src/Dart/Core.antt =====
-- What the Dart code under lib/ uses of the language: exceptions, strings and byte views.
-- A String is its code points. An int is a number where it cannot be negative.
use packagekit_dart.Base.{
  ℕ, ◌≡◌, refl, ◌⊎◌, inl, inr, Bool, true, List, [], ◌∷◌, length, take, drop, Bool-cases,
  if◌then◌else◌,
}

-- The exceptions that the language and dart:core throw here.
pub data DartError : Type 0 where
  range_error format_exception state_error argument_error : DartError

pub data Result {ℓ} (A : Type ℓ) : Type ℓ where
  value : A → Result A
  throws : DartError → Result A

infixl 5 ◌>>=◌ ◌>>◌
abbrev pub ◌>>=◌ {ℓ κ} : {A : Type ℓ} {B : Type κ} → Result A → (A → Result B) → Result B
value a >>= f = f a
throws e >>= f = throws e

abbrev pub ◌>>◌ {ℓ} : {B : Type ℓ} → Result (Unit {0}) → Result B → Result B
m >> k = m >>= λ _. k

abbrev pub DartString : Type 0
DartString = List ℕ

-- A Uint8List is a view of `len` bytes of a buffer.
pub record Uint8List : Type 0 where
  pub buffer : List ℕ
  pub offset_in_bytes : ℕ
  pub len : ℕ

abbrev pub view_bytes : Uint8List → List ℕ
view_bytes l = take l.len (drop l.offset_in_bytes l.buffer)

-- A list of its own buffer, as a message port delivers it.
abbrev pub of_bytes : List ℕ → Uint8List
of_bytes bs = record { buffer = bs; offset_in_bytes = 0; len = length bs }

-- Iterable.firstWhere with orElse.
unfoldable pub first_where : {A : Type 0} → (A → Bool) → List A → A → A
first_where p [] default = default
first_where p (x ∷ xs) default = if p x then x else first_where p xs default

pub first_where_found :
    {A : Type 0} (p : A → Bool) (xs : List A) (default : A)
    → (p (first_where p xs default) ≡ true) ⊎ (first_where p xs default ≡ default)
unfolding first_where
first_where_found p [] default = inr refl
first_where_found p (x ∷ xs) default = elim (Bool-cases (p x)) [
  | inl hit ↦ rw hit (inl hit)
  | inr miss ↦ rw miss (first_where_found p xs default)
]
