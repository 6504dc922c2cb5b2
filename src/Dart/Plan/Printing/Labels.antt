-- ===== src/Dart/Plan/Printing/Labels.antt =====
-- What can be read from the label of a progress.
use packagekit_dart.Base.{
  ℕ, ◌≡◌, refl, ap, ◌∙◌, inl, inr, Bool, true, false, ◌||◌, ◌&&◌, Option, none, some, List, [], ◌∷◌,
  ◌++◌, All, arith, codes, decimal, IsDigit, decimal-IsDigit, read_digits, read_digits-decimal, ◌⊎◌,
  ◌≤◌, ◌<◌, ≤-or-<, le→leb, lt→leb_false, ◌==◌, if◌then◌else◌, Bool-cases,
}
use packagekit_dart.Dart.Core.{DartString}
use packagekit_dart.Dart.Enums.PkStatus.{PkStatus, values}
use packagekit_dart.Dart.Records.{PkProgress}
use packagekit_dart.Dart.Plan.Printing.{name, enum_to_string, progress_label}

abbrev pub before : ℕ → DartString → DartString
before c [] = []
before c (x ∷ xs) = let rest = before c xs in if x == c then [] else x ∷ rest

abbrev pub after : ℕ → DartString → DartString
after c [] = []
after c (x ∷ xs) = let rest = after c xs in if x == c then xs else rest

abbrev pub contains : ℕ → DartString → Bool
contains c [] = false
contains c (x ∷ xs) = (x == c) || contains c xs

abbrev pub same_text : DartString → DartString → Bool
same_text [] [] = true
same_text (x ∷ xs) (y ∷ ys) = (x == y) && same_text xs ys
same_text xs ys = false

-- The number before the percent sign, if there is one.
abbrev pub percentage_in : DartString → Option ℕ
percentage_in label = if contains b'%' label then some (read_digits 0 (before b'%' label)) else none

-- The first status that a text names.
abbrev pub named_by : (PkStatus → Bool) → List PkStatus → Option PkStatus
named_by test [] = none
named_by test (s ∷ rest) = let found = named_by test rest in if test s then some s else found

-- The status in the brackets, by its name alone, and by its name behind that of the enumeration.
abbrev pub short_status_in : DartString → Option PkStatus
short_status_in label = named_by (λ s. same_text (after b'[' label) (name s ++ codes "]")) values

abbrev pub long_status_in : DartString → Option PkStatus
long_status_in label =
    named_by (λ s. same_text (after b'[' label) (codes "PkStatus." ++ (name s ++ codes "]"))) values

before_percent : (xs ys : List ℕ) → All IsDigit xs → before b'%' (xs ++ (b'%' ∷ ys)) ≡ xs
before_percent [] ys h = refl
before_percent (x ∷ xs) ys h =
    let other : (x == b'%') ≡ false = ground (arith, h.0) in
    rw other (ap (◌∷◌ x) (before_percent xs ys h.1))

contains_percent : (xs ys : List ℕ) → contains b'%' (xs ++ (b'%' ∷ ys)) ≡ true
contains_percent [] ys = refl
contains_percent (x ∷ xs) ys = elim (Bool-cases (x == b'%')) [
  | inl hit ↦ rw hit refl
  | inr miss ↦ rw miss (contains_percent xs ys)
]

after_bracket : (xs ys : List ℕ) → All IsDigit xs → after b'[' (xs ++ ys) ≡ after b'[' ys
after_bracket [] ys h = refl
after_bracket (x ∷ xs) ys h =
    let other : (x == b'[') ≡ false = ground (arith, h.0) in rw other (after_bracket xs ys h.1)

status_by_name :
    (s : PkStatus)
    → named_by (λ t. same_text (name s ++ codes "]") (name t ++ codes "]")) values ≡ some s
unfolding name
status_by_name PkStatus.unknown = refl
status_by_name _ = refl

status_by_string :
    (s : PkStatus)
    → named_by
        (λ t.
          same_text (enum_to_string s ++ codes "]") (codes "PkStatus." ++ (name t ++ codes "]")))
        values
      ≡ some s
unfolding name
status_by_string PkStatus.unknown = refl
status_by_string _ = refl

no_percentage : (s : PkStatus) → contains b'%' (codes "[" ++ (name s ++ codes "]")) ≡ false
unfolding name
no_percentage PkStatus.unknown = refl
no_percentage _ = refl

-- The label of a progress can be read back. If its percentage is at most 100, the label has that
-- percentage, and its status in brackets behind the name of the enumeration. If it is more than 100,
-- the label has no percent sign, and the status alone in brackets.
pub progress_label_lem :
    (p : PkProgress)
    → ((p.percentage ≤ 100)
        × (percentage_in (progress_label p) ≡ some p.percentage)
        × (long_status_in (progress_label p) ≡ some p.status))
      ⊎ ((100 < p.percentage)
          × (percentage_in (progress_label p) ≡ none)
          × (short_status_in (progress_label p) ≡ some p.status))
unfolding progress_label
progress_label_lem p =
    let rest = codes "  [" ++ (enum_to_string p.status ++ codes "]") in
    let digits = decimal-IsDigit p.percentage in
    elim (≤-or-< p.percentage 100) [
      | inl low ↦
          let known = le→leb p.percentage 100 low in
          inl (
            low,
            rw (known, contains_percent (decimal p.percentage) rest)
                (ap (λ t. some (read_digits 0 t))
                    (before_percent (decimal p.percentage) rest digits)
                  ∙ ap some (read_digits-decimal p.percentage)),
            rw known (
                ap
                  (λ text.
                    named_by (λ t. same_text text (codes "PkStatus." ++ (name t ++ codes "]")))
                      values)
                  (after_bracket (decimal p.percentage) (b'%' ∷ rest) digits)
                ∙ status_by_string p.status),
          )
      | inr high ↦
          let missing = lt→leb_false p.percentage 100 high in
          inr
            (high, rw (missing, no_percentage p.status) refl, rw missing (status_by_name p.status))
    ]
