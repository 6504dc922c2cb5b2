-- ===== src/Base/Decimal.antt =====
-- Numbers in decimal, as ASCII texts.
use Prim.Native.Nat.{ℕ, zero, suc, ◌+◌, ◌-◌, ◌*◌, ◌/◌, ◌%◌, ◌≤◌, ◌<◌}
use mathlib.Core.Path.{◌≡◌, refl, ap, ◌∙◌}
use mathlib.Core.Logic.{inl, inr}
use mathlib.Core.List.{List, [], ◌∷◌, ◌++◌}
use native.Mathlib.Omega.{arith}
use packagekit_dart.Base.Tests.{ltb, if◌then◌else◌, Bool-cases}
use packagekit_dart.Base.Lists.{All, All-append}

-- The digits of n, with one more unit of fuel than n it has them all.
digits : ℕ → ℕ → List ℕ
digits zero n = []
digits (suc fuel) n =
    let rest = digits fuel (n / 10) in
    if ltb n 10 then (0x30 + n) ∷ [] else rest ++ ((0x30 + n % 10) ∷ [])

unfoldable pub decimal : ℕ → List ℕ
unfolding digits
decimal n = digits (suc n) n

abbrev pub IsDigit : ℕ → Type 0
IsDigit c = (0x30 ≤ c) × (c ≤ 0x39)

-- A number from its digits, behind the digits of `acc`.
abbrev pub read_digits : ℕ → List ℕ → ℕ
read_digits acc [] = acc
read_digits acc (c ∷ cs) = read_digits (acc * 10 + (c - 0x30)) cs

read_digits-append :
    (xs ys : List ℕ) (acc : ℕ) → read_digits acc (xs ++ ys) ≡ read_digits (read_digits acc xs) ys
read_digits-append [] ys acc = refl
read_digits-append (x ∷ xs) ys acc = read_digits-append xs ys (acc * 10 + (x - 0x30))

read_digits-digits : (fuel n : ℕ) → n < fuel → read_digits 0 (digits fuel n) ≡ n
unfolding digits
read_digits-digits zero n h = absurd (omega arith)
read_digits-digits (suc fuel) n h = elim (Bool-cases (ltb n 10)) [
  | inl small ↦ rw small (omega arith)
  | inr large ↦
      (let big : 10 ≤ n = ground arith in
        let smaller : n / 10 < fuel = omega arith in
        rw large (
          read_digits-append (digits fuel (n / 10)) ((0x30 + n % 10) ∷ []) 0
          ∙ ap (λ m. m * 10 + ((0x30 + n % 10) - 0x30)) (read_digits-digits fuel (n / 10) smaller)
          ∙ omega arith))
]

pub read_digits-decimal : (n : ℕ) → read_digits 0 (decimal n) ≡ n
unfolding decimal
read_digits-decimal n = read_digits-digits (suc n) n (omega arith)

digits-IsDigit : (fuel n : ℕ) → All IsDigit (digits fuel n)
unfolding digits
digits-IsDigit zero n = tt
digits-IsDigit (suc fuel) n = elim (Bool-cases (ltb n 10)) [
  | inl small ↦ (let low : n < 10 = ground arith in rw small ((omega arith, omega arith), tt))
  | inr large ↦ rw large (
      All-append IsDigit (digits fuel (n / 10)) ((0x30 + n % 10) ∷ [])
        (digits-IsDigit fuel (n / 10)) ((omega arith, omega arith), tt))
]

pub decimal-IsDigit : (n : ℕ) → All IsDigit (decimal n)
unfolding decimal
decimal-IsDigit n = digits-IsDigit (suc n) n
