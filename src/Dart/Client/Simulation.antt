-- ===== src/Dart/Client/Simulation.antt =====
-- The methods of lib/src/packagekit_client.dart that simulate: their flag, and the plan they collect.
use Prim.Native.Nat.{digits, max, bit_or, bit_or-bitwise}
use packagekit_dart.Base.{
  ℕ, zero, suc, ◌+◌, ◌*◌, ◌/◌, ◌%◌, ◌≤◌, ◌≡◌, refl, ap, ◌∙◌, List, [], ◌∷◌, ◌++◌, fold, arith,
}
use packagekit_dart.Dart.Enums.PkTransactionFlag.{PkTransactionFlag, simulate, int_value, combine}

-- bit_or, a digit at a time.
abbrev or_digits : ℕ → ℕ → ℕ → ℕ
or_digits n a b = digits (λ b. b) max n a b

or_digits_fuel : (n m a b : ℕ) → a ≤ n → a ≤ m → or_digits n a b ≡ or_digits m a b
or_digits_fuel zero zero a b p q = refl
or_digits_fuel zero (suc m) zero b p q = refl
or_digits_fuel zero (suc m) (suc a) b p q = absurd (omega arith)
or_digits_fuel (suc n) zero zero b p q = refl
or_digits_fuel (suc n) zero (suc a) b p q = absurd (omega arith)
or_digits_fuel (suc n) (suc m) zero b p q = refl
or_digits_fuel (suc n) (suc m) (suc a) b p q =
    omega (arith, or_digits_fuel n m (suc a / 2) (b / 2) (omega arith) (omega arith))

zero-bit_or : (b : ℕ) → bit_or 0 b ≡ b
zero-bit_or b = bit_or-bitwise 0 b

bit_or_step : (a b : ℕ) → bit_or a b ≡ bit_or (a / 2) (b / 2) * 2 + max (a % 2) (b % 2)
bit_or_step zero b = omega (arith, zero-bit_or b, zero-bit_or (b / 2))
bit_or_step (suc a) b = omega (
  arith,
  bit_or-bitwise (suc a) b,
  bit_or-bitwise (suc a / 2) (b / 2),
  or_digits_fuel a (suc a / 2) (suc a / 2) (b / 2) (omega arith) (omega arith),
)

bit_or_four : (a : ℕ) → bit_or a 4 / 4 % 2 ≡ 1
bit_or_four a = omega (arith, bit_or_step a 4, bit_or_step (a / 2) 2, bit_or_step (a / 2 / 2) 1)

combine_from :
    (flags : List PkTransactionFlag) (acc : ℕ)
    → fold (λ n f. bit_or n (int_value f)) acc (flags ++ (simulate ∷ []))
      ≡ bit_or (fold (λ n f. bit_or n (int_value f)) acc flags) 4
combine_from [] acc = refl
combine_from (f ∷ flags) acc = combine_from flags (bit_or acc (int_value f))

-- Whatever flags are asked for, the combined flags of a simulation have the simulate bit.
pub combine_simulates :
    (flags : List PkTransactionFlag) → combine (flags ++ (simulate ∷ [])) / 4 % 2 ≡ 1
unfolding combine
combine_simulates flags = ap (λ n. n / 4 % 2) (combine_from flags 0) ∙ bit_or_four (combine flags)
