-- ===== src/Base/Lists.antt =====
-- Lists measured and cut by native numbers, and predicates on all their elements.
use Prim.Native.Nat.{ℕ, zero, suc, ◌+◌, ◌≤◌}
use mathlib.Core.Path.{◌≡◌, refl, sym, ap, ◌∙◌}
use mathlib.Core.List.{List, [], ◌∷◌, ◌++◌}
use native.Mathlib.Nat.{zero-add, suc-add}
use native.Mathlib.Omega.{arith}

module _ {ℓ} {A : Type ℓ} where
  abbrev pub length : List A → ℕ
  length [] = 0
  length (x ∷ xs) = suc (length xs)

  abbrev pub take : ℕ → List A → List A
  take zero xs = []
  take (suc n) [] = []
  take (suc n) (x ∷ xs) = x ∷ take n xs

  abbrev pub drop : ℕ → List A → List A
  drop zero xs = xs
  drop (suc n) [] = []
  drop (suc n) (x ∷ xs) = drop n xs

  abbrev pub fold {κ} : {B : Type κ} → (B → A → B) → B → List A → B
  fold f acc [] = acc
  fold f acc (x ∷ xs) = fold f (f acc x) xs

  pub length-append : (xs ys : List A) → length (xs ++ ys) ≡ length xs + length ys
  length-append [] ys = omega arith
  length-append (x ∷ xs) ys = omega (arith, length-append xs ys)

  pub take-length-append : (xs ys : List A) → take (length xs) (xs ++ ys) ≡ xs
  take-length-append [] ys = refl
  take-length-append (x ∷ xs) ys = ap (◌∷◌ x) (take-length-append xs ys)

  pub drop-length-append : (xs ys : List A) → drop (length xs) (xs ++ ys) ≡ ys
  drop-length-append [] ys = refl
  drop-length-append (x ∷ xs) ys = drop-length-append xs ys

  pub drop-nil : (n : ℕ) → ◌≡◌ {A = List A} (drop n []) []
  drop-nil zero = refl
  drop-nil (suc n) = refl

  pub drop-add : (m n : ℕ) (xs : List A) → drop (m + n) xs ≡ drop n (drop m xs)
  drop-add zero n xs = rw zero-add
  drop-add (suc m) n [] = rw suc-add (sym (drop-nil n))
  drop-add (suc m) n (x ∷ xs) = rw suc-add (drop-add m n xs)

  pub take-drop-append :
      (o n : ℕ) (xs ys : List A)
      → o + n ≤ length xs
      → take n (drop o (xs ++ ys)) ≡ take n (drop o xs)
  take-drop-append zero zero xs ys h = refl
  take-drop-append zero (suc n) [] ys h = absurd (omega arith)
  take-drop-append zero (suc n) (x ∷ xs) ys h =
      ap (◌∷◌ x) (take-drop-append zero n xs ys (omega arith))
  take-drop-append (suc o) n [] ys h = absurd (omega arith)
  take-drop-append (suc o) n (x ∷ xs) ys h = take-drop-append o n xs ys (omega arith)

  abbrev pub All {κ} : (A → Type κ) → List A → Type κ
  All P [] = Unit {κ}
  All P (x ∷ xs) = P x × All P xs

  pub All-append {κ} : (P : A → Type κ) (xs ys : List A) → All P xs → All P ys → All P (xs ++ ys)
  All-append P [] ys hx hy = hy
  All-append P (x ∷ xs) ys hx hy = (hx.0, All-append P xs ys hx.1 hy)

  -- What is left of `xs` from position `o` on.
  abbrev pub At : List A → ℕ → List A → Type ℓ
  At xs o rest = (drop o xs ≡ rest) × (length xs ≡ o + length rest)

  pub At-start : (xs : List A) → At xs 0 xs
  At-start xs = (refl, sym (zero-add (length xs)))

  pub At-advance :
      (xs : List A) (o : ℕ) (front rest : List A)
      → At xs o (front ++ rest)
      → At xs (o + length front) rest
  At-advance xs o front rest h = (
    drop-add o (length front) xs ∙ ap (drop (length front)) h.0 ∙ drop-length-append front rest,
    omega (arith, h.1, length-append front rest),
  )

  pub At-take :
      (xs : List A) (o : ℕ) (front rest : List A)
      → At xs o (front ++ rest)
      → take (length front) (drop o xs) ≡ front
  At-take xs o front rest h = ap (take (length front)) h.0 ∙ take-length-append front rest

  pub At-bound :
      (xs : List A) (o : ℕ) (front rest : List A)
      → At xs o (front ++ rest)
      → o + length front ≤ length xs
  At-bound xs o front rest h = omega (arith, h.1, length-append front rest)
