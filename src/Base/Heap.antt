-- ===== src/Base/Heap.antt =====
-- Objects at addresses, as an association list.
use Prim.Native.Nat.{ℕ, ◌≤◌, ◌<◌}
use mathlib.Core.Path.{◌≡◌, refl}
use mathlib.Core.Logic.{◌≢◌}
use mathlib.Core.Option.{Option, none, some}
use mathlib.Core.List.{List, [], ◌∷◌, ◌++◌}
use native.Mathlib.Omega.{arith}
use packagekit_dart.Base.Tests.{◌==◌, if◌then◌else◌, Bool-cases}
use mathlib.Core.Logic.{inl, inr}

module _ {ℓ} {A : Type ℓ} where
  pub find : ℕ → List (ℕ × A) → Option A
  find p [] = none
  find p ((q, a) ∷ heap) = if q == p then some a else find p heap

  pub free : ℕ → List (ℕ × A) → List (ℕ × A)
  free p [] = []
  free p ((q, a) ∷ heap) = let rest = free p heap in if q == p then rest else (q, a) ∷ rest

  pub find_new : (p : ℕ) (a : A) (heap : List (ℕ × A)) → find p ((p, a) ∷ heap) ≡ some a
  unfolding find
  find_new p a heap = ground arith

  pub find_other :
      (p q : ℕ) (a : A) (heap : List (ℕ × A)) → q ≢ p → find p ((q, a) ∷ heap) ≡ find p heap
  unfolding find
  find_other p q a heap h = ground arith

  pub find-free_self : (p : ℕ) (heap : List (ℕ × A)) → find p (free p heap) ≡ none
  unfolding find free
  find-free_self p [] = refl
  find-free_self p ((q, a) ∷ heap) = ground (arith, find-free_self p heap)

  pub find-free_ne : (p q : ℕ) (heap : List (ℕ × A)) → q ≢ p → find p (free q heap) ≡ find p heap
  unfolding find free
  find-free_ne p q [] h = refl
  find-free_ne p q ((r, a) ∷ heap) h = ground (arith, find-free_ne p q heap h)

  -- Every address is at most n.
  abbrev pub Below : ℕ → List (ℕ × A) → Type 0
  Below n [] = Unit {0}
  Below n ((q, a) ∷ heap) = (q ≤ n) × Below n heap

  pub Below-grow : (m n : ℕ) (heap : List (ℕ × A)) → m ≤ n → Below m heap → Below n heap
  Below-grow m n [] le h = tt
  Below-grow m n ((q, a) ∷ heap) le h = (omega (arith, h.0), Below-grow m n heap le h.1)

  pub find-Below : (n p : ℕ) (heap : List (ℕ × A)) → Below n heap → n < p → find p heap ≡ none
  unfolding find
  find-Below n p [] h lt = refl
  find-Below n p ((q, a) ∷ heap) h lt = ground (arith, find-Below n p heap h.1 lt, h.0)

  pub free-Below : (n p : ℕ) (heap : List (ℕ × A)) → Below n heap → Below n (free p heap)
  unfolding free
  free-Below n p [] h = tt
  free-Below n p ((q, a) ∷ heap) h = elim (Bool-cases (q == p)) [
    | inl same ↦ rw same (free-Below n p heap h.1)
    | inr other ↦ rw other ((h.0, free-Below n p heap h.1))
  ]

  -- Every address is above n.
  abbrev pub Above : ℕ → List (ℕ × A) → Type 0
  Above n [] = Unit {0}
  Above n ((q, a) ∷ heap) = (n < q) × Above n heap

  pub Below-append : (n : ℕ) (xs ys : List (ℕ × A)) → Below n xs → Below n ys → Below n (xs ++ ys)
  Below-append n [] ys hx hy = hy
  Below-append n ((q, a) ∷ xs) ys hx hy = (hx.0, Below-append n xs ys hx.1 hy)

  pub find-append :
      (n p : ℕ) (xs ys : List (ℕ × A)) → Below n xs → n < p → find p (xs ++ ys) ≡ find p ys
  unfolding find
  find-append n p [] ys h lt = refl
  find-append n p ((q, a) ∷ xs) ys h lt = ground (arith, find-append n p xs ys h.1 lt, h.0)

  pub free-append :
      (n p : ℕ) (xs ys : List (ℕ × A)) → Below n xs → n < p → free p (xs ++ ys) ≡ xs ++ free p ys
  unfolding free
  free-append n p [] ys h lt = refl
  free-append n p ((q, a) ∷ xs) ys h lt = ground (arith, free-append n p xs ys h.1 lt, h.0)

  pub free-Above : (n p : ℕ) (xs : List (ℕ × A)) → Above n xs → p ≤ n → free p xs ≡ xs
  unfolding free
  free-Above n p [] h le = refl
  free-Above n p ((q, a) ∷ xs) h le = ground (arith, free-Above n p xs h.1 le, h.0)

  pub free_new : (p : ℕ) (a : A) (heap : List (ℕ × A)) → free p ((p, a) ∷ heap) ≡ free p heap
  unfolding free
  free_new p a heap = ground arith

  pub free_other :
      (p q : ℕ) (a : A) (heap : List (ℕ × A))
      → q ≢ p
      → free p ((q, a) ∷ heap) ≡ (q, a) ∷ free p heap
  unfolding free
  free_other p q a heap h = ground arith
