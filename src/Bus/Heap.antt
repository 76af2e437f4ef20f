-- ===== src/Bus/Heap.antt =====
-- A heap of objects: a position is never used twice.
use agenthedge.Prelude.{
  ℕ, zero, suc, ◌≡◌, refl, Option, none, some, List, [], ◌∷◌, length, All, arith, eqb,
  if◌then◌else◌,
}
use mathlib.Core.Option

module _ {A : Type 0} where
  unfoldable pub at : ℕ → List A → Option A
  at i [] = none
  at zero (x ∷ xs) = some x
  at (suc i) (x ∷ xs) = at i xs

  unfoldable pub alter : ℕ → (A → A) → List A → List A
  alter i f [] = []
  alter zero f (x ∷ xs) = f x ∷ xs
  alter (suc i) f (x ∷ xs) = x ∷ alter i f xs

  unfoldable pub allocate : A → List A → List A
  allocate x [] = x ∷ []
  allocate x (y ∷ ys) = y ∷ allocate x ys

  pub All-alter :
      (P : A → Type 0) (f : A → A)
      → ((x : A) → P x → P (f x))
      → (i : ℕ) (xs : List A) → All P xs
      → All P (alter i f xs)
  unfolding alter
  All-alter P f keep i [] h = h
  All-alter P f keep zero (x ∷ xs) h = (keep x h.0, h.1)
  All-alter P f keep (suc i) (x ∷ xs) h = (h.0, All-alter P f keep i xs h.1)

  pub All-allocate : (P : A → Type 0) (x : A) (xs : List A) → P x → All P xs → All P (allocate x xs)
  unfolding allocate
  All-allocate P x [] p h = (p, tt)
  All-allocate P x (y ∷ ys) p h = (h.0, All-allocate P x ys p h.1)

  pub at-alter :
      (i j : ℕ) (f : A → A) (xs : List A)
      → at j (alter i f xs) ≡ (if eqb i j then Option.map f (at j xs) else at j xs)
  unfolding at alter
  at-alter i j f [] = ground arith
  at-alter zero zero f (x ∷ xs) = ground arith
  at-alter zero (suc j) f (x ∷ xs) = ground arith
  at-alter (suc i) zero f (x ∷ xs) = ground arith
  at-alter (suc i) (suc j) f (x ∷ xs) = ground (arith, at-alter i j f xs)

  pub at-allocate_new : (x : A) (xs : List A) → at (length xs) (allocate x xs) ≡ some x
  unfolding at allocate
  at-allocate_new x [] = refl
  at-allocate_new x (y ∷ ys) = at-allocate_new x ys

  pub at-allocate_old :
      (i : ℕ) (x y : A) (xs : List A) → at i xs ≡ some y → at i (allocate x xs) ≡ some y
  unfolding at allocate
  at-allocate_old i x y [] h = cc
  at-allocate_old zero x y (z ∷ zs) h = h
  at-allocate_old (suc i) x y (z ∷ zs) h = at-allocate_old i x y zs h
