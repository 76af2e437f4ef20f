-- ===== src/Prelude/Lists.antt =====
-- Lists measured by native numbers, predicates on lists by recursion, and filters by Boolean tests.
use Prim.Native.Nat.{ℕ, zero, suc, ◌+◌, ◌-◌, ◌≤◌}
use mathlib.Core.Path.{◌≡◌, subst}
use mathlib.Core.Bool.{Bool, false, ◌||◌}
use mathlib.Core.Logic.{◌⊎◌, inl, inr}
use mathlib.Core.List.{List, [], ◌∷◌, ◌++◌, map}
use native.Mathlib.Omega.{arith}
use agenthedge.Prelude.Tests.{if◌then◌else◌}

module _ {ℓ} {A : Type ℓ} where
  abbrev pub length : List A → ℕ
  length [] = 0
  length (x ∷ xs) = suc (length xs)

  abbrev pub drop : ℕ → List A → List A
  drop zero xs = xs
  drop (suc n) [] = []
  drop (suc n) (x ∷ xs) = drop n xs

  -- the Python slice `xs[-n:]` for a positive `n`
  abbrev pub last_n : ℕ → List A → List A
  last_n n xs = drop (length xs - n) xs

  pub length-append : (xs ys : List A) → length (xs ++ ys) ≡ length xs + length ys
  length-append [] ys = omega arith
  length-append (x ∷ xs) ys = omega (arith, length-append xs ys)

  pub length-drop : (n : ℕ) (xs : List A) → length (drop n xs) ≡ length xs - n
  length-drop zero xs = omega arith
  length-drop (suc n) [] = omega arith
  length-drop (suc n) (x ∷ xs) = omega (arith, length-drop n xs)

  -- `[x for x in xs if test(x)]`
  abbrev pub keep_if : (A → Bool) → List A → List A
  keep_if test [] = []
  keep_if test (x ∷ xs) = let rest = keep_if test xs in if test x then x ∷ rest else rest

  -- `any(test(x) for x in xs)`
  abbrev pub any : (A → Bool) → List A → Bool
  any test [] = false
  any test (x ∷ xs) = test x || any test xs

  -- the number of items that pass a test
  abbrev pub tally : (A → Bool) → List A → ℕ
  tally test [] = 0
  tally test (x ∷ xs) = let rest = tally test xs in if test x then suc rest else rest

  pub length-keep_if : (test : A → Bool) (xs : List A) → length (keep_if test xs) ≤ length xs
  length-keep_if test [] = omega arith
  length-keep_if test (x ∷ xs) = ground (arith, length-keep_if test xs)

  pub tally-append :
      (test : A → Bool) (xs ys : List A) → tally test (xs ++ ys) ≡ tally test xs + tally test ys
  tally-append test [] ys = omega arith
  tally-append test (x ∷ xs) ys = ground (arith, tally-append test xs ys)

module _ {A : Type 0} where
  abbrev pub All : (A → Type 0) → List A → Type 0
  All P [] = Unit
  All P (x ∷ xs) = P x × All P xs

  abbrev pub Any : (A → Type 0) → List A → Type 0
  Any P [] = ⊥
  Any P (x ∷ xs) = P x ⊎ Any P xs

  pub All-append : (P : A → Type 0) (xs ys : List A) → All P xs → All P ys → All P (xs ++ ys)
  All-append P [] ys h k = k
  All-append P (x ∷ xs) ys h k = (h.0, All-append P xs ys h.1 k)

  pub All-map : (P Q : A → Type 0) → ((a : A) → P a → Q a) → (xs : List A) → All P xs → All Q xs
  All-map P Q f [] h = h
  All-map P Q f (x ∷ xs) h = (f x h.0, All-map P Q f xs h.1)

  pub All-drop : (P : A → Type 0) (n : ℕ) (xs : List A) → All P xs → All P (drop n xs)
  All-drop P zero xs h = h
  All-drop P (suc n) [] h = h
  All-drop P (suc n) (x ∷ xs) h = All-drop P n xs h.1

  pub All-keep_if :
      (P : A → Type 0) (test : A → Bool) (xs : List A) → All P xs → All P (keep_if test xs)
  All-keep_if P test [] h = h
  All-keep_if P test (x ∷ xs) h = ground (arith, All-keep_if P test xs h.1)

  pub All-at : (P : A → Type 0) (a : A) (xs : List A) → All P xs → Any (λ x. x ≡ a) xs → P a
  All-at P a [] h m = absurd m
  All-at P a (x ∷ xs) h (inl e) = subst P e h.0
  All-at P a (x ∷ xs) h (inr m) = All-at P a xs h.1 m

-- What a function makes of the items.
pub All-image :
    {A B : Type 0} (P : A → Type 0) (Q : B → Type 0) (f : A → B)
    → ((a : A) → P a → Q (f a))
    → (xs : List A) → All P xs
    → All Q (map f xs)
All-image P Q f k [] h = tt
All-image P Q f k (x ∷ xs) h = (k x h.0, All-image P Q f k xs h.1)
