-- ===== src/Prelude/Dicts.antt =====
-- A Python dict with string keys, in insertion order: writing to a key that is there keeps its place.
use mathlib.Core.Path.{◌≡◌, refl, subst}
use mathlib.Core.Bool.{false}
use mathlib.Core.Logic.{inl, inr}
use mathlib.Core.Option.{Option, none, some}
use mathlib.Core.List.{List, [], ◌∷◌}
use native.Mathlib.Omega.{arith}
use Prim.Native.Nat.{◌≤◌, ◌+◌}
use Prim.Native.String.{String}
use text.Mathlib.Text.{◌==◌}
use text.Mathlib.TextEquality.{eq_iff}
use text.Mathlib.TextPositions.{eq_refl}
use agenthedge.Prelude.Tests.{if◌then◌else◌, Bool-cases}
use agenthedge.Prelude.Lists.{length, All, All-map}

abbrev pub Dict {ℓ} : Type ℓ → Type ℓ
Dict V = List (String × V)

module _ {ℓ} {V : Type ℓ} where
  -- `d.get(k)`
  unfoldable pub get : String → Dict V → Option V
  get k [] = none
  get k ((j, v) ∷ d) = if j == k then some v else get k d

  -- `d[k] = v`
  unfoldable pub put : String → V → Dict V → Dict V
  put k v [] = (k, v) ∷ []
  put k v ((j, w) ∷ d) = if j == k then (k, v) ∷ d else (j, w) ∷ put k v d

  -- `d.pop(k, None)`; a dict holds a key once, and removing every entry of it keeps the law plain
  unfoldable pub pop : String → Dict V → Dict V
  pop k [] = []
  pop k ((j, w) ∷ d) = if j == k then pop k d else (j, w) ∷ pop k d

  -- `d.values()`
  abbrev pub values : Dict V → List V
  values [] = []
  values ((_, v) ∷ d) = v ∷ values d

  pub get-put :
      (k j : String) (v : V) (d : Dict V) → get j (put k v d) ≡ (if k == j then some v else get j d)
  unfolding get put
  get-put k j v [] = refl
  get-put k j v ((i, w) ∷ d) = ground (arith, eq_iff k j, eq_iff i k, eq_iff i j, get-put k j v d)

  pub get-pop : (k j : String) (d : Dict V) → get j (pop k d) ≡ (if k == j then none else get j d)
  unfolding get pop
  get-pop k j [] = ground arith
  get-pop k j ((i, w) ∷ d) = ground (arith, eq_iff k j, eq_iff i k, eq_iff i j, get-pop k j d)

module _ {V : Type 0} where
  -- no key stands twice, as in every dict
  abbrev pub IsDict : Dict V → Type 0
  IsDict [] = Unit
  IsDict ((k, v) ∷ d) = (get k d ≡ none) × IsDict d

  pub put-IsDict : (k : String) (v : V) (d : Dict V) → IsDict d → IsDict (put k v d)
  unfolding put get
  put-IsDict k v [] h = (refl, tt)
  put-IsDict k v ((i, w) ∷ d) h =
      ground (arith, eq_iff i k, eq_iff k i, get-put k i v d, put-IsDict k v d h.1)

  pub pop-IsDict : (k : String) (d : Dict V) → IsDict d → IsDict (pop k d)
  unfolding pop
  pop-IsDict k [] h = tt
  pop-IsDict k ((i, w) ∷ d) h = ground (arith, get-pop k i d, pop-IsDict k d h.1)

  -- What holds of each entry, and of the new one, holds after a write.
  pub All-put :
      (P : String × V → Type 0) (k : String) (v : V) (d : Dict V)
      → P (k, v)
      → All P d
      → All P (put k v d)
  unfolding put
  All-put P k v [] p h = (p, tt)
  All-put P k v ((i, w) ∷ d) p h = elim (Bool-cases (i == k)) [
    | inl e ↦ rw e (p, h.1)
    | inr n ↦ rw n (h.0, All-put P k v d p h.1)
  ]

  -- The entries that a removal leaves have other keys.
  pub All-pop :
      (P Q : String × V → Type 0) (k : String)
      → ((j : String) (v : V) → (j == k) ≡ false → P (j, v) → Q (j, v))
      → (d : Dict V) → All P d
      → All Q (pop k d)
  unfolding pop
  All-pop P Q k f [] h = tt
  All-pop P Q k f ((i, w) ∷ d) h = elim (Bool-cases (i == k)) [
    | inl e ↦ rw e (All-pop P Q k f d h.1)
    | inr n ↦ rw n (f i w n h.0, All-pop P Q k f d h.1)
  ]

  pub All-get :
      (P : String × V → Type 0) (k : String) (v : V) (d : Dict V)
      → All P d
      → get k d ≡ some v
      → P (k, v)
  unfolding get
  All-get P k v [] h e = cc
  All-get P k v ((i, w) ∷ d) h e = elim (Bool-cases (i == k)) [
    | inl q ↦ subst P (cc ((eq_iff i k).0 q, (rw q at e))) h.0
    | inr n ↦ All-get P k v d h.1 (rw n at e)
  ]

  -- Each entry is what its key finds.
  pub entries_found : (d : Dict V) → IsDict d → All (λ s. get s.0 d ≡ some s.1) d
  unfolding get
  entries_found [] h = tt
  entries_found ((i, w) ∷ d) h = (
    rw (eq_refl i),
    All-map (λ s. get s.0 d ≡ some s.1) (λ s. get s.0 ((i, w) ∷ d) ≡ some s.1)
        (λ s e. ground (arith, eq_iff i s.0, h.0)) d (entries_found d h.1),
  )

module _ {ℓ} {V : Type ℓ} where
  pub get-put_self : (k : String) (v : V) (d : Dict V) → get k (put k v d) ≡ some v
  get-put_self k v d = simp (get-put, eq_refl)

  pub length-put : (k : String) (v : V) (d : Dict V) → length (put k v d) ≤ length d + 1
  unfolding put
  length-put k v [] = omega arith
  length-put k v ((i, w) ∷ d) = ground (arith, length-put k v d)

  pub length-pop : (k : String) (d : Dict V) → length (pop k d) ≤ length d
  unfolding pop
  length-pop k [] = omega arith
  length-pop k ((i, w) ∷ d) = ground (arith, length-pop k d)

  -- Removing a key that is there shortens the dict.
  pub length-pop_member :
      (k : String) (v : V) (d : Dict V) → get k d ≡ some v → length (pop k d) + 1 ≤ length d
  unfolding get pop
  length-pop_member k v [] h = cc
  length-pop_member k v ((i, w) ∷ d) h = ground (arith, length-pop k d, length-pop_member k v d)

pub ruleset dict_laws = (get-put, get-pop)
