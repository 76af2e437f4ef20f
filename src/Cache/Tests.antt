-- ===== src/Cache/Tests.antt =====
-- A cache of two entries.
use agenthedge.Prelude.{
  ℕ, ◌+◌, ◌≡◌, ◌≢◌, eq_iff, refl, Bool, true, false, some, none, List, [], String, ◌∷◌, ltb,
  if◌then◌else◌, arith,
}
use agenthedge.Cache.{TtlCache, store_value, lookup}
use agenthedge.Cache.Bounds.{
  Call, look, write, through, forget, IsBounded, after_calls, after_calls-IsBounded,
}
use agenthedge.Cache.Fresh.{store-lookup}

abbrev small : TtlCache ℕ
small = record { ttl_seconds = 10; max_items = 2; enabled = true; store = [] }

abbrev never : ℕ → Bool
never n = false

abbrev calls : List (Call ℕ)
calls =
    write 0 0 "a" 1
    ∷ write 1 1 "b" 2
    ∷ write 2 2 "c" 3
    ∷ look 11 "b"
    ∷ through 12 12 13 "d" never 4
    ∷ forget "c"
    ∷ []

after_calls-IsBounded_example : IsBounded (after_calls calls small)
after_calls-IsBounded_example = after_calls-IsBounded calls small (omega arith)

abbrev between : List (Call ℕ)
between = look 20 "b" ∷ look 5 "a" ∷ forget "b" ∷ []

other_key : ◌≢◌ {A = String} "b" "a"
other_key e = cc ((eq_iff "b" "a").1 e)

store-lookup_example :
    (lookup 9 "a" (after_calls between (store_value 0 1 "a" 7 small).1)).0
    ≡ (if ltb 9 (1 + 10) then some 7 else none)
unfolding store_value
store-lookup_example =
    store-lookup 0 1 9 "a" 7 7 small between refl refl
      ((λ e. absurd (other_key e)), ((λ e. omega arith), (other_key, tt)))
