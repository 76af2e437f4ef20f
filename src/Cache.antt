-- ===== src/Cache.antt =====
-- `TTLCache` (src/data/cache.py). Times are whole ticks of one clock; a call that reads the clock twice
-- takes both readings.
pub mod Bounds
pub mod Fresh
mod Tests
use agenthedge.Prelude.{
  ℕ, ◌+◌, Bool, true, false, not, Option, none, some, List, [], ◌∷◌, String, Dict, get, put, pop,
  length, if◌then◌else◌, ltb, leb, Result, ok, err,
}

pub record Entry {ℓ} (A : Type ℓ) : Type ℓ where
  pub expires_at : ℕ
  pub value : A

pub record TtlCache {ℓ} (A : Type ℓ) : Type ℓ where
  pub ttl_seconds : ℕ
  pub max_items : ℕ
  pub enabled : Bool
  pub store : Dict (Entry A)

-- `min()` of no item
pub data CacheError : Type 0 where
  empty_min : CacheError

module _ {A : Type 0} where
  abbrev pub looked_up : ℕ → String → TtlCache A → Option (Entry A) → Option A × TtlCache A
  looked_up now key c none = (none, c)
  looked_up now key c (some e) =
      if leb e.expires_at now
      then (none, record c { store = pop key c.store })
      else (some e.value, c)

  -- `get`
  unfoldable pub lookup : ℕ → String → TtlCache A → Option A × TtlCache A
  lookup now key c = if not c.enabled then (none, c) else looked_up now key c (get key c.store)

  unfoldable pub expired_keys : ℕ → Dict (Entry A) → List String
  expired_keys now [] = []
  expired_keys now ((k, e) ∷ d) =
      let rest = expired_keys now d in if leb e.expires_at now then k ∷ rest else rest

  unfoldable pub pop_all : List String → Dict (Entry A) → Dict (Entry A)
  pop_all [] d = d
  pop_all (k ∷ ks) d = pop_all ks (pop k d)

  -- `_evict_expired_locked`
  unfoldable pub evict_expired : ℕ → Dict (Entry A) → Dict (Entry A)
  unfolding expired_keys pop_all
  evict_expired now d = pop_all (expired_keys now d) d

  -- the first entry of those that expire soonest, given the best so far
  unfoldable pub stalest : String → ℕ → Dict (Entry A) → String
  stalest best soonest [] = best
  stalest best soonest ((k, e) ∷ d) =
      if ltb e.expires_at soonest then stalest k e.expires_at d else stalest best soonest d

  abbrev pub drop_stalest : Dict (Entry A) → Result CacheError (Dict (Entry A))
  drop_stalest [] = err empty_min
  drop_stalest ((k, e) ∷ d) = ok (pop (stalest k e.expires_at d) ((k, e) ∷ d))

  -- `_prune_locked`
  unfoldable pub prune : ℕ → ℕ → Dict (Entry A) → Result CacheError (Dict (Entry A))
  unfolding evict_expired stalest
  prune now max_items d =
      if ltb (length (evict_expired now d)) max_items
      then ok (evict_expired now d)
      else drop_stalest (evict_expired now d)

  abbrev pub stored :
      ℕ
      → String
      → A
      → TtlCache A
      → Result CacheError (Dict (Entry A))
      → Result CacheError A × TtlCache A
  stored later key value c (err e) = (err e, record c { store = [] })
  stored later key value c (ok d) = (
    ok value,
    record c { store = put key (record { expires_at = later + c.ttl_seconds; value = value }) d },
  )

  -- `set`; where `min` raises, nothing was left in the store
  unfoldable pub store_value : ℕ → ℕ → String → A → TtlCache A → Result CacheError A × TtlCache A
  unfolding prune
  store_value now later key value c =
      if not c.enabled
      then (ok value, c)
      else stored later key value c (prune now c.max_items c.store)

  unfoldable pub invalidate : String → TtlCache A → TtlCache A
  invalidate key c = record c { store = pop key c.store }

  unfoldable pub clear_cache : TtlCache A → TtlCache A
  clear_cache c = record c { store = [] }

  abbrev pub produced :
      ℕ → ℕ → String → (A → Bool) → A → Option A × TtlCache A → Result CacheError A × TtlCache A
  produced now later key is_none made (none, c) = store_value now later key made c
  produced now later key is_none made (some v, c) =
      if is_none v then store_value now later key made c else (ok v, c)

  -- `cached`, with what the producer gives; a value that is None counts as a miss
  unfoldable pub cached :
      ℕ → ℕ → ℕ → String → (A → Bool) → A → TtlCache A → Result CacheError A × TtlCache A
  unfolding lookup store_value
  cached asked now later key is_none made c =
      produced now later key is_none made (lookup asked key c)
