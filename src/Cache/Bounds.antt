-- ===== src/Cache/Bounds.antt =====
-- How many entries the cache holds, and for how long it serves one.
use agenthedge.Prelude.{
  is_some, All, All-map, subst, ℕ, ◌+◌, ◌≤◌, ◌≡◌, refl, Bool, true, false, not, Option, none, some,
  List, [], ◌∷◌, String, Dict, get, pop, length, length-put, length-pop, length-pop_member,
  if◌then◌else◌, if_both, ltb, leb, Result, ok, err, arith, eq_refl,
}
use agenthedge.Cache.{
  Entry, TtlCache, CacheError, looked_up, lookup, expired_keys, pop_all, evict_expired, stalest,
  drop_stalest, prune, stored, store_value, invalidate, clear_cache, produced, cached,
}

-- the calls on a cache
pub data Call (A : Type 0) : Type 0 where
  look : ℕ → String → Call A
  write : ℕ → ℕ → String → A → Call A
  through : ℕ → ℕ → ℕ → String → (A → Bool) → A → Call A
  forget : String → Call A
  forget_all : Call A

module _ {A : Type 0} where
  abbrev pub IsBounded : TtlCache A → Type 0
  IsBounded c = length c.store ≤ c.max_items

  pop_all-length : (ks : List String) (d : Dict (Entry A)) → length (pop_all ks d) ≤ length d
  unfolding pop_all
  pop_all-length [] d = omega arith
  pop_all-length (k ∷ ks) d = omega (arith, length-pop k d, pop_all-length ks (pop k d))

  ok-injective :
      {x y : Dict (Entry A)} → ◌≡◌ {A = Result CacheError (Dict (Entry A))} (ok x) (ok y) → x ≡ y
  ok-injective h = cc

  abbrev HasKey : Dict (Entry A) → String × Entry A → Type 0
  HasKey d s = is_some (get s.0 d) ≡ true

  keys_found : (d : Dict (Entry A)) → All (HasKey d) d
  unfolding get
  keys_found [] = tt
  keys_found ((k, e) ∷ d) = (
    rw (eq_refl k) refl,
    All-map (HasKey d) (HasKey ((k, e) ∷ d)) (λ s h. ground (arith, h)) d (keys_found d),
  )

  stalest-found :
      (best : String) (soonest : ℕ) (d whole : Dict (Entry A))
      → is_some (get best whole) ≡ true
      → All (HasKey whole) d
      → is_some (get (stalest best soonest d) whole) ≡ true
  unfolding stalest
  stalest-found best soonest [] whole h all = h
  stalest-found best soonest ((k, e) ∷ d) whole h all =
      if_both (λ x. is_some (get x whole) ≡ true) (ltb e.expires_at soonest)
        {x = stalest k e.expires_at d} {y = stalest best soonest d}
        (stalest-found k e.expires_at d whole all.0 all.1)
        (stalest-found best soonest d whole h all.1)

  pop-shorter :
      (k : String) (d : Dict (Entry A)) → is_some (get k d) ≡ true → length (pop k d) + 1 ≤ length d
  pop-shorter k d h = go (get k d) refl h
    where
      go : (o : Option (Entry A)) → get k d ≡ o → is_some o ≡ true → length (pop k d) + 1 ≤ length d
      go none e h = cc
      go (some v) e h = length-pop_member k v d e

  drop_stalest-length : (d d' : Dict (Entry A)) → drop_stalest d ≡ ok d' → length d' + 1 ≤ length d
  drop_stalest-length [] d' h = cc
  drop_stalest-length ((k, e) ∷ d) d' h =
      let all = keys_found ((k, e) ∷ d) in
      let shorter =
        pop-shorter (stalest k e.expires_at d) ((k, e) ∷ d)
          (stalest-found k e.expires_at d ((k, e) ∷ d) all.0 all.1) in
      subst (λ x. length x + 1 ≤ length ((k, e) ∷ d)) (ok-injective h) shorter

  room-length :
      (max_items : ℕ) (x d' : Dict (Entry A)) (room : Bool)
      → ltb (length x) max_items ≡ room
      → length x ≤ max_items
      → (if room then ok x else drop_stalest x) ≡ ok d'
      → length d' + 1 ≤ max_items
  room-length max_items x d' true r h e =
      let same : x ≡ d' = ok-injective e in
      let short : length x + 1 ≤ max_items = ground arith in
      subst (λ y. length y + 1 ≤ max_items) same short
  room-length max_items x d' false r h e = omega (arith, drop_stalest-length x d' e)

  prune-length :
      (now max_items : ℕ) (d d' : Dict (Entry A))
      → length d ≤ max_items
      → prune now max_items d ≡ ok d'
      → length d' + 1 ≤ max_items
  unfolding prune
  prune-length now max_items d d' h p =
      let shrunk : length (evict_expired now d) ≤ length d =
        pop_all-length (expired_keys now d) d in
      room-length max_items (evict_expired now d) d' (ltb (length (evict_expired now d)) max_items)
        refl (omega arith) p

  store-IsBounded :
      (now later : ℕ) (key : String) (value : A) (c : TtlCache A)
      → IsBounded c
      → IsBounded (store_value now later key value c).1
  unfolding store_value
  store-IsBounded now later key value c h =
      if_both {A = Result CacheError A × TtlCache A} (λ r. IsBounded r.1) (not c.enabled)
        {x = (ok value, c)} {y = stored later key value c (prune now c.max_items c.store)} h
        (go (prune now c.max_items c.store) refl)
    where
      go :
          (r : Result CacheError (Dict (Entry A)))
          → prune now c.max_items c.store ≡ r
          → IsBounded (stored later key value c r).1
      go (err e) p = omega arith
      go (ok d) p = omega (
        arith,
        prune-length now c.max_items c.store d h p,
        length-put key (record { expires_at = later + c.ttl_seconds; value = value }) d,
      )

  lookup-IsBounded :
      (now : ℕ) (key : String) (c : TtlCache A) → IsBounded c → IsBounded (lookup now key c).1
  unfolding lookup
  lookup-IsBounded now key c h =
      if_both {A = Option A × TtlCache A} (λ r. IsBounded r.1) (not c.enabled) {x = (none, c)}
        {y = looked_up now key c (get key c.store)} h (go (get key c.store))
    where
      go : (o : Option (Entry A)) → IsBounded (looked_up now key c o).1
      go none = h
      go (some e) =
          if_both {A = Option A × TtlCache A} (λ r. IsBounded r.1) (leb e.expires_at now)
            {x = (none, record c { store = pop key c.store })} {y = (some e.value, c)}
            (omega (arith, length-pop key c.store)) h

  cached-IsBounded :
      (asked now later : ℕ) (key : String) (is_none : A → Bool) (made : A) (c : TtlCache A)
      → IsBounded c
      → IsBounded (cached asked now later key is_none made c).1
  unfolding cached
  cached-IsBounded asked now later key is_none made c h =
      go (lookup asked key c) (lookup-IsBounded asked key c h)
    where
      go :
          (r : Option A × TtlCache A)
          → IsBounded r.1
          → IsBounded (produced now later key is_none made r).1
      go (none, c') b = store-IsBounded now later key made c' b
      go (some v, c') b =
          if_both {A = Result CacheError A × TtlCache A} (λ r. IsBounded r.1) (is_none v)
            {x = store_value now later key made c'} {y = (ok v, c')}
            (store-IsBounded now later key made c' b) b

  unfoldable pub after_call : Call A → TtlCache A → TtlCache A
  after_call (look now key) c = (lookup now key c).1
  after_call (write now later key value) c = (store_value now later key value c).1
  after_call (through asked now later key is_none made) c =
      (cached asked now later key is_none made c).1
  after_call (forget key) c = invalidate key c
  after_call forget_all c = clear_cache c

  unfoldable pub after_calls : List (Call A) → TtlCache A → TtlCache A
  after_calls [] c = c
  after_calls (k ∷ ks) c = after_calls ks (after_call k c)

  after_call-IsBounded : (k : Call A) (c : TtlCache A) → IsBounded c → IsBounded (after_call k c)
  unfolding after_call invalidate clear_cache
  after_call-IsBounded (look now key) c h = lookup-IsBounded now key c h
  after_call-IsBounded (write now later key value) c h = store-IsBounded now later key value c h
  after_call-IsBounded (through asked now later key is_none made) c h =
      cached-IsBounded asked now later key is_none made c h
  after_call-IsBounded (forget key) c h = omega (arith, length-pop key c.store)
  after_call-IsBounded forget_all c h = omega arith

  -- From a cache within its bound, after any calls at any times, the cache holds at most `max_items`
  -- entries.
  pub after_calls-IsBounded :
      (ks : List (Call A)) (c : TtlCache A) → IsBounded c → IsBounded (after_calls ks c)
  unfolding after_calls
  after_calls-IsBounded [] c h = h
  after_calls-IsBounded (k ∷ ks) c h =
      after_calls-IsBounded ks (after_call k c) (after_call-IsBounded k c h)
