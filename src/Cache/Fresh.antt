-- ===== src/Cache/Fresh.antt =====
-- What a value that was stored answers until it expires (src/data/cache.py).
use agenthedge.Prelude.{
  ℕ, ◌+◌, ◌<◌, ◌≡◌, ◌≢◌, refl, ap, Bool, true, false, not, Option, none, some, List, [], ◌∷◌,
  String, Dict, get, get-put_self, get-pop, All, eq_iff, if◌then◌else◌, ltb, ◌==◌, Result, ok, err,
  arith, Bool-cases, inl, inr,
}
use agenthedge.Cache.{
  Entry, TtlCache, CacheError, looked_up, lookup, prune, stored, store_value, invalidate,
}
use agenthedge.Cache.Bounds.{
  Call, look, write, through, forget, forget_all, after_call, after_calls,
}

module _ {A : Type 0} where
  -- A call that spares the key until a time: a lookup of another key, or of the key before that time, or an
  -- invalidation of another key.
  abbrev pub Spares : String → ℕ → Call A → Type 0
  Spares key ends (look now k) = k ≡ key → now < ends
  Spares key ends (forget k) = k ≢ key
  Spares key ends (write now later k value) = ⊥
  Spares key ends (through asked now later k is_none made) = ⊥
  Spares key ends forget_all = ⊥

  -- The cache is on and has the value under the key until that time.
  record Has (key : String) (ends : ℕ) (value : A) (c : TtlCache A) : Type 0 where
    on : c.enabled ≡ true
    entry : get key c.store ≡ some (record { expires_at = ends; value = value })

  looked_up-Has :
      (key k : String) (ends now : ℕ) (value : A) (c : TtlCache A) (e : Option (Entry A))
      → get k c.store ≡ e
      → (k ≡ key → now < ends)
      → Has key ends value c
      → Has key ends value (looked_up now k c e).1
  looked_up-Has key k ends now value c none g s h = h
  looked_up-Has key k ends now value c (some e) g s h = elim (Bool-cases (k == key)) [
    | inl y ↦
        let same = (eq_iff k key).0 y in
        let early = s same in
        let due : e.expires_at ≡ ends = cc (g, h.entry, same) in
        record { on = ground arith; entry = ground (arith, h.entry) }
    | inr n ↦ record {
      on = ground (arith, h.on);
      entry = ground (arith, h.entry, get-pop k key c.store);
    }
  ]

  lookup-Has :
      (key k : String) (ends now : ℕ) (value : A) (c : TtlCache A)
      → (k ≡ key → now < ends)
      → Has key ends value c
      → (off : Bool) → off ≡ false
      → Has key ends value (if off then (none, c) else looked_up now k c (get k c.store)).1
  lookup-Has key k ends now value c s h true e = cc
  lookup-Has key k ends now value c s h false e =
      looked_up-Has key k ends now value c (get k c.store) refl s h

  after_call-Has :
      (key : String) (ends : ℕ) (value : A) (k : Call A) (c : TtlCache A)
      → Spares key ends k
      → Has key ends value c
      → Has key ends value (after_call k c)
  unfolding after_call lookup invalidate
  after_call-Has key ends value (look now k) c s h =
      lookup-Has key k ends now value c s h (not c.enabled) (ap not h.on)
  after_call-Has key ends value (forget k) c s h = record {
    on = h.on;
    entry = ground (arith, h.entry, get-pop k key c.store, eq_iff k key);
  }
  after_call-Has key ends value (write now later k v) c s h = absurd s
  after_call-Has key ends value (through asked now later k is_none made) c s h = absurd s
  after_call-Has key ends value forget_all c s h = absurd s

  after_calls-Has :
      (key : String) (ends : ℕ) (value : A) (ks : List (Call A)) (c : TtlCache A)
      → All (Spares key ends) ks
      → Has key ends value c
      → Has key ends value (after_calls ks c)
  unfolding after_calls
  after_calls-Has key ends value [] c s h = h
  after_calls-Has key ends value (k ∷ ks) c s h =
      after_calls-Has key ends value ks (after_call k c) s.1
        (after_call-Has key ends value k c s.0 h)

  Has-lookup :
      (t : ℕ) (key : String) (ends : ℕ) (value : A) (c : TtlCache A)
      → Has key ends value c
      → (lookup t key c).0 ≡ (if ltb t ends then some value else none)
  unfolding lookup
  Has-lookup t key ends value c h = ground (arith, h.on, h.entry)

  store-Has :
      (now later : ℕ) (key : String) (value answer : A) (c : TtlCache A)
      → c.enabled ≡ true
      → (store_value now later key value c).0 ≡ ok answer
      → Has key (later + c.ttl_seconds) value (store_value now later key value c).1
  unfolding store_value
  store-Has now later key value answer c on h =
      go (not c.enabled) (prune now c.max_items c.store) (ap not on) h
    where
      go :
          (off : Bool) (r : Result CacheError (Dict (Entry A)))
          → off ≡ false
          → (if off then (ok value, c) else stored later key value c r).0 ≡ ok answer
          → Has key
              (later + c.ttl_seconds)
              value
              (if off then (ok value, c) else stored later key value c r).1
      go true r e h = cc
      go false (err x) e h = cc
      go false (ok d) e h = record {
        on = on;
        entry = get-put_self key (record { expires_at = later + c.ttl_seconds; value = value }) d;
      }

  -- After an enabled cache has stored a value, and then any lookups and invalidations of other keys, and
  -- lookups of this key before its time to live is over: the key is found, with the value as it was
  -- stored, before its time to live is over, and is not found from then on. Another store may evict it.
  pub store-lookup :
      (now later t : ℕ) (key : String) (value answer : A) (c : TtlCache A) (ks : List (Call A))
      → c.enabled ≡ true
      → (store_value now later key value c).0 ≡ ok answer
      → All (Spares key (later + c.ttl_seconds)) ks
      → (lookup t key (after_calls ks (store_value now later key value c).1)).0
        ≡ (if ltb t (later + c.ttl_seconds) then some value else none)
  store-lookup now later t key value answer c ks on h spared =
      let ends = later + c.ttl_seconds in
      let after = (store_value now later key value c).1 in
      Has-lookup t key ends value (after_calls ks after) (
        after_calls-Has key ends value ks after spared
          (store-Has now later key value answer c on h))
