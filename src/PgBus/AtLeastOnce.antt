-- ===== src/PgBus/AtLeastOnce.antt =====
-- What the bus promises of an event that it has accepted (src/agents/postgres_bus.py): the composition
-- of `publish`, of everything the instances and their threads do afterwards, and of
-- `wait_until_caught_up`.
use agenthedge.Prelude.{
  ℕ, ◌≤◌, ◌≡◌, ◌<◌, inl, inr, refl, sym, subst, Bool, true, false, ◌&&◌, ◌||◌, Option, List, [],
  ◌∷◌, String, Any, All, All-map, any, arith, Bool-cases, tally, eq_iff,
}
use agenthedge.Values.{Value, Payload}
use agenthedge.Message.{topic_matches}
use agenthedge.PgBus.Tables.{Db, SubRow, Delivery, is_for, is_open, find_sub}
use agenthedge.PgBus.Client.{PgBus, publish, publish_event, is_allowed, with_publisher}
use agenthedge.PgBus.Poller.{World, is_served}
use agenthedge.PgBus.Progress.{in_scope, scope_ids, is_watched, is_behind, subscriptions_caught_up}
use agenthedge.PgBus.Invariant.{IsSettled, has_returned}
use agenthedge.PgBus.Claims.{IsSoundWorld}
use agenthedge.PgBus.Steps.{Reach, published, with_db, Step-IsSoundWorld, Reach-IsSoundWorld}
use agenthedge.PgBus.Kept.{Reach-kept, HasRow}
use agenthedge.PgBus.Delivered.{publish_event-HasRow}

tally-none :
    {A : Type 0} (test : A → Bool) (xs : List A) → tally test xs ≡ 0 → All (λ x. test x ≡ false) xs
tally-none test [] e = tt
tally-none test (x ∷ xs) e = (ground arith, tally-none test xs (ground arith))

or_false : (b c : Bool) → b ≡ false → (b || c) ≡ c
or_false b c e = rw e refl

is_for-sub_id : (k : String) (n : ℕ) (d : Delivery) → is_for k n d ≡ true → d.subscription_id ≡ k
is_for-sub_id k n d e = ground (arith, eq_iff d.subscription_id k)

is_for-event_id : (k : String) (n : ℕ) (d : Delivery) → is_for k n d ≡ true → d.event_id ≡ n
is_for-event_id k n d e = ground arith

closed-has_returned :
    (k : String) (n : ℕ) (log : List (String × ℕ)) (d : Delivery)
    → d.subscription_id ≡ k
    → d.event_id ≡ n
    → is_open d.status ≡ false
    → IsSettled log d
    → has_returned k n log ≡ true
closed-has_returned k n log d p q c (inl o) = absurd (cc)
closed-has_returned k n log d p q c (inr r) =
    subst (λ m. has_returned k m log ≡ true) q
      (subst (λ s. has_returned s d.event_id log ≡ true) p r)

-- A row of the subscription and the event that is not open has had its handler return.
pub settled-has_returned :
    (k : String) (n : ℕ) (log : List (String × ℕ)) (ds : List Delivery)
    → any (is_for k n) ds ≡ true
    → All (IsSettled log) ds
    → All (λ d. d.subscription_id ≡ k → d.event_id ≡ n → is_open d.status ≡ false) ds
    → has_returned k n log ≡ true
settled-has_returned k n log [] a h c = absurd (cc)
settled-has_returned k n log (d ∷ ds) a h c = elim (Bool-cases (is_for k n d)) [
  | inl e ↦
      let p = is_for-sub_id k n d e in
      let q = is_for-event_id k n d e in closed-has_returned k n log d p q (c.0 p q) h.0
  | inr e ↦
      settled-has_returned k n log ds (rw (sym (or_false (is_for k n d) (any (is_for k n) ds) e)) a)
        h.1 c.1
]

module _ {F : Type 0} where
  -- A subscription that an instance serves is one that it watches.
  served-is_watched :
      (i k : String) (ids : List String) (subs : List (SubRow F))
      → is_served i (find_sub k subs) ≡ true
      → in_scope ids k ≡ true
      → any (is_watched i ids) subs ≡ true
  unfolding find_sub
  served-is_watched i k ids [] s c = cc
  served-is_watched i k ids (r ∷ subs) s c =
      ground (arith, eq_iff r.subscription_id k, served-is_watched i k ids subs)

  -- A delivery of a served subscription in the scope, up to the target, that is not behind is not open.
  not_behind-closed :
      (i k : String) (n target : ℕ) (ids : List String) (subs : List (SubRow F)) (d : Delivery)
      → is_served i (find_sub k subs) ≡ true
      → in_scope ids k ≡ true
      → n ≤ target
      → is_behind i ids subs target d ≡ false
      → d.subscription_id ≡ k
      → d.event_id ≡ n
      → is_open d.status ≡ false
  not_behind-closed i k n target ids subs d s c l b p q = ground (
    arith,
    subst (λ x. is_served i (find_sub x subs) ≡ true) (sym p) s,
    subst (λ x. in_scope ids x ≡ true) (sym p) c,
  )

  caught_up-tally :
      (i : String) (target : ℕ) (scope : Option (List String)) (db : Db F)
      → 1 ≤ target
      → any (is_watched i (scope_ids scope)) db.subs ≡ true
      → subscriptions_caught_up i target scope db ≡ true
      → tally (is_behind i (scope_ids scope) db.subs target) db.deliveries ≡ 0
  unfolding subscriptions_caught_up
  caught_up-tally i target scope db l a h = ground arith

  -- In tables that are sound, a row that the wait covers has had its handler return.
  caught_up-has_returned :
      (i k : String) (n target : ℕ) (scope : Option (List String)) (w : World F)
      → IsSoundWorld w
      → HasRow k n w.db
      → is_served i (find_sub k w.db.subs) ≡ true
      → in_scope (scope_ids scope) k ≡ true
      → 1 ≤ n
      → n ≤ target
      → subscriptions_caught_up i target scope w.db ≡ true
      → has_returned k n w.returned ≡ true
  caught_up-has_returned i k n target scope w s row served c positive l u =
      let ids = scope_ids scope in
      let test = is_behind i ids w.db.subs target in
      settled-has_returned k n w.returned w.db.deliveries row s.settled (
        All-map (λ d. test d ≡ false)
          (λ d. d.subscription_id ≡ k → d.event_id ≡ n → is_open d.status ≡ false)
          (λ d b p q. not_behind-closed i k n target ids w.db.subs d served c l b p q)
          w.db.deliveries
          (tally-none test w.db.deliveries (
            caught_up-tally i target scope w.db (omega (arith, positive, l))
              (served-is_watched i k ids w.db.subs served c) u)))

-- No handler has returned for an id that is still to be given.
not_returned :
    (k : String) (n : ℕ) (log : List (String × ℕ))
    → All (λ r. r.1 < n) log
    → has_returned k n log ≡ false
not_returned k n [] h = refl
not_returned k n (r ∷ log) h = ground (arith, not_returned k n log h.1)

module _ {F : Type 0} (fnmatch : String → String → Bool) (str_id : ℕ → String)
    (decode : Value F → Option (List String)) where
  publish_accepted :
      (b : PgBus F) (now : ℕ) (topic : String) (payload metadata : Payload F)
      (publisher : Option String) (k : String) (db : Db F)
      → b.closed ≡ false
      → is_allowed fnmatch topic publisher b ≡ true
      → HasRow k db.next_event_id
          (publish_event decode now topic payload (with_publisher publisher metadata) db)
      → HasRow k db.next_event_id
          (publish fnmatch str_id decode now topic payload publisher metadata b db).2
  unfolding publish
  publish_accepted b now topic payload metadata publisher k db c a h = rw (c, a) h

  -- An event that an open bus, in tables that are sound, accepts for an active subscription that matches
  -- is handled at least once: no handler of it has returned for the event's id before; and whatever the
  -- instances, their threads and their failures do afterwards, when the subscription is served by an
  -- instance and that instance's wait for the event, in a scope with the subscription, finds it caught up,
  -- a handler of the subscription has returned for the event.
  pub publish-has_returned :
      (b : PgBus F) (now : ℕ) (topic : String) (payload metadata : Payload F)
      (publisher : Option String) (s : SubRow F) (w v : World F) (i : String) (target : ℕ)
      (scope : Option (List String))
      → IsSoundWorld w
      → b.closed ≡ false
      → is_allowed fnmatch topic publisher b ≡ true
      → Any (λ r. r ≡ s) w.db.subs
      → (s.active && topic_matches (decode s.topics_json) topic) ≡ true
      → Reach fnmatch str_id decode
          (with_db w (publish fnmatch str_id decode now topic payload publisher metadata b w.db).2)
          v
      → is_served i (find_sub s.subscription_id v.db.subs) ≡ true
      → in_scope (scope_ids scope) s.subscription_id ≡ true
      → w.db.next_event_id ≤ target
      → subscriptions_caught_up i target scope v.db ≡ true
      → (has_returned s.subscription_id w.db.next_event_id w.returned ≡ false)
        × (has_returned s.subscription_id w.db.next_event_id v.returned ≡ true)
  publish-has_returned b now topic payload metadata publisher s w v i target scope sound c a m h
        reach served inside l u =
      let k = s.subscription_id in
      let n = w.db.next_event_id in
      (
        not_returned k n w.returned sound.logged,
        caught_up-has_returned i k n target scope v
            (Reach-IsSoundWorld fnmatch str_id decode reach (
              Step-IsSoundWorld fnmatch str_id decode
                (published b now topic payload metadata publisher) sound))
            (Reach-kept fnmatch str_id decode k n reach (
              publish_accepted b now topic payload metadata publisher k w.db c a (
                publish_event-HasRow decode now topic payload (with_publisher publisher metadata) s
                  w.db m h)))
            served inside sound.numbered l u,
      )
