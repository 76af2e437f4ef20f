-- ===== src/PgBus/Claims.antt =====
-- The steps of a polling thread (src/agents/postgres_bus.py) keep what holds of the tables.
use agenthedge.Prelude.{
  ℕ, ◌+◌, ◌≡◌, ◌<◌, inl, inr, refl, sym, ap, ◌∙◌, subst, Bool, true, false, ◌&&◌, Option, none,
  some, List, [], ◌∷◌, ◌++◌, String, All, All-image, if_both, eq_refl, eqb, arith, not, is_some,
  get, Bool-cases,
}
use agenthedge.PgBus.Tables.{Db, SubRow, EventRow, Delivery, Status, set_deliveries, find_event}
use agenthedge.PgBus.Client.{PgBus}
use agenthedge.PgBus.Poller.{
  Working, World, claimed, finished, failed, first_by_event, is_claimable, claim_of, take_claim,
  claim_next, mark_done, mark_retry, started, poll, belongs_to,
}
use agenthedge.PgBus.Rows.{
  key_of, claimed-KeepsKey, finished-KeepsKey, failed-KeepsKey, key_of-map, map-IsKeyed,
}
use agenthedge.PgBus.Order.{
  first_by_event-All, first_by_event-passes, find_event-event_id, is_claimable-sub,
}
use agenthedge.PgBus.Invariant.{IsSettled, IsSound, map-IsClaimed, has_returned, update-IsSound}

All-both :
    {A : Type 0} (P Q : A → Type 0) (xs : List A) → All P xs → All Q xs → All (λ x. P x × Q x) xs
All-both P Q [] h k = tt
All-both P Q (x ∷ xs) h k = ((h.0, k.0), All-both P Q xs h.1 k.1)

pub All-removed :
    {A : Type 0} (P : A → Type 0) (xs ys : List A) (a : A)
    → All P (xs ++ (a ∷ ys))
    → P a × All P (xs ++ ys)
All-removed P [] ys a h = h
All-removed P (x ∷ xs) ys a h = let k = All-removed P xs ys a h.1 in (k.0, (h.0, k.1))

claimed-IsSettled :
    (log : List (String × ℕ)) (now n : ℕ) (d : Delivery)
    → IsSettled log d
    → IsSettled log (claimed now n d)
unfolding claimed
claimed-IsSettled log now n d h =
    if_both {A = Delivery} (IsSettled log) (eqb d.delivery_id n)
      {x = record d { status = Status.processing; attempts = d.attempts + 1; updated_at = now }}
      {y = d} (inl refl) h

failed-IsSettled :
    {F : Type 0} (log : List (String × ℕ)) (now retry_delay : ℕ) (instance_id message : String)
    (subs : List (SubRow F)) (n : ℕ) (d : Delivery)
    → IsSettled log d
    → IsSettled log (failed now retry_delay instance_id message subs n d)
unfolding failed
failed-IsSettled log now retry_delay instance_id message subs n d h =
    if_both {A = Delivery} (IsSettled log) (eqb d.delivery_id n && belongs_to instance_id subs d)
      {x = record d {
        status = Status.retry;
        last_error = some message;
        next_attempt_at = now + retry_delay;
        updated_at = now;
      }}
      {y = d} (inl refl) h

finished-hit :
    (now n : ℕ) (d : Delivery)
    → eqb d.delivery_id n ≡ true
    → finished now n d ≡ record d { status = Status.done; last_error = none; updated_at = now }
unfolding finished
finished-hit now n d e = rw e refl

finished-miss : (now n : ℕ) (d : Delivery) → eqb d.delivery_id n ≡ false → finished now n d ≡ d
unfolding finished
finished-miss now n d e = rw e refl

eqb-same : (m n : ℕ) → eqb m n ≡ true → m ≡ n
eqb-same m n e = ground arith

abbrev sub_of : Option (String × ℕ) → String
sub_of none = ""
sub_of (some (s, _)) = s

abbrev event_of : Option (String × ℕ) → ℕ
event_of none = 0
event_of (some (_, n)) = n

has_returned-head :
    (log : List (String × ℕ)) (s t : String) (m n : ℕ)
    → s ≡ t
    → m ≡ n
    → has_returned s m ((t, n) ∷ log) ≡ true
has_returned-head log s t m n p q = rw (p, q) (ground (arith, eq_refl t))

IsSettled-later :
    (log : List (String × ℕ)) (sub_id : String) (event_id : ℕ) (d : Delivery)
    → IsSettled log d
    → IsSettled ((sub_id, event_id) ∷ log) d
IsSettled-later log sub_id event_id d (inl h) = inl h
IsSettled-later log sub_id event_id d (inr h) = inr (ground arith)

-- A row of the id that is marked done is the row of the claim, whose handler has returned.
finished-IsSettled :
    (log : List (String × ℕ)) (now n : ℕ) (sub_id : String) (event_id : ℕ) (ds : List Delivery)
    (d : Delivery)
    → key_of n ds ≡ some (sub_id, event_id)
    → key_of d.delivery_id ds ≡ some (d.subscription_id, d.event_id)
    → IsSettled log d
    → IsSettled ((sub_id, event_id) ∷ log) (finished now n d)
unfolding finished
finished-IsSettled log now n sub_id event_id ds d c k h = elim (Bool-cases (eqb d.delivery_id n)) [
  | inl e ↦
      let p : some (d.subscription_id, d.event_id) ≡ some (sub_id, event_id) =
        sym k ∙ ap (λ m. key_of m ds) (eqb-same d.delivery_id n e) ∙ c in
      subst (IsSettled ((sub_id, event_id) ∷ log)) (sym (finished-hit now n d e)) (
        inr (
          has_returned-head log d.subscription_id sub_id d.event_id event_id (ap (λ o. sub_of o) p)
            (ap (λ o. event_of o) p)))
  | inr e ↦
      subst (IsSettled ((sub_id, event_id) ∷ log)) (sym (finished-miss now n d e))
        (IsSettled-later log sub_id event_id d h)
]

-- The event that an id leads to is one of the rows' events.
key_of-below :
    (n limit event_id : ℕ) (sub_id : String) (ds : List Delivery)
    → key_of n ds ≡ some (sub_id, event_id)
    → All (λ d. d.event_id < limit) ds
    → event_id < limit
unfolding key_of
key_of-below n limit event_id sub_id [] e h = cc
key_of-below n limit event_id sub_id (d ∷ ds) e h = elim (Bool-cases (eqb d.delivery_id n)) [
  | inl q ↦
      let p : some (d.subscription_id, d.event_id) ≡ some (sub_id, event_id) = rw q at e in
      subst (λ m. m < limit) (ap (λ o. event_of o) p) h.0
  | inr q ↦ key_of-below n limit event_id sub_id ds (rw q at e) h.1
]

module _ {F : Type 0} where
  module _ (log : List (String × ℕ)) (working : List (Working F)) (db : Db F) where
    pub mark_retry-IsSound :
        (now retry_delay : ℕ) (instance_id message : String) (n : ℕ)
        → IsSound working log db
        → IsSound working log (mark_retry now retry_delay instance_id message n db)
    unfolding mark_retry
    mark_retry-IsSound now retry_delay instance_id message n s =
        update-IsSound working log (failed now retry_delay instance_id message db.subs n) db
          (failed-KeepsKey now retry_delay instance_id message db.subs n)
          (failed-IsSettled log now retry_delay instance_id message db.subs n) s

    pub mark_done-IsSound :
        (now : ℕ) (instance_id sub_id : String) (n event_id : ℕ)
        → key_of n db.deliveries ≡ some (sub_id, event_id)
        → IsSound working log db
        → IsSound working
            ((sub_id, event_id) ∷ log)
            (mark_done now instance_id sub_id n event_id db)
    unfolding mark_done
    mark_done-IsSound now instance_id sub_id n event_id c s =
        let k = finished-KeepsKey now n in
        record {
          numbered = s.numbered;
          keyed = map-IsKeyed (finished now n) k db.next_delivery_id db.deliveries s.keyed;
          claims = map-IsClaimed (finished now n) k db.deliveries working s.claims;
          settled =
              All-image
                (λ d.
                  IsSettled log d
                  × (key_of d.delivery_id db.deliveries ≡ some (d.subscription_id, d.event_id)))
                (IsSettled ((sub_id, event_id) ∷ log)) (finished now n)
                (λ d h. finished-IsSettled log now n sub_id event_id db.deliveries d c h.1 h.0)
                db.deliveries
                (All-both (IsSettled log)
                  (λ d. key_of d.delivery_id db.deliveries ≡ some (d.subscription_id, d.event_id))
                  db.deliveries s.settled s.keyed.own);
          recent =
              All-image (λ d. d.event_id < db.next_event_id) (λ d. d.event_id < db.next_event_id)
                (finished now n) (λ d h. omega (arith, k.keeps_event d, h)) db.deliveries s.recent;
          stored = s.stored;
          logged =
              (key_of-below n db.next_event_id event_id sub_id db.deliveries c s.recent, s.logged);
        }

  -- what holds of the shared state
  abbrev pub IsSoundWorld : World F → Type 0
  IsSoundWorld w = IsSound w.working w.returned w.db

  -- The claim is of the row that it names, with the subscription of the thread.
  claim_of-IsSoundWorld :
      (owner sub_id : String) (d : Delivery) (db : Db F) (w : World F) (r : Option (EventRow F))
      → find_event d.event_id db.events ≡ r
      → key_of d.delivery_id db.deliveries ≡ some (d.subscription_id, d.event_id)
      → d.subscription_id ≡ sub_id
      → IsSound w.working w.returned db
      → IsSoundWorld (started owner sub_id (claim_of d r, db) w)
  claim_of-IsSoundWorld owner sub_id d db w none e k t s = s
  claim_of-IsSoundWorld owner sub_id d db w (some v) e k t s = record {
    numbered = s.numbered;
    keyed = s.keyed;
    claims = (
      k
          ∙ ap (λ u. some (u, d.event_id)) t
          ∙ ap (λ n. some (sub_id, n)) (sym (find_event-event_id d.event_id db.events v e)),
      s.claims,
    );
    settled = s.settled;
    recent = s.recent;
    stored = s.stored;
    logged = s.logged;
  }

  take_claim-IsSoundWorld :
      (free : ℕ → Bool) (now : ℕ) (sub_id instance_id : String) (w : World F) (r : Option Delivery)
      → first_by_event (is_claimable free now sub_id instance_id w.db) w.db.deliveries ≡ r
      → IsSoundWorld w
      → IsSoundWorld (started instance_id sub_id (take_claim now w.db r) w)
  take_claim-IsSoundWorld free now sub_id instance_id w none e s = s
  take_claim-IsSoundWorld free now sub_id instance_id w (some d) e s =
      let test = is_claimable free now sub_id instance_id w.db in
      let f = claimed now d.delivery_id in
      claim_of-IsSoundWorld instance_id sub_id d (set_deliveries f w.db) w
        (find_event d.event_id w.db.events) refl
        (key_of-map f (claimed-KeepsKey now d.delivery_id) d.delivery_id w.db.deliveries
          ∙ first_by_event-All test
              (λ x. key_of x.delivery_id w.db.deliveries ≡ some (x.subscription_id, x.event_id))
              w.db.deliveries d s.keyed.own e)
        (is_claimable-sub free now sub_id instance_id w.db d
          (first_by_event-passes test w.db.deliveries d e))
        (update-IsSound w.working w.returned f w.db (claimed-KeepsKey now d.delivery_id)
          (claimed-IsSettled w.returned now d.delivery_id) s)

  pub poll-IsSoundWorld :
      (free : ℕ → Bool) (now : ℕ) (sub_id : String) (b : PgBus F) (w : World F)
      → IsSoundWorld w
      → IsSoundWorld (poll free now sub_id b w)
  unfolding poll claim_next
  poll-IsSoundWorld free now sub_id b w s =
      if_both {A = World F} IsSoundWorld (not b.closed && is_some (get sub_id b.subs))
        {x = started b.instance_id sub_id (claim_next free now sub_id b.instance_id w.db) w} {y = w}
        (take_claim-IsSoundWorld free now sub_id b.instance_id w
          (first_by_event (is_claimable free now sub_id b.instance_id w.db) w.db.deliveries) refl s)
        s
