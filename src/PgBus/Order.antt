-- ===== src/PgBus/Order.antt =====
-- What `_claim_next_delivery` (src/agents/postgres_bus.py) takes: the row, the event joined to it, and
-- the order of the events of a subscription.
use agenthedge.Prelude.{
  ℕ, ◌≤◌, ◌≡◌, refl, Bool, true, false, Option, none, some, List, [], ◌∷◌, String, All, All-at, Any,
  ◌⊎◌, inl, inr, subst, All-map, leb, arith, Bool-cases, is_some, eq_iff,
}
use agenthedge.PgBus.Tables.{
  Db, EventRow, Delivery, Status, pending, retry, processing, done, is_waiting, find_event,
  find_sub,
}
use agenthedge.PgBus.Poller.{
  Claim, first_by_event, is_claimable, claim_of, take_claim, claim_next, has_event, is_served,
}

-- Every row of a list is one of its rows.
members : (ds : List Delivery) → All (λ x. Any (λ y. y ≡ x) ds) ds
members [] = tt
members (d ∷ ds) = (
  inl refl,
  All-map (λ x. Any (λ y. y ≡ x) ds) (λ x. Any (λ y. y ≡ x) (d ∷ ds)) (λ x m. inr m) ds
      (members ds),
)

-- A row is chosen, and its event is not after the given one.
abbrev pub IsFirst : ℕ → Option Delivery → Type 0
IsFirst n none = ⊥
IsFirst n (some d) = d.event_id ≤ n

module _ (test : Delivery → Bool) where
  -- The row that is chosen is the first of the list or the choice of the rest.
  first_by_event-from :
      (x : Delivery) (ds : List Delivery) (d : Delivery)
      → first_by_event test (x ∷ ds) ≡ some d
      → (x ≡ d) ⊎ (first_by_event test ds ≡ some d)
  unfolding first_by_event
  first_by_event-from x ds d e = go (test x) (first_by_event test ds) refl refl
    where
      go :
          (b : Bool) (r : Option Delivery)
          → test x ≡ b
          → first_by_event test ds ≡ r
          → (x ≡ d) ⊎ (first_by_event test ds ≡ some d)
      go false r p q = inr (ground arith)
      go true none p q = inl (ground arith)
      go true (some y) p q = elim (Bool-cases (leb x.event_id y.event_id)) [
        | inl l ↦ inl (ground arith)
        | inr l ↦ inr (ground arith)
      ]

  -- What holds of every row holds of the row that is chosen.
  pub first_by_event-All :
      (P : Delivery → Type 0) (ds : List Delivery) (d : Delivery)
      → All P ds
      → first_by_event test ds ≡ some d
      → P d
  unfolding first_by_event
  first_by_event-All P [] d h e = absurd (ground arith)
  first_by_event-All P (x ∷ ds) d h e = elim (first_by_event-from x ds d e) [
    | inl p ↦ subst P p h.0
    | inr q ↦ first_by_event-All P ds d h.1 q
  ]

  pub first_by_event-passes :
      (ds : List Delivery) (d : Delivery) → first_by_event test ds ≡ some d → test d ≡ true
  unfolding first_by_event
  first_by_event-passes [] d e = ground arith
  first_by_event-passes (x ∷ ds) d e = ground (arith, first_by_event-passes ds d)

  first_by_event-head :
      (x : Delivery) (ds : List Delivery)
      → test x ≡ true
      → IsFirst x.event_id (first_by_event test (x ∷ ds))
  unfolding first_by_event
  first_by_event-head x ds t = go (first_by_event test ds) refl
    where
      go :
          (r : Option Delivery)
          → first_by_event test ds ≡ r
          → IsFirst x.event_id (first_by_event test (x ∷ ds))
      go none e = rw (t, e) (omega arith)
      go (some y) e = elim (Bool-cases (leb x.event_id y.event_id)) [
        | inl l ↦ rw (t, e, l) (omega arith)
        | inr l ↦ rw (t, e, l) (ground arith)
      ]

  first_by_event-tail :
      (n : ℕ) (x : Delivery) (ds : List Delivery)
      → IsFirst n (first_by_event test ds)
      → IsFirst n (first_by_event test (x ∷ ds))
  unfolding first_by_event
  first_by_event-tail n x ds h = go (test x) (first_by_event test ds) refl refl
    where
      go :
          (b : Bool) (r : Option Delivery)
          → test x ≡ b
          → first_by_event test ds ≡ r
          → IsFirst n (first_by_event test (x ∷ ds))
      go false r t e = rw t h
      go true none t e = absurd (subst (IsFirst n) e h)
      go true (some y) t e =
          let k : y.event_id ≤ n = subst (IsFirst n) e h in
          elim (Bool-cases (leb x.event_id y.event_id)) [
            | inl l ↦ rw (t, e, l) (ground arith)
            | inr l ↦ rw (t, e, l) (ground arith)
          ]

  pub first_by_event-IsFirst :
      (ds : List Delivery)
      → All (λ x. test x ≡ true → IsFirst x.event_id (first_by_event test ds)) ds
  first_by_event-IsFirst [] = tt
  first_by_event-IsFirst (x ∷ ds) = (
    first_by_event-head x ds,
    All-map (λ y. test y ≡ true → IsFirst y.event_id (first_by_event test ds))
        (λ y. test y ≡ true → IsFirst y.event_id (first_by_event test (x ∷ ds)))
        (λ y h t. first_by_event-tail y.event_id x ds (h t)) ds (first_by_event-IsFirst ds),
  )

module _ {F : Type 0} where
  pub find_event-event_id :
      (n : ℕ) (events : List (EventRow F)) (e : EventRow F)
      → find_event n events ≡ some e
      → e.event_id ≡ n
  unfolding find_event
  find_event-event_id n [] e h = absurd (ground arith)
  find_event-event_id n (x ∷ events) e h = ground (arith, find_event-event_id n events e)

  module _ (free : ℕ → Bool) (now : ℕ) (sub_id instance_id : String) (db : Db F) where
    -- what the WHERE says of the row that is chosen
    pub is_claimable-sub :
        (d : Delivery)
        → is_claimable free now sub_id instance_id db d ≡ true
        → d.subscription_id ≡ sub_id
    unfolding is_claimable
    is_claimable-sub d h = ground (arith, eq_iff d.subscription_id sub_id)

    pub is_claimable-event :
        (d : Delivery)
        → is_claimable free now sub_id instance_id db d ≡ true
        → has_event d.event_id db.events ≡ true
    unfolding is_claimable
    is_claimable-event d h = ground arith

    -- what the claim of a row of the subscription is: the row stands in the table, waits, is due and free,
    -- the subscription is served by the instance, and the event is the one that the row is for
    pub record ClaimOf (c : Claim F) : Type 0 where
      pub row : Delivery
      pub stands : Any (λ x. x ≡ row) db.deliveries
      pub of_row : c.delivery_id ≡ row.delivery_id
      pub of_sub : row.subscription_id ≡ sub_id
      pub served_by : is_served instance_id (find_sub sub_id db.subs) ≡ true
      pub waits : (row.status ≡ pending) ⊎ (row.status ≡ retry)
      pub due : row.next_attempt_at ≤ now
      pub unlocked : free row.delivery_id ≡ true
      pub of_event : find_event row.event_id db.events ≡ some c.event

    -- such a claim, of an event not after the given one
    abbrev pub IsDue : ℕ → Option (Claim F) → Type 0
    IsDue n none = ⊥
    IsDue n (some c) = ClaimOf c × (c.event.event_id ≤ n)

    is_waiting_cases : (s : Status) → is_waiting s ≡ true → (s ≡ pending) ⊎ (s ≡ retry)
    is_waiting_cases pending h = inl refl
    is_waiting_cases retry h = inr refl
    is_waiting_cases processing h = cc
    is_waiting_cases done h = cc

    -- The claim that is taken is of a row that passes the WHERE, each test of which is written out.
    claimable-ClaimOf :
        (d : Delivery) (v : EventRow F)
        → Any (λ x. x ≡ d) db.deliveries
        → find_event d.event_id db.events ≡ some v
        → is_claimable free now sub_id instance_id db d ≡ true
        → ClaimOf (record { delivery_id = d.delivery_id; event = v })
    unfolding is_claimable
    claimable-ClaimOf d v m e h = record {
      row = d;
      stands = m;
      of_row = refl;
      of_sub = ground (arith, eq_iff d.subscription_id sub_id);
      served_by = ground arith;
      waits = is_waiting_cases d.status (ground arith);
      due = ground arith;
      unlocked = ground arith;
      of_event = e;
    }

    claim_of-IsDue :
        (n : ℕ) (d : Delivery)
        → Any (λ x. x ≡ d) db.deliveries
        → is_claimable free now sub_id instance_id db d ≡ true
        → d.event_id ≤ n
        → IsDue n (claim_of d (find_event d.event_id db.events))
    claim_of-IsDue n d m h l = go (find_event d.event_id db.events) refl (is_claimable-event d h)
      where
        go :
            (r : Option (EventRow F))
            → find_event d.event_id db.events ≡ r
            → is_some r ≡ true
            → IsDue n (claim_of d r)
        go none e k = cc
        go (some v) e k = (
          claimable-ClaimOf d v m e h,
          omega (arith, find_event-event_id d.event_id db.events v e),
        )

    take_claim-IsDue :
        (n : ℕ) (r : Option Delivery)
        → first_by_event (is_claimable free now sub_id instance_id db) db.deliveries ≡ r
        → IsFirst n r
        → IsDue n (take_claim now db r).0
    take_claim-IsDue n none e l = l
    take_claim-IsDue n (some d) e l =
        claim_of-IsDue n d
          (first_by_event-All (is_claimable free now sub_id instance_id db)
            (λ x. Any (λ y. y ≡ x) db.deliveries) db.deliveries d (members db.deliveries) e)
          (first_by_event-passes (is_claimable free now sub_id instance_id db) db.deliveries d e) l

    -- When a delivery of the subscription can be claimed, the thread claims one. Its claim is of a row of
    -- the table that is of the subscription, is pending or to be retried, is due and is not locked, with
    -- the event that the row is for, and the instance serves the subscription; and the event is not after
    -- the event of that delivery, so it has the smallest event id of all that can be claimed.
    pub claim_next-event_order :
        (d : Delivery)
        → Any (λ x. x ≡ d) db.deliveries
        → is_claimable free now sub_id instance_id db d ≡ true
        → IsDue d.event_id (claim_next free now sub_id instance_id db).0
    unfolding claim_next
    claim_next-event_order d m h =
        let test = is_claimable free now sub_id instance_id db in
        take_claim-IsDue d.event_id (first_by_event test db.deliveries) refl (
          All-at (λ x. test x ≡ true → IsFirst x.event_id (first_by_event test db.deliveries)) d
            db.deliveries (first_by_event-IsFirst test db.deliveries) m h)
