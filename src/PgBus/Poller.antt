-- ===== src/PgBus/Poller.antt =====
-- The polling thread of a subscription (src/agents/postgres_bus.py): `_claim_next_delivery`,
-- `_mark_done` and `_mark_retry`, and the steps that `_poll_subscription` is made of. A claim that a
-- thread is working on is in flight; the process may stop at any time and leave it there.
use agenthedge.Prelude.{
  ℕ, ◌+◌, Bool, false, not, ◌&&◌, Option, none, some, List, [], ◌∷◌, String, if◌then◌else◌, ◌==◌,
  leb, eqb, any, max, is_some, get,
}
use agenthedge.Bus.{append_bounded}
use agenthedge.PgBus.Tables.{
  Db, SubRow, EventRow, Delivery, processing, retry, done, is_waiting, is_own, find_sub, find_event,
  set_deliveries, set_subs,
}
use agenthedge.PgBus.Client.{PgBus, event_envelope}

-- what `_claim_next_delivery` returns
pub record Claim (F : Type 0) : Type 0 where
  pub delivery_id : ℕ
  pub event : EventRow F

-- a claim that a thread of an instance is working on
pub record Working (F : Type 0) : Type 0 where
  pub instance_id : String
  pub sub_id : String
  pub claim : Claim F

-- everything that the instances share, the claims in flight, and the calls of a handler that have
-- returned, newest first
pub record World (F : Type 0) : Type 0 where
  pub db : Db F
  pub working : List (Working F)
  pub returned : List (String × ℕ)

-- ORDER BY event_id LIMIT 1, among the rows that pass the test
unfoldable pub first_by_event : (Delivery → Bool) → List Delivery → Option Delivery
first_by_event test [] = none
first_by_event test (d ∷ ds) =
    let rest = first_by_event test ds in
    if test d
    then (elim rest [
      | none ↦ some d
      | some e ↦ if leb d.event_id e.event_id then some d else some e
    ])
    else rest

unfoldable pub claimed : ℕ → ℕ → Delivery → Delivery
claimed now delivery_id d =
    if eqb d.delivery_id delivery_id
    then record d { status = processing; attempts = d.attempts + 1; updated_at = now }
    else d

unfoldable pub finished : ℕ → ℕ → Delivery → Delivery
finished now delivery_id d =
    if eqb d.delivery_id delivery_id
    then record d { status = done; last_error = none; updated_at = now }
    else d

module _ {F : Type 0} where
  -- the row of the subscription is active and belongs to the instance
  abbrev pub is_served : String → Option (SubRow F) → Bool
  is_served instance_id none = false
  is_served instance_id (some s) = s.active && s.instance_id == instance_id

  abbrev pub has_event : ℕ → List (EventRow F) → Bool
  has_event event_id events = is_some (find_event event_id events)

  -- the WHERE of the claim, for one delivery; a row that another transaction holds is skipped, which
  -- `free` says
  unfoldable pub is_claimable : (ℕ → Bool) → ℕ → String → String → Db F → Delivery → Bool
  unfolding find_event find_sub
  is_claimable free now sub_id instance_id db d =
      d.subscription_id == sub_id
      && is_served instance_id (find_sub sub_id db.subs)
      && has_event d.event_id db.events
      && is_waiting d.status
      && leb d.next_attempt_at now
      && free d.delivery_id

  abbrev pub claim_of : Delivery → Option (EventRow F) → Option (Claim F)
  claim_of d none = none
  claim_of d (some e) = some (record { delivery_id = d.delivery_id; event = e })

  abbrev pub take_claim : ℕ → Db F → Option Delivery → Option (Claim F) × Db F
  take_claim now db none = (none, db)
  take_claim now db (some d) =
      (claim_of d (find_event d.event_id db.events), set_deliveries (claimed now d.delivery_id) db)

  -- `_claim_next_delivery`
  unfoldable pub claim_next : (ℕ → Bool) → ℕ → String → String → Db F → Option (Claim F) × Db F
  unfolding is_claimable first_by_event claimed
  claim_next free now sub_id instance_id db =
      take_claim now db (first_by_event (is_claimable free now sub_id instance_id db) db.deliveries)

  unfoldable pub advanced : String → String → ℕ → SubRow F → SubRow F
  advanced sub_id instance_id event_id s =
      if is_own sub_id instance_id s
      then record s { cursor_event_id = max s.cursor_event_id event_id }
      else s

  -- `_mark_done`
  unfoldable pub mark_done : ℕ → String → String → ℕ → ℕ → Db F → Db F
  unfolding finished advanced
  mark_done now instance_id sub_id delivery_id event_id db =
      set_subs (advanced sub_id instance_id event_id) (set_deliveries (finished now delivery_id) db)

  abbrev pub belongs_to : String → List (SubRow F) → Delivery → Bool
  belongs_to instance_id subs d =
      any (λ s. s.subscription_id == d.subscription_id && s.instance_id == instance_id) subs

  unfoldable pub failed : ℕ → ℕ → String → String → List (SubRow F) → ℕ → Delivery → Delivery
  failed now retry_delay instance_id error_message subs delivery_id d =
      if eqb d.delivery_id delivery_id && belongs_to instance_id subs d
      then record d {
        status = retry;
        last_error = some error_message;
        next_attempt_at = now + retry_delay;
        updated_at = now;
      }
      else d

  -- `_mark_retry`, with the message that is kept of the exception
  unfoldable pub mark_retry : ℕ → ℕ → String → String → ℕ → Db F → Db F
  unfolding failed
  mark_retry now retry_delay instance_id error_message delivery_id db =
      set_deliveries (failed now retry_delay instance_id error_message db.subs delivery_id) db

  -- what the thread adds to the bus's history before it calls the handler
  unfoldable pub noted : (ℕ → String) → Claim F → PgBus F → PgBus F
  unfolding append_bounded
  noted str_id c b = record b {
    history = append_bounded b.max_history b.history (
        event_envelope str_id c.event.created_at c.event.event_id c.event.topic c.event.payload_json
          c.event.metadata_json);
  }

  abbrev pub started : String → String → Option (Claim F) × Db F → World F → World F
  started instance_id sub_id (none, db) w = record w { db = db }
  started instance_id sub_id (some c, db) w = record w {
    db = db;
    working = record { instance_id = instance_id; sub_id = sub_id; claim = c } ∷ w.working;
  }

  -- a round of `_poll_subscription` up to the handler
  unfoldable pub poll : (ℕ → Bool) → ℕ → String → PgBus F → World F → World F
  unfolding claim_next
  poll free now sub_id b w =
      if not b.closed && is_some (get sub_id b.subs)
      then started b.instance_id sub_id (claim_next free now sub_id b.instance_id w.db) w
      else w

  -- the handler has returned
  unfoldable pub handled : ℕ → Working F → List (Working F) → World F → World F
  unfolding mark_done
  handled now j others w = record {
    db = mark_done now j.instance_id j.sub_id j.claim.delivery_id j.claim.event.event_id w.db;
    working = others;
    returned = (j.sub_id, j.claim.event.event_id) ∷ w.returned;
  }

  -- the handler has raised
  unfoldable pub raised : ℕ → ℕ → String → Working F → List (Working F) → World F → World F
  unfolding mark_retry
  raised now retry_delay error_message j others w = record w {
    db = mark_retry now retry_delay j.instance_id error_message j.claim.delivery_id w.db;
    working = others;
  }
