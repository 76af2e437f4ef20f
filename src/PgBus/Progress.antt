-- ===== src/PgBus/Progress.antt =====
-- What the bus reports of its progress (src/agents/postgres_bus.py): depth, watermark, checkpoint,
-- pending deliveries, the waits, and the rate of retries.
use agenthedge.Prelude.{
  ℕ, ◌+◌, ◌-◌, Bool, true, false, not, ◌&&◌, Option, none, some, List, [], ◌∷◌, String,
  if◌then◌else◌, ◌==◌, ltb, leb, eqb, any, tally, keep_if, map, max, length,
}
use agenthedge.Floats.{Floats}
use agenthedge.Message.{contains}
use agenthedge.PgBus.Tables.{Db, SubRow, EventRow, Delivery, is_open, find_sub}
use agenthedge.PgBus.Client.{PgBus, keys}
use agenthedge.PgBus.Poller.{is_served}

-- the rows of active subscriptions of the instance, and no others
abbrev pub of_instance : {F : Type 0} → String → List (SubRow F) → Delivery → Bool
of_instance instance_id subs d = is_served instance_id (find_sub d.subscription_id subs)

-- MIN(event_id) of the rows that pass a test
unfoldable pub min_event : (Delivery → Bool) → List Delivery → Option ℕ
min_event test [] = none
min_event test (d ∷ ds) =
    let rest = min_event test ds in
    if test d
    then (elim rest [
      | none ↦ some d.event_id
      | some n ↦ if leb d.event_id n then some d.event_id else some n
    ])
    else rest

abbrev pub open_of : String → Delivery → Bool
open_of sub_id d = d.subscription_id == sub_id && is_open d.status

abbrev pub total : List (String × ℕ) → ℕ
total [] = 0
total ((_, n) ∷ rs) = n + total rs

abbrev pub before : ℕ → Option ℕ → ℕ
before max_event_id none = max_event_id
before max_event_id (some min_pending) = min_pending - 1

-- the ids of a scope that are not empty; no scope is every subscription
abbrev pub scope_ids : Option (List String) → List String
scope_ids none = []
scope_ids (some ids) = keep_if (λ k. not (k == "")) ids

abbrev pub in_scope : List String → String → Bool
in_scope [] sub_id = true
in_scope (k ∷ ks) sub_id = contains (k ∷ ks) sub_id

unfoldable pub sum_retries : List Delivery → ℕ
sum_retries [] = 0
sum_retries (d ∷ ds) = (d.attempts - 1) + sum_retries ds

unfoldable pub sum_attempts : List Delivery → ℕ
sum_attempts [] = 0
sum_attempts (d ∷ ds) = d.attempts + sum_attempts ds

module _ {F : Type 0} where
  unfoldable pub max_event : List (EventRow F) → ℕ
  max_event [] = 0
  max_event (e ∷ events) = max e.event_id (max_event events)

  unfoldable pub depth : Db F → ℕ
  depth db = length db.events

  unfoldable pub high_watermark : Db F → ℕ
  unfolding max_event
  high_watermark db = max_event db.events

  -- `pending_deliveries`: a count for each local subscription that has any
  unfoldable pub pending_deliveries : PgBus F → Db F → List (String × ℕ)
  pending_deliveries b db =
      keep_if (λ r. ltb 0 r.1) (map (λ k. (k, tally (open_of k) db.deliveries)) (keys b.subs))

  -- `caught_up_checkpoint`
  unfoldable pub caught_up_checkpoint : String → Db F → ℕ
  unfolding min_event max_event find_sub
  caught_up_checkpoint instance_id db =
      before (max_event db.events)
        (min_event (λ d. of_instance instance_id db.subs d && is_open d.status) db.deliveries)

  abbrev pub is_watched : String → List String → SubRow F → Bool
  is_watched instance_id ids s =
      s.active && s.instance_id == instance_id && in_scope ids s.subscription_id

  abbrev pub is_behind : String → List String → List (SubRow F) → ℕ → Delivery → Bool
  is_behind instance_id ids subs target_event_id d =
      of_instance instance_id subs d
      && in_scope ids d.subscription_id
      && is_open d.status
      && leb d.event_id target_event_id

  -- `_subscriptions_caught_up`
  unfoldable pub subscriptions_caught_up : String → ℕ → Option (List String) → Db F → Bool
  unfolding find_sub
  subscriptions_caught_up instance_id target_event_id scope db =
      if eqb target_event_id 0
      then true
      else if not (any (is_watched instance_id (scope_ids scope)) db.subs)
      then true
      else eqb
          (tally (is_behind instance_id (scope_ids scope) db.subs target_event_id) db.deliveries) 0

  -- `wait_until_caught_up`: each entry is the tables and the clock as one round of the loop finds them
  unfoldable pub wait_until_caught_up :
      String → ℕ → ℕ → Option (List String) → List (Db F × ℕ) → Option Bool
  unfolding subscriptions_caught_up
  wait_until_caught_up instance_id target_event_id deadline scope [] = none
  wait_until_caught_up instance_id target_event_id deadline scope ((db, now) ∷ rounds) =
      let later = wait_until_caught_up instance_id target_event_id deadline scope rounds in
      if subscriptions_caught_up instance_id target_event_id scope db
      then some true
      else if leb deadline now
      then some false
      else later

  -- `drain`
  unfoldable pub drain : ℕ → List (PgBus F × Db F × ℕ) → Option Bool
  unfolding pending_deliveries
  drain deadline [] = none
  drain deadline ((b, db, now) ∷ rounds) =
      let later = drain deadline rounds in
      if eqb (total (pending_deliveries b db)) 0
      then some true
      else if leb deadline now
      then some false
      else later

  -- the deliveries of the instance that were touched within the window
  abbrev pub is_recent : String → List (SubRow F) → ℕ → ℕ → Delivery → Bool
  is_recent instance_id subs now window d =
      (elim (find_sub d.subscription_id subs) [
        | none ↦ false
        | some s ↦ s.instance_id == instance_id
      ])
      && leb now (d.updated_at + window)

  -- `delivery_retry_rate` of a positive window; `of_count` is `float`
  unfoldable pub delivery_retry_rate :
      (fl : Floats) → (ℕ → Floats.F fl) → String → ℕ → ℕ → Db F → Floats.F fl
  unfolding find_sub sum_retries sum_attempts
  delivery_retry_rate fl of_count instance_id now window db =
      let recent = keep_if (is_recent instance_id db.subs now window) db.deliveries in
      if eqb (sum_attempts recent) 0
      then fl.zero_f
      else fl.div_f (of_count (sum_retries recent)) (of_count (sum_attempts recent))
