-- ===== src/PgBus/Tables.antt =====
-- The tables `ah_bus_events`, `ah_bus_subscriptions` and `ah_bus_deliveries` (src/agents/postgres_bus.py)
-- as lists of rows in the order of insertion, and each SQL statement of the bus as a function of them.
-- One call's transaction is one step; `NOW()` is an argument.
use agenthedge.Prelude.{
  ℕ, ◌+◌, Bool, true, false, ◌&&◌, Option, none, some, List, [], ◌∷◌, ◌++◌, String, if◌then◌else◌,
  ◌==◌, ltb, eqb, any, keep_if, map, last_n,
}
use agenthedge.Values.{Value, null, text, array, Items, nil, cons, Payload}
use agenthedge.Message.{topic_matches}

pub record EventRow (F : Type 0) : Type 0 where
  pub event_id : ℕ
  pub topic : String
  pub payload_json : Payload F
  pub metadata_json : Payload F
  pub created_at : ℕ

pub record SubRow (F : Type 0) : Type 0 where
  pub subscription_id : String
  pub instance_id : String
  pub topics_json : Value F
  pub active : Bool
  pub cursor_event_id : ℕ

pub data Status : Type 0 where
  pending processing retry done : Status

pub record Delivery : Type 0 where
  pub delivery_id : ℕ
  pub subscription_id : String
  pub event_id : ℕ
  pub status : Status
  pub attempts : ℕ
  pub last_error : Option String
  pub next_attempt_at : ℕ
  pub updated_at : ℕ

-- the tables with the next values of their two sequences
pub record Db (F : Type 0) : Type 0 where
  pub events : List (EventRow F)
  pub next_event_id : ℕ
  pub subs : List (SubRow F)
  pub deliveries : List Delivery
  pub next_delivery_id : ℕ

-- `status IN ('pending', 'processing', 'retry')`
abbrev pub is_open : Status → Bool
is_open done = false
is_open _ = true

-- `status IN ('pending', 'retry')`
abbrev pub is_waiting : Status → Bool
is_waiting pending = true
is_waiting retry = true
is_waiting _ = false

abbrev pub is_processing : Status → Bool
is_processing processing = true
is_processing _ = false

-- the row of one subscription and one event
abbrev pub is_for : String → ℕ → Delivery → Bool
is_for sub_id event_id d = d.subscription_id == sub_id && eqb d.event_id event_id

abbrev pub new_delivery : ℕ → ℕ → String → ℕ → Delivery
new_delivery now delivery_id sub_id event_id = record {
  delivery_id = delivery_id;
  subscription_id = sub_id;
  event_id = event_id;
  status = pending;
  attempts = 0;
  last_error = none;
  next_attempt_at = now;
  updated_at = now;
}

unfoldable pub requeued : ℕ → String → Delivery → Delivery
requeued now sub_id d =
    if d.subscription_id == sub_id && is_processing d.status
    then record d { status = retry; next_attempt_at = now; updated_at = now }
    else d

module _ {F : Type 0} where
  abbrev pub texts : List String → Items F
  texts [] = nil
  texts (t ∷ ts) = cons (text t) (texts ts)

  -- `_encode_topics`, as the JSON value
  unfoldable pub encode_topics : Option (List String) → Value F
  encode_topics none = null
  encode_topics (some topics) = array (texts topics)

  module _ (str : Value F → String) (loads : String → Option (Value F)) where
    -- `str(item)`, which leaves a text as it is
    abbrev pub item_text : Value F → String
    item_text (text s) = s
    item_text v = str v

    unfoldable pub item_texts : Items F → List String
    item_texts nil = []
    item_texts (cons v items) = item_text v ∷ item_texts items

    -- what `json.loads` of a text comes to
    abbrev pub decoded_topics : Option (Value F) → Option (List String)
    decoded_topics (some (array items)) = some (item_texts items)
    decoded_topics _ = none

    -- `_decode_topics`
    unfoldable pub decode_topics : Value F → Option (List String)
    unfolding item_texts
    decode_topics (array items) = some (item_texts items)
    decode_topics (text s) = decoded_topics (loads s)
    decode_topics _ = none

  -- INSERT INTO ah_bus_events … RETURNING event_id
  unfoldable pub insert_event : ℕ → String → Payload F → Payload F → Db F → Db F
  insert_event now topic payload metadata db = record db {
    events =
        db.events
        ++ (record {
          event_id = db.next_event_id;
          topic = topic;
          payload_json = payload;
          metadata_json = metadata;
          created_at = now;
        }
            ∷ []);
    next_event_id = db.next_event_id + 1;
  }

  -- `_insert_pending_delivery`: ON CONFLICT (subscription_id, event_id) DO NOTHING
  unfoldable pub insert_pending : ℕ → String → ℕ → Db F → Db F
  insert_pending now sub_id event_id db =
      if any (is_for sub_id event_id) db.deliveries then db else record db {
        deliveries = db.deliveries ++ (new_delivery now db.next_delivery_id sub_id event_id ∷ []);
        next_delivery_id = db.next_delivery_id + 1;
      }

  -- the loop of `publish` over the active subscriptions
  unfoldable pub deliver_to :
      (Value F → Option (List String)) → ℕ → String → ℕ → List (SubRow F) → Db F → Db F
  unfolding insert_pending topic_matches
  deliver_to decode now topic event_id [] db = db
  deliver_to decode now topic event_id (s ∷ subs) db = deliver_to decode now topic event_id subs (
      if s.active && topic_matches (decode s.topics_json) topic
      then insert_pending now s.subscription_id event_id db
      else db)

  -- the loops of `_enqueue_backlog_deliveries` and `_enqueue_replay_deliveries` over their events
  unfoldable pub enqueue_events :
      ℕ → String → Option (List String) → List (EventRow F) → Db F → Db F
  unfolding insert_pending topic_matches
  enqueue_events now sub_id topics [] db = db
  enqueue_events now sub_id topics (e ∷ events) db =
      enqueue_events now sub_id topics events
        (if topic_matches topics e.topic then insert_pending now sub_id e.event_id db else db)

  unfoldable pub enqueue_backlog : ℕ → String → Option (List String) → ℕ → Db F → Db F
  unfolding enqueue_events
  enqueue_backlog now sub_id topics after_event_id db =
      enqueue_events now sub_id topics (keep_if (λ e. ltb after_event_id e.event_id) db.events) db

  -- ORDER BY event_id DESC LIMIT n, reversed
  unfoldable pub enqueue_replay : ℕ → String → Option (List String) → ℕ → Db F → Db F
  unfolding enqueue_events
  enqueue_replay now sub_id topics replay_last db =
      enqueue_events now sub_id topics (last_n replay_last db.events) db

  abbrev pub set_deliveries : (Delivery → Delivery) → Db F → Db F
  set_deliveries f db = record db { deliveries = map f db.deliveries }

  abbrev pub set_subs : (SubRow F → SubRow F) → Db F → Db F
  set_subs f db = record db { subs = map f db.subs }

  -- `_requeue_processing_deliveries`
  unfoldable pub requeue_processing : ℕ → String → Db F → Db F
  unfolding requeued
  requeue_processing now sub_id db = set_deliveries (requeued now sub_id) db

  unfoldable pub find_sub : String → List (SubRow F) → Option (SubRow F)
  find_sub sub_id [] = none
  find_sub sub_id (s ∷ subs) = if s.subscription_id == sub_id then some s else find_sub sub_id subs

  -- INSERT INTO ah_bus_subscriptions … ON CONFLICT (subscription_id) DO UPDATE
  unfoldable pub upsert_sub : String → String → Value F → List (SubRow F) → List (SubRow F)
  upsert_sub sub_id instance_id topics_json [] =
      record {
        subscription_id = sub_id;
        instance_id = instance_id;
        topics_json = topics_json;
        active = true;
        cursor_event_id = 0;
      }
      ∷ []
  upsert_sub sub_id instance_id topics_json (s ∷ subs) =
      if s.subscription_id == sub_id
      then record s { instance_id = instance_id; topics_json = topics_json; active = true } ∷ subs
      else s ∷ upsert_sub sub_id instance_id topics_json subs

  abbrev pub is_own : String → String → SubRow F → Bool
  is_own sub_id instance_id s = s.subscription_id == sub_id && s.instance_id == instance_id

  -- UPDATE ah_bus_subscriptions SET active = FALSE
  unfoldable pub deactivated : String → String → SubRow F → SubRow F
  deactivated sub_id instance_id s =
      if is_own sub_id instance_id s then record s { active = false } else s

  unfoldable pub deactivate_all : List String → String → Db F → Db F
  unfolding deactivated
  deactivate_all [] instance_id db = db
  deactivate_all (k ∷ ks) instance_id db =
      deactivate_all ks instance_id (set_subs (deactivated k instance_id) db)

  -- the join of a delivery with its event
  unfoldable pub find_event : ℕ → List (EventRow F) → Option (EventRow F)
  find_event event_id [] = none
  find_event event_id (e ∷ events) =
      if eqb e.event_id event_id then some e else find_event event_id events
