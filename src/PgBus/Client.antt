-- ===== src/PgBus/Client.antt =====
-- The calls of one `PostgresMessageBus` (src/agents/postgres_bus.py) on its own state and the tables.
-- `fnmatch`, the UUID and the decoding of a stored topic list are arguments.
use agenthedge.Prelude.{
  ℕ, Bool, true, not, ◌||◌, Option, none, some, List, [], ◌∷◌, String, Dict, put, pop,
  if◌then◌else◌, ltb, keep_if, map, Result, ok, err,
}
use agenthedge.Values.{Value, Payload}
use agenthedge.Message.{Envelope}
use agenthedge.Bus.{
  BusError, bus_closed, not_allowed, Acl, allowed_for, no_rules, non_blank, publisher_value,
  subscription_id, append_bounded,
}
use agenthedge.PgBus.Tables.{
  Db, SubRow, find_sub, insert_event, deliver_to, upsert_sub, encode_topics, requeue_processing,
  enqueue_backlog, enqueue_replay, set_subs, deactivated, deactivate_all,
}

-- one instance: the topics of its registered subscriptions, by their ids, and its buffers and settings
pub record PgBus (F : Type 0) : Type 0 where
  pub instance_id : String
  pub subs : Dict (Option (List String))
  pub history : List (Envelope F)
  pub max_history : ℕ
  pub publish_acl : Acl
  pub enforce_acl : Bool
  pub closed : Bool
  pub retry_delay : ℕ

abbrev pub keys : {V : Type 0} → Dict V → List String
keys [] = []
keys ((k, _) ∷ d) = k ∷ keys d

module _ {F : Type 0} where
  unfoldable pub is_allowed : (String → String → Bool) → String → Option String → PgBus F → Bool
  is_allowed fnmatch topic publisher b =
      if not b.enforce_acl || no_rules b.publish_acl
      then true
      else allowed_for fnmatch topic publisher b.publish_acl

  -- the envelope of an event; the id is the text of the number
  abbrev pub event_envelope : (ℕ → String) → ℕ → ℕ → String → Payload F → Payload F → Envelope F
  event_envelope str_id now event_id topic payload metadata = record {
    id = str_id event_id;
    message = record { topic = topic; payload = payload; created_at = now; metadata = metadata };
  }

  abbrev pub with_publisher : Option String → Payload F → Payload F
  with_publisher publisher metadata = put "publisher" (publisher_value publisher) metadata

  -- the transaction of `publish`: the event, then a delivery for each active subscription that matches
  unfoldable pub publish_event :
      (Value F → Option (List String)) → ℕ → String → Payload F → Payload F → Db F → Db F
  unfolding insert_event deliver_to
  publish_event decode now topic payload metadata db =
      let db' = insert_event now topic payload metadata db in
      deliver_to decode now topic db.next_event_id db'.subs db'

  unfoldable pub publish :
      (String → String → Bool)
      → (ℕ → String)
      → (Value F → Option (List String))
      → ℕ
      → String
      → Payload F
      → Option String
      → Payload F
      → PgBus F
      → Db F
      → Result BusError (Envelope F) × PgBus F × Db F
  unfolding is_allowed append_bounded
  publish fnmatch str_id decode now topic payload publisher metadata b db =
      let e =
        event_envelope str_id now db.next_event_id topic payload
          (with_publisher publisher metadata) in
      if b.closed
      then (err bus_closed, b, db)
      else if not (is_allowed fnmatch topic publisher b)
      then (err not_allowed, b, db)
      else (
        ok e,
        record b { history = append_bounded b.max_history b.history e },
        publish_event decode now topic payload (with_publisher publisher metadata) db,
      )

  -- what is queued for a subscription that comes back, or that is new
  abbrev pub enqueue_missed :
      ℕ → String → Option (List String) → ℕ → Option (SubRow F) → Db F → Db F
  enqueue_missed now sub_id topics replay_last (some existing) db =
      enqueue_backlog now sub_id topics existing.cursor_event_id db
  enqueue_missed now sub_id topics replay_last none db =
      if ltb 0 replay_last then enqueue_replay now sub_id topics replay_last db else db

  -- the transaction of `subscribe`
  unfoldable pub subscribe_rows : ℕ → String → Option (List String) → ℕ → String → Db F → Db F
  unfolding find_sub upsert_sub encode_topics requeue_processing enqueue_backlog enqueue_replay
  subscribe_rows now instance_id topics replay_last sub_id db =
      enqueue_missed now sub_id topics replay_last (find_sub sub_id db.subs) (
        requeue_processing now sub_id
          (record db { subs = upsert_sub sub_id instance_id (encode_topics topics) db.subs }))

  unfoldable pub subscribe :
      ℕ
      → String
      → Option (List String)
      → ℕ
      → Option String
      → PgBus F
      → Db F
      → Result BusError String × PgBus F × Db F
  unfolding subscribe_rows
  subscribe now uuid topics replay_last key b db =
      let k = subscription_id key uuid in
      if b.closed then (err bus_closed, b, db) else (
        ok k,
        record b { subs = put k topics (pop k b.subs) },
        subscribe_rows now b.instance_id topics replay_last k db,
      )

  unfoldable pub unsubscribe : String → PgBus F → Db F → PgBus F × Db F
  unfolding deactivated
  unsubscribe k b db = (record b { subs = pop k b.subs }, set_subs (deactivated k b.instance_id) db)

  unfoldable pub clear : PgBus F → Db F → PgBus F × Db F
  unfolding deactivate_all
  clear b db = (record b { subs = []; history = [] }, deactivate_all (keys b.subs) b.instance_id db)

  unfoldable pub close : PgBus F → Db F → PgBus F × Db F
  unfolding deactivate_all
  close b db =
      if b.closed
      then (b, db)
      else (record b { subs = []; closed = true }, deactivate_all (keys b.subs) b.instance_id db)

  unfoldable pub configure_acl : Acl → Bool → PgBus F → PgBus F
  configure_acl rules enforce b = record b {
    publish_acl = map (λ r. (r.0, keep_if non_blank r.1)) rules;
    enforce_acl = enforce;
  }
