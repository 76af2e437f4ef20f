-- ===== src/PgBus/Delivered.antt =====
-- The deliveries that the transaction of `publish` leaves (src/agents/postgres_bus.py).
use agenthedge.Prelude.{
  ℕ, ◌≡◌, sym, subst, true, ◌&&◌, Option, List, [], ◌∷◌, String, Any, inl, inr, if◌then◌else◌,
}
use agenthedge.Values.{Value, Payload}
use agenthedge.Message.{topic_matches}
use agenthedge.PgBus.Tables.{Db, SubRow, insert_pending, deliver_to, insert_event}
use agenthedge.PgBus.Client.{publish_event}
use agenthedge.PgBus.Kept.{HasRow, deliver_to-kept, insert_pending-HasRow}

module _ {F : Type 0} (decode : Value F → Option (List String)) (now : ℕ) where
  deliver_to-HasRow :
      (topic : String) (event_id : ℕ) (s : SubRow F) (subs : List (SubRow F)) (db : Db F)
      → Any (λ r. r ≡ s) subs
      → (s.active && topic_matches (decode s.topics_json) topic) ≡ true
      → HasRow s.subscription_id event_id (deliver_to decode now topic event_id subs db)
  unfolding deliver_to
  deliver_to-HasRow topic event_id s [] db m h = absurd m
  deliver_to-HasRow topic event_id s (r ∷ subs) db (inr m) h =
      deliver_to-HasRow topic event_id s subs
        (if r.active && topic_matches (decode r.topics_json) topic
          then insert_pending now r.subscription_id event_id db
          else db)
        m h
  deliver_to-HasRow topic event_id s (r ∷ subs) db (inl e) h =
      deliver_to-kept s.subscription_id event_id decode now topic event_id subs
        (if r.active && topic_matches (decode r.topics_json) topic
          then insert_pending now r.subscription_id event_id db
          else db)
        (subst
          (λ x. HasRow s.subscription_id event_id (
            if x.active && topic_matches (decode x.topics_json) topic
            then insert_pending now x.subscription_id event_id db
            else db))
          (sym e) (rw h (insert_pending-HasRow now s.subscription_id event_id db)))

  -- The transaction of `publish` leaves a delivery for each active subscription that matches.
  pub publish_event-HasRow :
      (topic : String) (payload metadata : Payload F) (s : SubRow F) (db : Db F)
      → Any (λ r. r ≡ s) db.subs
      → (s.active && topic_matches (decode s.topics_json) topic) ≡ true
      → HasRow s.subscription_id db.next_event_id
          (publish_event decode now topic payload metadata db)
  unfolding publish_event insert_event
  publish_event-HasRow topic payload metadata s db m h =
      let db' = insert_event now topic payload metadata db in
      deliver_to-HasRow topic db.next_event_id s db'.subs db' m h
