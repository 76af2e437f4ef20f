-- ===== src/PgBus/Kept.antt =====
-- No delivery is ever lost (src/agents/postgres_bus.py): the row of a subscription and an event stays,
-- whatever happens.
use agenthedge.Prelude.{
  ℕ, ◌+◌, ◌≡◌, refl, ap, ◌∙◌, Bool, true, ◌&&◌, ◌||◌, not, Option, none, some, List, [], ◌∷◌, ◌++◌,
  String, if◌then◌else◌, if_both, any, arith, get, is_some, keep_if, last_n, ltb, eq_refl,
}
use agenthedge.Values.{Value, Payload}
use agenthedge.Message.{topic_matches}
use agenthedge.Bus.{subscription_id}
use agenthedge.PgBus.Tables.{
  Db, SubRow, EventRow, Delivery, new_delivery, is_for, insert_pending, deliver_to, enqueue_events,
  enqueue_backlog, enqueue_replay, insert_event, requeued, requeue_processing, set_subs,
  set_deliveries, deactivated, deactivate_all, upsert_sub, encode_topics, find_sub, find_event,
}
use agenthedge.PgBus.Client.{
  PgBus, publish_event, subscribe_rows, enqueue_missed, keys, with_publisher, unsubscribe, clear,
}
use agenthedge.PgBus.Poller.{
  World, claimed, finished, failed, take_claim, claim_next, mark_done, mark_retry, started, poll,
  handled, raised, first_by_event, is_claimable, claim_of,
}
use agenthedge.PgBus.Rows.{
  KeepsKey, requeued-KeepsKey, claimed-KeepsKey, finished-KeepsKey, failed-KeepsKey, any_for-map,
}
use agenthedge.PgBus.Steps.{
  Step, published, subscribed, unsubscribed, cleared, closed, polled, handler_returned,
  handler_raised, crashed, Reach, here, after, publish-rows, subscribe-rows, close-rows,
}

any-append :
    {A : Type 0} (test : A → Bool) (xs ys : List A)
    → any test (xs ++ ys) ≡ (any test xs || any test ys)
any-append test [] ys = refl
any-append test (x ∷ xs) ys = ground (arith, any-append test xs ys)

module _ {F : Type 0} where
  -- the tables have a row for the subscription and the event
  abbrev pub HasRow : String → ℕ → Db F → Type 0
  HasRow sub_id event_id db = any (is_for sub_id event_id) db.deliveries ≡ true

  pub insert_pending-HasRow :
      (now : ℕ) (sub_id : String) (event_id : ℕ) (db : Db F)
      → HasRow sub_id event_id (insert_pending now sub_id event_id db)
  unfolding insert_pending
  insert_pending-HasRow now sub_id event_id db = ground (
    arith,
    eq_refl sub_id,
    any-append (is_for sub_id event_id) db.deliveries
        (new_delivery now db.next_delivery_id sub_id event_id ∷ []),
  )

  module _ (k : String) (n : ℕ) where
    insert_pending-kept :
        (now : ℕ) (sub_id : String) (event_id : ℕ) (db : Db F)
        → HasRow k n db
        → HasRow k n (insert_pending now sub_id event_id db)
    unfolding insert_pending
    insert_pending-kept now sub_id event_id db h =
        if_both {A = Db F} (HasRow k n) (any (is_for sub_id event_id) db.deliveries) {x = db}
          {y = record db {
            deliveries =
                db.deliveries ++ (new_delivery now db.next_delivery_id sub_id event_id ∷ []);
            next_delivery_id = db.next_delivery_id + 1;
          }}
          h
          (any-append (is_for k n) db.deliveries
              (new_delivery now db.next_delivery_id sub_id event_id ∷ [])
            ∙ ap
                (λ b.
                  b || any (is_for k n) (new_delivery now db.next_delivery_id sub_id event_id ∷ []))
                h)

    pub deliver_to-kept :
        (decode : Value F → Option (List String)) (now : ℕ) (topic : String) (event_id : ℕ)
        (subs : List (SubRow F)) (db : Db F)
        → HasRow k n db
        → HasRow k n (deliver_to decode now topic event_id subs db)
    unfolding deliver_to
    deliver_to-kept decode now topic event_id [] db h = h
    deliver_to-kept decode now topic event_id (r ∷ subs) db h =
        deliver_to-kept decode now topic event_id subs
          (if r.active && topic_matches (decode r.topics_json) topic
            then insert_pending now r.subscription_id event_id db
            else db)
          (if_both {A = Db F} (HasRow k n) (r.active && topic_matches (decode r.topics_json) topic)
            {x = insert_pending now r.subscription_id event_id db} {y = db}
            (insert_pending-kept now r.subscription_id event_id db h) h)

    pub enqueue_events-kept :
        (now : ℕ) (sub_id : String) (topics : Option (List String)) (events : List (EventRow F))
        (db : Db F)
        → HasRow k n db
        → HasRow k n (enqueue_events now sub_id topics events db)
    unfolding enqueue_events
    enqueue_events-kept now sub_id topics [] db h = h
    enqueue_events-kept now sub_id topics (e ∷ events) db h =
        enqueue_events-kept now sub_id topics events
          (if topic_matches topics e.topic then insert_pending now sub_id e.event_id db else db)
          (if_both {A = Db F} (HasRow k n) (topic_matches topics e.topic)
            {x = insert_pending now sub_id e.event_id db} {y = db}
            (insert_pending-kept now sub_id e.event_id db h) h)

    enqueue_missed-kept :
        (now : ℕ) (sub_id : String) (topics : Option (List String)) (replay_last : ℕ)
        (existing : Option (SubRow F)) (db : Db F)
        → HasRow k n db
        → HasRow k n (enqueue_missed now sub_id topics replay_last existing db)
    unfolding enqueue_backlog enqueue_replay
    enqueue_missed-kept now sub_id topics replay_last (some r) db h =
        enqueue_events-kept now sub_id topics
          (keep_if (λ e. ltb r.cursor_event_id e.event_id) db.events) db h
    enqueue_missed-kept now sub_id topics replay_last none db h =
        if_both {A = Db F} (HasRow k n) (ltb 0 replay_last)
          {x = enqueue_replay now sub_id topics replay_last db} {y = db}
          (enqueue_events-kept now sub_id topics (last_n replay_last db.events) db h) h

    subscribe_rows-kept :
        (now : ℕ) (instance_id : String) (topics : Option (List String)) (replay_last : ℕ)
        (sub_id : String) (db : Db F)
        → HasRow k n db
        → HasRow k n (subscribe_rows now instance_id topics replay_last sub_id db)
    unfolding subscribe_rows requeue_processing
    subscribe_rows-kept now instance_id topics replay_last sub_id db h =
        enqueue_missed-kept now sub_id topics replay_last (find_sub sub_id db.subs)
          (requeue_processing now sub_id
            (record db { subs = upsert_sub sub_id instance_id (encode_topics topics) db.subs }))
          (any_for-map (requeued now sub_id) (requeued-KeepsKey now sub_id) k n db.deliveries ∙ h)

    deactivate_all-kept :
        (ks : List String) (instance_id : String) (db : Db F)
        → HasRow k n db
        → HasRow k n (deactivate_all ks instance_id db)
    unfolding deactivate_all
    deactivate_all-kept [] instance_id db h = h
    deactivate_all-kept (x ∷ ks) instance_id db h =
        deactivate_all-kept ks instance_id (set_subs (deactivated x instance_id) db) h

    updated-kept :
        (f : Delivery → Delivery) (db : Db F)
        → KeepsKey f
        → HasRow k n db
        → HasRow k n (set_deliveries f db)
    updated-kept f db c h = any_for-map f c k n db.deliveries ∙ h

    take_claim-kept :
        (now : ℕ) (instance_id sub_id : String) (w : World F) (r : Option Delivery)
        → HasRow k n w.db
        → HasRow k n (started instance_id sub_id (take_claim now w.db r) w).db
    take_claim-kept now instance_id sub_id w none h = h
    take_claim-kept now instance_id sub_id w (some d) h = go (find_event d.event_id w.db.events)
      where
        go :
            (e : Option (EventRow F))
            → HasRow k n
                (started instance_id sub_id
                  (claim_of d e, set_deliveries (claimed now d.delivery_id) w.db)
                  w).db
        go none =
            updated-kept (claimed now d.delivery_id) w.db (claimed-KeepsKey now d.delivery_id) h
        go (some e) =
            updated-kept (claimed now d.delivery_id) w.db (claimed-KeepsKey now d.delivery_id) h

    poll-kept :
        (free : ℕ → Bool) (now : ℕ) (sub_id : String) (b : PgBus F) (w : World F)
        → HasRow k n w.db
        → HasRow k n (poll free now sub_id b w).db
    unfolding poll claim_next
    poll-kept free now sub_id b w h =
        if_both {A = World F} (λ v. HasRow k n v.db) (not b.closed && is_some (get sub_id b.subs))
          {x = started b.instance_id sub_id (claim_next free now sub_id b.instance_id w.db) w}
          {y = w}
          (take_claim-kept now b.instance_id sub_id w
            (first_by_event (is_claimable free now sub_id b.instance_id w.db) w.db.deliveries) h)
          h

    publish_event-kept :
        (decode : Value F → Option (List String)) (now : ℕ) (topic : String)
        (payload metadata : Payload F) (db : Db F)
        → HasRow k n db
        → HasRow k n (publish_event decode now topic payload metadata db)
    unfolding publish_event insert_event
    publish_event-kept decode now topic payload metadata db h =
        let db' = insert_event now topic payload metadata db in
        deliver_to-kept decode now topic db.next_event_id db'.subs db' h

module _ {F : Type 0} (fnmatch : String → String → Bool) (str_id : ℕ → String)
    (decode : Value F → Option (List String)) (k : String) (n : ℕ) where
  Step-kept : {v u : World F} → Step fnmatch str_id decode v u → HasRow k n v.db → HasRow k n u.db
  unfolding unsubscribe clear handled raised mark_done mark_retry
  Step-kept {v} (published b now topic payload metadata publisher) h =
      publish-rows fnmatch str_id decode (HasRow k n) now topic payload metadata publisher b v.db h
        (publish_event-kept k n decode now topic payload (with_publisher publisher metadata) v.db h)
  Step-kept {v} (subscribed b now uuid topics replay_last key) h =
      subscribe-rows fnmatch str_id decode (HasRow k n) now uuid topics replay_last key b v.db h (
        subscribe_rows-kept k n now b.instance_id topics replay_last (subscription_id key uuid) v.db
          h)
  Step-kept {v} (unsubscribed b sub_id) h = h
  Step-kept {v} (cleared b) h = deactivate_all-kept k n (keys b.subs) b.instance_id v.db h
  Step-kept {v} (closed b) h =
      close-rows fnmatch str_id decode (HasRow k n) b v.db h
        (deactivate_all-kept k n (keys b.subs) b.instance_id v.db h)
  Step-kept {v} (polled free now sub_id b) h = poll-kept k n free now sub_id b v h
  Step-kept {v} (handler_returned now j others o) h =
      updated-kept k n (finished now j.claim.delivery_id) v.db
        (finished-KeepsKey now j.claim.delivery_id) h
  Step-kept {v} (handler_raised now retry_delay error_message j others o) h =
      updated-kept k n
        (failed now retry_delay j.instance_id error_message v.db.subs j.claim.delivery_id) v.db
        (failed-KeepsKey now retry_delay j.instance_id error_message v.db.subs j.claim.delivery_id)
        h
  Step-kept {v} (crashed j others o) h = h

  pub Reach-kept :
      {v u : World F} → Reach fnmatch str_id decode v u → HasRow k n v.db → HasRow k n u.db
  Reach-kept here h = h
  Reach-kept (after r t) h = Step-kept t (Reach-kept r h)
