-- ===== src/PgBus/Invariant.antt =====
-- What holds of the tables whatever instances there are, whatever their threads do, and wherever a
-- process stops.
use agenthedge.Prelude.{
  ℕ, ◌+◌, ◌≤◌, ◌≡◌, ◌⊎◌, inl, refl, ◌∙◌, Bool, true, ◌&&◌, Option, none, some, List, [], ◌∷◌, ◌++◌,
  String, All, All-append, All-map, All-image, if◌then◌else◌, if_both, ◌==◌, ltb, eqb, any, map,
  arith, keep_if, last_n, suc, ◌<◌, ◌-◌, All-drop, All-keep_if, length,
}
use agenthedge.Values.{Value, Payload}
use agenthedge.Message.{topic_matches}
use agenthedge.PgBus.Tables.{
  Db, SubRow, EventRow, Delivery, Status, is_for, is_open, is_processing, new_delivery, requeued,
  insert_event, insert_pending, deliver_to, enqueue_events, enqueue_backlog, enqueue_replay,
  set_deliveries, set_subs, find_sub, upsert_sub, encode_topics, deactivated, deactivate_all,
  requeue_processing,
}
use agenthedge.PgBus.Client.{publish_event, subscribe_rows, enqueue_missed}
use agenthedge.PgBus.Poller.{Working}
use agenthedge.PgBus.Rows.{
  key_of, IsKeyed, KeepsKey, requeued-KeepsKey, key_of-map, key_of-append_old, map-IsKeyed,
  insert-IsKeyed,
}

-- a handler of the subscription has returned for the event
abbrev pub has_returned : String → ℕ → List (String × ℕ) → Bool
has_returned sub_id event_id log = any (λ r. r.0 == sub_id && eqb r.1 event_id) log

-- A row that is done has had its handler return.
abbrev pub IsSettled : List (String × ℕ) → Delivery → Type 0
IsSettled log d = (is_open d.status ≡ true) ⊎ (has_returned d.subscription_id d.event_id log ≡ true)

module _ {F : Type 0} where
  -- The claim in flight is of the row that it names.
  abbrev pub IsClaimed : List Delivery → Working F → Type 0
  IsClaimed ds j = key_of j.claim.delivery_id ds ≡ some (j.sub_id, j.claim.event.event_id)

  pub map-IsClaimed :
      (f : Delivery → Delivery)
      → KeepsKey f
      → (ds : List Delivery) (working : List (Working F)) → All (IsClaimed ds) working
      → All (IsClaimed (map f ds)) working
  map-IsClaimed f k ds working h =
      All-map (IsClaimed ds) (IsClaimed (map f ds))
        (λ j c. key_of-map f k j.claim.delivery_id ds ∙ c) working h

  pub record IsSound (working : List (Working F)) (log : List (String × ℕ)) (db : Db F)
      : Type 0 where
    pub numbered : 1 ≤ db.next_event_id
    pub keyed : IsKeyed db.next_delivery_id db.deliveries
    pub claims : All (IsClaimed db.deliveries) working
    pub settled : All (IsSettled log) db.deliveries
    pub recent : All (λ d. d.event_id < db.next_event_id) db.deliveries
    pub stored : All (λ e. e.event_id < db.next_event_id) db.events
    pub logged : All (λ r. r.1 < db.next_event_id) log

  module _ (working : List (Working F)) (log : List (String × ℕ)) where
    -- a statement that changes no delivery
    pub same-IsSound :
        (db db' : Db F)
        → db'.deliveries ≡ db.deliveries
        → db'.next_delivery_id ≡ db.next_delivery_id
        → db.next_event_id ≤ db'.next_event_id
        → All (λ v. v.event_id < db'.next_event_id) db'.events
        → IsSound working log db
        → IsSound working log db'
    same-IsSound db db' e n m v s = record {
      numbered = omega (arith, s.numbered);
      keyed = rw (e, n) s.keyed;
      claims = rw e s.claims;
      settled = rw e s.settled;
      recent = rw e (
          All-map (λ d. d.event_id < db.next_event_id) (λ d. d.event_id < db'.next_event_id)
            (λ d h. omega (arith, h, m)) db.deliveries s.recent);
      stored = v;
      logged =
          All-map (λ r. r.1 < db.next_event_id) (λ r. r.1 < db'.next_event_id)
            (λ r h. omega (arith, h, m)) log s.logged;
    }

    -- a statement that updates the deliveries in place
    pub update-IsSound :
        (f : Delivery → Delivery) (db : Db F)
        → KeepsKey f
        → ((d : Delivery) → IsSettled log d → IsSettled log (f d))
        → IsSound working log db
        → IsSound working log (set_deliveries f db)
    update-IsSound f db k g s = record {
      numbered = s.numbered;
      keyed = map-IsKeyed f k db.next_delivery_id db.deliveries s.keyed;
      claims = map-IsClaimed f k db.deliveries working s.claims;
      settled = All-image (IsSettled log) (IsSettled log) f g db.deliveries s.settled;
      recent =
          All-image (λ d. d.event_id < db.next_event_id) (λ d. d.event_id < db.next_event_id) f
            (λ d h. omega (arith, k.keeps_event d, h)) db.deliveries s.recent;
      stored = s.stored;
      logged = s.logged;
    }

    insert_pending-next :
        (now : ℕ) (sub_id : String) (event_id n : ℕ) (db : Db F)
        → n ≤ db.next_event_id
        → n ≤ (insert_pending now sub_id event_id db).next_event_id
    unfolding insert_pending
    insert_pending-next now sub_id event_id n db h =
        if_both {A = Db F} (λ v. n ≤ v.next_event_id) (any (is_for sub_id event_id) db.deliveries) h
          h

    insert_pending-IsSound :
        (now : ℕ) (sub_id : String) (event_id : ℕ) (db : Db F)
        → event_id < db.next_event_id
        → IsSound working log db
        → IsSound working log (insert_pending now sub_id event_id db)
    unfolding insert_pending
    insert_pending-IsSound now sub_id event_id db l s =
        let d = new_delivery now db.next_delivery_id sub_id event_id in
        if_both {A = Db F} (IsSound working log) (any (is_for sub_id event_id) db.deliveries)
          {x = db}
          {y = record db {
            deliveries = db.deliveries ++ (d ∷ []);
            next_delivery_id = db.next_delivery_id + 1;
          }}
          s
          (record {
            numbered = s.numbered;
            keyed = insert-IsKeyed now db.next_delivery_id sub_id event_id db.deliveries s.keyed;
            claims =
                All-map (IsClaimed db.deliveries) (IsClaimed (db.deliveries ++ (d ∷ [])))
                  (λ j c.
                    key_of-append_old j.claim.delivery_id db.deliveries (d ∷ [])
                      (j.sub_id, j.claim.event.event_id) c)
                  working s.claims;
            settled = All-append (IsSettled log) db.deliveries (d ∷ []) s.settled (inl refl, tt);
            recent =
                All-append (λ x. x.event_id < db.next_event_id) db.deliveries (d ∷ []) s.recent
                  (l, tt);
            stored = s.stored;
            logged = s.logged;
          })

    -- a delivery that is inserted where a test asks for it
    inserted_if-IsSound :
        (test : Bool) (now : ℕ) (sub_id : String) (event_id n : ℕ) (db : Db F)
        → event_id < n
        → n ≤ db.next_event_id
        → IsSound working log db
        → let db' = if test then insert_pending now sub_id event_id db else db in
          (n ≤ db'.next_event_id) × IsSound working log db'
    inserted_if-IsSound test now sub_id event_id n db l m s =
        if_both {A = Db F} (λ v. (n ≤ v.next_event_id) × IsSound working log v) test
          {x = insert_pending now sub_id event_id db} {y = db}
          (
            insert_pending-next now sub_id event_id n db m,
            insert_pending-IsSound now sub_id event_id db (omega (arith, l, m)) s,
          )
          (m, s)

    deliver_to-IsSound :
        (decode : Value F → Option (List String)) (now : ℕ) (topic : String) (event_id : ℕ)
        (subs : List (SubRow F)) (db : Db F)
        → suc event_id ≤ db.next_event_id
        → IsSound working log db
        → IsSound working log (deliver_to decode now topic event_id subs db)
    unfolding deliver_to
    deliver_to-IsSound decode now topic event_id [] db m s = s
    deliver_to-IsSound decode now topic event_id (r ∷ subs) db m s =
        let test = r.active && topic_matches (decode r.topics_json) topic in
        let k =
          inserted_if-IsSound test now r.subscription_id event_id (suc event_id) db (omega arith) m
            s in
        deliver_to-IsSound decode now topic event_id subs
          (if test then insert_pending now r.subscription_id event_id db else db) k.0 k.1

    enqueue_events-IsSound :
        (now : ℕ) (sub_id : String) (topics : Option (List String)) (events : List (EventRow F))
        (n : ℕ) (db : Db F)
        → n ≤ db.next_event_id
        → All (λ e. e.event_id < n) events
        → IsSound working log db
        → IsSound working log (enqueue_events now sub_id topics events db)
    unfolding enqueue_events
    enqueue_events-IsSound now sub_id topics [] n db m h s = s
    enqueue_events-IsSound now sub_id topics (e ∷ events) n db m h s =
        let test = topic_matches topics e.topic in
        let k = inserted_if-IsSound test now sub_id e.event_id n db h.0 m s in
        enqueue_events-IsSound now sub_id topics events n
          (if test then insert_pending now sub_id e.event_id db else db) k.0 h.1 k.1

    pub publish_event-IsSound :
        (decode : Value F → Option (List String)) (now : ℕ) (topic : String)
        (payload metadata : Payload F) (db : Db F)
        → IsSound working log db
        → IsSound working log (publish_event decode now topic payload metadata db)
    unfolding publish_event insert_event
    publish_event-IsSound decode now topic payload metadata db s =
        let db' = insert_event now topic payload metadata db in
        deliver_to-IsSound decode now topic db.next_event_id db'.subs db' (omega arith) (
          same-IsSound db db' refl refl (omega arith)
            (All-append (λ e. e.event_id < db'.next_event_id) db.events _
              (All-map (λ e. e.event_id < db.next_event_id) (λ e. e.event_id < db'.next_event_id)
                (λ e h. omega (arith, h)) db.events s.stored)
              (omega arith, tt))
            s)

    enqueue_missed-IsSound :
        (now : ℕ) (sub_id : String) (topics : Option (List String)) (replay_last : ℕ)
        (existing : Option (SubRow F)) (db : Db F)
        → IsSound working log db
        → IsSound working log (enqueue_missed now sub_id topics replay_last existing db)
    unfolding enqueue_backlog enqueue_replay
    enqueue_missed-IsSound now sub_id topics replay_last (some r) db s =
        enqueue_events-IsSound now sub_id topics
          (keep_if (λ e. ltb r.cursor_event_id e.event_id) db.events) db.next_event_id db
          (omega arith) (All-keep_if (λ e. e.event_id < db.next_event_id) _ db.events s.stored) s
    enqueue_missed-IsSound now sub_id topics replay_last none db s =
        if_both {A = Db F} (IsSound working log) (ltb 0 replay_last)
          {x = enqueue_replay now sub_id topics replay_last db} {y = db}
          (enqueue_events-IsSound now sub_id topics (last_n replay_last db.events) db.next_event_id
            db (omega arith)
            (All-drop (λ e. e.event_id < db.next_event_id) (length db.events - replay_last)
              db.events s.stored)
            s)
          s

    requeued-IsSettled :
        (now : ℕ) (sub_id : String) (d : Delivery)
        → IsSettled log d
        → IsSettled log (requeued now sub_id d)
    unfolding requeued
    requeued-IsSettled now sub_id d h =
        if_both {A = Delivery} (IsSettled log)
          (d.subscription_id == sub_id && is_processing d.status)
          {x = record d { status = Status.retry; next_attempt_at = now; updated_at = now }} {y = d}
          (inl refl) h

    pub subscribe_rows-IsSound :
        (now : ℕ) (instance_id : String) (topics : Option (List String)) (replay_last : ℕ)
        (sub_id : String) (db : Db F)
        → IsSound working log db
        → IsSound working log (subscribe_rows now instance_id topics replay_last sub_id db)
    unfolding subscribe_rows requeue_processing
    subscribe_rows-IsSound now instance_id topics replay_last sub_id db s =
        let db' = record db {
          subs = upsert_sub sub_id instance_id (encode_topics topics) db.subs;
        } in
        enqueue_missed-IsSound now sub_id topics replay_last (find_sub sub_id db.subs)
          (requeue_processing now sub_id db')
          (update-IsSound (requeued now sub_id) db' (requeued-KeepsKey now sub_id)
            (requeued-IsSettled now sub_id)
            (same-IsSound db db' refl refl (omega arith) s.stored s))

    pub deactivate_all-IsSound :
        (ks : List String) (instance_id : String) (db : Db F)
        → IsSound working log db
        → IsSound working log (deactivate_all ks instance_id db)
    unfolding deactivate_all
    deactivate_all-IsSound [] instance_id db s = s
    deactivate_all-IsSound (k ∷ ks) instance_id db s =
        deactivate_all-IsSound ks instance_id (set_subs (deactivated k instance_id) db) (
          same-IsSound db (set_subs (deactivated k instance_id) db) refl refl (omega arith) s.stored
            s)
