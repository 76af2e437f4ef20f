-- ===== src/PgBus/Backlog.antt =====
-- What a subscription that comes back is given (src/agents/postgres_bus.py): the events after its cursor
-- that its topics match, and the topics themselves as they were stored.
use agenthedge.Prelude.{
  ℕ, ◌≡◌, inl, inr, refl, sym, subst, Bool, true, false, Option, some, List, [], ◌∷◌, String, Any,
  if◌then◌else◌, keep_if, ltb, Bool-cases,
}
use agenthedge.Message.{topic_matches}
use agenthedge.Bus.{subscription_id}
use agenthedge.PgBus.Tables.{
  Db, SubRow, EventRow, insert_pending, enqueue_events, enqueue_backlog, requeue_processing,
  find_sub, upsert_sub, encode_topics,
}
use agenthedge.PgBus.Client.{PgBus, subscribe, subscribe_rows, enqueue_missed}
use agenthedge.PgBus.Kept.{HasRow, insert_pending-HasRow, enqueue_events-kept}

module _ {F : Type 0} where
  keep_if-Any :
      (test : EventRow F → Bool) (e : EventRow F) (events : List (EventRow F))
      → Any (λ x. x ≡ e) events
      → test e ≡ true
      → Any (λ x. x ≡ e) (keep_if test events)
  keep_if-Any test e [] m t = absurd m
  keep_if-Any test e (x ∷ events) (inl p) t =
      subst
        (λ y. Any (λ z. z ≡ e) (if test y then y ∷ keep_if test events else keep_if test events))
        (sym p) (rw t (inl refl))
  keep_if-Any test e (x ∷ events) (inr m) t = elim (Bool-cases (test x)) [
    | inl q ↦ rw q (inr (keep_if-Any test e events m t))
    | inr q ↦ rw q (keep_if-Any test e events m t)
  ]

  enqueue_events-HasRow :
      (now : ℕ) (sub_id : String) (topics : Option (List String)) (e : EventRow F)
      (events : List (EventRow F)) (db : Db F)
      → Any (λ x. x ≡ e) events
      → topic_matches topics e.topic ≡ true
      → HasRow sub_id e.event_id (enqueue_events now sub_id topics events db)
  unfolding enqueue_events
  enqueue_events-HasRow now sub_id topics e [] db m h = absurd m
  enqueue_events-HasRow now sub_id topics e (x ∷ events) db (inr m) h =
      enqueue_events-HasRow now sub_id topics e events
        (if topic_matches topics x.topic then insert_pending now sub_id x.event_id db else db) m h
  enqueue_events-HasRow now sub_id topics e (x ∷ events) db (inl p) h =
      enqueue_events-kept sub_id e.event_id now sub_id topics events
        (if topic_matches topics x.topic then insert_pending now sub_id x.event_id db else db)
        (subst
          (λ y.
            HasRow sub_id e.event_id (
              if topic_matches topics y.topic then insert_pending now sub_id y.event_id db else db))
          (sym p) (rw h (insert_pending-HasRow now sub_id e.event_id db)))

  missed-HasRow :
      (now : ℕ) (sub_id : String) (topics : Option (List String)) (replay_last : ℕ) (s : SubRow F)
      (r : Option (SubRow F)) (e : EventRow F) (db : Db F)
      → r ≡ some s
      → Any (λ x. x ≡ e) db.events
      → ltb s.cursor_event_id e.event_id ≡ true
      → topic_matches topics e.topic ≡ true
      → HasRow sub_id e.event_id (enqueue_missed now sub_id topics replay_last r db)
  unfolding enqueue_backlog
  missed-HasRow now sub_id topics replay_last s r e db p m l h =
      subst (λ x. HasRow sub_id e.event_id (enqueue_missed now sub_id topics replay_last x db))
        (sym p)
        (enqueue_events-HasRow now sub_id topics e
          (keep_if (λ x. ltb s.cursor_event_id x.event_id) db.events) db
          (keep_if-Any (λ x. ltb s.cursor_event_id x.event_id) e db.events m l) h)

  -- A subscription id that comes back after any absence misses nothing: when an open bus subscribes under
  -- an id whose row is stored, each stored event after the row's cursor that matches the topics it asks
  -- for has a delivery for it afterwards, whatever `replay_last` is.
  pub subscribe-HasRow :
      (now : ℕ) (uuid : String) (topics : Option (List String)) (replay_last : ℕ)
      (key : Option String) (b : PgBus F) (db : Db F) (s : SubRow F) (e : EventRow F)
      → b.closed ≡ false
      → find_sub (subscription_id key uuid) db.subs ≡ some s
      → Any (λ x. x ≡ e) db.events
      → ltb s.cursor_event_id e.event_id ≡ true
      → topic_matches topics e.topic ≡ true
      → HasRow
          (subscription_id key uuid)
          e.event_id
          (subscribe now uuid topics replay_last key b db).2
  unfolding subscribe subscribe_rows requeue_processing
  subscribe-HasRow now uuid topics replay_last key b db s e c f m l h =
      let k = subscription_id key uuid in
      let db' =
        requeue_processing now k
          (record db { subs = upsert_sub k b.instance_id (encode_topics topics) db.subs }) in
      rw c (missed-HasRow now k topics replay_last s (find_sub k db.subs) e db' f m l h)
