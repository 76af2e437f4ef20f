-- ===== src/PgBus/Steps.antt =====
-- Everything that can happen to the shared state (src/agents/postgres_bus.py), as a step relation: a call
-- of any instance's bus, a round of a polling thread up to its handler, the return of a handler or its
-- exception, and the end of a thread with its process.
use agenthedge.Prelude.{
  ℕ, ◌≡◌, inl, inr, refl, sym, subst, Bool, Option, List, ◌∷◌, ◌++◌, String, All, arith, Bool-cases,
}
use agenthedge.Values.{Value, Payload}
use agenthedge.Bus.{subscription_id}
use agenthedge.PgBus.Tables.{Db, set_subs, deactivated, deactivate_all}
use agenthedge.PgBus.Client.{
  PgBus, publish, publish_event, subscribe, subscribe_rows, unsubscribe, clear, close, keys,
  is_allowed, with_publisher,
}
use agenthedge.PgBus.Poller.{Working, World, poll, handled, raised}
use agenthedge.PgBus.Invariant.{
  IsClaimed, IsSound, same-IsSound, publish_event-IsSound, subscribe_rows-IsSound,
  deactivate_all-IsSound,
}
use agenthedge.PgBus.Claims.{
  All-removed, IsSoundWorld, poll-IsSoundWorld, mark_done-IsSound, mark_retry-IsSound,
}

-- the handler of a claim in flight is over, one way or another
pub record IsOver {F : Type 0} (w : World F) (j : Working F) (others : List (Working F))
    : Type 0 where
  pub earlier : List (Working F)
  pub later : List (Working F)
  pub was : w.working ≡ earlier ++ (j ∷ later)
  pub left : others ≡ earlier ++ later

module _ {F : Type 0} where
  abbrev pub with_db : World F → Db F → World F
  with_db w db = record w { db = db }

  left-IsSound :
      (working others : List (Working F)) (log : List (String × ℕ)) (db : Db F)
      → All (IsClaimed db.deliveries) others
      → IsSound working log db
      → IsSound others log db
  left-IsSound working others log db c s = record {
    numbered = s.numbered;
    keyed = s.keyed;
    claims = c;
    settled = s.settled;
    recent = s.recent;
    stored = s.stored;
    logged = s.logged;
  }

  IsOver-All :
      (P : Working F → Type 0) (w : World F) (j : Working F) (others : List (Working F))
      → IsOver w j others
      → All P w.working
      → P j × All P others
  IsOver-All P w j others o h =
      let r = All-removed P o.earlier o.later j (subst (All P) o.was h) in
      (r.0, subst (All P) (sym o.left) r.1)

module _ {F : Type 0} (fnmatch : String → String → Bool) (str_id : ℕ → String)
    (decode : Value F → Option (List String)) where
  pub data Step : World F → World F → Type 0 where
    published :
        {w : World F} (b : PgBus F) (now : ℕ) (topic : String) (payload metadata : Payload F)
        (publisher : Option String)
        → Step w (
            with_db w (publish fnmatch str_id decode now topic payload publisher metadata b w.db).2)
    subscribed :
        {w : World F} (b : PgBus F) (now : ℕ) (uuid : String) (topics : Option (List String))
        (replay_last : ℕ) (key : Option String)
        → Step w (with_db w (subscribe now uuid topics replay_last key b w.db).2)
    unsubscribed :
        {w : World F} (b : PgBus F) (sub_id : String)
        → Step w (with_db w (unsubscribe sub_id b w.db).1)
    cleared : {w : World F} (b : PgBus F) → Step w (with_db w (clear b w.db).1)
    closed : {w : World F} (b : PgBus F) → Step w (with_db w (close b w.db).1)
    polled :
        {w : World F} (free : ℕ → Bool) (now : ℕ) (sub_id : String) (b : PgBus F)
        → Step w (poll free now sub_id b w)
    handler_returned :
        {w : World F} (now : ℕ) (j : Working F) (others : List (Working F))
        → IsOver w j others
        → Step w (handled now j others w)
    handler_raised :
        {w : World F} (now retry_delay : ℕ) (error_message : String) (j : Working F)
        (others : List (Working F))
        → IsOver w j others
        → Step w (raised now retry_delay error_message j others w)
    crashed :
        {w : World F} (j : Working F) (others : List (Working F))
        → IsOver w j others
        → Step w (record w { working = others })

  pub data Reach (w : World F) : World F → Type 0 where
    here : Reach w w
    after : {v u : World F} → Reach w v → Step v u → Reach w u

  -- What a call makes of the tables is nothing, or its transaction.
  module _ (P : Db F → Type 0) where
    pub publish-rows :
        (now : ℕ) (topic : String) (payload metadata : Payload F) (publisher : Option String)
        (b : PgBus F) (db : Db F)
        → P db
        → P (publish_event decode now topic payload (with_publisher publisher metadata) db)
        → P (publish fnmatch str_id decode now topic payload publisher metadata b db).2
    unfolding publish
    publish-rows now topic payload metadata publisher b db h k = elim (Bool-cases b.closed) [
      | inl e ↦ rw e h
      | inr e ↦ elim (Bool-cases (is_allowed fnmatch topic publisher b)) [
        | inl f ↦ rw (e, f) k
        | inr f ↦ rw (e, f) h
      ]
    ]

    pub subscribe-rows :
        (now : ℕ) (uuid : String) (topics : Option (List String)) (replay_last : ℕ)
        (key : Option String) (b : PgBus F) (db : Db F)
        → P db
        → P (subscribe_rows now b.instance_id topics replay_last (subscription_id key uuid) db)
        → P (subscribe now uuid topics replay_last key b db).2
    unfolding subscribe
    subscribe-rows now uuid topics replay_last key b db h k = elim (Bool-cases b.closed) [
      | inl e ↦ rw e h
      | inr e ↦ rw e k
    ]

    pub close-rows :
        (b : PgBus F) (db : Db F)
        → P db
        → P (deactivate_all (keys b.subs) b.instance_id db)
        → P (close b db).1
    unfolding close
    close-rows b db h k = elim (Bool-cases b.closed) [ inl e ↦ rw e h | inr e ↦ rw e k ]

  pub Step-IsSoundWorld : {v u : World F} → Step v u → IsSoundWorld v → IsSoundWorld u
  unfolding unsubscribe clear handled raised
  Step-IsSoundWorld {v} (published b now topic payload metadata publisher) s =
      publish-rows (IsSound v.working v.returned) now topic payload metadata publisher b v.db s (
        publish_event-IsSound v.working v.returned decode now topic payload
          (with_publisher publisher metadata) v.db s)
  Step-IsSoundWorld {v} (subscribed b now uuid topics replay_last key) s =
      subscribe-rows (IsSound v.working v.returned) now uuid topics replay_last key b v.db s (
        subscribe_rows-IsSound v.working v.returned now b.instance_id topics replay_last
          (subscription_id key uuid) v.db s)
  Step-IsSoundWorld {v} (unsubscribed b sub_id) s =
      same-IsSound v.working v.returned v.db (set_subs (deactivated sub_id b.instance_id) v.db) refl
        refl (omega arith) s.stored s
  Step-IsSoundWorld {v} (cleared b) s =
      deactivate_all-IsSound v.working v.returned (keys b.subs) b.instance_id v.db s
  Step-IsSoundWorld {v} (closed b) s =
      close-rows (IsSound v.working v.returned) b v.db s
        (deactivate_all-IsSound v.working v.returned (keys b.subs) b.instance_id v.db s)
  Step-IsSoundWorld {v} (polled free now sub_id b) s = poll-IsSoundWorld free now sub_id b v s
  Step-IsSoundWorld {v} (handler_returned now j others o) s =
      let r = IsOver-All (IsClaimed v.db.deliveries) v j others o s.claims in
      mark_done-IsSound v.returned others v.db now j.instance_id j.sub_id j.claim.delivery_id
        j.claim.event.event_id r.0 (left-IsSound v.working others v.returned v.db r.1 s)
  Step-IsSoundWorld {v} (handler_raised now retry_delay error_message j others o) s =
      let r = IsOver-All (IsClaimed v.db.deliveries) v j others o s.claims in
      mark_retry-IsSound v.returned others v.db now retry_delay j.instance_id error_message
        j.claim.delivery_id (left-IsSound v.working others v.returned v.db r.1 s)
  Step-IsSoundWorld {v} (crashed j others o) s =
      left-IsSound v.working others v.returned v.db
        (IsOver-All (IsClaimed v.db.deliveries) v j others o s.claims).1 s

  pub Reach-IsSoundWorld : {w v : World F} → Reach w v → IsSoundWorld w → IsSoundWorld v
  Reach-IsSoundWorld here s = s
  Reach-IsSoundWorld (after r t) s = Step-IsSoundWorld t (Reach-IsSoundWorld r s)
