-- ===== src/Bus.antt =====
-- `MessageBus` (src/agents/messaging.py). Worker objects live in a heap, since a retired worker goes
-- on running after the bus has forgotten it: `subs` and `workers` hold positions in the heap.
-- The clock, fresh identifiers and `fnmatch.fnmatch` are arguments.
mod Heap
pub mod Links
pub mod Invariant
pub mod Delivery
pub mod Silence
pub mod Access
mod Tests
unfoldable pub use Heap.{at, alter, allocate}
use agenthedge.Prelude.{
  ℕ, suc, ◌+◌, ◌-◌, Bool, true, false, not, ◌&&◌, ◌||◌, Option, none, some, List, [], ◌∷◌, ◌++◌,
  String, Dict, get, put, pop, values, length, drop, last_n, map, keep_if, is_some, if◌then◌else◌,
  ltb, leb, eqb, ◌==◌, Result, ok, err,
}
use agenthedge.Values.{Value, text, null, Payload}
use agenthedge.Message.{Message, Envelope, contains}
use agenthedge.Worker.{
  Worker, new_worker, matches, deactivate, enqueue, stop, pending, take, finish,
}

pub data BusError : Type 0 where
  bus_closed not_allowed negative_timeout : BusError

abbrev pub Acl : Type 0
Acl = List (String × List String)

pub record Bus (F : Type 0) : Type 0 where
  pub subs : Dict ℕ
  pub workers : Dict ℕ
  pub heap : List (Worker F)
  pub history : List (Envelope F)
  pub max_history : ℕ
  pub publish_acl : Acl
  pub enforce_acl : Bool
  pub closed : Bool

-- the loop over the rules: the first pattern that matches the topic decides
unfoldable pub first_rule : (String → String → Bool) → String → String → Acl → Bool
first_rule fnmatch topic publisher [] = false
first_rule fnmatch topic publisher ((pattern_text, allowed) ∷ rules) =
    if fnmatch topic pattern_text
    then contains allowed publisher
    else first_rule fnmatch topic publisher rules

abbrev pub allowed_for : (String → String → Bool) → String → Option String → Acl → Bool
allowed_for fnmatch topic none rules = false
allowed_for fnmatch topic (some p) rules =
    if p == "" then false else first_rule fnmatch topic p rules

abbrev pub no_rules : Acl → Bool
no_rules [] = true
no_rules (r ∷ rules) = false

abbrev pub subscription_id : Option String → String → String
subscription_id none uuid = uuid
subscription_id (some k) uuid = if k == "" then uuid else k

abbrev pub non_blank : String → Bool
non_blank p = not (p == "")

module _ {F : Type 0} where
  unfoldable pub new_bus : ℕ → Bus F
  new_bus max_history = record {
    subs = [];
    workers = [];
    heap = [];
    history = [];
    max_history = max_history;
    publish_acl = [];
    enforce_acl = false;
    closed = false;
  }

  -- `deque(maxlen=n).append`
  unfoldable pub append_bounded : ℕ → List (Envelope F) → Envelope F → List (Envelope F)
  append_bounded n xs x = last_n n (xs ++ (x ∷ []))

  -- `_is_allowed`
  unfoldable pub is_allowed : (String → String → Bool) → String → Option String → Bus F → Bool
  is_allowed fnmatch topic publisher b =
      if not b.enforce_acl || no_rules b.publish_acl
      then true
      else allowed_for fnmatch topic publisher b.publish_acl

  -- the sub ids whose subscription matches and that have a worker, as the workers' positions
  unfoldable pub target : String → Dict ℕ → List (Worker F) → String × ℕ → List ℕ
  target topic workers heap (sub_id, obj) = elim (at obj heap) [
    | none ↦ []
    | some w ↦
        if matches w topic then elim (get sub_id workers) [ none ↦ [] | some v ↦ v ∷ [] ] else []
  ]

  unfoldable pub targets : String → Dict ℕ → List (Worker F) → Dict ℕ → List ℕ
  unfolding target
  targets topic workers heap [] = []
  targets topic workers heap (s ∷ subs) =
      target topic workers heap s ++ targets topic workers heap subs

  -- `for worker in workers: worker.enqueue(envelope)`
  unfoldable pub enqueue_all : Envelope F → List ℕ → List (Worker F) → List (Worker F)
  enqueue_all e [] heap = heap
  enqueue_all e (v ∷ vs) heap = enqueue_all e vs (alter v (enqueue e) heap)

  abbrev pub publisher_value : Option String → Value F
  publisher_value none = null
  publisher_value (some p) = text p

  -- the envelope that `publish` makes; `payload or {}` is the payload itself, as a dict
  unfoldable pub envelope : ℕ → String → String → Payload F → Option String → Payload F → Envelope F
  envelope now uuid topic payload publisher metadata = record {
    id = uuid;
    message = record {
      topic = topic;
      payload = payload;
      created_at = now;
      metadata = put "publisher" (publisher_value publisher) metadata;
    };
  }

  unfoldable pub post : Envelope F → Bus F → Bus F
  unfolding append_bounded
  post e b = record b {
    history = append_bounded b.max_history b.history e;
    heap = enqueue_all e (targets e.message.topic b.workers b.heap b.subs) b.heap;
  }

  unfoldable pub publish :
      (String → String → Bool)
      → ℕ
      → String
      → String
      → Payload F
      → Option String
      → Payload F
      → Bus F
      → Result BusError (Envelope F) × Bus F
  publish fnmatch now uuid topic payload publisher metadata b =
      let e = envelope now uuid topic payload publisher metadata in
      if b.closed
      then (err bus_closed, b)
      else if not (is_allowed fnmatch topic publisher b)
      then (err not_allowed, b)
      else (ok e, post e b)

  abbrev pub alter_at : Option ℕ → (Worker F → Worker F) → List (Worker F) → List (Worker F)
  alter_at none f heap = heap
  alter_at (some v) f heap = alter v f heap

  -- both dicts lose the key; the subscription turns inactive and the worker is told to stop
  unfoldable pub retire : String → Bus F → Bus F
  retire k b = record b {
    subs = pop k b.subs;
    workers = pop k b.workers;
    heap = alter_at (get k b.workers) stop (alter_at (get k b.subs) deactivate b.heap);
  }

  -- `for envelope in ...: if subscription.matches(topic): worker.enqueue(envelope)`
  unfoldable pub replay : List (Envelope F) → Worker F → Worker F
  replay [] w = w
  replay (e ∷ es) w = replay es (if matches w e.message.topic then enqueue e w else w)

  unfoldable pub install : String → Option (List String) → ℕ → Bus F → Bus F
  install k topics replay_last b =
      let w = new_worker k topics in
      let w' = if ltb 0 replay_last then replay (last_n replay_last b.history) w else w in
      record b {
        subs = put k (length b.heap) b.subs;
        workers = put k (length b.heap) b.workers;
        heap = allocate w' b.heap;
      }

  -- the position of the new subscription's object is what the caller gets
  unfoldable pub subscribe :
      String → Option (List String) → ℕ → Option String → Bus F → Result BusError ℕ × Bus F
  unfolding retire install
  subscribe uuid topics replay_last key b =
      let k = subscription_id key uuid in
      if b.closed
      then (err bus_closed, b)
      else (ok (length b.heap), install k topics replay_last (retire k b))

  unfoldable pub unsubscribe : String → Bus F → Bus F
  unfolding retire
  unsubscribe k b = retire k b

  unfoldable pub alter_all : (Worker F → Worker F) → Dict ℕ → List (Worker F) → List (Worker F)
  alter_all f [] heap = heap
  alter_all f ((k, v) ∷ d) heap = alter_all f d (alter v f heap)

  -- what `clear` and `close` share
  unfoldable pub retire_all : Bus F → Bus F
  retire_all b = record b {
    subs = [];
    workers = [];
    heap = alter_all stop b.workers (alter_all deactivate b.subs b.heap);
  }

  unfoldable pub clear : Bus F → Bus F
  unfolding retire_all
  clear b = record (retire_all b) { history = [] }

  unfoldable pub close : Bus F → Bus F
  unfolding retire_all
  close b = if b.closed then b else record (retire_all b) { closed = true }

  unfoldable pub configure_acl : Acl → Bool → Bus F → Bus F
  configure_acl rules enforce b = record b {
    publish_acl = map (λ r. (r.0, keep_if non_blank r.1)) rules;
    enforce_acl = enforce;
  }

  -- `list(self._history)[-limit:]`, which is the whole list at 0
  unfoldable pub history_of : ℕ → Bus F → List (Envelope F)
  history_of limit b = if eqb limit 0 then b.history else last_n limit b.history

  unfoldable pub depth : Bus F → ℕ
  depth b = length b.history

  unfoldable pub high_watermark : Bus F → ℕ
  high_watermark b = length b.history

  -- the sum of `worker.pending()` over the workers
  unfoldable pub total_pending : Dict ℕ → List (Worker F) → ℕ
  total_pending [] heap = 0
  total_pending ((k, v) ∷ d) heap =
      (elim (at v heap) [ none ↦ 0 | some w ↦ pending w ]) + total_pending d heap

  -- `drain`: each entry is the bus and the clock as one round of the loop finds them
  unfoldable pub drain : ℕ → List (Bus F × ℕ) → Option Bool
  drain deadline [] = none
  drain deadline ((b, now) ∷ rounds) =
      let later = drain deadline rounds in
      if eqb (total_pending b.workers b.heap) 0
      then some true
      else if leb deadline now
      then some false
      else later

  unfoldable pub wait_until_caught_up : ℕ → ℕ → Bus F → List (Bus F × ℕ) → Option Bool
  unfolding high_watermark drain
  wait_until_caught_up target_event_id deadline b rounds =
      if ltb (high_watermark b) target_event_id then some false else drain deadline rounds

  -- a turn of one worker's thread, up to its handler and after it
  unfoldable pub worker_take : ℕ → Bus F → Bus F
  worker_take v b = record b { heap = alter v take b.heap }

  unfoldable pub worker_finish : ℕ → Bus F → Bus F
  worker_finish v b = record b { heap = alter v finish b.heap }
