-- ===== src/Worker.antt =====
-- `Subscription` with its `_SubscriptionWorker` (src/agents/messaging.py): one object, since each
-- subscription has one worker. The thread's loop is `take`, up to the handler, and `finish`, after it.
pub mod Fifo
use agenthedge.Prelude.{
  ℕ, suc, ◌+◌, ◌-◌, Bool, true, false, ◌&&◌, Option, none, some, List, [], ◌∷◌, ◌++◌, String,
  if◌then◌else◌,
}
use agenthedge.Message.{Envelope, topic_matches}

-- an item of the queue: an envelope or the stop token
pub data Item (F : Type 0) : Type 0 where
  deliver : Envelope F → Item F
  stop_token : Item F

pub record Worker (F : Type 0) : Type 0 where
  pub sub_id : String
  pub topics : Option (List String)
  pub active : Bool
  pub closed : Bool
  pub queue : List (Item F)
  -- `Queue.unfinished_tasks`
  pub unfinished : ℕ
  -- the envelope that the handler is working on
  pub handling : Option (Envelope F)
  -- the thread has returned
  pub ended : Bool
  -- what the handler has been called with, oldest first
  pub handled : List (Envelope F)

module _ {F : Type 0} where
  unfoldable pub new_worker : String → Option (List String) → Worker F
  new_worker sub_id topics = record {
    sub_id = sub_id;
    topics = topics;
    active = true;
    closed = false;
    queue = [];
    unfinished = 0;
    handling = none;
    ended = false;
    handled = [];
  }

  -- `Subscription.matches`
  unfoldable pub matches : Worker F → String → Bool
  unfolding topic_matches
  matches w topic = w.active && topic_matches w.topics topic

  -- `subscription.active = False`
  unfoldable pub deactivate : Worker F → Worker F
  deactivate w = record w { active = false }

  unfoldable pub enqueue : Envelope F → Worker F → Worker F
  enqueue e w =
      if w.closed
      then w
      else record w { queue = w.queue ++ (deliver e ∷ []); unfinished = w.unfinished + 1 }

  unfoldable pub stop : Worker F → Worker F
  stop w = if w.closed then w else record w {
    closed = true;
    queue = w.queue ++ (stop_token ∷ []);
    unfinished = w.unfinished + 1;
  }

  unfoldable pub pending : Worker F → ℕ
  pending w = w.unfinished

  -- what `_run` does with an item that it got, given the queue without it
  unfoldable pub dispatch : Item F → Worker F → Worker F
  dispatch stop_token w = record w { ended = true; unfinished = w.unfinished - 1 }
  dispatch (deliver e) w =
      if w.active
      then record w { handling = some e; handled = w.handled ++ (e ∷ []) }
      else record w { unfinished = w.unfinished - 1 }

  abbrev dequeue : List (Item F) → Worker F → Worker F
  dequeue [] w = w
  dequeue (i ∷ q) w = dispatch i (record w { queue = q })

  abbrev resume : Option (Envelope F) → Worker F → Worker F
  resume (some e) w = w
  resume none w = if w.ended then w else dequeue w.queue w

  -- `_run` up to the handler: it waits while the queue is empty, and is busy while it handles
  unfoldable pub take : Worker F → Worker F
  unfolding dispatch
  take w = resume w.handling w

  abbrev settle : Option (Envelope F) → Worker F → Worker F
  settle none w = w
  settle (some e) w = record w { handling = none; unfinished = w.unfinished - 1 }

  -- the handler has returned or raised, which is logged: `task_done`
  unfoldable pub finish : Worker F → Worker F
  finish w = settle w.handling w
