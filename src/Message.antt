-- ===== src/Message.antt =====
-- `Message`, `Envelope` and the topic filter of `Subscription` (src/agents/messaging.py).
use agenthedge.Prelude.{ℕ, Bool, true, ◌||◌, Option, none, some, List, String, any, ◌==◌}
use agenthedge.Values.{Payload}

pub record Message (F : Type 0) : Type 0 where
  pub topic : String
  pub payload : Payload F
  pub created_at : ℕ
  pub metadata : Payload F

pub record Envelope (F : Type 0) : Type 0 where
  pub id : String
  pub message : Message F

-- `x in xs`
abbrev pub contains : List String → String → Bool
contains xs x = any (λ y. y == x) xs

-- `Subscription.matches` of an active subscription; `_matches` of the Postgres bus
unfoldable pub topic_matches : Option (List String) → String → Bool
topic_matches none topic = true
topic_matches (some topics) topic = contains topics "*" || contains topics topic
