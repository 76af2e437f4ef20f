-- ===== src/PgBus/Tests.antt =====
-- One event from its publication to its handler, with the bus's theorems at it.
use agenthedge.Prelude.{
  ℕ, ◌≡◌, refl, inl, Bool, true, false, Option, none, some, List, [], ◌∷◌, String, arith, ◌==◌, get,
  put,
}
use agenthedge.Values.{Value, array}
use agenthedge.Message.{topic_matches}
use agenthedge.Bus.{append_bounded}
use agenthedge.PgBus.Tables.{
  Db, SubRow, EventRow, Delivery, decode_topics, insert_event, insert_pending, deliver_to, texts,
  item_texts, find_sub, find_event, new_delivery,
}
use agenthedge.PgBus.Client.{PgBus, publish, publish_event, subscribe, is_allowed}
use agenthedge.PgBus.Poller.{
  World, Working, poll, handled, claim_next, is_claimable, first_by_event, claimed, finished,
  mark_done, advanced,
}
use agenthedge.PgBus.Progress.{subscriptions_caught_up, caught_up_checkpoint, min_event, max_event}
use agenthedge.PgBus.Invariant.{has_returned}
use agenthedge.PgBus.Claims.{IsSoundWorld}
use agenthedge.PgBus.Steps.{
  Reach, here, after, published, polled, handler_returned, with_db, Reach-IsSoundWorld,
}
use agenthedge.PgBus.Kept.{HasRow}
use agenthedge.PgBus.AtLeastOnce.{publish-has_returned}
use agenthedge.PgBus.Checkpoint.{caught_up_checkpoint-has_returned}
use agenthedge.PgBus.Backlog.{subscribe-HasRow}
use agenthedge.PgBus.Order.{IsDue, claim_next-event_order}

abbrev exact_match : String → String → Bool
exact_match topic pattern_text = topic == pattern_text

abbrev str_id : ℕ → String
str_id n = "1"

abbrev str : Value ℕ → String
str v = ""

abbrev loads : String → Option (Value ℕ)
loads s = none

abbrev decode : Value ℕ → Option (List String)
decode v = decode_topics str loads v

abbrev risk_row : SubRow ℕ
risk_row = record {
  subscription_id = "risk";
  instance_id = "a";
  topics_json = array (texts ("proposal" ∷ []));
  active = true;
  cursor_event_id = 0;
}

abbrev bus_a : PgBus ℕ
bus_a = record {
  instance_id = "a";
  subs = ("risk", some ("proposal" ∷ [])) ∷ [];
  history = [];
  max_history = 10;
  publish_acl = [];
  enforce_acl = false;
  closed = false;
  retry_delay = 1;
}

abbrev quiet : World ℕ
quiet = record {
  db = record {
    events = [];
    next_event_id = 1;
    subs = risk_row ∷ [];
    deliveries = [];
    next_delivery_id = 1;
  };
  working = [];
  returned = [];
}

abbrev sent : World ℕ
sent = with_db quiet (publish exact_match str_id decode 5 "proposal" [] none [] bus_a quiet.db).2

abbrev any_free : ℕ → Bool
any_free n = true

abbrev busy : World ℕ
busy = poll any_free 6 "risk" bus_a sent

abbrev job : Working ℕ
job = record {
  instance_id = "a";
  sub_id = "risk";
  claim = record {
    delivery_id = 1;
    event = record {
      event_id = 1;
      topic = "proposal";
      payload_json = [];
      metadata_json = ("publisher", Value.null) ∷ [];
      created_at = 5;
    };
  };
}

abbrev served : World ℕ
served = handled 7 job [] busy

quiet-IsSoundWorld : IsSoundWorld quiet
quiet-IsSoundWorld = record {
  numbered = omega arith;
  keyed = record { below = tt; own = tt };
  claims = tt;
  settled = tt;
  recent = tt;
  stored = tt;
  logged = tt;
}

sent-Reach : Reach exact_match str_id decode quiet sent
sent-Reach = after here (published bus_a 5 "proposal" [] [] none)

served-Reach : Reach exact_match str_id decode sent served
unfolding publish is_allowed append_bounded publish_event insert_event deliver_to insert_pending
    decode_topics item_texts topic_matches poll claim_next is_claimable first_by_event claimed
    find_sub find_event get put
served-Reach =
    after (after here (polled any_free 6 "risk" bus_a))
      (handler_returned 7 job [] (record { earlier = []; later = []; was = refl; left = refl }))

publish-has_returned_example :
    (has_returned "risk" 1 quiet.returned ≡ false) × (has_returned "risk" 1 served.returned ≡ true)
unfolding publish is_allowed append_bounded publish_event insert_event deliver_to insert_pending
    decode_topics item_texts topic_matches poll claim_next is_claimable first_by_event claimed
    find_sub find_event get put handled mark_done finished advanced subscriptions_caught_up
publish-has_returned_example =
    publish-has_returned exact_match str_id decode bus_a 5 "proposal" [] [] none risk_row quiet
      served "a" 1 none quiet-IsSoundWorld refl refl (inl refl) refl served-Reach refl refl
      (omega arith) refl

caught_up_checkpoint-has_returned_example : has_returned "risk" 1 served.returned ≡ true
unfolding publish is_allowed append_bounded publish_event insert_event deliver_to insert_pending
    decode_topics item_texts topic_matches poll claim_next is_claimable first_by_event claimed
    find_sub find_event get put handled mark_done finished advanced caught_up_checkpoint min_event
    max_event
caught_up_checkpoint-has_returned_example =
    caught_up_checkpoint-has_returned "a" "risk" 1 served
      (Reach-IsSoundWorld exact_match str_id decode served-Reach
        (Reach-IsSoundWorld exact_match str_id decode sent-Reach quiet-IsSoundWorld))
      refl refl (omega arith) (omega arith)

abbrev waiting : Delivery
waiting = new_delivery 5 1 "risk" 1

claim_next-event_order_example :
    IsDue any_free 6 "risk" "a" sent.db 1 (claim_next any_free 6 "risk" "a" sent.db).0
unfolding publish is_allowed append_bounded publish_event insert_event deliver_to insert_pending
    decode_topics item_texts topic_matches is_claimable find_sub find_event
claim_next-event_order_example =
    claim_next-event_order any_free 6 "risk" "a" sent.db waiting (inl refl) refl

abbrev first_event : EventRow ℕ
first_event = record {
  event_id = 1;
  topic = "proposal";
  payload_json = [];
  metadata_json = [];
  created_at = 5;
}

abbrev stored : Db ℕ
stored = record {
  events = first_event ∷ [];
  next_event_id = 2;
  subs = risk_row ∷ [];
  deliveries = [];
  next_delivery_id = 1;
}

subscribe-HasRow_example :
    HasRow "risk" 1 (subscribe 6 "u1" (some ("proposal" ∷ [])) 0 (some "risk") bus_a stored).2
unfolding find_sub topic_matches
subscribe-HasRow_example =
    subscribe-HasRow 6 "u1" (some ("proposal" ∷ [])) 0 (some "risk") bus_a stored risk_row
      first_event refl refl (inl refl) refl refl
