-- ===== src/Bus/Tests.antt =====
-- The bus on a small scenario, and the theorems at it.
use agenthedge.Prelude.{
  ℕ, ◌≡◌, ◌≢◌, ◌↔◌, ◌+◌, ◌&&◌, not, refl, Bool, true, none, some, [], ◌∷◌, ◌++◌, String, get, put,
  pop, if◌then◌else◌, arith, ok, ◌==◌,
}
use agenthedge.Values.{null}
use agenthedge.Message.{Envelope, topic_matches}
use agenthedge.Worker.{Worker, deliver, new_worker, matches, enqueue, pending}
use agenthedge.Worker.Fifo.{queued, turns, turns_drain}
use agenthedge.Bus.Heap.{at, alter, allocate}
use agenthedge.Bus.{
  Bus, new_bus, publish, post, envelope, enqueue_all, targets, subscribe, unsubscribe,
  configure_acl, worker_take, is_allowed,
}
use agenthedge.Bus.Links.{IsSound}
use agenthedge.Bus.Invariant.{Reach, here, next, published, subscribed, taken, Reach-IsSound}
use agenthedge.Bus.Delivery.{post-delivers}
use agenthedge.Bus.Silence.{Silent, unsubscribe-silences}
use agenthedge.Bus.Access.{FirstRuleAllows, publish-ok_iff_allowed}

abbrev exact_match : String → String → Bool
exact_match topic pattern_text = topic == pattern_text

abbrev fill : Envelope ℕ
fill = record {
  id = "e1";
  message = record {
    topic = "execution.fill";
    payload = [];
    created_at = 5;
    metadata = ("publisher", null) ∷ [];
  };
}

abbrev started : Bus ℕ
started = (subscribe "u1" (some ("execution.fill" ∷ [])) 0 (some "quant") (new_bus 2)).1

abbrev sent : Bus ℕ
sent = (publish exact_match 5 "e1" "execution.fill" [] none [] started).1

started-Reach : Reach exact_match (new_bus 2) started
started-Reach =
    next here (subscribed (new_bus 2) "u1" (some ("execution.fill" ∷ [])) 0 (some "quant"))

sent-Reach : Reach exact_match (new_bus 2) sent
sent-Reach = next started-Reach (published started 5 "e1" "execution.fill" [] none [])

Reach-IsSound_example : IsSound sent
Reach-IsSound_example = Reach-IsSound exact_match 2 sent-Reach

abbrev listener : Worker ℕ
listener = new_worker "quant" (some ("execution.fill" ∷ []))

post-delivers_example :
    at 0 (post fill started).heap
    ≡ some (
        if matches listener fill.message.topic && not listener.closed
        then record listener {
          queue = listener.queue ++ (deliver fill ∷ []);
          unfinished = listener.unfinished + 1;
        }
        else listener)
unfolding subscribe new_bus allocate at get put pop
post-delivers_example =
    post-delivers fill started "quant" 0 listener (Reach-IsSound exact_match 2 started-Reach) refl
      refl

-- The subscription is cancelled while the envelope is queued, and its thread goes on.
abbrev gone : Bus ℕ
gone = worker_take 0 (unsubscribe "quant" sent)

abbrev busy_listener : Worker ℕ
busy_listener = enqueue fill listener

unsubscribe-silences_example : Silent 0 busy_listener.handled gone.heap
unfolding subscribe publish is_allowed new_bus post targets envelope enqueue_all at alter allocate
    matches topic_matches enqueue new_worker get put pop
unsubscribe-silences_example =
    unsubscribe-silences exact_match "quant" 0 busy_listener sent
      (Reach-IsSound exact_match 2 sent-Reach) refl refl
      (next here (taken (unsubscribe "quant" sent) 0))

turns_drain_example :
    ((turns 2 busy_listener).handled ≡ busy_listener.handled ++ queued (deliver fill ∷ []))
    × ((turns 2 busy_listener).queue ≡ [])
    × (pending (turns 2 busy_listener) ≡ 0)
unfolding enqueue new_worker pending
turns_drain_example =
    turns_drain (deliver fill ∷ []) 2 busy_listener refl refl refl refl refl refl (omega arith)

abbrev guarded : Bus ℕ
guarded = configure_acl (("execution.fill", "execution" ∷ "" ∷ []) ∷ []) true (new_bus 2)

publish-ok_iff_allowed_example :
    ((publish exact_match 5 "e1" "execution.fill" [] (some "execution") [] guarded).0
      ≡ ok (envelope 5 "e1" "execution.fill" [] (some "execution") []))
    ↔ ((p : String) × (some "execution" ≡ some p)
        × (p ≢ "")
        × FirstRuleAllows exact_match "execution.fill" p guarded.publish_acl)
unfolding configure_acl new_bus
publish-ok_iff_allowed_example =
    publish-ok_iff_allowed exact_match 5 "e1" "execution.fill" (some "execution") [] [] guarded refl
      refl (λ e. cc)
