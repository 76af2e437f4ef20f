-- ===== src/Worker/Fifo.antt =====
-- The worker's queue: its task count, and the order in which the handler sees envelopes.
use agenthedge.Prelude.{
  ℕ, zero, suc, ◌≤◌, ap, sym, ◌∙◌, subst, ◌+◌, ◌-◌, ◌≡◌, refl, Bool, true, false, Option, none,
  some, List, [], ◌∷◌, ◌++◌, arith, length, length-append, String, ◌⊎◌,
}
use mathlib.Core.List.{append_assoc, append-nil}
use agenthedge.Message.{Envelope}
use agenthedge.Worker.{
  Item, deliver, stop_token, Worker, new_worker, deactivate, enqueue, stop, take, finish, dequeue,
  dispatch, pending,
}

module _ {F : Type 0} where
  abbrev pub busy : Option (Envelope F) → ℕ
  busy none = 0
  busy (some _) = 1

  -- the envelopes of a queue, up to the stop token
  abbrev pub queued : List (Item F) → List (Envelope F)
  queued [] = []
  queued (stop_token ∷ q) = []
  queued (deliver e ∷ q) = e ∷ queued q

  abbrev pub has_stop : List (Item F) → Bool
  has_stop [] = false
  has_stop (stop_token ∷ q) = true
  has_stop (deliver e ∷ q) = has_stop q

  -- Every task is counted, and only a closed worker holds a stop token or has ended.
  pub record IsCounted (w : Worker F) : Type 0 where
    pub counted : w.unfinished ≡ length w.queue + busy w.handling
    pub open_queue : (w.closed ≡ true) ⊎ (has_stop w.queue ≡ false)
    pub open_alive : (w.closed ≡ true) ⊎ (w.ended ≡ false)

  pub new_worker-IsCounted :
      (k : String) (ts : Option (List String)) → IsCounted (new_worker {F = F} k ts)
  unfolding new_worker
  new_worker-IsCounted k ts = ground arith

  pub deactivate-IsCounted : (w : Worker F) → IsCounted w → IsCounted (deactivate w)
  unfolding deactivate
  deactivate-IsCounted w h = ground arith

  has_stop-snoc :
      (e : Envelope F) (q : List (Item F)) → has_stop (q ++ (deliver e ∷ [])) ≡ has_stop q
  has_stop-snoc e [] = refl
  has_stop-snoc e (stop_token ∷ q) = refl
  has_stop-snoc e (deliver d ∷ q) = has_stop-snoc e q

  queued-snoc :
      (e : Envelope F) (q : List (Item F))
      → has_stop q ≡ false
      → queued (q ++ (deliver e ∷ [])) ≡ queued q ++ (e ∷ [])
  queued-snoc e [] h = refl
  queued-snoc e (stop_token ∷ q) h = cc
  queued-snoc e (deliver d ∷ q) h = rw (queued-snoc e q h)

  pub enqueue-IsCounted : (e : Envelope F) (w : Worker F) → IsCounted w → IsCounted (enqueue e w)
  unfolding enqueue
  enqueue-IsCounted e w h =
      ground (arith, length-append w.queue (deliver e ∷ []), has_stop-snoc e w.queue)

  pub stop-IsCounted : (w : Worker F) → IsCounted w → IsCounted (stop w)
  unfolding stop
  stop-IsCounted w h = ground (arith, length-append w.queue (stop_token ∷ []))

  pub finish-IsCounted : (w : Worker F) → IsCounted w → IsCounted (finish w)
  unfolding finish
  finish-IsCounted w h = ground arith

  pub take-IsCounted : (w : Worker F) → IsCounted w → IsCounted (take w)
  unfolding take
  take-IsCounted w h = ground arith

  -- What the handler has seen and what is still queued, in order.
  abbrev pub seen : Worker F → List (Envelope F)
  seen w = w.handled ++ queued w.queue

  head_to_tail :
      (xs : List (Envelope F)) (e : Envelope F) (ys : List (Envelope F))
      → (xs ++ (e ∷ [])) ++ ys ≡ xs ++ (e ∷ ys)
  head_to_tail xs e ys = append_assoc xs (e ∷ []) ys

  seen-dequeue :
      (q : List (Item F)) (w : Worker F)
      → w.active ≡ true
      → w.queue ≡ q
      → (dequeue q w).ended ≡ false
      → seen (dequeue q w) ≡ seen w
  unfolding dispatch
  seen-dequeue [] w a e alive = refl
  seen-dequeue (stop_token ∷ q) w a e alive = cc
  seen-dequeue (deliver d ∷ q) w a e alive =
      ground (arith, head_to_tail w.handled d (queued q), ap queued e)

  -- One turn of the thread's loop, and `n` of them.
  unfoldable pub turns : ℕ → Worker F → Worker F
  turns zero w = w
  turns (suc n) w = turns n (finish (take w))

  turn_queue :
      (e : Envelope F) (q : List (Item F)) (w : Worker F)
      → w.queue ≡ deliver e ∷ q
      → w.active ≡ true
      → w.handling ≡ none
      → w.ended ≡ false
      → let w' = finish (take w) in
        (w'.queue ≡ q)
        × (w'.active ≡ true)
        × (w'.handling ≡ none)
        × (w'.ended ≡ false)
        × (w'.handled ≡ w.handled ++ (e ∷ []))
        × (w'.unfinished ≡ w.unfinished - 1)
  unfolding take finish
  turn_queue e q w wq a idle alive = ground arith

  idle_turn :
      (w : Worker F) → w.queue ≡ [] → w.handling ≡ none → w.ended ≡ false → finish (take w) ≡ w
  unfolding take finish
  idle_turn w wq idle alive = ground arith

  -- A worker that is active, idle and alive, whose queue holds no stop token and whose pending tasks are
  -- those of its queue, has handed its whole queue to the handler, in order, after at least as many turns
  -- as the queue is long; its queue is then empty and nothing is pending.
  pub turns_drain :
      (q : List (Item F)) (n : ℕ) (w : Worker F)
      → w.queue ≡ q
      → has_stop q ≡ false
      → w.active ≡ true
      → w.handling ≡ none
      → w.ended ≡ false
      → pending w ≡ length q
      → length q ≤ n
      → ((turns n w).handled ≡ w.handled ++ queued q)
        × ((turns n w).queue ≡ [])
        × (pending (turns n w) ≡ 0)
  unfolding turns pending
  turns_drain [] zero w wq s a idle alive count len = (sym (append-nil w.handled), wq, count)
  turns_drain (i ∷ q) zero w wq s a idle alive count len = absurd (omega arith)
  turns_drain [] (suc n) w wq s a idle alive count len =
      subst
        (λ v.
          ((turns n v).handled ≡ w.handled ++ [])
          × ((turns n v).queue ≡ [])
          × ((turns n v).unfinished ≡ 0))
        (sym (idle_turn w wq idle alive)) (turns_drain [] n w wq s a idle alive count (omega arith))
  turns_drain (stop_token ∷ q) (suc n) w wq s a idle alive count len = cc
  turns_drain (deliver e ∷ q) (suc n) w wq s a idle alive count len =
      let turn = turn_queue e q w wq a idle alive in
      let w' = finish (take w) in
      let (order, empty, none_left) =
        turns_drain q n w' turn.0 s turn.1 turn.2 turn.3 (ground arith) (omega arith) in
      (
        order ∙ ap (λ xs. xs ++ queued q) turn.4 ∙ head_to_tail w.handled e (queued q),
        empty,
        none_left,
      )
