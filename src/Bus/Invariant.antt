-- ===== src/Bus/Invariant.antt =====
-- What every operation of the bus keeps, whatever the handlers and the other threads do.
use agenthedge.Prelude.{
  ℕ, ◌≡◌, inl, inr, refl, ap, ◌∙◌, Bool, true, false, Option, List, [], ◌∷◌, String, Dict, put,
  length, All, ltb, Bool-cases, if_both, arith, put-IsDict, All-put, All-map, last_n,
}
use agenthedge.Values.{Payload}
use agenthedge.Message.{Envelope}
use agenthedge.Worker.{Worker, new_worker, matches, deactivate, enqueue, stop, take, finish}
use agenthedge.Worker.Fifo.{
  IsCounted, new_worker-IsCounted, deactivate-IsCounted, enqueue-IsCounted, stop-IsCounted,
  take-IsCounted, finish-IsCounted,
}
use agenthedge.Bus.Heap.{alter, allocate, All-alter, All-allocate, at-allocate_new, at-allocate_old}
use agenthedge.Bus.{
  Bus, Acl, publish, envelope, subscribe, retire, install, replay, subscription_id, unsubscribe,
  retire_all, alter_all, clear, close, configure_acl, worker_take, worker_finish, new_bus,
}
use agenthedge.Bus.Links.{
  Linked, IsSound, alter-IsSound, enqueue-KeepsLinks, take-KeepsLinks, finish-KeepsLinks,
  post-IsSound, retire-IsSound,
}

module _ {F : Type 0} where
  replay-IsCounted : (es : List (Envelope F)) (w : Worker F) → IsCounted w → IsCounted (replay es w)
  unfolding replay
  replay-IsCounted [] w h = h
  replay-IsCounted (e ∷ es) w h = elim (Bool-cases (matches w e.message.topic)) [
    | inl y ↦ rw y (replay-IsCounted es (enqueue e w) (enqueue-IsCounted e w h))
    | inr n ↦ rw n (replay-IsCounted es w h)
  ]

  replay_fields :
      (es : List (Envelope F)) (w : Worker F)
      → w.closed ≡ false
      → ((replay es w).sub_id ≡ w.sub_id)
        × ((replay es w).active ≡ w.active)
        × ((replay es w).closed ≡ w.closed)
  unfolding replay
  replay_fields [] w o = (refl, refl, refl)
  replay_fields (e ∷ es) w o = elim (Bool-cases (matches w e.message.topic)) [
    | inl y ↦
        let k = enqueue-KeepsLinks e in
        let (a, b, c) = replay_fields es (enqueue e w) (k.keeps_running w ∙ o) in
        rw (y, replay) (a ∙ k.keeps_name w, b ∙ k.keeps_live w, c ∙ k.keeps_running w)
    | inr n ↦ rw (n, replay) (replay_fields es w o)
  ]

  Linked-allocate :
      (w : Worker F) (heap : List (Worker F)) (s : String × ℕ)
      → Linked heap s.0 s.1
      → Linked (allocate w heap) s.0 s.1
  Linked-allocate w heap (k, v) l = record {
    object = l.object;
    found = at-allocate_old v w l.object heap l.found;
    named = l.named;
    live = l.live;
    running = l.running;
  }

  -- A fresh object under its key.
  place-IsSound :
      (k : String) (w : Worker F) (b : Bus F)
      → w.sub_id ≡ k
      → w.active ≡ true
      → w.closed ≡ false
      → IsCounted w
      → IsSound b
      → IsSound (record b {
        subs = put k (length b.heap) b.subs;
        workers = put k (length b.heap) b.workers;
        heap = allocate w b.heap;
      })
  place-IsSound k w b named live running counts h = record {
    bounded = h.bounded;
    counted = All-allocate IsCounted w b.heap counts h.counted;
    same = ap (put k (length b.heap)) h.same;
    dict = put-IsDict k (length b.heap) b.subs h.dict;
    linked =
        All-put (λ s. Linked (allocate w b.heap) s.0 s.1) k (length b.heap) b.subs
          (record {
            object = w;
            found = at-allocate_new w b.heap;
            named = named;
            live = live;
            running = running;
          })
          (All-map _ _ (Linked-allocate w b.heap) b.subs h.linked);
  }

  install-IsSound :
      (k : String) (topics : Option (List String)) (n : ℕ) (b : Bus F)
      → IsSound b
      → IsSound (install k topics n b)
  unfolding install new_worker
  install-IsSound k topics n b h =
      let w = new_worker k topics in
      let r = replay (last_n n b.history) w in
      let f = replay_fields (last_n n b.history) w refl in
      elim (Bool-cases (ltb 0 n)) [
        | inl y ↦ rw y (
            place-IsSound k r b f.0 f.1 f.2
              (replay-IsCounted (last_n n b.history) w (new_worker-IsCounted k topics)) h)
        | inr z ↦ rw z (place-IsSound k w b refl refl refl (new_worker-IsCounted k topics) h)
      ]

  alter_all-IsCounted :
      (f : Worker F → Worker F)
      → ((w : Worker F) → IsCounted w → IsCounted (f w))
      → (d : Dict ℕ) (heap : List (Worker F)) → All IsCounted heap
      → All IsCounted (alter_all f d heap)
  unfolding alter_all
  alter_all-IsCounted f keep [] heap h = h
  alter_all-IsCounted f keep ((k, v) ∷ d) heap h =
      alter_all-IsCounted f keep d (alter v f heap) (All-alter IsCounted f keep v heap h)

  retire_all-IsSound : (b : Bus F) → IsSound b → IsSound (retire_all b)
  unfolding retire_all
  retire_all-IsSound b h = record {
    bounded = h.bounded;
    counted =
        alter_all-IsCounted stop stop-IsCounted b.workers (alter_all deactivate b.subs b.heap)
          (alter_all-IsCounted deactivate deactivate-IsCounted b.subs b.heap h.counted);
    same = refl;
    dict = tt;
    linked = tt;
  }

  -- What can happen to a bus: the calls of its methods, an envelope that a publisher has still to
  -- hand to a worker, and a turn of a worker's thread.
  pub data Step (fnmatch : String → String → Bool) : Bus F → Bus F → Type 0 where
    published :
        (b : Bus F) (now : ℕ) (uuid topic : String) (payload : Payload F)
        (publisher : Option String) (metadata : Payload F)
        → Step fnmatch b (publish fnmatch now uuid topic payload publisher metadata b).1
    subscribed :
        (b : Bus F) (uuid : String) (topics : Option (List String)) (replay_last : ℕ)
        (key : Option String)
        → Step fnmatch b (subscribe uuid topics replay_last key b).1
    unsubscribed : (b : Bus F) (k : String) → Step fnmatch b (unsubscribe k b)
    cleared : (b : Bus F) → Step fnmatch b (clear b)
    closed_down : (b : Bus F) → Step fnmatch b (close b)
    configured :
        (b : Bus F) (rules : Acl) (enforce : Bool) → Step fnmatch b (configure_acl rules enforce b)
    handed :
        (b : Bus F) (e : Envelope F) (v : ℕ)
        → Step fnmatch b (record b { heap = alter v (enqueue e) b.heap })
    taken : (b : Bus F) (v : ℕ) → Step fnmatch b (worker_take v b)
    finished : (b : Bus F) (v : ℕ) → Step fnmatch b (worker_finish v b)

  pub data Reach (fnmatch : String → String → Bool) (b : Bus F) : Bus F → Type 0 where
    here : Reach fnmatch b b
    next : {c d : Bus F} → Reach fnmatch b c → Step fnmatch c d → Reach fnmatch b d

  Step-IsSound :
      (fnmatch : String → String → Bool) {b c : Bus F} → Step fnmatch b c → IsSound b → IsSound c
  unfolding publish subscribe unsubscribe clear close configure_acl worker_take worker_finish
  Step-IsSound fnmatch (published b now uuid topic payload publisher metadata) h =
      ground (arith, post-IsSound (envelope now uuid topic payload publisher metadata) b h)
  Step-IsSound fnmatch (subscribed b uuid topics n key) h =
      let k = subscription_id key uuid in
      ground (arith, install-IsSound k topics n (retire k b) (retire-IsSound k b h))
  Step-IsSound fnmatch (unsubscribed b k) h = retire-IsSound k b h
  Step-IsSound fnmatch (cleared b) h =
      let s = retire_all-IsSound b h in
      record { bounded = omega arith; counted = s.counted; same = refl; dict = tt; linked = tt }
  Step-IsSound fnmatch (closed_down b) h =
      let s = retire_all-IsSound b h in
      let s' : IsSound (record (retire_all b) { closed = true }) = record {
        bounded = s.bounded;
        counted = s.counted;
        same = refl;
        dict = tt;
        linked = tt;
      } in
      if_both IsSound b.closed h s'
  Step-IsSound fnmatch (configured b rules enforce) h = record {
    bounded = h.bounded;
    counted = h.counted;
    same = h.same;
    dict = h.dict;
    linked = h.linked;
  }
  Step-IsSound fnmatch (handed b e v) h =
      alter-IsSound (enqueue e) (enqueue-KeepsLinks e) (enqueue-IsCounted e) v b h
  Step-IsSound fnmatch (taken b v) h = alter-IsSound take take-KeepsLinks take-IsCounted v b h
  Step-IsSound fnmatch (finished b v) h =
      alter-IsSound finish finish-KeepsLinks finish-IsCounted v b h

  new_bus-IsSound : (n : ℕ) → IsSound (new_bus {F = F} n)
  unfolding new_bus
  new_bus-IsSound n = record {
    bounded = omega arith;
    counted = tt;
    same = refl;
    dict = tt;
    linked = tt;
  }

  -- From a new bus, after any calls of its methods and any turns of its threads: the history is no
  -- longer than its bound, every worker's task count is its queue plus the envelope in hand, only a
  -- worker that was told to stop holds a stop token or has ended, and each registered key names one
  -- object of its own, which is active and open.
  pub Reach-IsSound :
      (fnmatch : String → String → Bool) (n : ℕ) {b : Bus F}
      → Reach fnmatch (new_bus n) b
      → IsSound b
  Reach-IsSound fnmatch n here = new_bus-IsSound n
  Reach-IsSound fnmatch n (next r s) = Step-IsSound fnmatch s (Reach-IsSound fnmatch n r)
