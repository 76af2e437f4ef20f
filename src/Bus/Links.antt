-- ===== src/Bus/Links.antt =====
-- The bus's well-formedness, and its preservation by the changes that operations are made of.
use agenthedge.Prelude.{
  ℕ, ◌-◌, ◌≤◌, ◌≡◌, inl, inr, refl, ap, sym, ◌∙◌, subst, true, false, Option, none, some, List, [],
  ◌∷◌, ◌++◌, String, get, pop, length, length-drop, All, eqb, Bool-cases, ◌==◌, eq_iff, arith,
  IsDict, pop-IsDict, All-pop, All-get, All-map,
}
use agenthedge.Message.{Envelope}
use agenthedge.Worker.{Worker, deactivate, enqueue, stop, take, finish}
use agenthedge.Worker.Fifo.{IsCounted, deactivate-IsCounted, enqueue-IsCounted, stop-IsCounted}
use agenthedge.Bus.Heap.{at, alter, All-alter, at-alter}
use agenthedge.Bus.{Bus, post, enqueue_all, targets, append_bounded, retire, alter_at}

module _ {F : Type 0} where
  -- A registered subscription: its key names one live object, whose worker is open.
  pub record Linked (heap : List (Worker F)) (k : String) (v : ℕ) : Type 0 where
    pub object : Worker F
    pub found : at v heap ≡ some object
    pub named : object.sub_id ≡ k
    pub live : object.active ≡ true
    pub running : object.closed ≡ false

  pub record IsSound (b : Bus F) : Type 0 where
    pub bounded : length b.history ≤ b.max_history
    pub counted : All IsCounted b.heap
    pub same : b.workers ≡ b.subs
    pub dict : IsDict b.subs
    pub linked : All (λ s. Linked b.heap s.0 s.1) b.subs

  pub append_bounded-length :
      (n : ℕ) (xs : List (Envelope F)) (x : Envelope F) → length (append_bounded n xs x) ≤ n
  unfolding append_bounded
  append_bounded-length n xs x =
      omega (arith, length-drop (length (xs ++ (x ∷ [])) - n) (xs ++ (x ∷ [])))

  -- A change of an object that keeps what the links speak of.
  pub record KeepsLinks (f : Worker F → Worker F) : Type 0 where
    pub keeps_name : (w : Worker F) → (f w).sub_id ≡ w.sub_id
    pub keeps_live : (w : Worker F) → (f w).active ≡ w.active
    pub keeps_running : (w : Worker F) → (f w).closed ≡ w.closed

  pub enqueue-KeepsLinks : (e : Envelope F) → KeepsLinks (enqueue e)
  unfolding enqueue
  enqueue-KeepsLinks e = record {
    keeps_name = λ w. ground arith;
    keeps_live = λ w. ground arith;
    keeps_running = λ w. ground arith;
  }

  pub take-KeepsLinks : KeepsLinks take
  unfolding take
  take-KeepsLinks = record {
    keeps_name = λ w. ground arith;
    keeps_live = λ w. ground arith;
    keeps_running = λ w. ground arith;
  }

  pub finish-KeepsLinks : KeepsLinks finish
  unfolding finish
  finish-KeepsLinks = record {
    keeps_name = λ w. ground arith;
    keeps_live = λ w. ground arith;
    keeps_running = λ w. ground arith;
  }

  pub Linked-alter :
      (heap : List (Worker F)) (f : Worker F → Worker F)
      → KeepsLinks f
      → (i : ℕ) (s : String × ℕ) → Linked heap s.0 s.1
      → Linked (alter i f heap) s.0 s.1
  Linked-alter heap f keep i (k, v) l = elim (Bool-cases (eqb i v)) [
    | inl e ↦ record {
      object = f l.object;
      found = at-alter i v f heap ∙ (rw (e, l.found) refl);
      named = keep.keeps_name l.object ∙ l.named;
      live = keep.keeps_live l.object ∙ l.live;
      running = keep.keeps_running l.object ∙ l.running;
    }
    | inr n ↦ record {
      object = l.object;
      found = at-alter i v f heap ∙ (rw (n, l.found) refl);
      named = l.named;
      live = l.live;
      running = l.running;
    }
  ]

  pub Linked-other :
      (heap : List (Worker F)) (f : Worker F → Worker F) (i : ℕ) (s : String × ℕ)
      → eqb i s.1 ≡ false
      → Linked heap s.0 s.1
      → Linked (alter i f heap) s.0 s.1
  Linked-other heap f i (k, v) n l = record {
    object = l.object;
    found = at-alter i v f heap ∙ (rw (n, l.found) refl);
    named = l.named;
    live = l.live;
    running = l.running;
  }

  -- Two keys name two objects.
  pub Linked-distinct :
      (heap : List (Worker F)) (k j : String) (v u : ℕ)
      → Linked heap k v
      → Linked heap j u
      → (j == k) ≡ false
      → eqb v u ≡ false
  Linked-distinct heap k j v u l m n = ground (arith, eq_iff j k)

  pub alter-IsSound :
      (f : Worker F → Worker F)
      → KeepsLinks f
      → ((w : Worker F) → IsCounted w → IsCounted (f w))
      → (i : ℕ) (b : Bus F) → IsSound b
      → IsSound (record b { heap = alter i f b.heap })
  alter-IsSound f keep counts i b h = record {
    bounded = h.bounded;
    counted = All-alter IsCounted f counts i b.heap h.counted;
    same = h.same;
    dict = h.dict;
    linked = All-map _ _ (Linked-alter b.heap f keep i) b.subs h.linked;
  }

  pub enqueue_all-IsSound :
      (e : Envelope F) (vs : List ℕ) (b : Bus F)
      → IsSound b
      → IsSound (record b { heap = enqueue_all e vs b.heap })
  unfolding enqueue_all
  enqueue_all-IsSound e [] b h = h
  enqueue_all-IsSound e (v ∷ vs) b h =
      enqueue_all-IsSound e vs (record b { heap = alter v (enqueue e) b.heap })
        (alter-IsSound (enqueue e) (enqueue-KeepsLinks e) (enqueue-IsCounted e) v b h)

  pub post-IsSound : (e : Envelope F) (b : Bus F) → IsSound b → IsSound (post e b)
  unfolding post
  post-IsSound e b h =
      let s = enqueue_all-IsSound e (targets e.message.topic b.workers b.heap b.subs) b h in
      record {
        bounded = append_bounded-length b.max_history b.history e;
        counted = s.counted;
        same = s.same;
        dict = s.dict;
        linked = s.linked;
      }

  pub alter_at-IsCounted :
      (f : Worker F → Worker F)
      → ((w : Worker F) → IsCounted w → IsCounted (f w))
      → (o : Option ℕ) (heap : List (Worker F)) → All IsCounted heap
      → All IsCounted (alter_at o f heap)
  alter_at-IsCounted f keep none heap h = h
  alter_at-IsCounted f keep (some v) heap h = All-alter IsCounted f keep v heap h

  -- Removing one key keeps the links of the others.
  pub retire-Linked :
      (k : String) (b : Bus F)
      → IsSound b
      → (o : Option ℕ) → get k b.subs ≡ o
      → (j : String) (u : ℕ) → (j == k) ≡ false
      → Linked b.heap j u
      → Linked (alter_at o stop (alter_at o deactivate b.heap)) j u
  retire-Linked k b h none e j u n l = l
  retire-Linked k b h (some v) e j u n l =
      let d = Linked-distinct b.heap k j v u (All-get _ k v b.subs h.linked e) l n in
      Linked-other (alter v deactivate b.heap) stop v (j, u) d
        (Linked-other b.heap deactivate v (j, u) d l)

  pub retire-IsSound : (k : String) (b : Bus F) → IsSound b → IsSound (retire k b)
  unfolding retire
  retire-IsSound k b h = record {
    bounded = h.bounded;
    counted =
        alter_at-IsCounted stop stop-IsCounted (get k b.workers)
          (alter_at (get k b.subs) deactivate b.heap)
          (alter_at-IsCounted deactivate deactivate-IsCounted (get k b.subs) b.heap h.counted);
    same = ap (pop k) h.same;
    dict = pop-IsDict k b.subs h.dict;
    linked =
        subst
          (λ ws.
            All
              (λ s.
                Linked (alter_at (get k ws) stop (alter_at (get k b.subs) deactivate b.heap)) s.0
                  s.1)
              (pop k b.subs))
          (sym h.same) (All-pop _ _ k (retire-Linked k b h (get k b.subs) refl) b.subs h.linked);
  }
