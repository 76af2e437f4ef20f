-- ===== src/Bus/Delivery.antt =====
-- Who gets an envelope that is published.
use agenthedge.Prelude.{
  ℕ, ◌≡◌, inl, inr, refl, ap, sym, ◌∙◌, subst, false, none, some, List, [], ◌∷◌, ◌++◌, String, Dict,
  get, All, All-append, if◌then◌else◌, eqb, entries_found, Bool-cases, if_both, ◌==◌, eq_iff, arith,
  ◌+◌, ◌&&◌, not, IsDict, All-get,
}
use agenthedge.Message.{Envelope}
use agenthedge.Worker.{Worker, matches, enqueue, deliver}
use agenthedge.Bus.Heap.{at, alter, at-alter}
use agenthedge.Bus.{Bus, post, enqueue_all, target, targets}
use agenthedge.Bus.Links.{Linked, IsSound, Linked-distinct}

module _ {F : Type 0} where
  -- An object that is not among the targets stays as it is.
  enqueue_all_absent :
      (e : Envelope F) (vs : List ℕ) (v : ℕ) (heap : List (Worker F))
      → All (λ u. eqb u v ≡ false) vs
      → at v (enqueue_all e vs heap) ≡ at v heap
  unfolding enqueue_all
  enqueue_all_absent e [] v heap h = refl
  enqueue_all_absent e (u ∷ vs) v heap h =
      enqueue_all_absent e vs v (alter u (enqueue e) heap) h.1
      ∙ at-alter u v (enqueue e) heap
      ∙ rw (h.0) refl

  -- what a registered subscription contributes to the targets
  target_lem :
      (topic : String) (workers : Dict ℕ) (heap : List (Worker F)) (k : String) (v : ℕ)
      (w : Worker F)
      → get k workers ≡ some v
      → at v heap ≡ some w
      → target topic workers heap (k, v) ≡ (if matches w topic then v ∷ [] else [])
  unfolding target
  target_lem topic workers heap k v w known found = ground arith

  target_other :
      (topic : String) (heap : List (Worker F)) (workers : Dict ℕ) (k j : String) (v u : ℕ)
      → get j workers ≡ some u
      → Linked heap k v
      → Linked heap j u
      → (j == k) ≡ false
      → All (λ i. eqb i v ≡ false) (target topic workers heap (j, u))
  target_other topic heap workers k j v u known l m n =
      let d = Linked-distinct heap k j v u l m n in
      let apart : eqb u v ≡ false = ground arith in
      subst (All (λ i. eqb i v ≡ false))
        (sym (target_lem topic workers heap j u m.object known m.found))
        (if_both (All (λ i. eqb i v ≡ false)) (matches m.object topic) (apart, tt) tt)

  -- No other key leads to the object.
  targets_absent :
      (topic : String) (heap : List (Worker F)) (workers : Dict ℕ) (k : String) (v : ℕ)
      → Linked heap k v
      → (d : Dict ℕ) → get k d ≡ none
      → All (λ s. get s.0 workers ≡ some s.1) d
      → All (λ s. Linked heap s.0 s.1) d
      → All (λ i. eqb i v ≡ false) (targets topic workers heap d)
  unfolding targets get
  targets_absent topic heap workers k v l [] out known links = tt
  targets_absent topic heap workers k v l ((j, u) ∷ d) out known links =
      let n : (j == k) ≡ false = ground arith in
      All-append _ (target topic workers heap (j, u)) (targets topic workers heap d)
        (target_other topic heap workers k j v u known.0 l links.0 n)
        (targets_absent topic heap workers k v l d (rw n at out) known.1 links.1)

  enqueue_all-append :
      (e : Envelope F) (xs ys : List ℕ) (heap : List (Worker F))
      → enqueue_all e (xs ++ ys) heap ≡ enqueue_all e ys (enqueue_all e xs heap)
  unfolding enqueue_all
  enqueue_all-append e [] ys heap = refl
  enqueue_all-append e (x ∷ xs) ys heap = enqueue_all-append e xs ys (alter x (enqueue e) heap)

  abbrev expected : Envelope F → Worker F → Worker F
  expected e w = if matches w e.message.topic then enqueue e w else w

  hand_one :
      (e : Envelope F) (v : ℕ) (w : Worker F) (heap : List (Worker F))
      → at v heap ≡ some w
      → at v (enqueue_all e (if matches w e.message.topic then v ∷ [] else []) heap)
        ≡ some (expected e w)
  unfolding enqueue_all
  hand_one e v w heap found = elim (Bool-cases (matches w e.message.topic)) [
    | inl y ↦ rw y (at-alter v v (enqueue e) heap ∙ ground arith)
    | inr n ↦ rw n found
  ]

  hand_out :
      (e : Envelope F) (workers : Dict ℕ) (heap now : List (Worker F)) (k : String) (v : ℕ)
      (w : Worker F)
      → Linked heap k v
      → at v heap ≡ some w
      → at v now ≡ some w
      → (d : Dict ℕ) → IsDict d
      → get k d ≡ some v
      → All (λ s. get s.0 workers ≡ some s.1) d
      → All (λ s. Linked heap s.0 s.1) d
      → at v (enqueue_all e (targets e.message.topic workers heap d) now) ≡ some (expected e w)
  unfolding targets get
  hand_out e workers heap now k v w l found here [] h in_d known links = cc
  hand_out e workers heap now k v w l found here ((j, u) ∷ d) h in_d known links =
      let t = target e.message.topic workers heap (j, u) in
      let ts = targets e.message.topic workers heap d in
      ap (at v) (enqueue_all-append e t ts now) ∙ elim (Bool-cases (j == k)) [
        | inl y ↦
            let uv : u ≡ v = ground arith in
            let found_u = subst (λ i. at i heap ≡ some w) (sym uv) found in
            let first =
              ap (λ x. at u (enqueue_all e x now))
                (target_lem e.message.topic workers heap j u w known.0 found_u) in
            enqueue_all_absent e ts v (enqueue_all e t now) (
              targets_absent e.message.topic heap workers k v l d
                (subst (λ i. get i d ≡ none) ((eq_iff j k).0 y) h.0) known.1 links.1)
            ∙ subst (λ i. at i (enqueue_all e t now) ≡ some (expected e w)) uv
                (first ∙ hand_one e u w now (subst (λ i. at i now ≡ some w) (sym uv) here))
        | inr n ↦
            hand_out e workers heap (enqueue_all e t now) k v w l found
              (enqueue_all_absent e t v now
                  (target_other e.message.topic heap workers k j v u known.0 l links.0 n)
                ∙ here)
              d h.1 (rw n at in_d) known.1 links.1
      ]

  -- what becomes of a registered worker, written out
  appended :
      (e : Envelope F) (w : Worker F)
      → (if matches w e.message.topic && not w.closed
          then record w { queue = w.queue ++ (deliver e ∷ []); unfinished = w.unfinished + 1 }
          else w)
        ≡ expected e w
  unfolding enqueue
  appended e w = ground arith

  -- On a sound bus, `publish` puts the envelope exactly once, at the end, into the queue of each
  -- registered subscription that matches its topic and whose worker is not closed, with one more task
  -- pending and nothing else of the worker changed; it leaves the worker of any other registered
  -- subscription as it was.
  pub post-delivers :
      (e : Envelope F) (b : Bus F) (k : String) (v : ℕ) (w : Worker F)
      → IsSound b
      → get k b.subs ≡ some v
      → at v b.heap ≡ some w
      → at v (post e b).heap
        ≡ some (
            if matches w e.message.topic && not w.closed
            then record w { queue = w.queue ++ (deliver e ∷ []); unfinished = w.unfinished + 1 }
            else w)
  unfolding post
  post-delivers e b k v w h in_subs found =
      hand_out e b.workers b.heap b.heap k v w (All-get _ k v b.subs h.linked in_subs) found found
        b.subs h.dict in_subs
        (subst (λ ws. All (λ s. get s.0 ws ≡ some s.1) b.subs) (sym h.same)
          (entries_found b.subs h.dict))
        h.linked
      ∙ ap some (sym (appended e w))
