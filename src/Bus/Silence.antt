-- ===== src/Bus/Silence.antt =====
-- A subscription that has been cancelled.
use agenthedge.Prelude.{
  ℕ, ◌≡◌, inl, inr, refl, ap, ◌∙◌, Bool, false, not, Option, none, some, List, [], ◌∷◌, String,
  Dict, get, if◌then◌else◌, eqb, Bool-cases, if_both, arith, Result, ok, err, length,
}
use agenthedge.Message.{Envelope}
use agenthedge.Worker.{Worker, deactivate, enqueue, stop, take, finish}
use agenthedge.Bus.Heap.{at, alter, allocate, at-alter, at-allocate_old}
use agenthedge.Bus.{
  Bus, BusError, bus_closed, not_allowed, is_allowed, publish, post, envelope, enqueue_all, targets,
  subscribe, retire, install, subscription_id, unsubscribe, retire_all, alter_all, alter_at, clear,
  close, configure_acl, worker_take, worker_finish,
}
use agenthedge.Bus.Invariant.{
  Step, Reach, here, next, published, subscribed, unsubscribed, cleared, closed_down, configured,
  handed, taken, finished,
}
use agenthedge.Bus.Links.{IsSound}

module _ {F : Type 0} where
  -- The object is inactive, and this is what its handler has been called with.
  pub record Silent (v : ℕ) (log : List (Envelope F)) (heap : List (Worker F)) : Type 0 where
    pub object : Worker F
    pub found : at v heap ≡ some object
    pub inactive : object.active ≡ false
    pub heard : object.handled ≡ log

  record KeepsSilence (f : Worker F → Worker F) : Type 0 where
    stays : (w : Worker F) → w.active ≡ false → (f w).active ≡ false
    hears_nothing : (w : Worker F) → w.active ≡ false → (f w).handled ≡ w.handled

  enqueue-KeepsSilence : (e : Envelope F) → KeepsSilence (enqueue e)
  unfolding enqueue
  enqueue-KeepsSilence e = record {
    stays = λ w h. ground arith;
    hears_nothing = λ w h. ground arith;
  }

  stop-KeepsSilence : KeepsSilence stop
  unfolding stop
  stop-KeepsSilence = record { stays = λ w h. ground arith; hears_nothing = λ w h. ground arith }

  deactivate-KeepsSilence : KeepsSilence deactivate
  unfolding deactivate
  deactivate-KeepsSilence = record { stays = λ w h. refl; hears_nothing = λ w h. refl }

  take-KeepsSilence : KeepsSilence take
  unfolding take
  take-KeepsSilence = record { stays = λ w h. ground arith; hears_nothing = λ w h. ground arith }

  finish-KeepsSilence : KeepsSilence finish
  unfolding finish
  finish-KeepsSilence = record { stays = λ w h. ground arith; hears_nothing = λ w h. ground arith }

  module _ (v : ℕ) (log : List (Envelope F)) where
    alter-Silent :
        (f : Worker F → Worker F)
        → KeepsSilence f
        → (i : ℕ) (heap : List (Worker F)) → Silent v log heap
        → Silent v log (alter i f heap)
    alter-Silent f keep i heap s = elim (Bool-cases (eqb i v)) [
      | inl e ↦ record {
        object = f s.object;
        found = at-alter i v f heap ∙ (rw (e, s.found) refl);
        inactive = keep.stays s.object s.inactive;
        heard = keep.hears_nothing s.object s.inactive ∙ s.heard;
      }
      | inr n ↦ record {
        object = s.object;
        found = at-alter i v f heap ∙ (rw (n, s.found) refl);
        inactive = s.inactive;
        heard = s.heard;
      }
    ]

    allocate-Silent :
        (w : Worker F) (heap : List (Worker F)) → Silent v log heap → Silent v log (allocate w heap)
    allocate-Silent w heap s = record {
      object = s.object;
      found = at-allocate_old v w s.object heap s.found;
      inactive = s.inactive;
      heard = s.heard;
    }

    enqueue_all-Silent :
        (e : Envelope F) (vs : List ℕ) (heap : List (Worker F))
        → Silent v log heap
        → Silent v log (enqueue_all e vs heap)
    unfolding enqueue_all
    enqueue_all-Silent e [] heap s = s
    enqueue_all-Silent e (i ∷ vs) heap s =
        enqueue_all-Silent e vs (alter i (enqueue e) heap)
          (alter-Silent (enqueue e) (enqueue-KeepsSilence e) i heap s)

    alter_at-Silent :
        (f : Worker F → Worker F)
        → KeepsSilence f
        → (o : Option ℕ) (heap : List (Worker F)) → Silent v log heap
        → Silent v log (alter_at o f heap)
    alter_at-Silent f keep none heap s = s
    alter_at-Silent f keep (some i) heap s = alter-Silent f keep i heap s

    alter_all-Silent :
        (f : Worker F → Worker F)
        → KeepsSilence f
        → (d : Dict ℕ) (heap : List (Worker F)) → Silent v log heap
        → Silent v log (alter_all f d heap)
    unfolding alter_all
    alter_all-Silent f keep [] heap s = s
    alter_all-Silent f keep ((k, i) ∷ d) heap s =
        alter_all-Silent f keep d (alter i f heap) (alter-Silent f keep i heap s)

    retire-Silent : (k : String) (b : Bus F) → Silent v log b.heap → Silent v log (retire k b).heap
    unfolding retire
    retire-Silent k b s =
        alter_at-Silent stop stop-KeepsSilence (get k b.workers)
          (alter_at (get k b.subs) deactivate b.heap)
          (alter_at-Silent deactivate deactivate-KeepsSilence (get k b.subs) b.heap s)

    retire_all-Silent : (b : Bus F) → Silent v log b.heap → Silent v log (retire_all b).heap
    unfolding retire_all
    retire_all-Silent b s =
        alter_all-Silent stop stop-KeepsSilence b.workers (alter_all deactivate b.subs b.heap)
          (alter_all-Silent deactivate deactivate-KeepsSilence b.subs b.heap s)

    Step-Silent :
        (fnmatch : String → String → Bool) {b c : Bus F}
        → Step fnmatch b c
        → Silent v log b.heap
        → Silent v log c.heap
    unfolding publish post subscribe install unsubscribe clear close configure_acl worker_take
        worker_finish
    Step-Silent fnmatch (published b now uuid topic payload publisher metadata) s =
        let e = envelope now uuid topic payload publisher metadata in
        let p = enqueue_all-Silent e (targets e.message.topic b.workers b.heap b.subs) b.heap s in
        let denied : Result BusError (Envelope F) × Bus F = (err not_allowed, b) in
        let granted : Result BusError (Envelope F) × Bus F = (ok e, post e b) in
        let refused = not (is_allowed fnmatch topic publisher b) in
        if_both {A = Result BusError (Envelope F) × Bus F} (λ r. Silent v log r.1.heap) b.closed
          {x = (err bus_closed, b)} {y = if refused then denied else granted} s
          (if_both {A = Result BusError (Envelope F) × Bus F} (λ r. Silent v log r.1.heap) refused
            {x = denied} {y = granted} s p)
    Step-Silent fnmatch (subscribed b uuid topics n key) s =
        let k = subscription_id key uuid in
        let r = retire-Silent k b s in
        let made : Result BusError ℕ × Bus F =
          (ok (length b.heap), install k topics n (retire k b)) in
        if_both {A = Result BusError ℕ × Bus F} (λ r. Silent v log r.1.heap) b.closed
          {x = (err bus_closed, b)} {y = made} s (allocate-Silent _ (retire k b).heap r)
    Step-Silent fnmatch (unsubscribed b k) s = retire-Silent k b s
    Step-Silent fnmatch (cleared b) s = retire_all-Silent b s
    Step-Silent fnmatch (closed_down b) s =
        if_both {A = Bus F} (λ c. Silent v log c.heap) b.closed s (retire_all-Silent b s)
    Step-Silent fnmatch (configured b rules enforce) s = s
    Step-Silent fnmatch (handed b e i) s =
        alter-Silent (enqueue e) (enqueue-KeepsSilence e) i b.heap s
    Step-Silent fnmatch (taken b i) s = alter-Silent take take-KeepsSilence i b.heap s
    Step-Silent fnmatch (finished b i) s = alter-Silent finish finish-KeepsSilence i b.heap s

    Reach-Silent :
        (fnmatch : String → String → Bool) {b c : Bus F}
        → Reach fnmatch b c
        → Silent v log b.heap
        → Silent v log c.heap
    Reach-Silent fnmatch here s = s
    Reach-Silent fnmatch (next r st) s = Step-Silent fnmatch st (Reach-Silent fnmatch r s)

  retired_object :
      (k : String) (v : ℕ) (w : Worker F) (b : Bus F)
      → b.workers ≡ b.subs
      → get k b.subs ≡ some v
      → at v b.heap ≡ some w
      → Silent v w.handled (retire k b).heap
  unfolding retire
  retired_object k v w b same e found =
      let workers_e : get k b.workers ≡ some v = ap (get k) same ∙ e in
      rw (workers_e, e)
        (alter-Silent v w.handled stop stop-KeepsSilence v (alter v deactivate b.heap) (record {
          object = deactivate w;
          found = at-alter v v deactivate b.heap ∙ (ground arith);
          inactive = unfold deactivate in refl;
          heard = unfold deactivate in refl;
        }))

  -- Once a subscription is cancelled its handler is called no more: whatever is still queued for it,
  -- whatever is published or subscribed later, and however its thread goes on, what the handler has
  -- been called with stays what it was at the cancellation.
  pub unsubscribe-silences :
      (fnmatch : String → String → Bool) (k : String) (v : ℕ) (w : Worker F) (b : Bus F) {c : Bus F}
      → IsSound b
      → get k b.subs ≡ some v
      → at v b.heap ≡ some w
      → Reach fnmatch (unsubscribe k b) c
      → Silent v w.handled c.heap
  unfolding unsubscribe
  unsubscribe-silences fnmatch k v w b h e found r =
      Reach-Silent v w.handled fnmatch r (retired_object k v w b h.same e found)
