-- ===== src/PgBus/Checkpoint.antt =====
-- The checkpoint that an instance reports (src/agents/postgres_bus.py, `caught_up_checkpoint`).
use agenthedge.Prelude.{
  ℕ, ◌≤◌, ◌<◌, ◌≡◌, inl, inr, refl, sym, subst, Bool, true, false, ◌&&◌, Option, none, some, List,
  [], ◌∷◌, String, All, All-map, leb, arith, Bool-cases,
}
use agenthedge.PgBus.Tables.{SubRow, Delivery, is_open, find_sub}
use agenthedge.PgBus.Poller.{World, is_served}
use agenthedge.PgBus.Progress.{of_instance, min_event, max_event, before, caught_up_checkpoint}
use agenthedge.PgBus.Invariant.{has_returned}
use agenthedge.PgBus.Claims.{IsSoundWorld}
use agenthedge.PgBus.Kept.{HasRow}
use agenthedge.PgBus.AtLeastOnce.{settled-has_returned}

abbrev IsBelow : ℕ → Option ℕ → Type 0
IsBelow n none = Unit
IsBelow n (some m) = n < m

leb-le : (m n : ℕ) → leb m n ≡ true → m ≤ n
leb-le m n e = ground arith

leb-gt : (m n : ℕ) → leb m n ≡ false → n < m
leb-gt m n e = ground arith

module _ (test : Delivery → Bool) (d : Delivery) (ds : List Delivery) where
  min_event-skip : test d ≡ false → min_event test (d ∷ ds) ≡ min_event test ds
  unfolding min_event
  min_event-skip f = rw f refl

  min_event-only :
      test d ≡ true → min_event test ds ≡ none → min_event test (d ∷ ds) ≡ some d.event_id
  unfolding min_event
  min_event-only f e = rw (f, e) refl

  module _ (m : ℕ) (f : test d ≡ true) (e : min_event test ds ≡ some m) where
    min_event-new : leb d.event_id m ≡ true → min_event test (d ∷ ds) ≡ some d.event_id
    unfolding min_event
    min_event-new l = rw (f, e, l) refl

    min_event-old : leb d.event_id m ≡ false → min_event test (d ∷ ds) ≡ some m
    unfolding min_event
    min_event-old l = rw (f, e, l) refl

module _ (test : Delivery → Bool) (n : ℕ) where
  min_event-tail :
      (d : Delivery) (ds : List Delivery) (r : Option ℕ)
      → min_event test ds ≡ r
      → IsBelow n (min_event test (d ∷ ds))
      → IsBelow n r
  unfolding min_event
  min_event-tail d ds none e h = tt
  min_event-tail d ds (some m) e h = elim (Bool-cases (test d)) [
    | inr f ↦ subst (IsBelow n) e (subst (IsBelow n) (min_event-skip test d ds f) h)
    | inl f ↦ elim (Bool-cases (leb d.event_id m)) [
      | inl l ↦
          omega
            (arith, leb-le d.event_id m l, subst (IsBelow n) (min_event-new test d ds m f e l) h)
      | inr l ↦ subst (IsBelow n) (min_event-old test d ds m f e l) h
    ]
  ]

  min_event-head :
      (d : Delivery) (ds : List Delivery) (r : Option ℕ)
      → min_event test ds ≡ r
      → IsBelow n (min_event test (d ∷ ds))
      → d.event_id ≡ n
      → test d ≡ false
  unfolding min_event
  min_event-head d ds r e h p = elim (Bool-cases (test d)) [ inr f ↦ f | inl f ↦ absurd (go f r e) ]
    where
      go : test d ≡ true → (r : Option ℕ) → min_event test ds ≡ r → ⊥
      go f none e = omega (arith, p, subst (IsBelow n) (min_event-only test d ds f e) h)
      go f (some m) e = elim (Bool-cases (leb d.event_id m)) [
        | inl l ↦ omega (arith, p, subst (IsBelow n) (min_event-new test d ds m f e l) h)
        | inr l ↦
            omega (
              arith,
              p,
              leb-gt d.event_id m l,
              subst (IsBelow n) (min_event-old test d ds m f e l) h,
            )
      ]

  -- Below the smallest event of the rows that pass, none passes.
  min_event-none :
      (ds : List Delivery)
      → IsBelow n (min_event test ds)
      → All (λ d. d.event_id ≡ n → test d ≡ false) ds
  min_event-none [] h = tt
  min_event-none (d ∷ ds) h = (
    min_event-head d ds (min_event test ds) refl h,
    min_event-none ds (min_event-tail d ds (min_event test ds) refl h),
  )

before-IsBelow :
    (max_event_id n : ℕ) (r : Option ℕ) → 1 ≤ n → n ≤ before max_event_id r → IsBelow n r
before-IsBelow max_event_id n none p l = tt
before-IsBelow max_event_id n (some m) p l = omega arith

module _ {F : Type 0} where
  unserved-closed :
      (i k : String) (subs : List (SubRow F)) (d : Delivery)
      → is_served i (find_sub k subs) ≡ true
      → d.subscription_id ≡ k
      → (of_instance i subs d && is_open d.status) ≡ false
      → is_open d.status ≡ false
  unserved-closed i k subs d s p h =
      ground (arith, subst (λ x. is_served i (find_sub x subs) ≡ true) (sym p) s)

  -- In tables that are sound, every event up to the checkpoint of an instance has been handled by each
  -- subscription that the instance serves and that has a delivery for it: a handler has returned.
  pub caught_up_checkpoint-has_returned :
      (i k : String) (n : ℕ) (w : World F)
      → IsSoundWorld w
      → HasRow k n w.db
      → is_served i (find_sub k w.db.subs) ≡ true
      → 1 ≤ n
      → n ≤ caught_up_checkpoint i w.db
      → has_returned k n w.returned ≡ true
  unfolding caught_up_checkpoint
  caught_up_checkpoint-has_returned i k n w s row served p l =
      let test = λ (d : Delivery). of_instance i w.db.subs d && is_open d.status in
      settled-has_returned k n w.returned w.db.deliveries row s.settled (
        All-map (λ d. d.event_id ≡ n → test d ≡ false)
          (λ d. d.subscription_id ≡ k → d.event_id ≡ n → is_open d.status ≡ false)
          (λ d h a b. unserved-closed i k w.db.subs d served a (h b)) w.db.deliveries
          (min_event-none test n w.db.deliveries
            (before-IsBelow (max_event w.db.events) n (min_event test w.db.deliveries) p l)))
