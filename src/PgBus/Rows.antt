-- ===== src/PgBus/Rows.antt =====
-- What each statement does to the rows of the deliveries: a row keeps its id, its subscription and its
-- event, and none is ever removed.
use agenthedge.Prelude.{
  ℕ, ◌+◌, ◌<◌, ◌≡◌, refl, ◌∙◌, Option, none, some, List, [], ◌∷◌, ◌++◌, String, All, All-append,
  All-map, All-image, if◌then◌else◌, eqb, any, map, arith,
}
use agenthedge.PgBus.Tables.{SubRow, Delivery, is_for, new_delivery, requeued}
use agenthedge.PgBus.Poller.{claimed, finished, failed}

-- the subscription and the event of the first row with an id
unfoldable pub key_of : ℕ → List Delivery → Option (String × ℕ)
key_of n [] = none
key_of n (d ∷ ds) =
    if eqb d.delivery_id n then some (d.subscription_id, d.event_id) else key_of n ds

-- every id is below the sequence's next value, and leads to its own row
pub record IsKeyed (next : ℕ) (ds : List Delivery) : Type 0 where
  pub below : All (λ d. d.delivery_id < next) ds
  pub own : All (λ d. key_of d.delivery_id ds ≡ some (d.subscription_id, d.event_id)) ds

-- an update of a row that leaves its identity
pub record KeepsKey (f : Delivery → Delivery) : Type 0 where
  pub keeps_id : (d : Delivery) → (f d).delivery_id ≡ d.delivery_id
  pub keeps_sub : (d : Delivery) → (f d).subscription_id ≡ d.subscription_id
  pub keeps_event : (d : Delivery) → (f d).event_id ≡ d.event_id

pub requeued-KeepsKey : (now : ℕ) (sub_id : String) → KeepsKey (requeued now sub_id)
unfolding requeued
requeued-KeepsKey now sub_id = record {
  keeps_id = λ d. ground arith;
  keeps_sub = λ d. ground arith;
  keeps_event = λ d. ground arith;
}

pub claimed-KeepsKey : (now n : ℕ) → KeepsKey (claimed now n)
unfolding claimed
claimed-KeepsKey now n = record {
  keeps_id = λ d. ground arith;
  keeps_sub = λ d. ground arith;
  keeps_event = λ d. ground arith;
}

pub finished-KeepsKey : (now n : ℕ) → KeepsKey (finished now n)
unfolding finished
finished-KeepsKey now n = record {
  keeps_id = λ d. ground arith;
  keeps_sub = λ d. ground arith;
  keeps_event = λ d. ground arith;
}

pub failed-KeepsKey :
    {F : Type 0} (now retry_delay : ℕ) (instance_id message : String) (subs : List (SubRow F))
    (n : ℕ)
    → KeepsKey (failed now retry_delay instance_id message subs n)
unfolding failed
failed-KeepsKey now retry_delay instance_id message subs n = record {
  keeps_id = λ d. ground arith;
  keeps_sub = λ d. ground arith;
  keeps_event = λ d. ground arith;
}

module _ (f : Delivery → Delivery) (k : KeepsKey f) where
  pub key_of-map : (n : ℕ) (ds : List Delivery) → key_of n (map f ds) ≡ key_of n ds
  unfolding key_of
  key_of-map n [] = refl
  key_of-map n (d ∷ ds) =
      ground (arith, k.keeps_id d, k.keeps_sub d, k.keeps_event d, key_of-map n ds)

  pub any_for-map :
      (sub_id : String) (event_id : ℕ) (ds : List Delivery)
      → any (is_for sub_id event_id) (map f ds) ≡ any (is_for sub_id event_id) ds
  any_for-map sub_id event_id [] = refl
  any_for-map sub_id event_id (d ∷ ds) =
      rw (k.keeps_sub d, k.keeps_event d, any_for-map sub_id event_id ds) refl

  pub map-IsKeyed : (next : ℕ) (ds : List Delivery) → IsKeyed next ds → IsKeyed next (map f ds)
  map-IsKeyed next ds h = record {
    below =
        All-image (λ d. d.delivery_id < next) (λ d. d.delivery_id < next) f
          (λ d b. omega (arith, k.keeps_id d, b)) ds h.below;
    own =
        All-image (λ d. key_of d.delivery_id ds ≡ some (d.subscription_id, d.event_id))
          (λ d. key_of d.delivery_id (map f ds) ≡ some (d.subscription_id, d.event_id)) f
          (λ d b.
            rw (k.keeps_id d, k.keeps_sub d, k.keeps_event d) (key_of-map d.delivery_id ds ∙ b))
          ds h.own;
  }

pub key_of-append_old :
    (n : ℕ) (ds es : List Delivery) (v : String × ℕ)
    → key_of n ds ≡ some v
    → key_of n (ds ++ es) ≡ some v
unfolding key_of
key_of-append_old n [] es v h = cc
key_of-append_old n (d ∷ ds) es v h = ground (arith, key_of-append_old n ds es v)

key_of-append_new :
    (next : ℕ) (ds : List Delivery) (d : Delivery)
    → All (λ e. e.delivery_id < next) ds
    → d.delivery_id ≡ next
    → key_of next (ds ++ (d ∷ [])) ≡ some (d.subscription_id, d.event_id)
unfolding key_of
key_of-append_new next [] d below is = ground arith
key_of-append_new next (e ∷ ds) d below is =
    ground (arith, below.0, key_of-append_new next ds d below.1 is)

pub insert-IsKeyed :
    (now next : ℕ) (sub_id : String) (event_id : ℕ) (ds : List Delivery)
    → IsKeyed next ds
    → IsKeyed (next + 1) (ds ++ (new_delivery now next sub_id event_id ∷ []))
insert-IsKeyed now next sub_id event_id ds h =
    let d = new_delivery now next sub_id event_id in
    record {
      below =
          All-append (λ e. e.delivery_id < next + 1) ds (d ∷ [])
            (All-map (λ e. e.delivery_id < next) (λ e. e.delivery_id < next + 1)
              (λ e b. omega arith) ds h.below)
            (omega arith, tt);
      own =
          All-append
            (λ e. key_of e.delivery_id (ds ++ (d ∷ [])) ≡ some (e.subscription_id, e.event_id)) ds
            (d ∷ [])
            (All-map (λ e. key_of e.delivery_id ds ≡ some (e.subscription_id, e.event_id))
              (λ e. key_of e.delivery_id (ds ++ (d ∷ [])) ≡ some (e.subscription_id, e.event_id))
              (λ e b. key_of-append_old e.delivery_id ds (d ∷ []) (e.subscription_id, e.event_id) b)
              ds h.own)
            (key_of-append_new next ds d h.below refl, tt);
    }
