-- ===== src/Execution/Runs.antt =====
-- What holds over a whole run of the agent: the latch of the kill switch, and that no approval is
-- spent twice.
use agenthedge.Prelude.{
  ℕ, ◌≡◌, inl, inr, refl, ◌∙◌, true, false, Option, none, some, List, [], ◌∷◌, String, Bool-cases,
  Option-cases, Result, ok, err, get, put,
}
use agenthedge.Values.{Payload}
use agenthedge.Floats.{Floats}
use agenthedge.Message.{contains}
use agenthedge.Broker.{BrokerOrderStatus}
use agenthedge.Portfolio.{StoreError}
use agenthedge.Orders.{OrderRecord, Persisted, persist_new_fill}
use agenthedge.Execution.{
  BrokerAdapter, Effect, submitted, order_status, Agent, after_persist, record_and_persist,
  handle_message, after_cancel, cancel, after_status, reconcile_one, reconcile_from,
  reconcile_pending_orders, ids,
}
use agenthedge.Execution.Checks.{Settings}
use agenthedge.Execution.Gate.{submissions}

-- what can reach the agent while it is set up
pub data Event (F : Type 0) : Type 0 where
  message : ℕ → String → Payload F → Event F
  tick : ℕ → Event F
  cancel_request : ℕ → String → Event F

-- the client ids of the calls of `submit_order` that returned, newest first
abbrev pub answered : {F : Type 0} → List (Effect F) → List String
answered [] = []
answered (submitted o true ∷ t) = o.client_order_id ∷ answered t
answered (_ ∷ t) = answered t

abbrev pub Distinct : List String → Type 0
Distinct [] = Unit
Distinct (x ∷ xs) = (contains xs x ≡ false) × Distinct xs

module _ (fl : Floats) where
  open fl use {F, zero_f}

  module _ (cfg : Settings F) (adapter : BrokerAdapter F) where
    open adapter use {State, get_order_status}

    -- the agent after one event; what a handler or a tick raises is logged, and the state stays
    unfoldable pub react : Event F → Agent F State → Agent F State
    react (message now topic payload) a = (handle_message fl cfg adapter now topic payload a).1
    react (tick now) a = (reconcile_pending_orders fl cfg adapter now a).1
    react (cancel_request now broker_order_id) a = (cancel fl cfg adapter now broker_order_id a).1

    unfoldable pub run : List (Event F) → Agent F State → Agent F State
    run [] a = a
    run (e ∷ es) a = run es (react e a)

    -- What the calls beside approvals keep: the switch, the consumed approvals and the submissions.
    pub record SameGuards (a a' : Agent F State) : Type 0 where
      pub engaged : a'.kill_switch_engaged ≡ a.kill_switch_engaged
      pub spent : a'.consumed ≡ a.consumed
      pub calls : submissions a'.trace ≡ submissions a.trace
      pub answers : answered a'.trace ≡ answered a.trace

    SameGuards-refl : (a : Agent F State) → SameGuards a a
    SameGuards-refl a = record { engaged = refl; spent = refl; calls = refl; answers = refl }

    SameGuards-trans : {a b c : Agent F State} → SameGuards a b → SameGuards b c → SameGuards a c
    SameGuards-trans g h = record {
      engaged = h.engaged ∙ g.engaged;
      spent = h.spent ∙ g.spent;
      calls = h.calls ∙ g.calls;
      answers = h.answers ∙ g.answers;
    }

    after_persist-SameGuards :
        (e : Effect F) (r : Result StoreError (Persisted fl)) (a : Agent F State)
        → submissions (e ∷ a.trace) ≡ submissions a.trace
        → answered (e ∷ a.trace) ≡ answered a.trace
        → SameGuards a (after_persist fl cfg adapter e r a).1
    after_persist-SameGuards e (err x) a h k = SameGuards-refl a
    after_persist-SameGuards e (ok p) a h k = elim (Option-cases p.event) [
      | inl n ↦ rw n (record { engaged = refl; spent = refl; calls = h; answers = k })
      | inr (x, s) ↦ rw s (record { engaged = refl; spent = refl; calls = refl; answers = refl })
    ]

    pub record_and_persist-SameGuards :
        (now : ℕ) (status : BrokerOrderStatus F) (r : OrderRecord F) (price : F) (e : Effect F)
        (a : Agent F State)
        → submissions (e ∷ a.trace) ≡ submissions a.trace
        → answered (e ∷ a.trace) ≡ answered a.trace
        → SameGuards a (record_and_persist fl cfg adapter now status r price e a).1
    unfolding record_and_persist
    record_and_persist-SameGuards now status r price e a h k =
        let a' = record a { ledger = put status.broker_order_id r a.ledger } in
        let g =
          after_persist-SameGuards e (persist_new_fill fl now r status price a'.ledger a'.portfolio)
            a' h k in
        record { engaged = g.engaged; spent = g.spent; calls = g.calls; answers = g.answers }

    after_status-SameGuards :
        (now : ℕ) (old : OrderRecord F) (a : Agent F State)
        (r : Result String (BrokerOrderStatus F))
        → SameGuards a (after_status fl cfg adapter now old a r).1
    after_status-SameGuards now old a (err x) = SameGuards-refl a
    after_status-SameGuards now old a (ok status) =
        record_and_persist-SameGuards now status _ _ (order_status status) a refl refl

    reconcile_one-SameGuards :
        (now : ℕ) (k : String) (o : Option (OrderRecord F)) (a : Agent F State)
        → SameGuards a (reconcile_one fl cfg adapter now k o a).1
    reconcile_one-SameGuards now k none a = SameGuards-refl a
    reconcile_one-SameGuards now k (some old) a = elim (Bool-cases old.closed) [
      | inl y ↦ rw y (SameGuards-refl a)
      | inr n ↦ rw n (after_status-SameGuards now old a (get_order_status k a.broker))
    ]

    reconcile_from-SameGuards :
        (now : ℕ) (ks : List String) (a : Agent F State)
        → SameGuards a (reconcile_from fl cfg adapter now ks a).1
    unfolding reconcile_from
    reconcile_from-SameGuards now [] a = SameGuards-refl a
    reconcile_from-SameGuards now (k ∷ ks) a =
        let g = reconcile_one-SameGuards now k (get k a.ledger) a in
        go (reconcile_one fl cfg adapter now k (get k a.ledger) a) g
          (λ a'. reconcile_from-SameGuards now ks a')
      where
        go :
            (r : Result String (Unit {0}) × Agent F State)
            → SameGuards a r.1
            → ((a' : Agent F State) → SameGuards a' (reconcile_from fl cfg adapter now ks a').1)
            → SameGuards a
                (elim r.0 as (λ _. Result String (Unit {0}) × Agent F State) [
                  | ok x ↦ reconcile_from fl cfg adapter now ks r.1
                  | err x ↦ (err x, r.1)
                ]).1
        go (ok x, a') g later = SameGuards-trans g (later a')
        go (err x, a') g later = g

    pub cancel-SameGuards :
        (now : ℕ) (k : String) (a : Agent F State) → SameGuards a (cancel fl cfg adapter now k a).1
    unfolding cancel
    cancel-SameGuards now k a = go (adapter.cancel_order k a.broker)
      where
        go :
            (r : Result String (BrokerOrderStatus F) × State)
            → SameGuards a (after_cancel fl cfg adapter now a r).1
        go (err x, s) = record { engaged = refl; spent = refl; calls = refl; answers = refl }
        go (ok status, s) = record { engaged = refl; spent = refl; calls = refl; answers = refl }

    pub reconcile-SameGuards :
        (now : ℕ) (a : Agent F State)
        → SameGuards a (reconcile_pending_orders fl cfg adapter now a).1
    unfolding reconcile_pending_orders
    reconcile-SameGuards now a = reconcile_from-SameGuards now (ids a.ledger) a
