-- ===== src/Execution/Gate.antt =====
-- What stands between an approval and the broker.
use agenthedge.Prelude.{
  ℕ, ◌≡◌, ◌⊎◌, inl, inr, refl, Bool, true, false, Option, none, some, List, [], ◌∷◌, String,
  Bool-cases, arith, Result, ok, err, put,
}
use agenthedge.Values.{Payload, get_value, nonempty_text}
use agenthedge.Floats.{Floats}
use agenthedge.Message.{contains}
use agenthedge.Broker.{BrokerOrder, BrokerOrderStatus}
use agenthedge.Portfolio.{Portfolio, StoreError}
use agenthedge.Orders.{Persisted, persist_new_fill, order_record, source_of}
use agenthedge.Execution.{
  BrokerAdapter, Effect, submitted, broker_accepted, order_pending, Agent, emit, evaluate_safety,
  after_persist, settle_order, after_submit, after_safety, act_on, handle_approval, is_rejected,
}
use agenthedge.Execution.Checks.{
  Fields, Verdict, ignore, refuse, submit, Settings, has_required_approvals, is_expired,
  read_fields, order_of, verdict_on, verdict_of_ids, verdict_of_fields, verdict,
}

-- the orders of the calls of `submit_order`, newest first
abbrev pub submissions : {F : Type 0} → List (Effect F) → List (BrokerOrder F)
submissions [] = []
submissions (submitted o returned ∷ t) = o ∷ submissions t
submissions (_ ∷ t) = submissions t

module _ (fl : Floats) where
  open fl use {F, zero_f}

  module _ (cfg : Settings F) (adapter : BrokerAdapter F) where
    open adapter use {State}

    -- Everything that an order which reaches the broker has passed.
    pub record Authorised (now : ℕ) (payload : Payload F) (a : Agent F State)
        (order : BrokerOrder F) : Type 0 where
      pub not_engaged : a.kill_switch_engaged ≡ false
      pub fields : Fields F
      pub read : read_fields fl cfg.upper payload ≡ some fields
      pub decision_id : String
      pub decided : nonempty_text (get_value "decision_id" payload) ≡ some decision_id
      pub approval_id : String
      pub approved_by : nonempty_text (get_value "director_approval_id" payload) ≡ some approval_id
      pub not_consumed : contains a.consumed approval_id ≡ false
      pub approvals : has_required_approvals cfg.lower payload ≡ true
      pub in_time :
          is_expired cfg.parse_time cfg.clock_skew now (get_value "expires_at" payload) ≡ false
      pub as_approved : order ≡ order_of fl approval_id fields
      pub safe : evaluate_safety fl cfg adapter order a ≡ ok none

    pub submit_of_fields :
        (now : ℕ) (consumed : List String) (payload : Payload F) (fo : Option (Fields F))
        (order : BrokerOrder F)
        → verdict_of_fields fl cfg now consumed payload fo ≡ submit order
        → (f : Fields F) × (fo ≡ some f)
          × (verdict_of_ids fl cfg now consumed payload f
                (nonempty_text (get_value "decision_id" payload))
                (nonempty_text (get_value "director_approval_id" payload))
              ≡ submit order)
    submit_of_fields now consumed payload none order h = cc
    submit_of_fields now consumed payload (some f) order h = (f, refl, h)

    pub submit_of_ids :
        (now : ℕ) (consumed : List String) (payload : Payload F) (f : Fields F)
        (d p : Option String) (order : BrokerOrder F)
        → verdict_of_ids fl cfg now consumed payload f d p ≡ submit order
        → (d' : String) × (p' : String) × (d ≡ some d')
          × (p ≡ some p')
          × (verdict_on fl cfg now consumed payload f p' ≡ submit order)
    submit_of_ids now consumed payload f none p order h = cc
    submit_of_ids now consumed payload f (some d) none order h = cc
    submit_of_ids now consumed payload f (some d) (some p) order h = (d, p, refl, refl, h)

    pub submit_of_checks :
        (now : ℕ) (consumed : List String) (payload : Payload F) (f : Fields F) (p : String)
        (order : BrokerOrder F)
        → verdict_on fl cfg now consumed payload f p ≡ submit order
        → (contains consumed p ≡ false)
          × (has_required_approvals cfg.lower payload ≡ true)
          × (is_expired cfg.parse_time cfg.clock_skew now (get_value "expires_at" payload) ≡ false)
          × (order ≡ order_of fl p f)
    unfolding verdict_on
    submit_of_checks now consumed payload f p order h = ground arith

    pub submit_of_verdict :
        (now : ℕ) (engaged : Bool) (consumed : List String) (payload : Payload F)
        (order : BrokerOrder F)
        → verdict fl cfg now engaged consumed payload ≡ submit order
        → (engaged ≡ false)
          × (verdict_of_fields fl cfg now consumed payload (read_fields fl cfg.upper payload)
              ≡ submit order)
    unfolding verdict
    submit_of_verdict now true consumed payload order h = cc
    submit_of_verdict now false consumed payload order h = (refl, h)

    verdict-Authorised :
        (now : ℕ) (payload : Payload F) (a : Agent F State) (order : BrokerOrder F)
        → verdict fl cfg now a.kill_switch_engaged a.consumed payload ≡ submit order
        → evaluate_safety fl cfg adapter order a ≡ ok none
        → Authorised now payload a order
    verdict-Authorised now payload a order v safe =
        let (off, v1) = submit_of_verdict now a.kill_switch_engaged a.consumed payload order v in
        let (f, read, v2) = submit_of_fields now a.consumed payload _ order v1 in
        let (d, p, decided, approved, v3) = submit_of_ids now a.consumed payload f _ _ order v2 in
        let (fresh, approvals, in_time, built) =
          submit_of_checks now a.consumed payload f p order v3 in
        record {
          not_engaged = off;
          fields = f;
          read = read;
          decision_id = d;
          decided = decided;
          approval_id = p;
          approved_by = approved;
          not_consumed = fresh;
          approvals = approvals;
          in_time = in_time;
          as_approved = built;
          safe = safe;
        }

    pub submissions-after_persist :
        (e : Effect F) (r : Result StoreError (Persisted fl)) (a : Agent F State)
        → submissions (e ∷ a.trace) ≡ submissions a.trace
        → submissions (after_persist fl cfg adapter e r a).1.trace ≡ submissions a.trace
    submissions-after_persist e (err x) a h = refl
    submissions-after_persist e (ok p) a h = ground arith

    pub submissions-settle_order :
        (now : ℕ) (payload : Payload F) (order : BrokerOrder F) (price : F)
        (status : BrokerOrderStatus F) (a : Agent F State)
        → submissions (settle_order fl cfg adapter now payload order price status a).1.trace
          ≡ submissions a.trace
    unfolding settle_order
    submissions-settle_order now payload order price status a =
        let a1 = record a { consumed = order.client_order_id ∷ a.consumed } in
        let r = order_record fl now status (source_of payload) (some price) none a1.ledger in
        let a2 = emit (broker_accepted status) a1 in
        let a3 = record a2 { ledger = put status.broker_order_id r a2.ledger } in
        elim (Bool-cases (is_rejected fl cfg adapter status.status)) [
          | inl y ↦ rw y
          | inr n ↦ rw n (
              submissions-after_persist (order_pending status)
                (persist_new_fill fl now r status price a3.ledger a3.portfolio) a3 refl)
        ]

    -- What an approval does about the broker: no call, and then the broker, the portfolio and the
    -- consumed approvals are as before; or one call, with an order that has passed every check.
    abbrev pub Gated : ℕ → Payload F → Agent F State → Agent F State → Type 0
    Gated now payload a a' =
        ((submissions a'.trace ≡ submissions a.trace)
          × (a'.broker ≡ a.broker)
          × (a'.portfolio ≡ a.portfolio)
          × (a'.consumed ≡ a.consumed)
          × (a'.ledger ≡ a.ledger))
        ⊎ ((order : BrokerOrder F) × (submissions a'.trace ≡ order ∷ submissions a.trace)
            × Authorised now payload a order)

    after_submit-submissions :
        (now : ℕ) (payload : Payload F) (order : BrokerOrder F) (a : Agent F State)
        (r : Result String (BrokerOrderStatus F) × State × Portfolio F)
        → submissions (after_submit fl cfg adapter now payload order a r).1.trace
          ≡ order ∷ submissions a.trace
    after_submit-submissions now payload order a (err x, s, st) = refl
    after_submit-submissions now payload order a (ok status, s, st) =
        submissions-settle_order now payload order _ status _

    act_on-Gated :
        (now : ℕ) (payload : Payload F) (v : Verdict F) (a : Agent F State)
        → verdict fl cfg now a.kill_switch_engaged a.consumed payload ≡ v
        → Gated now payload a (act_on fl cfg adapter now payload v a).1
    act_on-Gated now payload ignore a e = inl (refl, refl, refl, refl, refl)
    act_on-Gated now payload (refuse action) a e = inl (refl, refl, refl, refl, refl)
    act_on-Gated now payload (submit order) a e = go (evaluate_safety fl cfg adapter order a) refl
      where
        go :
            (s : Result String (Option String))
            → evaluate_safety fl cfg adapter order a ≡ s
            → Gated now payload a (after_safety fl cfg adapter now payload order a s).1
        go (err x) h = inl (refl, refl, refl, refl, refl)
        go (ok (some reason)) h = inl (refl, refl, refl, refl, refl)
        go (ok none) h = inr (
          order,
          after_submit-submissions now payload order a _,
          verdict-Authorised now payload a order e h,
        )

    -- An approval leads to at most one call of the broker, and only with the order that it describes,
    -- while no kill switch is engaged, under a decision id and an approval id that was not consumed,
    -- with the three approvals, in time, and past the safety checks; else the broker, the portfolio,
    -- the order ledger and the consumed approvals stay as they are.
    pub handle_approval_gate :
        (now : ℕ) (payload : Payload F) (a : Agent F State)
        → Gated now payload a (handle_approval fl cfg adapter now payload a).1
    unfolding handle_approval
    handle_approval_gate now payload a = act_on-Gated now payload _ a refl
