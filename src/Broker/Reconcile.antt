-- ===== src/Broker/Reconcile.antt =====
-- Fills and portfolio agree: reconciliation after submissions finds no mismatch.
use agenthedge.Prelude.{
  ℕ, ◌≡◌, inl, inr, refl, sym, ap, ◌∙◌, true, false, Option, none, some, List, [], ◌∷◌, ◌++◌,
  String, Dict, get, put, values, get-put, Bool-cases, Option-cases, arith, if◌then◌else◌, ◌==◌,
  eq_iff,
}
use agenthedge.Floats.{Floats}
use agenthedge.Portfolio.{Portfolio, Position, apply_fill, filled, quantity_of}
use agenthedge.Portfolio.Ledger.{quantity_of-filled, settle}
use agenthedge.Broker.{
  BrokerOrder, BrokerOrderStatus, SimBroker, submit_order, place, positive_price, filled_status,
  rejected_status, signed, amount, add_status, broker_positions, portfolio_positions, mismatches,
  reconcile_fills, has_fills,
}

module _ {V : Type 0} where
  values-put_new :
      (k : String) (v : V) (d : Dict V) → get k d ≡ none → values (put k v d) ≡ values d ++ (v ∷ [])
  unfolding get put
  values-put_new k v [] h = refl
  values-put_new k v ((j, w) ∷ d) h = ground (arith, values-put_new k v d)

module _ (fl : Floats) where
  open fl use {F, zero_f, add_f, sub_f, abs_f, lt_f, eq_f}

  -- what a status adds to the holding of a symbol
  abbrev added : String → BrokerOrderStatus F → F → F
  added symbol s q =
      if has_fills s.status
      then (if s.symbol == symbol then add_f q (signed fl s.side s.filled_quantity) else q)
      else q

  amount-add_status :
      (symbol : String) (s : BrokerOrderStatus F) (d : Dict F)
      → amount fl symbol (add_status fl s d) ≡ added symbol s (amount fl symbol d)
  unfolding amount add_status
  amount-add_status symbol s d = ground (
    arith,
    eq_iff s.symbol symbol,
    get-put s.symbol symbol (add_f (amount fl s.symbol d) (signed fl s.side s.filled_quantity)) d,
  )

  broker_positions-snoc :
      (ss : List (BrokerOrderStatus F)) (s : BrokerOrderStatus F) (d : Dict F)
      → broker_positions fl (ss ++ (s ∷ [])) d ≡ add_status fl s (broker_positions fl ss d)
  unfolding broker_positions
  broker_positions-snoc [] s d = refl
  broker_positions-snoc (x ∷ ss) s d = broker_positions-snoc ss s (add_status fl x d)

  amount-portfolio_positions :
      (symbol : String) (d : Dict (Position F))
      → amount fl symbol (portfolio_positions fl d) ≡ quantity_of fl symbol d
  unfolding amount portfolio_positions quantity_of get
  amount-portfolio_positions symbol [] = refl
  amount-portfolio_positions symbol ((k, p) ∷ d) =
      ground (arith, amount-portfolio_positions symbol d)

  -- The adapter's fills add up to the portfolio's quantities.
  abbrev pub Agrees : SimBroker F → Type 0
  Agrees b =
      (symbol : String)
      → amount fl symbol (broker_positions fl (values b.orders) [])
        ≡ quantity_of fl symbol b.portfolio.positions

  Agrees-mismatches :
      (tolerance : F) (b : SimBroker F) (ss : List String)
      → ((x : F) → lt_f tolerance (abs_f (sub_f x x)) ≡ false)
      → Agrees b
      → mismatches fl tolerance
          (broker_positions fl (values b.orders) [])
          (portfolio_positions fl b.portfolio.positions)
          ss
        ≡ []
  unfolding mismatches
  Agrees-mismatches tolerance b [] exact h = refl
  Agrees-mismatches tolerance b (s ∷ ss) exact h = ground (
    arith,
    h s,
    amount-portfolio_positions s b.portfolio.positions,
    exact (quantity_of fl s b.portfolio.positions),
    Agrees-mismatches tolerance b ss exact h,
  )

  -- A float that compares equal to zero is zero, and a difference with itself is within tolerance.
  pub record ReconcileLaws (tolerance : F) : Type 0 where
    pub zero_unique : (x : F) → eq_f x zero_f ≡ true → x ≡ zero_f
    pub exact : (x : F) → lt_f tolerance (abs_f (sub_f x x)) ≡ false

  settle_lem : (tolerance : F) → ReconcileLaws tolerance → (x : F) → settle fl x ≡ x
  settle_lem tolerance laws x = elim (Bool-cases (eq_f x zero_f)) [
    | inl z ↦ rw z (sym (laws.zero_unique x z))
    | inr n ↦ rw n
  ]

  -- A new status on record, with the portfolio it goes with.
  record-Agrees :
      (k : String) (s : BrokerOrderStatus F) (b : SimBroker F) (st : Portfolio F)
      → get k b.orders ≡ none
      → Agrees b
      → ((symbol : String)
          → quantity_of fl symbol st.positions
            ≡ added symbol s (quantity_of fl symbol b.portfolio.positions))
      → Agrees (record { orders = put k s b.orders; portfolio = st })
  record-Agrees k s b st new h moved symbol =
      let ps = broker_positions fl (values b.orders) [] in
      ap (λ vs. amount fl symbol (broker_positions fl vs [])) (values-put_new k s b.orders new)
      ∙ ap (amount fl symbol) (broker_positions-snoc (values b.orders) s [])
      ∙ amount-add_status symbol s ps
      ∙ ap (added symbol s) (h symbol)
      ∙ sym (moved symbol)

  added_filled :
      (tolerance : F)
      → ReconcileLaws tolerance
      → (order : BrokerOrder F) (price : F) (symbol : String) (d : Dict (Position F))
      → (if order.symbol == symbol
          then settle fl
              (add_f (quantity_of fl order.symbol d) (signed fl order.side order.quantity))
          else quantity_of fl symbol d)
        ≡ added symbol (filled_status fl order price) (quantity_of fl symbol d)
  unfolding filled_status
  added_filled tolerance laws order price symbol d =
      let q = signed fl order.side order.quantity in
      ground (
        arith,
        eq_iff order.symbol symbol,
        settle_lem tolerance laws (add_f (quantity_of fl order.symbol d) q),
      )

  place-Agrees :
      (tolerance : F)
      → ReconcileLaws tolerance
      → (now : ℕ) (order : BrokerOrder F) (price : Option F) (b : SimBroker F)
      → get order.client_order_id b.orders ≡ none
      → Agrees b
      → Agrees (place fl now order price b).1
  unfolding place apply_fill
  place-Agrees tolerance laws now order none b new h =
      record-Agrees order.client_order_id (rejected_status fl order) b b.portfolio new h
        (λ symbol. refl)
  place-Agrees tolerance laws now order (some price) b new h =
      let q = signed fl order.side order.quantity in
      elim (Bool-cases (eq_f q zero_f)) [
        | inl z ↦ rw (z, apply_fill) h
        | inr n ↦ elim (Bool-cases (fl.le_f price zero_f)) [
          | inl z ↦ rw (n, z, apply_fill) h
          | inr m ↦
              rw (n, m, apply_fill)
                (record-Agrees order.client_order_id (filled_status fl order price) b
                  (filled fl now order.symbol q price b.portfolio) new h
                  λ symbol.
                    quantity_of-filled fl now order.symbol symbol q price b.portfolio
                    ∙ added_filled tolerance laws order price symbol b.portfolio.positions)
        ]
      ]

  submit_order-Agrees :
      (tolerance : F)
      → ReconcileLaws tolerance
      → (now : ℕ) (order : BrokerOrder F) (b : SimBroker F) → Agrees b
      → Agrees (submit_order fl now order b).1
  unfolding submit_order
  submit_order-Agrees tolerance laws now order b h =
      elim (Option-cases (get order.client_order_id b.orders)) [
        | inl new ↦
            rw (new, submit_order)
              (place-Agrees tolerance laws now order (positive_price fl order.limit_price) b new h)
        | inr (old, known) ↦ rw (known, submit_order) h
      ]

  unfoldable pub submit_all : ℕ → List (BrokerOrder F) → SimBroker F → SimBroker F
  submit_all now [] b = b
  submit_all now (o ∷ os) b = submit_all now os (submit_order fl now o b).1

  submit_all-Agrees :
      (tolerance : F)
      → ReconcileLaws tolerance
      → (now : ℕ) (orders : List (BrokerOrder F)) (b : SimBroker F) → Agrees b
      → Agrees (submit_all now orders b)
  unfolding submit_all
  submit_all-Agrees tolerance laws now [] b h = h
  submit_all-Agrees tolerance laws now (o ∷ os) b h =
      submit_all-Agrees tolerance laws now os (submit_order fl now o b).1
        (submit_order-Agrees tolerance laws now o b h)

  -- Starting with no orders and no positions, after any submissions (accepted, rejected, repeated or
  -- raising) reconciliation reports no mismatch, if a float that equals zero is zero and a number's
  -- difference with itself is within the tolerance.
  pub reconcile_after_submissions :
      (sorted_set : List String → List String) (tolerance : F) (now : ℕ)
      (orders : List (BrokerOrder F)) (b : SimBroker F)
      → ReconcileLaws tolerance
      → b.orders ≡ []
      → b.portfolio.positions ≡ []
      → reconcile_fills fl sorted_set tolerance (submit_all now orders b) ≡ []
  unfolding reconcile_fills
  reconcile_after_submissions sorted_set tolerance now orders b laws no_orders no_positions =
      Agrees-mismatches tolerance (submit_all now orders b) _ laws.exact (
        submit_all-Agrees tolerance laws now orders b (λ symbol.
          rw (no_orders, no_positions) (unfold amount broker_positions quantity_of get in refl)))
