-- ===== src/Orders/Once.antt =====
-- A fill that the broker reports is in the portfolio once.
use agenthedge.Prelude.{
  ℕ, ◌≡◌, refl, ap, ◌∙◌, Bool, true, false, ◌||◌, none, some, Dict, put, if◌then◌else◌, arith,
  Result, ok, err, get-put, eq_refl,
}
use agenthedge.Floats.{Floats}
use agenthedge.Portfolio.{Portfolio, Fill, StoreError, max_f}
use agenthedge.Broker.{BrokerOrderStatus, signed}
use agenthedge.Orders.{
  OrderRecord, FillEvent, Source, Persisted, persist_new_fill, unseen, or_else_f, persisted_record,
  settle_persist, fill_portfolio, order_record, record_or_new,
}

module _ (fl : Floats) where
  open fl use {F, zero_f, sub_f, le_f, eq_f}

  -- a quantity whose difference with itself is no fill
  abbrev pub NoDifference : F → Type 0
  NoDifference q = le_f (max_f fl zero_f (sub_f q (or_else_f fl (some q) zero_f))) zero_f ≡ true

  -- no fill, and the portfolio as it is
  abbrev pub Quiet : {A : Type 0} → Portfolio F → Result A (Persisted fl) → Type 0
  Quiet st (err e) = ⊥
  Quiet st (ok p) = (p.event ≡ none) × (p.portfolio ≡ st)

  seen-Quiet :
      (now : ℕ) (r : OrderRecord F) (status : BrokerOrderStatus F) (price : F)
      (ledger : Dict (OrderRecord F)) (st : Portfolio F)
      → r.persisted_filled_quantity ≡ status.filled_quantity
      → NoDifference status.filled_quantity
      → Quiet st (persist_new_fill fl now r status price ledger st)
  unfolding persist_new_fill unseen
  seen-Quiet now r status price ledger st e h =
      let k : le_f (unseen fl r status) zero_f ≡ true =
        ap
          (λ q.
            le_f (max_f fl zero_f (sub_f status.filled_quantity (or_else_f fl (some q) zero_f)))
              zero_f)
          e
        ∙ h in
      ground arith

  ledger_of_event :
      (c : Bool) (now : ℕ) (r : OrderRecord F) (status : BrokerOrderStatus F) (price quantity : F)
      (ledger : Dict (OrderRecord F)) (st : Portfolio F)
      (filled : Result StoreError (Fill F) × Portfolio F) (p : Persisted fl) (event : FillEvent F)
      → (if c
          then ok (record { event = none; ledger = ledger; portfolio = st })
          else settle_persist fl now r status price quantity ledger filled)
        ≡ ok p
      → p.event ≡ some event
      → p.ledger ≡ put status.broker_order_id (persisted_record fl now r status) ledger
  ledger_of_event true now r status price quantity ledger st filled p event e h = ground arith
  ledger_of_event false now r status price quantity ledger st (err x, st') p event e h = cc
  ledger_of_event false now r status price quantity ledger st (ok x, st') p event e h = ground arith

  persisted_on_file :
      (later now : ℕ) (r : OrderRecord F) (status : BrokerOrderStatus F) (source : Source F)
      (ledger : Dict (OrderRecord F))
      → (order_record fl later status source none none (
          put status.broker_order_id
            (persisted_record fl now r status)
            ledger)).persisted_filled_quantity
        ≡ status.filled_quantity
  unfolding order_record record_or_new persisted_record
  persisted_on_file later now r status source ledger =
      rw
        (
          get-put status.broker_order_id status.broker_order_id (persisted_record fl now r status)
              ledger,
          eq_refl status.broker_order_id,
        )
        refl

  -- Once a status has led to a fill event, the same status recorded again over the ledger that it left,
  -- with whatever time, source and fallback price, leads to no event, and the portfolio, whatever it has
  -- become, stays as it is. The condition is that the filled quantity less itself is no fill.
  pub persist_new_fill-once :
      (now later : ℕ) (r : OrderRecord F) (status : BrokerOrderStatus F) (price price' : F)
      (source : Source F) (ledger : Dict (OrderRecord F)) (st st' : Portfolio F) (p : Persisted fl)
      → persist_new_fill fl now r status price ledger st ≡ ok p
      → (event : FillEvent F) → p.event ≡ some event
      → NoDifference status.filled_quantity
      → Quiet st' (
          persist_new_fill fl later
            (order_record fl later status source none none p.ledger)
            status
            price'
            p.ledger
            st')
  unfolding persist_new_fill
  persist_new_fill-once now later r status price price' source ledger st st' p done event has h =
      let on_file =
        ledger_of_event
          (le_f (unseen fl r status) zero_f
            || le_f (or_else_f fl status.average_fill_price price) zero_f)
          now r status (or_else_f fl status.average_fill_price price)
          (signed fl status.side (unseen fl r status)) ledger st
          (fill_portfolio fl now status (signed fl status.side (unseen fl r status))
            (or_else_f fl status.average_fill_price price) st)
          p event done has in
      let same =
        ap (λ l. (order_record fl later status source none none l).persisted_filled_quantity)
          on_file
        ∙ persisted_on_file later now r status source ledger in
      seen-Quiet later (order_record fl later status source none none p.ledger) status price'
        p.ledger st' same h
