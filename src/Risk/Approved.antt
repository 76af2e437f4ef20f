-- ===== src/Risk/Approved.antt =====
-- What the approval of a proposal has to pass, and that a rejection gives none (src/agents/impl/risk.py).
use agenthedge.Prelude.{◌≡◌, refl, true, false, some, String, Any, All, if◌then◌else◌, ◌==◌}
use Prim.Native.String.{◌++◌ as append}
use agenthedge.Values.{Value, object, text, number, boolean, array, null, Payload, get_value}
use agenthedge.Floats.{Floats}
use agenthedge.Portfolio.{Portfolio, max_f}
use agenthedge.Execution.Checks.{as_float}
use agenthedge.Compliance.{truthy, dict_of}
use agenthedge.Risk.{RiskSettings, RiskState, published, Outcome, symbol_of}
use agenthedge.Risk.Proposal.{figures, reject, feedback_of, approval_of, decision_of}
use agenthedge.Risk.Silent.{NotTopic, absent, feedback-Clear}

module _ (fl : Floats) (cfg : RiskSettings (Floats.F fl)) where
  open fl use {F, one_f, mul_f, abs_f, lt_f}

  -- what an approval has passed, and what it is
  pub record Approved (now : String) (st : RiskState F) (snapshot : Portfolio F)
      (payload c : Payload F) : Type 0 where
    pub symbol : String
    pub price : F
    pub quantity : F
    pub approvals : Payload F
    pub symbol_read : symbol_of cfg.str (get_value "symbol" payload) ≡ some symbol
    pub symbol_given : (symbol == "") ≡ false
    pub price_read : as_float fl (get_value "price" payload) ≡ some price
    pub quantity_read : as_float fl (get_value "quantity" payload) ≡ some quantity
    pub named : truthy fl (get_value "proposal_id" payload) ≡ true
    pub approvals_read :
        dict_of fl cfg.dict_of_items (get_value "approvals" payload) ≡ some approvals
    pub notional_within :
        lt_f
          (if lt_f one_f (mul_f snapshot.cash cfg.max_position_pct)
            then mul_f snapshot.cash cfg.max_position_pct
            else one_f)
          (abs_f (mul_f quantity price))
        ≡ false
    pub leverage_within :
        lt_f cfg.max_leverage (figures fl cfg st snapshot symbol price quantity).leverage ≡ false
    pub var_within :
        lt_f cfg.max_var_pct (figures fl cfg st snapshot symbol price quantity).var_pct ≡ false
    pub made :
        c
        ≡ approval_of fl cfg now payload
            (decision_of fl cfg payload)
            symbol
            price
            quantity
            (figures fl cfg st snapshot symbol price quantity)
            approvals

  -- the notional test, written out
  pub figures-notional :
      (st : RiskState F) (snapshot : Portfolio F) (symbol : String) (price quantity : F)
      → lt_f
          (if lt_f one_f (mul_f snapshot.cash cfg.max_position_pct)
            then mul_f snapshot.cash cfg.max_position_pct
            else one_f)
          (abs_f (mul_f quantity price))
        ≡ (let f = figures fl cfg st snapshot symbol price quantity in lt_f f.limit f.notional)
  unfolding figures max_f
  figures-notional st snapshot symbol price quantity = refl

  -- The payload is published for approval.
  abbrev pub Gives : Payload F → Outcome F → Type 0
  Gives c o = Any (λ a. a ≡ published "risk.approval" c) o.acts

  feedback_of-Clear :
      (now reason : String) (v : Value F)
      → All (NotTopic "risk.approval") (feedback_of fl cfg now reason v).acts
  feedback_of-Clear now reason (array items) = feedback-Clear now cfg.soft_delta reason items
  feedback_of-Clear now reason null = tt
  feedback_of-Clear now reason (boolean b) = tt
  feedback_of-Clear now reason (number x) = tt
  feedback_of-Clear now reason (text s) = tt
  feedback_of-Clear now reason (object fields) = tt

  pub reject-absent :
      (now : String) (proposal_id decision_id : Value F) (symbol reason : String)
      (extra : Payload F) (strategies : Value F) (c : Payload F)
      → Gives c (reject fl cfg now proposal_id decision_id symbol reason extra strategies)
      → ⊥
  unfolding reject
  reject-absent now proposal_id decision_id symbol reason extra strategies c m =
      absent (reject fl cfg now proposal_id decision_id symbol reason extra strategies).acts c
        (tt, (tt, feedback_of-Clear now (append "risk_" reason) strategies)) m
