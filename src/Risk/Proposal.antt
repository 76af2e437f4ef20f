-- ===== src/Risk/Proposal.antt =====
-- `RiskAgent._handle_proposal` (src/agents/impl/risk.py), on the agent's state and a snapshot of the portfolio.
use agenthedge.Prelude.{
  true, false, not, ◌||◌, Option, none, some, [], ◌∷◌, ◌++◌, String, Dict, get, put, is_some,
  if◌then◌else◌, ◌==◌,
}
use Prim.Native.String.{◌++◌ as append}
use agenthedge.Values.{
  Value, null, number, text, array, object, Fields, end, field, Payload, get_value, of_dict,
}
use agenthedge.Floats.{Floats}
use agenthedge.Portfolio.{Portfolio, max_f, nonzero}
use agenthedge.Execution.Checks.{as_float}
use agenthedge.Compliance.{truthy, value_or, dict_of}
use agenthedge.Risk.{
  RiskSettings, RiskState, published, audited, alerted, Outcome, after, nothing_done, price_or,
  symbol_of, observe, feedback, exposure_table, gross_of, nav_of, leverage_of, estimate_var,
}

-- what the handler computes of a proposal
pub record Figures (F : Type 0) : Type 0 where
  pub exposures : Dict F
  pub nav : F
  pub gross : F
  pub leverage : F
  pub notional : F
  pub limit : F
  pub var_amount : F
  pub var_pct : F

pub data Verdict : Type 0 where
  over_notional over_leverage over_var within_limits : Verdict

module _ (fl : Floats) (cfg : RiskSettings (Floats.F fl)) where
  open fl use {F, zero_f, one_f, add_f, mul_f, div_f, abs_f, lt_f}

  unfoldable pub figures : RiskState F → Portfolio F → String → F → F → Figures F
  unfolding exposure_table nav_of leverage_of estimate_var max_f
  figures st snapshot symbol price quantity =
      let exposures = exposure_table fl st.latest_prices snapshot.positions in
      let projected =
        put symbol (add_f (price_or (get symbol exposures) zero_f) (mul_f quantity price))
          exposures in
      let nav = nav_of fl cfg st.latest_prices snapshot in
      let var = estimate_var fl cfg st.history nav projected in
      record {
        exposures = projected;
        nav = nav;
        gross = gross_of fl cfg projected;
        leverage = leverage_of fl cfg nav projected;
        notional = abs_f (mul_f quantity price);
        limit = max_f fl one_f (mul_f snapshot.cash cfg.max_position_pct);
        var_amount = var.0;
        var_pct = var.1;
      }

  -- the three tests, in their order
  unfoldable pub verdict_of : Figures F → Verdict
  verdict_of f =
      if lt_f f.limit f.notional
      then over_notional
      else if lt_f cfg.max_leverage f.leverage
      then over_leverage
      else if lt_f cfg.max_var_pct f.var_pct
      then over_var
      else within_limits

  -- `if strategies: self._emit_strategy_feedback(...)`: a text, a number, true or a dict that is not
  -- empty has no `get` on what it is gone through for, or cannot be gone through
  abbrev pub feedback_of : String → String → Value F → Outcome F
  feedback_of now reason (array items) = feedback now cfg.soft_delta reason items
  feedback_of now reason v = record { acts = []; raised = truthy fl v }

  -- `_reject_with_reason`
  unfoldable pub reject :
      String → Value F → Value F → String → String → Payload F → Value F → Outcome F
  unfolding feedback truthy
  reject now proposal_id decision_id symbol reason extra strategies =
      let payload =
        ("proposal_id", proposal_id)
        ∷ ("decision_id", value_or fl decision_id proposal_id)
        ∷ ("symbol", text symbol)
        ∷ ("reason", text reason)
        ∷ extra in
      after (audited "risk_reject" payload ∷ alerted "risk_reject" payload "error" ∷ [])
        (feedback_of now (append "risk_" reason) strategies)

  -- the stamp of the approval
  abbrev pub stamp : String → Figures F → Value F
  stamp now f = object (
      field "status" (text "approved") (
        field "timestamp" (text now) (
          field "metrics"
            (object (
              field "gross_exposure" (number f.gross)
                (field "leverage" (number f.leverage) (field "var_pct" (number f.var_pct) end))))
            end)))

  -- the exposures with their parts of the net asset value
  unfoldable pub shares : F → Dict F → Fields F
  unfolding nonzero
  shares nav [] = end
  shares nav ((k, v) ∷ exposures) =
      field k
        (object (
          field "value" (number v)
            (field "pct_nav" (number (if nonzero fl nav then div_f v nav else zero_f)) end)))
        (shares nav exposures)

  -- `if key in payload: approval[key] = payload.get(key)`
  abbrev pub carried_over : String → Payload F → Payload F
  carried_over key payload =
      if is_some (get key payload) then (key, get_value key payload) ∷ [] else []

  -- the payload of `risk.approval`
  unfoldable pub approval_of :
      String → Payload F → Value F → String → F → F → Figures F → Payload F → Payload F
  unfolding shares
  approval_of now payload decision_id symbol price quantity f approvals =
      ("proposal_id", get_value "proposal_id" payload)
      ∷ ("decision_id", decision_id)
      ∷ ("symbol", text symbol)
      ∷ ("price", number price)
      ∷ ("quantity", number quantity)
      ∷ ("risk_limit", number f.limit)
      ∷ ("approvals", object (of_dict (put "risk" (stamp now f) approvals)))
      ∷ (
        "risk_metrics",
        object (
            field "nav" (number f.nav) (
              field "gross_exposure" (number f.gross) (
                field "leverage" (number f.leverage) (
                  field "var_pct" (number f.var_pct) (
                    field "var_amount" (number f.var_amount)
                      (field "exposures" (object (shares f.nav f.exposures)) end)))))),
      )
      ∷ (carried_over "strategies" payload ++ carried_over "confidence" payload)

  abbrev pub figures_seen : Figures F → Payload F
  figures_seen f =
      ("nav", number f.nav)
      ∷ ("gross_exposure", number f.gross)
      ∷ ("leverage", number f.leverage)
      ∷ ("var_pct", number f.var_pct)
      ∷ ("var_amount", number f.var_amount)
      ∷ []

  abbrev pub approve :
      String → Payload F → Value F → String → F → F → Figures F → Option (Payload F) → Outcome F
  approve now payload decision_id symbol price quantity f none = record { acts = []; raised = true }
  approve now payload decision_id symbol price quantity f (some approvals) = record {
    acts =
        observe cfg (figures_seen f)
        ++ (published "risk.approval"
              (approval_of now payload decision_id symbol price quantity f approvals)
            ∷ []);
    raised = false;
  }

  abbrev pub carry_out :
      String → Payload F → Value F → String → F → F → Figures F → Verdict → Outcome F
  carry_out now payload decision_id symbol price quantity f over_notional =
      reject now (get_value "proposal_id" payload) decision_id symbol "notional_limit"
        (("notional", number (cfg.round f.notional 2))
          ∷ ("limit", number (cfg.round f.limit 2))
          ∷ [])
        (get_value "strategies" payload)
  carry_out now payload decision_id symbol price quantity f over_leverage =
      reject now (get_value "proposal_id" payload) decision_id symbol "gross_leverage_limit"
        (("projected_leverage", number (cfg.round f.leverage 3)) ∷ []) null
  carry_out now payload decision_id symbol price quantity f over_var =
      reject now (get_value "proposal_id" payload) decision_id symbol "var_limit"
        (("var_pct", number (cfg.round f.var_pct 4))
          ∷ ("var_amount", number (cfg.round f.var_amount 2))
          ∷ [])
        null
  carry_out now payload decision_id symbol price quantity f within_limits =
      approve now payload decision_id symbol price quantity f
        (dict_of fl cfg.dict_of_items (get_value "approvals" payload))

  abbrev pub decision_of : Payload F → Value F
  decision_of payload =
      value_or fl (get_value "decision_id" payload) (get_value "proposal_id" payload)

  abbrev pub handle_fields :
      String
      → RiskState F
      → Portfolio F
      → Payload F
      → Option String
      → Option F
      → Option F
      → Outcome F
  handle_fields now st snapshot payload (some symbol) (some price) (some quantity) =
      if symbol == "" || not (truthy fl (get_value "proposal_id" payload))
      then nothing_done
      else (let f = figures st snapshot symbol price quantity in
          carry_out now payload (decision_of payload) symbol price quantity f (verdict_of f))
  handle_fields now st snapshot payload _ _ _ = nothing_done

  -- `_handle_proposal`, which leaves the state
  unfoldable pub handle_proposal : String → RiskState F → Portfolio F → Payload F → Outcome F
  unfolding figures verdict_of reject approval_of as_float get_value truthy value_or dict_of
  handle_proposal now st snapshot payload =
      handle_fields now st snapshot payload (symbol_of cfg.str (get_value "symbol" payload))
        (as_float fl (get_value "price" payload)) (as_float fl (get_value "quantity" payload))
