-- ===== src/Compliance.antt =====
-- `ComplianceAgent._handle_risk_approval` (src/agents/impl/compliance.py): a proposal that risk has
-- approved. The settings are those that `__init__` reads; `str.upper`, `str.lower`, substring and
-- `dict()` of a list are parameters.

pub mod Outcomes
pub mod Tests
use agenthedge.Prelude.{
  ℕ, Bool, true, false, not, ◌&&◌, ◌||◌, Option, none, some, List, [], ◌∷◌, ◌++◌, String, get, put,
  any, if◌then◌else◌, ◌==◌, Result, ok, err,
}
use Prim.Native.String.{◌++◌ as append}
use agenthedge.Values.{
  Value, null, boolean, number, text, array, object, Items, nil, cons, Fields, end, field, Payload,
  get_value, as_text, to_dict, of_dict,
}
use agenthedge.Floats.{Floats}
use agenthedge.Message.{contains}
use agenthedge.Portfolio.{Position, Portfolio, max_f, quantity_of}
use agenthedge.Execution.Checks.{as_float, upper_symbol}

pub record ComplianceSettings (F : Type 0) : Type 0 where
  pub upper : String → String
  pub lower : String → String
  -- `keyword in token`
  pub occurs_in : String → String → Bool
  -- `dict(items)` of a list, which raises unless it holds pairs
  pub dict_of_items : Items F → Option (Payload F)
  pub restricted : List String
  pub prohibited_keywords : List String
  -- the set of flags, in the order in which it is gone through
  pub insider_flags : List String
  pub max_position_pct : F
  -- the literals -0.2 and -0.3
  pub soft_delta : F
  pub hard_delta : F

-- what the handler does, in order; metrics are left out
pub data Act (F : Type 0) : Type 0 where
  published : String → Payload F → Act F
  audited : String → Payload F → Act F
  -- an alert, with its severity
  alerted : String → Payload F → String → Act F
  -- `increment_compliance`
  counted : Bool → Act F

-- what has been done, and whether the handler then raised
pub record Outcome (F : Type 0) : Type 0 where
  pub acts : List (Act F)
  pub raised : Bool

module _ {F : Type 0} where
  unfoldable mutual
    -- `_normalize_field`
    pub normalize_field : (String → String) → Value F → List String
    normalize_field lower (text s) = lower s ∷ []
    normalize_field lower (object fields) = normalize_values lower fields
    normalize_field lower (array items) = normalize_items lower items
    normalize_field lower null = []
    normalize_field lower (boolean b) = []
    normalize_field lower (number x) = []

    pub normalize_items : (String → String) → Items F → List String
    normalize_items lower nil = []
    normalize_items lower (cons v items) = normalize_field lower v ++ normalize_items lower items

    pub normalize_values : (String → String) → Fields F → List String
    normalize_values lower end = []
    normalize_values lower (field k v fields) =
        normalize_field lower v ++ normalize_values lower fields

  -- `_extract_text_tokens`, of the fields given
  unfoldable pub tokens_of : (String → String) → List String → Payload F → List String
  tokens_of lower [] payload = []
  tokens_of lower (k ∷ keys) payload =
      normalize_field lower (get_value k payload) ++ tokens_of lower keys payload

abbrev pub text_fields : List String
text_fields = "tactic" ∷ "strategy" ∷ "strategy_tags" ∷ "notes" ∷ "thesis" ∷ "rationale" ∷ []

module _ (fl : Floats) where
  open fl use {F, zero_f, one_f, add_f, mul_f, div_f, abs_f, lt_f, eq_f}

  -- `bool(value)`
  unfoldable pub truthy : Value F → Bool
  truthy null = false
  truthy (boolean b) = b
  truthy (number x) = not (eq_f x zero_f)
  truthy (text s) = not (s == "")
  truthy (array nil) = false
  truthy (array (cons v items)) = true
  truthy (object end) = false
  truthy (object (field k v fields)) = true

  -- `value or other`
  unfoldable pub value_or : Value F → Value F → Value F
  unfolding truthy
  value_or v other = if truthy v then v else other

  -- `dict(value or {})`
  unfoldable pub dict_of : (Items F → Option (Payload F)) → Value F → Option (Payload F)
  unfolding truthy to_dict
  dict_of dict_of_items (object fields) = some (to_dict fields)
  dict_of dict_of_items (array items) =
      if truthy (array items) then dict_of_items items else some []
  dict_of dict_of_items v = if truthy v then none else some []

  module _ (cfg : ComplianceSettings F) where
    -- the first keyword that stands in a token
    unfoldable pub first_keyword : List String → List String → Option String
    first_keyword tokens [] = none
    first_keyword tokens (k ∷ keywords) =
        if not (k == "") && any (λ t. cfg.occurs_in k t) tokens
        then some (append "prohibited_tactic:" k)
        else first_keyword tokens keywords

    unfoldable pub first_flag : Payload F → List String → Option String
    unfolding truthy
    first_flag payload [] = none
    first_flag payload (f ∷ flags) =
        if truthy (get_value f payload)
        then some (append "insider_indicator:" f)
        else first_flag payload flags

    -- `_detect_prohibited_behavior`
    unfoldable pub detect_prohibited : Payload F → Option String
    unfolding first_keyword first_flag tokens_of
    detect_prohibited payload =
        elim (first_keyword (tokens_of cfg.lower text_fields payload) cfg.prohibited_keywords) [
          | some reason ↦ some reason
          | none ↦ first_flag payload cfg.insider_flags
        ]

    -- one entry of `_emit_strategy_feedback`; none if `entry.get` raises
    unfoldable pub feedback_entry : String → F → String → Value F → Option (List (Act F))
    feedback_entry now delta reason (object entry) =
        elim (as_text (get_value "strategy" (to_dict entry))) [
          | none ↦ some []
          | some name ↦
              if name == ""
              then some []
              else (let payload =
                    ("strategy", text name)
                    ∷ ("delta", number delta)
                    ∷ ("reason", text (append "compliance_" reason))
                    ∷ ("timestamp", text now)
                    ∷ [] in
                  some (
                    published "strategy.feedback" payload
                    ∷ audited "strategy_feedback" payload
                    ∷ []))
        ]
    feedback_entry now delta reason _ = none

    unfoldable pub feedback : String → F → String → Items F → Outcome F
    unfolding feedback_entry
    feedback now delta reason nil = record { acts = []; raised = false }
    feedback now delta reason (cons v items) =
        let rest = feedback now delta reason items in
        elim (feedback_entry now delta reason v) [
          | none ↦ record { acts = []; raised = true }
          | some acts ↦ record { acts = acts ++ rest.acts; raised = rest.raised }
        ]

    -- `if strategies: self._emit_strategy_feedback(...)`
    abbrev pub feedback_of : String → F → String → Value F → Outcome F
    feedback_of now delta reason (array items) = feedback now delta reason items
    feedback_of now delta reason _ = record { acts = []; raised = false }

    -- what the handler decides about a proposal that it can read
    pub data Decision : Type 0 where
      rejected : String → Decision
      prohibited : String → Decision
      accepted : F → Decision

    unfoldable pub holdings : List (String × Position F) → F → F
    holdings [] total = total
    holdings ((_, p) ∷ ps) total =
        holdings ps (add_f total (abs_f (mul_f p.quantity p.average_cost)))

    -- the net asset value, at least one
    unfoldable pub nav : Portfolio F → F
    unfolding holdings max_f
    nav st = max_f fl (add_f st.cash (holdings st.positions zero_f)) one_f

    -- the part of the net asset value that the position would have
    unfoldable pub concentration : Portfolio F → F → F → F
    unfolding nav
    concentration st projected price = div_f (abs_f (mul_f projected price)) (nav st)

    unfoldable pub decide : Portfolio F → Payload F → String → F → F → Decision
    unfolding detect_prohibited concentration
    decide st payload symbol price quantity =
        let projected = add_f (quantity_of fl symbol st.positions) quantity in
        if contains cfg.restricted symbol
        then rejected "restricted_symbol"
        else elim (detect_prohibited payload) [
          | some reason ↦ prohibited reason
          | none ↦
              if lt_f cfg.max_position_pct (concentration st projected price)
              then rejected "concentration_limit"
              else accepted projected
        ]

    -- `payload.get("decision_id") or proposal_id`
    abbrev pub decision_of : Payload F → Value F
    decision_of payload =
        value_or (get_value "decision_id" payload) (get_value "proposal_id" payload)

    abbrev pub refusal : Payload F → String → String → Payload F
    refusal payload symbol reason =
        ("proposal_id", get_value "proposal_id" payload)
        ∷ ("decision_id", decision_of payload)
        ∷ ("symbol", text symbol)
        ∷ ("reason", text reason)
        ∷ []

    abbrev pub approved_at : String → Value F
    approved_at now = object (field "status" (text "approved") (field "timestamp" (text now) end))

    -- the payload of `compliance.approval`
    unfoldable pub approval_of : String → Payload F → F → Payload F → Payload F
    approval_of now payload projected approvals =
        put "approvals" (object (of_dict (put "compliance" (approved_at now) approvals))) (
          put "decision_id" (decision_of payload)
            (put "projected_quantity" (number projected) payload))

    abbrev pub approve : String → Payload F → F → Option (Payload F) → Outcome F
    approve now payload projected none = record { acts = []; raised = true }
    approve now payload projected (some approvals) = record {
      acts =
          published "compliance.approval" (approval_of now payload projected approvals)
          ∷ counted true
          ∷ [];
      raised = false;
    }

    abbrev pub after : List (Act F) → Outcome F → Outcome F
    after acts o = record { acts = acts ++ o.acts; raised = o.raised }

    abbrev pub carry_out : String → Payload F → String → Decision → Outcome F
    carry_out now payload symbol (rejected reason) =
        after
          (audited "compliance_reject" (refusal payload symbol reason)
            ∷ alerted "compliance_reject" (refusal payload symbol reason) "error"
            ∷ counted false
            ∷ [])
          (feedback_of now cfg.soft_delta reason (get_value "strategies" payload))
    carry_out now payload symbol (prohibited reason) =
        after
          (published "compliance.kill_switch" (refusal payload symbol reason)
            ∷ audited "compliance_reject" (refusal payload symbol reason)
            ∷ alerted "compliance_reject" (refusal payload symbol reason) "critical"
            ∷ counted false
            ∷ [])
          (feedback_of now cfg.hard_delta reason (get_value "strategies" payload))
    carry_out now payload symbol (accepted projected) =
        approve now payload projected (dict_of cfg.dict_of_items (get_value "approvals" payload))

    abbrev pub handle_fields :
        String → Portfolio F → Payload F → Option String → Option F → Option F → Outcome F
    handle_fields now st payload (some symbol) (some price) (some quantity) =
        if symbol == "" || not (truthy (get_value "proposal_id" payload))
        then record { acts = []; raised = false }
        else carry_out now payload symbol (decide st payload symbol price quantity)
    handle_fields now st payload _ _ _ = record { acts = []; raised = false }

    unfoldable pub handle_risk_approval : String → Portfolio F → Payload F → Outcome F
    unfolding decide truthy as_float as_text get_value value_or dict_of approval_of feedback
    handle_risk_approval now st payload =
        handle_fields now st payload
          (upper_symbol fl cfg.upper (as_text (get_value "symbol" payload)))
          (as_float fl (get_value "price" payload)) (as_float fl (get_value "quantity" payload))
