-- ===== src/Execution/Checks.antt =====
-- The checks of `ExecutionAgent._handle_approval` (src/agents/impl/execution.py) before safety: the fields, the
-- approvals and their expiry, and what they come to.
use agenthedge.Prelude.{
  ℕ, ◌+◌, Bool, false, not, ◌&&◌, Option, none, some, List, String, ltb, if◌then◌else◌, ◌==◌,
}
use agenthedge.Values.{Value, number, boolean, Payload, get_value, as_text, as_dict, nonempty_text}
use agenthedge.Floats.{Floats}
use agenthedge.Message.{contains}
use agenthedge.Broker.{BrokerOrder, buy, sell}
use agenthedge.Safety.{SafetyConfig}

-- the fields that `_handle_approval` reads first
pub record Fields (F : Type 0) : Type 0 where
  pub symbol : String
  pub price : F
  pub quantity : F

-- what the checks of `_handle_approval` come to, before safety
pub data Verdict (F : Type 0) : Type 0 where
  ignore : Verdict F
  refuse : String → Verdict F
  submit : BrokerOrder F → Verdict F

pub record Settings (F : Type 0) : Type 0 where
  pub upper : String → String
  pub lower : String → String
  pub parse_time : String → Option ℕ
  pub clock_skew : ℕ
  pub safety : SafetyConfig F

module _ {F : Type 0} where
  -- an approval entry with the status "approved"
  unfoldable pub is_approved : (String → String) → Value F → Bool
  unfolding as_dict as_text get_value
  is_approved lower v = elim (as_dict v) [
    | none ↦ false
    | some entry ↦ elim (as_text (get_value "status" entry)) [
      | none ↦ false
      | some s ↦ lower s == "approved"
    ]
  ]

  -- `_has_required_approvals`
  unfoldable pub has_required_approvals : (String → String) → Payload F → Bool
  unfolding as_dict get_value
  has_required_approvals lower payload = elim (as_dict (get_value "approvals" payload)) [
    | none ↦ false
    | some approvals ↦
        is_approved lower (get_value "risk" approvals)
        && is_approved lower (get_value "compliance" approvals)
        && is_approved lower (get_value "director" approvals)
  ]

  -- `_is_expired`: what is no time does not expire
  unfoldable pub is_expired : (String → Option ℕ) → ℕ → ℕ → Value F → Bool
  unfolding nonempty_text
  is_expired parse_time clock_skew now v = elim (nonempty_text v) [
    | none ↦ false
    | some s ↦ elim (parse_time s) [
      | none ↦ false
      | some deadline ↦ ltb (deadline + clock_skew) now
    ]
  ]

module _ (fl : Floats) where
  open fl use {F, zero_f, one_f, lt_f, abs_f}

  -- `_as_float`: Python's `bool` is an `int`
  unfoldable pub as_float : Value F → Option F
  as_float (number x) = some x
  as_float (boolean b) = some (if b then one_f else zero_f)
  as_float _ = none

  abbrev pub fields_or_none :
      Option String → Option F → Option F → Option String → Option (Fields F)
  fields_or_none (some symbol) (some price) (some quantity) (some proposal_id) =
      if symbol == ""
      then none
      else some (record { symbol = symbol; price = price; quantity = quantity })
  fields_or_none _ _ _ _ = none

  abbrev pub upper_symbol : (String → String) → Option String → Option String
  upper_symbol upper none = none
  upper_symbol upper (some s) = some (upper s)

  unfoldable pub read_fields : (String → String) → Payload F → Option (Fields F)
  unfolding as_float as_text get_value
  read_fields upper payload =
      fields_or_none (upper_symbol upper (as_text (get_value "symbol" payload)))
        (as_float (get_value "price" payload)) (as_float (get_value "quantity" payload))
        (as_text (get_value "proposal_id" payload))

  -- the price of an order that `_handle_approval` made, which always has one
  abbrev pub price_of : Option F → F
  price_of none = zero_f
  price_of (some p) = p

  unfoldable pub order_of : String → Fields F → BrokerOrder F
  order_of approval_id f = record {
    client_order_id = approval_id;
    symbol = f.symbol;
    quantity = abs_f f.quantity;
    side = if lt_f zero_f f.quantity then buy else sell;
    limit_price = some f.price;
  }

  module _ (cfg : Settings F) where
    unfoldable pub verdict_on : ℕ → List String → Payload F → Fields F → String → Verdict F
    unfolding order_of
    verdict_on now consumed payload f approval_id =
        if contains consumed approval_id
        then refuse "execution_replay_blocked"
        else if not (has_required_approvals cfg.lower payload)
        then refuse "execution_missing_required_approvals"
        else if is_expired cfg.parse_time cfg.clock_skew now (get_value "expires_at" payload)
        then refuse "execution_expired_approval"
        else submit (order_of approval_id f)

    abbrev pub verdict_of_ids :
        ℕ → List String → Payload F → Fields F → Option String → Option String → Verdict F
    verdict_of_ids now consumed payload f none approval = refuse "execution_missing_decision_id"
    verdict_of_ids now consumed payload f (some d) none =
        refuse "execution_missing_director_approval_id"
    verdict_of_ids now consumed payload f (some d) (some a) = verdict_on now consumed payload f a

    abbrev pub verdict_of_fields : ℕ → List String → Payload F → Option (Fields F) → Verdict F
    verdict_of_fields now consumed payload none = ignore
    verdict_of_fields now consumed payload (some f) =
        verdict_of_ids now consumed payload f (nonempty_text (get_value "decision_id" payload))
          (nonempty_text (get_value "director_approval_id" payload))

    unfoldable pub verdict : ℕ → Bool → List String → Payload F → Verdict F
    unfolding verdict_on nonempty_text get_value
    verdict now engaged consumed payload =
        if engaged
        then refuse "execution_blocked_kill_switch"
        else verdict_of_fields now consumed payload (read_fields cfg.upper payload)
