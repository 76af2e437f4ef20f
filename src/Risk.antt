-- ===== src/Risk.antt =====
-- `RiskAgent` (src/agents/impl/risk.py): its settings and state, and the exposures, the net asset value and the
-- value at risk that it computes. `sum`, `pvariance`, `sqrt`, `round` and `str` are parameters.
pub mod Proposal
pub mod Watch
pub mod Stress
mod Silent
pub mod Approved
pub mod Limits
pub mod StopLoss
pub mod Tests
use agenthedge.Prelude.{
  ℕ, ◌+◌, Bool, true, false, not, ◌||◌, Option, none, some, List, [], ◌∷◌, ◌++◌, String, Dict, get,
  values, map, if◌then◌else◌, ◌==◌, length, last_n, ltb, min,
}
use Prim.Native.String.{◌++◌ as append}
use agenthedge.Values.{
  Value, null, boolean, number, text, array, object, Items, nil, cons, Payload, get_value, as_text,
  to_dict,
}
use agenthedge.Floats.{Floats}
use agenthedge.Portfolio.{Position, Portfolio, max_f, nonzero}

pub record Scenario (F : Type 0) : Type 0 where
  pub name : String
  pub shock_pct : F
  pub description : String

pub record RiskSettings (F : Type 0) : Type 0 where
  -- `str(value)` of a value that is not a text
  pub str : Value F → String
  -- `dict(items)` of a list, which raises unless it holds pairs
  pub dict_of_items : Items F → Option (Payload F)
  pub sum : List F → F
  pub pvariance : List F → F
  pub sqrt : F → F
  pub round : F → ℕ → F
  pub history_window : ℕ
  pub threshold_pct : F
  pub max_position_pct : F
  pub max_var_pct : F
  pub var_lookback : ℕ
  pub var_confidence : F
  pub max_drawdown_pct : F
  pub drawdown_warning_pct : F
  pub nav_hard_stop_pct : F
  pub stop_loss_pct : F
  pub max_leverage : F
  pub stress_loss_threshold_pct : F
  pub stress_interval_ticks : ℕ
  pub drawdown_window : ℕ
  pub scenarios : List (Scenario F)
  -- whether there is an observability state to update
  pub observes : Bool
  -- the literals: the table of z-scores with its default, 100, -0.2 and -0.5
  pub zscores : List (F × F)
  pub default_zscore : F
  pub hundred : F
  pub soft_delta : F
  pub hard_delta : F

pub record RiskState (F : Type 0) : Type 0 where
  pub history : Dict (List F)
  pub nav_history : List F
  pub latest_prices : Dict F
  pub active_stop_losses : List String
  pub ticks_since_stress : ℕ

-- what a handler does, in order; logging and metrics are left out
pub data Act (F : Type 0) : Type 0 where
  published : String → Payload F → Act F
  audited : String → Payload F → Act F
  -- an alert, with its severity
  alerted : String → Payload F → String → Act F
  -- an update of the observability state
  observed : Payload F → Act F

-- what has been done, and whether the handler then raised
pub record Outcome (F : Type 0) : Type 0 where
  pub acts : List (Act F)
  pub raised : Bool

module _ {F : Type 0} where
  abbrev pub after : List (Act F) → Outcome F → Outcome F
  after acts o = record { acts = acts ++ o.acts; raised = o.raised }

  abbrev pub nothing_done : Outcome F
  nothing_done = record { acts = []; raised = false }

  -- the last item but one, and the last
  unfoldable pub last_two : List F → Option (F × F)
  last_two [] = none
  last_two (a ∷ []) = none
  last_two (a ∷ b ∷ []) = some (a, b)
  last_two (a ∷ b ∷ c ∷ xs) = last_two (b ∷ c ∷ xs)

  -- `str(raw_symbol) if raw_symbol is not None else None`
  abbrev pub symbol_of : (Value F → String) → Value F → Option String
  symbol_of str null = none
  symbol_of str (text s) = some s
  symbol_of str v = some (str v)

  abbrev pub price_or : Option F → F → F
  price_or none other = other
  price_or (some p) other = p

  abbrev pub history_or : Option (List F) → List F
  history_or none = []
  history_or (some xs) = xs

  -- `_update_observability`, of the fields that are not None
  abbrev pub observe : RiskSettings F → Payload F → List (Act F)
  observe cfg payload = if cfg.observes then observed payload ∷ [] else []

  -- one entry of `_emit_strategy_feedback`; none if `entry.get` raises
  unfoldable pub feedback_entry : String → F → String → Value F → Option (List (Act F))
  feedback_entry now delta reason (object entry) =
      elim (as_text (get_value "strategy" (to_dict entry))) [
        | none ↦ some []
        | some name ↦
            if name == ""
            then some []
            else (let payload =
                  ("strategy", text name)
                  ∷ ("delta", number delta)
                  ∷ ("reason", text reason)
                  ∷ ("timestamp", text now)
                  ∷ [] in
                some (
                  published "strategy.feedback" payload ∷ audited "strategy_feedback" payload ∷ []))
      ]
  feedback_entry now delta reason _ = none

  unfoldable pub feedback : String → F → String → Items F → Outcome F
  unfolding feedback_entry
  feedback now delta reason nil = nothing_done
  feedback now delta reason (cons v items) =
      let rest = feedback now delta reason items in
      elim (feedback_entry now delta reason v) [
        | none ↦ record { acts = []; raised = true }
        | some acts ↦ after acts rest
      ]

module _ (fl : Floats) where
  open fl use {F, zero_f, one_f, add_f, sub_f, mul_f, div_f, abs_f, le_f, eq_f}

  -- `_build_exposure_table`
  unfoldable pub exposure_table : Dict F → Dict (Position F) → Dict F
  exposure_table latest [] = []
  exposure_table latest ((k, p) ∷ ps) =
      (k, mul_f p.quantity (price_or (get k latest) p.average_cost)) ∷ exposure_table latest ps

  -- the changes from each price to the next, where the price is not zero
  unfoldable pub changes : List F → List F
  unfolding nonzero
  changes [] = []
  changes (a ∷ []) = []
  changes (a ∷ b ∷ xs) =
      let rest = changes (b ∷ xs) in if nonzero fl a then div_f (sub_f b a) a ∷ rest else rest

  abbrev pub zscore_for : F → List (F × F) → F → F
  zscore_for confidence [] default = default
  zscore_for confidence ((c, z) ∷ table) default =
      if eq_f c confidence then z else zscore_for confidence table default

  module _ (cfg : RiskSettings F) where
    -- `_var_zscore`
    unfoldable pub var_zscore : F
    var_zscore = zscore_for (cfg.round cfg.var_confidence 3) cfg.zscores cfg.default_zscore

    abbrev pub gross_of : Dict F → F
    gross_of exposures = cfg.sum (map abs_f (values exposures))

    -- `_nav_from_snapshot`
    unfoldable pub nav_of : Dict F → Portfolio F → F
    unfolding exposure_table
    nav_of latest snapshot =
        add_f snapshot.cash (cfg.sum (values (exposure_table latest snapshot.positions)))

    -- `max(nav, 1.0)`
    abbrev pub safe : F → F
    safe nav = max_f fl nav one_f

    -- `_compute_leverage`
    unfoldable pub leverage_of : F → Dict F → F
    unfolding max_f
    leverage_of nav exposures = div_f (gross_of exposures) (safe nav)

    -- `_symbol_returns`
    unfoldable pub symbol_returns : String → Dict (List F) → List F
    unfolding changes
    symbol_returns symbol history =
        let prices = history_or (get symbol history) in
        if ltb (length prices) 2
        then []
        else changes (last_n (min (length prices) (cfg.var_lookback + 1)) prices)

    -- the loop of `_estimate_portfolio_var`
    unfoldable pub variance_of : Dict (List F) → F → Dict F → F → F
    unfolding symbol_returns nonzero
    variance_of history safe_nav [] variance = variance
    variance_of history safe_nav ((k, v) ∷ exposures) variance =
        let returns = symbol_returns k history in
        let weight = div_f v safe_nav in
        variance_of history safe_nav exposures (
          if not (nonzero fl safe_nav) || ltb (length returns) 2
          then variance
          else add_f variance (mul_f (mul_f weight weight) (cfg.pvariance returns)))

    -- `_estimate_portfolio_var`: the amount and the part of the net asset value
    unfoldable pub estimate_var : Dict (List F) → F → Dict F → F × F
    unfolding variance_of var_zscore max_f
    estimate_var history nav exposures =
        let safe_nav = safe nav in
        let variance = variance_of history safe_nav exposures zero_f in
        if le_f variance zero_f
        then (zero_f, zero_f)
        else (let amount = mul_f (mul_f var_zscore (cfg.sqrt variance)) safe_nav in
            (amount, div_f amount safe_nav))
