-- ===== src/Risk/Tests.antt =====
-- A proposal of five shares, a price that falls, and ticks, on an account of a thousand.
use agenthedge.Prelude.{◌≡◌, true, none, List, [], ◌∷◌, ℤ, pos, negsuc, tally, get, ◌+ℤ◌}
use agenthedge.Floats.{whole_floats}
use agenthedge.Values.{Payload, text}
use agenthedge.Portfolio.{Portfolio}
use agenthedge.Compliance.Tests.{proposal, funds, risk_stamp}
use agenthedge.Risk.{RiskSettings, RiskState}
use agenthedge.Risk.Proposal.{approval_of, figures}
use agenthedge.Risk.Approved.{Approved}
use agenthedge.Risk.Watch.{level_of}
use agenthedge.Risk.StopLoss.{Tick, is_stop, watch_all, watch_all-crossings}

abbrev total : List ℤ → ℤ
total [] = pos 0
total (x ∷ xs) = x +ℤ total xs

abbrev pub limits : RiskSettings ℤ
limits = record {
  str = λ v. "";
  dict_of_items = λ items. none;
  sum = total;
  pvariance = λ xs. pos 0;
  sqrt = λ x. x;
  round = λ x n. x;
  history_window = 60;
  threshold_pct = pos 5;
  max_position_pct = pos 1;
  max_var_pct = pos 1;
  var_lookback = 20;
  var_confidence = pos 1;
  max_drawdown_pct = pos 1;
  drawdown_warning_pct = pos 1;
  nav_hard_stop_pct = pos 1;
  stop_loss_pct = pos 1;
  max_leverage = pos 2;
  stress_loss_threshold_pct = pos 1;
  stress_interval_ticks = 2;
  drawdown_window = 30;
  scenarios = record { name = "drop"; shock_pct = negsuc 1; description = "" } ∷ [];
  observes = true;
  zscores = [];
  default_zscore = pos 2;
  hundred = pos 100;
  soft_delta = pos 0;
  hard_delta = pos 0;
}

abbrev pub calm : RiskState ℤ
calm = record {
  history = [];
  nav_history = [];
  latest_prices = [];
  active_stop_losses = [];
  ticks_since_stress = 0;
}

abbrev pub accepted_proposal : Payload ℤ
accepted_proposal =
    approval_of whole_floats limits "dawn" proposal (text "p1") "SPY" (pos 20) (pos 5)
      (figures whole_floats limits calm funds "SPY" (pos 20) (pos 5)) risk_stamp

abbrev holding : Portfolio ℤ
holding = record {
  cash = pos 1;
  realized_pnl = pos 0;
  positions = ("SPY", record { quantity = pos 5; average_cost = pos 1 }) ∷ [];
  last_updated = 0;
}

abbrev falling : List (Tick ℤ)
falling =
    record { symbol = "SPY"; price = pos 0; portfolio = holding }
    ∷ record { symbol = "SPY"; price = pos 0; portfolio = holding }
    ∷ record { symbol = "SPY"; price = pos 1; portfolio = holding }
    ∷ record { symbol = "SPY"; price = pos 0; portfolio = holding }
    ∷ []

watch_all-crossings_example :
    tally (is_stop "SPY") (watch_all whole_floats limits "noon" calm falling) ≡ 2
unfolding level_of get
watch_all-crossings_example = watch_all-crossings whole_floats limits "SPY" "noon" calm falling
