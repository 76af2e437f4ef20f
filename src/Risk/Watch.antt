-- ===== src/Risk/Watch.antt =====
-- `RiskAgent._handle_snapshot` (src/agents/impl/risk.py): price histories, stop losses, the history of the net
-- asset value with its hard stop and drawdown, and the volatility alert.
use agenthedge.Prelude.{
  Bool, false, not, ◌&&◌, Option, none, some, List, [], ◌∷◌, ◌++◌, String, Dict, get, put, keep_if,
  length, last_n, leb, min, if◌then◌else◌, ◌==◌,
}
use agenthedge.Values.{array, text, number, Payload, get_value}
use agenthedge.Floats.{Floats}
use agenthedge.Portfolio.{Position, Portfolio, max_f, nonzero}
use agenthedge.Message.{contains}
use agenthedge.Execution.Checks.{as_float}
use agenthedge.Risk.{
  RiskSettings, RiskState, Act, published, audited, alerted, Outcome, after, nothing_done,
  history_or, symbol_of, observe, feedback, last_two, nav_of,
}

-- the symbol's price against its position: no word on it, a recovery or a loss beyond the stop
pub data Level (F : Type 0) : Type 0 where
  unknown : Level F
  recovered : Level F
  breached : F → Level F

module _ (fl : Floats) (cfg : RiskSettings (Floats.F fl)) where
  open fl use {F, zero_f, one_f, add_f, sub_f, mul_f, div_f, neg_f, abs_f, lt_f, le_f, eq_f}

  -- `_emit_kill_switch`
  unfoldable pub kill_switch : String → String → Payload F → Outcome F
  unfolding feedback get_value
  kill_switch now reason details =
      let payload = ("reason", text reason) ∷ details in
      after
        (published "risk.kill_switch" payload
          ∷ alerted "risk_kill_switch" payload "critical"
          ∷ audited "risk_kill_switch" payload
          ∷ [])
        (elim (get_value "strategies" details) [
          | array items ↦ feedback now cfg.hard_delta reason items
          | v ↦ nothing_done
        ])

  -- what the tests of `_check_stop_loss` come to
  unfoldable pub level_of : F → Option (Position F) → Level F
  level_of price none = recovered
  level_of price (some p) =
      if eq_f p.quantity zero_f
      then recovered
      else if le_f p.average_cost zero_f
      then unknown
      else (let direction = if lt_f zero_f p.quantity then one_f else neg_f one_f in
          let move_pct =
            mul_f (mul_f (div_f (sub_f price p.average_cost) p.average_cost) cfg.hundred)
              direction in
          if le_f move_pct (neg_f (mul_f cfg.stop_loss_pct cfg.hundred))
          then breached move_pct
          else recovered)

  abbrev pub stop_loss : String → F → Position F → F → List (Act F)
  stop_loss symbol price p move_pct =
      let payload =
        ("symbol", text symbol)
        ∷ ("price", number price)
        ∷ ("average_cost", number p.average_cost)
        ∷ ("quantity", number p.quantity)
        ∷ ("loss_pct", number move_pct)
        ∷ [] in
      published "risk.stop_loss" payload
      ∷ alerted "risk_stop_loss" payload "error"
      ∷ audited "risk_stop_loss" payload
      ∷ []

  abbrev pub discard : String → List String → List String
  discard symbol active = keep_if (λ k. not (k == symbol)) active

  abbrev pub position_at : Option (Position F) → Position F
  position_at none = record { quantity = zero_f; average_cost = zero_f }
  position_at (some p) = p

  abbrev pub act_on :
      String → F → Option (Position F) → List String → Level F → List String × List (Act F)
  act_on symbol price p active unknown = (active, [])
  act_on symbol price p active recovered = (discard symbol active, [])
  act_on symbol price p active (breached move_pct) =
      if contains active symbol
      then (active, [])
      else (symbol ∷ active, stop_loss symbol price (position_at p) move_pct)

  -- `_check_stop_loss`, on the set of the active stop losses
  unfoldable pub check_stop_loss :
      String → F → Dict (Position F) → List String → List String × List (Act F)
  unfolding level_of
  check_stop_loss symbol price positions active =
      act_on symbol price (get symbol positions) active (level_of price (get symbol positions))

  unfoldable pub peak_of : F → List F → F
  unfolding max_f
  peak_of best [] = best
  peak_of best (x ∷ xs) = peak_of (max_f fl best x) xs

  abbrev pub peak : List F → F
  peak [] = zero_f
  peak (x ∷ xs) = peak_of x xs

  -- the alerts of a drawdown
  abbrev pub drawdown_alerts : F → F → List (Act F)
  drawdown_alerts nav drawdown_pct =
      let payload = ("drawdown_pct", number drawdown_pct) ∷ ("nav", number nav) ∷ [] in
      if le_f cfg.max_drawdown_pct (abs_f drawdown_pct)
      then alerted "risk_drawdown_warning" payload "warning" ∷ []
      else if le_f cfg.drawdown_warning_pct (abs_f drawdown_pct)
      then alerted "risk_drawdown_soft" payload "info" ∷ []
      else []

  unfoldable pub drawdown : F → F → List (Act F)
  unfolding nonzero
  drawdown nav peak =
      if nonzero fl peak
      then (let drawdown_pct = div_f (sub_f nav peak) peak in
          observe cfg (("nav", number nav) ∷ ("drawdown_pct", number drawdown_pct) ∷ [])
          ++ drawdown_alerts nav drawdown_pct)
      else []

  unfoldable pub is_hard_stop : F → F → Bool
  unfolding nonzero
  is_hard_stop prev nav =
      nonzero fl prev && le_f (div_f (sub_f nav prev) prev) (neg_f cfg.nav_hard_stop_pct)

  abbrev pub judge_nav : String → F → List F → Option (F × F) → Outcome F
  judge_nav now nav history none = nothing_done
  judge_nav now nav history (some (prev, last)) =
      if is_hard_stop prev nav
      then kill_switch now "daily_loss_hard_stop"
          (("daily_change_pct", number (div_f (sub_f nav prev) prev)) ∷ ("nav", number nav) ∷ [])
      else record { acts = drawdown nav (peak history); raised = false }

  -- `_update_nav_history`, with the new history
  unfoldable pub update_nav : String → F → List F → List F × Outcome F
  unfolding is_hard_stop kill_switch drawdown peak_of last_two
  update_nav now nav old =
      let history = last_n cfg.drawdown_window (old ++ (nav ∷ [])) in
      (history, judge_nav now nav history (last_two history))

  abbrev pub change_of : F → F → F
  change_of prev latest =
      if nonzero fl prev then mul_f (div_f (sub_f latest prev) prev) cfg.hundred else zero_f

  -- the volatility alert, of the history with the latest price
  abbrev pub volatility : String → List F → Option (F × F) → List (Act F)
  volatility symbol history none = []
  volatility symbol history (some (prev, latest)) =
      let change_pct = change_of prev latest in
      let payload =
        ("symbol", text symbol) ∷ ("change_pct", number (cfg.round change_pct 2)) ∷ [] in
      if leb (min 5 cfg.history_window) (length history)
        && le_f cfg.threshold_pct (abs_f change_pct)
      then audited "risk_alert" payload ∷ alerted "risk_alert" payload "warning" ∷ []
      else []

  -- the handler for a symbol with a price
  unfoldable pub watch : String → RiskState F → Portfolio F → String → F → RiskState F × Outcome F
  unfolding check_stop_loss update_nav nav_of last_two nonzero
  watch now st snapshot symbol latest_close =
      let history =
        last_n cfg.history_window (history_or (get symbol st.history) ++ (latest_close ∷ [])) in
      let latest = put symbol latest_close st.latest_prices in
      let stop = check_stop_loss symbol latest_close snapshot.positions st.active_stop_losses in
      let nav = update_nav now (nav_of fl cfg latest snapshot) st.nav_history in
      (
        record st {
          history = put symbol history st.history;
          nav_history = nav.0;
          latest_prices = latest;
          active_stop_losses = stop.0;
        },
        after stop.1 (
            if nav.1.raised then nav.1 else record {
              acts = nav.1.acts ++ volatility symbol history (last_two history);
              raised = false;
            }),
      )

  abbrev pub watch_fields :
      String → RiskState F → Portfolio F → Option String → Option F → RiskState F × Outcome F
  watch_fields now st snapshot (some symbol) (some latest_close) =
      if symbol == "" then (st, nothing_done) else watch now st snapshot symbol latest_close
  watch_fields now st snapshot _ _ = (st, nothing_done)

  -- `_handle_snapshot`
  unfoldable pub handle_snapshot :
      String → RiskState F → Portfolio F → Payload F → RiskState F × Outcome F
  unfolding watch as_float get_value
  handle_snapshot now st snapshot payload =
      watch_fields now st snapshot (symbol_of cfg.str (get_value "symbol" payload))
        (as_float fl (get_value "latest_close" payload))
