-- ===== src/Performance.antt =====
-- `PerformanceTracker` (src/learning/performance.py). `round(x, 4)` and the constants that are no whole
-- numbers are parameters; the JSON file holds what memory holds.
pub mod Weights
mod Tests
use agenthedge.Prelude.{
  ℕ, ◌+◌, Bool, true, false, Option, none, some, List, [], ◌∷◌, String, Dict, get, put, length,
  if◌then◌else◌, ◌==◌, leb, ltb,
}
use agenthedge.Values.{
  Value, null, boolean, number, text, array, object, Items, nil, cons, Payload, get_value,
  nonempty_text, to_dict,
}
use agenthedge.Floats.{Floats}
use agenthedge.Portfolio.{min_f, max_f}

pub record Stats (F : Type 0) : Type 0 where
  pub trades : ℕ
  pub wins : ℕ
  pub losses : ℕ
  pub realized_pnl : F
  pub avg_confidence : F
  pub penalties : ℕ
  pub weight : F
  pub last_updated : ℕ

pub record Tracker (F : Type 0) : Type 0 where
  pub strategies : Dict (Stats F)
  pub last_realized_pnl : Option F

module _ (fl : Floats) where
  open fl use {F, zero_f, one_f, add_f, sub_f, mul_f, div_f, lt_f, eq_f}

  -- `float(n)` of a count, `round(x, 4)`, and the literals of the weight
  pub record Scale : Type 0 where
    pub of_count : ℕ → F
    pub round4 : F → F
    -- 0.1 and 2.5
    pub lowest : F
    pub highest : F
    -- 0.5 and -0.5
    pub half : F
    pub minus_half : F
    pub forty : F
    pub ten_thousand : F
    pub tenth : F

  module _ (sc : Scale) where
    open sc use {of_count, round4}

    unfoldable pub default_stats : ℕ → Stats F
    default_stats now = record {
      trades = 0;
      wins = 0;
      losses = 0;
      realized_pnl = zero_f;
      avg_confidence = zero_f;
      penalties = 0;
      weight = one_f;
      last_updated = now;
    }

    -- `round(max(0.1, min(2.5, x)), 4)`
    unfoldable pub clamp_weight : F → F
    unfolding max_f min_f
    clamp_weight x = round4 (max_f fl sc.lowest (min_f fl sc.highest x))

    -- `_rolling_average`; `max(1, count)` is the count where it is positive
    unfoldable pub rolling_average : F → ℕ → F → F
    rolling_average previous count new_value =
        if leb count 0
        then zero_f
        else add_f previous (div_f (sub_f new_value previous) (of_count count))

    -- `_recompute_weight`
    unfoldable pub recompute_weight : Stats F → F
    unfolding clamp_weight
    recompute_weight s =
        let trade_bonus = min_f fl sc.half (div_f (of_count s.trades) sc.forty) in
        let pnl_bonus =
          max_f fl sc.minus_half (min_f fl sc.half (div_f s.realized_pnl sc.ten_thousand)) in
        let penalty_drag = min_f fl sc.half (mul_f (of_count s.penalties) sc.tenth) in
        clamp_weight (sub_f (add_f (add_f s.avg_confidence trade_bonus) pnl_bonus) penalty_drag)

    abbrev pub stats_or_new : ℕ → Option (Stats F) → Stats F
    stats_or_new now none = default_stats now
    stats_or_new now (some s) = s

    -- one strategy's part of a fill
    unfoldable pub scored : ℕ → F → F → Stats F → Stats F
    unfolding rolling_average recompute_weight
    scored now share_delta confidence s =
        let counted = record s {
          trades = s.trades + 1;
          wins = if lt_f zero_f share_delta then s.wins + 1 else s.wins;
          losses =
              if lt_f zero_f share_delta
              then s.losses
              else if lt_f share_delta zero_f
              then s.losses + 1
              else s.losses;
          realized_pnl = add_f s.realized_pnl share_delta;
          avg_confidence = rolling_average s.avg_confidence (s.trades + 1) confidence;
          last_updated = now;
        } in
        record counted { weight = recompute_weight counted }

    -- `isinstance(value, (int, float))`, with the float
    abbrev pub number_of : Value F → Option F
    number_of (number x) = some x
    number_of (boolean b) = some (if b then one_f else zero_f)
    number_of _ = none

    abbrev pub number_or_zero : Option F → F
    number_or_zero none = zero_f
    number_or_zero (some x) = x

    abbrev pub score_entry : ℕ → F → Option String → F → Dict (Stats F) → Dict (Stats F)
    score_entry now share_delta none confidence d = d
    score_entry now share_delta (some name) confidence d =
        put name (scored now share_delta confidence (stats_or_new now (get name d))) d

    -- the loop over the entries, each of which is a dict
    unfoldable pub score_all : ℕ → F → List (Payload F) → Dict (Stats F) → Dict (Stats F)
    unfolding scored default_stats nonempty_text get_value
    score_all now share_delta [] d = d
    score_all now share_delta (entry ∷ entries) d = score_all now share_delta entries (
        score_entry now share_delta (nonempty_text (get_value "strategy" entry))
          (number_or_zero (number_of (get_value "confidence" entry))) d)

    abbrev pub pnl_delta : Option F → Option F → F
    pnl_delta none last = zero_f
    pnl_delta (some realized_pnl) none = zero_f
    pnl_delta (some realized_pnl) (some last) = sub_f realized_pnl last

    abbrev pub or_last : Option F → Option F → Option F
    or_last none last = last
    or_last (some x) last = some x

    -- `record_fill`, given the strategies of the fill and the portfolio's realized profit
    unfoldable pub record_fill : ℕ → List (Payload F) → Value F → Tracker F → Tracker F
    unfolding score_all
    record_fill now [] realized_pnl t = t
    record_fill now (e ∷ es) realized_pnl t =
        let share_delta =
          div_f (pnl_delta (number_of realized_pnl) t.last_realized_pnl)
            (of_count (length (e ∷ es))) in
        record {
          strategies = score_all now share_delta (e ∷ es) t.strategies;
          last_realized_pnl = or_last (number_of realized_pnl) t.last_realized_pnl;
        }

    unfoldable pub adjusted : ℕ → F → Stats F → Stats F
    unfolding clamp_weight
    adjusted now delta s = record s {
      penalties = if lt_f delta zero_f then s.penalties + 1 else s.penalties;
      weight = clamp_weight (add_f s.weight delta);
      last_updated = now;
    }

    -- `apply_feedback`; the `last_feedback` entry, which is only shown, is left out
    unfoldable pub apply_feedback : ℕ → String → F → Tracker F → Tracker F
    unfolding adjusted
    apply_feedback now strategy delta t = if strategy == "" then t else record t {
      strategies =
          put strategy (adjusted now delta (stats_or_new now (get strategy t.strategies)))
            t.strategies;
    }
