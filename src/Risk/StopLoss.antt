-- ===== src/Risk/StopLoss.antt =====
-- Stop losses are published on the edge (src/agents/impl/risk.py, `_check_stop_loss`): once for each time that a
-- symbol's loss goes beyond the stop.
use agenthedge.Prelude.{
  ℕ, ◌+◌, ◌≡◌, refl, ap, ◌∙◌, Bool, true, false, not, ◌&&◌, Option, none, some, List, [], ◌∷◌, ◌++◌,
  String, get, put, keep_if, tally, tally-append, if◌then◌else◌, if_both, inl, inr, ◌==◌, eq_iff,
  arith, Bool-cases, last_n,
}
use agenthedge.Values.{Value, text, number, get_value}
use agenthedge.Floats.{Floats}
use agenthedge.Portfolio.{Position, Portfolio}
use agenthedge.Message.{contains}
use agenthedge.Risk.{RiskSettings, RiskState, Act, published, Outcome, last_two, history_or, nav_of}
use agenthedge.Risk.Watch.{
  Level, unknown, recovered, breached, level_of, act_on, check_stop_loss, kill_switch, drawdown,
  is_hard_stop, judge_nav, update_nav, volatility, watch, peak,
}

module _ {F : Type 0} where
  abbrev names : String → Value F → Bool
  names k (text s) = s == k
  names k _ = false

  -- the act publishes the stop loss of a symbol
  abbrev pub is_stop : String → Act F → Bool
  is_stop k (published topic payload) =
      topic == "risk.stop_loss" && names k (get_value "symbol" payload)
  is_stop k _ = false

  -- how often a symbol's level goes beyond the stop, when it is or is not beyond it at first
  abbrev pub crossings : Bool → List (Level F) → ℕ
  crossings beyond [] = 0
  crossings beyond (unknown ∷ levels) = crossings beyond levels
  crossings beyond (recovered ∷ levels) = crossings false levels
  crossings beyond (breached m ∷ levels) = (if beyond then 0 else 1) + crossings true levels

-- a snapshot that comes in: its symbol and price, and the portfolio then
pub record Tick (F : Type 0) : Type 0 where
  pub symbol : String
  pub price : F
  pub portfolio : Portfolio F

contains-discard :
    (k s : String) (xs : List String)
    → contains (keep_if (λ j. not (j == s)) xs) k ≡ (if s == k then false else contains xs k)
contains-discard k s [] = ground arith
contains-discard k s (x ∷ xs) =
    ground (arith, eq_iff x s, eq_iff x k, eq_iff s k, contains-discard k s xs)

module _ (fl : Floats) (cfg : RiskSettings (Floats.F fl)) where
  open fl use {F}

  -- the levels of a symbol, in order
  abbrev pub levels : String → List (Tick F) → List (Level F)
  levels k [] = []
  levels k (t ∷ ticks) =
      let rest = levels k ticks in
      if t.symbol == k
      then level_of fl cfg t.price (get t.symbol t.portfolio.positions) ∷ rest
      else rest

  -- the acts of the handler for some snapshots
  abbrev pub watch_all : String → RiskState F → List (Tick F) → List (Act F)
  watch_all now st [] = []
  watch_all now st (t ∷ ticks) =
      let r = watch fl cfg now st t.portfolio t.symbol t.price in
      r.1.acts ++ watch_all now r.0 ticks

  module _ (k : String) where
    -- What else the handler does is no stop loss.
    drawdown-stops : (nav p : F) → tally (is_stop k) (drawdown fl cfg nav p) ≡ 0
    unfolding drawdown
    drawdown-stops nav p = ground arith

    kill_switch-stops :
        (now : String) (change nav : F)
        → tally
            (is_stop k)
            (kill_switch fl cfg now "daily_loss_hard_stop"
              (("daily_change_pct", number change) ∷ ("nav", number nav) ∷ [])).acts
          ≡ 0
    unfolding kill_switch get_value get
    kill_switch-stops now change nav = refl

    volatility-stops :
        (symbol : String) (history : List F) (r : Option (F × F))
        → tally (is_stop k) (volatility fl cfg symbol history r) ≡ 0
    volatility-stops symbol history none = refl
    volatility-stops symbol history (some (a, b)) = ground arith

    judge_nav-stops :
        (now : String) (nav : F) (history : List F) (r : Option (F × F))
        → tally (is_stop k) (judge_nav fl cfg now nav history r).acts ≡ 0
    judge_nav-stops now nav history none = refl
    judge_nav-stops now nav history (some (prev, last)) =
        elim (Bool-cases (is_hard_stop fl cfg prev nav)) [
          | inl e ↦ rw e (kill_switch-stops now _ nav)
          | inr e ↦ rw e (drawdown-stops nav (peak fl cfg history))
        ]

    -- the stop losses of a symbol among the acts on its level
    abbrev own_stops : Bool → Level F → ℕ
    own_stops active unknown = 0
    own_stops active recovered = 0
    own_stops active (breached m) = if active then 0 else 1

    act_on-stops :
        (symbol : String) (price : F) (p : Option (Position F)) (active : List String) (l : Level F)
        → tally (is_stop k) (act_on fl cfg symbol price p active l).1
          ≡ (if symbol == k then own_stops (contains active k) l else 0)
    unfolding get_value get
    act_on-stops symbol price p active unknown = ground arith
    act_on-stops symbol price p active recovered = ground arith
    act_on-stops symbol price p active (breached m) = ground (arith, eq_iff symbol k)

    -- whether a symbol is active after the acts on its level
    abbrev next_active : Bool → Level F → Bool
    next_active active unknown = active
    next_active active recovered = false
    next_active active (breached m) = true

    act_on-contains :
        (symbol : String) (price : F) (p : Option (Position F)) (active : List String) (l : Level F)
        → contains (act_on fl cfg symbol price p active l).0 k
          ≡ (if symbol == k then next_active (contains active k) l else contains active k)
    act_on-contains symbol price p active unknown = ground arith
    act_on-contains symbol price p active recovered =
        ground (arith, contains-discard k symbol active)
    act_on-contains symbol price p active (breached m) = ground (arith, eq_iff symbol k)

    watch-stops :
        (now : String) (st : RiskState F) (t : Tick F)
        → tally (is_stop k) (watch fl cfg now st t.portfolio t.symbol t.price).1.acts ≡ (
            if t.symbol == k
            then own_stops
                (contains st.active_stop_losses k)
                (level_of fl cfg t.price (get t.symbol t.portfolio.positions))
            else 0)
    unfolding watch check_stop_loss update_nav
    watch-stops now st t =
        let own = get t.symbol t.portfolio.positions in
        let stop =
          act_on fl cfg t.symbol t.price own st.active_stop_losses (level_of fl cfg t.price own) in
        let latest = put t.symbol t.price st.latest_prices in
        let value = nav_of fl cfg latest t.portfolio in
        let old = last_n cfg.drawdown_window (st.nav_history ++ (value ∷ [])) in
        let o = judge_nav fl cfg now value old (last_two old) in
        let prices =
          last_n cfg.history_window (history_or (get t.symbol st.history) ++ (t.price ∷ [])) in
        let v = volatility fl cfg t.symbol prices (last_two prices) in
        let z = judge_nav-stops now value old (last_two old) in
        tally-append (is_stop k) stop.1
          (if o.raised then o else record { acts = o.acts ++ v; raised = false }).acts
        ∙ ap (λ n. tally (is_stop k) stop.1 + n)
            (if_both {A = Outcome F} (λ x. tally (is_stop k) x.acts ≡ 0) o.raised {x = o}
              {y = record { acts = o.acts ++ v; raised = false }} z
              (tally-append (is_stop k) o.acts v
                ∙ add_both z (volatility-stops t.symbol prices (last_two prices))))
        ∙ add_nothing (tally (is_stop k) stop.1)
        ∙ act_on-stops t.symbol t.price own st.active_stop_losses (level_of fl cfg t.price own)
      where
        add_both : {m n : ℕ} → m ≡ 0 → n ≡ 0 → m + n ≡ 0
        add_both p q = omega (arith, p, q)

        add_nothing : (m : ℕ) → m + 0 ≡ m
        add_nothing m = omega arith

    watch-contains :
        (now : String) (st : RiskState F) (t : Tick F)
        → contains (watch fl cfg now st t.portfolio t.symbol t.price).0.active_stop_losses k ≡ (
            if t.symbol == k
            then next_active
                (contains st.active_stop_losses k)
                (level_of fl cfg t.price (get t.symbol t.portfolio.positions))
            else contains st.active_stop_losses k)
    unfolding watch check_stop_loss
    watch-contains now st t =
        act_on-contains t.symbol t.price (get t.symbol t.portfolio.positions) st.active_stop_losses
          (level_of fl cfg t.price (get t.symbol t.portfolio.positions))

    crossings-step :
        (b : Bool) (l : Level F) (ls : List (Level F))
        → own_stops b l + crossings (next_active b l) ls ≡ crossings b (l ∷ ls)
    crossings-step b unknown ls = omega arith
    crossings-step b recovered ls = omega arith
    crossings-step b (breached m) ls = refl

    combine :
        (q b b' : Bool) (m n : ℕ) (l : Level F) (ls : List (Level F))
        → m ≡ (if q then own_stops b l else 0)
        → b' ≡ (if q then next_active b l else b)
        → n ≡ crossings b' ls
        → m + n ≡ crossings b (if q then l ∷ ls else ls)
    combine true b b' m n l ls p c e =
        omega (arith, p, e ∙ ap (λ x. crossings x ls) c, crossings-step b l ls)
    combine false b b' m n l ls p c e = omega (arith, p, e ∙ ap (λ x. crossings x ls) c)

    -- Over any snapshots that come in, from any state, the stop losses that are published for a symbol are
    -- as many as the times that its loss goes beyond the stop, from a time when it was not: a loss that
    -- stays beyond it is published once, and again only after a recovery or the end of the position. An average cost that is not positive
    -- leaves the symbol as it was.
    pub watch_all-crossings :
        (now : String) (st : RiskState F) (ticks : List (Tick F))
        → tally (is_stop k) (watch_all now st ticks)
          ≡ crossings (contains st.active_stop_losses k) (levels k ticks)
    watch_all-crossings now st [] = refl
    watch_all-crossings now st (t ∷ ticks) =
        let r = watch fl cfg now st t.portfolio t.symbol t.price in
        let l = level_of fl cfg t.price (get t.symbol t.portfolio.positions) in
        tally-append (is_stop k) r.1.acts (watch_all now r.0 ticks)
        ∙ combine (t.symbol == k) (contains st.active_stop_losses k)
            (contains r.0.active_stop_losses k) (tally (is_stop k) r.1.acts)
            (tally (is_stop k) (watch_all now r.0 ticks)) l (levels k ticks) (watch-stops now st t)
            (watch-contains now st t) (watch_all-crossings now r.0 ticks)
