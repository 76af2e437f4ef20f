-- ===== src/Safety.antt =====
-- `evaluate_order_safety` (src/portfolio/safety.py). `str.upper` is a parameter.
mod Tests
use agenthedge.Prelude.{
  ◌≡◌, ◌⊎◌, ◌↔◌, inl, inr, refl, Bool, true, false, not, ◌&&◌, ◌||◌, Option, none, some, List, [],
  ◌∷◌, String, if◌then◌else◌, ◌==◌, eq_iff, arith, Bool-cases, All, ◌++◌,
}
use agenthedge.Floats.{Floats}
use agenthedge.Broker.{BrokerOrder, BrokerAccount, BrokerPosition, buy, sell, OrderSide, signed}

pub record SafetyConfig (F : Type 0) : Type 0 where
  pub max_order_notional : F
  pub max_order_shares : F
  pub max_symbol_position_shares : F
  pub market_hours_guard_enabled : Bool
  pub require_paper_account : Bool

module _ (fl : Floats) (upper : String → String) where
  open fl use {F, zero_f, add_f, mul_f, abs_f, lt_f, eq_f}

  -- `order.limit_price or 0.0`
  abbrev pub price_or_zero : Option F → F
  price_or_zero none = zero_f
  price_or_zero (some p) = if eq_f p zero_f then zero_f else p

  -- the quantity of the first position in the order's symbol
  unfoldable pub current_quantity : String → List (BrokerPosition F) → F
  current_quantity symbol [] = zero_f
  current_quantity symbol (p ∷ ps) =
      if upper p.symbol == upper symbol then p.quantity else current_quantity symbol ps

  abbrev pub is_tradable : String → Bool
  is_tradable status = upper status == "ACTIVE" || upper status == "OPEN"

  -- the reason of a refusal; none if the order is allowed. `market_open` is the clock's `is_open`.
  unfoldable pub evaluate_order_safety :
      BrokerOrder F
      → SafetyConfig F
      → BrokerAccount
      → List (BrokerPosition F)
      → Bool
      → Option String
  evaluate_order_safety order config account positions market_open =
      if config.require_paper_account && not account.is_paper
      then some "paper_account_required"
      else if account.trading_blocked
      then some "account_trading_blocked"
      else if not (is_tradable account.status)
      then some "account_not_active"
      else if config.market_hours_guard_enabled && not market_open
      then some "market_closed"
      else if lt_f config.max_order_shares order.quantity
      then some "max_order_shares_exceeded"
      else if lt_f config.max_order_notional
          (mul_f order.quantity (price_or_zero order.limit_price))
      then some "max_order_notional_exceeded"
      else if lt_f config.max_symbol_position_shares (
          abs_f
            (add_f (current_quantity order.symbol positions) (signed fl order.side order.quantity)))
      then some "max_symbol_position_exceeded"
      else none

  -- `q` is the quantity of the first position in the symbol, up to its case; zero if there is none.
  pub data Holds (symbol : String) : List (BrokerPosition F) → F → Type 0 where
    nothing_held :
        (ps : List (BrokerPosition F))
        → All (λ p. (upper p.symbol == upper symbol) ≡ false) ps
        → Holds symbol ps zero_f
    first_held :
        (before after : List (BrokerPosition F)) (p : BrokerPosition F)
        → All (λ x. (upper x.symbol == upper symbol) ≡ false) before
        → upper p.symbol ≡ upper symbol
        → Holds symbol (before ++ (p ∷ after)) p.quantity

  Holds-next :
      (symbol : String) (p : BrokerPosition F) {ps : List (BrokerPosition F)} {q : F}
      → (upper p.symbol == upper symbol) ≡ false
      → Holds symbol ps q
      → Holds symbol (p ∷ ps) q
  Holds-next symbol p n (nothing_held ps apart) = nothing_held (p ∷ ps) (n, apart)
  Holds-next symbol p n (first_held before after x apart e) =
      first_held (p ∷ before) after x (n, apart) e

  current_quantity-Holds :
      (symbol : String) (ps : List (BrokerPosition F))
      → Holds symbol ps (current_quantity symbol ps)
  unfolding current_quantity
  current_quantity-Holds symbol [] = nothing_held [] tt
  current_quantity-Holds symbol (p ∷ ps) = elim (Bool-cases (upper p.symbol == upper symbol)) [
    | inl y ↦ rw y (first_held [] ps p tt ((eq_iff (upper p.symbol) (upper symbol)).0 y))
    | inr n ↦ rw n (Holds-next symbol p n (current_quantity-Holds symbol ps))
  ]

  current_quantity-nothing :
      (symbol : String) (ps : List (BrokerPosition F))
      → All (λ p. (upper p.symbol == upper symbol) ≡ false) ps
      → current_quantity symbol ps ≡ zero_f
  unfolding current_quantity
  current_quantity-nothing symbol [] h = refl
  current_quantity-nothing symbol (p ∷ ps) h = rw (h.0) (current_quantity-nothing symbol ps h.1)

  current_quantity-first :
      (symbol : String) (before after : List (BrokerPosition F)) (p : BrokerPosition F)
      → All (λ x. (upper x.symbol == upper symbol) ≡ false) before
      → upper p.symbol ≡ upper symbol
      → current_quantity symbol (before ++ (p ∷ after)) ≡ p.quantity
  unfolding current_quantity
  current_quantity-first symbol [] after p h e =
      ground (arith, (eq_iff (upper p.symbol) (upper symbol)).1 e)
  current_quantity-first symbol (x ∷ before) after p h e =
      rw (h.0) (current_quantity-first symbol before after p h.1 e)

  -- The scan of the positions finds that quantity, whatever way it is given.
  Holds-current_quantity :
      (symbol : String) {ps : List (BrokerPosition F)} {q : F}
      → Holds symbol ps q
      → current_quantity symbol ps ≡ q
  Holds-current_quantity symbol (nothing_held ps apart) = current_quantity-nothing symbol ps apart
  Holds-current_quantity symbol (first_held before after p apart e) =
      current_quantity-first symbol before after p apart e

  -- What an allowed order satisfies.
  pub record IsSafe (order : BrokerOrder F) (config : SafetyConfig F) (account : BrokerAccount)
      (positions : List (BrokerPosition F)) (market_open : Bool) : Type 0 where
    pub paper : (config.require_paper_account ≡ false) ⊎ (account.is_paper ≡ true)
    pub unblocked : account.trading_blocked ≡ false
    pub tradable : (upper account.status ≡ "ACTIVE") ⊎ (upper account.status ≡ "OPEN")
    pub open_market : (config.market_hours_guard_enabled ≡ false) ⊎ (market_open ≡ true)
    pub shares_in_limit : lt_f config.max_order_shares order.quantity ≡ false
    pub notional_in_limit :
        lt_f config.max_order_notional (mul_f order.quantity (price_or_zero order.limit_price))
        ≡ false
    -- what the account holds of the symbol, with the order bought or sold
    pub held : F
    pub holds : Holds order.symbol positions held
    pub position_in_limit :
        lt_f config.max_symbol_position_shares
          (abs_f (add_f held (signed fl order.side order.quantity)))
        ≡ false

  -- An order is allowed exactly when the account may trade it (on paper where that is required), the
  -- market is open where that is guarded, and its shares, its notional (at a price of zero if it has none)
  -- and the position that it would give are within their limits: the quantity of the first position in
  -- the order's symbol, up to its case, or zero, with the order added or taken off.
  pub allowed_iff_IsSafe :
      (order : BrokerOrder F) (config : SafetyConfig F) (account : BrokerAccount)
      (positions : List (BrokerPosition F)) (market_open : Bool)
      → (evaluate_order_safety order config account positions market_open ≡ none)
        ↔ IsSafe order config account positions market_open
  unfolding evaluate_order_safety
  allowed_iff_IsSafe order config account positions market_open = (
    λ h. record {
      paper = ground arith;
      unblocked = ground arith;
      tradable =
          ground
            (arith, eq_iff (upper account.status) "ACTIVE", eq_iff (upper account.status) "OPEN");
      open_market = ground arith;
      shares_in_limit = ground arith;
      notional_in_limit = ground arith;
      held = current_quantity order.symbol positions;
      holds = current_quantity-Holds order.symbol positions;
      position_in_limit = ground arith;
    },
    λ h. ground (
      arith,
      eq_iff (upper account.status) "ACTIVE",
      eq_iff (upper account.status) "OPEN",
      Holds-current_quantity order.symbol h.holds,
    ),
  )
