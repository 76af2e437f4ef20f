-- ===== src/Performance/Weights.antt =====
-- The weights and the counts of the strategies, whatever fills and feedback come.
use agenthedge.Prelude.{
  ℕ, ◌+◌, ◌≤◌, ◌≡◌, ◌⊎◌, inl, inr, refl, true, false, Option, none, some, List, [], ◌∷◌, String,
  Dict, get, put, All, All-put, All-get, if_both, ◌==◌, Bool-cases, arith,
}
use agenthedge.Values.{Value, Payload, get_value, nonempty_text}
use agenthedge.Floats.{Floats}
use agenthedge.Portfolio.{min_f, max_f}
use agenthedge.Performance.{
  Stats, Tracker, Scale, default_stats, clamp_weight, recompute_weight, stats_or_new, scored,
  number_of, number_or_zero, score_entry, score_all, record_fill, adjusted, apply_feedback,
}

-- a fill or a piece of feedback
pub data Call (F : Type 0) : Type 0 where
  fill : ℕ → List (Payload F) → Value F → Call F
  feedback : ℕ → String → F → Call F

module _ (fl : Floats) where
  open fl use {F, one_f, lt_f}

  module _ (sc : Scale fl) where
    unfoldable pub react : Call F → Tracker F → Tracker F
    react (fill now entries realized_pnl) t = record_fill fl sc now entries realized_pnl t
    react (feedback now strategy delta) t = apply_feedback fl sc now strategy delta t

    unfoldable pub react_all : List (Call F) → Tracker F → Tracker F
    react_all [] t = t
    react_all (c ∷ cs) t = react_all cs (react c t)

    -- a comparison that is never true both ways, and bounds that stand in order
    pub record WeightLaws : Type 0 where
      pub asymmetric : (a b : F) → lt_f a b ≡ true → lt_f b a ≡ false
      pub ordered : lt_f sc.lowest sc.highest ≡ true

    -- the first weight, or the rounding of a number within the bounds
    abbrev pub IsWeight : F → Type 0
    IsWeight w =
        (w ≡ one_f)
        ⊎ ((x : F) × (w ≡ sc.round4 x) × (lt_f x sc.lowest ≡ false) × (lt_f sc.highest x ≡ false))

    pub record IsTracked (s : Stats F) : Type 0 where
      pub weighed : IsWeight s.weight
      pub counted : s.wins + s.losses ≤ s.trades

    not_below : WeightLaws → (a : F) → lt_f a a ≡ false
    not_below laws a = elim (Bool-cases (lt_f a a)) [ inl y ↦ laws.asymmetric a a y | inr n ↦ n ]

    min-highest : WeightLaws → (x : F) → lt_f sc.highest (min_f fl sc.highest x) ≡ false
    unfolding min_f
    min-highest laws x = elim (Bool-cases (lt_f x sc.highest)) [
      | inl y ↦ rw y (laws.asymmetric x sc.highest y)
      | inr n ↦ rw n (not_below laws sc.highest)
    ]

    max-within :
        WeightLaws
        → (m : F) → lt_f sc.highest m ≡ false
        → (lt_f (max_f fl sc.lowest m) sc.lowest ≡ false)
          × (lt_f sc.highest (max_f fl sc.lowest m) ≡ false)
    unfolding max_f
    max-within laws m h = elim (Bool-cases (lt_f sc.lowest m)) [
      | inl y ↦ rw y (laws.asymmetric sc.lowest m y, h)
      | inr n ↦ rw n (not_below laws sc.lowest, laws.asymmetric sc.lowest sc.highest laws.ordered)
    ]

    clamp-IsWeight : WeightLaws → (x : F) → IsWeight (clamp_weight fl sc x)
    unfolding clamp_weight
    clamp-IsWeight laws x =
        let m = min_f fl sc.highest x in
        let (low, high) = max-within laws m (min-highest laws x) in
        inr (max_f fl sc.lowest m, refl, low, high)

    new-IsTracked : (now : ℕ) → IsTracked (default_stats fl sc now)
    unfolding default_stats
    new-IsTracked now = record { weighed = inl refl; counted = omega arith }

    found-IsTracked :
        (now : ℕ) (k : String) (d : Dict (Stats F))
        → All (λ e. IsTracked e.1) d
        → IsTracked (stats_or_new fl sc now (get k d))
    found-IsTracked now k d all = go (get k d) refl
      where
        go : (o : Option (Stats F)) → get k d ≡ o → IsTracked (stats_or_new fl sc now o)
        go none e = new-IsTracked now
        go (some s) e = All-get (λ q. IsTracked q.1) k s d all e

    scored-IsTracked :
        WeightLaws
        → (now : ℕ) (share confidence : F) (s : Stats F) → IsTracked s
        → IsTracked (scored fl sc now share confidence s)
    unfolding scored recompute_weight
    scored-IsTracked laws now share confidence s h = record {
      weighed = clamp-IsWeight laws _;
      counted = ground (arith, h.counted);
    }

    adjusted-IsTracked :
        WeightLaws
        → (now : ℕ) (delta : F) (s : Stats F) → IsTracked s
        → IsTracked (adjusted fl sc now delta s)
    unfolding adjusted
    adjusted-IsTracked laws now delta s h = record {
      weighed = clamp-IsWeight laws _;
      counted = h.counted;
    }

    abbrev pub AllTracked : Dict (Stats F) → Type 0
    AllTracked d = All (λ e. IsTracked e.1) d

    entry-AllTracked :
        WeightLaws
        → (now : ℕ) (share : F) (name : Option String) (confidence : F) (d : Dict (Stats F))
        → AllTracked d
        → AllTracked (score_entry fl sc now share name confidence d)
    entry-AllTracked laws now share none confidence d h = h
    entry-AllTracked laws now share (some name) confidence d h =
        All-put (λ e. IsTracked e.1) name
          (scored fl sc now share confidence (stats_or_new fl sc now (get name d))) d
          (scored-IsTracked laws now share confidence (stats_or_new fl sc now (get name d))
            (found-IsTracked now name d h))
          h

    score_all-AllTracked :
        WeightLaws
        → (now : ℕ) (share : F) (entries : List (Payload F)) (d : Dict (Stats F)) → AllTracked d
        → AllTracked (score_all fl sc now share entries d)
    unfolding score_all
    score_all-AllTracked laws now share [] d h = h
    score_all-AllTracked laws now share (e ∷ es) d h =
        score_all-AllTracked laws now share es
          (score_entry fl sc now share (nonempty_text (get_value "strategy" e))
            (number_or_zero fl sc (number_of fl sc (get_value "confidence" e))) d)
          (entry-AllTracked laws now share (nonempty_text (get_value "strategy" e))
            (number_or_zero fl sc (number_of fl sc (get_value "confidence" e))) d h)

    react-AllTracked :
        WeightLaws
        → (c : Call F) (t : Tracker F) → AllTracked t.strategies
        → AllTracked (react c t).strategies
    unfolding react record_fill apply_feedback
    react-AllTracked laws (fill now [] realized_pnl) t h = h
    react-AllTracked laws (fill now (e ∷ es) realized_pnl) t h =
        score_all-AllTracked laws now _ (e ∷ es) t.strategies h
    react-AllTracked laws (feedback now strategy delta) t h =
        if_both {A = Tracker F} (λ u. AllTracked u.strategies) (strategy == "") {x = t}
          {y = record t {
            strategies =
                put strategy
                  (adjusted fl sc now delta (stats_or_new fl sc now (get strategy t.strategies)))
                  t.strategies;
          }}
          h
          (All-put (λ e. IsTracked e.1) strategy
            (adjusted fl sc now delta (stats_or_new fl sc now (get strategy t.strategies)))
            t.strategies
            (adjusted-IsTracked laws now delta (stats_or_new fl sc now (get strategy t.strategies))
              (found-IsTracked now strategy t.strategies h))
            h)

    -- A tracker whose strategies are within these bounds, a comparison that is never true both ways, and bounds in
    -- order: after any fills and any feedback, each strategy's weight is its first one or the rounding of
    -- a number within the bounds, and its wins and losses together are no more than its trades.
    pub react_all-AllTracked :
        (cs : List (Call F)) (t : Tracker F)
        → WeightLaws
        → AllTracked t.strategies
        → AllTracked (react_all cs t).strategies
    unfolding react_all
    react_all-AllTracked [] t laws h = h
    react_all-AllTracked (c ∷ cs) t laws h =
        react_all-AllTracked cs (react c t) laws (react-AllTracked laws c t h)
