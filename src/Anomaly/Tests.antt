-- ===== src/Anomaly/Tests.antt =====
-- A burst after three quiet windows.
use agenthedge.Prelude.{ℕ, ◌≡◌, refl, true, some, List, [], ◌∷◌, ℤ, pos, get, put}
use agenthedge.Floats.{whole_floats}
use agenthedge.Anomaly.{
  AnomalyResult, Detector, record_event, rollup, noted, drop_old, judge, zscore_of,
}

abbrev nothing : List ℕ → ℤ
nothing xs = pos 0

abbrev count : ℕ → ℤ
count n = pos n

abbrev quiet : Detector ℤ
quiet = record {
  window = 60;
  baseline_windows = 3;
  warning_zscore = pos 2;
  critical_zscore = pos 4;
  events = ("fill", 90 ∷ 95 ∷ 99 ∷ 100 ∷ []) ∷ [];
  history = ("fill", 0 ∷ 0 ∷ 0 ∷ []) ∷ [];
  last_rollup = 90;
}

abbrev burst : AnomalyResult ℤ
burst = record {
  metric = "fill";
  value = pos 5;
  baseline = pos 0;
  zscore = pos 5;
  is_critical = true;
}

-- Five fills after three windows without one raise a critical alarm.
burst_run : (record_event whole_floats nothing nothing count "fill" 101 quiet).0 ≡ some burst
unfolding record_event rollup noted drop_old judge zscore_of get put
burst_run = refl
