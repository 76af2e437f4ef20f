-- ===== src/Anomaly.antt =====
-- `BehaviorAnomalyDetector` (src/observability/anomaly.py). Times are whole seconds; `fmean` and `pstdev`
-- of the `statistics` library are parameters.
pub mod Alarm
pub mod Window
mod Tests
use agenthedge.Prelude.{
  ℕ, ◌+◌, Bool, true, false, Option, none, some, List, [], ◌∷◌, ◌++◌, String, Dict, get, put,
  length, last_n, if◌then◌else◌, ltb,
}
use agenthedge.Floats.{Floats}

pub record AnomalyResult (F : Type 0) : Type 0 where
  pub metric : String
  pub value : F
  pub baseline : F
  pub zscore : F
  pub is_critical : Bool

pub record Detector (F : Type 0) : Type 0 where
  pub window : ℕ
  pub baseline_windows : ℕ
  pub warning_zscore : F
  pub critical_zscore : F
  pub events : Dict (List ℕ)
  pub history : Dict (List ℕ)
  pub last_rollup : ℕ

abbrev pub or_empty : Option (List ℕ) → List ℕ
or_empty none = []
or_empty (some xs) = xs

-- `while bucket and bucket[0] < cutoff: bucket.popleft()`
unfoldable pub drop_old : ℕ → ℕ → List ℕ → List ℕ
drop_old window now [] = []
drop_old window now (t ∷ ts) =
    let rest = drop_old window now ts in if ltb (t + window) now then rest else t ∷ ts

-- the loop of `_rollup` over the metrics
unfoldable pub trim_all : ℕ → ℕ → Dict (List ℕ) → Dict (List ℕ)
trim_all window now [] = []
trim_all window now ((k, ts) ∷ d) = (k, drop_old window now ts) ∷ trim_all window now d

unfoldable pub count_all : ℕ → Dict (List ℕ) → Dict (List ℕ) → Dict (List ℕ)
count_all n [] history = history
count_all n ((k, ts) ∷ d) history =
    count_all n d (put k (last_n n (or_empty (get k history) ++ (length ts ∷ []))) history)

module _ {F : Type 0} where
  -- `_rollup`
  unfoldable pub rollup : ℕ → Detector F → Detector F
  unfolding trim_all count_all
  rollup now s = if ltb now (s.last_rollup + s.window) then s else record s {
    events = trim_all s.window now s.events;
    history = count_all s.baseline_windows (trim_all s.window now s.events) s.history;
    last_rollup = now;
  }

  -- the event in its bucket, trimmed
  unfoldable pub noted : String → ℕ → Detector F → Detector F
  unfolding drop_old
  noted metric now s = record s {
    events =
        put metric (drop_old s.window now (or_empty (get metric s.events) ++ (now ∷ []))) s.events;
  }

  -- `self._history.setdefault(metric, deque(...))`
  abbrev pub with_history : String → Option (List ℕ) → Detector F → Detector F
  with_history metric none s = record s { history = put metric [] s.history }
  with_history metric (some h) s = s

module _ (fl : Floats) where
  open fl use {F, zero_f, one_f, add_f, sub_f, div_f, lt_f, le_f}

  module _ (fmean pstdev : List ℕ → F) (of_count : ℕ → F) where
    -- the z-score, or none where an even history is not exceeded
    unfoldable pub zscore_of : F → F → F → Option F
    zscore_of current baseline stdev =
        if le_f stdev zero_f
        then (if le_f current (add_f baseline one_f) then none else some (sub_f current baseline))
        else some (div_f (sub_f current baseline) stdev)

    abbrev pub graded : String → F → F → Detector F → Option F → Option (AnomalyResult F)
    graded metric current baseline s none = none
    graded metric current baseline s (some z) =
        if lt_f z s.warning_zscore
        then none
        else some (record {
          metric = metric;
          value = current;
          baseline = baseline;
          zscore = z;
          is_critical = le_f s.critical_zscore z;
        })

    unfoldable pub judge : String → List ℕ → List ℕ → Detector F → Option (AnomalyResult F)
    unfolding zscore_of
    judge metric bucket history s =
        if ltb (length history) 3
        then none
        else graded metric (of_count (length bucket)) (fmean history) s
            (zscore_of (of_count (length bucket)) (fmean history) (pstdev history))

    unfoldable pub record_event : String → ℕ → Detector F → Option (AnomalyResult F) × Detector F
    unfolding rollup noted judge
    record_event metric now s =
        let s1 = rollup now (noted metric now s) in
        let s2 = with_history metric (get metric s1.history) s1 in
        (judge metric (or_empty (get metric s2.events)) (or_empty (get metric s2.history)) s2, s2)
