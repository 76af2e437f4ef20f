-- ===== src/Anomaly/Alarm.antt =====
-- When the detector raises an alarm (src/observability/anomaly.py).
use agenthedge.Prelude.{
  ℕ, ◌+◌, ◌≤◌, ◌≡◌, refl, Bool, true, false, Option, none, some, List, String, get, length,
  if◌then◌else◌, ltb, arith,
}
use agenthedge.Floats.{Floats}
use agenthedge.Anomaly.{
  AnomalyResult, Detector, or_empty, rollup, noted, with_history, zscore_of, graded, judge,
  record_event,
}

module _ (fl : Floats) where
  open fl use {F, zero_f, one_f, add_f, sub_f, div_f, lt_f, le_f}

  module _ (fmean pstdev : List ℕ → F) (of_count : ℕ → F) where
    -- how far a count stands out from the windows: over a deviation of zero, the excess itself, which
    -- has to be above one; else the excess in deviations
    pub data ZScore (current baseline stdev : F) : F → Type 0 where
      steady :
          le_f stdev zero_f ≡ true
          → le_f current (add_f baseline one_f) ≡ false
          → ZScore current baseline stdev (sub_f current baseline)
      scaled :
          le_f stdev zero_f ≡ false
          → ZScore current baseline stdev (div_f (sub_f current baseline) stdev)

    abbrev pub windows : String → Detector F → List ℕ
    windows metric s = or_empty (get metric s.history)

    -- the number of the events in the present window
    abbrev pub present : String → Detector F → F
    present metric s = of_count (length (or_empty (get metric s.events)))

    -- what an alarm says about the detector that raised it
    pub record IsAlarm (metric : String) (r : AnomalyResult F) (s : Detector F) : Type 0 where
      pub of_metric : r.metric ≡ metric
      pub backed : 3 ≤ length (windows metric s)
      pub of_value : r.value ≡ present metric s
      pub of_baseline : r.baseline ≡ fmean (windows metric s)
      pub scored :
          ZScore (present metric s) (fmean (windows metric s)) (pstdev (windows metric s)) r.zscore
      pub unusual : lt_f r.zscore s.warning_zscore ≡ false
      pub graded_by : r.is_critical ≡ le_f s.critical_zscore r.zscore

    -- why a detector raises none
    pub data IsQuiet (metric : String) (s : Detector F) : Type 0 where
      too_few : length (windows metric s) + 1 ≤ 3 → IsQuiet metric s
      no_excess :
          le_f (pstdev (windows metric s)) zero_f ≡ true
          → le_f (present metric s) (add_f (fmean (windows metric s)) one_f) ≡ true
          → IsQuiet metric s
      usual :
          (z : F)
          → ZScore (present metric s) (fmean (windows metric s)) (pstdev (windows metric s)) z
          → lt_f z s.warning_zscore ≡ true
          → IsQuiet metric s

    abbrev pub Judged : String → Detector F → Option (AnomalyResult F) → Type 0
    Judged metric s none = IsQuiet metric s
    Judged metric s (some r) = IsAlarm metric r s

    -- A score that is there is an alarm or is below the warning.
    score-Judged :
        (metric : String) (s : Detector F) (z : F)
        → 3 ≤ length (windows metric s)
        → ZScore (present metric s) (fmean (windows metric s)) (pstdev (windows metric s)) z
        → Judged metric s (
            graded fl fmean pstdev of_count metric
              (present metric s)
              (fmean (windows metric s))
              s
              (some z))
    score-Judged metric s z enough scored = go (lt_f z s.warning_zscore) refl
      where
        go :
            (low : Bool)
            → lt_f z s.warning_zscore ≡ low
            → Judged metric s (
                if low
                then none
                else some (record {
                  metric = metric;
                  value = present metric s;
                  baseline = fmean (windows metric s);
                  zscore = z;
                  is_critical = le_f s.critical_zscore z;
                }))
        go true e = usual z scored e
        go false e = record {
          of_metric = refl;
          backed = enough;
          of_value = refl;
          of_baseline = refl;
          scored = scored;
          unusual = e;
          graded_by = refl;
        }

    zscore-Judged :
        (metric : String) (s : Detector F)
        → 3 ≤ length (windows metric s)
        → Judged metric s (
            graded fl fmean pstdev of_count metric (present metric s) (fmean (windows metric s)) s (
              zscore_of fl fmean pstdev of_count
                (present metric s)
                (fmean (windows metric s))
                (pstdev (windows metric s))))
    unfolding zscore_of
    zscore-Judged metric s enough =
        go (le_f (pstdev (windows metric s)) zero_f)
          (le_f (present metric s) (add_f (fmean (windows metric s)) one_f)) refl refl
      where
        go :
            (even small : Bool)
            → le_f (pstdev (windows metric s)) zero_f ≡ even
            → le_f (present metric s) (add_f (fmean (windows metric s)) one_f) ≡ small
            → Judged metric s (
                graded fl fmean pstdev of_count metric
                  (present metric s)
                  (fmean (windows metric s))
                  s
                  (if even
                    then (if small
                        then none
                        else some (sub_f (present metric s) (fmean (windows metric s))))
                    else some (
                        div_f
                          (sub_f (present metric s) (fmean (windows metric s)))
                          (pstdev (windows metric s)))))
        go true true e g = no_excess e g
        go true false e g = score-Judged metric s _ enough (steady e g)
        go false small e g = score-Judged metric s _ enough (scaled e)

    judge-Judged :
        (metric : String) (s : Detector F)
        → Judged metric s (
            judge fl fmean pstdev of_count metric
              (or_empty (get metric s.events))
              (windows metric s)
              s)
    unfolding judge
    judge-Judged metric s = go (ltb (length (windows metric s)) 3) refl
      where
        go :
            (few : Bool)
            → ltb (length (windows metric s)) 3 ≡ few
            → Judged metric s (
                if few
                then none
                else graded fl fmean pstdev of_count metric
                    (present metric s)
                    (fmean (windows metric s))
                    s
                    (zscore_of fl fmean pstdev of_count
                      (present metric s)
                      (fmean (windows metric s))
                      (pstdev (windows metric s))))
        go true e = too_few (ground arith)
        go false e = zscore-Judged metric s (ground arith)

    -- An alarm is raised for the metric of the event, on at least three windows of history, for the number
    -- of the events of the present window against the mean and the deviation of the windows, with a
    -- z-score that is not below the warning threshold, critical exactly when it reaches the critical one;
    -- and where none is raised there are fewer windows, no excess over even ones, or a lower z-score.
    pub record_event-Judged :
        (metric : String) (now : ℕ) (s : Detector F)
        → Judged metric
            (record_event fl fmean pstdev of_count metric now s).1
            (record_event fl fmean pstdev of_count metric now s).0
    unfolding record_event
    record_event-Judged metric now s =
        let s1 = rollup now (noted metric now s) in
        judge-Judged metric (with_history metric (get metric s1.history) s1)
