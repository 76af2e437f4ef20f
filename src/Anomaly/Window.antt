-- ===== src/Anomaly/Window.antt =====
-- The bucket of a metric after an event (src/observability/anomaly.py).
use agenthedge.Prelude.{
  ℕ, ◌+◌, ◌≡◌, refl, ap, ◌∙◌, Option, none, some, List, [], ◌∷◌, ◌++◌, String, Dict, get, get-put,
  eq_refl, ltb, arith, Bool-cases, inl, inr,
}
use agenthedge.Floats.{Floats}
use agenthedge.Anomaly.{
  Detector, or_empty, rollup, noted, with_history, drop_old, trim_all, record_event,
}

-- Trimming a second time at the same moment takes nothing away.
drop_old-drop_old :
    (window now : ℕ) (ts : List ℕ)
    → drop_old window now (drop_old window now ts) ≡ drop_old window now ts
unfolding drop_old
drop_old-drop_old window now [] = refl
drop_old-drop_old window now (t ∷ ts) = elim (Bool-cases (ltb (t + window) now)) [
  | inl y ↦ rw y (drop_old-drop_old window now ts)
  | inr n ↦ rw (n, n) refl
]

get-trim_all :
    (window now : ℕ) (k : String) (ts : List ℕ) (d : Dict (List ℕ))
    → get k d ≡ some ts
    → get k (trim_all window now d) ≡ some (drop_old window now ts)
unfolding trim_all get
get-trim_all window now k ts [] h = cc
get-trim_all window now k ts ((j, us) ∷ d) h = ground (arith, get-trim_all window now k ts d)

module _ {F : Type 0} where
  -- what `_rollup` makes of a bucket that is trimmed already
  rollup-bucket :
      (now : ℕ) (k : String) (ts : List ℕ) (s : Detector F)
      → get k s.events ≡ some (drop_old s.window now ts)
      → get k (rollup now s).events ≡ some (drop_old s.window now ts)
  unfolding rollup
  rollup-bucket now k ts s h = elim (Bool-cases (ltb now (s.last_rollup + s.window))) [
    | inl y ↦ rw y h
    | inr n ↦ rw n (
        get-trim_all s.window now k (drop_old s.window now ts) s.events h
        ∙ ap some (drop_old-drop_old s.window now ts))
  ]

  with_history-events :
      (metric : String) (h : Option (List ℕ)) (s : Detector F)
      → (with_history metric h s).events ≡ s.events
  with_history-events metric none s = refl
  with_history-events metric (some h) s = refl

module _ (fl : Floats) where
  open fl use {F}

  -- After an event the bucket of its metric is the former one with the event at its end, trimmed.
  pub record_event-bucket :
      (fmean pstdev : List ℕ → F) (of_count : ℕ → F) (metric : String) (now : ℕ) (s : Detector F)
      → get metric (record_event fl fmean pstdev of_count metric now s).1.events
        ≡ some (drop_old s.window now (or_empty (get metric s.events) ++ (now ∷ [])))
  unfolding record_event noted
  record_event-bucket fmean pstdev of_count metric now s =
      let bucket = or_empty (get metric s.events) ++ (now ∷ []) in
      let s1 = rollup now (noted metric now s) in
      ap (get metric) (with_history-events metric (get metric s1.history) s1)
      ∙ rollup-bucket now metric bucket (noted metric now s) (
          get-put metric metric (drop_old s.window now bucket) s.events
          ∙ ground (arith, eq_refl metric))
