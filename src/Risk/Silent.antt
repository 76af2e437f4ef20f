-- ===== src/Risk/Silent.antt =====
-- The strategy feedback of a rejection (src/agents/impl/risk.py) publishes no approval.
use agenthedge.Prelude.{
  ◌≡◌, refl, subst, true, false, Option, none, some, List, [], ◌∷◌, String, Any, All, All-append,
  if◌then◌else◌, if_both, inl, inr, ◌==◌,
}
use agenthedge.Values.{
  Value, Items, nil, cons, object, text, number, boolean, array, null, Payload, get_value, as_text,
  to_dict,
}
use agenthedge.Risk.{
  Act, published, audited, alerted, observed, Outcome, after, feedback, feedback_entry,
}

module _ {F : Type 0} where
  -- the act publishes a payload on a topic, which is to be a given one
  abbrev pub NotTopic : String → Act F → Type 0
  NotTopic topic (published t payload) = (t == topic) ≡ false
  NotTopic topic (audited name payload) = Unit
  NotTopic topic (alerted name payload severity) = Unit
  NotTopic topic (observed payload) = Unit

  pub absent :
      (acts : List (Act F)) (c : Payload F)
      → All (NotTopic "risk.approval") acts
      → Any (λ a. a ≡ published "risk.approval" c) acts
      → ⊥
  absent [] c h m = m
  absent (a ∷ acts) c h (inl e) =
      let f : true ≡ false = subst (NotTopic "risk.approval") e h.0 in cc
  absent (a ∷ acts) c h (inr m) = absent acts c h.1 m

  pub observed-published : (p c : Payload F) → observed p ≡ published "risk.approval" c → ⊥
  observed-published p c e = cc

  pub published-payload :
      (p c : Payload F) → published "risk.approval" p ≡ published "risk.approval" c → p ≡ c
  published-payload p c e = cc

  abbrev Clear : Option (List (Act F)) → Type 0
  Clear none = Unit
  Clear (some acts) = All (NotTopic "risk.approval") acts

  entry-Clear :
      (now : String) (delta : F) (reason : String) (v : Value F)
      → Clear (feedback_entry now delta reason v)
  unfolding feedback_entry
  entry-Clear now delta reason null = tt
  entry-Clear now delta reason (boolean b) = tt
  entry-Clear now delta reason (number x) = tt
  entry-Clear now delta reason (text s) = tt
  entry-Clear now delta reason (array items) = tt
  entry-Clear now delta reason (object entry) =
      elim (as_text (get_value "strategy" (to_dict entry)))
        as (λ r. Clear (elim r [
          | none ↦ some []
          | some name ↦
              if name == ""
              then some []
              else (let payload =
                    ("strategy", text name)
                    ∷ ("delta", number delta)
                    ∷ ("reason", text reason)
                    ∷ ("timestamp", text now)
                    ∷ [] in
                  some (
                    published "strategy.feedback" payload
                    ∷ audited "strategy_feedback" payload
                    ∷ []))
        ])) [
          | none ↦ tt
          | some name ↦
              if_both {A = Option (List (Act F))} Clear (name == "") {x = some []} {y = _} tt
                (refl, (tt, tt))
        ]

  pub feedback-Clear :
      (now : String) (delta : F) (reason : String) (items : Items F)
      → All (NotTopic "risk.approval") (feedback now delta reason items).acts
  unfolding feedback
  feedback-Clear now delta reason nil = tt
  feedback-Clear now delta reason (cons v items) =
      go (feedback_entry now delta reason v) (entry-Clear now delta reason v)
        (feedback-Clear now delta reason items)
    where
      go :
          (r : Option (List (Act F)))
          → Clear r
          → All (NotTopic "risk.approval") (feedback now delta reason items).acts
          → All
              (NotTopic "risk.approval")
              (elim r as (λ x. Outcome F) [
                | none ↦ record { acts = []; raised = true }
                | some acts ↦ after acts (feedback now delta reason items)
              ]).acts
      go none h ih = tt
      go (some acts) h ih =
          All-append (NotTopic "risk.approval") acts (feedback now delta reason items).acts h ih
