-- ===== src/Director/Chain.antt =====
-- From the risk agent's approval to the execution agent's check.
use agenthedge.Prelude.{
  ℕ, ◌≡◌, refl, ap, sym, ◌∙◌, Bool, true, false, ◌&&◌, some, List, ◌∷◌, String, put, ok,
}
use agenthedge.Values.{object, Payload, get_value, of_dict, number}
use agenthedge.Floats.{Floats}
use agenthedge.Portfolio.{Portfolio, quantity_of}
use agenthedge.Execution.Checks.{is_approved, has_required_approvals}
use agenthedge.Compliance.{
  dict_of, ComplianceSettings, Act, published, approval_of, handle_risk_approval, approved_at,
  decision_of,
}
use agenthedge.Compliance.Outcomes.{approval-Cleared}
use agenthedge.Director.{handle_compliance_approval}
use agenthedge.Director.Release.{
  get_value-put, to_dict-of_dict, released_lem, release-approvals, stamped-approved,
}

and_true_right : (a : Bool) → (a && true) ≡ a
and_true_right true = refl
and_true_right false = refl

some-injective : {A : Type 0} {x y : A} → some x ≡ some y → x ≡ y
some-injective h = cc

module _ (fl : Floats) where
  open fl use {F, add_f}

  module _ (cfg : ComplianceSettings F) where
    dict_of_object : (d : Payload F) → dict_of fl cfg.dict_of_items (object (of_dict d)) ≡ some d
    unfolding dict_of
    dict_of_object d = ap some (to_dict-of_dict d)

    -- the approvals that the director finds in a compliance approval
    approvals_of_approval :
        (now : String) (payload : Payload F) (projected : F) (approvals : Payload F)
        → dict_of fl cfg.dict_of_items
            (get_value "approvals" (approval_of fl cfg now payload projected approvals))
          ≡ some (put "compliance" (approved_at fl cfg now) approvals)
    unfolding approval_of
    approvals_of_approval now payload projected approvals =
        let ready = put "compliance" (approved_at fl cfg now) approvals in
        let base =
          put "decision_id" (decision_of fl cfg payload)
            (put "projected_quantity" (number projected) payload) in
        ap (dict_of fl cfg.dict_of_items)
          (get_value-put "approvals" "approvals" (object (of_dict ready)) base)
        ∙ dict_of_object ready

    two_of_three :
        (lower : String → String) (now : String) (approvals : Payload F)
        → lower "approved" ≡ "approved"
        → (is_approved lower
              (get_value "risk" (put "compliance" (approved_at fl cfg now) approvals))
            && is_approved lower
                (get_value "compliance" (put "compliance" (approved_at fl cfg now) approvals)))
          ≡ is_approved lower (get_value "risk" approvals)
    two_of_three lower now approvals low =
        let stamp = approved_at fl cfg now in
        let r : get_value "risk" (put "compliance" stamp approvals) ≡ get_value "risk" approvals =
          get_value-put "compliance" "risk" stamp approvals in
        let c : get_value "compliance" (put "compliance" stamp approvals) ≡ stamp =
          get_value-put "compliance" "compliance" stamp approvals in
        ap
          (λ v.
            is_approved lower v
            && is_approved lower (get_value "compliance" (put "compliance" stamp approvals)))
          r
        ∙ ap (λ v. is_approved lower (get_value "risk" approvals) && is_approved lower v) c
        ∙ ap (λ b. is_approved lower (get_value "risk" approvals) && b)
            (stamped-approved F lower now low)
        ∙ and_true_right (is_approved lower (get_value "risk" approvals))

    -- A payload goes through compliance and then through the director: the execution agent finds the
    -- three approvals that it requires exactly when the payload carried risk's approval to begin with.
    -- The case folding is to leave "approved" as it is.
    pub chain_needs_risk :
        (now : String) (st : Portfolio F) (payload c : Payload F) (rest : List (Act F))
        (isoformat : ℕ → String) (ttl_seconds later : ℕ) (approval_id : String)
        (d approvals : Payload F)
        → (handle_risk_approval fl cfg now st payload).acts
          ≡ published "compliance.approval" c ∷ rest
        → handle_compliance_approval fl isoformat cfg.dict_of_items ttl_seconds later approval_id c
          ≡ ok (some d)
        → dict_of fl cfg.dict_of_items (get_value "approvals" payload) ≡ some approvals
        → cfg.lower "approved" ≡ "approved"
        → has_required_approvals cfg.lower d ≡ is_approved cfg.lower (get_value "risk" approvals)
    chain_needs_risk now st payload c rest isoformat ttl_seconds later approval_id d approvals
          passed released read low =
        let k = approval-Cleared fl cfg now st payload c rest passed in
        let same : k.approvals ≡ approvals = some-injective (sym k.approvals_read ∙ read) in
        let projected = add_f (quantity_of fl k.symbol st.positions) k.quantity in
        let ready = put "compliance" (approved_at fl cfg now) approvals in
        let made : c ≡ approval_of fl cfg now payload projected approvals =
          k.made ∙ ap (λ x. approval_of fl cfg now payload projected x) same in
        let found : dict_of fl cfg.dict_of_items (get_value "approvals" c) ≡ some ready =
          ap (λ x. dict_of fl cfg.dict_of_items (get_value "approvals" x)) made
          ∙ approvals_of_approval now payload projected approvals in
        let is =
          released_lem fl isoformat cfg.dict_of_items ttl_seconds later approval_id c d ready
            released found in
        ap (has_required_approvals cfg.lower) is
        ∙ release-approvals fl isoformat cfg.dict_of_items ttl_seconds cfg.lower later approval_id c
            ready low
        ∙ two_of_three cfg.lower now approvals low
