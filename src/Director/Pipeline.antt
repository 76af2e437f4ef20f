-- ===== src/Director/Pipeline.antt =====
-- A proposal on its whole way: risk, compliance, director and the execution agent's check
-- (src/agents/impl/risk.py, compliance.py, director.py and execution.py).
use agenthedge.Prelude.{Option, ℕ, ◌≡◌, refl, ap, ◌∙◌, true, some, List, ◌∷◌, String, put, get, ok}
use agenthedge.Values.{Value, Items, Payload, get_value, as_text, as_dict, to_dict}
use agenthedge.Floats.{Floats}
use agenthedge.Portfolio.{Portfolio}
use agenthedge.Execution.Checks.{is_approved, has_required_approvals}
use agenthedge.Compliance.{dict_of, ComplianceSettings, Act, published, handle_risk_approval}
use agenthedge.Director.{handle_compliance_approval}
use agenthedge.Director.Release.{get_value-put, to_dict-of_dict}
use agenthedge.Director.Chain.{chain_needs_risk}
use agenthedge.Risk.{RiskSettings, RiskState}
use agenthedge.Risk.Proposal
use agenthedge.Risk.Proposal.{handle_proposal, Figures, stamp, figures}
use agenthedge.Risk.Approved.{Gives}
use agenthedge.Risk.Limits.{approval_iff_Approved}

module _ (fl : Floats) where
  open fl use {F}

  -- The approvals of a risk approval are the given ones with risk's stamp.
  approvals-read :
      (cfg : RiskSettings F) (dict_of_items : Items F → Option (Payload F)) (now : String)
      (payload : Payload F) (decision_id : Value F) (symbol : String) (price quantity : F)
      (f : Figures F) (approvals : Payload F)
      → dict_of fl dict_of_items (
          get_value "approvals"
            (Proposal.approval_of fl cfg now payload decision_id symbol price quantity f approvals))
        ≡ some (put "risk" (stamp fl cfg now f) approvals)
  unfolding dict_of Proposal.approval_of get_value get
  approvals-read cfg dict_of_items now payload decision_id symbol price quantity f approvals =
      ap some (to_dict-of_dict (put "risk" (stamp fl cfg now f) approvals))

  stamp-is_approved :
      (cfg : RiskSettings F) (lower : String → String) (now : String) (f : Figures F)
      → lower "approved" ≡ "approved"
      → is_approved lower (stamp fl cfg now f) ≡ true
  unfolding is_approved as_dict as_text get_value to_dict get
  stamp-is_approved cfg lower now f low = rw low refl

  -- A proposal that the risk agent approves, that the compliance agent then approves and that the
  -- director then releases reaches the execution agent with the three approvals that it requires, if the
  -- case folding leaves "approved" as it is.
  pub pipeline-has_required_approvals :
      (risk_cfg : RiskSettings F) (cfg : ComplianceSettings F) (t1 t2 : String) (rs : RiskState F)
      (snapshot st : Portfolio F) (proposal c0 c1 : Payload F) (rest : List (Act F))
      (isoformat : ℕ → String) (ttl_seconds later : ℕ) (approval_id : String) (d : Payload F)
      → Gives fl risk_cfg c0 (handle_proposal fl risk_cfg t1 rs snapshot proposal)
      → (handle_risk_approval fl cfg t2 st c0).acts ≡ published "compliance.approval" c1 ∷ rest
      → handle_compliance_approval fl isoformat cfg.dict_of_items ttl_seconds later approval_id c1
        ≡ ok (some d)
      → cfg.lower "approved" ≡ "approved"
      → has_required_approvals cfg.lower d ≡ true
  pipeline-has_required_approvals risk_cfg cfg t1 t2 rs snapshot st proposal c0 c1 rest isoformat
        ttl_seconds later approval_id d gives passed released low =
      let k = (approval_iff_Approved fl risk_cfg t1 rs snapshot proposal c0).0 gives in
      let f = figures fl risk_cfg rs snapshot k.symbol k.price k.quantity in
      let s = stamp fl risk_cfg t1 f in
      let read =
        ap (λ c. dict_of fl cfg.dict_of_items (get_value "approvals" c)) k.made
        ∙ approvals-read risk_cfg cfg.dict_of_items t1 proposal
            (Proposal.decision_of fl risk_cfg proposal) k.symbol k.price k.quantity f k.approvals in
      chain_needs_risk fl cfg t2 st c0 c1 rest isoformat ttl_seconds later approval_id d
        (put "risk" s k.approvals) passed released read low
      ∙ ap (is_approved cfg.lower) (get_value-put "risk" "risk" s k.approvals)
      ∙ stamp-is_approved risk_cfg cfg.lower t1 f low
