-- ===== src/Director/Tests.antt =====
-- The same proposal on its way to execution.
use agenthedge.Prelude.{
  inl, inr, pos, ℕ, Option, get, put, ◌≡◌, refl, true, some, [], ◌∷◌, String, ℤ,
}
use agenthedge.Floats.{whole_floats}
use agenthedge.Values.{Payload, get_value, text, object, field, end}
use agenthedge.Execution.Checks.{has_required_approvals}
use agenthedge.Compliance.{counted, handle_risk_approval, normalize_field}
use agenthedge.Portfolio.{quantity_of}
use agenthedge.Compliance.Tests.{settings, funds, proposal, cleared, risk_stamp}
use agenthedge.Director.{release_of, handle_compliance_approval}
use agenthedge.Director.Pipeline.{pipeline-has_required_approvals}
use agenthedge.Compliance.{approval_of, approved_at}
use agenthedge.Risk.Proposal
use agenthedge.Risk.Proposal.{handle_proposal, stamp, figures}
use agenthedge.Risk.Tests.{limits, calm, accepted_proposal}

abbrev iso : ℕ → String
iso t = "later"

abbrev parse : String → Option ℕ
parse s = some 910

abbrev both : Payload ℤ
both =
    ("risk", object (field "status" (text "approved") end))
    ∷ (
      "compliance",
      object (field "status" (text "approved") (field "timestamp" (text "noon") end)),
    )
    ∷ []

abbrev released : Payload ℤ
released = release_of whole_floats iso settings.dict_of_items 900 10 "a1" cleared both

abbrev from_risk : Payload ℤ
from_risk = accepted_proposal

abbrev from_compliance : Payload ℤ
from_compliance = approval_of whole_floats settings "noon" from_risk (pos 5) (
    put "risk"
      (stamp whole_floats limits "dawn"
        (figures whole_floats limits calm funds "SPY" (pos 20) (pos 5)))
      risk_stamp)

abbrev all_three : Payload ℤ
all_three = put "compliance" (approved_at whole_floats settings "noon") (
    put "risk"
      (stamp whole_floats limits "dawn"
        (figures whole_floats limits calm funds "SPY" (pos 20) (pos 5)))
      risk_stamp)

pipeline-has_required_approvals_example :
    has_required_approvals settings.lower
      (release_of whole_floats iso settings.dict_of_items 900 10 "a1" from_compliance all_three)
    ≡ true
unfolding handle_risk_approval handle_compliance_approval get normalize_field quantity_of put
    handle_proposal Proposal.approval_of figures get_value
pipeline-has_required_approvals_example =
    pipeline-has_required_approvals whole_floats limits settings "dawn" "noon" calm funds funds
      proposal from_risk from_compliance (counted true ∷ []) iso 900 10 "a1"
      (release_of whole_floats iso settings.dict_of_items 900 10 "a1" from_compliance all_three)
      (inr (inl refl)) refl refl refl
