-- ===== src/Director.antt =====
-- `DirectorAgent._handle_compliance_approval` (src/agents/impl/director.py): the approval that lets an
-- order go to execution. `isoformat` and `dict()` of a list are parameters.
pub mod Release
pub mod Chain
pub mod Pipeline
mod Tests
use agenthedge.Prelude.{
  ℕ, ◌+◌, Bool, not, Option, none, some, String, put, if◌then◌else◌, Result, ok, err,
}
use agenthedge.Values.{Value, text, object, Items, end, field, Payload, get_value, of_dict}
use agenthedge.Floats.{Floats}
use agenthedge.Compliance.{truthy, value_or, dict_of}

module _ (fl : Floats) where
  open fl use {F}

  module _ (isoformat : ℕ → String) (dict_of_items : Items F → Option (Payload F))
      (ttl_seconds : ℕ) where
    -- the payload of `director.approval`
    unfoldable pub release_of : ℕ → String → Payload F → Payload F → Payload F
    unfolding value_or get_value of_dict
    release_of now approval_id payload approvals =
        put "expires_at" (text (isoformat (now + ttl_seconds))) (
          put "director_approval_id" (text approval_id) (
            put "approvals"
              (object (
                of_dict (
                  put "director"
                    (object (
                      field "status" (text "approved")
                        (field "timestamp" (text (isoformat now)) end)))
                    approvals)))
              (put "decision_id"
                (value_or fl (get_value "decision_id" payload) (get_value "proposal_id" payload))
                payload)))

    abbrev pub released :
        ℕ → String → Payload F → Option (Payload F) → Result String (Option (Payload F))
    released now approval_id payload none = err "dict"
    released now approval_id payload (some approvals) =
        ok (some (release_of now approval_id payload approvals))

    -- what is published on `director.approval`, if anything, or the raise of `dict()`
    unfoldable pub handle_compliance_approval :
        ℕ → String → Payload F → Result String (Option (Payload F))
    unfolding truthy get_value dict_of release_of
    handle_compliance_approval now approval_id payload =
        if not (truthy fl (get_value "proposal_id" payload))
        then ok none
        else released now approval_id payload
            (dict_of fl dict_of_items (get_value "approvals" payload))
