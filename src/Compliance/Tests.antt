-- ===== src/Compliance/Tests.antt =====
-- A proposal of five shares on an account of a thousand.
use agenthedge.Prelude.{none, [], ◌∷◌, ℤ, pos, ◌==◌}
use agenthedge.Floats.{whole_floats}
use agenthedge.Values.{Payload, text, number, object, field, end}
use agenthedge.Portfolio.{Portfolio}
use agenthedge.Compliance.{ComplianceSettings, approval_of}

abbrev pub settings : ComplianceSettings ℤ
settings = record {
  upper = λ s. s;
  lower = λ s. s;
  occurs_in = λ k t. k == t;
  dict_of_items = λ items. none;
  restricted = "GME" ∷ [];
  prohibited_keywords = "spoofing" ∷ [];
  insider_flags = "mnpi_flag" ∷ [];
  max_position_pct = pos 1;
  soft_delta = pos 0;
  hard_delta = pos 0;
}

abbrev pub funds : Portfolio ℤ
funds = record { cash = pos 1000; realized_pnl = pos 0; positions = []; last_updated = 0 }

abbrev pub risk_stamp : Payload ℤ
risk_stamp = ("risk", object (field "status" (text "approved") end)) ∷ []

abbrev pub proposal : Payload ℤ
proposal =
    ("symbol", text "SPY")
    ∷ ("price", number (pos 20))
    ∷ ("quantity", number (pos 5))
    ∷ ("proposal_id", text "p1")
    ∷ ("thesis", text "trend")
    ∷ ("approvals", object (field "risk" (object (field "status" (text "approved") end)) end))
    ∷ []

abbrev pub cleared : Payload ℤ
cleared = approval_of whole_floats settings "noon" proposal (pos 5) risk_stamp
