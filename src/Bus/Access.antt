-- ===== src/Bus/Access.antt =====
-- Who may publish, and what a closed bus refuses (src/agents/messaging.py).
use agenthedge.Prelude.{
  ℕ, ◌≡◌, ◌≢◌, ◌↔◌, inl, inr, Bool, true, false, some, List, [], ◌∷◌, String, Bool-cases, eq_iff,
  arith, ok, refl, Option, none,
}
use agenthedge.Values.{Payload}
use agenthedge.Message.{contains}
use agenthedge.Bus.{Acl, Bus, is_allowed, first_rule, publish, envelope}

-- The first rule whose pattern matches the topic lists the publisher.
pub data FirstRuleAllows (fnmatch : String → String → Bool) (topic publisher : String)
    : Acl → Type 0 where
  decides :
      (pattern_text : String) (allowed : List String) (rules : Acl)
      → fnmatch topic pattern_text ≡ true
      → contains allowed publisher ≡ true
      → FirstRuleAllows fnmatch topic publisher ((pattern_text, allowed) ∷ rules)
  passes :
      (pattern_text : String) (allowed : List String) (rules : Acl)
      → fnmatch topic pattern_text ≡ false
      → FirstRuleAllows fnmatch topic publisher rules
      → FirstRuleAllows fnmatch topic publisher ((pattern_text, allowed) ∷ rules)

module _ (fnmatch : String → String → Bool) (topic publisher : String) where
  first_rule_sound :
      (rules : Acl)
      → first_rule fnmatch topic publisher rules ≡ true
      → FirstRuleAllows fnmatch topic publisher rules
  unfolding first_rule
  first_rule_sound [] h = cc
  first_rule_sound ((p, allowed) ∷ rules) h = elim (Bool-cases (fnmatch topic p)) [
    | inl y ↦ decides p allowed rules y (rw y at h)
    | inr n ↦ passes p allowed rules n (first_rule_sound rules (rw n at h))
  ]

  first_rule_complete :
      {rules : Acl}
      → FirstRuleAllows fnmatch topic publisher rules
      → first_rule fnmatch topic publisher rules ≡ true
  unfolding first_rule
  first_rule_complete (decides p allowed rules y c) = ground arith
  first_rule_complete (passes p allowed rules n r) = ground (arith, first_rule_complete r)

module _ {F : Type 0} where
  -- Under an enforced list with rules, `publish` on an open bus succeeds exactly when there is a
  -- publisher, its name is not empty, and the first rule that matches the topic lists it.
  pub publish-ok_iff_allowed :
      (fnmatch : String → String → Bool) (now : ℕ) (uuid topic : String) (publisher : Option String)
      (payload metadata : Payload F) (b : Bus F)
      → b.closed ≡ false
      → b.enforce_acl ≡ true
      → b.publish_acl ≢ []
      → ((publish fnmatch now uuid topic payload publisher metadata b).0
          ≡ ok (envelope now uuid topic payload publisher metadata))
        ↔ ((p : String) × (publisher ≡ some p)
            × (p ≢ "")
            × FirstRuleAllows fnmatch topic p b.publish_acl)
  unfolding publish is_allowed
  publish-ok_iff_allowed fnmatch now uuid topic none payload metadata b o e r =
      (λ q. ground arith, λ (p, q, named, rule). cc)
  publish-ok_iff_allowed fnmatch now uuid topic (some p) payload metadata b o e r = (
    λ q. (
      p,
      refl,
      λ blank. ground (arith, eq_iff p ""),
      first_rule_sound fnmatch topic p b.publish_acl (ground (arith, eq_iff p "")),
    ),
    λ (p', q, named, rule).
        let same : p' ≡ p = cc in
        ground (arith, eq_iff p "", eq_iff p' "", first_rule_complete fnmatch topic p' rule),
  )
