-- ===== src/Compliance/Outcomes.antt =====
-- What a compliance approval has passed.
use agenthedge.Prelude.{
  ◌≡◌, refl, Bool, true, false, ◌||◌, not, Option, none, some, List, [], ◌∷◌, String, ◌==◌, ap, sym,
  ◌∙◌, if◌then◌else◌, arith,
}
use agenthedge.Values.{Payload, get_value, as_text}
use agenthedge.Floats.{Floats}
use agenthedge.Message.{contains}
use agenthedge.Portfolio.{Portfolio, quantity_of}
use agenthedge.Execution.Checks.{as_float, upper_symbol}
use agenthedge.Compliance.{
  ComplianceSettings, Act, published, audited, refusal, Outcome, Decision, rejected, prohibited,
  accepted, truthy, detect_prohibited, concentration, decide, dict_of, approval_of, approve,
  carry_out, handle_fields, handle_risk_approval,
}

audited-first :
    {F : Type 0} {P : Type 0} (a b : String) (p q : Payload F) (xs ys : List (Act F))
    → audited a p ∷ xs ≡ published b q ∷ ys
    → P
audited-first a b p q xs ys h = cc

published-first :
    {F : Type 0} (a b : String) (p q : Payload F) (xs ys : List (Act F))
    → published a p ∷ xs ≡ published b q ∷ ys
    → (a ≡ b) × (p ≡ q)
published-first a b p q xs ys h = (cc, cc)

kill_switch-approval :
    {F : Type 0} {P : Type 0} (p q : Payload F) (xs ys : List (Act F))
    → published "compliance.kill_switch" p ∷ xs ≡ published "compliance.approval" q ∷ ys
    → P
kill_switch-approval p q xs ys h =
    let e = published-first "compliance.kill_switch" "compliance.approval" p q xs ys h in
    let f : false ≡ true = ap (λ t. t == "compliance.approval") e.0 in cc

module _ (fl : Floats) where
  open fl use {F, add_f, lt_f}

  module _ (cfg : ComplianceSettings F) where
    -- The approval `c` that is published for a payload, with everything that it has passed.
    pub record Cleared (now : String) (st : Portfolio F) (payload c : Payload F) : Type 0 where
      pub symbol : String
      pub price : F
      pub quantity : F
      pub approvals : Payload F
      pub symbol_read :
          upper_symbol fl cfg.upper (as_text (get_value "symbol" payload)) ≡ some symbol
      pub price_read : as_float fl (get_value "price" payload) ≡ some price
      pub quantity_read : as_float fl (get_value "quantity" payload) ≡ some quantity
      pub unrestricted : contains cfg.restricted symbol ≡ false
      pub clean : detect_prohibited fl cfg payload ≡ none
      pub within :
          lt_f cfg.max_position_pct
            (concentration fl cfg st (add_f (quantity_of fl symbol st.positions) quantity) price)
          ≡ false
      pub approvals_read :
          dict_of fl cfg.dict_of_items (get_value "approvals" payload) ≡ some approvals
      pub made :
          c
          ≡ approval_of fl cfg now payload
              (add_f (quantity_of fl symbol st.positions) quantity)
              approvals

    abbrev First : Payload F → List (Act F) → Outcome F → Type 0
    First c rest o = o.acts ≡ published "compliance.approval" c ∷ rest

    decided :
        (st : Portfolio F) (payload : Payload F) (symbol : String) (price quantity projected : F)
        → decide fl cfg st payload symbol price quantity ≡ accepted projected
        → (contains cfg.restricted symbol ≡ false)
          × (detect_prohibited fl cfg payload ≡ none)
          × (lt_f cfg.max_position_pct (concentration fl cfg st projected price) ≡ false)
          × (projected ≡ add_f (quantity_of fl symbol st.positions) quantity)
    unfolding decide
    decided st payload symbol price quantity projected h = ground arith

    carried :
        (now : String) (payload c : Payload F) (rest : List (Act F)) (symbol : String)
        (d : Decision fl cfg)
        → First c rest (carry_out fl cfg now payload symbol d)
        → (projected : F) × (approvals : Payload F) × (d ≡ accepted projected)
          × (dict_of fl cfg.dict_of_items (get_value "approvals" payload) ≡ some approvals)
          × (c ≡ approval_of fl cfg now payload projected approvals)
    carried now payload c rest symbol (rejected reason) h =
        audited-first "compliance_reject" "compliance.approval"
          (refusal fl cfg payload symbol reason) c _ rest h
    carried now payload c rest symbol (prohibited reason) h =
        kill_switch-approval (refusal fl cfg payload symbol reason) c _ rest h
    carried now payload c rest symbol (accepted projected) h =
        let (approvals, e, made) =
          go (dict_of fl cfg.dict_of_items (get_value "approvals" payload)) refl h in
        (projected, approvals, refl, e, made)
      where
        go :
            (o : Option (Payload F))
            → dict_of fl cfg.dict_of_items (get_value "approvals" payload) ≡ o
            → First c rest (approve fl cfg now payload projected o)
            → (approvals : Payload F) × (dict_of fl cfg.dict_of_items
                  (get_value "approvals" payload)
                ≡ some approvals)
              × (c ≡ approval_of fl cfg now payload projected approvals)
        go none e h = cc
        go (some approvals) e h = (
          approvals,
          e,
          sym
              (published-first "compliance.approval" "compliance.approval"
                (approval_of fl cfg now payload projected approvals) c _ rest h).1,
        )

    pub approval-Cleared :
        (now : String) (st : Portfolio F) (payload c : Payload F) (rest : List (Act F))
        → (handle_risk_approval fl cfg now st payload).acts
          ≡ published "compliance.approval" c ∷ rest
        → Cleared now st payload c
    unfolding handle_risk_approval
    approval-Cleared now st payload c rest h =
        go (upper_symbol fl cfg.upper (as_text (get_value "symbol" payload)))
          (as_float fl (get_value "price" payload)) (as_float fl (get_value "quantity" payload))
          refl refl refl h
      where
        passed :
            (symbol : String) (price quantity : F) (early : Bool)
            → First c rest (
                if early
                then record { acts = []; raised = false }
                else carry_out fl cfg now payload symbol
                    (decide fl cfg st payload symbol price quantity))
            → First c rest (
                carry_out fl cfg now payload symbol
                  (decide fl cfg st payload symbol price quantity))
        passed symbol price quantity true h = cc
        passed symbol price quantity false h = h

        go :
            (s : Option String) (p q : Option F)
            → upper_symbol fl cfg.upper (as_text (get_value "symbol" payload)) ≡ s
            → as_float fl (get_value "price" payload) ≡ p
            → as_float fl (get_value "quantity" payload) ≡ q
            → First c rest (handle_fields fl cfg now st payload s p q)
            → Cleared now st payload c
        go none p q e1 e2 e3 h = cc
        go (some symbol) none q e1 e2 e3 h = cc
        go (some symbol) (some price) none e1 e2 e3 h = cc
        go (some symbol) (some price) (some quantity) e1 e2 e3 h =
            let h' =
              passed symbol price quantity
                (symbol == "" || not (truthy fl (get_value "proposal_id" payload))) h in
            let (projected, approvals, d, read, made) =
              carried now payload c rest symbol (decide fl cfg st payload symbol price quantity)
                h' in
            let (unrestricted, clean, within, is) =
              decided st payload symbol price quantity projected d in
            record {
              symbol = symbol;
              price = price;
              quantity = quantity;
              approvals = approvals;
              symbol_read = e1;
              price_read = e2;
              quantity_read = e3;
              unrestricted = unrestricted;
              clean = clean;
              within =
                  ap (λ x. lt_f cfg.max_position_pct (concentration fl cfg st x price)) (sym is)
                  ∙ within;
              approvals_read = read;
              made = made ∙ ap (λ x. approval_of fl cfg now payload x approvals) is;
            }
