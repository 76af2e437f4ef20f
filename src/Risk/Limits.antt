-- ===== src/Risk/Limits.antt =====
-- The risk agent approves what has passed its limits, and nothing else (src/agents/impl/risk.py).
use agenthedge.Prelude.{
  ◌≡◌, refl, sym, ◌∙◌, Bool, true, false, ◌||◌, not, Option, none, some, List, [], ◌∷◌, ◌++◌,
  String, Any, if◌then◌else◌, if_both, ◌↔◌, inl, inr, ◌==◌, arith,
}
use agenthedge.Values.{Value, Payload, get_value}
use agenthedge.Floats.{Floats}
use agenthedge.Portfolio.{Portfolio}
use agenthedge.Execution.Checks.{as_float}
use agenthedge.Compliance.{truthy, dict_of}
use agenthedge.Risk.{RiskSettings, RiskState, Act, published, observed, nothing_done, symbol_of}
use agenthedge.Risk.Proposal.{
  Figures, Verdict, over_notional, over_leverage, over_var, within_limits, figures, verdict_of,
  approval_of, approve, carry_out, decision_of, figures_seen, handle_fields, handle_proposal,
}
use agenthedge.Risk.Approved.{Approved, Gives, figures-notional, reject-absent}
use agenthedge.Risk.Silent.{observed-published, published-payload}

module _ (fl : Floats) (cfg : RiskSettings (Floats.F fl)) where
  open fl use {F, one_f, mul_f, abs_f, lt_f}

  within_limits-tests :
      (f : Figures F)
      → verdict_of fl cfg f ≡ within_limits
      → (lt_f f.limit f.notional ≡ false)
        × (lt_f cfg.max_leverage f.leverage ≡ false)
        × (lt_f cfg.max_var_pct f.var_pct ≡ false)
  unfolding verdict_of
  within_limits-tests f h = ground arith

  approve-made :
      (now : String) (payload c : Payload F) (decision_id : Value F) (symbol : String)
      (price quantity : F) (f : Figures F) (o : Option (Payload F))
      → Gives fl cfg c (approve fl cfg now payload decision_id symbol price quantity f o)
      → (approvals : Payload F) × (o ≡ some approvals)
        × (c ≡ approval_of fl cfg now payload decision_id symbol price quantity f approvals)
  approve-made now payload c decision_id symbol price quantity f none m = absurd m
  approve-made now payload c decision_id symbol price quantity f (some approvals) m =
      (approvals, refl, sym (go cfg.observes m))
    where
      go :
          (b : Bool)
          → Any
              (λ a. a ≡ published "risk.approval" c)
              ((if b then observed (figures_seen fl cfg f) ∷ [] else [])
                ++ (published "risk.approval"
                      (approval_of fl cfg now payload decision_id symbol price quantity f approvals)
                    ∷ []))
          → approval_of fl cfg now payload decision_id symbol price quantity f approvals ≡ c
      go true (inl e) = absurd (observed-published (figures_seen fl cfg f) c e)
      go true (inr (inl e)) = published-payload _ c e
      go true (inr (inr m)) = absurd m
      go false (inl e) = published-payload _ c e
      go false (inr m) = absurd m

  carried-made :
      (now : String) (payload c : Payload F) (symbol : String) (price quantity : F) (f : Figures F)
      (v : Verdict)
      → verdict_of fl cfg f ≡ v
      → Gives fl cfg c
          (carry_out fl cfg now payload (decision_of fl cfg payload) symbol price quantity f v)
      → (verdict_of fl cfg f ≡ within_limits)
        × (approvals : Payload F) × (dict_of fl cfg.dict_of_items (get_value "approvals" payload)
            ≡ some approvals)
        × (c
            ≡ approval_of fl cfg now payload
                (decision_of fl cfg payload)
                symbol
                price
                quantity
                f
                approvals)
  carried-made now payload c symbol price quantity f over_notional e m =
      absurd
        (reject-absent fl cfg now _ (decision_of fl cfg payload) symbol "notional_limit" _ _ c m)
  carried-made now payload c symbol price quantity f over_leverage e m = absurd (
      reject-absent fl cfg now _ (decision_of fl cfg payload) symbol "gross_leverage_limit" _ _ c m)
  carried-made now payload c symbol price quantity f over_var e m =
      absurd (reject-absent fl cfg now _ (decision_of fl cfg payload) symbol "var_limit" _ _ c m)
  carried-made now payload c symbol price quantity f within_limits e m =
      let (approvals, read, made) =
        approve-made now payload c (decision_of fl cfg payload) symbol price quantity f
          (dict_of fl cfg.dict_of_items (get_value "approvals" payload)) m in
      (e, approvals, read, made)

  fields-Approved :
      (now : String) (st : RiskState F) (snapshot : Portfolio F) (payload c : Payload F)
      (symbol : Option String) (price quantity : Option F)
      → symbol_of cfg.str (get_value "symbol" payload) ≡ symbol
      → as_float fl (get_value "price" payload) ≡ price
      → as_float fl (get_value "quantity" payload) ≡ quantity
      → Gives fl cfg c (handle_fields fl cfg now st snapshot payload symbol price quantity)
      → Approved fl cfg now st snapshot payload c
  fields-Approved now st snapshot payload c none p q a b d m = absurd m
  fields-Approved now st snapshot payload c (some s) none q a b d m = absurd m
  fields-Approved now st snapshot payload c (some s) (some p) none a b d m = absurd m
  fields-Approved now st snapshot payload c (some s) (some p) (some q) a b d m =
      go (s == "") (truthy fl (get_value "proposal_id" payload)) refl refl m
    where
      go :
          (e t : Bool)
          → (s == "") ≡ e
          → truthy fl (get_value "proposal_id" payload) ≡ t
          → Gives fl cfg c (
              if e || not t
              then nothing_done
              else carry_out fl cfg now payload
                  (decision_of fl cfg payload)
                  s
                  p
                  q
                  (figures fl cfg st snapshot s p q)
                  (verdict_of fl cfg (figures fl cfg st snapshot s p q)))
          → Approved fl cfg now st snapshot payload c
      go true t g h n = absurd n
      go false false g h n = absurd n
      go false true g h n =
          let f = figures fl cfg st snapshot s p q in
          let (within, approvals, read, made) =
            carried-made now payload c s p q f (verdict_of fl cfg f) refl n in
          let w = within_limits-tests f within in
          record {
            symbol = s;
            price = p;
            quantity = q;
            approvals = approvals;
            symbol_read = a;
            symbol_given = g;
            price_read = b;
            quantity_read = d;
            named = h;
            approvals_read = read;
            notional_within = figures-notional fl cfg st snapshot s p q ∙ w.0;
            leverage_within = w.1;
            var_within = w.2;
            made = made;
          }

  -- A payload that is published has passed the tests.
  pub approval-Approved :
      (now : String) (st : RiskState F) (snapshot : Portfolio F) (payload c : Payload F)
      → Gives fl cfg c (handle_proposal fl cfg now st snapshot payload)
      → Approved fl cfg now st snapshot payload c
  unfolding handle_proposal
  approval-Approved now st snapshot payload c m =
      fields-Approved now st snapshot payload c (symbol_of cfg.str (get_value "symbol" payload))
        (as_float fl (get_value "price" payload)) (as_float fl (get_value "quantity" payload)) refl
        refl refl m

  approve-Gives :
      (now : String) (payload : Payload F) (decision_id : Value F) (symbol : String)
      (price quantity : F) (f : Figures F) (approvals : Payload F)
      → Gives fl cfg
          (approval_of fl cfg now payload decision_id symbol price quantity f approvals)
          (approve fl cfg now payload decision_id symbol price quantity f (some approvals))
  approve-Gives now payload decision_id symbol price quantity f approvals =
      if_both {A = List (Act F)}
        (λ xs.
          Any
            (λ a.
              a
              ≡ published "risk.approval"
                  (approval_of fl cfg now payload decision_id symbol price quantity f approvals))
            (xs
              ++ (published "risk.approval"
                    (approval_of fl cfg now payload decision_id symbol price quantity f approvals)
                  ∷ [])))
        cfg.observes {x = observed (figures_seen fl cfg f) ∷ []} {y = []} (inr (inl refl))
        (inl refl)

  -- Whatever has passed all of that is published.
  Approved-approval :
      (now : String) (st : RiskState F) (snapshot : Portfolio F) (payload c : Payload F)
      → Approved fl cfg now st snapshot payload c
      → Gives fl cfg c (handle_proposal fl cfg now st snapshot payload)
  unfolding handle_proposal verdict_of
  Approved-approval now st snapshot payload c k =
      rw
        (
          k.symbol_read,
          k.price_read,
          k.quantity_read,
          k.symbol_given,
          k.named,
          sym (figures-notional fl cfg st snapshot k.symbol k.price k.quantity) ∙ k.notional_within,
          k.leverage_within,
          k.var_within,
          k.approvals_read,
          k.made,
        )
        (approve-Gives now payload (decision_of fl cfg payload) k.symbol k.price k.quantity
          (figures fl cfg st snapshot k.symbol k.price k.quantity) k.approvals)

  pub approval_iff_Approved :
      (now : String) (st : RiskState F) (snapshot : Portfolio F) (payload c : Payload F)
      → Gives fl cfg c (handle_proposal fl cfg now st snapshot payload)
        ↔ Approved fl cfg now st snapshot payload c
  approval_iff_Approved now st snapshot payload c =
      (approval-Approved now st snapshot payload c, Approved-approval now st snapshot payload c)
