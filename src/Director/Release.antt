-- ===== src/Director/Release.antt =====
-- What the approval chain proves to the execution agent, across the compliance, director and
-- execution agents.
use agenthedge.Prelude.{
  ℕ, ◌≡◌, refl, ap, ◌∙◌, Bool, true, false, ◌&&◌, not, Option, none, some, [], ◌∷◌, String, get,
  put, get-put, if◌then◌else◌, ok, ◌==◌, arith,
}
use agenthedge.Values.{
  Value, text, object, Items, field, end, Payload, get_value, as_dict, as_text, to_dict, of_dict,
}
use agenthedge.Floats.{Floats}
use agenthedge.Execution.Checks.{is_approved, has_required_approvals}
use agenthedge.Compliance.{truthy, dict_of}
use agenthedge.Director.{release_of, released, handle_compliance_approval}

pub get_value-put :
    {F : Type 0} (k j : String) (v : Value F) (d : Payload F)
    → get_value j (put k v d) ≡ (if k == j then v else get_value j d)
unfolding get_value
get_value-put k j v d = ground (arith, get-put k j v d)

pub to_dict-of_dict : {F : Type 0} (d : Payload F) → to_dict (of_dict d) ≡ d
unfolding to_dict of_dict
to_dict-of_dict [] = refl
to_dict-of_dict ((k, v) ∷ d) = ap (λ e. (k, v) ∷ e) (to_dict-of_dict d)

pub and_true : (a b : Bool) → (a && b && true) ≡ (a && b)
and_true true b = ground arith
and_true false b = ground arith

pub stamped-approved :
    (F : Type 0) (lower : String → String) (now : String)
    → lower "approved" ≡ "approved"
    → is_approved {F = F} lower
        (object (field "status" (text "approved") (field "timestamp" (text now) end)))
      ≡ true
unfolding is_approved as_dict as_text get_value to_dict get
stamped-approved F lower now low = rw low refl

module _ (fl : Floats) where
  open fl use {F}

  module _ (isoformat : ℕ → String) (dict_of_items : Items F → Option (Payload F))
      (ttl_seconds : ℕ) where
    -- what the director publishes comes from the approvals that it read
    pub released_lem :
        (now : ℕ) (approval_id : String) (payload d approvals : Payload F)
        → handle_compliance_approval fl isoformat dict_of_items ttl_seconds now approval_id payload
          ≡ ok (some d)
        → dict_of fl dict_of_items (get_value "approvals" payload) ≡ some approvals
        → d ≡ release_of fl isoformat dict_of_items ttl_seconds now approval_id payload approvals
    unfolding handle_compliance_approval
    released_lem now approval_id payload d approvals h a =
        go (not (truthy fl (get_value "proposal_id" payload)))
          (dict_of fl dict_of_items (get_value "approvals" payload)) h a
      where
        go :
            (c : Bool) (o : Option (Payload F))
            → (if c
                then ok none
                else released fl isoformat dict_of_items ttl_seconds now approval_id payload o)
              ≡ ok (some d)
            → o ≡ some approvals
            → d
              ≡ release_of fl isoformat dict_of_items ttl_seconds now approval_id payload approvals
        go true o h a = cc
        go false none h a = cc
        go false (some x) h a = cc

    required_lem :
        (lower : String → String) (payload approvals : Payload F)
        → get "approvals" payload ≡ some (object (of_dict approvals))
        → has_required_approvals lower payload ≡ (
            is_approved lower (get_value "risk" approvals)
            && is_approved lower (get_value "compliance" approvals)
            && is_approved lower (get_value "director" approvals))
    unfolding has_required_approvals as_dict get_value
    required_lem lower payload approvals h = ground (arith, h, to_dict-of_dict approvals)

    pub release-approvals :
        (lower : String → String) (now : ℕ) (approval_id : String) (payload approvals : Payload F)
        → lower "approved" ≡ "approved"
        → has_required_approvals lower
            (release_of fl isoformat dict_of_items ttl_seconds now approval_id payload approvals)
          ≡ (is_approved lower (get_value "risk" approvals)
              && is_approved lower (get_value "compliance" approvals))
    unfolding release_of
    release-approvals lower now approval_id payload approvals low =
        let stamped =
          object
            (field "status" (text "approved") (field "timestamp" (text (isoformat now)) end)) in
        let ready = put "director" stamped approvals in
        let e =
          required_lem lower
            (release_of fl isoformat dict_of_items ttl_seconds now approval_id payload approvals)
            ready (simp get-put) in
        let r : get_value "risk" ready ≡ get_value "risk" approvals =
          get_value-put "director" "risk" stamped approvals in
        let c : get_value "compliance" ready ≡ get_value "compliance" approvals =
          get_value-put "director" "compliance" stamped approvals in
        let d : get_value "director" ready ≡ stamped =
          get_value-put "director" "director" stamped approvals in
        let y = stamped-approved F lower (isoformat now) low in
        e
        ∙ keep_two (get_value "risk" ready) (get_value "risk" approvals)
            (get_value "compliance" ready) (get_value "compliance" approvals)
            (get_value "director" ready) r c (ap (is_approved lower) d ∙ y)
      where
        keep_two :
            (u v w x z : Value F)
            → u ≡ v
            → w ≡ x
            → is_approved lower z ≡ true
            → (is_approved lower u && is_approved lower w && is_approved lower z)
              ≡ (is_approved lower v && is_approved lower x)
        keep_two u v w x z p q t =
            rw (p, q, t) (and_true (is_approved lower v) (is_approved lower x))
