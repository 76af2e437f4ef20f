-- ===== src/BreakGlass/Effect.antt =====
-- What an override does, and for how long.
use agenthedge.Prelude.{
  ℕ, ◌+◌, ◌≤◌, ◌≡◌, refl, sym, ap, ◌∙◌, Bool, true, false, ◌&&◌, ◌||◌, none, some, List, [], ◌∷◌,
  ◌++◌, String, if◌then◌else◌, ◌==◌, ltb, eqb, any, Result, ok, err, ℤ, pos, negsuc, arith,
}
use agenthedge.BreakGlass.{
  Override, BreakGlassError, control_required, reason_required, actor_required, ttl_too_long,
  is_live, positive_ttl, new_row, insert_row, activate, is_active,
}

any-append :
    (p : Override → Bool) (xs ys : List Override) → any p (xs ++ ys) ≡ (any p xs || any p ys)
any-append p [] ys = refl
any-append p (x ∷ xs) ys = ground (arith, any-append p xs ys)

-- what an insertion into the table has come to
abbrev Inserted : ℕ → ℕ → String → ℤ → List Override → List Override → ℕ → String → Type 0
Inserted max_ttl_seconds now control ttl_seconds table table' later c =
    (ttl : ℕ) × (ttl_seconds ≡ pos ttl)
    × (1 ≤ ttl)
    × (ttl ≤ max_ttl_seconds)
    × (is_active later c table'
        ≡ (is_active later c table || (control == c && ltb later (now + ttl))))

or_false : (a b : Bool) → (a || b || false) ≡ (a || b)
or_false a b = ground arith

row-is_active :
    (later : ℕ) (c : String) (table : List Override) (r : Override)
    → r.revoked_at ≡ none
    → is_active later c (table ++ (r ∷ []))
      ≡ (is_active later c table || (r.control_name == c && ltb later r.expires_at))
unfolding is_active is_live
row-is_active later c table r fresh =
    any-append (λ q. q.control_name == c && is_live later q) table (r ∷ []) ∙ ground (arith, fresh)

pair-second :
    {r q : Result BreakGlassError String} {x y : List Override}
    → ◌≡◌ {A = Result BreakGlassError String × List Override} (r, x) (q, y)
    → x ≡ y
pair-second h = ap (λ p. p.1) h

insert_row-Inserted :
    (max_ttl_seconds now : ℕ) (override_id control reason actor id : String) (ttl : ℕ)
    (table table' : List Override) (later : ℕ) (c : String)
    → 1 ≤ ttl
    → insert_row max_ttl_seconds now override_id control reason actor (some ttl) table
      ≡ (ok id, table')
    → Inserted max_ttl_seconds now control (pos ttl) table table' later c
insert_row-Inserted max_ttl_seconds now override_id control reason actor id ttl table table' later c
      one h =
    go (ltb max_ttl_seconds ttl) refl h
  where
    go :
        (long : Bool)
        → ltb max_ttl_seconds ttl ≡ long
        → ◌≡◌ {A = Result BreakGlassError String × List Override}
            (if long then (err ttl_too_long, table) else (
              ok override_id,
              table ++ (new_row now override_id control reason actor ttl ∷ []),
            ))
            (ok id, table')
        → Inserted max_ttl_seconds now control (pos ttl) table table' later c
    go true e h = cc
    go false e h = (
      ttl,
      refl,
      one,
      ground arith,
      ap (is_active later c) (sym (pair-second h))
          ∙ row-is_active later c table (new_row now override_id control reason actor ttl) refl,
    )

positive_ttl-Inserted :
    (max_ttl_seconds now : ℕ) (override_id control reason actor id : String) (ttl_seconds : ℤ)
    (table table' : List Override) (later : ℕ) (c : String)
    → insert_row max_ttl_seconds now override_id control reason actor
        (positive_ttl ttl_seconds)
        table
      ≡ (ok id, table')
    → Inserted max_ttl_seconds now control ttl_seconds table table' later c
positive_ttl-Inserted max_ttl_seconds now override_id control reason actor id (negsuc n) table
      table' later c h =
    cc
positive_ttl-Inserted max_ttl_seconds now override_id control reason actor id (pos n) table table'
      later c h =
    go (eqb n 0) refl h
  where
    go :
        (nil : Bool)
        → eqb n 0 ≡ nil
        → insert_row max_ttl_seconds now override_id control reason actor
            (if nil then none else some n)
            table
          ≡ (ok id, table')
        → Inserted max_ttl_seconds now control (pos n) table table' later c
    go true e h = cc
    go false e h =
        insert_row-Inserted max_ttl_seconds now override_id control reason actor id n table table'
          later c (ground arith) h

-- An activation that succeeds has a positive time to live within the maximum, makes its control active
-- until that time is over, under the stripped name, and changes nothing about any other control or
-- about earlier overrides.
pub activate-is_active :
    (strip : String → String) (max_ttl_seconds now : ℕ)
    (override_id control_name reason created_by id : String) (ttl_seconds : ℤ)
    (table table' : List Override) (later : ℕ) (c : String)
    → activate strip max_ttl_seconds now override_id control_name reason created_by ttl_seconds
        table
      ≡ (ok id, table')
    → (ttl : ℕ) × (ttl_seconds ≡ pos ttl)
      × (1 ≤ ttl)
      × (ttl ≤ max_ttl_seconds)
      × (is_active later c table'
          ≡ (is_active later c table || (strip control_name == c && ltb later (now + ttl))))
unfolding activate
activate-is_active strip max_ttl_seconds now override_id control_name reason created_by id
      ttl_seconds table table' later c h =
    go (strip control_name == "") (strip reason == "") (strip created_by == "") h
  where
    go :
        (x y z : Bool)
        → ◌≡◌ {A = Result BreakGlassError String × List Override}
            (if x
              then (err control_required, table)
              else if y
              then (err reason_required, table)
              else if z
              then (err actor_required, table)
              else insert_row max_ttl_seconds now override_id
                  (strip control_name)
                  (strip reason)
                  (strip created_by)
                  (positive_ttl ttl_seconds)
                  table)
            (ok id, table')
        → Inserted max_ttl_seconds now (strip control_name) ttl_seconds table table' later c
    go true y z h = cc
    go false true z h = cc
    go false false true h = cc
    go false false false h =
        positive_ttl-Inserted max_ttl_seconds now override_id (strip control_name) (strip reason)
          (strip created_by) id ttl_seconds table table' later c h
