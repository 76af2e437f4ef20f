-- ===== src/BreakGlass.antt =====
-- `PostgresBreakGlassStore` (src/infra/break_glass.py). The table `ah_break_glass_overrides` is the list
-- of its rows in the order of insertion; `NOW()` and the UUID are arguments, and so is `str.strip`.
pub mod Effect
mod Tests
use agenthedge.Prelude.{
  ℕ, ◌+◌, Bool, true, false, not, ◌&&◌, Option, none, some, List, [], ◌∷◌, ◌++◌, String,
  if◌then◌else◌, ◌==◌, ltb, leb, eqb, any, keep_if, map, Result, ok, err, ℤ, pos, negsuc,
}

pub record Override : Type 0 where
  pub override_id : String
  pub control_name : String
  pub reason : String
  pub expires_at : ℕ
  pub created_by : String
  pub created_at : ℕ
  pub revoked_at : Option ℕ

pub data BreakGlassError : Type 0 where
  control_required reason_required actor_required ttl_not_positive ttl_too_long : BreakGlassError

abbrev never_revoked : Option ℕ → Bool
never_revoked none = true
never_revoked (some t) = false

-- `revoked_at IS NULL AND expires_at > NOW()`
unfoldable pub is_live : ℕ → Override → Bool
is_live now r = never_revoked r.revoked_at && ltb now r.expires_at

-- the number of seconds of a `ttl_seconds` that is positive
abbrev pub positive_ttl : ℤ → Option ℕ
positive_ttl (pos n) = if eqb n 0 then none else some n
positive_ttl (negsuc n) = none

abbrev pub new_row : ℕ → String → String → String → String → ℕ → Override
new_row now override_id control reason actor ttl = record {
  override_id = override_id;
  control_name = control;
  reason = reason;
  expires_at = now + ttl;
  created_by = actor;
  created_at = now;
  revoked_at = none;
}

abbrev pub insert_row :
    ℕ
    → ℕ
    → String
    → String
    → String
    → String
    → Option ℕ
    → List Override
    → Result BreakGlassError String × List Override
insert_row max_ttl_seconds now override_id control reason actor none table =
    (err ttl_not_positive, table)
insert_row max_ttl_seconds now override_id control reason actor (some ttl) table =
    if ltb max_ttl_seconds ttl
    then (err ttl_too_long, table)
    else (ok override_id, table ++ (new_row now override_id control reason actor ttl ∷ []))

unfoldable pub activate :
    (String → String)
    → ℕ
    → ℕ
    → String
    → String
    → String
    → String
    → ℤ
    → List Override
    → Result BreakGlassError String × List Override
activate strip max_ttl_seconds now override_id control_name reason created_by ttl_seconds table =
    if strip control_name == ""
    then (err control_required, table)
    else if strip reason == ""
    then (err reason_required, table)
    else if strip created_by == ""
    then (err actor_required, table)
    else insert_row max_ttl_seconds now override_id (strip control_name) (strip reason)
        (strip created_by) (positive_ttl ttl_seconds) table

-- the rows that the UPDATE of `revoke` takes
abbrev pub to_revoke : ℕ → String → Override → Bool
to_revoke now override_id r = r.override_id == override_id && is_live now r

unfoldable pub revoked : ℕ → String → Override → Override
revoked now override_id r =
    if to_revoke now override_id r then record r { revoked_at = some now } else r

unfoldable pub revoke :
    (String → String)
    → ℕ
    → String
    → String
    → List Override
    → Result BreakGlassError Bool × List Override
unfolding revoked
revoke strip now override_id revoked_by table =
    if strip revoked_by == ""
    then (err actor_required, table)
    else (ok (any (to_revoke now override_id) table), map (revoked now override_id) table)

unfoldable pub is_active : ℕ → String → List Override → Bool
is_active now control_name table = any (λ r. r.control_name == control_name && is_live now r) table

-- a row into its place by `expires_at`
unfoldable pub insert_by_expiry : Override → List Override → List Override
insert_by_expiry r [] = r ∷ []
insert_by_expiry r (q ∷ qs) =
    let rest = insert_by_expiry r qs in
    if leb r.expires_at q.expires_at then r ∷ q ∷ qs else q ∷ rest

unfoldable pub order_by_expiry : List Override → List Override
unfolding insert_by_expiry
order_by_expiry [] = []
order_by_expiry (r ∷ rs) = insert_by_expiry r (order_by_expiry rs)

unfoldable pub active_overrides : ℕ → List Override → List Override
unfolding order_by_expiry
active_overrides now table = order_by_expiry (keep_if (is_live now) table)
