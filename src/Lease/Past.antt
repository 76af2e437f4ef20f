-- ===== src/Lease/Past.antt =====
-- The tokens that a lease has gone past (src/infra/runtime_state.py).
use agenthedge.Prelude.{
  ℕ, ◌+◌, ◌<◌, ◌≤◌, ◌≡◌, ◌≢◌, ◌⊎◌, inl, inr, refl, sym, ◌∙◌, subst, true, false, Option, none, some,
  String, get, get-put_self, eq_iff, arith, Bool-cases,
}
use agenthedge.Lease.{LeaseRow, StateDb, lease_row, is_held, set_lease}

-- The lease has gone to the holder of a token, or further.
abbrev pub IsPast : String → ℕ → Option LeaseRow → Type 0
IsPast owner token none = ⊥
IsPast owner token (some row) =
    (token < row.fence_token) ⊎ ((row.fence_token ≡ token) × (row.owner_instance_id ≡ owner))

pub bumped :
    {owner : String} {token : ℕ} (row next : LeaseRow)
    → next.fence_token ≡ row.fence_token + 1
    → IsPast owner token (some row)
    → IsPast owner token (some next)
bumped row next e (inl l) = inl (omega (arith, e, l))
bumped row next e (inr (t, o)) = inl (omega (arith, e, t))

held-owner :
    (i : String) (t now : ℕ) (row : LeaseRow)
    → is_held i t now (some row) ≡ true
    → row.owner_instance_id ≡ i
held-owner i t now row h = ground (arith, eq_iff row.owner_instance_id i)

held-token :
    (i : String) (t now : ℕ) (row : LeaseRow)
    → is_held i t now (some row) ≡ true
    → row.fence_token ≡ t
held-token i t now row h = ground arith

-- The one who renews is the one who holds it.
pub held-IsPast :
    {owner : String} {token : ℕ} (i : String) (t now expires : ℕ) (row : LeaseRow)
    → is_held i t now (some row) ≡ true
    → IsPast owner token (some row)
    → IsPast owner token (some (lease_row i t expires))
held-IsPast i t now expires row h (inl l) = inl (omega (arith, l, held-token i t now row h))
held-IsPast i t now expires row h (inr (e, o)) =
    inr (sym (held-token i t now row h) ∙ e, sym (held-owner i t now row h) ∙ o)

pub past-is_held :
    (owner i : String) (token t now : ℕ) (r : Option LeaseRow)
    → IsPast owner token r
    → t ≤ token
    → (t < token) ⊎ (i ≢ owner)
    → is_held i t now r ≡ false
past-is_held owner i token t now none p l o = absurd p
past-is_held owner i token t now (some row) p l o = elim (Bool-cases (is_held i t now (some row))) [
  | inr h ↦ h
  | inl h ↦ absurd (fenced row h p o)
]
  where
    fenced :
        (row : LeaseRow)
        → is_held i t now (some row) ≡ true
        → IsPast owner token (some row)
        → (t < token) ⊎ (i ≢ owner)
        → ⊥
    fenced row h (inl p) o = omega (arith, held-token i t now row h, p, l)
    fenced row h (inr p) (inl o) = omega (arith, held-token i t now row h, p.0, o)
    fenced row h (inr p) (inr o) = o (sym (held-owner i t now row h) ∙ p.1)

pub granted :
    {F : Type 0} (owner name : String) (token expires : ℕ) (db : StateDb F)
    → IsPast owner token (get name (set_lease name (lease_row owner token expires) db).leases)
granted owner name token expires db =
    subst (IsPast owner token) (sym (get-put_self name (lease_row owner token expires) db.leases))
      (inr (refl, refl))
