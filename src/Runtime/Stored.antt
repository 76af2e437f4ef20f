-- ===== src/Runtime/Stored.antt =====
-- What the calls on the state tables leave of a stored checkpoint (src/infra/runtime_state.py).
use agenthedge.Prelude.{
  ℕ, ◌+◌, ◌≡◌, refl, ap, ◌∙◌, Bool, true, false, Option, none, some, List, [], ◌∷◌, String, get,
  put, get-put, All, if◌then◌else◌, if_both, ◌==◌, arith, Result, ok, err,
}
use agenthedge.Lease.{
  StateDb, CheckpointRow, LeaseRow, FenceError, lease_changed, is_held, is_owned, save_checkpoint,
  acquire_lease, try_acquire, renew_lease, release_lease, set_lease, lease_row,
}
use agenthedge.Lease.Fencing.{Call, acquire, renew, release, save, perform, perform_all}

module _ {F : Type 0} where
  -- The stored checkpoint of the runtime has the reason.
  abbrev pub HasReason : String → Option (CheckpointRow F) → Type 0
  HasReason reason none = ⊥
  HasReason reason (some row) = row.kill_switch_reason ≡ some reason

  -- The call writes no checkpoint of the runtime.
  abbrev pub Leaves : String → Call F → Type 0
  Leaves name (save now instance_id runtime_name fence_token row) = (runtime_name == name) ≡ false
  Leaves name c = Unit

  pub try_acquire-checkpoints :
      (db_now own_now : ℕ) (i : String) (seconds : ℕ) (name : String) (r : Option LeaseRow)
      (db : StateDb F)
      → (try_acquire db_now own_now i seconds name r db).1.checkpoints ≡ db.checkpoints
  try_acquire-checkpoints db_now own_now i seconds name none db = refl
  try_acquire-checkpoints db_now own_now i seconds name (some row) db = ground arith

  renew_lease-checkpoints :
      (now : ℕ) (i runtime_name : String) (t seconds : ℕ) (db : StateDb F)
      → (renew_lease now i runtime_name t seconds db).1.checkpoints ≡ db.checkpoints
  unfolding renew_lease
  renew_lease-checkpoints now i runtime_name t seconds db =
      if_both {A = Bool × StateDb F} (λ r. r.1.checkpoints ≡ db.checkpoints)
        (is_held i t now (get runtime_name db.leases))
        {x = (true, set_lease runtime_name (lease_row i t (now + seconds)) db)} {y = (false, db)}
        refl refl

  save_checkpoint-others :
      (name : String) (now : ℕ) (i runtime_name : String) (t : ℕ) (row : ℕ → CheckpointRow F)
      (db : StateDb F)
      → (runtime_name == name) ≡ false
      → get name (save_checkpoint now i runtime_name (some t) row db).1.checkpoints
        ≡ get name db.checkpoints
  unfolding save_checkpoint
  save_checkpoint-others name now i runtime_name t row db k =
      if_both {A = Result FenceError Unit × StateDb F}
        (λ r. get name r.1.checkpoints ≡ get name db.checkpoints)
        (is_held i t now (get runtime_name db.leases))
        {x = (ok tt, record db { checkpoints = put runtime_name (row t) db.checkpoints })}
        {y = (err lease_changed, db)}
        (get-put runtime_name name (row t) db.checkpoints
          ∙ ap (λ b. if b then some (row t) else get name db.checkpoints) k)
        refl

  perform-checkpoints :
      (name : String) (c : Call F) (db : StateDb F)
      → Leaves name c
      → get name (perform c db).checkpoints ≡ get name db.checkpoints
  unfolding acquire_lease release_lease save_checkpoint
  perform-checkpoints name (acquire db_now own_now i seconds runtime_name) db k = ap (get name) (
      try_acquire-checkpoints db_now own_now i seconds runtime_name (get runtime_name db.leases) db)
  perform-checkpoints name (renew now i runtime_name t seconds) db k =
      ap (get name) (renew_lease-checkpoints now i runtime_name t seconds db)
  perform-checkpoints name (release i runtime_name t) db k =
      if_both {A = StateDb F} (λ x. get name x.checkpoints ≡ get name db.checkpoints)
        (is_owned i t (get runtime_name db.leases)) {x = record db { leases = _ }} {y = db} refl
        refl
  perform-checkpoints name (save now i runtime_name none row) db k = refl
  perform-checkpoints name (save now i runtime_name (some t) row) db k =
      save_checkpoint-others name now i runtime_name t row db k

  pub perform_all-checkpoints :
      (name : String) (calls : List (Call F)) (db : StateDb F)
      → All (Leaves name) calls
      → get name (perform_all calls db).checkpoints ≡ get name db.checkpoints
  perform_all-checkpoints name [] db k = refl
  perform_all-checkpoints name (c ∷ calls) db k =
      perform_all-checkpoints name calls (perform c db) k.1 ∙ perform-checkpoints name c db k.0
