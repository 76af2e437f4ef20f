-- ===== src/Lease.antt =====
-- `PostgresRuntimeStateSink` (src/infra/runtime_state.py): its tables as dicts by primary key or lists of rows, each
-- method's transaction as one step. `NOW()` of the database and the clock of the process are arguments.
pub mod Fencing
pub mod Past
pub mod Tests
use agenthedge.Prelude.{
  ℕ, ◌+◌, ◌-◌, Bool, true, false, not, ◌&&◌, Option, none, some, List, [], ◌∷◌, ◌++◌, String, Dict,
  get, put, pop, if◌then◌else◌, ◌==◌, ltb, leb, eqb, Result, ok, err,
}
use agenthedge.Values.{Payload}

pub record LeaseRow : Type 0 where
  pub owner_instance_id : String
  pub fence_token : ℕ
  pub lease_expires_at : ℕ

pub record CheckpointRow (F : Type 0) : Type 0 where
  pub instance_id : String
  pub fence_token : ℕ
  pub tick_count : ℕ
  pub bus_checkpoint : ℕ
  pub kill_switch_reason : Option String
  pub kill_switch_trigger : Option String
  pub payload_json : Payload F

pub record InstanceRow : Type 0 where
  pub profile : String
  pub backend : String
  pub status : String
  pub started_at : ℕ
  pub last_heartbeat : ℕ

pub record IncidentRow (F : Type 0) : Type 0 where
  pub instance_id : String
  pub event_type : String
  pub payload_json : Payload F

pub record RunRow (F : Type 0) : Type 0 where
  pub run_id : String
  pub job_name : String
  pub status : String
  pub details_json : Payload F
  pub instance_id : String
  pub created_at : ℕ

pub record StateDb (F : Type 0) : Type 0 where
  pub leases : Dict LeaseRow
  pub checkpoints : Dict (CheckpointRow F)
  pub instances : Dict InstanceRow
  pub incidents : List (IncidentRow F)
  pub scheduler_runs : List (RunRow F)

-- what `acquire_lease` returns, with the failover time that it notes
pub record Grant : Type 0 where
  pub acquired : Bool
  pub token : ℕ
  pub failover_seconds : Option ℕ

pub data FenceError : Type 0 where
  token_required lease_changed : FenceError

abbrev pub lease_row : String → ℕ → ℕ → LeaseRow
lease_row instance_id token expires = record {
  owner_instance_id = instance_id;
  fence_token = token;
  lease_expires_at = expires;
}

-- the WHERE of a renewal and of a checkpoint
abbrev pub is_held : String → ℕ → ℕ → Option LeaseRow → Bool
is_held instance_id token now none = false
is_held instance_id token now (some row) =
    row.owner_instance_id == instance_id
    && eqb row.fence_token token
    && ltb now row.lease_expires_at

-- the WHERE of a release
abbrev pub is_owned : String → ℕ → Option LeaseRow → Bool
is_owned instance_id token none = false
is_owned instance_id token (some row) =
    row.owner_instance_id == instance_id && eqb row.fence_token token

-- `str(value) if value else None`
abbrev pub nonempty : Option String → Option String
nonempty none = none
nonempty (some s) = if s == "" then none else some s

abbrev pub started_row : ℕ → String → String → Option InstanceRow → InstanceRow
started_row now profile backend none = record {
  profile = profile;
  backend = backend;
  status = "running";
  started_at = now;
  last_heartbeat = now;
}
started_row now profile backend (some row) = record row {
  profile = profile;
  backend = backend;
  status = "running";
  last_heartbeat = now;
}

abbrev pub beaten : ℕ → String → String → Option InstanceRow → Dict InstanceRow → Dict InstanceRow
beaten now instance_id status none rows = rows
beaten now instance_id status (some row) rows =
    put instance_id (record row { status = status; last_heartbeat = now }) rows

module _ {F : Type 0} where
  abbrev pub set_lease : String → LeaseRow → StateDb F → StateDb F
  set_lease runtime_name row db = record db { leases = put runtime_name row db.leases }

  -- the row that is there, or that is not
  abbrev pub try_acquire :
      ℕ → ℕ → String → ℕ → String → Option LeaseRow → StateDb F → Grant × StateDb F
  try_acquire db_now own_now instance_id lease_seconds runtime_name none db = (
    record { acquired = true; token = 1; failover_seconds = some 0 },
    set_lease runtime_name (lease_row instance_id 1 (db_now + lease_seconds)) db,
  )
  try_acquire db_now own_now instance_id lease_seconds runtime_name (some row) db =
      let next_token = row.fence_token + 1 in
      let taken =
        set_lease runtime_name (lease_row instance_id next_token (db_now + lease_seconds)) db in
      if row.owner_instance_id == instance_id
      then (record { acquired = true; token = next_token; failover_seconds = some 0 }, taken)
      else if leb row.lease_expires_at own_now
      then (
        record {
          acquired = true;
          token = next_token;
          failover_seconds = some (own_now - row.lease_expires_at);
        },
        taken,
      )
      else (record { acquired = false; token = row.fence_token; failover_seconds = none }, db)

  -- `acquire_lease`
  unfoldable pub acquire_lease : ℕ → ℕ → String → ℕ → String → StateDb F → Grant × StateDb F
  acquire_lease db_now own_now instance_id lease_seconds runtime_name db =
      try_acquire db_now own_now instance_id lease_seconds runtime_name (get runtime_name db.leases)
        db

  -- `renew_lease`: whether a row was updated
  unfoldable pub renew_lease : ℕ → String → String → ℕ → ℕ → StateDb F → Bool × StateDb F
  renew_lease now instance_id runtime_name fence_token lease_seconds db =
      if is_held instance_id fence_token now (get runtime_name db.leases)
      then (
        true,
        set_lease runtime_name (lease_row instance_id fence_token (now + lease_seconds)) db,
      )
      else (false, db)

  -- `release_lease`
  unfoldable pub release_lease : String → String → ℕ → StateDb F → StateDb F
  release_lease instance_id runtime_name fence_token db =
      if is_owned instance_id fence_token (get runtime_name db.leases)
      then record db { leases = pop runtime_name db.leases }
      else db

  -- `save_checkpoint` of a row, whose instance and token are those of the call
  unfoldable pub save_checkpoint :
      ℕ
      → String
      → String
      → Option ℕ
      → (ℕ → CheckpointRow F)
      → StateDb F
      → Result FenceError Unit × StateDb F
  save_checkpoint now instance_id runtime_name none row db = (err token_required, db)
  save_checkpoint now instance_id runtime_name (some token) row db =
      if is_held instance_id token now (get runtime_name db.leases)
      then (ok tt, record db { checkpoints = put runtime_name (row token) db.checkpoints })
      else (err lease_changed, db)

  abbrev pub loaded : Option (CheckpointRow F) → Option (CheckpointRow F)
  loaded none = none
  loaded (some row) = some (record row {
    kill_switch_reason = nonempty row.kill_switch_reason;
    kill_switch_trigger = nonempty row.kill_switch_trigger;
  })

  -- `load_checkpoint`
  unfoldable pub load_checkpoint : String → StateDb F → Option (CheckpointRow F)
  load_checkpoint runtime_name db = loaded (get runtime_name db.checkpoints)

  -- `mark_started`
  unfoldable pub mark_started : ℕ → String → String → String → StateDb F → StateDb F
  mark_started now instance_id profile backend db = record db {
    instances =
        put instance_id (started_row now profile backend (get instance_id db.instances))
          db.instances;
  }

  -- `heartbeat`
  unfoldable pub heartbeat : ℕ → String → String → StateDb F → StateDb F
  heartbeat now instance_id status db = record db {
    instances = beaten now instance_id status (get instance_id db.instances) db.instances;
  }

  -- `record_incident`
  unfoldable pub record_incident : String → String → Payload F → StateDb F → StateDb F
  record_incident instance_id event_type payload db = record db {
    incidents =
        db.incidents
        ++ (record { instance_id = instance_id; event_type = event_type; payload_json = payload }
            ∷ []);
  }

  -- `record_scheduler_run`
  unfoldable pub record_scheduler_run :
      ℕ → String → String → String → String → Payload F → StateDb F → StateDb F
  record_scheduler_run now run_id instance_id job_name status details db = record db {
    scheduler_runs =
        db.scheduler_runs
        ++ (record {
          run_id = run_id;
          job_name = job_name;
          status = status;
          details_json = details;
          instance_id = instance_id;
          created_at = now;
        }
            ∷ []);
  }
