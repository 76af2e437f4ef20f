-- ===== src/Lease/Tests.antt =====
-- Two instances and one lease.
use agenthedge.Prelude.{ℕ, ◌≡◌, refl, false, none, some, [], ◌∷◌, inl, arith, err, get, put}
use agenthedge.Lease.{
  StateDb, CheckpointRow, lease_changed, acquire_lease, renew_lease, save_checkpoint,
}
use agenthedge.Lease.Fencing.{renew, perform_all, acquire-fences}

abbrev pub empty_db : StateDb ℕ
empty_db = record {
  leases = [];
  checkpoints = [];
  instances = [];
  incidents = [];
  scheduler_runs = [];
}

abbrev first_held : StateDb ℕ
first_held = (acquire_lease 0 0 "a" 10 "main" empty_db).1

abbrev some_row : ℕ → CheckpointRow ℕ
some_row t = record {
  instance_id = "a";
  fence_token = t;
  tick_count = 3;
  bus_checkpoint = 7;
  kill_switch_reason = none;
  kill_switch_trigger = none;
  payload_json = [];
}

abbrev after_takeover : StateDb ℕ
after_takeover =
    perform_all (renew 25 "b" "main" 2 10 ∷ []) (acquire_lease 20 20 "b" 10 "main" first_held).1

acquire-fences_example :
    (renew_lease 26 "a" "main" 1 10 after_takeover ≡ (false, after_takeover))
    × (save_checkpoint 26 "a" "main" (some 1) some_row after_takeover
        ≡ (err lease_changed, after_takeover))
unfolding acquire_lease get put
acquire-fences_example =
    acquire-fences 20 20 "b" 10 "main" first_held (renew 25 "b" "main" 2 10 ∷ []) 26 "a" 1 10
      some_row refl (tt, tt) (omega arith) (inl (omega arith))
