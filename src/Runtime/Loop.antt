-- ===== src/Runtime/Loop.antt =====
-- `start` and `_run_loop` of the runtime (src/agents/runtime.py). `max_ticks` is 0 where there is no bound.
use agenthedge.Prelude.{
  ℕ, suc, Bool, true, false, ◌&&◌, List, [], ◌∷◌, String, if◌then◌else◌, ltb, leb,
}
use agenthedge.Values.{Payload}
use agenthedge.Runtime.State.{RuntimeSettings, Run, set_rt, stop}
use agenthedge.Runtime.Iteration.{Meets, run_iteration}
use agenthedge.Runtime.Boot.{bootstrap}

module _ {F : Type 0} (cfg : RuntimeSettings F) where
  -- `_run_loop`, over what its iterations meet: the number that it runs, and the runtime then
  unfoldable pub run_loop : (String → Bool) → ℕ → List (Bool × Meets F) → Run F → ℕ × Run F
  unfolding run_iteration
  run_loop is_active max_ticks [] w = (0, w)
  run_loop is_active max_ticks ((enforce, m) ∷ ms) w =
      let w1 = run_iteration cfg is_active enforce m w in
      let w2 =
        if ltb 0 max_ticks && leb max_ticks w1.rt.tick_count then stop cfg is_active w1 else w1 in
      let rest = run_loop is_active max_ticks ms w2 in
      if w.rt.stopped then (0, w) else (suc rest.0, rest.1)

  -- `start` where no thread runs yet: `bootstrap`, which is false where it raises, then the stop event is
  -- cleared and the loop runs
  unfoldable pub start_runtime :
      (String → Bool)
      → ℕ
      → ℕ
      → Payload F
      → List String
      → ℕ
      → List (Bool × Meets F)
      → Run F
      → Bool × (ℕ × Run F)
  unfolding bootstrap run_loop
  start_runtime is_active db_now own_now pending names max_ticks ms w =
      let booted = bootstrap cfg db_now own_now pending names w in
      let w1 = set_rt cfg (record booted.1.rt { stopped = false }) booted.1 in
      if booted.0 then (true, run_loop is_active max_ticks ms w1) else (false, (0, booted.1))
