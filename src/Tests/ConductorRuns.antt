-- ===== src/Tests/ConductorRuns.antt =====
-- Runs of webui/src/stores/conductorStore.ts: an engine is replaced by another one, and rows come twice.
use ga_hub.Prelude.{◌≡◌, refl, none, some, List, [], ◌∷◌, arith}
use ga_hub.Conductor.{
  ConductorSubagent, ConductorActivityEvent, TurnEvent, idle, replace_subagents, hydrate_subagents,
  ConductorAction, chat, workers, row, rows, turn_event, act_all,
}
use ga_hub.Conductor.Laws.{version_of, act_all-apply_snapshot}
use ga_hub.Conductor.Bounds.{IsKept, act_all-IsKept}

abbrev worker : ConductorSubagent
worker = record { id = "w1"; prompt = "read"; reply = ""; status = "running" }

abbrev spawned_row : ConductorActivityEvent
spawned_row = record {
  id = "e1";
  request_id = "r1";
  kind = "worker_spawned";
  at = 2000000;
  at_ms = 2000;
  text = "started";
  worker_id = some "w1";
}

abbrev earlier_row : ConductorActivityEvent
earlier_row = record spawned_row { id = "e0"; at = 1000000; at_ms = 1000 }

abbrev turn : TurnEvent
turn = record { request_id = "r1"; status = "ok"; at = none; at_ms = none }

abbrev actions : List ConductorAction
actions =
    row spawned_row
    ∷ workers [] (version_of "b2" 0)
    ∷ rows (earlier_row ∷ spawned_row ∷ []) "r1"
    ∷ chat (record { id = "m1"; role = "user"; msg = "go"; ts = 1; request_id = none })
    ∷ turn_event turn 3000
    ∷ []

act_all-apply_snapshot_example :
    let y = act_all actions (replace_subagents (worker ∷ []) (version_of "b1" 7) idle) in
    (replace_subagents [] (version_of "b1" 6) y ≡ y)
    × (hydrate_subagents [] 1 (version_of "b1" 6) y ≡ y)
act_all-apply_snapshot_example =
    act_all-apply_snapshot "b1" 6 7 (worker ∷ []) [] actions 1 idle refl (omega arith)

act_all-IsKept_example : IsKept (act_all actions idle)
act_all-IsKept_example = act_all-IsKept actions idle ((tt, tt, omega arith), (tt, tt, omega arith))
