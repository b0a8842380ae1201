-- ===== src/Conductor.antt =====
-- webui/src/stores/conductorStore.ts: the conductor's chat, its workers and the activity of its
-- workflows. `Date.now()` is an argument in milliseconds; a time in seconds is a whole number of
-- microseconds. A missing value and null are `none`; an empty text that the source tests for truth is
-- told apart. Worker event names are not the names of JavaScript's object methods.
mod Rows
pub mod Timeline
pub mod Laws
pub mod Bounds
unfoldable pub use Rows.*
use ga_hub.Prelude.{
  ℕ, suc, ◌+◌, ◌*◌, ◌/◌, String, Bool, true, false, not, ◌&&◌, ◌||◌, Option, none, some, List, [],
  ◌∷◌, ◌++◌, any, take_last, sort_by, if◌then◌else◌, ltb, leb, eqb, or_default, truthy, is_set,
  opt_eq, or_text, decimal, ◌⧺◌, ◌==◌,
}
use ga_hub.Conductor.Timeline.{has_id, set_by_id, from_items, merge_timeline, append_row}

-- `engine_snapshot_revision` is `none` for the -1 of the start.
pub record Conductor : Type 0 where
  pub chat_messages : List ConductorChatMessage
  pub subagents : List ConductorSubagent
  pub subagents_revision : ℕ
  pub engine_boot_id : Option String
  pub engine_snapshot_revision : Option ℕ
  pub retired_boot_ids : List String
  pub generation : ℕ
  pub activity : List ConductorActivityEvent

abbrev pub idle : Conductor
idle = record {
  chat_messages = [];
  subagents = [];
  subagents_revision = 0;
  engine_boot_id = none;
  engine_snapshot_revision = none;
  retired_boot_ids = [];
  generation = 0;
  activity = [];
}

abbrev pub chat_id : ConductorChatMessage → String
chat_id item = item.id

abbrev pub chat_ts : ConductorChatMessage → ℕ
chat_ts item = item.ts

abbrev pub row_id : ConductorActivityEvent → String
row_id row = row.id

abbrev pub row_at_ms : ConductorActivityEvent → ℕ
row_at_ms row = row.at_ms

unfoldable pub append_activity : Conductor → ConductorActivityEvent → Conductor
unfolding append_row
append_activity st event = record st {
  activity = append_row row_id row_at_ms activity_limit st.activity event;
}

unfoldable pub add_chat_message : ConductorChatMessage → Conductor → Conductor
unfolding merge_timeline
add_chat_message msg st = record st {
  chat_messages = merge_timeline chat_id chat_ts st.chat_messages (msg ∷ []) 200;
}

unfoldable pub hydrate_chat_messages : List ConductorChatMessage → ℕ → Conductor → Conductor
unfolding merge_timeline
hydrate_chat_messages msgs generation st =
    let y = record st {
      chat_messages = merge_timeline chat_id chat_ts st.chat_messages msgs 200;
    } in
    if not (eqb st.generation generation) then st else y

abbrev pub is_retired : String → List String → Bool
is_retired boot retired = any (λ id. id == boot) retired

-- `revision <= engineSnapshotRevision`.
abbrev pub is_past : ℕ → Option ℕ → Bool
is_past revision none = false
is_past revision (some seen) = leb revision seen

-- The retired engines after `boot` has taken over from another one, if there was one.
abbrev pub retire : String → Option String → List String → List String
retire boot none retired = retired
retire boot (some old) retired =
    if truthy old && not (boot == old) then retired ++ old ∷ [] else retired

abbrev pub without_boot : List ConductorSubagent → Conductor → Conductor
without_boot items st =
    let y = record st { subagents = items; subagents_revision = suc st.subagents_revision } in
    if is_set st.engine_boot_id then st else y

abbrev pub with_boot : List ConductorSubagent → String → Option ℕ → Conductor → Conductor
with_boot items boot none st = st
with_boot items boot (some revision) st =
    let y = record st {
      subagents = items;
      subagents_revision = suc st.subagents_revision;
      engine_boot_id = some boot;
      engine_snapshot_revision = some revision;
      retired_boot_ids = retire boot st.engine_boot_id st.retired_boot_ids;
    } in
    if is_retired boot st.retired_boot_ids
      || (opt_eq (some boot) st.engine_boot_id && is_past revision st.engine_snapshot_revision)
    then st
    else y

abbrev pub by_boot : List ConductorSubagent → Option String → Option ℕ → Conductor → Conductor
by_boot items none revision st = without_boot items st
by_boot items (some boot) revision st =
    if truthy boot then with_boot items boot revision st else without_boot items st

abbrev pub boot_of : Option SnapshotVersion → Option String
boot_of none = none
boot_of (some version) = version.boot_id

abbrev pub revision_of : Option SnapshotVersion → Option ℕ
revision_of none = none
revision_of (some version) = version.snapshot_revision

unfoldable pub apply_snapshot :
    Conductor → List ConductorSubagent → Option SnapshotVersion → Conductor
apply_snapshot st items version = by_boot items (boot_of version) (revision_of version) st

unfoldable pub replace_subagents :
    List ConductorSubagent → Option SnapshotVersion → Conductor → Conductor
unfolding apply_snapshot
replace_subagents items version st = apply_snapshot st items version

-- A boot id that is undefined and one that is null end alike: without one, the second test decides.
unfoldable pub hydrate_subagents :
    List ConductorSubagent → ℕ → Option SnapshotVersion → Conductor → Conductor
unfolding apply_snapshot
hydrate_subagents items expected version st =
    let applied = apply_snapshot st items version in
    if not (eqb st.subagents_revision expected) && not (opt_eq (boot_of version) st.engine_boot_id)
    then st
    else if not (is_set (boot_of version)) && not (eqb st.subagents_revision expected)
    then st
    else applied

abbrev pub add_known_worker : Option String → WorkerEvent → ℕ → Conductor → Conductor
add_known_worker none event now st = st
add_known_worker (some kind) event now st =
    let added = append_activity st (worker_row event (stamp_of event.at now) kind) in
    if not (is_set event.request_id) then st else added

unfoldable pub add_worker_activity : WorkerEvent → ℕ → Conductor → Conductor
add_worker_activity event now st = add_known_worker (worker_event_kind event.name) event now st

unfoldable pub add_workflow_activity : WorkflowEvent → ℕ → Conductor → Conductor
add_workflow_activity event now st =
    let ts = stamp_of event.at now in
    append_activity st (record {
      id = event.kind ⧺ ":" ⧺ event.request_id;
      request_id = event.request_id;
      kind = event.kind;
      at = ts;
      at_ms = stamp_ms event.at_ms ts;
      text = or_text event.text (if event.kind == "workflow_completed" then "任务完成" else "任务失败");
      worker_id = none;
    })

unfoldable pub add_turn_activity : TurnEvent → ℕ → Conductor → Conductor
add_turn_activity event now st =
    let ts = stamp_of event.at now in
    let stamp = stamp_ms event.at_ms ts in
    let added = append_activity st (record {
      id = "turn:" ⧺ event.request_id ⧺ ":" ⧺ event.status ⧺ ":" ⧺ decimal stamp;
      request_id = event.request_id;
      kind = request_outcome_kind event.status;
      at = ts;
      at_ms = stamp;
      text = if event.status == "ok" then "Conductor 完成一轮处理" else "Conductor 本轮处理失败";
      worker_id = none;
    }) in
    if event.status == "yielded" then st else added

unfoldable pub upsert_activity : ConductorActivityEvent → Conductor → Conductor
upsert_activity event st = append_activity st event

-- The loop of `hydrateActivity`: the map and `changed`.
unfoldable pub hydrate_rows :
    String
    → List ConductorActivityEvent
    → Bool
    → List ConductorActivityEvent
    → List ConductorActivityEvent × Bool
unfolding set_by_id
hydrate_rows request_id by_id changed [] = (by_id, changed)
hydrate_rows request_id by_id changed (row ∷ rows) =
    let skipped = not (row.request_id == request_id) || has_id row_id row by_id in
    hydrate_rows request_id (if skipped then by_id else set_by_id row_id row by_id)
      (changed || not skipped) rows

unfoldable pub hydrate_activity : List ConductorActivityEvent → String → Conductor → Conductor
unfolding from_items hydrate_rows
hydrate_activity [] request_id st = st
hydrate_activity (row ∷ rows) request_id st =
    let merged = hydrate_rows request_id (from_items row_id [] st.activity) false (row ∷ rows) in
    let y = record st { activity = take_last activity_limit (sort_by row_at_ms merged.0) } in
    if not merged.1 then st else y

unfoldable pub clear : Conductor → Conductor
clear st = record {
  chat_messages = [];
  subagents = [];
  subagents_revision = suc st.subagents_revision;
  engine_boot_id = none;
  engine_snapshot_revision = none;
  retired_boot_ids = [];
  generation = suc st.generation;
  activity = [];
}

-- The actions but `clear`.
pub data ConductorAction : Type 0 where
  chat : (msg : ConductorChatMessage) → ConductorAction
  chat_history : (msgs : List ConductorChatMessage) → (generation : ℕ) → ConductorAction
  workers : (items : List ConductorSubagent) → (version : Option SnapshotVersion) → ConductorAction
  workers_answer :
      (items : List ConductorSubagent)
      → (expected : ℕ) → (version : Option SnapshotVersion) → ConductorAction
  worker_event : (event : WorkerEvent) → (now : ℕ) → ConductorAction
  workflow_event : (event : WorkflowEvent) → (now : ℕ) → ConductorAction
  turn_event : (event : TurnEvent) → (now : ℕ) → ConductorAction
  row : (event : ConductorActivityEvent) → ConductorAction
  rows : (events : List ConductorActivityEvent) → (request_id : String) → ConductorAction

unfoldable pub act : ConductorAction → Conductor → Conductor
act (chat msg) st = add_chat_message msg st
act (chat_history msgs generation) st = hydrate_chat_messages msgs generation st
act (workers items version) st = replace_subagents items version st
act (workers_answer items expected version) st = hydrate_subagents items expected version st
act (worker_event event now) st = add_worker_activity event now st
act (workflow_event event now) st = add_workflow_activity event now st
act (turn_event event now) st = add_turn_activity event now st
act (row event) st = upsert_activity event st
act (rows events request_id) st = hydrate_activity events request_id st

unfoldable pub act_all : List ConductorAction → Conductor → Conductor
unfolding act
act_all [] st = st
act_all (action ∷ actions) st = act_all actions (act action st)
