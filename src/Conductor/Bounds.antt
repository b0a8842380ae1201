-- ===== src/Conductor/Bounds.antt =====
-- About the timelines that webui/src/stores/conductorStore.ts keeps.
use ga_hub.Prelude.{
  ℕ, String, Bool, false, not, ◌||◌, Option, none, some, List, [], ◌∷◌, Distinct, ◌&&◌, opt_eq,
  if_holds, Bool-cases, inl, inr, ◌==◌, if◌then◌else◌, truthy, is_set, eqb,
}
use ga_hub.Conductor.Timeline.{same_id, has_id, set_by_id, from_items}
use ga_hub.Conductor.Timeline.Laws.{
  IsTimeline, bounded-IsTimeline, set_by_id-Distinct, from_items-Distinct,
  merge_timeline-IsTimeline, append_row-IsTimeline,
}
use ga_hub.Conductor.{
  ConductorSubagent, ConductorActivityEvent, Conductor, chat_id, chat_ts, row_id, row_at_ms,
  activity_limit, append_activity, add_chat_message, hydrate_chat_messages, apply_snapshot,
  replace_subagents, by_boot, boot_of, revision_of, hydrate_subagents, WorkerEvent,
  worker_event_kind, add_known_worker, add_worker_activity, add_workflow_activity,
  add_turn_activity, upsert_activity, hydrate_rows, hydrate_activity, ConductorAction, chat,
  chat_history, workers, workers_answer, worker_event, workflow_event, turn_event, row, rows, act,
  act_all,
}

-- Chat and activity have distinct ids, stand in the order of their times and keep to their bounds, 200
-- messages and 4000 rows.
abbrev pub IsKept : Conductor → Type 0
IsKept st =
    (IsTimeline chat_id chat_ts 200 st.chat_messages)
    × (IsTimeline row_id row_at_ms activity_limit st.activity)

hydrate_rows-Distinct :
    (request_id : String) (by_id : List ConductorActivityEvent) (changed : Bool)
    (events : List ConductorActivityEvent)
    → Distinct (same_id row_id) by_id
    → Distinct (same_id row_id) (hydrate_rows request_id by_id changed events).0
unfolding hydrate_rows
hydrate_rows-Distinct request_id by_id changed [] d = d
hydrate_rows-Distinct request_id by_id changed (event ∷ events) d =
    let skipped = not (event.request_id == request_id) || has_id row_id event by_id in
    hydrate_rows-Distinct request_id (if skipped then by_id else set_by_id row_id event by_id)
      (changed || not skipped) events
      (if_holds (Distinct (same_id row_id)) skipped by_id (set_by_id row_id event by_id) d
        (set_by_id-Distinct row_id event by_id d))

hydrate_activity-IsKept :
    (events : List ConductorActivityEvent) (request_id : String) (st : Conductor)
    → IsKept st
    → IsKept (hydrate_activity events request_id st)
unfolding hydrate_activity
hydrate_activity-IsKept [] request_id st k = k
hydrate_activity-IsKept (event ∷ events) request_id st (c, a) =
    let by_id = from_items row_id [] st.activity in
    let merged = hydrate_rows request_id by_id false (event ∷ events) in
    elim (Bool-cases merged.1) [
      | inl e ↦ rw e (
        c,
        bounded-IsTimeline row_id row_at_ms activity_limit merged.0 (
            hydrate_rows-Distinct request_id by_id false (event ∷ events)
              (from_items-Distinct row_id [] st.activity tt)),
      )
      | inr e ↦ rw e (c, a)
    ]

append_activity-IsKept :
    (st : Conductor) (event : ConductorActivityEvent)
    → IsKept st
    → IsKept (append_activity st event)
unfolding append_activity
append_activity-IsKept st event (c, a) =
    (c, append_row-IsTimeline row_id row_at_ms activity_limit st.activity event a)

add_known_worker-IsKept :
    (kind : Option String) (event : WorkerEvent) (now : ℕ) (st : Conductor)
    → IsKept st
    → IsKept (add_known_worker kind event now st)
add_known_worker-IsKept none event now st k = k
add_known_worker-IsKept (some kind) event now st k =
    if_holds IsKept (not (is_set event.request_id)) st _ k (append_activity-IsKept st _ k)

by_boot-IsKept :
    (items : List ConductorSubagent) (boot : Option String) (revision : Option ℕ) (st : Conductor)
    → IsKept st
    → IsKept (by_boot items boot revision st)
by_boot-IsKept items none revision st k = if_holds IsKept (is_set st.engine_boot_id) st _ k k
by_boot-IsKept items (some boot) none st k =
    if_holds IsKept (truthy boot) _ _ k (if_holds IsKept (is_set st.engine_boot_id) st _ k k)
by_boot-IsKept items (some boot) (some revision) st k =
    if_holds IsKept (truthy boot) _ _ (if_holds IsKept _ st _ k k)
      (if_holds IsKept (is_set st.engine_boot_id) st _ k k)

act-IsKept : (action : ConductorAction) (st : Conductor) → IsKept st → IsKept (act action st)
unfolding act add_chat_message hydrate_chat_messages replace_subagents apply_snapshot
    hydrate_subagents add_worker_activity add_workflow_activity add_turn_activity upsert_activity
act-IsKept (chat msg) st (c, a) =
    (merge_timeline-IsTimeline chat_id chat_ts st.chat_messages (msg ∷ []) 200, a)
act-IsKept (chat_history msgs generation) st (c, a) =
    if_holds IsKept (not (eqb st.generation generation)) st _ (c, a)
      (merge_timeline-IsTimeline chat_id chat_ts st.chat_messages msgs 200, a)
act-IsKept (workers items version) st k =
    by_boot-IsKept items (boot_of version) (revision_of version) st k
act-IsKept (workers_answer items expected version) st k =
    let applied = apply_snapshot st items version in
    let late = not (eqb st.subagents_revision expected) in
    let unset = not (is_set (boot_of version)) && late in
    if_holds IsKept (late && not (opt_eq (boot_of version) st.engine_boot_id)) st
      (if unset then st else applied) k
      (if_holds IsKept unset st applied k
        (by_boot-IsKept items (boot_of version) (revision_of version) st k))
act-IsKept (worker_event event now) st k =
    add_known_worker-IsKept (worker_event_kind event.name) event now st k
act-IsKept (workflow_event event now) st k = append_activity-IsKept st _ k
act-IsKept (turn_event event now) st k = if_holds IsKept _ st _ k (append_activity-IsKept st _ k)
act-IsKept (row event) st k = append_activity-IsKept st event k
act-IsKept (rows events request_id) st k = hydrate_activity-IsKept events request_id st k

-- Whatever actions the store takes, its chat and its activity keep distinct ids and the order of
-- their times, and never hold more than 200 messages and 4000 rows, if they did at the start.
pub act_all-IsKept :
    (actions : List ConductorAction) (st : Conductor) → IsKept st → IsKept (act_all actions st)
unfolding act_all
act_all-IsKept [] st k = k
act_all-IsKept (action ∷ actions) st k =
    act_all-IsKept actions (act action st) (act-IsKept action st k)
