-- ===== src/Conductor/Laws.antt =====
-- About the actions of webui/src/stores/conductorStore.ts in any order.
use ga_hub.Prelude.{
  ℕ, ◌≤◌, ◌≡◌, refl, ◌∙◌, sym, String, Bool, true, false, ◌&&◌, ◌||◌, Option, none, some, List, [],
  ◌∷◌, any-append, truthy, opt_eq, Bool-cases, inl, inr, arith, ap, ◌==◌, eq_iff, eq_refl,
}
use ga_hub.Conductor.{
  ConductorSubagent, SnapshotVersion, Conductor, append_activity, add_chat_message,
  hydrate_chat_messages, is_retired, is_past, retire, apply_snapshot, replace_subagents,
  without_boot, with_boot, by_boot, boot_of, revision_of, hydrate_subagents, WorkerEvent,
  worker_event_kind, add_known_worker, add_worker_activity, add_workflow_activity,
  add_turn_activity, upsert_activity, hydrate_activity, ConductorAction, chat, chat_history,
  workers, workers_answer, worker_event, workflow_event, turn_event, row, rows, act, act_all,
}

-- The snapshot is of an engine that was replaced, or no newer than what is shown of this one.
abbrev is_old : String → ℕ → List String → Option String → Option ℕ → Bool
is_old boot revision retired current seen =
    is_retired boot retired || (opt_eq (some boot) current && is_past revision seen)

abbrev pub is_seen : String → ℕ → Conductor → Bool
is_seen boot revision st =
    is_old boot revision st.retired_boot_ids st.engine_boot_id st.engine_snapshot_revision

abbrev pub version_of : String → ℕ → Option SnapshotVersion
version_of boot revision = some (record { boot_id = some boot; snapshot_revision = some revision })

apply_snapshot_seen :
    (st : Conductor) (items : List ConductorSubagent) (boot : String) (revision : ℕ)
    → truthy boot ≡ true
    → is_seen boot revision st ≡ true
    → apply_snapshot st items (version_of boot revision) ≡ st
unfolding apply_snapshot
apply_snapshot_seen st items boot revision t s = rw (t, s) refl

module _ (boot : String) (revision : ℕ) (t : truthy boot ≡ true) where
  -- An engine takes over, or shows a newer snapshot.
  is_old-retire :
      (new : String) (n : ℕ) (retired : List String) (current : Option String) (seen : Option ℕ)
      → is_old boot revision retired current seen ≡ true
      → is_old new n retired current seen ≡ false
      → is_old boot revision (retire new current retired) (some new) (some n) ≡ true
  is_old-retire new n retired none seen h k = ground (arith, h)
  is_old-retire new n retired (some old) none h k =
      ground (arith, h, any-append (λ id. id == boot) retired (old ∷ []))
  is_old-retire new n retired (some old) (some m) h k =
      let split = any-append (λ id. id == boot) retired (old ∷ []) in
      elim (Bool-cases (boot == old)) [
        | inl e ↦
            let same = (eq_iff boot old).0 e in
            let set : truthy old ≡ true = sym (ap truthy same) ∙ t in
            ground
              (arith, h, k, e, set, split, eq_iff new old, eq_iff old boot, eq_iff boot new, same)
        | inr e ↦ ground (arith, h, e, split)
      ]

  without_boot_seen :
      (items : List ConductorSubagent) (st : Conductor)
      → is_seen boot revision st ≡ true
      → is_seen boot revision (without_boot items st) ≡ true
  without_boot_seen items st h = ground (arith, h)

  with_boot_seen :
      (items : List ConductorSubagent) (new : String) (n : Option ℕ) (st : Conductor)
      → is_seen boot revision st ≡ true
      → is_seen boot revision (with_boot items new n st) ≡ true
  with_boot_seen items new none st h = h
  with_boot_seen items new (some n) st h = elim (Bool-cases (is_seen new n st)) [
    | inl e ↦ rw e h
    | inr e ↦
        rw e (
          is_old-retire new n st.retired_boot_ids st.engine_boot_id st.engine_snapshot_revision h e)
  ]

  apply_snapshot-is_seen :
      (items : List ConductorSubagent) (version : Option SnapshotVersion) (st : Conductor)
      → is_seen boot revision st ≡ true
      → is_seen boot revision (apply_snapshot st items version) ≡ true
  unfolding apply_snapshot
  apply_snapshot-is_seen items version st h = by_boot_seen (boot_of version)
    where
      by_boot_seen :
          (new : Option String)
          → is_seen boot revision (by_boot items new (revision_of version) st) ≡ true
      by_boot_seen none = without_boot_seen items st h
      by_boot_seen (some new) = elim (Bool-cases (truthy new)) [
        | inl e ↦ rw e (with_boot_seen items new (revision_of version) st h)
        | inr e ↦ rw e (without_boot_seen items st h)
      ]

  hydrate_subagents-is_seen :
      (items : List ConductorSubagent) (expected : ℕ) (version : Option SnapshotVersion)
      (st : Conductor)
      → is_seen boot revision st ≡ true
      → is_seen boot revision (hydrate_subagents items expected version st) ≡ true
  unfolding hydrate_subagents
  hydrate_subagents-is_seen items expected version st h =
      ground (arith, h, apply_snapshot-is_seen items version st h)

  add_known_worker-is_seen :
      (kind : Option String) (event : WorkerEvent) (now : ℕ) (st : Conductor)
      → is_seen boot revision st ≡ true
      → is_seen boot revision (add_known_worker kind event now st) ≡ true
  unfolding append_activity
  add_known_worker-is_seen none event now st h = h
  add_known_worker-is_seen (some kind) event now st h = ground (arith, h)

  act-is_seen :
      (action : ConductorAction) (st : Conductor)
      → is_seen boot revision st ≡ true
      → is_seen boot revision (act action st) ≡ true
  unfolding act add_chat_message hydrate_chat_messages replace_subagents add_worker_activity
      add_workflow_activity add_turn_activity upsert_activity hydrate_activity append_activity
  act-is_seen (chat msg) st h = h
  act-is_seen (chat_history msgs generation) st h = ground (arith, h)
  act-is_seen (workers items version) st h = apply_snapshot-is_seen items version st h
  act-is_seen (workers_answer items expected version) st h =
      hydrate_subagents-is_seen items expected version st h
  act-is_seen (worker_event event now) st h =
      add_known_worker-is_seen (worker_event_kind event.name) event now st h
  act-is_seen (workflow_event event now) st h = h
  act-is_seen (turn_event event now) st h = ground (arith, h)
  act-is_seen (row event) st h = h
  act-is_seen (rows [] request_id) st h = h
  act-is_seen (rows (event ∷ events) request_id) st h = ground (arith, h)

  act_all-is_seen :
      (actions : List ConductorAction) (st : Conductor)
      → is_seen boot revision st ≡ true
      → is_seen boot revision (act_all actions st) ≡ true
  unfolding act_all
  act_all-is_seen [] st h = h
  act_all-is_seen (action ∷ actions) st h =
      act_all-is_seen actions (act action st) (act-is_seen action st h)

  is_old_later :
      (later : ℕ) (retired : List String) (current : Option String) (seen : Option ℕ)
      → revision ≤ later
      → is_old boot later retired current seen ≡ true
      → is_old boot revision retired current seen ≡ true
  is_old_later later retired current none le h = ground (arith, h)
  is_old_later later retired current (some n) le h = ground (arith, le, h)

  -- A snapshot that was applied is seen, and so are the older ones of its engine.
  apply_snapshot_now_seen :
      (items : List ConductorSubagent) (later : ℕ) (st : Conductor)
      → revision ≤ later
      → is_seen boot revision (apply_snapshot st items (version_of boot later)) ≡ true
  unfolding apply_snapshot
  apply_snapshot_now_seen items later st le = elim (Bool-cases (is_seen boot later st)) [
    | inl e ↦
        rw (t, e)
          (is_old_later later st.retired_boot_ids st.engine_boot_id st.engine_snapshot_revision le
            e)
    | inr e ↦ rw (t, e) (ground (arith, le, eq_refl boot))
  ]

-- Once a snapshot of an engine has arrived, one of the same engine with the same revision or an older
-- one changes nothing, be it pushed or an answer, whatever the store does in between but `clear`,
-- other engines' snapshots included.
pub act_all-apply_snapshot :
    (boot : String) (revision later : ℕ) (items old_items : List ConductorSubagent)
    (actions : List ConductorAction) (expected : ℕ) (st : Conductor)
    → truthy boot ≡ true
    → revision ≤ later
    → let y = act_all actions (replace_subagents items (version_of boot later) st) in
      (replace_subagents old_items (version_of boot revision) y ≡ y)
      × (hydrate_subagents old_items expected (version_of boot revision) y ≡ y)
unfolding replace_subagents hydrate_subagents
act_all-apply_snapshot boot revision later items old_items actions expected st t le =
    (unchanged, ground (arith, unchanged))
  where
    y : Conductor
    y = act_all actions (apply_snapshot st items (version_of boot later))

    unchanged : apply_snapshot y old_items (version_of boot revision) ≡ y
    unchanged = apply_snapshot_seen y old_items boot revision t (
        act_all-is_seen boot revision t actions (apply_snapshot st items (version_of boot later))
          (apply_snapshot_now_seen boot revision t items later st le))
