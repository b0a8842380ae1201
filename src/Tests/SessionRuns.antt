-- ===== src/Tests/SessionRuns.antt =====
-- Runs of webui/src/utils/sessionUi.ts: a preview of two of three sessions, and a refused request.
use ga_hub.Prelude.{
  ◌++◌, ◌≤◌, ◌≡◌, ◌⊎◌, refl, true, false, none, some, List, [], ◌∷◌, any, take, length, arith,
}
use ga_hub.SessionUi.{
  HubSession, is_session, session_preview, Failure, text_value, number_value, object,
  capacity_conflict_from_error, capacity_full, start_aborted_from_error,
}
use ga_hub.SessionUi.Laws.{session_preview-any}

abbrev sessions : List HubSession
sessions =
    record { id = "a"; title = "A" }
    ∷ record { id = "b"; title = "B" }
    ∷ record { id = "c"; title = "C" }
    ∷ []

session_preview-any_example :
    let preview = session_preview sessions (some "c") 2 in
    (any (is_session "c") preview ≡ true)
    × (length preview ≤ 2)
    × (((any (is_session "c") (take 2 sessions) ≡ false)
          × (preview ≡ take 1 sessions ++ record { id = "c"; title = "C" } ∷ []))
        ⊎ ((any (is_session "c") (take 2 sessions) ≡ true) × (preview ≡ take 2 sessions)))
session_preview-any_example =
    session_preview-any sessions "c" (record { id = "c"; title = "C" }) 2 refl refl (omega arith)

abbrev busy : Failure
busy = record {
  text = none;
  status = some 409;
  detail = object (("code", text_value "agent_busy") ∷ ("capacity", number_value 2) ∷ []);
  message = none;
}

conflict_of_busy :
    capacity_conflict_from_error busy
    ≡ some (record {
      message = "会话运行容量已满。";
      active_session_id = none;
      active_run_id = none;
      capacity = some 2;
      active_count = none;
      reason = capacity_full;
    })
unfolding capacity_conflict_from_error
conflict_of_busy = refl

busy_is_no_abort : start_aborted_from_error busy ≡ false
unfolding start_aborted_from_error
busy_is_no_abort = refl
