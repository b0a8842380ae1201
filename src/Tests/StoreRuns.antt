-- ===== src/Tests/StoreRuns.antt =====
-- Runs of webui/src/stores/chatStore.ts and webui/src/stores/draftStore.ts: questions that are staged
-- and drafts that fail, and older pages.
use ga_hub.Prelude.{
  All, arith, leb, length, or_default, ◌≡◌, refl, true, false, none, some, [], ◌∷◌,
}
use ga_hub.Chat.Actions.{stage_name, stage_webui, rollback_webui}
use ga_hub.Chat.Actions.Laws.{rollback_webui-stage_webui}
use ga_hub.Chat.History.{coalesce_archive_runs}
use ga_hub.Chat.History.Laws.{DistinctRuns, coalesce_archive_runs-DistinctRuns}
use ga_hub.Chat.Merge.{Placed, Marked, lay_all}
use ga_hub.Chat.Merge.Laws.{has_place, lay_all-repeated}
use ga_hub.Chat.Pages.{OlderRequest, older_loaded, older_failed}
use ga_hub.Chat.Pages.AllHistory.{
  Meanwhile, is_released, load_all_history, load_all_history-is_released,
}
use ga_hub.Chat.Pages.Laws.{start-older}
use ga_hub.Chat.Live.{World}
use ga_hub.Chat.Session.{start}
use ga_hub.Draft.{
  DraftState, begin_submission, fail_submission, set_text, text_of, attachments_of, matches, field,
}
use ga_hub.Draft.Laws.{begin_submission-fail_submission, set_text-fail_submission}
use ga_hub.Tests.Fixtures.{
  no_turns, no_dates, question, answer, settled_answer, store, connection, world, empty_page,
}

rollback_webui-stage_webui_example :
    (rollback_webui (stage_name 1) (stage_webui 1 "Hi" [] 30 store).0).msgs ≡ question ∷ answer ∷ []
rollback_webui-stage_webui_example = rollback_webui-stage_webui 1 "Hi" [] 30 store refl

coalesce_archive_runs-DistinctRuns_example :
    DistinctRuns
      (coalesce_archive_runs ⦃scanner = no_turns⦄ (question ∷ settled_answer ∷ question ∷ []))
coalesce_archive_runs-DistinctRuns_example =
    coalesce_archive_runs-DistinctRuns ⦃scanner = no_turns⦄
      (question ∷ settled_answer ∷ question ∷ [])

lay_all-repeated_example :
    let live : Marked = (question, false) ∷ (answer, false) ∷ [] in
    let out : Placed = (settled_answer, settled_answer) ∷ [] in
    let laid = lay_all ⦃scanner = no_turns⦄ out live in
    All (λ e. has_place laid e ≡ true) live
    × (length (lay_all ⦃scanner = no_turns⦄ laid live) ≡ length laid)
lay_all-repeated_example =
    lay_all-repeated ⦃scanner = no_turns⦄ ((settled_answer, settled_answer) ∷ [])
      ((question, false) ∷ (answer, false) ∷ []) (refl, (refl, tt))

abbrev paged : World
paged =
    let w = world none in
    let st = store in
    record w { state = record st { history_has_more = true; history_before = some 64 } }

abbrev older : OlderRequest
older = record { id = 1; session = "a"; before = 64 }

-- A walk whose pages are all lost.
abbrev lost_pages : Meanwhile
lost_pages = record {
  delayed = λ step w. w;
  paged = λ step w. older_failed older "lost" w;
  expired = λ step. false;
}

-- The same, with a deadline that passes after 600 rounds.
abbrev late_deadline : Meanwhile
late_deadline = record {
  delayed = λ step w. w;
  paged = λ step w. older_failed older "lost" w;
  expired = λ step. leb 600 step;
}

load_all_history-is_released_example :
    (is_released (or_default paged.state.session_id "") (load_all_history lost_pages paged) ≡ true)
    × (load_all_history lost_pages paged ≡ load_all_history late_deadline paged)
load_all_history-is_released_example =
    load_all_history-is_released lost_pages late_deadline paged refl
      (λ i h. (refl, refl, ground (arith, h)))

start-older_example :
    (older_loaded ⦃scanner = no_turns⦄ ⦃dates = no_dates⦄ older empty_page
        (start ⦃scanner = no_turns⦄ false "b" 800 (world (some (connection true))))
      ≡ start ⦃scanner = no_turns⦄ false "b" 800 (world (some (connection true))))
    × (older_failed older "lost"
          (start ⦃scanner = no_turns⦄ false "b" 800 (world (some (connection true))))
        ≡ start ⦃scanner = no_turns⦄ false "b" 800 (world (some (connection true))))
start-older_example =
    start-older ⦃scanner = no_turns⦄ ⦃dates = no_dates⦄ false "b" 800
      (world (some (connection true))) older empty_page "lost" refl

abbrev drafts : DraftState
drafts = record {
  texts = ("a", "Hi") ∷ [];
  attachments = [];
  revisions = ("a", 3) ∷ [];
  submissions = [];
  sequence = 0;
}

begin_submission-fail_submission_example :
    let st' = (fail_submission 1 false (begin_submission "a" "Hi" [] drafts).0).0 in
    ((fail_submission 1 false (begin_submission "a" "Hi" [] drafts).0).1 ≡ true)
    × (text_of st' "a" ≡ "Hi")
    × (attachments_of st' "a" ≡ [])
    × (st'.submissions ≡ [])
unfolding matches text_of attachments_of field
begin_submission-fail_submission_example =
    begin_submission-fail_submission "a" "Hi" [] drafts refl refl refl

set_text-fail_submission_example :
    let r =
      fail_submission 1 false (set_text "a" "Hello" (begin_submission "a" "Hi" [] drafts).0) in
    (r.1 ≡ false) × (text_of r.0 "a" ≡ "Hello")
unfolding matches text_of attachments_of field
set_text-fail_submission_example =
    set_text-fail_submission "a" "Hi" [] drafts refl refl refl "Hello"
