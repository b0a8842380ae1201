-- ===== src/Chat/Session.antt =====
-- Showing a session and leaving it: `start`, the answers of its history request, `retryHistory`,
-- `dropSessionView` and `teardown` of webui/src/stores/chatStore.ts. The request's answer names the
-- generation that asked; an aborted request answers to no current generation.
pub mod Laws
mod Shown
unfoldable pub use Shown.*
use ga_hub.Prelude.{
  ℕ, suc, ◌+◌, String, Bool, true, false, not, ◌&&◌, ◌||◌, Option, none, some, List, [], ◌∷◌, ◌++◌,
  filter, if◌then◌else◌, eqb, opt_eq, is_some, or_default, ◌==◌, truthy, is_set,
}
use ga_hub.Reply.{TurnScanner}
use ga_hub.Chat.Message.{ChatMsg, any_streaming}
use ga_hub.Chat.Event.{Frame}
use ga_hub.Chat.History.{DateParser, Projection, history_to_messages}
use ga_hub.Chat.Merge.{merge_live, is_history}
use ga_hub.Chat.Order.{order_conversation_turns}
use ga_hub.Chat.State.{
  ChatState, SessionView, Views, ResumePolicy, restore_position, follow_latest, HistoryStatus, idle,
  loading_history, ready, history_error, OlderStatus, older_idle, older_loading, older_error,
  connecting, closed, lookup_view, put_view, delete_view, prune_session_views, delete_cursor,
}
use ga_hub.Chat.Live.{
  Live, World, Task, restart, reload, force_restart, shows, flush_next, handle_all,
}

module _ ⦃scanner : TurnScanner⦄ where
  -- `runtime.liveCleanup`: the pending frames are shown, and the connection is inactive.
  unfoldable pub cleanup : ℕ → World → World
  unfolding flush_next
  cleanup now w = elim w.live [
    | none ↦ w
    | some l ↦ let w' = flush_next l now w in record w' { live = none }
  ]

  unfoldable pub start : Bool → String → ℕ → World → World
  unfolding cleanup shown_state
  start force session now w =
      let w' = cleanup now w in
      let generation = suc w'.generation in
      let l : Live = record {
        start_id = generation;
        session = session;
        history_ready = resumes force session now w'.state;
        buffered = [];
        pending = [];
        timer = false;
        last_flush = 0;
      } in
      if already_shown force session w.state then w else record w' {
        state = shown_state force session now w'.state;
        generation = generation;
        live = some l;
        older_request = none;
      }

  unfoldable pub retry_history : ℕ → World → World
  unfolding start
  retry_history now w = elim w.state.session_id [
    | none ↦ w
    | some session ↦
        if truthy session && not (is_loading w.state.history_status)
        then start true session now w
        else w
  ]

  abbrev is_current : ℕ → String → World → Bool
  is_current generation session w = eqb generation w.generation && shows session w

  -- The connection takes what it buffered.
  abbrev release : Live → Live
  release l = record l { history_ready = true; buffered = [] }

  -- The buffered frames follow the history, in the order of arrival.
  unfoldable pub drain : ℕ → World → World
  unfolding handle_all
  drain now w = elim w.live [
    | none ↦ w
    | some l ↦ handle_all l.buffered now (record w { live = some (release l) })
  ]

  unfoldable pub history_failed : ℕ → String → String → ℕ → World → World
  unfolding drain
  history_failed generation session message now w =
      let st = w.state in
      let failed = record st {
        history_status = history_error;
        history_error = some message;
        history_revision = none;
        history_has_more = false;
        history_before = none;
        older_history_status = older_idle;
        older_history_error = none;
      } in
      if is_current generation session w then drain now (record w { state = failed }) else w

  module _ ⦃dates : DateParser⦄ where
    unfoldable pub hydrated : HistoryPage → ChatState → ChatState
    unfolding history_to_messages merge_live
    hydrated page st =
        let msgs =
          merge_live (history_to_messages page.items) (filter (λ m. not (is_history m)) st.msgs) in
        record st {
          msgs = msgs;
          streaming = any_streaming msgs;
          history_status = ready;
          history_error = none;
          history_revision = page.revision;
          history_has_more = page.has_more;
          history_before = page.next_before;
          older_history_status = older_idle;
          older_history_error = none;
        }

    unfoldable pub history_loaded : ℕ → String → HistoryPage → ℕ → World → World
    unfolding hydrated drain
    history_loaded generation session page now w =
        if is_current generation session w
        then drain now (record w { state = hydrated page w.state })
        else w

  abbrev wiped : ChatState → ChatState
  wiped st = record st {
    conn = closed;
    history_status = idle;
    history_error = none;
    history_revision = none;
    history_has_more = false;
    history_before = none;
    older_history_status = older_idle;
    older_history_error = none;
    loading_all_history = false;
    all_history_loaded_items = 0;
    sock = false;
    session_id = none;
  }

  unfoldable pub teardown : ℕ → World → World
  unfolding cleanup
  teardown now w =
      let w' = cleanup now (record w { generation = suc w.generation; older_request = none }) in
      record w' { state = wiped w'.state; aborted_streams = [] }

  -- The view is deleted before the connection is cleaned up, and written back after it.
  unfoldable pub drop_session_view : String → ℕ → World → World
  unfolding cleanup delete_view delete_cursor
  drop_session_view session now w =
      let st = w.state in
      let views = delete_view session st.session_views in
      let away = record st { session_views = views } in
      let forgotten = record w { cursors = delete_cursor session w.cursors } in
      let w' =
        cleanup now (record forgotten { generation = suc w.generation; older_request = none }) in
      let gone = wiped w'.state in
      if not (shows session w) then record forgotten { state = away } else record w' {
        state = record gone { msgs = []; streaming = false; session_views = views };
        aborted_streams = [];
      }

  -- A queued microtask.
  unfoldable pub run_task : Task → ℕ → World → World
  unfolding start retry_history
  run_task (restart generation session) now w =
      if is_current generation session w then start false session now w else w
  run_task (reload start_id session) now w = elim w.live [
    | none ↦ w
    | some l ↦ if eqb l.start_id start_id && shows session w then retry_history now w else w
  ]
  run_task (force_restart session) now w = if shows session w then start true session now w else w
