-- ===== src/Chat/Pages.antt =====
-- Paging back: `loadOlderHistory` of webui/src/stores/chatStore.ts as a request and its answers, and
-- the decisions of one round of the loop of `loadAllHistory`.
pub mod Laws
pub mod AllHistory
use ga_hub.Prelude.{
  ℕ, suc, ◌-◌, String, Bool, true, false, not, ◌&&◌, ◌||◌, Option, none, some, [], ◌∷◌, ◌++◌,
  length, if◌then◌else◌, eqb, leb, opt_eq, is_some, is_set, or_default,
}
use ga_hub.Reply.{TurnScanner}
use ga_hub.Chat.History.{DateParser, history_to_messages}
use ga_hub.Chat.State.{
  ChatState, OlderStatus, older_idle, older_loading, older_error, prepend_unique_history,
}
use ga_hub.Chat.Live.{World, force_restart, shows}
use ga_hub.Chat.Session.{HistoryPage, is_ready, is_failed}

abbrev pub is_older_loading : OlderStatus → Bool
is_older_loading older_loading = true
is_older_loading _ = false

abbrev is_older_error : OlderStatus → Bool
is_older_error older_error = true
is_older_error _ = false

abbrev pub can_page : ChatState → Bool
can_page st =
    is_set st.session_id
    && is_ready st.history_status
    && st.history_has_more
    && is_some st.history_before
    && not (is_older_loading st.older_history_status)

-- A request that was sent: its number, session and edge.
pub record OlderRequest : Type 0 where
  pub id : ℕ
  pub session : String
  pub before : ℕ

-- The first part of `loadOlderHistory`, up to the wait.
unfoldable pub request_older : World → World × Option OlderRequest
request_older w =
    let st = w.state in
    let id = suc w.older_count in
    let asked = record st { older_history_status = older_loading; older_history_error = none } in
    let request : OlderRequest = record {
      id = id;
      session = or_default st.session_id "";
      before = or_default st.history_before 0;
    } in
    if can_page st
    then (record w { state = asked; older_count = id; older_request = some id }, some request)
    else (w, none)

abbrev open_as : Option ℕ → ℕ → Bool
open_as none id = false
open_as (some n) id = eqb n id

abbrev is_open : OlderRequest → World → Bool
is_open r w = open_as w.older_request r.id

-- `finally`: the request is closed, if it is the newest one.
abbrev close_request : OlderRequest → World → World
close_request r w = if is_open r w then record w { older_request = none } else w

module _ ⦃scanner : TurnScanner⦄ ⦃dates : DateParser⦄ where
  unfoldable pub prepended : HistoryPage → ChatState → ChatState
  unfolding prepend_unique_history history_to_messages
  prepended page st = record st {
    msgs = prepend_unique_history (history_to_messages page.items) st.msgs;
    history_has_more = page.has_more;
    history_before = page.next_before;
    older_history_status = older_idle;
    older_history_error = none;
  }

  -- The page arrives. Of another revision it is discarded, and the history is loaded anew.
  unfoldable pub older_loaded : OlderRequest → HistoryPage → World → World
  unfolding prepended
  older_loaded r page w =
      let st = w.state in
      let quiet = record st { older_history_status = older_idle; older_history_error = none } in
      if not (is_open r w) || not (shows r.session w)
      then close_request r w
      else close_request r (
          if opt_eq st.history_revision page.revision
          then record w { state = prepended page st }
          else record w { state = quiet; tasks = w.tasks ++ force_restart r.session ∷ [] })

unfoldable pub older_failed : OlderRequest → String → World → World
older_failed r message w =
    let st = w.state in
    let failed = record st {
      older_history_status = older_error;
      older_history_error = some message;
    } in
    if not (is_open r w) || not (shows r.session w)
    then close_request r w
    else close_request r (record w { state = failed })

-- What a round of the sweep does next; `wait` gives the delay in milliseconds.
pub data Sweep : Type 0 where
  stop : Sweep
  wait : (delay stalled : ℕ) → Sweep
  page : Sweep
  advance : (added : ℕ) → Sweep

-- Before a page is asked for.
unfoldable pub sweep_before : String → Bool → ℕ → ChatState → Sweep
sweep_before session expired stalled st =
    if not (opt_eq st.session_id (some session)) || expired
    then stop
    else if is_failed st.history_status
    then stop
    else if not (is_ready st.history_status)
    then wait 250 stalled
    else if not st.history_has_more || not (is_some st.history_before)
    then stop
    else page

abbrev stall : ℕ → ℕ → Sweep
stall delay stalled = if leb 3 (suc stalled) then stop else wait delay (suc stalled)

-- After the page was answered.
unfoldable pub sweep_after : String → ℕ → ChatState → ChatState → Sweep
sweep_after session stalled before after =
    let added = length after.msgs - length before.msgs in
    if not (opt_eq after.session_id (some session))
    then stop
    else if is_older_error after.older_history_status || is_failed after.history_status
    then stall 750 stalled
    else if not (opt_eq after.history_revision before.history_revision)
    then stall 900 stalled
    else if eqb added 0 && after.history_has_more && is_some after.history_before
    then stall 400 stalled
    else advance added
