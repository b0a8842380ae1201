-- ===== src/Chat/State.antt =====
-- The state of webui/src/stores/chatStore.ts and its pure helpers: the cache of session views, the
-- event cursors, and the joining of older history.
pub mod Laws
use ga_hub.Prelude.{
  ℕ, suc, ◌+◌, String, Bool, true, false, not, ◌&&◌, ◌||◌, Option, none, some, List, [], ◌∷◌, ◌++◌,
  map, any, filter, length, if◌then◌else◌, leb, ltb, truthy, is_set, is_some, ◌==◌, utf16_length,
  ◌⧺◌, decimal,
}
use ga_hub.Reply.{TurnScanner}
use ga_hub.Chat.Message.{ChatMsg, Role, user, assistant, is_user, is_assistant, is_system, read}
use ga_hub.Chat.Event.{Frame}
use ga_hub.Chat.History.{coalesce_archive_runs}
use ga_hub.Chat.Merge.{merge_live, is_history}

pub data Connection : Type 0 where
  connecting open_conn closed : Connection

pub data ResumePolicy : Type 0 where
  restore_position follow_latest open_latest : ResumePolicy

pub data HistoryStatus : Type 0 where
  idle loading_history ready history_error : HistoryStatus

pub data OlderStatus : Type 0 where
  older_idle older_loading older_error : OlderStatus

-- The part of the state that is kept of a session which is not shown.
pub record SessionView : Type 0 where
  pub msgs : List ChatMsg
  pub streaming : Bool
  pub resume_policy : ResumePolicy
  pub projection_ready : Bool
  pub history_status : HistoryStatus
  pub history_error : Option String
  pub history_revision : Option String
  pub history_has_more : Bool
  pub history_before : Option ℕ
  pub older_history_status : OlderStatus
  pub older_history_error : Option String
  pub last_accessed_at : ℕ

-- `Record<string, SessionView>`, a key at most once, in the order of insertion.
abbrev pub Views : Type 0
Views = List (String × SessionView)

pub record ChatState : Type 0 where
  pub msgs : List ChatMsg
  pub conn : Connection
  pub streaming : Bool
  pub resume_policy : ResumePolicy
  pub projection_ready : Bool
  pub retry_pending : Bool
  pub history_status : HistoryStatus
  pub history_error : Option String
  pub history_revision : Option String
  pub history_has_more : Bool
  pub history_before : Option ℕ
  pub older_history_status : OlderStatus
  pub older_history_error : Option String
  pub loading_all_history : Bool
  pub all_history_loaded_items : ℕ
  pub sock : Bool
  pub session_id : Option String
  pub session_views : Views

unfoldable pub lookup_view : String → Views → Option SessionView
lookup_view key [] = none
lookup_view key ((k, v) ∷ views) = if k == key then some v else lookup_view key views

-- `views[key] = view`.
unfoldable pub put_view : String → SessionView → Views → Views
put_view key view [] = (key, view) ∷ []
put_view key view ((k, v) ∷ views) =
    if k == key then (k, view) ∷ views else (k, v) ∷ put_view key view views

-- `delete views[key]`.
unfoldable pub delete_view : String → Views → Views
delete_view key [] = []
delete_view key ((k, v) ∷ views) =
    let rest = delete_view key views in if k == key then rest else (k, v) ∷ rest

abbrev pub max_cached_views : ℕ
max_cached_views = 3

abbrev pub max_cached_chars : ℕ
max_cached_chars = 3000000

content_chars : List ChatMsg → ℕ
content_chars [] = 0
content_chars (m ∷ msgs) = utf16_length m.content + content_chars msgs

unfoldable pub session_view_chars : SessionView → ℕ
unfolding content_chars
session_view_chars view = content_chars view.msgs

-- `sort((left, right) => right.lastAccessedAt - left.lastAccessedAt)`, which is stable.
insert_recent : String × SessionView → Views → Views
insert_recent e [] = e ∷ []
insert_recent e (f ∷ views) =
    if leb f.1.last_accessed_at e.1.last_accessed_at
    then e ∷ f ∷ views
    else f ∷ insert_recent e views

unfoldable pub sort_recent : Views → Views
unfolding insert_recent
sort_recent [] = []
sort_recent (e ∷ views) = insert_recent e (sort_recent views)

unfoldable pub views_chars : Views → ℕ
views_chars [] = 0
views_chars ((k, v) ∷ views) = session_view_chars v + views_chars views

abbrev too_large : ℕ → ℕ → Bool
too_large chars retained = ltb max_cached_chars chars || ltb max_cached_chars (retained + chars)

-- The loop over the ordinary views: `kept` has the views taken so far, `retained` their size.
keep_recent : Views → ℕ → Views → Views
keep_recent kept retained [] = kept
keep_recent kept retained ((key, view) ∷ views) =
    let chars = session_view_chars view in
    let skipped = keep_recent kept retained views in
    let taken = keep_recent (kept ++ (key, view) ∷ []) (retained + chars) views in
    if leb max_cached_views (length kept)
    then kept
    else if too_large chars retained
    then skipped
    else taken

abbrev pub is_protected : String × SessionView → Bool
is_protected e = e.1.streaming

unfoldable pub prune_session_views : Views → Views
unfolding keep_recent sort_recent views_chars session_view_chars
prune_session_views views =
    let kept = filter is_protected views in
    keep_recent kept (views_chars kept) (sort_recent (filter (λ e. not (is_protected e)) views))

-- ChatEventCursor.
pub record Cursor : Type 0 where
  pub event_id : ℕ
  pub epoch : String

abbrev pub Cursors : Type 0
Cursors = List (String × Cursor)

unfoldable pub lookup_cursor : String → Cursors → Option Cursor
lookup_cursor key [] = none
lookup_cursor key ((k, c) ∷ cursors) = if k == key then some c else lookup_cursor key cursors

unfoldable pub put_cursor : String → Cursor → Cursors → Cursors
put_cursor key cursor [] = (key, cursor) ∷ []
put_cursor key cursor ((k, c) ∷ cursors) =
    if k == key then (k, cursor) ∷ cursors else (k, c) ∷ put_cursor key cursor cursors

unfoldable pub delete_cursor : String → Cursors → Cursors
delete_cursor key [] = []
delete_cursor key ((k, c) ∷ cursors) =
    let rest = delete_cursor key cursors in if k == key then rest else (k, c) ∷ rest

-- The cursor moves: there is none, the epoch is another, or the event is later.
abbrev pub moves : Option Cursor → ℕ → String → Bool
moves none id epoch = true
moves (some c) id epoch = not (c.epoch == epoch) || ltb c.event_id id

abbrev pub commit_at : String → Option ℕ → Option String → Cursors → Cursors
commit_at session (some id) (some epoch) cursors =
    if truthy epoch && moves (lookup_cursor session cursors) id epoch
    then put_cursor session (record { event_id = id; epoch = epoch }) cursors
    else cursors
commit_at session (some id) none cursors = cursors
commit_at session none epoch cursors = cursors

unfoldable pub commit_cursor : String → Frame → Cursors → Cursors
unfolding lookup_cursor put_cursor
commit_cursor session frame cursors = commit_at session frame.event_id frame.epoch cursors

-- `encodeURIComponent` and `URLSearchParams` belong to the runtime: the parameters that the path
-- carries, and not their spelling, are the result.
unfoldable pub session_socket_query : String → Cursors → Option (ℕ × String)
unfolding lookup_cursor
session_socket_query session cursors = elim (lookup_cursor session cursors) [
  | none ↦ none
  | some c ↦ some (c.event_id, c.epoch)
]

abbrev eq_stream : Option String → Option String → Bool
eq_stream (some s) (some t) = s == t
eq_stream (some s) none = false
eq_stream none o = false

-- A key of `seen` in prependUniqueHistory: the stream and the role.
abbrev same_key : ChatMsg → ChatMsg → Bool
same_key a b =
    eq_stream (read a.stream_id) (read b.stream_id)
    && ((is_user a.role && is_user b.role)
        || (is_assistant a.role && is_assistant b.role)
        || (is_system a.role && is_system b.role))

abbrev is_keyed : ChatMsg → Bool
is_keyed m = not (is_set (read m.run_id)) && is_set (read m.stream_id)

-- The bubbles whose stream and role were not there before; grouped runs pass.
unique_history : List ChatMsg → List ChatMsg → List ChatMsg
unique_history seen [] = []
unique_history seen (m ∷ msgs) =
    let passed = unique_history seen msgs in
    let fresh = unique_history (m ∷ seen) msgs in
    if not (is_keyed m) then m ∷ passed else if any (same_key m) seen then passed else m ∷ fresh

module _ ⦃scanner : TurnScanner⦄ where
  unfoldable pub prepend_unique_history : List ChatMsg → List ChatMsg → List ChatMsg
  unfolding unique_history coalesce_archive_runs merge_live
  prepend_unique_history older current =
      merge_live (coalesce_archive_runs (unique_history [] (older ++ filter is_history current)))
        (filter (λ m. not (is_history m)) current)
