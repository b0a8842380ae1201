-- ===== src/Chat/Session/Shown.antt =====
-- What `start` of webui/src/stores/chatStore.ts shows of a session before its history is there, and
-- what it keeps of the one that is left.
use ga_hub.Prelude.{
  ℕ, String, Bool, true, false, not, ◌&&◌, Option, none, some, List, [], if◌then◌else◌, opt_eq,
  truthy,
}
use ga_hub.Chat.Message.{ChatMsg}
use ga_hub.Chat.History.{Projection}
use ga_hub.Chat.Order.{order_conversation_turns}
use ga_hub.Chat.State.{
  ChatState, SessionView, Views, ResumePolicy, restore_position, follow_latest, HistoryStatus,
  loading_history, ready, history_error, OlderStatus, older_idle, older_loading, connecting,
  lookup_view, put_view, delete_view, prune_session_views,
}

abbrev pub is_ready : HistoryStatus → Bool
is_ready ready = true
is_ready _ = false

abbrev pub is_failed : HistoryStatus → Bool
is_failed history_error = true
is_failed _ = false

abbrev pub is_loading : HistoryStatus → Bool
is_loading loading_history = true
is_loading _ = false

abbrev pub settled_older : OlderStatus → OlderStatus
settled_older older_loading = older_idle
settled_older s = s

unfoldable pub view_of : ChatState → ℕ → SessionView
view_of st now = record {
  msgs = st.msgs;
  streaming = st.streaming;
  resume_policy = if st.streaming then follow_latest else restore_position;
  projection_ready = st.projection_ready;
  history_status = st.history_status;
  history_error = st.history_error;
  history_revision = st.history_revision;
  history_has_more = st.history_has_more;
  history_before = st.history_before;
  older_history_status = settled_older st.older_history_status;
  older_history_error = st.older_history_error;
  last_accessed_at = now;
}

-- The views with the one of the session that is left.
abbrev pub views_leaving : ChatState → Bool → ℕ → Views
views_leaving st switching now = elim st.session_id [
  | none ↦ st.session_views
  | some old ↦
      if switching && truthy old
      then put_view old (view_of st now) st.session_views
      else st.session_views
]

abbrev pub can_resume : Bool → Option SessionView → Bool
can_resume force none = false
can_resume force (some v) = not force && is_ready v.history_status

abbrev pub cached_view : Bool → String → Views → Option SessionView
cached_view switching session views = if switching then lookup_view session views else none

abbrev pub cached_messages : Option SessionView → List ChatMsg
cached_messages none = []
cached_messages (some v) = v.msgs

abbrev pub cached_streaming : Option SessionView → Bool
cached_streaming none = false
cached_streaming (some v) = v.streaming

abbrev pub cached_policy : Option SessionView → ResumePolicy
cached_policy none = restore_position
cached_policy (some v) = v.resume_policy

abbrev pub resumed {ℓ} : {A : Type ℓ} → Bool → Option SessionView → (SessionView → A) → A → A
resumed resume none field fresh = fresh
resumed resume (some v) field fresh = if resume then field v else fresh

-- The first `set` of `start`, with the fields of the last one.
unfoldable pub shown_state : Bool → String → ℕ → ChatState → ChatState
unfolding view_of lookup_view put_view delete_view prune_session_views order_conversation_turns
shown_state force session now st =
    let switching = not (opt_eq st.session_id (some session)) in
    let views = views_leaving st switching now in
    let cached = cached_view switching session views in
    let resume = can_resume force cached in
    record st {
      msgs = order_conversation_turns (if switching then cached_messages cached else st.msgs);
      conn = connecting;
      streaming = if switching then cached_streaming cached else st.streaming;
      resume_policy = if switching then cached_policy cached else st.resume_policy;
      projection_ready = false;
      retry_pending = false;
      history_status = resumed resume cached (λ v. v.history_status) loading_history;
      history_error = resumed resume cached (λ v. v.history_error) none;
      history_revision = resumed resume cached (λ v. v.history_revision) none;
      history_has_more = resumed resume cached (λ v. v.history_has_more) false;
      history_before = resumed resume cached (λ v. v.history_before) none;
      older_history_status = resumed resume cached (λ v. v.older_history_status) older_idle;
      older_history_error = resumed resume cached (λ v. v.older_history_error) none;
      loading_all_history = false;
      all_history_loaded_items = 0;
      sock = true;
      session_id = some session;
      session_views = prune_session_views (if switching then delete_view session views else views);
    }

-- Whether `start` shows the cached projection and asks for no history.
abbrev pub resumes : Bool → String → ℕ → ChatState → Bool
resumes force session now st =
    let switching = not (opt_eq st.session_id (some session)) in
    can_resume force (cached_view switching session (views_leaving st switching now))

abbrev pub already_shown : Bool → String → ChatState → Bool
already_shown force session st =
    not force && st.sock && opt_eq st.session_id (some session) && not (is_failed st.history_status)

-- SessionMessagesResponse.
pub record HistoryPage : Type 0 where
  pub items : List Projection
  pub revision : Option String
  pub has_more : Bool
  pub next_before : Option ℕ
