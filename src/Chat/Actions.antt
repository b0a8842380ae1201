-- ===== src/Chat/Actions.antt =====
-- The actions of webui/src/stores/chatStore.ts that change the transcript alone: staging and
-- rolling back a question, system notices, and wiping the view.
pub mod Laws
use ga_hub.Prelude.{
  ℕ, String, Bool, true, false, not, ◌&&◌, ◌||◌, Option, none, some, List, [], ◌∷◌, ◌++◌, map, any,
  filter, update_first, length, eqb, if◌then◌else◌, ◌⧺◌, decimal,
}
use ga_hub.Chat.Message.{
  ChatMsg, Slot, absent, own, Role, user, assistant, bare, Attachment, is_user, is_assistant, is_on,
  slot_is,
}
use ga_hub.Chat.State.{ChatState, SessionView, Views, older_idle}

-- `webui-stage-${n}`.
unfoldable pub stage_name : ℕ → String
unfolding decimal
stage_name n = "webui-stage-" ⧺ decimal n

abbrev some_attachments : List Attachment → Option (List Attachment)
some_attachments [] = none
some_attachments (a ∷ atts) = some (a ∷ atts)

unfoldable pub staged_bubble : String → String → List Attachment → ℕ → ChatMsg
staged_bubble stage text atts now =
    let base = bare user text in
    record base {
      source = own (some "webui");
      attachments = own (some_attachments atts);
      timestamp = own (some now);
      pending_webui = own (some true);
      pending_webui_id = own (some stage);
    }

-- The new state and the name of the stage; `sequence` is `runtime.webuiStageSequence` after the
-- increment.
unfoldable pub stage_webui : ℕ → String → List Attachment → ℕ → ChatState → ChatState × String
unfolding staged_bubble
stage_webui sequence text atts now st = (
  record st {
    msgs = st.msgs ++ staged_bubble (stage_name sequence) text atts now ∷ [];
    streaming = true;
  },
  stage_name sequence,
)

abbrev pub is_staged : String → ChatMsg → Bool
is_staged stage m = is_on m.pending_webui && slot_is m.pending_webui_id stage

abbrev pub remove_pending : String → List ChatMsg → List ChatMsg
remove_pending stage msgs = filter (λ m. not (is_staged stage m)) msgs

abbrev is_busy : ChatMsg → Bool
is_busy m = is_on m.streaming || is_on m.pending_webui

abbrev shorter : List ChatMsg → List ChatMsg → Bool
shorter new old = not (eqb (length new) (length old))

abbrev clean_view : String → SessionView → SessionView
clean_view stage view =
    let msgs = remove_pending stage view.msgs in
    if shorter msgs view.msgs
    then record view { msgs = msgs; streaming = any is_busy msgs }
    else view

abbrev clean_views : String → Views → Views
clean_views stage views = map (λ e. (e.0, clean_view stage e.1)) views

abbrev has_staged : String → String × SessionView → Bool
has_staged stage e = shorter (remove_pending stage e.1.msgs) e.1.msgs

unfoldable pub rollback_webui : String → ChatState → ChatState
rollback_webui stage st =
    let msgs = remove_pending stage st.msgs in
    if shorter msgs st.msgs || any (has_staged stage) st.session_views
    then record st {
      msgs = msgs;
      session_views = clean_views stage st.session_views;
      streaming = any is_busy msgs;
    }
    else st

unfoldable pub clear_local : ChatState → ChatState
clear_local st = record st {
  msgs = [];
  streaming = false;
  history_revision = none;
  history_has_more = false;
  history_before = none;
  older_history_status = older_idle;
  older_history_error = none;
  loading_all_history = false;
  all_history_loaded_items = 0;
}

unfoldable pub system_bubble : Slot String → String → ℕ → ChatMsg
system_bubble stream content now =
    let base = bare assistant content in
    record base { stream_id = stream; source = own (some "system"); timestamp = own (some now) }

abbrev notice_stream : String → String
notice_stream key = "sys:" ⧺ key

abbrev rewrite_notice : String → ℕ → ChatMsg → ChatMsg
rewrite_notice content now m = record m { content = content; timestamp = own (some now) }

-- The keys of `noticeKeys` are nonempty, so a key that is given is a stable one.
unfoldable pub push_system : String → Option String → ℕ → ChatState → ChatState
unfolding system_bubble
push_system content none now st = record st {
  msgs = st.msgs ++ system_bubble absent content now ∷ [];
}
push_system content (some key) now st =
    let is_notice = λ (m : ChatMsg). slot_is m.stream_id (notice_stream key) in
    if any is_notice st.msgs
    then record st { msgs = update_first is_notice (rewrite_notice content now) st.msgs }
    else record st {
      msgs = st.msgs ++ system_bubble (own (some (notice_stream key))) content now ∷ [];
    }

-- A message of a native conversation, by its role and text.
abbrev restored : List (Role × String) → List ChatMsg
restored [] = []
restored ((role, content) ∷ messages) =
    let rest = restored messages in
    if is_user role || is_assistant role then bare role content ∷ rest else rest

unfoldable pub restore_visible_conversation :
    List (Role × String) → String → ℕ → ChatState → ChatState
unfolding clear_local system_bubble
restore_visible_conversation messages notice now st =
    let cleared = clear_local st in
    record cleared { msgs = restored messages ++ system_bubble absent notice now ∷ [] }
