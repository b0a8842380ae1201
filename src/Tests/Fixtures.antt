-- ===== src/Tests/Fixtures.antt =====
-- Data of the runs: a small conversation, its frames and the store that shows it.
use ga_hub.Prelude.{ℕ, Bool, true, false, Option, none, some, [], ◌∷◌, String}
use ga_hub.Reply.{ReplySegment, Phase, TurnScanner}
use ga_hub.Chat.Message.{ChatMsg, own, user, assistant, completed, bare}
use ga_hub.Chat.Event.{StreamEvent, ErrorEvent, stream, Frame}
use ga_hub.Chat.History.{DateParser}
use ga_hub.Chat.State.{ChatState, SessionView, closed, restore_position, ready, older_idle}
use ga_hub.Chat.Live.{Live, World}
use ga_hub.Chat.Session.{HistoryPage}

abbrev pub no_turns : TurnScanner
no_turns = record { turn_starts = λ text. [] }

abbrev pub no_dates : DateParser
no_dates = record { parse = λ text. none }

abbrev pub partial : ReplySegment
partial = record {
  stream_id = "s1";
  content = "Hel";
  turn_segments = none;
  archived = false;
  done = false;
}

abbrev pub final : ReplySegment
final = record {
  stream_id = "s1";
  content = "Hello";
  turn_segments = none;
  archived = false;
  done = true;
}

abbrev pub question : ChatMsg
question =
    let base = bare user "Hi" in
    record base { stream_id = own (some "s1"); timestamp = own (some 20) }

abbrev pub answer : ChatMsg
answer =
    let base = bare assistant "Hel" in
    record base {
      stream_id = own (some "s1");
      streaming = own (some true);
      segments = own (some (partial ∷ []));
    }

abbrev pub settled_answer : ChatMsg
settled_answer =
    let base = bare assistant "Hello" in
    record base { stream_id = own (some "s0"); outcome = own (some completed) }

abbrev pub reply_event : Phase → Option String → StreamEvent
reply_event phase content = record {
  phase = phase;
  stream_id = "s1";
  content = content;
  turn_segs = none;
  source = some "webui";
  run_id = none;
  logical_id = none;
  retry_of = none;
  retry_attempt = none;
  retry_max = none;
  retry_reason = none;
  query = none;
  ts = none;
}

abbrev pub fault : ErrorEvent
fault = record { stream_id = "s1"; code = "stream_error"; detail = "" }

abbrev pub frame_of : Phase → Option String → ℕ → Frame
frame_of phase content id = record {
  event = stream (reply_event phase content);
  event_id = some id;
  epoch = some "e1";
}

abbrev pub view : Bool → SessionView
view streaming = record {
  msgs = question ∷ [];
  streaming = streaming;
  resume_policy = restore_position;
  projection_ready = true;
  history_status = ready;
  history_error = none;
  history_revision = none;
  history_has_more = false;
  history_before = none;
  older_history_status = older_idle;
  older_history_error = none;
  last_accessed_at = 5;
}

abbrev pub store : ChatState
store = record {
  msgs = question ∷ answer ∷ [];
  conn = closed;
  streaming = true;
  resume_policy = restore_position;
  projection_ready = true;
  retry_pending = false;
  history_status = ready;
  history_error = none;
  history_revision = none;
  history_has_more = false;
  history_before = none;
  older_history_status = older_idle;
  older_history_error = none;
  loading_all_history = false;
  all_history_loaded_items = 0;
  sock = true;
  session_id = some "a";
  session_views = [];
}

-- A connection of session `a`, with or without its history.
abbrev pub connection : Bool → Live
connection history_ready = record {
  start_id = 1;
  session = "a";
  history_ready = history_ready;
  buffered = [];
  pending = [];
  timer = false;
  last_flush = 0;
}

abbrev pub world : Option Live → World
world live = record {
  state = store;
  aborted_streams = [];
  cursors = [];
  generation = 1;
  live = live;
  older_request = none;
  older_count = 0;
  tasks = [];
}

abbrev pub empty_page : HistoryPage
empty_page = record { items = []; revision = some "r1"; has_more = false; next_before = none }
