-- ===== src/SessionUi.antt =====
-- webui/src/utils/sessionUi.ts: the labels of a session, the preview of a group of sessions, and what the
-- answers of failed requests say. Of an error the status, the body's detail and the message are read; a
-- property that is neither a text nor a number is `other`. JSON.stringify is an argument, `none` where it
-- throws.
pub mod Laws
use ga_hub.Prelude.{
  ℕ, zero, suc, ◌-◌, String, Bool, true, false, not, ◌&&◌, ◌||◌, Option, none, some, List, [], ◌∷◌,
  ◌++◌, any, find?, take, if◌then◌else◌, ltb, eqb, is_some, is_set, or_default, or_else, has_ink,
  truthy, decimal, ◌⧺◌, ◌==◌,
}

pub data RuntimeStatus : Type 0 where
  starting running aborting failed idle_status : RuntimeStatus

pub data SessionActivity : Type 0 where
  active idle error unknown : SessionActivity

-- A missing runtime is `none`; a status that the source does not name is `idle_status`.
abbrev pub session_activity : Option RuntimeStatus → SessionActivity
session_activity none = unknown
session_activity (some starting) = active
session_activity (some running) = active
session_activity (some aborting) = active
session_activity (some failed) = error
session_activity (some idle_status) = idle

abbrev active_label : Option RuntimeStatus → String
active_label (some starting) = "启动中"
active_label (some aborting) = "停止中"
active_label _ = "运行中"

abbrev label_of : SessionActivity → Option RuntimeStatus → String
label_of active runtime = active_label runtime
label_of error runtime = "异常"
label_of idle runtime = "空闲"
label_of unknown runtime = "未知"

unfoldable pub session_status_label : Option RuntimeStatus → String
session_status_label runtime = label_of (session_activity runtime) runtime

-- A property of an answer's detail.
pub data Value : Type 0 where
  text_value : (text : String) → Value
  number_value : (n : ℕ) → Value
  other : Value

pub data Detail : Type 0 where
  no_detail : Detail
  text_detail : (text : String) → Detail
  object : (payload : List (String × Value)) → Detail

-- `text` is the error where it is a text itself.
pub record Failure : Type 0 where
  pub text : Option String
  pub status : Option ℕ
  pub detail : Detail
  pub message : Option String

abbrev value_at : String → List (String × Value) → Option Value
value_at key [] = none
value_at key ((k, v) ∷ payload) = if k == key then some v else value_at key payload

abbrev text_in : Option Value → Option String
text_in (some (text_value text)) = some text
text_in _ = none

abbrev number_in : Option Value → Option ℕ
number_in (some (number_value n)) = some n
number_in _ = none

-- `typeof payload[key] === 'string' ? payload[key] : null`, and for numbers.
abbrev pub text_at : String → List (String × Value) → Option String
text_at key payload = text_in (value_at key payload)

abbrev pub number_at : String → List (String × Value) → Option ℕ
number_at key payload = number_in (value_at key payload)

-- A text with something in it.
abbrev pub inked : Option String → Option String
inked none = none
inked (some text) = if has_ink text then some text else none

abbrev first_text : List String → List (String × Value) → Option String
first_text [] payload = none
first_text (key ∷ keys) payload = or_else (inked (text_at key payload)) (first_text keys payload)

module _ (stringify : List (String × Value) → Option String) where
  abbrev pub detail_text : Detail → Option String
  detail_text no_detail = none
  detail_text (text_detail text) = inked (some text)
  detail_text (object payload) =
      or_else (first_text ("message" ∷ "detail" ∷ "error" ∷ "code" ∷ []) payload)
        (stringify payload)

  unfoldable pub error_message_from_error : Failure → String → String
  error_message_from_error e fallback =
      or_default (or_else (inked e.text) (or_else (detail_text e.detail) (inked e.message)))
        fallback

  abbrev location : Option ℕ → Option ℕ → String
  location none col = ""
  location (some line) none = "第 " ⧺ decimal line ⧺ " 行 — "
  location (some line) (some col) = "第 " ⧺ decimal line ⧺ ":" ⧺ decimal col ⧺ " 行 — "

  -- `errorName && message ? ... : (message ?? errorName)`, where an empty text counts for nothing.
  abbrev parse_part : Option String → Option String → Option String
  parse_part none message = message
  parse_part (some name) none = some name
  parse_part (some name) (some message) =
      if truthy name && truthy message then some (name ⧺ ": " ⧺ message) else some message

  abbrev parse_text : List (String × Value) → Option String
  parse_text payload =
      let part = parse_part (text_at "error" payload) (text_at "message" payload) in
      let place = location (number_at "line" payload) (number_at "col" payload) in
      if is_some (value_at "line" payload) && is_set part
      then some (place ⧺ or_default part "")
      else none

  abbrev parse_detail : Detail → Option String
  parse_detail (object payload) = parse_text payload
  parse_detail _ = none

  unfoldable pub my_key_parse_error_from_error : Failure → String → String
  unfolding error_message_from_error
  my_key_parse_error_from_error e fallback =
      or_default (parse_detail e.detail) (error_message_from_error e fallback)

pub data ConflictReason : Type 0 where
  session_active capacity_full : ConflictReason

pub record CapacityConflict : Type 0 where
  pub message : String
  pub active_session_id : Option String
  pub active_run_id : Option String
  pub capacity : Option ℕ
  pub active_count : Option ℕ
  pub reason : ConflictReason

abbrev pub reason_of : Option String → Option ConflictReason
reason_of none = none
reason_of (some code) =
    if code == "session_active"
    then some session_active
    else if code == "agent_busy"
    then some capacity_full
    else none

abbrev conflict : List (String × Value) → Option ConflictReason → Option CapacityConflict
conflict payload none = none
conflict payload (some reason) = some (record {
  message = or_default (text_at "detail" payload) "会话运行容量已满。";
  active_session_id = text_at "active_session_id" payload;
  active_run_id = text_at "active_run_id" payload;
  capacity = number_at "capacity" payload;
  active_count = number_at "active_count" payload;
  reason = reason;
})

abbrev is_409 : Option ℕ → Bool
is_409 none = false
is_409 (some status) = eqb status 409

abbrev conflict_in : Detail → Option CapacityConflict
conflict_in (object payload) = conflict payload (reason_of (text_at "code" payload))
conflict_in _ = none

unfoldable pub capacity_conflict_from_error : Failure → Option CapacityConflict
capacity_conflict_from_error e =
    let found = conflict_in e.detail in if is_409 e.status then found else none

abbrev has_code : String → Option String → Bool
has_code code none = false
has_code code (some c) = c == code

abbrev aborted_in : Detail → Bool
aborted_in (object payload) = has_code "run_start_aborted" (text_at "code" payload)
aborted_in _ = false

unfoldable pub start_aborted_from_error : Failure → Bool
start_aborted_from_error e = is_409 e.status && aborted_in e.detail

-- A session as far as the preview reads it.
pub record HubSession : Type 0 where
  pub id : String
  pub title : String

abbrev pub is_session : String → HubSession → Bool
is_session id session = session.id == id

abbrev with_current : ℕ → List HubSession → Option HubSession → List HubSession
with_current limit preview none = preview
with_current limit preview (some current) = take (limit - 1) preview ++ current ∷ []

abbrev preview_of : List HubSession → Option String → ℕ → List HubSession
preview_of sessions none limit = take limit sessions
preview_of sessions (some id) limit =
    let preview = take limit sessions in
    if ltb limit 1 || not (truthy id) || any (is_session id) preview
    then preview
    else with_current limit preview (find? (is_session id) sessions)

unfoldable pub session_preview : List HubSession → Option String → ℕ → List HubSession
session_preview sessions current limit = preview_of sessions current limit
