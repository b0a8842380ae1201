-- ===== src/Chat/Notice.antt =====
-- Recovery notices inside an answer: upsertRetryNotice and ensureRetryStartNotice of
-- webui/src/stores/chatStore.ts.
use Prim.Native.Char.{code}
use ga_hub.Prelude.{
  ℕ, String, Bool, false, not, ◌&&◌, ◌||◌, Option, none, some, List, [], ◌∷◌, ◌++◌, any, eqb,
  find_index?, update_first, take, if◌then◌else◌, is_set, or_set, or_text, opt_eq, ◌⧺◌, ◌==◌,
  decimal, utf16_length, or_default,
}
use ga_hub.Reply.{ReplySegment, has_stream, reply_segments_content}
use ga_hub.Chat.Message.{
  ChatMsg, own, read, assistant, bare, is_assistant, belongs_to_run, slot_is, parts_of,
}
use ga_hub.Chat.Event.{StreamEvent}

abbrev drop_front : String → String
drop_front String.[] = ""
drop_front (String.◌∷◌ c s) = if eqb (code c) b'_' then s else String.◌∷◌ c s

drop_back : String → String
drop_back String.[] = ""
drop_back (String.◌∷◌ c String.[]) = if eqb (code c) b'_' then "" else String.◌∷◌ c ""
drop_back (String.◌∷◌ c (String.◌∷◌ d s)) = String.◌∷◌ c (drop_back (String.◌∷◌ d s))

-- `content.replace(/^_|_$/g, '')`.
unfoldable pub strip_underscores : String → String
unfolding drop_back
strip_underscores s = drop_back (drop_front s)

-- The answer that a notice goes into.
abbrev pub is_notice_target : String → Option String → ChatMsg → Bool
is_notice_target key run m =
    is_assistant m.role
    && belongs_to_run m run
    && (slot_is m.logical_id key
        || slot_is m.stream_id key
        || any (has_stream key) (parts_of m.segments))

-- The offset in the answer's text at which the recovered stream begins.
abbrev cut_at : ChatMsg → Option ℕ → ℕ
cut_at old none = utf16_length old.content
cut_at old (some index) = utf16_length (reply_segments_content (take index (parts_of old.segments)))

abbrev part_index : ChatMsg → Option String → Option ℕ
part_index old none = none
part_index old (some sid) =
    if is_set (some sid) then find_index? (has_stream sid) (parts_of old.segments) else none

abbrev notice_offset : ChatMsg → Option String → ℕ
notice_offset old retry_stream =
    let offset = cut_at old (part_index old retry_stream) in
    if is_set retry_stream && opt_eq (read old.recovery_stream_id) retry_stream
    then or_default (read old.recovery_offset) offset
    else offset

unfoldable pub with_notice : String → Option String → ChatMsg → ChatMsg
unfolding strip_underscores reply_segments_content
with_notice note retry_stream old = record old {
  recovery_notice = own (some (strip_underscores note));
  recovery_offset = own (some (notice_offset old retry_stream));
  recovery_stream_id = own retry_stream;
}

unfoldable pub new_notice : String → String → Option ℕ → Option String → Option String → ChatMsg
unfolding strip_underscores
new_notice key note timestamp retry_stream run =
    let base = bare assistant "" in
    record base {
      stream_id = own (some key);
      logical_id = own (some key);
      run_id = own run;
      recovery_notice = own (some (strip_underscores note));
      recovery_offset = own (some 0);
      recovery_stream_id = own retry_stream;
      segments = own (some []);
      timestamp = own timestamp;
    }

unfoldable pub upsert_retry_notice :
    List ChatMsg → String → String → Option ℕ → Option String → Option String → List ChatMsg
unfolding with_notice new_notice
upsert_retry_notice prev key note timestamp retry_stream run =
    if any (is_notice_target key run) prev
    then update_first (is_notice_target key run) (with_notice note retry_stream) prev
    else prev ++ new_notice key note timestamp retry_stream run ∷ []

-- `${n || '?'}` and `${max ? `/${max}` : ''}`.
abbrev limit_text : Option ℕ → String
limit_text none = ""
limit_text (some n) = if eqb n 0 then "" else "/" ⧺ decimal n

unfoldable pub counted : ℕ → Option ℕ → String
unfolding decimal
counted attempt limit = (if eqb attempt 0 then "?" else decimal attempt) ⧺ limit_text limit

abbrev pub is_recovery_source : Option String → Bool
is_recovery_source none = false
is_recovery_source (some s) = s == "chat_error_retry" || s == "auto_continue"

unfoldable pub recovery_note : StreamEvent → String
unfolding counted
recovery_note evt =
    let reason = if opt_eq evt.retry_reason (some "truncated") then "截断续接" else "网络重试" in
    "_系统" ⧺ reason ⧺ "（" ⧺ counted (or_default evt.retry_attempt 0) evt.retry_max ⧺ "）。_"

abbrev pub retry_key : StreamEvent → String
retry_key evt = or_text (or_set evt.logical_id evt.retry_of) evt.stream_id

abbrev done_stream : String → ReplySegment → Bool
done_stream sid part = part.stream_id == sid && part.done

-- Called for `next` and `done` events alone.
unfoldable pub ensure_retry_start_notice : List ChatMsg → StreamEvent → List ChatMsg
unfolding upsert_retry_notice recovery_note
ensure_retry_start_notice prev evt =
    if not (is_recovery_source evt.source)
    then prev
    else if any
        (λ m. belongs_to_run m evt.run_id && any (done_stream evt.stream_id) (parts_of m.segments))
        prev
    then prev
    else upsert_retry_notice prev (retry_key evt) (recovery_note evt) none (some evt.stream_id)
        evt.run_id
