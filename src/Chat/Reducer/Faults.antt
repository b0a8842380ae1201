-- ===== src/Chat/Reducer/Faults.antt =====
-- The frames that tell of trouble, in reduceEvent of webui/src/stores/chatStore.ts: retries, errors, a
-- run that was aborted and a conversation that was rewound.
use ga_hub.Prelude.{
  ℕ, String, Bool, true, false, not, ◌&&◌, ◌||◌, Option, none, some, List, [], ◌∷◌, ◌++◌, map, any,
  filter, if◌then◌else◌, truthy, or_set, or_text, or_default, ◌⧺◌, decimal, before_colon,
  contains_text, max,
}
use ga_hub.Chat.Message.{ChatMsg, own, read, assistant, bare, is_on, is_hidden_source, slot_is}
use ga_hub.Chat.Event.{RetryEvent, retrying, scheduled, exhausted, ErrorEvent}
use ga_hub.Chat.Notice.{upsert_retry_notice}

-- The messages and the aborted streams.
abbrev pub Reduced : Type 0
Reduced = List ChatMsg × List String

-- `{ ...m, streaming: false, finishedAt: now }`.
abbrev pub finish : ℕ → ChatMsg → ChatMsg
finish now m = record m { streaming = own (some false); finished_at = own (some now) }

abbrev pub reason_of : RetryEvent → String
reason_of evt = or_text (or_set evt.reason_label evt.retry_reason) "可恢复错误"

abbrev pub attempts : ℕ → ℕ → String
attempts n limit = decimal n ⧺ "/" ⧺ decimal limit

unfoldable pub retry_note : RetryEvent → String
unfolding decimal
retry_note evt = elim evt.kind [
  | retrying ↦ "_检测到 " ⧺ reason_of evt ⧺ "，正在自动重试（" ⧺ attempts evt.attempt evt.max_attempts ⧺ "）。_"
  | scheduled ↦
      "_检测到 "
      ⧺ reason_of evt
      ⧺ "，约 "
      ⧺ decimal (max 1 (or_default evt.delay_seconds 0))
      ⧺ "s 后自动重试（"
      ⧺ attempts evt.attempt evt.max_attempts
      ⧺ "）。_"
  | exhausted ↦
      "_检测到 " ⧺ reason_of evt ⧺ "，但自动重试已达到上限（" ⧺ attempts evt.max_attempts evt.max_attempts ⧺ "）。_"
]

unfoldable pub reduce_retry : RetryEvent → ℕ → List ChatMsg → List ChatMsg
unfolding retry_note upsert_retry_notice
reduce_retry evt now prev =
    if is_hidden_source evt.source
    then prev
    else upsert_retry_notice prev (or_text evt.logical_id evt.stream_id) (retry_note evt) (some now)
        none evt.run_id

abbrev pub error_notice_id : ErrorEvent → String
error_notice_id evt = evt.stream_id ⧺ ":error:" ⧺ evt.code

unfoldable pub error_notice : ErrorEvent → ℕ → ChatMsg
error_notice evt now =
    let base =
      bare assistant
        ("_运行错误（" ⧺ evt.code ⧺ "）：" ⧺ or_text (some evt.detail) "会话运行失败，请稍后重试。" ⧺ "_") in
    record base {
      stream_id = own (some (error_notice_id evt));
      source = own (some "runtime_error_notice");
      timestamp = own (some now);
    }

abbrev pub finish_streaming : ℕ → ChatMsg → ChatMsg
finish_streaming now m = if is_on m.streaming then finish now m else m

abbrev pub finish_stream : String → ℕ → ChatMsg → ChatMsg
finish_stream sid now m = if slot_is m.stream_id sid && is_on m.streaming then finish now m else m

unfoldable pub reduce_error : ErrorEvent → ℕ → Reduced → List ChatMsg
unfolding error_notice
reduce_error evt now (prev, aborted) =
    let stopped = map (finish_stream evt.stream_id now) prev in
    if truthy evt.stream_id && contains_text aborted evt.stream_id
    then map (finish_streaming now) prev
    else if any (λ m. slot_is m.stream_id (error_notice_id evt)) stopped
    then stopped
    else stopped ++ error_notice evt now ∷ []

abbrev pub stop_streaming : ℕ → ChatMsg → ChatMsg
stop_streaming now m =
    if is_on m.streaming
    then record m {
      streaming = own (some false);
      finished_at = own (some now);
      stopped = own (some true);
    }
    else m

abbrev pub add_stream : Option String → Bool → List String → List String
add_stream none on aborted = aborted
add_stream (some sid) on aborted =
    if on && truthy sid && not (contains_text aborted sid) then sid ∷ aborted else aborted

-- The streams of the bubbles that are receiving, added to those aborted before.
unfoldable pub abort_streams : List ChatMsg → List String → List String
abort_streams [] aborted = aborted
abort_streams (m ∷ msgs) aborted =
    abort_streams msgs (add_stream (read m.stream_id) (is_on m.streaming) aborted)

unfoldable pub reduce_aborted : ℕ → Reduced → Reduced
unfolding abort_streams
reduce_aborted now (prev, aborted) = (map (stop_streaming now) prev, abort_streams prev aborted)

abbrev pub is_removed : List String → Option String → Bool
is_removed sids none = false
is_removed sids (some sid) =
    truthy sid && (contains_text sids sid || contains_text sids (before_colon sid))

unfoldable pub reduce_rewound : List String → List ChatMsg → List ChatMsg
reduce_rewound [] prev = prev
reduce_rewound (s ∷ sids) prev = filter (λ m. not (is_removed (s ∷ sids) (read m.stream_id))) prev
