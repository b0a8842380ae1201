-- ===== src/Chat/History.antt =====
-- historyToMessages and coalesceArchiveRuns of webui/src/stores/chatStore.ts. `Date.parse`, a
-- function of the JavaScript runtime, is the parameter `DateParser`; `none` is NaN.
pub mod Laws
use ga_hub.Prelude.{
  ℕ, String, Bool, true, false, ◌&&◌, ◌||◌, Option, none, some, List, [], ◌∷◌, ◌++◌, map, any,
  filter, update_first, if◌then◌else◌, truthy, is_set, or_text, opt_eq, ◌⧺◌, sort_by, contains_text,
}
use ga_hub.Reply.{
  ReplySegment, TurnScanner, valid_turn_segments, reply_segments_content, reply_segments_turns,
}
use ga_hub.Chat.Message.{
  ChatMsg, own, read, Role, bare, Outcome, is_user, is_assistant, is_cancelled, parts_of,
}

pub record DateParser : Type 0 where
  pub parse : String → Option ℕ

-- SessionMessageProjection.
pub record Projection : Type 0 where
  pub id : String
  pub role : Role
  pub content : String
  pub ordinal : ℕ
  pub turn_segs : Option (List String)
  pub timestamp : Option String
  pub run_id : Option String
  pub logical_id : Option String
  pub stream_id : Option String
  pub outcome : Option Outcome

abbrev outcome_cancelled : Option Outcome → Bool
outcome_cancelled none = false
outcome_cancelled (some o) = is_cancelled o

abbrev history_id : Projection → String
history_id item = "history:" ⧺ item.id

-- Archive segments of an answer that belongs to a run.
unfoldable pub archive_segments : Projection → Option (List ReplySegment)
unfolding valid_turn_segments
archive_segments item =
    if is_set item.run_id && is_assistant item.role
    then some (
        record {
          stream_id = or_text item.stream_id (history_id item);
          content = item.content;
          turn_segments = valid_turn_segments item.turn_segs item.content;
          archived = true;
          done = true;
        }
        ∷ [])
    else none

abbrev is_turn_role : Projection → Bool
is_turn_role item = is_user item.role || is_assistant item.role

abbrev pub same_run_role : ChatMsg → ChatMsg → Bool
same_run_role msg m =
    is_set (read m.run_id)
    && opt_eq (read m.run_id) (read msg.run_id)
    && ((is_user m.role && is_user msg.role) || (is_assistant m.role && is_assistant msg.role))

-- The segments whose stream was not seen before.
unique_streams : List String → List ReplySegment → List ReplySegment
unique_streams seen [] = []
unique_streams seen (p ∷ parts) =
    let fresh = unique_streams (p.stream_id ∷ seen) parts in
    let other = unique_streams seen parts in
    if contains_text seen p.stream_id then other else p ∷ fresh

module _ ⦃dates : DateParser⦄ where
  abbrev parse_archive_time : Option String → Option ℕ
  parse_archive_time none = none
  parse_archive_time (some value) = if truthy value then dates.parse value else none

  unfoldable pub archive_message : Projection → ChatMsg
  unfolding archive_segments valid_turn_segments
  archive_message item =
      let base = bare item.role item.content in
      record base {
        turn_segments = own (
            if is_assistant item.role
            then valid_turn_segments item.turn_segs item.content
            else none);
        stream_id = own (some (history_id item));
        source = own (some "history");
        logical_id = own item.logical_id;
        run_id = own item.run_id;
        outcome = own item.outcome;
        stopped = own (some (outcome_cancelled item.outcome));
        segments = own (archive_segments item);
        timestamp = own (parse_archive_time item.timestamp);
      }

module _ ⦃scanner : TurnScanner⦄ where
  -- A later answer of a run gives its segments to the first one.
  unfoldable pub absorb : ChatMsg → ChatMsg → ChatMsg
  unfolding unique_streams
  absorb msg previous =
      let segments = unique_streams [] (parts_of previous.segments ++ parts_of msg.segments) in
      if is_assistant msg.role
      then record previous {
        segments = own (some segments);
        content = reply_segments_content segments;
        turn_segments = own (reply_segments_turns segments);
      }
      else previous

  -- One round of the loop. `positions` is the search for the run and role in `out`, where each
  -- pair of them stands once.
  unfoldable pub coalesce : List ChatMsg → ChatMsg → List ChatMsg
  unfolding absorb
  coalesce out msg =
      if is_set (read msg.run_id) && any (same_run_role msg) out
      then update_first (same_run_role msg) (absorb msg) out
      else out ++ msg ∷ []

  unfoldable pub coalesce_from : List ChatMsg → List ChatMsg → List ChatMsg
  unfolding coalesce
  coalesce_from out [] = out
  coalesce_from out (msg ∷ msgs) = coalesce_from (coalesce out msg) msgs

  unfoldable pub coalesce_archive_runs : List ChatMsg → List ChatMsg
  unfolding coalesce_from
  coalesce_archive_runs projected = coalesce_from [] projected

module _ ⦃dates : DateParser⦄ ⦃scanner : TurnScanner⦄ where
  unfoldable pub history_to_messages : List Projection → List ChatMsg
  unfolding coalesce_archive_runs archive_message sort_by
  history_to_messages items =
      coalesce_archive_runs
        (map archive_message (sort_by (λ item. item.ordinal) (filter is_turn_role items)))
