-- ===== src/Tests/ChatRuns.antt =====
-- Runs of webui/src/stores/chatStore.ts: a session that is shown, left, aborted and dropped.
use ga_hub.Prelude.{
  ◌≡◌, refl, true, false, none, some, [], ◌∷◌, filter, length, max, ◌≤◌, map, contains_text, arith,
}
use mathlib.Core.List.{Perm}
use ga_hub.Prelude.{Ascends}
use ga_hub.Reply.{next, done}
use ga_hub.Chat.Message.{any_streaming}
use ga_hub.Chat.Reducer.{apply_stream, reduce_aborted, reduce_error, has_identity}
use ga_hub.Chat.Reducer.Finals.{finals, apply_stream-finals}
use ga_hub.Chat.Reducer.Abort.{reduce_aborted-reduce_error, done-suppression}
use ga_hub.Chat.Order.{order_conversation_turns, ordered_turns, turns_of, anchor_of, is_dated}
use ga_hub.Chat.Order.Laws.{order_conversation_turns-perm, ordered_turns-Ascends, undated_of}
use ga_hub.Chat.State.{
  Cursor, is_protected, prune_session_views, views_chars, max_cached_views, max_cached_chars,
  lookup_cursor, session_view_chars,
}
use ga_hub.Chat.State.Laws.{prune_session_views-protected, prune_session_views_bounds}
use ga_hub.Chat.Live.{Live, on_messages, on_message, apply_to, apply_pending}
use ga_hub.Chat.Live.Waiting.{waiting, before, on_message-waiting}
use ga_hub.Chat.Session.{
  history_loaded, history_failed, start, shown_state, resumes, drop_session_view, view_of,
}
use ga_hub.Chat.Session.Laws.{
  at_rest, arriving, history_loaded-on_messages, start-stale, shown_state-back,
  drop_session_view-cursor,
}
use ga_hub.Tests.Fixtures.{
  no_turns, no_dates, question, answer, settled_answer, reply_event, fault, frame_of, view, store,
  connection, world, empty_page,
}

history_loaded-on_messages_example :
    history_loaded ⦃scanner = no_turns⦄ ⦃dates = no_dates⦄ 1 "a" empty_page 500 (
      arriving ⦃scanner = no_turns⦄ 1
        ((frame_of next (some "Hello") 7, 300) ∷ [])
        (world (some (connection false))))
    ≡ on_messages ⦃scanner = no_turns⦄ 1 (frame_of next (some "Hello") 7 ∷ []) 500 (
        history_loaded ⦃scanner = no_turns⦄ ⦃dates = no_dates⦄ 1 "a" empty_page 500
          (world (some (connection false))))
history_loaded-on_messages_example =
    history_loaded-on_messages ⦃scanner = no_turns⦄ ⦃dates = no_dates⦄ 1 1
      ((frame_of next (some "Hello") 7, 300) ∷ []) empty_page 500 (connection false)
      (world (some (connection false))) refl refl refl refl refl (refl, tt)

apply_stream-finals_example :
    finals
      (apply_stream ⦃scanner = no_turns⦄
        (reply_event done (some "Hello"))
        9
        (settled_answer ∷ question ∷ answer ∷ [], [])).0
    ≡ finals (settled_answer ∷ question ∷ answer ∷ [])
apply_stream-finals_example =
    apply_stream-finals ⦃scanner = no_turns⦄ (reply_event done (some "Hello")) 9
      (settled_answer ∷ question ∷ answer ∷ []) [] refl

order_conversation_turns-perm_example :
    Perm (order_conversation_turns (answer ∷ question ∷ [])) (answer ∷ question ∷ [])
order_conversation_turns-perm_example = order_conversation_turns-perm (answer ∷ question ∷ [])

ordered_turns-Ascends_example :
    Ascends anchor_of (filter is_dated (ordered_turns (question ∷ answer ∷ question ∷ [])))
    × Perm
        (filter is_dated (ordered_turns (question ∷ answer ∷ question ∷ [])))
        (filter is_dated (turns_of (question ∷ answer ∷ question ∷ [])))
    × (map undated_of (ordered_turns (question ∷ answer ∷ question ∷ []))
        ≡ map undated_of (turns_of (question ∷ answer ∷ question ∷ [])))
ordered_turns-Ascends_example = ordered_turns-Ascends (question ∷ answer ∷ question ∷ [])

reduce_aborted-reduce_error_example :
    (any_streaming (reduce_aborted 9 (question ∷ answer ∷ [], [])).0 ≡ false)
    × (reduce_error fault 10 (reduce_aborted 9 (question ∷ answer ∷ [], []))
        ≡ (reduce_aborted 9 (question ∷ answer ∷ [], [])).0)
reduce_aborted-reduce_error_example =
    reduce_aborted-reduce_error (question ∷ answer ∷ []) [] fault 9 10 refl refl

done-suppression_example :
    contains_text
      (apply_stream ⦃scanner = no_turns⦄
        (reply_event done (some "Hello"))
        9
        (question ∷ answer ∷ [], "s1" ∷ [])).1
      "s1"
    ≡ has_identity ⦃scanner = no_turns⦄ (reply_event done (some "Hello"))
done-suppression_example =
    done-suppression ⦃scanner = no_turns⦄ (question ∷ answer ∷ []) ("s1" ∷ [])
      (reply_event done (some "Hello")) 9 refl refl refl

prune_session_views-protected_example :
    filter is_protected (prune_session_views (("a", view true) ∷ ("b", view false) ∷ []))
    ≡ ("a", view true) ∷ []
prune_session_views-protected_example =
    prune_session_views-protected (("a", view true) ∷ ("b", view false) ∷ [])

prune_session_views_bounds_example :
    (length (prune_session_views (("a", view true) ∷ ("b", view false) ∷ []))
      ≤ max max_cached_views 1)
    × (views_chars (prune_session_views (("a", view true) ∷ ("b", view false) ∷ []))
        ≤ max max_cached_chars (views_chars (("a", view true) ∷ [])))
prune_session_views_bounds_example =
    prune_session_views_bounds (("a", view true) ∷ ("b", view false) ∷ [])

abbrev old_cursor : Cursor
old_cursor = record { event_id = 9; epoch = "e1" }

-- A partial reply waits.
abbrev holding : Live
holding =
    let l = connection true in
    record l { pending = ("s", frame_of next (some "Hel") 7) ∷ []; timer = true }

on_message-waiting_example :
    let frame = frame_of done (some "Hello") 8 in
    let w = world (some holding) in
    let after = on_message ⦃scanner = no_turns⦄ 1 frame 600 w in
    (waiting after.live ≡ [])
    × (after.state.msgs
        ≡ (apply_to ⦃scanner = no_turns⦄ frame.event 600 (
            apply_pending ⦃scanner = no_turns⦄
              (before frame.event (waiting w.live))
              600
              w)).state.msgs)
on_message-waiting_example =
    on_message-waiting ⦃scanner = no_turns⦄ 1 (frame_of done (some "Hello") 8) 600
      (world (some holding))
      (record {
        connection = holding;
        is_live = refl;
        made_by = refl;
        has_history = refl;
        is_shown = refl;
      })
      refl

start-stale_example :
    (history_loaded ⦃scanner = no_turns⦄ ⦃dates = no_dates⦄ 1 "a" empty_page 900
        (start ⦃scanner = no_turns⦄ false "b" 800 (world (some (connection true))))
      ≡ start ⦃scanner = no_turns⦄ false "b" 800 (world (some (connection true))))
    × (history_failed ⦃scanner = no_turns⦄ 1 "a" "lost" 900
          (start ⦃scanner = no_turns⦄ false "b" 800 (world (some (connection true))))
        ≡ start ⦃scanner = no_turns⦄ false "b" 800 (world (some (connection true))))
start-stale_example =
    start-stale ⦃scanner = no_turns⦄ ⦃dates = no_dates⦄ false "b" "a" 1 empty_page "lost" 800 900
      (world (some (connection true))) refl (omega arith)

shown_state-back_example :
    (resumes false "a" 20 (shown_state false "b" 10 (at_rest "a" store)) ≡ true)
    × ((shown_state false "a" 20 (shown_state false "b" 10 (at_rest "a" store))).msgs
        ≡ order_conversation_turns (question ∷ answer ∷ []))
unfolding session_view_chars view_of
shown_state-back_example = shown_state-back "a" "b" 10 20 store refl refl refl refl

drop_session_view-cursor_example :
    lookup_cursor "a"
      (drop_session_view ⦃scanner = no_turns⦄ "a" 500 (
        let w = world none in
        let l = connection true in
        record w {
          live =
              some
                (record l { session = "a"; pending = ("s1", frame_of next (some "Hello") 7) ∷ [] });
        })).cursors
    ≡ some (record { event_id = 7; epoch = "e1" })
drop_session_view-cursor_example =
    drop_session_view-cursor ⦃scanner = no_turns⦄ "a" "s1" "e1" (frame_of next (some "Hello") 7) 7
      500 (connection true) (world none) refl refl refl refl
