-- ===== src/Chat/Order.antt =====
-- orderConversationTurns of webui/src/stores/chatStore.ts: whole turns are ordered by the time of
-- their question. The source shares turns by reference; here the turn of a run is found by its
-- run id, and `legacy`, which is always the newest turn when it is set, is a flag. The last line of
-- the source chooses between two equal lists, to keep the identity of the old one.
pub mod Laws
use ga_hub.Prelude.{
  ℕ, String, Bool, true, false, not, ◌&&◌, ◌||◌, Option, none, some, List, [], ◌∷◌, ◌++◌, any,
  filter, update_first, if◌then◌else◌, is_set, is_some, opt_eq, or_default, or_else, min, sort_by,
  map,
}
use ga_hub.Chat.Message.{ChatMsg, read, is_user, is_assistant, is_on, slot_is}

pub record Turn : Type 0 where
  pub run : Option String
  pub messages : List ChatMsg
  pub anchor : Option ℕ

abbrev pub earlier : Option ℕ → Option ℕ → Option ℕ
earlier none b = b
earlier (some a) none = some a
earlier (some a) (some b) = some (min a b)

abbrev question_time : ChatMsg → Option ℕ
question_time m = if is_user m.role && not (is_on m.pending_webui) then read m.timestamp else none

abbrev pub add_to_turn : ChatMsg → Turn → Turn
add_to_turn m t = record t {
  messages = t.messages ++ m ∷ [];
  anchor = earlier t.anchor (question_time m);
}

abbrev new_turn : Option String → ChatMsg → Turn
new_turn run m = record { run = run; messages = m ∷ []; anchor = question_time m }

abbrev is_system_source : ChatMsg → Bool
is_system_source m = slot_is m.source "system" || slot_is m.source "runtime_error_notice"

abbrev last_turn : List Turn → Option Turn
last_turn [] = none
last_turn (t ∷ []) = some t
last_turn (t ∷ u ∷ turns) = last_turn (u ∷ turns)

abbrev stream_of : List ChatMsg → Option String
stream_of [] = none
stream_of (m ∷ ms) = read m.stream_id

abbrev first_stream : Option Turn → Option String
first_stream none = none
first_stream (some t) = stream_of t.messages

-- The message continues the legacy question that was pushed last.
abbrev continues_legacy : List Turn → ChatMsg → Bool
continues_legacy turns m =
    is_assistant m.role
    && not (is_set (read m.run_id))
    && not (is_system_source m)
    && (slot_is m.source "history"
        || (is_some (read m.stream_id)
            && opt_eq (first_stream (last_turn turns)) (read m.stream_id)))

-- There is a newest turn whenever `legacy` is set.
add_last : ChatMsg → List Turn → List Turn
add_last m [] = new_turn none m ∷ []
add_last m (t ∷ []) = add_to_turn m t ∷ []
add_last m (t ∷ u ∷ turns) = t ∷ add_last m (u ∷ turns)

abbrev has_run_id : Option String → Turn → Bool
has_run_id run t = is_some t.run && opt_eq t.run run

add_run : ChatMsg → List Turn → List Turn
add_run m turns =
    let run = read m.run_id in
    if any (has_run_id run) turns
    then update_first (has_run_id run) (add_to_turn m) turns
    else turns ++ new_turn run m ∷ []

abbrev opens_legacy : ChatMsg → Bool
opens_legacy m = is_user m.role && not (is_set (read m.run_id)) && not (is_on m.pending_webui)

-- One round of the first loop: the turns, and whether the newest one is the legacy turn.
place : List Turn × Bool → ChatMsg → List Turn × Bool
unfolding add_last add_run
place (turns, legacy) m =
    if is_set (read m.run_id) && not (is_on m.pending_webui)
    then (add_run m turns, false)
    else if legacy && continues_legacy turns m
    then (add_last m turns, true)
    else (turns ++ new_turn none m ∷ [], opens_legacy m)

place_all : List Turn × Bool → List ChatMsg → List Turn
unfolding place
place_all state [] = state.0
place_all state (m ∷ msgs) = place_all (place state m) msgs

abbrev start_anchor : List ChatMsg → Option ℕ
start_anchor [] = none
start_anchor (m ∷ ms) =
    earlier (if is_assistant m.role && not (is_system_source m) then read m.started_at else none)
      (start_anchor ms)

-- An answer without its question is dated by the start of its stream.
date_turn : Turn → Turn
date_turn t = record t { anchor = or_else t.anchor (start_anchor t.messages) }

abbrev pub is_dated : Turn → Bool
is_dated t = is_some t.anchor

abbrev pub anchor_of : Turn → ℕ
anchor_of t = or_default t.anchor 0

abbrev slot_for : Turn → List Turn → Turn
slot_for t [] = t
slot_for t (d ∷ dated) = if is_dated t then d else t

abbrev slots_after : Turn → List Turn → List Turn
slots_after t [] = []
slots_after t (d ∷ dated) = if is_dated t then dated else d ∷ dated

-- The dated turns go, in their order, into the places that dated turns had.
fill : List Turn → List Turn → List Turn
fill [] dated = []
fill (t ∷ turns) dated = slot_for t dated ∷ fill turns (slots_after t dated)

abbrev question : ChatMsg → Bool
question m = is_user m.role

-- The messages of a turn, its questions first.
unfoldable pub turn_messages : Turn → List ChatMsg
turn_messages t =
    if any question t.messages
    then filter question t.messages ++ filter (λ m. not (question m)) t.messages
    else t.messages

-- `flatMap` over the turns.
flat_messages : List Turn → List ChatMsg
unfolding turn_messages
flat_messages [] = []
flat_messages (t ∷ turns) = turn_messages t ++ flat_messages turns

-- The turns of a message list, dated.
unfoldable pub turns_of : List ChatMsg → List Turn
unfolding place_all date_turn
turns_of msgs = map date_turn (place_all ([], false) msgs)

-- The turns in the order in which they are shown.
unfoldable pub ordered_turns : List ChatMsg → List Turn
unfolding turns_of fill sort_by
ordered_turns msgs =
    let turns = turns_of msgs in fill turns (sort_by anchor_of (filter is_dated turns))

unfoldable pub order_conversation_turns : List ChatMsg → List ChatMsg
unfolding ordered_turns flat_messages
order_conversation_turns msgs = flat_messages (ordered_turns msgs)
