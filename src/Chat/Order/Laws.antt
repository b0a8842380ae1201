-- ===== src/Chat/Order/Laws.antt =====
-- About orderConversationTurns of webui/src/stores/chatStore.ts.
use mathlib.Core.List.{
  Perm, Permᴰ, Perm-prop, perm_append_comm, perm_middle, append_assoc, append-nil,
}
use mathlib.Core.Logic.{∥∥₁_elim}
use mathlib.Core.List.Perm
use ga_hub.Prelude.{
  ◌≡◌, refl, sym, ap, Bool, true, false, not, ◌&&◌, Option, none, some, if◌then◌else◌, List, [],
  ◌∷◌, ◌++◌, map, any, filter, update_first, arith, Bool-cases, inl, inr, is_set, sort_by,
  sort_by-perm, sort_by-Ascends, sort_by-All, partition-perm, Ascends, All, length, length-sort_by,
}
use ga_hub.Chat.Message.{ChatMsg, read, is_on}
use ga_hub.Chat.Order.{
  Turn, add_to_turn, add_last, add_run, continues_legacy, has_run_id, place, place_all, date_turn,
  is_dated, anchor_of, fill, turn_messages, flat_messages, turns_of, ordered_turns,
  order_conversation_turns, question,
}

-- The messages of the turns, each turn's in the order of arrival.
abbrev all_messages : List Turn → List ChatMsg
all_messages [] = []
all_messages (t ∷ turns) = t.messages ++ all_messages turns

all_messages-append :
    (xs ys : List Turn) → all_messages (xs ++ ys) ≡ all_messages xs ++ all_messages ys
all_messages-append [] ys = refl
all_messages-append (t ∷ xs) ys =
    rw (all_messages-append xs ys)
      (sym (append_assoc t.messages (all_messages xs) (all_messages ys)))

-- A message that is put behind a turn's messages is the one message more.
added_behind :
    (m : ChatMsg) (ms rest : List ChatMsg) → Perm ((ms ++ m ∷ []) ++ rest) (m ∷ (ms ++ rest))
added_behind m ms rest = rw (append_assoc ms (m ∷ []) rest) (perm_middle ms rest)

added_later :
    (m : ChatMsg) (ms rest more : List ChatMsg)
    → Perm more (m ∷ rest)
    → Perm (ms ++ more) (m ∷ (ms ++ rest))
added_later m ms rest more p = Perm.trans (Perm.append_left ms p) (perm_middle ms rest)

update_first-all_messages :
    (p : Turn → Bool) (m : ChatMsg) (turns : List Turn)
    → any p turns ≡ true
    → Perm (all_messages (update_first p (add_to_turn m) turns)) (m ∷ all_messages turns)
update_first-all_messages p m [] h = absurd (grind arith)
update_first-all_messages p m (t ∷ turns) h = elim (Bool-cases (p t)) [
  | inl e ↦ rw e (added_behind m t.messages (all_messages turns))
  | inr e ↦ rw e (
      added_later m t.messages (all_messages turns) _
        (update_first-all_messages p m turns (ground arith)))
]

add_last-all_messages :
    (m : ChatMsg) (turns : List Turn)
    → Perm (all_messages (add_last m turns)) (m ∷ all_messages turns)
unfolding add_last
add_last-all_messages m [] = Perm.refl _
add_last-all_messages m (t ∷ []) = added_behind m t.messages []
add_last-all_messages m (t ∷ u ∷ turns) =
    added_later m t.messages (all_messages (u ∷ turns)) _ (add_last-all_messages m (u ∷ turns))

pushed-all_messages :
    (m : ChatMsg) (turns : List Turn) (t : Turn)
    → t.messages ≡ m ∷ []
    → Perm (all_messages (turns ++ t ∷ [])) (m ∷ all_messages turns)
pushed-all_messages m turns t e =
    rw (all_messages-append turns (t ∷ []), e)
      (Perm.trans (perm_middle (all_messages turns) []) (rw append-nil (Perm.refl _)))

place-all_messages :
    (turns : List Turn) (legacy : Bool) (m : ChatMsg)
    → Perm (all_messages (place (turns, legacy) m).0) (m ∷ all_messages turns)
unfolding place add_run
place-all_messages turns legacy m =
    elim (Bool-cases (is_set (read m.run_id) && not (is_on m.pending_webui))) [
      | inl run ↦ rw run (elim (Bool-cases (any (has_run_id (read m.run_id)) turns)) [
        | inl e ↦ rw e (update_first-all_messages _ m turns e)
        | inr e ↦ rw e (pushed-all_messages m turns _ refl)
      ])
      | inr other ↦ rw other (elim (Bool-cases (legacy && continues_legacy turns m)) [
        | inl e ↦ rw e (add_last-all_messages m turns)
        | inr e ↦ rw e (pushed-all_messages m turns _ refl)
      ])
    ]

place_all-all_messages :
    (state : List Turn × Bool) (msgs : List ChatMsg)
    → Perm (all_messages (place_all state msgs)) (all_messages state.0 ++ msgs)
unfolding place_all
place_all-all_messages state [] = rw append-nil (Perm.refl _)
place_all-all_messages (turns, legacy) (m ∷ msgs) =
    Perm.trans (place_all-all_messages (place (turns, legacy) m) msgs) (
      Perm.trans (Perm.append_right msgs (place-all_messages turns legacy m))
        (Perm.symm (perm_middle (all_messages turns) msgs)))

date_turn-all_messages :
    (turns : List Turn) → all_messages (map date_turn turns) ≡ all_messages turns
unfolding date_turn
date_turn-all_messages [] = refl
date_turn-all_messages (t ∷ turns) = ap (λ l. t.messages ++ l) (date_turn-all_messages turns)

turn_messages-perm : (t : Turn) → Perm (turn_messages t) t.messages
unfolding turn_messages
turn_messages-perm t = elim (Bool-cases (any question t.messages)) [
  | inl e ↦ rw e (partition-perm question t.messages)
  | inr e ↦ rw e (Perm.refl _)
]

flat_messages-perm : (turns : List Turn) → Perm (flat_messages turns) (all_messages turns)
unfolding flat_messages
flat_messages-perm [] = Perm.refl _
flat_messages-perm (t ∷ turns) = Perm.append (turn_messages-perm t) (flat_messages-perm turns)

all_messagesᴰ : {xs ys : List Turn} → Permᴰ xs ys → Perm (all_messages xs) (all_messages ys)
all_messagesᴰ Permᴰ.nil = Perm.refl _
all_messagesᴰ (Permᴰ.cons {a = t} {b = u} e p) =
    rw e (Perm.append_left u.messages (all_messagesᴰ p))
all_messagesᴰ (Permᴰ.swap {a = t} {b = u} {a' = v} {b' = w} {l = l} e f) =
    rw (e, f) (swapped w.messages v.messages (all_messages l))
  where
    swapped : (a b c : List ChatMsg) → Perm (a ++ (b ++ c)) (b ++ (a ++ c))
    swapped a b c =
        rw (← append_assoc a b c, ← append_assoc b a c) (Perm.append_right c (perm_append_comm a b))
all_messagesᴰ (Permᴰ.trans p q) = Perm.trans (all_messagesᴰ p) (all_messagesᴰ q)

all_messages-perm : {xs ys : List Turn} → Perm xs ys → Perm (all_messages xs) (all_messages ys)
all_messages-perm p = ∥∥₁_elim p Perm-prop all_messagesᴰ

abbrev is_undated : Turn → Bool
is_undated t = not (is_dated t)

-- The slots take as many dated turns as there are, and the undated turns stay.
fill-perm :
    (turns dated : List Turn)
    → length dated ≡ length (filter is_dated turns)
    → Perm (fill turns dated) (dated ++ filter is_undated turns)
unfolding fill
fill-perm [] [] h = Perm.refl _
fill-perm [] (d ∷ dated) h = absurd (omega arith)
fill-perm (t ∷ turns) [] h = elim (Bool-cases (is_dated t)) [
  | inl e ↦ absurd (ground arith)
  | inr e ↦ rw e (Perm.cons t (fill-perm turns [] (ground arith)))
]
fill-perm (t ∷ turns) (d ∷ dated) h = elim (Bool-cases (is_dated t)) [
  | inl e ↦ rw e (Perm.cons d (fill-perm turns dated (ground arith)))
  | inr e ↦ rw e (
      Perm.trans (Perm.cons t (fill-perm turns (d ∷ dated) (ground arith)))
        (Perm.symm (perm_middle (d ∷ dated) (filter is_undated turns))))
]

All-is_dated : (turns : List Turn) → All (λ t. is_dated t ≡ true) (filter is_dated turns)
All-is_dated [] = tt
All-is_dated (t ∷ turns) = elim (Bool-cases (is_dated t)) [
  | inl e ↦ rw e (e, All-is_dated turns)
  | inr e ↦ rw e (All-is_dated turns)
]

-- After the filling the dated turns stand in the order that they were given in.
fill-dated :
    (turns dated : List Turn)
    → length dated ≡ length (filter is_dated turns)
    → All (λ t. is_dated t ≡ true) dated
    → filter is_dated (fill turns dated) ≡ dated
unfolding fill
fill-dated [] [] h a = refl
fill-dated [] (d ∷ dated) h a = absurd (omega arith)
fill-dated (t ∷ turns) [] h a = elim (Bool-cases (is_dated t)) [
  | inl e ↦ absurd (ground arith)
  | inr e ↦ rw e (fill-dated turns [] (ground arith) tt)
]
fill-dated (t ∷ turns) (d ∷ dated) h (k, a) = elim (Bool-cases (is_dated t)) [
  | inl e ↦ rw (e, k) (ap (λ l. d ∷ l) (fill-dated turns dated (ground arith) a))
  | inr e ↦ rw e (rw e (fill-dated turns (d ∷ dated) (ground arith) (k, a)))
]

-- An undated turn, with its bubbles; a dated one is left out.
abbrev pub undated_of : Turn → Option Turn
undated_of t = if is_dated t then none else some t

-- An undated turn keeps its place.
fill-places :
    (turns dated : List Turn)
    → length dated ≡ length (filter is_dated turns)
    → All (λ t. is_dated t ≡ true) dated
    → map undated_of (fill turns dated) ≡ map undated_of turns
unfolding fill
fill-places [] dated h a = refl
fill-places (t ∷ turns) [] h a = elim (Bool-cases (is_dated t)) [
  | inl e ↦ absurd (ground arith)
  | inr e ↦ rw e (ap (λ l. some t ∷ l) (fill-places turns [] (ground arith) tt))
]
fill-places (t ∷ turns) (d ∷ dated) h (k, a) = elim (Bool-cases (is_dated t)) [
  | inl e ↦ rw (e, k) (ap (λ l. none ∷ l) (fill-places turns dated (ground arith) a))
  | inr e ↦ rw e (rw e (ap (λ l. some t ∷ l) (fill-places turns (d ∷ dated) (ground arith) (k, a))))
]

module _ (msgs : List ChatMsg) where
  abbrev dated_turns : List Turn
  dated_turns = sort_by anchor_of (filter is_dated (turns_of msgs))

  dated_turns-length : length dated_turns ≡ length (filter is_dated (turns_of msgs))
  dated_turns-length = length-sort_by anchor_of (filter is_dated (turns_of msgs))

  dated_turns-All : All (λ t. is_dated t ≡ true) dated_turns
  dated_turns-All = sort_by-All anchor_of _ _ (All-is_dated (turns_of msgs))

  ordered_turns-perm : Perm (ordered_turns msgs) (turns_of msgs)
  unfolding ordered_turns
  ordered_turns-perm = Perm.trans (fill-perm (turns_of msgs) dated_turns dated_turns-length) (
      Perm.trans (Perm.append_right _ (sort_by-perm anchor_of (filter is_dated (turns_of msgs))))
        (partition-perm is_dated (turns_of msgs)))

  turns_of-all_messages : Perm (all_messages (turns_of msgs)) msgs
  unfolding turns_of
  turns_of-all_messages =
      rw (date_turn-all_messages (place_all ([], false) msgs))
        (place_all-all_messages ([], false) msgs)

  -- Ordering a transcript keeps every bubble, each as often as it was there.
  pub order_conversation_turns-perm : Perm (order_conversation_turns msgs) msgs
  unfolding order_conversation_turns
  order_conversation_turns-perm =
      Perm.trans (flat_messages-perm (ordered_turns msgs))
        (Perm.trans (all_messages-perm ordered_turns-perm) turns_of-all_messages)

  -- The turns that have a time are those of the transcript, each as often as it was there, in
  -- ascending order of it. The turns that have none are those of the transcript, each with its
  -- bubbles in the slot that it had.
  pub ordered_turns-Ascends :
      Ascends anchor_of (filter is_dated (ordered_turns msgs))
      × Perm (filter is_dated (ordered_turns msgs)) (filter is_dated (turns_of msgs))
      × (map undated_of (ordered_turns msgs) ≡ map undated_of (turns_of msgs))
  unfolding ordered_turns
  ordered_turns-Ascends = (
    rw (fill-dated (turns_of msgs) dated_turns dated_turns-length dated_turns-All)
        (sort_by-Ascends anchor_of (filter is_dated (turns_of msgs))),
    rw (fill-dated (turns_of msgs) dated_turns dated_turns-length dated_turns-All)
        (sort_by-perm anchor_of (filter is_dated (turns_of msgs))),
    fill-places (turns_of msgs) dated_turns dated_turns-length dated_turns-All,
  )
