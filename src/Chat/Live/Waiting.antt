-- ===== src/Chat/Live/Waiting.antt =====
-- About the partial replies that wait in flushNext of webui/src/stores/chatStore.ts.
use ga_hub.Prelude.{
  ℕ, ◌≡◌, refl, sym, ap, ◌∙◌, String, Bool, true, false, Option, none, some, List, [], arith,
  Bool-cases, inl, inr,
}
use ga_hub.Reply.{TurnScanner, Phase, started, next, done}
use ga_hub.Chat.Event.{Event, Frame, snapshot, stream, resync_required, replay_done}
use ga_hub.Chat.Snapshot.{apply_event}
use ga_hub.Chat.Live.{
  World, Live, shows, apply_to, apply_pending, flush_next, flush_first, on_snapshot, on_next,
  on_resync, on_replay_done, on_rewound, on_other, dispatch, handle_ready, on_message,
}
use ga_hub.Chat.Live.Laws.{list_cases, Serves, on_message_of_Serves}

-- The frames that wait for the end of the quiet window.
abbrev pub waiting : Option Live → List (String × Frame)
waiting none = []
waiting (some l) = l.pending

abbrev is_next : Phase → Bool
is_next next = true
is_next _ = false

-- A partial reply, the one kind of frame that may wait.
abbrev pub is_part : Event → Bool
is_part (stream evt) = is_next evt.phase
is_part _ = false

-- What is shown before an event: the frames that wait, but a snapshot and a resynchronisation drop
-- them.
abbrev pub before : Event → List (String × Frame) → List (String × Frame)
before (snapshot evt) pending = []
before resync_required pending = []
before _ pending = pending

module _ ⦃scanner : TurnScanner⦄ where
  flush_first-waiting :
      (l : Live) (now : ℕ) (w : World) → w.live ≡ some l → waiting (flush_first l now w).live ≡ []
  unfolding flush_first flush_next
  flush_first-waiting l now w e = elim (list_cases l.pending) [
    | inl none_left ↦ rw (none_left, flush_first) (ap waiting e ∙ none_left)
    | inr (p, pending, some_left) ↦ rw (some_left, flush_first) (rw (some_left, flush_next) refl)
  ]

  dispatch-waiting :
      (l : Live) (event : Event) (frame : Frame) (now : ℕ) (w : World)
      → is_part event ≡ false
      → w.live ≡ some l
      → waiting (dispatch l event frame now w).live ≡ []
  unfolding dispatch on_snapshot on_resync on_replay_done on_rewound on_other apply_to
  dispatch-waiting l (snapshot evt) frame now w a e = refl
  dispatch-waiting l resync_required frame now w a e = refl
  dispatch-waiting l replay_done frame now w a e =
      elim (Bool-cases (shows l.session (flush_first l now w))) [
        | inl shown ↦ rw shown (flush_first-waiting l now w e)
        | inr away ↦ rw away (flush_first-waiting l now w e)
      ]
  dispatch-waiting l (stream evt) frame now w a e = dispatched evt.phase a
    where
      dispatched :
          (phase : Phase)
          → is_next phase ≡ false
          → let after : World = elim phase [
            | next ↦ on_next l evt frame now w
            | _ ↦ on_other l frame now w
          ] in
            waiting after.live ≡ []
      dispatched started a = flush_first-waiting l now w e
      dispatched next a = absurd (ground (arith, a))
      dispatched done a = flush_first-waiting l now w e
  dispatch-waiting l event frame now w a e = flush_first-waiting l now w e

  flush_next-applied :
      (l : Live) (now : ℕ) (w : World)
      → shows l.session w ≡ true
      → ((flush_next l now w).state ≡ (apply_pending l.pending now w).state)
        × ((flush_next l now w).aborted_streams ≡ (apply_pending l.pending now w).aborted_streams)
  unfolding flush_next apply_pending
  flush_next-applied l now w s = elim (list_cases l.pending) [
    | inl none_left ↦ rw (none_left, flush_next) (refl, refl)
    | inr (p, pending, some_left) ↦
        rw (some_left, flush_next)
          (rw s (
            ap (λ q. (apply_pending q now w).state) some_left,
            ap (λ q. (apply_pending q now w).aborted_streams) some_left,
          ))
  ]

  flush_first-applied :
      (l : Live) (now : ℕ) (w : World)
      → shows l.session w ≡ true
      → ((flush_first l now w).state ≡ (apply_pending l.pending now w).state)
        × ((flush_first l now w).aborted_streams ≡ (apply_pending l.pending now w).aborted_streams)
  unfolding flush_first apply_pending
  flush_first-applied l now w s = elim (list_cases l.pending) [
    | inl none_left ↦ rw (none_left, flush_first) (refl, refl)
    | inr (p, pending, some_left) ↦
        let (shown, streams) = flush_next-applied l now w s in
        rw (some_left, flush_first)
          (
            shown ∙ ap (λ q. (apply_pending q now w).state) some_left,
            streams ∙ ap (λ q. (apply_pending q now w).aborted_streams) some_left,
          )
  ]

  -- What an event makes of the bubbles depends on the bubbles and the aborted streams only.
  apply_to-msgs :
      (event : Event) (now : ℕ) (w w' : World)
      → (w.state ≡ w'.state) × (w.aborted_streams ≡ w'.aborted_streams)
      → (apply_to event now w).state.msgs ≡ (apply_to event now w').state.msgs
  unfolding apply_to
  apply_to-msgs event now w w' (e, f) =
      ap (λ st. (apply_event event now (st.msgs, w.aborted_streams)).0) e
      ∙ ap (λ streams. (apply_event event now (w'.state.msgs, streams)).0) f

  shown_before :
      (l : Live) (event : Event) (frame : Frame) (now : ℕ) (w : World)
      → frame.event ≡ event
      → shows l.session w ≡ true
      → (apply_to frame.event now (flush_first l now w)).state.msgs
        ≡ (apply_to event now (apply_pending l.pending now w)).state.msgs
  shown_before l event frame now w f s =
      apply_to-msgs frame.event now (flush_first l now w) (apply_pending l.pending now w)
        (flush_first-applied l now w s)
      ∙ ap (λ e. (apply_to e now (apply_pending l.pending now w)).state.msgs) f

  dispatch-applied :
      (l : Live) (event : Event) (frame : Frame) (now : ℕ) (w : World)
      → is_part event ≡ false
      → frame.event ≡ event
      → shows l.session w ≡ true
      → (dispatch l event frame now w).state.msgs
        ≡ (apply_to event now (apply_pending (before event l.pending) now w)).state.msgs
  unfolding dispatch on_snapshot on_resync on_replay_done on_rewound on_other apply_to apply_pending
      apply_event
  dispatch-applied l (snapshot evt) frame now w a f s = ap (λ e. (apply_to e now w).state.msgs) f
  dispatch-applied l resync_required frame now w a f s = refl
  dispatch-applied l replay_done frame now w a f s =
      elim (Bool-cases (shows l.session (flush_first l now w))) [
        | inl shown ↦ rw shown (ap (λ st. st.msgs) (flush_first-applied l now w s).0)
        | inr away ↦ rw away (ap (λ st. st.msgs) (flush_first-applied l now w s).0)
      ]
  dispatch-applied l (stream evt) frame now w a f s = dispatched evt.phase a
    where
      dispatched :
          (phase : Phase)
          → is_next phase ≡ false
          → let after : World = elim phase [
            | next ↦ on_next l evt frame now w
            | _ ↦ on_other l frame now w
          ] in
            after.state.msgs
            ≡ (apply_to (stream evt) now (apply_pending l.pending now w)).state.msgs
      dispatched started a = shown_before l (stream evt) frame now w f s
      dispatched next a = absurd (ground (arith, a))
      dispatched done a = shown_before l (stream evt) frame now w f s
  dispatch-applied l event frame now w a f s = shown_before l event frame now w f s

  -- When a connection that has its history takes a frame other than a partial reply, the bubbles
  -- become what showing the pending partial replies, in the order of their streams, and then the frame
  -- makes of them; a snapshot and a resynchronisation drop the pending ones instead. No partial reply
  -- is waiting afterwards.
  pub on_message-waiting :
      (start_id : ℕ) (frame : Frame) (now : ℕ) (w : World)
      → Serves start_id w
      → is_part frame.event ≡ false
      → (waiting (on_message start_id frame now w).live ≡ [])
        × ((on_message start_id frame now w).state.msgs
            ≡ (apply_to frame.event now
                (apply_pending (before frame.event (waiting w.live)) now w)).state.msgs)
  unfolding handle_ready
  on_message-waiting start_id frame now w serves a =
      let l = serves.connection in
      let handled : handle_ready frame now w ≡ dispatch l frame.event frame now w =
        simp (serves.is_live, handle_ready, serves.is_shown) in
      let taken = on_message_of_Serves start_id frame now w serves ∙ handled in
      (
        ap (λ v. waiting v.live) taken
            ∙ dispatch-waiting l frame.event frame now w a serves.is_live,
        ap (λ v. v.state.msgs) taken
            ∙ dispatch-applied l frame.event frame now w a refl serves.is_shown
            ∙ ap
                (λ o.
                  (apply_to frame.event now
                    (apply_pending (before frame.event (waiting o)) now w)).state.msgs)
                (sym serves.is_live),
      )
