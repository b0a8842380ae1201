-- ===== src/Chat/Live/Laws.antt =====
-- About handleReadyMessage and sock.onMessage in webui/src/stores/chatStore.ts.
use ga_hub.Prelude.{
  ℕ, ◌-◌, ◌≡◌, refl, ap, ◌∙◌, String, Bool, true, false, some, List, [], ◌∷◌, arith, Bool-cases,
  inl, inr, ◌⊎◌, All, leb, eqb, opt_eq,
}
use ga_hub.Reply.{TurnScanner, next}
use ga_hub.Chat.Event.{
  Event, Frame, StreamEvent, snapshot, stream, rewound, resync_required, replay_done,
}
use ga_hub.Chat.Live.{
  World, Live, put_pending, shows, apply_to, apply_pending, flush_next, flush_first, flush_ms,
  on_snapshot, on_next, on_replay_done, on_rewound, on_other, dispatch, handle_ready, handle_all,
  on_message, on_messages,
}

-- A frame that asks for a new connection.
abbrev pub asks_resync : Event → Bool
asks_resync resync_required = true
asks_resync _ = false

-- The connection of `start_id` is the newest, has its history, and its session is shown.
pub record Serves (start_id : ℕ) (w : World) : Type 0 where
  pub connection : Live
  pub is_live : w.live ≡ some connection
  pub made_by : eqb connection.start_id start_id ≡ true
  pub has_history : connection.history_ready ≡ true
  pub is_shown : shows connection.session w ≡ true

pub list_cases : {A : Type 0} (xs : List A) → (xs ≡ []) ⊎ ((x : A) × (ys : List A) × (xs ≡ x ∷ ys))
list_cases [] = inl refl
list_cases (x ∷ xs) = inr (x, xs, refl)

module _ ⦃scanner : TurnScanner⦄ where
  apply_pending-session_id :
      (pending : List (String × Frame)) (now : ℕ) (w : World)
      → (apply_pending pending now w).state.session_id ≡ w.state.session_id
  unfolding apply_pending apply_to
  apply_pending-session_id [] now w = refl
  apply_pending-session_id ((s, f) ∷ pending) now w =
      apply_pending-session_id pending now (apply_to f.event now w)

  flush_next-Serves :
      (start_id : ℕ) (l : Live) (now : ℕ) (w : World)
      → eqb l.start_id start_id ≡ true
      → l.history_ready ≡ true
      → shows l.session w ≡ true
      → Serves start_id (flush_next l now w)
  unfolding flush_next
  flush_next-Serves start_id l now w m h s = elim (list_cases l.pending) [
    | inl e ↦
        rw (e, flush_next)
          (record {
            connection = record l { timer = false };
            is_live = refl;
            made_by = m;
            has_history = h;
            is_shown = s;
          })
    | inr (p, pending, e) ↦
        rw (e, flush_next)
          (rw s (record {
            connection = record l { pending = []; timer = false; last_flush = now };
            is_live = refl;
            made_by = m;
            has_history = h;
            is_shown =
                ap (λ o. opt_eq o (some l.session)) (apply_pending-session_id l.pending now w) ∙ s;
          }))
  ]

  flush_first-Serves :
      (start_id : ℕ) (l : Live) (now : ℕ) (w : World)
      → w.live ≡ some l
      → eqb l.start_id start_id ≡ true
      → l.history_ready ≡ true
      → shows l.session w ≡ true
      → Serves start_id (flush_first l now w)
  unfolding flush_first
  flush_first-Serves start_id l now w e m h s = elim (list_cases l.pending) [
    | inl none_left ↦
        rw (none_left, flush_first)
          (record { connection = l; is_live = e; made_by = m; has_history = h; is_shown = s })
    | inr (p, pending, some_left) ↦
        rw (some_left, flush_first) (flush_next-Serves start_id l now w m h s)
  ]

  -- A step that changes neither the connection nor the shown session.
  unmoved-Serves :
      (start_id : ℕ) (w w' : World)
      → w'.live ≡ w.live
      → w'.state.session_id ≡ w.state.session_id
      → Serves start_id w
      → Serves start_id w'
  unmoved-Serves start_id w w' same shown serves = record {
    connection = serves.connection;
    is_live = same ∙ serves.is_live;
    made_by = serves.made_by;
    has_history = serves.has_history;
    is_shown = ap (λ o. opt_eq o (some serves.connection.session)) shown ∙ serves.is_shown;
  }

  on_other-Serves :
      (start_id : ℕ) (l : Live) (frame : Frame) (now : ℕ) (w : World)
      → w.live ≡ some l
      → eqb l.start_id start_id ≡ true
      → l.history_ready ≡ true
      → shows l.session w ≡ true
      → Serves start_id (on_other l frame now w)
  unfolding on_other apply_to
  on_other-Serves start_id l frame now w e m h s =
      unmoved-Serves start_id (flush_first l now w) _ refl refl
        (flush_first-Serves start_id l now w e m h s)

  on_next-Serves :
      (start_id : ℕ) (l : Live) (evt : StreamEvent) (frame : Frame) (now : ℕ) (w : World)
      → eqb l.start_id start_id ≡ true
      → l.history_ready ≡ true
      → shows l.session w ≡ true
      → Serves start_id (on_next l evt frame now w)
  unfolding on_next
  on_next-Serves start_id l evt frame now w m h s =
      elim (Bool-cases (leb flush_ms (now - l.last_flush))) [
        | inl quiet_over ↦ rw (quiet_over, on_next) (flush_next-Serves start_id waiting now w m h s)
        | inr quiet ↦
            rw (quiet, on_next)
              (record {
                connection = record waiting { timer = true };
                is_live = refl;
                made_by = m;
                has_history = h;
                is_shown = s;
              })
      ]
    where
      waiting : Live
      waiting = record l { pending = put_pending evt.stream_id frame l.pending }

  dispatch-Serves :
      (start_id : ℕ) (l : Live) (event : Event) (frame : Frame) (now : ℕ) (w : World)
      → asks_resync event ≡ false
      → w.live ≡ some l
      → eqb l.start_id start_id ≡ true
      → l.history_ready ≡ true
      → shows l.session w ≡ true
      → Serves start_id (dispatch l event frame now w)
  unfolding dispatch on_snapshot on_replay_done on_rewound apply_to
  dispatch-Serves start_id l (snapshot evt) frame now w a e m h s = record {
    connection = record l { pending = []; timer = false };
    is_live = refl;
    made_by = m;
    has_history = h;
    is_shown = s;
  }
  dispatch-Serves start_id l resync_required frame now w a e m h s = absurd (ground (arith, a))
  dispatch-Serves start_id l replay_done frame now w a e m h s =
      unmoved-Serves start_id (flush_first l now w) (on_replay_done l frame now w)
        (elim (Bool-cases (shows l.session (flush_first l now w))) [
          | inl shown ↦ rw shown refl
          | inr away ↦ rw away refl
        ])
        (elim (Bool-cases (shows l.session (flush_first l now w))) [
          | inl shown ↦ rw shown refl
          | inr away ↦ rw away refl
        ])
        (flush_first-Serves start_id l now w e m h s)
  dispatch-Serves start_id l (rewound sids) frame now w a e m h s =
      unmoved-Serves start_id (flush_first l now w) _ refl refl
        (flush_first-Serves start_id l now w e m h s)
  dispatch-Serves start_id l (stream evt) frame now w a e m h s =
      elim evt.phase
        as (λ phase.
          Serves start_id
            (elim phase [ next ↦ on_next l evt frame now w | _ ↦ on_other l frame now w ])) [
              | next ↦ on_next-Serves start_id l evt frame now w m h s
              | _ ↦ on_other-Serves start_id l frame now w e m h s
            ]
  dispatch-Serves start_id l event frame now w a e m h s =
      on_other-Serves start_id l frame now w e m h s

  -- Every frame but a resynchronisation keeps the connection that took it.
  handle_ready-Serves :
      (start_id : ℕ) (frame : Frame) (now : ℕ) (w : World)
      → asks_resync frame.event ≡ false
      → Serves start_id w
      → Serves start_id (handle_ready frame now w)
  unfolding handle_ready
  handle_ready-Serves start_id frame now w a serves =
      rw (serves.is_live, handle_ready)
        (rw serves.is_shown (
          dispatch-Serves start_id serves.connection frame.event frame now w a serves.is_live
            serves.made_by serves.has_history serves.is_shown))

  pub on_message_of_Serves :
      (start_id : ℕ) (frame : Frame) (now : ℕ) (w : World)
      → Serves start_id w
      → on_message start_id frame now w ≡ handle_ready frame now w
  unfolding on_message
  on_message_of_Serves start_id frame now w serves =
      simp (serves.is_live, on_message, serves.made_by, serves.is_shown, serves.has_history)

  pub on_messages_of_Serves :
      (start_id : ℕ) (frames : List Frame) (now : ℕ) (w : World)
      → All (λ f. asks_resync f.event ≡ false) frames
      → Serves start_id w
      → on_messages start_id frames now w ≡ handle_all frames now w
  unfolding on_messages handle_all
  on_messages_of_Serves start_id [] now w a serves = refl
  on_messages_of_Serves start_id (f ∷ frames) now w (h, a) serves =
      ap (on_messages start_id frames now) (on_message_of_Serves start_id f now w serves)
      ∙ on_messages_of_Serves start_id frames now (handle_ready f now w) a
          (handle_ready-Serves start_id f now w h serves)
