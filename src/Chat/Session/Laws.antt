-- ===== src/Chat/Session/Laws.antt =====
-- About start, its history request and dropSessionView of webui/src/stores/chatStore.ts.
use ga_hub.Prelude.{
  ℕ, suc, ◌≤◌, ◌≡◌, refl, sym, ap, ◌∙◌, String, Bool, true, false, none, some, List, [], ◌∷◌, ◌++◌,
  map, arith, Bool-cases, Option-cases, inl, inr, All, leb, eqb, truthy, ◌==◌, eq_refl, eq_iff,
}
use mathlib.Core.List.{append-nil, append_assoc}
use ga_hub.Reply.{TurnScanner}
use ga_hub.Chat.Event.{Frame}
use ga_hub.Chat.History.{DateParser}
use ga_hub.Chat.Order.{order_conversation_turns}
use ga_hub.Chat.State.{
  ChatState, session_view_chars, max_cached_chars, ready, lookup_view, put_view, delete_view,
  lookup_cursor, delete_cursor, Cursors, commit_cursor, put_cursor,
}
use ga_hub.Chat.State.Laws.{lookup_put_same, prune_single}
use ga_hub.Chat.Live.{
  World, Live, shows, apply_to, apply_pending, flush_next, handle_all, on_message, on_messages,
}
use ga_hub.Chat.Live.Laws.{list_cases, asks_resync, Serves, on_messages_of_Serves}
use ga_hub.Chat.Session.{
  HistoryPage, cleanup, start, drain, history_failed, hydrated, history_loaded, already_shown,
  drop_session_view, view_of, shown_state, resumes,
}

module _ ⦃scanner : TurnScanner⦄ where
  -- Frames of one connection that arrive one after the other, each at a time of its own.
  abbrev pub arriving : ℕ → List (Frame × ℕ) → World → World
  arriving start_id [] w = w
  arriving start_id ((f, now) ∷ timed) w = arriving start_id timed (on_message start_id f now w)

  -- A connection without its history keeps what arrives, whenever it does.
  arriving-buffered :
      (start_id : ℕ) (timed : List (Frame × ℕ)) (l : Live) (w : World)
      → eqb l.start_id start_id ≡ true
      → l.history_ready ≡ false
      → shows l.session w ≡ true
      → arriving start_id timed (record w { live = some l })
        ≡ record w { live = some (record l { buffered = l.buffered ++ map (λ t. t.0) timed }) }
  unfolding on_message
  arriving-buffered start_id [] l w m h s =
      ap (λ b. record w { live = some (record l { buffered = b }) }) (sym (append-nil l.buffered))
  arriving-buffered start_id ((f, now) ∷ timed) l w m h s =
      ap (arriving start_id timed) taken
      ∙ arriving-buffered start_id timed later w m h s
      ∙ ap (λ b. record w { live = some (record l { buffered = b }) })
          (append_assoc l.buffered (f ∷ []) (map (λ t. t.0) timed))
    where
      later : Live
      later = record l { buffered = l.buffered ++ f ∷ [] }

      taken :
          on_message start_id f now (record w { live = some l }) ≡ record w { live = some later }
      taken = simp (on_message, m, h, s)

  module _ ⦃dates : DateParser⦄ where
    opened : HistoryPage → Live → World → World
    unfolding hydrated
    opened page l w = record w {
      state = hydrated page w.state;
      live = some (record l { history_ready = true; buffered = [] });
    }

    -- The history's answer releases what the connection has buffered.
    history_loaded_lem :
        (generation : ℕ) (page : HistoryPage) (now : ℕ) (l : Live) (w : World)
        → eqb generation w.generation ≡ true
        → shows l.session w ≡ true
        → history_loaded generation l.session page now (record w { live = some l })
          ≡ handle_all l.buffered now (opened page l w)
    unfolding history_loaded drain opened
    history_loaded_lem generation page now l w g s = simp (history_loaded, g, s)

    -- The frames of a connection may come before the answer to its history request, at any times, or
    -- right after it: the store ends in the state that it has when the answer comes first and all the
    -- frames come at the time of the answer, when the connection is the newest, has buffered nothing
    -- yet and shows its session, the answer is the current generation's, and no frame asks for a new
    -- connection. The answer and the release of what was buffered read the clock as one time.
    pub history_loaded-on_messages :
        (start_id generation : ℕ) (timed : List (Frame × ℕ)) (page : HistoryPage) (now : ℕ)
        (l : Live) (w : World)
        → eqb l.start_id start_id ≡ true
        → eqb generation w.generation ≡ true
        → l.history_ready ≡ false
        → l.buffered ≡ []
        → shows l.session w ≡ true
        → All (λ f. asks_resync f.event ≡ false) (map (λ t. t.0) timed)
        → history_loaded generation l.session page now
            (arriving start_id timed (record w { live = some l }))
          ≡ on_messages start_id
              (map (λ t. t.0) timed)
              now
              (history_loaded generation l.session page now (record w { live = some l }))
    unfolding opened handle_all hydrated
    history_loaded-on_messages start_id generation timed page now l w m g h b s a =
        ap (history_loaded generation l.session page now)
          (arriving-buffered start_id timed l w m h s)
        ∙ history_loaded_lem generation page now (record l { buffered = l.buffered ++ frames }) w g
            s
        ∙ ap (λ buffer. handle_all (buffer ++ frames) now (opened page l w)) b
        ∙ sym (on_messages_of_Serves start_id frames now (opened page l w) a serves)
        ∙ sym (
            ap (on_messages start_id frames now) (
              history_loaded_lem generation page now l w g s
              ∙ ap (λ buffer. handle_all buffer now (opened page l w)) b))
      where
        frames : List Frame
        frames = map (λ t. t.0) timed

        serves : Serves start_id (opened page l w)
        serves = record {
          connection = record l { history_ready = true; buffered = [] };
          is_live = refl;
          made_by = m;
          has_history = refl;
          is_shown = s;
        }

  apply_pending-generation :
      (pending : List (String × Frame)) (now : ℕ) (w : World)
      → (apply_pending pending now w).generation ≡ w.generation
  unfolding apply_pending apply_to
  apply_pending-generation [] now w = refl
  apply_pending-generation ((s, f) ∷ pending) now w =
      apply_pending-generation pending now (apply_to f.event now w)

  flush_next-generation :
      (l : Live) (now : ℕ) (w : World) → (flush_next l now w).generation ≡ w.generation
  unfolding flush_next
  flush_next-generation l now w = elim (list_cases l.pending) [
    | inl e ↦ simp (e, flush_next)
    | inr (p, pending, e) ↦
        simp (e, flush_next)
          (elim (Bool-cases (shows l.session w)) [
            | inl shown ↦ simp (shown, apply_pending-generation (p ∷ pending) now w)
            | inr away ↦ simp away
          ])
  ]

  cleanup-generation : (now : ℕ) (w : World) → (cleanup now w).generation ≡ w.generation
  unfolding cleanup
  cleanup-generation now w = elim (Option-cases w.live) [
    | inl e ↦ simp (e, cleanup)
    | inr (l, e) ↦ simp (e, cleanup, flush_next-generation l now w)
  ]

  start-generation :
      (force : Bool) (session : String) (now : ℕ) (w : World)
      → already_shown force session w.state ≡ false
      → (start force session now w).generation ≡ suc w.generation
  unfolding start
  start-generation force session now w h = simp (start, h, cleanup-generation now w)

  module _ ⦃dates : DateParser⦄ where
    -- After a session is started, the answer to a history request of an earlier generation, its
    -- failure included, changes nothing, whatever session it names, unless `start` returns at
    -- once because the session is already shown.
    pub start-stale :
        (force : Bool) (session asked : String) (generation : ℕ) (page : HistoryPage)
        (message : String) (now later : ℕ) (w : World)
        → already_shown force session w.state ≡ false
        → generation ≤ w.generation
        → (history_loaded generation asked page later (start force session now w)
            ≡ start force session now w)
          × (history_failed generation asked message later (start force session now w)
              ≡ start force session now w)
    unfolding history_loaded history_failed
    start-stale force session asked generation page message now later w h old =
        (simp (history_loaded, stale), simp (history_failed, stale))
      where
        stale : eqb generation (start force session now w).generation ≡ false
        stale = rw (start-generation force session now w h) (ground (arith, old))

  lookup_cursor-delete_cursor :
      (session : String) (cursors : Cursors)
      → lookup_cursor session (delete_cursor session cursors) ≡ none
  unfolding lookup_cursor delete_cursor
  lookup_cursor-delete_cursor session [] = refl
  lookup_cursor-delete_cursor session ((k, c) ∷ cursors) = elim (Bool-cases (k == session)) [
    | inl same ↦ rw same (lookup_cursor-delete_cursor session cursors)
    | inr other ↦ rw (other, other) (lookup_cursor-delete_cursor session cursors)
  ]

  -- Dropping the shown session while one of its frames waits for the quiet window leaves a cursor
  -- of the session behind: the cursor is deleted first, and showing the waiting frame, which has an
  -- event and an epoch, writes it again.
  pub drop_session_view-cursor :
      (session sid epoch : String) (frame : Frame) (id now : ℕ) (l : Live) (w : World)
      → shows session w ≡ true
      → frame.event_id ≡ some id
      → frame.epoch ≡ some epoch
      → truthy epoch ≡ true
      → lookup_cursor session
          (drop_session_view session now (record w {
            live = some (record l { session = session; pending = (sid, frame) ∷ [] });
          })).cursors
        ≡ some (record { event_id = id; epoch = epoch })
  unfolding drop_session_view cleanup flush_next apply_pending apply_to commit_cursor put_cursor
      lookup_cursor
  drop_session_view-cursor session sid epoch frame id now l w s e1 e2 t =
      simp (drop_session_view, s, e1, e2, t, lookup_cursor-delete_cursor session w.cursors)
        (lookup_put_same session (record { event_id = id; epoch = epoch })
          (delete_cursor session w.cursors))

-- A shown session whose history is there and which is idle, with no other session cached.
abbrev pub at_rest : String → ChatState → ChatState
at_rest session st = record st {
  session_id = some session;
  session_views = [];
  streaming = false;
  history_status = ready;
}

shown_state-session_views :
    (a b : String) (leave : ℕ) (st : ChatState)
    → truthy a ≡ true
    → (a == b) ≡ false
    → leb (session_view_chars (view_of (at_rest a st) leave)) max_cached_chars ≡ true
    → (shown_state false b leave (at_rest a st)).session_views
      ≡ (a, view_of (at_rest a st) leave) ∷ []
unfolding shown_state put_view delete_view
shown_state-session_views a b leave st t d c =
    simp (shown_state, t, d) (prune_single a (view_of (at_rest a st) leave) refl c)

-- Leaving an idle session whose history is there for a new one and coming back shows the bubbles
-- that were left, in conversation order, without asking for the history again, when no other
-- session was cached and the bubbles have at most three million characters.
pub shown_state-back :
    (a b : String) (leave back : ℕ) (st : ChatState)
    → truthy a ≡ true
    → truthy b ≡ true
    → (a == b) ≡ false
    → leb (session_view_chars (view_of (at_rest a st) leave)) max_cached_chars ≡ true
    → (resumes false a back (shown_state false b leave (at_rest a st)) ≡ true)
      × ((shown_state false a back (shown_state false b leave (at_rest a st))).msgs
          ≡ order_conversation_turns st.msgs)
unfolding shown_state put_view lookup_view
shown_state-back a b leave back st ta tb d c = (
  simp (resumes, other, tb, views) (simp (d, eq_refl a) refl),
  simp (shown_state, other, tb, views) (simp (d, eq_refl a) refl),
)
  where
    other : (b == a) ≡ false
    other = ground (arith, d, eq_iff a b, eq_iff b a)

    views :
        (shown_state false b leave (at_rest a st)).session_views
        ≡ (a, view_of (at_rest a st) leave) ∷ []
    views = shown_state-session_views a b leave st ta d c
