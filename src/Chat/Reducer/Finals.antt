-- ===== src/Chat/Reducer/Finals.antt =====
-- About bubbles of ended runs in applyEvent of webui/src/stores/chatStore.ts.
use ga_hub.Prelude.{
  ℕ, ◌≡◌, refl, ap, ◌∙◌, String, Bool, false, Option, none, some, List, [], ◌∷◌, ◌++◌, map, any,
  find?, update_first, update_last, arith, Bool-cases, Option-cases, inl, inr, opt_eq, or_text,
  ◌==◌, ◌&&◌, if◌then◌else◌,
}
use ga_hub.Reply.{Phase, started, next, done, TurnScanner}
use ga_hub.Chat.Message.{ChatMsg, read, Outcome, is_on, has_outcome, is_hidden_source}
use ga_hub.Chat.Event.{StreamEvent, RetryEvent}
use ga_hub.Chat.Notice.{
  upsert_retry_notice, with_notice, new_notice, is_notice_target, ensure_retry_start_notice,
  recovery_note, retry_key, is_recovery_source,
}
use ga_hub.Chat.Logical.{update_logical_reply, reply_message, refuses, is_reply_target}
use ga_hub.Chat.Reducer.{
  adopt, identify, started_answer, started_question, fresh_pair, is_pending_user, reduce_started,
  reduce_next, reduce_done, apply_identified, apply_stream, reduce_retry, retry_note, source_of,
  start_time, answers_start,
}

-- What a reader sees of a bubble.
abbrev pub Shown : Type 0
Shown = String × Option Outcome × Bool × Bool

abbrev pub shown : ChatMsg → Shown
shown m = (m.content, read m.outcome, is_on m.streaming, is_on m.stopped)

-- The bubbles that have an outcome, in order.
abbrev pub finals : List ChatMsg → List Shown
finals [] = []
finals (m ∷ msgs) = let rest = finals msgs in if has_outcome m then shown m ∷ rest else rest

-- A rewrite that a reader of final bubbles cannot see.
abbrev Unseen : (ChatMsg → ChatMsg) → Type 0
Unseen f = (m : ChatMsg) → (has_outcome (f m) ≡ has_outcome m) × (shown (f m) ≡ shown m)

finals-append :
    (msgs : List ChatMsg) (m : ChatMsg)
    → has_outcome m ≡ false
    → finals (msgs ++ m ∷ []) ≡ finals msgs
finals-append [] m h = rw h
finals-append (x ∷ msgs) m h = ground (arith, finals-append msgs m h)

finals-update_first :
    (p : ChatMsg → Bool) (f : ChatMsg → ChatMsg) (msgs : List ChatMsg)
    → Unseen f
    → finals (update_first p f msgs) ≡ finals msgs
finals-update_first p f [] u = refl
finals-update_first p f (m ∷ msgs) u = elim (Bool-cases (p m)) [
  | inl e ↦
      rw (e, (u m).0) (ap (λ s. if has_outcome m then s ∷ finals msgs else finals msgs) (u m).1)
  | inr e ↦
      rw e (ap (λ l. if has_outcome m then shown m ∷ l else l) (finals-update_first p f msgs u))
]

finals-update_last :
    (p : ChatMsg → Bool) (f : ChatMsg → ChatMsg) (msgs : List ChatMsg)
    → Unseen f
    → finals (update_last p f msgs) ≡ finals msgs
finals-update_last p f [] u = refl
finals-update_last p f (m ∷ msgs) u = elim (Bool-cases (any p msgs)) [
  | inl later ↦
      rw later (ap (λ l. if has_outcome m then shown m ∷ l else l) (finals-update_last p f msgs u))
  | inr none_later ↦ elim (Bool-cases (p m)) [
    | inl e ↦
        rw (none_later, e, (u m).0)
          (ap (λ s. if has_outcome m then s ∷ finals msgs else finals msgs) (u m).1)
    | inr e ↦ rw (none_later, e)
  ]
]

finals-map :
    (f : ChatMsg → ChatMsg) (msgs : List ChatMsg) → Unseen f → finals (map f msgs) ≡ finals msgs
finals-map f [] u = refl
finals-map f (m ∷ msgs) u = rw ((u m).0, (u m).1, finals-map f msgs u)

-- Putting an open bubble in the place of an open bubble.
finals-replace :
    (p : ChatMsg → Bool) (new old : ChatMsg) (msgs : List ChatMsg)
    → find? p msgs ≡ some old
    → has_outcome old ≡ false
    → has_outcome new ≡ false
    → finals (update_first p (λ _. new) msgs) ≡ finals msgs
finals-replace p new old [] h k l = refl
finals-replace p new old (m ∷ msgs) h k l = ground (arith, finals-replace p new old msgs)

with_notice-Unseen :
    (note : String) (retry_stream : Option String) → Unseen (with_notice note retry_stream)
unfolding with_notice
with_notice-Unseen note retry_stream m = (refl, refl)

new_notice-open :
    (key note : String) (time : Option ℕ) (retry_stream run : Option String)
    → has_outcome (new_notice key note time retry_stream run) ≡ false
unfolding new_notice
new_notice-open key note time retry_stream run = refl

pub upsert_retry_notice-finals :
    (prev : List ChatMsg) (key note : String) (time : Option ℕ) (retry_stream run : Option String)
    → finals (upsert_retry_notice prev key note time retry_stream run) ≡ finals prev
unfolding upsert_retry_notice
upsert_retry_notice-finals prev key note time retry_stream run =
    elim (Bool-cases (any (is_notice_target key run) prev)) [
      | inl e ↦ rw e (finals-update_first _ _ prev (with_notice-Unseen note retry_stream))
      | inr e ↦ rw e (finals-append prev _ (new_notice-open key note time retry_stream run))
    ]

ensure_retry_start_notice-finals :
    (prev : List ChatMsg) (evt : StreamEvent)
    → finals (ensure_retry_start_notice prev evt) ≡ finals prev
unfolding ensure_retry_start_notice
ensure_retry_start_notice-finals prev evt = ground (
  arith,
  upsert_retry_notice-finals prev (retry_key evt) (recovery_note evt) none (some evt.stream_id)
      evt.run_id,
)

adopt-Unseen : (evt : StreamEvent) → Unseen (adopt evt)
unfolding adopt
adopt-Unseen evt m = (refl, refl)

identify-Unseen : (evt : StreamEvent) → Unseen (identify evt)
unfolding identify
identify-Unseen evt m = (ground arith, ground arith)

started_answer-open : (evt : StreamEvent) (now : ℕ) → has_outcome (started_answer evt now) ≡ false
unfolding started_answer
started_answer-open evt now = refl

fresh_pair-finals :
    (evt : StreamEvent) (now : ℕ) (prev : List ChatMsg)
    → finals (fresh_pair evt now prev) ≡ finals prev
unfolding fresh_pair started_question started_answer
fresh_pair-finals evt now prev = grind (arith, finals-append)

reduce_retry-finals :
    (evt : RetryEvent) (now : ℕ) (prev : List ChatMsg)
    → finals (reduce_retry evt now prev) ≡ finals prev
unfolding reduce_retry
reduce_retry-finals evt now prev = elim (Bool-cases (is_hidden_source evt.source)) [
  | inl e ↦ rw e
  | inr e ↦ rw e (
      upsert_retry_notice-finals prev (or_text evt.logical_id evt.stream_id) (retry_note evt)
        (some now) none evt.run_id)
]

module _ ⦃scanner : TurnScanner⦄ where
  reply_message-open :
      (old : ChatMsg) (evt : StreamEvent) (now : ℕ)
      → has_outcome (reply_message (some old) evt now) ≡ has_outcome old
  unfolding reply_message
  reply_message-open old evt now = refl

  reply_message-new-open :
      (evt : StreamEvent) (now : ℕ) → has_outcome (reply_message none evt now) ≡ false
  unfolding reply_message
  reply_message-new-open evt now = refl

  pub update_logical_reply-finals :
      (prev : List ChatMsg) (evt : StreamEvent) (now : ℕ)
      → finals (update_logical_reply prev evt now) ≡ finals prev
  unfolding update_logical_reply
  update_logical_reply-finals prev evt now =
      elim (Option-cases (find? (is_reply_target evt) prev)) [
        | inl e ↦
            rw (e, update_logical_reply) (finals-append prev _ (reply_message-new-open evt now))
        | inr (old, e) ↦ elim (Bool-cases (refuses old evt)) [
          | inl r ↦ rw (e, r, update_logical_reply)
          | inr r ↦
              rw (e, r, update_logical_reply)
                (finals-replace _ _ old prev e (ground arith)
                  (reply_message-open old evt now ∙ ground arith))
        ]
      ]

  reduce_started-finals :
      (evt : StreamEvent) (now : ℕ) (prev : List ChatMsg)
      → finals (reduce_started evt now prev) ≡ finals prev
  unfolding reduce_started
  reduce_started-finals evt now prev = elim (Bool-cases (is_hidden_source (some (source_of evt)))) [
    | inl hidden ↦ rw hidden
    | inr seen ↦ elim (Bool-cases (is_recovery_source (some (source_of evt)))) [
      | inl recovery ↦
          rw (seen, recovery)
            (update_logical_reply-finals
                (upsert_retry_notice prev (retry_key evt) (recovery_note evt) (some now)
                  (some evt.stream_id) evt.run_id)
                evt (start_time evt now)
              ∙ upsert_retry_notice-finals prev (retry_key evt) (recovery_note evt) (some now)
                  (some evt.stream_id) evt.run_id)
      | inr plain ↦ elim (Bool-cases (any (answers_start evt) prev)) [
        | inl known ↦
            rw (seen, plain, known) (update_logical_reply-finals prev evt (start_time evt now))
        | inr new ↦ elim (Bool-cases (source_of evt == "webui" && any is_pending_user prev)) [
          | inl staged ↦
              rw (seen, plain, new, staged)
                (finals-append (update_last is_pending_user (adopt evt) prev)
                    (started_answer evt now) (started_answer-open evt now)
                  ∙ finals-update_last is_pending_user (adopt evt) prev (adopt-Unseen evt))
          | inr fresh ↦ rw (seen, plain, new, fresh) (fresh_pair-finals evt now prev)
        ]
      ]
    ]
  ]

  apply_identified-finals :
      (evt : StreamEvent) (now : ℕ) (prev : List ChatMsg)
      → finals (apply_identified evt now prev) ≡ finals prev
  unfolding apply_identified
  apply_identified-finals evt now prev = ground (arith, update_logical_reply-finals prev evt now)

  reduce_next-finals :
      (evt : StreamEvent) (now : ℕ) (prev : List ChatMsg)
      → finals (reduce_next evt now prev) ≡ finals prev
  unfolding reduce_next
  reduce_next-finals evt now prev = ground (
    arith,
    update_logical_reply-finals (ensure_retry_start_notice prev evt) evt now,
    ensure_retry_start_notice-finals prev evt,
  )

  reduce_done-finals :
      (evt : StreamEvent) (now : ℕ) (prev : List ChatMsg) (streams : List String)
      → opt_eq evt.source (some "system") ≡ false
      → finals (reduce_done evt now (prev, streams)).0 ≡ finals prev
  unfolding reduce_done
  reduce_done-finals evt now prev streams h = ground (
    arith,
    update_logical_reply-finals (ensure_retry_start_notice prev evt) evt now,
    ensure_retry_start_notice-finals prev evt,
  )

  -- A bubble whose run has ended keeps its text, outcome and flags, and none appears or goes,
  -- whatever `started`, `next` or `done` frame arrives, unless it answers a side question.
  pub apply_stream-finals :
      (evt : StreamEvent) (now : ℕ) (prev : List ChatMsg) (streams : List String)
      → opt_eq evt.source (some "system") ≡ false
      → finals (apply_stream evt now (prev, streams)).0 ≡ finals prev
  unfolding apply_stream
  apply_stream-finals evt now prev streams h = by_phase evt.phase refl
    where
      by_phase :
          (phase : Phase)
          → evt.phase ≡ phase
          → finals (apply_stream evt now (prev, streams)).0 ≡ finals prev
      by_phase started e =
          rw (e, apply_stream)
            (finals-map (identify evt) (reduce_started evt now prev) (identify-Unseen evt)
              ∙ reduce_started-finals evt now prev)
      by_phase next e =
          rw (e, apply_stream)
            (ground (arith, apply_identified-finals evt now prev, reduce_next-finals evt now prev))
      by_phase done e =
          rw (e, apply_stream)
            (ground (
              arith,
              apply_identified-finals evt now prev,
              reduce_done-finals evt now prev streams h,
            ))
