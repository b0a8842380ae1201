-- ===== src/Chat/Actions/Laws.antt =====
-- About stageWebui, rollbackWebui and pushSystem of webui/src/stores/chatStore.ts.
use ga_hub.Prelude.{
  ℕ, ◌≡◌, refl, ap, String, Bool, true, false, not, List, [], ◌∷◌, ◌++◌, any, filter, length-append,
  arith, Bool-cases, inl, inr, eq_refl,
}
use ga_hub.Chat.Message.{ChatMsg, Attachment}
use ga_hub.Chat.State.{ChatState}
use ga_hub.Chat.Actions.{
  stage_name, staged_bubble, stage_webui, is_staged, remove_pending, rollback_webui, has_staged,
  shorter,
}

filter_away :
    {A : Type 0} (p : A → Bool) (xs : List A) → any p xs ≡ false → filter (λ x. not (p x)) xs ≡ xs
filter_away p [] h = refl
filter_away p (x ∷ xs) h = elim (Bool-cases (p x)) [
  | inl holds ↦ absurd (ground (arith, h, holds))
  | inr fails ↦ rw fails (ap (λ l. x ∷ l) (filter_away p xs (ground (arith, h, fails))))
]

filter-snoc_away :
    {A : Type 0} (p : A → Bool) (xs : List A) (x : A)
    → any p xs ≡ false
    → p x ≡ true
    → filter (λ y. not (p y)) (xs ++ x ∷ []) ≡ xs
filter-snoc_away p [] x h k = rw k refl
filter-snoc_away p (y ∷ xs) x h k = elim (Bool-cases (p y)) [
  | inl holds ↦ absurd (ground (arith, h, holds))
  | inr fails ↦ rw fails (ap (λ l. y ∷ l) (filter-snoc_away p xs x (ground (arith, h, fails)) k))
]

-- Rolling a stage back right after staging restores the bubbles that were there, whether or not
-- the question had attachments, when no bubble had the name of the stage.
pub rollback_webui-stage_webui :
    (sequence : ℕ) (text : String) (atts : List Attachment) (now : ℕ) (st : ChatState)
    → any (is_staged (stage_name sequence)) st.msgs ≡ false
    → (rollback_webui (stage_name sequence) (stage_webui sequence text atts now st).0).msgs
      ≡ st.msgs
unfolding rollback_webui stage_webui staged_bubble
rollback_webui-stage_webui sequence text atts now st h =
    simp (rollback_webui, taken_away) (simp grew refl)
  where
    bubble : ChatMsg
    bubble = staged_bubble (stage_name sequence) text atts now

    is_own : is_staged (stage_name sequence) bubble ≡ true
    is_own = ground (arith, eq_refl (stage_name sequence))

    taken_away : remove_pending (stage_name sequence) (st.msgs ++ bubble ∷ []) ≡ st.msgs
    taken_away = filter-snoc_away (is_staged (stage_name sequence)) st.msgs bubble h is_own

    grew : shorter st.msgs (st.msgs ++ bubble ∷ []) ≡ true
    grew = ground (arith, length-append st.msgs (bubble ∷ []))

-- Rolling back a stage of which no pending bubble is left, here or in a cached view, changes
-- nothing: a bubble that the server has adopted stays.
rollback_webui_of_none :
    (stage : String) (st : ChatState)
    → any (is_staged stage) st.msgs ≡ false
    → any (has_staged stage) st.session_views ≡ false
    → rollback_webui stage st ≡ st
unfolding rollback_webui
rollback_webui_of_none stage st h v =
    simp (filter_away (is_staged stage) st.msgs h, v) (simp same refl)
  where
    same : shorter st.msgs st.msgs ≡ false
    same = ground arith
