-- ===== src/Draft/Laws.antt =====
-- About submissions of webui/src/stores/draftStore.ts that fail.
use ga_hub.Prelude.{
  ℕ, suc, ◌≡◌, refl, ap, String, true, false, none, some, List, [], ◌∷◌, ◌++◌, any, find?, arith,
  Bool-cases, inl, inr, eqb, ◌==◌, eq_refl, or_default,
}
use ga_hub.Chat.Message.{Attachment}
use ga_hub.Draft.{
  DraftSubmission, DraftState, sending, failed, field, put_field, drop_field, text_of,
  attachments_of, revision_of, revise, set_text, matches, clear_draft, begin_submission,
  is_unfinished, has_id, submission, update_submission, remove_submission, fail_submission,
  restore_submission,
}

field-put_field {ℓ} :
    {A : Type ℓ} (key : String) (a : A) (fields : List (String × A))
    → field key (put_field key a fields) ≡ some a
unfolding field put_field
field-put_field key a [] = rw (eq_refl key) refl
field-put_field key a ((k, b) ∷ fields) = elim (Bool-cases (k == key)) [
  | inl found ↦ rw found (rw found refl)
  | inr missed ↦ rw missed (rw missed (field-put_field key a fields))
]

field-drop_field {ℓ} :
    {A : Type ℓ} (key : String) (fields : List (String × A))
    → field key (drop_field key fields) ≡ none
unfolding field drop_field
field-drop_field key [] = refl
field-drop_field key ((k, b) ∷ fields) = elim (Bool-cases (k == key)) [
  | inl found ↦ rw found (field-drop_field key fields)
  | inr missed ↦ rw (missed, missed) (field-drop_field key fields)
]

module _ (id : ℕ) (t : DraftSubmission) where
  find?-snoc_id :
      (items : List DraftSubmission)
      → any (has_id id) items ≡ false
      → has_id id t ≡ true
      → find? (has_id id) (items ++ t ∷ []) ≡ some t
  find?-snoc_id [] h e = rw e refl
  find?-snoc_id (item ∷ items) h e = elim (Bool-cases (has_id id item)) [
    | inl same ↦ absurd (ground (arith, h, same))
    | inr other ↦ rw other (find?-snoc_id items (ground (arith, h)) e)
  ]

  update_submission-snoc :
      (f : DraftSubmission → DraftSubmission) (items : List DraftSubmission)
      → any (has_id id) items ≡ false
      → has_id id t ≡ true
      → update_submission id f (items ++ t ∷ []) ≡ items ++ f t ∷ []
  unfolding update_submission
  update_submission-snoc f [] h e = rw e refl
  update_submission-snoc f (item ∷ items) h e = elim (Bool-cases (has_id id item)) [
    | inl same ↦ absurd (ground (arith, h, same))
    | inr other ↦
        rw other (ap (λ l. item ∷ l) (update_submission-snoc f items (ground (arith, h)) e))
  ]

  remove_submission-snoc :
      (items : List DraftSubmission)
      → any (has_id id) items ≡ false
      → has_id id t ≡ true
      → remove_submission id (items ++ t ∷ []) ≡ items
  unfolding remove_submission
  remove_submission-snoc [] h e = rw e refl
  remove_submission-snoc (item ∷ items) h e = elim (Bool-cases (has_id id item)) [
    | inl same ↦ absurd (ground (arith, h, same))
    | inr other ↦ rw other (ap (λ l. item ∷ l) (remove_submission-snoc items (ground (arith, h)) e))
  ]

-- What a submission that begins is.
abbrev pub begun : String → String → List Attachment → DraftState → DraftSubmission
begun key text atts st = record {
  id = suc st.sequence;
  key = key;
  text = text;
  attachments = atts;
  cleared_revision = suc (revision_of st key);
  stage_id = none;
  status = sending;
}

-- The state after it.
abbrev after_begin : String → String → List Attachment → DraftState → DraftState
after_begin key text atts st =
    let cleared = clear_draft key st in
    record cleared {
      submissions = st.submissions ++ begun key text atts st ∷ [];
      sequence = suc st.sequence;
    }

module _ (key text : String) (atts : List Attachment) (st : DraftState)
    (accepted : matches st key text atts ≡ true)
    (alone : any (is_unfinished key) st.submissions ≡ false)
    (fresh : any (has_id (suc st.sequence)) st.submissions ≡ false) where
  begin_submission_lem :
      begin_submission key text atts st
      ≡ (after_begin key text atts st, some (begun key text atts st))
  unfolding begin_submission
  begin_submission_lem = simp (begin_submission, accepted, alone) refl

  own_id : has_id (suc st.sequence) (begun key text atts st) ≡ true
  own_id = ground arith

  -- A draft that is sent and fails at once is as it was: its text and its attachments are restored and
  -- no submission is left over, when it was sent as it stood, no other of its key was unfinished and
  -- its id was new.
  pub begin_submission-fail_submission :
      let st' = (fail_submission (suc st.sequence) false (begin_submission key text atts st).0).0 in
      ((fail_submission (suc st.sequence) false (begin_submission key text atts st).0).1 ≡ true)
      × (text_of st' key ≡ text)
      × (attachments_of st' key ≡ atts)
      × (st'.submissions ≡ st.submissions)
  unfolding fail_submission restore_submission submission text_of attachments_of revision_of
      clear_draft revise
  begin_submission-fail_submission = rw begin_submission_lem (
      simp
        (
          fail_submission,
          restore_submission,
          find?-snoc_id (suc st.sequence) (begun key text atts st) st.submissions fresh own_id,
          field-put_field key (suc (revision_of st key)) st.revisions,
          update_submission-snoc (suc st.sequence) (begun key text atts st)
              (λ old. record old { status = failed }) st.submissions fresh own_id,
          find?-snoc_id (suc st.sequence) (record (begun key text atts st) { status = failed })
              st.submissions fresh own_id,
          remove_submission-snoc (suc st.sequence)
              (record (begun key text atts st) { status = failed }) st.submissions fresh own_id,
          field-drop_field key st.texts,
          field-drop_field key st.attachments,
        )
        (simp same (
          simp
            (
              field-put_field key text (drop_field key st.texts),
              field-put_field key atts (drop_field key st.attachments),
            )
            (refl, refl, refl, refl))))
    where
      same : eqb (suc (revision_of st key)) (suc (revision_of st key)) ≡ true
      same = ground arith

  -- A draft that is typed while an older one is on its way is not overwritten when that fails.
  pub set_text-fail_submission :
      (newer : String)
      → let r =
          fail_submission
            (suc st.sequence)
            false
            (set_text key newer (begin_submission key text atts st).0) in
        (r.1 ≡ false) × (text_of r.0 key ≡ newer)
  unfolding fail_submission submission text_of revision_of clear_draft revise set_text
  set_text-fail_submission newer = rw begin_submission_lem (
      simp
        (
          fail_submission,
          find?-snoc_id (suc st.sequence) (begun key text atts st) st.submissions fresh own_id,
          field-put_field key (suc (revision_of st key)) st.revisions,
          field-put_field key (suc (suc (revision_of st key)))
              (put_field key (suc (revision_of st key)) st.revisions),
        )
        (simp later
          (refl, ap (λ o. or_default o "") (field-put_field key newer (drop_field key st.texts)))))
    where
      later : eqb (suc (suc (revision_of st key))) (suc (revision_of st key)) ≡ false
      later = ground arith
