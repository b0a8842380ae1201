-- ===== src/Draft.antt =====
-- webui/src/stores/draftStore.ts: the unsent text and attachments of each session, and the submissions
-- that are on their way, in the order of their ids. A Record is an association list with a key at
-- most once.
pub mod Laws
use ga_hub.Prelude.{
  ℕ, suc, ◌+◌, String, Bool, true, false, not, ◌&&◌, ◌||◌, Option, none, some, List, [], ◌∷◌, ◌++◌,
  any, find?, length, if◌then◌else◌, eqb, or_default, is_some, opt_eq, ◌==◌,
}
use ga_hub.Chat.Message.{Attachment}

pub data SubmissionStatus : Type 0 where
  sending failed uncertain : SubmissionStatus

abbrev pub is_failed : SubmissionStatus → Bool
is_failed failed = true
is_failed _ = false

abbrev pub is_sending : SubmissionStatus → Bool
is_sending sending = true
is_sending _ = false

pub record DraftSubmission : Type 0 where
  pub id : ℕ
  pub key : String
  pub text : String
  pub attachments : List Attachment
  pub cleared_revision : ℕ
  pub stage_id : Option String
  pub status : SubmissionStatus

-- A record's field for a key.
unfoldable pub field {ℓ} : {A : Type ℓ} → String → List (String × A) → Option A
field key [] = none
field key ((k, a) ∷ fields) = if k == key then some a else field key fields

unfoldable pub put_field {ℓ} : {A : Type ℓ} → String → A → List (String × A) → List (String × A)
put_field key a [] = (key, a) ∷ []
put_field key a ((k, b) ∷ fields) =
    let rest = put_field key a fields in if k == key then (k, a) ∷ fields else (k, b) ∷ rest

unfoldable pub drop_field {ℓ} : {A : Type ℓ} → String → List (String × A) → List (String × A)
drop_field key [] = []
drop_field key ((k, b) ∷ fields) =
    let rest = drop_field key fields in if k == key then rest else (k, b) ∷ rest

-- The state with `submissionSequence`; the submissions stand under their ids.
pub record DraftState : Type 0 where
  pub texts : List (String × String)
  pub attachments : List (String × List Attachment)
  pub revisions : List (String × ℕ)
  pub submissions : List DraftSubmission
  pub sequence : ℕ

unfoldable pub text_of : DraftState → String → String
unfolding field
text_of st key = or_default (field key st.texts) ""

unfoldable pub attachments_of : DraftState → String → List Attachment
unfolding field
attachments_of st key = or_default (field key st.attachments) []

unfoldable pub revision_of : DraftState → String → ℕ
unfolding field
revision_of st key = or_default (field key st.revisions) 0

abbrev same_paths : List Attachment → List Attachment → Bool
same_paths [] [] = true
same_paths [] (q ∷ qs) = false
same_paths (p ∷ ps) [] = false
same_paths (p ∷ ps) (q ∷ qs) = p.path == q.path && same_paths ps qs

unfoldable pub matches : DraftState → String → String → List Attachment → Bool
unfolding text_of attachments_of
matches st key text atts = text_of st key == text && same_paths (attachments_of st key) atts

unfoldable pub revise : String → DraftState → DraftState
unfolding put_field revision_of
revise key st = record st { revisions = put_field key (suc (revision_of st key)) st.revisions }

unfoldable pub set_text : String → String → DraftState → DraftState
unfolding put_field revise
set_text key text st = let y = revise key st in record y { texts = put_field key text st.texts }

unfoldable pub set_attachments : String → List Attachment → DraftState → DraftState
unfolding put_field revise
set_attachments key atts st =
    let y = revise key st in record y { attachments = put_field key atts st.attachments }

unfoldable pub clear_draft : String → DraftState → DraftState
unfolding drop_field revise
clear_draft key st =
    let y = revise key st in
    record y { texts = drop_field key st.texts; attachments = drop_field key st.attachments }

unfoldable pub clear_draft_if_match :
    String → String → List Attachment → DraftState → DraftState × Bool
unfolding matches clear_draft
clear_draft_if_match key text atts st =
    if matches st key text atts then (clear_draft key st, true) else (st, false)

-- An entry that is neither finished nor failed.
abbrev pub is_unfinished : String → DraftSubmission → Bool
is_unfinished key item = item.key == key && not (is_failed item.status)

unfoldable pub begin_submission :
    String → String → List Attachment → DraftState → DraftState × Option DraftSubmission
unfolding matches clear_draft revision_of
begin_submission key text atts st =
    let transaction : DraftSubmission = record {
      id = suc st.sequence;
      key = key;
      text = text;
      attachments = atts;
      cleared_revision = suc (revision_of st key);
      stage_id = none;
      status = sending;
    } in
    let cleared = clear_draft key st in
    if not (matches st key text atts)
    then (st, none)
    else if any (is_unfinished key) st.submissions
    then (st, none)
    else (
      record cleared {
        submissions = st.submissions ++ transaction ∷ [];
        sequence = suc st.sequence;
      },
      some transaction,
    )

abbrev pub has_id : ℕ → DraftSubmission → Bool
has_id id item = eqb item.id id

unfoldable pub submission : ℕ → DraftState → Option DraftSubmission
submission id st = find? (has_id id) st.submissions

-- `{ ...submissions, [id]: item }` for an id that is there.
unfoldable pub update_submission :
    ℕ → (DraftSubmission → DraftSubmission) → List DraftSubmission → List DraftSubmission
update_submission id f [] = []
update_submission id f (item ∷ items) =
    let rest = update_submission id f items in if has_id id item then f item ∷ rest else item ∷ rest

unfoldable pub remove_submission : ℕ → List DraftSubmission → List DraftSubmission
remove_submission id [] = []
remove_submission id (item ∷ items) =
    let rest = remove_submission id items in if has_id id item then rest else item ∷ rest

unfoldable pub move_submission : ℕ → String → DraftState → DraftState
unfolding update_submission revision_of
move_submission id key st = record st {
  submissions =
      update_submission id
        (λ item. record item { key = key; cleared_revision = revision_of st key }) st.submissions;
}

unfoldable pub bind_submission_stage : ℕ → String → DraftState → DraftState
unfolding update_submission
bind_submission_stage id stage st = record st {
  submissions = update_submission id (λ item. record item { stage_id = some stage }) st.submissions;
}

unfoldable pub finish_submission : ℕ → DraftState → DraftState
unfolding remove_submission
finish_submission id st = record st { submissions = remove_submission id st.submissions }

unfoldable pub accept_submission_stage : String → DraftState → DraftState
unfolding finish_submission
accept_submission_stage stage st =
    elim (find? (λ item. opt_eq item.stage_id (some stage)) st.submissions) [
      | none ↦ st
      | some item ↦ finish_submission item.id st
    ]

abbrev is_empty : List Attachment → Bool
is_empty [] = true
is_empty (p ∷ ps) = false

-- The draft of the submission's key is empty, and the submission is no longer being sent.
abbrev pub can_restore : DraftSubmission → DraftState → Bool
can_restore item st =
    not (is_sending item.status)
    && text_of st item.key == ""
    && is_empty (attachments_of st item.key)

unfoldable pub restore_submission : ℕ → DraftState → DraftState × Bool
unfolding submission text_of attachments_of revise put_field remove_submission
restore_submission id st = elim (submission id st) [
  | none ↦ (st, false)
  | some item ↦
      let y = revise item.key st in
      if can_restore item st
      then (
        record y {
          texts = put_field item.key item.text st.texts;
          attachments = put_field item.key item.attachments st.attachments;
          submissions = remove_submission id st.submissions;
        },
        true,
      )
      else (st, false)
]

unfoldable pub fail_submission : ℕ → Bool → DraftState → DraftState × Bool
unfolding submission update_submission revision_of restore_submission
fail_submission id is_unsure st = elim (submission id st) [
  | none ↦ (st, false)
  | some item ↦
      let marked = record st {
        submissions =
            update_submission id
              (λ old. record old { status = if is_unsure then uncertain else failed })
              st.submissions;
      } in
      if is_unsure || not (eqb (revision_of st item.key) item.cleared_revision)
      then (marked, false)
      else restore_submission id marked
]
