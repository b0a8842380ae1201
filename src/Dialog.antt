-- ===== src/Dialog.antt =====
-- webui/src/stores/dialogStore.ts: the dialog that is shown and those that wait. A promise is the
-- number of its `show` call, and the answers that were given stand in `answered`. The desktop's own
-- windows are outside.
pub mod Laws
use ga_hub.Prelude.{
  ℕ, suc, String, Bool, true, false, Option, none, some, List, [], ◌∷◌, ◌++◌, if◌then◌else◌,
}

pub data DialogKind : Type 0 where
  alert confirm prompt notification : DialogKind

pub data DialogTone : Type 0 where
  default_tone danger : DialogTone

pub record DialogConfig : Type 0 where
  pub kind : DialogKind
  pub title : String
  pub message : Option String
  pub default_value : Option String
  pub placeholder : Option String
  pub confirm_text : Option String
  pub cancel_text : Option String
  pub tone : Option DialogTone
  pub multiline : Bool
  pub detail : Option String

pub data DialogResult : Type 0 where
  flag : Bool → DialogResult
  text_value : String → DialogResult
  null_value no_value : DialogResult

-- `cancelResult`.
unfoldable pub cancel_result : DialogConfig → DialogResult
cancel_result cfg = elim cfg.kind [ confirm ↦ flag false | _ ↦ null_value ]

pub record PendingDialog : Type 0 where
  pub config : DialogConfig
  pub promise : ℕ

-- `open`, `config` and `resolve` are set and unset together.
pub record DialogState : Type 0 where
  pub current : Option PendingDialog
  pub queue : List PendingDialog
  pub asked : ℕ
  pub answered : List (ℕ × DialogResult)

unfoldable pub show : DialogConfig → DialogState → DialogState
show cfg st =
    let entry : PendingDialog = record { config = cfg; promise = st.asked } in
    let counted = record st { asked = suc st.asked } in
    elim st.current [
      | none ↦ record counted { current = some entry }
      | some shown ↦ record counted { queue = st.queue ++ entry ∷ [] }
    ]

abbrev answer_of : Option PendingDialog → DialogResult → List (ℕ × DialogResult)
answer_of none v = []
answer_of (some d) v = (d.promise, v) ∷ []

abbrev first_waiting : List PendingDialog → Option PendingDialog
first_waiting [] = none
first_waiting (d ∷ queue) = some d

abbrev still_waiting : List PendingDialog → List PendingDialog
still_waiting [] = []
still_waiting (d ∷ queue) = queue

unfoldable pub resolve_current : DialogResult → DialogState → DialogState
resolve_current v st = record st {
  current = first_waiting st.queue;
  queue = still_waiting st.queue;
  answered = st.answered ++ answer_of st.current v;
}

pub data DialogStep : Type 0 where
  shows : DialogConfig → DialogStep
  resolves : DialogResult → DialogStep

unfoldable pub dialog_step : DialogStep → DialogState → DialogState
unfolding show resolve_current
dialog_step (shows cfg) st = show cfg st
dialog_step (resolves v) st = resolve_current v st

unfoldable pub dialog_run : List DialogStep → DialogState → DialogState
unfolding dialog_step
dialog_run [] st = st
dialog_run (s ∷ steps) st = dialog_run steps (dialog_step s st)
