-- ===== src/Tests/DialogRuns.antt =====
-- A run of webui/src/stores/dialogStore.ts: two dialogs, the second of which waits.
use ga_hub.Prelude.{refl, true, false, none, [], ◌∷◌}
use ga_hub.Dialog.{DialogConfig, DialogState, alert, flag, shows, resolves, dialog_run}
use ga_hub.Dialog.Laws.{InOrder, dialog_run-InOrder}

abbrev notice : DialogConfig
notice = record {
  kind = alert;
  title = "Saved";
  message = none;
  default_value = none;
  placeholder = none;
  confirm_text = none;
  cancel_text = none;
  tone = none;
  multiline = false;
  detail = none;
}

abbrev quiet : DialogState
quiet = record { current = none; queue = []; asked = 0; answered = [] }

dialog_run-InOrder_example :
    InOrder (dialog_run (shows notice ∷ shows notice ∷ resolves (flag true) ∷ []) quiet)
dialog_run-InOrder_example =
    dialog_run-InOrder (shows notice ∷ shows notice ∷ resolves (flag true) ∷ []) quiet
      (record { all_there = refl; no_wait = λ e. refl })
