-- ===== src/Dialog/Laws.antt =====
-- About the order of the dialogs of webui/src/stores/dialogStore.ts.
use ga_hub.Prelude.{
  ℕ, zero, suc, ◌≡◌, refl, sym, ap, ◌∙◌, false, Option, none, some, List, [], ◌∷◌, ◌++◌, arith,
  length, is_some,
}
use mathlib.Core.List.{append-nil, append_assoc}
use ga_hub.Dialog.{
  DialogConfig, DialogResult, PendingDialog, DialogState, show, resolve_current, DialogStep, shows,
  resolves, dialog_step, dialog_run,
}

abbrev shown_promise : Option PendingDialog → List ℕ
shown_promise none = []
shown_promise (some d) = d.promise ∷ []

abbrev promises : List PendingDialog → List ℕ
promises [] = []
promises (d ∷ queue) = d.promise ∷ promises queue

abbrev replies : List (ℕ × DialogResult) → List ℕ
replies [] = []
replies ((n, v) ∷ answered) = n ∷ replies answered

-- The numbers below a number, in order.
abbrev below : ℕ → List ℕ
below zero = []
below (suc n) = below n ++ n ∷ []

-- The promises that were answered, then the one that is shown, then those that wait are all that were
-- made, in the order in which they were made; nothing waits while nothing is shown.
pub record InOrder (st : DialogState) : Type 0 where
  pub all_there :
      replies st.answered ++ (shown_promise st.current ++ promises st.queue) ≡ below st.asked
  pub no_wait : is_some st.current ≡ false → st.queue ≡ []

abbrev state_of :
    Option PendingDialog → List PendingDialog → ℕ → List (ℕ × DialogResult) → DialogState
state_of current queue asked answered = record {
  current = current;
  queue = queue;
  asked = asked;
  answered = answered;
}

promises-snoc :
    (queue : List PendingDialog) (d : PendingDialog)
    → promises (queue ++ d ∷ []) ≡ promises queue ++ d.promise ∷ []
promises-snoc [] d = refl
promises-snoc (e ∷ queue) d = ap (λ l. e.promise ∷ l) (promises-snoc queue d)

replies-append : (a b : List (ℕ × DialogResult)) → replies (a ++ b) ≡ replies a ++ replies b
replies-append [] b = refl
replies-append ((n, v) ∷ a) b = ap (λ l. n ∷ l) (replies-append a b)

show_ordered :
    (cfg : DialogConfig) (current : Option PendingDialog) (queue : List PendingDialog) (asked : ℕ)
    (answered : List (ℕ × DialogResult))
    → InOrder (state_of current queue asked answered)
    → InOrder (show cfg (state_of current queue asked answered))
unfolding show
show_ordered cfg none queue asked answered o = record {
  all_there =
      ap (λ q. replies answered ++ asked ∷ promises q) (o.no_wait refl)
      ∙ ap (λ l. l ++ asked ∷ [])
          (sym (append-nil (replies answered))
            ∙ ap (λ q. replies answered ++ promises q) (sym (o.no_wait refl))
            ∙ o.all_there);
  no_wait = λ e. absurd (ground (arith, e));
}
show_ordered cfg (some d) queue asked answered o = record {
  all_there =
      ap (λ l. replies answered ++ d.promise ∷ l)
        (promises-snoc queue (record { config = cfg; promise = asked }))
      ∙ sym (append_assoc (replies answered) (d.promise ∷ promises queue) (asked ∷ []))
      ∙ ap (λ l. l ++ asked ∷ []) o.all_there;
  no_wait = λ e. absurd (ground (arith, e));
}

resolve_ordered :
    (v : DialogResult) (current : Option PendingDialog) (queue : List PendingDialog) (asked : ℕ)
    (answered : List (ℕ × DialogResult))
    → InOrder (state_of current queue asked answered)
    → InOrder (resolve_current v (state_of current queue asked answered))
unfolding resolve_current
resolve_ordered v none [] asked answered o = record {
  all_there =
      ap (λ l. l ++ []) (replies-append answered [] ∙ append-nil (replies answered)) ∙ o.all_there;
  no_wait = λ e. refl;
}
resolve_ordered v none (next ∷ queue) asked answered o =
    absurd (ground (arith, ap length (o.no_wait refl)))
resolve_ordered v (some d) [] asked answered o = record {
  all_there =
      ap (λ l. l ++ []) (replies-append answered ((d.promise, v) ∷ []))
      ∙ append-nil (replies answered ++ d.promise ∷ [])
      ∙ o.all_there;
  no_wait = λ e. refl;
}
resolve_ordered v (some d) (next ∷ queue) asked answered o = record {
  all_there =
      ap (λ l. l ++ next.promise ∷ promises queue) (replies-append answered ((d.promise, v) ∷ []))
      ∙ append_assoc (replies answered) (d.promise ∷ []) (next.promise ∷ promises queue)
      ∙ o.all_there;
  no_wait = λ e. absurd (ground (arith, e));
}

-- However dialogs are shown and resolved, in whatever order: they are shown and answered in the
-- order in which they were asked for, none is lost or answered twice, and none waits while none is
-- shown.
pub dialog_run-InOrder :
    (steps : List DialogStep) (st : DialogState) → InOrder st → InOrder (dialog_run steps st)
unfolding dialog_run dialog_step
dialog_run-InOrder [] st o = o
dialog_run-InOrder (shows cfg ∷ steps) st o =
    dialog_run-InOrder steps (show cfg st)
      (show_ordered cfg st.current st.queue st.asked st.answered o)
dialog_run-InOrder (resolves v ∷ steps) st o =
    dialog_run-InOrder steps (resolve_current v st)
      (resolve_ordered v st.current st.queue st.asked st.answered o)
