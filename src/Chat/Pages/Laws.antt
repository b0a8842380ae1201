-- ===== src/Chat/Pages/Laws.antt =====
-- About loadOlderHistory of webui/src/stores/chatStore.ts.
use ga_hub.Prelude.{ℕ, suc, ◌≡◌, String, Bool, false, none, some, arith, Bool-cases, inl, inr}
use ga_hub.Reply.{TurnScanner}
use ga_hub.Chat.History.{DateParser}
use ga_hub.Chat.State.{older_loading}
use ga_hub.Chat.Live.{World}
use ga_hub.Chat.Session.{HistoryPage, start, already_shown}
use ga_hub.Chat.Pages.{can_page, OlderRequest, request_older, older_loaded, older_failed}

request_older_of_blocked : (w : World) → can_page w.state ≡ false → request_older w ≡ (w, none)
unfolding request_older
request_older_of_blocked w h = simp h

-- While a request for an older page is out, no second one is sent and nothing changes.
request_older_twice :
    (w : World) (r : OlderRequest)
    → (request_older w).1 ≡ some r
    → request_older (request_older w).0 ≡ ((request_older w).0, none)
unfolding request_older
request_older_twice w r h = elim (Bool-cases (can_page w.state)) [
  | inl can ↦ simp can (
      request_older_of_blocked
        (let st = w.state in
          record w {
            state = record st { older_history_status = older_loading; older_history_error = none };
            older_count = suc w.older_count;
            older_request = some (suc w.older_count);
          })
        (ground arith))
  | inr cannot ↦ absurd (ground (arith, h, cannot))
]

module _ ⦃scanner : TurnScanner⦄ ⦃dates : DateParser⦄ where
  -- After a session is started, a page that was asked for before it changes nothing, its failure
  -- included, unless `start` returns at once because the session is already shown.
  pub start-older :
      (force : Bool) (session : String) (now : ℕ) (w : World) (r : OlderRequest)
      (page : HistoryPage) (message : String)
      → already_shown force session w.state ≡ false
      → (older_loaded r page (start force session now w) ≡ start force session now w)
        × (older_failed r message (start force session now w) ≡ start force session now w)
  unfolding older_loaded older_failed start
  start-older force session now w r page message h = (simp h, simp h)
