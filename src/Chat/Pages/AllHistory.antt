-- ===== src/Chat/Pages/AllHistory.antt =====
-- The loop of `loadAllHistory` of webui/src/stores/chatStore.ts. What everything else does to the store
-- while the loop waits is an argument: during a delay, and from the call of `loadOlderHistory` until it
-- settles, its answer included.
use ga_hub.Prelude.{
  ℕ, zero, suc, ◌+◌, ◌<◌, ◌≡◌, refl, ap, ◌∙◌, String, Bool, true, false, not, ◌&&◌, ◌||◌, none,
  some, if◌then◌else◌, opt_eq, is_some, or_default, is_set, Bool-cases, inl, inr, arith,
}
use ga_hub.Chat.State.{ChatState}
use ga_hub.Chat.Live.{World}
use ga_hub.Chat.Session.{is_ready}
use ga_hub.Chat.Pages.{
  is_older_loading, request_older, Sweep, stop, wait, page, advance, sweep_before, sweep_after,
}

-- What happens in the round of a number; `expired` tells whether the deadline has passed at its start.
pub record Meanwhile : Type 0 where
  pub delayed : ℕ → World → World
  pub paged : ℕ → World → World
  pub expired : ℕ → Bool

-- `finally`.
abbrev pub finish : String → World → World
finish session w =
    let st = record w.state { loading_all_history = false } in
    if opt_eq w.state.session_id (some session) then record w { state = st } else w

abbrev pub counted : ℕ → World → World
counted added w =
    let st = w.state in
    record w {
      state = record st { all_history_loaded_items = st.all_history_loaded_items + added };
    }

module _ (env : Meanwhile) (session : String) where
  -- The rest of a round, by the decision after a page and by the one before it; `next` is the next
  -- round, by its `stalled`.
  abbrev pub after_page : ℕ → (ℕ → World → World) → World → Sweep → World
  after_page step next settled (wait delay stalled) = next stalled (env.delayed step settled)
  after_page step next settled (advance added) = next 0 (counted added settled)
  after_page step next settled stop = finish session settled
  after_page step next settled page = finish session settled

  abbrev pub before_page : ℕ → (ℕ → World → World) → ℕ → World → Sweep → World
  before_page step next stalled w (wait delay stalled') = next stalled' (env.delayed step w)
  before_page step next stalled w page =
      let settled = env.paged step (request_older w).0 in
      after_page step next settled (sweep_after session stalled w.state settled.state)
  before_page step next stalled w stop = finish session w
  before_page step next stalled w (advance added) = finish session w

  -- The rounds that are left, the number of this one, and `stalled`.
  unfoldable pub sweep : (left step stalled : ℕ) → World → World
  sweep zero step stalled w = finish session w
  sweep (suc left) step stalled w =
      before_page step (sweep left (suc step)) stalled w
        (sweep_before session (env.expired step) stalled w.state)

abbrev pub can_sweep : ChatState → Bool
can_sweep st =
    is_set st.session_id
    && is_ready st.history_status
    && st.history_has_more
    && is_some st.history_before
    && not (is_older_loading st.older_history_status)
    && not st.loading_all_history

unfoldable pub load_all_history : Meanwhile → World → World
load_all_history env w =
    let st = w.state in
    let begun = record st {
      loading_all_history = true;
      all_history_loaded_items = 0;
      older_history_error = none;
    } in
    let swept = sweep env (or_default st.session_id "") 600 0 0 (record w { state = begun }) in
    if can_sweep st then swept else w

-- The session is not shown, or is not marked as loading.
abbrev pub is_released : String → World → Bool
is_released session w =
    not (opt_eq w.state.session_id (some session)) || not w.state.loading_all_history

finish-is_released : (session : String) (w : World) → is_released session (finish session w) ≡ true
finish-is_released session w = elim (Bool-cases (opt_eq w.state.session_id (some session))) [
  | inl e ↦ rw e (ground (arith, e))
  | inr e ↦ rw e (ground (arith, e))
]

module _ (env : Meanwhile) (session : String) (next : ℕ → World → World)
    (released : (stalled : ℕ) (w : World) → is_released session (next stalled w) ≡ true) where
  after_page-is_released :
      (step : ℕ) (settled : World) (o : Sweep)
      → is_released session (after_page env session step next settled o) ≡ true
  after_page-is_released step settled (wait delay stalled) =
      released stalled (env.delayed step settled)
  after_page-is_released step settled (advance added) = released 0 (counted added settled)
  after_page-is_released step settled stop = finish-is_released session settled
  after_page-is_released step settled page = finish-is_released session settled

  before_page-is_released :
      (step stalled : ℕ) (w : World) (o : Sweep)
      → is_released session (before_page env session step next stalled w o) ≡ true
  before_page-is_released step stalled w (wait delay stalled') =
      released stalled' (env.delayed step w)
  before_page-is_released step stalled w page =
      let settled = env.paged step (request_older w).0 in
      after_page-is_released step settled (sweep_after session stalled w.state settled.state)
  before_page-is_released step stalled w stop = finish-is_released session w
  before_page-is_released step stalled w (advance added) = finish-is_released session w

sweep-is_released :
    (env : Meanwhile) (session : String) (left step stalled : ℕ) (w : World)
    → is_released session (sweep env session left step stalled w) ≡ true
unfolding sweep
sweep-is_released env session zero step stalled w = finish-is_released session w
sweep-is_released env session (suc left) step stalled w =
    before_page-is_released env session (sweep env session left (suc step))
      (sweep-is_released env session left (suc step)) step stalled w
      (sweep_before session (env.expired step) stalled w.state)

-- Two courses of what happens elsewhere are the same in the round of a number.
abbrev pub SameRound : Meanwhile → Meanwhile → ℕ → Type 0
SameRound env other step =
    (env.delayed step ≡ other.delayed step)
    × (env.paged step ≡ other.paged step)
    × (env.expired step ≡ other.expired step)

module _ (env other : Meanwhile) (session : String) (step : ℕ) (same : SameRound env other step)
    (next next' : ℕ → World → World)
    (agrees : (stalled : ℕ) (w : World) → next stalled w ≡ next' stalled w) where
  after_page-same :
      (settled : World) (o : Sweep)
      → after_page env session step next settled o ≡ after_page other session step next' settled o
  after_page-same settled (wait delay stalled) =
      agrees stalled (env.delayed step settled) ∙ ap (λ f. next' stalled (f settled)) same.0
  after_page-same settled (advance added) = agrees 0 (counted added settled)
  after_page-same settled stop = refl
  after_page-same settled page = refl

  before_page-same :
      (stalled : ℕ) (w : World) (o : Sweep)
      → before_page env session step next stalled w o
        ≡ before_page other session step next' stalled w o
  before_page-same stalled w (wait delay stalled') =
      agrees stalled' (env.delayed step w) ∙ ap (λ f. next' stalled' (f w)) same.0
  before_page-same stalled w page =
      let settled = env.paged step (request_older w).0 in
      after_page-same settled (sweep_after session stalled w.state settled.state)
      ∙ ap
          (λ f.
            let came = f (request_older w).0 in
            after_page other session step next' came
              (sweep_after session stalled w.state came.state))
          same.1
  before_page-same stalled w stop = refl
  before_page-same stalled w (advance added) = refl

sweep-same :
    (env other : Meanwhile) (session : String) (left step stalled : ℕ) (w : World)
    → ((i : ℕ) → i < step + left → SameRound env other i)
    → sweep env session left step stalled w ≡ sweep other session left step stalled w
unfolding sweep
sweep-same env other session zero step stalled w same = refl
sweep-same env other session (suc left) step stalled w same =
    let here : SameRound env other step = same step (omega arith) in
    ap
      (λ b.
        before_page env session step (sweep env session left (suc step)) stalled w
          (sweep_before session b stalled w.state))
      here.2
    ∙ before_page-same env other session step here (sweep env session left (suc step))
        (sweep other session left (suc step))
        (λ stalled' w'.
          sweep-same env other session left (suc step) stalled' w'
            (λ i h. same i (omega (arith, h))))
        stalled w (sweep_before session (other.expired step) stalled w.state)

-- The walk to the start of the archive, if it may begin, has at most 600 rounds: what would happen in
-- any later round does not change the store that it ends in. When each of its waits and page requests
-- settles, its session, if it is shown at the end, is not left marked as loading, whatever else
-- happened to the store in the meantime.
pub load_all_history-is_released :
    (env other : Meanwhile) (w : World)
    → can_sweep w.state ≡ true
    → ((i : ℕ) → i < 600 → SameRound env other i)
    → (is_released (or_default w.state.session_id "") (load_all_history env w) ≡ true)
      × (load_all_history env w ≡ load_all_history other w)
unfolding load_all_history
load_all_history-is_released env other w can same =
    let session = or_default w.state.session_id "" in
    let st = w.state in
    let begun = record st {
      loading_all_history = true;
      all_history_loaded_items = 0;
      older_history_error = none;
    } in
    rw can (
      sweep-is_released env session 600 0 0 (record w { state = begun }),
      sweep-same env other session 600 0 0 (record w { state = begun }) same,
    )
