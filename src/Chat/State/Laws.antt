-- ===== src/Chat/State/Laws.antt =====
-- About pruneSessionViews and commitCursor of webui/src/stores/chatStore.ts.
use ga_hub.Prelude.{
  ℕ, ◌+◌, ◌≤◌, ◌≡◌, refl, sym, ap, ◌∙◌, String, true, false, not, Option, none, some, [], ◌∷◌, ◌++◌,
  max, filter, length, arith, Bool-cases, inl, inr, All, All-filter_rest, filter-filter,
  filter-snoc_not, length-append, leb, ltb, ◌==◌, eq_iff, eq_refl, truthy, ◌&&◌,
}
use ga_hub.Chat.Event.{Frame}
use ga_hub.Chat.State.{
  SessionView, Views, max_cached_views, max_cached_chars, session_view_chars, insert_recent,
  sort_recent, views_chars, keep_recent, too_large, is_protected, prune_session_views, Cursor,
  Cursors, lookup_cursor, put_cursor, moves, commit_at, commit_cursor,
}

abbrev Ordinary : String × SessionView → Type 0
Ordinary e = is_protected e ≡ false

insert_recent-All :
    (P : String × SessionView → Type 0) (e : String × SessionView) (views : Views)
    → P e
    → All P views
    → All P (insert_recent e views)
unfolding insert_recent
insert_recent-All P e [] h a = (h, tt)
insert_recent-All P e (f ∷ views) h (k, a) =
    elim (Bool-cases (leb f.1.last_accessed_at e.1.last_accessed_at)) [
      | inl newer ↦ rw newer (h, (k, a))
      | inr older ↦ rw older (k, insert_recent-All P e views h a)
    ]

sort_recent-All :
    (P : String × SessionView → Type 0) (views : Views) → All P views → All P (sort_recent views)
unfolding sort_recent
sort_recent-All P [] a = tt
sort_recent-All P (e ∷ views) (h, a) =
    insert_recent-All P e (sort_recent views) h (sort_recent-All P views a)

views_chars-append : (a b : Views) → views_chars (a ++ b) ≡ views_chars a + views_chars b
unfolding views_chars
views_chars-append [] b = omega arith
views_chars-append (e ∷ a) b = omega (arith, views_chars-append a b)

-- The loop takes no protected view in and drops none.
keep_recent-protected :
    (kept : Views) (retained : ℕ) (views : Views)
    → All Ordinary views
    → filter is_protected (keep_recent kept retained views) ≡ filter is_protected kept
unfolding keep_recent
keep_recent-protected kept retained [] a = refl
keep_recent-protected kept retained ((k, v) ∷ views) (h, a) =
    elim (Bool-cases (leb max_cached_views (length kept))) [
      | inl full ↦ rw full
      | inr room ↦ elim (Bool-cases (too_large (session_view_chars v) retained)) [
        | inl large ↦ rw (room, large) (keep_recent-protected kept retained views a)
        | inr fits ↦
            rw (room, fits)
              (keep_recent-protected (kept ++ (k, v) ∷ []) _ views a
                ∙ filter-snoc_not is_protected kept (k, v) h)
      ]
    ]

-- It stops at the number of views, and stays within the size unless it began beyond it.
keep_recent_bounds :
    (kept : Views) (retained : ℕ) (views : Views)
    → retained ≡ views_chars kept
    → (length (keep_recent kept retained views) ≤ max max_cached_views (length kept))
      × (views_chars (keep_recent kept retained views) ≤ max max_cached_chars (views_chars kept))
unfolding keep_recent
keep_recent_bounds kept retained [] e = (omega arith, omega arith)
keep_recent_bounds kept retained ((k, v) ∷ views) e =
    elim (Bool-cases (leb max_cached_views (length kept))) [
      | inl full ↦ rw full (omega arith, omega arith)
      | inr room ↦ elim (Bool-cases (too_large (session_view_chars v) retained)) [
        | inl large ↦ rw (room, large) (keep_recent_bounds kept retained views e)
        | inr fits ↦
            rw (room, fits)
              (taken room fits (
                keep_recent_bounds (kept ++ (k, v) ∷ []) (retained + session_view_chars v) views
                  (sym (sum))))
      ]
    ]
  where
    more : ℕ
    more = retained + session_view_chars v

    sum : views_chars (kept ++ (k, v) ∷ []) ≡ more
    sum = views_chars-append kept ((k, v) ∷ []) ∙ (unfold views_chars in omega arith)

    taken :
        {n c : ℕ}
        → leb max_cached_views (length kept) ≡ false
        → too_large (session_view_chars v) retained ≡ false
        → (n ≤ max max_cached_views (length (kept ++ (k, v) ∷ [])))
          × (c ≤ max max_cached_chars (views_chars (kept ++ (k, v) ∷ [])))
        → (n ≤ max max_cached_views (length kept)) × (c ≤ max max_cached_chars (views_chars kept))
    taken room fits (n, c) =
        (ground (arith, n, room, length-append kept ((k, v) ∷ [])), ground (arith, c, fits, sum, e))

-- Pruning keeps every streaming session's view, in order, and drops only views that are idle.
pub prune_session_views-protected :
    (views : Views) → filter is_protected (prune_session_views views) ≡ filter is_protected views
unfolding prune_session_views
prune_session_views-protected views =
    keep_recent-protected (filter is_protected views) (views_chars (filter is_protected views))
      (sort_recent (filter (λ e. not (is_protected e)) views))
      (sort_recent-All Ordinary (filter (λ e. not (is_protected e)) views)
        (All-filter_rest is_protected views))
    ∙ filter-filter is_protected views

-- After pruning there are at most three views, or as many as are streaming when those are more,
-- and their bubbles have at most three million characters, or as many as the streaming views'.
pub prune_session_views_bounds :
    (views : Views)
    → (length (prune_session_views views)
        ≤ max max_cached_views (length (filter is_protected views)))
      × (views_chars (prune_session_views views)
          ≤ max max_cached_chars (views_chars (filter is_protected views)))
unfolding prune_session_views
prune_session_views_bounds views =
    keep_recent_bounds (filter is_protected views) (views_chars (filter is_protected views))
      (sort_recent (filter (λ e. not (is_protected e)) views)) refl

pub lookup_put_same :
    (key : String) (c : Cursor) (cursors : Cursors)
    → lookup_cursor key (put_cursor key c cursors) ≡ some c
unfolding lookup_cursor put_cursor
lookup_put_same key c [] = rw (eq_refl key) refl
lookup_put_same key c ((k, d) ∷ cursors) = elim (Bool-cases (k == key)) [
  | inl found ↦ rw found (rw found refl)
  | inr missed ↦ rw missed (rw missed (lookup_put_same key c cursors))
]

lookup_put_other :
    (key other : String) (c : Cursor) (cursors : Cursors)
    → (key == other) ≡ false
    → lookup_cursor other (put_cursor key c cursors) ≡ lookup_cursor other cursors
unfolding lookup_cursor put_cursor
lookup_put_other key other c [] h = rw h refl
lookup_put_other key other c ((k, d) ∷ cursors) h = elim (Bool-cases (k == key)) [
  | inl found ↦ rw found (ground (arith, found, h, eq_iff k key))
  | inr missed ↦ rw missed (elim (Bool-cases (k == other)) [
    | inl same ↦ rw same refl
    | inr differ ↦ rw differ (lookup_put_other key other c cursors h)
  ])
]

-- Within one epoch the cursor of a session moves to the later of its event and the frame's.
commit_cursor_lem :
    (session : String) (frame : Frame) (cursors : Cursors) (c : Cursor) (id : ℕ)
    → lookup_cursor session cursors ≡ some c
    → frame.event_id ≡ some id
    → frame.epoch ≡ some c.epoch
    → truthy c.epoch ≡ true
    → lookup_cursor session (commit_cursor session frame cursors)
      ≡ some (record { event_id = max c.event_id id; epoch = c.epoch })
unfolding commit_cursor
commit_cursor_lem session frame cursors c id held e1 e2 t =
    rw (e1, e2, t, held, eq_refl c.epoch)
      (elim (Bool-cases (ltb c.event_id id)) [
        | inl later ↦ rw later (
            lookup_put_same session (record { event_id = id; epoch = c.epoch }) cursors
            ∙ ap (λ n. some (record { event_id = n; epoch = c.epoch })) (ground (arith, later)))
        | inr earlier ↦ rw earlier (
            held
            ∙ ap (λ n. some (record { event_id = n; epoch = c.epoch })) (ground (arith, earlier)))
      ])

commit_at-other :
    (session other : String) (id : Option ℕ) (epoch : Option String) (cursors : Cursors)
    → (session == other) ≡ false
    → lookup_cursor other (commit_at session id epoch cursors) ≡ lookup_cursor other cursors
commit_at-other session other none epoch cursors h = refl
commit_at-other session other (some id) none cursors h = refl
commit_at-other session other (some id) (some epoch) cursors h =
    elim (Bool-cases (truthy epoch && moves (lookup_cursor session cursors) id epoch)) [
      | inl moved ↦
          rw moved
            (lookup_put_other session other (record { event_id = id; epoch = epoch }) cursors h)
      | inr stays ↦ rw stays refl
    ]

-- A frame moves no other session's cursor.
commit_cursor-other :
    (session other : String) (frame : Frame) (cursors : Cursors)
    → (session == other) ≡ false
    → lookup_cursor other (commit_cursor session frame cursors) ≡ lookup_cursor other cursors
unfolding commit_cursor
commit_cursor-other session other frame cursors h =
    commit_at-other session other frame.event_id frame.epoch cursors h

pub prune_single :
    (key : String) (view : SessionView)
    → view.streaming ≡ false
    → leb (session_view_chars view) max_cached_chars ≡ true
    → prune_session_views ((key, view) ∷ []) ≡ (key, view) ∷ []
unfolding prune_session_views sort_recent insert_recent keep_recent
prune_single key view i c = simp (prune_session_views, i, large)
  where
    large : too_large (session_view_chars view) 0 ≡ false
    large = ground (arith, c)
