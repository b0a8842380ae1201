-- ===== src/Chat/History/Laws.antt =====
-- About coalesceArchiveRuns of webui/src/stores/chatStore.ts.
use ga_hub.Prelude.{
  ◌≡◌, refl, ap, ◌∙◌, String, Bool, false, ◌&&◌, ◌||◌, Option, none, some, List, [], ◌∷◌, ◌++◌, any,
  update_first, arith, Bool-cases, inl, inr, eq_iff, opt_eq, is_set, ◌==◌,
}
use ga_hub.Reply.{TurnScanner}
use ga_hub.Chat.Message.{ChatMsg, read, is_assistant}
use ga_hub.Chat.History.{same_run_role, absorb, coalesce, coalesce_from, coalesce_archive_runs}

-- No two bubbles have the same run and the same role, which is a user's or an assistant's.
abbrev pub DistinctRuns : List ChatMsg → Type 0
DistinctRuns [] = Unit
DistinctRuns (m ∷ msgs) = (any (same_run_role m) msgs ≡ false) × DistinctRuns msgs

same_text_sym : (s t : String) → (s == t) ≡ (t == s)
same_text_sym s t = ground (arith, eq_iff s t, eq_iff t s)

same_run_sym : (a b : Option String) → (is_set a && opt_eq a b) ≡ (is_set b && opt_eq b a)
same_run_sym none none = refl
same_run_sym none (some t) = ground arith
same_run_sym (some s) none = ground arith
same_run_sym (some s) (some t) = ground (arith, eq_iff s t, eq_iff t s)

same_run_role_sym : (a b : ChatMsg) → same_run_role a b ≡ same_run_role b a
same_run_role_sym a b = ground (arith, same_run_sym (read b.run_id) (read a.run_id))

any-update_first :
    (q p : ChatMsg → Bool) (f : ChatMsg → ChatMsg) (msgs : List ChatMsg)
    → ((m : ChatMsg) → q (f m) ≡ q m)
    → any q (update_first p f msgs) ≡ any q msgs
any-update_first q p f [] h = refl
any-update_first q p f (m ∷ msgs) h = elim (Bool-cases (p m)) [
  | inl found ↦ rw (found, h m) refl
  | inr missed ↦ rw missed (ap (λ b. q m || b) (any-update_first q p f msgs h))
]

any-snoc :
    (q : ChatMsg → Bool) (msgs : List ChatMsg) (m : ChatMsg)
    → any q (msgs ++ m ∷ []) ≡ any q msgs || q m
any-snoc q [] m = ground arith
any-snoc q (x ∷ msgs) m = ground (arith, any-snoc q msgs m)

any_of_unset :
    (msg : ChatMsg) (msgs : List ChatMsg)
    → is_set (read msg.run_id) ≡ false
    → any (same_run_role msg) msgs ≡ false
any_of_unset msg [] h = refl
any_of_unset msg (m ∷ msgs) h = ground (arith, h, same_run_role_sym msg m, any_of_unset msg msgs h)

append-DistinctRuns :
    (out : List ChatMsg) (msg : ChatMsg)
    → any (same_run_role msg) out ≡ false
    → DistinctRuns out
    → DistinctRuns (out ++ msg ∷ [])
append-DistinctRuns [] msg h d = (refl, tt)
append-DistinctRuns (m ∷ out) msg h (new, d) = (
  ground (arith, any-snoc (same_run_role m) out msg, h, new, same_run_role_sym m msg),
  append-DistinctRuns out msg (ground (arith, h)) d,
)

module _ ⦃scanner : TurnScanner⦄ where
  -- Giving its segments to a bubble changes neither its run nor its role.
  absorb-same_run_role :
      (msg m old : ChatMsg) → same_run_role m (absorb msg old) ≡ same_run_role m old
  unfolding absorb
  absorb-same_run_role msg m old = elim (Bool-cases (is_assistant msg.role)) [
    | inl answer ↦ rw answer refl
    | inr question ↦ rw question refl
  ]

  same_run_role-absorb :
      (msg m old : ChatMsg) → same_run_role (absorb msg old) m ≡ same_run_role old m
  unfolding absorb
  same_run_role-absorb msg m old = elim (Bool-cases (is_assistant msg.role)) [
    | inl answer ↦ rw answer refl
    | inr question ↦ rw question refl
  ]

  any-same_run_role-absorb :
      (msg old : ChatMsg) (msgs : List ChatMsg)
      → any (same_run_role (absorb msg old)) msgs ≡ any (same_run_role old) msgs
  any-same_run_role-absorb msg old [] = refl
  any-same_run_role-absorb msg old (m ∷ msgs) =
      rw (same_run_role-absorb msg m old, any-same_run_role-absorb msg old msgs) refl

  update_first-DistinctRuns :
      (p : ChatMsg → Bool) (msg : ChatMsg) (out : List ChatMsg)
      → DistinctRuns out
      → DistinctRuns (update_first p (absorb msg) out)
  update_first-DistinctRuns p msg [] d = tt
  update_first-DistinctRuns p msg (m ∷ out) (new, d) = elim (Bool-cases (p m)) [
    | inl found ↦ rw found (any-same_run_role-absorb msg m out ∙ new, d)
    | inr missed ↦ rw missed (
      any-update_first (same_run_role m) p (absorb msg) out (absorb-same_run_role msg m) ∙ new,
      update_first-DistinctRuns p msg out d,
    )
  ]

  coalesce-DistinctRuns :
      (out : List ChatMsg) (msg : ChatMsg) → DistinctRuns out → DistinctRuns (coalesce out msg)
  unfolding coalesce
  coalesce-DistinctRuns out msg d =
      elim (Bool-cases (is_set (read msg.run_id) && any (same_run_role msg) out)) [
        | inl old ↦ rw old (update_first-DistinctRuns (same_run_role msg) msg out d)
        | inr new ↦ rw new (
            append-DistinctRuns out msg
              (elim (Bool-cases (is_set (read msg.run_id))) [
                | inl named ↦ ground (arith, new, named)
                | inr unnamed ↦ any_of_unset msg out unnamed
              ])
              d)
      ]

  coalesce_from-DistinctRuns :
      (out msgs : List ChatMsg) → DistinctRuns out → DistinctRuns (coalesce_from out msgs)
  unfolding coalesce_from
  coalesce_from-DistinctRuns out [] d = d
  coalesce_from-DistinctRuns out (msg ∷ msgs) d =
      coalesce_from-DistinctRuns (coalesce out msg) msgs (coalesce-DistinctRuns out msg d)

  -- Of one run the archive projection shows at most one question and at most one answer.
  pub coalesce_archive_runs-DistinctRuns :
      (projected : List ChatMsg) → DistinctRuns (coalesce_archive_runs projected)
  unfolding coalesce_archive_runs
  coalesce_archive_runs-DistinctRuns projected = coalesce_from-DistinctRuns [] projected tt
