-- ===== src/Chat/Merge/Laws.antt =====
-- About mergeLive of webui/src/stores/chatStore.ts.
use ga_hub.Prelude.{
  suc, length, All, opt_eq_iff, true, ◌≡◌, refl, ap, ◌∙◌, Bool, false, ◌||◌, [], ◌∷◌, ◌++◌, any,
  update_last, arith, Bool-cases, inl, inr, is_set,
}
use ga_hub.Reply.{TurnScanner}
use ga_hub.Chat.Message.{ChatMsg}
use ga_hub.Chat.Merge.{Placed, Marked, is_placed, identity_of, merge_into, lay_over, lay_all}

-- A rewrite that keeps the keys.
any-update_last :
    (q p : ChatMsg × ChatMsg → Bool) (f : ChatMsg × ChatMsg → ChatMsg × ChatMsg) (out : Placed)
    → ((e : ChatMsg × ChatMsg) → q (f e) ≡ q e)
    → any q (update_last p f out) ≡ any q out
any-update_last q p f [] h = refl
any-update_last q p f (e ∷ out) h = elim (Bool-cases (any p out)) [
  | inl later ↦ rw later (ap (λ b. q e || b) (any-update_last q p f out h))
  | inr last ↦ rw last (elim (Bool-cases (p e)) [
    | inl here ↦ rw here (ap (λ b. b || any q out) (h e))
    | inr other ↦ rw other refl
  ])
]

any-snoc_placed :
    (q : ChatMsg × ChatMsg → Bool) (out : Placed) (e : ChatMsg × ChatMsg)
    → any q (out ++ e ∷ []) ≡ any q out || q e
any-snoc_placed q [] e = ground arith
any-snoc_placed q (x ∷ out) e = ground (arith, any-snoc_placed q out e)

length-update_last :
    (p : ChatMsg × ChatMsg → Bool) (f : ChatMsg × ChatMsg → ChatMsg × ChatMsg) (out : Placed)
    → length (update_last p f out) ≡ length out
length-update_last p f [] = refl
length-update_last p f (e ∷ out) = elim (Bool-cases (any p out)) [
  | inl later ↦ rw later (ap suc (length-update_last p f out))
  | inr last ↦
      rw last (elim (Bool-cases (p e)) [ inl here ↦ rw here refl | inr other ↦ rw other refl ])
]

-- A bubble that the archive has adopted, or that has a run, a logical answer or a stream.
abbrev pub is_known : ChatMsg × Bool → Bool
is_known (msg, adopted) = adopted || is_set (identity_of msg)

-- A bubble that the archive has adopted, or that has its place.
abbrev pub has_place : Placed → ChatMsg × Bool → Bool
has_place out (msg, adopted) = adopted || any (is_placed msg) out

-- A bubble with an identity is found under its own key.
own_place : (msg : ChatMsg) → is_set (identity_of msg) ≡ true → is_placed msg (msg, msg) ≡ true
own_place msg h = ground (arith, h, opt_eq_iff (identity_of msg) (identity_of msg))

module _ ⦃scanner : TurnScanner⦄ where
  -- A place that was taken stays taken.
  lay_over-any :
      (out : Placed) (msg m : ChatMsg)
      → any (is_placed m) out ≡ true
      → any (is_placed m) (lay_over out msg) ≡ true
  unfolding lay_over
  lay_over-any out msg m h = elim (Bool-cases (any (is_placed msg) out)) [
    | inl old ↦ rw old (
        any-update_last (is_placed m) (is_placed msg) (λ e. (merge_into msg e.0, e.1)) out
          (λ e. refl)
        ∙ h)
    | inr new ↦ rw new (ground (arith, any-snoc_placed (is_placed m) out (msg, msg), h))
  ]

  lay_over-own :
      (out : Placed) (msg : ChatMsg)
      → is_set (identity_of msg) ≡ true
      → any (is_placed msg) (lay_over out msg) ≡ true
  unfolding lay_over
  lay_over-own out msg h = elim (Bool-cases (any (is_placed msg) out)) [
    | inl old ↦ rw old (
        any-update_last (is_placed msg) (is_placed msg) (λ e. (merge_into msg e.0, e.1)) out
          (λ e. refl)
        ∙ old)
    | inr new ↦
        rw new (ground (arith, any-snoc_placed (is_placed msg) out (msg, msg), own_place msg h))
  ]

  lay_all-any :
      (out : Placed) (live : Marked) (m : ChatMsg)
      → any (is_placed m) out ≡ true
      → any (is_placed m) (lay_all out live) ≡ true
  unfolding lay_all
  lay_all-any out [] m h = h
  lay_all-any out ((msg, adopted) ∷ live) m h = elim (Bool-cases adopted) [
    | inl taken ↦ rw taken (lay_all-any out live m h)
    | inr left ↦ rw left (lay_all-any (lay_over out msg) live m (lay_over-any out msg m h))
  ]

  lay_all-All :
      (out : Placed) (live : Marked)
      → All (λ e. is_known e ≡ true) live
      → All (λ e. has_place (lay_all out live) e ≡ true) live
  unfolding lay_all
  lay_all-All out [] a = tt
  lay_all-All out ((msg, true) ∷ live) (h, a) = (refl, lay_all-All out live a)
  lay_all-All out ((msg, false) ∷ live) (h, a) = (
    lay_all-any (lay_over out msg) live msg (lay_over-own out msg h),
    lay_all-All (lay_over out msg) live a,
  )

  -- A bubble that has a place adds none, and leaves the places of the others.
  lay_over-length :
      (out : Placed) (msg : ChatMsg)
      → any (is_placed msg) out ≡ true
      → length (lay_over out msg) ≡ length out
  unfolding lay_over
  lay_over-length out msg h =
      rw h (length-update_last (is_placed msg) (λ e. (merge_into msg e.0, e.1)) out)

  has_place-lay_over :
      (out : Placed) (msg : ChatMsg) (live : Marked)
      → All (λ e. has_place out e ≡ true) live
      → All (λ e. has_place (lay_over out msg) e ≡ true) live
  has_place-lay_over out msg [] a = tt
  has_place-lay_over out msg ((m, adopted) ∷ live) (h, a) = (
    elim (Bool-cases adopted) [
      | inl taken ↦ rw taken refl
      | inr left ↦ rw left (lay_over-any out msg m (ground (arith, left, h)))
    ],
    has_place-lay_over out msg live a,
  )

  length-lay_all :
      (out : Placed) (live : Marked)
      → All (λ e. has_place out e ≡ true) live
      → length (lay_all out live) ≡ length out
  unfolding lay_all
  length-lay_all out [] a = refl
  length-lay_all out ((msg, adopted) ∷ live) (h, a) = elim (Bool-cases adopted) [
    | inl taken ↦ rw taken (length-lay_all out live a)
    | inr left ↦ rw left (
        length-lay_all (lay_over out msg) live (has_place-lay_over out msg live a)
        ∙ lay_over-length out msg (ground (arith, left, h)))
  ]

  -- When each live bubble is adopted by the archive or has a run, a logical answer or a stream, every
  -- live bubble that is not adopted has a place after the laying, entered under its role and that
  -- identity, and if the live bubbles come once more behind themselves, no bubble is added a second
  -- time.
  pub lay_all-repeated :
      (out : Placed) (live : Marked)
      → All (λ e. is_known e ≡ true) live
      → All (λ e. has_place (lay_all out live) e ≡ true) live
        × (length (lay_all (lay_all out live) live) ≡ length (lay_all out live))
  lay_all-repeated out live a =
      let placed = lay_all-All out live a in (placed, length-lay_all (lay_all out live) live placed)
