-- ===== src/Transcript/Display/Laws.antt =====
-- About `transcriptRecordMarkdown` of webui/src/utils/transcriptProtocol.ts.
use ga_hub.Prelude.{
  ℕ, zero, suc, ◌+◌, ◌≤◌, ◌<◌, ◌≡◌, refl, sym, ap, ◌∙◌, Bool, true, false, not, ◌&&◌, ◌||◌, some,
  List, [], ◌∷◌, ◌++◌, any, take, drop, length, sort_by, sort_by-Distinct, sort_by-All, any-sort_by,
  sort_by-Ascends, Ascends, AscendFrom, Distinct, All, All-append, any-append, if◌then◌else◌, eqb,
  Bool-cases, inl, inr, arith,
}
use ga_hub.Transcript.{TranscriptNode, is_tool, is_line_start, scan_transcript}
use ga_hub.Transcript.Tiling.{IsTiling, IsTiling-le, scan_transcript-IsTiling}
use ga_hub.Transcript.Repairs.{IsRepairable, scan_transcript-AllRepairable}
use ga_hub.Transcript.Display.{
  add_offset, add_offsets, inserts, insert_breaks, with_breaks, transcript_record_markdown,
}

-- Whether a line break is missing before the unit at an offset: a call starts there that does not
-- begin a line, or a block's closing fence is glued to what stands there.
abbrev pub is_missing : List ℕ → List TranscriptNode → ℕ → Bool
is_missing source [] at = false
is_missing source (node ∷ nodes) at =
    any (eqb at) node.repairs
    || (is_tool node.kind && not (is_line_start source node.start) && eqb at node.start)
    || is_missing source nodes at

-- Units from an offset on, with a line break before each unit, and behind the last, where one is
-- missing.
abbrev pub lines_at : (ℕ → Bool) → ℕ → List ℕ → List ℕ
lines_at missing at [] = if missing at then 10 ∷ [] else []
lines_at missing at (u ∷ us) =
    let rest = lines_at missing (suc at) us in if missing at then 10 ∷ u ∷ rest else u ∷ rest

lines_at_cong :
    (m m' : ℕ → Bool) (pos : ℕ) (us : List ℕ)
    → ((p : ℕ) → pos ≤ p → m p ≡ m' p)
    → lines_at m pos us ≡ lines_at m' pos us
lines_at_cong m m' pos [] h = rw (h pos (omega arith)) refl
lines_at_cong m m' pos (u ∷ us) h =
    let rest = lines_at_cong m m' (suc pos) us (λ p k. h p (omega (arith, k))) in
    rw (h pos (omega arith), rest) refl

lines_at_none : (pos : ℕ) (us : List ℕ) → lines_at (λ p. false) pos us ≡ us
lines_at_none pos [] = refl
lines_at_none pos (u ∷ us) = ap (λ l. u ∷ l) (lines_at_none (suc pos) us)

-- One more offset, before all the others.
lines_at_more :
    (m : ℕ → Bool) (pos k at : ℕ) (us : List ℕ)
    → at ≡ pos + k
    → ((p : ℕ) → p ≤ at → m p ≡ false)
    → k ≤ length us
    → take k (lines_at m pos us) ++ 10 ∷ drop k (lines_at m pos us)
      ≡ lines_at (λ p. eqb p at || m p) pos us
lines_at_more m pos zero at [] e h l =
    let here : eqb pos at ≡ true = ground (arith, e) in rw (h pos (omega (arith, e)), here) refl
lines_at_more m pos (suc k) at [] e h l = absurd (omega (arith, l))
lines_at_more m pos zero at (u ∷ us) e h l =
    let here : eqb pos at ≡ true = ground (arith, e) in
    let rest = lines_at_cong m (λ p. eqb p at || m p) (suc pos) us (λ p k. ground (arith, e, k)) in
    rw (h pos (omega (arith, e)), here) (ap (λ l. 10 ∷ u ∷ l) rest)
lines_at_more m pos (suc k) at (u ∷ us) e h l =
    let later : eqb pos at ≡ false = ground (arith, e) in
    rw (h pos (omega (arith, e)), later)
      (ap (λ l. u ∷ l) (lines_at_more m (suc pos) k at us (omega (arith, e)) h (omega (arith, l))))

abbrev StrictFrom : ℕ → List ℕ → Type 0
StrictFrom n [] = Unit
StrictFrom n (x ∷ xs) = (n ≤ x) × StrictFrom (suc x) xs

StrictFrom-any : (n p : ℕ) (xs : List ℕ) → StrictFrom n xs → p < n → any (eqb p) xs ≡ false
StrictFrom-any n p [] s h = refl
StrictFrom-any n p (x ∷ xs) (k, s) h =
    ground (arith, k, h, StrictFrom-any (suc x) p xs s (omega (arith, h, k)))

AscendFrom-StrictFrom :
    (x : ℕ) (xs : List ℕ)
    → AscendFrom (λ at. at) x xs
    → any (eqb x) xs ≡ false
    → Distinct eqb xs
    → StrictFrom (suc x) xs
AscendFrom-StrictFrom x [] a n d = tt
AscendFrom-StrictFrom x (y ∷ ys) (k, a) n (m, d) =
    (ground (arith, k, n), AscendFrom-StrictFrom y ys a m d)

Ascends-StrictFrom : (xs : List ℕ) → Ascends (λ at. at) xs → Distinct eqb xs → StrictFrom 0 xs
Ascends-StrictFrom [] a d = tt
Ascends-StrictFrom (x ∷ xs) a (n, d) = (omega arith, AscendFrom-StrictFrom x xs a n d)

insert_breaks-lines_at :
    (n : ℕ) (ats us : List ℕ)
    → StrictFrom n ats
    → All (λ at. at ≤ length us) ats
    → insert_breaks ats us ≡ lines_at (λ p. any (eqb p) ats) 0 us
insert_breaks-lines_at n [] us s a = sym (lines_at_none 0 us)
insert_breaks-lines_at n (at ∷ ats) us (_, s) (h, a) =
    rw (insert_breaks-lines_at (suc at) ats us s a) (
      lines_at_more (λ p. any (eqb p) ats) 0 at at us (omega arith)
        (λ p k. StrictFrom-any (suc at) p ats s (omega (arith, k))) h)

eqb_sym : (a b : ℕ) → eqb a b ≡ eqb b a
eqb_sym a b = ground arith

any_swapped : (at : ℕ) (xs : List ℕ) → any (λ o. eqb o at) xs ≡ any (eqb at) xs
any_swapped at [] = refl
any_swapped at (x ∷ xs) = ground (arith, any_swapped at xs, eqb_sym x at)

any_same : (p at : ℕ) (xs : List ℕ) → eqb p at ≡ true → any (eqb p) xs ≡ any (eqb at) xs
any_same p at [] e = refl
any_same p at (x ∷ xs) e = ground (arith, e, any_same p at xs e)

any-add_offset :
    (p at : ℕ) (offsets : List ℕ)
    → any (eqb p) (add_offset at offsets) ≡ any (eqb p) offsets || eqb p at
any-add_offset p at offsets = elim (Bool-cases (any (λ o. eqb o at) offsets)) [
  | inl old ↦ rw old (elim (Bool-cases (eqb p at)) [
    | inl e ↦ ground (arith, e, old, any_swapped at offsets, any_same p at offsets e)
    | inr e ↦ ground (arith, e)
  ])
  | inr new ↦ rw new (ground (arith, any-append (eqb p) offsets (at ∷ [])))
]

any-add_offsets :
    (p : ℕ) (ats offsets : List ℕ)
    → any (eqb p) (add_offsets ats offsets) ≡ any (eqb p) offsets || any (eqb p) ats
any-add_offsets p [] offsets = ground arith
any-add_offsets p (at ∷ ats) offsets =
    ground (arith, any-add_offsets p ats (add_offset at offsets), any-add_offset p at offsets)

Distinct-snoc :
    (at : ℕ) (xs : List ℕ)
    → any (λ o. eqb o at) xs ≡ false
    → Distinct eqb xs
    → Distinct eqb (xs ++ at ∷ [])
Distinct-snoc at [] h d = (refl, tt)
Distinct-snoc at (x ∷ xs) h (n, d) = (
  ground (arith, any-append (eqb x) xs (at ∷ []), n, h),
  Distinct-snoc at xs (ground (arith, h)) d,
)

-- Offsets of a Set, all of them within a bound.
abbrev IsSetTo : ℕ → List ℕ → Type 0
IsSetTo n xs = Distinct eqb xs × All (λ at. at ≤ n) xs

add_offset-IsSetTo : (n at : ℕ) (xs : List ℕ) → at ≤ n → IsSetTo n xs → IsSetTo n (add_offset at xs)
add_offset-IsSetTo n at xs h (d, a) = elim (Bool-cases (any (λ o. eqb o at) xs)) [
  | inl old ↦ rw old (d, a)
  | inr new ↦ rw new (Distinct-snoc at xs new d, All-append (λ o. o ≤ n) xs (at ∷ []) a (h, tt))
]

add_offsets-IsSetTo :
    (n : ℕ) (ats xs : List ℕ)
    → All (λ at. at ≤ n) ats
    → IsSetTo n xs
    → IsSetTo n (add_offsets ats xs)
add_offsets-IsSetTo n [] xs h s = s
add_offsets-IsSetTo n (at ∷ ats) xs (h, hs) s =
    add_offsets-IsSetTo n ats (add_offset at xs) hs (add_offset-IsSetTo n at xs h s)

module _ (source : List ℕ) where
  inserts-IsSetTo :
      (from n : ℕ) (nodes : List TranscriptNode) (offsets : List ℕ)
      → IsTiling source from nodes n
      → All (IsRepairable n) nodes
      → IsSetTo n offsets
      → IsSetTo n (inserts source nodes offsets)
  inserts-IsSetTo from n [] offsets t a s = s
  inserts-IsSetTo from n (node ∷ nodes) offsets (f, l, w, t) (r, a) s =
      let repaired = add_offsets-IsSetTo n node.repairs offsets r s in
      let start : node.start ≤ n = omega (arith, l, IsTiling-le source node.end n nodes t) in
      elim (Bool-cases (is_tool node.kind && not (is_line_start source node.start))) [
        | inl e ↦ rw e (
            inserts-IsSetTo node.end n nodes _ t a
              (add_offset-IsSetTo n node.start (add_offsets node.repairs offsets) start repaired))
        | inr e ↦ rw e (inserts-IsSetTo node.end n nodes _ t a repaired)
      ]

  any-inserts :
      (p : ℕ) (nodes : List TranscriptNode) (offsets : List ℕ)
      → any (eqb p) (inserts source nodes offsets)
        ≡ any (eqb p) offsets || is_missing source nodes p
  any-inserts p [] offsets = ground arith
  any-inserts p (node ∷ nodes) offsets =
      let repaired = add_offsets node.repairs offsets in
      elim (Bool-cases (is_tool node.kind && not (is_line_start source node.start))) [
        | inl e ↦ rw e (
            ground (
              arith,
              any-inserts p nodes (add_offset node.start repaired),
              any-add_offset p node.start repaired,
              any-add_offsets p node.repairs offsets,
            ))
        | inr e ↦
            rw e
              (ground (arith, any-inserts p nodes repaired, any-add_offsets p node.repairs offsets))
      ]

  -- Every source is scanned into some nodes, and its Markdown is the source with exactly one line break
  -- more before each unit, or at the end, where one is missing: where a call starts that does not begin a
  -- line, and where a node has a repair. Nothing else is changed.
  pub transcript_record_markdown-lines_at :
      (nodes : List TranscriptNode) × (scan_transcript source ≡ some nodes)
      × (transcript_record_markdown source ≡ some (lines_at (is_missing source nodes) 0 source))
  unfolding transcript_record_markdown
  transcript_record_markdown-lines_at =
      let whole = scan_transcript-IsTiling source in
      let nodes = whole.0 in
      let offsets = inserts source nodes [] in
      let sorted = sort_by (λ at. at) offsets in
      let (distinct, within) =
        inserts-IsSetTo 0 (length source) nodes [] whole.2
          (scan_transcript-AllRepairable source nodes whole.1) (tt, tt) in
      let strict =
        Ascends-StrictFrom sorted (sort_by-Ascends (λ at. at) offsets)
          (sort_by-Distinct (λ at. at) eqb eqb_sym offsets distinct) in
      (
        nodes,
        whole.1,
        ap (with_breaks source) whole.1
            ∙ ap some (
                insert_breaks-lines_at 0 sorted source strict
                  (sort_by-All (λ at. at) (λ at. at ≤ length source) offsets within)
                ∙ lines_at_cong (λ p. any (eqb p) sorted) (is_missing source nodes) 0 source
                    (λ p _. any-sort_by (λ at. at) (eqb p) offsets ∙ any-inserts p nodes [])),
      )
