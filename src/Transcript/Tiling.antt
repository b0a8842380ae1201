-- ===== src/Transcript/Tiling.antt =====
-- About the nodes of `scanTranscript` of webui/src/utils/transcriptProtocol.ts.
use ga_hub.Prelude.{
  take_split, drop-drop, take_whole, ℕ, zero, suc, ◌+◌, ◌-◌, ◌≤◌, ◌<◌, ◌≡◌, refl, ap, sym, subst,
  ◌∙◌, Option, none, some, List, [], ◌∷◌, ◌++◌, length, drop, take, length-drop, ltb, Bool-cases,
  inl, inr, arith, ◌⊎◌,
}
use ga_hub.Transcript.{
  TranscriptNode, Token, Found, nothing, found, out_of_fuel, Scan, slice, flush, push,
  is_line_start, is_adjacent, find_here, scan_loop, scan_transcript,
}
use ga_hub.Transcript.Places.{IsShorterFound, find_token-IsShorterFound}

slice_split :
    (source : List ℕ) (from mid to : ℕ)
    → from ≤ mid
    → mid ≤ to
    → slice source from mid ++ slice source mid to ≡ slice source from to
slice_split source from mid to h k =
    let at : mid ≡ from + (mid - from) = omega (arith, h) in
    let whole : (mid - from) + (to - mid) ≡ to - from = omega (arith, h, k) in
    let rest : drop mid source ≡ drop (mid - from) (drop from source) =
      ap (λ n. drop n source) at ∙ drop-drop from (mid - from) source in
    rw rest (
      take_split (mid - from) (to - mid) (drop from source)
      ∙ ap (λ n. take n (drop from source)) whole)

-- The texts of the nodes, one after the other.
abbrev raws : List TranscriptNode → List ℕ
raws [] = []
raws (node ∷ nodes) = node.raw ++ raws nodes

module _ (source : List ℕ) where
  -- The nodes follow each other from one offset to another, none is empty, and the text of each is that of
  -- the source.
  abbrev pub IsTiling : ℕ → List TranscriptNode → ℕ → Type 0
  IsTiling from [] to = from ≡ to
  IsTiling from (node ∷ nodes) to =
      (node.start ≡ from)
      × (node.start < node.end)
      × (node.raw ≡ slice source node.start node.end)
      × IsTiling node.end nodes to

  IsTiling-snoc :
      (from to : ℕ) (nodes : List TranscriptNode) (node : TranscriptNode)
      → IsTiling from nodes to
      → node.start ≡ to
      → node.start < node.end
      → node.raw ≡ slice source node.start node.end
      → IsTiling from (nodes ++ node ∷ []) node.end
  IsTiling-snoc from to [] node t s l r = (s ∙ sym t, l, r, refl)
  IsTiling-snoc from to (first ∷ nodes) node (s', l', r', t) s l r =
      (s', l', r', IsTiling-snoc first.end to nodes node t s l r)

  -- What holds of the loop's state.
  abbrev pub IsScan : Scan → Type 0
  IsScan s = IsTiling 0 s.nodes s.text_start × (s.text_start ≤ s.pos) × (s.pos ≤ length source)

  flush-IsTiling : (s : Scan) → IsScan s → IsTiling 0 (flush source s) s.pos
  flush-IsTiling s (t, h, k) = elim (Bool-cases (ltb s.text_start s.pos)) [
    | inl e ↦ rw e (IsTiling-snoc 0 s.text_start s.nodes _ t refl (ground (arith, e)) refl)
    | inr e ↦ rw e (subst (IsTiling 0 s.nodes) (ground (arith, e, h)) t)
  ]

  pub push-IsScan :
      (t : Token) (s : Scan)
      → IsScan s
      → length t.after < length source - s.pos
      → IsScan (push source t s)
  push-IsScan t s i h = (
    IsTiling-snoc 0 s.pos (flush source s) _ (flush-IsTiling s i) refl (omega (arith, h)) refl,
    omega arith,
    omega arith,
  )

  pub Found-cases : (f : Found) → (f ≡ nothing) ⊎ ((t : Token) × (f ≡ found t)) ⊎ (f ≡ out_of_fuel)
  Found-cases nothing = inl refl
  Found-cases (found t) = inr (inl (t, refl))
  Found-cases out_of_fuel = inr (inr refl)

  pub find_here-IsShorterFound :
      (s : Scan)
      → s.pos < length source
      → IsShorterFound (length source - s.pos) (find_here source s)
  unfolding find_here
  find_here-IsShorterFound s h =
      let rest = drop s.pos source in
      subst (λ n. IsShorterFound n (find_here source s)) (length-drop s.pos source)
        (find_token-IsShorterFound (length source) (is_line_start source s.pos)
          (is_adjacent source s.pos s.nodes) rest (omega (arith, h, length-drop s.pos source)))

  abbrev IsTiled : Option (List TranscriptNode) → Type 0
  IsTiled none = ⊥
  IsTiled (some nodes) = IsTiling 0 nodes (length source)

  scan_loop-IsTiled :
      (fuel : ℕ) (s : Scan)
      → length source ≤ s.pos + fuel
      → IsScan s
      → IsTiled (scan_loop source fuel s)
  unfolding scan_loop
  scan_loop-IsTiled zero s h i = elim (Bool-cases (ltb s.pos (length source))) [
    | inl e ↦ absurd (ground (arith, e, h))
    | inr e ↦
        rw e (subst (IsTiling 0 (flush source s)) (ground (arith, e, h, i)) (flush-IsTiling s i))
  ]
  scan_loop-IsTiled (suc fuel) s h i = elim (Bool-cases (ltb s.pos (length source))) [
    | inr e ↦ rw e (subst (IsTiling 0 (flush source s)) (ground (arith, e, i)) (flush-IsTiling s i))
    | inl e ↦
        let less : s.pos < length source = ground (arith, e) in
        let shorter = find_here-IsShorterFound s less in
        elim (Found-cases (find_here source s)) [
          | inl k ↦
              rw (e, k)
                (scan_loop-IsTiled fuel (record s { pos = suc s.pos }) (omega (arith, h))
                  (i.0, omega (arith, i), omega (arith, less)))
          | inr (inl (t, k)) ↦
              let took : length t.after < length source - s.pos =
                subst (IsShorterFound (length source - s.pos)) k shorter in
              rw (e, k)
                (scan_loop-IsTiled fuel (push source t s) (omega (arith, h, less, took))
                  (push-IsScan t s i took))
          | inr (inr k) ↦ absurd (subst (IsShorterFound (length source - s.pos)) k shorter)
        ]
  ]

  tiled :
      (o : Option (List TranscriptNode))
      → IsTiled o
      → (nodes : List TranscriptNode) × (o ≡ some nodes) × IsTiling 0 nodes (length source)
  tiled none t = absurd t
  tiled (some nodes) t = (nodes, refl, t)

  -- The scanner ends on every source, and its nodes divide the source: the first begins at 0, each begins
  -- where the one before it ends, the last ends with the source, none is empty, and each holds the text
  -- of its place.
  pub scan_transcript-IsTiling :
      (nodes : List TranscriptNode) × (scan_transcript source ≡ some nodes)
      × IsTiling 0 nodes (length source)
  unfolding scan_transcript
  scan_transcript-IsTiling = tiled (scan_transcript source) (
      scan_loop-IsTiled (length source) (record { pos = 0; text_start = 0; nodes = [] })
        (omega arith) (refl, omega arith, omega arith))

  pub IsTiling-le : (from to : ℕ) (nodes : List TranscriptNode) → IsTiling from nodes to → from ≤ to
  IsTiling-le from to [] t = omega (arith, t)
  IsTiling-le from to (node ∷ nodes) (s, l, r, t) =
      omega (arith, s, l, IsTiling-le node.end to nodes t)

  IsTiling-raws :
      (from to : ℕ) (nodes : List TranscriptNode)
      → IsTiling from nodes to
      → raws nodes ≡ slice source from to
  IsTiling-raws from to [] t = let e : to - from ≡ 0 = omega (arith, t) in rw e refl
  IsTiling-raws from to (node ∷ nodes) (s, l, r, t) =
      let same : slice source node.start node.end ≡ slice source from node.end =
        ap (λ n. slice source n node.end) s in
      rw (r, same, IsTiling-raws node.end to nodes t)
        (slice_split source from node.end to (omega (arith, s, l))
          (IsTiling-le node.end to nodes t))

  -- The scanner loses nothing: on every source it ends, and the texts of its nodes, one after the other, are
  -- the source.
  scan_transcript-raws :
      (nodes : List TranscriptNode) × (scan_transcript source ≡ some nodes) × (raws nodes ≡ source)
  scan_transcript-raws =
      let whole = scan_transcript-IsTiling in
      let e : length source - 0 ≡ length source = omega arith in
      (
        whole.0,
        whole.1,
        IsTiling-raws 0 (length source) whole.0 whole.2
            ∙ ap (λ n. take n source) e
            ∙ take_whole source,
      )
