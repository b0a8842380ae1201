-- ===== src/Transcript/Progress.antt =====
-- About how much of the source webui/src/utils/transcriptProtocol.ts reads at a place.
use ga_hub.Prelude.{
  ℕ, zero, suc, ◌+◌, ◌≤◌, ◌<◌, ◌≡◌, refl, Bool, true, false, ◌&&◌, Option, none, some, List, [],
  ◌∷◌, length, if◌then◌else◌, leb, eqb, if_holds, arith, Bool-cases, inl, inr,
}
use ga_hub.Transcript.Match.{
  take_while, drop_while, drop_one, Piece, one, maybe, star, group, match_pieces, perhaps,
  match_tool, match_compact, match_turn, Edge, match_edge, rest_of, then_perhaps, line_end,
  ended_edge, edge_line, edge_of, or_edge, tool, args, exactly, compact, running, fence_edge,
}

pub drop_while-le : (p : ℕ → Bool) (us : List ℕ) → length (drop_while p us) ≤ length us
drop_while-le p [] = omega arith
drop_while-le p (u ∷ us) = ground (arith, drop_while-le p us)

drop_one-le : (p : ℕ → Bool) (us : List ℕ) → length (drop_one p us) ≤ length us
drop_one-le p [] = omega arith
drop_one-le p (u ∷ us) = ground arith

-- What is left after a match is at most `n` units.
abbrev pub Leaves : ℕ → Option (List ℕ × List ℕ) → Type 0
Leaves n none = Unit
Leaves n (some m) = length m.1 ≤ n

Leaves-le : (m n : ℕ) (o : Option (List ℕ × List ℕ)) → m ≤ n → Leaves m o → Leaves n o
Leaves-le m n none h l = tt
Leaves-le m n (some r) h l = omega (arith, h, l)

match_pieces-Leaves :
    (pieces : List Piece) (captured us : List ℕ)
    → Leaves (length us) (match_pieces pieces captured us)
match_pieces-Leaves [] captured us = omega arith
match_pieces-Leaves (one p ∷ pieces) captured [] = tt
match_pieces-Leaves (one p ∷ pieces) captured (u ∷ us) =
    if_holds (Leaves (suc (length us))) (p u) (match_pieces pieces captured us) none
      (Leaves-le (length us) (suc (length us)) (match_pieces pieces captured us) (omega arith)
        (match_pieces-Leaves pieces captured us))
      tt
match_pieces-Leaves (maybe p ∷ pieces) captured us =
    Leaves-le (length (drop_one p us)) (length us) (match_pieces pieces captured (drop_one p us))
      (drop_one-le p us) (match_pieces-Leaves pieces captured (drop_one p us))
match_pieces-Leaves (star p ∷ pieces) captured us =
    Leaves-le (length (drop_while p us)) (length us)
      (match_pieces pieces captured (drop_while p us)) (drop_while-le p us)
      (match_pieces-Leaves pieces captured (drop_while p us))
match_pieces-Leaves (group least p ∷ pieces) captured us =
    if_holds (Leaves (length us)) (leb least (length (take_while p us)))
      (match_pieces pieces (take_while p us) (drop_while p us)) none
      (Leaves-le (length (drop_while p us)) (length us)
        (match_pieces pieces (take_while p us) (drop_while p us)) (drop_while-le p us)
        (match_pieces-Leaves pieces (take_while p us) (drop_while p us)))
      tt

length-take_while :
    (p : ℕ → Bool) (us : List ℕ) → length (take_while p us) + length (drop_while p us) ≡ length us
length-take_while p [] = omega arith
length-take_while p (u ∷ us) = ground (arith, length-take_while p us)

-- An expression that matches no empty text.
abbrev consumes : List Piece → Bool
consumes [] = false
consumes (one p ∷ pieces) = true
consumes (maybe p ∷ pieces) = consumes pieces
consumes (star p ∷ pieces) = consumes pieces
consumes (group zero p ∷ pieces) = consumes pieces
consumes (group (suc least) p ∷ pieces) = true

-- What is left after a match is less than `n` units.
abbrev pub IsShorter : ℕ → Option (List ℕ × List ℕ) → Type 0
IsShorter n none = Unit
IsShorter n (some m) = length m.1 < n

IsShorter-le : (m n : ℕ) (o : Option (List ℕ × List ℕ)) → m ≤ n → IsShorter m o → IsShorter n o
IsShorter-le m n none h l = tt
IsShorter-le m n (some r) h l = omega (arith, h, l)

Leaves-IsShorter : (m n : ℕ) (o : Option (List ℕ × List ℕ)) → m < n → Leaves m o → IsShorter n o
Leaves-IsShorter m n none h l = tt
Leaves-IsShorter m n (some r) h l = omega (arith, h, l)

module _ (n : ℕ) where
  if-IsShorter :
      (b : Bool) (o : Option (List ℕ × List ℕ))
      → (b ≡ true → IsShorter n o)
      → IsShorter n (if b then o else none)
  if-IsShorter true o h = h refl
  if-IsShorter false o h = tt

match_pieces-IsShorter :
    (pieces : List Piece) (captured us : List ℕ)
    → consumes pieces ≡ true
    → IsShorter (length us) (match_pieces pieces captured us)
match_pieces-IsShorter [] captured us c = cc
match_pieces-IsShorter (one p ∷ pieces) captured [] c = tt
match_pieces-IsShorter (one p ∷ pieces) captured (u ∷ us) c =
    if_holds (IsShorter (suc (length us))) (p u) (match_pieces pieces captured us) none
      (Leaves-IsShorter (length us) (suc (length us)) (match_pieces pieces captured us)
        (omega arith) (match_pieces-Leaves pieces captured us))
      tt
match_pieces-IsShorter (maybe p ∷ pieces) captured us c =
    IsShorter-le (length (drop_one p us)) (length us) (match_pieces pieces captured (drop_one p us))
      (drop_one-le p us) (match_pieces-IsShorter pieces captured (drop_one p us) c)
match_pieces-IsShorter (star p ∷ pieces) captured us c =
    IsShorter-le (length (drop_while p us)) (length us)
      (match_pieces pieces captured (drop_while p us)) (drop_while-le p us)
      (match_pieces-IsShorter pieces captured (drop_while p us) c)
match_pieces-IsShorter (group zero p ∷ pieces) captured us c =
    if_holds (IsShorter (length us)) (leb 0 (length (take_while p us)))
      (match_pieces pieces (take_while p us) (drop_while p us)) none
      (IsShorter-le (length (drop_while p us)) (length us)
        (match_pieces pieces (take_while p us) (drop_while p us)) (drop_while-le p us)
        (match_pieces-IsShorter pieces (take_while p us) (drop_while p us) c))
      tt
match_pieces-IsShorter (group (suc least) p ∷ pieces) captured us c =
    if-IsShorter (length us) (leb (suc least) (length (take_while p us)))
      (match_pieces pieces (take_while p us) (drop_while p us))
      (λ h.
        Leaves-IsShorter (length (drop_while p us)) (length us)
          (match_pieces pieces (take_while p us) (drop_while p us))
          (ground (arith, h, length-take_while p us))
          (match_pieces-Leaves pieces (take_while p us) (drop_while p us)))

rest_of-le :
    (us : List ℕ) (o : Option (List ℕ × List ℕ))
    → Leaves (length us) o
    → length (rest_of us o) ≤ length us
rest_of-le us none l = omega arith
rest_of-le us (some m) l = l

perhaps-le : (pieces : List Piece) (us : List ℕ) → length (perhaps pieces us) ≤ length us
perhaps-le pieces us = rest_of-le us (match_pieces pieces [] us) (match_pieces-Leaves pieces [] us)

then_perhaps-IsShorter :
    (n : ℕ) (pieces : List Piece) (o : Option (List ℕ × List ℕ))
    → IsShorter n o
    → IsShorter n (then_perhaps pieces o)
then_perhaps-IsShorter n pieces none h = tt
then_perhaps-IsShorter n pieces (some m) h = omega (arith, h, perhaps-le pieces m.1)

pub match_tool-IsShorter : (us : List ℕ) → IsShorter (length us) (match_tool us)
unfolding match_tool
match_tool-IsShorter us =
    then_perhaps-IsShorter (length us) args (match_pieces tool [] us)
      (match_pieces-IsShorter tool [] us refl)

pub match_compact-IsShorter : (us : List ℕ) → IsShorter (length us) (match_compact us)
unfolding match_compact
match_compact-IsShorter us = match_pieces-IsShorter compact [] us refl

pub match_turn-IsShorter : (us : List ℕ) → IsShorter (length us) (match_turn us)
unfolding match_turn
match_turn-IsShorter us =
    let inner = perhaps (exactly "**") us in
    then_perhaps-IsShorter (length us) (exactly "**") (match_pieces running [] inner) (
      IsShorter-le (length inner) (length us) (match_pieces running [] inner)
        (perhaps-le (exactly "**") us) (match_pieces-IsShorter running [] inner refl))

-- An opening line, if there is one, leaves less than `n` units.
abbrev pub IsShorterEdge : ℕ → Option Edge → Type 0
IsShorterEdge n none = Unit
IsShorterEdge n (some edge) = length edge.after < n

ended_edge-IsShorterEdge :
    (n mark size : ℕ) (us : List ℕ)
    → length us < n
    → IsShorterEdge n (ended_edge mark size (line_end us))
ended_edge-IsShorterEdge n mark size [] h = h
ended_edge-IsShorterEdge n mark size (u ∷ []) h = elim (Bool-cases (eqb u 10)) [
  | inl e ↦ rw e (omega (arith, h))
  | inr e ↦ rw e tt
]
ended_edge-IsShorterEdge n mark size (u ∷ v ∷ us) h = elim (Bool-cases (eqb u 10)) [
  | inl e ↦ rw e (omega (arith, h))
  | inr e ↦ elim (Bool-cases (eqb u 13 && eqb v 10)) [
    | inl k ↦ rw (e, k) (omega (arith, h))
    | inr k ↦ rw (e, k) tt
  ]
]

edge_line-IsShorterEdge :
    (n mark : ℕ) (o : Option (List ℕ × List ℕ)) → IsShorter n o → IsShorterEdge n (edge_line mark o)
edge_line-IsShorterEdge n mark none h = tt
edge_line-IsShorterEdge n mark (some m) h = ended_edge-IsShorterEdge n mark (length m.0) m.1 h

or_edge-IsShorterEdge :
    (n : ℕ) (o other : Option Edge)
    → IsShorterEdge n o
    → IsShorterEdge n other
    → IsShorterEdge n (or_edge o other)
or_edge-IsShorterEdge n none other h k = k
or_edge-IsShorterEdge n (some edge) other h k = h

pub match_edge-IsShorterEdge : (us : List ℕ) → IsShorterEdge (length us) (match_edge us)
unfolding match_edge
match_edge-IsShorterEdge us =
    or_edge-IsShorterEdge (length us) (edge_of b'`' us) (edge_of b'~' us)
      (edge_line-IsShorterEdge (length us) b'`' (match_pieces (fence_edge b'`') [] us)
        (match_pieces-IsShorter (fence_edge b'`') [] us refl))
      (edge_line-IsShorterEdge (length us) b'~' (match_pieces (fence_edge b'~') [] us)
        (match_pieces-IsShorter (fence_edge b'~') [] us refl))
