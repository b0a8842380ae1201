-- ===== src/Reply/Laws.antt =====
-- About updateReplySegments of webui/src/utils/replySegments.ts.
use ga_hub.Prelude.{
  ◌≡◌, ◌≢◌, refl, ◌∙◌, or_else-none, String, true, false, Option, none, some, List, [], ◌∷◌, ◌++◌,
  ◌==◌, eq_iff, eq_refl, arith, find?, find?-append, find?-update_first, Option-cases, Bool-cases,
  inl, inr,
}
use ga_hub.Reply.{
  ReplySegment, Phase, has_stream, ignores, next_part, put_part, update_reply_segments,
}

-- Writing the segment of one stream leaves the segment of another where it was.
find?-put_part_other :
    (sid other : String) (part : ReplySegment) (parts : List ReplySegment)
    → part.stream_id ≡ sid
    → sid ≢ other
    → find? (has_stream other) (put_part sid part parts) ≡ find? (has_stream other) parts
find?-put_part_other sid other part [] h k = refl
find?-put_part_other sid other part (p ∷ parts) h k = ground (
  arith,
  eq_iff p.stream_id sid,
  eq_iff p.stream_id other,
  eq_iff part.stream_id other,
  find?-put_part_other sid other part parts,
)

pub next_part-stream :
    (old : Option ReplySegment) (sid : String) (phase : Phase) (content : Option String)
    (turns : Option (List String))
    → (next_part old sid phase content turns).stream_id ≡ sid
unfolding next_part
next_part-stream old sid phase content turns = refl

module _ (parts : List ReplySegment) (sid : String) (phase : Phase) (content : Option String)
    (turns : Option (List String)) where
  pub update_of_none :
      find? (has_stream sid) parts ≡ none
      → update_reply_segments parts sid phase content turns
        ≡ parts ++ next_part none sid phase content turns ∷ []
  unfolding update_reply_segments
  update_of_none h = rw (h, update_reply_segments)

  pub update_of_ignored :
      (old : ReplySegment)
      → find? (has_stream sid) parts ≡ some old
      → ignores old phase content ≡ true
      → update_reply_segments parts sid phase content turns ≡ parts
  unfolding update_reply_segments
  update_of_ignored old h k = rw (h, k, update_reply_segments)

  pub update_of_accepted :
      (old : ReplySegment)
      → find? (has_stream sid) parts ≡ some old
      → ignores old phase content ≡ false
      → update_reply_segments parts sid phase content turns
        ≡ put_part sid (next_part (some old) sid phase content turns) parts
  unfolding update_reply_segments
  update_of_accepted old h k = rw (h, k, update_reply_segments)

  pub update-next_part-find? :
      (old : ReplySegment)
      → find? (has_stream sid) parts ≡ some old
      → find? (has_stream sid) (put_part sid (next_part (some old) sid phase content turns) parts)
        ≡ some (next_part (some old) sid phase content turns)
  update-next_part-find? old h =
      let part = next_part (some old) sid phase content turns in
      find?-update_first (has_stream sid) (λ _. part) parts old h
        (rw (next_part-stream (some old) sid phase content turns) (eq_refl sid))

  pub update-append-find? :
      find? (has_stream sid) parts ≡ none
      → find? (has_stream sid) (parts ++ next_part none sid phase content turns ∷ [])
        ≡ some (next_part none sid phase content turns)
  update-append-find? h = rw (
    find?-append (has_stream sid) parts _,
    h,
    next_part-stream none sid phase content turns,
    eq_refl sid,
  )

  -- Whatever a stream sends, the segments of all other streams are the same as before.
  update_reply_segments-other :
      (other : String)
      → sid ≢ other
      → find? (has_stream other) (update_reply_segments parts sid phase content turns)
        ≡ find? (has_stream other) parts
  update_reply_segments-other other h = elim (Option-cases (find? (has_stream sid) parts)) [
    | inl e ↦
        rw
          (
            update_of_none e,
            find?-append (has_stream other) parts _,
            next_part-stream none sid phase content turns,
            differs,
          )
          (or_else-none _)
    | inr (old, e) ↦ elim (Bool-cases (ignores old phase content)) [
      | inl k ↦ rw (update_of_ignored old e k)
      | inr k ↦ rw (update_of_accepted old e k) (
          find?-put_part_other sid other _ parts
            (next_part-stream (some old) sid phase content turns) h)
    ]
  ]
    where
      differs : (sid == other) ≡ false
      differs = ground (arith, eq_iff sid other)

  -- After any frame of a stream the list has a segment of it.
  pub update_reply_segments-own :
      (p : ReplySegment) × (find?
          (has_stream sid)
          (update_reply_segments parts sid phase content turns)
        ≡ some p)
  update_reply_segments-own = elim (Option-cases (find? (has_stream sid) parts)) [
    | inl e ↦
        (next_part none sid phase content turns, rw (update_of_none e) (update-append-find? e))
    | inr (old, e) ↦ elim (Bool-cases (ignores old phase content)) [
      | inl k ↦ (old, rw (update_of_ignored old e k) e)
      | inr k ↦ (
        next_part (some old) sid phase content turns,
        rw (update_of_accepted old e k) (update-next_part-find? old e),
      )
    ]
  ]

-- The stream has sent its final frame to this page; an archived copy does not count.
pub record IsComplete (sid : String) (parts : List ReplySegment) : Type 0 where
  pub part : ReplySegment
  pub found : find? (has_stream sid) parts ≡ some part
  pub done : part.done ≡ true
  pub live : part.archived ≡ false

-- A later frame of a complete stream is ignored unless it is again a final one.
next_part_complete :
    (old : ReplySegment) (sid : String) (phase : Phase) (content : Option String)
    (turns : Option (List String))
    → old.done ≡ true
    → old.archived ≡ false
    → ((next_part (some old) sid phase content turns).done ≡ true)
      × ((next_part (some old) sid phase content turns).archived ≡ false)
unfolding next_part
next_part_complete old sid phase content turns h k = ground arith

-- Once a stream is complete, no frame of it or of another stream reopens it.
pub update_reply_segments-IsComplete :
    (parts : List ReplySegment) (sid other : String) (phase : Phase) (content : Option String)
    (turns : Option (List String))
    → IsComplete other parts
    → IsComplete other (update_reply_segments parts sid phase content turns)
update_reply_segments-IsComplete parts sid other phase content turns c =
    elim (Bool-cases (sid == other)) [
      | inl same ↦ own ((eq_iff sid other).0 same)
      | inr differs ↦ record {
        part = c.part;
        found =
            update_reply_segments-other parts sid phase content turns other
              (ground (arith, eq_iff sid other))
            ∙ c.found;
        done = c.done;
        live = c.live;
      }
    ]
  where
    own : sid ≡ other → IsComplete other (update_reply_segments parts sid phase content turns)
    own e =
        let found : find? (has_stream sid) parts ≡ some c.part = rw e c.found in
        elim (Bool-cases (ignores c.part phase content)) [
          | inl k ↦ record {
            part = c.part;
            found = rw (update_of_ignored parts sid phase content turns c.part found k) c.found;
            done = c.done;
            live = c.live;
          }
          | inr k ↦ record {
            part = next_part (some c.part) sid phase content turns;
            found =
                rw (update_of_accepted parts sid phase content turns c.part found k, ← e)
                  (update-next_part-find? parts sid phase content turns c.part found);
            done = (next_part_complete c.part sid phase content turns c.done c.live).0;
            live = (next_part_complete c.part sid phase content turns c.done c.live).1;
          }
        ]
