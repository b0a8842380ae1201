-- ===== src/Reply/Replay.antt =====
-- About repeated frames in updateReplySegments of webui/src/utils/replySegments.ts.
use ga_hub.Prelude.{
  ◌≡◌, refl, ◌∙◌, ap, String, false, Option, none, some, List, [], ◌∷◌, ◌++◌, ◌==◌, eq_iff, arith,
  any, find?, find?_of_any, Option-cases, Bool-cases, inl, inr, is_some, any-append,
}
use ga_hub.Reply.{
  ReplySegment, Phase, has_stream, ignores, next_part, put_part, update_reply_segments,
}
use ga_hub.Reply.Laws.{
  update_of_none, update_of_ignored, update_of_accepted, update-next_part-find?,
  update-append-find?, next_part-stream,
}

-- Every stream has one segment.
abbrev pub DistinctStreams : List ReplySegment → Type 0
DistinctStreams [] = Unit
DistinctStreams (p ∷ parts) = (any (has_stream p.stream_id) parts ≡ false) × DistinctStreams parts

any-put_part :
    (sid other : String) (part : ReplySegment) (parts : List ReplySegment)
    → part.stream_id ≡ sid
    → any (has_stream other) (put_part sid part parts) ≡ any (has_stream other) parts
any-put_part sid other part [] h = refl
any-put_part sid other part (p ∷ parts) h =
    ground (arith, eq_iff p.stream_id sid, any-put_part sid other part parts)

put_part-DistinctStreams :
    (sid : String) (part : ReplySegment) (parts : List ReplySegment)
    → part.stream_id ≡ sid
    → DistinctStreams parts
    → DistinctStreams (put_part sid part parts)
put_part-DistinctStreams sid part [] h d = tt
put_part-DistinctStreams sid part (p ∷ parts) h (new, d) = elim (Bool-cases (p.stream_id == sid)) [
  | inl e ↦ rw e (rw (h, ← (eq_iff p.stream_id sid).0 e) new, d)
  | inr e ↦
      rw e (
        any-put_part sid p.stream_id part parts h ∙ new,
        put_part-DistinctStreams sid part parts h d,
      )
]

append-DistinctStreams :
    (parts : List ReplySegment) (part : ReplySegment)
    → any (has_stream part.stream_id) parts ≡ false
    → DistinctStreams parts
    → DistinctStreams (parts ++ part ∷ [])
append-DistinctStreams [] part h d = (refl, tt)
append-DistinctStreams (p ∷ parts) part h (new, d) = (
  any-append (has_stream p.stream_id) parts (part ∷ [])
      ∙ ground (arith, eq_iff p.stream_id part.stream_id, eq_iff part.stream_id p.stream_id),
  append-DistinctStreams parts part (ground arith) d,
)

-- A frame never makes a second segment of a stream.
pub update_reply_segments-DistinctStreams :
    (parts : List ReplySegment) (sid : String) (phase : Phase) (content : Option String)
    (turns : Option (List String))
    → DistinctStreams parts
    → DistinctStreams (update_reply_segments parts sid phase content turns)
update_reply_segments-DistinctStreams parts sid phase content turns d =
    elim (Option-cases (find? (has_stream sid) parts)) [
      | inl e ↦ rw (update_of_none parts sid phase content turns e) (
          append-DistinctStreams parts _
            (rw (next_part-stream none sid phase content turns)
              (find?_of_any (has_stream sid) parts ∙ ap is_some e))
            d)
      | inr (old, e) ↦ elim (Bool-cases (ignores old phase content)) [
        | inl k ↦ rw (update_of_ignored parts sid phase content turns old e k) d
        | inr k ↦ rw (update_of_accepted parts sid phase content turns old e k) (
            put_part-DistinctStreams sid _ parts
              (next_part-stream (some old) sid phase content turns) d)
      ]
    ]

-- What the same frame makes of the segment that it has just written.
next_part_again :
    (old : Option ReplySegment) (sid : String) (phase : Phase) (content : Option String)
    (turns : Option (List String))
    → next_part (some (next_part old sid phase content turns)) sid phase content turns
      ≡ next_part old sid phase content turns
unfolding next_part
next_part_again none sid phase none turns = ground arith
next_part_again none sid phase (some c) turns = ground (arith, eq_iff c c, eq_iff c "")
next_part_again (some old) sid phase none turns = ground arith
next_part_again (some old) sid phase (some c) turns =
    ground (arith, eq_iff c c, eq_iff c old.content)

put_part_found :
    (sid : String) (part : ReplySegment) (parts : List ReplySegment)
    → find? (has_stream sid) parts ≡ some part
    → put_part sid part parts ≡ parts
put_part_found sid part [] h = refl
put_part_found sid part (p ∷ parts) h = ground (arith, put_part_found sid part parts)

-- A list whose segment of the stream is what the frame writes is kept by the frame.
update_of_written :
    (parts : List ReplySegment) (sid : String) (phase : Phase) (content : Option String)
    (turns : Option (List String)) (old : Option ReplySegment)
    → find? (has_stream sid) parts ≡ some (next_part old sid phase content turns)
    → update_reply_segments parts sid phase content turns ≡ parts
update_of_written parts sid phase content turns old found =
    let part = next_part old sid phase content turns in
    elim (Bool-cases (ignores part phase content)) [
      | inl k ↦ update_of_ignored parts sid phase content turns part found k
      | inr k ↦
          update_of_accepted parts sid phase content turns part found k
          ∙ ap (λ q. put_part sid q parts) (next_part_again old sid phase content turns)
          ∙ put_part_found sid part parts found
    ]

-- Delivering the same frame twice is delivering it once.
pub update_reply_segments_twice :
    (parts : List ReplySegment) (sid : String) (phase : Phase) (content : Option String)
    (turns : Option (List String))
    → update_reply_segments
        (update_reply_segments parts sid phase content turns)
        sid
        phase
        content
        turns
      ≡ update_reply_segments parts sid phase content turns
update_reply_segments_twice parts sid phase content turns =
    elim (Option-cases (find? (has_stream sid) parts)) [
      | inl e ↦ rw (update_of_none parts sid phase content turns e) (
          update_of_written _ sid phase content turns none
            (update-append-find? parts sid phase content turns e))
      | inr (old, e) ↦ elim (Bool-cases (ignores old phase content)) [
        | inl k ↦
            ap (λ l. update_reply_segments l sid phase content turns)
              (update_of_ignored parts sid phase content turns old e k)
        | inr k ↦ rw (update_of_accepted parts sid phase content turns old e k) (
            update_of_written _ sid phase content turns (some old)
              (update-next_part-find? parts sid phase content turns old e))
      ]
    ]
