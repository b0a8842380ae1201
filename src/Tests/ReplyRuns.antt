-- ===== src/Tests/ReplyRuns.antt =====
-- Runs of webui/src/utils/replySegments.ts: a stream that is answered, and its repeated and late frames.
use ga_hub.Prelude.{◌≡◌, refl, none, some, [], ◌∷◌}
use ga_hub.Reply.{started, next, done, update_reply_segments}
use ga_hub.Reply.Laws.{IsComplete, update_reply_segments-IsComplete}
use ga_hub.Reply.Replay.{
  DistinctStreams, update_reply_segments-DistinctStreams, update_reply_segments_twice,
}
use ga_hub.Tests.Fixtures.{partial, final}

update_reply_segments-IsComplete_example :
    IsComplete "s1" (update_reply_segments (final ∷ []) "s1" next (some "Hello there") none)
update_reply_segments-IsComplete_example =
    update_reply_segments-IsComplete (final ∷ []) "s1" "s1" next (some "Hello there") none
      (record { part = final; found = refl; done = refl; live = refl })

update_reply_segments_twice_example :
    update_reply_segments
      (update_reply_segments (partial ∷ []) "s1" done (some "Hello") none)
      "s1"
      done
      (some "Hello")
      none
    ≡ update_reply_segments (partial ∷ []) "s1" done (some "Hello") none
update_reply_segments_twice_example =
    update_reply_segments_twice (partial ∷ []) "s1" done (some "Hello") none

update_reply_segments-DistinctStreams_example :
    DistinctStreams (update_reply_segments (partial ∷ []) "s2" started none none)
update_reply_segments-DistinctStreams_example =
    update_reply_segments-DistinctStreams (partial ∷ []) "s2" started none none (refl, tt)
