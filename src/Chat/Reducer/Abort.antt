-- ===== src/Chat/Reducer/Abort.antt =====
-- About runs that are stopped by hand and the errors after it, in reduceEvent of
-- webui/src/stores/chatStore.ts.
use ga_hub.Prelude.{
  ℕ, suc, ◌≡◌, refl, sym, ap, ◌∙◌, String, Bool, true, false, ◌&&◌, Option, none, some, List, [],
  ◌∷◌, map, any, length, arith, Bool-cases, inl, inr, truthy, contains_text, remove_text, eq_iff,
  eq_refl, opt_eq,
}
use ga_hub.Reply.{done, TurnScanner}
use ga_hub.Chat.Message.{ChatMsg, read, is_on, any_streaming, slot_is, is_hidden_source}
use ga_hub.Chat.Event.{StreamEvent, ErrorEvent}
use ga_hub.Chat.Reducer.{
  Reduced, finish_streaming, stop_streaming, reduce_error, reduce_aborted, abort_streams,
  add_stream, apply_stream, reduce_done, has_identity,
}

-- After an abort no bubble is receiving.
stop_streaming-any_streaming :
    (now : ℕ) (msgs : List ChatMsg) → any_streaming (map (stop_streaming now) msgs) ≡ false
stop_streaming-any_streaming now [] = refl
stop_streaming-any_streaming now (m ∷ msgs) = ground (arith, stop_streaming-any_streaming now msgs)

finish_streaming_of_stopped :
    (now : ℕ) (msgs : List ChatMsg)
    → any_streaming msgs ≡ false
    → map (finish_streaming now) msgs ≡ msgs
finish_streaming_of_stopped now [] h = refl
finish_streaming_of_stopped now (m ∷ msgs) h = ground (arith, finish_streaming_of_stopped now msgs)

-- A bubble of the stream is receiving.
abbrev pub is_receiving : String → ChatMsg → Bool
is_receiving sid m = is_on m.streaming && slot_is m.stream_id sid

add_stream-contains :
    (sid : String) (o : Option String) (on : Bool) (streams : List String)
    → contains_text streams sid ≡ true
    → contains_text (add_stream o on streams) sid ≡ true
add_stream-contains sid none on streams h = h
add_stream-contains sid (some s) on streams h = ground arith

abort_streams-keeps :
    (sid : String) (msgs : List ChatMsg) (streams : List String)
    → contains_text streams sid ≡ true
    → contains_text (abort_streams msgs streams) sid ≡ true
unfolding abort_streams
abort_streams-keeps sid [] streams h = h
abort_streams-keeps sid (m ∷ msgs) streams h =
    abort_streams-keeps sid msgs _
      (add_stream-contains sid (read m.stream_id) (is_on m.streaming) streams h)

add_stream-adds :
    (sid : String) (o : Option String) (on : Bool) (streams : List String)
    → truthy sid ≡ true
    → on ≡ true
    → opt_eq o (some sid) ≡ true
    → contains_text (add_stream o on streams) sid ≡ true
add_stream-adds sid none on streams t h k = cc
add_stream-adds sid (some s) on streams t h k = ground (arith, eq_iff s sid, eq_refl sid)

abort_streams-adds :
    (sid : String) (msgs : List ChatMsg) (streams : List String)
    → truthy sid ≡ true
    → any (is_receiving sid) msgs ≡ true
    → contains_text (abort_streams msgs streams) sid ≡ true
unfolding abort_streams
abort_streams-adds sid [] streams t h = cc
abort_streams-adds sid (m ∷ msgs) streams t h = elim (Bool-cases (is_receiving sid m)) [
  | inl e ↦ abort_streams-keeps sid msgs _ (
      add_stream-adds sid (read m.stream_id) (is_on m.streaming) streams t (ground arith)
        (ground arith))
  | inr e ↦ abort_streams-adds sid msgs _ t (ground arith)
]

-- An abort leaves no bubble receiving, and then an error of a stream that was receiving adds no
-- error bubble and changes none.
pub reduce_aborted-reduce_error :
    (prev : List ChatMsg) (streams : List String) (evt : ErrorEvent) (now later : ℕ)
    → truthy evt.stream_id ≡ true
    → any (is_receiving evt.stream_id) prev ≡ true
    → (any_streaming (reduce_aborted now (prev, streams)).0 ≡ false)
      × (reduce_error evt later (reduce_aborted now (prev, streams))
          ≡ (reduce_aborted now (prev, streams)).0)
unfolding reduce_aborted reduce_error
reduce_aborted-reduce_error prev streams evt now later t h = (
  stop_streaming-any_streaming now prev,
  rw (t, abort_streams-adds evt.stream_id prev streams t h)
      (finish_streaming_of_stopped later _ (stop_streaming-any_streaming now prev)),
)

length-map : (f : ChatMsg → ChatMsg) (msgs : List ChatMsg) → length (map f msgs) ≡ length msgs
length-map f [] = refl
length-map f (m ∷ msgs) = ap suc (length-map f msgs)

suppressed_error :
    (state : Reduced) (fault : ErrorEvent) (now : ℕ)
    → truthy fault.stream_id ≡ true
    → contains_text state.1 fault.stream_id ≡ true
    → length (reduce_error fault now state) ≡ length state.0
unfolding reduce_error
suppressed_error (msgs, streams) fault now t h = rw (t, h) (length-map (finish_streaming now) msgs)

done-streams :
    ⦃scanner : TurnScanner⦄ (prev : List ChatMsg) (streams : List String) (evt : StreamEvent)
    (now : ℕ)
    → evt.phase ≡ done
    → has_identity evt ≡ true
    → (apply_stream evt now (prev, streams)).1 ≡ streams
unfolding apply_stream
done-streams prev streams evt now p i = rw (p, i, apply_stream)

contains_text-remove_text :
    (sid : String) (streams : List String) → contains_text (remove_text sid streams) sid ≡ false
contains_text-remove_text sid [] = refl
contains_text-remove_text sid (s ∷ streams) = ground (arith, contains_text-remove_text sid streams)

done_plain-streams :
    ⦃scanner : TurnScanner⦄ (prev : List ChatMsg) (streams : List String) (evt : StreamEvent)
    (now : ℕ)
    → evt.phase ≡ done
    → has_identity evt ≡ false
    → is_hidden_source evt.source ≡ false
    → (apply_stream evt now (prev, streams)).1 ≡ remove_text evt.stream_id streams
unfolding apply_stream reduce_done
done_plain-streams prev streams evt now p i v = rw (p, i, v, apply_stream)

-- After the final frame of an aborted stream the stream is still in the set of suppressed streams
-- exactly if the frame names a run or a logical answer.
pub done-suppression :
    ⦃scanner : TurnScanner⦄ (prev : List ChatMsg) (streams : List String) (evt : StreamEvent)
    (now : ℕ)
    → evt.phase ≡ done
    → is_hidden_source evt.source ≡ false
    → contains_text streams evt.stream_id ≡ true
    → contains_text (apply_stream evt now (prev, streams)).1 evt.stream_id ≡ has_identity evt
done-suppression prev streams evt now p v h = elim (Bool-cases (has_identity evt)) [
  | inl i ↦ rw (done-streams prev streams evt now p i) (h ∙ sym i)
  | inr i ↦
      rw (done_plain-streams prev streams evt now p i v)
        (contains_text-remove_text evt.stream_id streams ∙ sym i)
]

-- While a stream is in that set, its errors add no bubble.
suppressed-reduce_error :
    (prev : List ChatMsg) (streams : List String) (fault : ErrorEvent) (now : ℕ)
    → truthy fault.stream_id ≡ true
    → contains_text streams fault.stream_id ≡ true
    → length (reduce_error fault now (prev, streams)) ≡ length prev
suppressed-reduce_error prev streams fault now t h = suppressed_error (prev, streams) fault now t h
