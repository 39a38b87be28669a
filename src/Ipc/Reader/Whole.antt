-- ===== src/Ipc/Reader/Whole.antt =====
-- The OnMessage of the servers and their clients, on a stream of packets that arrives in any parts.
use multi_process_server.Base.{
  ℕ, ◌≤◌, ◌≡◌, refl, sym, ap, ◌∙◌, arith, List, [], ◌∷◌, ◌++◌, map, map-append, concat, Bytes,
  length,
}
use multi_process_server.Buffer.{Alloc}
use multi_process_server.Buffer.Contents.{IsReadable, readable}
use multi_process_server.Ipc.Decoder.{Decoder, need_more_data, no_error, push_buffer}
use multi_process_server.Ipc.Decoder.Start.{IsReady}
use multi_process_server.Ipc.Reader.Expected.{
  AllFit, frames, frames_small, Expects, at_header, at_body,
}
use multi_process_server.Ipc.Reader.Frames.{
  Serves, serves, drain-Serves, weight-drain_fuel, push_buffer-Expects,
}
use multi_process_server.Ipc.Reader.{
  Message, Drained, drained, read_all, completed, Handled, kept, then_feed, feed,
}

-- The largest read after which what is unread cannot pass the limit of the buffer.
abbrev pub read_limit : ℕ
read_limit = 510976

abbrev pub AllShort : List Bytes → Type 0
AllShort [] = Unit
AllShort (c ∷ cs) = (length c ≤ read_limit) × AllShort cs

Expects-sound :
    {d : Decoder} {future : Bytes} {ms : List Message} → Expects d future ms → IsReadable d.buffer
Expects-sound (at_header ready room all e) = ready.sound
Expects-sound (at_body sound status p h room fits all e) = sound

module _ (alloc : Alloc) where
  -- An OnMessage that pushes what has come in and reads all packets, where the buffer is not full and no
  -- packet is refused.
  abbrev pub Reads : (Bytes → Decoder → Handled) → Type 0
  Reads on_message =
      (new : Bytes) (d d' : Decoder) (ms : List Message) (e : Decoder)
      → push_buffer alloc new d ≡ (no_error, d')
      → read_all alloc d' ≡ drained ms need_more_data e
      → on_message new d ≡ kept (map completed ms) e

  module _ (on_message : Bytes → Decoder → Handled) (reads : Reads on_message) where
    feed_from :
        (cs : List Bytes) (d : Decoder) (ms : List Message)
        → Expects d (concat cs) ms
        → (concat cs ≡ [] → ms ≡ [])
        → length (readable d.buffer) ≤ 1024
        → AllShort cs
        → feed on_message cs d ≡ map completed ms
    unfolding feed read_all
    feed_from [] d ms x more few short = sym (ap (map completed) (more refl))
    feed_from (c ∷ cs) d ms x more few (now, short) =
        let (d', pushed, y) =
          push_buffer-Expects alloc c (concat cs) d ms (Expects-sound x) (omega arith) x in
        go d' pushed (drain-Serves alloc _ d' (concat cs) ms y (weight-drain_fuel d'))
          (λ e left y more' few'. feed_from cs e left y more' few' short) refl
      where
        go :
            (d' : Decoder)
            → push_buffer alloc c d ≡ (no_error, d')
            → {r : Drained} → Serves (concat cs) ms r
            → ((e : Decoder) (left : List Message)
                → Expects e (concat cs) left
                → (concat cs ≡ [] → left ≡ [])
                → length (readable e.buffer) ≤ 1024
                → feed on_message cs e ≡ map completed left)
            → read_all alloc d' ≡ r
            → then_feed (feed on_message cs) (on_message c d) ≡ map completed ms
        go d' pushed (serves {first} {left} {d = d''} e y more' few') later read =
            ap (then_feed (feed on_message cs)) (reads c d d' first d'' pushed read)
            ∙ ap (◌++◌ (map completed first)) (later d'' left y more' few')
            ∙ sym (map-append completed first left)
            ∙ sym (ap (map completed) e)

    -- A ready decoder with nothing to read and 1024 bytes for a packet: the frames of packets that fit,
    -- which arrive in parts of at most 510976 bytes cut in any way, are told as these packets, in
    -- order, and no error.
    pub feed-frames_of :
        (cs : List Bytes) (d : Decoder) (ms : List Message)
        → IsReady d
        → 1024 ≤ d.packet_capacity
        → readable d.buffer ≡ []
        → AllFit ms
        → concat cs ≡ frames ms
        → AllShort cs
        → feed on_message cs d ≡ map completed ms
    feed-frames_of cs d ms ready room none_left all e short =
        feed_from cs d ms (at_header ready room all (ap (λ xs. xs ++ concat cs) none_left ∙ e))
          (λ nothing. frames_small ms (omega (arith, ap length e, ap length nothing)))
          (omega (arith, ap length none_left)) short
