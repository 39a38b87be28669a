-- ===== src/Jt1078/CarSession/Frames.antt =====
-- CarSession.cpp: the packets that a car sends are the packets that the connection hands over.
use multi_process_server.Base.{
  ℕ, zero, suc, ◌<◌, ◌≡◌, refl, ap, ◌∙◌, arith, lt→ltb, List, [], ◌∷◌, ◌++◌, map, concat, Option,
  none, some, Bytes, length,
}
use multi_process_server.Buffer.{Alloc}
use multi_process_server.Buffer.Contents.{
  IsReadable, readable, readable_bytes-length, readable-append,
}
use multi_process_server.Jt1078.Header.{Header, cleared, clear, payload}
use multi_process_server.Jt1078.Scan.{need_more_data, Reader, stop, after, need, ◌>>=◌}
use multi_process_server.Jt1078.Decoder.{
  Decoder, read_header_step1, read_header_step2, returned, decode, decode_loop, follow, turn_in,
  proceed, parse_header_step1, fixed_fields, describing_fields, reader,
}
use multi_process_server.Jt1078.Decoder.Invariant.{IsValid, Place-at, weight}
use multi_process_server.Jt1078.Decoder.Frame.{Frame, IsFrame, wire, header_of, decode-Frame}
use multi_process_server.Jt1078.CarSession.{
  Event, packet_complete, packet_error, events, after_decode, drain, drain_fuel, feed,
}
use multi_process_server.Jt1078.CarSession.Drain.{events-emit}
use multi_process_server.Jt1078.CarSession.Total.{weight-drain_fuel}
use multi_process_server.Jt1078.CarSession.Chunks.{
  AllSmall, IsIdle, extend, extend-IsValid, extend-Ahead, feed-drain,
}

-- What the server sees of an event: the header and the payload of a packet.
abbrev pub shown : Event → Option (Header × Bytes)
shown (packet_complete p) = some (p.header, payload p)
shown (packet_error e) = none

abbrev pub expected : Frame → Option (Header × Bytes)
expected f = some (header_of f, f.body)

abbrev pub AllFrames : List Frame → Type 0
AllFrames [] = Unit {0}
AllFrames (f ∷ fs) = IsFrame f × AllFrames fs

need_unmet :
    (n : ℕ) (r : Reader)
    → IsReadable r.input
    → length (readable r.input) < n
    → need n r ≡ stop need_more_data r
unfolding need
need_unmet n r sound few =
    rw (readable_bytes-length r.input sound, lt→ltb (length (readable r.input)) n few) refl

-- Fewer than 16 bytes are no packet: the decoder waits.
decode_few :
    (d : Decoder)
    → IsValid d
    → d.read_status ≡ read_header_step1
    → length (readable d.buffer) < 16
    → (d' : Decoder) × (decode d ≡ returned need_more_data d')
unfolding decode decode_loop parse_header_step1 clear
decode_few d v e few =
    let d' : Decoder = record d { packet = clear d.packet } in
    (
      d',
      ap (λ s. follow (decode_loop 2) (turn_in s d)) e
          ∙ ap
              (λ n.
                follow (decode_loop 2) (
                  proceed d' (λ h. 2) read_header_step2 (parse_header_step1 n (reader d' cleared))))
              (Place-at d v e)
          ∙ ap
              (λ s. follow (decode_loop 2) (
                proceed d' (λ h. 2) read_header_step2
                  (after s (λ _. fixed_fields >>= λ _. describing_fields))))
              (need_unmet 16 (reader d' cleared) v.sound few),
    )

drain-frames :
    (fs : List Frame) (fuel : ℕ) (d : Decoder)
    → IsValid d
    → d.read_status ≡ read_header_step1
    → AllFrames fs
    → readable d.buffer ≡ concat (map wire fs)
    → weight d < fuel
    → map shown (events (drain fuel d)) ≡ map expected fs
unfolding drain
drain-frames fs zero d v e all content h = absurd (omega arith)
drain-frames [] (suc fuel) d v e all content h =
    let (d', run) = decode_few d v e (omega (arith, ap length content)) in
    ap (λ r. map shown (events (after_decode (drain fuel) r))) run
drain-frames (f ∷ fs) (suc fuel) d v e (fits, all) content h =
    let (d', run, header, body, left, status, valid, less) =
      decode-Frame d f (concat (map wire fs)) v e fits content in
    ap (λ r. map shown (events (after_decode (drain fuel) r))) run
    ∙ ap (map shown) (events-emit (packet_complete d'.packet) (drain fuel d'))
    ∙ ap (λ hb. some hb ∷ map shown (events (drain fuel d'))) (λ i. (header i, body i))
    ∙ ap (◌∷◌ (expected f)) (drain-frames fs fuel d' valid status all left (omega arith))

module _ (alloc : Alloc) where
  -- A car that sends packets of the protocol, over a connection that cuts their bytes into reads of at
  -- most 5 KB in any way, to a decoder that waits for a packet and has nothing to read: the events are
  -- these packets, with their headers and payloads, in order, and no error.
  pub feed-frames :
      (fs : List Frame) (cs : List Bytes) (d : Decoder)
      → IsIdle d
      → d.read_status ≡ read_header_step1
      → readable d.buffer ≡ []
      → AllFrames fs
      → AllSmall cs
      → concat cs ≡ concat (map wire fs)
      → map shown (feed alloc cs d) ≡ map expected fs
  unfolding extend
  feed-frames fs cs d i e nothing all small same =
      let d' = extend alloc (concat cs) d in
      let valid = extend-IsValid alloc (concat cs) d i.valid in
      ap (map shown) (
        feed-drain alloc cs d d' (drain_fuel d') small i valid
          (extend-Ahead alloc (concat cs) d i.valid) (weight-drain_fuel d'))
      ∙ drain-frames fs (drain_fuel d') d' valid e all
          (readable-append alloc (concat cs) d.buffer i.valid.sound
            ∙ ap (λ xs. xs ++ concat cs) nothing
            ∙ same)
          (weight-drain_fuel d')
