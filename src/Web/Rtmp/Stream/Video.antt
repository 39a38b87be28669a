-- ===== src/Web/Rtmp/Stream/Video.antt =====
-- RtmpStream.cpp: what `write_video_frame` hands to the muxer.
use multi_process_server.Base.{
  ℕ, ◌+◌, ◌-◌, ◌%◌, ◌^◌, ◌≤◌, ◌<◌, ◌≡◌, refl, ap, ◌∙◌, arith, ltb, ◌==◌, if◌then◌else◌, if_then,
  if_else, Bool-cases, inl, inr, lt→ltb, le→ltb, Bool, true, false, Bytes, length, ℤ, signed,
}
use multi_process_server.Web.Rtmp.Stream.{
  Clock, Media, Stream, Packet, video, get_av_pts, is_idr_frame1, put, write_video_frame,
}
use multi_process_server.Web.Rtmp.Stream.Key.{any_key, is_idr_frame1-any_key}

-- The milliseconds since the first frame, modulo 2 ^ 32, for a frame of this time.
abbrev pub elapsed : ℕ → Clock → ℕ
elapsed t k = if k.last == 0 then 0 else (k.offset + (t - k.last)) % 2 ^ 32

-- The packet for the muxer: its time, which is `elapsed` as a 32-bit number, the time since the frame
-- before it, whether some start code is followed by a key unit, and the bytes.
abbrev pub packet_of : Bytes → ℕ → Clock → Packet
packet_of bytes t k =
    video (signed 32 (elapsed t k)) (t - k.last) (any_key bytes (length bytes - 2) 2) bytes

get_av_pts_onward :
    (t : ℕ) (k : Clock)
    → k.last ≤ t
    → get_av_pts t k ≡ (signed 32 (elapsed t k), record { last = t; offset = elapsed t k })
unfolding get_av_pts signed
get_av_pts_onward t k h = elim (Bool-cases (k.last == 0)) [
  | inl first ↦ rw first refl
  | inr later ↦ rw (later, le→ltb t k.last h) refl
]

get_av_pts_behind : (t : ℕ) (k : Clock) → t < k.last → (get_av_pts t k).1 ≡ k
unfolding get_av_pts
get_av_pts_behind t k h =
    let started : (k.last == 0) ≡ false = ground arith in
    ap (λ (p : ℤ × Clock). p.1)
      (if_else (k.last == 0) _ _ started ∙ if_then (ltb t k.last) _ _ (lt→ltb t k.last h))

module _ (m : Media) where
  -- The stream with the packet handed to the muxer, and whether it was taken.
  abbrev pub handed : Bytes → ℕ → Stream m.State → Bool × Stream m.State
  handed bytes t s =
      let k = s.video_clock in
      let (ok, media) = m.write_frame (packet_of bytes t k) s.media in
      (ok, record s { video_clock = record { last = t; offset = elapsed t k }; media = media })

  pub write_video_frame_onward :
      (bytes : Bytes) (t : ℕ) (s : Stream m.State)
      → s.video_clock.last ≤ t
      → write_video_frame m bytes t s ≡ handed bytes t s
  unfolding write_video_frame
  write_video_frame_onward bytes t s h =
      let k = s.video_clock in
      let next : ℤ × Clock → Bool × Stream m.State = λ (ts, clock).
        let s' : Stream m.State = record s { video_clock = clock } in
        if ltb t k.last
        then (true, s')
        else put m (video ts (t - k.last) (is_idr_frame1 bytes) bytes) s' in
      ap next (get_av_pts_onward t k h)
      ∙ if_else (ltb t k.last) _ _ (le→ltb t k.last h)
      ∙ ap
          (λ key.
            put m (video (signed 32 (elapsed t k)) (t - k.last) key bytes)
              (record s { video_clock = record { last = t; offset = elapsed t k } }))
          (is_idr_frame1-any_key bytes)

  pub write_video_frame_behind :
      (bytes : Bytes) (t : ℕ) (s : Stream m.State)
      → t < s.video_clock.last
      → write_video_frame m bytes t s ≡ (true, s)
  unfolding write_video_frame
  write_video_frame_behind bytes t s h =
      if_then (ltb t s.video_clock.last) _ _ (lt→ltb t s.video_clock.last h)
      ∙ ap (λ k. (true, record s { video_clock = k })) (get_av_pts_behind t s.video_clock h)
