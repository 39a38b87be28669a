-- ===== src/Web/Rtmp/Client/Whole.antt =====
-- RtmpClient.cpp: the parts of a video frame are put together.
use multi_process_server.Base.{
  ℕ, Bool, ◌≤◌, ◌<◌, ◌≡◌, refl, sym, ap, ◌∙◌, ◌==◌, if◌then◌else◌, if_then, if_else, true, false,
  some, ◌>>=◌, List, [], ◌∷◌, ◌++◌, map, append-nil, append_assoc, Bytes, length, concat, pos,
  negsuc,
}
use multi_process_server.Jt1078.Header.{Packet, payload}
use multi_process_server.Web.Audio.Codec.{Coders}
use multi_process_server.Web.Rtmp.Stream.{Media, Stream, write_video_frame}
use multi_process_server.Web.Rtmp.Stream.Video.{
  handed, write_video_frame_onward, write_video_frame_behind,
}
use multi_process_server.Web.Rtmp.Client.{
  is_completed, is_video, Client, Result, try_to_init_rtmp_stream, add_fake_audio_pcm, after_video,
  process_video, process_packet, process_jt1078_packet,
}

-- The first and the middle packets of a video frame.
abbrev pub AllParts : List Packet → Type 0
AllParts [] = Unit {0}
AllParts (p ∷ ps) = (is_video p.header ≡ true) × (is_completed p.header ≡ false) × AllParts ps

payloads :
    (ps : List Packet) (p : Packet)
    → concat (map payload (ps ++ p ∷ [])) ≡ concat (map payload ps) ++ payload p
payloads [] p = append-nil (payload p)
payloads (q ∷ ps) p =
    ap (◌++◌ (payload q)) (payloads ps p)
    ∙ sym (append_assoc (payload q) (concat (map payload ps)) (payload p))

module _ (coders : Coders) (m : Media) where
  -- The stream is open.
  pub record IsOpen (c : Client coders m) : Type 0 where
    pub has_prefix : (length c.url_prefix == 0) ≡ false
    pub connected : c.stream.connected ≡ true

  -- Packets one behind another, until one fails.
  abbrev pub run : List Packet → Client coders m → Result coders m
  run [] c = some (pos 0, c)
  run (p ∷ ps) c = process_jt1078_packet coders m p c >>= λ (n, c'). elim n [
    | pos _ ↦ run ps c'
    | negsuc e ↦ some (negsuc e, c')
  ]

  open_process :
      (p : Packet) (c : Client coders m)
      → IsOpen c
      → process_jt1078_packet coders m p c ≡ process_packet coders m p c
  unfolding process_jt1078_packet try_to_init_rtmp_stream
  open_process p c o =
      ap
        (λ r.
          r >>= λ (ready, c'). if ready then process_packet coders m p c' else some (negsuc 0, c'))
        (if_else (length c.url_prefix == 0) _ _ o.has_prefix
          ∙ if_then c.stream.connected _ _ o.connected)

  abbrev with_video : Bytes → Client coders m → Client coders m
  with_video bytes c = record c { video_buffer = c.video_buffer ++ bytes }

  process_part :
      (p : Packet) (c : Client coders m)
      → IsOpen c
      → is_video p.header ≡ true
      → is_completed p.header ≡ false
      → process_jt1078_packet coders m p c ≡ some (pos 0, with_video (payload p) c)
  unfolding process_packet process_video
  process_part p c o video part =
      open_process p c o
      ∙ if_then (is_video p.header) _ _ video
      ∙ if_else (is_completed p.header) _ _ part

  run_parts :
      (ps : List Packet) (c : Client coders m)
      → IsOpen c
      → AllParts ps
      → run ps c ≡ some (pos 0, with_video (concat (map payload ps)) c)
  run_parts [] c o all =
      ap (λ b. some (pos 0, record c { video_buffer = b })) (sym (append-nil c.video_buffer))
  run_parts (p ∷ ps) c o (video, part, all) =
      ap (λ r. r >>= λ (n, c'). elim n [ pos _ ↦ run ps c' | negsuc e ↦ some (negsuc e, c') ])
        (process_part p c o video part)
      ∙ run_parts ps (with_video (payload p) c)
          (record { has_prefix = o.has_prefix; connected = o.connected }) all
      ∙ ap (λ b. some (pos 0, record c { video_buffer = b }))
          (append_assoc c.video_buffer (payload p) (concat (map payload ps)))

  -- Behind a frame whose writing failed or not: -2, or 0 and for a car without audio silence.
  abbrev pub settle : ℕ → Bool × Client coders m → Result coders m
  settle t (false, c) = some (negsuc 1, c)
  settle t (true, c) =
      if c.car_have_audio
      then some (pos 0, c)
      else (add_fake_audio_pcm coders m t c >>= λ c'. some (pos 0, c'))

  after_video-settle : (t : ℕ) (r : Bool × Client coders m) → after_video coders m t r ≡ settle t r
  unfolding after_video
  after_video-settle t (true, c) = refl
  after_video-settle t (false, c) = refl

  -- The client behind a whole frame.
  abbrev pub without_parts : Client coders m → Bool × Stream m.State → Bool × Client coders m
  without_parts c (ok, s) = (ok, record c { video_buffer = []; stream = s })

  -- The last packet makes a frame of what is there.
  process_last :
      (ps : List Packet) (p : Packet) (c : Client coders m)
      → IsOpen c
      → c.video_buffer ≡ []
      → AllParts ps
      → is_video p.header ≡ true
      → is_completed p.header ≡ true
      → (run ps c >>= λ (n, c'). process_jt1078_packet coders m p c')
        ≡ settle p.header.time_stamp (
            without_parts c (
              write_video_frame m
                (concat (map payload (ps ++ p ∷ [])))
                p.header.time_stamp
                c.stream))
  unfolding process_packet process_video
  process_last ps p c o none_left all video complete =
      let t = p.header.time_stamp in
      let c' = with_video (concat (map payload ps)) c in
      ap (λ r. r >>= λ (n, c'). process_jt1078_packet coders m p c') (run_parts ps c o all)
      ∙ open_process p c' (record { has_prefix = o.has_prefix; connected = o.connected })
      ∙ if_then (is_video p.header) _ _ video
      ∙ if_then (is_completed p.header) _ _ complete
      ∙ ap
          (λ bytes. after_video coders m t (without_parts c (write_video_frame m bytes t c.stream)))
          (ap (λ b. (b ++ concat (map payload ps)) ++ payload p) none_left ∙ sym (payloads ps p))
      ∙ after_video-settle t
          (without_parts c (write_video_frame m (concat (map payload (ps ++ p ∷ []))) t c.stream))

  -- On an open stream, with no parts of an earlier frame left, the first and the middle packets of a
  -- video frame succeed. With the last one, where its time is not before the last frame's, the whole
  -- frame, the payloads one behind another, is handed to the muxer once, with its time since the first
  -- frame, the time since the last and whether it has a key unit; where it is before, nothing is. No part
  -- is left behind, and the result is -2 where the muxer failed and else 0, behind the silence for a car
  -- without audio.
  pub run-frame :
      (ps : List Packet) (p : Packet) (c : Client coders m)
      → IsOpen c
      → c.video_buffer ≡ []
      → AllParts ps
      → is_video p.header ≡ true
      → is_completed p.header ≡ true
      → let t = p.header.time_stamp in
        let frame = concat (map payload (ps ++ p ∷ [])) in
        let result = run ps c >>= λ (n, c'). process_jt1078_packet coders m p c' in
        (c.stream.video_clock.last ≤ t
          → result ≡ settle t (without_parts c (handed m frame t c.stream)))
        × (t < c.stream.video_clock.last → result ≡ settle t (true, record c { video_buffer = [] }))
  run-frame ps p c o none_left all video complete =
      let t = p.header.time_stamp in
      let frame = concat (map payload (ps ++ p ∷ [])) in
      let last = process_last ps p c o none_left all video complete in
      (
        λ onward.
            last
            ∙ ap (λ r. settle t (without_parts c r))
                (write_video_frame_onward m frame t c.stream onward),
        λ behind.
            last
            ∙ ap (λ r. settle t (without_parts c r))
                (write_video_frame_behind m frame t c.stream behind),
      )
