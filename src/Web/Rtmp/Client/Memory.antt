-- ===== src/Web/Rtmp/Client/Memory.antt =====
-- RtmpClient.cpp: packets are processed within the memory of the stream and of the decoder.
use multi_process_server.Base.{
  ℕ, ==_iff, ◌*◌, ◌-◌, ◌%◌, ◌^◌, ◌≤◌, ◌<◌, ◌≡◌, refl, sym, ap, subst, ◌∙◌, arith, ◌==◌, ltb, le→ltb,
  min, if◌then◌else◌, if_elim, if_else, Bool, true, false, none, some, ◌>>=◌, [], ◌++◌, take,
  take-whole, replicate, Bytes, length, ℤ, pos, negsuc, not,
}
use multi_process_server.Jt1078.Header.{Packet, payload, data_type_audio, data_type_route}
use multi_process_server.Web.Audio.Codec.{
  Coders, Codec, AudioCodingType, g711_a, g711_u, adpcm, g726, unsupported,
}
use multi_process_server.Web.Audio.Codec.Bounds.{
  Fills, Decodes, size_of, body_of, length-pcm, decode_audio-Played,
}
use multi_process_server.Web.Rtmp.Stream.{Media, Stream, write_video_frame}
use multi_process_server.Web.Rtmp.Stream.Observed.{write_video_frame-pcm}
use multi_process_server.Web.Rtmp.Stream.Frames.{write_audio_frame-Fits}
use multi_process_server.Web.Rtmp.Client.{
  is_completed, is_video, is_unsupported, coding_of, Client, Result, due, goes_on, fake_audio,
  max_fake_audio_buffer_len, process_audio_data, at_time, add_fake_audio_pcm, after_video,
  process_video, samples_of, decoded, play, process_audio, process_packet,
}

length-replicate : (n x : ℕ) → length (replicate n x) ≡ n
length-replicate ℕ.zero x = refl
length-replicate (ℕ.suc n) x = ap ℕ.suc (length-replicate n x)

-- The frames of the encoder have 2048 bytes.
abbrev pub TakesFrames : Media → Type 0
TakesFrames m = m.raw_buff_size ≡ max_fake_audio_buffer_len

-- The shape of the choice in `AddFakeAudioPcm`.
abbrev choose : Bool → Bool → ℕ → ℕ → ℕ → ℕ × ℕ
choose a b k n s =
    if a then (if b then (min max_fake_audio_buffer_len k, n) else (0, s)) else (640, s)

capped : (a b : Bool) (k n s : ℕ) → (choose a b k n s).0 ≤ max_fake_audio_buffer_len
capped true true k n s = omega arith
capped true false k n s = omega arith
capped false b k n s = omega arith

supported_coding : (t : AudioCodingType) (body : Bytes) → Decodes t body → is_unsupported t ≡ false
supported_coding g711_a body d = refl
supported_coding g711_u body d = refl
supported_coding adpcm body d = refl
supported_coding g726 body d = refl
supported_coding unsupported body d = absurd d

module _ (coders : Coders) (fills : Fills coders) (m : Media) (frames : TakesFrames m) where
  -- Less than a frame is waiting.
  abbrev pub Settled : Client coders m → Type 0
  Settled c = length c.stream.pcm < m.raw_buff_size

  fake_audio-le :
      (t : ℕ) (c : Client coders m) → (fake_audio coders m t c).0 ≤ max_fake_audio_buffer_len
  unfolding fake_audio
  fake_audio-le t c =
      capped (goes_on coders m t c) (ltb c.send_audio_pkt_count (due coders m t c))
        (640 * (due coders m t c - c.send_audio_pkt_count) % 2 ^ 64) (due coders m t c)
        c.send_audio_pkt_count

  -- Samples of at most a frame are taken.
  process_audio_data-Settled :
      (bytes : Bytes) (t : ℕ) (c : Client coders m)
      → Settled c
      → length bytes ≤ max_fake_audio_buffer_len
      → (ok : Bool) × (s : Stream m.State) × (process_audio_data coders m bytes t c
          ≡ some (ok, record c { stream = s }))
        × (length s.pcm < m.raw_buff_size)
  process_audio_data-Settled bytes t c few fits =
      let (ok, s, done, left) =
        write_audio_frame-Fits m (omega (arith, frames)) bytes t c.stream few
          (omega (arith, frames)) in
      (ok, s, ap (λ r. r >>= λ (ok, s). some (ok, record c { stream = s })) done, left)

  add_fake_audio_pcm-Settled :
      (t : ℕ) (c : Client coders m)
      → Settled c
      → (c' : Client coders m) × (add_fake_audio_pcm coders m t c ≡ some c') × Settled c'
  unfolding add_fake_audio_pcm
  add_fake_audio_pcm-Settled t c few =
      let (n, count) = fake_audio coders m t c in
      let c1 : Client coders m = record c { send_audio_pkt_count = count } in
      let (ok, s, done, left) =
        process_audio_data-Settled (replicate n 0) t c1 few
          (omega (arith, fake_audio-le t c, length-replicate n 0)) in
      if_elim (λ r. (c' : Client coders m) × (r ≡ some c') × Settled c') (ltb 0 n)
        (λ _. (
          at_time coders m t (record c1 { stream = s }),
          ap (λ r. r >>= λ (ok, c''). some (at_time coders m t c'')) done,
          left,
        ))
        (λ _. (at_time coders m t c1, refl, few))

  -- A packet is processed within the memory.
  pub record Survived (r : Result coders m) : Type 0 where
    pub code : ℤ
    pub client : Client coders m
    pub done : r ≡ some (code, client)
    pub settled : Settled client

  survived : (code : ℤ) (c : Client coders m) → Settled c → Survived (some (code, c))
  survived code c few = record { code = code; client = c; done = refl; settled = few }

  after_video-Survived :
      (t : ℕ) (ok : Bool) (c : Client coders m)
      → Settled c
      → Survived (after_video coders m t (ok, c))
  unfolding after_video
  after_video-Survived t ok c few =
      let (c', done, left) = add_fake_audio_pcm-Settled t c few in
      if_elim Survived (not ok) (λ _. survived (negsuc 1) c few)
        (λ _.
          if_elim Survived c.car_have_audio (λ _. survived (pos 0) c few)
            (λ _.
              subst Survived (sym (ap (λ r. r >>= λ c'. some (pos 0, c')) done))
                (survived (pos 0) c' left)))

  process_video-Survived :
      (p : Packet) (c : Client coders m) → Settled c → Survived (process_video coders m p c)
  unfolding process_video
  process_video-Survived p c few =
      let collected = c.video_buffer ++ payload p in
      let (ok, s) = write_video_frame m collected p.header.time_stamp c.stream in
      let kept = write_video_frame-pcm m collected p.header.time_stamp c.stream in
      if_elim Survived (is_completed p.header)
        (λ _.
          after_video-Survived p.header.time_stamp ok (record c { video_buffer = []; stream = s })
            (subst (λ b. length b < m.raw_buff_size) (sym kept) few))
        (λ _. survived (pos 0) (record c { video_buffer = collected }) few)

  -- What is collected of an audio frame can be decoded into the buffer.
  abbrev pub Playable : Packet → Client coders m → Type 0
  Playable p c =
      let body = body_of (c.audio_buffer ++ payload p) c.audio_decoder in
      Decodes (coding_of p.header.pt7) body
      × (size_of (coding_of p.header.pt7) (length body) ≤ max_fake_audio_buffer_len)

  -- Audio that can be decoded is written, and 0 is returned whatever ffmpeg replies.
  play-Settled :
      (p : Packet) (c : Client coders m)
      → Settled c
      → (let body = body_of c.audio_buffer c.audio_decoder in
          Decodes (coding_of p.header.pt7) body
          × (size_of (coding_of p.header.pt7) (length body) ≤ max_fake_audio_buffer_len))
      → (c' : Client coders m) × (play coders m p c ≡ some (pos 0, c')) × Settled c'
  unfolding play decoded
  play-Settled p c few (fit, small) =
      let played_samples =
        decode_audio-Played coders fills c.audio_buffer c.audio_decoder (coding_of p.header.pt7) fit
          small in
      let w = played_samples.whole in
      let n = length played_samples.samples * 2 in
      let has : length w.codec.out ≡ n = ap length w.holds ∙ length-pcm played_samples.samples in
      let c1 : Client coders m = record c { audio_decoder = w.codec } in
      let (ok, s, done, left) =
        process_audio_data-Settled w.codec.out p.header.time_stamp c1 few
          (omega (arith, has, w.fits)) in
      let played : Client coders m = record c1 { stream = s; audio_buffer = [] } in
      let write : Codec coders.Context → Bytes → Result coders m = λ d samples.
        process_audio_data coders m samples p.header.time_stamp (record c { audio_decoder = d })
        >>= λ (ok, c'). some (pos 0, record c' { audio_buffer = [] }) in
      (
        played,
        ap (λ r. r >>= λ d. decoded coders m d >>= write d) w.done
            ∙ ap (λ z. samples_of coders m z w.codec.out >>= write w.codec) w.says
            ∙ ap (λ b. (if b then none else some (take n w.codec.out)) >>= write w.codec)
                (le→ltb (length w.codec.out) n (omega (arith, has)))
            ∙ ap (write w.codec) (take-whole n w.codec.out (omega (arith, has)))
            ∙ ap (λ r. r >>= λ (ok, c'). some (pos 0, record c' { audio_buffer = [] })) done,
        left,
      )

  -- A packet of audio of A-law, u-law or ADPCM, of which what is collected can be decoded into the
  -- buffer, is processed within the memory and 0 is returned, whatever ffmpeg replies.
  pub process_audio-Settled :
      (p : Packet) (c : Client coders m)
      → Settled c
      → Playable p c
      → (c' : Client coders m) × (process_audio coders m p c ≡ some (pos 0, c')) × Settled c'
  unfolding process_audio
  process_audio-Settled p c few (fit, small) =
      let c1 : Client coders m = record c {
        car_have_audio = true;
        audio_buffer = c.audio_buffer ++ payload p;
      } in
      let supported = supported_coding (coding_of p.header.pt7) _ fit in
      let P : Result coders m → Type 0 =
        λ r. (c' : Client coders m) × (r ≡ some (pos 0, c')) × Settled c' in
      subst P (sym (if_else (is_unsupported (coding_of p.header.pt7)) _ _ supported)) (
        if_elim P (is_completed p.header) (λ _. play-Settled p c1 few (fit, small))
          (λ _. (c1, refl, few)))

  -- Any packet but audio that cannot be decoded into the buffer.
  abbrev pub Handled : Packet → Client coders m → Type 0
  Handled p c = p.header.data_type4 ≡ data_type_audio → Playable p c

  -- With an encoder of frames of 2048 bytes, and less than a frame waiting, any packet is processed within
  -- the memory, and less than a frame is waiting afterwards; a packet of audio only where what is collected
  -- can be decoded into the buffer: A-law, u-law, or ADPCM of at least 4 bytes with an index of at most 88,
  -- whose samples take up at most 2048 bytes.
  pub process_packet-Survived :
      (p : Packet) (c : Client coders m)
      → Settled c
      → Handled p c
      → Survived (process_packet coders m p c)
  unfolding process_packet
  process_packet-Survived p c few handled =
      if_elim Survived (is_video p.header) (λ _. process_video-Survived p c few)
        (λ _.
          if_elim Survived (p.header.data_type4 == data_type_audio)
            (λ audio.
              let (c', done, left) =
                process_audio-Settled p c few
                  (handled ((==_iff p.header.data_type4 data_type_audio).0 audio)) in
              subst Survived (sym done) (survived (pos 0) c' left))
            (λ _.
              if_elim Survived (p.header.data_type4 == data_type_route)
                (λ _. survived (pos 0) c few) (λ _. survived (negsuc 4) c few)))
