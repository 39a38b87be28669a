-- ===== src/Web/Rtmp/Stream/Observed.antt =====
-- RtmpStream.cpp: what `write_audio_frame` does with a frame, as ffmpeg sees it.
use multi_process_server.Base.{
  ℕ, zero, suc, ◌+◌, true, subst, if_then, ◌*◌, ◌≤◌, ◌<◌, ◌≡◌, refl, sym, ap, ◌∙◌, arith, ltb, Bool,
  if_elim, Option, some, List, [], ◌∷◌, ◌++◌, Bytes, length, take, drop,
}
use native.Mathlib.Nat.{zero-mul, add-mul}
use multi_process_server.Web.Rtmp.Stream.{
  Media, Stream, Packet, Encoding, failed, nothing_yet, got_packet, write_encoded, after_encoding,
  encode_frame, resample, write_video_frame,
}

-- The array of samples and the count of the frames are as before.
record Keeps {State : Type 0} (s s' : Stream State) : Type 0 where
  pcm : s'.pcm ≡ s.pcm
  pts : s'.next_pts ≡ s.next_pts

-- What can be seen of ffmpeg: the bytes that the converter was handed, and the number of the first sample
-- of each frame that the encoder was handed. The converter takes every frame.
pub record Observer (m : Media) : Type 0 where
  pub taken : m.State → Bytes
  pub encoded : m.State → List ℕ
  pub converts : (frame : Bytes) (st : m.State) → (m.swr_convert frame st).0 ≡ true
  pub convert-taken :
      (frame : Bytes) (st : m.State) → taken (m.swr_convert frame st).1 ≡ taken st ++ frame
  pub convert-encoded :
      (frame : Bytes) (st : m.State) → encoded (m.swr_convert frame st).1 ≡ encoded st
  pub encode-taken : (n : ℕ) (st : m.State) → taken (m.encode_audio n st).1 ≡ taken st
  pub encode-encoded :
      (n : ℕ) (st : m.State) → encoded (m.encode_audio n st).1 ≡ encoded st ++ n ∷ []
  pub write-taken : (p : Packet) (st : m.State) → taken (m.write_frame p st).1 ≡ taken st
  pub write-encoded : (p : Packet) (st : m.State) → encoded (m.write_frame p st).1 ≡ encoded st

-- So many numbers, so far apart.
abbrev pub numbers : ℕ → ℕ → ℕ → List ℕ
numbers zero n step = []
numbers (suc k) n step = n ∷ numbers k (n + step) step

pub numbers-add :
    (k l n step : ℕ) → numbers (k + l) n step ≡ numbers k n step ++ numbers l (n + k * step) step
numbers-add zero l n step =
    let same : 0 + l ≡ l = omega arith in
    let start : n ≡ n + 0 * step = omega (arith, zero-mul step) in
    λ i. numbers (same i) (start i) step
numbers-add (suc k) l n step =
    let one_more : suc k + l ≡ suc (k + l) = omega arith in
    let start : n + step + k * step ≡ n + suc k * step = omega (arith, add-mul 1 k step) in
    ap (λ j. numbers j n step) one_more
    ∙ ap (◌∷◌ n) (
        numbers-add k l (n + step) step
        ∙ ap (λ j. numbers k (n + step) step ++ numbers l j step) start)

module _ (m : Media) where
  write_encoded-Keeps : (t : ℕ) (s : Stream m.State) → Keeps s (write_encoded m t s).1
  unfolding write_encoded
  write_encoded-Keeps t s =
      if_elim (λ (r : Bool × Stream m.State). Keeps s r.1) (ltb t s.audio_clock.last)
        (λ _. record { pcm = refl; pts = refl }) (λ _. record { pcm = refl; pts = refl })

  after_encoding-Keeps :
      (r : Encoding) (t : ℕ) (s : Stream m.State) → Keeps s (after_encoding m r t s).1
  unfolding after_encoding
  after_encoding-Keeps failed t s = record { pcm = refl; pts = refl }
  after_encoding-Keeps nothing_yet t s = record { pcm = refl; pts = refl }
  after_encoding-Keeps got_packet t s = write_encoded-Keeps t s

  pub write_video_frame-pcm :
      (bytes : Bytes) (t : ℕ) (s : Stream m.State) → (write_video_frame m bytes t s).1.pcm ≡ s.pcm
  unfolding write_video_frame
  write_video_frame-pcm bytes t s =
      if_elim (λ (r : Bool × Stream m.State). r.1.pcm ≡ s.pcm) (ltb t s.video_clock.last)
        (λ _. refl) (λ _. refl)

  encode_frame-Keeps : (t : ℕ) (s : Stream m.State) → Keeps s (encode_frame m t s).1
  unfolding encode_frame
  encode_frame-Keeps t s =
      let (r, media) = m.encode_audio s.samples_count s.media in
      let k =
        after_encoding-Keeps r t
          (record s { samples_count = s.samples_count + m.nb_samples; media = media }) in
      record { pcm = k.pcm; pts = k.pts }

  pub resample-pcm :
      (frame : Bytes) (t : ℕ) (s : Stream m.State)
      → let s' = (resample m frame t s).1 in
        (s'.pcm ≡ s.pcm) × (s'.next_pts ≡ s.next_pts + m.nb_samples)
  unfolding resample
  resample-pcm frame t s =
      let (ok, media) = m.swr_convert frame s.media in
      let s' : Stream m.State = record s { next_pts = s.next_pts + m.nb_samples; media = media } in
      if_elim
        (λ (r : Bool × Stream m.State).
          (r.1.pcm ≡ s.pcm) × (r.1.next_pts ≡ s.next_pts + m.nb_samples))
        ok (λ _. let k = encode_frame-Keeps t s' in (k.pcm, k.pts)) (λ _. (refl, refl))

  -- After data has been written: so many frames have been taken out, and less than a frame is left, the
  -- end of what was there with the data behind it.
  pub record Collected (frames : ℕ) (after : Stream m.State) (more : Bytes) (s : Stream m.State)
      (r : Option (Stream m.State)) : Type 0 where
    pub done : r ≡ some after
    pub enough : frames * m.raw_buff_size ≤ length (s.pcm ++ more)
    pub left : after.pcm ≡ drop (frames * m.raw_buff_size) (s.pcm ++ more)
    pub few : length after.pcm < m.raw_buff_size
    pub counted : after.next_pts ≡ s.next_pts + frames * m.nb_samples

  -- The bytes of these frames were handed to the converter, in order, and each frame to the encoder, with
  -- the number of its first sample.
  pub record Encoded (o : Observer m) (frames : ℕ) (after : Stream m.State) (more : Bytes)
      (s : Stream m.State) : Type 0 where
    pub bytes :
        o.taken after.media ≡ o.taken s.media ++ take (frames * m.raw_buff_size) (s.pcm ++ more)
    pub started :
        o.encoded after.media ≡ o.encoded s.media ++ numbers frames s.samples_count m.nb_samples
    pub samples : after.samples_count ≡ s.samples_count + frames * m.nb_samples

  module _ (o : Observer m) where
    -- Writing a packet is not seen.
    record Unseen (st : m.State) (count : ℕ) (s : Stream m.State) : Type 0 where
      taken : o.taken s.media ≡ o.taken st
      encoded : o.encoded s.media ≡ o.encoded st
      samples : s.samples_count ≡ count

    write_encoded-Unseen :
        (t : ℕ) (s : Stream m.State) → Unseen s.media s.samples_count (write_encoded m t s).1
    unfolding write_encoded
    write_encoded-Unseen t s =
        if_elim (λ (r : Bool × Stream m.State). Unseen s.media s.samples_count r.1)
          (ltb t s.audio_clock.last) (λ _. record { taken = refl; encoded = refl; samples = refl })
          (λ _. record {
            taken = o.write-taken _ s.media;
            encoded = o.write-encoded _ s.media;
            samples = refl;
          })

    after_encoding-Unseen :
        (r : Encoding) (t : ℕ) (s : Stream m.State)
        → Unseen s.media s.samples_count (after_encoding m r t s).1
    unfolding after_encoding
    after_encoding-Unseen failed t s = record { taken = refl; encoded = refl; samples = refl }
    after_encoding-Unseen nothing_yet t s = record { taken = refl; encoded = refl; samples = refl }
    after_encoding-Unseen got_packet t s = write_encoded-Unseen t s

    -- A frame is handed to the converter and to the encoder.
    pub record Passed (frame : Bytes) (s s' : Stream m.State) : Type 0 where
      pub taken : o.taken s'.media ≡ o.taken s.media ++ frame
      pub encoded : o.encoded s'.media ≡ o.encoded s.media ++ s.samples_count ∷ []
      pub samples : s'.samples_count ≡ s.samples_count + m.nb_samples

    pub resample-Passed :
        (frame : Bytes) (t : ℕ) (s : Stream m.State) → Passed frame s (resample m frame t s).1
    unfolding resample encode_frame
    resample-Passed frame t s =
        let (ok, media) = m.swr_convert frame s.media in
        let s1 : Stream m.State = record s {
          next_pts = s.next_pts + m.nb_samples;
          media = media;
        } in
        let (r, media') = m.encode_audio s1.samples_count media in
        let u =
          after_encoding-Unseen r t
            (record s1 { samples_count = s1.samples_count + m.nb_samples; media = media' }) in
        subst (λ (p : Bool × Stream m.State). Passed frame s p.1)
          (sym (if_then ok _ _ (o.converts frame s.media)))
          (record {
            taken = u.taken ∙ o.encode-taken s.samples_count media ∙ o.convert-taken frame s.media;
            encoded =
                u.encoded
                ∙ o.encode-encoded s.samples_count media
                ∙ ap (λ xs. xs ++ s.samples_count ∷ []) (o.convert-encoded frame s.media);
            samples = u.samples;
          })
