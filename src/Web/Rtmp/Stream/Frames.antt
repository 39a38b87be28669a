-- ===== src/Web/Rtmp/Stream/Frames.antt =====
-- RtmpStream.cpp: the samples that `write_audio_frame` collects.
use multi_process_server.Base.{
  ℕ, ◌+◌, ◌*◌, ◌≤◌, ◌<◌, ◌≡◌, refl, sym, ap, ◌∙◌, arith, ltb, Bool, if_elim, ltb→lt, ltb→le, ◌>>=◌,
  drop-append, drop-drop, take-append, take-add, append_assoc, Option, none, some, List, [], ◌∷◌,
  ◌++◌, Bytes, length, take, drop, append-nil, length-append, length-drop,
}
use native.Mathlib.Nat.{zero-mul, add-mul}
use multi_process_server.Web.Rtmp.Stream.{Media, Stream, pcm_capacity, resample, write_audio_frame}
use multi_process_server.Web.Rtmp.Stream.Observed.{
  Observer, numbers, numbers-add, Collected, Encoded, resample-pcm, resample-Passed,
}

module _ (m : Media) where
  -- Both, for some number of frames.
  abbrev Gathered : Bytes → Stream m.State → Option (Stream m.State) → Type 0
  Gathered more s r =
      (frames : ℕ) × (after : Stream m.State) × Collected m frames after more s r
      × ((o : Observer m) → Encoded m o frames after more s)

  -- A call of `write_audio_frame` whatever it returns.
  abbrev pub forget : Option (Bool × Stream m.State) → Option (Stream m.State)
  forget none = none
  forget (some (ok, s)) = some s

  abbrev pub write_one : Bytes × ℕ → Stream m.State → Option (Stream m.State)
  write_one (bytes, timestamp) s = forget (write_audio_frame m bytes timestamp s)

  abbrev pub write_all : List (Bytes × ℕ) → Stream m.State → Option (Stream m.State)
  write_all [] s = some s
  write_all (d ∷ ds) s = write_one d s >>= write_all ds

  abbrev pub all_bytes : List (Bytes × ℕ) → Bytes
  all_bytes [] = []
  all_bytes (d ∷ ds) = d.0 ++ all_bytes ds

  -- No piece is larger than a frame.
  abbrev pub AllFit : List (Bytes × ℕ) → Type 0
  AllFit [] = Unit {0}
  AllFit (d ∷ ds) = (length d.0 ≤ m.raw_buff_size) × AllFit ds

  -- Nothing is written.
  empty-Gathered : (s : Stream m.State) → length s.pcm < m.raw_buff_size → Gathered [] s (some s)
  empty-Gathered s few =
      let none : 0 * m.raw_buff_size ≡ 0 = zero-mul m.raw_buff_size in
      (
        0,
        s,
        record {
          done = refl;
          enough = omega arith;
          left = sym (append-nil s.pcm) ∙ sym (ap (λ k. drop k (s.pcm ++ [])) none);
          few = few;
          counted = omega arith;
        },
        λ o. record {
          bytes =
              sym (append-nil (o.taken s.media))
              ∙ ap (λ k. o.taken s.media ++ take k (s.pcm ++ [])) (sym none);
          started = sym (append-nil (o.encoded s.media));
          samples = omega arith;
        },
      )

  -- Data that does not make up a frame is kept.
  kept-Gathered :
      (bytes : Bytes) (s : Stream m.State)
      → length (s.pcm ++ bytes) < m.raw_buff_size
      → Gathered bytes s (some (record s { pcm = s.pcm ++ bytes }))
  kept-Gathered bytes s few =
      let none : 0 * m.raw_buff_size ≡ 0 = zero-mul m.raw_buff_size in
      (
        0,
        record s { pcm = s.pcm ++ bytes },
        record {
          done = refl;
          enough = omega arith;
          left = sym (ap (λ k. drop k (s.pcm ++ bytes)) none);
          few = few;
          counted = omega arith;
        },
        λ o. record {
          bytes =
              sym (append-nil (o.taken s.media))
              ∙ ap (λ k. o.taken s.media ++ take k (s.pcm ++ bytes)) (sym none);
          started = sym (append-nil (o.encoded s.media));
          samples = omega arith;
        },
      )

  -- A frame is taken out.
  framed-Gathered :
      (bytes : Bytes) (t : ℕ) (s : Stream m.State)
      → length s.pcm < m.raw_buff_size
      → length bytes ≤ m.raw_buff_size
      → m.raw_buff_size ≤ length (s.pcm ++ bytes)
      → let pcm = s.pcm ++ bytes in
        Gathered bytes s (
          some
            (resample m
              (take m.raw_buff_size pcm)
              t
              (record s { pcm = drop m.raw_buff_size pcm })).1)
  framed-Gathered bytes t s few fits here =
      let pcm = s.pcm ++ bytes in
      let rest : Stream m.State = record s { pcm = drop m.raw_buff_size pcm } in
      let (left, counted) = resample-pcm m (take m.raw_buff_size pcm) t rest in
      let one : 1 * m.raw_buff_size ≡ m.raw_buff_size = omega arith in
      (
        1,
        (resample m (take m.raw_buff_size pcm) t rest).1,
        record {
          done = refl;
          enough = omega (arith, one, here);
          left = left ∙ ap (λ k. drop k pcm) (sym one);
          few =
              omega
                (arith, ap length left, length-drop m.raw_buff_size pcm, length-append s.pcm bytes);
          counted = omega (arith, counted);
        },
        λ o.
            let p = resample-Passed m o (take m.raw_buff_size pcm) t rest in
            record {
              bytes = p.taken ∙ ap (λ k. o.taken s.media ++ take k pcm) (sym one);
              started = p.encoded;
              samples = omega (arith, p.samples);
            },
      )

  -- Data behind data.
  next-Gathered :
      (bytes more : Bytes) (s : Stream m.State) (r : Option (Stream m.State))
      (f : Stream m.State → Option (Stream m.State)) (one : Gathered bytes s r)
      → Gathered more one.1 (f one.1)
      → Gathered (bytes ++ more) s (r >>= f)
  next-Gathered bytes more s r f (k, mid, c, e) (l, end, c', e') =
      let first = k * m.raw_buff_size in
      let then_on = l * m.raw_buff_size in
      let parts : (k + l) * m.raw_buff_size ≡ first + then_on = add-mul k l m.raw_buff_size in
      let whole = s.pcm ++ (bytes ++ more) in
      let split : whole ≡ (s.pcm ++ bytes) ++ more = sym (append_assoc s.pcm bytes more) in
      let joined : mid.pcm ++ more ≡ drop first whole =
        ap (λ xs. xs ++ more) c.left
        ∙ sym (drop-append first (s.pcm ++ bytes) more c.enough)
        ∙ ap (drop first) (sym split) in
      (
        k + l,
        end,
        record {
          done = ap (λ r. r >>= f) c.done ∙ c'.done;
          enough = omega (
            arith,
            parts,
            c.enough,
            c'.enough,
            ap length joined,
            length-drop first whole,
            length-append s.pcm bytes,
            length-append s.pcm (bytes ++ more),
            length-append bytes more,
          );
          left =
              c'.left
              ∙ ap (drop then_on) joined
              ∙ sym (drop-drop first then_on whole)
              ∙ ap (λ k. drop k whole) (sym parts);
          few = c'.few;
          counted = omega (arith, c.counted, c'.counted, add-mul k l m.nb_samples);
        },
        λ o.
            let x = e o in
            let y = e' o in
            record {
              bytes =
                  y.bytes
                  ∙ ap (λ xs. xs ++ take then_on (mid.pcm ++ more)) x.bytes
                  ∙ append_assoc (o.taken s.media) (take first (s.pcm ++ bytes)) _
                  ∙ ap (◌++◌ (o.taken s.media)) (
                      ap (λ xs. take first (s.pcm ++ bytes) ++ take then_on xs) joined
                      ∙ ap (λ xs. xs ++ take then_on (drop first whole))
                          (sym (take-append first (s.pcm ++ bytes) more c.enough)
                            ∙ ap (take first) (sym split))
                      ∙ sym (take-add first then_on whole)
                      ∙ ap (λ k. take k whole) (sym parts));
              started =
                  y.started
                  ∙ ap (λ xs. xs ++ numbers l mid.samples_count m.nb_samples) x.started
                  ∙ append_assoc (o.encoded s.media) (numbers k s.samples_count m.nb_samples) _
                  ∙ ap (◌++◌ (o.encoded s.media)) (
                      ap (λ n. numbers k s.samples_count m.nb_samples ++ numbers l n m.nb_samples)
                        x.samples
                      ∙ sym (numbers-add k l s.samples_count m.nb_samples));
              samples = omega (arith, x.samples, y.samples, add-mul k l m.nb_samples);
            },
      )

  module _ (two_frames : 2 * m.raw_buff_size ≤ pcm_capacity) where
    write_one-Gathered :
        (d : Bytes × ℕ) (s : Stream m.State)
        → length s.pcm < m.raw_buff_size
        → length d.0 ≤ m.raw_buff_size
        → Gathered d.0 s (write_one d s)
    unfolding write_audio_frame
    write_one-Gathered (bytes, t) s few fits =
        let pcm = s.pcm ++ bytes in
        let n = length-append s.pcm bytes in
        let P : Option (Bool × Stream m.State) → Type 0 = λ r. Gathered bytes s (forget r) in
        if_elim P (ltb pcm_capacity (length pcm))
          (λ over. absurd (omega (arith, ltb→lt pcm_capacity (length pcm) over)))
          (λ _.
            if_elim P (ltb (length pcm) m.raw_buff_size)
              (λ small. kept-Gathered bytes s (ltb→lt (length pcm) m.raw_buff_size small))
              (λ large.
                framed-Gathered bytes t s few fits (ltb→le (length pcm) m.raw_buff_size large)))

    write_all-Gathered :
        (ds : List (Bytes × ℕ)) (s : Stream m.State)
        → length s.pcm < m.raw_buff_size
        → AllFit ds
        → Gathered (all_bytes ds) s (write_all ds s)
    write_all-Gathered [] s few all = empty-Gathered s few
    write_all-Gathered (d ∷ ds) s few (fits, all) =
        let one = write_one-Gathered d s few fits in
        next-Gathered d.0 (all_bytes ds) s (write_one d s) (write_all ds) one
          (write_all-Gathered ds one.1 one.2.few all)

    -- Pieces of at most a frame each, and frames of at most half of the array, where the converter takes
    -- every frame: no call writes past the end of the array. There is a number of frames such that
    -- afterwards less than a frame is left, the end of all the bytes, and that what the converter was
    -- handed is the rest, in order, and the encoder as many frames, numbered by their first samples.
    pub write_all-Encoded :
        (o : Observer m) (ds : List (Bytes × ℕ)) (s : Stream m.State)
        → length s.pcm < m.raw_buff_size
        → AllFit ds
        → (frames : ℕ) × (after : Stream m.State) × Collected m frames after
            (all_bytes ds)
            s
            (write_all ds s)
          × Encoded m o frames after (all_bytes ds) s
    write_all-Encoded o ds s few all =
        let (frames, after, c, e) = write_all-Gathered ds s few all in (frames, after, c, e o)

    unforget :
        (r : Option (Bool × Stream m.State)) (s : Stream m.State)
        → forget r ≡ some s
        → (ok : Bool) × (r ≡ some (ok, s))
    unforget none s e = absurd cc
    unforget (some (ok, s')) s e = (ok, ap (λ o. o >>= λ s. some (ok, s)) e)

    -- One piece of at most a frame stays inside the array, and leaves less than a frame.
    pub write_audio_frame-Fits :
        (bytes : Bytes) (t : ℕ) (s : Stream m.State)
        → length s.pcm < m.raw_buff_size
        → length bytes ≤ m.raw_buff_size
        → (ok : Bool) × (s' : Stream m.State) × (write_audio_frame m bytes t s ≡ some (ok, s'))
          × (length s'.pcm < m.raw_buff_size)
    write_audio_frame-Fits bytes t s few fits =
        let (frames, after, c, seen) = write_one-Gathered (bytes, t) s few fits in
        let (ok, e) = unforget (write_audio_frame m bytes t s) after c.done in (ok, after, e, c.few)
