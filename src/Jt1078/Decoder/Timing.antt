-- ===== src/Jt1078/Decoder/Timing.antt =====
-- Jt1078Decoder.cpp: the second header parser on the bytes that follow the first 16: the time stamp
-- and the intervals of a video packet, the time stamp of an audio packet, nothing in a route packet,
-- and the length of the body.
use multi_process_server.Base.{
  ℕ, ◌≤◌, ◌≡◌, refl, ap, subst, ◌∙◌, arith, length-append, true, ◌==◌, if◌then◌else◌, [], ◌∷◌, ◌++◌,
  append-nil, Bytes, length, big_endian,
}
use multi_process_server.Jt1078.Header.{Header, jt1078_max_length, data_type_audio, data_type_route}
use multi_process_server.Buffer.{skip}
use multi_process_server.Buffer.Contents.{IsReadable, readable}
use multi_process_server.Jt1078.Scan.{next, after, Reader, need, integer, require}
use multi_process_server.Jt1078.Scan.Fits.{Fits, bind-Fits, integer-Fits, update-Fits}
use multi_process_server.Jt1078.Decoder.{
  is_video_type, parse_header_step2, timing_fields, video_fields, audio_fields, body_length,
}
use multi_process_server.Jt1078.Decoder.Wire.{body_length-Fits, need_met}

-- What stands in front of the body length.
pub data Timing : Type 0 where
  video : Bytes → Bytes → Bytes → Timing
  audio : Bytes → Timing
  route : Timing

-- It belongs to a packet of the data type, and its numbers have eight and two bytes.
abbrev pub Timed : ℕ → Timing → Type 0
Timed k (video stamp last_i last) =
    (is_video_type k ≡ true) × (length stamp ≡ 8) × (length last_i ≡ 2) × (length last ≡ 2)
Timed k (audio stamp) = (k ≡ data_type_audio) × (length stamp ≡ 8)
Timed k route = k ≡ data_type_route

abbrev pub timing_bytes : Timing → Bytes
timing_bytes (video stamp last_i last) = stamp ++ (last_i ++ last)
timing_bytes (audio stamp) = stamp
timing_bytes route = []

abbrev pub timed : Timing → Header → Header
timed (video stamp last_i last) h = record h {
  time_stamp = big_endian stamp;
  last_i_frame_interval = big_endian last_i;
  last_frame_interval = big_endian last;
}
timed (audio stamp) h = record h { time_stamp = big_endian stamp }
timed route h = h

number-Fits :
    (n : ℕ) (xs : Bytes) (h : Header) → length xs ≡ n → Fits (integer n) xs h (big_endian xs) h
number-Fits n xs h e = subst (λ n. Fits (integer n) xs h (big_endian xs) h) e (integer-Fits xs h)

video_fields-Fits :
    (stamp last_i last : Bytes) (h : Header)
    → length stamp ≡ 8
    → length last_i ≡ 2
    → length last ≡ 2
    → Fits video_fields (stamp ++ (last_i ++ last)) h tt (timed (video stamp last_i last) h)
unfolding video_fields
video_fields-Fits stamp last_i last h e f g =
    subst
      (λ xs. Fits video_fields (stamp ++ (last_i ++ xs)) h tt (timed (video stamp last_i last) h))
      (append-nil last)
      (bind-Fits stamp (last_i ++ (last ++ [])) _ (number-Fits 8 stamp h e) (
        bind-Fits [] (last_i ++ (last ++ [])) _ (update-Fits _ _) (
          bind-Fits last_i (last ++ []) _ (number-Fits 2 last_i _ f) (
            bind-Fits [] (last ++ []) _ (update-Fits _ _)
              (bind-Fits last [] _ (number-Fits 2 last _ g) (update-Fits _ _))))))

audio_fields-Fits :
    (stamp : Bytes) (h : Header)
    → length stamp ≡ 8
    → Fits audio_fields stamp h tt (timed (audio stamp) h)
unfolding audio_fields
audio_fields-Fits stamp h e =
    subst (λ xs. Fits audio_fields xs h tt (timed (audio stamp) h)) (append-nil stamp)
      (bind-Fits stamp [] _ (number-Fits 8 stamp h e) (update-Fits _ _))

-- The header with the length of the body that the two bytes say.
abbrev pub with_length : ℕ → ℕ → Header → Header
with_length hi lo h = record h { body_len = big_endian (hi ∷ lo ∷ []) }

timing_fields_video :
    (k : ℕ) (r : Reader)
    → is_video_type k ≡ true
    → IsReadable r.input
    → 14 ≤ length (readable r.input)
    → timing_fields k r ≡ video_fields r
unfolding timing_fields
timing_fields_video k r kind sound enough =
    ap
      (λ b.
        (if b
            then (λ r. after (need 14 r) (λ _. video_fields))
            else if k == data_type_audio
            then (λ r. after (need 10 r) (λ _. audio_fields))
            else require (k == data_type_route))
          r)
      kind
    ∙ ap (λ s. after s (λ _. video_fields)) (need_met 14 r sound enough)

timing_fields_audio :
    (r : Reader)
    → IsReadable r.input
    → 10 ≤ length (readable r.input)
    → timing_fields data_type_audio r ≡ audio_fields r
unfolding timing_fields
timing_fields_audio r sound enough =
    ap (λ s. after s (λ _. audio_fields)) (need_met 10 r sound enough)

timing_fields_route : (r : Reader) → timing_fields data_type_route r ≡ next tt r
unfolding timing_fields require
timing_fields_route r = refl

module _ (hi lo : ℕ) (r : Reader) (rest : Bytes) where
  Parsed : Timing → Type 0
  Parsed t =
      IsReadable r.input
      → readable r.input ≡ (timing_bytes t ++ hi ∷ lo ∷ []) ++ rest
      → after (timing_fields r.header.data_type4 r) (λ _. body_length)
        ≡ next tt (record {
          header = with_length hi lo (timed t r.header);
          input = skip (length (timing_bytes t ++ hi ∷ lo ∷ [])) r.input;
        })

  timing_fields-Parsed :
      (t : Timing)
      → Timed r.header.data_type4 t
      → big_endian (hi ∷ lo ∷ []) ≤ jt1078_max_length
      → Parsed t
  unfolding Parsed
  timing_fields-Parsed (video stamp last_i last) (kind, e, f, g) small sound content =
      ap (λ s. after s (λ _. body_length))
        (timing_fields_video r.header.data_type4 r kind sound (
          omega (
            arith,
            e,
            f,
            g,
            ap length content,
            length-append ((stamp ++ (last_i ++ last)) ++ hi ∷ lo ∷ []) rest,
            length-append (stamp ++ (last_i ++ last)) (hi ∷ lo ∷ []),
            length-append stamp (last_i ++ last),
            length-append last_i last,
          )))
      ∙ bind-Fits (stamp ++ (last_i ++ last)) (hi ∷ lo ∷ []) (λ _. body_length)
          (video_fields-Fits stamp last_i last r.header e f g) (body_length-Fits hi lo _ small) r
          rest refl sound content
  timing_fields-Parsed (audio stamp) (kind, e) small sound content =
      ap (λ k. after (timing_fields k r) (λ _. body_length)) kind
      ∙ ap (λ s. after s (λ _. body_length))
          (timing_fields_audio r sound (
            omega (
              arith,
              e,
              ap length content,
              length-append (stamp ++ hi ∷ lo ∷ []) rest,
              length-append stamp (hi ∷ lo ∷ []),
            )))
      ∙ bind-Fits stamp (hi ∷ lo ∷ []) (λ _. body_length) (audio_fields-Fits stamp r.header e)
          (body_length-Fits hi lo _ small) r rest refl sound content
  timing_fields-Parsed route kind small sound content =
      ap (λ k. after (timing_fields k r) (λ _. body_length)) kind
      ∙ ap (λ s. after s (λ _. body_length)) (timing_fields_route r)
      ∙ body_length-Fits hi lo r.header small r rest refl sound content

  -- On the bytes behind the first 16 of a packet of this data type, with a body of at most 950 bytes,
  -- `ParseHeaderStep2` writes the fields that these bytes say, and takes them from the buffer.
  pub parse_header_step2-Parsed :
      (t : Timing)
      → Timed r.header.data_type4 t
      → big_endian (hi ∷ lo ∷ []) ≤ jt1078_max_length
      → IsReadable r.input
      → readable r.input ≡ (timing_bytes t ++ hi ∷ lo ∷ []) ++ rest
      → parse_header_step2 2 r
        ≡ next tt (record {
          header = with_length hi lo (timed t r.header);
          input = skip (length (timing_bytes t ++ hi ∷ lo ∷ [])) r.input;
        })
  unfolding parse_header_step2 Parsed
  parse_header_step2-Parsed t kind small sound content =
      ap (λ s. after s (λ _. λ r. after (timing_fields r.header.data_type4 r) (λ _. body_length)))
        (need_met 2 r sound (
          omega (
            arith,
            ap length content,
            length-append (timing_bytes t ++ hi ∷ lo ∷ []) rest,
            length-append (timing_bytes t) (hi ∷ lo ∷ []),
          )))
      ∙ timing_fields-Parsed t kind small sound content
