-- ===== src/Web/Rtmp/Stream.antt =====
-- web_server/rtmp/RtmpStream/RtmpStream.cpp: the frames of a car, for an RTMP server. The calls of
-- ffmpeg are a parameter. `none` is a write past the end of the array of samples.
use multi_process_server.Base.{
  ℕ, zero, suc, ◌+◌, ◌-◌, ◌%◌, ◌^◌, ltb, ◌==◌, if◌then◌else◌, Bool, true, false, ◌&&◌, ◌||◌, not,
  Option, none, some, [], ◌∷◌, ◌++◌, Bytes, length, take, drop, get_or, ℤ, pos, signed,
}
pub mod Times
pub mod Observed
pub mod Frames
pub mod Key
pub mod Video

-- `m_ts_video_last` and `m_ts_video_offset`, and those of the audio.
pub record Clock : Type 0 where
  pub last : ℕ
  pub offset : ℕ

-- `GetAVPts`: the difference goes through `int32_t`, which keeps it modulo 2 ^ 32.
unfoldable pub get_av_pts : ℕ → Clock → ℤ × Clock
unfolding signed
get_av_pts timestamp k =
    let behind = (k.offset + (timestamp - k.last)) % 2 ^ 32 in
    if k.last == 0
    then (pos 0, record { last = timestamp; offset = 0 })
    else if ltb timestamp k.last
    then (signed 32 k.offset, k)
    else (signed 32 behind, record { last = timestamp; offset = behind })

-- What is handed to the muxer: which stream, the time, the duration, and for video the key flag and
-- the bytes. The bytes of an audio packet are the encoder's.
pub data Packet : Type 0 where
  video : ℤ → ℕ → Bool → Bytes → Packet
  audio : ℤ → ℕ → Packet

pub data Opening : Type 0 where
  not_opened : Opening
  no_header : Opening
  opened : Opening

pub data Encoding : Type 0 where
  failed : Encoding
  nothing_yet : Encoding
  got_packet : Encoding

-- ffmpeg: its contexts; the calls of `Init` up to `avio_open` and `avformat_write_header`; the size in
-- bytes and in samples of the frames of the encoder; resampling; encoding; writing to the muxer.
pub record Media : Type 1 where
  pub State : Type 0
  pub connect : Bytes → State → Opening × State
  pub raw_buff_size : ℕ
  pub nb_samples : ℕ
  pub swr_convert : Bytes → State → Bool × State
  pub encode_audio : ℕ → State → Encoding × State
  pub write_frame : Packet → State → Bool × State

abbrev pub pcm_capacity : ℕ
pcm_capacity = 4096

-- The members of `CRtmpStream`; `pcm` is the first `pcmencodesize` bytes of `pcmencodebuf`. `ptsInc`,
-- from which a time is computed that is overwritten, is left out.
pub record Stream (State : Type 0) : Type 0 where
  pub connected : Bool
  pub is_pushing : Bool
  pub url : Bytes
  pub pcm : Bytes
  pub next_pts : ℕ
  pub samples_count : ℕ
  pub video_clock : Clock
  pub audio_clock : Clock
  pub media : State

-- `isIdrFrame2`, on the byte behind a start code.
unfoldable pub is_idr_frame2 : ℕ → Bool
is_idr_frame2 b = b % 32 == 7 || (b % 32 == 8 || b % 32 == 5)

-- 0, 0, 1 up to this position.
abbrev pub is_start_code : Bytes → ℕ → Bool
is_start_code buf i =
    get_or buf (i - 2) 0 == 0 && (get_or buf (i - 1) 0 == 0 && get_or buf i 0 == 1)

-- The loop of `isIdrFrame1`, from a position on, with `last`. A zero stands behind the bytes.
unfoldable pub idr_loop : Bytes → ℕ → ℕ → ℕ → Bool
unfolding is_idr_frame2
idr_loop buf zero i last = false
idr_loop buf (suc k) i last =
    let found = not (last == 0) && is_idr_frame2 (get_or buf last 0) in
    let at_start = idr_loop buf k (i + 1) (i + 1) in
    let onward = idr_loop buf k (i + 1) last in
    if i == length buf
    then (if found then true else onward)
    else if is_start_code buf i
    then (if found then true else at_start)
    else onward

unfoldable pub is_idr_frame1 : Bytes → Bool
unfolding idr_loop
is_idr_frame1 buf = idr_loop buf (length buf - 1) 2 0

module _ (m : Media) where
  abbrev pub new_stream : m.State → Stream m.State
  new_stream media = record {
    connected = false;
    is_pushing = false;
    url = [];
    pcm = [];
    next_pts = 0;
    samples_count = 0;
    video_clock = record { last = 0; offset = 0 };
    audio_clock = record { last = 0; offset = 0 };
    media = media;
  }

  -- `Init`: it says that it is connected before it writes the header.
  unfoldable pub init : Bytes → Stream m.State → Bool × Stream m.State
  init url s =
      let (r, media) = m.connect url s.media in
      elim r [
        | not_opened ↦ (false, record s { url = url; media = media })
        | no_header ↦ (false, record s { url = url; media = media; connected = true })
        | opened ↦
            (true, record s { url = url; media = media; connected = true; is_pushing = true })
      ]

  -- The result of `write_frame`, with the contexts afterwards.
  abbrev pub put : Packet → Stream m.State → Bool × Stream m.State
  put p s = let (ok, media) = m.write_frame p s.media in (ok, record s { media = media })

  unfoldable pub write_video_frame : Bytes → ℕ → Stream m.State → Bool × Stream m.State
  unfolding get_av_pts is_idr_frame1
  write_video_frame bytes timestamp s =
      let last = s.video_clock.last in
      let (ts, clock) = get_av_pts timestamp s.video_clock in
      let s' : Stream m.State = record s { video_clock = clock } in
      if ltb timestamp last
      then (true, s')
      else put (video ts (timestamp - last) (is_idr_frame1 bytes) bytes) s'

  -- From the check of `got_packet` on.
  unfoldable pub write_encoded : ℕ → Stream m.State → Bool × Stream m.State
  unfolding get_av_pts
  write_encoded timestamp s =
      let last = s.audio_clock.last in
      let (ts, clock) = get_av_pts timestamp s.audio_clock in
      let s' : Stream m.State = record s { audio_clock = clock } in
      if ltb timestamp last then (true, s') else put (audio ts (timestamp - last)) s'

  unfoldable pub after_encoding : Encoding → ℕ → Stream m.State → Bool × Stream m.State
  unfolding write_encoded
  after_encoding failed timestamp s = (false, s)
  after_encoding nothing_yet timestamp s = (true, s)
  after_encoding got_packet timestamp s = write_encoded timestamp s

  unfoldable pub encode_frame : ℕ → Stream m.State → Bool × Stream m.State
  unfolding after_encoding
  encode_frame timestamp s =
      let (r, media) = m.encode_audio s.samples_count s.media in
      after_encoding r timestamp
        (record s { samples_count = s.samples_count + m.nb_samples; media = media })

  -- A frame that is taken out of the array of samples.
  unfoldable pub resample : Bytes → ℕ → Stream m.State → Bool × Stream m.State
  unfolding encode_frame
  resample frame timestamp s =
      let (ok, media) = m.swr_convert frame s.media in
      let s' : Stream m.State = record s { next_pts = s.next_pts + m.nb_samples; media = media } in
      if ok then encode_frame timestamp s' else (false, s')

  unfoldable pub write_audio_frame : Bytes → ℕ → Stream m.State → Option (Bool × Stream m.State)
  unfolding resample
  write_audio_frame bytes timestamp s =
      let pcm = s.pcm ++ bytes in
      if ltb pcm_capacity (length pcm)
      then none
      else if ltb (length pcm) m.raw_buff_size
      then some (true, record s { pcm = pcm })
      else some (
          resample (take m.raw_buff_size pcm) timestamp
            (record s { pcm = drop m.raw_buff_size pcm }))
