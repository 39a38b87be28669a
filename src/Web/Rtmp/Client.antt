-- ===== src/Web/Rtmp/Client.antt =====
-- web_server/rtmp/RtmpStream/RtmpClient.cpp: the packets of a car, for its RTMP stream. `none` is a
-- read or a write outside the memory of a call. `m_uPT`, which nothing reads, is left out.
pub mod Whole
pub mod Memory
use multi_process_server.Base.{
  ℕ, zero, suc, ◌+◌, ◌-◌, ◌*◌, ◌/◌, ◌%◌, ◌^◌, min, ltb, ◌==◌, if◌then◌else◌, Bool, true, false,
  ◌&&◌, ◌||◌, not, Option, none, some, ◌>>=◌, [], ◌∷◌, ◌++◌, Bytes, length, take, replicate, ℤ, pos,
  negsuc,
}
use multi_process_server.DeviceId.{generate_device_id_str_by_device_id}
use multi_process_server.Jt1078.Header.{
  Header, Packet, payload, data_type_video_i, data_type_video_p, data_type_video_b, data_type_audio,
  data_type_route,
}
use multi_process_server.Web.Audio.Codec.{
  AudioCodingType, g711_a, g711_u, adpcm, g726, unsupported, Coders, Codec, new_codec, decode_audio,
}
use multi_process_server.Web.Rtmp.Stream.{
  Media, Stream, new_stream, init, write_video_frame, write_audio_frame,
}

abbrev pub max_fake_audio_buffer_len : ℕ
max_fake_audio_buffer_len = 2048

-- `RCV_ATOMIC_PACKAGE` or `RCV_LAST_PACKAGE`.
abbrev pub is_completed : Header → Bool
is_completed h = h.subpackage_handle_mark4 == 0 || h.subpackage_handle_mark4 == 2

abbrev pub is_video : Header → Bool
is_video h =
    h.data_type4 == data_type_video_i
    || (h.data_type4 == data_type_video_p || h.data_type4 == data_type_video_b)

-- The coding type of a payload type.
abbrev pub coding_of : ℕ → AudioCodingType
coding_of pt =
    if pt == 6
    then g711_a
    else if pt == 7
    then g711_u
    else if pt == 8
    then g726
    else if pt == 26
    then adpcm
    else unsupported

abbrev pub is_unsupported : AudioCodingType → Bool
is_unsupported unsupported = true
is_unsupported _ = false

module _ (coders : Coders) (m : Media) where
  pub record Client : Type 0 where
    pub device_id : ℕ
    pub url_prefix : Bytes
    pub stream : Stream m.State
    pub video_buffer : Bytes
    pub audio_buffer : Bytes
    pub audio_decoder : Codec coders.Context
    pub car_have_audio : Bool
    pub start_video_time : ℕ
    pub last_video_time : ℕ
    pub send_audio_pkt_count : ℕ

  unfoldable pub new_client : ℕ → Bytes → m.State → Client
  unfolding new_codec
  new_client device_id url_prefix media = record {
    device_id = device_id;
    url_prefix = url_prefix;
    stream = new_stream m media;
    video_buffer = [];
    audio_buffer = [];
    audio_decoder = new_codec;
    car_have_audio = false;
    start_video_time = 0;
    last_video_time = 0;
    send_audio_pkt_count = 0;
  }

  abbrev pub Result : Type 0
  Result = Option (ℤ × Client)

  abbrev pub connect_to : Client → Bytes → Bool × Client
  connect_to c text =
      let (ok, stream) = init m (c.url_prefix ++ 47 ∷ text) c.stream in
      (ok, record c { stream = stream })

  -- Whether the stream is there, after an attempt to open it if it is not.
  unfoldable pub try_to_init_rtmp_stream : Client → Option (Bool × Client)
  unfolding init generate_device_id_str_by_device_id
  try_to_init_rtmp_stream c =
      if length c.url_prefix == 0
      then some (false, c)
      else if c.stream.connected
      then some (true, c)
      else (generate_device_id_str_by_device_id c.device_id >>= λ text. some (connect_to c text))

  -- The number of packets of 40 milliseconds since the first video frame; the arithmetic is modulo
  -- 2 ^ 64.
  abbrev pub due : ℕ → Client → ℕ
  due timestamp c = ((timestamp + 2 ^ 64 - c.start_video_time) % 2 ^ 64 + 39) % 2 ^ 64 / 40

  abbrev pub goes_on : ℕ → Client → Bool
  goes_on timestamp c =
      not (c.start_video_time == 0)
      && (not (c.last_video_time == 0) && ltb c.last_video_time timestamp)

  -- The length of the silence for a video frame of this time, and how many packets have been sent then.
  unfoldable pub fake_audio : ℕ → Client → ℕ × ℕ
  fake_audio timestamp c =
      let count = due timestamp c in
      let missing = 640 * (count - c.send_audio_pkt_count) % 2 ^ 64 in
      if goes_on timestamp c
      then (if ltb c.send_audio_pkt_count count
          then (min max_fake_audio_buffer_len missing, count)
          else (0, c.send_audio_pkt_count))
      else (640, c.send_audio_pkt_count)

  abbrev pub process_audio_data : Bytes → ℕ → Client → Option (Bool × Client)
  process_audio_data bytes timestamp c =
      write_audio_frame m bytes timestamp c.stream >>= λ (ok, s). some (ok, record c { stream = s })

  -- The times that `AddFakeAudioPcm` keeps.
  abbrev pub at_time : ℕ → Client → Client
  at_time timestamp c = record c {
    start_video_time = if c.start_video_time == 0 then timestamp else c.start_video_time;
    last_video_time = timestamp;
  }

  -- Its result is not used.
  unfoldable pub add_fake_audio_pcm : ℕ → Client → Option Client
  unfolding write_audio_frame fake_audio
  add_fake_audio_pcm timestamp c =
      let (n, count) = fake_audio timestamp c in
      let c' : Client = record c { send_audio_pkt_count = count } in
      if ltb 0 n
      then (process_audio_data (replicate n 0) timestamp c' >>= λ (ok, c'').
          some (at_time timestamp c''))
      else some (at_time timestamp c')

  -- Behind `ProcessVideoData`.
  unfoldable pub after_video : ℕ → Bool × Client → Result
  unfolding add_fake_audio_pcm
  after_video timestamp (ok, c) =
      if not ok
      then some (negsuc 1, c)
      else if c.car_have_audio
      then some (pos 0, c)
      else (add_fake_audio_pcm timestamp c >>= λ c'. some (pos 0, c'))

  unfoldable pub process_video : Packet → Client → Result
  unfolding write_video_frame after_video
  process_video p c =
      let collected = c.video_buffer ++ payload p in
      let (ok, s) = write_video_frame m collected p.header.time_stamp c.stream in
      if is_completed p.header
      then after_video p.header.time_stamp (ok, record c { video_buffer = []; stream = s })
      else some (pos 0, record c { video_buffer = collected })

  -- The samples that the decoder says, out of its buffer: a negative or too large number is a fault.
  abbrev pub samples_of : ℤ → Bytes → Option Bytes
  samples_of (pos n) out = if ltb (length out) n then none else some (take n out)
  samples_of (negsuc n) out = none

  unfoldable pub decoded : Codec coders.Context → Option Bytes
  decoded d = samples_of d.out_len d.out

  -- The failure of `ProcessAudioData` is kept in a variable of an inner scope, and 0 is returned.
  unfoldable pub play : Packet → Client → Result
  unfolding decode_audio decoded write_audio_frame
  play p c = decode_audio coders (coding_of p.header.pt7) c.audio_buffer c.audio_decoder >>= λ d.
      decoded d >>= λ samples.
      process_audio_data samples p.header.time_stamp (record c { audio_decoder = d })
      >>= λ (ok, c'). some (pos 0, record c' { audio_buffer = [] })

  unfoldable pub process_audio : Packet → Client → Result
  unfolding play
  process_audio p c =
      let c' : Client = record c {
        car_have_audio = true;
        audio_buffer = c.audio_buffer ++ payload p;
      } in
      if is_unsupported (coding_of p.header.pt7)
      then some (negsuc 2, c')
      else if is_completed p.header
      then play p c'
      else some (pos 0, c')

  -- `ProcessJt1078Packet` on an open stream.
  unfoldable pub process_packet : Packet → Client → Result
  unfolding process_video process_audio
  process_packet p c =
      if is_video p.header
      then process_video p c
      else if p.header.data_type4 == data_type_audio
      then process_audio p c
      else if p.header.data_type4 == data_type_route
      then some (pos 0, c)
      else some (negsuc 4, c)

  unfoldable pub process_jt1078_packet : Packet → Client → Result
  unfolding try_to_init_rtmp_stream process_packet
  process_jt1078_packet p c = try_to_init_rtmp_stream c >>= λ (ready, c').
      if ready then process_packet p c' else some (negsuc 0, c')
